-- ===== src/Affinity/Disjoint.antt =====
-- The tasks of a node get masks of their own (auto-affinity.c).
use slurm_spank_plugins.Base.{
  ℕ, zero, suc, ◌+◌, ◌*◌, ◌-◌, ◌%◌, ◌^◌, leb, ◌<◌, ◌≤◌, ◌==◌, true, false, ◌&&◌, ◌≡◌, ◌≢◌, ◌∙◌, sym,
  ap, refl, arith, ◌⊎◌, inl, inr, Bool-cases,
}
use slurm_spank_plugins.Affinity.Cpus.{CpuSet, cpu_isset, cpu_zero, cpu_set_count}
use slurm_spank_plugins.Affinity.Masks.{
  Affinity, Result, done, failed, fault, set_cpu, set_cpus, with_int, next_cpu, previous_cpu,
  get_cpus_per_task, generate_mask, generate_mask_reverse,
}
use slurm_spank_plugins.Affinity.Place.{IsMap, At, At-distinct, Covers, set_cpus-Covers}
use slurm_spank_plugins.Affinity.Apart.{
  HasRoom, IsTaskMask, turns_lt, front, back, front_step, back_step, front_apart, has_cpus,
}

set_cpus_one :
    (a : Affinity) (next : ℕ → ℕ) (p : ℕ) (s : CpuSet) → set_cpus a next 1 p s ≡ set_cpu a p s
unfolding set_cpus
set_cpus_one a next p s = go (set_cpu a p s)
  where
    go : (r : Result) → elim r [ done t ↦ done t | failed t ↦ failed t | fault ↦ fault ] ≡ r
    go (done t) = refl
    go (failed t) = refl
    go fault = refl

zero_count : (n : ℕ) → cpu_set_count n cpu_zero ≡ 0
unfolding cpu_set_count cpu_isset
zero_count zero = refl
zero_count (suc n) = ground (arith, zero_count n)

zero_clear : (b : ℕ) → cpu_isset b cpu_zero ≡ false
unfolding cpu_isset
zero_clear b = ground arith

-- What a way through the positions gives the tasks.
module _ (a : Affinity) (ok : IsMap a) (room : HasRoom a) (next : ℕ → ℕ) (pos : ℕ → ℕ → ℕ)
    (small : (l k : ℕ) → l < a.ntasks → pos l k < a.ncpus_available)
    (step : (l k : ℕ) → l < a.ntasks → next (pos l k) ≡ pos l (suc k))
    (apart : (l m j k : ℕ)
      → (l < m) ⊎ ((l ≡ m) × (j < k))
      → m < a.ntasks
      → j < get_cpus_per_task a
      → k < get_cpus_per_task a
      → pos l j ≢ pos m k) where
  task_run :
      (l : ℕ)
      → l < a.ntasks
      → (t : CpuSet) × (set_cpus a next (get_cpus_per_task a) (pos l 0) cpu_zero ≡ done t)
        × Covers a ok (pos l) (get_cpus_per_task a) cpu_zero t
  task_run l h =
      set_cpus-Covers a ok next (pos l) (get_cpus_per_task a) cpu_zero (λ k. small l k h)
        (λ k. step l k h) (λ j k lt hk. apart l l j k (inr (refl, lt)) h (omega arith) hk)
        (λ k b lt at. zero_clear b)

  place_of :
      (l : ℕ) (t : CpuSet)
      → Covers a ok (pos l) (get_cpus_per_task a) cpu_zero t
      → (b : ℕ) → cpu_isset b t ≡ true
      → (k : ℕ) × (k < get_cpus_per_task a) × At a (pos l k) b
  place_of l t c b h = elim (c.sound b h) [
    | inl e ↦ absurd (ground (arith, zero_clear b))
    | inr r ↦ r
  ]

  task_mask :
      (l : ℕ) (t : CpuSet) → Covers a ok (pos l) (get_cpus_per_task a) cpu_zero t → IsTaskMask a t
  task_mask l t c = record {
    available = λ b h. let (k, lt, at) = place_of l t c b h in at.available.isset;
    size = omega (arith, c.size, zero_count a.ncpus);
  }

  disjoint_later :
      (l m : ℕ) (t u : CpuSet)
      → l < m
      → m < a.ntasks
      → Covers a ok (pos l) (get_cpus_per_task a) cpu_zero t
      → Covers a ok (pos m) (get_cpus_per_task a) cpu_zero u
      → (b : ℕ) → cpu_isset b t ≡ true
      → cpu_isset b u ≡ true
      → ⊥
  disjoint_later l m t u lt h c d b e f =
      let (j, jc, v) = place_of l t c b e in
      let (k, kc, w) = place_of m u d b f in
      apart l m j k (inl lt) h jc kc
        (At-distinct a ok (pos l j) (pos m k) b (small l j (omega arith)) (small m k h) v w)

  pub tasks_apart :
      (l m : ℕ)
      → l < m
      → m < a.ntasks
      → (t : CpuSet) × (u : CpuSet) × (set_cpus a next (get_cpus_per_task a) (pos l 0) cpu_zero
          ≡ done t)
        × (set_cpus a next (get_cpus_per_task a) (pos m 0) cpu_zero ≡ done u)
        × IsTaskMask a t
        × IsTaskMask a u
        × ((b : ℕ) → cpu_isset b t && cpu_isset b u ≡ false)
  tasks_apart l m lt h =
      let (t, e, c) = task_run l (omega arith) in
      let (u, f, d) = task_run m h in
      (
        t,
        u,
        e,
        f,
        task_mask l t c,
        task_mask m u d,
        λ b. elim (Bool-cases (cpu_isset b t)) [
          | inr clear ↦ ground arith
          | inl set ↦ elim (Bool-cases (cpu_isset b u)) [
            | inr clear ↦ ground arith
            | inl too ↦ absurd (disjoint_later l m t u lt h c d b set too)
          ]
        ],
      )

with_int_small : (n : ℕ) (k : ℕ → Result) → n < 2 ^ 31 → with_int n k ≡ k n
unfolding with_int
with_int_small n k h = let small : leb (2 ^ 31) n ≡ false = ground arith in rw small refl

generate_mask_run :
    (a : Affinity) (l : ℕ) (s : CpuSet)
    → l * get_cpus_per_task a + a.startcpu < 2 ^ 31
    → (get_cpus_per_task a ≡ 1 → l + a.startcpu < a.ncpus_available)
    → generate_mask a s l
      ≡ set_cpus a (next_cpu a.ncpus_available) (get_cpus_per_task a) (front a l 0) s
unfolding generate_mask
generate_mask_run a l s int one = elim (Bool-cases (get_cpus_per_task a == 1)) [
  | inl e ↦
      let f : get_cpus_per_task a ≡ 1 = ground arith in
      let same : l + a.startcpu ≡ front a l 0 = let h = one f in rw f (grind arith) in
      rw e (
        with_int_small (l + a.startcpu) (λ sum. set_cpu a sum s)
          (let fits : l * 1 + a.startcpu < 2 ^ 31 = rw f at int in omega arith)
        ∙ ap (λ p. set_cpu a p s) same
        ∙ sym (set_cpus_one a (next_cpu a.ncpus_available) (front a l 0) s)
        ∙ ap (λ c. set_cpus a (next_cpu a.ncpus_available) c (front a l 0) s) (sym f))
  | inr e ↦ rw e (
      with_int_small (l * get_cpus_per_task a + a.startcpu)
        (λ sum.
          set_cpus a (next_cpu a.ncpus_available) (get_cpus_per_task a) (sum % a.ncpus_available) s)
        int
      ∙ ap
          (λ x.
            set_cpus a (next_cpu a.ncpus_available) (get_cpus_per_task a) (x % a.ncpus_available) s)
          (omega arith))
]

generate_mask_reverse_run :
    (a : Affinity) (l : ℕ) (s : CpuSet)
    → l * get_cpus_per_task a + a.startcpu < 2 ^ 31
    → generate_mask_reverse a s l
      ≡ set_cpus a (previous_cpu a.ncpus_available) (get_cpus_per_task a) (back a l 0) s
unfolding generate_mask_reverse
generate_mask_reverse_run a l s int = elim (Bool-cases (get_cpus_per_task a == 1)) [
  | inl e ↦
      let f : get_cpus_per_task a ≡ 1 = ground arith in
      let same : l + a.startcpu ≡ l * get_cpus_per_task a + a.startcpu + 0 = rw f (omega arith) in
      rw e (
        with_int_small (l + a.startcpu)
          (λ sum. set_cpu a (a.ncpus_available - 1 - sum % a.ncpus_available) s)
          (let fits : l * 1 + a.startcpu < 2 ^ 31 = rw f at int in omega arith)
        ∙ ap (λ x. set_cpu a (a.ncpus_available - 1 - x % a.ncpus_available) s) same
        ∙ sym (set_cpus_one a (previous_cpu a.ncpus_available) (back a l 0) s)
        ∙ ap (λ c. set_cpus a (previous_cpu a.ncpus_available) c (back a l 0) s) (sym f))
  | inr e ↦ rw e (
      with_int_small (l * get_cpus_per_task a + a.startcpu)
        (λ sum.
          set_cpus a (previous_cpu a.ncpus_available) (get_cpus_per_task a)
            (a.ncpus_available - 1 - sum % a.ncpus_available) s)
        int
      ∙ ap
          (λ x.
            set_cpus a (previous_cpu a.ncpus_available) (get_cpus_per_task a)
              (a.ncpus_available - 1 - x % a.ncpus_available) s)
          (omega arith))
]

back_apart : (n x y : ℕ) → x < n → y < n → x ≢ y → n - 1 - x ≢ n - 1 - y
back_apart n x y h k ne e = ne (omega arith)

-- The sums of the tasks are ints, if the one behind the last task is at most 2 ^ 31.
int_task :
    (a : Affinity) (l : ℕ)
    → HasRoom a
    → a.ntasks * get_cpus_per_task a + a.startcpu ≤ 2 ^ 31
    → l < a.ntasks
    → l * get_cpus_per_task a + a.startcpu < 2 ^ 31
int_task a l room int h =
    let (first, last) =
      turns_lt (get_cpus_per_task a) l (l + 1) 0 0 (a.ntasks + 1) (omega arith) (omega arith)
        room.some_cpus room.some_cpus in
    omega arith

-- Where the position map is one and the tasks need no more CPUs than are available, two tasks of a
-- node both get as many available CPUs as a task is to have, and none of them is the other's. With
-- one CPU per task the first CPU must leave room for all tasks, since positions do not wrap there. The
-- sum of the first CPU and the CPUs of all tasks is at most 2 ^ 31, so that no int overflows.
pub generate_mask-Disjoint :
    (a : Affinity)
    → IsMap a
    → HasRoom a
    → a.ntasks * get_cpus_per_task a + a.startcpu ≤ 2 ^ 31
    → (get_cpus_per_task a ≡ 1 → a.ntasks + a.startcpu ≤ a.ncpus_available)
    → (l m : ℕ) → l < m
    → m < a.ntasks
    → (t : CpuSet) × (u : CpuSet) × (generate_mask a cpu_zero l ≡ done t)
      × (generate_mask a cpu_zero m ≡ done u)
      × IsTaskMask a t
      × IsTaskMask a u
      × ((b : ℕ) → cpu_isset b t && cpu_isset b u ≡ false)
generate_mask-Disjoint a ok room int one l m lt h =
    let n : 0 < a.ncpus_available = has_cpus a room m h in
    let (t, u, e, f, mt, mu, none_shared) =
      tasks_apart a ok room (next_cpu a.ncpus_available) (front a) (λ i k hi. omega arith)
        (λ i k hi. front_step a i k n) (front_apart a room) l m lt h in
    (
      t,
      u,
      generate_mask_run a l cpu_zero (int_task a l room int (omega arith))
            (λ c. let r = one c in omega arith)
          ∙ e,
      generate_mask_run a m cpu_zero (int_task a m room int (omega arith))
            (λ c. let r = one c in omega arith)
          ∙ f,
      mt,
      mu,
      none_shared,
    )

-- The same from the last CPU on: where the position map is one and the tasks need no more CPUs than are
-- available, two tasks of a node both get as many available CPUs as a task is to have, and none of them
-- is the other's, with any first CPU for which its sum with the CPUs of all tasks is at most 2 ^ 31,
-- so that no int overflows.
pub generate_mask_reverse-Disjoint :
    (a : Affinity)
    → IsMap a
    → HasRoom a
    → a.ntasks * get_cpus_per_task a + a.startcpu ≤ 2 ^ 31
    → (l m : ℕ) → l < m
    → m < a.ntasks
    → (t : CpuSet) × (u : CpuSet) × (generate_mask_reverse a cpu_zero l ≡ done t)
      × (generate_mask_reverse a cpu_zero m ≡ done u)
      × IsTaskMask a t
      × IsTaskMask a u
      × ((b : ℕ) → cpu_isset b t && cpu_isset b u ≡ false)
generate_mask_reverse-Disjoint a ok room int l m lt h =
    let n : 0 < a.ncpus_available = has_cpus a room m h in
    let (t, u, e, f, mt, mu, none_shared) =
      tasks_apart a ok room (previous_cpu a.ncpus_available) (back a) (λ i k hi. omega arith)
        (λ i k hi. back_step a i k n)
        (λ i j p q later hj hp hq.
          back_apart a.ncpus_available (front a i p) (front a j q) (omega arith) (omega arith)
            (front_apart a room i j p q later hj hp hq))
        l m lt h in
    (
      t,
      u,
      generate_mask_reverse_run a l cpu_zero (int_task a l room int (omega arith)) ∙ e,
      generate_mask_reverse_run a m cpu_zero (int_task a m room int (omega arith)) ∙ f,
      mt,
      mu,
      none_shared,
    )
