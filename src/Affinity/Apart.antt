-- ===== src/Affinity/Apart.antt =====
-- The masks of a node's tasks (auto-affinity.c).
use slurm_spank_plugins.Base.{
  ℕ, suc, ◌+◌, ◌*◌, ◌-◌, ◌%◌, ◌<◌, ◌≤◌, true, ◌≡◌, ◌≢◌, ◌∙◌, sym, ap, arith, ◌⊎◌, inl, inr,
}
use slurm_spank_plugins.Affinity.Cpus.{CpuSet, cpu_isset, cpu_set_count}
use slurm_spank_plugins.Affinity.Masks.{Affinity, next_cpu, previous_cpu, get_cpus_per_task}

-- The tasks do not need more CPUs than there are.
pub record HasRoom (a : Affinity) : Type 0 where
  pub some_cpus : 0 < get_cpus_per_task a
  pub all_fit : a.ntasks * get_cpus_per_task a ≤ a.ncpus_available

-- The position that a task's `k`-th CPU has, counted from the front.
abbrev pub front : Affinity → ℕ → ℕ → ℕ
front a l k = (l * get_cpus_per_task a + a.startcpu + k) % a.ncpus_available

abbrev pub back : Affinity → ℕ → ℕ → ℕ
back a l k = a.ncpus_available - 1 - front a l k

-- A mask of the right size with available CPUs.
pub record IsTaskMask (a : Affinity) (t : CpuSet) : Type 0 where
  pub available : (b : ℕ) → cpu_isset b t ≡ true → cpu_isset b a.cpus_available ≡ true
  pub size : cpu_set_count a.ncpus t ≡ get_cpus_per_task a

mod_step : (x n : ℕ) → x % n + 1 < n → (x + 1) % n ≡ x % n + 1
mod_step x n h = grind arith

mod_wrap : (x n : ℕ) → 0 < n → x % n + 1 ≡ n → (x + 1) % n ≡ 0
mod_wrap x n h e = grind arith

mod_small : (r n : ℕ) → r < n → r % n ≡ r
mod_small r n h = grind arith

mod_self : (r n : ℕ) → 0 < n → r ≡ n → r % n ≡ 0
mod_self r n h e = grind arith

mod_apart : (x y n : ℕ) → x < y → y < x + n → x % n ≢ y % n
mod_apart x y n h k e = grind arith

step_cases : (x n : ℕ) → 0 < n → (x % n + 1 < n) ⊎ (x % n + 1 ≡ n)
step_cases x n h = omega arith

next_lem : (x n : ℕ) → 0 < n → next_cpu n (x % n) ≡ (x + 1) % n
next_lem x n h = elim (step_cases x n h) [
  | inl lt ↦ mod_small (x % n + 1) n lt ∙ sym (mod_step x n lt)
  | inr e ↦ mod_self (x % n + 1) n h e ∙ sym (mod_wrap x n h e)
]

previous_zero : (n c : ℕ) → c ≡ 0 → previous_cpu n c ≡ n - 1
previous_zero n c e = ground arith

previous_suc : (n c d : ℕ) → c ≡ suc d → previous_cpu n c ≡ d
previous_suc n c d e = ground arith

previous_lem : (x n : ℕ) → 0 < n → previous_cpu n (n - 1 - x % n) ≡ n - 1 - (x + 1) % n
previous_lem x n h = elim (step_cases x n h) [
  | inl lt ↦
      previous_suc n (n - 1 - x % n) (n - 1 - (x % n + 1)) (omega arith)
      ∙ ap (λ r. n - 1 - r) (sym (mod_step x n lt))
  | inr e ↦ previous_zero n (n - 1 - x % n) (omega arith) ∙ omega (arith, mod_wrap x n h e)
]

-- Different tasks, or different turns of one task, have different places.
pub turns_lt :
    (c l m j k nt : ℕ)
    → l < m
    → m < nt
    → j < c
    → k < c
    → (l * c + j < m * c + k) × (m * c + k < nt * c)
turns_lt c l m j k nt lm mn jc kc = (grind arith, grind arith)

pub front_step :
    (a : Affinity) (l k : ℕ)
    → 0 < a.ncpus_available
    → next_cpu a.ncpus_available (front a l k) ≡ front a l (suc k)
front_step a l k h =
    next_lem (l * get_cpus_per_task a + a.startcpu + k) a.ncpus_available h
    ∙ ap (λ x. x % a.ncpus_available) (omega arith)

pub back_step :
    (a : Affinity) (l k : ℕ)
    → 0 < a.ncpus_available
    → previous_cpu a.ncpus_available (back a l k) ≡ back a l (suc k)
back_step a l k h =
    previous_lem (l * get_cpus_per_task a + a.startcpu + k) a.ncpus_available h
    ∙ ap (λ x. a.ncpus_available - 1 - x % a.ncpus_available) (omega arith)

-- The places of two turns of the tasks, the second later than the first, differ.
pub front_apart :
    (a : Affinity)
    → HasRoom a
    → (l m j k : ℕ) → (l < m) ⊎ ((l ≡ m) × (j < k))
    → m < a.ntasks
    → j < get_cpus_per_task a
    → k < get_cpus_per_task a
    → front a l j ≢ front a m k
front_apart a room l m j k later mn jc kc =
    let c = get_cpus_per_task a in
    elim later [
      | inl lt ↦
          let (p, q) = turns_lt c l m j k a.ntasks lt mn jc kc in
          mod_apart (l * c + a.startcpu + j) (m * c + a.startcpu + k) a.ncpus_available
            (omega arith) (omega (arith, room.all_fit))
      | inr (same, lt) ↦
          let whole : c ≤ a.ntasks * c = grind arith in
          mod_apart (l * c + a.startcpu + j) (m * c + a.startcpu + k) a.ncpus_available
            (rw same (omega arith)) (rw same (omega (arith, room.all_fit)))
    ]

pub has_cpus : (a : Affinity) → HasRoom a → (l : ℕ) → l < a.ntasks → 0 < a.ncpus_available
has_cpus a room l h =
    let whole : get_cpus_per_task a ≤ a.ntasks * get_cpus_per_task a = grind arith in
    omega (arith, room.all_fit, room.some_cpus)
