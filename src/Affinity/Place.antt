-- ===== src/Affinity/Place.antt =====
-- Which CPUs a run of positions of the position map sets (auto-affinity.c).
use mathlib.Core.Path.{subst}
use slurm_spank_plugins.Base.{
  ℕ, zero, suc, ◌+◌, ◌<◌, ◌==◌, true, false, ◌≡◌, ◌≢◌, ◌∙◌, sym, ap, refl, arith, some, Bool-cases,
  ◌⊎◌, inl, inr, get_elem?,
}
use slurm_spank_plugins.Cpuset.Bitmask.{count_below}
use slurm_spank_plugins.Cpuset.Bitmask.Count.{count_below-set}
use slurm_spank_plugins.Affinity.Cpus.{CpuSet, cpu_setsize, cpu_isset, cpu_set, cpu_set_count}
use slurm_spank_plugins.Affinity.Masks.{Affinity, done, set_cpu, set_cpus}
use slurm_spank_plugins.Affinity.Available.{IsAvailable, mask_to_available-finds}

-- Each position below the number of available CPUs stands for one of them, and for another each.
pub record IsMap (a : Affinity) : Type 0 where
  pub counted : cpu_set_count a.ncpus a.cpus_available ≡ a.ncpus_available
  pub mapped :
      (p : ℕ)
      → p < a.ncpus_available
      → (id : ℕ) × (get_elem? a.cpu_position_map p ≡ some id) × (id < a.ncpus_available)
  pub distinct :
      (p q : ℕ)
      → p < a.ncpus_available
      → q < a.ncpus_available
      → get_elem? a.cpu_position_map p ≡ get_elem? a.cpu_position_map q
      → p ≡ q

-- The CPU at a position.
pub record At (a : Affinity) (p bit : ℕ) : Type 0 where
  pub id : ℕ
  pub position : get_elem? a.cpu_position_map p ≡ some id
  pub available : IsAvailable a.cpus_available a.ncpus id bit

pub isset-cpu_set_self : (b : ℕ) (s : CpuSet) → b < cpu_setsize → cpu_isset b (cpu_set b s) ≡ true
unfolding cpu_isset cpu_set
isset-cpu_set_self b s h = ground arith

isset-cpu_set_ne : (b j : ℕ) (s : CpuSet) → b ≢ j → cpu_isset j (cpu_set b s) ≡ cpu_isset j s
unfolding cpu_isset cpu_set
isset-cpu_set_ne b j s h = ground arith

isset-cpu_set_mono :
    (b j : ℕ) (s : CpuSet) → cpu_isset j s ≡ true → cpu_isset j (cpu_set b s) ≡ true
unfolding cpu_isset cpu_set
isset-cpu_set_mono b j s h = ground arith

isset_size : (b : ℕ) (s : CpuSet) → cpu_isset b s ≡ true → b < cpu_setsize
unfolding cpu_isset
isset_size b s h = ground arith

count_lem : (n : ℕ) (s : CpuSet) → cpu_set_count n s ≡ count_below (λ i. cpu_isset i s) n
unfolding cpu_set_count
count_lem zero s = refl
count_lem (suc n) s = ground (arith, count_lem n s)

count-cpu_set :
    (b n : ℕ) (s : CpuSet)
    → b < n
    → b < cpu_setsize
    → cpu_isset b s ≡ false
    → cpu_set_count n (cpu_set b s) ≡ suc (cpu_set_count n s)
count-cpu_set b n s h size clear =
    count_lem n (cpu_set b s)
    ∙ count_below-set (λ i. cpu_isset i s) (λ i. cpu_isset i (cpu_set b s)) b n clear
        (isset-cpu_set_self b s size) (λ j. isset-cpu_set_ne b j s) h
    ∙ ap suc (sym (count_lem n s))

set_cpus_step :
    (a : Affinity) (next : ℕ → ℕ) (left p p' : ℕ) (s s' : CpuSet)
    → set_cpu a p s ≡ done s'
    → next p ≡ p'
    → set_cpus a next (suc left) p s ≡ set_cpus a next left p' s'
unfolding set_cpus
set_cpus_step a next left p p' s s' e f = ground arith

module _ (a : Affinity) (ok : IsMap a) where
  set_cpu-At :
      (p : ℕ)
      → p < a.ncpus_available
      → (bit : ℕ) × At a p bit × ((s : CpuSet) → set_cpu a p s ≡ done (cpu_set bit s))
  unfolding set_cpu
  set_cpu-At p h =
      let (id, e, lt) = ok.mapped p h in
      let (bit, f, v) =
        mask_to_available-finds a.cpus_available a.ncpus id (omega (arith, ok.counted)) in
      (bit, record { id = id; position = e; available = v }, λ s. ground arith)

  -- Two positions do not share a CPU.
  pub At-distinct :
      (p q bit : ℕ)
      → p < a.ncpus_available
      → q < a.ncpus_available
      → At a p bit
      → At a q bit
      → p ≡ q
  At-distinct p q bit h k u v =
      ok.distinct p q h k
        (u.position ∙ ap some (sym u.available.index ∙ v.available.index) ∙ sym v.position)

  -- The set `t` is the set `s` with the CPUs at `left` positions, all of them new.
  pub record Covers (pos : ℕ → ℕ) (left : ℕ) (s t : CpuSet) : Type 0 where
    pub sound :
        (b : ℕ)
        → cpu_isset b t ≡ true
        → (cpu_isset b s ≡ true) ⊎ ((k : ℕ) × (k < left) × At a (pos k) b)
    pub size : cpu_set_count a.ncpus t ≡ cpu_set_count a.ncpus s + left

  pub set_cpus-Covers :
      (next pos : ℕ → ℕ) (left : ℕ) (s : CpuSet)
      → ((k : ℕ) → pos k < a.ncpus_available)
      → ((k : ℕ) → next (pos k) ≡ pos (suc k))
      → ((j k : ℕ) → j < k → k < left → pos j ≢ pos k)
      → ((k b : ℕ) → k < left → At a (pos k) b → cpu_isset b s ≡ false)
      → (t : CpuSet) × (set_cpus a next left (pos 0) s ≡ done t) × Covers pos left s t
  unfolding set_cpus
  set_cpus-Covers next pos zero s small step apart new =
      (s, refl, record { sound = λ b h. inl h; size = omega arith })
  set_cpus-Covers next pos (suc left) s small step apart new =
      let (bit, at, sets) = set_cpu-At (pos 0) (small 0) in
      let clear = new 0 bit (omega arith) at in
      let still_new : (k b : ℕ)
          → k < left
          → At a (pos (suc k)) b
          → cpu_isset b (cpu_set bit s) ≡ false =
        λ k b lt v.
          isset-cpu_set_ne bit b s (λ e. apart 0 (suc k) (omega arith) (omega arith) (
            At-distinct (pos 0) (pos (suc k)) b (small 0) (small (suc k))
              (subst (λ c. At a (pos 0) c) e at) v))
          ∙ new (suc k) b (omega arith) v in
      let (t, e, c) =
        set_cpus-Covers next (λ k. pos (suc k)) left (cpu_set bit s) (λ k. small (suc k))
          (λ k. step (suc k)) (λ j k lt h. apart (suc j) (suc k) (omega arith) (omega arith))
          still_new in
      (
        t,
        set_cpus_step a next left (pos 0) (pos 1) s (cpu_set bit s) (sets s) (step 0) ∙ e,
        record {
          sound = λ b h. elim (c.sound b h) [
            | inr (k, lt, v) ↦ inr (suc k, omega arith, v)
            | inl old ↦ elim (Bool-cases (bit == b)) [
              | inl same ↦ inr (0, omega arith, subst (λ x. At a (pos 0) x) (ground arith) at)
              | inr other ↦ inl (sym (isset-cpu_set_ne bit b s (ground arith)) ∙ old)
            ]
          ];
          size = omega (
            arith,
            c.size,
            count-cpu_set bit a.ncpus s at.available.below (isset_size bit _ at.available.isset)
                clear,
          );
        },
      )
