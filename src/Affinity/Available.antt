-- ===== src/Affinity/Available.antt =====
-- `mask_to_available` finds the available CPU with a given number of available CPUs below it
-- (auto-affinity.c).
use slurm_spank_plugins.Base.{
  ℕ, zero, suc, ◌+◌, ◌<◌, ◌≤◌, ◌==◌, true, ◌≡◌, ap, arith, some, Bool-cases, inl, inr,
}
use slurm_spank_plugins.Affinity.Cpus.{
  CpuSet, cpu_isset, cpu_set_count, available_from, mask_to_available,
}

pub record IsAvailable (s : CpuSet) (ncpus cpu bit : ℕ) : Type 0 where
  pub isset : cpu_isset bit s ≡ true
  pub below : bit < ncpus
  pub index : cpu_set_count bit s ≡ cpu

available_from-finds :
    (s : CpuSet) (cpu i left m : ℕ)
    → i + left ≡ m
    → cpu_set_count i s ≤ cpu
    → cpu < cpu_set_count m s
    → (bit : ℕ) × (available_from s cpu i (cpu_set_count i s) left ≡ some bit)
      × IsAvailable s m cpu bit
unfolding available_from cpu_set_count
available_from-finds s cpu i zero m e lo hi =
    absurd (let f : i ≡ m = omega arith in ground (arith, ap (λ k. cpu_set_count k s) f))
available_from-finds s cpu i (suc left) m e lo hi = elim (Bool-cases (cpu_isset i s)) [
  | inr clear ↦
      let (bit, r, f) = available_from-finds s cpu (suc i) left m (omega arith) (ground arith) hi in
      (bit, ground arith, f)
  | inl set ↦ elim (Bool-cases (cpu == cpu_set_count i s)) [
    | inl here ↦
        (i, ground arith, record { isset = set; below = omega arith; index = ground arith })
    | inr on ↦
        let (bit, r, f) =
          available_from-finds s cpu (suc i) left m (omega arith) (ground arith) hi in
        (bit, ground arith, f)
  ]
]

-- The number of a CPU among the available ones leads back to that CPU, for every number below the
-- count of the available CPUs.
pub mask_to_available-finds :
    (s : CpuSet) (ncpus cpu : ℕ)
    → cpu < cpu_set_count ncpus s
    → (bit : ℕ) × (mask_to_available s ncpus cpu ≡ some bit) × IsAvailable s ncpus cpu bit
unfolding cpu_set_count
mask_to_available-finds s ncpus cpu h =
    available_from-finds s cpu 0 ncpus ncpus (omega arith) (omega arith) h
