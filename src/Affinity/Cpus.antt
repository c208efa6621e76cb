-- ===== src/Affinity/Cpus.antt =====
-- The sets of CPUs of auto-affinity.c: the macros of `cpu_set_t`, and the loops over a set.
use slurm_spank_plugins.Base.{
  ℕ, zero, suc, ◌==◌, Bool, true, false, ◌&&◌, ltb, if◌then◌else◌, Option, none, some,
}

abbrev pub CpuSet : Type 0
CpuSet = ℕ → Bool

-- CPU_SETSIZE
abbrev pub cpu_setsize : ℕ
cpu_setsize = 1024

abbrev pub cpu_zero : CpuSet
cpu_zero i = false

-- A CPU beyond the size is ignored.
unfoldable pub cpu_set : ℕ → CpuSet → CpuSet
cpu_set i s j = if i == j && ltb i cpu_setsize then true else s j

unfoldable pub cpu_isset : ℕ → CpuSet → Bool
cpu_isset i s = ltb i cpu_setsize && s i

-- `cpu_set_count` below a number of CPUs.
unfoldable pub cpu_set_count : ℕ → CpuSet → ℕ
cpu_set_count zero s = 0
cpu_set_count (suc n) s = if cpu_isset n s then suc (cpu_set_count n s) else cpu_set_count n s

-- `mask_to_available` from the CPU `i` and the count `j` on, with `left` CPUs to look at; `none` is
-- the -1.
unfoldable pub available_from : CpuSet → ℕ → ℕ → ℕ → ℕ → Option ℕ
available_from s cpu i j zero = none
available_from s cpu i j (suc left) =
    let seen = available_from s cpu (suc i) (suc j) left in
    let skipped = available_from s cpu (suc i) j left in
    if cpu_isset i s then (if cpu == j then some i else seen) else skipped

abbrev pub mask_to_available : CpuSet → ℕ → ℕ → Option ℕ
mask_to_available s ncpus cpu = available_from s cpu 0 0 ncpus
