-- ===== src/Affinity/Masks.antt =====
-- The masks of the tasks (auto-affinity.c): `generate_mask` and `generate_mask_reverse`. The static
-- variables are not negative here: `parse_option` refuses other values.
use slurm_spank_plugins.Base.{
  ℕ, zero, suc, ◌+◌, ◌*◌, ◌-◌, ◌%◌, ◌/◌, ◌^◌, leb, ◌==◌, if◌then◌else◌, none, some, List, get_elem?,
}
use slurm_spank_plugins.Affinity.Cpus.{CpuSet, cpu_set, mask_to_available}

-- The static variables the masks depend on.
pub record Affinity : Type 0 where
  pub ncpus : ℕ
  pub ntasks : ℕ
  pub startcpu : ℕ
  pub requested_cpus_per_task : ℕ
  pub cpus_available : CpuSet
  pub ncpus_available : ℕ
  pub cpu_position_map : List ℕ

-- A mask and the return value 0, or -1, or a read outside of the position map or a sum that no int
-- holds.
pub data Result : Type 0 where
  done : CpuSet → Result
  failed : CpuSet → Result
  fault : Result

-- It is called with one task at least.
unfoldable pub get_cpus_per_task : Affinity → ℕ
get_cpus_per_task a = elim a.requested_cpus_per_task [
  | suc n ↦ suc n
  | zero ↦ a.ncpus_available / a.ntasks
]

-- `mask_to_available (cpu_position_to_id (cpu))` and CPU_SET.
unfoldable pub set_cpu : Affinity → ℕ → CpuSet → Result
set_cpu a cpu setp = elim (get_elem? a.cpu_position_map cpu) [
  | none ↦ fault
  | some id ↦ elim (mask_to_available a.cpus_available a.ncpus id) [
    | none ↦ failed setp
    | some bit ↦ done (cpu_set bit setp)
  ]
]

-- The loop of both functions, with the way to the next CPU.
unfoldable pub set_cpus : Affinity → (ℕ → ℕ) → ℕ → ℕ → CpuSet → Result
set_cpus a next zero cpu setp = done setp
set_cpus a next (suc left) cpu setp = elim (set_cpu a cpu setp) [
  | done s ↦ set_cpus a next left (next cpu) s
  | failed s ↦ failed s
  | fault ↦ fault
]

-- What follows a sum of ints, which must be below 2 ^ 31.
unfoldable pub with_int : ℕ → (ℕ → Result) → Result
with_int n k = if leb (2 ^ 31) n then fault else k n

abbrev pub next_cpu : ℕ → ℕ → ℕ
next_cpu n cpu = (cpu + 1) % n

abbrev pub previous_cpu : ℕ → ℕ → ℕ
previous_cpu n cpu = elim cpu [ zero ↦ n - 1 | suc c ↦ c ]

unfoldable pub generate_mask : Affinity → CpuSet → ℕ → Result
generate_mask a setp localid =
    let n = a.ncpus_available in
    let cpus_per_task = get_cpus_per_task a in
    if cpus_per_task == 1
    then with_int (localid + a.startcpu) (λ sum. set_cpu a sum setp)
    else with_int (localid * cpus_per_task + a.startcpu)
        (λ sum. set_cpus a (next_cpu n) cpus_per_task (sum % n) setp)

unfoldable pub generate_mask_reverse : Affinity → CpuSet → ℕ → Result
generate_mask_reverse a setp localid =
    let n = a.ncpus_available in
    let cpus_per_task = get_cpus_per_task a in
    let lastcpu = n - 1 in
    if cpus_per_task == 1
    then with_int (localid + a.startcpu) (λ sum. set_cpu a (lastcpu - sum % n) setp)
    else with_int (localid * cpus_per_task + a.startcpu)
        (λ sum. set_cpus a (previous_cpu n) cpus_per_task (lastcpu - sum % n) setp)
