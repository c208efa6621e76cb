-- ===== src/Affinity/Tests.antt =====
-- The models of auto-affinity.c on a node with four CPUs, and their theorems applied to it.
use slurm_spank_plugins.Base.{
  codes, ℕ, ◌⊎◌, ◌+◌, ◌*◌, ◌^◌, zero, suc, ◌<◌, ◌≤◌, Bool, true, false, ◌&&◌, ltb, ◌≡◌, refl, arith,
  Option, none, some, List, [], ◌∷◌, get_elem?,
}
use slurm_spank_plugins.Text.{skip_space, read_digits}
use slurm_spank_plugins.Affinity.Cstr.{
  range, parse_entry, scan_unsigned, scan_signed, scan_digits, nexttoken, before, cstr_count,
}
use slurm_spank_plugins.Affinity.Lists.{cstr_count_hangs}
use slurm_spank_plugins.Affinity.Cpus.{
  CpuSet, cpu_isset, cpu_zero, cpu_set_count, cpu_set, available_from, mask_to_available,
}
use slurm_spank_plugins.Affinity.Masks.{
  Affinity, Result, done, failed, fault, get_cpus_per_task, generate_mask, generate_mask_reverse,
  set_cpus, set_cpu, with_int,
}
use slurm_spank_plugins.Affinity.Available.{IsAvailable, mask_to_available-finds}
use slurm_spank_plugins.Affinity.Place.{IsMap}
use slurm_spank_plugins.Affinity.Apart.{HasRoom, IsTaskMask}
use slurm_spank_plugins.Affinity.Disjoint.{generate_mask-Disjoint, generate_mask_reverse-Disjoint}
use slurm_spank_plugins.Affinity.Plugin.{Plugin, slurm_spank_user_init}
use slurm_spank_plugins.Affinity.Decision.{user_init-HasRoom}

-- A position map that turns two CPUs around.
abbrev positions : List ℕ
positions = 0 ∷ 2 ∷ 1 ∷ 3 ∷ []

abbrev node : ℕ → ℕ → ℕ → Affinity
node tasks cpt start = record {
  ncpus = 4;
  ntasks = tasks;
  startcpu = start;
  requested_cpus_per_task = cpt;
  cpus_available = λ i. ltb i 4;
  ncpus_available = 4;
  cpu_position_map = positions;
}

node-IsMap : (tasks cpt start : ℕ) → IsMap (node tasks cpt start)
unfolding cpu_set_count cpu_isset
node-IsMap tasks cpt start = record { counted = refl; mapped = mapped'; distinct = distinct' }
  where
    mapped' : (p : ℕ) → p < 4 → (id : ℕ) × (get_elem? positions p ≡ some id) × (id < 4)
    mapped' zero h = (0, refl, omega arith)
    mapped' (suc zero) h = (2, refl, omega arith)
    mapped' (suc (suc zero)) h = (1, refl, omega arith)
    mapped' (suc (suc (suc zero))) h = (3, refl, omega arith)
    mapped' (suc (suc (suc (suc p)))) h = absurd (omega arith)

    distinct' : (p q : ℕ) → p < 4 → q < 4 → get_elem? positions p ≡ get_elem? positions q → p ≡ q
    distinct' p q h k e = ground arith

-- Two tasks with two CPUs, from the fourth position on.
two_tasks-HasRoom : HasRoom (node 2 0 3)
unfolding get_cpus_per_task
two_tasks-HasRoom = record { some_cpus = omega arith; all_fit = omega arith }

abbrev shape : Result → Option (List Bool)
shape (done s) = some (s 0 ∷ s 1 ∷ s 2 ∷ s 3 ∷ [])
shape (failed s) = none
shape fault = none

two_tasks :
    (shape (generate_mask (node 2 0 3) cpu_zero 0) ≡ some (true ∷ false ∷ false ∷ true ∷ []))
    × (shape (generate_mask_reverse (node 2 0 3) cpu_zero 0)
        ≡ some (true ∷ false ∷ false ∷ true ∷ []))
unfolding generate_mask generate_mask_reverse get_cpus_per_task with_int set_cpus set_cpu
    available_from cpu_isset cpu_set
two_tasks = (refl, refl)

mask_to_available-finds_example :
    (bit : ℕ) × (mask_to_available (node 2 0 3).cpus_available 4 2 ≡ some bit)
    × IsAvailable (node 2 0 3).cpus_available 4 2 bit
mask_to_available-finds_example =
    mask_to_available-finds (node 2 0 3).cpus_available 4 2
      (omega (arith, (node-IsMap 2 0 3).counted))

two_tasks_int : 2 * get_cpus_per_task (node 2 0 3) + 3 ≤ 2 ^ 31
unfolding get_cpus_per_task
two_tasks_int = omega arith

two_cpus : get_cpus_per_task (node 2 0 3) ≡ 1 → 2 + 3 ≤ 4
unfolding get_cpus_per_task
two_cpus h = absurd (omega arith)

generate_mask-Disjoint_example :
    (t : CpuSet) × (u : CpuSet) × (generate_mask (node 2 0 3) cpu_zero 0 ≡ done t)
    × (generate_mask (node 2 0 3) cpu_zero 1 ≡ done u)
    × IsTaskMask (node 2 0 3) t
    × IsTaskMask (node 2 0 3) u
    × ((b : ℕ) → cpu_isset b t && cpu_isset b u ≡ false)
generate_mask-Disjoint_example =
    generate_mask-Disjoint (node 2 0 3) (node-IsMap 2 0 3) two_tasks-HasRoom two_tasks_int two_cpus
      0 1 (omega arith) (omega arith)

generate_mask_reverse-Disjoint_example :
    (t : CpuSet) × (u : CpuSet) × (generate_mask_reverse (node 2 0 3) cpu_zero 0 ≡ done t)
    × (generate_mask_reverse (node 2 0 3) cpu_zero 1 ≡ done u)
    × IsTaskMask (node 2 0 3) t
    × IsTaskMask (node 2 0 3) u
    × ((b : ℕ) → cpu_isset b t && cpu_isset b u ≡ false)
generate_mask_reverse-Disjoint_example =
    generate_mask_reverse-Disjoint (node 2 0 3) (node-IsMap 2 0 3) two_tasks-HasRoom two_tasks_int 0
      1 (omega arith) (omega arith)

abbrev plugin : Plugin
plugin = record {
  enabled = true;
  disabled = false;
  exclusive_only = true;
  multiples_only = false;
  cpus_list = none;
  cpu_mask_list = none;
  masks = node 3 0 0;
}

user_init-HasRoom_example :
    (q : Plugin) × (slurm_spank_user_init true false true (some 1) plugin ≡ some q)
    × ((q.enabled ≡ false) ⊎ HasRoom q.masks)
user_init-HasRoom_example =
    user_init-HasRoom true (some 1) plugin
      (record { no_request = refl; no_cpus = refl; no_masks = refl; unrecorded = refl })
      (omega arith)

no_stride : parse_entry (codes "2-3:0") ≡ range 2 3 0
unfolding parse_entry scan_unsigned scan_signed scan_digits nexttoken before skip_space read_digits
no_stride = refl

cstr_count_hangs_example : cstr_count 1000 (codes "2-3:0") ≡ none
cstr_count_hangs_example =
    cstr_count_hangs 1000 (codes "2-3:0") 2 3 no_stride (omega arith) (omega arith)
