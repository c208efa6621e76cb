-- ===== src/Affinity/Plugin.antt =====
-- The callbacks of auto-affinity.c before a task's mask is made. What SLURM and the kernel answer are
-- arguments; a division by zero is `none`.
use slurm_spank_plugins.Base.{
  ℕ, ◌%◌, ◌/◌, ◌==◌, Bool, true, false, not, ◌&&◌, ◌||◌, ltb, if◌then◌else◌, Option, none, some,
  List, [], ◌∷◌, Bytes, codes, str_eq,
}
use slurm_spank_plugins.Affinity.Cpus.{CpuSet, cpu_setsize, cpu_set_count}
use slurm_spank_plugins.Affinity.Masks.{Affinity}

-- The static variables beside those the masks depend on.
pub record Plugin : Type 0 where
  pub enabled : Bool
  pub disabled : Bool
  pub exclusive_only : Bool
  pub multiples_only : Bool
  pub cpus_list : Option Bytes
  pub cpu_mask_list : Option (List CpuSet)
  pub masks : Affinity

-- A round of the loop of `parse_argv`.
unfoldable pub parse_arg : Bytes → Plugin → Option Plugin
parse_arg arg p =
    if str_eq arg (codes "off")
    then some (record p { disabled = true })
    else if str_eq arg (codes "exclusive_only")
    then some (record p { exclusive_only = true })
    else if str_eq arg (codes "multiples_only")
    then some (record p { multiples_only = true })
    else none

-- `parse_argv`: what it has set, and whether it returns 0.
unfoldable pub parse_argv : List Bytes → Plugin → Plugin × Bool
parse_argv [] p = (p, true)
parse_argv (arg ∷ av) p = elim (parse_arg arg p) [ none ↦ (p, false) | some q ↦ parse_argv av q ]

-- `slurm_spank_init_post_opt`, where the kernel says that a process may use the CPUs `kernel`.
unfoldable pub slurm_spank_init_post_opt : Bool → CpuSet → Plugin → Plugin
slurm_spank_init_post_opt remote kernel p =
    if remote
    then record p {
      masks = record p.masks {
        cpus_available = kernel;
        ncpus_available = cpu_set_count cpu_setsize kernel;
      };
    }
    else p

-- `check_task_cpus_available`, and whether it returns 0.
unfoldable pub check_task_cpus_available : CpuSet → Plugin → Plugin × Bool
check_task_cpus_available kernel p =
    let n = cpu_set_count cpu_setsize kernel in
    let seen : Plugin = record p { masks = record p.masks { cpus_available = kernel } } in
    if not (n == 0) && not (n == p.masks.ncpus_available)
    then (if ltb 0 p.masks.ncpus_available
        then (seen, false)
        else (record seen { masks = record seen.masks { ncpus_available = n } }, true))
    else (seen, true)

abbrev pub request : ℕ → Plugin → Plugin
request n p = record p { masks = record p.masks { requested_cpus_per_task = n } }

-- The number of CPUs per task that SLURM has recorded, where `spank_get_item` succeeds.
abbrev pub take_recorded : Option ℕ → Plugin → Plugin
take_recorded none p = p
take_recorded (some cpt) p =
    if p.masks.requested_cpus_per_task == 0 && ltb 1 cpt then request cpt p else p

-- A pointer that is not NULL.
abbrev pub is_set : {A : Type 0} → Option A → Bool
is_set none = false
is_set (some x) = true

-- The end of `slurm_spank_user_init`, where nothing was asked for.
unfoldable pub choose_by_count : Plugin → Option Plugin
choose_by_count p =
    let n = p.masks.ncpus_available in
    let tasks = p.masks.ntasks in
    if ltb n tasks
    then some p
    else if tasks == 0
    then none
    else if n % tasks == 0
    then some (record p { enabled = true })
    else if p.multiples_only || n / tasks == 1
    then some p
    else some (record (request (n / tasks) p) { enabled = true })

-- `slurm_spank_user_init`
unfoldable pub slurm_spank_user_init : Bool → Bool → Bool → Option ℕ → Plugin → Option Plugin
slurm_spank_user_init remote is_batch is_exclusive recorded p =
    let off : Plugin = record p { enabled = false } in
    let asked = take_recorded recorded off in
    if not remote
    then some p
    else if is_batch
    then some p
    else if p.exclusive_only && not is_exclusive
    then some off
    else if not (asked.masks.requested_cpus_per_task == 0)
        || is_set asked.cpus_list
        || is_set asked.cpu_mask_list
    then some (record asked { enabled = true })
    else choose_by_count asked
