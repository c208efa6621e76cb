-- ===== src/Priority/Setsched.antt =====
-- The setsched plugin (setsched.c). Logging is left out; the kernel's answer to
-- `sched_setscheduler` is an argument.
use slurm_spank_plugins.Base.{
  Bool, true, false, ◌||◌, ◌&&◌, if◌then◌else◌, Option, none, some, List, [], ◌∷◌, ℤ, pos, negsuc,
  eq_ℤ, is_positive, Bytes, codes, strip_prefix,
}
use slurm_spank_plugins.Text.{strtol, long_max, to_int}

-- The static variables.
pub record Setsched : Type 0 where
  pub setsched_pol : ℤ
  pub setsched_prio : ℤ
  pub setsched_default : Bool

abbrev pub initial : Setsched
initial = record { setsched_pol = pos 0; setsched_prio = pos 0; setsched_default = false }

-- `_str2int`: only the two ends of `long` are refused, and what follows the number is not looked at.
unfoldable pub str2int : Bytes → Option ℤ
str2int s =
    let l = (strtol s).0 in
    if eq_ℤ l (negsuc long_max) || eq_ℤ l (pos long_max) then none else some (to_int l)

-- `strncmp (name, arg, strlen name) == 0`
abbrev pub has_prefix : Bytes → Bytes → Bool
has_prefix name arg = elim (strip_prefix name arg) [ none ↦ false | some r ↦ true ]

-- `_setsched_opt_process`, and whether it returns 0.
unfoldable pub setsched_opt_process : Option Bytes → Setsched → Setsched × Bool
setsched_opt_process none s = (s, true)
setsched_opt_process (some optarg) s =
    if has_prefix (codes "no") optarg
    then (record s { setsched_default = false }, true)
    else if has_prefix (codes "yes") optarg
    then (record s { setsched_default = true }, true)
    else (s, has_prefix (codes "auto") optarg)

-- The variables of `slurm_spank_init` beside the static one it sets.
pub record Args : Type 0 where
  pub pol : ℤ
  pub prio : ℤ
  pub default : Bool

-- A round of the loop of `slurm_spank_init`.
unfoldable pub init_arg : Bytes → Args → Args
init_arg arg a = elim (strip_prefix (codes "policy=") arg) [
  | some v ↦ elim (str2int v) [ none ↦ a | some n ↦ record a { pol = n } ]
  | none ↦ elim (strip_prefix (codes "priority=") arg) [
    | some v ↦ elim (str2int v) [ none ↦ a | some n ↦ record a { prio = n } ]
    | none ↦
        if has_prefix (codes "default=enabled") arg
        then record a { default = true }
        else if has_prefix (codes "default=disabled") arg
        then record a { default = false }
        else a
  ]
]

unfoldable pub init_args : List Bytes → Args → Args
init_args [] a = a
init_args (arg ∷ av) a = init_args av (init_arg arg a)

-- `slurm_spank_init`; `remote` is `spank_remote (sp)`.
unfoldable pub slurm_spank_init : Bool → List Bytes → Setsched → Setsched
slurm_spank_init remote av s =
    let a = init_args av (record { pol = pos 0; prio = pos 0; default = s.setsched_default }) in
    if remote
    then (if is_positive a.pol || is_positive a.prio
        then record { setsched_pol = a.pol; setsched_prio = a.prio; setsched_default = a.default }
        else record s { setsched_default = a.default })
    else s

-- `slurm_spank_task_post_fork`: the policy and the priority of the call of `sched_setscheduler`, if
-- there is one, and the status, for the answer `kernel` of that call.
unfoldable pub task_post_fork : (ℤ → ℤ → ℤ) → Setsched → Option (ℤ × ℤ) × ℤ
task_post_fork kernel s =
    if s.setsched_default && (is_positive s.setsched_pol || is_positive s.setsched_prio)
    then (some (s.setsched_pol, s.setsched_prio), kernel s.setsched_pol s.setsched_prio)
    else (none, pos 0)
