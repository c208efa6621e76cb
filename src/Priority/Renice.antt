-- ===== src/Priority/Renice.antt =====
-- The renice plugin (renice.c). What the kernel and SLURM answer are arguments: the environment
-- variable SLURM_RENICE (`none` where `spank_getenv` fails) and the task's present nice value.
use slurm_spank_plugins.Base.{
  ◌+◌, Bool, true, false, ◌||◌, ltb, if◌then◌else◌, Option, none, some, List, [], ◌∷◌, ℤ, pos,
  negsuc, eq_ℤ, pos_part, neg_part, Bytes, codes, strip_prefix,
}
use slurm_spank_plugins.Text.{strtol}

abbrev pub lt_ℤ : ℤ → ℤ → Bool
lt_ℤ a b = ltb (pos_part a + neg_part b) (pos_part b + neg_part a)

abbrev pub prio_not_set : ℤ
prio_not_set = pos 42

-- The static variables.
pub record Renice : Type 0 where
  pub min_prio : ℤ
  pub default_prio : ℤ
  pub prio : ℤ

abbrev pub initial : Renice
initial = record { min_prio = negsuc 19; default_prio = pos 0; prio = prio_not_set }

-- `_str2prio`; `none` is the -1.
unfoldable pub str2prio : Bytes → Option ℤ
str2prio s =
    let (l, rest) = strtol s in
    elim rest [ [] ↦ if lt_ℤ l (negsuc 19) || lt_ℤ (pos 20) l then none else some l | _ ∷ _ ↦ none ]

-- A round of the loop of `slurm_spank_init`: an argument of plugstack.conf.
unfoldable pub init_arg : Bytes → Renice → Renice
init_arg arg r = elim (strip_prefix (codes "min_prio=") arg) [
  | some v ↦ elim (str2prio v) [ none ↦ r | some p ↦ record r { min_prio = p } ]
  | none ↦ elim (strip_prefix (codes "default=") arg) [
    | some v ↦ elim (str2prio v) [ none ↦ r | some p ↦ record r { default_prio = p } ]
    | none ↦ r
  ]
]

unfoldable pub slurm_spank_init : List Bytes → Renice → Renice
unfolding init_arg
slurm_spank_init [] r = r
slurm_spank_init (a ∷ av) r = slurm_spank_init av (init_arg a r)

-- `_renice_opt_process`: --renice, and whether the return value is 0.
unfoldable pub renice_opt_process : Option Bytes → Renice → Renice × Bool
renice_opt_process none r = (r, false)
renice_opt_process (some arg) r = elim (str2prio arg) [
  | none ↦ (r, false)
  | some p ↦ (record r { prio = p }, true)
]

-- `_check_env`
unfoldable pub check_env : Option Bytes → Renice → Renice × Bool
check_env none r = (r, false)
check_env (some val) r = elim (str2prio val) [
  | none ↦ (r, false)
  | some p ↦ (record r { prio = p }, true)
]

-- The first statement of `slurm_spank_task_post_fork`.
unfoldable pub choose_prio : Option Bytes → Renice → Renice
unfolding check_env
choose_prio env r = elim (eq_ℤ r.prio prio_not_set) [
  | false ↦ r
  | true ↦
      let (r1, found) = check_env env r in
      if found then r1 else record r1 { prio = r1.default_prio }
]

abbrev pub clamp_prio : Renice → Renice
clamp_prio r = if lt_ℤ r.prio r.min_prio then record r { prio = r.min_prio } else r

-- `slurm_spank_task_post_fork` for a task with the nice value `current`: the new state, the task's nice
-- value, and whether the return value is 0. The kernel's answer to `setpriority` is the nice value that
-- it sets, or `none` for the -1.
unfoldable pub task_post_fork : Option Bytes → ℤ → (ℤ → Option ℤ) → Renice → Renice × ℤ × Bool
unfolding choose_prio
task_post_fork env current setpriority r =
    let r1 = clamp_prio (choose_prio env r) in
    if eq_ℤ r1.prio current
    then (r1, current, true)
    else elim (setpriority r1.prio) [ none ↦ (r1, current, false) | some nice ↦ (r1, nice, true) ]
