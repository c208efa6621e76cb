-- ===== src/Overcommit/Init.antt =====
-- The start of the overcommit-memory plugin: its arguments, its option and the job's environment
-- (overcommit-memory/overcommit-memory.c). What `spank_getenv` and `spank_get_item` answer is an
-- argument.
use slurm_spank_plugins.Base.{
  Bool, true, false, not, ◌&&◌, if◌then◌else◌, Option, none, some, List, [], ◌∷◌, ℤ, is_neg, Bytes,
  codes, strip_prefix, ◌≡◌, refl, arith, Option-cases, inl, inr,
}
use slurm_spank_plugins.Text.{str2int}
use slurm_spank_plugins.Overcommit.Shared.{World, Run, done, failed, fault, blocked}
use slurm_spank_plugins.Overcommit.Plugin.{Plugin, null, overcommit_mode, set_overcommit_policy}

-- What `spank_getenv` finds of SPANK_OVERCOMMIT_MEMORY_FLAG and SLURM_OVERCOMMIT_MEMORY in the job's
-- environment, and whether the process has set the flag in its own.
pub record Env : Type 0 where
  pub flag : Bool
  pub setting : Option Bytes
  pub own_flag : Bool

pub record Step : Type 0 where
  pub env : Env
  pub plugin : Plugin
  pub world : World

-- The state, and whether the return value is 0.
abbrev pub Answer : Type 0
Answer = Run (Step × Bool)

-- The rest of `overcommit_opt_process` on the remote side.
unfoldable pub opt_remote : ℤ → Step → Answer
opt_remote value st = elim (set_overcommit_policy st.plugin value st.world) [
  | done (p, w) ↦ done (record st { plugin = p; world = w }, true)
  | failed ↦ done (record st { plugin = record st.plugin { handle = null } }, false)
  | fault ↦ fault
  | blocked ↦ blocked
]

unfoldable pub overcommit_opt_process : Bytes → Bool → Step → Answer
overcommit_opt_process arg remote st = elim (overcommit_mode arg) [
  | none ↦ done (st, false)
  | some value ↦
      if remote
      then opt_remote value st
      else done (record st { env = record st.env { own_flag = true } }, true)
]

unfoldable pub check_env : Bool → Step → Answer
check_env remote st =
    if st.env.flag
    then done (record st { env = record st.env { flag = false } }, true)
    else elim st.env.setting [
      | none ↦ done (st, true)
      | some buf ↦ overcommit_opt_process buf remote st
    ]

-- A round of the loop of `parse_options`, and whether it leaves `retval` as it is.
unfoldable pub parse_arg : Bytes → Plugin → Plugin × Bool
parse_arg arg p = elim (strip_prefix (codes "ratio=") arg) [
  | none ↦ (p, false)
  | some ratio ↦ let n = str2int ratio in (record p { ratio = n }, not (is_neg n))
]

unfoldable pub parse_options : List Bytes → Plugin → Plugin × Bool
parse_options [] p = (p, true)
parse_options (arg ∷ av) p =
    let (p1, good) = parse_arg arg p in
    let (p2, others) = parse_options av p1 in (p2, good && others)

-- `slurm_spank_init`; `jobid` and `stepid` are the items of the job step.
unfoldable pub slurm_spank_init : List Bytes → Bool → ℤ → ℤ → Step → Answer
slurm_spank_init av remote jobid stepid st =
    let (p, good) = parse_options av st.plugin in
    let parsed : Step = record st { plugin = p } in
    if not good
    then done (parsed, false)
    else if not remote
    then check_env false parsed
    else check_env true (record parsed { plugin = record p { jobid = jobid; stepid = stepid } })

parse_arg_ratio :
    (arg : Bytes) (p : Plugin)
    → is_neg p.ratio ≡ false
    → (parse_arg arg p).1 ≡ true
    → is_neg (parse_arg arg p).0.ratio ≡ false
unfolding parse_arg
parse_arg_ratio arg p h good = ground arith

-- Arguments that `parse_options` accepts leave a ratio that is not negative, where it was none before,
-- and nothing else is changed.
pub parse_options_ratio :
    (av : List Bytes) (p : Plugin)
    → is_neg p.ratio ≡ false
    → (parse_options av p).1 ≡ true
    → (is_neg (parse_options av p).0.ratio ≡ false)
      × ((parse_options av p).0 ≡ record p { ratio = (parse_options av p).0.ratio })
unfolding parse_options parse_arg
parse_options_ratio [] p h good = (h, refl)
parse_options_ratio (arg ∷ av) p h good = elim (Option-cases (strip_prefix (codes "ratio=") arg)) [
  | inl e ↦ absurd (ground arith)
  | inr (ratio, e) ↦
      let sound : is_neg (str2int ratio) ≡ false = ground arith in
      let others : (parse_options av (record p { ratio = str2int ratio })).1 ≡ true =
        ground arith in
      let rest = parse_options_ratio av (record p { ratio = str2int ratio }) sound others in
      (ground (arith, rest.0), ground (arith, rest.1))
]
