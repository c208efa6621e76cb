-- ===== src/PreserveEnv/Plugin.antt =====
-- preserve-env.c: the variables are kept under other names, and set again for a task.
use slurm_spank_plugins.Base.{
  ◌==◌, Bool, true, false, not, ◌&&◌, ◌||◌, leb, if◌then◌else◌, Option, none, some, List, [], ◌∷◌,
  ◌++◌, Bytes, codes, strip_prefix, str_eq, length,
}
use slurm_spank_plugins.PreserveEnv.Environment.{EnvLib}

-- `strncmp (s, prefix, length of prefix) == 0`
unfoldable pub starts_with : Bytes → Bytes → Bool
starts_with prefix s = elim (strip_prefix prefix s) [ none ↦ false | some rest ↦ true ]

-- The name that `get_env_var` copies, up to the first `=`.
unfoldable pub env_name : Bytes → Bytes
env_name [] = []
env_name (c ∷ s) = let rest = env_name s in if c == b'=' then [] else c ∷ rest

-- What it sets `valp` to: every `=` moves it, so it is the text behind the last one; `none` where
-- there is no `=` and `valp` is left as it was.
unfoldable pub env_value : Bytes → Option Bytes
env_value [] = none
env_value (c ∷ s) =
    let rest = env_value s in
    if c == b'=' then (elim rest [ none ↦ some s | some v ↦ some v ]) else rest

-- The environment after a call, and whether it returns 0; `fault` is a value that was never set.
pub data Kept (E : Type 0) : Type 0 where
  kept : E → Bool → Kept E
  fault : Kept E

-- The static variables.
pub record PreserveEnv : Type 0 where
  pub enabled : Bool
  pub debug : Bool

-- What `preserve_slurm_env` looks for.
unfoldable pub is_preserved : Bytes → Bool
is_preserved s =
    starts_with (codes "SLURM_") s
    && not (starts_with (codes "SLURM_RLIMIT") s)
    && not (starts_with (codes "SLURM_UMASK") s)
    && not (starts_with (codes "SLURM_PRIO") s)

unfoldable pub is_unwanted : Bytes → Bool
is_unwanted s = starts_with (codes "SLURM_") s || starts_with (codes "MPIRUN_") s

-- A loop over the entries that pushes those that fit in front of the list.
unfoldable pub collect : (Bytes → Bool) → List Bytes → List Bytes → List Bytes
collect fits [] l = l
collect fits (x ∷ env) l = collect fits env (if fits x then x ∷ l else l)

abbrev pub drop_save : Bytes → Bytes
drop_save (s ∷ a ∷ v ∷ e ∷ u ∷ rest) = rest
drop_save _ = []

module _ {E : Type 0} (lib : EnvLib E) where
  open lib use {entries, setenv, unsetenv}

  unfoldable pub preserve_slurm_var : E → Bytes → Kept E
  preserve_slurm_var e entry =
      let newvar = codes "save_" ++ env_name entry in
      if leb 1023 (length newvar)
      then kept e false
      else elim (env_value entry) [ none ↦ fault | some val ↦ kept (setenv e newvar val) true ]

  unfoldable pub preserve_all : E → List Bytes → Kept E
  preserve_all e [] = kept e true
  preserve_all e (entry ∷ l) = elim (preserve_slurm_var e entry) [
    | kept e' good ↦ elim good [ true ↦ preserve_all e' l | false ↦ kept e' false ]
    | fault ↦ fault
  ]

  unfoldable pub preserve_slurm_env : E → Kept E
  preserve_slurm_env e = preserve_all e (collect is_preserved (entries e) [])

  -- The return value of `preserve_slurm_env` is ignored; the second test of the argument makes the
  -- first one pointless, and every argument turns the messages on.
  unfoldable pub preserve_opt_process :
      Option Bytes → Bool → PreserveEnv → E → Option (PreserveEnv × E)
  preserve_opt_process optarg remote p e =
      let verbose : Bool = elim optarg [
        | none ↦ p.debug
        | some arg ↦
            if not (str_eq arg (codes "verbose")) || not (str_eq arg (codes "v"))
            then true
            else p.debug
      ] in
      let p' : PreserveEnv = record { enabled = true; debug = verbose } in
      if remote
      then some (p', e)
      else elim (preserve_slurm_env e) [ kept e' good ↦ some (p', e') | fault ↦ none ]

  unfoldable pub unset_all : E → List Bytes → E
  unset_all e [] = e
  unset_all e (entry ∷ l) = unset_all (unsetenv e (env_name entry)) l

  -- A saved variable is set, and its copy removed.
  unfoldable pub restore_all : E → List Bytes → Option E
  restore_all e [] = some e
  restore_all e (entry ∷ l) =
      let var = env_name entry in
      elim (env_value entry) [
        | none ↦ none
        | some val ↦ restore_all (unsetenv (setenv e (drop_save var) val) var) l
      ]

  -- `none` is a value that was never set.
  unfoldable pub slurm_spank_task_init : PreserveEnv → E → Option E
  slurm_spank_task_init p e =
      if not p.enabled
      then some e
      else let e1 = unset_all e (collect is_unwanted (entries e) []) in
        restore_all e1 (collect (starts_with (codes "save_SLURM_")) (entries e1) [])
