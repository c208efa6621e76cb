-- ===== src/Overcommit/Plugin.antt =====
-- The life of a job step in the overcommit-memory plugin: the argument of --overcommit-memory,
-- `set_overcommit_policy` and `slurm_spank_exit` (overcommit-memory/overcommit-memory.c), and the
-- clean-up of the utility (overcommit-memory/overcommit.c).
use slurm_spank_plugins.Base.{
  ◌||◌, if◌then◌else◌, Option, none, some, ℤ, pos, is_zero, Bytes, codes, str_eq,
}
use slurm_spank_plugins.Overcommit.Shared.{
  World, Context, Run, done, failed, fault, blocked, ◌>>=◌, overcommit_shared_ctx_create,
  overcommit_memory_set_current_state, overcommit_ratio_set, overcommit_shared_ctx_destroy,
  overcommit_shared_ctx_unregister, overcommit_in_use, unregister_job, with_file,
}

-- The static pointer `ctx`.
pub data Handle : Type 0 where
  null live dangling : Handle

-- The static variables of the plugin.
pub record Plugin : Type 0 where
  pub jobid : ℤ
  pub stepid : ℤ
  pub ratio : ℤ
  pub handle : Handle

abbrev pub context : Plugin → Context
context p = record { jobid = p.jobid; stepid = p.stepid }

-- `overcommit_opt_process`, up to the choice of a mode; `none` is an invalid argument.
unfoldable pub overcommit_mode : Bytes → Option ℤ
overcommit_mode arg =
    if str_eq arg (codes "off")
      || str_eq arg (codes "no")
      || str_eq arg (codes "never")
      || str_eq arg (codes "2")
    then some (pos 2)
    else if str_eq arg (codes "always") || str_eq arg (codes "1")
    then some (pos 1)
    else if str_eq arg (codes "on") || str_eq arg (codes "yes") || str_eq arg (codes "0")
    then some (pos 0)
    else none

-- What follows in `set_overcommit_policy` where the value is not refused.
unfoldable pub apply_policy : Plugin → ℤ → World → World
apply_policy p value w =
    let (w1, written) = overcommit_memory_set_current_state value w in
    if written then overcommit_ratio_set p.ratio w1 else w1

unfoldable pub set_overcommit_policy : Plugin → ℤ → World → Run (Plugin × World)
unfolding apply_policy
set_overcommit_policy p value w = overcommit_shared_ctx_create w >>= λ s.
    overcommit_in_use (context p) value w s >>= λ r.
    if r.0
    then done (record p { handle = dangling }, overcommit_shared_ctx_destroy r.1 (with_file w r.1))
    else done (record p { handle = live }, apply_policy p value (with_file w r.1))

-- `slurm_spank_exit` on the remote side. A live context is mapped to the file.
unfoldable pub slurm_spank_exit : Plugin → World → Run World
slurm_spank_exit p w = elim p.handle [
  | null ↦ done w
  | dangling ↦ fault
  | live ↦ elim w.file [ none ↦ fault | some s ↦ overcommit_shared_ctx_unregister (context p) s w ]
]

-- `overcommit_shared_cleanup` of the utility, where the context can be created.
unfoldable pub overcommit_shared_cleanup : ℤ → ℤ → World → Run World
overcommit_shared_cleanup jobid stepid w = overcommit_shared_ctx_create w >>= λ s.
    elim (unregister_job (record { jobid = jobid; stepid = stepid }) s) [
      | done s1 ↦ done (overcommit_shared_ctx_destroy s1 (with_file w s1))
      | failed ↦ done (overcommit_shared_ctx_destroy s (with_file w s))
      | fault ↦ fault
      | blocked ↦ blocked
    ]

-- `overcommit_force_cleanup`: the ratio is not restored, that statement stands behind a return.
unfoldable pub overcommit_force_cleanup : World → World
overcommit_force_cleanup w =
    let w1 : World = record w { file = none } in
    if is_zero w.overcommit_memory then w1 else (overcommit_memory_set_current_state (pos 0) w1).0
