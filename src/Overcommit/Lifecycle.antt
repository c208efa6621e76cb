-- ===== src/Overcommit/Lifecycle.antt =====
-- A job step from the choice of a mode to its end (overcommit-memory/).
use slurm_spank_plugins.Base.{
  ℕ, suc, ◌≤◌, ◌<◌, true, false, ◌≡◌, refl, none, some, List, ℤ, pos, inc, arith, is_positive,
  is_zero, eq_ℤ, eq_ℤ-refl,
}
use slurm_spank_plugins.Overcommit.Shared.{
  JobInfo, Shared, World, done, fault, new_shared, nslots, with_file, sem_wait,
  overcommit_shared_ctx_create, overcommit_in_use, overcommit_shared_ctx_destroy,
  overcommit_shared_ctx_unregister, overcommit_memory_set_current_state, register_job,
  unregister_job,
}
use slurm_spank_plugins.Overcommit.Plugin.{
  Plugin, live, dangling, context, apply_policy, set_overcommit_policy, slurm_spank_exit,
}
use slurm_spank_plugins.Overcommit.Users.{
  IsValid, IsJob, count_used, register_job-IsValid, Entered, register_job-Entered,
  unregister_job-register_job, no_jobs-IsClean, no_jobs-others,
}

-- The mapping after `note_first_user` in a new file.
abbrev pub noted : ℤ → World → Shared
noted v w = record new_shared {
  sem = 0;
  overcommit_value = v;
  previous_overcommit_ratio = w.overcommit_ratio;
}

noted-IsValid : (v : ℤ) (w : World) → IsValid (noted v w)
noted-IsValid v w = record { slots = refl; counted = refl; clean = no_jobs-IsClean nslots }

-- The settings while the only job runs.
abbrev pub while_set : Plugin → ℕ → World → List JobInfo → World
while_set p n w l = record w {
  file = some (record (noted (pos n) w) { sem = 1; users = l; nusers = pos 1 });
  overcommit_memory = pos n;
  overcommit_ratio = p.ratio;
}

set_policy_first :
    (p : Plugin) (n : ℕ) (w : World) (l : List JobInfo)
    → n ≤ 2
    → w.file ≡ none
    → register_job (context p) (noted (pos n) w)
      ≡ done (record (noted (pos n) w) { users = l; nusers = pos 1 })
    → set_overcommit_policy p (pos n) w ≡ done (record p { handle = live }, while_set p n w l)
unfolding set_overcommit_policy overcommit_shared_ctx_create overcommit_in_use apply_policy
    overcommit_memory_set_current_state
set_policy_first p n w l h none_yet reg = ground arith

exit_last :
    (p : Plugin) (n : ℕ) (w : World) (l : List JobInfo)
    → unregister_job (context p) (record (noted (pos n) w) { users = l; nusers = pos 1 })
      ≡ done (noted (pos n) w)
    → slurm_spank_exit (record p { handle = live }) (while_set p n w l)
      ≡ done (record w { file = none; overcommit_memory = pos 0 })
unfolding slurm_spank_exit overcommit_shared_ctx_unregister sem_wait overcommit_shared_ctx_destroy
    overcommit_memory_set_current_state
exit_last p n w l unreg = ground arith

-- On a node without the file a job with a positive id sets one of the modes 0 to 2 and its ratio. When
-- it exits with nothing changed between, the file is gone, the ratio is what it was, and the mode is 0,
-- whatever it was before.
pub slurm_spank_exit-set_overcommit_policy :
    (p : Plugin) (n : ℕ) (w : World)
    → n ≤ 2
    → IsJob (context p)
    → w.file ≡ none
    → (l : List JobInfo) × (set_overcommit_policy p (pos n) w
        ≡ done (record p { handle = live }, while_set p n w l))
      × (count_used l ≡ 1)
      × (slurm_spank_exit (record p { handle = live }) (while_set p n w l)
          ≡ done (record w { file = none; overcommit_memory = pos 0 }))
slurm_spank_exit-set_overcommit_policy p n w h job none_yet =
    let (l, reg, valid, unreg) =
      unregister_job-register_job (context p) (noted (pos n) w) (noted-IsValid (pos n) w) job
        (no_jobs-others (context p) nslots job) (omega arith) in
    (
      l,
      set_policy_first p n w l h none_yet reg,
      ground (arith, valid.counted),
      exit_last p n w l unreg,
    )

-- While jobs use another mode and the semaphore is free, a mode is refused: the settings and the
-- table stay as they are. But the semaphore, which was free, is posted twice for one wait, so that
-- two processes can hold it at once; and the plugin keeps the pointer to the context that was freed,
-- so that its exit follows it.
pub set_overcommit_policy_refused :
    (p : Plugin) (value : ℤ) (w : World) (s : Shared) (n : ℕ)
    → w.file ≡ some s
    → s.sem ≡ suc n
    → is_positive s.nusers ≡ true
    → eq_ℤ s.overcommit_value value ≡ false
    → (set_overcommit_policy p value w
        ≡ done (record p { handle = dangling }, with_file w (record s { sem = suc (suc n) })))
      × (slurm_spank_exit
            (record p { handle = dangling })
            (with_file w (record s { sem = suc (suc n) }))
          ≡ fault)
unfolding set_overcommit_policy overcommit_shared_ctx_create overcommit_in_use
    overcommit_shared_ctx_destroy slurm_spank_exit sem_wait
set_overcommit_policy_refused p value w s n file free users other =
    (ground (arith, positive s.nusers), refl)
  where
    positive : (z : ℤ) → is_positive z ≡ true → is_zero z ≡ false
    positive z h = ground arith

-- Where the table is valid and has a free entry, and the semaphore is free, a later job with the mode
-- in use, one of 0 to 2, joins: its job and step take the place of an entry that was free, the rest
-- of the table is as before and the table stays valid, the mode and the job's ratio are set, and the
-- value and the ratio to go back to stay those of the first user.
pub set_overcommit_policy_joins :
    (p : Plugin) (k : ℕ) (w : World) (s : Shared) (n : ℕ)
    → k ≤ 2
    → IsValid s
    → w.file ≡ some s
    → s.sem ≡ suc n
    → is_positive s.nusers ≡ true
    → count_used s.users < nslots
    → s.overcommit_value ≡ pos k
    → (l : List JobInfo) × (set_overcommit_policy p (pos k) w
        ≡ done (
          record p { handle = live },
          record w {
            file = some (record s { users = l; nusers = inc s.nusers });
            overcommit_memory = pos k;
            overcommit_ratio = p.ratio;
          },
        ))
      × IsValid (record s { users = l; nusers = inc s.nusers })
      × Entered (context p) s.users l
unfolding set_overcommit_policy overcommit_shared_ctx_create overcommit_in_use apply_policy
    overcommit_memory_set_current_state sem_wait
set_overcommit_policy_joins p k w s n h v file free users room same =
    let waiting : Shared = record s { sem = n } in
    let waits : IsValid waiting = record {
      slots = v.slots;
      counted = v.counted;
      clean = v.clean;
    } in
    let (l, reg, valid) = register_job-IsValid (context p) waiting waits room in
    (
      l,
      ground (arith, reg, positive s.nusers users, eq_ℤ-refl (pos k)),
      record { slots = valid.slots; counted = valid.counted; clean = valid.clean },
      register_job-Entered (context p) waiting l waits reg,
    )
  where
    positive : (z : ℤ) → is_positive z ≡ true → is_zero z ≡ false
    positive z h = ground arith
