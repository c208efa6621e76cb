-- ===== src/Overcommit/Tests.antt =====
-- The overcommit-memory plugin on a node with no job and with one, and its theorems applied there.
use slurm_spank_plugins.Text.{str2int, strtol, after_sign, signed, read_digits, skip_space, to_int}
use slurm_spank_plugins.Overcommit.Init.{parse_options, parse_arg, parse_options_ratio}
use slurm_spank_plugins.Base.{
  [], true, false, Bytes, codes, is_neg, strip_prefix, ℕ, zero, suc, ◌≡◌, refl, arith, none, some,
  List, ◌∷◌, All, ℤ, pos, replicate,
}
use slurm_spank_plugins.Overcommit.Shared.{
  JobInfo, no_job, entry_of, Shared, World, Context, done, fault, nslots, new_shared, with_file,
  register_job, unregister_job,
}
use slurm_spank_plugins.Overcommit.Plugin.{
  Plugin, null, live, dangling, set_overcommit_policy, slurm_spank_exit,
}
use slurm_spank_plugins.Overcommit.Users.{
  IsValid, IsClean, count_used, register_job-IsValid, Entered, register_job_full,
  unregister_job-register_job, unregister_job_absent, no_jobs-IsClean, no_jobs-others,
}
use slurm_spank_plugins.Overcommit.Lifecycle.{
  while_set, slurm_spank_exit-set_overcommit_policy, set_overcommit_policy_refused,
  set_overcommit_policy_joins,
}

abbrev job : ℤ → Context
job id = record { jobid = id; stepid = pos 0 }

abbrev plugin : Plugin
plugin = record { jobid = pos 7; stepid = pos 0; ratio = pos 80; handle = null }

abbrev node : World
node = record { file = none; overcommit_memory = pos 1; overcommit_ratio = pos 50 }

-- The table with one job, and the table that is full of one job's steps.
abbrev one_user : Shared
one_user = record new_shared {
  overcommit_value = pos 2;
  nusers = pos 1;
  users = entry_of (job (pos 5)) ∷ replicate 63 no_job;
}

abbrev full_table : Shared
full_table = record new_shared { nusers = pos 64; users = replicate 64 (entry_of (job (pos 5))) }

new_shared-IsValid : IsValid new_shared
new_shared-IsValid = record { slots = refl; counted = refl; clean = no_jobs-IsClean nslots }

entries-IsClean : (n : ℕ) → All IsClean (replicate n (entry_of (job (pos 5))))
entries-IsClean zero = tt
entries-IsClean (suc n) = (λ e. absurd (cc), entries-IsClean n)

one_user-IsValid : IsValid one_user
one_user-IsValid = record {
  slots = refl;
  counted = refl;
  clean = (λ e. absurd (cc), no_jobs-IsClean 63);
}

full_table-IsValid : IsValid full_table
full_table-IsValid = record { slots = refl; counted = refl; clean = entries-IsClean 64 }

register_job-IsValid_example :
    (l : List JobInfo) × (register_job (job (pos 6)) one_user
      ≡ done (record one_user { users = l; nusers = pos 2 }))
    × IsValid (record one_user { users = l; nusers = pos 2 })
register_job-IsValid_example =
    register_job-IsValid (job (pos 6)) one_user one_user-IsValid (omega arith)

register_job_full_example : register_job (job (pos 6)) full_table ≡ fault
register_job_full_example = register_job_full (job (pos 6)) full_table full_table-IsValid refl

unregister_job-register_job_example :
    (l : List JobInfo) × (register_job (job (pos 6)) new_shared
      ≡ done (record new_shared { users = l; nusers = pos 1 }))
    × IsValid (record new_shared { users = l; nusers = pos 1 })
    × (unregister_job (job (pos 6)) (record new_shared { users = l; nusers = pos 1 })
        ≡ done new_shared)
unregister_job-register_job_example =
    unregister_job-register_job (job (pos 6)) new_shared new_shared-IsValid refl
      (no_jobs-others (job (pos 6)) 64 refl) (omega arith)

unregister_job_absent_example : unregister_job (job (pos 6)) new_shared ≡ fault
unregister_job_absent_example =
    unregister_job_absent (job (pos 6)) new_shared new_shared-IsValid
      (no_jobs-others (job (pos 6)) 64 refl)

slurm_spank_exit-set_overcommit_policy_example :
    (l : List JobInfo) × (set_overcommit_policy plugin (pos 2) node
      ≡ done (record plugin { handle = live }, while_set plugin 2 node l))
    × (count_used l ≡ 1)
    × (slurm_spank_exit (record plugin { handle = live }) (while_set plugin 2 node l)
        ≡ done (record node { overcommit_memory = pos 0 }))
slurm_spank_exit-set_overcommit_policy_example =
    slurm_spank_exit-set_overcommit_policy plugin 2 node (omega arith) refl refl

set_overcommit_policy_refused_example :
    (set_overcommit_policy plugin (pos 1) (with_file node one_user)
      ≡ done (record plugin { handle = dangling }, with_file node (record one_user { sem = 2 })))
    × (slurm_spank_exit
          (record plugin { handle = dangling })
          (with_file node (record one_user { sem = 2 }))
        ≡ fault)
set_overcommit_policy_refused_example =
    set_overcommit_policy_refused plugin (pos 1) (with_file node one_user) one_user 0 refl refl refl
      refl

set_overcommit_policy_joins_example :
    (l : List JobInfo) × (set_overcommit_policy plugin (pos 2) (with_file node one_user)
      ≡ done (
        record plugin { handle = live },
        record node {
          file = some (record one_user { users = l; nusers = pos 2 });
          overcommit_memory = pos 2;
          overcommit_ratio = pos 80;
        },
      ))
    × IsValid (record one_user { users = l; nusers = pos 2 })
    × Entered (job (pos 7)) one_user.users l
set_overcommit_policy_joins_example =
    set_overcommit_policy_joins plugin 2 (with_file node one_user) one_user 0 (omega arith)
      one_user-IsValid refl refl refl (omega arith) refl

abbrev ratio_args : List Bytes
ratio_args = codes "ratio=90" ∷ []

ratio_accepted : (parse_options ratio_args plugin).1 ≡ true
unfolding parse_options parse_arg strip_prefix str2int strtol after_sign signed read_digits
    skip_space to_int
ratio_accepted = refl

parse_options_ratio_example :
    (is_neg (parse_options ratio_args plugin).0.ratio ≡ false)
    × ((parse_options ratio_args plugin).0
        ≡ record plugin { ratio = (parse_options ratio_args plugin).0.ratio })
parse_options_ratio_example = parse_options_ratio ratio_args plugin refl ratio_accepted
