-- ===== src/PrivateMount/Plugin.antt =====
-- The callbacks of private-mount.c. That a system is out of memory is not modelled.
use slurm_spank_plugins.Base.{
  ℕ, zero, suc, ◌==◌, Bool, true, false, not, ◌&&◌, if◌then◌else◌, Option, none, some, List, [],
  ◌∷◌, Bytes, codes, strip_prefix, str_eq,
}
use slurm_spank_plugins.PrivateMount.System.{made, enoent, eexist, failed, System}

pub data NsMode : Type 0 where
  ns_system ns_task ns_job : NsMode

-- The static variables.
pub record Plugin : Type 0 where
  pub ns_mode : NsMode
  pub mounts : Option (List Bytes)
  pub allowed : Bool

abbrev pub fresh : Plugin
fresh = record { ns_mode = ns_system; mounts = none; allowed = false }

-- `ns_mode` after the option.
abbrev pub not_system : NsMode → NsMode
not_system ns_system = ns_job
not_system ns_task = ns_task
not_system ns_job = ns_job

-- The system after a call and whether it returns 0; `stuck` is a recursion with too little fuel.
pub data Ended (S : Type 0) : Type 0 where
  ended : S → Bool → Ended S
  stuck : Ended S

module _ {S : Type 0} (sys : System S) where
  open sys use {
    unshare, bind_fstab, lookup, mkdir, is_dir, dirname, mount_n, statfs, getpwnam, list_split,
  }

  -- `mkdir` after the directories above were made.
  unfoldable pub mkdir_again : S → Bytes → Ended S
  mkdir_again s path = elim (mkdir s path) [
    | made s' ↦ ended s' true
    | enoent ↦ ended s false
    | eexist ↦ ended s false
    | failed ↦ ended s false
  ]

  -- `_mkdir_p`
  unfoldable pub mkdir_p : ℕ → S → Bytes → Ended S
  mkdir_p zero s path = stuck
  mkdir_p (suc fuel) s path = elim (mkdir s path) [
    | made s' ↦ ended s' true
    | enoent ↦ elim (mkdir_p fuel s (dirname path)) [
      | ended s1 above ↦ elim above [ true ↦ mkdir_again s1 path | false ↦ ended s1 false ]
      | stuck ↦ stuck
    ]
    | eexist ↦ ended s (is_dir s path)
    | failed ↦ ended s false
  ]

  -- A round of the loop of `_private_mount`, and the loop.
  unfoldable pub mount_one : ℕ → S → Bytes → Ended S
  mount_one fuel s name =
      if not (lookup s name) then ended s false else elim (mkdir_p fuel s name) [
        | ended s1 there ↦ elim there [
          | false ↦ ended s1 false
          | true ↦ elim (mount_n s1 name) [
            | none ↦ ended s1 false
            | some s2 ↦ ended s2 (statfs s2 name)
          ]
        ]
        | stuck ↦ stuck
      ]

  unfoldable pub mount_all : ℕ → S → List Bytes → Ended S
  mount_all fuel s [] = ended s true
  mount_all fuel s (name ∷ names) = elim (mount_one fuel s name) [
    | ended s1 good ↦ elim good [ true ↦ mount_all fuel s1 names | false ↦ ended s1 false ]
    | stuck ↦ stuck
  ]

  -- `_private_mount`
  unfoldable pub private_mount : ℕ → Option (List Bytes) → S → Ended S
  private_mount fuel mounts s = elim (unshare s) [
    | none ↦ ended s false
    | some s1 ↦ elim mounts [
      | none ↦ ended s1 true
      | some names ↦ elim (bind_fstab s1) [
        | none ↦ ended s1 false
        | some s2 ↦ mount_all fuel s2 names
      ]
    ]
  ]

  unfoldable pub slurm_spank_task_init_privileged : ℕ → Plugin → S → Ended S
  slurm_spank_task_init_privileged fuel p s = elim p.ns_mode [
    | ns_system ↦ ended s true
    | ns_job ↦ ended s true
    | ns_task ↦ if not p.allowed then ended s false else private_mount fuel p.mounts s
  ]

  unfoldable pub slurm_spank_init_post_opt : Bool → ℕ → Plugin → S → Ended S
  slurm_spank_init_post_opt remote fuel p s = elim p.ns_mode [
    | ns_system ↦ ended s true
    | ns_task ↦ ended s true
    | ns_job ↦
        if not remote
        then ended s true
        else if not p.allowed
        then ended s false
        else private_mount fuel p.mounts s
  ]

  unfoldable pub slurm_spank_exit : Plugin → Plugin
  slurm_spank_exit p = record p { mounts = none }

  -- The loop of `slurm_spank_init` over the arguments; `none` is the error.
  unfoldable pub parse_args : List Bytes → Option (List Bytes) → Option (Option (List Bytes))
  parse_args [] users = some users
  parse_args (a ∷ args) users = elim (strip_prefix (codes "allowuser=") a) [
    | none ↦ none
    | some names ↦ elim users [ some u ↦ none | none ↦ parse_args args (some (list_split names)) ]
  ]

  -- The loop over the users.
  unfoldable pub allows : ℕ → List Bytes → Bool
  allows uid [] = false
  allows uid (user ∷ users) =
      let rest = allows uid users in
      elim (getpwnam user) [ none ↦ rest | some pw_uid ↦ if uid == pw_uid then true else rest ]

  -- With the user of the job, where it can be obtained.
  unfoldable pub slurm_spank_init : Option ℕ → List Bytes → Plugin → Plugin × Bool
  slurm_spank_init uid args p = elim (parse_args args none) [
    | none ↦ (p, false)
    | some given ↦ elim given [
      | none ↦ (p, true)
      | some users ↦ elim uid [
        | none ↦ (p, false)
        | some n ↦ (if allows n users then record p { allowed = true } else p, true)
      ]
    ]
  ]

  unfoldable pub opt_fs_namespace : Option Bytes → Plugin → Plugin × Bool
  opt_fs_namespace optarg p = if not p.allowed then (p, false) else elim optarg [
    | none ↦ (p, false)
    | some arg ↦
        if str_eq arg (codes "task")
        then (record p { ns_mode = ns_task }, true)
        else if str_eq arg (codes "job")
        then (record p { ns_mode = ns_job }, true)
        else (p, false)
  ]

  unfoldable pub all_known : S → List Bytes → Bool
  all_known s [] = true
  all_known s (name ∷ names) = lookup s name && all_known s names

  unfoldable pub opt_private_mount : S → Option Bytes → Plugin → Plugin × Bool
  opt_private_mount s optarg p = if not p.allowed then (p, false) else elim optarg [
    | none ↦ (p, false)
    | some arg ↦ elim p.mounts [
      | some names ↦ (p, false)
      | none ↦
          let names = list_split arg in
          let good = all_known s names in
          (
            record p { ns_mode = not_system p.ns_mode; mounts = if good then some names else none },
            good,
          )
    ]
  ]
