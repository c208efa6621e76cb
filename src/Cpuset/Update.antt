-- ===== src/Cpuset/Update.antt =====
-- `used_cpus_bitmask_path` (cpuset/util.c), and the update of a user's cpuset (cpuset/create.c).
use slurm_spank_plugins.Base.{
  ℕ, zero, suc, ◌==◌, Bool, true, false, if◌then◌else◌, Option, none, some, List, [], ◌∷◌,
}
use slurm_spank_plugins.Cpuset.Bitmask.{BitmaskLib, BitmaskOps}
use slurm_spank_plugins.Cpuset.Conf.{Conf}
use slurm_spank_plugins.Cpuset.Tree.{
  Part, slurm, id, orphan, hidden, other, modified, busy, broken, Name, user_name, orphan_name,
  Cset, changed, again, refused, CpusetLib,
}

-- The tree behind a call, and whether it returns 0; `crashed` is a NULL that is followed, and
-- `stuck` a loop that was given too few rounds.
pub data Ran (T : Type 0) : Type 0 where
  ran : T → Bool → Ran T
  crashed stuck : Ran T

module _ {B T : Type 0} (lib : BitmaskLib B) (ops : BitmaskOps lib) (fs : CpusetLib lib T) where
  open lib use {bitmask_alloc, weight}
  open ops use {bor, complement}
  open fs use {query, read_names, cpuset_modify, mkdir, rename, kill_all, localmems, getmems}

  -- A round of the loop over a directory: hidden files, orphans and what is not a cpuset are skipped.
  unfoldable pub add_used : T → Name → Part → B → B
  add_used t current hidden used = used
  add_used t current (orphan uid) used = used
  add_used t current slurm used = elim (query t (slurm ∷ current)) [
    | none ↦ used
    | some c ↦ bor used c.cpus used
  ]
  add_used t current (other s) used = elim (query t (other s ∷ current)) [
    | none ↦ used
    | some c ↦ bor used c.cpus used
  ]
  add_used t current (id n) used = elim (query t (id n ∷ current)) [
    | none ↦ used
    | some c ↦ bor used c.cpus used
  ]

  unfoldable pub add_all_used : T → Name → List Part → B → B
  add_all_used t current [] used = used
  add_all_used t current (x ∷ xs) used = add_all_used t current xs (add_used t current x used)

  -- What the loop starts from.
  unfoldable pub initial_used : ℕ → T → Name → Bool → B
  initial_used size t current clearall =
      let empty = bitmask_alloc size in
      if clearall
      then empty
      else elim (query t current) [ none ↦ complement empty | some c ↦ complement c.cpus ]

  unfoldable pub used_cpus_bitmask_path : ℕ → T → Name → Bool → Option B
  used_cpus_bitmask_path size t current clearall = elim (read_names t current) [
    | none ↦ none
    | some l ↦ some (add_all_used t current l (initial_used size t current clearall))
  ]

  -- `do_cpuset_create`
  unfoldable pub do_cpuset_create : Conf → B → Option (Cset B)
  do_cpuset_create cf alloc = elim (if cf.constrain_mems then localmems alloc else getmems) [
    | none ↦ none
    | some mems ↦ some (record { cpus = alloc; mems = mems; notify_on_release = true })
  ]

  -- The tree, and whether there was an orphan.
  unfoldable pub user_cpuset_unorphan : T → ℕ → T × Bool
  user_cpuset_unorphan t uid = elim (rename t (orphan_name uid) (user_name uid)) [
    | none ↦ (t, false)
    | some t' ↦ (t', true)
  ]

  unfoldable pub user_cpuset_orphan : T → ℕ → T
  user_cpuset_orphan t uid = elim (rename t (user_name uid) (orphan_name uid)) [
    | none ↦ t
    | some t' ↦ t'
  ]

  -- `none` is the -1.
  unfoldable pub user_cpuset_create : T → Name → Option T
  user_cpuset_create t name = elim (mkdir t name) [
    | changed t' ↦ some t'
    | again ↦ some t
    | refused ↦ none
  ]

  -- The attempts of `cpuset_modify`, from attempt `k` on.
  unfoldable pub modify_loop : ℕ → ℕ → T → Name → Cset B → Ran T
  modify_loop zero k t name cp = stuck
  modify_loop (suc fuel) k t name cp = elim (cpuset_modify k t name cp) [
    | modified t' ↦ ran t' true
    | busy t' ↦ modify_loop fuel (suc k) t' name cp
    | broken t' ↦ ran t' false
  ]

  abbrev pub with_alloc : Option B → B → B
  with_alloc none used = used
  with_alloc (some alloc) used = bor used used alloc

  -- What follows the computation of `used`.
  unfoldable pub give_cpus : ℕ → Conf → T → ℕ → B → Ran T
  give_cpus fuel cf t uid used = elim (weight used == 0) [
    | true ↦
        if cf.kill_orphans
        then ran (kill_all t (user_name uid)) true
        else ran (user_cpuset_orphan t uid) true
    | false ↦ elim (do_cpuset_create cf used) [
      | none ↦ ran t false
      | some cp ↦ modify_loop fuel 0 t (user_name uid) cp
    ]
  ]

  -- The directory of the user is there.
  unfoldable pub update_existing : ℕ → ℕ → Conf → T → ℕ → Option B → Bool → Ran T
  update_existing fuel size cf t uid alloc was_orphan =
      elim (used_cpus_bitmask_path size t (user_name uid) true) [
        | none ↦ crashed
        | some used ↦
            give_cpus fuel cf t uid
              (with_alloc alloc (if was_orphan then bitmask_alloc size else used))
      ]

  unfoldable pub user_cpuset_update : ℕ → ℕ → Conf → T → ℕ → Option B → Ran T
  user_cpuset_update fuel size cf t uid alloc =
      let (t1, was_orphan) = user_cpuset_unorphan t uid in
      elim was_orphan [
        | true ↦ update_existing fuel size cf t1 uid alloc true
        | false ↦ elim (user_cpuset_create t1 (user_name uid)) [
          | none ↦ ran t1 false
          | some t2 ↦ update_existing fuel size cf t2 uid alloc false
        ]
      ]

  -- A round of the loop of `update_user_cpusets`, and the loop.
  unfoldable pub update_one : ℕ → ℕ → Conf → T → Part → Ran T
  update_one fuel size cf t (id uid) = user_cpuset_update fuel size cf t uid none
  update_one fuel size cf t slurm = ran t true
  update_one fuel size cf t (orphan uid) = ran t true
  update_one fuel size cf t hidden = ran t true
  update_one fuel size cf t (other s) = ran t true

  unfoldable pub update_user_cpusets : ℕ → ℕ → Conf → T → List Part → Ran T
  update_user_cpusets fuel size cf t [] = ran t true
  update_user_cpusets fuel size cf t (x ∷ xs) = elim (update_one fuel size cf t x) [
    | ran t' ok ↦ update_user_cpusets fuel size cf t' xs
    | crashed ↦ crashed
    | stuck ↦ stuck
  ]
