-- ===== src/Overcommit/Shared.antt =====
-- The shared memory file of the overcommit-memory plugin and the kernel settings that it stands for
-- (overcommit-memory/overcommit.c). An open, a map or a lock that fails is not modelled, and neither
-- is a process that is between opening the file and taking the semaphore while another removes it.
use slurm_spank_plugins.Base.{
  ℕ, zero, suc, Bool, true, false, not, ◌&&◌, ◌||◌, ltb, if◌then◌else◌, Option, none, some, List, ℤ,
  pos, negsuc, inc, dec, eq_ℤ, is_neg, is_positive, is_zero, get_elem?, set, replicate,
}

-- `struct overcommit_job_info`
pub record JobInfo : Type 0 where
  pub jobid : ℤ
  pub stepid : ℤ
  pub used : Bool

abbrev pub no_job : JobInfo
no_job = record { jobid = pos 0; stepid = pos 0; used = false }

-- `struct overcommit_shared_info`; `sem` is the value of the semaphore.
pub record Shared : Type 0 where
  pub sem : ℕ
  pub overcommit_value : ℤ
  pub previous_overcommit_ratio : ℤ
  pub nusers : ℤ
  pub users : List JobInfo

-- The number of entries of the array `users`, and the number of rounds of the loops over it:
-- `sizeof (users) / sizeof (int)`, where an entry has three ints.
abbrev pub nslots : ℕ
nslots = 64

abbrev pub maxn : ℕ
maxn = 192

-- The file of `overcommit_shared_info_init`, filled with zeros but for the semaphore.
abbrev pub new_shared : Shared
new_shared = record {
  sem = 1;
  overcommit_value = pos 0;
  previous_overcommit_ratio = pos 0;
  nusers = pos 0;
  users = replicate nslots no_job;
}

-- The shared file, if there is one, and the files below /proc/sys/vm.
pub record World : Type 0 where
  pub file : Option Shared
  pub overcommit_memory : ℤ
  pub overcommit_ratio : ℤ

-- `struct overcommit_shared_context`, without the file descriptor and the mapping.
pub record Context : Type 0 where
  pub jobid : ℤ
  pub stepid : ℤ

-- `failed` is the return value -1, `fault` an access outside of the array or through NULL, `blocked` a
-- wait for the semaphore.
pub data Run (A : Type 0) : Type 0 where
  done : A → Run A
  failed fault blocked : Run A

infixl 5 ◌>>=◌
abbrev pub ◌>>=◌ : {A C : Type 0} → Run A → (A → Run C) → Run C
done a >>= f = f a
failed >>= f = failed
fault >>= f = fault
blocked >>= f = blocked

-- The test of `unregister_job`.
unfoldable pub is_of : Context → JobInfo → Bool
is_of ctx j = eq_ℤ j.jobid ctx.jobid && (is_neg ctx.stepid || eq_ℤ j.stepid ctx.stepid)

-- The loop of `unregister_job`: the rounds that are left, and `i`.
unfoldable pub unregister_loop : ℕ → ℕ → Context → Shared → Run Shared
unregister_loop zero i ctx s = failed
unregister_loop (suc rounds) i ctx s = elim (get_elem? s.users i) [
  | none ↦ fault
  | some j ↦ elim (is_of ctx j) [
    | true ↦ done (record s { users = set s.users i no_job; nusers = dec s.nusers })
    | false ↦ unregister_loop rounds (suc i) ctx s
  ]
]

abbrev pub entry_of : Context → JobInfo
entry_of ctx = record { jobid = ctx.jobid; stepid = ctx.stepid; used = true }

unfoldable pub register_loop : ℕ → ℕ → Context → Shared → Run Shared
register_loop zero i ctx s = failed
register_loop (suc rounds) i ctx s = elim (get_elem? s.users i) [
  | none ↦ fault
  | some j ↦ elim j.used [
    | false ↦ done (record s { users = set s.users i (entry_of ctx); nusers = inc s.nusers })
    | true ↦ register_loop rounds (suc i) ctx s
  ]
]

unfoldable pub unregister_job : Context → Shared → Run Shared
unregister_job = unregister_loop maxn 0

unfoldable pub register_job : Context → Shared → Run Shared
register_job = register_loop maxn 0

unfoldable pub sem_wait : Shared → Run Shared
sem_wait s = elim s.sem [ zero ↦ blocked | suc n ↦ done (record s { sem = n }) ]

abbrev pub sem_post : Shared → Shared
sem_post s = record s { sem = suc s.sem }

abbrev pub with_file : World → Shared → World
with_file w s = record w { file = some s }

-- `overcommit_shared_ctx_create`: what the context is mapped to.
unfoldable pub overcommit_shared_ctx_create : World → Run Shared
unfolding sem_wait
overcommit_shared_ctx_create w = elim w.file [ none ↦ sem_wait new_shared | some s ↦ sem_wait s ]

-- `overcommit_memory_set_current_state`: nothing is written if the value is refused.
unfoldable pub overcommit_memory_set_current_state : ℤ → World → World × Bool
overcommit_memory_set_current_state v w = elim v [
  | negsuc n ↦ (w, false)
  | pos n ↦ if ltb 2 n then (w, false) else (record w { overcommit_memory = pos n }, true)
]

abbrev pub overcommit_ratio_set : ℤ → World → World
overcommit_ratio_set v w = record w { overcommit_ratio = v }

-- `overcommit_shared_ctx_destroy` of a context that is mapped to `s`.
unfoldable pub overcommit_shared_ctx_destroy : Shared → World → World
unfolding overcommit_memory_set_current_state
overcommit_shared_ctx_destroy s w =
    if is_zero s.nusers
    then (let w1 : World = record w { file = none } in
        let w2 : World =
          if is_zero w.overcommit_memory
          then w1
          else (overcommit_memory_set_current_state (pos 0) w1).0 in
        overcommit_ratio_set s.previous_overcommit_ratio w2)
    else with_file w (sem_post s)

unfoldable pub overcommit_shared_ctx_unregister : Context → Shared → World → Run World
unfolding unregister_job overcommit_shared_ctx_destroy
overcommit_shared_ctx_unregister ctx s w = sem_wait s >>= λ s1. elim (unregister_job ctx s1) [
  | done s2 ↦ done (overcommit_shared_ctx_destroy s2 w)
  | failed ↦ done (overcommit_shared_ctx_destroy s1 w)
  | fault ↦ fault
  | blocked ↦ blocked
]

-- What `overcommit_in_use` notes for the first user.
abbrev pub note_first_user : ℤ → World → Shared → Shared
note_first_user value w s =
    if is_zero s.nusers
    then record s { overcommit_value = value; previous_overcommit_ratio = w.overcommit_ratio }
    else s

-- `overcommit_in_use`: whether the value is refused, and the mapping behind it.
unfoldable pub overcommit_in_use : Context → ℤ → World → Shared → Run (Bool × Shared)
unfolding register_job
overcommit_in_use ctx value w s =
    if is_positive s.nusers && not (eq_ℤ s.overcommit_value value)
    then done (true, sem_post s)
    else elim (register_job ctx (note_first_user value w s)) [
      | done s1 ↦ done (false, sem_post s1)
      | failed ↦ done (false, sem_post (note_first_user value w s))
      | fault ↦ fault
      | blocked ↦ blocked
    ]
