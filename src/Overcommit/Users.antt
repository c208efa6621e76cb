-- ===== src/Overcommit/Users.antt =====
-- The table of users of the overcommit-memory plugin (overcommit-memory/overcommit.c): the counter is
-- the number of entries in use, and what registering and unregistering a job does.
use slurm_spank_plugins.Base.{
  ℕ, zero, suc, ◌≤◌, ◌<◌, true, false, ◌≡◌, ◌∙◌, sym, ◌++◌, Option, ap, refl, inl, inr, none, some,
  List, [], ◌∷◌, inc, dec, length, arith, Bool-cases, All, if◌then◌else◌, eq_ℤ-refl, eq_ℤ→eq,
  dec-inc, Option-cases, pos, is_positive, replicate,
}
use slurm_spank_plugins.Overcommit.Shared.{
  JobInfo, Shared, Context, done, fault, no_job, entry_of, is_of, register_job, unregister_job,
  maxn, nslots,
}
use slurm_spank_plugins.Overcommit.Table.{
  replace_first, after, is_free, register_job_lem, unregister_job_lem,
}

abbrev pub count_used : List JobInfo → ℕ
count_used [] = 0
count_used (j ∷ js) = if j.used then suc (count_used js) else count_used js

-- An entry that is not in use is filled with zeros.
abbrev pub IsClean : JobInfo → Type 0
IsClean j = j.used ≡ false → j ≡ no_job

pub record IsValid (s : Shared) : Type 0 where
  pub slots : length s.users ≡ nslots
  pub counted : s.nusers ≡ pos (count_used s.users)
  pub clean : All IsClean s.users

-- A job of SLURM has a positive id.
abbrev pub IsJob : Context → Type 0
IsJob ctx = is_positive ctx.jobid ≡ true

count_used-le : (l : List JobInfo) → count_used l ≤ length l
count_used-le [] = omega arith
count_used-le (j ∷ l) = ground (arith, count_used-le l)

-- What `replace_first` does where it finds an entry.
pub record Registered (ctx : Context) (l l' : List JobInfo) : Type 0 where
  pub same_length : length l' ≡ length l
  pub one_more : count_used l' ≡ suc (count_used l)
  pub still_clean : All IsClean l'

module _ (ctx : Context) where
  replace_free :
      (l : List JobInfo)
      → All IsClean l
      → count_used l < length l
      → (l' : List JobInfo) × (replace_first (is_free ctx) (entry_of ctx) l ≡ some l')
        × Registered ctx l l'
  unfolding replace_first
  replace_free [] c h = absurd (omega arith)
  replace_free (j ∷ l) (c, cs) h = elim (Bool-cases j.used) [
    | inr free ↦ (
      entry_of ctx ∷ l,
      ground arith,
      record { same_length = refl; one_more = ground arith; still_clean = (λ e. absurd (cc), cs) },
    )
    | inl used ↦
        let (l', e, r) = replace_free l cs (ground arith) in
        (
          j ∷ l',
          ground arith,
          record {
            same_length = omega (arith, r.same_length);
            one_more = ground (arith, r.one_more);
            still_clean = (c, r.still_clean);
          },
        )
  ]

  replace_free_full :
      (l : List JobInfo)
      → count_used l ≡ length l
      → replace_first (is_free ctx) (entry_of ctx) l ≡ none
  unfolding replace_first
  replace_free_full [] h = refl
  replace_free_full (j ∷ l) h = ground (arith, count_used-le l, replace_free_full l)

  is_of-no_job : IsJob ctx → is_of ctx no_job ≡ false
  unfolding is_of
  is_of-no_job h = ground (arith, eq_ℤ→eq (pos 0) ctx.jobid)

  is_of_entry : is_of ctx (entry_of ctx) ≡ true
  unfolding is_of
  is_of_entry = ground (arith, eq_ℤ-refl ctx.jobid, eq_ℤ-refl ctx.stepid)

  -- The entry of the job that was registered last is found and cleared again.
  replace_free_back :
      (l l' : List JobInfo)
      → All IsClean l
      → IsJob ctx
      → All (λ j. is_of ctx j ≡ false) l
      → replace_first (is_free ctx) (entry_of ctx) l ≡ some l'
      → replace_first (is_of ctx) no_job l' ≡ some l
  unfolding replace_first
  replace_free_back [] l' c job others e = cc
  replace_free_back (j ∷ l) l' (c, cs) job (o, os) e = elim (Bool-cases j.used) [
    | inr free ↦ ground (arith, c free, is_of_entry)
    | inl used ↦ elim (Option-cases (replace_first (is_free ctx) (entry_of ctx) l)) [
      | inl f ↦ absurd (ground arith)
      | inr (l2, f) ↦ ground (arith, replace_free_back l l2 cs job os f)
    ]
  ]

  none_found :
      (l : List JobInfo)
      → All (λ j. is_of ctx j ≡ false) l
      → replace_first (is_of ctx) no_job l ≡ none
  unfolding replace_first
  none_found [] h = refl
  none_found (j ∷ l) (h, hs) = ground (arith, none_found l hs)

  -- With a free entry a job is registered: the table stays valid and the counter grows by one.
  pub register_job-IsValid :
      (s : Shared)
      → IsValid s
      → count_used s.users < nslots
      → (l : List JobInfo) × (register_job ctx s
          ≡ done (record s { users = l; nusers = inc s.nusers }))
        × IsValid (record s { users = l; nusers = inc s.nusers })
  register_job-IsValid s v room =
      let (l, e, r) = replace_free s.users v.clean (omega (arith, v.slots)) in
      (
        l,
        register_job_lem ctx s (omega (arith, v.slots)) ∙ ap (after inc s []) e,
        record {
          slots = omega (arith, v.slots, r.same_length);
          counted = ground (arith, v.counted, r.one_more);
          clean = r.still_clean;
        },
      )

  -- The table has the job in the place of an entry that was free, and is otherwise as before.
  pub record Entered (old new : List JobInfo) : Type 0 where
    pub front : List JobInfo
    pub back : List JobInfo
    pub free : JobInfo
    pub unused : free.used ≡ false
    pub was : old ≡ front ++ (free ∷ back)
    pub is : new ≡ front ++ (record { jobid = ctx.jobid; stepid = ctx.stepid; used = true } ∷ back)

  replace_free-Entered :
      (l l' : List JobInfo) → replace_first (is_free ctx) (entry_of ctx) l ≡ some l' → Entered l l'
  unfolding replace_first
  replace_free-Entered [] l' e = cc e
  replace_free-Entered (j ∷ l) l' e = elim (Bool-cases j.used) [
    | inr unused ↦ record {
      front = [];
      back = l;
      free = j;
      unused = unused;
      was = refl;
      is = ground arith;
    }
    | inl used ↦ elim (Option-cases (replace_first (is_free ctx) (entry_of ctx) l)) [
      | inl f ↦ absurd (ground arith)
      | inr (k, f) ↦
          let later = replace_free-Entered l k f in
          let whole : j ∷ k ≡ l' = ground arith in
          record {
            front = j ∷ later.front;
            back = later.back;
            free = later.free;
            unused = later.unused;
            was = ap (λ r. j ∷ r) later.was;
            is = sym whole ∙ ap (λ r. j ∷ r) later.is;
          }
    ]
  ]

  pub register_job-Entered :
      (s : Shared) (l : List JobInfo)
      → IsValid s
      → register_job ctx s ≡ done (record s { users = l; nusers = inc s.nusers })
      → Entered s.users l
  register_job-Entered s l v e = go (replace_first (is_free ctx) (entry_of ctx) s.users) refl
    where
      all : register_job ctx s ≡ after inc s [] (replace_first (is_free ctx) (entry_of ctx) s.users)
      all = register_job_lem ctx s (omega (arith, v.slots))

      go :
          (o : Option (List JobInfo))
          → replace_first (is_free ctx) (entry_of ctx) s.users ≡ o
          → Entered s.users l
      go none f = absurd (cc (sym e ∙ all ∙ ap (after inc s []) f))
      go (some k) f =
          let both : done (record s { users = k; nusers = inc s.nusers })
              ≡ done (record s { users = l; nusers = inc s.nusers }) =
            sym (ap (after inc s []) f) ∙ sym all ∙ e in
          let same : record s { users = k; nusers = inc s.nusers }
              ≡ record s { users = l; nusers = inc s.nusers } =
            cc both in
          replace_free-Entered s.users l (f ∙ ap some (ap (λ (r : Shared). r.users) same))

  -- In a valid table with no free entry the loop reads behind the table, since it counts ints where it
  -- should count entries.
  pub register_job_full :
      (s : Shared) → IsValid s → count_used s.users ≡ nslots → register_job ctx s ≡ fault
  register_job_full s v full =
      register_job_lem ctx s (omega (arith, v.slots))
      ∙ ap (after inc s []) (replace_free_full s.users (omega (arith, v.slots)))

  -- Where a valid table has a free entry and none of the job, which has a positive id, the job is
  -- registered, and unregistering it then gives the table and the counter back.
  pub unregister_job-register_job :
      (s : Shared)
      → IsValid s
      → IsJob ctx
      → All (λ j. is_of ctx j ≡ false) s.users
      → count_used s.users < nslots
      → (l : List JobInfo) × (register_job ctx s
          ≡ done (record s { users = l; nusers = inc s.nusers }))
        × IsValid (record s { users = l; nusers = inc s.nusers })
        × (unregister_job ctx (record s { users = l; nusers = inc s.nusers }) ≡ done s)
  unregister_job-register_job s v job others room =
      let (l, e, r) = replace_free s.users v.clean (omega (arith, v.slots)) in
      let t : Shared = record s { users = l; nusers = inc s.nusers } in
      let bound : length l < maxn = omega (arith, v.slots, r.same_length) in
      (
        l,
        register_job_lem ctx s (omega (arith, v.slots)) ∙ ap (after inc s []) e,
        record {
          slots = omega (arith, v.slots, r.same_length);
          counted = ground (arith, v.counted, r.one_more);
          clean = r.still_clean;
        },
        unregister_job_lem ctx t bound
            ∙ ap (after dec t []) (replace_free_back s.users l v.clean job others e)
            ∙ ap (λ z. done (record s { nusers = z })) (dec-inc s.nusers),
      )

  -- A job that is not in a valid table is not reported as such: the loop reads behind the table.
  pub unregister_job_absent :
      (s : Shared)
      → IsValid s
      → All (λ j. is_of ctx j ≡ false) s.users
      → unregister_job ctx s ≡ fault
  unregister_job_absent s v others =
      unregister_job_lem ctx s (omega (arith, v.slots))
      ∙ ap (after dec s []) (none_found s.users others)

pub no_jobs-IsClean : (n : ℕ) → All IsClean (replicate n no_job)
no_jobs-IsClean zero = tt
no_jobs-IsClean (suc n) = (λ e. refl, no_jobs-IsClean n)

pub no_jobs-others :
    (ctx : Context) (n : ℕ) → IsJob ctx → All (λ j. is_of ctx j ≡ false) (replicate n no_job)
no_jobs-others ctx zero job = tt
no_jobs-others ctx (suc n) job = (is_of-no_job ctx job, no_jobs-others ctx n job)
