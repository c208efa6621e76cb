-- ===== src/Overcommit/Table.antt =====
-- The loops of `register_job` and `unregister_job` (overcommit-memory/overcommit.c) against a
-- description of what they do to the table of users.
use mathlib.Core.List.{append_assoc}
use mathlib.Core.Path.{subst}
use slurm_spank_plugins.Base.{
  ℕ, zero, suc, ◌<◌, Bool, true, false, not, ◌≡◌, ◌∙◌, sym, ap, refl, inl, inr, Option, none, some,
  List, [], ◌∷◌, ◌++◌, ℤ, inc, dec, get_elem?, set, length, length-append, arith, Bool-cases,
}
use slurm_spank_plugins.Overcommit.Shared.{
  JobInfo, Shared, Context, Run, done, fault, no_job, entry_of, is_of, unregister_loop,
  register_loop, register_job, unregister_job, maxn,
}

-- The first entry that passes the test is replaced.
unfoldable pub replace_first : (JobInfo → Bool) → JobInfo → List JobInfo → Option (List JobInfo)
replace_first p v [] = none
replace_first p v (j ∷ js) = elim (p j) [
  | true ↦ some (v ∷ js)
  | false ↦ elim (replace_first p v js) [ none ↦ none | some l ↦ some (j ∷ l) ]
]

-- Without such an entry a loop reads behind the end of the table.
abbrev pub after : (ℤ → ℤ) → Shared → List JobInfo → Option (List JobInfo) → Run Shared
after f s pre none = fault
after f s pre (some l) = done (record s { users = pre ++ l; nusers = f s.nusers })

get_elem?-middle :
    (pre : List JobInfo) (j : JobInfo) (l : List JobInfo)
    → get_elem? (pre ++ j ∷ l) (length pre) ≡ some j
get_elem?-middle [] j l = refl
get_elem?-middle (k ∷ pre) j l = get_elem?-middle pre j l

get_elem?_end : (pre : List JobInfo) → get_elem? (pre ++ []) (length pre) ≡ none
get_elem?_end [] = refl
get_elem?_end (k ∷ pre) = get_elem?_end pre

set-middle :
    (pre : List JobInfo) (j v : JobInfo) (l : List JobInfo)
    → set (pre ++ j ∷ l) (length pre) v ≡ pre ++ v ∷ l
set-middle [] j v l = refl
set-middle (k ∷ pre) j v l = ap (λ r. k ∷ r) (set-middle pre j v l)

after-concat :
    (f : ℤ → ℤ) (s : Shared) (pre : List JobInfo) (j : JobInfo) (o : Option (List JobInfo))
    → after f s (pre ++ j ∷ []) o ≡ after f s pre (elim o [ none ↦ none | some l ↦ some (j ∷ l) ])
after-concat f s pre j none = refl
after-concat f s pre j (some l) =
    ap (λ u. done (record s { users = u; nusers = f s.nusers })) (append_assoc pre (j ∷ []) l)

replace_first_other :
    (p : JobInfo → Bool) (v j : JobInfo) (js : List JobInfo)
    → p j ≡ false
    → (elim (replace_first p v js) [ none ↦ none | some l ↦ some (j ∷ l) ])
      ≡ replace_first p v (j ∷ js)
unfolding replace_first
replace_first_other p v j js e = ground arith

module _ (ctx : Context) where
  abbrev pub is_free : JobInfo → Bool
  is_free j = not j.used

  register_skip :
      (rounds i : ℕ) (s : Shared) (j : JobInfo)
      → get_elem? s.users i ≡ some j
      → j.used ≡ true
      → register_loop (suc rounds) i ctx s ≡ register_loop rounds (suc i) ctx s
  unfolding register_loop
  register_skip rounds i s j e other = ground arith

  register_loop_lem :
      (rest : List JobInfo) (rounds : ℕ) (pre : List JobInfo) (s : Shared)
      → length rest < rounds
      → s.users ≡ pre ++ rest
      → register_loop rounds (length pre) ctx s
        ≡ after inc s pre (replace_first is_free (entry_of ctx) rest)
  unfolding register_loop replace_first
  register_loop_lem rest zero pre s h e = absurd (omega arith)
  register_loop_lem [] (suc rounds) pre s h e = ground (arith, get_elem?_end pre)
  register_loop_lem (j ∷ rest) (suc rounds) pre s h e = elim (Bool-cases (is_free j)) [
    | inl found ↦ ground (arith, get_elem?-middle pre j rest, set-middle pre j (entry_of ctx) rest)
    | inr other ↦
        let here : get_elem? s.users (length pre) ≡ some j =
          ap (λ u. get_elem? u (length pre)) e ∙ get_elem?-middle pre j rest in
        let next : length (pre ++ j ∷ []) ≡ suc (length pre) =
          omega (arith, length-append pre (j ∷ [])) in
        let later =
          register_loop_lem rest rounds (pre ++ j ∷ []) s (omega arith)
            (e ∙ sym (append_assoc pre (j ∷ []) rest)) in
        let joined = after-concat inc s pre j (replace_first is_free (entry_of ctx) rest) in
        register_skip rounds (length pre) s j here (ground arith)
        ∙ subst
            (λ k.
              register_loop rounds k ctx s
              ≡ after inc s (pre ++ j ∷ []) (replace_first is_free (entry_of ctx) rest))
            next later
        ∙ joined
        ∙ ap (after inc s pre) (replace_first_other is_free (entry_of ctx) j rest other)
  ]

  unregister_skip :
      (rounds i : ℕ) (s : Shared) (j : JobInfo)
      → get_elem? s.users i ≡ some j
      → is_of ctx j ≡ false
      → unregister_loop (suc rounds) i ctx s ≡ unregister_loop rounds (suc i) ctx s
  unfolding unregister_loop
  unregister_skip rounds i s j e other = ground arith

  unregister_loop_lem :
      (rest : List JobInfo) (rounds : ℕ) (pre : List JobInfo) (s : Shared)
      → length rest < rounds
      → s.users ≡ pre ++ rest
      → unregister_loop rounds (length pre) ctx s
        ≡ after dec s pre (replace_first (is_of ctx) no_job rest)
  unfolding unregister_loop replace_first
  unregister_loop_lem rest zero pre s h e = absurd (omega arith)
  unregister_loop_lem [] (suc rounds) pre s h e = ground (arith, get_elem?_end pre)
  unregister_loop_lem (j ∷ rest) (suc rounds) pre s h e = elim (Bool-cases ((is_of ctx) j)) [
    | inl found ↦ ground (arith, get_elem?-middle pre j rest, set-middle pre j no_job rest)
    | inr other ↦
        let here : get_elem? s.users (length pre) ≡ some j =
          ap (λ u. get_elem? u (length pre)) e ∙ get_elem?-middle pre j rest in
        let next : length (pre ++ j ∷ []) ≡ suc (length pre) =
          omega (arith, length-append pre (j ∷ [])) in
        let later =
          unregister_loop_lem rest rounds (pre ++ j ∷ []) s (omega arith)
            (e ∙ sym (append_assoc pre (j ∷ []) rest)) in
        let joined = after-concat dec s pre j (replace_first (is_of ctx) no_job rest) in
        unregister_skip rounds (length pre) s j here other
        ∙ subst
            (λ k.
              unregister_loop rounds k ctx s
              ≡ after dec s (pre ++ j ∷ []) (replace_first (is_of ctx) no_job rest))
            next later
        ∙ joined
        ∙ ap (after dec s pre) (replace_first_other (is_of ctx) no_job j rest other)
  ]

  -- The loops make more rounds than the table has entries, so that they end at a replaced entry or
  -- behind the table.
  pub register_job_lem :
      (s : Shared)
      → length s.users < maxn
      → register_job ctx s ≡ after inc s [] (replace_first is_free (entry_of ctx) s.users)
  unfolding register_job
  register_job_lem s h = register_loop_lem s.users maxn [] s h refl

  pub unregister_job_lem :
      (s : Shared)
      → length s.users < maxn
      → unregister_job ctx s ≡ after dec s [] (replace_first (is_of ctx) no_job s.users)
  unfolding unregister_job
  unregister_job_lem s h = unregister_loop_lem s.users maxn [] s h refl
