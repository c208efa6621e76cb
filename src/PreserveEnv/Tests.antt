-- ===== src/PreserveEnv/Tests.antt =====
-- A small environment, a list of names and values, and the plugin of preserve-env.c on it.
use slurm_spank_plugins.Base.{
  ◌<◌, ◌==◌, Bool, true, false, not, ◌&&◌, ◌≡◌, ◌⊎◌, ◌∙◌, sym, ap, refl, arith, inl, inr, Option,
  none, some, Bool-cases, List, [], ◌∷◌, ◌++◌, Bytes, codes, str_eq, str_eq_refl, str_eq→eq,
  if◌then◌else◌, length, strip_prefix, if_rule,
}
use slurm_spank_plugins.PreserveEnv.Environment.{EnvLib, Member, IsPlain, variable}
use slurm_spank_plugins.PreserveEnv.Plugin.{
  kept, PreserveEnv, starts_with, env_name, is_preserved, preserve_slurm_env, preserve_slurm_var,
  slurm_spank_task_init,
}
use slurm_spank_plugins.PreserveEnv.RoundTrip.{
  saved, task_init-preserve_slurm_env, preserve_slurm_var_cuts,
}

abbrev is_plain : Bytes → Bool
is_plain [] = true
is_plain (c ∷ s) = not (c == b'=') && is_plain s

is_plain-IsPlain : (s : Bytes) → is_plain s ≡ true → IsPlain s
is_plain-IsPlain [] h = tt
is_plain-IsPlain (c ∷ s) h = (ground arith, is_plain-IsPlain s (ground arith))

IsPlain-is_plain : (s : Bytes) → IsPlain s → is_plain s ≡ true
IsPlain-is_plain [] h = refl
IsPlain-is_plain (c ∷ s) h = rw h.0 (IsPlain-is_plain s h.1)

abbrev Variables : Type 0
Variables = List (Bytes × Bytes)

abbrev look_up : Variables → Bytes → Option Bytes
look_up [] m = none
look_up ((n, v) ∷ t) m = let rest = look_up t m in if str_eq n m then some v else rest

abbrev remove : Variables → Bytes → Variables
remove [] m = []
remove ((n, v) ∷ t) m = let rest = remove t m in if str_eq m n then rest else (n, v) ∷ rest

-- What counts is what `look_up` finds under a plain name.
abbrev found : Variables → Bytes → Option Bytes
found e n = if is_plain n then look_up e n else none

abbrev is_value : Option Bytes → Bytes → Bool
is_value none v = false
is_value (some w) v = str_eq w v

abbrev listed : Variables → Variables → List Bytes
listed e [] = []
listed e ((n, v) ∷ t) =
    let rest = listed e t in if is_value (found e n) v then variable n v ∷ rest else rest

str_eq_cases : (n m : Bytes) → (n ≡ m) ⊎ (str_eq n m ≡ false)
str_eq_cases n m = elim (Bool-cases (str_eq n m)) [ inl e ↦ inl (str_eq→eq n m e) | inr e ↦ inr e ]

look_up-remove :
    (t : Variables) (n m : Bytes)
    → look_up (remove t n) m ≡ (if str_eq n m then none else look_up t m)
look_up-remove [] n m = if_rule (λ o. none ≡ o) (str_eq n m) _ _ (λ _. refl) (λ _. refl)
look_up-remove ((k, v) ∷ t) n m =
    let ih = look_up-remove t n m in
    elim (str_eq_cases n k) [
      | inl e ↦
          let same : str_eq k m ≡ str_eq n m = ap (λ z. str_eq z m) (sym e) in
          let here : str_eq n k ≡ true = ap (λ z. str_eq n z) (sym e) ∙ str_eq_refl n in
          ground arith
      | inr ne ↦ elim (str_eq_cases n m) [
        | inl f ↦
            let other : str_eq k m ≡ false = elim (str_eq_cases k m) [
              | inl g ↦ absurd (cc (ap (λ z. str_eq n z) (f ∙ sym g), str_eq_refl n, ne))
              | inr g ↦ g
            ] in
            let here : str_eq n m ≡ true = ap (λ z. str_eq n z) (sym f) ∙ str_eq_refl n in
            ground arith
        | inr g ↦ ground arith
      ]
    ]

found-IsPlain : (e : Variables) (n v : Bytes) → found e n ≡ some v → IsPlain n
found-IsPlain e n v h = is_plain-IsPlain n (
    if_rule (λ o. o ≡ some v → is_plain n ≡ true) (is_plain n) _ _ (λ p _. p) (λ _ f. absurd (cc f))
      h)

look_up_found : (e : Variables) (n v : Bytes) → found e n ≡ some v → look_up e n ≡ some v
look_up_found e n v h =
    if_rule (λ o. o ≡ some v → look_up e n ≡ some v) (is_plain n) _ _ (λ _ f. f)
      (λ _ f. absurd (cc f)) h

is_value_sound : (o : Option Bytes) (v : Bytes) → is_value o v ≡ true → o ≡ some v
is_value_sound none v h = cc h
is_value_sound (some w) v h = ap some (str_eq→eq w v h)

listed_found :
    (e t : Variables) (x : Bytes)
    → Member x (listed e t)
    → (n : Bytes) × (v : Bytes) × (x ≡ variable n v) × IsPlain n × (found e n ≡ some v)
listed_found e [] x m = absurd m
listed_found e ((n, v) ∷ t) x m =
    let later = listed_found e t x in
    if_rule
      (λ l.
        Member x l
        → (k : Bytes) × (w : Bytes) × (x ≡ variable k w) × IsPlain k × (found e k ≡ some w))
      (is_value (found e n) v) _ _
      (λ f k. elim k [
        | inl same ↦
            let g = is_value_sound (found e n) v f in (n, v, same, found-IsPlain e n v g, g)
        | inr more ↦ later more
      ])
      (λ _ k. later k) m

found_listed :
    (e t : Variables) (n v : Bytes)
    → found e n ≡ some v
    → look_up t n ≡ some v
    → Member (variable n v) (listed e t)
found_listed e [] n v f h = cc h
found_listed e ((k, w) ∷ t) n v f h =
    let later = found_listed e t n v f in
    if_rule (λ l. Member (variable n v) l) (is_value (found e k) w) _ _
      (λ g. elim (str_eq_cases k n) [
        | inl same ↦
            let here : str_eq k n ≡ true = ap (λ z. str_eq k z) (sym same) ∙ str_eq_refl k in
            let value : some w ≡ some v = rw here at h in
            let w' : w ≡ v = cc value in
            inl (ap (λ z. variable z v) (sym same) ∙ ap (λ z. variable k z) (sym w'))
        | inr other ↦ inr (later (rw other at h))
      ])
      (λ g. elim (str_eq_cases k n) [
        | inl same ↦
            let here : str_eq k n ≡ true = ap (λ z. str_eq k z) (sym same) ∙ str_eq_refl k in
            let value : some w ≡ some v = rw here at h in
            absurd
              (cc (ap (λ o. is_value o w) (ap (found e) same ∙ f ∙ sym value), str_eq_refl w, g))
        | inr other ↦ later (rw other at h)
      ])

abbrev put : Variables → Bytes → Bytes → Variables
put e n v = if is_plain n then (n, v) ∷ e else e

found-put :
    (e : Variables) (n v m : Bytes)
    → IsPlain n
    → found (put e n v) m ≡ (if str_eq n m then some v else found e m)
found-put e n v m plain =
    let p = IsPlain-is_plain n plain in
    elim (str_eq_cases n m) [
      | inl same ↦
          let here : str_eq n m ≡ true = ap (λ z. str_eq n z) (sym same) ∙ str_eq_refl n in
          let q : is_plain m ≡ true = ap is_plain (sym same) ∙ p in rw (p, q, here) refl
      | inr other ↦ rw (p, other) refl
    ]

found-remove :
    (e : Variables) (n m : Bytes) → found (remove e n) m ≡ (if str_eq n m then none else found e m)
found-remove e n m = let r = look_up-remove e n m in ground arith

abbrev variables : EnvLib Variables
variables = record {
  entries = λ e. listed e e;
  getenv = found;
  setenv = put;
  unsetenv = remove;
  getenv-setenv = found-put;
  getenv-unsetenv = found-remove;
  entries-getenv = λ e x m. listed_found e e x m;
  getenv-entries = λ e n v h. found_listed e e n v h (look_up_found e n v h);
}

abbrev shell : Variables
shell = (codes "SLURM_NNODES", codes "2") ∷ (codes "A", codes "b") ∷ []

-- What srun sets for the step.
abbrev step_sets : Variables → Variables
step_sets e = (codes "SLURM_NNODES", codes "1") ∷ e

shell_short : (x : Bytes) → Member x (listed shell shell) → length (env_name x) < 1018
unfolding str_eq env_name
shell_short x (inl e) = rw e (omega arith)
shell_short x (inr (inl e)) = rw e (omega arith)
shell_short x (inr (inr m)) = absurd m

way_safe :
    (e : Variables)
    → found (step_sets e) (saved (codes "SLURM_NNODES")) ≡ found e (saved (codes "SLURM_NNODES"))
unfolding str_eq
way_safe e = refl

nnodes_preserved : is_preserved (variable (codes "SLURM_NNODES") (codes "2")) ≡ true
unfolding is_preserved starts_with strip_prefix
nnodes_preserved = refl

nnodes_there : found shell (codes "SLURM_NNODES") ≡ some (codes "2")
unfolding str_eq
nnodes_there = refl

abbrev on : PreserveEnv
on = record { enabled = true; debug = false }

task_init-preserve_slurm_env_example :
    (e1 e2 : Variables) × (preserve_slurm_env variables shell ≡ kept e1 true)
    × (slurm_spank_task_init variables on (step_sets e1) ≡ some e2)
    × (found e2 (codes "SLURM_NNODES") ≡ some (codes "2"))
task_init-preserve_slurm_env_example =
    task_init-preserve_slurm_env variables on shell step_sets (codes "SLURM_NNODES") (codes "2")
      refl shell_short way_safe (is_plain-IsPlain (codes "SLURM_NNODES") refl)
      (is_plain-IsPlain (codes "2") refl) nnodes_preserved nnodes_there

preserve_slurm_var_cuts_example :
    preserve_slurm_var variables shell
      (variable (codes "SLURM_X") (codes "a" ++ (b'=' ∷ codes "b")))
    ≡ kept (put shell (saved (codes "SLURM_X")) (codes "b")) true
preserve_slurm_var_cuts_example =
    preserve_slurm_var_cuts variables shell (codes "SLURM_X") (codes "a") (codes "b")
      (is_plain-IsPlain (codes "SLURM_X") refl) (is_plain-IsPlain (codes "b") refl) (omega arith)
