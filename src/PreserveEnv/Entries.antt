-- ===== src/PreserveEnv/Entries.antt =====
-- Names and values of entries, prefixes, and the entries that a loop collects (preserve-env.c).
use slurm_spank_plugins.Base.{
  ◌==◌, Bool, true, false, ◌≡◌, ◌⊎◌, ◌∙◌, sym, ap, refl, arith, inl, inr, Option, none, some,
  Bool-cases, List, [], ◌∷◌, ◌++◌, Bytes, strip_prefix,
}
use slurm_spank_plugins.PreserveEnv.Environment.{Member, IsPlain, variable}
use slurm_spank_plugins.PreserveEnv.Plugin.{starts_with, env_name, env_value, collect}

pub env_name-variable : (n v : Bytes) → IsPlain n → env_name (variable n v) ≡ n
unfolding env_name
env_name-variable [] v plain = refl
env_name-variable (c ∷ n) v plain = rw plain.0 (ap (λ s. c ∷ s) (env_name-variable n v plain.1))

env_value_plain : (v : Bytes) → IsPlain v → env_value v ≡ none
unfolding env_value
env_value_plain [] plain = refl
env_value_plain (c ∷ v) plain = rw plain.0 (env_value_plain v plain.1)

-- A value without `=` is read back as it is.
pub env_value-variable : (n v : Bytes) → IsPlain n → IsPlain v → env_value (variable n v) ≡ some v
unfolding env_value
env_value-variable [] v plain plain_v = rw (env_value_plain v plain_v) refl
env_value-variable (c ∷ n) v plain plain_v = rw plain.0 (env_value-variable n v plain.1 plain_v)

-- Any other one is read back as something.
pub env_value-some : (n v : Bytes) → IsPlain n → (w : Bytes) × (env_value (variable n v) ≡ some w)
unfolding env_value
env_value-some [] v plain = go (env_value v) refl
  where
    go :
        (o : Option Bytes)
        → env_value v ≡ o
        → (w : Bytes) × ((elim o as (λ _. Option Bytes) [ none ↦ some v | some u ↦ some u ])
            ≡ some w)
    go none e = (v, refl)
    go (some u) e = (u, refl)
env_value-some (c ∷ n) v plain = let (w, e) = env_value-some n v plain.1 in (w, rw plain.0 e)

-- A prefix without `=` is one of the name.
pub prefix_inside :
    (p n v : Bytes) → IsPlain p → starts_with p (variable n v) ≡ true → (r : Bytes) × (n ≡ p ++ r)
unfolding starts_with strip_prefix
prefix_inside [] n v plain h = (n, refl)
prefix_inside (c ∷ p) [] v plain h = absurd (ground arith)
prefix_inside (c ∷ p) (d ∷ n) v plain h = elim (Bool-cases (c == d)) [
  | inr f ↦ absurd (cc (rw (starts_with, f) at h))
  | inl f ↦
      let e : c ≡ d = ground arith in
      let (r, g) = prefix_inside p n v plain.1 (rw (starts_with, f) at h) in
      (r, rw (sym e) (ap (λ s. c ∷ s) g))
]

pub Member-collect :
    (fits : Bytes → Bool) (x : Bytes) (env l : List Bytes)
    → fits x ≡ true
    → Member x env ⊎ Member x l
    → Member x (collect fits env l)
unfolding collect
Member-collect fits x [] l hit (inl m) = absurd m
Member-collect fits x [] l hit (inr m) = m
Member-collect fits x (y ∷ env) l hit m = elim (Bool-cases (fits y)) [
  | inl f ↦ rw f (Member-collect fits x env (y ∷ l) hit (moved m))
  | inr f ↦ rw f (Member-collect fits x env l hit (stays f m))
]
  where
    moved : Member x (y ∷ env) ⊎ Member x l → Member x env ⊎ Member x (y ∷ l)
    moved (inl (inl e)) = inr (inl e)
    moved (inl (inr m)) = inl m
    moved (inr m) = inr (inr m)

    stays : fits y ≡ false → Member x (y ∷ env) ⊎ Member x l → Member x env ⊎ Member x l
    stays f (inl (inl e)) = absurd (cc (ap fits e, f, hit))
    stays f (inl (inr m)) = inl m
    stays f (inr m) = inr m

pub collect-Member :
    (fits : Bytes → Bool) (x : Bytes) (env l : List Bytes)
    → Member x (collect fits env l)
    → Member x l ⊎ (Member x env × (fits x ≡ true))
unfolding collect
collect-Member fits x [] l m = inl m
collect-Member fits x (y ∷ env) l m = elim (Bool-cases (fits y)) [
  | inl f ↦ elim (collect-Member fits x env (y ∷ l) (rw f at m)) [
    | inl (inl e) ↦ inr (inl e, ap fits e ∙ f)
    | inl (inr k) ↦ inl k
    | inr (k, g) ↦ inr (inr k, g)
  ]
  | inr f ↦ elim (collect-Member fits x env l (rw f at m)) [
    | inl k ↦ inl k
    | inr (k, g) ↦ inr (inr k, g)
  ]
]
