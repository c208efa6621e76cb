-- ===== src/PreserveEnv/Environment.antt =====
-- An environment, with the documented behaviour of `setenv` and `unsetenv` and of those of SLURM. That
-- there is no memory left is not modelled.
use slurm_spank_plugins.Base.{
  ◌==◌, false, ◌≡◌, ◌⊎◌, if◌then◌else◌, Option, none, some, List, [], ◌∷◌, ◌++◌, Bytes, str_eq,
}

abbrev pub Member : Bytes → List Bytes → Type 0
Member x [] = ⊥
Member x (y ∷ ys) = (x ≡ y) ⊎ Member x ys

-- No `=` in a text.
abbrev pub IsPlain : Bytes → Type 0
IsPlain [] = Unit
IsPlain (c ∷ s) = ((c == b'=') ≡ false) × IsPlain s

-- `NAME=VALUE`
abbrev pub variable : Bytes → Bytes → Bytes
variable name value = name ++ (b'=' ∷ value)

pub record EnvLib (E : Type 0) : Type 0 where
  -- `environ`
  pub entries : E → List Bytes
  pub getenv : E → Bytes → Option Bytes
  pub setenv : E → Bytes → Bytes → E
  pub unsetenv : E → Bytes → E
  -- A name with an `=` is refused.
  pub getenv-setenv :
      (e : E) (n v m : Bytes)
      → IsPlain n
      → getenv (setenv e n v) m ≡ (if str_eq n m then some v else getenv e m)
  pub getenv-unsetenv :
      (e : E) (n m : Bytes) → getenv (unsetenv e n) m ≡ (if str_eq n m then none else getenv e m)
  pub entries-getenv :
      (e : E) (x : Bytes)
      → Member x (entries e)
      → (n : Bytes) × (v : Bytes) × (x ≡ variable n v) × IsPlain n × (getenv e n ≡ some v)
  pub getenv-entries :
      (e : E) (n v : Bytes) → getenv e n ≡ some v → Member (variable n v) (entries e)
