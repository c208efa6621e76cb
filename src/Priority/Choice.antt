-- ===== src/Priority/Choice.antt =====
-- When a task's scheduling policy is set (setsched.c).
use slurm_spank_plugins.Base.{[], ◌∷◌, strip_prefix, none, some, List, ℤ, Bytes}
use slurm_spank_plugins.Priority.Setsched.{str2int}

-- The number behind a name in the last of the arguments that has one, or what was there before.
abbrev pub given : Bytes → List Bytes → ℤ → ℤ
given name [] before = before
given name (arg ∷ av) before = given name av (elim (strip_prefix name arg) [
  | none ↦ before
  | some v ↦ elim (str2int v) [ none ↦ before | some n ↦ n ]
])
