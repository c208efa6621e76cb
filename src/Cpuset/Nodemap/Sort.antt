-- ===== src/Cpuset/Nodemap/Sort.antt =====
-- `list_sort` of lib/list.c, a copy of the LSD-Tools list library: a parameter, with its documented
-- behaviour as laws. What the list library does to walk a list is the recursion on the list.
use mathlib.Core.List.{Permᴰ}
use slurm_spank_plugins.Base.{◌⊎◌, List, [], ◌∷◌, All, ℤ, pos, ◌≤ℤ◌}

-- A comparison function that orders: of two values one is not above the other, and it is transitive.
pub record IsOrder {A : Type 0} (cmp : A → A → ℤ) : Type 0 where
  pub total : (a b : A) → (cmp a b ≤ℤ pos 0) ⊎ (cmp b a ≤ℤ pos 0)
  pub trans : (a b c : A) → cmp a b ≤ℤ pos 0 → cmp b c ≤ℤ pos 0 → cmp a c ≤ℤ pos 0

abbrev pub IsSorted : {A : Type 0} → (A → A → ℤ) → List A → Type 0
IsSorted cmp [] = Unit
IsSorted cmp (x ∷ xs) = All (λ y. cmp x y ≤ℤ pos 0) xs × IsSorted cmp xs

pub record SortLib (A : Type 0) : Type 0 where
  pub list_sort : (A → A → ℤ) → List A → List A
  pub sort-Perm : (cmp : A → A → ℤ) (l : List A) → Permᴰ l (list_sort cmp l)
  pub sort-IsSorted : (cmp : A → A → ℤ) (l : List A) → IsOrder cmp → IsSorted cmp (list_sort cmp l)
