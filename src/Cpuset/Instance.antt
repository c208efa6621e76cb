-- ===== src/Cpuset/Instance.antt =====
-- Bit masks and a sort that have the properties which the models of cpuset/ assume of libbitmask and
-- of lib/list.c, and a small machine: two memory nodes with two CPUs each, CPU 1 in use.
use mathlib.Core.List.{Permᴰ}
use mathlib.Core.List.Permᴰ
use slurm_spank_plugins.Base.{
  ℕ, zero, suc, Bool, true, false, not, ◌||◌, ◌&&◌, ◌==◌, ltb, ◌≡◌, refl, inl, inr, List, [], ◌∷◌,
  arith, All, if◌then◌else◌, ℤ, pos, negsuc, ◌≤ℤ◌, some, leb, Bool-cases,
}
use slurm_spank_plugins.Cpuset.Bitmask.{BitmaskLib, BitmaskOps, count_below}
use slurm_spank_plugins.Cpuset.Nodemap.Sort.{IsOrder, IsSorted, SortLib}
use slurm_spank_plugins.Cpuset.Nodemap.Create.{Machine}

pub record Mask : Type 0 where
  pub size : ℕ
  pub bits : ℕ → Bool

abbrev set_at : Mask → ℕ → ℕ → Bool
set_at b i j = if i == j && ltb i b.size then true else b.bits j

abbrev first_from : ℕ → ℕ → (ℕ → Bool) → ℕ
first_from zero i p = i
first_from (suc n) i p = if p i then i else first_from n (suc i) p

abbrev is_set : Mask → ℕ → Bool
is_set b i = ltb i b.size && b.bits i

abbrev pub masks : BitmaskLib Mask
masks = record {
  bitmask_alloc = λ n. record { size = n; bits = λ _. false };
  nbits = λ b. b.size;
  isbitset = is_set;
  setbit = λ b i. record b { bits = set_at b i };
  weight = λ b. count_below (is_set b) b.size;
  first = λ b. first_from b.size 0 b.bits;
  copy = λ d s. record d { bits = is_set s };
  nbits-alloc = λ n. refl;
  isbitset-alloc = λ n i. ground arith;
  nbits-setbit = λ b i. refl;
  isbitset-setbit = λ b i j. ground arith;
  nbits-copy = λ d s. refl;
  isbitset-copy = λ d s i. refl;
  weight-count = λ b. refl;
}

abbrev pub mask_ops : BitmaskOps masks
mask_ops = record {
  bor = λ d a b. record d { bits = λ i. is_set a i || is_set b i };
  complement = λ b. record b { bits = λ i. not (is_set b i) };
  isbitset_size = λ b i h. ground arith;
  nbits-bor = λ d a b. refl;
  isbitset-bor = λ d a b i. refl;
  nbits-complement = λ b. refl;
  isbitset-complement = λ b i. refl;
}

-- `cmp x y <= 0`
abbrev goes_first : ℤ → Bool
goes_first (pos zero) = true
goes_first (pos (suc n)) = false
goes_first (negsuc n) = true

goes_first→≤ : (z : ℤ) → goes_first z ≡ true → z ≤ℤ pos 0
goes_first→≤ (pos zero) h = omega arith
goes_first→≤ (pos (suc n)) h = cc
goes_first→≤ (negsuc n) h = omega arith

≤→goes_first : (z : ℤ) → z ≤ℤ pos 0 → goes_first z ≡ true
≤→goes_first (pos zero) h = refl
≤→goes_first (pos (suc n)) h = absurd (omega arith)
≤→goes_first (negsuc n) h = refl

module _ {A : Type 0} (cmp : A → A → ℤ) where
  abbrev insert_sorted : A → List A → List A
  insert_sorted x [] = x ∷ []
  insert_sorted x (y ∷ ys) = if goes_first (cmp x y) then x ∷ y ∷ ys else y ∷ insert_sorted x ys

  abbrev pub insertion_sort : List A → List A
  insertion_sort [] = []
  insertion_sort (x ∷ xs) = insert_sorted x (insertion_sort xs)

  insert-Perm : (x : A) (ys : List A) → Permᴰ (x ∷ ys) (insert_sorted x ys)
  insert-Perm x [] = Permᴰ.refl (x ∷ [])
  insert-Perm x (y ∷ ys) = elim (Bool-cases (goes_first (cmp x y))) [
    | inl e ↦ rw e (Permᴰ.refl (x ∷ y ∷ ys))
    | inr e ↦ rw e (Permᴰ.trans (Permᴰ.swap refl refl) (Permᴰ.cons refl (insert-Perm x ys)))
  ]

  pub insertion_sort-Perm : (xs : List A) → Permᴰ xs (insertion_sort xs)
  insertion_sort-Perm [] = Permᴰ.nil
  insertion_sort-Perm (x ∷ xs) =
      Permᴰ.trans (Permᴰ.cons refl (insertion_sort-Perm xs)) (insert-Perm x (insertion_sort xs))

  module _ (order : IsOrder cmp) where
    abbrev Above : A → List A → Type 0
    Above x = All (λ y. cmp x y ≤ℤ pos 0)

    Above-trans : (x y : A) (l : List A) → cmp x y ≤ℤ pos 0 → Above y l → Above x l
    Above-trans x y [] h below = tt
    Above-trans x y (z ∷ l) h below = (order.trans x y z h below.0, Above-trans x y l h below.1)

    Above-insert :
        (x y : A) (l : List A) → cmp x y ≤ℤ pos 0 → Above x l → Above x (insert_sorted y l)
    Above-insert x y [] h below = (h, tt)
    Above-insert x y (z ∷ l) h below = elim (Bool-cases (goes_first (cmp y z))) [
      | inl e ↦ rw e (h, below)
      | inr e ↦ rw e (below.0, Above-insert x y l h below.1)
    ]

    goes_second : (x y : A) → goes_first (cmp x y) ≡ false → cmp y x ≤ℤ pos 0
    goes_second x y e = elim (order.total x y) [
      | inl h ↦ absurd (cc (≤→goes_first (cmp x y) h))
      | inr h ↦ h
    ]

    insert-IsSorted : (x : A) (l : List A) → IsSorted cmp l → IsSorted cmp (insert_sorted x l)
    insert-IsSorted x [] h = (tt, tt)
    insert-IsSorted x (y ∷ l) h = elim (Bool-cases (goes_first (cmp x y))) [
      | inl e ↦
          let first' = goes_first→≤ (cmp x y) e in rw e ((first', Above-trans x y l first' h.0), h)
      | inr e ↦ rw e (Above-insert y x l (goes_second x y e) h.0, insert-IsSorted x l h.1)
    ]

    pub insertion_sort-IsSorted : (l : List A) → IsSorted cmp (insertion_sort l)
    insertion_sort-IsSorted [] = tt
    insertion_sort-IsSorted (x ∷ l) =
        insert-IsSorted x (insertion_sort l) (insertion_sort-IsSorted l)

abbrev pub sorts : {A : Type 0} → SortLib A
sorts = record {
  list_sort = insertion_sort;
  sort-Perm = insertion_sort-Perm;
  sort-IsSorted = λ cmp l order. insertion_sort-IsSorted cmp order l;
}

abbrev pub in_use : Mask
in_use = record { size = 4; bits = λ i. i == 1 }

abbrev pub two_nodes : Machine Mask
two_nodes = record {
  cpumask_size = 4;
  memmask_size = 2;
  current_cpus = record { size = 4; bits = λ i. true };
  used_cpus = some in_use;
  localcpus = λ i. record { size = 4; bits = λ j. if i == 0 then ltb j 2 else leb 2 j && ltb j 4 };
  localmems = λ cpus i. ltb i 2;
}
