-- ===== src/Cpuset/Bitmask/Count.antt =====
-- What the laws of the bit mask library give about the number of bits that are set.
use slurm_spank_plugins.Base.{
  ℕ, zero, suc, ◌<◌, ◌≤◌, Bool, true, false, ◌≡◌, ◌≢◌, refl, arith, ◌⊎◌, inl, inr,
}
use slurm_spank_plugins.Cpuset.Bitmask.{BitmaskLib, count_below}

count_below-le : (p : ℕ → Bool) (n : ℕ) → count_below p n ≤ n
count_below-le p zero = omega arith
count_below-le p (suc n) = ground (arith, count_below-le p n)

count_below-congr :
    (p q : ℕ → Bool) (n : ℕ) → ((j : ℕ) → j < n → p j ≡ q j) → count_below p n ≡ count_below q n
count_below-congr p q zero same = refl
count_below-congr p q (suc n) same =
    ground (arith, same n, count_below-congr p q n (λ j h. same j (omega arith)))

-- One bit more is set.
pub count_below-set :
    (p q : ℕ → Bool) (i n : ℕ)
    → p i ≡ false
    → q i ≡ true
    → ((j : ℕ) → i ≢ j → q j ≡ p j)
    → i < n
    → count_below q n ≡ suc (count_below p n)
count_below-set p q i zero clear now same h = absurd (omega arith)
count_below-set p q i (suc n) clear now same h = elim (split i n h) [
  | inl e ↦
      ground (arith, same n, count_below-congr q p n (λ j lt. same j (λ eq. absurd (omega arith))))
  | inr lt ↦
      ground (arith, same n (λ eq. absurd (omega arith)), count_below-set p q i n clear now same lt)
]
  where
    split : (i n : ℕ) → i < suc n → (i ≡ n) ⊎ (i < n)
    split i n h = omega arith

count_below-full : (p : ℕ → Bool) (n : ℕ) → ((j : ℕ) → j < n → p j ≡ true) → count_below p n ≡ n
count_below-full p zero all = refl
count_below-full p (suc n) all =
    ground (arith, all n, count_below-full p n (λ j h. all j (omega arith)))

count_below-room : (p : ℕ → Bool) (i n : ℕ) → p i ≡ false → i < n → count_below p n < n
count_below-room p i zero clear h = absurd (omega arith)
count_below-room p i (suc n) clear h =
    ground (arith, count_below-le p n, count_below-room p i n clear)

count_below_none : (p : ℕ → Bool) (n : ℕ) → ((j : ℕ) → p j ≡ false) → count_below p n ≡ 0
count_below_none p zero none' = refl
count_below_none p (suc n) none' = ground (arith, none' n, count_below_none p n none')

module _ {B : Type 0} (lib : BitmaskLib B) where
  open lib use {
    bitmask_alloc, nbits, isbitset, setbit, weight, nbits-alloc, isbitset-alloc, nbits-setbit,
    isbitset-setbit, weight-count,
  }

  pub isbitset-setbit_self : (b : B) (i : ℕ) → i < nbits b → isbitset (setbit b i) i ≡ true
  isbitset-setbit_self b i h = ground (arith, isbitset-setbit b i i)

  pub isbitset-setbit_ne : (b : B) (i j : ℕ) → i ≢ j → isbitset (setbit b i) j ≡ isbitset b j
  isbitset-setbit_ne b i j h = ground (arith, isbitset-setbit b i j)

  pub isbitset-setbit_mono :
      (b : B) (i j : ℕ) → isbitset b j ≡ true → isbitset (setbit b i) j ≡ true
  isbitset-setbit_mono b i j h = ground (arith, isbitset-setbit b i j)

  pub weight-setbit :
      (b : B) (i : ℕ) → i < nbits b → isbitset b i ≡ false → weight (setbit b i) ≡ suc (weight b)
  weight-setbit b i h clear =
      rw (weight-count (setbit b i), weight-count b, nbits-setbit b i)
        (count_below-set (isbitset b) (isbitset (setbit b i)) i (nbits b) clear
          (isbitset-setbit_self b i h) (isbitset-setbit_ne b i) h)

  pub weight-le : (b : B) → weight b ≤ nbits b
  weight-le b = rw weight-count (count_below-le (isbitset b) (nbits b))

  pub weight-room : (b : B) (i : ℕ) → isbitset b i ≡ false → i < nbits b → weight b < nbits b
  weight-room b i clear h = rw weight-count (count_below-room (isbitset b) i (nbits b) clear h)

  pub weight_full : (b : B) → ((j : ℕ) → j < nbits b → isbitset b j ≡ true) → weight b ≡ nbits b
  weight_full b all = rw weight-count (count_below-full (isbitset b) (nbits b) all)

  pub weight-alloc : (n : ℕ) → weight (bitmask_alloc n) ≡ 0
  weight-alloc n =
      rw weight-count (count_below_none (isbitset (bitmask_alloc n)) _ (isbitset-alloc n))
