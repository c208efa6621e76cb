-- ===== src/Cpuset/Bitmask.antt =====
-- The part of SGI's libbitmask that the cpuset plugin calls. The library is not part of the
-- repository, so its operations are a parameter, with the documented behaviour as laws.
pub mod Count
use slurm_spank_plugins.Base.{
  ℕ, zero, suc, ◌+◌, ◌<◌, Bool, true, false, ◌&&◌, ◌||◌, ◌==◌, ltb, ◌≡◌, arith, if◌then◌else◌, refl,
  ◌≤◌, not,
}

-- The bits below `n` at which a test holds, counted.
abbrev pub count_below : (ℕ → Bool) → ℕ → ℕ
count_below p zero = 0
count_below p (suc n) = if p n then suc (count_below p n) else count_below p n

pub record BitmaskLib (B : Type 0) : Type 0 where
  -- A mask of that many bits, all clear.
  pub bitmask_alloc : ℕ → B
  pub nbits : B → ℕ
  pub isbitset : B → ℕ → Bool
  -- A write beyond the size is ignored.
  pub setbit : B → ℕ → B
  pub weight : B → ℕ
  -- The lowest bit that is set, or the size.
  pub first : B → ℕ
  -- `bitmask_copy dst src`: the bits of `src` that fit `dst`.
  pub copy : B → B → B
  pub nbits-alloc : (n : ℕ) → nbits (bitmask_alloc n) ≡ n
  pub isbitset-alloc : (n i : ℕ) → isbitset (bitmask_alloc n) i ≡ false
  pub nbits-setbit : (b : B) (i : ℕ) → nbits (setbit b i) ≡ nbits b
  pub isbitset-setbit :
      (b : B) (i j : ℕ)
      → isbitset (setbit b i) j ≡ (if i == j && ltb i (nbits b) then true else isbitset b j)
  pub nbits-copy : (d s : B) → nbits (copy d s) ≡ nbits d
  pub isbitset-copy : (d s : B) (i : ℕ) → isbitset (copy d s) i ≡ (ltb i (nbits d) && isbitset s i)
  pub weight-count : (b : B) → weight b ≡ count_below (isbitset b) (nbits b)

-- The operations on whole masks, on top of the others.
pub record BitmaskOps {B : Type 0} (lib : BitmaskLib B) : Type 0 where
  -- `bitmask_or dst a b`: the bits of the two that fit `dst`.
  pub bor : B → B → B → B
  -- `bitmask_complement dst a`, where `dst` is `a`.
  pub complement : B → B
  pub isbitset_size : (b : B) (i : ℕ) → lib.nbits b ≤ i → lib.isbitset b i ≡ false
  pub nbits-bor : (d a b : B) → lib.nbits (bor d a b) ≡ lib.nbits d
  pub isbitset-bor :
      (d a b : B) (i : ℕ)
      → lib.isbitset (bor d a b) i ≡ ltb i (lib.nbits d) && (lib.isbitset a i || lib.isbitset b i)
  pub nbits-complement : (b : B) → lib.nbits (complement b) ≡ lib.nbits b
  pub isbitset-complement :
      (b : B) (i : ℕ)
      → lib.isbitset (complement b) i ≡ ltb i (lib.nbits b) && not (lib.isbitset b i)
