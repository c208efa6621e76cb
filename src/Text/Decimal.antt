-- ===== src/Text/Decimal.antt =====
-- `%d` of `sprintf` for a number that is not negative, and `strtoul` in base 10, which reads it back.
use mathlib.Core.List.{append_assoc}
use Prim.Native.Nat.{min}
use slurm_spank_plugins.Base.{
  ℕ, zero, suc, ◌+◌, ◌-◌, ◌*◌, ◌/◌, ◌%◌, ◌^◌, ◌<◌, ◌≤◌, ◌==◌, Bool, true, false, ltb, if◌then◌else◌,
  ◌≡◌, ◌∙◌, sym, ap, refl, arith, [], ◌∷◌, ◌++◌, Bytes, Bool-cases, inl, inr, All,
}
use slurm_spank_plugins.Text.{is_digit, skip_space, read_digits}

-- ULONG_MAX
abbrev pub ulong_max : ℕ
ulong_max = 2 ^ 64 - 1

unfoldable pub unsigned : Bytes → Bool → Bytes → ℕ × Bytes
unsigned whole negative [] = (0, whole)
unsigned whole negative (c ∷ s) = elim (is_digit c) [
  | true ↦
      let (n, rest) = read_digits 0 (c ∷ s) in
      let v = min n ulong_max in (if negative then (2 ^ 64 - v) % 2 ^ 64 else v, rest)
  | false ↦ (0, whole)
]

unfoldable pub unsigned_sign : Bytes → Bytes → ℕ × Bytes
unsigned_sign whole [] = (0, whole)
unsigned_sign whole (c ∷ s) =
    if c == b'-'
    then unsigned whole true s
    else if c == b'+'
    then unsigned whole false s
    else unsigned whole false (c ∷ s)

-- `strtoul (s, &p, 10)`: the value, and the text at `p`.
unfoldable pub strtoul : Bytes → ℕ × Bytes
strtoul s = unsigned_sign s (skip_space s)

-- The digits of a number, for as many digits as there are rounds.
unfoldable pub digits : ℕ → ℕ → Bytes
digits zero n = []
digits (suc k) n =
    let front = digits k (n / 10) in
    if ltb n 10 then (b'0' + n) ∷ [] else front ++ ((b'0' + n % 10) ∷ [])

abbrev pub decimal : ℕ → Bytes
decimal n = digits (suc n) n

-- What stands behind a number does not begin with a digit.
abbrev pub EndsNumber : Bytes → Type 0
EndsNumber [] = Unit
EndsNumber (c ∷ s) = is_digit c ≡ false

read_digits_end : (n : ℕ) (rest : Bytes) → EndsNumber rest → read_digits n rest ≡ (n, rest)
unfolding read_digits
read_digits_end n [] h = refl
read_digits_end n (c ∷ s) h = ground (arith, h)

read_digits_one :
    (m d : ℕ) (rest : Bytes)
    → d < 10
    → read_digits m ((b'0' + d) ∷ rest) ≡ read_digits (m * 10 + d) rest
unfolding read_digits
read_digits_one m d rest h = ground arith

read_digits-digits :
    (k n : ℕ) (rest : Bytes) → n < k → read_digits 0 (digits k n ++ rest) ≡ read_digits n rest
unfolding digits
read_digits-digits zero n rest h = absurd (omega arith)
read_digits-digits (suc k) n rest h = elim (Bool-cases (ltb n 10)) [
  | inl small ↦
      rw small
        (read_digits_one 0 n rest (ground arith) ∙ ap (λ m. read_digits m rest) (omega arith))
  | inr big ↦
      rw (big, append_assoc (digits k (n / 10)) ((b'0' + n % 10) ∷ []) rest)
        (read_digits-digits k (n / 10) ((b'0' + n % 10) ∷ rest) (ground arith)
          ∙ read_digits_one (n / 10) (n % 10) rest (omega arith)
          ∙ ap (λ m. read_digits m rest) (omega arith))
]

pub All-append : (P : ℕ → Type 0) (xs ys : Bytes) → All P xs → All P ys → All P (xs ++ ys)
All-append P [] ys h k = k
All-append P (x ∷ xs) ys (h, hs) k = (h, All-append P xs ys hs k)

pub digits-AreDigits : (k n : ℕ) → All (λ c. is_digit c ≡ true) (digits k n)
unfolding digits
digits-AreDigits zero n = tt
digits-AreDigits (suc k) n = elim (Bool-cases (ltb n 10)) [
  | inl small ↦ rw small (ground arith, tt)
  | inr big ↦
      rw big (All-append _ (digits k (n / 10)) _ (digits-AreDigits k (n / 10)) (ground arith, tt))
]

-- The first digit, which is not a zero but for the number 0 alone.
pub record IsFront (n : ℕ) (s : Bytes) : Type 0 where
  pub first : ℕ
  pub others : Bytes
  pub shape : s ≡ first ∷ others
  pub digit : is_digit first ≡ true
  pub significant : 0 < n → b'0' < first
  pub alone : n ≡ 0 → others ≡ []

pub digits-IsFront : (k n : ℕ) → n < k → IsFront n (digits k n)
unfolding digits
digits-IsFront zero n h = absurd (omega arith)
digits-IsFront (suc k) n h = elim (Bool-cases (ltb n 10)) [
  | inl small ↦
      let lt : n < 10 = ground arith in
      rw small (record {
        first = b'0' + n;
        others = [];
        shape = refl;
        digit = ground arith;
        significant = λ p. omega arith;
        alone = λ e. refl;
      })
  | inr big ↦
      let ge : 10 ≤ n = ground arith in
      let f = digits-IsFront k (n / 10) (omega arith) in
      rw big (record {
        first = f.first;
        others = f.others ++ ((b'0' + n % 10) ∷ []);
        shape = ap (λ l. l ++ ((b'0' + n % 10) ∷ [])) f.shape;
        digit = f.digit;
        significant = λ p. f.significant (omega arith);
        alone = λ e. absurd (omega arith);
      })
]

-- `strtoul` reads back what `%d` wrote, and stops where the number ends.
pub strtoul-decimal :
    (n : ℕ) (rest : Bytes)
    → n ≤ ulong_max
    → EndsNumber rest
    → strtoul (decimal n ++ rest) ≡ (n, rest)
unfolding strtoul unsigned_sign unsigned skip_space
strtoul-decimal n rest small h =
    let f = digits-IsFront (suc n) n (omega arith) in
    let read = read_digits-digits (suc n) n rest (omega arith) ∙ read_digits_end n rest h in
    let same : decimal n ++ rest ≡ f.first ∷ (f.others ++ rest) = ap (λ l. l ++ rest) f.shape in
    let again : read_digits 0 (f.first ∷ (f.others ++ rest)) ≡ (n, rest) =
      ap (read_digits 0) (sym same) ∙ read in
    let d = f.digit in rw same (ground (arith, again))
