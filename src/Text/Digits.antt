-- ===== src/Text/Digits.antt =====
-- What `str2int` makes of a text of digits.
use slurm_spank_plugins.Base.{
  false, ℕ, ◌+◌, ◌-◌, ◌*◌, ◌^◌, ◌≤◌, ◌<◌, true, ◌≡◌, refl, [], ◌∷◌, pos, negsuc, if◌then◌else◌, ltb,
  ◌%◌, Bytes, All, arith,
}
use slurm_spank_plugins.Text.{is_digit, read_digits, strtol, to_long, to_int, str2int, long_max}

-- The number that digits spell behind `n`.
abbrev pub value : ℕ → Bytes → ℕ
value n [] = n
value n (c ∷ s) = value (n * 10 + (c - b'0')) s

abbrev pub AreDigits : Bytes → Type 0
AreDigits = All (λ c. is_digit c ≡ true)

read_digits_all : (s : Bytes) (n : ℕ) → AreDigits s → read_digits n s ≡ (value n s, [])
unfolding read_digits
read_digits_all [] n h = refl
read_digits_all (c ∷ s) n (h, hs) = ground (arith, read_digits_all s (n * 10 + (c - b'0')) hs)

strtol_digits :
    (c : ℕ) (s : Bytes) → AreDigits (c ∷ s) → strtol (c ∷ s) ≡ (to_long false (value 0 (c ∷ s)), [])
unfolding strtol
strtol_digits c s h = ground (arith, h.0, read_digits_all (c ∷ s) 0 h)

-- A text of digits with a value of a long is accepted, and of the value the lowest 32 bits `k` are
-- kept, and read as an int: a number beyond an int passes for `k` or, from 2 ^ 31 on, for `k - 2 ^ 32`.
pub str2int_digits :
    (c : ℕ) (s : Bytes) (k q : ℕ)
    → AreDigits (c ∷ s)
    → k < 2 ^ 32
    → value 0 (c ∷ s) ≡ q * 2 ^ 32 + k
    → value 0 (c ∷ s) ≤ long_max
    → str2int (c ∷ s) ≡ (if ltb k (2 ^ 31) then pos k else negsuc (2 ^ 32 - 1 - k))
unfolding str2int to_int
str2int_digits c s k q h small e fits =
    let low : value 0 (c ∷ s) % 2 ^ 32 ≡ k = omega arith in ground (arith, strtol_digits c s h)
