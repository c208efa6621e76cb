-- ===== src/Text.antt =====
-- Numbers in texts: `strtol` of the C library, and the plugins' `str2int` on top of it
-- (auto-affinity.c, overcommit-memory/overcommit-memory.c, overcommit-memory/util.c).
pub mod Digits
pub mod Decimal
mod Tests
use Prim.Native.Nat.{min}
use slurm_spank_plugins.Base.{
  ℕ, zero, suc, ◌+◌, ◌-◌, ◌*◌, ◌%◌, ◌^◌, Bool, true, false, ◌&&◌, ◌||◌, leb, ltb, ◌==◌,
  if◌then◌else◌, List, [], ◌∷◌, ℤ, pos, negsuc, Bytes,
}

-- `isspace` and `isdigit` of the C locale.
abbrev pub is_space : ℕ → Bool
is_space c = c == 32 || leb 9 c && leb c 13

abbrev pub is_digit : ℕ → Bool
is_digit c = leb b'0' c && leb c b'9'

unfoldable pub skip_space : Bytes → Bytes
skip_space [] = []
skip_space (c ∷ s) = if is_space c then skip_space s else c ∷ s

-- The digits at the front behind the number `n`, and what stands behind them.
unfoldable pub read_digits : ℕ → Bytes → ℕ × Bytes
read_digits n [] = (n, [])
read_digits n (c ∷ s) = elim (is_digit c) [
  | true ↦ read_digits (n * 10 + (c - b'0')) s
  | false ↦ (n, c ∷ s)
]

-- LONG_MAX of a 64-bit long, and LONG_MIN.
abbrev pub long_max : ℕ
long_max = 2 ^ 63 - 1

abbrev pub to_long : Bool → ℕ → ℤ
to_long false n = pos (min n long_max)
to_long true zero = pos 0
to_long true (suc n) = negsuc (min n long_max)

-- The number behind the sign, if there is a digit.
unfoldable pub signed : Bytes → Bool → Bytes → ℤ × Bytes
unfolding read_digits
signed whole negative [] = (pos 0, whole)
signed whole negative (c ∷ s) = elim (is_digit c) [
  | true ↦ let (n, rest) = read_digits 0 (c ∷ s) in (to_long negative n, rest)
  | false ↦ (pos 0, whole)
]

unfoldable pub after_sign : Bytes → Bytes → ℤ × Bytes
unfolding signed
after_sign whole [] = (pos 0, whole)
after_sign whole (c ∷ s) =
    if c == b'-'
    then signed whole true s
    else if c == b'+'
    then signed whole false s
    else signed whole false (c ∷ s)

-- `strtol (s, &p, 10)`: the value, and the text at `p`.
unfoldable pub strtol : Bytes → ℤ × Bytes
unfolding after_sign skip_space
strtol s = after_sign s (skip_space s)

-- The conversion of a long to an int of 32 bits, as the compilers define it.
abbrev pub wrap_int : ℕ → ℤ
wrap_int m = if ltb m (2 ^ 31) then pos m else negsuc (2 ^ 32 - 1 - m)

unfoldable pub to_int : ℤ → ℤ
to_int (pos n) = wrap_int (n % 2 ^ 32)
to_int (negsuc n) = wrap_int (2 ^ 32 - 1 - n % 2 ^ 32)

unfoldable pub str2int : Bytes → ℤ
unfolding strtol to_int
str2int s = let (l, rest) = strtol s in elim rest [ [] ↦ to_int l | _ ∷ _ ↦ negsuc 0 ]
