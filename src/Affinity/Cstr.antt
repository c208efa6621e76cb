-- ===== src/Affinity/Cstr.antt =====
-- Lists of CPUs as texts, such as 0-7:2,9 (auto-affinity.c): `cstr_count` and `cstr_to_cpu_id`. An
-- unsigned int has 32 bits, and its additions wrap around. Both take the rounds that the loop over a
-- range may make; `none` is a range for which these are too few, or a count or an index that grows
-- beyond an int.
use Prim.Native.Nat.{min}
use slurm_spank_plugins.Base.{
  ℕ, zero, suc, ◌+◌, ◌-◌, ◌%◌, ◌^◌, ◌==◌, Bool, true, false, ltb, leb, if◌then◌else◌, Option, none,
  some, List, [], ◌∷◌, ℤ, pos, negsuc, Bytes, length,
}
use slurm_spank_plugins.Text.{is_digit, skip_space, read_digits, to_int}

-- A value of `strtoul` as an unsigned int, behind a minus sign or not.
abbrev pub to_unsigned : Bool → ℕ → ℕ
to_unsigned negative n =
    let v = min n (2 ^ 64 - 1) % 2 ^ 32 in if negative then (2 ^ 32 - v) % 2 ^ 32 else v

unfoldable pub scan_digits : Bool → Bytes → Option ℕ
scan_digits negative [] = none
scan_digits negative (c ∷ s) =
    if is_digit c then some (to_unsigned negative (read_digits 0 (c ∷ s)).0) else none

unfoldable pub scan_signed : Bytes → Option ℕ
scan_signed [] = none
scan_signed (c ∷ s) =
    if c == b'-'
    then scan_digits true s
    else if c == b'+'
    then scan_digits false s
    else scan_digits false (c ∷ s)

-- `sscanf (s, "%u", &a)`; `none` is a return value less than 1.
unfoldable pub scan_unsigned : Bytes → Option ℕ
scan_unsigned s = scan_signed (skip_space s)

-- `strchr`, and the text behind it.
unfoldable pub nexttoken : Bytes → ℕ → Option Bytes
nexttoken [] sep = none
nexttoken (c ∷ s) sep = if c == sep then some s else nexttoken s sep

-- `c1 != NULL && (c2 == NULL || c1 < c2)`, for two texts that end where one text ends: the text at `c1`.
unfoldable pub before : Option Bytes → Option Bytes → Option Bytes
before none c2 = none
before (some t) none = some t
before (some t) (some u) = if ltb (length u) (length t) then some t else none

-- An entry of a list: its numbers, or which of them is missing.
pub data Entry : Type 0 where
  no_start no_end : Entry
  range : ℕ → ℕ → ℕ → Entry

-- The part of the loop body that both functions share.
unfoldable pub parse_entry : Bytes → Entry
parse_entry p = elim (scan_unsigned p) [
  | none ↦ no_start
  | some a ↦ elim (before (nexttoken p b'-') (nexttoken p b',')) [
    | none ↦ range a a 1
    | some c1 ↦ elim (scan_unsigned c1) [
      | none ↦ no_end
      | some b ↦ elim (before (nexttoken c1 b':') (nexttoken p b',')) [
        | none ↦ range a b 1
        | some c ↦ elim (scan_unsigned c) [ none ↦ no_end | some s ↦ range a b s ]
      ]
    ]
  ]
]

-- The values of `p` in `while (p = q, q = nexttoken (q, ','), p)`.
unfoldable pub entries_after : Bytes → List Bytes
entries_after [] = []
entries_after (c ∷ s) = if c == b',' then s ∷ entries_after s else entries_after s

abbrev pub entries : Bytes → List Bytes
entries str = str ∷ entries_after str

-- `while (a <= b) { count++; a += s; }`
unfoldable pub count_range : ℕ → ℕ → ℕ → ℕ → ℕ → Option ℕ
count_range zero a b s count = if leb a b then none else some count
count_range (suc fuel) a b s count =
    let rest = count_range fuel ((a + s) % 2 ^ 32) b s (suc count) in
    if leb a b then (if ltb (suc count) (2 ^ 31) then rest else none) else some count

unfoldable pub count_entries : ℕ → List Bytes → ℕ → Option ℤ
count_entries fuel [] count = some (pos count)
count_entries fuel (p ∷ ps) count = elim (parse_entry p) [
  | no_start ↦ some (pos 1)
  | no_end ↦ some (negsuc 0)
  | range a b s ↦ elim (leb a b) [
    | false ↦ some (pos 1)
    | true ↦ elim (count_range fuel a b s count) [ none ↦ none | some c ↦ count_entries fuel ps c ]
  ]
]

unfoldable pub cstr_count : ℕ → Bytes → Option ℤ
cstr_count fuel str = count_entries fuel (entries str) 0

-- A CPU, or the index behind the range.
pub data Sought : Type 0 where
  found passed : ℕ → Sought

-- `while (a <= b) { if (index == n) return (a); a += s; index++; }`
unfoldable pub seek_range : ℕ → ℕ → ℕ → ℕ → ℕ → ℕ → Option Sought
seek_range zero a b s n index = if leb a b then none else some (passed index)
seek_range (suc fuel) a b s n index =
    let rest = seek_range fuel ((a + s) % 2 ^ 32) b s n (suc index) in
    if leb a b
    then (if index == n then some (found a) else if ltb (suc index) (2 ^ 31) then rest else none)
    else some (passed index)

unfoldable pub seek_entries : ℕ → List Bytes → ℕ → ℕ → Option ℤ
seek_entries fuel [] n index = some (negsuc 0)
seek_entries fuel (p ∷ ps) n index = elim (parse_entry p) [
  | no_start ↦ some (pos 1)
  | no_end ↦ some (negsuc 10)
  | range a b s ↦ elim (leb a b) [
    | false ↦ some (pos 1)
    | true ↦ elim (seek_range fuel a b s n index) [
      | none ↦ none
      | some r ↦ elim r [
        | found cpu ↦ some (to_int (pos cpu))
        | passed i ↦ seek_entries fuel ps n i
      ]
    ]
  ]
]

unfoldable pub cstr_to_cpu_id : ℕ → Bytes → ℕ → Option ℤ
cstr_to_cpu_id fuel str n = seek_entries fuel (entries str) n 0
