-- ===== src/Schedutils/Cstr.antt =====
-- Sets of CPUs as lists, such as 0-3,8 (lua/lua-schedutils/cpuset-str.c): `cpuset_to_cstr`, which is
-- also in auto-affinity.c, and `cstr_to_cpuset`.
use slurm_spank_plugins.Base.{
  ℕ, zero, suc, ◌+◌, ◌%◌, ◌^◌, ◌==◌, Bool, true, false, not, ◌&&◌, ◌||◌, leb, if◌then◌else◌, Option,
  none, some, List, [], ◌∷◌, ◌++◌, Bytes, length,
}
use slurm_spank_plugins.Text.Decimal.{decimal, strtoul}
use slurm_spank_plugins.Affinity.Cpus.{CpuSet, cpu_setsize, cpu_zero, cpu_set, cpu_isset}
use slurm_spank_plugins.Affinity.Cstr.{nexttoken, before, entries}

-- The loop over `j`: how many CPUs from `j` on are set, one after the other.
unfoldable pub run_from : CpuSet → ℕ → ℕ → ℕ
run_from mask j zero = 0
run_from mask j (suc left) =
    let run = run_from mask (suc j) left in if cpu_isset j mask then suc run else 0

-- The three calls of `sprintf`.
unfoldable pub entry : ℕ → ℕ → Bytes
entry i zero = decimal i ++ (b',' ∷ [])
entry i (suc zero) = decimal i ++ (b',' ∷ (decimal (i + 1) ++ (b',' ∷ [])))
entry i (suc (suc run)) = decimal i ++ (b'-' ∷ (decimal (i + suc (suc run)) ++ (b',' ∷ [])))

-- The loop over `i`, with `left` CPUs to look at. Where the code adds `run` to `i`, so many CPUs are
-- skipped here.
unfoldable pub print_from : CpuSet → ℕ → ℕ → ℕ → Bytes
print_from mask i zero skip = []
print_from mask i (suc left) (suc skip) = print_from mask (suc i) left skip
print_from mask i (suc left) zero =
    let run = run_from mask (suc i) left in
    let behind = print_from mask (suc i) left run in
    let next = print_from mask (suc i) left 0 in
    if cpu_isset i mask then entry i run ++ behind else next

-- The comma behind the last entry is cut off, if there is an entry.
unfoldable pub drop_last : Bytes → Bytes
drop_last [] = []
drop_last (c ∷ []) = []
drop_last (c ∷ d ∷ s) = c ∷ drop_last (d ∷ s)

unfoldable pub cpuset_to_cstr : CpuSet → Bytes
cpuset_to_cstr mask = drop_last (print_from mask 0 cpu_setsize 0)

-- An entry with its range, its stride and what `endptr` points at, or an error.
pub data Entry : Type 0 where
  bad : Entry
  range : ℕ → ℕ → ℕ → Bytes → Entry

-- `endptr == p`, for the end of a number that begins at `p`.
abbrev pub unread : Bytes → Bytes → Bool
unread endptr p = length endptr == length p

-- Leading zeros.
unfoldable pub leading_zero : ℕ → Bytes → Bool
leading_zero a [] = false
leading_zero a (c ∷ []) = not (a == 0) && c == b'0'
leading_zero a (c ∷ d ∷ s) = (not (a == 0) && c == b'0') || (a == 0 && (c == b'0' && d == b'0'))

-- The stride behind `b`. The test of `b` stands where one of the stride is meant.
unfoldable pub parse_stride : ℕ → ℕ → Bytes → Bytes → Option Bytes → Entry
parse_stride a b endptr c1 c2 = elim (before (nexttoken c1 b':') c2) [
  | none ↦ range a b 1 endptr
  | some c ↦
      let (s, end) = strtoul c in if unread end c || leb cpu_setsize b then bad else range a b s end
]

-- The end of a range, from `c1` on.
unfoldable pub parse_end : ℕ → Bytes → Bytes → Option Bytes → Entry
parse_end a endptr c1 c2 =
    let (b, end) = strtoul c1 in
    if not (length endptr == suc (length c1))
    then bad
    else if unread end c1 || leb cpu_setsize b
    then bad
    else parse_stride a b end c1 c2

unfoldable pub parse_entry : Bytes → Entry
parse_entry p =
    let (a, endptr) = strtoul p in
    let c2 = nexttoken p b',' in
    if unread endptr p || leb cpu_setsize a
    then bad
    else if leading_zero a p
    then bad
    else elim (before (nexttoken p b'-') c2) [
      | none ↦ range a a 1 endptr
      | some c1 ↦ parse_end a endptr c1 c2
    ]

-- `while (a <= b) { CPU_SET (a, mask); a += s; }`, for as many rounds; `none` is a loop that goes on.
unfoldable pub set_range : ℕ → ℕ → ℕ → ℕ → CpuSet → Option CpuSet
set_range zero a b s mask = if leb a b then none else some mask
set_range (suc fuel) a b s mask =
    let rest = set_range fuel ((a + s) % 2 ^ 64) b s (cpu_set a mask) in
    if leb a b then rest else some mask

-- The loop over the entries, and what follows it: the mask, and whether the return value is 0.
unfoldable pub set_entries : ℕ → List Bytes → Bytes → CpuSet → Option (CpuSet × Bool)
set_entries fuel [] endptr mask = some (mask, length endptr == 0)
set_entries fuel (p ∷ ps) endptr mask = elim (parse_entry p) [
  | bad ↦ some (mask, false)
  | range a b s end ↦ elim (leb a b) [
    | false ↦ some (mask, false)
    | true ↦ elim (set_range fuel a b s mask) [ none ↦ none | some m ↦ set_entries fuel ps end m ]
  ]
]

unfoldable pub cstr_to_cpuset : ℕ → Bytes → Option (CpuSet × Bool)
cstr_to_cpuset fuel [] = some (cpu_zero, true)
cstr_to_cpuset fuel (c ∷ s) = set_entries fuel (entries (c ∷ s)) [] cpu_zero
