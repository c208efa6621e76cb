-- ===== src/Affinity/Lists.antt =====
-- `cstr_count` and `cstr_to_cpu_id` agree on the CPUs that a list names (auto-affinity.c).
use slurm_spank_plugins.Base.{
  ℕ, zero, suc, ◌+◌, ◌%◌, ◌^◌, ◌<◌, ◌≤◌, ◌≡◌, arith, none, some, List, ◌++◌, Bytes,
}
use slurm_spank_plugins.Affinity.Cstr.{range, parse_entry, count_range, count_entries, cstr_count}
use slurm_spank_plugins.Affinity.Ranges.{range_cpus, named}

-- The first entry is a range, and the others name the rest.
record Head (p : Bytes) (ps : List Bytes) (ids : List ℕ) : Type 0 where
  a : ℕ
  b : ℕ
  s : ℕ
  rest : List ℕ
  parsed : parse_entry p ≡ range a b s
  ordered : a ≤ b
  stride : 0 < s
  bounded : b + s < 2 ^ 32
  tail : named ps ≡ some rest
  all : ids ≡ range_cpus a b s ++ rest

count_range_stuck : (fuel a b count : ℕ) → a ≤ b → b < 2 ^ 32 → count_range fuel a b 0 count ≡ none
unfolding count_range
count_range_stuck zero a b count le w = ground arith
count_range_stuck (suc fuel) a b count le w =
    let same : (a + 0) % 2 ^ 32 ≡ a = omega arith in
    ground (arith, count_range_stuck fuel a b (suc count) le w)

-- For a list that begins with a range with stride 0, whose first CPU is not above the last one, the loop
-- of `cstr_count` ends in no number of rounds: it goes on until the count overflows.
pub cstr_count_hangs :
    (fuel : ℕ) (str : Bytes) (a b : ℕ)
    → parse_entry str ≡ range a b 0
    → a ≤ b
    → b < 2 ^ 32
    → cstr_count fuel str ≡ none
unfolding cstr_count count_entries
cstr_count_hangs fuel str a b e le w = let stuck = count_range_stuck fuel a b 0 le w in ground arith
