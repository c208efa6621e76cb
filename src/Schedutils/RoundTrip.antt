-- ===== src/Schedutils/RoundTrip.antt =====
-- `cstr_to_cpuset` reads back what `cpuset_to_cstr` prints (lua/lua-schedutils/cpuset-str.c).
use slurm_spank_plugins.Base.{
  ℕ, zero, suc, ◌+◌, ◌%◌, ◌^◌, ◌<◌, ◌≤◌, ◌==◌, true, ◌&&◌, ◌||◌, leb, ◌≡◌, ◌∙◌, ap, refl, arith,
  some, List, [], ◌∷◌, ◌++◌, Bytes, Bool-cases, inl, inr, All,
}
use slurm_spank_plugins.Text.Decimal.{decimal, digits-IsFront}
use slurm_spank_plugins.Affinity.Cpus.{CpuSet, cpu_setsize, cpu_zero, cpu_set, cpu_isset}
use slurm_spank_plugins.Affinity.Cstr.{entries}
use slurm_spank_plugins.Schedutils.Cstr.{
  range, parse_entry, set_range, set_entries, cstr_to_cpuset, cpuset_to_cstr,
}
use slurm_spank_plugins.Schedutils.Pieces.{behind_text, joined}
use slurm_spank_plugins.Schedutils.Cover.{
  IsPiece, covers, all_pieces, pieces-IsPiece, cpuset_to_cstr-joined, covers-all,
}
use slurm_spank_plugins.Schedutils.Entries.{entries-joined, parse_entry-joined}

isset-cpu_set :
    (i j : ℕ) (m : CpuSet) → i < cpu_setsize → cpu_isset j (cpu_set i m) ≡ (i == j || cpu_isset j m)
unfolding cpu_isset cpu_set
isset-cpu_set i j m h = ground arith

set_range_more :
    (fuel a b : ℕ) (m : CpuSet)
    → a ≤ b
    → b < cpu_setsize
    → set_range (suc fuel) a b 1 m ≡ set_range fuel (suc a) b 1 (cpu_set a m)
unfolding set_range
set_range_more fuel a b m le small =
    let next : (a + 1) % 2 ^ 64 ≡ suc a = omega arith in ground (arith, next)

-- A range with stride 1 adds its CPUs to the set.
set_range-adds :
    (fuel a b : ℕ) (m : CpuSet)
    → a ≤ suc b
    → b < cpu_setsize
    → suc b ≤ a + fuel
    → (t : CpuSet) × (set_range fuel a b 1 m ≡ some t)
      × ((j : ℕ) → cpu_isset j t ≡ ((leb a j && leb j b) || cpu_isset j m))
unfolding set_range
set_range-adds zero a b m le small enough = (m, ground arith, λ j. ground arith)
set_range-adds (suc fuel) a b m le small enough = elim (Bool-cases (leb a b)) [
  | inr over ↦ (m, rw over refl, λ j. ground arith)
  | inl more ↦
      let (t, e, is) =
        set_range-adds fuel (suc a) b (cpu_set a m) (ground arith) small (omega arith) in
      (
        t,
        set_range_more fuel a b m (ground arith) small ∙ e,
        λ j. let s = isset-cpu_set a j m (ground arith) in is j ∙ ground (arith, s),
      )
]

set_entries_step :
    (fuel a b : ℕ) (p end endptr : Bytes) (ps : List Bytes) (m t : CpuSet)
    → parse_entry p ≡ range a b 1 end
    → a ≤ b
    → set_range fuel a b 1 m ≡ some t
    → set_entries fuel (p ∷ ps) endptr m ≡ set_entries fuel ps end t
unfolding set_entries
set_entries_step fuel a b p end endptr ps m t e le r = ground arith

set_entries-joined :
    (fuel : ℕ) (a b : ℕ) (ps : List (ℕ × ℕ)) (endptr : Bytes) (m : CpuSet)
    → cpu_setsize ≤ fuel
    → All (IsPiece cpu_setsize) ((a, b) ∷ ps)
    → (t : CpuSet) × (set_entries fuel (entries (joined ((a, b) ∷ ps))) endptr m ≡ some (t, true))
      × ((j : ℕ) → cpu_isset j t ≡ (covers ((a, b) ∷ ps) j || cpu_isset j m))
unfolding set_entries
set_entries-joined fuel a b [] endptr m enough ((le, lt), hs) =
    let (t, e, is) = set_range-adds fuel a b m (omega arith) lt (omega arith) in
    (
      t,
      ap (λ l. set_entries fuel l endptr m) (entries-joined (a, b) [])
          ∙ set_entries_step fuel a b (joined ((a, b) ∷ [])) [] endptr [] m t
              (parse_entry-joined a b [] (le, lt)) le e,
      λ j. is j ∙ ground arith,
    )
set_entries-joined fuel a b ((c, d) ∷ ps) endptr m enough ((le, lt), hs) =
    let (t, e, is) = set_range-adds fuel a b m (omega arith) lt (omega arith) in
    let (u, f, is') = set_entries-joined fuel c d ps (behind_text ((c, d) ∷ ps)) t enough hs in
    (
      u,
      ap (λ l. set_entries fuel l endptr m) (entries-joined (a, b) ((c, d) ∷ ps))
          ∙ set_entries_step fuel a b (joined ((a, b) ∷ (c, d) ∷ ps)) (behind_text ((c, d) ∷ ps))
              endptr (entries (joined ((c, d) ∷ ps))) m t
              (parse_entry-joined a b ((c, d) ∷ ps) (le, lt)) le e
          ∙ f,
      λ j. is' j ∙ ground (arith, is j),
    )

cstr_to_cpuset-entries :
    (fuel : ℕ) (s t : Bytes) (c : ℕ)
    → s ≡ c ∷ t
    → cstr_to_cpuset fuel s ≡ set_entries fuel (entries s) [] cpu_zero
unfolding cstr_to_cpuset
cstr_to_cpuset-entries fuel s t c e = rw e refl

joined_cons :
    (p : ℕ × ℕ) (ps : List (ℕ × ℕ))
    → IsPiece cpu_setsize p
    → (c : ℕ) × (t : Bytes) × (joined (p ∷ ps) ≡ c ∷ t)
joined_cons (a, b) ps (le, lt) =
    let f = digits-IsFront (suc a) a (omega arith) in
    elim (Bool-cases (a == b)) [
      | inl same ↦
          (f.first, f.others ++ behind_text ps, rw same (ap (λ l. l ++ behind_text ps) f.shape))
      | inr other ↦ (
        f.first,
        (f.others ++ (b'-' ∷ decimal b)) ++ behind_text ps,
        rw other (ap (λ l. (l ++ (b'-' ∷ decimal b)) ++ behind_text ps) f.shape),
      )
    ]

read_pieces :
    (fuel : ℕ) (ps : List (ℕ × ℕ))
    → cpu_setsize ≤ fuel
    → All (IsPiece cpu_setsize) ps
    → (t : CpuSet) × (cstr_to_cpuset fuel (joined ps) ≡ some (t, true))
      × ((j : ℕ) → cpu_isset j t ≡ covers ps j)
unfolding cstr_to_cpuset cpu_isset
read_pieces fuel [] enough hs = (cpu_zero, refl, λ j. ground arith)
read_pieces fuel ((a, b) ∷ ps) enough hs =
    let (t, e, is) = set_entries-joined fuel a b ps [] cpu_zero enough hs in
    let (c, rest, shape) = joined_cons (a, b) ps hs.0 in
    (
      t,
      cstr_to_cpuset-entries fuel (joined ((a, b) ∷ ps)) rest c shape ∙ e,
      λ j. is j ∙ ground arith,
    )

-- Every set of CPUs is read back from the list that `cpuset_to_cstr` prints of it: `cstr_to_cpuset`
-- accepts the list, with as many rounds for a range as there can be CPUs, and the set it returns has
-- the same CPUs.
pub cstr_to_cpuset-cpuset_to_cstr :
    (fuel : ℕ) (mask : CpuSet)
    → cpu_setsize ≤ fuel
    → (t : CpuSet) × (cstr_to_cpuset fuel (cpuset_to_cstr mask) ≡ some (t, true))
      × ((j : ℕ) → cpu_isset j t ≡ cpu_isset j mask)
cstr_to_cpuset-cpuset_to_cstr fuel mask enough =
    let (t, e, is) =
      read_pieces fuel (all_pieces mask) enough
        (pieces-IsPiece mask 0 cpu_setsize 0 cpu_setsize refl) in
    (t, ap (cstr_to_cpuset fuel) (cpuset_to_cstr-joined mask) ∙ e, λ j. is j ∙ covers-all mask j)
