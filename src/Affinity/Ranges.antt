-- ===== src/Affinity/Ranges.antt =====
-- What a list of CPUs names (auto-affinity.c).
use slurm_spank_plugins.Base.{
  ℕ, zero, suc, ◌+◌, ◌-◌, ◌*◌, ◌/◌, ◌%◌, ◌^◌, ◌<◌, ◌≤◌, true, false, ◌&&◌, ltb, leb, ◌≡◌, ap, refl,
  arith, Option, none, some, List, [], ◌∷◌, ◌++◌, Bytes, length, get_elem?,
}
use slurm_spank_plugins.Affinity.Cstr.{
  no_start, no_end, range, parse_entry, count_range, found, passed, seek_range,
}

-- `k` CPUs from `a` on, `s` apart.
abbrev pub spaced : ℕ → ℕ → ℕ → List ℕ
spaced zero a s = []
spaced (suc k) a s = a ∷ spaced k (a + s) s

abbrev pub range_cpus : ℕ → ℕ → ℕ → List ℕ
range_cpus a b s = spaced (suc ((b - a) / s)) a s

-- The CPUs that entries name, if all of them are ranges with a stride that do not wrap around.
abbrev pub named : List Bytes → Option (List ℕ)
named [] = some []
named (p ∷ ps) =
    let rest = named ps in
    elim (parse_entry p) [
      | no_start ↦ none
      | no_end ↦ none
      | range a b s ↦ elim (leb a b && ltb 0 s && ltb (b + s) (2 ^ 32)) [
        | false ↦ none
        | true ↦ elim rest [ none ↦ none | some l ↦ some (range_cpus a b s ++ l) ]
      ]
    ]

-- `k` CPUs are just those of the range.
abbrev pub Fits : ℕ → ℕ → ℕ → ℕ → Type 0
Fits zero a b s = b < a
Fits (suc k) a b s = (a ≤ b) × Fits k (a + s) b s

Fits-from : (k a b s : ℕ) → 0 < s → a + k * s ≤ b → b < a + k * s + s → Fits (suc k) a b s
Fits-from zero a b s h lo hi = (omega arith, grind arith)
Fits-from (suc k) a b s h lo hi =
    (grind arith, Fits-from k (a + s) b s h (grind arith) (grind arith))

pub range-Fits : (a b s : ℕ) → 0 < s → a ≤ b → Fits (suc ((b - a) / s)) a b s
range-Fits a b s h le = Fits-from ((b - a) / s) a b s h (grind arith) (grind arith)

pub length-spaced : (k a s : ℕ) → length (spaced k a s) ≡ k
length-spaced zero a s = refl
length-spaced (suc k) a s = ap suc (length-spaced k (a + s) s)

pub count_range_lem :
    (fuel k a b s count : ℕ)
    → Fits k a b s
    → b + s < 2 ^ 32
    → k ≤ fuel
    → count + k < 2 ^ 31
    → count_range fuel a b s count ≡ some (count + k)
unfolding count_range
count_range_lem zero zero a b s count f w le int = ground arith
count_range_lem zero (suc k) a b s count f w le int = absurd (omega arith)
count_range_lem (suc fuel) zero a b s count f w le int = ground arith
count_range_lem (suc fuel) (suc k) a b s count (h, f) w le int =
    let small : (a + s) % 2 ^ 32 ≡ a + s = omega arith in
    ground (arith, count_range_lem fuel k (a + s) b s (suc count) f w (omega arith) (omega arith))

-- The CPU with an index, or how many the range has.
pub seek_range_passes :
    (fuel k a b s n index : ℕ)
    → Fits k a b s
    → b + s < 2 ^ 32
    → k ≤ fuel
    → index + k ≤ n
    → index + k < 2 ^ 31
    → seek_range fuel a b s n index ≡ some (passed (index + k))
unfolding seek_range
seek_range_passes zero zero a b s n index f w le on int = ground arith
seek_range_passes zero (suc k) a b s n index f w le on int = absurd (omega arith)
seek_range_passes (suc fuel) zero a b s n index f w le on int = ground arith
seek_range_passes (suc fuel) (suc k) a b s n index (h, f) w le on int =
    let small : (a + s) % 2 ^ 32 ≡ a + s = omega arith in
    ground (
      arith,
      seek_range_passes fuel k (a + s) b s n (suc index) f w (omega arith) (omega arith)
          (omega arith),
    )

pub seek_range_finds :
    (fuel k a b s i index : ℕ)
    → Fits k a b s
    → b + s < 2 ^ 32
    → k ≤ fuel
    → i < k
    → index + k < 2 ^ 31
    → (cpu : ℕ) × (get_elem? (spaced k a s) i ≡ some cpu)
      × (seek_range fuel a b s (index + i) index ≡ some (found cpu))
unfolding seek_range
seek_range_finds zero k a b s i index f w le lt int = absurd (omega arith)
seek_range_finds (suc fuel) zero a b s i index f w le lt int = absurd (omega arith)
seek_range_finds (suc fuel) (suc k) a b s zero index (h, f) w le lt int = (a, refl, ground arith)
seek_range_finds (suc fuel) (suc k) a b s (suc i) index (h, f) w le lt int =
    let small : (a + s) % 2 ^ 32 ≡ a + s = omega arith in
    let (cpu, e, r) =
      seek_range_finds fuel k (a + s) b s i (suc index) f w (omega arith) (omega arith)
        (omega arith) in
    let same : suc index + i ≡ index + suc i = omega arith in
    (cpu, e, ground (arith, ap (λ m. seek_range fuel (a + s) b s m (suc index)) same))
