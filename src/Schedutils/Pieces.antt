-- ===== src/Schedutils/Pieces.antt =====
-- The list that `cpuset_to_cstr` prints as a list of ranges (lua/lua-schedutils/cpuset-str.c).
use mathlib.Core.List.{append_assoc}
use slurm_spank_plugins.Base.{
  ℕ, zero, suc, ◌+◌, ◌<◌, ◌==◌, false, if◌then◌else◌, ◌≡◌, ◌∙◌, sym, ap, refl, arith, List, [], ◌∷◌,
  ◌++◌, Bytes, Bool-cases, inl, inr,
}
use slurm_spank_plugins.Text.Decimal.{decimal}
use slurm_spank_plugins.Affinity.Cpus.{CpuSet, cpu_isset}
use slurm_spank_plugins.Schedutils.Cstr.{run_from, entry, print_from}

-- The ranges behind one entry, and behind all.
unfoldable pub entry_pieces : ℕ → ℕ → List (ℕ × ℕ)
entry_pieces i zero = (i, i) ∷ []
entry_pieces i (suc zero) = (i, i) ∷ (i + 1, i + 1) ∷ []
entry_pieces i (suc (suc run)) = (i, i + suc (suc run)) ∷ []

unfoldable pub pieces : CpuSet → ℕ → ℕ → ℕ → List (ℕ × ℕ)
pieces mask i zero skip = []
pieces mask i (suc left) (suc skip) = pieces mask (suc i) left skip
pieces mask i (suc left) zero =
    let run = run_from mask (suc i) left in
    let behind = pieces mask (suc i) left run in
    let next = pieces mask (suc i) left 0 in
    if cpu_isset i mask then entry_pieces i run ++ behind else next

abbrev pub piece_text : ℕ × ℕ → Bytes
piece_text (a, b) = if a == b then decimal a else decimal a ++ (b'-' ∷ decimal b)

-- The ranges with a comma behind each, and with commas between them.
abbrev pub with_commas : List (ℕ × ℕ) → Bytes
with_commas [] = []
with_commas (p ∷ ps) = piece_text p ++ (b',' ∷ with_commas ps)

abbrev pub behind_text : List (ℕ × ℕ) → Bytes
behind_text [] = []
behind_text (p ∷ ps) = b',' ∷ (piece_text p ++ behind_text ps)

abbrev pub joined : List (ℕ × ℕ) → Bytes
joined [] = []
joined (p ∷ ps) = piece_text p ++ behind_text ps

with_commas-append :
    (ps qs : List (ℕ × ℕ)) → with_commas (ps ++ qs) ≡ with_commas ps ++ with_commas qs
with_commas-append [] qs = refl
with_commas-append (p ∷ ps) qs =
    ap (λ t. piece_text p ++ (b',' ∷ t)) (with_commas-append ps qs)
    ∙ sym (append_assoc (piece_text p) (b',' ∷ with_commas ps) (with_commas qs))

pub single_text : (a : ℕ) → piece_text (a, a) ≡ decimal a
single_text a = ground arith

pub range_text : (a b : ℕ) → a < b → piece_text (a, b) ≡ decimal a ++ (b'-' ∷ decimal b)
range_text a b h = let ne : a == b ≡ false = ground arith in rw ne refl

entry_text : (i run : ℕ) → entry i run ≡ with_commas (entry_pieces i run)
unfolding entry entry_pieces
entry_text i zero = ap (λ t. t ++ (b',' ∷ [])) (sym (single_text i))
entry_text i (suc zero) = rw (single_text i, single_text (i + 1)) refl
entry_text i (suc (suc run)) =
    rw (range_text i (i + suc (suc run)) (omega arith))
      (sym (append_assoc (decimal i) (b'-' ∷ decimal (i + suc (suc run))) (b',' ∷ [])))

pub print_from-pieces :
    (mask : CpuSet) (i left skip : ℕ)
    → print_from mask i left skip ≡ with_commas (pieces mask i left skip)
unfolding print_from pieces
print_from-pieces mask i zero skip = refl
print_from-pieces mask i (suc left) (suc skip) = print_from-pieces mask (suc i) left skip
print_from-pieces mask i (suc left) zero = elim (Bool-cases (cpu_isset i mask)) [
  | inr clear ↦ rw clear (print_from-pieces mask (suc i) left 0)
  | inl set ↦
      let run : ℕ = run_from mask (suc i) left in
      rw (set, entry_text i run, print_from-pieces mask (suc i) left run)
        (sym (with_commas-append (entry_pieces i run) (pieces mask (suc i) left run)))
]
