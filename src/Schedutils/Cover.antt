-- ===== src/Schedutils/Cover.antt =====
-- The ranges that `cpuset_to_cstr` prints are just the CPUs of the set
-- (lua/lua-schedutils/cpuset-str.c).
use slurm_spank_plugins.Base.{
  ℕ, zero, suc, ◌+◌, ◌<◌, ◌≤◌, ◌==◌, Bool, true, false, ◌&&◌, ◌||◌, ltb, leb, ◌≡◌, ◌≢◌, ◌∙◌, sym,
  ap, refl, arith, List, [], ◌∷◌, ◌++◌, Bytes, Bool-cases, inl, inr, All,
}
use slurm_spank_plugins.Affinity.Cpus.{CpuSet, cpu_setsize, cpu_isset}
use slurm_spank_plugins.Schedutils.Cstr.{run_from, drop_last, cpuset_to_cstr}
use slurm_spank_plugins.Schedutils.Pieces.{
  entry_pieces, pieces, piece_text, with_commas, behind_text, joined, print_from-pieces,
}

abbrev pub in_piece : ℕ × ℕ → ℕ → Bool
in_piece (a, b) j = leb a j && leb j b

abbrev pub covers : List (ℕ × ℕ) → ℕ → Bool
covers [] j = false
covers (p ∷ ps) j = in_piece p j || covers ps j

abbrev pub IsPiece : ℕ → ℕ × ℕ → Type 0
IsPiece n (a, b) = (a ≤ b) × (b < n)

run_from-le : (mask : CpuSet) (i left : ℕ) → run_from mask i left ≤ left
unfolding run_from
run_from-le mask i zero = omega arith
run_from-le mask i (suc left) = ground (arith, run_from-le mask (suc i) left)

run_from_set :
    (mask : CpuSet) (i left j : ℕ) → i ≤ j → j < i + run_from mask i left → cpu_isset j mask ≡ true
unfolding run_from
run_from_set mask i zero j lo hi = absurd (omega arith)
run_from_set mask i (suc left) j lo hi = elim (Bool-cases (cpu_isset i mask)) [
  | inr clear ↦ absurd (ground arith)
  | inl set ↦ elim (Bool-cases (i == j)) [
    | inl same ↦ let e : i ≡ j = ground arith in ap (λ k. cpu_isset k mask) (sym e) ∙ set
    | inr other ↦ run_from_set mask (suc i) left j (ground arith) (ground arith)
  ]
]

covers-append : (ps qs : List (ℕ × ℕ)) (j : ℕ) → covers (ps ++ qs) j ≡ covers ps j || covers qs j
covers-append [] qs j = refl
covers-append (p ∷ ps) qs j = ground (arith, covers-append ps qs j)

covers-entry : (i run j : ℕ) → covers (entry_pieces i run) j ≡ leb i j && leb j (i + run)
unfolding entry_pieces
covers-entry i zero j = ground arith
covers-entry i (suc zero) j = ground arith
covers-entry i (suc (suc run)) j = ground arith

-- The CPUs from one on, behind `skip` others and up to an end.
abbrev pub window : CpuSet → ℕ → ℕ → ℕ → ℕ → Bool
window mask i left skip j = leb (i + skip) j && (ltb j (i + left) && cpu_isset j mask)

window_run :
    (mask : CpuSet) (i left j : ℕ)
    → cpu_isset i mask ≡ true
    → (leb i j && leb j (i + run_from mask (suc i) left))
        || window mask (suc i) left (run_from mask (suc i) left) j
      ≡ window mask i (suc left) 0 j
window_run mask i left j set =
    let le = run_from-le mask (suc i) left in
    elim (Bool-cases (leb i j && leb j (i + run_from mask (suc i) left))) [
      | inl inside ↦
          let is : cpu_isset j mask ≡ true = elim (Bool-cases (i == j)) [
            | inl same ↦ let e : i ≡ j = ground arith in ap (λ k. cpu_isset k mask) (sym e) ∙ set
            | inr other ↦ run_from_set mask (suc i) left j (ground arith) (ground arith)
          ] in
          ground (arith, is)
      | inr outside ↦ ground arith
    ]

covers-pieces :
    (mask : CpuSet) (i left skip j : ℕ)
    → skip ≤ left
    → covers (pieces mask i left skip) j ≡ window mask i left skip j
unfolding pieces
covers-pieces mask i zero skip j h = ground arith
covers-pieces mask i (suc left) (suc skip) j h =
    let ih = covers-pieces mask (suc i) left skip j (omega arith) in ih ∙ ground arith
covers-pieces mask i (suc left) zero j h = elim (Bool-cases (cpu_isset i mask)) [
  | inr clear ↦
      let skipped : window mask (suc i) left 0 j ≡ window mask i (suc left) 0 j =
        elim (Bool-cases (i == j)) [
          | inl same ↦
              let e : i ≡ j = ground arith in
              let off : cpu_isset j mask ≡ false = ap (λ k. cpu_isset k mask) (sym e) ∙ clear in
              ground arith
          | inr other ↦ ground arith
        ] in
      rw clear (covers-pieces mask (suc i) left 0 j (omega arith) ∙ skipped)
  | inl set ↦
      let run : ℕ = run_from mask (suc i) left in
      rw
        (
          set,
          covers-append (entry_pieces i run) (pieces mask (suc i) left run) j,
          covers-entry i run j,
          covers-pieces mask (suc i) left run j (run_from-le mask (suc i) left),
        )
        (window_run mask i left j set)
]

All-append : (P : ℕ × ℕ → Type 0) (ps qs : List (ℕ × ℕ)) → All P ps → All P qs → All P (ps ++ qs)
All-append P [] qs h k = k
All-append P (p ∷ ps) qs (h, hs) k = (h, All-append P ps qs hs k)

entry-IsPiece : (i run n : ℕ) → i + run < n → All (IsPiece n) (entry_pieces i run)
unfolding entry_pieces
entry-IsPiece i zero n h = ((omega arith, omega arith), tt)
entry-IsPiece i (suc zero) n h = ((omega arith, omega arith), ((omega arith, omega arith), tt))
entry-IsPiece i (suc (suc run)) n h = ((omega arith, omega arith), tt)

pub pieces-IsPiece :
    (mask : CpuSet) (i left skip n : ℕ) → i + left ≡ n → All (IsPiece n) (pieces mask i left skip)
unfolding pieces
pieces-IsPiece mask i zero skip n e = tt
pieces-IsPiece mask i (suc left) (suc skip) n e =
    pieces-IsPiece mask (suc i) left skip n (omega arith)
pieces-IsPiece mask i (suc left) zero n e = elim (Bool-cases (cpu_isset i mask)) [
  | inr clear ↦ rw clear (pieces-IsPiece mask (suc i) left 0 n (omega arith))
  | inl set ↦
      let run : ℕ = run_from mask (suc i) left in
      let le = run_from-le mask (suc i) left in
      rw set (
        All-append (IsPiece n) (entry_pieces i run) (pieces mask (suc i) left run)
          (entry-IsPiece i run n (omega arith))
          (pieces-IsPiece mask (suc i) left run n (omega arith)))
]

drop_last_cons : (c : ℕ) (s : Bytes) → s ≢ [] → drop_last (c ∷ s) ≡ c ∷ drop_last s
unfolding drop_last
drop_last_cons c [] h = absurd (h refl)
drop_last_cons c (d ∷ s) h = refl

nonempty_end : (s : Bytes) (c : ℕ) (t : Bytes) → s ++ (c ∷ t) ≢ []
nonempty_end [] c t e = cc
nonempty_end (d ∷ s) c t e = cc

drop_last_text : (s : Bytes) (c : ℕ) (t : Bytes) → drop_last (s ++ (c ∷ t)) ≡ s ++ drop_last (c ∷ t)
drop_last_text [] c t = refl
drop_last_text (d ∷ s) c t =
    drop_last_cons d (s ++ (c ∷ t)) (nonempty_end s c t) ∙ ap (λ r. d ∷ r) (drop_last_text s c t)

-- The text behind a comma, with its last comma cut off.
drop_last_behind : (ps : List (ℕ × ℕ)) → drop_last (b',' ∷ with_commas ps) ≡ behind_text ps
unfolding drop_last
drop_last_behind [] = refl
drop_last_behind (p ∷ ps) =
    drop_last_cons b',' (with_commas (p ∷ ps)) (nonempty_end (piece_text p) b',' (with_commas ps))
    ∙ ap (λ r. b',' ∷ r)
        (drop_last_text (piece_text p) b',' (with_commas ps)
          ∙ ap (λ r. piece_text p ++ r) (drop_last_behind ps))

drop_last-joined : (ps : List (ℕ × ℕ)) → drop_last (with_commas ps) ≡ joined ps
unfolding drop_last
drop_last-joined [] = refl
drop_last-joined (p ∷ ps) =
    drop_last_text (piece_text p) b',' (with_commas ps)
    ∙ ap (λ r. piece_text p ++ r) (drop_last_behind ps)

abbrev pub all_pieces : CpuSet → List (ℕ × ℕ)
all_pieces mask = pieces mask 0 cpu_setsize 0

pub cpuset_to_cstr-joined : (mask : CpuSet) → cpuset_to_cstr mask ≡ joined (all_pieces mask)
unfolding cpuset_to_cstr
cpuset_to_cstr-joined mask =
    ap drop_last (print_from-pieces mask 0 cpu_setsize 0) ∙ drop_last-joined (all_pieces mask)

pub covers-all : (mask : CpuSet) (j : ℕ) → covers (all_pieces mask) j ≡ cpu_isset j mask
unfolding cpu_isset
covers-all mask j = covers-pieces mask 0 cpu_setsize 0 j (omega arith) ∙ ground arith
