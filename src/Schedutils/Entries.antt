-- ===== src/Schedutils/Entries.antt =====
-- What `cstr_to_cpuset` reads of a printed list (lua/lua-schedutils/cpuset-str.c).
use mathlib.Core.List.{append_assoc}
use slurm_spank_plugins.Base.{
  ℕ, suc, ◌<◌, ◌==◌, true, false, ◌≡◌, ◌∙◌, ap, refl, arith, Option, none, some, Option-cases, List,
  [], ◌∷◌, ◌++◌, Bytes, Bool-cases, inl, inr, All, length, length-append,
}
use slurm_spank_plugins.Text.{is_digit}
use slurm_spank_plugins.Text.Decimal.{
  decimal, strtoul, EndsNumber, digits-AreDigits, digits-IsFront, strtoul-decimal, All-append,
}
use slurm_spank_plugins.Affinity.Cpus.{cpu_setsize}
use slurm_spank_plugins.Affinity.Cstr.{nexttoken, before, entries, entries_after}
use slurm_spank_plugins.Schedutils.Cstr.{
  range, unread, leading_zero, parse_stride, parse_end, parse_entry,
}
use slurm_spank_plugins.Schedutils.Pieces.{piece_text, behind_text, joined}
use slurm_spank_plugins.Schedutils.Cover.{IsPiece}

abbrev pub IsNot : ℕ → ℕ → Type 0
IsNot sep c = c == sep ≡ false

nexttoken_skips :
    (sep : ℕ) (s rest : Bytes) → All (IsNot sep) s → nexttoken (s ++ rest) sep ≡ nexttoken rest sep
unfolding nexttoken
nexttoken_skips sep [] rest h = refl
nexttoken_skips sep (c ∷ s) rest (h, hs) = rw h (nexttoken_skips sep s rest hs)

nexttoken-none : (sep : ℕ) (s : Bytes) → All (IsNot sep) s → nexttoken s sep ≡ none
unfolding nexttoken
nexttoken-none sep [] h = refl
nexttoken-none sep (c ∷ s) (h, hs) = rw h (nexttoken-none sep s hs)

nexttoken_here : (sep : ℕ) (s : Bytes) → nexttoken (sep ∷ s) sep ≡ some s
unfolding nexttoken
nexttoken_here sep s = ground arith

nexttoken_shorter : (sep : ℕ) (s t : Bytes) → nexttoken s sep ≡ some t → length t < length s
unfolding nexttoken
nexttoken_shorter sep [] t e = absurd (ground arith)
nexttoken_shorter sep (c ∷ s) t e = ground (arith, nexttoken_shorter sep s t)

entries_after_skips :
    (s rest : Bytes) → All (IsNot b',') s → entries_after (s ++ rest) ≡ entries_after rest
unfolding entries_after
entries_after_skips [] rest h = refl
entries_after_skips (c ∷ s) rest (h, hs) = rw h (entries_after_skips s rest hs)

entries_after_comma : (s : Bytes) → entries_after (b',' ∷ s) ≡ s ∷ entries_after s
unfolding entries_after
entries_after_comma s = refl

digit-IsNot :
    (sep : ℕ)
    → is_digit sep ≡ false
    → (s : Bytes) → All (λ c. is_digit c ≡ true) s
    → All (IsNot sep) s
digit-IsNot sep h [] d = tt
digit-IsNot sep h (c ∷ s) (d, ds) = (ground arith, digit-IsNot sep h s ds)

decimal-IsNot : (sep n : ℕ) → is_digit sep ≡ false → All (IsNot sep) (decimal n)
decimal-IsNot sep n h = digit-IsNot sep h (decimal n) (digits-AreDigits (suc n) n)

piece-IsNot :
    (sep : ℕ) (p : ℕ × ℕ)
    → is_digit sep ≡ false
    → b'-' == sep ≡ false
    → All (IsNot sep) (piece_text p)
piece-IsNot sep (a, b) h k = elim (Bool-cases (a == b)) [
  | inl same ↦ rw same (decimal-IsNot sep a h)
  | inr other ↦ rw other (
      All-append (IsNot sep) (decimal a) (b'-' ∷ decimal b) (decimal-IsNot sep a h)
        (k, decimal-IsNot sep b h))
]

behind_no_colon : (ps : List (ℕ × ℕ)) → All (IsNot b':') (behind_text ps)
behind_no_colon [] = tt
behind_no_colon (p ∷ ps) = (
  refl,
  All-append (IsNot b':') (piece_text p) (behind_text ps) (piece-IsNot b':' p refl refl)
      (behind_no_colon ps),
)

behind_ends : (ps : List (ℕ × ℕ)) → EndsNumber (behind_text ps)
behind_ends [] = tt
behind_ends (p ∷ ps) = refl

entries_behind :
    (ps : List (ℕ × ℕ))
    → entries_after (behind_text ps) ≡ elim ps [ [] ↦ [] | q ∷ qs ↦ entries (joined (q ∷ qs)) ]
unfolding entries_after
entries_behind [] = refl
entries_behind (q ∷ qs) = refl

-- The entries of a printed list: itself, and those of the rest.
pub entries-joined :
    (p : ℕ × ℕ) (ps : List (ℕ × ℕ))
    → entries (joined (p ∷ ps))
      ≡ joined (p ∷ ps) ∷ elim ps [ [] ↦ [] | q ∷ qs ↦ entries (joined (q ∷ qs)) ]
entries-joined p ps =
    ap (λ l. joined (p ∷ ps) ∷ l)
      (entries_after_skips (piece_text p) (behind_text ps) (piece-IsNot b',' p refl refl)
        ∙ entries_behind ps)

-- A minus sign behind a comma belongs to another entry.
no_minus :
    (ps : List (ℕ × ℕ))
    → before (nexttoken (behind_text ps) b'-') (nexttoken (behind_text ps) b',') ≡ none
unfolding before nexttoken
no_minus [] = refl
no_minus (p ∷ ps) = elim (Option-cases (nexttoken (piece_text p ++ behind_text ps) b'-')) [
  | inl e ↦ rw e refl
  | inr (t, e) ↦
      let shorter = nexttoken_shorter b'-' (piece_text p ++ behind_text ps) t e in
      rw e (ground arith)
]

-- A number at the front of a text.
record Reads (p : Bytes) (a : ℕ) (r : Bytes) : Type 0 where
  value : strtoul p ≡ (a, r)
  moved : unread r p ≡ false
  plain : leading_zero a p ≡ false

leading_zero_lem :
    (a : ℕ) (c : ℕ) (others r : Bytes)
    → EndsNumber r
    → (0 < a → b'0' < c)
    → (a ≡ 0 → others ≡ [])
    → leading_zero a (c ∷ (others ++ r)) ≡ false
unfolding leading_zero
leading_zero_lem a c [] [] end pos zero_only = ground (arith, pos)
leading_zero_lem a c [] (d ∷ r) end pos zero_only = ground (arith, pos)
leading_zero_lem a c (d ∷ others) r end pos zero_only = ground (arith, pos, zero_only)

decimal-Reads : (a : ℕ) (r : Bytes) → a < cpu_setsize → EndsNumber r → Reads (decimal a ++ r) a r
decimal-Reads a r small end =
    let f = digits-IsFront (suc a) a (omega arith) in
    let same : decimal a ++ r ≡ f.first ∷ (f.others ++ r) = ap (λ l. l ++ r) f.shape in
    let size = length-append f.others r in
    record {
      value = strtoul-decimal a r (omega arith) end;
      moved = rw same (ground arith);
      plain = rw same (leading_zero_lem a f.first f.others r end f.significant f.alone);
    }

before-some :
    (t : Bytes) (c2 : Option Bytes)
    → ((u : Bytes) → c2 ≡ some u → length u < length t)
    → before (some t) c2 ≡ some t
unfolding before
before-some t none h = refl
before-some t (some u) h = let lt = h u refl in ground arith

parse_single :
    (p : Bytes) (a : ℕ) (r : Bytes)
    → Reads p a r
    → a < cpu_setsize
    → before (nexttoken p b'-') (nexttoken p b',') ≡ none
    → parse_entry p ≡ range a a 1 r
unfolding parse_entry
parse_single p a r read small alone =
    let v = read.value in let m = read.moved in let l = read.plain in ground arith

parse_range :
    (p : Bytes) (a b : ℕ) (r c1 end : Bytes)
    → Reads p a r
    → a < cpu_setsize
    → Reads c1 b end
    → b < cpu_setsize
    → length r ≡ suc (length c1)
    → before (nexttoken p b'-') (nexttoken p b',') ≡ some c1
    → nexttoken c1 b':' ≡ none
    → parse_entry p ≡ range a b 1 end
unfolding parse_entry parse_end parse_stride before
parse_range p a b r c1 end read small read' small' size there none_left =
    let v = read.value in
    let m = read.moved in
    let l = read.plain in let v' = read'.value in let m' = read'.moved in ground arith

-- Each entry of a printed list is read as its range.
pub parse_entry-joined :
    (a b : ℕ) (ps : List (ℕ × ℕ))
    → IsPiece cpu_setsize (a, b)
    → parse_entry (joined ((a, b) ∷ ps)) ≡ range a b 1 (behind_text ps)
parse_entry-joined a b ps (le, lt) = elim (Bool-cases (a == b)) [
  | inl same ↦
      let e : a ≡ b = ground arith in
      let text : piece_text (a, b) ≡ decimal a = rw same refl in
      rw text (
        parse_single (decimal a ++ behind_text ps) a (behind_text ps)
          (decimal-Reads a (behind_text ps) (omega arith) (behind_ends ps)) (omega arith)
          (rw
            (
              nexttoken_skips b'-' (decimal a) (behind_text ps) (decimal-IsNot b'-' a refl),
              nexttoken_skips b',' (decimal a) (behind_text ps) (decimal-IsNot b',' a refl),
            )
            (no_minus ps))
        ∙ ap (λ n. range a n 1 (behind_text ps)) e)
  | inr other ↦
      let c1 : Bytes = decimal b ++ behind_text ps in
      let text : piece_text (a, b) ++ behind_text ps ≡ decimal a ++ (b'-' ∷ c1) =
        rw other (append_assoc (decimal a) (b'-' ∷ decimal b) (behind_text ps)) in
      let minus : nexttoken (decimal a ++ (b'-' ∷ c1)) b'-' ≡ some c1 =
        nexttoken_skips b'-' (decimal a) (b'-' ∷ c1) (decimal-IsNot b'-' a refl)
        ∙ nexttoken_here b'-' c1 in
      let comma : nexttoken (decimal a ++ (b'-' ∷ c1)) b',' ≡ nexttoken (behind_text ps) b',' =
        nexttoken_skips b',' (decimal a) (b'-' ∷ c1) (decimal-IsNot b',' a refl)
        ∙ nexttoken_skips b',' (b'-' ∷ decimal b) (behind_text ps)
            (refl, decimal-IsNot b',' b refl) in
      let size = length-append (decimal b) (behind_text ps) in
      rw text (
        parse_range (decimal a ++ (b'-' ∷ c1)) a b (b'-' ∷ c1) c1 (behind_text ps)
          (decimal-Reads a (b'-' ∷ c1) (omega arith) refl) (omega arith)
          (decimal-Reads b (behind_text ps) lt (behind_ends ps)) lt refl
          (rw (minus, comma)
            (before-some c1 (nexttoken (behind_text ps) b',')
              (λ u e. let s = nexttoken_shorter b',' (behind_text ps) u e in omega arith)))
          (nexttoken-none b':' c1 (
            All-append (IsNot b':') (decimal b) (behind_text ps) (decimal-IsNot b':' b refl)
              (behind_no_colon ps))))
]
