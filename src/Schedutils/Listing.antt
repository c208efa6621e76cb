-- ===== src/Schedutils/Listing.antt =====
-- The CPUs of a set one after the other (lua/lua-schedutils/lua-schedutils.c): the table of `expand`,
-- the iterator, and the numbers that `count`, `first` and `last` return.
use slurm_spank_plugins.Base.{
  ℕ, zero, suc, ◌+◌, ◌-◌, ◌<◌, ◌≤◌, ◌==◌, Bool, true, false, ◌&&◌, ◌||◌, ltb, leb, if◌then◌else◌,
  ◌≡◌, ◌∙◌, sym, ap, refl, arith, Option, none, some, List, [], ◌∷◌, Bool-cases, inl, inr, ◌⊎◌,
  length,
}
use slurm_spank_plugins.Affinity.Cpus.{CpuSet, cpu_setsize, cpu_isset}
use slurm_spank_plugins.Schedutils.Ops.{
  next_set, l_cpu_set_first, last_below, l_cpu_set_last, Called, failed, skipped, value, element,
  push_entry, expand_from, l_cpu_set_expand, count_from, l_cpu_set_count, iterate,
}

abbrev pub member : ℕ → List ℕ → Bool
member j [] = false
member j (x ∷ xs) = x == j || member j xs

abbrev pub AscendsFrom : ℕ → List ℕ → Type 0
AscendsFrom i [] = Unit
AscendsFrom i (x ∷ xs) = (i ≤ x) × AscendsFrom (suc x) xs

abbrev pub head : List ℕ → Option ℕ
head [] = none
head (x ∷ xs) = some x

abbrev pub last_or : Option ℕ → List ℕ → Option ℕ
last_or before [] = before
last_or before (x ∷ xs) = last_or (some x) xs

-- The CPUs of a set from `i` on, in order.
unfoldable cpus_from : CpuSet → ℕ → ℕ → List ℕ
cpus_from s i zero = []
cpus_from s i (suc left) =
    let rest = cpus_from s (suc i) left in if cpu_isset i s then i ∷ rest else rest

-- The results of a function for the CPUs of a list, in order, without those that are nil or false;
-- nothing where one of the calls fails.
abbrev keep : {V : Type 0} → Called V → Option (List V) → Option (List V)
keep failed r = none
keep skipped r = r
keep (value v) r = elim r [ none ↦ none | some l ↦ some (v ∷ l) ]

abbrev pub kept : {V : Type 0} → (ℕ → Called V) → List ℕ → Option (List V)
kept f [] = some []
kept f (x ∷ xs) = keep (f x) (kept f xs)

abbrev pub map : {V : Type 0} → (ℕ → V) → List ℕ → List V
map g [] = []
map g (x ∷ xs) = g x ∷ map g xs

AscendsFrom-weaken : (i k : ℕ) (l : List ℕ) → i ≤ k → AscendsFrom k l → AscendsFrom i l
AscendsFrom-weaken i k [] h a = tt
AscendsFrom-weaken i k (x ∷ xs) h (le, rest) = (omega arith, rest)

cpus_from-Ascends : (s : CpuSet) (i left : ℕ) → AscendsFrom i (cpus_from s i left)
unfolding cpus_from
cpus_from-Ascends s i zero = tt
cpus_from-Ascends s i (suc left) = elim (Bool-cases (cpu_isset i s)) [
  | inl set ↦ rw set (omega arith, cpus_from-Ascends s (suc i) left)
  | inr clear ↦ rw clear (
      AscendsFrom-weaken i (suc i) (cpus_from s (suc i) left) (omega arith)
        (cpus_from-Ascends s (suc i) left))
]

member-cpus_from :
    (s : CpuSet) (i left j : ℕ)
    → member j (cpus_from s i left) ≡ (leb i j && (ltb j (i + left) && cpu_isset j s))
unfolding cpus_from
member-cpus_from s i zero j = ground arith
member-cpus_from s i (suc left) j =
    let ih = member-cpus_from s (suc i) left j in
    elim (Bool-cases (i == j)) [
      | inl same ↦
          let e : i ≡ j = ground arith in
          let here : cpu_isset i s ≡ cpu_isset j s = ap (λ k. cpu_isset k s) e in ground (arith, ih)
      | inr apart ↦ ground (arith, ih)
    ]

count_from-length :
    (s : CpuSet) (i left n : ℕ) → count_from s i left n ≡ n + length (cpus_from s i left)
unfolding count_from cpus_from
count_from-length s i zero n = omega arith
count_from-length s i (suc left) n = elim (Bool-cases (cpu_isset i s)) [
  | inl set ↦ rw set (count_from-length s (suc i) left (suc n) ∙ omega arith)
  | inr clear ↦ rw clear (count_from-length s (suc i) left n)
]

next_set-head : (s : CpuSet) (i left : ℕ) → next_set s i left ≡ head (cpus_from s i left)
unfolding next_set cpus_from
next_set-head s i zero = refl
next_set-head s i (suc left) = ground (arith, next_set-head s (suc i) left)

cpus_from_end :
    (s : CpuSet) (i left end : ℕ)
    → i + left ≡ end
    → (b : Option ℕ)
    → last_or b (cpus_from s i (suc left))
      ≡ (if cpu_isset end s then some end else last_or b (cpus_from s i left))
unfolding cpus_from
cpus_from_end s i zero end e b =
    let same : i ≡ end = omega arith in
    let here : cpu_isset i s ≡ cpu_isset end s = ap (λ k. cpu_isset k s) same in
    ground (arith, same)
cpus_from_end s i (suc left) end e b = elim (Bool-cases (cpu_isset i s)) [
  | inl set ↦ rw set (cpus_from_end s (suc i) left end (omega arith) (some i))
  | inr clear ↦ rw clear (cpus_from_end s (suc i) left end (omega arith) b)
]

last_below-last : (s : CpuSet) (n : ℕ) → last_below s n ≡ last_or none (cpus_from s 0 n)
unfolding last_below cpus_from
last_below-last s zero = refl
last_below-last s (suc n) =
    ap (λ r. if cpu_isset n s then some n else r) (last_below-last s n)
    ∙ sym (cpus_from_end s 0 n n (omega arith) none)

cpus_from_next :
    (s : CpuSet) (i left end : ℕ)
    → i + left ≡ end
    → ((next_set s i left ≡ none) × (cpus_from s i left ≡ []))
      ⊎ ((c : ℕ) × (rest : ℕ) × (suc c + rest ≡ end)
          × (rest < left)
          × (next_set s i left ≡ some c)
          × (cpus_from s i left ≡ c ∷ cpus_from s (suc c) rest))
unfolding next_set cpus_from
cpus_from_next s i zero end e = inl (refl, refl)
cpus_from_next s i (suc left) end e = elim (Bool-cases (cpu_isset i s)) [
  | inl set ↦ inr (i, left, omega arith, omega arith, rw set refl, rw set refl)
  | inr clear ↦ elim (cpus_from_next s (suc i) left end (omega arith)) [
    | inl (n, x) ↦ inl (rw clear n, rw clear x)
    | inr (c, rest, f, lt, n, x) ↦ inr (c, rest, f, omega arith, rw clear n, rw clear x)
  ]
]

iterate_end :
    (calls : ℕ) (s : CpuSet) (i left : ℕ)
    → cpu_setsize - i ≡ left
    → next_set s i left ≡ none
    → iterate calls s i ≡ []
unfolding iterate
iterate_end zero s i left e n = refl
iterate_end (suc calls) s i left e n =
    let m : next_set s i (cpu_setsize - i) ≡ none = ap (next_set s i) e ∙ n in ground arith

iterate_step :
    (calls : ℕ) (s : CpuSet) (i left c : ℕ)
    → cpu_setsize - i ≡ left
    → next_set s i left ≡ some c
    → iterate (suc calls) s i ≡ c ∷ iterate calls s (suc c)
unfolding iterate
iterate_step calls s i left c e n =
    let m : next_set s i (cpu_setsize - i) ≡ some c = ap (next_set s i) e ∙ n in ground arith

iterate-expand :
    (calls : ℕ) (s : CpuSet) (i left : ℕ)
    → i + left ≡ cpu_setsize
    → left ≤ calls
    → iterate calls s i ≡ cpus_from s i left
iterate-expand zero s i left e h = elim (cpus_from_next s i left cpu_setsize e) [
  | inl (n, x) ↦ iterate_end zero s i left (omega arith) n ∙ sym x
  | inr (c, rest, f, lt, n, x) ↦ absurd (omega arith)
]
iterate-expand (suc calls) s i left e h = elim (cpus_from_next s i left cpu_setsize e) [
  | inl (n, x) ↦ iterate_end (suc calls) s i left (omega arith) n ∙ sym x
  | inr (c, rest, f, lt, n, x) ↦
      iterate_step calls s i left c (omega arith) n
      ∙ ap (λ l. c ∷ l) (iterate-expand calls s (suc c) rest f (omega arith))
      ∙ sym x
]

cpus_from-zero : (s : CpuSet) (i : ℕ) → cpus_from s i zero ≡ []
unfolding cpus_from
cpus_from-zero s i = refl

cpus_from_set :
    (s : CpuSet) (i left : ℕ)
    → cpu_isset i s ≡ true
    → cpus_from s i (suc left) ≡ i ∷ cpus_from s (suc i) left
unfolding cpus_from
cpus_from_set s i left set = rw set refl

cpus_from_clear :
    (s : CpuSet) (i left : ℕ)
    → cpu_isset i s ≡ false
    → cpus_from s i (suc left) ≡ cpus_from s (suc i) left
unfolding cpus_from
cpus_from_clear s i left clear = rw clear refl

push_entry-keep : {V : Type 0} (c : Called V) (r : Option (List V)) → push_entry c r ≡ keep c r
unfolding push_entry
push_entry-keep failed r = refl
push_entry-keep skipped r = refl
push_entry-keep (value v) none = refl
push_entry-keep (value v) (some l) = refl

expand_from-kept :
    {V : Type 0} (number : ℕ → V) (fn : Option (ℕ → Called V)) (s : CpuSet) (i left : ℕ)
    → expand_from number fn s i left ≡ kept (element number fn) (cpus_from s i left)
unfolding expand_from
expand_from-kept number fn s i zero = rw (cpus_from-zero s i) refl
expand_from-kept number fn s i (suc left) =
    let ih = expand_from-kept number fn s (suc i) left in
    elim (Bool-cases (cpu_isset i s)) [
      | inl set ↦ rw (set, cpus_from_set s i left set, ih) (push_entry-keep (element number fn i) _)
      | inr clear ↦ rw (clear, cpus_from_clear s i left clear) ih
    ]

kept-map :
    {V : Type 0} (number : ℕ → V) (l : List ℕ) → kept (element number none) l ≡ some (map number l)
unfolding element
kept-map number [] = refl
kept-map number (x ∷ xs) = rw (kept-map number xs) refl

kept-element :
    {V : Type 0} (number : ℕ → V) (f : ℕ → Called V) (l : List ℕ)
    → kept (element number (some f)) l ≡ kept f l
unfolding element
kept-element number f l = refl

-- There is one list of the set's CPUs, and of no others, in ascending order. Without a function the
-- table of `expand` has these numbers; with one, it has the function's results for them in that order,
-- without nil and false, and there is an error and no table if a call fails. The iterator gives the same
-- CPUs in as many calls as there can be CPUs; and `count`, `first` and `last` return the list's length,
-- its first and its last entry.
pub l_cpu_set_expand_correct :
    {V : Type 0} (number : ℕ → V) (s : CpuSet)
    → (l : List ℕ) × AscendsFrom 0 l
      × ((j : ℕ) → member j l ≡ cpu_isset j s)
      × (l_cpu_set_expand number none s ≡ some (map number l))
      × ((f : ℕ → Called V) → l_cpu_set_expand number (some f) s ≡ kept f l)
      × (iterate cpu_setsize s 0 ≡ l)
      × (l_cpu_set_count s ≡ length l)
      × (l_cpu_set_first s ≡ head l)
      × (l_cpu_set_last s ≡ last_or none l)
unfolding l_cpu_set_expand l_cpu_set_count l_cpu_set_first l_cpu_set_last cpu_isset
l_cpu_set_expand_correct number s =
    let l = cpus_from s 0 cpu_setsize in
    (
      l,
      cpus_from-Ascends s 0 cpu_setsize,
      λ j. member-cpus_from s 0 cpu_setsize j ∙ ground arith,
      expand_from-kept number none s 0 cpu_setsize ∙ kept-map number l,
      λ f. expand_from-kept number (some f) s 0 cpu_setsize ∙ kept-element number f l,
      iterate-expand cpu_setsize s 0 cpu_setsize refl (omega arith),
      count_from-length s 0 cpu_setsize 0 ∙ omega arith,
      next_set-head s 0 cpu_setsize,
      last_below-last s cpu_setsize,
    )
