-- ===== src/Cpuset/Exclusive/Used.antt =====
-- The mask of the CPUs that the cpusets in a directory use (`used_cpus_bitmask_path` of cpuset/util.c).
use slurm_spank_plugins.Base.{
  ℕ, ◌<◌, Bool, true, false, ◌≡◌, ◌∙◌, sym, ap, refl, arith, none, some, Option-cases, List, [],
  ◌∷◌, inl, inr, ◌⊎◌,
}
use slurm_spank_plugins.Cpuset.Bitmask.{BitmaskLib, BitmaskOps}
use slurm_spank_plugins.Cpuset.Tree.{
  Part, slurm, id, orphan, hidden, other, Name, Cset, CpusetLib, Member,
}
use slurm_spank_plugins.Cpuset.Update.{add_used, add_all_used, initial_used, used_cpus_bitmask_path}

-- The names that are not skipped.
abbrev pub IsCounted : Part → Type 0
IsCounted hidden = ⊥
IsCounted (orphan uid) = ⊥
IsCounted slurm = Unit
IsCounted (other s) = Unit
IsCounted (id n) = Unit

module _ {B T : Type 0} (lib : BitmaskLib B) (ops : BitmaskOps lib) (fs : CpusetLib lib T) where
  open lib use {nbits, isbitset, bitmask_alloc, nbits-alloc, isbitset-alloc}
  open ops use {bor, nbits-bor, isbitset-bor, nbits-complement, isbitset-complement}
  open fs use {query, read_names, query-read_names}

  -- A cpuset has a CPU.
  pub record Has (t : T) (n : Name) (i : ℕ) : Type 0 where
    pub cset : Cset B
    pub found : query t n ≡ some cset
    pub bit : isbitset cset.cpus i ≡ true

  bor_sound :
      (b used : B) (i : ℕ)
      → isbitset (bor used b used) i ≡ true
      → (isbitset used i ≡ true) ⊎ (isbitset b i ≡ true)
  bor_sound b used i h = ground (arith, isbitset-bor used b used i)

  add_query_sound :
      (t : T) (p : Name) (x : Part) (used : B) (i : ℕ)
      → isbitset (elim (query t (x ∷ p)) [ none ↦ used | some c ↦ bor used c.cpus used ]) i ≡ true
      → (isbitset used i ≡ true) ⊎ Has t (x ∷ p) i
  add_query_sound t p x used i h = elim (Option-cases (query t (x ∷ p))) [
    | inl e ↦ inl (rw e at h)
    | inr (c, e) ↦ elim (bor_sound c.cpus used i (rw e at h)) [
      | inl old ↦ inl old
      | inr new ↦ inr (record { cset = c; found = e; bit = new })
    ]
  ]

  add_used_sound :
      (t : T) (p : Name) (x : Part) (used : B) (i : ℕ)
      → isbitset (add_used lib ops fs t p x used) i ≡ true
      → (isbitset used i ≡ true) ⊎ (IsCounted x × Has t (x ∷ p) i)
  unfolding add_used
  add_used_sound t p hidden used i h = inl h
  add_used_sound t p (orphan uid) used i h = inl h
  add_used_sound t p slurm used i h = elim (add_query_sound t p slurm used i h) [
    | inl old ↦ inl old
    | inr new ↦ inr (tt, new)
  ]
  add_used_sound t p (other s) used i h = elim (add_query_sound t p (other s) used i h) [
    | inl old ↦ inl old
    | inr new ↦ inr (tt, new)
  ]
  add_used_sound t p (id n) used i h = elim (add_query_sound t p (id n) used i h) [
    | inl old ↦ inl old
    | inr new ↦ inr (tt, new)
  ]

  add_all_used_sound :
      (t : T) (p : Name) (l : List Part) (used : B) (i : ℕ)
      → isbitset (add_all_used lib ops fs t p l used) i ≡ true
      → (isbitset used i ≡ true) ⊎ ((x : Part) × IsCounted x × Has t (x ∷ p) i)
  unfolding add_all_used
  add_all_used_sound t p [] used i h = inl h
  add_all_used_sound t p (x ∷ l) used i h =
      elim (add_all_used_sound t p l (add_used lib ops fs t p x used) i h) [
        | inr later ↦ inr later
        | inl now ↦ elim (add_used_sound t p x used i now) [
          | inl old ↦ inl old
          | inr (c, has) ↦ inr (x, c, has)
        ]
      ]

  nbits-add_query :
      (t : T) (n : Name) (used : B)
      → nbits (elim (query t n) [ none ↦ used | some c ↦ bor used c.cpus used ]) ≡ nbits used
  nbits-add_query t n used = elim (Option-cases (query t n)) [
    | inl e ↦ rw e refl
    | inr (c, e) ↦ rw e (nbits-bor used c.cpus used)
  ]

  nbits-add_used :
      (t : T) (p : Name) (x : Part) (used : B) → nbits (add_used lib ops fs t p x used) ≡ nbits used
  unfolding add_used
  nbits-add_used t p hidden used = refl
  nbits-add_used t p (orphan uid) used = refl
  nbits-add_used t p slurm used = nbits-add_query t (slurm ∷ p) used
  nbits-add_used t p (other s) used = nbits-add_query t (other s ∷ p) used
  nbits-add_used t p (id n) used = nbits-add_query t (id n ∷ p) used

  pub nbits-add_all_used :
      (t : T) (p : Name) (l : List Part) (used : B)
      → nbits (add_all_used lib ops fs t p l used) ≡ nbits used
  unfolding add_all_used
  nbits-add_all_used t p [] used = refl
  nbits-add_all_used t p (x ∷ l) used =
      nbits-add_all_used t p l (add_used lib ops fs t p x used) ∙ nbits-add_used t p x used

  bor_left :
      (b used : B) (i : ℕ)
      → i < nbits used
      → isbitset b i ≡ true
      → isbitset (bor used b used) i ≡ true
  bor_left b used i small h = ground (arith, isbitset-bor used b used i)

  bor_right :
      (b used : B) (i : ℕ)
      → i < nbits used
      → isbitset used i ≡ true
      → isbitset (bor used b used) i ≡ true
  bor_right b used i small h = ground (arith, isbitset-bor used b used i)

  add_query_keeps :
      (t : T) (n : Name) (used : B) (i : ℕ)
      → i < nbits used
      → isbitset used i ≡ true
      → isbitset (elim (query t n) [ none ↦ used | some c ↦ bor used c.cpus used ]) i ≡ true
  add_query_keeps t n used i small h = elim (Option-cases (query t n)) [
    | inl e ↦ rw e h
    | inr (c, e) ↦ rw e (bor_right c.cpus used i small h)
  ]

  add_used_keeps :
      (t : T) (p : Name) (x : Part) (used : B) (i : ℕ)
      → i < nbits used
      → isbitset used i ≡ true
      → isbitset (add_used lib ops fs t p x used) i ≡ true
  unfolding add_used
  add_used_keeps t p hidden used i small h = h
  add_used_keeps t p (orphan uid) used i small h = h
  add_used_keeps t p slurm used i small h = add_query_keeps t (slurm ∷ p) used i small h
  add_used_keeps t p (other s) used i small h = add_query_keeps t (other s ∷ p) used i small h
  add_used_keeps t p (id n) used i small h = add_query_keeps t (id n ∷ p) used i small h

  add_all_used_keeps :
      (t : T) (p : Name) (l : List Part) (used : B) (i : ℕ)
      → i < nbits used
      → isbitset used i ≡ true
      → isbitset (add_all_used lib ops fs t p l used) i ≡ true
  unfolding add_all_used
  add_all_used_keeps t p [] used i small h = h
  add_all_used_keeps t p (x ∷ l) used i small h =
      add_all_used_keeps t p l (add_used lib ops fs t p x used) i
        (omega (arith, nbits-add_used t p x used)) (add_used_keeps t p x used i small h)

  add_query_takes :
      (t : T) (n : Name) (used : B) (i : ℕ)
      → i < nbits used
      → Has t n i
      → isbitset (elim (query t n) [ none ↦ used | some c ↦ bor used c.cpus used ]) i ≡ true
  add_query_takes t n used i small has = rw has.found (bor_left has.cset.cpus used i small has.bit)

  add_used_takes :
      (t : T) (p : Name) (x : Part) (used : B) (i : ℕ)
      → i < nbits used
      → IsCounted x
      → Has t (x ∷ p) i
      → isbitset (add_used lib ops fs t p x used) i ≡ true
  unfolding add_used
  add_used_takes t p hidden used i small c has = absurd c
  add_used_takes t p (orphan uid) used i small c has = absurd c
  add_used_takes t p slurm used i small c has = add_query_takes t (slurm ∷ p) used i small has
  add_used_takes t p (other s) used i small c has = add_query_takes t (other s ∷ p) used i small has
  add_used_takes t p (id n) used i small c has = add_query_takes t (id n ∷ p) used i small has

  pub add_all_used_takes :
      (t : T) (p : Name) (x : Part) (l : List Part) (used : B) (i : ℕ)
      → i < nbits used
      → Member x l
      → IsCounted x
      → Has t (x ∷ p) i
      → isbitset (add_all_used lib ops fs t p l used) i ≡ true
  unfolding add_all_used
  add_all_used_takes t p x [] used i small m c has = absurd m
  add_all_used_takes t p x (y ∷ l) used i small (inl e) c has =
      add_all_used_keeps t p l (add_used lib ops fs t p y used) i
        (omega (arith, nbits-add_used t p y used))
        (rw (sym e) (add_used_takes t p x used i small c has))
  add_all_used_takes t p x (y ∷ l) used i small (inr m) c has =
      add_all_used_takes t p x l (add_used lib ops fs t p y used) i
        (omega (arith, nbits-add_used t p y used)) m c has

  nbits-initial :
      (size : ℕ) (t : T) (p : Name) (clear : Bool)
      → ((c : Cset B) → query t p ≡ some c → nbits c.cpus ≡ size)
      → nbits (initial_used lib ops fs size t p clear) ≡ size
  unfolding initial_used
  nbits-initial size t p true sized = nbits-alloc size
  nbits-initial size t p false sized = elim (Option-cases (query t p)) [
    | inl e ↦ rw e (nbits-complement (bitmask_alloc size) ∙ nbits-alloc size)
    | inr (c, e) ↦ rw e (nbits-complement c.cpus ∙ sized c e)
  ]

  -- Every CPU of a cpuset in the directory is counted as used.
  pub used_cpus_complete :
      (size : ℕ) (t : T) (p : Name) (clear : Bool) (used : B) (x : Part) (i : ℕ)
      → ((c : Cset B) → query t p ≡ some c → nbits c.cpus ≡ size)
      → used_cpus_bitmask_path lib ops fs size t p clear ≡ some used
      → i < size
      → IsCounted x
      → Has t (x ∷ p) i
      → isbitset used i ≡ true
  unfolding used_cpus_bitmask_path
  used_cpus_complete size t p clear used x i sized e small c has =
      elim (Option-cases (read_names t p)) [
        | inl f ↦ absurd (ground arith)
        | inr (l, f) ↦
            let start : B = initial_used lib ops fs size t p clear in
            let fits = nbits-initial size t p clear sized in
            let same : add_all_used lib ops fs t p l start ≡ used = ground arith in
            ap (λ b. isbitset b i) (sym same)
            ∙ add_all_used_takes t p x l start i (omega arith)
                (query-read_names t p x has.cset l has.found f) c has
      ]

  -- With `clearall` no other CPU is.
  pub used_cpus_sound :
      (size : ℕ) (t : T) (p : Name) (used : B) (i : ℕ)
      → used_cpus_bitmask_path lib ops fs size t p true ≡ some used
      → isbitset used i ≡ true
      → (x : Part) × IsCounted x × Has t (x ∷ p) i
  unfolding used_cpus_bitmask_path initial_used
  used_cpus_sound size t p used i e h = elim (Option-cases (read_names t p)) [
    | inl f ↦ absurd (ground arith)
    | inr (l, f) ↦
        let same : add_all_used lib ops fs t p l (bitmask_alloc size) ≡ used = ground arith in
        elim (add_all_used_sound t p l (bitmask_alloc size) i (ap (λ b. isbitset b i) same ∙ h)) [
          | inl none_yet ↦ absurd (cc (isbitset-alloc size i))
          | inr has ↦ has
        ]
  ]

  pub nbits-used_cpus :
      (size : ℕ) (t : T) (p : Name) (used : B)
      → used_cpus_bitmask_path lib ops fs size t p true ≡ some used
      → nbits used ≡ size
  unfolding used_cpus_bitmask_path initial_used
  nbits-used_cpus size t p used e = elim (Option-cases (read_names t p)) [
    | inl f ↦ absurd (ground arith)
    | inr (l, f) ↦
        let same : add_all_used lib ops fs t p l (bitmask_alloc size) ≡ used = ground arith in
        ap nbits (sym same) ∙ nbits-add_all_used t p l (bitmask_alloc size) ∙ nbits-alloc size
  ]
