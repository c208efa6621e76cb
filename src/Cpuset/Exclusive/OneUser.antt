-- ===== src/Cpuset/Exclusive/OneUser.antt =====
-- `user_cpuset_update` (cpuset/create.c) keeps the tree of cpusets in order.
use mathlib.Core.Path.{subst}
use slurm_spank_plugins.Base.{
  ℕ, ◌<◌, Bool, true, false, ◌≡◌, ◌∙◌, sym, ap, refl, arith, Option, none, some, inl, inr, ◌⊎◌,
}
use slurm_spank_plugins.Cpuset.Bitmask.{BitmaskLib, BitmaskOps}
use slurm_spank_plugins.Cpuset.Conf.{Conf}
use slurm_spank_plugins.Cpuset.Tree.{
  Part, Name, user_name, orphan_name, Cset, CpusetLib, Answer, changed, again, refused,
}
use slurm_spank_plugins.Cpuset.Update.{
  Ran, ran, add_all_used, initial_used, used_cpus_bitmask_path, with_alloc, user_cpuset_unorphan,
  user_cpuset_create, update_existing, user_cpuset_update,
}
use slurm_spank_plugins.Cpuset.Exclusive.Used.{
  Has, used_cpus_complete, used_cpus_sound, nbits-used_cpus,
}
use slurm_spank_plugins.Cpuset.Exclusive.Apart.{
  job_name, user-ne-user, job-ne-user, TreeOk, IsFree, Has-same, Has-none, Has-cset, TreeOk-less,
  same-or-not,
}
use slurm_spank_plugins.Cpuset.Exclusive.Users.{
  Asked, Ended, Updated-refl, give_cpus_ends, isset_below,
}

module _ {B T : Type 0} (lib : BitmaskLib B) (ops : BitmaskOps lib) (fs : CpusetLib lib T) where
  open lib use {isbitset, nbits}
  open ops use {bor, isbitset-bor, nbits-bor}
  open fs use {
    size, query, read_names, mkdir, rename, query-size, read_names-query, mkdir-query, mkdir_exists,
    rename_none,
  }

  -- A list of names that `readdir` returned is the one that the sum of the CPUs is made from.
  pub used_cpus_there :
      (clear : Bool) (t : T) (n : Name) (c : Cset B)
      → query t n ≡ some c
      → (used : B) × (used_cpus_bitmask_path lib ops fs size t n clear ≡ some used)
  unfolding used_cpus_bitmask_path
  used_cpus_there clear t n c e =
      let (l, f) = read_names-query t n c e in
      (
        add_all_used lib ops fs t n l (initial_used lib ops fs size t n clear),
        rw (f, used_cpus_bitmask_path) refl,
      )

  nbits-with_alloc :
      (alloc : Option B) (used : B) → nbits (with_alloc lib ops fs alloc used) ≡ nbits used
  nbits-with_alloc none used = refl
  nbits-with_alloc (some alloc) used = nbits-bor used used alloc

  with_alloc_cases :
      (alloc : Option B) (used : B) (i : ℕ)
      → isbitset (with_alloc lib ops fs alloc used) i ≡ true
      → (isbitset used i ≡ true) ⊎ Asked lib ops fs alloc i
  with_alloc_cases none used i h = inl h
  with_alloc_cases (some alloc) used i h = ground (arith, isbitset-bor used used alloc i)

  with_alloc_old :
      (alloc : Option B) (used : B) (i : ℕ)
      → i < nbits used
      → isbitset used i ≡ true
      → isbitset (with_alloc lib ops fs alloc used) i ≡ true
  with_alloc_old none used i lt h = h
  with_alloc_old (some alloc) used i lt h = ground (arith, isbitset-bor used used alloc i)

  with_alloc_new :
      (alloc : Option B) (used : B) (i : ℕ)
      → i < nbits used
      → Asked lib ops fs alloc i
      → isbitset (with_alloc lib ops fs alloc used) i ≡ true
  with_alloc_new none used i lt h = absurd h
  with_alloc_new (some alloc) used i lt h = ground (arith, isbitset-bor used used alloc i)

  update_existing_ends :
      (fuel : ℕ) (cf : Conf) (t : T) (u : ℕ) (alloc : Option B) (c : Cset B)
      → TreeOk lib ops fs t
      → query t (user_name u) ≡ some c
      → ((i : ℕ) → Asked lib ops fs alloc i → IsFree lib ops fs t i)
      → ((i : ℕ) → Asked lib ops fs alloc i → i < size)
      → Ended lib ops fs t u alloc (update_existing lib ops fs fuel size cf t u alloc false)
  unfolding update_existing
  update_existing_ends fuel cf t u alloc c is there free small =
      let (used, e) = used_cpus_there true t (user_name u) c there in
      let sized = nbits-used_cpus lib ops fs size t (user_name u) used e in
      let ends =
        give_cpus_ends lib ops fs fuel cf t u (with_alloc lib ops fs alloc used) alloc is
          (nbits-with_alloc alloc used ∙ sized)
          (λ x i counted h.
            let lt : i < size = omega (
              arith,
              isset_below lib ops fs h.cset.cpus i h.bit,
              query-size t (job_name u x) h.cset h.found,
            ) in
            with_alloc_old alloc used i (omega (arith, sized)) (
              used_cpus_complete lib ops fs size t (user_name u) true used x i
                (λ d f. query-size t (user_name u) d f) e lt counted h))
          (λ i h. elim (with_alloc_cases alloc used i h) [
            | inl old ↦
                let (x, counted, has) =
                  used_cpus_sound lib ops fs size t (user_name u) used i e old in
                inl (is.within u x i counted has)
            | inr new ↦ inr (free i new)
          ])
          (λ i h. with_alloc_new alloc used i (omega (arith, small i h)) h) in
      rw (e, update_existing) ends

  -- A new directory has no CPUs.
  record Made (t t' : T) : Type 0 where
    is : TreeOk lib ops fs t'
    users : (v i : ℕ) → Has lib ops fs t' (user_name v) i → Has lib ops fs t (user_name v) i
    jobs :
        (v : ℕ) (x : Part) (i : ℕ)
        → Has lib ops fs t' (job_name v x) i
        → Has lib ops fs t (job_name v x) i

  mkdir_made :
      (t t' : T) (u : ℕ) → TreeOk lib ops fs t → mkdir t (user_name u) ≡ changed t' → Made t t'
  mkdir_made t t' u is e =
      let (before, (c, now, bare), others) = mkdir-query t t' (user_name u) e in
      let user : (v i : ℕ) → Has lib ops fs t' (user_name v) i → Has lib ops fs t (user_name v) i =
        λ v i h. elim (same-or-not u v) [
          | inl f ↦
              let at_u = subst (λ x. Has lib ops fs t' (user_name x) i) f h in
              absurd (cc (bare i, Has-cset lib ops fs t' (user_name u) i c now at_u))
          | inr ne ↦
              Has-same lib ops fs t t' (user_name v) i (others (user_name v) (user-ne-user v u ne))
                h
        ] in
      let job : (v : ℕ) (x : Part) (i : ℕ)
          → Has lib ops fs t' (job_name v x) i
          → Has lib ops fs t (job_name v x) i =
        λ v x i h.
          Has-same lib ops fs t t' (job_name v x) i (others (job_name v x) (job-ne-user v u x)) h in
      record {
        is = TreeOk-less lib ops fs t t' is user job (λ v x i h k. elim (same-or-not u v) [
          | inl f ↦
              let at_u = subst (λ x. Has lib ops fs t (user_name x) i) f k in
              absurd (Has-none lib ops fs t (user_name u) i before at_u)
          | inr ne ↦
              Has-same lib ops fs t' t (user_name v) i
                (sym (others (user_name v) (user-ne-user v u ne))) k
        ]);
        users = user;
        jobs = job;
      }

  Ended-after :
      (t t' : T) (u : ℕ) (alloc : Option B) (r : Ran T)
      → Made t t'
      → Ended lib ops fs t' u alloc r
      → Ended lib ops fs t u alloc r
  Ended-after t t' u alloc r made (inl s) = inl s
  Ended-after t t' u alloc r made (inr (t2, ok, e, up)) = inr (
    t2,
    ok,
    e,
    record {
      still = up.still;
      children = λ v x i h. made.jobs v x i (up.children v x i h);
      holds = up.holds;
    },
  )

  unorphan_none :
      (t : T) (u : ℕ)
      → query t (orphan_name u) ≡ none
      → user_cpuset_unorphan lib ops fs t u ≡ (t, false)
  unfolding user_cpuset_unorphan
  unorphan_none t u e =
      let r = rename_none t (orphan_name u) (user_name u) e in rw (r, user_cpuset_unorphan) refl

  pub update_created :
      (fuel : ℕ) (cf : Conf) (t : T) (u : ℕ) (alloc : Option B) (o : Option T)
      → query t (orphan_name u) ≡ none
      → user_cpuset_create lib ops fs t (user_name u) ≡ o
      → user_cpuset_update lib ops fs fuel size cf t u alloc ≡ (elim o [
        | none ↦ ran t false
        | some t2 ↦ update_existing lib ops fs fuel size cf t2 u alloc false
      ])
  unfolding user_cpuset_update
  update_created fuel cf t u alloc o e f =
      ap
        (λ (r : T × Bool). elim r.1 [
          | true ↦ update_existing lib ops fs fuel size cf r.0 u alloc true
          | false ↦ elim (user_cpuset_create lib ops fs r.0 (user_name u)) [
            | none ↦ ran r.0 false
            | some t2 ↦ update_existing lib ops fs fuel size cf t2 u alloc false
          ]
        ])
        (unorphan_none t u e)
      ∙ ap
          (λ (p : Option T). elim p [
            | none ↦ ran t false
            | some t2 ↦ update_existing lib ops fs fuel size cf t2 u alloc false
          ])
          f

  -- The update of a user's cpuset, where users share no CPUs, a job's CPUs are its user's and jobs of a
  -- user share none, the user has no orphan, and the CPUs to add are ones of the machine that no user has.
  -- It ends unless `cpuset_modify` keeps failing, it follows no NULL, the tree is left in that order, no
  -- job gains a CPU, and on success the user has all CPUs that were asked for.
  pub user_cpuset_update-TreeOk :
      (fuel : ℕ) (cf : Conf) (t : T) (u : ℕ) (alloc : Option B)
      → TreeOk lib ops fs t
      → query t (orphan_name u) ≡ none
      → ((i : ℕ) → Asked lib ops fs alloc i → IsFree lib ops fs t i)
      → ((i : ℕ) → Asked lib ops fs alloc i → i < size)
      → Ended lib ops fs t u alloc (user_cpuset_update lib ops fs fuel size cf t u alloc)
  unfolding user_cpuset_update user_cpuset_unorphan user_cpuset_create
  user_cpuset_update-TreeOk fuel cf t u alloc is no_orphan free small =
      go (mkdir t (user_name u)) refl
    where
      after :
          (o : Option T)
          → user_cpuset_create lib ops fs t (user_name u) ≡ o
          → Ended lib ops fs t u alloc (elim o [
            | none ↦ ran t false
            | some t2 ↦ update_existing lib ops fs fuel size cf t2 u alloc false
          ])
          → Ended lib ops fs t u alloc (user_cpuset_update lib ops fs fuel size cf t u alloc)
      after o e h =
          subst (Ended lib ops fs t u alloc) (sym (update_created fuel cf t u alloc o no_orphan e))
            h

      go :
          (a : Answer T)
          → mkdir t (user_name u) ≡ a
          → Ended lib ops fs t u alloc (user_cpuset_update lib ops fs fuel size cf t u alloc)
      go (changed t') e =
          let (before, (c, now, bare), others) = mkdir-query t t' (user_name u) e in
          let made = mkdir_made t t' u is e in
          let later =
            update_existing_ends fuel cf t' u alloc c made.is now
              (λ i a v h. free i a v (made.users v i h)) small in
          after (some t') (rw (e, user_cpuset_create) refl) (
            Ended-after t t' u alloc (update_existing lib ops fs fuel size cf t' u alloc false) made
              later)
      go again e =
          let (c, there) = mkdir_exists t (user_name u) e in
          let later = update_existing_ends fuel cf t u alloc c is there free small in
          after (some t) (rw (e, user_cpuset_create) refl) later
      go refused e =
          after none (rw (e, user_cpuset_create) refl)
            (inr (t, false, refl, Updated-refl lib ops fs t u alloc is))
