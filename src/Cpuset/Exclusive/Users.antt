-- ===== src/Cpuset/Exclusive/Users.antt =====
-- What the update of a user's cpuset does to the tree (`user_cpuset_update` of cpuset/create.c).
use slurm_spank_plugins.Base.{
  ℕ, zero, suc, ◌<◌, ◌==◌, Bool, true, false, ltb, ◌≡◌, ◌≢◌, ◌∙◌, sym, ap, refl, arith, Option,
  none, some, Option-cases, Bool-cases, inl, inr, ◌⊎◌,
}
use slurm_spank_plugins.Cpuset.Bitmask.{BitmaskLib, BitmaskOps, count_below}
use slurm_spank_plugins.Cpuset.Conf.{Conf}
use slurm_spank_plugins.Cpuset.Tree.{Part, Name, user_name, orphan_name, Cset, CpusetLib}
use slurm_spank_plugins.Cpuset.Update.{
  Ran, ran, stuck, do_cpuset_create, user_cpuset_orphan, give_cpus,
}
use slurm_spank_plugins.Cpuset.Exclusive.Modify.{Partly, modify_cases, do_cpuset_create_cpus}
use slurm_spank_plugins.Cpuset.Exclusive.Used.{Has, IsCounted}
use slurm_spank_plugins.Cpuset.Exclusive.Apart.{
  job_name, user-ne-user, job-ne-user, TreeOk, IsFree, Has-same, Has-none, TreeOk-less, TreeOk-give,
  same-or-not,
}

count_below_some : (p : ℕ → Bool) (n i : ℕ) → p i ≡ true → i < n → 0 < count_below p n
count_below_some p zero i h lt = absurd (omega arith)
count_below_some p (suc n) i h lt = elim (Bool-cases (i == n)) [
  | inl e ↦ let f : i ≡ n = ground arith in let g : p n ≡ true = ap p (sym f) ∙ h in ground arith
  | inr ne ↦ let ih = count_below_some p n i h (ground arith) in ground arith
]

module _ {B T : Type 0} (lib : BitmaskLib B) (ops : BitmaskOps lib) (fs : CpusetLib lib T) where
  open lib use {isbitset, nbits, weight, weight-count}
  open ops use {bor, isbitset_size, isbitset-bor, nbits-bor}
  open fs use {
    size, query, read_names, cpuset_modify, mkdir, rename, kill_all, query-size, read_names-query,
    modify-query, modify_failed, mkdir-query, mkdir_exists, rename_none, rename-query, kill-query,
  }

  pub isset_below : (b : B) (i : ℕ) → isbitset b i ≡ true → i < nbits b
  isset_below b i h = elim (Bool-cases (ltb i (nbits b))) [
    | inl lt ↦ ground arith
    | inr ge ↦ absurd (let e = isbitset_size b i (ground arith) in cc)
  ]

  weight_zero : (b : B) (i : ℕ) → weight b ≡ 0 → isbitset b i ≡ true → ⊥
  weight_zero b i z h =
      let lt = count_below_some (isbitset b) (nbits b) i h (isset_below b i h) in
      absurd (omega (arith, weight-count b))

  -- A CPU that the update is asked to add.
  abbrev pub Asked : Option B → ℕ → Type 0
  Asked none i = ⊥
  Asked (some alloc) i = isbitset alloc i ≡ true

  -- What an update leaves of the tree `t`.
  pub record Updated (t t' : T) (u : ℕ) (alloc : Option B) (ok : Bool) : Type 0 where
    pub still : TreeOk lib ops fs t'
    pub children :
        (v : ℕ) (n : Part) (i : ℕ)
        → Has lib ops fs t' (job_name v n) i
        → Has lib ops fs t (job_name v n) i
    pub holds : (ok ≡ false) ⊎ ((i : ℕ) → Asked alloc i → Has lib ops fs t' (user_name u) i)

  pub Updated-refl :
      (t : T) (u : ℕ) (alloc : Option B) → TreeOk lib ops fs t → Updated t t u alloc false
  Updated-refl t u alloc is = record { still = is; children = λ v n i h. h; holds = inl refl }

  abbrev pub Ended : T → ℕ → Option B → Ran T → Type 0
  Ended t u alloc r =
      (r ≡ stuck) ⊎ ((t' : T) × (ok : Bool) × (r ≡ ran t' ok) × Updated t t' u alloc ok)

  -- Renamed, the cpuset of a user is nobody's.
  Updated-orphan :
      (t t' : T) (u : ℕ) (alloc : Option B)
      → TreeOk lib ops fs t
      → ((i : ℕ) → Asked alloc i → ⊥)
      → rename t (user_name u) (orphan_name u) ≡ some t'
      → Updated t t' u alloc true
  Updated-orphan t t' u alloc is nothing e =
      let (gone, all_gone, users, jobs) = rename-query t t' u e in
      let user : (v i : ℕ) → Has lib ops fs t' (user_name v) i → Has lib ops fs t (user_name v) i =
        λ v i h. elim (same-or-not u v) [
          | inl f ↦ absurd (Has-none lib ops fs t' (user_name v) i (rw f gone) h)
          | inr ne ↦ Has-same lib ops fs t t' (user_name v) i (users v ne) h
        ] in
      let job : (v : ℕ) (x : Part) (i : ℕ)
          → Has lib ops fs t' (job_name v x) i
          → Has lib ops fs t (job_name v x) i =
        λ v x i h. elim (same-or-not u v) [
          | inl f ↦ absurd (Has-none lib ops fs t' (job_name v x) i (rw f (all_gone x)) h)
          | inr ne ↦ Has-same lib ops fs t t' (job_name v x) i (jobs v x ne) h
        ] in
      record {
        still = TreeOk-less lib ops fs t t' is user job (λ v x i h k. elim (same-or-not u v) [
          | inl f ↦ absurd (Has-none lib ops fs t' (job_name v x) i (rw f (all_gone x)) h)
          | inr ne ↦ Has-same lib ops fs t' t (user_name v) i (sym (users v ne)) k
        ]);
        children = job;
        holds = inr (λ i h. absurd (nothing i h));
      }

  Updated-killed :
      (t : T) (u : ℕ) (alloc : Option B)
      → TreeOk lib ops fs t
      → ((i : ℕ) → Asked alloc i → ⊥)
      → Updated t (kill_all t (user_name u)) u alloc true
  Updated-killed t u alloc is nothing =
      let back : (n : Name) (i : ℕ)
          → Has lib ops fs (kill_all t (user_name u)) n i
          → Has lib ops fs t n i =
        λ n i h.
          Has-same lib ops fs t (kill_all t (user_name u)) n i (kill-query t (user_name u) n) h in
      record {
        still =
            TreeOk-less lib ops fs t (kill_all t (user_name u)) is (λ v i h. back (user_name v) i h)
              (λ v x i h. back (job_name v x) i h)
              (λ v x i h k.
                Has-same lib ops fs (kill_all t (user_name u)) t (user_name v) i
                  (sym (kill-query t (user_name u) (user_name v))) k);
        children = λ v x i h. back (job_name v x) i h;
        holds = inr (λ i h. absurd (nothing i h));
      }

  user_cpuset_orphan_ends :
      (t : T) (u : ℕ) (alloc : Option B)
      → TreeOk lib ops fs t
      → ((i : ℕ) → Asked alloc i → ⊥)
      → Updated t (user_cpuset_orphan lib ops fs t u) u alloc true
  unfolding user_cpuset_orphan
  user_cpuset_orphan_ends t u alloc is nothing =
      elim (Option-cases (rename t (user_name u) (orphan_name u))) [
        | inl e ↦
            rw (e, user_cpuset_orphan)
              (record {
                still = is;
                children = λ v x i h. h;
                holds = inr (λ i h. absurd (nothing i h));
              })
        | inr (t', e) ↦ rw (e, user_cpuset_orphan) (Updated-orphan t t' u alloc is nothing e)
      ]

  Updated-given :
      (t t' : T) (u : ℕ) (used : B) (alloc : Option B) (cp : Cset B) (ok : Bool)
      → TreeOk lib ops fs t
      → cp.cpus ≡ used
      → query t' (user_name u) ≡ some cp
      → ((m : Name) → m ≢ user_name u → query t' m ≡ query t m)
      → ((x : Part) (i : ℕ)
          → IsCounted x
          → Has lib ops fs t (job_name u x) i
          → isbitset used i ≡ true)
      → ((i : ℕ)
          → isbitset used i ≡ true
          → Has lib ops fs t (user_name u) i ⊎ IsFree lib ops fs t i)
      → ((i : ℕ) → Asked alloc i → isbitset used i ≡ true)
      → Updated t t' u alloc ok
  Updated-given t t' u used alloc cp ok is same now others covers from has = record {
    still =
        TreeOk-give lib ops fs t t' u cp is now others
          (λ x i counted h. ap (λ b. isbitset b i) same ∙ covers x i counted h)
          (λ i h. from i (ap (λ b. isbitset b i) (sym same) ∙ h));
    children = λ v x i h.
        Has-same lib ops fs t t' (job_name v x) i (others (job_name v x) (job-ne-user v u x)) h;
    holds =
        inr (λ i h. record { cset = cp; found = now; bit = ap (λ b. isbitset b i) same ∙ has i h });
  }

  -- The cpusets are as before.
  Updated-kept :
      (t t' : T) (u : ℕ) (alloc : Option B)
      → TreeOk lib ops fs t
      → query t' (user_name u) ≡ query t (user_name u)
      → ((m : Name) → m ≢ user_name u → query t' m ≡ query t m)
      → Updated t t' u alloc false
  Updated-kept t t' u alloc is own others =
      let user : (v : ℕ) → query t' (user_name v) ≡ query t (user_name v) = λ v.
        elim (same-or-not u v) [
          | inl f ↦ rw f own
          | inr ne ↦ others (user_name v) (user-ne-user v u ne)
        ] in
      let job : (v : ℕ) (x : Part) (i : ℕ)
          → Has lib ops fs t' (job_name v x) i
          → Has lib ops fs t (job_name v x) i =
        λ v x i h.
          Has-same lib ops fs t t' (job_name v x) i (others (job_name v x) (job-ne-user v u x)) h in
      record {
        still =
            TreeOk-less lib ops fs t t' is
              (λ v i h. Has-same lib ops fs t t' (user_name v) i (user v) h) job
              (λ v x i h k. Has-same lib ops fs t' t (user_name v) i (sym (user v)) k);
        children = job;
        holds = inl refl;
      }

  Updated-modified :
      (t t' : T) (u : ℕ) (used : B) (alloc : Option B) (cp : Cset B) (ok : Bool)
      → TreeOk lib ops fs t
      → cp.cpus ≡ used
      → Partly lib ops fs t t' (user_name u) cp
      → (ok ≡ false) ⊎ (query t' (user_name u) ≡ some cp)
      → ((x : Part) (i : ℕ)
          → IsCounted x
          → Has lib ops fs t (job_name u x) i
          → isbitset used i ≡ true)
      → ((i : ℕ)
          → isbitset used i ≡ true
          → Has lib ops fs t (user_name u) i ⊎ IsFree lib ops fs t i)
      → ((i : ℕ) → Asked alloc i → isbitset used i ≡ true)
      → Updated t t' u alloc ok
  Updated-modified t t' u used alloc cp ok is same p done covers from has = elim done [
    | inr now ↦ Updated-given t t' u used alloc cp ok is same now p.others covers from has
    | inl f ↦ elim p.own [
      | inl old ↦ rw f (Updated-kept t t' u alloc is old p.others)
      | inr (c, e, now) ↦
          Updated-given t t' u used alloc c ok is (e ∙ same) now p.others covers from has
    ]
  ]

  pub give_cpus_ends :
      (fuel : ℕ) (cf : Conf) (t : T) (u : ℕ) (used : B) (alloc : Option B)
      → TreeOk lib ops fs t
      → nbits used ≡ size
      → ((x : Part) (i : ℕ)
          → IsCounted x
          → Has lib ops fs t (job_name u x) i
          → isbitset used i ≡ true)
      → ((i : ℕ)
          → isbitset used i ≡ true
          → Has lib ops fs t (user_name u) i ⊎ IsFree lib ops fs t i)
      → ((i : ℕ) → Asked alloc i → isbitset used i ≡ true)
      → Ended t u alloc (give_cpus lib ops fs fuel cf t u used)
  unfolding give_cpus
  give_cpus_ends fuel cf t u used alloc is sized covers from has =
      elim (Bool-cases (weight used == 0)) [
        | inl z ↦
            let nothing : (i : ℕ) → Asked alloc i → ⊥ =
              λ i h. weight_zero used i (ground arith) (has i h) in
            elim (Bool-cases cf.kill_orphans) [
              | inl k ↦ inr (
                kill_all t (user_name u),
                true,
                rw (z, k, give_cpus) refl,
                Updated-killed t u alloc is nothing,
              )
              | inr k ↦ inr (
                user_cpuset_orphan lib ops fs t u,
                true,
                rw (z, k, give_cpus) refl,
                user_cpuset_orphan_ends t u alloc is nothing,
              )
            ]
        | inr nz ↦ elim (Option-cases (do_cpuset_create lib ops fs cf used)) [
          | inl e ↦ inr (t, false, rw (nz, e, give_cpus) refl, Updated-refl t u alloc is)
          | inr (cp, e) ↦
              let same = do_cpuset_create_cpus lib ops fs cf used cp e in
              elim (modify_cases lib ops fs fuel 0 t (user_name u) cp (ap nbits same ∙ sized)) [
                | inl s ↦ inl (rw (nz, e, give_cpus) s)
                | inr (t', ok, s, p, done) ↦ inr (
                  t',
                  ok,
                  rw (nz, e, give_cpus) s,
                  Updated-modified t t' u used alloc cp ok is same p done covers from has,
                )
              ]
        ]
      ]
