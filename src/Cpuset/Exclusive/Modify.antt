-- ===== src/Cpuset/Exclusive/Modify.antt =====
-- What the attempts of `cpuset_modify` leave (`user_cpuset_update` of cpuset/create.c).
use slurm_spank_plugins.Base.{
  ℕ, zero, suc, Bool, true, false, if◌then◌else◌, ◌≡◌, ◌≢◌, ◌∙◌, sym, ap, refl, some, Option-cases,
  inl, inr, ◌⊎◌,
}
use slurm_spank_plugins.Cpuset.Bitmask.{BitmaskLib, BitmaskOps}
use slurm_spank_plugins.Cpuset.Conf.{Conf}
use slurm_spank_plugins.Cpuset.Tree.{Name, Cset, CpusetLib, Modified, modified, busy, broken}
use slurm_spank_plugins.Cpuset.Update.{Ran, ran, stuck, do_cpuset_create, modify_loop}

module _ {B T : Type 0} (lib : BitmaskLib B) (ops : BitmaskOps lib) (fs : CpusetLib lib T) where
  open lib use {nbits}
  open fs use {size, query, cpuset_modify, modify-query, modify_failed}

  -- What `cpuset_modify` leaves, whether it succeeds or not.
  pub record Partly (t t' : T) (n : Name) (cp : Cset B) : Type 0 where
    pub others : (m : Name) → m ≢ n → query t' m ≡ query t m
    pub own : (query t' n ≡ query t n) ⊎ ((c : Cset B) × (c.cpus ≡ cp.cpus) × (query t' n ≡ some c))

  Partly-failed :
      (k : ℕ) (t t' : T) (n : Name) (cp : Cset B)
      → nbits cp.cpus ≡ size
      → (cpuset_modify k t n cp ≡ busy t') ⊎ (cpuset_modify k t n cp ≡ broken t')
      → Partly t t' n cp
  Partly-failed k t t' n cp sized e =
      let (others, own) = modify_failed k t t' n cp sized e in record { others = others; own = own }

  Partly-trans :
      (t t' t2 : T) (n : Name) (cp : Cset B)
      → Partly t t' n cp
      → Partly t' t2 n cp
      → Partly t t2 n cp
  Partly-trans t t' t2 n cp p q = record {
    others = λ m ne. q.others m ne ∙ p.others m ne;
    own = elim q.own [
      | inr new ↦ inr new
      | inl same ↦ elim p.own [
        | inl same' ↦ inl (same ∙ same')
        | inr (c, e, now) ↦ inr (c, e, same ∙ now)
      ]
    ];
  }

  abbrev pub Modifies : T → Name → Cset B → Ran T → Type 0
  Modifies t n cp r =
      (r ≡ stuck)
      ⊎ ((t' : T) × (ok : Bool) × (r ≡ ran t' ok)
          × Partly t t' n cp
          × ((ok ≡ false) ⊎ (query t' n ≡ some cp)))

  pub modify_cases :
      (fuel k : ℕ) (t : T) (n : Name) (cp : Cset B)
      → nbits cp.cpus ≡ size
      → Modifies t n cp (modify_loop lib ops fs fuel k t n cp)
  unfolding modify_loop
  modify_cases zero k t n cp sized = inl refl
  modify_cases (suc fuel) k t n cp sized =
      go (λ t1. modify_cases fuel (suc k) t1 n cp sized) (cpuset_modify k t n cp) refl
    where
      go :
          ((t1 : T) → Modifies t1 n cp (modify_loop lib ops fs fuel (suc k) t1 n cp))
          → (a : Modified T) → cpuset_modify k t n cp ≡ a
          → Modifies t n cp (modify_loop lib ops fs (suc fuel) k t n cp)
      go later (modified t') e =
          let (now, others) = modify-query k t t' n cp sized e in
          inr (
            t',
            true,
            rw (e, modify_loop) refl,
            record { others = others; own = inr (cp, refl, now) },
            inr now,
          )
      go later (busy t1) e = elim (later t1) [
        | inl s ↦ inl (rw (e, modify_loop) s)
        | inr (t', ok, s, p, done) ↦ inr (
          t',
          ok,
          rw (e, modify_loop) s,
          Partly-trans t t1 t' n cp (Partly-failed k t t1 n cp sized (inl e)) p,
          done,
        )
      ]
      go later (broken t') e =
          inr
            (t', false, rw (e, modify_loop) refl, Partly-failed k t t' n cp sized (inr e), inl refl)

  abbrev new_cset : B → B → Cset B
  new_cset used mems = record { cpus = used; mems = mems; notify_on_release = true }

  pub do_cpuset_create_cpus :
      (cf : Conf) (used : B) (cp : Cset B)
      → do_cpuset_create lib ops fs cf used ≡ some cp
      → cp.cpus ≡ used
  unfolding do_cpuset_create
  do_cpuset_create_cpus cf used cp e =
      elim (Option-cases (if cf.constrain_mems then fs.localmems used else fs.getmems)) [
        | inl f ↦ absurd (cc (e, f))
        | inr (mems, f) ↦
            let made : some (new_cset used mems) ≡ some cp = rw (do_cpuset_create, f) at e in
            let same : new_cset used mems ≡ cp = cc made in ap (λ (c : Cset B). c.cpus) (sym same)
      ]
