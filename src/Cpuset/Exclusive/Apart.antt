-- ===== src/Cpuset/Exclusive/Apart.antt =====
-- The invariant of the tree of cpusets: users share no CPUs, a job's CPUs are its user's, and jobs of a
-- user share none (cpuset/create.c).
use mathlib.Core.Path.{subst}
use slurm_spank_plugins.Base.{
  ℕ, ◌==◌, true, ◌≡◌, ◌≢◌, ◌∙◌, sym, ap, arith, none, some, ◌∷◌, Bool-cases, inl, inr, ◌⊎◌,
}
use slurm_spank_plugins.Cpuset.Bitmask.{BitmaskLib, BitmaskOps}
use slurm_spank_plugins.Cpuset.Tree.{
  Part, slurm, id, orphan, hidden, other, Name, user_name, Cset, CpusetLib,
}
use slurm_spank_plugins.Cpuset.Exclusive.Used.{Has, IsCounted}

-- What is in the directory of a user: a job's cpuset is called by its number.
abbrev pub job_name : ℕ → Part → Name
job_name u x = x ∷ user_name u

pub user-ne-user : (u v : ℕ) → u ≢ v → user_name u ≢ user_name v
user-ne-user u v h e = h (cc e)

pub job-ne-user : (u v : ℕ) (n : Part) → job_name u n ≢ user_name v
job-ne-user u v n e = cc e

pub job-ne-job : (u v : ℕ) (m n : Part) → (u ≢ v) ⊎ (m ≢ n) → job_name u m ≢ job_name v n
job-ne-job u v m n (inl h) e = h (cc e)
job-ne-job u v m n (inr h) e = h (cc e)

pub same-or-not : (u v : ℕ) → (v ≡ u) ⊎ (v ≢ u)
same-or-not u v = elim (Bool-cases (v == u)) [
  | inl e ↦ inl (ground arith)
  | inr e ↦ inr (λ f. absurd (ground arith))
]

part-or-not : (n : ℕ) (x : Part) → (x ≡ id n) ⊎ (x ≢ id n)
part-or-not n (id m) = elim (same-or-not n m) [
  | inl e ↦ inl (ap id e)
  | inr ne ↦ inr (λ f. ne (cc f))
]
part-or-not n slurm = inr (λ e. cc e)
part-or-not n (orphan u) = inr (λ e. cc e)
part-or-not n hidden = inr (λ e. cc e)
part-or-not n (other s) = inr (λ e. cc e)

module _ {B T : Type 0} (lib : BitmaskLib B) (ops : BitmaskOps lib) (fs : CpusetLib lib T) where
  open lib use {isbitset, nbits}
  open fs use {query}

  pub record TreeOk (t : T) : Type 0 where
    pub users_apart :
        (u v i : ℕ)
        → u ≢ v
        → Has lib ops fs t (user_name u) i
        → Has lib ops fs t (user_name v) i
        → ⊥
    pub within :
        (u : ℕ) (n : Part) (i : ℕ)
        → IsCounted n
        → Has lib ops fs t (job_name u n) i
        → Has lib ops fs t (user_name u) i
    pub jobs_apart :
        (u m n i : ℕ)
        → m ≢ n
        → Has lib ops fs t (job_name u (id m)) i
        → Has lib ops fs t (job_name u (id n)) i
        → ⊥

  -- A CPU that no user has.
  abbrev pub IsFree : T → ℕ → Type 0
  IsFree t i = (v : ℕ) → Has lib ops fs t (user_name v) i → ⊥

  pub Has-same :
      (t t' : T) (n : Name) (i : ℕ)
      → query t' n ≡ query t n
      → Has lib ops fs t' n i
      → Has lib ops fs t n i
  Has-same t t' n i e h = record { cset = h.cset; found = sym e ∙ h.found; bit = h.bit }

  pub Has-none : (t : T) (n : Name) (i : ℕ) → query t n ≡ none → Has lib ops fs t n i → ⊥
  Has-none t n i e h = cc (e, h.found)

  pub Has-cset :
      (t : T) (n : Name) (i : ℕ) (c : Cset B)
      → query t n ≡ some c
      → Has lib ops fs t n i
      → isbitset c.cpus i ≡ true
  Has-cset t n i c e h = let f = h.found in let b = h.bit in ground arith

  -- What is taken away leaves the rest in order.
  pub TreeOk-less :
      (t t' : T)
      → TreeOk t
      → ((v i : ℕ) → Has lib ops fs t' (user_name v) i → Has lib ops fs t (user_name v) i)
      → ((v : ℕ) (n : Part) (i : ℕ)
          → Has lib ops fs t' (job_name v n) i
          → Has lib ops fs t (job_name v n) i)
      → ((v : ℕ) (n : Part) (i : ℕ)
          → Has lib ops fs t' (job_name v n) i
          → Has lib ops fs t (user_name v) i
          → Has lib ops fs t' (user_name v) i)
      → TreeOk t'
  TreeOk-less t t' is users jobs kept = record {
    users_apart = λ u v i ne h k. is.users_apart u v i ne (users u i h) (users v i k);
    within = λ u n i c h. kept u n i h (is.within u n i c (jobs u n i h));
    jobs_apart = λ u m n i ne h k. is.jobs_apart u m n i ne (jobs u (id m) i h) (jobs u (id n) i k);
  }

  -- A user is given a set that has the CPUs of the user's jobs and otherwise free ones.
  pub TreeOk-give :
      (t t' : T) (u : ℕ) (c : Cset B)
      → TreeOk t
      → query t' (user_name u) ≡ some c
      → ((m : Name) → m ≢ user_name u → query t' m ≡ query t m)
      → ((n : Part) (i : ℕ)
          → IsCounted n
          → Has lib ops fs t (job_name u n) i
          → isbitset c.cpus i ≡ true)
      → ((i : ℕ) → isbitset c.cpus i ≡ true → Has lib ops fs t (user_name u) i ⊎ IsFree t i)
      → TreeOk t'
  TreeOk-give t t' u c is now others covers from =
      let owner : (v i : ℕ)
          → v ≢ u
          → Has lib ops fs t' (user_name v) i
          → Has lib ops fs t (user_name v) i =
        λ v i ne h. Has-same t t' (user_name v) i (others (user_name v) (user-ne-user v u ne)) h in
      let job : (v : ℕ) (n : Part) (i : ℕ)
          → Has lib ops fs t' (job_name v n) i
          → Has lib ops fs t (job_name v n) i =
        λ v n i h. Has-same t t' (job_name v n) i (others (job_name v n) (job-ne-user v u n)) h in
      let clash : (v i : ℕ)
          → v ≢ u
          → Has lib ops fs t' (user_name u) i
          → Has lib ops fs t' (user_name v) i
          → ⊥ =
        λ v i ne h k. elim (from i (Has-cset t' (user_name u) i c now h)) [
          | inl old ↦ is.users_apart v u i ne (owner v i ne k) old
          | inr free ↦ free v (owner v i ne k)
        ] in
      record {
        users_apart = λ v w i ne h k. elim (same-or-not u v) [
          | inl e ↦
              clash w i (λ f. ne (e ∙ sym f)) (subst (λ x. Has lib ops fs t' (user_name x) i) e h) k
          | inr nv ↦ elim (same-or-not u w) [
            | inl e ↦ clash v i nv (subst (λ x. Has lib ops fs t' (user_name x) i) e k) h
            | inr nw ↦ is.users_apart v w i ne (owner v i nv h) (owner w i nw k)
          ]
        ];
        within = λ v n i counted h. elim (same-or-not u v) [
          | inl e ↦
              subst (λ x. Has lib ops fs t' (user_name x) i) (sym e)
                (record {
                  cset = c;
                  found = now;
                  bit =
                      covers n i counted
                        (subst (λ x. Has lib ops fs t (job_name x n) i) e (job v n i h));
                })
          | inr ne ↦
              Has-same t' t (user_name v) i (sym (others (user_name v) (user-ne-user v u ne)))
                (is.within v n i counted (job v n i h))
        ];
        jobs_apart =
            λ v m n i ne h k. is.jobs_apart v m n i ne (job v (id m) i h) (job v (id n) i k);
      }

  -- A job is given free CPUs that its user has already.
  pub TreeOk-job :
      (t t' : T) (u n : ℕ) (c : Cset B)
      → TreeOk t
      → query t' (job_name u (id n)) ≡ some c
      → ((m : Name) → m ≢ job_name u (id n) → query t' m ≡ query t m)
      → ((i : ℕ) → isbitset c.cpus i ≡ true → Has lib ops fs t (user_name u) i)
      → ((m i : ℕ) → isbitset c.cpus i ≡ true → Has lib ops fs t (job_name u (id m)) i → ⊥)
      → TreeOk t'
  TreeOk-job t t' u n c is now others inside fresh =
      let user : (v i : ℕ) → Has lib ops fs t' (user_name v) i → Has lib ops fs t (user_name v) i =
        λ v i h.
          Has-same t t' (user_name v) i (others (user_name v) (λ e. job-ne-user u v (id n) (sym e)))
            h in
      let back : (v i : ℕ) → Has lib ops fs t (user_name v) i → Has lib ops fs t' (user_name v) i =
        λ v i h.
          Has-same t' t (user_name v) i
            (sym (others (user_name v) (λ e. job-ne-user u v (id n) (sym e)))) h in
      let other : (v : ℕ) (m : Part) (i : ℕ)
          → (v ≢ u) ⊎ (m ≢ id n)
          → Has lib ops fs t' (job_name v m) i
          → Has lib ops fs t (job_name v m) i =
        λ v m i ne h.
          Has-same t t' (job_name v m) i (others (job_name v m) (job-ne-job v u m (id n) ne)) h in
      let own : (i : ℕ) → Has lib ops fs t' (job_name u (id n)) i → isbitset c.cpus i ≡ true =
        λ i h. Has-cset t' (job_name u (id n)) i c now h in
      let clash : (m i : ℕ)
          → m ≢ n
          → Has lib ops fs t' (job_name u (id n)) i
          → Has lib ops fs t' (job_name u (id m)) i
          → ⊥ =
        λ m i ne h k. fresh m i (own i h) (other u (id m) i (inr (λ e. ne (cc e))) k) in
      record {
        users_apart = λ v w i ne h k. is.users_apart v w i ne (user v i h) (user w i k);
        within = λ v m i counted h. elim (same-or-not u v) [
          | inr ne ↦ back v i (is.within v m i counted (other v m i (inl ne) h))
          | inl e ↦ elim (part-or-not n m) [
            | inr ne ↦ back v i (is.within v m i counted (other v m i (inr ne) h))
            | inl f ↦
                subst (λ x. Has lib ops fs t' (user_name x) i) (sym e)
                  (back u i (
                    inside i (
                      own i (
                        subst (λ x. Has lib ops fs t' (job_name u x) i) f
                          (subst (λ x. Has lib ops fs t' (job_name x m) i) e h)))))
          ]
        ];
        jobs_apart = λ v k m i ne h l. elim (same-or-not u v) [
          | inr nv ↦
              is.jobs_apart v k m i ne (other v (id k) i (inl nv) h) (other v (id m) i (inl nv) l)
          | inl e ↦
              let h' = subst (λ x. Has lib ops fs t' (job_name x (id k)) i) e h in
              let l' = subst (λ x. Has lib ops fs t' (job_name x (id m)) i) e l in
              elim (same-or-not n k) [
                | inl f ↦
                    clash m i (λ g. ne (f ∙ sym g))
                      (subst (λ x. Has lib ops fs t' (job_name u (id x)) i) f h') l'
                | inr nk ↦ elim (same-or-not n m) [
                  | inl f ↦
                      clash k i nk (subst (λ x. Has lib ops fs t' (job_name u (id x)) i) f l') h'
                  | inr nm ↦
                      is.jobs_apart u k m i ne (other u (id k) i (inr (λ f. nk (cc f))) h')
                        (other u (id m) i (inr (λ f. nm (cc f))) l')
                ]
              ]
        ];
      }
