-- ===== src/Cpuset/Directories.antt =====
-- A small tree of cpusets that has the properties which the models of cpuset/ assume of libcpuset and
-- the kernel: a list of directories, the newest first, on a machine with four CPUs.
use mathlib.Core.Path.{subst}
use slurm_spank_plugins.Base.{
  str_eq, str_eq→eq, str_eq_refl, ◌⊎◌, ℕ, zero, suc, Bool, true, false, ◌&&◌, ◌==◌, ◌≡◌, ◌≢◌, sym,
  ap, refl, inl, inr, Option, none, some, List, [], ◌∷◌, arith, if◌then◌else◌, Bool-cases,
  Option-cases,
}
use slurm_spank_plugins.Cpuset.Instance.{Mask, masks}
use slurm_spank_plugins.Cpuset.Tree.{
  Part, slurm, id, orphan, hidden, other, Modified, modified, busy, broken, Name, Cset, Answer,
  changed, again, Member, CpusetLib,
}

abbrev part_eq : Part → Part → Bool
part_eq slurm slurm = true
part_eq (id m) (id n) = m == n
part_eq (orphan m) (orphan n) = m == n
part_eq hidden hidden = true
part_eq (other s) (other r) = str_eq s r
part_eq _ _ = false

part_eq_sound : (x y : Part) → part_eq x y ≡ true → x ≡ y
part_eq_sound slurm slurm e = refl
part_eq_sound (id m) (id n) e = ap id (ground arith)
part_eq_sound (orphan m) (orphan n) e = ap orphan (ground arith)
part_eq_sound hidden hidden e = refl
part_eq_sound (other s) (other r) e = ap other (str_eq→eq s r e)
part_eq_sound slurm (id n) e = cc
part_eq_sound slurm (orphan n) e = cc
part_eq_sound slurm hidden e = cc
part_eq_sound (id m) slurm e = cc
part_eq_sound (id m) (orphan n) e = cc
part_eq_sound (id m) hidden e = cc
part_eq_sound (orphan m) slurm e = cc
part_eq_sound (orphan m) (id n) e = cc
part_eq_sound (orphan m) hidden e = cc
part_eq_sound hidden slurm e = cc
part_eq_sound hidden (id n) e = cc
part_eq_sound hidden (orphan n) e = cc
part_eq_sound slurm (other s) e = cc
part_eq_sound (other s) slurm e = cc
part_eq_sound (id m) (other s) e = cc
part_eq_sound (other s) (id m) e = cc
part_eq_sound (orphan m) (other s) e = cc
part_eq_sound (other s) (orphan m) e = cc
part_eq_sound hidden (other s) e = cc
part_eq_sound (other s) hidden e = cc

part_eq_refl : (x : Part) → part_eq x x ≡ true
part_eq_refl slurm = refl
part_eq_refl (id n) = ground arith
part_eq_refl (orphan n) = ground arith
part_eq_refl hidden = refl
part_eq_refl (other s) = str_eq_refl s

abbrev name_eq : Name → Name → Bool
name_eq [] [] = true
name_eq (x ∷ m) (y ∷ n) = part_eq x y && name_eq m n
name_eq _ _ = false

name_eq_sound : (m n : Name) → name_eq m n ≡ true → m ≡ n
name_eq_sound [] [] e = refl
name_eq_sound [] (y ∷ n) e = cc
name_eq_sound (x ∷ m) [] e = cc
name_eq_sound (x ∷ m) (y ∷ n) e =
    let f = part_eq_sound x y (ground arith) in let g = name_eq_sound m n (ground arith) in cc

name_eq_refl : (n : Name) → name_eq n n ≡ true
name_eq_refl [] = refl
name_eq_refl (x ∷ n) = rw (part_eq_refl x) (name_eq_refl n)

abbrev pub Directories : Type 0
Directories = List (Name × Cset Mask)

-- Every mask that is read has four bits.
abbrev four_cpus : Cset Mask → Cset Mask
four_cpus c = record c { cpus = record { size = 4; bits = c.cpus.bits } }

four_cpus_same : (c : Cset Mask) → c.cpus.size ≡ 4 → four_cpus c ≡ c
four_cpus_same c e = ap (λ z. record c { cpus = record { size = z; bits = c.cpus.bits } }) (sym e)

abbrev pub look_up : Directories → Name → Option (Cset Mask)
look_up [] n = none
look_up ((m, c) ∷ t) n = if name_eq m n then some (four_cpus c) else look_up t n

abbrev names_in : Directories → Name → List Part
names_in [] p = []
names_in (([], c) ∷ t) p = names_in t p
names_in ((x ∷ q, c) ∷ t) p = if name_eq q p then x ∷ names_in t p else names_in t p

pub look_up_size :
    (t : Directories) (n : Name) (c : Cset Mask) → look_up t n ≡ some c → c.cpus.size ≡ 4
look_up_size [] n c e = cc
look_up_size ((m, d) ∷ t) n c e = elim (Bool-cases (name_eq m n)) [
  | inl f ↦
      let g : some (four_cpus d) ≡ some c = rw f at e in
      let h : four_cpus d ≡ c = cc g in ap (λ (x : Cset Mask). x.cpus.size) (sym h)
  | inr f ↦ look_up_size t n c (rw f at e)
]

look_up_new :
    (t : Directories) (n : Name) (c : Cset Mask)
    → c.cpus.size ≡ 4
    → (look_up ((n, c) ∷ t) n ≡ some c)
      × ((m : Name) → m ≢ n → look_up ((n, c) ∷ t) m ≡ look_up t m)
look_up_new t n c e = (
  rw (name_eq_refl n) (ap some (four_cpus_same c e)),
  λ m ne. elim (Bool-cases (name_eq n m)) [
    | inl f ↦ absurd (ne (sym (name_eq_sound n m f)))
    | inr f ↦ rw f refl
  ],
)

pub look_up_names :
    (t : Directories) (p : Name) (x : Part) (c : Cset Mask)
    → look_up t (x ∷ p) ≡ some c
    → Member x (names_in t p)
look_up_names [] p x c e = cc
look_up_names (([], d) ∷ t) p x c e = look_up_names t p x c e
look_up_names ((y ∷ q, d) ∷ t) p x c e = elim (Bool-cases (name_eq q p)) [
  | inl f ↦ elim (Bool-cases (part_eq y x)) [
    | inl g ↦ rw f (inl (sym (part_eq_sound y x g)))
    | inr g ↦ rw f (inr (look_up_names t p x c (rw (f, g) at e)))
  ]
  | inr f ↦ rw f (look_up_names t p x c (rest (part_eq y x) (rw f at e)))
]
  where
    rest :
        (b : Bool)
        → (if b && false then some (four_cpus d) else look_up t (x ∷ p)) ≡ some c
        → look_up t (x ∷ p) ≡ some c
    rest true e = e
    rest false e = e

abbrev has_no_cpus : Cset Mask
has_no_cpus = record {
  cpus = record { size = 4; bits = λ i. false };
  mems = record { size = 2; bits = λ i. false };
  notify_on_release = false;
}

abbrev make_new : Directories → Name → Cset Mask → Option Directories
make_new t n c = elim (look_up t n) [ none ↦ some ((n, c) ∷ t) | some d ↦ none ]

abbrev make_directory : Directories → Name → Answer Directories
make_directory t n = elim (look_up t n) [ none ↦ changed ((n, has_no_cpus) ∷ t) | some d ↦ again ]

-- The first attempt fails.
abbrev modify : ℕ → Directories → Name → Cset Mask → Modified Directories
modify zero t n c = busy t
modify (suc k) t n c = modified ((n, c) ∷ t)

pub modify_changes :
    (k : ℕ) (t t' : Directories) (n : Name) (c : Cset Mask)
    → c.cpus.size ≡ 4
    → modify k t n c ≡ modified t'
    → (look_up t' n ≡ some c) × ((m : Name) → m ≢ n → look_up t' m ≡ look_up t m)
modify_changes zero t t' n c sized e = cc
modify_changes (suc k) t t' n c sized e =
    let f : (n, c) ∷ t ≡ t' = cc e in
    subst (λ z. (look_up z n ≡ some c) × ((m : Name) → m ≢ n → look_up z m ≡ look_up t m)) f
      (look_up_new t n c sized)

pub modify_fails :
    (k : ℕ) (t t' : Directories) (n : Name) (c : Cset Mask)
    → c.cpus.size ≡ 4
    → (modify k t n c ≡ busy t') ⊎ (modify k t n c ≡ broken t')
    → ((m : Name) → m ≢ n → look_up t' m ≡ look_up t m)
      × ((look_up t' n ≡ look_up t n)
          ⊎ ((d : Cset Mask) × (d.cpus ≡ c.cpus) × (look_up t' n ≡ some d)))
modify_fails zero t t' n c sized (inl e) =
    let f : t ≡ t' = cc e in
    (λ m ne. ap (λ z. look_up z m) (sym f), inl (ap (λ z. look_up z n) (sym f)))
modify_fails zero t t' n c sized (inr e) = cc e
modify_fails (suc k) t t' n c sized (inl e) = cc e
modify_fails (suc k) t t' n c sized (inr e) = cc e

pub make_new_changes :
    (t t' : Directories) (n : Name) (c : Cset Mask)
    → c.cpus.size ≡ 4
    → make_new t n c ≡ some t'
    → (look_up t n ≡ none)
      × (look_up t' n ≡ some c)
      × ((m : Name) → m ≢ n → look_up t' m ≡ look_up t m)
make_new_changes t t' n c sized e = elim (Option-cases (look_up t n)) [
  | inr (d, f) ↦ absurd (cc (rw (make_new, f) at e))
  | inl f ↦
      let g : some ((n, c) ∷ t) ≡ some t' = rw (make_new, f) at e in
      let h : (n, c) ∷ t ≡ t' = cc g in
      let (now, others) = look_up_new t n c sized in
      (
        f,
        subst (λ z. look_up z n ≡ some c) h now,
        subst (λ z. (m : Name) → m ≢ n → look_up z m ≡ look_up t m) h others,
      )
]

pub make_directory_changes :
    (t t' : Directories) (n : Name)
    → make_directory t n ≡ changed t'
    → (look_up t n ≡ none)
      × ((c : Cset Mask) × (look_up t' n ≡ some c) × ((i : ℕ) → masks.isbitset c.cpus i ≡ false))
      × ((m : Name) → m ≢ n → look_up t' m ≡ look_up t m)
make_directory_changes t t' n e = elim (Option-cases (look_up t n)) [
  | inr (d, f) ↦ absurd (cc (rw (make_directory, f) at e))
  | inl f ↦
      let g : changed ((n, has_no_cpus) ∷ t) ≡ changed t' = rw (make_directory, f) at e in
      let h : (n, has_no_cpus) ∷ t ≡ t' = cc g in
      let (now, others) = look_up_new t n has_no_cpus refl in
      (
        f,
        (has_no_cpus, subst (λ z. look_up z n ≡ some has_no_cpus) h now, λ i. ground arith),
        subst (λ z. (m : Name) → m ≢ n → look_up z m ≡ look_up t m) h others,
      )
]

pub make_directory_exists :
    (t : Directories) (n : Name)
    → make_directory t n ≡ again
    → (c : Cset Mask) × (look_up t n ≡ some c)
make_directory_exists t n e = elim (Option-cases (look_up t n)) [
  | inr has ↦ has
  | inl f ↦ absurd (cc (rw (make_directory, f) at e))
]

abbrev pub directories : CpusetLib masks Directories
directories = record {
  query = look_up;
  read_names = λ t n. some (names_in t n);
  cpuset_create = make_new;
  cpuset_modify = modify;
  mkdir = make_directory;
  rename = λ t a b. none;
  kill_all = λ t a. t;
  localmems = λ cpus. some (record { size = 2; bits = λ i. true });
  getmems = some (record { size = 2; bits = λ i. true });
  size = 4;
  query-size = look_up_size;
  read_names-query = λ t n c e. (names_in t n, refl);
  query-read_names = λ t p x c l e f. subst (Member x) (cc f) (look_up_names t p x c e);
  create-query = make_new_changes;
  modify-query = modify_changes;
  modify_failed = modify_fails;
  mkdir-query = make_directory_changes;
  mkdir_exists = make_directory_exists;
  rename_none = λ t a b e. refl;
  rename-query = λ t t' u e. cc e;
  kill-query = λ t a n. refl;
}
