-- ===== src/PrivateMount/Tests.antt =====
-- The plugin of private-mount.c on a small system: directories and mounts by name, where a name holds
-- the names above it as its tail, the user "a" has the number 1, and "b" is in the table.
use slurm_spank_plugins.Base.{
  ◌<◌, Bool, true, false, ◌||◌, ◌≡◌, ◌⊎◌, ap, refl, arith, Option, none, some, List, [], ◌∷◌, All,
  Bytes, if◌then◌else◌, if_rule, str_eq, str_eq_refl, strip_prefix, codes, length,
}
use mathlib.Core.Path.{subst}
use slurm_spank_plugins.PrivateMount.System.{Made, made, enoent, eexist, System}
use slurm_spank_plugins.PrivateMount.Plugin.{
  ns_job, Plugin, fresh, ended, mkdir_p, mkdir_again, mount_one, mount_all, private_mount,
  slurm_spank_init_post_opt, slurm_spank_init, parse_args, allows, opt_private_mount, all_known,
}
use slurm_spank_plugins.PrivateMount.Mounts.{mkdir_p-makes, private_mount-mounts}
use slurm_spank_plugins.PrivateMount.Allowed.{
  init, mount_option, post_opt, step, Reaches, start, next, Fits, Reaches-Fits,
}

abbrev member : Bytes → List Bytes → Bool
member n [] = false
member n (m ∷ ms) = str_eq n m || member n ms

-- The directories, the mounts, and whether the name space is private.
abbrev Files : Type 0
Files = List Bytes × List Bytes × Bool

abbrev above : Bytes → Bytes
above [] = []
above (c ∷ p) = p

abbrev make : Files → Bytes → Made Files
make s [] = eexist
make s (c ∷ p) =
    if member (c ∷ p) s.0
    then eexist
    else if member p s.0
    then made ((c ∷ p) ∷ s.0, s.1, s.2)
    else enoent

make_made :
    (s s' : Files) (path : Bytes) → make s path ≡ made s' → (member path s'.0 ≡ true) × (s.1 ≡ s'.1)
make_made s s' [] e = cc e
make_made s s' (c ∷ p) e =
    if_rule (λ r. r ≡ made s' → (member (c ∷ p) s'.0 ≡ true) × (s.1 ≡ s'.1)) (member (c ∷ p) s.0) _
      _ (λ _ f. absurd (cc f))
      (λ _.
        if_rule (λ r. r ≡ made s' → (member (c ∷ p) s'.0 ≡ true) × (s.1 ≡ s'.1)) (member p s.0) _ _
          (λ _ f.
            let g : ((c ∷ p) ∷ s.0, s.1, s.2) ≡ s' = cc f in
            let here = str_eq_refl (c ∷ p) in
            (subst (λ z. member (c ∷ p) z.0 ≡ true) g (ground arith), ap (λ (z : Files). z.1) g))
          (λ _ f. absurd (cc f)))
      e

make_enoent : (s : Files) (path : Bytes) → make s path ≡ enoent → length (above path) < length path
make_enoent s [] e = cc e
make_enoent s (c ∷ p) e = omega arith

abbrev mounts_it : Files → Bytes → Option Files
mounts_it s n = if member n s.1 then none else some (s.0, n ∷ s.1, s.2)

mounts_it_lem : (s s' : Files) (n : Bytes) → mounts_it s n ≡ some s' → n ∷ s.1 ≡ s'.1
mounts_it_lem s s' n e =
    if_rule (λ r. r ≡ some s' → n ∷ s.1 ≡ s'.1) (member n s.1) _ _ (λ _ f. absurd (cc f))
      (λ _ f. let g : (s.0, n ∷ s.1, s.2) ≡ s' = cc f in ap (λ (z : Files). z.1) g) e

abbrev files : System Files
files = record {
  unshare = λ s. some (s.0, s.1, true);
  bind_fstab = λ s. some s;
  lookup = λ s n. member n (codes "b" ∷ codes "ba" ∷ []);
  mkdir = make;
  is_dir = λ s n. member n s.0;
  dirname = above;
  mount_n = mounts_it;
  is_mounted = λ s n. member n s.1;
  statfs = λ s n. member n s.1;
  getpwnam = λ n. if str_eq n (codes "a") then some 1 else none;
  list_split = λ n. n ∷ [];
  depth = length;
  mkdir-is_dir = λ s s' p e. (make_made s s' p e).0;
  enoent-depth = make_enoent;
  mount-is_mounted = λ s s' n e.
      subst (λ z. member n z ≡ true) (mounts_it_lem s s' n e)
        (let here = str_eq_refl n in ground arith);
  mkdir-keeps = λ s s' p n e h. subst (λ z. member n z ≡ true) (make_made s s' p e).1 h;
  mount-keeps =
      λ s s' m n e h. subst (λ z. member n z ≡ true) (mounts_it_lem s s' m e) (ground arith);
}

abbrev only_root : Files
only_root = ([] ∷ [], [], false)

mkdir_p-makes_example :
    (s' : Files) × (good : Bool) × (mkdir_p files 3 only_root (codes "ba") ≡ ended s' good)
    × ((name : Bytes) → member name [] ≡ true → member name s'.1 ≡ true)
    × ((good ≡ false) ⊎ (member (codes "ba") s'.0 ≡ true))
mkdir_p-makes_example = mkdir_p-makes files 3 only_root (codes "ba") (omega arith)

-- The directory above is made first.
mkdir_p_runs :
    mkdir_p files 3 only_root (codes "ba")
    ≡ ended (codes "ba" ∷ codes "a" ∷ [] ∷ [], [], false) true
unfolding mkdir_p mkdir_again str_eq
mkdir_p_runs = refl

private_mount-mounts_example :
    (s' : Files) × (good : Bool) × (private_mount files 3 (some (codes "ba" ∷ [])) only_root
      ≡ ended s' good)
    × ((good ≡ false)
        ⊎ (((s1 : Files) × (some (only_root.0, only_root.1, true) ≡ some s1))
            × All (λ n. member n s'.1 ≡ true) (codes "ba" ∷ [])))
private_mount-mounts_example =
    private_mount-mounts files 3 only_root (codes "ba" ∷ []) (omega arith, tt)

abbrev allowed_plugin : Plugin
allowed_plugin = record fresh { allowed = true }

abbrev option_given : Plugin
option_given = record { ns_mode = ns_job; mounts = some (codes "b" ∷ []); allowed = true }

-- The user is given leave, asks for a file system, and has it.
mounted_at_last :
    Reaches files 3 (fresh, only_root) (option_given, (codes "b" ∷ [] ∷ [], codes "b" ∷ [], true))
unfolding step slurm_spank_init parse_args allows strip_prefix str_eq opt_private_mount all_known
    slurm_spank_init_post_opt private_mount mount_all mount_one mkdir_p
mounted_at_last =
    next
      (next (next start (init (some 1) (codes "allowuser=a" ∷ [])) (allowed_plugin, only_root) refl)
        (mount_option (some (codes "b"))) (option_given, only_root) refl)
      (post_opt true) (option_given, (codes "b" ∷ [] ∷ [], codes "b" ∷ [], true)) refl

Reaches-Fits_example :
    Fits files only_root (option_given, (codes "b" ∷ [] ∷ [], codes "b" ∷ [], true))
Reaches-Fits_example =
    Reaches-Fits files 3 only_root (option_given, (codes "b" ∷ [] ∷ [], codes "b" ∷ [], true))
      mounted_at_last
