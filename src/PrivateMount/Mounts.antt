-- ===== src/PrivateMount/Mounts.antt =====
-- `_mkdir_p` makes the directory, and `_private_mount` mounts what was asked for (private-mount.c).
use slurm_spank_plugins.Base.{
  ℕ, zero, suc, ◌<◌, Bool, true, false, ◌≡◌, ◌⊎◌, refl, arith, inl, inr, some, Option-cases,
  Bool-cases, List, [], ◌∷◌, All, Bytes,
}
use slurm_spank_plugins.PrivateMount.System.{Made, made, enoent, eexist, failed, System}
use slurm_spank_plugins.PrivateMount.Plugin.{
  Ended, ended, stuck, mkdir_again, mkdir_p, mount_one, mount_all, private_mount,
}

module _ {S : Type 0} (sys : System S) where
  open sys use {
    unshare, bind_fstab, lookup, mkdir, is_dir, dirname, mount_n, is_mounted, statfs, depth,
    mkdir-is_dir, enoent-depth, mount-is_mounted, mkdir-keeps, mount-keeps,
  }

  -- What is mounted before is mounted after.
  abbrev pub Keeps : S → S → Type 0
  Keeps s s' = (name : Bytes) → is_mounted s name ≡ true → is_mounted s' name ≡ true

  -- A call returns; the mounts stay, and on success the directory is there.
  abbrev pub Makes : S → Bytes → Ended S → Type 0
  Makes s path r =
      (s' : S) × (good : Bool) × (r ≡ ended s' good)
      × Keeps s s'
      × ((good ≡ false) ⊎ (is_dir s' path ≡ true))

  mkdir_again-Makes : (s : S) (path : Bytes) → Makes s path (mkdir_again sys s path)
  unfolding mkdir_again
  mkdir_again-Makes s path = go (mkdir s path) refl
    where
      go : (m : Made S) → mkdir s path ≡ m → Makes s path (mkdir_again sys s path)
      go (made s') e = (
        s',
        true,
        rw (mkdir_again, e) refl,
        λ n h. mkdir-keeps s s' path n e h,
        inr (mkdir-is_dir s s' path e),
      )
      go enoent e = (s, false, rw (mkdir_again, e) refl, λ n h. h, inl refl)
      go eexist e = (s, false, rw (mkdir_again, e) refl, λ n h. h, inl refl)
      go failed e = (s, false, rw (mkdir_again, e) refl, λ n h. h, inl refl)

  -- `mkdir` is called for the directory again, unless the one above could not be made.
  go_on :
      (s : S) (path above : Bytes) (r : Ended S)
      → Makes s above r
      → Makes s path (elim r [
        | ended s1 good ↦ elim good [ true ↦ mkdir_again sys s1 path | false ↦ ended s1 false ]
        | stuck ↦ stuck
      ])
  go_on s path above r (s1, false, e, keeps, _) = rw e (s1, false, refl, keeps, inl refl)
  go_on s path above r (s1, true, e, keeps, _) =
      let (s2, good, f, more, result) = mkdir_again-Makes s1 path in
      rw e (s2, good, f, λ n h. more n (keeps n h), result)

  -- With more fuel than the path has names `_mkdir_p` returns; what was mounted still is, and if it
  -- returns 0, the path is a directory.
  pub mkdir_p-makes :
      (fuel : ℕ) (s : S) (path : Bytes)
      → depth path < fuel
      → (s' : S) × (good : Bool) × (mkdir_p sys fuel s path ≡ ended s' good)
        × ((name : Bytes) → is_mounted s name ≡ true → is_mounted s' name ≡ true)
        × ((good ≡ false) ⊎ (is_dir s' path ≡ true))
  unfolding mkdir_p
  mkdir_p-makes zero s path lt = absurd (omega arith)
  mkdir_p-makes (suc fuel) s path lt =
      let above : depth (dirname path) < fuel
          → Makes s (dirname path) (mkdir_p sys fuel s (dirname path)) =
        λ less. mkdir_p-makes fuel s (dirname path) less in
      go above (mkdir s path) refl
    where
      go :
          (depth (dirname path) < fuel → Makes s (dirname path) (mkdir_p sys fuel s (dirname path)))
          → (m : Made S) → mkdir s path ≡ m
          → Makes s path (mkdir_p sys (suc fuel) s path)
      go above (made s') e = (
        s',
        true,
        rw (mkdir_p, e) refl,
        λ n h. mkdir-keeps s s' path n e h,
        inr (mkdir-is_dir s s' path e),
      )
      go above enoent e =
          rw (mkdir_p, e)
            (go_on s path (dirname path) (mkdir_p sys fuel s (dirname path))
              (above (omega (arith, enoent-depth s path e))))
      go above eexist e = elim (Bool-cases (is_dir s path)) [
        | inl there ↦ (s, true, rw (mkdir_p, e, there) refl, λ n h. h, inr there)
        | inr gone ↦ (s, false, rw (mkdir_p, e, gone) refl, λ n h. h, inl refl)
      ]
      go above failed e = (s, false, rw (mkdir_p, e) refl, λ n h. h, inl refl)

  -- A call returns; the mounts stay, and on success the names are mounted.
  abbrev Mounted : S → List Bytes → Ended S → Type 0
  Mounted s names r =
      (s' : S) × (good : Bool) × (r ≡ ended s' good)
      × Keeps s s'
      × ((good ≡ false) ⊎ All (λ n. is_mounted s' n ≡ true) names)

  mount_one_mounts :
      (fuel : ℕ) (s : S) (name : Bytes)
      → depth name < fuel
      → Mounted s (name ∷ []) (mount_one sys fuel s name)
  unfolding mount_one
  mount_one_mounts fuel s name lt = elim (Bool-cases (lookup s name)) [
    | inr unknown ↦ (s, false, rw (mount_one, unknown) refl, λ n h. h, inl refl)
    | inl known ↦
        let (s1, there, e, keeps, _) = mkdir_p-makes fuel s name lt in
        elim (Bool-cases there) [
          | inr f ↦ (s1, false, rw (mount_one, known, e, f) refl, keeps, inl refl)
          | inl t ↦ elim (Option-cases (mount_n s1 name)) [
            | inl f ↦ (s1, false, rw (mount_one, known, e, t, f) refl, keeps, inl refl)
            | inr (s2, f) ↦ (
              s2,
              statfs s2 name,
              rw (mount_one, known, e, t, f) refl,
              λ n h. mount-keeps s1 s2 name n f (keeps n h),
              inr (mount-is_mounted s1 s2 name f, tt),
            )
          ]
        ]
  ]

  mount_all_mounts :
      (fuel : ℕ) (s : S) (names : List Bytes)
      → All (λ n. depth n < fuel) names
      → Mounted s names (mount_all sys fuel s names)
  unfolding mount_all
  mount_all_mounts fuel s [] below = (s, true, refl, λ n h. h, inr tt)
  mount_all_mounts fuel s (name ∷ names) below =
      let (s1, good, e, keeps, result) = mount_one_mounts fuel s name below.0 in
      let (s2, done, f, more, later) = mount_all_mounts fuel s1 names below.1 in
      elim (Bool-cases good) [
        | inr bad ↦ (s1, false, rw (mount_all, e, bad) refl, keeps, inl refl)
        | inl fine ↦ (
          s2,
          done,
          rw (mount_all, e, fine) f,
          λ n h. more n (keeps n h),
          elim later [
            | inl g ↦ inl g
            | inr rest ↦ elim result [
              | inl g ↦ absurd (cc (fine, g))
              | inr now ↦ inr (more name now.0, rest)
            ]
          ],
        )
      ]

  -- With more fuel than any of the names that were asked for is deep, `_private_mount` returns; if it
  -- returns 0, the mount name space is a private one and every name that was asked for is mounted.
  pub private_mount-mounts :
      (fuel : ℕ) (s : S) (names : List Bytes)
      → All (λ n. depth n < fuel) names
      → (s' : S) × (good : Bool) × (private_mount sys fuel (some names) s ≡ ended s' good)
        × ((good ≡ false)
            ⊎ (((s1 : S) × (unshare s ≡ some s1)) × All (λ n. is_mounted s' n ≡ true) names))
  unfolding private_mount
  private_mount-mounts fuel s names below = elim (Option-cases (unshare s)) [
    | inl e ↦ (s, false, rw (private_mount, e) refl, inl refl)
    | inr (s1, e) ↦ elim (Option-cases (bind_fstab s1)) [
      | inl f ↦ (s1, false, rw (private_mount, e, f) refl, inl refl)
      | inr (s2, f) ↦
          let (s', good, g, _, result) = mount_all_mounts fuel s2 names below in
          (
            s',
            good,
            rw (private_mount, e, f) g,
            elim result [ inl bad ↦ inl bad | inr all ↦ inr ((s1, e), all) ],
          )
    ]
  ]
