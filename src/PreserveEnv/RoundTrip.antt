-- ===== src/PreserveEnv/RoundTrip.antt =====
-- What is preserved in srun comes back in the task (preserve-env.c).
use slurm_spank_plugins.Base.{
  ◌<◌, ◌==◌, true, false, leb, ◌≡◌, ◌⊎◌, ◌∙◌, sym, ap, refl, arith, inl, inr, some, Bool-cases,
  List, [], ◌∷◌, ◌++◌, Bytes, codes, str_eq, str_eq_refl, str_eq→eq, length, strip_prefix,
}
use mathlib.Core.Path.{subst}
use slurm_spank_plugins.PreserveEnv.Environment.{EnvLib, Member, IsPlain, variable}
use slurm_spank_plugins.PreserveEnv.Plugin.{
  kept, PreserveEnv, starts_with, env_name, env_value, is_preserved, is_unwanted, collect,
  drop_save, preserve_slurm_var, preserve_all, preserve_slurm_env, unset_all, restore_all,
  slurm_spank_task_init,
}
use slurm_spank_plugins.PreserveEnv.Entries.{
  env_name-variable, env_value-variable, env_value-some, prefix_inside, Member-collect,
  collect-Member,
}

abbrev pub saved : Bytes → Bytes
saved n = codes "save_" ++ n

IsPlain-saved : (n : Bytes) → IsPlain n → IsPlain (saved n)
IsPlain-saved n plain = (refl, (refl, (refl, (refl, (refl, plain)))))

IsPlain-drop_save : (n : Bytes) → IsPlain n → IsPlain (drop_save n)
IsPlain-drop_save [] plain = tt
IsPlain-drop_save (s ∷ []) plain = tt
IsPlain-drop_save (s ∷ a ∷ []) plain = tt
IsPlain-drop_save (s ∷ a ∷ v ∷ []) plain = tt
IsPlain-drop_save (s ∷ a ∷ v ∷ e ∷ []) plain = tt
IsPlain-drop_save (s ∷ a ∷ v ∷ e ∷ u ∷ rest) plain = plain.1.1.1.1.1

module _ {E : Type 0} (lib : EnvLib E) where
  open lib use {
    entries, getenv, setenv, unsetenv, getenv-setenv, getenv-unsetenv, entries-getenv,
    getenv-entries,
  }

  -- An entry of an environment.
  record IsEntry (e : E) (x : Bytes) : Type 0 where
    name : Bytes
    value : Bytes
    text : x ≡ variable name value
    plain : IsPlain name
    there : getenv e name ≡ some value
    read : Bytes
    reads : env_value x ≡ some read
    named : env_name x ≡ name

  entries-IsEntry : (e : E) (x : Bytes) → Member x (entries e) → IsEntry e x
  entries-IsEntry e x m =
      let (n, v, text, plain, there) = entries-getenv e x m in
      let (w, f) = env_value-some n v plain in
      record {
        name = n;
        value = v;
        text = text;
        plain = plain;
        there = there;
        read = w;
        reads = ap env_value text ∙ f;
        named = ap env_name text ∙ env_name-variable n v plain;
      }

  -- The entry of a variable whose value has no `=`.
  same_value :
      (e : E) (x n v : Bytes) (is : IsEntry e x)
      → getenv e n ≡ some v
      → IsPlain v
      → is.name ≡ n
      → is.read ≡ v
  same_value e x n v is there plain same =
      let f : some is.value ≡ some v = sym is.there ∙ ap (getenv e) same ∙ there in
      let g : is.value ≡ v = cc f in
      let h = env_value-variable is.name v is.plain plain in
      let r : some is.read ≡ some v =
        sym is.reads ∙ ap env_value (is.text ∙ ap (λ z. variable is.name z) g) ∙ h in
      cc r

  setenv_same : (e : E) (n v : Bytes) → IsPlain n → getenv (setenv e n v) n ≡ some v
  setenv_same e n v plain = getenv-setenv e n v n plain ∙ rw (str_eq_refl n) refl

  setenv_other :
      (e : E) (n v m : Bytes)
      → IsPlain n
      → str_eq n m ≡ false
      → getenv (setenv e n v) m ≡ getenv e m
  setenv_other e n v m plain f = getenv-setenv e n v m plain ∙ rw f refl

  unsetenv_other : (e : E) (n m : Bytes) → str_eq n m ≡ false → getenv (unsetenv e n) m ≡ getenv e m
  unsetenv_other e n m f = getenv-unsetenv e n m ∙ rw f refl

  preserve_all_keeps :
      (e0 e : E) (n v : Bytes) (l : List Bytes)
      → ((x : Bytes) → Member x l → IsEntry e0 x × (length (env_name x) < 1018))
      → IsPlain n
      → IsPlain v
      → getenv e0 n ≡ some v
      → (getenv e (saved n) ≡ some v) ⊎ Member (variable n v) l
      → (e' : E) × (preserve_all lib e l ≡ kept e' true) × (getenv e' (saved n) ≡ some v)
  unfolding preserve_all preserve_slurm_var
  preserve_all_keeps e0 e n v [] each plain plain_v there (inl done) = (e, refl, done)
  preserve_all_keeps e0 e n v [] each plain plain_v there (inr m) = absurd m
  preserve_all_keeps e0 e n v (x ∷ l) each plain plain_v there todo =
      let (is, short) = each x (inl refl) in
      let e1 = setenv e (saved (env_name x)) is.read in
      let step : preserve_slurm_var lib e x ≡ kept e1 true =
        let small : leb 1023 (length (saved (env_name x))) ≡ false = ground arith in
        rw (preserve_slurm_var, small, is.reads) refl in
      let next : (getenv e1 (saved n) ≡ some v) ⊎ Member (variable n v) l =
        elim (Bool-cases (str_eq (saved (env_name x)) (saved n))) [
          | inl f ↦
              let g : saved (env_name x) ≡ saved n = str_eq→eq (saved (env_name x)) (saved n) f in
              let h : env_name x ≡ n = ap drop_save g in
              inl (
                ap (λ z. getenv (setenv e z is.read) (saved n)) g
                ∙ setenv_same e (saved n) is.read (IsPlain-saved n plain)
                ∙ ap some (same_value e0 x n v is there plain_v (sym is.named ∙ h)))
          | inr f ↦ elim todo [
            | inl done ↦ inl (
                setenv_other e (saved (env_name x)) is.read (saved n)
                  (IsPlain-saved (env_name x) (subst IsPlain (sym is.named) is.plain)) f
                ∙ done)
            | inr (inl same) ↦
                let h : env_name x ≡ n = ap env_name (sym same) ∙ env_name-variable n v plain in
                absurd (cc (ap (λ z. str_eq (saved z) (saved n)) h, str_eq_refl (saved n), f))
            | inr (inr m) ↦ inr m
          ]
        ] in
      let (e', later, result) =
        preserve_all_keeps e0 e1 n v l (λ y m. each y (inr m)) plain plain_v there next in
      (e', rw (preserve_all, step) later, result)

  -- A variable that is looked for is kept under its other name.
  preserve_keeps :
      (e : E) (n v : Bytes)
      → ((x : Bytes) → Member x (entries e) → length (env_name x) < 1018)
      → IsPlain n
      → IsPlain v
      → is_preserved (variable n v) ≡ true
      → getenv e n ≡ some v
      → (e' : E) × (preserve_slurm_env lib e ≡ kept e' true) × (getenv e' (saved n) ≡ some v)
  unfolding preserve_slurm_env
  preserve_keeps e n v short plain plain_v wanted there =
      preserve_all_keeps e e n v (collect is_preserved (entries e) [])
        (λ x m. elim (collect-Member is_preserved x (entries e) [] m) [
          | inl none_there ↦ absurd none_there
          | inr (k, f) ↦ (entries-IsEntry e x k, short x k)
        ])
        plain plain_v there
        (inr (
          Member-collect is_preserved (variable n v) (entries e) [] wanted
            (inl (getenv-entries e n v there))))

  -- A name behind which SLURM_ stands is not one that begins with save_ or MPIRUN_.
  unwanted_other :
      (n x : Bytes) (e : E) (is : IsEntry e x)
      → is_unwanted x ≡ true
      → str_eq is.name (saved n) ≡ false
  unfolding is_unwanted
  unwanted_other n x e is bad = elim (Bool-cases (starts_with (codes "SLURM_") x)) [
    | inl f ↦
        let (r, g) =
          prefix_inside (codes "SLURM_") is.name is.value plain_slurm
            (ap (starts_with (codes "SLURM_")) (sym is.text) ∙ f) in
        ap (λ z. str_eq z (saved n)) g ∙ unfold str_eq in refl
    | inr f ↦
        let (r, g) =
          prefix_inside (codes "MPIRUN_") is.name is.value plain_mpirun
            (ap (starts_with (codes "MPIRUN_")) (sym is.text) ∙ (rw (is_unwanted, f) at bad)) in
        ap (λ z. str_eq z (saved n)) g ∙ unfold str_eq in refl
  ]
    where
      plain_slurm : IsPlain (codes "SLURM_")
      plain_slurm = (refl, (refl, (refl, (refl, (refl, (refl, tt))))))

      plain_mpirun : IsPlain (codes "MPIRUN_")
      plain_mpirun = (refl, (refl, (refl, (refl, (refl, (refl, (refl, tt)))))))

  unset_all_leaves :
      (e0 e : E) (n v : Bytes) (l : List Bytes)
      → ((x : Bytes) → Member x l → IsEntry e0 x × (is_unwanted x ≡ true))
      → getenv e (saved n) ≡ some v
      → getenv (unset_all lib e l) (saved n) ≡ some v
  unfolding unset_all
  unset_all_leaves e0 e n v [] each there = there
  unset_all_leaves e0 e n v (x ∷ l) each there =
      let (is, bad) = each x (inl refl) in
      let f = ap (λ z. str_eq z (saved n)) is.named ∙ unwanted_other n x e0 is bad in
      unset_all_leaves e0 (unsetenv e (env_name x)) n v l (λ y m. each y (inr m))
        (unsetenv_other e (env_name x) (saved n) f ∙ there)

  saved_shape :
      (x : Bytes) (e : E) (is : IsEntry e x)
      → starts_with (codes "save_SLURM_") x ≡ true
      → (r : Bytes) × (env_name x ≡ codes "save_SLURM_" ++ r)
  saved_shape x e is h =
      let (r, g) =
        prefix_inside (codes "save_SLURM_") is.name is.value plain
          (ap (starts_with (codes "save_SLURM_")) (sym is.text) ∙ h) in
      (r, is.named ∙ g)
    where
      plain : IsPlain (codes "save_SLURM_")
      plain =
          (refl, (refl, (refl, (refl, (refl, (refl, (refl, (refl, (refl, (refl, (refl, tt)))))))))))

  restored :
      (e0 e : E) (n v r x : Bytes) (is : IsEntry e0 x)
      → n ≡ codes "SLURM_" ++ r
      → starts_with (codes "save_SLURM_") x ≡ true
      → IsPlain n
      → IsPlain v
      → getenv e0 (saved n) ≡ some v
      → (getenv e n ≡ some v) ⊎ (env_name x ≡ saved n)
      → getenv (unsetenv (setenv e (drop_save (env_name x)) is.read) (env_name x)) n ≡ some v
  restored e0 e n v r x is shape hit plain plain_v there todo =
      let (q, g) = saved_shape x e0 is hit in
      let apart : str_eq (env_name x) n ≡ false =
        ap (λ z. str_eq z n) g
        ∙ ap (λ z. str_eq (codes "save_SLURM_" ++ q) z) shape
        ∙ unfold str_eq in refl in
      let back : saved (drop_save (env_name x)) ≡ env_name x =
        ap (λ z. saved (drop_save z)) g ∙ sym g in
      unsetenv_other (setenv e (drop_save (env_name x)) is.read) (env_name x) n apart
      ∙ (elim (Bool-cases (str_eq (drop_save (env_name x)) n)) [
        | inl f ↦
            let h : drop_save (env_name x) ≡ n = str_eq→eq (drop_save (env_name x)) n f in
            let k : is.name ≡ saved n = sym is.named ∙ sym back ∙ ap saved h in
            ap (λ z. getenv (setenv e z is.read) n) h
            ∙ setenv_same e n is.read plain
            ∙ ap some (same_value e0 x (saved n) v is there plain_v k)
        | inr f ↦ elim todo [
          | inl done ↦
              setenv_other e (drop_save (env_name x)) is.read n
                (IsPlain-drop_save (env_name x) (subst IsPlain (sym is.named) is.plain)) f
              ∙ done
          | inr now ↦ absurd (cc (ap (λ z. str_eq (drop_save z) n) now, str_eq_refl n, f))
        ]
      ])

  restore_all_sets :
      (e0 e : E) (n v r : Bytes) (l : List Bytes)
      → ((x : Bytes) → Member x l → IsEntry e0 x × (starts_with (codes "save_SLURM_") x ≡ true))
      → n ≡ codes "SLURM_" ++ r
      → IsPlain n
      → IsPlain v
      → getenv e0 (saved n) ≡ some v
      → (getenv e n ≡ some v) ⊎ Member (variable (saved n) v) l
      → (e' : E) × (restore_all lib e l ≡ some e') × (getenv e' n ≡ some v)
  unfolding restore_all
  restore_all_sets e0 e n v r [] each shape plain plain_v there (inl done) = (e, refl, done)
  restore_all_sets e0 e n v r [] each shape plain plain_v there (inr m) = absurd m
  restore_all_sets e0 e n v r (x ∷ l) each shape plain plain_v there todo =
      let (is, hit) = each x (inl refl) in
      let e1 = unsetenv (setenv e (drop_save (env_name x)) is.read) (env_name x) in
      let after : (getenv e n ≡ some v) ⊎ (env_name x ≡ saved n) → getenv e1 n ≡ some v =
        λ now. restored e0 e n v r x is shape hit plain plain_v there now in
      let next : (getenv e1 n ≡ some v) ⊎ Member (variable (saved n) v) l = elim todo [
        | inl done ↦ inl (after (inl done))
        | inr (inl same) ↦ inl (
            after (
              inr (ap env_name (sym same) ∙ env_name-variable (saved n) v (IsPlain-saved n plain))))
        | inr (inr m) ↦ inr m
      ] in
      let (e', later, result) =
        restore_all_sets e0 e1 n v r l (λ y m. each y (inr m)) shape plain plain_v there next in
      (e', rw (restore_all, is.reads) later, result)

  saved_prefix :
      (n v : Bytes)
      → starts_with (codes "SLURM_") (variable n v) ≡ true
      → starts_with (codes "save_SLURM_") (variable (saved n) v) ≡ true
  unfolding starts_with strip_prefix
  saved_prefix n v h = h

  task_init_restores :
      (p : PreserveEnv) (e : E) (n v : Bytes)
      → p.enabled ≡ true
      → IsPlain n
      → IsPlain v
      → starts_with (codes "SLURM_") (variable n v) ≡ true
      → getenv e (saved n) ≡ some v
      → (e' : E) × (slurm_spank_task_init lib p e ≡ some e') × (getenv e' n ≡ some v)
  unfolding slurm_spank_task_init
  task_init_restores p e n v on plain plain_v wanted there =
      let e1 = unset_all lib e (collect is_unwanted (entries e) []) in
      let left : getenv e1 (saved n) ≡ some v =
        unset_all_leaves e e n v (collect is_unwanted (entries e) [])
          (λ x m. elim (collect-Member is_unwanted x (entries e) [] m) [
            | inl none_there ↦ absurd none_there
            | inr (k, f) ↦ (entries-IsEntry e x k, f)
          ])
          there in
      let (r, shape) = prefix_inside (codes "SLURM_") n v plain_slurm wanted in
      let (e', runs, result) =
        restore_all_sets e1 e1 n v r (collect (starts_with (codes "save_SLURM_")) (entries e1) [])
          (λ x m. elim (collect-Member (starts_with (codes "save_SLURM_")) x (entries e1) [] m) [
            | inl none_there ↦ absurd none_there
            | inr (k, f) ↦ (entries-IsEntry e1 x k, f)
          ])
          shape plain plain_v left
          (inr (
            Member-collect (starts_with (codes "save_SLURM_")) (variable (saved n) v) (entries e1)
              [] (saved_prefix n v wanted) (inl (getenv-entries e1 (saved n) v left)))) in
      (e', rw (slurm_spank_task_init, on) runs, result)
    where
      plain_slurm : IsPlain (codes "SLURM_")
      plain_slurm = (refl, (refl, (refl, (refl, (refl, (refl, tt))))))

  preserved_slurm : (x : Bytes) → is_preserved x ≡ true → starts_with (codes "SLURM_") x ≡ true
  unfolding is_preserved
  preserved_slurm x h = ground arith

  -- The option is given to srun, where every variable has a name that is short enough, and a variable that
  -- is preserved has a value without `=`. Whatever srun and slurmd do to the environment on the way
  -- but for the copy that was made, the task with the option has the variable, with the value of old.
  pub task_init-preserve_slurm_env :
      (p : PreserveEnv) (e : E) (way : E → E) (n v : Bytes)
      → p.enabled ≡ true
      → ((x : Bytes) → Member x (entries e) → length (env_name x) < 1018)
      → ((e1 : E) → getenv (way e1) (saved n) ≡ getenv e1 (saved n))
      → IsPlain n
      → IsPlain v
      → is_preserved (variable n v) ≡ true
      → getenv e n ≡ some v
      → (e1 e2 : E) × (preserve_slurm_env lib e ≡ kept e1 true)
        × (slurm_spank_task_init lib p (way e1) ≡ some e2)
        × (getenv e2 n ≡ some v)
  task_init-preserve_slurm_env p e way n v on short safe plain plain_v wanted there =
      let (e1, keeps, copy) = preserve_keeps e n v short plain plain_v wanted there in
      let (e2, runs, result) =
        task_init_restores p (way e1) n v on plain plain_v (preserved_slurm (variable n v) wanted)
          (safe e1 ∙ copy) in
      (e1, e2, keeps, runs, result)

  env_value_behind : (n rest b : Bytes) → env_value rest ≡ some b → env_value (n ++ rest) ≡ some b
  unfolding env_value
  env_value_behind [] rest b e = e
  env_value_behind (c ∷ n) rest b e = elim (Bool-cases (c == b'=')) [
    | inl f ↦ rw (f, env_value_behind n rest b e) refl
    | inr f ↦ rw f (env_value_behind n rest b e)
  ]

  -- Of a value with `=` in it only what stands behind the last one is preserved, where the name has no
  -- `=` and is short enough.
  pub preserve_slurm_var_cuts :
      (e : E) (n a b : Bytes)
      → IsPlain n
      → IsPlain b
      → length n < 1018
      → preserve_slurm_var lib e (variable n (a ++ (b'=' ∷ b))) ≡ kept (setenv e (saved n) b) true
  unfolding preserve_slurm_var
  preserve_slurm_var_cuts e n a b plain plain_b short =
      let value =
        env_value_behind n (b'=' ∷ (a ++ (b'=' ∷ b))) b
          (env_value_behind (b'=' ∷ a) (b'=' ∷ b) b (env_value-variable [] b tt plain_b)) in
      let named = env_name-variable n (a ++ (b'=' ∷ b)) plain in
      let short' : length (env_name (variable n (a ++ (b'=' ∷ b)))) < 1018 =
        subst (λ z. length z < 1018) (sym named) short in
      let small : leb 1023 (length (saved (env_name (variable n (a ++ (b'=' ∷ b)))))) ≡ false =
        ground arith in
      rw (preserve_slurm_var, small, value) (ap (λ z. kept (setenv e (saved z) b) true) named)
