-- ===== src/Priority/Bounds.antt =====
-- What nice value a task gets (renice.c).
use slurm_spank_plugins.Base.{
  true, false, ◌≡◌, ◌∙◌, Option, none, some, ℤ, pos, negsuc, eq_ℤ, eq_ℤ→eq, ◌≤ℤ◌, Bytes,
  if◌then◌else◌, refl, ap, ◌⊎◌, sym, arith, Bool-cases, Option-cases, inl, inr,
}
use slurm_spank_plugins.Priority.Renice.{
  Renice, prio_not_set, str2prio, renice_opt_process, choose_prio, clamp_prio, task_post_fork, lt_ℤ,
}

-- What the kernel makes of an argument of `setpriority`: the nice values are those from -20 to 19.
abbrev pub to_nice : ℤ → ℤ
to_nice v = if lt_ℤ v (negsuc 19) then negsuc 19 else if lt_ℤ (pos 19) v then pos 19 else v

-- `setpriority` as it is documented: where it succeeds, the nice value is the nearest one.
abbrev pub SetsNice : (ℤ → Option ℤ) → Type 0
SetsNice setpriority = (v nice : ℤ) → setpriority v ≡ some nice → nice ≡ to_nice v

-- The nice value behind `task_post_fork`, and its return value: the priority that was chosen is set, or
-- `setpriority` fails and the task keeps its nice value.
task_post_fork_cases :
    (env : Option Bytes) (current : ℤ) (setpriority : ℤ → Option ℤ) (r : Renice)
    → SetsNice setpriority
    → to_nice current ≡ current
    → let (r', nice, ok) = task_post_fork env current setpriority r in
      ((ok ≡ true) × (nice ≡ to_nice (clamp_prio (choose_prio env r)).prio))
      ⊎ ((ok ≡ false)
          × (nice ≡ current)
          × (setpriority (clamp_prio (choose_prio env r)).prio ≡ none))
unfolding task_post_fork
task_post_fork_cases env current setpriority r sets is_nice =
    let v = (clamp_prio (choose_prio env r)).prio in
    elim (Bool-cases (eq_ℤ v current)) [
      | inl e ↦
          let same : v ≡ current = eq_ℤ→eq v current e in
          rw e (inl (refl, sym is_nice ∙ ap to_nice (sym same)))
      | inr e ↦ elim (Option-cases (setpriority v)) [
        | inl f ↦ rw (e, f) (inr (refl, refl, refl))
        | inr (nice, f) ↦ rw (e, f) (inl (refl, sets v nice f))
      ]
    ]

-- What `str2prio` accepts is a nice value, so it is not the mark for a priority that is not set.
str2prio_bounds :
    (s : Bytes) (p : ℤ)
    → str2prio s ≡ some p
    → (negsuc 19 ≤ℤ p) × (p ≤ℤ pos 20) × (eq_ℤ p prio_not_set ≡ false)
unfolding str2prio
str2prio_bounds s p h = let top : p ≤ℤ pos 20 = ground arith in (ground arith, top, not_set p top)
  where
    not_set : (p : ℤ) → p ≤ℤ pos 20 → eq_ℤ p prio_not_set ≡ false
    not_set p le = ground arith

accepted :
    (arg : Bytes) (r : Renice)
    → (renice_opt_process (some arg) r).1 ≡ true
    → (p : ℤ) × (str2prio arg ≡ some p)
      × ((renice_opt_process (some arg) r).0 ≡ record r { prio = p })
unfolding renice_opt_process
accepted arg r h = elim (Option-cases (str2prio arg)) [
  | inl e ↦ absurd (ground arith)
  | inr (p, e) ↦ (p, e, ground arith)
]

chosen :
    (env : Option Bytes) (r : Renice) → eq_ℤ r.prio prio_not_set ≡ false → choose_prio env r ≡ r
unfolding choose_prio
chosen env r h = ground arith

-- An option that `renice_opt_process` accepts decides, for a task with a nice value from -20 to 19 and
-- whatever the environment holds: either the task gets the option's value, or `min_prio` where that is
-- greater, cut to a nice value, and the return value is 0, or `setpriority` fails for it, the task
-- keeps its nice value and the return value is -1. Where `setpriority` succeeds, it sets the nice
-- value that is nearest.
pub option-wins :
    (arg : Bytes) (r : Renice) (env : Option Bytes) (current : ℤ) (setpriority : ℤ → Option ℤ)
    → SetsNice setpriority
    → to_nice current ≡ current
    → (renice_opt_process (some arg) r).1 ≡ true
    → (p : ℤ) × (str2prio arg ≡ some p)
      × (let (r', nice, ok) =
            task_post_fork env current setpriority (renice_opt_process (some arg) r).0 in
          let v = if lt_ℤ p r.min_prio then r.min_prio else p in
          ((ok ≡ true) × (nice ≡ to_nice v))
          ⊎ ((ok ≡ false) × (nice ≡ current) × (setpriority v ≡ none)))
option-wins arg r env current setpriority sets is_nice h =
    let (p, e, set) = accepted arg r h in
    let q : Renice = record r { prio = p } in
    let v : (clamp_prio (choose_prio env q)).prio ≡ (if lt_ℤ p r.min_prio then r.min_prio else p) =
      ap (λ x. (clamp_prio x).prio) (chosen env q (str2prio_bounds arg p e).2) ∙ ground arith in
    let cases = task_post_fork_cases env current setpriority q sets is_nice in
    (p, e, rw set (rw v at cases))
