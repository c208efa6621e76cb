-- ===== src/Priority/Tests.antt =====
-- The plugins for priorities on small inputs, and their theorems applied to them.
use slurm_spank_plugins.Base.{
  Option, ◌⊎◌, true, false, ◌≡◌, refl, none, some, List, [], ◌∷◌, ℤ, pos, negsuc, Bytes, codes,
  if◌then◌else◌,
}
use slurm_spank_plugins.Text.{strtol, after_sign, signed, read_digits, skip_space}
use slurm_spank_plugins.Priority.Renice.{
  Renice, str2prio, prio_not_set, renice_opt_process, task_post_fork, lt_ℤ,
}
use slurm_spank_plugins.Priority.Setsched.{Setsched}
use slurm_spank_plugins.Priority.Setsched
use slurm_spank_plugins.Priority.Bounds.{to_nice, SetsNice, option-wins}

abbrev site : Renice
site = record { min_prio = negsuc 4; default_prio = pos 0; prio = prio_not_set }

-- A kernel that sets every priority, as a nice value.
abbrev sets : ℤ → Option ℤ
sets v = some (to_nice v)

sets-SetsNice : SetsNice sets
sets-SetsNice v nice e = cc e

five_accepted : (renice_opt_process (some (codes "5")) site).1 ≡ true
unfolding renice_opt_process str2prio strtol after_sign signed read_digits skip_space
five_accepted = refl

option-wins_example :
    (p : ℤ) × (str2prio (codes "5") ≡ some p)
    × (let (r, nice, ok) =
          task_post_fork
            (some (codes "-10"))
            (pos 0)
            sets
            (renice_opt_process (some (codes "5")) site).0 in
        let v = if lt_ℤ p (negsuc 4) then negsuc 4 else p in
        ((ok ≡ true) × (nice ≡ to_nice v)) ⊎ ((ok ≡ false) × (nice ≡ pos 0) × (sets v ≡ none)))
option-wins_example =
    option-wins (codes "5") site (some (codes "-10")) (pos 0) sets sets-SetsNice refl five_accepted

abbrev accept : ℤ → ℤ → ℤ
accept policy priority = pos 0

abbrev args : List Bytes
args = codes "policy=2" ∷ codes "default=disabled" ∷ []
