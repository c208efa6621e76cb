-- ===== src/PrivateMount/Allowed.antt =====
-- Without leave the plugin of private-mount.c leaves the system alone, in every order of its callbacks.
use mathlib.Core.Path.{subst}
use slurm_spank_plugins.Base.{
  ℕ, Bool, true, false, not, ◌≡◌, ◌≢◌, ◌⊎◌, ◌∙◌, sym, ap, refl, arith, inl, inr, Option, none, some,
  Option-cases, Bool-cases, List, Bytes, if◌then◌else◌, if_rule, str_eq, codes,
}
use slurm_spank_plugins.PrivateMount.System.{System}
use slurm_spank_plugins.PrivateMount.Plugin.{
  NsMode, ns_system, ns_task, ns_job, Plugin, fresh, Ended, ended, stuck,
  slurm_spank_task_init_privileged, slurm_spank_init_post_opt, slurm_spank_exit, parse_args, allows,
  slurm_spank_init, opt_fs_namespace, opt_private_mount, not_system, all_known,
}

-- A call of slurmd or srun.
pub data Call : Type 0 where
  init : Option ℕ → List Bytes → Call
  fs_namespace mount_option : Option Bytes → Call
  post_opt : Bool → Call
  task_init exit : Call

abbrev with_plugin : {S : Type 0} → Plugin → Ended S → Option (Plugin × S)
with_plugin p (ended s good) = some (p, s)
with_plugin p stuck = none

not_system_lem : (m : NsMode) → not_system m ≢ ns_system
not_system_lem ns_system e = cc e
not_system_lem ns_task e = cc e
not_system_lem ns_job e = cc e

module _ {S : Type 0} (sys : System S) where
  -- `none` where the fuel does not do.
  unfoldable pub step : ℕ → Call → Plugin × S → Option (Plugin × S)
  step fuel (init uid args) (p, s) = some ((slurm_spank_init sys uid args p).0, s)
  step fuel (fs_namespace arg) (p, s) = some ((opt_fs_namespace sys arg p).0, s)
  step fuel (mount_option arg) (p, s) = some ((opt_private_mount sys s arg p).0, s)
  step fuel (post_opt remote) (p, s) = with_plugin p (slurm_spank_init_post_opt sys remote fuel p s)
  step fuel task_init (p, s) = with_plugin p (slurm_spank_task_init_privileged sys fuel p s)
  step fuel exit (p, s) = some (slurm_spank_exit sys p, s)

  -- The states that the calls lead to.
  pub data Reaches (fuel : ℕ) (from : Plugin × S) : Plugin × S → Type 0 where
    start : Reaches fuel from from
    next :
        {w : Plugin × S}
        → Reaches fuel from w
        → (c : Call) (w' : Plugin × S) → step fuel c w ≡ some w'
        → Reaches fuel from w'

  -- An option is set only with leave, and mounts are there only in a name space of a job or a task.
  pub record Configured (p : Plugin) : Type 0 where
    pub leave : (p.ns_mode ≡ ns_system) ⊎ (p.allowed ≡ true)
    pub space : (p.mounts ≡ none) ⊎ (p.ns_mode ≢ ns_system)

  init_keeps :
      (uid : Option ℕ) (args : List Bytes) (p : Plugin)
      → ((slurm_spank_init sys uid args p).0 ≡ p)
        ⊎ ((slurm_spank_init sys uid args p).0 ≡ record p { allowed = true })
  unfolding slurm_spank_init
  init_keeps uid args p = elim (Option-cases (parse_args sys args none)) [
    | inl e ↦ inl (rw (slurm_spank_init, e) refl)
    | inr (given, e) ↦ elim (Option-cases given) [
      | inl f ↦ inl (rw (slurm_spank_init, e, f) refl)
      | inr (users, f) ↦ elim (Option-cases uid) [
        | inl g ↦ inl (rw (slurm_spank_init, e, f, g) refl)
        | inr (n, g) ↦ elim (Bool-cases (allows sys n users)) [
          | inl h ↦ inr (rw (slurm_spank_init, e, f, g, h) refl)
          | inr h ↦ inl (rw (slurm_spank_init, e, f, g, h) refl)
        ]
      ]
    ]
  ]

  -- What holds of a state: the variables fit, and without leave the system is as it was.
  pub record Fits (s0 : S) (w : Plugin × S) : Type 0 where
    pub configured : Configured w.0
    pub untouched : (w.1 ≡ s0) ⊎ (w.0.allowed ≡ true)

  init-Fits :
      (s0 s : S) (uid : Option ℕ) (args : List Bytes) (p : Plugin)
      → Fits s0 (p, s)
      → Fits s0 ((slurm_spank_init sys uid args p).0, s)
  init-Fits s0 s uid args p fits = elim (init_keeps uid args p) [
    | inl e ↦ subst (λ q. Fits s0 (q, s)) (sym e) fits
    | inr e ↦
        subst (λ q. Fits s0 (q, s)) (sym e)
          (record {
            configured = record { leave = inr refl; space = fits.configured.space };
            untouched = inr refl;
          })
  ]

  fs_namespace-Fits :
      (s0 s : S) (arg : Option Bytes) (p : Plugin)
      → Fits s0 (p, s)
      → Fits s0 ((opt_fs_namespace sys arg p).0, s)
  unfolding opt_fs_namespace
  fs_namespace-Fits s0 s arg p fits =
      if_rule (λ (r : Plugin × Bool). Fits s0 (r.0, s)) (not p.allowed) _ _ (λ _. fits)
        (λ a. given a arg)
    where
      switched :
          (mode : NsMode)
          → not p.allowed ≡ false
          → mode ≢ ns_system
          → Fits s0 (record p { ns_mode = mode }, s)
      switched mode a ne = record {
        configured = record { leave = inr (ground arith); space = inr ne };
        untouched = inr (ground arith);
      }

      given :
          not p.allowed ≡ false
          → (o : Option Bytes)
          → Fits s0 (
            (elim o as (λ _. Plugin × Bool) [
              | none ↦ (p, false)
              | some arg ↦
                  if str_eq arg (codes "task")
                  then (record p { ns_mode = ns_task }, true)
                  else if str_eq arg (codes "job")
                  then (record p { ns_mode = ns_job }, true)
                  else (p, false)
            ]).0,
            s,
          )
      given a none = fits
      given a (some arg) =
          if_rule (λ (r : Plugin × Bool). Fits s0 (r.0, s)) (str_eq arg (codes "task")) _ _
            (λ _. switched ns_task a (λ e. cc e))
            (λ _.
              if_rule (λ (r : Plugin × Bool). Fits s0 (r.0, s)) (str_eq arg (codes "job")) _ _
                (λ _. switched ns_job a (λ e. cc e)) (λ _. fits))

  mount_option-Fits :
      (s0 s : S) (arg : Option Bytes) (p : Plugin)
      → Fits s0 (p, s)
      → Fits s0 ((opt_private_mount sys s arg p).0, s)
  unfolding opt_private_mount
  mount_option-Fits s0 s arg p fits =
      if_rule (λ (r : Plugin × Bool). Fits s0 (r.0, s)) (not p.allowed) _ _ (λ _. fits)
        (λ a. given a arg p.mounts)
    where
      given :
          not p.allowed ≡ false
          → (o : Option Bytes) → (before : Option (List Bytes))
          → Fits s0 (
            (elim o as (λ _. Plugin × Bool) [
              | none ↦ (p, false)
              | some text ↦ elim before as (λ _. Plugin × Bool) [
                | some names ↦ (p, false)
                | none ↦
                    let names = sys.list_split text in
                    let good = all_known sys s names in
                    (
                      record p {
                        ns_mode = not_system p.ns_mode;
                        mounts = if good then some names else none;
                      },
                      good,
                    )
              ]
            ]).0,
            s,
          )
      given a none before = fits
      given a (some text) (some names) = fits
      given a (some text) none = record {
        configured = record { leave = inr (ground arith); space = inr (not_system_lem p.ns_mode) };
        untouched = inr (ground arith);
      }

  with_plugin_same :
      (p : Plugin) (r : Ended S) (w : Plugin × S) → with_plugin p r ≡ some w → p ≡ w.0
  with_plugin_same p (ended s good) w e = let f : (p, s) ≡ w = cc e in ap (λ v. v.0) f
  with_plugin_same p stuck w e = cc e

  post_opt_quiet :
      (remote : Bool) (fuel : ℕ) (p : Plugin) (s : S)
      → p.allowed ≡ false
      → with_plugin p (slurm_spank_init_post_opt sys remote fuel p s) ≡ some (p, s)
  unfolding slurm_spank_init_post_opt
  post_opt_quiet remote fuel p s a = go p.ns_mode refl
    where
      go :
          (m : NsMode)
          → p.ns_mode ≡ m
          → with_plugin p (slurm_spank_init_post_opt sys remote fuel p s) ≡ some (p, s)
      go ns_system e = rw (slurm_spank_init_post_opt, e) refl
      go ns_task e = rw (slurm_spank_init_post_opt, e) refl
      go ns_job e = elim (Bool-cases remote) [
        | inl r ↦ rw (slurm_spank_init_post_opt, e, r, a) refl
        | inr r ↦ rw (slurm_spank_init_post_opt, e, r, a) refl
      ]

  task_init_quiet :
      (fuel : ℕ) (p : Plugin) (s : S)
      → p.allowed ≡ false
      → with_plugin p (slurm_spank_task_init_privileged sys fuel p s) ≡ some (p, s)
  unfolding slurm_spank_task_init_privileged
  task_init_quiet fuel p s a = go p.ns_mode refl
    where
      go :
          (m : NsMode)
          → p.ns_mode ≡ m
          → with_plugin p (slurm_spank_task_init_privileged sys fuel p s) ≡ some (p, s)
      go ns_system e = rw (slurm_spank_task_init_privileged, e) refl
      go ns_job e = rw (slurm_spank_task_init_privileged, e) refl
      go ns_task e = rw (slurm_spank_task_init_privileged, e, a) refl

  hook-Fits :
      (s0 s : S) (p : Plugin) (r : Ended S) (w : Plugin × S)
      → Fits s0 (p, s)
      → (p.allowed ≡ false → with_plugin p r ≡ some (p, s))
      → with_plugin p r ≡ some w
      → Fits s0 w
  hook-Fits s0 s p r w fits quiet e = elim (Bool-cases p.allowed) [
    | inr a ↦
        let f : some (p, s) ≡ some w = sym (quiet a) ∙ e in
        let g : (p, s) ≡ w = cc f in subst (Fits s0) g fits
    | inl a ↦
        let same = with_plugin_same p r w e in
        record {
          configured = subst Configured same fits.configured;
          untouched = inr (ap (λ (q : Plugin). q.allowed) (sym same) ∙ a);
        }
  ]

  step-Fits :
      (fuel : ℕ) (s0 : S) (c : Call) (w w' : Plugin × S)
      → Fits s0 w
      → step fuel c w ≡ some w'
      → Fits s0 w'
  unfolding step slurm_spank_exit
  step-Fits fuel s0 (init uid args) (p, s) w' fits e =
      subst (Fits s0) (cc e) (init-Fits s0 s uid args p fits)
  step-Fits fuel s0 (fs_namespace arg) (p, s) w' fits e =
      subst (Fits s0) (cc e) (fs_namespace-Fits s0 s arg p fits)
  step-Fits fuel s0 (mount_option arg) (p, s) w' fits e =
      subst (Fits s0) (cc e) (mount_option-Fits s0 s arg p fits)
  step-Fits fuel s0 (post_opt remote) (p, s) w' fits e =
      hook-Fits s0 s p (slurm_spank_init_post_opt sys remote fuel p s) w' fits
        (post_opt_quiet remote fuel p s) e
  step-Fits fuel s0 task_init (p, s) w' fits e =
      hook-Fits s0 s p (slurm_spank_task_init_privileged sys fuel p s) w' fits
        (task_init_quiet fuel p s) e
  step-Fits fuel s0 exit (p, s) w' fits e = subst (Fits s0) (cc e) (record {
    configured = record { leave = fits.configured.leave; space = inl refl };
    untouched = fits.untouched;
  })

  -- In every state that callbacks lead to, in whatever order, from the plugin as it is loaded: a mode
  -- other than the default is set only with leave, names to mount are kept only with such a mode, and
  -- the system is as it was unless `slurm_spank_init` has given the user leave.
  pub Reaches-Fits : (fuel : ℕ) (s0 : S) (w : Plugin × S) → Reaches fuel (fresh, s0) w → Fits s0 w
  Reaches-Fits fuel s0 w start = record {
    configured = record { leave = inl refl; space = inl refl };
    untouched = inl refl;
  }
  Reaches-Fits fuel s0 w (next {w = v} before c w' e) =
      step-Fits fuel s0 c v w (Reaches-Fits fuel s0 v before) e
