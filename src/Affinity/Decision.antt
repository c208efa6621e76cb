-- ===== src/Affinity/Decision.antt =====
-- When auto-affinity.c gives tasks a mask without being asked for one.
use mathlib.Core.Path.{subst}
use slurm_spank_plugins.Base.{
  ℕ, zero, suc, ◌*◌, ◌%◌, ◌/◌, ◌<◌, ◌≤◌, ◌==◌, Bool, true, false, not, ◌&&◌, ◌||◌, ltb, ◌≡◌, ◌∙◌,
  sym, refl, arith, Option, none, some, Bool-cases, ◌⊎◌, inl, inr,
}
use slurm_spank_plugins.Affinity.Masks.{Affinity, get_cpus_per_task}
use slurm_spank_plugins.Affinity.Apart.{HasRoom}
use slurm_spank_plugins.Affinity.Plugin.{
  Plugin, choose_by_count, slurm_spank_user_init, request, take_recorded,
}

-- Nobody asked for CPUs: no option, no list, and no number that SLURM has recorded.
pub record IsUnasked (recorded : Option ℕ) (p : Plugin) : Type 0 where
  pub no_request : p.masks.requested_cpus_per_task ≡ 0
  pub no_cpus : p.cpus_list ≡ none
  pub no_masks : p.cpu_mask_list ≡ none
  pub unrecorded :
      take_recorded recorded (record p { enabled = false }) ≡ record p { enabled = false }

quotient_fits : (n t : ℕ) → 0 < t → t * (n / t) ≤ n
quotient_fits n t h = grind arith

quotient_some : (n t : ℕ) → 0 < t → t ≤ n → 0 < n / t
quotient_some n t h k = grind arith

cpus_unasked :
    (a : Affinity)
    → a.requested_cpus_per_task ≡ 0
    → get_cpus_per_task a ≡ a.ncpus_available / a.ntasks
unfolding get_cpus_per_task
cpus_unasked a h = ground arith

cpus_asked :
    (a : Affinity) (n : ℕ) → a.requested_cpus_per_task ≡ suc n → get_cpus_per_task a ≡ suc n
unfolding get_cpus_per_task
cpus_asked a n h = ground arith

shares-HasRoom :
    (a : Affinity)
    → 0 < a.ntasks
    → a.ntasks ≤ a.ncpus_available
    → get_cpus_per_task a ≡ a.ncpus_available / a.ntasks
    → HasRoom a
shares-HasRoom a h k e = record {
  some_cpus = rw e (quotient_some a.ncpus_available a.ntasks h k);
  all_fit = rw e (quotient_fits a.ncpus_available a.ntasks h);
}

-- How it ends: off, on with the shares of the tasks, or on with a number of its own.
data Choice (p q : Plugin) : Type 0 where
  stays_off : q ≡ p → Choice p q
  even_shares :
      q ≡ record p { enabled = true } → p.masks.ntasks ≤ p.masks.ncpus_available → Choice p q
  own_number :
      q ≡ record (request (p.masks.ncpus_available / p.masks.ntasks) p) { enabled = true }
      → p.masks.ntasks ≤ p.masks.ncpus_available
      → Choice p q

choose_cases :
    (p : Plugin) → 0 < p.masks.ntasks → (q : Plugin) × (choose_by_count p ≡ some q) × Choice p q
unfolding choose_by_count
choose_cases p h = elim (Bool-cases (ltb p.masks.ncpus_available p.masks.ntasks)) [
  | inl over ↦ (p, ground arith, stays_off refl)
  | inr fits ↦
      let few : p.masks.ntasks ≤ p.masks.ncpus_available = ground arith in
      elim (Bool-cases (p.masks.ncpus_available % p.masks.ntasks == 0)) [
        | inl even ↦ (record p { enabled = true }, ground arith, even_shares refl few)
        | inr odd ↦
            elim (Bool-cases (p.multiples_only || p.masks.ncpus_available / p.masks.ntasks == 1)) [
              | inl kept ↦ (p, ground arith, stays_off refl)
              | inr wide ↦ (
                record (request (p.masks.ncpus_available / p.masks.ntasks) p) { enabled = true },
                ground arith,
                own_number refl few,
              )
            ]
      ]
]

ℕ-cases : (n : ℕ) → (n ≡ 0) ⊎ ((m : ℕ) × (n ≡ suc m))
ℕ-cases zero = inl refl
ℕ-cases (suc m) = inr (m, refl)

Choice-HasRoom :
    (p q : Plugin)
    → Choice p q
    → p.enabled ≡ false
    → p.masks.requested_cpus_per_task ≡ 0
    → 0 < p.masks.ntasks
    → q.enabled ≡ true
    → HasRoom q.masks
Choice-HasRoom p q (stays_off e) off none_yet h on = absurd (ground arith)
Choice-HasRoom p q (even_shares e few) off none_yet h on =
    subst (λ x. HasRoom x.masks) (sym e)
      (shares-HasRoom p.masks h few (cpus_unasked p.masks none_yet))
Choice-HasRoom p q (own_number e few) off none_yet h on =
    subst (λ x. HasRoom x.masks) (sym e)
      (shares-HasRoom (request (p.masks.ncpus_available / p.masks.ntasks) p).masks h few (
        own (request (p.masks.ncpus_available / p.masks.ntasks) p).masks refl
          (quotient_some p.masks.ncpus_available p.masks.ntasks h few)))
  where
    own :
        (a : Affinity)
        → a.requested_cpus_per_task ≡ a.ncpus_available / a.ntasks
        → 0 < a.ncpus_available / a.ntasks
        → get_cpus_per_task a ≡ a.ncpus_available / a.ntasks
    own a e h = elim (ℕ-cases a.requested_cpus_per_task) [
      | inl z ↦ absurd (omega arith)
      | inr (n, f) ↦ cpus_asked a n f ∙ sym f ∙ e
    ]

-- Where nobody asked for CPUs, the plugin makes itself active for a job step that is not a batch script
-- only if the tasks of the node, one at least, fit into the available CPUs with the number of CPUs that each of them will get.
pub user_init-HasRoom :
    (is_exclusive : Bool) (recorded : Option ℕ) (p : Plugin)
    → IsUnasked recorded p
    → 0 < p.masks.ntasks
    → (q : Plugin) × (slurm_spank_user_init true false is_exclusive recorded p ≡ some q)
      × ((q.enabled ≡ false) ⊎ HasRoom q.masks)
unfolding slurm_spank_user_init
user_init-HasRoom is_exclusive recorded p asks h =
    let off : Plugin = record p { enabled = false } in
    let (q, e, c) = choose_cases off h in
    elim (Bool-cases (p.exclusive_only && not is_exclusive)) [
      | inl shared ↦ (off, ground arith, inl refl)
      | inr go ↦ (
        q,
        ground (arith, asks.unrecorded, asks.no_request, asks.no_cpus, asks.no_masks),
        elim (Bool-cases q.enabled) [
          | inl on ↦ inr (Choice-HasRoom off q c refl asks.no_request h on)
          | inr no_mask ↦ inl no_mask
        ],
      )
    ]
