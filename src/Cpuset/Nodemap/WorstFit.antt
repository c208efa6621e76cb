-- ===== src/Cpuset/Nodemap/WorstFit.antt =====
-- The loop of `allocation_worst_fit` (cpuset/nodemap.c): it ends when the nodes have the CPUs that
-- are wanted, and goes on for ever when they have not.
use slurm_spank_plugins.Base.{
  ℕ, zero, suc, ◌≤◌, ◌<◌, Bool, true, false, ◌||◌, ◌==◌, ◌≡◌, ◌≢◌, ◌∙◌, inl, inr, [], arith, some,
  Bool-cases, if_rule, refl,
}
use slurm_spank_plugins.Cpuset.Bitmask.{BitmaskLib}
use slurm_spank_plugins.Cpuset.Nodemap.State.{Node, Policy, Pass, Outcome, ok, out_of_fuel}
use slurm_spank_plugins.Cpuset.Nodemap.Sort.{SortLib}
use slurm_spank_plugins.Cpuset.Nodemap.Allocate.{
  worst_fit_round, allocation_worst_fit, allocate_by_policy,
}
use slurm_spank_plugins.Cpuset.Nodemap.Invariant.{total_navail}
use slurm_spank_plugins.Cpuset.Nodemap.Policies.{PassOk, Progress-refl, Progress-trans}
use slurm_spank_plugins.Cpuset.Nodemap.Fits.{
  Finishes, worst_fit_round_lem, allocation_best_fit-Finishes, allocation_first_fit-Finishes,
}

-- Some policy is set.
abbrev pub HasFit : Policy → Type 0
HasFit policy = (policy.best_fit || policy.first_fit || policy.worst_fit) ≡ true

module _ {B : Type 0} (lib : BitmaskLib B) (lists : SortLib (Node B)) where
  worst_fit_ends :
      (fuel : ℕ) (p : Pass B) → p.alloc.nleft ≡ 0 → allocation_worst_fit lib lists fuel p ≡ ok p
  unfolding allocation_worst_fit
  worst_fit_ends zero p e = ground arith
  worst_fit_ends (suc fuel) p e = ground arith

  worst_fit_goes_on :
      (fuel : ℕ) (p q : Pass B)
      → 0 < p.alloc.nleft
      → worst_fit_round lib lists p ≡ some q
      → allocation_worst_fit lib lists (suc fuel) p ≡ allocation_worst_fit lib lists fuel q
  unfolding allocation_worst_fit
  worst_fit_goes_on fuel p q h e = ground arith

  -- As many rounds as CPUs are wanted are enough.
  pub allocation_worst_fit-Finishes :
      (fuel : ℕ) (p : Pass B)
      → PassOk lib p
      → p.map.nodelist ≢ []
      → p.alloc.nleft ≤ total_navail p.map.nodelist
      → p.alloc.nleft ≤ fuel
      → (q : Pass B) × (allocation_worst_fit lib lists fuel p ≡ ok q) × Finishes lib lists p q
  allocation_worst_fit-Finishes zero p valid ne enough bound = (
    p,
    worst_fit_ends zero p (omega arith),
    record { progress = Progress-refl lib p valid; nothing_left = omega arith },
  )
  allocation_worst_fit-Finishes (suc fuel) p valid ne enough bound =
      elim (Bool-cases (p.alloc.nleft == 0)) [
        | inl e ↦ (
          p,
          worst_fit_ends (suc fuel) p (ground arith),
          record { progress = Progress-refl lib p valid; nothing_left = ground arith },
        )
        | inr e ↦
            let left : 0 < p.alloc.nleft = ground arith in
            let (q, round, moves, falls) = worst_fit_round_lem lib lists p valid ne in
            let (r, returns, end) =
              allocation_worst_fit-Finishes fuel q moves.progress.keeps_ok moves.nonempty
                (omega (arith, moves.progress.balance)) (omega (arith, falls (omega arith) left)) in
            (
              r,
              worst_fit_goes_on fuel p q left round ∙ returns,
              record {
                progress = Progress-trans lib moves.progress end.progress;
                nothing_left = end.nothing_left;
              },
            )
      ]

  worst_fit_starved :
      (p : Pass B) → 0 < p.alloc.nleft → allocation_worst_fit lib lists zero p ≡ out_of_fuel
  unfolding allocation_worst_fit
  worst_fit_starved p h = ground arith

  -- Without the CPUs no number of rounds is enough.
  pub allocation_worst_fit_starves :
      (fuel : ℕ) (p : Pass B)
      → PassOk lib p
      → p.map.nodelist ≢ []
      → total_navail p.map.nodelist < p.alloc.nleft
      → allocation_worst_fit lib lists fuel p ≡ out_of_fuel
  allocation_worst_fit_starves zero p valid ne few = worst_fit_starved p (omega arith)
  allocation_worst_fit_starves (suc fuel) p valid ne few =
      let (q, round, moves, falls) = worst_fit_round_lem lib lists p valid ne in
      worst_fit_goes_on fuel p q (omega arith) round
      ∙ allocation_worst_fit_starves fuel q moves.progress.keeps_ok moves.nonempty
          (omega (arith, moves.progress.balance))

  pub allocate_by_policy-Finishes :
      (fuel : ℕ) (p : Pass B)
      → PassOk lib p
      → p.map.nodelist ≢ []
      → HasFit p.map.policy
      → p.alloc.nleft ≤ total_navail p.map.nodelist
      → p.alloc.nleft ≤ fuel
      → (q : Pass B) × (allocate_by_policy lib lists fuel p ≡ ok q) × Finishes lib lists p q
  unfolding allocate_by_policy
  allocate_by_policy-Finishes fuel p valid ne fit enough bound =
      if_rule Good p.map.policy.best_fit _ _
        (λ _. (_, refl, allocation_best_fit-Finishes lib lists p valid enough))
        (λ not_best.
          if_rule Good p.map.policy.first_fit _ _
            (λ _. (_, refl, allocation_first_fit-Finishes lib lists p valid enough))
            (λ not_first.
              if_rule Good p.map.policy.worst_fit _ _
                (λ _. allocation_worst_fit-Finishes fuel p valid ne enough bound)
                (λ not_worst. absurd (cc (no_fit _ _ _ not_best not_first not_worst)))))
    where
      Good : Outcome (Pass B) → Type 0
      Good r = (q : Pass B) × (r ≡ ok q) × Finishes lib lists p q

      no_fit : (a b c : Bool) → a ≡ false → b ≡ false → c ≡ false → (a || b || c) ≡ false
      no_fit a b c = ground arith
