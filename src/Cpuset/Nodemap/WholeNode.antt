-- ===== src/Cpuset/Nodemap/WholeNode.antt =====
-- `node_allocate_n` and `node_allocate_all`: in either order of the CPUs the loop reaches each CPU of
-- the node, so that it stops only when the request or the node is exhausted.
use slurm_spank_plugins.Base.{
  ℕ, zero, suc, ◌+◌, ◌≤◌, ◌<◌, Bool, true, ◌≡◌, ◌⊎◌, inl, inr, List, arith, All, Option, none, some,
  if_rule, ◌==◌, not,
}
use slurm_spank_plugins.Cpuset.Bitmask.{BitmaskLib}
use slurm_spank_plugins.Cpuset.Bitmask.Count.{weight_full}
use slurm_spank_plugins.Cpuset.Nodemap.State.{Site}
use slurm_spank_plugins.Cpuset.Nodemap.Node.{
  allocate_loop, node_allocate_n, node_allocate_all, ascending, descending,
}
use slurm_spank_plugins.Cpuset.Nodemap.Invariant.{SiteOk, NodeOk, Effect, Effect-refl}
use slurm_spank_plugins.Cpuset.Nodemap.OneNode.{Ran, allocate_loop-Ran}

ascending-below : (n i k : ℕ) → i + n ≤ k → All (λ j. j < k) (ascending n i)
ascending-below zero i k h = tt
ascending-below (suc n) i k h = (omega arith, ascending-below n (suc i) k (omega arith))

descending-below : (n k : ℕ) → n ≤ k → All (λ j. j < k) (descending n)
descending-below zero k h = tt
descending-below (suc n) k h = (h, descending-below n k (omega arith))

ascending-All :
    (p : ℕ → Bool) (n i j : ℕ)
    → All (λ k. p k ≡ true) (ascending n i)
    → i ≤ j
    → j < i + n
    → p j ≡ true
ascending-All p zero i j all lo hi = absurd (omega arith)
ascending-All p (suc n) i j all lo hi = elim (split i j lo) [
  | inl e ↦ rw (← e) all.0
  | inr lt ↦ ascending-All p n (suc i) j all.1 lt (omega arith)
]
  where
    split : (i j : ℕ) → i ≤ j → (i ≡ j) ⊎ (i < j)
    split i j h = omega arith

descending-All :
    (p : ℕ → Bool) (n j : ℕ) → All (λ k. p k ≡ true) (descending n) → j < n → p j ≡ true
descending-All p zero j all h = absurd (omega arith)
descending-All p (suc n) j all h = elim (split j n h) [
  | inl e ↦ rw e all.0
  | inr lt ↦ descending-All p n j all.1 lt
]
  where
    split : (j n : ℕ) → j < suc n → (j ≡ n) ⊎ (j < n)
    split j n h = omega arith

module _ {B : Type 0} (lib : BitmaskLib B) where
  open lib use {isbitset, weight, nbits}

  -- What a request for `count` CPUs gives.
  pub record Served (count : ℕ) (s : Site B) (r : Site B × ℕ) : Type 0 where
    pub keeps_ok : SiteOk lib r.0
    pub effect : Effect lib s r.0
    pub tally : r.1 + r.0.node.navail ≡ s.node.navail
    pub why : (r.0.alloc.nleft ≡ 0) ⊎ (count ≤ r.1) ⊎ (r.0.node.navail ≡ 0)

  no_room :
      (s t : Site B)
      → NodeOk lib t.map t.node
      → Effect lib s t
      → ((i : ℕ) → i < s.node.ncpus → isbitset t.node.usedcpus i ≡ true)
      → t.node.navail ≡ 0
  no_room s t ok eff all = omega (
    arith,
    weight_full lib t.node.usedcpus (λ i h. all i (omega (arith, ok.node_size, eff.same_ncpus))),
    ok.node_size,
    ok.node_count,
  )

  Ran-Served :
      (is : List ℕ) (count : ℕ) (s : Site B) (r : Site B × ℕ)
      → (All (λ k. isbitset r.0.node.usedcpus k ≡ true) is
          → (i : ℕ) → i < s.node.ncpus
          → isbitset r.0.node.usedcpus i ≡ true)
      → Ran lib is count 0 s r
      → Served count s r
  Ran-Served is count s r covers run = record {
    keeps_ok = run.keeps_ok;
    effect = run.effect;
    tally = omega (arith, run.tally);
    why = elim run.stopped.why [
      | inl h ↦ inl h
      | inr h ↦ elim h [
        | inl few ↦ inr (inl few)
        | inr all ↦ inr (inr (no_room s r.0 run.keeps_ok.1 run.effect (covers all)))
      ]
    ];
  }

  ascending-Served :
      (count : ℕ) (s : Site B)
      → SiteOk lib s
      → Served count s (allocate_loop lib (ascending s.node.ncpus 0) count 0 s)
  ascending-Served count s valid =
      Ran-Served (ascending s.node.ncpus 0) count s _
        (λ all i h. ascending-All _ s.node.ncpus 0 i all (omega arith) (omega arith))
        (allocate_loop-Ran lib _ count 0 s valid
          (ascending-below s.node.ncpus 0 s.node.ncpus (omega arith)))

  descending-Served :
      (count : ℕ) (s : Site B)
      → SiteOk lib s
      → Served count s (allocate_loop lib (descending s.node.ncpus) count 0 s)
  descending-Served count s valid =
      Ran-Served (descending s.node.ncpus) count s _
        (λ all i h. descending-All _ s.node.ncpus i all h)
        (allocate_loop-Ran lib _ count 0 s valid
          (descending-below s.node.ncpus s.node.ncpus (omega arith)))

  abbrev pub wanted : Option ℕ → Site B → ℕ
  wanted none s = s.node.navail
  wanted (some c) s = c

  Served-idle : (count : ℕ) (s : Site B) → SiteOk lib s → s.alloc.nleft ≡ 0 → Served count s (s, 0)
  Served-idle count s valid h = record {
    keeps_ok = valid;
    effect = Effect-refl lib s;
    tally = omega arith;
    why = inl h;
  }

  node_allocate_n-Served :
      (s : Site B) (asked : Option ℕ)
      → SiteOk lib s
      → Served (wanted asked s) s (node_allocate_n lib s asked)
  unfolding node_allocate_n
  node_allocate_n-Served s none valid =
      if_rule (Served s.node.navail s) (s.alloc.nleft == 0) _ _
        (λ e. Served-idle _ s valid (ground arith))
        (λ e.
          if_rule (Served s.node.navail s) (not s.map.policy.reverse) _ _
            (λ b. ascending-Served _ s valid) (λ b. descending-Served _ s valid))
  node_allocate_n-Served s (some c) valid =
      if_rule (Served c s) (s.alloc.nleft == 0) _ _ (λ e. Served-idle _ s valid (ground arith))
        (λ e.
          if_rule (Served c s) (not s.map.policy.reverse) _ _ (λ b. ascending-Served _ s valid)
            (λ b. descending-Served _ s valid))

  -- A request for a number of CPUs is served up to what the node and the allocation leave.
  pub node_allocate_some :
      (s : Site B) (c : ℕ) → SiteOk lib s → Served c s (node_allocate_n lib s (some c))
  node_allocate_some s c = node_allocate_n-Served s (some c)

  -- A request for all takes all that is available on the node, or all that is asked for.
  pub node_allocate_all_takes :
      (s : Site B)
      → SiteOk lib s
      → ((node_allocate_all lib s).alloc.nleft ≡ 0) ⊎ ((node_allocate_all lib s).node.navail ≡ 0)
  unfolding node_allocate_all
  node_allocate_all_takes s valid =
      let served = node_allocate_n-Served s none valid in ground (arith, served.why, served.tally)

  pub node_allocate_all_lem :
      (s : Site B)
      → SiteOk lib s
      → SiteOk lib (node_allocate_all lib s) × Effect lib s (node_allocate_all lib s)
  unfolding node_allocate_all
  node_allocate_all_lem s valid =
      let served = node_allocate_n-Served s none valid in (served.keeps_ok, served.effect)
