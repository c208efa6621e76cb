-- ===== src/Cpuset/Nodemap/Policies.antt =====
-- The policies of cpuset/nodemap.c: each keeps the invariants, and each finds the CPUs that are asked
-- for if the nodes have them. For worst fit that includes that its loop ends.
use slurm_spank_plugins.Base.{
  ◌+◌, ◌%◌, ◌≤◌, true, not, ◌&&◌, ◌==◌, leb, ◌≡◌, ◌∙◌, refl, arith, All, some, if_rule,
  if◌then◌else◌, length,
}
use slurm_spank_plugins.Cpuset.Bitmask.{BitmaskLib}
use slurm_spank_plugins.Cpuset.Nodemap.State.{Site, Pass}
use slurm_spank_plugins.Cpuset.Nodemap.Node.{node_allocate_n, node_allocate_all}
use slurm_spank_plugins.Cpuset.Nodemap.Allocate.{walk, idle_visit, alloc_idle_nodes}
use slurm_spank_plugins.Cpuset.Nodemap.Invariant.{
  SharedOk, NodeOk, SiteOk, AllApart, Grows, Grows-refl, Grows-trans, Effect, Effect-refl,
  total_navail,
}
use slurm_spank_plugins.Cpuset.Nodemap.WholeNode.{
  node_allocate_some, node_allocate_all_takes, node_allocate_all_lem,
}
use slurm_spank_plugins.Cpuset.Nodemap.Walk.{
  Walked, walk-Walked, walk_takes, AllApart-Same, length-Same,
}

module _ {B : Type 0} (lib : BitmaskLib B) where
  pub record PassOk (p : Pass B) : Type 0 where
    pub shared : SharedOk lib p.map p.alloc
    pub nodes : All (NodeOk lib p.map) p.map.nodelist
    pub apart : AllApart lib p.map.nodelist

  -- What the code does between two points of an allocation.
  pub record Progress (p q : Pass B) : Type 0 where
    pub keeps_ok : PassOk q
    pub grows : Grows lib p.map p.alloc q.map q.alloc
    pub balance :
        total_navail p.map.nodelist + q.alloc.nleft ≡ total_navail q.map.nodelist + p.alloc.nleft
    pub same_length : length q.map.nodelist ≡ length p.map.nodelist

  pub Progress-refl : (p : Pass B) → PassOk p → Progress p p
  Progress-refl p valid = record {
    keeps_ok = valid;
    grows = Grows-refl lib p.map p.alloc;
    balance = refl;
    same_length = refl;
  }

  pub Progress-trans : {p q r : Pass B} → Progress p q → Progress q r → Progress p r
  Progress-trans g h = record {
    keeps_ok = h.keeps_ok;
    grows = Grows-trans lib g.grows h.grows;
    balance = omega (arith, g.balance, h.balance);
    same_length = h.same_length ∙ g.same_length;
  }

  pub Walked-Progress :
      (p q : Pass B) → PassOk p → Walked lib p.map.nodelist p.map p.alloc q → Progress p q
  Walked-Progress p q valid w = record {
    keeps_ok = record {
      shared = w.shared;
      nodes = w.nodes;
      apart = AllApart-Same lib p.map.nodelist q.map.nodelist w.same valid.apart;
    };
    grows = w.grows;
    balance = w.balance;
    same_length = length-Same p.map.nodelist q.map.nodelist w.same;
  }

  idle_visit_lem :
      (s : Site B) → SiteOk lib s → SiteOk lib (idle_visit lib s) × Effect lib s (idle_visit lib s)
  unfolding idle_visit
  idle_visit_lem s valid = if_rule Good (s.node.navail == 0) _ _ (λ _. same) (λ _. busy)
    where
      Good : Site B → Type 0
      Good t = SiteOk lib t × Effect lib s t

      same : SiteOk lib s × Effect lib s s
      same = (valid, Effect-refl lib s)

      whole : Good (node_allocate_n lib s (some s.node.ncpus)).0
      whole =
          let served = node_allocate_some lib s s.node.ncpus valid in
          (served.keeps_ok, served.effect)

      idle : Good (
          if s.node.navail == s.node.ncpus && leb s.node.navail s.alloc.nleft
          then (node_allocate_n lib s (some s.node.ncpus)).0
          else s)
      idle =
          if_rule Good (s.node.navail == s.node.ncpus && leb s.node.navail s.alloc.nleft) _ s
            (λ _. whole) (λ _. same)

      busy : Good (
          if s.map.policy.alloc_idle_multiples_only && not (s.alloc.nleft % s.node.navail == 0)
          then s
          else if s.node.navail == s.node.ncpus && leb s.node.navail s.alloc.nleft
          then (node_allocate_n lib s (some s.node.ncpus)).0
          else s)
      busy =
          if_rule Good
            (s.map.policy.alloc_idle_multiples_only && not (s.alloc.nleft % s.node.navail == 0)) s _
            (λ _. same) (λ _. idle)

  pub alloc_idle_nodes-Progress : (p : Pass B) → PassOk p → Progress p (alloc_idle_nodes lib p)
  unfolding alloc_idle_nodes
  alloc_idle_nodes-Progress p valid = Walked-Progress p _ valid (
      walk-Walked lib _ (idle_visit lib) idle_visit_lem p.map.nodelist p.map p.alloc valid.shared
        valid.nodes valid.apart)

  pub allocate_all-Progress :
      (p : Pass B)
      → PassOk p
      → Progress p (walk (λ _. true) (node_allocate_all lib) p.map.nodelist p.map p.alloc)
  allocate_all-Progress p valid = Walked-Progress p _ valid (
      walk-Walked lib _ (node_allocate_all lib) (node_allocate_all_lem lib) p.map.nodelist p.map
        p.alloc valid.shared valid.nodes valid.apart)

  -- Enough is available: then nothing is left.
  pub allocate_all_finishes :
      (p : Pass B)
      → PassOk p
      → p.alloc.nleft ≤ total_navail p.map.nodelist
      → (walk (λ _. true) (node_allocate_all lib) p.map.nodelist p.map p.alloc).alloc.nleft ≡ 0
  allocate_all_finishes p valid enough = ground (
    arith,
    walk_takes lib (λ _. true) (node_allocate_all lib) (node_allocate_all_lem lib)
        (node_allocate_all_takes lib) (λ _. refl) p.map.nodelist p.map p.alloc valid.shared
        valid.nodes valid.apart,
    (allocate_all-Progress p valid).balance,
  )
