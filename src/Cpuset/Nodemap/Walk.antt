-- ===== src/Cpuset/Nodemap/Walk.antt =====
-- The loops over the nodes: what holds of a visit to one node holds of the walk over all, and the
-- nodes that share no CPU do not disturb one another.
use slurm_spank_plugins.Base.{
  ℕ, ◌+◌, ◌<◌, Bool, true, ◌≡◌, ◌⊎◌, refl, inl, inr, List, [], ◌∷◌, arith, All, Bool-cases, length,
}
use slurm_spank_plugins.Cpuset.Bitmask.{BitmaskLib}
use slurm_spank_plugins.Cpuset.Nodemap.State.{Node, Nodemap, Allocation, Site, Pass}
use slurm_spank_plugins.Cpuset.Nodemap.Allocate.{walk, put_back}
use slurm_spank_plugins.Cpuset.Nodemap.Invariant.{
  SharedOk, NodeOk, SiteOk, Apart, AllApart, Grows, Grows-refl, Grows-trans, Effect, total_navail,
}

-- The same nodes, whatever is in use.
abbrev pub Same : {B : Type 0} → List (Node B) → List (Node B) → Type 0
Same [] [] = Unit
Same [] (k ∷ ks) = ⊥
Same (n ∷ ns) [] = ⊥
Same (n ∷ ns) (k ∷ ks) = (k.ncpus ≡ n.ncpus) × (k.localcpus ≡ n.localcpus) × Same ns ks

Same-refl : {B : Type 0} (ns : List (Node B)) → Same ns ns
Same-refl [] = tt
Same-refl (n ∷ ns) = (refl, refl, Same-refl ns)

pub length-Same : {B : Type 0} (ns ks : List (Node B)) → Same ns ks → length ks ≡ length ns
length-Same [] [] same = refl
length-Same [] (k ∷ ks) same = absurd same
length-Same (n ∷ ns) [] same = absurd same
length-Same (n ∷ ns) (k ∷ ks) same = omega (arith, length-Same ns ks same.2)

module _ {B : Type 0} (lib : BitmaskLib B) where
  open lib use {isbitset, first}

  NodeOk-move :
      (m m' : Nodemap B) (n : Node B)
      → m'.ncpus ≡ m.ncpus
      → ((i : ℕ)
          → i < n.ncpus
          → isbitset m'.usedcpus (first n.localcpus + i)
            ≡ isbitset m.usedcpus (first n.localcpus + i))
      → NodeOk lib m n
      → NodeOk lib m' n
  NodeOk-move m m' n size bits ok = record {
    node_size = ok.node_size;
    node_count = ok.node_count;
    within = omega (arith, ok.within);
    in_step = λ i h. ground (arith, ok.in_step i h, bits i h);
  }

  pub NodeOk-list :
      (m : Nodemap B) (l : List (Node B)) (n : Node B)
      → NodeOk lib m n
      → NodeOk lib (record m { nodelist = l }) n
  NodeOk-list m l n = NodeOk-move m (record m { nodelist = l }) n refl (λ i h. refl)

  pub All-NodeOk_list :
      (m : Nodemap B) (l ns : List (Node B))
      → All (NodeOk lib m) ns
      → All (NodeOk lib (record m { nodelist = l })) ns
  All-NodeOk_list m l [] h = tt
  All-NodeOk_list m l (n ∷ ns) h = (NodeOk-list m l n h.0, All-NodeOk_list m l ns h.1)

  pub SharedOk-list :
      (m : Nodemap B) (a : Allocation B) (l : List (Node B))
      → SharedOk lib m a
      → SharedOk lib (record m { nodelist = l }) a
  SharedOk-list m a l ok = record {
    used_size = ok.used_size;
    alloc_size = ok.alloc_size;
    marked = ok.marked;
    map_count = ok.map_count;
    task_count = ok.task_count;
  }

  pub Grows-list :
      (m m' : Nodemap B) (a a' : Allocation B) (l : List (Node B))
      → Grows lib m a m' a'
      → Grows lib m a (record m' { nodelist = l }) a'
  Grows-list m m' a a' l g = record {
    same_policy = g.same_policy;
    same_size = g.same_size;
    same_tasks = g.same_tasks;
    less = g.less;
    map_balance = g.map_balance;
    keeps = g.keeps;
    fresh = g.fresh;
    exact = g.exact;
    stays = g.stays;
  }

  -- A visit to one node leaves a node apart from it as it was.
  pub NodeOk-Apart :
      (s t : Site B) (k : Node B)
      → Effect lib s t
      → Apart lib k s.node
      → NodeOk lib s.map k
      → NodeOk lib t.map k
  NodeOk-Apart s t k eff apart =
      NodeOk-move s.map t.map k eff.grows.same_size (λ i h. eff.outside _ (omega arith))

  pub All-NodeOk-Apart :
      (s t : Site B) (ns : List (Node B))
      → Effect lib s t
      → All (Apart lib s.node) ns
      → All (NodeOk lib s.map) ns
      → All (NodeOk lib t.map) ns
  All-NodeOk-Apart s t [] eff apart ok = tt
  All-NodeOk-Apart s t (k ∷ ks) eff apart ok = (
    NodeOk-Apart s t k eff (ground (arith, apart.0)) ok.0,
    All-NodeOk-Apart s t ks eff apart.1 ok.1,
  )

  Apart-Same :
      (x y : Node B) (ns ks : List (Node B))
      → y.ncpus ≡ x.ncpus
      → y.localcpus ≡ x.localcpus
      → Same ns ks
      → All (Apart lib x) ns
      → All (Apart lib y) ks
  Apart-Same x y [] [] e f same apart = tt
  Apart-Same x y [] (k ∷ ks) e f same apart = absurd same
  Apart-Same x y (n ∷ ns) [] e f same apart = absurd same
  Apart-Same x y (n ∷ ns) (k ∷ ks) e f same apart =
      (ground (arith, apart.0, e, f, same.0, same.1), Apart-Same x y ns ks e f same.2 apart.1)

  pub AllApart-Same : (ns ks : List (Node B)) → Same ns ks → AllApart lib ns → AllApart lib ks
  AllApart-Same [] [] same apart = tt
  AllApart-Same [] (k ∷ ks) same apart = absurd same
  AllApart-Same (n ∷ ns) [] same apart = absurd same
  AllApart-Same (n ∷ ns) (k ∷ ks) same apart =
      (Apart-Same n k ns ks same.0 same.1 same.2 apart.0, AllApart-Same ns ks same.2 apart.1)

  -- What a walk over the nodes `ns` from the map `m` and the allocation `a` gives.
  pub record Walked (ns : List (Node B)) (m : Nodemap B) (a : Allocation B) (p : Pass B)
      : Type 0 where
    pub shared : SharedOk lib p.map p.alloc
    pub nodes : All (NodeOk lib p.map) p.map.nodelist
    pub same : Same ns p.map.nodelist
    pub grows : Grows lib m a p.map p.alloc
    pub balance : total_navail ns + p.alloc.nleft ≡ total_navail p.map.nodelist + a.nleft
    pub others : (k : Node B) → All (Apart lib k) ns → NodeOk lib m k → NodeOk lib p.map k

  pub Walked-stop :
      (ns : List (Node B)) (m : Nodemap B) (a : Allocation B)
      → SharedOk lib m a
      → All (NodeOk lib m) ns
      → Walked ns m a (record { map = record m { nodelist = ns }; alloc = a })
  Walked-stop ns m a shared nodes = record {
    shared = SharedOk-list m a ns shared;
    nodes = All-NodeOk_list m ns ns nodes;
    same = Same-refl ns;
    grows = Grows-list m m a a ns (Grows-refl lib m a);
    balance = refl;
    others = λ k apart ok. NodeOk-list m ns k ok;
  }

  pub Walked-step :
      (s t : Site B) (ns : List (Node B)) (p : Pass B)
      → SiteOk lib t
      → Effect lib s t
      → All (Apart lib s.node) ns
      → Walked ns t.map t.alloc p
      → Walked (s.node ∷ ns) s.map s.alloc (put_back t.node p)
  Walked-step s t ns p valid eff apart rest =
      let l = t.node ∷ p.map.nodelist in
      record {
        shared = SharedOk-list p.map p.alloc l rest.shared;
        nodes = (
          NodeOk-list p.map l t.node (
              rest.others t.node
                (Apart-Same s.node t.node ns ns eff.same_ncpus eff.same_local (Same-refl ns) apart)
                valid.1),
          All-NodeOk_list p.map l p.map.nodelist rest.nodes,
        );
        same = (eff.same_ncpus, eff.same_local, rest.same);
        grows = Grows-list s.map p.map s.alloc p.alloc l (Grows-trans lib eff.grows rest.grows);
        balance = omega (arith, eff.balance, rest.balance);
        others = λ k away ok.
            NodeOk-list p.map l k (rest.others k away.1 (NodeOk-Apart s t k eff away.0 ok));
      }

  module _ (more : Allocation B → Bool) (visit : Site B → Site B)
      (visit_lem : (s : Site B)
        → SiteOk lib s
        → SiteOk lib (visit s) × Effect lib s (visit s)) where
    pub walk-Walked :
        (ns : List (Node B)) (m : Nodemap B) (a : Allocation B)
        → SharedOk lib m a
        → All (NodeOk lib m) ns
        → AllApart lib ns
        → Walked ns m a (walk more visit ns m a)
    unfolding walk
    walk-Walked [] m a shared nodes apart = Walked-stop [] m a shared nodes
    walk-Walked (n ∷ ns) m a shared nodes apart = elim (Bool-cases (more a)) [
      | inl e ↦
          let s : Site B = record { map = m; node = n; alloc = a } in
          let (ok, eff) = visit_lem s (shared, nodes.0) in
          rw (e, walk)
            (Walked-step s (visit s) ns _ ok eff apart.0 (
              walk-Walked ns (visit s).map (visit s).alloc ok.0
                (All-NodeOk-Apart s (visit s) ns eff apart.0 nodes.1) apart.1))
      | inr e ↦ rw (e, walk) (Walked-stop (n ∷ ns) m a shared nodes)
    ]

    -- A walk without an early end, whose visits each take all of a node or all that is wanted, takes
    -- all of every node or all that is wanted.
    module _
        (visit_takes : (s : Site B)
          → SiteOk lib s
          → ((visit s).alloc.nleft ≡ 0) ⊎ ((visit s).node.navail ≡ 0))
        (all_the_way : (a : Allocation B) → more a ≡ true) where
      pub walk_takes :
          (ns : List (Node B)) (m : Nodemap B) (a : Allocation B)
          → SharedOk lib m a
          → All (NodeOk lib m) ns
          → AllApart lib ns
          → ((walk more visit ns m a).alloc.nleft ≡ 0)
            ⊎ (total_navail (walk more visit ns m a).map.nodelist ≡ 0)
      unfolding walk
      walk_takes [] m a shared nodes apart = inr refl
      walk_takes (n ∷ ns) m a shared nodes apart =
          let s : Site B = record { map = m; node = n; alloc = a } in
          let (ok, eff) = visit_lem s (shared, nodes.0) in
          let later = All-NodeOk-Apart s (visit s) ns eff apart.0 nodes.1 in
          let rest = walk-Walked ns (visit s).map (visit s).alloc ok.0 later apart.1 in
          rw (all_the_way a, walk)
            (ground (
              arith,
              visit_takes s (shared, nodes.0),
              walk_takes ns (visit s).map (visit s).alloc ok.0 later apart.1,
              rest.grows.less,
            ))
