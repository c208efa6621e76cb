-- ===== src/Cpuset/Nodemap/Built.antt =====
-- `nodemap_create` (cpuset/nodemap.c) builds a map that holds the invariants of the allocator.
use mathlib.Core.Path.{subst}
use slurm_spank_plugins.Base.{
  ℕ, zero, suc, ◌+◌, ◌≤◌, ◌<◌, true, false, ◌&&◌, ◌||◌, ltb, leb, ◌≡◌, ◌⊎◌, ◌∙◌, refl, List, [],
  ◌∷◌, arith, All, none, some, if◌then◌else◌, if_rule,
}
use slurm_spank_plugins.Cpuset.Bitmask.{BitmaskLib}
use slurm_spank_plugins.Cpuset.Bitmask.Count.{weight-le}
use slurm_spank_plugins.Cpuset.Conf.{Conf}
use slurm_spank_plugins.Cpuset.Nodemap.State.{Node, Nodemap}
use slurm_spank_plugins.Cpuset.Nodemap.Node.{ascending}
use slurm_spank_plugins.Cpuset.Nodemap.Create.{
  Machine, copy_used, node_create, node_cpus_available, create_nodes, empty_map, nodemap_create,
  nodemap_policy_update,
}
use slurm_spank_plugins.Cpuset.Nodemap.Invariant.{NodeOk, Apart, AllApart}
use slurm_spank_plugins.Cpuset.Nodemap.Correct.{MapOk}
use slurm_spank_plugins.Cpuset.Nodemap.WorstFit.{HasFit}

module _ {B : Type 0} (lib : BitmaskLib B) (machine : Machine B) where
  open lib use {
    bitmask_alloc, nbits, isbitset, setbit, weight, first, copy, nbits-alloc, isbitset-alloc,
    nbits-setbit, isbitset-setbit, isbitset-copy,
  }
  open machine use {cpumask_size, memmask_size, current_cpus, used_cpus, localcpus, localmems}

  -- What the allocator needs of the machine: the nodes of the current cpuset have CPUs, which have
  -- consecutive numbers that no other node shares, and a mask of used CPUs has a bit for each CPU.
  pub record Topology : Type 0 where
    pub some_cpus : (i : ℕ) → localmems current_cpus i ≡ true → 0 < weight (localcpus i)
    pub cpus_fit :
        (i : ℕ)
        → localmems current_cpus i ≡ true
        → first (localcpus i) + weight (localcpus i) ≤ cpumask_size
    pub disjoint :
        (i j : ℕ)
        → i < j
        → localmems current_cpus i ≡ true
        → localmems current_cpus j ≡ true
        → (first (localcpus i) + weight (localcpus i) ≤ first (localcpus j))
          ⊎ (first (localcpus j) + weight (localcpus j) ≤ first (localcpus i))
    pub used_size : (u : B) → used_cpus ≡ some u → nbits u ≡ cpumask_size

  nbits-copy_used :
      (m : Nodemap B) (o : ℕ) (is : List ℕ) (u : B)
      → nbits (copy_used lib machine m o is u) ≡ nbits u
  unfolding copy_used
  nbits-copy_used m o [] u = refl
  nbits-copy_used m o (i ∷ is) u =
      ground
        (arith, nbits-copy_used m o is (setbit u i), nbits-copy_used m o is u, nbits-setbit u i)

  isbitset-copy_used :
      (m : Nodemap B) (o n i : ℕ) (u : B) (k : ℕ)
      → i + n ≤ nbits u
      → isbitset (copy_used lib machine m o (ascending n i) u) k ≡ (
          if leb i k && ltb k (i + n)
          then isbitset m.usedcpus (o + k) || isbitset u k
          else isbitset u k)
  unfolding copy_used
  isbitset-copy_used m o zero i u k h = ground arith
  isbitset-copy_used m o (suc n) i u k h = ground (
    arith,
    isbitset-copy_used m o n (suc i) (setbit u i) k,
    isbitset-copy_used m o n (suc i) u k,
    nbits-setbit u i,
    isbitset-setbit u i k,
  )

  module _ (ok : Topology) (m : Nodemap B) (size : m.ncpus ≡ cpumask_size)
      (here : m.cpus ≡ current_cpus) where
    node_create-NodeOk :
        (i : ℕ) → localmems current_cpus i ≡ true → NodeOk lib m (node_create lib machine m i)
    unfolding node_create
    node_create-NodeOk i avail =
        let n = weight (localcpus i) in
        let o = first (localcpus i) in
        let used = copy_used lib machine m o (ascending n 0) (bitmask_alloc n) in
        let sized = nbits-copy_used m o (ascending n 0) (bitmask_alloc n) in
        record {
          node_size = sized ∙ nbits-alloc n;
          node_count = omega (arith, weight-le lib used, sized, nbits-alloc n);
          within = omega (arith, ok.cpus_fit i avail, size);
          in_step = λ k h. ground (
            arith,
            isbitset-copy_used m o n 0 (bitmask_alloc n) k,
            nbits-alloc n,
            isbitset-alloc n k,
          );
        }

    -- A node that was created from one of the ids below `i`.
    record Origin (i : ℕ) (n : Node B) : Type 0 where
      id : ℕ
      below : id < i
      avail : localmems current_cpus id ≡ true
      local : n.localcpus ≡ localcpus id
      count : n.ncpus ≡ weight (localcpus id)

    record NodesOk (i : ℕ) (nodes : List (Node B)) : Type 0 where
      each : All (NodeOk lib m) nodes
      apart : AllApart lib nodes
      populated : All (λ n. 0 < n.ncpus) nodes
      origins : All (Origin i) nodes

    Origins_up : (i : ℕ) (nodes : List (Node B)) → All (Origin i) nodes → All (Origin (suc i)) nodes
    Origins_up i [] h = tt
    Origins_up i (n ∷ ns) (o, os) = (
      record { id = o.id; below = omega arith; avail = o.avail; local = o.local; count = o.count },
      Origins_up i ns os,
    )

    created-Apart :
        (i : ℕ) (nodes : List (Node B))
        → localmems current_cpus i ≡ true
        → All (Origin i) nodes
        → All (Apart lib (node_create lib machine m i)) nodes
    unfolding node_create
    created-Apart i [] avail h = tt
    created-Apart i (n ∷ ns) avail (o, os) = (
      ground (arith, ok.disjoint o.id i o.below o.avail avail, o.local, o.count),
      created-Apart i ns avail os,
    )

    NodesOk-push :
        (i : ℕ) (nodes : List (Node B))
        → localmems current_cpus i ≡ true
        → NodesOk i nodes
        → NodesOk (suc i) (node_create lib machine m i ∷ nodes)
    unfolding node_create
    NodesOk-push i nodes avail h = record {
      each = (node_create-NodeOk i avail, h.each);
      apart = (created-Apart i nodes avail h.origins, h.apart);
      populated = (ok.some_cpus i avail, h.populated);
      origins = (
        record { id = i; below = omega arith; avail = avail; local = refl; count = refl },
        Origins_up i nodes h.origins,
      );
    }

    NodesOk-skip : (i : ℕ) (nodes : List (Node B)) → NodesOk i nodes → NodesOk (suc i) nodes
    NodesOk-skip i nodes h = record {
      each = h.each;
      apart = h.apart;
      populated = h.populated;
      origins = Origins_up i nodes h.origins;
    }

    NodesOk-step :
        (i : ℕ) (nodes : List (Node B))
        → NodesOk i nodes
        → NodesOk (suc i) (
            if node_cpus_available lib machine m i
            then node_create lib machine m i ∷ nodes
            else nodes)
    unfolding node_cpus_available
    NodesOk-step i nodes h =
        if_rule (NodesOk (suc i)) (localmems m.cpus i) _ _
          (λ e. NodesOk-push i nodes (subst (λ c. localmems c i ≡ true) here e) h)
          (λ e. NodesOk-skip i nodes h)

    create_nodes-NodesOk :
        (n i j : ℕ) (nodes : List (Node B))
        → i + n ≡ j
        → NodesOk i nodes
        → NodesOk j (create_nodes lib machine m (ascending n i) nodes)
    unfolding create_nodes
    create_nodes-NodesOk zero i j nodes e h =
        let e' : i ≡ j = omega arith in subst (λ k. NodesOk k nodes) e' h
    create_nodes-NodesOk (suc n) i j nodes e h =
        create_nodes-NodesOk n (suc i) j _ (omega arith) (NodesOk-step i nodes h)

    create_nodes_all :
        NodesOk memmask_size (create_nodes lib machine m (ascending memmask_size 0) [])
    create_nodes_all =
        create_nodes-NodesOk memmask_size 0 memmask_size [] (omega arith)
          (record { each = tt; apart = tt; populated = tt; origins = tt })

  abbrev created : Conf → B → Nodemap B
  created cf u =
      let m = empty_map lib machine u in
      nodemap_policy_update
        (record m { nodelist = create_nodes lib machine m (ascending memmask_size 0) [] }) cf

  All-NodeOk-created :
      (cf : Conf) (u : B) (ns : List (Node B))
      → All (NodeOk lib (empty_map lib machine u)) ns
      → All (NodeOk lib (created cf u)) ns
  unfolding nodemap_policy_update
  All-NodeOk-created cf u [] h = tt
  All-NodeOk-created cf u (n ∷ ns) (h, hs) = (
    record {
      node_size = h.node_size;
      node_count = h.node_count;
      within = h.within;
      in_step = h.in_step;
    },
    All-NodeOk-created cf u ns hs,
  )

  -- On a machine whose nodes have CPUs, numbered without gaps and shared by no two nodes, the map that
  -- `nodemap_create` makes from the CPUs in use, under any configuration, is well formed, has a policy,
  -- and holds the CPUs in use and the number of CPUs of the machine.
  pub nodemap_create-MapOk :
      (cf : Conf) (u : B)
      → Topology
      → used_cpus ≡ some u
      → (m : Nodemap B) × (nodemap_create lib machine cf none ≡ some m)
        × MapOk lib m
        × HasFit m.policy
        × (m.usedcpus ≡ u)
        × (m.ncpus ≡ cpumask_size)
  unfolding nodemap_create
  nodemap_create-MapOk cf u ok e =
      let nodes = create_nodes_all ok (empty_map lib machine u) refl refl in
      let sized = ok.used_size u e in
      (
        created cf u,
        rw e,
        record {
          used_size = sized;
          map_count = omega (arith, weight-le lib u, sized);
          nodes = All-NodeOk-created cf u _ nodes.each;
          apart = nodes.apart;
          populated = nodes.populated;
        },
        has_fit cf,
        refl,
        refl,
      )
    where
      has_fit : (cf : Conf) → HasFit (created cf u).policy
      has_fit cf = ground arith

  -- A mask that is handed to `nodemap_create` is cut to as many bits as it has bits set: a CPU in use
  -- with a number that is not below that count is free in the map.
  pub nodemap_create_loses :
      (cf : Conf) (u : B)
      → (m : Nodemap B) × (nodemap_create lib machine cf (some u) ≡ some m)
        × ((j : ℕ) → weight u ≤ j → isbitset m.usedcpus j ≡ false)
  unfolding nodemap_create
  nodemap_create_loses cf u = (
    created cf (copy (bitmask_alloc (weight u)) u),
    refl,
    λ j h. ground (arith, isbitset-copy (bitmask_alloc (weight u)) u j, nbits-alloc (weight u)),
  )
