-- ===== src/Cpuset/Tests.antt =====
-- The models of cpuset/ run on small inputs, and their theorems applied to them.
use slurm_spank_plugins.Base.{
  ℕ, ◌≤◌, Bool, true, false, ◌==◌, ◌≡◌, refl, inr, List, [], ◌∷◌, arith, Option, none, some, codes,
  strip_prefix, str_eq, str_case_eq, ◌++◌, Bytes,
}
use slurm_spank_plugins.Cpuset.Conf.{
  Conf, worst_fit, cpuset_conf_create, Reply, cpuset_conf_parse_opt,
}
use slurm_spank_plugins.Cpuset.Conf.Options.{policy_name, parse_opt_policy, parse_opt_refused}
use slurm_spank_plugins.Cpuset.Instance.{Mask, masks, sorts, two_nodes, in_use}
use slurm_spank_plugins.Cpuset.Machines.{two_nodes-Topology}
use slurm_spank_plugins.Cpuset.Nodemap.State.{
  Node, Nodemap, Pass, Policy, Outcome, ok, refused, fault, out_of_fuel, default_policy,
}
use slurm_spank_plugins.Cpuset.Nodemap.Node.{node_cmp_free, node_cmp_nodeid, node_cmp_avail}
use slurm_spank_plugins.Cpuset.Nodemap.Allocate.{
  nodemap_allocate, allocate_rest, allocate_by_policy, allocation_create, alloc_idle_nodes,
  should_allocate_idle_nodes, sort_nodes,
}
use slurm_spank_plugins.Cpuset.Nodemap.WorstFit.{HasFit}
use slurm_spank_plugins.Cpuset.Nodemap.Correct.{
  MapOk, Granted, nodemap_allocate_grants, nodemap_allocate_hangs,
}
use slurm_spank_plugins.Cpuset.Nodemap.Create.{nodemap_create}
use slurm_spank_plugins.Cpuset.Nodemap.Built.{nodemap_create-MapOk, nodemap_create_loses}

abbrev small_node : ℕ → ℕ → (ℕ → Bool) → Node Mask
small_node id avail used = record {
  nodeid = id;
  ncpus = 2;
  navail = avail;
  localcpus = two_nodes.localcpus id;
  usedcpus = record { size = 2; bits = used };
}

abbrev small_map : Policy → Nodemap Mask
small_map policy = record {
  policy = policy;
  nnodes = 2;
  ncpus = 4;
  navail = 3;
  usedcpus = in_use;
  cpus = two_nodes.current_cpus;
  nodelist = small_node 1 2 (λ i. false) ∷ small_node 0 1 (λ i. i == 1) ∷ [];
}

abbrev worst_policy : Policy
worst_policy = record default_policy { best_fit = false; worst_fit = true }

small_map-MapOk : (policy : Policy) → MapOk masks (small_map policy)
small_map-MapOk policy = record {
  used_size = refl;
  map_count = refl;
  nodes = (
    record {
      node_size = refl;
      node_count = refl;
      within = omega arith;
      in_step = λ i h. ground arith;
    },
    (
      record {
        node_size = refl;
        node_count = refl;
        within = omega arith;
        in_step = λ i h. ground arith;
      },
      tt,
    ),
  );
  apart = ((inr (omega arith), tt), (tt, tt));
  populated = omega arith;
}

-- The CPUs of a result, and the tasks that are left.
abbrev shape : Outcome (Pass Mask) → Option (List Bool × ℕ)
shape (ok p) =
    let b = p.alloc.allocated_cpus.bits in some (b 0 ∷ b 1 ∷ b 2 ∷ b 3 ∷ [], p.alloc.nleft)
shape refused = none
shape fault = none
shape out_of_fuel = none

-- Two CPUs fill the idle node, three the free CPU of the other node too.
fills_idle_node :
    (shape (nodemap_allocate masks sorts 4 2 (small_map default_policy) 2)
      ≡ some (false ∷ false ∷ true ∷ true ∷ [], 0))
    × (shape (nodemap_allocate masks sorts 4 3 (small_map worst_policy) 3)
        ≡ some (true ∷ false ∷ true ∷ true ∷ [], 0))
    × (nodemap_allocate masks sorts 4 4 (small_map default_policy) 4 ≡ refused)
unfolding nodemap_allocate allocate_rest allocate_by_policy allocation_create alloc_idle_nodes
    should_allocate_idle_nodes sort_nodes node_cmp_nodeid node_cmp_free node_cmp_avail
fills_idle_node = (refl, refl, refl)

nodemap_allocate_grants_example :
    (q : Pass Mask) × (nodemap_allocate masks sorts 4 3 (small_map worst_policy) 3 ≡ ok q)
    × Granted masks sorts (small_map worst_policy) 3 q
nodemap_allocate_grants_example =
    nodemap_allocate_grants masks sorts (small_map worst_policy) 3 3 (small_map-MapOk worst_policy)
      refl (omega arith) (omega arith) (omega arith)

-- A map that counts three free CPUs, with one node that has two.
abbrev short_map : Nodemap Mask
short_map = record (small_map worst_policy) { nodelist = small_node 1 2 (λ i. false) ∷ [] }

short_map-MapOk : MapOk masks short_map
short_map-MapOk = record {
  used_size = refl;
  map_count = refl;
  nodes = (
    record {
      node_size = refl;
      node_count = refl;
      within = omega arith;
      in_step = λ i h. ground arith;
    },
    tt,
  );
  apart = (tt, tt);
  populated = omega arith;
}

nodemap_allocate_hangs_example : nodemap_allocate masks sorts 4 1000 short_map 3 ≡ out_of_fuel
nodemap_allocate_hangs_example =
    nodemap_allocate_hangs masks sorts short_map 3 1000 short_map-MapOk refl refl refl (omega arith)
      (omega arith) (omega arith)

nodemap_create-MapOk_example :
    (m : Nodemap Mask) × (nodemap_create masks two_nodes cpuset_conf_create none ≡ some m)
    × MapOk masks m
    × HasFit m.policy
    × (m.usedcpus ≡ in_use)
    × (m.ncpus ≡ 4)
nodemap_create-MapOk_example =
    nodemap_create-MapOk masks two_nodes cpuset_conf_create in_use two_nodes-Topology refl

nodemap_create_loses_example :
    (m : Nodemap Mask) × (nodemap_create masks two_nodes cpuset_conf_create (some in_use) ≡ some m)
    × ((j : ℕ) → masks.weight in_use ≤ j → masks.isbitset m.usedcpus j ≡ false)
nodemap_create_loses_example = nodemap_create_loses masks two_nodes cpuset_conf_create in_use

abbrev no_file : Conf → Bytes → Reply
no_file c name = (c, false)

parse_opt_policy_example :
    (cpuset_conf_parse_opt no_file cpuset_conf_create (policy_name worst_fit)
      ≡ (record cpuset_conf_create { policy = worst_fit }, true))
    × (cpuset_conf_parse_opt no_file cpuset_conf_create (codes "policy=" ++ policy_name worst_fit)
        ≡ (record cpuset_conf_create { policy = worst_fit }, false))
parse_opt_policy_example = parse_opt_policy no_file cpuset_conf_create worst_fit

unknown_refused : (cpuset_conf_parse_opt no_file cpuset_conf_create (codes "fast")).1 ≡ false
unfolding cpuset_conf_parse_opt str_eq strip_prefix str_case_eq
unknown_refused = refl

unknown_prefix :
    (strip_prefix (codes "policy=") (codes "fast") ≡ none)
    × (strip_prefix (codes "conf=") (codes "fast") ≡ none)
unfolding strip_prefix
unknown_prefix = (refl, refl)

parse_opt_refused_example :
    (cpuset_conf_parse_opt no_file cpuset_conf_create (codes "fast")).0 ≡ cpuset_conf_create
parse_opt_refused_example =
    parse_opt_refused no_file cpuset_conf_create (codes "fast") unknown_prefix.0 unknown_prefix.1
      unknown_refused
