-- ===== src/Cpuset/Nodemap/Create.antt =====
-- `nodemap_create`, `node_create` and `nodemap_policy_update` (cpuset/nodemap.c). What libcpuset
-- says of the machine is a parameter; that a call of it or of malloc fails is not modelled.
use slurm_spank_plugins.Base.{
  ℕ, ◌+◌, ◌-◌, Bool, true, false, if◌then◌else◌, Option, none, some, List, [], ◌∷◌,
}
use slurm_spank_plugins.Cpuset.Bitmask.{BitmaskLib}
use slurm_spank_plugins.Cpuset.Conf.{
  Conf, best_fit, first_fit, worst_fit, cpuset_conf_alloc_idle_multiple,
}
use slurm_spank_plugins.Cpuset.Nodemap.State.{Node, Nodemap, default_policy}
use slurm_spank_plugins.Cpuset.Nodemap.Node.{ascending}

-- What the plugin learns from libcpuset and from the functions of cpuset/util.c.
pub record Machine (B : Type 0) : Type 0 where
  pub cpumask_size : ℕ
  pub memmask_size : ℕ
  -- `current_cpuset_cpus`
  pub current_cpus : B
  -- `used_cpus_bitmask`, which may fail
  pub used_cpus : Option B
  -- `cpuset_localcpus` of one memory node
  pub localcpus : ℕ → B
  -- Whether a node is one of `cpuset_localmems` of some CPUs
  pub localmems : B → ℕ → Bool

unfoldable pub nodemap_policy_update : {B : Type 0} → Nodemap B → Conf → Nodemap B
nodemap_policy_update m cf = record m {
  policy = record {
    reverse = cf.reverse_order;
    best_fit = elim cf.policy [ best_fit ↦ true | first_fit ↦ false | worst_fit ↦ false ];
    first_fit = elim cf.policy [ best_fit ↦ false | first_fit ↦ true | worst_fit ↦ false ];
    worst_fit = elim cf.policy [ best_fit ↦ false | first_fit ↦ false | worst_fit ↦ true ];
    alloc_idle_first = cf.alloc_idle_nodes;
    alloc_idle_multiples_only = cpuset_conf_alloc_idle_multiple cf;
  };
}

module _ {B : Type 0} (lib : BitmaskLib B) (machine : Machine B) where
  open lib use {bitmask_alloc, isbitset, setbit, weight, first, copy}
  open machine use {cpumask_size, memmask_size, current_cpus, used_cpus, localcpus, localmems}

  -- The loop of `node_create` over the node's CPUs.
  unfoldable pub copy_used : Nodemap B → ℕ → List ℕ → B → B
  copy_used m offset [] used = used
  copy_used m offset (i ∷ is) used =
      copy_used m offset is (if isbitset m.usedcpus (offset + i) then setbit used i else used)

  unfoldable pub node_create : Nodemap B → ℕ → Node B
  unfolding copy_used
  node_create m id =
      let local = localcpus id in
      let ncpus = weight local in
      let used = copy_used m (first local) (ascending ncpus 0) (bitmask_alloc ncpus) in
      record {
        nodeid = id;
        ncpus = ncpus;
        navail = ncpus - weight used;
        localcpus = local;
        usedcpus = used;
      }

  unfoldable pub node_cpus_available : Nodemap B → ℕ → Bool
  node_cpus_available m i = localmems m.cpus i

  -- The loop of `nodemap_create` over the nodes; `list_push` puts a node in front.
  unfoldable pub create_nodes : Nodemap B → List ℕ → List (Node B) → List (Node B)
  unfolding node_create node_cpus_available
  create_nodes m [] nodes = nodes
  create_nodes m (i ∷ is) nodes =
      create_nodes m is (if node_cpus_available m i then node_create m i ∷ nodes else nodes)

  -- The map before its nodes are created.
  unfoldable pub empty_map : B → Nodemap B
  empty_map used = record {
    policy = default_policy;
    nnodes = memmask_size;
    ncpus = cpumask_size;
    navail = cpumask_size - weight used;
    usedcpus = used;
    cpus = current_cpus;
    nodelist = [];
  }

  -- `none` is a NULL return. A mask that is given is copied into one of its weight.
  unfoldable pub nodemap_create : Conf → Option B → Option (Nodemap B)
  unfolding nodemap_policy_update create_nodes empty_map
  nodemap_create cf given =
      let used : Option B = elim given [
        | none ↦ used_cpus
        | some u ↦ some (copy (bitmask_alloc (weight u)) u)
      ] in
      elim used [
        | none ↦ none
        | some u ↦
            let m = empty_map u in
            some (
              nodemap_policy_update
                (record m { nodelist = create_nodes m (ascending memmask_size 0) [] }) cf)
      ]
