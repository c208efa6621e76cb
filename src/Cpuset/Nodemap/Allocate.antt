-- ===== src/Cpuset/Nodemap/Allocate.antt =====
-- The functions of cpuset/nodemap.c that walk the list of nodes, up to `nodemap_allocate`.
use slurm_spank_plugins.Base.{
  ℕ, zero, suc, ◌%◌, Bool, true, false, not, ◌&&◌, ◌==◌, ltb, leb, if◌then◌else◌, Option, none,
  some, List, [], ◌∷◌, ℤ,
}
use slurm_spank_plugins.Cpuset.Bitmask.{BitmaskLib}
use slurm_spank_plugins.Cpuset.Nodemap.State.{
  Node, Nodemap, Allocation, Site, Pass, Outcome, ok, refused, fault, out_of_fuel,
}
use slurm_spank_plugins.Cpuset.Nodemap.Sort.{SortLib}
use slurm_spank_plugins.Cpuset.Nodemap.Node.{
  find_multiple_of_node_size, find_node_lt_size, node_cmp_free, node_cmp_avail, node_cmp_nodeid,
  node_cmp_reverse, node_allocate_n, node_allocate_all,
}

-- `list_find_first`, as far as the code uses it: whether there is such a node.
unfoldable pub find_first : {B : Type 0} → (Node B → Option Bool) → List (Node B) → Option Bool
find_first fn [] = some false
find_first fn (n ∷ ns) = elim (fn n) [
  | none ↦ none
  | some b ↦ elim b [ true ↦ some true | false ↦ find_first fn ns ]
]

unfoldable pub should_allocate_idle_nodes : {B : Type 0} → Nodemap B → ℕ → Option Bool
unfolding find_first find_multiple_of_node_size find_node_lt_size
should_allocate_idle_nodes m count =
    if not m.policy.alloc_idle_first
    then some false
    else if m.policy.alloc_idle_multiples_only
    then find_first (λ n. find_multiple_of_node_size n count) m.nodelist
    else find_first (λ n. find_node_lt_size n count) m.nodelist

-- Puts a node back in front of the nodes behind it.
abbrev pub put_back : {B : Type 0} → Node B → Pass B → Pass B
put_back n p = record p { map = record p.map { nodelist = n ∷ p.map.nodelist } }

-- A loop over the nodes, that ends early where `more` fails.
unfoldable pub walk :
    {B : Type 0}
    → (Allocation B → Bool)
    → (Site B → Site B)
    → List (Node B)
    → Nodemap B
    → Allocation B
    → Pass B
walk more visit [] m a = record { map = record m { nodelist = [] }; alloc = a }
walk more visit (n ∷ ns) m a = elim (more a) [
  | true ↦
      let s = visit (record { map = m; node = n; alloc = a }) in
      put_back s.node (walk more visit ns s.map s.alloc)
  | false ↦ record { map = record m { nodelist = n ∷ ns }; alloc = a }
]

unfoldable pub sort_nodes :
    {B : Type 0} → SortLib (Node B) → (Node B → Node B → ℤ) → Pass B → Pass B
sort_nodes lists cmp p = record p {
  map = record p.map { nodelist = lists.list_sort cmp p.map.nodelist };
}

module _ {B : Type 0} (lib : BitmaskLib B) where
  open lib use {bitmask_alloc}

  unfoldable pub allocation_create : ℕ → ℕ → Allocation B
  allocation_create cpumask_size ntasks = record {
    ntasks = ntasks;
    nleft = ntasks;
    allocated_cpus = bitmask_alloc cpumask_size;
  }

  -- The body of the loop of `alloc_idle_nodes`.
  unfoldable pub idle_visit : Site B → Site B
  unfolding node_allocate_n
  idle_visit s =
      if s.node.navail == 0
      then s
      else if s.map.policy.alloc_idle_multiples_only && not (s.alloc.nleft % s.node.navail == 0)
      then s
      else if s.node.navail == s.node.ncpus && leb s.node.navail s.alloc.nleft
      then (node_allocate_n lib s (some s.node.ncpus)).0
      else s

  unfoldable pub alloc_idle_nodes : Pass B → Pass B
  unfolding walk idle_visit
  alloc_idle_nodes p = walk (λ a. ltb 0 a.nleft) idle_visit p.map.nodelist p.map p.alloc

  module _ (lists : SortLib (Node B)) where
    unfoldable pub do_allocation : Pass B → Option (Node B → Node B → ℤ) → Pass B
    unfolding sort_nodes walk
    do_allocation p sort_f =
        let q : Pass B = elim sort_f [ none ↦ p | some cmp ↦ sort_nodes lists cmp p ] in
        walk (λ _. true) (node_allocate_all lib) q.map.nodelist q.map q.alloc

    unfoldable pub allocation_best_fit : Pass B → Pass B
    unfolding do_allocation
    allocation_best_fit p = do_allocation p (some node_cmp_free)

    unfoldable pub allocation_first_fit : Pass B → Pass B
    unfolding do_allocation
    allocation_first_fit p = do_allocation p none

    -- `node_allocate_n` at the head of the list; without a node, NULL is followed.
    unfoldable pub take_one : List (Node B) → Pass B → Option (Pass B)
    unfolding node_allocate_n
    take_one [] p = none
    take_one (n ∷ ns) p =
        let s =
          (node_allocate_n lib (record { map = p.map; node = n; alloc = p.alloc }) (some 1)).0 in
        some (record { map = record s.map { nodelist = s.node ∷ ns }; alloc = s.alloc })

    -- The body of the loop of `allocation_worst_fit`.
    unfoldable pub worst_fit_round : Pass B → Option (Pass B)
    unfolding sort_nodes take_one
    worst_fit_round p = let q = sort_nodes lists node_cmp_avail p in take_one q.map.nodelist q

    unfoldable pub allocation_worst_fit : ℕ → Pass B → Outcome (Pass B)
    unfolding worst_fit_round
    allocation_worst_fit zero p = if p.alloc.nleft == 0 then ok p else out_of_fuel
    allocation_worst_fit (suc fuel) p = elim (p.alloc.nleft == 0) [
      | true ↦ ok p
      | false ↦ elim (worst_fit_round p) [ none ↦ fault | some q ↦ allocation_worst_fit fuel q ]
    ]

    -- The choice of a policy in `nodemap_allocate`.
    unfoldable pub allocate_by_policy : ℕ → Pass B → Outcome (Pass B)
    unfolding allocation_best_fit allocation_first_fit allocation_worst_fit
    allocate_by_policy fuel p =
        if p.map.policy.best_fit
        then ok (allocation_best_fit p)
        else if p.map.policy.first_fit
        then ok (allocation_first_fit p)
        else if p.map.policy.worst_fit
        then allocation_worst_fit fuel p
        else ok p

    -- What is left after the idle nodes.
    unfoldable pub allocate_rest : ℕ → Pass B → Outcome (Pass B)
    allocate_rest fuel p = if p.alloc.nleft == 0 then ok p else allocate_by_policy fuel p

    -- `nodemap_allocate` returns `allocated_cpus` of the allocation, also where `nleft` is not 0.
    unfoldable pub nodemap_allocate : ℕ → ℕ → Nodemap B → ℕ → Outcome (Pass B)
    nodemap_allocate cpumask_size fuel map ncpus =
        let cmp : Node B → Node B → ℤ =
          if not map.policy.reverse then node_cmp_nodeid else node_cmp_reverse in
        let p =
          sort_nodes lists cmp
            (record { map = map; alloc = allocation_create cpumask_size ncpus }) in
        if ltb map.navail ncpus then refused else elim (should_allocate_idle_nodes p.map ncpus) [
          | none ↦ fault
          | some idle ↦ allocate_rest fuel (if idle then alloc_idle_nodes p else p)
        ]
