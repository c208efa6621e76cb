-- ===== src/Cpuset/Nodemap/Node.antt =====
-- The functions of cpuset/nodemap.c that work on one node, from `find_multiple_of_node_size` to
-- `node_allocate_all`, and the comparisons that the nodes are sorted by.
use slurm_spank_plugins.Base.{
  ℕ, zero, suc, ◌+◌, ◌-◌, ◌%◌, Bool, true, false, not, ◌&&◌, ◌||◌, ◌==◌, ltb, leb, if◌then◌else◌,
  Option, none, some, List, [], ◌∷◌, ℤ, pos, negsuc, neg,
}
use slurm_spank_plugins.Cpuset.Bitmask.{BitmaskLib}
use slurm_spank_plugins.Cpuset.Nodemap.State.{Node, Nodemap, Allocation, Site}

-- `none` is the division by zero that a node without CPUs leads to.
unfoldable pub find_multiple_of_node_size : {B : Type 0} → Node B → ℕ → Option Bool
find_multiple_of_node_size n np =
    if n.ncpus == 0 then none else some (np % n.ncpus == 0 && n.navail == n.ncpus)

unfoldable pub find_node_lt_size : {B : Type 0} → Node B → ℕ → Option Bool
find_node_lt_size n np = some (leb n.ncpus np && n.navail == n.ncpus)

unfoldable pub node_cmp_free : {B : Type 0} → Node B → Node B → ℤ
node_cmp_free n1 n2 =
    if n1.navail == n2.navail then pos 0 else if ltb n1.navail n2.navail then negsuc 0 else pos 1

unfoldable pub node_cmp_avail : {B : Type 0} → Node B → Node B → ℤ
unfolding node_cmp_free
node_cmp_avail n1 n2 = neg (node_cmp_free n1 n2)

unfoldable pub node_cmp_nodeid : {B : Type 0} → Node B → Node B → ℤ
node_cmp_nodeid n1 n2 =
    if ltb n1.nodeid n2.nodeid then negsuc 0 else if ltb n2.nodeid n1.nodeid then pos 1 else pos 0

unfoldable pub node_cmp_reverse : {B : Type 0} → Node B → Node B → ℤ
unfolding node_cmp_nodeid
node_cmp_reverse n1 n2 = neg (node_cmp_nodeid n1 n2)

-- The values of `i` in `for (i = 0; i < n; i++)`, from `i` on, and in
-- `for (i = n - 1; i >= 0; i--)`.
abbrev pub ascending : ℕ → ℕ → List ℕ
ascending zero i = []
ascending (suc n) i = i ∷ ascending n (suc i)

abbrev pub descending : ℕ → List ℕ
descending zero = []
descending (suc n) = n ∷ descending n

module _ {B : Type 0} (lib : BitmaskLib B) where
  open lib use {isbitset, setbit, first}

  unfoldable pub node_cpu_to_global : Node B → ℕ → ℕ
  node_cpu_to_global n cpu = first n.localcpus + cpu

  -- The node, its map and the CPU's number, or the -1 for a CPU that is in use.
  unfoldable pub node_allocate_cpu : Nodemap B → Node B → ℕ → Option (Nodemap B × Node B × ℕ)
  unfolding node_cpu_to_global
  node_allocate_cpu m n cpu =
      let gcpu = node_cpu_to_global n cpu in
      if isbitset n.usedcpus cpu
      then none
      else if isbitset m.usedcpus gcpu
      then none
      else some (
        record m { usedcpus = setbit m.usedcpus gcpu; navail = m.navail - 1 },
        record n { usedcpus = setbit n.usedcpus cpu; navail = n.navail - 1 },
        gcpu,
      )

  unfoldable pub allocation_add_cpu : Allocation B → ℕ → Allocation B
  allocation_add_cpu a cpu = record a {
    allocated_cpus = setbit a.allocated_cpus cpu;
    nleft = a.nleft - 1;
  }

  -- `none` is the -1.
  unfoldable pub try_alloc : Site B → ℕ → Option (Site B)
  unfolding node_allocate_cpu allocation_add_cpu
  try_alloc s cpu = elim (node_allocate_cpu s.map s.node cpu) [
    | none ↦ none
    | some (m, n, gcpu) ↦
        some (record { map = m; node = n; alloc = allocation_add_cpu s.alloc gcpu })
  ]

  -- The loop of `node_allocate_n` over the CPUs that are left to look at, with `nalloc`.
  unfoldable pub allocate_loop : List ℕ → ℕ → ℕ → Site B → Site B × ℕ
  unfolding try_alloc
  allocate_loop [] count nalloc s = (s, nalloc)
  allocate_loop (i ∷ is) count nalloc s = elim (s.alloc.nleft == 0 || leb count nalloc) [
    | true ↦ (s, nalloc)
    | false ↦ elim (try_alloc s i) [
      | none ↦ allocate_loop is count nalloc s
      | some s' ↦ allocate_loop is count (nalloc + 1) s'
    ]
  ]

  -- `none` is a negative `count`.
  unfoldable pub node_allocate_n : Site B → Option ℕ → Site B × ℕ
  unfolding allocate_loop
  node_allocate_n s asked =
      let count : ℕ = elim asked [ none ↦ s.node.navail | some c ↦ c ] in
      if s.alloc.nleft == 0
      then (s, 0)
      else if not s.map.policy.reverse
      then allocate_loop (ascending s.node.ncpus 0) count 0 s
      else allocate_loop (descending s.node.ncpus) count 0 s

  unfoldable pub node_allocate_all : Site B → Site B
  unfolding node_allocate_n
  node_allocate_all s = (node_allocate_n s none).0
