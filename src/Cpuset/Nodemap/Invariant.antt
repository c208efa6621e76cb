-- ===== src/Cpuset/Nodemap/Invariant.antt =====
-- What a nodemap and an allocation in progress hold, and what the allocation from one node may
-- change: the invariants of cpuset/nodemap.c and the effect of its functions.
use slurm_spank_plugins.Base.{
  ℕ, ◌+◌, ◌≤◌, ◌<◌, true, false, ◌≡◌, ◌⊎◌, ◌∙◌, refl, inl, List, [], ◌∷◌, arith, All,
}
use slurm_spank_plugins.Cpuset.Bitmask.{BitmaskLib}
use slurm_spank_plugins.Cpuset.Nodemap.State.{Node, Nodemap, Allocation, Site}

-- The CPUs that are available on the nodes of a list.
abbrev pub total_navail : {B : Type 0} → List (Node B) → ℕ
total_navail [] = 0
total_navail (n ∷ ns) = n.navail + total_navail ns

module _ {B : Type 0} (lib : BitmaskLib B) where
  open lib use {nbits, isbitset, weight, first}

  -- The map and the allocation agree: what is allocated is marked as used, and the counters are
  -- those of the masks.
  pub record SharedOk (m : Nodemap B) (a : Allocation B) : Type 0 where
    pub used_size : nbits m.usedcpus ≡ m.ncpus
    pub alloc_size : nbits a.allocated_cpus ≡ m.ncpus
    pub marked : (j : ℕ) → isbitset a.allocated_cpus j ≡ true → isbitset m.usedcpus j ≡ true
    pub map_count : weight m.usedcpus + m.navail ≡ m.ncpus
    pub task_count : weight a.allocated_cpus + a.nleft ≡ a.ntasks

  -- A node's CPUs are numbered without a gap from the first of its local CPUs on, and its mask of
  -- used CPUs is the map's.
  pub record NodeOk (m : Nodemap B) (n : Node B) : Type 0 where
    pub node_size : nbits n.usedcpus ≡ n.ncpus
    pub node_count : weight n.usedcpus + n.navail ≡ n.ncpus
    pub within : first n.localcpus + n.ncpus ≤ m.ncpus
    pub in_step :
        (i : ℕ) → i < n.ncpus → isbitset n.usedcpus i ≡ isbitset m.usedcpus (first n.localcpus + i)

  -- Two nodes share no CPU.
  abbrev pub Apart : Node B → Node B → Type 0
  Apart n k =
      (first n.localcpus + n.ncpus ≤ first k.localcpus)
      ⊎ (first k.localcpus + k.ncpus ≤ first n.localcpus)

  abbrev pub AllApart : List (Node B) → Type 0
  AllApart [] = Unit
  AllApart (n ∷ ns) = All (Apart n) ns × AllApart ns

  -- What an allocation may do to the map and itself.
  pub record Grows (m : Nodemap B) (a : Allocation B) (m' : Nodemap B) (a' : Allocation B)
      : Type 0 where
    pub same_policy : m'.policy ≡ m.policy
    pub same_size : m'.ncpus ≡ m.ncpus
    pub same_tasks : a'.ntasks ≡ a.ntasks
    pub less : a'.nleft ≤ a.nleft
    pub map_balance : m.navail + a'.nleft ≡ m'.navail + a.nleft
    pub keeps : (j : ℕ) → isbitset m.usedcpus j ≡ true → isbitset m'.usedcpus j ≡ true
    pub fresh :
        (j : ℕ)
        → isbitset a'.allocated_cpus j ≡ true
        → (isbitset a.allocated_cpus j ≡ true) ⊎ (isbitset m.usedcpus j ≡ false)
    pub exact :
        (j : ℕ)
        → isbitset m'.usedcpus j ≡ true
        → (isbitset m.usedcpus j ≡ true) ⊎ (isbitset a'.allocated_cpus j ≡ true)
    pub stays : (j : ℕ) → isbitset a.allocated_cpus j ≡ true → isbitset a'.allocated_cpus j ≡ true

  -- What the functions on one node may do.
  pub record Effect (s s' : Site B) : Type 0 where
    pub grows : Grows s.map s.alloc s'.map s'.alloc
    pub same_ncpus : s'.node.ncpus ≡ s.node.ncpus
    pub same_local : s'.node.localcpus ≡ s.node.localcpus
    pub outside :
        (j : ℕ)
        → (j < first s.node.localcpus) ⊎ (first s.node.localcpus + s.node.ncpus ≤ j)
        → isbitset s'.map.usedcpus j ≡ isbitset s.map.usedcpus j
    pub node_keeps :
        (i : ℕ) → isbitset s.node.usedcpus i ≡ true → isbitset s'.node.usedcpus i ≡ true
    pub balance : s.node.navail + s'.alloc.nleft ≡ s'.node.navail + s.alloc.nleft

  abbrev pub SiteOk : Site B → Type 0
  SiteOk s = SharedOk s.map s.alloc × NodeOk s.map s.node

  pub Grows-refl : (m : Nodemap B) (a : Allocation B) → Grows m a m a
  Grows-refl m a = record {
    same_policy = refl;
    same_size = refl;
    same_tasks = refl;
    less = omega arith;
    map_balance = refl;
    keeps = λ j h. h;
    fresh = λ j h. inl h;
    exact = λ j h. inl h;
    stays = λ j h. h;
  }

  pub Grows-trans :
      {m m' m'' : Nodemap B} {a a' a'' : Allocation B}
      → Grows m a m' a'
      → Grows m' a' m'' a''
      → Grows m a m'' a''
  Grows-trans {m} g h = record {
    same_policy = h.same_policy ∙ g.same_policy;
    same_size = h.same_size ∙ g.same_size;
    same_tasks = h.same_tasks ∙ g.same_tasks;
    less = omega (arith, g.less, h.less);
    map_balance = omega (arith, g.map_balance, h.map_balance);
    keeps = λ j e. h.keeps j (g.keeps j e);
    fresh = λ j e. ground (arith, h.fresh j e, g.fresh j, g.keeps j);
    exact = λ j e. ground (arith, h.exact j e, g.exact j, h.stays j);
    stays = λ j e. h.stays j (g.stays j e);
  }

  pub Effect-refl : (s : Site B) → Effect s s
  Effect-refl s = record {
    grows = Grows-refl s.map s.alloc;
    same_ncpus = refl;
    same_local = refl;
    outside = λ j h. refl;
    node_keeps = λ i h. h;
    balance = refl;
  }

  pub Effect-trans : {s t u : Site B} → Effect s t → Effect t u → Effect s u
  Effect-trans {s} {t} g h = record {
    grows = Grows-trans g.grows h.grows;
    same_ncpus = h.same_ncpus ∙ g.same_ncpus;
    same_local = h.same_local ∙ g.same_local;
    outside = λ j e. h.outside j (rw (g.same_local, g.same_ncpus) e) ∙ g.outside j e;
    node_keeps = λ i e. h.node_keeps i (g.node_keeps i e);
    balance = omega (arith, g.balance, h.balance);
  }
