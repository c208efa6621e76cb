-- ===== src/Cpuset/Nodemap/Correct.antt =====
-- `nodemap_allocate` (cpuset/nodemap.c) as a whole.
use mathlib.Core.Path.{subst}
use slurm_spank_plugins.Base.{
  ℕ, ◌+◌, ◌≤◌, ◌<◌, Bool, true, false, not, ◌&&◌, ◌==◌, ◌%◌, ltb, ◌≡◌, ◌≢◌, ◌↔◌, ◌⊎◌, ◌∙◌, sym,
  refl, inl, inr, List, [], ◌∷◌, arith, All, ap, length, Option, some, if◌then◌else◌, if_rule, ℤ,
}
use slurm_spank_plugins.Cpuset.Bitmask.{BitmaskLib}
use slurm_spank_plugins.Cpuset.Bitmask.Count.{weight-alloc}
use slurm_spank_plugins.Cpuset.Nodemap.State.{Node, Nodemap, Policy, Pass, ok, out_of_fuel}
use slurm_spank_plugins.Cpuset.Nodemap.Sort.{SortLib}
use slurm_spank_plugins.Cpuset.Nodemap.Node.{
  find_multiple_of_node_size, find_node_lt_size, node_cmp_nodeid, node_cmp_reverse,
}
use slurm_spank_plugins.Cpuset.Nodemap.Allocate.{
  find_first, should_allocate_idle_nodes, allocation_create, alloc_idle_nodes, sort_nodes,
  allocate_by_policy, allocate_rest, nodemap_allocate,
}
use slurm_spank_plugins.Cpuset.Nodemap.Invariant.{NodeOk, AllApart, total_navail}
use slurm_spank_plugins.Cpuset.Nodemap.Order.{All-perm}
use slurm_spank_plugins.Cpuset.Nodemap.Policies.{
  PassOk, Progress, Progress-refl, Progress-trans, alloc_idle_nodes-Progress,
}
use slurm_spank_plugins.Cpuset.Nodemap.Fits.{Finishes, sort_nodes-Progress}
use slurm_spank_plugins.Cpuset.Nodemap.WorstFit.{
  HasFit, allocate_by_policy-Finishes, allocation_worst_fit_starves,
}

total_navail-ne-nil : {B : Type 0} (l : List (Node B)) → 0 < total_navail l → l ≢ []
total_navail-ne-nil [] h e = absurd (omega arith)
total_navail-ne-nil (n ∷ ns) h e = cc

module _ {B : Type 0} (lib : BitmaskLib B) where
  open lib use {nbits, isbitset, weight, bitmask_alloc, nbits-alloc, isbitset-alloc}

  -- A nodemap as `nodemap_create` makes it on a machine where the CPUs of a node have consecutive
  -- numbers and no node is without CPUs.
  pub record MapOk (m : Nodemap B) : Type 0 where
    pub used_size : nbits m.usedcpus ≡ m.ncpus
    pub map_count : weight m.usedcpus + m.navail ≡ m.ncpus
    pub nodes : All (NodeOk lib m) m.nodelist
    pub apart : AllApart lib m.nodelist
    pub populated : All (λ n. 0 < n.ncpus) m.nodelist

  abbrev started : Nodemap B → ℕ → Pass B
  started m k = record { map = m; alloc = allocation_create lib m.ncpus k }

  started-PassOk : (m : Nodemap B) (k : ℕ) → MapOk m → PassOk lib (started m k)
  unfolding allocation_create
  started-PassOk m k valid = record {
    shared = record {
      used_size = valid.used_size;
      alloc_size = nbits-alloc m.ncpus;
      marked = λ j h. absurd (cc (isbitset-alloc m.ncpus j));
      map_count = valid.map_count;
      task_count = omega (arith, weight-alloc lib m.ncpus);
    };
    nodes = valid.nodes;
    apart = valid.apart;
  }

  find_first_total :
      (fn : Node B → Option Bool) (ns : List (Node B))
      → All (λ n. (b : Bool) × (fn n ≡ some b)) ns
      → (b : Bool) × (find_first fn ns ≡ some b)
  unfolding find_first
  find_first_total fn [] h = (false, refl)
  find_first_total fn (n ∷ ns) ((true, e), h) = (true, rw (e, find_first))
  find_first_total fn (n ∷ ns) ((false, e), h) =
      let (b, later) = find_first_total fn ns h in (b, rw (e, find_first) later)

  tests_total :
      (k : ℕ) (ns : List (Node B))
      → All (λ n. 0 < n.ncpus) ns
      → All (λ n. (b : Bool) × (find_multiple_of_node_size n k ≡ some b)) ns
        × All (λ n. (b : Bool) × (find_node_lt_size n k ≡ some b)) ns
  unfolding find_multiple_of_node_size find_node_lt_size
  tests_total k [] h = (tt, tt)
  tests_total k (n ∷ ns) h =
      let (multiples, sizes) = tests_total k ns h.1 in
      (
        ((k % n.ncpus == 0 && n.navail == n.ncpus, ground (arith, h.0)), multiples),
        ((_, refl), sizes),
      )

  -- No node is without CPUs, so nothing is divided by zero.
  should_allocate_total :
      (m : Nodemap B) (k : ℕ)
      → All (λ n. 0 < n.ncpus) m.nodelist
      → (b : Bool) × (should_allocate_idle_nodes m k ≡ some b)
  unfolding should_allocate_idle_nodes
  should_allocate_total m k h =
      if_rule Answers (not m.policy.alloc_idle_first) _ _ (λ _. (false, refl))
        (λ _.
          if_rule Answers m.policy.alloc_idle_multiples_only _ _
            (λ _. find_first_total _ m.nodelist (tests_total k m.nodelist h).0)
            (λ _. find_first_total _ m.nodelist (tests_total k m.nodelist h).1))
    where
      Answers : Option Bool → Type 0
      Answers o = (b : Bool) × (o ≡ some b)

  module _ (lists : SortLib (Node B)) where
    abbrev sorted : Nodemap B → ℕ → Pass B
    sorted m k =
        let cmp : Node B → Node B → ℤ =
          if not m.policy.reverse then node_cmp_nodeid else node_cmp_reverse in
        sort_nodes lists cmp (started m k)

    abbrev idled : Bool → Pass B → Pass B
    idled idle p = if idle then alloc_idle_nodes lib p else p

    allocate_runs :
        (fuel : ℕ) (m : Nodemap B) (k : ℕ) (idle : Bool)
        → k ≤ m.navail
        → should_allocate_idle_nodes (sorted m k).map k ≡ some idle
        → nodemap_allocate lib lists m.ncpus fuel m k
          ≡ allocate_rest lib lists fuel (idled idle (sorted m k))
    unfolding nodemap_allocate
    allocate_runs fuel m k idle h e =
        let room : ltb m.navail k ≡ false = ground arith in rw (room, e)

    sorted-Progress : (m : Nodemap B) (k : ℕ) → MapOk m → Progress lib (started m k) (sorted m k)
    sorted-Progress m k valid =
        sort_nodes-Progress lib lists _ (started m k) (started-PassOk m k valid)

    idled-Progress : (idle : Bool) (p : Pass B) → PassOk lib p → Progress lib p (idled idle p)
    idled-Progress true p valid = alloc_idle_nodes-Progress lib p valid
    idled-Progress false p valid = Progress-refl lib p valid

    sorted-populated :
        (m : Nodemap B) (k : ℕ) → MapOk m → All (λ n. 0 < n.ncpus) (sorted m k).map.nodelist
    unfolding sort_nodes
    sorted-populated m k valid = All-perm _ (lists.sort-Perm _ m.nodelist) valid.populated

    allocate_rest-Finishes :
        (fuel : ℕ) (p : Pass B)
        → PassOk lib p
        → HasFit p.map.policy
        → p.alloc.nleft ≤ total_navail p.map.nodelist
        → p.alloc.nleft ≤ fuel
        → (q : Pass B) × (allocate_rest lib lists fuel p ≡ ok q) × Finishes lib lists p q
    unfolding allocate_rest
    allocate_rest-Finishes fuel p valid fit enough bound =
        if_rule (λ r. (q : Pass B) × (r ≡ ok q) × Finishes lib lists p q) (p.alloc.nleft == 0) _ _
          (λ e.
            (p, refl, record { progress = Progress-refl lib p valid; nothing_left = ground arith }))
          (λ e.
            allocate_by_policy-Finishes lib lists fuel p valid
              (total_navail-ne-nil p.map.nodelist (ground arith)) fit enough bound)

    allocate_rest_starves :
        (fuel : ℕ) (p : Pass B)
        → PassOk lib p
        → p.map.policy.best_fit ≡ false
        → p.map.policy.first_fit ≡ false
        → p.map.policy.worst_fit ≡ true
        → 0 < length p.map.nodelist
        → total_navail p.map.nodelist < p.alloc.nleft
        → allocate_rest lib lists fuel p ≡ out_of_fuel
    unfolding allocate_rest allocate_by_policy
    allocate_rest_starves fuel p valid not_best not_first worst some_node few = ground (
      arith,
      allocation_worst_fit_starves lib lists fuel p valid (λ e. absurd (omega (arith, ap length e)))
          few,
    )

    -- What a caller gets: `k` CPUs, each of them free before and marked as used now; nothing else has
    -- changed in the masks, and the counters agree with them.
    pub record Granted (m : Nodemap B) (k : ℕ) (q : Pass B) : Type 0 where
      pub granted : weight q.alloc.allocated_cpus ≡ k
      pub were_free :
          (j : ℕ) → isbitset q.alloc.allocated_cpus j ≡ true → isbitset m.usedcpus j ≡ false
      pub now_used :
          (j : ℕ)
          → (isbitset q.map.usedcpus j ≡ true)
            ↔ ((isbitset m.usedcpus j ≡ true) ⊎ (isbitset q.alloc.allocated_cpus j ≡ true))
      pub counted : q.map.navail + k ≡ m.navail
      pub still_ok : PassOk lib q
      pub same_size : q.map.ncpus ≡ m.ncpus

    Finishes-Granted :
        (m : Nodemap B) (k : ℕ) (q : Pass B)
        → Progress lib (started m k) q
        → q.alloc.nleft ≡ 0
        → Granted m k q
    unfolding allocation_create
    Finishes-Granted m k q progress done = record {
      granted = omega (arith, progress.keeps_ok.shared.task_count, progress.grows.same_tasks, done);
      were_free = λ j h. ground (arith, progress.grows.fresh j h, isbitset-alloc m.ncpus j);
      now_used = λ j. (
        progress.grows.exact j,
        λ h. elim h [
          | inl before ↦ progress.grows.keeps j before
          | inr allocated ↦ progress.keeps_ok.shared.marked j allocated
        ],
      );
      counted = omega (arith, progress.grows.map_balance, done);
      still_ok = progress.keeps_ok;
      same_size = progress.grows.same_size;
    }

    -- In a well-formed map with a policy, whose count of free CPUs and whose nodes have the CPUs that are
    -- asked for, `nodemap_allocate` returns, with as many rounds as CPUs asked for. The mask has just
    -- that many CPUs, all free before; the CPUs in use afterwards are these and those in use before, and
    -- the map stays well formed.
    pub nodemap_allocate_grants :
        (m : Nodemap B) (k fuel : ℕ)
        → MapOk m
        → HasFit m.policy
        → k ≤ m.navail
        → k ≤ total_navail m.nodelist
        → k ≤ fuel
        → (q : Pass B) × (nodemap_allocate lib lists m.ncpus fuel m k ≡ ok q) × Granted m k q
    nodemap_allocate_grants m k fuel valid fit room enough bound =
        let sort = sorted-Progress m k valid in
        let (idle, answer) =
          should_allocate_total (sorted m k).map k (sorted-populated m k valid) in
        let first = Progress-trans lib sort (idled-Progress idle (sorted m k) sort.keeps_ok) in
        let (q, returns, end) =
          allocate_rest-Finishes fuel (idled idle (sorted m k)) first.keeps_ok
            (subst HasFit (sym first.grows.same_policy) fit)
            (unfold allocation_create in omega (arith, first.balance))
            (unfold allocation_create in omega (arith, first.grows.less)) in
        (
          q,
          allocate_runs fuel m k idle room answer ∙ returns,
          Finishes-Granted m k q (Progress-trans lib first end.progress) end.nothing_left,
        )

    -- Under worst fit alone, if a well-formed map counts the CPUs that are asked for, but its nodes, one
    -- at least, have fewer, no number of rounds is enough for `nodemap_allocate` to return.
    pub nodemap_allocate_hangs :
        (m : Nodemap B) (k fuel : ℕ)
        → MapOk m
        → m.policy.best_fit ≡ false
        → m.policy.first_fit ≡ false
        → m.policy.worst_fit ≡ true
        → 0 < length m.nodelist
        → k ≤ m.navail
        → total_navail m.nodelist < k
        → nodemap_allocate lib lists m.ncpus fuel m k ≡ out_of_fuel
    nodemap_allocate_hangs m k fuel valid not_best not_first worst some_node room few =
        let sort = sorted-Progress m k valid in
        let (idle, answer) =
          should_allocate_total (sorted m k).map k (sorted-populated m k valid) in
        let first = Progress-trans lib sort (idled-Progress idle (sorted m k) sort.keeps_ok) in
        allocate_runs fuel m k idle room answer
        ∙ allocate_rest_starves fuel (idled idle (sorted m k)) first.keeps_ok
            (ap (λ (p : Policy). p.best_fit) first.grows.same_policy ∙ not_best)
            (ap (λ (p : Policy). p.first_fit) first.grows.same_policy ∙ not_first)
            (ap (λ (p : Policy). p.worst_fit) first.grows.same_policy ∙ worst)
            (omega (arith, first.same_length))
            (unfold allocation_create in omega (arith, first.balance))
