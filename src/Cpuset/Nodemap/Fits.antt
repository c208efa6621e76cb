-- ===== src/Cpuset/Nodemap/Fits.antt =====
-- Best fit, first fit and worst fit of cpuset/nodemap.c: each finds the CPUs that are wanted if the
-- nodes have them. For worst fit that includes that its loop ends.
use mathlib.Core.Path.{subst}
use slurm_spank_plugins.Base.{
  ◌≤◌, ◌<◌, ◌≡◌, ◌≢◌, ap, sym, refl, inl, inr, List, [], ◌∷◌, arith, length, some, List-cases, ℤ,
}
use slurm_spank_plugins.Cpuset.Bitmask.{BitmaskLib}
use slurm_spank_plugins.Cpuset.Nodemap.State.{Node, Nodemap, Site, Pass}
use slurm_spank_plugins.Cpuset.Nodemap.Sort.{SortLib, IsSorted}
use slurm_spank_plugins.Cpuset.Nodemap.Node.{node_allocate_n, node_cmp_avail, node_cmp_free}
use slurm_spank_plugins.Cpuset.Nodemap.Allocate.{
  sort_nodes, take_one, worst_fit_round, allocation_best_fit, allocation_first_fit,
}
use slurm_spank_plugins.Cpuset.Nodemap.Invariant.{Grows-refl, total_navail}
use slurm_spank_plugins.Cpuset.Nodemap.WholeNode.{node_allocate_some}
use slurm_spank_plugins.Cpuset.Nodemap.Walk.{
  Walked-stop, Walked-step, SharedOk-list, All-NodeOk_list, Grows-list, All-NodeOk-Apart,
}
use slurm_spank_plugins.Cpuset.Nodemap.Order.{
  All-perm, AllApart-perm, total_navail-perm, total_navail_sorted, length-perm,
  node_cmp_avail-IsOrder,
}
use slurm_spank_plugins.Cpuset.Nodemap.Policies.{
  PassOk, Progress, Progress-trans, Walked-Progress, allocate_all-Progress, allocate_all_finishes,
}

module _ {B : Type 0} (lib : BitmaskLib B) (lists : SortLib (Node B)) where
  open lists use {list_sort, sort-Perm, sort-IsSorted}

  pub sort_nodes-Progress :
      (cmp : Node B → Node B → ℤ) (p : Pass B)
      → PassOk lib p
      → Progress lib p (sort_nodes lists cmp p)
  unfolding sort_nodes
  sort_nodes-Progress cmp p valid =
      let perm = sort-Perm cmp p.map.nodelist in
      let l = list_sort cmp p.map.nodelist in
      record {
        keeps_ok = record {
          shared = SharedOk-list lib p.map p.alloc l valid.shared;
          nodes = All-NodeOk_list lib p.map l l (All-perm _ perm valid.nodes);
          apart = AllApart-perm lib perm valid.apart;
        };
        grows = Grows-list lib p.map p.map p.alloc p.alloc l (Grows-refl lib p.map p.alloc);
        balance = omega (arith, total_navail-perm perm);
        same_length = omega (arith, length-perm perm);
      }

  -- What a policy is for: all that is wanted is allocated.
  pub record Finishes (p q : Pass B) : Type 0 where
    pub progress : Progress lib p q
    pub nothing_left : q.alloc.nleft ≡ 0

  pub allocation_first_fit-Finishes :
      (p : Pass B)
      → PassOk lib p
      → p.alloc.nleft ≤ total_navail p.map.nodelist
      → Finishes p (allocation_first_fit lib lists p)
  unfolding allocation_first_fit
  allocation_first_fit-Finishes p valid enough = record {
    progress = allocate_all-Progress lib p valid;
    nothing_left = allocate_all_finishes lib p valid enough;
  }

  pub allocation_best_fit-Finishes :
      (p : Pass B)
      → PassOk lib p
      → p.alloc.nleft ≤ total_navail p.map.nodelist
      → Finishes p (allocation_best_fit lib lists p)
  unfolding allocation_best_fit
  allocation_best_fit-Finishes p valid enough =
      let sorted = sort_nodes-Progress node_cmp_free p valid in
      let q : Pass B = sort_nodes lists node_cmp_free p in
      record {
        progress = Progress-trans lib sorted (allocate_all-Progress lib q sorted.keeps_ok);
        nothing_left =
            allocate_all_finishes lib q sorted.keeps_ok (omega (arith, sorted.balance, enough));
      }

  abbrev with_nodes : List (Node B) → Pass B → Pass B
  with_nodes l p = record p { map = record p.map { nodelist = l } }

  -- What a round of worst fit gives.
  pub record Moves (p q : Pass B) : Type 0 where
    pub progress : Progress lib p q
    pub nonempty : q.map.nodelist ≢ []

  -- One CPU of the first node is allocated, if the node has one.
  take_one_lem :
      (n : Node B) (ns : List (Node B)) (p : Pass B)
      → PassOk lib (with_nodes (n ∷ ns) p)
      → (q : Pass B) × (take_one lib lists (n ∷ ns) (with_nodes (n ∷ ns) p) ≡ some q)
        × Moves (with_nodes (n ∷ ns) p) q
        × (0 < n.navail → 0 < p.alloc.nleft → q.alloc.nleft < p.alloc.nleft)
  unfolding take_one
  take_one_lem n ns p valid =
      let m : Nodemap B = record p.map { nodelist = n ∷ ns } in
      let site : Site B = record { map = m; node = n; alloc = p.alloc } in
      let r = node_allocate_n lib site (some 1) in
      let served = node_allocate_some lib site 1 (valid.shared, valid.nodes.0) in
      let later = All-NodeOk-Apart lib site r.0 ns served.effect valid.apart.0 valid.nodes.1 in
      let rest = Walked-stop lib ns r.0.map r.0.alloc served.keeps_ok.0 later in
      (
        with_nodes (r.0.node ∷ ns) (record { map = r.0.map; alloc = r.0.alloc }),
        refl,
        record {
          progress =
              Walked-Progress lib (with_nodes (n ∷ ns) p) _ valid
                (Walked-step lib site r.0 ns _ served.keeps_ok served.effect valid.apart.0 rest);
          nonempty = cc;
        },
        λ some_cpu wanted. ground (arith, served.why, served.tally, served.effect.balance),
      )

  sorted_nonempty : (cmp : Node B → Node B → ℤ) (l : List (Node B)) → l ≢ [] → list_sort cmp l ≢ []
  sorted_nonempty cmp [] ne e = ne refl
  sorted_nonempty cmp (n ∷ ns) ne e =
      let same = length-perm (sort-Perm cmp (n ∷ ns)) in
      let empty = ap length e in absurd (omega (arith, same, empty))

  -- A round of worst fit allocates a CPU as long as some node has one.
  pub worst_fit_round_lem :
      (p : Pass B)
      → PassOk lib p
      → p.map.nodelist ≢ []
      → (q : Pass B) × (worst_fit_round lib lists p ≡ some q)
        × Moves p q
        × (0 < total_navail p.map.nodelist → 0 < p.alloc.nleft → q.alloc.nleft < p.alloc.nleft)
  unfolding worst_fit_round
  worst_fit_round_lem p valid ne = elim (List-cases (list_sort node_cmp_avail p.map.nodelist)) [
    | inl e ↦ absurd (sorted_nonempty node_cmp_avail p.map.nodelist ne e)
    | inr (n, ns, e) ↦ go n ns e
  ]
    where
      go :
          (n : Node B) (ns : List (Node B))
          → list_sort node_cmp_avail p.map.nodelist ≡ n ∷ ns
          → (q : Pass B) × (worst_fit_round lib lists p ≡ some q)
            × Moves p q
            × (0 < total_navail p.map.nodelist → 0 < p.alloc.nleft → q.alloc.nleft < p.alloc.nleft)
      go n ns e =
          let at_sorted : sort_nodes lists node_cmp_avail p ≡ with_nodes (n ∷ ns) p =
            unfold sort_nodes in ap (λ l. with_nodes l p) e in
          let sorted : Progress lib p (with_nodes (n ∷ ns) p) =
            subst (Progress lib p) at_sorted (sort_nodes-Progress node_cmp_avail p valid) in
          let (q, returns, moves, falls) = take_one_lem n ns p sorted.keeps_ok in
          let ordered : IsSorted node_cmp_avail (n ∷ ns) =
            subst (IsSorted node_cmp_avail) e
              (sort-IsSorted node_cmp_avail p.map.nodelist node_cmp_avail-IsOrder) in
          let same_total = sorted.balance in
          let head_empty = total_navail_sorted n ns ordered.0 in
          (
            q,
            subst (λ r. take_one lib lists r.map.nodelist r ≡ some q) (sym at_sorted) returns,
            record {
              progress = Progress-trans lib sorted moves.progress;
              nonempty = moves.nonempty;
            },
            λ some_cpu wanted. ground (arith, falls, same_total, head_empty),
          )
