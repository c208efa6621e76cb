-- ===== src/Cpuset/Nodemap/OneNode.antt =====
-- Allocation from one node: `try_alloc`, the loop of `node_allocate_n` and `node_allocate_all` keep
-- the invariants, and the loop stops only with a reason.
use slurm_spank_plugins.Base.{
  ℕ, ◌+◌, ◌-◌, ◌≤◌, ◌<◌, true, false, ◌≡◌, ◌⊎◌, ◌∙◌, sym, refl, inl, inr, List, [], ◌∷◌, arith, All,
  none, some, Bool-cases,
}
use slurm_spank_plugins.Cpuset.Bitmask.{BitmaskLib}
use slurm_spank_plugins.Cpuset.Bitmask.Count.{
  isbitset-setbit_self, isbitset-setbit_ne, isbitset-setbit_mono, weight-setbit, weight-room,
}
use slurm_spank_plugins.Cpuset.Nodemap.State.{Site}
use slurm_spank_plugins.Cpuset.Nodemap.Node.{try_alloc, allocate_loop}
use slurm_spank_plugins.Cpuset.Nodemap.Invariant.{
  SharedOk, NodeOk, SiteOk, Grows, Effect, Effect-refl, Effect-trans,
}

module _ {B : Type 0} (lib : BitmaskLib B) where
  open lib use {nbits, isbitset, setbit, weight, first, nbits-setbit, isbitset-setbit}

  -- The site after CPU `i` of the node was allocated.
  abbrev taken : Site B → ℕ → Site B
  taken s i =
      let g = first s.node.localcpus + i in
      record {
        map = record s.map { usedcpus = setbit s.map.usedcpus g; navail = s.map.navail - 1 };
        node = record s.node { usedcpus = setbit s.node.usedcpus i; navail = s.node.navail - 1 };
        alloc = record s.alloc {
          allocated_cpus = setbit s.alloc.allocated_cpus g;
          nleft = s.alloc.nleft - 1;
        };
      }

  module _ (s : Site B) (i : ℕ) (valid : SiteOk lib s) (below : i < s.node.ncpus)
      (left : 0 < s.alloc.nleft) (clear : isbitset s.node.usedcpus i ≡ false) where
    abbrev g : ℕ
    g = first s.node.localcpus + i

    g_clear : isbitset s.map.usedcpus g ≡ false
    g_clear = sym (valid.1.in_step i below) ∙ clear

    g_alloc_clear : isbitset s.alloc.allocated_cpus g ≡ false
    g_alloc_clear = ground (arith, valid.0.marked g, g_clear)

    g_used_lt : g < nbits s.map.usedcpus
    g_used_lt = omega (arith, valid.0.used_size, valid.1.within)

    g_alloc_lt : g < nbits s.alloc.allocated_cpus
    g_alloc_lt = omega (arith, valid.0.alloc_size, valid.1.within)

    i_lt : i < nbits s.node.usedcpus
    i_lt = omega (arith, valid.1.node_size)

    taken-SharedOk : SharedOk lib (taken s i).map (taken s i).alloc
    taken-SharedOk = record {
      used_size = nbits-setbit s.map.usedcpus g ∙ valid.0.used_size;
      alloc_size = nbits-setbit s.alloc.allocated_cpus g ∙ valid.0.alloc_size;
      marked = λ j. ground (
        arith,
        isbitset-setbit s.alloc.allocated_cpus g j,
        isbitset-setbit s.map.usedcpus g j,
        g_used_lt,
        valid.0.marked j,
      );
      map_count = omega (
        arith,
        weight-setbit lib s.map.usedcpus g g_used_lt g_clear,
        weight-room lib s.map.usedcpus g g_clear g_used_lt,
        valid.0.map_count,
        valid.0.used_size,
      );
      task_count = omega (
        arith,
        weight-setbit lib s.alloc.allocated_cpus g g_alloc_lt g_alloc_clear,
        valid.0.task_count,
      );
    }

    taken-NodeOk : NodeOk lib (taken s i).map (taken s i).node
    taken-NodeOk = record {
      node_size = nbits-setbit s.node.usedcpus i ∙ valid.1.node_size;
      node_count = omega (
        arith,
        weight-setbit lib s.node.usedcpus i i_lt clear,
        weight-room lib s.node.usedcpus i clear i_lt,
        valid.1.node_count,
        valid.1.node_size,
      );
      within = valid.1.within;
      in_step = λ k h. ground (
        arith,
        isbitset-setbit s.node.usedcpus i k,
        isbitset-setbit s.map.usedcpus g (first s.node.localcpus + k),
        g_used_lt,
        i_lt,
        valid.1.in_step k h,
      );
    }

    taken-Grows : Grows lib s.map s.alloc (taken s i).map (taken s i).alloc
    taken-Grows = record {
      same_policy = refl;
      same_size = refl;
      same_tasks = refl;
      less = omega arith;
      map_balance = omega (
        arith,
        weight-room lib s.map.usedcpus g g_clear g_used_lt,
        valid.0.map_count,
        valid.0.used_size,
      );
      keeps = λ j. isbitset-setbit_mono lib s.map.usedcpus g j;
      fresh = λ j. ground (arith, isbitset-setbit s.alloc.allocated_cpus g j, g_clear);
      exact = λ j. ground (
        arith,
        isbitset-setbit s.alloc.allocated_cpus g j,
        isbitset-setbit s.map.usedcpus g j,
        g_alloc_lt,
      );
      stays = λ j. isbitset-setbit_mono lib s.alloc.allocated_cpus g j;
    }

    taken-Effect : Effect lib s (taken s i)
    taken-Effect = record {
      grows = taken-Grows;
      same_ncpus = refl;
      same_local = refl;
      outside = λ j h. isbitset-setbit_ne lib s.map.usedcpus g j (λ e. absurd (omega arith));
      node_keeps = λ k. isbitset-setbit_mono lib s.node.usedcpus i k;
      balance = omega (
        arith,
        weight-room lib s.node.usedcpus i clear i_lt,
        valid.1.node_count,
        valid.1.node_size,
      );
    }

    try_alloc_clear : try_alloc lib s i ≡ some (taken s i)
    unfolding try_alloc
    try_alloc_clear = ground (arith, clear, g_clear)

  try_alloc_used :
      (s : Site B) (i : ℕ) → isbitset s.node.usedcpus i ≡ true → try_alloc lib s i ≡ none
  unfolding try_alloc
  try_alloc_used s i h = ground arith

  -- Why the loop stops: nothing is left to allocate, the count is reached, or each CPU of the list
  -- is in use.
  pub record Stopped (is : List ℕ) (count : ℕ) (r : Site B × ℕ) : Type 0 where
    pub why :
        (r.0.alloc.nleft ≡ 0) ⊎ (count ≤ r.1) ⊎ All (λ i. isbitset r.0.node.usedcpus i ≡ true) is

  -- What the loop gives from a site and a number of allocations on.
  pub record Ran (is : List ℕ) (count nalloc : ℕ) (s : Site B) (r : Site B × ℕ) : Type 0 where
    pub keeps_ok : SiteOk lib r.0
    pub effect : Effect lib s r.0
    pub tally : r.1 + r.0.node.navail ≡ nalloc + s.node.navail
    pub stopped : Stopped is count r

  module _ (i : ℕ) (is : List ℕ) (count nalloc : ℕ) (s : Site B) where
    loop_stops :
        (s.alloc.nleft ≡ 0) ⊎ (count ≤ nalloc)
        → allocate_loop lib (i ∷ is) count nalloc s ≡ (s, nalloc)
    unfolding allocate_loop
    loop_stops h = ground arith

    loop_skips :
        0 < s.alloc.nleft
        → nalloc < count
        → isbitset s.node.usedcpus i ≡ true
        → allocate_loop lib (i ∷ is) count nalloc s ≡ allocate_loop lib is count nalloc s
    unfolding allocate_loop
    loop_skips left few used = ground (arith, try_alloc_used s i used)

    loop_takes :
        SiteOk lib s
        → i < s.node.ncpus
        → 0 < s.alloc.nleft
        → nalloc < count
        → isbitset s.node.usedcpus i ≡ false
        → allocate_loop lib (i ∷ is) count nalloc s
          ≡ allocate_loop lib is count (nalloc + 1) (taken s i)
    unfolding allocate_loop
    loop_takes valid below left few clear =
        ground (arith, try_alloc_clear s i valid below left clear)

    Ran-stopped :
        SiteOk lib s
        → (s.alloc.nleft ≡ 0) ⊎ (count ≤ nalloc)
        → Ran (i ∷ is) count nalloc s (s, nalloc)
    Ran-stopped valid h = record {
      keeps_ok = valid;
      effect = Effect-refl lib s;
      tally = refl;
      stopped = record { why = ground arith };
    }

    Ran-skipped :
        (r : Site B × ℕ)
        → isbitset s.node.usedcpus i ≡ true
        → Ran is count nalloc s r
        → Ran (i ∷ is) count nalloc s r
    Ran-skipped r used run = record {
      keeps_ok = run.keeps_ok;
      effect = run.effect;
      tally = run.tally;
      stopped = record { why = ground (arith, run.stopped.why, run.effect.node_keeps i) };
    }

    Ran-took :
        (r : Site B × ℕ)
        → SiteOk lib s
        → i < s.node.ncpus
        → 0 < s.alloc.nleft
        → isbitset s.node.usedcpus i ≡ false
        → Ran is count (nalloc + 1) (taken s i) r
        → Ran (i ∷ is) count nalloc s r
    Ran-took r valid below left clear run = record {
      keeps_ok = run.keeps_ok;
      effect = Effect-trans lib (taken-Effect s i valid below left clear) run.effect;
      tally = omega (
        arith,
        run.tally,
        weight-room lib s.node.usedcpus i clear (i_lt s i valid below left clear),
        valid.1.node_count,
        valid.1.node_size,
      );
      stopped = record {
        why = ground (
          arith,
          run.stopped.why,
          run.effect.node_keeps i,
          isbitset-setbit_self lib s.node.usedcpus i (i_lt s i valid below left clear),
        );
      };
    }

  pub allocate_loop-Ran :
      (is : List ℕ) (count nalloc : ℕ) (s : Site B)
      → SiteOk lib s
      → All (λ i. i < s.node.ncpus) is
      → Ran is count nalloc s (allocate_loop lib is count nalloc s)
  allocate_loop-Ran [] count nalloc s valid below =
      unfold allocate_loop in
      record {
        keeps_ok = valid;
        effect = Effect-refl lib s;
        tally = refl;
        stopped = record { why = inr (inr tt) };
      }
  allocate_loop-Ran (i ∷ is) count nalloc s valid below =
      elim (goes_on s.alloc.nleft count nalloc) [
        | inl h ↦ rw (loop_stops i is count nalloc s h) (Ran-stopped i is count nalloc s valid h)
        | inr (left, few) ↦ elim (Bool-cases (isbitset s.node.usedcpus i)) [
          | inl used ↦ rw (loop_skips i is count nalloc s left few used) (
              Ran-skipped i is count nalloc s _ used
                (allocate_loop-Ran is count nalloc s valid below.1))
          | inr clear ↦ rw (loop_takes i is count nalloc s valid below.0 left few clear) (
              Ran-took i is count nalloc s _ valid below.0 left clear (
                allocate_loop-Ran is count (nalloc + 1) (taken s i)
                  (
                    taken-SharedOk s i valid below.0 left clear,
                    taken-NodeOk s i valid below.0 left clear,
                  )
                  below.1))
        ]
      ]
    where
      goes_on :
          (nleft count nalloc : ℕ)
          → ((nleft ≡ 0) ⊎ (count ≤ nalloc)) ⊎ ((0 < nleft) × (nalloc < count))
      goes_on nleft count nalloc = ground arith
