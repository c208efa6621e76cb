-- ===== src/Cpuset/Nodemap/State.antt =====
-- The data of cpuset/nodemap.c: `struct node`, `struct policy`, `struct nodemap` and
-- `struct allocation`. `B` is the type of bit masks. A node reaches its map, and an allocation too,
-- by a pointer; here the three are handed on side by side (`Site`, `Pass`).
use slurm_spank_plugins.Base.{ℕ, Bool, true, false, List}

pub record Node (B : Type 0) : Type 0 where
  pub nodeid : ℕ
  pub ncpus : ℕ
  pub navail : ℕ
  pub localcpus : B
  pub usedcpus : B

pub record Policy : Type 0 where
  pub reverse : Bool
  pub best_fit : Bool
  pub first_fit : Bool
  pub worst_fit : Bool
  pub alloc_idle_first : Bool
  pub alloc_idle_multiples_only : Bool

abbrev pub default_policy : Policy
default_policy = record {
  reverse = false;
  best_fit = true;
  first_fit = false;
  worst_fit = false;
  alloc_idle_first = true;
  alloc_idle_multiples_only = false;
}

pub record Nodemap (B : Type 0) : Type 0 where
  pub policy : Policy
  pub nnodes : ℕ
  pub ncpus : ℕ
  pub navail : ℕ
  pub usedcpus : B
  pub cpus : B
  pub nodelist : List (Node B)

pub record Allocation (B : Type 0) : Type 0 where
  pub ntasks : ℕ
  pub nleft : ℕ
  pub allocated_cpus : B

-- What the functions on one node work on: `n`, `n->map` and `a`. The map's list is stale here: the
-- loop over the nodes puts the node back.
pub record Site (B : Type 0) : Type 0 where
  pub map : Nodemap B
  pub node : Node B
  pub alloc : Allocation B

-- What the functions on the whole map work on: `a->map` and `a`.
pub record Pass (B : Type 0) : Type 0 where
  pub map : Nodemap B
  pub alloc : Allocation B

-- `refused` is a NULL return, `fault` undefined behaviour of C (a division by zero, a NULL that is
-- followed), and `out_of_fuel` a loop that was given too few rounds.
pub data Outcome (A : Type 0) : Type 0 where
  ok : A → Outcome A
  refused fault out_of_fuel : Outcome A
