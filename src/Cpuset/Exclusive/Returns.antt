-- ===== src/Cpuset/Exclusive/Returns.antt =====
-- The update of a user's cpuset (cpuset/create.c) returns.
use slurm_spank_plugins.Base.{ℕ, ◌<◌, Bool, ◌≡◌, ◌≢◌}
use slurm_spank_plugins.Cpuset.Bitmask.{BitmaskLib, BitmaskOps}
use slurm_spank_plugins.Cpuset.Conf.{Conf}
use slurm_spank_plugins.Cpuset.Tree.{Name, Cset, CpusetLib, busy}
use slurm_spank_plugins.Cpuset.Update.{Ran, ran}

module _ {B T : Type 0} (lib : BitmaskLib B) (ops : BitmaskOps lib) (fs : CpusetLib lib T) where
  open lib use {weight}
  open fs use {size, query, cpuset_modify, mkdir, mkdir-query, mkdir_exists, kill_all}

  -- One of the first `fuel` attempts of `cpuset_modify` succeeds or fails for good.
  pub record Settles (fuel : ℕ) : Type 0 where
    pub attempt : ℕ
    pub soon : attempt < fuel
    pub final : (t t' : T) (n : Name) (c : Cset B) → cpuset_modify attempt t n c ≢ busy t'

  -- The call returns: it follows no NULL, and its loop ends.
  abbrev pub Finishes : Ran T → Type 0
  Finishes r = (t' : T) × (ok : Bool) × (r ≡ ran t' ok)
