-- ===== src/Cpuset/Machines.antt =====
-- The small machine is one as the map of nodes expects it.
use slurm_spank_plugins.Base.{ℕ, ◌<◌, true, ◌≡◌, ◌⊎◌, inl, inr, arith}
use slurm_spank_plugins.Cpuset.Instance.{masks, two_nodes}
use slurm_spank_plugins.Cpuset.Nodemap.Built.{Topology}

pub two_nodes-Topology : Topology masks two_nodes
two_nodes-Topology = record {
  some_cpus = λ i h. elim (small i h) [ inl e ↦ rw e (omega arith) | inr e ↦ rw e (omega arith) ];
  cpus_fit = λ i h. elim (small i h) [ inl e ↦ rw e (omega arith) | inr e ↦ rw e (omega arith) ];
  disjoint = λ i j lt h k. let (e, f) = zero_one i j lt k in rw (e, f) (inl (omega arith));
  used_size = λ u e. ground arith;
}
  where
    small : (i : ℕ) → two_nodes.localmems two_nodes.current_cpus i ≡ true → (i ≡ 0) ⊎ (i ≡ 1)
    small i h = ground arith

    zero_one :
        (i j : ℕ) → i < j → two_nodes.localmems two_nodes.current_cpus j ≡ true → (i ≡ 0) × (j ≡ 1)
    zero_one i j lt h = (ground arith, ground arith)
