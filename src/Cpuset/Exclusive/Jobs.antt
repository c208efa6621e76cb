-- ===== src/Cpuset/Exclusive/Jobs.antt =====
-- The cpuset of a job (`create_cpuset_for_job` of cpuset/create.c) shares no CPU with another one.
use slurm_spank_plugins.Base.{ℕ, ◌≤◌, Bool, true, false, ◌≡◌, none, some, [], ◌⊎◌}
use slurm_spank_plugins.Cpuset.Bitmask.{BitmaskLib, BitmaskOps}
use slurm_spank_plugins.Cpuset.Conf.{Conf}
use slurm_spank_plugins.Cpuset.Nodemap.State.{Node, Nodemap}
use slurm_spank_plugins.Cpuset.Nodemap.Sort.{SortLib}
use slurm_spank_plugins.Cpuset.Nodemap.Invariant.{total_navail}
use slurm_spank_plugins.Cpuset.Nodemap.Create.{Machine, nodemap_create}
use slurm_spank_plugins.Cpuset.Nodemap.Built.{Topology}
use slurm_spank_plugins.Cpuset.Tree.{id, Name, slurm_name, orphan_name, Cset, CpusetLib}
use slurm_spank_plugins.Cpuset.Update.{Ran, ran, crashed, do_cpuset_create}
use slurm_spank_plugins.Cpuset.Create.{machine_at}
use slurm_spank_plugins.Cpuset.Exclusive.Apart.{job_name, TreeOk, IsFree}
use slurm_spank_plugins.Cpuset.Exclusive.Returns.{Settles}

-- Where slurmd runs.
abbrev pub InRoot : Name → Type 0
InRoot here = (here ≡ []) ⊎ (here ≡ slurm_name)

module _ {B T : Type 0} (lib : BitmaskLib B) (ops : BitmaskOps lib) (fs : CpusetLib lib T) where
  open lib use {isbitset, nbits, weight}
  open fs use {size, query, cpuset_create, query-size, create-query}

  -- The cpuset of a job has the CPUs of a mask.
  pub record JobHas (t : T) (u n : ℕ) (alloc : B) : Type 0 where
    pub cset : Cset B
    pub found : query t (job_name u (id n)) ≡ some cset
    pub same : cset.cpus ≡ alloc

  -- `cpuset_create` refuses the cpuset of a job, which has the CPUs of a mask.
  pub record JobRefused (t : T) (u n : ℕ) (alloc : B) : Type 0 where
    pub cset : Cset B
    pub same : cset.cpus ≡ alloc
    pub fails : cpuset_create t (job_name u (id n)) cset ≡ none

  record Placed (t' : T) (u n : ℕ) (alloc : B) (junk done : Bool) : Type 0 where
    still : TreeOk lib ops fs t'
    placed :
        (done ≡ false)
        ⊎ ((done ≡ junk) × JobRefused t' u n alloc)
        ⊎ ((done ≡ true) × JobHas t' u n alloc)

  abbrev EndsPlaced : Conf → ℕ → ℕ → B → Bool → Ran T → Type 0
  EndsPlaced cf u n alloc junk r =
      ((r ≡ crashed) × (do_cpuset_create lib ops fs cf alloc ≡ none))
      ⊎ ((t' : T) × (done : Bool) × (r ≡ ran t' done) × Placed t' u n alloc junk done)

  module _ (lists : SortLib (Node B)) where
    -- A call for a job: what it needs of the machine, the tree and the configuration.
    pub record Ready (fuel : ℕ) (machine : Machine B) (cf : Conf) (t : T) (here : Name)
        (u ncpus : ℕ) : Type 0 where
      pub root : InRoot here
      pub known : machine.cpumask_size ≡ size
      pub topology : Topology lib (machine_at lib ops fs machine t here)
      pub base : Cset B
      pub there : query t slurm_name ≡ some base
      pub ordered : TreeOk lib ops fs t
      pub no_orphan : query t (orphan_name u) ≡ none
      pub enough :
          (m : Nodemap B)
          → nodemap_create lib (machine_at lib ops fs machine t here) cf none ≡ some m
          → ncpus ≤ total_navail m.nodelist
      pub rounds : ncpus ≤ fuel
      pub settles : Settles lib ops fs fuel

    -- An allocation has just the CPUs that were asked for, which no user had.
    pub record Granted (t : T) (ncpus : ℕ) (alloc : B) : Type 0 where
      pub count : weight alloc ≡ ncpus
      pub free : (i : ℕ) → isbitset alloc i ≡ true → IsFree lib ops fs t i

    -- The call follows no NULL, the tree is in order, and either the call fails, or `cpuset_create`
    -- refuses the cpuset of the job, or the job has the allocation.
    pub record Settled (t t' : T) (u n ncpus : ℕ) (junk done : Bool) : Type 0 where
      pub still : TreeOk lib ops fs t'
      pub job :
          (done ≡ false)
          ⊎ ((alloc : B) × Granted t ncpus alloc
              × (((done ≡ junk) × JobRefused t' u n alloc) ⊎ ((done ≡ true) × JobHas t' u n alloc)))

    -- A NULL is followed only where `do_cpuset_create` has none but NULL for the allocation.
    abbrev pub EndsSettled : Conf → T → ℕ → ℕ → ℕ → Bool → Ran T → Type 0
    EndsSettled cf t u n ncpus junk r =
        ((r ≡ crashed)
          × ((alloc : B) × Granted t ncpus alloc × (do_cpuset_create lib ops fs cf alloc ≡ none)))
        ⊎ ((t' : T) × (done : Bool) × (r ≡ ran t' done) × Settled t t' u n ncpus junk done)
