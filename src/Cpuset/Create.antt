-- ===== src/Cpuset/Create.antt =====
-- The cpuset of a job or a step (cpuset/create.c). A user id is one that an int holds; a call for a
-- step has none.
use slurm_spank_plugins.Base.{ℕ, Bool, true, false, none, some, [], ◌∷◌}
use slurm_spank_plugins.Cpuset.Bitmask.{BitmaskLib, BitmaskOps}
use slurm_spank_plugins.Cpuset.Conf.{Conf}
use slurm_spank_plugins.Cpuset.Nodemap.State.{Node, ok, refused, fault, out_of_fuel}
use slurm_spank_plugins.Cpuset.Nodemap.Sort.{SortLib}
use slurm_spank_plugins.Cpuset.Nodemap.Create.{Machine, nodemap_create}
use slurm_spank_plugins.Cpuset.Nodemap.Allocate.{nodemap_allocate}
use slurm_spank_plugins.Cpuset.Tree.{slurm, id, Name, slurm_name, user_name, CpusetLib}
use slurm_spank_plugins.Cpuset.Update.{
  Ran, ran, crashed, stuck, used_cpus_bitmask_path, do_cpuset_create, user_cpuset_update,
}

-- `current_cpuset_path`: in the root, the plugin pretends to be in /slurm.
unfoldable pub current_cpuset_path : Name → Name
current_cpuset_path [] = slurm_name
current_cpuset_path (x ∷ p) = x ∷ p

-- `job_cpuset_path`, from the present cpuset.
unfoldable pub job_cpuset_path : Name → ℕ → ℕ → Name
job_cpuset_path [] n uid = id n ∷ user_name uid
job_cpuset_path (slurm ∷ []) n uid = id n ∷ user_name uid
job_cpuset_path p n uid = id n ∷ p

module _ {B T : Type 0} (lib : BitmaskLib B) (ops : BitmaskOps lib) (fs : CpusetLib lib T) where
  open fs use {query, cpuset_create}

  -- `job_cpuset_exists`
  unfoldable pub job_cpuset_exists : T → Name → ℕ → ℕ → Bool
  job_cpuset_exists t here n uid = elim (query t (job_cpuset_path here n uid)) [
    | none ↦ false
    | some c ↦ true
  ]

  -- `job_cpuset_create`. Where `cpuset_create` fails, the variable that is returned was never set, and
  -- holds `junk`; a NULL from `do_cpuset_create` is not noticed.
  unfoldable pub job_cpuset_create : Bool → Conf → T → Name → ℕ → ℕ → B → Ran T
  job_cpuset_create junk cf t here n uid alloc = elim (do_cpuset_create lib ops fs cf alloc) [
    | none ↦ crashed
    | some cp ↦ elim (cpuset_create t (job_cpuset_path here n uid) cp) [
      | none ↦ ran t junk
      | some t' ↦ ran t' true
    ]
  ]

  -- The machine with the CPUs that are in use in the tree.
  unfoldable pub machine_at : Machine B → T → Name → Machine B
  machine_at machine t here = record machine {
    used_cpus =
        used_cpus_bitmask_path lib ops fs machine.cpumask_size t (current_cpuset_path here) false;
  }

  -- What follows the allocation, for a job of a user.
  unfoldable pub place_job : ℕ → Bool → Conf → ℕ → T → Name → ℕ → ℕ → B → Ran T
  place_job fuel junk cf size t here n uid alloc =
      elim (user_cpuset_update lib ops fs fuel size cf t uid (some alloc)) [
        | ran t1 done ↦ elim done [
          | false ↦ ran t1 false
          | true ↦ job_cpuset_create junk cf t1 here n uid alloc
        ]
        | crashed ↦ crashed
        | stuck ↦ stuck
      ]

  module _ (lists : SortLib (Node B)) where
    -- `create_cpuset_for_job`: `create_cpuset` for a user.
    unfoldable pub create_cpuset_for_job :
        ℕ → Bool → Machine B → Conf → T → Name → ℕ → ℕ → ℕ → Ran T
    create_cpuset_for_job fuel junk machine cf t here jobid uid ncpus =
        elim (nodemap_create lib (machine_at machine t here) cf none) [
          | none ↦ ran t false
          | some map ↦ elim (nodemap_allocate lib lists machine.cpumask_size fuel map ncpus) [
            | ok q ↦
                place_job fuel junk cf machine.cpumask_size t here jobid uid q.alloc.allocated_cpus
            | refused ↦ ran t false
            | fault ↦ crashed
            | out_of_fuel ↦ stuck
          ]
        ]
