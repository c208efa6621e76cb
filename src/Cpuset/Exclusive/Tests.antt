-- ===== src/Cpuset/Exclusive/Tests.antt =====
-- A user's job is placed in a small tree of cpusets, where another user has a CPU.
use mathlib.Core.Path.{subst}
use slurm_spank_plugins.Base.{
  Bytes, ◌||◌, ℕ, ◌<◌, Bool, true, false, ◌==◌, ◌≡◌, ◌∙◌, sym, refl, inl, inr, List, [], ◌∷◌, arith,
  Option, none, some, Bool-cases,
}
use slurm_spank_plugins.Cpuset.Conf.{cpuset_conf_create}
use slurm_spank_plugins.Cpuset.Instance.{Mask, masks, mask_ops, sorts, two_nodes}
use slurm_spank_plugins.Cpuset.Directories.{Directories, directories, look_up}
use slurm_spank_plugins.Cpuset.Tree.{
  Part, slurm, id, orphan, hidden, other, Name, user_name, slurm_name, Cset,
}
use slurm_spank_plugins.Cpuset.Nodemap.State.{Nodemap}
use slurm_spank_plugins.Cpuset.Nodemap.Create.{nodemap_create}
use slurm_spank_plugins.Cpuset.Nodemap.Invariant.{total_navail}
use slurm_spank_plugins.Cpuset.Update.{
  Ran, ran, crashed, stuck, used_cpus_bitmask_path, add_all_used, add_used, initial_used,
  do_cpuset_create, user_cpuset_unorphan, user_cpuset_create, modify_loop, give_cpus,
  update_existing, user_cpuset_update,
}
use slurm_spank_plugins.Cpuset.Nodemap.Node.{node_cmp_free, node_cmp_nodeid, node_cmp_avail}
use slurm_spank_plugins.Cpuset.Nodemap.Allocate.{
  nodemap_allocate, allocate_rest, allocate_by_policy, allocation_create, alloc_idle_nodes,
  should_allocate_idle_nodes, sort_nodes,
}
use slurm_spank_plugins.Cpuset.Create.{
  current_cpuset_path, job_cpuset_path, machine_at, place_job, job_cpuset_create,
  create_cpuset_for_job,
}
use slurm_spank_plugins.Cpuset.Exclusive.Used.{Has, IsCounted}
use slurm_spank_plugins.Cpuset.Exclusive.Apart.{TreeOk, IsFree, job_name, Has-none, Has-cset}
use slurm_spank_plugins.Cpuset.Exclusive.Users.{Ended}
use slurm_spank_plugins.Cpuset.Exclusive.OneUser.{user_cpuset_update-TreeOk}

abbrev with_cpus : (ℕ → Bool) → Cset Mask
with_cpus p = record {
  cpus = record { size = 4; bits = p };
  mems = record { size = 2; bits = λ i. true };
  notify_on_release = true;
}

-- User 7 has CPU 0, for job 1.
abbrev before : Directories
before =
    (job_name 7 (id 1), with_cpus (λ i. i == 0))
    ∷ (user_name 7, with_cpus (λ i. i == 0))
    ∷ (slurm_name, with_cpus (λ i. true))
    ∷ []

-- Only user 7 has CPUs, and only CPU 0.
before-user : (v i : ℕ) → Has masks mask_ops directories before (user_name v) i → (v ≡ 7) × (i ≡ 0)
before-user v i h = elim (Bool-cases (7 == v)) [
  | inr f ↦ absurd (Has-none masks mask_ops directories before (user_name v) i (ground arith) h)
  | inl f ↦
      let e : v ≡ 7 = ground arith in
      let at_7 = subst (λ x. Has masks mask_ops directories before (user_name x) i) e h in
      let bit =
        Has-cset masks mask_ops directories before (user_name 7) i (with_cpus (λ j. j == 0)) refl
          at_7 in
      (e, ground arith)
]

before-job :
    (v n i : ℕ)
    → Has masks mask_ops directories before (job_name v (id n)) i
    → (v ≡ 7) × (n ≡ 1) × (i ≡ 0)
before-job v n i h = elim (Bool-cases (7 == v)) [
  | inr f ↦
      absurd (Has-none masks mask_ops directories before (job_name v (id n)) i (ground arith) h)
  | inl f ↦ elim (Bool-cases (1 == n)) [
    | inr g ↦
        absurd (Has-none masks mask_ops directories before (job_name v (id n)) i (ground arith) h)
    | inl g ↦
        let e : v ≡ 7 = ground arith in
        let e' : n ≡ 1 = ground arith in
        let at_7 = subst (λ x. Has masks mask_ops directories before (job_name x (id n)) i) e h in
        let at_1 =
          subst (λ x. Has masks mask_ops directories before (job_name 7 (id x)) i) e' at_7 in
        let bit =
          Has-cset masks mask_ops directories before (job_name 7 (id 1)) i (with_cpus (λ j. j == 0))
            refl at_1 in
        (e, e', ground arith)
  ]
]

before-TreeOk : TreeOk masks mask_ops directories before
before-TreeOk = record {
  users_apart = λ u v i ne h k.
      let (a, b) = before-user u i h in let (c, d) = before-user v i k in ne (a ∙ sym c);
  within = within_user;
  jobs_apart = λ u m n i ne h k.
      let (a, b, c) = before-job u m i h in let (d, e, f) = before-job u n i k in ne (b ∙ sym e);
}
  where
    within_user :
        (u : ℕ) (x : Part) (i : ℕ)
        → IsCounted x
        → Has masks mask_ops directories before (job_name u x) i
        → Has masks mask_ops directories before (user_name u) i
    within_user u slurm i c h =
        absurd (Has-none masks mask_ops directories before (job_name u slurm) i refl h)
    within_user u (orphan n) i c h = absurd c
    within_user u hidden i c h = absurd c
    within_user u (other s) i c h =
        absurd (Has-none masks mask_ops directories before (job_name u (other s)) i (gone s) h)
      where
        gone : (s : Bytes) → look_up before (job_name u (other s)) ≡ none
        gone s = ground arith
    within_user u (id n) i c h =
        let (a, b, d) = before-job u n i h in
        subst (λ x. Has masks mask_ops directories before (user_name x) i) (sym a)
          (record { cset = with_cpus (λ j. j == 0); found = refl; bit = ground arith })

IsFree-cpu : (i : ℕ) → 0 < i → IsFree masks mask_ops directories before i
IsFree-cpu i lt v h = let (a, b) = before-user v i h in omega arith

abbrev two_cpus : Mask
two_cpus = record { size = 4; bits = λ i. i == 1 || i == 2 }

user_cpuset_update-TreeOk_example :
    Ended masks mask_ops directories before 8 (some two_cpus) (
      user_cpuset_update masks mask_ops directories 2 4 cpuset_conf_create before 8 (some two_cpus))
user_cpuset_update-TreeOk_example =
    user_cpuset_update-TreeOk masks mask_ops directories 2 cpuset_conf_create before 8
      (some two_cpus) before-TreeOk refl (λ i h. IsFree-cpu i (ground arith)) (λ i h. ground arith)

-- The retry succeeds, and the user has the two CPUs.
abbrev bits_of : Option (Cset Mask) → List Bool
bits_of none = []
bits_of (some c) = let b = c.cpus.bits in b 0 ∷ b 1 ∷ b 2 ∷ b 3 ∷ []

abbrev cpus_of : Ran Directories → Name → List Bool
cpus_of (ran t ok) n = bits_of (look_up t n)
cpus_of crashed n = []
cpus_of stuck n = []

abbrev run_job : Ran Directories
run_job =
    create_cpuset_for_job masks mask_ops directories sorts 2 false two_nodes cpuset_conf_create
      before [] 2 8 2

job_has_idle_node :
    (cpus_of run_job (job_name 8 (id 2)) ≡ false ∷ false ∷ true ∷ true ∷ [])
    × (cpus_of run_job (user_name 8) ≡ false ∷ false ∷ true ∷ true ∷ [])
unfolding create_cpuset_for_job machine_at current_cpuset_path job_cpuset_path place_job
    job_cpuset_create used_cpus_bitmask_path add_all_used add_used initial_used do_cpuset_create
    user_cpuset_unorphan user_cpuset_create modify_loop give_cpus update_existing user_cpuset_update
    nodemap_create nodemap_allocate allocate_rest allocate_by_policy allocation_create
    alloc_idle_nodes should_allocate_idle_nodes sort_nodes node_cmp_nodeid node_cmp_free
    node_cmp_avail
job_has_idle_node = (refl, refl)

abbrev first_fits : Option (Nodemap Mask) → ℕ
first_fits none = 0
first_fits (some m) = total_navail m.nodelist

abbrev size_of : Option Mask → ℕ
size_of none = 4
size_of (some u) = u.size
