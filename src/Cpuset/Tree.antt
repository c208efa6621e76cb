-- ===== src/Cpuset/Tree.antt =====
-- The tree of cpusets below /dev/cpuset, as the cpuset plugin sees it. The kernel and libcpuset are not
-- part of the repository: their calls are a parameter, with what the code relies on as laws.
use slurm_spank_plugins.Base.{
  Bytes, ℕ, Bool, false, ◌≡◌, ◌≢◌, ◌⊎◌, Option, none, some, List, [], ◌∷◌,
}
use slurm_spank_plugins.Cpuset.Bitmask.{BitmaskLib}

-- A name in a directory: "slurm", a number, "orphan:" and a number, a hidden file, or another name,
-- which is no number.
pub data Part : Type 0 where
  slurm : Part
  id orphan : ℕ → Part
  hidden : Part
  other : Bytes → Part

-- A path from the root, the last name first.
abbrev pub Name : Type 0
Name = List Part

abbrev pub slurm_name : Name
slurm_name = slurm ∷ []

abbrev pub user_name : ℕ → Name
user_name uid = id uid ∷ slurm_name

abbrev pub orphan_name : ℕ → Name
orphan_name uid = orphan uid ∷ slurm_name

-- `struct cpuset`, as far as the code sets it.
pub record Cset (B : Type 0) : Type 0 where
  pub cpus : B
  pub mems : B
  pub notify_on_release : Bool

-- The answer of `mkdir`: `again` is EEXIST.
pub data Answer (T : Type 0) : Type 0 where
  changed : T → Answer T
  again refused : Answer T

-- The answer of `cpuset_modify`: `busy` is EBUSY or EAGAIN, `broken` another error. It writes one file
-- after the other, so that one that fails may have changed something.
pub data Modified (T : Type 0) : Type 0 where
  modified busy broken : T → Modified T

abbrev pub Member : Part → List Part → Type 0
Member x [] = ⊥
Member x (y ∷ ys) = (x ≡ y) ⊎ Member x ys

pub record CpusetLib {B : Type 0} (lib : BitmaskLib B) (T : Type 0) : Type 0 where
  -- `cpuset_query` and `cpuset_getcpus`
  pub query : T → Name → Option (Cset B)
  -- The names that `readdir` returns, where `opendir` succeeds.
  pub read_names : T → Name → Option (List Part)
  pub cpuset_create : T → Name → Cset B → Option T
  -- With the number of attempts before.
  pub cpuset_modify : ℕ → T → Name → Cset B → Modified T
  pub mkdir : T → Name → Answer T
  pub rename : T → Name → Name → Option T
  -- `kill` of all processes in a cpuset.
  pub kill_all : T → Name → T
  -- `cpuset_localmems`, and `cpuset_getmems` of the present cpuset.
  pub localmems : B → Option B
  pub getmems : Option B
  -- The number of CPUs, and so the size of every mask that is read.
  pub size : ℕ
  pub query-size : (t : T) (n : Name) (c : Cset B) → query t n ≡ some c → lib.nbits c.cpus ≡ size
  pub read_names-query :
      (t : T) (n : Name) (c : Cset B)
      → query t n ≡ some c
      → (l : List Part) × (read_names t n ≡ some l)
  pub query-read_names :
      (t : T) (p : Name) (x : Part) (c : Cset B) (l : List Part)
      → query t (x ∷ p) ≡ some c
      → read_names t p ≡ some l
      → Member x l
  pub create-query :
      (t t' : T) (n : Name) (c : Cset B)
      → lib.nbits c.cpus ≡ size
      → cpuset_create t n c ≡ some t'
      → (query t n ≡ none) × (query t' n ≡ some c) × ((m : Name) → m ≢ n → query t' m ≡ query t m)
  pub modify-query :
      (k : ℕ) (t t' : T) (n : Name) (c : Cset B)
      → lib.nbits c.cpus ≡ size
      → cpuset_modify k t n c ≡ modified t'
      → (query t' n ≡ some c) × ((m : Name) → m ≢ n → query t' m ≡ query t m)
  -- Where it fails, the cpuset has its old CPUs or the new ones.
  pub modify_failed :
      (k : ℕ) (t t' : T) (n : Name) (c : Cset B)
      → lib.nbits c.cpus ≡ size
      → (cpuset_modify k t n c ≡ busy t') ⊎ (cpuset_modify k t n c ≡ broken t')
      → ((m : Name) → m ≢ n → query t' m ≡ query t m)
        × ((query t' n ≡ query t n) ⊎ ((d : Cset B) × (d.cpus ≡ c.cpus) × (query t' n ≡ some d)))
  -- A new directory is a cpuset without CPUs.
  pub mkdir-query :
      (t t' : T) (n : Name)
      → mkdir t n ≡ changed t'
      → (query t n ≡ none)
        × ((c : Cset B) × (query t' n ≡ some c) × ((i : ℕ) → lib.isbitset c.cpus i ≡ false))
        × ((m : Name) → m ≢ n → query t' m ≡ query t m)
  pub mkdir_exists : (t : T) (n : Name) → mkdir t n ≡ again → (c : Cset B) × (query t n ≡ some c)
  pub rename_none : (t : T) (a b : Name) → query t a ≡ none → rename t a b ≡ none
  -- A directory that is renamed takes what is in it along; stated for a user's.
  pub rename-query :
      (t t' : T) (u : ℕ)
      → rename t (user_name u) (orphan_name u) ≡ some t'
      → (query t' (user_name u) ≡ none)
        × ((x : Part) → query t' (x ∷ user_name u) ≡ none)
        × ((v : ℕ) → v ≢ u → query t' (user_name v) ≡ query t (user_name v))
        × ((v : ℕ) (x : Part) → v ≢ u → query t' (x ∷ user_name v) ≡ query t (x ∷ user_name v))
  pub kill-query : (t : T) (a n : Name) → query (kill_all t a) n ≡ query t n
