-- ===== src/Lib.antt =====
-- Verification of the SLURM spank plugins.
--
-- The repository holds small plugins that slurmd and srun call at fixed points of a job step (`init`,
-- option callbacks, `user_init`, `task_init`, `exit`). They share no state with each other; what one
-- keeps between its calls are static variables, a file, or kernel settings. Each modelled plugin is a
-- module of its own:
--
--   * Cpuset (cpuset/): Conf is the configuration of cpuset/conf.c; Nodemap is cpuset/nodemap.c, with the
--     structs in Nodemap/State, the functions on one node in Nodemap/Node, those on the list of nodes up
--     to `nodemap_allocate` in Nodemap/Allocate, and `nodemap_create` in Nodemap/Create. The other
--     modules of Nodemap are the proofs, from one node (OneNode, WholeNode) through the loops over the
--     list (Walk, Order, Policies, Fits, WorstFit) to Correct and Built. A C pointer from a node or an
--     allocation back to the map is modelled by handing the map on beside it. Tree is the tree of
--     cpusets below /dev/cpuset, Update the update of a user's cpuset (cpuset/create.c) with the scan for
--     CPUs in use (cpuset/util.c), and Create the cpuset of a job, from the scan over the map of nodes to
--     the new directory. Exclusive has the proofs: the scan (Used), the invariant of the tree (Apart),
--     the attempts of `cpuset_modify` (Modify), the steps of the update (Users, OneUser), that it ends
--     (Returns), and the job (Jobs).
--   * Overcommit (overcommit-memory/): Shared is the memory-mapped table of overcommit.c with its
--     semaphore and the two files of /proc/sys/vm; Plugin is `set_overcommit_policy` and `slurm_spank_exit`
--     of overcommit-memory.c with the clean-up of overcommit.c, Init its start; Table, Users and Lifecycle
--     are the proofs.
--   * Affinity (auto-affinity.c): Cpus has the sets of CPUs, Masks `generate_mask` and
--     `generate_mask_reverse`, Plugin the callbacks before, Cstr the lists of CPUs as texts; Available,
--     Place, Apart, Disjoint, Decision, Ranges and Lists are the proofs.
--   * Priority (renice.c, setsched.c): Renice and Setsched have the plugins, Bounds and Choice the proofs.
--   * PrivateMount (private-mount.c): System is what the plugin calls, Plugin its callbacks and the loops
--     that make directories and mount; Mounts and Allowed are the proofs, the latter over all states that
--     callbacks can lead to.
--   * PreserveEnv (preserve-env.c): Environment is an environment with the calls on it, Plugin the option,
--     the copies and the task; Entries and RoundTrip are the proofs.
--   * Schedutils (lua/lua-schedutils/): Cstr has the two functions of cpuset-str.c on lists of CPUs, the
--     first of which auto-affinity.c has too, Ops the operations of lua-schedutils.c on sets of CPUs;
--     Pieces, Cover, Entries and RoundTrip are the proofs on lists, Stride that of a stride
--     of 0, Algebra and Listing those on sets.
--   * Text: `strtol` and `strtoul` in base 10, decimal numbers as they are printed (Decimal), and the
--     `str2int` that auto-affinity.c and overcommit-memory/ share.
--
-- Base has the helpers that all of them use. Functions keep their C names; a leading underscore is
-- dropped. A return value that reports an error is an Option or a Bool beside the new state; undefined
-- behaviour of C (an access outside of an array, a pointer that was freed, a division by zero) is a
-- value of its own (`fault`, or `none` where the comment says so).
--
-- Integers: counts, numbers of CPUs and ids are natural numbers, or integers where the code gives the
-- sign a meaning; the conversion from long to int in `str2int` and the unsigned additions in the lists
-- of CPUs are written out with their wrap-around. An int that overflows is undefined: in the masks of
-- auto-affinity.c such a sum is a `fault`, and in its lists of CPUs a count or an index beyond an int
-- gives no result. The loops whose number of rounds no list bounds have fuel: in
-- `allocation_worst_fit` as many rounds as CPUs wanted are enough where the nodes have them, in a range
-- of a list of CPUs as many as the list names CPUs, and CPU_SETSIZE where the list was printed from a
-- set. The attempts of `cpuset_modify` are as many as it takes to answer otherwise than with EBUSY or
-- EAGAIN, and `_mkdir_p` calls itself at most once for each name of the path.
--
-- Not in the repository, and parameters: libbitmask (Cpuset/Bitmask, with the documented behaviour of
-- its calls as laws), libcpuset and the machine (Cpuset/Nodemap/Create), the directories of the kernel
-- with the calls on them (Cpuset/Tree), where a `cpuset_modify` that fails may have set the CPUs, mounts
-- (PrivateMount/System), environments (PreserveEnv/Environment), the answers of SLURM and of the kernel,
-- such as that of `setpriority` in Priority/Renice, and the function that is passed to `expand` in
-- Schedutils/Ops, with an answer for each CPU. The list library in lib/ is a copy of another project's,
-- and its sort is a parameter (Cpuset/Nodemap/Sort).
--
-- Not modelled: logging, printing, memory allocation and its failures, the umask; the calls for steps and
-- tasks of cpuset/create.c, the locks and the cleaning of cpuset/util.c, the callbacks of cpuset/cpuset.c
-- and its programs; the option parser, the explicit masks and `slurm_spank_task_init` of auto-affinity.c;
-- the hexadecimal form of CPU sets and the glue to Lua; `main` of overcommit-memory/util.c; and the other
-- plugins (lua/lua.c, use-env/, iorelay/, pty.c, oom-detect.c, system-safe.c, iotrace.c,
-- tmpdir.c, addr-no-randomize.c).
mod Base
pub mod Text
pub mod Cpuset
pub mod Overcommit
pub mod Priority
pub mod PrivateMount
pub mod PreserveEnv
pub mod Affinity
pub mod Schedutils
