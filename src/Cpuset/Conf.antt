-- ===== src/Cpuset/Conf.antt =====
-- The configuration of the cpuset plugin (cpuset/conf.h, cpuset/conf.c): its defaults, its setters and
-- the options of `cpuset_conf_parse_opt`. The parser of a configuration file (cpuset/conf-parser.y)
-- is a parameter. A `NULL` configuration, which the setters refuse, is not modelled.
pub mod Options
use slurm_spank_plugins.Base.{
  Bool, true, false, not, ◌&&◌, ◌||◌, if◌then◌else◌, Option, none, some, Bytes, codes, str_eq,
  str_case_eq, strip_prefix,
}

pub data FitPolicy : Type 0 where
  best_fit first_fit worst_fit : FitPolicy

pub record Conf : Type 0 where
  pub policy : FitPolicy
  pub reverse_order : Bool
  pub alloc_idle_nodes : Bool
  pub use_idle_if_multiple : Bool
  pub constrain_mems : Bool
  pub kill_orphans : Bool

abbrev pub cpuset_conf_create : Conf
cpuset_conf_create = record {
  policy = best_fit;
  reverse_order = false;
  alloc_idle_nodes = true;
  use_idle_if_multiple = true;
  constrain_mems = true;
  kill_orphans = false;
}

abbrev pub cpuset_conf_alloc_idle_gt : Conf → Bool
cpuset_conf_alloc_idle_gt c = c.alloc_idle_nodes && not c.use_idle_if_multiple

abbrev pub cpuset_conf_alloc_idle_multiple : Conf → Bool
cpuset_conf_alloc_idle_multiple c = c.alloc_idle_nodes && c.use_idle_if_multiple

-- What a setter returns: the configuration, and whether the code is 0 (and not -1).
abbrev pub Reply : Type 0
Reply = Conf × Bool

abbrev pub cpuset_conf_set_policy : Conf → FitPolicy → Reply
cpuset_conf_set_policy c p = (record c { policy = p }, true)

unfoldable pub cpuset_conf_set_policy_string : Conf → Bytes → Reply
cpuset_conf_set_policy_string c name =
    if str_eq name (codes "best-fit")
    then cpuset_conf_set_policy c best_fit
    else if str_eq name (codes "worst-fit")
    then cpuset_conf_set_policy c worst_fit
    else if str_eq name (codes "first-fit")
    then cpuset_conf_set_policy c first_fit
    else (c, false)

abbrev pub cpuset_conf_set_alloc_idle : Conf → Bool → Reply
cpuset_conf_set_alloc_idle c b = (record c { alloc_idle_nodes = b }, true)

abbrev pub cpuset_conf_set_alloc_idle_mode : Conf → Bool → Reply
cpuset_conf_set_alloc_idle_mode c b = (record c { use_idle_if_multiple = b }, true)

unfoldable pub cpuset_conf_set_alloc_idle_string : Conf → Bytes → Reply
cpuset_conf_set_alloc_idle_string c s =
    if str_eq s (codes "0") || str_case_eq s (codes "never") || str_case_eq s (codes "no")
    then cpuset_conf_set_alloc_idle c false
    else if str_eq s (codes "1") || str_case_eq s (codes "yes")
    then cpuset_conf_set_alloc_idle c true
    else if str_case_eq s (codes "multiple") || str_case_eq s (codes "mult")
    then cpuset_conf_set_alloc_idle_mode c true
    else if str_case_eq s (codes "gt") || str_case_eq s (codes "greater")
    then cpuset_conf_set_alloc_idle_mode c false
    else (c, false)

abbrev pub cpuset_conf_set_constrain_mem : Conf → Bool → Reply
cpuset_conf_set_constrain_mem c b = (record c { constrain_mems = b }, true)

abbrev pub cpuset_conf_set_kill_orphans : Conf → Bool → Reply
cpuset_conf_set_kill_orphans c b = (record c { kill_orphans = b }, true)

abbrev pub cpuset_conf_set_order : Conf → Bool → Reply
cpuset_conf_set_order c b = (record c { reverse_order = b }, true)

-- The options of `cpuset_conf_parse_opt` behind `conf=`.
unfoldable pub parse_flag : Conf → Bytes → Reply
unfolding cpuset_conf_set_alloc_idle_string
parse_flag c opt =
    if str_eq (codes "!idle-1st") opt || str_eq (codes "no-idle") opt
    then cpuset_conf_set_alloc_idle c false
    else elim (strip_prefix (codes "idle-1st=") opt) [
      | some s ↦ cpuset_conf_set_alloc_idle_string c s
      | none ↦ elim (strip_prefix (codes "idle-first=") opt) [
        | some s ↦ cpuset_conf_set_alloc_idle_string c s
        | none ↦
            if str_eq (codes "!mem") opt
              || str_eq (codes "nomem") opt
              || str_eq (codes "!constrain-mem") opt
            then cpuset_conf_set_constrain_mem c false
            else if str_eq (codes "mem") opt || str_eq (codes "constrain-mem") opt
            then cpuset_conf_set_constrain_mem c true
            else if str_eq (codes "reverse") opt || str_eq (codes "order=reverse") opt
            then cpuset_conf_set_order c true
            else if str_eq (codes "order=normal") opt
            then cpuset_conf_set_order c false
            else (c, false)
      ]
    ]

module _ (cpuset_conf_parse : Conf → Bytes → Reply) where
  -- The options of `cpuset_conf_parse_opt` behind `policy=`.
  unfoldable pub parse_file_or_flag : Conf → Bytes → Reply
  unfolding parse_flag
  parse_file_or_flag c opt = elim (strip_prefix (codes "conf=") opt) [
    | some file ↦ cpuset_conf_parse c file
    | none ↦ parse_flag c opt
  ]

  -- An accepted `policy=` does not return: the tests below it come next.
  unfoldable pub cpuset_conf_parse_opt : Conf → Bytes → Reply
  unfolding cpuset_conf_set_policy_string parse_file_or_flag
  cpuset_conf_parse_opt c opt =
      let (named, known) = cpuset_conf_set_policy_string c opt in
      if known then (named, true) else elim (strip_prefix (codes "policy=") opt) [
        | none ↦ parse_file_or_flag named opt
        | some name ↦
            let (set', accepted) = cpuset_conf_set_policy_string named name in
            if accepted then parse_file_or_flag set' opt else (set', false)
      ]
