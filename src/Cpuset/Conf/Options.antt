-- ===== src/Cpuset/Conf/Options.antt =====
-- What the options of the cpuset plugin do (`cpuset_conf_parse_opt` of cpuset/conf.c).
use slurm_spank_plugins.Base.{
  inl, inr, Option-cases, str_eq, true, false, none, ◌≡◌, Bytes, codes, strip_prefix, arith, ◌++◌,
  refl,
}
use slurm_spank_plugins.Cpuset.Conf.{
  Conf, FitPolicy, best_fit, first_fit, worst_fit, Reply, cpuset_conf_set_policy_string,
  cpuset_conf_set_alloc_idle_string, parse_flag, cpuset_conf_parse_opt,
}

abbrev pub policy_name : FitPolicy → Bytes
policy_name best_fit = codes "best-fit"
policy_name first_fit = codes "first-fit"
policy_name worst_fit = codes "worst-fit"

module _ (parse : Conf → Bytes → Reply) where
  -- A policy is accepted by its name alone, and nothing but the policy changes. With `policy=` before
  -- the name the policy is set as well, and yet the option is refused.
  pub parse_opt_policy :
      (c : Conf) (p : FitPolicy)
      → (cpuset_conf_parse_opt parse c (policy_name p) ≡ (record c { policy = p }, true))
        × (cpuset_conf_parse_opt parse c (codes "policy=" ++ policy_name p)
            ≡ (record c { policy = p }, false))
  unfolding cpuset_conf_parse_opt str_eq strip_prefix
  parse_opt_policy c best_fit = (refl, refl)
  parse_opt_policy c first_fit = (refl, refl)
  parse_opt_policy c worst_fit = (refl, refl)

  set_policy_string_refused :
      (c : Conf) (s : Bytes)
      → (cpuset_conf_set_policy_string c s).1 ≡ false
      → (cpuset_conf_set_policy_string c s).0 ≡ c
  unfolding cpuset_conf_set_policy_string
  set_policy_string_refused c s h = ground arith

  set_alloc_idle_string_refused :
      (c : Conf) (s : Bytes)
      → (cpuset_conf_set_alloc_idle_string c s).1 ≡ false
      → (cpuset_conf_set_alloc_idle_string c s).0 ≡ c
  unfolding cpuset_conf_set_alloc_idle_string
  set_alloc_idle_string_refused c s h = ground arith

  parse_flag_refused :
      (c : Conf) (opt : Bytes) → (parse_flag c opt).1 ≡ false → (parse_flag c opt).0 ≡ c
  unfolding parse_flag
  parse_flag_refused c opt h = elim (Option-cases (strip_prefix (codes "idle-1st=") opt)) [
    | inr (s, e) ↦ ground (arith, set_alloc_idle_string_refused c s)
    | inl e ↦ elim (Option-cases (strip_prefix (codes "idle-first=") opt)) [
      | inr (s, f) ↦ ground (arith, set_alloc_idle_string_refused c s)
      | inl f ↦ ground arith
    ]
  ]

  -- An option that is refused leaves the configuration as it was, unless it begins with `policy=` (see
  -- above) or names a file.
  pub parse_opt_refused :
      (c : Conf) (opt : Bytes)
      → strip_prefix (codes "policy=") opt ≡ none
      → strip_prefix (codes "conf=") opt ≡ none
      → (cpuset_conf_parse_opt parse c opt).1 ≡ false
      → (cpuset_conf_parse_opt parse c opt).0 ≡ c
  unfolding cpuset_conf_parse_opt
  parse_opt_refused c opt no_policy no_file h =
      ground (arith, set_policy_string_refused c opt, parse_flag_refused c opt)
