-- ===== src/Schedutils/Tests.antt =====
-- The operations on CPU sets on small sets, and their theorems applied to them.
use slurm_spank_plugins.Base.{
  ℕ, ◌+◌, ◌==◌, ltb, if◌then◌else◌, Bool, true, false, not, ◌&&◌, ◌||◌, ◌≡◌, ◌↔◌, refl, arith,
  Option, none, some, List, [], ◌∷◌, codes, length,
}
use slurm_spank_plugins.Text.{skip_space, read_digits}
use slurm_spank_plugins.Text.Decimal.{strtoul, unsigned_sign, unsigned}
use slurm_spank_plugins.Affinity.Cpus.{CpuSet, cpu_setsize, cpu_set, cpu_isset}
use slurm_spank_plugins.Affinity.Cstr.{nexttoken, before, entries_after}
use slurm_spank_plugins.Schedutils.Cstr.{
  cpuset_to_cstr, cstr_to_cpuset, set_entries, parse_entry, parse_end, parse_stride, leading_zero,
  set_range,
}
use slurm_spank_plugins.Schedutils.RoundTrip.{cstr_to_cpuset-cpuset_to_cstr}
use slurm_spank_plugins.Schedutils.Ops.{
  cpu_set_union, cpu_set_intersect, l_cpu_set_add, l_cpu_set_subtract, l_cpu_set_is_in,
  l_cpu_set_contains, l_cpu_set_equals, expand_from, element, push_entry, Called, failed, skipped,
  value, l_cpu_set_expand, l_cpu_set_count, l_cpu_set_first, l_cpu_set_last, iterate,
}
use slurm_spank_plugins.Schedutils.Algebra.{cpu_set_ops-pointwise, cpu_set_tests_correct}
use slurm_spank_plugins.Schedutils.Listing.{
  AscendsFrom, kept, map, member, head, last_or, l_cpu_set_expand_correct,
}

abbrev low : CpuSet
low i = i == 0 || i == 1 || i == 2

abbrev even : CpuSet
even i = i == 0 || i == 2 || i == 8

cstr_to_cpuset-cpuset_to_cstr_example :
    (t : CpuSet) × (cstr_to_cpuset 1024 (cpuset_to_cstr even) ≡ some (t, true))
    × ((j : ℕ) → cpu_isset j t ≡ cpu_isset j even)
cstr_to_cpuset-cpuset_to_cstr_example = cstr_to_cpuset-cpuset_to_cstr 1024 even (omega arith)

cpu_set_ops-pointwise_example :
    (cpu_isset 2 (cpu_set_union low even) ≡ cpu_isset 2 low || cpu_isset 2 even)
    × (cpu_isset 2 (cpu_set_intersect low even) ≡ cpu_isset 2 low && cpu_isset 2 even)
    × (cpu_isset 2 (l_cpu_set_add even low even) ≡ cpu_isset 2 low || cpu_isset 2 even)
    × (cpu_isset 2 (l_cpu_set_subtract even low even) ≡ cpu_isset 2 low && not (cpu_isset 2 even))
cpu_set_ops-pointwise_example = cpu_set_ops-pointwise even low even 2

cpu_set_tests_correct_example :
    ((l_cpu_set_is_in low even ≡ true)
      ↔ ((j : ℕ) → cpu_isset j low ≡ true → cpu_isset j even ≡ true))
    × (l_cpu_set_contains even low ≡ l_cpu_set_is_in low even)
    × ((l_cpu_set_equals low even ≡ true) ↔ ((j : ℕ) → cpu_isset j low ≡ cpu_isset j even))
cpu_set_tests_correct_example = cpu_set_tests_correct low even

l_cpu_set_expand_correct_example :
    (l : List ℕ) × AscendsFrom 0 l
    × ((j : ℕ) → member j l ≡ cpu_isset j even)
    × (l_cpu_set_expand (λ (i : ℕ). i) none even ≡ some (map (λ (i : ℕ). i) l))
    × ((f : ℕ → Called ℕ) → l_cpu_set_expand (λ i. i) (some f) even ≡ kept f l)
    × (iterate cpu_setsize even 0 ≡ l)
    × (l_cpu_set_count even ≡ length l)
    × (l_cpu_set_first even ≡ head l)
    × (l_cpu_set_last even ≡ last_or none l)
l_cpu_set_expand_correct_example = l_cpu_set_expand_correct (λ i. i) even

-- A function that doubles small CPUs and returns nothing for the others, and one that fails.
abbrev doubled : ℕ → Called ℕ
doubled i = if ltb i 3 then value (i + i) else skipped

functions :
    (expand_from (λ i. i) (some doubled) even 0 9 ≡ some (0 ∷ 4 ∷ []))
    × (expand_from (λ (i : ℕ). i) (some (λ i. failed)) even 0 9 ≡ none)
unfolding expand_from element push_entry cpu_isset
functions = (refl, refl)

-- A list with a range, a stride that leaves a CPU out, and one with text behind it.
abbrev bits : Option (CpuSet × Bool) → List Bool
bits none = []
bits (some (s, ok)) = ok ∷ s 0 ∷ s 1 ∷ s 2 ∷ s 3 ∷ s 4 ∷ []

small_lists :
    (bits (cstr_to_cpuset 9 (codes "0-1,4")) ≡ true ∷ true ∷ true ∷ false ∷ false ∷ true ∷ [])
    × (bits (cstr_to_cpuset 9 (codes "0-4:2")) ≡ true ∷ true ∷ false ∷ true ∷ false ∷ true ∷ [])
    × (bits (cstr_to_cpuset 9 (codes "1x")) ≡ false ∷ false ∷ true ∷ false ∷ false ∷ false ∷ [])
    × (cstr_to_cpuset 9 (codes "0-4:0") ≡ none)
unfolding cstr_to_cpuset set_entries parse_entry parse_end parse_stride leading_zero set_range
    cpu_set nexttoken strtoul unsigned_sign skip_space unsigned read_digits before entries_after
small_lists = (refl, refl, refl, refl)
