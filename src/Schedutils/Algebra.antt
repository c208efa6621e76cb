-- ===== src/Schedutils/Algebra.antt =====
-- The operations on CPU sets are those on sets (lua/lua-schedutils/lua-schedutils.c).
use slurm_spank_plugins.Base.{
  ℕ, zero, suc, ◌+◌, ◌<◌, ◌≤◌, ◌==◌, Bool, true, false, not, ◌&&◌, ◌||◌, ltb, ◌≡◌, ◌≢◌, ◌∙◌, ◌↔◌,
  sym, ap, refl, arith, Bool-cases, inl, inr,
}
use slurm_spank_plugins.Affinity.Cpus.{CpuSet, cpu_setsize, cpu_set, cpu_isset}
use slurm_spank_plugins.Schedutils.Ops.{
  cpu_clr, for_cpus, union_body, cpu_set_union, intersect_body, cpu_set_intersect, add_body,
  l_cpu_set_add, subtract_body, l_cpu_set_subtract, holds_from, l_cpu_set_is_in, l_cpu_set_contains,
  differ, l_cpu_set_equals,
}

-- A body that changes the bit of its CPU alone, by a function of that bit.
record IsPointwise (body : ℕ → CpuSet → CpuSet) (g : ℕ → Bool → Bool) : Type 0 where
  own : (i : ℕ) (s : CpuSet) → i < cpu_setsize → cpu_isset i (body i s) ≡ g i (cpu_isset i s)
  other : (i j : ℕ) (s : CpuSet) → i ≢ j → cpu_isset j (body i s) ≡ cpu_isset j s

for_cpus_below :
    (body : ℕ → CpuSet → CpuSet) (g : ℕ → Bool → Bool)
    → IsPointwise body g
    → (i left j : ℕ) (s : CpuSet) → j < i
    → cpu_isset j (for_cpus body i left s) ≡ cpu_isset j s
unfolding for_cpus
for_cpus_below body g p i zero j s h = refl
for_cpus_below body g p i (suc left) j s h =
    for_cpus_below body g p (suc i) left j (body i s) (omega arith)
    ∙ p.other i j s (λ e. omega arith)

for_cpus_at :
    (body : ℕ → CpuSet → CpuSet) (g : ℕ → Bool → Bool)
    → IsPointwise body g
    → (i left j : ℕ) (s : CpuSet) → i ≤ j
    → j < i + left
    → i + left ≤ cpu_setsize
    → cpu_isset j (for_cpus body i left s) ≡ g j (cpu_isset j s)
unfolding for_cpus
for_cpus_at body g p i zero j s lo hi end = absurd (omega arith)
for_cpus_at body g p i (suc left) j s lo hi end = elim (Bool-cases (i == j)) [
  | inl same ↦
      let e : i ≡ j = ground arith in
      for_cpus_below body g p (suc i) left j (body i s) (omega arith)
      ∙ ap (λ k. cpu_isset j (body k s)) e
      ∙ p.own j s (omega arith)
  | inr apart ↦
      for_cpus_at body g p (suc i) left j (body i s) (ground arith) (omega arith) (omega arith)
      ∙ ap (g j) (p.other i j s (λ e. ground arith))
]

isset_end : (j : ℕ) (s : CpuSet) → cpu_setsize ≤ j → cpu_isset j s ≡ false
unfolding cpu_isset
isset_end j s h = ground arith

-- A whole loop, in which the function keeps what is never set out.
for_cpus_all :
    (body : ℕ → CpuSet → CpuSet) (g : ℕ → Bool → Bool)
    → IsPointwise body g
    → (j : ℕ) (s : CpuSet) → (cpu_setsize ≤ j → g j false ≡ false)
    → cpu_isset j (for_cpus body 0 cpu_setsize s) ≡ g j (cpu_isset j s)
for_cpus_all body g p j s out = elim (Bool-cases (ltb j cpu_setsize)) [
  | inl small ↦ for_cpus_at body g p 0 cpu_setsize j s (omega arith) (ground arith) (omega arith)
  | inr big ↦
      let le : cpu_setsize ≤ j = ground arith in
      isset_end j (for_cpus body 0 cpu_setsize s) le ∙ sym (ap (g j) (isset_end j s le) ∙ out le)
]

union-IsPointwise : (s : CpuSet) → IsPointwise (union_body s) (λ i b. b || cpu_isset i s)
unfolding cpu_isset cpu_set
union-IsPointwise s = record { own = λ i m h. ground arith; other = λ i j m h. ground arith }

intersect-IsPointwise : (s : CpuSet) → IsPointwise (intersect_body s) (λ i b. b && cpu_isset i s)
unfolding cpu_isset cpu_clr
intersect-IsPointwise s = record { own = λ i m h. ground arith; other = λ i j m h. ground arith }

add-IsPointwise :
    (s1 s2 : CpuSet) → IsPointwise (add_body s1 s2) (λ i b. cpu_isset i s1 || cpu_isset i s2)
unfolding cpu_isset cpu_set cpu_clr
add-IsPointwise s1 s2 = record { own = λ i m h. ground arith; other = λ i j m h. ground arith }

subtract-IsPointwise :
    (s1 s2 : CpuSet)
    → IsPointwise (subtract_body s1 s2) (λ i b. cpu_isset i s1 && not (cpu_isset i s2))
unfolding cpu_isset cpu_set cpu_clr
subtract-IsPointwise s1 s2 = record { own = λ i m h. ground arith; other = λ i j m h. ground arith }

-- A CPU is in the union, the intersection, the sum and the difference of two sets as it is in those of
-- mathematics, whatever stood in the memory of a result that is allocated.
pub cpu_set_ops-pointwise :
    (memory s1 s2 : CpuSet) (j : ℕ)
    → (cpu_isset j (cpu_set_union s1 s2) ≡ cpu_isset j s1 || cpu_isset j s2)
      × (cpu_isset j (cpu_set_intersect s1 s2) ≡ cpu_isset j s1 && cpu_isset j s2)
      × (cpu_isset j (l_cpu_set_add memory s1 s2) ≡ cpu_isset j s1 || cpu_isset j s2)
      × (cpu_isset j (l_cpu_set_subtract memory s1 s2) ≡ cpu_isset j s1 && not (cpu_isset j s2))
unfolding cpu_set_union cpu_set_intersect l_cpu_set_add l_cpu_set_subtract
cpu_set_ops-pointwise memory s1 s2 j = (
  for_cpus_all (union_body s2) _ (union-IsPointwise s2) j s1 (λ h. isset_end j s2 h),
  for_cpus_all (intersect_body s2) _ (intersect-IsPointwise s2) j s1 (λ h. refl),
  for_cpus_all (add_body s1 s2) _ (add-IsPointwise s1 s2) j memory
      (λ h. let e = isset_end j s1 h in let f = isset_end j s2 h in ground arith),
  for_cpus_all (subtract_body s1 s2) _ (subtract-IsPointwise s1 s2) j memory
      (λ h. let e = isset_end j s1 h in ground arith),
)

holds_from-all :
    (against : ℕ → Bool) (i left : ℕ)
    → (holds_from against i left ≡ true) ↔ ((j : ℕ) → i ≤ j → j < i + left → against j ≡ false)
unfolding holds_from
holds_from-all against i zero = (λ h j lo hi. absurd (omega arith), λ h. refl)
holds_from-all against i (suc left) = elim (Bool-cases (against i)) [
  | inl no_more ↦
      (λ h. absurd (ground arith), λ h. absurd (let e = h i (omega arith) (omega arith) in cc))
  | inr on ↦
      let (to, from) = holds_from-all against (suc i) left in
      (
        λ h j lo hi. elim (Bool-cases (i == j)) [
          | inl same ↦ let e : i ≡ j = ground arith in ap against (sym e) ∙ on
          | inr apart ↦ to (ground arith) j (ground arith) (omega arith)
        ],
        λ h. rw on (from (λ j lo hi. h j (omega arith) (omega arith))),
      )
]

-- `is_in` and `contains` tell whether every CPU of one set is in the other, and `equals` whether the
-- two sets have the same CPUs.
pub cpu_set_tests_correct :
    (s1 s2 : CpuSet)
    → ((l_cpu_set_is_in s1 s2 ≡ true) ↔ ((j : ℕ) → cpu_isset j s1 ≡ true → cpu_isset j s2 ≡ true))
      × (l_cpu_set_contains s2 s1 ≡ l_cpu_set_is_in s1 s2)
      × ((l_cpu_set_equals s1 s2 ≡ true) ↔ ((j : ℕ) → cpu_isset j s1 ≡ cpu_isset j s2))
unfolding l_cpu_set_is_in l_cpu_set_contains l_cpu_set_equals
cpu_set_tests_correct s1 s2 =
    let (sub, sub_back) =
      holds_from-all (λ i. cpu_isset i s1 && not (cpu_isset i s2)) 0 cpu_setsize in
    let (eq, eq_back) =
      holds_from-all (λ i. differ (cpu_isset i s1) (cpu_isset i s2)) 0 cpu_setsize in
    (
      (
        λ h j set. elim (Bool-cases (ltb j cpu_setsize)) [
          | inl small ↦ let e = sub h j (omega arith) (ground arith) in ground arith
          | inr big ↦ let e = isset_end j s1 (ground arith) in absurd (cc)
        ],
        λ h. sub_back (λ j lo hi. let e = h j in ground arith),
      ),
      refl,
      (
        λ h j. elim (Bool-cases (ltb j cpu_setsize)) [
          | inl small ↦ let e = eq h j (omega arith) (ground arith) in ground arith
          | inr big ↦ isset_end j s1 (ground arith) ∙ sym (isset_end j s2 (ground arith))
        ],
        λ h. eq_back (λ j lo hi. let e = h j in ground arith),
      ),
    )
