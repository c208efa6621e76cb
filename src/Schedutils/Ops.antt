-- ===== src/Schedutils/Ops.antt =====
-- The operations on CPU sets that the Lua module offers (lua/lua-schedutils/lua-schedutils.c), on
-- arguments that are CPU sets. A set that is allocated holds whatever stood in its memory.
use slurm_spank_plugins.Base.{
  ℕ, zero, suc, ◌-◌, ◌==◌, Bool, true, false, not, ◌&&◌, ◌||◌, ltb, if◌then◌else◌, Option, none,
  some, List, [], ◌∷◌,
}
use slurm_spank_plugins.Affinity.Cpus.{CpuSet, cpu_setsize, cpu_set, cpu_isset}

-- CPU_CLR
unfoldable pub cpu_clr : ℕ → CpuSet → CpuSet
cpu_clr i s j = if i == j && ltb i cpu_setsize then false else s j

-- `for (i = 0; i < CPU_SETSIZE; i++)`, from `i` on.
unfoldable pub for_cpus : (ℕ → CpuSet → CpuSet) → ℕ → ℕ → CpuSet → CpuSet
for_cpus body i zero setp = setp
for_cpus body i (suc left) setp = for_cpus body (suc i) left (body i setp)

abbrev pub union_body : CpuSet → ℕ → CpuSet → CpuSet
union_body s i setp = if cpu_isset i s then cpu_set i setp else setp

unfoldable pub cpu_set_union : CpuSet → CpuSet → CpuSet
cpu_set_union setp s = for_cpus (union_body s) 0 cpu_setsize setp

abbrev pub intersect_body : CpuSet → ℕ → CpuSet → CpuSet
intersect_body s i setp = if cpu_isset i setp && not (cpu_isset i s) then cpu_clr i setp else setp

unfoldable pub cpu_set_intersect : CpuSet → CpuSet → CpuSet
cpu_set_intersect setp s = for_cpus (intersect_body s) 0 cpu_setsize setp

abbrev pub add_body : CpuSet → CpuSet → ℕ → CpuSet → CpuSet
add_body s1 s2 i result =
    if cpu_isset i s1 || cpu_isset i s2 then cpu_set i result else cpu_clr i result

unfoldable pub l_cpu_set_add : CpuSet → CpuSet → CpuSet → CpuSet
l_cpu_set_add memory s1 s2 = for_cpus (add_body s1 s2) 0 cpu_setsize memory

abbrev pub subtract_body : CpuSet → CpuSet → ℕ → CpuSet → CpuSet
subtract_body s1 s2 i result =
    if cpu_isset i s1 && not (cpu_isset i s2) then cpu_set i result else cpu_clr i result

unfoldable pub l_cpu_set_subtract : CpuSet → CpuSet → CpuSet → CpuSet
l_cpu_set_subtract memory s1 s2 = for_cpus (subtract_body s1 s2) 0 cpu_setsize memory

-- The arguments behind the first, of `l_cpu_set_union` and `l_cpu_set_intersect`.
unfoldable pub l_cpu_set_union : CpuSet → List CpuSet → CpuSet
l_cpu_set_union setp [] = setp
l_cpu_set_union setp (arg ∷ args) = l_cpu_set_union (cpu_set_union setp arg) args

unfoldable pub l_cpu_set_intersect : CpuSet → List CpuSet → CpuSet
l_cpu_set_intersect setp [] = setp
l_cpu_set_intersect setp (arg ∷ args) = l_cpu_set_intersect (cpu_set_intersect setp arg) args

unfoldable pub l_cpu_set_set : CpuSet → List ℕ → CpuSet
l_cpu_set_set setp [] = setp
l_cpu_set_set setp (cpu ∷ cpus) = l_cpu_set_set (cpu_set cpu setp) cpus

unfoldable pub l_cpu_set_delete : CpuSet → List ℕ → CpuSet
l_cpu_set_delete setp [] = setp
l_cpu_set_delete setp (cpu ∷ cpus) = l_cpu_set_delete (cpu_clr cpu setp) cpus

-- The loop of `l_cpu_set_is_in` and of `l_cpu_set_equals`: it ends at a CPU that tells against it.
unfoldable pub holds_from : (ℕ → Bool) → ℕ → ℕ → Bool
holds_from against i zero = true
holds_from against i (suc left) =
    let rest = holds_from against (suc i) left in if against i then false else rest

unfoldable pub l_cpu_set_is_in : CpuSet → CpuSet → Bool
l_cpu_set_is_in s1 s2 = holds_from (λ i. cpu_isset i s1 && not (cpu_isset i s2)) 0 cpu_setsize

-- The arguments change places.
unfoldable pub l_cpu_set_contains : CpuSet → CpuSet → Bool
l_cpu_set_contains s1 s2 = l_cpu_set_is_in s2 s1

-- `CPU_ISSET (i, s1) != CPU_ISSET (i, s2)`
abbrev pub differ : Bool → Bool → Bool
differ a b = if a then not b else b

unfoldable pub l_cpu_set_equals : CpuSet → CpuSet → Bool
l_cpu_set_equals s1 s2 = holds_from (λ i. differ (cpu_isset i s1) (cpu_isset i s2)) 0 cpu_setsize

-- The next CPU from `bit` on, of `l_cpu_set_first` and of a round of `l_cpu_set_iterator`.
unfoldable pub next_set : CpuSet → ℕ → ℕ → Option ℕ
next_set setp bit zero = none
next_set setp bit (suc left) =
    let rest = next_set setp (suc bit) left in if cpu_isset bit setp then some bit else rest

unfoldable pub l_cpu_set_first : CpuSet → Option ℕ
l_cpu_set_first setp = next_set setp 0 cpu_setsize

-- `for (i = CPU_SETSIZE - 1; i >= 0; --i)`
unfoldable pub last_below : CpuSet → ℕ → Option ℕ
last_below setp zero = none
last_below setp (suc i) = let rest = last_below setp i in if cpu_isset i setp then some i else rest

unfoldable pub l_cpu_set_last : CpuSet → Option ℕ
l_cpu_set_last setp = last_below setp cpu_setsize

-- How a call of Lua's function for a CPU ends: an error, nil or false, or another value. Each CPU is
-- passed once at most, so that the answers of a run are a function of the CPU.
pub data Called (V : Type 0) : Type 0 where
  failed skipped : Called V
  value : V → Called V

-- What is on the stack for a CPU: the function's answer, or the number.
unfoldable pub element : {V : Type 0} → (ℕ → V) → Option (ℕ → Called V) → ℕ → Called V
element number none i = value (number i)
element number (some f) i = f i

-- What is on the stack goes in front of the entries of the CPUs behind, unless it is nil or false.
unfoldable pub push_entry : {V : Type 0} → Called V → Option (List V) → Option (List V)
push_entry failed rest = none
push_entry skipped rest = rest
push_entry (value v) none = none
push_entry (value v) (some l) = some (v ∷ l)

-- The loop of `l_cpu_set_expand` from CPU `i` on: the entries of its table, `none` for the error.
unfoldable pub expand_from :
    {V : Type 0} → (ℕ → V) → Option (ℕ → Called V) → CpuSet → ℕ → ℕ → Option (List V)
expand_from number fn setp i zero = some []
expand_from number fn setp i (suc left) =
    let rest = expand_from number fn setp (suc i) left in
    if cpu_isset i setp then push_entry (element number fn i) rest else rest

unfoldable pub l_cpu_set_expand :
    {V : Type 0} → (ℕ → V) → Option (ℕ → Called V) → CpuSet → Option (List V)
l_cpu_set_expand number fn setp = expand_from number fn setp 0 cpu_setsize

-- The loop of `l_cpu_set_count`, with `n`.
unfoldable pub count_from : CpuSet → ℕ → ℕ → ℕ → ℕ
count_from setp i zero n = n
count_from setp i (suc left) n =
    count_from setp (suc i) left (if cpu_isset i setp then suc n else n)

unfoldable pub l_cpu_set_count : CpuSet → ℕ
l_cpu_set_count setp = count_from setp 0 cpu_setsize 0

-- The calls of `l_cpu_set_iterator`, each of which goes on behind the CPU of the one before, until one
-- returns nothing; there are at most as many as CPUs.
unfoldable pub iterate : ℕ → CpuSet → ℕ → List ℕ
iterate zero setp bit = []
iterate (suc calls) setp bit = elim (next_set setp bit (cpu_setsize - bit)) [
  | none ↦ []
  | some cpu ↦ cpu ∷ iterate calls setp (suc cpu)
]
