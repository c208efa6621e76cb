-- ===== src/Cpuset/Nodemap/Order.antt =====
-- Sorting the nodes: the comparison functions order, and the invariants do not depend on the order of
-- the list.
use mathlib.Core.List.{Permᴰ}
use mathlib.Core.Path.{subst, subst₂}
use slurm_spank_plugins.Base.{◌≤◌, ◌≡◌, List, [], ◌∷◌, arith, All, pos, ◌≤ℤ◌, ◌∙◌, length}
use slurm_spank_plugins.Cpuset.Bitmask.{BitmaskLib}
use slurm_spank_plugins.Cpuset.Nodemap.State.{Node}
use slurm_spank_plugins.Cpuset.Nodemap.Sort.{IsOrder}
use slurm_spank_plugins.Cpuset.Nodemap.Node.{node_cmp_avail}
use slurm_spank_plugins.Cpuset.Nodemap.Invariant.{Apart, AllApart, total_navail}

module _ {B : Type 0} where
  -- A node is not above another by `node_cmp_avail` if it has as many CPUs available.
  pub node_cmp_avail_le : (n k : Node B) → node_cmp_avail n k ≤ℤ pos 0 → k.navail ≤ n.navail
  unfolding node_cmp_avail
  node_cmp_avail_le n k h = ground arith

  pub node_cmp_avail-IsOrder : IsOrder {A = Node B} node_cmp_avail
  unfolding node_cmp_avail
  node_cmp_avail-IsOrder = record { total = λ a b. ground arith; trans = λ a b c h k. ground arith }

  pub total_navail-perm : {ns ks : List (Node B)} → Permᴰ ns ks → total_navail ns ≡ total_navail ks
  total_navail-perm Permᴰ.nil = omega arith
  total_navail-perm (Permᴰ.cons e p) = ground (arith, e, total_navail-perm p)
  total_navail-perm (Permᴰ.swap e f) = ground (arith, e, f)
  total_navail-perm (Permᴰ.trans p q) = total_navail-perm p ∙ total_navail-perm q

  -- The head of a list that is sorted by `node_cmp_avail` has a free CPU if any node has.
  pub total_navail_sorted :
      (n : Node B) (ns : List (Node B))
      → All (λ k. node_cmp_avail n k ≤ℤ pos 0) ns
      → n.navail ≡ 0
      → total_navail ns ≡ 0
  total_navail_sorted n [] h e = omega arith
  total_navail_sorted n (k ∷ ks) h e =
      omega (arith, node_cmp_avail_le n k h.0, total_navail_sorted n ks h.1 e)

pub length-perm : {A : Type 0} {xs ys : List A} → Permᴰ xs ys → length xs ≡ length ys
length-perm Permᴰ.nil = omega arith
length-perm (Permᴰ.cons e p) = omega (arith, length-perm p)
length-perm (Permᴰ.swap e f) = omega arith
length-perm (Permᴰ.trans p q) = length-perm p ∙ length-perm q

pub All-perm {ℓ} :
    {A : Type 0} (P : A → Type ℓ) {xs ys : List A} → Permᴰ xs ys → All P xs → All P ys
All-perm P Permᴰ.nil h = h
All-perm P (Permᴰ.cons e p) h = (rw e at (h.0), All-perm P p h.1)
All-perm P (Permᴰ.swap e f) h = (rw f at (h.1.0), (rw e at (h.0), h.1.1))
All-perm P (Permᴰ.trans p q) h = All-perm P q (All-perm P p h)

module _ {B : Type 0} (lib : BitmaskLib B) where
  pub Apart-symm : (n k : Node B) → Apart lib n k → Apart lib k n
  Apart-symm n k h = ground (arith, h)

  pub AllApart-perm : {ns ks : List (Node B)} → Permᴰ ns ks → AllApart lib ns → AllApart lib ks
  AllApart-perm Permᴰ.nil h = h
  AllApart-perm (Permᴰ.cons {a} {b} {l₂ = ks} e p) h =
      (subst (λ n. All (Apart lib n) ks) e (All-perm (Apart lib a) p h.0), AllApart-perm p h.1)
  AllApart-perm (Permᴰ.swap {a} {b} {l} e f) h =
      subst₂ (λ x y. AllApart lib (x ∷ y ∷ l)) f e ((Apart-symm a b h.0.0, h.1.0), (h.0.1, h.1.1))
  AllApart-perm (Permᴰ.trans p q) h = AllApart-perm q (AllApart-perm p h)
