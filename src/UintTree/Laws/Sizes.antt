-- ===== src/UintTree/Laws/Sizes.antt =====
-- `Size` counts the covered addresses.
use native.Mathlib.Nat.{pow-le-pow_right, mod-eq_of_lt, mod_self}
use native.Mathlib.Decide.{dec_lt}
use tanlnode.Base.{
  ℕ, zero, suc, ◌+◌, ◌^◌, ◌≤◌, ◌<◌, ◌≡◌, refl, sym, ◌∙◌, false, arith, ◌==◌, if◌then◌else◌,
}
use tanlnode.Base.Bits.{pow_pos}
use tanlnode.UintTree.{UintTree, Node, nil, node, is_nil, children_cnt, size}
use tanlnode.UintTree.Spec.{IsValid, IsCounted, covered, used}
use tanlnode.UintTree.Count.{used-leaf, used-nil, used-inner}
use tanlnode.UintTree.Nth.{count_free}
use tanlnode.UintTree.Nth.Total.{count_free-total}
use tanlnode.UintTree.Nth.Pick.{used-le, children_cnt-eq-used}

used_pos : (w level : ℕ) (n : Node) → is_nil n ≡ false → IsCounted w level n → 0 < used level n
used_pos w level nil h v = cc
used_pos w zero (node l r c) h v = unfold used in omega arith
used_pos w (suc k) (node nil nil c) h v = rw (used-leaf (suc k) c) (pow_pos (suc k))
used_pos w (suc k) (node (node a b d) r c) h v =
    omega (arith, used-inner k (node (node a b d) r c) refl, used_pos w k (node a b d) refl v.1)
used_pos w (suc k) (node nil (node a b d) c) h v =
    omega (arith, used-inner k (node nil (node a b d) c) refl, used_pos w k (node a b d) refl v.2)

-- The branches of `Size` at a root.
size_of_root :
    (w level max_uint : ℕ) (n : Node)
    → level ≤ w
    → max_uint + 1 ≡ 2 ^ level
    → IsCounted w level n
    → (if is_nil n then 0 else if children_cnt n == 0 then max_uint + 1 else children_cnt n)
      ≡ used level n
size_of_root w level m nil hl hm v = sym (used-nil level)
size_of_root w level m (node l r c) hl hm v = elim (dec_lt (used level (node l r c)) (2 ^ w)) [
  | yes lt ↦
      let e : c ≡ used level (node l r c) =
        children_cnt-eq-used w level (node l r c) v ∙ mod-eq_of_lt lt in
      let pos : 0 < used level (node l r c) = used_pos w level (node l r c) refl v in ground arith
  | no ge ↦
      let full : used level (node l r c) ≡ 2 ^ w =
        omega (arith, used-le w level (node l r c) v, pow-le-pow_right {n = 2} (omega arith) hl) in
      let wrapped : c ≡ 0 =
        children_cnt-eq-used w level (node l r c) v ∙ (rw (full, mod_self (2 ^ w))) in
      let whole : m + 1 ≡ used level (node l r c) =
        omega (arith, used-le w level (node l r c) v, pow-le-pow_right {n = 2} (omega arith) hl) in
      ground arith
]

-- In a valid tree, `Size` is the number of covered addresses: with the free ones it makes up all
-- addresses of the tree. This holds of the full tree too, whose counter may have wrapped to 0.
pub size-add-free :
    {w : ℕ} {t : UintTree}
    → IsValid w t
    → size t + count_free (covered t) (t.max_uint + 1) ≡ t.max_uint + 1
unfolding size
size-add-free {w} {t} v =
    rw
      (
        size_of_root w t.max_pref_bits t.max_uint t.root (omega (arith, v.level_le)) v.bound
            v.counted,
        v.bound,
      )
      (omega (arith, count_free-total w t.max_pref_bits t.root v.counted))
