-- ===== src/UintTree/Nth/Total.antt =====
-- The free addresses of a node, and of its two halves.
use tanlnode.Base.{
  ℕ, zero, suc, ◌+◌, ◌^◌, ◌≤◌, ◌<◌, ◌≡◌, refl, true, false, arith, inl, inr, Bool-cases,
}
use tanlnode.Base.Bits.{bit-low, bit-high, half_pow}
use tanlnode.UintTree.{Node, nil, node, is_leaf, child}
use tanlnode.UintTree.Spec.{taken, used, IsCounted}
use tanlnode.UintTree.Cover.{taken-nil, taken-node, taken-is_leaf}
use tanlnode.UintTree.Cover.Witness.{taken-place}
use tanlnode.UintTree.Count.{used-nil, used-inner, used-is_leaf}
use tanlnode.UintTree.Nth.{
  count_free, count_free-congr, count_free-add, count_free_none, count_free_all,
}

pub taken-left :
    (k : ℕ) (n : Node) (x : ℕ)
    → is_leaf n ≡ false
    → x < 2 ^ k
    → taken (suc k) n x ≡ taken k (child false n) x
taken-left k n x leaf h = rw (taken-node k n x leaf, bit-low k x h)

pub taken-right :
    (k : ℕ) (n : Node) (x : ℕ)
    → is_leaf n ≡ false
    → x < 2 ^ k
    → taken (suc k) n (2 ^ k + x) ≡ taken k (child true n) x
taken-right k n x leaf h =
    rw (taken-node k n (2 ^ k + x) leaf, bit-high k x h)
      (taken-place true k k (child true n) x (omega arith))

pub count_free-left :
    (k : ℕ) (n : Node) (x : ℕ)
    → is_leaf n ≡ false
    → x ≤ 2 ^ k
    → count_free (taken (suc k) n) x ≡ count_free (taken k (child false n)) x
count_free-left k n x leaf h =
    count_free-congr (taken (suc k) n) (taken k (child false n)) x
      (λ y hy. taken-left k n y leaf (omega arith))

pub count_free-right :
    (k : ℕ) (n : Node) (x : ℕ)
    → is_leaf n ≡ false
    → x ≤ 2 ^ k
    → count_free (taken (suc k) n) (2 ^ k + x)
      ≡ count_free (taken k (child false n)) (2 ^ k) + count_free (taken k (child true n)) x
count_free-right k n x leaf h = rw (
  count_free-add (taken (suc k) n) (2 ^ k) x,
  count_free-left k n (2 ^ k) leaf (omega arith),
  count_free-congr (λ y. taken (suc k) n (2 ^ k + y)) (taken k (child true n)) x
      (λ y hy. taken-right k n y leaf (omega arith)),
)

-- `used` is the number of covered addresses: with the free ones they make up the whole.
pub count_free-total :
    (w level : ℕ) (n : Node)
    → IsCounted w level n
    → count_free (taken level n) (2 ^ level) + used level n ≡ 2 ^ level
count_free-total w level nil v =
    rw (count_free_none (taken level nil) (2 ^ level) (taken-nil level), used-nil level)
      (omega arith)
count_free-total w zero (node l r c) v = unfold count_free taken used in refl
count_free-total w (suc k) (node l r c) v = elim (Bool-cases (is_leaf (node l r c))) [
  | inl e ↦
      rw
        (
          count_free_all (taken (suc k) (node l r c)) (2 ^ suc k)
              (λ y. taken-is_leaf (suc k) (node l r c) y e),
          used-is_leaf (suc k) (node l r c) e,
        )
        (omega arith)
  | inr e ↦
      let s : 2 ^ suc k ≡ 2 ^ k + 2 ^ k = omega (arith, half_pow k) in
      rw (s, count_free-right k (node l r c) (2 ^ k) e (omega arith), used-inner k (node l r c) e)
        (omega (arith, count_free-total w k l v.1, count_free-total w k r v.2))
]
