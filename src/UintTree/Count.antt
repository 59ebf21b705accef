-- ===== src/UintTree/Count.antt =====
-- The number of covered addresses of a node, and of the node above it.
pub mod Insert
pub mod Remove
use tanlnode.Base.{
  ℕ, zero, suc, ◌+◌, ◌-◌, ◌%◌, ◌^◌, ◌≤◌, ◌<◌, ◌≡◌, refl, Bool, true, false, arith, if◌then◌else◌,
}
use tanlnode.UintTree.{Node, nil, node, is_nil, is_leaf, child, step, attach, children_cnt}
use tanlnode.UintTree.Spec.{used, IsCounted}
use native.Mathlib.Nat.{mod-lt, add-mod, mod-eq_of_lt}
use native.Mathlib.Decide.{dec_lt}
use tanlnode.Base.Bits.{pow_pos}

pub used-leaf : (level c : ℕ) → used level (node nil nil c) ≡ 2 ^ level
unfolding used
used-leaf zero c = refl
used-leaf (suc k) c = refl

pub used-is_leaf : (level : ℕ) (n : Node) → is_leaf n ≡ true → used level n ≡ 2 ^ level
used-is_leaf level nil h = cc
used-is_leaf level (node nil nil c) h = used-leaf level c
used-is_leaf level (node nil (node l r d) c) h = cc
used-is_leaf level (node (node l r d) m c) h = cc

pub used-nil : (level : ℕ) → used level nil ≡ 0
unfolding used
used-nil level = refl

pub used-inner :
    (k : ℕ) (n : Node)
    → is_leaf n ≡ false
    → used (suc k) n ≡ used k (child false n) + used k (child true n)
unfolding used
used-inner k nil h = omega arith
used-inner k (node l r c) h = rw h

pub used-attach :
    (k : ℕ) (b : Bool) (n c : Node)
    → let m = attach (step b n) c in
      used k (child false m) + used k (child true m) + used k (child b n)
      ≡ used k c + used k (child false n) + used k (child true n)
used-attach k true nil c = omega arith
used-attach k false nil c = omega arith
used-attach k true (node l r d) c = omega arith
used-attach k false (node l r d) c = omega arith

pub mod-cancel : (x y m : ℕ) → x < m → y < m → ((x + y) % m + m - y) % m ≡ x
mod-cancel x y m hx hy = elim (dec_lt (x + y) m) [
  | yes p ↦ rw (mod-eq_of_lt p) (grind arith)
  | no p ↦ grind arith
]

pub mod-sub : (a b m : ℕ) → 0 < m → ((a + b) % m + m - b % m) % m ≡ a % m
mod-sub a b m h = rw (add-mod a b m) (mod-cancel (a % m) (b % m) m (mod-lt a h) (mod-lt b h))

module _ (w : ℕ) where
  pub children_cnt-inner :
      (k : ℕ) (n : Node)
      → is_leaf n ≡ false
      → IsCounted w (suc k) n
      → children_cnt n ≡ used (suc k) n % 2 ^ w
  children_cnt-inner k nil h v = rw (used-nil (suc k)) (grind (arith, pow_pos w))
  children_cnt-inner k (node l r c) h v = v.0

  pub children_cnt-attach :
      (b : Bool) (n c : Node) → children_cnt (attach (step b n) c) ≡ children_cnt n
  children_cnt-attach true nil c = refl
  children_cnt-attach false nil c = refl
  children_cnt-attach true (node l r d) c = refl
  children_cnt-attach false (node l r d) c = refl

  pub IsCounted-attach :
      (k : ℕ) (a b : Bool) (n c : Node)
      → IsCounted w (suc k) n
      → IsCounted w k c
      → IsCounted w k (child a (attach (step b n) c))
  IsCounted-attach k true true nil c v u = u
  IsCounted-attach k false true nil c v u = tt
  IsCounted-attach k true false nil c v u = tt
  IsCounted-attach k false false nil c v u = u
  IsCounted-attach k true true (node l r d) c v u = u
  IsCounted-attach k false true (node l r d) c v u = v.1
  IsCounted-attach k true false (node l r d) c v u = v.2
  IsCounted-attach k false false (node l r d) c v u = u

  -- A node with counted children and the right counter.
  pub IsCounted-inner :
      (k : ℕ) (l r : Node) (c : ℕ)
      → is_leaf (node l r c) ≡ false
      → c ≡ (used k l + used k r) % 2 ^ w
      → IsCounted w k l
      → IsCounted w k r
      → IsCounted w (suc k) (node l r c)
  IsCounted-inner k l r c h e vl vr = (rw (used-inner k (node l r c) h) e, vl, vr)

  pub children_cnt-lt : (level : ℕ) (n : Node) → IsCounted w level n → children_cnt n < 2 ^ w
  children_cnt-lt level nil v = pow_pos w
  children_cnt-lt zero (node l r c) v = rw v.2 (mod-lt 1 (pow_pos w))
  children_cnt-lt (suc k) (node l r c) v = rw v.0 (mod-lt (used (suc k) (node l r c)) (pow_pos w))
