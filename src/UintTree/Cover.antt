-- ===== src/UintTree/Cover.antt =====
-- What is covered at a node, by the node above it.
pub mod Insert
pub mod Witness
pub mod Remove
pub mod Range
use tanlnode.Base.{
  ℕ, zero, suc, ◌+◌, ◌-◌, ◌%◌, ◌^◌, ◌≤◌, ◌<◌, ◌≡◌, ◌⊎◌, refl, sym, ◌∙◌, Bool, true, false, not,
  ◌&&◌, ◌||◌, Option, none, some, List, [], ◌∷◌, arith, inl, inr, if◌then◌else◌, Bool-cases,
  Option-cases,
}
use mathlib.Core.Option
use tanlnode.Base.Bits.{bit, bit-low, bit-high, bit-add, half_pow, pow_pos}
use tanlnode.UintTree.{
  Node, nil, node, is_nil, is_leaf, child, step, attach, add_cnt, sub_cnt, drop_leaf,
}
use tanlnode.UintTree.Spec.{taken, in_net, same, assigned, used, IsCounted, length}
use tanlnode.UintTree.Trie.{insert, remove}

pub taken-nil : (level x : ℕ) → taken level nil x ≡ false
unfolding taken
taken-nil zero x = refl
taken-nil (suc k) x = taken-nil k x

pub taken-leaf : (level c x : ℕ) → taken level (node nil nil c) x ≡ true
unfolding taken
taken-leaf zero c x = refl
taken-leaf (suc k) c x = refl

-- A node is taken apart by cases on nil.
Node-cases : (n : Node) → (n ≡ nil) ⊎ ((l : Node) × (r : Node) × (c : ℕ) × (n ≡ node l r c))
Node-cases nil = inl refl
Node-cases (node l r c) = inr (l, r, c, refl)

pub child-attach : (b : Bool) (n m : Node) → child b (attach (step b n) m) ≡ m
child-attach true nil m = refl
child-attach true (node l r c) m = refl
child-attach false nil m = refl
child-attach false (node l r c) m = refl

pub child-attach_ne :
    (a b : Bool) (n m : Node) → same a b ≡ false → child a (attach (step b n) m) ≡ child a n
child-attach_ne a b nil m h = ground arith
child-attach_ne a b (node l r c) m h = ground arith

pub is_leaf-attach :
    (b : Bool) (n m : Node) → is_nil m ≡ false → is_leaf (attach (step b n) m) ≡ false
is_leaf-attach b nil m h = ground arith
is_leaf-attach b (node l r c) m h = ground arith

pub same-eq : (a b : Bool) → same a b ≡ true → a ≡ b
same-eq a b h = ground arith

pub taken-is_leaf : (level : ℕ) (n : Node) (x : ℕ) → is_leaf n ≡ true → taken level n x ≡ true
unfolding taken
taken-is_leaf zero nil x h = cc
taken-is_leaf zero (node l r c) x h = refl
taken-is_leaf (suc k) n x h = rw h

pub in_net-nil :
    (level x : ℕ) → (true ≡ false || in_net level [] x) × (in_net level [] x && false ≡ false)
unfolding in_net
in_net-nil level x = (refl, refl)

pub taken-node :
    (k : ℕ) (n : Node) (x : ℕ)
    → is_leaf n ≡ false
    → taken (suc k) n x ≡ taken k (child (bit k x) n) x
unfolding taken
taken-node k n x h = rw h

pub same_self : (b : Bool) → same b b ≡ true
same_self b = ground arith

-- One level up from a child that grew by the addresses of `bs`.
pub taken-attach :
    (k : ℕ) (b : Bool) (n c : Node) (bs : List Bool) (x : ℕ)
    → (taken k c x ≡ taken k (child b n) x || in_net k bs x)
      × (in_net k bs x && taken k (child b n) x ≡ false)
    → (taken k (child (bit k x) (attach (step b n) c)) x
        ≡ taken k (child (bit k x) n) x || in_net (suc k) (b ∷ bs) x)
      × (in_net (suc k) (b ∷ bs) x && taken k (child (bit k x) n) x ≡ false)
unfolding in_net
taken-attach k b n c bs x ih = elim (Bool-cases (same (bit k x) b)) [
  | inl e ↦ rw (same-eq (bit k x) b e, child-attach b n c, same_self b) ih
  | inr e ↦ rw (e, child-attach_ne (bit k x) b n c e) (ground arith)
]

pub IsCounted-child :
    (w k : ℕ) (b : Bool) (n : Node) → IsCounted w (suc k) n → IsCounted w k (child b n)
IsCounted-child w k b nil v = tt
IsCounted-child w k true (node l r c) v = v.2
IsCounted-child w k false (node l r c) v = v.1
