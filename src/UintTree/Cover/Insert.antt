-- ===== src/UintTree/Cover/Insert.antt =====
-- The covered addresses after `insert`.
use tanlnode.Base.{
  ℕ, zero, suc, ◌+◌, ◌%◌, ◌^◌, ◌≤◌, ◌≡◌, refl, ◌∙◌, Bool, true, false, ◌&&◌, ◌||◌, some, List, [],
  ◌∷◌, arith, inl, inr, Option-cases,
}
use tanlnode.Base.Bits.{bit}
use tanlnode.UintTree.{Node, nil, node, is_nil, is_leaf, child, step, attach, add_cnt}
use tanlnode.UintTree.Spec.{taken, in_net, length}
use tanlnode.UintTree.Trie.{insert}
use tanlnode.UintTree.Cover.{
  taken-nil, taken-leaf, in_net-nil, taken-node, taken-attach, is_leaf-attach,
}

module _ (w diff : ℕ) where
  is_leaf-add_cnt : (n : Node) → is_leaf (add_cnt w diff n) ≡ is_leaf n
  is_leaf-add_cnt nil = refl
  is_leaf-add_cnt (node l r c) = refl

  pub child-add_cnt : (b : Bool) (n : Node) → child b (add_cnt w diff n) ≡ child b n
  child-add_cnt b nil = refl
  child-add_cnt true (node l r c) = refl
  child-add_cnt false (node l r c) = refl

  is_leaf-grown :
      (b : Bool) (n m : Node)
      → is_nil m ≡ false
      → is_leaf (add_cnt w diff (attach (step b n) m)) ≡ false
  is_leaf-grown b n m h = is_leaf-add_cnt (attach (step b n) m) ∙ is_leaf-attach b n m h

  pub insert-eq-some :
      (n : Node) (b : Bool) (bs : List Bool) {n' : Node}
      → insert w diff n (b ∷ bs) ≡ some n'
      → (c : Node) × (insert w diff (child b n) bs ≡ some c)
        × (is_leaf n ≡ false)
        × (n' ≡ add_cnt w diff (attach (step b n) c))
  unfolding insert
  insert-eq-some n b bs h = elim (Option-cases (insert w diff (child b n) bs)) [
    | inl e ↦ ground arith
    | inr (c, e) ↦ (c, e, ground arith, ground arith)
  ]

  pub insert-nil-eq-some :
      (n : Node) {n' : Node}
      → insert w diff n [] ≡ some n'
      → (n ≡ nil) × (n' ≡ node nil nil ((0 + diff) % 2 ^ w))
  unfolding insert
  insert-nil-eq-some n h = ground arith

  pub insert-ne-nil :
      (n : Node) (bs : List Bool) {n' : Node} → insert w diff n bs ≡ some n' → is_nil n' ≡ false
  insert-ne-nil n [] h = let (_, e) = insert-nil-eq-some n h in rw e
  insert-ne-nil n (b ∷ bs) h = let (c, _, _, e) = insert-eq-some n b bs h in rw e (ground arith)

  -- The covered addresses of the new tree are the old ones and those of the subnet, none of which
  -- was covered.
  pub taken-insert :
      (level : ℕ) (n : Node) (bs : List Bool) {n' : Node}
      → length bs ≤ level
      → insert w diff n bs ≡ some n'
      → (x : ℕ)
      → (taken level n' x ≡ taken level n x || in_net level bs x)
        × (in_net level bs x && taken level n x ≡ false)
  taken-insert level n [] hl h x =
      let (e, e') = insert-nil-eq-some n h in
      rw (e, e', taken-nil level x, taken-leaf level ((0 + diff) % 2 ^ w) x) (in_net-nil level x)
  taken-insert zero n (b ∷ bs) hl h x = elim hl [ ]
  taken-insert (suc k) n (b ∷ bs) {n'} hl h x =
      let (c, ec, leaf, e) = insert-eq-some n b bs h in
      let ih = taken-insert k (child b n) bs (omega arith) ec x in
      rw
        (
          e,
          taken-node k _ x (is_leaf-grown b n c (insert-ne-nil (child b n) bs ec)),
          taken-node k n x leaf,
          child-add_cnt (bit k x) (attach (step b n) c),
        )
        (taken-attach k b n c bs x ih)
