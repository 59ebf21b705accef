-- ===== src/UintTree/Count/Insert.antt =====
-- The counters after `insert`.
use tanlnode.Base.{
  ℕ, zero, suc, ◌+◌, ◌%◌, ◌^◌, ◌≤◌, ◌≡◌, refl, sym, ap, Bool, true, false, some, List, [], ◌∷◌,
  arith,
}
use native.Mathlib.Nat.{add-mod, mod-mod, zero-add}
use tanlnode.UintTree.{Node, nil, node, is_leaf, child, step, attach, children_cnt, add_cnt}
use tanlnode.UintTree.Spec.{used, IsCounted, length, net_size}
use tanlnode.UintTree.Trie.{insert}
use tanlnode.UintTree.Cover.{is_leaf-attach, IsCounted-child}
use tanlnode.UintTree.Cover.Insert.{insert-eq-some, insert-nil-eq-some, insert-ne-nil}
use tanlnode.UintTree.Count.{
  used-leaf, used-nil, used-inner, used-attach, children_cnt-inner, children_cnt-attach,
  IsCounted-attach, IsCounted-inner,
}

module _ (w diff : ℕ) where
  used-add_cnt : (level : ℕ) (n : Node) → used level (add_cnt w diff n) ≡ used level n
  unfolding used
  used-add_cnt level nil = refl
  used-add_cnt zero (node l r c) = refl
  used-add_cnt (suc k) (node l r c) = refl

  -- `insert` adds the size of the subnet to the number of covered addresses.
  pub used-insert :
      (level : ℕ) (n : Node) (bs : List Bool) {n' : Node}
      → length bs ≤ level
      → insert w diff n bs ≡ some n'
      → used level n' ≡ used level n + net_size level bs
  used-insert level n [] hl h =
      let (e, e') = insert-nil-eq-some w diff n h in
      rw (e, e', used-leaf level ((0 + diff) % 2 ^ w), used-nil level) (omega arith)
  used-insert zero n (b ∷ bs) hl h = elim hl [ ]
  used-insert (suc k) n (b ∷ bs) hl h =
      let (c, ec, leaf, e) = insert-eq-some w diff n b bs h in
      let m = attach (step b n) c in
      rw
        (
          e,
          used-add_cnt (suc k) m,
          used-inner k m (is_leaf-attach b n c (insert-ne-nil w diff (child b n) bs ec)),
          used-inner k n leaf,
        )
        (omega (arith, used-attach k b n c, used-insert k (child b n) bs (omega arith) ec))

  IsCounted-add_cnt :
      (k : ℕ) (m : Node)
      → is_leaf m ≡ false
      → (children_cnt m + diff) % 2 ^ w ≡ (used k (child false m) + used k (child true m)) % 2 ^ w
      → IsCounted w k (child false m)
      → IsCounted w k (child true m)
      → IsCounted w (suc k) (add_cnt w diff m)
  IsCounted-add_cnt k nil h e vl vr = tt
  IsCounted-add_cnt k (node l r c) h e vl vr = IsCounted-inner w k l r _ h e vl vr

-- A counter that holds a number modulo the word size, and grows by another so.
grown : (u d m : ℕ) → (u % m + d % m) % m ≡ (u + d) % m
grown u d m = sym (add-mod u d m)

fresh : (x m : ℕ) → (0 + x % m) % m ≡ x % m
fresh x m = rw zero-add (mod-mod x m)

module _ (w : ℕ) where
  new_leaf : (level : ℕ) → IsCounted w level (node nil nil ((0 + 2 ^ level % 2 ^ w) % 2 ^ w))
  new_leaf zero = (refl, refl, fresh 1 (2 ^ w))
  new_leaf (suc k) =
      (rw (used-leaf (suc k) ((0 + 2 ^ suc k % 2 ^ w) % 2 ^ w)) (fresh (2 ^ suc k) (2 ^ w)), tt, tt)

  -- `insert` keeps every counter right, when it is given the size of the subnet in a word.
  pub insert-IsCounted :
      (level : ℕ) (n : Node) (bs : List Bool) (size : ℕ) {n' : Node}
      → length bs ≤ level
      → size ≡ net_size level bs
      → IsCounted w level n
      → insert w (size % 2 ^ w) n bs ≡ some n'
      → IsCounted w level n'
  insert-IsCounted level n [] size hl hs v h =
      let (e, e') = insert-nil-eq-some w (size % 2 ^ w) n h in rw (e', hs) (new_leaf level)
  insert-IsCounted zero n (b ∷ bs) size hl hs v h = elim hl [ ]
  insert-IsCounted (suc k) n (b ∷ bs) size hl hs v h =
      let diff = size % 2 ^ w in
      let (c, ec, leaf, e) = insert-eq-some w diff n b bs h in
      let m = attach (step b n) c in
      let u =
        insert-IsCounted k (child b n) bs size (omega arith) hs (IsCounted-child w k b n v) ec in
      rw e (
        IsCounted-add_cnt w diff k m (is_leaf-attach b n c (insert-ne-nil w diff (child b n) bs ec))
          (rw
            (
              children_cnt-attach w b n c,
              children_cnt-inner w k n leaf v,
              grown (used (suc k) n) size (2 ^ w),
            )
            (ap (λ (t : ℕ). t % 2 ^ w)
              (omega (
                arith,
                hs,
                used-inner k n leaf,
                used-attach k b n c,
                used-insert w diff k (child b n) bs (omega arith) ec,
              ))))
          (IsCounted-attach w k false b n c v u) (IsCounted-attach w k true b n c v u))
