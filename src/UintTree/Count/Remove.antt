-- ===== src/UintTree/Count/Remove.antt =====
-- The counters after `remove`.
use tanlnode.Base.{
  ℕ, zero, suc, ◌+◌, ◌-◌, ◌%◌, ◌^◌, ◌≤◌, ◌≡◌, Bool, true, false, some, List, [], ◌∷◌, arith, inl,
  inr, Bool-cases,
}
use tanlnode.Base.Bits.{pow_pos}
use tanlnode.UintTree.{
  Node, nil, node, is_leaf, child, step, attach, children_cnt, sub_cnt, drop_leaf,
}
use tanlnode.UintTree.Spec.{used, IsCounted, length, net_size}
use tanlnode.UintTree.Trie.{remove}
use tanlnode.UintTree.Cover.{IsCounted-child}
use tanlnode.UintTree.Cover.Remove.{
  remove-eq-some, remove-nil-eq-some, remove-not_leaf, leaf-child, dropped,
}
use tanlnode.UintTree.Count.{
  used-is_leaf, used-nil, used-inner, used-attach, children_cnt-inner, children_cnt-attach,
  IsCounted-attach, IsCounted-inner, mod-sub,
}

module _ (w diff : ℕ) where
  -- What is left of a node after the counter is lowered covers what its children cover.
  used-dropped :
      (k : ℕ) (m : Node)
      → used (suc k) (drop_leaf (sub_cnt w diff m)) ≡ used k (child false m) + used k (child true m)
  used-dropped k nil = rw (used-nil (suc k), used-nil k) (omega arith)
  used-dropped k (node l r c) = elim (Bool-cases (is_leaf (node l r c))) [
    | inl e ↦
        rw
          (
            e,
            leaf-child false (node l r c) e,
            leaf-child true (node l r c) e,
            used-nil (suc k),
            used-nil k,
          )
          (omega arith)
    | inr e ↦ rw e (used-inner k _ e)
  ]

  -- `remove` takes the size of the subnet off the number of covered addresses.
  pub used-remove :
      (level : ℕ) (n : Node) (bs : List Bool) {n' : Node}
      → length bs ≤ level
      → remove w diff n bs ≡ some n'
      → used level n' + net_size level bs ≡ used level n
  used-remove level n [] hl h =
      let (e, e') = remove-nil-eq-some w diff n h in
      rw (e', dropped w diff n e, used-nil level, used-is_leaf level n e) (omega arith)
  used-remove zero n (b ∷ bs) hl h = elim hl [ ]
  used-remove (suc k) n (b ∷ bs) hl h =
      let (c, ec, _, e) = remove-eq-some w diff n b bs h in
      let m = attach (step b n) c in
      rw (e, used-dropped k m, used-inner k n (remove-not_leaf w diff n b bs ec))
        (omega (arith, used-attach k b n c, used-remove k (child b n) bs (omega arith) ec))

  IsCounted-dropped :
      (k : ℕ) (m : Node)
      → (children_cnt m + 2 ^ w - diff) % 2 ^ w
        ≡ (used k (child false m) + used k (child true m)) % 2 ^ w
      → IsCounted w k (child false m)
      → IsCounted w k (child true m)
      → IsCounted w (suc k) (drop_leaf (sub_cnt w diff m))
  IsCounted-dropped k nil e vl vr = tt
  IsCounted-dropped k (node l r c) e vl vr = elim (Bool-cases (is_leaf (node l r c))) [
    | inl leaf ↦ rw leaf tt
    | inr inner ↦ rw inner (IsCounted-inner w k l r _ inner e vl vr)
  ]

module _ (w : ℕ) where
  -- `remove` keeps every counter right, when it is given the size of the subnet in a word.
  pub remove-IsCounted :
      (level : ℕ) (n : Node) (bs : List Bool) (size : ℕ) {n' : Node}
      → length bs ≤ level
      → size ≡ net_size level bs
      → IsCounted w level n
      → remove w (size % 2 ^ w) n bs ≡ some n'
      → IsCounted w level n'
  remove-IsCounted level n [] size hl hs v h =
      let (e, e') = remove-nil-eq-some w (size % 2 ^ w) n h in
      rw (e', dropped w (size % 2 ^ w) n e) tt
  remove-IsCounted zero n (b ∷ bs) size hl hs v h = elim hl [ ]
  remove-IsCounted (suc k) n (b ∷ bs) size hl hs v h =
      let diff = size % 2 ^ w in
      let (c, ec, _, e) = remove-eq-some w diff n b bs h in
      let m = attach (step b n) c in
      let inner = remove-not_leaf w diff n b bs ec in
      let u =
        remove-IsCounted k (child b n) bs size (omega arith) hs (IsCounted-child w k b n v) ec in
      let total : used (suc k) n ≡ used k (child false m) + used k (child true m) + size = omega (
        arith,
        hs,
        used-inner k n inner,
        used-attach k b n c,
        used-remove w diff k (child b n) bs (omega arith) ec,
      ) in
      rw e (
        IsCounted-dropped w diff k m
          (rw (children_cnt-attach w b n c, children_cnt-inner w k n inner v, total)
            (mod-sub _ size (2 ^ w) (pow_pos w)))
          (IsCounted-attach w k false b n c v u) (IsCounted-attach w k true b n c v u))
