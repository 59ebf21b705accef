-- ===== src/UintTree/Undo.antt =====
-- `remove` undoes `insert`, to the counter.
use tanlnode.Base.{
  ℕ, zero, suc, ◌^◌, ◌≤◌, ◌<◌, ◌≡◌, refl, ap, Bool, true, false, some, List, [], ◌∷◌, arith,
}
use tanlnode.UintTree.{
  Node, nil, node, is_nil, is_leaf, child, step, attach, children_cnt, add_cnt, sub_cnt, drop_leaf,
}
use tanlnode.UintTree.Spec.{IsCounted, length}
use tanlnode.UintTree.Trie.{insert, remove}
use tanlnode.UintTree.Cover.{IsCounted-child, child-attach}
use tanlnode.UintTree.Cover.Insert.{insert-eq-some, insert-nil-eq-some, child-add_cnt}
use tanlnode.UintTree.Count.{mod-cancel, children_cnt-lt}

module _ (w diff : ℕ) where
  restored :
      (b : Bool) (n c : Node)
      → is_leaf n ≡ false
      → children_cnt n < 2 ^ w
      → diff < 2 ^ w
      → drop_leaf
          (sub_cnt w diff (attach (step b (add_cnt w diff (attach (step b n) c))) (child b n)))
        ≡ n
  restored true nil c leaf hc hd = refl
  restored false nil c leaf hc hd = refl
  restored true (node l r d) c leaf hc hd = rw (leaf, mod-cancel d diff (2 ^ w) hc hd)
  restored false (node l r d) c leaf hc hd = rw (leaf, mod-cancel d diff (2 ^ w) hc hd)

  add_cnt-attach-ne-nil :
      (b : Bool) (n c : Node) → is_nil (add_cnt w diff (attach (step b n) c)) ≡ false
  add_cnt-attach-ne-nil true nil c = refl
  add_cnt-attach-ne-nil false nil c = refl
  add_cnt-attach-ne-nil true (node l r d) c = refl
  add_cnt-attach-ne-nil false (node l r d) c = refl

  pub remove-insert :
      (level : ℕ) (n : Node) (bs : List Bool) {n' : Node}
      → length bs ≤ level
      → diff < 2 ^ w
      → IsCounted w level n
      → insert w diff n bs ≡ some n'
      → remove w diff n' bs ≡ some n
  unfolding remove
  remove-insert level n [] hl hd v h = let (e, e') = insert-nil-eq-some w diff n h in rw (e', e)
  remove-insert zero n (b ∷ bs) hl hd v h = elim hl [ ]
  remove-insert (suc k) n (b ∷ bs) hl hd v h =
      let (c, ec, leaf, e) = insert-eq-some w diff n b bs h in
      let ih = remove-insert k (child b n) bs (omega arith) hd (IsCounted-child w k b n v) ec in
      rw
        (
          e,
          add_cnt-attach-ne-nil b n c,
          child-add_cnt w diff b (attach (step b n) c),
          child-attach b n c,
          ih,
        )
        (ap some (restored b n c leaf (children_cnt-lt w (suc k) n v) hd))
