-- ===== src/UintTree/Commute.antt =====
-- Removing a subnet after another one was put leaves the other as if it had been put alone.
use tanlnode.Base.{
  ℕ, zero, suc, ◌+◌, ◌-◌, ◌%◌, ◌^◌, ◌≤◌, ◌<◌, ◌≡◌, refl, sym, ap, ◌∙◌, Bool, true, false, some,
  List, [], ◌∷◌, arith, inl, inr, Bool-cases,
}
use tanlnode.UintTree.{
  Node, nil, node, is_nil, is_leaf, child, step, attach, add_cnt, sub_cnt, drop_leaf,
}
use tanlnode.UintTree.Spec.{IsCounted, length, same}
use tanlnode.UintTree.Trie.{insert, remove}
use tanlnode.UintTree.Cover.{same-eq, child-attach_ne, IsCounted-child, child-attach}
use tanlnode.UintTree.Cover.Insert.{
  insert-ne-nil, insert-eq-some, insert-nil-eq-some, child-add_cnt,
}
use tanlnode.UintTree.Count.{mod-cancel}
use native.Mathlib.Nat.{mod-lt, mod-add-mod}
use tanlnode.Base.Bits.{pow_pos}
use tanlnode.UintTree.Undo.{remove-insert}

module _ (w d1 d2 : ℕ) (hd : d1 < 2 ^ w) where
  swap : (d : ℕ) → ((d + d1) % 2 ^ w + d2) % 2 ^ w ≡ ((d + d2) % 2 ^ w + d1) % 2 ^ w
  swap d =
      rw (mod-add-mod (d + d1) (2 ^ w) d2, mod-add-mod (d + d2) (2 ^ w) d1)
        (ap (λ (x : ℕ). x % 2 ^ w) (omega arith))

  back : (d : ℕ) → (((d + d1) % 2 ^ w + d2) % 2 ^ w + 2 ^ w - d1) % 2 ^ w ≡ (d + d2) % 2 ^ w
  back d =
      rw (swap d, mod-cancel ((d + d2) % 2 ^ w) d1 (2 ^ w) (mod-lt (d + d2) (pow_pos w)) hd) refl

  -- Two subnets on the same side.
  kept_same :
      (b : Bool) (n c1 c2 c3 : Node)
      → is_nil c3 ≡ false
      → drop_leaf (
          sub_cnt w d1 (
            attach
              (step b (add_cnt w d2 (attach (step b (add_cnt w d1 (attach (step b n) c1))) c2)))
              c3))
        ≡ add_cnt w d2 (attach (step b n) c3)
  kept_same true nil c1 c2 c3 g = rw (g, back 0) refl
  kept_same false nil c1 c2 c3 g = rw (g, back 0) refl
  kept_same true (node l r c) c1 c2 c3 g = rw (g, back c) (ground arith)
  kept_same false (node l r c) c1 c2 c3 g = rw (g, back c) refl

  -- Two subnets on two sides.
  kept_other :
      (a b : Bool) (n c1 c2 : Node)
      → same b a ≡ false
      → is_nil c2 ≡ false
      → drop_leaf (
          sub_cnt w d1 (
            attach
              (step a (add_cnt w d2 (attach (step b (add_cnt w d1 (attach (step a n) c1))) c2)))
              (child a n)))
        ≡ add_cnt w d2 (attach (step b n) c2)
  kept_other true true n c1 c2 h g = cc
  kept_other false false n c1 c2 h g = cc
  kept_other true false nil c1 c2 h g = rw (g, back 0) refl
  kept_other false true nil c1 c2 h g = rw (g, back 0) refl
  kept_other true false (node l r c) c1 c2 h g = rw (g, back c) refl
  kept_other false true (node l r c) c1 c2 h g = rw (g, back c) (ground arith)

  -- The order of the two does not matter.
  order_same :
      (b : Bool) (n c1 c2 c3 : Node)
      → add_cnt w d1 (attach (step b (add_cnt w d2 (attach (step b n) c3))) c2)
        ≡ add_cnt w d2 (attach (step b (add_cnt w d1 (attach (step b n) c1))) c2)
  order_same true nil c1 c2 c3 = rw (swap 0) refl
  order_same false nil c1 c2 c3 = rw (swap 0) refl
  order_same true (node l r c) c1 c2 c3 = rw (swap c) refl
  order_same false (node l r c) c1 c2 c3 = rw (swap c) refl

  order_other :
      (a b : Bool) (n c1 c2 : Node)
      → same b a ≡ false
      → add_cnt w d1 (attach (step a (add_cnt w d2 (attach (step b n) c2))) c1)
        ≡ add_cnt w d2 (attach (step b (add_cnt w d1 (attach (step a n) c1))) c2)
  order_other true true n c1 c2 h = cc
  order_other false false n c1 c2 h = cc
  order_other true false nil c1 c2 h = rw (swap 0) refl
  order_other false true nil c1 c2 h = rw (swap 0) refl
  order_other true false (node l r c) c1 c2 h = rw (swap c) refl
  order_other false true (node l r c) c1 c2 h = rw (swap c) refl

  grown_not_leaf :
      (d : ℕ) (b : Bool) (n c : Node)
      → is_nil c ≡ false
      → is_leaf (add_cnt w d (attach (step b n) c)) ≡ false
  grown_not_leaf d true nil c h = rw h refl
  grown_not_leaf d false nil c h = rw h refl
  grown_not_leaf d true (node l r k) c h = rw h (ground arith)
  grown_not_leaf d false (node l r k) c h = rw h refl

  grown_ne_nil :
      (d : ℕ) (b : Bool) (n c : Node) → is_nil (add_cnt w d (attach (step b n) c)) ≡ false
  grown_ne_nil d true nil c = refl
  grown_ne_nil d false nil c = refl
  grown_ne_nil d true (node l r k) c = refl
  grown_ne_nil d false (node l r k) c = refl

  -- If two subnets can be put one after the other, then the second can be put alone, this is what
  -- removing the first leaves, and the first can be put after it, with the same result.
  pub remove-insert-insert :
      (level : ℕ) (n : Node) (bs1 bs2 : List Bool) {n1 n2 : Node}
      → length bs1 ≤ level
      → IsCounted w level n
      → insert w d1 n bs1 ≡ some n1
      → insert w d2 n1 bs2 ≡ some n2
      → (n3 : Node) × (insert w d2 n bs2 ≡ some n3)
        × (remove w d1 n2 bs1 ≡ some n3)
        × (insert w d1 n3 bs1 ≡ some n2)
  unfolding insert remove
  remove-insert-insert level n [] [] hl v h g =
      let (e, e') = insert-nil-eq-some w d1 n h in cc (rw e' at g)
  remove-insert-insert level n [] (b ∷ bs2) hl v h g =
      let (e, e') = insert-nil-eq-some w d1 n h in cc (rw e' at g)
  remove-insert-insert zero n (a ∷ bs1) bs2 hl v h g = elim hl [ ]
  remove-insert-insert (suc k) n (a ∷ bs1) [] hl v h g =
      let (c, ec, leaf, e) = insert-eq-some w d1 n a bs1 h in
      let (z, z') = insert-nil-eq-some w d2 _ g in cc (grown_ne_nil d1 a n c, ap is_nil (sym e ∙ z))
  remove-insert-insert (suc k) n (a ∷ bs1) (b ∷ bs2) {n1} {n2} hl v h g =
      let (c1, ec1, leaf, e1) = insert-eq-some w d1 n a bs1 h in
      let (c2, ec2, leaf2, e2) = insert-eq-some w d2 n1 b bs2 g in
      elim (Bool-cases (same b a)) [
        | inl q ↦
            let e : b ≡ a = same-eq b a q in
            let below : insert w d2 c1 bs2 ≡ some c2 =
              rw (e, e1, child-add_cnt w d1 a (attach (step a n) c1), child-attach a n c1) at ec2 in
            let (c3, i3, r3, o3) =
              remove-insert-insert k (child a n) bs1 bs2 (omega arith) (IsCounted-child w k a n v)
                ec1 below in
            (
              add_cnt w d2 (attach (step a n) c3),
              rw (leaf, e, i3) refl,
              rw
                  (
                    e2,
                    e,
                    grown_ne_nil d2 a n1 c2,
                    child-add_cnt w d2 a (attach (step a n1) c2),
                    child-attach a n1 c2,
                    r3,
                    e1,
                  )
                  (ap some (kept_same a n c1 c2 c3 (insert-ne-nil w d2 (child a n) bs2 i3))),
              rw
                  (
                    grown_not_leaf d2 a n c3 (insert-ne-nil w d2 (child a n) bs2 i3),
                    child-add_cnt w d2 a (attach (step a n) c3),
                    child-attach a n c3,
                    o3,
                    e2,
                    e,
                    e1,
                  )
                  (ap some (order_same a n c1 c2 c3)),
            )
        | inr q ↦
            let q' : same a b ≡ false = ground (arith, q) in
            let beside : insert w d2 (child b n) bs2 ≡ some c2 =
              rw (e1, child-add_cnt w d1 b (attach (step a n) c1), child-attach_ne b a n c1 q) at
                ec2 in
            let gone =
              remove-insert w d1 k (child a n) bs1 (omega arith) hd (IsCounted-child w k a n v)
                ec1 in
            (
              add_cnt w d2 (attach (step b n) c2),
              rw (leaf, beside) refl,
              rw
                  (
                    e2,
                    grown_ne_nil d2 b n1 c2,
                    child-add_cnt w d2 a (attach (step b n1) c2),
                    child-attach_ne a b n1 c2 q',
                    e1,
                    child-add_cnt w d1 a (attach (step a n) c1),
                    child-attach a n c1,
                    gone,
                  )
                  (ap some (kept_other a b n c1 c2 q (insert-ne-nil w d2 (child b n) bs2 beside))),
              rw
                  (
                    grown_not_leaf d2 b n c2 (insert-ne-nil w d2 (child b n) bs2 beside),
                    child-add_cnt w d2 a (attach (step b n) c2),
                    child-attach_ne a b n c2 q',
                    ec1,
                    e2,
                    e1,
                  )
                  (ap some (order_other a b n c1 c2 q)),
            )
      ]
