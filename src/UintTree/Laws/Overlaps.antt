-- ===== src/UintTree/Laws/Overlaps.antt =====
-- `Overlaps` answers what `Put` would refuse.
use mathlib.Core.Option
use tanlnode.Base.{
  ℕ, zero, suc, ◌≡◌, refl, sym, ap, ◌∙◌, Bool, true, false, not, Option, none, some, List, [], ◌∷◌,
  arith, inl, inr, Bool-cases,
}
use tanlnode.UintTree.{
  UintTree, Node, nil, node, is_leaf, child, put, overlaps, overlaps_loop, goes_right, shl1,
  with_root, size_of_net,
}
use tanlnode.UintTree.Spec.{IsValid, IsSubnet}
use tanlnode.UintTree.Trie.{insert, tested_bits}
use tanlnode.UintTree.Cover.Remove.{leaf-child}
use tanlnode.UintTree.Laws.{put-eq-insert, tested-eq}

abbrev is_none : Option Node → Bool
is_none none = true
is_none (some n) = false

is_none-map : (f : Node → Node) (o : Option Node) → is_none o ≡ is_none (Option.map f o)
is_none-map f none = refl
is_none-map f (some n) = refl

is_none-insert-nil : (w diff : ℕ) (bs : List Bool) → is_none (insert w diff nil bs) ≡ false
unfolding insert
is_none-insert-nil w diff [] = refl
is_none-insert-nil w diff (b ∷ bs) = ground (arith, is_none-insert-nil w diff bs)

module _ (w ms diff : ℕ) where
  overlaps_loop-eq :
      (prev n : Node) (addr p : ℕ)
      → is_leaf prev ≡ false
      → overlaps_loop w ms prev n addr p ≡ is_none (insert w diff n (tested_bits w ms p addr))
  unfolding overlaps_loop insert tested_bits
  overlaps_loop-eq prev nil addr p leaf =
      leaf ∙ sym (is_none-insert-nil w diff (tested_bits w ms p addr))
  overlaps_loop-eq prev (node l r c) addr zero leaf = refl
  overlaps_loop-eq prev (node l r c) addr (suc p) leaf =
      let n = node l r c in
      let b = goes_right w ms addr in
      elim (Bool-cases (is_leaf n)) [
        | inl e ↦
            rw e (ap (λ (m : Node). overlaps_loop w ms n m (shl1 w addr) p) (leaf-child b n e) ∙ e)
        | inr e ↦ rw e (overlaps_loop-eq n (child b n) (shl1 w addr) p e ∙ is_none-map _ _)
      ]

is_none-with_root : (t : UintTree) (o : Option Node) → is_none o ≡ not (with_root t o).1
unfolding with_root
is_none-with_root t none = refl
is_none-with_root t (some n) = refl

-- In a valid tree, `Overlaps` of a subnet answers true exactly when `Put` of it returns false.
pub overlaps-eq-not-put :
    {w : ℕ} {t : UintTree} {addr prefbits : ℕ}
    → IsValid w t
    → IsSubnet t addr prefbits
    → overlaps w t addr prefbits ≡ not (put w t addr prefbits).1
unfolding overlaps
overlaps-eq-not-put {w} {t} {addr} {prefbits} v s =
    overlaps_loop-eq w t.ms_bit (size_of_net w t prefbits) nil t.root addr prefbits refl
    ∙ (rw (tested-eq v s, put-eq-insert v s) (is_none-with_root t _))
