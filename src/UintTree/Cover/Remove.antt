-- ===== src/UintTree/Cover/Remove.antt =====
-- The covered addresses after `remove`, and when it fails.
use tanlnode.Base.{
  ℕ, zero, suc, ◌≤◌, ◌≡◌, refl, sym, Bool, true, false, not, ◌&&◌, none, some, List, [], ◌∷◌, arith,
  inl, inr, if◌then◌else◌, Bool-cases, Option-cases,
}
use tanlnode.Base.Bits.{bit}
use tanlnode.UintTree.{Node, nil, node, is_nil, is_leaf, child, step, attach, sub_cnt, drop_leaf}
use tanlnode.UintTree.Spec.{taken, in_net, same, assigned, length}
use tanlnode.UintTree.Trie.{remove}
use tanlnode.UintTree.Cover.{
  taken-is_leaf, taken-nil, taken-node, child-attach, child-attach_ne, same_self, same-eq,
}

assigned-nil : (bs : List Bool) → assigned nil bs ≡ false
unfolding assigned
assigned-nil [] = refl
assigned-nil (b ∷ bs) = assigned-nil bs

taken-drop_leaf :
    (k : ℕ) (n : Node) (x : ℕ)
    → taken (suc k) (drop_leaf n) x ≡ (if is_leaf n then false else taken k (child (bit k x) n) x)
taken-drop_leaf k n x = elim (Bool-cases (is_leaf n)) [
  | inl e ↦ rw e (taken-nil (suc k) x)
  | inr e ↦ rw e (taken-node k n x e)
]

pub leaf-child : (b : Bool) (n : Node) → is_leaf n ≡ true → child b n ≡ nil
leaf-child b nil h = refl
leaf-child true (node nil nil c) h = refl
leaf-child false (node nil nil c) h = refl
leaf-child b (node nil (node l r d) c) h = cc
leaf-child b (node (node l r d) m c) h = cc

-- A node that is dropped had no covered address left.
pub taken-dropped :
    (k : ℕ) (n : Node) (x : ℕ) → taken (suc k) (drop_leaf n) x ≡ taken k (child (bit k x) n) x
taken-dropped k n x = elim (Bool-cases (is_leaf n)) [
  | inl e ↦ rw (taken-drop_leaf k n x, e, leaf-child (bit k x) n e) (sym (taken-nil k x))
  | inr e ↦ rw (taken-drop_leaf k n x, e)
]

in_net-all :
    (level x : ℕ)
    → (false ≡ true && not (in_net level [] x)) × (in_net level [] x && not true ≡ false)
unfolding in_net
in_net-all level x = (refl, refl)

-- One level up from a child that lost the addresses of `bs`.
taken-detach :
    (k : ℕ) (b : Bool) (n c : Node) (bs : List Bool) (x : ℕ)
    → (taken k c x ≡ taken k (child b n) x && not (in_net k bs x))
      × (in_net k bs x && not (taken k (child b n) x) ≡ false)
    → (taken k (child (bit k x) (attach (step b n) c)) x
        ≡ taken k (child (bit k x) n) x && not (in_net (suc k) (b ∷ bs) x))
      × (in_net (suc k) (b ∷ bs) x && not (taken k (child (bit k x) n) x) ≡ false)
unfolding in_net
taken-detach k b n c bs x ih = elim (Bool-cases (same (bit k x) b)) [
  | inl e ↦ rw (same-eq (bit k x) b e, child-attach b n c, same_self b) ih
  | inr e ↦ rw (e, child-attach_ne (bit k x) b n c e) (ground arith)
]

module _ (w diff : ℕ) where
  pub dropped : (n : Node) → is_leaf n ≡ true → drop_leaf (sub_cnt w diff n) ≡ nil
  dropped nil h = refl
  dropped (node l r c) h = rw h

  pub child-sub_cnt : (b : Bool) (n : Node) → child b (sub_cnt w diff n) ≡ child b n
  child-sub_cnt b nil = refl
  child-sub_cnt true (node l r c) = refl
  child-sub_cnt false (node l r c) = refl

  pub remove-eq-some :
      (n : Node) (b : Bool) (bs : List Bool) {n' : Node}
      → remove w diff n (b ∷ bs) ≡ some n'
      → (c : Node) × (remove w diff (child b n) bs ≡ some c)
        × (is_nil n ≡ false)
        × (n' ≡ drop_leaf (sub_cnt w diff (attach (step b n) c)))
  unfolding remove
  remove-eq-some n b bs h = elim (Option-cases (remove w diff (child b n) bs)) [
    | inl e ↦ ground arith
    | inr (c, e) ↦ (c, e, ground arith, ground arith)
  ]

  pub remove-nil-eq-some :
      (n : Node) {n' : Node}
      → remove w diff n [] ≡ some n'
      → (is_leaf n ≡ true) × (n' ≡ drop_leaf (sub_cnt w diff n))
  unfolding remove
  remove-nil-eq-some n h = ground arith

  -- `remove` succeeds on the assigned subnets and on no other.
  pub remove-IsSome :
      (n : Node) (bs : List Bool)
      → assigned n bs ≡ (elim (remove w diff n bs) [ none ↦ false | some _ ↦ true ])
  unfolding assigned remove
  remove-IsSome n [] = ground arith
  remove-IsSome nil (b ∷ bs) = assigned-nil bs
  remove-IsSome (node l r c) (b ∷ bs) = ground (arith, remove-IsSome (child b (node l r c)) bs)

  remove-nil : (bs : List Bool) → remove w diff nil bs ≡ none
  unfolding remove
  remove-nil [] = refl
  remove-nil (b ∷ bs) = refl

  -- A node above a removed subnet is no leaf.
  pub remove-not_leaf :
      (n : Node) (b : Bool) (bs : List Bool) {c : Node}
      → remove w diff (child b n) bs ≡ some c
      → is_leaf n ≡ false
  remove-not_leaf n b bs h = elim (Bool-cases (is_leaf n)) [
    | inl e ↦ cc (leaf-child b n e, remove-nil bs)
    | inr e ↦ e
  ]

  -- The covered addresses of the new tree are the old ones without those of the subnet, all of
  -- which were covered.
  pub taken-remove :
      (level : ℕ) (n : Node) (bs : List Bool) {n' : Node}
      → length bs ≤ level
      → remove w diff n bs ≡ some n'
      → (x : ℕ)
      → (taken level n' x ≡ taken level n x && not (in_net level bs x))
        × (in_net level bs x && not (taken level n x) ≡ false)
  taken-remove level n [] hl h x =
      let (e, e') = remove-nil-eq-some n h in
      rw (e', dropped n e, taken-nil level x, taken-is_leaf level n x e) (in_net-all level x)
  taken-remove zero n (b ∷ bs) hl h x = elim hl [ ]
  taken-remove (suc k) n (b ∷ bs) hl h x =
      let (c, ec, _, e) = remove-eq-some n b bs h in
      let ih = taken-remove k (child b n) bs (omega arith) ec x in
      rw
        (
          e,
          taken-dropped k (sub_cnt w diff (attach (step b n) c)) x,
          taken-node k n x (remove-not_leaf n b bs ec),
          child-sub_cnt (bit k x) (attach (step b n) c),
        )
        (taken-detach k b n c bs x ih)
