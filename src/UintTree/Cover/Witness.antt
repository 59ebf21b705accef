-- ===== src/UintTree/Cover/Witness.antt =====
-- A covered address for every subnet that `insert` refuses.
use tanlnode.Base.{
  ℕ, zero, suc, ◌+◌, ◌^◌, ◌≤◌, ◌<◌, ◌≡◌, refl, Bool, true, false, none, List, [], ◌∷◌, arith, inl,
  inr, Bool-cases,
}
use tanlnode.Base.Bits.{bit, bit-low, bit-high, bit-add, half_pow, pow_pos}
use tanlnode.UintTree.{Node, nil, node, is_nil, is_leaf, child}
use tanlnode.UintTree.Spec.{taken, in_net, IsCounted, length}
use tanlnode.UintTree.Trie.{insert}
use tanlnode.UintTree.Cover.{taken-leaf, same_self, IsCounted-child}

-- The number whose bit of weight 2 ^ k is `b`, above the lower bits of `x`.
abbrev pub place : Bool → ℕ → ℕ → ℕ
place true k x = 2 ^ k + x
place false k x = x

pub place-lt : (b : Bool) (k x : ℕ) → x < 2 ^ k → place b k x < 2 ^ suc k
place-lt true k x h = omega (arith, half_pow k)
place-lt false k x h = omega (arith, half_pow k)

pub bit-place : (b : Bool) (k x : ℕ) → x < 2 ^ k → bit k (place b k x) ≡ b
bit-place true k x h = bit-high k x h
bit-place false k x h = bit-low k x h

pub bit-place_lt : (b : Bool) (j k x : ℕ) → j < k → bit j (place b k x) ≡ bit j x
bit-place_lt true j k x h = bit-add j k x h
bit-place_lt false j k x h = refl

-- Only the bits below the level are read.
pub taken-place :
    (b : Bool) (level k : ℕ) (n : Node) (x : ℕ)
    → level ≤ k
    → taken level n (place b k x) ≡ taken level n x
unfolding taken
taken-place b zero k n x h = refl
taken-place b (suc level) k n x h =
    rw (bit-place_lt b level k x h, taken-place b level k (child (bit level x) n) x (omega arith))

pub in_net-place :
    (b : Bool) (level k : ℕ) (bs : List Bool) (x : ℕ)
    → level ≤ k
    → in_net level bs (place b k x) ≡ in_net level bs x
unfolding in_net
in_net-place b level k [] x h = refl
in_net-place b zero k (c ∷ bs) x h = refl
in_net-place b (suc level) k (c ∷ bs) x h =
    rw (bit-place_lt b level k x h, in_net-place b level k bs x (omega arith))

-- A covered address of a child is one of its parent.
up :
    (k : ℕ) (n : Node) (b : Bool) (x : ℕ)
    → x < 2 ^ k
    → taken k (child b n) x ≡ true
    → taken (suc k) n (place b k x) ≡ true
unfolding taken
up k n b x h e =
    rw (bit-place b k x h, taken-place b k k (child b n) x (omega arith), e) (ground arith)

abbrev HasTaken : ℕ → Node → Type 0
HasTaken level n = (x : ℕ) × (x < 2 ^ level) × (taken level n x ≡ true)

child-HasTaken : (k : ℕ) (n : Node) (b : Bool) → HasTaken k (child b n) → HasTaken (suc k) n
child-HasTaken k n b (x, h, e) = (place b k x, place-lt b k x h, up k n b x h e)

node-HasTaken : (w level : ℕ) (n : Node) → is_nil n ≡ false → IsCounted w level n → HasTaken level n
node-HasTaken w level nil h v = cc
node-HasTaken w zero (node l r c) h v = (0, omega arith, unfold taken in refl)
node-HasTaken w (suc k) (node nil nil c) h v = (0, pow_pos (suc k), taken-leaf (suc k) c 0)
node-HasTaken w (suc k) (node (node a b d) r c) h v =
    child-HasTaken k (node (node a b d) r c) false (node-HasTaken w k (node a b d) refl v.1)
node-HasTaken w (suc k) (node nil (node a b d) c) h v =
    child-HasTaken k (node nil (node a b d) c) true (node-HasTaken w k (node a b d) refl v.2)

in_net-cons :
    (k : ℕ) (b : Bool) (bs : List Bool) (x : ℕ)
    → x < 2 ^ k
    → in_net k bs x ≡ true
    → in_net (suc k) (b ∷ bs) (place b k x) ≡ true
unfolding in_net
in_net-cons k b bs x h e =
    rw (bit-place b k x h, in_net-place b k k bs x (omega arith), e, same_self b)

in_net_member :
    (level : ℕ) (bs : List Bool)
    → length bs ≤ level
    → (x : ℕ) × (x < 2 ^ level) × (in_net level bs x ≡ true)
unfolding in_net
in_net_member level [] h = (0, pow_pos level, refl)
in_net_member zero (b ∷ bs) h = elim h [ ]
in_net_member (suc k) (b ∷ bs) h =
    let (x, hx, e) = in_net_member k bs (omega arith) in
    (place b k x, place-lt b k x hx, in_net-cons k b bs x hx e)

-- `insert` fails only over a covered address of the subnet.
pub insert-eq-none :
    (w diff level : ℕ) (n : Node) (bs : List Bool)
    → length bs ≤ level
    → IsCounted w level n
    → insert w diff n bs ≡ none
    → (x : ℕ) × (x < 2 ^ level) × (in_net level bs x ≡ true) × (taken level n x ≡ true)
unfolding insert
insert-eq-none w diff level n [] hl v h =
    let (x, hx, e) = node-HasTaken w level n (ground arith) v in (x, hx, unfold in_net in refl, e)
insert-eq-none w diff zero n (b ∷ bs) hl v h = elim hl [ ]
insert-eq-none w diff (suc k) n (b ∷ bs) hl v h = elim (Bool-cases (is_leaf n)) [
  | inl leaf ↦
      let (x, hx, e) = in_net_member (suc k) (b ∷ bs) hl in (x, hx, e, unfold taken in rw leaf)
  | inr inner ↦
      let (x, hx, i, e) =
        insert-eq-none w diff k (child b n) bs (omega arith) (IsCounted-child w k b n v)
          (ground arith) in
      (place b k x, place-lt b k x hx, in_net-cons k b bs x hx i, up k n b x hx e)
]
