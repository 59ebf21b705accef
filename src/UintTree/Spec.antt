-- ===== src/UintTree/Spec.antt =====
-- The abstract view of a tree: which addresses its subnets cover, how many, and what the counters
-- hold. An address of a tree of `level` bits is a number below 2 ^ level.
use tanlnode.Base.{
  ℕ, zero, suc, ◌+◌, ◌-◌, ◌/◌, ◌%◌, ◌^◌, ◌≤◌, ◌<◌, ◌==◌, ◌≡◌, Bool, true, false, not, ◌&&◌, ◌||◌,
  List, [], ◌∷◌, if◌then◌else◌,
}
use tanlnode.Base.Bits.{bit}
use tanlnode.UintTree.{Node, nil, node, UintTree, is_nil, is_leaf, child}

-- The first `prefbits` of the `level` low bits of an address, from the top.
abbrev pub prefix_bits : ℕ → ℕ → ℕ → List Bool
prefix_bits level zero addr = []
prefix_bits zero (suc p) addr = []
prefix_bits (suc level) (suc p) addr = bit level addr ∷ prefix_bits level p addr

-- The address lies in an assigned subnet: its bits, from the top, lead to a leaf.
unfoldable pub taken : ℕ → Node → ℕ → Bool
taken zero n x = not (is_nil n)
taken (suc k) n x = is_leaf n || taken k (child (bit k x) n) x

abbrev pub same : Bool → Bool → Bool
same true b = b
same false b = not b

abbrev pub length : List Bool → ℕ
length [] = 0
length (b ∷ bs) = suc (length bs)

-- The number of addresses that begin with these bits.
abbrev pub net_size : ℕ → List Bool → ℕ
net_size level [] = 2 ^ level
net_size zero (b ∷ bs) = 0
net_size (suc k) (b ∷ bs) = net_size k bs

-- The address begins with these bits.
unfoldable pub in_net : ℕ → List Bool → ℕ → Bool
in_net level [] x = true
in_net zero (b ∷ bs) x = false
in_net (suc k) (b ∷ bs) x = same (bit k x) b && in_net k bs x

-- The bits lead to a leaf: this very subnet is assigned.
unfoldable pub assigned : Node → List Bool → Bool
assigned n [] = is_leaf n
assigned n (b ∷ bs) = assigned (child b n) bs

-- The number of addresses that the leaves cover.
unfoldable pub used : ℕ → Node → ℕ
used level nil = 0
used zero (node l r c) = 1
used (suc k) (node l r c) = if is_leaf (node l r c) then 2 ^ suc k else used k l + used k r

-- Every counter holds the number of covered addresses below it, modulo the word size, and the tree
-- is no deeper than the address has bits.
abbrev pub IsCounted : ℕ → ℕ → Node → Type 0
IsCounted w level nil = Unit
IsCounted w zero (node l r c) = (l ≡ nil) × (r ≡ nil) × (c ≡ 1 % 2 ^ w)
IsCounted w (suc k) (node l r c) =
    (c ≡ used (suc k) (node l r c) % 2 ^ w) × IsCounted w k l × IsCounted w k r

-- A tree over words of `w` bits whose mask and bounds fit its number of address bits.
pub record IsValid (w : ℕ) (t : UintTree) : Type 0 where
  pub level_pos : 0 < t.max_pref_bits
  pub level_le : t.max_pref_bits < suc w
  pub mask : t.ms_bit ≡ 2 ^ (t.max_pref_bits - 1)
  pub bound : t.max_uint + 1 ≡ 2 ^ t.max_pref_bits
  pub counted : IsCounted w t.max_pref_bits t.root

-- The address is in an assigned subnet.
abbrev pub covered : UintTree → ℕ → Bool
covered t = taken t.max_pref_bits t.root

-- The address is in the subnet `addr/prefbits` of the tree: both lie in the same block of the size
-- of the subnet.
abbrev pub in_subnet : UintTree → ℕ → ℕ → ℕ → Bool
in_subnet t addr prefbits x =
    addr / 2 ^ (t.max_pref_bits - prefbits) == x / 2 ^ (t.max_pref_bits - prefbits)

-- A subnet of the tree, as the callers pass it.
pub record IsSubnet (t : UintTree) (addr prefbits : ℕ) : Type 0 where
  pub addr_le : addr ≤ t.max_uint
  pub bits_le : prefbits ≤ t.max_pref_bits
