-- ===== src/UintTree.antt =====
-- nettree/tree.go: the binary tree of assigned subnets, over a word type `T` of `w` bits (16, 32
-- or 64), which is the first argument of every function here.
--
-- A nil pointer is `nil`. A node's parent pointer is kept where the code follows it: a walk down
-- leaves behind the list of the nodes that it passed, each with the child that it did not enter
-- (`Step`), and the loops that go up by `node.parent` go along that list.
pub mod Spec
pub mod Trie
pub mod Cover
pub mod Count
pub mod Undo
pub mod Commute
pub mod Nth
pub mod Laws
mod Tests
use tanlnode.Base.{
  ℕ, zero, suc, ◌+◌, ◌-◌, ◌*◌, ◌/◌, ◌%◌, ◌^◌, bit_and, bit_or, Bool, true, false, not, ◌&&◌, Option,
  none, some, List, [], ◌∷◌, ltb, ◌==◌, if◌then◌else◌,
}

-- `uintNode`: the children and `childrenCnt`.
pub data Node : Type 0 where
  nil : Node
  node : Node → Node → ℕ → Node

-- A node passed on the way down, without the child that was entered: the side taken, the other
-- child and `childrenCnt`.
pub data Step : Type 0 where
  went_left : Node → ℕ → Step
  went_right : Node → ℕ → Step

pub record UintTree : Type 0 where
  pub root : Node
  pub ms_bit : ℕ
  pub max_uint : ℕ
  pub max_pref_bits : ℕ

abbrev pub is_nil : Node → Bool
is_nil nil = true
is_nil (node l r c) = false

-- `node.left == nil && node.right == nil`, for a node.
abbrev pub is_leaf : Node → Bool
is_leaf nil = false
is_leaf (node l r c) = is_nil l && is_nil r

-- The child on a side; a nil node reads as the fresh `&uintNode[T]{}` that takes its place.
abbrev pub child : Bool → Node → Node
child b nil = nil
child false (node l r c) = l
child true (node l r c) = r

abbrev pub step : Bool → Node → Step
step false nil = went_left nil 0
step true nil = went_right nil 0
step false (node l r c) = went_left r c
step true (node l r c) = went_right l c

-- The node that was passed, with its child again (`prev.left = node`, `prev.right = node`).
abbrev pub attach : Step → Node → Node
attach (went_left r c) n = node n r c
attach (went_right l c) n = node l n c

abbrev pub children_cnt : Node → ℕ
children_cnt nil = 0
children_cnt (node l r c) = c

-- A node left without children is unlinked from its parent, or from the tree.
abbrev pub drop_leaf : Node → Node
drop_leaf n = if is_leaf n then nil else n

-- The result of `Put` and `Delete`.
pub with_root : UintTree → Option Node → UintTree × Bool
with_root t none = (t, false)
with_root t (some root) = (record t { root = root }, true)

-- `none` is the panic.
pub placed : ℕ → UintTree × Bool → Option (UintTree × ℕ)
placed addr (t, true) = some (t, addr)
placed addr (t, false) = none

module _ (w : ℕ) where
  -- `addr&tree.msBit == 0` goes left.
  abbrev pub goes_right : ℕ → ℕ → Bool
  goes_right ms_bit addr = not (bit_and addr ms_bit == 0)

  -- `addr <<= 1`
  abbrev pub shl1 : ℕ → ℕ
  shl1 addr = addr * 2 % 2 ^ w

  -- `T(1) << (tree.maxPrefBits - prefbits)`
  abbrev pub size_of_net : UintTree → ℕ → ℕ
  size_of_net t prefbits = 2 ^ (t.max_pref_bits - prefbits) % 2 ^ w

  -- The loop of `Overlaps` at `prev`, `node`, `addr` and `prefbits`.
  pub overlaps_loop : ℕ → Node → Node → ℕ → ℕ → Bool
  overlaps_loop ms_bit prev nil addr prefbits = is_leaf prev
  overlaps_loop ms_bit prev (node l r c) addr zero = true
  overlaps_loop ms_bit prev (node l r c) addr (suc prefbits) =
      overlaps_loop ms_bit (node l r c) (child (goes_right ms_bit addr) (node l r c)) (shl1 addr)
        prefbits

  unfoldable pub overlaps : UintTree → ℕ → ℕ → Bool
  unfolding overlaps_loop
  overlaps t addr prefbits = overlaps_loop t.ms_bit nil t.root addr prefbits

  -- `node.childrenCnt += childrenCntDiff`
  abbrev pub add_cnt : ℕ → Node → Node
  add_cnt diff nil = nil
  add_cnt diff (node l r c) = node l r ((c + diff) % 2 ^ w)

  -- `updateParents`: from the new node up to the root, which is returned.
  pub update_parents : ℕ → List Step → Node → Node
  update_parents diff [] n = add_cnt diff n
  update_parents diff (s ∷ path) n = update_parents diff path (attach s (add_cnt diff n))

  -- The first loop of `Put`; `none` is its `return false`. Only an existing node ends it so: an
  -- existing leaf, or any at the end of the prefix. From the first node that it makes on it meets
  -- no other existing one, so a call that returns false has made none.
  pub put_loop : ℕ → ℕ → Node → List Step → ℕ → ℕ → Option Node
  unfolding update_parents
  put_loop ms_bit diff n path addr zero =
      if is_nil n then some (update_parents diff path (node nil nil 0)) else none
  put_loop ms_bit diff n path addr (suc prefbits) =
      let right = goes_right ms_bit addr in
      let rest = put_loop ms_bit diff (child right n) (step right n ∷ path) (shl1 addr) prefbits in
      if is_leaf n then none else rest

  unfoldable pub put : UintTree → ℕ → ℕ → UintTree × Bool
  unfolding put_loop with_root
  put t addr prefbits =
      with_root t (put_loop t.ms_bit (size_of_net t prefbits) t.root [] addr prefbits)

  -- `node.childrenCnt -= childrenCntDiff`
  abbrev pub sub_cnt : ℕ → Node → Node
  sub_cnt diff nil = nil
  sub_cnt diff (node l r c) = node l r ((c + 2 ^ w - diff) % 2 ^ w)

  -- `remove`: from the found node up to the root, which is returned.
  pub remove_up : ℕ → List Step → Node → Node
  remove_up diff [] n = drop_leaf (sub_cnt diff n)
  remove_up diff (s ∷ path) n = remove_up diff path (attach s (drop_leaf (sub_cnt diff n)))

  -- The first loop of `Delete`; `none` is its `return false`.
  pub delete_loop : ℕ → ℕ → Node → List Step → ℕ → ℕ → Option Node
  unfolding remove_up
  delete_loop ms_bit diff n path addr zero =
      if is_leaf n then some (remove_up diff path n) else none
  delete_loop ms_bit diff n path addr (suc prefbits) =
      let right = goes_right ms_bit addr in
      let rest =
        delete_loop ms_bit diff (child right n) (step right n ∷ path) (shl1 addr) prefbits in
      if is_nil n then none else rest

  unfoldable pub delete : UintTree → ℕ → ℕ → UintTree × Bool
  unfolding delete_loop with_root
  delete t addr prefbits =
      with_root t (delete_loop t.ms_bit (size_of_net t prefbits) t.root [] addr prefbits)

  -- `leftFreeElsCnt`
  abbrev pub left_free : Node → ℕ → ℕ
  left_free nil bit = bit
  left_free (node l r c) bit = (bit + 2 ^ w - c) % 2 ^ w

  -- The loop of `PutNthFree` at `node`, `netStart`, `n` and `bit`, up to `netStart + n`.
  unfoldable pub nth_free_loop : Node → ℕ → ℕ → ℕ → ℕ
  nth_free_loop nil net_start n bit = (net_start + n) % 2 ^ w
  nth_free_loop (node l r c) net_start n bit =
      let free = left_free l bit in
      let in_left = nth_free_loop l net_start n (bit / 2) in
      let in_right =
        nth_free_loop r (bit_or net_start bit) ((n + 2 ^ w - free) % 2 ^ w) (bit / 2) in
      if ltb n free then in_left else in_right

  unfoldable pub put_nth_free : UintTree → ℕ → Option (UintTree × ℕ)
  unfolding nth_free_loop placed
  put_nth_free t n =
      let addr = nth_free_loop t.root 0 n t.ms_bit in placed addr (put t addr t.max_pref_bits)

-- `Size`, a `*big.Int`.
unfoldable pub size : UintTree → ℕ
size t =
    if is_nil t.root
    then 0
    else if children_cnt t.root == 0
    then t.max_uint + 1
    else children_cnt t.root
