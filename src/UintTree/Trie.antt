-- ===== src/UintTree/Trie.antt =====
-- `Put` and `Delete` as recursions over the bits of the prefix: what the loops down and up do.
use tanlnode.Base.{
  ℕ, zero, suc, ◌+◌, ◌-◌, ◌^◌, ◌≤◌, ◌<◌, ◌≡◌, refl, sym, ◌∙◌, Bool, Option, none, some, List, [],
  ◌∷◌, arith, inl, inr, if◌then◌else◌, Bool-cases,
}
use tanlnode.Base.Bits.{bit, bit_and-clear, bit_and-set, bit-shl}
use mathlib.Core.Option
use tanlnode.UintTree.Spec.{prefix_bits}
use tanlnode.UintTree.{
  Node, nil, node, Step, is_nil, is_leaf, child, step, attach, goes_right, shl1, add_cnt,
  update_parents, put_loop, sub_cnt, drop_leaf, remove_up, delete_loop,
}

-- What `update_parents` and `remove_up` do above a finished node.
unfoldable pub rebuild : (Node → Node) → List Step → Node → Node
rebuild f [] n = n
rebuild f (s ∷ path) n = rebuild f path (f (attach s n))

module _ (w : ℕ) where
  -- The bits that the loops test.
  unfoldable pub tested_bits : ℕ → ℕ → ℕ → List Bool
  tested_bits ms_bit zero addr = []
  tested_bits ms_bit (suc p) addr = goes_right w ms_bit addr ∷ tested_bits ms_bit p (shl1 w addr)

  unfoldable pub insert : ℕ → Node → List Bool → Option Node
  insert diff n [] = if is_nil n then some (add_cnt w diff (node nil nil 0)) else none
  insert diff n (b ∷ bs) =
      if is_leaf n
      then none
      else Option.map (λ c. add_cnt w diff (attach (step b n) c)) (insert diff (child b n) bs)

  unfoldable pub remove : ℕ → Node → List Bool → Option Node
  remove diff n [] = if is_leaf n then some (drop_leaf (sub_cnt w diff n)) else none
  remove diff n (b ∷ bs) =
      if is_nil n
      then none
      else Option.map (λ c. drop_leaf (sub_cnt w diff (attach (step b n) c)))
          (remove diff (child b n) bs)

  update_parents-eq-rebuild :
      (diff : ℕ) (path : List Step) (n : Node)
      → update_parents w diff path n ≡ rebuild (add_cnt w diff) path (add_cnt w diff n)
  unfolding update_parents rebuild
  update_parents-eq-rebuild diff [] n = refl
  update_parents-eq-rebuild diff (s ∷ path) n =
      update_parents-eq-rebuild diff path (attach s (add_cnt w diff n))

  remove_up-eq-rebuild :
      (diff : ℕ) (path : List Step) (n : Node)
      → remove_up w diff path n
        ≡ rebuild (λ m. drop_leaf (sub_cnt w diff m)) path (drop_leaf (sub_cnt w diff n))
  unfolding remove_up rebuild
  remove_up-eq-rebuild diff [] n = refl
  remove_up-eq-rebuild diff (s ∷ path) n =
      remove_up-eq-rebuild diff path (attach s (drop_leaf (sub_cnt w diff n)))

  pub put_loop-eq :
      (ms diff : ℕ) (n : Node) (path : List Step) (addr p : ℕ)
      → put_loop w ms diff n path addr p
        ≡ Option.map (rebuild (add_cnt w diff) path) (insert diff n (tested_bits ms p addr))
  unfolding put_loop insert tested_bits rebuild
  put_loop-eq ms diff n path addr zero = elim (Bool-cases (is_nil n)) [
    | inl e ↦ rw (e, update_parents-eq-rebuild diff path (node nil nil 0))
    | inr e ↦ rw e
  ]
  put_loop-eq ms diff n path addr (suc p) = elim (Bool-cases (is_leaf n)) [
    | inl e ↦ rw e
    | inr e ↦
        let b = goes_right w ms addr in
        rw e (
          put_loop-eq ms diff (child b n) (step b n ∷ path) (shl1 w addr) p
          ∙ sym (Option.map-map _ _ (insert diff (child b n) (tested_bits ms p (shl1 w addr)))))
  ]

  pub delete_loop-eq :
      (ms diff : ℕ) (n : Node) (path : List Step) (addr p : ℕ)
      → delete_loop w ms diff n path addr p
        ≡ Option.map
            (rebuild (λ m. drop_leaf (sub_cnt w diff m)) path)
            (remove diff n (tested_bits ms p addr))
  unfolding delete_loop remove tested_bits rebuild
  delete_loop-eq ms diff n path addr zero = elim (Bool-cases (is_leaf n)) [
    | inl e ↦ rw (e, remove_up-eq-rebuild diff path n)
    | inr e ↦ rw e
  ]
  delete_loop-eq ms diff n path addr (suc p) = elim (Bool-cases (is_nil n)) [
    | inl e ↦ rw e
    | inr e ↦
        let b = goes_right w ms addr in
        rw e (
          delete_loop-eq ms diff (child b n) (step b n ∷ path) (shl1 w addr) p
          ∙ sym (Option.map-map _ _ (remove diff (child b n) (tested_bits ms p (shl1 w addr)))))
  ]

  goes_right-eq-bit : (k addr : ℕ) → goes_right w (2 ^ k) addr ≡ bit k addr
  goes_right-eq-bit k addr =
      ground (arith, bit_and-clear k addr, bit_and-set k addr, Bool-cases (bit k addr))

  -- The mask stands still and the address moves: the loops test the bits of the prefix in order.
  tested_bits-eq :
      (m level p addr now : ℕ)
      → m < w
      → level ≤ suc m
      → p ≤ level
      → ((i : ℕ) → i < level → bit (i + (suc m - level)) now ≡ bit i addr)
      → tested_bits (2 ^ m) p now ≡ prefix_bits level p addr
  unfolding tested_bits
  tested_bits-eq m level zero addr now hm hl hp e = refl
  tested_bits-eq m zero (suc p) addr now hm hl hp e = absurd (omega arith)
  tested_bits-eq m (suc k) (suc p) addr now hm hl hp e =
      rw
        (
          goes_right-eq-bit m now,
          head,
          tested_bits-eq m k p addr (shl1 w now) hm (omega arith) (omega arith) tail,
        )
        refl
    where
      head : bit m now ≡ bit k addr
      head = let s : k + (suc m - suc k) ≡ m = omega arith in rw s at (e k (omega arith))

      tail : (i : ℕ) → i < k → bit (i + (suc m - k)) (shl1 w now) ≡ bit i addr
      tail i h =
          let s : i + (suc m - k) ≡ suc (i + (suc m - suc k)) = omega arith in
          rw (s, bit-shl (i + (suc m - suc k)) w now (omega arith)) (e i (omega arith))

  pub tested_bits-eq-prefix_bits :
      (m p addr : ℕ) → m < w → p ≤ suc m → tested_bits (2 ^ m) p addr ≡ prefix_bits (suc m) p addr
  tested_bits-eq-prefix_bits m p addr hm hp =
      tested_bits-eq m (suc m) p addr addr hm (omega arith) hp
        (λ i h. let s : i + (suc m - suc m) ≡ i = omega arith in rw s)
