-- ===== src/UintTree/Laws.antt =====
-- `Put` and `Delete` as `insert` and `remove` on the bits of the prefix.
pub mod Puts
pub mod Deletes
pub mod Picks
pub mod Sizes
pub mod Overlaps
pub mod Orders
use mathlib.Core.Option
use tanlnode.Base.{
  ℕ, zero, suc, ◌+◌, ◌-◌, ◌%◌, ◌^◌, ◌≤◌, ◌<◌, ◌≡◌, refl, sym, ap, ◌∙◌, Bool, true, false, not,
  Option, none, some, List, [], ◌∷◌, arith,
}
use tanlnode.UintTree.{
  Node, nil, node, UintTree, is_leaf, child, goes_right, shl1, overlaps_loop, overlaps, put_loop,
  put, delete_loop, delete, with_root, size_of_net, add_cnt, sub_cnt, drop_leaf, add_cnt,
}
use tanlnode.UintTree.Spec.{IsValid, IsSubnet, prefix_bits, length, net_size}
use tanlnode.UintTree.Trie.{
  insert, remove, rebuild, tested_bits, put_loop-eq, delete_loop-eq, tested_bits-eq-prefix_bits,
}

map-rebuild : (f : Node → Node) (o : Option Node) → Option.map (rebuild f []) o ≡ o
unfolding rebuild
map-rebuild f none = refl
map-rebuild f (some n) = refl

module _ {w : ℕ} {t : UintTree} (v : IsValid w t) {addr prefbits : ℕ}
    (s : IsSubnet t addr prefbits) where
  abbrev pub bits_of_net : List Bool
  bits_of_net = prefix_bits t.max_pref_bits prefbits addr

  pub tested-eq : tested_bits w t.ms_bit prefbits addr ≡ prefix_bits t.max_pref_bits prefbits addr
  tested-eq =
      let e : suc (t.max_pref_bits - 1) ≡ t.max_pref_bits = omega (arith, v.level_pos) in
      rw (
        v.mask,
        tested_bits-eq-prefix_bits w (t.max_pref_bits - 1) prefbits addr
            (omega (arith, v.level_le, v.level_pos)) (omega (arith, v.level_pos, s.bits_le)),
        e,
      )

  pub put-eq-insert :
      put w t addr prefbits
      ≡ with_root t
          (insert w (size_of_net w t prefbits) t.root (prefix_bits t.max_pref_bits prefbits addr))
  unfolding put
  put-eq-insert = rw (
    put_loop-eq w t.ms_bit (size_of_net w t prefbits) t.root [] addr prefbits,
    map-rebuild _ _,
    tested-eq,
  )

  pub delete-eq-remove :
      delete w t addr prefbits
      ≡ with_root t
          (remove w (size_of_net w t prefbits) t.root (prefix_bits t.max_pref_bits prefbits addr))
  unfolding delete
  delete-eq-remove = rw (
    delete_loop-eq w t.ms_bit (size_of_net w t prefbits) t.root [] addr prefbits,
    map-rebuild _ _,
    tested-eq,
  )
