-- ===== src/UintTree/Laws/Deletes.antt =====
-- What `Delete` does to the set of covered addresses, when it refuses, and that it undoes `Put`.
use native.Mathlib.Nat.{mod-lt}
use tanlnode.Base.{
  ℕ, ◌-◌, ◌^◌, ◌≤◌, ◌≡◌, refl, sym, ◌∙◌, Bool, true, false, not, ◌&&◌, some, arith, inl, inr,
  Option-cases,
}
use tanlnode.Base.Bits.{pow_pos}
use tanlnode.UintTree.{Node, UintTree, put, delete, with_root, size_of_net}
use tanlnode.UintTree.Spec.{IsValid, IsSubnet, prefix_bits, covered, in_subnet, taken, assigned}
use tanlnode.UintTree.Trie.{remove}
use tanlnode.UintTree.Cover.Remove.{taken-remove, remove-IsSome}
use tanlnode.UintTree.Cover.Range.{net_size-prefix_bits}
use tanlnode.UintTree.Count.Remove.{remove-IsCounted}
use tanlnode.UintTree.Undo.{remove-insert}
use tanlnode.UintTree.Laws.{delete-eq-remove}
use tanlnode.UintTree.Laws.Puts.{
  PutCases, refused, added, put-cases, put-IsValid, in_subnet-eq, bits_fit,
}

-- How a call ended.
pub data DeleteCases (w : ℕ) (t : UintTree) (addr prefbits : ℕ) : UintTree × Bool → Type 0 where
  absent :
      assigned t.root (prefix_bits t.max_pref_bits prefbits addr) ≡ false
      → DeleteCases w t addr prefbits (t, false)
  removed :
      (root : Node)
      → assigned t.root (prefix_bits t.max_pref_bits prefbits addr) ≡ true
      → remove w (size_of_net w t prefbits) t.root (prefix_bits t.max_pref_bits prefbits addr)
        ≡ some root
      → DeleteCases w t addr prefbits (record t { root = root }, true)

module _ {w : ℕ} {t : UintTree} (v : IsValid w t) {addr prefbits : ℕ}
    (s : IsSubnet t addr prefbits) where
  pub delete-cases : DeleteCases w t addr prefbits (delete w t addr prefbits)
  delete-cases =
      let bs = prefix_bits t.max_pref_bits prefbits addr in
      let diff = size_of_net w t prefbits in
      rw (delete-eq-remove v s) (elim (Option-cases (remove w diff t.root bs)) [
        | inl e ↦ rw e (unfold with_root in absent (rw e at (remove-IsSome w diff t.root bs)))
        | inr (root, e) ↦
            rw e (unfold with_root in removed root (rw e at (remove-IsSome w diff t.root bs)) e)
      ])

  pub removed-covered :
      {root : Node}
      → remove w (size_of_net w t prefbits) t.root (prefix_bits t.max_pref_bits prefbits addr)
        ≡ some root
      → (x : ℕ) → x ≤ t.max_uint
      → (taken t.max_pref_bits root x ≡ covered t x && not (in_subnet t addr prefbits x))
        × (in_subnet t addr prefbits x && not (covered t x) ≡ false)
  removed-covered e x h = rw (← in_subnet-eq v s x h) (
      taken-remove w (size_of_net w t prefbits) t.max_pref_bits t.root
        (prefix_bits t.max_pref_bits prefbits addr) (bits_fit v s) e x)

  covered_cases :
      (r : UintTree × Bool)
      → DeleteCases w t addr prefbits r
      → (x : ℕ) → x ≤ t.max_uint
      → covered r.0 x ≡ covered t x && not (r.1 && in_subnet t addr prefbits x)
  covered_cases r (absent _) x h = ground arith
  covered_cases r (removed root _ e) x h = (removed-covered e x h).0

  result_cases :
      (r : UintTree × Bool)
      → DeleteCases w t addr prefbits r
      → r.1 ≡ assigned t.root (prefix_bits t.max_pref_bits prefbits addr)
  result_cases r (absent e) = sym e
  result_cases r (removed root e _) = sym e

  cases-IsValid : (r : UintTree × Bool) → DeleteCases w t addr prefbits r → IsValid w r.0
  cases-IsValid r (absent _) = v
  cases-IsValid r (removed root _ e) = record {
    level_pos = v.level_pos;
    level_le = v.level_le;
    mask = v.mask;
    bound = v.bound;
    counted =
        remove-IsCounted w t.max_pref_bits t.root (prefix_bits t.max_pref_bits prefbits addr)
          (2 ^ (t.max_pref_bits - prefbits)) (bits_fit v s)
          (sym (net_size-prefix_bits t.max_pref_bits prefbits addr s.bits_le)) v.counted e;
  }

  -- In a valid tree, `Delete` of a subnet returns true exactly when this very subnet is assigned:
  -- when its bits lead from the root to a leaf.
  pub delete-eq-assigned :
      (delete w t addr prefbits).1 ≡ assigned t.root (prefix_bits t.max_pref_bits prefbits addr)
  delete-eq-assigned = result_cases (delete w t addr prefbits) delete-cases

  -- In a valid tree, the addresses covered after `Delete` of a subnet are those covered before
  -- without, if it returned true, those of the subnet.
  pub covered-delete :
      (x : ℕ)
      → x ≤ t.max_uint
      → covered (delete w t addr prefbits).0 x
        ≡ covered t x && not ((delete w t addr prefbits).1 && in_subnet t addr prefbits x)
  covered-delete = covered_cases (delete w t addr prefbits) delete-cases

  -- `Delete` of a subnet keeps the tree valid, whether or not it returns true.
  pub delete-IsValid : IsValid w (delete w t addr prefbits).0
  delete-IsValid = cases-IsValid (delete w t addr prefbits) delete-cases

  undo_cases :
      (r : UintTree × Bool)
      → PutCases w t addr prefbits r
      → IsValid w r.0
      → r.1 ≡ true
      → delete w r.0 addr prefbits ≡ (t, true)
  undo_cases r (refused _ _ _ _) u e = cc
  undo_cases r (added root e) u _ =
      let t' : UintTree = record t { root = root } in
      delete-eq-remove {t = t'} u (record { addr_le = s.addr_le; bits_le = s.bits_le })
      ∙ (rw
          (remove-insert w (size_of_net w t prefbits) t.max_pref_bits t.root
            (prefix_bits t.max_pref_bits prefbits addr) (bits_fit v s) (mod-lt _ (pow_pos w))
            v.counted e)
          (unfold with_root in refl))

  -- In a valid tree, `Delete` of a subnet right after a `Put` of it that returned true returns
  -- true and gives back the very tree, with its counters, from before the `Put`.
  pub delete-put :
      (put w t addr prefbits).1 ≡ true
      → delete w (put w t addr prefbits).0 addr prefbits ≡ (t, true)
  delete-put = undo_cases (put w t addr prefbits) (put-cases v s) (put-IsValid v s)
