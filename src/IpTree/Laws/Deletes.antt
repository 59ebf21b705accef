-- ===== src/IpTree/Laws/Deletes.antt =====
-- What `Delete` does to the assigned addresses of a network, and that it undoes `Put`.
use tanlnode.Base.{
  ℕ, ◌%◌, ◌^◌, ◌≡◌, refl, sym, ◌∙◌, Bool, true, false, not, ◌&&◌, arith, inl, inr, Bool-cases,
}
use tanlnode.Netip.{Addr, Prefix, IsPrefix, contains}
use tanlnode.UintTree
use tanlnode.UintTree.{UintTree}
use tanlnode.UintTree.Spec.{covered, in_subnet}
use tanlnode.UintTree.Laws.Puts.{PutCases, refused, added, put-cases}
use tanlnode.UintTree.Laws.Deletes.{
  delete-put, delete-IsValid, DeleteCases, absent, removed, delete-cases, removed-covered,
}
use tanlnode.IpTree.{
  IpTree, ok, within, host, host_bits, word_bits, put, put_result, delete, delete_result,
}
use tanlnode.IpTree.Spec.{IsNet, allocated}
use tanlnode.IpTree.Bridge.{IsWithin, host-IsSubnet, contains-eq, same_family-eq}
use tanlnode.IpTree.Offsets.{host-le}
use tanlnode.IpTree.Laws.Puts.{with_root-IsNet, put-within, put-without}

-- How a call ended.
data DeleteEnds (t : IpTree) (pref : Prefix) : IpTree × Bool → Type 0 where
  kept : DeleteEnds t pref (t, false)
  removed_net :
      (u : UintTree)
      → IsNet (record t { tree = u })
      → ((ip : Addr)
          → (allocated (record t { tree = u }) ip ≡ allocated t ip && not (contains pref ip))
            × (contains pref ip && not (allocated t ip) ≡ false))
      → DeleteEnds t pref (record t { tree = u }, true)

removed_bits :
    (in_net old in_pref new pref : Bool)
    → pref ≡ in_net && in_pref
    → (new ≡ old && not in_pref) × (in_pref && not old ≡ false)
    → (in_net && new ≡ (in_net && old) && not pref) × (pref && not (in_net && old) ≡ false)
removed_bits in_net old in_pref new pref e h = ground arith

within-family :
    {t : IpTree} (pref : Prefix) → IsNet t → within t pref ≡ true → pref.addr.family ≡ t.version
within-family {t} pref v i =
    sym (same_family-eq t.net.addr.family pref.addr.family (ground arith)) ∙ v.family_eq

module _ {t : IpTree} (v : IsNet t) {pref : Prefix} (p : IsPrefix pref) where
  of_within : within t pref ≡ true → IsWithin t pref
  of_within i = record { pref_ok = p; same = within-family pref v i; inside = i }

  tree_cases :
      (s : IsWithin t pref) (r : UintTree × Bool)
      → DeleteCases (word_bits t.version) t.tree (host t pref) (host_bits t pref) r
      → UintTree.delete (word_bits t.version) t.tree (host t pref) (host_bits t pref) ≡ r
      → DeleteEnds t pref (delete_result t r)
  tree_cases s r (absent _) e = kept
  tree_cases s r (removed root _ i) e =
      removed_net (record t.tree { root = root })
        (with_root-IsNet v root (rw e at (delete-IsValid v.valid (host-IsSubnet v s))))
        (λ ip.
          let k : ℕ = ip.value % 2 ^ t.tree.max_pref_bits in
          removed_bits (contains t.net ip) (covered t.tree k)
            (in_subnet t.tree (host t pref) (host_bits t pref) k) _ _ (contains-eq v s ip)
            (removed-covered v.valid (host-IsSubnet v s) i k (host-le v ip)))

  delete-ends : DeleteEnds t pref (delete t pref)
  unfolding delete
  delete-ends = elim (Bool-cases (within t pref)) [
    | inl i ↦
        rw i
          (tree_cases (of_within i) _ (delete-cases v.valid (host-IsSubnet v (of_within i))) refl)
    | inr i ↦ rw i kept
  ]

  all_cases :
      (r : IpTree × Bool)
      → DeleteEnds t pref r
      → IsNet r.0
        × ((ip : Addr) → allocated r.0 ip ≡ allocated t ip && not (r.1 && contains pref ip))
        × (r.1 ≡ true → (ip : Addr) → contains pref ip ≡ true → allocated t ip ≡ true)
  all_cases r kept = (v, λ ip. ground arith, λ q. cc)
  all_cases r (removed_net u n all) =
      (n, λ ip. (all ip).0, λ _ ip c. let q = (all ip).1 in ground arith)

  -- `Delete` keeps the network valid, with whatever result.
  pub delete-IsNet : IsNet (delete t pref).0
  delete-IsNet = (all_cases (delete t pref) delete-ends).0

  -- In a valid network, the addresses assigned after `Delete` are those assigned before without, if
  -- it returned true, those of the prefix.
  pub allocated-delete :
      (ip : Addr)
      → allocated (delete t pref).0 ip
        ≡ allocated t ip && not ((delete t pref).1 && contains pref ip)
  allocated-delete = (all_cases (delete t pref) delete-ends).1

  -- In a valid network, a `Delete` that returns true was of a prefix all of whose addresses were
  -- assigned.
  pub delete_was_allocated :
      (delete t pref).1 ≡ true → (ip : Addr) → contains pref ip ≡ true → allocated t ip ≡ true
  delete_was_allocated = (all_cases (delete t pref) delete-ends).2

  undo_tree :
      (s : IsWithin t pref) (r : UintTree × Bool)
      → PutCases (word_bits t.version) t.tree (host t pref) (host_bits t pref) r
      → UintTree.put (word_bits t.version) t.tree (host t pref) (host_bits t pref) ≡ r
      → (put_result t r).1 ≡ ok tt
      → delete (put_result t r).0 pref ≡ (t, true)
  unfolding delete
  undo_tree s r (refused _ _ _ _) e h = cc
  undo_tree s r (added root _) e h =
      let back : UintTree.delete (word_bits t.version) (record t.tree { root = root }) (host t pref)
            (host_bits t pref)
          ≡ (t.tree, true) =
        rw e at (delete-put v.valid (host-IsSubnet v s) (rw e refl)) in
      rw (s.inside, back)

  -- In a valid network, `Delete` of a prefix right after a `Put` of it that succeeded returns true
  -- and gives back the very network from before the `Put`.
  pub delete-put_net : (put t pref).1 ≡ ok tt → delete (put t pref).0 pref ≡ (t, true)
  delete-put_net h = elim (Bool-cases (within t pref)) [
    | inl i ↦
        let s : IsWithin t pref = of_within i in
        let e = put-within v s in
        rw e (undo_tree s _ (put-cases v.valid (host-IsSubnet v s)) refl (rw e at h))
    | inr i ↦ absurd (put-without t pref i h)
  ]
