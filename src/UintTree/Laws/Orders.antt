-- ===== src/UintTree/Laws/Orders.antt =====
-- Two subnets that are put one after the other could be put in either order, and `Delete` of the
-- first leaves what putting the second alone gives.
use native.Mathlib.Nat.{mod-lt}
use mathlib.Core.Path.{subst}
use tanlnode.Base.{Bool, ℕ, ◌≡◌, refl, sym, ap, ◌∙◌, true, Option, none, some}
use tanlnode.Base.Bits.{pow_pos}
use tanlnode.UintTree.{Node, UintTree, put, delete, with_root, size_of_net}
use tanlnode.UintTree.Spec.{IsValid, IsSubnet, prefix_bits}
use tanlnode.UintTree.Trie.{insert}
use tanlnode.UintTree.Commute.{remove-insert-insert}
use tanlnode.UintTree.Laws.{put-eq-insert, delete-eq-remove}
use tanlnode.UintTree.Laws.Puts.{put-IsValid, bits_fit}

-- What a `Put` that returned true did.
data PutDid (w : ℕ) (t : UintTree) (addr prefbits : ℕ) : UintTree → Type 0 where
  did :
      (root : Node)
      → insert w (size_of_net w t prefbits) t.root (prefix_bits t.max_pref_bits prefbits addr)
        ≡ some root
      → PutDid w t addr prefbits (record t { root = root })

did_root :
    (w : ℕ) (t : UintTree) (addr prefbits : ℕ) (o : Option Node) (u : UintTree)
    → insert w (size_of_net w t prefbits) t.root (prefix_bits t.max_pref_bits prefbits addr) ≡ o
    → with_root t o ≡ (u, true)
    → PutDid w t addr prefbits u
unfolding with_root
did_root w t addr prefbits none u e h = cc
did_root w t addr prefbits (some root) u e h =
    rw (← ap (λ (r : UintTree × Bool). r.0) h) (did root e)

did_max :
    {w : ℕ} {t : UintTree} {addr prefbits : ℕ} (u : UintTree)
    → PutDid w t addr prefbits u
    → u.max_uint ≡ t.max_uint
did_max u (did root e) = refl

-- `Put` keeps the bound of the addresses.
pub put_max :
    {w : ℕ} {t : UintTree} {addr prefbits : ℕ} (v : IsValid w t) (s : IsSubnet t addr prefbits)
    (u : UintTree)
    → put w t addr prefbits ≡ (u, true)
    → u.max_uint ≡ t.max_uint
put_max {w} {t} {addr} {prefbits} v s u h =
    did_max u (did_root w t addr prefbits _ u refl (sym (put-eq-insert v s) ∙ h))

module _ {w : ℕ} {t : UintTree} (v : IsValid w t) {a1 p1 a2 p2 : ℕ} (s1 : IsSubnet t a1 p1)
    (s2 : IsSubnet t a2 p2) where
  after_both :
      (t1 t2 : UintTree)
      → IsValid w t1
      → IsValid w t2
      → PutDid w t a1 p1 t1
      → PutDid w t1 a2 p2 t2
      → (t3 : UintTree) × (put w t a2 p2 ≡ (t3, true))
        × (delete w t2 a1 p1 ≡ (t3, true))
        × (IsValid w t3 → put w t3 a1 p1 ≡ (t2, true))
  unfolding with_root
  after_both t1 t2 v1 v2 (did root1 e1) (did root2 e2) =
      let (root3, i3, r3, o3) =
        remove-insert-insert w (size_of_net w t p1) (size_of_net w t p2) (mod-lt _ (pow_pos w))
          t.max_pref_bits t.root (prefix_bits t.max_pref_bits p1 a1)
          (prefix_bits t.max_pref_bits p2 a2) (bits_fit v s1) v.counted e1 e2 in
      let t3 = record t { root = root3 } in
      (
        t3,
        put-eq-insert v s2 ∙ rw i3 refl,
        delete-eq-remove {t = record t { root = root2 }} v2
              (record { addr_le = s1.addr_le; bits_le = s1.bits_le })
            ∙ rw r3 refl,
        λ v3.
            put-eq-insert {t = t3} v3 (record { addr_le = s1.addr_le; bits_le = s1.bits_le })
            ∙ rw o3 refl,
      )

  after_first :
      (t1 t2 : UintTree)
      → IsValid w t1
      → PutDid w t a1 p1 t1
      → put w t1 a2 p2 ≡ (t2, true)
      → (t3 : UintTree) × (put w t a2 p2 ≡ (t3, true))
        × (delete w t2 a1 p1 ≡ (t3, true))
        × (put w t3 a1 p1 ≡ (t2, true))
  after_first t1 t2 v1 (did root1 e1) g =
      let then2 : IsSubnet (record t { root = root1 }) a2 p2 = record {
        addr_le = s2.addr_le;
        bits_le = s2.bits_le;
      } in
      let v2 : IsValid w t2 =
        subst (λ (r : UintTree × Bool). IsValid w r.0) g (put-IsValid v1 then2) in
      let (t3, e3, r3, o3) =
        after_both (record t { root = root1 }) t2 v1 v2 (did root1 e1)
          (did_root w (record t { root = root1 }) a2 p2 _ t2 refl
            (sym (put-eq-insert v1 then2) ∙ g)) in
      (t3, e3, r3, o3 (subst (λ (r : UintTree × Bool). IsValid w r.0) e3 (put-IsValid v s2)))

  -- If in a valid tree two subnets can be put one after the other, then the second can be put first,
  -- then the first, with the same tree at the end; and `Delete` of the first after both were put
  -- leaves what putting the second alone gives.
  pub put-order :
      (t1 t2 : UintTree)
      → put w t a1 p1 ≡ (t1, true)
      → put w t1 a2 p2 ≡ (t2, true)
      → (t3 : UintTree) × (put w t a2 p2 ≡ (t3, true))
        × (delete w t2 a1 p1 ≡ (t3, true))
        × (put w t3 a1 p1 ≡ (t2, true))
  put-order t1 t2 h g =
      after_first t1 t2 (subst (λ (r : UintTree × Bool). IsValid w r.0) h (put-IsValid v s1))
        (did_root w t a1 p1 _ t1 refl (sym (put-eq-insert v s1) ∙ h)) g
