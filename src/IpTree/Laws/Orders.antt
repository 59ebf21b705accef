-- ===== src/IpTree/Laws/Orders.antt =====
-- Two prefixes that are put one after the other could be put in either order.
use tanlnode.Base.{bit_and, ℕ, ◌≡◌, refl, sym, ap, ◌∙◌, Bool, true, false, inl, inr, Bool-cases}
use tanlnode.Netip.{Prefix, IsPrefix}
use tanlnode.UintTree
use tanlnode.UintTree.{UintTree}
use tanlnode.UintTree.Laws.Orders.{put-order, put_max}
use tanlnode.IpTree.{
  word, IpTree, Result, ok, within, host, host_bits, word_bits, put, put_result, delete,
  delete_result,
}
use tanlnode.IpTree.Spec.{IsNet}
use tanlnode.IpTree.Bridge.{IsWithin, host-IsSubnet}
use tanlnode.IpTree.Laws.Puts.{same_family-eq_true, put-within, put-without}

-- What a `Put` that succeeded did.
data PutDid (t : IpTree) (pref : Prefix) : IpTree → Type 0 where
  did :
      (u : UintTree)
      → IsWithin t pref
      → UintTree.put (word_bits t.version) t.tree (host t pref) (host_bits t pref) ≡ (u, true)
      → PutDid t pref (record t { tree = u })

did_result :
    {t : IpTree} {pref : Prefix} (s : IsWithin t pref) (r : UintTree × Bool) (t' : IpTree)
    → UintTree.put (word_bits t.version) t.tree (host t pref) (host_bits t pref) ≡ r
    → put_result t r ≡ (t', ok tt)
    → PutDid t pref t'
did_result s (u, true) t' e h = rw (← ap (λ (r : IpTree × Result (Unit {0})). r.0) h) (did u s e)
did_result s (u, false) t' e h = cc

put-did :
    {t : IpTree} (v : IsNet t) {pref : Prefix} (p : IsPrefix pref) (t' : IpTree)
    → pref.addr.family ≡ t.version
    → put t pref ≡ (t', ok tt)
    → PutDid t pref t'
put-did {t} v {pref} p t' same h = elim (Bool-cases (within t pref)) [
  | inl i ↦
      let s : IsWithin t pref = record { pref_ok = p; same = same; inside = i } in
      did_result s _ t' refl (sym (put-within v s) ∙ h)
  | inr i ↦ absurd (put-without t pref i (ap (λ (r : IpTree × Result (Unit {0})). r.1) h))
]

host_max :
    (t : IpTree) (u : UintTree) (pref : Prefix)
    → u.max_uint ≡ t.tree.max_uint
    → host (record t { tree = u }) pref ≡ host t pref
host_max t u pref e = ap (λ (m : ℕ). bit_and (word t.version pref.addr.value) m) e

-- On a tree with the same bounds the operations are those of the embedded tree.
put-with :
    {t : IpTree} (u : UintTree) (pref : Prefix)
    → IsWithin t pref
    → u.max_uint ≡ t.tree.max_uint
    → put (record t { tree = u }) pref
      ≡ put_result
          (record t { tree = u })
          (UintTree.put (word_bits t.version) u (host t pref) (host_bits t pref))
unfolding put
put-with {t} u pref s e = rw (same_family-eq_true s.same, s.inside, host_max t u pref e) refl

delete-with :
    {t : IpTree} (u : UintTree) (pref : Prefix)
    → IsWithin t pref
    → u.max_uint ≡ t.tree.max_uint
    → delete (record t { tree = u }) pref
      ≡ delete_result
          (record t { tree = u })
          (UintTree.delete (word_bits t.version) u (host t pref) (host_bits t pref))
unfolding delete
delete-with {t} u pref s e = rw (s.inside, host_max t u pref e) refl

module _ {t : IpTree} (v : IsNet t) {p1 p2 : Prefix} where
  after_both :
      (t1 t2 : IpTree)
      → IsNet t1
      → PutDid t p1 t1
      → PutDid t1 p2 t2
      → (t3 : IpTree) × (put t p2 ≡ (t3, ok tt))
        × (delete t2 p1 ≡ (t3, true))
        × (put t3 p1 ≡ (t2, ok tt))
  after_both t1 t2 v1 (did u1 w1 e1) (did u2 w2 e2) =
      let w2' : IsWithin t p2 = record {
        pref_ok = w2.pref_ok;
        same = w2.same;
        inside = w2.inside;
      } in
      let s1 = host-IsSubnet v w1 in
      let s2 = host-IsSubnet v w2' in
      let m1 = put_max v.valid s1 u1 e1 in
      let then2 = rw (host_max t u1 p2 m1) at e2 in
      let (u3, e3, d3, o3) = put-order v.valid s1 s2 u1 u2 e1 then2 in
      let m2 = put_max v1.valid (host-IsSubnet v1 w2) u2 e2 ∙ m1 in
      let m3 = put_max v.valid s2 u3 e3 in
      (
        record t { tree = u3 },
        put-within v w2' ∙ ap (put_result t) e3,
        delete-with u2 p1 w1 m2 ∙ ap (delete_result (record t { tree = u2 })) d3,
        put-with u3 p1 w1 m3 ∙ ap (put_result (record t { tree = u3 })) o3,
      )

  after_first :
      IsPrefix p2
      → p2.addr.family ≡ t.version
      → (t1 t2 : IpTree) → IsNet t1
      → PutDid t p1 t1
      → put t1 p2 ≡ (t2, ok tt)
      → (t3 : IpTree) × (put t p2 ≡ (t3, ok tt))
        × (delete t2 p1 ≡ (t3, true))
        × (put t3 p1 ≡ (t2, ok tt))
  after_first q2 f2 t1 t2 v1 (did u1 w1 e1) g =
      after_both (record t { tree = u1 }) t2 v1 (did u1 w1 e1) (put-did v1 q2 t2 f2 g)

  -- If in a valid network two prefixes can be put one after the other, then the second can be put
  -- first, then the first, with the same network at the end; and `Delete` of the first after both
  -- were put leaves what putting the second alone gives.
  pub put-order_net :
      IsPrefix p1
      → IsPrefix p2
      → p1.addr.family ≡ t.version
      → p2.addr.family ≡ t.version
      → (t1 t2 : IpTree) → IsNet t1
      → put t p1 ≡ (t1, ok tt)
      → put t1 p2 ≡ (t2, ok tt)
      → (t3 : IpTree) × (put t p2 ≡ (t3, ok tt))
        × (delete t2 p1 ≡ (t3, true))
        × (put t3 p1 ≡ (t2, ok tt))
  put-order_net q1 q2 f1 f2 t1 t2 v1 h g = after_first q2 f2 t1 t2 v1 (put-did v q1 t1 f1 h) g
