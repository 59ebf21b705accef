-- ===== src/Subnets/Laws/Orders.antt =====
-- Prefixes that are reserved one after the other can be given back in any order.
use mathlib.Core.Path.{subst}
use tanlnode.Base.{
  ltb, ℕ, suc, ◌≡◌, refl, sym, ap, ◌∙◌, Bool, true, false, not, ◌&&◌, [], ◌∷◌, inl, inr, Bool-cases,
}
use tanlnode.Netip.{Family, contains, Prefix, IsPrefix, same_family}
use tanlnode.IpTree
use tanlnode.IpTree.{IpTree, Result, ok, err, panic, out_of_net, within}
use tanlnode.IpTree.Spec.{IsNet}
use tanlnode.IpTree.Bridge.{same_family-eq, same_family_self}
use tanlnode.IpTree.Laws.Puts.{PutEnds, outside, clash, assigned, put-ends, put-IsNet}
use tanlnode.IpTree.Laws.Deletes.{delete-put_net}
use tanlnode.IpTree.Laws.Orders.{put-order_net}
use tanlnode.Subnets.{Service, reserve, passed, tried, delete_at}
use tanlnode.Subnets.Laws.Nets.{put-net, put-version}
use tanlnode.Subnets.Spec.{IsService, fits}

-- `Reserve` of the prefix put it in the i-th tree.
pub data ReservedAt (pref : Prefix) : Service → Service → ℕ → Type 0 where
  here :
      (t t' : IpTree) (s : Service)
      → same_family t.version pref.addr.family ≡ true
      → IpTree.put t pref ≡ (t', ok tt)
      → IsNet t'
      → ReservedAt pref (t ∷ s) (t' ∷ s) 0
  there :
      (t : IpTree) (s s' : Service) (i : ℕ)
      → fits t pref ≡ false
      → ReservedAt pref s s' i
      → ReservedAt pref (t ∷ s) (t ∷ s') (suc i)

abbrev pub IsAt : Prefix → Service → Service × Result ℕ → Type 0
IsAt pref s (s', ok i) = ReservedAt pref s s' i
IsAt pref s (s', err e) = Unit
IsAt pref s (s', panic) = Unit

pass-IsAt :
    (t : IpTree) (s : Service) (pref : Prefix)
    → fits t pref ≡ false
    → (r : Service × Result ℕ) → IsAt pref s r
    → IsAt pref (t ∷ s) (passed t r)
pass-IsAt t s pref f (s', ok i) a = there t s s' i f a
pass-IsAt t s pref f (s', err e) a = tt
pass-IsAt t s pref f (s', panic) a = tt

try-IsAt :
    (t : IpTree) (s : Service) (pref : Prefix)
    → same_family t.version pref.addr.family ≡ true
    → (rest : Service × Result ℕ) → IsAt pref s rest
    → (r : IpTree × Result (Unit {0})) → PutEnds t pref r
    → IpTree.put t pref ≡ r
    → IsAt pref (t ∷ s) (tried s rest r)
try-IsAt t s pref same rest a r (outside i) e = pass-IsAt t s pref (rw (same, i) refl) rest a
try-IsAt t s pref same rest a r (clash i ip c u) e = tt
try-IsAt t s pref same rest a r (assigned i u n all) e = here t (record t { tree = u }) s same e n

pub reserve-IsAt :
    (s : Service) (pref : Prefix) → IsService s → IsPrefix pref → IsAt pref s (reserve s pref)
unfolding reserve
reserve-IsAt [] pref v p = tt
reserve-IsAt (t ∷ s) pref (v, vs) p =
    let rest = reserve-IsAt s pref vs p in
    elim (Bool-cases (same_family t.version pref.addr.family)) [
      | inl e ↦ rw e (
          try-IsAt t s pref e (reserve s pref) rest (IpTree.put t pref)
            (put-ends v p (sym (same_family-eq t.version pref.addr.family e))) refl)
      | inr e ↦ rw e (pass-IsAt t s pref (rw e refl) (reserve s pref) rest)
    ]

pub reserved-IsService :
    {pref : Prefix} (s s' : Service) (i : ℕ) → ReservedAt pref s s' i → IsService s → IsService s'
reserved-IsService s s' i (here t t' s0 f e n) (v, vs) = (n, vs)
reserved-IsService s s' i (there t s0 s1 j f r) (v, vs) = (v, reserved-IsService s0 s1 j r vs)

-- `Delete` on that tree gives back the service from before.
pub undo-reserved :
    {pref : Prefix} (p : IsPrefix pref) (s s' : Service) (i : ℕ)
    → ReservedAt pref s s' i
    → IsService s
    → delete_at s' i pref ≡ s
unfolding delete_at
undo-reserved {pref} p s s' i (here t t' s0 f e n) (v, vs) =
    let back : IpTree.delete t' pref ≡ (t, true) = rw e at (delete-put_net v p (rw e refl)) in
    ap (λ (r : IpTree × Bool). r.0 ∷ s0) back
undo-reserved p s s' i (there t s0 s1 j f r) (v, vs) =
    ap (λ (ts : Service). t ∷ ts) (undo-reserved p s0 s1 j r vs)

-- The second of two prefixes that were reserved could be reserved first, in the same tree, and then
-- the first; `Delete` of the first leaves what reserving the second alone gives.
pub record Swapped (p1 p2 : Prefix) (s s2 : Service) (i j : ℕ) : Type 0 where
  pub alone : Service
  pub second : ReservedAt p2 s alone j
  pub first_gone : delete_at s2 i p1 ≡ alone
  pub then_first : ReservedAt p1 alone s2 i

fits-same :
    (t t' : IpTree) (pref : Prefix)
    → t'.net ≡ t.net
    → t'.version ≡ t.version
    → fits t' pref ≡ fits t pref
fits-same t t' pref n k =
    ap
      (λ (net : Prefix).
        same_family t'.version pref.addr.family
        && (contains net pref.addr && not (ltb pref.bits net.bits)))
      n
    ∙ ap (λ (f : Family). same_family f pref.addr.family && within t pref) k

-- The network and the family of a tree in which a prefix was put.
same_net :
    (t : IpTree) {t' : IpTree} (pref : Prefix) → IpTree.put t pref ≡ (t', ok tt) → t'.net ≡ t.net
same_net t {t'} pref e = sym (ap (λ (r : IpTree × Result (Unit {0})). r.0.net) e) ∙ put-net t pref

same_version :
    (t : IpTree) {t' : IpTree} (pref : Prefix)
    → IpTree.put t pref ≡ (t', ok tt)
    → t'.version ≡ t.version
same_version t {t'} pref e =
    sym (ap (λ (r : IpTree × Result (Unit {0})). r.0.version) e) ∙ put-version t pref

module _ {p1 p2 : Prefix} (q1 : IsPrefix p1) (q2 : IsPrefix p2) where
  same_tree :
      (t t1 t2 : IpTree) (s : Service)
      → IsNet t
      → IsNet t1
      → same_family t.version p1.addr.family ≡ true
      → same_family t1.version p2.addr.family ≡ true
      → IpTree.put t p1 ≡ (t1, ok tt)
      → IpTree.put t1 p2 ≡ (t2, ok tt)
      → IsNet t2
      → Swapped p1 p2 (t ∷ s) (t2 ∷ s) 0 0
  unfolding delete_at
  same_tree t t1 t2 s v v1 f1 f2 e1 e2 v2 =
      let fam1 : p1.addr.family ≡ t.version = sym (same_family-eq t.version p1.addr.family f1) in
      let fam2 : p2.addr.family ≡ t.version =
        sym (same_family-eq t1.version p2.addr.family f2) ∙ same_version t p1 e1 in
      let (t3, e3, d3, o3) = put-order_net v q1 q2 fam1 fam2 t1 t2 v1 e1 e2 in
      let v3 : IsNet t3 =
        subst (λ (r : IpTree × Result (Unit {0})). IsNet r.0) e3 (put-IsNet v q2 fam2) in
      record {
        alone = t3 ∷ s;
        second = here t t3 s (rw fam2 (same_family_self t.version)) e3 v3;
        first_gone = ap (λ (r : IpTree × Bool). r.0 ∷ s) d3;
        then_first =
            here t3 t2 s (rw (fam1, same_version t p2 e3) (same_family_self t.version)) o3 v2;
      }

  pub reserve-order :
      (s s1 s2 : Service) (i j : ℕ)
      → ReservedAt p1 s s1 i
      → ReservedAt p2 s1 s2 j
      → IsService s
      → Swapped p1 p2 s s2 i j
  unfolding delete_at
  reserve-order s s1 s2 i j (here t t1 s0 f1 e1 n1) (here _ t2 _ f2 e2 n2) (v, vs) =
      same_tree t t1 t2 s0 v n1 f1 f2 e1 e2 n2
  reserve-order s s1 s2 i j (here t t1 s0 f1 e1 n1) (there _ _ s3 k f2 r2) (v, vs) =
      let back : IpTree.delete t1 p1 ≡ (t, true) = rw e1 at (delete-put_net v q1 (rw e1 refl)) in
      record {
        alone = t ∷ s3;
        second =
            there t s0 s3 k (sym (fits-same t t1 p2 (same_net t p1 e1) (same_version t p1 e1)) ∙ f2)
              r2;
        first_gone = ap (λ (r : IpTree × Bool). r.0 ∷ s3) back;
        then_first = here t t1 s3 f1 e1 n1;
      }
  reserve-order s s1 s2 i j (there t s0 s3 k f1 r1) (here _ t2 _ f2 e2 n2) (v, vs) = record {
    alone = t2 ∷ s0;
    second = here t t2 s0 f2 e2 n2;
    first_gone = ap (λ (ts : Service). t2 ∷ ts) (undo-reserved q1 s0 s3 k r1 vs);
    then_first =
        there t2 s0 s3 k (fits-same t t2 p1 (same_net t p2 e2) (same_version t p2 e2) ∙ f1) r1;
  }
  reserve-order s s1 s2 i j (there t s0 s3 k f1 r1) (there _ _ s4 m f2 r2) (v, vs) =
      let o = reserve-order s0 s3 s4 k m r1 r2 vs in
      record {
        alone = t ∷ o.alone;
        second = there t s0 o.alone m f2 o.second;
        first_gone = ap (λ (ts : Service). t ∷ ts) o.first_gone;
        then_first = there t o.alone s4 k f1 o.then_first;
      }
