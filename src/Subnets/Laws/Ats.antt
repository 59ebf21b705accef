-- ===== src/Subnets/Laws/Ats.antt =====
-- `Delete` on one tree of the service.
use tanlnode.Base.{
  ℕ, zero, suc, ◌≡◌, refl, sym, ap, Bool, true, false, not, ◌&&◌, ◌||◌, [], ◌∷◌, arith, inl, inr,
  Bool-cases,
}
use tanlnode.Netip.{Addr, Prefix, IsPrefix, contains, same_family}
use tanlnode.IpTree
use tanlnode.IpTree.{IpTree, Result, ok, err, panic}
use tanlnode.IpTree.Spec.{IsNet, allocated}
use tanlnode.IpTree.Laws.Deletes.{delete-put_net, delete-IsNet, allocated-delete}
use tanlnode.IpTree.Laws.Puts.{PutEnds, outside, clash, assigned, put-ends}
use tanlnode.IpTree.Bridge.{same_family-eq}
use tanlnode.Subnets.{delete_at, Service, reserve, passed, tried}
use tanlnode.Subnets.Spec.{in_use, IsService}

-- `Delete` on the tree that `Reserve` returned gives back the service from before.
abbrev pub Undoes : Service → Prefix → Service × Result ℕ → Type 0
Undoes s pref (s', ok i) = delete_at s' i pref ≡ s
Undoes s pref (s', err e) = Unit
Undoes s pref (s', panic) = Unit

pass-Undoes :
    (t : IpTree) (s : Service) (pref : Prefix) (r : Service × Result ℕ)
    → Undoes s pref r
    → Undoes (t ∷ s) pref (passed t r)
unfolding delete_at
pass-Undoes t s pref (s', ok i) u = ap (λ (ts : Service). t ∷ ts) u
pass-Undoes t s pref (s', err e) u = tt
pass-Undoes t s pref (s', panic) u = tt

try-Undoes :
    {t : IpTree} (v : IsNet t) (s : Service) {pref : Prefix} (p : IsPrefix pref)
    (rest : Service × Result ℕ)
    → Undoes s pref rest
    → (r : IpTree × Result (Unit {0})) → PutEnds t pref r
    → IpTree.put t pref ≡ r
    → Undoes (t ∷ s) pref (tried s rest r)
unfolding delete_at
try-Undoes {t} v s {pref} p rest u r (outside i) e = pass-Undoes t s pref rest u
try-Undoes {t} v s {pref} p rest u r (clash i ip c a) e = tt
try-Undoes {t} v s {pref} p rest u r (assigned i u' n all) e =
    let back : IpTree.delete (record t { tree = u' }) pref ≡ (t, true) =
      rw e at (delete-put_net v p (rw e refl)) in
    ap (λ (r : IpTree × Bool). r.0 ∷ s) back

pub reserve-Undoes :
    (s : Service) (pref : Prefix) → IsService s → IsPrefix pref → Undoes s pref (reserve s pref)
unfolding reserve
reserve-Undoes [] pref v p = tt
reserve-Undoes (t ∷ s) pref (v, vs) p =
    let rest = reserve-Undoes s pref vs p in
    elim (Bool-cases (same_family t.version pref.addr.family)) [
      | inl e ↦ rw e (
          try-Undoes v s p (reserve s pref) rest (IpTree.put t pref)
            (put-ends v p (sym (same_family-eq t.version pref.addr.family e))) refl)
      | inr e ↦ rw e (pass-Undoes t s pref (reserve s pref) rest)
    ]

-- On one tree `Delete` keeps every network valid; it frees addresses of the prefix only, and
-- assigns none.
pub record Frees (s : Service) (pref : Prefix) (s' : Service) : Type 0 where
  pub valid : IsService s'
  pub keeps : (ip : Addr) → in_use s ip && not (contains pref ip) && not (in_use s' ip) ≡ false
  pub adds_none : (ip : Addr) → in_use s' ip && not (in_use s ip) ≡ false

Frees-nothing : (s : Service) (pref : Prefix) → IsService s → Frees s pref s
Frees-nothing s pref v = record {
  valid = v;
  keeps = λ ip. ground arith;
  adds_none = λ ip. ground arith;
}

keeps_bits :
    (a u c a' d : Bool)
    → a' ≡ a && not (d && c)
    → ((a || u) && not c && not (a' || u) ≡ false) × ((a' || u) && not (a || u) ≡ false)
keeps_bits a u c a' d e = ground arith

keeps_more :
    (a u c u' : Bool)
    → u && not c && not u' ≡ false
    → u' && not u ≡ false
    → ((a || u) && not c && not (a || u') ≡ false) × ((a || u') && not (a || u) ≡ false)
keeps_more a u c u' e f = ground arith

pub delete_at-Frees :
    (s : Service) (i : ℕ) {pref : Prefix}
    → IsService s
    → IsPrefix pref
    → Frees s pref (delete_at s i pref)
unfolding delete_at
delete_at-Frees [] i {pref} v p = Frees-nothing [] pref v
delete_at-Frees (t ∷ s) zero {pref} (v, vs) p =
    let bits = λ (ip : Addr).
      keeps_bits (allocated t ip) (in_use s ip) (contains pref ip) _ _ (allocated-delete v p ip) in
    record {
      valid = (delete-IsNet v p, vs);
      keeps = λ ip. (bits ip).0;
      adds_none = λ ip. (bits ip).1;
    }
delete_at-Frees (t ∷ s) (suc i) {pref} (v, vs) p =
    let f = delete_at-Frees s i vs p in
    let bits = λ (ip : Addr).
      keeps_more (allocated t ip) (in_use s ip) (contains pref ip) (in_use (delete_at s i pref) ip)
        (f.keeps ip) (f.adds_none ip) in
    record { valid = (v, f.valid); keeps = λ ip. (bits ip).0; adds_none = λ ip. (bits ip).1 }
