-- ===== src/Subnets/Laws/Reserves.antt =====
-- `Reserve` and `Delete` over all networks.
use tanlnode.Base.{
  ℕ, suc, ◌≡◌, ◌≢◌, ◌↔◌, refl, sym, true, false, ◌&&◌, ◌||◌, arith, inl, inr, Bool-cases, [], ◌∷◌,
}
use tanlnode.Netip.{Addr, Prefix, IsPrefix, contains, same_family}
use tanlnode.IpTree
use tanlnode.IpTree.{IpTree, Result, ok, err, panic, out_of_net, overlaps, within}
use tanlnode.IpTree.Spec.{IsNet, is_ok}
use tanlnode.IpTree.Bridge.{same_family-eq}
use tanlnode.IpTree.Laws.Puts.{PutEnds, outside, clash, assigned, put-ends}
use tanlnode.IpTree.Laws.Deletes.{delete-put_net}
use tanlnode.Subnets.{Service, passed, tried, reserve, delete}
use tanlnode.Subnets.Spec.{in_use, IsService, fits, any_fits}

-- How a call ended.
pub data Reserves (s : Service) (pref : Prefix) : Service × Result ℕ → Type 0 where
  nowhere : any_fits s pref ≡ false → Reserves s pref (s, err out_of_net)
  taken :
      any_fits s pref ≡ true
      → (ip : Addr) → contains pref ip ≡ true
      → in_use s ip ≡ true
      → Reserves s pref (s, err overlaps)
  reserved_at :
      any_fits s pref ≡ true
      → (s' : Service) (i : ℕ) → IsService s'
      → ((ip : Addr) → in_use s' ip ≡ in_use s ip || contains pref ip)
      → delete s' pref ≡ (s, true)
      → ((q : Prefix) → any_fits s' q ≡ any_fits s q)
      → Reserves s pref (s', ok i)

-- A network that the prefix does not fit.
module _ {t : IpTree} (v : IsNet t) (pref : Prefix) (f : fits t pref ≡ false) where
  not_within : within t pref ≡ false
  not_within =
      let e : same_family t.net.addr.family pref.addr.family
          ≡ same_family t.version pref.addr.family =
        rw v.family_eq refl in
      ground (arith, e, f)

  delete_other : IpTree.delete t pref ≡ (t, false)
  unfolding IpTree.delete
  delete_other = rw not_within refl

  -- It is passed over.
  pass :
      {s : Service} (r : Service × Result ℕ)
      → Reserves s pref r
      → Reserves (t ∷ s) pref (passed t r)
  unfolding delete
  pass r (nowhere a) = nowhere (rw (f, a) refl)
  pass r (taken a ip c u) = taken (rw (f, a) refl) ip c (rw u (ground arith))
  pass r (reserved_at a s' i v' all back nets) =
      reserved_at (rw (f, a) refl) (t ∷ s') (suc i) (v, v') (λ ip. rw (all ip) (ground arith))
        (rw (delete_other, back) refl) (λ q. rw (nets q) refl)

module _ {t : IpTree} (v : IsNet t) {s : Service} (vs : IsService s) {pref : Prefix}
    (p : IsPrefix pref) (same : same_family t.version pref.addr.family ≡ true) where
  -- After the `Put` of a network of its family.
  after_put :
      (rest : Service × Result ℕ)
      → Reserves s pref rest
      → (r : IpTree × Result (Unit {0})) → PutEnds t pref r
      → IpTree.put t pref ≡ r
      → Reserves (t ∷ s) pref (tried s rest r)
  unfolding delete
  after_put rest q r (outside i) e = pass v pref (rw (same, i) refl) rest q
  after_put rest q r (clash i ip c a) e = taken (rw (same, i) refl) ip c (rw a refl)
  after_put rest q r (assigned i u n all) e =
      let back : IpTree.delete (record t { tree = u }) pref ≡ (t, true) =
        rw e at (delete-put_net v p (rw e refl)) in
      reserved_at (rw (same, i) refl) (record t { tree = u } ∷ s) 0 (n, vs)
        (λ ip. rw ((all ip).0) (ground arith)) (rw back refl) (λ q. refl)

pub reserves :
    (s : Service) (pref : Prefix) → IsService s → IsPrefix pref → Reserves s pref (reserve s pref)
unfolding reserve
reserves [] pref v p = nowhere refl
reserves (t ∷ s) pref (v, vs) p = elim (Bool-cases (same_family t.version pref.addr.family)) [
  | inl e ↦ rw e (
      after_put v vs p e (reserve s pref) (reserves s pref vs p) (IpTree.put t pref)
        (put-ends v p (sym (same_family-eq t.version pref.addr.family e))) refl)
  | inr e ↦ rw e (pass v pref (rw e refl) (reserve s pref) (reserves s pref vs p))
]

module _ (s : Service) (v : IsService s) {pref : Prefix} (p : IsPrefix pref) where
  in_use_ends :
      (r : Service × Result ℕ)
      → Reserves s pref r
      → (ip : Addr) → in_use r.0 ip ≡ in_use s ip || is_ok r.1 && contains pref ip
  in_use_ends r (nowhere _) ip = ground arith
  in_use_ends r (taken _ _ _ _) ip = ground arith
  in_use_ends r (reserved_at _ s' i _ all _ _) ip = all ip

  -- In a valid service, the addresses in use after `Reserve` of a valid prefix are those in use
  -- before and, if it succeeded, those of the prefix.
  pub in_use-reserve :
      (ip : Addr)
      → in_use (reserve s pref).0 ip ≡ in_use s ip || is_ok (reserve s pref).1 && contains pref ip
  in_use-reserve = in_use_ends (reserve s pref) (reserves s pref v p)

  error_ends :
      (r : Service × Result ℕ)
      → Reserves s pref r
      → ((r.1 ≡ err out_of_net) ↔ (any_fits s pref ≡ false))
        × ((r.1 ≡ err overlaps) → (ip : Addr) × (contains pref ip ≡ true) × (in_use s ip ≡ true))
        × ((is_ok r.1 ≡ false) → r.0 ≡ s)
        × (r.1 ≢ panic)
  error_ends r (nowhere a) = ((λ _. a, λ _. refl), λ q. cc, λ _. refl, λ q. cc)
  error_ends r (taken a ip c u) =
      ((λ q. cc, λ h. cc (rw a at h)), λ _. (ip, c, u), λ _. refl, λ q. cc)
  error_ends r (reserved_at a s' i _ _ _ _) =
      ((λ q. cc, λ h. cc (rw a at h)), λ q. cc, λ q. cc, λ q. cc)

  -- In a valid service, `Reserve` of a valid prefix returns `ErrOutOfNet` exactly when no network of
  -- its family contains it; where it returns `ErrOverlaps`, some address of the prefix is in use;
  -- where it fails, the service is unchanged; and it does not panic.
  pub reserve_errors :
      (((reserve s pref).1 ≡ err out_of_net) ↔ (any_fits s pref ≡ false))
      × (((reserve s pref).1 ≡ err overlaps)
          → (ip : Addr) × (contains pref ip ≡ true) × (in_use s ip ≡ true))
      × ((is_ok (reserve s pref).1 ≡ false) → (reserve s pref).0 ≡ s)
      × ((reserve s pref).1 ≢ panic)
  reserve_errors = error_ends (reserve s pref) (reserves s pref v p)

  undo_ends :
      (r : Service × Result ℕ) → Reserves s pref r → is_ok r.1 ≡ true → delete r.0 pref ≡ (s, true)
  undo_ends r (nowhere _) h = cc
  undo_ends r (taken _ _ _ _) h = cc
  undo_ends r (reserved_at _ s' i _ _ back _) h = back

  -- In a valid service, `Delete` of a valid prefix right after a `Reserve` of it that succeeded
  -- returns true and gives back the very service from before the `Reserve`.
  pub delete-reserve : is_ok (reserve s pref).1 ≡ true → delete (reserve s pref).0 pref ≡ (s, true)
  delete-reserve = undo_ends (reserve s pref) (reserves s pref v p)

  ends-IsService : (r : Service × Result ℕ) → Reserves s pref r → IsService r.0
  ends-IsService r (nowhere _) = v
  ends-IsService r (taken _ _ _ _) = v
  ends-IsService r (reserved_at _ s' i v' _ _ _) = v'

  -- `Reserve` of a valid prefix keeps every network of the service valid, with whatever result.
  pub reserve-IsService : IsService (reserve s pref).0
  reserve-IsService = ends-IsService (reserve s pref) (reserves s pref v p)
