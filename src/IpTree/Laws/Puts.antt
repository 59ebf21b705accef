-- ===== src/IpTree/Laws/Puts.antt =====
-- What `Put` does to the assigned addresses of a network, and which error it returns.
use tanlnode.Base.{
  ℕ, ◌%◌, ◌^◌, ◌≡◌, ◌≢◌, ◌↔◌, refl, Bool, true, false, ◌&&◌, ◌||◌, arith, inl, inr, Bool-cases,
}
use tanlnode.Netip.{Family, Addr, Prefix, IsPrefix, contains, same_family}
use tanlnode.UintTree
use tanlnode.UintTree.{UintTree, Node}
use tanlnode.UintTree.Spec.{IsValid, covered, in_subnet}
use tanlnode.UintTree.Laws.Puts.{put-IsValid, PutCases, refused, added, put-cases, added-covered}
use tanlnode.IpTree.{
  IpTree, Result, ok, err, panic, out_of_net, overlaps, within, host, host_bits, word_bits, put,
  put_result,
}
use tanlnode.IpTree.Spec.{IsNet, allocated, is_ok}
use tanlnode.IpTree.Bridge.{IsWithin, host-IsSubnet, contains-eq, same_family_self}
use tanlnode.IpTree.Offsets.{addr_at, host-le, allocated-addr_at, contains-addr_at, host-addr_at}

-- How a call for a prefix of the right family ended.
pub data PutEnds (t : IpTree) (pref : Prefix) : IpTree × Result (Unit {0}) → Type 0 where
  outside : within t pref ≡ false → PutEnds t pref (t, err out_of_net)
  clash :
      within t pref ≡ true
      → (ip : Addr) → contains pref ip ≡ true
      → allocated t ip ≡ true
      → PutEnds t pref (t, err overlaps)
  assigned :
      within t pref ≡ true
      → (u : UintTree) → IsNet (record t { tree = u })
      → ((ip : Addr)
          → (allocated (record t { tree = u }) ip ≡ allocated t ip || contains pref ip)
            × (contains pref ip && allocated t ip ≡ false))
      → PutEnds t pref (record t { tree = u }, ok tt)

-- The new tree keeps the network and its bounds.
pub with_root-IsNet :
    {t : IpTree}
    → IsNet t
    → (root : Node) → IsValid (word_bits t.version) (record t.tree { root = root })
    → IsNet (record t { tree = record t.tree { root = root } })
with_root-IsNet v root u = record {
  net_ok = v.net_ok;
  family_eq = v.family_eq;
  masked = v.masked;
  level = v.level;
  valid = u;
}

assigned_bits :
    (in_net old in_pref new pref : Bool)
    → pref ≡ in_net && in_pref
    → (new ≡ old || in_pref) × (in_pref && old ≡ false)
    → (in_net && new ≡ in_net && old || pref) × (pref && (in_net && old) ≡ false)
assigned_bits in_net old in_pref new pref e h = ground arith

or_false : (b : Bool) → b ≡ b || false
or_false b = ground arith

pub same_family-eq_true : {f g : Family} → f ≡ g → same_family f g ≡ true
same_family-eq_true {f} {g} e = rw e (same_family_self g)

pub put-without : (t : IpTree) (pref : Prefix) → within t pref ≡ false → (put t pref).1 ≢ ok tt
unfolding put
put-without t pref i h = elim (Bool-cases (same_family pref.addr.family t.version)) [
  | inl f ↦ cc (rw (f, i) at h)
  | inr f ↦ cc (rw f at h)
]

module _ {t : IpTree} (v : IsNet t) {pref : Prefix} where
  module _ (s : IsWithin t pref) where
    tree_cases :
        (r : UintTree × Bool)
        → PutCases (word_bits t.version) t.tree (host t pref) (host_bits t pref) r
        → UintTree.put (word_bits t.version) t.tree (host t pref) (host_bits t pref) ≡ r
        → PutEnds t pref (put_result t r)
    tree_cases r (refused x h i c) e =
        clash s.inside (addr_at t x)
          (rw (contains-eq v s (addr_at t x), contains-addr_at v x h, host-addr_at v x h) i)
          (rw (allocated-addr_at v x h) c)
    tree_cases r (added root i) e =
        assigned s.inside (record t.tree { root = root })
          (with_root-IsNet v root (rw e at (put-IsValid v.valid (host-IsSubnet v s))))
          (λ ip.
            let k : ℕ = ip.value % 2 ^ t.tree.max_pref_bits in
            assigned_bits (contains t.net ip) (covered t.tree k)
              (in_subnet t.tree (host t pref) (host_bits t pref) k) _ _ (contains-eq v s ip)
              (added-covered v.valid (host-IsSubnet v s) i k (host-le v ip)))

  -- Within the network `put` is that of the embedded tree.
  pub put-within :
      IsWithin t pref
      → put t pref
        ≡ put_result t (UintTree.put (word_bits t.version) t.tree (host t pref) (host_bits t pref))
  unfolding put
  put-within s = rw (same_family-eq_true s.same, s.inside)

  pub put-ends : IsPrefix pref → pref.addr.family ≡ t.version → PutEnds t pref (put t pref)
  unfolding put
  put-ends p e = elim (Bool-cases (within t pref)) [
    | inl i ↦
        let s : IsWithin t pref = record { pref_ok = p; same = e; inside = i } in
        rw (put-within s) (tree_cases s _ (put-cases v.valid (host-IsSubnet v s)) refl)
    | inr i ↦ rw (same_family-eq_true e, i) (outside i)
  ]

  module _ (p : IsPrefix pref) (e : pref.addr.family ≡ t.version) where
    ok_cases :
        (r : IpTree × Result (Unit {0}))
        → PutEnds t pref r
        → (r.1 ≡ ok tt) ↔ (
            (within t pref ≡ true)
            × ((ip : Addr) → contains pref ip ≡ true → allocated t ip ≡ false))
    ok_cases r (outside i) = (λ q. cc, λ h. cc (h.0))
    ok_cases r (clash i ip c a) = (λ q. cc, λ h. cc (h.1 ip c))
    ok_cases r (assigned i u _ all) = (λ _. (i, λ ip c. let q = (all ip).1 in rw c at q), λ _. refl)

    -- In a valid network, `Put` of a prefix of its family succeeds exactly when the prefix lies
    -- within the network and no address of the prefix is assigned.
    pub put_ok_iff : ((put t pref).1 ≡ ok tt) ↔ (
        (within t pref ≡ true) × ((ip : Addr) → contains pref ip ≡ true → allocated t ip ≡ false))
    put_ok_iff = ok_cases (put t pref) (put-ends p e)

    error_cases :
        (r : IpTree × Result (Unit {0}))
        → PutEnds t pref r
        → ((r.1 ≡ err out_of_net) ↔ (within t pref ≡ false))
          × ((r.1 ≡ err overlaps)
              → (ip : Addr) × (contains pref ip ≡ true) × (allocated t ip ≡ true))
          × (r.1 ≢ panic)
    error_cases r (outside i) = ((λ _. i, λ _. refl), λ q. cc, λ q. cc)
    error_cases r (clash i ip c a) = ((λ q. cc, λ q. cc), λ _. (ip, c, a), λ q. cc)
    error_cases r (assigned i u _ all) = ((λ q. cc, λ q. cc), λ q. cc, λ q. cc)

    -- In a valid network, `Put` of a prefix of its family returns `ErrOutOfNet` exactly when the
    -- prefix does not lie within the network; where it returns `ErrOverlaps`, some address of the
    -- prefix is assigned; and it does not panic.
    pub put_errors :
        (((put t pref).1 ≡ err out_of_net) ↔ (within t pref ≡ false))
        × (((put t pref).1 ≡ err overlaps)
            → (ip : Addr) × (contains pref ip ≡ true) × (allocated t ip ≡ true))
        × ((put t pref).1 ≢ panic)
    put_errors = error_cases (put t pref) (put-ends p e)

    allocated_cases :
        (r : IpTree × Result (Unit {0}))
        → PutEnds t pref r
        → (ip : Addr) → allocated r.0 ip ≡ allocated t ip || is_ok r.1 && contains pref ip
    allocated_cases r (outside i) ip = or_false (allocated t ip)
    allocated_cases r (clash i _ c a) ip = or_false (allocated t ip)
    allocated_cases r (assigned i u _ all) ip = (all ip).0

    -- In a valid network, the addresses assigned after `Put` of a prefix of its family are those
    -- assigned before and, if it succeeded, those of the prefix.
    pub allocated-put :
        (ip : Addr)
        → allocated (put t pref).0 ip ≡ allocated t ip || is_ok (put t pref).1 && contains pref ip
    allocated-put = allocated_cases (put t pref) (put-ends p e)

    cases-IsNet : (r : IpTree × Result (Unit {0})) → PutEnds t pref r → IsNet r.0
    cases-IsNet r (outside i) = v
    cases-IsNet r (clash i _ c a) = v
    cases-IsNet r (assigned i u n all) = n

    -- `Put` of a prefix of its family keeps the network valid, with whatever result.
    pub put-IsNet : IsNet (put t pref).0
    put-IsNet = cases-IsNet (put t pref) (put-ends p e)
