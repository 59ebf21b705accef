-- ===== src/IpTree/Laws/News.antt =====
-- The networks that `NewAddrTree4` and `NewAddrTree6` make.
use native.Mathlib.Nat.{mod-lt}
use native.Mathlib.Decide.{dec_lt}
use tanlnode.Base.{
  ℕ, ◌⊎◌, zero, suc, ◌+◌, ◌-◌, ◌/◌, ◌%◌, ◌^◌, ◌≤◌, ◌<◌, ◌≡◌, refl, ap, ◌∙◌, Bool, true, false, ◌&&◌,
  ◌||◌, arith, inl, inr, Bool-cases, ==_iff, ◌==◌, ltb,
}
use tanlnode.Base.Bits.{pow_pos}
use tanlnode.Netip.{Family, v4, v6, Addr, Prefix, IsPrefix, contains, same_family, addr_bits}
use tanlnode.UintTree
use tanlnode.UintTree.{UintTree, Node, nil}
use tanlnode.UintTree.Spec.{IsValid, covered}
use tanlnode.UintTree.Nth.{count_free}
use tanlnode.UintTree.Laws.Sizes.{size-add-free}
use tanlnode.IpTree.{
  IpTree, ok, err, word_bits, new_addr_tree4, new_addr_tree6, net_too_small, big_net6_not_supported,
  new_tree,
}
use tanlnode.IpTree.Spec.{IsNet, allocated}
use tanlnode.IpTree.Laws.Ends.{
  top_host, with_first, with_ends, first-IsValid, first-bounds, first-covered, ends-IsValid,
  ends-bounds, ends-covered, second_put,
}

-- The host part of the address in the network.
abbrev pub host_part : Prefix → Addr → ℕ
host_part net ip = ip.value % 2 ^ (addr_bits net.addr.family - net.bits)

abbrev pub last_host : Prefix → ℕ
last_host net = 2 ^ (addr_bits net.addr.family - net.bits) - 1

-- `t` is a network over `net` in which the addresses with these host parts are assigned.
pub record IsNewNet (net : Prefix) (hosts : ℕ → Bool) (t : IpTree) : Type 0 where
  pub same_net : t.net ≡ net
  pub net_valid : IsNet t
  pub some_assigned : 0 < UintTree.size t.tree
  pub now_allocated : (ip : Addr) → allocated t ip ≡ contains net ip && hosts (host_part net ip)

-- A covered number is not free.
free-le : (c : ℕ → Bool) (n : ℕ) → count_free c n ≤ n
unfolding count_free
free-le c zero = omega arith
free-le c (suc n) = ground (arith, free-le c n)

free-lt : (c : ℕ → Bool) (n x : ℕ) → c x ≡ true → x < n → count_free c n < n
unfolding count_free
free-lt c zero x h l = absurd (omega (arith, l))
free-lt c (suc n) x h l = elim (Bool-cases (x == n)) [
  | inl e ↦
      let at_n : c n ≡ true = rw ((==_iff x n).0 e) at h in rw at_n (omega (arith, free-le c n))
  | inr e ↦ let below = free-lt c n x h (ground arith) in ground (arith, below)
]

size_pos : {w : ℕ} {u : UintTree} → IsValid w u → covered u 0 ≡ true → 0 < UintTree.size u
size_pos {w} {u} v h =
    omega (arith, size-add-free v, free-lt (covered u) (u.max_uint + 1) 0 h (omega arith))

module _ {net : Prefix} (p : IsPrefix net) (masked : host_part net net.addr ≡ 0) where
  -- The tree covers the hosts.
  of_tree :
      (f : Family) (u : UintTree) (hosts : ℕ → Bool)
      → net.addr.family ≡ f
      → IsValid (word_bits f) u
      → u.max_pref_bits ≡ addr_bits f - net.bits
      → ((x : ℕ) → x ≤ u.max_uint → covered u x ≡ hosts x)
      → hosts 0 ≡ true
      → IsNewNet net hosts (new_tree f net u)
  of_tree f u hosts e v m all h = record {
    same_net = refl;
    net_valid = record {
      net_ok = p;
      family_eq = e;
      masked = rw (m, ← e) masked;
      level = let fits : net.bits ≤ addr_bits f = rw e at p.bits_le in omega (arith, m, fits);
      valid = v;
    };
    some_assigned = size_pos v (all 0 (omega arith) ∙ h);
    now_allocated = λ ip.
        let host_eq : ip.value % 2 ^ u.max_pref_bits ≡ host_part net ip = rw (m, e) refl in
        ap (λ (b : Bool). contains net ip && b)
          (all (ip.value % 2 ^ u.max_pref_bits)
              (omega (arith, v.bound, mod-lt ip.value (pow_pos u.max_pref_bits)))
            ∙ ap hosts host_eq);
  }

  -- `NewAddrTree4` of an IPv4 network without host bits fails with `ErrNetTooSmall` if it has less
  -- than four addresses, and else makes a valid network in which exactly the network address and
  -- the broadcast address are assigned.
  pub new_addr_tree4_lem :
      net.addr.family ≡ v4
      → ((30 < net.bits) × (new_addr_tree4 net ≡ err net_too_small))
        ⊎ ((net.bits ≤ 30)
            × (t : IpTree) × (new_addr_tree4 net ≡ ok t)
            × IsNewNet net (λ x. (0 == x) || (last_host net == x)) t)
  unfolding new_addr_tree4 with_first
  new_addr_tree4_lem e = elim (dec_lt 30 net.bits) [
    | yes lt ↦ inl (lt, rw e (ground (arith, lt)))
    | no ge ↦
        let b : net.bits ≤ 30 = omega (arith, ge) in
        let m : ℕ = 32 - net.bits in
        let top : ℕ = (2 ^ 32 - 1) / 2 ^ net.bits in
        let ht : top + 1 ≡ 2 ^ m = top_host 32 net.bits (omega (arith, b)) in
        let hm : 0 < m = omega (arith, b) in
        let hw : m ≤ 32 = omega arith in
        let same : same_family net.addr.family v4 ≡ true = rw e refl in
        let big : ltb (32 - net.bits) 2 ≡ false = ground (arith, b) in
        inr (
          b,
          new_tree v4 net (with_ends 32 m top hm hw ht),
          rw (same, big)
              (ap (λ (u : UintTree). ok (new_tree v4 net u)) (second_put 32 m top hm hw ht)),
          of_tree v4 (with_ends 32 m top hm hw ht) (λ x. (0 == x) || (last_host net == x)) e
              (ends-IsValid 32 m top hm hw ht) (ends-bounds 32 m top hm hw ht).1
              (λ x hx.
                ends-covered 32 m top hm hw ht x
                  (omega (arith, hx, (ends-bounds 32 m top hm hw ht).0))
                ∙ rw (e, ← ht) (ground arith))
              refl,
        )
  ]

  -- `NewAddrTree6` of an IPv6 network without host bits fails with `ErrNetTooSmall` if it has less
  -- than four addresses, with `ErrBigNet6NotSupported` if it has more than 2 ^ 64, and else makes a
  -- valid network in which exactly the address of host 0 is assigned.
  pub new_addr_tree6_lem :
      net.addr.family ≡ v6
      → ((126 < net.bits) × (new_addr_tree6 net ≡ err net_too_small))
        ⊎ ((net.bits < 64) × (new_addr_tree6 net ≡ err big_net6_not_supported))
        ⊎ ((64 ≤ net.bits)
            × (net.bits ≤ 126)
            × (t : IpTree) × (new_addr_tree6 net ≡ ok t)
            × IsNewNet net (λ x. 0 == x) t)
  unfolding new_addr_tree6 with_first
  new_addr_tree6_lem e = elim (dec_lt 126 net.bits) [
    | yes lt ↦ inl (lt, rw e (ground (arith, lt)))
    | no ge ↦ elim (dec_lt net.bits 64) [
      | yes lt ↦ inr (inl (lt, rw e (ground (arith, lt))))
      | no wide ↦
          let m : ℕ = 128 - net.bits in
          let top : ℕ = (2 ^ 64 - 1) / 2 ^ (net.bits - 64) in
          let at_m : 64 - (net.bits - 64) ≡ m = omega (arith, ge, wide) in
          let ht : top + 1 ≡ 2 ^ m = rw at_m at (top_host 64 (net.bits - 64) (omega (arith, ge))) in
          let hm : 0 < m = omega (arith, ge) in
          let hw : m ≤ 64 = omega (arith, wide) in
          let big : ltb (128 - net.bits) 2 ≡ false = ground (arith, ge) in
          let fits : ltb 64 (128 - net.bits) ≡ false = ground (arith, wide) in
          inr (
            inr (
              omega (arith, wide),
              omega (arith, ge),
              new_tree v6 net (with_first 64 m top hm hw ht),
              rw (e, big, fits) refl,
              of_tree v6 (with_first 64 m top hm hw ht) (λ x. 0 == x) e
                  (first-IsValid 64 m top hm hw ht) (first-bounds 64 m top hm hw ht).1
                  (λ x hx.
                    first-covered 64 m top hm hw ht x
                      (omega (arith, hx, (first-bounds 64 m top hm hw ht).0)))
                  refl,
            ))
    ]
  ]
