-- ===== src/IpTree/Offsets.antt =====
-- The addresses of a network by their offsets.
use native.Mathlib.Nat.{
  mod-lt, div-eq_of_lt, mod-eq_of_lt, div-add-mod', mul-add-div_right, add-mul-mod_self_right,
}
use tanlnode.Base.{ℕ, ◌+◌, ◌*◌, ◌/◌, ◌%◌, ◌^◌, ◌≤◌, ◌<◌, ◌≡◌, ap, ◌∙◌, true, arith}
use tanlnode.Base.Bits.{pow_pos}
use tanlnode.Netip.{Addr, contains}
use tanlnode.UintTree.Spec.{covered}
use tanlnode.IpTree.{IpTree}
use tanlnode.IpTree.Spec.{IsNet, allocated}
use tanlnode.IpTree.Bridge.{contains_net, same_family_self}

-- The address of the network at an offset.
abbrev pub addr_at : IpTree → ℕ → Addr
addr_at t x = record { family = t.version; value = t.net.addr.value + x }

multiple : (n k : ℕ) → n % k ≡ 0 → n ≡ n / k * k
multiple n k h = omega (arith, div-add-mod' n k, h)

add-div_masked : (n x k : ℕ) → 0 < k → n % k ≡ 0 → x < k → (n + x) / k ≡ n / k
add-div_masked n x k hk h hx =
    ap (λ (a : ℕ). (a + x) / k) (multiple n k h)
    ∙ mul-add-div_right hk (n / k) x
    ∙ (rw (div-eq_of_lt hx) (omega arith))

add-mod_masked : (n x k : ℕ) → 0 < k → n % k ≡ 0 → x < k → (n + x) % k ≡ x
add-mod_masked n x k hk h hx =
    ap (λ (a : ℕ). a % k) (omega (arith, multiple n k h))
    ∙ add-mul-mod_self_right x (n / k) k
    ∙ mod-eq_of_lt hx

module _ {t : IpTree} (v : IsNet t) where
  pub addr_at_lt : (x : ℕ) → x ≤ t.tree.max_uint → x < 2 ^ t.tree.max_pref_bits
  addr_at_lt x h = omega (arith, v.valid.bound, h)

  pub contains-addr_at : (x : ℕ) → x ≤ t.tree.max_uint → contains t.net (addr_at t x) ≡ true
  contains-addr_at x h =
      rw
        (
          contains_net v (addr_at t x),
          same_family_self t.version,
          add-div_masked t.net.addr.value x (2 ^ t.tree.max_pref_bits)
              (pow_pos t.tree.max_pref_bits) v.masked (addr_at_lt x h),
        )
        (ground arith)

  pub host-addr_at :
      (x : ℕ) → x ≤ t.tree.max_uint → (addr_at t x).value % 2 ^ t.tree.max_pref_bits ≡ x
  host-addr_at x h =
      add-mod_masked t.net.addr.value x (2 ^ t.tree.max_pref_bits) (pow_pos t.tree.max_pref_bits)
        v.masked (addr_at_lt x h)

  pub allocated-addr_at :
      (x : ℕ) → x ≤ t.tree.max_uint → allocated t (addr_at t x) ≡ covered t.tree x
  allocated-addr_at x h = rw (contains-addr_at x h, host-addr_at x h)

  pub host-le : (ip : Addr) → ip.value % 2 ^ t.tree.max_pref_bits ≤ t.tree.max_uint
  host-le ip = omega (arith, v.valid.bound, mod-lt ip.value (pow_pos t.tree.max_pref_bits))
