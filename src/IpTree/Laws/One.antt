-- ===== src/IpTree/Laws/One.antt =====
-- A single address of a network, as an offset and as a prefix.
use native.Mathlib.Nat.{
  mod-eq_of_lt, div-lt_iff_lt-mul, mod-lt, div-add-mod', mul-le-mul_right, mul_comm,
}
use tanlnode.Base.{
  ℕ, suc, ◌+◌, ◌-◌, ◌*◌, ◌/◌, ◌%◌, ◌^◌, ◌≤◌, ◌<◌, ◌≡◌, refl, ap, ◌∙◌, true, arith, inl, inr,
}
use tanlnode.Base.Bits.{pow_pos}
use tanlnode.Base.Blocks.{pow-split}
use tanlnode.Netip.{family_cases, addr_bits, Addr, contains, addr_eq}
use tanlnode.Utils.{make_prefix_from_addr}
use tanlnode.UintTree
use tanlnode.UintTree.{UintTree}
use tanlnode.IpTree.{IpTree, ok, word_bits, put, host, host_bits, add_offset}
use tanlnode.IpTree.Spec.{IsNet}
use tanlnode.IpTree.Bridge.{mod-mod_pow, IsWithin, host-eq}
use tanlnode.IpTree.Laws.Puts.{put-within}
use tanlnode.IpTree.Offsets.{addr_at, addr_at_lt, contains-addr_at, host-addr_at}

below_multiple : (q k m r n x : ℕ) → r ≡ q * m → q < k → x < m → n ≡ m * k → r + x < n
below_multiple q k m r n x e l hx en =
    let next : suc q ≤ k = l in omega (arith, e, en, hx, mul-le-mul_right m next, mul_comm m k)

-- A masked address has room for the host part in its word.
no_carry : (n m w x : ℕ) → m ≤ w → n % 2 ^ m ≡ 0 → x < 2 ^ m → n % 2 ^ w + x < 2 ^ w
no_carry n m w x h masked hx =
    let q : ℕ = n % 2 ^ w / 2 ^ m in
    let whole : n % 2 ^ w ≡ q * 2 ^ m =
      omega (arith, div-add-mod' (n % 2 ^ w) (2 ^ m), mod-mod_pow n m w h, masked) in
    let low : q < 2 ^ (w - m) =
      (div-lt_iff_lt-mul (pow_pos m)).1
        (omega (arith, mod-lt n (pow_pos w), pow-split m w h, mul_comm (2 ^ m) (2 ^ (w - m)))) in
    below_multiple q (2 ^ (w - m)) (2 ^ m) (n % 2 ^ w) (2 ^ w) x whole low hx (pow-split m w h)

module _ {t : IpTree} (v : IsNet t) where
  word_no_carry :
      (x : ℕ)
      → x ≤ t.tree.max_uint
      → t.net.addr.value % 2 ^ word_bits t.version + x < 2 ^ word_bits t.version
  word_no_carry x h =
      no_carry t.net.addr.value t.tree.max_pref_bits (word_bits t.version) x
        (omega (arith, v.valid.level_le)) v.masked (addr_at_lt v x h)

  -- Within the word no carry leaves the host part.
  pub add_offset-eq :
      (x : ℕ) → x ≤ t.tree.max_uint → add_offset t.version t.net.addr x ≡ addr_at t x
  add_offset-eq x h =
      ap (λ (n : ℕ). record { family = t.version; value = n })
        (omega (
          arith,
          mod-eq_of_lt (word_no_carry x h),
          div-add-mod' t.net.addr.value (2 ^ word_bits t.version),
        ))

-- The prefix of an address holds that address only.
pub one_bits : (a : Addr) → (make_prefix_from_addr a).bits ≡ addr_bits a.family
one_bits a = elim (family_cases a.family) [ inl e ↦ rw e refl | inr e ↦ rw e refl ]

pub one_addr : (a : Addr) → (make_prefix_from_addr a).addr ≡ a
one_addr a = elim (family_cases a.family) [ inl e ↦ rw e refl | inr e ↦ rw e refl ]

pub contains-one : (a b : Addr) → contains (make_prefix_from_addr a) b ≡ addr_eq a b
contains-one a b = elim (family_cases a.family) [
  | inl e ↦ rw e (ground arith)
  | inr e ↦ rw e (ground arith)
]

module _ {t : IpTree} (v : IsNet t) (x : ℕ) (h : x ≤ t.tree.max_uint) where
  addr_at-lt : t.net.addr.value + x < 2 ^ addr_bits t.version
  addr_at-lt =
      let net_lt : t.net.addr.value < 2 ^ addr_bits t.version =
        rw v.family_eq at v.net_ok.addr_ok.value_lt in
      rw (mod-eq_of_lt net_lt) at (
        no_carry t.net.addr.value t.tree.max_pref_bits (addr_bits t.version) x
          (omega (arith, v.level)) v.masked (addr_at_lt v x h))

  pub one_inside : IsWithin t (make_prefix_from_addr (addr_at t x))
  one_inside = record {
    pref_ok = record {
      addr_ok = rw (one_addr (addr_at t x)) (record { value_lt = addr_at-lt });
      bits_le = rw (one_bits (addr_at t x), one_addr (addr_at t x)) (omega arith);
    };
    same = rw (one_addr (addr_at t x)) refl;
    inside =
        rw (one_bits (addr_at t x), one_addr (addr_at t x), contains-addr_at v x h)
          (ground (arith, v.level));
  }

  pub put_one :
      (u : UintTree)
      → UintTree.put (word_bits t.version) t.tree x t.tree.max_pref_bits ≡ (u, true)
      → put t (make_prefix_from_addr (addr_at t x)) ≡ (record t { tree = u }, ok tt)
  put_one u e =
      let s = one_inside in
      let eh : host t (make_prefix_from_addr (addr_at t x)) ≡ x =
        host-eq v s ∙ rw (one_addr (addr_at t x)) (host-addr_at v x h) in
      let eb : host_bits t (make_prefix_from_addr (addr_at t x)) ≡ t.tree.max_pref_bits =
        omega (arith, one_bits (addr_at t x), v.level) in
      rw (put-within v s, eh, eb, e) refl
