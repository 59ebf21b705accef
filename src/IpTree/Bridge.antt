-- ===== src/IpTree/Bridge.antt =====
-- A prefix within the network as a subnet of the embedded tree.
use tanlnode.Base.{
  ℕ, ◌-◌, ◌/◌, ◌%◌, ◌^◌, ◌≤◌, ◌≡◌, refl, sym, ap, ◌∙◌, true, ◌&&◌, arith, ◌==◌, ==_iff, inl, inr,
  Bool-cases,
}
use mathlib.Core.Path.{subst}
use native.Mathlib.Nat.{mod-lt, mod-mod_of_dvd, dvd-mul_right}
use Prim.Native.Nat.{◌∣◌}
use tanlnode.Base.Bits.{bit_and-mask, pow_pos}
use tanlnode.Base.Blocks.{same_block, coarser, pow-split}
use tanlnode.Netip.{Family, Addr, Prefix, IsPrefix, addr_bits, contains, same_family}
use tanlnode.UintTree.Spec.{IsSubnet, in_subnet}
use tanlnode.IpTree.{IpTree, word_bits, word, within, host, host_bits}
use tanlnode.IpTree.Spec.{IsNet}

pub same_family-eq : (f g : Family) → same_family f g ≡ true → f ≡ g
same_family-eq f g h = ground arith

pub same_family_self : (f : Family) → same_family f f ≡ true
same_family_self f = ground arith

pub mod-mod_pow : (a m w : ℕ) → m ≤ w → a % 2 ^ w % 2 ^ m ≡ a % 2 ^ m
mod-mod_pow a m w h =
    mod-mod_of_dvd (2 ^ m) a
      (subst (λ (t : ℕ). 2 ^ m ∣ t) (sym (pow-split m w h)) (dvd-mul_right (2 ^ m) (2 ^ (w - m))))

-- A block of 2 ^ d within the block of `n`, by remainders.
block_within :
    (m d n p x : ℕ)
    → d ≤ m
    → n / 2 ^ m ≡ p / 2 ^ m
    → (p / 2 ^ d == x / 2 ^ d)
      ≡ (n / 2 ^ m == x / 2 ^ m) && (p % 2 ^ m / 2 ^ d == x % 2 ^ m / 2 ^ d)
block_within m d n p x h e = elim (Bool-cases (n / 2 ^ m == x / 2 ^ m)) [
  | inl q ↦ rw q (same_block m d p x h (sym e ∙ (==_iff (n / 2 ^ m) (x / 2 ^ m)).0 q))
  | inr q ↦ rw q (elim (Bool-cases (p / 2 ^ d == x / 2 ^ d)) [
    | inl r ↦
        let far : n / 2 ^ m ≡ x / 2 ^ m =
          e ∙ coarser m d p x h ((==_iff (p / 2 ^ d) (x / 2 ^ d)).0 r) in
        absurd (ground (arith, (==_iff (n / 2 ^ m) (x / 2 ^ m)).1 far))
    | inr r ↦ r
  ])
]

-- `contains` for a prefix whose family and number of host bits are known.
contains-at :
    (p : Prefix) (ip : Addr) (f : Family) (k : ℕ)
    → p.addr.family ≡ f
    → addr_bits f - p.bits ≡ k
    → contains p ip ≡ same_family f ip.family && (p.addr.value / 2 ^ k == ip.value / 2 ^ k)
contains-at p ip f k ef ek =
    ap
      (λ (g : Family).
        same_family g ip.family
        && (p.addr.value / 2 ^ (addr_bits g - p.bits) == ip.value / 2 ^ (addr_bits g - p.bits)))
      ef
    ∙ ap (λ (j : ℕ). same_family f ip.family && (p.addr.value / 2 ^ j == ip.value / 2 ^ j)) ek

-- The prefix is valid, of the tree's family, and within the network.
pub record IsWithin (t : IpTree) (pref : Prefix) : Type 0 where
  pub pref_ok : IsPrefix pref
  pub same : pref.addr.family ≡ t.version
  pub inside : within t pref ≡ true

module _ {t : IpTree} (v : IsNet t) where
  pub contains_net :
      (ip : Addr)
      → contains t.net ip
        ≡ same_family t.version ip.family
          && (t.net.addr.value / 2 ^ t.tree.max_pref_bits == ip.value / 2 ^ t.tree.max_pref_bits)
  contains_net ip =
      contains-at t.net ip t.version t.tree.max_pref_bits v.family_eq (omega (arith, v.level))

module _ {t : IpTree} (v : IsNet t) {pref : Prefix} (s : IsWithin t pref) where
  pub host-eq : host t pref ≡ pref.addr.value % 2 ^ t.tree.max_pref_bits
  host-eq =
      let e : t.tree.max_uint ≡ 2 ^ t.tree.max_pref_bits - 1 = omega (arith, v.valid.bound) in
      rw (e, bit_and-mask t.tree.max_pref_bits (word t.version pref.addr.value))
        (mod-mod_pow pref.addr.value t.tree.max_pref_bits (word_bits t.version)
          (omega (arith, v.valid.level_le)))

  bits_ge : t.net.bits ≤ pref.bits
  bits_ge = ground (arith, s.inside)

  pref_bits_le : pref.bits ≤ addr_bits t.version
  pref_bits_le = rw s.same at s.pref_ok.bits_le

  same_block_of_net :
      t.net.addr.value / 2 ^ t.tree.max_pref_bits ≡ pref.addr.value / 2 ^ t.tree.max_pref_bits
  same_block_of_net = (==_iff _ _).0 (ground (arith, contains_net v pref.addr, s.inside))

  pub host-IsSubnet : IsSubnet t.tree (host t pref) (host_bits t pref)
  host-IsSubnet = record {
    addr_le =
        rw host-eq
          (omega (arith, v.valid.bound, mod-lt pref.addr.value (pow_pos t.tree.max_pref_bits)));
    bits_le = omega (arith, v.level, bits_ge, pref_bits_le);
  }

  -- The addresses of the prefix are those of the network whose host part is in the subnet.
  pub contains-eq :
      (ip : Addr)
      → contains pref ip
        ≡ contains t.net ip
          && in_subnet t.tree (host t pref) (host_bits t pref) (ip.value % 2 ^ t.tree.max_pref_bits)
  contains-eq ip =
      let d : ℕ = addr_bits t.version - pref.bits in
      let e : t.tree.max_pref_bits - host_bits t pref ≡ d =
        omega (arith, v.level, bits_ge, pref_bits_le) in
      let h : d ≤ t.tree.max_pref_bits = omega (arith, v.level, bits_ge, pref_bits_le) in
      rw
        (
          contains-at pref ip t.version d s.same refl,
          contains_net v ip,
          host-eq,
          e,
          block_within t.tree.max_pref_bits d t.net.addr.value pref.addr.value ip.value h
              same_block_of_net,
        )
        (ground arith)
