-- ===== src/Netip.antt =====
-- The standard library's net/netip, as far as the node uses it: addresses of the two families and
-- prefixes. Zones, and the zero values of the types, do not occur: every prefix comes from
-- `netip.ParsePrefix`, which refuses zones, or from an address by `netip.PrefixFrom`.
use tanlnode.Base.{
  ℕ, refl, inl, inr, ◌⊎◌, ◌-◌, ◌/◌, ◌^◌, ◌≤◌, ◌<◌, ◌≡◌, Bool, true, false, ◌&&◌, ◌==◌,
}

pub data Family : Type 0 where
  v4 : Family
  v6 : Family

abbrev pub addr_bits : Family → ℕ
addr_bits v4 = 32
addr_bits v6 = 128

-- `==` on families.
abbrev pub same_family : Family → Family → Bool
same_family v4 v4 = true
same_family v6 v6 = true
same_family v4 v6 = false
same_family v6 v4 = false

-- `netip.Addr`: the bytes of an address as one number, in network order.
pub record Addr : Type 0 where
  pub family : Family
  pub value : ℕ

-- `netip.Prefix`; the host bits of the address may be set.
pub record Prefix : Type 0 where
  pub addr : Addr
  pub bits : ℕ

-- `Prefix.Contains`
abbrev pub contains : Prefix → Addr → Bool
contains p ip =
    same_family p.addr.family ip.family
    && (p.addr.value / 2 ^ (addr_bits p.addr.family - p.bits)
        == ip.value / 2 ^ (addr_bits p.addr.family - p.bits))

abbrev pub addr_eq : Addr → Addr → Bool
addr_eq a b = same_family a.family b.family && a.value == b.value

-- The address fits its family.
pub record IsAddr (a : Addr) : Type 0 where
  pub value_lt : a.value < 2 ^ addr_bits a.family

pub record IsPrefix (p : Prefix) : Type 0 where
  pub addr_ok : IsAddr p.addr
  pub bits_le : p.bits ≤ addr_bits p.addr.family

pub family_cases : (f : Family) → (f ≡ v4) ⊎ (f ≡ v6)
family_cases v4 = inl refl
family_cases v6 = inr refl
