-- ===== src/IpTree/Spec.antt =====
-- The abstract view of a network: which addresses its assigned subnets hold.
use tanlnode.Base.{◌+◌, ◌%◌, ◌^◌, ◌≡◌, Bool, true, false, ◌&&◌}
use tanlnode.Netip.{Addr, IsPrefix, addr_bits, contains}
use tanlnode.UintTree.Spec.{IsValid, covered}
use tanlnode.IpTree.{IpTree, word_bits, Result, ok}

-- The address is in the network, and in one of the assigned subnets.
abbrev pub allocated : IpTree → Addr → Bool
allocated t ip = contains t.net ip && covered t.tree (ip.value % 2 ^ t.tree.max_pref_bits)

-- A tree over a network without host bits, of the family that its methods are for.
pub record IsNet (t : IpTree) : Type 0 where
  pub net_ok : IsPrefix t.net
  pub family_eq : t.net.addr.family ≡ t.version
  pub masked : t.net.addr.value % 2 ^ t.tree.max_pref_bits ≡ 0
  pub level : t.tree.max_pref_bits + t.net.bits ≡ addr_bits t.version
  pub valid : IsValid (word_bits t.version) t.tree

abbrev pub is_ok {ℓ} : {A : Type ℓ} → Result A → Bool
is_ok (ok a) = true
is_ok _ = false
