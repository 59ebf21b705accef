-- ===== src/Utils.antt =====
-- utils/utils.go
use tanlnode.Netip.{Addr, Prefix, v4, v6}

-- `MakePrefixFromAddr`
abbrev pub make_prefix_from_addr : Addr → Prefix
make_prefix_from_addr a = elim a.family [
  | v4 ↦ record { addr = a; bits = 32 }
  | v6 ↦ record { addr = a; bits = 128 }
]
