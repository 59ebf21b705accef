-- ===== src/Subnets/Spec.antt =====
-- The abstract view of the service: which addresses are assigned in any of its networks.
use tanlnode.Base.{ℕ, ◌<◌, Bool, false, ◌&&◌, ◌||◌, [], ◌∷◌}
use tanlnode.Netip.{Addr, Prefix, same_family}
use tanlnode.IpTree.{IpTree, within}
use tanlnode.IpTree.Spec.{IsNet, allocated}
use tanlnode.Subnets.{Service}

abbrev pub in_use : Service → Addr → Bool
in_use [] ip = false
in_use (t ∷ ts) ip = allocated t ip || in_use ts ip

-- Every network is valid.
abbrev pub IsService : Service → Type 0
IsService [] = Unit
IsService (t ∷ ts) = IsNet t × IsService ts

-- The prefix is of the network's family and lies within it.
abbrev pub fits : IpTree → Prefix → Bool
fits t pref = same_family t.version pref.addr.family && within t pref

abbrev pub any_fits : Service → Prefix → Bool
any_fits [] pref = false
any_fits (t ∷ ts) pref = fits t pref || any_fits ts pref

-- What `rand.Int(rand.Reader, max)` promises.
abbrev pub IsRandom : (ℕ → ℕ → ℕ) → Type 0
IsRandom rand = (i max : ℕ) → 0 < max → rand i max < max
