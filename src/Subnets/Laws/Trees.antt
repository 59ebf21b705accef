-- ===== src/Subnets/Laws/Trees.antt =====
-- What `NewService` makes of the allocation networks.
use tanlnode.Base.{
  ℕ, ◌≡◌, inl, inr, refl, ap, ◌∙◌, Bool, true, false, ◌&&◌, ◌||◌, List, not, ltb, [], ◌∷◌, arith,
  ◌==◌,
}
use tanlnode.Netip.{Addr, Family, Prefix, IsPrefix, v4, v6, contains}
use tanlnode.IpTree.{IpTree, NetErr, Result, ok, err}
use tanlnode.IpTree.Laws.News.{
  IsNewNet, host_part, last_host, new_addr_tree4_lem, new_addr_tree6_lem,
}
use tanlnode.Subnets.{Service, Made, made, failed, tree_error, new_tree, add_tree, new_trees}
use tanlnode.Subnets.Spec.{in_use, IsService, any_fits, fits}

-- The hosts that a new network keeps for itself.
abbrev pub kept_host : Family → Prefix → ℕ → Bool
kept_host v4 net x = (0 == x) || (last_host net == x)
kept_host v6 net x = 0 == x

abbrev pub kept : List Prefix → Addr → Bool
kept [] ip = false
kept (net ∷ nets) ip =
    (contains net ip && kept_host net.addr.family net (host_part net ip)) || kept nets ip

-- Valid networks without host bits.
abbrev pub AreNets : List Prefix → Type 0
AreNets [] = Unit
AreNets (net ∷ nets) = IsPrefix net × (host_part net net.addr ≡ 0) × AreNets nets

-- The network has at least four addresses, and no more than the trees can count.
abbrev pub has_size : Family → Prefix → Bool
has_size v4 net = not (ltb 30 net.bits)
has_size v6 net = not (ltb net.bits 64) && not (ltb 126 net.bits)

abbrev pub have_size : List Prefix → Bool
have_size [] = true
have_size (net ∷ nets) = has_size net.addr.family net && have_size nets

-- Some network contains the whole prefix.
abbrev pub nets_fit : List Prefix → Prefix → Bool
nets_fit [] p = false
nets_fit (net ∷ nets) p = (contains net p.addr && not (ltb p.bits net.bits)) || nets_fit nets p

fits-new :
    {net : Prefix} {hosts : ℕ → Bool} {t : IpTree} (p : Prefix)
    → IsNewNet net hosts t
    → fits t p ≡ contains net p.addr && not (ltb p.bits net.bits)
fits-new {net} {hosts} {t} p n =
    let e : fits t p ≡ contains t.net p.addr && not (ltb p.bits t.net.bits) =
      rw (← n.net_valid.family_eq) (ground arith) in
    e ∙ ap (λ (q : Prefix). contains q p.addr && not (ltb p.bits q.bits)) n.same_net

data TreeEnds (f : Family) (net : Prefix) : Result IpTree → Type 0 where
  grown :
      (t : IpTree)
      → has_size f net ≡ true
      → IsNewNet net (kept_host f net) t
      → TreeEnds f net (ok t)
  refused : (e : NetErr) → has_size f net ≡ false → TreeEnds f net (err e)

tree_ends :
    (f : Family) (net : Prefix)
    → net.addr.family ≡ f
    → IsPrefix net
    → host_part net net.addr ≡ 0
    → TreeEnds f net (new_tree f net)
tree_ends v4 net e p m = elim (new_addr_tree4_lem p m e) [
  | inl (b, f) ↦ rw f (refused _ (ground (arith, b)))
  | inr (b, t, f, n) ↦ rw f (grown t (ground (arith, b)) n)
]
tree_ends v6 net e p m = elim (new_addr_tree6_lem p m e) [
  | inl (b, f) ↦ rw f (refused _ (ground (arith, b)))
  | inr (inl (b, f)) ↦ rw f (refused _ (ground (arith, b)))
  | inr (inr (b, c, t, f, n)) ↦ rw f (grown t (ground (arith, b, c)) n)
]

-- How the first loop ended.
pub data TreesEnd (nets : List Prefix) : Made → Type 0 where
  all_grown :
      (s : Service)
      → have_size nets ≡ true
      → IsService s
      → ((ip : Addr) → in_use s ip ≡ kept nets ip)
      → ((p : Prefix) → any_fits s p ≡ nets_fit nets p)
      → TreesEnd nets (made s)
  net_refused : (e : NetErr) → have_size nets ≡ false → TreesEnd nets (failed (tree_error e))

add_ends :
    {net : Prefix} {nets : List Prefix} (r : Result IpTree) (m : Made)
    → TreeEnds net.addr.family net r
    → TreesEnd nets m
    → TreesEnd (net ∷ nets) (add_tree r m)
add_ends r m (refused e h) q = net_refused e (rw h refl)
add_ends r m (grown t h n) (net_refused e g) = net_refused e (rw (h, g) refl)
add_ends {net} {nets} r m (grown t h n) (all_grown s g v all same) =
    all_grown (t ∷ s) (rw (h, g) refl) (n.net_valid, v)
      (λ ip. rw (all ip) (ap (λ (b : Bool). b || kept nets ip) (n.now_allocated ip)))
      (λ p. rw (same p) (ap (λ (b : Bool). b || nets_fit nets p) (fits-new p n)))

pub trees_end : (nets : List Prefix) → AreNets nets → TreesEnd nets (new_trees nets)
unfolding new_trees
trees_end [] v = all_grown [] refl tt (λ ip. refl) (λ p. refl)
trees_end (net ∷ nets) (p, m, v) =
    add_ends (new_tree net.addr.family net) (new_trees nets)
      (tree_ends net.addr.family net refl p m) (trees_end nets v)
