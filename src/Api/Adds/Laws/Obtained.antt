-- ===== src/Api/Adds/Laws/Obtained.antt =====
-- The subnets that the action of `apiAddPeer` gets in the trees, and why it gets none.
use tanlnode.Base.{ℕ, zero, suc, ◌≡◌, refl, Bool, true, false, none, some, List, [], ◌∷◌}
use tanlnode.Netip.{Addr, Prefix, IsPrefix}
use tanlnode.Utils.{make_prefix_from_addr}
use tanlnode.IpTree.{NetErr, IpTree, Result, ok, err, out_of_net, overlaps}
use tanlnode.Subnets.{Service, reserve}
use tanlnode.Subnets.Spec.{IsService}
use tanlnode.Subnets.Laws.Reserves.{Reserves, nowhere, taken, reserved_at, reserves}
use tanlnode.Subnets.Laws.Orders.{ReservedAt, here, there}
use tanlnode.Tx.{done, fails}
use tanlnode.Api.{net_error}
use tanlnode.Api.Adds.{ParsedSubnet}
use tanlnode.Api.Adds.Subnets.{reserve_loop, reserved_one, random_subnets}
use tanlnode.Api.Adds.Replies.{tree_at}
use tanlnode.Api.Adds.Laws.Loops.{Loop, loop_both, ArePrefixes}

-- The subnets of the request, with the trees that `Reserve` gave for those that may not overlap.
pub data Reserved : Service → List ParsedSubnet → List ParsedSubnet → Service → Type 0 where
  no_more : (s : Service) → Reserved s [] [] s
  overlapping :
      (s s' : Service) (p : ParsedSubnet) (ps ps' : List ParsedSubnet)
      → p.may_overlap ≡ true
      → Reserved s ps ps' s'
      → Reserved s (p ∷ ps) (p ∷ ps') s'
  exclusive :
      (s s1 s' : Service) (p : ParsedSubnet) (ps ps' : List ParsedSubnet) (i : ℕ)
      → p.may_overlap ≡ false
      → reserve s p.prefix ≡ (s1, ok i)
      → Reserved s1 ps ps' s'
      → Reserved s (p ∷ ps) (record p { tree = some i } ∷ ps') s'

-- `Reserve` refused one of them, after it had given the ones before.
pub data Blocked : Service → List ParsedSubnet → NetErr → Type 0 where
  refused :
      (s : Service) (p : ParsedSubnet) (ps : List ParsedSubnet) (e : NetErr)
      → p.may_overlap ≡ false
      → reserve s p.prefix ≡ (s, err e)
      → Blocked s (p ∷ ps) e
  after_overlapping :
      (s : Service) (p : ParsedSubnet) (ps : List ParsedSubnet) (e : NetErr)
      → p.may_overlap ≡ true
      → Blocked s ps e
      → Blocked s (p ∷ ps) e
  after_exclusive :
      (s s1 : Service) (p : ParsedSubnet) (ps : List ParsedSubnet) (e : NetErr) (i : ℕ)
      → p.may_overlap ≡ false
      → reserve s p.prefix ≡ (s1, ok i)
      → Blocked s1 ps e
      → Blocked s (p ∷ ps) e

-- How the loop that reserves ends.
pub data LoopEnd (s : Service) (ps : List ParsedSubnet) : Loop → Type 0 where
  all_reserved :
      (s' : Service) (ps' : List ParsedSubnet) → Reserved s ps ps' s' → LoopEnd s ps (s', ps', done)
  blocked :
      (s' : Service) (ps' : List ParsedSubnet) (e : NetErr)
      → Blocked s ps e
      → LoopEnd s ps (s', ps', fails (net_error e))

overlap_end :
    (s : Service) (p : ParsedSubnet) (ps : List ParsedSubnet)
    → p.may_overlap ≡ true
    → (r : Loop) → LoopEnd s ps r
    → LoopEnd s (p ∷ ps) (r.0, p ∷ r.1, r.2)
overlap_end s p ps o r (all_reserved s' ps' q) =
    all_reserved s' (p ∷ ps') (overlapping s s' p ps ps' o q)
overlap_end s p ps o r (blocked s' ps' e b) =
    blocked s' (p ∷ ps') e (after_overlapping s p ps e o b)

exclusive_end :
    (s s1 : Service) (p : ParsedSubnet) (ps : List ParsedSubnet) (i : ℕ)
    → p.may_overlap ≡ false
    → reserve s p.prefix ≡ (s1, ok i)
    → (r : Loop) → LoopEnd s1 ps r
    → LoopEnd s (p ∷ ps) (r.0, record p { tree = some i } ∷ r.1, r.2)
exclusive_end s s1 p ps i o g r (all_reserved s' ps' q) =
    all_reserved s' (record p { tree = some i } ∷ ps') (exclusive s s1 s' p ps ps' i o g q)
exclusive_end s s1 p ps i o g r (blocked s' ps' e b) =
    blocked s' (record p { tree = some i } ∷ ps') e (after_exclusive s s1 p ps e i o g b)

one_end :
    (s : Service) (p : ParsedSubnet) (ps : List ParsedSubnet)
    → p.may_overlap ≡ false
    → ((s1 : Service) → IsService s1 → LoopEnd s1 ps (reserve_loop s1 ps))
    → (r : Service × Result ℕ) → Reserves s p.prefix r
    → reserve s p.prefix ≡ r
    → LoopEnd s (p ∷ ps) (reserved_one p ps (λ s'. reserve_loop s' ps) r)
one_end s p ps o go r (nowhere a) g =
    blocked s (record p { tree = none } ∷ ps) out_of_net (refused s p ps out_of_net o g)
one_end s p ps o go r (taken a ip c u) g =
    blocked s (record p { tree = none } ∷ ps) overlaps (refused s p ps overlaps o g)
one_end s p ps o go r (reserved_at a s1 i w all back nets) g =
    exclusive_end s s1 p ps i o g (reserve_loop s1 ps) (go s1 w)

both_end :
    (s : Service) (p : ParsedSubnet) (ps : List ParsedSubnet)
    → IsService s
    → IsPrefix p.prefix
    → ((s1 : Service) → IsService s1 → LoopEnd s1 ps (reserve_loop s1 ps))
    → (b : Bool) → p.may_overlap ≡ b
    → LoopEnd s (p ∷ ps) (loop_both s p ps b)
both_end s p ps v pp go true o = overlap_end s p ps o (reserve_loop s ps) (go s v)
both_end s p ps v pp go false o =
    one_end s p ps o go (reserve s p.prefix) (reserves s p.prefix v pp) refl

pub reserve_loop-LoopEnd :
    (s : Service) (ps : List ParsedSubnet)
    → IsService s
    → ArePrefixes ps
    → LoopEnd s ps (reserve_loop s ps)
unfolding reserve_loop
reserve_loop-LoopEnd s [] v q = all_reserved s [] (no_more s)
reserve_loop-LoopEnd s (p ∷ ps) v (pp, q) =
    both_end s p ps v pp (λ s1 v1. reserve_loop-LoopEnd s1 ps v1 q) p.may_overlap refl

-- The subnets of one random address for each tree, from the i-th on.
abbrev pub AreRandom : ℕ → List Addr → List ParsedSubnet → Type 0
AreRandom i [] [] = Unit
AreRandom i [] (p ∷ ps) = ⊥
AreRandom i (a ∷ addrs) [] = ⊥
AreRandom i (a ∷ addrs) (p ∷ ps) =
    (p.prefix ≡ make_prefix_from_addr a)
    × (p.may_overlap ≡ false)
    × (p.tree ≡ some i)
    × AreRandom (suc i) addrs ps

pub random_subnets-AreRandom :
    (i : ℕ) (addrs : List Addr) → AreRandom i addrs (random_subnets i addrs)
random_subnets-AreRandom i [] = tt
random_subnets-AreRandom i (a ∷ addrs) = (refl, refl, refl, random_subnets-AreRandom (suc i) addrs)

-- The service has an i-th tree.
abbrev pub HasTree : Service → ℕ → Type 0
HasTree s i = (t : IpTree) × (tree_at s i ≡ some t)

pub reserved_tree : {pref : Prefix} (s s' : Service) (i : ℕ) → ReservedAt pref s s' i → HasTree s' i
reserved_tree s s' i (here t t' ts f e v) = (t', refl)
reserved_tree s s' i (there t ts ts' j f r) = reserved_tree ts ts' j r

pub keep_tree :
    {pref : Prefix} (s s' : Service) (i j : ℕ) → ReservedAt pref s s' i → HasTree s j → HasTree s' j
keep_tree s s' i zero (here t t' ts f e v) h = (t', refl)
keep_tree s s' i (suc j) (here t t' ts f e v) h = h
keep_tree s s' i zero (there t ts ts' k f r) h = h
keep_tree s s' i (suc j) (there t ts ts' k f r) h = keep_tree ts ts' k j r h

-- Every subnet has a tree of the service.
abbrev pub HaveTrees : Service → List ParsedSubnet → Type 0
HaveTrees s [] = Unit
HaveTrees s (p ∷ ps) = ((i : ℕ) × (p.tree ≡ some i) × HasTree s i) × HaveTrees s ps
