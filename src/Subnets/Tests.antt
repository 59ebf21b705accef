-- ===== src/Subnets/Tests.antt =====
-- The theorems about the service at concrete inputs.
use tanlnode.Base.{ℕ, ◌≡◌, ◌≢◌, ◌↔◌, refl, true, false, ◌&&◌, ◌||◌, Option, none, some, [], ◌∷◌}
use tanlnode.Netip.{Addr, Prefix, IsPrefix, contains}
use tanlnode.UintTree
use tanlnode.IpTree
use tanlnode.IpTree.{IpTree, ok, err, panic, out_of_net, overlaps, no_free_addr, allocate_random}
use tanlnode.IpTree.Spec.{is_ok}
use tanlnode.IpTree.Tests.{
  home, home_net, one, address, home-IsPrefix, home_net-IsNet, one-IsPrefix, last-IsPrefix,
}
use tanlnode.Sqlgen.{Text, Subnet}
use tanlnode.Subnets.{Service, reserve, delete, assign_loop, assign_random_in_each_net, new_service}
use tanlnode.Subnets.Spec.{in_use, IsService, any_fits, IsRandom}
use tanlnode.Subnets.Laws.Reserves.{in_use-reserve, reserve_errors, delete-reserve}
use tanlnode.Subnets.Laws.Assigns.{AssignEnds, assign-ends}
use tanlnode.Subnets.Laws.Trees.{AreNets}
use tanlnode.Subnets.Laws.News.{ServiceEnds, new_service-ends}

abbrev one_net : Service
one_net = home_net ∷ []

one_net-IsService : IsService one_net
one_net-IsService = (home_net-IsNet, tt)

in_use-reserve_example :
    in_use (reserve one_net (one 1)).0 (address 1)
    ≡ in_use one_net (address 1)
      || is_ok (reserve one_net (one 1)).1 && contains (one 1) (address 1)
in_use-reserve_example = in_use-reserve one_net one_net-IsService one-IsPrefix (address 1)

reserve_errors_example :
    (((reserve one_net (one 3)).1 ≡ err out_of_net) ↔ (any_fits one_net (one 3) ≡ false))
    × (((reserve one_net (one 3)).1 ≡ err overlaps)
        → (ip : Addr) × (contains (one 3) ip ≡ true) × (in_use one_net ip ≡ true))
    × ((is_ok (reserve one_net (one 3)).1 ≡ false) → (reserve one_net (one 3)).0 ≡ one_net)
    × ((reserve one_net (one 3)).1 ≢ panic)
reserve_errors_example = reserve_errors one_net one_net-IsService last-IsPrefix

reserve_run : is_ok (reserve one_net (one 1)).1 ≡ true
unfolding reserve IpTree.put UintTree.put
reserve_run = refl

delete-reserve_example : delete (reserve one_net (one 1)).0 (one 1) ≡ (one_net, true)
delete-reserve_example = delete-reserve one_net one_net-IsService one-IsPrefix reserve_run

-- The random source that always gives 0.
abbrev zeros : ℕ → ℕ → ℕ
zeros i max = 0

zeros-IsRandom : IsRandom zeros
zeros-IsRandom i max h = h

assign_run : (assign_random_in_each_net zeros one_net).1 ≡ ok (address 1 ∷ [])
unfolding assign_random_in_each_net assign_loop allocate_random UintTree.put_nth_free UintTree.size
    UintTree.put
assign_run = refl

assign-ends_example : AssignEnds one_net (assign_random_in_each_net zeros one_net)
assign-ends_example = assign-ends zeros one_net zeros-IsRandom one_net-IsService

-- A parser that knows one text, of the free host 1.
abbrev parse_one : Text → Option Prefix
parse_one [] = none
parse_one (c ∷ text) = some (one 1)

parse_one-IsPrefix : (text : Text) (p : Prefix) → parse_one text ≡ some p → IsPrefix p
parse_one-IsPrefix [] p e = cc
parse_one-IsPrefix (c ∷ text) p e = rw (← e') one-IsPrefix
  where
    e' : one 1 ≡ p
    e' = cc e

abbrev host_row : Subnet
host_row = record { id = 1; prefix = 49 ∷ []; peer_id = none; comment = []; may_overlap = false }

home-AreNets : AreNets (home ∷ [])
home-AreNets = (home-IsPrefix, refl, tt)

new_service-ends_example :
    ServiceEnds parse_one parse_one-IsPrefix
      (home ∷ [])
      (some (host_row ∷ []))
      (new_service parse_one (home ∷ []) (some (host_row ∷ [])))
new_service-ends_example =
    new_service-ends parse_one parse_one-IsPrefix (home ∷ []) (some (host_row ∷ [])) home-AreNets
