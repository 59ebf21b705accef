-- ===== src/Api/Adds/Subnets.antt =====
-- peers.go: `apiAddPeer`: the subnets of the new peer in the trees.
use tanlnode.Base.{ℕ, suc, true, false, none, some, List, [], ◌∷◌}
use tanlnode.Netip.{Addr}
use tanlnode.Utils.{make_prefix_from_addr}
use tanlnode.IpTree.{Result, ok, err, panic}
use tanlnode.Subnets.{delete_if, Service, reserve}
use tanlnode.Tx.{Exit, done, fails, panics}
use tanlnode.Api.{ApiErr, net_error}
use tanlnode.Api.Adds.{ParsedSubnet}

abbrev pub delete_trees : Service → List ParsedSubnet → Service
delete_trees s [] = s
delete_trees s (p ∷ ps) = delete_trees (delete_if s p.tree p.prefix) ps

-- The loop over `parsedSubnets` that reserves: the trees, the subnets, and how it ended.
abbrev pub reserved_one :
    ParsedSubnet
    → List ParsedSubnet
    → (Service → Service × List ParsedSubnet × Exit ApiErr)
    → Service × Result ℕ
    → Service × List ParsedSubnet × Exit ApiErr
reserved_one p ps rest (s, ok i) =
    let (s', ps', e) = rest s in (s', record p { tree = some i } ∷ ps', e)
reserved_one p ps rest (s, err e) = (s, record p { tree = none } ∷ ps, fails (net_error e))
reserved_one p ps rest (s, panic) = (s, p ∷ ps, panics)

unfoldable pub reserve_loop :
    Service → List ParsedSubnet → Service × List ParsedSubnet × Exit ApiErr
reserve_loop s [] = (s, [], done)
reserve_loop s (p ∷ ps) = elim p.may_overlap [
  | true ↦ let (s', ps', e) = reserve_loop s ps in (s', p ∷ ps', e)
  | false ↦ reserved_one p ps (λ s'. reserve_loop s' ps) (reserve s p.prefix)
]

-- The subnets of the random addresses, from the i-th tree on.
abbrev pub random_subnets : ℕ → List Addr → List ParsedSubnet
random_subnets i [] = []
random_subnets i (a ∷ addrs) =
    record { prefix = make_prefix_from_addr a; may_overlap = false; tree = some i }
    ∷ random_subnets (suc i) addrs
