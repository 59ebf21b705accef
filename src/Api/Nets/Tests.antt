-- ===== src/Api/Nets/Tests.antt =====
-- The handlers of subnets at concrete requests.
use tanlnode.Base.{◌≡◌, refl, false, some, [], ◌∷◌}
use tanlnode.UintTree
use tanlnode.IpTree
use tanlnode.Subnets.{reserve}
use tanlnode.Tx.{Transactional, do_tx}
use tanlnode.Tx.Laws.{CanUndo, DoEnds, do_tx-ends}
use tanlnode.IpTree.Tests.{one, one-IsPrefix}
use tanlnode.Texts.{parse_int, parse_uint}
use tanlnode.Sqlgen.Tables.{select_one}
use tanlnode.Api.{respond_json, replied, subnet, api_error, other, Faults, ApiErr}
use tanlnode.Api.Samples.{
  node0, no_faults, parse_one_prefix, print_slash, parse_one-IsPrefix, home_service-IsService,
  home_service-AreDisjoint,
}
use tanlnode.Api.Nets.{
  ReserveSubnetRequest, Reserving, reserve_tx, api_reserve_subnet, api_delete_subnet,
}
use tanlnode.Api.Nets.Laws.Undoing.{start, node_of, reserve_tx-CanUndo}
use tanlnode.Api.Nets.Laws.Reserving.{ReserveAnswers, api_reserve_subnet-answers}

abbrev request : ReserveSubnetRequest
request = record { prefix = 1 ∷ []; comment = []; may_overlap = false }

api_reserve_subnet-answers_example :
    ReserveAnswers no_faults parse_one_prefix print_slash node0
      (some request)
      (api_reserve_subnet no_faults parse_one_prefix print_slash node0 (some request))
api_reserve_subnet-answers_example =
    api_reserve_subnet-answers no_faults parse_one_prefix print_slash node0 parse_one-IsPrefix
      home_service-IsService home_service-AreDisjoint refl (some request)

reserve_created :
    (api_reserve_subnet no_faults parse_one_prefix print_slash node0 (some request)).1
    ≡ respond_json 201
        (subnet (record { id = 1; prefix = 47 ∷ []; comment = []; may_overlap = false }))
unfolding api_reserve_subnet do_tx reserve IpTree.put UintTree.put
reserve_created = refl

-- A query that fails is answered twice.
abbrev no_subnet : Faults
no_subnet call = some other

delete_answered_twice :
    (api_delete_subnet no_subnet parse_one_prefix print_slash node0 (49 ∷ [])).1
    ≡ replied ((500, api_error) ∷ (500, api_error) ∷ [])
unfolding api_delete_subnet parse_int parse_uint select_one
delete_answered_twice = refl

-- The transaction of a request whose row the database refuses.
abbrev home_tx : Transactional Reserving ApiErr
home_tx = reserve_tx no_subnet print_slash request (one 1)

home_tx-CanUndo :
    CanUndo
      (node_of no_subnet parse_one_prefix print_slash request (one 1) node0)
      home_tx
      (start no_subnet parse_one_prefix print_slash request (one 1) node0)
home_tx-CanUndo =
    reserve_tx-CanUndo no_subnet parse_one_prefix print_slash request (one 1) node0 refl
      home_service-IsService one-IsPrefix

do_tx-ends_example :
    DoEnds
      (node_of no_subnet parse_one_prefix print_slash request (one 1) node0)
      home_tx
      (start no_subnet parse_one_prefix print_slash request (one 1) node0)
      home_tx-CanUndo.commit
      (do_tx home_tx (start no_subnet parse_one_prefix print_slash request (one 1) node0))
do_tx-ends_example =
    do_tx-ends (node_of no_subnet parse_one_prefix print_slash request (one 1) node0) home_tx
      (start no_subnet parse_one_prefix print_slash request (one 1) node0) home_tx-CanUndo
