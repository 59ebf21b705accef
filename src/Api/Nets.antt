-- ===== src/Api/Nets.antt =====
-- subnets.go: the handlers of subnets.
pub mod Laws
mod Tests
use tanlnode.Base.{
  ℕ, zero, suc, Bool, false, not, Option, none, some, List, [], ◌∷◌, map, if◌then◌else◌,
}
use tanlnode.Sqlgen.{Text, Int64, Subnet}
use tanlnode.Sqlgen.Tables.{
  Db, Peer, add_subnet, delete_subnet, get_subnet_by_id, get_peer_subnets, get_reserved_subnets,
}
use tanlnode.Sqlgen.Peers.{get_peer_by_public_key}
use tanlnode.Netip.{Prefix}
use tanlnode.AllocNets.{has_host_bits}
use tanlnode.IpTree
use tanlnode.IpTree.{NetErr, Result, ok, err, panic, overlaps, out_of_net}
use tanlnode.Subnets
use tanlnode.Subnets.{delete_at, delete_if, Service, reserve, is_out_of_net}
use tanlnode.Texts.{parse_int}
use tanlnode.Tx.{Exit, done, fails, panics, TxErr, Transactional, do_tx}
use tanlnode.Api.{
  Node, lock, unlock, ApiErr, OutsideErr, outside, net_error, no_rows, adding_subnet,
  getting_subnets, getting_subnet, getting_peer, deleting_subnet, Faults, errors_is, is_net,
  is_no_rows, is_overlaps, SubnetResponse, subnet, subnets, empty, Reply, replied, panicked,
  respond_json, respond_error, internal_server_error, and_respond,
}

-- `ReserveSubnetRequest`
pub record ReserveSubnetRequest : Type 0 where
  pub prefix : Text
  pub comment : Text
  pub may_overlap : Bool

-- `fromDB` of `SubnetResponse`
abbrev pub subnet_from_db : Subnet → SubnetResponse
subnet_from_db row = record {
  id = row.id;
  prefix = row.prefix;
  comment = row.comment;
  may_overlap = row.may_overlap;
}

abbrev pub zero_subnet : SubnetResponse
zero_subnet = record { id = 0; prefix = []; comment = []; may_overlap = false }

-- The node with the variables that `apiReserveSubnet` shares between the functions of the
-- transaction: `tree` and `reservedSubnet`.
pub record Reserving : Type 0 where
  pub node : Node
  pub tree : Option ℕ
  pub reserved_subnet : SubnetResponse

-- The deferred `Unlock` after the body of a function.
abbrev pub with_node : Reserving → Node × Exit ApiErr → Reserving × Exit ApiErr
with_node st (n, e) = (record st { node = n }, e)

module _ (faults : Faults) (print_prefix : Prefix → Text) where
  abbrev pub added_subnet : Reserving → Db × Subnet → Option OutsideErr → Reserving × Exit ApiErr
  added_subnet st (db, row) none = (
    record {
      node = record st.node { db = db };
      tree = st.tree;
      reserved_subnet = subnet_from_db row;
    },
    done,
  )
  added_subnet st (db, row) (some e) = (st, fails (outside e))

  -- `AddSubnet` in the action.
  abbrev pub add_reserved : ReserveSubnetRequest → Prefix → Reserving → Reserving × Exit ApiErr
  add_reserved req pref st =
      added_subnet st
        (add_subnet st.node.db (record {
          prefix = print_prefix pref;
          peer_id = none;
          comment = req.comment;
          may_overlap = req.may_overlap;
        }))
        (faults (adding_subnet 0))

  abbrev pub after_reserve :
      ReserveSubnetRequest → Prefix → Reserving → Service × Result ℕ → Reserving × Exit ApiErr
  after_reserve req pref st (s, ok i) =
      add_reserved req pref (record st { node = record st.node { subnets = s }; tree = some i })
  after_reserve req pref st (s, err e) =
      (record st { node = record st.node { subnets = s }; tree = none }, fails (net_error e))
  after_reserve req pref st (s, panic) =
      (record st { node = record st.node { subnets = s } }, panics)

  abbrev pub reserve_action : ReserveSubnetRequest → Prefix → Reserving → Reserving × Exit ApiErr
  reserve_action req pref st =
      let locked = record st { node = lock st.node } in
      if not req.may_overlap
      then after_reserve req pref locked (reserve st.node.subnets pref)
      else add_reserved req pref locked

  abbrev pub reserve_rollback : Prefix → Reserving → Reserving × Exit ApiErr
  reserve_rollback pref st =
      with_node st (unlock (record st.node { subnets = delete_if st.node.subnets st.tree pref }))

  abbrev pub reserve_commit : Reserving → Reserving × Exit ApiErr
  reserve_commit st = with_node st (unlock st.node)

  abbrev pub reserve_tx : ReserveSubnetRequest → Prefix → Transactional Reserving ApiErr
  reserve_tx req pref = record {
    commit = some reserve_commit;
    action = reserve_action req pref;
    rollback = some (reserve_rollback pref);
  }

  -- The answer to how the transaction ended.
  abbrev pub reserve_reply : Reserving × Exit (TxErr ApiErr) → Node × Reply
  reserve_reply (st, done) = (st.node, respond_json 201 (subnet st.reserved_subnet))
  reserve_reply (st, fails e) = (
    st.node,
    if errors_is (is_net is_overlaps) e
        then respond_error 409
        else if errors_is (is_net is_out_of_net) e
        then respond_error 400
        else internal_server_error,
  )
  reserve_reply (st, panics) = (st.node, panicked)

  -- A prefix that was parsed.
  abbrev pub reserve_parsed : ReserveSubnetRequest → Node → Option Prefix → Node × Reply
  reserve_parsed req n none = (n, respond_error 400)
  reserve_parsed req n (some pref) =
      if has_host_bits pref
      then (n, respond_error 400)
      else reserve_reply (
          do_tx (reserve_tx req pref)
            (record { node = n; tree = none; reserved_subnet = zero_subnet }))

module _ (faults : Faults) (parse_prefix : Text → Option Prefix)
    (print_prefix : Prefix → Text) where
  -- The body of `apiReserveSubnet` for a decoded request.
  abbrev pub reserve_requested : Node → Option ReserveSubnetRequest → Node × Reply
  reserve_requested n none = (n, respond_error 400)
  reserve_requested n (some req) =
      reserve_parsed faults print_prefix req n (parse_prefix req.prefix)

  -- `apiReserveSubnet`; the request is what the JSON decoder gives, `none` its error.
  unfoldable pub api_reserve_subnet : Node → Option ReserveSubnetRequest → Node × Reply
  api_reserve_subnet n req = reserve_requested n req

  -- `node.subnets.Delete(prefix)`, whose result only decides on a warning.
  abbrev pub delete_prefix : Node → Subnet → Prefix → Node
  delete_prefix n row pref =
      if not row.may_overlap then record n { subnets = (Subnets.delete n.subnets pref).0 } else n

  abbrev pub delete_row : Node → ℕ → Option OutsideErr → Node × Reply
  delete_row n id none = (record n { db = (delete_subnet n.db id).0 }, replied ((204, empty) ∷ []))
  delete_row n id (some e) = (n, internal_server_error)

  -- The rest of `apiDeleteSubnet`, with the prefix of the row parsed.
  abbrev pub delete_parsed : Node → ℕ → Subnet → Option Prefix → Node × Reply
  delete_parsed n id row none = (n, internal_server_error)
  delete_parsed n id row (some pref) =
      delete_row (delete_prefix n row pref) id (faults deleting_subnet)

  abbrev pub zero_row : Subnet
  zero_row = record { id = 0; prefix = []; peer_id = none; comment = []; may_overlap = false }

  -- After an error of `GetSubnetByID`: other than `sql.ErrNoRows` it is answered, and the handler
  -- goes on with the zero value of the row.
  abbrev pub delete_failed : Node → ℕ → OutsideErr → Node × Reply
  delete_failed n id e =
      if is_no_rows e
      then (n, respond_error 404)
      else (let rest = delete_parsed n id zero_row (parse_prefix zero_row.prefix) in
          (rest.0, and_respond internal_server_error rest.1))

  abbrev pub delete_found : Node → ℕ → Option Subnet → Option OutsideErr → Node × Reply
  delete_found n id row (some e) = delete_failed n id e
  delete_found n id none none = delete_failed n id no_rows
  delete_found n id (some row) none = delete_parsed n id row (parse_prefix row.prefix)

  abbrev pub delete_id : Node → Option Int64 → Node × Reply
  delete_id n none = (n, respond_error 400)
  delete_id n (some id) = delete_found n id (get_subnet_by_id n.db id) (faults getting_subnet)

  -- `apiDeleteSubnet`; `Unlock` is deferred, so that the lock is free again in all cases.
  unfoldable pub api_delete_subnet : Node → Text → Node × Reply
  api_delete_subnet n id_str = delete_id n (parse_int id_str)

module _ (faults : Faults) where
  abbrev pub respond_subnets : List Subnet → Option OutsideErr → Reply
  respond_subnets rows (some e) = internal_server_error
  respond_subnets rows none = respond_json 200 (subnets (map subnet_from_db rows))

  -- `apiGetReservedSubnets`
  unfoldable pub api_get_reserved_subnets : Node → Reply
  api_get_reserved_subnets n = respond_subnets (get_reserved_subnets n.db) (faults getting_subnets)

  abbrev pub peer_subnets : Node → Option Peer → Option OutsideErr → Reply
  peer_subnets n p (some e) = if is_no_rows e then respond_error 404 else internal_server_error
  peer_subnets n none none = respond_error 404
  peer_subnets n (some p) none =
      respond_subnets (get_peer_subnets n.db p.id) (faults getting_subnets)

  -- `apiGetPeerSubnets`
  unfoldable pub api_get_peer_subnets : Node → Text → Reply
  api_get_peer_subnets n pubkey =
      peer_subnets n (get_peer_by_public_key n.db pubkey) (faults getting_peer)
