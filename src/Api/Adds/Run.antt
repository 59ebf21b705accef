-- ===== src/Api/Adds/Run.antt =====
-- peers.go: `apiAddPeer`: the transaction.
use tanlnode.Base.{
  ℕ, zero, suc, true, false, Option, none, some, List, [], ◌∷◌, map, if◌then◌else◌, ◌==◌,
}
use tanlnode.Sqlgen.Tables.{Db, Peer, AddSubnetParams, add_subnet}
use tanlnode.Sqlgen.Peers.{AddPeerParams, add_peer}
use tanlnode.Netip.{Addr}
use tanlnode.StatsCache.{put_new, remove}
use tanlnode.IpTree.{Result, ok, err, panic}
use tanlnode.Subnets.{Service, assign_random_in_each_net}
use tanlnode.Texts.{length}
use tanlnode.Tx.{Exit, done, fails, panics, Transactional}
use tanlnode.Wg.Puts.{PeerConfig}
use tanlnode.Api.{
  Node, lock, put, ApiErr, OutsideErr, outside, net_error, constraint, adding_subnet, adding_peer,
  begin_tx, commit_tx, rollback_tx, putting_in_wg, drawing_port,
}
use tanlnode.Api.Outside.{Outside}
use tanlnode.Api.Adds.{AddPeerRequest, ParsedSubnet, Keys, key_text}
use tanlnode.Api.Adds.Subnets.{delete_trees, reserve_loop, random_subnets}

-- The node with the variables that the functions of the transaction share: `dbTx`, by the database
-- from before it; `dbPeer`; `parsedSubnets`; and `endpointPort`.
pub record Adding : Type 0 where
  pub node : Node
  pub db_tx : Option Db
  pub db_peer : Peer
  pub parsed_subnets : List ParsedSubnet
  pub endpoint_port : ℕ

abbrev pub zero_peer : Peer
zero_peer = record {
  id = 0;
  public_key_base64 = [];
  is_enabled = false;
  preshared_key_base64 = [];
  endpoint = [];
  persistent_keepalive = 0;
  owner = [];
  latest_handshake_at = none;
  latest_endpoint = none;
}

-- What follows where no error was returned.
abbrev pub then_do : Adding × Exit ApiErr → (Adding → Adding × Exit ApiErr) → Adding × Exit ApiErr
then_do (st, done) f = f st
then_do (st, fails e) f = (st, fails e)
then_do (st, panics) f = (st, panics)

-- A deferred `Unlock` after the body of a function.
abbrev pub deferred_unlock : Adding × Exit ApiErr → Adding × Exit ApiErr
deferred_unlock (st, e) =
    if st.node.locked
    then (record st { node = record st.node { locked = false } }, e)
    else (st, panics)

abbrev pub back_to : Option Db → Adding → Adding
back_to none st = st
back_to (some db) st = record st { node = record st.node { db = db } }

abbrev pub exit_of : Option OutsideErr → Exit ApiErr
exit_of none = done
exit_of (some e) = fails (outside e)

-- `WGEndpointPorts[i]`; the random index is below the length.
abbrev pub port_at : List ℕ → ℕ → ℕ
port_at [] i = 0
port_at (port ∷ ports) zero = port
port_at (port ∷ ports) (suc i) = port_at ports i

module _ (o : Outside) where
  module _ (req : AddPeerRequest) (keys : Keys) where
    abbrev pub begun : Adding → Option OutsideErr → Adding × Exit ApiErr
    begun st none = (record st { db_tx = some st.node.db }, done)
    begun st (some e) = (st, fails (outside e))

    abbrev pub peer_params : AddPeerParams
    peer_params = record {
      public_key_base64 = o.key_string keys.public_key;
      is_enabled = true;
      preshared_key_base64 = key_text o keys.preshared_key;
      endpoint = req.endpoint;
      persistent_keepalive = req.persistent_keepalive;
      owner = req.owner;
    }

    abbrev pub peer_added : Adding → Option (Db × Peer) → Option OutsideErr → Adding × Exit ApiErr
    peer_added st r (some e) = (st, fails (outside e))
    peer_added st none none = (st, fails (outside constraint))
    peer_added st (some (db, p)) none =
        (record st { node = record st.node { db = db }; db_peer = p }, done)

    -- "Add peer to DB"
    abbrev pub insert_in_db : Adding → Adding × Exit ApiErr
    insert_in_db st = peer_added st (add_peer st.node.db peer_params) (o.faults adding_peer)

    abbrev pub loop_ended :
        Adding → Service × List ParsedSubnet × Exit ApiErr → Adding × Exit ApiErr
    loop_ended st (s, ps, e) =
        (record st { node = record st.node { subnets = s }; parsed_subnets = ps }, e)

    abbrev pub random_ended : Adding → Service × Result (List Addr) → Adding × Exit ApiErr
    random_ended st (s, ok addrs) = (
      record st { node = record st.node { subnets = s }; parsed_subnets = random_subnets 0 addrs },
      done,
    )
    random_ended st (s, err e) =
        (record st { node = record st.node { subnets = s } }, fails (net_error e))
    random_ended st (s, panic) = (record st { node = record st.node { subnets = s } }, panics)

    abbrev pub assign_subnets : List ParsedSubnet → Adding → Adding × Exit ApiErr
    assign_subnets [] st = random_ended st (assign_random_in_each_net o.rand st.node.subnets)
    assign_subnets (p ∷ ps) st = loop_ended st (reserve_loop st.node.subnets (p ∷ ps))

    -- "Reserve or allocate subnets in nettree"
    abbrev pub assign : Adding → Adding × Exit ApiErr
    assign st = assign_subnets st.parsed_subnets st

    abbrev pub subnet_params : ℕ → ParsedSubnet → AddSubnetParams
    subnet_params peer_id p = record {
      prefix = o.print_prefix p.prefix;
      peer_id = some peer_id;
      comment = [];
      may_overlap = p.may_overlap;
    }

    -- "Put addresses to DB", from the i-th on.
    unfoldable pub put_rows : ℕ → ℕ → Db → List ParsedSubnet → Db × Exit ApiErr
    put_rows peer_id i db [] = (db, done)
    put_rows peer_id i db (p ∷ ps) = elim (o.faults (adding_subnet i)) [
      | none ↦ put_rows peer_id (suc i) (add_subnet db (subnet_params peer_id p)).0 ps
      | some e ↦ (db, fails (outside e))
    ]

    abbrev pub rows_put : Adding → Db × Exit ApiErr → Adding × Exit ApiErr
    rows_put st (db, e) = (record st { node = record st.node { db = db } }, e)

    abbrev pub put_addresses : Adding → Adding × Exit ApiErr
    put_addresses st = rows_put st (put_rows st.db_peer.id 0 st.node.db st.parsed_subnets)

    abbrev pub peer_config : List ParsedSubnet → PeerConfig
    peer_config ps = record {
      public_key = keys.public_key;
      preshared_key = keys.preshared_key;
      endpoint = req.endpoint;
      persistent_keepalive = req.persistent_keepalive;
      allowed_ips = map (λ (p : ParsedSubnet). o.prefix_string p.prefix) ps;
    }

    abbrev pub wg_ended : Adding → Option OutsideErr → Adding × Exit ApiErr
    wg_ended st (some e) = (st, fails (outside e))
    wg_ended st none = (
      record st {
        node = record st.node { wg_calls = put (peer_config st.parsed_subnets) ∷ st.node.wg_calls };
      },
      done,
    )

    -- "Add peer to wg"
    abbrev pub put_in_wg : Adding → Adding × Exit ApiErr
    put_in_wg st = wg_ended st (o.faults putting_in_wg)

    abbrev pub port_ended : Adding → Option OutsideErr → Adding × Exit ApiErr
    port_ended st (some e) = (st, fails (outside e))
    port_ended st none =
        (record st { endpoint_port = port_at o.ports (o.draw_port (length o.ports)) }, done)

    -- "Pick a random port"; `rand.Int` panics where there is none.
    abbrev pub pick_port : Adding → Adding × Exit ApiErr
    pick_port st =
        if length o.ports == 0 then (st, panics) else port_ended st (o.faults drawing_port)

    abbrev pub put_in_cache : Adding → Adding × Exit ApiErr
    put_in_cache st = (
      record st {
        node = record st.node { cache = put_new st.node.cache keys.public_key st.db_peer.id };
      },
      done,
    )

    abbrev pub add_action : Adding → Adding × Exit ApiErr
    add_action st =
        let st1 = record st { node = lock st.node } in
        then_do (begun st1 (o.faults begin_tx)) (λ st2. then_do (insert_in_db st2) (λ st3.
          then_do (assign st3) (λ st4.
            then_do (put_addresses st4)
              (λ st5. then_do (put_in_wg st5) (λ st6. then_do (pick_port st6) put_in_cache)))))

    abbrev pub commit_body : Adding → Option Db → Option OutsideErr → Adding × Exit ApiErr
    commit_body st none e = (st, done)
    commit_body st (some db) none = (st, done)
    commit_body st (some db) (some e) = (back_to (some db) st, fails (outside e))

    -- A transaction that fails to commit is rolled back by the driver.
    abbrev pub add_commit : Adding → Adding × Exit ApiErr
    add_commit st = deferred_unlock (commit_body st st.db_tx (o.faults commit_tx))

    abbrev pub rollback_exit : Option Db → Exit ApiErr
    rollback_exit none = done
    rollback_exit (some db) = exit_of (o.faults rollback_tx)

    abbrev pub add_rollback : Adding → Adding × Exit ApiErr
    add_rollback st =
        let st1 = back_to st.db_tx st in
        deferred_unlock (
          record st1 {
            node = record st1.node {
              subnets = delete_trees st1.node.subnets st1.parsed_subnets;
              cache = remove st1.node.cache keys.public_key;
            };
          },
          rollback_exit st.db_tx,
        )

    abbrev pub add_tx : Transactional Adding ApiErr
    add_tx = record { commit = some add_commit; action = add_action; rollback = some add_rollback }
