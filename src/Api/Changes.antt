-- ===== src/Api/Changes.antt =====
-- peers.go: `apiDeletePeer` and `apiUpdatePeer`.
pub mod Laws
mod Tests
use tanlnode.Base.{ℕ, Bool, false, not, Option, none, some, List, [], ◌∷◌, map, if◌then◌else◌, ◌==◌}
use tanlnode.Sqlgen.{Text, Int64, Subnet}
use tanlnode.Sqlgen.Tables.{Db, Peer, get_peer_subnets}
use tanlnode.Sqlgen.Peers.{UpdatePeerParams, remove_peer, update_peer}
use tanlnode.Netip.{Prefix}
use tanlnode.PeerStats.{is_empty}
use tanlnode.Tx.{Exit, done, fails, panics, TxErr, Transactional, do_tx}
use tanlnode.Wg.Puts.{PeerConfig}
use tanlnode.Api.{
  Node, lock, put, removed, ApiErr, OutsideErr, outside, constraint, no_rows, other, removing_peer,
  updating_peer, getting_subnets, putting_in_wg, removing_from_wg, errors_is, is_outside,
  is_no_rows, message, empty, Reply, panicked, respond_json, respond_error, internal_server_error,
}
use tanlnode.Api.Outside.{Outside}
use tanlnode.Api.Adds.{key_text}

-- A deferred `Unlock`.
abbrev pub unlocked_after : Node × Exit ApiErr → Node × Exit ApiErr
unlocked_after (n, e) = if n.locked then (record n { locked = false }, e) else (n, panics)

-- `Commit` and `Rollback` of both handlers: `dbTx` is nil, for neither begins a transaction.
abbrev pub no_tx : Node → Node × Exit ApiErr
no_tx n = (n, done)

abbrev pub change : (Node → Node × Exit ApiErr) → Transactional Node ApiErr
change action = record { commit = some no_tx; action = action; rollback = some no_tx }

-- `UpdatePeerRequest`
pub record UpdatePeerRequest : Type 0 where
  pub is_enabled : Bool
  pub preshared_key_base64 : Text
  pub endpoint : Text
  pub persistent_keepalive : Int64
  pub owner : Text

module _ (o : Outside) where
  abbrev pub wg_removed : Node → Text → Option OutsideErr → Node × Exit ApiErr
  wg_removed n key none = (record n { wg_calls = removed key ∷ n.wg_calls }, done)
  wg_removed n key (some e) = (n, fails (outside e))

  abbrev pub row_removed : Node → Text → Option (Db × ℕ) → Option OutsideErr → Node × Exit ApiErr
  row_removed n key r (some e) = (n, fails (outside e))
  row_removed n key none none = (n, fails (outside constraint))
  row_removed n key (some (db, rows)) none =
      if rows == 0
      then (record n { db = db }, fails (outside no_rows))
      else wg_removed (record n { db = db }) key (o.faults removing_from_wg)

  abbrev pub delete_action : Text → Node → Node × Exit ApiErr
  delete_action key n =
      unlocked_after
        (row_removed (lock n) key (remove_peer n.db (o.key_string key)) (o.faults removing_peer))

  abbrev pub delete_reply : Node × Exit (TxErr ApiErr) → Node × Reply
  delete_reply (n, done) = (n, respond_json 204 empty)
  delete_reply (n, fails e) = (
    n,
    if errors_is (is_outside is_no_rows) e then respond_json 404 message else internal_server_error,
  )
  delete_reply (n, panics) = (n, panicked)

  abbrev pub delete_key : Node → Option Text → Node × Reply
  delete_key n none = (n, respond_error 400)
  delete_key n (some key) = delete_reply (do_tx (change (delete_action key)) n)

  -- `apiDeletePeer`
  unfoldable pub api_delete_peer : Node → Text → Node × Reply
  api_delete_peer n pubkey = delete_key n (o.parse_key pubkey)

  -- The loop over the subnets; `none` is the error of a row that does not parse.
  abbrev pub parse_one : Option Prefix → Option (List Prefix) → Option (List Prefix)
  parse_one none rest = none
  parse_one (some pref) none = none
  parse_one (some pref) (some prefs) = some (pref ∷ prefs)

  unfoldable pub parse_rows : List Subnet → Option (List Prefix)
  parse_rows [] = some []
  parse_rows (row ∷ rows) = parse_one (o.parse_prefix row.prefix) (parse_rows rows)

  module _ (pubkey key : Text) (req : UpdatePeerRequest) (psk : Option Text) where
    abbrev pub update_params : UpdatePeerParams
    update_params = record {
      is_enabled = req.is_enabled;
      preshared_key_base64 = key_text o psk;
      endpoint = req.endpoint;
      persistent_keepalive = req.persistent_keepalive;
      owner = req.owner;
      public_key_base64 = pubkey;
    }

    abbrev pub updated_config : List Prefix → PeerConfig
    updated_config prefs = record {
      public_key = key;
      preshared_key = psk;
      endpoint = req.endpoint;
      persistent_keepalive = req.persistent_keepalive;
      allowed_ips = map o.prefix_string prefs;
    }

    abbrev pub put_again : Node → List Prefix → Option OutsideErr → Node × Exit ApiErr
    put_again n prefs (some e) = (n, fails (outside e))
    put_again n prefs none = (record n { wg_calls = put (updated_config prefs) ∷ n.wg_calls }, done)

    abbrev pub replace : List Prefix → Node × Exit ApiErr → Node × Exit ApiErr
    replace prefs (n, done) =
        if req.is_enabled then put_again n prefs (o.faults putting_in_wg) else (n, done)
    replace prefs (n, fails e) = (n, fails e)
    replace prefs (n, panics) = (n, panics)

    abbrev pub with_prefixes : Node → Option (List Prefix) → Node × Exit ApiErr
    with_prefixes n none = (n, fails (outside other))
    with_prefixes n (some prefs) = replace prefs (wg_removed n key (o.faults removing_from_wg))

    abbrev pub with_rows : Node → List Subnet → Option OutsideErr → Node × Exit ApiErr
    with_rows n rows (some e) = (n, fails (outside e))
    with_rows n rows none = with_prefixes n (parse_rows rows)

    abbrev pub row_updated : Node → Option (Db × Peer) → Option OutsideErr → Node × Exit ApiErr
    row_updated n r (some e) = (n, fails (outside e))
    row_updated n none none = (n, fails (outside no_rows))
    row_updated n (some (db, p)) none =
        with_rows (record n { db = db }) (get_peer_subnets db p.id) (o.faults getting_subnets)

    abbrev pub update_action : Node → Node × Exit ApiErr
    update_action n =
        unlocked_after
          (row_updated (lock n) (update_peer n.db update_params) (o.faults updating_peer))

    abbrev pub update_reply : Node × Exit (TxErr ApiErr) → Node × Reply
    update_reply (n, done) = (n, respond_json 204 empty)
    update_reply (n, fails e) = (
      n,
      if errors_is (is_outside is_no_rows) e then respond_error 404 else internal_server_error,
    )
    update_reply (n, panics) = (n, panicked)

    unfoldable pub update_with_keys : Node → Node × Reply
    update_with_keys n = update_reply (do_tx (change update_action) n)

  abbrev pub update_psk : Node → Text → Text → UpdatePeerRequest → Option Text → Node × Reply
  update_psk n pubkey key req none = (n, respond_error 400)
  update_psk n pubkey key req (some psk) = update_with_keys pubkey key req (some psk) n

  abbrev pub update_requested : Node → Text → Text → Option UpdatePeerRequest → Node × Reply
  update_requested n pubkey key none = (n, respond_error 400)
  update_requested n pubkey key (some req) =
      if not (is_empty req.preshared_key_base64)
      then update_psk n pubkey key req (o.parse_key req.preshared_key_base64)
      else update_with_keys pubkey key req none n

  abbrev pub update_key : Node → Text → Option UpdatePeerRequest → Option Text → Node × Reply
  update_key n pubkey req none = (n, respond_error 400)
  update_key n pubkey req (some key) = update_requested n pubkey key req

  -- `apiUpdatePeer`; the request is what the JSON decoder gives, `none` its error.
  unfoldable pub api_update_peer : Node → Text → Option UpdatePeerRequest → Node × Reply
  api_update_peer n pubkey req = update_key n pubkey req (o.parse_key pubkey)
