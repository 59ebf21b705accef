-- ===== src/Api/Prepare.antt =====
-- stats_cache.go: `prepareWGAndPeerStatsCache`, which fills WireGuard and the cache from the database.
mod Tests
use tanlnode.Base.{
  ℕ, zero, suc, ◌+◌, Bool, true, false, not, Option, none, some, List, [], ◌∷◌, map, if◌then◌else◌,
}
use tanlnode.Sqlgen.{Text, Int64, get_last_peer_stat}
use tanlnode.Sqlgen.Tables.{Db, Peer, get_peer_subnets}
use tanlnode.Sqlgen.Peers.{get_peers}
use tanlnode.Netip.{Prefix}
use tanlnode.PeerStats.{is_empty, make_total_stats_calc}
use tanlnode.Stats.{tx_of, rx_of}
use tanlnode.StatsCache.{Cache, PeerStatCache, remove}
use tanlnode.Sqlgen.{same_text}
use tanlnode.Wg.Puts.{PeerConfig}
use tanlnode.Api.{Node, put, removed}
use tanlnode.Api.Outside.{Outside}
use tanlnode.Api.Changes.{parse_rows}

-- `parsedPeer`
pub record ParsedPeer : Type 0 where
  pub id : ℕ
  pub wg_cfg : PeerConfig
  pub total_rx : Int64
  pub total_tx : Int64

-- Which calls fail: `GetPeers`; for the i-th peer `GetPeerSubnets` and `GetLastPeerStat`, other than
-- with `sql.ErrNoRows`, and the calls of WireGuard; and for the i-th peer the `RemovePeer` of the
-- rollback.
pub record PrepareFaults : Type 0 where
  pub getting_peers : Bool
  pub getting_subnets : ℕ → Bool
  pub getting_stat : ℕ → Bool
  pub removing : ℕ → Bool
  pub putting : ℕ → Bool
  pub rolling_back : ℕ → Bool

-- The write of the cache for a peer.
abbrev pub put_cached : Cache → ParsedPeer → Cache
put_cached cache p key =
    if same_text p.wg_cfg.public_key key
    then some (record { peer_id = p.id; total_calc = make_total_stats_calc p.total_tx p.total_rx })
    else cache key

abbrev pub wg_remove : Bool → Node → ParsedPeer → Node
wg_remove fails n p =
    if fails then n else record n { wg_calls = removed p.wg_cfg.public_key ∷ n.wg_calls }

abbrev pub prepared_one : Node → ParsedPeer → Node
prepared_one n p = record n { cache = put_cached n.cache p; wg_calls = put p.wg_cfg ∷ n.wg_calls }

abbrev pub some_key : Option Text → Option (Option Text)
some_key none = none
some_key (some key) = some (some key)

abbrev pub parsed_peer :
    Peer
    → Int64 × Int64
    → Option Text
    → Option (Option Text)
    → Option (List Text)
    → Option ParsedPeer
parsed_peer p stat none psk ips = none
parsed_peer p stat (some key) none ips = none
parsed_peer p stat (some key) (some psk) none = none
parsed_peer p (tx, rx) (some key) (some psk) (some ips) = some (record {
  id = p.id;
  wg_cfg = record {
    public_key = key;
    preshared_key = psk;
    endpoint = p.endpoint;
    persistent_keepalive = p.persistent_keepalive;
    allowed_ips = ips;
  };
  total_rx = rx;
  total_tx = tx;
})

abbrev pub append_parsed : Option ParsedPeer → Option (List ParsedPeer) → Option (List ParsedPeer)
append_parsed none rest = none
append_parsed (some p) none = none
append_parsed (some p) (some ps) = some (p ∷ ps)

module _ (faults : PrepareFaults) where
  -- The loop over the peers from the i-th on, and where it failed.
  unfoldable pub prepare_loop : ℕ → Node → List ParsedPeer → Node × Option ℕ
  prepare_loop i n [] = (n, none)
  prepare_loop i n (p ∷ ps) = elim (faults.removing i) [
    | true ↦ (n, some i)
    | false ↦ elim (faults.putting i) [
      | true ↦ (wg_remove false n p, some i)
      | false ↦ prepare_loop (suc i) (prepared_one (wg_remove false n p) p) ps
    ]
  ]

  -- The rollback of the first `count` peers, from the i-th on. The error of `RemovePeer` is dropped.
  unfoldable pub undo_prepared : ℕ → ℕ → Node → List ParsedPeer → Node
  undo_prepared i count n [] = n
  undo_prepared i zero n (p ∷ ps) = n
  undo_prepared i (suc count) n (p ∷ ps) =
      let n1 = wg_remove (faults.rolling_back i) n p in
      undo_prepared (suc i) count (record n1 { cache = remove n1.cache p.wg_cfg.public_key }) ps

  -- Whether it prepared the peers, and the node.
  abbrev pub prepare_ended : List ParsedPeer → Node × Option ℕ → Node × Bool
  prepare_ended ps (n, none) = (n, true)
  prepare_ended ps (n, some err_at) = (undo_prepared 0 (suc err_at) n ps, false)

  abbrev pub prepare_parsed : Node → Option (List ParsedPeer) → Node × Bool
  prepare_parsed n none = (n, false)
  prepare_parsed n (some ps) = prepare_ended ps (prepare_loop 0 n ps)

  module _ (o : Outside) where
    -- The preshared key of a row: nil where it is empty; `none` is an error.
    abbrev pub stored_psk : Text → Option (Option Text)
    stored_psk text = if not (is_empty text) then some_key (o.parse_key text) else some none

    abbrev pub strings : Option (List Prefix) → Option (List Text)
    strings none = none
    strings (some prefs) = some (map o.prefix_string prefs)

    -- The subnets of the i-th peer; `none` is an error.
    abbrev pub load_subnets : ℕ → Db → Peer → Option (List Text)
    load_subnets i db p =
        if faults.getting_subnets i then none else strings (parse_rows o (get_peer_subnets db p.id))

    abbrev pub last_total : Db → Peer → Int64 × Int64
    last_total db p =
        let stat = get_last_peer_stat db.peer_stats p.id none in (tx_of stat, rx_of stat)

    abbrev pub load_peer : ℕ → Db → Peer → Option ParsedPeer
    load_peer i db p =
        if faults.getting_stat i
        then none
        else parsed_peer p (last_total db p) (o.parse_key p.public_key_base64)
            (stored_psk p.preshared_key_base64) (load_subnets i db p)

    -- The loop over the rows, from the i-th on; `none` is an error.
    unfoldable pub load_peers : ℕ → Db → List Peer → Option (List ParsedPeer)
    load_peers i db [] = some []
    load_peers i db (p ∷ ps) = append_parsed (load_peer i db p) (load_peers (suc i) db ps)

    -- `prepareWGAndPeerStatsCache`: the node, and whether there was no error.
    unfoldable pub prepare_wg_and_peer_stats_cache : Node → Node × Bool
    prepare_wg_and_peer_stats_cache n =
        prepare_parsed n
          (if faults.getting_peers then none else load_peers 0 n.db (get_peers n.db none))
