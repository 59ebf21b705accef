-- ===== src/Api/Reads.antt =====
-- peers.go and stats.go: the handlers that only read.
use tanlnode.Base.{
  ℕ, suc, not, Option, none, some, List, [], ◌∷◌, map, if◌then◌else◌, ◌⊎◌, inl, inr,
}
use tanlnode.Sqlgen.{Text, Int64}
use tanlnode.Sqlgen.Tables.{Peer}
use tanlnode.Sqlgen.Peers.{get_peer_by_public_key, get_peers}
use tanlnode.PeerStats.{is_empty}
use tanlnode.Stats.{get_peer_stats}
use tanlnode.Texts.{parse_int}
use tanlnode.Api.{
  Node, OutsideErr, no_rows, other, getting_peer, getting_peers, getting_stat, Faults, is_no_rows,
  TransferStatResponse, message, peer, peers, stat, stats, Reply, respond_json, respond_error,
  internal_server_error,
}
use tanlnode.Api.Peers.{peer_from_db}

-- `ownerOrNil`
abbrev pub owner_or_nil : Text → Option Text
owner_or_nil owner = if not (is_empty owner) then some owner else none

-- One bound of `parsePeriod`, 0 where it is left out.
abbrev pub parse_bound : Text → Option Int64
parse_bound text = if not (is_empty text) then parse_int text else some 0

abbrev pub both_bounds : Option Int64 → Option Int64 → Option (Int64 × Int64)
both_bounds none to_ms = none
both_bounds (some from_ms) none = none
both_bounds (some from_ms) (some to_ms) = some (from_ms, to_ms)

-- `parsePeriod`; `none` is an error.
unfoldable pub parse_period : Text → Text → Option (Int64 × Int64)
parse_period from_ms to_ms = both_bounds (parse_bound from_ms) (parse_bound to_ms)

abbrev pub stat_of : Peer → Int64 × Int64 → TransferStatResponse
stat_of p (tx, rx) = record { public_key_base64 = p.public_key_base64; tx = tx; rx = rx }

module _ (faults : Faults) where
  abbrev pub found_peer : Option Peer → Option OutsideErr → Reply
  found_peer p (some e) = if is_no_rows e then respond_json 400 message else internal_server_error
  found_peer none none = respond_json 400 message
  found_peer (some p) none = respond_json 200 (peer (peer_from_db p))

  -- `apiGetPeerByPubkey`
  unfoldable pub api_get_peer_by_pubkey : Node → Text → Reply
  api_get_peer_by_pubkey n pubkey =
      found_peer (get_peer_by_public_key n.db pubkey) (faults getting_peer)

  abbrev pub found_peers : List Peer → Option OutsideErr → Reply
  found_peers ps (some e) = internal_server_error
  found_peers ps none = respond_json 200 (peers (map peer_from_db ps))

  -- `listPeers`
  unfoldable pub list_peers : Node → Text → Reply
  list_peers n owner = found_peers (get_peers n.db (owner_or_nil owner)) (faults getting_peers)

  -- `getPeerStats` in the i-th call, whose queries may fail other than with `sql.ErrNoRows`.
  abbrev pub try_stats : Node → ℕ → Peer → Int64 × Int64 → OutsideErr ⊎ (Int64 × Int64)
  try_stats n i p (from_ms, to_ms) = elim (faults (getting_stat i)) [
    | some e ↦ inl other
    | none ↦ inr (get_peer_stats n.db.peer_stats p.id from_ms to_ms)
  ]

  abbrev pub peer_stat : Text → OutsideErr ⊎ (Int64 × Int64) → Reply
  peer_stat pubkey (inl e) = if is_no_rows e then respond_error 404 else internal_server_error
  peer_stat pubkey (inr (tx, rx)) =
      respond_json 200 (stat (record { public_key_base64 = pubkey; tx = tx; rx = rx }))

  abbrev pub stat_of_found : Node → Text → Int64 × Int64 → Option Peer → Option OutsideErr → Reply
  stat_of_found n pubkey period p (some e) = peer_stat pubkey (inl e)
  stat_of_found n pubkey period none none = peer_stat pubkey (inl no_rows)
  stat_of_found n pubkey period (some p) none = peer_stat pubkey (try_stats n 0 p period)

  abbrev pub total_stat_in : Node → Text → Option (Int64 × Int64) → Reply
  total_stat_in n pubkey none = respond_error 400
  total_stat_in n pubkey (some period) =
      stat_of_found n pubkey period (get_peer_by_public_key n.db pubkey) (faults getting_peer)

  -- `apiGetPeerTotalStatByPublicKey`
  unfoldable pub api_get_peer_total_stat_by_public_key : Node → Text → Text → Text → Reply
  api_get_peer_total_stat_by_public_key n pubkey from_ms to_ms =
      total_stat_in n pubkey (parse_period from_ms to_ms)

  abbrev pub add_stat :
      Peer
      → OutsideErr ⊎ (Int64 × Int64)
      → OutsideErr ⊎ List TransferStatResponse
      → OutsideErr ⊎ List TransferStatResponse
  add_stat p (inl e) rest = inl e
  add_stat p (inr s) (inl e) = inl e
  add_stat p (inr s) (inr rest) = inr (stat_of p s ∷ rest)

  -- The loop over the peers, from the i-th on.
  unfoldable pub stats_of :
      Node → ℕ → Int64 × Int64 → List Peer → OutsideErr ⊎ List TransferStatResponse
  stats_of n i period [] = inr []
  stats_of n i period (p ∷ ps) = add_stat p (try_stats n i p period) (stats_of n (suc i) period ps)

  abbrev pub all_stats : OutsideErr ⊎ List TransferStatResponse → Reply
  all_stats (inl e) = internal_server_error
  all_stats (inr rows) = respond_json 200 (stats rows)

  abbrev pub stats_of_found : Node → Int64 × Int64 → List Peer → Option OutsideErr → Reply
  stats_of_found n period ps (some e) = all_stats (inl e)
  stats_of_found n period ps none = all_stats (stats_of n 0 period ps)

  abbrev pub total_stats_in : Node → Text → Option (Int64 × Int64) → Reply
  total_stats_in n owner none = respond_error 400
  total_stats_in n owner (some period) =
      stats_of_found n period (get_peers n.db (owner_or_nil owner)) (faults getting_peers)

  -- `apiGetPeersTotalStat`
  unfoldable pub api_get_peers_total_stat : Node → Text → Text → Text → Reply
  api_get_peers_total_stat n owner from_ms to_ms =
      total_stats_in n owner (parse_period from_ms to_ms)
