-- ===== src/Api/Prepare/Tests.antt =====
-- `prepareWGAndPeerStatsCache` at a concrete node.
use tanlnode.Base.{ℕ, ◌≡◌, refl, false, none, [], ◌∷◌, ◌==◌}
use tanlnode.Sqlgen.{get_last_peer_stat}
use tanlnode.StatsCache.{remove}
use tanlnode.Sqlgen.Tables.{select}
use tanlnode.Sqlgen.Peers.{in_order, put_in_order}
use tanlnode.Api.{Node}
use tanlnode.Api.Samples.{node0, empty_db, outside0}
use tanlnode.Api.Adds.Run.{zero_peer}
use tanlnode.Api.Changes.{parse_rows}
use tanlnode.Api.Prepare.{
  PrepareFaults, prepare_loop, undo_prepared, load_peers, prepare_wg_and_peer_stats_cache,
}

-- The second peer cannot be put into WireGuard.
abbrev second_fails : PrepareFaults
second_fails = record {
  getting_peers = false;
  getting_subnets = λ (i : ℕ). false;
  getting_stat = λ (i : ℕ). false;
  removing = λ (i : ℕ). false;
  putting = λ (i : ℕ). i == 1;
  rolling_back = λ (i : ℕ). false;
}

abbrev two_peers : Node
two_peers = record node0 {
  db = record empty_db {
    peers =
        record zero_peer { id = 1; public_key_base64 = 66 ∷ [] }
        ∷ record zero_peer { id = 2; public_key_base64 = 65 ∷ [] }
        ∷ [];
  };
}

-- It ends with an error, and the cache has no entry for the first in order, which was put.
prepare_fails :
    ((prepare_wg_and_peer_stats_cache second_fails outside0 two_peers).1 ≡ false)
    × ((prepare_wg_and_peer_stats_cache second_fails outside0 two_peers).0.cache (65 ∷ []) ≡ none)
unfolding prepare_wg_and_peer_stats_cache load_peers prepare_loop undo_prepared in_order
    put_in_order select parse_rows get_last_peer_stat remove
prepare_fails = (refl, refl)
