-- ===== src/Stats/Tests.antt =====
-- The theorem about the rollup at a concrete input.
use tanlnode.Base.{ℕ, ◌≡◌, refl, List, [], ◌∷◌}
use tanlnode.Sqlgen.{PeerStat, get_last_peer_stat, remove_old_stats}
use tanlnode.Stats.{get_peer_stats, rollup_old_stats, old_stats, put_all}
use tanlnode.Stats.Laws.{get_peer_stats-rollup}

abbrev stat : ℕ → ℕ → ℕ → PeerStat
stat time peer tx = record { timestamp_ms = time; peer_id = peer; rx = 0; tx = tx }

-- Two peers with statistics before and after the rollup at 25.
abbrev table : List PeerStat
table = stat 10 1 5 ∷ stat 20 1 9 ∷ stat 22 2 4 ∷ stat 40 1 12 ∷ []

rollup_run : rollup_old_stats table (1 ∷ 2 ∷ []) 25 ≡ stat 40 1 12 ∷ stat 25 1 9 ∷ stat 25 2 4 ∷ []
unfolding rollup_old_stats remove_old_stats old_stats put_all get_last_peer_stat
rollup_run = refl

traffic_run : get_peer_stats table 1 30 0 ≡ (3, 0)
unfolding get_peer_stats get_last_peer_stat
traffic_run = refl

get_peer_stats-rollup_example :
    get_peer_stats (rollup_old_stats table (1 ∷ 2 ∷ []) 25) 1 30 0 ≡ get_peer_stats table 1 30 0
get_peer_stats-rollup_example = get_peer_stats-rollup table (1 ∷ 2 ∷ []) 25 1 refl 30 0 refl refl
