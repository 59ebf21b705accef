-- ===== src/Stats.antt =====
-- stats.go and the rollup of stats_cache.go: the traffic of a peer over a period, from the table of
-- statistics. The queries do not fail other than with `sql.ErrNoRows`.
pub mod Rows
pub mod Laws
mod Tests
use tanlnode.Base.{ℕ, ◌+◌, ◌-◌, ◌%◌, ◌^◌, List, [], ◌∷◌, Option, none, some, ◌==◌, if◌then◌else◌}
use tanlnode.Sqlgen.{Int64, PeerStat, get_last_peer_stat, remove_old_stats, put_peer_stat}

-- `a - b` on `int64`.
abbrev pub sub64 : Int64 → Int64 → Int64
sub64 a b = (a + 2 ^ 64 - b) % 2 ^ 64

-- The columns of the row, and 0 where there is none.
abbrev pub tx_of : Option PeerStat → Int64
tx_of none = 0
tx_of (some r) = r.tx

abbrev pub rx_of : Option PeerStat → Int64
rx_of none = 0
rx_of (some r) = r.rx

-- `toMsPtr`
abbrev pub to_ms_ptr : Int64 → Option Int64
to_ms_ptr to_ms = if to_ms == 0 then none else some to_ms

-- `getPeerStats`: `tx` and `rx`.
unfoldable pub get_peer_stats : List PeerStat → ℕ → Int64 → Int64 → Int64 × Int64
get_peer_stats rows peer_id from_ms to_ms =
    let stat1 = get_last_peer_stat rows peer_id (some (sub64 from_ms 1)) in
    let stat2 = get_last_peer_stat rows peer_id (to_ms_ptr to_ms) in
    (sub64 (tx_of stat2) (tx_of stat1), sub64 (rx_of stat2) (rx_of stat1))

-- What the first loop of `rollupOldStats` appends for a peer; its time is set when it is put.
abbrev pub old_stat : ℕ → Int64 → Option PeerStat → PeerStat
old_stat peer_id oldest none = record { timestamp_ms = oldest; peer_id = peer_id; rx = 0; tx = 0 }
old_stat peer_id oldest (some stat) = record stat { timestamp_ms = oldest }

unfoldable pub old_stats : List PeerStat → List ℕ → Int64 → List PeerStat
old_stats rows [] oldest = []
old_stats rows (peer_id ∷ peers) oldest =
    old_stat peer_id oldest (get_last_peer_stat rows peer_id (some oldest))
    ∷ old_stats rows peers oldest

-- The second loop.
unfoldable pub put_all : List PeerStat → List PeerStat → List PeerStat
put_all rows [] = rows
put_all rows (stat ∷ stats) = put_all (put_peer_stat rows stat) stats

-- The action of `rollupOldStats`, for the ids of the peers that `GetPeers` returned.
unfoldable pub rollup_old_stats : List PeerStat → List ℕ → Int64 → List PeerStat
rollup_old_stats rows peers oldest =
    put_all (remove_old_stats rows oldest) (old_stats rows peers oldest)
