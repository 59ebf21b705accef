-- ===== src/StatsCache.antt =====
-- stats_cache.go: the cache of statistics, and `collectStats` over it.
pub mod Laws
mod Tests
use tanlnode.Base.{
  ℕ, suc, Bool, true, false, ◌&&◌, Option, none, some, List, [], ◌∷◌, ◌++◌, ◌==◌, if◌then◌else◌,
}
use tanlnode.Sqlgen.{Text, same_text, Int64, PeerStat, put_peer_stat}
use tanlnode.PeerStats.{Stat, TotalStatCalc, make_total_stats_calc, calculate}

-- `peerStatCache`
pub record PeerStatCache : Type 0 where
  pub peer_id : ℕ
  pub total_calc : TotalStatCalc

-- The map of `peerStatsCache`.
abbrev pub Cache : Type 0
Cache = Text → Option PeerStatCache

-- `PutNew`
unfoldable pub put_new : Cache → Text → ℕ → Cache
put_new cache public_key db_id key =
    if same_text public_key key
    then some (record { peer_id = db_id; total_calc = make_total_stats_calc 0 0 })
    else cache key

-- `Remove`
unfoldable pub remove : Cache → Text → Cache
remove cache public_key key = if same_text public_key key then none else cache key

-- The arguments of `UpdatePeerHandshakeData`.
pub record HandshakeData : Type 0 where
  pub id : ℕ
  pub latest_handshake_at : ℕ
  pub latest_endpoint : Text

-- The table of statistics, and the updates of handshake data in their order.
pub record Tables : Type 0 where
  pub stats : List PeerStat
  pub handshakes : List HandshakeData

-- Which of the two queries for the i-th report fail; the code does not look at their errors.
pub record CollectFaults : Type 0 where
  pub putting : ℕ → Bool
  pub updating : ℕ → Bool

abbrev pub put_total : Bool → Int64 → ℕ → List PeerStat → Stat → List PeerStat
put_total true now peer_id rows total = rows
put_total false now peer_id rows total =
    put_peer_stat rows
      (record { timestamp_ms = now; peer_id = peer_id; rx = total.rx; tx = total.tx })

abbrev pub update_total : Bool → ℕ → List HandshakeData → Stat → List HandshakeData
update_total true peer_id handshakes total = handshakes
update_total false peer_id handshakes total =
    handshakes
    ++ (record {
      id = peer_id;
      latest_handshake_at = total.latest_handshake;
      latest_endpoint = total.latest_endpoint;
    }
        ∷ [])

-- The two queries with what `Calculate` returned.
abbrev pub write_total : CollectFaults → ℕ → Int64 → ℕ → Tables → Stat → Tables
write_total faults i now peer_id tables total = record {
  stats = put_total (faults.putting i) now peer_id tables.stats total;
  handshakes = update_total (faults.updating i) peer_id tables.handshakes total;
}

-- The body of the loop for the i-th report. `cachedStat` is a copy of the value in the map:
-- `Calculate` changes the copy, and the map keeps what it has.
abbrev pub collect_one :
    CollectFaults → ℕ → Int64 → Option PeerStatCache → Cache × Tables → Stat → Cache × Tables
collect_one faults i now none (cache, tables) stat = (cache, tables)
collect_one faults i now (some cached) (cache, tables) stat =
    (cache, write_total faults i now cached.peer_id tables (calculate cached.total_calc stat).1)

-- The loop of `collectStats` over what WireGuard reports, from the i-th report on.
unfoldable pub collect_stats :
    CollectFaults → ℕ → Int64 → Cache × Tables → List (Text × Stat) → Cache × Tables
collect_stats faults i now st [] = st
collect_stats faults i now st ((key, stat) ∷ wg_stats) =
    collect_stats faults (suc i) now (collect_one faults i now (st.0 key) st stat) wg_stats
