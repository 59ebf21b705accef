-- ===== src/StatsCache/Tests.antt =====
-- The theorem about `collectStats` at a concrete input.
use tanlnode.Base.{ℕ, false, ◌≡◌, refl, sym, ap, Option, none, some, List, [], ◌∷◌, arith}
use tanlnode.Sqlgen.{Text}
use tanlnode.PeerStats.{Stat, zero_stat, calculate}
use tanlnode.StatsCache.{PeerStatCache, Cache, Tables, CollectFaults, collect_stats}
use tanlnode.StatsCache.Laws.{IsFresh, AreSamples, Collects, collect_stats-Recorded}

-- One peer, under the key "1".
abbrev peer_key : Text
peer_key = 49 ∷ []

abbrev one_peer : Cache
one_peer [] = none
one_peer (c ∷ key) = some (record {
  peer_id = 7;
  total_calc = record {
    prev_total_rx = 0;
    prev_total_tx = 100;
    cur_period = record { rx = 0; tx = 0; latest_handshake = 0; latest_endpoint = [] };
  };
})

one_peer-IsFresh : IsFresh one_peer
one_peer-IsFresh [] c e = cc
one_peer-IsFresh (d ∷ key) c e = ap (λ (o : Option PeerStatCache). period o) (sym e)
  where
    period : Option PeerStatCache → Stat
    period none = zero_stat
    period (some c) = c.total_calc.cur_period

abbrev sample : ℕ → Stat
sample n = record { rx = n; tx = n; latest_handshake = 3; latest_endpoint = 50 ∷ [] }

abbrev no_rows : Tables
no_rows = record { stats = []; handshakes = [] }

abbrev reports : List (Text × Stat)
reports = (peer_key, sample 20) ∷ []

reports-AreSamples : AreSamples reports
reports-AreSamples = (record { tx_lt = omega arith; rx_lt = omega arith }, tt)

abbrev no_faults : CollectFaults
no_faults = record { putting = λ (i : ℕ). false; updating = λ (i : ℕ). false }

-- The second report is of counters that were reset: the 20 before the reset are lost.
reset_run :
    (collect_stats no_faults 0 2
      (collect_stats no_faults 0 1 (one_peer, no_rows) reports)
      ((peer_key, sample 5) ∷ [])).1.stats
    ≡ record { timestamp_ms = 1; peer_id = 7; rx = 20; tx = 120 }
      ∷ record { timestamp_ms = 2; peer_id = 7; rx = 5; tx = 105 }
      ∷ []
unfolding collect_stats calculate
reset_run = refl

collect_stats-Recorded_example :
    Collects no_faults 1 one_peer one_peer-IsFresh 0 no_rows reports
      (collect_stats no_faults 0 1 (one_peer, no_rows) reports)
collect_stats-Recorded_example =
    collect_stats-Recorded no_faults 1 one_peer one_peer-IsFresh 0 no_rows reports
      reports-AreSamples
