-- ===== src/PeerStats/Tests.antt =====
-- The theorem about the totals at a concrete input, and the runs of peerstats/stats_test.go.
use tanlnode.Base.{ℕ, ◌+◌, ◌%◌, ◌^◌, ◌<◌, ◌≡◌, refl, List, [], ◌∷◌, arith}
use tanlnode.PeerStats.{Stat, TotalStatCalc, make_total_stats_calc, calculate, total_of}
use tanlnode.PeerStats.Laws.{last_total, tx_gains, rx_gains, IsCount, last_total-gains}

abbrev sample : ℕ → ℕ → Stat
sample tx rx = record { rx = rx; tx = tx; latest_handshake = 5; latest_endpoint = 49 ∷ [] }

-- The counters fall once.
abbrev samples : List Stat
samples = sample 10 20 ∷ sample 15 40 ∷ sample 3 2 ∷ []

abbrev start : TotalStatCalc
start = make_total_stats_calc 100 200

samples_run : (last_total (total_of start) start samples).tx ≡ 118
unfolding calculate
samples_run = refl

small : (tx rx : ℕ) → tx < 2 ^ 63 → rx < 2 ^ 63 → IsCount (sample tx rx)
small tx rx ht hr = record { tx_lt = ht; rx_lt = hr }

last_total-gains_example :
    ((last_total (total_of start) start samples).tx
      ≡ ((total_of start).tx + tx_gains start.cur_period samples) % 2 ^ 64)
    × ((last_total (total_of start) start samples).rx
        ≡ ((total_of start).rx + rx_gains start.cur_period samples) % 2 ^ 64)
last_total-gains_example =
    last_total-gains start samples (record { tx_lt = omega arith; rx_lt = omega arith })
      (
        small 10 20 (omega arith) (omega arith),
        (small 15 40 (omega arith) (omega arith), (small 3 2 (omega arith) (omega arith), tt)),
      )
