-- ===== src/PeerStats.antt =====
-- peerstats/stats.go: the total traffic of a peer over the periods between resets of its counters.
pub mod Laws
mod Tests
use tanlnode.Base.{
  ℕ, ◌+◌, ◌%◌, ◌^◌, Bool, not, ◌&&◌, ◌||◌, List, [], ◌∷◌, true, false, ltb, ◌==◌, if◌then◌else◌,
}
use tanlnode.Sqlgen.{Text, Int64, less64}

-- `a + b` on `int64`.
abbrev pub add64 : Int64 → Int64 → Int64
add64 a b = (a + b) % 2 ^ 64

-- `Stat`; a time is the time since the zero time, which is 0.
pub record Stat : Type 0 where
  pub rx : Int64
  pub tx : Int64
  pub latest_handshake : ℕ
  pub latest_endpoint : Text

-- `TotalStatCalc`
pub record TotalStatCalc : Type 0 where
  pub prev_total_rx : Int64
  pub prev_total_tx : Int64
  pub cur_period : Stat

abbrev pub zero_stat : Stat
zero_stat = record { rx = 0; tx = 0; latest_handshake = 0; latest_endpoint = [] }

-- `MakeTotalStatsCalc`
abbrev pub make_total_stats_calc : Int64 → Int64 → TotalStatCalc
make_total_stats_calc prev_total_tx prev_total_rx = record {
  prev_total_rx = prev_total_rx;
  prev_total_tx = prev_total_tx;
  cur_period = zero_stat;
}

-- `s == ""`
abbrev pub is_empty : Text → Bool
is_empty [] = true
is_empty (c ∷ text) = false

-- `newPeriod`
abbrev pub is_new_period : Stat → Stat → Bool
is_new_period old cur =
    less64 cur.tx old.tx
    || less64 cur.rx old.rx
    || (not (old.latest_handshake == 0) && cur.latest_handshake == 0)
    || (not (is_empty old.latest_endpoint) && is_empty cur.latest_endpoint)

-- The totals with the ended period added.
abbrev pub end_period : TotalStatCalc → TotalStatCalc
end_period ts = record ts {
  prev_total_rx = add64 ts.prev_total_rx ts.cur_period.rx;
  prev_total_tx = add64 ts.prev_total_tx ts.cur_period.tx;
}

abbrev pub total_of : TotalStatCalc → Stat
total_of ts = record ts.cur_period {
  rx = add64 ts.prev_total_rx ts.cur_period.rx;
  tx = add64 ts.prev_total_tx ts.cur_period.tx;
}

-- `Calculate`: the new state, `total` and `newPeriod`.
unfoldable pub calculate : TotalStatCalc → Stat → TotalStatCalc × Stat × Bool
calculate ts cur =
    let new_period = is_new_period ts.cur_period cur in
    let ended : TotalStatCalc = if new_period then end_period ts else ts in
    let ts' : TotalStatCalc = record ended { cur_period = cur } in (ts', total_of ts', new_period)
