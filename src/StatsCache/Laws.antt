-- ===== src/StatsCache/Laws.antt =====
-- What `collectStats` writes.
use mathlib.Core.List.{append-nil, append_assoc}
use tanlnode.Base.{
  ℕ, suc, ◌≡◌, refl, sym, ap, ◌∙◌, Bool, true, false, arith, Option, none, some, List, [], ◌∷◌,
  ◌++◌,
}
use tanlnode.Sqlgen.{Text, Int64, PeerStat}
use tanlnode.PeerStats.{Stat, TotalStatCalc, add64, calculate, is_new_period, zero_stat}
use tanlnode.PeerStats.Laws.{IsCount}
use tanlnode.StatsCache.{
  PeerStatCache, Cache, Tables, HandshakeData, CollectFaults, put_total, collect_one, collect_stats,
}

-- No entry has seen a sample.
abbrev pub IsFresh : Cache → Type 0
IsFresh cache =
    (key : Text) (c : PeerStatCache) → cache key ≡ some c → c.total_calc.cur_period ≡ zero_stat

abbrev pub AreSamples : List (Text × Stat) → Type 0
AreSamples [] = Unit
AreSamples ((key, s) ∷ samples) = IsCount s × AreSamples samples

-- The row for a report of a peer in the cache: the totals from before the start and the counters.
abbrev pub total_row : Int64 → PeerStatCache → Stat → PeerStat
total_row now c s = record {
  timestamp_ms = now;
  peer_id = c.peer_id;
  rx = add64 c.total_calc.prev_total_rx s.rx;
  tx = add64 c.total_calc.prev_total_tx s.tx;
}

-- The rows that the reports from the i-th on give.
pub data Recorded (faults : CollectFaults) (now : Int64) (cache : Cache)
    : ℕ → List (Text × Stat) → List PeerStat → Type 0 where
  no_samples : (i : ℕ) → Recorded faults now cache i [] []
  unknown :
      (i : ℕ) (key : Text) (s : Stat) (samples : List (Text × Stat)) (rows : List PeerStat)
      → cache key ≡ none
      → Recorded faults now cache (suc i) samples rows
      → Recorded faults now cache i ((key, s) ∷ samples) rows
  lost :
      (i : ℕ) (key : Text) (s : Stat) (samples : List (Text × Stat)) (rows : List PeerStat)
      (c : PeerStatCache)
      → faults.putting i ≡ true
      → cache key ≡ some c
      → Recorded faults now cache (suc i) samples rows
      → Recorded faults now cache i ((key, s) ∷ samples) rows
  known :
      (i : ℕ) (key : Text) (s : Stat) (samples : List (Text × Stat)) (rows : List PeerStat)
      (c : PeerStatCache)
      → faults.putting i ≡ false
      → cache key ≡ some c
      → Recorded faults now cache (suc i) samples rows
      → Recorded faults now cache i ((key, s) ∷ samples) (total_row now c s ∷ rows)

first_period : (s : Stat) → IsCount s → is_new_period zero_stat s ≡ false
first_period s h = ground (arith, h.tx_lt, h.rx_lt)

total_first :
    (ts : TotalStatCalc) (s : Stat)
    → ts.cur_period ≡ zero_stat
    → IsCount s
    → ((calculate ts s).1.tx ≡ add64 ts.prev_total_tx s.tx)
      × ((calculate ts s).1.rx ≡ add64 ts.prev_total_rx s.rx)
unfolding calculate
total_first ts s e h =
    let same : is_new_period ts.cur_period s ≡ false =
      ap (λ (o : Stat). is_new_period o s) e ∙ first_period s h in
    rw same (refl, refl)

ap2 {ℓ} : {A B C : Type ℓ} (f : A → B → C) {a a' : A} {b b' : B} → a ≡ a' → b ≡ b' → f a b ≡ f a' b'
ap2 f {a} {a'} {b} {b'} p q = ap (λ x. f x b) p ∙ ap (f a') q

module _ (faults : CollectFaults) (now : Int64) (cache : Cache) (f : IsFresh cache) where
  -- The state after the reports from the i-th on, given that from before them.
  pub record Collects (i : ℕ) (tables : Tables) (samples : List (Text × Stat)) (st : Cache × Tables)
      : Type 0 where
    pub rows : List PeerStat
    pub same_cache : st.0 ≡ cache
    pub appends : tables.stats ++ rows ≡ st.1.stats
    pub recorded : Recorded faults now cache i samples rows

  put_one :
      (i : ℕ) (key : Text) (s : Stat) (samples : List (Text × Stat)) (tables : Tables)
      (c : PeerStatCache)
      → cache key ≡ some c
      → IsCount s
      → (b : Bool) → faults.putting i ≡ b
      → (hs : List HandshakeData) (st : Cache × Tables)
      → Collects
          (suc i)
          (record {
            stats = put_total b now c.peer_id tables.stats (calculate c.total_calc s).1;
            handshakes = hs;
          })
          samples
          st
      → Collects i tables ((key, s) ∷ samples) st
  put_one i key s samples tables c e h true g hs st r = record {
    rows = r.rows;
    same_cache = r.same_cache;
    appends = r.appends;
    recorded = lost i key s samples r.rows c g e r.recorded;
  }
  put_one i key s samples tables c e h false g hs st r =
      let (t, x) = total_first c.total_calc s (f key c e) h in
      let row = total_row now c s in
      record {
        rows = row ∷ r.rows;
        same_cache = r.same_cache;
        appends =
            sym (append_assoc tables.stats (row ∷ []) r.rows)
            ∙ ap2 (λ (a b : ℕ). (tables.stats ++ (record row { tx = a; rx = b } ∷ [])) ++ r.rows)
                (sym t) (sym x)
            ∙ r.appends;
        recorded = known i key s samples r.rows c g e r.recorded;
      }

  one_row :
      (i : ℕ) (key : Text) (s : Stat) (samples : List (Text × Stat)) (tables : Tables)
      (o : Option PeerStatCache)
      → cache key ≡ o
      → IsCount s
      → ((t : Tables)
          → Collects (suc i) t samples (collect_stats faults (suc i) now (cache, t) samples))
      → Collects i tables
          ((key, s) ∷ samples)
          (collect_stats faults (suc i) now (collect_one faults i now o (cache, tables) s) samples)
  one_row i key s samples tables none e h go =
      let r = go tables in
      record {
        rows = r.rows;
        same_cache = r.same_cache;
        appends = r.appends;
        recorded = unknown i key s samples r.rows e r.recorded;
      }
  one_row i key s samples tables (some c) e h go =
      let next = collect_one faults i now (some c) (cache, tables) s in
      put_one i key s samples tables c e h (faults.putting i) refl next.1.handshakes
        (collect_stats faults (suc i) now next samples) (go next.1)

  -- Over a cache in which no entry has seen a sample, and for counters that are not negative,
  -- `collectStats` appends to the table, in order, one row for each report of a peer in the cache
  -- whose row the database takes, with the totals from before the start plus the reported
  -- counters. The reports of other peers and those whose insertion fails give no row. The cache is
  -- the same afterwards.
  pub collect_stats-Recorded :
      (i : ℕ) (tables : Tables) (samples : List (Text × Stat))
      → AreSamples samples
      → Collects i tables samples (collect_stats faults i now (cache, tables) samples)
  unfolding collect_stats
  collect_stats-Recorded i tables [] h = record {
    rows = [];
    same_cache = refl;
    appends = append-nil tables.stats;
    recorded = no_samples i;
  }
  collect_stats-Recorded i tables ((key, s) ∷ samples) (hs, h) =
      one_row i key s samples tables (cache key) refl hs
        (λ t. collect_stats-Recorded (suc i) t samples h)
