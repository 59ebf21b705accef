-- ===== src/Stats/Laws.antt =====
-- A rollup does not change the traffic of the periods after it.
use mathlib.Core.List.{append-nil, append_assoc}
use mathlib.Core.Path.{subst}
use tanlnode.Base.{
  ℕ, ◌≡◌, refl, sym, ap, ◌∙◌, Bool, true, false, ◌&&◌, ◌||◌, arith, inl, inr, Bool-cases, List, [],
  ◌∷◌, ◌++◌, Option, none, some, ◌==◌, ==_iff, if◌then◌else◌,
}
use tanlnode.Sqlgen.{Int64, less64, PeerStat, until_ok, later, get_last_peer_stat, remove_old_stats}
use tanlnode.Stats.{
  sub64, tx_of, rx_of, to_ms_ptr, get_peer_stats, old_stat, old_stats, put_all, rollup_old_stats,
}
use tanlnode.Stats.Rows.{
  IsOld, Split, recent, only_old, newer_not_less, splits, latest, last-append,
}

put_all-append : (rows stats : List PeerStat) → put_all rows stats ≡ rows ++ stats
unfolding put_all
put_all-append rows [] = sym (append-nil rows)
put_all-append rows (s ∷ stats) =
    put_all-append (rows ++ (s ∷ [])) stats ∙ append_assoc rows (s ∷ []) stats

abbrev pub has_peer : List ℕ → ℕ → Bool
has_peer [] p = false
has_peer (q ∷ peers) p = (q == p) || has_peer peers p

abbrev IsOf : ℕ → Option PeerStat → Type 0
IsOf p none = Unit
IsOf p (some q) = q.peer_id ≡ p

later-IsOf :
    (p : ℕ) (r : PeerStat) (o : Option PeerStat) → r.peer_id ≡ p → IsOf p o → IsOf p (later r o)
later-IsOf p r none h i = h
later-IsOf p r (some q) h i = elim (Bool-cases (less64 r.timestamp_ms q.timestamp_ms)) [
  | inl e ↦ rw e i
  | inr e ↦ rw e h
]

last-IsOf :
    (rows : List PeerStat) (p : ℕ) (until : Option Int64) → IsOf p (get_last_peer_stat rows p until)
unfolding get_last_peer_stat
last-IsOf [] p until = tt
last-IsOf (r ∷ rows) p until =
    elim (Bool-cases ((r.peer_id == p) && until_ok until r.timestamp_ms)) [
      | inl e ↦
          rw e
            (later-IsOf p r _ ((==_iff r.peer_id p).0 (ground (arith, e))) (last-IsOf rows p until))
      | inr e ↦ rw e (last-IsOf rows p until)
    ]

old_stat-peer :
    (p : ℕ) (oldest : Int64) (o : Option PeerStat) → IsOf p o → (old_stat p oldest o).peer_id ≡ p
old_stat-peer p oldest none i = refl
old_stat-peer p oldest (some q) i = i

old_stat-time :
    (p : ℕ) (oldest : Int64) (o : Option PeerStat) → (old_stat p oldest o).timestamp_ms ≡ oldest
old_stat-time p oldest none = refl
old_stat-time p oldest (some q) = refl

old_stat-values :
    (p : ℕ) (oldest : Int64) (o : Option PeerStat)
    → ((old_stat p oldest o).tx ≡ tx_of o) × ((old_stat p oldest o).rx ≡ rx_of o)
old_stat-values p oldest none = (refl, refl)
old_stat-values p oldest (some q) = (refl, refl)

irreflexive : (a : Int64) → less64 a a ≡ false
irreflexive a = ground arith

later-put :
    (oldest : Int64) (row : PeerStat) (rest : Option PeerStat)
    → row.timestamp_ms ≡ oldest
    → IsOld oldest rest
    → later row rest ≡ some row
later-put oldest row none e i = refl
later-put oldest row (some x) e i =
    let not_less : less64 row.timestamp_ms x.timestamp_ms ≡ false =
      ap (λ (a : Int64). less64 a x.timestamp_ms) e ∙ i in
    rw not_less refl

module _ (oldest : Int64) (until : Option Int64) (u : until_ok until oldest ≡ true) (p : ℕ)
    (row : PeerStat) (e : row.timestamp_ms ≡ oldest) (rest : Option PeerStat)
    (i : IsOld oldest rest) where
  abbrev with_row : Option PeerStat
  with_row = if (row.peer_id == p) && until_ok until row.timestamp_ms then later row rest else rest

  row_ok : until_ok until row.timestamp_ms ≡ true
  row_ok = ap (until_ok until) e ∙ u

  row-IsOld : IsOld oldest (some row)
  row-IsOld = ap (less64 oldest) e ∙ irreflexive oldest

  with_row-same : (row.peer_id == p) ≡ true → with_row ≡ some row
  with_row-same h = rw (h, row_ok) (later-put oldest row rest e i)

  with_row-other : (row.peer_id == p) ≡ false → with_row ≡ rest
  with_row-other h = rw h refl

  with_row-IsOld : IsOld oldest with_row
  with_row-IsOld = elim (Bool-cases (row.peer_id == p)) [
    | inl h ↦ subst (IsOld oldest) (sym (with_row-same h)) row-IsOld
    | inr h ↦ subst (IsOld oldest) (sym (with_row-other h)) i
  ]

-- Of the rows that the rollup puts, the one of the peer.
module _ (rows : List PeerStat) (p : ℕ) (oldest : Int64) (until : Option Int64)
    (u : until_ok until oldest ≡ true) where
  abbrev old_of : ℕ → PeerStat
  old_of q = old_stat q oldest (get_last_peer_stat rows q (some oldest))

  old_of-time : (q : ℕ) → (old_of q).timestamp_ms ≡ oldest
  old_of-time q = old_stat-time q oldest (get_last_peer_stat rows q (some oldest))

  old_of-peer : (q : ℕ) → (old_of q).peer_id ≡ q
  old_of-peer q =
      old_stat-peer q oldest (get_last_peer_stat rows q (some oldest))
        (last-IsOf rows q (some oldest))

  puts-IsOld :
      (peers : List ℕ) → IsOld oldest (get_last_peer_stat (old_stats rows peers oldest) p until)
  unfolding old_stats get_last_peer_stat
  puts-IsOld [] = tt
  puts-IsOld (q ∷ peers) =
      with_row-IsOld oldest until u p (old_of q) (old_of-time q) _ (puts-IsOld peers)

  last-old_stats :
      (peers : List ℕ)
      → has_peer peers p ≡ true
      → get_last_peer_stat (old_stats rows peers oldest) p until ≡ some (old_of p)
  unfolding old_stats get_last_peer_stat
  last-old_stats [] h = cc h
  last-old_stats (q ∷ peers) h = elim (Bool-cases (q == p)) [
    | inl s ↦
        with_row-same oldest until u p (old_of q) (old_of-time q) _ (puts-IsOld peers)
          (ap (λ (a : ℕ). a == p) (old_of-peer q) ∙ s)
        ∙ ap (λ (a : ℕ). some (old_of a)) ((==_iff q p).0 s)
    | inr o ↦
        with_row-other oldest until u p (old_of q) (old_of-time q) _ (puts-IsOld peers)
          (ap (λ (a : ℕ). a == p) (old_of-peer q) ∙ o)
        ∙ last-old_stats peers (rw o at h)
  ]

-- The row that the rolled up table gives, from the kept rows and the one of the rollup.
same_values :
    {oldest : Int64} {kept last old : Option PeerStat} (row : PeerStat)
    → Split oldest kept last old
    → row.timestamp_ms ≡ oldest
    → row.tx ≡ tx_of old
    → row.rx ≡ rx_of old
    → (tx_of (latest kept (some row)) ≡ tx_of last) × (rx_of (latest kept (some row)) ≡ rx_of last)
same_values {oldest} row (recent n old h o) e t r =
    let first : less64 n.timestamp_ms row.timestamp_ms ≡ false =
      ap (less64 n.timestamp_ms) e
      ∙ newer_not_less oldest n.timestamp_ms oldest h (irreflexive oldest) in
    rw first (refl, refl)
same_values row (only_old old o) e t r = (t, r)

module _ (rows : List PeerStat) (peers : List ℕ) (oldest : Int64) (p : ℕ)
    (h : has_peer peers p ≡ true) where
  last-rollup :
      (until : Option Int64)
      → until_ok until oldest ≡ true
      → (tx_of (get_last_peer_stat (rollup_old_stats rows peers oldest) p until)
          ≡ tx_of (get_last_peer_stat rows p until))
        × (rx_of (get_last_peer_stat (rollup_old_stats rows peers oldest) p until)
            ≡ rx_of (get_last_peer_stat rows p until))
  unfolding rollup_old_stats
  last-rollup until u =
      let v = old_stat-values p oldest (get_last_peer_stat rows p (some oldest)) in
      rw
        (
          put_all-append (remove_old_stats rows oldest) (old_stats rows peers oldest),
          last-append (remove_old_stats rows oldest) (old_stats rows peers oldest) p until,
          last-old_stats rows p oldest until u peers h,
        )
        (same_values _ (splits rows p oldest until u)
          (old_stat-time p oldest (get_last_peer_stat rows p (some oldest))) v.0 v.1)

  -- For each peer that the rollup is for, and each period whose start is after the time of the
  -- rollup, and whose end, if it has one, is not before it, `rollupOldStats` does not change the
  -- traffic that `getPeerStats` gives.
  pub get_peer_stats-rollup :
      (from_ms to_ms : Int64)
      → less64 (sub64 from_ms 1) oldest ≡ false
      → until_ok (to_ms_ptr to_ms) oldest ≡ true
      → get_peer_stats (rollup_old_stats rows peers oldest) p from_ms to_ms
        ≡ get_peer_stats rows p from_ms to_ms
  unfolding get_peer_stats
  get_peer_stats-rollup from_ms to_ms hf ht =
      let a = last-rollup (some (sub64 from_ms 1)) (rw hf refl) in
      let b = last-rollup (to_ms_ptr to_ms) ht in rw (a.0, a.1, b.0, b.1) refl
