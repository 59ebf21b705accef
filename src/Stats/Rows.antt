-- ===== src/Stats/Rows.antt =====
-- The last row of a table, of its newer rows, and of two tables.
use tanlnode.Base.{
  ℕ, ◌≡◌, refl, Bool, true, false, ◌&&◌, arith, inl, inr, Bool-cases, List, [], ◌∷◌, ◌++◌, Option,
  none, some, ◌==◌,
}
use tanlnode.Sqlgen.{Int64, less64, PeerStat, until_ok, later, get_last_peer_stat, remove_old_stats}

abbrev pub IsOld : Int64 → Option PeerStat → Type 0
IsOld oldest none = Unit
IsOld oldest (some q) = less64 oldest q.timestamp_ms ≡ false

-- The last row that is kept, the last one of all, and the last one of the old ones.
pub data Split (oldest : Int64) : Option PeerStat → Option PeerStat → Option PeerStat → Type 0 where
  recent :
      (n : PeerStat) (old : Option PeerStat)
      → less64 oldest n.timestamp_ms ≡ true
      → IsOld oldest old
      → Split oldest (some n) (some n) old
  only_old : (old : Option PeerStat) → IsOld oldest old → Split oldest none old old

later-IsOld :
    (oldest : Int64) (r : PeerStat) (old : Option PeerStat)
    → less64 oldest r.timestamp_ms ≡ false
    → IsOld oldest old
    → IsOld oldest (later r old)
later-IsOld oldest r none h o = h
later-IsOld oldest r (some q) h o = elim (Bool-cases (less64 r.timestamp_ms q.timestamp_ms)) [
  | inl e ↦ rw e o
  | inr e ↦ rw e h
]

older_less : (o a b : Int64) → less64 o a ≡ false → less64 o b ≡ true → less64 a b ≡ true
older_less o a b ha hb = ground (arith, ha, hb)

pub newer_not_less : (o a b : Int64) → less64 o a ≡ true → less64 o b ≡ false → less64 a b ≡ false
newer_not_less o a b ha hb = ground (arith, ha, hb)

add_old :
    {oldest : Int64} {kept last old : Option PeerStat} (r : PeerStat)
    → less64 oldest r.timestamp_ms ≡ false
    → Split oldest kept last old
    → Split oldest kept (later r last) (later r old)
add_old r h (recent n old hn o) =
    rw (older_less _ r.timestamp_ms n.timestamp_ms h hn)
      (recent n (later r old) hn (later-IsOld _ r old h o))
add_old r h (only_old old o) = only_old (later r old) (later-IsOld _ r old h o)

add_recent :
    {oldest : Int64} {kept last old : Option PeerStat} (r : PeerStat)
    → less64 oldest r.timestamp_ms ≡ true
    → Split oldest kept last old
    → Split oldest (later r kept) (later r last) old
add_recent r h (recent n old hn o) = elim (Bool-cases (less64 r.timestamp_ms n.timestamp_ms)) [
  | inl e ↦ rw e (recent n old hn o)
  | inr e ↦ rw e (recent r old h o)
]
add_recent r h (only_old none o) = recent r none h o
add_recent r h (only_old (some q) o) =
    rw (newer_not_less _ r.timestamp_ms q.timestamp_ms h o) (recent r (some q) h o)

until_mono :
    (oldest : Int64) (until : Option Int64) (ms : Int64)
    → until_ok until oldest ≡ true
    → less64 oldest ms ≡ false
    → until_ok until ms ≡ true
until_mono oldest none ms u h = refl
until_mono oldest (some until) ms u h = ground (arith, u, h)

-- The rows that are kept decide, and without one the old rows.
pub splits :
    (rows : List PeerStat) (p : ℕ) (oldest : Int64) (until : Option Int64)
    → until_ok until oldest ≡ true
    → Split oldest
        (get_last_peer_stat (remove_old_stats rows oldest) p until)
        (get_last_peer_stat rows p until)
        (get_last_peer_stat rows p (some oldest))
unfolding get_last_peer_stat remove_old_stats
splits [] p oldest until u = only_old none tt
splits (r ∷ rows) p oldest until u =
    let rest = splits rows p oldest until u in
    elim (Bool-cases (less64 oldest r.timestamp_ms)) [
      | inl e ↦ elim (Bool-cases (r.peer_id == p)) [
        | inl same ↦ elim (Bool-cases (until_ok until r.timestamp_ms)) [
          | inl i ↦ rw (e, same, i) (add_recent r e rest)
          | inr i ↦ rw (e, same, i) rest
        ]
        | inr other ↦ rw (e, other) rest
      ]
      | inr e ↦ elim (Bool-cases (r.peer_id == p)) [
        | inl same ↦
            let i : until_ok until r.timestamp_ms ≡ true =
              until_mono oldest until r.timestamp_ms u e in
            rw (e, same, i) (add_old r e rest)
        | inr other ↦ rw (e, other) rest
      ]
    ]

-- The later of two rows, the first of equal ones.
abbrev pub latest : Option PeerStat → Option PeerStat → Option PeerStat
latest none b = b
latest (some a) b = later a b

later-latest : (r : PeerStat) (a b : Option PeerStat) → later r (latest a b) ≡ latest (later r a) b
later-latest r none b = refl
later-latest r (some a) none = elim (Bool-cases (less64 r.timestamp_ms a.timestamp_ms)) [
  | inl e ↦ rw e refl
  | inr e ↦ rw e refl
]
later-latest r (some a) (some b) = three r a b _ _ _ refl refl refl
  where
    three :
        (r a b : PeerStat) (ra ab rb : Bool)
        → less64 r.timestamp_ms a.timestamp_ms ≡ ra
        → less64 a.timestamp_ms b.timestamp_ms ≡ ab
        → less64 r.timestamp_ms b.timestamp_ms ≡ rb
        → later r (later a (some b)) ≡ latest (later r (some a)) (some b)
    three r a b true true true ra ab rb = rw (ra, ab, rb) refl
    three r a b true true false ra ab rb = absurd (ground (arith, ra, ab, rb))
    three r a b true false rb' ra ab rb = rw (ab, ra) (rw ab refl)
    three r a b false true rb' ra ab rb = rw (ab, ra) refl
    three r a b false false true ra ab rb = absurd (ground (arith, ra, ab, rb))
    three r a b false false false ra ab rb = rw (ab, ra, rb) refl

pub last-append :
    (xs ys : List PeerStat) (p : ℕ) (until : Option Int64)
    → get_last_peer_stat (xs ++ ys) p until
      ≡ latest (get_last_peer_stat xs p until) (get_last_peer_stat ys p until)
unfolding get_last_peer_stat
last-append [] ys p until = refl
last-append (r ∷ xs) ys p until =
    elim (Bool-cases ((r.peer_id == p) && until_ok until r.timestamp_ms)) [
      | inl e ↦ rw (e, last-append xs ys p until) (later-latest r _ _)
      | inr e ↦ rw (e, last-append xs ys p until) refl
    ]
