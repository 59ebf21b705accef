-- ===== src/Sqlgen.antt =====
-- sqlgen/models.go and sqlgen/queries.sql.go: rows of the tables, and the queries on the statistics.
-- A table is the list of its rows in the order of their insertion. Queries do not fail here.
pub mod Tables
pub mod Peers
pub mod Laws
use tanlnode.Base.{
  ℕ, ◌+◌, ◌%◌, ◌^◌, List, [], ◌∷◌, ◌++◌, Bool, true, false, not, ◌&&◌, Option, none, some, ltb,
  ◌==◌, if◌then◌else◌,
}

-- A string, by its bytes.
abbrev pub Text : Type 0
Text = List ℕ

-- `==` on strings.
abbrev pub same_text : Text → Text → Bool
same_text [] [] = true
same_text [] (c ∷ text) = false
same_text (d ∷ key) [] = false
same_text (d ∷ key) (c ∷ text) = d == c && same_text key text

-- `Subnet`
pub record Subnet : Type 0 where
  pub id : ℕ
  pub prefix : Text
  pub peer_id : Option ℕ
  pub comment : Text
  pub may_overlap : Bool

-- `int64`, in two's complement: a number below 2 ^ 64.
abbrev pub Int64 : Type 0
Int64 = ℕ

-- `a < b`: moved by 2 ^ 63 the order is that of the numbers.
abbrev pub less64 : Int64 → Int64 → Bool
less64 a b = ltb ((a + 2 ^ 63) % 2 ^ 64) ((b + 2 ^ 63) % 2 ^ 64)

-- `PeerStat`; the id of the row, which nothing reads, is left out.
pub record PeerStat : Type 0 where
  pub timestamp_ms : Int64
  pub peer_id : ℕ
  pub rx : Int64
  pub tx : Int64

-- `coalesce(timestamp_ms <= until_ms, TRUE)`
abbrev pub until_ok : Option Int64 → Int64 → Bool
until_ok none ms = true
until_ok (some until_ms) ms = not (less64 until_ms ms)

-- The row with the later timestamp. Which of equal ones comes first SQL leaves open: here the one
-- that was inserted first.
abbrev pub later : PeerStat → Option PeerStat → Option PeerStat
later r none = some r
later r (some q) = if less64 r.timestamp_ms q.timestamp_ms then some q else some r

-- `GetLastPeerStat`; `none` is `sql.ErrNoRows`.
unfoldable pub get_last_peer_stat : List PeerStat → ℕ → Option Int64 → Option PeerStat
get_last_peer_stat [] peer_id until_ms = none
get_last_peer_stat (r ∷ rows) peer_id until_ms =
    let rest = get_last_peer_stat rows peer_id until_ms in
    if (r.peer_id == peer_id) && until_ok until_ms r.timestamp_ms then later r rest else rest

-- `RemoveOldStats`
unfoldable pub remove_old_stats : List PeerStat → Int64 → List PeerStat
remove_old_stats [] oldest_ms = []
remove_old_stats (r ∷ rows) oldest_ms =
    let rest = remove_old_stats rows oldest_ms in
    if not (less64 oldest_ms r.timestamp_ms) then rest else r ∷ rest

-- `PutPeerStat`
abbrev pub put_peer_stat : List PeerStat → PeerStat → List PeerStat
put_peer_stat rows r = rows ++ (r ∷ [])
