-- ===== src/Sqlgen/Tables.antt =====
-- sqlgen/queries.sql.go: the tables of the migrations, and the queries on subnets. A query
-- that finds no row gives `none`, `sql.ErrNoRows`; what else can fail, a caller says.
use tanlnode.Base.{
  ℕ, suc, Bool, true, false, Option, none, some, List, [], ◌∷◌, ◌++◌, ◌==◌, if◌then◌else◌,
}
use tanlnode.Sqlgen.{Text, Subnet, Int64, PeerStat}

-- `Peer`; the time is as in `Stat` of peerstats.
pub record Peer : Type 0 where
  pub id : ℕ
  pub public_key_base64 : Text
  pub is_enabled : Bool
  pub preshared_key_base64 : Text
  pub endpoint : Text
  pub persistent_keepalive : Int64
  pub owner : Text
  pub latest_handshake_at : Option ℕ
  pub latest_endpoint : Option Text

-- The tables, rows in the order of their insertion, and the next ids: AUTOINCREMENT gives none
-- twice. `foreign_keys` is SQLite's setting, off where the data source name does not turn it on.
pub record Db : Type 0 where
  pub peers : List Peer
  pub subnets : List Subnet
  pub peer_stats : List PeerStat
  pub next_peer_id : ℕ
  pub next_subnet_id : ℕ
  pub foreign_keys : Bool

-- The rows that a test picks, the first of them, the others, and how many they are.
unfoldable pub select {ℓ} : {A : Type ℓ} → (A → Bool) → List A → List A
select test [] = []
select test (r ∷ rows) = let rest = select test rows in if test r then r ∷ rest else rest

unfoldable pub select_one {ℓ} : {A : Type ℓ} → (A → Bool) → List A → Option A
select_one test [] = none
select_one test (r ∷ rows) = let rest = select_one test rows in if test r then some r else rest

unfoldable pub delete_where {ℓ} : {A : Type ℓ} → (A → Bool) → List A → List A
delete_where test [] = []
delete_where test (r ∷ rows) =
    let rest = delete_where test rows in if test r then rest else r ∷ rest

unfoldable pub count_where {ℓ} : {A : Type ℓ} → (A → Bool) → List A → ℕ
count_where test [] = 0
count_where test (r ∷ rows) = let rest = count_where test rows in if test r then suc rest else rest

unfoldable pub update_where {ℓ} : {A : Type ℓ} → (A → Bool) → (A → A) → List A → List A
update_where test f [] = []
update_where test f (r ∷ rows) = (if test r then f r else r) ∷ update_where test f rows

-- `peer_id = ?`, which NULL does not satisfy.
abbrev pub is_peer_id : ℕ → Option ℕ → Bool
is_peer_id id none = false
is_peer_id id (some peer_id) = peer_id == id

abbrev pub is_null : Option ℕ → Bool
is_null none = true
is_null (some peer_id) = false

-- `AddSubnetParams`
pub record AddSubnetParams : Type 0 where
  pub prefix : Text
  pub peer_id : Option ℕ
  pub comment : Text
  pub may_overlap : Bool

abbrev pub new_subnet : ℕ → AddSubnetParams → Subnet
new_subnet id arg = record {
  id = id;
  prefix = arg.prefix;
  peer_id = arg.peer_id;
  comment = arg.comment;
  may_overlap = arg.may_overlap;
}

-- `AddSubnet`; a peer that it names is there in all calls.
abbrev pub add_subnet : Db → AddSubnetParams → Db × Subnet
add_subnet db arg =
    let row = new_subnet db.next_subnet_id arg in
    (record db { subnets = db.subnets ++ (row ∷ []); next_subnet_id = suc db.next_subnet_id }, row)

abbrev pub has_id : ℕ → Subnet → Bool
has_id id row = row.id == id

-- `DeleteSubnet`, with the number of rows.
abbrev pub delete_subnet : Db → ℕ → Db × ℕ
delete_subnet db id = (
  record db { subnets = delete_where (has_id id) db.subnets },
  count_where (has_id id) db.subnets,
)

-- `GetAllSubnets`
abbrev pub get_all_subnets : Db → List Subnet
get_all_subnets db = db.subnets

-- `GetPeerSubnets`
abbrev pub get_peer_subnets : Db → ℕ → List Subnet
get_peer_subnets db peer_id = select (λ row. is_peer_id peer_id row.peer_id) db.subnets

-- `GetReservedSubnets`
abbrev pub get_reserved_subnets : Db → List Subnet
get_reserved_subnets db = select (λ row. is_null row.peer_id) db.subnets

-- `GetSubnetByID`
abbrev pub get_subnet_by_id : Db → ℕ → Option Subnet
get_subnet_by_id db id = select_one (has_id id) db.subnets
