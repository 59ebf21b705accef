-- ===== src/Sqlgen/Peers.antt =====
-- sqlgen/queries.sql.go: the queries on peers.
use tanlnode.Base.{
  ℕ, suc, Bool, true, false, not, ◌&&◌, ◌||◌, Option, none, some, List, [], ◌∷◌, ◌++◌, ltb, ◌==◌,
  if◌then◌else◌,
}
use tanlnode.Sqlgen.{Text, same_text, Subnet, Int64, PeerStat}
use tanlnode.Sqlgen.Tables.{
  Peer, Db, select, select_one, delete_where, count_where, update_where, is_peer_id,
}

-- The order of TEXT.
abbrev pub text_less : Text → Text → Bool
text_less [] [] = false
text_less [] (c ∷ text) = true
text_less (d ∷ key) [] = false
text_less (d ∷ key) (c ∷ text) = ltb d c || (d == c && text_less key text)

abbrev pub has_key : Text → Peer → Bool
has_key key p = same_text p.public_key_base64 key

-- `GetPeerByPublicKey`
abbrev pub get_peer_by_public_key : Db → Text → Option Peer
get_peer_by_public_key db key = select_one (has_key key) db.peers

-- `AddPeerParams`
pub record AddPeerParams : Type 0 where
  pub public_key_base64 : Text
  pub is_enabled : Bool
  pub preshared_key_base64 : Text
  pub endpoint : Text
  pub persistent_keepalive : Int64
  pub owner : Text

abbrev pub new_peer : ℕ → AddPeerParams → Peer
new_peer id arg = record {
  id = id;
  public_key_base64 = arg.public_key_base64;
  is_enabled = arg.is_enabled;
  preshared_key_base64 = arg.preshared_key_base64;
  endpoint = arg.endpoint;
  persistent_keepalive = arg.persistent_keepalive;
  owner = arg.owner;
  latest_handshake_at = none;
  latest_endpoint = none;
}

abbrev pub insert_peer : Db → AddPeerParams → Option Peer → Option (Db × Peer)
insert_peer db arg none =
    let p = new_peer db.next_peer_id arg in
    some (record db { peers = db.peers ++ (p ∷ []); next_peer_id = suc db.next_peer_id }, p)
insert_peer db arg (some p) = none

-- `AddPeer`; `none` is the error of the constraint UNIQUE.
unfoldable pub add_peer : Db → AddPeerParams → Option (Db × Peer)
add_peer db arg = insert_peer db arg (get_peer_by_public_key db arg.public_key_base64)

-- `ORDER BY public_key_base64`
unfoldable pub put_in_order : Peer → List Peer → List Peer
put_in_order p [] = p ∷ []
put_in_order p (q ∷ peers) =
    let rest = put_in_order p peers in
    if text_less q.public_key_base64 p.public_key_base64 then q ∷ rest else p ∷ q ∷ peers

unfoldable pub in_order : List Peer → List Peer
in_order [] = []
in_order (p ∷ peers) = put_in_order p (in_order peers)

-- `owner = COALESCE(?1, owner)`
abbrev pub has_owner : Option Text → Peer → Bool
has_owner none p = true
has_owner (some owner) p = same_text p.owner owner

-- `GetPeers`
abbrev pub get_peers : Db → Option Text → List Peer
get_peers db owner = in_order (select (has_owner owner) db.peers)

abbrev pub of_peer : Option Peer → Subnet → Bool
of_peer none row = false
of_peer (some p) row = is_peer_id p.id row.peer_id

abbrev pub has_stats : Option Peer → PeerStat → Bool
has_stats none stat = false
has_stats (some p) stat = stat.peer_id == p.id

-- `RemovePeer`, with the number of rows. Foreign keys, where they are on, take the subnets of the
-- peer with it, and refuse a peer that has statistics: `none` is the error of that constraint.
unfoldable pub remove_peer : Db → Text → Option (Db × ℕ)
remove_peer db key =
    let p = get_peer_by_public_key db key in
    let stats = count_where (has_stats p) db.peer_stats in
    let peers = delete_where (has_key key) db.peers in
    let n = count_where (has_key key) db.peers in
    if not db.foreign_keys
    then some (record db { peers = peers }, n)
    else if not (stats == 0)
    then none
    else some (record db { peers = peers; subnets = delete_where (of_peer p) db.subnets }, n)

-- `UpdatePeerParams`
pub record UpdatePeerParams : Type 0 where
  pub is_enabled : Bool
  pub preshared_key_base64 : Text
  pub endpoint : Text
  pub persistent_keepalive : Int64
  pub owner : Text
  pub public_key_base64 : Text

abbrev pub updated_peer : UpdatePeerParams → Peer → Peer
updated_peer arg p = record p {
  is_enabled = arg.is_enabled;
  preshared_key_base64 = arg.preshared_key_base64;
  endpoint = arg.endpoint;
  persistent_keepalive = arg.persistent_keepalive;
  owner = arg.owner;
}

abbrev pub update_found : Db → UpdatePeerParams → Option Peer → Option (Db × Peer)
update_found db arg none = none
update_found db arg (some p) = some (
  record db { peers = update_where (has_key arg.public_key_base64) (updated_peer arg) db.peers },
  updated_peer arg p,
)

-- `UpdatePeer`
unfoldable pub update_peer : Db → UpdatePeerParams → Option (Db × Peer)
update_peer db arg = update_found db arg (get_peer_by_public_key db arg.public_key_base64)

-- `UpdatePeerHandshakeDataParams`
pub record UpdatePeerHandshakeDataParams : Type 0 where
  pub latest_handshake_at : Option ℕ
  pub latest_endpoint : Option Text
  pub id : ℕ

abbrev pub with_handshake : UpdatePeerHandshakeDataParams → Peer → Peer
with_handshake arg p = record p {
  latest_handshake_at = arg.latest_handshake_at;
  latest_endpoint = arg.latest_endpoint;
}

-- `UpdatePeerHandshakeData`, with the number of rows.
unfoldable pub update_peer_handshake_data : Db → UpdatePeerHandshakeDataParams → Db × ℕ
update_peer_handshake_data db arg = (
  record db { peers = update_where (λ p. p.id == arg.id) (with_handshake arg) db.peers },
  count_where (λ p. p.id == arg.id) db.peers,
)
