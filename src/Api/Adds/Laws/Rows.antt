-- ===== src/Api/Adds/Laws/Rows.antt =====
-- The rows that `apiAddPeer` adds to the database.
use mathlib.Core.Path.{subst}
use mathlib.Core.List.{append-nil, append_assoc}
use tanlnode.Base.{
  ℕ, suc, ◌≡◌, refl, sym, ap, ◌∙◌, true, Option, none, some, List, [], ◌∷◌, ◌++◌, inl, inr,
  Option-cases,
}
use tanlnode.Sqlgen.{Text, Subnet}
use tanlnode.Sqlgen.Tables.{Db, Peer, add_subnet}
use tanlnode.Sqlgen.Peers.{get_peer_by_public_key, add_peer, insert_peer}
use tanlnode.Tx.{Exit, done, fails}
use tanlnode.Api.{ApiErr, OutsideErr, outside, adding_subnet}
use tanlnode.Api.Outside.{Outside}
use tanlnode.Api.Adds.{AddPeerRequest, ParsedSubnet, Keys, key_text}
use tanlnode.Api.Adds.Run.{peer_params, subnet_params, put_rows}

-- The id after those that the subnets take.
abbrev pub next_id : ℕ → List ParsedSubnet → ℕ
next_id id [] = id
next_id id (p ∷ ps) = next_id (suc id) ps

-- The text of an optional key.
abbrev pub text_of : (Text → Text) → Option Text → Text
text_of print none = []
text_of print (some key) = print key

module _ (o : Outside) (req : AddPeerRequest) (keys : Keys) where
  -- The row of the peer: the keys, what the request has, and no handshake.
  abbrev pub peer_row : ℕ → Peer
  peer_row id = record {
    id = id;
    public_key_base64 = o.key_string keys.public_key;
    is_enabled = true;
    preshared_key_base64 = text_of o.key_string keys.preshared_key;
    endpoint = req.endpoint;
    persistent_keepalive = req.persistent_keepalive;
    owner = req.owner;
    latest_handshake_at = none;
    latest_endpoint = none;
  }

  -- The rows of the subnets, with ids from `id` on.
  abbrev pub subnet_rows : ℕ → ℕ → List ParsedSubnet → List Subnet
  subnet_rows peer_id id [] = []
  subnet_rows peer_id id (p ∷ ps) =
      record {
        id = id;
        prefix = o.print_prefix p.prefix;
        peer_id = some peer_id;
        comment = [];
        may_overlap = p.may_overlap;
      }
      ∷ subnet_rows peer_id (suc id) ps

  -- The database with the peer.
  abbrev pub with_peer : Db → Db
  with_peer db = record db {
    peers = db.peers ++ (peer_row db.next_peer_id ∷ []);
    next_peer_id = suc db.next_peer_id;
  }

  -- The database with the peer and its subnets.
  abbrev pub with_rows_of : Db → List ParsedSubnet → Db
  with_rows_of db ps = record db {
    peers = db.peers ++ (peer_row db.next_peer_id ∷ []);
    next_peer_id = suc db.next_peer_id;
    subnets = db.subnets ++ subnet_rows db.next_peer_id db.next_subnet_id ps;
    next_subnet_id = next_id db.next_subnet_id ps;
  }

  -- How `AddPeer` ends: with the peer, or as the key is there already.
  pub data AddPeerEnd (db : Db) : Option (Db × Peer) → Type 0 where
    known :
        (p : Peer)
        → get_peer_by_public_key db (o.key_string keys.public_key) ≡ some p
        → AddPeerEnd db none
    new :
        get_peer_by_public_key db (o.key_string keys.public_key) ≡ none
        → AddPeerEnd db (some (with_peer db, peer_row db.next_peer_id))

  key_text-eq : (k : Option Text) → key_text o k ≡ text_of o.key_string k
  key_text-eq none = refl
  key_text-eq (some key) = refl

  pub add_peer-ends : (db : Db) → AddPeerEnd db (add_peer db (peer_params o req keys))
  unfolding add_peer
  add_peer-ends db =
      elim (Option-cases (get_peer_by_public_key db (o.key_string keys.public_key))) [
        | inl e ↦
            let row : Text → Option (Db × Peer) = λ (t : Text).
              let p = record (peer_row db.next_peer_id) { preshared_key_base64 = t } in
              some (
                record db { peers = db.peers ++ (p ∷ []); next_peer_id = suc db.next_peer_id },
                p,
              ) in
            subst (AddPeerEnd db)
              (sym (
                ap (insert_peer db (peer_params o req keys)) e
                ∙ ap row (key_text-eq keys.preshared_key)))
              (new e)
        | inr (p, e) ↦
            subst (AddPeerEnd db) (sym (ap (insert_peer db (peer_params o req keys)) e)) (known p e)
      ]

  module _ (peer_id : ℕ) where
    abbrev pub with_subnets : Db → List ParsedSubnet → Db
    with_subnets db ps = record db {
      subnets = db.subnets ++ subnet_rows peer_id db.next_subnet_id ps;
      next_subnet_id = next_id db.next_subnet_id ps;
    }

    -- How the loop that puts the rows ends.
    pub data PutRowsEnd (db : Db) (ps : List ParsedSubnet) : Db × Exit ApiErr → Type 0 where
      all_put : PutRowsEnd db ps (with_subnets db ps, done)
      put_failed :
          (db' : Db) (i : ℕ) (x : OutsideErr)
          → o.faults (adding_subnet i) ≡ some x
          → PutRowsEnd db ps (db', fails (outside x))

    -- The database after the first row.
    abbrev with_first : Db → ParsedSubnet → Db
    with_first db p = (add_subnet db (subnet_params o req keys peer_id p)).0

    next_end :
        (db : Db) (p : ParsedSubnet) (ps : List ParsedSubnet) (r : Db × Exit ApiErr)
        → PutRowsEnd (with_first db p) ps r
        → PutRowsEnd db (p ∷ ps) r
    next_end db p ps r (put_failed db' i x e) = put_failed db' i x e
    next_end db p ps r all_put =
        subst (PutRowsEnd db (p ∷ ps))
          (ap
            (λ (rows : List Subnet). (
              record db { subnets = rows; next_subnet_id = next_id (suc db.next_subnet_id) ps },
              done,
            ))
            (sym (
              append_assoc db.subnets (subnet_rows peer_id db.next_subnet_id (p ∷ []))
                (subnet_rows peer_id (suc db.next_subnet_id) ps))))
          all_put

    put_one :
        (i : ℕ) (db : Db) (p : ParsedSubnet) (ps : List ParsedSubnet)
        → PutRowsEnd (with_first db p) ps (put_rows o req keys peer_id (suc i) (with_first db p) ps)
        → (f : Option OutsideErr) → o.faults (adding_subnet i) ≡ f
        → PutRowsEnd db (p ∷ ps) (elim f [
          | none ↦ put_rows o req keys peer_id (suc i) (with_first db p) ps
          | some e ↦ (db, fails (outside e))
        ])
    put_one i db p ps r none e = next_end db p ps _ r
    put_one i db p ps r (some x) e = put_failed db i x e

    pub put_rows-ends :
        (i : ℕ) (db : Db) (ps : List ParsedSubnet)
        → PutRowsEnd db ps (put_rows o req keys peer_id i db ps)
    unfolding put_rows
    put_rows-ends i db [] =
        subst (PutRowsEnd db [])
          (ap (λ (rows : List Subnet). (record db { subnets = rows }, done))
            (append-nil db.subnets))
          all_put
    put_rows-ends i db (p ∷ ps) =
        put_one i db p ps (put_rows-ends (suc i) (with_first db p) ps) (o.faults (adding_subnet i))
          refl
