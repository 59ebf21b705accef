-- ===== src/Api.antt =====
-- main.go, api.go and db/db.go: the state of a node that its handlers share, and their answers.
--
-- A handler runs alone from its `Lock` to its `Unlock`, so the model runs one at a time. The database
-- may fail at any query: `Faults` says which fail, and with what error.
pub mod Outside
pub mod Nets
pub mod Peers
pub mod Adds
pub mod Changes
pub mod Reads
pub mod Prepare
mod Samples
use tanlnode.Base.{
  ℕ, Bool, true, false, ◌||◌, Option, none, some, List, [], ◌∷◌, ◌++◌, if◌then◌else◌,
}
use tanlnode.Sqlgen.{Text, Int64, Subnet}
use tanlnode.Sqlgen.Tables.{Db}
use tanlnode.IpTree.{
  NetErr, out_of_net, overlaps, net_too_small, big_net6_not_supported, no_free_addr,
}
use tanlnode.Subnets.{Service}
use tanlnode.StatsCache.{Cache}
use tanlnode.Tx.{Exit, done, fails, panics, TxErr, error, rollback_error}
use tanlnode.Wg.Puts.{PeerConfig}

-- What the node has told WireGuard, the last first.
pub data WgCall : Type 0 where
  put : PeerConfig → WgCall
  removed : Text → WgCall

-- `node`: the write lock of `DB`, the tables, `subnets`, the map of `peerStatsCache`, and `wg`.
pub record Node : Type 0 where
  pub locked : Bool
  pub db : Db
  pub subnets : Service
  pub cache : Cache
  pub wg_calls : List WgCall

abbrev pub lock : Node → Node
lock n = record n { locked = true }

-- `Unlock`: of a lock that nobody holds it ends the program.
abbrev pub unlock : {E : Type 0} → Node → Node × Exit E
unlock n = if n.locked then (record n { locked = false }, done) else (n, panics)

-- An error of what the handlers call outside: `sql.ErrNoRows`, an SQLite error by its code, or another.
pub data OutsideErr : Type 0 where
  no_rows constraint other_sqlite other : OutsideErr

-- An error value that a handler meets.
pub data ApiErr : Type 0 where
  net_error : NetErr → ApiErr
  outside : OutsideErr → ApiErr

-- The calls of the database, of WireGuard and of the random source.
pub data Call : Type 0 where
  begin_tx commit_tx rollback_tx : Call
  adding_peer getting_peer updating_peer removing_peer : Call
  getting_peers getting_subnet getting_subnets deleting_subnet : Call
  adding_subnet : ℕ → Call
  getting_stat : ℕ → Call
  putting_in_wg removing_from_wg : Call
  drawing_port : Call

abbrev pub Faults : Type 0
Faults = Call → Option OutsideErr

-- `errors.Is`: a `RollbackError` unwraps to both of its errors.
abbrev pub errors_is : (ApiErr → Bool) → TxErr ApiErr → Bool
errors_is test (error e) = test e
errors_is test (rollback_error rb_err cause) = test rb_err || test cause

abbrev pub is_net : (NetErr → Bool) → ApiErr → Bool
is_net test (net_error e) = test e
is_net test (outside e) = false

abbrev pub is_outside : (OutsideErr → Bool) → ApiErr → Bool
is_outside test (net_error e) = false
is_outside test (outside e) = test e

-- `errors.Is(err, nettree.ErrOverlaps)` and `errors.Is(err, nettree.ErrNoFreeAddr)`
abbrev pub is_overlaps : NetErr → Bool
is_overlaps overlaps = true
is_overlaps out_of_net = false
is_overlaps net_too_small = false
is_overlaps big_net6_not_supported = false
is_overlaps no_free_addr = false

abbrev pub is_no_free_addr : NetErr → Bool
is_no_free_addr no_free_addr = true
is_no_free_addr out_of_net = false
is_no_free_addr net_too_small = false
is_no_free_addr big_net6_not_supported = false
is_no_free_addr overlaps = false

abbrev pub is_no_rows : OutsideErr → Bool
is_no_rows no_rows = true
is_no_rows constraint = false
is_no_rows other_sqlite = false
is_no_rows other = false

abbrev pub is_sqlite : OutsideErr → Bool
is_sqlite constraint = true
is_sqlite other_sqlite = true
is_sqlite no_rows = false
is_sqlite other = false

abbrev pub is_constraint : OutsideErr → Bool
is_constraint constraint = true
is_constraint other_sqlite = false
is_constraint no_rows = false
is_constraint other = false

-- `IsConstraintErr`: `errors.As` takes the first SQLite error that it finds.
abbrev pub is_constraint_err : TxErr ApiErr → Bool
is_constraint_err (error e) = is_outside is_constraint e
is_constraint_err (rollback_error rb_err cause) =
    if is_outside is_sqlite rb_err
    then is_outside is_constraint rb_err
    else is_outside is_constraint cause

-- `SubnetResponse`
pub record SubnetResponse : Type 0 where
  pub id : ℕ
  pub prefix : Text
  pub comment : Text
  pub may_overlap : Bool

-- `PeerResponse`
pub record PeerResponse : Type 0 where
  pub public_key_base64 : Text
  pub is_enabled : Bool
  pub preshared_key_base64 : Text
  pub endpoint : Text
  pub persistent_keepalive : Int64
  pub owner : Text
  pub latest_handshake : Option ℕ
  pub latest_endpoint : Text

-- `WGQuickConfig`, as far as it depends on the request: `dns`, `mtu`, the key, host and keepalive
-- interval of the node are from its configuration.
pub record WgQuickConfig : Type 0 where
  pub private_key : Text
  pub addresses : List Text
  pub preshared_key : Text
  pub endpoint_port : ℕ

-- `TransferStatResponse`
pub record TransferStatResponse : Type 0 where
  pub public_key_base64 : Text
  pub tx : Int64
  pub rx : Int64

-- What is encoded in JSON; the message of an error is left out.
pub data Body : Type 0 where
  api_error : Body
  message : Body
  empty : Body
  subnet : SubnetResponse → Body
  subnets : List SubnetResponse → Body
  peer : PeerResponse → Body
  peers : List PeerResponse → Body
  new_peer : PeerResponse → WgQuickConfig → Body
  stat : TransferStatResponse → Body
  stats : List TransferStatResponse → Body

-- The code and the body of a response.
abbrev pub Response : Type 0
Response = ℕ × Body

-- How a handler ended: what it wrote to the response, in order, or a panic.
pub data Reply : Type 0 where
  replied : List Response → Reply
  panicked : Reply

-- `respondJSON`
abbrev pub respond_json : ℕ → Body → Reply
respond_json code body = replied ((code, body) ∷ [])

-- `respondError`
abbrev pub respond_error : ℕ → Reply
respond_error code = respond_json code api_error

-- `internalServerError`
abbrev pub internal_server_error : Reply
internal_server_error = respond_error 500

-- A further response after what was written.
abbrev pub and_respond : Reply → Reply → Reply
and_respond (replied rs) (replied rs') = replied (rs ++ rs')
and_respond (replied rs) panicked = panicked
and_respond panicked r = panicked
