-- ===== src/Api/Adds.antt =====
-- peers.go: `apiAddPeer`: the request, its subnets and keys. Subnets has the reserving of the subnets,
-- Run the transaction, Replies the answer.
pub mod Subnets
pub mod Run
pub mod Replies
pub mod Laws
mod Tests
use tanlnode.Base.{
  ℕ, zero, suc, Bool, true, false, not, Option, none, some, List, [], ◌∷◌, ◌++◌, map, if◌then◌else◌,
  ◌⊎◌, inl, inr, ◌==◌,
}
use tanlnode.Sqlgen.{Text, Int64, Subnet}
use tanlnode.Sqlgen.Tables.{Db, Peer, AddSubnetParams, add_subnet}
use tanlnode.Sqlgen.Peers.{AddPeerParams, add_peer}
use tanlnode.Netip.{Addr, Prefix}
use tanlnode.Utils.{make_prefix_from_addr}
use tanlnode.PeerStats.{is_empty}
use tanlnode.StatsCache.{put_new, remove}
use tanlnode.IpTree.{IpTree, NetErr, Result, ok, err, panic}
use tanlnode.Subnets.{delete_if, Service, reserve, is_out_of_net, assign_random_in_each_net}
use tanlnode.Texts.{length, itoa}
use tanlnode.Tx.{Exit, done, fails, panics, TxErr, Transactional, do_tx}
use tanlnode.Wg.Puts.{PeerConfig}
use tanlnode.Api.{
  Node, lock, unlock, put, ApiErr, net_error, constraint, adding_subnet, adding_peer, begin_tx,
  commit_tx, rollback_tx, putting_in_wg, drawing_port, errors_is, is_net, is_overlaps,
  is_no_free_addr, is_constraint_err, PeerResponse, WgQuickConfig, new_peer, Reply, panicked,
  respond_json, respond_error, internal_server_error,
}
use tanlnode.Api.Outside.{Outside}
use tanlnode.Api.Peers.{peer_from_db}

-- An element of `AllowedAddresses`.
pub record AllowedAddress : Type 0 where
  pub subnet : Text
  pub may_overlap : Bool

-- `AddPeerRequest`
pub record AddPeerRequest : Type 0 where
  pub public_key_base64 : Text
  pub preshared_key_base64 : Text
  pub random_preshared_key : Bool
  pub endpoint : Text
  pub persistent_keepalive : Int64
  pub owner : Text
  pub allowed_addresses : List AllowedAddress

-- `ParsedSubnet`; a tree is its index in the service, nil is `none`.
pub record ParsedSubnet : Type 0 where
  pub prefix : Prefix
  pub may_overlap : Bool
  pub tree : Option ℕ

-- `privateKey`, `publicKey` and `presharedKey`.
pub record Keys : Type 0 where
  pub private_key : Option Text
  pub public_key : Text
  pub preshared_key : Option Text

abbrev pub parsed_one :
    AllowedAddress → Option Prefix → Option (List ParsedSubnet) → Option (List ParsedSubnet)
parsed_one a none rest = none
parsed_one a (some pref) none = none
parsed_one a (some pref) (some ps) =
    some (record { prefix = pref; may_overlap = a.may_overlap; tree = none } ∷ ps)

-- The code of the answer to a request whose keys cannot be had, or the keys.
abbrev pub key_or : ℕ → Option Text → ℕ ⊎ Text
key_or code none = inl code
key_or code (some key) = inr key

module _ (o : Outside) where
  -- The loop that parses; `none` is the answer "Invalid subnet".
  unfoldable pub parse_subnets : List AllowedAddress → Option (List ParsedSubnet)
  parse_subnets [] = some []
  parse_subnets (a ∷ addresses) = parsed_one a (o.parse_prefix a.subnet) (parse_subnets addresses)

  abbrev pub given_key : ℕ ⊎ Text → ℕ ⊎ Keys
  given_key (inl code) = inl code
  given_key (inr key) = inr (record { private_key = none; public_key = key; preshared_key = none })

  abbrev pub generated_key : ℕ ⊎ Text → ℕ ⊎ Keys
  generated_key (inl code) = inl code
  generated_key (inr key) =
      inr (record { private_key = some key; public_key = o.public_key key; preshared_key = none })

  abbrev pub public_keys : AddPeerRequest → ℕ ⊎ Keys
  public_keys req =
      if not (is_empty req.public_key_base64)
      then given_key (key_or 400 (o.parse_key req.public_key_base64))
      else generated_key (key_or 500 (o.generate_private_key 0))

  abbrev pub add_preshared : Keys → ℕ ⊎ Text → ℕ ⊎ Keys
  add_preshared keys (inl code) = inl code
  add_preshared keys (inr key) = inr (record keys { preshared_key = some key })

  abbrev pub preshared_keys : AddPeerRequest → ℕ ⊎ Keys → ℕ ⊎ Keys
  preshared_keys req (inl code) = inl code
  preshared_keys req (inr keys) =
      if not (is_empty req.preshared_key_base64)
      then add_preshared keys (key_or 400 (o.parse_key req.preshared_key_base64))
      else if req.random_preshared_key
      then add_preshared keys (key_or 500 (o.generate_private_key 1))
      else inr keys

  -- The keys that the request gives or asks for.
  abbrev pub make_keys : AddPeerRequest → ℕ ⊎ Keys
  make_keys req = preshared_keys req (public_keys req)

  abbrev pub key_text : Option Text → Text
  key_text none = []
  key_text (some key) = o.key_string key
