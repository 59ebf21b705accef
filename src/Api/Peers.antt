-- ===== src/Api/Peers.antt =====
-- peers.go: the handlers of peers but `apiAddPeer`, which is in Adds.
use tanlnode.Base.{Option, none, some, []}
use tanlnode.Sqlgen.{Text}
use tanlnode.Sqlgen.Tables.{Peer}
use tanlnode.Api.{PeerResponse}

abbrev pub text_or_empty : Option Text → Text
text_or_empty none = []
text_or_empty (some text) = text

-- `fromDB` of `PeerResponse`
abbrev pub peer_from_db : Peer → PeerResponse
peer_from_db p = record {
  public_key_base64 = p.public_key_base64;
  is_enabled = p.is_enabled;
  preshared_key_base64 = p.preshared_key_base64;
  endpoint = p.endpoint;
  persistent_keepalive = p.persistent_keepalive;
  owner = p.owner;
  latest_handshake = p.latest_handshake_at;
  latest_endpoint = text_or_empty p.latest_endpoint;
}
