-- ===== src/Api/Adds/Laws/Endings.antt =====
-- The ways in which the transaction of `apiAddPeer` and its answer end, without its own definitions.
use tanlnode.Base.{ℕ, ◌≡◌, true, false, none, some, List, [], ◌∷◌, map}
use tanlnode.Sqlgen.{Text}
use tanlnode.Sqlgen.Tables.{Peer}
use tanlnode.Sqlgen.Peers.{get_peer_by_public_key}
use tanlnode.StatsCache.{put_new, remove}
use tanlnode.IpTree.{
  NetErr, overlaps, out_of_net, net_too_small, big_net6_not_supported, no_free_addr,
}
use tanlnode.Subnets.{Service}
use tanlnode.Subnets.Laws.Assigns.{SomeExhausted}
use tanlnode.Texts.{length}
use tanlnode.Tx.{done}
use tanlnode.Wg.Puts.{PeerConfig}
use tanlnode.Api.{
  ApiErr, OutsideErr, outside, net_error, no_rows, constraint, other_sqlite, other, Call,
  rollback_tx, Node, WgCall, put, PeerResponse, WgQuickConfig, new_peer, Reply, replied, panicked,
  respond_error,
}
use tanlnode.Api.Outside.{Outside}
use tanlnode.Api.Adds.{AddPeerRequest, ParsedSubnet, Keys}
use tanlnode.Api.Adds.Subnets.{delete_trees}
use tanlnode.Api.Adds.Run.{port_at}
use tanlnode.Api.Adds.Laws.Loops.{any_overlap}
use tanlnode.Api.Adds.Laws.Obtained.{Blocked}
use tanlnode.Api.Adds.Laws.Rows.{text_of, with_rows_of}
use tanlnode.Api.Adds.Laws.Texts.{AreTexts}
use tanlnode.Api.Adds.Laws.Assigning.{HowAssigned}

-- The code of the answer to an error.
abbrev pub code_of : ApiErr → ℕ
code_of (net_error overlaps) = 409
code_of (net_error out_of_net) = 409
code_of (net_error no_free_addr) = 500
code_of (net_error net_too_small) = 500
code_of (net_error big_net6_not_supported) = 500
code_of (outside constraint) = 409
code_of (outside no_rows) = 500
code_of (outside other_sqlite) = 500
code_of (outside other) = 500

-- An answer that the peer was not added.
pub data IsRefusal : Reply → Type 0 where
  conflict : IsRefusal (respond_error 409)
  failure : IsRefusal (respond_error 500)

module _ (o : Outside) (n : Node) (req : AddPeerRequest) (keys : Keys)
    (ps0 : List ParsedSubnet) where
  -- What WireGuard is told.
  abbrev pub told_config : List ParsedSubnet → PeerConfig
  told_config ps = record {
    public_key = keys.public_key;
    preshared_key = keys.preshared_key;
    endpoint = req.endpoint;
    persistent_keepalive = req.persistent_keepalive;
    allowed_ips = map (λ (p : ParsedSubnet). o.prefix_string p.prefix) ps;
  }

  -- The peer and the configuration of the answer.
  abbrev pub told_peer : PeerResponse
  told_peer = record {
    public_key_base64 = o.key_string keys.public_key;
    is_enabled = true;
    preshared_key_base64 = text_of o.key_string keys.preshared_key;
    endpoint = req.endpoint;
    persistent_keepalive = req.persistent_keepalive;
    owner = req.owner;
    latest_handshake = none;
    latest_endpoint = [];
  }

  abbrev pub told_quick : List Text → WgQuickConfig
  told_quick texts = record {
    private_key = text_of o.key_string keys.private_key;
    addresses = texts;
    preshared_key = text_of o.key_string keys.preshared_key;
    endpoint_port = port_at o.ports (o.draw_port (length o.ports));
  }

  -- The answer where the peer was added: 201 where no subnet may overlap, and else a panic.
  pub data IsAnswer (s : Service) (ps : List ParsedSubnet) : Reply → Type 0 where
    created :
        any_overlap ps0 ≡ false
        → (texts : List Text) → AreTexts o s ps texts
        → IsAnswer s ps (replied ((201, new_peer told_peer (told_quick texts)) ∷ []))
    nil_tree : any_overlap ps0 ≡ true → IsAnswer s ps panicked

  -- Why the action returned an error.
  pub data Reason : ApiErr → Type 0 where
    by_fault : (c : Call) (x : OutsideErr) → o.faults c ≡ some x → Reason (outside x)
    known_key :
        (p : Peer)
        → get_peer_by_public_key n.db (o.key_string keys.public_key) ≡ some p
        → Reason (outside constraint)
    blocked_by : (e : NetErr) → Blocked n.subnets ps0 e → Reason (net_error e)
    exhausted : ps0 ≡ [] → SomeExhausted n.subnets → Reason (net_error no_free_addr)

  -- WireGuard was told nothing, or to add the peer.
  pub data WgLeft : List WgCall → Type 0 where
    untouched : WgLeft n.wg_calls
    left_behind : (ps : List ParsedSubnet) → WgLeft (put (told_config ps) ∷ n.wg_calls)

  -- How it ended: with an error and its code; with an error while the rollback in the database
  -- fails too; with a panic, as there are no ports; or with the peer.
  pub data AddAnswers : Node × Reply → Type 0 where
    undone :
        (w : List WgCall)
        → WgLeft w
        → (e : ApiErr) → Reason e
        → AddAnswers (
          record n { cache = remove n.cache keys.public_key; wg_calls = w },
          respond_error (code_of e),
        )
    undone_badly :
        (w : List WgCall)
        → WgLeft w
        → (e : ApiErr) → Reason e
        → (x : OutsideErr) → o.faults rollback_tx ≡ some x
        → (reply : Reply) → IsRefusal reply
        → AddAnswers (record n { cache = remove n.cache keys.public_key; wg_calls = w }, reply)
    no_ports :
        (ps : List ParsedSubnet)
        → length o.ports ≡ 0
        → AddAnswers (
          record n {
            cache = remove n.cache keys.public_key;
            wg_calls = put (told_config ps) ∷ n.wg_calls;
          },
          panicked,
        )
    added :
        get_peer_by_public_key n.db (o.key_string keys.public_key) ≡ none
        → (s : Service) (ps : List ParsedSubnet) → HowAssigned o req keys n.subnets ps0 s ps done
        → delete_trees s ps ≡ n.subnets
        → (reply : Reply) → IsAnswer s ps reply
        → AddAnswers (
          record n {
            db = with_rows_of o req keys n.db ps;
            subnets = s;
            cache = put_new n.cache keys.public_key n.db.next_peer_id;
            wg_calls = put (told_config ps) ∷ n.wg_calls;
          },
          reply,
        )
