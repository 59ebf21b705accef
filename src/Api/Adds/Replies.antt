-- ===== src/Api/Adds/Replies.antt =====
-- peers.go: `apiAddPeer`: the answer, and the handler.
use tanlnode.Base.{
  ℕ, zero, suc, Option, none, some, List, [], ◌∷◌, ◌++◌, if◌then◌else◌, ◌⊎◌, inl, inr,
}
use tanlnode.Sqlgen.{Text}
use tanlnode.IpTree.{IpTree}
use tanlnode.Subnets.{Service, is_out_of_net}
use tanlnode.Texts.{itoa}
use tanlnode.Tx.{Exit, done, fails, panics, TxErr, do_tx}
use tanlnode.Api.{
  Node, ApiErr, errors_is, is_net, is_overlaps, is_no_free_addr, is_constraint_err, new_peer, Reply,
  panicked, respond_json, respond_error, internal_server_error,
}
use tanlnode.Api.Outside.{Outside}
use tanlnode.Api.Peers.{peer_from_db}
use tanlnode.Api.Adds.{AddPeerRequest, ParsedSubnet, Keys, key_text, parse_subnets, make_keys}
use tanlnode.Api.Adds.Run.{Adding, zero_peer, add_tx}

abbrev pub tree_at : Service → ℕ → Option IpTree
tree_at [] i = none
tree_at (t ∷ ts) zero = some t
tree_at (t ∷ ts) (suc i) = tree_at ts i

module _ (o : Outside) where
  module _ (req : AddPeerRequest) (keys : Keys) where
    -- The addresses of the answer; `none` is the panic of a call of a method of a nil tree.
    abbrev pub address_text : ParsedSubnet → Option IpTree → Option (List Text) → Option (List Text)
    address_text p none rest = none
    address_text p (some t) none = none
    address_text p (some t) (some texts) =
        some ((o.addr_string p.prefix.addr ++ (47 ∷ itoa t.net.bits)) ∷ texts)

    abbrev pub tree_of : Service → Option ℕ → Option IpTree
    tree_of s none = none
    tree_of s (some i) = tree_at s i

    unfoldable pub address_texts : Service → List ParsedSubnet → Option (List Text)
    address_texts s [] = some []
    address_texts s (p ∷ ps) = address_text p (tree_of s p.tree) (address_texts s ps)

    abbrev pub new_peer_reply : Adding → Option (List Text) → Reply
    new_peer_reply st none = panicked
    new_peer_reply st (some addresses) = respond_json 201 (
        new_peer (peer_from_db st.db_peer) (record {
          private_key = key_text o keys.private_key;
          addresses = addresses;
          preshared_key = key_text o keys.preshared_key;
          endpoint_port = st.endpoint_port;
        }))

    abbrev pub add_error : TxErr ApiErr → Reply
    add_error e =
        if is_constraint_err e
        then respond_error 409
        else if errors_is (is_net is_no_free_addr) e
        then respond_error 500
        else if errors_is (is_net is_overlaps) e
        then respond_error 409
        else if errors_is (is_net is_out_of_net) e
        then respond_error 409
        else internal_server_error

    -- The answer to how the transaction ended.
    abbrev pub add_reply : Adding × Exit (TxErr ApiErr) → Node × Reply
    add_reply (st, done) =
        (st.node, new_peer_reply st (address_texts st.node.subnets st.parsed_subnets))
    add_reply (st, fails e) = (st.node, add_error e)
    add_reply (st, panics) = (st.node, panicked)

    abbrev pub start_adding : Node → List ParsedSubnet → Adding
    start_adding n ps = record {
      node = n;
      db_tx = none;
      db_peer = zero_peer;
      parsed_subnets = ps;
      endpoint_port = 0;
    }

    unfoldable pub add_with_keys : Node → List ParsedSubnet → Node × Reply
    add_with_keys n ps = add_reply (do_tx (add_tx o req keys) (start_adding n ps))

  abbrev pub add_keyed : Node → AddPeerRequest → List ParsedSubnet → ℕ ⊎ Keys → Node × Reply
  add_keyed n req ps (inl code) = (n, respond_error code)
  add_keyed n req ps (inr keys) = add_with_keys req keys n ps

  abbrev pub add_parsed : Node → AddPeerRequest → Option (List ParsedSubnet) → Node × Reply
  add_parsed n req none = (n, respond_error 400)
  add_parsed n req (some ps) = add_keyed n req ps (make_keys o req)

  abbrev pub add_requested : Node → Option AddPeerRequest → Node × Reply
  add_requested n none = (n, respond_error 400)
  add_requested n (some req) = add_parsed n req (parse_subnets o req.allowed_addresses)

  -- `apiAddPeer`; the request is what the JSON decoder gives, `none` its error.
  unfoldable pub api_add_peer : Node → Option AddPeerRequest → Node × Reply
  api_add_peer n req = add_requested n req
