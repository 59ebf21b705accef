-- ===== src/Api/Adds/Laws/Requests.antt =====
-- `apiAddPeer` from the request to the answer.
use tanlnode.Base.{
  ℕ, ◌≡◌, ◌⊎◌, refl, ◌∙◌, Bool, true, false, Option, none, some, List, [], ◌∷◌, inl, inr, ◌==◌,
}
use tanlnode.Sqlgen.{Text}
use tanlnode.Netip.{Prefix, IsPrefix}
use tanlnode.IpTree.{overlaps, out_of_net, net_too_small, big_net6_not_supported, no_free_addr}
use tanlnode.Subnets.{Service}
use tanlnode.Subnets.Spec.{IsService, IsRandom}
use tanlnode.Api.{
  ApiErr, outside, net_error, no_rows, constraint, other_sqlite, other, Node, Reply, replied,
  panicked, respond_error, commit_tx,
}
use tanlnode.Api.Outside.{Outside}
use tanlnode.Api.Adds.{AddPeerRequest, ParsedSubnet, Keys, parse_subnets, make_keys}
use tanlnode.Api.Adds.Replies.{add_with_keys, add_keyed, add_parsed, api_add_peer}
use tanlnode.Api.Adds.Laws.Loops.{any_overlap}
use tanlnode.Api.Adds.Laws.Keys.{
  asks_overlap, SomeUnparsed, AreParsed, parse_subnets-AreParsed, parse_subnets-SomeUnparsed,
  parsed-NoTrees, parsed-ArePrefixes, parsed-any_overlap, PublicOf, PresharedOf, NoKeys, bad_public,
  no_private, bad_preshared, none_generated, KeysEnd, make_keys-KeysEnd,
}
use tanlnode.Api.Adds.Laws.Endings.{
  code_of, IsRefusal, conflict, failure, IsAnswer, created, nil_tree, AddAnswers, undone,
  undone_badly, no_ports, added,
}
use tanlnode.Api.Adds.Laws.Answers.{add_with_keys-answers}

-- A response with the code of success.
abbrev pub is_created : Reply → Bool
is_created (replied []) = false
is_created (replied ((code, body) ∷ rs)) = code == 201
is_created panicked = false

module _ (o : Outside)
    (parsed-IsPrefix : (text : Text) (p : Prefix) → o.parse_prefix text ≡ some p → IsPrefix p) where
  -- Why a request was answered before the transaction, with which code.
  pub data IsRejected : Option AddPeerRequest → ℕ → Type 0 where
    no_json : IsRejected none 400
    bad_subnet :
        (req : AddPeerRequest) → SomeUnparsed o req.allowed_addresses → IsRejected (some req) 400
    no_keys : (req : AddPeerRequest) (code : ℕ) → NoKeys o req code → IsRejected (some req) code

  module _ (n : Node) where
    -- How the handler ended: before the transaction, with the node as it was; or as the transaction
    -- with the subnets and the keys of the request.
    pub data PeerAnswers : Option AddPeerRequest → Node × Reply → Type 0 where
      rejected :
          (req : Option AddPeerRequest) (code : ℕ)
          → IsRejected req code
          → PeerAnswers req (n, respond_error code)
      ran :
          (req : AddPeerRequest) (keys : Keys)
          → PublicOf o req keys.private_key keys.public_key
          → PresharedOf o req keys.preshared_key
          → (ps : List ParsedSubnet) → AreParsed o req.allowed_addresses ps
          → (r : Node × Reply) → AddAnswers o n req keys ps r
          → PeerAnswers (some req) r

    module _ (free : n.locked ≡ false) (commits : o.faults commit_tx ≡ none)
        (v : IsService n.subnets) (rnd : IsRandom o.rand) where
      keyed :
          (req : AddPeerRequest) (ps : List ParsedSubnet)
          → AreParsed o req.allowed_addresses ps
          → (k : ℕ ⊎ Keys) → KeysEnd o req k
          → PeerAnswers (some req) (add_keyed o n req ps k)
      keyed req ps q (inl code) h = rejected (some req) code (no_keys req code h)
      keyed req ps q (inr keys) (h, h') = ran req keys h h' ps q (add_with_keys o req keys n ps) (
          add_with_keys-answers o n req keys ps free commits v rnd
            (parsed-NoTrees o req.allowed_addresses ps q)
            (parsed-ArePrefixes o parsed-IsPrefix req.allowed_addresses ps q))

      with_subnets :
          (req : AddPeerRequest) (r : Option (List ParsedSubnet))
          → parse_subnets o req.allowed_addresses ≡ r
          → PeerAnswers (some req) (add_parsed o n req r)
      with_subnets req none e =
          rejected (some req) 400
            (bad_subnet req (parse_subnets-SomeUnparsed o req.allowed_addresses e))
      with_subnets req (some ps) e =
          keyed req ps (parse_subnets-AreParsed o req.allowed_addresses ps e) (make_keys o req)
            (make_keys-KeysEnd o req)

      -- Where the parser gives valid prefixes, the random source numbers in range, the networks are
      -- valid, nobody holds the lock and a commit does not fail, `apiAddPeer` ends in one of these
      -- ways. Before the transaction it answers 400 for no JSON, a subnet or a key that does not
      -- parse, and 500 where a key cannot be generated, and leaves the node as it was. Otherwise the
      -- keys and the subnets are those of the request, or keys generated as it asks for. Then it
      -- answers an error only for one that a call outside returned, for a key that a peer has
      -- already (409), a subnet that overlaps or is out of the networks (409) or an exhausted
      -- network (500), with its code unless the rollback in the database fails too; and it panics if
      -- there are no ports: in all of these the database, every tree and the lock are exactly as they
      -- were, the cache has no entry for the key any more, and WireGuard may have been told of the
      -- peer. Or the key is new, and the row of the peer and one row for each of its subnets, those
      -- of the request or one free address of each network where it has none, are appended to the
      -- tables; the subnets that may not overlap were reserved, and deleting them would give back
      -- the trees from before; the cache has an entry for the key, and WireGuard was told of it. The
      -- answer is then 201 with this peer, its keys, its addresses and the drawn port, or a panic if
      -- the request allows an overlap.
      pub api_add_peer-answers :
          (req : Option AddPeerRequest) → PeerAnswers req (api_add_peer o n req)
      unfolding api_add_peer
      api_add_peer-answers none = rejected none 400 no_json
      api_add_peer-answers (some req) =
          with_subnets req (parse_subnets o req.allowed_addresses) refl

      refused_code : (reply : Reply) → IsRefusal reply → is_created reply ≡ false
      refused_code reply conflict = refl
      refused_code reply failure = refl

      error_not_created : (e : ApiErr) → is_created (respond_error (code_of e)) ≡ false
      error_not_created (net_error out_of_net) = refl
      error_not_created (net_error overlaps) = refl
      error_not_created (net_error net_too_small) = refl
      error_not_created (net_error big_net6_not_supported) = refl
      error_not_created (net_error no_free_addr) = refl
      error_not_created (outside no_rows) = refl
      error_not_created (outside constraint) = refl
      error_not_created (outside other_sqlite) = refl
      error_not_created (outside other) = refl

      answer_not_created :
          (req : AddPeerRequest) (keys : Keys) (ps0 : List ParsedSubnet)
          → any_overlap ps0 ≡ true
          → (s : Service) (ps : List ParsedSubnet) → (reply : Reply)
          → IsAnswer o n req keys ps0 s ps reply
          → is_created reply ≡ false
      answer_not_created req keys ps0 h s ps reply (created f texts are) = cc
      answer_not_created req keys ps0 h s ps reply (nil_tree f) = refl

      overlap_reply :
          (req : AddPeerRequest) (keys : Keys) (ps : List ParsedSubnet)
          → any_overlap ps ≡ true
          → (r : Node × Reply) → AddAnswers o n req keys ps r
          → is_created r.1 ≡ false
      overlap_reply req keys ps h r (undone w left e why) = error_not_created e
      overlap_reply req keys ps h r (undone_badly w left e why x f reply i) = refused_code reply i
      overlap_reply req keys ps h r (no_ports ps' e) = refl
      overlap_reply req keys ps h r (added k s ps' how back reply a) =
          answer_not_created req keys ps h s ps' reply a

      rejected_not_created :
          (req : Option AddPeerRequest) (code : ℕ)
          → IsRejected req code
          → is_created (respond_error code) ≡ false
      rejected_not_created req code no_json = refl
      rejected_not_created req code (bad_subnet _ u) = refl
      rejected_not_created req code (no_keys _ _ (bad_public b e)) = refl
      rejected_not_created req code (no_keys _ _ (no_private b e)) = refl
      rejected_not_created req code (no_keys _ _ (bad_preshared b e)) = refl
      rejected_not_created req code (no_keys _ _ (none_generated b c e)) = refl

      not_created :
          (req : AddPeerRequest)
          → asks_overlap req.allowed_addresses ≡ true
          → (r : Node × Reply) → PeerAnswers (some req) r
          → is_created r.1 ≡ false
      not_created req h r (rejected _ code i) = rejected_not_created (some req) code i
      not_created req h r (ran _ keys p p' ps q r' a) =
          overlap_reply req keys ps (parsed-any_overlap o req.allowed_addresses ps q ∙ h) r' a

      -- Under the same conditions, a request that allows an address which may overlap others is never
      -- answered with 201, whether the peer is added or not: the answer reads a nil tree.
      pub add_peer_may_overlap :
          (req : AddPeerRequest)
          → asks_overlap req.allowed_addresses ≡ true
          → is_created (api_add_peer o n (some req)).1 ≡ false
      add_peer_may_overlap req h =
          not_created req h (api_add_peer o n (some req)) (api_add_peer-answers (some req))
