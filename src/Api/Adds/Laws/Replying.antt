-- ===== src/Api/Adds/Laws/Replying.antt =====
-- The answer of `apiAddPeer` to an error, and where the peer was added.
use mathlib.Core.Path.{subst}
use tanlnode.Base.{
  ℕ, ◌≡◌, refl, sym, ap, ◌∙◌, Bool, true, false, Option, none, some, List, inl, inr, Bool-cases,
  if◌then◌else◌,
}
use tanlnode.Sqlgen.{Text}
use tanlnode.Sqlgen.Tables.{Peer}
use tanlnode.IpTree.{overlaps, out_of_net, net_too_small, big_net6_not_supported, no_free_addr}
use tanlnode.Subnets.{Service, is_out_of_net}
use tanlnode.Subnets.Spec.{IsService}
use tanlnode.Texts.{length}
use tanlnode.Tx.{Exit, done, TxErr, error}
use tanlnode.Api.{
  ApiErr, outside, net_error, no_rows, constraint, other_sqlite, other, Node, new_peer, Reply,
  respond_json, respond_error, is_constraint_err, errors_is, is_net, is_no_free_addr, is_overlaps,
}
use tanlnode.Api.Outside.{Outside}
use tanlnode.Api.Peers.{peer_from_db}
use tanlnode.Api.Adds.{AddPeerRequest, ParsedSubnet, Keys, key_text}
use tanlnode.Api.Adds.Run.{Adding, port_at}
use tanlnode.Api.Adds.Replies.{add_error, address_texts, new_peer_reply}
use tanlnode.Api.Adds.Laws.Loops.{any_overlap, ArePrefixes}
use tanlnode.Api.Adds.Laws.Obtained.{HaveTrees}
use tanlnode.Api.Adds.Laws.Rows.{text_of, peer_row}
use tanlnode.Api.Adds.Laws.Texts.{Reserved-HaveTrees, address_texts-AreTexts}
use tanlnode.Api.Adds.Laws.Assigning.{
  NoTexts, HowAssigned, by_request, by_random, by_refusal, by_exhausted,
}
use tanlnode.Api.Adds.Laws.Endings.{
  code_of, IsRefusal, conflict, failure, IsAnswer, created, nil_tree,
}

pick-IsRefusal :
    (b : Bool) (r r' : Reply) → IsRefusal r → IsRefusal r' → IsRefusal (if b then r else r')
pick-IsRefusal true r r' h h' = h
pick-IsRefusal false r r' h h' = h'

module _ (o : Outside) (n : Node) (req : AddPeerRequest) (keys : Keys)
    (ps0 : List ParsedSubnet) where
  key_text-eq : (k : Option Text) → key_text o k ≡ text_of o.key_string k
  key_text-eq none = refl
  key_text-eq (some key) = refl

  pub error_code : (e : ApiErr) → add_error o req keys (error e) ≡ respond_error (code_of e)
  error_code (net_error out_of_net) = refl
  error_code (net_error overlaps) = refl
  error_code (net_error net_too_small) = refl
  error_code (net_error big_net6_not_supported) = refl
  error_code (net_error no_free_addr) = refl
  error_code (outside no_rows) = refl
  error_code (outside constraint) = refl
  error_code (outside other_sqlite) = refl
  error_code (outside other) = refl

  pub refusal : (e : TxErr ApiErr) → IsRefusal (add_error o req keys e)
  refusal e = pick-IsRefusal (is_constraint_err e) _ _ conflict (
      pick-IsRefusal (errors_is (is_net is_no_free_addr) e) _ _ failure (
        pick-IsRefusal (errors_is (is_net is_overlaps) e) _ _ conflict
          (pick-IsRefusal (errors_is (is_net is_out_of_net) e) _ _ conflict failure)))

  module _ (v : IsService n.subnets) (q : ArePrefixes ps0) where
    have_trees :
        (s : Service) (ps : List ParsedSubnet) (e : Exit ApiErr)
        → e ≡ done
        → HowAssigned o req keys n.subnets ps0 s ps e
        → any_overlap ps0 ≡ false
        → HaveTrees s ps
    have_trees s ps e d (by_request m r) f = Reserved-HaveTrees n.subnets s ps0 ps r v q f
    have_trees s ps e d (by_random m addrs t g r h) f = h
    have_trees s ps e d (by_refusal x b) f = cc
    have_trees s ps e d (by_exhausted m x) f = cc

    pub answer :
        (s : Service) (ps : List ParsedSubnet)
        → HowAssigned o req keys n.subnets ps0 s ps done
        → (any_overlap ps0 ≡ true → NoTexts o req keys ps)
        → (st : Adding) → st.db_peer ≡ peer_row o req keys n.db.next_peer_id
        → st.endpoint_port ≡ port_at o.ports (o.draw_port (length o.ports))
        → IsAnswer o n req keys ps0 s ps
            (new_peer_reply o req keys st (address_texts o req keys s ps))
    answer s ps how nil st e g = elim (Bool-cases (any_overlap ps0)) [
      | inl h ↦
          subst
            (λ (t : Option (List Text)).
              IsAnswer o n req keys ps0 s ps (new_peer_reply o req keys st t))
            (sym (nil h s)) (nil_tree h)
      | inr h ↦
          let (texts, t, are) =
            address_texts-AreTexts o req keys s ps (have_trees s ps done refl how h) in
          let reply : Peer → Text → Text → ℕ → Reply =
            λ (p : Peer) (private preshared : Text) (port : ℕ). respond_json 201 (
              new_peer (peer_from_db p) (record {
                private_key = private;
                addresses = texts;
                preshared_key = preshared;
                endpoint_port = port;
              })) in
          let same : new_peer_reply o req keys st (address_texts o req keys s ps)
              ≡ reply (peer_row o req keys n.db.next_peer_id)
                  (text_of o.key_string keys.private_key) (text_of o.key_string keys.preshared_key)
                  (port_at o.ports (o.draw_port (length o.ports))) =
            ap (new_peer_reply o req keys st) t
            ∙ ap
                (λ (p : Peer).
                  reply p (key_text o keys.private_key) (key_text o keys.preshared_key)
                    st.endpoint_port)
                e
            ∙ ap
                (λ (k : Text).
                  reply (peer_row o req keys n.db.next_peer_id) k (key_text o keys.preshared_key)
                    st.endpoint_port)
                (key_text-eq keys.private_key)
            ∙ ap
                (λ (k : Text).
                  reply (peer_row o req keys n.db.next_peer_id)
                    (text_of o.key_string keys.private_key) k st.endpoint_port)
                (key_text-eq keys.preshared_key)
            ∙ ap
                (reply (peer_row o req keys n.db.next_peer_id)
                  (text_of o.key_string keys.private_key) (text_of o.key_string keys.preshared_key))
                g in
          subst (IsAnswer o n req keys ps0 s ps) (sym same) (created h texts are)
    ]
