-- ===== src/Api/Adds/Laws/Duplicates.antt =====
-- `apiAddPeer` for a key that a peer has already.
use tanlnode.Base.{
  ◌≡◌, refl, sym, ap, ◌∙◌, Bool, true, false, Option, none, some, List, [], ◌∷◌, arith,
}
use tanlnode.Sqlgen.{Text, same_text}
use tanlnode.Sqlgen.Tables.{Db, Peer}
use tanlnode.Sqlgen.Peers.{get_peer_by_public_key, add_peer, insert_peer}
use tanlnode.StatsCache.{remove}
use tanlnode.Subnets.{Service}
use tanlnode.Tx.{do_tx, action_ended, rollback_ended}
use tanlnode.Api.{
  OutsideErr, outside, constraint, Node, Reply, respond_error, begin_tx, adding_peer, rollback_tx,
}
use tanlnode.Api.Outside.{Outside}
use tanlnode.Api.Adds.{AddPeerRequest, ParsedSubnet, Keys}
use tanlnode.Api.Adds.Subnets.{delete_trees}
use tanlnode.Api.Adds.Run.{
  Adding, then_do, begun, peer_params, peer_added, insert_in_db, deferred_unlock, exit_of, add_tx,
  assign, put_addresses, put_in_wg, pick_port, put_in_cache,
}
use tanlnode.Api.Adds.Replies.{add_reply, start_adding, add_with_keys}
use tanlnode.Api.Adds.Laws.Loops.{NoTrees, delete_trees-NoTrees}

same_text_self : (text : Text) → same_text text text ≡ true
same_text_self [] = refl
same_text_self (c ∷ text) = rw (same_text_self text) (ground arith)

module _ (o : Outside) (n : Node) (req : AddPeerRequest) (keys : Keys)
    (ps : List ParsedSubnet) where
  -- The node with the lock free or not.
  abbrev refused_node : Bool → Service → Node
  refused_node b s = record n { locked = b; subnets = s; cache = remove n.cache keys.public_key }

  abbrev begun_state : Adding
  begun_state = record (start_adding o req keys n ps) {
    node = record n { locked = true };
    db_tx = some n.db;
  }

  rolled_back :
      (f : Option OutsideErr)
      → f ≡ none
      → add_reply o req keys (
          rollback_ended (outside constraint) (
            deferred_unlock (
              record begun_state { node = refused_node true (delete_trees n.subnets ps) },
              exit_of f,
            )))
        ≡ (refused_node false (delete_trees n.subnets ps), respond_error 409)
  rolled_back none e = refl
  rolled_back (some x) e = cc

  after_insert :
      o.faults rollback_tx ≡ none
      → (r : Option (Db × Peer)) → r ≡ none
      → (f : Option OutsideErr) → f ≡ none
      → add_reply o req keys (
          action_ended (add_tx o req keys) (
            then_do (peer_added o req keys begun_state r f) (λ st3.
              then_do (assign o req keys st3) (λ st4. then_do (put_addresses o req keys st4) (λ st5.
                then_do
                  (put_in_wg o req keys st5)
                  (λ st6. then_do (pick_port o req keys st6) (put_in_cache o req keys)))))))
        ≡ (refused_node false (delete_trees n.subnets ps), respond_error 409)
  after_insert h r e (some x) g = cc
  after_insert h (some x) e none g = cc
  after_insert h none e none g = rolled_back (o.faults rollback_tx) h

  after_begin :
      o.faults rollback_tx ≡ none
      → o.faults adding_peer ≡ none
      → add_peer n.db (peer_params o req keys) ≡ none
      → (f : Option OutsideErr) → f ≡ none
      → add_reply o req keys (
          action_ended (add_tx o req keys) (
            then_do
              (begun o req keys
                (record (start_adding o req keys n ps) { node = record n { locked = true } })
                f)
              (λ st2. then_do (insert_in_db o req keys st2) (λ st3.
                then_do (assign o req keys st3) (λ st4.
                  then_do (put_addresses o req keys st4) (λ st5.
                    then_do
                      (put_in_wg o req keys st5)
                      (λ st6. then_do (pick_port o req keys st6) (put_in_cache o req keys))))))))
        ≡ (refused_node false (delete_trees n.subnets ps), respond_error 409)
  after_begin h a d (some x) e = cc
  after_begin h a d none e =
      after_insert h (add_peer n.db (peer_params o req keys)) d (o.faults adding_peer) a

  -- Where no query fails and nobody holds the lock, adding a peer whose key the table has already is
  -- answered with 409, and all of the node is as before but for the cache: the entry of the peer that
  -- was there is gone.
  pub add_duplicate :
      NoTrees ps
      → n.locked ≡ false
      → o.faults begin_tx ≡ none
      → o.faults adding_peer ≡ none
      → o.faults rollback_tx ≡ none
      → (p : Peer) → get_peer_by_public_key n.db (o.key_string keys.public_key) ≡ some p
      → (add_with_keys o req keys n ps
          ≡ (record n { cache = remove n.cache keys.public_key }, respond_error 409))
        × ((add_with_keys o req keys n ps).0.cache keys.public_key ≡ none)
  unfolding add_with_keys do_tx add_peer remove
  add_duplicate z free b a r p e =
      let taken : add_peer n.db (peer_params o req keys) ≡ none =
        ap (insert_peer n.db (peer_params o req keys)) e in
      let ends = after_begin r a taken (o.faults begin_tx) b in
      let whole =
        ends
        ∙ ap (λ (s : Service). (refused_node false s, respond_error 409))
            (delete_trees-NoTrees n.subnets ps z)
        ∙ ap (λ (c : Bool). (refused_node c n.subnets, respond_error 409)) (sym free) in
      (
        whole,
        ap (λ (x : Node × Reply). x.0.cache keys.public_key) whole
            ∙ rw (same_text_self keys.public_key) refl,
      )
