-- ===== src/Api/Adds/Laws/Answers.antt =====
-- How `apiAddPeer` answers, and what it leaves.
use mathlib.Core.Path.{subst}
use tanlnode.Base.{
  ℕ, ◌≡◌, refl, sym, Bool, true, false, Option, none, some, List, ◌∷◌, inl, inr, arith,
  Option-cases, ◌==◌, if◌then◌else◌,
}
use tanlnode.Sqlgen.Tables.{Db, Peer}
use tanlnode.Sqlgen.Peers.{get_peer_by_public_key, add_peer}
use tanlnode.StatsCache.{put_new, remove}
use tanlnode.IpTree.{no_free_addr}
use tanlnode.Subnets.{Service}
use tanlnode.Subnets.Spec.{IsService, IsRandom}
use tanlnode.Texts.{length}
use tanlnode.Tx.{
  Exit, done, fails, panics, error, rollback_error, commit_ended, do_tx, action_ended,
}
use tanlnode.Api.{
  ApiErr, OutsideErr, outside, net_error, constraint, Node, WgCall, put, Reply, panicked,
  respond_error, commit_tx, begin_tx, rollback_tx, adding_peer, adding_subnet, putting_in_wg,
  drawing_port,
}
use tanlnode.Api.Outside.{Outside}
use tanlnode.Api.Adds.{AddPeerRequest, ParsedSubnet, Keys}
use tanlnode.Api.Adds.Subnets.{delete_trees}
use tanlnode.Api.Adds.Run.{
  add_rollback, deferred_unlock, commit_body, Adding, zero_peer, then_do, begun, peer_params,
  peer_added, insert_in_db, assign, put_rows, rows_put, put_addresses, wg_ended, put_in_wg,
  port_ended, port_at, pick_port, put_in_cache, add_tx,
}
use tanlnode.Api.Adds.Replies.{
  add_error, add_reply, address_texts, new_peer_reply, start_adding, add_with_keys,
}
use tanlnode.Api.Adds.Laws.Loops.{any_overlap, delete_trees-NoTrees, NoTrees, ArePrefixes}
use tanlnode.Api.Adds.Laws.Rows.{
  peer_row, with_peer, with_rows_of, AddPeerEnd, known, new, add_peer-ends, PutRowsEnd, all_put,
  put_failed, put_rows-ends,
}
use tanlnode.Api.Adds.Laws.Replying.{error_code, refusal, answer}
use tanlnode.Api.Adds.Laws.Assigning.{
  NoTexts, HowAssigned, by_request, by_random, by_refusal, by_exhausted, AssignEnd, assigned,
  assign-end,
}
use tanlnode.Api.Adds.Laws.Endings.{
  code_of, told_config, IsAnswer, Reason, by_fault, known_key, blocked_by, exhausted, WgLeft,
  untouched, left_behind, AddAnswers, undone, undone_badly, no_ports, added,
}

module _ (o : Outside) (n : Node) (req : AddPeerRequest) (keys : Keys)
    (ps0 : List ParsedSubnet) where
  module _ (free : n.locked ≡ false) (commits : o.faults commit_tx ≡ none) where
    at_unlocked :
        (f : Bool → Node × Reply)
        → AddAnswers o n req keys ps0 (f n.locked)
        → AddAnswers o n req keys ps0 (f false)
    at_unlocked f a = subst (λ (b : Bool). AddAnswers o n req keys ps0 (f b)) free a

    ended : Adding × Exit ApiErr → Node × Reply
    ended r = add_reply o req keys (action_ended (add_tx o req keys) r)

    -- The state in the transaction.
    abbrev at : Db → Service → List WgCall → Peer → List ParsedSubnet → ℕ → Adding
    at db s w p ps port = record {
      node = record n { locked = true; db = db; subnets = s; wg_calls = w };
      db_tx = some n.db;
      db_peer = p;
      parsed_subnets = ps;
      endpoint_port = port;
    }

    module _ (db : Db) (s : Service) (w : List WgCall) (left : WgLeft o n req keys ps0 w) (p : Peer)
        (ps : List ParsedSubnet) (port : ℕ) (back : delete_trees s ps ≡ n.subnets) where
      rolled : Reply → Node × Reply
      rolled reply = (
        record n {
          locked = false;
          subnets = delete_trees s ps;
          cache = remove n.cache keys.public_key;
          wg_calls = w;
        },
        reply,
      )

      rolled_back_to :
          (reply : Reply)
          → AddAnswers o n req keys ps0
              (record n { cache = remove n.cache keys.public_key; wg_calls = w }, reply)
          → AddAnswers o n req keys ps0 (rolled reply)
      unfolding rolled
      rolled_back_to reply a = rw back (
          at_unlocked
            (λ b. (
              record n { locked = b; cache = remove n.cache keys.public_key; wg_calls = w },
              reply,
            ))
            a)

      refuse_plainly :
          (e : ApiErr)
          → Reason o n req keys ps0 e
          → AddAnswers o n req keys ps0 (rolled (add_error o req keys (error e)))
      refuse_plainly e why =
          subst (λ (reply : Reply). AddAnswers o n req keys ps0 (rolled reply))
            (sym (error_code o n req keys ps0 e))
            (rolled_back_to (respond_error (code_of e)) (undone w left e why))

      refuse :
          (e : ApiErr)
          → Reason o n req keys ps0 e
          → AddAnswers o n req keys ps0 (ended (at db s w p ps port, fails e))
      unfolding ended rolled
      refuse e why = elim (Option-cases (o.faults rollback_tx)) [
        | inl f ↦ rw f (refuse_plainly e why)
        | inr (x, f) ↦
            let reply = add_error o req keys (rollback_error (outside x) e) in
            rw f (
              rolled_back_to reply (
                undone_badly w left e why x f reply
                  (refusal o n req keys ps0 (rollback_error (outside x) e))))
      ]

    -- The rest of the action after the trees.
    abbrev rest_of : Adding × Exit ApiErr → Adding × Exit ApiErr
    rest_of r = then_do r (λ st4. then_do (put_addresses o req keys st4) (λ st5.
        then_do (put_in_wg o req keys st5)
          (λ st6. then_do (pick_port o req keys st6) (put_in_cache o req keys))))

    module _ (key_new : get_peer_by_public_key n.db (o.key_string keys.public_key) ≡ none) where
      -- The row of the peer, and the database with it.
      abbrev p : Peer
      p = peer_row o req keys n.db.next_peer_id

      abbrev db1 : Db
      db1 = with_peer o req keys n.db

      module _ (s : Service) (ps : List ParsedSubnet) (back : delete_trees s ps ≡ n.subnets)
          (how : HowAssigned o req keys n.subnets ps0 s ps done)
          (answer : (port : ℕ)
            → port ≡ port_at o.ports (o.draw_port (length o.ports))
            → IsAnswer o n req keys ps0 s ps (
                new_peer_reply o req keys
                  (put_in_cache o req keys (
                    at
                      (with_rows_of o req keys n.db ps)
                      s
                      (put (told_config o n req keys ps0 ps) ∷ n.wg_calls)
                      p
                      ps
                      port)).0
                  (address_texts o req keys s ps))) where
        abbrev db2 : Db
        db2 = with_rows_of o req keys n.db ps

        -- The commands that WireGuard has got.
        abbrev told : List WgCall
        told = put (told_config o n req keys ps0 ps) ∷ n.wg_calls

        -- The state after the action.
        abbrev all_done : ℕ → Adding
        all_done port = (put_in_cache o req keys (at db2 s told p ps port)).0

        commit_with :
            (port : ℕ)
            → port ≡ port_at o.ports (o.draw_port (length o.ports))
            → (f : Option OutsideErr) → f ≡ none
            → AddAnswers o n req keys ps0 (
                add_reply o req keys (
                  commit_ended
                    (some (add_rollback o req keys))
                    (deferred_unlock (commit_body o req keys (all_done port) (some n.db) f))))
        commit_with port g (some x) e = cc
        commit_with port g none e =
            let reply = new_peer_reply o req keys (all_done port) (address_texts o req keys s ps) in
            at_unlocked
              (λ b. (
                record n {
                  locked = b;
                  db = db2;
                  subnets = s;
                  cache = put_new n.cache keys.public_key n.db.next_peer_id;
                  wg_calls = told;
                },
                reply,
              ))
              (added key_new s ps how back reply (answer port g))

        committed :
            (port : ℕ)
            → port ≡ port_at o.ports (o.draw_port (length o.ports))
            → AddAnswers o n req keys ps0
                (ended (put_in_cache o req keys (at db2 s told p ps port)))
        unfolding ended
        committed port g = commit_with port g (o.faults commit_tx) commits

        after_port :
            (f : Option OutsideErr)
            → o.faults drawing_port ≡ f
            → AddAnswers o n req keys ps0 (
                ended (
                  then_do
                    (port_ended o req keys (at db2 s told p ps 0) f)
                    (put_in_cache o req keys)))
        after_port none e = committed (port_at o.ports (o.draw_port (length o.ports))) refl
        after_port (some x) e =
            refuse db2 s told (left_behind ps) p ps 0 back (outside x) (by_fault drawing_port x e)

        with_ports :
            (b : Bool)
            → (length o.ports == 0) ≡ b
            → AddAnswers o n req keys ps0 (
                ended (
                  then_do
                    (if b
                      then (at db2 s told p ps 0, panics)
                      else port_ended o req keys (at db2 s told p ps 0) (o.faults drawing_port))
                    (put_in_cache o req keys)))
        unfolding ended rolled
        with_ports true e =
            rolled_back_to db2 s told (left_behind ps) p ps 0 back panicked
              (no_ports ps (ground (arith, e)))
        with_ports false e = after_port (o.faults drawing_port) refl

        after_wg :
            (f : Option OutsideErr)
            → o.faults putting_in_wg ≡ f
            → AddAnswers o n req keys ps0 (
                ended (
                  then_do
                    (wg_ended o req keys (at db2 s n.wg_calls p ps 0) f)
                    (λ st6. then_do (pick_port o req keys st6) (put_in_cache o req keys))))
        after_wg none e = with_ports (length o.ports == 0) refl
        after_wg (some x) e =
            refuse db2 s n.wg_calls untouched p ps 0 back (outside x) (by_fault putting_in_wg x e)

        after_rows :
            (r : Db × Exit ApiErr)
            → PutRowsEnd o req keys n.db.next_peer_id db1 ps r
            → AddAnswers o n req keys ps0 (
                ended (
                  then_do (rows_put o req keys (at db1 s n.wg_calls p ps 0) r) (λ st5.
                    then_do
                      (put_in_wg o req keys st5)
                      (λ st6. then_do (pick_port o req keys st6) (put_in_cache o req keys)))))
        after_rows r all_put = after_wg (o.faults putting_in_wg) refl
        after_rows r (put_failed db' i x e) =
            refuse db' s n.wg_calls untouched p ps 0 back (outside x)
              (by_fault (adding_subnet i) x e)

    module _ (v : IsService n.subnets) (rnd : IsRandom o.rand) (z : NoTrees ps0)
        (q : ArePrefixes ps0) where
      back0 : delete_trees n.subnets ps0 ≡ n.subnets
      back0 = delete_trees-NoTrees n.subnets ps0 z

      after_done :
          (k : get_peer_by_public_key n.db (o.key_string keys.public_key) ≡ none) (s : Service)
          (ps : List ParsedSubnet)
          → delete_trees s ps ≡ n.subnets
          → (any_overlap ps0 ≡ true → NoTexts o req keys ps)
          → HowAssigned o req keys n.subnets ps0 s ps done
          → AddAnswers o n req keys ps0 (ended (rest_of (at (db1 k) s n.wg_calls (p k) ps 0, done)))
      after_done k s ps back nil how =
          let db = with_rows_of o req keys n.db ps in
          let told = put (told_config o n req keys ps0 ps) ∷ n.wg_calls in
          after_rows k s ps back how
            (λ port g.
              answer o n req keys ps0 v q s ps how nil
                (put_in_cache o req keys (at db s told (p k) ps port)).0 refl g)
            (put_rows o req keys n.db.next_peer_id 0 (db1 k) ps)
            (put_rows-ends o req keys n.db.next_peer_id 0 (db1 k) ps)

      after_how :
          (k : get_peer_by_public_key n.db (o.key_string keys.public_key) ≡ none) (s : Service)
          (ps : List ParsedSubnet)
          → delete_trees s ps ≡ n.subnets
          → (any_overlap ps0 ≡ true → NoTexts o req keys ps)
          → (e : Exit ApiErr) → HowAssigned o req keys n.subnets ps0 s ps e
          → AddAnswers o n req keys ps0 (ended (rest_of (at (db1 k) s n.wg_calls (p k) ps 0, e)))
      after_how k s ps back nil e (by_refusal x b) =
          refuse (db1 k) s n.wg_calls untouched (p k) ps 0 back (net_error x) (blocked_by x b)
      after_how k s ps back nil e (by_exhausted m x) =
          refuse (db1 k) s n.wg_calls untouched (p k) ps 0 back (net_error no_free_addr)
            (exhausted m x)
      after_how k s ps back nil e (by_request m r) = after_done k s ps back nil (by_request m r)
      after_how k s ps back nil e (by_random m addrs t g r h) =
          after_done k s ps back nil (by_random m addrs t g r h)

      after_assign :
          (k : get_peer_by_public_key n.db (o.key_string keys.public_key) ≡ none)
          (r : Adding × Exit ApiErr)
          → AssignEnd o req keys (at (db1 k) n.subnets n.wg_calls (p k) ps0 0) n.subnets ps0 r
          → AddAnswers o n req keys ps0 (ended (rest_of r))
      after_assign k r (assigned s ps e back nil how) = after_how k s ps back nil e how

      after_insert :
          (r : Option (Db × Peer))
          → AddPeerEnd o req keys n.db r
          → (f : Option OutsideErr) → o.faults adding_peer ≡ f
          → AddAnswers o n req keys ps0 (
              ended (
                then_do
                  (peer_added o req keys (at n.db n.subnets n.wg_calls zero_peer ps0 0) r f)
                  (λ st3. rest_of (assign o req keys st3))))
      after_insert r a (some x) e =
          refuse n.db n.subnets n.wg_calls untouched zero_peer ps0 0 back0 (outside x)
            (by_fault adding_peer x e)
      after_insert r (known p e) none g =
          refuse n.db n.subnets n.wg_calls untouched zero_peer ps0 0 back0 (outside constraint)
            (known_key p e)
      after_insert r (new k) none g =
          after_assign k (assign o req keys (at (db1 k) n.subnets n.wg_calls (p k) ps0 0))
            (assign-end o req keys (at (db1 k) n.subnets n.wg_calls (p k) ps0 0) v rnd ps0 z q refl)

      after_begin :
          (f : Option OutsideErr)
          → o.faults begin_tx ≡ f
          → AddAnswers o n req keys ps0 (
              ended (
                then_do
                  (begun o req keys
                    (record (start_adding o req keys n ps0) { node = record n { locked = true } })
                    f)
                  (λ st2.
                    then_do
                      (insert_in_db o req keys st2)
                      (λ st3. rest_of (assign o req keys st3)))))
      unfolding ended rolled
      after_begin none e =
          after_insert (add_peer n.db (peer_params o req keys)) (add_peer-ends o req keys n.db)
            (o.faults adding_peer) refl
      after_begin (some x) e =
          refuse_plainly n.db n.subnets n.wg_calls untouched zero_peer ps0 0 back0 (outside x)
            (by_fault begin_tx x e)

      pub add_with_keys-answers : AddAnswers o n req keys ps0 (add_with_keys o req keys n ps0)
      unfolding add_with_keys do_tx ended
      add_with_keys-answers = after_begin (o.faults begin_tx) refl
