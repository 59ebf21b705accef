-- ===== src/Api/Changes/Laws.antt =====
-- How `apiDeletePeer` answers, and what it leaves.
use mathlib.Core.Path.{subst}
use tanlnode.Base.{ℕ, ◌≡◌, refl, sym, Bool, true, false, Option, none, some, ◌∷◌, if◌then◌else◌}
use tanlnode.Sqlgen.{Text}
use tanlnode.Sqlgen.Tables.{Db, Peer}
use tanlnode.Sqlgen.Peers.{get_peer_by_public_key, remove_peer}
use tanlnode.Sqlgen.Laws.{RemoveEnd, missing, refused, taken, remove_peer-ends}
use tanlnode.Tx.{Exit, fails, do_tx, action_ended}
use tanlnode.Api.{
  Node, lock, removed, ApiErr, OutsideErr, outside, no_rows, removing_peer, removing_from_wg,
  is_no_rows, message, empty, Reply, respond_json, respond_error, internal_server_error,
}
use tanlnode.Api.Outside.{Outside}
use tanlnode.Api.Changes.{
  unlocked_after, change, wg_removed, row_removed, delete_action, delete_reply, delete_key,
  api_delete_peer,
}

-- The answer to an error of the action.
abbrev pub failure_of : OutsideErr → Reply
failure_of e = if is_no_rows e then respond_json 404 message else internal_server_error

module _ (o : Outside) (n : Node) (pubkey : Text) where
  -- How the handler ended.
  pub data DeleteAnswers : Node × Reply → Type 0 where
    bad_key : o.parse_key pubkey ≡ none → DeleteAnswers (n, respond_error 400)
    not_found :
        (key : Text)
        → o.parse_key pubkey ≡ some key
        → get_peer_by_public_key n.db (o.key_string key) ≡ none
        → DeleteAnswers (n, respond_json 404 message)
    failed : (e : OutsideErr) → o.faults removing_peer ≡ some e → DeleteAnswers (n, failure_of e)
    has_rows :
        (key : Text)
        → o.parse_key pubkey ≡ some key
        → (p : Peer) → get_peer_by_public_key n.db (o.key_string key) ≡ some p
        → n.db.foreign_keys ≡ true
        → DeleteAnswers (n, internal_server_error)
    half_done :
        (key : Text)
        → o.parse_key pubkey ≡ some key
        → (p : Peer) → get_peer_by_public_key n.db (o.key_string key) ≡ some p
        → (db : Db) → get_peer_by_public_key db (o.key_string key) ≡ none
        → (e : OutsideErr) → o.faults removing_from_wg ≡ some e
        → DeleteAnswers (record n { db = db }, failure_of e)
    deleted :
        (key : Text)
        → o.parse_key pubkey ≡ some key
        → (p : Peer) → get_peer_by_public_key n.db (o.key_string key) ≡ some p
        → (db : Db) → get_peer_by_public_key db (o.key_string key) ≡ none
        → o.faults removing_from_wg ≡ none
        → DeleteAnswers
            (record n { db = db; wg_calls = removed key ∷ n.wg_calls }, respond_json 204 empty)

  module _ (free : n.locked ≡ false) where
    at_unlocked : (f : Bool → Node × Reply) → DeleteAnswers (f n.locked) → DeleteAnswers (f false)
    at_unlocked f a = subst (λ (b : Bool). DeleteAnswers (f b)) free a

    module _ (key : Text) (k : o.parse_key pubkey ≡ some key) where
      abbrev ended : Node × Exit ApiErr → Node × Reply
      ended r = delete_reply o (action_ended (change (delete_action o key)) (unlocked_after r))

      after_row :
          (p : Peer)
          → get_peer_by_public_key n.db (o.key_string key) ≡ some p
          → (db : Db) → get_peer_by_public_key db (o.key_string key) ≡ none
          → (f : Option OutsideErr) → o.faults removing_from_wg ≡ f
          → DeleteAnswers (ended (wg_removed o (record n { locked = true; db = db }) key f))
      after_row p e db g none h =
          at_unlocked
            (λ b. (
              record n { locked = b; db = db; wg_calls = removed key ∷ n.wg_calls },
              respond_json 204 empty,
            ))
            (deleted key k p e db g h)
      after_row p e db g (some x) h =
          at_unlocked (λ b. (record n { locked = b; db = db }, failure_of x))
            (half_done key k p e db g x h)

      after_remove :
          (r : Option (Db × ℕ))
          → RemoveEnd n.db (o.key_string key) r
          → (f : Option OutsideErr) → o.faults removing_peer ≡ f
          → DeleteAnswers (ended (row_removed o (lock n) key r f))
      after_remove r d (some x) h =
          at_unlocked (λ b. (record n { locked = b }, failure_of x)) (failed x h)
      after_remove _ (missing e) none h =
          at_unlocked (λ b. (record n { locked = b }, respond_json 404 message)) (not_found key k e)
      after_remove _ (refused p e fk) none h =
          at_unlocked (λ b. (record n { locked = b }, internal_server_error))
            (has_rows key k p e fk)
      after_remove _ (taken p e db g rows z) none h =
          subst
            (λ (b : Bool). DeleteAnswers (
              ended (
                if b
                then (record n { locked = true; db = db }, fails (outside no_rows))
                else wg_removed o (record n { locked = true; db = db }) key
                    (o.faults removing_from_wg))))
            (sym z) (after_row p e db g (o.faults removing_from_wg) refl)

    with_key : (k : Option Text) → o.parse_key pubkey ≡ k → DeleteAnswers (delete_key o n k)
    unfolding do_tx
    with_key none e = bad_key e
    with_key (some key) e =
        after_remove key e (remove_peer n.db (o.key_string key))
          (remove_peer-ends n.db (o.key_string key)) (o.faults removing_peer) refl

    -- Where nobody holds the lock, `apiDeletePeer` answers 400 for a text that is no key, 404 for a key
    -- that no peer has, and with an error where the query fails or a foreign key refuses: in these the
    -- node is left as it was. Otherwise the key is found no more in the database; then it answers 204
    -- after WireGuard was told, or with an error where telling it failed, and the database is not
    -- rolled back. The lock is free again, and the trees and the cache are as before in all cases.
    pub api_delete_peer-answers : DeleteAnswers (api_delete_peer o n pubkey)
    unfolding api_delete_peer
    api_delete_peer-answers = with_key (o.parse_key pubkey) refl
