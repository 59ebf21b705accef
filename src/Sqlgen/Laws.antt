-- ===== src/Sqlgen/Laws.antt =====
-- The queries on peers: what `RemovePeer` leaves.
use mathlib.Core.Path.{subst}
use tanlnode.Base.{
  ℕ, suc, ◌≡◌, refl, ap, ◌∙◌, Bool, true, false, not, Option, none, some, List, [], ◌∷◌, inl, inr,
  Bool-cases, Option-cases, sym, ◌==◌, if◌then◌else◌, arith,
}
use tanlnode.Sqlgen.{Text, Subnet}
use tanlnode.Sqlgen.Tables.{Db, Peer, select_one, delete_where, count_where}
use tanlnode.Sqlgen.Peers.{get_peer_by_public_key, has_key, of_peer, has_stats, remove_peer}

module _ {A : Type 0} where
  not_picked :
      (b : Bool) (r : A) (rest : Option A)
      → (if b then some r else rest) ≡ none
      → (b ≡ false) × (rest ≡ none)
  not_picked true r rest e = cc
  not_picked false r rest e = (refl, e)

  counted :
      (b : Bool) (r row : A) (rest : Option A) (n : ℕ)
      → (if b then some r else rest) ≡ some row
      → (rest ≡ some row → (n == 0) ≡ false)
      → ((if b then suc n else n) == 0) ≡ false
  counted true r row rest n e f = ground arith
  counted false r row rest n e f = f e

  all_kept :
      (b : Bool) (r : A) (rows rest : List A) (n : ℕ)
      → b ≡ false
      → (rest ≡ rows) × (n ≡ 0)
      → ((if b then rest else r ∷ rest) ≡ r ∷ rows) × ((if b then suc n else n) ≡ 0)
  all_kept true r rows rest n h (e, z) = cc
  all_kept false r rows rest n h (e, z) = (ap (λ (l : List A). r ∷ l) e, z)

  module _ (test : A → Bool) where
    -- A row that a deletion has taken is not found.
    pub select_one-delete_where : (rows : List A) → select_one test (delete_where test rows) ≡ none
    unfolding select_one delete_where
    select_one-delete_where [] = refl
    select_one-delete_where (r ∷ rows) = elim (Bool-cases (test r)) [
      | inl h ↦ rw h (select_one-delete_where rows)
      | inr h ↦ rw (h, h) (select_one-delete_where rows)
    ]

    -- Where no row is found, a deletion takes none.
    pub delete_where-none :
        (rows : List A)
        → select_one test rows ≡ none
        → (delete_where test rows ≡ rows) × (count_where test rows ≡ 0)
    unfolding select_one delete_where count_where
    delete_where-none [] e = (refl, refl)
    delete_where-none (r ∷ rows) e =
        let (h, none_left) = not_picked (test r) r (select_one test rows) e in
        all_kept (test r) r rows (delete_where test rows) (count_where test rows) h
          (delete_where-none rows none_left)

    pub count_where-some :
        (rows : List A) (row : A)
        → select_one test rows ≡ some row
        → (count_where test rows == 0) ≡ false
    unfolding select_one count_where
    count_where-some [] row e = cc
    count_where-some (r ∷ rows) row e =
        counted (test r) r row (select_one test rows) (count_where test rows) e
          (count_where-some rows row)

    never_picked : ((r : A) → test r ≡ false) → (rows : List A) → select_one test rows ≡ none
    unfolding select_one
    never_picked h [] = refl
    never_picked h (r ∷ rows) = rw (h r) (never_picked h rows)

module _ (db : Db) (key : Text) where
  -- How `RemovePeer` can end: with no row where the key is not there; refused by a foreign key; or
  -- with rows taken, and the key found no more.
  pub data RemoveEnd : Option (Db × ℕ) → Type 0 where
    missing : get_peer_by_public_key db key ≡ none → RemoveEnd (some (db, 0))
    refused :
        (p : Peer)
        → get_peer_by_public_key db key ≡ some p
        → db.foreign_keys ≡ true
        → RemoveEnd none
    taken :
        (p : Peer)
        → get_peer_by_public_key db key ≡ some p
        → (db' : Db) → get_peer_by_public_key db' key ≡ none
        → (n : ℕ) → (n == 0) ≡ false
        → RemoveEnd (some (db', n))

  -- `RemovePeer` from the rows that are left, how many were taken, the statistics and the subnets.
  abbrev removed_rows : Bool → List Peer → ℕ → ℕ → List Subnet → Option (Db × ℕ)
  removed_rows fk peers n stats subnets =
      if not fk
      then some (record db { peers = peers }, n)
      else if not (stats == 0)
      then none
      else some (record db { peers = peers; subnets = subnets }, n)

  none_removed :
      (fk : Bool) (peers : List Peer) (n stats : ℕ) (subnets : List Subnet)
      → peers ≡ db.peers
      → n ≡ 0
      → stats ≡ 0
      → subnets ≡ db.subnets
      → removed_rows fk peers n stats subnets ≡ some (db, 0)
  none_removed false peers n stats subnets e z s u =
      ap (λ (ps : List Peer). some (record db { peers = ps }, n)) e ∙ ap (λ (m : ℕ). some (db, m)) z
  none_removed true peers n stats subnets e z s u = rw s (
      ap (λ (ps : List Peer). some (record db { peers = ps; subnets = subnets }, n)) e
      ∙ (ap (λ (rows : List Subnet). some (record db { subnets = rows }, n)) u
          ∙ ap (λ (m : ℕ). some (db, m)) z))

  some_removed :
      (p : Peer)
      → get_peer_by_public_key db key ≡ some p
      → (fk : Bool) → db.foreign_keys ≡ fk
      → (peers : List Peer) → select_one (has_key key) peers ≡ none
      → (n : ℕ) → (n == 0) ≡ false
      → (stats : ℕ) (subnets : List Subnet) → RemoveEnd (removed_rows fk peers n stats subnets)
  some_removed p e false f peers g n z stats subnets = taken p e (record db { peers = peers }) g n z
  some_removed p e true f peers g n z stats subnets = pick_end (stats == 0)
    where
      pick_end :
          (b : Bool)
          → RemoveEnd
              (if not b then none else some (record db { peers = peers; subnets = subnets }, n))
      pick_end true = taken p e (record db { peers = peers; subnets = subnets }) g n z
      pick_end false = refused p e f

  of_none :
      (p : Option Peer)
      → p ≡ none
      → (delete_where (of_peer p) db.subnets ≡ db.subnets)
        × (count_where (has_stats p) db.peer_stats ≡ 0)
  of_none none e = (
    (delete_where-none (of_peer none) db.subnets
        (never_picked (of_peer none) (λ row. refl) db.subnets)).0,
    (delete_where-none (has_stats none) db.peer_stats
        (never_picked (has_stats none) (λ row. refl) db.peer_stats)).1,
  )
  of_none (some p) e = cc

  pub remove_peer-ends : RemoveEnd (remove_peer db key)
  unfolding remove_peer
  remove_peer-ends = elim (Option-cases (get_peer_by_public_key db key)) [
    | inl e ↦
        let (peers, n) = delete_where-none (has_key key) db.peers e in
        let (rows, stats) = of_none (get_peer_by_public_key db key) e in
        subst RemoveEnd
          (sym (
            none_removed db.foreign_keys (delete_where (has_key key) db.peers)
              (count_where (has_key key) db.peers)
              (count_where (has_stats (get_peer_by_public_key db key)) db.peer_stats)
              (delete_where (of_peer (get_peer_by_public_key db key)) db.subnets) peers n stats
              rows))
          (missing e)
    | inr (p, e) ↦
        some_removed p e db.foreign_keys refl (delete_where (has_key key) db.peers)
          (select_one-delete_where (has_key key) db.peers) (count_where (has_key key) db.peers)
          (count_where-some (has_key key) db.peers p e)
          (count_where (has_stats (get_peer_by_public_key db key)) db.peer_stats)
          (delete_where (of_peer (get_peer_by_public_key db key)) db.subnets)
  ]
