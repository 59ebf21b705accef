-- ===== src/Subnets.antt =====
-- subnets/subnets.go: the service that assigns subnets over all allocation networks.
pub mod Spec
pub mod Laws
mod Tests
use tanlnode.Base.{
  ℕ, zero, suc, Bool, true, false, not, Option, none, some, List, [], ◌∷◌, if◌then◌else◌,
}
use tanlnode.Netip.{Family, v4, v6, Addr, Prefix, same_family}
use tanlnode.Utils.{make_prefix_from_addr}
use tanlnode.IpTree
use tanlnode.IpTree.{
  IpTree, NetErr, out_of_net, overlaps, net_too_small, big_net6_not_supported, no_free_addr, Result,
  ok, err, panic, new_addr_tree4, new_addr_tree6, allocate_random,
}
use tanlnode.Sqlgen.{Text, Subnet}

-- `Service`: the trees that `netTrees` points to. A tree that a method returns is its index.
abbrev pub Service : Type 0
Service = List IpTree

-- `errors.Is(err, nettree.ErrOutOfNet)`
abbrev pub is_out_of_net : NetErr → Bool
is_out_of_net out_of_net = true
is_out_of_net overlaps = false
is_out_of_net net_too_small = false
is_out_of_net big_net6_not_supported = false
is_out_of_net no_free_addr = false

-- The rest of the loop after a tree that was passed over.
abbrev pub passed : IpTree → Service × Result ℕ → Service × Result ℕ
passed t (ts, ok i) = (t ∷ ts, ok (suc i))
passed t (ts, err e) = (t ∷ ts, err e)
passed t (ts, panic) = (t ∷ ts, panic)

-- After `tree.Put(pref)`.
abbrev pub tried : Service → Service × Result ℕ → IpTree × Result (Unit {0}) → Service × Result ℕ
tried ts rest (t, ok _) = (t ∷ ts, ok 0)
tried ts rest (t, err e) = if not (is_out_of_net e) then (t ∷ ts, err e) else passed t rest
tried ts rest (t, panic) = (t ∷ ts, panic)

unfoldable pub reserve : Service → Prefix → Service × Result ℕ
reserve [] pref = ([], err out_of_net)
reserve (t ∷ ts) pref =
    let rest = reserve ts pref in
    if not (same_family t.version pref.addr.family)
    then passed t rest
    else tried ts rest (IpTree.put t pref)

abbrev pub deleted : Service → Service × Bool → IpTree × Bool → Service × Bool
deleted ts rest (t, true) = (t ∷ ts, true)
deleted ts (ts', b) (t, false) = (t ∷ ts', b)

unfoldable pub delete : Service → Prefix → Service × Bool
delete [] pref = ([], false)
delete (t ∷ ts) pref = deleted ts (delete ts pref) (IpTree.delete t pref)

-- `tree.Delete(prefix)` on the tree at an index.
unfoldable pub delete_at : Service → ℕ → Prefix → Service
delete_at [] i pref = []
delete_at (t ∷ ts) zero pref = (IpTree.delete t pref).0 ∷ ts
delete_at (t ∷ ts) (suc i) pref = t ∷ delete_at ts i pref

-- The same through a variable that may be nil.
abbrev pub delete_if : Service → Option ℕ → Prefix → Service
delete_if s none pref = s
delete_if s (some i) pref = delete_at s i pref

-- What the loop of `AssignRandomInEachNet` leaves: the trees, `addrs`, and `err`.
abbrev pub Assigned : Type 0
Assigned = Service × List Addr × Result (Unit {0})

abbrev pub assigned_one : Service → Assigned → IpTree × Result Addr → Assigned
assigned_one ts (ts', addrs, r) (t, ok a) = (t ∷ ts', a ∷ addrs, r)
assigned_one ts rest (t, err e) = (t ∷ ts, [], err e)
assigned_one ts rest (t, panic) = (t ∷ ts, [], panic)

-- The loop, from the i-th tree on; `rand i` is what the random source gives to the i-th call.
unfoldable pub assign_loop : (ℕ → ℕ → ℕ) → ℕ → Service → Assigned
assign_loop rand i [] = ([], [], ok tt)
assign_loop rand i (t ∷ ts) =
    assigned_one ts (assign_loop rand (suc i) ts) (allocate_random (rand i) t)

-- The loop after `error:`; there are at most as many addresses as trees.
unfoldable pub roll_back : Service → List Addr → Service
roll_back ts [] = ts
roll_back [] (a ∷ addrs) = []
roll_back (t ∷ ts) (a ∷ addrs) = (IpTree.delete t (make_prefix_from_addr a)).0 ∷ roll_back ts addrs

abbrev pub assigned_all : Assigned → Service × Result (List Addr)
assigned_all (ts, addrs, ok _) = (ts, ok addrs)
assigned_all (ts, addrs, err e) = (roll_back ts addrs, err e)
assigned_all (ts, addrs, panic) = (ts, panic)

-- `AssignRandomInEachNet`; the trees that it returns are all of the service, in their order.
unfoldable pub assign_random_in_each_net : (ℕ → ℕ → ℕ) → Service → Service × Result (List Addr)
assign_random_in_each_net rand ts = assigned_all (assign_loop rand 0 ts)

-- Why `NewService` failed.
pub data ServiceErr : Type 0 where
  tree_error reserve_error : NetErr → ServiceErr
  db_error : ServiceErr
  invalid_prefix : Text → ServiceErr

pub data Made : Type 0 where
  made : Service → Made
  failed : ServiceErr → Made
  panicked : Made

abbrev pub new_tree : Family → Prefix → Result IpTree
new_tree v4 net = new_addr_tree4 net
new_tree v6 net = new_addr_tree6 net

abbrev pub add_tree : Result IpTree → Made → Made
add_tree (ok t) (made ts) = made (t ∷ ts)
add_tree (ok t) (failed e) = failed e
add_tree (ok t) panicked = panicked
add_tree (err e) rest = failed (tree_error e)
add_tree panic rest = panicked

-- The loop over `allocNets`.
unfoldable pub new_trees : List Prefix → Made
new_trees [] = made []
new_trees (net ∷ nets) = add_tree (new_tree net.addr.family net) (new_trees nets)

abbrev pub reserved : Service × Result ℕ → Made
reserved (s, ok _) = made s
reserved (s, err e) = failed (reserve_error e)
reserved (s, panic) = panicked

abbrev pub and_then : Made → (Service → Made) → Made
and_then (made s) f = f s
and_then (failed e) f = failed e
and_then panicked f = panicked

module _ (parse_prefix : Text → Option Prefix) where
  abbrev pub reserve_parsed : Service → Text → Option Prefix → Made
  reserve_parsed s text none = failed (invalid_prefix text)
  reserve_parsed s text (some pref) = reserved (reserve s pref)

  abbrev pub reserve_row : Service → Subnet → Made
  reserve_row s row =
      if row.may_overlap then made s else reserve_parsed s row.prefix (parse_prefix row.prefix)

  -- The loop over `subnets`.
  unfoldable pub reserve_rows : Service → List Subnet → Made
  reserve_rows s [] = made s
  reserve_rows s (row ∷ rows) = and_then (reserve_row s row) (λ s'. reserve_rows s' rows)

  abbrev pub reserve_all : Option (List Subnet) → Service → Made
  reserve_all none s = failed db_error
  reserve_all (some rows) s = reserve_rows s rows

  -- `NewService`; the option is what `GetAllSubnets` returns.
  unfoldable pub new_service : List Prefix → Option (List Subnet) → Made
  new_service nets rows = and_then (new_trees nets) (reserve_all rows)
