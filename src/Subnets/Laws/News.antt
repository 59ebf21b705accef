-- ===== src/Subnets/Laws/News.antt =====
-- What `NewService` makes of the rows of the database, and as a whole.
use tanlnode.Base.{
  ℕ, ◌≡◌, refl, sym, ◌∙◌, Bool, true, false, ◌&&◌, ◌||◌, List, not, if◌then◌else◌, [], ◌∷◌, Option,
  none, some, arith,
}
use tanlnode.Netip.{Addr, Prefix, IsPrefix, contains}
use tanlnode.IpTree.{NetErr, Result, out_of_net, overlaps}
use tanlnode.Sqlgen.{Text, Subnet}
use tanlnode.Subnets.{
  Service, Made, made, failed, tree_error, reserve_error, db_error, invalid_prefix, new_trees,
  reserve, reserved, and_then, reserve_parsed, reserve_rows, reserve_all, new_service,
}
use tanlnode.Subnets.Spec.{in_use, IsService, any_fits}
use tanlnode.Subnets.Laws.Trees.{
  AreNets, kept, have_size, nets_fit, TreesEnd, net_refused, all_grown, trees_end,
}
use tanlnode.Subnets.Laws.Reserves.{Reserves, nowhere, taken, reserved_at, reserves}

or_false : (b : Bool) → b ≡ b || false
or_false b = ground arith

module _ (parse_prefix : Text → Option Prefix)
    (parsed-IsPrefix : (text : Text) (p : Prefix) → parse_prefix text ≡ some p → IsPrefix p) where
  abbrev pub parsed_has : Option Prefix → Addr → Bool
  parsed_has none ip = false
  parsed_has (some p) ip = contains p ip

  -- The address is in a subnet of the database that may not overlap others.
  abbrev pub rows_hold : List Subnet → Addr → Bool
  rows_hold [] ip = false
  rows_hold (row ∷ rows) ip =
      (not row.may_overlap && parsed_has (parse_prefix row.prefix) ip) || rows_hold rows ip

  -- A row of the database that must be reserved, with the rows before it.
  pub data HasRow : List Subnet → List Subnet → Subnet → Type 0 where
    first :
        (row : Subnet) (rows : List Subnet) → row.may_overlap ≡ false → HasRow (row ∷ rows) [] row
    later :
        {rows before : List Subnet} {row : Subnet} (r : Subnet)
        → HasRow rows before row
        → HasRow (r ∷ rows) (r ∷ before) row

  -- How the second loop ended.
  data RowsEnd (s : Service) (rows : List Subnet) : Made → Type 0 where
    all_reserved :
        (s' : Service)
        → IsService s'
        → ((ip : Addr) → in_use s' ip ≡ in_use s ip || rows_hold rows ip)
        → RowsEnd s rows (made s')
    unparsed :
        (before : List Subnet) (row : Subnet)
        → HasRow rows before row
        → parse_prefix row.prefix ≡ none
        → RowsEnd s rows (failed (invalid_prefix row.prefix))
    homeless :
        (before : List Subnet) (row : Subnet)
        → HasRow rows before row
        → (p : Prefix) → parse_prefix row.prefix ≡ some p
        → any_fits s p ≡ false
        → RowsEnd s rows (failed (reserve_error out_of_net))
    clashing :
        (before : List Subnet) (row : Subnet)
        → HasRow rows before row
        → (p : Prefix) → parse_prefix row.prefix ≡ some p
        → (ip : Addr) → contains p ip ≡ true
        → in_use s ip || rows_hold before ip ≡ true
        → RowsEnd s rows (failed (reserve_error overlaps))

  -- The loop went on from `s'` with the other rows.
  after_row :
      {s s' : Service} {row : Subnet} {rows : List Subnet} (m : Made)
      → ((ip : Addr)
          → in_use s' ip
            ≡ in_use s ip || (not row.may_overlap && parsed_has (parse_prefix row.prefix) ip))
      → ((q : Prefix) → any_fits s' q ≡ any_fits s q)
      → RowsEnd s' rows m
      → RowsEnd s (row ∷ rows) m
  after_row m one nets (all_reserved s v all) =
      all_reserved s v (λ ip. rw (all ip, one ip) (ground arith))
  after_row {s} {s'} {row} m one nets (unparsed before r h n) =
      unparsed (row ∷ before) r (later row h) n
  after_row {s} {s'} {row} m one nets (homeless before r h p n f) =
      homeless (row ∷ before) r (later row h) p n (sym (nets p) ∙ f)
  after_row {s} {s'} {row} m one nets (clashing before r h p n ip c u) =
      clashing (row ∷ before) r (later row h) p n ip c (let e = one ip in ground (arith, e, u))

  reserve_end :
      {s : Service} {row : Subnet} {rows : List Subnet}
      → row.may_overlap ≡ false
      → (p : Prefix) → parse_prefix row.prefix ≡ some p
      → (r : Service × Result ℕ) → Reserves s p r
      → ((s' : Service) → IsService s' → RowsEnd s' rows (reserve_rows parse_prefix s' rows))
      → RowsEnd s (row ∷ rows) (and_then (reserved r) (λ s'. reserve_rows parse_prefix s' rows))
  reserve_end {s} {row} {rows} o p e r (nowhere f) go = homeless [] row (first row rows o) p e f
  reserve_end {s} {row} {rows} o p e r (taken f ip c u) go =
      clashing [] row (first row rows o) p e ip c (rw u refl)
  reserve_end {s} {row} {rows} o p e r (reserved_at f s' i v all back nets) go =
      after_row (reserve_rows parse_prefix s' rows) (λ ip. rw (o, e, all ip) refl) nets (go s' v)

  parsed_end :
      {s : Service} {row : Subnet} {rows : List Subnet}
      → IsService s
      → row.may_overlap ≡ false
      → (o : Option Prefix) → parse_prefix row.prefix ≡ o
      → ((s' : Service) → IsService s' → RowsEnd s' rows (reserve_rows parse_prefix s' rows))
      → RowsEnd s (row ∷ rows) (
          and_then
            (reserve_parsed parse_prefix s row.prefix o)
            (λ s'. reserve_rows parse_prefix s' rows))
  parsed_end {s} {row} {rows} v o none e go = unparsed [] row (first row rows o) e
  parsed_end {s} {row} {rows} v o (some p) e go =
      reserve_end o p e (reserve s p) (reserves s p v (parsed-IsPrefix row.prefix p e)) go

  row_end :
      {s : Service} {row : Subnet} {rows : List Subnet}
      → IsService s
      → (b : Bool) → row.may_overlap ≡ b
      → ((s' : Service) → IsService s' → RowsEnd s' rows (reserve_rows parse_prefix s' rows))
      → RowsEnd s (row ∷ rows) (
          and_then
            (if b
              then made s
              else reserve_parsed parse_prefix s row.prefix (parse_prefix row.prefix))
            (λ s'. reserve_rows parse_prefix s' rows))
  row_end {s} {row} {rows} v true o go =
      after_row (reserve_rows parse_prefix s rows) (λ ip. rw o (or_false (in_use s ip))) (λ q. refl)
        (go s v)
  row_end {s} {row} {rows} v false o go = parsed_end v o (parse_prefix row.prefix) refl go

  rows_end :
      (s : Service) (rows : List Subnet)
      → IsService s
      → RowsEnd s rows (reserve_rows parse_prefix s rows)
  unfolding reserve_rows
  rows_end s [] v = all_reserved s v (λ ip. or_false (in_use s ip))
  rows_end s (row ∷ rows) v = row_end v row.may_overlap refl (λ s' v'. rows_end s' rows v')

  -- How `NewService` ended.
  pub data ServiceEnds (nets : List Prefix) : Option (List Subnet) → Made → Type 0 where
    size_refused :
        {rows : Option (List Subnet)} (e : NetErr)
        → have_size nets ≡ false
        → ServiceEnds nets rows (failed (tree_error e))
    no_rows : ServiceEnds nets none (failed db_error)
    started :
        (rows : List Subnet) (s : Service)
        → have_size nets ≡ true
        → IsService s
        → ((ip : Addr) → in_use s ip ≡ kept nets ip || rows_hold rows ip)
        → ServiceEnds nets (some rows) (made s)
    row_unparsed :
        (rows before : List Subnet) (row : Subnet)
        → HasRow rows before row
        → parse_prefix row.prefix ≡ none
        → ServiceEnds nets (some rows) (failed (invalid_prefix row.prefix))
    row_homeless :
        (rows before : List Subnet) (row : Subnet)
        → HasRow rows before row
        → (p : Prefix) → parse_prefix row.prefix ≡ some p
        → nets_fit nets p ≡ false
        → ServiceEnds nets (some rows) (failed (reserve_error out_of_net))
    row_clashing :
        (rows before : List Subnet) (row : Subnet)
        → HasRow rows before row
        → (p : Prefix) → parse_prefix row.prefix ≡ some p
        → (ip : Addr) → contains p ip ≡ true
        → kept nets ip || rows_hold before ip ≡ true
        → ServiceEnds nets (some rows) (failed (reserve_error overlaps))

  after_rows :
      {nets : List Prefix} {s : Service} {rows : List Subnet} (m : Made)
      → have_size nets ≡ true
      → ((ip : Addr) → in_use s ip ≡ kept nets ip)
      → ((p : Prefix) → any_fits s p ≡ nets_fit nets p)
      → RowsEnd s rows m
      → ServiceEnds nets (some rows) m
  after_rows m h e same (all_reserved s' v all) = started _ s' h v (λ ip. rw (all ip, e ip) refl)
  after_rows m h e same (unparsed before row r n) = row_unparsed _ before row r n
  after_rows m h e same (homeless before row r p n f) =
      row_homeless _ before row r p n (sym (same p) ∙ f)
  after_rows m h e same (clashing before row r p n ip c u) =
      row_clashing _ before row r p n ip c (rw e at u)

  after_trees :
      {nets : List Prefix} (rows : Option (List Subnet)) (m : Made)
      → TreesEnd nets m
      → ServiceEnds nets rows (and_then m (reserve_all parse_prefix rows))
  after_trees rows m (net_refused e h) = size_refused e h
  after_trees none m (all_grown s h v e same) = no_rows
  after_trees (some rows) m (all_grown s h v e same) =
      after_rows (reserve_rows parse_prefix s rows) h e same (rows_end s rows v)

  -- For valid networks without host bits and a parser that gives valid prefixes, `NewService` fails
  -- on a network only if some network has less than four addresses or more than 2 ^ 64; else, on the
  -- rows, only if the database gave none, or for a row that must be reserved whose prefix does not
  -- parse, or lies in no network, or holds an address that a network keeps for itself or that one of
  -- the rows before it holds which must be reserved as well; and otherwise makes a valid service in
  -- which the addresses in use are exactly those that the networks keep for themselves and those of
  -- the rows that must be reserved.
  pub new_service-ends :
      (nets : List Prefix) (rows : Option (List Subnet))
      → AreNets nets
      → ServiceEnds nets rows (new_service parse_prefix nets rows)
  unfolding new_service
  new_service-ends nets rows v = after_trees rows (new_trees nets) (trees_end nets v)
