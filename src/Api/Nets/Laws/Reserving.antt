-- ===== src/Api/Nets/Laws/Reserving.antt =====
-- How `apiReserveSubnet` answers, and what it leaves.
use mathlib.Core.Path.{subst}
use tanlnode.Base.{
  ℕ, ◌≡◌, refl, sym, ap, Bool, true, false, not, ◌&&◌, ◌||◌, Option, none, some, arith, inl, inr,
  Bool-cases, if◌then◌else◌,
}
use tanlnode.Sqlgen.{Text}
use tanlnode.Sqlgen.Tables.{AddSubnetParams, add_subnet}
use tanlnode.Netip.{Addr, Prefix, IsPrefix, contains}
use tanlnode.AllocNets.{has_host_bits}
use tanlnode.IpTree.{Result}
use tanlnode.Subnets.{delete_at, Service, reserve}
use tanlnode.Subnets.Spec.{in_use, IsService, any_fits}
use tanlnode.Subnets.Laws.Reserves.{Reserves, nowhere, taken, reserved_at, reserves}
use tanlnode.AllocNets.Laws.{AreDisjoint}
use tanlnode.Subnets.Laws.Nets.{nets_of, Fresh, reserve-Fresh}
use tanlnode.Tx.{Exit, do_tx, action_ended}
use tanlnode.Api.{
  Node, lock, ApiErr, OutsideErr, adding_subnet, Faults, Reply, subnet, respond_json, respond_error,
  internal_server_error,
}
use tanlnode.Api.Nets.{
  ReserveSubnetRequest, subnet_from_db, Reserving, zero_subnet, added_subnet, add_reserved,
  after_reserve, reserve_tx, reserve_reply, reserve_parsed, api_reserve_subnet,
}
use tanlnode.Subnets.Laws.Ats.{Undoes, reserve-Undoes}

pub unlocked-eq : (n : Node) → n.locked ≡ false → record n { locked = false } ≡ n
unlocked-eq n h = ap (λ (b : Bool). record n { locked = b }) (sym h)

module _ (faults : Faults) (parse_prefix : Text → Option Prefix) (print_prefix : Prefix → Text)
    (n : Node) where
  -- Why a request was answered with 400.
  pub data IsBad : Option ReserveSubnetRequest → Type 0 where
    no_json : IsBad none
    no_prefix : (req : ReserveSubnetRequest) → parse_prefix req.prefix ≡ none → IsBad (some req)
    host_bits :
        (req : ReserveSubnetRequest) (pref : Prefix)
        → parse_prefix req.prefix ≡ some pref
        → has_host_bits pref ≡ true
        → IsBad (some req)
    no_net :
        (req : ReserveSubnetRequest) (pref : Prefix)
        → parse_prefix req.prefix ≡ some pref
        → req.may_overlap ≡ false
        → any_fits n.subnets pref ≡ false
        → IsBad (some req)

  abbrev pub params_of : ReserveSubnetRequest → Prefix → AddSubnetParams
  params_of req pref = record {
    prefix = print_prefix pref;
    peer_id = none;
    comment = req.comment;
    may_overlap = req.may_overlap;
  }

  -- A service that is as before, or has the prefix assigned as well.
  pub record HasNext (req : ReserveSubnetRequest) (pref : Prefix) (s : Service) : Type 0 where
    pub valid : IsService s
    pub now_used :
        (ip : Addr) → in_use s ip ≡ in_use n.subnets ip || (not req.may_overlap && contains pref ip)
    pub was_free :
        req.may_overlap ≡ false
        → (ip : Addr) → contains pref ip ≡ true
        → in_use n.subnets ip ≡ false

  -- How the handler ended.
  pub data ReserveAnswers : Option ReserveSubnetRequest → Node × Reply → Type 0 where
    bad_request :
        (req : Option ReserveSubnetRequest) → IsBad req → ReserveAnswers req (n, respond_error 400)
    conflict :
        (req : ReserveSubnetRequest) (pref : Prefix)
        → parse_prefix req.prefix ≡ some pref
        → (ip : Addr) → contains pref ip ≡ true
        → in_use n.subnets ip ≡ true
        → ReserveAnswers (some req) (n, respond_error 409)
    failed :
        (req : ReserveSubnetRequest) (e : OutsideErr)
        → faults (adding_subnet 0) ≡ some e
        → ReserveAnswers (some req) (n, internal_server_error)
    created :
        (req : ReserveSubnetRequest) (pref : Prefix)
        → parse_prefix req.prefix ≡ some pref
        → has_host_bits pref ≡ false
        → (s : Service) → HasNext req pref s
        → ReserveAnswers (some req) (
          record n { db = (add_subnet n.db (params_of req pref)).0; subnets = s },
          respond_json 201 (subnet (subnet_from_db (add_subnet n.db (params_of req pref)).1)),
        )

  module _ (v : IsService n.subnets) (free : n.locked ≡ false) (req : ReserveSubnetRequest)
      (pref : Prefix) (p : IsPrefix pref) (e : parse_prefix req.prefix ≡ some pref)
      (m : has_host_bits pref ≡ false) where
    abbrev locked_start : Reserving
    locked_start = record { node = lock n; tree = none; reserved_subnet = zero_subnet }

    -- The transaction after its action.
    abbrev ended : Reserving × Exit ApiErr → Node × Reply
    ended r =
        reserve_reply faults print_prefix (action_ended (reserve_tx faults print_prefix req pref) r)

    at_unlocked :
        (f : Bool → Node × Reply)
        → ReserveAnswers (some req) (f n.locked)
        → ReserveAnswers (some req) (f false)
    at_unlocked f a = subst (λ (b : Bool). ReserveAnswers (some req) (f b)) free a

    -- The row is added to the database, over the service `s`.
    add_row : Service → Option ℕ → Option OutsideErr → Node × Reply
    add_row s tree f = ended (
        added_subnet faults print_prefix
          (record {
            node = record n { locked = true; subnets = s };
            tree = tree;
            reserved_subnet = zero_subnet;
          })
          (add_subnet n.db (params_of req pref)) f)

    overlapping :
        req.may_overlap ≡ true
        → (f : Option OutsideErr) → faults (adding_subnet 0) ≡ f
        → ReserveAnswers (some req) (add_row n.subnets none f)
    unfolding add_row
    overlapping o none g =
        at_unlocked
          (λ b. (
            record n { locked = b; db = (add_subnet n.db (params_of req pref)).0 },
            respond_json 201 (subnet (subnet_from_db (add_subnet n.db (params_of req pref)).1)),
          ))
          (created req pref e m n.subnets
            (record { valid = v; now_used = λ ip. rw o (ground arith); was_free = λ h. cc (o, h) }))
    overlapping o (some x) g =
        at_unlocked (λ b. (record n { locked = b }, internal_server_error)) (failed req x g)

    exclusive :
        req.may_overlap ≡ false
        → (f : Option OutsideErr) → faults (adding_subnet 0) ≡ f
        → (s : Service) (i : ℕ) → IsService s
        → ((ip : Addr) → in_use s ip ≡ in_use n.subnets ip || contains pref ip)
        → ((ip : Addr) → contains pref ip ≡ true → in_use n.subnets ip ≡ false)
        → delete_at s i pref ≡ n.subnets
        → ReserveAnswers (some req) (add_row s (some i) f)
    unfolding add_row
    exclusive o none g s i w used was back =
        at_unlocked
          (λ b. (
            record n { locked = b; db = (add_subnet n.db (params_of req pref)).0; subnets = s },
            respond_json 201 (subnet (subnet_from_db (add_subnet n.db (params_of req pref)).1)),
          ))
          (created req pref e m s
            (record { valid = w; now_used = λ ip. rw o (used ip); was_free = λ _. was }))
    exclusive o (some x) g s i w used was back =
        rw back
          (at_unlocked (λ b. (record n { locked = b }, internal_server_error)) (failed req x g))

    after_reserving :
        req.may_overlap ≡ false
        → (r : Service × Result ℕ) → Reserves n.subnets pref r
        → Undoes n.subnets pref r
        → Fresh n.subnets pref r
        → ReserveAnswers
            (some req)
            (ended (after_reserve faults print_prefix req pref locked_start r))
    unfolding add_row
    after_reserving o r (nowhere a) u f =
        at_unlocked (λ b. (record n { locked = b }, respond_error 400))
          (bad_request (some req) (no_net req pref e o a))
    after_reserving o r (taken a ip c used) u f =
        at_unlocked (λ b. (record n { locked = b }, respond_error 409))
          (conflict req pref e ip c used)
    after_reserving o r (reserved_at a s i w all back nets) u f =
        exclusive o (faults (adding_subnet 0)) refl s i w all (λ ip c. (f ip c).0) u

    by_overlap :
        AreDisjoint (nets_of n.subnets)
        → (b : Bool) → req.may_overlap ≡ b
        → ReserveAnswers (some req) (
            ended (
              if not b
              then after_reserve faults print_prefix req pref locked_start (reserve n.subnets pref)
              else add_reserved faults print_prefix req pref locked_start))
    unfolding add_row
    by_overlap d true o = overlapping o (faults (adding_subnet 0)) refl
    by_overlap d false o =
        after_reserving o (reserve n.subnets pref) (reserves n.subnets pref v p)
          (reserve-Undoes n.subnets pref v p) (reserve-Fresh n.subnets pref v d p)

    answers_parsed :
        AreDisjoint (nets_of n.subnets)
        → ReserveAnswers (some req) (reserve_parsed faults print_prefix req n (some pref))
    unfolding do_tx
    answers_parsed d = rw m (by_overlap d req.may_overlap refl)

  module _ (parsed-IsPrefix : (text : Text) (p : Prefix) → parse_prefix text ≡ some p → IsPrefix p)
      (v : IsService n.subnets) (d : AreDisjoint (nets_of n.subnets))
      (free : n.locked ≡ false) where
    answers_some :
        (req : ReserveSubnetRequest) (r : Option Prefix)
        → parse_prefix req.prefix ≡ r
        → ReserveAnswers (some req) (reserve_parsed faults print_prefix req n r)
    answers_some req none e = bad_request (some req) (no_prefix req e)
    answers_some req (some pref) e = elim (Bool-cases (has_host_bits pref)) [
      | inl m ↦ rw m (bad_request (some req) (host_bits req pref e m))
      | inr m ↦ answers_parsed v free req pref (parsed-IsPrefix req.prefix pref e) e m d
    ]

    -- Where the parser gives valid prefixes, the networks are valid and no two share an address, and
    -- nobody holds the lock, `apiReserveSubnet` answers in one of four ways. With 400, if there is no
    -- JSON, no prefix, a prefix with host bits, or no network for a prefix that may not overlap; with
    -- 409, if an address of the prefix is in use; with 500, if the query failed: in all of these the
    -- node is left exactly as it was. Or with 201 and the new row, which is added to the table; then
    -- a prefix that may overlap leaves the addresses in use as they were, and any other had none in
    -- use and now has all. The lock is free again.
    pub api_reserve_subnet-answers :
        (req : Option ReserveSubnetRequest)
        → ReserveAnswers req (api_reserve_subnet faults parse_prefix print_prefix n req)
    unfolding api_reserve_subnet
    api_reserve_subnet-answers none = bad_request none no_json
    api_reserve_subnet-answers (some req) = answers_some req (parse_prefix req.prefix) refl
