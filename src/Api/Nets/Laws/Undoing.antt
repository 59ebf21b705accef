-- ===== src/Api/Nets/Laws/Undoing.antt =====
-- The transaction of `apiReserveSubnet` is one whose rollback undoes its action.
use tanlnode.Base.{
  ℕ, ◌≡◌, ◌≢◌, refl, sym, ap, ◌∙◌, Bool, true, false, not, Option, none, some, if◌then◌else◌,
}
use tanlnode.Sqlgen.{Text}
use tanlnode.Netip.{Prefix, IsPrefix}
use tanlnode.IpTree.{Result, ok, err, panic}
use tanlnode.IpTree.Spec.{is_ok}
use tanlnode.Subnets.{Service, reserve, delete_if}
use tanlnode.Subnets.Spec.{IsService}
use tanlnode.Subnets.Laws.Ats.{Undoes, reserve-Undoes}
use tanlnode.Subnets.Laws.Reserves.{reserve_errors}
use tanlnode.Tx.{Exit, done, fails, panics}
use tanlnode.Tx.Laws.{GivesBack, CanUndo}
use tanlnode.Api.{Node, ApiErr, OutsideErr, Faults, adding_subnet}
use tanlnode.Api.Nets.{
  ReserveSubnetRequest, Reserving, zero_subnet, added_subnet, add_reserved, after_reserve,
  reserve_action, reserve_commit, reserve_rollback, reserve_tx,
}
use tanlnode.Api.Nets.Laws.Reserving.{params_of, unlocked-eq}
use tanlnode.Sqlgen.Tables.{add_subnet}

module _ (faults : Faults) (parse_prefix : Text → Option Prefix) (print_prefix : Prefix → Text)
    (req : ReserveSubnetRequest) (pref : Prefix) (n : Node) where
  -- The state of a call, before its transaction.
  abbrev pub start : Reserving
  start = record { node = n; tree = none; reserved_subnet = zero_subnet }

  -- What must be undone is done to the node.
  abbrev pub node_of : Reserving → Node
  node_of st = st.node

  abbrev CanEnd : Reserving × Exit ApiErr → Type 0
  CanEnd r =
      (r.1 ≢ done
        → GivesBack node_of (reserve_tx faults print_prefix req pref) start
            (reserve_rollback faults print_prefix pref) r.0)
      × ((reserve_commit faults print_prefix r.0).1 ≡ done)

  module _ (free : n.locked ≡ false) where
    given_back :
        (s : Service) (tree : Option ℕ)
        → delete_if s tree pref ≡ n.subnets
        → GivesBack node_of
            (reserve_tx faults print_prefix req pref)
            start
            (reserve_rollback faults print_prefix pref)
            (record start { node = record n { locked = true; subnets = s }; tree = tree })
    given_back s tree b = record {
      back = ap (λ (u : Service). record n { locked = false; subnets = u }) b ∙ unlocked-eq n free;
      returns = λ e. cc;
    }

    added_end :
        (s : Service) (tree : Option ℕ)
        → delete_if s tree pref ≡ n.subnets
        → (f : Option OutsideErr)
        → CanEnd (
            added_subnet faults print_prefix
              (record start { node = record n { locked = true; subnets = s }; tree = tree })
              (add_subnet n.db (params_of faults parse_prefix print_prefix n req pref))
              f)
    added_end s tree b none = (λ no. absurd (no refl), refl)
    added_end s tree b (some x) = (λ no. given_back s tree b, refl)

    after_reserving :
        (r : Service × Result ℕ)
        → Undoes n.subnets pref r
        → (is_ok r.1 ≡ false → r.0 ≡ n.subnets)
        → CanEnd (
            after_reserve faults print_prefix req pref
              (record start { node = record n { locked = true } })
              r)
    after_reserving (s, ok i) u k = added_end s (some i) u (faults (adding_subnet 0))
    after_reserving (s, err x) u k = (λ no. given_back s none (k refl), refl)
    after_reserving (s, panic) u k = (λ no. given_back s none (k refl), refl)

    module _ (v : IsService n.subnets) (p : IsPrefix pref) where
      by_overlap :
          (b : Bool)
          → CanEnd (
              if not b
              then after_reserve faults print_prefix req pref
                  (record start { node = record n { locked = true } })
                  (reserve n.subnets pref)
              else add_reserved faults print_prefix req pref
                  (record start { node = record n { locked = true } }))
      by_overlap true = added_end n.subnets none refl (faults (adding_subnet 0))
      by_overlap false =
          after_reserving (reserve n.subnets pref) (reserve-Undoes n.subnets pref v p)
            (reserve_errors n.subnets v p).2

      -- In a valid service whose lock is free, what the action did to the node can be undone.
      pub reserve_tx-CanUndo : CanUndo node_of (reserve_tx faults print_prefix req pref) start
      reserve_tx-CanUndo =
          let both : CanEnd (reserve_action faults print_prefix req pref start) =
            by_overlap req.may_overlap in
          record {
            commit = reserve_commit faults print_prefix;
            rollback = reserve_rollback faults print_prefix pref;
            has_commit = refl;
            has_rollback = refl;
            undoes_action = both.0;
            undoes_commit = λ err h e. let no : done ≡ fails err = sym both.1 ∙ e in cc;
            commit_returns = λ h e. let no : done ≡ panics = sym both.1 ∙ e in cc;
          }
