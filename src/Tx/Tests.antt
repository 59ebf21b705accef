-- ===== src/Tx/Tests.antt =====
-- Runs of `Do` for each way in which it ends.
use tanlnode.Base.{ℕ, ◌+◌, ◌≡◌, refl, none, some}
use tanlnode.Tx.{done, fails, panics, error, rollback_error, Transactional, do_tx}

-- On a counter: the action adds 1 and fails with error 5; the rollback sets the counter to 3.
abbrev failing : Transactional ℕ ℕ
failing = record {
  commit = some (λ n. (n, done));
  action = λ n. (n + 1, fails 5);
  rollback = some (λ n. (3, done));
}

do_tx_runs :
    (do_tx failing 3 ≡ (3, fails (error 5)))
    × (do_tx (record failing { rollback = none }) 3 ≡ (4, fails (error 5)))
    × (do_tx (record failing { rollback = some (λ n. (n, fails 7)) }) 3
        ≡ (4, fails (rollback_error 7 5)))
    × (do_tx (record failing { action = λ n. (n + 1, panics) }) 3 ≡ (3, panics))
    × (do_tx (record failing { action = λ n. (n + 1, done); commit = none }) 3 ≡ (4, done))
unfolding do_tx
do_tx_runs = (refl, refl, refl, refl, refl)
