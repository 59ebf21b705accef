-- ===== src/Tx.antt =====
-- tx/transaction.go: an action with a commit and a rollback.
pub mod Laws
mod Tests
use tanlnode.Base.{Option, none, some}

-- How a function ended: with nil, with an error, or with a panic.
pub data Exit (E : Type 0) : Type 0 where
  done : Exit E
  fails : E → Exit E
  panics : Exit E

-- The error of `Do`: that of a function, or a `RollbackError` of `rollbackErr` and `cause`.
pub data TxErr (E : Type 0) : Type 0 where
  error : E → TxErr E
  rollback_error : E → E → TxErr E

-- A function on the state `S` outside of the transaction.
abbrev pub Action : Type 0 → Type 0 → Type 0
Action S E = S → S × Exit E

-- `Transactional`; `none` is a nil function.
pub record Transactional (S E : Type 0) : Type 0 where
  pub commit : Option (Action S E)
  pub action : Action S E
  pub rollback : Option (Action S E)

module _ {S E : Type 0} where
  abbrev pub rollback_ended : E → S × Exit E → S × Exit (TxErr E)
  rollback_ended err (s, done) = (s, fails (error err))
  rollback_ended err (s, fails rb_err) = (s, fails (rollback_error rb_err err))
  rollback_ended err (s, panics) = (s, panics)

  -- After an error `err`, in the state `s`.
  abbrev pub rolled_back : Option (Action S E) → E → S → S × Exit (TxErr E)
  rolled_back none err s = (s, fails (error err))
  rolled_back (some rollback) err s = rollback_ended err (rollback s)

  -- The deferred function, after a panic in the state `s`; it panics again.
  abbrev pub recover_panic : Option (Action S E) → S → S × Exit (TxErr E)
  recover_panic none s = (s, panics)
  recover_panic (some rollback) s = ((rollback s).0, panics)

  abbrev pub commit_ended : Option (Action S E) → S × Exit E → S × Exit (TxErr E)
  commit_ended rollback (s, done) = (s, done)
  commit_ended rollback (s, fails err) = rolled_back rollback err s
  commit_ended rollback (s, panics) = (s, panics)

  abbrev pub commit_in : Option (Action S E) → Option (Action S E) → S → S × Exit (TxErr E)
  commit_in rollback none s = (s, done)
  commit_in rollback (some commit) s = commit_ended rollback (commit s)

  abbrev pub action_ended : Transactional S E → S × Exit E → S × Exit (TxErr E)
  action_ended t (s, done) = commit_in t.rollback t.commit s
  action_ended t (s, fails err) = rolled_back t.rollback err s
  action_ended t (s, panics) = recover_panic t.rollback s

  -- `Do`
  unfoldable pub do_tx : Transactional S E → S → S × Exit (TxErr E)
  do_tx t s = action_ended t (t.action s)
