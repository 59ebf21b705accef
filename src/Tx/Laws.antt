-- ===== src/Tx/Laws.antt =====
-- `Do` is atomic where the rollback undoes what was done.
use mathlib.Core.Path.{subst}
use tanlnode.Base.{◌≡◌, ◌≢◌, ◌⊎◌, inl, inr, refl, sym, ap, ◌∙◌, Option, some}
use tanlnode.Tx.{
  Exit, done, fails, panics, TxErr, error, rollback_error, Action, Transactional, rolled_back,
  rollback_ended, recover_panic, commit_in, commit_ended, action_ended, do_tx,
}

-- The error of `Do` for an error of a function: it, or a `RollbackError` with it as the cause.
pub data IsErrorOf {E : Type 0} (err : E) : TxErr E → Type 0 where
  plain : IsErrorOf err (error err)
  with_rollback : (rb_err : E) → IsErrorOf err (rollback_error rb_err err)

-- What has to be undone is what `view` shows of a state; the rest are variables of the call.
module _ {S E V : Type 0} (view : S → V) (t : Transactional S E) (s : S) where
  -- From `s'` the rollback gives back the view of `s`. It may fail, but does not panic.
  pub record GivesBack (rollback : Action S E) (s' : S) : Type 0 where
    pub back : view (rollback s').0 ≡ view s
    pub returns : (rollback s').1 ≢ panics

  -- Both functions are there; the rollback undoes an action that does not return nil, and an action
  -- whose commit fails; and the commit does not panic.
  pub record CanUndo : Type 0 where
    pub commit : Action S E
    pub rollback : Action S E
    pub has_commit : t.commit ≡ some commit
    pub has_rollback : t.rollback ≡ some rollback
    pub undoes_action : (t.action s).1 ≢ done → GivesBack rollback (t.action s).0
    pub undoes_commit :
        (err : E)
        → (t.action s).1 ≡ done
        → (commit (t.action s).0).1 ≡ fails err
        → GivesBack rollback (commit (t.action s).0).0
    pub commit_returns : (t.action s).1 ≡ done → (commit (t.action s).0).1 ≢ panics

  -- How a call of `Do` in the state `s` ended.
  pub data DoEnds (commit : Action S E) : S × Exit (TxErr E) → Type 0 where
    committed :
        (t.action s).1 ≡ done
        → (commit (t.action s).0).1 ≡ done
        → DoEnds commit ((commit (t.action s).0).0, done)
    undone :
        (err : E)
        → ((t.action s).1 ≡ fails err)
          ⊎ (((t.action s).1 ≡ done) × ((commit (t.action s).0).1 ≡ fails err))
        → (s' : S) → view s' ≡ view s
        → (e : TxErr E) → IsErrorOf err e
        → DoEnds commit (s', fails e)
    panicked : (t.action s).1 ≡ panics → (s' : S) → view s' ≡ view s → DoEnds commit (s', panics)

  module _ (u : CanUndo) where
    -- The rollback, from where it undoes, after the error `err`.
    rolled :
        (err : E)
        → ((t.action s).1 ≡ fails err)
          ⊎ (((t.action s).1 ≡ done) × ((u.commit (t.action s).0).1 ≡ fails err))
        → (r : S × Exit E) → view r.0 ≡ view s
        → r.1 ≢ panics
        → DoEnds u.commit (rollback_ended err r)
    rolled err h (s', done) b n = undone err h s' b (error err) plain
    rolled err h (s', fails rb_err) b n =
        undone err h s' b (rollback_error rb_err err) (with_rollback rb_err)
    rolled err h (s', panics) b n = absurd (n refl)

    rolled_from :
        (err : E)
        → ((t.action s).1 ≡ fails err)
          ⊎ (((t.action s).1 ≡ done) × ((u.commit (t.action s).0).1 ≡ fails err))
        → (s' : S) → GivesBack u.rollback s'
        → DoEnds u.commit (rolled_back t.rollback err s')
    rolled_from err h s' b =
        subst (λ (c : Option (Action S E)). DoEnds u.commit (rolled_back c err s'))
          (sym u.has_rollback) (rolled err h (u.rollback s') b.back b.returns)

    commit_end :
        (r : S × Exit E)
        → u.commit (t.action s).0 ≡ r
        → (t.action s).1 ≡ done
        → DoEnds u.commit (commit_ended t.rollback r)
    commit_end (s2, done) e h =
        rw (← ap (λ (r : S × Exit E). r.0) e) (committed h (ap (λ (r : S × Exit E). r.1) e))
    commit_end (s2, fails err) e h =
        let failed : (u.commit (t.action s).0).1 ≡ fails err = ap (λ (r : S × Exit E). r.1) e in
        rolled_from err (inr (h, failed)) s2
          (subst (λ (r : S × Exit E). GivesBack u.rollback r.0) e (u.undoes_commit err h failed))
    commit_end (s2, panics) e h = absurd (u.commit_returns h (ap (λ (r : S × Exit E). r.1) e))

    action_end : (r : S × Exit E) → t.action s ≡ r → DoEnds u.commit (action_ended t r)
    action_end (s1, done) e =
        let at_s1 : (t.action s).0 ≡ s1 = ap (λ (r : S × Exit E). r.0) e in
        subst (λ (c : Option (Action S E)). DoEnds u.commit (commit_in t.rollback c s1))
          (sym u.has_commit)
          (rw (← at_s1)
            (commit_end (u.commit (t.action s).0) refl (ap (λ (r : S × Exit E). r.1) e)))
    action_end (s1, fails err) e =
        let failed : (t.action s).1 ≡ fails err = ap (λ (r : S × Exit E). r.1) e in
        rolled_from err (inl failed) s1 (
          subst (λ (r : S × Exit E). GivesBack u.rollback r.0) e
            (u.undoes_action (λ n. let no : fails err ≡ done = sym failed ∙ n in cc)))
    action_end (s1, panics) e =
        let failed : (t.action s).1 ≡ panics = ap (λ (r : S × Exit E). r.1) e in
        let b : GivesBack u.rollback s1 =
          subst (λ (r : S × Exit E). GivesBack u.rollback r.0) e
            (u.undoes_action (λ n. let no : panics ≡ done = sym failed ∙ n in cc)) in
        subst (λ (c : Option (Action S E)). DoEnds u.commit (recover_panic c s1))
          (sym u.has_rollback) (panicked failed (u.rollback s1).0 b.back)

    -- If the rollback undoes, in what the view shows, an action that does not return nil and an
    -- action whose commit fails, and neither it nor the commit panics there, then `Do` is atomic: it
    -- returns nil, after the action and the commit both returned nil, in the state that they leave;
    -- or it returns the error of the one that failed, or a `RollbackError` with it as the cause, with
    -- the view from before; or it panics, as the action did, with the view from before.
    pub do_tx-ends : DoEnds u.commit (do_tx t s)
    unfolding do_tx
    do_tx-ends = action_end (t.action s) refl
