-- ===== src/Sequences/Store/Laws.antt =====
-- What the transaction envelope guarantees of any body.
use lecrm.Common.{◌+◌, ◌||◌, ◌≡◌, ◌≢◌, ◌⊎◌, inl, inr, true, false, refl, arith, Bool-cases}
use lecrm.Sequences.Store.{
  Db, Tx, Faults, statement, Outcome, done, failed, panicked, Pool, begin, run_in_tx,
}

module _ {E : Type 0} (pool : Pool) (body : Tx → Tx × Outcome E) (d : Db) where
  -- An envelope that does not report success has changed nothing.
  pub run_in_tx_atomic : (run_in_tx pool body d).1 ≢ done → (run_in_tx pool body d).0 ≡ d
  unfolding run_in_tx
  run_in_tx_atomic h = ground arith

  -- An envelope that reports success has committed what its body left, and the body succeeded.
  pub run_in_tx_committed :
      (run_in_tx pool body d).1 ≡ done
      → ((body (begin d)).1 ≡ done)
        × ((body (begin d)).0.is_aborted ≡ false)
        × ((run_in_tx pool body d).0 ≡ (body (begin d)).0.db)
  unfolding run_in_tx
  run_in_tx_committed h = ground arith

  -- With a connection and a commit, a body that succeeds on a live transaction is committed.
  pub run_in_tx-done :
      pool.acquires ≡ true
      → pool.commits ≡ true
      → (body (begin d)).1 ≡ done
      → (body (begin d)).0.is_aborted ≡ false
      → run_in_tx pool body d ≡ ((body (begin d)).0.db, done)
  unfolding run_in_tx
  run_in_tx-done a c h k = ground arith

-- A statement on a transaction runs or aborts it.
pub statement_cases :
    (faults : Faults) (effect : Db → Db) (tx : Tx)
    → (statement faults effect tx
        ≡ (record tx { executed = tx.executed + 1; db = effect tx.db }, true))
      ⊎ (statement faults effect tx
          ≡ (record tx { executed = tx.executed + 1; is_aborted = true }, false))
unfolding statement
statement_cases faults effect tx = elim (Bool-cases (tx.is_aborted || faults tx.executed)) [
  | inl fails ↦ inr (rw fails)
  | inr runs ↦ inl (rw runs)
]

-- Without faults a live transaction runs every statement.
pub statement-runs :
    (faults : Faults) (effect : Db → Db) (tx : Tx)
    → tx.is_aborted ≡ false
    → faults tx.executed ≡ false
    → statement faults effect tx
      ≡ (record tx { executed = tx.executed + 1; db = effect tx.db }, true)
unfolding statement
statement-runs faults effect tx a f = rw (a, f)

pub Outcome-cases : {E : Type 0} (o : Outcome E) → (o ≡ done) ⊎ (o ≢ done)
Outcome-cases done = inl refl
Outcome-cases (failed e) = inr (λ p. cc)
Outcome-cases (panicked e) = inr (λ p. cc)
