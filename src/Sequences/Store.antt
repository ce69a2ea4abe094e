-- ===== src/Sequences/Store.antt =====
-- The workspace's tables and a transaction on them (packages/db/migrations/0025_…, workers.go).
-- A column that nothing modelled reads is left out. A time is a number of nanoseconds.
pub mod Laws
use lecrm.Common.{
  ℕ, ◌+◌, String, Bool, true, false, ◌||◌, Option, none, some, List, [], ◌∷◌, Eq, ◌==◌, ◌≡◌, refl,
  if◌then◌else◌,
}
use lecrm.Common.Int.{ℤ}
use lecrm.Sequences.State.{State}
use lecrm.Sequences.Audit.{AuditRow}

-- A row of `enrollments`; the key of the table is its `id`.
pub record Enrollment : Type 0 where
  pub contact_id : ℕ
  pub workspace_id : ℕ
  pub state : String
  pub current_step_index : ℤ
  pub next_action_at : Option ℕ
  pub last_transition_at : ℕ
  pub reply_message_id : Option (List ℕ)
  pub ooo_returns_at : Option ℕ

-- A row of `enrollment_steps`.
pub record Step : Type 0 where
  pub enrollment_id : ℕ
  pub step_index : ℤ
  pub rfc_message_id : Option (List ℕ)
  pub sent_at : Option ℕ
  pub bounced_at : Option ℕ
  pub bounce_type : Option String

-- A row of `email_suppression`; the key of the table is the address.
pub record Suppression : Type 0 where
  pub reason : String
  pub suppressed_at : ℕ

-- The arguments of a sequences.finalize job (args.go).
pub record FinalizeArgs : Type 0 where
  pub workspace_id : ℕ
  pub enrollment_id : ℕ
  pub terminal_state : String
  pub reason : String

-- The Gmail row of `sync_connections`, with its cursor.
pub record Connection : Type 0 where
  pub is_active : Bool
  pub user_id : ℕ
  pub email_address : String
  pub sync_cursor : Option ℕ

pub record Db : Type 0 where
  pub enrollments : List (ℕ × Enrollment)
  pub contacts : List (ℕ × Option String)
  pub steps : List Step
  pub email_suppression : List (String × Suppression)
  pub audit_log : List AuditRow
  pub jobs : List FinalizeArgs
  pub gmail : Option Connection

-- A transaction: its view of the tables, how many statements it has run, and whether one of them
-- failed. After that PostgreSQL refuses every further statement, and the commit.
pub record Tx : Type 0 where
  pub db : Db
  pub executed : ℕ
  pub is_aborted : Bool

-- Which statements fail (a lost connection, a refused value), by their number in the transaction.
abbrev pub Faults : Type 0
Faults = ℕ → Bool

unfoldable pub begin : Db → Tx
begin d = record { db = d; executed = 0; is_aborted = false }

-- One statement: what it does to the tables, or its failure.
unfoldable pub statement : Faults → (Db → Db) → Tx → Tx × Bool
statement faults effect tx =
    if tx.is_aborted || faults tx.executed
    then (record tx { executed = tx.executed + 1; is_aborted = true }, false)
    else (record tx { executed = tx.executed + 1; db = effect tx.db }, true)

-- The panic value of an illegal transition, and the error in its place.
pub record InvalidTransitionError : Type 0 where
  pub enrollment_id : ℕ
  pub source : State
  pub target : State

-- How a function that returns `error` ends.
pub data Outcome (E : Type 0) : Type 0 where
  done : Outcome E
  failed : E → Outcome E
  panicked : InvalidTransitionError → Outcome E

pub data TxError (E : Type 0) : Type 0 where
  acquire_failed : TxError E
  commit_failed : TxError E
  inner : E → TxError E

-- Whether the connection is had, and whether the commit goes through.
pub record Pool : Type 0 where
  pub acquires : Bool
  pub commits : Bool

module _ {E : Type 0} where
  abbrev settle : Pool → Db → Tx × Outcome E → Db × Outcome (TxError E)
  settle pool d (tx, done) =
      if tx.is_aborted
      then (d, failed commit_failed)
      else if pool.commits
      then (tx.db, done)
      else (d, failed commit_failed)
  settle pool d (tx, failed e) = (d, failed (inner e))
  settle pool d (tx, panicked p) = (d, panicked p)

  -- `runInTx`: commit if the body returns nil; the deferred release rolls back otherwise.
  unfoldable pub run_in_tx : Pool → (Tx → Tx × Outcome E) → Db → Db × Outcome (TxError E)
  unfolding begin
  run_in_tx pool body d =
      if pool.acquires then settle pool d (body (begin d)) else (d, failed acquire_failed)
