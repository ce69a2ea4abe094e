-- ===== src/Sequences/Workers.antt =====
-- The river workers (apps/api/internal/sequences/workers.go). A handler is a parameter; one that is
-- not wired is `none`. The log line of a failed exhausted-transition is left out.
use lecrm.Common.{
  ℕ, ◌≤◌, ◌<◌, ◌≡◌, ◌≢◌, ◌⊎◌, inl, inr, Bool, Option, none, some, leb, arith, refl, if◌then◌else◌,
  Bool-cases,
}
use lecrm.Sequences.Store.{
  Db, Tx, Outcome, done, failed, panicked, TxError, Pool, run_in_tx, InvalidTransitionError,
}
use lecrm.Sequences.Store.Laws.{run_in_tx_atomic}

pub data WorkError (E : Type 0) : Type 0 where
  handler_not_wired : WorkError E
  from_handler : E → WorkError E

abbrev pub Handler : Type 0 → Type 0 → Type 0
Handler A E = A → Tx → Tx × Outcome (WorkError E)

-- What `runInTx` is given: the handler, or the error of a missing one.
unfoldable pub delegate :
    {A E : Type 0} → Option (Handler A E) → A → Tx → Tx × Outcome (WorkError E)
delegate none args tx = (tx, failed handler_not_wired)
delegate (some handle) args tx = handle args tx

-- `Work` of the enroll, poll_reply and finalize workers.
unfoldable pub work :
    {A E : Type 0} → Pool → Option (Handler A E) → A → Db → Db × Outcome (TxError (WorkError E))
work pool handle args d = run_in_tx pool (delegate handle args) d

-- What the job answers once the exhausted handler has run: its panic is not caught, and its error is
-- logged and dropped.
unfoldable pub after_exhausted :
    {E : Type 0}
    → TxError (WorkError E)
    → Outcome (TxError (WorkError E))
    → Outcome (TxError (WorkError E))
after_exhausted e done = failed e
after_exhausted e (failed e') = failed e
after_exhausted e (panicked p) = panicked p

-- `job.Attempt >= job.MaxAttempts`
abbrev pub is_last : ℕ → ℕ → Bool
is_last attempt max_attempts = leb max_attempts attempt

-- A panic, of the send or of the exhausted handler, passes through the worker; an error of the
-- exhausted handler is dropped for that of the send.
unfoldable pub after_send :
    {A E : Type 0}
    → Pool
    → Option (TxError (WorkError E) → Handler A E)
    → ℕ
    → ℕ
    → A
    → Db × Outcome (TxError (WorkError E))
    → Db × Outcome (TxError (WorkError E))
after_send pool on_exhausted attempt max_attempts args (d, done) = (d, done)
after_send pool on_exhausted attempt max_attempts args (d, panicked p) = (d, panicked p)
after_send pool none attempt max_attempts args (d, failed e) = (d, failed e)
after_send pool (some handle) attempt max_attempts args (d, failed e) =
    let (d', exhausted) = run_in_tx pool (handle e args) d in
    if is_last attempt max_attempts then (d', after_exhausted e exhausted) else (d, failed e)

-- `Work` of the send_step worker; `pool` serves the send and `pool'` the exhausted transition.
unfoldable pub send_step_work :
    {A E : Type 0}
    → Pool
    → Pool
    → Option (Handler A E)
    → Option (TxError (WorkError E) → Handler A E)
    → ℕ
    → ℕ
    → A
    → Db
    → Db × Outcome (TxError (WorkError E))
send_step_work pool pool' handle on_exhausted attempt max_attempts args d =
    after_send pool' on_exhausted attempt max_attempts args (work pool handle args d)

-- A worker whose handler is not wired reports an error and writes nothing.
work_not_wired :
    {A E : Type 0} (pool : Pool) (args : A) (d : Db)
    → ((work {E = E} pool none args d).1 ≢ done) × ((work {E = E} pool none args d).0 ≡ d)
unfolding work delegate run_in_tx
work_not_wired pool args d = ground arith

-- How the last attempt answers `r` after an error `e` of the send, `x` being the run of the exhausted
-- handler: with its tables, and with its panic or else the error of the send.
abbrev pub IsExhausted :
    {E : Type 0}
    → TxError (WorkError E)
    → Db × Outcome (TxError (WorkError E))
    → Db × Outcome (TxError (WorkError E))
    → Type 0
IsExhausted e x r =
    (r.0 ≡ x.0)
    × (((p : InvalidTransitionError) × (x.1 ≡ panicked p) × (r.1 ≡ panicked p))
        ⊎ (((p : InvalidTransitionError) → x.1 ≢ panicked p) × (r.1 ≡ failed e)))

after_exhausted-IsExhausted :
    {E : Type 0} (e : TxError (WorkError E)) (d : Db) (o : Outcome (TxError (WorkError E)))
    → IsExhausted e (d, o) (d, after_exhausted e o)
unfolding after_exhausted
after_exhausted-IsExhausted e d done = (refl, inr (λ p q. cc, refl))
after_exhausted-IsExhausted e d (failed e') = (refl, inr (λ p q. cc, refl))
after_exhausted-IsExhausted e d (panicked p) = (refl, inl (p, refl, refl))

-- How a job ends, given what the send left and answered.
abbrev pub IsJobEnd :
    {A E : Type 0}
    → Pool
    → (TxError (WorkError E) → Handler A E)
    → ℕ
    → ℕ
    → A
    → Db
    → Db × Outcome (TxError (WorkError E))
    → Db × Outcome (TxError (WorkError E))
    → Type 0
IsJobEnd pool on_exhausted attempt max_attempts args d sent r =
    ((sent.1 ≡ done) × (r ≡ sent))
    ⊎ ((p : InvalidTransitionError) × (sent.1 ≡ panicked p) × (r ≡ (d, panicked p)))
    ⊎ ((e : _) × (sent.1 ≡ failed e)
        × (((attempt < max_attempts) × (r ≡ (d, failed e)))
            ⊎ ((max_attempts ≤ attempt)
                × IsExhausted e (run_in_tx pool (on_exhausted e args) d) r)))

after_send-IsJobEnd :
    {A E : Type 0} (pool : Pool) (on_exhausted : TxError (WorkError E) → Handler A E)
    (attempt max_attempts : ℕ) (args : A) (d : Db) (sent : Db × Outcome (TxError (WorkError E)))
    → (sent.1 ≢ done → sent.0 ≡ d)
    → IsJobEnd pool on_exhausted attempt max_attempts args d sent
        (after_send pool (some on_exhausted) attempt max_attempts args sent)
unfolding after_send
after_send-IsJobEnd pool h a m args d (d', done) atomic = inl (refl, refl)
after_send-IsJobEnd pool h a m args d (d', panicked p) atomic =
    inr (inl (p, refl, rw (atomic (λ q. cc)) refl))
after_send-IsJobEnd pool h a m args d (d', failed e) atomic =
    let same : d' ≡ d = atomic (λ q. cc) in
    inr (
      inr (
        e,
        refl,
        elim (Bool-cases (is_last a m)) [
          | inl last ↦ inr (ground arith, rw (last, same) (after_exhausted-IsExhausted e _ _))
          | inr early ↦ inl (ground arith, rw (early, same) refl)
        ],
      ))

-- A send_step job whose send was not done leaves no trace of the send itself. If the send panics, so
-- does the job, with the tables as they were. If the send fails, then before the last attempt the job
-- fails with its error and the tables as they were; on the last attempt the tables are what the
-- exhausted handler left of them, and the job panics as that handler did or else fails with the error
-- of the send. If the send is done, the job is the send.
pub send_step_work_cases :
    {A E : Type 0} (pool pool' : Pool) (handle : Option (Handler A E))
    (on_exhausted : TxError (WorkError E) → Handler A E) (attempt max_attempts : ℕ) (args : A)
    (d : Db)
    → IsJobEnd pool' on_exhausted attempt max_attempts args d
        (work pool handle args d)
        (send_step_work pool pool' handle (some on_exhausted) attempt max_attempts args d)
unfolding send_step_work work
send_step_work_cases pool pool' handle on_exhausted attempt max_attempts args d =
    after_send-IsJobEnd pool' on_exhausted attempt max_attempts args d (work pool handle args d)
      (run_in_tx_atomic pool (delegate handle args) d)
