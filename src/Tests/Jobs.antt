-- ===== src/Tests/Jobs.antt =====
-- The workers, with a handler that fails and one that panics.
use lecrm.Common.{ℕ, String, some, []}
use lecrm.Sequences.State.{enrolled, reply_received}
use lecrm.Sequences.Store.{failed, panicked, TxError}
use lecrm.Sequences.Workers.{
  WorkError, from_handler, Handler, work, send_step_work, IsJobEnd, send_step_work_cases,
}
use lecrm.Tests.Data.{open_pool, tables}

-- A handler that empties the suppression list and then fails.
abbrev failing : Handler ℕ String
failing args tx =
    (record tx { db = record tx.db { email_suppression = [] } }, failed (from_handler "smtp"))

-- A handler of the last failure that panics.
abbrev violating : TxError (WorkError String) → Handler ℕ String
violating e args tx =
    (tx, panicked (record { enrollment_id = args; source = reply_received; target = enrolled }))

send_step_work_cases_example :
    IsJobEnd open_pool violating 4 4 5 tables
      (work open_pool (some failing) 5 tables)
      (send_step_work open_pool open_pool (some failing) (some violating) 4 4 5 tables)
send_step_work_cases_example =
    send_step_work_cases open_pool open_pool (some failing) violating 4 4 5 tables
