-- ===== src/Tests/Data.antt =====
-- A workspace with two enrollments, and a transaction on it.
use lecrm.Common.{ℕ, true, false, none, some, [], ◌∷◌, ◌≡◌, refl}
use lecrm.Common.Int.{pos}
use lecrm.Calendar.{Time}
use lecrm.Sequences.Store.{Enrollment, Step, Db, Tx, Faults, Pool}

abbrev pub no_faults : Faults
no_faults n = false

pub no_faults-Healthy : (n : ℕ) → no_faults n ≡ false
no_faults-Healthy n = refl

abbrev pub open_pool : Pool
open_pool = record { acquires = true; commits = true }

abbrev pub waiting : Enrollment
waiting = record {
  contact_id = 7;
  workspace_id = 1;
  state = "waiting_reply";
  current_step_index = pos 0;
  next_action_at = none;
  last_transition_at = 10;
  reply_message_id = none;
  ooo_returns_at = none;
}

abbrev pub closed : Enrollment
closed = record waiting { contact_id = 8; state = "completed" }

abbrev pub first_step : Step
first_step = record {
  enrollment_id = 5;
  step_index = pos 0;
  rfc_message_id = none;
  sent_at = some 20;
  bounced_at = some 30;
  bounce_type = some "soft";
}

abbrev pub tables : Db
tables = record {
  enrollments = (5, waiting) ∷ (6, closed) ∷ [];
  contacts = (7, some "ann@example.org") ∷ (8, some "bob@example.org") ∷ [];
  steps = [];
  email_suppression = [];
  audit_log = [];
  jobs = [];
  gmail = none;
}

abbrev pub open_tx : Tx
open_tx = record { db = tables; executed = 0; is_aborted = false }

-- 29 February 2024, at midnight.
abbrev pub leap_day : Time
leap_day = record { year = 2024; month = 2; day = 29; nanos = 0 }
