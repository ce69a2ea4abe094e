-- ===== src/Tests/Lifecycle.antt =====
-- The lifecycle and its transitions, on two enrollments.
use lecrm.Common.{◌+◌, some, List, [], ◌∷◌, ◌≡◌, ◌≢◌, ◌⊎◌, refl, lookup, nat_eq, string_eq, length}
use lecrm.Common.Text.{codes}
use lecrm.Sequences.State.{enrolled, reply_received, state_of_text, state_eq}
use lecrm.Sequences.State.Graph.{◌⟶◌, ◌⟶*◌}
use lecrm.Sequences.Audit.{text, Payload}
use lecrm.Sequences.Store.{Enrollment, done, run_in_tx}
use lecrm.Sequences.Transition.{transition}
use lecrm.Sequences.Transition.Options.{
  ConfigOption, invalid_audit, with_caller, with_invalid_mode, with_reply_message_id,
}
use lecrm.Sequences.Transition.Effects.{config_of, after_transition, transition_atomic}
use lecrm.Sequences.Transition.Errors.{IsAnswered, transition_cases}
use lecrm.Sequences.Transition.Life.{
  Request, serve_all, committed, serve_all_follows, serve_all_audited,
}
use lecrm.Tests.Data.{no_faults, no_faults-Healthy, open_pool, waiting, tables, open_tx}

abbrev reply_opts : List ConfigOption
reply_opts = with_reply_message_id (codes "m1") ∷ []

abbrev audit_opts : List ConfigOption
audit_opts = with_invalid_mode invalid_audit ∷ with_caller "poller" ∷ []

abbrev reply_request : Request
reply_request = record {
  pool = open_pool;
  faults = no_faults;
  now = 40;
  id = 5;
  target = reply_received;
  reason = "replied";
  opts = reply_opts;
}

abbrev reopen_request : Request
reopen_request = record reply_request { id = 6; target = enrolled; opts = audit_opts }

transition_atomic_example :
    let r =
      run_in_tx open_pool (transition no_faults 40 5 reply_received "replied" reply_opts) tables in
    ((r.1 ≢ done) × (r.0 ≡ tables))
    ⊎ ((r.1 ≡ done)
        × ((row : Enrollment) × (lookup 5 tables.enrollments ≡ some row)
            × (state_of_text row.state ⟶ reply_received)
            × (r.0
                ≡ after_transition 40 5 reply_received "replied"
                    (config_of reply_received reply_opts)
                    row
                    tables)))
transition_atomic_example =
    transition_atomic open_pool no_faults 40 5 reply_received "replied" reply_opts tables

serve_all_follows_example :
    (row : Enrollment) × (lookup 5
        (serve_all (reply_request ∷ reopen_request ∷ []) tables).enrollments
      ≡ some row)
    × (state_of_text "waiting_reply" ⟶* state_of_text row.state)
unfolding lookup
serve_all_follows_example =
    serve_all_follows (reply_request ∷ reopen_request ∷ []) tables 5 waiting refl

serve_all_audited_example :
    length (serve_all (reply_request ∷ reopen_request ∷ []) tables).audit_log
    ≡ length tables.audit_log + committed (reply_request ∷ reopen_request ∷ []) tables
serve_all_audited_example = serve_all_audited (reply_request ∷ reopen_request ∷ []) tables

transition_cases_example :
    IsAnswered 40 6 enrolled "again"
      (config_of enrolled audit_opts)
      tables
      (transition no_faults 40 6 enrolled "again" audit_opts open_tx)
transition_cases_example =
    transition_cases no_faults no_faults-Healthy 40 6 enrolled "again" audit_opts open_tx refl

abbrev old_fields : Payload
old_fields = ("from", text "enrolled") ∷ []

abbrev new_fields : Payload
new_fields = ("from", text "step_sent") ∷ []
