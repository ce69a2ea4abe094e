-- ===== src/Sequences/Mailbox.antt =====
-- The poll of a mailbox (apps/api/internal/sequences/gmailreply/worker.go, cursor.go).
-- Gmail and the classifier are parameters; logging is left out. The cursor's JSON is its number.
pub mod Cursor
pub mod Paths
use lecrm.Common.{
  ℕ, String, Bool, true, false, Option, none, some, List, [], ◌∷◌, ◌++◌, lookup, contains, nat_eq,
  codes_eq, eqb, ltb, is_empty, if◌then◌else◌, Result, ok, err,
}
use lecrm.Sequences.State.{State, state_of_text, reply_received, ooo_detected}
use lecrm.Sequences.Audit.{text, int, ratio, header}
use lecrm.Sequences.Store.{
  Step, Connection, Db, Tx, Faults, statement, Outcome, done, failed, panicked,
}
use lecrm.Sequences.Transition.{TransitionError, is_invalid_transition, transition}
use lecrm.Sequences.Transition.Options.{
  FinalizeEnqueuer, ConfigOption, invalid_audit, with_reply_message_id, with_invalid_mode,
  with_caller, with_payload, with_ooo_returns_at, with_next_action_at, with_finalize_enqueuer,
}
use lecrm.Sequences.Correlate.{
  InboundMessage, MatchedStep, ReplyMatch, correlate_replies, collect_referenced_ids,
}

-- The confidence in thousandths.
pub record Classification : Type 0 where
  pub category : String
  pub confidence : ℕ
  pub is_ooo : Bool
  pub ooo_returns_at : Option ℕ

-- What a history scan answers.
pub data Scan : Type 0 where
  scanned : List InboundMessage → ℕ → Scan
  history_gap scan_failed : Scan

-- A `HistoryClient`; a watch that fails is `none`.
pub record HistoryClient : Type 0 where
  pub messages_since : ℕ → Scan
  pub watch : Option ℕ

-- `none` is a client that cannot be built, a message that cannot be classified, no enqueuer.
pub record Deps : Type 0 where
  pub client : Option HistoryClient
  pub classify : InboundMessage → Option Classification
  pub finalize : Option FinalizeEnqueuer

pub data PollError : Type 0 where
  client_failed load_failed watch_failed save_failed no_connection : PollError
  history_failed match_failed classify_failed : PollError
  transition_failed : TransitionError → PollError

abbrev pub caller_poll_mailbox : String
caller_poll_mailbox = "gmail.poll_mailbox"

abbrev pub cursor_of : Option Connection → Option ℕ
cursor_of none = none
cursor_of (some c) = elim c.sync_cursor [
  | none ↦ none
  | some id ↦ if eqb id 0 then none else some id
]

-- `loadCursor`; `ok none` is a cursor that is not there.
unfoldable pub load_cursor : Faults → Tx → Tx × Result PollError (Option ℕ)
load_cursor faults tx =
    let (tx', queried) = statement faults (λ d. d) tx in
    (tx', if queried then ok (cursor_of tx'.db.gmail) else err load_failed)

abbrev set_cursor : ℕ → Option Connection → Option Connection
set_cursor id none = none
set_cursor id (some c) = some (record c { sync_cursor = some id })

-- `saveCursor`
unfoldable pub save_cursor : Faults → ℕ → Tx → Tx × Outcome PollError
save_cursor faults id tx =
    let (tx', written) = statement faults (λ d. record d { gmail = set_cursor id d.gmail }) tx in
    if written
    then (tx', elim tx'.db.gmail [ none ↦ failed no_connection | some _ ↦ done ])
    else (tx', failed save_failed)

abbrev is_asked : List (List ℕ) → Option (List ℕ) → Option (List ℕ)
is_asked ids none = none
is_asked ids (some id) = if contains id ids then some id else none

abbrev add_row : Db → Step → Option (List ℕ) → List MatchedStep → List MatchedStep
add_row d s none rest = rest
add_row d s (some id) rest = elim (lookup s.enrollment_id d.enrollments) [
  | none ↦ rest
  | some e ↦
      record {
        rfc_message_id = id;
        enrollment_id = s.enrollment_id;
        step_index = s.step_index;
        state = state_of_text e.state;
      }
      ∷ rest
]

-- The join of the steps that carry one of the identifiers with their enrollments.
unfoldable pub matched_rows : Db → List (List ℕ) → List Step → List MatchedStep
matched_rows d ids [] = []
matched_rows d ids (s ∷ steps) =
    add_row d s (is_asked ids s.rfc_message_id) (matched_rows d ids steps)

-- `matchSteps`
unfoldable pub match_steps : Faults → List (List ℕ) → Tx → Tx × Result PollError (List MatchedStep)
match_steps faults ids tx =
    if is_empty ids
    then (tx, ok [])
    else (let (tx', queried) = statement faults (λ d. d) tx in
        (tx', if queried then ok (matched_rows tx'.db ids tx'.db.steps) else err match_failed))

abbrev pub reply_options : ReplyMatch → Classification → List ConfigOption
reply_options m cls =
    with_reply_message_id m.reply_message_id
    ∷ with_invalid_mode invalid_audit
    ∷ with_caller caller_poll_mailbox
    ∷ with_payload (
        ("step_index", int m.step_index)
        ∷ ("reply_message_id", header m.reply_message_id)
        ∷ ("classifier_category", text cls.category)
        ∷ ("classifier_confidence", ratio cls.confidence)
        ∷ ("detector", text "gmail_push")
        ∷ [])
    ∷ []

abbrev pub return_options : Option ℕ → List ConfigOption
return_options none = []
return_options (some t) = with_ooo_returns_at t ∷ with_next_action_at t ∷ []

abbrev pub finalize_options : Option FinalizeEnqueuer → List ConfigOption
finalize_options none = []
finalize_options (some e) = with_finalize_enqueuer (some e) ∷ []

abbrev pub wrap : Tx × Outcome TransitionError → Tx × Outcome PollError
wrap (tx, done) = (tx, done)
wrap (tx, failed e) = (tx, failed (transition_failed e))
wrap (tx, panicked p) = (tx, panicked p)

-- `applyReply`
unfoldable pub apply_reply : Deps → Faults → ℕ → ReplyMatch → Tx → Tx × Outcome PollError
apply_reply deps faults now m tx = elim (deps.classify m.message) [
  | none ↦ (tx, failed classify_failed)
  | some cls ↦
      if cls.is_ooo
      then wrap (
          transition faults now m.enrollment_id ooo_detected "gmail out-of-office detected"
            (reply_options m cls ++ return_options cls.ooo_returns_at) tx)
      else wrap (
          transition faults now m.enrollment_id reply_received "gmail reply detected"
            (reply_options m cls ++ finalize_options deps.finalize) tx)
]

-- `errors.Is(err, sequences.ErrInvalidTransition)`
abbrev pub is_skipped : PollError → Bool
is_skipped (transition_failed e) = is_invalid_transition e
is_skipped _ = false

-- The loop over the matches: an illegal transition is skipped, another failure ends it.
unfoldable pub apply_replies : Deps → Faults → ℕ → List ReplyMatch → Tx → Tx × Outcome PollError
apply_replies deps faults now [] tx = (tx, done)
apply_replies deps faults now (m ∷ ms) tx =
    let applied = apply_reply deps faults now m tx in
    let rest = apply_replies deps faults now ms applied.0 in
    elim applied.1 [
      | done ↦ rest
      | failed e ↦ if is_skipped e then rest else applied
      | panicked p ↦ applied
    ]

-- The matching and the loop, for a scan that found messages.
unfoldable pub apply_batch : Deps → Faults → ℕ → List InboundMessage → Tx → Tx × Outcome PollError
apply_batch deps faults now msgs tx =
    if is_empty msgs
    then (tx, done)
    else (let (tx', matched) = match_steps faults (collect_referenced_ids msgs) tx in
        elim matched [
          | err e ↦ (tx', failed e)
          | ok rows ↦ apply_replies deps faults now (correlate_replies msgs rows) tx'
        ])

-- The cursor only moves forward.
abbrev pub advance : Faults → ℕ → ℕ → Tx × Outcome PollError → Tx × Outcome PollError
advance faults start latest (tx, done) =
    if ltb start latest then save_cursor faults latest tx else (tx, done)
advance faults start latest (tx, failed e) = (tx, failed e)
advance faults start latest (tx, panicked p) = (tx, panicked p)

-- `rebaseline`, and the first baseline of a mailbox.
unfoldable pub rebaseline : Faults → HistoryClient → Tx → Tx × Outcome PollError
rebaseline faults client tx = elim client.watch [
  | none ↦ (tx, failed watch_failed)
  | some id ↦ save_cursor faults id tx
]

-- What follows the scan from `start`.
unfoldable pub scan_from : Deps → Faults → ℕ → HistoryClient → ℕ → Tx → Tx × Outcome PollError
scan_from deps faults now client start tx = elim (client.messages_since start) [
  | history_gap ↦ rebaseline faults client tx
  | scan_failed ↦ (tx, failed history_failed)
  | scanned msgs latest ↦ advance faults start latest (apply_batch deps faults now msgs tx)
]

unfoldable pub poll_from :
    Deps → Faults → ℕ → ℕ → HistoryClient → Option ℕ → Tx → Tx × Outcome PollError
poll_from deps faults now history_id client (some start) tx =
    scan_from deps faults now client start tx
poll_from deps faults now history_id client none tx =
    if eqb history_id 0
    then rebaseline faults client tx
    else scan_from deps faults now client history_id tx

-- `pollMailbox`
unfoldable pub poll_mailbox : Deps → Faults → ℕ → ℕ → Tx → Tx × Outcome PollError
poll_mailbox deps faults now history_id tx = elim deps.client [
  | none ↦ (tx, failed client_failed)
  | some client ↦
      let (tx', loaded) = load_cursor faults tx in
      elim loaded [
        | err e ↦ (tx', failed e)
        | ok start ↦ poll_from deps faults now history_id client start tx'
      ]
]
