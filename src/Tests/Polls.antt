-- ===== src/Tests/Polls.antt =====
-- A poll that finds a reply and moves the cursor.
use lecrm.Common.{
  nat_eq, List, true, false, none, some, [], ◌∷◌, ◌≡◌, refl, ltb, if◌then◌else◌, lookup, insert,
  update,
}
use lecrm.Common.Text.{codes, is_space, trim_left, trim_space, fields, trim_prefix, trim_suffix}
use lecrm.Sequences.Store.{Connection, Tx, statement, done}
use lecrm.Sequences.Correlate.{
  normalize_message_id, split_message_ids, add_all, add_headers, referenced_message_ids,
  index_steps, first_open, claim_replies, correlate_replies, collect_ids, collect_from,
  collect_referenced_ids,
}
use lecrm.Sequences.Mailbox.{
  scanned, HistoryClient, Deps, cursor_of, poll_mailbox, load_cursor, save_cursor, matched_rows,
  match_steps, apply_reply, apply_replies, apply_batch, rebaseline, scan_from, poll_from,
}
use lecrm.Sequences.Mailbox.Cursor.{poll_mailbox_forward}
use lecrm.Sequences.Transition.{
  transition, after_lock, apply_transition, set_clauses, transition_payload, emit_audit,
  enqueue_finalize,
}
use lecrm.Sequences.Transition.Options.{
  configure, default_config, default_event_for_state, with_reply_message_id, with_invalid_mode,
  with_caller, with_payload,
}
use lecrm.Sequences.State.{state_of_text, text_of_state, can_transition, is_terminal}
use lecrm.Sequences.Audit.{marshals, merge}
use lecrm.Common.Int.{pos}
use lecrm.Sequences.Correlate.{ReplyMatch}
use lecrm.Tests.Data.{no_faults, tables, open_tx, first_step}
use lecrm.Tests.Replies.{first_reply}

abbrev client : HistoryClient
client = record { messages_since = λ start. scanned (first_reply ∷ []) 90; watch = none }

abbrev pub deps : Deps
deps = record {
  client = some client;
  classify = λ m.
      some
        (record { category = "reply"; confidence = 1000; is_ooo = false; ooo_returns_at = none });
  finalize = none;
}

abbrev linked : Connection
linked = record {
  is_active = true;
  user_id = 2;
  email_address = "rep@example.org";
  sync_cursor = some 60;
}

abbrev pub polled_tx : Tx
polled_tx = record open_tx {
  db = record tables {
    gmail = some linked;
    steps = record first_step { rfc_message_id = some (codes "s1@lecrm") } ∷ [];
  };
}

poll_succeeds : (poll_mailbox deps no_faults 40 0 polled_tx).1 ≡ done
unfolding load_cursor save_cursor matched_rows match_steps apply_reply apply_replies apply_batch
    rebaseline scan_from poll_from poll_mailbox normalize_message_id split_message_ids add_all
    add_headers referenced_message_ids index_steps first_open claim_replies correlate_replies
    collect_ids collect_from collect_referenced_ids is_space trim_left trim_space fields trim_prefix
    trim_suffix transition after_lock apply_transition set_clauses transition_payload emit_audit
    enqueue_finalize configure default_config default_event_for_state with_reply_message_id
    with_invalid_mode with_caller with_payload state_of_text text_of_state can_transition
    is_terminal marshals merge lookup insert update statement
poll_succeeds = refl

poll_mailbox_forward_example :
    cursor_of (poll_mailbox deps no_faults 40 0 polled_tx).0.db.gmail
    ≡ some (if ltb 60 90 then 90 else 60)
poll_mailbox_forward_example =
    poll_mailbox_forward deps no_faults 40 0 60 90 client (first_reply ∷ []) polled_tx refl refl
      refl poll_succeeds

abbrev pub late_match : ReplyMatch
late_match = record {
  enrollment_id = 6;
  step_index = pos 0;
  rfc_message_id = codes "s2@lecrm";
  reply_message_id = codes "<r9@example.org>";
  message = first_reply;
}

abbrev matches : List ReplyMatch
matches = late_match ∷ record late_match { enrollment_id = 5 } ∷ []
