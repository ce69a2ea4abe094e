-- ===== src/Sequences/Correlate.antt =====
-- Which reply belongs to which step (apps/api/internal/sequences/gmailreply/correlate.go).
-- A header is a list of code points. The set `seen` and the list `out` of the source hold the same
-- identifiers, so that one list stands for both.
pub mod Matches
pub mod Complete
pub mod Collect
use lecrm.Common.{
  ℕ, Bool, true, false, not, Option, none, some, List, [], ◌∷◌, ◌++◌, ◌==◌, nat_eq, codes_eq, eqb,
  is_empty, lookup, contains, if◌then◌else◌,
}
use lecrm.Common.Int.{ℤ}
use lecrm.Common.Text.{trim_space, fields, trim_prefix, trim_suffix}
use lecrm.Sequences.State.{State, waiting_reply, state_eq}

pub record InboundMessage : Type 0 where
  pub gmail_message_id : List ℕ
  pub rfc822_message_id : List ℕ
  pub in_reply_to : List ℕ
  pub references : List (List ℕ)
  pub source : List ℕ
  pub subject : List ℕ
  pub snippet : List ℕ

-- `NormalizeMessageID`
unfoldable pub normalize_message_id : List ℕ → List ℕ
normalize_message_id s = trim_space (trim_suffix b'>' (trim_prefix b'<' (trim_space s)))

-- `splitMessageIDs`
unfoldable pub split_message_ids : List ℕ → List (List ℕ)
split_message_ids raw = if is_empty raw then [] else fields raw

-- One identifier after those that are there.
abbrev pub add_id : List (List ℕ) → List ℕ → List (List ℕ)
add_id out id = if is_empty id then out else if contains id out then out else out ++ id ∷ []

unfoldable pub add_all : List (List ℕ) → List (List ℕ) → List (List ℕ)
add_all out [] = out
add_all out (raw ∷ ids) = add_all (add_id out (normalize_message_id raw)) ids

unfoldable pub add_headers : List (List ℕ) → List (List ℕ) → List (List ℕ)
add_headers out [] = out
add_headers out (raw ∷ headers) = add_headers (add_all out (split_message_ids raw)) headers

-- `ReferencedMessageIDs`
unfoldable pub referenced_message_ids : InboundMessage → List (List ℕ)
referenced_message_ids m = add_headers (add_all [] (split_message_ids m.in_reply_to)) m.references

pub record MatchedStep : Type 0 where
  pub rfc_message_id : List ℕ
  pub enrollment_id : ℕ
  pub step_index : ℤ
  pub state : State

pub record ReplyMatch : Type 0 where
  pub enrollment_id : ℕ
  pub step_index : ℤ
  pub rfc_message_id : List ℕ
  pub reply_message_id : List ℕ
  pub message : InboundMessage

abbrev pub Index : Type 0
Index = List (List ℕ × MatchedStep)

-- The row goes in unless its key is empty or taken.
abbrev pub index_step : Index → MatchedStep → Index
index_step index s =
    let key = normalize_message_id s.rfc_message_id in
    if is_empty key
    then index
    else elim (lookup key index) [ none ↦ index ++ (key, s) ∷ [] | some _ ↦ index ]

-- `byMsgID`
unfoldable pub index_steps : Index → List MatchedStep → Index
index_steps index [] = index
index_steps index (s ∷ steps) = index_steps (index_step index s) steps

-- A row that a message may claim.
abbrev pub is_open : List ℕ → MatchedStep → Bool
is_open claimed step =
    if step.state == waiting_reply then not (contains step.enrollment_id claimed) else false

-- The inner loop: the first reference to an open row.
unfoldable pub first_open : Index → List ℕ → List (List ℕ) → Option MatchedStep
first_open index claimed [] = none
first_open index claimed (ref ∷ refs) =
    let rest = first_open index claimed refs in
    elim (lookup ref index) [
      | none ↦ rest
      | some step ↦ if is_open claimed step then some step else rest
    ]

abbrev pub reply_match : MatchedStep → InboundMessage → ReplyMatch
reply_match step msg = record {
  enrollment_id = step.enrollment_id;
  step_index = step.step_index;
  rfc_message_id = step.rfc_message_id;
  reply_message_id = msg.rfc822_message_id;
  message = msg;
}

-- The outer loop.
unfoldable pub claim_replies : Index → List ℕ → List InboundMessage → List ReplyMatch
claim_replies index claimed [] = []
claim_replies index claimed (msg ∷ msgs) =
    elim (first_open index claimed (referenced_message_ids msg)) [
      | none ↦ claim_replies index claimed msgs
      | some step ↦ reply_match step msg ∷ claim_replies index (step.enrollment_id ∷ claimed) msgs
    ]

-- `correlateReplies`
unfoldable pub correlate_replies : List InboundMessage → List MatchedStep → List ReplyMatch
correlate_replies msgs matched = claim_replies (index_steps [] matched) [] msgs

unfoldable pub collect_ids : List (List ℕ) → List (List ℕ) → List (List ℕ)
collect_ids out [] = out
collect_ids out (id ∷ ids) = collect_ids (if contains id out then out else out ++ id ∷ []) ids

unfoldable pub collect_from : List (List ℕ) → List InboundMessage → List (List ℕ)
collect_from out [] = out
collect_from out (m ∷ msgs) = collect_from (collect_ids out (referenced_message_ids m)) msgs

-- `collectReferencedIDs`
unfoldable pub collect_referenced_ids : List InboundMessage → List (List ℕ)
collect_referenced_ids msgs = collect_from [] msgs
