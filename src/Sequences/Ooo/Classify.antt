-- ===== src/Sequences/Ooo/Classify.antt =====
-- The classifier in two stages (classify.go) and its place in the poll (gmailreply/ooo_classifier.go).
-- A search for a business day that ran out of fuel would give no moment at all; Business shows that
-- none does.
use lecrm.Common.{ℕ, String, Bool, true, false, Option, none, some, if◌then◌else◌, Result, ok, err}
use lecrm.Common.Int.{pos, ℤ}
use lecrm.Calendar.{Time, instant}
use lecrm.Sequences.Ooo.Dates.{Patterns, parse_text, add_business_days}
use lecrm.Sequences.Ooo.Rules.{
  ReplyBody, Rules, Verdict, verdict_reply, verdict_ooo, verdict_ambiguous,
  ambiguous_reply_confidence, whole_text, evaluate,
}
use lecrm.Sequences.Correlate.{InboundMessage}
use lecrm.Sequences.Mailbox.{Classification}

pub data Category : Type 0 where
  category_reply category_ooo : Category

pub record OooReturnDate : Type 0 where
  pub time : Option Time
  pub parsed : Bool

-- The zero value.
abbrev pub no_return_date : OooReturnDate
no_return_date = record { time = none; parsed = false }

-- `ClassifyOOO` of the second stage: whether it is an out-of-office reply, and how surely.
abbrev pub LlmClassifier : Type 0
LlmClassifier = ReplyBody → Result String (Bool × ℕ)

pub record Engine : Type 0 where
  pub rules : Rules
  pub patterns : Patterns
  pub llm : Option LlmClassifier
  pub now : Time

-- What `Classify` returns, its error last.
pub record Answer : Type 0 where
  pub category : Category
  pub confidence : ℕ
  pub return_date : OooReturnDate
  pub error : Option String

abbrev pub default_business_days : ℤ
default_business_days = pos 5

-- `ParseReturnDate`
unfoldable pub parse_return_date : Patterns → ReplyBody → Time → Option Time
parse_return_date patterns body now = parse_text patterns (whole_text body) now

abbrev pub return_from : Time → Option Time → OooReturnDate
return_from now (some t) = record { time = some t; parsed = true }
return_from now none = record { time = add_business_days now default_business_days; parsed = false }

-- `returnDate`
unfoldable pub return_date : Engine → ReplyBody → OooReturnDate
return_date e body = return_from e.now (parse_return_date e.patterns body e.now)

abbrev as_reply : ℕ → Answer
as_reply confidence = record {
  category = category_reply;
  confidence = confidence;
  return_date = no_return_date;
  error = none;
}

abbrev as_ooo : ℕ → OooReturnDate → Answer
as_ooo confidence date = record {
  category = category_ooo;
  confidence = confidence;
  return_date = date;
  error = none;
}

-- What the second stage's answer comes to.
abbrev pub from_llm : Engine → ReplyBody → Result String (Bool × ℕ) → Answer
from_llm e body (err why) = record (as_reply 0) { error = some why }
from_llm e body (ok (is_ooo, confidence)) =
    if is_ooo then as_ooo confidence (return_date e body) else as_reply confidence

abbrev pub second_stage : Engine → ReplyBody → Option LlmClassifier → Answer
second_stage e body none = as_reply ambiguous_reply_confidence
second_stage e body (some llm) = from_llm e body (llm body)

abbrev pub by_verdict : Engine → ReplyBody → ℕ → Verdict → Answer
by_verdict e body confidence verdict_ooo = as_ooo confidence (return_date e body)
by_verdict e body confidence verdict_reply = as_reply confidence
by_verdict e body confidence verdict_ambiguous = second_stage e body e.llm

-- `Engine.Classify`
unfoldable pub classify : Engine → ReplyBody → Answer
classify e body = let v = evaluate e.rules body in by_verdict e body v.confidence v.verdict

abbrev text_of_category : Category → String
text_of_category category_reply = "reply"
text_of_category category_ooo = "ooo"

abbrev is_ooo_category : Category → Bool
is_ooo_category category_reply = false
is_ooo_category category_ooo = true

abbrev instant_of : Option Time → Option ℕ
instant_of none = none
instant_of (some t) = some (instant t)

abbrev pub body_of : InboundMessage → ReplyBody
body_of m = record { sender = m.source; subject = m.subject; body = m.snippet }

abbrev pub classification : Answer → Classification
classification a = record {
  category = text_of_category a.category;
  confidence = a.confidence;
  is_ooo = is_ooo_category a.category;
  ooo_returns_at = if is_ooo_category a.category then instant_of a.return_date.time else none;
}

abbrev pub unless_failed : Option String → Answer → Option Classification
unless_failed none a = some (classification a)
unless_failed (some why) a = none

-- `oooAdapter.Classify`; `none` is an error.
unfoldable pub adapted : Engine → InboundMessage → Option Classification
adapted e m = let a = classify e (body_of m) in unless_failed a.error a
