-- ===== src/Tests/Replies.antt =====
-- Two replies to one step, the second of which is late.
use lecrm.Common.{List, [], ◌∷◌, All, codes_eq}
use lecrm.Common.Int.{pos}
use lecrm.Common.Text.{codes}
use lecrm.Sequences.State.{waiting_reply}
use lecrm.Sequences.Correlate.{InboundMessage, MatchedStep, correlate_replies}
use lecrm.Sequences.Correlate.Matches.{IsAnswer, first_row, correlate_replies-IsAnswer}
use lecrm.Sequences.Correlate.Complete.{IsServed, correlate_replies-IsServed}

abbrev pub first_reply : InboundMessage
first_reply = record {
  gmail_message_id = codes "g1";
  rfc822_message_id = codes "<r1@example.org>";
  in_reply_to = codes " <s1@lecrm> ";
  references = codes "<s0@lecrm> <s1@lecrm>" ∷ [];
  source = codes "ann@example.org";
  subject = codes "Re: hello";
  snippet = codes "Thanks";
}

abbrev second_reply : InboundMessage
second_reply = record first_reply { rfc822_message_id = codes "<r2@example.org>" }

abbrev sent_step : MatchedStep
sent_step = record {
  rfc_message_id = codes "s1@lecrm";
  enrollment_id = 5;
  step_index = pos 0;
  state = waiting_reply;
}

abbrev batch : List InboundMessage
batch = first_reply ∷ second_reply ∷ []

correlate_replies-IsAnswer_example :
    All
      (IsAnswer (λ ref. first_row ref (sent_step ∷ [])) batch)
      (correlate_replies batch (sent_step ∷ []))
correlate_replies-IsAnswer_example = correlate_replies-IsAnswer batch (sent_step ∷ [])

correlate_replies-IsServed_example :
    All
      (IsServed
        (λ ref. first_row ref (sent_step ∷ []))
        []
        (correlate_replies batch (sent_step ∷ [])))
      batch
correlate_replies-IsServed_example = correlate_replies-IsServed batch (sent_step ∷ [])
