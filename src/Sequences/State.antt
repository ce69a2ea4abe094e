-- ===== src/Sequences/State.antt =====
-- The lifecycle of an enrollment (apps/api/internal/sequences/state.go).
-- A Go `State` is any string. `undeclared s` stands for a string that is none of the ten names.
pub mod Graph
mod Listing
use lecrm.Common.{
  String, Bool, true, false, List, [], ◌∷◌, any, Eq, ◌==◌, ◌≡◌, ◌↔◌, refl, arith, if◌then◌else◌,
  eq_iff, beq_refl, string_eq,
}

pub data State : Type 0 where
  enrolled step_sent waiting_reply reply_received ooo_detected : State
  failed bounced unsubscribed suppressed completed : State
  undeclared : String → State

-- `string(s)`.
unfoldable pub text_of_state : State → String
text_of_state enrolled = "enrolled"
text_of_state step_sent = "step_sent"
text_of_state waiting_reply = "waiting_reply"
text_of_state reply_received = "reply_received"
text_of_state ooo_detected = "ooo_detected"
text_of_state failed = "failed"
text_of_state bounced = "bounced"
text_of_state unsubscribed = "unsubscribed"
text_of_state suppressed = "suppressed"
text_of_state completed = "completed"
text_of_state (undeclared s) = s

-- `State(s)`, the conversion of the text that the column holds.
unfoldable pub state_of_text : String → State
state_of_text s =
    if s == "enrolled"
    then enrolled
    else if s == "step_sent"
    then step_sent
    else if s == "waiting_reply"
    then waiting_reply
    else if s == "reply_received"
    then reply_received
    else if s == "ooo_detected"
    then ooo_detected
    else if s == "failed"
    then failed
    else if s == "bounced"
    then bounced
    else if s == "unsubscribed"
    then unsubscribed
    else if s == "suppressed"
    then suppressed
    else if s == "completed"
    then completed
    else undeclared s

-- `==` on states.
abbrev pub state_beq : State → State → Bool
state_beq enrolled enrolled = true
state_beq step_sent step_sent = true
state_beq waiting_reply waiting_reply = true
state_beq reply_received reply_received = true
state_beq ooo_detected ooo_detected = true
state_beq failed failed = true
state_beq bounced bounced = true
state_beq unsubscribed unsubscribed = true
state_beq suppressed suppressed = true
state_beq completed completed = true
state_beq (undeclared s) (undeclared t) = s == t
state_beq _ _ = false

state_beq_sound : (s t : State) → state_beq s t ≡ true → s ≡ t
state_beq_sound enrolled t h = ground arith
state_beq_sound step_sent t h = ground arith
state_beq_sound waiting_reply t h = ground arith
state_beq_sound reply_received t h = ground arith
state_beq_sound ooo_detected t h = ground arith
state_beq_sound failed t h = ground arith
state_beq_sound bounced t h = ground arith
state_beq_sound unsubscribed t h = ground arith
state_beq_sound suppressed t h = ground arith
state_beq_sound completed t h = ground arith
state_beq_sound (undeclared s) (undeclared t) h = ground (arith, eq_iff s t)
state_beq_sound (undeclared s) t h = ground arith

state_beq_self : (s : State) → state_beq s s ≡ true
state_beq_self (undeclared s) = beq_refl s
state_beq_self enrolled = refl
state_beq_self s = refl

state_beq_complete : (s t : State) → s ≡ t → state_beq s t ≡ true
state_beq_complete s t p = rw (← p) (state_beq_self s)

pub state_beq_iff : (s t : State) → (state_beq s t ≡ true) ↔ (s ≡ t)
state_beq_iff s t = (state_beq_sound s t, state_beq_complete s t)

instance abbrev pub state_eq : Eq State
state_eq = record { same_iff = state_beq_iff; same = state_beq }

abbrev pub all_states : List State
all_states =
    enrolled ∷ step_sent ∷ waiting_reply ∷ reply_received ∷ ooo_detected ∷ failed ∷ bounced
    ∷ unsubscribed ∷ suppressed ∷ completed ∷ []

-- The keys of the map `terminalStates`.
abbrev pub terminal_states : List State
terminal_states = reply_received ∷ failed ∷ bounced ∷ unsubscribed ∷ suppressed ∷ completed ∷ []

-- A state that the map does not have is absent, with no edges.
abbrev pub legal_transitions : State → List State
legal_transitions enrolled = step_sent ∷ suppressed ∷ failed ∷ []
legal_transitions step_sent = waiting_reply ∷ bounced ∷ unsubscribed ∷ failed ∷ completed ∷ []
legal_transitions waiting_reply = reply_received ∷ ooo_detected ∷ enrolled ∷ completed ∷ []
legal_transitions ooo_detected = enrolled ∷ completed ∷ []
legal_transitions _ = []

unfoldable pub valid : State → Bool
valid s = any (λ k. s == k) all_states

unfoldable pub is_terminal : State → Bool
is_terminal s = any (λ k. s == k) terminal_states

unfoldable pub can_transition : State → State → Bool
can_transition source target = any (λ allowed. allowed == target) (legal_transitions source)
