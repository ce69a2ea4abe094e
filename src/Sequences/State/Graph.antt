-- ===== src/Sequences/State/Graph.antt =====
-- The diagram of the lifecycle, and what holds of every path through it.
use lecrm.Common.{true, false, ◌≡◌, ◌↔◌, refl, arith, String, eq_iff}
use lecrm.Sequences.State.{
  State, enrolled, step_sent, waiting_reply, reply_received, ooo_detected, failed, bounced,
  unsubscribed, suppressed, completed, undeclared, text_of_state, state_of_text, valid, is_terminal,
  can_transition,
}

-- The state diagram as a relation.
infix 40 ◌⟶◌ ◌⟶*◌
pub data ◌⟶◌ : State → State → Type 0 where
  send : enrolled ⟶ step_sent
  suppress : enrolled ⟶ suppressed
  give_up : enrolled ⟶ failed
  await : step_sent ⟶ waiting_reply
  bounce : step_sent ⟶ bounced
  leave : step_sent ⟶ unsubscribed
  break : step_sent ⟶ failed
  end : step_sent ⟶ completed
  answer : waiting_reply ⟶ reply_received
  away : waiting_reply ⟶ ooo_detected
  next_step : waiting_reply ⟶ enrolled
  expire : waiting_reply ⟶ completed
  resume : ooo_detected ⟶ enrolled
  conclude : ooo_detected ⟶ completed

pub data ◌⟶*◌ : State → State → Type 0 where
  here : {s : State} → s ⟶* s
  step : {s t u : State} → s ⟶ t → t ⟶* u → s ⟶* u

ruleset edges = (
  send, suppress, give_up, await, bounce, leave, break, end, answer, away, next_step, expire,
  resume, conclude,
)

pub can_transition-⟶ : (s t : State) → can_transition s t ≡ true → s ⟶ t
unfolding can_transition
can_transition-⟶ s t h = grind (arith, edges)

pub ⟶-can_transition : {s t : State} → s ⟶ t → can_transition s t ≡ true
unfolding can_transition
⟶-can_transition send = refl
⟶-can_transition _ = refl

-- `CanTransition` decides the diagram: it is true exactly on the edges.
can_transition_iff : (s t : State) → (can_transition s t ≡ true) ↔ (s ⟶ t)
can_transition_iff s t = (can_transition-⟶ s t, ⟶-can_transition)

-- Both ends of an edge are declared, and the source is not terminal.
pub can_transition-declared :
    (s t : State)
    → can_transition s t ≡ true
    → (valid s ≡ true) × (valid t ≡ true) × (is_terminal s ≡ false)
unfolding can_transition valid is_terminal
can_transition-declared s t h = ground arith

-- A declared state is terminal exactly when no state can follow it.
is_terminal_iff :
    (s : State)
    → valid s ≡ true
    → (is_terminal s ≡ true) ↔ ((t : State) → can_transition s t ≡ false)
unfolding can_transition valid is_terminal
is_terminal_iff enrolled v = ((λ h. ground arith), λ h. cc (h step_sent))
is_terminal_iff step_sent v = ((λ h. ground arith), λ h. cc (h waiting_reply))
is_terminal_iff waiting_reply v = ((λ h. ground arith), λ h. cc (h completed))
is_terminal_iff ooo_detected v = ((λ h. ground arith), λ h. cc (h enrolled))
is_terminal_iff (undeclared s) v = ground arith
is_terminal_iff _ v = ((λ _ _. refl), λ _. refl)

-- A path that has reached a terminal state goes no further.
pub terminal_absorbs : {s t : State} → is_terminal s ≡ true → s ⟶* t → t ≡ s
unfolding is_terminal
terminal_absorbs h here = refl
terminal_absorbs h (step send r) = ground arith
terminal_absorbs h (step _ r) = ground arith

-- A reply is only ever received out of the reply window.
pub reply_needs_window : {s : State} → s ⟶ reply_received → s ≡ waiting_reply
reply_needs_window answer = refl

-- No declared state is stuck: each is terminal or has a path to a terminal state.
terminal_reachable : (s : State) → valid s ≡ true → (t : State) × (s ⟶* t) × (is_terminal t ≡ true)
unfolding valid is_terminal
terminal_reachable enrolled v = (failed, search (here, step, edges), refl)
terminal_reachable step_sent v = (completed, search (here, step, edges), refl)
terminal_reachable waiting_reply v = (completed, search (here, step, edges), refl)
terminal_reachable ooo_detected v = (completed, search (here, step, edges), refl)
terminal_reachable (undeclared s) v = absurd (ground arith)
terminal_reachable s v = (s, here, refl)

-- A state survives being written to the column and read back.
pub state_of_text-text_of_state : (s : State) → valid s ≡ true → state_of_text (text_of_state s) ≡ s
unfolding state_of_text text_of_state valid
state_of_text-text_of_state (undeclared s) v = absurd (ground arith)
state_of_text-text_of_state enrolled v = refl
state_of_text-text_of_state s v = refl

-- Writing back what was read gives the same text, also for a text that names no declared state.
text_of_state-state_of_text : (s : String) → text_of_state (state_of_text s) ≡ s
unfolding state_of_text text_of_state
text_of_state-state_of_text s = ground (
  arith,
  eq_iff s "enrolled",
  eq_iff s "step_sent",
  eq_iff s "waiting_reply",
  eq_iff s "reply_received",
  eq_iff s "ooo_detected",
  eq_iff s "failed",
  eq_iff s "bounced",
  eq_iff s "unsubscribed",
  eq_iff s "suppressed",
  eq_iff s "completed",
)
