-- ===== src/Sequences/State/Listing.antt =====
-- The states that can follow a state, in the order of their names
-- (apps/api/internal/sequences/state.go: AllowedTransitions).
use lecrm.Common.{
  ℕ, Bool, true, false, ◌&&◌, ◌||◌, List, [], ◌∷◌, any, ◌==◌, nat_eq, ltb, ◌≡◌, refl, ◌∙◌, ap,
  arith, if◌then◌else◌,
}
use lecrm.Common.Text.{codes}
use lecrm.Sequences.State.{
  State, state_eq, text_of_state, enrolled, step_sent, waiting_reply, failed, bounced, unsubscribed,
  completed, reply_received, ooo_detected, legal_transitions, can_transition,
}

-- `<` on texts.
unfoldable text_lt : List ℕ → List ℕ → Bool
text_lt [] [] = false
text_lt [] (b ∷ bs) = true
text_lt (a ∷ rest) [] = false
text_lt (a ∷ rest) (b ∷ bs) = let later = text_lt rest bs in ltb a b || (a == b && later)

abbrev state_lt : State → State → Bool
state_lt s t = text_lt (codes (text_of_state s)) (codes (text_of_state t))

unfoldable place : State → List State → List State
place s [] = s ∷ []
place s (t ∷ states) =
    let rest = place s states in if state_lt t s then t ∷ rest else s ∷ t ∷ states

-- `sort.Slice`, on states with different names.
unfoldable sort_states : List State → List State
sort_states [] = []
sort_states (s ∷ states) = place s (sort_states states)

-- `AllowedTransitions`
abbrev allowed_transitions : State → List State
allowed_transitions source = sort_states (legal_transitions source)

any-place :
    (test : State → Bool) (s : State) (states : List State)
    → any test (place s states) ≡ (test s || any test states)
unfolding place
any-place test s [] = refl
any-place test s (t ∷ states) = ground (arith, any-place test s states)

any-sort_states :
    (test : State → Bool) (states : List State) → any test (sort_states states) ≡ any test states
unfolding sort_states
any-sort_states test [] = refl
any-sort_states test (s ∷ states) =
    any-place test s (sort_states states) ∙ ap (λ b. test s || b) (any-sort_states test states)

-- The listing has exactly the states that `CanTransition` lets follow.
any-allowed_transitions :
    (source target : State)
    → any (λ allowed. allowed == target) (allowed_transitions source) ≡ can_transition source target
unfolding can_transition
any-allowed_transitions source target =
    any-sort_states (λ allowed. allowed == target) (legal_transitions source)

step_sent_listed :
    allowed_transitions step_sent ≡ bounced ∷ completed ∷ failed ∷ unsubscribed ∷ waiting_reply ∷ []
unfolding sort_states place text_lt text_of_state
step_sent_listed = refl

waiting_reply_listed :
    allowed_transitions waiting_reply ≡ completed ∷ enrolled ∷ ooo_detected ∷ reply_received ∷ []
unfolding sort_states place text_lt text_of_state
waiting_reply_listed = refl
