-- ===== src/Sequences/Correlate/Matches.antt =====
-- What the matches of a batch of replies have in common.
use lecrm.Common.{
  ℕ, true, false, Option, none, some, List, [], ◌∷◌, ◌==◌, nat_eq, codes_eq, is_empty, lookup,
  lookup-append_one, or_else, contains, if◌then◌else◌, ◌≡◌, ◌⊎◌, inl, inr, refl, sym, ◌∙◌, arith,
  All, codes_beq_iff, Option-cases, Bool-cases,
}
use lecrm.Sequences.State.{waiting_reply, state_eq, state_beq_iff}
use lecrm.Sequences.Correlate.{
  InboundMessage, MatchedStep, ReplyMatch, Index, normalize_message_id, referenced_message_ids,
  index_step, index_steps, is_open, first_open, reply_match, claim_replies, correlate_replies,
}

infix 40 ◌∈◌
abbrev pub ◌∈◌ : {A : Type 0} → A → List A → Type 0
x ∈ [] = ⊥
x ∈ (y ∷ ys) = (x ≡ y) ⊎ (x ∈ ys)

-- No enrollment is claimed twice, nor one that was claimed before.
abbrev pub IsOnce : List ℕ → List ReplyMatch → Type 0
IsOnce claimed [] = Unit
IsOnce claimed (r ∷ rs) =
    (contains r.enrollment_id claimed ≡ false) × IsOnce (r.enrollment_id ∷ claimed) rs

pub first_open-found :
    (index : Index) (claimed : List ℕ) (refs : List (List ℕ)) (step : MatchedStep)
    → first_open index claimed refs ≡ some step
    → (is_open claimed step ≡ true)
      × ((ref : List ℕ) × (contains ref refs ≡ true) × (lookup ref index ≡ some step))
unfolding first_open
first_open-found index claimed [] step h = ground arith
first_open-found index claimed (ref ∷ refs) step h = elim (Option-cases (lookup ref index)) [
  | inl missing ↦
      let (opened, (r, among, at)) =
        first_open-found index claimed refs step (rw (missing, first_open) at h) in
      (opened, (r, ground arith, at))
  | inr (found, at) ↦ elim (Bool-cases (is_open claimed found)) [
    | inl opened ↦
        let same : some found ≡ some step = rw (at, opened, first_open) at h in
        (ground arith, (ref, ground (arith, codes_beq_iff ref ref), ground arith))
    | inr shut ↦
        let (opened, (r, among, at')) =
          first_open-found index claimed refs step (rw (at, shut, first_open) at h) in
        (opened, (r, ground arith, at'))
  ]
]

module _ (index : Index) (claimed : List ℕ) (msg : InboundMessage)
    (msgs : List InboundMessage) where
  pub claim_replies-unmatched :
      first_open index claimed (referenced_message_ids msg) ≡ none
      → claim_replies index claimed (msg ∷ msgs) ≡ claim_replies index claimed msgs
  unfolding claim_replies
  claim_replies-unmatched e = rw (e, claim_replies)

  pub claim_replies-matched :
      (step : MatchedStep)
      → first_open index claimed (referenced_message_ids msg) ≡ some step
      → claim_replies index claimed (msg ∷ msgs)
        ≡ reply_match step msg ∷ claim_replies index (step.enrollment_id ∷ claimed) msgs
  unfolding claim_replies
  claim_replies-matched step e = rw (e, claim_replies)

is_open-parts :
    (claimed : List ℕ) (step : MatchedStep)
    → is_open claimed step ≡ true
    → (step.state ≡ waiting_reply) × (contains step.enrollment_id claimed ≡ false)
is_open-parts claimed step h = ground (arith, state_beq_iff step.state waiting_reply)

claim_replies-nil : (index : Index) (claimed : List ℕ) → claim_replies index claimed [] ≡ []
unfolding claim_replies
claim_replies-nil index claimed = refl

claim_replies-IsOnce :
    (index : Index) (claimed : List ℕ) (msgs : List InboundMessage)
    → IsOnce claimed (claim_replies index claimed msgs)
claim_replies-IsOnce index claimed [] = rw (claim_replies-nil index claimed) tt
claim_replies-IsOnce index claimed (msg ∷ msgs) =
    elim (Option-cases (first_open index claimed (referenced_message_ids msg))) [
      | inl closed ↦
          rw (claim_replies-unmatched index claimed msg msgs closed)
            (claim_replies-IsOnce index claimed msgs)
      | inr (step, found) ↦
          let (opened, _) =
            first_open-found index claimed (referenced_message_ids msg) step found in
          rw (claim_replies-matched index claimed msg msgs step found) (
            (is_open-parts claimed step opened).1,
            claim_replies-IsOnce index (step.enrollment_id ∷ claimed) msgs,
          )
    ]

-- The first row with the identifier `key`, rows with an empty identifier left aside.
unfoldable pub first_row : List ℕ → List MatchedStep → Option MatchedStep
first_row key [] = none
first_row key (s ∷ steps) =
    let rest = first_row key steps in
    let id = normalize_message_id s.rfc_message_id in
    if is_empty id then rest else if id == key then some s else rest

lookup-index_step :
    (key : List ℕ) (index : Index) (s : MatchedStep)
    → lookup key (index_step index s) ≡ or_else (lookup key index) (first_row key (s ∷ []))
unfolding first_row
lookup-index_step key index s =
    let id = normalize_message_id s.rfc_message_id in
    ground (arith, lookup-append_one id key s index, codes_beq_iff id key)

lookup-index_steps :
    (key : List ℕ) (index : Index) (steps : List MatchedStep)
    → lookup key (index_steps index steps) ≡ or_else (lookup key index) (first_row key steps)
unfolding index_steps first_row
lookup-index_steps key index [] = ground arith
lookup-index_steps key index (s ∷ steps) =
    ground (arith, lookup-index_steps key (index_step index s) steps, lookup-index_step key index s)

-- The index finds the first row.
pub lookup_first :
    (key : List ℕ) (matched : List MatchedStep)
    → lookup key (index_steps [] matched) ≡ first_row key matched
unfolding lookup
lookup_first key matched = lookup-index_steps key [] matched

-- `r` answers a message of the batch: it names the enrollment, the step and the identifier of the
-- first row that one of the message's references leads to, beside the message's own identifier, and
-- that enrollment was waiting.
abbrev pub IsAnswer : (List ℕ → Option MatchedStep) → List InboundMessage → ReplyMatch → Type 0
IsAnswer find msgs r =
    (r.message ∈ msgs)
    × ((step : MatchedStep) × (ref : List ℕ) × (contains ref (referenced_message_ids r.message)
          ≡ true)
        × (find ref ≡ some step)
        × (step.state ≡ waiting_reply)
        × (r.enrollment_id ≡ step.enrollment_id)
        × (r.step_index ≡ step.step_index)
        × (r.rfc_message_id ≡ step.rfc_message_id)
        × (r.reply_message_id ≡ r.message.rfc822_message_id))

pub All-map :
    {A : Type 0} {P Q : A → Type 0} (xs : List A) → ((x : A) → P x → Q x) → All P xs → All Q xs
All-map [] f h = tt
All-map (x ∷ xs) f h = (f x h.0, All-map xs f h.1)

claim_replies-IsAnswer :
    (index : Index) (claimed : List ℕ) (msgs : List InboundMessage)
    → All (IsAnswer (λ ref. lookup ref index) msgs) (claim_replies index claimed msgs)
claim_replies-IsAnswer index claimed [] = rw (claim_replies-nil index claimed) tt
claim_replies-IsAnswer index claimed (msg ∷ msgs) =
    elim (Option-cases (first_open index claimed (referenced_message_ids msg))) [
      | inl closed ↦ rw (claim_replies-unmatched index claimed msg msgs closed) (
          All-map (claim_replies index claimed msgs) (λ r h. (inr h.0, h.1))
            (claim_replies-IsAnswer index claimed msgs))
      | inr (step, found) ↦
          let (opened, (ref, among, at)) =
            first_open-found index claimed (referenced_message_ids msg) step found in
          rw (claim_replies-matched index claimed msg msgs step found) (
            (
              inl refl,
              (step, ref, among, at, (is_open-parts claimed step opened).0, refl, refl, refl, refl),
            ),
            All-map (claim_replies index (step.enrollment_id ∷ claimed) msgs)
                (λ r h. (inr h.0, h.1))
                (claim_replies-IsAnswer index (step.enrollment_id ∷ claimed) msgs),
          )
    ]

-- Of the batch, no two matches are of one enrollment.
correlate_replies-IsOnce :
    (msgs : List InboundMessage) (matched : List MatchedStep)
    → IsOnce [] (correlate_replies msgs matched)
unfolding correlate_replies
correlate_replies-IsOnce msgs matched = claim_replies-IsOnce (index_steps [] matched) [] msgs

-- Every match answers a message of the batch: a reference of the message leads to a row whose
-- enrollment was waiting for a reply, and the match names that row's enrollment, step and identifier,
-- and the message's own identifier as that of the reply.
pub correlate_replies-IsAnswer :
    (msgs : List InboundMessage) (matched : List MatchedStep)
    → All (IsAnswer (λ ref. first_row ref matched) msgs) (correlate_replies msgs matched)
unfolding correlate_replies
correlate_replies-IsAnswer msgs matched =
    All-map (correlate_replies msgs matched)
      (λ r h.
        let (among, (step, ref, referenced, at, waiting, enrollment, index, stored, own)) = h in
        (
          among,
          (
            step,
            ref,
            referenced,
            sym (lookup_first ref matched) ∙ at,
            waiting,
            enrollment,
            index,
            stored,
            own,
          ),
        ))
      (claim_replies-IsAnswer (index_steps [] matched) [] msgs)
