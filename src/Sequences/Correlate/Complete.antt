-- ===== src/Sequences/Correlate/Complete.antt =====
-- No reply to an open enrollment is passed over.
use lecrm.Common.{
  ℕ, Bool, true, false, ◌||◌, Option, none, some, List, [], ◌∷◌, ◌==◌, nat_eq, codes_eq, lookup,
  any, contains, if◌then◌else◌, ◌≡◌, ◌⊎◌, inl, inr, refl, sym, arith, All, Option-cases, Bool-cases,
}
use mathlib.Core.Path.{subst}
use lecrm.Sequences.State.{waiting_reply, state_eq}
use lecrm.Sequences.Correlate.{
  InboundMessage, MatchedStep, ReplyMatch, Index, referenced_message_ids, index_steps, is_open,
  first_open, reply_match, claim_replies, correlate_replies,
}
use lecrm.Sequences.Correlate.Matches.{
  ◌∈◌, All-map, claim_replies-unmatched, claim_replies-matched, first_row, lookup_first,
}

abbrev is_claimed : List ℕ → List ReplyMatch → ℕ → Bool
is_claimed claimed rs e = contains e claimed || any (λ r. r.enrollment_id == e) rs

-- What a reference leads to asks for nothing more: there is no row, or its enrollment is not waiting,
-- or a match has it.
abbrev pub is_settled : List ℕ → List ReplyMatch → Option MatchedStep → Bool
is_settled claimed rs none = true
is_settled claimed rs (some step) =
    if step.state == waiting_reply then is_claimed claimed rs step.enrollment_id else true

abbrev pub AreSettled :
    (List ℕ → Option MatchedStep) → List ℕ → List ReplyMatch → List (List ℕ) → Type 0
AreSettled find claimed rs refs = All (λ ref. is_settled claimed rs (find ref) ≡ true) refs

-- A message has its match, or all its references are settled.
abbrev pub IsServed :
    (List ℕ → Option MatchedStep) → List ℕ → List ReplyMatch → InboundMessage → Type 0
IsServed find claimed rs msg =
    ((r : ReplyMatch) × (r ∈ rs) × (r.message ≡ msg))
    ⊎ AreSettled find claimed rs (referenced_message_ids msg)

shut-is_settled :
    (claimed : List ℕ) (rs : List ReplyMatch) (step : MatchedStep)
    → is_open claimed step ≡ false
    → is_settled claimed rs (some step) ≡ true
shut-is_settled claimed rs step h = ground arith

-- A claim counts the same, before it is made and after.
is_settled_shift :
    (claimed : List ℕ) (r : ReplyMatch) (rs : List ReplyMatch) (row : Option MatchedStep)
    → is_settled (r.enrollment_id ∷ claimed) rs row ≡ true
    → is_settled claimed (r ∷ rs) row ≡ true
is_settled_shift claimed r rs none h = refl
is_settled_shift claimed r rs (some step) h = ground arith

module _ (index : Index) where
  abbrev find_in : List ℕ → Option MatchedStep
  find_in ref = lookup ref index

  first_open-AreSettled :
      (claimed : List ℕ) (rs : List ReplyMatch) (refs : List (List ℕ))
      → first_open index claimed refs ≡ none
      → AreSettled find_in claimed rs refs
  unfolding first_open
  first_open-AreSettled claimed rs [] h = tt
  first_open-AreSettled claimed rs (ref ∷ refs) h = elim (Option-cases (lookup ref index)) [
    | inl missing ↦
        (rw missing refl, first_open-AreSettled claimed rs refs (rw (missing, first_open) at h))
    | inr (step, at) ↦ elim (Bool-cases (is_open claimed step)) [
      | inl opened ↦
          let same : some step ≡ none = rw (at, opened, first_open) at h in absurd (ground arith)
      | inr shut ↦ (
        rw at (shut-is_settled claimed rs step shut),
        first_open-AreSettled claimed rs refs (rw (at, shut, first_open) at h),
      )
    ]
  ]

  IsServed-shift :
      (claimed : List ℕ) (r : ReplyMatch) (rs : List ReplyMatch) (msg : InboundMessage)
      → IsServed find_in (r.enrollment_id ∷ claimed) rs msg
      → IsServed find_in claimed (r ∷ rs) msg
  IsServed-shift claimed r rs msg (inl (a, among, same)) = inl (a, inr among, same)
  IsServed-shift claimed r rs msg (inr settled) = inr (
      All-map (referenced_message_ids msg) (λ ref h. is_settled_shift claimed r rs (find_in ref) h)
        settled)

  claim_replies-IsServed :
      (claimed : List ℕ) (msgs : List InboundMessage)
      → All (IsServed find_in claimed (claim_replies index claimed msgs)) msgs
  claim_replies-IsServed claimed [] = tt
  claim_replies-IsServed claimed (msg ∷ msgs) =
      elim (Option-cases (first_open index claimed (referenced_message_ids msg))) [
        | inl closed ↦
            subst (λ out. All (IsServed find_in claimed out) (msg ∷ msgs))
              (sym (claim_replies-unmatched index claimed msg msgs closed))
              (
                inr (first_open-AreSettled claimed _ (referenced_message_ids msg) closed),
                claim_replies-IsServed claimed msgs,
              )
        | inr (step, found) ↦
            let r = reply_match step msg in
            let rs = claim_replies index (step.enrollment_id ∷ claimed) msgs in
            subst (λ out. All (IsServed find_in claimed out) (msg ∷ msgs))
              (sym (claim_replies-matched index claimed msg msgs step found))
              (
                inl (r, inl refl, refl),
                All-map msgs (λ m h. IsServed-shift claimed r rs m h)
                    (claim_replies-IsServed (step.enrollment_id ∷ claimed) msgs),
              )
      ]

-- Every message of the batch has a match, or each of its references leads to no row, to a row whose
-- enrollment is not waiting for a reply, or to an enrollment that has a match.
pub correlate_replies-IsServed :
    (msgs : List InboundMessage) (matched : List MatchedStep)
    → All (IsServed (λ ref. first_row ref matched) [] (correlate_replies msgs matched)) msgs
unfolding correlate_replies
correlate_replies-IsServed msgs matched =
    All-map msgs
      (λ m h. elim h [
        | inl answered ↦ inl answered
        | inr settled ↦ inr (
            All-map (referenced_message_ids m) (λ ref s. rw (← lookup_first ref matched) s) settled)
      ])
      (claim_replies-IsServed (index_steps [] matched) [] msgs)
