-- ===== src/Sequences/Correlate/Collect.antt =====
-- The identifiers that the one query of a batch asks for.
use lecrm.Common.{
  ℕ, ◌||◌, List, [], ◌∷◌, ◌++◌, codes_eq, codes_beq, codes_beq_iff, any, contains, if◌then◌else◌,
  ◌≡◌, arith,
}
use lecrm.Sequences.Correlate.{
  InboundMessage, referenced_message_ids, collect_ids, collect_from, collect_referenced_ids,
}

contains-append_one :
    (id new : List ℕ) (out : List (List ℕ))
    → contains id (out ++ new ∷ []) ≡ (contains id out || codes_beq new id)
contains-append_one id new [] = ground arith
contains-append_one id new (x ∷ out) = ground (arith, contains-append_one id new out)

contains-collect_ids :
    (id : List ℕ) (out ids : List (List ℕ))
    → contains id (collect_ids out ids) ≡ (contains id out || contains id ids)
unfolding collect_ids
contains-collect_ids id out [] = ground arith
contains-collect_ids id out (new ∷ ids) = ground (
  arith,
  contains-collect_ids id (if contains new out then out else out ++ new ∷ []) ids,
  contains-append_one id new out,
  codes_beq_iff new id,
)

contains-collect_from :
    (id : List ℕ) (out : List (List ℕ)) (msgs : List InboundMessage)
    → contains id (collect_from out msgs)
      ≡ (contains id out || any (λ m. contains id (referenced_message_ids m)) msgs)
unfolding collect_from
contains-collect_from id out [] = ground arith
contains-collect_from id out (m ∷ msgs) = ground (
  arith,
  contains-collect_from id (collect_ids out (referenced_message_ids m)) msgs,
  contains-collect_ids id out (referenced_message_ids m),
)

-- The query asks for an identifier exactly if a message of the batch refers to it.
contains-collect_referenced_ids :
    (id : List ℕ) (msgs : List InboundMessage)
    → contains id (collect_referenced_ids msgs)
      ≡ any (λ m. contains id (referenced_message_ids m)) msgs
unfolding collect_referenced_ids
contains-collect_referenced_ids id msgs = contains-collect_from id [] msgs
