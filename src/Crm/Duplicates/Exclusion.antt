-- ===== src/Crm/Duplicates/Exclusion.antt =====
-- What is suggested for a merge, and what is not.
use lecrm.Common.{
  ℕ, ◌*◌, ◌≤◌, Bool, true, false, List, [], ◌∷◌, ◌++◌, ◌==◌, nat_eq, codes_eq, any, is_empty, All,
  All-append, ◌≡◌, ◌⊎◌, inl, inr, refl, sym, ◌∙◌, arith, Bool-cases, eqb_iff, codes_beq_iff,
  beq_refl,
}
use lecrm.Crm.{Entity, contact, is_entity, Rule, Crm}
use lecrm.Crm.Merge.{canonical_pair, is_rule, insert_rule}
use lecrm.Crm.Duplicates.{
  Unicode, trigram_similarity, Row, exact_email, similar_name, Pair, has_pair, exclusions,
  is_excluded, Found, is_skipped, consider_email, full_name, reaches_threshold, consider_name,
  each_later, each_pair, email_key, add_to_group, group_by_email, each_group, is_better, place,
  sort_pairs, suggestions,
}

-- An invariant of the body is one of the loops over rows with a property.
module _ {ℓ κ} (P : Row → Type ℓ) (Q : Found → Type κ) (body : Row → Row → Found → Found)
    (keeps : (a b : Row) (st : Found) → P a → P b → Q st → Q (body a b st)) where
  each_later_keeps :
      (a : Row) (rows : List Row) (st : Found)
      → P a
      → All P rows
      → Q st
      → Q (each_later body a rows st)
  unfolding each_later
  each_later_keeps a [] st p ps q = q
  each_later_keeps a (b ∷ rows) st p ps q =
      each_later_keeps a rows (body a b st) p ps.1 (keeps a b st p ps.0 q)

  each_pair_keeps : (rows : List Row) (st : Found) → All P rows → Q st → Q (each_pair body rows st)
  unfolding each_pair
  each_pair_keeps [] st ps q = q
  each_pair_keeps (a ∷ rows) st ps q =
      each_pair_keeps rows (each_later body a rows st) ps.1 (each_later_keeps a rows st ps.0 ps.1 q)

-- A pair that may be suggested: not excluded, and with one address or names that are similar enough.
abbrev pub IsSuggestion : Unicode → List (ℕ × ℕ) → Pair → Type 0
IsSuggestion unicode excluded p =
    (is_excluded excluded p.a.0 p.b.0 ≡ false)
    × (((p.reason ≡ exact_email)
          × (email_key unicode p.a.1 ≡ email_key unicode p.b.1)
          × (is_empty (email_key unicode p.a.1) ≡ false))
        ⊎ ((p.reason ≡ similar_name)
            × (p.score ≡ trigram_similarity unicode (full_name p.a.1) (full_name p.b.1))
            × (4 * p.score.1 ≤ 10 * p.score.0)))

module _ (unicode : Unicode) (excluded : List (ℕ × ℕ)) where
  abbrev IsSound : Found → Type 0
  IsSound st = All (IsSuggestion unicode excluded) st.pairs

  -- The rows of one group.
  abbrev HasKey : List ℕ → Row → Type 0
  HasKey key r = (email_key unicode r.1 ≡ key) × (is_empty key ≡ false)

  consider_email-IsSound :
      (key : List ℕ) (a b : Row) (st : Found)
      → HasKey key a
      → HasKey key b
      → IsSound st
      → IsSound (consider_email excluded a b st)
  unfolding consider_email
  consider_email-IsSound key a b st p q h = elim (Bool-cases (is_skipped excluded a b st)) [
    | inl skipped ↦ rw (skipped, consider_email) h
    | inr taken ↦
        rw (taken, consider_email)
          (All-append _ st.pairs _ h
            (((ground (arith, taken), inl (refl, p.0 ∙ sym q.0, rw p.0 p.1)), tt)))
  ]

  consider_name-IsSound :
      (a b : Row) (st : Found) → IsSound st → IsSound (consider_name unicode excluded a b st)
  unfolding consider_name
  consider_name-IsSound a b st h = elim (Bool-cases (is_skipped excluded a b st)) [
    | inl skipped ↦ rw (skipped, consider_name) h
    | inr taken ↦
        let score = trigram_similarity unicode (full_name a.1) (full_name b.1) in
        elim (Bool-cases (reaches_threshold score)) [
          | inr low ↦ rw (taken, low, consider_name) h
          | inl high ↦
              rw (taken, high, consider_name)
                (All-append _ st.pairs _ h
                  (((ground (arith, taken), inr (refl, refl, ground (arith, high))), tt)))
        ]
  ]

  abbrev AreGroups : List (List ℕ × List Row) → Type 0
  AreGroups = All (λ g. All (HasKey g.0) g.1)

  add_to_group-AreGroups :
      (key : List ℕ) (r : Row) (groups : List (List ℕ × List Row))
      → HasKey key r
      → AreGroups groups
      → AreGroups (add_to_group key r groups)
  unfolding add_to_group
  add_to_group-AreGroups key r [] h gs = ((h, tt), tt)
  add_to_group-AreGroups key r ((k, rows) ∷ groups) h gs = elim (Bool-cases (k == key)) [
    | inr other ↦ rw (other, add_to_group) (gs.0, add_to_group-AreGroups key r groups h gs.1)
    | inl same ↦
        let e = (codes_beq_iff k key).0 same in
        rw (same, add_to_group)
          (All-append _ rows (r ∷ []) gs.0 ((h.0 ∙ sym e, rw e h.1), tt), gs.1)
  ]

  group_by_email-AreGroups :
      (rows : List Row) (groups : List (List ℕ × List Row))
      → AreGroups groups
      → AreGroups (group_by_email unicode rows groups)
  unfolding group_by_email
  group_by_email-AreGroups [] groups gs = gs
  group_by_email-AreGroups (r ∷ rows) groups gs =
      let key = email_key unicode r.1 in
      elim (Bool-cases (is_empty key)) [
        | inl unset ↦ rw (unset, group_by_email) (group_by_email-AreGroups rows groups gs)
        | inr set ↦
            rw (set, group_by_email)
              (group_by_email-AreGroups rows (add_to_group key r groups)
                (add_to_group-AreGroups key r groups (refl, set) gs))
      ]

  each_group-IsSound :
      (groups : List (List ℕ × List Row)) (st : Found)
      → AreGroups groups
      → IsSound st
      → IsSound (each_group (consider_email excluded) groups st)
  unfolding each_group
  each_group-IsSound [] st gs h = h
  each_group-IsSound ((key, rows) ∷ groups) st gs h =
      each_group-IsSound groups (each_pair (consider_email excluded) rows st) gs.1 (
        each_pair_keeps (HasKey key) IsSound (consider_email excluded) (consider_email-IsSound key)
          rows st gs.0 h)

All-place {ℓ} :
    (P : Pair → Type ℓ) (p : Pair) (pairs : List Pair) → P p → All P pairs → All P (place p pairs)
unfolding place
All-place P p [] h hs = (h, tt)
All-place P p (q ∷ pairs) h hs = elim (Bool-cases (is_better q p)) [
  | inl better ↦ rw (better, place) (hs.0, All-place P p pairs h hs.1)
  | inr not_better ↦ rw (not_better, place) (h, hs)
]

All-sort_pairs {ℓ} :
    (P : Pair → Type ℓ) (pairs : List Pair) → All P pairs → All P (sort_pairs pairs)
unfolding sort_pairs
All-sort_pairs P [] hs = tt
All-sort_pairs P (p ∷ pairs) hs =
    All-place P p (sort_pairs pairs) hs.0 (All-sort_pairs P pairs hs.1)

All-any_row : (rows : List Row) → All (λ r. Unit {0}) rows
All-any_row [] = tt
All-any_row (r ∷ rows) = (tt, All-any_row rows)

-- Every pair of contacts that is suggested is free of a rule against it, and either has one e-mail
-- address, whatever its case, or names whose trigram similarity, which is its score, is 0.4 or more.
pub suggestions-IsSuggestion :
    (unicode : Unicode) (rules : List Rule) (contacts : List Row)
    → All (IsSuggestion unicode (exclusions contact rules)) (suggestions unicode rules contacts)
unfolding suggestions
suggestions-IsSuggestion unicode rules contacts =
    let excluded = exclusions contact rules in
    All-sort_pairs (IsSuggestion unicode excluded) _ (
      each_pair_keeps (λ r. Unit {0}) (IsSound unicode excluded) (consider_name unicode excluded)
        (λ a b st p q. consider_name-IsSound unicode excluded a b st) contacts _
        (All-any_row contacts)
        (each_group-IsSound unicode excluded (group_by_email unicode contacts [])
          (record { seen = []; pairs = [] })
          (group_by_email-AreGroups unicode excluded contacts [] tt) tt))

pub has_pair-exclusions :
    (kind : Entity) (lo hi : ℕ) (rules : List Rule)
    → any (is_rule kind lo hi) rules ≡ true
    → lo ≤ hi
    → has_pair (lo, hi) (exclusions kind rules) ≡ true
unfolding exclusions canonical_pair
has_pair-exclusions kind lo hi [] h k = absurd cc
has_pair-exclusions kind lo hi (r ∷ rules) h k =
    ground (arith, has_pair-exclusions kind lo hi rules, eqb_iff r.id_a lo, eqb_iff r.id_b hi)

any_last :
    (p : Rule → Bool) (rules : List Rule) (r : Rule) → p r ≡ true → any p (rules ++ r ∷ []) ≡ true
any_last p [] r h = ground arith
any_last p (x ∷ rules) r h = ground (arith, any_last p rules r h)

is_entity_refl : (kind : Entity) → is_entity kind kind ≡ true
is_entity_refl kind = ground arith

pub insert_rule_there :
    (kind : Entity) (lo hi : ℕ) (db : Crm)
    → any (is_rule kind lo hi) (insert_rule kind lo hi db).no_merge_rules ≡ true
insert_rule_there kind lo hi db = elim (Bool-cases (any (is_rule kind lo hi) db.no_merge_rules)) [
  | inl there ↦ rw there there
  | inr missing ↦ rw missing (
      any_last (is_rule kind lo hi) db.no_merge_rules
        (record { entity_type = kind; id_a = lo; id_b = hi })
        (rw (is_entity_refl kind, beq_refl lo, beq_refl hi) refl))
]
