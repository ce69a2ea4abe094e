-- ===== src/Crm/Duplicates.antt =====
-- The candidates for a merge (ListContactDuplicates of apps/api/internal/crm/dedup.go). A text is a
-- list of code points. Unicode's tables are parameters. A score is a fraction, and the test of it
-- against 0.4 is exact. The groups of one address are visited in the order of their first contact; Go
-- leaves the order open, and that of pairs with one score.
pub mod Exclusion
pub mod Distinct
use lecrm.Common.{
  ℕ, zero, suc, ◌+◌, ◌-◌, ◌*◌, ◌≤◌, String, Bool, true, false, ◌&&◌, ◌||◌, not, Option, none, some,
  List, [], ◌∷◌, ◌++◌, ◌==◌, nat_eq, codes_eq, map, any, is_empty, length, contains, lookup, insert,
  eqb, leb, ltb, if◌then◌else◌,
}
use lecrm.Common.Text.{codes, trim_space}
use lecrm.Crm.{Contact, Entity, contact, is_entity, Rule, Crm}
use lecrm.Crm.Merge.{canonical_pair}

pub record Unicode : Type 0 where
  pub to_lower : ℕ → ℕ
  pub is_letter : ℕ → Bool
  pub is_digit : ℕ → Bool

abbrev filter : (ℕ → Bool) → List ℕ → List ℕ
filter p [] = []
filter p (c ∷ s) = let rest = filter p s in if p c then c ∷ rest else rest

-- `normalizeName`
unfoldable pub normalize_name : Unicode → List ℕ → List ℕ
normalize_name unicode s =
    trim_space
      (filter (λ c. unicode.is_letter c || unicode.is_digit c || eqb c 32) (map unicode.to_lower s))

-- The parts of three code points, each once.
unfoldable pub parts : List ℕ → List (List ℕ)
parts (a ∷ b ∷ c ∷ s) =
    let rest = parts (b ∷ c ∷ s) in
    let part = a ∷ b ∷ c ∷ [] in if contains part rest then rest else part ∷ rest
parts _ = []

-- `trigrams`
unfoldable pub trigrams : List ℕ → List (List ℕ)
trigrams s = parts (32 ∷ 32 ∷ s ++ 32 ∷ 32 ∷ [])

abbrev common_parts : List (List ℕ) → List (List ℕ) → ℕ
common_parts [] tb = 0
common_parts (t ∷ ta) tb = let rest = common_parts ta tb in if contains t tb then suc rest else rest

-- `trigramSimilarity`, as numerator and denominator.
unfoldable pub trigram_similarity : Unicode → List ℕ → List ℕ → ℕ × ℕ
trigram_similarity unicode a b =
    let ta = trigrams (normalize_name unicode a) in
    let tb = trigrams (normalize_name unicode b) in
    let intersection = common_parts ta tb in
    let union = length ta + length tb - intersection in
    if is_empty ta && is_empty tb
    then (1, 1)
    else if is_empty ta || is_empty tb
    then (0, 1)
    else if eqb union 0
    then (0, 1)
    else (intersection, union)

-- A contact as it is loaded.
abbrev pub Row : Type 0
Row = ℕ × Contact

pub data Reason : Type 0 where
  exact_email similar_name : Reason

pub record Pair : Type 0 where
  pub a : Row
  pub b : Row
  pub reason : Reason
  pub score : ℕ × ℕ

-- A set of pairs of identifiers.
abbrev pub has_pair : ℕ × ℕ → List (ℕ × ℕ) → Bool
has_pair p pairs = any (λ q. eqb q.0 p.0 && eqb q.1 p.1) pairs

-- The pairs of the rules of one kind.
unfoldable pub exclusions : Entity → List Rule → List (ℕ × ℕ)
exclusions kind [] = []
exclusions kind (r ∷ rules) =
    let rest = exclusions kind rules in
    if is_entity r.entity_type kind then canonical_pair r.id_a r.id_b ∷ rest else rest

-- `isExcluded`
unfoldable pub is_excluded : List (ℕ × ℕ) → ℕ → ℕ → Bool
is_excluded excluded a b = has_pair (canonical_pair a b) excluded

-- The pairs that were met and the pairs to answer.
pub record Found : Type 0 where
  pub seen : List (ℕ × ℕ)
  pub pairs : List Pair

abbrev pub add_pair : Pair → Found → Found
add_pair p st = record { seen = canonical_pair p.a.0 p.b.0 ∷ st.seen; pairs = st.pairs ++ p ∷ [] }

abbrev pub is_skipped : List (ℕ × ℕ) → Row → Row → Found → Bool
is_skipped excluded a b st =
    has_pair (canonical_pair a.0 b.0) st.seen || is_excluded excluded a.0 b.0

-- The body of the loops of pass 1.
unfoldable pub consider_email : List (ℕ × ℕ) → Row → Row → Found → Found
consider_email excluded a b st =
    if is_skipped excluded a b st
    then st
    else add_pair (record { a = a; b = b; reason = exact_email; score = (1, 1) }) st

abbrev pub full_name : Contact → List ℕ
full_name c = codes c.first_name ++ 32 ∷ codes c.last_name

abbrev pub reaches_threshold : ℕ × ℕ → Bool
reaches_threshold score = leb (4 * score.1) (10 * score.0)

-- The body of the loops of pass 2.
unfoldable pub consider_name : Unicode → List (ℕ × ℕ) → Row → Row → Found → Found
consider_name unicode excluded a b st =
    let score = trigram_similarity unicode (full_name a.1) (full_name b.1) in
    if is_skipped excluded a b st
    then st
    else if reaches_threshold score
    then add_pair (record { a = a; b = b; reason = similar_name; score = score }) st
    else st

-- The inner loop over `j`.
unfoldable pub each_later : (Row → Row → Found → Found) → Row → List Row → Found → Found
each_later body a [] st = st
each_later body a (b ∷ rows) st = each_later body a rows (body a b st)

-- The outer loop over `i`.
unfoldable pub each_pair : (Row → Row → Found → Found) → List Row → Found → Found
each_pair body [] st = st
each_pair body (a ∷ rows) st = each_pair body rows (each_later body a rows st)

abbrev pub email_key : Unicode → Contact → List ℕ
email_key unicode c = elim c.email [ none ↦ [] | some e ↦ map unicode.to_lower (codes e) ]

-- A contact at the end of its group.
unfoldable pub add_to_group : List ℕ → Row → List (List ℕ × List Row) → List (List ℕ × List Row)
add_to_group key r [] = (key, r ∷ []) ∷ []
add_to_group key r ((k, rows) ∷ groups) =
    let rest = add_to_group key r groups in
    if k == key then (k, rows ++ r ∷ []) ∷ groups else (k, rows) ∷ rest

-- `byEmail`: contacts without an address are left out.
unfoldable pub group_by_email :
    Unicode → List Row → List (List ℕ × List Row) → List (List ℕ × List Row)
group_by_email unicode [] groups = groups
group_by_email unicode (r ∷ rows) groups =
    let key = email_key unicode r.1 in
    group_by_email unicode rows (if is_empty key then groups else add_to_group key r groups)

unfoldable pub each_group : (Row → Row → Found → Found) → List (List ℕ × List Row) → Found → Found
each_group body [] st = st
each_group body (g ∷ groups) st = each_group body groups (each_pair body g.1 st)

-- The higher score first.
abbrev pub is_better : Pair → Pair → Bool
is_better p q = ltb (q.score.0 * p.score.1) (p.score.0 * q.score.1)

unfoldable pub place : Pair → List Pair → List Pair
place p [] = p ∷ []
place p (q ∷ pairs) = let rest = place p pairs in if is_better q p then q ∷ rest else p ∷ q ∷ pairs

unfoldable pub sort_pairs : List Pair → List Pair
sort_pairs [] = []
sort_pairs (p ∷ pairs) = place p (sort_pairs pairs)

-- The pairs that the two passes over the contacts yield, under these rules.
unfoldable pub suggestions : Unicode → List Rule → List Row → List Pair
suggestions unicode rules contacts =
    let excluded = exclusions contact rules in
    let by_email =
      each_group (consider_email excluded) (group_by_email unicode contacts [])
        (record { seen = []; pairs = [] }) in
    sort_pairs (each_pair (consider_name unicode excluded) contacts by_email).pairs

-- `ListContactDuplicates`, of the contacts in the order of their creation, `none` if they cannot be
-- read, and of the rules that are read: where that query fails, the rules that it did not yield are
-- missing. The answer `none` is status 500.
unfoldable pub list_contact_duplicates :
    Unicode → Option (List Row) → List Rule → Option (List Pair)
list_contact_duplicates unicode none rules = none
list_contact_duplicates unicode (some contacts) rules = some (suggestions unicode rules contacts)
