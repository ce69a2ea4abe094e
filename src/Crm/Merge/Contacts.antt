-- ===== src/Crm/Merge/Contacts.antt =====
-- What a merge of two contacts leaves behind.
use lecrm.Common.{
  ℕ, String, false, ◌&&◌, none, some, List, [], ◌∷◌, ◌++◌, ◌==◌, nat_eq, map, lookup, update,
  lookup-update, map_value, beq_refl, eqb_iff, All, if◌then◌else◌, ok, ◌≡◌, ◌≢◌, refl, sym, ◌∙◌,
  arith, ◌⊎◌, inl, inr, ap, string_eq, eq_iff, Bool-cases, Option-cases,
}
use mathlib.Core.Path.{subst}
use lecrm.Crm.{Contact, Deal, Entity, contact, is_entity, Attached, Crm, Faults, Session, remove}
use lecrm.Crm.Laws.{apply_all, lookup-remove}
use lecrm.Crm.Merge.Envelope.{two_loads_ok, IsServed, merge_with-IsServed}
use lecrm.Crm.Merge.{
  MergeRequest, pick, merged_contact, repoint_attached, remove_attached, repoint_deal_contact,
  clear_deal_contact, audit_row, merge_contact_statements, merge_contacts_tx, merge_contacts,
}

-- No row of the list belongs to the record.
abbrev pub IsFree : Entity → ℕ → List Attached → Type 0
IsFree kind id = All (λ row. (is_entity row.entity_type kind && row.entity_id == id) ≡ false)

pub IsFree-repoint :
    (kind : Entity) (survivor loser : ℕ) (rows : List Attached)
    → (survivor == loser) ≡ false
    → IsFree kind loser (map (repoint_attached kind survivor loser) rows)
IsFree-repoint kind survivor loser [] h = tt
IsFree-repoint kind survivor loser (row ∷ rows) h =
    (ground arith, IsFree-repoint kind survivor loser rows h)

pub IsFree-remove :
    (kind : Entity) (id : ℕ) (rows : List Attached) → IsFree kind id (remove_attached kind id rows)
unfolding remove_attached
IsFree-remove kind id [] = tt
IsFree-remove kind id (row ∷ rows) = ground (arith, IsFree-remove kind id rows)

-- No deal refers to the contact.
abbrev pub HasNoContact : ℕ → List (ℕ × Deal) → Type 0
HasNoContact id = All (λ d. d.1.contact_id ≢ some id)

deals_cleared :
    (survivor loser : ℕ) (deals : List (ℕ × Deal))
    → (survivor == loser) ≡ false
    → map (clear_deal_contact loser) (map (repoint_deal_contact survivor loser) deals)
      ≡ map (repoint_deal_contact survivor loser) deals
deals_cleared survivor loser [] h = refl
deals_cleared survivor loser ((id, d) ∷ deals) h =
    ground (arith, deals_cleared survivor loser deals h)

HasNoContact-repoint :
    (survivor loser : ℕ) (deals : List (ℕ × Deal))
    → (survivor == loser) ≡ false
    → HasNoContact loser (map (repoint_deal_contact survivor loser) deals)
HasNoContact-repoint survivor loser [] h = tt
HasNoContact-repoint survivor loser ((id, d) ∷ deals) h =
    (ground (arith, eqb_iff survivor loser), HasNoContact-repoint survivor loser deals h)

-- `z` is the loser's value `y` if the request says "loser" for the field, and else the survivor's `x`.
abbrev pub IsPicked : {A : Type 0} → List (String × String) → String → A → A → A → Type 0
IsPicked fields key x y z =
    ((lookup key fields ≡ some "loser") × (z ≡ y)) ⊎ ((lookup key fields ≢ some "loser") × (z ≡ x))

-- A contact whose fields are picked from those of two.
abbrev pub HasPicked : List (String × String) → Contact → Contact → Contact → Type 0
HasPicked fields a b c =
    IsPicked fields "first_name" a.first_name b.first_name c.first_name
    × IsPicked fields "last_name" a.last_name b.last_name c.last_name
    × IsPicked fields "email" a.email b.email c.email
    × IsPicked fields "phone" a.phone b.phone c.phone
    × IsPicked fields "company_id" a.company_id b.company_id c.company_id
    × IsPicked fields "owner_id" a.owner_id b.owner_id c.owner_id

pick-IsPicked :
    {A : Type 0} (fields : List (String × String)) (key : String) (x y : A)
    → IsPicked fields key x y (pick fields key x y)
unfolding pick
pick-IsPicked fields key x y = elim (Option-cases (lookup key fields)) [
  | inl absent ↦ inr (λ h. cc, rw absent refl)
  | inr (v, present) ↦ elim (Bool-cases (v == "loser")) [
    | inl says ↦ inl (present ∙ ap some ((eq_iff v "loser").0 says), rw (present, says) refl)
    | inr other ↦ inr (
      λ h. (let same : v ≡ "loser" = cc in let says = (eq_iff v "loser").1 same in cc),
      rw (present, other) refl,
    )
  ]
]

merged_contact-HasPicked :
    (fields : List (String × String)) (a b : Contact)
    → HasPicked fields a b (merged_contact fields a b)
merged_contact-HasPicked fields a b = (
  pick-IsPicked fields "first_name" a.first_name b.first_name,
  pick-IsPicked fields "last_name" a.last_name b.last_name,
  pick-IsPicked fields "email" a.email b.email,
  pick-IsPicked fields "phone" a.phone b.phone,
  pick-IsPicked fields "company_id" a.company_id b.company_id,
  pick-IsPicked fields "owner_id" a.owner_id b.owner_id,
)

-- Two contacts merged: the survivor has the fields that were picked, the loser is gone, every other
-- contact is as it was; every note, activity, task and deal is still there, and what referred to the
-- loser refers to the survivor; the loser's objects are gone; one row more in the audit log.
abbrev pub IsMerged :
    ℕ → String → List (String × String) → ℕ → ℕ → Contact → Contact → Crm → Crm → Type 0
IsMerged ws actor fields survivor loser a b d d' =
    ((c : Contact) × (lookup survivor d'.contacts ≡ some c) × HasPicked fields a b c)
    × (lookup loser d'.contacts ≡ none)
    × ((id : ℕ) → id ≢ survivor → id ≢ loser → lookup id d'.contacts ≡ lookup id d.contacts)
    × (d'.notes ≡ map (repoint_attached contact survivor loser) d.notes)
    × (d'.activities ≡ map (repoint_attached contact survivor loser) d.activities)
    × (d'.tasks ≡ map (repoint_attached contact survivor loser) d.tasks)
    × (d'.deals ≡ map (repoint_deal_contact survivor loser) d.deals)
    × (IsFree contact loser d'.notes
        × IsFree contact loser d'.activities
        × IsFree contact loser d'.tasks
        × IsFree contact loser d'.objects
        × HasNoContact loser d'.deals)
    × (d'.companies ≡ d.companies)
    × (d'.enrollments ≡ d.enrollments)
    × (d'.audit_log ≡ d.audit_log ++ audit_row "contact.merged" ws actor survivor loser ∷ [])

module _ (ws : ℕ) (actor : String) (fields : List (String × String)) (survivor loser : ℕ)
    (a b : Contact) (differ : (survivor == loser) ≡ false) where
  contacts_merged :
      (at : ℕ) (table : List (ℕ × Contact))
      → lookup at (remove loser (update survivor (λ c. merged_contact fields a b) table)) ≡ (
          if loser == at
          then none
          else if survivor == at
          then map_value (lookup at table) (λ c. merged_contact fields a b)
          else lookup at table)
  contacts_merged at table =
      lookup-remove loser at (update survivor (λ c. merged_contact fields a b) table)
      ∙ rw (lookup-update survivor at (λ c. merged_contact fields a b) table) refl

  statements-IsMerged :
      (d : Crm)
      → lookup survivor d.contacts ≡ some a
      → IsMerged ws actor fields survivor loser a b d
          (apply_all (merge_contact_statements ws actor fields survivor loser a b) d)
  unfolding apply_all merge_contact_statements
  statements-IsMerged d found =
      let cleared = deals_cleared survivor loser d.deals differ in
      (
        (
          merged_contact fields a b,
          contacts_merged survivor d.contacts
              ∙ rw (beq_refl survivor, found)
                  (ground (arith, eqb_iff survivor loser, eqb_iff loser survivor)),
          merged_contact-HasPicked fields a b,
        ),
        contacts_merged loser d.contacts ∙ rw (beq_refl loser) refl,
        (λ id p q.
            contacts_merged id d.contacts ∙ ground (arith, eqb_iff loser id, eqb_iff survivor id)),
        refl,
        refl,
        refl,
        cleared,
        (
          IsFree-repoint contact survivor loser d.notes differ,
          IsFree-repoint contact survivor loser d.activities differ,
          IsFree-repoint contact survivor loser d.tasks differ,
          IsFree-remove contact loser d.objects,
          subst (HasNoContact loser) (sym cleared)
              (HasNoContact-repoint survivor loser d.deals differ),
        ),
        refl,
        refl,
        refl,
      )

-- The contacts that were there, merged.
abbrev pub HasMerged : ℕ → String → List (String × String) → ℕ → ℕ → Crm → Crm → Type 0
HasMerged ws actor fields survivor loser d d' =
    (a b : Contact) × (lookup survivor d.contacts ≡ some a)
    × (lookup loser d.contacts ≡ some b)
    × IsMerged ws actor fields survivor loser a b d d'

tx-HasMerged :
    (faults : Faults) (ws : ℕ) (actor : String) (fields : List (String × String))
    (survivor loser : ℕ) (s s' : Session)
    → (survivor == loser) ≡ false
    → merge_contacts_tx faults ws actor fields survivor loser s ≡ ok s'
    → HasMerged ws actor fields survivor loser s.db s'.db
unfolding merge_contacts_tx
tx-HasMerged faults ws actor fields survivor loser s s' differ h =
    let (a, b, there, other, ran) =
      two_loads_ok faults (λ d. lookup survivor d.contacts) (λ d. lookup loser d.contacts)
        (merge_contact_statements ws actor fields survivor loser) s s' h in
    (
      a,
      b,
      there,
      other,
      subst (IsMerged ws actor fields survivor loser a b s.db) (sym ran)
          (statements-IsMerged ws actor fields survivor loser a b differ s.db there),
    )

-- A merge of contacts either is refused and changes nothing, or answers 200 for two different contacts
-- that were there: the survivor has the loser's value in each field for which the request says "loser"
-- and its own in the others, the loser is gone, nothing else of a contact has changed; no note, activity, task or deal is lost, and those of the loser are the
-- survivor's; no object of the loser is left. The enrollments are as they were.
pub merge_contacts-HasMerged :
    (faults : Faults) (ws : ℕ) (actor : String) (req : MergeRequest) (db : Crm)
    → IsServed
        (HasMerged ws actor req.fields)
        req.survivor_id
        req.loser_id
        db
        (merge_contacts faults ws actor req db)
unfolding merge_contacts
merge_contacts-HasMerged faults ws actor req db =
    merge_with-IsServed (HasMerged ws actor req.fields)
      (merge_contacts_tx faults ws actor req.fields) (tx-HasMerged faults ws actor req.fields)
      faults req.survivor_id req.loser_id db
