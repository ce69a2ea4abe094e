-- ===== src/Crm/Merge/Companies.antt =====
-- What a merge of two companies leaves behind.
use lecrm.Common.{
  ℕ, String, false, none, some, List, [], ◌∷◌, ◌++◌, ◌==◌, nat_eq, map, lookup, update,
  lookup-update, map_value, beq_refl, eqb_iff, All, if◌then◌else◌, ok, ◌≡◌, ◌≢◌, refl, sym, ◌∙◌,
  arith,
}
use mathlib.Core.Path.{subst}
use lecrm.Crm.{Contact, Company, Deal, company, Crm, Faults, Session, remove}
use lecrm.Crm.Laws.{apply_all, lookup-remove}
use lecrm.Crm.Merge.Envelope.{two_loads_ok, IsServed, merge_with-IsServed}
use lecrm.Crm.Merge.Contacts.{IsFree, IsFree-repoint}
use lecrm.Crm.Merge.{
  MergeRequest, merged_company, repoint_attached, repoint_deal_company, repoint_contact_company,
  clear_deal_company, clear_contact_company, audit_row, merge_company_statements,
  merge_companies_tx, merge_companies,
}

-- No contact and no deal refers to the company.
abbrev pub HasNoCompany : ℕ → Crm → Type 0
HasNoCompany id d =
    All (λ c. c.1.company_id ≢ some id) d.contacts × All (λ x. x.1.company_id ≢ some id) d.deals

module _ (survivor loser : ℕ) (differ : (survivor == loser) ≡ false) where
  deals_cleared :
      (deals : List (ℕ × Deal))
      → map (clear_deal_company loser) (map (repoint_deal_company survivor loser) deals)
        ≡ map (repoint_deal_company survivor loser) deals
  deals_cleared [] = refl
  deals_cleared ((id, d) ∷ deals) = ground (arith, deals_cleared deals)

  contacts_cleared :
      (contacts : List (ℕ × Contact))
      → map (clear_contact_company loser) (map (repoint_contact_company survivor loser) contacts)
        ≡ map (repoint_contact_company survivor loser) contacts
  contacts_cleared [] = refl
  contacts_cleared ((id, c) ∷ contacts) = ground (arith, contacts_cleared contacts)

  deals_free :
      (deals : List (ℕ × Deal))
      → All (λ x. x.1.company_id ≢ some loser) (map (repoint_deal_company survivor loser) deals)
  deals_free [] = tt
  deals_free ((id, d) ∷ deals) = (ground (arith, eqb_iff survivor loser), deals_free deals)

  contacts_free :
      (contacts : List (ℕ × Contact))
      → All
          (λ c. c.1.company_id ≢ some loser)
          (map (repoint_contact_company survivor loser) contacts)
  contacts_free [] = tt
  contacts_free ((id, c) ∷ contacts) =
      (ground (arith, eqb_iff survivor loser), contacts_free contacts)

-- Two companies merged: the survivor has the fields that were picked, the loser is gone, every other
-- company is as it was; every contact, deal, note, activity and task is still there, and what referred
-- to the loser refers to the survivor; the objects are as they were; one row more in the audit log.
abbrev pub IsMerged :
    ℕ → String → List (String × String) → ℕ → ℕ → Company → Company → Crm → Crm → Type 0
IsMerged ws actor fields survivor loser a b d d' =
    (lookup survivor d'.companies ≡ some (merged_company fields a b))
    × (lookup loser d'.companies ≡ none)
    × ((id : ℕ) → id ≢ survivor → id ≢ loser → lookup id d'.companies ≡ lookup id d.companies)
    × (d'.contacts ≡ map (repoint_contact_company survivor loser) d.contacts)
    × (d'.deals ≡ map (repoint_deal_company survivor loser) d.deals)
    × (d'.notes ≡ map (repoint_attached company survivor loser) d.notes)
    × (d'.activities ≡ map (repoint_attached company survivor loser) d.activities)
    × (d'.tasks ≡ map (repoint_attached company survivor loser) d.tasks)
    × (IsFree company loser d'.notes
        × IsFree company loser d'.activities
        × IsFree company loser d'.tasks
        × HasNoCompany loser d')
    × (d'.objects ≡ d.objects)
    × (d'.audit_log ≡ d.audit_log ++ audit_row "company.merged" ws actor survivor loser ∷ [])

module _ (ws : ℕ) (actor : String) (fields : List (String × String)) (survivor loser : ℕ) where
  companies_merged :
      (a b : Company) (at : ℕ) (table : List (ℕ × Company))
      → lookup at (remove loser (update survivor (λ c. merged_company fields a b) table)) ≡ (
          if loser == at
          then none
          else if survivor == at
          then map_value (lookup at table) (λ c. merged_company fields a b)
          else lookup at table)
  companies_merged a b at table =
      lookup-remove loser at (update survivor (λ c. merged_company fields a b) table)
      ∙ rw (lookup-update survivor at (λ c. merged_company fields a b) table) refl

  statements-IsMerged :
      (a b : Company) (d : Crm)
      → (survivor == loser) ≡ false
      → lookup survivor d.companies ≡ some a
      → IsMerged ws actor fields survivor loser a b d
          (apply_all (merge_company_statements ws actor fields survivor loser a b) d)
  unfolding apply_all merge_company_statements
  statements-IsMerged a b d differ found =
      let deals = deals_cleared survivor loser differ d.deals in
      let contacts = contacts_cleared survivor loser differ d.contacts in
      (
        companies_merged a b survivor d.companies
            ∙ rw (beq_refl survivor, found)
                (ground (arith, eqb_iff survivor loser, eqb_iff loser survivor)),
        companies_merged a b loser d.companies ∙ rw (beq_refl loser) refl,
        (λ id p q.
            companies_merged a b id d.companies
            ∙ ground (arith, eqb_iff loser id, eqb_iff survivor id)),
        contacts,
        deals,
        refl,
        refl,
        refl,
        (
          IsFree-repoint company survivor loser d.notes differ,
          IsFree-repoint company survivor loser d.activities differ,
          IsFree-repoint company survivor loser d.tasks differ,
          (
            subst (All (λ c. c.1.company_id ≢ some loser)) (sym contacts)
                (contacts_free survivor loser differ d.contacts),
            subst (All (λ x. x.1.company_id ≢ some loser)) (sym deals)
                (deals_free survivor loser differ d.deals),
          ),
        ),
        refl,
        refl,
      )

  -- The companies that were there, merged.
  abbrev pub HasMerged : Crm → Crm → Type 0
  HasMerged d d' =
      (a b : Company) × (lookup survivor d.companies ≡ some a)
      × (lookup loser d.companies ≡ some b)
      × IsMerged ws actor fields survivor loser a b d d'

  tx-HasMerged :
      (faults : Faults) (s s' : Session)
      → (survivor == loser) ≡ false
      → merge_companies_tx faults ws actor fields survivor loser s ≡ ok s'
      → HasMerged s.db s'.db
  unfolding merge_companies_tx
  tx-HasMerged faults s s' differ h =
      let (a, b, there, other, ran) =
        two_loads_ok faults (λ d. lookup survivor d.companies) (λ d. lookup loser d.companies)
          (merge_company_statements ws actor fields survivor loser) s s' h in
      (
        a,
        b,
        there,
        other,
        subst (IsMerged ws actor fields survivor loser a b s.db) (sym ran)
            (statements-IsMerged a b s.db differ there),
      )

-- A merge of companies either is refused and changes nothing, or answers 200 for two different companies
-- that were there: the survivor has the fields that were picked, the loser is gone, no other company has
-- changed; no contact, deal, note, activity or task is lost, and those of the loser are the survivor's;
-- the objects, also the loser's, are as they were.
merge_companies-HasMerged :
    (faults : Faults) (ws : ℕ) (actor : String) (req : MergeRequest) (db : Crm)
    → IsServed
        (HasMerged ws actor req.fields)
        req.survivor_id
        req.loser_id
        db
        (merge_companies faults ws actor req db)
unfolding merge_companies
merge_companies-HasMerged faults ws actor req db =
    merge_with-IsServed (HasMerged ws actor req.fields)
      (merge_companies_tx faults ws actor req.fields)
      (λ survivor loser. tx-HasMerged ws actor req.fields survivor loser faults) faults
      req.survivor_id req.loser_id db
