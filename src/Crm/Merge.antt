-- ===== src/Crm/Merge.antt =====
-- Merging duplicates (apps/api/internal/crm/dedup.go). A response is its status; decoding the request
-- and finding the workspace happen before. An identifier that does not parse is `none`.
pub mod Envelope
pub mod Contacts
pub mod Companies
use lecrm.Common.{
  ℕ, ◌+◌, String, Bool, true, false, ◌&&◌, not, Option, none, some, List, [], ◌∷◌, ◌++◌, ◌==◌,
  nat_eq, string_eq, map, lookup, update, ltb, any, if◌then◌else◌, Result, ok, err, ◌>>=◌,
}
use lecrm.Crm.{
  Contact, Company, Deal, Entity, contact, company, is_entity, Attached, Rule, AuditRow, Crm,
  CrmError, statement_failed, survivor_not_found, loser_not_found, Faults, Session, remove,
  repoint_id, clear_id, run, load, write_tx,
}

-- `mergeContactReq` and `mergeCompanyReq`.
pub record MergeRequest : Type 0 where
  pub survivor_id : Option ℕ
  pub loser_id : Option ℕ
  pub fields : List (String × String)

abbrev is_loser : Option String → Bool
is_loser none = false
is_loser (some v) = v == "loser"

-- `pick`, `pickText` and `pickNullUUID`
unfoldable pub pick {ℓ} : {A : Type ℓ} → List (String × String) → String → A → A → A
pick fields key of_survivor of_loser =
    if is_loser (lookup key fields) then of_loser else of_survivor

-- `canonicalPair`, on identifiers in the order of their texts.
unfoldable pub canonical_pair : ℕ → ℕ → ℕ × ℕ
canonical_pair a b = if ltb a b then (a, b) else (b, a)

abbrev pub merged_contact : List (String × String) → Contact → Contact → Contact
merged_contact fields a b = record {
  first_name = pick fields "first_name" a.first_name b.first_name;
  last_name = pick fields "last_name" a.last_name b.last_name;
  email = pick fields "email" a.email b.email;
  phone = pick fields "phone" a.phone b.phone;
  company_id = pick fields "company_id" a.company_id b.company_id;
  owner_id = pick fields "owner_id" a.owner_id b.owner_id;
}

abbrev pub merged_company : List (String × String) → Company → Company → Company
merged_company fields a b = record {
  name = pick fields "name" a.name b.name;
  domain = pick fields "domain" a.domain b.domain;
  industry = pick fields "industry" a.industry b.industry;
  size = pick fields "size" a.size b.size;
  owner_id = pick fields "owner_id" a.owner_id b.owner_id;
}

-- `UPDATE … SET entity_id = survivor WHERE entity_type = kind AND entity_id = loser`
abbrev pub repoint_attached : Entity → ℕ → ℕ → Attached → Attached
repoint_attached kind survivor loser row =
    if is_entity row.entity_type kind && row.entity_id == loser
    then record row { entity_id = survivor }
    else row

-- `DELETE FROM objects WHERE parent_type = kind AND parent_id = loser`
unfoldable pub remove_attached : Entity → ℕ → List Attached → List Attached
remove_attached kind loser [] = []
remove_attached kind loser (row ∷ rows) =
    let rest = remove_attached kind loser rows in
    if is_entity row.entity_type kind && row.entity_id == loser then rest else row ∷ rest

abbrev pub is_rule : Entity → ℕ → ℕ → Rule → Bool
is_rule kind lo hi r = is_entity r.entity_type kind && r.id_a == lo && r.id_b == hi

unfoldable pub remove_rule : Entity → ℕ → ℕ → List Rule → List Rule
remove_rule kind lo hi [] = []
remove_rule kind lo hi (r ∷ rules) =
    let rest = remove_rule kind lo hi rules in if is_rule kind lo hi r then rest else r ∷ rest

abbrev pub repoint_deal_contact : ℕ → ℕ → ℕ × Deal → ℕ × Deal
repoint_deal_contact survivor loser (id, d) =
    (id, record d { contact_id = repoint_id survivor loser d.contact_id })

abbrev pub repoint_deal_company : ℕ → ℕ → ℕ × Deal → ℕ × Deal
repoint_deal_company survivor loser (id, d) =
    (id, record d { company_id = repoint_id survivor loser d.company_id })

abbrev pub repoint_contact_company : ℕ → ℕ → ℕ × Contact → ℕ × Contact
repoint_contact_company survivor loser (id, c) =
    (id, record c { company_id = repoint_id survivor loser c.company_id })

abbrev pub clear_deal_contact : ℕ → ℕ × Deal → ℕ × Deal
clear_deal_contact gone (id, d) = (id, record d { contact_id = clear_id gone d.contact_id })

abbrev pub clear_deal_company : ℕ → ℕ × Deal → ℕ × Deal
clear_deal_company gone (id, d) = (id, record d { company_id = clear_id gone d.company_id })

abbrev pub clear_contact_company : ℕ → ℕ × Contact → ℕ × Contact
clear_contact_company gone (id, c) = (id, record c { company_id = clear_id gone c.company_id })

-- `DELETE FROM contacts WHERE id = gone`, with the foreign key of the deals.
abbrev pub delete_contact : ℕ → Crm → Crm
delete_contact gone d = record d {
  contacts = remove gone d.contacts;
  deals = map (clear_deal_contact gone) d.deals;
}

-- `DELETE FROM companies WHERE id = gone`, with the foreign keys of the contacts and the deals.
abbrev pub delete_company : ℕ → Crm → Crm
delete_company gone d = record d {
  companies = remove gone d.companies;
  contacts = map (clear_contact_company gone) d.contacts;
  deals = map (clear_deal_company gone) d.deals;
}

abbrev pub audit_row : String → ℕ → String → ℕ → ℕ → AuditRow
audit_row event ws actor survivor loser = record {
  event = event;
  workspace_id = ws;
  actor_type = actor;
  survivor_id = survivor;
  loser_id = loser;
}

-- Statements 1 to 9 of `MergeContacts`.
unfoldable pub merge_contact_statements :
    ℕ → String → List (String × String) → ℕ → ℕ → Contact → Contact → List (Crm → Crm)
merge_contact_statements ws actor fields survivor loser a b =
    (λ (d : Crm). record d {
      contacts = update survivor (λ c. merged_contact fields a b) d.contacts;
    })
    ∷ (λ (d : Crm). record d { notes = map (repoint_attached contact survivor loser) d.notes })
    ∷ (λ (d : Crm). record d {
      activities = map (repoint_attached contact survivor loser) d.activities;
    })
    ∷ (λ (d : Crm). record d { tasks = map (repoint_attached contact survivor loser) d.tasks })
    ∷ (λ (d : Crm). record d { deals = map (repoint_deal_contact survivor loser) d.deals })
    ∷ (λ (d : Crm). record d { objects = remove_attached contact loser d.objects })
    ∷ (λ (d : Crm).
        let (lo, hi) = canonical_pair survivor loser in
        record d { no_merge_rules = remove_rule contact lo hi d.no_merge_rules })
    ∷ delete_contact loser
    ∷ (λ (d : Crm). record d {
      audit_log = d.audit_log ++ audit_row "contact.merged" ws actor survivor loser ∷ [];
    })
    ∷ []

-- The transaction of `MergeContacts`.
unfoldable pub merge_contacts_tx :
    Faults → ℕ → String → List (String × String) → ℕ → ℕ → Session → Result CrmError Session
merge_contacts_tx faults ws actor fields survivor loser s = do
  found ← load faults (λ d. lookup survivor d.contacts) survivor_not_found s
  other ← load faults (λ d. lookup loser d.contacts) loser_not_found found.0
  run faults (merge_contact_statements ws actor fields survivor loser found.1 other.1) other.0

abbrev pub merge_status : Option CrmError → ℕ
merge_status none = 200
merge_status (some statement_failed) = 500
merge_status (some survivor_not_found) = 404
merge_status (some loser_not_found) = 404

abbrev pub with_status : Crm × Option CrmError → Crm × ℕ
with_status (db, e) = (db, merge_status e)

abbrev pub merge_with :
    (ℕ → ℕ → Session → Result CrmError Session) → Faults → Option ℕ → Option ℕ → Crm → Crm × ℕ
merge_with work faults (some survivor) (some loser) db =
    if survivor == loser then (db, 400) else with_status (write_tx faults (work survivor loser) db)
merge_with work faults _ _ db = (db, 400)

-- `MergeContacts`
unfoldable pub merge_contacts : Faults → ℕ → String → MergeRequest → Crm → Crm × ℕ
merge_contacts faults ws actor req db =
    merge_with (merge_contacts_tx faults ws actor req.fields) faults req.survivor_id req.loser_id db

-- Statements 1 to 9 of `MergeCompanies`.
unfoldable pub merge_company_statements :
    ℕ → String → List (String × String) → ℕ → ℕ → Company → Company → List (Crm → Crm)
merge_company_statements ws actor fields survivor loser a b =
    (λ (d : Crm). record d {
      companies = update survivor (λ c. merged_company fields a b) d.companies;
    })
    ∷ (λ (d : Crm). record d { contacts = map (repoint_contact_company survivor loser) d.contacts })
    ∷ (λ (d : Crm). record d { deals = map (repoint_deal_company survivor loser) d.deals })
    ∷ (λ (d : Crm). record d { notes = map (repoint_attached company survivor loser) d.notes })
    ∷ (λ (d : Crm). record d {
      activities = map (repoint_attached company survivor loser) d.activities;
    })
    ∷ (λ (d : Crm). record d { tasks = map (repoint_attached company survivor loser) d.tasks })
    ∷ (λ (d : Crm).
        let (lo, hi) = canonical_pair survivor loser in
        record d { no_merge_rules = remove_rule company lo hi d.no_merge_rules })
    ∷ delete_company loser
    ∷ (λ (d : Crm). record d {
      audit_log = d.audit_log ++ audit_row "company.merged" ws actor survivor loser ∷ [];
    })
    ∷ []

-- The transaction of `MergeCompanies`.
unfoldable pub merge_companies_tx :
    Faults → ℕ → String → List (String × String) → ℕ → ℕ → Session → Result CrmError Session
merge_companies_tx faults ws actor fields survivor loser s = do
  found ← load faults (λ d. lookup survivor d.companies) survivor_not_found s
  other ← load faults (λ d. lookup loser d.companies) loser_not_found found.0
  run faults (merge_company_statements ws actor fields survivor loser found.1 other.1) other.0

-- `MergeCompanies`
unfoldable pub merge_companies : Faults → ℕ → String → MergeRequest → Crm → Crm × ℕ
merge_companies faults ws actor req db =
    merge_with (merge_companies_tx faults ws actor req.fields) faults req.survivor_id req.loser_id
      db

-- `INSERT … ON CONFLICT DO NOTHING`
abbrev pub insert_rule : Entity → ℕ → ℕ → Crm → Crm
insert_rule kind lo hi d = if any (is_rule kind lo hi) d.no_merge_rules then d else record d {
  no_merge_rules = d.no_merge_rules ++ record { entity_type = kind; id_a = lo; id_b = hi } ∷ [];
}

-- `markDistinct`
unfoldable pub mark_distinct : Faults → Entity → Option ℕ → Option ℕ → Crm → Crm × ℕ
mark_distinct faults kind (some a) (some b) db =
    if a == b
    then (db, 400)
    else (let (lo, hi) = canonical_pair a b in
        with_status (write_tx faults (run faults (insert_rule kind lo hi ∷ [])) db))
mark_distinct faults kind _ _ db = (db, 400)
