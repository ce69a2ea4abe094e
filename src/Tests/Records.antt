-- ===== src/Tests/Records.antt =====
-- Contacts and companies that are merged, and contacts that are not.
use lecrm.Common.{[], ◌∷◌, none, some, true, false, ◌≡◌, ◌≢◌, refl, All, nat_eq, string_eq}
use lecrm.Crm.{Contact, Company, Deal, Attached, Rule, contact, company, Crm, Faults, run, write_tx}
use lecrm.Crm.Merge.{MergeRequest, merge_contacts, merge_companies, mark_distinct, canonical_pair}
use lecrm.Crm.Merge.Envelope.{IsServed}
use lecrm.Crm.Merge.Contacts
use lecrm.Crm.Duplicates.{Unicode, exclusions, suggestions}
use lecrm.Crm.Duplicates.Exclusion.{IsSuggestion, suggestions-IsSuggestion}
use lecrm.Crm.Duplicates.Distinct.{suggestions-mark_distinct}

abbrev ann : Contact
ann = record {
  first_name = "Ann";
  last_name = "Lee";
  email = some "ann@example.org";
  phone = none;
  company_id = some 3;
  owner_id = none;
}

abbrev acme : Company
acme = record {
  name = "Acme";
  domain = some "acme.example";
  industry = none;
  size = none;
  owner_id = none;
}

abbrev records : Crm
records = record {
  contacts = (1, ann) ∷ (2, record ann { phone = some "1"; company_id = some 4 }) ∷ [];
  companies = (3, acme) ∷ (4, record acme { industry = some "steel" }) ∷ [];
  deals = (5, record { title = "sale"; contact_id = some 2; company_id = some 4 }) ∷ [];
  notes = record { entity_type = contact; entity_id = 2; content = "called" } ∷ [];
  activities = [];
  tasks = record { entity_type = company; entity_id = 4; content = "visit" } ∷ [];
  objects = record { entity_type = company; entity_id = 4; content = "colour" } ∷ [];
  no_merge_rules = [];
  enrollments = (6, 2) ∷ [];
  audit_log = [];
}

abbrev no_faults : Faults
no_faults n = false

abbrev people : MergeRequest
people = record { survivor_id = some 1; loser_id = some 2; fields = ("phone", "loser") ∷ [] }

merge_contacts-HasMerged_example :
    IsServed
      (lecrm.Crm.Merge.Contacts.HasMerged 9 "human_api" people.fields)
      (some 1)
      (some 2)
      records
      (merge_contacts no_faults 9 "human_api" people records)
merge_contacts-HasMerged_example =
    lecrm.Crm.Merge.Contacts.merge_contacts-HasMerged no_faults 9 "human_api" people records

abbrev ascii : Unicode
ascii = record { to_lower = λ c. c; is_letter = λ c. true; is_digit = λ c. false }

suggestions-IsSuggestion_example :
    All (IsSuggestion ascii (exclusions contact [])) (suggestions ascii [] records.contacts)
suggestions-IsSuggestion_example = suggestions-IsSuggestion ascii [] records.contacts

marked : (mark_distinct no_faults contact (some 2) (some 1) records).1 ≡ 200
unfolding mark_distinct write_tx run canonical_pair
marked = refl

suggestions-mark_distinct_example :
    All
      (λ p. canonical_pair p.a.0 p.b.0 ≢ canonical_pair 2 1)
      (suggestions ascii
        (mark_distinct no_faults contact (some 2) (some 1) records).0.no_merge_rules
        (mark_distinct no_faults contact (some 2) (some 1) records).0.contacts)
suggestions-mark_distinct_example = suggestions-mark_distinct ascii no_faults 2 1 records marked
