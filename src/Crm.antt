-- ===== src/Crm.antt =====
-- The records of a workspace (the tables of packages/db/migrations) and its write transactions
-- (WriteTx of apps/api/capability/capability.go). Identifiers are numbers; `none` is NULL. A column
-- that nothing modelled reads is left out. `Faults` says which statements of a transaction fail.
pub mod Laws
pub mod Merge
pub mod Duplicates
use lecrm.Common.{
  ℕ, ◌+◌, String, Bool, true, false, Option, none, some, List, [], ◌∷◌, ◌++◌, ◌==◌, nat_eq, map,
  lookup, update, if◌then◌else◌, Result, ok, err, ◌>>=◌,
}

pub record Contact : Type 0 where
  pub first_name : String
  pub last_name : String
  pub email : Option String
  pub phone : Option String
  pub company_id : Option ℕ
  pub owner_id : Option ℕ

pub record Company : Type 0 where
  pub name : String
  pub domain : Option String
  pub industry : Option String
  pub size : Option String
  pub owner_id : Option ℕ

pub record Deal : Type 0 where
  pub title : String
  pub contact_id : Option ℕ
  pub company_id : Option ℕ

pub data Entity : Type 0 where
  contact company deal : Entity

abbrev pub is_entity : Entity → Entity → Bool
is_entity contact contact = true
is_entity company company = true
is_entity deal deal = true
is_entity _ _ = false

-- A note, an activity, a task or an object, and the record that it belongs to.
pub record Attached : Type 0 where
  pub entity_type : Entity
  pub entity_id : ℕ
  pub content : String

-- A row of dedup_no_merge_rules.
pub record Rule : Type 0 where
  pub entity_type : Entity
  pub id_a : ℕ
  pub id_b : ℕ

pub record AuditRow : Type 0 where
  pub event : String
  pub workspace_id : ℕ
  pub actor_type : String
  pub survivor_id : ℕ
  pub loser_id : ℕ

-- `enrollments` has the contact of each enrollment; no foreign key ties it to the contacts.
pub record Crm : Type 0 where
  pub contacts : List (ℕ × Contact)
  pub companies : List (ℕ × Company)
  pub deals : List (ℕ × Deal)
  pub notes : List Attached
  pub activities : List Attached
  pub tasks : List Attached
  pub objects : List Attached
  pub no_merge_rules : List Rule
  pub enrollments : List (ℕ × ℕ)
  pub audit_log : List AuditRow

pub data CrmError : Type 0 where
  statement_failed survivor_not_found loser_not_found : CrmError

abbrev pub Faults : Type 0
Faults = ℕ → Bool

-- A transaction's view of the tables.
pub record Session : Type 0 where
  pub db : Crm
  pub executed : ℕ

-- The row of a key is gone.
unfoldable pub remove {ℓ} : {V : Type ℓ} → ℕ → List (ℕ × V) → List (ℕ × V)
remove key [] = []
remove key ((k, v) ∷ rest) =
    let after = remove key rest in if k == key then after else (k, v) ∷ after

-- A reference to `loser` becomes one to `survivor`.
abbrev pub repoint_id : ℕ → ℕ → Option ℕ → Option ℕ
repoint_id survivor loser none = none
repoint_id survivor loser (some id) = if id == loser then some survivor else some id

-- `ON DELETE SET NULL`
abbrev pub clear_id : ℕ → Option ℕ → Option ℕ
clear_id gone none = none
clear_id gone (some id) = if id == gone then none else some id

-- Statements in order: the first that fails ends the transaction's work.
unfoldable pub run : Faults → List (Crm → Crm) → Session → Result CrmError Session
run faults [] s = ok s
run faults (f ∷ fs) s =
    let rest = run faults fs (record { db = f s.db; executed = s.executed + 1 }) in
    if faults s.executed then err statement_failed else rest

abbrev pub or_missing {ℓ} :
    {A : Type ℓ} → CrmError → Option A → Session → Result CrmError (Session × A)
or_missing e none s = err e
or_missing e (some a) s = ok (s, a)

-- A query for one row, which must be there.
unfoldable pub load {ℓ} :
    {A : Type ℓ} → Faults → (Crm → Option A) → CrmError → Session → Result CrmError (Session × A)
load faults query missing s =
    let s' = record s { executed = s.executed + 1 } in
    if faults s.executed then err statement_failed else or_missing missing (query s.db) s'

abbrev pub finish : Crm → Result CrmError Session → Crm × Option CrmError
finish db (ok s) = (s.db, none)
finish db (err e) = (db, some e)

abbrev pub no_effect : Crm → Crm
no_effect d = d

-- `WriteTx`: it begins, sets the search path, does the work and commits; any error rolls back.
unfoldable pub write_tx : Faults → (Session → Result CrmError Session) → Crm → Crm × Option CrmError
unfolding run
write_tx faults work db = finish db (do
  s ← run faults (no_effect ∷ no_effect ∷ []) (record { db = db; executed = 0 })
  worked ← work s
  run faults (no_effect ∷ []) worked)
