-- ===== src/Crm/Laws.antt =====
-- How a write transaction ends, and what its statements come to.
use lecrm.Common.{
  ℕ, ◌+◌, Option, none, some, List, [], ◌∷◌, ◌==◌, nat_eq, lookup, eqb_iff, if◌then◌else◌, Result,
  ok, ◌≡◌, ◌⊎◌, inl, inr, refl, arith, Bool-cases, Option-cases, Result-cases,
}
use lecrm.Crm.{Crm, CrmError, Faults, Session, remove, run, load, write_tx, statement_failed}

-- The statements, one after another.
unfoldable pub apply_all : List (Crm → Crm) → Crm → Crm
apply_all [] d = d
apply_all (f ∷ fs) d = apply_all fs (f d)

pub run_ok :
    (faults : Faults) (fs : List (Crm → Crm)) (s s' : Session)
    → run faults fs s ≡ ok s'
    → s'.db ≡ apply_all fs s.db
unfolding run apply_all
run_ok faults [] s s' h = ground arith
run_ok faults (f ∷ fs) s s' h = elim (Bool-cases (faults s.executed)) [
  | inl fails ↦ absurd (let h' = rw (fails, run) at h in cc)
  | inr runs ↦
      run_ok faults fs (record { db = f s.db; executed = s.executed + 1 }) s' (rw (runs, run) at h)
]

pub load_ok {ℓ} :
    {A : Type ℓ} (faults : Faults) (query : Crm → Option A) (e : CrmError) (s s' : Session) (a : A)
    → load faults query e s ≡ ok (s', a)
    → (s'.db ≡ s.db) × (query s.db ≡ some a)
unfolding load
load_ok faults query e s s' a h = elim (Bool-cases (faults s.executed)) [
  | inl fails ↦ absurd (let h' = rw (fails, load) at h in cc)
  | inr runs ↦ elim (Option-cases (query s.db)) [
    | inl missing ↦ absurd (let h' = rw (runs, missing, load) at h in cc)
    | inr (b, there) ↦ ground (arith, rw (runs, there, load) at h)
  ]
]

-- A transaction either fails and changes nothing, or commits what its work did.
pub write_tx_cases :
    (faults : Faults) (work : Session → Result CrmError Session) (db : Crm)
    → ((e : CrmError) × (write_tx faults work db ≡ (db, some e)))
      ⊎ ((s s' : Session) × (s.db ≡ db)
          × (work s ≡ ok s')
          × (write_tx faults work db ≡ (s'.db, none)))
unfolding write_tx run
write_tx_cases faults work db =
    let s : Session = record { db = db; executed = 2 } in
    elim (Bool-cases (faults 0)) [
      | inl fails ↦ inl (statement_failed, rw (fails, write_tx) refl)
      | inr begins ↦ elim (Bool-cases (faults 1)) [
        | inl fails ↦ inl (statement_failed, rw (begins, fails, write_tx) refl)
        | inr set ↦ elim (Result-cases (work s)) [
          | inr (e, failed) ↦ inl (e, rw (begins, set, failed, write_tx) refl)
          | inl (s', worked) ↦ elim (Bool-cases (faults s'.executed)) [
            | inl fails ↦ inl (statement_failed, rw (begins, set, worked, write_tx) (rw fails refl))
            | inr commits ↦
                inr (s, s', refl, worked, rw (begins, set, worked, write_tx) (rw commits refl))
          ]
        ]
      ]
    ]

pub lookup-remove {ℓ} :
    {V : Type ℓ} (key at : ℕ) (table : List (ℕ × V))
    → lookup at (remove key table) ≡ (if key == at then none else lookup at table)
unfolding lookup remove
lookup-remove key at [] = ground arith
lookup-remove key at ((k, v) ∷ table) =
    ground (arith, lookup-remove key at table, eqb_iff k key, eqb_iff k at, eqb_iff key at)
