-- ===== src/Crm/Merge/Envelope.antt =====
-- How a merge request ends, whatever it merges.
use lecrm.Common.{
  ℕ, false, Option, none, some, List, ◌==◌, nat_eq, Result, ok, ◌>>=◌, ◌≡◌, ◌≢◌, ◌⊎◌, inl, inr,
  refl, sym, ◌∙◌, ap, arith, Bool-cases, Result-cases,
}
use mathlib.Core.Path.{subst}
use lecrm.Crm.{
  Crm, CrmError, Faults, Session, run, load, statement_failed, survivor_not_found, loser_not_found,
}
use lecrm.Crm.Laws.{apply_all, run_ok, load_ok, write_tx_cases}
use lecrm.Crm.Merge.{merge_with, merge_status}

-- Two rows are loaded, then statements that depend on them are executed.
abbrev pub two_loads {ℓ} :
    {A : Type ℓ}
    → Faults
    → (Crm → Option A)
    → (Crm → Option A)
    → (A → A → List (Crm → Crm))
    → Session
    → Result CrmError Session
two_loads faults first second statements s = do
  found ← load faults first survivor_not_found s
  other ← load faults second loser_not_found found.0
  run faults (statements found.1 other.1) other.0

pub two_loads_ok {ℓ} :
    {A : Type ℓ} (faults : Faults) (first second : Crm → Option A)
    (statements : A → A → List (Crm → Crm)) (s s' : Session)
    → two_loads faults first second statements s ≡ ok s'
    → (a b : A) × (first s.db ≡ some a)
      × (second s.db ≡ some b)
      × (s'.db ≡ apply_all (statements a b) s.db)
two_loads_ok faults first second statements s s' h =
    elim (Result-cases (load faults first survivor_not_found s)) [
      | inr (e, failed) ↦ absurd (let h' = rw failed at h in cc)
      | inl ((s1, a), found) ↦ elim (Result-cases (load faults second loser_not_found s1)) [
        | inr (e, failed) ↦ absurd (let h' = rw (found, failed) at h in cc)
        | inl ((s2, b), other) ↦
            let (same1, there1) = load_ok faults _ _ s s1 a found in
            let (same2, there2) = load_ok faults _ _ s1 s2 b other in
            (
              a,
              b,
              there1,
              ap second (sym same1) ∙ there2,
              run_ok faults (statements a b) s2 s' (rw (found, other) at h)
                  ∙ ap (apply_all (statements a b)) (same2 ∙ same1),
            )
      ]
    ]

pub merge_status-ne : (e : CrmError) → merge_status (some e) ≢ 200
merge_status-ne statement_failed = λ p. omega arith
merge_status-ne survivor_not_found = λ p. omega arith
merge_status-ne loser_not_found = λ p. omega arith

-- The request is refused and changes nothing, or is answered 200 and has done its work.
abbrev pub IsServed {ℓ} :
    (ℕ → ℕ → Crm → Crm → Type ℓ) → Option ℕ → Option ℕ → Crm → Crm × ℕ → Type ℓ
IsServed P of_survivor of_loser db r =
    ((r.0 ≡ db) × (r.1 ≢ 200))
    ⊎ ((r.1 ≡ 200)
        × ((survivor loser : ℕ) × (of_survivor ≡ some survivor)
            × (of_loser ≡ some loser)
            × ((survivor == loser) ≡ false)
            × P survivor loser db r.0))

module _ {ℓ} (P : ℕ → ℕ → Crm → Crm → Type ℓ) (work : ℕ → ℕ → Session → Result CrmError Session)
    (does : (survivor loser : ℕ) (s s' : Session)
      → (survivor == loser) ≡ false
      → work survivor loser s ≡ ok s'
      → P survivor loser s.db s'.db) where
  pub merge_with-IsServed :
      (faults : Faults) (of_survivor of_loser : Option ℕ) (db : Crm)
      → IsServed P of_survivor of_loser db (merge_with work faults of_survivor of_loser db)
  merge_with-IsServed faults none of_loser db = inl (refl, λ p. omega arith)
  merge_with-IsServed faults (some survivor) none db = inl (refl, λ p. omega arith)
  merge_with-IsServed faults (some survivor) (some loser) db =
      elim (Bool-cases (survivor == loser)) [
        | inl same ↦ inl (rw same (refl, λ p. omega arith))
        | inr differ ↦ elim (write_tx_cases faults (work survivor loser) db) [
          | inl (e, failed) ↦ inl (rw (differ, failed) (refl, merge_status-ne e))
          | inr (s, s', at_start, worked, committed) ↦ inr (
            rw (differ, committed) refl,
            (
              survivor,
              loser,
              refl,
              refl,
              differ,
              rw (differ, committed)
                  (subst (λ d. P survivor loser d s'.db) at_start
                    (does survivor loser s s' differ worked)),
            ),
          )
        ]
      ]
