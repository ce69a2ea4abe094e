-- ===== src/Crm/Duplicates/Distinct.antt =====
-- A pair that was marked as distinct.
use lecrm.Common.{
  ℕ, ◌≤◌, true, ◌==◌, nat_eq, some, List, [], ◌∷◌, All, any, ◌≡◌, ◌≢◌, inl, inr, ◌∙◌, ap, arith,
  Bool-cases,
}
use lecrm.Crm.{Entity, contact, Crm, Faults, run}
use lecrm.Crm.Laws.{apply_all, run_ok, write_tx_cases}
use lecrm.Crm.Merge.{canonical_pair, is_rule, insert_rule, mark_distinct}
use lecrm.Crm.Merge.Envelope.{merge_status-ne}
use lecrm.Crm.Duplicates.{Unicode, Pair, has_pair, exclusions, is_excluded, suggestions}
use lecrm.Crm.Duplicates.Exclusion.{
  IsSuggestion, suggestions-IsSuggestion, has_pair-exclusions, insert_rule_there,
}

canonical_pair-le : (a b : ℕ) → (canonical_pair a b).0 ≤ (canonical_pair a b).1
unfolding canonical_pair
canonical_pair-le a b = ground arith

-- The pairs that stay clear of one that is excluded.
All-IsOther :
    (unicode : Unicode) (excluded : List (ℕ × ℕ)) (lo_hi : ℕ × ℕ) (pairs : List Pair)
    → has_pair lo_hi excluded ≡ true
    → All (IsSuggestion unicode excluded) pairs
    → All (λ p. canonical_pair p.a.0 p.b.0 ≢ lo_hi) pairs
unfolding is_excluded
All-IsOther unicode excluded lo_hi [] h hs = tt
All-IsOther unicode excluded lo_hi (p ∷ pairs) h hs = (
  (λ e. let there = ap (λ q. has_pair q excluded) e ∙ h in let free = hs.0.0 in cc),
  All-IsOther unicode excluded lo_hi pairs h hs.1,
)

mark_distinct_there :
    (faults : Faults) (kind : Entity) (a b : ℕ) (db : Crm)
    → (mark_distinct faults kind (some a) (some b) db).1 ≡ 200
    → any
        (is_rule kind (canonical_pair a b).0 (canonical_pair a b).1)
        (mark_distinct faults kind (some a) (some b) db).0.no_merge_rules
      ≡ true
unfolding mark_distinct apply_all
mark_distinct_there faults kind a b db h =
    let lo = (canonical_pair a b).0 in
    let hi = (canonical_pair a b).1 in
    let work = run faults (insert_rule kind lo hi ∷ []) in
    elim (Bool-cases (a == b)) [
      | inl same ↦ absurd (let h' = rw (same, mark_distinct) at h in omega arith)
      | inr differ ↦ elim (write_tx_cases faults work db) [
        | inl (e, failed) ↦ absurd (merge_status-ne e (rw (differ, mark_distinct, failed) at h))
        | inr (s, s', at_start, worked, committed) ↦
            let ran = run_ok faults (insert_rule kind lo hi ∷ []) s s' worked in
            rw (differ, mark_distinct, committed)
              (ap (λ d. any (is_rule kind lo hi) d.no_merge_rules)
                  (ran ∙ ap (insert_rule kind lo hi) at_start)
                ∙ insert_rule_there kind lo hi db)
      ]
    ]

-- Two contacts that were marked as distinct, with status 200, are not suggested for a merge by a list
-- that reads all the rules.
pub suggestions-mark_distinct :
    (unicode : Unicode) (faults : Faults) (a b : ℕ) (db : Crm)
    → (mark_distinct faults contact (some a) (some b) db).1 ≡ 200
    → let db' = (mark_distinct faults contact (some a) (some b) db).0 in
      All
        (λ p. canonical_pair p.a.0 p.b.0 ≢ canonical_pair a b)
        (suggestions unicode db'.no_merge_rules db'.contacts)
suggestions-mark_distinct unicode faults a b db h =
    let db' = (mark_distinct faults contact (some a) (some b) db).0 in
    All-IsOther unicode (exclusions contact db'.no_merge_rules) (canonical_pair a b)
      (suggestions unicode db'.no_merge_rules db'.contacts)
      (has_pair-exclusions contact (canonical_pair a b).0 (canonical_pair a b).1 db'.no_merge_rules
        (mark_distinct_there faults contact a b db h) (canonical_pair-le a b))
      (suggestions-IsSuggestion unicode db'.no_merge_rules db'.contacts)
