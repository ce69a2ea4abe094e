-- ===== src/Sequences/Transition/Life.antt =====
-- Whole histories: any jobs, in any order, against the tables of one workspace.
use lecrm.Common.{
  ℕ, suc, ◌+◌, String, true, Option, some, List, [], ◌∷◌, ◌≡◌, ◌≢◌, refl, sym, ap, ◌∙◌, arith, inl,
  inr, Bool-cases, lookup, update, lookup-update, nat_eq, ◌==◌, eqb_iff, length, length-append,
}
use lecrm.Sequences.State.{State, text_of_state, state_of_text, is_terminal}
use lecrm.Sequences.State.Graph.{
  ◌⟶◌, ◌⟶*◌, here, step, ⟶-can_transition, can_transition-declared, state_of_text-text_of_state,
  terminal_absorbs,
}
use lecrm.Sequences.Store.{
  Enrollment, Db, Faults, Outcome, done, failed, panicked, TxError, Pool, run_in_tx,
}
use lecrm.Sequences.Transition.{TransitionError, set_clauses, transition}
use lecrm.Sequences.Transition.Options.{ConfigOption}
use lecrm.Sequences.Transition.Effects.{config_of, transition_atomic}

-- One job that asks for a transition, with the accidents that befall it.
pub record Request : Type 0 where
  pub pool : Pool
  pub faults : Faults
  pub now : ℕ
  pub id : ℕ
  pub target : State
  pub reason : String
  pub opts : List ConfigOption

unfoldable pub serve : Request → Db → Db × Outcome (TxError TransitionError)
serve r d = run_in_tx r.pool (transition r.faults r.now r.id r.target r.reason r.opts) d

unfoldable pub serve_all : List Request → Db → Db
serve_all [] d = d
serve_all (r ∷ rs) d = serve_all rs (serve r d).0

-- How many of the requests were committed.
abbrev count_done : Outcome (TxError TransitionError) → ℕ → ℕ
count_done done n = suc n
count_done _ n = n

unfoldable pub committed : List Request → Db → ℕ
committed [] d = 0
committed (r ∷ rs) d = count_done (serve r d).1 (committed rs (serve r d).0)

not_counted : (o : Outcome (TxError TransitionError)) (n : ℕ) → o ≢ done → count_done o n ≡ n
not_counted done n h = absurd (h refl)
not_counted (failed e) n h = refl
not_counted (panicked e) n h = refl

-- Where an enrollment's state can be in the tables `d'`, having been `s`.
abbrev pub Follows : State → Option Enrollment → Type 0
Follows s found = (row : Enrollment) × (found ≡ some row) × (s ⟶* state_of_text row.state)

-- An edge writes a state that is read back as it was meant.
read_back : {s t : State} → s ⟶ t → state_of_text (text_of_state t) ≡ t
read_back e = state_of_text-text_of_state _ (can_transition-declared _ _ (⟶-can_transition e)).1

written_state :
    (now : ℕ) (target : State) (opts : List ConfigOption) (row : Enrollment)
    → state_of_text row.state ⟶ target
    → state_of_text row.state
      ⟶* state_of_text (set_clauses now target (config_of target opts) row).state
unfolding set_clauses
written_state now target opts row e = rw (read_back e) (step e here)

pub update-Follows :
    (id j now : ℕ) (target : State) (opts : List ConfigOption) (row old : Enrollment)
    (table : List (ℕ × Enrollment))
    → lookup id table ≡ some row
    → state_of_text row.state ⟶ target
    → lookup j table ≡ some old
    → Follows
        (state_of_text old.state)
        (lookup j (update id (set_clauses now target (config_of target opts)) table))
update-Follows id j now target opts row old table found edge at = elim (Bool-cases (id == j)) [
  | inl same ↦
      let here_too : row ≡ old =
        cc (found, at, ap (λ (k : ℕ). lookup k table) ((eqb_iff id j).0 same)) in
      (
        set_clauses now target (config_of target opts) old,
        lookup-update id j (set_clauses now target (config_of target opts)) table ∙ rw (same, at),
        written_state now target opts old (rw here_too at edge),
      )
  | inr other ↦ (
    old,
    lookup-update id j (set_clauses now target (config_of target opts)) table ∙ rw (other, at),
    here,
  )
]

serve-Follows :
    (r : Request) (d : Db) (j : ℕ) (old : Enrollment)
    → lookup j d.enrollments ≡ some old
    → Follows (state_of_text old.state) (lookup j (serve r d).0.enrollments)
unfolding serve
serve-Follows r d j old at =
    elim (transition_atomic r.pool r.faults r.now r.id r.target r.reason r.opts d) [
      | inl (_, same) ↦ rw same (old, at, here)
      | inr (_, (row, found, edge, tables)) ↦
          rw tables
            (update-Follows r.id j r.now r.target r.opts row old d.enrollments found edge at)
    ]

pub path_trans : {s t u : State} → s ⟶* t → t ⟶* u → s ⟶* u
path_trans here q = q
path_trans (step e p) q = step e (path_trans p q)

-- Whatever requests are served, with whatever faults, every enrollment is still there afterwards and
-- its state has moved along a path of the diagram.
pub serve_all_follows :
    (rs : List Request) (d : Db) (j : ℕ) (old : Enrollment)
    → lookup j d.enrollments ≡ some old
    → (row : Enrollment) × (lookup j (serve_all rs d).enrollments ≡ some row)
      × (state_of_text old.state ⟶* state_of_text row.state)
unfolding serve_all
serve_all_follows [] d j old at = (old, at, here)
serve_all_follows (r ∷ rs) d j old at =
    let (mid, at', first) = serve-Follows r d j old at in
    let (row, at'', rest) = serve_all_follows rs (serve r d).0 j mid at' in
    (row, at'', path_trans first rest)

-- An enrollment in a terminal state keeps it, whatever requests are served.
serve_all_terminal :
    (rs : List Request) (d : Db) (j : ℕ) (old : Enrollment)
    → lookup j d.enrollments ≡ some old
    → is_terminal (state_of_text old.state) ≡ true
    → (row : Enrollment) × (lookup j (serve_all rs d).enrollments ≡ some row)
      × (state_of_text row.state ≡ state_of_text old.state)
serve_all_terminal rs d j old at final =
    let (row, at', path) = serve_all_follows rs d j old at in
    (row, at', terminal_absorbs final path)

serve_audited :
    (r : Request) (d : Db) (n : ℕ)
    → length (serve r d).0.audit_log + n ≡ length d.audit_log + count_done (serve r d).1 n
unfolding serve
serve_audited r d n =
    elim (transition_atomic r.pool r.faults r.now r.id r.target r.reason r.opts d) [
      | inl (failure, same) ↦
          rw same (sym (ap (λ (k : ℕ). length d.audit_log + k) (not_counted _ n failure)))
      | inr (success, (row, _, _, tables)) ↦ rw (tables, success) (omega (arith, length-append {0}))
    ]

-- The audit log grows by one row for each request that was committed, and by no other.
pub serve_all_audited :
    (rs : List Request) (d : Db)
    → length (serve_all rs d).audit_log ≡ length d.audit_log + committed rs d
unfolding serve_all committed
serve_all_audited [] d = omega arith
serve_all_audited (r ∷ rs) d =
    serve_all_audited rs (serve r d).0 ∙ serve_audited r d (committed rs (serve r d).0)
