-- ===== src/WriteSafety/Guard.antt =====
-- The order of the controls around one write (writesafety.go, `GuardedWrite`).
-- The three closures are functions on the state `S` behind them: replay and plan read it, apply
-- changes it. `digest` is ComputeEffectDigest, a hash of the operation and the effects.
pub mod Order
use lecrm.Common.{
  ℕ, Bool, true, false, ◌&&◌, not, Option, none, some, List, [], ◌∷◌, is_empty, Result, ok, err,
  if◌then◌else◌,
}
use lecrm.WriteSafety.Authorize.{Principal, AuthError, authorize_write}
use lecrm.WriteSafety.Confirm.{Crypto, Confirmer, issue, verify}

-- `E` is the type of the effects.
pub record Preview (E : Type 0) : Type 0 where
  pub dry_run : Bool
  pub operation : List ℕ
  pub summary : List ℕ
  pub effects : List E
  pub confirmation_required : Bool
  pub confirmation_token : List ℕ

pub record WriteOptions : Type 0 where
  pub idempotency_key : List ℕ
  pub dry_run : Bool
  pub confirmation_token : List ℕ

pub data WriteResult (E : Type 0) : Type 0 where
  previewed : Preview E → WriteResult E
  -- status, body, and whether it came from the cache
  written : ℕ → List ℕ → Bool → WriteResult E

pub record GuardedWrite : Type 0 where
  pub operation : List ℕ
  pub destructive : Bool
  pub options : WriteOptions
  pub confirmer : Option Confirmer

pub data WriteError (F : Type 0) : Type 0 where
  denied : AuthError → WriteError F
  no_confirmer confirmation_required confirmation_invalid : WriteError F
  closure : F → WriteError F

-- `S` the state, `E` the effects, `F` the errors of the closures.
pub record Closures (S E F : Type 0) : Type 0 where
  -- none if there is no such closure; a miss is `ok none`
  pub replay : Option (S → Result F (Option (ℕ × List ℕ)))
  pub plan : S → Result F (Preview E)
  pub apply : S → S × Result F (ℕ × List ℕ)

abbrev pub lacks_confirmer : GuardedWrite → Bool
lacks_confirmer g = elim g.confirmer [ none ↦ g.destructive | some _ ↦ false ]

-- A result of `apply`, as a result of the write.
abbrev pub fresh :
    {S E F : Type 0} → S × Result F (ℕ × List ℕ) → S × Result (WriteError F) (WriteResult E)
fresh (s, ok (status, body)) = (s, ok (written status body false))
fresh (s, err e) = (s, err (closure e))

module _ {E : Type 0} (crypto : Crypto) (digest : List ℕ → List E → List ℕ) where
  -- The preview of step 2.
  unfoldable pub preview_of : GuardedWrite → Principal → ℕ → Preview E → Preview E
  preview_of g p now preview =
      let named : Preview E = record preview { dry_run = true; operation = g.operation } in
      if g.destructive
      then elim g.confirmer [
        | none ↦ named
        | some c ↦ record named {
          confirmation_required = true;
          confirmation_token =
              issue crypto c p.workspace_id g.operation (digest g.operation preview.effects) now;
        }
      ]
      else named

module _ {S E F : Type 0} (crypto : Crypto) (digest : List ℕ → List E → List ℕ) where
  -- Step 5.
  unfoldable pub run_apply : Closures S E F → S → S × Result (WriteError F) (WriteResult E)
  run_apply k s = fresh (k.apply s)

  -- Step 4.
  unfoldable pub run_confirm :
      GuardedWrite → Principal → ℕ → Closures S E F → S → S × Result (WriteError F) (WriteResult E)
  unfolding run_apply
  run_confirm g p now k s = elim g.confirmer [
    | none ↦ (s, err no_confirmer)
    | some c ↦
        if is_empty g.options.confirmation_token
        then (s, err confirmation_required)
        else elim (k.plan s) [
          | err e ↦ (s, err (closure e))
          | ok preview ↦
              if verify crypto c g.options.confirmation_token p.workspace_id g.operation
                (digest g.operation preview.effects) now
              then run_apply k s
              else (s, err confirmation_invalid)
        ]
  ]

  unfoldable pub run_write :
      GuardedWrite → Principal → ℕ → Closures S E F → S → S × Result (WriteError F) (WriteResult E)
  run_write g p now k s = if g.destructive then run_confirm g p now k s else run_apply k s

  -- Step 3.
  unfoldable pub run_replay :
      GuardedWrite → Principal → ℕ → Closures S E F → S → S × Result (WriteError F) (WriteResult E)
  run_replay g p now k s =
      if is_empty g.options.idempotency_key then run_write g p now k s else elim k.replay [
        | none ↦ run_write g p now k s
        | some look ↦ elim (look s) [
          | err e ↦ (s, err (closure e))
          | ok none ↦ run_write g p now k s
          | ok (some (status, body)) ↦ (s, ok (written status body true))
        ]
      ]

  -- Step 2.
  unfoldable pub run_dry :
      GuardedWrite → Principal → ℕ → Closures S E F → S → S × Result (WriteError F) (WriteResult E)
  run_dry g p now k s = elim (k.plan s) [
    | err e ↦ (s, err (closure e))
    | ok preview ↦ (s, ok (previewed (preview_of crypto digest g p now preview)))
  ]

  -- `Run`
  unfoldable pub run :
      GuardedWrite → Principal → ℕ → Closures S E F → S → S × Result (WriteError F) (WriteResult E)
  run g p now k s = elim (authorize_write p) [
    | some e ↦ (s, err (denied e))
    | none ↦
        if lacks_confirmer g
        then (s, err no_confirmer)
        else if g.options.dry_run
        then run_dry g p now k s
        else run_replay g p now k s
  ]
