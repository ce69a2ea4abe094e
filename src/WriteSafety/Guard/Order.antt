-- ===== src/WriteSafety/Guard/Order.antt =====
-- What has to hold for a guarded write to change anything.
use lecrm.Common.{
  ℕ, ◌+◌, ◌≤◌, ◌<◌, Bool, true, false, Option, none, some, List, [], is_empty, Result, ok, ◌≡◌, ◌⊎◌,
  refl, arith,
}
use lecrm.WriteSafety.Authorize.{Principal, authorize_write}
use lecrm.WriteSafety.Confirm.{Crypto, Confirmer, confirm_token_ttl, issue, verify}
use lecrm.WriteSafety.Confirm.Handshake.{ByteDigests, issue_accepted, issue_given}
use lecrm.Encoding.Decimal.{int_limit}
use lecrm.WriteSafety.Guard.{
  Preview, WriteResult, previewed, written, GuardedWrite, WriteError, Closures, fresh, preview_of,
  run_apply, run_confirm, run_write, run_replay, run_dry, run,
}

-- A write that happened now, not one found in the cache.
abbrev pub is_fresh : {E F : Type 0} → Result (WriteError F) (WriteResult E) → Bool
is_fresh (ok (written status body false)) = true
is_fresh _ = false

module _ {S E F : Type 0} (crypto : Crypto) (digest : List ℕ → List E → List ℕ) where
  -- The token given names the effects that are planned now.
  abbrev pub IsConfirmed : GuardedWrite → Principal → ℕ → Closures S E F → S → Type 0
  IsConfirmed g p now k s =
      (c : Confirmer) × (preview : Preview E) × (g.confirmer ≡ some c)
      × (k.plan s ≡ ok preview)
      × (verify crypto c g.options.confirmation_token p.workspace_id g.operation
            (digest g.operation preview.effects) now
          ≡ true)

  -- Either nothing was done, or `apply` ran, as the confirmation allows.
  abbrev Guarded :
      GuardedWrite
      → Principal
      → ℕ
      → Closures S E F
      → S
      → S × Result (WriteError F) (WriteResult E)
      → Type 0
  Guarded g p now k s r =
      ((r.0 ≡ s) × (is_fresh r.1 ≡ false))
      ⊎ ((r ≡ fresh (k.apply s)) × ((g.destructive ≡ false) ⊎ IsConfirmed g p now k s))

  module _ (g : GuardedWrite) (p : Principal) (now : ℕ) (k : Closures S E F) (s : S) where
    run_confirm-Guarded : Guarded g p now k s (run_confirm crypto digest g p now k s)
    unfolding run_confirm run_apply
    run_confirm-Guarded = ground arith

    run_write-Guarded : Guarded g p now k s (run_write crypto digest g p now k s)
    unfolding run_write run_apply
    run_write-Guarded = ground (arith, run_confirm-Guarded)

    run_replay-Guarded : Guarded g p now k s (run_replay crypto digest g p now k s)
    unfolding run_replay
    run_replay-Guarded = ground (arith, run_write-Guarded)

    run_dry_guarded :
        ((run_dry crypto digest g p now k s).0 ≡ s)
        × (is_fresh (run_dry crypto digest g p now k s).1 ≡ false)
    unfolding run_dry
    run_dry_guarded = ground arith

    -- A write leaves the state as it was and writes nothing, or it is what `apply` does: then the
    -- principal is authorized to write, the call is no dry run, and a destructive call carried a token
    -- that the confirmer accepts now for the principal's workspace, the operation and the effects
    -- that are planned now.
    pub run_guarded :
        (((run crypto digest g p now k s).0 ≡ s)
          × (is_fresh (run crypto digest g p now k s).1 ≡ false))
        ⊎ ((run crypto digest g p now k s ≡ fresh (k.apply s))
            × (authorize_write p ≡ none)
            × (g.options.dry_run ≡ false)
            × ((g.destructive ≡ false) ⊎ IsConfirmed g p now k s))
    unfolding run
    run_guarded = ground (arith, run_dry_guarded, run_replay-Guarded)

module _ {S E F : Type 0} (crypto : Crypto) (digest : List ℕ → List E → List ℕ) where
  -- If `apply` stores its result under the key that `replay` looks up, a write that succeeded and is
  -- sent again with its key is answered with the same status and body, from the cache, and changes
  -- nothing.
  run-run :
      (g : GuardedWrite) (p : Principal) (now later : ℕ) (k : Closures S E F) (s : S)
      (look : S → Result F (Option (ℕ × List ℕ))) (status : ℕ) (body : List ℕ)
      → k.replay ≡ some look
      → look (k.apply s).0 ≡ ok (some (status, body))
      → is_empty g.options.idempotency_key ≡ false
      → (run crypto digest g p now k s).1 ≡ ok (written status body false)
      → run crypto digest g p later k (k.apply s).0 ≡ ((k.apply s).0, ok (written status body true))
  unfolding run run_replay run_dry
  run-run g p now later k s look status body wired stored key wrote = ground arith

  run_dry_token :
      (g : GuardedWrite) (p : Principal) (now : ℕ) (k : Closures S E F) (s : S)
      (preview : Preview E) (c : Confirmer)
      → g.destructive ≡ true
      → g.confirmer ≡ some c
      → g.options.dry_run ≡ true
      → (run crypto digest g p now k s).1 ≡ ok (previewed preview)
      → (authorize_write p ≡ none)
        × ((planned : Preview E) × (k.plan s ≡ ok planned)
            × (preview.confirmation_token
                ≡ issue crypto c p.workspace_id g.operation
                    (digest g.operation planned.effects)
                    now))
  unfolding run run_dry preview_of
  run_dry_token g p now k s preview c d w dry h = ground arith

  run_confirmed :
      (g : GuardedWrite) (p : Principal) (now : ℕ) (k : Closures S E F) (s : S)
      (planned : Preview E) (c : Confirmer)
      → authorize_write p ≡ none
      → g.options.idempotency_key ≡ []
      → g.confirmer ≡ some c
      → g.options.dry_run ≡ false
      → is_empty g.options.confirmation_token ≡ false
      → k.plan s ≡ ok planned
      → verify crypto c g.options.confirmation_token p.workspace_id g.operation
          (digest g.operation planned.effects)
          now
        ≡ true
      → run crypto digest g p now k s ≡ fresh (k.apply s)
  unfolding run run_replay run_write run_confirm run_apply
  run_confirmed g p now k s planned c auth key w dry given plan accepted = ground arith

  -- The handshake of a destructive write without an idempotency key: the token of a dry run confirms
  -- the real call of the same principal until ten minutes later, as long as the same state is behind
  -- it, and the call does what `apply` does. The digests of HMAC are bytes and the expiry fits an
  -- int64.
  pub run-run_dry :
      (g : GuardedWrite) (p : Principal) (now later : ℕ) (k : Closures S E F) (s : S)
      (preview : Preview E) (c : Confirmer)
      → ByteDigests crypto
      → now + confirm_token_ttl < int_limit
      → later ≤ now + confirm_token_ttl
      → g.options.idempotency_key ≡ []
      → g.destructive ≡ true
      → g.confirmer ≡ some c
      → g.options.dry_run ≡ true
      → (run crypto digest g p now k s).1 ≡ ok (previewed preview)
      → run crypto digest
          (record g {
            options = record g.options {
              dry_run = false;
              confirmation_token = preview.confirmation_token;
            };
          })
          p
          later
          k
          s
        ≡ fresh (k.apply s)
  run-run_dry g p now later k s preview c bytes fits soon key d w dry h =
      let found = run_dry_token g p now k s preview c d w dry h in
      let planned = found.1.0 in
      let effects = digest g.operation planned.effects in
      run_confirmed
        (record g {
          options = record g.options {
            dry_run = false;
            confirmation_token = preview.confirmation_token;
          };
        })
        p later k s planned c found.0 key w refl
        (rw found.1.2 (issue_given crypto c p.workspace_id g.operation effects now)) found.1.1
        (rw found.1.2
          (issue_accepted crypto c p.workspace_id g.operation effects now later bytes fits soon))
