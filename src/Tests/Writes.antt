-- ===== src/Tests/Writes.antt =====
-- A guarded write of a counter: `plan` names what is to be deleted, `apply` deletes it.
use lecrm.Common.{
  ℕ, ◌+◌, ◌%◌, ◌≤◌, String, true, false, Option, none, some, List, [], ◌∷◌, ◌++◌, All, ◌≡◌, ◌⊎◌,
  ◌↔◌, refl, Result, ok, arith,
}
use lecrm.Common.Text.{codes}
use lecrm.Encoding.Base64.{IsByte}
use lecrm.Encoding.Split.{join}
use lecrm.WriteSafety.Authorize.{Principal, role_admin, authorize_write, at_least, authorize}
use lecrm.WriteSafety.Confirm.{Crypto, Confirmer, confirm_token_ttl, issue, message, verify}
use lecrm.Encoding.Hex.{hex}
use lecrm.WriteSafety.Confirm.Handshake.{ByteDigests}
use lecrm.WriteSafety.Digest.{Hasher, compute_effect_digest}
use lecrm.WriteSafety.Digest.Binding.{IsHash, verify-compute_effect_digest}
use lecrm.WriteSafety.Guard.{Preview, GuardedWrite, Closures, fresh, run, run_dry, preview_of}
use lecrm.WriteSafety.Guard.Order.{IsConfirmed, is_fresh, run_guarded, run-run_dry}

-- In place of HMAC, the message itself, by bytes.
abbrev plain : List ℕ → List ℕ
plain [] = []
plain (b ∷ bs) = b % 256 ∷ plain bs

plain-IsByte : (bs : List ℕ) → All IsByte (plain bs)
plain-IsByte [] = tt
plain-IsByte (b ∷ bs) = (omega arith, plain-IsByte bs)

abbrev crypto : Crypto
crypto = record { hmac = λ k m. plain m; uuid_text = λ n. (b'a' + n) ∷ [] }

crypto-ByteDigests : ByteDigests crypto
crypto-ByteDigests k m = plain-IsByte m

abbrev confirmer : Confirmer
confirmer = record { secret = codes "secret" }

abbrev operation : List ℕ
operation = codes "deals.delete"

abbrev other_operation : List ℕ
other_operation = codes "deals.update"

-- The digest of effects that are numbers.
abbrev digest : List ℕ → List ℕ → List ℕ
digest op effects = b'd' ∷ effects

-- In place of SHA-256, the body itself, by bytes.
abbrev hasher : Hasher ℕ
hasher = record { sha256 = plain; marshal = λ op effects. op ++ effects }

hasher-IsHash : IsHash hasher (codes "dx") (codes "dy")
hasher-IsHash = record { bytes = plain-IsByte; apart = λ h. absurd (ground arith) }

messages_apart :
    crypto.hmac confirmer.secret (
        message crypto 1
          (codes "d")
          (compute_effect_digest hasher (codes "d") (codes "x"))
          (1000 + confirm_token_ttl))
      ≡ crypto.hmac confirmer.secret (
          message crypto 1
            (codes "d")
            (compute_effect_digest hasher (codes "d") (codes "y"))
            (1000 + confirm_token_ttl))
    → message crypto 1
        (codes "d")
        (compute_effect_digest hasher (codes "d") (codes "x"))
        (1000 + confirm_token_ttl)
      ≡ message crypto 1
          (codes "d")
          (compute_effect_digest hasher (codes "d") (codes "y"))
          (1000 + confirm_token_ttl)
unfolding message join compute_effect_digest hex
messages_apart h = absurd (ground arith)

verify-compute_effect_digest_example :
    (verify crypto confirmer
        (issue crypto confirmer 1
          (codes "d")
          (compute_effect_digest hasher (codes "d") (codes "x"))
          1000)
        1
        (codes "d")
        (compute_effect_digest hasher (codes "d") (codes "y"))
        1300
      ≡ true)
    ↔ ((1300 ≤ 1000 + confirm_token_ttl)
        × (crypto.uuid_text 1 ≡ crypto.uuid_text 1)
        × (codes "d" ≡ codes "d")
        × (codes "dx" ≡ codes "dy"))
verify-compute_effect_digest_example =
    verify-compute_effect_digest crypto hasher confirmer 1 1 (codes "d") (codes "d") (codes "x")
      (codes "y") 1000 1300 crypto-ByteDigests hasher-IsHash messages_apart (ground arith)
      (ground arith) (ground arith) (ground arith) (omega arith)

abbrev agent : Principal
agent = record {
  workspace_id = 1;
  schema = "ws_one";
  role = role_admin;
  actor_type = "mcp";
  scopes = [];
  is_service_token = true;
  read_role = "";
}

abbrev dry_deletion : GuardedWrite
dry_deletion = record {
  operation = operation;
  destructive = true;
  options = record { idempotency_key = []; dry_run = true; confirmation_token = [] };
  confirmer = some confirmer;
}

abbrev keyed_write : GuardedWrite
keyed_write = record {
  operation = other_operation;
  destructive = false;
  options = record { idempotency_key = codes "k1"; dry_run = false; confirmation_token = [] };
  confirmer = none;
}

-- What is stored: the deals, and the one cached result.
abbrev Deals : Type 0
Deals = List ℕ × Option (ℕ × List ℕ)

abbrev deals : Deals
deals = (4 ∷ 9 ∷ [], none)

abbrev planned : Preview ℕ
planned = record {
  dry_run = false;
  operation = [];
  summary = [];
  effects = 4 ∷ 9 ∷ [];
  confirmation_required = false;
  confirmation_token = [];
}

abbrev cached : Deals → Result String (Option (ℕ × List ℕ))
cached s = ok s.1

abbrev closures : Closures Deals ℕ String
closures = record {
  replay = some cached;
  plan = λ s. ok (record planned { effects = s.0 });
  apply = λ s. (([], some (200, codes "done")), ok (200, codes "done"));
}

abbrev shown : Preview ℕ
unfolding preview_of
shown = preview_of crypto digest dry_deletion agent 1000 (record planned { effects = 4 ∷ 9 ∷ [] })

run_guarded_example :
    (((run crypto digest dry_deletion agent 1000 closures deals).0 ≡ deals)
      × (is_fresh (run crypto digest dry_deletion agent 1000 closures deals).1 ≡ false))
    ⊎ ((run crypto digest dry_deletion agent 1000 closures deals ≡ fresh (closures.apply deals))
        × (authorize_write agent ≡ none)
        × (true ≡ false)
        × ((true ≡ false) ⊎ IsConfirmed crypto digest dry_deletion agent 1000 closures deals))
run_guarded_example = run_guarded crypto digest dry_deletion agent 1000 closures deals

run-run_dry_example :
    run crypto digest
      (record dry_deletion {
        options = record dry_deletion.options {
          dry_run = false;
          confirmation_token = shown.confirmation_token;
        };
      })
      agent
      1300
      closures
      deals
    ≡ fresh (closures.apply deals)
unfolding run run_dry preview_of authorize_write at_least authorize
run-run_dry_example =
    run-run_dry crypto digest dry_deletion agent 1000 1300 closures deals shown confirmer
      crypto-ByteDigests (omega arith) (omega arith) refl refl refl refl refl
