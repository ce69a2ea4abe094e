-- ===== src/Auth/TokenStore/Admin.antt =====
-- The creation and the deletion of service tokens (apps/api/internal/auth/service_token_store.go,
-- service_token_handler.go).
use lecrm.Common.{
  ℕ, Bool, ◌&&◌, ◌||◌, not, String, Option, none, some, List, [], ◌∷◌, ◌++◌, any, is_empty, ◌==◌,
  codes_eq, nat_eq, string_eq, if◌then◌else◌, Result, ok, err,
}
use lecrm.Auth.Codec.{Json}
use lecrm.Auth.Token.{
  Argon, ServiceTokenError, name_required, invalid_actor_type, insert_failed, delete_failed,
  token_not_found, generate_service_token,
}
use lecrm.Auth.TokenStore.{TokenRow, all_scopes}

pub record CreateServiceTokenInput : Type 0 where
  pub name : List ℕ
  pub actor_type : String
  pub scopes : List (List ℕ)
  pub expires_at : Option ℕ

-- `ValidateActorType`
unfoldable pub validate_actor_type : String → Bool
validate_actor_type t =
    t == "human_api" || t == "mcp_agent" || t == "internal_service" || t == "connector"

abbrev pub new_row : ℕ → ℕ → CreateServiceTokenInput → List ℕ → List ℕ → TokenRow
new_row id ws input hash scopes = record {
  id = id;
  workspace_id = ws;
  name = input.name;
  token_hash = hash;
  actor_type = input.actor_type;
  scopes = scopes;
  expires_at = input.expires_at;
  last_used_at = none;
}

abbrev insert_token :
    Bool
    → Json (List (List ℕ))
    → ℕ
    → ℕ
    → CreateServiceTokenInput
    → Result ServiceTokenError (List ℕ × List ℕ)
    → List TokenRow
    → Result ServiceTokenError (List ℕ) × List TokenRow
insert_token fails json id ws input (err e) rows = (err e, rows)
insert_token fails json id ws input (ok (plaintext, hash)) rows =
    if fails then (err insert_failed, rows) else (
      ok plaintext,
      rows
          ++ new_row id ws input hash
              (json.marshal (if is_empty input.scopes then all_scopes else input.scopes))
            ∷ [],
    )

-- `Create`: the plaintext, and the row under a fresh identifier. The random bytes and the salt are
-- given.
unfoldable pub create :
    Argon
    → Json (List (List ℕ))
    → Bool
    → ℕ
    → Option (List ℕ)
    → Option (List ℕ)
    → ℕ
    → List ℕ
    → CreateServiceTokenInput
    → List TokenRow
    → Result ServiceTokenError (List ℕ) × List TokenRow
create argon json fails id random salt ws slug input rows =
    if is_empty input.name
    then (err name_required, rows)
    else if not (validate_actor_type input.actor_type)
    then (err invalid_actor_type, rows)
    else insert_token fails json id ws input (generate_service_token argon slug random salt) rows

abbrev pub is_token : ℕ → ℕ → TokenRow → Bool
is_token ws id row = row.workspace_id == ws && row.id == id

unfoldable pub remove_tokens : ℕ → ℕ → List TokenRow → List TokenRow
remove_tokens ws id [] = []
remove_tokens ws id (row ∷ rows) =
    let rest = remove_tokens ws id rows in if is_token ws id row then rest else row ∷ rest

-- `Delete`
unfoldable pub delete :
    Bool → ℕ → ℕ → List TokenRow → Result ServiceTokenError (Unit {0}) × List TokenRow
delete fails ws id rows = if fails then (err delete_failed, rows) else (
  if any (is_token ws id) rows then ok tt else err token_not_found,
  remove_tokens ws id rows,
)

abbrev delete_status : Result ServiceTokenError (Unit {0}) → ℕ
delete_status (ok u) = 204
delete_status (err token_not_found) = 404
delete_status (err e) = 500

-- `Delete` of the handler, of the identifier in the path, if it is one.
unfoldable pub handle_delete : Bool → ℕ → Option ℕ → List TokenRow → ℕ × List TokenRow
handle_delete fails ws none rows = (400, rows)
handle_delete fails ws (some id) rows =
    let (result, after) = delete fails ws id rows in (delete_status result, after)

abbrev created :
    Result ServiceTokenError (List ℕ) × List TokenRow → ℕ × Option (List ℕ) × List TokenRow
created (ok plaintext, rows) = (201, some plaintext, rows)
created (err e, rows) = (500, none, rows)

-- `Create` of the handler, of the body, if it decodes: the status, the plaintext and the table.
unfoldable pub handle_create :
    Argon
    → Json (List (List ℕ))
    → Bool
    → ℕ
    → Option (List ℕ)
    → Option (List ℕ)
    → ℕ
    → List ℕ
    → Option CreateServiceTokenInput
    → List TokenRow
    → ℕ × Option (List ℕ) × List TokenRow
handle_create argon json fails id random salt ws slug none rows = (400, none, rows)
handle_create argon json fails id random salt ws slug (some input) rows =
    if is_empty input.name || input.actor_type == "" || not (validate_actor_type input.actor_type)
    then (400, none, rows)
    else created (create argon json fails id random salt ws slug input rows)
