-- ===== src/Business.antt =====
-- invoice-service/src/handlers/business.rs, and `generate_api_key` of invoice-service/src/auth.rs. The
-- random secret, in hex, and the hash that Argon2 gives of it are parameters.
pub mod Onboarding
pub mod Issued
use Prim.Native.String.{◌++◌ as str_append}
use dodo_invoice_service.Base.{String, ◌∷◌, none, ◌==◌, ◌||◌, any, str_eq, is_blank, if◌then◌else◌}
use dodo_invoice_service.Error.{StatusCode, bad_request}
use dodo_invoice_service.Models.{Uuid, BusinessRow, ApiKeyRow}
use dodo_invoice_service.Db.{
  World, Exec, Outcome, done, violates, pure, raise_if, ◌>>=◌, ◌>>◌, statement, or_database_error,
  transaction, gen_random_uuid,
}
use dodo_invoice_service.Auth.{take, key_prefix_marker, prefix_len}

-- What `generate_api_key` returns.
pub record GeneratedKey : Type 0 where
  pub full_key : String
  pub prefix : String
  pub hash : String

unfoldable pub generate_api_key : (String → String) → String → GeneratedKey
unfolding take
generate_api_key hash_secret secret_hex = record {
  full_key = str_append key_prefix_marker secret_hex;
  prefix = take prefix_len secret_hex;
  hash = hash_secret secret_hex;
}

pub record CreateBusinessResponse : Type 0 where
  pub business_id : Uuid
  pub name : String
  pub api_key : String

unfoldable pub insert_business : String → World → Outcome Uuid × World
insert_business name w =
    let (id, w') = gen_random_uuid w in
    if any (λ b. b.id == id) w'.db.businesses then (violates "businesses_pkey", w') else (
      done id,
      record w' {
        db = record w'.db { businesses = record { id = id; name = name } ∷ w'.db.businesses };
      },
    )

abbrev pub new_api_key : Uuid → Uuid → GeneratedKey → ApiKeyRow
new_api_key id business_id k = record {
  id = id;
  business_id = business_id;
  key_prefix = k.prefix;
  key_hash = k.hash;
  revoked_at = none;
}

-- The primary key, and UNIQUE (key_prefix).
unfoldable pub insert_api_key : Uuid → GeneratedKey → World → Outcome (Unit {0}) × World
insert_api_key business_id k w =
    let (id, w') = gen_random_uuid w in
    if any (λ r. r.id == id) w'.db.api_keys
    then (violates "api_keys_pkey", w')
    else if any (λ r. str_eq r.key_prefix k.prefix) w'.db.api_keys
    then (violates "api_keys_key_prefix_key", w')
    else (
      done tt,
      record w' { db = record w'.db { api_keys = new_api_key id business_id k ∷ w'.db.api_keys } },
    )

-- The transaction of `create_business`.
unfoldable pub business_in_tx : String → GeneratedKey → Exec Uuid
unfolding statement insert_business insert_api_key
business_in_tx name k = do
  inserted ← statement (insert_business name)
  business_id ← or_database_error inserted
  key_inserted ← statement (insert_api_key business_id k)
  or_database_error key_inserted
  pure business_id

unfoldable pub create_business :
    (String → String) → String → String → Exec (StatusCode × CreateBusinessResponse)
unfolding transaction business_in_tx generate_api_key
create_business hash_secret secret_hex name = do
  raise_if (is_blank name) (bad_request "invalid_name" "name must not be empty")
  let k = generate_api_key hash_secret secret_hex
  business_id ← transaction (business_in_tx name k)
  pure (201, record { business_id = business_id; name = name; api_key = k.full_key })
