-- ===== src/Business/Issued.antt =====
-- The API key of a new business, with the hash that is stored of it.
use dodo_invoice_service.Auth.{from_request_parts, len, take}
use dodo_invoice_service.Auth.Secret.{
  Argon2, IsSound, hash_secret, verify_secret, verify-hash_secret,
}
use dodo_invoice_service.Business.Onboarding.{create_business-lets_in}
use Prim.Native.String.{◌++◌ as str_append}
use dodo_invoice_service.Base.{str_eq, ◌+◌, ◌==◌, any, [], false, is_blank, ◌≤◌, some, ◌≡◌, String}
use dodo_invoice_service.Db.{ok, World}
use dodo_invoice_service.Business.{create_business, CreateBusinessResponse}

-- If Argon2 can hash any secret with the salt, and reads and verifies what it hashed, then, where the secret has
-- at least 12 characters, the name is not blank, no statement fails, and neither the next two ids nor the prefix
-- of the secret are taken, a business is created under the next id by the hashing of hash_secret, and its key, sent
-- as a bearer token, lets in as it by verify_secret.
pub issued_key_lets_in :
    {H : Type 0} (lib : Argon2 H) (salt secret_hex name : String) (hash_of : String → String)
    (w : World)
    → IsSound lib
    → ((secret : String) → hash_secret lib salt secret ≡ some (hash_of secret))
    → 12 ≤ len secret_hex
    → is_blank name ≡ false
    → w.faults ≡ []
    → any (λ b. b.id == w.uuid_at w.drawn) w.db.businesses ≡ false
    → any (λ r. r.id == w.uuid_at (w.drawn + 1)) w.db.api_keys ≡ false
    → any (λ r. str_eq r.key_prefix (take 12 secret_hex)) w.db.api_keys ≡ false
    → let resp : CreateBusinessResponse = record {
      business_id = w.uuid_at w.drawn;
      name = name;
      api_key = str_append "sk_live_" secret_hex;
    } in
      let (r, u) = create_business hash_of secret_hex name w in
      (r ≡ ok (201, resp))
      × ((from_request_parts (verify_secret lib) (some (str_append "Bearer " resp.api_key)) u).0
          ≡ ok resp.business_id)
issued_key_lets_in lib salt secret_hex name hash_of w sound hashes =
    create_business-lets_in hash_of (verify_secret lib) secret_hex name w
      (verify-hash_secret lib salt secret_hex (hash_of secret_hex) sound (hashes secret_hex))
