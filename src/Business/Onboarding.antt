-- ===== src/Business/Onboarding.antt =====
-- The API key of a new business, for any hash of its secret.
use Prim.Native.String.{◌++◌ as str_append}
use dodo_invoice_service.Base.{
  Bool, ◌+◌, ◌≤◌, String, ◌≡◌, refl, true, false, some, [], arith, ◌==◌, any, str_eq, is_blank,
  eq_refl,
}
use dodo_invoice_service.Db.{World, ok}
use dodo_invoice_service.Auth.{strip_prefix, take, len, from_request_parts}
use dodo_invoice_service.Business.{CreateBusinessResponse, create_business, generate_api_key}
use Prim.Native.String.append

strip_prefix-append : (p s : String) → strip_prefix p (str_append p s) ≡ some s
unfolding strip_prefix
strip_prefix-append String.[] s = rw (append.nil s) refl
strip_prefix-append (String.◌∷◌ c p) s =
    rw (append.cons c p s) (ground (arith, strip_prefix-append p s))

-- If Argon2 verifies a secret against its own hash, the secret has at least 12 characters, the name is
-- not blank, no statement fails, and neither the next two ids nor the prefix of the secret are taken,
-- then a business is created under the next id, and its key, sent as a bearer token, lets in as it.
pub create_business-lets_in :
    (hash_secret : String → String) (verify_secret : String → String → Bool)
    (secret_hex name : String) (w : World)
    → verify_secret secret_hex (hash_secret secret_hex) ≡ true
    → 12 ≤ len secret_hex
    → is_blank name ≡ false
    → w.faults ≡ []
    → any (λ b. b.id == w.uuid_at w.drawn) w.db.businesses ≡ false
    → any (λ r. r.id == w.uuid_at (w.drawn + 1)) w.db.api_keys ≡ false
    → any (λ r. str_eq r.key_prefix (take 12 secret_hex)) w.db.api_keys ≡ false
    → let resp : CreateBusinessResponse = record {
      business_id = w.uuid_at w.drawn;
      name = name;
      api_key = str_append "sk_live_" secret_hex;
    } in
      let (r, u) = create_business hash_secret secret_hex name w in
      (r ≡ ok (201, resp))
      × ((from_request_parts verify_secret (some (str_append "Bearer " resp.api_key)) u).0
          ≡ ok resp.business_id)
unfolding create_business generate_api_key from_request_parts
create_business-lets_in hash_secret verify_secret secret_hex name w checks long named f new_id
      new_key_id new_prefix =
    ground (
      arith,
      strip_prefix-append "Bearer " (str_append "sk_live_" secret_hex),
      strip_prefix-append "sk_live_" secret_hex,
      eq_refl (take 12 secret_hex),
    )
