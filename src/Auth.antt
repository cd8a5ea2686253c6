-- ===== src/Auth.antt =====
-- invoice-service/src/auth.rs: the extractor that every handler of a business goes through. What
-- Argon2 says of a secret and a stored hash (`verify_secret`) is a parameter. The text of a header is
-- visible ASCII, so that its bytes are its characters.
pub mod Decision
pub mod Secret
use Prim.Native.Char.{code}
use dodo_invoice_service.Base.{
  ℕ, suc, String, Bool, true, false, not, Option, none, some, str_eq, ltb, ◌==◌, find,
  if◌then◌else◌,
}
use dodo_invoice_service.Error.{AppError, new, unauthorized}
use dodo_invoice_service.Models.{Uuid, ApiKeyRow}
use dodo_invoice_service.Db.{Db, Exec, pure, ok_or, raise_if, ◌>>=◌, ◌>>◌, query}
use Prim.Native.Nat.{zero}

-- `s.strip_prefix(p)`
unfoldable pub strip_prefix : String → String → Option String
strip_prefix String.[] s = some s
strip_prefix (String.◌∷◌ c p) String.[] = none
strip_prefix (String.◌∷◌ c p) (String.◌∷◌ d s) =
    let rest = strip_prefix p s in if code c == code d then rest else none

-- `secret.len()`
unfoldable pub len : String → ℕ
len String.[] = 0
len (String.◌∷◌ c s) = suc (len s)

-- `&secret[..n]`
unfoldable pub take : ℕ → String → String
take zero s = ""
take (suc n) String.[] = ""
take (suc n) (String.◌∷◌ c s) = String.◌∷◌ c (take n s)

-- SELECT … FROM api_keys WHERE key_prefix = $1
abbrev pub api_key_of : String → Db → Option ApiKeyRow
api_key_of prefix db = find (λ k. str_eq k.key_prefix prefix) db.api_keys

abbrev pub is_revoked : ApiKeyRow → Bool
is_revoked k = elim k.revoked_at [ none ↦ false | some _ ↦ true ]

-- The text before the secret of a key, and how much of the secret is stored in the clear.
abbrev pub key_prefix_marker : String
key_prefix_marker = "sk_live_"

abbrev pub prefix_len : ℕ
prefix_len = 12

abbrev pub invalid_api_key : String → AppError
invalid_api_key = unauthorized "invalid_api_key"

unfoldable pub from_request_parts : (String → String → Bool) → Option String → Exec Uuid
unfolding strip_prefix len take query
from_request_parts verify_secret authorization = do
  header ← ok_or authorization (new 401 "missing_api_key" "missing Authorization header")
  token ←
      ok_or (strip_prefix "Bearer " header)
        (new 401 "malformed_authorization_header" "expected 'Authorization: Bearer <api_key>'")
  secret ←
      ok_or (strip_prefix key_prefix_marker token) (invalid_api_key "unrecognized API key format")
  raise_if (ltb (len secret) prefix_len) (invalid_api_key "malformed API key")
  let prefix = take prefix_len secret
  row ← query (api_key_of prefix)
  key ← ok_or row (invalid_api_key "API key not recognized")
  raise_if (is_revoked key) (unauthorized "revoked_api_key" "API key has been revoked")
  raise_if (not (verify_secret secret key.key_hash)) (invalid_api_key "API key not recognized")
  pure key.business_id
