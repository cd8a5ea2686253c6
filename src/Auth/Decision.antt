-- ===== src/Auth/Decision.antt =====
-- Who is let in, and as which business.
use dodo_invoice_service.Base.{
  ◌↔◌, ◌≤◌, String, ◌≡◌, Bool, true, false, some, [], arith, Option-cases, inl, inr,
}
use dodo_invoice_service.Models.{Uuid, ApiKeyRow}
use dodo_invoice_service.Db.{World, ok}
use dodo_invoice_service.Auth.{strip_prefix, len, take, api_key_of, is_revoked, from_request_parts}

-- The header carries the secret of a key of the business that is not revoked.
pub record IsLetIn (verify_secret : String → String → Bool) (header : String) (w : World) (b : Uuid)
    : Type 0 where
  pub token : String
  pub secret : String
  pub key : ApiKeyRow
  pub bearer : strip_prefix "Bearer " header ≡ some token
  pub marker : strip_prefix "sk_live_" token ≡ some secret
  pub long : 12 ≤ len secret
  pub found : api_key_of (take 12 secret) w.db ≡ some key
  pub active : is_revoked key ≡ false
  pub verified : verify_secret secret key.key_hash ≡ true
  pub owner : key.business_id ≡ b

module _ (verify_secret : String → String → Bool) (header : String) (w : World) where
  let_in :
      (b : Uuid)
      → (from_request_parts verify_secret (some header) w).0 ≡ ok b
      → IsLetIn verify_secret header w b
  unfolding from_request_parts
  let_in b h = elim (Option-cases (strip_prefix "Bearer " header)) [
    | inl e ↦ ground arith
    | inr (token, bearer) ↦ elim (Option-cases (strip_prefix "sk_live_" token)) [
      | inl e ↦ ground arith
      | inr (secret, marker) ↦ elim (Option-cases (api_key_of (take 12 secret) w.db)) [
        | inl e ↦ ground arith
        | inr (key, found) ↦ record {
          token = token;
          secret = secret;
          key = key;
          bearer = bearer;
          marker = marker;
          long = ground arith;
          found = found;
          active = ground arith;
          verified = ground arith;
          owner = ground arith;
        }
      ]
    ]
  ]

  lets_in :
      (b : Uuid)
      → w.faults ≡ []
      → IsLetIn verify_secret header w b
      → (from_request_parts verify_secret (some header) w).0 ≡ ok b
  unfolding from_request_parts
  lets_in b f l = ground (arith, l)

  -- If no statement fails, a request is let in as a business exactly if its Authorization header is the
  -- bearer token of a key of that business: the secret behind the marker is long enough, its prefix is in
  -- the table, and the row of the prefix is of the business, is not revoked and has a hash that the secret
  -- passes.
  pub authenticates_iff :
      (b : Uuid)
      → w.faults ≡ []
      → ((from_request_parts verify_secret (some header) w).0 ≡ ok b)
        ↔ IsLetIn verify_secret header w b
  authenticates_iff b f = (let_in b, lets_in b f)
