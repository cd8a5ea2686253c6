-- ===== src/Auth/Secret.antt =====
-- invoice-service/src/auth.rs: `hash_secret` and `verify_secret`. The crate argon2, with the hashes of the crate
-- password_hash and the random salt, is a parameter.
use dodo_invoice_service.Base.{
  sym, inr, arith, inl, Option-cases, String, Option, none, some, Bool, false, true, ◌≡◌,
}

-- `H` is PasswordHash. A call that returns an error gives none or false.
pub record Argon2 (H : Type 0) : Type 0 where
  -- Of a secret and a salt.
  pub hash_password : String → String → Option H
  pub to_string : H → String
  -- `PasswordHash::new`
  pub read_hash : String → Option H
  pub verify_password : String → H → Bool

-- The text of a hash of Argon2 is read back, and the secret that was hashed is verified.
pub record IsSound {H : Type 0} (lib : Argon2 H) : Type 0 where
  pub reads :
      (secret salt : String) (h : H)
      → lib.hash_password secret salt ≡ some h
      → lib.read_hash (lib.to_string h) ≡ some h
  pub verifies :
      (secret salt : String) (h : H)
      → lib.hash_password secret salt ≡ some h
      → lib.verify_password secret h ≡ true

module _ {H : Type 0} (lib : Argon2 H) where
  -- none is the panic of `expect`.
  unfoldable pub hash_secret : String → String → Option String
  hash_secret salt secret = elim (lib.hash_password secret salt) [
    | none ↦ none
    | some h ↦ some (lib.to_string h)
  ]

  unfoldable pub verify_secret : String → String → Bool
  verify_secret secret hash = elim (lib.read_hash hash) [
    | none ↦ false
    | some h ↦ lib.verify_password secret h
  ]

  pub verify-hash_secret :
      (salt secret hash : String)
      → IsSound lib
      → hash_secret salt secret ≡ some hash
      → verify_secret secret hash ≡ true
  unfolding hash_secret verify_secret
  verify-hash_secret salt secret hash sound h =
      elim (Option-cases (lib.hash_password secret salt)) [
        | inl fails ↦ absurd (ground (arith, h, fails))
        | inr (made, is_made) ↦
            let same : lib.to_string made ≡ hash = ground (arith, h, is_made) in
            rw (verify_secret, sym same, sound.reads secret salt made is_made)
              (sound.verifies secret salt made is_made)
      ]
