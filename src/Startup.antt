-- ===== src/Startup.antt =====
-- invoice-service/src/lib.rs: `connect_with_retry`. Whether the connection that is tried first, second and so
-- on succeeds is a parameter.
pub mod Ends
use dodo_invoice_service.Base.{ℕ, zero, suc, Bool, Option, none, some, ltb, if◌then◌else◌}

-- How the function ends: with the connection of an attempt, or in its panic after `attempts` retries.
pub data Connected : Type 0 where
  pool : ℕ → Connected
  panicked : ℕ → Connected

-- The loop, for at most `fuel` rounds; none where these do not end it. It tries the connection number
-- `attempts`, since that counts the failures so far.
unfoldable pub connect_from : (ℕ → Bool) → ℕ → ℕ → Option Connected
connect_from connect zero attempts = none
connect_from connect (suc fuel) attempts =
    let again = connect_from connect fuel (suc attempts) in
    if connect attempts
    then some (pool attempts)
    else if ltb attempts 10
    then again
    else some (panicked attempts)

unfoldable pub connect_with_retry : (ℕ → Bool) → Option Connected
unfolding connect_from
connect_with_retry connect = connect_from connect 11 0
