-- ===== src/Boot.antt =====
-- The start of a process, as the two main functions go through it: what it has done so far, and how it ends
-- where an `expect` fails.
use dodo_invoice_service.Base.{ℕ, String, Bool, true, false, Option, none, some, List, ◌∷◌}

-- What a start does that others see.
pub data Step : Type 0 where
  -- The migrations ran over the connection of that number.
  migrated : ℕ → Step
  dispatcher_spawned : ℕ → Step
  -- The socket of that port listens.
  bound : ℕ → Step

-- `stuck` stands for the rounds of a loop that the fuel does not cover.
pub data Ended (A : Type 0) : Type 0 where
  done : A → Ended A
  panicked : String → Ended A
  stuck : Ended A

-- An action on the steps so far, the last one first.
abbrev pub Boot : Type 0 → Type 0
Boot A = List Step → Ended A × List Step

module _ {A : Type 0} where
  abbrev pub pure : A → Boot A
  pure a steps = (done a, steps)

  abbrev pub panic : String → Boot A
  panic message steps = (panicked message, steps)

  -- `expect`
  abbrev pub expect : Option A → String → Boot A
  expect none message = panic message
  expect (some a) message = pure a

infixl 5 ◌>>=◌ ◌>>◌
abbrev pub ◌>>=◌ : {A B : Type 0} → Boot A → (A → Boot B) → Boot B
◌>>=◌ m f steps =
    let (r, steps') = m steps in
    elim r [
      | done a ↦ f a steps'
      | panicked message ↦ panic message steps'
      | stuck ↦ (stuck, steps')
    ]

abbrev pub ◌>>◌ : {B : Type 0} → Boot (Unit {0}) → Boot B → Boot B
m >> k = m >>= λ _. k

abbrev pub log : Step → Boot (Unit {0})
log step steps = (done tt, step ∷ steps)

-- `expect` of a call that gives nothing, and has the effect `step`.
abbrev pub expect_step : Bool → Step → String → Boot (Unit {0})
expect_step true step message = log step
expect_step false step message = panic message
