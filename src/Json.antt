-- ===== src/Json.antt =====
-- JSON values, as far as the handlers build and read them with `json!` and `serde_json::Value`.
use dodo_invoice_service.Base.{String, ℤ, ℕ}

-- `uuid` is a UUID, which serde writes as a string of its own form.
mutual
  pub data Json : Type 0 where
    null : Json
    int : ℤ → Json
    text : String → Json
    uuid : ℕ → Json
    obj : Fields → Json

  pub data Fields : Type 0 where
    end : Fields
    field : String → Json → Fields → Fields
