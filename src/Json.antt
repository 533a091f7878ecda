-- ===== src/Json.antt =====
-- JSON values. The service stores, forwards and hashes them without reading most of them.
use backtester.Prelude.{ℕ, Bool, String}

mutual
  pub data Json : Type 0 where
    null : Json
    bool : Bool → Json
    -- A natural number, and any other number by its decimal literal.
    int : ℕ → Json
    num : String → Json
    str : String → Json
    arr : Items → Json
    obj : Fields → Json

  pub data Items : Type 0 where
    nil : Items
    cons : Json → Items → Items

  pub data Fields : Type 0 where
    end : Fields
    field : String → Json → Fields → Fields
