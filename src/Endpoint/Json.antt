-- ===== src/Endpoint/Json.antt =====
-- JSON values as Python holds them. A text is its code points, which may be lone surrogates, a float
-- its IEEE 754 binary64 pattern, and a mapping of any class its entries in their order. A list and a
-- tuple are told apart.
use adapter_forge_gateway.Prelude.{ℕ, Bool, List}
use adapter_forge_gateway.Prelude.Int.{ℤ}

mutual
  pub data Json : Type 0 where
    null : Json
    bool : Bool → Json
    int : ℤ → Json
    float : ℕ → Json
    text : List ℕ → Json
    arr : Items → Json
    tuple : Items → Json
    obj : Fields → Json

  pub data Items : Type 0 where
    nil : Items
    cons : Json → Items → Items

  pub data Fields : Type 0 where
    end : Fields
    field : List ℕ → Json → Fields → Fields
