-- ===== src/Domain/JsonValue.antt =====
-- `unknown` values that are kept in durable state: JSON values. A number is its literal.
use linear_pi_orchestrator.Prelude.{String, Bool, [], ◌∷◌}
use linear_pi_orchestrator.Prelude.Table.{Table}

mutual
  pub data Json : Type 0 where
    null : Json
    boolean : Bool → Json
    number : String → Json
    string : String → Json
    array : Items → Json
    object : Fields → Json

  pub data Items : Type 0 where
    end : Items
    item : Json → Items → Items

  pub data Fields : Type 0 where
    close : Fields
    field : String → Json → Fields → Fields

-- A record with text keys as the members of an object.
abbrev pub fields_of : Table Json → Fields
fields_of [] = close
fields_of ((k, v) ∷ m) = field k v (fields_of m)
