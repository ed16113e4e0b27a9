-- ===== src/Models/Scopes.antt =====
-- The JSON values that the kernel builds or is handed: the scope of an approval. The numbers are
-- those that the kernel writes, the revisions of a plan.
use walter.Prelude.{ℕ, String, Bool}

mutual
  pub data Json : Type 0 where
    null : Json
    boolean : Bool → Json
    number : ℕ → Json
    text : String → Json
    array : Items → Json
    object : Fields → Json

  pub data Items : Type 0 where
    nil : Items
    item : Json → Items → Items

  -- The entries of an object, in the order of insertion.
  pub data Fields : Type 0 where
    end : Fields
    field : String → Json → Fields → Fields
