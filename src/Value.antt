-- ===== src/Value.antt =====
-- The dynamic values (Go's `any`) that gossfiles hold and that system getters return.
use goss.Base.{ℕ, String, Bool, true, false, List, [], ◌∷◌}
use goss.Base.Int.{ℤ}

-- Go's int, and a float64 by its bit pattern: the program only passes them on.
pub data Number : Type 0 where
  int : ℤ → Number
  float : (bits : ℕ) → Number

-- `strs` and `ints` are []string and []int, `arr` is []any, `obj` is map[string]any.
mutual
  pub data Value : Type 0 where
    null : Value
    bool : Bool → Value
    num : Number → Value
    str : String → Value
    strs : List String → Value
    ints : List ℤ → Value
    arr : Items → Value
    obj : Fields → Value

  pub data Fields : Type 0 where
    end : Fields
    field : (name : String) → Value → (rest : Fields) → Fields

  pub data Items : Type 0 where
    nil : Items
    cons : Value → (rest : Items) → Items

-- value == nil
abbrev pub is_null : Value → Bool
is_null null = true
is_null _ = false

-- any == false
abbrev pub is_false : Value → Bool
is_false (bool false) = true
is_false _ = false

abbrev pub field_names : Fields → List String
field_names end = []
field_names (field k v fs) = k ∷ field_names fs
