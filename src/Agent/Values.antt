-- ===== src/Agent/Values.antt =====
-- JSON values, as tool arguments, tool outputs and schemas are. A float is its 64 bits.
use ragflow_agent.Base.{ℕ, ℤ, String, Bool, true, false, Option, none, some, ◌==◌, if◌then◌else◌}

mutual
  pub data Value : Type 0 where
    null : Value
    bool : Bool → Value
    int : ℤ → Value
    float : ℕ → Value
    text : String → Value
    obj : Fields → Value
    arr : Items → Value

  pub data Fields : Type 0 where
    end : Fields
    field : String → Value → Fields → Fields

  pub data Items : Type 0 where
    nil : Items
    cons : Value → Items → Items

-- `d.get(key)`.
abbrev pub get : String → Fields → Option Value
get k end = none
get k (field j v fs) = if j == k then some v else get k fs

-- `key in d`.
abbrev pub has : String → Fields → Bool
has k end = false
has k (field j v fs) = if j == k then true else has k fs
