-- ===== src/Json.antt =====
-- JSON values.
use raceway.Prelude.{ℕ, nat_eq, not, true, false, Bool, Option, none, some, if◌then◌else◌}
use raceway.Text.{Text, ◌==◌, is_truthy}

mutual
  pub data Json : Type 0 where
    null : Json
    bool : Bool → Json
    num : ℕ → Json
    str : Text → Json
    arr : Items → Json
    obj : Fields → Json

  pub data Items : Type 0 where
    nil : Items
    cons : Json → Items → Items

  pub data Fields : Type 0 where
    end : Fields
    field : Text → Json → Fields → Fields

-- The value of a key; of two fields with one key the first counts.
unfoldable pub field_value : Text → Fields → Option Json
field_value k end = none
field_value k (field j v rest) = if j == k then some v else field_value k rest

-- value.k, where it is a string
unfoldable pub string_field : Text → Json → Option Text
unfolding field_value
string_field k (obj fields) = elim (field_value k fields) [ some (str s) ↦ some s | _ ↦ none ]
string_field k _ = none

-- A value as a condition; a missing one is `none`.
unfoldable pub truthy : Option Json → Bool
truthy none = false
truthy (some null) = false
truthy (some (bool b)) = b
truthy (some (num n)) = not (nat_eq n 0)
truthy (some (str s)) = is_truthy s
truthy (some (arr items)) = true
truthy (some (obj fields)) = true

-- value.key for a value that is not null
unfoldable pub member : Text → Json → Option Json
unfolding field_value
member key (obj fields) = field_value key fields
member key _ = none
