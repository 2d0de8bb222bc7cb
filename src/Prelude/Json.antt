-- ===== src/Prelude/Json.antt =====
-- `serde_json::Value`. A number is kept as the text that it prints to; an object is a list of
-- members, read and written through the map operations.
use mathlib.Core.Path.{◌≡◌, refl}
use mathlib.Core.Bool.{Bool, true, false, ◌&&◌}
use mathlib.Core.List.{List, [], ◌∷◌}
use mathlib.Core.Option.{Option, none, some}
use postgres_mcp.Prelude.Tests.{nat_eq, text_Eq, if◌then◌else◌}
use postgres_mcp.Prelude.Lists.{Text}
use postgres_mcp.Prelude.Maps.{lookup}

mutual
  pub data Value : Type 0 where
    null : Value
    bool : Bool → Value
    num : Text → Value
    str : Text → Value
    arr : Items → Value
    obj : Fields → Value

  pub data Items : Type 0 where
    no_items : Items
    item : Value → Items → Items

  pub data Fields : Type 0 where
    no_members : Fields
    member : Text → Value → Fields → Fields

-- `Map<String, Value>`
abbrev pub Object : Type 0
Object = List (Text × Value)

abbrev pub entries : Fields → Object
entries no_members = []
entries (member k v fs) = (k, v) ∷ entries fs

abbrev pub to_fields : Object → Fields
to_fields [] = no_members
to_fields ((k, v) ∷ m) = member k v (to_fields m)

pub entries-to_fields : (m : Object) → entries (to_fields m) ≡ m
entries-to_fields [] = refl
entries-to_fields ((k, v) ∷ m) = rw (entries-to_fields m)

abbrev pub object : Object → Value
object m = obj (to_fields m)

-- `Value::as_object`, `Value::as_str` and `Value::as_bool`
abbrev pub as_object : Value → Option Object
as_object (obj fs) = some (entries fs)
as_object null = none
as_object (bool b) = none
as_object (num n) = none
as_object (str s) = none
as_object (arr xs) = none

abbrev pub as_str : Value → Option Text
as_str (str s) = some s
as_str null = none
as_str (bool b) = none
as_str (num n) = none
as_str (arr xs) = none
as_str (obj fs) = none

abbrev pub as_bool : Value → Option Bool
as_bool (bool b) = some b
as_bool null = none
as_bool (num n) = none
as_bool (str s) = none
as_bool (arr xs) = none
as_bool (obj fs) = none

-- `payload.get(key).and_then(Value::as_str).unwrap_or_default()`
abbrev pub text_of : Option Value → Text
text_of none = []
text_of (some v) = elim (as_str v) [ none ↦ [] | some s ↦ s ]

abbrev pub text_at : Text → Object → Text
text_at key m = text_of (lookup key m)

-- `str::starts_with` and `str::contains`
unfoldable pub starts_with : Text → Text → Bool
starts_with [] s = true
starts_with (p ∷ ps) [] = false
starts_with (p ∷ ps) (c ∷ cs) = nat_eq p c && starts_with ps cs

unfoldable pub contains : Text → Text → Bool
unfolding starts_with
contains needle [] = starts_with needle []
contains needle (c ∷ cs) =
    let rest = contains needle cs in if starts_with needle (c ∷ cs) then true else rest
