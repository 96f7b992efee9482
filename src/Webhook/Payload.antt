-- ===== src/Webhook/Payload.antt =====
-- JSON values as Python's `json.loads` gives them, and what kenjutsu/server/webhook.py takes from them.
use kenjutsu.Base.{String, Bool, Option, none, some, ◌==◌, string_eq, if◌then◌else◌}

-- A number is the text it is written as. The keys of an object differ, as those of a dict do.
mutual
  pub data Json : Type 0 where
    null : Json
    boolean : Bool → Json
    number text : String → Json
    array : Jsons → Json
    object : Fields → Json

  pub data Jsons : Type 0 where
    end : Jsons
    item : Json → Jsons → Jsons

  pub data Fields : Type 0 where
    nil : Fields
    field : String → Json → Fields → Fields

unfoldable pub field_or : Fields → String → Json → Json
field_or nil key default = default
field_or (field name value fields) key default =
    let rest = field_or fields key default in if name == key then value else rest

-- `value.get(key, default)`, which raises for a value that is no dict.
unfoldable pub get_field : Json → String → Json → Option Json
get_field (object fields) key default = some (field_or fields key default)
get_field value key default = none

-- `value.get(key, {}).get(key', default)`
unfoldable pub get_nested : Json → String → String → Json → Option Json
get_nested value key key' default = elim (get_field value key (object nil)) [
  | none ↦ none
  | some inner ↦ get_field inner key' default
]
