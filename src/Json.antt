-- ===== src/Json.antt =====
-- Values of JSON, and scripts/repo/read-json.mts: the narrowing readers.
use socket_scan_patterns.Prelude.{
  ℕ, ◌^◌, ◌-◌, Bool, List, [], ◌∷◌, Option, none, some, if◌then◌else◌, leb,
}
use socket_scan_patterns.Text.{Text, text_eq}

-- A number of ECMAScript, as far as the source tells numbers apart: a natural number, the negative
-- of a positive one, and all others (fractions, infinities, NaN). The natural number may be too
-- large to be safe.
pub data Number : Type 0 where
  whole : ℕ → Number
  minus : ℕ → Number
  not_whole : Number

-- What `JSON.parse` returns.
mutual
  pub data Json : Type 0 where
    null : Json
    boolean : Bool → Json
    number : Number → Json
    string : Text → Json
    array : Items → Json
    object : Fields → Json

  pub data Items : Type 0 where
    no_items : Items
    item : Json → Items → Items

  pub data Fields : Type 0 where
    no_fields : Fields
    field : Text → Json → Fields → Fields

-- `source[key]`, and `none` for `undefined`
unfoldable pub prop : Text → Fields → Option Json
prop key no_fields = none
prop key (field name value fields) =
    let rest = prop key fields in if text_eq name key then some value else rest

-- `Object.keys(source)`
unfoldable pub keys : Fields → List Text
keys no_fields = []
keys (field name value fields) = name ∷ keys fields

-- `isJsonObject`, with the object's fields
unfoldable pub is_json_object : Option Json → Option Fields
is_json_object (some (object fields)) = some fields
is_json_object _ = none

-- `Number.MAX_SAFE_INTEGER`
abbrev pub max_safe_integer : ℕ
max_safe_integer = 2 ^ 53 - 1

-- the natural number that a value is, if `Number.isSafeInteger(value)` and `value >= 0`
unfoldable pub safe_count : Option Json → Option ℕ
safe_count (some (number (whole n))) = if leb n max_safe_integer then some n else none
safe_count _ = none

-- the text that a value is
unfoldable pub text_of : Option Json → Option Text
text_of (some (string t)) = some t
text_of _ = none
