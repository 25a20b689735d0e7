-- ===== src/Tests/Json.antt =====
-- A JSON of which the conversions that JsonCpp documents are answered.
use Prim.Native.Char.{code}
use firominer.Base.{ℕ, Bool, true, false, Option, none, some, List, [], ◌∷◌, String, str_eq}
use firominer.Base.{if◌then◌else◌}
use firominer.Api.{JsonCpp}

mutual
  pub data Json : Type 0 where
    nothing : Json
    boolean : Bool → Json
    number : ℕ → Json
    text : String → Json
    object : Fields → Json

  pub data Fields : Type 0 where
    end : Fields
    field : String → Json → Fields → Fields

abbrev pub lookup : String → Fields → Option Json
lookup name end = none
lookup name (field k v fs) = if str_eq k name then some v else lookup name fs

abbrev is_some : Option Json → Bool
is_some none = false
is_some (some v) = true

abbrev or_nothing : Option Json → Json
or_nothing none = nothing
or_nothing (some v) = v

abbrev is_member_of : Json → String → Option Bool
is_member_of nothing name = some false
is_member_of (object fs) name = some (is_some (lookup name fs))
is_member_of _ name = none

abbrev member_of : Json → String → Json
member_of (object fs) name = or_nothing (lookup name fs)
member_of _ name = nothing

abbrev empty_json : Json → Bool
empty_json nothing = true
empty_json (object end) = true
empty_json _ = false

abbrev boolean_json : Json → Bool
boolean_json (boolean b) = true
boolean_json _ = false

abbrev number_json : Json → Bool
number_json (number n) = true
number_json _ = false

abbrev text_json : Json → Bool
text_json (text t) = true
text_json _ = false

abbrev object_json : Json → Bool
object_json nothing = true
object_json (object fs) = true
object_json _ = false

abbrev to_boolean : Json → Bool
to_boolean (boolean b) = b
to_boolean _ = false

abbrev to_number : Json → ℕ
to_number (number n) = n
to_number _ = 0

abbrev to_uint64 : Json → Option ℕ
to_uint64 (number n) = some n
to_uint64 nothing = some 0
to_uint64 _ = none

abbrev to_text : Json → Option String
to_text (text t) = some t
to_text nothing = some ""
to_text _ = none

abbrev pub json : JsonCpp
json = record {
  Value = Json;
  null = nothing;
  is_member = is_member_of;
  member = member_of;
  is_empty = empty_json;
  is_bool = boolean_json;
  is_uint = number_json;
  is_string = text_json;
  is_object = object_json;
  as_bool = to_boolean;
  as_uint = to_number;
  as_uint64 = to_uint64;
  as_string = to_text;
}

-- The codes of a text, which are its bytes if it is ASCII.
abbrev pub codes : String → List ℕ
codes String.[] = []
codes (String.◌∷◌ c s) = code c ∷ codes s

-- A request for a method, with its parameters.
abbrev pub call_of : String → Json → Json
call_of method params = object (
    field "id" (number 1)
      (field "jsonrpc" (text "2.0") (field "method" (text method) (field "params" params end))))
