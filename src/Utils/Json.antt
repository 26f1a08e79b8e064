-- ===== src/Utils/Json.antt =====
-- krypton/utils/json_util.cc: reading the fields of a JSON value. The library nlohmann::json, and
-- absl::Base64Unescape, are parameters.
use vpn_libraries.Prelude.{Bool, Option, none, some, List, [], ◌∷◌, String}
use vpn_libraries.Prelude.Int.{ℤ}
use vpn_libraries.Prelude.Text.{Text}
use vpn_libraries.Utils.Status.{
  StatusOr, value, error, error_status, invalid_argument, internal, ◌>>=◌,
}

-- What the source uses of nlohmann::json, over a type J of its values. `find` finds no key in a value that
-- is no object; `as_string` and `as_integer` answer for the types that is_string and is_number_integer
-- accept, and `elements` for an array.
pub record JsonLibrary (J : Type 0) : Type 0 where
  pub parse : String → Option J
  pub is_object : J → Bool
  pub find : Text → J → Option J
  pub as_integer : J → Option ℤ
  pub as_string : J → Option Text
  pub elements : J → Option (List J)
  pub base64_unescape : Text → Option Text

module _ {J : Type 0} (lib : JsonLibrary J) where
  or_internal : Option J → StatusOr J
  or_internal none = error (error_status internal "Failed to convert string to JSON object.")
  or_internal (some j) = value j

  unfoldable pub string_to_json : String → StatusOr J
  unfolding or_internal
  string_to_json s = or_internal (lib.parse s)

  integer_field : Option J → StatusOr (Option ℤ)
  integer_field none = value none
  integer_field (some j) = elim (lib.as_integer j) [
    | none ↦ error (error_status invalid_argument " is not an integer")
    | some z ↦ value (some z)
  ]

  unfoldable pub json_get_int64 : Text → J → StatusOr (Option ℤ)
  unfolding integer_field
  json_get_int64 key j = integer_field (lib.find key j)

  string_field : Option J → StatusOr (Option Text)
  string_field none = value none
  string_field (some j) = elim (lib.as_string j) [
    | none ↦ error (error_status invalid_argument " is not a string")
    | some s ↦ value (some s)
  ]

  unfoldable pub json_get_string : Text → J → StatusOr (Option Text)
  unfolding string_field
  json_get_string key j = string_field (lib.find key j)

  decoded : Option Text → StatusOr (Option Text)
  decoded none = value none
  decoded (some s) = elim (lib.base64_unescape s) [
    | none ↦ error (error_status invalid_argument " is not valid base64")
    | some bytes ↦ value (some bytes)
  ]

  unfoldable pub json_get_bytes : Text → J → StatusOr (Option Text)
  unfolding json_get_string decoded
  json_get_bytes key j = json_get_string key j >>= decoded

  -- The elements, up to the first that is no string, which is an error.
  strings : List J → StatusOr (List Text)
  strings [] = value []
  strings (j ∷ js) =
      let rest = strings js in
      elim (lib.as_string j) [
        | none ↦ error (error_status invalid_argument " element is not of type string")
        | some s ↦ rest >>= λ ss. value (s ∷ ss)
      ]

  string_array_field : Option J → StatusOr (Option (List Text))
  unfolding strings
  string_array_field none = value none
  string_array_field (some j) = elim (lib.elements j) [
    | none ↦ error (error_status invalid_argument " is not of array type")
    | some js ↦ strings js >>= λ ss. value (some ss)
  ]

  unfoldable pub json_get_string_array : Text → J → StatusOr (Option (List Text))
  unfolding string_array_field
  json_get_string_array key j = string_array_field (lib.find key j)

-- A JSON value that the program builds, field by field, and that JsonToString writes out.
mutual
  pub data Node : Type 0 where
    text : Text → Node
    number : ℤ → Node
    flag : Bool → Node
    object : Fields → Node
    texts : List Text → Node

  pub data Fields : Type 0 where
    no_fields : Fields
    field : Text → Node → Fields → Fields
