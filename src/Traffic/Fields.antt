-- ===== src/Traffic/Fields.antt =====
-- What the requests of src/wtsl_core/slal/slb/wtsl_core_slb_qos_core.c read of JSON, and strcat. cJSON
-- is a parameter. A command under construction is an Option: none is the crash of strcat on the NULL
-- that cJSON keeps as the string of what is no string.
use wtsl_app.Base.{
  ℕ, Bool, ◌||◌, Option, none, some, List, ◌++◌, if◌then◌else◌, Text, text_eq, String, codes,
}

-- What the source calls of cJSON, and the numbers as snprintf prints them.
pub record Json (J : Type 0) : Type 0 where
  pub field : Text → J → Option J
  pub is_string : J → Bool
  pub is_number : J → Bool
  pub is_object : J → Bool
  pub valuestring : J → Option Text
  pub children : J → List (Text × J)
  -- `valueint` by "%d", `valuedouble` by "%g", and `(int)valuedouble` by "%d"
  pub valueint_text : J → Text
  pub valuedouble_text : J → Text
  pub truncated_text : J → Text

abbrev pub max_cmd_len : ℕ
max_cmd_len = 4096

abbrev pub is : Text → String → Bool
is s name = text_eq s (codes name)

abbrev pub is_delete : Text → Bool
is_delete action = is action "delete" || is action "del"

-- `strcat(cmd, label); strcat(cmd, value);`
abbrev pub strcat : Option Text → String → Option Text → Option Text
strcat none label value = none
strcat (some cmd) label none = none
strcat (some cmd) label (some value) = some (cmd ++ (codes label ++ value))

module _ {J : Type 0} (json : Json J) where
  abbrev pub string_field : Option J → Option Text
  string_field none = none
  string_field (some j) = if json.is_string j then json.valuestring j else none

  abbrev pub or_default : Text → Option Text → Text
  or_default default none = default
  or_default default (some s) = s

  -- The field "device", or the default device.
  abbrev pub device : Text → J → Text
  device default params = or_default default (string_field (json.field (codes "device") params))

  -- A field that is appended if it is there, whatever its type.
  abbrev pub append_field : Option Text → String → Option J → Option Text
  append_field cmd label none = cmd
  append_field cmd label (some j) = strcat cmd label (json.valuestring j)

  -- The value of an argument: its string, or its number as `number` prints it.
  abbrev pub arg_value : (J → Text) → J → Option Text
  arg_value number j =
      if json.is_string j
      then json.valuestring j
      else (if json.is_number j then some (number j) else none)
