-- ===== src/Traffic/Sample.antt =====
-- A small JSON for tests: objects whose fields are strings and numbers.
use wtsl_app.Base.{
  true, false, Option, none, some, List, [], ◌∷◌, if◌then◌else◌, Text, codes, text_eq,
}
use wtsl_app.Traffic.{Json}

pub data Atom : Type 0 where
  text : Text → Atom
  number : Text → Atom

pub data Value : Type 0 where
  leaf : Atom → Value
  object : List (Text × Atom) → Value

abbrev lookup : Text → List (Text × Atom) → Option Value
lookup name [] = none
lookup name ((key, a) ∷ fields) =
    let rest = lookup name fields in if text_eq key name then some (leaf a) else rest

abbrev members : List (Text × Atom) → List (Text × Value)
members [] = []
members ((key, a) ∷ fields) = (key, leaf a) ∷ members fields

abbrev printed_number : Value → Text
printed_number (leaf (number n)) = n
printed_number (leaf (text s)) = codes "0"
printed_number (object fields) = codes "0"

abbrev pub json : Json Value
json = record {
  field = λ name v. elim v [ leaf a ↦ none | object fields ↦ lookup name fields ];
  is_string =
      λ v. elim v [ leaf a ↦ elim a [ text s ↦ true | number n ↦ false ] | object fields ↦ false ];
  is_number =
      λ v. elim v [ leaf a ↦ elim a [ text s ↦ false | number n ↦ true ] | object fields ↦ false ];
  is_object = λ v. elim v [ leaf a ↦ false | object fields ↦ true ];
  valuestring =
      λ v. elim v [ leaf a ↦ elim a [ text s ↦ some s | number n ↦ none ] | object fields ↦ none ];
  children = λ v. elim v [ leaf a ↦ [] | object fields ↦ members fields ];
  valueint_text = printed_number;
  valuedouble_text = printed_number;
  truncated_text = printed_number;
}
