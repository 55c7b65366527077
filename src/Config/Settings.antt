-- ===== src/Config/Settings.antt =====
-- A configuration file as a list of settings: the first value of a key, and the lines after a key
-- is set.
use wtsl_app.Base.{
  ◌-◌, ◌<◌, ◌≡◌, refl, sym, ap, ◌∙◌, Bool, true, false, ◌||◌, Option, none, some, List, [], ◌∷◌,
  ◌++◌, inl, inr, arith, Bool-cases, if◌then◌else◌, length, Text, text_eq, text_eq_refl,
  eq_of_text_eq, has_char,
}
use wtsl_app.Config.{line_entry, printed_entry, config_max_key_length, config_max_value_length}
use wtsl_app.Config.Parse.{IsSetting, line_entry-printed}

-- An entry that the arrays of the loops hold with its terminator.
abbrev pub Fits : Option (Text × Text) → Type 0
Fits none = Unit
Fits (some (k, v)) =
    (has_char 0 k ≡ false)
    × (has_char 0 v ≡ false)
    × (length k < config_max_key_length - 1)
    × (length v < config_max_value_length - 1)

abbrev pub AllFit : List Text → Type 0
AllFit [] = Unit
AllFit (line ∷ lines) = Fits (line_entry line) × AllFit lines

abbrev pub has_key : Text → Option (Text × Text) → Bool
has_key key none = false
has_key key (some (k, v)) = text_eq k key

abbrev pub choose : Text → Option (Text × Text) → Option Text → Option Text
choose key none rest = rest
choose key (some (k, v)) rest = if text_eq k key then some v else rest

unfoldable pub first_value : Text → List Text → Option Text
first_value key [] = none
first_value key (line ∷ lines) = choose key (line_entry line) (first_value key lines)

unfoldable pub has_entry : Text → List Text → Bool
has_entry key [] = false
has_entry key (line ∷ lines) = has_key key (line_entry line) || has_entry key lines

unfoldable pub replaced : Text → Text → List Text → List Text
replaced key value [] = []
replaced key value (line ∷ lines) =
    (if has_key key (line_entry line) then printed_entry key value else line)
    ∷ replaced key value lines

unfoldable pub put : Text → Text → List Text → List Text
unfolding replaced has_entry
put key value lines =
    if has_entry key lines then replaced key value lines else lines ++ printed_entry key value ∷ []

-- The lines that are no entry of the key: other settings, comments and empty lines.
unfoldable pub other_lines : Text → List Text → List Text
other_lines key [] = []
other_lines key (line ∷ lines) =
    if has_key key (line_entry line) then other_lines key lines else line ∷ other_lines key lines

choose-miss :
    (key : Text) (e : Option (Text × Text)) (r : Option Text)
    → has_key key e ≡ false
    → choose key e r ≡ r
choose-miss key none r h = refl
choose-miss key (some (k, v)) r h = rw h refl

-- An entry of one key is no entry of another.
has_key-other :
    (key k : Text) (e : Option (Text × Text))
    → text_eq key k ≡ false
    → has_key key e ≡ true
    → has_key k e ≡ false
has_key-other key k none d h = refl
has_key-other key k (some (k', v)) d h = let same : k' ≡ key = eq_of_text_eq k' key h in rw same d

pub or_false : (a b : Bool) → (a || b) ≡ false → (a ≡ false) × (b ≡ false)
or_false a b h = ground arith

or_true : (a b : Bool) → a ≡ false → (a || b) ≡ true → b ≡ true
or_true a b m h = ground arith

module _ (key value : Text) (s : IsSetting key value) where
  has_key-printed : (k : Text) → has_key k (line_entry (printed_entry key value)) ≡ text_eq key k
  has_key-printed k = ap (has_key k) (line_entry-printed key value s)

  choose-printed :
      (k : Text) (r : Option Text)
      → choose k (line_entry (printed_entry key value)) r
        ≡ (if text_eq key k then some value else r)
  choose-printed k r = ap (λ e. choose k e r) (line_entry-printed key value s)

  -- The key itself.
  first_value-append_same :
      (lines : List Text)
      → has_entry key lines ≡ false
      → first_value key (lines ++ printed_entry key value ∷ []) ≡ some value
  unfolding first_value has_entry
  first_value-append_same [] h = choose-printed key none ∙ rw (text_eq_refl key) refl
  first_value-append_same (line ∷ lines) h =
      let (miss, rest) = or_false (has_key key (line_entry line)) (has_entry key lines) h in
      choose-miss key (line_entry line) _ miss ∙ first_value-append_same lines rest

  first_value-replaced_same :
      (lines : List Text)
      → has_entry key lines ≡ true
      → first_value key (replaced key value lines) ≡ some value
  unfolding first_value has_entry replaced
  first_value-replaced_same [] h = cc
  first_value-replaced_same (line ∷ lines) h = elim (Bool-cases (has_key key (line_entry line))) [
    | inl hit ↦ rw hit (choose-printed key _ ∙ rw (text_eq_refl key) refl)
    | inr miss ↦ rw miss (
        choose-miss key (line_entry line) _ miss
        ∙ first_value-replaced_same lines
            (or_true (has_key key (line_entry line)) (has_entry key lines) miss h))
  ]

  first_value-put_same : (lines : List Text) → first_value key (put key value lines) ≡ some value
  unfolding put
  first_value-put_same lines = elim (Bool-cases (has_entry key lines)) [
    | inl h ↦ rw h (first_value-replaced_same lines h)
    | inr h ↦ rw h (first_value-append_same lines h)
  ]

  -- Another key.
  module _ (k : Text) (d : text_eq key k ≡ false) where
    first_value-append_other :
        (lines : List Text)
        → first_value k (lines ++ printed_entry key value ∷ []) ≡ first_value k lines
    unfolding first_value
    first_value-append_other [] = choose-printed k none ∙ rw d refl
    first_value-append_other (line ∷ lines) =
        ap (choose k (line_entry line)) (first_value-append_other lines)

    first_value-replaced_other :
        (lines : List Text) → first_value k (replaced key value lines) ≡ first_value k lines
    unfolding first_value replaced
    first_value-replaced_other [] = refl
    first_value-replaced_other (line ∷ lines) = elim (Bool-cases (has_key key (line_entry line))) [
      | inl hit ↦ rw hit (
          choose-printed k _
          ∙ rw d (
              first_value-replaced_other lines
              ∙ sym (
                  choose-miss k (line_entry line) _ (has_key-other key k (line_entry line) d hit))))
      | inr miss ↦ rw miss (ap (choose k (line_entry line)) (first_value-replaced_other lines))
    ]

    first_value-put_other :
        (lines : List Text) → first_value k (put key value lines) ≡ first_value k lines
    unfolding put
    first_value-put_other lines = elim (Bool-cases (has_entry key lines)) [
      | inl h ↦ rw h (first_value-replaced_other lines)
      | inr h ↦ rw h (first_value-append_other lines)
    ]

  -- Setting a key updates the map from keys to their first values at that key.
  pub first_value-put :
      (k : Text) (lines : List Text)
      → first_value k (put key value lines)
        ≡ (if text_eq key k then some value else first_value k lines)
  first_value-put k lines = elim (Bool-cases (text_eq key k)) [
    | inl e ↦ rw e (
        ap (λ x. first_value x (put key value lines)) (sym (eq_of_text_eq key k e))
        ∙ first_value-put_same lines)
    | inr d ↦ rw d (first_value-put_other k d lines)
  ]

  other_lines-append :
      (lines : List Text)
      → other_lines key (lines ++ printed_entry key value ∷ []) ≡ other_lines key lines
  unfolding other_lines
  other_lines-append [] = rw (has_key-printed key, text_eq_refl key) refl
  other_lines-append (line ∷ lines) = rw (other_lines-append lines) refl

  other_lines-replaced :
      (lines : List Text) → other_lines key (replaced key value lines) ≡ other_lines key lines
  unfolding other_lines replaced
  other_lines-replaced [] = refl
  other_lines-replaced (line ∷ lines) = elim (Bool-cases (has_key key (line_entry line))) [
    | inl hit ↦ rw hit (rw (has_key-printed key, text_eq_refl key) (other_lines-replaced lines))
    | inr miss ↦ rw (miss, miss) (ap (λ ls. line ∷ ls) (other_lines-replaced lines))
  ]

  pub other_lines-put :
      (lines : List Text) → other_lines key (put key value lines) ≡ other_lines key lines
  unfolding put
  other_lines-put lines = elim (Bool-cases (has_entry key lines)) [
    | inl h ↦ rw h (other_lines-replaced lines)
    | inr h ↦ rw h (other_lines-append lines)
  ]
