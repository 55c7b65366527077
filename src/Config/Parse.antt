-- ===== src/Config/Parse.antt =====
-- The parsing of the lines that config_set prints, and what the arrays hold of an entry.
use wtsl_app.Base.{
  none, if◌then◌else◌, ◌&&◌, Option, ◌∙◌, ℕ, zero, suc, ◌+◌, ◌-◌, ◌<◌, ◌≡◌, refl, ap, true, false,
  some, List, [], ◌∷◌, ◌++◌, arith, ◌==◌, length, length-append, take, take-length, drop, replicate,
  Text, has_char, c_string,
}
use wtsl_app.Config.{
  skipped, valid_entry, newline, equals_sign, line_entry, printed_entry, key_chars, is_valid_key,
  is_valid_value, cut_at_equals, valid_entry, trim_whitespace, strncpy, config_max_key_length,
  config_max_value_length, in_front,
}
use wtsl_app.Config.Trim.{trim_whitespace-printed}
use wtsl_app.Config.Lines.{c_string-append}

-- A key and a value that config_set takes and that no buffer cuts short.
pub record IsSetting (key value : Text) : Type 0 where
  pub key_valid : is_valid_key (some key) ≡ true
  pub value_valid : is_valid_value (some value) ≡ true
  pub key_trimmed : trim_whitespace key ≡ key
  pub value_trimmed : trim_whitespace value ≡ value
  pub key_no_zero : has_char 0 key ≡ false
  pub value_no_zero : has_char 0 value ≡ false
  pub key_fits : length key < config_max_key_length - 1
  pub value_fits : length value < config_max_value_length - 1

pub key_chars-cons : (c : ℕ) (s : Text) → key_chars (c ∷ s) ≡ true → key_chars s ≡ true
unfolding key_chars
key_chars-cons c s h = ground arith

key_chars-equals : (c : ℕ) (s : Text) → key_chars (c ∷ s) ≡ true → (c == equals_sign) ≡ false
unfolding key_chars
key_chars-equals c s h = ground arith

key_chars-comment : (c : ℕ) (s : Text) → key_chars (c ∷ s) ≡ true → (c == 35) ≡ false
unfolding key_chars
key_chars-comment c s h = ground arith

pub key_chars-newline : (key : Text) → key_chars key ≡ true → has_char newline key ≡ false
unfolding key_chars
key_chars-newline [] h = refl
key_chars-newline (c ∷ s) h = ground (arith, key_chars-newline s)

cut_at_equals-key :
    (key value : Text)
    → key_chars key ≡ true
    → cut_at_equals (key ++ equals_sign ∷ value) ≡ some (key, value)
unfolding cut_at_equals
cut_at_equals-key [] value h = refl
cut_at_equals-key (c ∷ key) value h =
    rw (key_chars-equals c key h)
      (ap (in_front c) (cut_at_equals-key key value (key_chars-cons c key h)))

pub is_valid_key-chars : (key : Text) → is_valid_key (some key) ≡ true → key_chars key ≡ true
unfolding is_valid_key
is_valid_key-chars key h = ground arith

is_valid_key-nonempty : (key : Text) → is_valid_key (some key) ≡ true → (length key == 0) ≡ false
unfolding is_valid_key
is_valid_key-nonempty key h = ground arith

length-printed_entry :
    (key value : Text) → length (printed_entry key value) ≡ length key + length value + 2
length-printed_entry key value = omega (
  arith,
  length-append key (equals_sign ∷ value ++ newline ∷ []),
  length-append value (newline ∷ []),
)

abbrev validated : Text → Text → Option (Text × Text)
validated k v = if is_valid_key (some k) && is_valid_value (some v) then some (k, v) else none

validated-IsSetting :
    (key value : Text) → IsSetting key value → validated key value ≡ some (key, value)
validated-IsSetting key value s = rw (s.key_valid, s.value_valid) refl

valid_entry-IsSetting :
    (key value : Text) → IsSetting key value → valid_entry (some (key, value)) ≡ some (key, value)
unfolding valid_entry
valid_entry-IsSetting key value s =
    ap (λ k. validated k (trim_whitespace value)) s.key_trimmed
    ∙ ap (λ v. validated key v) s.value_trimmed
    ∙ validated-IsSetting key value s

abbrev entry_of : Text → Option (Text × Text)
entry_of trimmed = if skipped trimmed then none else valid_entry (cut_at_equals trimmed)

entry_of-printed :
    (c : ℕ) (key value : Text)
    → IsSetting (c ∷ key) value
    → entry_of ((c ∷ key) ++ equals_sign ∷ value) ≡ some (c ∷ key, value)
entry_of-printed c key value s =
    let chars : key_chars (c ∷ key) ≡ true = is_valid_key-chars (c ∷ key) s.key_valid in
    rw (key_chars-comment c key chars, cut_at_equals-key (c ∷ key) value chars)
      (valid_entry-IsSetting (c ∷ key) value s)

pub line_entry-printed :
    (key value : Text)
    → IsSetting key value
    → line_entry (printed_entry key value) ≡ some (key, value)
unfolding line_entry
line_entry-printed [] value s = absurd (ground (arith, is_valid_key-nonempty [] s.key_valid))
line_entry-printed (c ∷ key) value s =
    let whole : take 1023 (printed_entry (c ∷ key) value) ≡ printed_entry (c ∷ key) value =
      take-length 1023 _
        (omega (arith, length-printed_entry (c ∷ key) value, s.key_fits, s.value_fits)) in
    ap (λ l. entry_of (trim_whitespace l)) whole
    ∙ ap entry_of (trim_whitespace-printed c key value s.key_trimmed s.value_trimmed)
    ∙ entry_of-printed c key value s

c_string-padded :
    (s : Text) (rest : List ℕ) (k : ℕ)
    → has_char 0 s ≡ false
    → 0 < k
    → c_string (s ++ (replicate k 0 ++ rest)) ≡ s
c_string-padded s rest zero h l = absurd (omega arith)
c_string-padded s rest (suc k) h l = c_string-append s (replicate k 0 ++ rest) h

-- A text shorter than the copy is read back, whatever the buffer held.
pub c_string-strncpy :
    (n : ℕ) (s : Text) (buffer : List ℕ)
    → has_char 0 s ≡ false
    → length s < n
    → c_string (strncpy n s buffer) ≡ s
unfolding strncpy
c_string-strncpy n s buffer h l =
    rw (take-length n s (omega (arith, l)))
      (c_string-padded s (drop n buffer) (n - length s) h (omega (arith, l)))

pub is_valid_value-newline :
    (value : Text) → is_valid_value (some value) ≡ true → has_char newline value ≡ false
unfolding is_valid_value
is_valid_value-newline value h = ground arith
