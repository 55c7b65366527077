-- ===== src/Config/Line.antt =====
-- One line of the configuration file: trim_whitespace, the tests of keys and values, and
-- parse_config_line of src/wtsl_core/utils/wtsl_cfg_manager.c.
use wtsl_app.Base.{
  ℕ, ◌-◌, Bool, true, false, not, ◌&&◌, ◌||◌, Option, none, some, List, [], ◌∷◌, ◌++◌, ltb, leb,
  ◌==◌, if◌then◌else◌, length, take, drop, replicate, Text, has_char,
}

abbrev pub config_max_key_length : ℕ
config_max_key_length = 64

abbrev pub config_max_value_length : ℕ
config_max_value_length = 256

abbrev pub newline : ℕ
newline = 10

abbrev pub equals_sign : ℕ
equals_sign = 61

-- `isspace` in the C locale
unfoldable pub is_space : ℕ → Bool
is_space c = (c == 32) || (leb 9 c && leb c 13)

unfoldable pub trim_left : Text → Text
trim_left [] = []
trim_left (c ∷ s) = let rest = trim_left s in if is_space c then rest else c ∷ s

-- A character in front of what is kept of the rest: the loop on `end`, read from the front.
abbrev pub keep_or_drop : ℕ → Text → Text
keep_or_drop c [] = if is_space c then [] else c ∷ []
keep_or_drop c (d ∷ s) = c ∷ d ∷ s

unfoldable pub trim_right : Text → Text
trim_right [] = []
trim_right (c ∷ s) = keep_or_drop c (trim_right s)

unfoldable pub trim_whitespace : Text → Text
unfolding trim_left trim_right is_space
trim_whitespace s = trim_right (trim_left s)

unfoldable pub key_chars : Text → Bool
key_chars [] = true
key_chars (c ∷ s) =
    let rest = key_chars s in
    if (c == equals_sign) || (c == 35) || (c == newline) || (c == 13) then false else rest

unfoldable pub is_valid_key : Option Text → Bool
unfolding key_chars
is_valid_key none = false
is_valid_key (some key) =
    not (length key == 0) && ltb (length key) config_max_key_length && key_chars key

unfoldable pub is_valid_value : Option Text → Bool
is_valid_value none = false
is_valid_value (some value) =
    ltb (length value) config_max_value_length && not (has_char newline value || has_char 13 value)

-- An empty line or a comment.
abbrev pub skipped : Text → Bool
skipped [] = true
skipped (c ∷ s) = c == 35

abbrev pub in_front : ℕ → Option (Text × Text) → Option (Text × Text)
in_front c none = none
in_front c (some (k, v)) = some (c ∷ k, v)

-- What stands before and behind the first `=`.
unfoldable pub cut_at_equals : Text → Option (Text × Text)
cut_at_equals [] = none
cut_at_equals (c ∷ s) =
    let rest = in_front c (cut_at_equals s) in if c == equals_sign then some ([], s) else rest

-- The two parts trimmed and validated.
unfoldable pub valid_entry : Option (Text × Text) → Option (Text × Text)
unfolding trim_whitespace is_valid_key is_valid_value
valid_entry none = none
valid_entry (some (k, v)) =
    if is_valid_key (some (trim_whitespace k)) && is_valid_value (some (trim_whitespace v))
    then some (trim_whitespace k, trim_whitespace v)
    else none

-- `parse_config_line` up to the copies: `work_line` keeps 1023 bytes.
unfoldable pub line_entry : Text → Option (Text × Text)
unfolding valid_entry cut_at_equals trim_whitespace
line_entry line =
    let trimmed = trim_whitespace (take 1023 line) in
    if skipped trimmed then none else valid_entry (cut_at_equals trimmed)

-- `strncpy(buffer, s, n)`: zeros fill up to `n` bytes, and no zero is written behind them.
unfoldable pub strncpy : ℕ → Text → List ℕ → List ℕ
strncpy n s buffer = take n s ++ (replicate (n - length s) 0 ++ drop n buffer)

-- The arrays `file_key` and `file_value`.
pub record Buffers : Type 0 where
  pub key : List ℕ
  pub value : List ℕ

abbrev pub copy_entry : Buffers → Option (Text × Text) → Option Buffers
copy_entry b none = none
copy_entry b (some (k, v)) = some (record {
  key = strncpy (config_max_key_length - 1) k b.key;
  value = strncpy (config_max_value_length - 1) v b.value;
})

-- The arrays are not initialised: `b` is what they hold before.
unfoldable pub parse_config_line : Buffers → Text → Option Buffers
unfolding line_entry strncpy
parse_config_line b line = copy_entry b (line_entry line)
