-- ===== src/Config.antt =====
-- The key-value configuration file of src/wtsl_core/utils/wtsl_cfg_manager.c: its lines as fgets
-- delivers them, config_set, config_get and their integer variants. A
-- pointer argument is an Option, with none for NULL; the file system's answers are inputs.
mod Line
pub mod Trim
pub mod Lines
mod Parse
pub mod Settings
mod Loops
pub mod Update
mod Integers
mod Examples
unfoldable pub use Line.*
use wtsl_app.Base.{
  ℕ, ◌+◌, ◌-◌, Bool, true, false, not, ◌&&◌, ◌||◌, Option, none, some, List, [], ◌∷◌, ◌++◌, ltb,
  leb, ◌==◌, if◌then◌else◌, length, set, take, drop, replicate, Text, text_eq, has_char, c_string,
}

pub data ConfigResult : Type 0 where
  config_success : ConfigResult
  config_error_io : ConfigResult
  config_error_memory : ConfigResult
  config_error_not_found : ConfigResult
  config_error_invalid_param : ConfigResult
  config_error_parse : ConfigResult
  config_error_lock : ConfigResult
  config_error_format : ConfigResult

-- `sizeof(line) - 1`, the most that fgets delivers at once.
abbrev pub line_room : ℕ
line_room = 511

-- What fgets delivers of a file, call by call, with the room left in the current buffer.
abbrev in_first : ℕ → List Text → List Text
in_first c [] = (c ∷ []) ∷ []
in_first c (l ∷ ls) = (c ∷ l) ∷ ls

pub fgets_lines : ℕ → List ℕ → List Text
fgets_lines room [] = []
fgets_lines room (c ∷ cs) =
    let ends = (c == newline) || leb room 1 in
    let rest = fgets_lines (if ends then line_room else room - 1) cs in
    if ends then (c ∷ []) ∷ rest else in_first c rest

-- Whether a parsed line carries the key: `strcmp(file_key, key) == 0`.
abbrev carries : Text → Option Buffers → Bool
carries key none = false
carries key (some b) = text_eq (c_string b.key) key

-- `fprintf(temp_fp, "%s=%s\n", key, value)`
abbrev pub printed_entry : Text → Text → Text
printed_entry key value = key ++ (equals_sign ∷ value ++ newline ∷ [])

-- A line of which it is known whether it carries the key, in front of what the others give.
abbrev set_step : Text → Text → Text → Bool → Bool × List ℕ → Bool × List ℕ
set_step key value line true (updated, out) = (true, printed_entry key value ++ out)
set_step key value line false (updated, out) = (updated, c_string line ++ out)

-- The loop of `config_set` from line `i` on: `key_updated`, and what it prints. `junk i` is what the
-- arrays of round `i` hold at first.
pub set_loop : (ℕ → Buffers) → Text → Text → ℕ → List Text → Bool × List ℕ
unfolding parse_config_line c_string
set_loop junk key value i [] = (false, [])
set_loop junk key value i (line ∷ lines) =
    set_step key value line (carries key (parse_config_line (junk i) (c_string line)))
      (set_loop junk key value (i + 1) lines)

abbrev appended : Text → Text → Bool × List ℕ → List ℕ
appended key value (true, out) = out
appended key value (false, out) = out ++ printed_entry key value

-- The file ENV_CONFIG and the temporary file beside it; none is a file that does not exist.
pub record Disk : Type 0 where
  pub config : Option (List ℕ)
  pub temp : Option (List ℕ)

pub record SetCalls : Type 0 where
  pub temp_opens : Bool
  pub config_opens : Bool
  pub rename_works : Bool
  pub junk : ℕ → Buffers

abbrev pub contents : Option (List ℕ) → List ℕ
contents none = []
contents (some bytes) = bytes

-- `fopen(ENV_CONFIG, "a+")` creates the file.
abbrev config_opened : SetCalls → Disk → Option (List ℕ)
config_opened e d = if e.config_opens then some (contents d.config) else d.config

abbrev lines_read : SetCalls → Disk → List Text
lines_read e d = if e.config_opens then fgets_lines line_room (contents d.config) else []

abbrev store : SetCalls → Disk → Text → Text → ConfigResult × Disk
store e d key value =
    let new = appended key value (set_loop e.junk key value 0 (lines_read e d)) in
    let renamed : Disk = record { config = some new; temp = none } in
    let removed : Disk = record { config = config_opened e d; temp = none } in
    if not e.temp_opens
    then (config_error_io, d)
    else (if e.rename_works then (config_success, renamed) else (config_error_io, removed))

unfoldable pub config_set : SetCalls → Disk → Option Text → Option Text → ConfigResult × Disk
unfolding fgets_lines set_loop is_valid_key is_valid_value
config_set e d none value = (config_error_invalid_param, d)
config_set e d (some key) none = (config_error_invalid_param, d)
config_set e d (some key) (some value) =
    if is_valid_key (some key) && is_valid_value (some value)
    then store e d key value
    else (config_error_invalid_param, d)

-- The value of the line if it carries the key, or what the later lines give.
abbrev found : Text → Option Buffers → Option Text → Option Text
found key none rest = rest
found key (some b) rest = if text_eq (c_string b.key) key then some (c_string b.value) else rest

-- The loop of `config_get` from line `i` on: `file_value` of the first line that carries the key.
pub get_loop : (ℕ → Buffers) → Text → ℕ → List Text → Option Text
unfolding parse_config_line c_string
get_loop junk key i [] = none
get_loop junk key i (line ∷ lines) =
    found key (parse_config_line (junk i) (c_string line)) (get_loop junk key (i + 1) lines)

-- `strncpy(value, file_value, n - 1); value[n - 1] = 0;`, or the buffer as it was.
abbrev copied_out : List ℕ → ℕ → Option Text → ConfigResult × List ℕ
copied_out buffer n none = (config_error_not_found, buffer)
copied_out buffer n (some v) = (config_success, set (strncpy (n - 1) v buffer) (n - 1) 0)

abbrev with_buffer : ConfigResult × List ℕ → ConfigResult × Option (List ℕ)
with_buffer (r, buffer) = (r, some buffer)

abbrev read_file :
    (ℕ → Buffers) → Option (List ℕ) → Text → List ℕ → ℕ → ConfigResult × Option (List ℕ)
read_file junk none key buffer n = (config_error_not_found, some buffer)
read_file junk (some bytes) key buffer n =
    with_buffer (copied_out buffer n (get_loop junk key 0 (fgets_lines line_room bytes)))

-- `file` is ENV_CONFIG if it can be opened; `value` is the buffer that the caller passes.
unfoldable pub config_get :
    (ℕ → Buffers)
    → Option (List ℕ)
    → Option Text
    → Option (List ℕ)
    → ℕ
    → ConfigResult × Option (List ℕ)
unfolding get_loop fgets_lines strncpy c_string is_valid_key is_valid_value
config_get junk file key none n = (config_error_invalid_param, none)
config_get junk file none (some buffer) n = (config_error_invalid_param, some buffer)
config_get junk file (some key) (some buffer) n =
    if is_valid_key (some key) && is_valid_value (some (c_string buffer)) && not (n == 0)
    then read_file junk file key buffer n
    else (config_error_invalid_param, some buffer)

-- `*value` afterwards: what strtol reads of the string, if it reads it to the end and something.
-- `strtol` gives the number, converted to int, and how many bytes it took.
abbrev converted {ℓ} : {A : Type ℓ} → (Text → A × ℕ) → A → Text → ConfigResult × A
converted strtol old s =
    let (num, taken) = strtol s in
    if (taken == 0) || not (taken == length s)
    then (config_error_format, old)
    else (config_success, num)

abbrev int_of {ℓ} :
    {A : Type ℓ} → (Text → A × ℕ) → A → ConfigResult × Option (List ℕ) → ConfigResult × A
int_of strtol old (config_success, some buffer) = converted strtol old (c_string buffer)
int_of strtol old (config_success, none) = (config_success, old)
int_of strtol old (config_error_io, b) = (config_error_io, old)
int_of strtol old (config_error_memory, b) = (config_error_memory, old)
int_of strtol old (config_error_not_found, b) = (config_error_not_found, old)
int_of strtol old (config_error_invalid_param, b) = (config_error_invalid_param, old)
int_of strtol old (config_error_parse, b) = (config_error_parse, old)
int_of strtol old (config_error_lock, b) = (config_error_lock, old)
int_of strtol old (config_error_format, b) = (config_error_format, old)

-- `str_value` holds `rubbish` when config_get tests it.
pub config_get_int {ℓ} :
    {A : Type ℓ}
    → (Text → A × ℕ)
    → (ℕ → Buffers)
    → Option (List ℕ)
    → List ℕ
    → Option Text
    → Option A
    → ConfigResult × Option A
unfolding config_get c_string
config_get_int strtol junk file rubbish key none = (config_error_invalid_param, none)
config_get_int strtol junk file rubbish key (some old) =
    let (r, num) =
      int_of strtol old (config_get junk file key (some rubbish) config_max_value_length) in
    (r, some num)

-- `printed value` is what snprintf writes with "%d" to `str_value`.
pub config_set_int {ℓ} :
    {A : Type ℓ} → (A → Text) → SetCalls → Disk → Option Text → A → ConfigResult × Disk
unfolding config_set
config_set_int printed e d key value = config_set e d key (some (printed value))
