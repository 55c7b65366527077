-- ===== src/Logger.antt =====
-- The logger of src/wtsl_core/utils/wtsl_log_manager.c: which levels its mode lets through, the mode
-- in the section [chip log_system] of the system's configuration file, when that file is read again,
-- and the line that is written. The log file is that of the upload client. Formatted texts, the clock
-- and the contents of the configuration file are inputs.
pub mod Line
pub mod Mode
pub mod Reload
mod Examples
use wtsl_app.Base.{
  ℕ, zero, suc, ◌+◌, ◌-◌, Bool, true, false, not, ◌&&◌, ◌||◌, Option, none, some, List, [], ◌∷◌,
  ◌++◌, ltb, leb, ◌==◌, if◌then◌else◌, length, take, drop, set, map, Text, text_eq, codes, c_string,
  has_char, to_lower, to_upper,
}
use wtsl_app.Config.{trim_whitespace, newline}
use wtsl_app.Upload.Service.{LogSystem, append_line}

pub data LogLevel : Type 0 where
  log_level_debug : LogLevel
  log_level_info : LogLevel
  log_level_warning : LogLevel
  log_level_error : LogLevel
  log_level_fatal : LogLevel

pub data ConfigMode : Type 0 where
  config_mode_unknown : ConfigMode
  config_mode_all : ConfigMode
  config_mode_product : ConfigMode

abbrev pub line_length : ℕ
line_length = 256

abbrev pub default_config_check_interval : ℕ
default_config_check_interval = 5

-- The log system, the fields of its configuration, and the static variable of need_config_reload.
pub record Logger : Type 0 where
  pub system : LogSystem
  pub current_mode : ConfigMode
  pub last_config_check : ℕ
  pub config_check_interval : ℕ
  pub last_mtime : ℕ

unfoldable pub get_level_string : LogLevel → Text
get_level_string LogLevel.log_level_debug = codes "DEBUG"
get_level_string LogLevel.log_level_info = codes "INFO"
get_level_string LogLevel.log_level_warning = codes "WARN"
get_level_string LogLevel.log_level_error = codes "ERROR"
get_level_string LogLevel.log_level_fatal = codes "FATAL"

-- The first 31 characters in capitals.
pub parse_config_mode : Text → ConfigMode
parse_config_mode mode_str =
    let upper_str = map to_upper (take 31 mode_str) in
    if text_eq upper_str (codes "ALL")
    then ConfigMode.config_mode_all
    else (if text_eq upper_str (codes "PRODUCT")
        then ConfigMode.config_mode_product
        else ConfigMode.config_mode_unknown)

abbrev pub is_severe : LogLevel → Bool
is_severe LogLevel.log_level_debug = false
is_severe LogLevel.log_level_info = false
is_severe LogLevel.log_level_warning = true
is_severe LogLevel.log_level_error = true
is_severe LogLevel.log_level_fatal = true

abbrev pub wtsl_logger_should_log : ConfigMode → LogLevel → Bool
wtsl_logger_should_log ConfigMode.config_mode_unknown level = false
wtsl_logger_should_log ConfigMode.config_mode_all level = true
wtsl_logger_should_log ConfigMode.config_mode_product level = is_severe level

abbrev in_front_of : ℕ → List Text → List Text
in_front_of c [] = (c ∷ []) ∷ []
in_front_of c (l ∷ ls) = (c ∷ l) ∷ ls

-- What fgets delivers, call by call, with the room left in the current buffer.
pub log_config_lines : ℕ → List ℕ → List Text
log_config_lines room [] = []
log_config_lines room (c ∷ cs) =
    let ends = (c == newline) || leb room 1 in
    let rest = log_config_lines (if ends then line_length - 1 else room - 1) cs in
    if ends then (c ∷ []) ∷ rest else in_front_of c rest

-- The text in front of the first `]`, if there is one.
pub before_bracket : Text → Option Text
before_bracket [] = none
before_bracket (c ∷ s) =
    let rest = before_bracket s in
    if c == 93 then some [] else elim rest [ none ↦ none | some t ↦ some (c ∷ t) ]

-- in_chip_log_system, and new_mode where found_mode is set.
pub record Scan : Type 0 where
  pub in_chip_log_system : Bool
  pub found_mode : Option ConfigMode

abbrev pub is_log_section : Text → Bool
is_log_section section = text_eq (map to_lower section) (codes "chip log_system")

abbrev at_section : Scan → Option Text → Scan
at_section s none = s
at_section s (some section) = record s {
  in_chip_log_system = is_log_section (trim_whitespace section);
}

abbrev known_mode : ConfigMode → Option ConfigMode
known_mode ConfigMode.config_mode_unknown = none
known_mode ConfigMode.config_mode_all = some ConfigMode.config_mode_all
known_mode ConfigMode.config_mode_product = some ConfigMode.config_mode_product

-- A line inside the section, where the first mode is kept.
abbrev at_entry : Text → Option ConfigMode → Option ConfigMode
at_entry line (some mode) = some mode
at_entry line none = known_mode (parse_config_mode line)

abbrev pub is_comment : ℕ → Bool
is_comment c = (c == 35) || (c == 59)

-- What the loop does with a trimmed line.
abbrev pub scan_trimmed : Scan → Text → Scan
scan_trimmed s [] = s
scan_trimmed s (c ∷ line) =
    if c == 91
    then at_section s (before_bracket line)
    else (if s.in_chip_log_system && not (is_comment c)
        then record s { found_mode = at_entry (c ∷ line) s.found_mode }
        else s)

pub scan_lines : Scan → List Text → Scan
unfolding before_bracket parse_config_mode
scan_lines s [] = s
scan_lines s (line ∷ lines) = scan_lines (scan_trimmed s (trim_whitespace (c_string line))) lines

abbrev pub mode_or_all : Option ConfigMode → ConfigMode
mode_or_all none = ConfigMode.config_mode_all
mode_or_all (some mode) = mode

-- The contents of the file, none if it does not open. The result is whether it did.
pub parse_config_file : Option (List ℕ) → Logger → Bool × Logger
unfolding log_config_lines scan_lines
parse_config_file none g = (false, g)
parse_config_file (some contents) g =
    let scan =
      scan_lines (record { in_chip_log_system = false; found_mode = none })
        (log_config_lines (line_length - 1) contents) in
    (true, record g { current_mode = mode_or_all scan.found_mode })

-- The modification time that stat gives, none if it fails, and the time.
pub need_config_reload : Option ℕ → ℕ → Logger → Bool × Logger
need_config_reload none now g = (false, g)
need_config_reload (some mtime) now g =
    let checked : Logger = record g { last_config_check = now } in
    if leb g.config_check_interval (now - g.last_config_check)
    then (if ltb g.last_mtime mtime
        then (true, record checked { last_mtime = mtime })
        else (false, checked))
    else (false, g)

-- `snprintf(b + i, size, "%s", text)`
abbrev pub print_at : List ℕ → ℕ → ℕ → Text → List ℕ
print_at b i zero text = b
print_at b i (suc room) text =
    let printed = take room text ++ 0 ∷ [] in take i b ++ (printed ++ drop (i + length printed) b)

-- The newline and the terminator, at the end of the line or of the buffer.
abbrev pub finish_line : ℕ → List ℕ → List ℕ
finish_line total_len printed =
    if ltb total_len 4094
    then set (set printed total_len newline) (total_len + 1) 0
    else set (set printed 4094 newline) 4095 0

-- The buffer of 4096 bytes after the line is formatted. None where the prefix alone is longer than
-- the buffer: then the message is written outside of it.
pub format_line : List ℕ → Text → Text → Option (List ℕ)
format_line log_buffer prefix content =
    let prefix_len = length prefix in
    let printed =
      print_at (print_at log_buffer 0 4095 prefix) prefix_len (4096 - prefix_len - 1) content in
    if leb prefix_len 4095 then some (finish_line (prefix_len + length content) printed) else none

-- What a call of the logger meets: stat, the clock, the configuration file, the line that notes a
-- reload, the text in front of the message, the message, and the buffer on the stack.
pub record LogCall : Type 0 where
  pub mtime : Option ℕ
  pub now : ℕ
  pub config : Option (List ℕ)
  pub reload_line : List ℕ
  pub prefix : Text
  pub content : Text
  pub log_buffer : List ℕ

pub wtsl_logger_reload_config : Option (List ℕ) → List ℕ → Logger → Logger
unfolding parse_config_file append_line
wtsl_logger_reload_config config note g =
    let parsed : Logger = (parse_config_file config g).1 in
    record parsed { system = append_line note parsed.system }

abbrev pub reload_if : Bool × Logger → LogCall → Logger
reload_if (true, g) k = wtsl_logger_reload_config k.config k.reload_line g
reload_if (false, g) k = g

abbrev pub written : Logger → Option (List ℕ) → Option Logger
written g none = none
written g (some b) = some (record g { system = append_line (c_string b) g.system })

pub wtsl_logger_log : LogLevel → LogCall → Logger → Option Logger
unfolding need_config_reload format_line wtsl_logger_reload_config
wtsl_logger_log level k g =
    let g' : Logger = reload_if (need_config_reload k.mtime k.now g) k in
    if wtsl_logger_should_log g'.current_mode level
    then written g' (format_line k.log_buffer k.prefix k.content)
    else some g'
