-- ===== src/Config/Examples.antt =====
-- A small configuration file: the theorems' hypotheses hold there, and tests.
use wtsl_app.Base.{
  ℕ, ◌-◌, ◌≡◌, ◌≢◌, refl, true, false, none, some, List, [], String, ◌∷◌, ◌++◌, arith,
  if◌then◌else◌, leb, ◌&&◌, ◌+◌, ◌*◌, ◌/◌, ◌%◌, replicate, Text, codes, c_string,
}
use wtsl_app.Config.{
  config_success, config_error_not_found, Buffers, Disk, SetCalls, config_set, config_get,
  config_set_int, config_get_int, newline, line_entry, is_valid_key, is_valid_value,
  trim_whitespace, config_max_value_length, contents,
}
use wtsl_app.Config.Lines.{IsLine, flatten}
use wtsl_app.Config.Parse.{IsSetting}
use wtsl_app.Config.Settings.{Fits, other_lines}
use wtsl_app.Config.Update.{AllWork, IsConfig, IsQuery, set-other_lines, set-failed}
use wtsl_app.Config.Integers.{set-get_int}

abbrev line : String → Text
line s = codes s ++ newline ∷ []

abbrev radio : List Text
radio = line "# radio" ∷ line "BW=20" ∷ line "NAME = gw" ∷ []

abbrev disk : Disk
disk = record { config = some (flatten radio); temp = none }

-- Arrays that were never written.
abbrev junk : ℕ → Buffers
junk i = record { key = replicate 64 7; value = replicate 256 9 }

abbrev calls : SetCalls
calls = record { temp_opens = true; config_opens = true; rename_works = true; junk = junk }

calls-AllWork : AllWork calls
calls-AllWork = record { temp = refl; config = refl; renamed = refl }

comment-IsLine : IsLine (line "# radio")
comment-IsLine = record {
  body = codes "# radio";
  ends = refl;
  one_line = refl;
  no_zero = refl;
  fits = omega arith;
}

width-IsLine : IsLine (line "BW=20")
width-IsLine = record {
  body = codes "BW=20";
  ends = refl;
  one_line = refl;
  no_zero = refl;
  fits = omega arith;
}

name-IsLine : IsLine (line "NAME = gw")
name-IsLine = record {
  body = codes "NAME = gw";
  ends = refl;
  one_line = refl;
  no_zero = refl;
  fits = omega arith;
}

comment-Fits : Fits (line_entry (line "# radio"))
unfolding line_entry
comment-Fits = tt

width-Fits : Fits (line_entry (line "BW=20"))
unfolding line_entry
width-Fits = (refl, refl, omega arith, omega arith)

name-Fits : Fits (line_entry (line "NAME = gw"))
unfolding line_entry
name-Fits = (refl, refl, omega arith, omega arith)

disk-IsConfig : IsConfig disk.config radio
disk-IsConfig = record {
  holds = refl;
  all_lines = (comment-IsLine, (width-IsLine, (name-IsLine, tt)));
  all_fit = (comment-Fits, (width-Fits, (name-Fits, tt)));
}

width-IsSetting : IsSetting (codes "BW") (codes "40")
unfolding is_valid_key is_valid_value trim_whitespace
width-IsSetting = record {
  key_valid = refl;
  value_valid = refl;
  key_trimmed = refl;
  value_trimmed = refl;
  key_no_zero = refl;
  value_no_zero = refl;
  key_fits = omega arith;
  value_fits = omega arith;
}

abbrev buffer : List ℕ
buffer = replicate 256 0

width-IsQuery : IsQuery (codes "BW") buffer config_max_value_length
unfolding is_valid_key is_valid_value c_string
width-IsQuery = record { key_valid = refl; buffer_valid = refl; room = refl }

set-other_lines_example :
    (lines : List Text) × (config_set calls disk (some (codes "BW")) (some (codes "40"))
      ≡ (config_success, record { config = some (flatten lines); temp = none }))
    × IsConfig (some (flatten lines)) lines
    × (other_lines (codes "BW") lines ≡ other_lines (codes "BW") radio)
set-other_lines_example =
    set-other_lines calls disk radio (codes "BW") (codes "40") calls-AllWork disk-IsConfig
      width-IsSetting

abbrev no_rename : SetCalls
no_rename = record calls { rename_works = false }

no_rename_fails :
    (config_set no_rename disk (some (codes "BW")) (some (codes "40"))).0 ≢ config_success
unfolding config_set
no_rename_fails e = cc

set-failed_example :
    contents ((config_set no_rename disk (some (codes "BW")) (some (codes "40"))).1.config)
    ≡ contents disk.config
set-failed_example =
    set-failed no_rename disk (some (codes "BW")) (some (codes "40")) no_rename_fails

-- Conversions for numbers below 100 and for digits.
abbrev two_digits : ℕ → Text
two_digits n = (48 + n / 10) ∷ (48 + n % 10) ∷ []

abbrev read_digits : ℕ → ℕ → Text → ℕ × ℕ
read_digits num taken [] = (num, taken)
read_digits num taken (c ∷ s) =
    let more = read_digits (10 * num + (c - 48)) (taken + 1) s in
    if leb 48 c && leb c 57 then more else (num, taken)

set-get_int_example :
    config_get_int
      (read_digits 0 0)
      junk
      ((config_set_int two_digits calls disk (some (codes "BW")) 40).1.config)
      buffer
      (some (codes "BW"))
      (some 20)
    ≡ (config_success, some 40)
set-get_int_example =
    set-get_int two_digits (read_digits 0 0) calls disk radio (codes "BW") 40 20 calls-AllWork
      disk-IsConfig width-IsSetting refl refl junk buffer width-IsQuery

-- What may stand on the stack, with a line break in it.
abbrev rubbish : List ℕ
rubbish = codes "pq" ++ newline ∷ replicate 253 0

rubbish_refused : is_valid_value (some (c_string rubbish)) ≡ false
unfolding is_valid_value c_string
rubbish_refused = refl

-- A last line without newline runs into the entry that is appended.
abbrev unended : Disk
unended = record { config = some (codes "A=1"); temp = none }

unended_test :
    config_set calls unended (some (codes "B")) (some (codes "2"))
    ≡ (config_success, record { config = some (codes "A=1B=2" ++ newline ∷ []); temp = none })
unfolding config_set
unended_test = refl

-- A key with white space around it is accepted, and not found again.
spaced_test :
    config_get junk
      ((config_set calls disk (some (codes " X")) (some (codes "2"))).1.config)
      (some (codes " X"))
      (some buffer)
      256
    ≡ (config_error_not_found, some buffer)
unfolding config_set config_get
spaced_test = refl
