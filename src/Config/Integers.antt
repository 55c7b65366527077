-- ===== src/Config/Integers.antt =====
-- config_set_int and config_get_int, with the conversions of the C library as parameters.
use wtsl_app.Base.{
  ℕ, ◌-◌, ◌<◌, ◌≤◌, zero, suc, ◌≡◌, refl, ap, ◌∙◌, Bool, true, false, ◌&&◌, Option, none, some,
  List, [], ◌∷◌, ◌++◌, arith, if◌then◌else◌, length, replicate, take-length, set, drop, Text,
  text_eq_refl, c_string, ◌==◌, ==_refl, has_char,
}
use wtsl_app.Config.{
  ConfigResult, config_success, config_error_invalid_param, Buffers, Disk, SetCalls, config_set,
  config_get, config_set_int, config_get_int, is_valid_key, is_valid_value, strncpy,
  config_max_value_length, converted, int_of, read_file,
}
use wtsl_app.Config.Lines.{has_char-cons, has_char-tail}
use wtsl_app.Config.Parse.{IsSetting}
use wtsl_app.Config.Update.{AllWork, IsConfig, IsQuery, result_of, set-get}

c_string-set :
    (s rest : List ℕ) (i : ℕ)
    → has_char 0 s ≡ false
    → length s ≤ i
    → c_string (set (s ++ 0 ∷ rest) i 0) ≡ s
unfolding c_string
c_string-set [] rest zero h l = refl
c_string-set [] rest (suc i) h l = refl
c_string-set (c ∷ s) rest zero h l = absurd (omega arith)
c_string-set (c ∷ s) rest (suc i) h l =
    rw (has_char-cons 0 c s h)
      (ap (λ t. c ∷ t) (c_string-set s rest i (has_char-tail 0 c s h) (omega arith)))

c_string-delivered :
    (s rest : List ℕ) (k i : ℕ)
    → has_char 0 s ≡ false
    → 0 < k
    → length s ≤ i
    → c_string (set (s ++ (replicate k 0 ++ rest)) i 0) ≡ s
c_string-delivered s rest zero i h p l = absurd (omega arith)
c_string-delivered s rest (suc k) i h p l = c_string-set s (replicate k 0 ++ rest) i h l

-- The value in the caller's buffer.
c_string-get :
    (s buffer : List ℕ)
    → has_char 0 s ≡ false
    → length s < config_max_value_length - 1
    → c_string
        (set (strncpy (config_max_value_length - 1) s buffer) (config_max_value_length - 1) 0)
      ≡ s
unfolding strncpy
c_string-get s buffer h l = rw (take-length 255 s (omega (arith, l))) (
    c_string-delivered s (drop 255 buffer) (255 - length s) 255 h (omega (arith, l))
      (omega (arith, l)))

abbrev answer {ℓ} : {A : Type ℓ} → ConfigResult × A → ConfigResult × Option A
answer (r, num) = (r, some num)

converted-read :
    {A : Type 0} (strtol : Text → A × ℕ) (old : A) (s : Text) (v : A)
    → strtol s ≡ (v, length s)
    → (length s == 0) ≡ false
    → converted strtol old s ≡ (config_success, v)
converted-read strtol old s v reads nonempty = rw (reads, nonempty, ==_refl (length s)) refl

and_false : (a b c : Bool) → b ≡ false → (a && b && c) ≡ false
and_false a b c h = ground arith

-- In a file of lines, each ended by a newline, without 0 bytes and short enough for the arrays, with
-- no call failing, an integer that config_set_int stores is read back by config_get_int. The key and
-- the text that snprintf prints are valid, have no white space around them and no 0 bytes, and fit
-- their arrays; strtol reads the integer from the whole of that text, which is not empty; and the
-- array that config_get_int does not initialise holds a text that passes the test of config_get.
pub set-get_int :
    {A : Type 0} (printed : A → Text) (strtol : Text → A × ℕ) (e : SetCalls) (d : Disk)
    (lines : List Text) (key : Text) (v old : A)
    → AllWork e
    → IsConfig d.config lines
    → IsSetting key (printed v)
    → strtol (printed v) ≡ (v, length (printed v))
    → (length (printed v) == 0) ≡ false
    → (junk : ℕ → Buffers) (rubbish : List ℕ) → IsQuery key rubbish config_max_value_length
    → config_get_int strtol junk
        ((config_set_int printed e d (some key) v).1.config)
        rubbish
        (some key)
        (some old)
      ≡ (config_success, some v)
unfolding config_get_int config_set_int
set-get_int printed strtol e d lines key v old w h s reads nonempty junk rubbish q =
    let got : config_get junk ((config_set e d (some key) (some (printed v))).1.config) (some key)
          (some rubbish) config_max_value_length
        ≡ result_of rubbish config_max_value_length (some (printed v)) =
      set-get e d lines key (printed v) w h s junk key rubbish config_max_value_length q
      ∙ rw (text_eq_refl key) refl in
    ap (λ p. answer (int_of strtol old p)) got
    ∙ ap (λ t. answer (converted strtol old t))
        (c_string-get (printed v) rubbish s.value_no_zero s.value_fits)
    ∙ ap answer (converted-read strtol old (printed v) v reads nonempty)

-- If the array that config_get_int does not initialise holds a text of 256 characters or one with a
-- line break, config_get_int reports an invalid parameter and stores nothing, whatever the file
-- holds.
pub get_int-rubbish :
    {A : Type 0} (strtol : Text → A × ℕ) (junk : ℕ → Buffers) (file : Option (List ℕ))
    (rubbish : List ℕ) (key : Option Text) (old : A)
    → is_valid_value (some (c_string rubbish)) ≡ false
    → config_get_int strtol junk file rubbish key (some old)
      ≡ (config_error_invalid_param, some old)
unfolding config_get_int
get_int-rubbish strtol junk file rubbish none old h = refl
get_int-rubbish strtol junk file rubbish (some key) old h =
    ap
      (λ b. answer (
        int_of strtol old (
          if b
          then read_file junk file key rubbish config_max_value_length
          else (config_error_invalid_param, some rubbish))))
      (and_false (is_valid_key (some key)) (is_valid_value (some (c_string rubbish))) true h)
