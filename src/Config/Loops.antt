-- ===== src/Config/Loops.antt =====
-- The loops of config_set and config_get on the lines of a file, whatever their arrays held.
use wtsl_app.Base.{
  ℕ, ◌+◌, ◌-◌, ◌≡◌, refl, sym, ap, ◌∙◌, Bool, true, false, ◌||◌, Option, none, some, List, [], ◌∷◌,
  ◌++◌, inl, inr, arith, Bool-cases, if◌then◌else◌, length-append, Text, text_eq, c_string,
}
use wtsl_app.Config.{
  line_entry, printed_entry, Buffers, strncpy, parse_config_line, carries, copy_entry, found,
  set_step, set_loop, get_loop, config_max_key_length, config_max_value_length, newline,
  equals_sign, appended,
}
use wtsl_app.Config.Parse.{
  IsSetting, line_entry-printed, c_string-strncpy, key_chars-newline, is_valid_key-chars,
  is_valid_value-newline,
}
use wtsl_app.Config.Lines.{
  IsLine, AllLines, flatten, c_string-line, flatten-append, AllLines-append, has_char-append,
}
use wtsl_app.Config.Settings.{
  or_false, Fits, AllFit, has_key, choose, first_value, has_entry, replaced, put,
}
use mathlib.Core.List.{append_assoc, append-nil}

carries-copy :
    (key : Text) (b : Buffers) (e : Option (Text × Text))
    → Fits e
    → carries key (copy_entry b e) ≡ has_key key e
carries-copy key b none f = refl
carries-copy key b (some (k, v)) (k0, v0, kn, vn) =
    ap (λ s. text_eq s key) (c_string-strncpy (config_max_key_length - 1) k b.key k0 kn)

found-copy :
    (key : Text) (b : Buffers) (e : Option (Text × Text)) (rest : Option Text)
    → Fits e
    → found key (copy_entry b e) rest ≡ choose key e rest
found-copy key b none rest f = refl
found-copy key b (some (k, v)) rest (k0, v0, kn, vn) =
    ap
      (λ s.
        if text_eq s key
        then some (c_string (strncpy (config_max_value_length - 1) v b.value))
        else rest)
      (c_string-strncpy (config_max_key_length - 1) k b.key k0 kn)
    ∙ ap (λ s. if text_eq k key then some s else rest)
        (c_string-strncpy (config_max_value_length - 1) v b.value v0 vn)

carries-line :
    (key : Text) (b : Buffers) (line : Text)
    → IsLine line
    → Fits (line_entry line)
    → carries key (parse_config_line b (c_string line)) ≡ has_key key (line_entry line)
unfolding parse_config_line
carries-line key b line h f =
    ap (λ l. carries key (copy_entry b (line_entry l))) (c_string-line line h)
    ∙ carries-copy key b (line_entry line) f

found-line :
    (key : Text) (b : Buffers) (line : Text) (rest : Option Text)
    → IsLine line
    → Fits (line_entry line)
    → found key (parse_config_line b (c_string line)) rest ≡ choose key (line_entry line) rest
unfolding parse_config_line
found-line key b line rest h f =
    ap (λ l. found key (copy_entry b (line_entry l)) rest) (c_string-line line h)
    ∙ found-copy key b (line_entry line) rest f

set_step-line :
    (key value line : Text) (b updated : Bool) (lines : List Text)
    → IsLine line
    → set_step key value line b (updated, flatten lines)
      ≡ (b || updated, flatten ((if b then printed_entry key value else line) ∷ lines))
set_step-line key value line true updated lines h = refl
set_step-line key value line false updated lines h =
    ap (λ l. (updated, l ++ flatten lines)) (c_string-line line h)

pub set_loop-replaced :
    (junk : ℕ → Buffers) (key value : Text) (i : ℕ) (lines : List Text)
    → AllLines lines
    → AllFit lines
    → set_loop junk key value i lines ≡ (has_entry key lines, flatten (replaced key value lines))
unfolding set_loop has_entry replaced
set_loop-replaced junk key value i [] a f = refl
set_loop-replaced junk key value i (line ∷ lines) (h, a) (g, f) =
    ap (λ b. set_step key value line b (set_loop junk key value (i + 1) lines))
      (carries-line key (junk i) line h g)
    ∙ ap (set_step key value line (has_key key (line_entry line)))
        (set_loop-replaced junk key value (i + 1) lines a f)
    ∙ set_step-line key value line (has_key key (line_entry line)) (has_entry key lines)
        (replaced key value lines) h

pub get_loop-first_value :
    (junk : ℕ → Buffers) (key : Text) (i : ℕ) (lines : List Text)
    → AllLines lines
    → AllFit lines
    → get_loop junk key i lines ≡ first_value key lines
unfolding get_loop first_value
get_loop-first_value junk key i [] a f = refl
get_loop-first_value junk key i (line ∷ lines) (h, a) (g, f) =
    found-line key (junk i) line (get_loop junk key (i + 1) lines) h g
    ∙ ap (choose key (line_entry line)) (get_loop-first_value junk key (i + 1) lines a f)

replaced-missing :
    (key value : Text) (lines : List Text)
    → has_entry key lines ≡ false
    → replaced key value lines ≡ lines
unfolding has_entry replaced
replaced-missing key value [] h = refl
replaced-missing key value (line ∷ lines) h =
    let (miss, rest) = or_false (has_key key (line_entry line)) (has_entry key lines) h in
    rw miss (ap (λ ls. line ∷ ls) (replaced-missing key value lines rest))

flatten-printed : (lines : List Text) (p : Text) → flatten lines ++ p ≡ flatten (lines ++ p ∷ [])
flatten-printed lines p =
    ap (λ q. flatten lines ++ q) (sym (append-nil p)) ∙ sym (flatten-append lines (p ∷ []))

-- What config_set writes after its loop.
pub appended-put :
    (key value : Text) (lines : List Text)
    → appended key value (has_entry key lines, flatten (replaced key value lines))
      ≡ flatten (put key value lines)
unfolding put
appended-put key value lines = elim (Bool-cases (has_entry key lines)) [
  | inl h ↦ rw h refl
  | inr h ↦ rw h (
      ap (λ ls. flatten ls ++ printed_entry key value) (replaced-missing key value lines h)
      ∙ flatten-printed lines (printed_entry key value))
]

-- The printed line is a line.
printed_entry-IsLine : (key value : Text) → IsSetting key value → IsLine (printed_entry key value)
printed_entry-IsLine key value s = record {
  body = key ++ equals_sign ∷ value;
  ends = sym (append_assoc key (equals_sign ∷ value) (newline ∷ []));
  one_line =
      has_char-append newline key (equals_sign ∷ value)
        (key_chars-newline key (is_valid_key-chars key s.key_valid))
        (is_valid_value-newline value s.value_valid);
  no_zero = has_char-append 0 key (equals_sign ∷ value) s.key_no_zero s.value_no_zero;
  fits = omega (arith, length-append key (equals_sign ∷ value), s.key_fits, s.value_fits);
}

replaced-AllLines :
    (key value : Text)
    → IsSetting key value
    → (lines : List Text) → AllLines lines
    → AllLines (replaced key value lines)
unfolding replaced
replaced-AllLines key value s [] a = tt
replaced-AllLines key value s (line ∷ lines) (h, a) =
    elim (Bool-cases (has_key key (line_entry line))) [
      | inl e ↦ rw e (printed_entry-IsLine key value s, replaced-AllLines key value s lines a)
      | inr e ↦ rw e (h, replaced-AllLines key value s lines a)
    ]

pub put-AllLines :
    (key value : Text)
    → IsSetting key value
    → (lines : List Text) → AllLines lines
    → AllLines (put key value lines)
unfolding put
put-AllLines key value s lines a = elim (Bool-cases (has_entry key lines)) [
  | inl h ↦ rw h (replaced-AllLines key value s lines a)
  | inr h ↦ rw h (AllLines-append lines _ a (printed_entry-IsLine key value s, tt))
]

printed_entry-Fits :
    (key value : Text) → IsSetting key value → Fits (line_entry (printed_entry key value))
printed_entry-Fits key value s =
    let fits : Fits (some (key, value)) =
      (s.key_no_zero, s.value_no_zero, s.key_fits, s.value_fits) in
    rw (line_entry-printed key value s) fits

replaced-AllFit :
    (key value : Text)
    → IsSetting key value
    → (lines : List Text) → AllFit lines
    → AllFit (replaced key value lines)
unfolding replaced
replaced-AllFit key value s [] a = tt
replaced-AllFit key value s (line ∷ lines) (h, a) =
    elim (Bool-cases (has_key key (line_entry line))) [
      | inl e ↦ rw e (printed_entry-Fits key value s, replaced-AllFit key value s lines a)
      | inr e ↦ rw e (h, replaced-AllFit key value s lines a)
    ]

AllFit-append : (xs ys : List Text) → AllFit xs → AllFit ys → AllFit (xs ++ ys)
AllFit-append [] ys a b = b
AllFit-append (x ∷ xs) ys (h, a) b = (h, AllFit-append xs ys a b)

pub put-AllFit :
    (key value : Text)
    → IsSetting key value
    → (lines : List Text) → AllFit lines
    → AllFit (put key value lines)
unfolding put
put-AllFit key value s lines a = elim (Bool-cases (has_entry key lines)) [
  | inl h ↦ rw h (replaced-AllFit key value s lines a)
  | inr h ↦ rw h (AllFit-append lines _ a (printed_entry-Fits key value s, tt))
]
