-- ===== src/Logger/Mode.antt =====
-- The mode that the configuration file gives.
use wtsl_app.Base.{
  ℕ, zero, suc, ◌-◌, ◌<◌, Bool, true, false, not, ◌&&◌, Option, none, some, List, [], ◌∷◌, ◌≡◌,
  refl, ◌∙◌, sym, ap, arith, if◌then◌else◌, ◌==◌, length, take, map, Text, text_eq, codes, c_string,
  to_upper, Bool-cases, inl, inr,
}
use wtsl_app.Config.{trim_whitespace}
use wtsl_app.Logger.{
  ConfigMode, Logger, Scan, line_length, log_config_lines, before_bracket, is_log_section,
  is_comment, parse_config_mode, scan_lines, parse_config_file, known_mode, mode_or_all, at_entry,
  at_section, scan_trimmed,
}

-- The mode that a text names, in capitals or not.
abbrev pub named_mode : Text → Option ConfigMode
named_mode s =
    if text_eq (map to_upper s) (codes "ALL")
    then some ConfigMode.config_mode_all
    else (if text_eq (map to_upper s) (codes "PRODUCT")
        then some ConfigMode.config_mode_product
        else none)

text_eq-take : (n : ℕ) (s t : Text) → length t < n → text_eq (take n s) t ≡ text_eq s t
text_eq-take zero s t lt = absurd (omega arith)
text_eq-take (suc n) [] t lt = refl
text_eq-take (suc n) (c ∷ s) [] lt = refl
text_eq-take (suc n) (c ∷ s) (d ∷ t) lt = ap (λ b. (c == d) && b) (text_eq-take n s t (omega arith))

map-take : (n : ℕ) (s : Text) → map to_upper (take n s) ≡ take n (map to_upper s)
map-take zero s = refl
map-take (suc n) [] = refl
map-take (suc n) (c ∷ s) = ap (λ l. to_upper c ∷ l) (map-take n s)

known_tests :
    (a b a' b' : Bool)
    → a ≡ a'
    → b ≡ b'
    → known_mode (
        if a
        then ConfigMode.config_mode_all
        else (if b then ConfigMode.config_mode_product else ConfigMode.config_mode_unknown))
      ≡ (if a'
          then some ConfigMode.config_mode_all
          else (if b' then some ConfigMode.config_mode_product else none))
known_tests a b true b' e f = rw e refl
known_tests a b false true e f = rw (e, f) refl
known_tests a b false false e f = rw (e, f) refl

-- The cut after 31 characters makes no difference.
known_mode-named : (s : Text) → known_mode (parse_config_mode s) ≡ named_mode s
unfolding parse_config_mode
known_mode-named s =
    let all : text_eq (map to_upper (take 31 s)) (codes "ALL")
        ≡ text_eq (map to_upper s) (codes "ALL") =
      ap (λ u. text_eq u (codes "ALL")) (map-take 31 s)
      ∙ text_eq-take 31 (map to_upper s) (codes "ALL") (omega arith) in
    let product : text_eq (map to_upper (take 31 s)) (codes "PRODUCT")
        ≡ text_eq (map to_upper s) (codes "PRODUCT") =
      ap (λ u. text_eq u (codes "PRODUCT")) (map-take 31 s)
      ∙ text_eq-take 31 (map to_upper s) (codes "PRODUCT") (omega arith) in
    known_tests _ _ _ _ all product

-- Whether the lines behind a trimmed line are in the section, if the line itself is inside or not.
abbrev pub next_inside : Bool → Text → Bool
next_inside inside [] = inside
next_inside inside (c ∷ line) =
    if c == 91
    then (elim (before_bracket line) [
      | none ↦ inside
      | some section ↦ is_log_section (trim_whitespace section)
    ])
    else inside

abbrev pub is_entry : Text → Bool
is_entry [] = false
is_entry (c ∷ line) = not (c == 91)

abbrev pub trimmed : Text → Text
trimmed line = trim_whitespace (c_string line)

-- The trimmed lines in the section, without the headers and the empty lines.
pub section_entries : Bool → List Text → List Text
section_entries inside [] = []
section_entries inside (line ∷ lines) =
    let rest = section_entries (next_inside inside (trimmed line)) lines in
    if inside && is_entry (trimmed line) then trimmed line ∷ rest else rest

abbrev pub or_else_mode : Option ConfigMode → Option ConfigMode → Option ConfigMode
or_else_mode none m = m
or_else_mode (some mode) m = some mode

-- The first line that names a mode.
abbrev pub first_named : List Text → Option ConfigMode
first_named [] = none
first_named (t ∷ ts) = or_else_mode (named_mode t) (first_named ts)

or_else_assoc :
    (a b c : Option ConfigMode)
    → or_else_mode (or_else_mode a b) c ≡ or_else_mode a (or_else_mode b c)
or_else_assoc none b c = refl
or_else_assoc (some m) b c = refl

or_else_none : (a : Option ConfigMode) → or_else_mode a none ≡ a
or_else_none none = refl
or_else_none (some m) = refl

comment-unnamed : (c : ℕ) (s : Text) → is_comment c ≡ true → named_mode (c ∷ s) ≡ none
comment-unnamed c s h = ground arith

at_entry-or_else :
    (t : Text) (found : Option ConfigMode) → at_entry t found ≡ or_else_mode found (named_mode t)
at_entry-or_else t none = known_mode-named t
at_entry-or_else t (some m) = refl

entry_of : Bool → Text → Option ConfigMode
entry_of b t = if b then named_mode t else none

at_section-found : (s : Scan) (o : Option Text) → (at_section s o).found_mode ≡ s.found_mode
at_section-found s none = refl
at_section-found s (some t) = refl

at_section-inside :
    (s : Scan) (o : Option Text)
    → (at_section s o).in_chip_log_system
      ≡ (elim o [ none ↦ s.in_chip_log_system | some t ↦ is_log_section (trim_whitespace t) ])
at_section-inside s none = refl
at_section-inside s (some t) = refl

scan-inside :
    (s : Scan) (t : Text)
    → (scan_trimmed s t).in_chip_log_system ≡ next_inside s.in_chip_log_system t
scan-inside s [] = refl
scan-inside s (c ∷ line) = elim (Bool-cases (c == 91)) [
  | inl is ↦ rw is (at_section-inside s (before_bracket line))
  | inr is ↦ rw is (elim (Bool-cases (s.in_chip_log_system && not (is_comment c))) [
    | inl k ↦ rw k refl
    | inr k ↦ rw k refl
  ])
]

abbrev scan_of : Bool → Option ConfigMode → Scan
scan_of inside found = record { in_chip_log_system = inside; found_mode = found }

scan_of-found :
    (inside : Bool) (found : Option ConfigMode) (t : Text)
    → (scan_trimmed (scan_of inside found) t).found_mode
      ≡ or_else_mode found (entry_of (inside && is_entry t) t)
unfolding entry_of
scan_of-found true found [] = sym (or_else_none found)
scan_of-found false found [] = sym (or_else_none found)
scan_of-found true found (c ∷ line) = elim (Bool-cases (c == 91)) [
  | inl is ↦
      rw is (at_section-found (scan_of true found) (before_bracket line) ∙ sym (or_else_none found))
  | inr is ↦ rw is (elim (Bool-cases (is_comment c)) [
    | inl k ↦ rw k (sym (ap (or_else_mode found) (comment-unnamed c line k) ∙ or_else_none found))
    | inr k ↦ rw k (at_entry-or_else (c ∷ line) found)
  ])
]
scan_of-found false found (c ∷ line) = elim (Bool-cases (c == 91)) [
  | inl is ↦
      rw is
        (at_section-found (scan_of false found) (before_bracket line) ∙ sym (or_else_none found))
  | inr is ↦ rw is (sym (or_else_none found))
]

first_named-cons :
    (b : Bool) (t : Text) (ts : List Text)
    → first_named (if b then t ∷ ts else ts) ≡ or_else_mode (entry_of b t) (first_named ts)
unfolding entry_of
first_named-cons true t ts = refl
first_named-cons false t ts = refl

scan_lines-found :
    (lines : List Text) (s : Scan)
    → (scan_lines s lines).found_mode
      ≡ or_else_mode s.found_mode (first_named (section_entries s.in_chip_log_system lines))
unfolding scan_lines section_entries
scan_lines-found [] s = sym (or_else_none s.found_mode)
scan_lines-found (line ∷ lines) s =
    let t : Text = trimmed line in
    let b : Bool = s.in_chip_log_system && is_entry t in
    let rest : List Text = section_entries (next_inside s.in_chip_log_system t) lines in
    scan_lines-found lines (scan_trimmed s t)
    ∙ (ap (λ i. or_else_mode (scan_trimmed s t).found_mode (first_named (section_entries i lines)))
          (scan-inside s t)
        ∙ (ap (λ f. or_else_mode f (first_named rest))
              (scan_of-found s.in_chip_log_system s.found_mode t)
            ∙ (or_else_assoc s.found_mode (entry_of b t) (first_named rest)
                ∙ ap (or_else_mode s.found_mode) (sym (first_named-cons b t rest)))))

-- Reading the configuration file sets the mode that the first line naming one, in capitals or not,
-- gives among the lines of the sections [chip log_system], and the mode ALL if no line does. Without
-- the file the mode stays.
pub parse_config_file-first_named :
    (contents : List ℕ) (g : Logger)
    → (parse_config_file (some contents) g ≡ (
      true,
      record g {
        current_mode =
            mode_or_all
              (first_named (section_entries false (log_config_lines (line_length - 1) contents)));
      },
    ))
      × (parse_config_file none g ≡ (false, g))
unfolding parse_config_file
parse_config_file-first_named contents g = (
  ap (λ m. (true, record g { current_mode = mode_or_all m }))
      (scan_lines-found (log_config_lines (line_length - 1) contents) (scan_of false none)),
  refl,
)
