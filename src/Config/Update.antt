-- ===== src/Config/Update.antt =====
-- config_set and config_get on a whole file: setting a key is the update of a map.
use wtsl_app.Base.{
  ℕ, ◌≡◌, ◌≢◌, refl, sym, ap, ◌∙◌, Bool, true, false, not, ◌&&◌, Option, none, some, List, [], inl,
  inr, Bool-cases, if◌then◌else◌, Text, text_eq, c_string, ◌==◌,
}
use wtsl_app.Config.{
  ConfigResult, config_success, config_error_invalid_param, Buffers, Disk, SetCalls, contents,
  lines_read, store, config_set, config_get, read_file, with_buffer, copied_out, line_room,
  fgets_lines, is_valid_key, is_valid_value, set_loop, get_loop, appended, config_opened,
}
use wtsl_app.Config.Lines.{AllLines, flatten, fgets_lines-flatten}
use wtsl_app.Config.Parse.{IsSetting}
use wtsl_app.Config.Settings.{
  AllFit, first_value, put, first_value-put, other_lines, other_lines-put,
}
use wtsl_app.Config.Loops.{
  set_loop-replaced, get_loop-first_value, appended-put, put-AllLines, put-AllFit,
}

-- A file, present or not, that consists of these lines.
pub record IsConfig (file : Option (List ℕ)) (lines : List Text) : Type 0 where
  pub holds : contents file ≡ flatten lines
  pub all_lines : AllLines lines
  pub all_fit : AllFit lines

-- Nothing fails.
pub record AllWork (e : SetCalls) : Type 0 where
  pub temp : e.temp_opens ≡ true
  pub config : e.config_opens ≡ true
  pub renamed : e.rename_works ≡ true

IsConfig-put :
    {file : Option (List ℕ)} {lines : List Text} {key value : Text}
    → IsSetting key value
    → IsConfig file lines
    → IsConfig (some (flatten (put key value lines))) (put key value lines)
IsConfig-put {lines} {key} {value} s h = record {
  holds = refl;
  all_lines = put-AllLines key value s lines h.all_lines;
  all_fit = put-AllFit key value s lines h.all_fit;
}

lines_read-IsConfig :
    {e : SetCalls} (d : Disk) {lines : List Text}
    → AllWork e
    → IsConfig d.config lines
    → lines_read e d ≡ lines
lines_read-IsConfig {e} d {lines} w h =
    ap (λ b. if b then fgets_lines line_room (contents d.config) else []) w.config
    ∙ ap (fgets_lines line_room) h.holds
    ∙ fgets_lines-flatten lines h.all_lines

abbrev after : Text → Text → List Text → Disk
after key value lines = record { config = some (flatten (put key value lines)); temp = none }

store-put :
    {e : SetCalls} (d : Disk) {lines : List Text} (key value : Text)
    → AllWork e
    → IsConfig d.config lines
    → store e d key value ≡ (config_success, after key value lines)
store-put {e} d {lines} key value w h =
    let written : appended key value (set_loop e.junk key value 0 (lines_read e d))
        ≡ flatten (put key value lines) =
      ap (λ ls. appended key value (set_loop e.junk key value 0 ls)) (lines_read-IsConfig d w h)
      ∙ ap (appended key value) (set_loop-replaced e.junk key value 0 lines h.all_lines h.all_fit)
      ∙ appended-put key value lines in
    rw (w.temp, w.renamed)
      (ap (λ c. (config_success, record { config = some c; temp = none })) written)

pub set-put :
    {e : SetCalls} (d : Disk) {lines : List Text} {key value : Text}
    → AllWork e
    → IsConfig d.config lines
    → IsSetting key value
    → config_set e d (some key) (some value) ≡ (config_success, after key value lines)
unfolding config_set
set-put {e} d {lines} {key} {value} w h s =
    ap
      (λ b.
        if b && is_valid_value (some value)
        then store e d key value
        else (config_error_invalid_param, d))
      s.key_valid
    ∙ ap (λ b. if b then store e d key value else (config_error_invalid_param, d)) s.value_valid
    ∙ store-put d key value w h

-- The arguments that config_get does not refuse.
pub record IsQuery (key : Text) (buffer : List ℕ) (n : ℕ) : Type 0 where
  pub key_valid : is_valid_key (some key) ≡ true
  pub buffer_valid : is_valid_value (some (c_string buffer)) ≡ true
  pub room : (n == 0) ≡ false

abbrev pub result_of : List ℕ → ℕ → Option Text → ConfigResult × Option (List ℕ)
result_of buffer n v = with_buffer (copied_out buffer n v)

read_file-first_value :
    (junk : ℕ → Buffers) (file : Option (List ℕ)) (lines : List Text) (key : Text) (buffer : List ℕ)
    (n : ℕ)
    → IsConfig file lines
    → read_file junk file key buffer n ≡ result_of buffer n (first_value key lines)
unfolding fgets_lines first_value
read_file-first_value junk none lines key buffer n h =
    let empty : lines ≡ [] =
      sym (fgets_lines-flatten lines h.all_lines) ∙ ap (fgets_lines line_room) (sym h.holds) in
    sym (ap (λ ls. result_of buffer n (first_value key ls)) empty)
read_file-first_value junk (some bytes) lines key buffer n h =
    ap (λ bs. result_of buffer n (get_loop junk key 0 (fgets_lines line_room bs))) h.holds
    ∙ ap (λ ls. result_of buffer n (get_loop junk key 0 ls)) (fgets_lines-flatten lines h.all_lines)
    ∙ ap (result_of buffer n) (get_loop-first_value junk key 0 lines h.all_lines h.all_fit)

query_accepted :
    (key : Text) (buffer : List ℕ) (n : ℕ)
    → IsQuery key buffer n
    → (is_valid_key (some key) && is_valid_value (some (c_string buffer)) && not (n == 0)) ≡ true
query_accepted key buffer n q = rw (q.key_valid, q.buffer_valid, q.room) refl

pub get-first_value :
    (junk : ℕ → Buffers) (file : Option (List ℕ)) (lines : List Text) (key : Text) (buffer : List ℕ)
    (n : ℕ)
    → IsConfig file lines
    → IsQuery key buffer n
    → config_get junk file (some key) (some buffer) n ≡ result_of buffer n (first_value key lines)
unfolding config_get
get-first_value junk file lines key buffer n h q =
    let good : (is_valid_key (some key) && is_valid_value (some (c_string buffer)) && not (n == 0))
        ≡ true =
      query_accepted key buffer n q in
    ap
      (λ b.
        if b then read_file junk file key buffer n else (config_error_invalid_param, some buffer))
      good
    ∙ read_file-first_value junk file lines key buffer n h

pub set-get :
    (e : SetCalls) (d : Disk) (lines : List Text) (key value : Text)
    → AllWork e
    → IsConfig d.config lines
    → IsSetting key value
    → (junk : ℕ → Buffers) (k : Text) (buffer : List ℕ) (n : ℕ) → IsQuery k buffer n
    → config_get junk ((config_set e d (some key) (some value)).1.config) (some k) (some buffer) n
      ≡ (if text_eq key k
          then result_of buffer n (some value)
          else config_get junk d.config (some k) (some buffer) n)
set-get e d lines key value w h s junk k buffer n q =
    ap (λ p. config_get junk p.1.config (some k) (some buffer) n) (set-put d w h s)
    ∙ get-first_value junk _ (put key value lines) k buffer n (IsConfig-put s h) q
    ∙ ap (result_of buffer n) (first_value-put key value s k lines)
    ∙ chosen (text_eq key k)
  where
    chosen :
        (b : Bool)
        → result_of buffer n (if b then some value else first_value k lines) ≡ (
            if b
            then result_of buffer n (some value)
            else config_get junk d.config (some k) (some buffer) n)
    chosen true = refl
    chosen false = sym (get-first_value junk d.config lines k buffer n h q)

-- In a file of lines, each ended by a newline, without 0 bytes and short enough for the arrays, with
-- no call failing, config_set of a key and a value succeeds, its temporary file is gone, and the lines
-- that are no entry of the key stand in the new file as before and in the same order. The key and the
-- value are valid, have no white space around them and no 0 bytes, and fit their arrays.
pub set-other_lines :
    (e : SetCalls) (d : Disk) (lines : List Text) (key value : Text)
    → AllWork e
    → IsConfig d.config lines
    → IsSetting key value
    → (lines' : List Text) × (config_set e d (some key) (some value)
        ≡ (config_success, record { config = some (flatten lines'); temp = none }))
      × IsConfig (some (flatten lines')) lines'
      × (other_lines key lines' ≡ other_lines key lines)
set-other_lines e d lines key value w h s =
    (put key value lines, set-put d w h s, IsConfig-put s h, other_lines-put key value s lines)

contents-opened : (e : SetCalls) (d : Disk) → contents (config_opened e d) ≡ contents d.config
contents-opened e d = elim (Bool-cases e.config_opens) [ inl h ↦ rw h refl | inr h ↦ rw h refl ]

-- What a failure may do to the configuration file.
abbrev Harmless : Disk → ConfigResult × Disk → Type 0
Harmless d p = p.0 ≢ config_success → contents p.1.config ≡ contents d.config

store-Harmless : (e : SetCalls) (d : Disk) (key value : Text) → Harmless d (store e d key value)
store-Harmless e d key value f = elim (Bool-cases e.temp_opens) [
  | inl t ↦ elim (Bool-cases e.rename_works) [
    | inl r ↦ absurd (f (rw (t, r) refl))
    | inr r ↦ rw (t, r) (contents-opened e d)
  ]
  | inr t ↦ rw t refl
]

if-Harmless :
    (d : Disk) (b : Bool) (p : ConfigResult × Disk)
    → Harmless d p
    → Harmless d (if b then p else (config_error_invalid_param, d))
if-Harmless d true p h = h
if-Harmless d false p h = λ f. refl

-- Whatever the file holds and whatever fails, a config_set that does not report success leaves the
-- bytes of the configuration file as they were.
pub set-failed :
    (e : SetCalls) (d : Disk) (key value : Option Text)
    → (config_set e d key value).0 ≢ config_success
    → contents ((config_set e d key value).1.config) ≡ contents d.config
unfolding config_set
set-failed e d none value f = refl
set-failed e d (some key) none f = refl
set-failed e d (some key) (some value) f =
    if-Harmless d _ (store e d key value) (store-Harmless e d key value) f
