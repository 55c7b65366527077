-- ===== src/Ota/Unlisted.antt =====
-- Packages with a kernel module for which the header has no md5.
use wtsl_app.Base.{
  Bool, true, false, Option, none, some, List, [], ◌∷◌, ◌≡◌, refl, ap, ◌∙◌, sym, ◌↔◌, if◌then◌else◌,
  ◌⊎◌, inl, inr, Text, String, codes,
}
use wtsl_app.Ota.{
  FirmwareHeader, get_md5_by_ko_name, Host, calculate_file_md5, compared, verify_single_ko_file,
}
use wtsl_app.Ota.Package.{
  ko_path, extract_tar_gz, ko_names, all_there, and_verified, ko_verified, all_verified, same_md5,
  extract_and_verify_firmware,
}
use wtsl_app.Ota.Genuine.{if_true, both}

-- The md5 of the file can be read, and the header has none for its name.
abbrev pub KoUnlisted : Host → FirmwareHeader → String → Type 0
KoUnlisted host header name =
    (a : Text) × (calculate_file_md5 (host.md5sum (ko_path host header name)) ≡ some a)
    × (get_md5_by_ko_name header (codes name) ≡ none)

abbrev pub AnyUnlisted : Host → FirmwareHeader → List String → Type 0
AnyUnlisted host header [] = ⊥
AnyUnlisted host header (name ∷ names) = KoUnlisted host header name ⊎ AnyUnlisted host header names

unlisted_faults :
    (host : Host) (header : FirmwareHeader) (name : String)
    → host.access (ko_path host header name) ≡ true
    → KoUnlisted host header name
    → ko_verified host header name ≡ none
unfolding verify_single_ko_file
unlisted_faults host header name there (a, ea, eb) =
    if_true _ _ (some false) there
    ∙ ap (λ o. compared o (get_md5_by_ko_name header (codes name))) ea
    ∙ ap (compared (some a)) eb

and_verified-none : (o : Option Bool) → and_verified o none ≡ none
and_verified-none none = refl
and_verified-none (some b) = refl

any_faults :
    (host : Host) (header : FirmwareHeader) (names : List String)
    → all_there host header names ≡ true
    → AnyUnlisted host header names
    → all_verified host header names ≡ none
any_faults host header [] t h = absurd h
any_faults host header (name ∷ names) t (inl h) =
    let (there, others) =
      both (host.access (ko_path host header name)) (all_there host header names) t in
    ap (λ o. and_verified o (all_verified host header names))
      (unlisted_faults host header name there h)
any_faults host header (name ∷ names) t (inr h) =
    let (there, others) =
      both (host.access (ko_path host header name)) (all_there host header names) t in
    ap (and_verified (ko_verified host header name)) (any_faults host header names others h)
    ∙ and_verified-none (ko_verified host header name)

none_is_some : {A : Type 0} {a : A} → none ≡ some a → ⊥
none_is_some e = cc

compared-none : (o e : Option Text) → compared o e ≡ none → (a : Text) × (o ≡ some a) × (e ≡ none)
compared-none none e h = absurd (none_is_some (sym h))
compared-none (some a) none h = (a, refl, refl)
compared-none (some a) (some b) h = absurd (none_is_some (sym h))

fault_unlisted :
    (host : Host) (header : FirmwareHeader) (name : String)
    → host.access (ko_path host header name) ≡ true
    → ko_verified host header name ≡ none
    → KoUnlisted host header name
unfolding verify_single_ko_file
fault_unlisted host header name there h =
    compared-none _ _ (sym (if_true _ _ (some false) there) ∙ h)

and_verified-fault : (o p : Option Bool) → and_verified o p ≡ none → (o ≡ none) ⊎ (p ≡ none)
and_verified-fault none p h = inl refl
and_verified-fault (some b) none h = inr refl
and_verified-fault (some b) (some c) h = absurd (none_is_some (sym h))

all_verified-fault :
    (host : Host) (header : FirmwareHeader) (names : List String)
    → all_there host header names ≡ true
    → all_verified host header names ≡ none
    → AnyUnlisted host header names
all_verified-fault host header [] t h = absurd (none_is_some (sym h))
all_verified-fault host header (name ∷ names) t h =
    let (there, others) =
      both (host.access (ko_path host header name)) (all_there host header names) t in
    elim (and_verified-fault (ko_verified host header name) (all_verified host header names) h) [
      | inl first ↦ inl (fault_unlisted host header name there first)
      | inr rest ↦ inr (all_verified-fault host header names others rest)
    ]

-- A test whose failure ends the function without the fault.
passed_test :
    (b : Bool) (x : Option Bool) → (if b then x else some false) ≡ none → (b ≡ true) × (x ≡ none)
passed_test true x h = (refl, h)
passed_test false x h = absurd (none_is_some (sym h))

-- What leads to the comparison with NULL.
abbrev pub Faults : Host → Text → FirmwareHeader → Type 0
Faults host file header =
    (same_md5 header (calculate_file_md5 (host.md5sum file)) ≡ true)
    × (extract_tar_gz host file ≡ true)
    × (all_there host header ko_names ≡ true)
    × AnyUnlisted host header ko_names

-- The test of a package compares with NULL exactly if the package has the md5 of its header, can be
-- extracted and has the four kernel modules, and the header has no md5 for one of them whose own md5
-- can be read. All other packages get an answer.
pub fault_iff_unlisted :
    (host : Host) (file : Text) (header : FirmwareHeader)
    → (extract_and_verify_firmware host file header ≡ none) ↔ Faults host file header
unfolding extract_and_verify_firmware
fault_iff_unlisted host file header = (
  λ h.
      let (same, taking) =
        passed_test (same_md5 header (calculate_file_md5 (host.md5sum file))) _ h in
      let (taken, testing) = passed_test (extract_tar_gz host file) _ taking in
      let (there, fault) = passed_test (all_there host header ko_names) _ testing in
      (same, taken, there, all_verified-fault host header ko_names there fault),
  λ (same, taken, there, any).
      if_true _ _ (some false) same
      ∙ if_true _ _ (some false) taken
      ∙ if_true _ _ (some false) there
      ∙ any_faults host header ko_names there any,
)
