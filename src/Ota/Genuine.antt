-- ===== src/Ota/Genuine.antt =====
-- Which packages extract_and_verify_firmware takes.
use wtsl_app.Base.{
  Bool, true, false, ◌&&◌, Option, none, some, List, [], ◌∷◌, ◌≡◌, refl, ap, ◌∙◌, sym, ◌↔◌,
  if◌then◌else◌, Text, String, codes, arith,
}
use wtsl_app.Ota.{
  FirmwareHeader, get_md5_by_ko_name, Host, calculate_file_md5, md5_text_eq, compared,
  verify_single_ko_file,
}
use wtsl_app.Ota.Package.{
  ko_path, extract_tar_gz, ko_names, all_there, and_verified, ko_verified, all_verified, same_md5,
  extract_and_verify_firmware,
}

-- The file is there, and its md5 is the one that the header has for it.
pub KoGenuine : Host → FirmwareHeader → String → Type 0
KoGenuine host header name =
    (a : Text) × (e : Text) × (host.access (ko_path host header name) ≡ true)
    × (calculate_file_md5 (host.md5sum (ko_path host header name)) ≡ some a)
    × (get_md5_by_ko_name header (codes name) ≡ some e)
    × (md5_text_eq a e ≡ true)

pub AllGenuine : Host → FirmwareHeader → List String → Type 0
AllGenuine host header [] = Unit
AllGenuine host header (name ∷ names) = KoGenuine host header name × AllGenuine host header names

compared-true :
    (o e : Option Text)
    → compared o e ≡ some true
    → (a : Text) × (b : Text) × (o ≡ some a) × (e ≡ some b) × (md5_text_eq a b ≡ true)
compared-true none e h = cc
compared-true (some a) none h = cc
compared-true (some a) (some b) h = (a, b, refl, refl, cc)

pub if_true : {A : Type 0} (b : Bool) (x y : A) → b ≡ true → (if b then x else y) ≡ x
if_true b x y h = rw h refl

pub both : (a b : Bool) → (a && b) ≡ true → (a ≡ true) × (b ≡ true)
both a b h = ground arith

both_true : (a b : Bool) → a ≡ true → b ≡ true → (a && b) ≡ true
both_true a b h k = ground arith

verified_KoGenuine :
    (host : Host) (header : FirmwareHeader) (name : String)
    → host.access (ko_path host header name) ≡ true
    → ko_verified host header name ≡ some true
    → KoGenuine host header name
unfolding KoGenuine verify_single_ko_file
verified_KoGenuine host header name there h =
    let (a, b, ea, eb, same) = compared-true _ _ (sym (if_true _ _ (some false) there) ∙ h) in
    (a, b, there, ea, eb, same)

KoGenuine-verified :
    (host : Host) (header : FirmwareHeader) (name : String)
    → KoGenuine host header name
    → ko_verified host header name ≡ some true
unfolding KoGenuine verify_single_ko_file
KoGenuine-verified host header name (a, b, there, ea, eb, same) =
    if_true _ _ (some false) there
    ∙ ap (λ o. compared o (get_md5_by_ko_name header (codes name))) ea
    ∙ ap (compared (some a)) eb
    ∙ ap some same

and_verified-true :
    (o p : Option Bool) → and_verified o p ≡ some true → (o ≡ some true) × (p ≡ some true)
and_verified-true none p h = cc
and_verified-true (some b) none h = cc
and_verified-true (some b) (some c) h = let (e, f) = both b c cc in (ap some e, ap some f)

all_verified-Genuine :
    (host : Host) (header : FirmwareHeader) (names : List String)
    → all_there host header names ≡ true
    → all_verified host header names ≡ some true
    → AllGenuine host header names
unfolding AllGenuine
all_verified-Genuine host header [] t h = tt
all_verified-Genuine host header (name ∷ names) t h =
    let (there, others) =
      both (host.access (ko_path host header name)) (all_there host header names) t in
    let (this, rest) =
      and_verified-true (ko_verified host header name) (all_verified host header names) h in
    (
      verified_KoGenuine host header name there this,
      all_verified-Genuine host header names others rest,
    )

Genuine-all_there :
    (host : Host) (header : FirmwareHeader) (names : List String)
    → AllGenuine host header names
    → all_there host header names ≡ true
unfolding AllGenuine KoGenuine
Genuine-all_there host header [] h = refl
Genuine-all_there host header (name ∷ names) ((a, e, there, ea, eb, same), h) =
    both_true _ _ there (Genuine-all_there host header names h)

Genuine-all_verified :
    (host : Host) (header : FirmwareHeader) (names : List String)
    → AllGenuine host header names
    → all_verified host header names ≡ some true
unfolding AllGenuine
Genuine-all_verified host header [] h = refl
Genuine-all_verified host header (name ∷ names) (g, h) =
    ap (λ o. and_verified o (all_verified host header names))
      (KoGenuine-verified host header name g)
    ∙ ap (and_verified (some true)) (Genuine-all_verified host header names h)

-- The md5 of the package is that of the header, it can be extracted, and all four files are genuine.
pub PackageGenuine : Host → Text → FirmwareHeader → Type 0
PackageGenuine host file header =
    (m : Text) × (calculate_file_md5 (host.md5sum file) ≡ some m)
    × (md5_text_eq header.md5sum m ≡ true)
    × (extract_tar_gz host file ≡ true)
    × AllGenuine host header ko_names

same_md5-true :
    (header : FirmwareHeader) (o : Option Text)
    → same_md5 header o ≡ true
    → (m : Text) × (o ≡ some m) × (md5_text_eq header.md5sum m ≡ true)
same_md5-true header none h = cc
same_md5-true header (some m) h = (m, refl, h)

if_some-true :
    (b : Bool) (x : Option Bool)
    → (if b then x else some false) ≡ some true
    → (b ≡ true) × (x ≡ some true)
if_some-true true x h = (refl, h)
if_some-true false x h = cc

-- A package is taken exactly if its md5 is that of the header, in either case, it can be extracted,
-- and the four kernel modules are there, each with the md5 that the header has for its name.
pub extract_iff_genuine :
    (host : Host) (file : Text) (header : FirmwareHeader)
    → (extract_and_verify_firmware host file header ≡ some true) ↔ PackageGenuine host file header
unfolding extract_and_verify_firmware PackageGenuine
extract_iff_genuine host file header = (
  (λ h.
      let (same, rest) =
        if_some-true (same_md5 header (calculate_file_md5 (host.md5sum file))) _ h in
      let (m, e, k) = same_md5-true header (calculate_file_md5 (host.md5sum file)) same in
      let (taken, files) = if_some-true (extract_tar_gz host file) _ rest in
      let (there, verified) = if_some-true (all_there host header ko_names) _ files in
      (m, e, k, taken, all_verified-Genuine host header ko_names there verified)),
  (λ (m, e, k, taken, genuine).
      if_true _ _ (some false) (ap (same_md5 header) e ∙ k)
      ∙ if_true _ _ (some false) taken
      ∙ if_true _ _ (some false) (Genuine-all_there host header ko_names genuine)
      ∙ Genuine-all_verified host header ko_names genuine),
)
