-- ===== src/Ota/Tested.antt =====
-- What stands in front of the installation of a package.
use wtsl_app.Base.{
  ℕ, Bool, true, false, Option, none, some, List, [], ◌∷◌, ◌≤◌, ◌≡◌, ◌⊎◌, inl, inr, ◌||◌, ◌&&◌,
  ◌==◌, refl, ◌∙◌, sym, arith, leb, length, take, Text, codes, text_eq, eq_of_text_eq, strncmp_eq,
  c_string, Bool-cases,
}
use mathlib.Core.Path.{subst}
use wtsl_app.Ota.{
  FirmwareHeader, Host, Version, extract_upgrade_version, platform_verify, reaches, old_platform,
  new_platform, if_fits,
}
use wtsl_app.Ota.Package.{extract_and_verify_firmware}
use wtsl_app.Ota.Genuine.{PackageGenuine, extract_iff_genuine, both}
use wtsl_app.Ota.Handle.{Site}
use wtsl_app.Ota.Submit.{
  Response, Submission, Submitted, HeaderRead, answer, read_header, package_path, if_verified,
  upgrade_with, wtsl_core_firmware_upgrade,
}

-- The script for rk3568 or handle_firmware_upgrade was called.
abbrev pub is_installing : Submitted → Bool
is_installing r = elim r.response [
  | Response.rk_failed ↦ true
  | Response.upgrade_failed ↦ true
  | Response.submitted app www libs firmware ↦ true
  | _ ↦ false
]

-- The test of a response that may not be there.
abbrev Installing : Option Submitted → Type 0
Installing none = ⊥
Installing (some r) = is_installing r ≡ true

-- The header names no architecture, and the number of its version is at least 123.
abbrev pub IsOldPlatform : Host → FirmwareHeader → Type 0
IsOldPlatform host header =
    (header.targetarch ≡ [])
    × ((t : Text) × (n : ℕ) × (extract_upgrade_version header.version ≡ Version.number t)
        × (host.atoi t ≡ some n)
        × (123 ≤ n))

-- The header names the architecture of the machine.
abbrev pub IsMachine : Text → Text → Type 0
IsMachine machine target =
    ((target ≡ codes "arm") × (strncmp_eq machine (codes "armv") 4 ≡ true))
    ⊎ ((target ≡ codes "arm64") × (machine ≡ codes "aarch64"))

abbrev pub IsNewPlatform : Host → FirmwareHeader → Type 0
IsNewPlatform host header =
    (machine : Text) × (host.machine ≡ some machine) × IsMachine machine header.targetarch

-- The header and what was tested of it.
pub Tested : Submission → Host → FirmwareHeader → List ℕ → Type 0
Tested s host stack bytes =
    (header : FirmwareHeader) × (read_header s stack (c_string (take 1024 bytes))
      ≡ HeaderRead.good header)
    × (platform_verify host header ≡ some true)
    × (IsOldPlatform host header ⊎ IsNewPlatform host header)
    × PackageGenuine host package_path header

true_is_not : false ≡ true → ⊥
true_is_not e = cc

reaches_lem :
    (least : ℕ) (o : Option ℕ)
    → some (reaches least o) ≡ some true
    → (n : ℕ) × (o ≡ some n) × (least ≤ n)
reaches_lem least none e = cc
reaches_lem least (some n) e = let le : leb least n ≡ true = cc in (n, refl, ground arith)

old_platform_lem :
    (host : Host) (v : Version)
    → old_platform host v ≡ some true
    → (t : Text) × (n : ℕ) × (v ≡ Version.number t) × (host.atoi t ≡ some n) × (123 ≤ n)
old_platform_lem host Version.invalid e = cc
old_platform_lem host Version.overflow e = cc
old_platform_lem host (Version.number t) e =
    let (n, is, le) = reaches_lem 123 (host.atoi t) e in (t, n, refl, is, le)

either_true : (a b : Bool) → (a || b) ≡ true → (a ≡ true) ⊎ (b ≡ true)
either_true true b e = inl refl
either_true false b e = inr e

new_platform_lem :
    (m : Option Text) (target : Text)
    → new_platform m target ≡ true
    → (machine : Text) × (m ≡ some machine) × IsMachine machine target
new_platform_lem none target e = absurd (true_is_not e)
new_platform_lem (some machine) target e = (
  machine,
  refl,
  elim (either_true (text_eq target (codes "arm") && strncmp_eq machine (codes "armv") 4)
      (text_eq target (codes "arm64") && text_eq machine (codes "aarch64")) e) [
        | inl old ↦
            let (a, b) = both (text_eq target (codes "arm")) _ old in
            inl (eq_of_text_eq target (codes "arm") a, b)
        | inr new ↦
            let (a, b) = both (text_eq target (codes "arm64")) _ new in
            inr (eq_of_text_eq target (codes "arm64") a, eq_of_text_eq machine (codes "aarch64") b)
      ],
)

if_fits_lem : (v : Version) (b : Bool) → if_fits v b ≡ some true → b ≡ true
if_fits_lem Version.invalid b e = cc
if_fits_lem Version.overflow b e = cc
if_fits_lem (Version.number t) b e = cc

empty_of : (t : Text) → (length t == 0) ≡ true → t ≡ []
empty_of [] e = refl
empty_of (c ∷ t) e = absurd (ground arith)

-- What the test of the platform accepts.
platform_accepted :
    (host : Host) (header : FirmwareHeader)
    → platform_verify host header ≡ some true
    → IsOldPlatform host header ⊎ IsNewPlatform host header
unfolding platform_verify
platform_accepted host header e = elim (Bool-cases (length header.targetarch == 0)) [
  | inl is ↦ inl (
    empty_of header.targetarch is,
    old_platform_lem host (extract_upgrade_version header.version) (rw is at e),
  )
  | inr isnt ↦ inr (
      new_platform_lem host.machine header.targetarch
        (if_fits_lem (extract_upgrade_version header.version) _ (rw isnt at e)))
]

passed :
    (r : Response) (o : Option Bool) (next : Option Submitted)
    → is_installing (answer r none) ≡ false
    → Installing (if_verified r o next)
    → (o ≡ some true) × Installing next
passed r none next e h = absurd h
passed r (some true) next e h = (refl, h)
passed r (some false) next e h = absurd (true_is_not (sym e ∙ h))

read_good :
    (s : Submission) (host : Host) (site : Site) (h : HeaderRead)
    → Installing (upgrade_with s host site h)
    → (header : FirmwareHeader) × (h ≡ HeaderRead.good header)
      × (platform_verify host header ≡ some true)
      × (extract_and_verify_firmware host package_path header ≡ some true)
read_good s host site HeaderRead.unparsed h = absurd (true_is_not h)
read_good s host site HeaderRead.without_json h = absurd (true_is_not h)
read_good s host site (HeaderRead.good header) h =
    let (platform, rest) = passed Response.wrong_platform _ _ refl h in
    let (genuine, end) = passed Response.md5_failed _ _ refl rest in
    (header, refl, platform, genuine)

installing_some :
    (o : Option Submitted) (r : Submitted) → o ≡ some r → is_installing r ≡ true → Installing o
installing_some o r e h = subst Installing (sym e) h

-- The script for rk3568 and the installation of a package are only reached if a header could be read
-- from the first 1024 bytes of the file, its platform passes the test, and the package is genuine: its
-- md5 is that of the header, it could be extracted, and its four kernel modules have the md5 sums
-- that the header has for them. A platform passes if the header names no architecture and the number
-- of its version is at least 123, or if it names the one of the machine: arm for a name that begins
-- with armv, or arm64 for aarch64.
pub install-Tested :
    (s : Submission) (host : Host) (site : Site) (stack : FirmwareHeader) (bytes : List ℕ)
    (r : Submitted)
    → wtsl_core_firmware_upgrade s host site stack (some bytes) ≡ some r
    → is_installing r ≡ true
    → Tested s host stack bytes
unfolding wtsl_core_firmware_upgrade Tested
install-Tested s host site stack bytes r e h =
    let (header, good, platform, genuine) =
      read_good s host site (read_header s stack (c_string (take 1024 bytes)))
        (installing_some _ r e h) in
    (
      header,
      good,
      platform,
      platform_accepted host header platform,
      (extract_iff_genuine host package_path header).0 genuine,
    )
