-- ===== src/Ota.antt =====
-- Ota: the update of the program from a package, src/wtsl_core/dataparser/wtsl_core_dataparser_ota.c:
-- the header in JSON, its version and platform, and the tests of the package against it. cJSON, the
-- files, uname, and what md5sum and tar give are inputs, and so are atoi and what printf makes of
-- NULL.
pub mod Package
pub mod App
pub mod Handle
pub mod Submit
pub mod Archive
mod Examples
pub mod Tested
pub mod Rollback
pub mod Genuine
pub mod Header
pub mod Unlisted
use wtsl_app.Base.{
  to_lower, ℕ, suc, ◌-◌, Bool, true, false, not, ◌&&◌, ◌||◌, Option, none, some, List, [], ◌∷◌,
  ◌++◌, ◌==◌, leb, if◌then◌else◌, length, take, map, Text, codes, text_eq, strncmp_eq,
}
use wtsl_app.Users.{Field}

-- wtko_md5_t, as C strings
pub record KoFile : Type 0 where
  pub wt_koname : Text
  pub md5 : Text

-- The arrays hold C strings. Of the four places for ko files only those that are set stand here.
pub record FirmwareHeader : Type 0 where
  pub filename : Text
  pub md5sum : Text
  pub filesize : Text
  pub version : Text
  pub filetype : Text
  pub firmwaretype : Text
  pub up_method : Text
  pub process : Text
  pub targetarch : Text
  pub hostinfo : Text
  pub ko_files : List KoFile

-- The object: its items, and the keys of ko_md5sum with their strings, if that is an object.
pub record FirmwareJson : Type 0 where
  pub filename : Field
  pub md5sum : Field
  pub filesize : Field
  pub version : Field
  pub filetype : Field
  pub firmwaretype : Field
  pub up_method : Field
  pub process : Field
  pub targetarch : Field
  pub hostinfo : Field
  pub ko_md5sum : Option (List (Text × Option Text))

-- `strncpy` of at most n characters into an array of zeros that is longer
abbrev pub copied : ℕ → Field → Text
copied n (Field.string t) = take n t
copied n _ = []

abbrev pub is_string_field : Field → Bool
is_string_field (Field.string t) = true
is_string_field _ = false

-- The loop over the keys, with the number of those that are stored.
pub ko_loop : List (Text × Option Text) → ℕ → List KoFile
ko_loop [] ko_index = []
ko_loop ((name, none) ∷ items) ko_index =
    let rest = ko_loop items ko_index in if leb 4 ko_index then [] else rest
ko_loop ((name, some md5) ∷ items) ko_index =
    let rest = ko_loop items (suc ko_index) in
    if leb 4 ko_index then [] else record { wt_koname = take 31 name; md5 = take 32 md5 } ∷ rest

abbrev pub ko_entries : Option (List (Text × Option Text)) → List KoFile
ko_entries none = []
ko_entries (some items) = ko_loop items 0

abbrev pub firmware_header_of : FirmwareJson → FirmwareHeader
firmware_header_of j = record {
  filename = copied 63 j.filename;
  md5sum = copied 32 j.md5sum;
  filesize = copied 15 j.filesize;
  version = copied 31 j.version;
  filetype = copied 15 j.filetype;
  firmwaretype = copied 15 j.firmwaretype;
  up_method = copied 15 j.up_method;
  process = copied 31 j.process;
  targetarch = copied 15 j.targetarch;
  hostinfo = copied 15 j.hostinfo;
  ko_files = ko_entries j.ko_md5sum;
}

-- true is 0. What is no JSON leaves the header as it was.
unfoldable pub parse_firmware_header : Option FirmwareJson → FirmwareHeader → Bool × FirmwareHeader
unfolding ko_loop
parse_firmware_header none header = (false, header)
parse_firmware_header (some j) header = (
  is_string_field j.filename && is_string_field j.md5sum && is_string_field j.filesize,
  firmware_header_of j,
)

abbrev pub md5_in : List KoFile → Text → Option Text
md5_in [] ko_name = none
md5_in (k ∷ ko_files) ko_name =
    let rest = md5_in ko_files ko_name in
    if not (length k.wt_koname == 0) && text_eq k.wt_koname ko_name then some k.md5 else rest

unfoldable pub get_md5_by_ko_name : FirmwareHeader → Text → Option Text
get_md5_by_ko_name header ko_name = md5_in header.ko_files ko_name

-- `strchr(s, c)`: the text from the first such character on
abbrev pub from_char : ℕ → Text → Option Text
from_char c [] = none
from_char c (d ∷ s) = let rest = from_char c s in if d == c then some (d ∷ s) else rest

-- `strcspn` or a copy up to the character
abbrev pub before_char : ℕ → Text → Text
before_char c [] = []
before_char c (d ∷ s) = let rest = before_char c s in if d == c then [] else d ∷ rest

abbrev pub behind : Option Text → Option Text
behind none = none
behind (some []) = none
behind (some (c ∷ s)) = some s

unfoldable pub get_build_version : FirmwareHeader → Option Text
get_build_version header = behind (from_char 66 header.version)

-- invalid is -1; overflow is a write behind num_str.
pub data Version : Type 0 where
  invalid : Version
  overflow : Version
  number : Text → Version

-- The text up to a point that is there, in an array of 10.
abbrev pub up_to_point : Text → Option Text → Version
up_to_point start none = Version.invalid
up_to_point start (some end) =
    let len = length start - length end in
    if len == 0
    then Version.invalid
    else if leb 10 len
    then Version.overflow
    else Version.number (take len start)

abbrev pub version_from : Option Text → Version
version_from none = Version.invalid
version_from (some start) = up_to_point start (from_char 46 start)

unfoldable pub extract_upgrade_version : Text → Version
extract_upgrade_version version = version_from (behind (from_char 95 version))

-- What the program meets: `machine` is none if uname fails, atoi none for a negative number, md5sum
-- none if nothing can be read from the command, and `system` says whether a command exits with 0.
pub record Host : Type 0 where
  pub machine : Option Text
  pub atoi : Text → Option ℕ
  pub null_text : Text
  pub access : Text → Bool
  pub md5sum : Text → Option Text
  pub system : Text → Bool

abbrev pub reaches : ℕ → Option ℕ → Bool
reaches n none = false
reaches n (some v) = leb n v

abbrev pub old_platform : Host → Version → Option Bool
old_platform host Version.invalid = some false
old_platform host Version.overflow = none
old_platform host (Version.number t) = some (reaches 123 (host.atoi t))

abbrev pub new_platform : Option Text → Text → Bool
new_platform none target = false
new_platform (some machine) target =
    (text_eq target (codes "arm") && strncmp_eq machine (codes "armv") 4)
    || (text_eq target (codes "arm64") && text_eq machine (codes "aarch64"))

abbrev pub if_fits : Version → Bool → Option Bool
if_fits Version.overflow b = none
if_fits _ b = some b

-- none is a write behind an array, true is 0.
unfoldable pub platform_verify : Host → FirmwareHeader → Option Bool
unfolding extract_upgrade_version
platform_verify host header =
    let value = extract_upgrade_version header.version in
    if length header.targetarch == 0
    then old_platform host value
    else if_fits value (new_platform host.machine header.targetarch)

abbrev checked_md5 : Text → Option Text
checked_md5 result = if length result == 32 then some result else none

-- The line that md5sum gives, without its newline.
pub calculate_file_md5 : Option Text → Option Text
calculate_file_md5 none = none
calculate_file_md5 (some line) = checked_md5 (before_char 10 line)

-- `strcasecmp(s, t) == 0`
abbrev pub md5_text_eq : Text → Text → Bool
md5_text_eq s t = text_eq (map to_lower s) (map to_lower t)

-- none is a comparison with NULL, true is 0.
abbrev pub compared : Option Text → Option Text → Option Bool
compared none expected = some false
compared (some actual) none = none
compared (some actual) (some expected) = some (md5_text_eq actual expected)

unfoldable pub verify_single_ko_file : Host → Text → Option Text → Option Bool
unfolding calculate_file_md5
verify_single_ko_file host path expected =
    if host.access path
    then compared (calculate_file_md5 (host.md5sum path)) expected
    else some false
