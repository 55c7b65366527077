-- ===== src/Ota/Examples.antt =====
-- Examples and tests of the update.
use wtsl_app.Base.{
  ℕ, zero, suc, true, false, Option, none, some, List, [], ◌∷◌, ◌++◌, ◌≡◌, refl, ◌↔◌, inl, map,
  replicate, take, Text, codes, c_string,
}
use wtsl_app.Nodes.Links.{ne_of_false}
use wtsl_app.Users.{Field}
use wtsl_app.Ota.{
  FirmwareHeader, FirmwareJson, firmware_header_of, Host, extract_upgrade_version,
  calculate_file_md5, ko_loop, get_md5_by_ko_name,
}
use wtsl_app.Ota.Package.{ko_names, extract_and_verify_firmware, extract_tar_gz}
use wtsl_app.Ota.App.{Cmd, Machine, Shell, perform_app_upgrade}
use wtsl_app.Ota.Rollback.{UpgradeEnds, upgrade-UpgradeEnds}
use wtsl_app.Ota.Genuine.{PackageGenuine, extract_iff_genuine}
use wtsl_app.Ota.Unlisted.{AnyUnlisted, Faults, fault_iff_unlisted}
use wtsl_app.Ota.Header.{header-first_four, ko_file, strings, Without, sized, extract_version-sized}
use wtsl_app.Ota.Handle.{Site}
use wtsl_app.Ota.Submit.{
  Submission, Submitted, Response, HeaderRead, read_header, package_path,
  wtsl_core_firmware_upgrade,
}
use wtsl_app.Ota.Tested.{Tested, install-Tested}
use wtsl_app.Ota.Archive.{
  Extraction, readable, wtsl_core_parse_json_extract_file_header, extract-content,
}

abbrev zeros : Text
zeros = replicate 32 48

-- A host on which everything is there, with the same md5 for every file.
abbrev host : Host
host = record {
  machine = some (codes "armv7l");
  atoi = λ t. some 3;
  null_text = codes "(null)";
  access = λ path. true;
  md5sum = λ path. some (zeros ++ 10 ∷ []);
  system = λ command. true;
}

abbrev ko_items : List (Text × Option Text)
ko_items = map (λ name. (codes name, some zeros)) ko_names

abbrev json : List (Text × Option Text) → FirmwareJson
json items = record {
  filename = Field.string (codes "f");
  md5sum = Field.string zeros;
  filesize = Field.string (codes "3");
  version = Field.string (codes "v1_124.B212");
  filetype = Field.absent;
  firmwaretype = Field.absent;
  up_method = Field.absent;
  process = Field.absent;
  targetarch = Field.string (codes "arm");
  hostinfo = Field.no_string;
  ko_md5sum = some items;
}

abbrev header : FirmwareHeader
header = firmware_header_of (json ko_items)

-- One of the keys has no string.
abbrev five_items : List (Text × Option Text)
five_items = (codes "none.ko", none) ∷ (codes "more.ko", some zeros) ∷ ko_items

header-first_four_example :
    (firmware_header_of (json five_items)).ko_files ≡ map ko_file (take 4 (strings five_items))
header-first_four_example = header-first_four (json five_items) five_items refl

extract_iff_genuine_example :
    (extract_and_verify_firmware host package_path header ≡ some true)
    ↔ PackageGenuine host package_path header
extract_iff_genuine_example = extract_iff_genuine host package_path header

-- The package is taken.
package_taken : extract_and_verify_firmware host package_path header ≡ some true
unfolding extract_and_verify_firmware ko_loop
package_taken = refl

abbrev bare_header : FirmwareHeader
bare_header = firmware_header_of (json [])

nothing_listed : AnyUnlisted host bare_header ko_names
unfolding calculate_file_md5 get_md5_by_ko_name ko_loop
nothing_listed = inl (zeros, refl, refl)

md5_taken : extract_tar_gz host package_path ≡ true
unfolding extract_tar_gz
md5_taken = refl

fault_iff_unlisted_example :
    (extract_and_verify_firmware host package_path bare_header ≡ none)
    ↔ Faults host package_path bare_header
fault_iff_unlisted_example = fault_iff_unlisted host package_path bare_header

-- The package that lists no kernel module makes the program fault.
bare_faults : extract_and_verify_firmware host package_path bare_header ≡ none
unfolding calculate_file_md5
bare_faults =
    (fault_iff_unlisted host package_path bare_header).1 (refl, md5_taken, refl, nothing_listed)

-- A shell in which the new program does not start.
abbrev shell : Shell
shell = record {
  works = λ history c. elim c [ Cmd.start ↦ false | _ ↦ true ];
  fresh = 2;
  broken = 0;
  astray = λ f. f;
  has_binary = true;
  has_lib_wtsl_core = true;
}

abbrev machine : Machine
machine = record { files = record { main = 1; backup = 7 }; history = [] }

upgrade-UpgradeEnds_example : UpgradeEnds shell true 1 (perform_app_upgrade shell machine)
upgrade-UpgradeEnds_example = upgrade-UpgradeEnds shell machine refl

-- The program of before is back at its place.
main_restored : (perform_app_upgrade shell machine).1.files.main ≡ 1
unfolding perform_app_upgrade
main_restored = refl

no_point : (n : ℕ) → Without 46 (replicate n 49)
no_point zero = tt
no_point (suc n) = (ne_of_false 49 46 refl, no_point n)

extract_version-sized_example :
    extract_upgrade_version (codes "v" ++ 95 ∷ (replicate 10 49 ++ 46 ∷ []))
    ≡ sized (replicate 10 49)
extract_version-sized_example =
    extract_version-sized (codes "v") (replicate 10 49) [] (ne_of_false 118 95 refl, tt)
      (no_point 10)

abbrev submission : Submission
submission = record {
  parse = λ text. some (json ko_items);
  rk_script = true;
  left = λ path. false;
  own_version = codes "212";
}

abbrev site : Site
site = record { access = λ history path. false; forks = true }

abbrev nothing_found : Submitted
nothing_found = record {
  response = Response.upgrade_failed;
  install = some (record { ok = false; child = false; history = [] });
}

-- A genuine package in which no directory is found.
nothing_installed :
    wtsl_core_firmware_upgrade submission host site header (some (123 ∷ [])) ≡ some nothing_found
unfolding wtsl_core_firmware_upgrade ko_loop
nothing_installed = refl

install-Tested_example : Tested submission host header (123 ∷ [])
install-Tested_example =
    install-Tested submission host site header (123 ∷ []) nothing_found nothing_installed refl

abbrev rest_of_header : List ℕ
rest_of_header = replicate 1023 0

header_read :
    read_header submission header (c_string (123 ∷ rest_of_header)) ≡ HeaderRead.good header
unfolding read_header
header_read = refl

extract-content_example :
    wtsl_core_parse_json_extract_file_header submission host header
      (readable ((123 ∷ rest_of_header) ++ 5 ∷ 6 ∷ 7 ∷ []))
      []
    ≡ some (Extraction.uploaded header, 5 ∷ 6 ∷ 7 ∷ [])
extract-content_example =
    extract-content submission host header header rest_of_header (5 ∷ 6 ∷ 7 ∷ []) [] refl
      header_read refl
