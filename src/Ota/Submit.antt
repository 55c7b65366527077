-- ===== src/Ota/Submit.antt =====
-- wtsl_core_firmware_upgrade of src/wtsl_core/dataparser/wtsl_core_dataparser.c: the update from the
-- file that was uploaded to the answer. The texts of the answers are left out.
use wtsl_app.Base.{
  ℕ, Bool, true, false, ◌&&◌, ◌||◌, Option, none, some, List, ◌++◌, if◌then◌else◌, take, Text,
  String, codes, text_eq, c_string,
}
use wtsl_app.Ota.{
  FirmwareHeader, FirmwareJson, parse_firmware_header, from_char, Host, platform_verify,
}
use wtsl_app.Ota.Package.{snprintf_256, extract_dir, extract_and_verify_firmware}
use wtsl_app.Ota.Handle.{Site, UpgradeResult, handle_firmware_upgrade, app_dir, www_dir}

pub data Response : Type 0 where
  invalid_header : Response
  no_json : Response
  wrong_platform : Response
  md5_failed : Response
  rk_failed : Response
  upgrade_failed : Response
  -- what the package has: the application, the web files, libraries and firmware
  submitted : (app www libs firmware : Bool) → Response

-- cJSON_Parse, the script for rk3568, what is there at the end, and the version of the program.
pub record Submission : Type 0 where
  pub parse : Text → Option FirmwareJson
  pub rk_script : Bool
  pub left : Text → Bool
  pub own_version : Text

-- The response, and what handle_firmware_upgrade did, if it was called.
pub record Submitted : Type 0 where
  pub response : Response
  pub install : Option UpgradeResult

abbrev pub answer : Response → Option UpgradeResult → Submitted
answer r i = record { response = r; install = i }

-- The header from the whole text, or from its first brace on.
pub data HeaderRead : Type 0 where
  unparsed : HeaderRead
  without_json : HeaderRead
  good : FirmwareHeader → HeaderRead

abbrev second_try : Bool × FirmwareHeader → HeaderRead
second_try (true, header) = HeaderRead.good header
second_try (false, header) = HeaderRead.unparsed

abbrev from_brace : Submission → FirmwareHeader → Option Text → HeaderRead
from_brace s header none = HeaderRead.without_json
from_brace s header (some start) = second_try (parse_firmware_header (s.parse start) header)

abbrev first_try : Submission → Text → Bool × FirmwareHeader → HeaderRead
first_try s text (true, header) = HeaderRead.good header
first_try s text (false, header) = from_brace s header (from_char 123 text)

-- `stack` is the header before it is set.
unfoldable pub read_header : Submission → FirmwareHeader → Text → HeaderRead
unfolding parse_firmware_header
read_header s stack text = first_try s text (parse_firmware_header (s.parse text) stack)

abbrev pub package_path : Text
package_path = codes "/tmp/upgrade.tar.gz"

abbrev in_app : String → Text
in_app name = snprintf_256 (app_dir ++ codes "/" ++ codes name)

abbrev pub success : Submission → Response
success s =
    let has_app = s.left app_dir in
    let has_libs =
      has_app
      && (s.left (in_app "libwtsl_core.so")
          || (s.left (in_app "libcjson.so") || s.left (in_app "libmicrohttpd.so"))) in
    Response.submitted has_app (s.left www_dir) has_libs
      (s.left (snprintf_256 (extract_dir ++ codes "/firmware_t" ++ s.own_version)))

abbrev pub after_handle : Submission → Option UpgradeResult → Option Submitted
after_handle s none = none
after_handle s (some i) =
    some (answer (if i.ok then success s else Response.upgrade_failed) (some i))

-- Behind the tests of the package.
abbrev pub install_package : Submission → Host → Site → FirmwareHeader → Option Submitted
install_package s host site header =
    if text_eq header.hostinfo (codes "rk3568")
    then some (answer (if s.rk_script then success s else Response.rk_failed) none)
    else after_handle s (handle_firmware_upgrade host site header)

abbrev pub if_verified : Response → Option Bool → Option Submitted → Option Submitted
if_verified r none next = none
if_verified r (some true) next = next
if_verified r (some false) next = some (answer r none)

abbrev pub upgrade_with : Submission → Host → Site → HeaderRead → Option Submitted
upgrade_with s host site HeaderRead.unparsed = some (answer Response.invalid_header none)
upgrade_with s host site HeaderRead.without_json = some (answer Response.no_json none)
upgrade_with s host site (HeaderRead.good header) =
    if_verified Response.wrong_platform (platform_verify host header) (
      if_verified Response.md5_failed (extract_and_verify_firmware host package_path header)
        (install_package s host site header))

abbrev upgrade_of : Submission → Host → Site → FirmwareHeader → Option (List ℕ) → Option Submitted
upgrade_of s host site stack none = none
upgrade_of s host site stack (some bytes) =
    let text = c_string (take 1024 bytes) in upgrade_with s host site (read_header s stack text)

-- none is a read through NULL or a write behind an array. The file is none if it cannot be opened;
-- it is taken to have a 0 among its first 1024 bytes, or to be shorter.
unfoldable pub wtsl_core_firmware_upgrade :
    Submission → Host → Site → FirmwareHeader → Option (List ℕ) → Option Submitted
unfolding read_header platform_verify extract_and_verify_firmware handle_firmware_upgrade c_string
wtsl_core_firmware_upgrade s host site stack file = upgrade_of s host site stack file
