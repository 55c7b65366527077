-- ===== src/Ota/Package.antt =====
-- extract_tar_gz and extract_and_verify_firmware of
-- src/wtsl_core/dataparser/wtsl_core_dataparser_ota.c.
use wtsl_app.Base.{
  Bool, true, false, ◌&&◌, Option, none, some, List, [], ◌∷◌, ◌++◌, if◌then◌else◌, take, Text,
  String, codes,
}
use wtsl_app.Ota.{
  FirmwareHeader, get_md5_by_ko_name, get_build_version, Host, calculate_file_md5, md5_text_eq,
  verify_single_ko_file,
}

-- What snprintf leaves in an array of 256.
abbrev pub snprintf_256 : Text → Text
snprintf_256 t = take 255 t

abbrev pub extract_dir : Text
extract_dir = codes "/tmp/upload_file"

abbrev pub printed_version : Host → Option Text → Text
printed_version host none = host.null_text
printed_version host (some v) = v

abbrev pub firmware_dir : Host → FirmwareHeader → Text
firmware_dir host header =
    snprintf_256
      (extract_dir ++ codes "/firmware_t" ++ printed_version host (get_build_version header))

abbrev pub ko_path : Host → FirmwareHeader → String → Text
ko_path host header name = snprintf_256 (firmware_dir host header ++ codes "/" ++ codes name)

-- The commands have an array of 512.
abbrev mkdir_command : Text
mkdir_command = take 511 (codes "mkdir -p " ++ extract_dir)

abbrev tar_command : Text → Text
tar_command file =
    take 511 (codes "tar -xzf " ++ file ++ codes " --strip-components 2 -C " ++ extract_dir)

unfoldable pub extract_tar_gz : Host → Text → Bool
extract_tar_gz host file =
    if host.system mkdir_command then host.system (tar_command file) else false

abbrev pub ko_names : List String
ko_names = "gt_gf61.ko" ∷ "hi_cipherserver.ko" ∷ "ksecurec.ko" ∷ "plat_gf61.ko" ∷ []

abbrev pub all_there : Host → FirmwareHeader → List String → Bool
all_there host header [] = true
all_there host header (name ∷ names) =
    host.access (ko_path host header name) && all_there host header names

-- `md5_verified &= verified`
abbrev pub and_verified : Option Bool → Option Bool → Option Bool
and_verified none rest = none
and_verified (some b) none = none
and_verified (some b) (some c) = some (b && c)

abbrev pub ko_verified : Host → FirmwareHeader → String → Option Bool
ko_verified host header name =
    verify_single_ko_file host (ko_path host header name) (get_md5_by_ko_name header (codes name))

abbrev pub all_verified : Host → FirmwareHeader → List String → Option Bool
all_verified host header [] = some true
all_verified host header (name ∷ names) =
    and_verified (ko_verified host header name) (all_verified host header names)

abbrev pub verify_files : Host → FirmwareHeader → Option Bool
verify_files host header =
    if all_there host header ko_names then all_verified host header ko_names else some false

abbrev pub same_md5 : FirmwareHeader → Option Text → Bool
same_md5 header none = false
same_md5 header (some md5_calculated) = md5_text_eq header.md5sum md5_calculated

-- none is a comparison with NULL, true is 0.
unfoldable pub extract_and_verify_firmware : Host → Text → FirmwareHeader → Option Bool
unfolding verify_single_ko_file get_md5_by_ko_name extract_tar_gz calculate_file_md5
extract_and_verify_firmware host file header =
    if same_md5 header (calculate_file_md5 (host.md5sum file))
    then (if extract_tar_gz host file then verify_files host header else some false)
    else some false
