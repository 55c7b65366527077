-- ===== src/Ota/Handle.antt =====
-- upgrade_hi_firmware, upgrade_web_files_in_background, orphan_process_upgrade and
-- handle_firmware_upgrade of src/wtsl_core/dataparser/wtsl_core_dataparser_ota.c. The child process
-- runs perform_app_upgrade; here stands whether there is one.
use wtsl_app.Base.{
  ℕ, Bool, true, false, not, ◌&&◌, Option, none, some, List, [], ◌∷◌, ◌++◌, ◌==◌, if◌then◌else◌,
  Text, codes,
}
use wtsl_app.Ota.{FirmwareHeader, get_build_version, Version, extract_upgrade_version, Host}
use wtsl_app.Ota.Package.{snprintf_256, extract_dir, printed_version, firmware_dir}

-- Whether a path is there behind the commands so far, and whether fork gives a child.
pub record Site : Type 0 where
  pub access : List Text → Text → Bool
  pub forks : Bool

-- Whether 0 is returned, whether there is a child, and the commands so far.
pub record UpgradeResult : Type 0 where
  pub ok : Bool
  pub child : Bool
  pub history : List Text

abbrev pub handled : Bool → Bool → List Text → UpgradeResult
handled ok child history = record { ok = ok; child = child; history = history }

abbrev firmware_copy : Text → Text
firmware_copy version = codes "/firmware_t" ++ version

abbrev hi_commands : Text → List Text
hi_commands version =
    snprintf_256 (codes "rm -rf /home" ++ firmware_copy version)
    ∷ snprintf_256 (codes "cp -rf " ++ extract_dir ++ firmware_copy version ++ codes " /home/wt")
    ∷ snprintf_256 (
        codes "rm -rf /home/firmware && ln -s /home/wt"
        ++ firmware_copy version
        ++ codes " /home/wt/firmware")
    ∷ []

abbrev old_command : Text → List Text
old_command version =
    snprintf_256 (
      codes "cp -rf "
      ++ extract_dir
      ++ firmware_copy version
      ++ codes " /home/ && ln -s /home"
      ++ firmware_copy version
      ++ codes " /home/firmware")
    ∷ []

abbrev is_value : ℕ → Option ℕ → Bool
is_value n none = false
is_value n (some v) = v == n

abbrev for_version : Host → Text → Version → Option (List Text)
for_version host version Version.invalid = some []
for_version host version Version.overflow = none
for_version host version (Version.number t) =
    some (if is_value 123 (host.atoi t) then old_command version else [])

abbrev appended_to : List Text → Option (List Text) → Option (List Text)
appended_to h none = none
appended_to h (some cmds) = some (h ++ cmds)

-- none is a write behind an array. The result is only logged, so it is left out.
unfoldable pub upgrade_hi_firmware :
    Host → Site → FirmwareHeader → Text → List Text → Option (List Text)
unfolding extract_upgrade_version
upgrade_hi_firmware host site header version h =
    if site.access h (snprintf_256 (extract_dir ++ firmware_copy version))
    then appended_to (h ++ hi_commands version)
        (for_version host version (extract_upgrade_version header.version))
    else some h

abbrev append_when : Bool → Text → List Text → List Text
append_when b cmd h = if b then h ++ cmd ∷ [] else h

abbrev web_copied : Site → List Text → Bool × List Text
web_copied site h =
    let h2 = h ++ codes "killall httpd && httpd -h /home/wt/www" ∷ [] in
    if site.access h (codes "/home/wt/www") then (true, h2) else (false, h)

unfoldable pub upgrade_web_files_in_background : Site → List Text → Bool × List Text
upgrade_web_files_in_background site h =
    let h1 =
      append_when (site.access h (codes "/home/wt/upload_file"))
        (codes "rm -rf /home/wt/upload_file") h in
    let h2 = h1 ++ codes "rm -rf /home/wt/www && cp -rf /tmp/upload_file/www /home/wt/" ∷ [] in
    if site.access h1 (codes "/tmp/upload_file/www") then web_copied site h2 else (false, h1)

abbrev web_too : Site → List Text → List Text
web_too site h = (upgrade_web_files_in_background site h).1

abbrev pub www_dir : Text
www_dir = snprintf_256 (extract_dir ++ codes "/www")

abbrev pub app_dir : Text
app_dir = snprintf_256 (extract_dir ++ codes "/app")

-- What the parent does.
unfoldable pub orphan_process_upgrade : Site → List Text → UpgradeResult
unfolding upgrade_web_files_in_background
orphan_process_upgrade site h =
    let h1 = if site.access h www_dir then web_too site h else h in
    if site.forks then handled true true h1 else handled false false h

abbrev ls_command : Text → Text
ls_command dir = snprintf_256 (codes "ls -la " ++ dir)

abbrev finish_web : Bool × List Text → UpgradeResult
finish_web (ok, h) = handled ok false h

abbrev pub finish_handle : Site → Bool → Option (List Text) → Option UpgradeResult
finish_handle site has_app none = none
finish_handle site has_app (some h) = some (
    if has_app
    then orphan_process_upgrade site h
    else finish_web (upgrade_web_files_in_background site h))

abbrev pub installed :
    Host
    → Site
    → FirmwareHeader
    → (has_app has_www has_firmware : Bool) → List Text
    → Option UpgradeResult
installed host site header has_app has_www has_firmware h =
    let version = printed_version host (get_build_version header) in
    if not has_app && (not has_www && not has_firmware)
    then some (handled false false h)
    else finish_handle site has_app
        (if has_firmware then upgrade_hi_firmware host site header version h else some h)

-- The listing of each directory that is there goes ahead.
unfoldable pub handle_firmware_upgrade : Host → Site → FirmwareHeader → Option UpgradeResult
unfolding upgrade_hi_firmware orphan_process_upgrade get_build_version
handle_firmware_upgrade host site header =
    let has_app = site.access [] app_dir in
    let h1 = append_when has_app (ls_command app_dir) [] in
    let has_www = site.access h1 www_dir in
    let h2 = append_when has_www (ls_command www_dir) h1 in
    let firmware = firmware_dir host header in
    let has_firmware = site.access h2 firmware in
    let h3 = append_when has_firmware (ls_command firmware) h2 in
    installed host site header has_app has_www has_firmware h3
