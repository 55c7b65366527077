-- ===== src/Ota/Archive.antt =====
-- wtsl_core_parse_json_extract_file_header of src/wtsl_core/dataparser/wtsl_core_dataparser.c: the
-- archive that is cut out of an uploaded file. The texts of the answers are left out.
use wtsl_app.Base.{
  ℕ, suc, ◌+◌, Bool, true, false, Option, none, some, List, [], ◌∷◌, ◌++◌, ◌≡◌, refl, ap, ◌∙◌, sym,
  arith, leb, if◌then◌else◌, length, take, drop, c_string, length-append, take-append, drop-append,
  take-length,
}
use wtsl_app.Ota.{FirmwareHeader, before_char, Host}
use wtsl_app.Ota.Genuine.{if_true}
use wtsl_app.Ota.Submit.{Submission, HeaderRead, read_header}

pub data Extraction : Type 0 where
  not_found : Extraction
  no_status : Extraction
  too_small : Extraction
  not_opened : Extraction
  invalid_header : Extraction
  no_json : Extraction
  uploaded : FirmwareHeader → Extraction

-- What the system says of the uploaded file: whether it is there, has a status, can be opened, can be
-- opened once more, and whether the archive can be written; and its bytes.
pub record Uploaded : Type 0 where
  pub exists : Bool
  pub has_status : Bool
  pub opens : Bool
  pub opens_again : Bool
  pub writable : Bool
  pub bytes : List ℕ

-- The response, and the archive, which is empty once it is opened.
abbrev pub Extracted : Type 0
Extracted = Option (Extraction × List ℕ)

-- `strstr(read_buf, "{")`, as an index into the bytes
abbrev pub brace_at : List ℕ → ℕ
brace_at bytes = length (before_char 123 (c_string bytes))

-- none is a read behind the block, or the size -1.
abbrev pub cut_out : List ℕ → Option ℕ → Option (List ℕ)
cut_out bytes none = none
cut_out bytes (some size) =
    let from = brace_at bytes + 1024 in
    if leb (from + size) (length bytes) then some (take size (drop from bytes)) else none

abbrev pub with_archive : FirmwareHeader → Option (List ℕ) → Extracted
with_archive header none = none
with_archive header (some archive) = some (Extraction.uploaded header, archive)

-- Behind the header.
abbrev pub extract_with : Host → Uploaded → HeaderRead → Extracted
extract_with host u HeaderRead.unparsed = some (Extraction.invalid_header, [])
extract_with host u HeaderRead.without_json = some (Extraction.no_json, [])
extract_with host u (HeaderRead.good header) =
    if u.opens_again
    then (if u.writable
        then with_archive header (cut_out u.bytes (host.atoi header.filesize))
        else none)
    else some (Extraction.not_opened, [])

-- none is an access out of bounds or through NULL. The archive of before is given on until it is
-- opened.
unfoldable pub wtsl_core_parse_json_extract_file_header :
    Submission → Host → FirmwareHeader → Uploaded → List ℕ → Extracted
unfolding read_header c_string
wtsl_core_parse_json_extract_file_header s host stack u archive =
    if u.exists
    then (if u.has_status
        then (if leb (length u.bytes) 512
            then some (Extraction.too_small, archive)
            else if u.opens
            then extract_with host u (read_header s stack (c_string (take 1024 u.bytes)))
            else some (Extraction.not_opened, []))
        else some (Extraction.no_status, archive))
    else some (Extraction.not_found, archive)

-- A file that the system gives.
abbrev pub readable : List ℕ → Uploaded
readable bytes = record {
  exists = true;
  has_status = true;
  opens = true;
  opens_again = true;
  writable = true;
  bytes = bytes;
}

leb_of_eq : (a b : ℕ) → a ≡ b → leb a b ≡ true
leb_of_eq a b h = ground arith

whole_length :
    (head content : List ℕ) → length head ≡ 1024 → 1024 + length content ≡ length (head ++ content)
whole_length head content h = omega (arith, length-append head content)

behind_head :
    (head content : List ℕ)
    → length head ≡ 1024
    → take (length content) (drop 1024 (head ++ content)) ≡ content
behind_head head content h =
    ap (λ n. take (length content) (drop n (head ++ content))) (sym h)
    ∙ ap (take (length content)) (drop-append head content)
    ∙ take-length (length content) content (omega arith)

-- Behind a header of 1024 bytes that begins with a brace.
cut_content :
    (head content : List ℕ)
    → suc (length head) ≡ 1024
    → cut_out ((123 ∷ head) ++ content) (some (length content)) ≡ some content
unfolding c_string
cut_content head content h =
    if_true _ _ none (
      leb_of_eq (1024 + length content) (length ((123 ∷ head) ++ content))
        (whole_length (123 ∷ head) content h))
    ∙ ap some (behind_head (123 ∷ head) content h)

-- The length is more than 512.
long : (n : ℕ) (k : ℕ) → n ≡ 1024 + k → leb n 512 ≡ false
long n k h = ground arith

if_false : {A : Type 0} (b : Bool) (x y : A) → b ≡ false → (if b then x else y) ≡ y
if_false b x y h = rw h refl

-- Of a file that is a header of 1024 bytes, which begins with a brace and is parsed, and an archive of
-- the size that the header says, exactly that archive is cut out, and the header is given back.
pub extract-content :
    (s : Submission) (host : Host) (stack header : FirmwareHeader) (head content archive : List ℕ)
    → suc (length head) ≡ 1024
    → read_header s stack (c_string (123 ∷ head)) ≡ HeaderRead.good header
    → host.atoi header.filesize ≡ some (length content)
    → wtsl_core_parse_json_extract_file_header s host stack
        (readable ((123 ∷ head) ++ content))
        archive
      ≡ some (Extraction.uploaded header, content)
unfolding wtsl_core_parse_json_extract_file_header
extract-content s host stack header head content archive h parsed size =
    let bytes = (123 ∷ head) ++ content in
    if_false _ _ _
      (long (length bytes) (length content) (sym (whole_length (123 ∷ head) content h)))
    ∙ ap (λ t. extract_with host (readable bytes) (read_header s stack (c_string t)))
        (ap (λ n. take n bytes) (sym h) ∙ take-append (123 ∷ head) content)
    ∙ ap (extract_with host (readable bytes)) parsed
    ∙ ap (λ o. with_archive header (cut_out bytes o)) size
    ∙ ap (with_archive header) (cut_content head content h)
