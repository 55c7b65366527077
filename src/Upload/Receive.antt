-- ===== src/Upload/Receive.antt =====
-- The receiver's side of the upload protocol: the frame layout of wtsl_client_upload.h read back,
-- field by field, with the header, the footer and the checksum tested.
use wtsl_app.Base.{
  ℕ, zero, suc, ◌+◌, ◌*◌, ◌/◌, ◌%◌, ◌≡◌, refl, Bool, Option, none, some, List, [], ◌∷◌, ◌++◌, ◌==◌,
  length, take, if◌then◌else◌,
}
use wtsl_app.Upload.{
  Address32Bit, frame_header, frame_footer, extended_identifier, calculate_checksum, le_bytes,
}
use wtsl_app.Upload.Address.{unpack_address}

infixl 5 ◌>>=◌
abbrev pub ◌>>=◌ {ℓ κ} : {A : Type ℓ} {B : Type κ} → Option A → (A → Option B) → Option B
none >>= f = none
some a >>= f = f a

abbrev pub when {ℓ} : {A : Type ℓ} → Bool → Option A → Option A
when b r = if b then r else none

pub record Received : Type 0 where
  pub seq : ℕ
  pub source_addr : Address32Bit
  pub dest_addr : Address32Bit
  pub data_type : ℕ
  pub data_identifier : ℕ
  pub content : List ℕ

-- An integer of `n` bytes, the lowest first, and what follows it.
unfoldable pub read_le : ℕ → List ℕ → Option (ℕ × List ℕ)
read_le zero r = some (0, r)
read_le (suc n) [] = none
read_le (suc n) (c ∷ r) = read_le n r >>= λ (v, r'). some (c + 256 * v, r')

unfoldable pub read_bytes : ℕ → List ℕ → Option (List ℕ × List ℕ)
read_bytes zero r = some ([], r)
read_bytes (suc n) [] = none
read_bytes (suc n) (c ∷ r) = read_bytes n r >>= λ (cs, r'). some (c ∷ cs, r')

abbrev pub if_empty : List ℕ → Option (Unit {0})
if_empty [] = some tt
if_empty (c ∷ r) = none

-- The end of a frame: the extended identifier, the checksum of all that precedes it, the footer.
unfoldable pub read_trailer : List ℕ → ℕ → List ℕ → Option (Unit {0})
read_trailer frame covered r = read_le 2 r >>= λ (ext, r). when (ext == extended_identifier) (
    read_le 2 r >>= λ (check_sum, r).
    when (check_sum == calculate_checksum (take covered frame))
      (read_le 2 r >>= λ (footer, r). when (footer == frame_footer) (if_empty r)))

unfoldable pub read_fields : List ℕ → List ℕ → Option Received
read_fields frame r = read_le 2 r >>= λ (header, r). when (header == frame_header) (
    read_le 2 r >>= λ (seq, r). read_le 4 r >>= λ (src, r). read_le 4 r >>= λ (dst, r).
    read_le 4 r >>= λ (data_type, r). read_le 3 r >>= λ (len, r). read_le 1 r >>= λ (identifier, r).
    read_bytes len r >>= λ (content, r). read_trailer frame (22 + len) r >>= λ _. some (record {
      seq = seq;
      source_addr = unpack_address src;
      dest_addr = unpack_address dst;
      data_type = data_type;
      data_identifier = identifier;
      content = content;
    }))

unfoldable pub read_frame : List ℕ → Option Received
unfolding read_fields
read_frame frame = read_fields frame frame

-- The value of the low `n` bytes.
abbrev pub low : ℕ → ℕ → ℕ
low zero v = 0
low (suc n) v = v % 256 + 256 * low n (v / 256)

pub read_le-le_bytes : (n v : ℕ) (r : List ℕ) → read_le n (le_bytes n v ++ r) ≡ some (low n v, r)
unfolding read_le le_bytes
read_le-le_bytes zero v r = refl
read_le-le_bytes (suc n) v r = rw (read_le-le_bytes n (v / 256) r)

pub read_bytes-append : (xs r : List ℕ) → read_bytes (length xs) (xs ++ r) ≡ some (xs, r)
unfolding read_bytes
read_bytes-append [] r = refl
read_bytes-append (x ∷ xs) r = rw (read_bytes-append xs r)
