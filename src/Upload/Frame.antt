-- ===== src/Upload/Frame.antt =====
-- A frame that is built is one that the receiver's side accepts, with the fields that went in.
use mathlib.Core.List.{append_assoc, append-nil}
use wtsl_app.Base.{
  ℕ, zero, suc, ◌+◌, ◌/◌, ◌%◌, ◌^◌, ◌<◌, ◌≡◌, ◌⊎◌, refl, sym, ap, ◌∙◌, Bool, true, false, none,
  some, List, [], ◌∷◌, ◌++◌, arith, ==_refl, length, take, take-append, length-append,
}
use wtsl_app.Upload.{
  Address32Bit, Framer, frame_header, frame_footer, extended_identifier, calculate_checksum,
  le_bytes, address_to_little_endian, frame_body, build_log_upload_frame,
}
use wtsl_app.Upload.Address.{IsAddress, unpack_address, address-lt, unpack-address}
use wtsl_app.Upload.Checksum.{AllBytes, checksum-lt}
use wtsl_app.Upload.Receive.{
  Received, read_le, read_trailer, read_fields, read_frame, low, read_le-le_bytes,
  read_bytes-append,
}

length-le_bytes : (n v : ℕ) → length (le_bytes n v) ≡ n
unfolding le_bytes
length-le_bytes zero v = refl
length-le_bytes (suc n) v = ap suc (length-le_bytes n (v / 256))

read_le-end : (n v : ℕ) → read_le n (le_bytes n v) ≡ some (low n v, [])
read_le-end n v = ap (read_le n) (sym (append-nil (le_bytes n v))) ∙ read_le-le_bytes n v []

AllBytes-le_bytes : (n v : ℕ) → AllBytes (le_bytes n v)
unfolding le_bytes
AllBytes-le_bytes zero v = tt
AllBytes-le_bytes (suc n) v = (omega arith, AllBytes-le_bytes n (v / 256))

AllBytes-append : (xs ys : List ℕ) → AllBytes xs → AllBytes ys → AllBytes (xs ++ ys)
AllBytes-append [] ys p q = q
AllBytes-append (x ∷ xs) ys p q = (p.0, AllBytes-append xs ys p.1 q)

read_le-byte : (c : ℕ) (r : List ℕ) → read_le 1 (c ∷ r) ≡ some (c, r)
unfolding read_le
read_le-byte c r = ap (λ v. some (v, r)) (omega arith)

address_read :
    (a : Address32Bit) → IsAddress a → unpack_address (low 4 (address_to_little_endian a)) ≡ a
address_read a h = ap unpack_address packed ∙ unpack-address a h
  where
    packed : low 4 (address_to_little_endian a) ≡ address_to_little_endian a
    packed = omega (arith, address-lt a)

module _ (s d : Address32Bit) (seq : ℕ) (bytes : List ℕ) (data_type data_identifier : ℕ) where
  body : List ℕ
  body = frame_body s d seq bytes data_type data_identifier

  length-body : length body ≡ 22 + length bytes
  unfolding body frame_body
  length-body = simp (length-append, length-le_bytes) (omega arith)

  AllBytes-body : data_identifier < 256 → AllBytes bytes → AllBytes body
  unfolding body frame_body
  AllBytes-body h all =
      AllBytes-append (le_bytes 2 frame_header) _ (AllBytes-le_bytes 2 frame_header) (
        AllBytes-append (le_bytes 2 seq) _ (AllBytes-le_bytes 2 seq) (
          AllBytes-append (le_bytes 4 (address_to_little_endian s)) _ (AllBytes-le_bytes 4 _) (
            AllBytes-append (le_bytes 4 (address_to_little_endian d)) _ (AllBytes-le_bytes 4 _) (
              AllBytes-append (le_bytes 4 data_type) _ (AllBytes-le_bytes 4 data_type) (
                AllBytes-append (le_bytes 3 (length bytes)) _ (AllBytes-le_bytes 3 _)
                  (h, AllBytes-append bytes _ all (AllBytes-le_bytes 2 extended_identifier)))))))

  trailer : List ℕ
  trailer = le_bytes 2 (calculate_checksum body) ++ le_bytes 2 frame_footer

  read_trailer-trailer :
      data_identifier < 256
      → AllBytes bytes
      → read_trailer
          (body ++ trailer)
          (22 + length bytes)
          (le_bytes 2 extended_identifier ++ trailer)
        ≡ some tt
  unfolding read_trailer trailer
  read_trailer-trailer h all =
      rw
        (
          read_le-le_bytes 2 extended_identifier trailer,
          read_le-le_bytes 2 (calculate_checksum body) (le_bytes 2 frame_footer),
          covered,
          value,
          ==_refl (calculate_checksum body),
          read_le-end 2 frame_footer,
        )
        refl
    where
      covered : take (22 + length bytes) (body ++ trailer) ≡ body
      covered = rw (← length-body) (take-append body trailer)

      value : low 2 (calculate_checksum body) ≡ calculate_checksum body
      value = omega (arith, checksum-lt body (AllBytes-body h all))

  regrouped :
      body ++ trailer
      ≡ le_bytes 2 frame_header
        ++ (le_bytes 2 seq
            ++ (le_bytes 4 (address_to_little_endian s)
                ++ (le_bytes 4 (address_to_little_endian d)
                    ++ (le_bytes 4 data_type
                        ++ (le_bytes 3 (length bytes)
                            ++ (data_identifier
                                ∷ (bytes ++ (le_bytes 2 extended_identifier ++ trailer))))))))
  unfolding body frame_body
  regrouped = simp append_assoc

  read_frame-body :
      IsAddress s
      → IsAddress d
      → seq < 2 ^ 16
      → data_type < 2 ^ 32
      → data_identifier < 256
      → length bytes < 2 ^ 24
      → AllBytes bytes
      → read_frame (body ++ trailer)
        ≡ some (record {
          seq = seq;
          source_addr = s;
          dest_addr = d;
          data_type = data_type;
          data_identifier = data_identifier;
          content = bytes;
        })
  unfolding read_frame
  read_frame-body hs hd hq ht hi hl all =
      ap (read_fields (body ++ trailer)) regrouped
      ∙ rw
          (
            read_le-le_bytes 2 frame_header _,
            read_le-le_bytes 2 seq _,
            read_le-le_bytes 4 (address_to_little_endian s) _,
            read_le-le_bytes 4 (address_to_little_endian d) _,
            read_le-le_bytes 4 data_type _,
            read_le-le_bytes 3 (length bytes) _,
            read_le-byte data_identifier _,
            len,
            read_bytes-append bytes (le_bytes 2 extended_identifier ++ trailer),
            read_trailer-trailer hi all,
          )
          (λ i. some (record {
            seq = seq_read i;
            source_addr = address_read s hs i;
            dest_addr = address_read d hd i;
            data_type = type_read i;
            data_identifier = data_identifier;
            content = bytes;
          }))
    where
      len : low 3 (length bytes) ≡ length bytes
      len = omega arith

      seq_read : low 2 seq ≡ seq
      seq_read = omega arith

      type_read : low 4 data_type ≡ data_type
      type_read = omega arith

-- The state of the framer is within its C types.
pub record IsFramer (s : Framer) : Type 0 where
  pub source : IsAddress s.source_addr
  pub dest : IsAddress s.dest_addr
  pub seq_fits : s.frame_seq < 2 ^ 16

-- What a receiver gets from a frame.
abbrev pub received : Framer → List ℕ → ℕ → ℕ → Received
received s bytes data_type data_identifier = record {
  seq = s.frame_seq;
  source_addr = s.source_addr;
  dest_addr = s.dest_addr;
  data_type = data_type;
  data_identifier = data_identifier;
  content = bytes;
}

-- Of at least one byte and fewer than 2^24, a frame is built if memory is there; it has 26 bytes
-- more than its content, and a receiver that tests header, trailer and checksum reads back the
-- sequence number, both addresses, the type, the identifier and the content. The sequence number
-- of the next frame is one more, modulo 2^16.
pub build-read_frame :
    (s : Framer) (c : ℕ) (cs : List ℕ) (data_type data_identifier : ℕ)
    → IsFramer s
    → data_type < 2 ^ 32
    → data_identifier < 256
    → length (c ∷ cs) < 2 ^ 24
    → AllBytes (c ∷ cs)
    → (frame : List ℕ) × (build_log_upload_frame s true (c ∷ cs) data_type data_identifier
        ≡ (some frame, record s { frame_seq = (s.frame_seq + 1) % 2 ^ 16 }))
      × (length frame ≡ length (c ∷ cs) + 26)
      × (read_frame frame ≡ some (received s (c ∷ cs) data_type data_identifier))
unfolding build_log_upload_frame body trailer
build-read_frame s c cs data_type data_identifier h ht hi hl all = (
  sent ++ end,
  refl,
  simp (length-append, length-le_bytes)
      (omega (
        arith,
        length-body s.source_addr s.dest_addr s.frame_seq (c ∷ cs) data_type data_identifier,
      )),
  read_frame-body s.source_addr s.dest_addr s.frame_seq (c ∷ cs) data_type data_identifier h.source
      h.dest h.seq_fits ht hi hl all,
)
  where
    sent : List ℕ
    sent = body s.source_addr s.dest_addr s.frame_seq (c ∷ cs) data_type data_identifier

    end : List ℕ
    end = trailer s.source_addr s.dest_addr s.frame_seq (c ∷ cs) data_type data_identifier

-- Without content or without memory no frame is built and the sequence number stays.
pub build-none :
    (s : Framer) (allocated : Bool) (bytes : List ℕ) (data_type data_identifier : ℕ)
    → (bytes ≡ []) ⊎ (allocated ≡ false)
    → build_log_upload_frame s allocated bytes data_type data_identifier ≡ (none, s)
unfolding build_log_upload_frame
build-none s allocated [] data_type data_identifier h = refl
build-none s false (c ∷ cs) data_type data_identifier h = refl
build-none s true (c ∷ cs) data_type data_identifier h = ground arith
