-- ===== src/Upload.antt =====
-- The log upload of src/wtsl_core/utils/wtsl_client_upload.c and its header: addresses, checksum,
-- frames, the send loop and one upload with its retries. Bytes are numbers below 256. `memcpy` of
-- an integer copies its bytes lowest first: both targets of the Makefile (arm and x64) are
-- little-endian. The log system is a record, sockets and memory are inputs.
pub mod Checksum
pub mod Address
pub mod Receive
pub mod Frame
pub mod Send
pub mod Session
pub mod Service
mod Examples
use Prim.Native.Nat.{bit_and, bit_or, bit_xor, min}
use wtsl_app.Base.{
  ℕ, zero, suc, ◌+◌, ◌-◌, ◌*◌, ◌/◌, ◌%◌, ◌^◌, Bool, true, false, Option, none, some, List, [], ◌∷◌,
  ◌++◌, ltb, ◌==◌, if◌then◌else◌, length, take, drop,
}

-- `address_32bit_t`: bit fields of 2, 14, 8 and 8 bits.
pub record Address32Bit : Type 0 where
  pub reserved : ℕ
  pub subnet_id : ℕ
  pub t_node_id : ℕ
  pub device_id : ℕ

abbrev pub frame_header : ℕ
frame_header = 0x5A5A

abbrev pub frame_footer : ℕ
frame_footer = 0x0D0A

abbrev pub extended_identifier : ℕ
extended_identifier = 0

abbrev pub data_identifier_file : ℕ
data_identifier_file = 2

abbrev pub data_identifier_struct : ℕ
data_identifier_struct = 3

abbrev pub data_type_log_upload : ℕ
data_type_log_upload = 0x87000000

abbrev pub data_info_log_upload : ℕ
data_info_log_upload = 0x82000000

checksum_loop : ℕ → List ℕ → ℕ
checksum_loop checksum [] = checksum
checksum_loop checksum (c ∷ cs) = checksum_loop (bit_xor checksum c) cs

unfoldable pub calculate_checksum : List ℕ → ℕ
unfolding checksum_loop
calculate_checksum bytes = checksum_loop 0 bytes

pub address_to_little_endian : Address32Bit → ℕ
address_to_little_endian a =
    bit_or
      (bit_or (bit_or (bit_and a.device_id 0xFF) (bit_and a.t_node_id 0xFF * 2 ^ 8))
        (bit_and a.subnet_id 0x3FFF * 2 ^ 16))
      (bit_and a.reserved 0x03 * 2 ^ 30)

-- `memcpy(ptr, &v, n)`
unfoldable pub le_bytes : ℕ → ℕ → List ℕ
le_bytes zero v = []
le_bytes (suc n) v = (v % 256) ∷ le_bytes n (v / 256)

-- What stands in a frame before its checksum.
unfoldable pub frame_body : Address32Bit → Address32Bit → ℕ → List ℕ → ℕ → ℕ → List ℕ
frame_body source_addr dest_addr seq bytes data_type data_identifier =
    le_bytes 2 frame_header
    ++ (le_bytes 2 seq
        ++ (le_bytes 4 (address_to_little_endian source_addr)
            ++ (le_bytes 4 (address_to_little_endian dest_addr)
                ++ (le_bytes 4 data_type
                    ++ (le_bytes 3 (length bytes)
                        ++ (data_identifier ∷ bytes ++ le_bytes 2 extended_identifier))))))

-- The state that building a frame reads and writes: the two addresses of `upload_config`, and the
-- static `frame_seq`, a `uint16_t`.
pub record Framer : Type 0 where
  pub source_addr : Address32Bit
  pub dest_addr : Address32Bit
  pub frame_seq : ℕ

-- `none` is the -1 of the code; the second argument says whether `malloc` succeeds.
unfoldable pub build_log_upload_frame : Framer → Bool → List ℕ → ℕ → ℕ → Option (List ℕ) × Framer
unfolding frame_body le_bytes
build_log_upload_frame s allocated [] data_type data_identifier = (none, s)
build_log_upload_frame s false bytes data_type data_identifier = (none, s)
build_log_upload_frame s true bytes data_type data_identifier =
    let body = frame_body s.source_addr s.dest_addr s.frame_seq bytes data_type data_identifier in
    (
      some (body ++ (le_bytes 2 (calculate_checksum body) ++ le_bytes 2 frame_footer)),
      record s { frame_seq = (s.frame_seq + 1) % 2 ^ 16 },
    )

-- `sizeof(file_info_t)` bytes of the structure, as the compiler lays it out.
unfoldable pub build_file_info_frame : Framer → Bool → List ℕ → Option (List ℕ) × Framer
build_file_info_frame s allocated file_info =
    build_log_upload_frame s allocated file_info data_info_log_upload data_identifier_struct

unfoldable pub build_log_data_frame : Framer → Bool → List ℕ → Option (List ℕ) × Framer
build_log_data_frame s allocated file_data =
    build_log_upload_frame s allocated file_data data_type_log_upload data_identifier_file

-- How many bytes the kernel would take at each call of `send` in one loop, in order; 0 stands for
-- an error or a closed connection, and a call beyond the list fails too.
abbrev pub Sends : Type 0
Sends = List ℕ

pub data Sent : Type 0 where
  -- all bytes were accepted
  complete : Sent
  -- the -1 of the code
  broken : Sent
  out_of_fuel : Sent

abbrev pub next_send : Sends → ℕ
next_send [] = 0
next_send (n ∷ ns) = n

abbrev pub later_sends : Sends → Sends
later_sends [] = []
later_sends (n ∷ ns) = ns

-- The loop of `send_frame_data`, with the bytes that the connection has taken so far. A call takes
-- no more than the bytes it is offered.
send_loop : ℕ → Sends → List ℕ → ℕ → List ℕ → Sent × List ℕ
send_loop zero sends frame total_sent got = (out_of_fuel, got)
send_loop (suc fuel) sends frame total_sent got =
    let bytes_sent = min (next_send sends) (length frame - total_sent) in
    let rest =
      send_loop fuel (later_sends sends) frame (total_sent + bytes_sent)
        (got ++ take bytes_sent (drop total_sent frame)) in
    if ltb total_sent (length frame)
    then (if bytes_sent == 0 then (broken, got) else rest)
    else (complete, got)

unfoldable pub send_frame_data : Sends → List ℕ → Sent × List ℕ
unfolding send_loop
send_frame_data sends frame = send_loop (length frame + 1) sends frame 0 []
