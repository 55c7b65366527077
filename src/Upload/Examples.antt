-- ===== src/Upload/Examples.antt =====
-- The log upload at concrete inputs: the theorems' hypotheses hold there, and tests.
use wtsl_app.Base.{
  ℕ, ◌+◌, ◌%◌, ◌^◌, ◌≡◌, ◌≢◌, refl, true, false, none, some, List, [], ◌∷◌, arith, codes, length,
  text_eq, c_string, if◌then◌else◌,
}
use wtsl_app.Upload.{
  Address32Bit, Framer, complete, broken, calculate_checksum, address_to_little_endian,
  send_frame_data, build_log_upload_frame, build_file_info_frame, build_log_data_frame,
}
use wtsl_app.Upload.Checksum.{checksum_detects_byte}
use wtsl_app.Upload.Receive.{read_frame}
use wtsl_app.Upload.Frame.{IsFramer, received, build-read_frame}
use wtsl_app.Upload.Send.{Delivered, send-Delivered, send-complete}
use wtsl_app.Upload.Session.{
  FileInfo, Attempt, Session, established, timeout, bytes, attempt, send_built, wait_for_ack,
}
use wtsl_app.Upload.Session.Outcome.{Uploaded, attempt-Uploaded}
use wtsl_app.Upload.Session.Sockets.{Leaves, attempt-Leaves}
use wtsl_app.Upload.Service.{LogSystem, Outside}
use wtsl_app.Upload.Service.Turns.{run-closed, run, Event, turn, line, request}

-- The addresses that `wtsl_logger_init` sets.
abbrev source : Address32Bit
source = record { reserved = 0; subnet_id = 101; t_node_id = 16; device_id = 16 }

abbrev dest : Address32Bit
dest = record { reserved = 0; subnet_id = 102; t_node_id = 16; device_id = 16 }

source-packed : address_to_little_endian source ≡ 0x00651010
unfolding address_to_little_endian
source-packed = refl

checksum_detects_byte_example :
    calculate_checksum (1 ∷ 2 ∷ 3 ∷ []) ≢ calculate_checksum (1 ∷ 7 ∷ 3 ∷ [])
checksum_detects_byte_example = checksum_detects_byte (1 ∷ []) 2 7 (3 ∷ []) (omega arith)

abbrev framer : Framer
framer = record { source_addr = source; dest_addr = dest; frame_seq = 65535 }

framer-IsFramer : IsFramer framer
framer-IsFramer = omega arith

build-read_frame_example :
    (frame : List ℕ) × (build_log_upload_frame framer true (104 ∷ 105 ∷ []) 0x87000000 2
      ≡ (some frame, record framer { frame_seq = (65535 + 1) % 2 ^ 16 }))
    × (length frame ≡ length {A = ℕ} (104 ∷ 105 ∷ []) + 26)
    × (read_frame frame ≡ some (received framer (104 ∷ 105 ∷ []) 0x87000000 2))
build-read_frame_example =
    build-read_frame framer 104 (105 ∷ []) 0x87000000 2 framer-IsFramer (omega arith) (omega arith)
      (omega arith) (omega arith)

send-Delivered_example : Delivered (1 ∷ 2 ∷ 3 ∷ []) (send_frame_data (2 ∷ 0 ∷ []) (1 ∷ 2 ∷ 3 ∷ []))
send-Delivered_example = send-Delivered (2 ∷ 0 ∷ []) (1 ∷ 2 ∷ 3 ∷ [])

send_test : send_frame_data (2 ∷ 0 ∷ []) (1 ∷ 2 ∷ 3 ∷ []) ≡ (broken, 1 ∷ 2 ∷ [])
unfolding send_frame_data
send_test = refl

send-complete_example :
    send_frame_data (2 ∷ 1 ∷ 9 ∷ []) (1 ∷ 2 ∷ 3 ∷ []) ≡ (complete, 1 ∷ 2 ∷ 3 ∷ [])
send-complete_example = send-complete (2 ∷ 1 ∷ 9 ∷ []) (1 ∷ 2 ∷ 3 ∷ []) (omega arith)

abbrev session : Session
session = record { framer = framer; open_sockets = 0; delivered = [] }

-- Both acknowledgements come.
abbrev good : Attempt
good = record {
  connect = established;
  info_memory = true;
  info_sends = 1000 ∷ [];
  info_ack = bytes (codes "wt_info_ACK");
  data_memory = true;
  data_sends = 20 ∷ 20 ∷ [];
  data_ack = bytes (codes "wt_filedata_ACK");
}

abbrev silent : Attempt
silent = record good { info_ack = timeout }

good_succeeds : (attempt good (1 ∷ 2 ∷ []) (3 ∷ 4 ∷ 5 ∷ []) session).0 ≡ true
unfolding attempt wait_for_ack send_frame_data send_built c_string build_log_data_frame
    build_file_info_frame build_log_upload_frame calculate_checksum address_to_little_endian
good_succeeds = refl

attempt-Uploaded_example :
    Uploaded session 0
      (attempt good (1 ∷ 2 ∷ []) (3 ∷ 4 ∷ 5 ∷ []) session).1
      (1 ∷ 2 ∷ [])
      (3 ∷ 4 ∷ 5 ∷ [])
attempt-Uploaded_example =
    attempt-Uploaded good (1 ∷ 2 ∷ []) (3 ∷ 4 ∷ 5 ∷ []) session framer-IsFramer (omega arith)
      (omega arith) good_succeeds

-- Only the first acknowledgement does not come.
attempt-Leaves_example : Leaves silent 0 (attempt silent (1 ∷ 2 ∷ []) (3 ∷ []) session)
attempt-Leaves_example = attempt-Leaves silent (1 ∷ 2 ∷ []) (3 ∷ []) session

silent_leaks : (attempt silent (1 ∷ 2 ∷ []) (3 ∷ []) session).1.open_sockets ≡ 1
unfolding attempt wait_for_ack send_frame_data send_built c_string build_log_data_frame
    build_file_info_frame build_log_upload_frame calculate_checksum address_to_little_endian
silent_leaks = refl

-- A stand-in for the compiler's layout of `file_info_t`.
abbrev layout : FileInfo → List ℕ
layout i = i.filename

abbrev log : LogSystem
log = record {
  log_file = true;
  log_file_path = codes "/a.log";
  files = λ p. if text_eq (codes "/a.log") p then some (1 ∷ 2 ∷ 3 ∷ []) else none;
  max_file_size = 3;
  trigger_upload = false;
  upload_thread_running = true;
  session = session;
}

abbrev outside : Outside
outside = record {
  attempts = λ i. silent;
  generated = some (codes "/b.log");
  reopens = true;
  event_line = λ b. if b then 83 ∷ [] else 70 ∷ [];
}

abbrev lost : LogSystem
lost = record log { log_file = false }

abbrev events : List Event
events = request ∷ turn outside ∷ line (1 ∷ []) ∷ []

run-closed_example :
    ((run layout events lost).log_file ≡ false)
    × ((run layout events lost).files ≡ lost.files)
    × ((run layout events lost).session ≡ session)
run-closed_example = run-closed layout events lost refl
