-- ===== src/Upload/Session.antt =====
-- One upload of the log file: `tcp_upload_logs` of wtsl_client_upload.c with its connection, its
-- two frames, their acknowledgements and its retries. What the network and the allocator do is
-- given for each attempt; sleeping and logging are left out.
pub mod Outcome
pub mod Sockets
use wtsl_app.Base.{
  ℕ, zero, suc, ◌+◌, ◌-◌, Bool, true, false, Option, none, some, List, [], ◌∷◌, ◌==◌, if◌then◌else◌,
  length, take, Text, codes, contains, c_string,
}
use wtsl_app.Upload.{
  Framer, Sends, Sent, complete, broken, out_of_fuel, build_file_info_frame, build_log_data_frame,
  send_frame_data,
}

-- `file_info_t`; its bytes are the compiler's layout, an argument below.
pub record FileInfo : Type 0 where
  pub filename : Text
  pub file_size : ℕ
  pub is_dir : Bool

-- `strrchr(s, c) + 1`: what follows the last `c`.
pub after_last : ℕ → Text → Option Text
after_last c [] = none
after_last c (d ∷ s) = elim (after_last c s) [
  | some r ↦ some r
  | none ↦ if d == c then some s else none
]

abbrev source_name : Text → Option Text → Text
source_name path none = path
source_name path (some r) = r

-- `snprintf` keeps 255 bytes of the name.
pub prepare_file_info : Text → ℕ → FileInfo
unfolding after_last
prepare_file_info path file_size = record {
  filename = take 255 (source_name path (after_last b'/' path));
  file_size = file_size;
  is_dir = false;
}

-- How `create_tcp_connection` ends.
pub data Connect : Type 0 where
  no_socket : Connect
  bad_address : Connect
  refused : Connect
  established : Connect

-- What `select` and `recv` report to `wait_for_ack`.
pub data Ack : Type 0 where
  select_error : Ack
  timeout : Ack
  recv_failed : Ack
  bytes : List ℕ → Ack

abbrev pub ack_info_verify : Text
ack_info_verify = codes "wt_info_ACK"

abbrev pub ack_filedata_verify : Text
ack_filedata_verify = codes "wt_filedata_ACK"

-- `recv` takes at most 1023 bytes.
unfoldable pub wait_for_ack : Ack → Text → Bool
wait_for_ack select_error verify = false
wait_for_ack timeout verify = false
wait_for_ack recv_failed verify = false
wait_for_ack (bytes []) verify = false
wait_for_ack (bytes (c ∷ cs)) verify = contains verify (c_string (take 1023 (c ∷ cs)))

-- The environment of one attempt.
pub record Attempt : Type 0 where
  pub connect : Connect
  pub info_memory : Bool
  pub info_sends : Sends
  pub info_ack : Ack
  pub data_memory : Bool
  pub data_sends : Sends
  pub data_ack : Ack

pub record Session : Type 0 where
  pub framer : Framer
  -- descriptors that were opened and not closed
  pub open_sockets : ℕ
  -- what the connections took, one entry for each frame, the latest first
  pub delivered : List (List ℕ)

abbrev pub close : Session → Session
close s = record s { open_sockets = s.open_sockets - 1 }

-- A descriptor that fails to connect is closed by `create_tcp_connection` itself.
pub create_tcp_connection : Connect → Session → Option Session
create_tcp_connection established s = some (record s { open_sockets = s.open_sockets + 1 })
create_tcp_connection no_socket s = none
create_tcp_connection bad_address s = none
create_tcp_connection refused s = none

-- The frame that was built goes out, and is noted with what the connection took of it. `none` is a
-- frame that could not be built.
unfoldable pub send_built : Sends → Option (List ℕ) × Framer → Session → Sent × Session
send_built sends (none, framer) s = (broken, record s { framer = framer })
send_built sends (some frame, framer) s =
    let (r, got) = send_frame_data sends frame in
    (r, record s { framer = framer; delivered = got ∷ s.delivered })

-- Behind the acknowledgement of the file information: the data frame, its acknowledgement, the end.
-- `wait_for_ack` failing leaves the descriptor open.
finish_data : Attempt → Sent × Session → Bool × Session
finish_data e (complete, s) =
    if wait_for_ack e.data_ack ack_filedata_verify then (true, close s) else (false, s)
finish_data e (broken, s) = (false, close s)
finish_data e (out_of_fuel, s) = (false, close s)

send_data : Attempt → List ℕ → Session → Bool × Session
send_data e file_data s =
    finish_data e
      (send_built e.data_sends (build_log_data_frame s.framer e.data_memory file_data) s)

finish_info : Attempt → List ℕ → Sent × Session → Bool × Session
finish_info e file_data (complete, s) =
    if wait_for_ack e.info_ack ack_info_verify then send_data e file_data s else (false, s)
finish_info e file_data (broken, s) = (false, close s)
finish_info e file_data (out_of_fuel, s) = (false, close s)

send_info : Attempt → List ℕ → List ℕ → Session → Bool × Session
send_info e info file_data s =
    finish_info e file_data
      (send_built e.info_sends (build_file_info_frame s.framer e.info_memory info) s)

after_connect : Attempt → List ℕ → List ℕ → Session → Option Session → Bool × Session
after_connect e info file_data s none = (false, s)
after_connect e info file_data s (some s') = send_info e info file_data s'

-- One round of the retry loop; `true` is `upload_result == 0`.
unfoldable pub attempt : Attempt → List ℕ → List ℕ → Session → Bool × Session
unfolding after_connect send_info finish_info send_data finish_data create_tcp_connection send_built
attempt e info file_data s = after_connect e info file_data s (create_tcp_connection e.connect s)

abbrev pub upload_retry_count : ℕ
upload_retry_count = 1

-- The retry loop, with the tries left; `es i` is the environment of the attempt number `i`.
pub retry_loop : ℕ → ℕ → (ℕ → Attempt) → List ℕ → List ℕ → Session → Bool × Session
retry_loop zero i es info file_data s = (false, s)
retry_loop (suc k) i es info file_data s =
    let (done, s') = attempt (es i) info file_data s in
    let again = retry_loop k (i + 1) es info file_data s' in if done then (true, s') else again

-- `none` is a log file that cannot be read; an empty one is refused too.
pub tcp_upload_logs :
    (FileInfo → List ℕ) → Text → Option (List ℕ) → (ℕ → Attempt) → Session → Bool × Session
tcp_upload_logs layout path none es s = (false, s)
tcp_upload_logs layout path (some []) es s = (false, s)
tcp_upload_logs layout path (some (c ∷ cs)) es s =
    retry_loop upload_retry_count 0 es (layout (prepare_file_info path (length (c ∷ cs)))) (c ∷ cs)
      s
