-- ===== src/Upload/Service.antt =====
-- The upload thread of wtsl_client_upload.c over the log file: the size test, the upload that ends
-- in a fresh file whatever its result, one turn of the thread, and the setters. The log system is
-- the part of `log_system_t` (include/wtsl_log_manager.h) that they use; a file is its bytes.
pub mod Turns
use wtsl_app.Base.{
  ℕ, zero, suc, ◌+◌, Bool, true, false, ◌||◌, Option, none, some, List, [], ◌∷◌, ◌++◌, leb,
  if◌then◌else◌, length, Text, text_eq, codes, take,
}
use wtsl_app.Upload.{Address32Bit, Framer}
use wtsl_app.Upload.Session.{FileInfo, Attempt, Session, tcp_upload_logs}

pub record LogSystem : Type 0 where
  -- whether `log_file` is an open stream
  pub log_file : Bool
  pub log_file_path : Text
  -- the file system: the bytes under a path
  pub files : Text → Option (List ℕ)
  pub max_file_size : ℕ
  pub trigger_upload : Bool
  pub upload_thread_running : Bool
  pub session : Session

abbrev pub default_log_file : Text
default_log_file = codes "/home/wt/log/wtsl_app.log"

-- `stat` on a path that is not there gives size 0.
unfoldable pub get_file_size : (Text → Option (List ℕ)) → Text → ℕ
get_file_size files path = elim (files path) [ none ↦ 0 | some content ↦ length content ]

pub need_upload_and_clear : LogSystem → Bool
unfolding get_file_size
need_upload_and_clear g =
    if g.log_file then leb g.max_file_size (get_file_size g.files g.log_file_path) else false

abbrev pub write_file : (Text → Option (List ℕ)) → Text → List ℕ → Text → Option (List ℕ)
write_file files path content p = if text_eq p path then some content else files p

-- What an upload meets: the attempts, the name that the date gives, whether the new file opens,
-- and the line that notes the result.
pub record Outside : Type 0 where
  pub attempts : ℕ → Attempt
  pub generated : Option Text
  pub reopens : Bool
  pub event_line : Bool → List ℕ

abbrev pub next_path : Option Text → Text
next_path none = default_log_file
next_path (some p) = p

-- The result is `upload_result == 0`, and false where the code returns -1.
pub upload_and_clear_logs : (FileInfo → List ℕ) → Outside → LogSystem → Bool × LogSystem
upload_and_clear_logs layout o g =
    let (uploaded, session) =
      tcp_upload_logs layout g.log_file_path (g.files g.log_file_path) o.attempts g.session in
    let path = next_path o.generated in
    let closed = record g { log_file = false; log_file_path = path; session = session } in
    if g.log_file
    then if o.reopens
      then (
        uploaded,
        record closed { log_file = true; files = write_file g.files path (o.event_line uploaded) },
      )
      else (false, closed)
    else (false, g)

-- One turn of the loop in `upload_thread_func`, behind the wait.
pub upload_turn : (FileInfo → List ℕ) → Outside → LogSystem → LogSystem
upload_turn layout o g =
    let cleared = record g { trigger_upload = false } in
    if g.trigger_upload || need_upload_and_clear cleared
    then (upload_and_clear_logs layout o cleared).1
    else cleared

pub wtsl_logger_upload_logs : LogSystem → LogSystem
wtsl_logger_upload_logs g = record g { trigger_upload = true }

pub wtsl_logger_set_max_file_size : LogSystem → ℕ → LogSystem
wtsl_logger_set_max_file_size g max_size = record g { max_file_size = max_size }

-- A line that the logger appends to its file.
unfoldable pub append_line : List ℕ → LogSystem → LogSystem
append_line line g =
    if g.log_file
    then record g {
      files =
          write_file g.files g.log_file_path
            (elim (g.files g.log_file_path) [ none ↦ line | some content ↦ content ++ line ]);
    }
    else g
