-- ===== src/Upload/Service/Turns.antt =====
-- The upload thread over its turns.
use wtsl_app.Base.{
  ℕ, ◌≤◌, ◌<◌, ◌≡◌, ◌⊎◌, refl, ◌∙◌, Bool, true, false, some, List, [], ◌∷◌, arith, text_eq_refl,
}
use wtsl_app.Upload.Session.{FileInfo, tcp_upload_logs}
use wtsl_app.Upload.Service.{
  LogSystem, Outside, get_file_size, need_upload_and_clear, next_path, upload_and_clear_logs,
  upload_turn, wtsl_logger_upload_logs, wtsl_logger_set_max_file_size, append_line,
}

module _ (layout : FileInfo → List ℕ) (o : Outside) (g : LogSystem) where
  -- A turn leaves everything but the trigger alone, unless an upload was asked for or the open log
  -- file has reached its limit.
  pub turn_idle :
      g.trigger_upload ≡ false
      → get_file_size g.files g.log_file_path < g.max_file_size
      → upload_turn layout o g ≡ record g { trigger_upload = false }
  unfolding upload_turn need_upload_and_clear
  turn_idle h small = ground arith

  -- An upload that is due empties the log: if the new file opens, it holds the one line that notes
  -- the result, whether or not the upload succeeded, and the trigger is reset.
  pub turn-truncates :
      g.log_file ≡ true
      → (g.trigger_upload ≡ true) ⊎ (g.max_file_size ≤ get_file_size g.files g.log_file_path)
      → o.reopens ≡ true
      → (uploaded : Bool) × ((upload_turn layout o g).files (next_path o.generated)
          ≡ some (o.event_line uploaded))
        × ((upload_turn layout o g).log_file_path ≡ next_path o.generated)
        × ((upload_turn layout o g).log_file ≡ true)
        × ((upload_turn layout o g).trigger_upload ≡ false)
  unfolding upload_turn need_upload_and_clear upload_and_clear_logs
  turn-truncates opened due reopens =
      let result : Bool =
        (tcp_upload_logs layout g.log_file_path (g.files g.log_file_path) o.attempts g.session).0 in
      (
        result,
        ground (arith, text_eq_refl (next_path o.generated)),
        ground arith,
        ground arith,
        ground arith,
      )

-- What happens to a running logger.
pub data Event : Type 0 where
  turn : Outside → Event
  line : List ℕ → Event
  request : Event
  resize : ℕ → Event

pub happen : (FileInfo → List ℕ) → Event → LogSystem → LogSystem
happen layout (turn o) g = upload_turn layout o g
happen layout (line l) g = append_line l g
happen layout request g = wtsl_logger_upload_logs g
happen layout (resize n) g = wtsl_logger_set_max_file_size g n

abbrev pub run : (FileInfo → List ℕ) → List Event → LogSystem → LogSystem
run layout [] g = g
run layout (e ∷ es) g = run layout es (happen layout e g)

closed_step :
    (layout : FileInfo → List ℕ) (e : Event) (g : LogSystem)
    → g.log_file ≡ false
    → ((happen layout e g).log_file ≡ false)
      × ((happen layout e g).files ≡ g.files)
      × ((happen layout e g).session ≡ g.session)
unfolding happen upload_turn need_upload_and_clear upload_and_clear_logs append_line
    wtsl_logger_upload_logs wtsl_logger_set_max_file_size
closed_step layout (turn o) g h = ground arith
closed_step layout (line l) g h = ground arith
closed_step layout request g h = (h, refl, refl)
closed_step layout (resize n) g h = (h, refl, refl)

-- Once the log file could not be opened again, nothing that the logger does reopens it: no line is
-- written and no upload is made from then on, whatever is asked for.
pub run-closed :
    (layout : FileInfo → List ℕ) (es : List Event) (g : LogSystem)
    → g.log_file ≡ false
    → ((run layout es g).log_file ≡ false)
      × ((run layout es g).files ≡ g.files)
      × ((run layout es g).session ≡ g.session)
run-closed layout [] g h = (h, refl, refl)
run-closed layout (e ∷ es) g h =
    let (shut, files, session) = closed_step layout e g h in
    let (shut', files', session') = run-closed layout es (happen layout e g) shut in
    (shut', files' ∙ files, session' ∙ session)
