-- ===== src/Upload/Session/Outcome.antt =====
-- What one upload attempt leaves behind: the frames that a receiver reads, and the descriptors.
use wtsl_app.Base.{
  ℕ, ◌+◌, ◌-◌, ◌%◌, ◌^◌, ◌<◌, ◌≡◌, inr, refl, sym, ap, ◌∙◌, Bool, true, false, some, List, [], ◌∷◌,
  arith, length,
}
use mathlib.Core.Path.{subst}
use wtsl_app.Upload.{
  Framer, Sends, Sent, complete, broken, out_of_fuel, build_log_upload_frame, build_file_info_frame,
  build_log_data_frame, send_frame_data, data_info_log_upload, data_type_log_upload,
  data_identifier_file, data_identifier_struct,
}
use wtsl_app.Upload.Checksum.{AllBytes}
use wtsl_app.Upload.Receive.{read_frame}
use wtsl_app.Upload.Frame.{IsFramer, received, build-read_frame, build-none}
use wtsl_app.Upload.Send.{Delivered, send-Delivered}
use wtsl_app.Upload.Session.{
  Attempt, Session, Connect, no_socket, bad_address, refused, established, close, send_built,
  finish_data, send_data, finish_info, send_info, create_tcp_connection, after_connect, attempt,
}

-- A list of bytes that one frame can carry.
pub record IsContent (xs : List ℕ) : Type 0 where
  pub present : 0 < length xs
  pub fits : length xs < 2 ^ 24
  pub are_bytes : AllBytes xs

abbrev pub next_framer : Framer → Framer
next_framer f = record f { frame_seq = (f.frame_seq + 1) % 2 ^ 16 }

next-IsFramer : {f : Framer} → IsFramer f → IsFramer (next_framer f)
next-IsFramer h = record { source = h.source; dest = h.dest; seq_fits = omega arith }

-- One frame sent whole: the receiver reads what went in.
pub record Passed (s s' : Session) (content : List ℕ) (data_type data_identifier : ℕ) : Type 0 where
  pub frame : List ℕ
  pub session : s' ≡ record s { framer = next_framer s.framer; delivered = frame ∷ s.delivered }
  pub readable : read_frame frame ≡ some (received s.framer content data_type data_identifier)

taken : (frame : List ℕ) (r : Sent × List ℕ) → Delivered frame r → r.0 ≡ complete → r.1 ≡ frame
taken frame (complete, got) d e = d
taken frame (broken, got) d e = cc
taken frame (out_of_fuel, got) d e = absurd d

content-frame :
    (f : Framer) (content : List ℕ) (data_type data_identifier : ℕ)
    → IsFramer f
    → IsContent content
    → data_type < 2 ^ 32
    → data_identifier < 256
    → (frame : List ℕ) × (build_log_upload_frame f true content data_type data_identifier
        ≡ (some frame, next_framer f))
      × (read_frame frame ≡ some (received f content data_type data_identifier))
content-frame f [] data_type data_identifier h c ht hi = absurd (omega (arith, c.present))
content-frame f (x ∷ xs) data_type data_identifier h c ht hi =
    let (frame, built, size, readable) =
      build-read_frame f x xs data_type data_identifier h ht hi c.fits c.are_bytes in
    (frame, built, readable)

module _ (sends : Sends) (content : List ℕ) (data_type data_identifier : ℕ) (s : Session) where
  sent-Passed :
      (frame : List ℕ)
      → read_frame frame ≡ some (received s.framer content data_type data_identifier)
      → (send_built sends (some frame, next_framer s.framer) s).0 ≡ complete
      → Passed s
          (send_built sends (some frame, next_framer s.framer) s).1
          content
          data_type
          data_identifier
  unfolding send_built
  sent-Passed frame readable done = record {
    frame = frame;
    session =
        ap (λ l. record s { framer = next_framer s.framer; delivered = l ∷ s.delivered })
          (taken frame (send_frame_data sends frame) (send-Delivered sends frame) done);
    readable = readable;
  }

  built-Passed :
      (memory : Bool)
      → IsFramer s.framer
      → IsContent content
      → data_type < 2 ^ 32
      → data_identifier < 256
      → (send_built sends
          (build_log_upload_frame s.framer memory content data_type data_identifier)
          s).0
        ≡ complete
      → Passed s
          (send_built sends
            (build_log_upload_frame s.framer memory content data_type data_identifier)
            s).1
          content
          data_type
          data_identifier
  unfolding send_built
  built-Passed false h c ht hi =
      rw (build-none s.framer false content data_type data_identifier (inr refl)) (λ e. cc)
  built-Passed true h c ht hi =
      let (frame, built, readable) =
        content-frame s.framer content data_type data_identifier h c ht hi in
      rw built (sent-Passed frame readable)

module _ (e : Attempt) (file_data : List ℕ) where
  finish_data-true :
      (r : Sent × Session)
      → (finish_data e r).0 ≡ true
      → (r.0 ≡ complete) × ((finish_data e r).1 ≡ close r.1)
  unfolding finish_data
  finish_data-true (complete, s) h = ground arith
  finish_data-true (broken, s) h = cc
  finish_data-true (out_of_fuel, s) h = cc

  finish_info-true :
      (r : Sent × Session)
      → (finish_info e file_data r).0 ≡ true
      → (r.0 ≡ complete) × (finish_info e file_data r ≡ send_data e file_data r.1)
  unfolding finish_info
  finish_info-true (complete, s) h = ground arith
  finish_info-true (broken, s) h = cc
  finish_info-true (out_of_fuel, s) h = cc

-- What a successful upload leaves: two frames that a receiver reads, and so many descriptors.
pub record Uploaded (s : Session) (sockets : ℕ) (s' : Session) (info file_data : List ℕ)
    : Type 0 where
  pub info_frame : List ℕ
  pub data_frame : List ℕ
  pub delivered : s'.delivered ≡ data_frame ∷ info_frame ∷ s.delivered
  pub info_readable :
      read_frame info_frame
      ≡ some (received s.framer info data_info_log_upload data_identifier_struct)
  pub data_readable :
      read_frame data_frame
      ≡ some (received (next_framer s.framer) file_data data_type_log_upload data_identifier_file)
  pub closed : s'.open_sockets ≡ sockets

data-Passed :
    (e : Attempt) (file_data : List ℕ) (s : Session)
    → IsFramer s.framer
    → IsContent file_data
    → (send_data e file_data s).0 ≡ true
    → (t : Session) × Passed s t file_data data_type_log_upload data_identifier_file
      × ((send_data e file_data s).1 ≡ close t)
unfolding send_data build_log_data_frame
data-Passed e file_data s h c done =
    let r =
      send_built e.data_sends
        (build_log_upload_frame s.framer e.data_memory file_data data_type_log_upload
          data_identifier_file)
        s in
    let (sent, left) = finish_data-true e file_data r done in
    (
      r.1,
      built-Passed e.data_sends file_data data_type_log_upload data_identifier_file s e.data_memory
          h c (omega arith) (omega arith) sent,
      left,
    )

two-Uploaded :
    {s s1 t s' : Session} {info file_data : List ℕ}
    → Passed s s1 info data_info_log_upload data_identifier_struct
    → Passed s1 t file_data data_type_log_upload data_identifier_file
    → s' ≡ close t
    → Uploaded s (s.open_sockets - 1) s' info file_data
two-Uploaded {file_data} p q e = record {
  info_frame = p.frame;
  data_frame = q.frame;
  delivered =
      ap (λ (u : Session). u.delivered) e
      ∙ ap (λ (u : Session). u.delivered) q.session
      ∙ ap (λ (u : Session). q.frame ∷ u.delivered) p.session;
  info_readable = p.readable;
  data_readable =
      q.readable
      ∙ ap
          (λ (u : Session).
            some (received u.framer file_data data_type_log_upload data_identifier_file))
          p.session;
  closed =
      ap (λ (u : Session). u.open_sockets) e
      ∙ ap (λ (u : Session). u.open_sockets - 1) q.session
      ∙ ap (λ (u : Session). u.open_sockets - 1) p.session;
}

send_info-Uploaded :
    (e : Attempt) (info file_data : List ℕ) (s : Session)
    → IsFramer s.framer
    → IsContent info
    → IsContent file_data
    → (send_info e info file_data s).0 ≡ true
    → Uploaded s (s.open_sockets - 1) (send_info e info file_data s).1 info file_data
unfolding send_info build_file_info_frame
send_info-Uploaded e info file_data s h ci cd done =
    let r : Sent × Session =
      send_built e.info_sends
        (build_log_upload_frame s.framer e.info_memory info data_info_log_upload
          data_identifier_struct)
        s in
    let (sent, chosen) = finish_info-true e file_data r done in
    let p =
      built-Passed e.info_sends info data_info_log_upload data_identifier_struct s e.info_memory h
        ci (omega arith) (omega arith) sent in
    let next : IsFramer r.1.framer =
      subst (λ (u : Session). IsFramer u.framer) (sym p.session) (next-IsFramer h) in
    let (t, q, left) = data-Passed e file_data r.1 next cd (sym (ap (λ x. x.0) chosen) ∙ done) in
    two-Uploaded p q (ap (λ x. x.1) chosen ∙ left)

-- The file information and the log file have 1 to 2^24 - 1 bytes each, and the addresses and the
-- sequence number of the framer fit their fields. If an upload attempt then succeeds, the connection
-- took exactly two frames, the file information and then the file: a receiver reads from them the
-- information and the whole content of the log file, with consecutive sequence numbers. The
-- descriptor of the attempt is closed.
pub attempt-Uploaded :
    (e : Attempt) (info file_data : List ℕ) (s : Session)
    → IsFramer s.framer
    → IsContent info
    → IsContent file_data
    → (attempt e info file_data s).0 ≡ true
    → Uploaded s s.open_sockets (attempt e info file_data s).1 info file_data
unfolding attempt after_connect create_tcp_connection
attempt-Uploaded e info file_data s h ci cd = connected e.connect
  where
    connected :
        (c : Connect)
        → (after_connect e info file_data s (create_tcp_connection c s)).0 ≡ true
        → Uploaded s s.open_sockets
            (after_connect e info file_data s (create_tcp_connection c s)).1
            info
            file_data
    connected no_socket done = cc
    connected bad_address done = cc
    connected refused done = cc
    connected established done =
        let u =
          send_info-Uploaded e info file_data (record s { open_sockets = s.open_sockets + 1 }) h ci
            cd done in
        record {
          info_frame = u.info_frame;
          data_frame = u.data_frame;
          delivered = u.delivered;
          info_readable = u.info_readable;
          data_readable = u.data_readable;
          closed = u.closed ∙ omega arith;
        }
