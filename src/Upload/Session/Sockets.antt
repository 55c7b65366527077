-- ===== src/Upload/Session/Sockets.antt =====
-- Descriptors over one upload attempt: which outcomes close the connection and which leave it open.
use wtsl_app.Base.{
  ℕ, ◌+◌, ◌-◌, ◌≡◌, refl, ◌∙◌, ◌⊎◌, inl, inr, Bool, true, false, Option, none, some, List, arith,
  if◌then◌else◌,
}
use mathlib.Core.Path.{subst}
use wtsl_app.Upload.{
  Framer, Sends, Sent, complete, broken, out_of_fuel, build_file_info_frame, build_log_data_frame,
}
use wtsl_app.Upload.Session.{
  Attempt, Session, close, Connect, no_socket, bad_address, refused, established, wait_for_ack,
  ack_info_verify, ack_filedata_verify, send_built, finish_data, send_data, finish_info, send_info,
  create_tcp_connection, after_connect, attempt,
}

open-send_built :
    (sends : Sends) (r : Option (List ℕ) × Framer) (s : Session)
    → (send_built sends r s).1.open_sockets ≡ s.open_sockets
unfolding send_built
open-send_built sends (none, framer) s = refl
open-send_built sends (some frame, framer) s = refl

-- The acknowledgements that an attempt waits for.
abbrev info_acked : Attempt → Bool
info_acked e = wait_for_ack e.info_ack ack_info_verify

abbrev data_acked : Attempt → Bool
data_acked e = wait_for_ack e.data_ack ack_filedata_verify

-- Some acknowledgement does not come.
abbrev pub Unacked : Attempt → Type 0
Unacked e =
    (wait_for_ack e.info_ack ack_info_verify ≡ false)
    ⊎ (wait_for_ack e.data_ack ack_filedata_verify ≡ false)

-- From n descriptors with the one of the attempt: it is closed, or the attempt failed for want of an
-- acknowledgement and it is open.
abbrev Closes : Attempt → ℕ → Bool × Session → Type 0
Closes e n r = (r.1.open_sockets ≡ n - 1) ⊎ ((r.0 ≡ false) × (r.1.open_sockets ≡ n) × Unacked e)

module _ (e : Attempt) (file_data : List ℕ) where
  data_answered :
      (s : Session) (b : Bool)
      → data_acked e ≡ b
      → Closes e s.open_sockets (if b then (true, close s) else (false, s))
  data_answered s true h = inl refl
  data_answered s false h = inr (refl, refl, inr h)

  finish_data-Closes : (r : Sent × Session) → Closes e r.1.open_sockets (finish_data e r)
  unfolding finish_data
  finish_data-Closes (complete, s) = data_answered s (data_acked e) refl
  finish_data-Closes (broken, s) = inl refl
  finish_data-Closes (out_of_fuel, s) = inl refl

  send_data-Closes : (s : Session) → Closes e s.open_sockets (send_data e file_data s)
  unfolding send_data
  send_data-Closes s =
      let r = send_built e.data_sends (build_log_data_frame s.framer e.data_memory file_data) s in
      subst (λ n. Closes e n (finish_data e r)) (open-send_built e.data_sends _ s)
        (finish_data-Closes r)

  info_answered :
      (s : Session) (b : Bool)
      → info_acked e ≡ b
      → Closes e s.open_sockets (if b then send_data e file_data s else (false, s))
  info_answered s true h = send_data-Closes s
  info_answered s false h = inr (refl, refl, inl h)

  finish_info-Closes : (r : Sent × Session) → Closes e r.1.open_sockets (finish_info e file_data r)
  unfolding finish_info
  finish_info-Closes (complete, s) = info_answered s (info_acked e) refl
  finish_info-Closes (broken, s) = inl refl
  finish_info-Closes (out_of_fuel, s) = inl refl

-- As many descriptors are open as before, or one more behind an attempt that failed for want of an
-- acknowledgement on a connection that was made.
pub Leaves : Attempt → ℕ → Bool × Session → Type 0
Leaves e n r =
    (r.1.open_sockets ≡ n)
    ⊎ ((r.0 ≡ false) × (r.1.open_sockets ≡ n + 1) × (e.connect ≡ established) × Unacked e)

-- Whatever fails in it, an attempt leaves as many descriptors open as before, or one more. One more is
-- only left where the attempt failed, its connection was made, and an acknowledgement would not come.
pub attempt-Leaves :
    (e : Attempt) (info file_data : List ℕ) (s : Session)
    → Leaves e s.open_sockets (attempt e info file_data s)
unfolding attempt after_connect create_tcp_connection send_info Leaves
attempt-Leaves e info file_data s = by_connect e.connect refl
  where
    made :
        (r : Bool × Session)
        → e.connect ≡ established
        → Closes e (s.open_sockets + 1) r
        → Leaves e s.open_sockets r
    made r c (inl closed) = inl (closed ∙ omega arith)
    made r c (inr (fails, left, unacked)) = inr (fails, left, c, unacked)

    by_connect :
        (c : Connect)
        → e.connect ≡ c
        → Leaves e s.open_sockets (after_connect e info file_data s (create_tcp_connection c s))
    by_connect no_socket h = inl refl
    by_connect bad_address h = inl refl
    by_connect refused h = inl refl
    by_connect established h =
        let s1 : Session = record s { open_sockets = s.open_sockets + 1 } in
        let r = send_built e.info_sends (build_file_info_frame s.framer e.info_memory info) s1 in
        made (finish_info e file_data r) h (
          subst (λ n. Closes e n (finish_info e file_data r)) (open-send_built e.info_sends _ s1)
            (finish_info-Closes e file_data r))
