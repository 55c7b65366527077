-- ===== src/Upload/Send.antt =====
-- The send loop: it ends, what it reports is true, and partial sends lose nothing.
use wtsl_app.Base.{
  ℕ, zero, suc, ◌+◌, ◌-◌, ◌≤◌, ◌<◌, ◌≡◌, refl, ap, ◌∙◌, false, List, [], ◌++◌, inl, inr, arith,
  ◌==◌, ltb, Bool-cases, length, take, drop, take-length, take-append-take,
}
use Prim.Native.Nat.{min}
use wtsl_app.Upload.{
  Sends, Sent, complete, broken, out_of_fuel, next_send, later_sends, send_loop, send_frame_data,
}

-- What the result of the loop says about the bytes that went out.
abbrev pub Delivered : List ℕ → Sent × List ℕ → Type 0
Delivered frame (complete, got) = got ≡ frame
Delivered frame (broken, got) = (k : ℕ) × (k < length frame) × (got ≡ take k frame)
Delivered frame (out_of_fuel, got) = ⊥

-- Every call takes at least a byte, as often as the frame has bytes.
abbrev pub Flowing : ℕ → Sends → Type 0
Flowing zero sends = Unit
Flowing (suc k) sends = (0 < next_send sends) × Flowing k (later_sends sends)

module _ (frame : List ℕ) where
  send_loop-Delivered :
      (fuel : ℕ) (sends : Sends) (total : ℕ) (got : List ℕ)
      → total ≤ length frame
      → length frame < total + fuel
      → got ≡ take total frame
      → Delivered frame (send_loop fuel sends frame total got)
  unfolding send_loop
  send_loop-Delivered zero sends total got h f e = absurd (omega arith)
  send_loop-Delivered (suc fuel) sends total got h f e =
      elim (Bool-cases (ltb total (length frame))) [
        | inr done ↦ rw done (e ∙ take-length total frame (ground arith))
        | inl more ↦ rw more (elim (Bool-cases (taken == 0)) [
          | inl stuck ↦ rw stuck (total, ground arith, e)
          | inr moved ↦ rw moved (
              send_loop-Delivered fuel (later_sends sends) (total + taken) _ (omega arith)
                (ground arith)
                (ap (λ l. l ++ take taken (drop total frame)) e
                  ∙ take-append-take total taken frame))
        ])
      ]
    where
      taken : ℕ
      taken = min (next_send sends) (length frame - total)

  send_loop-complete :
      (k : ℕ) (sends : Sends) (total : ℕ) (got : List ℕ)
      → length frame ≤ total + k
      → Flowing k sends
      → (send_loop (suc k) sends frame total got).0 ≡ complete
  unfolding send_loop
  send_loop-complete zero sends total got f flow =
      let done : ltb total (length frame) ≡ false = ground arith in rw done
  send_loop-complete (suc k) sends total got f flow = elim (Bool-cases (ltb total (length frame))) [
    | inr done ↦ rw done
    | inl more ↦
        let moved : (min (next_send sends) (length frame - total) == 0) ≡ false =
          ground (arith, flow.0) in
        rw (more, moved)
          (send_loop-complete k (later_sends sends) _ _ (ground (arith, flow.0)) flow.1)
  ]

-- `send_frame_data` ends. If it reports success the connection took exactly the frame; if it
-- reports an error it took a proper prefix of the frame.
pub send-Delivered :
    (sends : Sends) (frame : List ℕ) → Delivered frame (send_frame_data sends frame)
unfolding send_frame_data
send-Delivered sends frame =
    send_loop-Delivered frame (length frame + 1) sends 0 [] (omega arith) (omega arith) refl

-- While every call takes at least one byte, however few, the whole frame is sent.
pub send-complete :
    (sends : Sends) (frame : List ℕ)
    → Flowing (length frame) sends
    → send_frame_data sends frame ≡ (complete, frame)
unfolding send_frame_data
send-complete sends frame flow =
    finished (send_frame_data sends frame) (send-Delivered sends frame) succeeded
  where
    succeeded : (send_frame_data sends frame).0 ≡ complete
    succeeded =
        let e : length frame + 1 ≡ suc (length frame) = omega arith in
        rw e (send_loop-complete frame (length frame) sends 0 [] (omega arith) flow)

    finished : (r : Sent × List ℕ) → Delivered frame r → r.0 ≡ complete → r ≡ (complete, frame)
    finished (complete, got) d h = ap (λ l. (complete, l)) d
    finished (broken, got) d h = cc
    finished (out_of_fuel, got) d h = absurd d
