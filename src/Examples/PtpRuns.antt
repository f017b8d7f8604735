-- ===== src/Examples/PtpRuns.antt =====
-- The PTP layer at concrete inputs.
use canon_r.Prelude.{
  ◌≡◌, refl, inl, inr, ◌⊎◌, [], ◌∷◌, none, some, arith, true, false, pos, failed, success, eproto,
  eio, Ends, done, valid,
}
use canon_r.Wire.{header, le16, le32}
use canon_r.Ptp.{ptp_command, next_transaction}
use canon_r.Ptp.Command.{Exchanged, ptp_command-Exchanged}
use canon_r.Ptp.DataPhase.{wire_data_header, ptp_command-data_answer}
use canon_r.Ptp.Answer.{wire_command, ptp_command-answer, ptp_command-mismatch}
use canon_r.Ptp.Session.{simple_command, ptp_open_session, ptp_close_session}
use canon_r.Ptp.Still.{ptp_autofocus, op_autofocus}
use canon_r.Ptp.Requests.{Framed}
use canon_r.Ptp.Lifecycle.{Session, ptp_open_session-Ends, ptp_close_session-Ends}
use canon_r.Ptp.Serve.{
  open_session, capture_burst, autofocus, close_session, serve_all, Settled, SameOutside,
  serve_all-Settled,
}
use canon_r.Ptp.Status.{status_of, ptp_autofocus-status}
use canon_r.Examples.Data.{
  ok_answer, Any, record_packet, answer_with, camera, camera-IsTransport, busy_answer, late_answer,
  ok_bytes, busy_bytes, late_bytes, closed_device, open_device, closed_device-Inv, open_device-Inv,
  on_wire,
}

serve_all-Settled_example :
    Ends
      (λ _ c'. Settled Any c' × SameOutside (on_wire closed_device) c')
      (serve_all
        (camera ok_bytes)
        (open_session ∷ capture_burst 3 ∷ autofocus ∷ close_session ∷ [])
        (on_wire closed_device))
serve_all-Settled_example =
    serve_all-Settled (camera ok_bytes) (camera-IsTransport ok_bytes)
      (open_session ∷ capture_burst 3 ∷ autofocus ∷ close_session ∷ []) (on_wire closed_device)
      (closed_device-Inv, tt)

ptp_command-answer_example :
    ptp_command (camera busy_bytes) valid 0x915C [] none (pos 0) valid (on_wire open_device)
    ≡ done
        (eio, some 0x2019)
        (record (next_transaction (on_wire open_device)) { env = wire_command 0x915C 1 [] ∷ [] })
unfolding header le16 le32
ptp_command-answer_example =
    ptp_command-answer (camera busy_bytes) record_packet (answer_with busy_bytes) 0x915C []
      busy_answer [] (on_wire open_device) (wire_command 0x915C 1 [] ∷ [])
      (wire_command 0x915C 1 [] ∷ []) refl (inl refl) refl refl refl (omega arith) refl refl
      (omega arith) refl (omega arith) refl (omega arith)

ptp_command-data_answer_example :
    ptp_command
      (camera ok_bytes)
      valid
      0x9110
      []
      (some (some 7 ∷ some 8 ∷ []))
      (pos 2)
      valid
      (on_wire open_device)
    ≡ done
        (success, some 0x2001)
        (record (next_transaction (on_wire open_device)) {
          env =
              (some 7 ∷ some 8 ∷ []) ∷ wire_data_header 0x9110 1 2 ∷ wire_command 0x9110 1 [] ∷ [];
        })
unfolding header le16 le32
ptp_command-data_answer_example =
    ptp_command-data_answer (camera ok_bytes) record_packet (answer_with ok_bytes) 0x9110 []
      (some 7 ∷ some 8 ∷ []) 1 ok_answer [] (on_wire open_device) _ _ _ _ refl (inl refl) refl refl
      refl (omega arith) (omega arith) refl refl refl refl (omega arith) refl (omega arith) refl
      (omega arith)

ptp_command-mismatch_example :
    ptp_command (camera late_bytes) valid 0x1002 (1 ∷ []) none (pos 0) valid (on_wire closed_device)
    ≡ done
        (eproto, none)
        (record (next_transaction (on_wire closed_device)) {
          env = wire_command 0x1002 1 (1 ∷ []) ∷ [];
        })
unfolding header le16 le32
ptp_command-mismatch_example =
    ptp_command-mismatch (camera late_bytes) record_packet (answer_with late_bytes) 0x1002 (1 ∷ [])
      late_answer [] (on_wire closed_device) (wire_command 0x1002 1 (1 ∷ []) ∷ [])
      (wire_command 0x1002 1 (1 ∷ []) ∷ []) refl (inr refl) refl refl refl (omega arith) refl refl
      (omega arith) (omega arith) (omega arith) (omega arith) (λ e. absurd (omega (arith, e)))

ptp_command-Exchanged_example : Ends (Exchanged Any 0x9110 (on_wire open_device)) (
    ptp_command
      (camera ok_bytes)
      valid
      0x9110
      (5 ∷ [])
      (some (some 1 ∷ some 2 ∷ []))
      (pos 2)
      valid
      (on_wire open_device))
ptp_command-Exchanged_example =
    ptp_command-Exchanged (camera ok_bytes) (camera-IsTransport ok_bytes) (on_wire open_device)
      0x9110 (5 ∷ []) (some (some 1 ∷ some 2 ∷ [])) (pos 2) tt refl (omega arith) (omega arith)

ptp_open_session-Ends_example :
    Ends
      (λ ret c'.
        ((ret ≡ success) × Session Any 1 true (on_wire closed_device) c')
        ⊎ ((failed ret ≡ true) × Framed Any (on_wire closed_device) c'))
      (ptp_open_session (camera ok_bytes) valid (on_wire closed_device))
ptp_open_session-Ends_example =
    ptp_open_session-Ends (camera ok_bytes) (camera-IsTransport ok_bytes) (on_wire closed_device)
      closed_device-Inv tt

ptp_close_session-Ends_example :
    Ends
      (λ ret c'. (ret ≡ success) × Session Any 0 false (on_wire open_device) c')
      (ptp_close_session (camera late_bytes) valid (on_wire open_device))
ptp_close_session-Ends_example =
    ptp_close_session-Ends (camera late_bytes) (camera-IsTransport late_bytes) (on_wire open_device)
      open_device-Inv tt

ptp_autofocus-status_example :
    ptp_autofocus (camera busy_bytes) valid (on_wire open_device)
    ≡ status_of (simple_command (camera busy_bytes) op_autofocus []) (on_wire open_device)
ptp_autofocus-status_example =
    ptp_autofocus-status (camera busy_bytes) (camera-IsTransport busy_bytes) (on_wire open_device)
      open_device-Inv tt
