-- ===== src/Ptp/Answer.antt =====
-- What `canon_r5_ptp_command` puts on the wire, and what it makes of the camera's answer.
use canon_r.Prelude.{
  ℕ, ◌+◌, ◌*◌, ◌^◌, ◌≤◌, ◌<◌, ◌≡◌, ◌≢◌, refl, ◌∙◌, ◌⊎◌, true, false, List, ◌++◌, map, none, some,
  length, take, arith, ◌==◌, length-append, ℤ, pos, success, eio, eproto, M, done, valid,
  le→not-ltb, if◌then◌else◌,
}
use canon_r.Wire.{
  Byte, PtpContainer, build_ptp_container, header, encode, container_command, container_response,
  sizeof_container,
}
use canon_r.Wire.RoundTrip.{
  header_bytes, decode-header, length-header, take-encode, wire_params, length-encode-build,
  length-build,
}
use canon_r.Device.{Core, set_ptp}
use canon_r.Ptp.Command.{command-started}
use canon_r.Ptp.{
  TransportOps, send_with, receive_with, transport_send, transport_receive, send_data_phase,
  check_response, transact, ptp_command, next_transaction, op_open_session, rc_ok,
}

-- The bytes of a command, as the camera gets them: its length, the type of a command, its code and
-- the transaction, and the parameters.
abbrev pub wire_command : ℕ → ℕ → List ℕ → List Byte
wire_command code trans_id ps =
    map some (header_bytes (12 + length ps * 4) 1 code trans_id) ++ map some (wire_params ps)

module _ {E : Type 0} where
  pub check-header :
      (resp : PtpContainer) (rest : List ℕ) (trans_id : ℕ) (c : Core E)
      → resp.type ≡ container_response
      → resp.code < 2 ^ 16
      → resp.trans_id ≡ trans_id
      → trans_id < 2 ^ 32
      → check_response trans_id (header resp ++ rest) c
        ≡ done
            (if resp.code == rc_ok then success else eio, some resp.code)
            (set_ptp (record (c.dev.ptp) { lock = false }) c)
  unfolding check_response
  check-header resp rest trans_id c ht hc hi hw =
      let read = decode-header resp rest (omega arith) hc (omega arith) in
      ground (arith, read.0, read.1, read.2, length-append (header resp) rest, length-header resp)

  check-mismatch :
      (resp : PtpContainer) (rest : List ℕ) (trans_id : ℕ) (c : Core E)
      → resp.type < 2 ^ 16
      → resp.code < 2 ^ 16
      → resp.trans_id < 2 ^ 32
      → resp.trans_id ≢ trans_id
      → check_response trans_id (header resp ++ rest) c
        ≡ done (eproto, none) (set_ptp (record (c.dev.ptp) { lock = false }) c)
  unfolding check_response
  check-mismatch resp rest trans_id c ht hc hi hw =
      let read = decode-header resp rest ht hc hi in
      ground (arith, read.0, read.1, read.2, length-append (header resp) rest, length-header resp)

module _ {E : Type 0} (ops : TransportOps E) where
  -- A send through a registered transport with an operation is that operation on the prefix.
  pub transport_send-some :
      (f : List Byte → M E ℤ) (object : List Byte) (len : ℕ) (c : Core E) {ret : ℤ} {e : E}
      → c.dev.transport_ops ≡ valid
      → ops.bulk_send ≡ some f
      → len ≤ length object
      → f (take len object) c.env ≡ done ret e
      → transport_send ops object len c ≡ done ret (record c { env = e })
  unfolding transport_send send_with
  transport_send-some f object len c hv hf hl h = ground (arith, le→not-ltb (length object) len hl)

  pub transport_receive-some :
      (f : ℕ → M E (ℤ × List ℕ)) (len : ℕ) (c : Core E) {r : ℤ × List ℕ} {e : E}
      → c.dev.transport_ops ≡ valid
      → ops.bulk_receive ≡ some f
      → f len c.env ≡ done r e
      → length r.1 ≤ len
      → transport_receive ops len c ≡ done r (record c { env = e })
  unfolding transport_receive receive_with
  transport_receive-some f len c {r = r} hv hf h hl = ground (arith, le→not-ltb len (length r.1) hl)

  -- The transaction without a data phase, between a send and a receive that work.
  transact-exchange :
      (send : List Byte → M E ℤ) (receive : ℕ → M E (ℤ × List ℕ)) (code trans_id : ℕ) (ps : List ℕ)
      (resp : List ℕ) (c : Core E) (e1 e2 : E)
      → c.dev.transport_ops ≡ valid
      → ops.bulk_send ≡ some send
      → ops.bulk_receive ≡ some receive
      → length ps ≤ 5
      → send (wire_command code trans_id ps) c.env ≡ done success e1
      → receive sizeof_container e1 ≡ done (success, resp) e2
      → length resp ≤ sizeof_container
      → transact ops code trans_id ps none (pos 0) c
        ≡ check_response trans_id resp (record c { env = e2 })
  unfolding transact send_data_phase
  transact-exchange send receive code trans_id ps resp c e1 e2 hv hs hr hp h1 h2 hl =
      let cmd = build_ptp_container container_command code trans_id ps in
      let sent : transport_send ops (encode cmd) cmd.length c
          ≡ done success (record c { env = e1 }) =
        transport_send-some send (encode cmd) cmd.length c hv hs
          (omega (
            arith,
            length-encode-build container_command code trans_id ps,
            length-build container_command code trans_id ps hp,
          ))
          (rw (take-encode container_command code trans_id ps hp) h1) in
      let got : transport_receive ops sizeof_container (record c { env = e1 })
          ≡ done (success, resp) (record c { env = e2 }) =
        transport_receive-some receive sizeof_container (record c { env = e1 }) hv hr h2 hl in
      ground (arith, sent, got)

  -- On a device with a free mutex and a registered transport, a command that may go out, with
  -- at most five parameters and no data phase, between a send and a receive that work: exactly
  -- the header and the parameters go out; an answer of type response to this transaction gives
  -- the camera's response code, with status 0 if it is PTP_RC_OK and -EIO if not; and of the
  -- device only the transaction counter has moved.
  pub ptp_command-answer :
      (send : List Byte → M E ℤ) (receive : ℕ → M E (ℤ × List ℕ)) (code : ℕ) (ps : List ℕ)
      (resp : PtpContainer) (rest : List ℕ) (c : Core E) (e1 e2 : E)
      → c.dev.ptp.lock ≡ false
      → (c.dev.ptp.session_open ≡ true) ⊎ ((code == op_open_session) ≡ true)
      → c.dev.transport_ops ≡ valid
      → ops.bulk_send ≡ some send
      → ops.bulk_receive ≡ some receive
      → length ps ≤ 5
      → send (wire_command code c.dev.ptp.transaction_id ps) c.env ≡ done success e1
      → receive sizeof_container e1 ≡ done (success, header resp ++ rest) e2
      → length rest ≤ 20
      → resp.type ≡ container_response
      → resp.code < 2 ^ 16
      → resp.trans_id ≡ c.dev.ptp.transaction_id
      → c.dev.ptp.transaction_id < 2 ^ 32
      → ptp_command ops valid code ps none (pos 0) valid c
        ≡ done
            (if resp.code == rc_ok then success else eio, some resp.code)
            (record (next_transaction c) { env = e2 })
  ptp_command-answer send receive code ps resp rest c e1 e2 hl ha hv hs hr hp h1 h2 hn ht hc hi hw =
      command-started ops c code ps none (pos 0) hl ha
      ∙ transact-exchange send receive code c.dev.ptp.transaction_id ps (header resp ++ rest) _ e1
          e2 hv hs hr hp h1 h2 (omega (arith, length-append (header resp) rest, length-header resp))
      ∙ check-header resp rest c.dev.ptp.transaction_id _ ht hc hi hw
      ∙ rw (← hl) refl

  -- Under the same conditions, an answer to another transaction is refused with -EPROTO, and
  -- its code is not handed on. Of the device only the transaction counter has moved.
  pub ptp_command-mismatch :
      (send : List Byte → M E ℤ) (receive : ℕ → M E (ℤ × List ℕ)) (code : ℕ) (ps : List ℕ)
      (resp : PtpContainer) (rest : List ℕ) (c : Core E) (e1 e2 : E)
      → c.dev.ptp.lock ≡ false
      → (c.dev.ptp.session_open ≡ true) ⊎ ((code == op_open_session) ≡ true)
      → c.dev.transport_ops ≡ valid
      → ops.bulk_send ≡ some send
      → ops.bulk_receive ≡ some receive
      → length ps ≤ 5
      → send (wire_command code c.dev.ptp.transaction_id ps) c.env ≡ done success e1
      → receive sizeof_container e1 ≡ done (success, header resp ++ rest) e2
      → length rest ≤ 20
      → resp.type < 2 ^ 16
      → resp.code < 2 ^ 16
      → resp.trans_id < 2 ^ 32
      → resp.trans_id ≢ c.dev.ptp.transaction_id
      → ptp_command ops valid code ps none (pos 0) valid c
        ≡ done (eproto, none) (record (next_transaction c) { env = e2 })
  ptp_command-mismatch send receive code ps resp rest c e1 e2 hl ha hv hs hr hp h1 h2 hn ht hc hi
        hw =
      command-started ops c code ps none (pos 0) hl ha
      ∙ transact-exchange send receive code c.dev.ptp.transaction_id ps (header resp ++ rest) _ e1
          e2 hv hs hr hp h1 h2 (omega (arith, length-append (header resp) rest, length-header resp))
      ∙ check-mismatch resp rest c.dev.ptp.transaction_id _ ht hc hi hw
      ∙ rw (← hl) refl
