-- ===== src/Ptp/DataPhase.antt =====
-- What `canon_r5_ptp_command` puts on the wire for a command with data.
use canon_r.Prelude.{
  ℕ, suc, ◌^◌, ◌≤◌, ◌<◌, ◌≡◌, refl, ap, ◌∙◌, ◌⊎◌, true, false, List, ◌++◌, ◌+◌, ◌/◌, ◌%◌, map, none,
  replicate, some, length, take, arith, ◌==◌, length-append, ℤ, pos, success, eio, M, done, valid,
  if◌then◌else◌,
}
use canon_r.Wire.{
  Byte, PtpContainer, build_ptp_container, header, encode, encode_params, store_params,
  container_command, container_response, sizeof_container,
}
use canon_r.Wire.RoundTrip.{
  little, header_bytes, header-bytes, length-header, take-encode, length-encode-build, length-build,
}
use canon_r.Device.{Core}
use canon_r.Ptp.Command.{command-started, data_header-size}
use canon_r.Ptp.Answer.{wire_command, check-header, transport_send-some, transport_receive-some}
use canon_r.Ptp.{
  TransportOps, data_header, transport_send, send_data_phase, check_response, transact, ptp_command,
  next_transaction, op_open_session, rc_ok,
}

-- The bytes that announce `n` bytes of data: the size of a container with the data, the type of a
-- data phase, the code and the transaction, and then twenty bytes that were never written.
abbrev pub wire_data_header : ℕ → ℕ → ℕ → List Byte
wire_data_header code trans_id n =
    map some (header_bytes (32 + n) 2 code trans_id) ++ replicate 20 none

-- The lowest bytes of a number that wraps at 32 bits are those of the number.
wrapped : (n : ℕ) → little 4 (n % 2 ^ 32) ≡ little 4 n
wrapped n =
    let b0 : n % 4294967296 % 256 ≡ n % 256 = omega arith in
    let b1 : n % 4294967296 / 256 % 256 ≡ n / 256 % 256 = omega arith in
    let b2 : n % 4294967296 / 256 / 256 % 256 ≡ n / 256 / 256 % 256 = omega arith in
    let b3 : n % 4294967296 / 256 / 256 / 256 % 256 ≡ n / 256 / 256 / 256 % 256 = omega arith in
    rw (b0, b1, b2, b3) refl

announced-bytes :
    (code trans_id n : ℕ)
    → take sizeof_container (encode (data_header code trans_id n))
      ≡ wire_data_header code trans_id n
unfolding encode encode_params data_header build_ptp_container store_params
announced-bytes code trans_id n =
    ap (λ bs. take sizeof_container (map some bs ++ replicate 20 none))
      (header-bytes (data_header code trans_id n))
    ∙ ap
        (λ bs.
          map some (bs ++ (little 2 2 ++ (little 2 code ++ little 4 trans_id)))
          ++ replicate 20 none)
        (wrapped (32 + n))

module _ {E : Type 0} (ops : TransportOps E) where
  data_phase-sent :
      (send : List Byte → M E ℤ) (code trans_id : ℕ) (b : List Byte) (n : ℕ) (c : Core E)
      (e1 e2 : E)
      → c.dev.transport_ops ≡ valid
      → ops.bulk_send ≡ some send
      → suc n ≤ length b
      → send (wire_data_header code trans_id (suc n)) c.env ≡ done success e1
      → send (take (suc n) b) e1 ≡ done success e2
      → send_data_phase ops code trans_id (some b) (pos (suc n)) c
        ≡ done success (record c { env = e2 })
  unfolding send_data_phase
  data_phase-sent send code trans_id b n c e1 e2 hv hs hb h1 h2 =
      let announced =
        transport_send-some ops send (encode (data_header code trans_id (suc n))) sizeof_container c
          hv hs (data_header-size code trans_id (suc n))
          (ap (λ bs. send bs c.env) (announced-bytes code trans_id (suc n)) ∙ h1) in
      let sent = transport_send-some ops send b (suc n) (record c { env = e1 }) hv hs hb h2 in
      ground (arith, announced, sent)

  transact-data :
      (send : List Byte → M E ℤ) (receive : ℕ → M E (ℤ × List ℕ)) (code trans_id : ℕ) (ps : List ℕ)
      (b : List Byte) (n : ℕ) (resp : List ℕ) (c : Core E) (e1 e2 e3 e4 : E)
      → c.dev.transport_ops ≡ valid
      → ops.bulk_send ≡ some send
      → ops.bulk_receive ≡ some receive
      → length ps ≤ 5
      → suc n ≤ length b
      → send (wire_command code trans_id ps) c.env ≡ done success e1
      → send (wire_data_header code trans_id (suc n)) e1 ≡ done success e2
      → send (take (suc n) b) e2 ≡ done success e3
      → receive sizeof_container e3 ≡ done (success, resp) e4
      → length resp ≤ sizeof_container
      → transact ops code trans_id ps (some b) (pos (suc n)) c
        ≡ check_response trans_id resp (record c { env = e4 })
  unfolding transact
  transact-data send receive code trans_id ps b n resp c e1 e2 e3 e4 hv hs hr hp hb h1 h2 h3 h4 hl =
      let cmd = build_ptp_container container_command code trans_id ps in
      let commanded : transport_send ops (encode cmd) cmd.length c
          ≡ done success (record c { env = e1 }) =
        transport_send-some ops send (encode cmd) cmd.length c hv hs
          (omega (
            arith,
            length-encode-build container_command code trans_id ps,
            length-build container_command code trans_id ps hp,
          ))
          (rw (take-encode container_command code trans_id ps hp) h1) in
      let sent =
        data_phase-sent send code trans_id b n (record c { env = e1 }) e2 e3 hv hs hb h2 h3 in
      let got =
        transport_receive-some ops receive sizeof_container (record c { env = e3 }) hv hr h4 hl in
      ground (arith, commanded, sent, got)

  -- On a device with a free mutex and a registered transport, a command with data that may go
  -- out, with at most five parameters, over sends and a receive that work: the header and the
  -- parameters go out, then a data header with its length, then the first bytes of the buffer, as many as said; an
  -- answer of type response to this transaction gives the camera's code, with status 0 if it is
  -- PTP_RC_OK and -EIO if not; of the device only the transaction counter has moved.
  pub ptp_command-data_answer :
      (send : List Byte → M E ℤ) (receive : ℕ → M E (ℤ × List ℕ)) (code : ℕ) (ps : List ℕ)
      (b : List Byte) (n : ℕ) (resp : PtpContainer) (rest : List ℕ) (c : Core E) (e1 e2 e3 e4 : E)
      → c.dev.ptp.lock ≡ false
      → (c.dev.ptp.session_open ≡ true) ⊎ ((code == op_open_session) ≡ true)
      → c.dev.transport_ops ≡ valid
      → ops.bulk_send ≡ some send
      → ops.bulk_receive ≡ some receive
      → length ps ≤ 5
      → suc n ≤ length b
      → send (wire_command code c.dev.ptp.transaction_id ps) c.env ≡ done success e1
      → send (wire_data_header code c.dev.ptp.transaction_id (suc n)) e1 ≡ done success e2
      → send (take (suc n) b) e2 ≡ done success e3
      → receive sizeof_container e3 ≡ done (success, header resp ++ rest) e4
      → length rest ≤ 20
      → resp.type ≡ container_response
      → resp.code < 2 ^ 16
      → resp.trans_id ≡ c.dev.ptp.transaction_id
      → c.dev.ptp.transaction_id < 2 ^ 32
      → ptp_command ops valid code ps (some b) (pos (suc n)) valid c
        ≡ done
            (if resp.code == rc_ok then success else eio, some resp.code)
            (record (next_transaction c) { env = e4 })
  ptp_command-data_answer send receive code ps b n resp rest c e1 e2 e3 e4 hl ha hv hs hr hp hb h1
        h2 h3 h4 hn ht hc hi hw =
      command-started ops c code ps (some b) (pos (suc n)) hl ha
      ∙ transact-data send receive code c.dev.ptp.transaction_id ps b n (header resp ++ rest) _ e1
          e2 e3 e4 hv hs hr hp hb h1 h2 h3 h4
          (omega (arith, length-append (header resp) rest, length-header resp))
      ∙ check-header resp rest c.dev.ptp.transaction_id _ ht hc hi hw
      ∙ rw (← hl) refl
