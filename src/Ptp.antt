-- ===== src/Ptp.antt =====
-- The PTP transaction of drivers/core/canon-r5-ptp.c: `canon_r5_ptp_command` and the two functions
-- of the transport below it. The transport is a record of operations over a state of its own.
pub mod Transport
pub mod Command
pub mod Answer
pub mod DataPhase
pub mod Session
pub mod Camera
pub mod Still
pub mod Requests
pub mod Lifecycle
pub mod Serve
pub mod Status
pub mod Offline
pub mod Sign
use canon_r.Prelude.{
  ℕ, zero, suc, ◌+◌, ◌%◌, ◌^◌, not, ◌&&◌, ◌||◌, List, [], Option, none, some, length, take, ltb,
  ◌==◌, if◌then◌else◌, ℤ, pos, negsuc, failed, success, einval, enodev, eproto, eio, enotconn, M,
  ◌>>=◌, ◌>>◌, return, get, modify, crash, out_of_bounds, Ptr, is_null,
}
use canon_r.Wire.{
  Byte, PtpContainer, build_ptp_container, encode, type_of, code_of, trans_id_of, container_command,
  container_data, container_response, sizeof_container, sizeof_header,
}
use canon_r.Device.{Core, set_ptp, lock_ptp, unlock_ptp, on_env}

abbrev pub op_open_session : ℕ
op_open_session = 0x1002

abbrev pub rc_ok : ℕ
rc_ok = 0x2001

-- `struct canon_r5_transport_ops`. A transport gets the bytes to send, and gives a status with the
-- bytes that came in (their number is `*actual_len`); either pointer may be NULL.
pub record TransportOps (E : Type 0) : Type 0 where
  pub bulk_send : Option (List Byte → M E ℤ)
  pub bulk_receive : Option (ℕ → M E (ℤ × List ℕ))

-- The header of the data phase is a whole container; its parameters are not written.
unfoldable pub data_header : ℕ → ℕ → ℕ → PtpContainer
data_header code trans_id n =
    let built = build_ptp_container container_data code trans_id [] in
    record built { length = (sizeof_container + n) % 2 ^ 32 }

module _ {E : Type 0} where
  send_with : Option (List Byte → M E ℤ) → List Byte → M (Core E) ℤ
  send_with none bs = return enodev
  send_with (some f) bs = on_env (f bs)

  -- The operation reads `len` bytes of the object.
  unfoldable pub transport_send : TransportOps E → List Byte → ℕ → M (Core E) ℤ
  unfolding send_with
  transport_send ops object len = do
    c ← get
    if is_null c.dev.transport_ops
        then return enodev
        else if ltb (length object) len
        then crash out_of_bounds
        else send_with ops.bulk_send (take len object)

  receive_with : Option (ℕ → M E (ℤ × List ℕ)) → ℕ → M (Core E) (ℤ × List ℕ)
  receive_with none len = return (enodev, [])
  receive_with (some f) len = do
    r ← on_env (f len)
    if ltb len (length r.1) then crash out_of_bounds else return r

  -- The operation fills a buffer of `len` bytes, and must not write past it.
  unfoldable pub transport_receive : TransportOps E → ℕ → M (Core E) (ℤ × List ℕ)
  unfolding receive_with
  transport_receive ops len = do
    c ← get
    if is_null c.dev.transport_ops then return (enodev, []) else receive_with ops.bulk_receive len

  -- An early return with the mutex released and `*response_code` not written.
  abbrev pub leave : ℤ → M (Core E) (ℤ × Option ℕ)
  leave ret = do unlock_ptp; return (ret, none)

  unfoldable pub send_data_phase : TransportOps E → ℕ → ℕ → Option (List Byte) → ℤ → M (Core E) ℤ
  send_data_phase ops code trans_id none data_len = return success
  send_data_phase ops code trans_id (some data_buf) (negsuc n) = return success
  send_data_phase ops code trans_id (some data_buf) (pos zero) = return success
  send_data_phase ops code trans_id (some data_buf) (pos (suc n)) = do
    ret ← transport_send ops (encode (data_header code trans_id (suc n))) sizeof_container
    if failed ret then return ret else transport_send ops data_buf (suc n)

  -- The checks on the response; `*response_code` is written when they pass.
  unfoldable pub check_response : ℕ → List ℕ → M (Core E) (ℤ × Option ℕ)
  check_response trans_id resp =
      if ltb (length resp) sizeof_header
      then leave eproto
      else if not (type_of resp == container_response)
      then leave eproto
      else if not (trans_id_of resp == trans_id)
      then leave eproto
      else do
        unlock_ptp
        return (if code_of resp == rc_ok then success else eio, some (code_of resp))

  -- The state after `trans_id = dev->ptp.transaction_id++`.
  abbrev pub next_transaction : Core E → Core E
  next_transaction c =
      set_ptp (record (c.dev.ptp) { transaction_id = (c.dev.ptp.transaction_id + 1) % 2 ^ 32 }) c

  -- The transaction proper, with the mutex held.
  unfoldable pub transact :
      TransportOps E → ℕ → ℕ → List ℕ → Option (List Byte) → ℤ → M (Core E) (ℤ × Option ℕ)
  transact ops code trans_id params data_buf data_len = do
    let cmd = build_ptp_container container_command code trans_id params
    ret ← transport_send ops (encode cmd) cmd.length
    if failed ret then leave ret else do
      ret ← send_data_phase ops code trans_id data_buf data_len
      if failed ret then leave ret else do
        r ← transport_receive ops sizeof_container
        if failed r.0 then leave r.0 else check_response trans_id r.1

  -- The status, and `*response_code` where it was written.
  unfoldable pub ptp_command :
      TransportOps E → Ptr → ℕ → List ℕ → Option (List Byte) → ℤ → Ptr → M (Core E) (ℤ × Option ℕ)
  ptp_command ops dev code params data_buf data_len response_code =
      if is_null dev || is_null response_code then return (einval, none) else do
        lock_ptp
        c ← get
        if not c.dev.ptp.session_open && not (code == op_open_session) then leave enotconn else do
          modify next_transaction
          transact ops code c.dev.ptp.transaction_id params data_buf data_len
