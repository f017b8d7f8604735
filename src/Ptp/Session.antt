-- ===== src/Ptp/Session.antt =====
-- The PTP session of drivers/core/canon-r5-ptp.c: opening and closing it, and what the layer does
-- when the device comes and goes.
use canon_r.Prelude.{
  ℕ, Bool, true, false, not, List, [], ◌∷◌, Option, none, some, ◌==◌, if◌then◌else◌, ℤ, pos, failed,
  success, einval, eio, M, ◌>>=◌, ◌>>◌, return, get, modify, Ptr, null, valid,
}
use canon_r.Device.{Core, set_ptp, lock_ptp, unlock_ptp}
use canon_r.Ptp.{TransportOps, ptp_command, op_open_session, rc_ok}

abbrev pub op_close_session : ℕ
op_close_session = 0x1003

-- The test `response_code != PTP_RC_OK`.
abbrev pub not_ok : Option ℕ → Bool
not_ok none = true
not_ok (some rc) = not (rc == rc_ok)

module _ {E : Type 0} where
  -- A command without data whose address of `response_code` is a local variable's.
  unfoldable pub simple_command : TransportOps E → ℕ → List ℕ → M (Core E) (ℤ × Option ℕ)
  simple_command ops code params = ptp_command ops valid code params none (pos 0) valid

  -- The tail that many operations share: the status, then the response code.
  unfoldable pub checked_command : TransportOps E → ℕ → List ℕ → M (Core E) ℤ
  checked_command ops code params = do
    r ← simple_command ops code params
    if failed r.0 then return r.0 else if not_ok r.1 then return eio else return success

  abbrev pub open_with : ℕ → Core E → Core E
  open_with id c = set_ptp (record (c.dev.ptp) { session_id = id; session_open = true }) c

  abbrev pub close_in : Core E → Core E
  close_in c = set_ptp (record (c.dev.ptp) { session_open = false; session_id = 0 }) c

  unfoldable pub ptp_open_session : TransportOps E → Ptr → M (Core E) ℤ
  ptp_open_session ops null = return einval
  ptp_open_session ops valid = do
    r ← simple_command ops op_open_session (1 ∷ [])
    if failed r.0
        then return r.0
        else if not_ok r.1
        then return eio
        else do lock_ptp; modify (open_with 1); unlock_ptp; return success

  -- The session counts as closed whatever the camera says.
  unfoldable pub ptp_close_session : TransportOps E → Ptr → M (Core E) ℤ
  ptp_close_session ops null = return einval
  ptp_close_session ops valid = do
    lock_ptp
    c ← get
    if not c.dev.ptp.session_open then (do unlock_ptp; return success) else do
      unlock_ptp
      r ← simple_command ops op_close_session []
      lock_ptp
      modify close_in
      unlock_ptp
      return success

  unfoldable pub ptp_init : Ptr → M (Core E) ℤ
  ptp_init null = return einval
  ptp_init valid = return success

  unfoldable pub ptp_cleanup : TransportOps E → Ptr → M (Core E) (Unit {0})
  ptp_cleanup ops null = return tt
  ptp_cleanup ops valid = do ret ← ptp_close_session ops valid; return tt

  -- Event checking is not written yet: the handler changes nothing.
  unfoldable pub ptp_check_event : Ptr → M (Core E) ℤ
  ptp_check_event dev = return success

  unfoldable pub ptp_event_handler : Ptr → M (Core E) (Unit {0})
  unfolding ptp_check_event
  ptp_event_handler null = return tt
  ptp_event_handler valid = do ret ← ptp_check_event valid; return tt
