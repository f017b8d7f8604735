-- ===== src/Ptp/Still.antt =====
-- The still capture operations at the end of drivers/core/canon-r5-ptp.c. Those that the source
-- marks as stubs check their pointers and send nothing.
use canon_r.Prelude.{
  ℕ, [], ◌∷◌, Bool, true, false, Option, none, some, ltb, ◌==◌, if◌then◌else◌, ◌||◌, ℤ, failed,
  success, einval, eio, eagain, enodata, M, ◌>>=◌, return, Ptr, null, valid, is_null,
}
use canon_r.Device.{Core}
use canon_r.Ptp.{TransportOps}
use canon_r.Ptp.Session.{simple_command, checked_command, not_ok}
use canon_r.Ptp.Camera.{op_capture}

abbrev pub op_capture_burst : ℕ
op_capture_burst = 0x9160

abbrev pub op_autofocus : ℕ
op_autofocus = 0x915C

abbrev pub is_code : ℕ → Option ℕ → Bool
is_code n none = false
is_code n (some rc) = rc == n

module _ {E : Type 0} where
  unfoldable pub ptp_capture_single : TransportOps E → Ptr → M (Core E) ℤ
  ptp_capture_single ops null = return einval
  ptp_capture_single ops valid = checked_command ops op_capture []

  unfoldable pub ptp_capture_burst : TransportOps E → Ptr → ℕ → M (Core E) ℤ
  ptp_capture_burst ops null count = return einval
  ptp_capture_burst ops valid count =
      if count == 0 || ltb 999 count
      then return einval
      else checked_command ops op_capture_burst (count ∷ [])

  -- The last test tells "focus failed" from the other errors.
  unfoldable pub ptp_autofocus : TransportOps E → Ptr → M (Core E) ℤ
  ptp_autofocus ops null = return einval
  ptp_autofocus ops valid = do
    r ← simple_command ops op_autofocus []
    if failed r.0
        then return r.0
        else if not_ok r.1
        then return (if is_code 0x2019 r.1 then eagain else eio)
        else return success

  unfoldable pub ptp_manual_focus : Ptr → ℕ → M (Core E) ℤ
  ptp_manual_focus null position = return einval
  ptp_manual_focus valid position = return success

  unfoldable pub ptp_get_focus_info : Ptr → Ptr → Ptr → M (Core E) (ℤ × Option (ℕ × Bool))
  ptp_get_focus_info dev position achieved =
      if is_null dev || (is_null position || is_null achieved)
      then return (einval, none)
      else return (success, some (100, true))

  unfoldable pub ptp_set_image_quality : Ptr → ℕ → ℕ → ℕ → M (Core E) ℤ
  ptp_set_image_quality null format size quality = return einval
  ptp_set_image_quality valid format size quality = return success

  unfoldable pub ptp_get_image_quality : Ptr → Ptr → Ptr → Ptr → M (Core E) (ℤ × Option (ℕ × ℕ × ℕ))
  ptp_get_image_quality dev format size quality =
      if is_null dev || (is_null format || (is_null size || is_null quality))
      then return (einval, none)
      else return (success, some (0, 1, 8))

  unfoldable pub ptp_bulb_start : Ptr → M (Core E) ℤ
  ptp_bulb_start null = return einval
  ptp_bulb_start valid = return success

  unfoldable pub ptp_bulb_end : Ptr → M (Core E) ℤ
  ptp_bulb_end null = return einval
  ptp_bulb_end valid = return success

  unfoldable pub ptp_set_bracketing : Ptr → ℕ → ℤ → M (Core E) ℤ
  ptp_set_bracketing null shots step = return einval
  ptp_set_bracketing valid shots step = return success

  unfoldable pub ptp_get_battery_info : Ptr → Ptr → Ptr → M (Core E) (ℤ × Option (ℕ × ℕ))
  ptp_get_battery_info dev level status =
      if is_null dev || (is_null level || is_null status)
      then return (einval, none)
      else return (success, some (85, 1))

  -- The data pointer and the size that it writes, with a status that says there is no data.
  unfoldable pub ptp_get_captured_image : Ptr → ℕ → Ptr → Ptr → M (Core E) (ℤ × Option (Ptr × ℕ))
  ptp_get_captured_image dev object_id image size =
      if is_null dev || (is_null image || is_null size)
      then return (einval, none)
      else return (enodata, some (null, 0))
