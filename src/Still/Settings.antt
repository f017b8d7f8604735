-- ===== src/Still/Settings.antt =====
-- The settings of drivers/still/canon-r5-still.c: the checks of the image quality and of the capture
-- settings, and the four functions that set and get them.
use canon_r.Prelude.{
  ℕ, ◌%◌, Bool, false, not, ◌&&◌, ◌||◌, Option, none, some, ltb, ◌==◌, if◌then◌else◌, ℤ, pos, minus,
  lt_int, failed, success, einval, M, ◌>>=◌, ◌>>◌, return, get, modify, Ptr, null, valid, is_null,
}
use canon_r.Ptp.Still.{ptp_set_image_quality, ptp_set_bracketing}
use canon_r.Still.{
  ImageQuality, CaptureSettings, StillSystem, on_still, on_core, lock_still, unlock_still,
}

abbrev pub still_jpeg : ℕ
still_jpeg = 0

abbrev pub still_format_count : ℕ
still_format_count = 4

abbrev pub still_size_count : ℕ
still_size_count = 4

abbrev pub capture_continuous : ℕ
capture_continuous = 1

abbrev pub capture_bracket : ℕ
capture_bracket = 4

abbrev pub capture_mode_count : ℕ
capture_mode_count = 6

abbrev pub focus_mode_count : ℕ
focus_mode_count = 4

abbrev pub metering_mode_count : ℕ
metering_mode_count = 4

-- The enums are unsigned, so the tests `>= 0` always hold.
abbrev pub still_format_valid : ℕ → Bool
still_format_valid format = ltb format still_format_count

abbrev pub still_size_valid : ℕ → Bool
still_size_valid size = ltb size still_size_count

abbrev pub capture_mode_valid : ℕ → Bool
capture_mode_valid mode = ltb mode capture_mode_count

unfoldable pub validate_quality : Option ImageQuality → ℤ
validate_quality none = einval
validate_quality (some q) =
    if not (still_format_valid q.format)
    then einval
    else if not (still_size_valid q.size)
    then einval
    else if q.format == still_jpeg && (ltb q.jpeg_quality 1 || ltb 10 q.jpeg_quality)
    then einval
    else success

-- The checks under `mode == CANON_R5_CAPTURE_CONTINUOUS`, and those for bracketing.
unfoldable pub validate_continuous : CaptureSettings → ℤ
validate_continuous s =
    if s.mode == capture_continuous
    then (if ltb s.continuous_fps 1 || ltb 30 s.continuous_fps
        then einval
        else if ltb s.burst_count 1 || ltb 999 s.burst_count
        then einval
        else success)
    else success

abbrev pub is_zero : ℤ → Bool
is_zero (pos n) = n == 0
is_zero _ = false

unfoldable pub validate_bracket : CaptureSettings → ℤ
validate_bracket s =
    if s.mode == capture_bracket
    then (if ltb s.bracket_shots 3 || (ltb 9 s.bracket_shots || s.bracket_shots % 2 == 0)
        then einval
        else if lt_int s.bracket_step (minus 3)
            || (lt_int (pos 3) s.bracket_step || is_zero s.bracket_step)
        then einval
        else success)
    else success

unfoldable pub validate_capture_settings : Option CaptureSettings → ℤ
validate_capture_settings none = einval
validate_capture_settings (some s) =
    if not (capture_mode_valid s.mode)
    then einval
    else if not (ltb s.focus_mode focus_mode_count)
    then einval
    else if not (ltb s.metering_mode metering_mode_count)
    then einval
    else if ltb s.iso 50 || ltb 102400 s.iso
    then einval
    else if failed (validate_continuous s)
    then einval
    else validate_bracket s

module _ {E : Type 0} where
  unfoldable pub set_quality : Ptr → Option ImageQuality → M (StillSystem E) ℤ
  set_quality null quality = return einval
  set_quality valid none = return einval
  set_quality valid (some q) =
      if failed (validate_quality (some q)) then return (validate_quality (some q)) else do
        lock_still
        ret ← on_core (ptp_set_image_quality valid q.format q.size q.jpeg_quality)
        (if failed ret then return tt else modify (on_still (λ d. record d { quality = q })))
        unlock_still
        return ret

  -- With what is written to `*quality`.
  unfoldable pub get_quality : Ptr → Ptr → M (StillSystem E) (ℤ × Option ImageQuality)
  get_quality still quality =
      if is_null still || is_null quality
      then return (einval, none)
      else do lock_still; s ← get; unlock_still; return (success, some s.still.quality)

  unfoldable pub set_capture_settings : Ptr → Option CaptureSettings → M (StillSystem E) ℤ
  set_capture_settings null settings = return einval
  set_capture_settings valid none = return einval
  set_capture_settings valid (some v) =
      if failed (validate_capture_settings (some v))
      then return (validate_capture_settings (some v))
      else do
        lock_still
        modify (on_still (λ d. record d { settings = v }))
        ret ←
            (if v.mode == capture_bracket
              then on_core (ptp_set_bracketing valid v.bracket_shots v.bracket_step)
              else return success)
        unlock_still
        return ret

  unfoldable pub get_capture_settings : Ptr → Ptr → M (StillSystem E) (ℤ × Option CaptureSettings)
  get_capture_settings still settings =
      if is_null still || is_null settings
      then return (einval, none)
      else do lock_still; s ← get; unlock_still; return (success, some s.still.settings)
