-- ===== src/Still/Capture.antt =====
-- Taking pictures in drivers/still/canon-r5-still.c: single shots, bursts, and continuous shooting
-- with its timer. `hz` is the number of jiffies in a second, which the kernel's configuration sets.
use canon_r.Prelude.{
  ℕ, zero, suc, ◌+◌, ◌/◌, ◌%◌, ◌^◌, true, false, not, ◌||◌, none, some, ltb, ◌==◌, if◌then◌else◌, ℤ,
  add_int, sub_int, failed, success, einval, ebusy, M, ◌>>=◌, ◌>>◌, return, get, modify, crash,
  div_by_zero, Ptr, null, valid,
}
use canon_r.Ptp.{TransportOps}
use canon_r.Ptp.Still.{ptp_capture_single, ptp_capture_burst}
use canon_r.Still.{StillDevice, StillSystem, on_still, on_core, lock_still, unlock_still}

-- `capture_active` is set and the pictures are counted, and the reverse of it.
abbrev pub begin_capture : ℕ → StillDevice → StillDevice
begin_capture n d = record d {
  capture_active = true;
  pending_captures = add_int d.pending_captures n;
}

abbrev pub abort_capture : ℕ → StillDevice → StillDevice
abort_capture n d = record d {
  capture_active = false;
  pending_captures = sub_int d.pending_captures n;
}

module _ {E : Type 0} (hz : ℕ) where
  -- mod_timer(&still->continuous_timer, jiffies + HZ / fps).
  abbrev pub arm_timer : ℕ → M (StillSystem E) (Unit {0})
  arm_timer zero = crash div_by_zero
  arm_timer (suc n) = modify (on_still (λ d. record d { timer = some (hz / suc n) }))

module _ {E : Type 0} where
  unfoldable pub capture_single : TransportOps E → Ptr → M (StillSystem E) ℤ
  capture_single ops null = return einval
  capture_single ops valid = do
    lock_still
    s ← get
    if s.still.capture_active then (do unlock_still; return ebusy) else do
      modify (on_still (begin_capture 1))
      ret ← on_core (ptp_capture_single ops valid)
      if failed ret then (do modify (on_still (abort_capture 1)); unlock_still; return ret) else do
        modify (on_still (λ d. record d { capture_queued = true }))
        unlock_still
        return success

  unfoldable pub capture_burst : TransportOps E → Ptr → ℕ → M (StillSystem E) ℤ
  capture_burst ops null count = return einval
  capture_burst ops valid count = if count == 0 || ltb 999 count then return einval else do
    lock_still
    s ← get
    if s.still.capture_active then (do unlock_still; return ebusy) else do
      modify (on_still (begin_capture count))
      ret ← on_core (ptp_capture_burst ops valid count)
      if failed ret
          then (do modify (on_still (abort_capture count)); unlock_still; return ret)
          else do unlock_still; return success

  unfoldable pub start_continuous : ℕ → TransportOps E → Ptr → M (StillSystem E) ℤ
  start_continuous hz ops null = return einval
  start_continuous hz ops valid = do
    lock_still
    s ← get
    if s.still.continuous_active || s.still.capture_active
        then (do unlock_still; return ebusy)
        else do
          modify (
              on_still (λ d. record d {
                continuous_active = true;
                continuous_count = 0;
                capture_active = true;
              }))
          ret ← on_core (ptp_capture_single ops valid)
          if failed ret
              then (do
                modify
                    (on_still (λ d. record d { continuous_active = false; capture_active = false }))
                unlock_still
                return ret)
              else do arm_timer hz s.still.settings.continuous_fps; unlock_still; return success

  unfoldable pub stop_continuous : Ptr → M (StillSystem E) ℤ
  stop_continuous null = return einval
  stop_continuous valid = do
    lock_still
    s ← get
    if not s.still.continuous_active then (do unlock_still; return einval) else do
      modify (
          on_still
            (λ d. record d { continuous_active = false; capture_active = false; timer = none }))
      unlock_still
      return success

  -- The timer has fired. It takes no mutex.
  unfoldable pub continuous_timer : ℕ → TransportOps E → M (StillSystem E) (Unit {0})
  continuous_timer hz ops = do
    modify (on_still (λ d. record d { timer = none }))
    s ← get
    if not s.still.continuous_active then return tt else do
      ret ← on_core (ptp_capture_single ops valid)
      if failed ret then modify (on_still (λ d. record d { continuous_active = false })) else do
        modify (on_still (λ d. record d { continuous_count = (d.continuous_count + 1) % 2 ^ 32 }))
        t ← get
        if ltb t.still.continuous_count t.still.settings.burst_count
            then arm_timer hz t.still.settings.continuous_fps
            else modify (on_still (λ d. record d { continuous_active = false }))
