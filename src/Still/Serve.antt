-- ===== src/Still/Serve.antt =====
-- The operations of drivers/still/canon-r5-still.c as requests, and how a driver that took a picture
-- answers them.
use canon_r.Prelude.{
  Bool, ℕ, ◌≡◌, true, false, ◌||◌, List, [], ◌∷◌, Option, none, some, ltb, ◌==◌, if◌then◌else◌, ℤ,
  pos, success, einval, ebusy, M, ◌>>=◌, ◌>>◌, return, Ptr, valid,
}
use canon_r.Ptp.{TransportOps}
use canon_r.Still.{StillDevice, StillSystem, ImageQuality, CaptureSettings}
use canon_r.Still.Settings.{
  validate_quality, validate_capture_settings, set_quality, set_capture_settings,
}
use canon_r.Still.Capture.{
  capture_single, capture_burst, start_continuous, stop_continuous, continuous_timer,
}
use canon_r.Still.Images.{capture_work, get_next_image}
use canon_r.Still.Autofocus.{af_work, autofocus, manual_focus, reset_stats}

-- A call of the driver's user that changes its state, the timer that fires, or a work that runs, the
-- capture work with what the allocators give it.
pub data StillRequest : Type 0 where
  quality_to : Option ImageQuality → StillRequest
  settings_to : Option CaptureSettings → StillRequest
  shoot_single shoot_continuous stop_shooting timer_fires : StillRequest
  shoot_burst : ℕ → StillRequest
  work_runs : Option ℕ → Ptr → StillRequest
  ask_focus focus_runs read_image clear_stats : StillRequest
  focus_at : ℕ → StillRequest

-- Whether a reader was given an image.
abbrev given : Option ℕ → ℤ
given none = pos 0
given (some a) = pos 1

module _ {E : Type 0} where
  unfoldable pub still_serve : ℕ → TransportOps E → StillRequest → M (StillSystem E) ℤ
  still_serve hz ops (quality_to q) = set_quality valid q
  still_serve hz ops (settings_to v) = set_capture_settings valid v
  still_serve hz ops shoot_single = capture_single ops valid
  still_serve hz ops shoot_continuous = start_continuous hz ops valid
  still_serve hz ops stop_shooting = stop_continuous valid
  still_serve hz ops timer_fires = do continuous_timer hz ops; return success
  still_serve hz ops (shoot_burst n) = capture_burst ops valid n
  still_serve hz ops (work_runs image buffer) = do capture_work image buffer; return success
  still_serve hz ops ask_focus = autofocus valid
  still_serve hz ops focus_runs = do af_work ops; return success
  still_serve hz ops read_image = do image ← get_next_image valid; return (given image)
  still_serve hz ops clear_stats = do reset_stats valid; return success
  still_serve hz ops (focus_at position) = manual_focus valid position

  unfoldable pub still_serve_all :
      ℕ → TransportOps E → List StillRequest → M (StillSystem E) (List ℤ)
  still_serve_all hz ops [] = return []
  still_serve_all hz ops (q ∷ qs) = do
    ret ← still_serve hz ops q
    rets ← still_serve_all hz ops qs
    return (ret ∷ rets)

-- A picture was taken, and continuous shooting is off.
pub record Busy (d : StillDevice) : Type 0 where
  pub idle : d.lock ≡ false
  pub active : d.capture_active ≡ true
  pub single : d.continuous_active ≡ false

-- The focus is not locked and no image is queued, as it is from the driver's start on.
abbrev pub Idle : StillDevice → Type 0
Idle d = (d.focus.lock ≡ false) × (d.image_queue ≡ [])

-- Whether one of the requests is a run of the autofocus work, the only one that asks the camera.
abbrev pub asks : StillRequest → Bool
asks (quality_to q) = false
asks (settings_to v) = false
asks shoot_single = false
asks shoot_continuous = false
asks stop_shooting = false
asks timer_fires = false
asks (shoot_burst n) = false
asks (work_runs image buffer) = false
asks ask_focus = false
asks focus_runs = true
asks read_image = false
asks clear_stats = false
asks (focus_at position) = false

abbrev pub any_asks : List StillRequest → Bool
any_asks [] = false
any_asks (q ∷ qs) = asks q || any_asks qs

-- The answer to a request of a busy driver.
unfoldable pub refusal : StillRequest → ℤ
refusal (quality_to q) = validate_quality q
refusal (settings_to v) = validate_capture_settings v
refusal shoot_single = ebusy
refusal shoot_continuous = ebusy
refusal stop_shooting = einval
refusal timer_fires = success
refusal (shoot_burst n) = if n == 0 || ltb 999 n then einval else ebusy
refusal (work_runs image buffer) = success
refusal ask_focus = success
refusal focus_runs = success
refusal read_image = pos 0
refusal clear_stats = success
refusal (focus_at position) = success
