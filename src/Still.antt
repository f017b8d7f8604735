-- ===== src/Still.antt =====
-- The still capture driver, drivers/still/canon-r5-still.c: the structures of
-- include/still/canon-r5-still.h, and the access to them. The driver sits on the device of
-- `canon_r.Device`, whose operations it runs by `on_core`.
pub mod Settings
pub mod Capture
pub mod Images
pub mod Autofocus
pub mod Validate
pub mod Busy
pub mod Serve
pub mod Stuck
pub mod Continuous
pub mod Starting
pub mod Fetch
pub mod Focusing
use canon_r.Prelude.{
  ℕ, Bool, true, false, List, [], Option, none, some, if◌then◌else◌, ℤ, pos, M, Outcome, done,
  fault, deadlock, modify, Ptr, null,
}
use canon_r.Device.{Core}

-- The enums are numbers: a caller may pass any.
pub record ImageQuality : Type 0 where
  pub format : ℕ
  pub size : ℕ
  pub jpeg_quality : ℕ  -- u8
  pub raw_plus_jpeg : Bool

pub record Fraction : Type 0 where
  pub numerator : ℕ  -- u32
  pub denominator : ℕ  -- u32

pub record CaptureSettings : Type 0 where
  pub mode : ℕ
  pub focus_mode : ℕ
  pub metering_mode : ℕ
  pub iso : ℕ  -- u32
  pub shutter_speed : Fraction
  pub aperture : Fraction
  pub exposure_compensation : ℤ  -- s32
  pub continuous_fps : ℕ  -- u8
  pub burst_count : ℕ  -- u16
  pub bracket_shots : ℕ  -- u8
  pub bracket_step : ℤ  -- s8
  pub timer_delay : ℕ  -- u8

-- `struct canon_r5_captured_image`, with the metadata that is filled in.
pub record CapturedImage : Type 0 where
  pub image_data : Ptr
  pub data_size : ℕ
  pub file_size : ℕ
  pub capture_settings : CaptureSettings
  pub ready : Bool
  pub ref_count : ℕ

pub record StillStats : Type 0 where
  pub images_captured : ℕ  -- u64, as are the others
  pub images_failed : ℕ
  pub total_bytes : ℕ
  pub af_operations : ℕ
  pub af_success : ℕ

pub record Focus : Type 0 where
  pub lock : Bool  -- the mutex is held
  pub af_active : Bool
  pub af_complete : Bool
  pub af_queued : Bool  -- `af_work` waits on the system's workqueue
  pub focus_position : ℕ  -- u32
  pub focus_achieved : Bool

-- `struct canon_r5_still_device`. An image is known by its number; `allocated` has the live ones.
pub record StillDevice : Type 0 where
  pub lock : Bool  -- the mutex is held
  pub initialized : Bool
  pub capture_active : Bool
  pub quality : ImageQuality
  pub settings : CaptureSettings
  pub allocated : ℕ → Option CapturedImage
  pub captured_images : List ℕ
  pub image_queue : List ℕ
  pub pending_captures : ℤ  -- the atomic counter, far from the ends of its range
  pub capture_queued : Bool  -- `capture_work` waits on `capture_wq`
  pub timer : Option ℕ  -- the jiffies that `continuous_timer` was armed for
  pub continuous_active : Bool
  pub continuous_count : ℕ  -- u32
  pub stats : StillStats
  pub focus : Focus

-- The driver's private data with the device it belongs to.
pub record StillSystem (E : Type 0) : Type 0 where
  pub still : StillDevice
  pub core : Core E

module _ {E : Type 0} where
  abbrev pub on_still : (StillDevice → StillDevice) → StillSystem E → StillSystem E
  on_still f s = record s { still = f s.still }

  -- A call of the core driver.
  abbrev pub on_core : {A : Type 0} → M (Core E) A → M (StillSystem E) A
  on_core m s = elim (m s.core) [ done a c ↦ done a (record s { core = c }) | fault x ↦ fault x ]

  abbrev pub lock_still : M (StillSystem E) (Unit {0})
  lock_still s =
      if s.still.lock then fault deadlock else done tt (on_still (λ d. record d { lock = true }) s)

  abbrev pub unlock_still : M (StillSystem E) (Unit {0})
  unlock_still = modify (on_still (λ d. record d { lock = false }))

  abbrev pub on_focus : (Focus → Focus) → StillSystem E → StillSystem E
  on_focus f = on_still (λ d. record d { focus = f (d.focus) })

  abbrev pub lock_focus : M (StillSystem E) (Unit {0})
  lock_focus s =
      if s.still.focus.lock
      then fault deadlock
      else done tt (on_focus (λ f. record f { lock = true }) s)

  abbrev pub unlock_focus : M (StillSystem E) (Unit {0})
  unlock_focus = modify (on_focus (λ f. record f { lock = false }))
