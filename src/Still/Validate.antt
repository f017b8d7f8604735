-- ===== src/Still/Validate.antt =====
-- Exactly which settings drivers/still/canon-r5-still.c accepts, and what setting them does.
use canon_r.Prelude.{
  ℕ, zero, suc, ◌||◌, ◌%◌, ◌≤◌, ◌≡◌, ◌↔◌, refl, inl, inr, Bool, false, some, arith, ◌==◌,
  if◌then◌else◌, ℤ, pos, negsuc, minus, lt_int, failed, success, ◌>>=◌, done, valid, Bool-cases,
}
use canon_r.Ptp.Still.{ptp_set_image_quality, ptp_set_bracketing}
use canon_r.Still.{ImageQuality, CaptureSettings, StillSystem, on_still}
use canon_r.Still.Settings.{
  still_jpeg, capture_continuous, capture_bracket, validate_quality, validate_continuous,
  validate_bracket, validate_capture_settings, set_quality, get_quality, set_capture_settings,
  get_capture_settings, is_zero,
}

-- The known formats and sizes are those of at most 3.
pub record QualityOk (q : ImageQuality) : Type 0 where
  pub format : q.format ≤ 3
  pub size : q.size ≤ 3
  pub jpeg : q.format ≡ still_jpeg → (1 ≤ q.jpeg_quality) × (q.jpeg_quality ≤ 10)

-- Steps of one to three stops, up or down.
pub data StepOk : ℤ → Type 0 where
  up : (n : ℕ) → n ≤ 2 → StepOk (pos (suc n))
  down : (n : ℕ) → n ≤ 2 → StepOk (negsuc n)

pub record SettingsOk (s : CaptureSettings) : Type 0 where
  pub mode : s.mode ≤ 5
  pub focus_mode : s.focus_mode ≤ 3
  pub metering_mode : s.metering_mode ≤ 3
  pub iso : (50 ≤ s.iso) × (s.iso ≤ 102400)
  pub continuous :
      s.mode ≡ capture_continuous
      → ((1 ≤ s.continuous_fps) × (s.continuous_fps ≤ 30))
        × ((1 ≤ s.burst_count) × (s.burst_count ≤ 999))
  pub bracket :
      s.mode ≡ capture_bracket
      → ((3 ≤ s.bracket_shots) × (s.bracket_shots ≤ 9))
        × ((s.bracket_shots % 2 ≡ 1) × StepOk s.bracket_step)

quality_accepted : (q : ImageQuality) → validate_quality (some q) ≡ success → QualityOk q
unfolding validate_quality
quality_accepted q h = record {
  format = ground arith;
  size = ground arith;
  jpeg = λ e. (ground arith, ground arith);
}

ok_quality : (q : ImageQuality) → QualityOk q → validate_quality (some q) ≡ success
unfolding validate_quality
ok_quality q k = ground (arith, k.format, k.size, k.jpeg)

-- Accepted is exactly a format and a size of at most 3, and for JPEG a quality of 1 to 10.
pub validate_quality-QualityOk :
    (q : ImageQuality) → (validate_quality (some q) ≡ success) ↔ QualityOk q
validate_quality-QualityOk q = (quality_accepted q, ok_quality q)

abbrev step_refused : ℤ → Bool
step_refused k = lt_int k (minus 3) || (lt_int (pos 3) k || is_zero k)

step_accepted : (k : ℤ) → step_refused k ≡ false → StepOk k
step_accepted (pos zero) h = cc
step_accepted (pos (suc n)) h = up n (ground arith)
step_accepted (negsuc n) h = down n (ground arith)

ok_step : (k : ℤ) → StepOk k → step_refused k ≡ false
ok_step _ (up n h) = ground (arith, h)
ok_step _ (down n h) = ground (arith, h)

continuous_accepted :
    (s : CaptureSettings)
    → failed (validate_continuous s) ≡ false
    → s.mode ≡ capture_continuous
    → ((1 ≤ s.continuous_fps) × (s.continuous_fps ≤ 30))
      × ((1 ≤ s.burst_count) × (s.burst_count ≤ 999))
unfolding validate_continuous
continuous_accepted s h e = ((ground arith, ground arith), (ground arith, ground arith))

bracket_accepted :
    (s : CaptureSettings)
    → validate_bracket s ≡ success
    → s.mode ≡ capture_bracket
    → ((3 ≤ s.bracket_shots) × (s.bracket_shots ≤ 9))
      × ((s.bracket_shots % 2 ≡ 1) × StepOk s.bracket_step)
unfolding validate_bracket
bracket_accepted s h e =
    ((ground arith, ground arith), (ground arith, step_accepted s.bracket_step (ground arith)))

settings_accepted :
    (s : CaptureSettings) → validate_capture_settings (some s) ≡ success → SettingsOk s
unfolding validate_capture_settings
settings_accepted s h = record {
  mode = ground arith;
  focus_mode = ground arith;
  metering_mode = ground arith;
  iso = (ground arith, ground arith);
  continuous = continuous_accepted s (ground arith);
  bracket = bracket_accepted s (ground arith);
}

ok_continuous : (s : CaptureSettings) → SettingsOk s → validate_continuous s ≡ success
unfolding validate_continuous
ok_continuous s k = elim (Bool-cases (s.mode == capture_continuous)) [
  | inl e ↦ let r = k.continuous (ground arith) in ground (arith, r.0.0, r.0.1, r.1.0, r.1.1)
  | inr e ↦ rw e refl
]

ok_bracket : (s : CaptureSettings) → SettingsOk s → validate_bracket s ≡ success
unfolding validate_bracket
ok_bracket s k = elim (Bool-cases (s.mode == capture_bracket)) [
  | inl e ↦
      let r = k.bracket (ground arith) in
      ground (arith, r.0.0, r.0.1, r.1.0, ok_step s.bracket_step r.1.1)
  | inr e ↦ rw e refl
]

ok_settings : (s : CaptureSettings) → SettingsOk s → validate_capture_settings (some s) ≡ success
unfolding validate_capture_settings
ok_settings s k = ground (
  arith,
  k.mode,
  k.focus_mode,
  k.metering_mode,
  k.iso.0,
  k.iso.1,
  ok_continuous s k,
  ok_bracket s k,
)

-- Accepted is exactly what is in range: the three enums, ISO 50 to 102400; in continuous mode 1 to
-- 30 frames a second and 1 to 999 pictures; in bracket mode an odd number of 3 to 9 shots, apart by
-- one to three stops up or down.
pub validate_capture_settings-SettingsOk :
    (s : CaptureSettings) → (validate_capture_settings (some s) ≡ success) ↔ SettingsOk s
validate_capture_settings-SettingsOk s = (settings_accepted s, ok_settings s)

module _ {E : Type 0} where
  abbrev pub with_settings : CaptureSettings → StillSystem E → StillSystem E
  with_settings v = on_still (λ d. record d { settings = v })

  -- With the mutex free, what is read after setting is what was set if it was acceptable; if not,
  -- the settings are those of before. Nothing else has changed, and the mutex is free.
  pub get_capture_settings-set_capture_settings :
      (s : StillSystem E) (v : CaptureSettings)
      → s.still.lock ≡ false
      → (set_capture_settings valid (some v) >>= λ _. get_capture_settings valid valid) s ≡ (
          if failed (validate_capture_settings (some v))
          then done (success, some s.still.settings) s
          else done (success, some v) (with_settings v s))
  unfolding set_capture_settings get_capture_settings ptp_set_bracketing
  get_capture_settings-set_capture_settings s v h =
      elim (Bool-cases (failed (validate_capture_settings (some v)))) [
        | inl f ↦ rw (f, h) refl
        | inr f ↦ elim (Bool-cases (v.mode == capture_bracket)) [
          | inl b ↦ rw (f, h, b) refl
          | inr b ↦ rw (f, h, b) refl
        ]
      ]

  -- With the mutex free, the image quality that is read after setting it is what was set if it
  -- was acceptable; if not, it is that of before. Nothing else has changed, and the mutex is
  -- free.
  pub get_quality-set_quality :
      (s : StillSystem E) (q : ImageQuality)
      → s.still.lock ≡ false
      → (set_quality valid (some q) >>= λ _. get_quality valid valid) s ≡ (
          if failed (validate_quality (some q))
          then done (success, some s.still.quality) s
          else done (success, some q) (on_still (λ d. record d { quality = q }) s))
  unfolding set_quality get_quality ptp_set_image_quality
  get_quality-set_quality s q h = elim (Bool-cases (failed (validate_quality (some q)))) [
    | inl f ↦ rw (f, h) refl
    | inr f ↦ rw (f, h) refl
  ]
