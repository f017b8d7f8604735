-- ===== src/Still/Starting.antt =====
-- How continuous shooting starts in drivers/still/canon-r5-still.c.
use canon_r.Prelude.{
  ℕ, suc, ◌/◌, ◌≡◌, refl, sym, ◌∙◌, inl, inr, true, false, [], some, arith, ◌==◌, if◌then◌else◌, ℤ,
  failed, success, M, ◌>>=◌, ◌>>◌, return, modify, done, fault, div_by_zero, subst, Ends, Ends-run,
  Ends-bind, Ends-mono, subst, valid, Bool-cases,
}
use canon_r.Device.{Core}
use canon_r.Ptp.{TransportOps}
use canon_r.Ptp.Transport.{IsTransport}
use canon_r.Ptp.Camera.{op_capture}
use canon_r.Ptp.Still.{ptp_capture_single, ptp_set_bracketing}
use canon_r.Ptp.Requests.{SessionInv, Framed, Checked, checked_command-Ends}
use canon_r.Still.{StillDevice, StillSystem, CaptureSettings, on_still, on_core}
use canon_r.Still.Settings.{validate_capture_settings, set_capture_settings, capture_bracket}
use canon_r.Still.Capture.{arm_timer, start_continuous}
use canon_r.Still.Busy.{Asked, on_core-Ends}
use canon_r.Still.Stuck.{not_failed}

on_core-done :
    {E A B : Type 0} (m : M (Core E) A) (f : A → M (StillSystem E) B) (s : StillSystem E) {a : A}
    {c : Core E}
    → m s.core ≡ done a c
    → (on_core m >>= f) s ≡ f a (record s { core = c })
on_core-done m f s e = rw (e, ◌>>=◌, on_core) refl

module _ {E : Type 0} (hz : ℕ) (ops : TransportOps E) where
  begin_shooting : StillDevice → StillDevice
  begin_shooting d = record d {
    lock = true;
    continuous_active = true;
    continuous_count = 0;
    capture_active = true;
  }

  after_first : ℕ → ℤ → M (StillSystem E) ℤ
  after_first fps ret =
      if failed ret
      then (do
        modify (on_still (λ d. record d { continuous_active = false; capture_active = false }))
        modify (on_still (λ d. record d { lock = false }))
        return ret)
      else do arm_timer hz fps; modify (on_still (λ d. record d { lock = false })); return success

  start-run :
      (s : StillSystem E)
      → s.still.lock ≡ false
      → s.still.capture_active ≡ false
      → s.still.continuous_active ≡ false
      → start_continuous hz ops valid s
        ≡ (on_core (ptp_capture_single ops valid) >>= after_first s.still.settings.continuous_fps)
            (on_still begin_shooting s)
  unfolding start_continuous begin_shooting after_first
  start-run s hl ha hc = rw (hl, hc, ha) refl

  start-eq :
      (s : StillSystem E) (c' : Core E)
      → s.still.lock ≡ false
      → s.still.capture_active ≡ false
      → s.still.continuous_active ≡ false
      → s.still.settings.continuous_fps ≡ 0
      → ptp_capture_single ops valid s.core ≡ done success c'
      → start_continuous hz ops valid s ≡ fault div_by_zero
  unfolding begin_shooting after_first
  start-eq s c' hl ha hc hf h =
      start-run s hl ha hc
      ∙ on_core-done (ptp_capture_single ops valid) (after_first s.still.settings.continuous_fps)
          (on_still begin_shooting s) h
      ∙ rw hf refl

  -- If accepted settings have 0 frames a second, then continuous shooting of an idle driver
  -- that is given them divides by zero once the camera took the first picture.
  pub start_continuous-div_by_zero :
      (s : StillSystem E) (v : CaptureSettings) (c' : Core E)
      → validate_capture_settings (some v) ≡ success
      → v.continuous_fps ≡ 0
      → s.still.lock ≡ false
      → s.still.capture_active ≡ false
      → s.still.continuous_active ≡ false
      → ptp_capture_single ops valid s.core ≡ done success c'
      → (set_capture_settings valid (some v) >>= λ _. start_continuous hz ops valid) s
        ≡ fault div_by_zero
  unfolding set_capture_settings ptp_set_bracketing
  start_continuous-div_by_zero s v c' hv hf hl ha hc h =
      elim (Bool-cases (v.mode == capture_bracket)) [
        | inl b ↦ rw (hv, hl, b) (start-eq _ c' refl ha hc hf h)
        | inr b ↦ rw (hv, hl, b) (start-eq _ c' refl ha hc hf h)
      ]

abbrev pub launched : ℕ → ℕ → ℤ → StillDevice → StillDevice
launched hz fps ret d = if failed ret then record d { continuous_count = 0 } else record d {
  continuous_active = true;
  continuous_count = 0;
  capture_active = true;
  timer = some (hz / suc fps);
}

rested :
    (d : StillDevice)
    → d.lock ≡ false
    → d.capture_active ≡ false
    → d.continuous_active ≡ false
    → record d {
      lock = false;
      capture_active = false;
      continuous_active = false;
      continuous_count = 0;
    }
      ≡ record d { continuous_count = 0 }
rested d hl ha hc i = record d {
  lock = sym hl i;
  capture_active = sym ha i;
  continuous_active = sym hc i;
  continuous_count = 0;
}

running :
    (hz fps : ℕ) (d : StillDevice)
    → d.lock ≡ false
    → record d {
      lock = false;
      continuous_active = true;
      continuous_count = 0;
      capture_active = true;
      timer = some (hz / suc fps);
    }
      ≡ record d {
        continuous_active = true;
        continuous_count = 0;
        capture_active = true;
        timer = some (hz / suc fps);
      }
running hz fps d hl i = record d {
  lock = sym hl i;
  continuous_active = true;
  continuous_count = 0;
  capture_active = true;
  timer = some (hz / suc fps);
}

module _ {E : Type 0} (hz : ℕ) (ops : TransportOps E) where
  first-eq :
      (fps : ℕ) (ret : ℤ) (d : StillDevice) (c : Core E)
      → d.lock ≡ false
      → d.capture_active ≡ false
      → d.continuous_active ≡ false
      → Ends
          (λ ret' s'. (ret' ≡ ret) × (s'.still ≡ launched hz fps ret d) × (s'.core ≡ c))
          (after_first hz ops (suc fps) ret (record { still = begin_shooting hz ops d; core = c }))
  unfolding after_first begin_shooting
  first-eq fps ret d c hl ha hc = elim (Bool-cases (failed ret)) [
    | inl f ↦ rw (f, Ends) (refl, rw f (rested d hl ha hc), refl)
    | inr f ↦ rw (f, Ends) (sym (not_failed ret f), rw f (running hz fps d hl), refl)
  ]

module _ {E : Type 0} (Good : E → Type 0) where
  -- The status is the core driver's. Continuous shooting is on, with no picture counted and the timer armed, if the camera took the
  -- first one. If not, the count is 0 and the rest of the driver's data are as before.
  abbrev pub Launched : TransportOps E → ℕ → ℕ → StillSystem E → ℤ → StillSystem E → Type 0
  Launched ops hz fps s ret s' =
      Framed Good s.core s'.core
      × (ptp_capture_single ops valid s.core ≡ done ret s'.core)
      × (s'.still ≡ launched hz fps ret s.still)

module _ {E : Type 0} {Good : E → Type 0} (hz : ℕ) (ops : TransportOps E)
    (t : IsTransport Good ops) where
  -- Starting continuous shooting of an idle driver, at one picture a second at least and
  -- between two operations of the PTP layer, always ends with the status that the core driver
  -- gives: the camera took the first picture, and the driver is shooting with the timer armed;
  -- or the start fails, and nothing but the count of pictures has changed. Of the device only
  -- the transaction counter has moved.
  pub start_continuous-Launched :
      (fps : ℕ) (s : StillSystem E)
      → s.still.settings.continuous_fps ≡ suc fps
      → s.still.lock ≡ false
      → s.still.capture_active ≡ false
      → s.still.continuous_active ≡ false
      → SessionInv s.core.dev
      → Good s.core.env
      → Ends (Launched Good ops hz fps s) (start_continuous hz ops valid s)
  unfolding ptp_capture_single begin_shooting
  start_continuous-Launched fps s hf hl ha hc v g = rw (start-run hz ops s hl ha hc) (
      Ends-bind
        (λ ret s'.
          Asked Good (ptp_capture_single ops valid) op_capture s.core ret s'.core
          × (s'.still ≡ begin_shooting hz ops s.still))
        (Launched Good ops hz fps s) _ (after_first hz ops s.still.settings.continuous_fps)
        (on_core-Ends (Asked Good (ptp_capture_single ops valid) op_capture s.core)
          (ptp_capture_single ops valid) (on_still (begin_shooting hz ops) s)
          (Ends-run (Checked Good op_capture s.core) _
            (checked_command-Ends ops t op_capture [] s.core v g (omega arith))))
        answered)
    where
      answered :
          (ret : ℤ) (s1 : StillSystem E)
          → Asked Good (ptp_capture_single ops valid) op_capture s.core ret s1.core
            × (s1.still ≡ begin_shooting hz ops s.still)
          → Ends
              (Launched Good ops hz fps s)
              (after_first hz ops s.still.settings.continuous_fps ret s1)
      answered ret s1 (k, e) =
          let same : s1 ≡ record { still = begin_shooting hz ops s.still; core = s1.core } =
            λ i. record { still = e i; core = s1.core } in
          rw same (
            subst
              (λ n. Ends (Launched Good ops hz fps s) (
                after_first hz ops n ret
                  (record { still = begin_shooting hz ops s.still; core = s1.core })))
              (sym hf)
              (Ends-mono
                (λ ret' s'.
                  (ret' ≡ ret) × (s'.still ≡ launched hz fps ret s.still) × (s'.core ≡ s1.core))
                (Launched Good ops hz fps s) _ (first-eq hz ops fps ret s.still s1.core hl ha hc)
                (λ ret' s' (a, b, x).
                  (subst (Framed Good s.core) (sym x) k.0.0, rw (a, x) k.1, rw a b))))
