-- ===== src/Still/Continuous.antt =====
-- Continuous shooting in drivers/still/canon-r5-still.c: how the timer goes on with it, and how it
-- ends.
use canon_r.Prelude.{
  ℕ, zero, suc, ◌+◌, ◌/◌, ◌%◌, ◌^◌, ◌≤◌, ◌<◌, ◌≡◌, refl, sym, ◌⊎◌, inl, inr, true, false, [], none,
  some, arith, ltb, if◌then◌else◌, ℤ, failed, M, ◌>>=◌, ◌>>◌, return, modify, done, subst, ltb→lt,
  Ends, done-Ends, Ends-run, Ends-bind, valid, Bool-cases,
}
use canon_r.Device.{Core}
use canon_r.Ptp.{TransportOps}
use canon_r.Ptp.Transport.{IsTransport}
use canon_r.Ptp.Camera.{op_capture}
use canon_r.Ptp.Still.{ptp_capture_single}
use canon_r.Ptp.Requests.{SessionInv, Framed, Framed-Inv, Checked, checked_command-Ends}
use canon_r.Still.{StillDevice, StillSystem, on_still, on_core}
use canon_r.Still.Capture.{arm_timer, continuous_timer}
use canon_r.Still.Busy.{on_core-Ends}
use canon_r.Still.Serve.{Busy}

-- What a tick does to the driver's data when the camera took the picture, and when not.
abbrev pub ticked : ℕ → ℕ → StillDevice → StillDevice
ticked hz fps d =
    let n = (d.continuous_count + 1) % 2 ^ 32 in
    if ltb n d.settings.burst_count
    then record d { continuous_count = n; timer = some (hz / suc fps) }
    else record d { continuous_count = n; timer = none; continuous_active = false }

abbrev pub given_up : StillDevice → StillDevice
given_up d = record d { timer = none; continuous_active = false }

-- What comes of the driver's data `d` when the status is `ret`.
abbrev pub after_tick : ℕ → ℕ → ℤ → StillDevice → StillDevice
after_tick hz fps ret d = if failed ret then given_up d else ticked hz fps d

module _ {E : Type 0} where
  -- The timer when the core driver has answered.
  abbrev rest : ℕ → ℤ → M (StillSystem E) (Unit {0})
  rest hz ret =
      if failed ret then modify (on_still (λ d. record d { continuous_active = false })) else (λ t.
        (if ltb ((t.still.continuous_count + 1) % 2 ^ 32) t.still.settings.burst_count
            then arm_timer hz t.still.settings.continuous_fps
            else modify (on_still (λ d. record d { continuous_active = false })))
          (on_still (λ d. record d { continuous_count = (d.continuous_count + 1) % 2 ^ 32 }) t))

  abbrev fired : StillSystem E → StillSystem E
  fired = on_still (λ d. record d { timer = none })

  tick-eq :
      (hz : ℕ) (ops : TransportOps E) (s : StillSystem E)
      → s.still.continuous_active ≡ true
      → continuous_timer hz ops s ≡ (on_core (ptp_capture_single ops valid) >>= rest hz) (fired s)
  unfolding continuous_timer
  tick-eq hz ops s h = rw h refl

  rest-eq :
      (hz fps : ℕ) (ret : ℤ) (d : StillDevice) (c : Core E)
      → d.settings.continuous_fps ≡ suc fps
      → rest hz ret (record { still = record d { timer = none }; core = c })
        ≡ done tt (record { still = after_tick hz fps ret d; core = c })
  rest-eq hz fps ret d c h = elim (Bool-cases (failed ret)) [
    | inl f ↦ rw f refl
    | inr f ↦ elim (Bool-cases (ltb ((d.continuous_count + 1) % 2 ^ 32) d.settings.burst_count)) [
      | inl b ↦ rw (f, b, h) refl
      | inr b ↦ rw (f, b) refl
    ]
  ]

module _ {E : Type 0} (Good : E → Type 0) (ops : TransportOps E) where
  -- The driver's data after a tick, by the status that the core driver gave.
  abbrev pub Ticked : ℕ → ℕ → StillSystem E → StillSystem E → Type 0
  Ticked hz fps s s' =
      Framed Good s.core s'.core
      × ((ret : ℤ) × (ptp_capture_single ops valid s.core ≡ done ret s'.core)
          × (s'.still ≡ after_tick hz fps ret s.still))

  abbrev Asked : Core E → ℤ → Core E → Type 0
  Asked c ret c' = Checked Good op_capture c ret c' × (ptp_capture_single ops valid c ≡ done ret c')

module _ {E : Type 0} {Good : E → Type 0} (ops : TransportOps E) (t : IsTransport Good ops) where
  -- A tick while continuous shooting is on, at one picture a second at least and between two
  -- operations of the PTP layer, always ends. If the status of the command is 0 the picture
  -- counts, and the timer is armed again until the burst is complete; a failure and a complete
  -- burst turn continuous shooting off, without the timer. `capture_active` stays as it is.
  pub continuous_timer-Ticked :
      (hz fps : ℕ) (s : StillSystem E)
      → s.still.settings.continuous_fps ≡ suc fps
      → s.still.continuous_active ≡ true
      → SessionInv s.core.dev
      → Good s.core.env
      → Ends (λ _ s'. Ticked Good ops hz fps s s') (continuous_timer hz ops s)
  unfolding ptp_capture_single
  continuous_timer-Ticked hz fps s hf h v g = rw (tick-eq hz ops s h) (
      Ends-bind (λ ret s'. Asked Good ops s.core ret s'.core × (s'.still ≡ (fired s).still))
        (λ _ s'. Ticked Good ops hz fps s s') _ (rest hz)
        (on_core-Ends (Asked Good ops s.core) (ptp_capture_single ops valid) (fired s) (
          Ends-run (Checked Good op_capture s.core) _
            (checked_command-Ends ops t op_capture [] s.core v g (omega arith))))
        answered)
    where
      answered :
          (ret : ℤ) (s1 : StillSystem E)
          → Asked Good ops s.core ret s1.core × (s1.still ≡ (fired s).still)
          → Ends (λ _ s'. Ticked Good ops hz fps s s') (rest hz ret s1)
      answered ret s1 (k, e) =
          let same : s1 ≡ record { still = (fired s).still; core = s1.core } =
            λ i. record { still = e i; core = s1.core } in
          rw (same, rest-eq hz fps ret s.still s1.core hf) (k.0.0, (ret, k.1, refl))

-- Continuous shooting under way, at `suc fps` pictures a second, with `k` ticks enough to end it.
pub record Shooting (fps k : ℕ) (d : StillDevice) : Type 0 where
  pub idle : d.lock ≡ false
  pub active : d.capture_active ≡ true
  pub rate : d.settings.continuous_fps ≡ suc fps
  pub burst : d.settings.burst_count < 2 ^ 16
  pub left :
      (d.continuous_active ≡ false)
      ⊎ ((d.continuous_active ≡ true)
          × (1 ≤ k)
          × (d.settings.burst_count ≤ d.continuous_count + k)
          × (d.continuous_count < 2 ^ 16))

tick-left :
    (k : ℕ) (d : StillDevice)
    → d.continuous_active ≡ true
    → (d.continuous_active ≡ false)
      ⊎ ((d.continuous_active ≡ true)
          × (1 ≤ suc k)
          × (d.settings.burst_count ≤ d.continuous_count + suc k)
          × (d.continuous_count < 2 ^ 16))
    → (d.settings.burst_count ≤ d.continuous_count + suc k) × (d.continuous_count < 2 ^ 16)
tick-left k d h (inl e) = cc
tick-left k d h (inr (a, b, x, y)) = (x, y)

Shooting-tick :
    (hz fps k : ℕ) (ret : ℤ) (d : StillDevice)
    → Shooting fps (suc k) d
    → d.continuous_active ≡ true
    → Shooting fps k (after_tick hz fps ret d)
Shooting-tick hz fps k ret d w h = elim (Bool-cases (failed ret)) [
  | inl f ↦
      rw f (record {
        idle = w.idle;
        active = w.active;
        rate = w.rate;
        burst = w.burst;
        left = inl refl;
      })
  | inr f ↦ elim (Bool-cases (ltb ((d.continuous_count + 1) % 2 ^ 32) d.settings.burst_count)) [
    | inl b ↦
        let l = tick-left k d h w.left in
        let below = ltb→lt _ _ b in
        rw (f, b)
          (record {
            idle = w.idle;
            active = w.active;
            rate = w.rate;
            burst = w.burst;
            left = inr (
              h,
              omega (arith, l.0, l.1, below),
              omega (arith, l.0, l.1, below),
              omega (arith, l.1, below, w.burst),
            );
          })
    | inr b ↦
        rw (f, b)
          (record {
            idle = w.idle;
            active = w.active;
            rate = w.rate;
            burst = w.burst;
            left = inl refl;
          })
  ]
]

Shooting-off :
    (fps k : ℕ) (d : StillDevice)
    → Shooting fps (suc k) d
    → d.continuous_active ≡ false
    → Shooting fps k (record d { timer = none })
Shooting-off fps k d w h = record {
  idle = w.idle;
  active = w.active;
  rate = w.rate;
  burst = w.burst;
  left = inl h;
}

Shooting-Busy : (fps : ℕ) (d : StillDevice) → Shooting fps 0 d → Busy d
Shooting-Busy fps d w = record { idle = w.idle; active = w.active; single = off w.left }
  where
    off :
        (d.continuous_active ≡ false)
          ⊎ ((d.continuous_active ≡ true)
              × (1 ≤ 0)
              × (d.settings.burst_count ≤ d.continuous_count + 0)
              × (d.continuous_count < 2 ^ 16))
        → d.continuous_active ≡ false
    off (inl e) = e
    off (inr (a, b, x, y)) = absurd (omega (arith, b))

module _ {E : Type 0} where
  unfoldable pub timer_fires_times : ℕ → ℕ → TransportOps E → M (StillSystem E) (Unit {0})
  timer_fires_times hz zero ops = return tt
  timer_fires_times hz (suc k) ops = do continuous_timer hz ops; timer_fires_times hz k ops

  timer-off :
      (hz : ℕ) (ops : TransportOps E) (s : StillSystem E)
      → s.still.continuous_active ≡ false
      → continuous_timer hz ops s ≡ done tt (fired s)
  unfolding continuous_timer
  timer-off hz ops s h = rw h refl

module _ {E : Type 0} {Good : E → Type 0} (ops : TransportOps E) (t : IsTransport Good ops) where
  -- Continuous shooting that nobody stops, at one picture a second at least, comes to its end
  -- after as many ticks as pictures are missing, whatever the camera answers. It then is off,
  -- but the driver still counts as busy, as after a single shot; the device is settled.
  pub timer_fires_times-Busy :
      (hz fps k : ℕ) (s : StillSystem E)
      → Shooting fps k s.still
      → SessionInv s.core.dev
      → Good s.core.env
      → Ends
          (λ _ s'. Busy s'.still × SessionInv s'.core.dev × Good s'.core.env)
          (timer_fires_times hz k ops s)
  unfolding timer_fires_times
  timer_fires_times-Busy hz fps zero s w v g = (Shooting-Busy fps s.still w, v, g)
  timer_fires_times-Busy hz fps (suc k) s w v g = elim (Bool-cases s.still.continuous_active) [
    | inr o ↦
        Ends-bind (λ _ s'. s' ≡ fired s)
          (λ _ s'. Busy s'.still × SessionInv s'.core.dev × Good s'.core.env) _ _
          (done-Ends (λ _ s'. s' ≡ fired s) _ tt (fired s) (timer-off hz ops s o) refl)
          (λ _ s1 e.
            rw e (timer_fires_times-Busy hz fps k (fired s) (Shooting-off fps k s.still w o) v g))
    | inl o ↦
        Ends-bind (λ _ s'. Ticked Good ops hz fps s s')
          (λ _ s'. Busy s'.still × SessionInv s'.core.dev × Good s'.core.env) _ _
          (continuous_timer-Ticked ops t hz fps s w.rate o v g)
          (λ _ s1 (f, (ret, m, e)).
            timer_fires_times-Busy hz fps k s1
              (subst (Shooting fps k) (sym e) (Shooting-tick hz fps k ret s.still w o))
              (Framed-Inv Good s.core s1.core v f) f.alive)
  ]
