-- ===== src/Video/Closing.antt =====
-- The closing of the video device in drivers/video/canon-r5-v4l2.c.
use canon_r.Prelude.{
  zero, suc, ◌-◌, ◌≡◌, ◌≢◌, refl, sym, ap, ◌∙◌, ◌⊎◌, inl, inr, Bool, true, false, not, [],
  if◌then◌else◌, arith, ℤ, pos, negsuc, sub_int, M, ◌>>=◌, ◌>>◌, return, Ends, done-Ends, Ends-bind,
  valid, Bool-cases,
}
use canon_r.Device.{Core}
use canon_r.Ptp.{TransportOps}
use canon_r.Ptp.Transport.{IsTransport}
use canon_r.Ptp.Command.{Exchanged}
use canon_r.Ptp.Requests.{
  Framed-trans, SessionInv, Framed, Framed-Inv, Exchanged-Framed, simple_command-Ends,
}
use canon_r.Ptp.Camera.{ptp_terminate_release_control, op_terminate_release_control}
use canon_r.Video.{
  VideoSystem, VideoDevice, StreamingState, stopped, starting, active, stopping, on_core, on_device,
  unlock_device,
}
use canon_r.Video.LiveView.{stop_live_view}
use canon_r.Video.Control.{is_number, is_stopped, count_handles, last_close, video_release}
use canon_r.Video.Frames.{on_core-Ends}
use canon_r.Video.Switching.{LiveView, stop_live_view-Ends, unmoved}

last : (z : ℤ) → is_number (sub_int z 1) 0 ≡ true → z ≡ pos 1
unfolding sub_int
last (pos zero) h = absurd cc
last (pos (suc zero)) h = refl
last (pos (suc (suc n))) h = absurd (ground (arith, h))
last (negsuc n) h = absurd cc

not_last : (z : ℤ) → is_number (sub_int z 1) 0 ≡ false → z ≢ pos 1
unfolding sub_int
not_last z h e = off (sym (ap (λ z. is_number (sub_int z 1) 0) e) ∙ h)
  where
    off : is_number (sub_int (pos 1) 1) 0 ≡ false → ⊥
    off k = cc

-- Whether live view is on after the last closing.
abbrev pub still_on : StreamingState → Bool → Bool
still_on stopped on = on
still_on starting on = false
still_on active on = false
still_on stopping on = false

still_on-stopped : (t : StreamingState) (on : Bool) → is_stopped t ≡ true → still_on t on ≡ on
still_on-stopped stopped on h = refl
still_on-stopped starting on h = absurd cc
still_on-stopped active on h = absurd cc
still_on-stopped stopping on h = absurd cc

still_on-off : (t : StreamingState) (on : Bool) → is_stopped t ≡ false → still_on t on ≡ false
still_on-off stopped on h = absurd cc
still_on-off starting on h = refl
still_on-off active on h = refl
still_on-off stopping on h = refl

module _ {E : Type 0} (Good : E → Type 0) where
  -- The camera was left: of the driver only live view may be another, of the device the counter.
  abbrev pub Left : VideoSystem E → VideoSystem E → Type 0
  Left s s' =
      Framed Good s.core s'.core
      × (s'.stream ≡ s.stream)
      × (s'.live_view_active ≡ still_on s.stream.state s.live_view_active)
      × (s'.live_view_lock ≡ false)
      × (s'.device ≡ s.device)

  -- The device counts as open once less, with a file handle less. If it was open once, the camera
  -- was left, with live view off unless streaming was stopped; if not, all else is as before.
  pub record Closed (s : VideoSystem E) (fh ret : ℤ) (s' : VideoSystem E) : Type 0 where
    pub status : ret ≡ fh
    pub device : s'.device ≡ record (s.device) {
      open_count = sub_int (s.device.open_count) 1;
      file_handles = s.device.file_handles - 1;
    }
    pub stream : s'.stream ≡ s.stream
    pub unlocked : s'.live_view_lock ≡ false
    pub moved : Framed Good s.core s'.core
    pub live_view :
        ((s.device.open_count ≡ pos 1)
          × (s'.live_view_active ≡ still_on s.stream.state s.live_view_active))
        ⊎ ((s.device.open_count ≢ pos 1)
            × (s'.live_view_active ≡ s.live_view_active)
            × (s'.core ≡ s.core))

module _ {E : Type 0} {Good : E → Type 0} (ops : TransportOps E) (t : IsTransport Good ops) where
  terminate-Framed :
      (c : Core E)
      → SessionInv c.dev
      → Good c.env
      → Ends (λ ret c'. Framed Good c c') (ptp_terminate_release_control ops valid c)
  unfolding ptp_terminate_release_control
  terminate-Framed c v g =
      Ends-bind (Exchanged Good op_terminate_release_control c) (λ ret c'. Framed Good c c') _
        (λ r. return _)
        (simple_command-Ends ops t op_terminate_release_control [] c v g (omega arith))
        (λ r c' x. Exchanged-Framed Good op_terminate_release_control c r c' v x)

  abbrev stop_first : Bool → M (VideoSystem E) (Unit {0})
  stop_first stop? = if stop? then (do ret ← stop_live_view ops; return tt) else return tt

  abbrev terminate : M (VideoSystem E) (Unit {0})
  terminate = do ret ← on_core (ptp_terminate_release_control ops valid); return tt

  stop_first-Left :
      (s : VideoSystem E)
      → SessionInv s.core.dev
      → Good s.core.env
      → s.live_view_lock ≡ false
      → s.core.dev.drivers.video_priv ≡ valid
      → Ends (λ _ s'. Left Good s s') (stop_first (not (is_stopped s.stream.state)) s)
  stop_first-Left s v g hl hp = elim (Bool-cases (is_stopped s.stream.state)) [
    | inl h ↦
        done-Ends (λ _ s'. Left Good s s') _ tt s (ap (λ b. stop_first (not b) s) h)
          (
            unmoved ops t s.core v g,
            refl,
            sym (still_on-stopped s.stream.state s.live_view_active h),
            hl,
            refl,
          )
    | inr h ↦ rw (ap (λ b. stop_first (not b) s) h) (
        Ends-bind (λ ret s'. LiveView Good false s s') (λ _ s'. Left Good s s') _ (λ _. return tt)
          (stop_live_view-Ends ops t s v g hl hp)
          (λ ret s1 (w, e, off, free, same).
            (w, e, off ∙ sym (still_on-off s.stream.state s.live_view_active h), free, same)))
  ]

  last_close-Left :
      (s : VideoSystem E)
      → SessionInv s.core.dev
      → Good s.core.env
      → s.live_view_lock ≡ false
      → s.core.dev.drivers.video_priv ≡ valid
      → Ends (λ _ s'. Left Good s s') (last_close ops s)
  unfolding last_close
  last_close-Left s v g hl hp =
      Ends-bind (λ _ s'. Left Good s s') (λ _ s'. Left Good s s') _ (λ _. terminate)
        (stop_first-Left s v g hl hp)
        (λ _ s1 (w, e, on, free, same).
          Ends-bind (λ ret s2. Framed Good s1.core s2.core × (s2 ≡ record s1 { core = s2.core }))
            (λ _ s'. Left Good s s') _ (λ _. return tt)
            (on_core-Ends (λ ret c'. Framed Good s1.core c')
              (ptp_terminate_release_control ops valid) s1
              (terminate-Framed s1.core (Framed-Inv Good s.core s1.core v w) w.alive))
            (λ ret s2 (w2, e2). (
              Framed-trans Good s.core s1.core s2.core w w2,
              ap (λ s. s.stream) e2 ∙ e,
              ap (λ s. s.live_view_active) e2 ∙ on,
              ap (λ s. s.live_view_lock) e2 ∙ free,
              ap (λ s. s.device) e2 ∙ same,
            )))

  abbrev uncounted : VideoSystem E → VideoSystem E
  uncounted = on_device (λ d. record d { lock = true; open_count = sub_int (d.open_count) 1 })

  abbrev finish : ℤ → M (VideoSystem E) ℤ
  finish fh = do unlock_device; count_handles (λ n. n - 1); return fh

  last-eq :
      (fh : ℤ) (s : VideoSystem E)
      → s.device.lock ≡ false
      → is_number (sub_int s.device.open_count 1) 0 ≡ true
      → video_release ops fh s ≡ (last_close ops >>= λ _. finish fh) (uncounted s)
  unfolding video_release
  last-eq fh s hl n = rw (hl, n) refl

  other-eq :
      (fh : ℤ) (s : VideoSystem E)
      → s.device.lock ≡ false
      → is_number (sub_int s.device.open_count 1) 0 ≡ false
      → video_release ops fh s ≡ finish fh (uncounted s)
  unfolding video_release
  other-eq fh s hl n = rw (hl, n) refl

  -- With the device and live view not locked, the driver registered, and over a good transport,
  -- closing the device always ends with the result of v4l2_fh_release, whatever the camera answers,
  -- and with nothing locked: it counts as open once less, with a file handle less, and the stream is
  -- as it was. If it was open once, live view is off unless streaming was stopped, and of the device
  -- below only the transaction counter has moved; if not, both are as before.
  pub video_release-Closed :
      (fh : ℤ) (s : VideoSystem E)
      → SessionInv s.core.dev
      → Good s.core.env
      → s.device.lock ≡ false
      → s.live_view_lock ≡ false
      → s.core.dev.drivers.video_priv ≡ valid
      → Ends (Closed Good s fh) (video_release ops fh s)
  video_release-Closed fh s v g hd hl hp =
      elim (Bool-cases (is_number (sub_int s.device.open_count 1) 0)) [
        | inl n ↦ rw (last-eq fh s hd n) (
            Ends-bind (λ _ s'. Left Good (uncounted s) s') (Closed Good s fh) _ (λ _. finish fh)
              (last_close-Left (uncounted s) v g hl hp)
              (λ _ s1 (w, e, on, free, same). record {
                status = refl;
                device =
                    ap {A = VideoDevice} {B = VideoDevice}
                      (λ d. record d { lock = false; file_handles = d.file_handles - 1 }) same
                    ∙ (λ i. record (s.device) {
                      lock = sym hd i;
                      open_count = sub_int (s.device.open_count) 1;
                      file_handles = s.device.file_handles - 1;
                    });
                stream = e;
                unlocked = free;
                moved = w;
                live_view = inl (last s.device.open_count n, on);
              }))
        | inr n ↦
            rw (other-eq fh s hd n, Ends)
              (record {
                status = refl;
                device = λ i. record (s.device) {
                  lock = sym hd i;
                  open_count = sub_int (s.device.open_count) 1;
                  file_handles = s.device.file_handles - 1;
                };
                stream = refl;
                unlocked = hl;
                moved = unmoved ops t s.core v g;
                live_view = inr (not_last s.device.open_count n, refl, refl);
              })
      ]
