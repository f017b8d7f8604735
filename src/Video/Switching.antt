-- ===== src/Video/Switching.antt =====
-- Live view on and off in drivers/video/canon-r5-liveview.c.
use canon_r.Prelude.{
  ℕ, ◌≡◌, refl, ap, ◌∙◌, inl, inr, Bool, true, false, Option, none, some, [], if◌then◌else◌, ℤ,
  failed, success, M, ◌>>=◌, ◌>>◌, return, modify, done, Ends, done-Ends, Ends-bind, Ends-mono,
  valid, Bool-cases, arith,
}
use canon_r.Device.{Core}
use canon_r.Ptp.{TransportOps}
use canon_r.Ptp.Transport.{IsTransport}
use canon_r.Ptp.Command.{Exchanged}
use canon_r.Ptp.Requests.{
  SessionInv, Framed, Exchanged-Framed, simple_command-Ends, checked_command-Ends, Checked,
}
use canon_r.Ptp.Camera.{ptp_liveview_start, ptp_liveview_stop, op_liveview_start, op_liveview_stop}
use canon_r.Video.{VideoSystem, on_core, unlock_live_view}
use canon_r.Video.LiveView.{start_live_view, stop_live_view}
use canon_r.Video.Frames.{on_core-Ends}

module _ {E : Type 0} (Good : E → Type 0) where
  -- Live view was turned on or off, and the stream is as before.
  abbrev pub LiveView : Bool → VideoSystem E → VideoSystem E → Type 0
  LiveView on s s' =
      Framed Good s.core s'.core
      × (s'.stream ≡ s.stream)
      × (s'.live_view_active ≡ on)
      × (s'.live_view_lock ≡ false)
      × (s'.device ≡ s.device)

module _ {E : Type 0} {Good : E → Type 0} (ops : TransportOps E) (t : IsTransport Good ops) where
  pub unmoved : (c : Core E) → SessionInv c.dev → Good c.env → Framed Good c c
  unmoved c v g = record { frame = refl; counter = v.counter; alive = g }

  liveview_stop-Framed :
      (c : Core E)
      → SessionInv c.dev
      → Good c.env
      → Ends (λ ret c'. Framed Good c c') (ptp_liveview_stop ops valid c)
  unfolding ptp_liveview_stop
  liveview_stop-Framed c v g =
      Ends-bind (Exchanged Good op_liveview_stop c) (λ ret c'. Framed Good c c') _
        (λ r. return success) (simple_command-Ends ops t op_liveview_stop [] c v g (omega arith))
        (λ r c' x. Exchanged-Framed Good op_liveview_stop c r c' v x)

  abbrev turned_off : ℤ → M (VideoSystem E) ℤ
  turned_off ret = do
    modify (λ s. record s { live_view_active = false })
    unlock_live_view
    return ret

  -- With live view locked and its timer set, as it is while the camera is asked.
  abbrev asked : Option ℕ → VideoSystem E → VideoSystem E
  asked timer s = record s { live_view_lock = true; frame_timer = timer }

  stop-eq :
      (s : VideoSystem E)
      → s.live_view_active ≡ true
      → s.live_view_lock ≡ false
      → s.core.dev.drivers.video_priv ≡ valid
      → stop_live_view ops s ≡ (on_core (ptp_liveview_stop ops valid) >>= turned_off) (asked none s)
  unfolding stop_live_view
  stop-eq s ha hl hp = rw (hp, hl, ha) refl

  stop_idle-eq :
      (s : VideoSystem E)
      → s.live_view_active ≡ false
      → s.live_view_lock ≡ false
      → s.core.dev.drivers.video_priv ≡ valid
      → stop_live_view ops s ≡ done success s
  unfolding stop_live_view
  stop_idle-eq s ha hl hp = rw (hp, hl, ha) refl

  pub stop_live_view-Ends :
      (s : VideoSystem E)
      → SessionInv s.core.dev
      → Good s.core.env
      → s.live_view_lock ≡ false
      → s.core.dev.drivers.video_priv ≡ valid
      → Ends (λ ret s'. LiveView Good false s s') (stop_live_view ops s)
  stop_live_view-Ends s v g hl hp = elim (Bool-cases s.live_view_active) [
    | inr ha ↦
        done-Ends (λ ret s'. LiveView Good false s s') _ success s (stop_idle-eq s ha hl hp)
          (unmoved s.core v g, refl, ha, hl, refl)
    | inl ha ↦ rw (stop-eq s ha hl hp) (
        Ends-bind
          (λ ret s1. Framed Good s.core s1.core × (s1 ≡ record (asked none s) { core = s1.core }))
          (λ ret s'. LiveView Good false s s') _ turned_off
          (on_core-Ends (λ ret c'. Framed Good s.core c') (ptp_liveview_stop ops valid)
            (asked none s) (liveview_stop-Framed s.core v g))
          (λ ret s1 (w, e). (w, ap (λ s. s.stream) e, refl, refl, ap (λ s. s.device) e)))
  ]

  abbrev turned_on : ℤ → M (VideoSystem E) ℤ
  turned_on ret = if failed ret then (do unlock_live_view; return ret) else do
    modify (λ s. record s { live_view_active = true; frame_timer = some 100 })
    unlock_live_view
    return ret

  start-eq :
      (s : VideoSystem E)
      → s.live_view_active ≡ false
      → s.live_view_lock ≡ false
      → s.core.dev.drivers.video_priv ≡ valid
      → start_live_view ops s
        ≡ (on_core (ptp_liveview_start ops valid) >>= turned_on) (asked (s.frame_timer) s)
  unfolding start_live_view
  start-eq s ha hl hp = rw (hp, hl, ha) refl

  start_again-eq :
      (s : VideoSystem E)
      → s.live_view_active ≡ true
      → s.live_view_lock ≡ false
      → s.core.dev.drivers.video_priv ≡ valid
      → start_live_view ops s ≡ done success s
  unfolding start_live_view
  start_again-eq s ha hl hp = rw (hp, hl, ha) refl

  -- Live view is on after a success, and as it was after a failure.
  abbrev pub Tried : VideoSystem E → ℤ → VideoSystem E → Type 0
  Tried s ret s' = LiveView Good (if failed ret then s.live_view_active else true) s s'

  liveview_start-Framed :
      (c : Core E)
      → SessionInv c.dev
      → Good c.env
      → Ends (λ ret c'. Framed Good c c') (ptp_liveview_start ops valid c)
  unfolding ptp_liveview_start
  liveview_start-Framed c v g =
      Ends-mono (Checked Good op_liveview_start c) (λ ret c'. Framed Good c c') _
        (checked_command-Ends ops t op_liveview_start [] c v g (omega arith)) (λ ret c' k. k.0)

  pub start_live_view-Ends :
      (s : VideoSystem E)
      → SessionInv s.core.dev
      → Good s.core.env
      → s.live_view_lock ≡ false
      → s.core.dev.drivers.video_priv ≡ valid
      → Ends (Tried s) (start_live_view ops s)
  start_live_view-Ends s v g hl hp = elim (Bool-cases s.live_view_active) [
    | inl ha ↦
        done-Ends (Tried s) _ success s (start_again-eq s ha hl hp)
          (unmoved s.core v g, refl, ha, hl, refl)
    | inr ha ↦ rw (start-eq s ha hl hp) (
        Ends-bind
          (λ ret s1.
            Framed Good s.core s1.core × (s1 ≡ record (asked (s.frame_timer) s) { core = s1.core }))
          (Tried s) _ turned_on
          (on_core-Ends (λ ret c'. Framed Good s.core c') (ptp_liveview_start ops valid)
            (asked (s.frame_timer) s) (liveview_start-Framed s.core v g))
          (λ ret s1 (w, e). elim (Bool-cases (failed ret)) [
            | inl f ↦
                rw (f, Ends)
                  (
                    w,
                    ap (λ s. s.stream) e,
                    ap (λ s. s.live_view_active) e ∙ rw f refl,
                    refl,
                    ap (λ s. s.device) e,
                  )
            | inr f ↦ rw (f, Ends) (w, ap (λ s. s.stream) e, rw f refl, refl, ap (λ s. s.device) e)
          ]))
  ]
