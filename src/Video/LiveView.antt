-- ===== src/Video/LiveView.antt =====
-- The live view of drivers/video/canon-r5-liveview.c: its start, its end, and the timer.
use canon_r.Prelude.{
  Bool, true, false, ◌&&◌, not, none, some, if◌then◌else◌, ℤ, failed, success, enodev, M, ◌>>=◌,
  ◌>>◌, return, get, modify, valid, is_null,
}
use canon_r.Ptp.{TransportOps}
use canon_r.Ptp.Camera.{ptp_liveview_start, ptp_liveview_stop}
use canon_r.Video.{
  VideoSystem, StreamingState, stopped, starting, active, stopping, on_core, lock_live_view,
  unlock_live_view,
}

abbrev pub is_active : StreamingState → Bool
is_active stopped = false
is_active starting = false
is_active active = true
is_active stopping = false

module _ {E : Type 0} where
  -- The timer fires: the frame work is queued and the timer armed again, while streaming.
  unfoldable pub timer_callback : M (VideoSystem E) (Unit {0})
  timer_callback = do
    s ← get
    if is_active s.stream.state && not (is_null s.stream.frame_wq)
        then modify (λ s. record s {
          stream = record (s.stream) { frame_queued = true };
          frame_timer = some 33;
        })
        else modify (λ s. record s { frame_timer = none })

  -- The driver's private data is `core.dev.drivers.video_priv`.
  unfoldable pub start_live_view : TransportOps E → M (VideoSystem E) ℤ
  start_live_view ops = do
    s ← get
    if is_null s.core.dev.drivers.video_priv then return enodev else do
      lock_live_view
      if s.live_view_active then (do unlock_live_view; return success) else do
        ret ← on_core (ptp_liveview_start ops valid)
        if failed ret then (do unlock_live_view; return ret) else do
          modify (λ s. record s { live_view_active = true; frame_timer = some 100 })
          unlock_live_view
          return ret

  unfoldable pub stop_live_view : TransportOps E → M (VideoSystem E) ℤ
  stop_live_view ops = do
    s ← get
    if is_null s.core.dev.drivers.video_priv then return success else do
      lock_live_view
      if not s.live_view_active then (do unlock_live_view; return success) else do
        modify (λ s. record s { frame_timer = none })
        ret ← on_core (ptp_liveview_stop ops valid)
        modify (λ s. record s { live_view_active = false })
        unlock_live_view
        return ret
