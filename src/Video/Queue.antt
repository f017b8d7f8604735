-- ===== src/Video/Queue.antt =====
-- Streaming on and off, as videobuf2 asks drivers/video/canon-r5-videobuf2.c for it, and the
-- statistics of drivers/video/canon-r5-liveview.c.
use canon_r.Prelude.{
  ℕ, ◌+◌, ◌-◌, ◌*◌, ◌/◌, ◌%◌, ◌^◌, false, Option, none, some, ltb, ◌==◌, if◌then◌else◌, ℤ, failed,
  success, einval, enomem, M, ◌>>=◌, ◌>>◌, return, get, modify, Ptr, null, valid, is_null,
}
use canon_r.Ptp.{TransportOps}
use canon_r.Video.{
  VideoSystem, stopped, starting, active, stopping, buf_queued, buf_error, on_stream,
}
use canon_r.Video.LiveView.{start_live_view, stop_live_view}
use canon_r.Video.Buffers.{return_all_buffers}

-- `struct canon_r5_video_stats`, as far as it is filled in.
pub record VideoStats : Type 0 where
  pub frames_captured : ℕ
  pub frames_dropped : ℕ
  pub bytes_transferred : ℕ
  pub errors : ℕ
  pub current_fps : ℕ
  pub last_frame : ℕ

-- The nanoseconds from one time to another as a u64.
abbrev time_between : ℕ → ℕ → ℕ
time_between last now = if ltb now last then 2 ^ 64 + now - last else now - last

module _ {E : Type 0} where
  -- The error path: the stream is stopped and every buffer goes back.
  unfoldable pub abort_streaming : ℤ → M (VideoSystem E) ℤ
  abort_streaming ret = do
    modify (on_stream (λ t. record t { state = stopped }))
    return_all_buffers buf_queued
    return ret

  -- With live view on; `wq` is what alloc_ordered_workqueue gives.
  unfoldable pub streaming_with : TransportOps E → Ptr → M (VideoSystem E) ℤ
  streaming_with ops null = do
    modify (on_stream (λ t. record t { frame_wq = null }))
    ret ← stop_live_view ops
    abort_streaming enomem
  streaming_with ops valid = do
    modify (λ s.
        on_stream
          (λ t. record t {
            frame_wq = valid;
            frame_queued = false;
            state = active;
            last_frame_time = s.now;
          })
          s)
    return success

  unfoldable pub start_streaming : TransportOps E → Ptr → M (VideoSystem E) ℤ
  start_streaming ops wq = do
    modify (on_stream (λ t. record t { state = starting; frame_count = 0; dropped_frames = 0 }))
    ret ← start_live_view ops
    if failed ret then abort_streaming ret else streaming_with ops wq

  unfoldable pub stop_streaming : TransportOps E → M (VideoSystem E) (Unit {0})
  stop_streaming ops = do
    modify (on_stream (λ t. record t { state = stopping }))
    s ← get
    (if is_null s.stream.frame_wq
        then return tt
        else modify (on_stream (λ t. record t { frame_queued = false; frame_wq = null })))
    ret ← stop_live_view ops
    return_all_buffers buf_error
    modify (on_stream (λ t. record t { state = stopped }))

  unfoldable pub get_stats : Ptr → M (VideoSystem E) (ℤ × Option VideoStats)
  get_stats null = return (einval, none)
  get_stats valid = do
    s ← get
    let diff = time_between s.stream.last_frame_time s.now
    return (
      success,
      some (record {
        frames_captured = s.stream.frame_count;
        frames_dropped = s.stream.dropped_frames;
        bytes_transferred = s.stream.frame_count * s.pix_format.sizeimage % 2 ^ 64;
        errors = 0;
        current_fps = if diff == 0 then 0 else 10 ^ 9 / diff % 2 ^ 32;
        last_frame = s.stream.last_frame_time;
      }),
    )
