-- ===== src/Video/Serve.antt =====
-- The stream of drivers/video/canon-r5-videobuf2.c as a server of requests.
use canon_r.Prelude.{ℕ, List, [], ◌∷◌, M, ◌>>=◌, ◌>>◌, return, Ptr}
use canon_r.Ptp.{TransportOps}
use canon_r.Video.{VideoSystem}
use canon_r.Video.LiveView.{timer_callback}
use canon_r.Video.Buffers.{buf_queue, frame_work, queue_frame, frame_done}
use canon_r.Video.Queue.{start_streaming, stop_streaming}

-- A call of videobuf2 or of the driver, the timer that fires, or the work that runs.
pub data StreamRequest : Type 0 where
  queue : ℕ → StreamRequest
  start : Ptr → StreamRequest
  stop tick work done_frame : StreamRequest
  frame : ℕ → StreamRequest

module _ {E : Type 0} where
  unfoldable pub stream_serve : TransportOps E → StreamRequest → M (VideoSystem E) (Unit {0})
  stream_serve ops (queue b) = buf_queue b
  stream_serve ops (start wq) = do ret ← start_streaming ops wq; return tt
  stream_serve ops stop = stop_streaming ops
  stream_serve ops tick = timer_callback
  stream_serve ops work = frame_work ops
  stream_serve ops done_frame = frame_done
  stream_serve ops (frame n) = do ret ← queue_frame n; return tt

  unfoldable pub stream_serve_all :
      TransportOps E → List StreamRequest → M (VideoSystem E) (Unit {0})
  stream_serve_all ops [] = return tt
  stream_serve_all ops (q ∷ qs) = do stream_serve ops q; stream_serve_all ops qs
