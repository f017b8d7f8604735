-- ===== src/Examples/VideoRuns.antt =====
-- The video driver's streaming at concrete inputs.
use canon_r.Prelude.{
  ℕ, ◌+◌, ◌≡◌, refl, [], ◌∷◌, arith, true, false, pos, success, if◌then◌else◌, ◌>>=◌, Ends, null,
  valid, none,
}
use canon_r.Device.{Device}
use canon_r.Ptp.Requests.{SessionInv, Framed}
use canon_r.Video.{VideoSystem, PixFormat, stopped, active, on_stream}
use canon_r.Video.Buffers.{frame_work}
use canon_r.Video.Queue.{start_streaming}
use canon_r.Video.Formats.{try_fmt}
use canon_r.Video.Negotiation.{Supported, Given, try_fmt-Supported}
use canon_r.Video.Closing.{Closed, video_release-Closed}
use canon_r.Video.Opening.{Opened, video_open-Opened}
use canon_r.Video.Control.{video_release, video_open, g_fmt, s_fmt}
use canon_r.Video.Setting.{Reset, g_fmt-s_fmt}
use canon_r.Video.Frames.{worked, frame_work-Dropped}
use canon_r.Video.Streaming.{Begun, start_streaming-Begun}
use canon_r.Video.Serve.{queue, start, stop, tick, work, frame, stream_serve_all}
use canon_r.Video.Conservation.{StreamInv, held, queued, stream_serve_all-held}
use canon_r.Examples.Data.{Any, Sent, camera, camera-IsTransport, ok_bytes, open_device, on_wire}

abbrev video_device : Device
video_device = record open_device { drivers = record (open_device.drivers) { video_priv = valid } }

video_device-Inv : SessionInv video_device
video_device-Inv = record {
  idle = refl;
  closed = λ h. cc;
  opened = λ h. refl;
  counter = omega arith;
}

abbrev small_format : PixFormat
small_format = record {
  width = 5;
  height = 10;
  pixelformat = 0;
  field = 1;
  bytesperline = 0;
  sizeimage = 100;
  colorspace = 8;
}

-- Two buffers wait, and nothing is on.
abbrev quiet_driver : VideoSystem Sent
quiet_driver = record {
  device = record {
    lock = false;
    initialized = true;
    open_count = pos 0;
    file_handles = 0;
    frame_interval = record { numerator = 1; denominator = 30 };
  };
  stream = record {
    buffers = λ b. record { plane_size = 100; payload = 0; field = 0; timestamp = 0; sequence = 0 };
    buf_list = 4 ∷ 5 ∷ [];
    buf_lock = false;
    returned = [];
    format = none;
    resolution = none;
    state = stopped;
    frame_wq = null;
    frame_queued = false;
    frame_count = 0;
    dropped_frames = 0;
    last_frame_time = 0;
  };
  pix_format = small_format;
  live_view_active = false;
  live_view_lock = false;
  frame_timer = none;
  core = on_wire video_device;
  now = 7;
}

abbrev streaming_driver : VideoSystem Sent
streaming_driver =
    record (on_stream (λ t. record t { state = active; frame_wq = valid }) quiet_driver) {
      live_view_active = true;
    }

quiet_driver-Inv : StreamInv Any quiet_driver
quiet_driver-Inv = record {
  unlocked = refl;
  free = refl;
  registered = refl;
  session = video_device-Inv;
  alive = tt;
}

stream_serve_all-held_example :
    Ends
      (λ _ s'.
        StreamInv Any s'
        × ((b : ℕ)
            → held b s'.stream
              ≡ held b quiet_driver.stream
                + queued b (start valid ∷ queue 6 ∷ tick ∷ work ∷ frame 9 ∷ stop ∷ [])))
      (stream_serve_all
        (camera ok_bytes)
        (start valid ∷ queue 6 ∷ tick ∷ work ∷ frame 9 ∷ stop ∷ [])
        quiet_driver)
stream_serve_all-held_example =
    stream_serve_all-held (camera ok_bytes) (camera-IsTransport ok_bytes)
      (start valid ∷ queue 6 ∷ tick ∷ work ∷ frame 9 ∷ stop ∷ []) quiet_driver quiet_driver-Inv

frame_work-Dropped_example :
    Ends
      (λ _ s'.
        Framed Any streaming_driver.core s'.core
        × (s'.stream ≡ worked streaming_driver.stream)
        × (s'.live_view_lock ≡ false))
      (frame_work (camera ok_bytes) streaming_driver)
frame_work-Dropped_example =
    frame_work-Dropped (camera ok_bytes) (camera-IsTransport ok_bytes) streaming_driver refl refl
      video_device-Inv tt

start_streaming-Begun_example :
    Ends
      (Begun (camera ok_bytes) (camera-IsTransport ok_bytes) quiet_driver)
      (start_streaming (camera ok_bytes) valid quiet_driver)
start_streaming-Begun_example =
    start_streaming-Begun (camera ok_bytes) (camera-IsTransport ok_bytes) valid quiet_driver
      video_device-Inv tt refl refl refl

-- YUYV at a size that the camera does not have.
abbrev asked_format : PixFormat
asked_format = record small_format { pixelformat = 1448695129; width = 1000 }

try_fmt-Supported_example :
    Supported (try_fmt asked_format) × Given asked_format (try_fmt asked_format)
try_fmt-Supported_example = try_fmt-Supported asked_format

g_fmt-s_fmt_example :
    Ends
      (λ q s'.
        (q ≡ (if false then quiet_driver.pix_format else try_fmt asked_format))
        × Reset false (try_fmt asked_format) quiet_driver.stream s'.stream
        × (s'.device ≡ quiet_driver.device)
        × (s'.core ≡ quiet_driver.core))
      ((s_fmt false asked_format >>= λ r. g_fmt) quiet_driver)
g_fmt-s_fmt_example = g_fmt-s_fmt false asked_format quiet_driver

video_open-Opened_example :
    Ends (Opened Any quiet_driver) (video_open (camera ok_bytes) success quiet_driver)
video_open-Opened_example =
    video_open-Opened (camera ok_bytes) (camera-IsTransport ok_bytes) success quiet_driver
      video_device-Inv tt refl refl

-- The driver when it is open once and streams.
abbrev open_driver : VideoSystem Sent
open_driver = record streaming_driver {
  device = record (streaming_driver.device) { open_count = pos 1; file_handles = 1 };
}

video_release-Closed_example :
    Ends (Closed Any open_driver success) (video_release (camera ok_bytes) success open_driver)
video_release-Closed_example =
    video_release-Closed (camera ok_bytes) (camera-IsTransport ok_bytes) success open_driver
      video_device-Inv tt refl refl refl
