-- ===== src/Video/Control.antt =====
-- The file operations and the ioctls on the state of drivers/video/canon-r5-v4l2.c, and the device's
-- first state.
use canon_r.Prelude.{
  ℕ, ◌+◌, ◌-◌, Bool, true, false, ◌||◌, not, [], Option, none, some, ◌==◌, if◌then◌else◌, ℤ, pos,
  negsuc, add_int, sub_int, failed, success, einval, enodev, ebusy, M, ◌>>=◌, ◌>>◌, return, get,
  modify, crash, null_deref, valid,
}
use canon_r.Ptp.{TransportOps}
use canon_r.Ptp.Session.{ptp_open_session}
use canon_r.Ptp.Camera.{ptp_initiate_release_control, ptp_terminate_release_control}
use canon_r.Video.{
  VideoSystem, VideoDevice, VideoFormat, Resolution, Fraction, PixFormat, StreamingState, stopped,
  starting, active, stopping, on_device, on_core, lock_device, unlock_device,
}
use canon_r.Video.Formats.{
  motion_jpeg, default_resolution, find_format, find_resolution, try_fmt, sized, interval_of,
}
use canon_r.Video.LiveView.{stop_live_view}

-- The tests `count == 1` and `count == 0`.
abbrev pub is_number : ℤ → ℕ → Bool
is_number (pos n) m = n == m
is_number (negsuc n) m = false

abbrev pub is_stopped : StreamingState → Bool
is_stopped stopped = true
is_stopped starting = false
is_stopped active = false
is_stopped stopping = false

-- V4L2_BUF_TYPE_VIDEO_CAPTURE
abbrev pub video_capture : ℕ
video_capture = 1

-- The interval that is set for one that is asked for.
abbrev interval_for : Fraction → Option Resolution → Fraction
interval_for i none =
    if i.numerator == 0 || i.denominator == 0 then record { numerator = 1; denominator = 30 } else i
interval_for i (some r) = if i.numerator == 0 || i.denominator == 0 then interval_of r else i

-- The first state, over the zeroed structure.
abbrev pub fresh_format : PixFormat
fresh_format = sized motion_jpeg (record {
  width = default_resolution.width;
  height = default_resolution.height;
  pixelformat = motion_jpeg.fourcc;
  field = 0;
  bytesperline = 0;
  sizeimage = 0;
  colorspace = 0;
})

abbrev pub fresh_device : VideoDevice
fresh_device = record {
  lock = false;
  initialized = true;
  open_count = pos 0;
  file_handles = 0;
  frame_interval = interval_of default_resolution;
}

module _ {E : Type 0} where
  abbrev pub count_open : (ℤ → ℤ) → M (VideoSystem E) (Unit {0})
  count_open f = modify (on_device (λ d. record d { open_count = f (d.open_count) }))

  -- v4l2_fh_open and v4l2_fh_release, as far as the handles are counted.
  abbrev pub count_handles : (ℕ → ℕ) → M (VideoSystem E) (Unit {0})
  count_handles f = modify (on_device (λ d. record d { file_handles = f (d.file_handles) }))

  -- The camera is made ready when the device is opened first.
  unfoldable pub first_open : TransportOps E → M (VideoSystem E) ℤ
  first_open ops = do
    s ← get
    ret ←
        (if not s.core.dev.ptp.session_open
          then on_core (ptp_open_session ops valid)
          else return success)
    if failed ret
        then (do
          count_open (λ z. sub_int z 1)
          count_handles (λ n. n - 1)
          unlock_device
          return ret)
        else do r ← on_core (ptp_initiate_release_control ops valid); unlock_device; return success

  -- `fh` is what v4l2_fh_open gives.
  unfoldable pub video_open : TransportOps E → ℤ → M (VideoSystem E) ℤ
  video_open ops fh = do
    lock_device
    s ← get
    if not s.device.initialized
        then (do unlock_device; return enodev)
        else if failed fh
        then (do unlock_device; return fh)
        else do
          count_handles (λ n. n + 1)
          count_open (λ z. add_int z 1)
          s ← get
          if is_number s.device.open_count 1
              then first_open ops
              else (do unlock_device; return success)

  -- The camera is left when the device is closed last.
  unfoldable pub last_close : TransportOps E → M (VideoSystem E) (Unit {0})
  last_close ops = do
    s ← get
    (if not (is_stopped s.stream.state)
        then (do ret ← stop_live_view ops; return tt)
        else return tt)
    ret ← on_core (ptp_terminate_release_control ops valid)
    return tt

  -- `fh` is what v4l2_fh_release gives.
  unfoldable pub video_release : TransportOps E → ℤ → M (VideoSystem E) ℤ
  video_release ops fh = do
    lock_device
    count_open (λ z. sub_int z 1)
    s ← get
    (if is_number s.device.open_count 0 then last_close ops else return tt)
    unlock_device
    count_handles (λ n. n - 1)
    return fh

  unfoldable pub g_fmt : M (VideoSystem E) PixFormat
  g_fmt = do s ← get; return s.pix_format

  -- The log message follows the pointers to the format and the resolution.
  unfoldable pub set_found :
      PixFormat → Option VideoFormat → Option Resolution → M (VideoSystem E) ℤ
  set_found q none r = crash null_deref
  set_found q (some f) none = crash null_deref
  set_found q (some f) (some r) = do
    modify (λ s. record s {
      pix_format = q;
      stream = record (s.stream) { format = some f; resolution = some r };
    })
    return success

  -- `streaming` is what vb2_is_streaming gives. The result has the format that was tried.
  unfoldable pub s_fmt : Bool → PixFormat → M (VideoSystem E) (ℤ × PixFormat)
  s_fmt streaming p = do
    let q = try_fmt p
    if streaming then return (ebusy, q) else do
      ret ← set_found q (find_format q.pixelformat) (find_resolution q.width q.height)
      return (ret, q)

  -- The result with the interval; the number of buffers to read is 3.
  unfoldable pub g_parm : ℕ → M (VideoSystem E) (ℤ × Option Fraction)
  g_parm type =
      if not (type == video_capture)
      then return (einval, none)
      else do s ← get; return (success, some s.device.frame_interval)

  unfoldable pub s_parm : ℕ → Fraction → M (VideoSystem E) (ℤ × Option Fraction)
  s_parm type interval = if not (type == video_capture) then return (einval, none) else do
    s ← get
    let set = interval_for interval s.stream.resolution
    modify (on_device (λ d. record d { frame_interval = set }))
    return (success, some set)

  unfoldable pub init_device : M (VideoSystem E) ℤ
  init_device = do
    modify (λ s. record s {
      device = fresh_device;
      pix_format = fresh_format;
      stream = record (s.stream) {
        format = some motion_jpeg;
        resolution = some default_resolution;
        state = stopped;
        buf_list = [];
        buf_lock = false;
      };
    })
    return success
