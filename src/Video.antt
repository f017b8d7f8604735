-- ===== src/Video.antt =====
-- The video driver: drivers/video/canon-r5-videobuf2.c, drivers/video/canon-r5-liveview.c and
-- drivers/video/canon-r5-v4l2.c, with the structures of include/video/canon-r5-v4l2.h that they
-- use, and the access to them. The driver sits on the device of `canon_r.Device`.
pub mod Buffers
pub mod Formats
pub mod Negotiation
pub mod LiveView
pub mod Queue
pub mod Control
pub mod Opening
pub mod Closing
pub mod Setting
pub mod Frames
pub mod Switching
pub mod Streaming
pub mod Serve
pub mod Conservation
use canon_r.Prelude.{
  ℕ, ◌≡◌, refl, Bool, true, false, List, ◌++◌, [], ◌∷◌, Option, if◌then◌else◌, M, ◌>>=◌, Outcome,
  done, fault, deadlock, modify, ℤ, crash, Ptr,
}
use canon_r.Device.{Core}

pub data StreamingState : Type 0 where
  stopped starting active stopping : StreamingState

-- `enum vb2_buffer_state`, as far as it is given back.
pub data BufferState : Type 0 where
  buf_queued buf_error buf_done : BufferState

-- A buffer of videobuf2 with one plane, whose bytes are left out.
pub record VideoBuffer : Type 0 where
  pub plane_size : ℕ
  pub payload : ℕ
  pub field : ℕ
  pub timestamp : ℕ
  pub sequence : ℕ

pub record VideoFormat : Type 0 where
  pub fourcc : ℕ  -- u32, as are the next two
  pub depth : ℕ
  pub bytesperline_align : ℕ
  pub name : List ℕ
  pub compressed : Bool

pub record Resolution : Type 0 where
  pub width : ℕ  -- u32, as are the next three
  pub height : ℕ
  pub fps_num : ℕ
  pub fps_den : ℕ
  pub name : List ℕ

-- `struct canon_r5_video_stream`. A buffer is known by its number; `returned` has those that were
-- given back to videobuf2, the last one first.
pub record VideoStream : Type 0 where
  pub buffers : ℕ → VideoBuffer
  pub buf_list : List ℕ
  pub buf_lock : Bool  -- the spinlock is held
  pub returned : List (ℕ × BufferState)
  pub format : Option VideoFormat
  pub resolution : Option Resolution
  pub state : StreamingState
  pub frame_wq : Ptr
  pub frame_queued : Bool  -- `frame_work` waits on `frame_wq`
  pub frame_count : ℕ  -- u64
  pub dropped_frames : ℕ  -- u64
  pub last_frame_time : ℕ

-- `struct v4l2_pix_format`, as far as it is used.
pub record PixFormat : Type 0 where
  pub width : ℕ  -- u32, as are the others
  pub height : ℕ
  pub pixelformat : ℕ
  pub field : ℕ
  pub bytesperline : ℕ
  pub sizeimage : ℕ
  pub colorspace : ℕ

-- A fraction of V4L2.
pub record Fraction : Type 0 where
  pub numerator : ℕ
  pub denominator : ℕ

-- The rest of `struct canon_r5_video_device`.
pub record VideoDevice : Type 0 where
  pub lock : Bool  -- the mutex is held
  pub initialized : Bool
  pub open_count : ℤ
  pub file_handles : ℕ  -- the handles that v4l2_fh_open made and v4l2_fh_release has not freed
  pub frame_interval : Fraction

-- The main video device and the driver's private data, with the device they belong to and the time.
pub record VideoSystem (E : Type 0) : Type 0 where
  pub device : VideoDevice
  pub stream : VideoStream
  pub pix_format : PixFormat
  pub live_view_active : Bool
  pub live_view_lock : Bool  -- the mutex is held
  pub frame_timer : Option ℕ  -- the milliseconds that the timer was armed for, if it is pending
  pub core : Core E
  pub now : ℕ  -- ktime_get: nanoseconds; it does not pass within an operation

module _ {E : Type 0} where
  abbrev pub on_stream : (VideoStream → VideoStream) → VideoSystem E → VideoSystem E
  on_stream f s = record s { stream = f s.stream }

  abbrev pub on_core : {A : Type 0} → M (Core E) A → M (VideoSystem E) A
  on_core m s = elim (m s.core) [ done a c ↦ done a (record s { core = c }) | fault x ↦ fault x ]

  abbrev pub on_device : (VideoDevice → VideoDevice) → VideoSystem E → VideoSystem E
  on_device f s = record s { device = f s.device }

  abbrev pub lock_device : M (VideoSystem E) (Unit {0})
  lock_device s =
      if s.device.lock
      then fault deadlock
      else done tt (on_device (λ d. record d { lock = true }) s)

  abbrev pub unlock_device : M (VideoSystem E) (Unit {0})
  unlock_device = modify (on_device (λ d. record d { lock = false }))

  abbrev pub lock_buffers : M (VideoSystem E) (Unit {0})
  lock_buffers s =
      if s.stream.buf_lock
      then fault deadlock
      else done tt (on_stream (λ t. record t { buf_lock = true }) s)

  abbrev pub unlock_buffers : M (VideoSystem E) (Unit {0})
  unlock_buffers = modify (on_stream (λ t. record t { buf_lock = false }))

  abbrev pub lock_live_view : M (VideoSystem E) (Unit {0})
  lock_live_view s =
      if s.live_view_lock then fault deadlock else done tt (record s { live_view_lock = true })

  abbrev pub unlock_live_view : M (VideoSystem E) (Unit {0})
  unlock_live_view = modify (λ s. record s { live_view_lock = false })
