-- ===== src/Video/Buffers.antt =====
-- The buffers of drivers/video/canon-r5-videobuf2.c, and the frames that
-- drivers/video/canon-r5-liveview.c and the frame work put into them.
use canon_r.Prelude.{
  ℕ, ◌+◌, ◌%◌, ◌^◌, false, ◌||◌, not, List, [], ◌∷◌, ◌++◌, Option, none, some, ltb, ◌==◌,
  if◌then◌else◌, ℤ, failed, success, minus, einval, enodev, M, ◌>>=◌, ◌>>◌, return, get, modify,
  Ptr, valid, is_null,
}
use canon_r.Ptp.{TransportOps}
use canon_r.Ptp.Camera.{ptp_get_liveview_frame}
use canon_r.Video.{
  VideoSystem, VideoStream, VideoBuffer, PixFormat, BufferState, buf_done, on_stream, on_core,
  lock_buffers, unlock_buffers,
}
use canon_r.Video.LiveView.{is_active}

abbrev pub enobufs : ℤ
enobufs = minus 105

abbrev pub count_up : ℕ → ℕ
count_up n = (n + 1) % 2 ^ 64

-- The limits on the number of buffers.
unfoldable pub clamp_buffers : ℕ → ℕ
clamp_buffers n = let n = if ltb n 3 then 3 else n in if ltb 8 n then 8 else n

-- What `queue_setup` leaves: its result, `*nbuffers`, `*nplanes` and `sizes[0]`.
pub record QueueSetup : Type 0 where
  pub status : ℤ
  pub nbuffers : ℕ
  pub nplanes : ℕ
  pub size : ℕ

unfoldable pub queue_setup : PixFormat → ℕ → ℕ → ℕ → QueueSetup
unfolding clamp_buffers
queue_setup format nbuffers nplanes size =
    if not (nplanes == 0)
    then record {
      status = if ltb size format.sizeimage then einval else success;
      nbuffers = clamp_buffers nbuffers;
      nplanes = nplanes;
      size = size;
    }
    else record {
      status = success;
      nbuffers = clamp_buffers nbuffers;
      nplanes = 1;
      size = format.sizeimage;
    }

unfoldable pub buf_prepare : PixFormat → VideoBuffer → ℤ × VideoBuffer
buf_prepare format b =
    if ltb b.plane_size format.sizeimage
    then (einval, b)
    else (success, record b { payload = format.sizeimage; field = format.field })

abbrev pub set_buffer : ℕ → VideoBuffer → (ℕ → VideoBuffer) → ℕ → VideoBuffer
set_buffer b buffer buffers i = if i == b then buffer else buffers i

-- The first buffer of the list is taken from it.
abbrev pub head_of : List ℕ → Option ℕ
head_of [] = none
head_of (b ∷ rest) = some b

abbrev pub tail_of : List ℕ → List ℕ
tail_of [] = []
tail_of (b ∷ rest) = rest

abbrev pub give_back : BufferState → ℕ → VideoStream → VideoStream
give_back state b t = record t { returned = (b, state) ∷ t.returned }

-- All of the list's buffers are given back, the first one first.
unfoldable pub give_all_back : BufferState → List ℕ → VideoStream → VideoStream
give_all_back state [] t = t
give_all_back state (b ∷ rest) t = give_all_back state rest (give_back state b t)

abbrev pub drop_frame : VideoStream → VideoStream
drop_frame t = record t { dropped_frames = count_up t.dropped_frames }

-- The frame's size, cut to the buffer, its time and its number.
abbrev pub filled : ℕ → ℕ → ℕ → VideoBuffer → VideoBuffer
filled frame_size now frame b = record b {
  payload = if ltb b.plane_size frame_size then b.plane_size else frame_size;
  timestamp = now;
  sequence = frame % 2 ^ 32;
}

abbrev pub deliver : ℕ → ℕ → ℕ → VideoStream → VideoStream
deliver now b frame_size t = give_back buf_done b (record t {
  buffers = set_buffer b (filled frame_size now t.frame_count (t.buffers b)) (t.buffers);
  frame_count = count_up t.frame_count;
})

module _ {E : Type 0} where
  unfoldable pub buf_queue : ℕ → M (VideoSystem E) (Unit {0})
  buf_queue b = do
    lock_buffers
    modify (on_stream (λ t. record t { buf_list = t.buf_list ++ b ∷ [] }))
    unlock_buffers

  unfoldable pub return_all_buffers : BufferState → M (VideoSystem E) (Unit {0})
  return_all_buffers state = do
    lock_buffers
    modify (on_stream (λ t. record (give_all_back state (t.buf_list) t) { buf_list = [] }))
    unlock_buffers

  unfoldable pub get_next_buffer : M (VideoSystem E) (Option ℕ)
  get_next_buffer = do
    lock_buffers
    s ← get
    modify (on_stream (λ t. record t { buf_list = tail_of (t.buf_list) }))
    unlock_buffers
    return (head_of s.stream.buf_list)

  abbrev pub requeue : ℕ → M (VideoSystem E) (Unit {0})
  requeue b = do
    modify (on_stream drop_frame)
    lock_buffers
    modify (on_stream (λ t. record t { buf_list = b ∷ t.buf_list }))
    unlock_buffers

  -- The frame that the PTP layer gave goes into the buffer, or the buffer goes back to the front.
  unfoldable pub frame_into : ℕ → ℤ × Option (Ptr × ℕ) → M (VideoSystem E) (Unit {0})
  frame_into b (ret, none) = requeue b
  frame_into b (ret, some (frame_data, frame_size)) =
      if failed ret || (is_null frame_data || frame_size == 0) then requeue b else do
        modify (λ s.
            on_stream (λ t. record (deliver s.now b frame_size t) { last_frame_time = s.now }) s)

  unfoldable pub work_with : TransportOps E → Option ℕ → M (VideoSystem E) (Unit {0})
  work_with ops none = modify (on_stream drop_frame)
  work_with ops (some b) = do
    r ← on_core (ptp_get_liveview_frame ops valid valid valid)
    frame_into b r

  unfoldable pub frame_work : TransportOps E → M (VideoSystem E) (Unit {0})
  frame_work ops = do
    modify (on_stream (λ t. record t { frame_queued = false }))
    s ← get
    if not (is_active s.stream.state) then return tt else do b ← get_next_buffer; work_with ops b

  unfoldable pub frame_to : ℕ → Option ℕ → M (VideoSystem E) ℤ
  frame_to frame_size none = do modify (on_stream drop_frame); return enobufs
  frame_to frame_size (some b) = do
    modify (λ s. on_stream (deliver s.now b frame_size) s)
    return success

  unfoldable pub queue_frame : ℕ → M (VideoSystem E) ℤ
  queue_frame frame_size = do
    s ← get
    if not (is_active s.stream.state)
        then return enodev
        else do b ← get_next_buffer; frame_to frame_size b

  unfoldable pub frame_done : M (VideoSystem E) (Unit {0})
  frame_done = modify (λ s. on_stream (λ t. record t { last_frame_time = s.now }) s)
