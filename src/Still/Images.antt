-- ===== src/Still/Images.antt =====
-- The images of drivers/still/canon-r5-still.c: the work that fetches one from the camera, the queue
-- to the reader, the reference counts, and the start and end of the driver.
use canon_r.Prelude.{
  ℕ, ◌+◌, ◌-◌, ◌%◌, ◌^◌, true, false, ◌&&◌, not, List, [], ◌∷◌, ◌++◌, length, Option, none, some,
  ltb, ◌==◌, if◌then◌else◌, ℤ, pos, sub_int, failed, success, einval, enomem, M, ◌>>=◌, ◌>>◌,
  return, get, modify, crash, null_deref, use_after_free, Ptr, null, valid, is_null,
}
use canon_r.Device.{Core}
use canon_r.Core.{still, register_driver, unregister_driver}
use canon_r.Ptp.Still.{ptp_get_captured_image}
use canon_r.Still.{CapturedImage, StillDevice, StillSystem, on_still, on_core}
use canon_r.Still.Capture.{stop_continuous}

abbrev pub max_images : ℕ
max_images = 64

-- The map `m` with `i` at `a`.
abbrev pub put_image :
    ℕ → Option CapturedImage → (ℕ → Option CapturedImage) → ℕ → Option CapturedImage
put_image a i m b = if b == a then i else m b

abbrev pub count_up : ℕ → ℕ → ℕ
count_up n k = (n + k) % 2 ^ 64

-- kfifo_put drops what a full queue has no room for.
abbrev pub kfifo_put : ℕ → List ℕ → List ℕ
kfifo_put a q = if ltb (length q) max_images then q ++ (a ∷ []) else q

module _ {E : Type 0} where
  -- `kmalloc` is what kmalloc gives.
  unfoldable pub alloc_image_buffer : Ptr → Ptr → M (StillSystem E) Ptr
  alloc_image_buffer null kmalloc = return null
  alloc_image_buffer valid kmalloc = do
    s ← get
    if is_null s.core.dev.drivers.still_priv then return null else return kmalloc

  -- The labels `error_free_image` and `error`: the new image is freed, if there is one.
  capture_error : Option ℕ → M (StillSystem E) (Unit {0})
  capture_error image = modify (
      on_still (λ d. record d {
        allocated = elim image [ none ↦ d.allocated | some a ↦ put_image a none d.allocated ];
        stats = record (d.stats) { images_failed = count_up d.stats.images_failed 1 };
        pending_captures = sub_int d.pending_captures 1;
      }))

  -- memcpy of the data to a buffer of its own, and the image on the list and in the queue.
  keep_image : ℕ → Ptr → ℕ → M (StillSystem E) (Unit {0})
  keep_image a source size =
      if is_null source && not (size == 0)
      then crash null_deref
      else modify (
          on_still (λ d. record d {
            allocated =
                put_image a
                  (some (record {
                    image_data = valid;
                    data_size = size;
                    file_size = size;
                    capture_settings = d.settings;
                    ready = true;
                    ref_count = 1;
                  }))
                  d.allocated;
            captured_images = d.captured_images ++ (a ∷ []);
            image_queue = kfifo_put a d.image_queue;
            stats = record (d.stats) {
              images_captured = count_up d.stats.images_captured 1;
              total_bytes = count_up d.stats.total_bytes size;
            };
          }))

  fetch_image : ℕ → Ptr → ℤ × Option (Ptr × ℕ) → M (StillSystem E) (Unit {0})
  unfolding capture_error keep_image alloc_image_buffer
  fetch_image a buffer (ret, none) = capture_error (some a)
  fetch_image a buffer (ret, some (source, size)) =
      if failed ret then capture_error (some a) else do
        copy ← alloc_image_buffer valid buffer
        if is_null copy then capture_error (some a) else keep_image a source size

  -- The first argument is what kzalloc gives for the image, the second what kmalloc gives for its
  -- data. The work leaves the queue when it starts.
  unfoldable pub capture_work : Option ℕ → Ptr → M (StillSystem E) (Unit {0})
  unfolding fetch_image
  capture_work none buffer = do
    modify (on_still (λ d. record d { capture_queued = false }))
    capture_error none
  capture_work (some a) buffer = do
    modify (on_still (λ d. record d { capture_queued = false }))
    r ← on_core (ptp_get_captured_image valid 0x12345678 valid valid)
    fetch_image a buffer r

  -- The image at the front of the queue, with one reference more. A queued image that was freed
  -- is a use of freed memory.
  take_image : ℕ → Option CapturedImage → M (StillSystem E) (Option ℕ)
  take_image a none = crash use_after_free
  take_image a (some i) = do
    modify (
        on_still (λ d. record d {
          allocated = put_image a (some (record i { ref_count = i.ref_count + 1 })) d.allocated;
        }))
    return (some a)

  next_image : List ℕ → M (StillSystem E) (Option ℕ)
  unfolding take_image
  next_image [] = return none
  next_image (a ∷ q) = do
    modify (on_still (λ d. record d { image_queue = q }))
    s ← get
    take_image a (s.still.allocated a)

  unfoldable pub get_next_image : Ptr → M (StillSystem E) (Option ℕ)
  unfolding next_image
  get_next_image null = return none
  get_next_image valid = do s ← get; next_image s.still.image_queue

  drop_image : ℕ → Option CapturedImage → M (StillSystem E) (Unit {0})
  drop_image a none = crash use_after_free
  drop_image a (some i) = modify (
      on_still (λ d. record d {
        allocated =
            put_image a
              (if i.ref_count - 1 == 0
                then none
                else some (record i { ref_count = i.ref_count - 1 }))
              d.allocated;
      }))

  unfoldable pub release_image : Option ℕ → M (StillSystem E) (Unit {0})
  unfolding drop_image
  release_image none = return tt
  release_image (some a) = do s ← get; drop_image a (s.still.allocated a)

abbrev pub no_images : ℕ → Option CapturedImage
no_images a = none

-- The zeroed private data with what `canon_r5_still_init` sets.
abbrev pub fresh_still : StillDevice
fresh_still = record {
  lock = false;
  initialized = true;
  capture_active = false;
  quality = record { format = 0; size = 1; jpeg_quality = 8; raw_plus_jpeg = false };
  settings = record {
    mode = 0;
    focus_mode = 1;
    metering_mode = 0;
    iso = 200;
    shutter_speed = record { numerator = 1; denominator = 125 };
    aperture = record { numerator = 56; denominator = 10 };
    exposure_compensation = pos 0;
    continuous_fps = 10;
    burst_count = 10;
    bracket_shots = 0;
    bracket_step = pos 0;
    timer_delay = 0;
  };
  allocated = no_images;
  captured_images = [];
  image_queue = [];
  pending_captures = pos 0;
  capture_queued = false;
  timer = none;
  continuous_active = false;
  continuous_count = 0;
  stats = record {
    images_captured = 0;
    images_failed = 0;
    total_bytes = 0;
    af_operations = 0;
    af_success = 0;
  };
  focus = record {
    lock = false;
    af_active = false;
    af_complete = false;
    af_queued = false;
    focus_position = 0;
    focus_achieved = false;
  };
}

-- Freeing the images of the list, whoever else holds them.
unfoldable pub free_images : List ℕ → (ℕ → Option CapturedImage) → ℕ → Option CapturedImage
free_images [] m = m
free_images (a ∷ q) m = free_images q (put_image a none m)

module _ {E : Type 0} where
  -- `memory` and `wq` are what kzalloc and create_singlethread_workqueue give. The result has the
  -- driver's private data, if it is kept.
  unfoldable pub still_init : Ptr → Ptr → Ptr → M (Core E) (ℤ × Option StillDevice)
  still_init dev memory wq =
      if is_null dev
      then return (einval, none)
      else if is_null memory
      then return (enomem, none)
      else if is_null wq
      then return (enomem, none)
      else do
        ret ← register_driver still dev valid
        if failed ret then return (ret, none) else return (success, some fresh_still)

  -- The images are freed, the driver unregisters, and its private data is gone.
  unfoldable pub still_cleanup : Ptr → M (StillSystem E) (Unit {0})
  still_cleanup null = return tt
  still_cleanup valid = do
    s ← get
    if is_null s.core.dev.drivers.still_priv then return tt else do
      (if s.still.continuous_active then (do ret ← stop_continuous valid; return tt) else return tt)
      modify (
          on_still (λ d. record d {
            capture_queued = false;
            allocated = free_images d.captured_images d.allocated;
            captured_images = [];
          }))
      on_core (unregister_driver still valid)
