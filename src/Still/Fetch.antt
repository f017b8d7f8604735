-- ===== src/Still/Fetch.antt =====
-- What becomes of the images of drivers/still/canon-r5-still.c: fetching one from the camera.
use canon_r.Prelude.{ℕ, ◌≡◌, refl, false, Option, none, some, sub_int, done, Ptr}
use canon_r.Ptp.Still.{ptp_get_captured_image}
use canon_r.Still.{StillDevice, StillSystem, on_still}
use canon_r.Still.Images.{capture_work, alloc_image_buffer, put_image, count_up}

-- The data after a fetch that failed: `image` is not allocated any more.
abbrev pub failed_fetch : Option ℕ → StillDevice → StillDevice
failed_fetch image d = record d {
  capture_queued = false;
  allocated = elim image [ none ↦ d.allocated | some a ↦ put_image a none d.allocated ];
  stats = record (d.stats) { images_failed = count_up d.stats.images_failed 1 };
  pending_captures = sub_int d.pending_captures 1;
}

module _ {E : Type 0} where
  -- Whatever memory there is, the work that fetches a picture fails, since the PTP layer has no
  -- data to give yet: no image is kept or queued, the failure is counted, one picture less is
  -- pending, and `capture_active` stays as it is.
  pub capture_work-failed_fetch :
      (image : Option ℕ) (buffer : Ptr) (s : StillSystem E)
      → capture_work image buffer s ≡ done tt (on_still (failed_fetch image) s)
  unfolding capture_work ptp_get_captured_image alloc_image_buffer
  capture_work-failed_fetch none buffer s = refl
  capture_work-failed_fetch (some a) buffer s = refl
