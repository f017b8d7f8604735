-- ===== src/Video/Setting.antt =====
-- The current format of drivers/video/canon-r5-v4l2.c, set and read.
use canon_r.Prelude.{
  ◌≡◌, refl, ◌∙◌, Bool, true, false, Option, none, some, is_some, if◌then◌else◌, ◌>>=◌, Ends,
}
use canon_r.Video.{VideoSystem, VideoStream, PixFormat, VideoFormat, Resolution}
use canon_r.Video.Formats.{video_formats, video_resolutions, find_format, find_resolution, try_fmt}
use canon_r.Video.Negotiation.{
  Supported, try_fmt-Supported, format_in-fourcc, resolution_in-size, format_in-some,
  resolution_in-some,
}
use canon_r.Video.Control.{g_fmt, s_fmt, set_found}

some_of {ℓ} : {A : Type ℓ} (o : Option A) → is_some o ≡ true → (a : A) × (o ≡ some a)
some_of none h = absurd cc
some_of (some a) h = (a, refl)

-- The stream with the format and the resolution of `q`.
abbrev pub SetTo : PixFormat → VideoStream → VideoStream → Type 0
SetTo q t t' =
    (f : VideoFormat) × (r : Resolution) × (f.fourcc ≡ q.pixelformat)
    × (r.width ≡ q.width)
    × (r.height ≡ q.height)
    × (t' ≡ record t { format = some f; resolution = some r })

-- What becomes of the stream, by whether videobuf2 streams.
abbrev pub Reset : Bool → PixFormat → VideoStream → VideoStream → Type 0
Reset true q t t' = t' ≡ t
Reset false q t t' = SetTo q t t'

-- What is given is found again.
found :
    (q : PixFormat)
    → Supported q
    → ((f : VideoFormat) × (find_format q.pixelformat ≡ some f) × (f.fourcc ≡ q.pixelformat))
      × ((r : Resolution) × (find_resolution q.width q.height ≡ some r)
          × (r.width ≡ q.width)
          × (r.height ≡ q.height))
unfolding find_format find_resolution
found q s =
    let (f, ef) = some_of _ (format_in-some q.pixelformat video_formats ∙ s.code) in
    let (r, er) = some_of _ (resolution_in-some q.width q.height video_resolutions ∙ s.area) in
    let of_code = format_in-fourcc (λ f. true) q.pixelformat video_formats f refl ef in
    let of_size = resolution_in-size (λ r. true) q.width q.height video_resolutions r refl er in
    ((f, ef, of_code.1), (r, er, of_size.1, of_size.2))

module _ {E : Type 0} where
  -- Setting a format never follows a NULL pointer, and the format that is read then is the one that
  -- was given for it; the stream has a format with that code and a resolution with
  -- that size, and is otherwise as before. While videobuf2 streams, the format that is read and the
  -- stream are those of before. The rest of the device and the device below are unchanged.
  pub g_fmt-s_fmt :
      (streaming : Bool) (p : PixFormat) (s : VideoSystem E)
      → Ends
          (λ q s'.
            (q ≡ (if streaming then s.pix_format else try_fmt p))
            × Reset streaming (try_fmt p) s.stream s'.stream
            × (s'.device ≡ s.device)
            × (s'.core ≡ s.core))
          ((s_fmt streaming p >>= λ r. g_fmt) s)
  unfolding s_fmt g_fmt set_found
  g_fmt-s_fmt true p s = (refl, refl, refl, refl)
  g_fmt-s_fmt false p s =
      let ((f, ef, cf), (r, er, wr, hr)) = found (try_fmt p) (try_fmt-Supported p).0 in
      rw (ef, er, Ends) (refl, (f, r, cf, wr, hr, refl), refl, refl)
