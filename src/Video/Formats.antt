-- ===== src/Video/Formats.antt =====
-- The formats of drivers/video/canon-r5-v4l2.c: the tables, the searches in them, and what is made of
-- a format that an application asks for.
use canon_r.Prelude.{
  ℕ, ◌+◌, ◌-◌, ◌*◌, ◌/◌, ◌%◌, ◌^◌, Bool, true, false, ◌&&◌, List, [], ◌∷◌, Option, none, some, ltb,
  ◌==◌, if◌then◌else◌, ℤ, success, einval, codes,
}
use canon_r.Video.{PixFormat, VideoFormat, Resolution, Fraction}

-- v4l2_fourcc
abbrev pub fourcc_of : ℕ → ℕ → ℕ → ℕ → ℕ
fourcc_of a b c d = a + b * 2 ^ 8 + c * 2 ^ 16 + d * 2 ^ 24

abbrev pub motion_jpeg : VideoFormat
motion_jpeg = record {
  fourcc = fourcc_of b'M' b'J' b'P' b'G';
  depth = 16;
  bytesperline_align = 16;
  name = codes "Motion-JPEG";
  compressed = true;
}

abbrev pub video_formats : List VideoFormat
video_formats =
    motion_jpeg
    ∷ record {
      fourcc = fourcc_of b'Y' b'U' b'Y' b'V';
      depth = 16;
      bytesperline_align = 16;
      name = codes "YUYV 4:2:2";
      compressed = false;
    }
    ∷ record {
      fourcc = fourcc_of b'N' b'V' b'1' b'2';
      depth = 12;
      bytesperline_align = 16;
      name = codes "Y/CbCr 4:2:0";
      compressed = false;
    }
    ∷ []

-- A resolution whose rate is a whole number.
abbrev whole_rate : ℕ → ℕ → ℕ → List ℕ → Resolution
whole_rate width height fps name = record {
  width = width;
  height = height;
  fps_num = fps;
  fps_den = 1;
  name = name;
}

abbrev pub raw_8k : Resolution
raw_8k = whole_rate 8192 5464 30 (codes "8K RAW")

abbrev pub video_resolutions : List Resolution
video_resolutions =
    raw_8k
    ∷ whole_rate 7680 4320 30 (codes "8K UHD")
    ∷ whole_rate 4096 2160 60 (codes "4K Cinema")
    ∷ whole_rate 3840 2160 60 (codes "4K UHD")
    ∷ whole_rate 1920 1080 120 (codes "Full HD 120p")
    ∷ whole_rate 1920 1080 60 (codes "Full HD 60p")
    ∷ whole_rate 1920 1080 30 (codes "Full HD 30p")
    ∷ whole_rate 1280 720 120 (codes "HD 120p")
    ∷ whole_rate 1280 720 60 (codes "HD 60p")
    ∷ whole_rate 640 480 30 (codes "VGA")
    ∷ []

-- The searches, over what is left of a table.
abbrev pub format_in : ℕ → List VideoFormat → Option VideoFormat
format_in fourcc [] = none
format_in fourcc (f ∷ fs) = if f.fourcc == fourcc then some f else format_in fourcc fs

abbrev pub resolution_in : ℕ → ℕ → List Resolution → Option Resolution
resolution_in width height [] = none
resolution_in width height (r ∷ rs) =
    if r.width == width && r.height == height then some r else resolution_in width height rs

unfoldable pub find_format : ℕ → Option VideoFormat
find_format fourcc = format_in fourcc video_formats

unfoldable pub find_resolution : ℕ → ℕ → Option Resolution
find_resolution width height = resolution_in width height video_resolutions

abbrev pub get_or_default {ℓ} : {A : Type ℓ} → Option A → A → A
get_or_default none d = d
get_or_default (some a) d = a

abbrev pub default_resolution : Resolution
default_resolution = get_or_default (resolution_in 1920 1080 video_resolutions) raw_8k

-- ALIGN for a power of two, on u32.
abbrev pub align_up : ℕ → ℕ → ℕ
align_up n a = (n + (a - 1)) % 2 ^ 32 / a * a

-- The line of an uncompressed image, and the size of an image.
abbrev pub line_of : VideoFormat → ℕ → ℕ
line_of f width =
    if f.compressed then 0 else align_up (width * f.depth % 2 ^ 32 / 8) f.bytesperline_align

abbrev pub image_size : VideoFormat → ℕ → ℕ → ℕ
image_size f width height =
    if f.compressed
    then width * height * f.depth % 2 ^ 32 / 8
    else line_of f width * height % 2 ^ 32

-- The format with the sizes worked out, V4L2_FIELD_NONE and V4L2_COLORSPACE_SRGB.
abbrev pub sized : VideoFormat → PixFormat → PixFormat
sized f p = record p {
  bytesperline = line_of f (p.width);
  sizeimage = image_size f (p.width) (p.height);
  field = 1;
  colorspace = 8;
}

abbrev pub with_format : Option VideoFormat → PixFormat → PixFormat
with_format none p = record p { pixelformat = motion_jpeg.fourcc }
with_format (some f) p = p

abbrev pub with_resolution : Option Resolution → Resolution → PixFormat → PixFormat
with_resolution none d p = record p { width = d.width; height = d.height }
with_resolution (some r) d p = p

-- By what the two searches found.
abbrev pub chosen : Option VideoFormat → Option Resolution → PixFormat → PixFormat
chosen format found p =
    sized (get_or_default format motion_jpeg)
      (with_resolution found default_resolution (with_format format p))

-- The format that is given for one that is asked for; the result is always 0.
unfoldable pub try_fmt : PixFormat → PixFormat
unfolding find_format find_resolution
try_fmt p = chosen (find_format p.pixelformat) (find_resolution p.width p.height) p

abbrev pub format_at : ℕ → List VideoFormat → Option VideoFormat
format_at i [] = none
format_at i (f ∷ fs) = if i == 0 then some f else format_at (i - 1) fs

abbrev pub resolution_at : ℕ → List Resolution → Option Resolution
resolution_at i [] = none
resolution_at i (r ∷ rs) = if i == 0 then some r else resolution_at (i - 1) rs

-- The result with the flag for compressed formats, the code and the name.
pub enum_fmt : ℕ → ℤ × Option (Bool × ℕ × List ℕ)
enum_fmt index = elim (format_at index video_formats) [
  | none ↦ (einval, none)
  | some f ↦ (success, some (f.compressed, f.fourcc, f.name))
]

-- The result with the width and the height.
pub enum_framesizes : ℕ → ℕ → ℤ × Option (ℕ × ℕ)
unfolding find_format
enum_framesizes index pixel_format = elim (resolution_at index video_resolutions) [
  | none ↦ (einval, none)
  | some r ↦ elim (find_format pixel_format) [
    | none ↦ (einval, none)
    | some f ↦ (success, some (r.width, r.height))
  ]
]

-- The interval is the reciprocal of the rate.
abbrev pub interval_of : Resolution → Fraction
interval_of r = record { numerator = r.fps_den; denominator = r.fps_num }

pub enum_frameintervals : ℕ → ℕ → ℕ → ℕ → ℤ × Option Fraction
unfolding find_format find_resolution
enum_frameintervals index pixel_format width height =
    if ltb 0 index then (einval, none) else elim (find_format pixel_format) [
      | none ↦ (einval, none)
      | some f ↦ elim (find_resolution width height) [
        | none ↦ (einval, none)
        | some r ↦ (success, some (interval_of r))
      ]
    ]
