-- ===== src/Video/Negotiation.antt =====
-- What an application gets for a format that it asks drivers/video/canon-r5-v4l2.c for.
use canon_r.Prelude.{
  ◌||◌, map, is_some, ℕ, ◌+◌, ◌*◌, ◌/◌, ◌^◌, ◌<◌, ◌≡◌, refl, sym, ap, ◌∙◌, inl, inr, Bool, true,
  false, ◌&&◌, List, [], ◌∷◌, Option, none, some, some-injective, ltb, ltb→lt, ◌==◌, ==_iff,
  if◌then◌else◌, Bool-cases, arith,
}
use canon_r.Video.{PixFormat, VideoFormat, Resolution}
use canon_r.Video.Formats.{
  motion_jpeg, video_formats, video_resolutions, format_in, resolution_in, find_format,
  find_resolution, default_resolution, image_size, line_of, sized, chosen, try_fmt,
}

-- The codes MJPG, YUYV and NV12, and the sizes of the images that the driver gives.
abbrev pub mjpg : ℕ
mjpg = 0x47504A4D

abbrev pub nv12 : ℕ
nv12 = 0x3231564E

abbrev pub known_codes : List ℕ
known_codes = mjpg ∷ 0x56595559 ∷ nv12 ∷ []

abbrev pub known_sizes : List (ℕ × ℕ)
known_sizes =
    (8192, 5464)
    ∷ (7680, 4320)
    ∷ (4096, 2160)
    ∷ (3840, 2160)
    ∷ (1920, 1080)
    ∷ (1920, 1080)
    ∷ (1920, 1080)
    ∷ (1280, 720)
    ∷ (1280, 720)
    ∷ (640, 480)
    ∷ []

abbrev pub one_of : List ℕ → ℕ → Bool
one_of [] code = false
one_of (c ∷ rest) code = c == code || one_of rest code

abbrev pub size_of : List (ℕ × ℕ) → ℕ → ℕ → Bool
size_of [] width height = false
size_of (x ∷ rest) width height = x.0 == width && x.1 == height || size_of rest width height

-- The bits of a pixel, and the sizes as they are meant, without a limit on the numbers.
abbrev pub bits_of : ℕ → ℕ
bits_of code = if code == nv12 then 12 else 16

abbrev pub exact_line : ℕ → ℕ → ℕ
exact_line code width = if code == mjpg then 0 else (width * bits_of code / 8 + 15) / 16 * 16

abbrev pub exact_size : ℕ → ℕ → ℕ → ℕ
exact_size code width height =
    if code == mjpg then width * height * 16 / 8 else exact_line code width * height

abbrev fits : VideoFormat → Resolution → Bool
fits f r =
    line_of f r.width == exact_line f.fourcc r.width
    && (image_size f r.width r.height == exact_size f.fourcc r.width r.height
        && ltb (exact_size f.fourcc r.width r.height) (2 ^ 32))

abbrev pub all_of {ℓ} : {A : Type ℓ} → (A → Bool) → List A → Bool
all_of p [] = true
all_of p (a ∷ rest) = p a && all_of p rest

all_fit : all_of (λ f. all_of (fits f) video_resolutions) video_formats ≡ true
all_fit = refl

and_left : (a b : Bool) → (a && b) ≡ true → a ≡ true
and_left true b h = refl
and_left false b h = h

and_right : (a b : Bool) → (a && b) ≡ true → b ≡ true
and_right true b h = h
and_right false b h = absurd cc

-- What a search in a table finds passes the test that all of the table pass, and has the code or
-- the size that was searched for.
pub format_in-fourcc :
    (p : VideoFormat → Bool) (c : ℕ) (l : List VideoFormat) (f : VideoFormat)
    → all_of p l ≡ true
    → format_in c l ≡ some f
    → (p f ≡ true) × (f.fourcc ≡ c)
format_in-fourcc p c [] f a e = absurd cc
format_in-fourcc p c (g ∷ l) f a e = elim (Bool-cases (g.fourcc == c)) [
  | inr k ↦ format_in-fourcc p c l f (and_right (p g) (all_of p l) a) (sym (skip k) ∙ e)
  | inl k ↦
      let same : g ≡ f = some-injective _ _ (sym (take_it k) ∙ e) in
      (
        ap p (sym same) ∙ and_left (p g) (all_of p l) a,
        ap (λ f. f.fourcc) (sym same) ∙ (==_iff g.fourcc c).0 k,
      )
]
  where
    skip : (g.fourcc == c) ≡ false → format_in c (g ∷ l) ≡ format_in c l
    skip k = rw k refl

    take_it : (g.fourcc == c) ≡ true → format_in c (g ∷ l) ≡ some g
    take_it k = rw k refl

pub resolution_in-size :
    (p : Resolution → Bool) (w h : ℕ) (l : List Resolution) (r : Resolution)
    → all_of p l ≡ true
    → resolution_in w h l ≡ some r
    → (p r ≡ true) × (r.width ≡ w) × (r.height ≡ h)
resolution_in-size p w h [] r a e = absurd cc
resolution_in-size p w h (g ∷ l) r a e = elim (Bool-cases (g.width == w && g.height == h)) [
  | inr k ↦ resolution_in-size p w h l r (and_right (p g) (all_of p l) a) (sym (skip k) ∙ e)
  | inl k ↦
      let same : g ≡ r = some-injective _ _ (sym (take_it k) ∙ e) in
      (
        ap p (sym same) ∙ and_left (p g) (all_of p l) a,
        ap (λ r. r.width) (sym same)
            ∙ (==_iff g.width w).0 (and_left (g.width == w) (g.height == h) k),
        ap (λ r. r.height) (sym same)
            ∙ (==_iff g.height h).0 (and_right (g.width == w) (g.height == h) k),
      )
]
  where
    skip : (g.width == w && g.height == h) ≡ false → resolution_in w h (g ∷ l) ≡ resolution_in w h l
    skip k = rw k refl

    take_it : (g.width == w && g.height == h) ≡ true → resolution_in w h (g ∷ l) ≡ some g
    take_it k = rw k refl

-- Whether the searches find something is whether it is among the codes and the sizes.
pub format_in-some :
    (c : ℕ) (l : List VideoFormat) → is_some (format_in c l) ≡ one_of (map (λ f. f.fourcc) l) c
format_in-some c [] = refl
format_in-some c (f ∷ l) = elim (Bool-cases (f.fourcc == c)) [
  | inl e ↦ rw e refl
  | inr e ↦ rw e (format_in-some c l)
]

pub resolution_in-some :
    (w h : ℕ) (l : List Resolution)
    → is_some (resolution_in w h l) ≡ size_of (map (λ r. (r.width, r.height)) l) w h
resolution_in-some w h [] = refl
resolution_in-some w h (r ∷ l) = elim (Bool-cases (r.width == w && r.height == h)) [
  | inl e ↦ rw e refl
  | inr e ↦ rw e (resolution_in-some w h l)
]

-- A code and a size that the driver knows, with the sizes that are meant, which fit a u32.
pub record Supported (q : PixFormat) : Type 0 where
  pub code : one_of known_codes q.pixelformat ≡ true
  pub area : size_of known_sizes q.width q.height ≡ true
  pub line : q.bytesperline ≡ exact_line q.pixelformat q.width
  pub size : q.sizeimage ≡ exact_size q.pixelformat q.width q.height
  pub bound : q.sizeimage < 2 ^ 32

supported :
    (f : VideoFormat) (r : Resolution) (p : PixFormat)
    → format_in p.pixelformat video_formats ≡ some f
    → resolution_in p.width p.height video_resolutions ≡ some r
    → Supported (sized f p)
supported f r p ef er =
    let row =
      format_in-fourcc (λ f. all_of (fits f) video_resolutions) p.pixelformat video_formats f
        all_fit ef in
    let (ok, w, h) = resolution_in-size (fits f) p.width p.height video_resolutions r row.0 er in
    let c = row.1 in
    let line_ok = and_left (line_of f r.width == exact_line f.fourcc r.width) _ ok in
    let rest = and_right (line_of f r.width == exact_line f.fourcc r.width) _ ok in
    let size_ok =
      and_left (image_size f r.width r.height == exact_size f.fourcc r.width r.height) _ rest in
    let bound_ok =
      and_right (image_size f r.width r.height == exact_size f.fourcc r.width r.height) _ rest in
    let size_eq : image_size f p.width p.height ≡ exact_size p.pixelformat p.width p.height =
      rw (← w, ← h, ← c) ((==_iff _ _).0 size_ok) in
    let size_bound : exact_size p.pixelformat p.width p.height < 2 ^ 32 =
      rw (← w, ← h, ← c) (ltb→lt _ _ bound_ok) in
    record {
      code = sym (format_in-some p.pixelformat video_formats) ∙ ap is_some ef;
      area = sym (resolution_in-some p.width p.height video_resolutions) ∙ ap is_some er;
      line = rw (← w, ← c) ((==_iff _ _).0 line_ok);
      size = size_eq;
      bound = omega (arith, size_eq, size_bound);
    }

chosen-Supported :
    (p : PixFormat) (f : Option VideoFormat) (r : Option Resolution)
    → format_in p.pixelformat video_formats ≡ f
    → resolution_in p.width p.height video_resolutions ≡ r
    → Supported (chosen f r p)
chosen-Supported p none none ef er =
    supported motion_jpeg default_resolution
      (record p { pixelformat = motion_jpeg.fourcc; width = 1920; height = 1080 }) refl refl
chosen-Supported p none (some r) ef er =
    supported motion_jpeg r (record p { pixelformat = motion_jpeg.fourcc }) refl er
chosen-Supported p (some f) none ef er =
    supported f default_resolution (record p { width = 1920; height = 1080 }) ef refl
chosen-Supported p (some f) (some r) ef er = supported f r p ef er

-- What is given for what was asked for: what the driver does not know becomes MJPG, or 1920 by 1080.
pub record Given (p q : PixFormat) : Type 0 where
  pub code : q.pixelformat ≡ (if one_of known_codes p.pixelformat then p.pixelformat else mjpg)
  pub width : q.width ≡ (if size_of known_sizes p.width p.height then p.width else 1920)
  pub height : q.height ≡ (if size_of known_sizes p.width p.height then p.height else 1080)

chosen-Given :
    (p : PixFormat) (f : Option VideoFormat) (r : Option Resolution)
    → is_some f ≡ one_of known_codes p.pixelformat
    → is_some r ≡ size_of known_sizes p.width p.height
    → Given p (chosen f r p)
chosen-Given p none none ef er = record {
  code = rw (← ef) refl;
  width = rw (← er) refl;
  height = rw (← er) refl;
}
chosen-Given p none (some r) ef er = record {
  code = rw (← ef) refl;
  width = rw (← er) refl;
  height = rw (← er) refl;
}
chosen-Given p (some f) none ef er = record {
  code = rw (← ef) refl;
  width = rw (← er) refl;
  height = rw (← er) refl;
}
chosen-Given p (some f) (some r) ef er = record {
  code = rw (← ef) refl;
  width = rw (← er) refl;
  height = rw (← er) refl;
}

-- Whatever an application asks for, it gets a code and a size that the driver knows, with the line
-- and image sizes worked out exactly: no product overflows 32 bits. A known code is kept, and so is
-- a known size; the others become Motion-JPEG and 1920 by 1080.
pub try_fmt-Supported : (p : PixFormat) → Supported (try_fmt p) × Given p (try_fmt p)
unfolding try_fmt find_format find_resolution
try_fmt-Supported p = (
  chosen-Supported p (format_in p.pixelformat video_formats)
      (resolution_in p.width p.height video_resolutions) refl refl,
  chosen-Given p (format_in p.pixelformat video_formats)
      (resolution_in p.width p.height video_resolutions)
      (format_in-some p.pixelformat video_formats)
      (resolution_in-some p.width p.height video_resolutions),
)

sized-again :
    (f : VideoFormat) (r : Resolution) (p : PixFormat)
    → format_in p.pixelformat video_formats ≡ some f
    → resolution_in p.width p.height video_resolutions ≡ some r
    → try_fmt (sized f p) ≡ sized f p
unfolding try_fmt find_format find_resolution
sized-again f r p ef er =
    ap (λ o. chosen o (resolution_in p.width p.height video_resolutions) (sized f p)) ef
    ∙ ap (λ o. chosen (some f) o (sized f p)) er

chosen-again :
    (p : PixFormat) (f : Option VideoFormat) (r : Option Resolution)
    → format_in p.pixelformat video_formats ≡ f
    → resolution_in p.width p.height video_resolutions ≡ r
    → try_fmt (chosen f r p) ≡ chosen f r p
chosen-again p none none ef er =
    sized-again motion_jpeg default_resolution
      (record p { pixelformat = motion_jpeg.fourcc; width = 1920; height = 1080 }) refl refl
chosen-again p none (some r) ef er =
    sized-again motion_jpeg r (record p { pixelformat = motion_jpeg.fourcc }) refl er
chosen-again p (some f) none ef er =
    sized-again f default_resolution (record p { width = 1920; height = 1080 }) ef refl
chosen-again p (some f) (some r) ef er = sized-again f r p ef er

try-eq :
    (p : PixFormat)
    → try_fmt p ≡ chosen (find_format p.pixelformat) (find_resolution p.width p.height) p
unfolding try_fmt
try-eq p = refl

-- Asking for what was given gives it again.
pub try_fmt_idem : (p : PixFormat) → try_fmt (try_fmt p) ≡ try_fmt p
unfolding find_format find_resolution
try_fmt_idem p =
    rw (try-eq p)
      (chosen-again p (find_format p.pixelformat) (find_resolution p.width p.height) refl refl)
