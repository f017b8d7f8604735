-- ===== src/Storage/Extension.antt =====
-- The checks of values of drivers/storage/canon-r5-storage.c, and the type of a file by its name.
use canon_r.Prelude.{
  ℕ, ◌≡◌, refl, ap, ◌∙◌, last_match, Bool, ◌&&◌, ◌||◌, List, [], ◌∷◌, map, Option, none, some, ltb,
  ◌==◌, if◌then◌else◌, codes, to_upper, same_caseless, strrchr, to_lower-to_upper, to_upper-dot,
  Bool-cases, inl, inr,
}
use canon_r.Storage.{
  FileType, file_unknown, file_jpeg, file_raw_cr3, file_raw_cr2, file_heif, file_mov, file_mp4,
  file_wav,
}

-- The enums as numbers here: a caller may pass any.
pub storage_type_valid : ℕ → Bool
storage_type_valid type = ltb 0 type && ltb type 4

pub file_type_valid : ℕ → Bool
file_type_valid type = ltb type 9

-- The type by the text after the dot.
unfoldable pub type_of_extension : List ℕ → FileType
type_of_extension ext =
    if same_caseless ext (codes "jpg") || same_caseless ext (codes "jpeg")
    then file_jpeg
    else if same_caseless ext (codes "cr3")
    then file_raw_cr3
    else if same_caseless ext (codes "cr2")
    then file_raw_cr2
    else if same_caseless ext (codes "heic") || same_caseless ext (codes "heif")
    then file_heif
    else if same_caseless ext (codes "mov")
    then file_mov
    else if same_caseless ext (codes "mp4")
    then file_mp4
    else if same_caseless ext (codes "wav")
    then file_wav
    else file_unknown

-- `ext++`
abbrev skip_dot : List ℕ → List ℕ
skip_dot [] = []
skip_dot (c ∷ s) = s

abbrev by_extension : Option (List ℕ) → FileType
by_extension none = file_unknown
by_extension (some ext) = type_of_extension (skip_dot ext)

unfoldable pub detect_file_type : List ℕ → FileType
detect_file_type filename = by_extension (strrchr filename b'.')

same_caseless-map-to_upper : (s t : List ℕ) → same_caseless (map to_upper s) t ≡ same_caseless s t
same_caseless-map-to_upper [] t = refl
same_caseless-map-to_upper (c ∷ s) [] = refl
same_caseless-map-to_upper (c ∷ s) (d ∷ t) =
    rw (to_lower-to_upper c, same_caseless-map-to_upper s t) refl

type_of_extension-map-to_upper :
    (ext : List ℕ) → type_of_extension (map to_upper ext) ≡ type_of_extension ext
unfolding type_of_extension
type_of_extension-map-to_upper ext = simp same_caseless-map-to_upper

abbrev upper_option : Option (List ℕ) → Option (List ℕ)
upper_option none = none
upper_option (some s) = some (map to_upper s)

last_match-map-to_upper :
    (x : ℕ) (s : List ℕ) (o : Option (List ℕ))
    → last_match (to_upper x) (map to_upper s) b'.' (upper_option o)
      ≡ upper_option (last_match x s b'.' o)
unfolding last_match
last_match-map-to_upper x s (some t) = refl
last_match-map-to_upper x s none = elim (Bool-cases (x == b'.')) [
  | inl e ↦ rw (to_upper-dot x, e) refl
  | inr e ↦ rw (to_upper-dot x, e) refl
]

strrchr-map-to_upper : (s : List ℕ) → strrchr (map to_upper s) b'.' ≡ upper_option (strrchr s b'.')
unfolding strrchr
strrchr-map-to_upper [] = refl
strrchr-map-to_upper (c ∷ s) =
    ap (last_match (to_upper c) (map to_upper s) b'.') (strrchr-map-to_upper s)
    ∙ last_match-map-to_upper c s (strrchr s b'.')

by_extension-map-to_upper : (o : Option (List ℕ)) → by_extension (upper_option o) ≡ by_extension o
by_extension-map-to_upper none = refl
by_extension-map-to_upper (some []) = refl
by_extension-map-to_upper (some (c ∷ ext)) = type_of_extension-map-to_upper ext

-- The type of a file does not depend on the case of its name.
pub detect_file_type-map-to_upper :
    (filename : List ℕ) → detect_file_type (map to_upper filename) ≡ detect_file_type filename
unfolding detect_file_type
detect_file_type-map-to_upper filename =
    ap by_extension (strrchr-map-to_upper filename)
    ∙ by_extension-map-to_upper (strrchr filename b'.')
