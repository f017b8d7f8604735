-- ===== src/Wire.antt =====
-- The byte layout of PTP: `struct ptp_container` of include/core/canon-r5-ptp.h, the function that
-- fills it in drivers/core/canon-r5-ptp.c, and the little-endian conversions around it.
pub mod RoundTrip
use canon_r.Prelude.{
  ℕ, zero, suc, ◌+◌, ◌-◌, ◌*◌, ◌/◌, ◌%◌, ◌^◌, List, [], ◌∷◌, ◌++◌, map, Option, none, some, get_or,
  length,
}

-- A byte of memory; `none` is one that the program has not written since it got the memory.
abbrev pub Byte : Type 0
Byte = Option ℕ

abbrev pub container_command : ℕ
container_command = 1

abbrev pub container_data : ℕ
container_data = 2

abbrev pub container_response : ℕ
container_response = 3

-- `sizeof(struct ptp_container)`, and the same without `params`.
abbrev pub sizeof_container : ℕ
sizeof_container = 32

abbrev pub sizeof_header : ℕ
sizeof_header = 12

-- The fields in the byte order of the machine; `encode` is the struct in memory.
pub record PtpContainer : Type 0 where
  pub length : ℕ  -- u32
  pub type : ℕ  -- u16
  pub code : ℕ  -- u16
  pub trans_id : ℕ  -- u32
  pub params : List (Option ℕ)  -- u32[5]; `none` is a slot that was not written

-- The loop over `params`: it stores at most as many as there is room for.
unfoldable pub store_params : ℕ → List ℕ → List (Option ℕ)
store_params zero ps = []
store_params (suc room) [] = none ∷ store_params room []
store_params (suc room) (p ∷ ps) = some p ∷ store_params room ps

-- The container stands on the stack, so what is not stored is indeterminate.
unfoldable pub build_ptp_container : ℕ → ℕ → ℕ → List ℕ → PtpContainer
build_ptp_container type code trans_id params = record {
  length = (sizeof_container - 20 + length params * 4) % 2 ^ 32;
  type = type;
  code = code;
  trans_id = trans_id;
  params = store_params 5 params;
}

-- cpu_to_le16 and cpu_to_le32, as the bytes that are stored.
unfoldable pub le16 : ℕ → List ℕ
le16 x = x % 256 ∷ x / 256 % 256 ∷ []

unfoldable pub le32 : ℕ → List ℕ
le32 x = x % 256 ∷ x / 256 % 256 ∷ x / 65536 % 256 ∷ x / 16777216 % 256 ∷ []

unfoldable pub encode_params : List (Option ℕ) → List Byte
encode_params [] = []
encode_params (none ∷ ps) = none ∷ none ∷ none ∷ none ∷ encode_params ps
encode_params (some p ∷ ps) = map some (le32 p) ++ encode_params ps

unfoldable pub header : PtpContainer → List ℕ
header c = le32 c.length ++ (le16 c.type ++ (le16 c.code ++ le32 c.trans_id))

unfoldable pub encode : PtpContainer → List Byte
encode c = map some (header c) ++ encode_params c.params

-- le16_to_cpu and le32_to_cpu of the bytes at an offset.
unfoldable pub read16 : List ℕ → ℕ → ℕ
read16 bs o = get_or bs o 0 + 256 * get_or bs (o + 1) 0

unfoldable pub read32 : List ℕ → ℕ → ℕ
read32 bs o = read16 bs o + 65536 * read16 bs (o + 2)

unfoldable pub type_of : List ℕ → ℕ
type_of bs = read16 bs 4

unfoldable pub code_of : List ℕ → ℕ
code_of bs = read16 bs 6

unfoldable pub trans_id_of : List ℕ → ℕ
trans_id_of bs = read32 bs 8
