-- ===== src/Wire/RoundTrip.antt =====
-- What the encoding of a container keeps, and which bytes of it go to the camera.
use canon_r.Prelude.{
  ℕ, zero, suc, ◌+◌, ◌-◌, ◌*◌, ◌/◌, ◌%◌, ◌^◌, ◌≤◌, ◌<◌, ◌≡◌, refl, ap, ◌∙◌, List, [], ◌∷◌, ◌++◌,
  map, some, length, arith, take,
}
use canon_r.Wire.{
  Byte, PtpContainer, store_params, build_ptp_container, le16, le32, encode_params, header, encode,
  read16, read32, type_of, code_of, trans_id_of, sizeof_container, sizeof_header,
}

le16_value : (x : ℕ) → x < 2 ^ 16 → x % 256 + 256 * (x / 256 % 256) ≡ x
le16_value x h = omega arith

le32_value :
    (x : ℕ)
    → x < 2 ^ 32
    → x % 256 + 256 * (x / 256 % 256) + 65536 * (x / 65536 % 256 + 256 * (x / 16777216 % 256)) ≡ x
le32_value x h = omega arith

-- The type, the code and the transaction id that stand in a container's header are read back from
-- its bytes, whatever follows the header, when they fit their fields.
pub decode-header :
    (c : PtpContainer) (rest : List ℕ)
    → c.type < 2 ^ 16
    → c.code < 2 ^ 16
    → c.trans_id < 2 ^ 32
    → (type_of (header c ++ rest) ≡ c.type)
      × (code_of (header c ++ rest) ≡ c.code)
      × (trans_id_of (header c ++ rest) ≡ c.trans_id)
unfolding header le16 le32 read16 read32 type_of code_of trans_id_of
decode-header c rest ht hc hi =
    (le16_value c.type ht, le16_value c.code hc, le32_value c.trans_id hi)

pub length-header : (c : PtpContainer) → length (header c) ≡ sizeof_header
unfolding header le16 le32
length-header c = refl

-- The lowest `n` bytes of a number, the lowest first.
abbrev pub little : ℕ → ℕ → List ℕ
little zero x = []
little (suc n) x = x % 256 ∷ little n (x / 256)

-- The twelve bytes before the parameters of a container.
abbrev pub header_bytes : ℕ → ℕ → ℕ → ℕ → List ℕ
header_bytes length type code trans_id =
    little 4 length ++ (little 2 type ++ (little 2 code ++ little 4 trans_id))

le16-little : (x : ℕ) → le16 x ≡ little 2 x
unfolding le16
le16-little x = refl

le32-little : (x : ℕ) → le32 x ≡ little 4 x
unfolding le32
le32-little x =
    let third : x / 65536 % 256 ≡ x / 256 / 256 % 256 = omega arith in
    let fourth : x / 16777216 % 256 ≡ x / 256 / 256 / 256 % 256 = omega arith in
    rw (third, fourth) refl

pub header-bytes : (c : PtpContainer) → header c ≡ header_bytes c.length c.type c.code c.trans_id
unfolding header
header-bytes c =
    rw (le32-little c.length, le16-little c.type, le16-little c.code, le32-little c.trans_id) refl

-- The bytes of a list of parameters.
abbrev pub wire_params : List ℕ → List ℕ
wire_params [] = []
wire_params (p ∷ ps) = little 4 p ++ wire_params ps

take_stored :
    (room n : ℕ) (ps : List ℕ)
    → length ps ≤ room
    → n ≡ length ps * 4
    → take n (encode_params (store_params room ps)) ≡ map some (wire_params ps)
unfolding encode_params store_params
take_stored zero zero [] h e = refl
take_stored zero (suc n) [] h e = absurd (omega arith)
take_stored (suc room) zero [] h e = refl
take_stored (suc room) (suc n) [] h e = absurd (omega arith)
take_stored zero n (p ∷ ps) h e = absurd (omega arith)
take_stored (suc room) zero (p ∷ ps) h e = absurd (omega arith)
take_stored (suc room) (suc zero) (p ∷ ps) h e = absurd (omega arith)
take_stored (suc room) (suc (suc zero)) (p ∷ ps) h e = absurd (omega arith)
take_stored (suc room) (suc (suc (suc zero))) (p ∷ ps) h e = absurd (omega arith)
take_stored (suc room) (suc (suc (suc (suc n)))) (p ∷ ps) h e =
    rw (le32-little p, take_stored room n ps (omega arith) (omega arith)) refl

take-header :
    (c : PtpContainer) (n m : ℕ) (rest : List Byte)
    → m ≡ 12 + n
    → take m (map some (header c) ++ rest) ≡ map some (header c) ++ take n rest
unfolding header le16 le32
take-header c n m rest e =
    let go : m ≡ suc (suc (suc (suc (suc (suc (suc (suc (suc (suc (suc (suc n))))))))))) =
      omega arith in
    rw go refl

-- A command with at most five parameters is sent as its header followed by the parameters, four
-- bytes each: every byte that goes out has been written, and no parameter is cut off.
pub take-encode :
    (type code trans_id : ℕ) (ps : List ℕ)
    → length ps ≤ 5
    → let c = build_ptp_container type code trans_id ps in
      take c.length (encode c)
      ≡ map some (header_bytes (12 + length ps * 4) type code trans_id) ++ map some (wire_params ps)
unfolding encode build_ptp_container
take-encode type code trans_id ps h =
    take-header _ (length ps * 4) _ _ (omega arith)
    ∙ ap (◌++◌ (map some (header (build_ptp_container type code trans_id ps))))
        (take_stored 5 (length ps * 4) ps h refl)
    ∙ ap (λ bs. map some bs ++ map some (wire_params ps))
        (header-bytes (build_ptp_container type code trans_id ps) ∙ counted)
  where
    counted :
        header_bytes ((32 - 20 + length ps * 4) % 2 ^ 32) type code trans_id
        ≡ header_bytes (12 + length ps * 4) type code trans_id
    counted = ap (λ n. header_bytes n type code trans_id) (omega arith)

length_stored : (room : ℕ) (ps : List ℕ) → length (encode_params (store_params room ps)) ≡ 4 * room
unfolding encode_params store_params le32
length_stored zero ps = refl
length_stored (suc room) [] = omega (arith, length_stored room [])
length_stored (suc room) (p ∷ ps) = omega (arith, length_stored room ps)

-- The struct has the size that the C compiler gives it, whatever the length field says.
pub length-encode :
    (c : PtpContainer) (ps : List ℕ)
    → c.params ≡ store_params 5 ps
    → length (encode c) ≡ sizeof_container
unfolding encode header le16 le32
length-encode c ps e = rw e (omega (arith, length_stored 5 ps))

pub params-build :
    (type code trans_id : ℕ) (ps : List ℕ)
    → (build_ptp_container type code trans_id ps).params ≡ store_params 5 ps
unfolding build_ptp_container
params-build type code trans_id ps = refl

pub length-encode-build :
    (type code trans_id : ℕ) (ps : List ℕ)
    → length (encode (build_ptp_container type code trans_id ps)) ≡ sizeof_container
length-encode-build type code trans_id ps =
    length-encode (build_ptp_container type code trans_id ps) ps
      (params-build type code trans_id ps)

-- The length field counts the header and four bytes for each parameter.
pub length-build :
    (type code trans_id : ℕ) (ps : List ℕ)
    → length ps ≤ 5
    → (build_ptp_container type code trans_id ps).length ≡ sizeof_header + length ps * 4
unfolding build_ptp_container
length-build type code trans_id ps h = omega arith
