-- ===== src/Bitfield/Tests.antt =====
-- Concrete numbers, wider than some of the fields.
use couchstore.Base.{◌≡◌, ℕ, ◌%◌, ◌^◌, List, [], ◌∷◌, ◌++◌}
use couchstore.Bitfield.{
  encode_raw08, encode_raw16, encode_raw24, encode_raw32, encode_raw40, encode_raw48, encode_raw64,
  decode_raw08, decode_raw16, decode_raw24, decode_raw32, decode_raw40, decode_raw48, decode_raw64,
}
use couchstore.Bitfield.Widths.{decode-encode}

decode-encode_example :
    (decode_raw08 (encode_raw08 0x01020304 ++ 9 ∷ []) ≡ 0x01020304 % 2 ^ 8)
    × (decode_raw16 (encode_raw16 0x01020304 ++ 9 ∷ []) ≡ 0x01020304 % 2 ^ 16)
    × (decode_raw24 (encode_raw24 0x01020304 ++ 9 ∷ []) ≡ 0x01020304 % 2 ^ 24)
    × (decode_raw32 (encode_raw32 0x01020304 ++ 9 ∷ []) ≡ 0x01020304 % 2 ^ 32)
    × (decode_raw40 (encode_raw40 0x01020304 ++ 9 ∷ []) ≡ 0x01020304 % 2 ^ 40)
    × (decode_raw48 (encode_raw48 0x01020304 ++ 9 ∷ []) ≡ 0x01020304 % 2 ^ 48)
    × (decode_raw64 (encode_raw64 0x01020304 ++ 9 ∷ []) ≡ 0x01020304 % 2 ^ 64)
decode-encode_example = decode-encode 0x01020304 (9 ∷ [])

abbrev raw : List ℕ
raw = 1 ∷ 2 ∷ 3 ∷ []
