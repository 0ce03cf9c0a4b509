-- ===== src/Bitfield/Widths.antt =====
-- The encoders and decoders of each width.
use couchstore.Base.{
  ℕ, ◌%◌, ◌^◌, ◌≡◌, refl, sym, ap, ◌∙◌, arith, List, ◌++◌, length, drop, drop-append_length, All,
}
use couchstore.Bitfield.{
  IsByte, memory_of_hton, ntoh_of_memory, decode_raw08, decode_raw16, decode_raw24, decode_raw32,
  decode_raw40, decode_raw48, decode_raw64, encode_raw08, encode_raw16, encode_raw24, encode_raw32,
  encode_raw40, encode_raw48, encode_raw64,
}
use couchstore.Bitfield.RoundTrip.{
  length-memory_of_hton, All-memory_of_hton, encode_raw-eq, decode_raw-encode_raw,
  encode_raw-decode_raw, ntoh-hton, hton-ntoh,
}
use couchstore.Base.{take-append_length, take-all}

pub encode_raw08-eq : (v : ℕ) → encode_raw08 v ≡ memory_of_hton 1 v
unfolding encode_raw08
encode_raw08-eq v = refl

pub length-encode_raw08 : (v : ℕ) → length (encode_raw08 v) ≡ 1
length-encode_raw08 v = rw encode_raw08-eq (length-memory_of_hton 1 v)

pub All-encode_raw08 : (v : ℕ) → All IsByte (encode_raw08 v)
All-encode_raw08 v = rw encode_raw08-eq (All-memory_of_hton 1 v)

pub drop-encode_raw08 : (v : ℕ) (rest : List ℕ) → drop 1 (encode_raw08 v ++ rest) ≡ rest
drop-encode_raw08 v rest = drop-append_length 1 _ rest (length-encode_raw08 v)

pub decode-encode_raw08 : (v : ℕ) (rest : List ℕ) → decode_raw08 (encode_raw08 v ++ rest) ≡ v % 256
unfolding encode_raw08 decode_raw08
decode-encode_raw08 v rest =
    ap ntoh_of_memory (take-append_length 1 _ rest (length-memory_of_hton 1 v)) ∙ ntoh-hton 1 v

pub encode_raw16-eq : (v : ℕ) → encode_raw16 v ≡ memory_of_hton 2 v
unfolding encode_raw16
encode_raw16-eq v = encode_raw-eq 0 2 2 v refl

pub length-encode_raw16 : (v : ℕ) → length (encode_raw16 v) ≡ 2
length-encode_raw16 v = rw encode_raw16-eq (length-memory_of_hton 2 v)

pub All-encode_raw16 : (v : ℕ) → All IsByte (encode_raw16 v)
All-encode_raw16 v = rw encode_raw16-eq (All-memory_of_hton 2 v)

pub drop-encode_raw16 : (v : ℕ) (rest : List ℕ) → drop 2 (encode_raw16 v ++ rest) ≡ rest
drop-encode_raw16 v rest = drop-append_length 2 _ rest (length-encode_raw16 v)

pub decode-encode_raw16 :
    (v : ℕ) (rest : List ℕ) → decode_raw16 (encode_raw16 v ++ rest) ≡ v % 2 ^ 16
unfolding encode_raw16 decode_raw16
decode-encode_raw16 v rest = decode_raw-encode_raw 0 2 2 v rest refl

pub encode_raw24-eq : (v : ℕ) → encode_raw24 v ≡ memory_of_hton 3 v
unfolding encode_raw24
encode_raw24-eq v = encode_raw-eq 1 3 4 v refl

pub length-encode_raw24 : (v : ℕ) → length (encode_raw24 v) ≡ 3
length-encode_raw24 v = rw encode_raw24-eq (length-memory_of_hton 3 v)

pub All-encode_raw24 : (v : ℕ) → All IsByte (encode_raw24 v)
All-encode_raw24 v = rw encode_raw24-eq (All-memory_of_hton 3 v)

pub drop-encode_raw24 : (v : ℕ) (rest : List ℕ) → drop 3 (encode_raw24 v ++ rest) ≡ rest
drop-encode_raw24 v rest = drop-append_length 3 _ rest (length-encode_raw24 v)

pub decode-encode_raw24 :
    (v : ℕ) (rest : List ℕ) → decode_raw24 (encode_raw24 v ++ rest) ≡ v % 2 ^ 24
unfolding encode_raw24 decode_raw24
decode-encode_raw24 v rest = decode_raw-encode_raw 1 3 4 v rest refl

pub encode_raw32-eq : (v : ℕ) → encode_raw32 v ≡ memory_of_hton 4 v
unfolding encode_raw32
encode_raw32-eq v = encode_raw-eq 0 4 4 v refl

pub length-encode_raw32 : (v : ℕ) → length (encode_raw32 v) ≡ 4
length-encode_raw32 v = rw encode_raw32-eq (length-memory_of_hton 4 v)

pub All-encode_raw32 : (v : ℕ) → All IsByte (encode_raw32 v)
All-encode_raw32 v = rw encode_raw32-eq (All-memory_of_hton 4 v)

pub drop-encode_raw32 : (v : ℕ) (rest : List ℕ) → drop 4 (encode_raw32 v ++ rest) ≡ rest
drop-encode_raw32 v rest = drop-append_length 4 _ rest (length-encode_raw32 v)

pub decode-encode_raw32 :
    (v : ℕ) (rest : List ℕ) → decode_raw32 (encode_raw32 v ++ rest) ≡ v % 2 ^ 32
unfolding encode_raw32 decode_raw32
decode-encode_raw32 v rest = decode_raw-encode_raw 0 4 4 v rest refl

pub encode_raw40-eq : (v : ℕ) → encode_raw40 v ≡ memory_of_hton 5 v
unfolding encode_raw40
encode_raw40-eq v = encode_raw-eq 3 5 8 v refl

pub length-encode_raw40 : (v : ℕ) → length (encode_raw40 v) ≡ 5
length-encode_raw40 v = rw encode_raw40-eq (length-memory_of_hton 5 v)

pub All-encode_raw40 : (v : ℕ) → All IsByte (encode_raw40 v)
All-encode_raw40 v = rw encode_raw40-eq (All-memory_of_hton 5 v)

pub drop-encode_raw40 : (v : ℕ) (rest : List ℕ) → drop 5 (encode_raw40 v ++ rest) ≡ rest
drop-encode_raw40 v rest = drop-append_length 5 _ rest (length-encode_raw40 v)

pub decode-encode_raw40 :
    (v : ℕ) (rest : List ℕ) → decode_raw40 (encode_raw40 v ++ rest) ≡ v % 2 ^ 40
unfolding encode_raw40 decode_raw40
decode-encode_raw40 v rest = decode_raw-encode_raw 3 5 8 v rest refl

pub encode_raw48-eq : (v : ℕ) → encode_raw48 v ≡ memory_of_hton 6 v
unfolding encode_raw48
encode_raw48-eq v = encode_raw-eq 2 6 8 v refl

pub length-encode_raw48 : (v : ℕ) → length (encode_raw48 v) ≡ 6
length-encode_raw48 v = rw encode_raw48-eq (length-memory_of_hton 6 v)

pub All-encode_raw48 : (v : ℕ) → All IsByte (encode_raw48 v)
All-encode_raw48 v = rw encode_raw48-eq (All-memory_of_hton 6 v)

pub drop-encode_raw48 : (v : ℕ) (rest : List ℕ) → drop 6 (encode_raw48 v ++ rest) ≡ rest
drop-encode_raw48 v rest = drop-append_length 6 _ rest (length-encode_raw48 v)

pub decode-encode_raw48 :
    (v : ℕ) (rest : List ℕ) → decode_raw48 (encode_raw48 v ++ rest) ≡ v % 2 ^ 48
unfolding encode_raw48 decode_raw48
decode-encode_raw48 v rest = decode_raw-encode_raw 2 6 8 v rest refl

pub encode_raw64-eq : (v : ℕ) → encode_raw64 v ≡ memory_of_hton 8 v
unfolding encode_raw64
encode_raw64-eq v = encode_raw-eq 0 8 8 v refl

pub length-encode_raw64 : (v : ℕ) → length (encode_raw64 v) ≡ 8
length-encode_raw64 v = rw encode_raw64-eq (length-memory_of_hton 8 v)

pub All-encode_raw64 : (v : ℕ) → All IsByte (encode_raw64 v)
All-encode_raw64 v = rw encode_raw64-eq (All-memory_of_hton 8 v)

pub drop-encode_raw64 : (v : ℕ) (rest : List ℕ) → drop 8 (encode_raw64 v ++ rest) ≡ rest
drop-encode_raw64 v rest = drop-append_length 8 _ rest (length-encode_raw64 v)

pub decode-encode_raw64 :
    (v : ℕ) (rest : List ℕ) → decode_raw64 (encode_raw64 v ++ rest) ≡ v % 2 ^ 64
unfolding encode_raw64 decode_raw64
decode-encode_raw64 v rest = decode_raw-encode_raw 0 8 8 v rest refl

-- Reading back a field of any width gives the value modulo the width, whatever bytes follow.
pub decode-encode :
    (v : ℕ) (rest : List ℕ)
    → (decode_raw08 (encode_raw08 v ++ rest) ≡ v % 2 ^ 8)
      × (decode_raw16 (encode_raw16 v ++ rest) ≡ v % 2 ^ 16)
      × (decode_raw24 (encode_raw24 v ++ rest) ≡ v % 2 ^ 24)
      × (decode_raw32 (encode_raw32 v ++ rest) ≡ v % 2 ^ 32)
      × (decode_raw40 (encode_raw40 v ++ rest) ≡ v % 2 ^ 40)
      × (decode_raw48 (encode_raw48 v ++ rest) ≡ v % 2 ^ 48)
      × (decode_raw64 (encode_raw64 v ++ rest) ≡ v % 2 ^ 64)
decode-encode v rest = (
  decode-encode_raw08 v rest,
  decode-encode_raw16 v rest,
  decode-encode_raw24 v rest,
  decode-encode_raw32 v rest,
  decode-encode_raw40 v rest,
  decode-encode_raw48 v rest,
  decode-encode_raw64 v rest,
)

-- Encoding what was decoded from a field of any width gives the bytes of the field.
pub encode-decode :
    (raw : List ℕ)
    → All IsByte raw
    → (length raw ≡ 1 → encode_raw08 (decode_raw08 raw) ≡ raw)
      × (length raw ≡ 2 → encode_raw16 (decode_raw16 raw) ≡ raw)
      × (length raw ≡ 3 → encode_raw24 (decode_raw24 raw) ≡ raw)
      × (length raw ≡ 4 → encode_raw32 (decode_raw32 raw) ≡ raw)
      × (length raw ≡ 5 → encode_raw40 (decode_raw40 raw) ≡ raw)
      × (length raw ≡ 6 → encode_raw48 (decode_raw48 raw) ≡ raw)
      × (length raw ≡ 8 → encode_raw64 (decode_raw64 raw) ≡ raw)
unfolding encode_raw08 decode_raw08 encode_raw16 decode_raw16 encode_raw24 decode_raw24 encode_raw32
    decode_raw32 encode_raw40 decode_raw40 encode_raw48 decode_raw48 encode_raw64 decode_raw64
encode-decode raw h = (
  λ e.
      ap (λ (x : List ℕ). memory_of_hton 1 (ntoh_of_memory x)) (take-all 1 raw (omega arith))
      ∙ ap (λ (x : ℕ). memory_of_hton x (ntoh_of_memory raw)) (sym e)
      ∙ hton-ntoh raw h,
  encode_raw-decode_raw 0 2 2 raw refl h,
  encode_raw-decode_raw 1 3 4 raw refl h,
  encode_raw-decode_raw 0 4 4 raw refl h,
  encode_raw-decode_raw 3 5 8 raw refl h,
  encode_raw-decode_raw 2 6 8 raw refl h,
  encode_raw-decode_raw 0 8 8 raw refl h,
)
