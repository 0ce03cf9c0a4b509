-- ===== src/NodeTypes/Lengths.antt =====
-- The packed lengths are read back, the key's modulo 2^12.
use Prim.Native.Nat.{bit_and, bit_or}
use couchstore.Base.{
  ℕ, ◌+◌, ◌*◌, ◌/◌, ◌%◌, ◌^◌, ◌<◌, ◌≡◌, refl, ap, ap₂, ◌∙◌, arith, List, ◌∷◌, ◌++◌, length, take,
  drop,
}
use couchstore.Base.Bits.{high_nibble, or_low, or_high, mask_nibble}
use couchstore.Bitfield.{memory_of_hton, ntoh_of_memory}
use couchstore.NodeTypes.{encode_kv_length, decode_kv_length}

pub length-encode_kv_length : (klen vlen : ℕ) → length (encode_kv_length klen vlen) ≡ 5
unfolding encode_kv_length
length-encode_kv_length klen vlen = unfold memory_of_hton in refl

-- The second byte, for a value of less than 2^28 bytes.
second_byte :
    (klen vlen : ℕ)
    → vlen < 2 ^ 28
    → bit_or (vlen / 256 ^ 3 % 256) (bit_and (klen % 16) 0xF * 2 ^ 4)
      ≡ klen % 16 * 16 + vlen / 2 ^ 24
second_byte klen vlen h =
    ap₂ bit_or (omega arith) (ap (λ (t : ℕ). t * 16) (mask_nibble klen))
    ∙ or_high (vlen / 2 ^ 24) (klen % 16) (omega arith) (omega arith)

key_length :
    (klen v : ℕ)
    → v < 16
    → bit_or (klen / 2 ^ 4 % 256 * 2 ^ 4) (bit_and (klen % 16 * 16 + v) 0xf0 / 2 ^ 4) % 2 ^ 16
      ≡ klen % 4096
key_length klen v h =
    ap (λ (t : ℕ). bit_or (klen / 16 % 256 * 16) t % 2 ^ 16)
      (high_nibble (klen % 16 * 16 + v) (omega arith) ∙ omega arith)
    ∙ ap (λ (t : ℕ). t % 2 ^ 16) (or_low (klen / 16 % 256) (klen % 16) (omega arith) (omega arith))
    ∙ omega arith

value_length :
    (klen vlen : ℕ)
    → vlen < 2 ^ 28
    → ntoh_of_memory ((klen % 16 * 16 + vlen / 2 ^ 24) ∷ drop 1 (memory_of_hton 4 vlen)) % 2 ^ 28
      ≡ vlen
unfolding ntoh_of_memory memory_of_hton
value_length klen vlen h = omega arith

-- A value's length below 2^28 is read back, and a key's length modulo 2^12, whatever follows.
pub decode-encode_kv_length :
    (klen vlen : ℕ) (rest : List ℕ)
    → vlen < 2 ^ 28
    → decode_kv_length (take 5 (encode_kv_length klen vlen ++ rest)) ≡ (klen % 4096, vlen)
unfolding encode_kv_length decode_kv_length memory_of_hton
decode-encode_kv_length klen vlen rest h = rw (second_byte klen vlen h) (
    ap₂ {C = ℕ × ℕ} (λ a b. (a, b)) (key_length klen (vlen / 2 ^ 24) (omega arith))
      (value_length klen vlen h))
