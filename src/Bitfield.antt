-- ===== src/Bitfield.antt =====
-- src/bitfield.c: integers of 8 to 64 bits in big-endian byte order.
-- A buffer is the list of its bytes. The memory of `htons(v)`, `htonl(v)` and `htonll(v)` is the
-- big-endian form of `v` in 2, 4 and 8 bytes: `memory_of_hton`. `ENCODE_RAW` copies its last bytes,
-- and `DECODE_RAW` puts zeros before the bytes that it reads.
pub mod RoundTrip
pub mod Widths
mod Tests
use couchstore.Base.{
  ℕ, zero, suc, ◌+◌, ◌-◌, ◌*◌, ◌/◌, ◌%◌, ◌^◌, ◌<◌, List, [], ◌∷◌, ◌++◌, length, take, drop,
  replicate, All,
}

abbrev pub IsByte : ℕ → Type 0
IsByte b = b < 256

-- The bytes of an unsigned integer of `w` bytes, most significant first.
unfoldable pub memory_of_hton : ℕ → ℕ → List ℕ
memory_of_hton zero v = []
memory_of_hton (suc w) v = (v / 256 ^ w % 256) ∷ memory_of_hton w v

-- `ntohs`, `ntohl`, `ntohll` of the integer that these bytes are in memory.
unfoldable pub ntoh_of_memory : List ℕ → ℕ
ntoh_of_memory [] = 0
ntoh_of_memory (b ∷ bs) = b * 256 ^ length bs + ntoh_of_memory bs

-- `memcpy(&raw, (char*)&value + sizeof(value) - sizeof(raw), sizeof(raw))`
unfoldable pub encode_raw : ℕ → ℕ → ℕ → List ℕ
encode_raw sizeof_value sizeof_raw value =
    drop (sizeof_value - sizeof_raw) (memory_of_hton sizeof_value value)

-- `memcpy((char*)&value + sizeof(value) - sizeof(raw), &(raw), sizeof(raw))` over a value of 0
unfoldable pub decode_raw : ℕ → ℕ → List ℕ → ℕ
decode_raw sizeof_value sizeof_raw raw =
    ntoh_of_memory (replicate (sizeof_value - sizeof_raw) 0 ++ take sizeof_raw raw)

unfoldable pub decode_raw08 : List ℕ → ℕ
decode_raw08 raw = ntoh_of_memory (take 1 raw)

unfoldable pub decode_raw16 : List ℕ → ℕ
decode_raw16 = decode_raw 2 2

unfoldable pub decode_raw24 : List ℕ → ℕ
decode_raw24 = decode_raw 4 3

unfoldable pub decode_raw32 : List ℕ → ℕ
decode_raw32 = decode_raw 4 4

unfoldable pub decode_raw40 : List ℕ → ℕ
decode_raw40 = decode_raw 8 5

unfoldable pub decode_raw48 : List ℕ → ℕ
decode_raw48 = decode_raw 8 6

unfoldable pub decode_raw64 : List ℕ → ℕ
decode_raw64 = decode_raw 8 8

-- The argument is a `uint8_t`.
unfoldable pub encode_raw08 : ℕ → List ℕ
encode_raw08 value = memory_of_hton 1 value

unfoldable pub encode_raw16 : ℕ → List ℕ
encode_raw16 = encode_raw 2 2

unfoldable pub encode_raw24 : ℕ → List ℕ
encode_raw24 = encode_raw 4 3

unfoldable pub encode_raw32 : ℕ → List ℕ
encode_raw32 = encode_raw 4 4

unfoldable pub encode_raw40 : ℕ → List ℕ
encode_raw40 = encode_raw 8 5

unfoldable pub encode_raw48 : ℕ → List ℕ
encode_raw48 = encode_raw 8 6

unfoldable pub encode_raw64 : ℕ → List ℕ
encode_raw64 = encode_raw 8 8
