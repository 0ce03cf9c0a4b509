-- ===== src/NodeTypes.antt =====
-- src/node_types.cc and node_types.h: the packed key and value lengths of a node's items, the
-- items, and the roots that file headers hold.
-- A pointer into a buffer is the list of the bytes from there on. Reading behind the end of a
-- buffer is `fault`.
pub mod Lengths
pub mod Items
pub mod Roots
mod Tests
use Prim.Native.Nat.{bit_and, bit_or}
use couchstore.Base.{
  ℕ, zero, suc, ◌+◌, ◌-◌, ◌*◌, ◌/◌, ◌%◌, ◌^◌, ltb, leb, ◌==◌, if◌then◌else◌, List, [], ◌∷◌, ◌++◌,
  length, take, drop, get_or, Result, ok, fault, assert, ◌>>=◌, ◌>>◌, Option, none, some,
}
use couchstore.Bitfield.{memory_of_hton, ntoh_of_memory, encode_raw48, decode_raw48}

-- node_pointer: a subtree's last key, the position of its node, its reduction and its size on disk.
pub record NodePointer : Type 0 where
  pub key : List ℕ
  pub pointer : ℕ
  pub reduce_value : List ℕ
  pub subtreesize : ℕ

-- The key and value that read_kv finds, and the buffer behind them.
pub record Item : Type 0 where
  pub key : List ℕ
  pub value : List ℕ

-- Lengths of 12 and 28 bits in five bytes. The second byte has the low four bits of the key's
-- length above the high four bits of the value's.
unfoldable pub encode_kv_length : ℕ → ℕ → List ℕ
encode_kv_length klen vlen =
    let len = memory_of_hton 4 vlen in
    (klen / 2 ^ 4 % 256) ∷ bit_or (get_or len 0 0) (bit_and (klen % 16) 0xF * 2 ^ 4) ∷ drop 1 len

unfoldable pub decode_kv_length : List ℕ → ℕ × ℕ
decode_kv_length kv = (
  bit_or (get_or kv 0 0 * 2 ^ 4) (bit_and (get_or kv 1 0) 0xf0 / 2 ^ 4) % 2 ^ 16,
  ntoh_of_memory (take 4 (drop 1 kv)) % 2 ^ 28,
)

-- read_kv: the item at the front of a buffer, and the buffer behind it.
unfoldable pub read_kv : List ℕ → Result (Item × List ℕ)
read_kv buf = do
  let (klen, vlen) = decode_kv_length (take 5 buf)
  assert (leb (5 + klen + vlen) (length buf))
  ok (
    record { key = take klen (drop 5 buf); value = take vlen (drop klen (drop 5 buf)) },
    drop vlen (drop klen (drop 5 buf)),
  )

-- The bytes that write_kv puts at `buf`.
unfoldable pub write_kv : Item → List ℕ
write_kv i = encode_kv_length (length i.key) (length i.value) ++ (i.key ++ i.value)

unfoldable pub read_root : List ℕ → ℕ → Result (Option NodePointer)
read_root buf size = if size == 0 then ok none else do
  assert (leb 12 size)
  assert (leb size (length buf))
  ok (
      some (record {
        key = [];
        pointer = decode_raw48 buf;
        reduce_value = take (size - 12) (drop 12 buf);
        subtreesize = decode_raw48 (drop 6 buf);
      }))

-- The bytes that encode_root puts at `buf`; it returns their number.
unfoldable pub encode_root : Option NodePointer → List ℕ
encode_root none = []
encode_root (some node) =
    encode_raw48 node.pointer ++ (encode_raw48 node.subtreesize ++ node.reduce_value)

unfoldable pub decode_sequence_key : List ℕ → ℕ
decode_sequence_key buf = decode_raw48 buf
