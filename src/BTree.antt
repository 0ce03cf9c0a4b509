-- ===== src/BTree.antt =====
-- The B-trees of src/btree_read.cc and src/btree_modify.cc: nodes of items, which are compressed
-- chunks of a file. The first byte of a node tells leaves (1) from nodes of pointers (0).
pub mod Lookup
pub mod Stored
pub mod Writer
use couchstore.Base.{
  ℕ, ◌+◌, ◌^◌, ◌%◌, List, [], ◌∷◌, ◌++◌, length, take, drop, leb, Result, ok, assert, ◌>>=◌, ◌>>◌,
}
use couchstore.Base.Order.{Cmp}
use couchstore.Bitfield.{encode_raw16, encode_raw48, decode_raw16, decode_raw48}
use couchstore.NodeTypes.{NodePointer, Item}

-- The item that encode_pointer makes of a node pointer: its key, and a raw_node_pointer with the
-- reduction behind it.
unfoldable pub encode_pointer : NodePointer → Item
encode_pointer ptr = record {
  key = ptr.key;
  value =
      encode_raw48 ptr.pointer
      ++ (encode_raw48 ptr.subtreesize
          ++ (encode_raw16 (length ptr.reduce_value) ++ ptr.reduce_value));
}

-- read_pointer: the value of an item is a raw_node_pointer; `reduce_value` lies behind it.
unfoldable pub read_pointer : List ℕ → List ℕ → Result NodePointer
read_pointer key buf = do
  assert (leb 14 (length buf))
  let size = decode_raw16 (drop 12 buf)
  assert (leb size (length (drop 14 buf)))
  ok (record {
    key = key;
    pointer = decode_raw48 buf;
    reduce_value = take size (drop 14 buf);
    subtreesize = decode_raw48 (drop 6 buf);
  })
