-- ===== src/NodeTypes/Tests.antt =====
-- Items and roots of concrete nodes.
use couchstore.Base.{◌≡◌, ◌≢◌, refl, arith, List, [], ◌∷◌, ◌++◌, replicate, ok, Option, some}
use couchstore.Bitfield.{memory_of_hton, ntoh_of_memory}
use couchstore.NodeTypes.{
  NodePointer, Item, read_kv, write_kv, encode_kv_length, decode_kv_length, read_root, encode_root,
}
use couchstore.NodeTypes.Items.{
  write_items, read_items, read_items-write_items, read_kv-write_kv_long,
}
use couchstore.NodeTypes.Roots.{root_size, stored_root, read_root-encode_root}

abbrev two_items : List Item
two_items = record { key = 1 ∷ 2 ∷ []; value = 3 ∷ [] } ∷ record { key = 4 ∷ []; value = [] } ∷ []

read_items-write_items_example : read_items 20 (write_items two_items) ≡ ok two_items
read_items-write_items_example =
    read_items-write_items 20 two_items
      (
        record { key = omega arith; value = omega arith },
        (record { key = omega arith; value = omega arith }, tt),
      )
      (unfold write_items write_kv encode_kv_length memory_of_hton in omega arith)

-- The length of its key is 2^12, of which none of the twelve bits is kept.
abbrev long_item : Item
long_item = record { key = replicate 4096 1; value = [] }

abbrev cut_item : Item
cut_item = record { key = []; value = [] }

long_item-read : read_kv (write_kv long_item ++ []) ≡ ok (cut_item, replicate 4096 1)
unfolding read_kv write_kv encode_kv_length decode_kv_length memory_of_hton ntoh_of_memory
long_item-read = refl

read_kv-write_kv_long_example : cut_item.key ≢ long_item.key
read_kv-write_kv_long_example =
    read_kv-write_kv_long long_item [] cut_item (replicate 4096 1) (omega arith) (omega arith)
      long_item-read

abbrev some_root : Option NodePointer
some_root =
    some (record { key = 9 ∷ []; pointer = 4097; reduce_value = 5 ∷ 6 ∷ []; subtreesize = 100 })

read_root-encode_root_example :
    read_root (encode_root some_root ++ 7 ∷ []) (root_size some_root) ≡ ok (stored_root some_root)
read_root-encode_root_example = read_root-encode_root some_root (7 ∷ [])
