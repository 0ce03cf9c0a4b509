-- ===== src/BTree/Writer/Tests.antt =====
-- A leaf of four items, flushed to a file in memory.
use couchstore.Base.{
  ℕ, zero, suc, ◌+◌, ◌<◌, ◌≡◌, ◌≢◌, refl, ap, arith, true, false, [], ◌∷◌, length, take, ok, none,
  some,
}
use couchstore.BTree.{encode_pointer}
use couchstore.Bitfield.{encode_raw32, encode_raw48, encode_raw16, encode_raw, memory_of_hton}
use couchstore.NodeTypes.{NodePointer, write_kv, encode_kv_length}
use couchstore.NodeTypes.Items.{write_items}
use couchstore.Crc32.{hash_crc32}
use couchstore.File.{TreeFile, raw_write, raw_write_loop, run_length}
use couchstore.File.Memory.{memory_ops, empty_disk}
use couchstore.Chunk.{Snappy, db_write_buf_compressed, db_write_buf, chunk_prefix, set_high_bit}
use couchstore.BTree.Writer.{
  Entry, ModifyResult, WriteRequest, Outcome, kv_node, kp_node, pointer_entry, flush_mr_partial,
  flush_mr, maybe_flush, mr_move_pointers, move_loop, take_quota, write_node, add_pointer,
  reduction, flushed, subtree_sizes, final_key,
}
use couchstore.BTree.Writer.Quota.{total, IsValid, flush_mr_partial-flush_mr}
use couchstore.BTree.Writer.Lengths.{mr_move_pointers-Delivered}
use couchstore.BTree.Writer.Delivery.{Delivered}

abbrev stored : Snappy
stored = record {
  get_uncompressed_length = λ buf. some (length buf);
  raw_uncompress = λ buf. some buf;
  raw_compress = λ buf. buf;
}

abbrev request : WriteRequest
request = record {
  reduce = none;
  rereduce = none;
  compacting = false;
  kv_chunk_threshold = 15;
  kp_chunk_threshold = 1024;
}

abbrev entry : ℕ → Entry
entry k = record { item = record { key = k ∷ []; value = k ∷ [] }; pointer = none }

abbrev leaf : ModifyResult
leaf = record {
  values = entry 1 ∷ entry 2 ∷ entry 3 ∷ entry 4 ∷ [];
  pointers = [];
  node_len = 28;
  count = 4;
  modified = true;
  node_type = kv_node;
}

abbrev start : TreeFile
start = record { pos = 1; disk = empty_disk }

missed : (k : ℕ) → k < 4 → 0 + total (take k leaf.values) ≢ 10
unfolding total
missed zero h = λ e. omega (arith, ap (λ (t : ℕ). t) e)
missed (suc zero) h = λ e. omega (arith, ap (λ (t : ℕ). t) e)
missed (suc (suc zero)) h = λ e. omega (arith, ap (λ (t : ℕ). t) e)
missed (suc (suc (suc zero))) h = λ e. omega (arith, ap (λ (t : ℕ). t) e)
missed (suc (suc (suc (suc k)))) h = absurd (omega arith)

leaf-IsValid : IsValid leaf
unfolding total
leaf-IsValid = record { node_len = refl; count = refl }

-- With two thirds of the threshold as the quota, all four items go into one node.
flush_mr_partial-flush_mr_example :
    flush_mr_partial memory_ops stored request start leaf 10
    ≡ flush_mr memory_ops stored request start leaf
flush_mr_partial-flush_mr_example =
    flush_mr_partial-flush_mr memory_ops stored request start leaf 10 leaf-IsValid refl
      (omega arith) (omega arith) missed

abbrev pointer : ℕ → NodePointer
pointer position = record {
  key = position ∷ [];
  pointer = position;
  reduce_value = [];
  subtreesize = 9;
}

-- The fourth of them makes the parent longer than the threshold, and is flushed with the others.
abbrev four_pointers : ModifyResult
four_pointers = record leaf {
  values = [];
  node_len = 0;
  count = 0;
  pointers =
      pointer_entry (pointer 1)
      ∷ pointer_entry (pointer 5)
      ∷ pointer_entry (pointer 7)
      ∷ pointer_entry (pointer 9)
      ∷ [];
}

abbrev low_threshold : WriteRequest
low_threshold = record request { kp_chunk_threshold = 30 }

abbrev parent : ModifyResult
parent = record {
  values = [];
  pointers = [];
  node_len = 0;
  count = 0;
  modified = true;
  node_type = kp_node;
}

abbrev moved : Outcome
moved = elim (mr_move_pointers memory_ops stored low_threshold start four_pointers parent) [
  | ok p ↦ p.1
  | _ ↦ record { file = start; result = parent; error = none }
]

parent-IsValid : IsValid parent
unfolding total
parent-IsValid = record { node_len = refl; count = refl }

-- The run, and that it flushes a node.
moved_run :
    (mr_move_pointers memory_ops stored low_threshold start four_pointers parent
      ≡ ok (record four_pointers { pointers = [] }, moved))
    × (moved.error ≡ none)
    × (length moved.result.pointers ≡ 1)
unfolding mr_move_pointers maybe_flush move_loop flush_mr_partial take_quota write_node add_pointer
    reduction flushed subtree_sizes final_key encode_pointer encode_raw48 encode_raw16 encode_raw
    encode_raw32 memory_of_hton write_items write_kv encode_kv_length db_write_buf_compressed
    db_write_buf raw_write raw_write_loop run_length chunk_prefix set_high_bit hash_crc32
moved_run = (refl, refl, refl)

mr_move_pointers-Delivered_example :
    (record four_pointers { pointers = [] } ≡ record four_pointers { pointers = [] })
    × IsValid moved.result
    × Delivered memory_ops stored start kp_node four_pointers.pointers [] moved
mr_move_pointers-Delivered_example =
    mr_move_pointers-Delivered memory_ops stored low_threshold start four_pointers parent
      (record four_pointers { pointers = [] }) moved parent-IsValid moved_run.0 moved_run.1
