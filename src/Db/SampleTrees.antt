-- ===== src/Db/SampleTrees.antt =====
-- The trees of the database in memory hold its documents.
use couchstore.Base.{
  ℕ, ◌^◌, ◌<◌, ◌≡◌, refl, arith, List, [], ◌∷◌, length, map, append-nil, ok, inl, inr,
}
use couchstore.KeyOrder.{memcmp, ebin_cmp, seq_cmp}
use couchstore.NodeTypes.{Item}
use couchstore.NodeTypes.Items.{Fits, write_items}
use couchstore.Reduces.{by_seq_reduce}
use couchstore.File.Memory.{memory_ops}
use couchstore.Crc32.{hash_crc32}
use couchstore.File.{
  read_skipping_prefixes, run_length, skip_prefix, raw_write, raw_write_loop, read_loop,
}
use couchstore.File.Laws.{slice}
use couchstore.Db.Count.Stored.{HoldsCounted}
use couchstore.Db.DocInfo.RoundTrip.{IsStorable}
use couchstore.Bitfield.{
  decode_raw40, decode_raw, decode_raw48, encode_raw16, encode_raw40, memory_of_hton,
  ntoh_of_memory, encode_raw, encode_raw08, encode_raw32, encode_raw48,
}
use couchstore.Db.DocInfo.{assemble_id_index_value, assemble_seq_index_value, flagged_bp}
use couchstore.NodeTypes.{decode_sequence_key, write_kv, encode_kv_length}
use couchstore.Chunk.{
  pread_bin_internal, chunk_prefix, db_write_buf, body_length, checksum_fails, clear_high_bit,
  set_high_bit, db_write_buf_compressed, pread_compressed,
}
use couchstore.BTree.{encode_pointer}
use couchstore.BTree.Lookup.Children.{pointers, all_items}
use couchstore.BTree.Stored.{IsLeaf, IsNode, Holds}
use couchstore.Db.DocInfo.{DocInfo, id_item, seq_item}
use couchstore.Db.Samples.{
  stored, doc_a, doc_b, doc_c, id_leaf, left_leaf, right_leaf, left_child, right_child, seq_node,
  disk,
}

-- The lengths of a document's items without revision metadata.
id_item-Fits : (d : DocInfo) → length d.id < 2 ^ 12 → d.rev_meta ≡ [] → Fits (id_item d)
unfolding id_item assemble_id_index_value encode_raw48 encode_raw32 encode_raw08 encode_raw
    memory_of_hton
id_item-Fits d h e = record { key = h; value = rw e (omega arith) }

seq_item-Fits : (d : DocInfo) → length d.id < 2 ^ 12 → d.rev_meta ≡ [] → Fits (seq_item d)
unfolding seq_item assemble_seq_index_value encode_raw48 encode_raw encode_raw08 encode_kv_length
    memory_of_hton
seq_item-Fits d h e = record { key = omega arith; value = rw (e, append-nil d.id) (omega arith) }

reads :
    (pread_compressed memory_ops stored disk id_leaf.pos
      ≡ ok (1 ∷ write_items (map id_item (doc_a ∷ doc_b ∷ doc_c ∷ []))))
    × (pread_compressed memory_ops stored disk left_leaf.pos
        ≡ ok (1 ∷ write_items left_child.items))
    × (pread_compressed memory_ops stored disk right_leaf.pos
        ≡ ok (1 ∷ write_items right_child.items))
    × (pread_compressed memory_ops stored disk seq_node.pos
        ≡ ok (0 ∷ write_items (pointers (left_child ∷ right_child ∷ []))))
unfolding db_write_buf_compressed pread_compressed pread_bin_internal read_skipping_prefixes slice
    run_length skip_prefix db_write_buf raw_write chunk_prefix memory_of_hton write_items pointers
    encode_pointer by_seq_reduce encode_raw40 encode_raw16 write_kv encode_kv_length id_item
    seq_item assemble_id_index_value assemble_seq_index_value encode_raw48 encode_raw encode_raw32
    encode_raw08 ntoh_of_memory body_length checksum_fails clear_high_bit set_high_bit hash_crc32
    flagged_bp raw_write_loop read_loop
reads = (refl, refl, refl, refl)

pub id_IsLeaf :
    IsLeaf ebin_cmp memory_ops stored disk id_leaf.pos (map id_item (doc_a ∷ doc_b ∷ doc_c ∷ []))
unfolding ebin_cmp memcmp id_item
id_IsLeaf = record {
  bytes = reads.0;
  sorted = ((refl, (refl, tt)), ((refl, tt), (tt, tt)));
  no_empty = (omega arith, (omega arith, (omega arith, tt)));
  fits = (
    id_item-Fits doc_a (omega arith) refl,
    (id_item-Fits doc_b (omega arith) refl, (id_item-Fits doc_c (omega arith) refl, tt)),
  );
}

pub id_tree :
    Holds ebin_cmp memory_ops stored disk 1 id_leaf.pos (map id_item (doc_a ∷ doc_b ∷ doc_c ∷ []))
id_tree = inl id_IsLeaf

left_IsLeaf : IsLeaf seq_cmp memory_ops stored disk left_leaf.pos left_child.items
unfolding seq_cmp decode_sequence_key decode_raw48 decode_raw ntoh_of_memory encode_raw48 encode_raw
    memory_of_hton seq_item
left_IsLeaf = record {
  bytes = reads.1;
  sorted = ((refl, tt), (tt, tt));
  no_empty = (omega arith, (omega arith, tt));
  fits = (seq_item-Fits doc_a (omega arith) refl, (seq_item-Fits doc_b (omega arith) refl, tt));
}

right_IsLeaf : IsLeaf seq_cmp memory_ops stored disk right_leaf.pos right_child.items
unfolding encode_raw48 encode_raw memory_of_hton seq_item
right_IsLeaf = record {
  bytes = reads.2;
  sorted = (tt, tt);
  no_empty = (omega arith, tt);
  fits = (seq_item-Fits doc_c (omega arith) refl, tt);
}

-- The node over both leaves.
module _ (below : ℕ → List Item → Type 0) (left : below left_leaf.pos left_child.items)
    (right : below right_leaf.pos right_child.items) where
  node_over :
      IsNode seq_cmp memory_ops stored disk below seq_node.pos
        (map seq_item (doc_a ∷ doc_b ∷ doc_c ∷ []))
  unfolding all_items seq_cmp decode_sequence_key decode_raw48 decode_raw ntoh_of_memory
      encode_raw48 encode_raw memory_of_hton seq_item encode_pointer by_seq_reduce encode_raw40
      encode_raw16 db_write_buf_compressed pread_compressed pread_bin_internal
      read_skipping_prefixes slice run_length skip_prefix db_write_buf raw_write chunk_prefix
      write_items pointers write_kv encode_kv_length id_item assemble_id_index_value
      assemble_seq_index_value encode_raw32 encode_raw08 body_length checksum_fails clear_high_bit
      set_high_bit hash_crc32 flagged_bp raw_write_loop read_loop
  node_over = record {
    children = left_child ∷ right_child ∷ [];
    bytes = reads.3;
    are_pointers = (
      record {
        has_key = omega arith;
        fits = record { key = omega arith; value = omega arith };
        position = omega arith;
      },
      (
        record {
          has_key = omega arith;
          fits = record { key = omega arith; value = omega arith };
          position = omega arith;
        },
        tt,
      ),
    );
    bounded = (((λ e. cc), ((λ e. cc), tt)), (refl, tt), (((λ e. cc), tt), tt, tt));
    subtrees = (left, (right, tt));
    gathered = refl;
  }

pub seq_tree :
    Holds seq_cmp memory_ops stored disk 2 seq_node.pos (map seq_item (doc_a ∷ doc_b ∷ doc_c ∷ []))
seq_tree =
    inr (node_over (Holds seq_cmp memory_ops stored disk 1) (inl left_IsLeaf) (inl right_IsLeaf))

pub counted_tree :
    HoldsCounted memory_ops stored disk 2 seq_node.pos (map seq_item (doc_a ∷ doc_b ∷ doc_c ∷ []))
unfolding node_over seq_item encode_pointer by_seq_reduce encode_raw40 encode_raw16 encode_raw48
    encode_raw memory_of_hton decode_raw40 decode_raw ntoh_of_memory
counted_tree = inr (
  node_over (HoldsCounted memory_ops stored disk 1) (inl left_IsLeaf) (inl right_IsLeaf),
  (record { room = omega arith; count = refl }, (record { room = omega arith; count = refl }, tt)),
)

pub storable :
    (d : DocInfo)
    → length d.id < 2 ^ 12
    → d.db_seq < 2 ^ 48
    → d.rev_seq < 2 ^ 48
    → d.content_meta < 256
    → d.bp < 2 ^ 47
    → d.size < 2 ^ 28
    → IsStorable d
storable d h1 h2 h3 h4 h5 h6 = record {
  id = h1;
  db_seq = h2;
  rev_seq = h3;
  content_meta = h4;
  bp = h5;
  size = h6;
}

pub a_IsStorable : IsStorable doc_a
a_IsStorable =
    storable doc_a (omega arith) (omega arith) (omega arith) (omega arith) (omega arith)
      (omega arith)

pub b_IsStorable : IsStorable doc_b
b_IsStorable =
    storable doc_b (omega arith) (omega arith) (omega arith) (omega arith) (omega arith)
      (omega arith)

pub c_IsStorable : IsStorable doc_c
c_IsStorable =
    storable doc_c (omega arith) (omega arith) (omega arith) (omega arith) (omega arith)
      (omega arith)
