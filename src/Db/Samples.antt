-- ===== src/Db/Samples.antt =====
-- Three documents in two small B-trees of a file in memory, for the tests.
use couchstore.Base.{ℕ, true, false, List, [], ◌∷◌, length, map, ok, none, some}
use couchstore.NodeTypes.{NodePointer, Item}
use couchstore.NodeTypes.Items.{write_items}
use couchstore.Reduces.{by_seq_reduce}
use couchstore.File.{Disk, TreeFile}
use couchstore.File.Memory.{memory_ops, empty_disk}
use couchstore.Bitfield.{encode_raw48}
use couchstore.Chunk.{Written, Snappy, db_write_buf_compressed}
use couchstore.BTree.{encode_pointer}
use couchstore.BTree.Lookup.Children.{Child, pointers}
use couchstore.Db.{Db}
use couchstore.Db.DocInfo.{DocInfo, id_item, seq_item}

-- A library that stores buffers as they are.
abbrev pub stored : Snappy
stored = record {
  get_uncompressed_length = λ buf. some (length buf);
  raw_uncompress = λ buf. some buf;
  raw_compress = λ buf. buf;
}

abbrev document : ℕ → ℕ → DocInfo
document letter seq = record {
  id = letter ∷ [];
  db_seq = seq;
  rev_seq = 1;
  rev_meta = [];
  deleted = false;
  content_meta = 0;
  bp = 77;
  size = 9;
}

abbrev pub doc_a : DocInfo
doc_a = document 97 2

abbrev pub doc_b : DocInfo
doc_b = document 98 3

abbrev pub doc_c : DocInfo
doc_c = record (document 99 7) { deleted = true }

abbrev nowhere : Written
nowhere = record { pos = 0; disk_size = 0; file = record { pos = 1; disk = empty_disk } }

abbrev put : TreeFile → List ℕ → Written
put file buf = elim (db_write_buf_compressed memory_ops stored file buf) [ ok w ↦ w | _ ↦ nowhere ]

abbrev pub id_leaf : Written
id_leaf = put nowhere.file (1 ∷ write_items (map id_item (doc_a ∷ doc_b ∷ doc_c ∷ [])))

abbrev pub left_leaf : Written
left_leaf = put id_leaf.file (1 ∷ write_items (map seq_item (doc_a ∷ doc_b ∷ [])))

abbrev pub right_leaf : Written
right_leaf = put left_leaf.file (1 ∷ write_items (map seq_item (doc_c ∷ [])))

-- A pointer to a leaf of the tree by sequence, with the last sequence number and the count in it.
abbrev pointer_to : Written → ℕ → ℕ → Item
pointer_to w last count = encode_pointer (record {
  key = encode_raw48 last;
  pointer = w.pos;
  reduce_value = by_seq_reduce count;
  subtreesize = w.disk_size;
})

abbrev pub left_child : Child
left_child = record {
  pointer = pointer_to left_leaf 3 2;
  items = map seq_item (doc_a ∷ doc_b ∷ []);
}

abbrev pub right_child : Child
right_child = record { pointer = pointer_to right_leaf 7 1; items = map seq_item (doc_c ∷ []) }

abbrev pub seq_node : Written
seq_node = put right_leaf.file (0 ∷ write_items (pointers (left_child ∷ right_child ∷ [])))

abbrev pub root_at : Written → NodePointer
root_at w = record { key = []; pointer = w.pos; reduce_value = []; subtreesize = 0 }

abbrev pub sample : Db
sample = record {
  file = seq_node.file;
  header = record {
    disk_version = 11;
    update_seq = 7;
    by_id_root = some (root_at id_leaf);
    by_seq_root = some (root_at seq_node);
    local_docs_root = none;
    purge_seq = 0;
    purge_ptr = 0;
    position = 0;
  };
  dropped = false;
}

abbrev pub disk : Disk
disk = sample.file.disk
