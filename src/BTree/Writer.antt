-- ===== src/BTree/Writer.antt =====
-- The writer of nodes in src/btree_modify.cc: a couchfile_modify_result collects items and flushes
-- them as nodes, whose pointers it keeps.
-- An element of its lists is an item with the pointer that it encodes, if any. Where the code
-- leaves a changed result behind an error, the outcome has both. The file that all results share is
-- passed along. A failure of an allocation is not modelled; `node_len` and `count` stay below the
-- bounds of their types.
pub mod Quota
pub mod Delivery
pub mod Flushes
pub mod Lengths
mod Tests
use couchstore.Base.{
  ℕ, suc, ◌+◌, ◌-◌, ◌*◌, ◌/◌, ◌%◌, ◌^◌, ◌==◌, ltb, leb, if◌then◌else◌, not, Bool, true, false, ◌&&◌,
  ◌||◌, List, [], ◌∷◌, ◌++◌, length, map, Result, ok, err, fault, Error, assert, ◌>>=◌, ◌>>◌,
  Option, none, some,
}
use couchstore.NodeTypes.{NodePointer, Item}
use couchstore.NodeTypes.Items.{write_items}
use couchstore.File.{FileOps, TreeFile}
use couchstore.Chunk.{Snappy, Written, db_write_buf_compressed}
use couchstore.BTree.{encode_pointer}

-- The node types, and the byte that stands for each.
pub data NodeType : Type 0 where
  kp_node kv_node : NodeType

abbrev pub type_byte : NodeType → ℕ
type_byte kp_node = 0
type_byte kv_node = 1

abbrev pub is_kp : NodeType → Bool
is_kp kp_node = true
is_kp kv_node = false

-- nodelist
pub record Entry : Type 0 where
  pub item : Item
  pub pointer : Option NodePointer

abbrev pub max_reduction_size : ℕ
max_reduction_size = 65535

-- couchfile_modify_request, as far as the writer reads it. A reduction gets the list from the first
-- element on, and how many of them to reduce.
pub record WriteRequest : Type 0 where
  pub reduce : Option (List Entry → ℕ → Result (List ℕ))
  pub rereduce : Option (List Entry → ℕ → Result (List ℕ))
  pub compacting : Bool
  pub kv_chunk_threshold : ℕ
  pub kp_chunk_threshold : ℕ

-- couchfile_modify_result
pub record ModifyResult : Type 0 where
  pub values : List Entry
  pub pointers : List Entry
  pub node_len : ℕ
  pub count : ℕ
  pub modified : Bool
  pub node_type : NodeType

abbrev pub make_modres : NodeType → ModifyResult
make_modres node_type = record {
  values = [];
  pointers = [];
  node_len = 0;
  count = 0;
  modified = false;
  node_type = node_type;
}

pub record Outcome : Type 0 where
  pub file : TreeFile
  pub result : ModifyResult
  pub error : Option Error

-- `k->size + v->size + sizeof(raw_kv_length)`
abbrev pub entry_size : Entry → ℕ
entry_size e = length e.item.key + length e.item.value + 5

-- `mr_quota -= ...` on a size_t
abbrev pub minus : ℕ → ℕ → ℕ
minus quota size = (quota + (2 ^ 64 - size % 2 ^ 64)) % 2 ^ 64

abbrev pub pointer_entry : NodePointer → Entry
pointer_entry ptr = record { item = encode_pointer ptr; pointer = some ptr }

-- The loop of flush_mr_partial: the elements of the new node, and the others.
unfoldable pub take_quota : NodeType → ℕ → ℕ → List Entry → List Entry × List Entry
take_quota node_type itmcount quota [] = ([], [])
take_quota node_type itmcount quota (e ∷ es) =
    let (taken, left) = take_quota node_type (suc itmcount) (minus quota (entry_size e)) es in
    if not (quota == 0) || (ltb itmcount 2 && is_kp node_type)
    then (e ∷ taken, left)
    else ([], e ∷ es)

-- The sum of the sizes of the subtrees, and the last key.
unfoldable pub subtree_sizes : List Entry → ℕ
subtree_sizes [] = 0
subtree_sizes (e ∷ es) =
    (elim e.pointer [ none ↦ 0 | some ptr ↦ ptr.subtreesize ]) + subtree_sizes es

unfoldable pub final_key : List Entry → List ℕ
final_key [] = []
final_key (e ∷ []) = e.item.key
final_key (e ∷ f ∷ es) = final_key (f ∷ es)

unfoldable pub reduction : WriteRequest → NodeType → List Entry → ℕ → Result (List ℕ)
reduction rq kv_node leaflist count = elim rq.reduce [
  | none ↦ ok []
  | some reduce ↦ reduce leaflist count
]
reduction rq kp_node leaflist count = elim rq.rereduce [
  | none ↦ ok []
  | some reduce ↦ reduce leaflist count
]

-- What is left after a node was written.
unfoldable pub flushed : ModifyResult → List Entry → List Entry → NodePointer → ModifyResult
flushed res taken left ptr = record res {
  values = left;
  pointers = res.pointers ++ pointer_entry ptr ∷ [];
  node_len = res.node_len - length (write_items (map (λ (e : Entry). e.item) taken));
  count = res.count - length taken;
}

-- An error after the loop: `count` has gone down already.
abbrev pub failed : TreeFile → ModifyResult → List Entry → Error → Outcome
failed file res taken e = record {
  file = file;
  result = record res { count = res.count - length taken };
  error = some e;
}

-- What follows the write of a node.
unfoldable pub add_pointer :
    WriteRequest → ModifyResult → List Entry → List Entry → Written → Result Outcome
unfolding reduction flushed subtree_sizes final_key
add_pointer rq res taken left w = elim (reduction rq res.node_type res.values (length taken)) [
  | fault ↦ fault
  | err e ↦ ok (failed w.file res taken e)
  | ok reduced ↦ (do
    assert (leb (length reduced) max_reduction_size)
    let ptr : NodePointer = record {
      key = final_key taken;
      pointer = w.pos;
      reduce_value = reduced;
      subtreesize = (subtree_sizes taken + w.disk_size) % 2 ^ 64;
    }
    ok (record { file = w.file; result = flushed res taken left ptr; error = none }))
]

module _ (ops : FileOps) (snappy : Snappy) (rq : WriteRequest) where
  -- The elements that the loop took become a node.
  unfoldable pub write_node : TreeFile → ModifyResult → List Entry × List Entry → Result Outcome
  unfolding add_pointer
  write_node file res (taken, left) =
      elim (db_write_buf_compressed ops snappy file
        (type_byte res.node_type ∷ write_items (map (λ (e : Entry). e.item) taken))) [
          | fault ↦ fault
          | err e ↦ ok (failed file res taken e)
          | ok w ↦ add_pointer rq res taken left w
        ]

  unfoldable pub flush_mr_partial : TreeFile → ModifyResult → ℕ → Result Outcome
  unfolding take_quota write_node
  flush_mr_partial file res mr_quota =
      if length res.values == 0 || not res.modified
      then ok (record { file = file; result = res; error = none })
      else write_node file res (take_quota res.node_type 0 mr_quota res.values)

  unfoldable pub flush_mr : TreeFile → ModifyResult → Result Outcome
  unfolding flush_mr_partial
  flush_mr file res = flush_mr_partial file res res.node_len

  -- The threshold for nodes of a result's type.
  abbrev pub threshold : NodeType → ℕ
  threshold kv_node = rq.kv_chunk_threshold
  threshold kp_node = rq.kp_chunk_threshold

  unfoldable pub maybe_flush : TreeFile → ModifyResult → Result Outcome
  unfolding flush_mr
  maybe_flush file mr =
      let limit : ℕ = threshold mr.node_type in
      if rq.compacting
      then (if mr.modified && ltb (limit * 2 / 3) mr.node_len
          then flush_mr file mr
          else ok (record { file = file; result = mr; error = none }))
      else (if mr.modified && ltb 3 mr.count && ltb limit mr.node_len
          then flush_mr_partial file mr (limit * 2 / 3)
          else ok (record { file = file; result = mr; error = none }))

  -- An element at the end of the values; mr_push_item and mr_push_pointerinfo.
  abbrev pub appended : ModifyResult → Entry → ModifyResult
  appended res e = record res {
    values = res.values ++ e ∷ [];
    node_len = res.node_len + entry_size e;
    count = res.count + 1;
  }

  unfoldable pub mr_push_item : TreeFile → Item → ModifyResult → Result Outcome
  unfolding maybe_flush
  mr_push_item file item dst =
      maybe_flush file (appended dst (record { item = item; pointer = none }))

  unfoldable pub mr_push_pointerinfo : TreeFile → NodePointer → ModifyResult → Result Outcome
  unfolding maybe_flush
  mr_push_pointerinfo file ptr dst = maybe_flush file (appended dst (pointer_entry ptr))

  -- The pointers of `src` become values of `dst`, up to the first error; what is left of them stays.
  unfoldable pub move_loop : TreeFile → List Entry → ModifyResult → Result (List Entry × Outcome)
  unfolding maybe_flush
  move_loop file [] dst = ok ([], record { file = file; result = dst; error = none })
  move_loop file (ptr ∷ next) dst = do
    moved ← maybe_flush file (appended dst ptr)
    elim moved.error [ some e ↦ ok (next, moved) | none ↦ move_loop moved.file next moved.result ]

  unfoldable pub mr_move_pointers :
      TreeFile → ModifyResult → ModifyResult → Result (ModifyResult × Outcome)
  unfolding move_loop
  mr_move_pointers file src dst = do
    (next, moved) ← move_loop file src.pointers dst
    ok (record src { pointers = next }, moved)
