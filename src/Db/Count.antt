-- ===== src/Db/Count.antt =====
-- couchstore_changes_count of src/couch_db.cc: how many changes lie between two sequence numbers,
-- from the reductions of the B-tree where a subtree lies within.
pub mod Ranges
pub mod Leaves
pub mod Rounds
pub mod Children
pub mod Nodes
pub mod Stored
use couchstore.Base.{
  ℕ, zero, suc, ◌+◌, ◌^◌, ◌%◌, ◌==◌, leb, if◌then◌else◌, not, Bool, true, false, ◌||◌, List, [],
  ◌∷◌, length, drop, get_or, Result, ok, err, fault, assert, ◌>>=◌, ◌>>◌, none, some,
}
use couchstore.Bitfield.{encode_raw48, decode_raw40, decode_raw48}
use couchstore.KeyOrder.{seq_cmp}
use couchstore.NodeTypes.{Item, read_kv}
use couchstore.File.{Disk, FileOps}
use couchstore.Chunk.{Snappy, pread_compressed}
use couchstore.BTree.Lookup.{not_below, is_above}
use couchstore.Db.{Db}

-- What a round of the loop leaves: whether it was left by `break`, the sum, and `past_left_edge`.
pub record Round : Type 0 where
  pub stop : Bool
  pub accum : ℕ
  pub past_left_edge : Bool

-- Counters are 64 bits wide.
abbrev pub plus : ℕ → ℕ → ℕ
plus a b = (a + b) % 2 ^ 64

-- An item of a node of pointers that is not before the left key; `descend` is the recursive call.
unfoldable pub kp_count : (ℕ → ℕ → Bool → Result ℕ) → List ℕ → Item → ℕ → Bool → Result Round
kp_count descend right item accum past = do
  assert (leb 19 (length item.value))
  let subcount = decode_raw40 (drop 14 item.value)
  let at_right = not_below (seq_cmp item.key right)
  if not past || at_right
      then (do
        sum ← descend (decode_raw48 item.value) accum past
        ok (record { stop = at_right; accum = sum; past_left_edge = true }))
      else ok (record { stop = false; accum = plus accum subcount; past_left_edge = past })

unfoldable pub kv_count : List ℕ → Item → ℕ → Bool → Result Round
kv_count right item accum past =
    if is_above (seq_cmp item.key right)
    then ok (record { stop = true; accum = accum; past_left_edge = past })
    else ok (record { stop = false; accum = plus accum 1; past_left_edge = past })

unfoldable pub count_round :
    (ℕ → ℕ → Bool → Result ℕ) → Bool → List ℕ → List ℕ → Item → ℕ → Bool → Result Round
unfolding kp_count kv_count
count_round descend is_kp left right item accum past =
    if not (not_below (seq_cmp item.key left))
    then ok (record { stop = false; accum = accum; past_left_edge = past })
    else if is_kp
    then kp_count descend right item accum past
    else kv_count right item accum past

unfoldable pub count_loop :
    (ℕ → ℕ → Bool → Result ℕ) → Bool → List ℕ → List ℕ → ℕ → List ℕ → ℕ → Bool → Result ℕ
unfolding count_round
count_loop descend is_kp left right fuel [] accum past = ok accum
count_loop descend is_kp left right zero (b ∷ bs) accum past = fault
count_loop descend is_kp left right (suc fuel) (b ∷ bs) accum past = do
  (item, rest) ← read_kv (b ∷ bs)
  round ← count_round descend is_kp left right item accum past
  elim round.stop [
    | true ↦ ok round.accum
    | false ↦ count_loop descend is_kp left right fuel rest round.accum round.past_left_edge
  ]

module _ (ops : FileOps) (snappy : Snappy) (d : Disk) (left right : List ℕ) where
  -- `depth` levels are left, as for btree_lookup_inner.
  unfoldable pub btree_eval_seq_reduce : ℕ → ℕ → ℕ → Bool → Result ℕ
  btree_eval_seq_reduce zero diskpos accum past = fault
  btree_eval_seq_reduce (suc depth) diskpos accum past = do
    nodebuf ← pread_compressed ops snappy d diskpos
    assert (leb 1 (length nodebuf))
    let bytes = drop 1 nodebuf
    count_loop (btree_eval_seq_reduce depth) (get_or nodebuf 0 0 == 0) left right (length bytes)
        bytes accum past

unfoldable pub changes_count : FileOps → Snappy → ℕ → Db → ℕ → ℕ → Result ℕ
unfolding btree_eval_seq_reduce
changes_count ops snappy depth db min_seq max_seq = elim db.header.by_seq_root [
  | none ↦ ok 0
  | some root ↦
      btree_eval_seq_reduce ops snappy db.file.disk (encode_raw48 min_seq) (encode_raw48 max_seq)
        depth root.pointer 0 false
]
