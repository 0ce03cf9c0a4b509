-- ===== src/Db/Count/Stored.antt =====
-- What couchstore_changes_count of src/couch_db.cc counts in a stored B-tree by sequence.
use couchstore.Base.{
  ℕ, zero, suc, ◌+◌, ◌^◌, ◌≤◌, ◌<◌, ◌≡◌, refl, sym, ap, ap₂, subst, ◌∙◌, arith, false, Bool, ◌⊎◌,
  inl, inr, List, [], ◌∷◌, append-nil, length, map, All, All-map₃, Result, ok, some,
}
use couchstore.Bitfield.{encode_raw48, decode_raw48}
use couchstore.Bitfield.Widths.{decode-encode_raw48}
use couchstore.KeyOrder.{seq_cmp}
use couchstore.NodeTypes.{Item, NodePointer, decode_sequence_key}
use couchstore.NodeTypes.Items.{write_items}
use couchstore.File.{Disk, FileOps}
use couchstore.Chunk.{Snappy}
use couchstore.BTree.Lookup.Children.{Child, pointers}
use couchstore.BTree.Lookup.Descents.{IsPointer}
use couchstore.BTree.Stored.{IsLeaf, IsNode, some_byte}
use couchstore.Db.{Db}
use couchstore.Db.DocInfo.{DocInfo, seq_item}
use couchstore.Db.DocInfo.RoundTrip.{IsStorable}
use couchstore.Db.Count.{plus, btree_eval_seq_reduce, changes_count}
use couchstore.Db.Count.Ranges.{counted, count_range}
use couchstore.Db.Count.Leaves.{leaf-count}
use couchstore.Db.Count.Nodes.{node-count}
use couchstore.Db.Count.Rounds.{IsCounted, Passed, Counts, IsKnown}

module _ (ops : FileOps) (snappy : Snappy) (d : Disk) where
  -- A stored tree in which the reductions count the items of the subtrees.
  abbrev pub HoldsCounted : ℕ → ℕ → List Item → Type 0
  HoldsCounted zero position items = ⊥
  HoldsCounted (suc height) position items =
      IsLeaf seq_cmp ops snappy d position items
      ⊎ ((node : IsNode seq_cmp ops snappy d (HoldsCounted height) position items) × All IsCounted
            node.children)

  module _ (left right : List ℕ) where
    abbrev Eval : ℕ → ℕ → ℕ → Bool → Result ℕ
    Eval = btree_eval_seq_reduce ops snappy d left right

    tree-leaf :
        (depth position : ℕ) (items : List Item)
        → IsLeaf seq_cmp ops snappy d position items
        → Counts (Eval (suc depth)) left right position items
    unfolding btree_eval_seq_reduce
    tree-leaf depth position items leaf accum past a p =
        rw (leaf.bytes, some_byte (length (write_items items)))
          (leaf-count (Eval depth) left right (length (write_items items)) items accum past
            leaf.sorted leaf.fits (omega arith) a)

    tree-node :
        (depth position : ℕ) (items : List Item) (below : ℕ → List Item → Type 0)
        (node : IsNode seq_cmp ops snappy d below position items)
        → All (IsKnown (Eval depth) left right) node.children
        → Counts (Eval (suc depth)) left right position items
    unfolding btree_eval_seq_reduce
    tree-node depth position items below node k accum past a p =
        rw (node.bytes, some_byte (length (write_items (pointers node.children))))
          (node-count (Eval depth) left right (length (write_items (pointers node.children)))
              node.children accum past k node.bounded (omega arith) a
              (subst (λ is. Passed left past is) node.gathered p)
            ∙ ap
                (λ is. ok (
                  plus accum
                    (count_range (decode_sequence_key left) (decode_sequence_key right) is)))
                (sym node.gathered))

    tree-Counts :
        (height depth position : ℕ) (items : List Item)
        → height ≤ depth
        → HoldsCounted height position items
        → Counts (Eval depth) left right position items
    tree-Counts zero depth position items n h = absurd h
    tree-Counts (suc height) zero position items n h = absurd (omega arith)
    tree-Counts (suc height) (suc depth) position items n (inl leaf) =
        tree-leaf depth position items leaf
    tree-Counts (suc height) (suc depth) position items n (inr (node, counted)) =
        tree-node depth position items (HoldsCounted height) node (
          All-map₃ IsPointer IsCounted
            (λ (c : Child). HoldsCounted height (decode_raw48 c.pointer.value) c.items)
            (IsKnown (Eval depth) left right) node.children
            (λ c ip ic below. record {
              pointer = ip;
              counted = ic;
              counts =
                  tree-Counts height depth (decode_raw48 c.pointer.value) c.items (omega arith)
                    below;
            })
            node.are_pointers counted node.subtrees)

-- The documents between two sequence numbers.
unfoldable pub count_changes : ℕ → ℕ → List DocInfo → ℕ
count_changes min_seq max_seq [] = 0
count_changes min_seq max_seq (d ∷ ds) =
    counted min_seq max_seq d.db_seq + count_changes min_seq max_seq ds

sequence_key : (n : ℕ) → n < 2 ^ 48 → decode_sequence_key (encode_raw48 n) ≡ n
unfolding decode_sequence_key
sequence_key n h =
    ap decode_raw48 (sym (append-nil (encode_raw48 n))) ∙ decode-encode_raw48 n [] ∙ omega arith

count_range-seq_item :
    (lo hi : ℕ) (ds : List DocInfo)
    → All IsStorable ds
    → count_range lo hi (map seq_item ds) ≡ count_changes lo hi ds
unfolding count_range count_changes seq_item
count_range-seq_item lo hi [] st = refl
count_range-seq_item lo hi (d ∷ ds) st =
    ap₂ (λ (s n : ℕ). counted lo hi s + n) (sequence_key d.db_seq st.0.db_seq)
      (count_range-seq_item lo hi ds st.1)

-- Where the tree by sequence holds the values of documents whose fields fit, fewer than 2^64 of them
-- in the range, and the reduction behind each pointer counts the items of its subtree,
-- couchstore_changes_count returns how many of the documents have sequence numbers from min_seq up
-- to max_seq, both below 2^48 and included.
pub changes_count-stored :
    (ops : FileOps) (snappy : Snappy) (depth : ℕ) (db : Db) (height : ℕ) (root : NodePointer)
    (ds : List DocInfo) (min_seq max_seq : ℕ)
    → db.header.by_seq_root ≡ some root
    → height ≤ depth
    → HoldsCounted ops snappy db.file.disk height root.pointer (map seq_item ds)
    → All IsStorable ds
    → min_seq < 2 ^ 48
    → max_seq < 2 ^ 48
    → count_changes min_seq max_seq ds < 2 ^ 64
    → changes_count ops snappy depth db min_seq max_seq ≡ ok (count_changes min_seq max_seq ds)
unfolding changes_count
changes_count-stored ops snappy depth db height root ds min_seq max_seq r n h st a b small =
    rw
      (
        r,
        tree-Counts ops snappy db.file.disk (encode_raw48 min_seq) (encode_raw48 max_seq) height
            depth root.pointer (map seq_item ds) n h 0 false (omega arith) (λ e. cc),
        sequence_key min_seq a,
        sequence_key max_seq b,
        count_range-seq_item min_seq max_seq ds st,
      )
      (ap (λ (t : ℕ). ok t) (omega arith))
