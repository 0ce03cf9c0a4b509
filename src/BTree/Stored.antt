-- ===== src/BTree/Stored.antt =====
-- A B-tree in a file, and what btree_lookup of src/btree_read.cc finds there.
pub mod Walk
pub mod Missing
use couchstore.Base.{
  ℕ, zero, suc, ◌≤◌, ◌<◌, ◌≡◌, refl, sym, ap, subst, ◌∙◌, arith, true, leb, ◌⊎◌, inl, inr, false,
  List, [], ◌∷◌, ◌++◌, length, All, All-map, Result, ok, err, fault, ◌>>=◌, none,
}
use couchstore.Base.Order.{Cmp, IsComparator, Sorted}
use couchstore.Bitfield.{decode_raw48}
use couchstore.NodeTypes.{Item}
use couchstore.NodeTypes.Items.{Fits, write_items}
use couchstore.File.{Disk, FileOps}
use couchstore.Chunk.{Snappy, pread_compressed}
use couchstore.BTree.Lookup.{
  LookupRequest, LookupState, btree_lookup_inner, btree_lookup, kp_loop, kv_loop, not_found,
}
use couchstore.BTree.Lookup.Answers.{HasByte, Asks, answers}
use couchstore.BTree.Lookup.Rounds.{ByKey, plain, done, finish}
use couchstore.BTree.Lookup.Leaf.{leaf-answers}
use couchstore.BTree.Lookup.Children.{Child, all_items, pointers, Bounded}
use couchstore.BTree.Lookup.Descents.{IsPointer, Serves}
use couchstore.BTree.Lookup.Nodes.{node-answers}

module _ (cmp : List ℕ → List ℕ → Cmp) (ops : FileOps) (snappy : Snappy) (d : Disk) where
  -- The chunk at a position is a leaf with these items, in ascending order.
  pub record IsLeaf (position : ℕ) (items : List Item) : Type 0 where
    pub bytes : pread_compressed ops snappy d position ≡ ok (1 ∷ write_items items)
    pub sorted : Sorted (ByKey cmp) items
    pub no_empty : All (λ (i : Item). HasByte i.key) items
    pub fits : All Fits items

  -- The chunk at a position is a node of pointers to subtrees that satisfy `below`.
  pub record IsNode (below : ℕ → List Item → Type 0) (position : ℕ) (items : List Item)
      : Type 0 where
    pub children : List Child
    pub bytes : pread_compressed ops snappy d position ≡ ok (0 ∷ write_items (pointers children))
    pub are_pointers : All IsPointer children
    pub bounded : Bounded cmp children
    pub subtrees : All (λ (c : Child). below (decode_raw48 c.pointer.value) c.items) children
    pub gathered : items ≡ all_items children

  -- A tree of at most `height` levels with its root at `position`, and its items from left to right.
  abbrev pub Holds : ℕ → ℕ → List Item → Type 0
  Holds zero position items = ⊥
  Holds (suc height) position items = IsLeaf position items ⊎ IsNode (Holds height) position items

pub some_byte : (n : ℕ) → leb 1 (suc n) ≡ true
some_byte n = ground arith

module _ {S : Type 0} (rq : LookupRequest S) (o : IsComparator rq.compare)
    (silent : rq.node_callback ≡ none) (ops : FileOps) (snappy : Snappy) (d : Disk) where
  inner-leaf :
      (depth position : ℕ) (items : List Item)
      → IsLeaf rq.compare ops snappy d position items
      → Serves rq o silent (btree_lookup_inner rq ops snappy d (suc depth)) position items
  unfolding btree_lookup_inner
  inner-leaf depth position items leaf [] s a = unfold answers in refl
  inner-leaf depth position items leaf (k ∷ ks) s a =
      rw (leaf.bytes, some_byte (length (write_items items)))
        (leaf-answers rq o (length (write_items items)) items (k ∷ ks) s leaf.sorted leaf.no_empty
          leaf.fits a.sorted a.no_empty a.present (omega arith))

  inner-node :
      (depth position : ℕ) (items : List Item) (below : ℕ → List Item → Type 0)
      (node : IsNode rq.compare ops snappy d below position items)
      → All
          (λ (c : Child).
            Serves rq o silent
              (btree_lookup_inner rq ops snappy d depth)
              (decode_raw48 c.pointer.value)
              c.items)
          node.children
      → Serves rq o silent (btree_lookup_inner rq ops snappy d (suc depth)) position items
  unfolding btree_lookup_inner
  inner-node depth position items below node sv [] s a = unfold answers in refl
  inner-node depth position items below node sv (k ∷ ks) s a =
      rw (node.bytes, some_byte (length (write_items (pointers node.children))))
        (node-answers rq o silent (btree_lookup_inner rq ops snappy d depth)
            (length (write_items (pointers node.children))) node.children (k ∷ ks) s
            node.are_pointers node.bounded sv
            (subst (λ is. Asks rq.compare is (k ∷ ks)) node.gathered a) (omega arith)
          ∙ ap (λ is. done (answers rq.compare rq.fetch_callback is (k ∷ ks) s))
              (sym node.gathered))

  inner-answers :
      (height depth position : ℕ) (items : List Item)
      → height ≤ depth
      → Holds rq.compare ops snappy d height position items
      → Serves rq o silent (btree_lookup_inner rq ops snappy d depth) position items
  inner-answers zero depth position items n h = absurd h
  inner-answers (suc height) zero position items n h = absurd (omega arith)
  inner-answers (suc height) (suc depth) position items n (inl leaf) =
      inner-leaf depth position items leaf
  inner-answers (suc height) (suc depth) position items n (inr node) =
      inner-node depth position items (Holds rq.compare ops snappy d height) node (
        All-map
          (λ (c : Child).
            Holds rq.compare ops snappy d height (decode_raw48 c.pointer.value) c.items)
          (λ (c : Child).
            Serves rq o silent (btree_lookup_inner rq ops snappy d depth)
              (decode_raw48 c.pointer.value) c.items)
          node.children
          (λ c below.
            inner-answers height depth (decode_raw48 c.pointer.value) c.items (omega arith) below)
          node.subtrees)

  -- In a B-tree that is stored in a file, with at most as many levels as the given depth, a lookup
  -- without folding of non-empty keys in ascending order, all but the last of which are keys of
  -- items, makes exactly the calls of the callback that answer the keys in their order: with the
  -- item that compares equal, or as not found. It ends at the first error of a call, and the
  -- comparison is any total preorder.
  pub btree_lookup-answers :
      (height depth root : ℕ) (items : List Item) (keys : List (List ℕ)) (ctx : S)
      → height ≤ depth
      → Holds rq.compare ops snappy d height root items
      → Asks rq.compare items keys
      → btree_lookup rq ops snappy d depth root keys false ctx
        ≡ answers rq.compare rq.fetch_callback items keys ctx
  unfolding btree_lookup
  btree_lookup-answers height depth root items keys ctx n h a =
      rw (inner-answers height depth root items n h keys ctx a)
        (after (answers rq.compare rq.fetch_callback items keys ctx))
    where
      after : (r : Result S) → (done r >>= λ st. ok st.ctx) ≡ r
      after (ok s) = refl
      after (err code) = refl
      after fault = refl
