-- ===== src/BTree/Stored/Walk.antt =====
-- What btree_lookup of src/btree_read.cc finds in a stored B-tree when it folds from one key on.
use couchstore.Base.{
  ℕ, zero, suc, ◌≤◌, ◌≡◌, refl, sym, subst, ◌∙◌, arith, Bool, true, false, inl, inr, List, [], ◌∷◌,
  length, All, All-map, Result, ok, err, fault, ◌>>=◌, none,
}
use couchstore.Base.Order.{IsComparator}
use couchstore.Bitfield.{decode_raw48}
use couchstore.NodeTypes.{Item}
use couchstore.NodeTypes.Items.{write_items}
use couchstore.File.{Disk, FileOps}
use couchstore.Chunk.{Snappy}
use couchstore.BTree.Lookup.{
  LookupRequest, LookupState, btree_lookup_inner, btree_lookup, not_found,
}
use couchstore.BTree.Lookup.Children.{Child, all_items, pointers}
use couchstore.BTree.Lookup.Folds.{walk, folding, same_keys, Walks, leaf-Walks}
use couchstore.BTree.Lookup.Tours.{returned, Tours, node-Walks}
use couchstore.BTree.Stored.{IsLeaf, IsNode, Holds, some_byte}

module _ {S : Type 0} (rq : LookupRequest S) (k : List ℕ) (o : IsComparator rq.compare)
    (silent : rq.node_callback ≡ none) (ops : FileOps) (snappy : Snappy) (d : Disk) where
  -- After a loop that folds, no key is reported as not found.
  settle :
      (b : Bool) (items : List Item) (s : S) (run : Result (List (List ℕ) × LookupState S))
      → Walks rq k b (same_keys rq k) run items s
      → Walks rq k b (returned rq k o silent) (run >>= λ p. not_found rq p.0 p.1) items s
  unfolding not_found
  settle b items s run w = record {
    after = w.after;
    kept = w.kept;
    calls = rw w.calls (next (walk rq k items s));
  }
    where
      next :
          (r : Result S)
          → ((r >>= same_keys rq k w.after) >>= λ p. not_found rq p.0 p.1)
            ≡ (r >>= returned rq k o silent w.after)
      next (ok s') = refl
      next (err code) = refl
      next fault = refl

  along :
      (b : Bool) (items : List Item) (s : S) (run run' : Result (LookupState S))
      → run ≡ run'
      → Walks rq k b (returned rq k o silent) run' items s
      → Walks rq k b (returned rq k o silent) run items s
  along b items s run run' e w = record { after = w.after; kept = w.kept; calls = e ∙ w.calls }

  inner-leaf :
      (depth position : ℕ) (items : List Item)
      → IsLeaf rq.compare ops snappy d position items
      → Tours rq k o silent (btree_lookup_inner rq ops snappy d (suc depth)) position items
  unfolding btree_lookup_inner
  inner-leaf depth position items leaf b s =
      let w = leaf-Walks rq k (length (write_items items)) items b s leaf.fits (omega arith) in
      along b items s _ _ (rw (leaf.bytes, some_byte (length (write_items items))) refl)
        (settle b items s _ w)

  inner-node :
      (depth position : ℕ) (items : List Item) (below : ℕ → List Item → Type 0)
      (node : IsNode rq.compare ops snappy d below position items)
      → All
          (λ (c : Child).
            Tours rq k o silent
              (btree_lookup_inner rq ops snappy d depth)
              (decode_raw48 c.pointer.value)
              c.items)
          node.children
      → Tours rq k o silent (btree_lookup_inner rq ops snappy d (suc depth)) position items
  unfolding btree_lookup_inner
  inner-node depth position items below node t b s =
      let w =
        node-Walks rq k o silent (btree_lookup_inner rq ops snappy d depth)
          (length (write_items (pointers node.children))) node.children b s node.are_pointers
          node.bounded t (omega arith) in
      subst
        (λ is.
          Walks rq k b (returned rq k o silent)
            (btree_lookup_inner rq ops snappy d (suc depth) position (k ∷ []) (folding rq k b s)) is
            s)
        (sym node.gathered)
        (along b (all_items node.children) s _ _
          (rw (node.bytes, some_byte (length (write_items (pointers node.children)))) refl)
          (settle b (all_items node.children) s _ w))

  inner-walks :
      (height depth position : ℕ) (items : List Item)
      → height ≤ depth
      → Holds rq.compare ops snappy d height position items
      → Tours rq k o silent (btree_lookup_inner rq ops snappy d depth) position items
  inner-walks zero depth position items n h = absurd h
  inner-walks (suc height) zero position items n h = absurd (omega arith)
  inner-walks (suc height) (suc depth) position items n (inl leaf) =
      inner-leaf depth position items leaf
  inner-walks (suc height) (suc depth) position items n (inr node) =
      inner-node depth position items (Holds rq.compare ops snappy d height) node (
        All-map
          (λ (c : Child).
            Holds rq.compare ops snappy d height (decode_raw48 c.pointer.value) c.items)
          (λ (c : Child).
            Tours rq k o silent (btree_lookup_inner rq ops snappy d depth)
              (decode_raw48 c.pointer.value) c.items)
          node.children
          (λ c below.
            inner-walks height depth (decode_raw48 c.pointer.value) c.items (omega arith) below)
          node.subtrees)

  -- In a B-tree that is stored in a file, with at most as many levels as the given depth, a lookup
  -- that folds from one key on, which may be empty, makes exactly the calls of the callback for the
  -- items whose keys are not below that key, in the order of the tree, and ends at the first error
  -- of a call.
  pub btree_lookup-walk :
      (height depth root : ℕ) (items : List Item) (ctx : S)
      → height ≤ depth
      → Holds rq.compare ops snappy d height root items
      → btree_lookup rq ops snappy d depth root (k ∷ []) true ctx ≡ walk rq k items ctx
  unfolding btree_lookup
  btree_lookup-walk height depth root items ctx n h =
      let w = inner-walks height depth root items n h false ctx in
      rw w.calls (next w.after (walk rq k items ctx))
    where
      next : (a : Bool) (r : Result S) → ((r >>= returned rq k o silent a) >>= λ st. ok st.ctx) ≡ r
      next a (ok s) = refl
      next a (err code) = refl
      next a fault = refl
