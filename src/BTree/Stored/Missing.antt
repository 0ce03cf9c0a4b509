-- ===== src/BTree/Stored/Missing.antt =====
-- A lookup of several keys of which the first is not there, in src/btree_read.cc.
use couchstore.Base.{
  ℕ, suc, ◌≡◌, refl, arith, false, List, [], ◌∷◌, length, Result, ok, err, fault, ◌>>=◌,
}
use couchstore.NodeTypes.{Item}
use couchstore.NodeTypes.Items.{write_items}
use couchstore.File.{Disk, FileOps}
use couchstore.Chunk.{Snappy}
use couchstore.BTree.Lookup.{LookupRequest, btree_lookup_inner, btree_lookup}
use couchstore.BTree.Lookup.Answers.{HasByte, NoneOf, answers}
use couchstore.BTree.Lookup.Rounds.{done, not_found-answers}
use couchstore.BTree.Lookup.Absent.{leaf-missing}
use couchstore.BTree.Stored.{IsLeaf, some_byte}

module _ {S : Type 0} (rq : LookupRequest S) (ops : FileOps) (snappy : Snappy) (d : Disk) where
  -- In a tree of one leaf, a lookup without folding whose first key is not empty and not that of any
  -- item reports all keys as not found, also later ones that are keys of items.
  pub btree_lookup-missing :
      (depth root : ℕ) (items : List Item) (k : List ℕ) (ks : List (List ℕ)) (ctx : S)
      → IsLeaf rq.compare ops snappy d root items
      → HasByte k
      → NoneOf rq.compare items k
      → btree_lookup rq ops snappy d (suc depth) root (k ∷ ks) false ctx
        ≡ answers rq.compare rq.fetch_callback [] (k ∷ ks) ctx
  unfolding btree_lookup btree_lookup_inner
  btree_lookup-missing depth root items k ks ctx leaf h n =
      rw
        (
          leaf.bytes,
          some_byte (length (write_items items)),
          leaf-missing rq (length (write_items items)) items k ks ctx leaf.no_empty leaf.fits h n
              (omega arith),
          not_found-answers rq (k ∷ ks) ctx,
        )
        (after (answers rq.compare rq.fetch_callback [] (k ∷ ks) ctx))
    where
      after : (r : Result S) → (done r >>= λ st. ok st.ctx) ≡ r
      after (ok s) = refl
      after (err code) = refl
      after fault = refl
