-- ===== src/Db/Iterate.antt =====
-- Iterating over documents: couchstore_changes_since, couchstore_all_docs, the walks of both trees
-- and the lookups of many keys in src/couch_db.cc. `qsort` is that of the C library.
pub mod Shown
pub mod Stored
pub mod Infos
use couchstore.Base.{
  ℕ, ◌+◌, ◌-◌, ◌==◌, if◌then◌else◌, not, Bool, true, false, List, [], ◌∷◌, length, map, Result, ok,
  err, fault, Error, error_unless, ◌>>=◌, ◌>>◌, Option, none, some,
}
use couchstore.Base.Order.{Cmp}
use couchstore.Bitfield.{encode_raw48}
use couchstore.KeyOrder.{ebin_cmp, seq_cmp}
use couchstore.NodeTypes.{NodePointer}
use couchstore.File.{FileOps}
use couchstore.Chunk.{Snappy}
use couchstore.BTree.Lookup.{LookupRequest, btree_lookup}
use couchstore.Db.{Db}
use couchstore.Db.DocInfo.{DocInfo}
use couchstore.Db.Lookups.{
  LookupContext, Walk, request, lookup_callback, walk_node_callback, has_option, ranges,
}

module _ (ops : FileOps) (snappy : Snappy) (depth : ℕ) (db : Db) {S : Type 0} where
  unfoldable pub changes_since : ℕ → ℕ → (S → DocInfo → Result S) → S → Result S
  changes_since since options callback ctx = do
    error_unless (not db.dropped) Error.file_closed
    elim db.header.by_seq_root [
      | none ↦ ok ctx
      | some root ↦ (do
        let cbctx : LookupContext S = record {
          options = options;
          by_id = false;
          callback = callback;
          walk_callback = none;
        }
        w ←
            btree_lookup (request seq_cmp (lookup_callback cbctx)) ops snappy db.file.disk depth
              root.pointer (encode_raw48 since ∷ []) true (record { depth = 0; state = ctx })
        ok w.state)
    ]

  -- A start key that is not given is an empty one.
  unfoldable pub all_docs : List ℕ → ℕ → (S → DocInfo → Result S) → S → Result S
  all_docs start_key options callback ctx = do
    error_unless (not db.dropped) Error.file_closed
    elim db.header.by_id_root [
      | none ↦ ok ctx
      | some root ↦ (do
        let cbctx : LookupContext S = record {
          options = options;
          by_id = true;
          callback = callback;
          walk_callback = none;
        }
        w ←
            btree_lookup (request ebin_cmp (lookup_callback cbctx)) ops snappy db.file.disk depth
              root.pointer (start_key ∷ []) true (record { depth = 0; state = ctx })
        ok w.state)
    ]

  unfoldable pub walk_tree :
      Bool
      → Option NodePointer
      → List ℕ
      → ℕ
      → (List ℕ → List ℕ → Cmp)
      → (S → ℕ → Option DocInfo → ℕ → Option (List ℕ) → Result S)
      → S
      → Result S
  walk_tree by_id tree start_key options compare callback ctx = do
    error_unless (not db.dropped) Error.file_closed
    elim tree [
      | none ↦ ok ctx
      | some root ↦ (do
        entered ← callback ctx 0 none root.subtreesize (some root.reduce_value)
        let cbctx : LookupContext S = record {
          options = options;
          by_id = by_id;
          callback = λ s _. ok s;
          walk_callback = some callback;
        }
        let rq : LookupRequest (Walk S) = record {
          compare = compare;
          fetch_callback = lookup_callback cbctx;
          node_callback = some (walk_node_callback callback);
        }
        w ←
            btree_lookup rq ops snappy db.file.disk depth root.pointer (start_key ∷ []) true
              (record { depth = 1; state = entered })
        ok w.state)
    ]

  unfoldable pub walk_id_tree :
      List ℕ → ℕ → (S → ℕ → Option DocInfo → ℕ → Option (List ℕ) → Result S) → S → Result S
  unfolding walk_tree
  walk_id_tree start_key options callback ctx =
      walk_tree true db.header.by_id_root start_key options ebin_cmp callback ctx

  unfoldable pub walk_seq_tree :
      ℕ → ℕ → (S → ℕ → Option DocInfo → ℕ → Option (List ℕ) → Result S) → S → Result S
  unfolding walk_tree
  walk_seq_tree start_sequence options callback ctx =
      walk_tree false db.header.by_seq_root (encode_raw48 start_sequence) options seq_cmp callback
        ctx

  module _ (qsort : (List ℕ → List ℕ → Cmp) → List (List ℕ) → List (List ℕ)) where
    -- The options of the caller go no further than the flag for ranges. Whether the tree is the one
    -- by id is told by the caller.
    unfoldable pub iterate_docinfos :
        List (List ℕ)
        → Option NodePointer
        → Bool
        → (List ℕ → List ℕ → Cmp)
        → (S → DocInfo → Result S)
        → Bool
        → S
        → Result S
    iterate_docinfos keys tree by_id key_compare callback fold ctx = do
      error_unless (not db.dropped) Error.file_closed
      elim tree [
        | none ↦ ok ctx
        | some root ↦ (do
          error_unless (not (length keys == 0)) Error.invalid_arguments
          let cbctx : LookupContext S = record {
            options = 0;
            by_id = by_id;
            callback = callback;
            walk_callback = none;
          }
          w ←
              btree_lookup (request key_compare (lookup_callback cbctx)) ops snappy db.file.disk
                depth root.pointer (if fold then keys else qsort key_compare keys) fold
                (record { depth = 0; state = ctx })
          ok w.state)
      ]

    unfoldable pub docinfos_by_id : List (List ℕ) → ℕ → (S → DocInfo → Result S) → S → Result S
    unfolding iterate_docinfos
    docinfos_by_id ids options callback ctx =
        iterate_docinfos ids db.header.by_id_root true ebin_cmp callback (has_option options ranges)
          ctx

    unfoldable pub docinfos_by_sequence : List ℕ → ℕ → (S → DocInfo → Result S) → S → Result S
    unfolding iterate_docinfos
    docinfos_by_sequence sequences options callback ctx = do
      error_unless (not db.dropped) Error.file_closed
      iterate_docinfos (map encode_raw48 sequences) db.header.by_seq_root false seq_cmp callback
          (has_option options ranges) ctx
