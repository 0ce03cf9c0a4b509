-- ===== src/Db/Iterate/Stored.antt =====
-- What the iterations of src/couch_db.cc show of stored documents.
use couchstore.Base.{
  ℕ, ◌^◌, ◌≤◌, ◌<◌, ◌≡◌, refl, leb, not, true, false, ◌&&◌, List, map, All, All-map, Result, ok,
  err, fault, ◌>>=◌, none, some,
}
use couchstore.Bitfield.{encode_raw48}
use couchstore.BTree.Lookup.Answers.{HasByte}
use couchstore.KeyOrder.{
  lexicographic, ebin_cmp, seq_cmp, ebin_cmp-IsComparator, seq_cmp-IsComparator,
}
use couchstore.NodeTypes.{NodePointer}
use couchstore.File.{FileOps}
use couchstore.Chunk.{Snappy}
use couchstore.BTree.Lookup.{not_below}
use couchstore.BTree.Stored.{Holds}
use couchstore.BTree.Stored.Walk.{btree_lookup-walk}
use couchstore.Db.{Db}
use couchstore.Db.DocInfo.{
  id_item, seq_item, DocInfo, assemble_id_index_value, assemble_seq_index_value,
}
use couchstore.Db.DocInfo.RoundTrip.{
  IsStorable, by_id_read_docinfo-assemble_id_index_value,
  by_seq_read_docinfo-assemble_seq_index_value,
}
use couchstore.Db.Lookups.{LookupContext, request, lookup_callback, is_left_out}
use couchstore.Db.Iterate.{changes_since, all_docs}
use couchstore.Db.Iterate.Shown.{
  show_each, outside, inside, shown, IsShown, walk-show_each, seq_compared, id_compared,
}

module _ (ops : FileOps) (snappy : Snappy) (depth : ℕ) (db : Db) {S : Type 0} (options : ℕ)
    (callback : S → DocInfo → Result S) (open_db : db.dropped ≡ false) where
  left : (r : Result S) → (inside r >>= λ w. ok w.state) ≡ r
  left (ok s) = refl
  left (err e) = refl
  left fault = refl

  -- Where the tree by sequence of an open database holds the values of documents whose fields fit,
  -- couchstore_changes_since calls the callback exactly for the documents with that sequence number,
  -- which is below 2^48, or a later one, in the order of the tree, less those that the options leave
  -- out, and ends at the first error of a call.
  pub changes_since-stored :
      (height : ℕ) (root : NodePointer) (ds : List DocInfo) (since : ℕ) (ctx : S)
      → db.header.by_seq_root ≡ some root
      → height ≤ depth
      → Holds seq_cmp ops snappy db.file.disk height root.pointer (map seq_item ds)
      → All IsStorable ds
      → since < 2 ^ 48
      → changes_since ops snappy depth db since options callback ctx
        ≡ show_each (λ d. leb since d.db_seq && not (is_left_out options d)) callback ds ctx
  unfolding changes_since
  changes_since-stored height root ds since ctx r n h st small =
      let cx : LookupContext S = record {
        options = options;
        by_id = false;
        callback = callback;
        walk_callback = none;
      } in
      let shown_all =
        All-map IsStorable
          (IsShown cx seq_cmp seq_item (encode_raw48 since) (λ d. leb since d.db_seq)) ds
          (λ d fits. record {
            compared = unfold seq_item in seq_compared since d.db_seq small fits.db_seq;
            read = λ s.
                unfold seq_item in
                shown cx d s (encode_raw48 d.db_seq) (assemble_seq_index_value d) refl
                  (by_seq_read_docinfo-assemble_seq_index_value d fits);
          })
          st in
      rw
        (
          open_db,
          r,
          btree_lookup-walk (request seq_cmp (lookup_callback cx)) (encode_raw48 since)
              seq_cmp-IsComparator refl ops snappy db.file.disk height depth root.pointer
              (map seq_item ds) (outside ctx) n h,
          walk-show_each cx seq_cmp seq_item (encode_raw48 since) (λ d. leb since d.db_seq) ds ctx
              shown_all,
        )
        (left (show_each (λ d. leb since d.db_seq && not (is_left_out options d)) callback ds ctx))

  -- Where the tree by id of an open database holds the values of documents with non-empty ids whose
  -- fields fit, couchstore_all_docs calls the callback exactly for the documents whose ids are not
  -- below the start key as words, in the order of the tree, less those that the options leave out,
  -- and ends at the first error of a call.
  pub all_docs-stored :
      (height : ℕ) (root : NodePointer) (ds : List DocInfo) (start : List ℕ) (ctx : S)
      → db.header.by_id_root ≡ some root
      → height ≤ depth
      → Holds ebin_cmp ops snappy db.file.disk height root.pointer (map id_item ds)
      → All (λ d. IsStorable d × HasByte d.id) ds
      → all_docs ops snappy depth db start options callback ctx
        ≡ show_each
            (λ d. not_below (lexicographic d.id start) && not (is_left_out options d))
            callback
            ds
            ctx
  unfolding all_docs
  all_docs-stored height root ds start ctx r n h st =
      let cx : LookupContext S = record {
        options = options;
        by_id = true;
        callback = callback;
        walk_callback = none;
      } in
      let shown_all =
        All-map (λ d. IsStorable d × HasByte d.id)
          (IsShown cx ebin_cmp id_item start (λ d. not_below (lexicographic d.id start))) ds
          (λ d fits. record {
            compared = unfold id_item in id_compared start d.id fits.1;
            read = λ s.
                unfold id_item in
                shown cx d s d.id (assemble_id_index_value d) refl
                  (by_id_read_docinfo-assemble_id_index_value d fits.0);
          })
          st in
      rw
        (
          open_db,
          r,
          btree_lookup-walk (request ebin_cmp (lookup_callback cx)) start ebin_cmp-IsComparator.0
              refl ops snappy db.file.disk height depth root.pointer (map id_item ds) (outside ctx)
              n h,
          walk-show_each cx ebin_cmp id_item start (λ d. not_below (lexicographic d.id start)) ds
              ctx shown_all,
        )
        (left (
          show_each (λ d. not_below (lexicographic d.id start) && not (is_left_out options d))
            callback ds ctx))
