-- ===== src/Db/Iterate/Infos.antt =====
-- What couchstore_docinfos_by_id of src/couch_db.cc shows of stored documents.
use couchstore.Base.{
  ℕ, ◌≤◌, ◌≡◌, refl, arith, true, false, List, [], ◌∷◌, map, length, All, Result, ok, err, fault,
  ◌>>=◌, none, some, ◌==◌,
}
use couchstore.Base.Order.{Cmp, Cmp-cases, is_less, is_equal, is_greater}
use couchstore.KeyOrder.{lexicographic, ebin_cmp, ebin_cmp-IsComparator, ebin_cmp-lexicographic}
use couchstore.NodeTypes.{NodePointer}
use couchstore.File.{FileOps}
use couchstore.Chunk.{Snappy}
use couchstore.BTree.Lookup.Answers.{Asks, find_item, answer, answers}
use couchstore.BTree.Stored.{Holds, btree_lookup-answers}
use couchstore.Db.{Db}
use couchstore.Db.DocInfo.{DocInfo, id_item, assemble_id_index_value}
use couchstore.Db.DocInfo.RoundTrip.{IsStorable, by_id_read_docinfo-assemble_id_index_value}
use couchstore.Db.Lookups.{LookupContext, lookup_callback, request, is_left_out, has_option, ranges}
use couchstore.Db.Lookups.Stored.{find_document}
use couchstore.Db.Iterate.{iterate_docinfos, docinfos_by_id}
use couchstore.Db.Iterate.Shown.{outside, inside, shown}

-- The callback on the documents with these ids, in the order of the ids.
unfoldable pub show_found :
    {S : Type 0} → (S → DocInfo → Result S) → List DocInfo → List (List ℕ) → S → Result S
show_found callback ds [] s = ok s
show_found callback ds (id ∷ ids) s =
    elim (find_document id ds) [ none ↦ ok s | some d ↦ callback s d ] >>= λ s'.
    show_found callback ds ids s'

module _ {S : Type 0} (callback : S → DocInfo → Result S) where
  abbrev cx : LookupContext S
  cx = record { options = 0; by_id = true; callback = callback; walk_callback = none }

  read_back :
      (d : DocInfo) (s : S)
      → IsStorable d
      → lookup_callback cx (outside s) d.id (some (assemble_id_index_value d))
        ≡ inside (callback s d)
  unfolding is_left_out has_option
  read_back d s st =
      shown cx d s d.id (assemble_id_index_value d) refl
        (by_id_read_docinfo-assemble_id_index_value d st)

  answered :
      (id : List ℕ) (ds : List DocInfo) (s : S)
      → All IsStorable ds
      → answer ebin_cmp (lookup_callback cx) (outside s) id (find_item ebin_cmp id (map id_item ds))
        ≡ inside (elim (find_document id ds) [ none ↦ ok s | some d ↦ callback s d ])
  unfolding answer find_item find_document id_item
  answered id [] s st = unfold lookup_callback in refl
  answered id (d ∷ ds) s st = elim (Cmp-cases (lexicographic d.id id)) [
    | is_less c ↦
        rw (ebin_cmp-lexicographic d.id id, c, find_item, find_document) (answered id ds s st.1)
    | is_equal c ↦
        rw (ebin_cmp-lexicographic d.id id, c, find_item, find_document) (read_back d s st.0)
    | is_greater c ↦
        rw (ebin_cmp-lexicographic d.id id, c, find_item, find_document) (answered id ds s st.1)
  ]

  answers-show_found :
      (ids : List (List ℕ)) (ds : List DocInfo) (s : S)
      → All IsStorable ds
      → answers ebin_cmp (lookup_callback cx) (map id_item ds) ids (outside s)
        ≡ inside (show_found callback ds ids s)
  unfolding answers show_found
  answers-show_found [] ds s st = refl
  answers-show_found (id ∷ ids) ds s st = rw (answered id ds s st) (
      after (elim (find_document id ds) [ none ↦ ok s | some d ↦ callback s d ])
        (λ s'. answers-show_found ids ds s' st))
    where
      after :
          (r : Result S)
          → ((s' : S)
              → answers ebin_cmp (lookup_callback cx) (map id_item ds) ids (outside s')
                ≡ inside (show_found callback ds ids s'))
          → (inside r >>= λ w. answers ebin_cmp (lookup_callback cx) (map id_item ds) ids w)
            ≡ inside (r >>= λ s'. show_found callback ds ids s')
      after (ok s') ih = ih s'
      after (err e) ih = refl
      after fault ih = refl

  state_of : (r : Result S) → (inside r >>= λ w. ok w.state) ≡ r
  state_of (ok s) = refl
  state_of (err e) = refl
  state_of fault = refl

  module _ (ops : FileOps) (snappy : Snappy) (depth : ℕ) (db : Db) (open_db : db.dropped ≡ false)
      (qsort : (List ℕ → List ℕ → Cmp) → List (List ℕ) → List (List ℕ)) where
    -- Where the tree by id of an open database holds the values of documents whose fields fit, and
    -- couchstore_docinfos_by_id is given at least one id and no option for ranges, and qsort puts
    -- the ids in ascending order, none of them empty and all but the last those of documents, then
    -- it calls the callback for the first document with each id, in that order, passes over an id
    -- without a document, and ends at the first error of a call.
    pub docinfos_by_id-stored :
        (height : ℕ) (root : NodePointer) (ds : List DocInfo) (id : List ℕ) (ids : List (List ℕ))
        (options : ℕ) (ctx : S)
        → db.header.by_id_root ≡ some root
        → height ≤ depth
        → Holds ebin_cmp ops snappy db.file.disk height root.pointer (map id_item ds)
        → All IsStorable ds
        → has_option options ranges ≡ false
        → Asks ebin_cmp (map id_item ds) (qsort ebin_cmp (id ∷ ids))
        → docinfos_by_id ops snappy depth db qsort (id ∷ ids) options callback ctx
          ≡ show_found callback ds (qsort ebin_cmp (id ∷ ids)) ctx
    unfolding docinfos_by_id iterate_docinfos
    docinfos_by_id-stored height root ds id ids options ctx r n h st e a =
        let given : (length (id ∷ ids) == 0) ≡ false = ground arith in
        rw
          (
            open_db,
            r,
            e,
            given,
            btree_lookup-answers (request ebin_cmp (lookup_callback cx)) ebin_cmp-IsComparator.0
                refl ops snappy db.file.disk height depth root.pointer (map id_item ds)
                (qsort ebin_cmp (id ∷ ids)) (outside ctx) n h a,
            answers-show_found (qsort ebin_cmp (id ∷ ids)) ds ctx st,
          )
          (state_of (show_found callback ds (qsort ebin_cmp (id ∷ ids)) ctx))
