-- ===== src/Db/Lookups/Stored.antt =====
-- What the lookups of src/couch_db.cc find of stored documents.
use couchstore.Base.{ℕ, ◌≤◌, ◌≡◌, refl, false, List, [], ◌∷◌, map, All, ◌>>=◌, Option, none, some}
use couchstore.Base.Order.{less, equal, greater, Cmp-cases, is_less, is_equal, is_greater}
use couchstore.KeyOrder.{ebin_cmp, lexicographic, ebin_cmp-lexicographic, ebin_cmp-IsComparator}
use couchstore.NodeTypes.{NodePointer}
use couchstore.File.{FileOps}
use couchstore.Chunk.{Snappy}
use couchstore.BTree.Lookup.Answers.{HasByte, find_item, answer, answers}
use couchstore.BTree.Stored.{Holds, btree_lookup-answers}
use couchstore.Db.{Db}
use couchstore.Db.DocInfo.{DocInfo, id_item}
use couchstore.Db.DocInfo.RoundTrip.{IsStorable, by_id_read_docinfo-assemble_id_index_value}
use couchstore.Db.Lookups.{request, docinfo_fetch_by_id, docinfo_by_id, found}

-- The document with an id.
unfoldable pub find_document : List ℕ → List DocInfo → Option DocInfo
find_document id [] = none
find_document id (d ∷ ds) = elim (lexicographic d.id id) [
  | less ↦ find_document id ds
  | equal ↦ some d
  | greater ↦ find_document id ds
]

fetched :
    (id : List ℕ) (ds : List DocInfo) (info : Option DocInfo)
    → All IsStorable ds
    → (answers ebin_cmp docinfo_fetch_by_id (map id_item ds) (id ∷ []) info >>= λ i. found i)
      ≡ found (find_document id ds)
unfolding answers answer find_item find_document id_item docinfo_fetch_by_id
fetched id [] info st = refl
fetched id (d ∷ ds) info st = elim (Cmp-cases (lexicographic d.id id)) [
  | is_less c ↦
      rw (ebin_cmp-lexicographic d.id id, c, find_item, find_document) (fetched id ds info st.1)
  | is_equal c ↦
      rw
        (
          ebin_cmp-lexicographic d.id id,
          c,
          find_item,
          find_document,
          by_id_read_docinfo-assemble_id_index_value d st.0,
        )
        refl
  | is_greater c ↦
      rw (ebin_cmp-lexicographic d.id id, c, find_item, find_document) (fetched id ds info st.1)
]

module _ (ops : FileOps) (snappy : Snappy) (depth : ℕ) (db : Db)
    (open_db : db.dropped ≡ false) where
  -- Where the tree by id of an open database holds the values of documents whose fields fit,
  -- couchstore_docinfo_by_id of a non-empty id returns the info of the first document with that id,
  -- or the error that there is none.
  pub docinfo_by_id-stored :
      (height : ℕ) (root : NodePointer) (ds : List DocInfo) (id : List ℕ) (info : Option DocInfo)
      → db.header.by_id_root ≡ some root
      → height ≤ depth
      → Holds ebin_cmp ops snappy db.file.disk height root.pointer (map id_item ds)
      → All IsStorable ds
      → HasByte id
      → docinfo_by_id ops snappy depth db id info ≡ found (find_document id ds)
  unfolding docinfo_by_id
  docinfo_by_id-stored height root ds id info r n h st b =
      rw
        (
          open_db,
          r,
          btree_lookup-answers (request ebin_cmp docinfo_fetch_by_id) ebin_cmp-IsComparator.0 refl
              ops snappy db.file.disk height depth root.pointer (map id_item ds) (id ∷ []) info n h
              (record { sorted = (tt, tt); no_empty = (b, tt); present = tt }),
        )
        (fetched id ds info st)
