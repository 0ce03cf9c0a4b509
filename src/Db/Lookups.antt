-- ===== src/Db/Lookups.antt =====
-- Finding documents: the lookups of src/couch_db.cc.
-- Options are the bits of an integer. A callback of the caller returns its state, or its negative
-- result as an error. `depth` bounds the levels of a B-tree (see BTree.Lookup).
pub mod Stored
use Prim.Native.Nat.{bit_and}
use couchstore.Base.{
  ℕ, ◌+◌, ◌-◌, ◌==◌, if◌then◌else◌, not, Bool, true, false, ◌&&◌, List, [], ◌∷◌, length, map,
  Result, ok, err, fault, Error, error_unless, ◌>>=◌, ◌>>◌, Option, none, some,
}
use couchstore.Base.Order.{Cmp}
use couchstore.Bitfield.{encode_raw48}
use couchstore.KeyOrder.{ebin_cmp, seq_cmp}
use couchstore.NodeTypes.{NodePointer}
use couchstore.File.{Disk, FileOps}
use couchstore.Chunk.{Snappy, pread_bin, pread_compressed}
use couchstore.BTree.Lookup.{LookupRequest, btree_lookup}
use couchstore.Db.{Db}
use couchstore.Db.DocInfo.{DocInfo, by_seq_read_docinfo, by_id_read_docinfo}

-- `options & flag`
unfoldable pub has_option : ℕ → ℕ → Bool
has_option options flag = not (bit_and options flag == 0)

abbrev pub decompress_doc_bodies : ℕ
decompress_doc_bodies = 1

abbrev pub ranges : ℕ
ranges = 1

abbrev pub deletes_only : ℕ
deletes_only = 2

abbrev pub no_deletes : ℕ
no_deletes = 4

abbrev pub include_corrupt_docs : ℕ
include_corrupt_docs = 0x40000000

abbrev pub doc_is_compressed : ℕ
doc_is_compressed = 128

pub record Doc : Type 0 where
  pub id : List ℕ
  pub contents : List ℕ

pub record LocalDoc : Type 0 where
  pub id : List ℕ
  pub json : List ℕ
  pub deleted : Bool

-- lookup_context, less what the callbacks change: the tree's index, and what is called. Where there
-- is a `walk_callback`, a walk goes through the nodes too.
pub record LookupContext (S : Type 0) : Type 0 where
  pub options : ℕ
  pub by_id : Bool
  pub callback : S → DocInfo → Result S
  pub walk_callback : Option (S → ℕ → Option DocInfo → ℕ → Option (List ℕ) → Result S)

-- The depth of a walk, and the state of the caller's callback.
pub record Walk (S : Type 0) : Type 0 where
  pub depth : ℕ
  pub state : S

-- The info that is shown for a corrupt value.
abbrev pub corrupt_docinfo : List ℕ → List ℕ → DocInfo
corrupt_docinfo k v = record {
  id = k;
  db_seq = 0;
  rev_seq = 0;
  rev_meta = v;
  deleted = false;
  content_meta = 0;
  bp = 0;
  size = 0;
}

unfoldable pub show_corrupt : ℕ → List ℕ → List ℕ → Result DocInfo → Result DocInfo
show_corrupt options k v (ok docinfo) = ok docinfo
show_corrupt options k v (err Error.corrupt) =
    if has_option options include_corrupt_docs then ok (corrupt_docinfo k v) else err Error.corrupt
show_corrupt options k v (err errcode) = err errcode
show_corrupt options k v fault = fault

-- The documents that the options of an iteration leave out.
unfoldable pub is_left_out : ℕ → DocInfo → Bool
is_left_out options docinfo =
    if has_option options deletes_only && not docinfo.deleted
    then true
    else has_option options no_deletes && docinfo.deleted

unfoldable pub visit : {S : Type 0} → LookupContext S → Walk S → DocInfo → Result (Walk S)
visit cx w docinfo = do
  s ← elim cx.walk_callback [
    | none ↦ cx.callback w.state docinfo
    | some callback ↦ callback w.state w.depth (some docinfo) 0 none
  ]
  ok (record { depth = w.depth; state = s })

unfoldable pub lookup_callback :
    {S : Type 0} → LookupContext S → Walk S → List ℕ → Option (List ℕ) → Result (Walk S)
unfolding visit
lookup_callback cx w k none = ok w
lookup_callback cx w k (some v) = do
  docinfo ←
      show_corrupt cx.options k v
        (if cx.by_id then by_id_read_docinfo k v else by_seq_read_docinfo k v)
  if is_left_out cx.options docinfo then ok w else visit cx w docinfo

-- The callback of a node on the way down, with its reduction, and on the way up.
unfoldable pub walk_node_callback :
    {S : Type 0}
    → (S → ℕ → Option DocInfo → ℕ → Option (List ℕ) → Result S)
    → Walk S
    → ℕ
    → Option (List ℕ)
    → Result (Walk S)
walk_node_callback callback w subtree_size none = ok (record w { depth = w.depth - 1 })
walk_node_callback callback w subtree_size (some reduce_value) = do
  s ← callback w.state w.depth none subtree_size (some reduce_value)
  ok (record { depth = w.depth + 1; state = s })

-- The callbacks of lookups for one document store what they find at `*pInfo`.
unfoldable pub docinfo_fetch_by_id :
    Option DocInfo → List ℕ → Option (List ℕ) → Result (Option DocInfo)
docinfo_fetch_by_id info k none = err Error.doc_not_found
docinfo_fetch_by_id info k (some v) = do docinfo ← by_id_read_docinfo k v; ok (some docinfo)

unfoldable pub docinfo_fetch_by_seq :
    Option DocInfo → List ℕ → Option (List ℕ) → Result (Option DocInfo)
docinfo_fetch_by_seq info k none = err Error.doc_not_found
docinfo_fetch_by_seq info k (some v) = do docinfo ← by_seq_read_docinfo k v; ok (some docinfo)

unfoldable pub local_doc_fetch :
    Option LocalDoc → List ℕ → Option (List ℕ) → Result (Option LocalDoc)
local_doc_fetch doc k none = ok none
local_doc_fetch doc k (some v) = ok (some (record { id = k; json = v; deleted = false }))

-- `if (*pInfo == NULL) errcode = COUCHSTORE_ERROR_DOC_NOT_FOUND;`
abbrev pub found {ℓ} : {A : Type ℓ} → Option A → Result A
found none = err Error.doc_not_found
found (some a) = ok a

-- A request without a callback for nodes.
abbrev pub request :
    {S : Type 0}
    → (List ℕ → List ℕ → Cmp)
    → (S → List ℕ → Option (List ℕ) → Result S)
    → LookupRequest S
request compare fetch = record { compare = compare; fetch_callback = fetch; node_callback = none }

module _ (ops : FileOps) (snappy : Snappy) (depth : ℕ) (db : Db) where
  unfoldable pub docinfo_by_id : List ℕ → Option DocInfo → Result DocInfo
  docinfo_by_id id info = do
    error_unless (not db.dropped) Error.file_closed
    elim db.header.by_id_root [
      | none ↦ err Error.doc_not_found
      | some root ↦ (do
        info' ←
            btree_lookup (request ebin_cmp docinfo_fetch_by_id) ops snappy db.file.disk depth
              root.pointer (id ∷ []) false info
        found info')
    ]

  -- The first test is of the other index; without the index by sequence the code reads through a
  -- null pointer.
  unfoldable pub docinfo_by_sequence : ℕ → Option DocInfo → Result DocInfo
  docinfo_by_sequence sequence info = do
    error_unless (not db.dropped) Error.file_closed
    elim db.header.by_id_root [
      | none ↦ err Error.doc_not_found
      | some _ ↦ elim db.header.by_seq_root [
        | none ↦ fault
        | some root ↦ (do
          info' ←
              btree_lookup (request seq_cmp docinfo_fetch_by_seq) ops snappy db.file.disk depth
                root.pointer (encode_raw48 sequence ∷ []) false info
          found info')
      ]
    ]

  unfoldable pub open_local_document : List ℕ → Option LocalDoc → Result LocalDoc
  open_local_document id doc = do
    error_unless (not db.dropped) Error.file_closed
    elim db.header.local_docs_root [
      | none ↦ err Error.doc_not_found
      | some root ↦ (do
        doc' ←
            btree_lookup (request ebin_cmp local_doc_fetch) ops snappy db.file.disk depth
              root.pointer (id ∷ []) false doc
        found doc')
    ]

  -- bp_to_doc: the body of a document, without its id.
  unfoldable pub bp_to_doc : ℕ → ℕ → Result (List ℕ)
  bp_to_doc bp options = do
    error_unless (not db.dropped) Error.file_closed
    if has_option options decompress_doc_bodies
        then pread_compressed ops snappy db.file.disk bp
        else pread_bin ops db.file.disk bp

  -- `options &= ~DECOMPRESS_DOC_BODIES` leaves no option that bp_to_doc tests.
  unfoldable pub open_doc_with_docinfo : DocInfo → ℕ → Result Doc
  open_doc_with_docinfo docinfo options = if docinfo.bp == 0 then err Error.doc_not_found else do
    contents ←
        bp_to_doc docinfo.bp
          (if has_option docinfo.content_meta doc_is_compressed then options else 0)
    ok (record { id = docinfo.id; contents = contents })

  unfoldable pub open_document : List ℕ → ℕ → Result Doc
  open_document id options = do
    error_unless (not db.dropped) Error.file_closed
    info ← docinfo_by_id id none
    doc ← open_doc_with_docinfo info options
    ok (record doc { id = id })
