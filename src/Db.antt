-- ===== src/Db.antt =====
-- Opening and committing databases: the headers of src/couch_db.cc.
-- A header's roots are read into new nodes, so a header is a value. Where find_header_at_pos fails,
-- what it has stored in `db->header` by then is overwritten or given up by its callers, and is not
-- modelled; nor is a failure of an allocation.
pub mod HeaderBytes
pub mod Find
pub mod Open
pub mod DocInfo
pub mod Lookups
pub mod Iterate
pub mod Count
pub mod Samples
pub mod SampleTrees
mod LookupTests
mod Tests
use couchstore.Base.{
  ℕ, zero, suc, ◌+◌, ◌-◌, ◌*◌, ◌/◌, ◌%◌, ◌^◌, ltb, leb, ◌==◌, if◌then◌else◌, not, Bool, true, false,
  List, [], ◌∷◌, ◌++◌, length, take, drop, get_or, Result, ok, err, fault, Error, assert,
  error_unless, ◌>>=◌, ◌>>◌, Option, none, some,
}
use couchstore.Bitfield.{
  encode_raw08, encode_raw16, encode_raw48, decode_raw08, decode_raw16, decode_raw48,
}
use couchstore.File.{Disk, FileOps, TreeFile, block_size}
use couchstore.NodeTypes.{NodePointer, read_root, encode_root}
use couchstore.NodeTypes.Roots.{root_size}
use couchstore.Chunk.{Written, pread_header, write_header, db_write_buf}

abbrev pub root_base_size : ℕ
root_base_size = 12

abbrev pub header_base_size : ℕ
header_base_size = 25

abbrev pub disk_version : ℕ
disk_version = 11

abbrev pub max_db_header_size : ℕ
max_db_header_size = 1024

-- db_header
pub record DbHeader : Type 0 where
  pub disk_version : ℕ
  pub update_seq : ℕ
  pub by_id_root : Option NodePointer
  pub by_seq_root : Option NodePointer
  pub local_docs_root : Option NodePointer
  pub purge_seq : ℕ
  pub purge_ptr : ℕ
  pub position : ℕ

-- struct _db, with the file operations as a parameter
pub record Db : Type 0 where
  pub file : TreeFile
  pub header : DbHeader
  pub dropped : Bool

-- read_db_root: `position` is the header's.
unfoldable pub read_db_root : ℕ → List ℕ → ℕ → Result (Option NodePointer)
read_db_root position root_data root_len = if root_len == 0 then ok none else do
  error_unless (leb root_base_size root_len) Error.corrupt
  root ← read_root root_data root_len
  elim root [
    | none ↦ err Error.alloc_fail
    | some p ↦ (do error_unless (ltb p.pointer position) Error.corrupt; ok (some p))
  ]

-- What find_header_at_pos does with the bytes of a header at `pos`. The fields of the fixed part are
-- read before the length is compared, so a body of less than 25 bytes is read beyond its end.
unfoldable pub parse_header : ℕ → List ℕ → Result DbHeader
parse_header pos buf = do
  assert (leb header_base_size (length buf))
  error_unless (decode_raw08 buf == disk_version) Error.header_version
  let update_seq = decode_raw48 (drop 1 buf)
  let purge_seq = decode_raw48 (drop 7 buf)
  let purge_ptr = decode_raw48 (drop 13 buf)
  error_unless (leb purge_ptr pos) Error.corrupt
  let seqrootsize = decode_raw16 (drop 19 buf)
  let idrootsize = decode_raw16 (drop 21 buf)
  let localrootsize = decode_raw16 (drop 23 buf)
  error_unless (length buf == header_base_size + seqrootsize + idrootsize + localrootsize)
      Error.corrupt
  let root_data = drop 25 buf
  by_seq_root ← read_db_root pos root_data seqrootsize
  by_id_root ← read_db_root pos (drop seqrootsize root_data) idrootsize
  local_docs_root ← read_db_root pos (drop idrootsize (drop seqrootsize root_data)) localrootsize
  ok (record {
    disk_version = disk_version;
    update_seq = update_seq;
    by_id_root = by_id_root;
    by_seq_root = by_seq_root;
    local_docs_root = local_docs_root;
    purge_seq = purge_seq;
    purge_ptr = purge_ptr;
    position = pos;
  })

-- The size of a root in `db_write_header` is that of its stored form: 12 bytes and the reduction.
unfoldable pub header_bytes : DbHeader → List ℕ
header_bytes h =
    encode_raw08 disk_version
    ++ (encode_raw48 h.update_seq
        ++ (encode_raw48 h.purge_seq
            ++ (encode_raw48 h.purge_ptr
                ++ (encode_raw16 (root_size h.by_seq_root)
                    ++ (encode_raw16 (root_size h.by_id_root)
                        ++ (encode_raw16 (root_size h.local_docs_root)
                            ++ (encode_root h.by_seq_root
                                ++ (encode_root h.by_id_root
                                    ++ encode_root h.local_docs_root))))))))

-- The two bytes that tell a header block from a data block.
unfoldable pub check_mark : Result (List ℕ) → Result (Unit {0})
check_mark fault = fault
check_mark (err e) = err Error.read
check_mark (ok buf) =
    if not (length buf == 2)
    then err Error.read
    else if get_or buf 0 0 == 0
    then err Error.no_header
    else if get_or buf 0 0 == 1
    then ok tt
    else err Error.corrupt

-- The `switch` of find_header: return, or go on with the block before and an error to remember.
unfoldable pub find_header_switch :
    Result DbHeader → Error → (Error → Result DbHeader) → Result DbHeader
find_header_switch (ok h) last_header_errcode go_on = ok h
find_header_switch fault last_header_errcode go_on = fault
find_header_switch (err Error.no_header) last_header_errcode go_on = go_on last_header_errcode
find_header_switch (err Error.alloc_fail) last_header_errcode go_on = err Error.alloc_fail
find_header_switch (err errcode) last_header_errcode go_on = go_on errcode

module _ (ops : FileOps) where
  unfoldable pub find_header_at_pos : Disk → ℕ → Result DbHeader
  unfolding check_mark
  find_header_at_pos d pos = do
    check_mark (ops.pread d 2 pos)
    buf ← pread_header ops d pos max_db_header_size
    parse_header pos buf

  -- The `for` loop of find_header: `blocks` block boundaries are left, the last one at
  -- `4096 * (blocks - 1)`.
  unfoldable pub find_header_loop : Disk → ℕ → Error → Result DbHeader
  unfolding find_header_switch
  find_header_loop d zero last_header_errcode = err last_header_errcode
  find_header_loop d (suc blocks) last_header_errcode =
      find_header_switch (find_header_at_pos d (block_size * blocks)) last_header_errcode
        (λ errcode. find_header_loop d blocks errcode)

  unfoldable pub find_header : Disk → ℕ → Result DbHeader
  unfolding find_header_loop
  find_header d start_pos = find_header_loop d (start_pos / block_size + 1) Error.no_header

  unfoldable pub db_write_header : Db → Result Db
  db_write_header db = do
    (pos, file) ← write_header ops db.file (header_bytes db.header)
    ok (record db { file = file; header = record db.header { position = pos } })

  unfoldable pub create_header : Db → Result Db
  unfolding db_write_header
  create_header db = db_write_header (record db {
    header = record {
      disk_version = disk_version;
      update_seq = 0;
      by_id_root = none;
      by_seq_root = none;
      local_docs_root = none;
      purge_seq = 0;
      purge_ptr = 0;
      position = 0;
    };
  })
