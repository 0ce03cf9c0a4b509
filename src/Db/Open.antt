-- ===== src/Db/Open.antt =====
-- couchstore_open_db_ex, couchstore_commit and couchstore_rewind_db_header of src/couch_db.cc.
-- A file is opened by the caller's operations; what they open is the `Disk` that is given here.
pub mod Commit
pub mod Rewind
use couchstore.Base.{
  ℕ, ◌+◌, ◌-◌, ◌^◌, ◌==◌, ltb, if◌then◌else◌, not, Bool, true, false, ◌&&◌, List, [], ◌∷◌, Result,
  ok, err, fault, Error, error_unless, ◌>>=◌, ◌>>◌, none,
}
use couchstore.File.{Disk, FileOps, TreeFile}
use couchstore.NodeTypes.Roots.{root_size}
use couchstore.Chunk.{Written, db_write_buf}
use couchstore.Db.{
  DbHeader, Db, disk_version, find_header, find_header_at_pos, create_header, db_write_header,
}

-- The header of a database that is being opened: `calloc`.
abbrev pub empty_header : DbHeader
empty_header = record {
  disk_version = 0;
  update_seq = 0;
  by_id_root = none;
  by_seq_root = none;
  local_docs_root = none;
  purge_seq = 0;
  purge_ptr = 0;
  position = 0;
}

-- `db->file.pos = goto_eof(...)`: the -1 of a failure becomes the largest `uint64_t`.
unfoldable pub eof_position : Result ℕ → Result ℕ
eof_position (ok n) = ok n
eof_position (err e) = ok (2 ^ 64 - 1)
eof_position fault = fault

-- `db->file.pos - 2` as find_header takes it, an `int64_t`: a small negative number is rounded to
-- the block at 0, as 0 is.
unfoldable pub scan_start : ℕ → ℕ
scan_start pos = if ltb pos (2 ^ 63) then pos - 2 else 0

-- The disk behind the write whose result couchstore_commit drops.
unfoldable pub extended : Disk → Result Written → Result Disk
extended d (ok w) = ok w.file.disk
extended d (err e) = ok d
extended d fault = fault

-- The `cleanup:` of couchstore_rewind_db_header.
unfoldable pub closed_unless_ok : Db → Result DbHeader → Result Db
closed_unless_ok db (ok h) = ok (record db { header = h })
closed_unless_ok db (err e) = err Error.db_no_longer_valid
closed_unless_ok db fault = fault

module _ (ops : FileOps) where
  unfoldable pub open_db_ex : Bool → Bool → Disk → Result Db
  unfolding eof_position scan_start
  open_db_ex rdonly create disk = do
    error_unless (not (rdonly && create)) Error.invalid_arguments
    pos ← eof_position (ops.goto_eof disk)
    let fresh : Db = record {
      file = record { pos = pos; disk = disk };
      header = empty_header;
      dropped = false;
    }
    let created = create_header ops fresh
    let found = (do
      h ← find_header ops disk (scan_start pos)
      ok (record { file = record { pos = pos; disk = disk }; header = h; dropped = false }))
    if pos == 0 then (if rdonly then err Error.no_header else created) else found

  -- The file is first made to end where the header's bytes would, by a chunk of one byte, whose
  -- result is dropped; then the header is written from the old end of the file on.
  unfoldable pub commit : Db → Result Db
  unfolding extended
  commit db = do
    let size =
        root_size db.header.by_seq_root
        + root_size db.header.by_id_root
        + root_size db.header.local_docs_root
    disk ← extended db.file.disk (
        db_write_buf ops (record { pos = db.file.pos + (25 + size); disk = db.file.disk }) (0 ∷ []))
    ops.sync disk
    db' ← db_write_header ops (record db { file = record { pos = db.file.pos; disk = disk } })
    ops.sync db'.file.disk
    ok db'

  -- What couchstore_rewind_db_header does before its `cleanup:`.
  unfoldable pub find_older_header : Db → Result DbHeader
  find_older_header db = do
    error_unless (not db.dropped) Error.file_closed
    error_unless (not (db.header.position == 0)) Error.db_no_longer_valid
    find_header ops db.file.disk (db.header.position - 2)

  -- couchstore_rewind_db_header: on each error the handle is closed, and the error is one.
  unfoldable pub rewind_db_header : Db → Result Db
  unfolding closed_unless_ok
  rewind_db_header db = closed_unless_ok db (find_older_header db)

  -- couchstore_reopen_file, of a file whose contents are `disk`: a position of its own is not set, and
  -- that of the file which was open before stays.
  unfoldable pub reopen_file : Db → Disk → Result Db
  reopen_file db disk = do
    let reopened = (do
      h ← find_header_at_pos ops disk db.header.position
      error_unless (db.header.update_seq == h.update_seq) Error.db_no_longer_valid
      ok (record { file = record { pos = db.file.pos; disk = disk }; header = h; dropped = false }))
    if not db.dropped then ok db else reopened
