-- ===== src/Db/Open/Commit.antt =====
-- What couchstore_commit leaves in the file.
use couchstore.Base.{ℕ, ◌+◌, ◌≤◌, ◌<◌, ◌≡◌, ap, ◌∙◌, arith, [], ◌∷◌, length, ok, >>=-ok}
use couchstore.File.{Disk, FileOps, TreeFile}
use couchstore.File.Laws.{ReadLaws, ReadsAll, ReadsFront, WriteLaws, WritesFront}
use couchstore.NodeTypes.Roots.{root_size}
use couchstore.Chunk.{write_header, header_position, db_write_buf}
use couchstore.Chunk.Header.{write_header_sound}
use couchstore.Db.{DbHeader, Db, header_bytes, find_header, db_write_header}
use couchstore.Db.HeaderBytes.{Storable, stored_header, parse_header-header_bytes}
use couchstore.Db.Find.{find_header_here, find_header_at_pos-HasHeader}
use couchstore.Db.Open.{commit, extended}

module _ (ops : FileOps) where
  db_write_header_ok :
      (db db' : Db)
      → db_write_header ops db ≡ ok db'
      → (write_header ops db.file (header_bytes db.header) ≡ ok (db'.header.position, db'.file))
  unfolding db_write_header
  db_write_header_ok db db' e =
      let ((pos, file), r, e') = >>=-ok (write_header ops db.file (header_bytes db.header)) _ e in
      ground arith

  commit_ok :
      (db db' : Db)
      → commit ops db ≡ ok db'
      → (disk : Disk) × (db_write_header ops
            (record db { file = record { pos = db.file.pos; disk = disk } })
          ≡ ok db')
  unfolding commit
  commit_ok db db' e =
      let size =
        root_size db.header.by_seq_root
        + root_size db.header.by_id_root
        + root_size db.header.local_docs_root in
      let past : TreeFile = record { pos = db.file.pos + (25 + size); disk = db.file.disk } in
      let (disk, r1, e1) = >>=-ok (extended db.file.disk (db_write_buf ops past (0 ∷ []))) _ e in
      let (_, r2, e2) = >>=-ok (ops.sync disk) _ e1 in
      let at_old : Db = record db { file = record { pos = db.file.pos; disk = disk } } in
      let (db2, r3, e3) = >>=-ok (db_write_header ops at_old) _ e2 in
      let (_, r4, e4) = >>=-ok (ops.sync db2.file.disk) _ e3 in
      let same : db2 ≡ db' = ground arith in (disk, r3 ∙ ap ok same)

module _ (ops : FileOps) (reads : ReadLaws ops) (all : ReadsAll ops) (front : ReadsFront ops)
    (writes : WriteLaws ops) (whole : WritesFront ops) where
  written_header_found :
      (file : TreeFile) (h : DbHeader) (pos : ℕ) (file' : TreeFile) (start : ℕ)
      → write_header ops file (header_bytes h) ≡ ok (pos, file')
      → Storable (header_position file.pos) h
      → length (header_bytes h) ≤ 1020
      → pos ≤ start
      → start < pos + 4096
      → find_header ops file'.disk start ≡ ok (stored_header pos h)
  written_header_found file h pos file' start e fits small le lt =
      let (c, at, end) = write_header_sound ops writes whole file (header_bytes h) pos file' e in
      find_header_here ops file'.disk pos start (stored_header pos h) (omega (arith, c.aligned)) le
        lt
        (find_header_at_pos-HasHeader ops reads all front file'.disk pos (header_bytes h)
            (omega arith) c
          ∙ parse_header-header_bytes pos h (rw at fits))

  -- After a successful commit, a scan that starts in the block of the new header finds it, with the
  -- database's roots and sequence numbers as the file keeps them, where the roots lie below the
  -- header and fit their fields, the header has at most 1020 bytes, and the file operations keep
  -- their laws.
  pub find_header-commit :
      (db db' : Db) (start : ℕ)
      → commit ops db ≡ ok db'
      → Storable (header_position db.file.pos) db.header
      → length (header_bytes db.header) ≤ 1020
      → db'.header.position ≤ start
      → start < db'.header.position + 4096
      → find_header ops db'.file.disk start ≡ ok (stored_header db'.header.position db.header)
  find_header-commit db db' start e fits small le lt =
      let (disk, r) = commit_ok ops db db' e in
      written_header_found (record { pos = db.file.pos; disk = disk }) db.header db'.header.position
        db'.file start (db_write_header_ok ops _ db' r) fits small le lt
