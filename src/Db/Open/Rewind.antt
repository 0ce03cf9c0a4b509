-- ===== src/Db/Open/Rewind.antt =====
-- What couchstore_rewind_db_header goes back to.
use couchstore.Base.{ℕ, ◌-◌, ◌*◌, ◌<◌, ◌≡◌, refl, arith, List, Result, ok, err, fault, >>=-ok}
use couchstore.File.{Disk, FileOps}
use couchstore.Chunk.{pread_header}
use couchstore.Db.{DbHeader, Db, check_mark, parse_header, find_header, find_header_at_pos}
use couchstore.Db.Find.{Skipped, find_header_last}
use couchstore.Db.Open.{find_older_header, rewind_db_header, closed_unless_ok}

parse_header_position :
    (pos : ℕ) (buf : List ℕ) (h : DbHeader) → parse_header pos buf ≡ ok h → h.position ≡ pos
unfolding parse_header
parse_header_position pos buf h e = ground arith

module _ (ops : FileOps) where
  pub find_header_at_pos_position :
      (d : Disk) (pos : ℕ) (h : DbHeader) → find_header_at_pos ops d pos ≡ ok h → h.position ≡ pos
  unfolding find_header_at_pos
  find_header_at_pos_position d pos h e =
      let (_, r1, e1) = >>=-ok (check_mark (ops.pread d 2 pos)) _ e in
      let (buf, r2, e2) = >>=-ok (pread_header ops d pos 1024) _ e1 in
      parse_header_position pos buf h e2

  closed_ok :
      (db db' : Db) (r : Result DbHeader)
      → closed_unless_ok db r ≡ ok db'
      → (h : DbHeader) × (r ≡ ok h) × (db' ≡ record db { header = h })
  unfolding closed_unless_ok
  closed_ok db db' (ok h) e = (h, refl, cc)
  closed_ok db db' (err e') e = cc
  closed_ok db db' fault e = cc

  find_older_header_ok :
      (db : Db) (h : DbHeader)
      → find_older_header ops db ≡ ok h
      → (0 < db.header.position) × (find_header ops db.file.disk (db.header.position - 2) ≡ ok h)
  unfolding find_older_header
  find_older_header_ok db h e = ground arith

  -- A successful rewind leaves the file as it is and goes to a header that stands strictly below the
  -- current one, the last of those: every block between is one that the scan goes over.
  pub rewind_db_header_lem :
      (db db' : Db)
      → rewind_db_header ops db ≡ ok db'
      → (db'.file ≡ db.file)
        × (db'.header.position < db.header.position)
        × (find_header_at_pos ops db.file.disk db'.header.position ≡ ok db'.header)
        × ((j : ℕ)
            → db'.header.position < 4096 * j
            → 4096 * j < db.header.position - 1
            → Skipped (find_header_at_pos ops db.file.disk (4096 * j)))
  unfolding rewind_db_header
  rewind_db_header_lem db db' e =
      let (h, r, same) = closed_ok db db' (find_older_header ops db) e in
      let (pos, r') = find_older_header_ok db h r in
      let (k, le, at, above) = find_header_last ops db.file.disk (db.header.position - 2) h r' in
      let here : h.position ≡ 4096 * k = find_header_at_pos_position db.file.disk (4096 * k) h at in
      rw same (refl, omega arith, rw here at, λ j gt lt. above j (omega arith) (omega arith))
