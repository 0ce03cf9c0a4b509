-- ===== src/Chunk/Compressed.antt =====
-- Compressed chunks: the round trip through Snappy and the file.
use couchstore.Base.{ℕ, ◌+◌, ◌/◌, ◌^◌, ◌≤◌, ◌<◌, ◌≡◌, arith, List, length, ok, some}
use couchstore.File.{Disk, FileOps, TreeFile}
use couchstore.File.Laws.{ReadLaws, ReadsAll, WriteLaws, WritesAll}
use couchstore.Chunk.{
  Written, Snappy, uncompress, pread_bin, pread_compressed, db_write_buf_compressed,
}
use couchstore.Chunk.RoundTrip.{pread_bin-db_write_buf}

-- What Snappy documents: decompression undoes compression, and the compressed form has at most
-- `MaxCompressedLength` bytes.
pub record SnappyLaws (snappy : Snappy) : Type 0 where
  pub length_known :
      (buf : List ℕ) → snappy.get_uncompressed_length (snappy.raw_compress buf) ≡ some (length buf)
  pub undone : (buf : List ℕ) → snappy.raw_uncompress (snappy.raw_compress buf) ≡ some buf
  pub bounded : (buf : List ℕ) → length (snappy.raw_compress buf) ≤ 32 + length buf + length buf / 6

module _ (ops : FileOps) (snappy : Snappy) (laws : SnappyLaws snappy) where
  uncompress-raw_compress : (buf : List ℕ) → uncompress snappy (snappy.raw_compress buf) ≡ ok buf
  unfolding uncompress
  uncompress-raw_compress buf = ground (arith, laws.length_known buf, laws.undone buf)

  pub pread_compressed_of_bin :
      (d : Disk) (pos : ℕ) (buf : List ℕ)
      → pread_bin ops d pos ≡ ok (snappy.raw_compress buf)
      → pread_compressed ops snappy d pos ≡ ok buf
  unfolding pread_compressed pread_bin
  pread_compressed_of_bin d pos buf e = rw e (unfold uncompress in uncompress-raw_compress buf)

  -- Where no file operation fails and Snappy undoes its own compression, a buffer of less than 2^30
  -- bytes that is written compressed is returned by pread_compressed at the position of the write.
  pub pread_compressed-db_write_buf_compressed :
      (reads : ReadLaws ops) (reads_all : ReadsAll ops) (writes : WriteLaws ops)
      (writes_all : WritesAll ops) (file : TreeFile) (buf : List ℕ)
      → length buf < 2 ^ 30
      → (w : Written) × (db_write_buf_compressed ops snappy file buf ≡ ok w)
        × (pread_compressed ops snappy w.file.disk w.pos ≡ ok buf)
  unfolding db_write_buf_compressed
  pread_compressed-db_write_buf_compressed reads reads_all writes writes_all file buf h =
      let (w, e, p, size, r) =
        pread_bin-db_write_buf ops reads reads_all writes writes_all file (snappy.raw_compress buf)
          (omega (arith, laws.bounded buf)) in
      (w, e, pread_compressed_of_bin w.file.disk w.pos buf r)
