-- ===== src/Chunk.antt =====
-- The chunks of src/couch_file_read.cc and src/couch_file_write.cc: a length and a checksum of four
-- bytes each, and a body; headers, which stand at a block boundary behind the byte 1; and chunks
-- that Snappy compresses.
-- Allocation does not fail here. What a failed write leaves in the file behind `file->pos` is not
-- modelled: the `err` of a result carries no file.
pub mod RoundTrip
pub mod AppendOnly
pub mod Header
pub mod Compressed
mod Tests
use couchstore.Base.{
  ℕ, zero, suc, ◌+◌, ◌-◌, ◌*◌, ◌/◌, ◌%◌, ◌^◌, ◌<◌, ◌==◌, ltb, if◌then◌else◌, ◌&&◌, ◌||◌, not, List,
  [], ◌∷◌, ◌++◌, length, take, drop, Result, ok, err, Error, ◌>>=◌, Option, none, some,
}
use couchstore.Bitfield.{memory_of_hton, ntoh_of_memory}
use couchstore.Crc32.{hash_crc32}
use couchstore.File.{Disk, FileOps, TreeFile, block_size, read_skipping_prefixes, raw_write}

-- `size | 0x80000000` of a `uint32_t`
unfoldable pub set_high_bit : ℕ → ℕ
set_high_bit size = if size / 2 ^ 31 % 2 == 1 then size else size + 2 ^ 31

-- `size & ~0x80000000`
unfoldable pub clear_high_bit : ℕ → ℕ
clear_high_bit size = size % 2 ^ 31

-- The two numbers of the `info` structure, as they are in the file.
unfoldable pub chunk_prefix : ℕ → List ℕ → List ℕ
chunk_prefix size buf = memory_of_hton 4 size ++ memory_of_hton 4 (hash_crc32 buf)

-- What db_write_buf returns: the chunk's position and its size on disk, and the file.
pub record Written : Type 0 where
  pub pos : ℕ
  pub disk_size : ℕ
  pub file : TreeFile

-- What the length in front of a chunk or a header says of the bytes to come.
unfoldable pub body_length : ℕ → ℕ → Result ℕ
body_length chunk_len max_header_size =
    if max_header_size == 0
    then ok chunk_len
    else if ltb chunk_len 4 || ltb max_header_size chunk_len
    then err Error.corrupt
    else ok (chunk_len - 4)

-- `info.crc32 && info.crc32 != hash_crc32(buf, info.chunk_len)`
unfoldable pub checksum_fails : ℕ → List ℕ → Result (List ℕ)
checksum_fails crc32 buf =
    if not (crc32 == 0) && not (crc32 == hash_crc32 buf) then err Error.checksum_fail else ok buf

-- The next block boundary, where headers stand.
unfoldable pub header_position : ℕ → ℕ
header_position pos = if pos % block_size == 0 then pos else pos + (block_size - pos % block_size)

module _ (ops : FileOps) where
  -- pread_bin_internal: the body that `*ret_ptr` points to; its length is the count returned.
  unfoldable pub pread_bin_internal : Disk → ℕ → ℕ → Result (List ℕ)
  pread_bin_internal d pos max_header_size = do
    (pos', info) ← read_skipping_prefixes ops d pos 8
    len ← body_length (clear_high_bit (ntoh_of_memory (take 4 info))) max_header_size
    (pos'', buf) ← read_skipping_prefixes ops d pos' len
    checksum_fails (ntoh_of_memory (take 4 (drop 4 info))) buf

  unfoldable pub pread_bin : Disk → ℕ → Result (List ℕ)
  pread_bin d pos = pread_bin_internal d pos 0

  unfoldable pub pread_header : Disk → ℕ → ℕ → Result (List ℕ)
  pread_header d pos max_header_size =
      if max_header_size == 0
      then err Error.invalid_arguments
      else pread_bin_internal d (pos + 1) max_header_size

  unfoldable pub db_write_buf : TreeFile → List ℕ → Result Written
  db_write_buf file buf = do
    (written, d) ← raw_write ops file.disk (chunk_prefix (set_high_bit (length buf)) buf) file.pos
    (written', d') ← raw_write ops d buf (file.pos + written)
    let end_pos = file.pos + written + written'
    ok (record {
      pos = file.pos;
      disk_size = end_pos - file.pos;
      file = record { pos = end_pos; disk = d' };
    })

  -- write_header: the header's position, and the file. The nine bytes in front go out in one call,
  -- whose count is added as it is.
  unfoldable pub write_header : TreeFile → List ℕ → Result (ℕ × TreeFile)
  write_header file buf = do
    let write_pos = header_position file.pos
    (written, d) ← ops.pwrite file.disk (1 ∷ chunk_prefix (length buf + 4) buf) write_pos
    (written', d') ← raw_write ops d buf (write_pos + written)
    ok (write_pos, record { pos = write_pos + written + written'; disk = d' })

-- The Snappy library: it is not part of the program.
pub record Snappy : Type 0 where
  pub get_uncompressed_length : List ℕ → Option ℕ
  pub raw_uncompress : List ℕ → Option (List ℕ)
  pub raw_compress : List ℕ → List ℕ

-- A failure of either call is the error `corrupt`.
uncompress : Snappy → List ℕ → Result (List ℕ)
uncompress snappy compressed = elim (snappy.get_uncompressed_length compressed) [
  | none ↦ err Error.corrupt
  | some len ↦ elim (snappy.raw_uncompress compressed) [
    | none ↦ err Error.corrupt
    | some buf ↦ ok buf
  ]
]

module _ (ops : FileOps) (snappy : Snappy) where
  unfoldable pub pread_compressed : Disk → ℕ → Result (List ℕ)
  unfolding uncompress
  pread_compressed d pos = do
    compressed ← pread_bin_internal ops d pos 0
    uncompress snappy compressed

  unfoldable pub db_write_buf_compressed : TreeFile → List ℕ → Result Written
  db_write_buf_compressed file buf = db_write_buf ops file (snappy.raw_compress buf)
