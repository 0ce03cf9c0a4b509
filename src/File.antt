-- ===== src/File.antt =====
-- The file layer: src/internal.h (tree_file), include/libcouchstore/file_ops.h, and the block loops
-- of src/couch_file_read.cc and src/couch_file_write.cc.
-- The first byte of every 4096-byte block is a prefix that tells header blocks (1) from data
-- blocks (0); readers and writers of data step over it.
-- The operations of a file are parameters, since `couch_file_ops` is a table of callbacks. A
-- negative count, which is an error code there, is the `err` of a result here.
pub mod Laws
pub mod Read
pub mod Write
pub mod Memory
mod Tests
use couchstore.Base.{
  ℕ, zero, suc, ◌+◌, ◌-◌, ◌*◌, ◌%◌, ◌≤◌, ◌<◌, ◌==◌, ltb, if◌then◌else◌, min, List, [], ◌∷◌, ◌++◌,
  length, take, drop, Result, ok, err, fault, Error, ◌>>=◌, ◌≡◌,
}

abbrev pub block_size : ℕ
block_size = 4096

-- The contents of a file: its bytes by position, and its length.
pub record Disk : Type 0 where
  pub byte : ℕ → ℕ
  pub size : ℕ

-- The members of `couch_file_ops` on an open file. A read returns the bytes that it got; a write
-- returns how many bytes it wrote, and the new contents.
pub record FileOps : Type 0 where
  pub pread : Disk → ℕ → ℕ → Result (List ℕ)
  pub pwrite : Disk → List ℕ → ℕ → Result (ℕ × Disk)
  pub goto_eof : Disk → Result ℕ
  pub sync : Disk → Result (Unit {0})

-- tree_file: the position at which the next chunk goes, and the file behind the handle.
pub record TreeFile : Type 0 where
  pub pos : ℕ
  pub disk : Disk

-- `if (*pos % COUCH_BLOCK_SIZE == 0) ++*pos;`
unfoldable pub skip_prefix : ℕ → ℕ
skip_prefix pos = if pos % block_size == 0 then pos + 1 else pos

-- What is left of the block at `pos`, or of the `len` bytes that are wanted.
unfoldable pub run_length : ℕ → ℕ → ℕ
run_length pos len = min (block_size - pos % block_size) len

module _ (ops : FileOps) where
  -- The `while (len > 0)` loop. A round takes a byte at least, so `len` rounds are enough.
  unfoldable pub read_loop : ℕ → Disk → ℕ → ℕ → List ℕ → Result (ℕ × List ℕ)
  read_loop fuel d pos zero dst = ok (pos, dst)
  read_loop zero d pos (suc len) dst = fault
  read_loop (suc fuel) d pos (suc len) dst = do
    got ← ops.pread d (run_length pos (suc len)) pos
    let rest = read_loop fuel d (skip_prefix (pos + length got)) (suc len - length got) (dst ++ got)
    if length got == 0 then err Error.read else rest

  -- read_skipping_prefixes: the position behind the bytes, and the bytes.
  unfoldable pub read_skipping_prefixes : Disk → ℕ → ℕ → Result (ℕ × List ℕ)
  unfolding read_loop
  read_skipping_prefixes d pos len = read_loop len d (skip_prefix pos) len []

  -- The `while (buf_pos < buf->size)` loop; `rest` is what lies from `buf_pos` on. A round writes a
  -- prefix byte or a byte at least of `rest`, and after a prefix byte comes another round.
  unfoldable pub raw_write_loop : ℕ → Disk → List ℕ → ℕ → Result (ℕ × Disk)
  raw_write_loop fuel d [] write_pos = ok (write_pos, d)
  raw_write_loop zero d (b ∷ bs) write_pos = fault
  raw_write_loop (suc fuel) d (b ∷ bs) write_pos =
      let prefix = (do
        (written, d') ← ops.pwrite d (0 ∷ []) write_pos
        raw_write_loop fuel d' (b ∷ bs) (write_pos + 1)) in
      let run = (do
        (written, d') ←
            ops.pwrite d (take (run_length write_pos (length (b ∷ bs))) (b ∷ bs)) write_pos
        raw_write_loop fuel d' (drop written (b ∷ bs)) (write_pos + written)) in
      if write_pos % block_size == 0 then prefix else run

  -- raw_write: the number of bytes that the file grew by, prefixes included.
  unfoldable pub raw_write : Disk → List ℕ → ℕ → Result (ℕ × Disk)
  unfolding raw_write_loop
  raw_write d buf pos = do
    (write_pos, d') ← raw_write_loop (2 * length buf) d buf pos
    ok (write_pos - pos, d')
