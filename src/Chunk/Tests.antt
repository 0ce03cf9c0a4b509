-- ===== src/Chunk/Tests.antt =====
-- Chunks that cross a block boundary, in a file in memory.
use couchstore.Base.{ℕ, ◌+◌, ◌≡◌, refl, arith, List, [], ◌∷◌, length, ok, some}
use couchstore.File.{TreeFile, raw_write, run_length}
use couchstore.File.Memory.{
  memory_ops, memory-ReadLaws, memory-ReadsAll, memory-WriteLaws, memory-WritesAll,
  memory-WritesFront, empty_disk,
}
use couchstore.Bitfield.{memory_of_hton}
use couchstore.Chunk.{
  Written, Snappy, chunk_prefix, db_write_buf, write_header, pread_bin, pread_header,
  header_position, db_write_buf_compressed, pread_compressed,
}
use couchstore.Chunk.RoundTrip.{pread_bin-db_write_buf}
use couchstore.Chunk.AppendOnly.{here, step, chunk, pread_bin-Appends}
use couchstore.Chunk.Header.{HasHeader, write_header_sound, pread_header-HasHeader}
use couchstore.Chunk.Compressed.{SnappyLaws, pread_compressed-db_write_buf_compressed}
use couchstore.File.Laws.{data_end}

abbrev text : List ℕ
text = 65 ∷ 66 ∷ 67 ∷ []

abbrev before_boundary : TreeFile
before_boundary = record { pos = 4090; disk = empty_disk }

pread_bin-db_write_buf_example :
    (w : Written) × (db_write_buf memory_ops before_boundary text ≡ ok w)
    × (w.pos ≡ 4090)
    × (4090 + w.disk_size ≡ w.file.pos)
    × (pread_bin memory_ops w.file.disk w.pos ≡ ok text)
pread_bin-db_write_buf_example =
    pread_bin-db_write_buf memory_ops memory-ReadLaws memory-ReadsAll memory-WriteLaws
      memory-WritesAll before_boundary text (omega arith)

abbrev nothing : Written
nothing = record { pos = 0; disk_size = 0; file = before_boundary }

abbrev first : Written
first = elim (db_write_buf memory_ops before_boundary text) [ ok w ↦ w | _ ↦ nothing ]

first-eq : db_write_buf memory_ops before_boundary text ≡ ok first
unfolding db_write_buf raw_write chunk_prefix memory_of_hton run_length
first-eq = refl

abbrev second : Written
second = elim (db_write_buf memory_ops first.file (1 ∷ [])) [ ok w ↦ w | _ ↦ nothing ]

second-eq : db_write_buf memory_ops first.file (1 ∷ []) ≡ ok second
unfolding db_write_buf raw_write chunk_prefix memory_of_hton run_length
second-eq = refl

pread_bin-Appends_example : pread_bin memory_ops second.file.disk first.pos ≡ ok text
pread_bin-Appends_example =
    pread_bin-Appends memory_ops memory-WriteLaws memory-WritesFront memory-ReadLaws memory-ReadsAll
      before_boundary text first second.file (omega arith) first-eq
      (step here (chunk (1 ∷ []) second second-eq refl))

abbrev no_header : ℕ × TreeFile
no_header = (0, before_boundary)

abbrev headed : ℕ × TreeFile
headed = elim (write_header memory_ops before_boundary text) [ ok r ↦ r | _ ↦ no_header ]

headed-eq : write_header memory_ops before_boundary text ≡ ok (headed.0, headed.1)
unfolding write_header raw_write header_position chunk_prefix memory_of_hton run_length
headed-eq = refl

write_header_sound_example :
    HasHeader headed.1.disk headed.0 text
    × (headed.0 ≡ header_position 4090)
    × (headed.1.pos ≡ data_end (headed.0 + 1) 11)
write_header_sound_example =
    write_header_sound memory_ops memory-WriteLaws memory-WritesFront before_boundary text headed.0
      headed.1 headed-eq

pread_header-HasHeader_example : pread_header memory_ops headed.1.disk headed.0 1024 ≡ ok text
pread_header-HasHeader_example =
    pread_header-HasHeader memory_ops memory-ReadLaws memory-ReadsAll headed.1.disk headed.0 1024
      text (omega arith) (omega arith) write_header_sound_example.0

-- A library that stores buffers as they are.
abbrev stored : Snappy
stored = record {
  get_uncompressed_length = λ buf. some (length buf);
  raw_uncompress = λ buf. some buf;
  raw_compress = λ buf. buf;
}

stored-SnappyLaws : SnappyLaws stored
stored-SnappyLaws = record {
  length_known = λ buf. refl;
  undone = λ buf. refl;
  bounded = λ buf. omega arith;
}

pread_compressed-db_write_buf_compressed_example :
    (w : Written) × (db_write_buf_compressed memory_ops stored before_boundary text ≡ ok w)
    × (pread_compressed memory_ops stored w.file.disk w.pos ≡ ok text)
pread_compressed-db_write_buf_compressed_example =
    pread_compressed-db_write_buf_compressed memory_ops stored stored-SnappyLaws memory-ReadLaws
      memory-ReadsAll memory-WriteLaws memory-WritesAll before_boundary text (omega arith)
