-- ===== src/Db/Tests.antt =====
-- A database in memory: a commit; and a way back to an older header.
use couchstore.Base.{
  ℕ, ◌*◌, ◌<◌, ◌≤◌, ◌≡◌, refl, arith, false, List, [], ◌∷◌, length, replicate, get_or, ok, none,
  some,
}
use couchstore.Bitfield.{
  memory_of_hton, ntoh_of_memory, encode_raw, encode_raw08, encode_raw16, encode_raw48, decode_raw,
  decode_raw08, decode_raw16, decode_raw48,
}
use couchstore.File.{Disk, raw_write, run_length, read_skipping_prefixes, skip_prefix}
use couchstore.File.Laws.{slice}
use couchstore.Chunk.{
  db_write_buf, chunk_prefix, write_header, header_position, pread_header, pread_bin_internal,
  body_length, clear_high_bit, checksum_fails,
}
use couchstore.NodeTypes.Roots.{root_size}
use couchstore.File.Memory.{
  memory_ops, memory-ReadLaws, memory-ReadsAll, memory-ReadsFront, memory-WriteLaws,
  memory-WritesFront, empty_disk,
}
use couchstore.NodeTypes.{encode_root}
use couchstore.Db.{
  DbHeader, Db, check_mark, read_db_root, db_write_header, parse_header, header_bytes, find_header,
  find_header_at_pos,
}
use couchstore.Db.HeaderBytes.{
  Storable, stored_header, parse_header-header_bytes, length-header_bytes,
}
use couchstore.Db.Find.{Skipped, find_header_last}
use couchstore.Db.Open.{commit, find_older_header, rewind_db_header}
use couchstore.Db.Open.Commit.{find_header-commit}
use couchstore.Db.Open.Rewind.{rewind_db_header_lem}

abbrev header : DbHeader
header = record {
  disk_version = 11;
  update_seq = 3;
  by_id_root =
      some (record { key = []; pointer = 10; reduce_value = 1 ∷ 2 ∷ []; subtreesize = 20 });
  by_seq_root = none;
  local_docs_root = none;
  purge_seq = 0;
  purge_ptr = 0;
  position = 0;
}

header-Storable : Storable 4096 header
header-Storable = record {
  by_seq = tt;
  by_id = (omega arith, omega arith);
  local_docs = tt;
  purge = omega arith;
}

parse_header-header_bytes_example :
    parse_header 4096 (header_bytes header) ≡ ok (stored_header 4096 header)
parse_header-header_bytes_example = parse_header-header_bytes 4096 header header-Storable

abbrev start : Db
start = record { file = record { pos = 100; disk = empty_disk }; header = header; dropped = false }

abbrev once : Db
once = elim (commit memory_ops start) [ ok db ↦ db | _ ↦ start ]

once-eq : commit memory_ops start ≡ ok once
unfolding commit db_write_buf raw_write chunk_prefix memory_of_hton root_size run_length
    db_write_header write_header header_bytes encode_raw08 encode_raw48 encode_raw encode_raw16
    encode_root header_position
once-eq = refl

once_position : once.header.position ≡ 4096
unfolding commit db_write_buf raw_write chunk_prefix memory_of_hton root_size run_length
    db_write_header write_header header_bytes encode_raw08 encode_raw48 encode_raw encode_raw16
    encode_root header_position
once_position = refl

header_small : length (header_bytes header) ≤ 1020
unfolding root_size
header_small = omega (arith, length-header_bytes header)

find_header-commit_example :
    find_header memory_ops once.file.disk 5000 ≡ ok (stored_header once.header.position header)
find_header-commit_example =
    find_header-commit memory_ops memory-ReadLaws memory-ReadsAll memory-ReadsFront memory-WriteLaws
      memory-WritesFront start once 5000 once-eq (unfold header_position in header-Storable)
      header_small (omega (arith, once_position)) (omega (arith, once_position))

-- A file with one header, in its first block: no roots, a sequence number of 3, and no checksum.
abbrev image : List ℕ
image = 1 ∷ 0 ∷ 0 ∷ 0 ∷ 29 ∷ 0 ∷ 0 ∷ 0 ∷ 0 ∷ 11 ∷ 0 ∷ 0 ∷ 0 ∷ 0 ∷ 0 ∷ 3 ∷ replicate 18 0

abbrev image_disk : Disk
image_disk = record { byte = λ i. get_or image i 0; size = 34 }

abbrev image_header : DbHeader
image_header = record {
  disk_version = 11;
  update_seq = 3;
  by_id_root = none;
  by_seq_root = none;
  local_docs_root = none;
  purge_seq = 0;
  purge_ptr = 0;
  position = 0;
}

image-eq : find_header memory_ops image_disk 4094 ≡ ok image_header
unfolding find_header check_mark read_db_root pread_header pread_bin_internal read_skipping_prefixes
    skip_prefix run_length slice body_length clear_high_bit checksum_fails ntoh_of_memory
    decode_raw08 decode_raw16 decode_raw48 decode_raw parse_header find_header_at_pos
image-eq = refl

abbrev later : Db
later = record {
  file = record { pos = 4200; disk = image_disk };
  header = record image_header { position = 4096 };
  dropped = false;
}

abbrev rewound : Db
rewound = record later { header = image_header }

rewound-eq : rewind_db_header memory_ops later ≡ ok rewound
unfolding rewind_db_header find_older_header
rewound-eq = rw image-eq refl

rewind_db_header_lem_example :
    (rewound.file ≡ later.file)
    × (0 < 4096)
    × (find_header_at_pos memory_ops image_disk 0 ≡ ok image_header)
    × ((j : ℕ)
        → 0 < 4096 * j
        → 4096 * j < 4095
        → Skipped (find_header_at_pos memory_ops image_disk (4096 * j)))
rewind_db_header_lem_example = rewind_db_header_lem memory_ops later rewound rewound-eq

find_header_last_example :
    (k : ℕ) × (k ≤ 0)
    × (find_header_at_pos memory_ops image_disk (4096 * k) ≡ ok image_header)
    × ((j : ℕ) → k < j → j ≤ 0 → Skipped (find_header_at_pos memory_ops image_disk (4096 * j)))
find_header_last_example = find_header_last memory_ops image_disk 4094 image_header image-eq
