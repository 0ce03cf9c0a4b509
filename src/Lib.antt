-- ===== src/Lib.antt =====
-- Couchstore: an append-only storage engine for documents, and the code of its view indexes.
--
-- A database is one file that only grows. Its blocks have 4096 bytes; the first byte of each tells
-- header blocks from data blocks, and is stepped over by all that reads and writes data. Data are
-- chunks: a length, a checksum and a body. A commit appends a header at a block boundary, with the
-- positions of the roots of three B-trees; opening scans back from the end for the last valid one.
--
-- The files, and the code that they are about (paths from the repository's root):
--   Base       lists, tests, comparators, error codes (include/libcouchstore/error.h) and results
--   Bitfield   src/bitfield.c: big-endian fields of all widths
--   Crc32      src/crc32.c: hash_crc32
--   File       src/couch_file_read.cc, src/couch_file_write.cc: the block loops
--              (read_skipping_prefixes, raw_write); File.Laws says what the operations of
--              include/libcouchstore/file_ops.h are relied on for, File.Memory has ones that do so
--   Chunk      the same sources: chunks (db_write_buf, pread_bin), headers (write_header,
--              pread_header), compressed chunks
--   NodeTypes  src/node_types.cc: the items of nodes and the roots in headers
--   KeyOrder   src/util.cc: ebin_cmp and seq_cmp, the orders of the keys
--   Reduces    src/reduces.cc: the reductions of the B-trees by sequence and by id
--   BTree      src/btree_read.cc: btree_lookup (Lookup; Lookup.Answers says what it is to answer, and
--              the loops are in Lookup.Leaf, Nodes, Folds and Tours, their rounds in Rounds, Absent
--              and Descents); Stored says what a tree in a file is and proves lookups and folds;
--              Writer has the flushes of src/btree_modify.cc
--   Db         src/couch_db.cc: find_header, db_write_header, and in Db.Open couchstore_open_db_ex,
--              couchstore_commit, couchstore_rewind_db_header, couchstore_reopen_file; DocInfo has the
--              values of the indexes (also src/couch_save.cc), Lookups the lookups of one document,
--              Iterate those of many (its theorems in Stored and Infos), Count
--              couchstore_changes_count; Samples and SampleTrees are a small database
--   Views      src/views: sorted_list.c (SortedList), bitmap.c (Bitmap), keys.c (Keys), values.c
--              (Values, with the loops in Packed), reductions.c (Reductions), purgers.c (Purgers), the
--              key orders of util.c (KeyCmp), collate_json.c (Collate)
-- A function has the source's name, less the prefix of its file or library; what it changes is an
-- argument and a part of its result.
--
-- Conventions. Bytes and machine integers are natural numbers, with the wrap-around written out. A
-- buffer is a list of bytes. An error code is the `err` of a result; `fault` stands for a failed
-- assertion or an access outside of a buffer, which no successful run has. The file operations,
-- Snappy, ICU and strtod are parameters, with their documented behaviour as named hypotheses.
--
-- Bounds and fuel. read_loop has the length as fuel and raw_write_loop twice the length: a round
-- takes a byte at least, and a round that writes a prefix is followed by one that does not. The
-- loops over packed entries have the length of the buffer, since an entry has a byte at least. The
-- theorems on totality and the round trips show that this is enough. A lookup takes the number of
-- levels that it may go down: pointers of a corrupt file may go round. The theorems hold for every
-- such number that is not below the height of the tree. A round of CollateJSON reads a byte of a
-- text, unless strtod consumes nothing of both: then it repeats for ever, and runs out of fuel here.
--
-- Not modelled: failures of memory allocation, freeing of memory, the updates of B-trees beyond the
-- writer of nodes, saving documents beyond the values of the indexes, compaction, sorting of files,
-- view groups and their index headers, reducers of views, JavaScript functions (V8), MD5, the
-- command-line tools, and the operating system's calls.
pub mod Base
pub mod Bitfield
pub mod Crc32
pub mod File
pub mod Chunk
pub mod NodeTypes
pub mod Reduces
pub mod BTree
pub mod KeyOrder
pub mod Db
pub mod Views
