-- ===== src/Chunk/RoundTrip.antt =====
-- A chunk that was written is read back.
use couchstore.Base.{
  ℕ, ◌+◌, ◌-◌, ◌%◌, ◌^◌, ◌≤◌, ◌<◌, ◌≡◌, sym, ap, subst, ◌∙◌, arith, List, ◌++◌, length, take, drop,
  Result, ok, >>=-ok, take-append_length, take-all, drop-append_length, length-append,
}
use couchstore.Bitfield.{memory_of_hton, ntoh_of_memory}
use couchstore.Bitfield.RoundTrip.{length-memory_of_hton, ntoh-hton}
use couchstore.Crc32.{hash_crc32, hash_crc32_lt}
use couchstore.File.{Disk, FileOps, TreeFile, raw_write, skip_prefix}
use couchstore.File.Laws.{
  ReadLaws, ReadsAll, WriteLaws, WritesAll, data_bytes, data_end, data_end-add, data_end-le,
  data_bytes-skip_prefix, data_end-skip_prefix_pos,
}
use couchstore.File.Read.{read_total}
use couchstore.File.Write.{Wrote, Wrote-append, Wrote-parts, raw_write_sound, raw_write_total}
use couchstore.Chunk.{
  Written, set_high_bit, clear_high_bit, chunk_prefix, body_length, checksum_fails,
  pread_bin_internal, pread_bin, db_write_buf,
}

pub length-chunk_prefix : (size : ℕ) (buf : List ℕ) → length (chunk_prefix size buf) ≡ 8
unfolding chunk_prefix
length-chunk_prefix size buf = omega (
  arith,
  length-append (memory_of_hton 4 size) (memory_of_hton 4 (hash_crc32 buf)),
  length-memory_of_hton 4 size,
  length-memory_of_hton 4 (hash_crc32 buf),
)

prefix_size :
    (size : ℕ) (buf : List ℕ) → ntoh_of_memory (take 4 (chunk_prefix size buf)) ≡ size % 2 ^ 32
unfolding chunk_prefix
prefix_size size buf =
    ap ntoh_of_memory (take-append_length 4 _ _ (length-memory_of_hton 4 size)) ∙ ntoh-hton 4 size

prefix_crc :
    (size : ℕ) (buf : List ℕ)
    → ntoh_of_memory (take 4 (drop 4 (chunk_prefix size buf))) ≡ hash_crc32 buf
unfolding chunk_prefix
prefix_crc size buf =
    ap (λ (t : List ℕ). ntoh_of_memory (take 4 t))
      (drop-append_length 4 _ _ (length-memory_of_hton 4 size))
    ∙ ap ntoh_of_memory (take-all 4 _ (omega (arith, length-memory_of_hton 4 (hash_crc32 buf))))
    ∙ ntoh-hton 4 (hash_crc32 buf)
    ∙ omega (arith, hash_crc32_lt buf)

-- The checksum of the body passes.
checksum_passes : (buf : List ℕ) → checksum_fails (hash_crc32 buf) buf ≡ ok buf
unfolding checksum_fails
checksum_passes buf = ground arith

size_survives : (n : ℕ) → n < 2 ^ 31 → clear_high_bit (set_high_bit n % 2 ^ 32) ≡ n
unfolding clear_high_bit set_high_bit
size_survives n h = ground arith

-- A chunk lies at `pos` in the data bytes of the file.
pub record HasChunk (d : Disk) (pos : ℕ) (buf : List ℕ) : Type 0 where
  pub front : data_bytes d.byte pos 8 ≡ chunk_prefix (set_high_bit (length buf)) buf
  pub back : data_bytes d.byte (data_end pos 8) (length buf) ≡ buf
  pub room : data_end pos (8 + length buf) ≤ d.size

module _ (ops : FileOps) (reads : ReadLaws ops) (all : ReadsAll ops) where
  -- What is found where a prefix and a body lie one behind the other.
  pub pread_bin_internal-eq :
      (d : Disk) (pos size max_header_size : ℕ) (buf : List ℕ)
      → data_bytes d.byte pos 8 ≡ chunk_prefix size buf
      → data_bytes d.byte (data_end pos 8) (length buf) ≡ buf
      → data_end pos (8 + length buf) ≤ d.size
      → body_length (clear_high_bit (size % 2 ^ 32)) max_header_size ≡ ok (length buf)
      → pread_bin_internal ops d pos max_header_size ≡ ok buf
  unfolding pread_bin_internal
  pread_bin_internal-eq d pos size max_header_size buf front back room size_ok =
      let first = read_total ops reads all d pos 8 (λ h. omega (
        arith,
        room,
        data_end-add pos 8 (length buf),
        data_end-le (data_end pos 8) (length buf),
      )) in
      let second = read_total ops reads all d (skip_prefix (data_end pos 8)) (length buf) (λ h.
        omega (
          arith,
          room,
          data_end-add pos 8 (length buf),
          data_end-skip_prefix_pos (data_end pos 8) (length buf) h,
        )) in
      rw
        (
          first,
          front,
          prefix_size size buf,
          size_ok,
          second,
          prefix_crc size buf,
          data_bytes-skip_prefix d.byte (data_end pos 8) (length buf),
          back,
        )
        (checksum_passes buf)

  pub pread_bin-HasChunk :
      (d : Disk) (pos : ℕ) (buf : List ℕ)
      → length buf < 2 ^ 31
      → HasChunk d pos buf
      → pread_bin ops d pos ≡ ok buf
  unfolding pread_bin body_length
  pread_bin-HasChunk d pos buf h c =
      pread_bin_internal-eq d pos _ 0 buf c.front c.back c.room
        (unfold body_length in ap ok (size_survives (length buf) h))

-- A prefix and a body that were written as one lie there as a chunk.
Wrote-HasChunk :
    (d d' : Disk) (pos : ℕ) (buf : List ℕ)
    → Wrote d d' pos (chunk_prefix (set_high_bit (length buf)) buf ++ buf)
    → HasChunk d' pos buf
Wrote-HasChunk d d' pos buf v =
    let head = chunk_prefix (set_high_bit (length buf)) buf in
    let eight : length head ≡ 8 = length-chunk_prefix (set_high_bit (length buf)) buf in
    let (front, back) = Wrote-parts pos head buf v in
    record {
      front = ap (data_bytes d'.byte pos) (sym eight) ∙ front;
      back = ap (λ (t : ℕ). data_bytes d'.byte (data_end pos t) (length buf)) (sym eight) ∙ back;
      room = rw (← eight, ← length-append) (v.covers (omega (arith, length-append head buf)));
    }

-- A chunk's two writes as one.
join_writes :
    {d d1 d2 : Disk} (pos n m size : ℕ) (buf : List ℕ)
    → Wrote d d1 pos (chunk_prefix size buf)
      × (pos + n ≡ data_end pos (length (chunk_prefix size buf)))
    → Wrote d1 d2 (pos + n) buf × (pos + n + m ≡ data_end (pos + n) (length buf))
    → Wrote d d2 pos (chunk_prefix size buf ++ buf) × (pos + n + m ≡ data_end pos (8 + length buf))
join_writes {d} {d1} {d2} pos n m size buf (v, p) (w, q) = (
  Wrote-append pos (chunk_prefix size buf) buf v (subst (λ (t : ℕ). Wrote d1 d2 t buf) p w),
  q
      ∙ ap (λ (t : ℕ). data_end t (length buf))
          (p ∙ ap (data_end pos) (length-chunk_prefix size buf))
      ∙ sym (data_end-add pos 8 (length buf)),
)

module _ (ops : FileOps) (writes : WriteLaws ops) where
  -- The parts of a successful db_write_buf.
  pub db_write_buf_sound :
      (file : TreeFile) (buf : List ℕ) (w : Written)
      → db_write_buf ops file buf ≡ ok w
      → Wrote file.disk w.file.disk file.pos (chunk_prefix (set_high_bit (length buf)) buf ++ buf)
        × (w.pos ≡ file.pos)
        × (w.file.pos ≡ data_end file.pos (8 + length buf))
        × (file.pos + w.disk_size ≡ w.file.pos)
  unfolding db_write_buf
  db_write_buf_sound file buf w e =
      let size = set_high_bit (length buf) in
      let ((n, d1), r1, e1) =
        >>=-ok (raw_write ops file.disk (chunk_prefix size buf) file.pos) _ e in
      let ((m, d2), r2, e2) = >>=-ok (raw_write ops d1 buf (file.pos + n)) _ e1 in
      read_off n m d2
        (join_writes file.pos n m size buf (raw_write_sound ops writes _ _ _ n d1 r1)
          (raw_write_sound ops writes _ _ _ m d2 r2))
        e2
    where
      read_off :
          (n m : ℕ) (d2 : Disk)
          → Wrote file.disk d2 file.pos (chunk_prefix (set_high_bit (length buf)) buf ++ buf)
            × (file.pos + n + m ≡ data_end file.pos (8 + length buf))
          → ◌≡◌ {A = Result Written}
              (ok (record {
                pos = file.pos;
                disk_size = file.pos + n + m - file.pos;
                file = record { pos = file.pos + n + m; disk = d2 };
              }))
              (ok w)
          → Wrote file.disk w.file.disk file.pos
              (chunk_prefix (set_high_bit (length buf)) buf ++ buf)
            × (w.pos ≡ file.pos)
            × (w.file.pos ≡ data_end file.pos (8 + length buf))
            × (file.pos + w.disk_size ≡ w.file.pos)
      read_off n m d2 (v, end) q = (
        subst
            (λ (x : Disk).
              Wrote file.disk x file.pos (chunk_prefix (set_high_bit (length buf)) buf ++ buf))
            (ground arith) v,
        ground arith,
        ground arith,
        ground arith,
      )

  -- What was written is a chunk of the file.
  pub db_write_buf-HasChunk :
      (file : TreeFile) (buf : List ℕ) (w : Written)
      → db_write_buf ops file buf ≡ ok w
      → HasChunk w.file.disk w.pos buf
  db_write_buf-HasChunk file buf w e =
      let (v, p, end, size) = db_write_buf_sound file buf w e in
      subst (λ (t : ℕ). HasChunk w.file.disk t buf) (sym p)
        (Wrote-HasChunk file.disk w.file.disk file.pos buf v)

  -- Where no write fails, a chunk is written.
  pub db_write_buf_total :
      WritesAll ops
      → (file : TreeFile) (buf : List ℕ) → (w : Written) × (db_write_buf ops file buf ≡ ok w)
  unfolding db_write_buf
  db_write_buf_total all file buf =
      let size = set_high_bit (length buf) in
      let ((n, d1), r1) =
        raw_write_total ops writes all file.disk (chunk_prefix size buf) file.pos in
      let ((m, d2), r2) = raw_write_total ops writes all d1 buf (file.pos + n) in
      (
        record {
          pos = file.pos;
          disk_size = file.pos + n + m - file.pos;
          file = record { pos = file.pos + n + m; disk = d2 };
        },
        rw (r1, r2),
      )

-- Where no file operation fails and reads and writes keep their laws, db_write_buf of less than 2^31
-- bytes succeeds at the old end of the file, `disk_size` is how far the end has moved, and pread_bin
-- at its position gives the buffer back, prefix bytes left out.
pub pread_bin-db_write_buf :
    (ops : FileOps) (reads : ReadLaws ops) (reads_all : ReadsAll ops) (writes : WriteLaws ops)
    (writes_all : WritesAll ops) (file : TreeFile) (buf : List ℕ)
    → length buf < 2 ^ 31
    → (w : Written) × (db_write_buf ops file buf ≡ ok w)
      × (w.pos ≡ file.pos)
      × (file.pos + w.disk_size ≡ w.file.pos)
      × (pread_bin ops w.file.disk w.pos ≡ ok buf)
pread_bin-db_write_buf ops reads reads_all writes writes_all file buf h =
    let (w, e) = db_write_buf_total ops writes writes_all file buf in
    let (v, p, end, size) = db_write_buf_sound ops writes file buf w e in
    (
      w,
      e,
      p,
      size,
      pread_bin-HasChunk ops reads reads_all w.file.disk w.pos buf h
          (db_write_buf-HasChunk ops writes file buf w e),
    )
