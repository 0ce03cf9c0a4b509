-- ===== src/Chunk/Header.antt =====
-- A header that was written stands at the next block boundary, and is read back from there.
use couchstore.Base.{
  ℕ, suc, ◌+◌, ◌%◌, ◌^◌, ◌≤◌, ◌<◌, ◌≡◌, sym, ap, subst, subst₂, ◌∙◌, arith, List, [], ◌∷◌, length,
  drop, take-all, Result, ok, >>=-ok,
}
use couchstore.File.{Disk, FileOps, TreeFile, raw_write}
use couchstore.File.Laws.{
  ReadLaws, ReadsAll, WriteLaws, WritesAll, WritesFront, slice, data_bytes, data_bytes-congr,
  data_end, data_end-add, data_end_run, data_bytes_run,
}
use couchstore.File.Write.{Wrote, raw_write_sound, raw_write_total}
use couchstore.Chunk.{
  clear_high_bit, chunk_prefix, body_length, pread_header, header_position, write_header,
}
use couchstore.Chunk.RoundTrip.{length-chunk_prefix, pread_bin_internal-eq}

-- The position is the first block boundary that is not below the end of the file.
pub header_position_lem :
    (pos : ℕ)
    → (header_position pos % 4096 ≡ 0)
      × (pos ≤ header_position pos)
      × (header_position pos < pos + 4096)
unfolding header_position
header_position_lem pos = ground arith

-- A header of which the front and the body lie behind one another at a block boundary.
pub record HasHeader (d : Disk) (pos : ℕ) (buf : List ℕ) : Type 0 where
  pub aligned : pos % 4096 ≡ 0
  pub mark : d.byte pos ≡ 1
  pub front : data_bytes d.byte (pos + 1) 8 ≡ chunk_prefix (length buf + 4) buf
  pub back : data_bytes d.byte (data_end (pos + 1) 8) (length buf) ≡ buf
  pub room : data_end (pos + 1) (8 + length buf) ≤ d.size

header_size :
    (n max_header_size : ℕ)
    → n + 4 ≤ max_header_size
    → n + 4 < 2 ^ 31
    → body_length (clear_high_bit ((n + 4) % 2 ^ 32)) max_header_size ≡ ok n
unfolding body_length clear_high_bit
header_size n max_header_size h k = ground arith

-- A header that stands at a block boundary is returned by pread_header, where its length with the
-- checksum is within the caller's bound and below 2^31, and reads keep their laws and do not fail.
pub pread_header-HasHeader :
    (ops : FileOps) (reads : ReadLaws ops) (all : ReadsAll ops) (d : Disk) (pos max_header_size : ℕ)
    (buf : List ℕ)
    → length buf + 4 ≤ max_header_size
    → length buf + 4 < 2 ^ 31
    → HasHeader d pos buf
    → pread_header ops d pos max_header_size ≡ ok buf
unfolding pread_header
pread_header-HasHeader ops reads all d pos max_header_size buf h k c = ground (
  arith,
  pread_bin_internal-eq ops reads all d (pos + 1) (length buf + 4) max_header_size buf c.front
      c.back c.room (header_size (length buf) max_header_size h k),
)

slice_cons :
    (f : ℕ → ℕ) (pos n : ℕ) {x : ℕ} {xs : List ℕ}
    → slice f pos (suc n) ≡ x ∷ xs
    → (f pos ≡ x) × (slice f (pos + 1) n ≡ xs)
unfolding slice
slice_cons f pos n e = (ground arith, ap (drop 1) e)

body_end :
    (d1 d2 : Disk) (pos : ℕ) (buf : List ℕ)
    → pos ≤ d1.size
    → Wrote d1 d2 pos buf
    → data_end pos (length buf) ≤ d2.size
body_end d1 d2 pos [] h v = unfold data_end in omega (arith, v.larger)
body_end d1 d2 pos (b ∷ bs) h v = v.covers (omega arith)

module _ (ops : FileOps) (writes : WriteLaws ops) (whole : WritesFront ops) where
  front_written :
      (d d1 d2 : Disk) (buf : List ℕ) (pos k : ℕ)
      → pos % 4096 ≡ 0
      → ops.pwrite d (1 ∷ chunk_prefix (length buf + 4) buf) pos ≡ ok (k, d1)
      → Wrote d1 d2 (pos + k) buf
      → HasHeader d2 pos buf × (k ≡ 9)
  front_written d d1 d2 buf pos k aligned w v =
      let head = chunk_prefix (length buf + 4) buf in
      let eight : length head ≡ 8 = length-chunk_prefix (length buf + 4) buf in
      let nine : k ≡ 9 = whole.writes_whole d (1 ∷ head) pos k d1 w (omega arith) ∙ omega arith in
      let (few, bytes, progress) = writes.writes_slice d (1 ∷ head) pos k d1 w in
      let (kept, size) = writes.grows d (1 ∷ head) pos k d1 w in
      let run : data_end (pos + 1) 8 ≡ pos + k =
        data_end_run (pos + 1) 8 (omega arith) (omega arith) ∙ omega arith in
      let whole_front : slice d1.byte pos 9 ≡ 1 ∷ head =
        ap (slice d1.byte pos) (sym nine) ∙ bytes ∙ take-all k (1 ∷ head) (omega arith) in
      let v' : Wrote d1 d2 (data_end (pos + 1) 8) buf =
        subst (λ (t : ℕ). Wrote d1 d2 t buf) (sym run) v in
      (
        record {
          aligned = aligned;
          mark = v.below pos (omega arith) ∙ (slice_cons d1.byte pos 8 whole_front).0;
          front =
              data_bytes-congr d2.byte d1.byte (pos + 1) 8 v'.below
              ∙ data_bytes_run d1.byte (pos + 1) 8 (omega arith) (omega arith)
              ∙ (slice_cons d1.byte pos 8 whole_front).1;
          back = v'.holds;
          room = rw (data_end-add (pos + 1) 8 (length buf)) (
              body_end d1 d2 (data_end (pos + 1) 8) buf (omega (arith, run, size (omega arith)))
                v');
        },
        nine,
      )

  -- A successful write_header, by writes that keep their laws and are not cut short in front, puts a
  -- header with its mark, length and checksum at the next block boundary, returns that position, and
  -- leaves the file's position behind the header's last byte.
  pub write_header_sound :
      (file : TreeFile) (buf : List ℕ) (pos : ℕ) (file' : TreeFile)
      → write_header ops file buf ≡ ok (pos, file')
      → HasHeader file'.disk pos buf
        × (pos ≡ header_position file.pos)
        × (file'.pos ≡ data_end (pos + 1) (8 + length buf))
  unfolding write_header
  write_header_sound file buf pos file' e =
      let write_pos = header_position file.pos in
      let ((k, d1), r1, e1) =
        >>=-ok (ops.pwrite file.disk (1 ∷ chunk_prefix (length buf + 4) buf) write_pos) _ e in
      let ((m, d2), r2, e2) = >>=-ok (raw_write ops d1 buf (write_pos + k)) _ e1 in
      let (v, end) = raw_write_sound ops writes d1 buf (write_pos + k) m d2 r2 in
      read_off k m d2
        (front_written file.disk d1 d2 buf write_pos k (header_position_lem file.pos).0 r1 v) end e2
    where
      read_off :
          (k m : ℕ) (d2 : Disk)
          → HasHeader d2 (header_position file.pos) buf × (k ≡ 9)
          → header_position file.pos + k + m ≡ data_end (header_position file.pos + k) (length buf)
          → ◌≡◌ {A = Result (ℕ × TreeFile)}
              (ok (
                header_position file.pos,
                record { pos = header_position file.pos + k + m; disk = d2 },
              ))
              (ok (pos, file'))
          → HasHeader file'.disk pos buf
            × (pos ≡ header_position file.pos)
            × (file'.pos ≡ data_end (pos + 1) (8 + length buf))
      read_off k m d2 (h, nine) end q =
          let at : header_position file.pos ≡ pos = ground arith in
          let disk : d2 ≡ file'.disk = ground arith in
          let last : header_position file.pos + k + m ≡ file'.pos = ground arith in
          let run : data_end (pos + 1) 8 ≡ pos + k =
            data_end_run (pos + 1) 8 (omega (arith, h.aligned)) (omega (arith, h.aligned))
            ∙ omega arith in
          (
            subst₂ (λ (x : Disk) (t : ℕ). HasHeader x t buf) disk at h,
            sym at,
            sym last
                ∙ end
                ∙ ap (λ (t : ℕ). data_end t (length buf)) (omega (arith, run))
                ∙ sym (data_end-add (pos + 1) 8 (length buf)),
          )

  -- A header leaves what lies below the old end of the file as it is, and the file no shorter.
  pub write_header_below :
      (file : TreeFile) (buf : List ℕ) (pos : ℕ) (file' : TreeFile)
      → write_header ops file buf ≡ ok (pos, file')
      → ((i : ℕ) → i < file.pos → file'.disk.byte i ≡ file.disk.byte i)
        × (file.disk.size ≤ file'.disk.size)
  unfolding write_header
  write_header_below file buf pos file' e =
      let write_pos = header_position file.pos in
      let head = 1 ∷ chunk_prefix (length buf + 4) buf in
      let ((k, d1), r1, e1) = >>=-ok (ops.pwrite file.disk head write_pos) _ e in
      let ((m, d2), r2, e2) = >>=-ok (raw_write ops d1 buf (write_pos + k)) _ e1 in
      let (v, end) = raw_write_sound ops writes d1 buf (write_pos + k) m d2 r2 in
      let disk : d2 ≡ file'.disk = ground arith in
      (
        λ i h.
            ap (λ (d : Disk). d.byte i) (sym disk)
            ∙ v.below i (omega (arith, header_position_lem file.pos))
            ∙ writes.keeps_below file.disk head write_pos k d1 i r1
                (omega (arith, header_position_lem file.pos)),
        rw (← disk) (omega (arith, v.larger, (writes.grows file.disk head write_pos k d1 r1).0)),
      )

  -- Where no write fails, a header is written.
  pub write_header_total :
      WritesAll ops
      → (file : TreeFile) (buf : List ℕ) → (r : ℕ × TreeFile) × (write_header ops file buf ≡ ok r)
  unfolding write_header
  write_header_total all file buf =
      let write_pos = header_position file.pos in
      let (k, d1, r1) =
        all.writes_some file.disk (1 ∷ chunk_prefix (length buf + 4) buf) write_pos in
      let ((m, d2), r2) = raw_write_total ops writes all d1 buf (write_pos + k) in
      ((write_pos, record { pos = write_pos + k + m; disk = d2 }), rw (r1, r2))
