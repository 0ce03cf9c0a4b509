-- ===== src/Chunk/AppendOnly.antt =====
-- What was written before is found where it was: files only grow at their end.
use couchstore.Base.{ℕ, ◌+◌, ◌^◌, ◌≤◌, ◌<◌, ◌≡◌, refl, ◌∙◌, arith, List, length, ok}
use couchstore.File.{Disk, FileOps, TreeFile}
use couchstore.File.Laws.{
  ReadLaws, ReadsAll, WriteLaws, WritesFront, data_bytes-congr, data_end, data_end-add, data_end-le,
}
use couchstore.Chunk.{Written, db_write_buf, write_header, pread_bin}
use couchstore.Chunk.RoundTrip.{
  HasChunk, pread_bin-HasChunk, db_write_buf_sound, db_write_buf-HasChunk,
}
use couchstore.Chunk.Header.{write_header_below, write_header_sound, header_position_lem}

-- `d'` has the bytes of `d` below a position, and is no shorter.
pub record Extends (d d' : Disk) (end : ℕ) : Type 0 where
  pub same : (i : ℕ) → i < end → d'.byte i ≡ d.byte i
  pub larger : d.size ≤ d'.size

pub Extends-trans :
    {d d1 d2 : Disk} {end end' : ℕ}
    → end ≤ end'
    → Extends d d1 end
    → Extends d1 d2 end'
    → Extends d d2 end
Extends-trans h x y = record {
  same = λ i lt. y.same i (omega arith) ∙ x.same i lt;
  larger = omega (arith, x.larger, y.larger);
}

pub HasChunk-Extends :
    {d d' : Disk} (pos end : ℕ) (buf : List ℕ)
    → data_end pos (8 + length buf) ≤ end
    → Extends d d' end
    → HasChunk d pos buf
    → HasChunk d' pos buf
HasChunk-Extends {d} {d'} pos end buf h x c =
    let split = data_end-add pos 8 (length buf) in
    record {
      front =
          data_bytes-congr d'.byte d.byte pos 8
            (λ i lt. x.same i (omega (arith, split, data_end-le (data_end pos 8) (length buf))))
          ∙ c.front;
      back =
          data_bytes-congr d'.byte d.byte (data_end pos 8) (length buf)
            (λ i lt. x.same i (omega (arith, split)))
          ∙ c.back;
      room = omega (arith, c.room, x.larger);
    }

module _ (ops : FileOps) (writes : WriteLaws ops) where
  pub db_write_buf-Extends :
      (file : TreeFile) (buf : List ℕ) (w : Written)
      → db_write_buf ops file buf ≡ ok w
      → Extends file.disk w.file.disk file.pos × (file.pos ≤ w.file.pos)
  db_write_buf-Extends file buf w e =
      let (v, p, end, size) = db_write_buf_sound ops writes file buf w e in
      (
        record { same = v.below; larger = v.larger },
        omega (arith, end, data_end-le file.pos (8 + length buf)),
      )

-- A step of a writer: a chunk, or a header.
pub data Append (ops : FileOps) (file : TreeFile) : TreeFile → Type 0 where
  chunk :
      (buf : List ℕ) (w : Written) {next : TreeFile}
      → db_write_buf ops file buf ≡ ok w
      → next ≡ w.file
      → Append ops file next
  header :
      (buf : List ℕ) (pos : ℕ) {next : TreeFile}
      → write_header ops file buf ≡ ok (pos, next)
      → Append ops file next

-- Any number of them.
pub data Appends (ops : FileOps) (file : TreeFile) : TreeFile → Type 0 where
  here : Appends ops file file
  step : {mid next : TreeFile} → Appends ops file mid → Append ops mid next → Appends ops file next

module _ (ops : FileOps) (writes : WriteLaws ops) (whole : WritesFront ops) where
  Append-Extends :
      {file next : TreeFile}
      → Append ops file next
      → Extends file.disk next.disk file.pos × (file.pos ≤ next.pos)
  Append-Extends {file} {next} (chunk buf w e same) =
      rw same (db_write_buf-Extends ops writes file buf w e)
  Append-Extends {file} {next} (header buf pos e) =
      let (h, p, end) = write_header_sound ops writes whole file buf pos next e in
      let (kept, larger) = write_header_below ops writes whole file buf pos next e in
      (
        record { same = kept; larger = larger },
        omega (arith, p, end, header_position_lem file.pos, data_end-le (pos + 1) (8 + length buf)),
      )

  pub Appends-Extends :
      {file next : TreeFile}
      → Appends ops file next
      → Extends file.disk next.disk file.pos × (file.pos ≤ next.pos)
  Appends-Extends here = (record { same = λ i h. refl; larger = omega arith }, omega arith)
  Appends-Extends (step rest last) =
      let (x, le) = Appends-Extends rest in
      let (y, le') = Append-Extends last in (Extends-trans le x y, omega (arith, le, le'))

  -- A chunk of less than 2^31 bytes that db_write_buf has written is read at its position by
  -- pread_bin after any sequence of chunks and headers that are written behind it, where reads do
  -- not fail and writes keep their laws.
  pub pread_bin-Appends :
      (reads : ReadLaws ops) (all : ReadsAll ops) (file : TreeFile) (buf : List ℕ) (w : Written)
      (next : TreeFile)
      → length buf < 2 ^ 31
      → db_write_buf ops file buf ≡ ok w
      → Appends ops w.file next
      → pread_bin ops next.disk w.pos ≡ ok buf
  pread_bin-Appends reads all file buf w next h e later =
      let (v, p, end, size) = db_write_buf_sound ops writes file buf w e in
      pread_bin-HasChunk ops reads all next.disk w.pos buf h (
        HasChunk-Extends w.pos w.file.pos buf (rw p (omega (arith, end)))
          ((Appends-Extends later).0) (db_write_buf-HasChunk ops writes file buf w e))
