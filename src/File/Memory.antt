-- ===== src/File/Memory.antt =====
-- A file in memory, for runs: reads and writes are whole, and no error occurs.
use couchstore.Base.{
  ℕ, suc, ◌+◌, ◌-◌, ◌≤◌, ◌<◌, ◌≡◌, refl, sym, ap, ap₂, subst, ◌∙◌, arith, ltb, if◌then◌else◌, min,
  max, List, [], ◌∷◌, length, take, take-all, get_or, true, false, Result, ok,
}
use couchstore.File.{Disk, FileOps}
use couchstore.File.Laws.{
  slice, length-slice, ReadLaws, ReadsAll, ReadsFront, WriteLaws, WritesAll, WritesFront,
}

abbrev written : Disk → List ℕ → ℕ → Disk
written d buf pos = record {
  byte = λ i.
      if ltb i pos
      then d.byte i
      else if ltb (i - pos) (length buf)
      then get_or buf (i - pos) 0
      else d.byte i;
  size = max d.size (pos + length buf);
}

abbrev pub memory_ops : FileOps
memory_ops = record {
  pread = λ d n pos. ok (slice d.byte pos (min n (d.size - pos)));
  pwrite = λ d buf pos. ok (length buf, written d buf pos);
  goto_eof = λ d. ok d.size;
  sync = λ d. ok tt;
}

abbrev pub empty_disk : Disk
empty_disk = record { byte = λ i. 0; size = 0 }

result_list : {xs ys : List ℕ} → ◌≡◌ {A = Result (List ℕ)} (ok xs) (ok ys) → xs ≡ ys
result_list e = ground arith

pub memory-ReadLaws : ReadLaws memory_ops
memory-ReadLaws = record {
  reads_slice = λ d n pos got e.
      let same = result_list e in
      let size = sym (ap length same) ∙ length-slice d.byte pos (min n (d.size - pos)) in
      (sym same ∙ ap (slice d.byte pos) (sym size), omega arith);
}

pub memory-ReadsAll : ReadsAll memory_ops
memory-ReadsAll = record {
  reads_some = λ d n pos h lt. (
    slice d.byte pos (min n (d.size - pos)),
    refl,
    omega (arith, length-slice d.byte pos (min n (d.size - pos))),
  );
}

two_bytes : (f : ℕ → ℕ) (pos n : ℕ) → n ≡ 2 → slice f pos n ≡ f pos ∷ f (pos + 1) ∷ []
unfolding slice
two_bytes f pos n e = rw e refl

pub memory-ReadsFront : ReadsFront memory_ops
memory-ReadsFront = record {
  reads_two = λ d pos h. ap ok (two_bytes d.byte pos (min 2 (d.size - pos)) (omega arith));
}

-- A slice is its bytes.
slice-bytes :
    (f : ℕ → ℕ) (pos : ℕ) (buf : List ℕ)
    → ((i : ℕ) → i < length buf → f (pos + i) ≡ get_or buf i 0)
    → slice f pos (length buf) ≡ buf
unfolding slice
slice-bytes f pos [] h = refl
slice-bytes f pos (b ∷ bs) h =
    ap₂ (λ x xs. x ∷ xs) (ap f (omega arith) ∙ h 0 (omega arith))
      (slice-bytes f (pos + 1) bs (λ i lt. ap f (omega arith) ∙ h (suc i) (omega arith)))

byte-written :
    (d : Disk) (buf : List ℕ) (pos i : ℕ)
    → i < length buf
    → (written d buf pos).byte (pos + i) ≡ get_or buf i 0
byte-written d buf pos i h =
    let at : pos + i - pos ≡ i = omega arith in
    let above : ltb (pos + i) pos ≡ false = ground arith in
    let inside : ltb i (length buf) ≡ true = ground arith in rw (above, at, inside) refl

pwrite_parts :
    (d : Disk) (buf : List ℕ) (pos k : ℕ) (d' : Disk)
    → memory_ops.pwrite d buf pos ≡ ok (k, d')
    → (length buf ≡ k) × (written d buf pos ≡ d')
pwrite_parts d buf pos k d' e = ground arith

below_written :
    (d : Disk) (buf : List ℕ) (pos i : ℕ) → i < pos → (written d buf pos).byte i ≡ d.byte i
below_written d buf pos i h = let below : ltb i pos ≡ true = ground arith in rw below refl

pub memory-WriteLaws : WriteLaws memory_ops
memory-WriteLaws = record {
  writes_slice = λ d buf pos k d' e.
      let (n, same) = pwrite_parts d buf pos k d' e in
      (
        omega arith,
        subst (λ (x : Disk). slice x.byte pos k ≡ take k buf) same
            (subst (λ (t : ℕ). slice (written d buf pos).byte pos t ≡ take t buf) n
              (slice-bytes (written d buf pos).byte pos buf (byte-written d buf pos)
                ∙ sym (take-all (length buf) buf (omega arith)))),
        λ h. omega arith,
      );
  keeps_below = λ d buf pos k d' i e h.
      let (n, same) = pwrite_parts d buf pos k d' e in
      subst (λ (x : Disk). x.byte i ≡ d.byte i) same (below_written d buf pos i h);
  grows = λ d buf pos k d' e.
      let (n, same) = pwrite_parts d buf pos k d' e in
      subst (λ (x : Disk). (d.size ≤ x.size) × (0 < k → pos + k ≤ x.size)) same
        (omega arith, λ h. omega arith);
}

pub memory-WritesAll : WritesAll memory_ops
memory-WritesAll = record { writes_some = λ d buf pos. (length buf, written d buf pos, refl) }

pub memory-WritesFront : WritesFront memory_ops
memory-WritesFront = record {
  writes_whole = λ d buf pos k d' e h. sym (pwrite_parts d buf pos k d' e).0;
}
