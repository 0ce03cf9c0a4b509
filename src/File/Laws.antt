-- ===== src/File/Laws.antt =====
-- What the code relies on of the file operations (include/libcouchstore/file_ops.h), and the data
-- bytes of a file by their place in it.
use couchstore.Base.{
  ℕ, zero, suc, ◌+◌, ◌%◌, ◌≤◌, ◌<◌, ◌≡◌, List, [], ◌∷◌, ◌++◌, length, take, ok, arith, refl, ap,
  ap₂, ◌∙◌, max,
}
use native.Mathlib.Nat.{zero-add, suc-add}
use couchstore.File.{Disk, FileOps, skip_prefix, run_length}

-- `n` bytes from a position on.
unfoldable pub slice : (ℕ → ℕ) → ℕ → ℕ → List ℕ
slice f pos zero = []
slice f pos (suc n) = f pos ∷ slice f (pos + 1) n

-- `n` data bytes from a position on, prefix bytes left out.
unfoldable pub data_bytes : (ℕ → ℕ) → ℕ → ℕ → List ℕ
data_bytes f pos zero = []
data_bytes f pos (suc n) = f (skip_prefix pos) ∷ data_bytes f (skip_prefix pos + 1) n

-- The position behind these bytes.
unfoldable pub data_end : ℕ → ℕ → ℕ
data_end pos zero = pos
data_end pos (suc n) = data_end (skip_prefix pos + 1) n

-- A read returns bytes of the file, as many as were asked for at most, and none only at its end.
pub record ReadLaws (ops : FileOps) : Type 0 where
  pub reads_slice :
      (d : Disk) (n pos : ℕ) (got : List ℕ)
      → ops.pread d n pos ≡ ok got
      → (got ≡ slice d.byte pos (length got)) × (length got ≤ n)

-- A read inside of the file returns a byte at least: no error occurs.
pub record ReadsAll (ops : FileOps) : Type 0 where
  pub reads_some :
      (d : Disk) (n pos : ℕ)
      → 0 < n
      → pos < d.size
      → (got : List ℕ) × (ops.pread d n pos ≡ ok got) × (0 < length got)

-- A read of two bytes inside of the file is not cut short.
pub record ReadsFront (ops : FileOps) : Type 0 where
  pub reads_two :
      (d : Disk) (pos : ℕ)
      → pos + 2 ≤ d.size
      → ops.pread d 2 pos ≡ ok (d.byte pos ∷ d.byte (pos + 1) ∷ [])

-- A write puts bytes of the front of the buffer at the position, one at least unless the buffer is
-- empty, and changes nothing below.
pub record WriteLaws (ops : FileOps) : Type 0 where
  pub writes_slice :
      (d : Disk) (buf : List ℕ) (pos k : ℕ) (d' : Disk)
      → ops.pwrite d buf pos ≡ ok (k, d')
      → (k ≤ length buf) × (slice d'.byte pos k ≡ take k buf) × (0 < length buf → 0 < k)
  pub keeps_below :
      (d : Disk) (buf : List ℕ) (pos k : ℕ) (d' : Disk) (i : ℕ)
      → ops.pwrite d buf pos ≡ ok (k, d')
      → i < pos
      → d'.byte i ≡ d.byte i
  pub grows :
      (d : Disk) (buf : List ℕ) (pos k : ℕ) (d' : Disk)
      → ops.pwrite d buf pos ≡ ok (k, d')
      → (d.size ≤ d'.size) × (0 < k → pos + k ≤ d'.size)

-- A write past the end makes the file end where the write ended.
pub record WritesExact (ops : FileOps) : Type 0 where
  pub ends_exactly :
      (d : Disk) (buf : List ℕ) (pos k : ℕ) (d' : Disk)
      → ops.pwrite d buf pos ≡ ok (k, d')
      → d'.size ≤ max d.size (pos + k)

-- No error occurs.
pub record WritesAll (ops : FileOps) : Type 0 where
  pub writes_some :
      (d : Disk) (buf : List ℕ) (pos : ℕ)
      → (k : ℕ) × (d' : Disk) × (ops.pwrite d buf pos ≡ ok (k, d'))

-- A write of nine bytes or fewer, as the front of a header is, is not cut short.
pub record WritesFront (ops : FileOps) : Type 0 where
  pub writes_whole :
      (d : Disk) (buf : List ℕ) (pos k : ℕ) (d' : Disk)
      → ops.pwrite d buf pos ≡ ok (k, d')
      → length buf ≤ 9
      → k ≡ length buf

pub length-slice : (f : ℕ → ℕ) (pos n : ℕ) → length (slice f pos n) ≡ n
unfolding slice
length-slice f pos zero = refl
length-slice f pos (suc n) = ap suc (length-slice f (pos + 1) n)

pub length-data_bytes : (f : ℕ → ℕ) (pos n : ℕ) → length (data_bytes f pos n) ≡ n
unfolding data_bytes
length-data_bytes f pos zero = refl
length-data_bytes f pos (suc n) = ap suc (length-data_bytes f (skip_prefix pos + 1) n)

pub skip_prefix-skip_prefix : (pos : ℕ) → skip_prefix (skip_prefix pos) ≡ skip_prefix pos
unfolding skip_prefix
skip_prefix-skip_prefix pos = ground arith

-- A position that has been stepped over is no block boundary.
pub skip_prefix-mod : (pos : ℕ) → 0 < skip_prefix pos % 4096
unfolding skip_prefix
skip_prefix-mod pos = ground arith

pub skip_prefix_inside : (pos : ℕ) → 0 < pos % 4096 → skip_prefix pos ≡ pos
unfolding skip_prefix
skip_prefix_inside pos h = ground arith

pub skip_prefix_bounds : (pos : ℕ) → (pos ≤ skip_prefix pos) × (skip_prefix pos ≤ pos + 1)
unfolding skip_prefix
skip_prefix_bounds pos = ground arith

pub data_bytes-skip_prefix :
    (f : ℕ → ℕ) (pos n : ℕ) → data_bytes f (skip_prefix pos) n ≡ data_bytes f pos n
unfolding data_bytes
data_bytes-skip_prefix f pos zero = refl
data_bytes-skip_prefix f pos (suc n) = rw skip_prefix-skip_prefix

pub data_end-skip_prefix :
    (pos n : ℕ) → skip_prefix (data_end (skip_prefix pos) n) ≡ skip_prefix (data_end pos n)
unfolding data_end
data_end-skip_prefix pos zero = skip_prefix-skip_prefix pos
data_end-skip_prefix pos (suc n) = rw skip_prefix-skip_prefix

pub data_end-skip_prefix_pos : (pos n : ℕ) → 0 < n → data_end (skip_prefix pos) n ≡ data_end pos n
unfolding data_end
data_end-skip_prefix_pos pos zero h = absurd (omega arith)
data_end-skip_prefix_pos pos (suc n) h = rw skip_prefix-skip_prefix

pub data_end-add : (pos n m : ℕ) → data_end pos (n + m) ≡ data_end (data_end pos n) m
unfolding data_end
data_end-add pos zero m = rw zero-add
data_end-add pos (suc n) m =
    ap (data_end pos) (suc-add n m) ∙ data_end-add (skip_prefix pos + 1) n m

pub data_bytes-add :
    (f : ℕ → ℕ) (pos n m : ℕ)
    → data_bytes f pos (n + m) ≡ data_bytes f pos n ++ data_bytes f (data_end pos n) m
unfolding data_bytes data_end
data_bytes-add f pos zero m = rw zero-add
data_bytes-add f pos (suc n) m =
    ap (data_bytes f pos) (suc-add n m)
    ∙ ap (λ t. f (skip_prefix pos) ∷ t) (data_bytes-add f (skip_prefix pos + 1) n m)

-- Within a block the data bytes lie one behind the other.
pub data_bytes_run :
    (f : ℕ → ℕ) (pos n : ℕ)
    → 0 < pos % 4096
    → pos % 4096 + n ≤ 4096
    → data_bytes f pos n ≡ slice f pos n
unfolding data_bytes slice
data_bytes_run f pos zero h k = refl
data_bytes_run f pos (suc zero) h k = rw (skip_prefix_inside pos h)
data_bytes_run f pos (suc (suc n)) h k =
    rw (skip_prefix_inside pos h)
      (ap (λ t. f pos ∷ t) (data_bytes_run f (pos + 1) (suc n) (omega arith) (omega arith)))

pub data_end_run : (pos n : ℕ) → 0 < pos % 4096 → pos % 4096 + n ≤ 4096 → data_end pos n ≡ pos + n
unfolding data_end
data_end_run pos zero h k = omega arith
data_end_run pos (suc zero) h k = rw (skip_prefix_inside pos h) (omega arith)
data_end_run pos (suc (suc n)) h k =
    rw (skip_prefix_inside pos h)
      (data_end_run (pos + 1) (suc n) (omega arith) (omega arith) ∙ omega arith)

pub run_length_bounds :
    (pos len : ℕ) → (run_length pos len ≤ len) × (pos % 4096 + run_length pos len ≤ 4096)
unfolding run_length
run_length_bounds pos len = omega arith

pub run_length_pos : (pos len : ℕ) → 0 < len → 0 < run_length pos len
unfolding run_length
run_length_pos pos len h = omega arith

pub data_end-le : (pos n : ℕ) → pos + n ≤ data_end pos n
unfolding data_end
data_end-le pos zero = omega arith
data_end-le pos (suc n) = omega (arith, data_end-le (skip_prefix pos + 1) n, skip_prefix_bounds pos)

-- The data bytes up to a position depend on the bytes below it.
pub data_bytes-congr :
    (f g : ℕ → ℕ) (pos n : ℕ)
    → ((i : ℕ) → i < data_end pos n → f i ≡ g i)
    → data_bytes f pos n ≡ data_bytes g pos n
unfolding data_bytes data_end
data_bytes-congr f g pos zero h = refl
data_bytes-congr f g pos (suc n) h =
    ap₂ (λ x xs. x ∷ xs) (h _ (omega (arith, data_end-le (skip_prefix pos + 1) n)))
      (data_bytes-congr f g (skip_prefix pos + 1) n h)
