-- ===== src/File/Tests.antt =====
-- Runs of the block loops on a file in memory.
use couchstore.Base.{ℕ, ◌+◌, ◌≡◌, refl, arith, [], ◌∷◌, Result, ok}
use couchstore.File.{Disk, read_skipping_prefixes, raw_write, run_length, skip_prefix}
use couchstore.File.Laws.{data_bytes, data_end}
use couchstore.File.Memory.{
  memory_ops, memory-ReadLaws, memory-ReadsAll, memory-WriteLaws, empty_disk,
}
use couchstore.File.Read.{read_total}
use couchstore.File.Write.{Wrote, raw_write_sound}

-- Ten bytes on both sides of the prefix byte at 4096.
abbrev around_prefix : Disk
around_prefix = record { byte = λ i. i; size = 5000 }

read_total_example :
    read_skipping_prefixes memory_ops around_prefix 4091 10
    ≡ ok (skip_prefix (data_end 4091 10), data_bytes around_prefix.byte 4091 10)
read_total_example =
    read_total memory_ops memory-ReadLaws memory-ReadsAll around_prefix 4091 10
      (λ h. unfold data_end skip_prefix in omega arith)

abbrev after_write : Result (ℕ × Disk)
after_write = raw_write memory_ops empty_disk (7 ∷ 8 ∷ 9 ∷ []) 4095

abbrev disk_after_write : Disk
disk_after_write = elim after_write [ ok r ↦ r.1 | _ ↦ empty_disk ]

after_write-eq : after_write ≡ ok (4, disk_after_write)
unfolding raw_write run_length
after_write-eq = refl

raw_write_sound_example :
    Wrote empty_disk disk_after_write 4095 (7 ∷ 8 ∷ 9 ∷ []) × (4095 + 4 ≡ data_end 4095 3)
raw_write_sound_example =
    raw_write_sound memory_ops memory-WriteLaws empty_disk (7 ∷ 8 ∷ 9 ∷ []) 4095 4 disk_after_write
      after_write-eq
