-- ===== src/Db/Find.antt =====
-- What find_header finds: the last valid header at or below the block that it starts from.
use couchstore.Base.{
  ℕ, zero, suc, ◌+◌, ◌*◌, ◌/◌, ◌%◌, ◌≤◌, ◌<◌, ◌≡◌, ◌≢◌, sym, arith, List, length, Result, ok, err,
  fault, Error, subst,
}
use native.Mathlib.Decide.{dec_lt}
use couchstore.File.{Disk, FileOps}
use couchstore.File.Laws.{ReadLaws, ReadsAll, ReadsFront, data_end-le}
use couchstore.Chunk.Header.{HasHeader, pread_header-HasHeader}
use couchstore.Db.{
  DbHeader, parse_header, check_mark, find_header_at_pos, find_header_loop, find_header_switch,
  find_header,
}

-- An error after which the scan goes on to the block before.
abbrev pub Skipped : Result DbHeader → Type 0
Skipped (ok h) = ⊥
Skipped fault = ⊥
Skipped (err e) = e ≢ Error.alloc_fail

-- How a round of the scan ended, when the scan ended with a header.
data Round (r : Result DbHeader) (go_on : Error → Result DbHeader) (h : DbHeader) : Type 0 where
  found : r ≡ ok h → Round r go_on h
  went_on : Skipped r → (e : Error) → go_on e ≡ ok h → Round r go_on h

round :
    (r : Result DbHeader) (last : Error) (go_on : Error → Result DbHeader) (h : DbHeader)
    → find_header_switch r last go_on ≡ ok h
    → Round r go_on h
unfolding find_header_switch
round (ok h') last go_on h e = found e
round fault last go_on h e = cc
round (err Error.no_header) last go_on h e = went_on (λ q. cc) last e
round (err Error.alloc_fail) last go_on h e = cc
round (err errcode) last go_on h e = went_on (λ q. cc) errcode e

module _ (ops : FileOps) where
  -- What a scan of the blocks below `blocks` says of them.
  abbrev pub LastHeader : Disk → ℕ → DbHeader → Type 0
  LastHeader d blocks h =
      (k : ℕ) × (k < blocks)
      × (find_header_at_pos ops d (4096 * k) ≡ ok h)
      × ((j : ℕ) → k < j → j < blocks → Skipped (find_header_at_pos ops d (4096 * j)))

  one_more :
      (d : Disk) (blocks : ℕ) (h : DbHeader)
      → Skipped (find_header_at_pos ops d (4096 * blocks))
      → LastHeader d blocks h
      → LastHeader d (suc blocks) h
  one_more d blocks h s (k, lt, e, above) = (
    k,
    omega arith,
    e,
    λ j gt below. elim (dec_lt j blocks) [
      | yes small ↦ above j gt small
      | no large ↦
          let same : j ≡ blocks = omega arith in
          subst (λ (t : ℕ). Skipped (find_header_at_pos ops d (4096 * t))) (sym same) s
    ],
  )

  find_header_loop_last :
      (d : Disk) (blocks : ℕ) (last : Error) (h : DbHeader)
      → find_header_loop ops d blocks last ≡ ok h
      → LastHeader d blocks h
  unfolding find_header_loop
  find_header_loop_last d zero last h e = cc
  find_header_loop_last d (suc blocks) last h e =
      elim (round (find_header_at_pos ops d (4096 * blocks)) last
        (λ errcode. find_header_loop ops d blocks errcode) h e) [
          | found e' ↦ (blocks, omega arith, e', λ j gt below. absurd (omega arith))
          | went_on s errcode e' ↦
              one_more d blocks h s (find_header_loop_last d blocks errcode h e')
        ]

  -- The header that find_header returns is that of a block at or below the one that the scan starts
  -- in, and every block above it, down from the start, is one that the scan goes over.
  pub find_header_last :
      (d : Disk) (start : ℕ) (h : DbHeader)
      → find_header ops d start ≡ ok h
      → (k : ℕ) × (k ≤ start / 4096)
        × (find_header_at_pos ops d (4096 * k) ≡ ok h)
        × ((j : ℕ) → k < j → j ≤ start / 4096 → Skipped (find_header_at_pos ops d (4096 * j)))
  unfolding find_header
  find_header_last d start h e =
      let (k, lt, e', above) = find_header_loop_last d (start / 4096 + 1) Error.no_header h e in
      (k, omega arith, e', λ j gt le. above j gt (omega arith))

  find_header_loop_here :
      (d : Disk) (blocks : ℕ) (last : Error) (h : DbHeader)
      → find_header_at_pos ops d (4096 * blocks) ≡ ok h
      → find_header_loop ops d (suc blocks) last ≡ ok h
  unfolding find_header_loop
  find_header_loop_here d blocks last h e = rw e

  -- A scan that starts in a header's block returns that header.
  pub find_header_here :
      (d : Disk) (pos start : ℕ) (h : DbHeader)
      → pos % 4096 ≡ 0
      → pos ≤ start
      → start < pos + 4096
      → find_header_at_pos ops d pos ≡ ok h
      → find_header ops d start ≡ ok h
  unfolding find_header
  find_header_here d pos start h aligned le lt e =
      let block : start / 4096 + 1 ≡ suc (pos / 4096) = omega arith in
      let here : 4096 * (pos / 4096) ≡ pos = omega arith in
      rw block (find_header_loop_here d (pos / 4096) Error.no_header h (rw here e))

module _ (ops : FileOps) (reads : ReadLaws ops) (all : ReadsAll ops) (front : ReadsFront ops) where
  mark_found :
      (d : Disk) (pos : ℕ)
      → d.byte pos ≡ 1
      → pos + 2 ≤ d.size
      → check_mark (ops.pread d 2 pos) ≡ ok tt
  unfolding check_mark
  mark_found d pos m h = rw (front.reads_two d pos h) (ground arith)

  -- A header that stands at a position is found there, whatever its bytes say.
  pub find_header_at_pos-HasHeader :
      (d : Disk) (pos : ℕ) (buf : List ℕ)
      → length buf + 4 ≤ 1024
      → HasHeader d pos buf
      → find_header_at_pos ops d pos ≡ parse_header pos buf
  unfolding find_header_at_pos
  find_header_at_pos-HasHeader d pos buf small c = rw (
    mark_found d pos c.mark (omega (arith, c.room, data_end-le (pos + 1) (8 + length buf))),
    pread_header-HasHeader ops reads all d pos 1024 buf small (omega arith) c,
  )
