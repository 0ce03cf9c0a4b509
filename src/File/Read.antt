-- ===== src/File/Read.antt =====
-- read_skipping_prefixes returns the data bytes of the file.
use couchstore.Base.{
  ℕ, zero, suc, ◌+◌, ◌-◌, ◌%◌, ◌≤◌, ◌<◌, ◌==◌, ◌≡◌, refl, sym, ap, ◌∙◌, arith, List, [], ◌++◌,
  length, ok, err, Error, Result, append_assoc, append-nil, >>=-ok, if◌then◌else◌,
}
use couchstore.File.{Disk, FileOps, skip_prefix, run_length, read_loop, read_skipping_prefixes}
use couchstore.File.Laws.{
  slice, data_bytes, data_end, ReadLaws, ReadsAll, data_bytes-skip_prefix, data_end-skip_prefix,
  data_end-skip_prefix_pos, skip_prefix-mod, skip_prefix_inside, data_bytes-add, data_end-add,
  data_bytes_run, data_end_run, run_length_bounds, run_length_pos, data_end-le,
}

-- A run of `k` data bytes, and what follows the run.
split_run :
    (f : ℕ → ℕ) (pos k n : ℕ)
    → 0 < pos % 4096
    → pos % 4096 + k ≤ 4096
    → k ≤ n
    → data_bytes f pos n ≡ slice f pos k ++ data_bytes f (skip_prefix (pos + k)) (n - k)
split_run f pos k n h b le =
    let whole : n ≡ k + (n - k) = omega arith in
    ap (data_bytes f pos) whole
    ∙ data_bytes-add f pos k (n - k)
    ∙ rw (data_bytes_run f pos k h b, data_end_run pos k h b, data_bytes-skip_prefix) refl

split_run_end :
    (pos k n : ℕ)
    → 0 < pos % 4096
    → pos % 4096 + k ≤ 4096
    → k ≤ n
    → skip_prefix (data_end pos n) ≡ skip_prefix (data_end (skip_prefix (pos + k)) (n - k))
split_run_end pos k n h b le =
    let whole : n ≡ k + (n - k) = omega arith in
    ap (λ (t : ℕ). skip_prefix (data_end pos t)) whole
    ∙ ap skip_prefix (data_end-add pos k (n - k))
    ∙ rw (data_end_run pos k h b) (sym (data_end-skip_prefix (pos + k) (n - k)))

-- A read that returned something went on with the loop.
after_read :
    (n : ℕ) (rest : Result (ℕ × List ℕ)) {r : ℕ × List ℕ}
    → (if n == 0 then err Error.read else rest) ≡ ok r
    → rest ≡ ok r
after_read n rest e = ground arith

-- One round: the bytes of the run, and the rest of the loop's result.
read_step :
    (ops : FileOps) (laws : ReadLaws ops) (d : Disk) (pos len : ℕ) (dst : List ℕ) (p : ℕ)
    (out : List ℕ)
    → 0 < pos % 4096
    → (got : List ℕ) → ops.pread d (run_length pos len) pos ≡ ok got
    → {rest : Result (ℕ × List ℕ)} → rest ≡ ok (p, out)
    → (rest ≡ ok (p, out)
        → (out
            ≡ (dst ++ got) ++ data_bytes d.byte (skip_prefix (pos + length got)) (len - length got))
          × (p ≡ skip_prefix (data_end (skip_prefix (pos + length got)) (len - length got))))
    → (out ≡ dst ++ data_bytes d.byte pos len) × (p ≡ skip_prefix (data_end pos len))
read_step ops laws d pos len dst p out h got r e ih =
    let (bytes, few) = laws.reads_slice d _ pos got r in
    let (in_len, in_block) = run_length_bounds pos len in
    let b : pos % 4096 + length got ≤ 4096 = omega arith in
    let le : length got ≤ len = omega arith in
    let (bytes', p') = ih e in
    (
      bytes'
          ∙ append_assoc dst got _
          ∙ ap
              (λ (t : List ℕ).
                dst ++ (t ++ data_bytes d.byte (skip_prefix (pos + length got)) (len - length got)))
              bytes
          ∙ ap (λ (t : List ℕ). dst ++ t) (sym (split_run d.byte pos (length got) len h b le)),
      p' ∙ sym (split_run_end pos (length got) len h b le),
    )

module _ (ops : FileOps) (laws : ReadLaws ops) where
  read_loop_sound :
      (fuel : ℕ) (d : Disk) (pos len : ℕ) (dst : List ℕ) (p : ℕ) (out : List ℕ)
      → 0 < pos % 4096
      → read_loop ops fuel d pos len dst ≡ ok (p, out)
      → (out ≡ dst ++ data_bytes d.byte pos len) × (p ≡ skip_prefix (data_end pos len))
  unfolding read_loop
  read_loop_sound fuel d pos zero dst p out h e =
      unfold data_bytes data_end in
      (rw append-nil (ground arith), rw (skip_prefix_inside pos h) (ground arith))
  read_loop_sound zero d pos (suc len) dst p out h e = cc
  read_loop_sound (suc fuel) d pos (suc len) dst p out h e =
      let (got, r, e') = >>=-ok (ops.pread d (run_length pos (suc len)) pos) _ e in
      read_step ops laws d pos (suc len) dst p out h got r
        (after_read _
          (read_loop ops fuel d (skip_prefix (pos + length got)) (suc len - length got)
            (dst ++ got))
          e')
        (λ e''.
          read_loop_sound fuel d (skip_prefix (pos + length got)) (suc len - length got)
            (dst ++ got) p out (skip_prefix-mod _) e'')

  -- Whatever it is asked to read, what it returns is the data bytes of the file at the position.
  pub read_sound :
      (d : Disk) (pos len p : ℕ) (out : List ℕ)
      → read_skipping_prefixes ops d pos len ≡ ok (p, out)
      → (out ≡ data_bytes d.byte pos len) × (p ≡ skip_prefix (data_end pos len))
  unfolding read_skipping_prefixes
  read_sound d pos len p out e =
      let (bytes, end) =
        read_loop_sound len d (skip_prefix pos) len [] p out (skip_prefix-mod pos) e in
      (bytes ∙ data_bytes-skip_prefix d.byte pos len, end ∙ data_end-skip_prefix pos len)

rest_end :
    (d : Disk) (pos k len : ℕ)
    → 0 < pos % 4096
    → pos % 4096 + k ≤ 4096
    → 0 < len - k
    → data_end pos len ≤ d.size
    → data_end (skip_prefix (pos + k)) (len - k) ≤ d.size
rest_end d pos k len h b left e =
    let whole : len ≡ k + (len - k) = omega arith in
    let same : data_end (skip_prefix (pos + k)) (len - k) ≡ data_end pos len =
      data_end-skip_prefix_pos (pos + k) (len - k) left
      ∙ ap (λ (t : ℕ). data_end t (len - k)) (sym (data_end_run pos k h b))
      ∙ sym (data_end-add pos k (len - k))
      ∙ ap (data_end pos) (sym whole) in
    rw same e

module _ (ops : FileOps) (laws : ReadLaws ops) (some : ReadsAll ops) where
  read_loop_total :
      (fuel : ℕ) (d : Disk) (pos len : ℕ) (dst : List ℕ)
      → len ≤ fuel
      → 0 < pos % 4096
      → (0 < len → data_end pos len ≤ d.size)
      → (r : ℕ × List ℕ) × (read_loop ops fuel d pos len dst ≡ ok r)
  unfolding read_loop
  read_loop_total fuel d pos zero dst f h e = ((pos, dst), refl)
  read_loop_total zero d pos (suc len) dst f h e = absurd (omega arith)
  read_loop_total (suc fuel) d pos (suc len) dst f h e =
      let (in_len, in_block) = run_length_bounds pos (suc len) in
      let (got, r, more) =
        some.reads_some d (run_length pos (suc len)) pos
          (run_length_pos pos (suc len) (omega arith))
          (omega (arith, data_end-le pos (suc len), e (omega arith))) in
      let (bytes, few) = laws.reads_slice d _ pos got r in
      let (res, eq) =
        read_loop_total fuel d (skip_prefix (pos + length got)) (suc len - length got) (dst ++ got)
          (omega arith) (skip_prefix-mod _)
          (λ left. rest_end d pos (length got) (suc len) h (omega arith) left (e (omega arith))) in
      (res, rw r (ground (arith, eq)))

  -- Where the file holds all the bytes and reads inside of it do not fail, read_skipping_prefixes
  -- succeeds: it returns the data bytes and the position behind them, prefix bytes stepped over.
  pub read_total :
      (d : Disk) (pos len : ℕ)
      → (0 < len → data_end pos len ≤ d.size)
      → read_skipping_prefixes ops d pos len
        ≡ ok (skip_prefix (data_end pos len), data_bytes d.byte pos len)
  unfolding read_skipping_prefixes
  read_total d pos len e =
      let ((p, out), r) =
        read_loop_total len d (skip_prefix pos) len [] (omega arith) (skip_prefix-mod pos)
          (λ left. rw (data_end-skip_prefix_pos pos len left) (e left)) in
      let (bytes, end) = read_sound ops laws d pos len p out (unfold read_skipping_prefixes in r) in
      r ∙ cc (bytes, end)
