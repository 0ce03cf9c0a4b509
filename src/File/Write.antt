-- ===== src/File/Write.antt =====
-- raw_write puts a buffer into the data bytes of the file.
use couchstore.Base.{
  ℕ, zero, suc, ◌+◌, ◌-◌, ◌*◌, ◌%◌, ◌≤◌, ◌<◌, ◌==◌, ◌≡◌, refl, sym, ap, ap₂, ◌∙◌, arith, List, [],
  ◌∷◌, ◌++◌, length, ok, Result, >>=-ok, if◌then◌else◌, Bool-cases, inl, inr, take, drop,
  take-append-drop, take-take, take-append_length, drop-append_length, subst, length-take,
  length-drop, length-append,
}
use native.Mathlib.Decide.{dec_lt}
use couchstore.File.{Disk, FileOps, skip_prefix, run_length, raw_write_loop, raw_write}
use couchstore.File.Laws.{
  slice, data_bytes, data_end, WriteLaws, WritesAll, data_bytes-congr, data_bytes-skip_prefix,
  data_end-skip_prefix_pos, data_bytes-add, data_end-add, data_bytes_run, data_end_run,
  run_length_bounds, run_length_pos, data_end-le, length-data_bytes,
}

-- What became of the file when `buf` was written at `pos`.
pub record Wrote (d d' : Disk) (pos : ℕ) (buf : List ℕ) : Type 0 where
  pub holds : data_bytes d'.byte pos (length buf) ≡ buf
  pub below : (i : ℕ) → i < pos → d'.byte i ≡ d.byte i
  pub prefixed : (i : ℕ) → pos ≤ i → i < data_end pos (length buf) → i % 4096 ≡ 0 → d'.byte i ≡ 0
  pub larger : d.size ≤ d'.size
  pub covers : 0 < length buf → data_end pos (length buf) ≤ d'.size

Wrote-nil : (d : Disk) (pos : ℕ) → Wrote d d pos []
unfolding data_bytes data_end
Wrote-nil d pos = record {
  holds = refl;
  below = λ i h. refl;
  prefixed = λ i h k e. absurd (omega arith);
  larger = omega arith;
  covers = λ h. absurd (omega arith);
}

-- One buffer behind another is their concatenation.
pub Wrote-append :
    {d d1 d2 : Disk} (pos : ℕ) (xs ys : List ℕ)
    → Wrote d d1 pos xs
    → Wrote d1 d2 (data_end pos (length xs)) ys
    → Wrote d d2 pos (xs ++ ys)
Wrote-append {d} {d1} {d2} pos xs ys v w = record {
  holds =
      ap (data_bytes d2.byte pos) (length-append xs ys)
      ∙ data_bytes-add d2.byte pos (length xs) (length ys)
      ∙ ap₂ (λ s t. s ++ t) (data_bytes-congr d2.byte d1.byte pos (length xs) w.below ∙ v.holds)
          w.holds;
  below = λ i h. w.below i (omega (arith, data_end-le pos (length xs))) ∙ v.below i h;
  prefixed = λ i h k e. elim (dec_lt i (data_end pos (length xs))) [
    | yes lt ↦ w.below i lt ∙ v.prefixed i h lt e
    | no ge ↦ w.prefixed i (omega arith) (omega (arith, end)) e
  ];
  larger = omega (arith, v.larger, w.larger);
  covers = λ h. elim (dec_lt 0 (length ys)) [
    | yes lt ↦ omega (arith, end, w.covers lt)
    | no ge ↦
        omega (
          arith,
          end,
          same ys (omega arith),
          v.covers (omega (arith, length-append xs ys)),
          w.larger,
        )
  ];
}
  where
    end : data_end pos (length (xs ++ ys)) ≡ data_end (data_end pos (length xs)) (length ys)
    end = ap (data_end pos) (length-append xs ys) ∙ data_end-add pos (length xs) (length ys)

    same :
        (zs : List ℕ)
        → length zs ≡ 0
        → data_end (data_end pos (length xs)) (length zs) ≡ data_end pos (length xs)
    same zs e = ap (data_end (data_end pos (length xs))) e ∙ unfold data_end in refl

-- At a boundary the data bytes begin behind the prefix.
boundary_bytes :
    (f : ℕ → ℕ) (pos n : ℕ) → pos % 4096 ≡ 0 → data_bytes f pos n ≡ data_bytes f (pos + 1) n
boundary_bytes f pos n b =
    let e : skip_prefix pos ≡ pos + 1 = unfold skip_prefix in ground arith in
    sym (data_bytes-skip_prefix f pos n) ∙ ap (λ (t : ℕ). data_bytes f t n) e

boundary_end : (pos n : ℕ) → pos % 4096 ≡ 0 → 0 < n → data_end pos n ≡ data_end (pos + 1) n
boundary_end pos n b h =
    let e : skip_prefix pos ≡ pos + 1 = unfold skip_prefix in ground arith in
    sym (data_end-skip_prefix_pos pos n h) ∙ ap (λ (t : ℕ). data_end t n) e

-- A prefix byte at a boundary, and the buffer behind it.
Wrote-prefix :
    {d d1 d2 : Disk} (pos : ℕ) (buf : List ℕ)
    → pos % 4096 ≡ 0
    → d1.byte pos ≡ 0
    → ((i : ℕ) → i < pos → d1.byte i ≡ d.byte i)
    → d.size ≤ d1.size
    → 0 < length buf
    → Wrote d1 d2 (pos + 1) buf
    → Wrote d d2 pos buf
Wrote-prefix {d} {d1} {d2} pos buf b z kept larger some w = record {
  holds = boundary_bytes d2.byte pos (length buf) b ∙ w.holds;
  below = λ i h. w.below i (omega arith) ∙ kept i h;
  prefixed = λ i h k e. elim (dec_lt pos i) [
    | yes lt ↦ w.prefixed i (omega arith) (omega (arith, boundary_end pos (length buf) b some)) e
    | no ge ↦ let same : i ≡ pos = omega arith in rw same (w.below pos (omega arith) ∙ z)
  ];
  larger = omega (arith, w.larger);
  covers = λ h. omega (arith, w.covers h, boundary_end pos (length buf) b some);
}

-- A run inside of a block.
Wrote-run :
    {d d1 : Disk} (pos : ℕ) (buf : List ℕ)
    → 0 < pos % 4096
    → pos % 4096 + length buf ≤ 4096
    → slice d1.byte pos (length buf) ≡ buf
    → ((i : ℕ) → i < pos → d1.byte i ≡ d.byte i)
    → (d.size ≤ d1.size) × (0 < length buf → pos + length buf ≤ d1.size)
    → Wrote d d1 pos buf
Wrote-run {d} {d1} pos buf h b s kept grown = record {
  holds = data_bytes_run d1.byte pos (length buf) h b ∙ s;
  below = kept;
  prefixed = λ i g k e. absurd (omega (arith, data_end_run pos (length buf) h b));
  larger = grown.0;
  covers = λ p. omega (arith, grown.1 p, data_end_run pos (length buf) h b);
}

-- The two parts of what was written, as a reader finds them.
pub Wrote-parts :
    {d d' : Disk} (pos : ℕ) (xs ys : List ℕ)
    → Wrote d d' pos (xs ++ ys)
    → (data_bytes d'.byte pos (length xs) ≡ xs)
      × (data_bytes d'.byte (data_end pos (length xs)) (length ys) ≡ ys)
Wrote-parts {d} {d'} pos xs ys w =
    let front = data_bytes d'.byte pos (length xs) in
    let back = data_bytes d'.byte (data_end pos (length xs)) (length ys) in
    let whole : front ++ back ≡ xs ++ ys =
      sym (data_bytes-add d'.byte pos (length xs) (length ys))
      ∙ ap (data_bytes d'.byte pos) (sym (length-append xs ys))
      ∙ w.holds in
    let n : length front ≡ length xs = length-data_bytes d'.byte pos (length xs) in
    (
      sym (take-append_length (length xs) front back n)
          ∙ ap (take (length xs)) whole
          ∙ take-append_length (length xs) xs ys refl,
      sym (drop-append_length (length xs) front back n)
          ∙ ap (drop (length xs)) whole
          ∙ drop-append_length (length xs) xs ys refl,
    )

module _ (ops : FileOps) (laws : WriteLaws ops) where
  prefix_step :
      (d d1 d' : Disk) (buf : List ℕ) (pos k p : ℕ)
      → pos % 4096 ≡ 0
      → 0 < length buf
      → ops.pwrite d (0 ∷ []) pos ≡ ok (k, d1)
      → Wrote d1 d' (pos + 1) buf × (p ≡ data_end (pos + 1) (length buf))
      → Wrote d d' pos buf × (p ≡ data_end pos (length buf))
  prefix_step d d1 d' buf pos k p b some w ih =
      let (few, bytes, progress) = laws.writes_slice d (0 ∷ []) pos k d1 w in
      let one : k ≡ 1 = omega (arith, progress (omega arith)) in
      let first : d1.byte pos ≡ 0 =
        unfold slice in
        cc (ap (λ (t : ℕ). slice d1.byte pos t) one, ap (λ (t : ℕ). take {A = ℕ} t (0 ∷ [])) one) in
      (
        Wrote-prefix pos buf b first (λ i h. laws.keeps_below d _ pos k d1 i w h)
            ((laws.grows d _ pos k d1 w).0) some ih.0,
        ih.1 ∙ sym (boundary_end pos (length buf) b some),
      )

  run_step :
      (d d1 d' : Disk) (buf : List ℕ) (pos k p : ℕ)
      → 0 < pos % 4096
      → ops.pwrite d (take (run_length pos (length buf)) buf) pos ≡ ok (k, d1)
      → Wrote d1 d' (pos + k) (drop k buf) × (p ≡ data_end (pos + k) (length (drop k buf)))
      → Wrote d d' pos buf × (p ≡ data_end pos (length buf))
  run_step d d1 d' buf pos k p inside w ih =
      let (few, bytes, progress) = laws.writes_slice d _ pos k d1 w in
      let (in_buf, in_block) = run_length_bounds pos (length buf) in
      let fit : k ≤ run_length pos (length buf) =
        omega (arith, length-take (run_length pos (length buf)) buf) in
      let size : length (take k buf) ≡ k = omega (arith, length-take k buf) in
      let here : data_end pos k ≡ pos + k = data_end_run pos k inside (omega arith) in
      let grown = laws.grows d _ pos k d1 w in
      let front : Wrote d d1 pos (take k buf) =
        Wrote-run pos (take k buf) inside (omega arith)
          (ap (slice d1.byte pos) size ∙ bytes ∙ take-take k _ buf fit)
          (λ i h. laws.keeps_below d _ pos k d1 i w h)
          (grown.0, λ h. omega (arith, grown.1 (omega arith))) in
      let whole = Wrote-append pos (take k buf) (drop k buf) front (
        subst (λ (q : ℕ). Wrote d1 d' q (drop k buf)) (sym (ap (data_end pos) size ∙ here)) ih.0) in
      (
        subst (λ (x : List ℕ). Wrote d d' pos x) (take-append-drop k buf) whole,
        ih.1
            ∙ ap (λ (q : ℕ). data_end q (length (drop k buf))) (sym here)
            ∙ sym (data_end-add pos k (length (drop k buf)))
            ∙ ap (data_end pos) (omega (arith, length-drop k buf)),
      )

  raw_write_loop_sound :
      (fuel : ℕ) (d : Disk) (buf : List ℕ) (pos p : ℕ) (d' : Disk)
      → raw_write_loop ops fuel d buf pos ≡ ok (p, d')
      → Wrote d d' pos buf × (p ≡ data_end pos (length buf))
  unfolding raw_write_loop
  raw_write_loop_sound fuel d [] pos p d' e =
      let same : (p ≡ pos) × (d' ≡ d) = ground arith in
      (
        subst (λ (x : Disk). Wrote d x pos []) (sym same.1) (Wrote-nil d pos),
        unfold data_end in same.0,
      )
  raw_write_loop_sound zero d (b ∷ bs) pos p d' e = cc
  raw_write_loop_sound (suc fuel) d (b ∷ bs) pos p d' e = elim (Bool-cases (pos % 4096 == 0)) [
    | inl at_boundary ↦
        let ((k, d1), w, e') = >>=-ok (ops.pwrite d (0 ∷ []) pos) _ (rw at_boundary at e) in
        prefix_step d d1 d' (b ∷ bs) pos k p (ground arith) (omega arith) w
          (raw_write_loop_sound fuel d1 (b ∷ bs) (pos + 1) p d' e')
    | inr inside ↦
        let ((k, d1), w, e') =
          >>=-ok (ops.pwrite d (take (run_length pos (length (b ∷ bs))) (b ∷ bs)) pos) _
            (rw inside at e) in
        run_step d d1 d' (b ∷ bs) pos k p (ground arith) w
          (raw_write_loop_sound fuel d1 (drop k (b ∷ bs)) (pos + k) p d' e')
  ]

  -- A raw_write that succeeds, by writes that keep their laws, has put the buffer into the data
  -- bytes at the position, with zeros on the block boundaries between, has changed nothing below,
  -- and returns how far the end of the written part is from the position.
  pub raw_write_sound :
      (d : Disk) (buf : List ℕ) (pos n : ℕ) (d' : Disk)
      → raw_write ops d buf pos ≡ ok (n, d')
      → Wrote d d' pos buf × (pos + n ≡ data_end pos (length buf))
  unfolding raw_write
  raw_write_sound d buf pos n d' e =
      let ((p, d1), r, e') = >>=-ok (raw_write_loop ops (2 * length buf) d buf pos) _ e in
      finish (raw_write_loop_sound (2 * length buf) d buf pos p d1 r) e'
    where
      finish :
          {p : ℕ} {d1 : Disk}
          → Wrote d d1 pos buf × (p ≡ data_end pos (length buf))
          → ◌≡◌ {A = Result (ℕ × Disk)} (ok (p - pos, d1)) (ok (n, d'))
          → Wrote d d' pos buf × (pos + n ≡ data_end pos (length buf))
      finish (w, end) q = (
        subst (λ (x : Disk). Wrote d x pos buf) (ground arith) w,
        ground (arith, data_end-le pos (length buf)),
      )

  -- The rounds that are left: a data round for each byte at most, and a prefix round before it.
  abbrev rounds : ℕ → ℕ → ℕ
  rounds pos len = if pos % 4096 == 0 then 2 * len else 2 * len - 1

  raw_write_loop_total :
      WritesAll ops
      → (fuel : ℕ) (d : Disk) (buf : List ℕ) (pos : ℕ) → rounds pos (length buf) ≤ fuel
      → (r : ℕ × Disk) × (raw_write_loop ops fuel d buf pos ≡ ok r)
  unfolding raw_write_loop
  raw_write_loop_total all fuel d [] pos h = ((pos, d), refl)
  raw_write_loop_total all zero d (b ∷ bs) pos h = absurd (ground arith)
  raw_write_loop_total all (suc fuel) d (b ∷ bs) pos h = elim (Bool-cases (pos % 4096 == 0)) [
    | inl at_boundary ↦
        let (k, d1, w) = all.writes_some d (0 ∷ []) pos in
        let (r, e) = raw_write_loop_total all fuel d1 (b ∷ bs) (pos + 1) (ground arith) in
        (r, rw (at_boundary, w) e)
    | inr inside ↦
        let (k, d1, w) = all.writes_some d (take (run_length pos (length (b ∷ bs))) (b ∷ bs)) pos in
        let (few, bytes, progress) = laws.writes_slice d _ pos k d1 w in
        let some : 0 < k = progress (
          omega (
            arith,
            length-take (run_length pos (length (b ∷ bs))) (b ∷ bs),
            run_length_pos pos (length (b ∷ bs)),
          )) in
        let (r, e) =
          raw_write_loop_total all fuel d1 (drop k (b ∷ bs)) (pos + k)
            (ground (arith, length-drop k (b ∷ bs))) in
        (r, rw (inside, w) e)
  ]

  -- Where no write fails, `raw_write` ends with a result.
  pub raw_write_total :
      WritesAll ops
      → (d : Disk) (buf : List ℕ) (pos : ℕ) → (r : ℕ × Disk) × (raw_write ops d buf pos ≡ ok r)
  unfolding raw_write
  raw_write_total all d buf pos =
      let ((p, d'), e) = raw_write_loop_total all (2 * length buf) d buf pos (ground arith) in
      ((p - pos, d'), rw e)
