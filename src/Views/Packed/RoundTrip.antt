-- ===== src/Views/Packed/RoundTrip.antt =====
-- The loops give back what was packed, where the counter does not wrap around.
use couchstore.Base.{
  ℕ, zero, suc, ◌+◌, ◌%◌, ◌≤◌, ◌<◌, ◌≡◌, refl, ap, ap₂, ◌∙◌, arith, List, [], ◌∷◌, ◌++◌,
  append_assoc, length, length-append, drop, take-append_length, drop-append_length, All, Result,
  ok,
}
use native.Mathlib.Nat.{mod-eq_of_lt}
use couchstore.Views.Packed.{
  skip_sized, copy_sized, skip_keys, copy_keys, print_sized, print_all, count_entries, copy_entries,
  decode_entries,
}

-- Fixed-width sizes below `bound`.
pub record SizeLaws (width bound : ℕ) (enc : ℕ → List ℕ) (dec : List ℕ → ℕ) : Type 0 where
  pub encoded_length : (n : ℕ) → length (enc n) ≡ width
  pub decoded : (n : ℕ) (rest : List ℕ) → n < bound → dec (enc n ++ rest) ≡ n

-- An entry that is printed can be skipped and copied.
pub record EntryLaws {ℓ} {A : Type ℓ} (Fits : A → Type 0) (print : A → List ℕ)
    (skip : List ℕ → Result (List ℕ)) (copy : List ℕ → A × List ℕ) : Type ℓ where
  pub has_byte : (a : A) → 0 < length (print a)
  pub skipped : (a : A) (rest : List ℕ) → Fits a → skip (print a ++ rest) ≡ ok rest
  pub copied : (a : A) (rest : List ℕ) → Fits a → copy (print a ++ rest) ≡ (a, rest)

module _ {width bound : ℕ} {enc : ℕ → List ℕ} {dec : List ℕ → ℕ}
    (s : SizeLaws width bound enc dec) where
  sized_front :
      (v rest : List ℕ)
      → length v < bound
      → (dec ((enc (length v) ++ v) ++ rest) ≡ length v)
        × (drop width ((enc (length v) ++ v) ++ rest) ≡ v ++ rest)
  sized_front v rest h = rw (append_assoc (enc (length v)) v rest) (
    s.decoded (length v) (v ++ rest) h,
    drop-append_length width (enc (length v)) (v ++ rest) (s.encoded_length (length v)),
  )

  skipped_sized :
      (bs v rest : List ℕ)
      → dec bs ≡ length v
      → drop width bs ≡ v ++ rest
      → width ≤ length bs
      → skip_sized width dec bs ≡ ok rest
  unfolding skip_sized
  skipped_sized bs v rest e f h =
      let end : drop (length v) (v ++ rest) ≡ rest = drop-append_length (length v) v rest refl in
      rw (e, f, end) (ground (arith, length-append v rest))

  pub skip_sized-print_sized :
      (v rest : List ℕ)
      → length v < bound
      → skip_sized width dec (print_sized enc v ++ rest) ≡ ok rest
  unfolding print_sized
  skip_sized-print_sized v rest h =
      let (e, f) = sized_front v rest h in
      skipped_sized ((enc (length v) ++ v) ++ rest) v rest e f (
        omega (
          arith,
          length-append (enc (length v) ++ v) rest,
          length-append (enc (length v)) v,
          s.encoded_length (length v),
        ))

  pub copy_sized-print_sized :
      (v rest : List ℕ)
      → length v < bound
      → copy_sized width dec (print_sized enc v ++ rest) ≡ (v, rest)
  unfolding print_sized copy_sized
  copy_sized-print_sized v rest h =
      let (e, f) = sized_front v rest h in
      rw (e, f)
        (ap₂ (λ x y. (x, y)) (take-append_length (length v) v rest refl)
          (drop-append_length (length v) v rest refl))

  pub skip_keys-print_all :
      (vs : List (List ℕ)) (rest : List ℕ)
      → All (λ v. length v < bound) vs
      → skip_keys width dec (length vs) (print_all (print_sized enc) vs ++ rest) ≡ ok rest
  unfolding skip_keys print_all
  skip_keys-print_all [] rest h = refl
  skip_keys-print_all (v ∷ vs) rest h =
      rw
        (
          append_assoc (print_sized enc v) (print_all (print_sized enc) vs) rest,
          skip_sized-print_sized v (print_all (print_sized enc) vs ++ rest) h.0,
        )
        (skip_keys-print_all vs rest h.1)

  pub copy_keys-print_all :
      (vs : List (List ℕ)) (rest : List ℕ)
      → All (λ v. length v < bound) vs
      → copy_keys width dec (length vs) (print_all (print_sized enc) vs ++ rest) ≡ (vs, rest)
  unfolding copy_keys print_all
  copy_keys-print_all [] rest h = refl
  copy_keys-print_all (v ∷ vs) rest h =
      rw
        (
          append_assoc (print_sized enc v) (print_all (print_sized enc) vs) rest,
          copy_sized-print_sized v (print_all (print_sized enc) vs ++ rest) h.0,
          copy_keys-print_all vs rest h.1,
        )
        refl

  pub sized-EntryLaws :
      0 < width
      → EntryLaws
          (λ v. length v < bound)
          (print_sized enc)
          (skip_sized width dec)
          (copy_sized width dec)
  sized-EntryLaws pos = record {
    has_byte = λ v.
        unfold print_sized in
        omega (arith, length-append (enc (length v)) v, s.encoded_length (length v));
    skipped = skip_sized-print_sized;
    copied = copy_sized-print_sized;
  }

module _ {ℓ} {A : Type ℓ} {Fits : A → Type 0} {print : A → List ℕ} {skip : List ℕ → Result (List ℕ)}
    {copy : List ℕ → A × List ℕ} (laws : EntryLaws Fits print skip copy) where
  pub count_step :
      (cells fuel n : ℕ) (bs rest : List ℕ)
      → 0 < length bs
      → skip bs ≡ ok rest
      → count_entries skip cells (suc fuel) bs n
        ≡ count_entries skip cells fuel rest ((n + 1) % cells)
  unfolding count_entries
  count_step cells fuel n [] rest h e = absurd (omega arith)
  count_step cells fuel n (b ∷ bs) rest h e = rw e refl

  copy_step :
      (fuel room : ℕ) (bs rest : List ℕ) (a : A) (entries : List A)
      → 0 < length bs
      → copy bs ≡ (a, rest)
      → copy_entries copy fuel room rest ≡ ok entries
      → copy_entries copy (suc fuel) (suc room) bs ≡ ok (a ∷ entries)
  unfolding copy_entries
  copy_step fuel room [] rest a entries h e k = absurd (omega arith)
  copy_step fuel room (b ∷ bs) rest a entries h e k = rw (e, k) refl

  pub count_entries-print_all :
      (cells fuel n : ℕ) (entries : List A)
      → All Fits entries
      → length (print_all print entries) ≤ fuel
      → n + length entries < cells
      → count_entries skip cells fuel (print_all print entries) n ≡ ok (n + length entries)
  unfolding print_all count_entries
  count_entries-print_all cells fuel n [] f h lt = ap ok (omega arith)
  count_entries-print_all cells zero n (a ∷ entries) f h lt =
      absurd (omega (arith, laws.has_byte a, length-append (print a) (print_all print entries)))
  count_entries-print_all cells (suc fuel) n (a ∷ entries) f h lt =
      let more : (n + 1) % cells ≡ n + 1 = mod-eq_of_lt (omega arith) in
      let sum : n + 1 + length entries ≡ n + suc (length entries) = omega arith in
      count_step cells fuel n (print a ++ print_all print entries) (print_all print entries)
        (omega (arith, laws.has_byte a, length-append (print a) (print_all print entries)))
        (laws.skipped a (print_all print entries) f.0)
      ∙ rw more (
          count_entries-print_all cells fuel (n + 1) entries f.1
            (omega (arith, laws.has_byte a, length-append (print a) (print_all print entries)))
            (omega arith)
          ∙ ap ok sum)

  pub copy_entries-print_all :
      (fuel : ℕ) (entries : List A)
      → All Fits entries
      → length (print_all print entries) ≤ fuel
      → copy_entries copy fuel (length entries) (print_all print entries) ≡ ok entries
  unfolding print_all copy_entries
  copy_entries-print_all fuel [] f h = refl
  copy_entries-print_all zero (a ∷ entries) f h =
      absurd (omega (arith, laws.has_byte a, length-append (print a) (print_all print entries)))
  copy_entries-print_all (suc fuel) (a ∷ entries) f h =
      copy_step fuel (length entries) (print a ++ print_all print entries) (print_all print entries)
        a entries
        (omega (arith, laws.has_byte a, length-append (print a) (print_all print entries)))
        (laws.copied a (print_all print entries) f.0)
        (copy_entries-print_all fuel entries f.1
          (omega (arith, laws.has_byte a, length-append (print a) (print_all print entries))))

  pub decode_entries-print_all :
      (cells : ℕ) (entries : List A)
      → All Fits entries
      → length entries < cells
      → decode_entries skip copy cells (print_all print entries) ≡ ok entries
  unfolding decode_entries
  decode_entries-print_all cells entries f h =
      rw
        (count_entries-print_all cells (length (print_all print entries)) 0 entries f (omega arith)
          (omega arith))
        (let same : 0 + length entries ≡ length entries = omega arith in
          rw same
            (copy_entries-print_all (length (print_all print entries)) entries f (omega arith)))
