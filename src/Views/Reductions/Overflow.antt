-- ===== src/Views/Reductions/Overflow.antt =====
-- The counter of a reduction's values is a `uint8_t`: what decode_view_btree_reduction does with more.
use couchstore.Base.{
  ℕ, zero, suc, ◌+◌, ◌%◌, ◌^◌, ◌<◌, ◌≤◌, ◌≡◌, refl, ap, ◌∙◌, arith, List, [], ◌∷◌, ◌++◌, length,
  length-append, drop, All, drop-append_length, Result, ok, fault,
}
use couchstore.Bitfield.{encode_raw16, decode_raw16, encode_raw40}
use couchstore.Bitfield.Widths.{length-encode_raw40, drop-encode_raw40}
use couchstore.Views.Packed.{
  skip_sized, copy_sized, print_sized, print_all, count_entries, copy_entries, decode_entries,
}
use couchstore.Views.Packed.RoundTrip.{EntryLaws, sized-EntryLaws, count_step}
use couchstore.Views.Values.{raw16-SizeLaws}
use couchstore.Views.Reductions.{decode_view_btree_reduction}

module _ {ℓ} {A : Type ℓ} {Fits : A → Type 0} {print : A → List ℕ} {skip : List ℕ → Result (List ℕ)}
    {copy : List ℕ → A × List ℕ} (laws : EntryLaws Fits print skip copy) where
  count_wraps :
      (fuel n : ℕ) (entries : List A)
      → n < 256
      → All Fits entries
      → length (print_all print entries) ≤ fuel
      → count_entries skip 256 fuel (print_all print entries) n ≡ ok ((n + length entries) % 256)
  unfolding print_all count_entries
  count_wraps fuel n [] small f h = ap ok (omega arith)
  count_wraps zero n (a ∷ entries) small f h =
      absurd (omega (arith, laws.has_byte a, length-append (print a) (print_all print entries)))
  count_wraps (suc fuel) n (a ∷ entries) small f h =
      let bytes = length-append (print a) (print_all print entries) in
      let sum : ((n + 1) % 256 + length entries) % 256 ≡ (n + suc (length entries)) % 256 =
        omega arith in
      count_step laws 256 fuel n (print a ++ print_all print entries) (print_all print entries)
        (omega (arith, laws.has_byte a, bytes)) (laws.skipped a (print_all print entries) f.0)
      ∙ count_wraps fuel ((n + 1) % 256) entries (omega arith) f.1
          (omega (arith, laws.has_byte a, bytes))
      ∙ ap ok sum

  copy_none : (fuel : ℕ) (bs : List ℕ) → 0 < length bs → copy_entries copy fuel 0 bs ≡ fault
  unfolding copy_entries
  copy_none fuel [] h = absurd (omega arith)
  copy_none zero (b ∷ bs) h = refl
  copy_none (suc fuel) (b ∷ bs) h = refl

  copy_step_fault :
      (fuel room : ℕ) (bs rest : List ℕ) (a : A)
      → 0 < length bs
      → copy bs ≡ (a, rest)
      → copy_entries copy fuel room rest ≡ fault
      → copy_entries copy (suc fuel) (suc room) bs ≡ fault
  unfolding copy_entries
  copy_step_fault fuel room [] rest a h e k = absurd (omega arith)
  copy_step_fault fuel room (b ∷ bs) rest a h e k = rw (e, k) refl

  copy_too_many :
      (fuel room : ℕ) (entries : List A)
      → All Fits entries
      → room < length entries
      → copy_entries copy fuel room (print_all print entries) ≡ fault
  unfolding print_all
  copy_too_many fuel room [] f h = absurd (omega arith)
  copy_too_many fuel zero (a ∷ entries) f h =
      copy_none fuel (print a ++ print_all print entries)
        (omega (arith, laws.has_byte a, length-append (print a) (print_all print entries)))
  copy_too_many zero (suc room) (a ∷ entries) f h =
      copy_no_fuel (print a ++ print_all print entries)
        (omega (arith, laws.has_byte a, length-append (print a) (print_all print entries)))
    where
      copy_no_fuel : (bs : List ℕ) → 0 < length bs → copy_entries copy 0 (suc room) bs ≡ fault
      copy_no_fuel [] h = absurd (omega arith)
      copy_no_fuel (b ∷ bs) h = unfold copy_entries in refl
  copy_too_many (suc fuel) (suc room) (a ∷ entries) f h =
      copy_step_fault fuel room (print a ++ print_all print entries) (print_all print entries) a
        (omega (arith, laws.has_byte a, length-append (print a) (print_all print entries)))
        (laws.copied a (print_all print entries) f.0)
        (copy_too_many fuel room entries f.1 (omega arith))

  decode_too_many :
      (entries : List A)
      → All Fits entries
      → 256 ≤ length entries
      → decode_entries skip copy 256 (print_all print entries) ≡ fault
  unfolding decode_entries
  decode_too_many entries f h =
      rw (count_wraps (length (print_all print entries)) 0 entries (omega arith) f (omega arith)) (
        copy_too_many (length (print_all print entries)) ((0 + length entries) % 256) entries f
          (omega arith))

fault_parts :
    (bytes bitmap rest : List ℕ)
    → drop 5 bytes ≡ bitmap ++ rest
    → length bitmap ≡ 128
    → length bytes ≡ 5 + length (bitmap ++ rest)
    → decode_entries (skip_sized 2 decode_raw16) (copy_sized 2 decode_raw16) (2 ^ 8) rest ≡ fault
    → decode_view_btree_reduction bytes ≡ fault
unfolding decode_view_btree_reduction
fault_parts bytes bitmap rest f n h k =
    rw (f, drop-append_length 128 bitmap rest n, k) (ground (arith, length-append bitmap rest))

-- From the bytes of a count, a bitmap of 128 bytes and 256 values or more, each below 2^16 bytes,
-- decode_view_btree_reduction returns nothing: its counter has wrapped around, and it writes beyond
-- the end of the array of values.
pub decode_view_btree_reduction-print_all :
    (kv_count : ℕ) (bitmap : List ℕ) (values : List (List ℕ))
    → length bitmap ≡ 128
    → All (λ v. length v < 2 ^ 16) values
    → 256 ≤ length values
    → decode_view_btree_reduction
        (encode_raw40 kv_count ++ (bitmap ++ print_all (print_sized encode_raw16) values))
      ≡ fault
decode_view_btree_reduction-print_all kv_count bitmap values n sizes many =
    let rest = print_all (print_sized encode_raw16) values in
    let body = bitmap ++ rest in
    fault_parts (encode_raw40 kv_count ++ body) bitmap rest (drop-encode_raw40 kv_count body) n
      (length-append (encode_raw40 kv_count) body ∙ omega (arith, length-encode_raw40 kv_count))
      (decode_too_many (sized-EntryLaws raw16-SizeLaws (omega arith)) values sizes many)
