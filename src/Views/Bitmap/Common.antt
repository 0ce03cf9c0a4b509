-- ===== src/Views/Bitmap/Common.antt =====
-- The bits that two bitmaps of src/views/bitmap.c have in common.
use Prim.Native.Nat.{bit_and}
use couchstore.Base.{
  ℕ, zero, suc, ◌+◌, ◌-◌, ◌*◌, ◌%◌, ◌<◌, ◌≡◌, ◌≢◌, refl, sym, ap, ap₂, ◌∙◌, arith, ltb, ◌==◌, true,
  List, [], ◌∷◌, length, get_or, replicate, ok, Bool-cases, inl, inr,
}
use couchstore.Base.Bits.{and_nothing, digit, holds_below, and_zero, and_some}
use couchstore.Views.Bitmap.{
  is_bit_set, intersect_bitmaps, each_chunk, chunk_index, IsBitmap, has_bit, by_table, row,
  same_bool, get_byte,
}

-- Both bitmaps have this bit, which is below 1024.
abbrev pub HaveBit : List ℕ → List ℕ → ℕ → Type 0
HaveBit a b bit = (is_bit_set a bit ≡ ok true) × (is_bit_set b bit ≡ ok true)

has_bit-digit : (c j : ℕ) → c < 256 → j < 8 → has_bit c j ≡ digit j c
unfolding holds_below row same_bool digit
has_bit-digit c j h k =
    by_table (λ c k j. has_bit c j) (λ c k j. digit j c) refl c 0 j h (omega arith) k

get-intersect :
    (a b : List ℕ) (i : ℕ)
    → length a ≡ length b
    → get_or (intersect_bitmaps a b) i 0 ≡ bit_and (get_or a i 0) (get_or b i 0)
unfolding intersect_bitmaps each_chunk
get-intersect [] [] i e = sym (and_nothing 0)
get-intersect [] (y ∷ b) i e = absurd (omega arith)
get-intersect (x ∷ a) [] i e = absurd (omega arith)
get-intersect (x ∷ a) (y ∷ b) zero e = refl
get-intersect (x ∷ a) (y ∷ b) (suc i) e = get-intersect a b i (omega arith)

get-replicate : (n i : ℕ) → get_or (replicate n (zero)) i zero ≡ zero
get-replicate zero i = refl
get-replicate (suc n) zero = refl
get-replicate (suc n) (suc i) = get-replicate n i

-- A chunk in which two lists of bytes have digits in common.
differ_at :
    (a b : List ℕ)
    → length a ≡ length b
    → intersect_bitmaps a b ≢ replicate (length a) 0
    → (i : ℕ) × (i < length a) × (bit_and (get_or a i 0) (get_or b i 0) ≢ 0)
unfolding intersect_bitmaps each_chunk
differ_at [] [] e n = absurd (n refl)
differ_at [] (y ∷ b) e n = absurd (omega arith)
differ_at (x ∷ a) [] e n = absurd (omega arith)
differ_at (x ∷ a) (y ∷ b) e n = elim (Bool-cases (bit_and x y == 0)) [
  | inl t ↦
      let z : bit_and x y ≡ 0 = ground arith in
      let (i, small, found) = differ_at a b (omega arith) (λ r. n (ap₂ (λ u v. u ∷ v) z r)) in
      (suc i, omega arith, found)
  | inr t ↦ (zero, omega arith, ground arith)
]

-- A bit as a digit of its chunk.
is_bit_set-digit :
    (bm : List ℕ) (bit : ℕ)
    → IsBitmap bm
    → bit < 1024
    → is_bit_set bm bit ≡ ok (digit (bit % 8) (get_or bm (chunk_index bit) 0))
unfolding is_bit_set
is_bit_set-digit bm bit w h =
    let in_range : ltb bit 1024 ≡ true = ground arith in
    rw in_range (
      ap ok (
        has_bit-digit (get_or bm (chunk_index bit) 0) (bit % 8)
          (get_byte bm (chunk_index bit) w.bytes) (omega arith)))

below_1024 : (bm : List ℕ) (bit : ℕ) → is_bit_set bm bit ≡ ok true → bit < 1024
unfolding is_bit_set
below_1024 bm bit h = ground arith

pub intersect-none :
    (a b : List ℕ) (bit : ℕ)
    → IsBitmap a
    → IsBitmap b
    → intersect_bitmaps a b ≡ replicate 128 0
    → HaveBit a b bit
    → ⊥
intersect-none a b bit w v z (p, q) =
    let small = below_1024 a bit p in
    let set_in_a : ok (digit (bit % 8) (get_or a (chunk_index bit) 0)) ≡ ok true =
      sym (is_bit_set-digit a bit w small) ∙ p in
    let set_in_b : ok (digit (bit % 8) (get_or b (chunk_index bit) 0)) ≡ ok true =
      sym (is_bit_set-digit b bit v small) ∙ q in
    let nothing : bit_and (get_or a (chunk_index bit) 0) (get_or b (chunk_index bit) 0) ≡ 0 =
      sym (get-intersect a b (chunk_index bit) (omega (arith, w.chunks, v.chunks)))
      ∙ ap (λ (t : List ℕ). get_or t (chunk_index bit) 0) z
      ∙ get-replicate 128 (chunk_index bit) in
    let without =
      and_zero (bit % 8) (get_or a (chunk_index bit) 0) (get_or b (chunk_index bit) 0) nothing
        (cc) in
    cc

pub intersect-some :
    (a b : List ℕ)
    → IsBitmap a
    → IsBitmap b
    → intersect_bitmaps a b ≢ replicate 128 0
    → (bit : ℕ) × HaveBit a b bit
intersect-some a b w v n =
    let (i, inside, found) =
      differ_at a b (omega (arith, w.chunks, v.chunks))
        (λ r. n (r ∙ ap (λ (t : ℕ). replicate t 0) w.chunks)) in
    let (j, low, of_a, of_b) =
      and_some 8 (get_or a i 0) (get_or b i 0) (get_byte a i w.bytes) found in
    let bit = (127 - i) * 8 + j in
    let chunk : chunk_index bit ≡ i = omega (arith, w.chunks) in
    let digit_of : bit % 8 ≡ j = omega (arith, w.chunks) in
    (
      bit,
      (
        is_bit_set-digit a bit w (omega arith) ∙ rw (chunk, digit_of) (ap ok of_a),
        is_bit_set-digit b bit v (omega arith) ∙ rw (chunk, digit_of) (ap ok of_b),
      ),
    )
