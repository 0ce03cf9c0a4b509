-- ===== src/Views/Bitmap.antt =====
-- src/views/bitmap.c: bitmaps of 1024 partitions, as 128 bytes whose last one has the lowest bits.
-- A bit from 1024 on lies outside of the array.
pub mod Common
use Prim.Native.Nat.{bit_and, bit_or}
use couchstore.Base.{
  ℕ, zero, suc, ◌+◌, ◌-◌, ◌*◌, ◌/◌, ◌%◌, ◌^◌, ◌<◌, ◌≡◌, ◌≢◌, refl, sym, ap, subst, Bool-cases, inl,
  inr, ◌∙◌, arith, ltb, ◌==◌, not, Bool, true, false, ◌||◌, ◌&&◌, List, [], ◌∷◌, length, get_or,
  set, All, Result, ok, assert, ◌>>◌,
}
use couchstore.Base.Bits.{holds_below, holds_at}

-- CHUNK_INDEX
abbrev pub chunk_index : ℕ → ℕ
chunk_index bit = 127 - bit / 8

unfoldable pub is_bit_set : List ℕ → ℕ → Result Bool
is_bit_set bm bit = do
  assert (ltb bit 1024)
  ok (not (bit_and (get_or bm (chunk_index bit) 0) (2 ^ (bit % 8)) == 0))

unfoldable pub set_bit : List ℕ → ℕ → Result (List ℕ)
set_bit bm bit = do
  assert (ltb bit 1024)
  ok (set bm (chunk_index bit) (bit_or (get_or bm (chunk_index bit) 0) (2 ^ (bit % 8))))

-- The complement of a power of two is taken in an `int`, and its low byte is kept.
unfoldable pub unset_bit : List ℕ → ℕ → Result (List ℕ)
unset_bit bm bit = do
  assert (ltb bit 1024)
  ok (set bm (chunk_index bit) (bit_and (get_or bm (chunk_index bit) 0) (255 - 2 ^ (bit % 8))))

-- The loops over all chunks, with the operation on two bytes.
unfoldable pub each_chunk : (ℕ → ℕ → ℕ) → List ℕ → List ℕ → List ℕ
each_chunk op [] src = []
each_chunk op (d ∷ dst) [] = d ∷ dst
each_chunk op (d ∷ dst) (s ∷ src) = op d s ∷ each_chunk op dst src

unfoldable pub union_bitmaps : List ℕ → List ℕ → List ℕ
union_bitmaps dst_bm src_bm = each_chunk bit_or dst_bm src_bm

unfoldable pub intersect_bitmaps : List ℕ → List ℕ → List ℕ
intersect_bitmaps dst_bm src_bm = each_chunk bit_and dst_bm src_bm

-- `!memcmp(bm1, bm2, sizeof(bitmap_t))`
unfoldable pub is_equal_bitmap : List ℕ → List ℕ → Bool
is_equal_bitmap [] [] = true
is_equal_bitmap [] (b ∷ bs) = false
is_equal_bitmap (a ∷ bm1) [] = false
is_equal_bitmap (a ∷ bm1) (b ∷ bm2) = a == b && is_equal_bitmap bm1 bm2

-- A bitmap: 128 bytes.
pub record IsBitmap (bm : List ℕ) : Type 0 where
  pub chunks : length bm ≡ 128
  pub bytes : All (λ b. b < 256) bm

-- Whether bit `j` of a byte is set.
abbrev pub has_bit : ℕ → ℕ → Bool
has_bit c j = not (bit_and c (2 ^ j) == 0)

same_bool : Bool → Bool → Bool
same_bool true b = b
same_bool false b = not b

same_bool_sound : (a b : Bool) → same_bool a b ≡ true → a ≡ b
unfolding same_bool
same_bool_sound true b h = sym h
same_bool_sound false true h = cc
same_bool_sound false false h = refl

-- A law of bytes and two bits of them, from a table of all.
module _ (f g : ℕ → ℕ → ℕ → Bool) where
  row : ℕ → Bool
  row x = same_bool (f (x / 64) (x / 8 % 8) (x % 8)) (g (x / 64) (x / 8 % 8) (x % 8))

  by_table :
      holds_below 16384 row ≡ true → (c k j : ℕ) → c < 256 → k < 8 → j < 8 → f c k j ≡ g c k j
  unfolding row
  by_table t c k j h l m =
      let x = c * 64 + (k * 8 + j) in
      let e : x / 64 ≡ c = omega arith in
      let e' : x / 8 % 8 ≡ k = omega arith in
      let e'' : x % 8 ≡ j = omega arith in
      let r = same_bool_sound _ _ (holds_at row 16384 x (omega arith) t) in
      subst (λ (u : ℕ). f c k u ≡ g c k u) e''
        (subst (λ (u : ℕ). f c u (x % 8) ≡ g c u (x % 8)) e'
          (subst (λ (u : ℕ). f u (x / 8 % 8) (x % 8) ≡ g u (x / 8 % 8) (x % 8)) e r))

has_bit-or :
    (c k j : ℕ) → c < 256 → k < 8 → j < 8 → has_bit (bit_or c (2 ^ k)) j ≡ (k == j || has_bit c j)
unfolding holds_below row same_bool
has_bit-or = by_table (λ c k j. has_bit (bit_or c (2 ^ k)) j) (λ c k j. k == j || has_bit c j) refl

has_bit-and :
    (c k j : ℕ)
    → c < 256
    → k < 8
    → j < 8
    → has_bit (bit_and c (255 - 2 ^ k)) j ≡ (not (k == j) && has_bit c j)
unfolding holds_below row same_bool
has_bit-and =
    by_table (λ c k j. has_bit (bit_and c (255 - 2 ^ k)) j) (λ c k j. not (k == j) && has_bit c j)
      refl

get-set_same : (bm : List ℕ) (i v : ℕ) → i < length bm → get_or (set bm i v) i 0 ≡ v
get-set_same [] i v h = absurd (omega arith)
get-set_same (b ∷ bm) zero v h = refl
get-set_same (b ∷ bm) (suc i) v h = get-set_same bm i v (omega arith)

get-set_other : (bm : List ℕ) (i j v : ℕ) → i ≢ j → get_or (set bm i v) j 0 ≡ get_or bm j 0
get-set_other [] i j v h = refl
get-set_other (b ∷ bm) zero zero v h = absurd (h refl)
get-set_other (b ∷ bm) zero (suc j) v h = refl
get-set_other (b ∷ bm) (suc i) zero v h = refl
get-set_other (b ∷ bm) (suc i) (suc j) v h = get-set_other bm i j v (λ e. h (ap suc e))

get_byte : (bm : List ℕ) (i : ℕ) → All (λ b. b < 256) bm → get_or bm i 0 < 256
get_byte [] i h = omega arith
get_byte (b ∷ bm) zero h = h.0
get_byte (b ∷ bm) (suc i) h = get_byte bm i h.1

-- A change of one chunk, which `law` describes by its bits, as all bits of the bitmap show it.
module _ (op : ℕ → ℕ → ℕ) (value : Bool → Bool → Bool) where
  abbrev ByteLaw : Type 0
  ByteLaw =
      (c k j : ℕ) → c < 256 → k < 8 → j < 8 → has_bit (op c k) j ≡ value (k == j) (has_bit c j)

  changed_chunk :
      (bm : List ℕ) (bit other : ℕ)
      → ((b : Bool) → value false b ≡ b)
      → ByteLaw
      → IsBitmap bm
      → bit < 1024
      → other < 1024
      → has_bit
          (get_or
            (set bm (chunk_index bit) (op (get_or bm (chunk_index bit) 0) (bit % 8)))
            (chunk_index other)
            0)
          (other % 8)
        ≡ value (bit == other) (has_bit (get_or bm (chunk_index other) 0) (other % 8))
  changed_chunk bm bit other keep law w h k =
      let c = get_or bm (chunk_index bit) 0 in
      elim (Bool-cases (bit / 8 == other / 8)) [
        | inl t ↦
            let same : bit / 8 ≡ other / 8 = ground arith in
            let here : chunk_index other ≡ chunk_index bit = omega arith in
            let test : (bit % 8 == other % 8) ≡ (bit == other) = ground arith in
            rw (here, get-set_same bm (chunk_index bit) (op c (bit % 8)) (omega (arith, w.chunks)))
              (law c (bit % 8) (other % 8) (get_byte bm (chunk_index bit) w.bytes) (omega arith)
                  (omega arith)
                ∙ ap (λ t. value t (has_bit c (other % 8))) test)
        | inr t ↦
            let differ : bit / 8 ≢ other / 8 = ground arith in
            let test : (bit == other) ≡ false = ground arith in
            rw
              (
                get-set_other bm (chunk_index bit) (chunk_index other) (op c (bit % 8))
                    (omega arith),
                test,
              )
              (sym (keep (has_bit (get_or bm (chunk_index other) 0) (other % 8))))
      ]

-- In a bitmap of 128 bytes, set_bit that succeeds sets its bit and leaves every other bit below 1024
-- as it was.
pub is_bit_set-set_bit :
    (bm bm' : List ℕ) (bit other : ℕ) (before : Bool)
    → IsBitmap bm
    → other < 1024
    → set_bit bm bit ≡ ok bm'
    → is_bit_set bm other ≡ ok before
    → is_bit_set bm' other ≡ ok (bit == other || before)
unfolding is_bit_set set_bit
is_bit_set-set_bit bm bm' bit other before w k e r =
    let c = get_or bm (chunk_index bit) 0 in
    let small : bit < 1024 = ground arith in
    let at : set bm (chunk_index bit) (bit_or c (2 ^ (bit % 8))) ≡ bm' = ground arith in
    let was : has_bit (get_or bm (chunk_index other) 0) (other % 8) ≡ before = ground arith in
    let in_range : ltb other 1024 ≡ true = ground arith in
    rw (← at, in_range)
      (ap ok (
        changed_chunk (λ c k. bit_or c (2 ^ k)) (λ a b. a || b) bm bit other (λ b. refl) has_bit-or
          w small k
        ∙ ap (λ t. bit == other || t) was))

-- In a bitmap of 128 bytes, unset_bit that succeeds clears its bit and leaves every other bit below
-- 1024 as it was.
pub is_bit_set-unset_bit :
    (bm bm' : List ℕ) (bit other : ℕ) (before : Bool)
    → IsBitmap bm
    → other < 1024
    → unset_bit bm bit ≡ ok bm'
    → is_bit_set bm other ≡ ok before
    → is_bit_set bm' other ≡ ok (not (bit == other) && before)
unfolding is_bit_set unset_bit
is_bit_set-unset_bit bm bm' bit other before w k e r =
    let c = get_or bm (chunk_index bit) 0 in
    let small : bit < 1024 = ground arith in
    let at : set bm (chunk_index bit) (bit_and c (255 - 2 ^ (bit % 8))) ≡ bm' = ground arith in
    let was : has_bit (get_or bm (chunk_index other) 0) (other % 8) ≡ before = ground arith in
    let in_range : ltb other 1024 ≡ true = ground arith in
    rw (← at, in_range)
      (ap ok (
        changed_chunk (λ c k. bit_and c (255 - 2 ^ k)) (λ a b. not a && b) bm bit other (λ b. refl)
          has_bit-and w small k
        ∙ ap (λ t. not (bit == other) && t) was))
