-- ===== src/Db/Count/Ranges.antt =====
-- The items between two sequence numbers.
use couchstore.Base.{
  ℕ, ◌+◌, ◌≤◌, ◌<◌, ◌≡◌, ◌≢◌, refl, sym, ◌∙◌, arith, leb, if◌then◌else◌, ◌&&◌, List, [], ◌∷◌, ◌++◌,
  length, All,
}
use couchstore.Base.Order.{less, greater, cmp_ℕ}
use couchstore.KeyOrder.{seq_cmp, seq_cmp-cmp_ℕ}
use couchstore.NodeTypes.{Item, decode_sequence_key}

abbrev pub seq : Item → ℕ
seq i = decode_sequence_key i.key

-- 1 for a number within the bounds, else 0
abbrev pub counted : ℕ → ℕ → ℕ → ℕ
counted lo hi n = if leb lo n && leb n hi then 1 else 0

unfoldable pub count_range : ℕ → ℕ → List Item → ℕ
count_range lo hi [] = 0
count_range lo hi (i ∷ is) = counted lo hi (seq i) + count_range lo hi is

pub count_range-append :
    (lo hi : ℕ) (is js : List Item)
    → count_range lo hi (is ++ js) ≡ count_range lo hi is + count_range lo hi js
unfolding count_range
count_range-append lo hi [] js = omega arith
count_range-append lo hi (i ∷ is) js = omega (arith, count_range-append lo hi is js)

pub count_range-below :
    (lo hi : ℕ) (is : List Item) → All (λ i. seq i < lo) is → count_range lo hi is ≡ 0
unfolding count_range
count_range-below lo hi [] h = refl
count_range-below lo hi (i ∷ is) h = ground (arith, count_range-below lo hi is h.1)

pub count_range-above :
    (lo hi : ℕ) (is : List Item) → All (λ i. hi < seq i) is → count_range lo hi is ≡ 0
unfolding count_range
count_range-above lo hi [] h = refl
count_range-above lo hi (i ∷ is) h = ground (arith, count_range-above lo hi is h.1)

pub count_range-within :
    (lo hi : ℕ) (is : List Item)
    → All (λ i. lo ≤ seq i) is
    → All (λ i. seq i ≤ hi) is
    → count_range lo hi is ≡ length is
unfolding count_range
count_range-within lo hi [] h k = refl
count_range-within lo hi (i ∷ is) h k = ground (arith, count_range-within lo hi is h.1 k.1)

-- The comparison as an order of numbers.
pub seq_cmp-less :
    (a b : List ℕ) → seq_cmp a b ≡ less → decode_sequence_key a < decode_sequence_key b
seq_cmp-less a b h =
    by_numbers (decode_sequence_key a) (decode_sequence_key b) (sym (seq_cmp-cmp_ℕ a b) ∙ h)
  where
    by_numbers : (m n : ℕ) → cmp_ℕ m n ≡ less → m < n
    by_numbers m n e = ground arith

pub seq_cmp-not_greater :
    (a b : List ℕ) → seq_cmp a b ≢ greater → decode_sequence_key a ≤ decode_sequence_key b
seq_cmp-not_greater a b h =
    by_numbers (decode_sequence_key a) (decode_sequence_key b) (λ e. h (seq_cmp-cmp_ℕ a b ∙ e))
  where
    by_numbers : (m n : ℕ) → cmp_ℕ m n ≢ greater → m ≤ n
    by_numbers m n e = ground arith
