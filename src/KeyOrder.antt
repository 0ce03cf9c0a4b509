-- ===== src/KeyOrder.antt =====
-- The comparison functions of src/util.cc: the orders of document ids and of sequence numbers.
-- A negative, zero or positive `int` is a sign.
use couchstore.Base.{
  ℕ, zero, suc, ◌%◌, ◌^◌, ◌≡◌, refl, sym, ap, ◌∙◌, arith, ltb, ◌==◌, if◌then◌else◌, List, [], ◌∷◌,
  ◌++◌, length,
}
use couchstore.Base.Order.{Cmp, less, equal, greater, cmp_ℕ, cmp_ℕ-IsComparator, IsComparator}
use couchstore.Bitfield.{encode_raw48}
use couchstore.Bitfield.Widths.{decode-encode_raw48}
use couchstore.NodeTypes.{decode_sequence_key}

-- memcmp of the C library: the first bytes that differ decide.
unfoldable pub memcmp : List ℕ → List ℕ → ℕ → Cmp
memcmp s1 s2 zero = equal
memcmp [] s2 (suc n) = equal
memcmp (a ∷ s1) [] (suc n) = equal
memcmp (a ∷ s1) (b ∷ s2) (suc n) = elim (cmp_ℕ a b) [
  | less ↦ less
  | equal ↦ memcmp s1 s2 n
  | greater ↦ greater
]

unfoldable pub ebin_cmp : List ℕ → List ℕ → Cmp
ebin_cmp e1 e2 =
    let size = if ltb (length e2) (length e1) then length e2 else length e1 in
    elim (memcmp e1 e2 size) [
      | less ↦ less
      | equal ↦
          if ltb size (length e2) then less else if ltb size (length e1) then greater else equal
      | greater ↦ greater
    ]

unfoldable pub seq_cmp : List ℕ → List ℕ → Cmp
seq_cmp k1 k2 =
    let e1val = decode_sequence_key k1 in
    let e2val = decode_sequence_key k2 in
    if e1val == e2val then equal else if ltb e1val e2val then less else greater

-- The order of words.
unfoldable pub lexicographic : List ℕ → List ℕ → Cmp
lexicographic [] [] = equal
lexicographic [] (b ∷ bs) = less
lexicographic (a ∷ tail) [] = greater
lexicographic (a ∷ tail) (b ∷ bs) = elim (cmp_ℕ a b) [
  | less ↦ less
  | equal ↦ lexicographic tail bs
  | greater ↦ greater
]

-- The comparison ebin_cmp, a memcmp of the common length and a comparison of the lengths, orders
-- byte strings as words.
pub ebin_cmp-lexicographic : (e1 e2 : List ℕ) → ebin_cmp e1 e2 ≡ lexicographic e1 e2
unfolding ebin_cmp lexicographic memcmp
ebin_cmp-lexicographic [] [] = refl
ebin_cmp-lexicographic [] (b ∷ bs) = ground arith
ebin_cmp-lexicographic (a ∷ tail) [] = ground arith
ebin_cmp-lexicographic (a ∷ tail) (b ∷ bs) = ground (arith, ebin_cmp-lexicographic tail bs)

lexicographic_same : (a : List ℕ) → lexicographic a a ≡ equal
unfolding lexicographic
lexicographic_same [] = refl
lexicographic_same (x ∷ a) = ground (arith, lexicographic_same a)

lexicographic_turn_less : (a b : List ℕ) → lexicographic a b ≡ less → lexicographic b a ≡ greater
unfolding lexicographic
lexicographic_turn_less [] [] h = cc
lexicographic_turn_less [] (y ∷ b) h = refl
lexicographic_turn_less (x ∷ a) [] h = cc
lexicographic_turn_less (x ∷ a) (y ∷ b) h = ground (arith, lexicographic_turn_less a b)

lexicographic_turn_greater : (a b : List ℕ) → lexicographic a b ≡ greater → lexicographic b a ≡ less
unfolding lexicographic
lexicographic_turn_greater [] [] h = cc
lexicographic_turn_greater [] (y ∷ b) h = cc
lexicographic_turn_greater (x ∷ a) [] h = refl
lexicographic_turn_greater (x ∷ a) (y ∷ b) h = ground (arith, lexicographic_turn_greater a b)

lexicographic_trans :
    (a b c : List ℕ)
    → lexicographic a b ≡ less
    → lexicographic b c ≡ less
    → lexicographic a c ≡ less
unfolding lexicographic
lexicographic_trans [] b [] h k = ground arith
lexicographic_trans [] b (z ∷ c) h k = refl
lexicographic_trans (x ∷ a) [] c h k = cc
lexicographic_trans (x ∷ a) (y ∷ b) [] h k = cc
lexicographic_trans (x ∷ a) (y ∷ b) (z ∷ c) h k = ground (arith, lexicographic_trans a b c)

-- Byte strings that compare equal are the same.
pub lexicographic_equal : (a b : List ℕ) → lexicographic a b ≡ equal → a ≡ b
unfolding lexicographic
lexicographic_equal [] [] h = refl
lexicographic_equal [] (y ∷ b) h = cc
lexicographic_equal (x ∷ a) [] h = cc
lexicographic_equal (x ∷ a) (y ∷ b) h = ground (arith, lexicographic_equal a b)

-- The comparison ebin_cmp of document ids is a total order: a total preorder in which only the same
-- byte strings are equal.
pub ebin_cmp-IsComparator : IsComparator ebin_cmp × ((a b : List ℕ) → ebin_cmp a b ≡ equal → a ≡ b)
ebin_cmp-IsComparator = (
  record {
    same = λ a. ebin_cmp-lexicographic a a ∙ lexicographic_same a;
    turn_less = λ a b h.
        ebin_cmp-lexicographic b a
        ∙ lexicographic_turn_less a b (sym (ebin_cmp-lexicographic a b) ∙ h);
    turn_greater = λ a b h.
        ebin_cmp-lexicographic b a
        ∙ lexicographic_turn_greater a b (sym (ebin_cmp-lexicographic a b) ∙ h);
    trans = λ a b c h k.
        ebin_cmp-lexicographic a c
        ∙ lexicographic_trans a b c (sym (ebin_cmp-lexicographic a b) ∙ h)
            (sym (ebin_cmp-lexicographic b c) ∙ k);
    congr = λ a b c h.
        ap (λ (t : List ℕ). ebin_cmp t c)
          (lexicographic_equal a b (sym (ebin_cmp-lexicographic a b) ∙ h));
  },
  λ a b h. lexicographic_equal a b (sym (ebin_cmp-lexicographic a b) ∙ h),
)

pub seq_cmp-cmp_ℕ :
    (a b : List ℕ) → seq_cmp a b ≡ cmp_ℕ (decode_sequence_key a) (decode_sequence_key b)
unfolding seq_cmp
seq_cmp-cmp_ℕ a b = ground arith

pub seq_cmp-IsComparator : IsComparator seq_cmp
seq_cmp-IsComparator = record {
  same = λ a. seq_cmp-cmp_ℕ a a ∙ cmp_ℕ-IsComparator.same (decode_sequence_key a);
  turn_less = λ a b h.
      seq_cmp-cmp_ℕ b a
      ∙ cmp_ℕ-IsComparator.turn_less (decode_sequence_key a) (decode_sequence_key b)
          (sym (seq_cmp-cmp_ℕ a b) ∙ h);
  turn_greater = λ a b h.
      seq_cmp-cmp_ℕ b a
      ∙ cmp_ℕ-IsComparator.turn_greater (decode_sequence_key a) (decode_sequence_key b)
          (sym (seq_cmp-cmp_ℕ a b) ∙ h);
  trans = λ a b c h k.
      seq_cmp-cmp_ℕ a c
      ∙ cmp_ℕ-IsComparator.trans (decode_sequence_key a) (decode_sequence_key b)
          (decode_sequence_key c) (sym (seq_cmp-cmp_ℕ a b) ∙ h) (sym (seq_cmp-cmp_ℕ b c) ∙ k);
  congr = λ a b c h.
      seq_cmp-cmp_ℕ a c
      ∙ cmp_ℕ-IsComparator.congr (decode_sequence_key a) (decode_sequence_key b)
          (decode_sequence_key c) (sym (seq_cmp-cmp_ℕ a b) ∙ h)
      ∙ sym (seq_cmp-cmp_ℕ b c);
}

-- Sequence keys that begin with the encoded numbers are ordered by seq_cmp as the numbers modulo
-- 2^48.
pub seq_cmp-encode_raw48 :
    (m n : ℕ) (rest rest' : List ℕ)
    → seq_cmp (encode_raw48 m ++ rest) (encode_raw48 n ++ rest') ≡ cmp_ℕ (m % 2 ^ 48) (n % 2 ^ 48)
unfolding decode_sequence_key
seq_cmp-encode_raw48 m n rest rest' =
    seq_cmp-cmp_ℕ (encode_raw48 m ++ rest) (encode_raw48 n ++ rest')
    ∙ rw (decode-encode_raw48 m rest, decode-encode_raw48 n rest') refl
