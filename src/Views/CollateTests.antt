-- ===== src/Views/CollateTests.antt =====
-- JSON texts and view keys, collated with a strtod of decimal digits and a bytewise ICU.
use couchstore.Base.{
  ℕ, suc, ◌+◌, ◌-◌, ◌*◌, ◌≡◌, refl, arith, true, false, ltb, List, [], ◌∷◌, Result, ok, fault, some,
}
use couchstore.Base.Order.{Cmp, less, equal, greater}
use couchstore.KeyOrder.{ebin_cmp, memcmp}
use couchstore.Views.Keys.{encode_view_btree_key}
use couchstore.Views.Collate.{
  Icu, Strtod, is_digit, unicode, raw, ascii, collate_json, value_type_of, compare_tokens,
  read_number, compare_strings, compare_strings_unicode, create_string_from_json, string_char,
  convert_json_escape, digit_to_int, both, compare_unicode, compare_converted, compare_unicode_slow,
  convert_utf8_to_uchar, compare_strings_ascii, CollateJsonMode,
}
use couchstore.Views.KeyCmp.{view_key_cmp, then_by}
use couchstore.Views.KeyCmp.Arrays.{array_key, view_key_cmp-print_array}
use couchstore.Views.Collate.Arrays.{Number, IsRead, print_array, print_more, compare_numbers}
use couchstore.Base.{Bool-cases, inl, inr, subst, ◌≤◌, ◌==◌, ◌||◌}

-- The digits at the start of a text, and the value of those after a number.
unfoldable digits : List ℕ → ℕ
digits [] = 0
digits (c ∷ s) = elim (is_digit c) [ true ↦ suc (digits s) | false ↦ 0 ]

unfoldable decimal : ℕ → List ℕ → ℕ
decimal value [] = value
decimal value (c ∷ s) = elim (is_digit c) [
  | true ↦ decimal (value * 10 + (c - 48)) s
  | false ↦ value
]

abbrev read_decimal : List ℕ → Strtod ℕ
read_decimal s = record { value = decimal 0 s; consumed = digits s; looked = suc (digits s) }

abbrev bytewise : Icu
bytewise = record {
  opens = true;
  to_unicode = λ s. some s;
  strcoll = ebin_cmp;
  strcoll_iter = λ a b. some (ebin_cmp a b);
}

abbrev collate : CollateJsonMode → List ℕ → List ℕ → Result Cmp
collate mode a b = collate_json read_decimal ltb bytewise mode 20 0 a b

-- [1,10] is above [1,9]; "a" with an escape equals "a"; in the raw order a string is above an array;
-- [- and [- do not end.
collated :
    (collate unicode (91 ∷ 49 ∷ 44 ∷ 49 ∷ 48 ∷ 93 ∷ []) (91 ∷ 49 ∷ 44 ∷ 57 ∷ 93 ∷ []) ≡ ok greater)
    × (collate unicode (34 ∷ 97 ∷ 34 ∷ []) (34 ∷ 92 ∷ 117 ∷ 48 ∷ 48 ∷ 54 ∷ 49 ∷ 34 ∷ []) ≡ ok equal)
    × (collate ascii (34 ∷ 97 ∷ 34 ∷ []) (34 ∷ 98 ∷ 34 ∷ []) ≡ ok less)
    × (collate raw (34 ∷ 97 ∷ 34 ∷ []) (91 ∷ 93 ∷ []) ≡ ok greater)
    × (collate unicode (91 ∷ 45 ∷ 120 ∷ []) (91 ∷ 45 ∷ 120 ∷ []) ≡ fault)
unfolding collate_json value_type_of compare_tokens read_number digits decimal compare_strings
    compare_strings_unicode create_string_from_json string_char convert_json_escape digit_to_int
    both compare_unicode compare_converted compare_unicode_slow convert_utf8_to_uchar
    compare_strings_ascii ebin_cmp memcmp
collated = (refl, refl, refl, refl, refl)

-- A property of the bytes that may follow a number.
at_end : (P : ℕ → Type 0) → P 44 → P 93 → (b : ℕ) → (b == 44 || b == 93) ≡ true → P b
at_end P comma bracket b e = elim (Bool-cases (b == 44)) [
  | inl t ↦ let same : 44 ≡ b = ground arith in subst P same comma
  | inr t ↦ let same : 93 ≡ b = ground arith in subst P same bracket
]

abbrev one : Number ℕ
one = record { first = 49; others = []; value = 1 }

abbrev ten : Number ℕ
ten = record { first = 49; others = 48 ∷ []; value = 10 }

one-IsRead : IsRead read_decimal ltb bytewise one
unfolding value_type_of digits decimal
one-IsRead = record {
  starts = refl;
  value = λ b s. at_end (λ b. (read_decimal (49 ∷ b ∷ s)).value ≡ 1) refl refl b;
  consumed = λ b s. at_end (λ b. (read_decimal (49 ∷ b ∷ s)).consumed ≡ 1) refl refl b;
  looked =
      λ b s. at_end (λ b. (read_decimal (49 ∷ b ∷ s)).looked ≤ 2) (omega arith) (omega arith) b;
}

ten-IsRead : IsRead read_decimal ltb bytewise ten
unfolding value_type_of digits decimal
ten-IsRead = record {
  starts = refl;
  value = λ b s. at_end (λ b. (read_decimal (49 ∷ 48 ∷ b ∷ s)).value ≡ 10) refl refl b;
  consumed = λ b s. at_end (λ b. (read_decimal (49 ∷ 48 ∷ b ∷ s)).consumed ≡ 2) refl refl b;
  looked = λ b s.
      at_end (λ b. (read_decimal (49 ∷ 48 ∷ b ∷ s)).looked ≤ 3) (omega arith) (omega arith) b;
}

view_key_cmp-print_array_example :
    view_key_cmp read_decimal ltb bytewise
      (encode_view_btree_key (array_key read_decimal ltb bytewise (one ∷ ten ∷ []) (100 ∷ [])))
      (encode_view_btree_key (array_key read_decimal ltb bytewise (one ∷ one ∷ []) (101 ∷ [])))
    ≡ ok (
        then_by
          (compare_numbers read_decimal ltb bytewise (one ∷ ten ∷ []) (one ∷ one ∷ []))
          (ebin_cmp (100 ∷ []) (101 ∷ [])))
unfolding print_array print_more
view_key_cmp-print_array_example =
    view_key_cmp-print_array read_decimal ltb bytewise (one ∷ ten ∷ []) (one ∷ one ∷ []) (100 ∷ [])
      (101 ∷ []) (one-IsRead, (ten-IsRead, tt)) (one-IsRead, (one-IsRead, tt)) (omega arith)
      (omega arith)
