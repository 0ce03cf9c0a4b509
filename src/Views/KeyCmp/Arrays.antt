-- ===== src/Views/KeyCmp/Arrays.antt =====
-- view_key_cmp of src/views/util.c on keys that are arrays of numbers.
use couchstore.Base.{Bool, ℕ, ◌^◌, ◌<◌, ◌≡◌, ap, ◌∙◌, arith, List, length, All, ok, ◌>>=◌, ◌+◌, suc}
use couchstore.KeyOrder.{ebin_cmp}
use couchstore.Views.Keys.{ViewBtreeKey, encode_view_btree_key}
use couchstore.Views.Collate.{Strtod, Icu}
use couchstore.Views.Collate.Arrays.{
  Number, IsRead, print_array, compare_numbers, collate_json-print_array, length-print_array,
}
use couchstore.Views.KeyCmp.{then_by, view_key_cmp, key_order, view_key_cmp-encode}

module _ {D : Type 0} (strtod : List ℕ → Strtod D) (double_less : D → D → Bool) (icu : Icu) where
  abbrev pub array_key : List (Number D) → List ℕ → ViewBtreeKey
  array_key ns doc_id = record { json_key = print_array strtod double_less icu ns; doc_id = doc_id }

  -- On two encoded keys whose JSON parts are arrays of numbers below 2^16 bytes, without spaces,
  -- view_key_cmp succeeds and gives the order of the arrays, in which the first different number
  -- decides and a proper prefix is below, and where it finds no difference that of the document ids.
  -- strtod has to read each number exactly where a comma or a bracket follows, and to look no
  -- further than that byte.
  pub view_key_cmp-print_array :
      (ms ns : List (Number D)) (id1 id2 : List ℕ)
      → All (IsRead strtod double_less icu) ms
      → All (IsRead strtod double_less icu) ns
      → length (print_array strtod double_less icu ms) < 2 ^ 16
      → length (print_array strtod double_less icu ns) < 2 ^ 16
      → view_key_cmp strtod double_less icu
          (encode_view_btree_key (array_key ms id1))
          (encode_view_btree_key (array_key ns id2))
        ≡ ok (then_by (compare_numbers strtod double_less icu ms ns) (ebin_cmp id1 id2))
  unfolding key_order
  view_key_cmp-print_array ms ns id1 id2 r q h1 h2 =
      let a = print_array strtod double_less icu ms in
      let b = print_array strtod double_less icu ns in
      view_key_cmp-encode strtod double_less icu (array_key ms id1) (array_key ns id2) h1 h2
      ∙ ap (λ c. c >>= λ d. ok (then_by d (ebin_cmp id1 id2)))
          (collate_json-print_array strtod double_less icu (suc (length a + length b)) ms ns r q (
            omega (
              arith,
              length-print_array strtod double_less icu ms,
              length-print_array strtod double_less icu ns,
            )))
