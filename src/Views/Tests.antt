-- ===== src/Views/Tests.antt =====
-- Concrete sorted lists, keys, values, reductions and bitmaps.
use couchstore.Base.{
  length, ℕ, ◌<◌, All, zero, suc, ◌+◌, ◌%◌, ◌^◌, ◌≡◌, refl, arith, ◌==◌, ◌||◌, true, false,
  if◌then◌else◌, List, [], ◌∷◌, replicate, ok, none, some, fault, ◌++◌, set,
}
use couchstore.Base.Order.{cmp_ℕ, cmp_ℕ-IsComparator}
use couchstore.Views.SortedList.{SortedList, add, get, remove}
use couchstore.Views.SortedList.Invariant.{IsValid, add-IsValid}
use couchstore.Views.SortedList.Lookup.{is_equal_cmp, get-add, get-remove}
use couchstore.Bitfield.{encode_raw16, encode_raw40}
use couchstore.Views.Packed.{print_sized, print_all}
use couchstore.Views.Reductions.Overflow.{decode_view_btree_reduction-print_all}
use couchstore.Views.Keys.{
  decode_view_btree_key, encode_view_btree_key, ViewBtreeKey, ViewIdBtreeKey,
  decode-encode_view_btree_key,
}
use couchstore.Views.Values.{
  ViewBtreeValue, ViewIdBtreeValue, encode_view_btree_value, decode_view_id_btree_value,
  encode_view_id_btree_value, decode-encode_view_id_btree_value,
}
use couchstore.Views.Reductions.{
  ViewBtreeReduction, encode_view_btree_reduction, decode_view_btree_reduction, values_size,
  decode-encode_view_btree_reduction,
}
use couchstore.Views.Bitmap.{IsBitmap, is_bit_set, set_bit, unset_bit, is_bit_set-set_bit}
use couchstore.Views.Purgers.{
  PurgeAction, ViewPurgerCtx, view_btree_purge_kv, view_id_btree_purge_kv, purge_kv-encode, Purged,
  view_btree_purge_kp, purge_kp-Purged,
}

abbrev numbers : SortedList ℕ
numbers = record { cmp_fun = cmp_ℕ; head = 3 ∷ 5 ∷ []; length = 2 }

numbers-IsValid : IsValid numbers
numbers-IsValid = record { sorted = ((refl, tt), (tt, tt)); counted = refl }

add-IsValid_example : IsValid (add numbers 4)
add-IsValid_example = add-IsValid numbers 4 cmp_ℕ-IsComparator numbers-IsValid

get-add_example :
    get (add numbers 4) 4 ≡ (if is_equal_cmp (numbers.cmp_fun 4 4) then some 4 else get numbers 4)
get-add_example = get-add numbers 4 4 cmp_ℕ-IsComparator

get-remove_example :
    get (remove numbers 5) 3 ≡ (if is_equal_cmp (numbers.cmp_fun 5 3) then none else get numbers 3)
get-remove_example = get-remove numbers 5 3 cmp_ℕ-IsComparator numbers-IsValid

abbrev view_key : ViewBtreeKey
view_key = record { json_key = 34 ∷ 97 ∷ 34 ∷ []; doc_id = 100 ∷ 49 ∷ [] }

decode-encode_view_btree_key_example :
    decode_view_btree_key (encode_view_btree_key view_key) ≡ ok view_key
decode-encode_view_btree_key_example = decode-encode_view_btree_key view_key (omega arith)

abbrev id_key : ViewIdBtreeKey
id_key = record { partition = 57; doc_id = 100 ∷ 49 ∷ [] }

abbrev view_value : ViewBtreeValue
view_value = record { partition = 10; values = (49 ∷ []) ∷ [] ∷ [] }

abbrev id_value : ViewIdBtreeValue
id_value = record {
  partition = 10;
  view_keys_map = record { view_id = 2; json_keys = (49 ∷ []) ∷ (50 ∷ 51 ∷ []) ∷ [] } ∷ [];
}

decode-encode_view_id_btree_value_example :
    decode_view_id_btree_value (encode_view_id_btree_value id_value) ≡ ok id_value
decode-encode_view_id_btree_value_example =
    decode-encode_view_id_btree_value id_value (omega arith) (omega arith)
      ((omega arith, (omega arith, (omega arith, tt))), tt)

abbrev zeros : List ℕ
zeros = replicate 128 0

abbrev reduction : ViewBtreeReduction
reduction = record { kv_count = 3; partitions_bitmap = zeros; reduce_values = (51 ∷ []) ∷ [] }

abbrev reduction_bytes : List ℕ
reduction_bytes = elim (encode_view_btree_reduction reduction) [ ok bytes ↦ bytes | _ ↦ [] ]

reduction_bytes-eq : encode_view_btree_reduction reduction ≡ ok reduction_bytes
unfolding encode_view_btree_reduction values_size
reduction_bytes-eq = refl

decode-encode_view_btree_reduction_example :
    decode_view_btree_reduction reduction_bytes ≡ ok reduction
decode-encode_view_btree_reduction_example =
    decode-encode_view_btree_reduction reduction reduction_bytes reduction_bytes-eq (omega arith)
      refl (omega arith)

zero_bytes : (n : ℕ) → All (λ b. b < 256) (replicate n 0)
zero_bytes zero = tt
zero_bytes (suc n) = (omega arith, zero_bytes n)

zeros-IsBitmap : IsBitmap zeros
zeros-IsBitmap = record { chunks = refl; bytes = zero_bytes 128 }

abbrev with_10 : List ℕ
with_10 = elim (set_bit zeros 10) [ ok bm ↦ bm | _ ↦ [] ]

with_10-eq : set_bit zeros 10 ≡ ok with_10
unfolding set_bit
with_10-eq = refl

zeros_10 : is_bit_set zeros 10 ≡ ok false
unfolding is_bit_set
zeros_10 = refl

is_bit_set-set_bit_example : is_bit_set with_10 10 ≡ ok (10 == 10 || false)
is_bit_set-set_bit_example =
    is_bit_set-set_bit zeros with_10 10 10 false zeros-IsBitmap (omega arith) with_10-eq zeros_10

zeros_unset : unset_bit zeros 10 ≡ ok zeros
unfolding unset_bit
zeros_unset = refl

set_bytes :
    (bm : List ℕ) (i v : ℕ) → v < 256 → All (λ b. b < 256) bm → All (λ b. b < 256) (set bm i v)
set_bytes [] i v h a = tt
set_bytes (b ∷ bm) zero v h a = (h, a.1)
set_bytes (b ∷ bm) (suc i) v h a = (a.0, set_bytes bm i v h a.1)

with_10-IsBitmap : IsBitmap with_10
unfolding set_bit
with_10-IsBitmap = record {
  chunks = refl;
  bytes = set_bytes zeros 126 4 (omega arith) zeros-IsBitmap.bytes;
}

abbrev purge_ctx : ViewPurgerCtx
purge_ctx = record { cbitmask = with_10; count = 7 }

with_10_has : is_bit_set with_10 10 ≡ ok true
unfolding is_bit_set set_bit
with_10_has = refl

purge_kv-encode_example :
    (view_btree_purge_kv (encode_view_btree_value view_value) purge_ctx
      ≡ ok (PurgeAction.purge_item, record purge_ctx { count = (7 + 2) % 2 ^ 64 }))
    × (view_id_btree_purge_kv (encode_view_id_btree_value id_value) purge_ctx
        ≡ ok (PurgeAction.purge_item, record purge_ctx { count = (7 + 1) % 2 ^ 64 }))
purge_kv-encode_example =
    purge_kv-encode purge_ctx view_value id_value true (omega arith) (omega arith)
      (omega arith, (omega arith, tt)) refl (omega arith)
      ((omega arith, (omega arith, (omega arith, tt))), tt) with_10_has

purge_kp-Purged_example :
    (after : PurgeAction × ViewPurgerCtx) × (view_btree_purge_kp reduction_bytes purge_ctx
      ≡ ok after)
    × Purged purge_ctx zeros 3 after
purge_kp-Purged_example =
    purge_kp-Purged purge_ctx reduction reduction_bytes with_10-IsBitmap zeros-IsBitmap
      reduction_bytes-eq (omega arith) (omega arith)

short_values : (n : ℕ) → All (λ (v : List ℕ). length v < 2 ^ 16) (replicate n [])
short_values zero = tt
short_values (suc n) = (omega arith, short_values n)

decode_view_btree_reduction-print_all_example :
    decode_view_btree_reduction
      (encode_raw40 0 ++ (zeros ++ print_all (print_sized encode_raw16) (replicate 256 [])))
    ≡ fault
decode_view_btree_reduction-print_all_example =
    decode_view_btree_reduction-print_all 0 zeros (replicate 256 []) refl (short_values 256)
      (omega arith)
