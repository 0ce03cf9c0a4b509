-- ===== src/Views/Reductions.antt =====
-- src/views/reductions.c: the reductions of view B-trees.
-- The bitmap of a reduction is its 128 bytes; `num_values` is the length of a list. A failure of an
-- allocation is not modelled.
pub mod Overflow
use couchstore.Base.{
  ℕ, ◌+◌, ◌-◌, ◌^◌, ◌<◌, ◌≤◌, ◌≡◌, arith, ltb, leb, not, List, [], ◌∷◌, ◌++◌, length, length-append,
  take, drop, All, take-append_length, drop-append_length, ◌∙◌, Result, ok, Error, assert,
  error_unless, ◌>>=◌, ◌>>◌,
}
use couchstore.Bitfield.{encode_raw16, decode_raw16, encode_raw40, decode_raw40}
use couchstore.Bitfield.Widths.{length-encode_raw40, drop-encode_raw40, decode-encode_raw40}
use couchstore.Views.Packed.{skip_sized, copy_sized, print_sized, print_all, decode_entries}
use couchstore.Views.Packed.RoundTrip.{sized-EntryLaws, decode_entries-print_all}
use couchstore.Views.Values.{raw16-SizeLaws}

-- MAX_REDUCTION_SIZE of couch_btree.h
abbrev pub max_reduction_size : ℕ
max_reduction_size = 2 ^ 16 - 1

-- view_btree_reduction_t
pub record ViewBtreeReduction : Type 0 where
  pub kv_count : ℕ
  pub partitions_bitmap : List ℕ
  pub reduce_values : List (List ℕ)

-- view_id_btree_reduction_t
pub record ViewIdBtreeReduction : Type 0 where
  pub kv_count : ℕ
  pub partitions_bitmap : List ℕ

unfoldable pub decode_view_btree_reduction : List ℕ → Result ViewBtreeReduction
decode_view_btree_reduction bytes = do
  assert (leb 5 (length bytes))
  assert (leb 128 (length (drop 5 bytes)))
  reduce_values ←
      decode_entries (skip_sized 2 decode_raw16) (copy_sized 2 decode_raw16) (2 ^ 8)
        (drop 128 (drop 5 bytes))
  ok (record {
    kv_count = decode_raw40 bytes;
    partitions_bitmap = take 128 (drop 5 bytes);
    reduce_values = reduce_values;
  })

-- The size that the first loop of the encoder adds up.
unfoldable pub values_size : List (List ℕ) → ℕ
values_size [] = 0
values_size (v ∷ vs) = 2 + length v + values_size vs

unfoldable pub encode_view_btree_reduction : ViewBtreeReduction → Result (List ℕ)
encode_view_btree_reduction reduction = do
  error_unless (not (ltb max_reduction_size (5 + 128 + values_size reduction.reduce_values)))
      Error.reduction_too_large
  ok (
      encode_raw40 reduction.kv_count
      ++ (reduction.partitions_bitmap
          ++ print_all (print_sized encode_raw16) reduction.reduce_values))

-- The length of the bytes is not given to this one: less than 133 of them are read beyond their end.
unfoldable pub decode_view_id_btree_reduction : List ℕ → Result ViewIdBtreeReduction
decode_view_id_btree_reduction bytes = do
  assert (leb 133 (length bytes))
  ok (record { kv_count = decode_raw40 bytes; partitions_bitmap = take 128 (drop 5 bytes) })

unfoldable pub encode_view_id_btree_reduction : ViewIdBtreeReduction → Result (List ℕ)
encode_view_id_btree_reduction reduction = do
  error_unless (not (ltb max_reduction_size (5 + 128))) Error.reduction_too_large
  ok (encode_raw40 reduction.kv_count ++ reduction.partitions_bitmap)

values_fit : (vs : List (List ℕ)) → values_size vs ≤ 2 ^ 16 - 1 → All (λ v. length v < 2 ^ 16) vs
unfolding values_size
values_fit [] h = tt
values_fit (v ∷ vs) h = (omega arith, values_fit vs (omega arith))

reduction_parts :
    (bytes bitmap rest : List ℕ) (c : ℕ) (vs : List (List ℕ))
    → decode_raw40 bytes ≡ c
    → drop 5 bytes ≡ bitmap ++ rest
    → length bitmap ≡ 128
    → length bytes ≡ 5 + length (bitmap ++ rest)
    → decode_entries (skip_sized 2 decode_raw16) (copy_sized 2 decode_raw16) (2 ^ 8) rest ≡ ok vs
    → decode_view_btree_reduction bytes
      ≡ ok (record { kv_count = c; partitions_bitmap = bitmap; reduce_values = vs })
unfolding decode_view_btree_reduction
reduction_parts bytes bitmap rest c vs e f n h k =
    rw (e, f, take-append_length 128 bitmap rest n, drop-append_length 128 bitmap rest n, k)
      (ground (arith, length-append bitmap rest))

encoded_bytes :
    (r : ViewBtreeReduction) (bytes : List ℕ)
    → encode_view_btree_reduction r ≡ ok bytes
    → (bytes
        ≡ encode_raw40 r.kv_count
          ++ (r.partitions_bitmap ++ print_all (print_sized encode_raw16) r.reduce_values))
      × (values_size r.reduce_values ≤ 2 ^ 16 - 1)
unfolding encode_view_btree_reduction
encoded_bytes r bytes e = ground arith

-- A reduction that the encoder accepts is read back as it was, where it counts below 2^40, has a
-- bitmap of 128 bytes and at most 255 values.
pub decode-encode_view_btree_reduction :
    (r : ViewBtreeReduction) (bytes : List ℕ)
    → encode_view_btree_reduction r ≡ ok bytes
    → r.kv_count < 2 ^ 40
    → length r.partitions_bitmap ≡ 128
    → length r.reduce_values < 2 ^ 8
    → decode_view_btree_reduction bytes ≡ ok r
decode-encode_view_btree_reduction r bytes e c n few =
    let (same, small) = encoded_bytes r bytes e in
    let rest = print_all (print_sized encode_raw16) r.reduce_values in
    let body = r.partitions_bitmap ++ rest in
    rw same (
      reduction_parts (encode_raw40 r.kv_count ++ body) r.partitions_bitmap rest r.kv_count
        r.reduce_values (decode-encode_raw40 r.kv_count body ∙ omega arith)
        (drop-encode_raw40 r.kv_count body) n
        (length-append (encode_raw40 r.kv_count) body
          ∙ omega (arith, length-encode_raw40 r.kv_count))
        (decode_entries-print_all (sized-EntryLaws raw16-SizeLaws (omega arith)) (2 ^ 8)
          r.reduce_values (values_fit r.reduce_values small) few))
