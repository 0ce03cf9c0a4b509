-- ===== src/Views/Values.antt =====
-- src/views/values.c: the values of view B-trees, and of the B-trees from document ids to view keys.
-- An array with its number of elements is a list here; a failure of an allocation is not modelled.
use couchstore.Base.{
  ℕ, ◌+◌, ◌^◌, ◌<◌, ◌≡◌, arith, true, leb, List, ◌∷◌, ◌++◌, append_assoc, length, length-append,
  drop, get_or, All, ◌∙◌, refl, Result, ok, assert, ◌>>=◌, ◌>>◌,
}
use couchstore.Bitfield.{encode_raw16, decode_raw16, encode_raw24, decode_raw24}
use couchstore.Bitfield.Widths.{
  length-encode_raw16, drop-encode_raw16, decode-encode_raw16, length-encode_raw24,
  decode-encode_raw24,
}
use couchstore.Views.Packed.{
  skip_sized, copy_sized, skip_keys, copy_keys, print_sized, print_all, decode_entries,
}
use couchstore.Views.Packed.RoundTrip.{
  SizeLaws, EntryLaws, skip_keys-print_all, copy_keys-print_all, sized-EntryLaws,
  decode_entries-print_all,
}

-- view_btree_value_t
pub record ViewBtreeValue : Type 0 where
  pub partition : ℕ
  pub values : List (List ℕ)

-- view_keys_mapping_t
pub record ViewKeysMapping : Type 0 where
  pub view_id : ℕ
  pub json_keys : List (List ℕ)

-- view_id_btree_value_t
pub record ViewIdBtreeValue : Type 0 where
  pub partition : ℕ
  pub view_keys_map : List ViewKeysMapping

unfoldable pub decode_view_btree_value : List ℕ → Result ViewBtreeValue
decode_view_btree_value bytes = do
  assert (leb 2 (length bytes))
  values ←
      decode_entries (skip_sized 3 decode_raw24) (copy_sized 3 decode_raw24) (2 ^ 16) (drop 2 bytes)
  ok (record { partition = decode_raw16 bytes; values = values })

unfoldable pub encode_view_btree_value : ViewBtreeValue → List ℕ
encode_view_btree_value value =
    encode_raw16 value.partition ++ print_all (print_sized encode_raw24) value.values

-- A mapping in the first loop: the view's id, the number of keys, and the keys.
unfoldable pub skip_mapping : List ℕ → Result (List ℕ)
skip_mapping bs = do
  assert (leb 1 (length bs))
  assert (leb 2 (length (drop 1 bs)))
  skip_keys 2 decode_raw16 (decode_raw16 (drop 1 bs)) (drop 2 (drop 1 bs))

unfoldable pub copy_mapping : List ℕ → ViewKeysMapping × List ℕ
copy_mapping bs =
    let (json_keys, rest) =
      copy_keys 2 decode_raw16 (decode_raw16 (drop 1 bs)) (drop 2 (drop 1 bs)) in
    (record { view_id = get_or bs 0 0; json_keys = json_keys }, rest)

unfoldable pub print_mapping : ViewKeysMapping → List ℕ
print_mapping m =
    m.view_id
    ∷ (encode_raw16 (length m.json_keys) ++ print_all (print_sized encode_raw16) m.json_keys)

unfoldable pub decode_view_id_btree_value : List ℕ → Result ViewIdBtreeValue
decode_view_id_btree_value bytes = do
  assert (leb 2 (length bytes))
  view_keys_map ← decode_entries skip_mapping copy_mapping (2 ^ 16) (drop 2 bytes)
  ok (record { partition = decode_raw16 bytes; view_keys_map = view_keys_map })

unfoldable pub encode_view_id_btree_value : ViewIdBtreeValue → List ℕ
encode_view_id_btree_value value =
    encode_raw16 value.partition ++ print_all print_mapping value.view_keys_map

-- Sizes of two bytes, and of three.
pub raw16-SizeLaws : SizeLaws 2 (2 ^ 16) encode_raw16 decode_raw16
raw16-SizeLaws = record {
  encoded_length = length-encode_raw16;
  decoded = λ n rest h. decode-encode_raw16 n rest ∙ omega arith;
}

raw24-SizeLaws : SizeLaws 3 (2 ^ 24) encode_raw24 decode_raw24
raw24-SizeLaws = record {
  encoded_length = length-encode_raw24;
  decoded = λ n rest h. decode-encode_raw24 n rest ∙ omega arith;
}

value_parts :
    (bytes rest : List ℕ) (p : ℕ) (vs : List (List ℕ))
    → decode_raw16 bytes ≡ p
    → drop 2 bytes ≡ rest
    → length bytes ≡ 2 + length rest
    → decode_entries (skip_sized 3 decode_raw24) (copy_sized 3 decode_raw24) (2 ^ 16) rest ≡ ok vs
    → decode_view_btree_value bytes ≡ ok (record { partition = p; values = vs })
unfolding decode_view_btree_value
value_parts bytes rest p vs e f h k = rw (e, f, k) (ground arith)

-- A value of a partition below 2^16 and of less than 2^16 parts, each below 2^24 bytes, is read back
-- as it was written.
pub decode-encode_view_btree_value :
    (value : ViewBtreeValue)
    → value.partition < 2 ^ 16
    → length value.values < 2 ^ 16
    → All (λ v. length v < 2 ^ 24) value.values
    → decode_view_btree_value (encode_view_btree_value value) ≡ ok value
unfolding encode_view_btree_value
decode-encode_view_btree_value value p n sizes =
    let rest = print_all (print_sized encode_raw24) value.values in
    value_parts (encode_raw16 value.partition ++ rest) rest value.partition value.values
      (decode-encode_raw16 value.partition rest ∙ omega arith)
      (drop-encode_raw16 value.partition rest)
      (length-append (encode_raw16 value.partition) rest
        ∙ omega (arith, length-encode_raw16 value.partition))
      (decode_entries-print_all (sized-EntryLaws raw24-SizeLaws (omega arith)) (2 ^ 16) value.values
        sizes n)

-- A mapping that its fields can hold.
abbrev pub MappingFits : ViewKeysMapping → Type 0
MappingFits m = (length m.json_keys < 2 ^ 16) × All (λ k. length k < 2 ^ 16) m.json_keys

mapping_front :
    (n : ℕ) (keys rest : List ℕ)
    → n < 2 ^ 16
    → (decode_raw16 ((encode_raw16 n ++ keys) ++ rest) ≡ n)
      × (drop 2 ((encode_raw16 n ++ keys) ++ rest) ≡ keys ++ rest)
      × (leb 2 (length ((encode_raw16 n ++ keys) ++ rest)) ≡ true)
mapping_front n keys rest h = rw (append_assoc (encode_raw16 n) keys rest) (
  decode-encode_raw16 n (keys ++ rest) ∙ omega arith,
  drop-encode_raw16 n (keys ++ rest),
  ground (arith, length-append (encode_raw16 n) (keys ++ rest), length-encode_raw16 n),
)

has_one : (b : ℕ) (bs : List ℕ) → leb 1 (length (b ∷ bs)) ≡ true
has_one b bs = ground arith

skip-print_mapping :
    (m : ViewKeysMapping) (rest : List ℕ)
    → MappingFits m
    → skip_mapping (print_mapping m ++ rest) ≡ ok rest
unfolding skip_mapping print_mapping
skip-print_mapping m rest f =
    let (e, g, h) =
      mapping_front (length m.json_keys) (print_all (print_sized encode_raw16) m.json_keys) rest
        f.0 in
    rw
      (
        has_one m.view_id (
            (encode_raw16 (length m.json_keys) ++ print_all (print_sized encode_raw16) m.json_keys)
            ++ rest),
        h,
        e,
        g,
      )
      (skip_keys-print_all raw16-SizeLaws m.json_keys rest f.1)

copy-print_mapping :
    (m : ViewKeysMapping) (rest : List ℕ)
    → MappingFits m
    → copy_mapping (print_mapping m ++ rest) ≡ (m, rest)
unfolding copy_mapping print_mapping
copy-print_mapping m rest f =
    let (e, g, h) =
      mapping_front (length m.json_keys) (print_all (print_sized encode_raw16) m.json_keys) rest
        f.0 in
    rw (e, g, copy_keys-print_all raw16-SizeLaws m.json_keys rest f.1) refl

pub mapping-EntryLaws : EntryLaws MappingFits print_mapping skip_mapping copy_mapping
mapping-EntryLaws = record {
  has_byte = λ m. unfold print_mapping in omega arith;
  skipped = skip-print_mapping;
  copied = copy-print_mapping;
}

id_value_parts :
    (bytes rest : List ℕ) (p : ℕ) (ms : List ViewKeysMapping)
    → decode_raw16 bytes ≡ p
    → drop 2 bytes ≡ rest
    → length bytes ≡ 2 + length rest
    → decode_entries skip_mapping copy_mapping (2 ^ 16) rest ≡ ok ms
    → decode_view_id_btree_value bytes ≡ ok (record { partition = p; view_keys_map = ms })
unfolding decode_view_id_btree_value
id_value_parts bytes rest p ms e f h k = rw (e, f, k) (ground arith)

-- The view keys of a document are read back as they were written: a partition below 2^16, less than
-- 2^16 views, each with less than 2^16 keys, each key below 2^16 bytes.
pub decode-encode_view_id_btree_value :
    (value : ViewIdBtreeValue)
    → value.partition < 2 ^ 16
    → length value.view_keys_map < 2 ^ 16
    → All MappingFits value.view_keys_map
    → decode_view_id_btree_value (encode_view_id_btree_value value) ≡ ok value
unfolding encode_view_id_btree_value
decode-encode_view_id_btree_value value p n sizes =
    let rest = print_all print_mapping value.view_keys_map in
    id_value_parts (encode_raw16 value.partition ++ rest) rest value.partition value.view_keys_map
      (decode-encode_raw16 value.partition rest ∙ omega arith)
      (drop-encode_raw16 value.partition rest)
      (length-append (encode_raw16 value.partition) rest
        ∙ omega (arith, length-encode_raw16 value.partition))
      (decode_entries-print_all mapping-EntryLaws (2 ^ 16) value.view_keys_map sizes n)
