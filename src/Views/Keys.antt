-- ===== src/Views/Keys.antt =====
-- src/views/keys.c: the keys of view B-trees and of the B-trees from document ids to view keys.
-- A failure of an allocation is not modelled.
use couchstore.Base.{
  ℕ, ◌+◌, ◌^◌, ◌<◌, ◌≡◌, arith, leb, List, ◌++◌, length, length-append, take, drop,
  take-append_length, drop-append_length, ◌∙◌, refl, Result, ok, assert, ◌>>◌,
}
use couchstore.Bitfield.{encode_raw16, decode_raw16}
use couchstore.Bitfield.Widths.{length-encode_raw16, drop-encode_raw16, decode-encode_raw16}

-- view_btree_key_t
pub record ViewBtreeKey : Type 0 where
  pub json_key : List ℕ
  pub doc_id : List ℕ

-- view_id_btree_key_t
pub record ViewIdBtreeKey : Type 0 where
  pub partition : ℕ
  pub doc_id : List ℕ

unfoldable pub decode_view_btree_key : List ℕ → Result ViewBtreeKey
decode_view_btree_key bytes = do
  assert (leb 2 (length bytes))
  let sz = decode_raw16 bytes
  let rest = drop 2 bytes
  assert (leb sz (length rest))
  ok (record { json_key = take sz rest; doc_id = drop sz rest })

unfoldable pub encode_view_btree_key : ViewBtreeKey → List ℕ
encode_view_btree_key key = encode_raw16 (length key.json_key) ++ (key.json_key ++ key.doc_id)

unfoldable pub decode_view_id_btree_key : List ℕ → Result ViewIdBtreeKey
decode_view_id_btree_key bytes = do
  assert (leb 2 (length bytes))
  ok (record { partition = decode_raw16 bytes; doc_id = drop 2 bytes })

unfoldable pub encode_view_id_btree_key : ViewIdBtreeKey → List ℕ
encode_view_id_btree_key key = encode_raw16 key.partition ++ key.doc_id

key_parts :
    (bytes rest j d : List ℕ)
    → decode_raw16 bytes ≡ length j
    → drop 2 bytes ≡ j ++ d
    → length bytes ≡ 2 + length (j ++ d)
    → decode_view_btree_key bytes ≡ ok (record { json_key = j; doc_id = d })
unfolding decode_view_btree_key
key_parts bytes rest j d e f h =
    rw (e, f, take-append_length (length j) j d refl, drop-append_length (length j) j d refl)
      (ground (arith, length-append j d))

-- A view key whose JSON part is below 2^16 bytes is read back as it was written.
pub decode-encode_view_btree_key :
    (key : ViewBtreeKey)
    → length key.json_key < 2 ^ 16
    → decode_view_btree_key (encode_view_btree_key key) ≡ ok key
unfolding encode_view_btree_key
decode-encode_view_btree_key key h =
    let j = key.json_key in
    let d = key.doc_id in
    key_parts (encode_raw16 (length j) ++ (j ++ d)) d j d
      (decode-encode_raw16 (length j) (j ++ d) ∙ omega arith)
      (drop-encode_raw16 (length j) (j ++ d))
      (length-append (encode_raw16 (length j)) (j ++ d)
        ∙ omega (arith, length-encode_raw16 (length j)))

id_key_parts :
    (bytes d : List ℕ) (p : ℕ)
    → decode_raw16 bytes ≡ p
    → drop 2 bytes ≡ d
    → length bytes ≡ 2 + length d
    → decode_view_id_btree_key bytes ≡ ok (record { partition = p; doc_id = d })
unfolding decode_view_id_btree_key
id_key_parts bytes d p e f h = rw (e, f) (ground arith)

-- A key of a partition below 2^16 and a document id is read back as it was written.
pub decode-encode_view_id_btree_key :
    (key : ViewIdBtreeKey)
    → key.partition < 2 ^ 16
    → decode_view_id_btree_key (encode_view_id_btree_key key) ≡ ok key
unfolding encode_view_id_btree_key
decode-encode_view_id_btree_key key h =
    id_key_parts (encode_raw16 key.partition ++ key.doc_id) key.doc_id key.partition
      (decode-encode_raw16 key.partition key.doc_id ∙ omega arith)
      (drop-encode_raw16 key.partition key.doc_id)
      (length-append (encode_raw16 key.partition) key.doc_id
        ∙ omega (arith, length-encode_raw16 key.partition))
