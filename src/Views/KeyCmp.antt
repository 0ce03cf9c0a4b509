-- ===== src/Views/KeyCmp.antt =====
-- view_key_cmp of src/views/util.c: the order of the keys of a view's B-tree.
pub mod Arrays
use couchstore.Base.{
  ℕ, ◌+◌, ◌^◌, ◌<◌, ◌≡◌, refl, ◌∙◌, arith, true, leb, List, ◌++◌, length, length-append, take, drop,
  take-append_length, drop-append_length, Result, ok, err, fault, assert, ◌>>◌, ◌>>=◌, ap, sym, suc,
  false, Bool,
}
use couchstore.Base.Order.{
  Cmp, less, equal, greater, turn_equal, Cmp-cases, is_less, is_equal, is_greater,
}
use couchstore.Bitfield.{encode_raw16, decode_raw16}
use couchstore.Bitfield.Widths.{length-encode_raw16, drop-encode_raw16, decode-encode_raw16}
use couchstore.KeyOrder.{ebin_cmp, ebin_cmp-IsComparator}
use couchstore.Views.Keys.{ViewBtreeKey, encode_view_btree_key}
use couchstore.Views.Collate.{Strtod, Icu, collate_json, unicode}
use couchstore.Views.Collate.Strings.{turn, turn_result, IcuTurns}
use couchstore.Views.Collate.Turned.{turn-collate_json}

-- view_id_cmp: the keys of the B-tree of ids are compared as they are.
unfoldable pub view_id_cmp : List ℕ → List ℕ → Cmp
view_id_cmp key1 key2 = ebin_cmp key1 key2

-- The first comparison, and the second one where the first finds no difference.
unfoldable pub then_by : Cmp → Cmp → Cmp
then_by less c = less
then_by equal c = c
then_by greater c = greater

module _ {D : Type 0} (strtod : List ℕ → Strtod D) (double_less : D → D → Bool) (icu : Icu) where
  -- A round of the collation reads a byte of a text, unless strtod consumes nothing of both: then the
  -- code does not end, and this is a fault.
  abbrev pub collate_keys : List ℕ → List ℕ → Result Cmp
  collate_keys json1 json2 =
      collate_json strtod double_less icu unicode (suc (length json1 + length json2)) 0 json1 json2

  -- Keys that are shorter than they say are read beyond their end.
  unfoldable pub view_key_cmp : List ℕ → List ℕ → Result Cmp
  unfolding then_by
  view_key_cmp key1 key2 = do
    assert (leb 2 (length key1))
    assert (leb 2 (length key2))
    let rest1 = drop 2 key1
    let rest2 = drop 2 key2
    assert (leb (decode_raw16 key1) (length rest1))
    assert (leb (decode_raw16 key2) (length rest2))
    res ← collate_keys (take (decode_raw16 key1) rest1) (take (decode_raw16 key2) rest2)
    ok (then_by res (ebin_cmp (drop (decode_raw16 key1) rest1) (drop (decode_raw16 key2) rest2)))

  -- The order of view keys: by their JSON parts, then by their document ids.
  unfoldable pub key_order : ViewBtreeKey → ViewBtreeKey → Result Cmp
  unfolding then_by
  key_order k1 k2 =
      collate_keys k1.json_key k2.json_key >>= λ c. ok (then_by c (ebin_cmp k1.doc_id k2.doc_id))

  cmp_parts :
      (key1 key2 j1 j2 d1 d2 : List ℕ)
      → decode_raw16 key1 ≡ length j1
      → decode_raw16 key2 ≡ length j2
      → drop 2 key1 ≡ j1 ++ d1
      → drop 2 key2 ≡ j2 ++ d2
      → length key1 ≡ 2 + length (j1 ++ d1)
      → length key2 ≡ 2 + length (j2 ++ d2)
      → view_key_cmp key1 key2 ≡ (collate_keys j1 j2 >>= λ c. ok (then_by c (ebin_cmp d1 d2)))
  unfolding view_key_cmp
  cmp_parts key1 key2 j1 j2 d1 d2 e1 e2 f1 f2 l1 l2 =
      let t1 : leb 2 (length key1) ≡ true = ground arith in
      let t2 : leb 2 (length key2) ≡ true = ground arith in
      let s1 : leb (length j1) (length (j1 ++ d1)) ≡ true = ground (arith, length-append j1 d1) in
      let s2 : leb (length j2) (length (j2 ++ d2)) ≡ true = ground (arith, length-append j2 d2) in
      rw
        (
          t1,
          t2,
          e1,
          e2,
          f1,
          f2,
          s1,
          s2,
          take-append_length (length j1) j1 d1 refl,
          take-append_length (length j2) j2 d2 refl,
          drop-append_length (length j1) j1 d1 refl,
          drop-append_length (length j2) j2 d2 refl,
        )
        refl

  pub view_key_cmp-encode :
      (k1 k2 : ViewBtreeKey)
      → length k1.json_key < 2 ^ 16
      → length k2.json_key < 2 ^ 16
      → view_key_cmp (encode_view_btree_key k1) (encode_view_btree_key k2) ≡ key_order k1 k2
  unfolding encode_view_btree_key key_order
  view_key_cmp-encode k1 k2 h1 h2 =
      let r1 = k1.json_key ++ k1.doc_id in
      let r2 = k2.json_key ++ k2.doc_id in
      cmp_parts (encode_raw16 (length k1.json_key) ++ r1) (encode_raw16 (length k2.json_key) ++ r2)
        k1.json_key k2.json_key k1.doc_id k2.doc_id
        (decode-encode_raw16 (length k1.json_key) r1 ∙ omega arith)
        (decode-encode_raw16 (length k2.json_key) r2 ∙ omega arith)
        (drop-encode_raw16 (length k1.json_key) r1) (drop-encode_raw16 (length k2.json_key) r2)
        (length-append (encode_raw16 (length k1.json_key)) r1
          ∙ omega (arith, length-encode_raw16 (length k1.json_key)))
        (length-append (encode_raw16 (length k2.json_key)) r2
          ∙ omega (arith, length-encode_raw16 (length k2.json_key)))

  turn-then_by : (c d : Cmp) → turn (then_by c d) ≡ then_by (turn c) (turn d)
  unfolding then_by
  turn-then_by less d = refl
  turn-then_by equal d = refl
  turn-then_by greater d = refl

  turn-ebin_cmp : (a b : List ℕ) → ebin_cmp b a ≡ turn (ebin_cmp a b)
  turn-ebin_cmp a b =
      let o = ebin_cmp-IsComparator.0 in
      elim (Cmp-cases (ebin_cmp a b)) [
        | is_less e ↦ o.turn_less a b e ∙ sym (ap turn e)
        | is_equal e ↦ turn_equal o a b e ∙ sym (ap turn e)
        | is_greater e ↦ o.turn_greater a b e ∙ sym (ap turn e)
      ]

  module _ (turns : IcuTurns icu)
      (asymmetric : (a b : D) → double_less a b ≡ true → double_less b a ≡ false) where
    turn-collate_keys : (j1 j2 : List ℕ) → collate_keys j2 j1 ≡ turn_result (collate_keys j1 j2)
    turn-collate_keys j1 j2 =
        let same : length j2 + length j1 ≡ length j1 + length j2 = omega arith in
        ap (λ n. collate_json strtod double_less icu unicode (suc n) 0 j2 j1) same
        ∙ turn-collate_json icu turns strtod double_less asymmetric unicode
            (suc (length j1 + length j2)) 0 j1 j2

    turn-key_order : (k1 k2 : ViewBtreeKey) → key_order k2 k1 ≡ turn_result (key_order k1 k2)
    unfolding key_order
    turn-key_order k1 k2 =
        ap (λ r. r >>= λ c. ok (then_by c (ebin_cmp k2.doc_id k1.doc_id)))
          (turn-collate_keys k1.json_key k2.json_key)
        ∙ ids (collate_keys k1.json_key k2.json_key)
      where
        ids :
            (r : Result Cmp)
            → (turn_result r >>= λ c. ok (then_by c (ebin_cmp k2.doc_id k1.doc_id)))
              ≡ turn_result (r >>= λ c. ok (then_by c (ebin_cmp k1.doc_id k2.doc_id)))
        ids (ok c) = ap ok (
            ap (λ d. then_by (turn c) d) (turn-ebin_cmp k1.doc_id k2.doc_id)
            ∙ sym (turn-then_by c (ebin_cmp k1.doc_id k2.doc_id)))
        ids (err e) = refl
        ids fault = refl

    -- view_key_cmp compares two encoded keys with JSON parts below 2^16 bytes by CollateJSON of
    -- their JSON parts and, where that is 0, by ebin_cmp of their document ids. The other way round
    -- it gives the opposite sign, or a fault likewise, where ICU's comparisons never fail and give
    -- opposite signs the other way round, and `<` on doubles is asymmetric.
    pub view_key_cmp-key_order :
        (k1 k2 : ViewBtreeKey)
        → length k1.json_key < 2 ^ 16
        → length k2.json_key < 2 ^ 16
        → (view_key_cmp (encode_view_btree_key k1) (encode_view_btree_key k2) ≡ key_order k1 k2)
          × (view_key_cmp (encode_view_btree_key k2) (encode_view_btree_key k1)
              ≡ turn_result (key_order k1 k2))
    view_key_cmp-key_order k1 k2 h1 h2 =
        (view_key_cmp-encode k1 k2 h1 h2, view_key_cmp-encode k2 k1 h2 h1 ∙ turn-key_order k1 k2)
