-- ===== src/Reduces/Totals.antt =====
-- The reductions of src/reduces.cc as sums over the leaves below a node.
use couchstore.Base.{
  ℕ, suc, ◌+◌, ◌^◌, ◌<◌, ◌≤◌, ◌≡◌, refl, sym, ap, ◌∙◌, arith, leb, Bool, true, false, List, [], ◌∷◌,
  ◌++◌, length, length-append, drop, drop-add, append-nil, subst, map, All, ok,
}
use couchstore.Bitfield.{encode_raw40, decode_raw40, encode_raw48, decode_raw48}
use couchstore.Bitfield.Widths.{
  length-encode_raw40, drop-encode_raw40, decode-encode_raw40, length-encode_raw48,
  decode-encode_raw48,
}
use couchstore.Reduces.{
  IdTotals, no_totals, encode_by_id_reduce, is_deleted, leaf_size, add_leaf, by_id_reduce_loop,
  by_id_reduce, by_id_rereduce_loop, by_id_rereduce,
}

-- Totals added with no bound, and the totals of leaves.
abbrev pub plus : IdTotals → IdTotals → IdTotals
plus s t = record {
  notdeleted = s.notdeleted + t.notdeleted;
  deleted = s.deleted + t.deleted;
  size = s.size + t.size;
}

abbrev pub one_leaf : Bool → ℕ → IdTotals
one_leaf true size = record { notdeleted = 0; deleted = 1; size = size }
one_leaf false size = record { notdeleted = 1; deleted = 0; size = size }

unfoldable pub totals : List (List ℕ) → IdTotals
totals [] = no_totals
totals (raw ∷ rest) = plus (one_leaf (is_deleted raw) (leaf_size raw)) (totals rest)

unfoldable pub sum : List IdTotals → IdTotals
sum [] = no_totals
sum (t ∷ ts) = plus t (sum ts)

-- Totals that the fields of a reduction can hold.
pub record Fits (t : IdTotals) : Type 0 where
  pub notdeleted : t.notdeleted < 2 ^ 40
  pub deleted : t.deleted < 2 ^ 40
  pub size : t.size < 2 ^ 48

same_totals :
    {a b c a' b' c' : ℕ}
    → a ≡ a'
    → b ≡ b'
    → c ≡ c'
    → ◌≡◌ {A = IdTotals}
        (record { notdeleted = a; deleted = b; size = c })
        (record { notdeleted = a'; deleted = b'; size = c' })
same_totals e f g = rw (e, f, g) refl

plus_none : (t : IdTotals) → plus t no_totals ≡ t
plus_none t = same_totals (omega arith) (omega arith) (omega arith)

none_plus : (t : IdTotals) → plus no_totals t ≡ t
none_plus t = same_totals (omega arith) (omega arith) (omega arith)

plus_assoc : (s t u : IdTotals) → plus (plus s t) u ≡ plus s (plus t u)
plus_assoc s t u = same_totals (omega arith) (omega arith) (omega arith)

plus-add_leaf :
    (d : Bool) (size : ℕ) (t u : IdTotals)
    → Fits (plus t (plus (one_leaf d size) u))
    → plus (add_leaf d size t) u ≡ plus t (plus (one_leaf d size) u)
unfolding add_leaf
plus-add_leaf true size t u f =
    let small = f.notdeleted in
    let small' = f.deleted in
    let small'' = f.size in same_totals (omega arith) (omega arith) (omega arith)
plus-add_leaf false size t u f =
    let small = f.notdeleted in
    let small' = f.deleted in
    let small'' = f.size in same_totals (omega arith) (omega arith) (omega arith)

by_id_reduce_loop-totals :
    (leaves : List (List ℕ)) (t : IdTotals)
    → All (λ raw. 16 ≤ length raw) leaves
    → Fits (plus t (totals leaves))
    → by_id_reduce_loop leaves (length leaves) t ≡ ok (plus t (totals leaves))
unfolding by_id_reduce_loop totals
by_id_reduce_loop-totals [] t long f = ap ok (sym (plus_none t))
by_id_reduce_loop-totals (raw ∷ rest) t long f =
    let whole : leb 16 (length raw) ≡ true = ground (arith, long.0) in
    let e = plus-add_leaf (is_deleted raw) (leaf_size raw) t (totals rest) f in
    rw whole (
      by_id_reduce_loop-totals rest (add_leaf (is_deleted raw) (leaf_size raw) t) long.1
        (subst Fits (sym e) f)
      ∙ ap ok e)

-- The reduction of all leaves encodes how many are deleted and how many are not, and the sum of
-- their sizes, where these fit their fields and each leaf has 16 bytes at least.
pub by_id_reduce-totals :
    (leaves : List (List ℕ))
    → All (λ raw. 16 ≤ length raw) leaves
    → Fits (totals leaves)
    → by_id_reduce leaves (length leaves) ≡ ok (encode_by_id_reduce (totals leaves))
unfolding by_id_reduce
by_id_reduce-totals leaves long f =
    rw
      (
        by_id_reduce_loop-totals leaves no_totals long
            (subst Fits (sym (none_plus (totals leaves))) f),
        none_plus (totals leaves),
      )
      refl

-- The fields of an encoded reduction.
encoded_fields :
    (t : IdTotals)
    → Fits t
    → (decode_raw40 (encode_by_id_reduce t) ≡ t.notdeleted)
      × (decode_raw40 (drop 5 (encode_by_id_reduce t)) ≡ t.deleted)
      × (decode_raw48 (drop 10 (encode_by_id_reduce t)) ≡ t.size)
      × (length (encode_by_id_reduce t) ≡ 16)
unfolding encode_by_id_reduce
encoded_fields t f =
    let small = f.notdeleted in
    let small' = f.deleted in
    let small'' = f.size in
    let a = encode_raw40 t.notdeleted in
    let b = encode_raw40 t.deleted in
    let c = encode_raw48 t.size in
    let five : drop 5 (a ++ (b ++ c)) ≡ b ++ c = drop-encode_raw40 t.notdeleted (b ++ c) in
    let ten : drop 10 (a ++ (b ++ c)) ≡ c =
      drop-add 5 5 (a ++ (b ++ c)) ∙ ap (drop 5) five ∙ drop-encode_raw40 t.deleted c in
    (
      decode-encode_raw40 t.notdeleted (b ++ c) ∙ omega arith,
      ap decode_raw40 five ∙ decode-encode_raw40 t.deleted c ∙ omega arith,
      ap decode_raw48 (ten ∙ sym (append-nil c)) ∙ decode-encode_raw48 t.size [] ∙ omega arith,
      omega (
        arith,
        length-append a (b ++ c),
        length-append b c,
        length-encode_raw40 t.notdeleted,
        length-encode_raw40 t.deleted,
        length-encode_raw48 t.size,
      ),
    )

rereduce_step :
    (r : List ℕ) (rs : List (List ℕ)) (n : ℕ) (t u : IdTotals)
    → (decode_raw40 r ≡ u.notdeleted)
      × (decode_raw40 (drop 5 r) ≡ u.deleted)
      × (decode_raw48 (drop 10 r) ≡ u.size)
      × (length r ≡ 16)
    → Fits (plus t u)
    → by_id_rereduce_loop (r ∷ rs) (suc n) t ≡ by_id_rereduce_loop rs n (plus t u)
unfolding by_id_rereduce_loop
rereduce_step r rs n t u (a, b, c, l) f =
    let small = f.notdeleted in
    let small' = f.deleted in
    let small'' = f.size in
    let whole : leb 16 (length r) ≡ true = ground arith in
    rw (whole, a, b, c)
      (ap (by_id_rereduce_loop rs n) (same_totals (omega arith) (omega arith) (omega arith)))

Fits-part : (t u : IdTotals) → Fits (plus t u) → Fits t × Fits u
Fits-part t u f =
    let small = f.notdeleted in
    let small' = f.deleted in
    let small'' = f.size in
    (
      record { notdeleted = omega arith; deleted = omega arith; size = omega arith },
      record { notdeleted = omega arith; deleted = omega arith; size = omega arith },
    )

by_id_rereduce_loop-sum :
    (ts : List IdTotals) (t : IdTotals)
    → Fits (plus t (sum ts))
    → by_id_rereduce_loop (map encode_by_id_reduce ts) (length ts) t ≡ ok (plus t (sum ts))
unfolding sum by_id_rereduce_loop
by_id_rereduce_loop-sum [] t f = ap ok (sym (plus_none t))
by_id_rereduce_loop-sum (u ∷ ts) t f =
    let f' : Fits (plus (plus t u) (sum ts)) = subst Fits (sym (plus_assoc t u (sum ts))) f in
    let both = (Fits-part (plus t u) (sum ts) f').0 in
    rereduce_step (encode_by_id_reduce u) (map encode_by_id_reduce ts) (length ts) t u
      (encoded_fields u (Fits-part t u both).1) both
    ∙ by_id_rereduce_loop-sum ts (plus t u) f'
    ∙ ap ok (plus_assoc t u (sum ts))

totals-append : (xs ys : List (List ℕ)) → totals (xs ++ ys) ≡ plus (totals xs) (totals ys)
unfolding totals
totals-append [] ys = sym (none_plus (totals ys))
totals-append (raw ∷ rest) ys =
    ap (plus (one_leaf (is_deleted raw) (leaf_size raw))) (totals-append rest ys)
    ∙ sym (plus_assoc (one_leaf (is_deleted raw) (leaf_size raw)) (totals rest) (totals ys))

unfoldable pub concat : List (List (List ℕ)) → List (List ℕ)
concat [] = []
concat (leaves ∷ nodes) = leaves ++ concat nodes

totals-concat : (nodes : List (List (List ℕ))) → totals (concat nodes) ≡ sum (map totals nodes)
unfolding concat totals sum
totals-concat [] = refl
totals-concat (leaves ∷ nodes) =
    totals-append leaves (concat nodes) ∙ ap (plus (totals leaves)) (totals-concat nodes)

length-map : (nodes : List (List (List ℕ))) → length (map totals nodes) ≡ length nodes
length-map [] = refl
length-map (leaves ∷ nodes) = ap suc (length-map nodes)

-- Reducing the encoded totals of nodes is reducing the leaves of all of them at once, whatever nodes
-- the leaves are in, where the sums fit their fields and each leaf has 16 bytes at least.
pub by_id_rereduce-by_id_reduce :
    (nodes : List (List (List ℕ)))
    → All (λ raw. 16 ≤ length raw) (concat nodes)
    → Fits (totals (concat nodes))
    → by_id_rereduce (map encode_by_id_reduce (map totals nodes)) (length nodes)
      ≡ by_id_reduce (concat nodes) (length (concat nodes))
unfolding by_id_rereduce
by_id_rereduce-by_id_reduce nodes long f =
    let same = totals-concat nodes in
    let f' : Fits (plus no_totals (sum (map totals nodes))) =
      subst Fits (same ∙ sym (none_plus (sum (map totals nodes)))) f in
    rw (← length-map nodes, by_id_rereduce_loop-sum (map totals nodes) no_totals f')
      (ap (λ t. ok (encode_by_id_reduce t)) (none_plus (sum (map totals nodes)) ∙ sym same)
        ∙ sym (by_id_reduce-totals (concat nodes) long f))
