-- ===== src/NodeTypes/Items.antt =====
-- Items of nodes: what write_kv wrote, read_kv reads, for keys that the length field can hold.
use couchstore.Base.{
  ℕ, zero, suc, ◌+◌, ◌%◌, ◌^◌, ◌≤◌, ◌<◌, ◌≡◌, ◌≢◌, refl, ap, ◌∙◌, arith, List, [], ◌∷◌, ◌++◌,
  append_assoc, length, length-append, take, drop, take-append_length, drop-append_length,
  length-take, Result, ok, fault, ◌>>=◌, All,
}
use couchstore.NodeTypes.{Item, encode_kv_length, decode_kv_length, read_kv, write_kv}
use couchstore.NodeTypes.Lengths.{length-encode_kv_length, decode-encode_kv_length}

-- A key of less than 2^12 bytes and a value of less than 2^28.
pub record Fits (i : Item) : Type 0 where
  pub key : length i.key < 2 ^ 12
  pub value : length i.value < 2 ^ 28

-- The size of an item in a node.
pub length-write_kv : (i : Item) → length (write_kv i) ≡ 5 + length i.key + length i.value
unfolding write_kv
length-write_kv i = omega (
  arith,
  length-append (encode_kv_length (length i.key) (length i.value)) (i.key ++ i.value),
  length-append i.key i.value,
  length-encode_kv_length (length i.key) (length i.value),
)

-- The size of an item and what follows it.
pub length-append-write_kv :
    (i : Item) (rest : List ℕ)
    → length (write_kv i ++ rest) ≡ 5 + length i.key + length i.value + length rest
length-append-write_kv i rest = omega (arith, length-append (write_kv i) rest, length-write_kv i)

regroup :
    (i : Item) (rest : List ℕ)
    → write_kv i ++ rest
      ≡ encode_kv_length (length i.key) (length i.value) ++ (i.key ++ (i.value ++ rest))
unfolding write_kv
regroup i rest =
    append_assoc (encode_kv_length (length i.key) (length i.value)) (i.key ++ i.value) rest
    ∙ ap (λ (t : List ℕ). encode_kv_length (length i.key) (length i.value) ++ t)
        (append_assoc i.key i.value rest)

-- read_kv on five bytes of lengths, a key, a value and what follows.
read_parts :
    (head key value rest : List ℕ)
    → length head ≡ 5
    → decode_kv_length (take 5 (head ++ (key ++ (value ++ rest)))) ≡ (length key, length value)
    → read_kv (head ++ (key ++ (value ++ rest))) ≡ ok (record { key = key; value = value }, rest)
unfolding read_kv
read_parts head key value rest five lens =
    rw
      (
        lens,
        drop-append_length 5 head (key ++ (value ++ rest)) five,
        take-append_length (length key) key (value ++ rest) refl,
        drop-append_length (length key) key (value ++ rest) refl,
        take-append_length (length value) value rest refl,
        drop-append_length (length value) value rest refl,
      )
      (ground (
        arith,
        length-append head (key ++ (value ++ rest)),
        length-append key (value ++ rest),
        length-append value rest,
      ))

-- Where the length field holds the lengths, read_kv gives the item that write_kv wrote, and the
-- bytes behind it.
pub read_kv-write_kv :
    (i : Item) (rest : List ℕ) → Fits i → read_kv (write_kv i ++ rest) ≡ ok (i, rest)
read_kv-write_kv i rest f =
    ap read_kv (regroup i rest)
    ∙ read_parts (encode_kv_length (length i.key) (length i.value)) i.key i.value rest
        (length-encode_kv_length (length i.key) (length i.value))
        (decode-encode_kv_length (length i.key) (length i.value) (i.key ++ (i.value ++ rest))
            f.value
          ∙ ap (λ (t : ℕ). (t, length i.value)) (small f.key))
  where
    small : length i.key < 4096 → length i.key % 4096 ≡ length i.key
    small h = omega arith

-- The key that read_kv finds is no longer than the length that it reads.
read_kv_key :
    (buf : List ℕ) (i : Item) (rest : List ℕ)
    → read_kv buf ≡ ok (i, rest)
    → length i.key ≤ (decode_kv_length (take 5 buf)).0
unfolding read_kv
read_kv_key buf i rest e =
    let n = (decode_kv_length (take 5 buf)).0 in
    let same : i.key ≡ take n (drop 5 buf) = ground arith in
    omega (arith, ap length same, length-take n (drop 5 buf))

-- From an item with a key of 2^12 bytes or more and a value below 2^28 bytes, whatever read_kv finds
-- has another key.
pub read_kv-write_kv_long :
    (i : Item) (rest : List ℕ) (j : Item) (rest' : List ℕ)
    → 2 ^ 12 ≤ length i.key
    → length i.value < 2 ^ 28
    → read_kv (write_kv i ++ rest) ≡ ok (j, rest')
    → j.key ≢ i.key
read_kv-write_kv_long i rest j rest' long h e same =
    let lens =
      ap (λ (t : List ℕ). decode_kv_length (take 5 t)) (regroup i rest)
      ∙ decode-encode_kv_length (length i.key) (length i.value) (i.key ++ (i.value ++ rest)) h in
    omega (
      arith,
      read_kv_key (write_kv i ++ rest) j rest' e,
      ap (λ (t : ℕ × ℕ). t.0) lens,
      ap length same,
    )

-- The items of a node, as flush_mr_partial writes them.
unfoldable pub write_items : List Item → List ℕ
write_items [] = []
write_items (i ∷ is) = write_kv i ++ write_items is

-- The loops `while (bufpos < nodebuflen)` over a node: one item after the other. An item takes five
-- bytes at least, so the buffer's length is fuel enough.
unfoldable pub read_items : ℕ → List ℕ → Result (List Item)
read_items fuel [] = ok []
read_items zero (b ∷ bs) = fault
read_items (suc fuel) (b ∷ bs) = do
  (i, rest) ← read_kv (b ∷ bs)
  is ← read_items fuel rest
  ok (i ∷ is)

read_items_step :
    (fuel : ℕ) (buf : List ℕ) (i : Item) (rest : List ℕ) (is : List Item)
    → 0 < length buf
    → read_kv buf ≡ ok (i, rest)
    → read_items fuel rest ≡ ok is
    → read_items (suc fuel) buf ≡ ok (i ∷ is)
unfolding read_items
read_items_step fuel [] i rest is h e e' = absurd (omega arith)
read_items_step fuel (b ∷ bs) i rest is h e e' = rw (e, e')

-- Items whose lengths fit their fields are read back in the order in which they were written, with
-- as much fuel as the bytes they take.
pub read_items-write_items :
    (fuel : ℕ) (is : List Item)
    → All Fits is
    → length (write_items is) ≤ fuel
    → read_items fuel (write_items is) ≡ ok is
unfolding write_items
read_items-write_items fuel [] f h = unfold read_items in refl
read_items-write_items zero (i ∷ is) f h =
    absurd (omega (arith, length-append-write_kv i (write_items is)))
read_items-write_items (suc fuel) (i ∷ is) f h =
    let sizes : length (write_kv i ++ write_items is)
        ≡ 5 + length i.key + length i.value + length (write_items is) =
      omega (arith, length-append-write_kv i (write_items is)) in
    read_items_step fuel (write_kv i ++ write_items is) i (write_items is) is (omega (arith, sizes))
      (read_kv-write_kv i (write_items is) f.0)
      (read_items-write_items fuel is f.1 (omega (arith, sizes)))
