-- ===== src/Reduces.antt =====
-- src/reduces.cc: the reductions of the by-sequence and the by-id B-tree, and how they add up.
-- The lists of nodes are the lists of their data, and of their reductions; what a reduction writes
-- at `dst` is its value.
pub mod Totals
mod Tests
use Prim.Native.Nat.{bit_and}
use couchstore.Base.{
  ℕ, zero, suc, ◌+◌, ◌-◌, ◌*◌, ◌^◌, ◌%◌, ◌<◌, ◌≤◌, ◌≡◌, refl, sym, ap, ◌∙◌, arith, leb, ◌==◌,
  if◌then◌else◌, not, Bool, true, false, List, [], ◌∷◌, ◌++◌, length, length-append, drop,
  drop-append_length, drop-add, append-nil, subst, map, All, Bool-cases, inl, inr, Result, ok, err,
  fault, assert, ◌>>=◌, ◌>>◌, >>=-ok,
}
use couchstore.Bitfield.{encode_raw40, decode_raw40, encode_raw48, decode_raw48, decode_raw32}
use couchstore.Bitfield.Widths.{
  length-encode_raw40, drop-encode_raw40, decode-encode_raw40, length-encode_raw48,
  decode-encode_raw48,
}

-- BP_DELETED_FLAG
abbrev pub bp_deleted_flag : ℕ
bp_deleted_flag = 0x800000000000

-- What the loops over leaves or reductions have added up.
pub record IdTotals : Type 0 where
  pub notdeleted : ℕ
  pub deleted : ℕ
  pub size : ℕ

abbrev pub no_totals : IdTotals
no_totals = record { notdeleted = 0; deleted = 0; size = 0 }

unfoldable pub encode_by_id_reduce : IdTotals → List ℕ
encode_by_id_reduce t = encode_raw40 t.notdeleted ++ (encode_raw40 t.deleted ++ encode_raw48 t.size)

unfoldable pub by_seq_reduce : ℕ → List ℕ
by_seq_reduce count = encode_raw40 count

unfoldable pub by_seq_rereduce_loop : List (List ℕ) → ℕ → ℕ → Result ℕ
by_seq_rereduce_loop [] count total = ok total
by_seq_rereduce_loop (r ∷ rs) zero total = ok total
by_seq_rereduce_loop (r ∷ rs) (suc count) total = do
  assert (leb 5 (length r))
  by_seq_rereduce_loop rs count ((total + decode_raw40 r) % 2 ^ 64)

unfoldable pub by_seq_rereduce : List (List ℕ) → ℕ → Result (List ℕ)
unfolding by_seq_rereduce_loop
by_seq_rereduce ptrlist count = do
  total ← by_seq_rereduce_loop ptrlist count 0
  ok (encode_raw40 total)

-- Whether the `bp` of a raw_id_index_value, at its tenth byte, has the flag.
unfoldable pub is_deleted : List ℕ → Bool
is_deleted raw = not (bit_and (decode_raw48 (drop 10 raw)) bp_deleted_flag == 0)

unfoldable pub leaf_size : List ℕ → ℕ
leaf_size raw = decode_raw32 (drop 6 raw)

-- One leaf more.
unfoldable pub add_leaf : Bool → ℕ → IdTotals → IdTotals
add_leaf true size t = record {
  notdeleted = t.notdeleted;
  deleted = (t.deleted + 1) % 2 ^ 64;
  size = (t.size + size) % 2 ^ 64;
}
add_leaf false size t = record {
  notdeleted = (t.notdeleted + 1) % 2 ^ 64;
  deleted = t.deleted;
  size = (t.size + size) % 2 ^ 64;
}

unfoldable pub by_id_reduce_loop : List (List ℕ) → ℕ → IdTotals → Result IdTotals
by_id_reduce_loop [] count t = ok t
by_id_reduce_loop (raw ∷ rest) zero t = ok t
by_id_reduce_loop (raw ∷ rest) (suc count) t = do
  assert (leb 16 (length raw))
  by_id_reduce_loop rest count (add_leaf (is_deleted raw) (leaf_size raw) t)

unfoldable pub by_id_reduce : List (List ℕ) → ℕ → Result (List ℕ)
unfolding by_id_reduce_loop
by_id_reduce leaflist count = do
  t ← by_id_reduce_loop leaflist count no_totals
  ok (encode_by_id_reduce t)

unfoldable pub by_id_rereduce_loop : List (List ℕ) → ℕ → IdTotals → Result IdTotals
by_id_rereduce_loop [] count t = ok t
by_id_rereduce_loop (r ∷ rs) zero t = ok t
by_id_rereduce_loop (r ∷ rs) (suc count) t = do
  assert (leb 16 (length r))
  by_id_rereduce_loop rs count (record {
    notdeleted = (t.notdeleted + decode_raw40 r) % 2 ^ 64;
    deleted = (t.deleted + decode_raw40 (drop 5 r)) % 2 ^ 64;
    size = (t.size + decode_raw48 (drop 10 r)) % 2 ^ 64;
  })

unfoldable pub by_id_rereduce : List (List ℕ) → ℕ → Result (List ℕ)
unfolding by_id_rereduce_loop
by_id_rereduce ptrlist count = do
  t ← by_id_rereduce_loop ptrlist count no_totals
  ok (encode_by_id_reduce t)
