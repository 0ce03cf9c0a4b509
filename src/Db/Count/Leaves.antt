-- ===== src/Db/Count/Leaves.antt =====
-- The loop of btree_eval_seq_reduce of src/couch_db.cc over a leaf.
use couchstore.Base.{
  ℕ, zero, suc, ◌+◌, ◌^◌, ◌%◌, ◌≤◌, ◌<◌, ◌≡◌, refl, ap, ◌∙◌, arith, leb, ltb, Bool, true, false,
  List, [], ◌∷◌, ◌++◌, length, All, Result, ok,
}
use native.Mathlib.Decide.{dec_lt}
use couchstore.Base.Order.{less, cmp_ℕ, Sorted}
use couchstore.KeyOrder.{seq_cmp, seq_cmp-cmp_ℕ}
use couchstore.NodeTypes.{Item, read_kv, write_kv, decode_sequence_key}
use couchstore.NodeTypes.Items.{length-append-write_kv, Fits, write_items, read_kv-write_kv}
use couchstore.BTree.Lookup.{not_below, is_above}
use couchstore.BTree.Lookup.Rounds.{ByKey}
use couchstore.Db.Count.{plus, count_round, count_loop}
use couchstore.Db.Count.Ranges.{seq, counted, count_range, count_range-above, seq_cmp-less}

pub not_below_seq :
    (a b : List ℕ) → not_below (seq_cmp a b) ≡ leb (decode_sequence_key b) (decode_sequence_key a)
not_below_seq a b =
    ap not_below (seq_cmp-cmp_ℕ a b) ∙ by_numbers (decode_sequence_key a) (decode_sequence_key b)
  where
    by_numbers : (m n : ℕ) → not_below (cmp_ℕ m n) ≡ leb n m
    by_numbers m n = ground arith

is_above_seq :
    (a b : List ℕ) → is_above (seq_cmp a b) ≡ ltb (decode_sequence_key b) (decode_sequence_key a)
is_above_seq a b =
    ap is_above (seq_cmp-cmp_ℕ a b) ∙ by_numbers (decode_sequence_key a) (decode_sequence_key b)
  where
    by_numbers : (m n : ℕ) → is_above (cmp_ℕ m n) ≡ ltb n m
    by_numbers m n = ground arith

pub mod_twice : (a b c : ℕ) → ((a + b) % 2 ^ 64 + c) % 2 ^ 64 ≡ (a + (b + c)) % 2 ^ 64
mod_twice a b c = omega arith

module _ (descend : ℕ → ℕ → Bool → Result ℕ) (left right : List ℕ) where
  abbrev pub lo : ℕ
  lo = decode_sequence_key left

  abbrev pub hi : ℕ
  hi = decode_sequence_key right

  -- A round that goes on, and one that stops.
  pub go_on :
      (kp : Bool) (fuel : ℕ) (i : Item) (is : List Item) (accum accum' : ℕ) (past past' : Bool)
      → Fits i
      → count_round descend kp left right i accum past
        ≡ ok (record { stop = false; accum = accum'; past_left_edge = past' })
      → count_loop descend kp left right (suc fuel) (write_items (i ∷ is)) accum past
        ≡ count_loop descend kp left right fuel (write_items is) accum' past'
  unfolding write_items
  go_on kp fuel i is accum accum' past past' f e =
      step (write_kv i ++ write_items is) (omega (arith, length-append-write_kv i (write_items is)))
        (read_kv-write_kv i (write_items is) f)
    where
      step :
          (bytes : List ℕ)
          → 0 < length bytes
          → read_kv bytes ≡ ok (i, write_items is)
          → count_loop descend kp left right (suc fuel) bytes accum past
            ≡ count_loop descend kp left right fuel (write_items is) accum' past'
      step [] h r = absurd (omega arith)
      step (b ∷ bs) h r = unfold count_loop in rw (r, e) refl

  pub break_off :
      (kp : Bool) (fuel : ℕ) (i : Item) (is : List Item) (accum accum' : ℕ) (past past' : Bool)
      → Fits i
      → count_round descend kp left right i accum past
        ≡ ok (record { stop = true; accum = accum'; past_left_edge = past' })
      → count_loop descend kp left right (suc fuel) (write_items (i ∷ is)) accum past ≡ ok accum'
  unfolding write_items
  break_off kp fuel i is accum accum' past past' f e =
      step (write_kv i ++ write_items is) (omega (arith, length-append-write_kv i (write_items is)))
        (read_kv-write_kv i (write_items is) f)
    where
      step :
          (bytes : List ℕ)
          → 0 < length bytes
          → read_kv bytes ≡ ok (i, write_items is)
          → count_loop descend kp left right (suc fuel) bytes accum past ≡ ok accum'
      step [] h r = absurd (omega arith)
      step (b ∷ bs) h r = unfold count_loop in rw (r, e) refl

  -- Rounds, by where the item lies.
  pub round_before :
      (kp : Bool) (i : Item) (accum : ℕ) (past : Bool)
      → seq i < lo
      → count_round descend kp left right i accum past
        ≡ ok (record { stop = false; accum = accum; past_left_edge = past })
  unfolding count_round
  round_before kp i accum past h =
      let t : leb lo (seq i) ≡ false = ground arith in rw (not_below_seq i.key left, t) refl

  round_within :
      (i : Item) (accum : ℕ) (past : Bool)
      → lo ≤ seq i
      → seq i ≤ hi
      → count_round descend false left right i accum past
        ≡ ok (record { stop = false; accum = plus accum 1; past_left_edge = past })
  unfolding count_round
  round_within i accum past h k =
      let t : leb lo (seq i) ≡ true = ground arith in
      let u : ltb hi (seq i) ≡ false = ground arith in
      rw (not_below_seq i.key left, is_above_seq i.key right, t, u) refl

  round_behind :
      (i : Item) (accum : ℕ) (past : Bool)
      → lo ≤ seq i
      → hi < seq i
      → count_round descend false left right i accum past
        ≡ ok (record { stop = true; accum = accum; past_left_edge = past })
  unfolding count_round
  round_behind i accum past h k =
      let t : leb lo (seq i) ≡ true = ground arith in
      let u : ltb hi (seq i) ≡ true = ground arith in
      rw (not_below_seq i.key left, is_above_seq i.key right, t, u) refl

  later-above :
      (i : Item) (is : List Item)
      → hi < seq i
      → All (λ j. ByKey seq_cmp i j ≡ less) is
      → All (λ j. hi < seq j) is
  later-above i [] h s = tt
  later-above i (j ∷ is) h s = (omega (arith, seq_cmp-less i.key j.key s.0), later-above i is h s.1)

  pub leaf-count :
      (fuel : ℕ) (items : List Item) (accum : ℕ) (past : Bool)
      → Sorted (ByKey seq_cmp) items
      → All Fits items
      → length (write_items items) ≤ fuel
      → accum < 2 ^ 64
      → count_loop descend false left right fuel (write_items items) accum past
        ≡ ok (plus accum (count_range lo hi items))
  unfolding write_items count_range
  leaf-count fuel [] accum past so f n a = unfold count_loop in ap (λ (t : ℕ). ok t) (omega arith)
  leaf-count zero (i ∷ is) accum past so f n a =
      absurd (omega (arith, length-append-write_kv i (write_items is)))
  leaf-count (suc fuel) (i ∷ is) accum past so f n a =
      let n' : length (write_items is) ≤ fuel =
        omega (arith, length-append-write_kv i (write_items is)) in
      elim (dec_lt (seq i) lo) [
        | yes h ↦
            let out : counted lo hi (seq i) ≡ 0 = ground arith in
            rw
              (
                go_on false fuel i is accum accum past past f.0 (round_before false i accum past h),
                out,
              )
              (leaf-count fuel is accum past so.1 f.1 n' a
                ∙ ap (λ (t : ℕ). ok (plus accum t)) (omega arith))
        | no h ↦ elim (dec_lt hi (seq i)) [
          | yes k ↦
              let out : counted lo hi (seq i) ≡ 0 = ground arith in
              rw
                (
                  break_off false fuel i is accum accum past past f.0
                      (round_behind i accum past (omega arith) k),
                  out,
                  count_range-above lo hi is (later-above i is k so.0),
                )
                (ap (λ (t : ℕ). ok t) (omega arith))
          | no k ↦
              let at : counted lo hi (seq i) ≡ 1 = ground arith in
              rw
                (
                  go_on false fuel i is accum (plus accum 1) past past f.0
                      (round_within i accum past (omega arith) (omega arith)),
                  at,
                )
                (leaf-count fuel is (plus accum 1) past so.1 f.1 n' (omega arith)
                  ∙ ap (λ (t : ℕ). ok t) (mod_twice accum 1 (count_range lo hi is)))
        ]
      ]
