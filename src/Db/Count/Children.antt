-- ===== src/Db/Count/Children.antt =====
-- What btree_eval_seq_reduce of src/couch_db.cc adds for a child that lies before the range, at an
-- edge of it or within.
use couchstore.Base.{
  ℕ, suc, ◌^◌, ◌≤◌, ◌<◌, ◌≡◌, ◌≢◌, refl, ap, ◌∙◌, arith, leb, not, ◌||◌, Bool, true, false, List,
  ◌∷◌, length, All, All-map, Result, ok,
}
use couchstore.Base.Order.{less, greater}
use couchstore.KeyOrder.{seq_cmp}
use couchstore.NodeTypes.{Item, decode_sequence_key}
use couchstore.NodeTypes.Items.{write_items}
use couchstore.BTree.Lookup.Children.{Child, all_items, pointers}
use couchstore.Db.Count.{plus, count_loop}
use couchstore.Db.Count.Ranges.{
  seq, count_range, count_range-append, count_range-below, count_range-above, count_range-within,
  seq_cmp-less, seq_cmp-not_greater,
}
use couchstore.Db.Count.Leaves.{lo, hi, go_on, break_off, round_before, mod_twice}
use couchstore.Db.Count.Rounds.{Passed, IsKnown, round_into, round_whole}

module _ (descend : ℕ → ℕ → Bool → Result ℕ) (left right : List ℕ) where
  abbrev L : ℕ
  L = lo descend left right

  abbrev H : ℕ
  H = hi descend left right

  not_after :
      (ck : List ℕ) (is : List Item)
      → All (λ (i : Item). seq_cmp i.key ck ≢ greater) is
      → All (λ i. seq i ≤ decode_sequence_key ck) is
  not_after ck is h = All-map _ _ is (λ i n. seq_cmp-not_greater i.key ck n) h

  pub after :
      (ck : List ℕ) (is : List Item)
      → All (λ (i : Item). seq_cmp ck i.key ≡ less) is
      → All (λ i. decode_sequence_key ck < seq i) is
  after ck is h = All-map _ _ is (λ i n. seq_cmp-less ck i.key n) h

  up_to : (m n : ℕ) (is : List Item) → m < n → All (λ i. seq i ≤ m) is → All (λ i. seq i < n) is
  up_to m n is lt h = All-map (λ i. seq i ≤ m) (λ i. seq i < n) is (λ i le. omega arith) h

  pub from_on :
      (m n : ℕ) (is : List Item) → m ≤ n → All (λ i. n < seq i) is → All (λ i. m < seq i) is
  from_on m n is le h = All-map (λ i. n < seq i) (λ i. m < seq i) is (λ i lt. omega arith) h

  pub weaken_lt : (m : ℕ) (is : List Item) → All (λ i. m < seq i) is → All (λ i. m ≤ seq i) is
  weaken_lt m is h = All-map (λ i. m < seq i) (λ i. m ≤ seq i) is (λ i lt. omega arith) h

  weaken_gt : (m : ℕ) (is : List Item) → All (λ i. seq i < m) is → All (λ i. seq i ≤ m) is
  weaken_gt m is h = All-map (λ i. seq i < m) (λ i. seq i ≤ m) is (λ i lt. omega arith) h

  -- The sum behind a node: what the loop says of these children.
  abbrev pub Summed : ℕ → List Child → ℕ → Bool → Type 0
  Summed fuel cs accum past =
      count_loop descend true left right fuel (write_items (pointers cs)) accum past
      ≡ ok (plus accum (count_range L H (all_items cs)))

  module _ (fuel : ℕ) (c : Child) (cs : List Child) (accum : ℕ) (k : IsKnown descend left right c)
      (low : All (λ (i : Item). seq_cmp i.key c.pointer.key ≢ greater) c.items)
      (high : All (λ (i : Item). seq_cmp c.pointer.key i.key ≡ less) (all_items cs)) where
    pub child_before :
        (past : Bool)
        → seq c.pointer < L
        → Summed fuel cs accum past
        → Summed (suc fuel) (c ∷ cs) accum past
    unfolding pointers all_items
    child_before past h ih =
        rw
          (
            go_on descend left right true fuel c.pointer (pointers cs) accum accum past past
                k.pointer.fits (round_before descend left right true c.pointer accum past h),
            count_range-append L H c.items (all_items cs),
            count_range-below L H c.items
                (up_to (seq c.pointer) L c.items h (not_after c.pointer.key c.items low)),
          )
          (ih ∙ ap (λ (t : ℕ). ok (plus accum t)) (omega arith))

    pub child_at_right :
        (past : Bool)
        → L ≤ seq c.pointer
        → leb H (seq c.pointer) ≡ true
        → accum < 2 ^ 64
        → Passed left past c.items
        → Summed (suc fuel) (c ∷ cs) accum past
    unfolding pointers all_items
    child_at_right past h t a p =
        rw
          (
            break_off descend left right true fuel c.pointer (pointers cs) accum
                (plus accum (count_range L H c.items)) past true k.pointer.fits
                (round_into descend left right c accum (plus accum (count_range L H c.items)) past
                    k.counted.room h (test past) (k.counts accum past a p)
                  ∙ ap
                      (λ b. ok (record {
                        stop = b;
                        accum = plus accum (count_range L H c.items);
                        past_left_edge = true;
                      }))
                      t),
            count_range-append L H c.items (all_items cs),
            count_range-above L H (all_items cs) (
                from_on H (seq c.pointer) (all_items cs) (ground arith)
                  (after c.pointer.key (all_items cs) high)),
          )
          (ap (λ (n : ℕ). ok (plus accum n)) (omega arith))
      where
        test : (b : Bool) → (not b || leb H (seq c.pointer)) ≡ true
        test true = t
        test false = refl

    pub child_at_left :
        L ≤ seq c.pointer
        → leb H (seq c.pointer) ≡ false
        → accum < 2 ^ 64
        → Summed fuel cs (plus accum (count_range L H c.items)) true
        → Summed (suc fuel) (c ∷ cs) accum false
    unfolding pointers all_items
    child_at_left h t a ih =
        rw
          (
            go_on descend left right true fuel c.pointer (pointers cs) accum
                (plus accum (count_range L H c.items)) false true k.pointer.fits
                (round_into descend left right c accum (plus accum (count_range L H c.items)) false
                    k.counted.room h refl (k.counts accum false a (λ e. cc))
                  ∙ ap
                      (λ b. ok (record {
                        stop = b;
                        accum = plus accum (count_range L H c.items);
                        past_left_edge = true;
                      }))
                      t),
            count_range-append L H c.items (all_items cs),
          )
          (ih
            ∙ ap (λ (n : ℕ). ok n)
                (mod_twice accum (count_range L H c.items) (count_range L H (all_items cs))))

    pub child_within :
        L ≤ seq c.pointer
        → leb H (seq c.pointer) ≡ false
        → All (λ i. L ≤ seq i) c.items
        → Summed fuel cs (plus accum (length c.items)) true
        → Summed (suc fuel) (c ∷ cs) accum true
    unfolding pointers all_items
    child_within h t p ih =
        rw
          (
            go_on descend left right true fuel c.pointer (pointers cs) accum
                (plus accum (length c.items)) true true k.pointer.fits
                (round_whole descend left right c accum k.counted h t),
            count_range-append L H c.items (all_items cs),
            count_range-within L H c.items p (
                weaken_gt H c.items (
                  up_to (seq c.pointer) H c.items (ground arith)
                    (not_after c.pointer.key c.items low))),
          )
          (ih
            ∙ ap (λ (n : ℕ). ok n)
                (mod_twice accum (length c.items) (count_range L H (all_items cs))))
