-- ===== src/Db/Count/Rounds.antt =====
-- A round of btree_eval_seq_reduce of src/couch_db.cc over a pointer that it descends into or takes
-- whole.
use couchstore.Base.{
  ℕ, ◌^◌, ◌≤◌, ◌<◌, ◌≡◌, refl, arith, leb, not, ◌||◌, Bool, true, false, List, length, drop, All,
  Result, ok,
}
use couchstore.Bitfield.{decode_raw40, decode_raw48}
use couchstore.NodeTypes.{Item, decode_sequence_key}
use couchstore.BTree.Lookup.Children.{Child}
use couchstore.BTree.Lookup.Descents.{IsPointer}
use couchstore.Db.Count.{plus, count_round}
use couchstore.Db.Count.Ranges.{seq, count_range}
use couchstore.Db.Count.Leaves.{lo, hi, not_below_seq}

-- The reduction behind a pointer counts the items of its subtree.
pub record IsCounted (c : Child) : Type 0 where
  pub room : 19 ≤ length c.pointer.value
  pub count : decode_raw40 (drop 14 c.pointer.value) ≡ length c.items

-- Where the left edge is passed, no item lies before it.
abbrev pub Passed : List ℕ → Bool → List Item → Type 0
Passed left past items = past ≡ true → All (λ i. decode_sequence_key left ≤ seq i) items

module _ (descend : ℕ → ℕ → Bool → Result ℕ) (left right : List ℕ) where
  -- `descend` counts the items of a subtree.
  abbrev pub Counts : ℕ → List Item → Type 0
  Counts position items =
      (accum : ℕ) (past : Bool)
      → accum < 2 ^ 64
      → Passed left past items
      → descend position accum past
        ≡ ok (plus accum (count_range (decode_sequence_key left) (decode_sequence_key right) items))

  -- What is known of a child in the loop.
  pub record IsKnown (c : Child) : Type 0 where
    pub pointer : IsPointer c
    pub counted : IsCounted c
    pub counts : Counts (decode_raw48 c.pointer.value) c.items

  abbrev L : ℕ
  L = lo descend left right

  abbrev H : ℕ
  H = hi descend left right

  pub round_into :
      (c : Child) (accum accum' : ℕ) (past : Bool)
      → 19 ≤ length c.pointer.value
      → L ≤ seq c.pointer
      → (not past || leb H (seq c.pointer)) ≡ true
      → descend (decode_raw48 c.pointer.value) accum past ≡ ok accum'
      → count_round descend true left right c.pointer accum past
        ≡ ok (record { stop = leb H (seq c.pointer); accum = accum'; past_left_edge = true })
  unfolding count_round
  round_into c accum accum' past room h t e =
      let room_test : leb 19 (length c.pointer.value) ≡ true = ground arith in
      let at : leb L (seq c.pointer) ≡ true = ground arith in
      rw (not_below_seq c.pointer.key left, at, room_test, not_below_seq c.pointer.key right, t, e)
        refl

  pub round_whole :
      (c : Child) (accum : ℕ)
      → IsCounted c
      → L ≤ seq c.pointer
      → leb H (seq c.pointer) ≡ false
      → count_round descend true left right c.pointer accum true
        ≡ ok (record { stop = false; accum = plus accum (length c.items); past_left_edge = true })
  unfolding count_round
  round_whole c accum r h t =
      let room_test : leb 19 (length c.pointer.value) ≡ true = ground (arith, r.room) in
      let at : leb L (seq c.pointer) ≡ true = ground arith in
      rw
        (
          not_below_seq c.pointer.key left,
          at,
          room_test,
          not_below_seq c.pointer.key right,
          t,
          r.count,
        )
        refl
