-- ===== src/BTree/Lookup/Absent.antt =====
-- The loop of btree_lookup_inner over a leaf that does not have the current key.
use couchstore.Base.{
  ℕ, zero, suc, ◌≤◌, ◌≡◌, ◌≢◌, refl, ◌∙◌, arith, List, [], ◌∷◌, ◌++◌, length, All, ok,
}
use couchstore.Base.Order.{equal, Cmp-cases, is_less, is_equal, is_greater}
use couchstore.NodeTypes.{Item, write_kv}
use couchstore.NodeTypes.Items.{length-append-write_kv, Fits, write_items, read_kv-write_kv}
use couchstore.BTree.Lookup.{LookupRequest, kv_round, kv_loop}
use couchstore.BTree.Lookup.Answers.{HasByte, NoneOf}
use couchstore.BTree.Lookup.Rounds.{
  lookup_compare-eq, plain, kv_step, kv_round_less, kv_round_greater,
}

module _ {S : Type 0} (rq : LookupRequest S) where
  -- A key that no item has stays the current one, and hides the keys after it.
  stays :
      (fuel : ℕ) (i : Item) (k : List ℕ) (ks : List (List ℕ)) (s : S)
      → HasByte i.key
      → HasByte k
      → rq.compare i.key k ≢ equal
      → kv_round rq i k ks (plain s) ≡ ok (k ∷ ks, plain s)
  stays fuel i k ks s h h' n =
      let c' = lookup_compare-eq rq.compare i.key k h h' in
      elim (Cmp-cases (rq.compare i.key k)) [
        | is_less c ↦ kv_round_less rq i k ks s (c' ∙ c)
        | is_equal c ↦ absurd (n c)
        | is_greater c ↦ kv_round_greater rq i k ks s (c' ∙ c)
      ]

  pub leaf-missing :
      (fuel : ℕ) (items : List Item) (k : List ℕ) (ks : List (List ℕ)) (s : S)
      → All (λ (i : Item). HasByte i.key) items
      → All Fits items
      → HasByte k
      → NoneOf rq.compare items k
      → length (write_items items) ≤ fuel
      → kv_loop rq fuel (write_items items) (k ∷ ks) (plain s) ≡ ok (k ∷ ks, plain s)
  unfolding write_items
  leaf-missing fuel [] k ks s h f h' n l = unfold kv_loop in refl
  leaf-missing zero (i ∷ is) k ks s h f h' n l =
      absurd (omega (arith, length-append-write_kv i (write_items is)))
  leaf-missing (suc fuel) (i ∷ is) k ks s h f h' n l =
      rw
        (
          kv_step rq fuel (write_kv i ++ write_items is) (write_items is) i k ks (plain s)
              (omega (arith, length-append-write_kv i (write_items is)))
              (read_kv-write_kv i (write_items is) f.0),
          stays fuel i k ks s h.0 h' n.0,
        )
        (leaf-missing fuel is k ks s h.1 f.1 h' n.1
          (omega (arith, length-append-write_kv i (write_items is))))
