-- ===== src/Db/Count/Nodes.antt =====
-- The loop of btree_eval_seq_reduce of src/couch_db.cc over a node of pointers.
use couchstore.Base.{
  ℕ, zero, suc, ◌^◌, ◌≤◌, ◌<◌, ◌≡◌, ap, arith, leb, Bool, true, Bool-cases, inl, inr, List, [], ◌∷◌,
  length, All, All-split, Result, ok,
}
use native.Mathlib.Decide.{dec_lt}
use couchstore.KeyOrder.{seq_cmp}
use couchstore.NodeTypes.Items.{length-append-write_kv, write_items}
use couchstore.BTree.Lookup.Children.{Child, all_items, pointers, Bounded}
use couchstore.Db.Count.{plus, count_loop}
use couchstore.Db.Count.Ranges.{seq, count_range}
use couchstore.Db.Count.Leaves.{lo, hi}
use couchstore.Db.Count.Rounds.{Passed, IsKnown}
use couchstore.Db.Count.Children.{
  Summed, child_before, child_at_right, child_at_left, child_within, after, weaken_lt, from_on,
}

module _ (descend : ℕ → ℕ → Bool → Result ℕ) (left right : List ℕ) where
  abbrev L : ℕ
  L = lo descend left right

  abbrev H : ℕ
  H = hi descend left right

  pub node-count :
      (fuel : ℕ) (cs : List Child) (accum : ℕ) (past : Bool)
      → All (IsKnown descend left right) cs
      → Bounded seq_cmp cs
      → length (write_items (pointers cs)) ≤ fuel
      → accum < 2 ^ 64
      → Passed left past (all_items cs)
      → Summed descend left right fuel cs accum past
  unfolding pointers all_items write_items
  node-count fuel [] accum past k bd n a p =
      unfold count_loop count_range in ap (λ (t : ℕ). ok t) (omega arith)
  node-count zero (c ∷ cs) accum past k bd n a p =
      absurd (omega (arith, length-append-write_kv c.pointer (write_items (pointers cs))))
  node-count (suc fuel) (c ∷ cs) accum past k bd n a p =
      let n' : length (write_items (pointers cs)) ≤ fuel =
        omega (arith, length-append-write_kv c.pointer (write_items (pointers cs))) in
      let mine = λ (e : past ≡ true). All-split (λ i. L ≤ seq i) c.items (all_items cs) (p e) in
      elim (dec_lt (seq c.pointer) L) [
        | yes h ↦
            child_before descend left right fuel c cs accum k.0 bd.0 bd.1 past h
              (node-count fuel cs accum past k.1 bd.2 n' a (λ e. (mine e).1))
        | no h ↦ elim (Bool-cases (leb H (seq c.pointer))) [
          | inl t ↦
              child_at_right descend left right fuel c cs accum k.0 bd.0 bd.1 past (omega arith) t a
                (λ e. (mine e).0)
          | inr t ↦
              let onward =
                from_on descend left right L (seq c.pointer) (all_items cs) (omega arith)
                  (after descend left right c.pointer.key (all_items cs) bd.1) in
              elim (Bool-cases past) [
                | inl e ↦ rw e (
                    child_within descend left right fuel c cs accum k.0 bd.0 bd.1 (omega arith) t
                      (mine e).0
                      (node-count fuel cs (plus accum (length c.items)) true k.1 bd.2 n'
                        (omega arith) (λ _. weaken_lt descend left right L (all_items cs) onward)))
                | inr e ↦ rw e (
                    child_at_left descend left right fuel c cs accum k.0 bd.0 bd.1 (omega arith) t a
                      (node-count fuel cs (plus accum (count_range L H c.items)) true k.1 bd.2 n'
                        (omega arith) (λ _. weaken_lt descend left right L (all_items cs) onward)))
              ]
        ]
      ]
