-- ===== src/BTree/Lookup/Tours.antt =====
-- The loop of btree_lookup_inner over a node of pointers, where a lookup folds from one key on.
use couchstore.Base.{
  ℕ, zero, suc, ◌≤◌, ◌≡◌, ◌≢◌, refl, ap, ◌∙◌, arith, Bool, true, false, leb, ◌||◌, if◌then◌else◌,
  Bool-cases, inl, inr, List, [], ◌∷◌, ◌++◌, length, All, Result, ok, err, fault, ◌>>=◌, none,
}
use couchstore.Base.Order.{
  Cmp, less, equal, greater, IsComparator, Cmp-cases, is_less, is_equal, is_greater,
}
use couchstore.Bitfield.{decode_raw48}
use couchstore.NodeTypes.{Item, write_kv}
use couchstore.NodeTypes.Items.{length-append-write_kv, write_items, read_kv-write_kv}
use couchstore.BTree.Lookup.{
  LookupRequest, LookupState, lookup_compare, not_below, last_item, call_node, kp_descend, kp_loop,
}
use couchstore.BTree.Lookup.Answers.{HasByte}
use couchstore.BTree.Lookup.Children.{Child, all_items, pointers, Bounded}
use couchstore.BTree.Lookup.Folds.{walk, folding, same_keys, Walks, walk-append}
use couchstore.BTree.Lookup.Descents.{IsPointer, Descend, kp_step, enter_silent, call_silent}

below_both :
    (compare : List ℕ → List ℕ → Cmp) (o : IsComparator compare) (a b k : List ℕ)
    → HasByte b
    → compare a b ≢ greater
    → lookup_compare compare b k ≡ less
    → lookup_compare compare a k ≡ less
unfolding lookup_compare
below_both compare o [] b k h n c = refl
below_both compare o (x ∷ a) [] k h n c = absurd (omega arith)
below_both compare o (x ∷ a) (y ∷ b) [] h n c = cc
below_both compare o (x ∷ a) (y ∷ b) (z ∷ k) h n c = elim (Cmp-cases (compare (x ∷ a) (y ∷ b))) [
  | is_less e ↦ o.trans (x ∷ a) (y ∷ b) (z ∷ k) e c
  | is_equal e ↦ o.congr (x ∷ a) (y ∷ b) (z ∷ k) e ∙ c
  | is_greater e ↦ absurd (n e)
]

module _ {S : Type 0} (rq : LookupRequest S) (k : List ℕ) (o : IsComparator rq.compare)
    (silent : rq.node_callback ≡ none) where
  walk_none :
      (ck : List ℕ) (is : List Item) (s : S)
      → HasByte ck
      → lookup_compare rq.compare ck k ≡ less
      → All (λ (i : Item). rq.compare i.key ck ≢ greater) is
      → walk rq k is s ≡ ok s
  unfolding walk
  walk_none ck [] s h c n = refl
  walk_none ck (i ∷ is) s h c n =
      rw (below_both rq.compare o i.key ck k h n.0 c) (walk_none ck is s h c n.1)

  abbrev pub returned : Bool → S → Result (LookupState S)
  returned b s = ok (folding rq k b s)

  -- `descend` walks over the items of a subtree.
  abbrev pub Tours : Descend rq o silent → ℕ → List Item → Type 0
  Tours descend position items =
      (b : Bool) (s : S)
      → Walks rq k b returned (descend position (k ∷ []) (folding rq k b s)) items s

  descend-Walks :
      (descend : Descend rq o silent) (c : Child) (b : Bool) (s : S)
      → 6 ≤ length c.pointer.value
      → Walks rq k true returned
          (descend (decode_raw48 c.pointer.value) (k ∷ []) (folding rq k true s))
          c.items
          s
      → kp_descend rq descend c.pointer k [] (folding rq k b s)
        ≡ (walk rq k c.items s >>= same_keys rq k true)
  unfolding kp_descend last_item
  descend-Walks descend c b s room w =
      rw (enter_silent rq o silent s c.pointer.value, room_test, or_true b, w.calls, w.kept refl)
        (after (walk rq k c.items s))
    where
      room_test : leb 6 (length c.pointer.value) ≡ true
      room_test = ground arith

      or_true : (b : Bool) → (b || true) ≡ true
      or_true true = refl
      or_true false = refl

      after :
          (r : Result S)
          → ((r >>= returned true) >>= λ st'. call_node rq st'.ctx 0 none >>= λ l.
              ok (if st'.in_fold then k ∷ [] else [], record st' { ctx = l }))
            ≡ (r >>= same_keys rq k true)
      after (ok s') = rw (call_silent rq o silent s' 0 none) refl
      after (err code) = refl
      after fault = refl

  pub node-Walks :
      (descend : Descend rq o silent) (fuel : ℕ) (cs : List Child) (b : Bool) (s : S)
      → All IsPointer cs
      → Bounded rq.compare cs
      → All (λ c. Tours descend (decode_raw48 c.pointer.value) c.items) cs
      → length (write_items (pointers cs)) ≤ fuel
      → Walks rq k b
          (same_keys rq k)
          (kp_loop rq descend fuel (write_items (pointers cs)) (k ∷ []) (folding rq k b s))
          (all_items cs)
          s
  unfolding write_items pointers all_items
  node-Walks descend fuel [] b s ip bd t n = record {
    after = b;
    kept = λ e. e;
    calls = unfold kp_loop walk in refl;
  }
  node-Walks descend zero (c ∷ cs) b s ip bd t n =
      absurd (omega (arith, length-append-write_kv c.pointer (write_items (pointers cs))))
  node-Walks descend (suc fuel) (c ∷ cs) b s ip bd t n =
      let n' : length (write_items (pointers cs)) ≤ fuel =
        omega (arith, length-append-write_kv c.pointer (write_items (pointers cs))) in
      let step =
        kp_step rq o silent descend fuel (write_kv c.pointer ++ write_items (pointers cs))
          (write_items (pointers cs)) c.pointer k [] (folding rq k b s)
          (omega (arith, length-append-write_kv c.pointer (write_items (pointers cs))))
          (read_kv-write_kv c.pointer (write_items (pointers cs)) ip.0.fits) in
      elim (Bool-cases (not_below (lookup_compare rq.compare c.pointer.key k))) [
        | inl e ↦ record {
          after = true;
          kept = λ q. refl;
          calls =
              rw
                (
                  step,
                  e,
                  descend-Walks descend c b s ip.0.position (t.0 true s),
                  walk-append rq k c.items (all_items cs) s,
                )
                (next (walk rq k c.items s)
                  (λ s'. node-Walks descend fuel cs true s' ip.1 bd.2 t.1 n'));
        }
        | inr e ↦
            let rest = node-Walks descend fuel cs b s ip.1 bd.2 t.1 n' in
            record {
              after = rest.after;
              kept = rest.kept;
              calls =
                  rw
                    (
                      step,
                      e,
                      walk-append rq k c.items (all_items cs) s,
                      walk_none c.pointer.key c.items s ip.0.has_key
                          (is_below (lookup_compare rq.compare c.pointer.key k) e) bd.0,
                    )
                    rest.calls;
            }
      ]
    where
      is_below : (c : Cmp) → not_below c ≡ false → c ≡ less
      is_below less h = refl
      is_below equal h = cc
      is_below greater h = cc

      next :
          (r : Result S)
          → ((s' : S)
              → Walks rq k true
                  (same_keys rq k)
                  (kp_loop rq descend fuel
                    (write_items (pointers cs))
                    (k ∷ [])
                    (folding rq k true s'))
                  (all_items cs)
                  s')
          → ((r >>= same_keys rq k true) >>= λ p.
              kp_loop rq descend fuel (write_items (pointers cs)) p.0 p.1)
            ≡ ((r >>= λ s'. walk rq k (all_items cs) s') >>= same_keys rq k true)
      next (ok s') ih =
          (ih s').calls
          ∙ ap (λ (a : Bool). walk rq k (all_items cs) s' >>= same_keys rq k a) ((ih s').kept refl)
      next (err code) ih = refl
      next fault ih = refl
