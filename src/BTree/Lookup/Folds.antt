-- ===== src/BTree/Lookup/Folds.antt =====
-- The loops of btree_lookup_inner where a lookup folds from one key on.
use couchstore.Base.{
  ℕ, zero, suc, ◌≤◌, ◌≡◌, refl, ap, ◌∙◌, arith, Bool, true, false, if◌then◌else◌, Bool-cases, inl,
  inr, List, [], ◌∷◌, ◌++◌, length, All, Result, ok, err, fault, ◌>>=◌, some,
}
use couchstore.Base.Order.{Cmp-cases, Case, is_less, is_equal, is_greater}
use couchstore.NodeTypes.{Item, write_kv}
use couchstore.NodeTypes.Items.{length-append-write_kv, Fits, write_items, read_kv-write_kv}
use couchstore.BTree.Lookup.{
  LookupRequest, LookupState, lookup_compare, not_below, kv_round, kv_loop,
}
use couchstore.BTree.Lookup.Rounds.{kv_step}

module _ {S : Type 0} (rq : LookupRequest S) (k : List ℕ) where
  -- The calls for all items from the key `k` on, in their order.
  unfoldable pub walk : List Item → S → Result S
  walk [] s = ok s
  walk (i ∷ is) s =
      if not_below (lookup_compare rq.compare i.key k)
      then (rq.fetch_callback s i.key (some i.value) >>= λ s'. walk is s')
      else walk is s

  abbrev pub folding : Bool → S → LookupState S
  folding b s = record { fold = true; in_fold = b; ctx = s }

  abbrev pub same_keys : Bool → S → Result (List (List ℕ) × LookupState S)
  same_keys b s = ok (k ∷ [], folding b s)

  -- A run that makes the calls of `walk`, with the flag in_fold as it was or set.
  pub record Walks {A : Type 0} (b : Bool) (finish : Bool → S → Result A) (run : Result A)
      (items : List Item) (s : S) : Type 0 where
    pub after : Bool
    pub kept : b ≡ true → after ≡ true
    pub calls : run ≡ (walk items s >>= finish after)

  round_found :
      (i : Item) (b : Bool) (s : S)
      → not_below (lookup_compare rq.compare i.key k) ≡ true
      → kv_round rq i k [] (folding b s)
        ≡ (rq.fetch_callback s i.key (some i.value) >>= λ s'. same_keys true s')
  unfolding kv_round
  round_found i b s c = by_case b (Cmp-cases (lookup_compare rq.compare i.key k))
    where
      by_case :
          (b : Bool)
          → Case (lookup_compare rq.compare i.key k)
          → kv_round rq i k [] (folding b s)
            ≡ (rq.fetch_callback s i.key (some i.value) >>= λ s'. same_keys true s')
      by_case b (is_less e) = absurd (ground arith)
      by_case true (is_equal e) = rw e refl
      by_case true (is_greater e) = rw e refl
      by_case false (is_equal e) = rw e refl
      by_case false (is_greater e) = rw e refl

  round_below :
      (i : Item) (b : Bool) (s : S)
      → not_below (lookup_compare rq.compare i.key k) ≡ false
      → kv_round rq i k [] (folding b s) ≡ same_keys b s
  unfolding kv_round
  round_below i b s c = by_case b (Cmp-cases (lookup_compare rq.compare i.key k))
    where
      by_case :
          (b : Bool)
          → Case (lookup_compare rq.compare i.key k)
          → kv_round rq i k [] (folding b s) ≡ same_keys b s
      by_case true (is_less e) = rw e refl
      by_case false (is_less e) = rw e refl
      by_case b (is_equal e) = absurd (ground arith)
      by_case b (is_greater e) = absurd (ground arith)

  pub walk_found :
      (i : Item) (is : List Item) (s : S)
      → not_below (lookup_compare rq.compare i.key k) ≡ true
      → walk (i ∷ is) s ≡ (rq.fetch_callback s i.key (some i.value) >>= λ s'. walk is s')
  unfolding walk
  walk_found i is s c = rw c refl

  pub walk_below :
      (i : Item) (is : List Item) (s : S)
      → not_below (lookup_compare rq.compare i.key k) ≡ false
      → walk (i ∷ is) s ≡ walk is s
  unfolding walk
  walk_below i is s c = rw c refl

  pub leaf-Walks :
      (fuel : ℕ) (items : List Item) (b : Bool) (s : S)
      → All Fits items
      → length (write_items items) ≤ fuel
      → Walks b same_keys (kv_loop rq fuel (write_items items) (k ∷ []) (folding b s)) items s
  unfolding write_items
  leaf-Walks fuel [] b s f n = record {
    after = b;
    kept = λ e. e;
    calls = unfold kv_loop walk in refl;
  }
  leaf-Walks zero (i ∷ is) b s f n =
      absurd (omega (arith, length-append-write_kv i (write_items is)))
  leaf-Walks (suc fuel) (i ∷ is) b s f n =
      let n' : length (write_items is) ≤ fuel =
        omega (arith, length-append-write_kv i (write_items is)) in
      let step =
        kv_step rq fuel (write_kv i ++ write_items is) (write_items is) i k [] (folding b s)
          (omega (arith, length-append-write_kv i (write_items is)))
          (read_kv-write_kv i (write_items is) f.0) in
      elim (Bool-cases (not_below (lookup_compare rq.compare i.key k))) [
        | inl c ↦ record {
          after = true;
          kept = λ e. refl;
          calls =
              rw (step, round_found i b s c, walk_found i is s c)
                (next (rq.fetch_callback s i.key (some i.value))
                  (λ s'. leaf-Walks fuel is true s' f.1 n'));
        }
        | inr c ↦
            let rest = leaf-Walks fuel is b s f.1 n' in
            record {
              after = rest.after;
              kept = rest.kept;
              calls = rw (step, round_below i b s c, walk_below i is s c) rest.calls;
            }
      ]
    where
      next :
          (r : Result S)
          → ((s' : S)
              → Walks true same_keys
                  (kv_loop rq fuel (write_items is) (k ∷ []) (folding true s'))
                  is
                  s')
          → ((r >>= λ s'. same_keys true s') >>= λ p. kv_loop rq fuel (write_items is) p.0 p.1)
            ≡ ((r >>= λ s'. walk is s') >>= same_keys true)
      next (ok s') ih =
          (ih s').calls ∙ ap (λ (a : Bool). walk is s' >>= same_keys a) ((ih s').kept refl)
      next (err code) ih = refl
      next fault ih = refl

  pub walk-append :
      (xs ys : List Item) (s : S) → walk (xs ++ ys) s ≡ (walk xs s >>= λ s'. walk ys s')
  unfolding walk
  walk-append [] ys s = refl
  walk-append (i ∷ xs) ys s = elim (Bool-cases (not_below (lookup_compare rq.compare i.key k))) [
    | inl c ↦ rw c (next (rq.fetch_callback s i.key (some i.value)) (λ s'. walk-append xs ys s'))
    | inr c ↦ rw c (walk-append xs ys s)
  ]
    where
      next :
          (r : Result S)
          → ((s' : S) → walk (xs ++ ys) s' ≡ (walk xs s' >>= λ s''. walk ys s''))
          → (r >>= λ s'. walk (xs ++ ys) s') ≡ ((r >>= λ s'. walk xs s') >>= λ s''. walk ys s'')
      next (ok s') ih = ih s'
      next (err code) ih = refl
      next fault ih = refl
