-- ===== src/BTree/Lookup/Descents.antt =====
-- A round of the loop of btree_lookup_inner over a node of pointers, where nothing is folded and no
-- node callback is given.
use couchstore.Base.{
  ℕ, suc, ◌≤◌, ◌<◌, ◌≡◌, refl, sym, ap, ◌∙◌, arith, true, leb, if◌then◌else◌, List, [], ◌∷◌, ◌++◌,
  length, Result, ok, err, fault, ◌>>=◌, Option, none,
}
use couchstore.Base.Order.{less, IsComparator}
use couchstore.Bitfield.{decode_raw48}
use couchstore.NodeTypes.{Item, read_kv, write_kv}
use couchstore.NodeTypes.Items.{length-append-write_kv, Fits, write_items, read_kv-write_kv}
use couchstore.BTree.Lookup.{
  LookupRequest, LookupState, lookup_compare, not_below, last_item, enter_node, call_node,
  kp_descend, kp_loop,
}
use couchstore.BTree.Lookup.Answers.{
  HasByte, Asks, FindsSame, answers, answers-FindsSame, answers-append,
}
use couchstore.BTree.Lookup.Rounds.{plain, done, finish, left_with}
use couchstore.BTree.Lookup.Children.{Child, all_items, pointers}

-- What an item of a node of pointers is: its key is no empty string, its lengths fit, and its value
-- has room for the position of a node.
pub record IsPointer (c : Child) : Type 0 where
  pub has_key : HasByte c.pointer.key
  pub fits : Fits c.pointer
  pub position : 6 ≤ length c.pointer.value

module _ {S : Type 0} (rq : LookupRequest S) (o : IsComparator rq.compare)
    (silent : rq.node_callback ≡ none) where
  abbrev pub Descend : Type 0
  Descend = ℕ → List (List ℕ) → LookupState S → Result (LookupState S)

  -- `descend` answers the keys from the items of a subtree.
  abbrev pub Serves : Descend → ℕ → List Item → Type 0
  Serves descend position items =
      (ks : List (List ℕ)) (s : S)
      → Asks rq.compare items ks
      → descend position ks (plain s) ≡ done (answers rq.compare rq.fetch_callback items ks s)

  pub kp_step :
      (descend : Descend) (fuel : ℕ) (bytes rest : List ℕ) (i : Item) (k : List ℕ)
      (ks : List (List ℕ)) (st : LookupState S)
      → 0 < length bytes
      → read_kv bytes ≡ ok (i, rest)
      → kp_loop rq descend (suc fuel) bytes (k ∷ ks) st ≡ (
          (if not_below (lookup_compare rq.compare i.key k)
            then kp_descend rq descend i k ks st
            else ok (k ∷ ks, st))
          >>= λ p. kp_loop rq descend fuel rest p.0 p.1)
  unfolding kp_loop
  kp_step descend fuel [] rest i k ks st h e = absurd (omega arith)
  kp_step descend fuel (b ∷ bs) rest i k ks st h e = rw e refl

  pub kp_no_keys :
      (descend : Descend) (fuel : ℕ) (bytes : List ℕ) (st : LookupState S)
      → kp_loop rq descend fuel bytes [] st ≡ ok ([], st)
  unfolding kp_loop
  kp_no_keys descend fuel [] st = refl
  kp_no_keys descend fuel (b ∷ bs) st = refl

  pub enter_silent : (s : S) (raw : List ℕ) → enter_node rq s raw ≡ ok s
  unfolding enter_node
  enter_silent s raw = ground (arith, silent)

  pub call_silent : (s : S) (n : ℕ) (r : Option (List ℕ)) → call_node rq s n r ≡ ok s
  unfolding call_node
  call_silent s n r = ground (arith, silent)

  -- A descent answers the child's keys and goes on with those beyond.
  pub descend_answers :
      (descend : Descend) (c : Child) (k : List ℕ) (ks here beyond : List (List ℕ)) (s : S)
      → last_item rq c.pointer.key ks ≡ (here, beyond)
      → 6 ≤ length c.pointer.value
      → descend (decode_raw48 c.pointer.value) (k ∷ here) (plain s)
        ≡ done (answers rq.compare rq.fetch_callback c.items (k ∷ here) s)
      → kp_descend rq descend c.pointer k ks (plain s)
        ≡ (answers rq.compare rq.fetch_callback c.items (k ∷ here) s >>= λ s'. left_with beyond s')
  unfolding kp_descend
  descend_answers descend c k ks here beyond s e room d =
      rw (e, enter_silent s c.pointer.value, room_test, d)
        (after (answers rq.compare rq.fetch_callback c.items (k ∷ here) s))
    where
      room_test : leb 6 (length c.pointer.value) ≡ true
      room_test = ground arith

      after :
          (r : Result S)
          → (done r >>= λ st'. call_node rq st'.ctx 0 none >>= λ l.
              ok (if st'.in_fold then k ∷ ks else beyond, record st' { ctx = l }))
            ≡ (r >>= λ s'. left_with beyond s')
      after (ok s') = rw (call_silent s' 0 none) refl
      after (err code) = refl
      after fault = refl

  -- The loop over the children, and the keys that it leaves.
  abbrev pub Answered : Descend → ℕ → List Child → List (List ℕ) → S → Type 0
  Answered descend fuel cs ks s =
      finish rq (kp_loop rq descend fuel (write_items (pointers cs)) ks (plain s))
      ≡ done (answers rq.compare rq.fetch_callback (all_items cs) ks s)

  -- The keys are beyond this child.
  pub pass_child :
      (descend : Descend) (fuel : ℕ) (c : Child) (cs : List Child) (k : List ℕ) (ks : List (List ℕ))
      (s : S)
      → Fits c.pointer
      → lookup_compare rq.compare c.pointer.key k ≡ less
      → FindsSame rq.compare (c.items ++ all_items cs) (all_items cs) (k ∷ ks)
      → Answered descend fuel cs (k ∷ ks) s
      → Answered descend (suc fuel) (c ∷ cs) (k ∷ ks) s
  unfolding write_items pointers all_items
  pass_child descend fuel c cs k ks s f e same ih =
      rw
        (
          kp_step descend fuel (write_kv c.pointer ++ write_items (pointers cs))
              (write_items (pointers cs)) c.pointer k ks (plain s)
              (omega (arith, length-append-write_kv c.pointer (write_items (pointers cs))))
              (read_kv-write_kv c.pointer (write_items (pointers cs)) f),
          e,
          answers-FindsSame rq.compare rq.fetch_callback (c.items ++ all_items cs) (all_items cs)
              (k ∷ ks) s same,
        )
        ih

  -- Some of the keys are this child's.
  pub serve_child :
      (descend : Descend) (fuel : ℕ) (c : Child) (cs : List Child) (k : List ℕ)
      (ks here beyond : List (List ℕ)) (s : S)
      → Fits c.pointer
      → not_below (lookup_compare rq.compare c.pointer.key k) ≡ true
      → kp_descend rq descend c.pointer k ks (plain s)
        ≡ (answers rq.compare rq.fetch_callback c.items (k ∷ here) s >>= λ s'. left_with beyond s')
      → ks ≡ here ++ beyond
      → FindsSame rq.compare (c.items ++ all_items cs) c.items (k ∷ here)
      → FindsSame rq.compare (c.items ++ all_items cs) (all_items cs) beyond
      → ((s' : S) → Answered descend fuel cs beyond s')
      → Answered descend (suc fuel) (c ∷ cs) (k ∷ ks) s
  unfolding write_items pointers all_items
  serve_child descend fuel c cs k ks here beyond s f e d w same same' ih =
      rw
        (
          kp_step descend fuel (write_kv c.pointer ++ write_items (pointers cs))
              (write_items (pointers cs)) c.pointer k ks (plain s)
              (omega (arith, length-append-write_kv c.pointer (write_items (pointers cs))))
              (read_kv-write_kv c.pointer (write_items (pointers cs)) f),
          e,
          d,
        )
        (after (answers rq.compare rq.fetch_callback c.items (k ∷ here) s)
          ∙ ap
              (λ r. done (
                r >>= λ s'.
                answers rq.compare rq.fetch_callback (c.items ++ all_items cs) beyond s'))
              (sym (
                answers-FindsSame rq.compare rq.fetch_callback (c.items ++ all_items cs) c.items
                  (k ∷ here) s same))
          ∙ ap (λ r. done r)
              (sym (
                answers-append rq.compare rq.fetch_callback (c.items ++ all_items cs) (k ∷ here)
                  beyond s))
          ∙ ap
              (λ t. done (answers rq.compare rq.fetch_callback (c.items ++ all_items cs) (k ∷ t) s))
              (sym w))
    where
      after :
          (r : Result S)
          → finish rq (
              (r >>= λ s'. left_with beyond s') >>= λ p.
              kp_loop rq descend fuel (write_items (pointers cs)) p.0 p.1)
            ≡ done (
                r >>= λ s'.
                answers rq.compare rq.fetch_callback (c.items ++ all_items cs) beyond s')
      after (ok s') =
          ih s'
          ∙ ap (λ r. done r)
              (sym (
                answers-FindsSame rq.compare rq.fetch_callback (c.items ++ all_items cs)
                  (all_items cs) beyond s' same'))
      after (err code) = refl
      after fault = refl
