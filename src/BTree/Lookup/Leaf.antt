-- ===== src/BTree/Lookup/Leaf.antt =====
-- The loop of btree_lookup_inner over a leaf, where nothing is folded.
use couchstore.Base.{
  ℕ, zero, suc, ◌≤◌, ◌≡◌, ◌≢◌, refl, sym, ap, ◌∙◌, arith, List, [], ◌∷◌, ◌++◌, length, All, Result,
  ok, err, fault, ◌>>=◌, Option, none, some,
}
use couchstore.Base.Order.{
  less, equal, greater, IsComparator, Cmp-cases, is_less, is_equal, is_greater, Sorted,
}
use couchstore.NodeTypes.{Item, write_kv}
use couchstore.NodeTypes.Items.{length-append-write_kv, Fits, write_items, read_kv-write_kv}
use couchstore.BTree.Lookup.{LookupRequest, lookup_compare, kv_round, kv_loop, not_found}
use couchstore.BTree.Lookup.Answers.{
  HasByte, PresentButLast, PresentButLast-FindsSame, PresentButLast-tail, FindsSame, NoneOf,
  find_item-append_none, find_item-none, find_item-equal, answer, answers, answers-FindsSame,
}
use couchstore.BTree.Lookup.Rounds.{
  ByKey, lookup_compare-eq, plain, done, finish, left_with, not_found-answers, kv_step,
  kv_round_less, kv_round_greater, kv_round_equal, kv_no_keys,
}

module _ {S : Type 0} (rq : LookupRequest S) where
  module _ (o : IsComparator rq.compare) where
    above_none :
        (k : List ℕ) (i : Item) (is : List Item)
        → rq.compare i.key k ≡ greater
        → All (λ j. ByKey rq.compare i j ≡ less) is
        → NoneOf rq.compare is k
    above_none k i [] c h = tt
    above_none k i (j ∷ is) c h = (
      (λ e. ground (
        arith,
        e,
        c,
        h.0,
        o.congr j.key k i.key,
        o.turn_less i.key j.key,
        o.turn_greater i.key k,
      )),
      above_none k i is c h.1,
    )

    skips :
        (i : Item) (is : List Item) (ks : List (List ℕ))
        → All (λ k. rq.compare i.key k ≢ equal) ks
        → FindsSame rq.compare (i ∷ is) is ks
    skips i is [] h = tt
    skips i is (k ∷ ks) h =
        (find_item-append_none rq.compare k (i ∷ []) is (h.0, tt), skips i is ks h.1)

    -- The keys above one that is not below an item's key.
    all_below :
        (i : Item) (k : List ℕ) (ks : List (List ℕ))
        → rq.compare i.key k ≢ greater
        → All (λ k'. rq.compare k k' ≡ less) ks
        → All (λ k'. rq.compare i.key k' ≢ equal) ks
    all_below i k [] c h = tt
    all_below i k (k' ∷ ks) c h = (
      (λ e. elim (Cmp-cases (rq.compare i.key k)) [
        | is_less l ↦ cc (o.trans i.key k k' l h.0)
        | is_equal q ↦ cc (o.congr i.key k k' q)
        | is_greater g ↦ c g
      ]),
      all_below i k ks c h.1,
    )

    -- A round that keeps all keys, at an item that is none of them.
    pass_by :
        (fuel : ℕ) (i : Item) (is : List Item) (k : List ℕ) (ks : List (List ℕ)) (s : S)
        → Fits i
        → kv_round rq i k ks (plain s) ≡ ok (k ∷ ks, plain s)
        → FindsSame rq.compare (i ∷ is) is (k ∷ ks)
        → finish rq (kv_loop rq fuel (write_items is) (k ∷ ks) (plain s))
          ≡ done (answers rq.compare rq.fetch_callback is (k ∷ ks) s)
        → finish rq (kv_loop rq (suc fuel) (write_items (i ∷ is)) (k ∷ ks) (plain s))
          ≡ done (answers rq.compare rq.fetch_callback (i ∷ is) (k ∷ ks) s)
    unfolding write_items
    pass_by fuel i is k ks s f e same ih =
        rw
          (
            kv_step rq fuel (write_kv i ++ write_items is) (write_items is) i k ks (plain s)
                (omega (arith, length-append-write_kv i (write_items is)))
                (read_kv-write_kv i (write_items is) f),
            e,
            answers-FindsSame rq.compare rq.fetch_callback (i ∷ is) is (k ∷ ks) s same,
          )
          ih

    answer_it :
        (fuel : ℕ) (i : Item) (is : List Item) (k : List ℕ) (ks : List (List ℕ)) (s : S)
        → Fits i
        → rq.compare i.key k ≡ equal
        → lookup_compare rq.compare i.key k ≡ equal
        → FindsSame rq.compare (i ∷ is) is ks
        → ((s' : S)
            → finish rq (kv_loop rq fuel (write_items is) ks (plain s'))
              ≡ done (answers rq.compare rq.fetch_callback is ks s'))
        → finish rq (kv_loop rq (suc fuel) (write_items (i ∷ is)) (k ∷ ks) (plain s))
          ≡ done (answers rq.compare rq.fetch_callback (i ∷ is) (k ∷ ks) s)
    unfolding write_items answers answer
    answer_it fuel i is k ks s f c c' same ih =
        rw
          (
            kv_step rq fuel (write_kv i ++ write_items is) (write_items is) i k ks (plain s)
                (omega (arith, length-append-write_kv i (write_items is)))
                (read_kv-write_kv i (write_items is) f),
            kv_round_equal rq i k ks s c',
            find_item-equal rq.compare i is k c,
          )
          (after (rq.fetch_callback s i.key (some i.value)))
      where
        after :
            (r : Result S)
            → finish rq
                ((r >>= λ s'. left_with ks s') >>= λ p. kv_loop rq fuel (write_items is) p.0 p.1)
              ≡ done (r >>= λ s'. answers rq.compare rq.fetch_callback (i ∷ is) ks s')
        after (ok s') =
            ih s'
            ∙ ap (λ r. done r)
                (sym (answers-FindsSame rq.compare rq.fetch_callback (i ∷ is) is ks s' same))
        after (err code) = refl
        after fault = refl

    -- The loop over a leaf, and the keys it leaves, answer all keys if all but the last are there.
    pub leaf-answers :
        (fuel : ℕ) (items : List Item) (ks : List (List ℕ)) (s : S)
        → Sorted (ByKey rq.compare) items
        → All (λ (i : Item). HasByte i.key) items
        → All Fits items
        → Sorted rq.compare ks
        → All HasByte ks
        → PresentButLast rq.compare items ks
        → length (write_items items) ≤ fuel
        → finish rq (kv_loop rq fuel (write_items items) ks (plain s))
          ≡ done (answers rq.compare rq.fetch_callback items ks s)
    unfolding write_items
    leaf-answers fuel [] ks s so hb f so' hb' p n = unfold kv_loop in not_found-answers rq ks s
    leaf-answers fuel (i ∷ is) [] s so hb f so' hb' p n =
        rw (kv_no_keys rq fuel (write_kv i ++ write_items is) (plain s))
          (unfold not_found answers in refl)
    leaf-answers zero (i ∷ is) (k ∷ ks) s so hb f so' hb' p n =
        absurd (omega (arith, length-append-write_kv i (write_items is)))
    leaf-answers (suc fuel) (i ∷ is) (k ∷ ks) s so hb f so' hb' p n =
        let n' : length (write_items is) ≤ fuel =
          omega (arith, length-append-write_kv i (write_items is)) in
        let c' = lookup_compare-eq rq.compare i.key k hb.0 hb'.0 in
        elim (Cmp-cases (rq.compare i.key k)) [
          | is_less c ↦
              let same = skips i is (k ∷ ks) ((λ e. cc), all_below i k ks (λ e. cc) so'.0) in
              pass_by fuel i is k ks s f.0 (kv_round_less rq i k ks s (c' ∙ c)) same (
                leaf-answers fuel is (k ∷ ks) s so.1 hb.1 f.1 so' hb'
                  (PresentButLast-FindsSame rq.compare (i ∷ is) is (k ∷ ks) same p) n')
          | is_equal c ↦
              let same = skips i is ks (all_below i k ks (λ e. cc) so'.0) in
              answer_it fuel i is k ks s f.0 c (c' ∙ c) same (λ s'.
                leaf-answers fuel is ks s' so.1 hb.1 f.1 so'.1 hb'.1
                  (PresentButLast-FindsSame rq.compare (i ∷ is) is ks same
                    (PresentButLast-tail rq.compare (i ∷ is) k ks p))
                  n')
          | is_greater c ↦
              let same = skips i is (k ∷ ks) (not_there i is k ks so.0 c p so'.0) in
              pass_by fuel i is k ks s f.0 (kv_round_greater rq i k ks s (c' ∙ c)) same (
                leaf-answers fuel is (k ∷ ks) s so.1 hb.1 f.1 so' hb'
                  (PresentButLast-FindsSame rq.compare (i ∷ is) is (k ∷ ks) same p) n')
        ]
      where
        not_there :
            (i : Item) (is : List Item) (k : List ℕ) (ks : List (List ℕ))
            → All (λ j. ByKey rq.compare i j ≡ less) is
            → rq.compare i.key k ≡ greater
            → PresentButLast rq.compare (i ∷ is) (k ∷ ks)
            → All (λ k'. rq.compare k k' ≡ less) ks
            → All (λ k'. rq.compare i.key k' ≢ equal) (k ∷ ks)
        not_there i is k [] so c p lt = ((λ e. cc), tt)
        not_there i is k (k' ∷ ks) so c p lt =
            absurd (
              no_item (find_item-none rq.compare k (i ∷ is) ((λ e. cc), above_none k i is c so))
                p.0)
          where
            no_item : {x : Option Item} → x ≡ none → (j : Item) × (x ≡ some j) → ⊥
            no_item e h = cc (h.1)
