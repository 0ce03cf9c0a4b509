-- ===== src/BTree/Lookup/Nodes.antt =====
-- The loop of btree_lookup_inner over a node of pointers, where nothing is folded and no node
-- callback is given.
use couchstore.Base.{
  ℕ, zero, suc, ◌≤◌, ◌≡◌, ◌≢◌, refl, subst, ◌∙◌, arith, true, List, [], ◌∷◌, ◌++◌, length, All,
  none,
}
use couchstore.Base.Order.{less, IsComparator, Cmp-cases, is_less, is_equal, is_greater}
use couchstore.Bitfield.{decode_raw48}
use couchstore.NodeTypes.{write_kv}
use couchstore.NodeTypes.Items.{length-append-write_kv, write_items}
use couchstore.BTree.Lookup.{LookupRequest, lookup_compare, not_below, kp_loop, not_found}
use couchstore.BTree.Lookup.Answers.{Asks, Asks-FindsSame, Asks-append, answers}
use couchstore.BTree.Lookup.Rounds.{lookup_compare-eq, plain, not_found-answers}
use couchstore.BTree.Lookup.Children.{
  Child, all_items, pointers, Bounded, split, all_above, in_child, behind_child,
}
use couchstore.BTree.Lookup.Descents.{
  IsPointer, Descend, Serves, Answered, kp_no_keys, descend_answers, pass_child, serve_child,
}

module _ {S : Type 0} (rq : LookupRequest S) (o : IsComparator rq.compare)
    (silent : rq.node_callback ≡ none) where
  pub node-answers :
      (descend : Descend rq o silent) (fuel : ℕ) (cs : List Child) (ks : List (List ℕ)) (s : S)
      → All IsPointer cs
      → Bounded rq.compare cs
      → All (λ c. Serves rq o silent descend (decode_raw48 c.pointer.value) c.items) cs
      → Asks rq.compare (all_items cs) ks
      → length (write_items (pointers cs)) ≤ fuel
      → Answered rq o silent descend fuel cs ks s
  unfolding write_items pointers all_items
  node-answers descend fuel [] ks s ip bd sv a n = unfold kp_loop in not_found-answers rq ks s
  node-answers descend fuel (c ∷ cs) [] s ip bd sv a n =
      rw
        (kp_no_keys rq o silent descend fuel (write_kv c.pointer ++ write_items (pointers cs))
          (plain s))
        (unfold not_found answers in refl)
  node-answers descend zero (c ∷ cs) (k ∷ ks) s ip bd sv a n =
      absurd (omega (arith, length-append-write_kv c.pointer (write_items (pointers cs))))
  node-answers descend (suc fuel) (c ∷ cs) (k ∷ ks) s ip bd sv a n =
      let n' : length (write_items (pointers cs)) ≤ fuel =
        omega (arith, length-append-write_kv c.pointer (write_items (pointers cs))) in
      let c' = lookup_compare-eq rq.compare c.pointer.key k ip.0.has_key a.no_empty.0 in
      let sp = split rq o c.pointer.key ks ip.0.has_key a.sorted.1 a.no_empty.1 in
      let parts =
        Asks-append rq.compare (c.items ++ all_items cs) (k ∷ sp.here) sp.beyond
          (subst (λ t. Asks rq.compare (c.items ++ all_items cs) (k ∷ t)) sp.whole a) in
      let serve =
        λ (t : not_below (lookup_compare rq.compare c.pointer.key k) ≡ true)
            (ne : rq.compare c.pointer.key k ≢ less).
          let same =
            in_child rq o c.pointer.key c.items (all_items cs) (k ∷ sp.here) bd.1
              (ne, sp.not_above) in
          let same' =
            behind_child rq o c.pointer.key c.items (all_items cs) sp.beyond bd.0 sp.above in
          serve_child rq o silent descend fuel c cs k ks sp.here sp.beyond s ip.0.fits t
            (descend_answers rq o silent descend c k ks sp.here sp.beyond s sp.found ip.0.position (
              sv.0 (k ∷ sp.here) s (
                Asks-FindsSame rq.compare (c.items ++ all_items cs) c.items (k ∷ sp.here) same
                  parts.0)))
            sp.whole same same'
            (λ s'.
              node-answers descend fuel cs sp.beyond s' ip.1 bd.2 sv.1
                (Asks-FindsSame rq.compare (c.items ++ all_items cs) (all_items cs) sp.beyond same'
                  parts.1)
                n') in
      elim (Cmp-cases (rq.compare c.pointer.key k)) [
        | is_less l ↦
            let same =
              behind_child rq o c.pointer.key c.items (all_items cs) (k ∷ ks) bd.0
                (l, all_above rq o c.pointer.key k ks l a.sorted.0) in
            pass_child rq o silent descend fuel c cs k ks s ip.0.fits (c' ∙ l) same (
              node-answers descend fuel cs (k ∷ ks) s ip.1 bd.2 sv.1
                (Asks-FindsSame rq.compare (c.items ++ all_items cs) (all_items cs) (k ∷ ks) same a)
                n')
        | is_equal l ↦ serve (rw (c' ∙ l) refl) (λ e. cc)
        | is_greater l ↦ serve (rw (c' ∙ l) refl) (λ e. cc)
      ]
