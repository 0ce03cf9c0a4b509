-- ===== src/BTree/Lookup/Children.antt =====
-- The children of a node of pointers in src/btree_read.cc, and which keys of a lookup are theirs.
use couchstore.Base.{ℕ, ◌≡◌, ◌≢◌, refl, sym, ap, ◌∙◌, true, List, [], ◌∷◌, ◌++◌, All}
use couchstore.Base.Order.{
  Cmp, less, greater, IsComparator, Cmp-cases, is_less, is_equal, is_greater, Sorted, congr_right,
}
use couchstore.NodeTypes.{Item}
use couchstore.BTree.Lookup.{LookupRequest, lookup_compare, not_below, last_item}
use couchstore.BTree.Lookup.Answers.{
  HasByte, FindsSame, NoneOf, find_item-append_none, find_item-none_append,
}
use couchstore.BTree.Lookup.Rounds.{lookup_compare-eq}

-- An item of a node of pointers, and the items of the subtree it points to.
pub record Child : Type 0 where
  pub pointer : Item
  pub items : List Item

unfoldable pub all_items : List Child → List Item
all_items [] = []
all_items (c ∷ cs) = c.items ++ all_items cs

unfoldable pub pointers : List Child → List Item
pointers [] = []
pointers (c ∷ cs) = c.pointer ∷ pointers cs

-- A pointer's key is not below the keys of its subtree, and below those of the subtrees after it.
abbrev pub Bounded : (List ℕ → List ℕ → Cmp) → List Child → Type 0
Bounded cmp [] = Unit
Bounded cmp (c ∷ cs) =
    All (λ (i : Item). cmp i.key c.pointer.key ≢ greater) c.items
    × All (λ (j : Item). cmp c.pointer.key j.key ≡ less) (all_items cs)
    × Bounded cmp cs

module _ {S : Type 0} (rq : LookupRequest S) (o : IsComparator rq.compare) where
  -- The keys of a child, and those after them.
  pub record Split (ck : List ℕ) (ks : List (List ℕ)) : Type 0 where
    pub here : List (List ℕ)
    pub beyond : List (List ℕ)
    pub found : last_item rq ck ks ≡ (here, beyond)
    pub whole : ks ≡ here ++ beyond
    pub not_above : All (λ k. rq.compare ck k ≢ less) here
    pub above : All (λ k. rq.compare ck k ≡ less) beyond

  pub all_above :
      (ck k : List ℕ) (ks : List (List ℕ))
      → rq.compare ck k ≡ less
      → All (λ k'. rq.compare k k' ≡ less) ks
      → All (λ k'. rq.compare ck k' ≡ less) ks
  all_above ck k [] c h = tt
  all_above ck k (k' ∷ ks) c h = (o.trans ck k k' c h.0, all_above ck k ks c h.1)

  take_here :
      (ck k : List ℕ) (ks : List (List ℕ))
      → not_below (lookup_compare rq.compare ck k) ≡ true
      → rq.compare ck k ≢ less
      → Split ck ks
      → Split ck (k ∷ ks)
  unfolding last_item
  take_here ck k ks c n sp = record {
    here = k ∷ sp.here;
    beyond = sp.beyond;
    found = rw (c, sp.found) refl;
    whole = ap (λ t. k ∷ t) sp.whole;
    not_above = (n, sp.not_above);
    above = sp.above;
  }

  pub split :
      (ck : List ℕ) (ks : List (List ℕ))
      → HasByte ck
      → Sorted rq.compare ks
      → All HasByte ks
      → Split ck ks
  unfolding last_item
  split ck [] b so hb = record {
    here = [];
    beyond = [];
    found = refl;
    whole = refl;
    not_above = tt;
    above = tt;
  }
  split ck (k ∷ ks) b so hb =
      let c' = lookup_compare-eq rq.compare ck k b hb.0 in
      let rest = split ck ks b so.1 hb.1 in
      elim (Cmp-cases (rq.compare ck k)) [
        | is_less c ↦ record {
          here = [];
          beyond = k ∷ ks;
          found = rw (c' ∙ c) refl;
          whole = refl;
          not_above = tt;
          above = (c, all_above ck k ks c so.0);
        }
        | is_equal c ↦ take_here ck k ks (rw (c' ∙ c) refl) (λ e. cc) rest
        | is_greater c ↦ take_here ck k ks (rw (c' ∙ c) refl) (λ e. cc) rest
      ]

  -- None of the later items has a key of this child, and none of this child's a later key.
  none_after :
      (ck k : List ℕ) (js : List Item)
      → rq.compare ck k ≢ less
      → All (λ (j : Item). rq.compare ck j.key ≡ less) js
      → NoneOf rq.compare js k
  none_after ck k [] n h = tt
  none_after ck k (j ∷ js) n h =
      ((λ e. n (sym (congr_right o j.key k ck e) ∙ h.0)), none_after ck k js n h.1)

  none_before :
      (ck k : List ℕ) (is : List Item)
      → rq.compare ck k ≡ less
      → All (λ (i : Item). rq.compare i.key ck ≢ greater) is
      → NoneOf rq.compare is k
  none_before ck k [] c h = tt
  none_before ck k (i ∷ is) c h = (
    (λ e. elim (Cmp-cases (rq.compare i.key ck)) [
      | is_less l ↦ cc (o.trans i.key ck k l c)
      | is_equal q ↦ cc (o.congr i.key ck k q)
      | is_greater g ↦ h.0 g
    ]),
    none_before ck k is c h.1,
  )

  pub in_child :
      (ck : List ℕ) (is js : List Item) (ks : List (List ℕ))
      → All (λ (j : Item). rq.compare ck j.key ≡ less) js
      → All (λ k. rq.compare ck k ≢ less) ks
      → FindsSame rq.compare (is ++ js) is ks
  in_child ck is js [] h n = tt
  in_child ck is js (k ∷ ks) h n = (
    find_item-none_append rq.compare k is js (none_after ck k js n.0 h),
    in_child ck is js ks h n.1,
  )

  pub behind_child :
      (ck : List ℕ) (is js : List Item) (ks : List (List ℕ))
      → All (λ (i : Item). rq.compare i.key ck ≢ greater) is
      → All (λ k. rq.compare ck k ≡ less) ks
      → FindsSame rq.compare (is ++ js) js ks
  behind_child ck is js [] h c = tt
  behind_child ck is js (k ∷ ks) h c = (
    find_item-append_none rq.compare k is js (none_before ck k is c.0 h),
    behind_child ck is js ks h c.1,
  )
