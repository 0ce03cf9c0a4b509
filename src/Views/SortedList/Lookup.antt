-- ===== src/Views/SortedList/Lookup.antt =====
-- The list is a map from keys, as the comparator identifies them, to elements.
use couchstore.Base.{
  ◌≡◌, refl, sym, arith, List, [], ◌∷◌, All, none, some, if◌then◌else◌, Bool, true, false,
}
use couchstore.Base.Order.{
  Sorted, Cmp, less, equal, greater, IsComparator, turn_equal, congr_right, trans_greater,
}
use couchstore.Views.SortedList.{SortedList, add, remove, get, get_loop}
use couchstore.Views.SortedList.Invariant.{
  IsValid, inserted, removed, All-mono, head-add, cmp_fun-add, head-remove, cmp_fun-remove,
}

-- Whether a comparison found its two arguments to have one key.
abbrev pub is_equal_cmp : Cmp → Bool
is_equal_cmp equal = true
is_equal_cmp _ = false

module _ {ℓ} {A : Type ℓ} {f : A → A → Cmp} (o : IsComparator f) where
  get_loop-inserted :
      (e k : A) (xs : List A)
      → get_loop f k (inserted f e xs) ≡ (if is_equal_cmp (f e k) then some e else get_loop f k xs)
  unfolding get_loop inserted
  get_loop-inserted e k [] = ground arith
  get_loop-inserted e k (x ∷ xs) = ground (
    arith,
    get_loop-inserted e k xs,
    turn_equal o e k,
    o.congr x e k,
    congr_right o k x e,
    o.congr x k e,
    o.turn_less x e,
    o.turn_greater x e,
    o.turn_less e k,
    o.trans x e k,
    trans_greater o x e k,
    o.trans e x k,
    trans_greater o e x k,
  )

  -- A key below all nodes is in none of them.
  get_loop_below : (k : A) (xs : List A) → All (λ y. f k y ≡ less) xs → get_loop f k xs ≡ none
  unfolding get_loop
  get_loop_below k [] h = refl
  get_loop_below k (x ∷ xs) h = ground (arith, o.turn_less k x h.0)

  -- Nor is a key below a node that is itself below all nodes.
  get_loop_far_below :
      (x k : A) (xs : List A)
      → f x k ≡ greater
      → All (λ y. f x y ≡ less) xs
      → get_loop f k xs ≡ none
  get_loop_far_below x k xs h all = get_loop_below k xs (
      All-mono (λ y. f x y ≡ less) (λ y. f k y ≡ less) xs
        (λ y less_y. o.trans k x y (o.turn_greater x k h) less_y) all)

  get_loop-congr : (e k : A) (xs : List A) → f e k ≡ equal → get_loop f e xs ≡ get_loop f k xs
  unfolding get_loop
  get_loop-congr e k [] h = refl
  get_loop-congr e k (x ∷ xs) h = ground (arith, get_loop-congr e k xs h, congr_right o e k x h)

  get_loop-removed :
      (e k : A) (xs : List A)
      → Sorted f xs
      → get_loop f k (removed f e xs) ≡ (if is_equal_cmp (f e k) then none else get_loop f k xs)
  unfolding get_loop removed
  get_loop-removed e k [] h = ground arith
  get_loop-removed e k (x ∷ xs) h = ground (
    arith,
    get_loop-removed e k xs h.1,
    get_loop_below x xs h.0,
    λ (g : f x k ≡ greater). get_loop_far_below x k xs g h.0,
    get_loop-congr x k xs,
    o.congr x e k,
    congr_right o k x e,
    o.congr x k e,
    turn_equal o e k,
    o.congr e k x,
    congr_right o e k x,
    o.turn_less x e,
    o.turn_greater x e,
    o.turn_less e k,
    o.trans x e k,
    trans_greater o x e k,
    o.trans e x k,
    trans_greater o e x k,
  )

  -- Two insertions of different keys commute.
  inserted_comm :
      (a b : A) (xs : List A)
      → is_equal_cmp (f a b) ≡ false
      → inserted f a (inserted f b xs) ≡ inserted f b (inserted f a xs)
  unfolding inserted
  inserted_comm a b [] h = ground (arith, o.turn_less a b, o.turn_greater a b, turn_equal o b a)
  inserted_comm a b (x ∷ xs) h = ground (
    arith,
    inserted_comm a b xs h,
    o.turn_less a b,
    o.turn_greater a b,
    turn_equal o b a,
    o.congr x a b,
    o.congr x b a,
    congr_right o x a b,
    congr_right o x b a,
    o.turn_less x a,
    o.turn_greater x a,
    o.turn_less x b,
    o.turn_greater x b,
    o.trans a x b,
    o.trans b x a,
    trans_greater o a x b,
    trans_greater o b x a,
  )

module _ {ℓ} {A : Type ℓ} where
  -- After an addition, a key equal to the new element's finds the new element, and any other key
  -- finds what it found before, for a comparator that is a total preorder.
  pub get-add :
      (l : SortedList A) (e k : A)
      → IsComparator l.cmp_fun
      → get (add l e) k ≡ (if is_equal_cmp (l.cmp_fun e k) then some e else get l k)
  unfolding get
  get-add l e k o = rw (cmp_fun-add l e, head-add l e) (get_loop-inserted o e k l.head)

  -- After a removal from a valid list, a key equal to the removed element's finds nothing, and any
  -- other key finds what it found before, for a comparator that is a total preorder.
  pub get-remove :
      (l : SortedList A) (e k : A)
      → IsComparator l.cmp_fun
      → IsValid l
      → get (remove l e) k ≡ (if is_equal_cmp (l.cmp_fun e k) then none else get l k)
  unfolding get
  get-remove l e k o v =
      rw (cmp_fun-remove l e, head-remove l e) (get_loop-removed o e k l.head v.sorted)

  -- Two elements that are not equal may be added in either order: the same nodes result, for a
  -- comparator that is a total preorder.
  pub add-add_comm :
      (l : SortedList A) (a b : A)
      → IsComparator l.cmp_fun
      → is_equal_cmp (l.cmp_fun a b) ≡ false
      → (add (add l a) b).head ≡ (add (add l b) a).head
  add-add_comm l a b o h = simp (head-add, cmp_fun-add) (sym (inserted_comm o a b l.head h))
