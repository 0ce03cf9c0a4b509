-- ===== src/Views/SortedList/Invariant.antt =====
-- The list stays strictly sorted, and its length field is the number of its nodes.
use couchstore.Base.{
  ℕ, suc, ◌≤◌, ◌+◌, ◌-◌, ◌≡◌, refl, sym, ap, ◌∙◌, arith, List, [], ◌∷◌, ◌++◌, All, append_assoc,
}
use couchstore.Base
use couchstore.Base.Order.{
  Cmp, less, equal, greater, IsComparator, Cmp-cases, is_less, is_equal, is_greater, Sorted,
}
use couchstore.Views.SortedList.{
  SortedList, find_place, link, add_to_nodes, add, remove, remove_loop, create,
}

module _ {ℓ} {A : Type ℓ} where
  pub record IsValid (l : SortedList A) : Type ℓ where
    pub sorted : Sorted l.cmp_fun l.head
    pub counted : l.length ≡ Base.length l.head

  -- Insertion as one recursion: what `add` does to the nodes.
  unfoldable pub inserted : (A → A → Cmp) → A → List A → List A
  inserted cmp elem [] = elem ∷ []
  inserted cmp elem (x ∷ xs) = elim (cmp x elem) [
    | less ↦ x ∷ inserted cmp elem xs
    | equal ↦ elem ∷ xs
    | greater ↦ elem ∷ x ∷ xs
  ]

  unfoldable pub removed : (A → A → Cmp) → A → List A → List A
  removed cmp elem [] = []
  removed cmp elem (x ∷ xs) = elim (cmp x elem) [
    | less ↦ x ∷ removed cmp elem xs
    | equal ↦ xs
    | greater ↦ x ∷ xs
  ]

  head-link :
      (l : SortedList A) (f : A → A → Cmp) (e : A) (before xs : List A)
      → (link l e (find_place f e before less xs)).head ≡ before ++ inserted f e xs
  unfolding link find_place inserted
  head-link l f e before [] = refl
  head-link l f e before (x ∷ xs) =
      ground (
        arith,
        head-link l f e (before ++ x ∷ []) xs,
        append_assoc before (x ∷ []) (inserted f e xs),
      )

  length-link :
      (l : SortedList A) (f : A → A → Cmp) (e : A) (before xs : List A)
      → (link l e (find_place f e before less xs)).length + Base.length xs
        ≡ l.length + Base.length (inserted f e xs)
  unfolding link find_place inserted
  length-link l f e before [] = omega arith
  length-link l f e before (x ∷ xs) = ground (arith, length-link l f e (before ++ x ∷ []) xs)

  -- The first comparison does not count: the first node replaces it.
  find_place_first :
      (f : A → A → Cmp) (e x : A) (xs : List A) (c : Cmp)
      → find_place f e [] c (x ∷ xs) ≡ find_place f e [] less (x ∷ xs)
  unfolding find_place
  find_place_first f e x xs c = refl

  head-add_to_nodes :
      (l : SortedList A) (e : A) (xs : List A)
      → (add_to_nodes l e xs).head ≡ inserted l.cmp_fun e xs
  unfolding add_to_nodes inserted
  head-add_to_nodes l e [] = refl
  head-add_to_nodes l e (x ∷ xs) = head-link l l.cmp_fun e [] (x ∷ xs)

  pub head-add : (l : SortedList A) (e : A) → (add l e).head ≡ inserted l.cmp_fun e l.head
  unfolding add
  head-add l e = head-add_to_nodes l e l.head

  length-add_to_nodes :
      (l : SortedList A) (e : A) (xs : List A)
      → (add_to_nodes l e xs).length + Base.length xs
        ≡ l.length + Base.length (inserted l.cmp_fun e xs)
  unfolding add_to_nodes inserted
  length-add_to_nodes l e [] = omega arith
  length-add_to_nodes l e (x ∷ xs) = length-link l l.cmp_fun e [] (x ∷ xs)

  pub length-add :
      (l : SortedList A) (e : A)
      → (add l e).length + Base.length l.head ≡ l.length + Base.length (inserted l.cmp_fun e l.head)
  unfolding add
  length-add l e = length-add_to_nodes l e l.head

  pub cmp_fun-add : (l : SortedList A) (e : A) → (add l e).cmp_fun ≡ l.cmp_fun
  unfolding add link
  cmp_fun-add l e = ground arith

  head-remove_loop :
      (l : SortedList A) (e : A) (before xs : List A)
      → l.head ≡ before ++ xs
      → (remove_loop l e before xs).head ≡ before ++ removed l.cmp_fun e xs
  unfolding remove_loop removed
  head-remove_loop l e before [] h = h
  head-remove_loop l e before (x ∷ xs) h = ground (
    arith,
    head-remove_loop l e (before ++ x ∷ []) xs,
    append_assoc before (x ∷ []) xs,
    append_assoc before (x ∷ []) (removed l.cmp_fun e xs),
  )

  length-remove_loop :
      (l : SortedList A) (e : A) (before xs : List A)
      → Base.length xs ≤ l.length
      → (remove_loop l e before xs).length + Base.length xs
        ≡ l.length + Base.length (removed l.cmp_fun e xs)
  unfolding remove_loop removed
  length-remove_loop l e before [] h = refl
  length-remove_loop l e before (x ∷ xs) h =
      ground (arith, length-remove_loop l e (before ++ x ∷ []) xs)

  cmp_fun-remove_loop :
      (l : SortedList A) (e : A) (before xs : List A)
      → (remove_loop l e before xs).cmp_fun ≡ l.cmp_fun
  unfolding remove_loop
  cmp_fun-remove_loop l e before [] = refl
  cmp_fun-remove_loop l e before (x ∷ xs) =
      ground (arith, cmp_fun-remove_loop l e (before ++ x ∷ []) xs)

  All-inserted {κ} :
      (P : A → Type κ) (f : A → A → Cmp) (e : A) (xs : List A)
      → P e
      → All P xs
      → All P (inserted f e xs)
  unfolding inserted
  All-inserted P f e [] h k = (h, tt)
  All-inserted P f e (x ∷ xs) h k = elim (Cmp-cases (f x e)) [
    | is_less c ↦ rw (c, All) (k.0, All-inserted P f e xs h k.1)
    | is_equal c ↦ rw (c, All) (h, k.1)
    | is_greater c ↦ rw (c, All) (h, k)
  ]

  All-removed {κ} :
      (P : A → Type κ) (f : A → A → Cmp) (e : A) (xs : List A) → All P xs → All P (removed f e xs)
  unfolding removed
  All-removed P f e [] k = tt
  All-removed P f e (x ∷ xs) k = elim (Cmp-cases (f x e)) [
    | is_less c ↦ rw (c, All) (k.0, All-removed P f e xs k.1)
    | is_equal c ↦ rw (c, All) k.1
    | is_greater c ↦ rw (c, All) k
  ]

  pub All-mono {κ} : (P Q : A → Type κ) (xs : List A) → ((a : A) → P a → Q a) → All P xs → All Q xs
  All-mono P Q [] i k = tt
  All-mono P Q (x ∷ xs) i k = (i x k.0, All-mono P Q xs i k.1)

module _ {ℓ} {A : Type ℓ} {f : A → A → Cmp} (o : IsComparator f) where
  inserted-Sorted : (e : A) (xs : List A) → Sorted f xs → Sorted f (inserted f e xs)
  unfolding inserted
  inserted-Sorted e [] h = (tt, tt)
  inserted-Sorted e (x ∷ xs) h = elim (Cmp-cases (f x e)) [
    | is_less c ↦
        rw (c, Sorted) (All-inserted (λ y. f x y ≡ less) f e xs c h.0, inserted-Sorted e xs h.1)
    | is_equal c ↦
        rw (c, Sorted)
          (
            All-mono (λ y. f x y ≡ less) (λ y. f e y ≡ less) xs (λ y k. sym (o.congr x e y c) ∙ k)
                h.0,
            h.1,
          )
    | is_greater c ↦
        rw (c, Sorted)
          (
            (
              o.turn_greater x e c,
              All-mono (λ y. f x y ≡ less) (λ y. f e y ≡ less) xs
                  (λ y k. o.trans e x y (o.turn_greater x e c) k) h.0,
            ),
            h,
          )
  ]

  removed-Sorted : (e : A) (xs : List A) → Sorted f xs → Sorted f (removed f e xs)
  unfolding removed
  removed-Sorted e [] h = tt
  removed-Sorted e (x ∷ xs) h = elim (Cmp-cases (f x e)) [
    | is_less c ↦
        rw (c, Sorted) (All-removed (λ y. f x y ≡ less) f e xs h.0, removed-Sorted e xs h.1)
    | is_equal c ↦ rw (c, Sorted) h.1
    | is_greater c ↦ rw (c, Sorted) h
  ]

module _ {ℓ} {A : Type ℓ} where
  pub create-IsValid : (f : A → A → Cmp) → IsValid (create f)
  unfolding create
  create-IsValid f = record { sorted = tt; counted = refl }

  -- Adding an element to a list that is sorted without equal elements and counts its nodes, by a
  -- comparator that is a total preorder, gives such a list.
  pub add-IsValid :
      (l : SortedList A) (e : A) → IsComparator l.cmp_fun → IsValid l → IsValid (add l e)
  add-IsValid l e o v = record {
    sorted = rw (cmp_fun-add l e, head-add l e) (inserted-Sorted o e l.head v.sorted);
    counted = omega (arith, length-add l e, ap Base.length (head-add l e), v.counted);
  }

  pub head-remove : (l : SortedList A) (e : A) → (remove l e).head ≡ removed l.cmp_fun e l.head
  unfolding remove
  head-remove l e = head-remove_loop l e [] l.head refl

  pub cmp_fun-remove : (l : SortedList A) (e : A) → (remove l e).cmp_fun ≡ l.cmp_fun
  unfolding remove
  cmp_fun-remove l e = cmp_fun-remove_loop l e [] l.head

  -- Removing an element from a list that is sorted without equal elements and counts its nodes, by a
  -- comparator that is a total preorder, gives such a list.
  pub remove-IsValid :
      (l : SortedList A) (e : A) → IsComparator l.cmp_fun → IsValid l → IsValid (remove l e)
  unfolding remove
  remove-IsValid l e o v = record {
    sorted =
        rw (cmp_fun-remove_loop l e [] l.head, head-remove_loop l e [] l.head refl)
          (removed-Sorted o e l.head v.sorted);
    counted = omega (
      arith,
      length-remove_loop l e [] l.head (omega (arith, v.counted)),
      ap Base.length (head-remove_loop l e [] l.head refl),
      v.counted,
    );
  }
