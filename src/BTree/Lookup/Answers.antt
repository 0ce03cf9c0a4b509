-- ===== src/BTree/Lookup/Answers.antt =====
-- What a lookup of keys is to answer from the items of a tree: each key with the item that compares
-- equal, or as not found.
use couchstore.Base.{
  ℕ, ◌≡◌, ◌≢◌, ◌<◌, length, refl, sym, ap, ◌∙◌, List, [], ◌∷◌, ◌++◌, All, All-split, Result, ok,
  err, fault, ◌>>=◌, Option, none, some,
}
use couchstore.Base.Order.{
  Cmp, less, equal, greater, Cmp-cases, is_less, is_equal, is_greater, Sorted, Sorted-append,
}
use couchstore.NodeTypes.{Item}

-- Keys and items that are no empty strings.
abbrev pub HasByte : List ℕ → Type 0
HasByte k = 0 < length k

module _ (cmp : List ℕ → List ℕ → Cmp) where
  -- The first item of that key.
  unfoldable pub find_item : List ℕ → List Item → Option Item
  find_item k [] = none
  find_item k (i ∷ is) = elim (cmp i.key k) [
    | less ↦ find_item k is
    | equal ↦ some i
    | greater ↦ find_item k is
  ]

  -- Every key but the last one is that of an item.
  abbrev pub PresentButLast : List Item → List (List ℕ) → Type 0
  PresentButLast items [] = Unit
  PresentButLast items (k ∷ []) = Unit
  PresentButLast items (k ∷ k' ∷ ks) =
      ((i : Item) × (find_item k items ≡ some i)) × PresentButLast items (k' ∷ ks)

  -- Two lists of items in which the same items are found.
  abbrev pub FindsSame : List Item → List Item → List (List ℕ) → Type 0
  FindsSame xs ys ks = All (λ k. find_item k xs ≡ find_item k ys) ks

  -- The items of `xs` have none of these keys.
  abbrev pub NoneOf : List Item → List ℕ → Type 0
  NoneOf xs k = All (λ (i : Item). cmp i.key k ≢ equal) xs

  pub find_item-append_none :
      (k : List ℕ) (xs ys : List Item) → NoneOf xs k → find_item k (xs ++ ys) ≡ find_item k ys
  unfolding find_item
  find_item-append_none k [] ys h = refl
  find_item-append_none k (i ∷ xs) ys h = elim (Cmp-cases (cmp i.key k)) [
    | is_less c ↦ rw (c, find_item) (find_item-append_none k xs ys h.1)
    | is_equal c ↦ absurd (h.0 c)
    | is_greater c ↦ rw (c, find_item) (find_item-append_none k xs ys h.1)
  ]

  pub find_item-equal :
      (i : Item) (is : List Item) (k : List ℕ) → cmp i.key k ≡ equal → find_item k (i ∷ is) ≡ some i
  unfolding find_item
  find_item-equal i is k c = rw (c, find_item) refl

  pub find_item-none : (k : List ℕ) (xs : List Item) → NoneOf xs k → find_item k xs ≡ none
  unfolding find_item
  find_item-none k [] h = refl
  find_item-none k (i ∷ xs) h = elim (Cmp-cases (cmp i.key k)) [
    | is_less c ↦ rw (c, find_item) (find_item-none k xs h.1)
    | is_equal c ↦ absurd (h.0 c)
    | is_greater c ↦ rw (c, find_item) (find_item-none k xs h.1)
  ]

  pub find_item-none_append :
      (k : List ℕ) (xs ys : List Item) → NoneOf ys k → find_item k (xs ++ ys) ≡ find_item k xs
  unfolding find_item
  find_item-none_append k [] ys h = find_item-none k ys h
  find_item-none_append k (i ∷ xs) ys h = elim (Cmp-cases (cmp i.key k)) [
    | is_less c ↦ rw (c, find_item) (find_item-none_append k xs ys h)
    | is_equal c ↦ rw (c, find_item) refl
    | is_greater c ↦ rw (c, find_item) (find_item-none_append k xs ys h)
  ]

  pub PresentButLast-FindsSame :
      (xs ys : List Item) (ks : List (List ℕ))
      → FindsSame xs ys ks
      → PresentButLast xs ks
      → PresentButLast ys ks
  PresentButLast-FindsSame xs ys [] same h = tt
  PresentButLast-FindsSame xs ys (k ∷ []) same h = tt
  PresentButLast-FindsSame xs ys (k ∷ k' ∷ ks) same h =
      ((h.0.0, sym same.0 ∙ h.0.1), PresentButLast-FindsSame xs ys (k' ∷ ks) same.1 h.1)

  pub PresentButLast-front :
      (xs : List Item) (front bs : List (List ℕ))
      → PresentButLast xs (front ++ bs)
      → PresentButLast xs front
  PresentButLast-front xs [] bs h = tt
  PresentButLast-front xs (k ∷ []) bs h = tt
  PresentButLast-front xs (k ∷ k' ∷ ks) bs h = (h.0, PresentButLast-front xs (k' ∷ ks) bs h.1)

  pub PresentButLast-tail :
      (xs : List Item) (k : List ℕ) (ks : List (List ℕ))
      → PresentButLast xs (k ∷ ks)
      → PresentButLast xs ks
  PresentButLast-tail xs k [] h = tt
  PresentButLast-tail xs k (k' ∷ ks) h = h.1

  pub PresentButLast-back :
      (xs : List Item) (front bs : List (List ℕ))
      → PresentButLast xs (front ++ bs)
      → PresentButLast xs bs
  PresentButLast-back xs [] bs h = h
  PresentButLast-back xs (k ∷ ks) bs h =
      PresentButLast-back xs ks bs (PresentButLast-tail xs k (ks ++ bs) h)

  -- Keys in ascending order, of which every one but the last is there.
  pub record Asks (items : List Item) (ks : List (List ℕ)) : Type 0 where
    pub sorted : Sorted cmp ks
    pub no_empty : All HasByte ks
    pub present : PresentButLast items ks

  pub Asks-FindsSame :
      (xs ys : List Item) (ks : List (List ℕ)) → FindsSame xs ys ks → Asks xs ks → Asks ys ks
  Asks-FindsSame xs ys ks same a = record {
    sorted = a.sorted;
    no_empty = a.no_empty;
    present = PresentButLast-FindsSame xs ys ks same a.present;
  }

  pub Asks-append :
      (xs : List Item) (front bs : List (List ℕ))
      → Asks xs (front ++ bs)
      → Asks xs front × Asks xs bs
  Asks-append xs front bs a = (
    record {
      sorted = (Sorted-append cmp front bs a.sorted).0;
      no_empty = (All-split HasByte front bs a.no_empty).0;
      present = PresentButLast-front xs front bs a.present;
    },
    record {
      sorted = (Sorted-append cmp front bs a.sorted).1;
      no_empty = (All-split HasByte front bs a.no_empty).1;
      present = PresentButLast-back xs front bs a.present;
    },
  )

  module _ {S : Type 0} (fetch : S → List ℕ → Option (List ℕ) → Result S) where
    unfoldable pub answer : S → List ℕ → Option Item → Result S
    answer s k none = fetch s k none
    answer s k (some i) = fetch s i.key (some i.value)

    -- The calls for all keys, in their order.
    unfoldable pub answers : List Item → List (List ℕ) → S → Result S
    unfolding answer
    answers items [] s = ok s
    answers items (k ∷ ks) s = answer s k (find_item k items) >>= λ s'. answers items ks s'

    pub answers-FindsSame :
        (xs ys : List Item) (ks : List (List ℕ)) (s : S)
        → FindsSame xs ys ks
        → answers xs ks s ≡ answers ys ks s
    unfolding answers
    answers-FindsSame xs ys [] s h = refl
    answers-FindsSame xs ys (k ∷ ks) s h =
        ap (λ (o : Option Item). answer s k o >>= λ s'. answers xs ks s') h.0
        ∙ after (answer s k (find_item k ys)) (λ s'. answers-FindsSame xs ys ks s' h.1)
      where
        after :
            (r : Result S)
            → ((s' : S) → answers xs ks s' ≡ answers ys ks s')
            → (r >>= λ s'. answers xs ks s') ≡ (r >>= λ s'. answers ys ks s')
        after (ok s') e = e s'
        after (err code) e = refl
        after fault e = refl

    pub answers-append :
        (items : List Item) (front bs : List (List ℕ)) (s : S)
        → answers items (front ++ bs) s ≡ (answers items front s >>= λ s'. answers items bs s')
    unfolding answers
    answers-append items [] bs s = refl
    answers-append items (k ∷ ks) bs s =
        after (answer s k (find_item k items)) (λ s'. answers-append items ks bs s')
      where
        after :
            (r : Result S)
            → ((s' : S)
                → answers items (ks ++ bs) s'
                  ≡ (answers items ks s' >>= λ s''. answers items bs s''))
            → (r >>= λ s'. answers items (ks ++ bs) s')
              ≡ ((r >>= λ s'. answers items ks s') >>= λ s''. answers items bs s'')
        after (ok s') e = e s'
        after (err code) e = refl
        after fault e = refl
