-- ===== src/Views/SortedList.antt =====
-- src/views/sorted_list.c: a linked list kept sorted by a comparator, one element for each key.
-- The nodes are the list `head`, in order. What `add` frees is no longer in that list. An
-- allocation that fails (the -1 of `sorted_list_add`) is not modelled.
pub mod Invariant
pub mod Lookup
use couchstore.Base.{ℕ, suc, ◌+◌, ◌-◌, List, [], ◌∷◌, ◌++◌, Option, none, some}
use couchstore.Base.Order.{Cmp, less, equal, greater}

-- sorted_list_t
pub record SortedList {ℓ} (A : Type ℓ) : Type ℓ where
  pub cmp_fun : A → A → Cmp
  pub head : List A
  pub length : ℕ

-- Where the loop of `sorted_list_add` stops: the nodes up to `prev`, the last comparison, and the
-- nodes from `n` on.
pub record Place {ℓ} (A : Type ℓ) : Type ℓ where
  pub before : List A
  pub cmp : Cmp
  pub n : List A

module _ {ℓ} {A : Type ℓ} where
  unfoldable pub create : (A → A → Cmp) → SortedList A
  create cmp_fun = record { cmp_fun = cmp_fun; head = []; length = 0 }

  -- The `while` loop of `sorted_list_add`; `prev` is the last node of `before`.
  find_place : (A → A → Cmp) → A → List A → Cmp → List A → Place A
  find_place cmp_fun elem before cmp [] = record { before = before; cmp = cmp; n = [] }
  find_place cmp_fun elem before cmp (x ∷ xs) = elim (cmp_fun x elem) [
    | less ↦ find_place cmp_fun elem (before ++ x ∷ []) less xs
    | equal ↦ record { before = before; cmp = equal; n = x ∷ xs }
    | greater ↦ record { before = before; cmp = greater; n = x ∷ xs }
  ]

  next_nodes : List A → List A
  next_nodes [] = []
  next_nodes (x ∷ xs) = xs

  -- What `sorted_list_add` does behind its loop.
  link : SortedList A → A → Place A → SortedList A
  unfolding next_nodes
  link l elem p = elim p.cmp [
    | equal ↦ record l { head = p.before ++ (elem ∷ next_nodes p.n) }
    | _ ↦ record l { head = p.before ++ (elem ∷ p.n); length = l.length + 1 }
  ]

  -- `sorted_list_add` over the nodes `l->head`.
  add_to_nodes : SortedList A → A → List A → SortedList A
  unfolding find_place link
  add_to_nodes l elem [] = record l { head = elem ∷ []; length = l.length + 1 }
  add_to_nodes l elem (x ∷ xs) = link l elem (find_place l.cmp_fun elem [] equal (x ∷ xs))

  unfoldable pub add : SortedList A → A → SortedList A
  unfolding add_to_nodes
  add l elem = add_to_nodes l elem l.head

  get_loop : (A → A → Cmp) → A → List A → Option A
  get_loop cmp_fun elem [] = none
  get_loop cmp_fun elem (x ∷ xs) = elim (cmp_fun x elem) [
    | equal ↦ some x
    | greater ↦ none
    | less ↦ get_loop cmp_fun elem xs
  ]

  unfoldable pub get : SortedList A → A → Option A
  unfolding get_loop
  get l elem = get_loop l.cmp_fun elem l.head

  remove_loop : SortedList A → A → List A → List A → SortedList A
  remove_loop l elem before [] = l
  remove_loop l elem before (x ∷ xs) = elim (l.cmp_fun x elem) [
    | equal ↦ record l { head = before ++ xs; length = l.length - 1 }
    | greater ↦ l
    | less ↦ remove_loop l elem (before ++ x ∷ []) xs
  ]

  unfoldable pub remove : SortedList A → A → SortedList A
  unfolding remove_loop
  remove l elem = remove_loop l elem [] l.head

  unfoldable pub size : SortedList A → ℕ
  size l = l.length

  -- An iterator is the list of the nodes that are still to come.
  unfoldable pub iterator : SortedList A → List A
  iterator l = l.head

  unfoldable pub next : List A → Option A × List A
  next [] = (none, [])
  next (x ∷ xs) = (some x, xs)
