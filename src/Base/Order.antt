-- ===== src/Base/Order.antt =====
-- Comparison functions. A C comparator returns an `int` that callers read by its sign.
use Prim.Native.Nat.{ℕ, compare, Ordering}
use mathlib.Core.Path.{◌≡◌, refl}
use mathlib.Core.List.{List, [], ◌∷◌, ◌++◌}
use native.Mathlib.Omega.{arith}
use couchstore.Base.Lists.{All, All-split}

-- The sign of a comparator's result: below, at or above 0.
pub data Cmp : Type 0 where
  less equal greater : Cmp

-- The sign of `a - b` for two numbers that an `int` holds.
abbrev pub cmp_ℕ : ℕ → ℕ → Cmp
cmp_ℕ a b = elim (compare a b) [ Ordering.lt ↦ less | Ordering.eq ↦ equal | Ordering.gt ↦ greater ]

-- To split on a computed comparison and keep the equation.
pub data Case (c : Cmp) : Type 0 where
  is_less : c ≡ less → Case c
  is_equal : c ≡ equal → Case c
  is_greater : c ≡ greater → Case c

pub Cmp-cases : (c : Cmp) → Case c
Cmp-cases less = is_less refl
Cmp-cases equal = is_equal refl
Cmp-cases greater = is_greater refl

-- What a sorted container asks of its comparator: a total preorder.
pub record IsComparator {ℓ} {A : Type ℓ} (cmp : A → A → Cmp) : Type ℓ where
  pub same : (a : A) → cmp a a ≡ equal
  pub turn_less : (a b : A) → cmp a b ≡ less → cmp b a ≡ greater
  pub turn_greater : (a b : A) → cmp a b ≡ greater → cmp b a ≡ less
  pub trans : (a b c : A) → cmp a b ≡ less → cmp b c ≡ less → cmp a c ≡ less
  pub congr : (a b c : A) → cmp a b ≡ equal → cmp a c ≡ cmp b c

-- Strictly ascending: no two elements are equal.
abbrev pub Sorted {ℓ} : {A : Type ℓ} → (A → A → Cmp) → List A → Type ℓ
Sorted cmp [] = Unit
Sorted cmp (x ∷ xs) = All (λ y. cmp x y ≡ less) xs × Sorted cmp xs

pub Sorted-append {ℓ} :
    {A : Type ℓ} (cmp : A → A → Cmp) (xs ys : List A)
    → Sorted cmp (xs ++ ys)
    → Sorted cmp xs × Sorted cmp ys
Sorted-append {A} cmp [] ys h = (tt, h)
Sorted-append {A} cmp (x ∷ xs) ys h =
    let both = Sorted-append cmp xs ys h.1 in
    (((All-split (λ y. cmp x y ≡ less) xs ys h.0).0, both.0), both.1)

module _ {ℓ} {A : Type ℓ} {cmp : A → A → Cmp} (o : IsComparator cmp) where
  pub turn_equal : (a b : A) → cmp a b ≡ equal → cmp b a ≡ equal
  turn_equal a b h = ground (arith, o.turn_less b a, o.turn_greater b a)

  pub trans_greater : (a b c : A) → cmp a b ≡ greater → cmp b c ≡ greater → cmp a c ≡ greater
  trans_greater a b c h k =
      o.turn_less c a (o.trans c b a (o.turn_greater b c k) (o.turn_greater a b h))

  pub congr_right : (a b c : A) → cmp a b ≡ equal → cmp c a ≡ cmp c b
  congr_right a b c h = ground (
    arith,
    o.congr a b c h,
    o.turn_less c a,
    o.turn_less c b,
    o.turn_greater c a,
    o.turn_greater c b,
    turn_equal c a,
    turn_equal c b,
  )

pub cmp_ℕ-IsComparator : IsComparator cmp_ℕ
cmp_ℕ-IsComparator = record {
  same = λ a. ground arith;
  turn_less = λ a b h. ground arith;
  turn_greater = λ a b h. ground arith;
  trans = λ a b c h k. ground arith;
  congr = λ a b c h. ground arith;
}
