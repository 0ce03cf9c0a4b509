-- ===== src/Views/Collate/Arrays.antt =====
-- CollateJSON of src/views/collate_json.c on arrays of numbers.
use couchstore.Base.{
  ℕ, zero, suc, ◌+◌, ◌*◌, ◌<◌, ◌≤◌, ◌≡◌, refl, ap, ◌∙◌, arith, leb, ◌==◌, true, false, List, [],
  ◌∷◌, ◌++◌, length, length-append, drop-append_length, All, Result, ok, some, Bool, ◌||◌,
}
use couchstore.Base.Order.{Cmp, less, equal, greater}
use couchstore.Views.Collate.{
  unicode, ValueType, value_type_of, both, Icu, Strtod, dcmp, depth_after, read_number,
  compare_tokens, collate_json,
}

-- A number and its text.
pub record Number (D : Type 0) : Type 0 where
  pub first : ℕ
  pub others : List ℕ
  pub value : D

module _ {D : Type 0} (strtod : List ℕ → Strtod D) (double_less : D → D → Bool) (icu : Icu) where
  abbrev text : Number D → List ℕ
  text n = n.first ∷ n.others

  -- strtod reads exactly the text, where a comma or a bracket follows it, and looks at no more than
  -- that byte.
  pub record IsRead (n : Number D) : Type 0 where
    pub starts : value_type_of n.first ≡ ValueType.number
    pub value :
        (b : ℕ) (s : List ℕ)
        → (b == 44 || b == 93) ≡ true
        → (strtod (n.first ∷ n.others ++ b ∷ s)).value ≡ n.value
    pub consumed :
        (b : ℕ) (s : List ℕ)
        → (b == 44 || b == 93) ≡ true
        → (strtod (n.first ∷ n.others ++ b ∷ s)).consumed ≡ suc (length n.others)
    pub looked :
        (b : ℕ) (s : List ℕ)
        → (b == 44 || b == 93) ≡ true
        → (strtod (n.first ∷ n.others ++ b ∷ s)).looked ≤ 2 + length n.others

  -- The numbers after the first, each behind a comma, and the closing bracket.
  unfoldable pub print_more : List (Number D) → List ℕ
  print_more [] = 93 ∷ []
  print_more (n ∷ ns) = 44 ∷ n.first ∷ n.others ++ print_more ns

  unfoldable pub print_array : List (Number D) → List ℕ
  print_array [] = 91 ∷ 93 ∷ []
  print_array (n ∷ ns) = 91 ∷ n.first ∷ n.others ++ print_more ns

  -- The first difference decides, and a proper prefix is below.
  unfoldable pub compare_numbers : List (Number D) → List (Number D) → Cmp
  compare_numbers [] [] = equal
  compare_numbers [] (n ∷ ns) = less
  compare_numbers (m ∷ ms) [] = greater
  compare_numbers (m ∷ ms) (n ∷ ns) = elim (dcmp strtod double_less icu m.value n.value) [
    | less ↦ less
    | equal ↦ compare_numbers ms ns
    | greater ↦ greater
  ]

  read_number-more :
      (n : Number D) (ns : List (Number D))
      → IsRead n
      → read_number strtod double_less icu false (n.first ∷ n.others ++ print_more ns)
        ≡ some (n.value, print_more ns)
  unfolding read_number print_more
  read_number-more n [] r = by_byte 93 [] refl
    where
      by_byte :
          (b : ℕ) (s : List ℕ)
          → (b == 44 || b == 93) ≡ true
          → read_number strtod double_less icu false (n.first ∷ n.others ++ b ∷ s)
            ≡ some (n.value, b ∷ s)
      by_byte b s e =
          let room : leb (strtod (n.first ∷ n.others ++ b ∷ s)).looked
                (length (n.first ∷ n.others ++ b ∷ s))
              ≡ true =
            ground (arith, r.looked b s e, length-append n.others (b ∷ s)) in
          rw
            (
              room,
              r.value b s e,
              r.consumed b s e,
              drop-append_length (length n.others) n.others (b ∷ s) refl,
            )
            refl
  read_number-more n (m ∷ ns) r = by_byte 44 (m.first ∷ m.others ++ print_more ns) refl
    where
      by_byte :
          (b : ℕ) (s : List ℕ)
          → (b == 44 || b == 93) ≡ true
          → read_number strtod double_less icu false (n.first ∷ n.others ++ b ∷ s)
            ≡ some (n.value, b ∷ s)
      by_byte b s e =
          let room : leb (strtod (n.first ∷ n.others ++ b ∷ s)).looked
                (length (n.first ∷ n.others ++ b ∷ s))
              ≡ true =
            ground (arith, r.looked b s e, length-append n.others (b ∷ s)) in
          rw
            (
              room,
              r.value b s e,
              r.consumed b s e,
              drop-append_length (length n.others) n.others (b ∷ s) refl,
            )
            refl

  abbrev collate : ℕ → ℕ → List ℕ → List ℕ → Result Cmp
  collate fuel depth s1 s2 = collate_json strtod double_less icu unicode fuel depth s1 s2

  -- A round on two numbers.
  number-round :
      (fuel : ℕ) (m n : Number D) (ms ns : List (Number D))
      → IsRead m
      → IsRead n
      → collate fuel 1 (print_more ms) (print_more ns) ≡ ok (compare_numbers ms ns)
      → collate
          (suc fuel)
          1
          (m.first ∷ m.others ++ print_more ms)
          (n.first ∷ n.others ++ print_more ns)
        ≡ ok (compare_numbers (m ∷ ms) (n ∷ ns))
  unfolding collate_json compare_tokens both compare_numbers
  number-round fuel m n ms ns r q h =
      rw (r.starts, q.starts, read_number-more m ms r, read_number-more n ns q)
        (by_case (dcmp strtod double_less icu m.value n.value) (value_type_of m.first) r.starts)
    where
      by_case :
          (c : Cmp) (t : ValueType)
          → t ≡ ValueType.number
          → elim c [
            | less ↦ ok less
            | greater ↦ ok greater
            | equal ↦ elim (depth_after strtod double_less icu t 1) [
              | zero ↦ ok equal
              | suc d ↦ collate fuel (suc d) (print_more ms) (print_more ns)
            ]
          ]
            ≡ ok (elim c [ less ↦ less | equal ↦ compare_numbers ms ns | greater ↦ greater ])
      by_case less t e = refl
      by_case equal t e =
          ap
            (λ u. elim (depth_after strtod double_less icu u 1) [
              | zero ↦ ok equal
              | suc d ↦ collate fuel (suc d) (print_more ms) (print_more ns)
            ])
            e
          ∙ h
      by_case greater t e = refl

  collate-more :
      (fuel : ℕ) (ms ns : List (Number D))
      → All IsRead ms
      → All IsRead ns
      → 2 * length ms < fuel
      → collate fuel 1 (print_more ms) (print_more ns) ≡ ok (compare_numbers ms ns)
  unfolding print_more collate_json compare_tokens compare_numbers value_type_of
  collate-more zero ms ns r q f = absurd (omega arith)
  collate-more (suc fuel) [] [] r q f = refl
  collate-more (suc fuel) [] (n ∷ ns) r q f = refl
  collate-more (suc fuel) (m ∷ ms) [] r q f = refl
  collate-more (suc zero) (m ∷ ms) (n ∷ ns) r q f = absurd (omega arith)
  collate-more (suc (suc fuel)) (m ∷ ms) (n ∷ ns) r q f =
      number-round fuel m n ms ns r.0 q.0 (collate-more fuel ms ns r.1 q.1 (omega arith))

  bracket-first :
      (fuel : ℕ) (n : Number D) (s t : List ℕ)
      → IsRead n
      → (collate (suc fuel) 1 (93 ∷ s) (n.first ∷ t) ≡ ok less)
        × (collate (suc fuel) 1 (n.first ∷ t) (93 ∷ s) ≡ ok greater)
  unfolding collate_json
  bracket-first fuel n s t r =
      let closing : value_type_of 93 ≡ ValueType.end_array = unfold value_type_of in refl in
      (rw (closing, r.starts) refl, rw (closing, r.starts) refl)

  length-print_more : (ns : List (Number D)) → 2 * length ns < length (print_more ns)
  unfolding print_more
  length-print_more [] = omega arith
  length-print_more (n ∷ ns) =
      omega (arith, length-append n.others (print_more ns), length-print_more ns)

  pub length-print_array : (ns : List (Number D)) → 2 * length ns < length (print_array ns)
  unfolding print_array
  length-print_array [] = omega arith
  length-print_array (n ∷ ns) =
      omega (arith, length-append n.others (print_more ns), length-print_more ns)

  pub collate_json-print_array :
      (fuel : ℕ) (ms ns : List (Number D))
      → All IsRead ms
      → All IsRead ns
      → 2 * length ms + 1 < fuel
      → collate fuel 0 (print_array ms) (print_array ns) ≡ ok (compare_numbers ms ns)
  unfolding print_array collate_json compare_tokens compare_numbers value_type_of
  collate_json-print_array zero ms ns r q f = absurd (omega arith)
  collate_json-print_array (suc zero) ms ns r q f = absurd (omega arith)
  collate_json-print_array (suc (suc fuel)) [] [] r q f = refl
  collate_json-print_array (suc (suc fuel)) [] (n ∷ ns) r q f =
      (bracket-first fuel n [] (n.others ++ print_more ns) q.0).0
  collate_json-print_array (suc (suc fuel)) (m ∷ ms) [] r q f =
      (bracket-first fuel m [] (m.others ++ print_more ms) r.0).1
  collate_json-print_array (suc (suc fuel)) (m ∷ ms) (n ∷ ns) r q f =
      number-round fuel m n ms ns r.0 q.0 (collate-more fuel ms ns r.1 q.1 (omega arith))
