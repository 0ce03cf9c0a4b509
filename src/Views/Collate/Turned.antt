-- ===== src/Views/Collate/Turned.antt =====
-- CollateJSON of src/views/collate_json.c with its texts the other way round.
use couchstore.Base.{
  ℕ, zero, suc, ◌+◌, ◌==◌, ◌≡◌, refl, sym, ap, ◌∙◌, arith, if◌then◌else◌, Bool, true, false,
  Bool-cases, inl, inr, List, [], ◌∷◌, length, drop, Result, ok, err, fault, ◌>>=◌,
}
use couchstore.Base.Order.{Cmp, less, equal, greater}
use couchstore.Views.Collate.{
  CollateJsonMode, unicode, raw, ascii, ValueType, type_number, value_type_of, Compared,
  create_string_from_json, Icu, Strtod, compare_unicode, dcmp, read_number, compare_strings_unicode,
  compare_strings, compare_tokens, depth_after, type_order, collate_json,
}
use couchstore.Views.Collate.Strings.{
  turn, turn_result, swap, turn-cmp_ℕ, swap-both, swap-ascii, IcuTurns, turn-unicode,
}

type_with_number : ℕ → ValueType
type_with_number n =
    if n == 0
    then ValueType.end_array
    else if n == 1
    then ValueType.end_object
    else if n == 2
    then ValueType.comma
    else if n == 3
    then ValueType.colon
    else if n == 4
    then ValueType.null_value
    else if n == 5
    then ValueType.false_value
    else if n == 6
    then ValueType.true_value
    else if n == 7
    then ValueType.number
    else if n == 8
    then ValueType.string
    else if n == 9
    then ValueType.array
    else if n == 10
    then ValueType.object
    else ValueType.illegal

type_with_number-number : (t : ValueType) → type_with_number (type_number t) ≡ t
unfolding type_with_number
type_with_number-number ValueType.end_array = refl
type_with_number-number ValueType.end_object = refl
type_with_number-number ValueType.comma = refl
type_with_number-number ValueType.colon = refl
type_with_number-number ValueType.null_value = refl
type_with_number-number ValueType.false_value = refl
type_with_number-number ValueType.true_value = refl
type_with_number-number ValueType.number = refl
type_with_number-number ValueType.string = refl
type_with_number-number ValueType.array = refl
type_with_number-number ValueType.object = refl
type_with_number-number ValueType.illegal = refl

type_number-injective : (t u : ValueType) → type_number t ≡ type_number u → t ≡ u
type_number-injective t u e =
    sym (type_with_number-number t) ∙ ap type_with_number e ∙ type_with_number-number u

module _ (icu : Icu) (turns : IcuTurns icu) {D : Type 0} (strtod : List ℕ → Strtod D)
    (double_less : D → D → Bool)
    (asymmetric : (a b : D) → double_less a b ≡ true → double_less b a ≡ false) where
  turn-dcmp : (a b : D) → dcmp strtod double_less icu b a ≡ turn (dcmp strtod double_less icu a b)
  turn-dcmp a b = elim (Bool-cases (double_less b a)) [
    | inl t ↦ rw (t, asymmetric b a t) refl
    | inr t ↦ elim (Bool-cases (double_less a b)) [
      | inl u ↦ rw (t, u) refl
      | inr u ↦ rw (t, u) refl
    ]
  ]

  swap-strings_unicode :
      (s1 s2 : List ℕ)
      → compare_strings_unicode strtod double_less icu s2 s1
        ≡ swap (compare_strings_unicode strtod double_less icu s1 s2)
  unfolding compare_strings_unicode
  swap-strings_unicode s1 s2 =
      swap-both (create_string_from_json (suc (length s1)) s1)
        (create_string_from_json (suc (length s2)) s2) _ _
        (λ p q.
          rw (turn-unicode icu turns p.0 q.0 p.1 q.1)
            (after (compare_unicode icu p.0 p.1 q.0 q.1) p.2 q.2))
    where
      after :
          (r : Result Cmp) (t1 t2 : List ℕ)
          → (turn_result r >>= λ c. ok (c, t2, t1)) ≡ swap (r >>= λ c. ok (c, t1, t2))
      after (ok c) t1 t2 = refl
      after (err e) t1 t2 = refl
      after fault t1 t2 = refl

  swap-strings :
      (mode : CollateJsonMode) (s1 s2 : List ℕ)
      → compare_strings strtod double_less icu mode s2 s1
        ≡ swap (compare_strings strtod double_less icu mode s1 s2)
  unfolding compare_strings
  swap-strings unicode s1 s2 = swap-strings_unicode s1 s2
  swap-strings raw s1 s2 =
      let same : length s2 + length s1 ≡ length s1 + length s2 = omega arith in
      rw same (swap-ascii (length s1 + length s2) s1 s2)
  swap-strings ascii s1 s2 =
      let same : length s2 + length s1 ≡ length s1 + length s2 = omega arith in
      rw same (swap-ascii (length s1 + length s2) s1 s2)

  swap-tokens :
      (mode : CollateJsonMode) (depth : ℕ) (t : ValueType) (s1 s2 : List ℕ)
      → compare_tokens strtod double_less icu mode depth t s2 s1
        ≡ swap (compare_tokens strtod double_less icu mode depth t s1 s2)
  unfolding compare_tokens
  swap-tokens mode depth ValueType.end_array s1 s2 = refl
  swap-tokens mode depth ValueType.end_object s1 s2 = refl
  swap-tokens mode depth ValueType.comma s1 s2 = refl
  swap-tokens mode depth ValueType.colon s1 s2 = refl
  swap-tokens mode depth ValueType.null_value s1 s2 = refl
  swap-tokens mode depth ValueType.false_value s1 s2 = refl
  swap-tokens mode depth ValueType.true_value s1 s2 = refl
  swap-tokens mode depth ValueType.number s1 s2 =
      swap-both (read_number strtod double_less icu (depth == 0) s1)
        (read_number strtod double_less icu (depth == 0) s2) _ _
        (λ p q. ap (λ c. ok (c, q.1, p.1)) (turn-dcmp p.0 q.0))
  swap-tokens mode depth ValueType.string s1 s2 = swap-strings mode (drop 1 s1) (drop 1 s2)
  swap-tokens mode depth ValueType.array s1 s2 = refl
  swap-tokens mode depth ValueType.object s1 s2 = refl
  swap-tokens mode depth ValueType.illegal s1 s2 = refl

  -- What follows two equal tokens.
  abbrev Onward : (ℕ → List ℕ → List ℕ → Result Cmp) → ℕ → Compared → Result Cmp
  Onward rest depth r = elim r.0 [
    | less ↦ ok less
    | greater ↦ ok greater
    | equal ↦ elim depth [ zero ↦ ok equal | suc d ↦ rest (suc d) r.1 r.2 ]
  ]

  turn-onward :
      (rest : ℕ → List ℕ → List ℕ → Result Cmp) (depth : ℕ) (r : Result Compared)
      → ((d : ℕ) (s1 s2 : List ℕ) → rest d s2 s1 ≡ turn_result (rest d s1 s2))
      → (swap r >>= Onward rest depth) ≡ turn_result (r >>= Onward rest depth)
  turn-onward rest zero (ok (less, s1, s2)) h = refl
  turn-onward rest (suc d) (ok (less, s1, s2)) h = refl
  turn-onward rest zero (ok (greater, s1, s2)) h = refl
  turn-onward rest (suc d) (ok (greater, s1, s2)) h = refl
  turn-onward rest zero (ok (equal, s1, s2)) h = refl
  turn-onward rest (suc d) (ok (equal, s1, s2)) h = h (suc d) s1 s2
  turn-onward rest depth (err e) h = refl
  turn-onward rest depth fault h = refl

  -- CollateJSON of two texts the other way round gives the opposite sign, or the same fault, in
  -- every mode, where ICU's comparisons do and never fail, and `<` on doubles is asymmetric.
  pub turn-collate_json :
      (mode : CollateJsonMode) (fuel depth : ℕ) (s1 s2 : List ℕ)
      → collate_json strtod double_less icu mode fuel depth s2 s1
        ≡ turn_result (collate_json strtod double_less icu mode fuel depth s1 s2)
  unfolding collate_json
  turn-collate_json mode zero depth s1 s2 = refl
  turn-collate_json mode (suc fuel) depth [] [] = refl
  turn-collate_json mode (suc fuel) depth [] (c2 ∷ s2) = refl
  turn-collate_json mode (suc fuel) depth (c1 ∷ s1) [] = refl
  turn-collate_json mode (suc fuel) depth (c1 ∷ s1) (c2 ∷ s2) =
      elim (Bool-cases (type_number (value_type_of c1) == type_number (value_type_of c2))) [
        | inl e ↦
            let turned : (type_number (value_type_of c2) == type_number (value_type_of c1)) ≡ true =
              ground arith in
            let same : value_type_of c2 ≡ value_type_of c1 =
              type_number-injective (value_type_of c2) (value_type_of c1) (ground arith) in
            rw (turned, e)
              (of_one_type (value_type_of c1) (value_type_of c2) same (turn-collate_json mode fuel))
        | inr e ↦
            let turned : (type_number (value_type_of c2) == type_number (value_type_of c1))
                ≡ false =
              ground arith in
            rw (turned, e)
              (ap ok (sym (turn-cmp_ℕ (order (value_type_of c1)) (order (value_type_of c2)))))
      ]
    where
      order : ValueType → ℕ
      order t = type_order strtod double_less icu mode t

      round : ValueType → List ℕ → List ℕ → Result Cmp
      round t r1 r2 =
          compare_tokens strtod double_less icu mode depth t r1 r2
          >>= Onward (collate_json strtod double_less icu mode fuel)
              (depth_after strtod double_less icu t depth)

      of_one_type :
          (t u : ValueType)
          → u ≡ t
          → ((d : ℕ) (r1 r2 : List ℕ)
              → collate_json strtod double_less icu mode fuel d r2 r1
                ≡ turn_result (collate_json strtod double_less icu mode fuel d r1 r2))
          → round u (c2 ∷ s2) (c1 ∷ s1) ≡ turn_result (round t (c1 ∷ s1) (c2 ∷ s2))
      of_one_type t u e ih =
          ap (λ v. round v (c2 ∷ s2) (c1 ∷ s1)) e
          ∙ ap
              (λ r.
                r
                >>= Onward (collate_json strtod double_less icu mode fuel)
                    (depth_after strtod double_less icu t depth))
              (swap-tokens mode depth t (c1 ∷ s1) (c2 ∷ s2))
          ∙ turn-onward (collate_json strtod double_less icu mode fuel)
              (depth_after strtod double_less icu t depth)
              (compare_tokens strtod double_less icu mode depth t (c1 ∷ s1) (c2 ∷ s2)) ih
