-- ===== src/Views/Collate/Strings.antt =====
-- The comparisons of strings in src/views/collate_json.c with their texts the other way round.
use couchstore.Base.{
  ℕ, zero, suc, ◌==◌, ◌≡◌, refl, sym, ap, ◌∙◌, arith, if◌then◌else◌, Bool, true, false, ◌||◌, ltb,
  not, List, [], ◌∷◌, length, Result, ok, ◌>>=◌, Option, none, some,
}
use couchstore.Base.Order.{Cmp, less, equal, greater, cmp_ℕ}
use couchstore.Views.Collate.{
  both, Compared, compare_strings_ascii, string_char, signed_char, Icu, compare_unicode_slow,
  compare_unicode, compare_converted, convert_utf8_to_uchar,
}

abbrev pub turn : Cmp → Cmp
turn less = greater
turn equal = equal
turn greater = less

abbrev pub turn_result : Result Cmp → Result Cmp
turn_result r = r >>= λ c. ok (turn c)

-- The texts change places too.
abbrev pub swap : Result Compared → Result Compared
swap r = r >>= λ p. ok (turn p.0, p.2, p.1)

pub turn-cmp_ℕ : (a b : ℕ) → turn (cmp_ℕ a b) ≡ cmp_ℕ b a
turn-cmp_ℕ a b = ground arith

-- ICU's comparisons succeed and turn round with their arguments.
pub record IcuTurns (icu : Icu) : Type 0 where
  pub opens : icu.opens ≡ true
  pub strcoll : (a b : List ℕ) → icu.strcoll b a ≡ turn (icu.strcoll a b)
  pub strcoll_iter :
      (a b : List ℕ)
      → (c : Cmp) × (icu.strcoll_iter a b ≡ some c) × (icu.strcoll_iter b a ≡ some (turn c))

turn-both :
    {A : Type 0} (x y : Option A) (k k' : A → A → Result Cmp)
    → ((a b : A) → k' b a ≡ turn_result (k a b))
    → both y x k' ≡ turn_result (both x y k)
unfolding both
turn-both none none k k' h = refl
turn-both none (some b) k k' h = refl
turn-both (some a) none k k' h = refl
turn-both (some a) (some b) k k' h = h a b

pub swap-both :
    {A : Type 0} (x y : Option A) (k k' : A → A → Result Compared)
    → ((a b : A) → k' b a ≡ swap (k a b))
    → both y x k' ≡ swap (both x y k)
unfolding both
swap-both none none k k' h = refl
swap-both none (some b) k k' h = refl
swap-both (some a) none k k' h = refl
swap-both (some a) (some b) k k' h = h a b

pub swap-ascii :
    (fuel : ℕ) (s1 s2 : List ℕ)
    → compare_strings_ascii fuel s2 s1 ≡ swap (compare_strings_ascii fuel s1 s2)
unfolding compare_strings_ascii
swap-ascii zero s1 s2 = refl
swap-ascii (suc fuel) [] [] = refl
swap-ascii (suc fuel) [] (c2 ∷ s2) = refl
swap-ascii (suc fuel) (c1 ∷ s1) [] = refl
swap-ascii (suc fuel) (c1 ∷ s1) (c2 ∷ s2) = quotes (c1 == 34) (c2 == 34) _ _ (
    swap-both (string_char (c1 ∷ s1)) (string_char (c2 ∷ s2)) _ _ (λ p q.
      rw (← turn-cmp_ℕ (signed_char p.0) (signed_char q.0))
        (chars (cmp_ℕ (signed_char p.0) (signed_char q.0)) p.1 q.1 (swap-ascii fuel p.1 q.1))))
  where
    quotes :
        (b1 b2 : Bool) (x x' : Result Compared)
        → x' ≡ swap x
        → (if b2
            then ok (if b1 then equal else less, s2, s1)
            else if b1
            then ok (greater, s2, s1)
            else x')
          ≡ swap (
              if b1
              then ok (if b2 then equal else less, s1, s2)
              else if b2
              then ok (greater, s1, s2)
              else x)
    quotes true true x x' h = refl
    quotes true false x x' h = refl
    quotes false true x x' h = refl
    quotes false false x x' h = h

    chars :
        (c : Cmp) (t1 t2 : List ℕ)
        → compare_strings_ascii fuel t2 t1 ≡ swap (compare_strings_ascii fuel t1 t2)
        → elim (turn c) [
          | less ↦ ok (less, t2, t1)
          | greater ↦ ok (greater, t2, t1)
          | equal ↦ compare_strings_ascii fuel t2 t1
        ]
          ≡ swap (elim c [
            | less ↦ ok (less, t1, t2)
            | greater ↦ ok (greater, t1, t2)
            | equal ↦ compare_strings_ascii fuel t1 t2
          ])
    chars less t1 t2 h = refl
    chars equal t1 t2 h = h
    chars greater t1 t2 h = refl

module _ (icu : Icu) (turns : IcuTurns icu) where
  turn-slow : (a b : List ℕ) → compare_unicode_slow icu b a ≡ turn (compare_unicode_slow icu a b)
  unfolding compare_unicode_slow
  turn-slow a b =
      let (c, of_ab, of_ba) = turns.strcoll_iter a b in
      ap (λ (r : Option Cmp). elim r [ none ↦ less | some c ↦ c ]) of_ba
      ∙ sym (ap (λ (r : Option Cmp). turn (elim r [ none ↦ less | some c ↦ c ])) of_ab)

  turn-converted :
      (a b : List ℕ) (u v : Option (List ℕ))
      → compare_converted icu b a v u ≡ turn (compare_converted icu a b u v)
  unfolding compare_converted
  turn-converted a b none none = turn-slow a b
  turn-converted a b none (some v) = turn-slow a b
  turn-converted a b (some u) none = turn-slow a b
  turn-converted a b (some u) (some v) = turns.strcoll u v

  pub turn-unicode :
      (a b : List ℕ) (c d : Bool)
      → compare_unicode icu b d a c ≡ turn_result (compare_unicode icu a c b d)
  unfolding compare_unicode
  turn-unicode a b c d = opened icu.opens turns.opens _ _ (
      by_length (ltb 256 (length a)) (ltb 256 (length b)) _ _ (
        turn-both (convert_utf8_to_uchar icu c a) (convert_utf8_to_uchar icu d b)
          (λ u v. ok (compare_converted icu a b u v)) (λ v u. ok (compare_converted icu b a v u))
          (λ u v. ap ok (turn-converted a b u v))))
    where
      opened :
          (b : Bool)
          → b ≡ true
          → (x x' : Result Cmp) → x' ≡ turn_result x
          → (if not b then ok less else x') ≡ turn_result (if not b then ok less else x)
      opened true e x x' h = h
      opened false e x x' h = cc

      by_length :
          (long_a long_b : Bool) (x x' : Result Cmp)
          → x' ≡ turn_result x
          → (if long_b || long_a then ok (compare_unicode_slow icu b a) else x')
            ≡ turn_result (if long_a || long_b then ok (compare_unicode_slow icu a b) else x)
      by_length true true x x' h = ap ok (turn-slow a b)
      by_length true false x x' h = ap ok (turn-slow a b)
      by_length false true x x' h = ap ok (turn-slow a b)
      by_length false false x x' h = h
