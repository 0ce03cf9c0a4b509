-- ===== src/Base/Bits.antt =====
-- Bit operations on small numbers as arithmetic: tables that are checked by evaluation.
use Prim.Native.Nat.{
  ℕ, zero, suc, ◌+◌, ◌*◌, ◌/◌, ◌%◌, ◌<◌, ◌≤◌, ◌^◌, bit_and, bit_or, bit_and-bitwise, digits, min,
}
use mathlib.Core.Path.{◌≡◌, refl, ap, ◌∙◌, sym}
use mathlib.Core.Logic.{◌≢◌, inl, inr}
use mathlib.Core.Bool.{Bool, true, false, ◌&&◌}
use native.Mathlib.Nat.{pow-suc}
use native.Mathlib.Omega.{arith}
use couchstore.Base.Tests.{◌==◌, ==_iff, Bool-cases}

unfoldable pub holds_below : ℕ → (ℕ → Bool) → Bool
holds_below zero test = true
holds_below (suc bound) test = holds_below bound test && test bound

pub holds_at :
    (test : ℕ → Bool) (bound x : ℕ) → x < bound → holds_below bound test ≡ true → test x ≡ true
unfolding holds_below
holds_at test zero x small t = absurd (omega arith)
holds_at test (suc bound) x small t = ground (arith, holds_at test bound x)

-- A number from the values of `f` that a table has below `n`.
module _ (f g : ℕ → ℕ) where
  pub agree_below : (n : ℕ) → holds_below n (λ x. f x == g x) ≡ true → (x : ℕ) → x < n → f x ≡ g x
  agree_below n t x h = (==_iff _ _).0 (holds_at (λ x. f x == g x) n x h t)

-- The four high bits of a byte.
pub high_nibble : (b : ℕ) → b < 256 → bit_and b 0xf0 / 16 ≡ b / 16
unfolding holds_below
high_nibble = agree_below (λ b. bit_and b 0xf0 / 16) (λ b. b / 16) 256 refl

low_nibble : (b : ℕ) → b < 256 → bit_and b 0xf ≡ b % 16
unfolding holds_below
low_nibble = agree_below (λ b. bit_and b 0xf) (λ b. b % 16) 256 refl

or_table : (x : ℕ) → x < 4096 → bit_or (x / 16 * 16) (x % 16) ≡ x
unfolding holds_below
or_table = agree_below (λ x. bit_or (x / 16 * 16) (x % 16)) (λ x. x) 4096 refl

-- Joining bits from the fifth on with four low bits.
pub or_low : (hi lo : ℕ) → hi < 256 → lo < 16 → bit_or (hi * 16) lo ≡ hi * 16 + lo
or_low hi lo h l =
    let q : (hi * 16 + lo) / 16 ≡ hi = omega arith in
    let r : (hi * 16 + lo) % 16 ≡ lo = omega arith in
    sym (ap (λ (t : ℕ). bit_or (t * 16) ((hi * 16 + lo) % 16)) q ∙ ap (bit_or (hi * 16)) r)
    ∙ or_table (hi * 16 + lo) (omega arith)

or_table_turned : (x : ℕ) → x < 256 → bit_or (x % 16) (x / 16 * 16) ≡ x
unfolding holds_below
or_table_turned = agree_below (λ x. bit_or (x % 16) (x / 16 * 16)) (λ x. x) 256 refl

-- Four low bits joined with four high bits of a byte.
pub or_high : (lo hi : ℕ) → lo < 16 → hi < 16 → bit_or lo (hi * 16) ≡ hi * 16 + lo
or_high lo hi l h =
    let q : (hi * 16 + lo) / 16 ≡ hi = omega arith in
    let r : (hi * 16 + lo) % 16 ≡ lo = omega arith in
    sym (
      ap (λ (t : ℕ). bit_or ((hi * 16 + lo) % 16) (t * 16)) q
      ∙ ap (λ (t : ℕ). bit_or t (hi * 16)) r)
    ∙ or_table_turned (hi * 16 + lo) (omega arith)

-- `x & 0xF`, for a number of any size.
pub mask_nibble : (x : ℕ) → bit_and (x % 16) 0xf ≡ x % 16
mask_nibble x = low_nibble (x % 16) (omega arith) ∙ omega arith

-- The recursion behind `&` needs no more fuel than the halved number.
enough_digits :
    (n m a b : ℕ) → a ≤ n → a ≤ m → digits (λ _. zero) min n a b ≡ digits (λ _. zero) min m a b
enough_digits zero zero a b h k = refl
enough_digits zero (suc m) zero b h k = refl
enough_digits (suc n) zero zero b h k = refl
enough_digits (suc n) (suc m) zero b h k = refl
enough_digits zero m (suc a) b h k = absurd (omega arith)
enough_digits (suc n) zero (suc a) b h k = absurd (omega arith)
enough_digits (suc n) (suc m) (suc a) b h k =
    rw (enough_digits n m (suc a / 2) (b / 2) (omega arith) (omega arith)) refl

-- `&` by its lowest digit.
pub and_digit : (a b : ℕ) → bit_and a b ≡ bit_and (a / 2) (b / 2) * 2 + min (a % 2) (b % 2)
and_digit zero b = simp bit_and-bitwise (omega arith)
and_digit (suc a) b =
    simp bit_and-bitwise
      (omega (arith, enough_digits a (suc a / 2) (suc a / 2) (b / 2) (omega arith) (omega arith)))

-- Whether digit `j` of a number is 1.
unfoldable pub digit : ℕ → ℕ → Bool
digit zero a = a % 2 == 1
digit (suc j) a = digit j (a / 2)

pub and_zero : (j a b : ℕ) → bit_and a b ≡ 0 → digit j a ≡ true → digit j b ≡ false
unfolding digit
and_zero zero a b z h = ground (arith, and_digit a b)
and_zero (suc j) a b z h = and_zero j (a / 2) (b / 2) (omega (arith, and_digit a b)) h

pub and_nothing : (b : ℕ) → bit_and 0 b ≡ 0
and_nothing b = simp bit_and-bitwise refl

pub and_some :
    (w a b : ℕ)
    → a < 2 ^ w
    → bit_and a b ≢ 0
    → (j : ℕ) × (j < w) × (digit j a ≡ true) × (digit j b ≡ true)
unfolding digit
and_some zero a b h n =
    let none : a ≡ 0 = omega arith in absurd (n (ap (λ (t : ℕ). bit_and t b) none ∙ and_nothing b))
and_some (suc w) a b h n = elim (Bool-cases (a % 2 == 1 && b % 2 == 1)) [
  | inl t ↦ (zero, omega arith, ground arith, ground arith)
  | inr t ↦
      let (j, small, of_a, of_b) =
        and_some w (a / 2) (b / 2) (omega (arith, pow-suc 2 w))
          (λ z. n (ground (arith, and_digit a b))) in
      (suc j, omega arith, of_a, of_b)
]
