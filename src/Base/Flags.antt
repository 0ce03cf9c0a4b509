-- ===== src/Base/Flags.antt =====
-- A flag at one bit of a number: setting, testing and clearing it.
use Prim.Native.Nat.{
  ℕ, zero, suc, ◌+◌, ◌*◌, ◌/◌, ◌%◌, ◌^◌, ◌≤◌, ◌<◌, min, max, bit_and, bit_or, bitwise, digits,
  bit_and-bitwise, bit_or-bitwise,
}
use mathlib.Core.Path.{◌≡◌, refl, ◌∙◌}
use native.Mathlib.Omega.{arith}

-- The digit recursion needs no more rounds than the number that it recurs on.
module _ (ended : ℕ → ℕ) (digit : ℕ → ℕ → ℕ) where
  rounds : (n m x y : ℕ) → x ≤ n → x ≤ m → digits ended digit n x y ≡ digits ended digit m x y
  rounds zero zero x y h k = refl
  rounds zero (suc m) zero y h k = refl
  rounds zero (suc m) (suc x) y h k = absurd (omega arith)
  rounds (suc n) zero zero y h k = refl
  rounds (suc n) zero (suc x) y h k = absurd (omega arith)
  rounds (suc n) (suc m) zero y h k = refl
  rounds (suc n) (suc m) (suc x) y h k =
      rw (rounds n m (suc x / 2) (y / 2) (omega arith) (omega arith)) refl

  lowest :
      (x y : ℕ)
      → bitwise ended digit (suc x) y
        ≡ bitwise ended digit (suc x / 2) (y / 2) * 2 + digit (suc x % 2) (y % 2)
  lowest x y = omega (arith, rounds x (suc x / 2) (suc x / 2) (y / 2) (omega arith) (omega arith))

bit_or-lowest : (x y : ℕ) → bit_or x y ≡ bit_or (x / 2) (y / 2) * 2 + max (x % 2) (y % 2)
bit_or-lowest zero y = simp bit_or-bitwise (omega arith)
bit_or-lowest (suc x) y = simp bit_or-bitwise (lowest (λ b. b) max x y)

bit_and-lowest : (x y : ℕ) → bit_and x y ≡ bit_and (x / 2) (y / 2) * 2 + min (x % 2) (y % 2)
bit_and-lowest zero y = simp bit_and-bitwise (omega arith)
bit_and-lowest (suc x) y = simp bit_and-bitwise (lowest (λ b. 0) min x y)

double : (w : ℕ) → 2 ^ suc w ≡ 2 * 2 ^ w
double w = omega arith

halved : (w : ℕ) → 2 ^ suc w / 2 ≡ 2 ^ w
halved w = omega (arith, double w)

pub bit_or-flag : (w x : ℕ) → x < 2 ^ w → bit_or x (2 ^ w) ≡ x + 2 ^ w
bit_or-flag zero zero h = refl
bit_or-flag zero (suc x) h = absurd (omega arith)
bit_or-flag (suc w) x h =
    bit_or-lowest x (2 ^ suc w)
    ∙ rw (halved w) (omega (arith, double w, bit_or-flag w (x / 2) (omega (arith, double w))))

-- The bits of the flag's number less the flag itself, with the bits of `high` above.
unfoldable pub all_but : ℕ → ℕ → ℕ
all_but zero high = 2 * high
all_but (suc w) high = 2 * all_but w high + 1

pub bit_and-flag_unset : (w x : ℕ) → x < 2 ^ w → bit_and x (2 ^ w) ≡ 0
bit_and-flag_unset zero zero h = refl
bit_and-flag_unset zero (suc x) h = absurd (omega arith)
bit_and-flag_unset (suc w) x h =
    bit_and-lowest x (2 ^ suc w)
    ∙ rw (halved w)
        (omega (arith, double w, bit_and-flag_unset w (x / 2) (omega (arith, double w))))

pub bit_and-flag_set : (w x : ℕ) → x < 2 ^ w → bit_and (x + 2 ^ w) (2 ^ w) ≡ 2 ^ w
bit_and-flag_set zero zero h = refl
bit_and-flag_set zero (suc x) h = absurd (omega arith)
bit_and-flag_set (suc w) x h =
    let half : (x + 2 ^ suc w) / 2 ≡ x / 2 + 2 ^ w = omega (arith, double w) in
    bit_and-lowest (x + 2 ^ suc w) (2 ^ suc w)
    ∙ rw (halved w, half)
        (omega (arith, double w, bit_and-flag_set w (x / 2) (omega (arith, double w))))

all_but-even : (high : ℕ) → all_but zero high / 2 ≡ high
unfolding all_but
all_but-even high = omega arith

pub bit_and-all_but_unset : (w high x : ℕ) → x < 2 ^ w → bit_and x (all_but w high) ≡ x
unfolding all_but
bit_and-all_but_unset zero high zero h = bit_and-bitwise 0 (2 * high)
bit_and-all_but_unset zero high (suc x) h = absurd (omega arith)
bit_and-all_but_unset (suc w) high x h =
    let half : (2 * all_but w high + 1) / 2 ≡ all_but w high = omega arith in
    bit_and-lowest x (2 * all_but w high + 1)
    ∙ rw half
        (omega (arith, double w, bit_and-all_but_unset w high (x / 2) (omega (arith, double w))))

pub bit_and-all_but_set : (w high x : ℕ) → x < 2 ^ w → bit_and (x + 2 ^ w) (all_but w high) ≡ x
unfolding all_but
bit_and-all_but_set zero high zero h =
    bit_and-lowest 1 (2 * high) ∙ omega (arith, bit_and-bitwise 0 (2 * high / 2))
bit_and-all_but_set zero high (suc x) h = absurd (omega arith)
bit_and-all_but_set (suc w) high x h =
    let half : (2 * all_but w high + 1) / 2 ≡ all_but w high = omega arith in
    let half' : (x + 2 ^ suc w) / 2 ≡ x / 2 + 2 ^ w = omega (arith, double w) in
    bit_and-lowest (x + 2 ^ suc w) (2 * all_but w high + 1)
    ∙ rw (half, half')
        (omega (arith, double w, bit_and-all_but_set w high (x / 2) (omega (arith, double w))))

bit_or-zero_fuel : (n x : ℕ) → x ≤ n → bit_or x 0 ≡ x
bit_or-zero_fuel n zero h = bit_or-bitwise 0 0
bit_or-zero_fuel zero (suc x) h = absurd (omega arith)
bit_or-zero_fuel (suc n) (suc x) h =
    omega (arith, bit_or-lowest (suc x) 0, bit_or-zero_fuel n (suc x / 2) (omega arith))

pub bit_or-zero : (x : ℕ) → bit_or x 0 ≡ x
bit_or-zero x = bit_or-zero_fuel x x (omega arith)
