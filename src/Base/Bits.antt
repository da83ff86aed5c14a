-- ===== src/Base/Bits.antt =====
-- `&` and `|` of machine words with the masks that the code uses, as arithmetic on the numbers.
use Prim.Native.Nat.{
  ℕ, zero, suc, ◌+◌, ◌-◌, ◌*◌, ◌/◌, ◌%◌, ◌^◌, ◌≤◌, ◌<◌, min, max, bit_and, bit_or, digits,
  bit_and-bitwise, bit_or-bitwise,
}
use mathlib.Core.Path.{◌≡◌, refl, ap, ◌∙◌}
use native.Mathlib.Nat.{pow-suc, one-le-pow, div-add-mod}
use native.Mathlib.Omega.{arith}

-- The digit recursion does not depend on its fuel, once that covers the left operand.
module _ (rest : ℕ → ℕ) (digit : ℕ → ℕ → ℕ) where
  enough_fuel : (n m a b : ℕ) → a ≤ n → a ≤ m → digits rest digit n a b ≡ digits rest digit m a b
  enough_fuel zero zero zero b p q = refl
  enough_fuel zero (suc m) zero b p q = refl
  enough_fuel (suc n) zero zero b p q = refl
  enough_fuel (suc n) (suc m) zero b p q = refl
  enough_fuel zero m (suc a) b p q = absurd (omega arith)
  enough_fuel (suc n) zero (suc a) b p q = absurd (omega arith)
  enough_fuel (suc n) (suc m) (suc a) b p q =
      ap (λ (t : ℕ). t * 2 + digit (suc a % 2) (b % 2))
        (enough_fuel n m (suc a / 2) (b / 2) (omega arith) (omega arith))

-- One binary digit of each operation.
bit_and_halves : (a b : ℕ) → bit_and a b ≡ bit_and (a / 2) (b / 2) * 2 + min (a % 2) (b % 2)
bit_and_halves zero b = omega (arith, bit_and-bitwise 0 b, bit_and-bitwise 0 (b / 2))
bit_and_halves (suc a) b = omega (
  arith,
  bit_and-bitwise (suc a) b,
  bit_and-bitwise (suc a / 2) (b / 2),
  enough_fuel (λ b. zero) min a (suc a / 2) (suc a / 2) (b / 2) (omega arith) (omega arith),
)

bit_or_halves : (a b : ℕ) → bit_or a b ≡ bit_or (a / 2) (b / 2) * 2 + max (a % 2) (b % 2)
bit_or_halves zero b = omega (arith, bit_or-bitwise 0 b, bit_or-bitwise 0 (b / 2))
bit_or_halves (suc a) b = omega (
  arith,
  bit_or-bitwise (suc a) b,
  bit_or-bitwise (suc a / 2) (b / 2),
  enough_fuel (λ b. b) max a (suc a / 2) (suc a / 2) (b / 2) (omega arith) (omega arith),
)

zero_right : (n a : ℕ) → a ≤ n → (bit_and a 0 ≡ 0) × (bit_or a 0 ≡ a)
zero_right zero zero h = (refl, refl)
zero_right zero (suc a) h = absurd (omega arith)
zero_right (suc n) zero h = (refl, refl)
zero_right (suc n) (suc a) h = (
  omega (arith, bit_and_halves (suc a) 0, zero_right n (suc a / 2) (omega arith)),
  omega (arith, bit_or_halves (suc a) 0, zero_right n (suc a / 2) (omega arith)),
)

pub bit_and-one : (a : ℕ) → bit_and a 1 ≡ a % 2
bit_and-one a = omega (arith, bit_and_halves a 1, zero_right (a / 2) (a / 2) (omega arith))

pub bit_or-one : (a : ℕ) → a % 2 ≡ 0 → bit_or a 1 ≡ a + 1
bit_or-one a h = omega (arith, bit_or_halves a 1, zero_right (a / 2) (a / 2) (omega arith))

-- A mask of `k` ones keeps the remainder by `2 ^ k`.
ones_keep_low : (k high low : ℕ) → low < 2 ^ k → bit_and (high * 2 ^ k + low) (2 ^ k - 1) ≡ low
ones_keep_low zero high low h =
    omega (arith, zero_right (high * 1 + low) (high * 1 + low) (omega arith))
ones_keep_low (suc k) high low h =
    let twice : high * 2 ^ suc k ≡ 2 * (high * 2 ^ k) =
      omega (arith, ap (λ (t : ℕ). high * t) (pow-suc 2 k)) in
    let mask : (2 ^ suc k - 1) / 2 ≡ 2 ^ k - 1 = omega (arith, pow-suc 2 k) in
    let word : (high * 2 ^ suc k + low) / 2 ≡ high * 2 ^ k + low / 2 = omega arith in
    omega (
      arith,
      bit_and_halves (high * 2 ^ suc k + low) (2 ^ suc k - 1),
      ap (λ (t : ℕ). bit_and t ((2 ^ suc k - 1) / 2)) word,
      ap (bit_and (high * 2 ^ k + low / 2)) mask,
      ones_keep_low k high (low / 2) (omega (arith, pow-suc 2 k)),
      pow-suc 2 k,
      one-le-pow k 2,
    )

pub bit_and_ones : (k a : ℕ) → bit_and a (2 ^ k - 1) ≡ a % 2 ^ k
bit_and_ones k a =
    let split : a ≡ a / 2 ^ k * 2 ^ k + a % 2 ^ k = grind (arith, div-add-mod) in
    ap (λ (t : ℕ). bit_and t (2 ^ k - 1)) split
    ∙ ones_keep_low k (a / 2 ^ k) (a % 2 ^ k) (omega (arith, one-le-pow k 2))

bit_and_even : (a m : ℕ) → bit_and a (2 * m) ≡ 2 * bit_and (a / 2) m
bit_and_even a m =
    let e : 2 * m / 2 ≡ m = omega arith in
    omega (arith, bit_and_halves a (2 * m), ap (bit_and (a / 2)) e)

-- The masks `~1` and `~15` of a 64-bit word.
pub clear_bit : (a : ℕ) → a < 2 ^ 64 → bit_and a (2 ^ 64 - 2) ≡ a - a % 2
clear_bit a h = omega (arith, bit_and_even a (2 ^ 63 - 1), bit_and_ones 63 (a / 2))

pub clear_four_bits : (a : ℕ) → a < 2 ^ 64 → bit_and a (2 ^ 64 - 16) ≡ a - a % 16
clear_four_bits a h = omega (
  arith,
  bit_and_even a (2 ^ 63 - 8),
  bit_and_even (a / 2) (2 ^ 62 - 4),
  bit_and_even (a / 2 / 2) (2 ^ 61 - 2),
  bit_and_even (a / 2 / 2 / 2) (2 ^ 60 - 1),
  bit_and_ones 60 (a / 2 / 2 / 2 / 2),
)
