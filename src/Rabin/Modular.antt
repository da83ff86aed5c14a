-- ===== src/Rabin/Modular.antt =====
-- `madd`, `msub` and `mmul` of rklab/rkgrep.c. A `long long` is an integer; none of the operations
-- overflows on arguments below PRIME.
use native.Mathlib.Nat.{mul-le-mul}
use cso18_labs.Base.{ℕ, ◌+◌, ◌-◌, ◌*◌, ◌%◌, ◌^◌, ◌≤◌, ◌<◌, ◌≡◌, arith, ◌==◌, if◌then◌else◌}
use cso18_labs.Base.Int.{ℤ, pos, ltb_ℤ, ◌+ℤ◌, ◌-ℤ◌, ◌*ℤ◌, remainder}

-- `PRIME`
abbrev pub prime : ℕ
prime = 961748941

unfoldable pub madd : ℤ → ℤ → ℤ
madd a b = remainder (a +ℤ b) prime

unfoldable pub msub : ℤ → ℤ → ℤ
msub a b = if ltb_ℤ b a then a -ℤ b else a +ℤ pos prime -ℤ b

unfoldable pub mmul : ℤ → ℤ → ℤ
mmul a b = remainder (a *ℤ b) prime

-- On arguments from 0 to PRIME - 1, `madd` and `mmul` return the sum and the product modulo PRIME,
-- and no sum or product reaches 2 ^ 63.
pub madd-mmul_lem :
    (a b : ℕ)
    → a < prime
    → b < prime
    → (madd (pos a) (pos b) ≡ pos ((a + b) % prime))
      × (mmul (pos a) (pos b) ≡ pos ((a * b) % prime))
      × (a + b < 2 ^ 63)
      × (a * b < 2 ^ 63)
unfolding madd mmul ◌+ℤ◌ ◌*ℤ◌
madd-mmul_lem a b ha hb = (
  ground arith,
  ground arith,
  omega arith,
  let p : a * b ≤ 961748940 * 961748940 =
        mul-le-mul {n₂ = 961748940} {m₂ = 961748940} (omega arith) (omega arith) in
      omega (arith, p),
)

-- On arguments from 0 to PRIME - 1, `msub` returns the difference modulo PRIME, but where the
-- arguments are equal it returns PRIME, not 0.
pub msub_lem :
    (a b : ℕ)
    → a < prime
    → b < prime
    → msub (pos a) (pos b) ≡ pos (if a == b then prime else (a + prime - b) % prime)
unfolding msub ◌+ℤ◌ ◌-ℤ◌
msub_lem a b ha hb = ground arith
