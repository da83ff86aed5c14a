-- ===== src/Base/Double.antt =====
-- Arithmetic on `double`: each operation gives the exact fraction rounded to 53 bits, ties to even.
-- The range of the exponent is not limited, so there is no infinity and no subnormal number; a
-- division by 0 is not given a meaning.
use cso18_labs.Base.{
  ℕ, zero, suc, ◌+◌, ◌*◌, ◌/◌, ◌%◌, ◌^◌, ◌<◌, ◌≡◌, Bool, ◌||◌, ltb, leb, ◌==◌, if◌then◌else◌, arith,
  lt→ltb,
}
use cso18_labs.Base.Int.{ℤ, pos, negsuc, ◌+ℤ◌, ◌-ℤ◌, ◌*ℤ◌}

-- A number that is not negative.
pub record Ratio : Type 0 where
  pub num : ℕ
  pub den : ℕ

-- The whole number next to `n / d`.
abbrev pub round_even : ℕ → ℕ → ℕ
round_even n d =
    let q = n / d in
    let r = n % d in if ltb (2 * r) d then q else if ltb d (2 * r) then q + 1 else q + q % 2

-- A whole number as a `double`, from `unit` on, which doubles until 53 bits are enough.
unfoldable pub round_unit : ℕ → ℕ → ℕ → ℕ
round_unit zero unit n = n
round_unit (suc fuel) unit n =
    let rest = round_unit fuel (2 * unit) n in
    if ltb n (2 ^ 53 * unit) then round_even n unit * unit else rest

-- A whole number below 2 ^ 64 as a `double`.
unfoldable pub to_double : ℕ → ℕ
unfolding round_unit
to_double n = round_unit 12 1 n

pub to_double_exact : (n : ℕ) → n < 2 ^ 53 → to_double n ≡ n
unfolding to_double round_unit
to_double_exact n h = let small = lt→ltb n (2 ^ 53 * 1) (omega arith) in rw small (ground arith)

-- `n / d * down / up`, scaled until `n / d` has 53 bits.
unfoldable pub scale : (fuel n d up down : ℕ) → Ratio
scale zero n d up down = record { num = n * down; den = d * up }
scale (suc fuel) n d up down =
    let low = ltb n (2 ^ 52 * d) in
    let high = leb (2 ^ 53 * d) n in
    let rest =
      scale fuel (if low then 2 * n else n) (if high then 2 * d else d) (if low then 2 * up else up)
        (if high then 2 * down else down) in
    if low || high then rest else record { num = round_even n d * down; den = up }

-- The exponents of a `double` lie between -1074 and 1024.
unfoldable pub rounded : Ratio → Ratio
unfolding scale
rounded a = (let r = scale 1200 a.num a.den 1 1 in if a.num == 0 || a.den == 0 then a else r)

abbrev pub nought : Ratio
nought = record { num = 0; den = 1 }

abbrev pub whole : ℕ → Ratio
whole n = record { num = n; den = 1 }

unfoldable pub plus : Ratio → Ratio → Ratio
unfolding rounded
plus a b = rounded (record { num = a.num * b.den + b.num * a.den; den = a.den * b.den })

unfoldable pub times : Ratio → Ratio → Ratio
unfolding rounded
times a b = rounded (record { num = a.num * b.num; den = a.den * b.den })

unfoldable pub over : Ratio → Ratio → Ratio
unfolding rounded
over a b = rounded (record { num = a.num * b.den; den = a.den * b.num })

-- `a > b`
abbrev pub above : Ratio → Ratio → Bool
above a b = ltb (b.num * a.den) (a.num * b.den)

-- A number with a sign.
pub record Double : Type 0 where
  pub num : ℤ
  pub den : ℕ

unfoldable pub signed : ℤ → ℕ → Double
unfolding rounded
signed (pos n) d =
    (let r = rounded (record { num = n; den = d }) in record { num = pos r.num; den = r.den })
signed (negsuc n) d =
    (let r = rounded (record { num = n + 1; den = d }) in
      record { num = pos 0 -ℤ pos r.num; den = r.den })

abbrev pub of_ratio : Ratio → Double
of_ratio r = record { num = pos r.num; den = r.den }

-- A `long` or `int` of at most 53 bits.
abbrev pub of_ℤ : ℤ → Double
of_ℤ i = record { num = i; den = 1 }

unfoldable pub add_double : Double → Double → Double
unfolding signed
add_double a b = signed (a.num *ℤ pos b.den +ℤ b.num *ℤ pos a.den) (a.den * b.den)

unfoldable pub subtract_double : Double → Double → Double
unfolding signed
subtract_double a b = signed (a.num *ℤ pos b.den -ℤ b.num *ℤ pos a.den) (a.den * b.den)

unfoldable pub multiply_double : Double → Double → Double
unfolding signed
multiply_double a b = signed (a.num *ℤ b.num) (a.den * b.den)

-- By a whole number.
unfoldable pub divide_double : Double → ℕ → Double
unfolding signed
divide_double a n = signed a.num (a.den * n)
