-- ===== src/Malloc/Clock/Subtract.antt =====
-- The subtraction of malloclab/clock.c in two halves, and what the counters of the three platforms
-- then report.
use cso18_labs.Base.{ℕ, ◌+◌, ◌-◌, ◌*◌, ◌/◌, ◌%◌, ◌^◌, ◌<◌, ◌≡◌, refl, ap, arith, ltb, if◌then◌else◌}
use cso18_labs.Base.Double.{to_double}
use cso18_labs.Base.Run.{ok, fault, exited, ◌>>=◌}
use cso18_labs.Malloc.Clock.{
  Platform, i386, alpha, other, Clock, access_counter, subtract, start_counter, get_counter,
}

halves :
    (a b : ℕ)
    → a < 2 ^ 64
    → b < 2 ^ 64
    → (let lo : ℕ = (b % 2 ^ 32 + 2 ^ 32 - a % 2 ^ 32) % 2 ^ 32 in
        let borrow : ℕ = if ltb (b % 2 ^ 32) lo then 1 else 0 in
        let hi : ℕ = (b / 2 ^ 32 % 2 ^ 32 + 2 ^ 33 - a / 2 ^ 32 % 2 ^ 32 - borrow) % 2 ^ 32 in
        hi * 2 ^ 30 * 4 + lo)
      ≡ (b + 2 ^ 64 - a) % 2 ^ 64
halves a b ha hb = ground arith

pub subtract_lem :
    (a b : ℕ)
    → a < 2 ^ 64
    → b < 2 ^ 64
    → subtract (a / 2 ^ 32 % 2 ^ 32) (a % 2 ^ 32) (b / 2 ^ 32 % 2 ^ 32) (b % 2 ^ 32)
      ≡ to_double ((b + 2 ^ 64 - a) % 2 ^ 64)
unfolding subtract
subtract_lem a b ha hb = ap to_double (halves a b ha hb)

-- What the Alpha's version makes of two readings.
abbrev pub alpha_count : (old new : ℕ) → ℕ
alpha_count old new = if ltb new old then 2 ^ 64 - (old - new) else new - old

abbrev pub high_half : Platform → ℕ → ℕ
high_half i386 t = t / 2 ^ 32 % 2 ^ 32
high_half alpha t = 0
high_half other t = 0

-- The static variables behind the two calls.
abbrev pub after : Platform → (ℕ → ℕ) → Clock → Clock
after platform counter s = record s {
  cyc_hi = high_half platform (counter s.now);
  cyc_lo = counter s.now % 2 ^ 32;
  now = s.now + 1 + 1;
}

alpha_halves :
    (a b : ℕ)
    → a < 2 ^ 32
    → b < 2 ^ 32
    → (let lo : ℕ = (b + 2 ^ 32 - a) % 2 ^ 32 in
        let borrow : ℕ = if ltb b lo then 1 else 0 in
        let hi : ℕ = (0 + 2 ^ 33 - 0 - borrow) % 2 ^ 32 in hi * 2 ^ 30 * 4 + lo)
      ≡ alpha_count a b
alpha_halves a b ha hb = ground arith

alpha_lem : (a b : ℕ) → a < 2 ^ 32 → b < 2 ^ 32 → subtract 0 a 0 b ≡ to_double (alpha_count a b)
unfolding subtract
alpha_lem a b ha hb = ap to_double (alpha_halves a b ha hb)

-- For readings below 2 ^ 64, `get_counter` on x86 returns the distance from the reading that
-- `start_counter` recorded, modulo 2 ^ 64, rounded to a `double` once: the borrow of the two halves
-- is right. The counter of the Alpha has 32 bits only, and the borrow is taken from a high half that
-- is not there: while it has not wrapped around the distance is right, and when it has wrapped
-- around the result is 2 ^ 64 less the distance backwards, rounded. On other platforms both functions
-- call `exit(1)`.
pub get_counter-start_counter :
    (counter user_ticks : ℕ → ℕ) (s : Clock)
    → counter s.now < 2 ^ 64
    → counter (s.now + 1) < 2 ^ 64
    → (start_counter i386 counter user_ticks s >>= get_counter i386 counter user_ticks)
        ≡ ok (
          to_double ((counter (s.now + 1) + 2 ^ 64 - counter s.now) % 2 ^ 64),
          after i386 counter s,
        )
      × ((start_counter alpha counter user_ticks s >>= get_counter alpha counter user_ticks)
          ≡ ok (
            to_double (alpha_count (counter s.now % 2 ^ 32) (counter (s.now + 1) % 2 ^ 32)),
            after alpha counter s,
          ))
      × (start_counter other counter user_ticks s ≡ fault exited)
      × (get_counter other counter user_ticks s ≡ fault exited)
unfolding start_counter get_counter access_counter
get_counter-start_counter counter user_ticks s ha hb = (
  ap (λ n. ok (n, after i386 counter s)) (subtract_lem (counter s.now) (counter (s.now + 1)) ha hb),
  ap (λ n. ok (n, after alpha counter s))
      (alpha_lem (counter s.now % 2 ^ 32) (counter (s.now + 1) % 2 ^ 32) (omega arith)
        (omega arith)),
  refl,
  refl,
)
