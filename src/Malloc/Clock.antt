-- ===== src/Malloc/Clock.antt =====
-- malloclab/clock.c: the cycle counters, with the arithmetic of `double`: a count of cycles is a
-- whole number, a rate a fraction. The hardware's counter and the user time of
-- the process are parameters: `counter n` is what the reading with number `n` gives, and
-- `user_ticks n` the user time that is read next to it.
pub mod Subtract
pub mod Events
pub mod Least
pub mod Calibrate
use cso18_labs.Base.{
  ℕ, zero, suc, ◌+◌, ◌-◌, ◌*◌, ◌/◌, ◌%◌, ◌^◌, Bool, true, false, ◌&&◌, ◌||◌, ltb, leb, ◌==◌,
  if◌then◌else◌,
}
use cso18_labs.Base.Int.{pos, ◌-ℤ◌}
use cso18_labs.Base.Double.{
  Ratio, Double, to_double, over, whole, of_ℤ, of_ratio, subtract_double, multiply_double,
}
use cso18_labs.Base.Run.{Run, ok, fault, ◌>>=◌, exited, out_of_fuel}

-- The three versions that the preprocessor chooses from.
pub data Platform : Type 0 where
  i386 alpha other : Platform

-- The static variables; `cyc_per_tick` is `cyc_num / cyc_den`. `now` is not a variable of the code:
-- it numbers the next reading of the counter.
pub record Clock : Type 0 where
  pub cyc_hi : ℕ
  pub cyc_lo : ℕ
  pub cyc_num : ℕ
  pub cyc_den : ℕ
  pub start_tick : ℕ
  pub now : ℕ

abbrev pub initial : Clock
initial = record { cyc_hi = 0; cyc_lo = 0; cyc_num = 0; cyc_den = 1; start_tick = 0; now = 0 }

abbrev pub nevent : ℕ
nevent = 100

abbrev pub threshold : ℕ
threshold = 1000

abbrev pub recordthresh : ℕ
recordthresh = 3000

-- `access_counter`, or `counter` of the Alpha: the two halves of a reading.
unfoldable pub access_counter : Platform → ℕ → Run (ℕ × ℕ)
access_counter i386 t = ok (t / 2 ^ 32 % 2 ^ 32, t % 2 ^ 32)
access_counter alpha t = ok (0, t % 2 ^ 32)
access_counter other t = fault exited

-- The double precision subtraction, with the wrap-around of `unsigned`. The product is exact, and the
-- sum is rounded.
unfoldable pub subtract : (cyc_hi cyc_lo ncyc_hi ncyc_lo : ℕ) → ℕ
unfolding to_double
subtract cyc_hi cyc_lo ncyc_hi ncyc_lo =
    let lo : ℕ = (ncyc_lo + 2 ^ 32 - cyc_lo) % 2 ^ 32 in
    let borrow : ℕ = if ltb ncyc_lo lo then 1 else 0 in
    let hi : ℕ = (ncyc_hi + 2 ^ 33 - cyc_hi - borrow) % 2 ^ 32 in to_double (hi * 2 ^ 30 * 4 + lo)

-- What the loop of `callibrate` keeps.
pub record Watch : Type 0 where
  pub e : ℕ
  pub oldt : ℕ
  pub oldc : ℕ

-- What is done with `cpt`.
unfoldable pub record_ratio : (cpt : Ratio) → Clock → Clock
record_ratio cpt s =
    if (s.cyc_num == 0 || ltb (cpt.num * s.cyc_den) (s.cyc_num * cpt.den))
      && ltb (recordthresh * cpt.den) cpt.num
    then record s { cyc_num = cpt.num; cyc_den = cpt.den }
    else s

-- The body of the loop: `newt` has been read, and `newc` is the user time.
unfoldable pub observe : (newt newc : ℕ) → Watch → Clock → Watch × Clock
unfolding record_ratio
observe newt newc w s =
    if leb (w.oldt + threshold) newt
    then (if ltb w.oldc newc
        then (
          record { e = w.e + 1; oldt = newt; oldc = newc },
          record_ratio (over (whole (newt - w.oldt)) (whole (newc - w.oldc))) s,
        )
        else (record w { oldt = newt }, s))
    else (w, s)

module _ (platform : Platform) (counter user_ticks : ℕ → ℕ) where
  unfoldable pub start_counter : Clock → Run Clock
  unfolding access_counter
  start_counter s = access_counter platform (counter s.now) >>= λ (hi, lo).
      ok (record s { cyc_hi = hi; cyc_lo = lo; now = s.now + 1 })

  unfoldable pub get_counter : Clock → Run (ℕ × Clock)
  unfolding access_counter subtract
  get_counter s = access_counter platform (counter s.now) >>= λ (hi, lo).
      ok (subtract s.cyc_hi s.cyc_lo hi lo, record s { now = s.now + 1 })

  -- The loop runs twice, "to eliminate cache effects".
  unfoldable pub ovhd : Clock → Run (ℕ × Clock)
  unfolding start_counter get_counter
  ovhd s = start_counter s >>= λ s1.
      get_counter s1 >>= λ (first, s2). start_counter s2 >>= λ s3. get_counter s3

  -- The rate in MHz. What `sleep` does to the counter is in the readings.
  unfoldable pub mhz_full : (sleeptime : ℕ) → Clock → Run (Ratio × Clock)
  unfolding start_counter get_counter over
  mhz_full sleeptime s = start_counter s >>= λ s1.
      get_counter s1 >>= λ (cycles, s2). ok (over (whole cycles) (whole (1000000 * sleeptime)), s2)

  unfoldable pub mhz : Clock → Run (Ratio × Clock)
  unfolding mhz_full
  mhz s = mhz_full 2 s

  unfoldable pub callibrate_loop : ℕ → Watch → Clock → Run Clock
  unfolding get_counter observe
  callibrate_loop zero w s = if ltb w.e nevent then fault out_of_fuel else ok s
  callibrate_loop (suc fuel) w s =
      let rest = get_counter s >>= λ (newt, s1).
      (let (w1, s2) = observe newt (user_ticks s.now) w s1 in callibrate_loop fuel w1 s2) in
      if ltb w.e nevent then rest else ok s

  unfoldable pub callibrate : (fuel : ℕ) → Clock → Run Clock
  unfolding start_counter get_counter callibrate_loop
  callibrate fuel s =
      let oldc = user_ticks s.now in
      start_counter s >>= λ s1. get_counter s1 >>= λ (oldt, s2).
      callibrate_loop fuel (record { e = 0; oldt = oldt; oldc = oldc }) s2

  unfoldable pub start_comp_counter : (fuel : ℕ) → Clock → Run Clock
  unfolding start_counter callibrate
  start_comp_counter fuel s = (if s.cyc_num == 0 then callibrate fuel s else ok s) >>= λ s1.
      start_counter (record s1 { start_tick = user_ticks s1.now })

  -- The corrected count: it may be negative.
  unfoldable pub get_comp_counter : Clock → Run (Double × Clock)
  unfolding get_counter subtract_double multiply_double
  get_comp_counter s = get_counter s >>= λ (time, s1).
      (let ticks = of_ℤ (pos (user_ticks s.now) -ℤ pos s1.start_tick) in
        let rate = of_ratio (record { num = s1.cyc_num; den = s1.cyc_den }) in
        ok (subtract_double (of_ratio (whole time)) (multiply_double ticks rate), s1))
