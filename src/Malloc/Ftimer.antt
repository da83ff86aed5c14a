-- ===== src/Malloc/Ftimer.antt =====
-- malloclab/ftimer.c: the running time of a function, by the interval timer and by the time of day.
-- The calls of the system are parameters, on a world that they and the timed function change.
use cso18_labs.Base.{ℕ, zero, suc}
use cso18_labs.Base.Int.{pos, ◌-ℤ◌}
use cso18_labs.Base.Double.{
  Double, signed, of_ℤ, add_double, subtract_double, multiply_double, divide_double,
}

-- `struct timeval`; also the `it_value` of a `struct itimerval`.
pub record Timeval : Type 0 where
  pub tv_sec : ℕ
  pub tv_usec : ℕ

pub data Which : Type 0 where
  itimer_real itimer_virtual itimer_prof : Which

-- The static variables, their `it_value` each; their `it_interval` is 0.
pub record First : Type 0 where
  pub first_u : Timeval
  pub first_r : Timeval
  pub first_p : Timeval

abbrev pub max_etime : ℕ
max_etime = 86400

abbrev pub full_time : Timeval
full_time = record { tv_sec = max_etime; tv_usec = 0 }

-- `1E3`, `1E-3` and `1e-6`
unfoldable pub kilo : Double
unfolding signed
kilo = signed (pos 1000) 1

unfoldable pub milli : Double
unfolding signed
milli = signed (pos 1) 1000

unfoldable pub micro : Double
unfolding signed
micro = signed (pos 1) 1000000

unfoldable pub runs {ℓ} : {W : Type ℓ} → (W → W) → ℕ → W → W
runs f zero w = w
runs f (suc n) w = runs f n (f w)

pub record System {ℓ} (W : Type ℓ) : Type ℓ where
  pub gettimeofday : W → Timeval
  pub setitimer : Which → Timeval → W → W
  pub getitimer : Which → W → Timeval

module _ {ℓ} {W : Type ℓ} (system : System W) where
  unfoldable pub init_etime : W → First × W
  init_etime w = (
    record { first_u = full_time; first_r = full_time; first_p = full_time },
    system.setitimer itimer_prof full_time
        (system.setitimer itimer_real full_time (system.setitimer itimer_virtual full_time w)),
  )

  -- The elapsed seconds. The code takes the real timer from the initial value of the profiling
  -- timer.
  unfoldable pub get_etime : First → W → Double
  unfolding micro add_double multiply_double
  get_etime first w =
      let now = system.getitimer itimer_real w in
      add_double (of_ℤ (pos first.first_p.tv_sec -ℤ pos now.tv_sec))
        (multiply_double (of_ℤ (pos first.first_p.tv_usec -ℤ pos now.tv_usec)) micro)

  unfoldable pub ftimer_itimer : (W → W) → ℕ → W → Double × W
  unfolding init_etime get_etime runs subtract_double divide_double
  ftimer_itimer f n w =
      let (first, w0) = init_etime w in
      let start = get_etime first w0 in
      let w1 = runs f n w0 in (divide_double (subtract_double (get_etime first w1) start) n, w1)

  unfoldable pub ftimer_gettod : (W → W) → ℕ → W → Double × W
  unfolding kilo milli runs add_double multiply_double divide_double
  ftimer_gettod f n w =
      let stv = system.gettimeofday w in
      let w1 = runs f n w in
      let etv = system.gettimeofday w1 in
      let diff =
        add_double (multiply_double kilo (of_ℤ (pos etv.tv_sec -ℤ pos stv.tv_sec)))
          (multiply_double milli (of_ℤ (pos etv.tv_usec -ℤ pos stv.tv_usec))) in
      (multiply_double milli (divide_double diff n), w1)
