-- ===== src/Malloc/Clock/Events.antt =====
-- One round of the loop of `callibrate` of malloclab/clock.c: how far the next event is off.
use native.Mathlib.Decide.{dec_lt}
use cso18_labs.Base.{
  ℕ, zero, suc, ◌+◌, ◌-◌, ◌≤◌, ◌<◌, ◌≡◌, refl, ap, arith, ltb, leb, true, false, Bool-cases, ◌⊎◌,
  inl, inr, lt→ltb, le→ltb,
}
use cso18_labs.Base.Double.{Ratio, over, whole}
use cso18_labs.Malloc.Clock.{Clock, Watch, threshold, record_ratio, observe}

-- From the reading `start` on the counter and the user time go on: neither goes back, and of any `period` readings the last is
-- at least `threshold` cycles behind the first, and at least one tick.
pub record Advances (start period : ℕ) (counter user_ticks : ℕ → ℕ) : Type 0 where
  pub steady : (n : ℕ) → start ≤ n → counter n ≤ counter (n + 1)
  pub ticking : (n : ℕ) → start ≤ n → user_ticks n ≤ user_ticks (n + 1)
  pub cycles : (n : ℕ) → start ≤ n → counter n + threshold ≤ counter (n + period)
  pub ticks : (n : ℕ) → start ≤ n → user_ticks n < user_ticks (n + period)

pub le_at : (f : ℕ → ℕ) (a b : ℕ) → a ≡ b → f a ≤ f b
le_at f a b e = omega (arith, ap f e)

pub le_trans : {a b c : ℕ} → a ≤ b → b ≤ c → a ≤ c
le_trans p q = omega arith

pub steady_sum :
    (start : ℕ) (f : ℕ → ℕ)
    → ((n : ℕ) → start ≤ n → f n ≤ f (n + 1))
    → (n d : ℕ) → start ≤ n
    → f n ≤ f (n + d)
steady_sum start f h n zero from = le_at f n (n + 0) (omega arith)
steady_sum start f h n (suc d) from =
    le_trans (steady_sum start f h n d from)
      (le_trans (h (n + d) (omega arith)) (le_at f (n + d + 1) (n + suc d) (omega arith)))

-- Nothing but `cyc_per_tick` has changed.
record_ratio_keeps :
    (cpt : Ratio) (s : Clock)
    → ((record_ratio cpt s).cyc_hi ≡ s.cyc_hi)
      × ((record_ratio cpt s).cyc_lo ≡ s.cyc_lo)
      × ((record_ratio cpt s).now ≡ s.now)
unfolding record_ratio
record_ratio_keeps cpt s = ground arith

pub observe_keeps :
    (newt newc : ℕ) (w : Watch) (s : Clock)
    → ((observe newt newc w s).1.cyc_hi ≡ s.cyc_hi)
      × ((observe newt newc w s).1.cyc_lo ≡ s.cyc_lo)
      × ((observe newt newc w s).1.now ≡ s.now)
unfolding observe
observe_keeps newt newc w s = elim (Bool-cases (leb (w.oldt + threshold) newt)) [
  | inr near ↦ rw near (refl, refl, refl)
  | inl far ↦ elim (Bool-cases (ltb w.oldc newc)) [
    | inr same ↦ rw (far, same) (refl, refl, refl)
    | inl ticked ↦
        rw (far, ticked)
          (record_ratio_keeps (over (whole (newt - w.oldt)) (whole (newc - w.oldc))) s)
  ]
]

-- How far an event is off: the user time will have advanced after `d1` more readings, and the
-- threshold will have been crossed after `d2` readings more.
pub record Due (time user_ticks : ℕ → ℕ) (period d1 d2 : ℕ) (w : Watch) (n : ℕ) : Type 0 where
  pub ticked : w.oldc < user_ticks (n + d1)
  pub crossed : w.oldt + threshold ≤ time (n + d1 + d2)
  pub full : (d1 ≡ 0) ⊎ (d2 ≡ period)

still_full : (a b c : ℕ) → (suc a ≡ 0) ⊎ (b ≡ c) → (a ≡ 0) ⊎ (b ≡ c)
still_full a b c h = ground (arith, h)

-- Not yet `threshold` cycles on.
nearer :
    (start period : ℕ) (time user_ticks : ℕ → ℕ) (w : Watch) (n d1 d2 : ℕ)
    → time n < w.oldt + threshold
    → user_ticks n ≤ user_ticks (n + 1)
    → Due time user_ticks period d1 d2 w n
    → (e1 : ℕ) × (e2 : ℕ) × Due time user_ticks period e1 e2 w (n + 1) × (e1 + e2 < d1 + d2)
nearer start period time user_ticks w n (suc d1) d2 near up due = (
  d1,
  d2,
  record {
    ticked = le_trans due.ticked (le_at user_ticks (n + suc d1) (n + 1 + d1) (omega arith));
    crossed = le_trans due.crossed (le_at time (n + suc d1 + d2) (n + 1 + d1 + d2) (omega arith));
    full = still_full d1 d2 period due.full;
  },
  omega arith,
)
nearer start period time user_ticks w n zero zero near up due =
    absurd (omega (arith, near, le_trans due.crossed (le_at time (n + 0 + 0) n (omega arith))))
nearer start period time user_ticks w n zero (suc d2) near up due = (
  zero,
  d2,
  record {
    ticked = le_trans due.ticked (
        le_trans (le_at user_ticks (n + 0) n (omega arith))
          (le_trans up (le_at user_ticks (n + 1) (n + 1 + 0) (omega arith))));
    crossed = le_trans due.crossed (le_at time (n + 0 + suc d2) (n + 1 + 0 + d2) (omega arith));
    full = inl refl;
  },
  omega arith,
)

-- `threshold` cycles on, without a tick.
later :
    (start period : ℕ) (time user_ticks : ℕ → ℕ) (w : Watch) (n d1 d2 : ℕ)
    → Advances start period time user_ticks
    → start ≤ n
    → ¬ (w.oldc < user_ticks n)
    → Due time user_ticks period d1 d2 w n
    → (e1 : ℕ) × (e2 : ℕ) × Due time user_ticks period e1 e2 (record w { oldt = time n }) (n + 1)
      × (e1 + e2 < d1 + d2)
later start period time user_ticks w n zero d2 adv from same due =
    absurd (same (le_trans due.ticked (le_at user_ticks (n + 0) n (omega arith))))
later start period time user_ticks w n (suc d1) d2 adv from same due = (
  d1,
  d2,
  record {
    ticked = le_trans due.ticked (le_at user_ticks (n + suc d1) (n + 1 + d1) (omega arith));
    crossed = crossed_on d2 d1 due.full;
    full = still_full d1 d2 period due.full;
  },
  omega arith,
)
  where
    crossed_on : (b a : ℕ) → (suc a ≡ 0) ⊎ (b ≡ period) → time n + threshold ≤ time (n + 1 + a + b)
    crossed_on b a (inl e) = absurd (omega arith)
    crossed_on b a (inr e) = le_trans (adv.cycles n from) (
        le_trans (steady_sum start time adv.steady (n + period) (1 + a) (omega arith))
          (le_at time (n + period + (1 + a)) (n + 1 + a + b) (omega arith)))

-- Behind an event.
pub anew :
    (start period : ℕ) (time user_ticks : ℕ → ℕ)
    → Advances start period time user_ticks
    → (e n : ℕ) → start ≤ n
    → Due time user_ticks period period period
        (record { e = e; oldt = time n; oldc = user_ticks n })
        (n + 1)
anew start period time user_ticks adv e n from = record {
  ticked = le_trans (adv.ticks n from) (
      le_trans (adv.ticking (n + period) (omega arith))
        (le_at user_ticks (n + period + 1) (n + 1 + period) (omega arith)));
  crossed = le_trans (adv.cycles n from) (
      le_trans (steady_sum start time adv.steady (n + period) (1 + period) (omega arith))
        (le_at time (n + period + (1 + period)) (n + 1 + period + period) (omega arith)));
  full = inr refl;
}

-- One round either records an event or is one reading nearer to it.
pub observe-Due :
    (start period : ℕ) (time user_ticks : ℕ → ℕ)
    → Advances start period time user_ticks
    → (w : Watch) (s : Clock) (n d1 d2 : ℕ) → start ≤ n
    → Due time user_ticks period d1 d2 w n
    → (w1 : Watch) × (e1 : ℕ) × (e2 : ℕ) × ((observe (time n) (user_ticks n) w s).0 ≡ w1)
      × Due time user_ticks period e1 e2 w1 (n + 1)
      × (((w1.e ≡ w.e + 1) × (e1 ≡ period) × (e2 ≡ period)) ⊎ ((w1.e ≡ w.e) × (e1 + e2 < d1 + d2)))
unfolding observe
observe-Due start period time user_ticks adv w s n d1 d2 from due =
    elim (dec_lt (time n) (w.oldt + threshold)) [
      | yes near ↦
          let a : leb (w.oldt + threshold) (time n) ≡ false = ground arith in
          let (e1, e2, next, less) =
            nearer start period time user_ticks w n d1 d2 near (adv.ticking n from) due in
          (w, e1, e2, rw a refl, next, inr (refl, less))
      | no far ↦
          let a : leb (w.oldt + threshold) (time n) ≡ true = ground arith in
          elim (dec_lt w.oldc (user_ticks n)) [
            | yes ticked ↦
                let b = lt→ltb w.oldc (user_ticks n) ticked in
                (
                  record { e = w.e + 1; oldt = time n; oldc = user_ticks n },
                  period,
                  period,
                  rw (a, b) refl,
                  anew start period time user_ticks adv (w.e + 1) n from,
                  inl (refl, refl, refl),
                )
            | no same ↦
                let b = le→ltb w.oldc (user_ticks n) (omega arith) in
                let (e1, e2, next, less) =
                  later start period time user_ticks w n d1 d2 adv from same due in
                (record w { oldt = time n }, e1, e2, rw (a, b) refl, next, inr (refl, less))
          ]
    ]
