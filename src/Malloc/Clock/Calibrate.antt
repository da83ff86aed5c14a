-- ===== src/Malloc/Clock/Calibrate.antt =====
-- That `callibrate` of malloclab/clock.c ends, and what it leaves in `cyc_per_tick`.
use cso18_labs.Base.{
  List, ◌∷◌, take, length, ap, ℕ, zero, suc, ◌+◌, ◌-◌, ◌*◌, ◌/◌, ◌%◌, ◌^◌, ◌≤◌, ◌<◌, ◌≡◌, refl, sym,
  subst, ◌∙◌, arith, inl, inr, lt→ltb, le→ltb,
}
use cso18_labs.Base.Run.{ok}
use cso18_labs.Base.Double.{Ratio, to_double, to_double_exact}
use cso18_labs.Malloc.Clock.Least.{
  rate_of, ratios, keep, keep_all, an_event, no_event, IsLeast, keep_all-IsLeast,
}
use cso18_labs.Malloc.Clock.{
  i386, Clock, Watch, nevent, observe, subtract, callibrate_loop, callibrate,
}
use cso18_labs.Malloc.Clock.Subtract.{subtract_lem}
use cso18_labs.Malloc.Clock.Events.{
  Advances, Due, steady_sum, le_at, le_trans, observe_keeps, observe-Due, anew,
}

-- The counter was started at the value `c`.
record Started (c : ℕ) (s : Clock) : Type 0 where
  high : s.cyc_hi ≡ c / 2 ^ 32 % 2 ^ 32
  low : s.cyc_lo ≡ c % 2 ^ 32

below : {a b c : ℕ} → a ≤ b → b < c → a < c
below h k = omega arith

elapsed : (a b : ℕ) → a ≤ b → b < 2 ^ 53 → (b + 2 ^ 64 - a) % 2 ^ 64 ≡ b - a
elapsed a b h top = ground arith

module _ (counter user_ticks : ℕ → ℕ) where
  counted :
      (c : ℕ) (s : Clock)
      → Started c s
      → c ≤ counter s.now
      → counter s.now < 2 ^ 53
      → subtract s.cyc_hi s.cyc_lo (counter s.now / 2 ^ 32 % 2 ^ 32) (counter s.now % 2 ^ 32)
        ≡ counter s.now - c
  counted c s started h top =
      rw (started.high, started.low)
        (subtract_lem c (counter s.now) (omega arith) (omega arith)
          ∙ ap to_double (elapsed c (counter s.now) h top)
          ∙ to_double_exact (counter s.now - c) (omega arith))

  abbrev since_start : ℕ → ℕ → ℕ
  since_start c n = counter n - c

  up_to :
      (start i m : ℕ) {period : ℕ}
      → Advances start period counter user_ticks
      → start + i ≤ m
      → counter (start + i) ≤ counter m
  up_to start i m adv h =
      le_trans (steady_sum start counter adv.steady (start + i) (m - (start + i)) (omega arith))
        (le_at counter (start + i + (m - (start + i))) m (omega arith))

  not_before :
      (start c : ℕ) {period : ℕ}
      → Advances start period counter user_ticks
      → c ≤ counter start
      → (n : ℕ) → start ≤ n
      → c ≤ counter n
  not_before start c adv h n from =
      le_trans h (
        le_trans (le_at counter start (start + 0) (omega arith))
          (up_to start 0 n adv (omega arith)))

  since_start-Advances :
      (start period c : ℕ)
      → c ≤ counter start
      → Advances start period counter user_ticks
      → Advances start period (since_start c) user_ticks
  since_start-Advances start period c h adv = record {
    steady = λ n from. omega (arith, adv.steady n from);
    ticking = adv.ticking;
    cycles = λ n from. omega (arith, adv.cycles n from, not_before start c adv h n from);
    ticks = adv.ticks;
  }

  -- What one round of the loop makes of the state.
  abbrev next : ℕ → Watch → Clock → Watch × Clock
  next c w s = observe (since_start c s.now) (user_ticks s.now) w (record s { now = s.now + 1 })

  callibrate_loop-suc :
      (c fuel : ℕ) (w : Watch) (s : Clock)
      → Started c s
      → c ≤ counter s.now
      → counter s.now < 2 ^ 53
      → w.e < nevent
      → callibrate_loop i386 counter user_ticks (suc fuel) w s
        ≡ callibrate_loop i386 counter user_ticks fuel (next c w s).0 (next c w s).1
  unfolding callibrate_loop
  callibrate_loop-suc c fuel w s started h top more =
      let a = lt→ltb w.e nevent more in let b = counted c s started h top in rw (a, b) refl

  callibrate_loop_done :
      (fuel : ℕ) (w : Watch) (s : Clock)
      → w.e ≡ nevent
      → callibrate_loop i386 counter user_ticks fuel w s ≡ ok s
  unfolding callibrate_loop
  callibrate_loop_done zero w s e = let a = le→ltb w.e nevent (omega arith) in rw a refl
  callibrate_loop_done (suc fuel) w s e = let a = le→ltb w.e nevent (omega arith) in rw a refl

  -- The ratios that the loop sees until `k` events are over.
  abbrev seen_ratios : (c fuel k : ℕ) → Watch → (n : ℕ) → List Ratio
  seen_ratios c fuel k w n = take k (ratios (since_start c) user_ticks fuel n w.oldt w.oldc)

  -- `cyc_per_tick` behind the loop.
  abbrev IsKept : (c fuel k : ℕ) → Watch → Clock → Clock → Type 0
  IsKept c fuel k w s s1 =
      (length (seen_ratios c fuel k w s.now) ≡ k)
      × (rate_of s1 ≡ keep_all (seen_ratios c fuel k w s.now) (rate_of s))

  -- The same watch and reading, under their other names.
  moved :
      (c fuel : ℕ) (w1 : Watch) (s2 : Clock) (w : Watch) (n : ℕ)
      → w ≡ w1
      → s2.now ≡ n
      → ratios (since_start c) user_ticks fuel n w.oldt w.oldc
        ≡ ratios (since_start c) user_ticks fuel s2.now w1.oldt w1.oldc
  moved c fuel w1 s2 w n e now =
      ap (λ (x : Watch). ratios (since_start c) user_ticks fuel n x.oldt x.oldc) e
      ∙ ap (λ i. ratios (since_start c) user_ticks fuel i w1.oldt w1.oldc) (sym now)

  event-IsKept :
      (c fuel k n : ℕ) (w w1 : Watch) (s s2 s3 : Clock)
      → (next c w s).0 ≡ w1
      → (next c w s).1 ≡ s2
      → s2.now ≡ s.now + 1
      → w1.e ≡ w.e + 1
      → IsKept c fuel k w1 s2 s3
      → IsKept c (suc fuel) (suc k) w s s3
  event-IsKept c fuel k n w w1 s s2 s3 seen left now event (size, kept) =
      let e = ap (λ (x : Watch). x.e) seen ∙ event in
      let (r, shown, rate) =
        an_event (since_start c) user_ticks fuel s.now w (record s { now = s.now + 1 }) e in
      let all =
        shown ∙ ap (λ rs. r ∷ rs) (moved c fuel w1 s2 (next c w s).0 (s.now + 1) seen now) in
      let front : seen_ratios c (suc fuel) (suc k) w s.now ≡ r ∷ seen_ratios c fuel k w1 s2.now =
        ap (take (suc k)) all in
      let clock : rate_of s2 ≡ keep r (rate_of s) = ap rate_of (sym left) ∙ rate in
      (
        ap length front ∙ ap suc size,
        kept
            ∙ ap (keep_all (seen_ratios c fuel k w1 s2.now)) clock
            ∙ ap (λ rs. keep_all rs (rate_of s)) (sym front),
      )

  quiet-IsKept :
      (c fuel k n : ℕ) (w w1 : Watch) (s s2 s3 : Clock)
      → (next c w s).0 ≡ w1
      → (next c w s).1 ≡ s2
      → s2.now ≡ s.now + 1
      → w1.e ≡ w.e
      → IsKept c fuel (suc k) w1 s2 s3
      → IsKept c (suc fuel) (suc k) w s s3
  quiet-IsKept c fuel k n w w1 s s2 s3 seen left now quiet (size, kept) =
      let e = ap (λ (x : Watch). x.e) seen ∙ quiet in
      let (shown, rate) =
        no_event (since_start c) user_ticks fuel s.now w (record s { now = s.now + 1 }) e in
      let all = shown ∙ moved c fuel w1 s2 (next c w s).0 (s.now + 1) seen now in
      let front : seen_ratios c (suc fuel) (suc k) w s.now ≡ seen_ratios c fuel (suc k) w1 s2.now =
        ap (take (suc k)) all in
      let clock : rate_of s2 ≡ rate_of s = ap rate_of (sym left) ∙ rate in
      (
        ap length front ∙ size,
        kept
            ∙ ap (keep_all (seen_ratios c fuel (suc k) w1 s2.now)) clock
            ∙ ap (λ rs. keep_all rs (rate_of s)) (sym front),
      )

  callibrate_loop_lem :
      (start period c fuel k : ℕ) (w : Watch) (s : Clock) (d1 d2 : ℕ)
      → Advances start period counter user_ticks
      → c ≤ counter start
      → start ≤ s.now
      → Started c s
      → w.e + k ≡ nevent
      → Due (since_start c) user_ticks period d1 d2 w s.now
      → k * (2 * period + 1) + d1 + d2 < fuel + (2 * period + 1)
      → counter (s.now + fuel) < 2 ^ 53
      → (s1 : Clock) × (callibrate_loop i386 counter user_ticks fuel w s ≡ ok s1)
        × IsKept c fuel k w s s1
  callibrate_loop_lem start period c fuel zero w s d1 d2 adv h from started left due bound top =
      (s, callibrate_loop_done fuel w s (omega arith), (refl, refl))
  callibrate_loop_lem start period c zero (suc k) w s d1 d2 adv h from started left due bound top =
      absurd (omega arith)
  callibrate_loop_lem start period c (suc fuel) (suc k) w s d1 d2 adv h from started left due bound
        top =
      let low = not_before start c adv h s.now from in
      let now_top : counter s.now < 2 ^ 53 =
        below (steady_sum start counter adv.steady s.now (suc fuel) from) top in
      let step = callibrate_loop-suc c fuel w s started low now_top (omega arith) in
      let s1 : Clock = record s { now = s.now + 1 } in
      let (w1, e1, e2, seen, due1, progress) =
        observe-Due start period (since_start c) user_ticks
          (since_start-Advances start period c h adv) w s1 s.now d1 d2 from due in
      let s2 = (next c w s).1 in
      let (hi, lo, now) = observe_keeps (since_start c s.now) (user_ticks s.now) w s1 in
      let started2 : Started c s2 = record { high = hi ∙ started.high; low = lo ∙ started.low } in
      let due2 = subst (Due (since_start c) user_ticks period e1 e2 w1) (sym now) due1 in
      let top2 : counter (s2.now + fuel) < 2 ^ 53 =
        below (le_at counter (s2.now + fuel) (s.now + suc fuel) (omega (arith, now))) top in
      elim progress [
        | inr (same, less) ↦
            let (s3, runs, kept) =
              callibrate_loop_lem start period c fuel (suc k) w1 s2 e1 e2 adv h (omega (arith, now))
                started2 (omega arith) due2 (omega arith) top2 in
            (
              s3,
              step ∙ rw seen runs,
              quiet-IsKept c fuel k s.now w w1 s s2 s3 seen refl now same kept,
            )
        | inl (event, f1, f2) ↦
            let (s3, runs, kept) =
              callibrate_loop_lem start period c fuel k w1 s2 e1 e2 adv h (omega (arith, now))
                started2 (omega arith) due2 (omega arith) top2 in
            (
              s3,
              step ∙ rw seen runs,
              event-IsKept c fuel k s.now w w1 s s2 s3 seen refl now event kept,
            )
      ]

  -- The ratios that `callibrate` sees when it starts at the reading `n`.
  abbrev pub calibrating : (fuel n : ℕ) → List Ratio
  calibrating fuel n = take nevent (
      ratios (λ i. counter i - counter n) user_ticks fuel (n + 1 + 1) (counter (n + 1) - counter n)
        (user_ticks n))

  -- The counter and the user time go on, the counter stays below 2 ^ 53, and `cyc_per_tick` is 0.0,
  -- as it is when `start_comp_counter` calls `callibrate`. Then on x86 the loop of `callibrate` ends
  -- within `nevent * (2 * period + 1)` rounds. In these rounds the readings show `nevent` ratios of
  -- cycles to ticks at least, and what is left in `cyc_per_tick` is the least of the first `nevent`
  -- that lies above `recordthresh`, or 0.0 if none does.
  pub callibrate_lem :
      (period : ℕ) (s : Clock)
      → Advances s.now period counter user_ticks
      → s.cyc_num ≡ 0
      → counter (s.now + 2 + nevent * (2 * period + 1)) < 2 ^ 53
      → (s1 : Clock) × (callibrate i386 counter user_ticks (nevent * (2 * period + 1)) s ≡ ok s1)
        × (length (calibrating (nevent * (2 * period + 1)) s.now) ≡ nevent)
        × IsLeast (calibrating (nevent * (2 * period + 1)) s.now) (rate_of s1)
  unfolding callibrate
  callibrate_lem period s adv zero_rate top =
      let n = s.now in
      let c = counter n in
      let adv1 = since_start-Advances n period c (omega arith) adv in
      let low = not_before n c adv (omega arith) (n + 1) (omega arith) in
      let s1 : Clock = record s {
        cyc_hi = c / 2 ^ 32 % 2 ^ 32;
        cyc_lo = c % 2 ^ 32;
        now = n + 1;
      } in
      let started : Started c s1 = record { high = refl; low = refl } in
      let last : (i : ℕ) → i ≤ 2 + nevent * (2 * period + 1) → counter (n + i) < 2 ^ 53 =
        λ i h. below (up_to n i (n + 2 + nevent * (2 * period + 1)) adv (omega arith)) top in
      let first = counted c s1 started low (last 1 (omega arith)) in
      let after = anew n period (since_start c) user_ticks adv1 0 (n + 1) (omega arith) in
      let w : Watch = record { e = 0; oldt = counter (n + 1) - c; oldc = user_ticks n } in
      let due : Due (since_start c) user_ticks period period period w (n + 1 + 1) = record {
        ticked = below (adv.ticking n (omega arith)) after.ticked;
        crossed = after.crossed;
        full = inr refl;
      } in
      let (s2, runs, (size, kept)) =
        callibrate_loop_lem n period c (nevent * (2 * period + 1)) nevent w
          (record s1 { now = n + 1 + 1 }) period period adv (omega arith) (omega arith)
          (record { high = refl; low = refl }) refl due (omega arith)
          (below
            (le_at counter (n + 1 + 1 + nevent * (2 * period + 1))
              (n + 2 + nevent * (2 * period + 1)) (omega arith))
            top) in
      let seen = calibrating (nevent * (2 * period + 1)) n in
      rw first (
        s2,
        runs,
        size,
        subst (IsLeast seen) (sym kept) (keep_all-IsLeast seen (rate_of s) zero_rate),
      )
