-- ===== src/Malloc/Clock/Least.antt =====
-- Which ratios the loop of `callibrate` of malloclab/clock.c sees, and which of them it keeps.
use native.Mathlib.Nat.{mul-pos, mul-le-mul_right, le_of_mul-le-mul_right}
use native.Mathlib.Decide.{dec_lt}
use cso18_labs.Base.{
  ℕ, zero, suc, ◌+◌, ◌-◌, ◌*◌, ◌≤◌, ◌<◌, ◌≡◌, refl, sym, ap, ◌∙◌, subst, arith, ltb, leb, ◌==◌,
  ◌&&◌, ◌||◌, Bool, true, false, if◌then◌else◌, List, [], ◌∷◌, Bool-cases, ◌⊎◌, inl, inr,
}
use cso18_labs.Base.Double.{Ratio, over, whole}
use cso18_labs.Malloc.Clock.{Clock, Watch, threshold, recordthresh, record_ratio, observe}

-- `cyc_per_tick`
abbrev pub rate_of : Clock → Ratio
rate_of s = record { num = s.cyc_num; den = s.cyc_den }

-- Of the readings from number `n` on, those that lie `threshold` cycles behind the reading before
-- them are compared; where the user time has advanced since the last ratio, they give a ratio.
abbrev pub ratios : (time user_ticks : ℕ → ℕ) (fuel n oldt oldc : ℕ) → List Ratio
ratios time user_ticks zero n oldt oldc = []
ratios time user_ticks (suc fuel) n oldt oldc =
    if leb (oldt + threshold) (time n)
    then (if ltb oldc (user_ticks n)
        then over (whole (time n - oldt)) (whole (user_ticks n - oldc))
          ∷ ratios time user_ticks fuel (n + 1) (time n) (user_ticks n)
        else ratios time user_ticks fuel (n + 1) (time n) oldc)
    else ratios time user_ticks fuel (n + 1) oldt oldc

-- What the clock makes of the ratios, one after the other.
abbrev pub keep : Ratio → Ratio → Ratio
keep r c =
    if (c.num == 0 || ltb (r.num * c.den) (c.num * r.den)) && ltb (recordthresh * r.den) r.num
    then r
    else c

abbrev pub keep_all : List Ratio → Ratio → Ratio
keep_all [] c = c
keep_all (r ∷ rs) c = keep_all rs (keep r c)

rate_of-record_ratio : (r : Ratio) (s : Clock) → rate_of (record_ratio r s) ≡ keep r (rate_of s)
unfolding record_ratio
rate_of-record_ratio r s = rate_of_if (
    (s.cyc_num == 0 || ltb (r.num * s.cyc_den) (s.cyc_num * r.den))
    && ltb (recordthresh * r.den) r.num)
  where
    rate_of_if :
        (b : Bool)
        → rate_of (if b then record s { cyc_num = r.num; cyc_den = r.den } else s)
          ≡ (if b then r else rate_of s)
    rate_of_if true = refl
    rate_of_if false = refl

module _ (time user_ticks : ℕ → ℕ) (fuel n : ℕ) (w : Watch) (s : Clock) where
  abbrev round : Watch × Clock
  round = observe (time n) (user_ticks n) w s

  -- A round that counts an event records its ratio.
  pub an_event :
      round.0.e ≡ w.e + 1
      → (r : Ratio) × (ratios time user_ticks (suc fuel) n w.oldt w.oldc
          ≡ r ∷ ratios time user_ticks fuel (n + 1) round.0.oldt round.0.oldc)
        × (rate_of round.1 ≡ keep r (rate_of s))
  unfolding observe
  an_event h = elim (Bool-cases (leb (w.oldt + threshold) (time n))) [
    | inr near ↦ let g : round.0.e ≡ w.e = rw near refl in absurd (omega (arith, g, h))
    | inl far ↦ elim (Bool-cases (ltb w.oldc (user_ticks n))) [
      | inr same ↦ let g : round.0.e ≡ w.e = rw (far, same) refl in absurd (omega (arith, g, h))
      | inl ticked ↦
          let r = over (whole (time n - w.oldt)) (whole (user_ticks n - w.oldc)) in
          (r, rw (far, ticked) refl, rw (far, ticked) (rate_of-record_ratio r s))
    ]
  ]

  -- Any other leaves `cyc_per_tick` alone.
  pub no_event :
      round.0.e ≡ w.e
      → (ratios time user_ticks (suc fuel) n w.oldt w.oldc
          ≡ ratios time user_ticks fuel (n + 1) round.0.oldt round.0.oldc)
        × (rate_of round.1 ≡ rate_of s)
  unfolding observe
  no_event h = elim (Bool-cases (leb (w.oldt + threshold) (time n))) [
    | inr near ↦ rw near (refl, refl)
    | inl far ↦ elim (Bool-cases (ltb w.oldc (user_ticks n))) [
      | inr same ↦ rw (far, same) (refl, refl)
      | inl ticked ↦
          let g : round.0.e ≡ w.e + 1 = rw (far, ticked) refl in absurd (omega (arith, g, h))
    ]
  ]

-- Above `recordthresh`.
abbrev pub IsHigh : Ratio → Type 0
IsHigh r = recordthresh * r.den < r.num

infix 50 ◌≼◌
abbrev pub ◌≼◌ : Ratio → Ratio → Type 0
a ≼ b = a.num * b.den ≤ b.num * a.den

abbrev pub All : (Ratio → Type 0) → List Ratio → Type 0
All P [] = Unit
All P (r ∷ rs) = P r × All P rs

abbrev pub Has : List Ratio → Ratio → Type 0
Has [] c = ⊥
Has (r ∷ rs) c = (r ≡ c) ⊎ Has rs c

-- `c` is 0.0 and none of the ratios is high, or it is the least of the high ones.
abbrev pub IsLeast : List Ratio → Ratio → Type 0
IsLeast rs c =
    ((c.num ≡ 0) × All (λ r. ¬ IsHigh r) rs)
    ⊎ (Has rs c × (IsHigh c × All (λ r. IsHigh r → c ≼ r) rs))

≼_trans : (a b c : Ratio) → 0 < b.num → a ≼ b → b ≼ c → a ≼ c
≼_trans a b c pos h k = elim (dec_lt 0 b.den) [
  | yes some_den ↦
      let p = mul-le-mul_right c.den h in
      let q = mul-le-mul_right a.den k in
      let r : a.num * c.den * b.den ≤ c.num * a.den * b.den = omega (arith, p, q) in
      le_of_mul-le-mul_right r some_den
  | no no_den ↦ elim (dec_lt 0 c.den) [
    | yes some_den ↦
        let z : b.den ≡ 0 = omega arith in
        let e : c.num * b.den ≡ 0 = ap (λ i. c.num * i) z ∙ omega arith in
        let p = mul-pos pos some_den in absurd (omega (arith, p, k, e))
    | no no_other ↦
        let z : c.den ≡ 0 = omega arith in
        let e : a.num * c.den ≡ 0 = ap (λ i. a.num * i) z ∙ omega arith in omega (arith, e)
  ]
]

-- What `keep_all` makes of a rate.
data Kept (rs : List Ratio) (c m : Ratio) : Type 0 where
  same : m ≡ c → All (λ r. IsHigh r → (0 < c.num) × (c ≼ r)) rs → Kept rs c m
  lower : Has rs m → IsHigh m → All (λ r. IsHigh r → m ≼ r) rs → (c.num ≡ 0) ⊎ (m ≼ c) → Kept rs c m

All-map : {P Q : Ratio → Type 0} (rs : List Ratio) → ((r : Ratio) → P r → Q r) → All P rs → All Q rs
All-map [] f all = tt
All-map (r ∷ rs) f (p, all) = (f r p, All-map rs f all)

positive : (r : Ratio) → IsHigh r → 0 < r.num
positive r h = omega arith

≼_refl : (r : Ratio) → r ≼ r
≼_refl r = omega arith

abbrev tests : Ratio → Ratio → Bool
tests r c = (c.num == 0 || ltb (r.num * c.den) (c.num * r.den)) && ltb (recordthresh * r.den) r.num

-- A ratio is taken, or it is not high or not lower.
keep_cases :
    (r c : Ratio)
    → ((keep r c ≡ r) × (IsHigh r × ((c.num ≡ 0) ⊎ (r.num * c.den < c.num * r.den))))
      ⊎ ((keep r c ≡ c) × (IsHigh r → (0 < c.num) × (c ≼ r)))
keep_cases r c = elim (dec_lt (recordthresh * r.den) r.num) [
  | no h ↦
      let cond : tests r c ≡ false = ground arith in inr (rw cond refl, λ high. absurd (h high))
  | yes h ↦ elim (dec_lt 0 c.num) [
    | no none_yet ↦
        let cond : tests r c ≡ true = ground arith in inl (rw cond refl, (h, inl (omega arith)))
    | yes some_yet ↦ elim (dec_lt (r.num * c.den) (c.num * r.den)) [
      | yes less ↦ let cond : tests r c ≡ true = ground arith in inl (rw cond refl, (h, inr less))
      | no more ↦
          let cond : tests r c ≡ false = ground arith in
          inr (rw cond refl, λ high. (some_yet, omega arith))
    ]
  ]
]

below_taken :
    (r c m : Ratio)
    → 0 < r.num
    → (c.num ≡ 0) ⊎ (r.num * c.den < c.num * r.den)
    → m ≼ r
    → (c.num ≡ 0) ⊎ (m ≼ c)
below_taken r c m pos (inl e) h = inl e
below_taken r c m pos (inr less) h = inr (≼_trans m r c pos h (omega arith))

below_high :
    (r c m : Ratio) → (IsHigh r → (0 < c.num) × (c ≼ r)) → (c.num ≡ 0) ⊎ (m ≼ c) → IsHigh r → m ≼ r
below_high r c m above (inl e) high = let (p, _) = above high in absurd (omega arith)
below_high r c m above (inr h) high = let (p, q) = above high in ≼_trans m c r p h q

not_zero : (r m : Ratio) → 0 < r.num → (r.num ≡ 0) ⊎ (m ≼ r) → m ≼ r
not_zero r m pos (inl e) = absurd (omega arith)
not_zero r m pos (inr h) = h

second : (A : Type 0) (r c : Ratio) → (IsHigh r → A × (c ≼ r)) → IsHigh r → c ≼ r
second A r c f high = (f high).1

taken :
    (r c m : Ratio) (rs : List Ratio)
    → IsHigh r
    → (c.num ≡ 0) ⊎ (r.num * c.den < c.num * r.den)
    → Kept rs r m
    → Kept (r ∷ rs) c m
taken r c m rs high why (same e all) =
    let pos = positive r high in
    subst (Kept (r ∷ rs) c) (sym e) (
      lower (inl refl) high ((λ _. ≼_refl r), All-map rs (λ x f. second (0 < r.num) x r f) all)
        (below_taken r c r pos why (≼_refl r)))
taken r c m rs high why (lower at m_high all low) =
    let pos = positive r high in
    let h = not_zero r m pos low in
    lower (inr at) m_high ((λ _. h), all) (below_taken r c m pos why h)

passed_over :
    (r c m : Ratio) (rs : List Ratio)
    → (IsHigh r → (0 < c.num) × (c ≼ r))
    → Kept rs c m
    → Kept (r ∷ rs) c m
passed_over r c m rs above (same e all) = same e (above, all)
passed_over r c m rs above (lower at m_high all low) =
    lower (inr at) m_high (below_high r c m above low, all) low

keep_all-Kept : (rs : List Ratio) (c : Ratio) → Kept rs c (keep_all rs c)
keep_all-Kept [] c = same refl tt
keep_all-Kept (r ∷ rs) c = elim (keep_cases r c) [
  | inl (e, (high, why)) ↦
      subst (λ k. Kept (r ∷ rs) c (keep_all rs k)) (sym e)
        (taken r c (keep_all rs r) rs high why (keep_all-Kept rs r))
  | inr (e, above) ↦
      subst (λ k. Kept (r ∷ rs) c (keep_all rs k)) (sym e)
        (passed_over r c (keep_all rs c) rs above (keep_all-Kept rs c))
]

never : (r c : Ratio) → c.num ≡ 0 → (IsHigh r → (0 < c.num) × (c ≼ r)) → ¬ IsHigh r
never r c zero_rate f high = let (p, _) = f high in absurd (omega arith)

Kept-IsLeast : (rs : List Ratio) (c m : Ratio) → c.num ≡ 0 → Kept rs c m → IsLeast rs m
Kept-IsLeast rs c m zero_rate (same e all) =
    inl (ap (λ (r : Ratio). r.num) e ∙ zero_rate, All-map rs (λ r. never r c zero_rate) all)
Kept-IsLeast rs c m zero_rate (lower at high all low) = inr (at, (high, all))

-- From 0.0 on, the least of the high ratios is kept.
pub keep_all-IsLeast : (rs : List Ratio) (c : Ratio) → c.num ≡ 0 → IsLeast rs (keep_all rs c)
keep_all-IsLeast rs c zero_rate = Kept-IsLeast rs c (keep_all rs c) zero_rate (keep_all-Kept rs c)
