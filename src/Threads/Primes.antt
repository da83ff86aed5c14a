-- ===== src/Threads/Primes.antt =====
-- `is_prime` and `get_prime` of threadlab/htable.c, on arguments that are not negative and while
-- no `int` overflows.
use Prim.Native.Nat.{◌∣◌}
use native.Mathlib.Nat.{
  div-add-mod, dvd_refl, dvd_trans, dvd_of_mod-eq-zero, dvd-mul_right, dvd-mul_left_of_dvd,
  dvd-add_iff_right, le_of_dvd, eq-one_of_dvd-one,
}
use native.Mathlib.Decide.{ℕ_discrete, dec_lt}
use cso18_labs.Base.{
  ℕ, zero, suc, ◌+◌, ◌-◌, ◌*◌, ◌%◌, ◌/◌, ◌≤◌, ◌<◌, ◌≡◌, ap, subst, sym, ◌∙◌, inl, inr, ◌↔◌, ◌≢◌,
  Bool, true, false, Option, none, some, arith, ltb, leb, ◌==◌, if◌then◌else◌, Bool-cases,
}

-- The loop `for (int i = 3; i < n; i+=2)`, from `i` on; `false` is the result 0. Fuel `n` is
-- enough.
pub no_odd_divisor : ℕ → ℕ → ℕ → Bool
no_odd_divisor zero n i = true
no_odd_divisor (suc fuel) n i =
    let rest = no_odd_divisor fuel n (i + 2) in
    if ltb i n then (if n % i == 0 then false else rest) else true

unfoldable pub is_prime : ℕ → Bool
unfolding no_odd_divisor
is_prime n = if leb n 3 then true else if n % 2 == 0 then false else no_odd_divisor n n 3

-- The loop of `get_prime`, with fuel.
pub get_prime_from : ℕ → ℕ → Option ℕ
get_prime_from zero n = none
get_prime_from (suc fuel) n = elim (is_prime n) [
  | true ↦ some n
  | false ↦ get_prime_from fuel (n + 1)
]

pub factorial : ℕ → ℕ
factorial zero = 1
factorial (suc n) = suc n * factorial n

-- Euclid's bound: there is a prime between `min` and `factorial min + 1`.
unfoldable pub get_prime : ℕ → Option ℕ
unfolding get_prime_from factorial is_prime
get_prime min = get_prime_from (factorial min + 2) min

-- No number from 2 to `n - 1` divides `n`.
pub record IsPrime (n : ℕ) : Type 0 where
  pub big : 2 ≤ n
  pub indivisible : (d : ℕ) → 2 ≤ d → d < n → n % d ≢ 0

no_odd_divisor-true :
    (fuel n i : ℕ)
    → n ≤ i + 2 * fuel
    → no_odd_divisor fuel n i ≡ true
    → (k : ℕ) → i + 2 * k < n
    → n % (i + 2 * k) ≢ 0
unfolding no_odd_divisor
no_odd_divisor-true zero n i f h k lt = absurd (omega arith)
no_odd_divisor-true (suc fuel) n i f h zero lt =
    let e : i + 2 * 0 ≡ i = omega arith in rw e (ground arith)
no_odd_divisor-true (suc fuel) n i f h (suc k) lt =
    let e : i + 2 * suc k ≡ i + 2 + 2 * k = omega arith in
    rw e (no_odd_divisor-true fuel n (i + 2) (omega arith) (ground arith) k (omega arith))

no_odd_divisor-false :
    (fuel n i : ℕ)
    → 3 ≤ i
    → no_odd_divisor fuel n i ≡ false
    → (d : ℕ) × (2 ≤ d) × (d < n) × (n % d ≡ 0)
unfolding no_odd_divisor
no_odd_divisor-false zero n i g h = cc
no_odd_divisor-false (suc fuel) n i g h = elim (Bool-cases (ltb i n)) [
  | inr out ↦ absurd (ground arith)
  | inl inside ↦ elim (Bool-cases (n % i == 0)) [
    | inl divides ↦ (i, omega arith, ground arith, ground arith)
    | inr other ↦ no_odd_divisor-false fuel n (i + 2) (omega arith) (ground arith)
  ]
]

even_of_even_divisor : (n d : ℕ) → n % d ≡ 0 → d % 2 ≡ 0 → n % 2 ≡ 0
even_of_even_divisor n d h e =
    let whole : d * (n / d) ≡ n = omega (arith, div-add-mod n d) in
    let half : d ≡ 2 * (d / 2) = omega arith in
    let twice : 2 * (d / 2) * (n / d) ≡ n = ap (λ (t : ℕ). t * (n / d)) (sym half) ∙ whole in
    omega arith

the_two : (d : ℕ) → d ≤ 2 → 2 ≤ d → d ≡ 2
the_two d h k = omega arith

is_prime-IsPrime : (n : ℕ) → 2 ≤ n → is_prime n ≡ true → IsPrime n
unfolding is_prime
is_prime-IsPrime n two h = record {
  big = two;
  indivisible = λ d lo hi z. elim (dec_lt 3 n) [
    | no small ↦
        let two_divides : n % 2 ≡ 0 = subst (λ t. n % t ≡ 0) (the_two d (omega arith) lo) z in
        absurd (omega arith)
    | yes large ↦ elim (ℕ_discrete (d % 2) 0) [
      | yes even ↦ absurd (ground (arith, even_of_even_divisor n d))
      | no odd ↦
          let k = (d - 3) / 2 in
          let e : d ≡ 3 + 2 * k = omega arith in
          let odds : no_odd_divisor n n 3 ≡ true = ground arith in
          absurd (
            no_odd_divisor-true n n 3 (omega arith) odds k (omega arith)
              (subst (λ t. n % t ≡ 0) e z))
    ]
  ];
}

divisor_of_not_prime : (n : ℕ) → is_prime n ≡ false → (d : ℕ) × (2 ≤ d) × (d < n) × (n % d ≡ 0)
unfolding is_prime
divisor_of_not_prime n h = elim (Bool-cases (n % 2 == 0)) [
  | inl even ↦ (2, omega arith, ground arith, ground arith)
  | inr odd ↦ no_odd_divisor-false n n 3 (omega arith) (ground arith)
]

-- `is_prime` decides primality from 2 on.
pub is_prime_iff : (n : ℕ) → 2 ≤ n → (is_prime n ≡ true) ↔ IsPrime n
is_prime_iff n two = (
  is_prime-IsPrime n two,
  λ p. elim (Bool-cases (is_prime n)) [
    | inl e ↦ e
    | inr e ↦ let (d, lo, hi, z) = divisor_of_not_prime n e in absurd (p.indivisible d lo hi z)
  ],
)

-- Every number from 2 on has a divisor that `is_prime` takes.
prime_divisor : (fuel n : ℕ) → n ≤ fuel → 2 ≤ n → (p : ℕ) × (2 ≤ p) × (p ∣ n) × (is_prime p ≡ true)
prime_divisor zero n h two = absurd (omega arith)
prime_divisor (suc fuel) n h two = elim (Bool-cases (is_prime n)) [
  | inl e ↦ (n, two, dvd_refl n, e)
  | inr e ↦
      let (d, lo, hi, z) = divisor_of_not_prime n e in
      let (p, big, divides, prime) = prime_divisor fuel d (omega arith) lo in
      (p, big, dvd_trans p divides (dvd_of_mod-eq-zero d z), prime)
]

dvd-factorial : (n k : ℕ) → 1 ≤ k → k ≤ n → k ∣ factorial n
unfolding factorial
dvd-factorial zero k lo hi = absurd (omega arith)
dvd-factorial (suc n) k lo hi = elim (ℕ_discrete k (suc n)) [
  | yes e ↦ rw e (dvd-mul_right (suc n) (factorial n))
  | no less ↦ dvd-mul_left_of_dvd k (dvd-factorial n k lo (omega arith)) (suc n)
]

factorial_pos : (n : ℕ) → 1 ≤ factorial n
unfolding factorial
factorial_pos zero = omega arith
factorial_pos (suc n) = grind (arith, factorial_pos n)

-- Euclid's theorem.
prime_above : (min : ℕ) → (p : ℕ) × (min ≤ p) × (p ≤ factorial min + 1) × (is_prime p ≡ true)
prime_above min =
    let n = factorial min + 1 in
    let one = factorial_pos min in
    let (p, big, divides, prime) = prime_divisor n n (omega arith) (omega arith) in
    let top : p ≤ n = le_of_dvd (omega arith) divides in
    (
      p,
      elim (dec_lt p min) [
        | no far ↦ omega arith
        | yes near ↦
            let both = dvd-factorial min p (omega arith) (omega arith) in
            let unit : p ∣ 1 = (dvd-add_iff_right p both).1 divides in
            absurd (omega (arith, eq-one_of_dvd-one unit))
      ],
      top,
      prime,
    )

get_prime_finds :
    (fuel n p : ℕ)
    → is_prime p ≡ true
    → n ≤ p
    → p < n + fuel
    → (r : ℕ) × (get_prime_from fuel n ≡ some r)
      × (is_prime r ≡ true)
      × (n ≤ r)
      × ((q : ℕ) → n ≤ q → q < r → is_prime q ≡ false)
unfolding get_prime_from
get_prime_finds zero n p e lo hi = absurd (omega arith)
get_prime_finds (suc fuel) n p e lo hi = elim (Bool-cases (is_prime n)) [
  | inl yes_n ↦ (n, rw (yes_n, get_prime_from), yes_n, omega arith, λ q l u. absurd (omega arith))
  | inr no_n ↦
      let other : n ≢ p = λ same. cc (ap is_prime same) in
      let (r, runs, prime, above, least) =
        get_prime_finds fuel (n + 1) p e (omega arith) (omega arith) in
      (
        r,
        rw (no_n, get_prime_from) runs,
        prime,
        omega arith,
        λ q l u. elim (ℕ_discrete q n) [
          | yes same ↦ rw same no_n
          | no differ ↦ least q (omega arith) u
        ],
      )
]

-- `get_prime` ends for every `min` from 2 on, and returns the least prime that is at least `min`.
-- It need not be larger: a prime `min` is returned itself.
pub get_prime-IsPrime :
    (min : ℕ)
    → 2 ≤ min
    → (p : ℕ) × (get_prime min ≡ some p)
      × IsPrime p
      × (min ≤ p)
      × ((q : ℕ) → min ≤ q → q < p → ¬ IsPrime q)
unfolding get_prime
get_prime-IsPrime min two =
    let (w, lo, hi, e) = prime_above min in
    let (p, runs, prime, above, least) =
      get_prime_finds (factorial min + 2) min w e lo (omega arith) in
    (
      p,
      runs,
      is_prime-IsPrime p (omega arith) prime,
      above,
      λ q l u h. cc (least q l u, (is_prime_iff q (omega arith)).1 h),
    )

-- `get_prime` ends for every `min`, with a result that is at least `min`.
pub get_prime_total : (min : ℕ) → (p : ℕ) × (get_prime min ≡ some p) × (min ≤ p)
unfolding get_prime
get_prime_total min =
    let (w, lo, hi, e) = prime_above min in
    let (p, runs, _, above, _) = get_prime_finds (factorial min + 2) min w e lo (omega arith) in
    (p, runs, above)
