-- ===== src/Malloc/Fcyc/Minimum.antt =====
-- The least of the samples of `fcyc` of malloclab/fcyc.c.
use native.Mathlib.Decide.{dec_lt}
use cso18_labs.Base.{
  ℕ, zero, suc, ◌-◌, ◌≤◌, ◌<◌, ◌≡◌, refl, sym, ap, ◌∙◌, subst, List, [], ◌∷◌, ◌++◌, ltb, take,
  replicate, arith, Bool-cases, inl, inr, ltb→lt, ltb→le,
}
use cso18_labs.Base.Run.{ok, Holds, returns, Holds_ok}
use cso18_labs.Malloc.Fcyc.{Sampler, read_value}
use cso18_labs.Malloc.Fcyc.Sorting.{ordered_insert, sort}
use cso18_labs.Malloc.Fcyc.Best.{samples, smallest, IsKept}

le_refl : (a : ℕ) → a ≤ a
le_refl a = omega arith

one_more :
    (f : ℕ → ℕ) (n a : ℕ)
    → ((i : ℕ) → i < suc n → a ≤ f i)
    → a ≤ f (suc n)
    → (i : ℕ) → i < suc (suc n)
    → a ≤ f i
one_more f n a low last i h = elim (dec_lt i (suc n)) [
  | yes early ↦ low i early
  | no late ↦ let e : suc n ≡ i = omega arith in subst (λ j. a ≤ f j) e last
]

at_zero : (f : ℕ → ℕ) (i : ℕ) → i < 1 → f 0 ≤ f i
at_zero f i h = let e : 0 ≡ i = omega arith in subst (λ j. f 0 ≤ f j) e (omega arith)

below_low :
    (f : ℕ → ℕ) (n a m : ℕ)
    → a < m
    → ((i : ℕ) → i < suc n → m ≤ f i)
    → (i : ℕ) → i < suc n
    → a ≤ f i
below_low f n a m less low i h = let l = low i h in omega (arith, l, less)

head_minimum :
    (f : ℕ → ℕ) (n : ℕ)
    → (m : ℕ) × (rest : List ℕ) × (sort (samples f (suc n)) ≡ m ∷ rest)
      × ((i : ℕ) → i < suc n → m ≤ f i)
      × ((i : ℕ) × (i < suc n) × (f i ≡ m))
unfolding sort ordered_insert
head_minimum f zero = (f 0, [], refl, (λ i h. at_zero f i h), (0, omega arith, refl))
head_minimum f (suc n) =
    let (m, rest, e, low, (i, h, is)) = head_minimum f n in
    elim (Bool-cases (ltb (f (suc n)) m)) [
      | inl less ↦ (
        f (suc n),
        m ∷ rest,
        rw (e, less) refl,
        one_more f n (f (suc n)) (below_low f n (f (suc n)) m (ltb→lt (f (suc n)) m less) low)
            (le_refl (f (suc n))),
        (suc n, omega arith, refl),
      )
      | inr more ↦ (
        m,
        ordered_insert (f (suc n)) rest,
        rw (e, more) refl,
        one_more f n m low (ltb→le (f (suc n)) m more),
        (i, omega arith, is),
      )
    ]

-- `a` is the least of the first `n` samples.
pub record IsMinimum (f : ℕ → ℕ) (n a : ℕ) : Type 0 where
  pub low : (i : ℕ) → i < n → a ≤ f i
  pub reached : (i : ℕ) × (i < n) × (f i ≡ a)

ok-injective : {a b : ℕ} → ok a ≡ ok b → a ≡ b
ok-injective {a} {b} e = Holds_ok (subst (Holds (λ x. a ≡ x)) e (returns refl))

-- The first of the values that are kept.
pub first-IsMinimum :
    (k : ℕ) (f : ℕ → ℕ) (t : Sampler) (result : ℕ)
    → 1 ≤ k
    → 1 ≤ t.samplecount
    → IsKept k f t
    → read_value t.values 0 ≡ ok result
    → IsMinimum f t.samplecount result
unfolding read_value
first-IsMinimum k f t result one some_taken kept first =
    let j = k - 1 in
    let n = t.samplecount - 1 in
    let ek : k ≡ suc j = omega arith in
    let en : t.samplecount ≡ suc n = omega arith in
    let (m, rest, e, low, reached) = head_minimum f n in
    let zeros = replicate (k - t.samplecount) 0 in
    let values : t.values ≡ m ∷ take j rest ++ zeros =
      kept.values
      ∙ ap (λ i. smallest k f i ++ zeros) en
      ∙ ap (λ i. take i (sort (samples f (suc n))) ++ zeros) ek
      ∙ ap (λ xs. take (suc j) xs ++ zeros) e in
    let at : read_value t.values 0 ≡ ok m = ap (λ xs. read_value xs 0) values in
    let same : m ≡ result = ok-injective (sym at ∙ first) in
    subst (IsMinimum f t.samplecount) same
      (subst (λ i. IsMinimum f i m) (sym en) (record { low = low; reached = reached }))
