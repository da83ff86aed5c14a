-- ===== src/Malloc/Fcyc/Best.antt =====
-- The values that `fcyc` of malloclab/fcyc.c keeps are the smallest of its samples.
use cso18_labs.Base.{
  ℕ, zero, suc, ◌+◌, ◌-◌, ◌≤◌, ◌<◌, ◌≡◌, refl, sym, ap, ◌∙◌, subst, List, [], ◌∷◌, ◌++◌, set, take,
  replicate, length, length-append, append-nil, arith,
}
use cso18_labs.Base.Run.{ok}
use cso18_labs.Malloc.Fcyc.{Sampler, sift}
use cso18_labs.Malloc.Fcyc.Sorting.{
  IsSorted, ordered_insert, sort, sort-IsSorted, take-IsSorted, IsSorted-last,
  ordered_insert_behind, ordered_insert_before, AllBelow-snoc, length-ordered_insert,
  take-ordered_insert,
}
use cso18_labs.Malloc.Fcyc.Sift.{set_behind, sift_lem}

-- The samples up to number `n`, the last first.
abbrev pub samples : (ℕ → ℕ) → ℕ → List ℕ
samples f zero = []
samples f (suc n) = f n ∷ samples f n

-- The `k` smallest of them, in ascending order.
abbrev pub smallest : ℕ → (ℕ → ℕ) → ℕ → List ℕ
smallest k f n = take k (sort (samples f n))

length-sort : (f : ℕ → ℕ) (n : ℕ) → length (sort (samples f n)) ≡ n
unfolding sort
length-sort f zero = refl
length-sort f (suc n) = length-ordered_insert (f n) (sort (samples f n)) ∙ ap suc (length-sort f n)

take_all : (k : ℕ) (xs : List ℕ) → length xs ≤ k → take k xs ≡ xs
take_all zero [] h = refl
take_all zero (x ∷ xs) h = absurd (omega arith)
take_all (suc k) [] h = refl
take_all (suc k) (x ∷ xs) h = ap (◌∷◌ x) (take_all k xs (omega arith))

take_front : (xs ys : List ℕ) → take (length xs) (xs ++ ys) ≡ xs
take_front [] ys = refl
take_front (x ∷ xs) ys = ap (◌∷◌ x) (take_front xs ys)

length-take : (k : ℕ) (xs : List ℕ) → k ≤ length xs → length (take k xs) ≡ k
length-take zero xs h = refl
length-take (suc k) [] h = absurd (omega arith)
length-take (suc k) (x ∷ xs) h = ap suc (length-take k xs (omega arith))

smallest-suc :
    (k : ℕ) (f : ℕ → ℕ) (n : ℕ)
    → smallest k f (suc n) ≡ take k (ordered_insert (f n) (smallest k f n))
unfolding sort
smallest-suc k f n = sym (take-ordered_insert k (f n) (sort (samples f n)))

smallest-IsSorted : (k : ℕ) (f : ℕ → ℕ) (n : ℕ) → IsSorted (smallest k f n)
smallest-IsSorted k f n = take-IsSorted k (sort (samples f n)) (sort-IsSorted (samples f n))

pub length-smallest_few : (k : ℕ) (f : ℕ → ℕ) (n : ℕ) → n ≤ k → length (smallest k f n) ≡ n
length-smallest_few k f n h =
    let e = length-sort f n in ap length (take_all k (sort (samples f n)) (omega arith)) ∙ e

pub length-smallest_many : (k : ℕ) (f : ℕ → ℕ) (n : ℕ) → k ≤ n → length (smallest k f n) ≡ k
length-smallest_many k f n h =
    let e = length-sort f n in length-take k (sort (samples f n)) (omega arith)

-- The array holds the smallest samples, and zeros behind them.
pub record IsKept (k : ℕ) (f : ℕ → ℕ) (t : Sampler) : Type 0 where
  pub values : t.values ≡ smallest k f t.samplecount ++ replicate (k - t.samplecount) 0

-- What stands at a place that is free is overwritten.
set_zero :
    (xs : List ℕ) (n m v : ℕ)
    → length xs ≡ n
    → set (xs ++ replicate (suc m) 0) n v ≡ xs ++ v ∷ replicate m 0
set_zero xs n m v l =
    subst (λ k. set (xs ++ replicate (suc m) 0) k v ≡ xs ++ v ∷ replicate m 0) l
      (set_behind xs 0 v (replicate m 0))

-- A place that is free: the value is stored there, and moves to its place.
pub early_values :
    (k : ℕ) (f : ℕ → ℕ) (n m : ℕ)
    → n + suc m ≡ k
    → sift n (set (smallest k f n ++ replicate (suc m) 0) n (f n))
      ≡ ok (smallest k f (suc n) ++ replicate m 0)
early_values k f n m h =
    let kept = smallest k f n in
    let size = length-smallest_few k f n (omega arith) in
    let longer = length-ordered_insert (f n) kept in
    let best : ordered_insert (f n) kept ≡ smallest k f (suc n) =
      sym (smallest-suc k f n ∙ take_all k (ordered_insert (f n) kept) (omega arith)) in
    ap (sift n) (set_zero kept n m (f n) size)
    ∙ sift_lem n kept (f n) (replicate m 0) size (smallest-IsSorted k f n)
    ∙ ap (λ zs. ok (zs ++ replicate m 0)) best

-- All places are taken, and the value is smaller than the last: it takes the last place.
pub late_values :
    (j : ℕ) (f : ℕ → ℕ) (n w : ℕ) (init : List ℕ)
    → smallest (suc j) f n ≡ init ++ w ∷ []
    → length init ≡ j
    → f n < w
    → sift j (set (init ++ w ∷ []) j (f n)) ≡ ok (smallest (suc j) f (suc n))
late_values j f n w init e l less =
    let sorted = subst IsSorted e (smallest-IsSorted (suc j) f n) in
    let (below, s) = IsSorted-last w init sorted in
    let a =
      subst (λ i. set (init ++ w ∷ []) i (f n) ≡ init ++ f n ∷ []) l (set_behind init w (f n) []) in
    let longer : length (ordered_insert (f n) init) ≡ suc j =
      length-ordered_insert (f n) init ∙ ap suc l in
    let front =
      subst (λ i. take i (ordered_insert (f n) init ++ w ∷ []) ≡ ordered_insert (f n) init) longer
        (take_front (ordered_insert (f n) init) (w ∷ [])) in
    let best : smallest (suc j) f (suc n) ≡ ordered_insert (f n) init =
      smallest-suc (suc j) f n
      ∙ ap (λ zs. take (suc j) (ordered_insert (f n) zs)) e
      ∙ ap (take (suc j)) (ordered_insert_before (f n) w init less)
      ∙ front in
    ap (sift j) a
    ∙ sift_lem j init (f n) [] l s
    ∙ ap ok (append-nil (ordered_insert (f n) init) ∙ sym best)

-- All places are taken, and the value is not smaller: nothing changes.
pub same_values :
    (j : ℕ) (f : ℕ → ℕ) (n w : ℕ) (init : List ℕ)
    → smallest (suc j) f n ≡ init ++ w ∷ []
    → length init ≡ j
    → w ≤ f n
    → smallest (suc j) f (suc n) ≡ init ++ w ∷ []
same_values j f n w init e l more =
    let sorted = subst IsSorted e (smallest-IsSorted (suc j) f n) in
    let (below, s) = IsSorted-last w init sorted in
    let behind = ordered_insert_behind (f n) (init ++ w ∷ []) (AllBelow-snoc init more below) in
    let size : length (init ++ w ∷ []) ≡ suc j = omega (arith, length-append init (w ∷ []), l) in
    smallest-suc (suc j) f n
    ∙ ap (λ zs. take (suc j) (ordered_insert (f n) zs)) e
    ∙ ap (take (suc j)) behind
    ∙ subst (λ i. take i ((init ++ w ∷ []) ++ f n ∷ []) ≡ init ++ w ∷ []) size
        (take_front (init ++ w ∷ []) (f n ∷ []))
