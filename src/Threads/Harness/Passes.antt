-- ===== src/Threads/Harness/Passes.antt =====
-- That the table of threadlab/htable.c passes `test_htable` when its threads run one after the other.
use native.Mathlib.Decide.{dec_lt}
use native.Mathlib.Nat.{mul-le-mul_right, div-mul-le_self, mul_comm}
use cso18_labs.Base.{
  ℕ, zero, suc, ◌+◌, ◌-◌, ◌*◌, ◌/◌, ◌≤◌, ◌<◌, ◌≡◌, refl, subst, ◌⊎◌, inl, inr, Bool, true, false,
  none, List, ◌==◌, if◌then◌else◌, arith,
}
use cso18_labs.Base.Run.{Run, ok}
use cso18_labs.Threads.Htable.{Htable, pointer, htable_init, htable_size}
use cso18_labs.Threads.Htable.Map.{view, htable_lookup_lem, htable_init_lem}
use cso18_labs.Threads.Load.{
  test_size, OpMode, insert_mode, mix_mode, share, first_index, end_index, other_index, other_op,
  run_rounds, test_htable_run, Covers, last_end, other_end, test_htable_run_partition,
}
use cso18_labs.Threads.Harness.{run_threads, validate, run_phases, test_htable}
use cso18_labs.Threads.Harness.Loaded.{
  IsData, Stored, IsLoaded, GoesOn, GoesOn-trans, stay, insert-GoesOn,
}

module _ (testkeys : ℕ → List ℕ) (testvals : ℕ → ℕ) (data_ : IsData testkeys testvals) where
  abbrev HoldsKey : Htable → ℕ → Type 0
  HoldsKey = Stored testkeys testvals data_

  abbrev Goes : Htable → Htable → Type 0
  Goes = GoesOn testkeys testvals data_

  other_index_small : (t i : ℕ) → other_index t i < test_size
  other_index_small t i = omega arith

  accepts :
      (ht : Htable) (r : ℕ)
      → (view ht (testkeys r) ≡ none) ⊎ HoldsKey ht r
      → (if pointer (view ht (testkeys r)) == 0
          then true
          else pointer (view ht (testkeys r)) == testvals r)
        ≡ true
  accepts ht r (inl gone) = rw gone refl
  accepts ht r (inr s) = rw s (ground arith)

  other_op-Goes :
      (mode : OpMode) (ht : Htable) (r : ℕ)
      → IsLoaded testkeys testvals data_ ht
      → r < test_size
      → (out : Htable) × (other_op testkeys testvals mode r ht ≡ ok (out, true)) × Goes ht out
  unfolding other_op
  other_op-Goes insert_mode ht r l hr =
      let (out, n, runs, g, s) = insert-GoesOn testkeys testvals data_ ht r l hr in
      (out, rw runs refl, g)
  other_op-Goes mix_mode ht r l hr =
      let a = htable_lookup_lem ht (testkeys r) l.good (data_.ascii r hr) in
      let b = accepts ht r (l.faithful r hr) in (ht, rw (a, b) refl, stay testkeys testvals data_ l)

  run_rounds-Goes :
      (mode : OpMode) (t n i : ℕ) (ht : Htable)
      → IsLoaded testkeys testvals data_ ht
      → i + n ≤ test_size
      → (out : Htable) × (run_rounds testkeys testvals mode t n i ht ≡ ok (out, true))
        × Goes ht out
        × ((j : ℕ) → i ≤ j → j < i + n → HoldsKey out j)
  unfolding run_rounds
  run_rounds-Goes mode t zero i ht l room =
      (ht, refl, stay testkeys testvals data_ l, λ j low high. absurd (omega arith))
  run_rounds-Goes mode t (suc n) i ht l room =
      let (ht1, k, a, g1, s1) = insert-GoesOn testkeys testvals data_ ht i l (omega arith) in
      let (ht2, b, g2) =
        other_op-Goes mode ht1 (other_index t i) g1.loaded (other_index_small t i) in
      let (out, c, g3, stored) = run_rounds-Goes mode t n (i + 1) ht2 g2.loaded (omega arith) in
      let g23 = GoesOn-trans testkeys testvals data_ g2 g3 in
      (
        out,
        rw (a, b) c,
        GoesOn-trans testkeys testvals data_ g1 g23,
        λ j low high. elim (dec_lt i j) [
          | yes later ↦ stored j (omega arith) (omega arith)
          | no same ↦
              let e : i ≡ j = omega arith in subst (HoldsKey out) e (g23.keeps i (omega arith) s1)
        ],
      )

  ends_inside : (n t : ℕ) → t < n → (first_index n t ≤ test_size) × (end_index n t ≤ test_size)
  unfolding first_index
  ends_inside n t h =
      let a : n * share n ≤ test_size =
        omega (arith, mul_comm n (share n), div-mul-le_self test_size n) in
      let b = mul-le-mul_right {m = t} {n = n} (share n) (omega arith) in
      let c = mul-le-mul_right {m = t + 1} {n = n} (share n) (omega arith) in
      (
        omega arith,
        elim (dec_lt t (n - 1)) [
          | yes early ↦ omega (arith, other_end n t (λ e. omega arith))
          | no last ↦ omega (arith, last_end n t (omega arith))
        ],
      )

  run_threads-Goes :
      (mode : OpMode) (n t k : ℕ) (ht : Htable)
      → IsLoaded testkeys testvals data_ ht
      → t + k ≤ n
      → (out : Htable) × (run_threads testkeys testvals mode n t k ht ≡ ok out)
        × Goes ht out
        × ((j u : ℕ) → t ≤ u → u < t + k → Covers n u j → HoldsKey out j)
  unfolding run_threads test_htable_run
  run_threads-Goes mode n t zero ht l room =
      (ht, refl, stay testkeys testvals data_ l, λ j u low high c. absurd (omega arith))
  run_threads-Goes mode n t (suc k) ht l room =
      let (first_in, end_in) = ends_inside n t (omega arith) in
      let (ht1, a, g1, own) =
        run_rounds-Goes mode t (end_index n t - first_index n t) (first_index n t) ht l
          (omega arith) in
      let (out, b, g2, rest) = run_threads-Goes mode n (t + 1) k ht1 g1.loaded (omega arith) in
      (
        out,
        rw a b,
        GoesOn-trans testkeys testvals data_ g1 g2,
        λ j u low high c. elim (dec_lt t u) [
          | yes later ↦ rest j u (omega arith) (omega arith) c
          | no same ↦
              let e : u ≡ t = omega arith in
              let (from, to) = subst (λ v. Covers n v j) e c in
              g2.keeps j (omega arith) (own j from (omega arith))
        ],
      )

  validate_passes :
      (i k : ℕ) (ht : Htable)
      → IsLoaded testkeys testvals data_ ht
      → i + k ≤ test_size
      → ((j : ℕ) → j < test_size → HoldsKey ht j)
      → validate testkeys testvals i k ht ≡ ok tt
  unfolding validate
  validate_passes i zero ht l room all = refl
  validate_passes i (suc k) ht l room all =
      let a = htable_lookup_lem ht (testkeys i) l.good (data_.ascii i (omega arith)) in
      let s = all i (omega arith) in
      let rest = validate_passes (i + 1) k ht l (omega arith) all in
      let nonnull : (testvals i == 0) ≡ false = ground (arith, data_.values i (omega arith)) in
      let same : (testvals i == testvals i) ≡ true = ground arith in rw (a, s, nonnull, same) rest

  fresh :
      (allow_resize : Bool)
      → (ht : Htable) × (htable_init (test_size / 100) allow_resize ≡ ok ht)
        × IsLoaded testkeys testvals data_ ht
  fresh allow_resize =
      let (ht, runs, good, prime, more, least, empty) =
        htable_init_lem (test_size / 100) allow_resize (omega arith) in
      (ht, runs, record { good = good; faithful = λ j hj. inl (empty (testkeys j)) })

  run_phases-ok :
      (init : Run Htable) (size n : ℕ) (ht ht1 ht3 : Htable)
      → init ≡ ok ht
      → run_threads testkeys testvals insert_mode n 0 n ht ≡ ok ht1
      → validate testkeys testvals 0 size ht1 ≡ ok tt
      → run_threads testkeys testvals mix_mode n 0 n ht ≡ ok ht3
      → run_phases testkeys testvals init size n ≡ ok (htable_size ht3)
  unfolding run_phases
  run_phases-ok init size n ht ht1 ht3 a b c d = rw (a, b, c, d) refl

  -- With test data of distinct ASCII keys and values that are not NULL, and at least one thread,
  -- `test_htable` passes on the table of htable.c, with resizing or without, if the threads run one
  -- after the other: no thread finds a wrong value, the validation finds every key with its value,
  -- and the program reaches its end.
  pub test_htable_lem :
      (allow_resize : Bool) (n : ℕ)
      → 1 ≤ n
      → (size : ℕ) × (test_htable testkeys testvals allow_resize n ≡ ok size)
  test_htable_lem allow_resize n one =
      let (ht, a, l) = fresh allow_resize in
      let (ht1, b, g, stored) = run_threads-Goes insert_mode n 0 n ht l (omega arith) in
      let all : (j : ℕ) → j < test_size → HoldsKey ht1 j = λ j hj.
        (let ((t, ht, c), _) = test_htable_run_partition n j one hj in
          stored j t (omega arith) (omega arith) c) in
      let c = validate_passes 0 test_size ht1 g.loaded (omega arith) all in
      let (ht3, d, _, _) = run_threads-Goes mix_mode n 0 n ht l (omega arith) in
      (htable_size ht3, run_phases-ok _ test_size n ht ht1 ht3 a b c d)
