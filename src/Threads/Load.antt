-- ===== src/Threads/Load.antt =====
-- `test_htable_run` of threadlab/testhash.c: the work of one thread, when it runs alone. `testkeys`
-- and `testvals` give the key and the address of the value with a number.
use native.Mathlib.Decide.{dec_lt}
use native.Mathlib.Nat.{
  mul-le-mul_right, lt_of_mul-lt-mul_right, div-mul-le_self, lt-mul-div-succ, mul_comm,
}
use cso18_labs.Base.{
  ℕ, zero, suc, ◌+◌, ◌-◌, ◌*◌, ◌/◌, ◌%◌, ◌≡◌, ◌≤◌, ◌<◌, ◌≢◌, refl, Bool, true, false, List, ◌==◌,
  if◌then◌else◌, arith,
}
use cso18_labs.Base.Run.{Run, ok, ◌>>=◌}
use cso18_labs.Threads.Htable.{Htable, big_prime, htable_insert, htable_lookup}

-- `TESTSZ`
abbrev pub test_size : ℕ
test_size = 1000000

pub data OpMode : Type 0 where
  insert_mode mix_mode : OpMode

abbrev pub share : ℕ → ℕ
share num_threads = test_size / num_threads

-- The first index of a thread, and the one behind its last.
unfoldable pub first_index : ℕ → ℕ → ℕ
first_index num_threads thread_idx = thread_idx * share num_threads

unfoldable pub end_index : ℕ → ℕ → ℕ
end_index num_threads thread_idx =
    if thread_idx == num_threads - 1 then test_size else (thread_idx + 1) * share num_threads

-- `r`
abbrev pub other_index : ℕ → ℕ → ℕ
other_index thread_idx i = thread_idx * i % 256 * big_prime % test_size

module _ (testkeys : ℕ → List ℕ) (testvals : ℕ → ℕ) where
  -- What a round does with the other key. `false` stands for the call of `test_fatal`.
  unfoldable pub other_op : OpMode → ℕ → Htable → Run (Htable × Bool)
  unfolding htable_insert htable_lookup
  other_op insert_mode r ht =
      htable_insert ht (testkeys r) (testvals r) >>= λ (ht, _). ok (ht, true)
  other_op mix_mode r ht =
      htable_lookup ht (testkeys r) >>= λ v. ok (ht, if v == 0 then true else v == testvals r)

  -- `n` rounds of the loop, from `i` on.
  unfoldable pub run_rounds : OpMode → ℕ → ℕ → ℕ → Htable → Run (Htable × Bool)
  unfolding other_op
  run_rounds mode thread_idx zero i ht = ok (ht, true)
  run_rounds mode thread_idx (suc n) i ht =
      htable_insert ht (testkeys i) (testvals i) >>= λ (ht, _).
      other_op mode (other_index thread_idx i) ht >>= λ (ht, fine).
      (let rest = run_rounds mode thread_idx n (i + 1) ht in if fine then rest else ok (ht, false))

  unfoldable pub test_htable_run : OpMode → ℕ → ℕ → Htable → Run (Htable × Bool)
  unfolding run_rounds first_index end_index
  test_htable_run mode num_threads thread_idx ht =
      run_rounds mode thread_idx
        (end_index num_threads thread_idx - first_index num_threads thread_idx)
        (first_index num_threads thread_idx) ht

-- The thread inserts the key with number `i`.
abbrev pub Covers : ℕ → ℕ → ℕ → Type 0
Covers num_threads t i = (first_index num_threads t ≤ i) × (i < end_index num_threads t)

pub last_end : (n t : ℕ) → t ≡ n - 1 → end_index n t ≡ test_size
unfolding end_index
last_end n t e = let b : (t == n - 1) ≡ true = ground arith in rw (b, end_index) refl

pub other_end : (n t : ℕ) → t ≢ n - 1 → end_index n t ≡ (t + 1) * share n
unfolding end_index
other_end n t d = let b : (t == n - 1) ≡ false = ground arith in rw (b, end_index) refl

disjoint : (n t u i : ℕ) → t < u → u < n → Covers n t i → Covers n u i → ⊥
unfolding first_index
disjoint n t u i less last (_, high) (low, _) =
    let e = other_end n t (omega arith) in
    let m : (t + 1) * share n ≤ u * share n = mul-le-mul_right (share n) (omega arith) in
    absurd (omega arith)

factor_pos : (a q i : ℕ) → i < a * q → 0 < q
factor_pos a zero i h = absurd (omega arith)
factor_pos a (suc q) i h = omega arith

-- With one thread at least, whatever their number, each test key has exactly one thread that
-- inserts it as its own.
pub test_htable_run_partition :
    (n i : ℕ)
    → 1 ≤ n
    → i < test_size
    → ((t : ℕ) × (t < n) × Covers n t i)
      × ((t u : ℕ) → t < n → u < n → Covers n t i → Covers n u i → t ≡ u)
unfolding first_index
test_htable_run_partition n i one small =
    let q = share n in
    (
      elim (dec_lt i ((n - 1) * q)) [
        | no late ↦ (n - 1, omega arith, (omega arith, omega (arith, last_end n (n - 1) refl)))
        | yes early ↦
            let t = i / q in
            let low : t * q ≤ i = div-mul-le_self i q in
            let under : t < n - 1 = lt_of_mul-lt-mul_right q (omega arith) in
            let next : i < q * (t + 1) = lt-mul-div-succ i (factor_pos (n - 1) q i early) in
            let e = other_end n t (omega arith) in
            (t, omega arith, (low, omega (arith, mul_comm q (t + 1))))
      ],
      λ t u ht hu a b. elim (dec_lt t u) [
        | yes less ↦ absurd (disjoint n t u i less hu a b)
        | no x ↦ elim (dec_lt u t) [
          | yes more ↦ absurd (disjoint n u t i more ht b a)
          | no y ↦ omega arith
        ]
      ],
    )
