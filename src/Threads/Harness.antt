-- ===== src/Threads/Harness.antt =====
-- `test_htable` of threadlab/testhash.c, with its threads run one after the other, and the main
-- program of threadlab/tester.c.
pub mod Loaded
pub mod Passes
use cso18_labs.Base.{
  ℕ, zero, suc, ◌+◌, ◌-◌, ◌*◌, ◌/◌, ◌%◌, Bool, true, false, ◌&&◌, ◌||◌, not, Option, none, some,
  List, [], ◌∷◌, ◌++◌, ◌==◌, if◌then◌else◌, map,
}
use cso18_labs.Base.Run.{Run, ok, fault, ◌>>=◌, ◌>>◌, check, exited}
use cso18_labs.Threads.Htable.{
  Htable, key_eq, htable_init, htable_size, htable_lookup, htable_destroy,
}
use cso18_labs.Threads.Load.{test_size, OpMode, insert_mode, mix_mode, test_htable_run}

-- `STRLEN`
abbrev pub strlen : ℕ
strlen = 50

-- `set_random_str`, from the results of `rand`: the characters before the NUL, "len - 1" of them.
unfoldable pub random_letters : (ℕ → ℕ) → ℕ → ℕ → List ℕ
random_letters rand i zero = []
random_letters rand i (suc n) = (rand i % 26 + 65) ∷ random_letters rand (i + 1) n

abbrev pub set_random_str : (ℕ → ℕ) → ℕ → List ℕ
set_random_str rand len = random_letters rand 0 (len - 1)

module _ (testkeys : ℕ → List ℕ) (testvals : ℕ → ℕ) where
  -- The threads `t`, `t + 1`, …, `k` of them. A thread that calls `test_fatal` ends the program.
  unfoldable pub run_threads : OpMode → (num_threads t k : ℕ) → Htable → Run Htable
  run_threads mode n t zero ht = ok ht
  run_threads mode n t (suc k) ht = test_htable_run testkeys testvals mode n t ht >>= λ (ht1, fine).
      check fine exited >> run_threads mode n (t + 1) k ht1

  -- The loop "validate", for `k` keys from `i` on.
  unfoldable pub validate : (i k : ℕ) → Htable → Run (Unit {0})
  validate i zero ht = ok tt
  validate i (suc k) ht = htable_lookup ht (testkeys i) >>= λ p.
      check (not (p == 0) && p == testvals i) exited >> validate (i + 1) k ht

  -- What the test does with a new table, the one that `init` gives: the insertions and the
  -- validation of `size` keys, then, on another new table, the mix of operations. The nodes that
  -- `htable_destroy` frees are dropped. The result is the final size that is printed.
  unfoldable pub run_phases : (init : Run Htable) → (size num_threads : ℕ) → Run ℕ
  unfolding run_threads validate
  run_phases init size n = init >>= λ ht. run_threads insert_mode n 0 n ht >>= λ ht1.
      validate 0 size ht1
      >> (init >>= λ ht2. run_threads mix_mode n 0 n ht2 >>= λ ht3. ok (htable_size ht3))

  abbrev pub test_htable : (allow_resize : Bool) → (num_threads : ℕ) → Run ℕ
  test_htable allow_resize n = run_phases (htable_init (test_size / 100) allow_resize) test_size n

-- tester.c: an option of `getopt`, and the tests that the program can run.
pub data Opt : Type 0 where
  n_option : ℕ → Opt
  t_option : List ℕ → Opt
  other_option : Opt

pub data Test : Type 0 where
  htable_test rwl_basic_test rwl_priority_test resize_test : Test

-- "all", "htable", "rwl" and "resize"
abbrev pub all_name : List ℕ
all_name = 97 ∷ 108 ∷ 108 ∷ []

abbrev pub htable_name : List ℕ
htable_name = 104 ∷ 116 ∷ 97 ∷ 98 ∷ 108 ∷ 101 ∷ []

abbrev pub rwl_name : List ℕ
rwl_name = 114 ∷ 119 ∷ 108 ∷ []

abbrev pub resize_name : List ℕ
resize_name = 114 ∷ 101 ∷ 115 ∷ 105 ∷ 122 ∷ 101 ∷ []

unfoldable pub read_options : ℕ → List ℕ → List Opt → Run (ℕ × List ℕ)
read_options num_threads which_test [] = ok (num_threads, which_test)
read_options num_threads which_test (n_option n ∷ opts) = read_options n which_test opts
read_options num_threads which_test (t_option s ∷ opts) = read_options num_threads s opts
read_options num_threads which_test (other_option ∷ opts) = fault exited

abbrev pub chosen : List ℕ → List ℕ → List Test → List Test
chosen which_test name tests =
    if key_eq which_test all_name || key_eq which_test name then tests else []

abbrev pub some_tests : List Test → Run (List Test)
some_tests [] = fault exited
some_tests (t ∷ tests) = ok (t ∷ tests)

-- The tests that `main` runs, in their order, and the number of threads: 4 without an option.
unfoldable pub tester : List Opt → Run (ℕ × List Test)
unfolding read_options
tester opts = read_options 4 all_name opts >>= λ (num_threads, which_test).
    some_tests (
      chosen which_test htable_name (htable_test ∷ [])
      ++ chosen which_test rwl_name (rwl_basic_test ∷ rwl_priority_test ∷ [])
      ++ chosen which_test resize_name (resize_test ∷ []))
    >>= λ tests. ok (num_threads, tests)
