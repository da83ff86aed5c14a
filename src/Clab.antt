-- ===== src/Clab.antt =====
-- clab/mini/part7_harness.c: the test of the students' sorted tree. The tree is a record of the
-- functions of part7.c over its state. A string is the list of its characters; `rand n` is what the
-- call of `rand` with number `n` returns. An element of an array that is `none` was never written.
pub mod Reference
pub mod Tables
pub mod Order
pub mod Nodup
pub mod Inorder
pub mod Seen
pub mod Numbers
pub mod Passes
mod Tests
use cso18_labs.Base.{
  ℕ, zero, suc, ◌+◌, ◌-◌, ◌*◌, ◌%◌, ◌≡◌, Bool, true, false, not, ◌&&◌, ◌||◌, Option, none, some,
  List, [], ◌∷◌, ◌++◌, ltb, leb, ◌==◌, if◌then◌else◌, length, get_elem?, set, take, replicate, map,
}
use cso18_labs.Base.Int.{ℤ, pos, ltb_ℤ}
use cso18_labs.Base.Run.{
  Run, ok, fault, ◌>>=◌, ◌>>◌, check, assert, asserted, exited, bad_access, uninitialised,
}

abbrev pub String : Type 0
String = List ℕ

-- `strcmp(s, t) < 0`
abbrev pub comes_before : String → String → Bool
comes_before s [] = false
comes_before [] (d ∷ t) = true
comes_before (c ∷ s) (d ∷ t) = if c == d then comes_before s t else ltb c d

-- `strcmp(s, t) == 0`
abbrev pub same_string : String → String → Bool
same_string [] [] = true
same_string [] (d ∷ t) = false
same_string (c ∷ s) [] = false
same_string (c ∷ s) (d ∷ t) = c == d && same_string s t

-- `qsort` with `strcmp_for_qsort`: the sorted array, which strings that compare as equal leave
-- unique.
unfoldable pub insert_sorted : String → List String → List String
insert_sorted s [] = s ∷ []
insert_sorted s (t ∷ ts) = if comes_before t s then t ∷ insert_sorted s ts else s ∷ t ∷ ts

unfoldable pub sort_onto : (sorted : List String) → List String → List String
unfolding insert_sorted
sort_onto sorted [] = sorted
sort_onto sorted (s ∷ ss) = sort_onto (insert_sorted s sorted) ss

abbrev pub qsort : List String → List String
qsort ss = sort_onto [] ss

-- The functions that the harness declares as `extern`. A traversal gets the array and its size, and
-- returns its `int` and the array.
pub record TreePackage (T : Type 0) : Type 0 where
  pub init_tree : T
  pub insert : T → String → Run (ℕ × T)
  pub preorder : T → List (Option String) → ℕ → Run (ℕ × List (Option String))
  pub inorder : T → List (Option String) → ℕ → Run (ℕ × List (Option String))
  pub del_tree : T → Run (Unit {0})

-- `panic_cond` of panic_cond.h, which aborts like a failed `assert`.
abbrev pub panic_cond : Bool → Run (Unit {0})
panic_cond cond = check cond asserted

abbrev pub read_string : List (Option String) → ℕ → Run String
read_string xs i = elim (get_elem? xs i) [
  | none ↦ fault bad_access
  | some none ↦ fault uninitialised
  | some (some s) ↦ ok s
]

-- The loop of `concat_strings` over the first `n` strings. `sprintf` writes a byte 0 behind the
-- string; 32 is ' '.
unfoldable pub concat_strings : List (Option String) → ℕ → ℕ → String → Run String
concat_strings xs i zero out = ok out
concat_strings xs i (suc n) out = read_string xs i >>= λ s.
    (let longer = out ++ s ++ 32 ∷ [] in
      check (ltb (length longer) 10000) bad_access
      >> assert (ltb (length longer) 10000)
      >> concat_strings xs (i + 1) n longer)

-- The loop that compares a traversal with what is expected, `i` being the index. The arguments of
-- `panic_cond` are evaluated whether or not it aborts.
unfoldable pub compare_strings :
    (expected result : List (Option String)) (size : ℕ) → ℕ → ℕ → Run (Unit {0})
unfolding concat_strings
compare_strings expected result size i zero = ok tt
compare_strings expected result size i (suc n) = read_string expected i >>= λ s.
    read_string result i >>= λ t. concat_strings expected 0 size [] >>= λ _.
    concat_strings result 0 size [] >>= λ _.
    panic_cond (same_string s t) >> compare_strings expected result size (i + 1) n

abbrev pub Traversal : Type 0 → Type 0
Traversal T = T → List (Option String) → ℕ → Run (ℕ × List (Option String))

module _ {T : Type 0} (tree : TreePackage T) where
  unfoldable pub insert_strings : List String → T → Run T
  insert_strings [] t = ok t
  insert_strings (s ∷ ss) t =
      tree.insert t s >>= λ (ret, t1). panic_cond (ret == 0) >> insert_strings ss t1

  -- One round of either loop over the tests. The result is the array `result`.
  unfoldable pub test_tree :
      Traversal T → List String → List String → List (Option String) → Run (List (Option String))
  unfolding insert_strings compare_strings
  test_tree traverse strings expected result = insert_strings strings tree.init_tree >>= λ t.
      traverse t result 5 >>= λ (ret, result1).
      panic_cond (ret == 5)
      >> compare_strings (map some expected) result1 5 0 5
      >> tree.del_tree t
      >> ok result1

  unfoldable pub test_trees :
      Traversal T
      → List (List String × List String)
      → List (Option String)
      → Run (List (Option String))
  unfolding test_tree
  test_trees traverse [] result = ok result
  test_trees traverse ((strings, expected) ∷ rest) result =
      test_tree traverse strings expected result >>= λ result1. test_trees traverse rest result1

-- The tables of `main`, from the characters '0' (48) to '4'.
abbrev pub digits : ℕ → String
digits c = c ∷ c ∷ c ∷ []

abbrev pub five_strings : ℕ → ℕ → ℕ → ℕ → ℕ → List String
five_strings a b c d e = digits a ∷ digits b ∷ digits c ∷ digits d ∷ digits e ∷ []

abbrev pub preorder_tests : List (List String × List String)
preorder_tests =
    (five_strings 48 49 50 51 52, five_strings 48 49 50 51 52)
    ∷ (five_strings 52 51 50 49 48, five_strings 52 51 50 49 48)
    ∷ (five_strings 50 49 51 48 52, five_strings 50 49 48 51 52)
    ∷ (five_strings 48 49 51 50 52, five_strings 48 49 51 50 52)
    ∷ (five_strings 50 48 52 49 51, five_strings 50 48 49 52 51)
    ∷ []

-- The same trees, with `sorted`.
abbrev pub with_sorted :
    List String → List (List String × List String) → List (List String × List String)
with_sorted sorted [] = []
with_sorted sorted ((strings, _) ∷ rest) = (strings, sorted) ∷ with_sorted sorted rest

unfoldable pub inorder_tests : List (List String × List String)
unfolding sort_onto
inorder_tests = with_sorted (qsort (five_strings 48 49 50 51 52)) preorder_tests

abbrev pub atoi_from : ℕ → String → ℕ
atoi_from n [] = n
atoi_from n (c ∷ s) = if leb 48 c && leb c 57 then atoi_from (10 * n + (c - 48)) s else n

-- On a string of digits.
abbrev pub atoi : String → ℕ
atoi s = atoi_from 0 s

-- The loop "nodup"; `last` is `nodup[nodup_i - 1]`, if there is one.
unfoldable pub nodup_from : (last : Option String) → List String → List String
nodup_from last [] = []
nodup_from none (s ∷ ss) = s ∷ nodup_from (some s) ss
nodup_from (some last) (s ∷ ss) =
    if same_string s last then nodup_from (some last) ss else s ∷ nodup_from (some s) ss

-- The last loop of `main`.
unfoldable pub compare_inorder : List (Option String) → ℕ → List String → Run (Unit {0})
compare_inorder result i [] = ok tt
compare_inorder result i (s ∷ ss) =
    read_string result i >>= λ t. panic_cond (same_string t s) >> compare_inorder result (i + 1) ss

abbrev pub read_flag : List Bool → ℕ → Run Bool
read_flag seen val = elim (get_elem? seen val) [ none ↦ fault bad_access | some b ↦ ok b ]

module _ (rand : ℕ → ℕ) where
  -- One string of `gen_rand_strings`; 49 is '1', and `n` counts the calls of `rand`.
  unfoldable pub gen_string : ℕ → ℕ → String
  gen_string n zero = []
  gen_string n (suc n_chars) = (rand n % 9 + 49) ∷ gen_string (n + 1) n_chars

  unfoldable pub gen_rand_strings : ℕ → (num_strings n_chars : ℕ) → List String
  unfolding gen_string
  gen_rand_strings n zero n_chars = []
  gen_rand_strings n (suc num_strings) n_chars =
      gen_string n n_chars ∷ gen_rand_strings (n + n_chars) num_strings n_chars

-- The loop over `getopt`: the number behind the first option `n` (110).
abbrev pub read_num_nodes : List (ℕ × ℤ) → ℤ
read_num_nodes [] = pos 0
read_num_nodes ((c, number) ∷ rest) = if c == 110 then number else read_num_nodes rest

module _ {T : Type 0} (tree : TreePackage T) where
  -- The loop that inserts the random strings.
  unfoldable pub insert_random : List String → (num_nodes : ℕ) → List Bool → T → Run T
  insert_random [] num_nodes seen t = ok t
  insert_random (s ∷ ss) num_nodes seen t =
      assert (ltb 0 (atoi s) && ltb (atoi s) num_nodes)
      >> (tree.insert t s >>= λ (ret, t1). read_flag seen (atoi s) >>= λ before.
          panic_cond (ret == (if before then 1 else 0))
          >> insert_random ss num_nodes (if before then seen else set seen (atoi s) true) t1)

  -- The part of `main` behind "do a large inorder test with duplicates".
  unfoldable pub test_duplicates : (rand : ℕ → ℕ) (num_nodes : ℕ) → Run (Unit {0})
  unfolding insert_random compare_inorder nodup_from sort_onto gen_rand_strings
  test_duplicates rand num_nodes =
      let strings = gen_rand_strings rand 0 num_nodes 3 in
      let nodup = nodup_from none (qsort strings) in
      insert_random strings num_nodes (replicate num_nodes false) tree.init_tree >>= λ t.
      tree.inorder t (replicate num_nodes none) num_nodes >>= λ (ret, result).
      panic_cond (ret == length nodup) >> compare_inorder result 0 nodup >> tree.del_tree t

  unfoldable pub insert_all : List String → T → Run T
  insert_all [] t = ok t
  insert_all (s ∷ ss) t = tree.insert t s >>= λ (ret, t1). insert_all ss t1

  unfoldable pub challenge_question : (rand : ℕ → ℕ) (num_nodes : ℕ) → Run (Unit {0})
  unfolding insert_all sort_onto gen_rand_strings
  challenge_question rand num_nodes =
      let strings = gen_rand_strings rand 0 num_nodes 20 in
      insert_all strings tree.init_tree >>= λ t.
      tree.del_tree t >> (insert_all (qsort strings) tree.init_tree >>= λ t1. tree.del_tree t1)

  abbrev pub challenge_with : (rand : ℕ → ℕ) → ℤ → Run (Unit {0})
  challenge_with rand (pos zero) = fault exited
  challenge_with rand (pos (suc n)) = challenge_question rand (suc n)
  challenge_with rand _ = fault exited

  -- `options` holds what `getopt` returns, with `atoi(optarg)`.
  unfoldable pub main : (rand : ℕ → ℕ) (argc : ℕ) → List (ℕ × ℤ) → Run (Unit {0})
  unfolding test_trees inorder_tests test_duplicates challenge_question
  main rand argc options =
      if ltb 1 argc
      then challenge_with rand (read_num_nodes options)
      else (test_trees tree tree.preorder preorder_tests (replicate 5 none) >>= λ result.
          test_trees tree tree.inorder inorder_tests result >>= λ _. test_duplicates rand 1000)
