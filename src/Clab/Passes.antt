-- ===== src/Clab/Passes.antt =====
-- A tree as Reference describes it passes the whole of clab/mini/part7_harness.c.
use cso18_labs.Base.{
  ℕ, ◌+◌, ◌≤◌, ◌≡◌, refl, sym, ap, ◌∙◌, subst, Bool, true, false, ltb, ◌==◌, Option, none, some,
  List, [], ◌∷◌, ◌++◌, map, if◌then◌else◌, length, get_elem?, set, replicate, get_elem?_behind,
  length-append, length-replicate, append_assoc, lt→ltb, le→ltb, arith, Bool-cases, inl, inr,
}
use cso18_labs.Base.Run.{Run, ok, ◌>>=◌}
use cso18_labs.Base.Int.{ℤ}
use cso18_labs.Clab.{
  String, TreePackage, read_string, read_flag, compare_inorder, atoi, insert_random,
  gen_rand_strings, test_trees, test_duplicates, nodup_from, qsort, preorder_tests, inorder_tests,
  main,
}
use cso18_labs.Clab.Order.{same_string_refl}
use cso18_labs.Clab.Reference.{Tree, leaf, has, inorder_list, preorder_list, IsTree}
use cso18_labs.Clab.Tables.{insert_trees, preorder-AllEntries, inorder-AllEntries, test_trees_run}
use cso18_labs.Clab.Inorder.{nodup-qsort, length-inorder_list}
use cso18_labs.Clab.Numbers.{
  AllThree, gen_rand_strings-AllThree, length-gen_rand_strings, atoi_bounds,
}
use cso18_labs.Clab.Seen.{IsSeen, IsSeen-old, IsSeen-new, nothing-IsSeen}

==-refl : (a : ℕ) → (a == a) ≡ true
==-refl a = ground arith

read_flag-some :
    (seen : List Bool) (i : ℕ) {b : Bool} → get_elem? seen i ≡ some b → read_flag seen i ≡ ok b
read_flag-some seen i h = rw (h, read_flag) refl

module _ {T : Type 0} (tree : TreePackage T) (view : T → Tree) (is : IsTree tree view) where
  insert_random_runs :
      (ss : List String) (num : ℕ) (seen : List Bool) (t : T)
      → 1000 ≤ num
      → AllThree ss
      → IsSeen seen (view t)
      → (t1 : T) × (insert_random tree ss num seen t ≡ ok t1) × (view t1 ≡ insert_trees ss (view t))
  unfolding insert_random
  insert_random_runs [] num seen t h all known = (t, refl, refl)
  insert_random_runs (s ∷ ss) num seen t h (three, all) known =
      let (low, high) = atoi_bounds s three in
      let a = lt→ltb 0 (atoi s) low in
      let b = lt→ltb (atoi s) num (omega (arith, high, h)) in
      let (t1, c, v) = is.insert t s in
      let d = read_flag-some seen (atoi s) (known.flags s three) in
      elim (Bool-cases (has s (view t))) [
        | inl old ↦
            let seen1 = subst (IsSeen seen) (sym v) (IsSeen-old seen s (view t) three known old) in
            let (t2, e, w) = insert_random_runs ss num seen t1 h all seen1 in
            (t2, rw (a, b, c) (rw (d, old) e), w ∙ ap (insert_trees ss) v)
        | inr absent ↦
            let seen1 =
              subst (IsSeen (set seen (atoi s) true)) (sym v)
                (IsSeen-new seen s (view t) three known) in
            let (t2, e, w) = insert_random_runs ss num (set seen (atoi s) true) t1 h all seen1 in
            (t2, rw (a, b, c) (rw (d, absent) e), w ∙ ap (insert_trees ss) v)
      ]

compare_one :
    (xs : List (Option String)) (i : ℕ) (s : String) (ss : List String)
    → get_elem? xs i ≡ some (some s)
    → compare_inorder xs (i + 1) ss ≡ ok tt
    → compare_inorder xs i (s ∷ ss) ≡ ok tt
unfolding compare_inorder
compare_one xs i s ss h rest =
    let a : read_string xs i ≡ ok s = rw (h, read_string) refl in
    let b = same_string_refl s in rw (a, b) rest

-- What the traversal has written is read back.
compare_inorder_runs :
    (ss : List String) (pre rest : List (Option String)) (i : ℕ)
    → length pre ≡ i
    → compare_inorder (pre ++ (map some ss ++ rest)) i ss ≡ ok tt
unfolding compare_inorder
compare_inorder_runs [] pre rest i h = refl
compare_inorder_runs (s ∷ ss) pre rest i h =
    let a : get_elem? (pre ++ some s ∷ (map some ss ++ rest)) i ≡ some (some s) =
      subst (λ j. get_elem? (pre ++ some s ∷ (map some ss ++ rest)) j ≡ some (some s)) h
        (get_elem?_behind pre (some s) (map some ss ++ rest)) in
    let size : length (pre ++ some s ∷ []) ≡ i + 1 =
      omega (arith, length-append pre (some s ∷ []), h) in
    let c = compare_inorder_runs ss (pre ++ some s ∷ []) rest (i + 1) size in
    compare_one (pre ++ some s ∷ (map some ss ++ rest)) i s ss a (
      subst (λ xs. compare_inorder xs (i + 1) ss ≡ ok tt)
        (append_assoc pre (some s ∷ []) (map some ss ++ rest)) c)

three_tests :
    (b : Bool) (other last : Run (Unit {0})) (first : Run (List (Option String)))
    (second : List (Option String) → Run (List (Option String))) {r q : List (Option String)}
    → b ≡ false
    → first ≡ ok r
    → second r ≡ ok q
    → last ≡ ok tt
    → (if b then other else (first >>= λ result. second result >>= λ _. last)) ≡ ok tt
three_tests b other last first second e f g h = rw (e, f, g) h

module _ {T : Type 0} (tree : TreePackage T) (view : T → Tree) (is : IsTree tree view) where
  test_duplicates_runs :
      (rand : ℕ → ℕ) (num : ℕ) → 1000 ≤ num → test_duplicates tree rand num ≡ ok tt
  unfolding test_duplicates
  test_duplicates_runs rand num h =
      let strings = gen_rand_strings rand 0 num 3 in
      let empty = subst (IsSeen (replicate num false)) (sym is.init) (nothing-IsSeen num h) in
      let (t, a, v) =
        insert_random_runs tree view is strings num (replicate num false) tree.init_tree h
          (gen_rand_strings-AllThree rand 0 num) empty in
      let nodup = nodup_from none (qsort strings) in
      let same : inorder_list (view t) ≡ nodup =
        ap inorder_list (v ∙ ap (insert_trees strings) is.init) ∙ sym (nodup-qsort strings) in
      let few : length nodup ≤ num =
        subst (λ xs. length xs ≤ num) (sym (nodup-qsort strings))
          (let e = length-gen_rand_strings rand 0 num in
            let f = length-inorder_list strings leaf tt in omega (arith, e, f)) in
      let result = replicate num none in
      let size = length-replicate {A = Option String} num none in
      let (rest, runs, _) =
        is.inorder t result num (subst (λ xs. length xs ≤ num) (sym same) few)
          (omega (arith, size)) in
      let b : tree.inorder t result num ≡ ok (length nodup, map some nodup ++ rest) =
        subst (λ xs. tree.inorder t result num ≡ ok (length xs, map some xs ++ rest)) same runs in
      let c = ==-refl (length nodup) in
      let d = compare_inorder_runs nodup [] rest 0 refl in
      let e = is.del t in rw (a, b, c) (rw (d, e) refl)

  -- Run without options on a tree that keeps what part7.c documents, and whose traversals also work
  -- on an array that the strings fill, `main` ends and neither aborts nor leaves an array, whatever
  -- `rand` returns. So the strings of the tables and of the last test are inserted, traversed in both
  -- orders and compared as the harness expects them, the codes for duplicates included.
  pub part7_harness_passes :
      (rand : ℕ → ℕ) (argc : ℕ) (options : List (ℕ × ℤ))
      → argc ≤ 1
      → main tree rand argc options ≡ ok tt
  unfolding main
  part7_harness_passes rand argc options h =
      let none_given = le→ltb 1 argc h in
      let (result, a, long) =
        test_trees_run tree view is tree.preorder preorder_list is.preorder preorder_tests
          (replicate 5 none) preorder-AllEntries refl in
      let (result1, b, _) =
        test_trees_run tree view is tree.inorder inorder_list is.inorder inorder_tests result
          inorder-AllEntries long in
      let c = test_duplicates_runs rand 1000 (omega arith) in
      three_tests (ltb 1 argc) _ _ (test_trees tree tree.preorder preorder_tests (replicate 5 none))
        (test_trees tree tree.inorder inorder_tests) none_given a b c
