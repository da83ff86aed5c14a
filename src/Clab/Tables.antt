-- ===== src/Clab/Tables.antt =====
-- A tree as Reference describes it passes the tests of clab/mini/part7_harness.c on the tables.
use cso18_labs.Base.{
  ℕ, suc, ◌≡◌, refl, sym, ap, ◌∙◌, subst, Bool, true, false, Option, some, List, [], ◌∷◌, ◌++◌,
  if◌then◌else◌, length, map, arith, append-nil,
}
use cso18_labs.Base.Run.{Run, ok}
use cso18_labs.Clab.{
  String, TreePackage, Traversal, compare_strings, insert_strings, test_tree, test_trees,
  preorder_tests, inorder_tests, sort_onto, insert_sorted, concat_strings,
}
use cso18_labs.Clab.Reference.{
  Tree, leaf, insert_tree, has, preorder_list, inorder_list, Lists, IsTree,
}

-- The tree that the strings give, one after the other.
abbrev pub insert_trees : List String → Tree → Tree
insert_trees [] t = t
insert_trees (s ∷ ss) t = insert_trees ss (insert_tree s t)

-- None of the strings is there when it is inserted.
unfoldable pub all_new : List String → Tree → Bool
unfolding has insert_tree
all_new [] t = true
all_new (s ∷ ss) t = if has s t then false else all_new ss (insert_tree s t)

-- A table entry gives what is expected of the reference.
pub record IsEntry (listing : Tree → List String) (strings expected : List String) : Type 0 where
  pub fresh : all_new strings leaf ≡ true
  pub same : listing (insert_trees strings leaf) ≡ expected
  pub five : length expected ≡ 5
  pub agrees : compare_strings (map some expected) (map some expected) 5 0 5 ≡ ok tt

abbrev pub AllEntries : (Tree → List String) → List (List String × List String) → Type 0
AllEntries listing [] = Unit
AllEntries listing ((strings, expected) ∷ rest) =
    IsEntry listing strings expected × AllEntries listing rest

pub preorder-AllEntries : AllEntries preorder_list preorder_tests
unfolding all_new has insert_tree compare_strings concat_strings
preorder-AllEntries = (
  record { fresh = refl; same = refl; five = refl; agrees = refl },
  (
    record { fresh = refl; same = refl; five = refl; agrees = refl },
    (
      record { fresh = refl; same = refl; five = refl; agrees = refl },
      (
        record { fresh = refl; same = refl; five = refl; agrees = refl },
        (record { fresh = refl; same = refl; five = refl; agrees = refl }, tt),
      ),
    ),
  ),
)

pub inorder-AllEntries : AllEntries inorder_list inorder_tests
unfolding all_new has insert_tree compare_strings concat_strings inorder_tests sort_onto
    insert_sorted
inorder-AllEntries = (
  record { fresh = refl; same = refl; five = refl; agrees = refl },
  (
    record { fresh = refl; same = refl; five = refl; agrees = refl },
    (
      record { fresh = refl; same = refl; five = refl; agrees = refl },
      (
        record { fresh = refl; same = refl; five = refl; agrees = refl },
        (record { fresh = refl; same = refl; five = refl; agrees = refl }, tt),
      ),
    ),
  ),
)

nothing_left : (xs : List (Option String)) → length xs ≡ 0 → xs ≡ []
nothing_left [] h = refl
nothing_left (x ∷ xs) h = absurd (omega arith)

pub length-map-some : (xs : List String) → length (map some xs) ≡ length xs
length-map-some [] = refl
length-map-some (x ∷ xs) = ap suc (length-map-some xs)

unless : (b c : Bool) → (if b then false else c) ≡ true → (b ≡ false) × (c ≡ true)
unless true c h = absurd (ground arith)
unless false c h = (refl, h)

all_new-cons :
    (s : String) (ss : List String) (t : Tree)
    → all_new (s ∷ ss) t ≡ true
    → (has s t ≡ false) × (all_new ss (insert_tree s t) ≡ true)
unfolding all_new
all_new-cons s ss t new = unless (has s t) (all_new ss (insert_tree s t)) new

abbrev counted : ℕ → List (Option String) → Run (ℕ × List (Option String))
counted n result = ok (n, result)

counted-cong : {a b : ℕ} {x y : List (Option String)} → a ≡ b → x ≡ y → counted a x ≡ counted b y
counted-cong {b = b} {x = x} e f = ap (λ i. counted i x) e ∙ ap (counted b) f

module _ {T : Type 0} (tree : TreePackage T) (view : T → Tree) (is : IsTree tree view) where
  insert_strings_runs :
      (ss : List String) (t : T)
      → all_new ss (view t) ≡ true
      → (t1 : T) × (insert_strings tree ss t ≡ ok t1) × (view t1 ≡ insert_trees ss (view t))
  unfolding insert_strings all_new
  insert_strings_runs [] t new = (t, refl, refl)
  insert_strings_runs (s ∷ ss) t new =
      let (absent, rest) = all_new-cons s ss (view t) new in
      let (t1, a, v) = is.insert t s in
      let (t2, b, w) = insert_strings_runs ss t1 (subst (λ u. all_new ss u ≡ true) (sym v) rest) in
      (t2, rw (a, absent) b, w ∙ ap (insert_trees ss) v)

  test_tree_runs :
      (traverse : Traversal T) (listing : Tree → List String)
      → Lists traverse (λ t. listing (view t))
      → (strings expected : List String) (result : List (Option String))
      → IsEntry listing strings expected
      → length result ≡ 5
      → test_tree tree traverse strings expected result ≡ ok (map some expected)
  unfolding test_tree
  test_tree_runs traverse listing lists strings expected result entry size =
      let (t, a, v) =
        insert_strings_runs strings tree.init_tree
          (subst (λ u. all_new strings u ≡ true) (sym is.init) entry.fresh) in
      let same : listing (view t) ≡ expected =
        ap listing (v ∙ ap (insert_trees strings) is.init) ∙ entry.same in
      let five : length (listing (view t)) ≡ 5 = ap length same ∙ entry.five in
      let (rest, runs, long) = lists t result 5 (omega (arith, five)) (omega (arith, size)) in
      let none_left = nothing_left rest (omega (arith, long, five, size)) in
      let b : traverse t result 5 ≡ ok (5, map some expected) =
        runs
        ∙ counted-cong five (
            ap (λ xs. map some xs ++ rest) same
            ∙ ap (λ xs. map some expected ++ xs) none_left
            ∙ append-nil (map some expected)) in
      let c = is.del t in let d = entry.agrees in rw (a, b, d, c) refl

  pub test_trees_run :
      (traverse : Traversal T) (listing : Tree → List String)
      → Lists traverse (λ t. listing (view t))
      → (tests : List (List String × List String)) (result : List (Option String))
      → AllEntries listing tests
      → length result ≡ 5
      → (out : List (Option String)) × (test_trees tree traverse tests result ≡ ok out)
        × (length out ≡ 5)
  unfolding test_trees
  test_trees_run traverse listing lists [] result all size = (result, refl, size)
  test_trees_run traverse listing lists ((strings, expected) ∷ rest) result (entry, all) size =
      let a = test_tree_runs traverse listing lists strings expected result entry size in
      let (out, b, long) =
        test_trees_run traverse listing lists rest (map some expected) all
          (length-map-some expected ∙ entry.five) in
      (out, rw a b, long)
