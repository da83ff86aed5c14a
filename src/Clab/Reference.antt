-- ===== src/Clab/Reference.antt =====
-- What clab/mini/part7.c documents of the tree, as a reference that is executable, and the trees that
-- keep it also where their strings fill the array.
use cso18_labs.Base.{
  ◌+◌, arith, zero, suc, ℕ, ◌≤◌, ◌≡◌, refl, Bool, true, false, Option, some, List, [], ◌∷◌, ◌++◌,
  if◌then◌else◌, length, drop, map,
}
use cso18_labs.Base.Run.{ok}
use cso18_labs.Clab.{String, comes_before, same_string, TreePackage, Traversal}

pub data Tree : Type 0 where
  leaf : Tree
  node : Tree → String → Tree → Tree

-- Values before the node's go to the left, values behind it to the right.
unfoldable pub insert_tree : String → Tree → Tree
insert_tree s leaf = node leaf s leaf
insert_tree s (node l v r) =
    if same_string s v
    then node l v r
    else if comes_before s v
    then node (insert_tree s l) v r
    else node l v (insert_tree s r)

-- Whether a search from the root finds the string.
unfoldable pub has : String → Tree → Bool
has s leaf = false
has s (node l v r) = if same_string s v then true else if comes_before s v then has s l else has s r

abbrev pub preorder_list : Tree → List String
preorder_list leaf = []
preorder_list (node l v r) = v ∷ preorder_list l ++ preorder_list r

abbrev pub inorder_list : Tree → List String
inorder_list leaf = []
inorder_list (node l v r) = inorder_list l ++ v ∷ inorder_list r

-- A traversal returns the number of its strings and leaves them in its order at the front of the
-- array, if they fit into it. Behind them the array may hold anything. The comments of part7.c
-- promise this for an array that is larger than the number of strings; here an array that they fill
-- is allowed too, as part7_harness.c passes one.
abbrev pub Lists : {T : Type 0} → Traversal T → (T → List String) → Type 0
Lists traverse strings =
    (t : _) (result : List (Option String)) (max : ℕ)
    → length (strings t) ≤ max
    → max ≤ length result
    → (rest : List (Option String)) × (traverse t result max
        ≡ ok (length (strings t), map some (strings t) ++ rest))
      × (length (strings t) + length rest ≡ length result)

-- `view` reads off the tree that a state stands for.
pub record IsTree {T : Type 0} (tree : TreePackage T) (view : T → Tree) : Type 0 where
  pub init : view tree.init_tree ≡ leaf
  pub insert :
      (t : T) (s : String)
      → (t1 : T) × (tree.insert t s ≡ ok ((if has s (view t) then 1 else 0), t1))
        × (view t1 ≡ insert_tree s (view t))
  pub preorder : Lists tree.preorder (λ t. preorder_list (view t))
  pub inorder : Lists tree.inorder (λ t. inorder_list (view t))
  pub del : (t : T) → tree.del_tree t ≡ ok tt

-- The strings at the front of the array, and what stood behind them.
abbrev written : List String → List (Option String) → List (Option String)
written strings result = map some strings ++ drop (length strings) result

length-drop :
    (n : ℕ) (xs : List (Option String)) → n ≤ length xs → n + length (drop n xs) ≡ length xs
length-drop zero xs h = omega arith
length-drop (suc n) [] h = absurd (omega arith)
length-drop (suc n) (x ∷ xs) h = let e = length-drop n xs (omega arith) in omega (arith, e)

le_both : {a b c : ℕ} → a ≤ b → b ≤ c → a ≤ c
le_both h k = omega arith

abbrev pub reference : TreePackage Tree
reference = record {
  init_tree = leaf;
  insert = λ t s. ok ((if has s t then 1 else 0), insert_tree s t);
  preorder = λ t result max. ok (length (preorder_list t), written (preorder_list t) result);
  inorder = λ t result max. ok (length (inorder_list t), written (inorder_list t) result);
  del_tree = λ t. ok tt;
}

pub reference-IsTree : IsTree reference (λ t. t)
reference-IsTree = record {
  init = refl;
  insert = λ t s. (insert_tree s t, refl, refl);
  preorder = λ t result max h k. (
    drop (length (preorder_list t)) result,
    refl,
    length-drop (length (preorder_list t)) result (le_both h k),
  );
  inorder = λ t result max h k. (
    drop (length (inorder_list t)) result,
    refl,
    length-drop (length (inorder_list t)) result (le_both h k),
  );
  del = λ t. refl;
}
