-- ===== src/Clab/Inorder.antt =====
-- The sorted list without duplicates that clab/mini/part7_harness.c makes is what an inorder
-- traversal of the tree gives.
use cso18_labs.Base.{
  suc, ◌+◌, ◌≤◌, length, ◌≡◌, refl, sym, ap, ◌∙◌, subst, true, none, List, [], ◌∷◌, ◌++◌, arith,
  Bool-cases, inl, inr,
}
use cso18_labs.Clab.{String, comes_before, same_string, insert_sorted, sort_onto, qsort, nodup_from}
use cso18_labs.Clab.Order.{
  same_string→≡, comes_before_trans, comes_before-IsBehind, comes_before_total,
}
use cso18_labs.Clab.Reference.{Tree, leaf, node, insert_tree, inorder_list}
use cso18_labs.Clab.Tables.{insert_trees}
use cso18_labs.Clab.Nodup.{put, put_behind, put_before, put_equal, nodup-insert_sorted}

-- All strings of the list come before `v`.
abbrev AllBefore : String → List String → Type 0
AllBefore v [] = Unit
AllBefore v (x ∷ xs) = (comes_before x v ≡ true) × AllBefore v xs

-- What stands left of a node comes before its value.
abbrev pub IsOrdered : Tree → Type 0
IsOrdered leaf = Unit
IsOrdered (node l v r) = AllBefore v (inorder_list l) × (IsOrdered l × IsOrdered r)

put_left :
    (s v : String) (xs ys : List String)
    → comes_before s v ≡ true
    → put s (xs ++ v ∷ ys) ≡ put s xs ++ v ∷ ys
unfolding put
put_left s v [] ys h = put_before s v ys h
put_left s v (x ∷ xs) ys h = elim (Bool-cases (same_string s x)) [
  | inl same ↦ rw same refl
  | inr different ↦ elim (Bool-cases (comes_before s x)) [
    | inl before ↦ rw (different, before) refl
    | inr behind ↦ rw (different, behind) (ap (◌∷◌ x) (put_left s v xs ys h))
  ]
]

put_right :
    (s v : String) (xs ys : List String)
    → AllBefore s xs
    → put s (xs ++ v ∷ ys) ≡ xs ++ put s (v ∷ ys)
put_right s v [] ys h = refl
put_right s v (x ∷ xs) ys (before, h) =
    put_behind s x (xs ++ v ∷ ys) (comes_before-IsBehind x s before)
    ∙ ap (◌∷◌ x) (put_right s v xs ys h)

AllBefore-trans :
    (v s : String) (xs : List String) → AllBefore v xs → comes_before v s ≡ true → AllBefore s xs
AllBefore-trans v s [] h k = tt
AllBefore-trans v s (x ∷ xs) (before, h) k =
    (comes_before_trans x v s before k, AllBefore-trans v s xs h k)

AllBefore-put :
    (v s : String) (xs : List String)
    → AllBefore v xs
    → comes_before s v ≡ true
    → AllBefore v (put s xs)
unfolding put
AllBefore-put v s [] h k = (k, tt)
AllBefore-put v s (x ∷ xs) (before, h) k = elim (Bool-cases (same_string s x)) [
  | inl same ↦ rw same (before, h)
  | inr different ↦ elim (Bool-cases (comes_before s x)) [
    | inl less ↦ rw (different, less) (k, (before, h))
    | inr more ↦ rw (different, more) (before, AllBefore-put v s xs h k)
  ]
]

inorder-insert_tree :
    (s : String) (t : Tree)
    → IsOrdered t
    → (inorder_list (insert_tree s t) ≡ put s (inorder_list t)) × IsOrdered (insert_tree s t)
unfolding insert_tree
inorder-insert_tree s leaf o = (unfold put in refl, (tt, (tt, tt)))
inorder-insert_tree s (node l v r) (before, (a, b)) = elim (Bool-cases (same_string s v)) [
  | inl same ↦
      let all = subst (λ u. AllBefore u (inorder_list l)) (sym (same_string→≡ s v same)) before in
      rw same (
        sym (
            put_right s v (inorder_list l) (inorder_list r) all
            ∙ ap (λ ys. inorder_list l ++ ys) (put_equal s v (inorder_list r) same)),
        (before, (a, b)),
      )
  | inr different ↦ elim (Bool-cases (comes_before s v)) [
    | inl less ↦
        let (e, o) = inorder-insert_tree s l a in
        let all = subst (AllBefore v) (sym e) (AllBefore-put v s (inorder_list l) before less) in
        rw (different, less)
          (
            ap (λ xs. xs ++ v ∷ inorder_list r) e
                ∙ sym (put_left s v (inorder_list l) (inorder_list r) less),
            (all, (o, b)),
          )
    | inr more ↦
        let (e, o) = inorder-insert_tree s r b in
        let behind = comes_before_total s v different more in
        let all = AllBefore-trans v s (inorder_list l) before behind in
        rw (different, more)
          (
            ap (λ ys. inorder_list l ++ v ∷ ys) e
                ∙ sym (
                    put_right s v (inorder_list l) (inorder_list r) all
                    ∙ ap (λ ys. inorder_list l ++ ys)
                        (put_behind s v (inorder_list r) (comes_before-IsBehind v s behind))),
            (before, (a, o)),
          )
  ]
]

nodup-sort_onto :
    (sorted ss : List String) (t : Tree)
    → nodup_from none sorted ≡ inorder_list t
    → IsOrdered t
    → nodup_from none (sort_onto sorted ss) ≡ inorder_list (insert_trees ss t)
unfolding sort_onto
nodup-sort_onto sorted [] t e o = e
nodup-sort_onto sorted (s ∷ ss) t e o =
    let (f, p) = inorder-insert_tree s t o in
    nodup-sort_onto (insert_sorted s sorted) ss (insert_tree s t)
      (nodup-insert_sorted none s sorted tt ∙ ap (put s) e ∙ sym f) p

-- The sorted strings without duplicates are the inorder traversal of the tree that the strings
-- give.
pub nodup-qsort :
    (ss : List String) → nodup_from none (qsort ss) ≡ inorder_list (insert_trees ss leaf)
unfolding nodup_from
nodup-qsort ss = nodup-sort_onto [] ss leaf refl tt

length-put : (s : String) (xs : List String) → length (put s xs) ≤ suc (length xs)
unfolding put
length-put s [] = omega arith
length-put s (x ∷ xs) = elim (Bool-cases (same_string s x)) [
  | inl same ↦ rw same (omega arith)
  | inr different ↦ elim (Bool-cases (comes_before s x)) [
    | inl less ↦ rw (different, less) (omega arith)
    | inr more ↦ let h = length-put s xs in rw (different, more) (omega (arith, h))
  ]
]

pub length-inorder_list :
    (ss : List String) (t : Tree)
    → IsOrdered t
    → length (inorder_list (insert_trees ss t)) ≤ length (inorder_list t) + length ss
length-inorder_list [] t o = omega arith
length-inorder_list (s ∷ ss) t o =
    let (e, p) = inorder-insert_tree s t o in
    let size = ap length e in
    let one = length-put s (inorder_list t) in
    let rest = length-inorder_list ss (insert_tree s t) p in omega (arith, size, one, rest)
