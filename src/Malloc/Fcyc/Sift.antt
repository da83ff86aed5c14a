-- ===== src/Malloc/Fcyc/Sift.antt =====
-- The insertion sort of `add_sample` in malloclab/fcyc.c against the ordered insertion.
use cso18_labs.Base.{
  ℕ, zero, suc, ◌≡◌, refl, sym, ap, ◌∙◌, subst, some, List, [], ◌∷◌, ◌++◌, ltb, get_elem?, set,
  get_elem?_behind, length, append_assoc, arith, Bool-cases, inl, inr, ltb→lt, ltb→le,
}
use cso18_labs.Base.Run.{ok}
use cso18_labs.Malloc.Fcyc.{read_value, sift}
use cso18_labs.Malloc.Fcyc.Sorting.{
  AllBelow, IsSorted, ordered_insert, IsSorted-last, ordered_insert_behind, ordered_insert_before,
  AllBelow-snoc,
}

pub set_behind :
    (xs : List ℕ) (y z : ℕ) (ys : List ℕ) → set (xs ++ y ∷ ys) (length xs) z ≡ xs ++ z ∷ ys
set_behind [] y z ys = refl
set_behind (x ∷ xs) y z ys = ap (◌∷◌ x) (set_behind xs y z ys)

-- The same with the place behind a prefix of one more element.
get_elem?_second :
    (xs : List ℕ) (y z : ℕ) (ys : List ℕ) → get_elem? (xs ++ y ∷ z ∷ ys) (suc (length xs)) ≡ some z
get_elem?_second [] y z ys = refl
get_elem?_second (x ∷ xs) y z ys = get_elem?_second xs y z ys

set_second :
    (xs : List ℕ) (y z w : ℕ) (ys : List ℕ)
    → set (xs ++ y ∷ z ∷ ys) (suc (length xs)) w ≡ xs ++ y ∷ w ∷ ys
set_second [] y z w ys = refl
set_second (x ∷ xs) y z w ys = ap (◌∷◌ x) (set_second xs y z w ys)

pub read_value-some :
    (xs : List ℕ) (i : ℕ) {v : ℕ} → get_elem? xs i ≡ some v → read_value xs i ≡ ok v
unfolding read_value
read_value-some xs i h = rw (h, read_value) refl

pub last_element :
    (n : ℕ) (xs : List ℕ)
    → length xs ≡ suc n
    → (ys : List ℕ) × (a : ℕ) × (xs ≡ ys ++ a ∷ []) × (length ys ≡ n)
last_element n [] h = absurd (omega arith)
last_element zero (x ∷ []) h = ([], x, refl, refl)
last_element zero (x ∷ y ∷ xs) h = absurd (omega arith)
last_element (suc n) (x ∷ xs) h =
    let (ys, a, e, l) = last_element n xs (omega arith) in (x ∷ ys, a, ap (◌∷◌ x) e, ap suc l)

-- One round: the value stands behind `init` and `a`.
sift_step :
    (n : ℕ) (init : List ℕ) (a v : ℕ) (ys : List ℕ)
    → length init ≡ n
    → AllBelow a init
    → sift n (init ++ v ∷ a ∷ ys) ≡ ok (ordered_insert v init ++ a ∷ ys)
    → sift (suc n) (init ++ a ∷ v ∷ ys) ≡ ok (ordered_insert v (init ++ a ∷ []) ++ ys)
unfolding sift
sift_step n init a v ys l below rest =
    let at =
      subst (λ k. get_elem? (init ++ a ∷ v ∷ ys) k ≡ some a) l (get_elem?_behind init a (v ∷ ys)) in
    let next =
      subst (λ k. get_elem? (init ++ a ∷ v ∷ ys) (suc k) ≡ some v) l
        (get_elem?_second init a v ys) in
    let r1 = read_value-some (init ++ a ∷ v ∷ ys) n at in
    let r2 = read_value-some (init ++ a ∷ v ∷ ys) (suc n) next in
    let w1 =
      subst (λ k. set (init ++ a ∷ v ∷ ys) k v ≡ init ++ v ∷ v ∷ ys) l
        (set_behind init a v (v ∷ ys)) in
    let w2 =
      subst (λ k. set (init ++ v ∷ v ∷ ys) (suc k) a ≡ init ++ v ∷ a ∷ ys) l
        (set_second init v v a ys) in
    elim (Bool-cases (ltb v a)) [
      | inl less ↦
          let e = ordered_insert_before v a init (ltb→lt v a less) in
          let f = append_assoc (ordered_insert v init) (a ∷ []) ys in
          rw (r1, r2, less, w1, w2) (rest ∙ ap ok (sym (ap (λ zs. zs ++ ys) e ∙ f)))
      | inr more ↦
          let all = AllBelow-snoc init (ltb→le v a more) below in
          let e = ordered_insert_behind v (init ++ a ∷ []) all in
          rw (r1, r2, more)
            (ap ok (
              sym (
                ap (λ zs. zs ++ ys) e
                ∙ append_assoc (init ++ a ∷ []) (v ∷ []) ys
                ∙ append_assoc init (a ∷ []) (v ∷ ys))))
    ]

-- The loop moves the value behind a sorted prefix to its place in it.
pub sift_lem :
    (n : ℕ) (xs : List ℕ) (v : ℕ) (ys : List ℕ)
    → length xs ≡ n
    → IsSorted xs
    → sift n (xs ++ v ∷ ys) ≡ ok (ordered_insert v xs ++ ys)
unfolding sift
sift_lem zero [] v ys h s = unfold ordered_insert in refl
sift_lem zero (x ∷ xs) v ys h s = absurd (omega arith)
sift_lem (suc n) xs v ys h s =
    let (init, a, e, l) = last_element n xs h in
    let sorted : IsSorted (init ++ a ∷ []) = subst IsSorted e s in
    let (below, s_init) = IsSorted-last a init sorted in
    let goal = sift_step n init a v ys l below (sift_lem n init v (a ∷ ys) l s_init) in
    subst (λ zs. sift (suc n) (zs ++ v ∷ ys) ≡ ok (ordered_insert v zs ++ ys)) (sym e)
      (ap (sift (suc n)) (append_assoc init (a ∷ []) (v ∷ ys)) ∙ goal)
