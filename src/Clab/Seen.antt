-- ===== src/Clab/Seen.antt =====
-- The array `seen_before` of clab/mini/part7_harness.c and the strings of the tree.
use cso18_labs.Base.{
  ℕ, ◌≤◌, ◌≡◌, refl, sym, ap, ◌∙◌, Bool, true, false, ◌==◌, some, List, if◌then◌else◌, length,
  get_elem?, set, replicate, get_elem?-set, length-set, get_elem?-replicate, length-replicate,
  arith, Bool-cases, inl, inr,
}
use cso18_labs.Clab.{String, same_string, comes_before, atoi}
use cso18_labs.Clab.Order.{same_string_refl, same_string→≡}
use cso18_labs.Clab.Reference.{Tree, leaf, node, insert_tree, has}
use cso18_labs.Clab.Numbers.{IsThree, atoi_bounds, atoi-injective}

==→≡ : (a b : ℕ) → (a == b) ≡ true → a ≡ b
==→≡ a b h = ground arith

has-insert_tree : (s : String) (t : Tree) → has s (insert_tree s t) ≡ true
unfolding has insert_tree
has-insert_tree s leaf = rw (same_string_refl s) refl
has-insert_tree s (node l v r) = elim (Bool-cases (same_string s v)) [
  | inl same ↦ rw (same, same) refl
  | inr different ↦ elim (Bool-cases (comes_before s v)) [
    | inl less ↦ rw (different, less, different, less) (has-insert_tree s l)
    | inr more ↦ rw (different, more, different, more) (has-insert_tree s r)
  ]
]

if-congruence :
    (b c : Bool) {y z w u : Bool}
    → y ≡ z
    → w ≡ u
    → (if b then true else if c then y else w) ≡ (if b then true else if c then z else u)
if-congruence true c e f = refl
if-congruence false true e f = e
if-congruence false false e f = f

if-same : (b : Bool) → (if b then false else false) ≡ false
if-same true = refl
if-same false = refl

has_other : (u s : String) (t : Tree) → same_string u s ≡ false → has u (insert_tree s t) ≡ has u t
unfolding has insert_tree
has_other u s leaf h = rw h (if-same (comes_before u s))
has_other u s (node l v r) h = elim (Bool-cases (same_string s v)) [
  | inl same ↦ rw same refl
  | inr different ↦ elim (Bool-cases (comes_before s v)) [
    | inl less ↦
        rw (different, less)
          (if-congruence (same_string u v) (comes_before u v) (has_other u s l h) refl)
    | inr more ↦
        rw (different, more)
          (if-congruence (same_string u v) (comes_before u v) refl (has_other u s r h))
  ]
]

-- `seen_before` records which strings of three digits the tree has.
pub record IsSeen (seen : List Bool) (t : Tree) : Type 0 where
  pub long : 1000 ≤ length seen
  pub flags : (s : String) → IsThree s → get_elem? seen (atoi s) ≡ some (has s t)

pub IsSeen-old :
    (seen : List Bool) (s : String) (t : Tree)
    → IsThree s
    → IsSeen seen t
    → has s t ≡ true
    → IsSeen seen (insert_tree s t)
IsSeen-old seen s t three is old = record {
  long = is.long;
  flags = λ u h.
      is.flags u h
      ∙ ap some (elim (Bool-cases (same_string u s)) [
        | inr different ↦ sym (has_other u s t different)
        | inl same ↦
            let e = same_string→≡ u s same in
            ap (λ v. has v t) e
            ∙ old
            ∙ sym (ap (λ v. has v (insert_tree s t)) e ∙ has-insert_tree s t)
      ]);
}

different_numbers : (u s : String) → (atoi s == atoi u) ≡ false → same_string u s ≡ false
different_numbers u s apart = elim (Bool-cases (same_string u s)) [
  | inr different ↦ different
  | inl same ↦
      let e : atoi u ≡ atoi s = ap atoi (same_string→≡ u s same) in
      absurd (ground (arith, e, apart))
]

pub IsSeen-new :
    (seen : List Bool) (s : String) (t : Tree)
    → IsThree s
    → IsSeen seen t
    → IsSeen (set seen (atoi s) true) (insert_tree s t)
IsSeen-new seen s t three is =
    let (low, high) = atoi_bounds s three in
    let size = length-set seen (atoi s) true in
    let long = is.long in
    record {
      long = omega (arith, size, long);
      flags = λ u h.
          get_elem?-set seen (atoi s) (atoi u) true (omega (arith, high, long))
          ∙ elim (Bool-cases (atoi s == atoi u)) [
            | inl equal ↦
                let e = atoi-injective s u three h (==→≡ (atoi s) (atoi u) equal) in
                rw equal
                  (ap some (sym (ap (λ v. has v (insert_tree s t)) (sym e) ∙ has-insert_tree s t)))
            | inr apart ↦
                rw apart
                  (is.flags u h ∙ ap some (sym (has_other u s t (different_numbers u s apart))))
          ];
    }

pub nothing-IsSeen : (num : ℕ) → 1000 ≤ num → IsSeen (replicate num false) leaf
unfolding has
nothing-IsSeen num h = record {
  long = let e = length-replicate num false in omega (arith, e, h);
  flags = λ s three.
      let (low, high) = atoi_bounds s three in
      get_elem?-replicate num (atoi s) false (omega (arith, high, h));
}
