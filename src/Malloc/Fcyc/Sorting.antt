-- ===== src/Malloc/Fcyc/Sorting.antt =====
-- Ascending lists of numbers, and what a loop over an array does at the place behind a prefix.
use cso18_labs.Base.{
  ℕ, zero, suc, ◌≤◌, ◌<◌, ◌≡◌, refl, ap, List, [], ◌∷◌, ◌++◌, ltb, if◌then◌else◌, take, length,
  arith, Bool-cases, inl, inr, lt→ltb, le→ltb, ltb→lt, ltb→le,
}

abbrev pub AllAbove : ℕ → List ℕ → Type 0
AllAbove v [] = Unit
AllAbove v (x ∷ xs) = (v ≤ x) × AllAbove v xs

abbrev pub AllBelow : ℕ → List ℕ → Type 0
AllBelow v [] = Unit
AllBelow v (x ∷ xs) = (x ≤ v) × AllBelow v xs

abbrev pub IsSorted : List ℕ → Type 0
IsSorted [] = Unit
IsSorted (x ∷ xs) = AllAbove x xs × IsSorted xs

-- Behind all that are not larger.
unfoldable pub ordered_insert : ℕ → List ℕ → List ℕ
ordered_insert v [] = v ∷ []
ordered_insert v (x ∷ xs) = if ltb v x then v ∷ x ∷ xs else x ∷ ordered_insert v xs

-- The reference: the list sorted, the last element inserted last.
unfoldable pub sort : List ℕ → List ℕ
sort [] = []
sort (x ∷ xs) = ordered_insert x (sort xs)

AllAbove-trans : {a b : ℕ} → a ≤ b → (xs : List ℕ) → AllAbove b xs → AllAbove a xs
AllAbove-trans h [] all = tt
AllAbove-trans h (x ∷ xs) (low, all) = (omega arith, AllAbove-trans h xs all)

AllAbove-ordered_insert :
    (a v : ℕ) (xs : List ℕ) → a ≤ v → AllAbove a xs → AllAbove a (ordered_insert v xs)
unfolding ordered_insert
AllAbove-ordered_insert a v [] h all = (h, tt)
AllAbove-ordered_insert a v (x ∷ xs) h (low, all) = elim (Bool-cases (ltb v x)) [
  | inl less ↦ rw less (h, (low, all))
  | inr more ↦ rw more (low, AllAbove-ordered_insert a v xs h all)
]

pub ordered_insert-IsSorted : (v : ℕ) (xs : List ℕ) → IsSorted xs → IsSorted (ordered_insert v xs)
unfolding ordered_insert
ordered_insert-IsSorted v [] s = (tt, tt)
ordered_insert-IsSorted v (x ∷ xs) (low, s) = elim (Bool-cases (ltb v x)) [
  | inl less ↦
      let h = ltb→lt v x less in
      rw less ((omega arith, AllAbove-trans {a = v} {b = x} (omega arith) xs low), (low, s))
  | inr more ↦
      let h = ltb→le v x more in
      rw more (AllAbove-ordered_insert x v xs h low, ordered_insert-IsSorted v xs s)
]

pub sort-IsSorted : (xs : List ℕ) → IsSorted (sort xs)
unfolding sort
sort-IsSorted [] = tt
sort-IsSorted (x ∷ xs) = ordered_insert-IsSorted x (sort xs) (sort-IsSorted xs)

AllAbove-take : (a n : ℕ) (xs : List ℕ) → AllAbove a xs → AllAbove a (take n xs)
AllAbove-take a zero xs all = tt
AllAbove-take a (suc n) [] all = tt
AllAbove-take a (suc n) (x ∷ xs) (low, all) = (low, AllAbove-take a n xs all)

pub take-IsSorted : (n : ℕ) (xs : List ℕ) → IsSorted xs → IsSorted (take n xs)
take-IsSorted zero xs s = tt
take-IsSorted (suc n) [] s = tt
take-IsSorted (suc n) (x ∷ xs) (low, s) = (AllAbove-take x n xs low, take-IsSorted n xs s)

AllAbove-last : (x a : ℕ) (xs : List ℕ) → AllAbove x (xs ++ a ∷ []) → x ≤ a
AllAbove-last x a [] (h, _) = h
AllAbove-last x a (y ∷ xs) (_, all) = AllAbove-last x a xs all

AllAbove-init : (x a : ℕ) (xs : List ℕ) → AllAbove x (xs ++ a ∷ []) → AllAbove x xs
AllAbove-init x a [] all = tt
AllAbove-init x a (y ∷ xs) (h, all) = (h, AllAbove-init x a xs all)

-- All elements of a sorted list are at most the last.
pub IsSorted-last : (a : ℕ) (xs : List ℕ) → IsSorted (xs ++ a ∷ []) → AllBelow a xs × IsSorted xs
IsSorted-last a [] s = (tt, tt)
IsSorted-last a (x ∷ xs) (low, s) =
    let (below, rest) = IsSorted-last a xs s in
    ((AllAbove-last x a xs low, below), (AllAbove-init x a xs low, rest))

-- Where the new value goes: behind the last element, or in front of it.
pub ordered_insert_behind :
    (v : ℕ) (xs : List ℕ) → AllBelow v xs → ordered_insert v xs ≡ xs ++ v ∷ []
unfolding ordered_insert
ordered_insert_behind v [] all = refl
ordered_insert_behind v (x ∷ xs) (h, all) =
    let e = le→ltb v x h in rw e (ap (◌∷◌ x) (ordered_insert_behind v xs all))

pub ordered_insert_before :
    (v a : ℕ) (xs : List ℕ)
    → v < a
    → ordered_insert v (xs ++ a ∷ []) ≡ ordered_insert v xs ++ a ∷ []
unfolding ordered_insert
ordered_insert_before v a [] h = let e = lt→ltb v a h in rw e refl
ordered_insert_before v a (x ∷ xs) h = elim (Bool-cases (ltb v x)) [
  | inl less ↦ rw less refl
  | inr more ↦ rw more (ap (◌∷◌ x) (ordered_insert_before v a xs h))
]

AllBelow-trans : {a b : ℕ} → a ≤ b → (xs : List ℕ) → AllBelow a xs → AllBelow b xs
AllBelow-trans h [] all = tt
AllBelow-trans h (x ∷ xs) (low, all) = (omega arith, AllBelow-trans h xs all)

pub AllBelow-snoc : {a v : ℕ} (xs : List ℕ) → a ≤ v → AllBelow a xs → AllBelow v (xs ++ a ∷ [])
AllBelow-snoc [] h all = (h, tt)
AllBelow-snoc {a} {v} (x ∷ xs) h (low, all) = (omega arith, AllBelow-snoc xs h all)

pub length-ordered_insert : (v : ℕ) (xs : List ℕ) → length (ordered_insert v xs) ≡ suc (length xs)
unfolding ordered_insert
length-ordered_insert v [] = refl
length-ordered_insert v (x ∷ xs) = elim (Bool-cases (ltb v x)) [
  | inl less ↦ rw less refl
  | inr more ↦ rw more (ap suc (length-ordered_insert v xs))
]

take-take-suc : (n : ℕ) (xs : List ℕ) → take n (take (suc n) xs) ≡ take n xs
take-take-suc zero xs = refl
take-take-suc (suc n) [] = refl
take-take-suc (suc n) (x ∷ xs) = ap (◌∷◌ x) (take-take-suc n xs)

take-cons : (n x : ℕ) (xs : List ℕ) → take n (x ∷ take n xs) ≡ take n (x ∷ xs)
take-cons zero x xs = refl
take-cons (suc n) x xs = ap (◌∷◌ x) (take-take-suc n xs)

-- Only the first `n` elements matter for the first `n`.
pub take-ordered_insert :
    (n v : ℕ) (xs : List ℕ) → take n (ordered_insert v (take n xs)) ≡ take n (ordered_insert v xs)
unfolding ordered_insert
take-ordered_insert zero v xs = refl
take-ordered_insert (suc n) v [] = refl
take-ordered_insert (suc n) v (x ∷ xs) = elim (Bool-cases (ltb v x)) [
  | inl less ↦ rw less (ap (◌∷◌ v) (take-cons n x xs))
  | inr more ↦ rw more (ap (◌∷◌ x) (take-ordered_insert n v xs))
]
