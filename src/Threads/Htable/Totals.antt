-- ===== src/Threads/Htable/Totals.antt =====
-- Sums over the nodes of a table of threadlab/htable.c: the number of nodes under a key, and with a
-- value.
use cso18_labs.Base.{
  ℕ, zero, suc, ◌+◌, ◌≡◌, ◌≤◌, refl, ap, sym, ◌∙◌, true, Option, none, some, List, [], ◌∷◌, ◌++◌,
  arith, ◌==◌, if◌then◌else◌, get_elem?, set, replicate, ◌≢◌, inl, inr, Bool-cases, Option-cases,
}
use native.Mathlib.Decide.{ℕ_discrete}
use cso18_labs.Threads.Htable.{Node, key_eq}

pub key_eq_refl : (k : List ℕ) → key_eq k k ≡ true
key_eq_refl [] = refl
key_eq_refl (a ∷ k) = ground (arith, key_eq_refl k)

pub key_eq→eq : (k q : List ℕ) → key_eq k q ≡ true → k ≡ q
key_eq→eq [] [] h = refl
key_eq→eq [] (_ ∷ _) h = cc
key_eq→eq (_ ∷ _) [] h = cc
key_eq→eq (a ∷ k) (b ∷ q) h = elim (Bool-cases (a == b)) [
  | inl same ↦
      let e : a ≡ b = ground arith in
      let rest : key_eq k q ≡ true = ground arith in
      ap (λ t. t ∷ k) e ∙ ap (λ t. b ∷ t) (key_eq→eq k q rest)
  | inr differ ↦ absurd (ground arith)
]

abbrev pub is_key : List ℕ → Node → ℕ
is_key q n = if key_eq n.key q then 1 else 0

abbrev pub is_entry : List ℕ → ℕ → Node → ℕ
is_entry q v n = if key_eq n.key q then (if n.val == v then 1 else 0) else 0

abbrev pub sum : (Node → ℕ) → List Node → ℕ
sum f [] = 0
sum f (n ∷ c) = f n + sum f c

pub sum-append : (f : Node → ℕ) (c d : List Node) → sum f (c ++ d) ≡ sum f c + sum f d
sum-append f [] d = omega arith
sum-append f (n ∷ c) d = omega (arith, sum-append f c d)

-- The nodes of an array of chains.
abbrev pub nodes : List (List Node) → List Node
nodes [] = []
nodes (c ∷ store) = c ++ nodes store

-- Writing one slot changes the sum by the difference of the two chains.
pub sum-set :
    (f : Node → ℕ) (store : List (List Node)) (i : ℕ) (c d : List Node)
    → get_elem? store i ≡ some c
    → sum f (nodes (set store i d)) + sum f c ≡ sum f (nodes store) + sum f d
sum-set f [] i c d h = cc
sum-set f (x ∷ store) zero c d h =
    let e : x ≡ c = cc in
    let a = sum-append f d (nodes store) in
    let b = sum-append f x (nodes store) in let g : sum f x ≡ sum f c = ap (sum f) e in omega arith
sum-set f (x ∷ store) (suc i) c d h =
    let a = sum-append f x (nodes (set store i d)) in
    let b = sum-append f x (nodes store) in omega (arith, sum-set f store i c d h)

pub sum-replicate : (f : Node → ℕ) (n : ℕ) → sum f (nodes (replicate n [])) ≡ 0
sum-replicate f zero = refl
sum-replicate f (suc n) = sum-replicate f n

-- The first value under a key.
abbrev pub find : List ℕ → List Node → Option ℕ
find q [] = none
find q (n ∷ c) = if key_eq n.key q then some n.val else find q c

pub find-none : (q : List ℕ) (c : List Node) → find q c ≡ none → sum (is_key q) c ≡ 0
find-none q [] h = refl
find-none q (n ∷ c) h = elim (Bool-cases (key_eq n.key q)) [
  | inl here ↦ absurd (ground arith)
  | inr other ↦ let rest : find q c ≡ none = ground arith in ground (arith, find-none q c rest)
]

pub find-some : (q : List ℕ) (v : ℕ) (c : List Node) → find q c ≡ some v → 1 ≤ sum (is_entry q v) c
find-some q v [] h = cc
find-some q v (n ∷ c) h = elim (Bool-cases (key_eq n.key q)) [
  | inl here ↦ let e : n.val ≡ v = ground arith in ground arith
  | inr other ↦ let rest : find q c ≡ some v = ground arith in ground (arith, find-some q v c rest)
]

pub entry-key : (q : List ℕ) (v : ℕ) (c : List Node) → sum (is_entry q v) c ≤ sum (is_key q) c
entry-key q v [] = omega arith
entry-key q v (n ∷ c) = ground (arith, entry-key q v c)

two_entries :
    (q : List ℕ) (v w : ℕ) (c : List Node)
    → v ≢ w
    → sum (is_entry q v) c + sum (is_entry q w) c ≤ sum (is_key q) c
two_entries q v w [] differ = omega arith
two_entries q v w (n ∷ c) differ = let rest = two_entries q v w c differ in ground arith

-- Where a key is under one node at most, `find` gives the value that is stored.
pub find_iff :
    (q : List ℕ) (v : ℕ) (c : List Node)
    → sum (is_key q) c ≤ 1
    → 1 ≤ sum (is_entry q v) c
    → find q c ≡ some v
find_iff q v c once there = elim (Option-cases (find q c)) [
  | inl missing ↦ absurd (omega (arith, find-none q c missing, entry-key q v c))
  | inr (w, found) ↦ elim (ℕ_discrete v w) [
    | yes e ↦ rw e found
    | no differ ↦ absurd (omega (arith, find-some q w c found, two_entries q v w c differ))
  ]
]

-- Two lists of nodes with the same entries, each under distinct keys, give the same values.
pub find_ext :
    (q : List ℕ) (c d : List Node)
    → sum (is_key q) c ≤ 1
    → sum (is_key q) d ≡ sum (is_key q) c
    → ((v : ℕ) → sum (is_entry q v) d ≡ sum (is_entry q v) c)
    → find q d ≡ find q c
find_ext q c d once same entries = elim (Option-cases (find q c)) [
  | inl missing ↦ elim (Option-cases (find q d)) [
    | inl absent ↦ absent ∙ sym missing
    | inr (w, found) ↦
        absurd (omega (arith, find-none q c missing, find-some q w d found, entry-key q w d))
  ]
  | inr (w, found) ↦
      let there = find-some q w c found in
      find_iff q w d (omega arith) (omega (arith, entries w)) ∙ sym found
]
