-- ===== src/Threads/Htable/Placed.antt =====
-- The well-formed tables of threadlab/htable.c: every node stands in the chain of the slot that its
-- hash code names, and no key stands twice.
use cso18_labs.Base.{
  ℕ, zero, suc, ◌%◌, ◌+◌, ◌≡◌, ◌≤◌, ◌<◌, refl, ap, sym, subst, ◌∙◌, some, List, [], ◌∷◌, ◌++◌,
  arith, get_elem?, set, replicate, length, ◌≢◌, inl, inr, Bool-cases,
}
use cso18_labs.Base.Int.{pos}
use cso18_labs.Threads.Htable.{Node, Htable, key_eq, hashcode, search}
use cso18_labs.Threads.Htable.Totals.{is_key, is_entry, sum, sum-append, nodes, find, key_eq→eq}

-- The nodes of the chain of slot `i` in a table of `size` slots.
pub data IsHome (size i : ℕ) : List Node → Type 0 where
  home_nil : IsHome size i []
  home_cons :
      {n : Node} {c : List Node} (h : ℕ)
      → n.hashcode ≡ pos h
      → hashcode n.key ≡ pos h
      → h % size ≡ i
      → IsHome size i c
      → IsHome size i (n ∷ c)

-- The chains of the slots from `i` on.
pub data IsPlaced (size : ℕ) : ℕ → List (List Node) → Type 0 where
  placed_nil : {i : ℕ} → IsPlaced size i []
  placed_cons :
      {i : ℕ} {c : List Node} {store : List (List Node)}
      → IsHome size i c
      → IsPlaced size (suc i) store
      → IsPlaced size i (c ∷ store)

pub record IsHtable (ht : Htable) : Type 0 where
  pub nonempty : 1 ≤ ht.size
  pub slots : length ht.store ≡ ht.size
  pub placed : IsPlaced ht.size 0 ht.store
  pub unique : (q : List ℕ) → sum (is_key q) (nodes ht.store) ≤ 1

shift : {size i j : ℕ} {c : List Node} → i ≡ j → IsHome size i c → IsHome size j c
shift {size} {i} {j} {c} e h = subst (λ t. IsHome size t c) e h

pub IsHome-get :
    {size i : ℕ} {store : List (List Node)} {c : List Node}
    → IsPlaced size i store
    → (j : ℕ) → get_elem? store j ≡ some c
    → IsHome size (i + j) c
IsHome-get placed_nil j e = cc
IsHome-get {size} {i} {c = x} (placed_cons {c = d} h rest) zero e =
    let same : d ≡ x = cc in subst (λ t. IsHome size (i + 0) t) same (shift (omega arith) h)
IsHome-get (placed_cons h rest) (suc j) e = shift (omega arith) (IsHome-get rest j e)

pub IsPlaced-set :
    {size i : ℕ} {store : List (List Node)} {c : List Node}
    → IsPlaced size i store
    → (j : ℕ) → IsHome size (i + j) c
    → IsPlaced size i (set store j c)
IsPlaced-set placed_nil j new = placed_nil
IsPlaced-set (placed_cons h rest) zero new = placed_cons (shift (omega arith) new) rest
IsPlaced-set (placed_cons h rest) (suc j) new =
    placed_cons h (IsPlaced-set rest j (shift (omega arith) new))

pub IsPlaced-replicate : (size i n : ℕ) → IsPlaced size i (replicate n [])
IsPlaced-replicate size i zero = placed_nil
IsPlaced-replicate size i (suc n) = placed_cons home_nil (IsPlaced-replicate size (suc i) n)

pub IsHome-append :
    {size i : ℕ} {c d : List Node} → IsHome size i c → IsHome size i d → IsHome size i (c ++ d)
IsHome-append home_nil k = k
IsHome-append (home_cons h a b e rest) k = home_cons h a b e (IsHome-append rest k)

-- A measure that only counts nodes under the key `q`.
abbrev pub OnlyKey : List ℕ → (Node → ℕ) → Type 0
OnlyKey q f = (n : Node) → n.key ≢ q → f n ≡ 0

pub is_key-OnlyKey : (q : List ℕ) → OnlyKey q (is_key q)
is_key-OnlyKey q n differ = elim (Bool-cases (key_eq n.key q)) [
  | inl same ↦ absurd (differ (key_eq→eq n.key q same))
  | inr other ↦ ground arith
]

pub is_entry-OnlyKey : (q : List ℕ) (v : ℕ) → OnlyKey q (is_entry q v)
is_entry-OnlyKey q v n differ = elim (Bool-cases (key_eq n.key q)) [
  | inl same ↦ absurd (differ (key_eq→eq n.key q same))
  | inr other ↦ ground arith
]

module _ {size : ℕ} (q : List ℕ) (h : ℕ) (hash : hashcode q ≡ pos h) (f : Node → ℕ)
    (only : OnlyKey q f) where
  -- A chain of another slot has no node under the key.
  away : {i : ℕ} {c : List Node} → IsHome size i c → h % size ≢ i → sum f c ≡ 0
  away home_nil far = refl
  away {i} (home_cons {n} {c} g a b e rest) far =
      let differ : n.key ≢ q = λ same.
        let eq : pos g ≡ pos h = sym b ∙ ap hashcode same ∙ hash in
        let number : g ≡ h = cc in far (ap (λ t. t % size) (sym number) ∙ e) in
      omega (arith, only n differ, away rest far)

  away_all :
      {i : ℕ} {store : List (List Node)}
      → IsPlaced size i store
      → h % size < i
      → sum f (nodes store) ≡ 0
  away_all placed_nil low = refl
  away_all (placed_cons {i} {c} {store} home rest) low =
      omega
        (arith, sum-append f c (nodes store), away home (omega arith), away_all rest (omega arith))

  -- The nodes under the key are those of the key's slot.
  pub sum-home :
      {i : ℕ} {store : List (List Node)} {c : List Node}
      → IsPlaced size i store
      → (j : ℕ) → get_elem? store j ≡ some c
      → h % size ≡ i + j
      → sum f (nodes store) ≡ sum f c
  sum-home placed_nil j e at = cc
  sum-home {c = c} (placed_cons {i} {c = d} {store} home rest) zero e at =
      let same : d ≡ c = cc in
      let g : sum f d ≡ sum f c = ap (sum f) same in
      omega (arith, sum-append f d (nodes store), away_all rest (omega arith))
  sum-home (placed_cons {i} {c = d} {store} home rest) (suc j) e at = omega (
    arith,
    sum-append f d (nodes store),
    away home (omega arith),
    sum-home rest j e (omega arith),
  )

-- In a chain of well-formed nodes `search` finds what a search by the key alone finds.
pub search-find :
    {size i : ℕ} {c : List Node} (q : List ℕ) (h : ℕ)
    → IsHome size i c
    → hashcode q ≡ pos h
    → search (pos h) q c ≡ find q c
unfolding search
search-find q h home_nil hash = refl
search-find q h (home_cons {n} {c} g a b e rest) hash = elim (Bool-cases (key_eq n.key q)) [
  | inl same ↦
      let eq : pos g ≡ pos h = sym b ∙ ap hashcode (key_eq→eq n.key q same) ∙ hash in
      let number : g ≡ h = cc in rw (a, same, number) (ground arith)
  | inr other ↦ rw other (ground (arith, search-find q h rest hash))
]
