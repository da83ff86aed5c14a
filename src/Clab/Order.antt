-- ===== src/Clab/Order.antt =====
-- `strcmp` as clab/mini/part7_harness.c uses it is a total order of the strings.
use cso18_labs.Base.{
  ℕ, ◌<◌, ◌≡◌, refl, ap, ◌∙◌, Bool, true, false, ◌&&◌, [], ◌∷◌, ltb, ◌==◌, if◌then◌else◌, arith,
  ◌⊎◌, inl, inr,
}
use cso18_labs.Clab.{String, comes_before, same_string}

pub same_string_refl : (s : String) → same_string s s ≡ true
same_string_refl [] = refl
same_string_refl (c ∷ s) = let e : (c == c) ≡ true = ground arith in rw (e, same_string_refl s) refl

equal_heads : (c d : ℕ) (b : Bool) → (c == d && b) ≡ true → (c ≡ d) × (b ≡ true)
equal_heads c d b h = ground arith

pub same_string→≡ : (s t : String) → same_string s t ≡ true → s ≡ t
same_string→≡ [] [] h = refl
same_string→≡ [] (d ∷ t) h = absurd (ground arith)
same_string→≡ (c ∷ s) [] h = absurd (ground arith)
same_string→≡ (c ∷ s) (d ∷ t) h =
    let (a, b) = equal_heads c d (same_string s t) h in
    ap (λ e. e ∷ s) a ∙ ap (◌∷◌ d) (same_string→≡ s t b)

-- How a string comes before another.
before_cases :
    (c d : ℕ) (b : Bool) → (if c == d then b else ltb c d) ≡ true → ((c ≡ d) × (b ≡ true)) ⊎ (c < d)
before_cases c d b h = ground arith

before_head : (c d : ℕ) (b : Bool) → c < d → (if c == d then b else ltb c d) ≡ true
before_head c d b h = ground arith

before_tail : (c d : ℕ) (b : Bool) → c ≡ d → b ≡ true → (if c == d then b else ltb c d) ≡ true
before_tail c d b e h = ground arith

pub comes_before_trans :
    (s t u : String) → comes_before s t ≡ true → comes_before t u ≡ true → comes_before s u ≡ true
comes_before_trans s [] u h k = absurd (ground arith)
comes_before_trans s (d ∷ t) [] h k = absurd (ground arith)
comes_before_trans [] (d ∷ t) (e ∷ u) h k = refl
comes_before_trans (c ∷ s) (d ∷ t) (e ∷ u) h k = elim (before_cases c d (comes_before s t) h) [
  | inl (a, p) ↦ elim (before_cases d e (comes_before t u) k) [
    | inl (b, q) ↦ before_tail c e (comes_before s u) (a ∙ b) (comes_before_trans s t u p q)
    | inr b ↦ before_head c e (comes_before s u) (omega (arith, a, b))
  ]
  | inr a ↦ elim (before_cases d e (comes_before t u) k) [
    | inl (b, q) ↦ before_head c e (comes_before s u) (omega (arith, a, b))
    | inr b ↦ before_head c e (comes_before s u) (omega (arith, a, b))
  ]
]

-- `s` is behind `x`.
pub record IsBehind (s x : String) : Type 0 where
  pub different : same_string s x ≡ false
  pub later : comes_before s x ≡ false

behind_head :
    (c d : ℕ) (a b : Bool)
    → c < d
    → ((d == c && a) ≡ false) × ((if d == c then b else ltb d c) ≡ false)
behind_head c d a b h = ground arith

behind_tail :
    (c d : ℕ) (a b : Bool)
    → c ≡ d
    → a ≡ false
    → b ≡ false
    → ((d == c && a) ≡ false) × ((if d == c then b else ltb d c) ≡ false)
behind_tail c d a b e h k = ground arith

pub comes_before-IsBehind : (x s : String) → comes_before x s ≡ true → IsBehind s x
comes_before-IsBehind x [] h = absurd (ground arith)
comes_before-IsBehind [] (d ∷ s) h = record { different = refl; later = refl }
comes_before-IsBehind (c ∷ x) (d ∷ s) h = elim (before_cases c d (comes_before x s) h) [
  | inl (a, p) ↦
      let rest = comes_before-IsBehind x s p in
      let (f, g) =
        behind_tail c d (same_string s x) (comes_before s x) a rest.different rest.later in
      record { different = f; later = g }
  | inr less ↦
      let (a, b) = behind_head c d (same_string s x) (comes_before s x) less in
      record { different = a; later = b }
]

connected_heads :
    (c d : ℕ) (a b e : Bool)
    → (c == d && a) ≡ false
    → (if c == d then b else ltb c d) ≡ false
    → (d < c) ⊎ ((d ≡ c) × (a ≡ false) × (b ≡ false))
connected_heads c d a b e h k = ground arith

pub comes_before_total :
    (s v : String) → same_string s v ≡ false → comes_before s v ≡ false → comes_before v s ≡ true
comes_before_total [] [] h k = absurd (ground arith)
comes_before_total [] (d ∷ v) h k = absurd (ground arith)
comes_before_total (c ∷ s) [] h k = refl
comes_before_total (c ∷ s) (d ∷ v) h k =
    elim (connected_heads c d (same_string s v) (comes_before s v) true h k) [
      | inl less ↦ before_head d c (comes_before v s) less
      | inr (e, p, q) ↦ before_tail d c (comes_before v s) e (comes_before_total s v p q)
    ]
