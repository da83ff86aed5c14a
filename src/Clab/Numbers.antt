-- ===== src/Clab/Numbers.antt =====
-- The strings of `gen_rand_strings` of clab/mini/part7_harness.c as numbers.
use cso18_labs.Base.{
  ℕ, zero, suc, ◌+◌, ◌-◌, ◌*◌, ◌%◌, ◌≤◌, ◌<◌, ◌≡◌, refl, sym, ap, ◌∙◌, List, [], ◌∷◌, le→leb,
  length, arith,
}
use cso18_labs.Clab.{String, atoi, atoi_from, gen_string, gen_rand_strings}

-- Three digits from '1' to '9'.
pub record IsThree (s : String) : Type 0 where
  a : ℕ
  b : ℕ
  c : ℕ
  same : s ≡ a ∷ b ∷ c ∷ []
  a_low : 49 ≤ a
  a_high : a ≤ 57
  b_low : 49 ≤ b
  b_high : b ≤ 57
  c_low : 49 ≤ c
  c_high : c ≤ 57

abbrev pub AllThree : List String → Type 0
AllThree [] = Unit
AllThree (s ∷ ss) = IsThree s × AllThree ss

module _ (rand : ℕ → ℕ) where
  gen_string-IsThree : (n : ℕ) → IsThree (gen_string rand n 3)
  unfolding gen_string
  gen_string-IsThree n = record {
    a = rand n % 9 + 49;
    b = rand (n + 1) % 9 + 49;
    c = rand (n + 1 + 1) % 9 + 49;
    same = refl;
    a_low = omega arith;
    a_high = omega arith;
    b_low = omega arith;
    b_high = omega arith;
    c_low = omega arith;
    c_high = omega arith;
  }

  pub gen_rand_strings-AllThree : (n num : ℕ) → AllThree (gen_rand_strings rand n num 3)
  unfolding gen_rand_strings
  gen_rand_strings-AllThree n zero = tt
  gen_rand_strings-AllThree n (suc num) =
      (gen_string-IsThree n, gen_rand_strings-AllThree (n + 3) num)

  pub length-gen_rand_strings : (n num : ℕ) → length (gen_rand_strings rand n num 3) ≡ num
  unfolding gen_rand_strings
  length-gen_rand_strings n zero = refl
  length-gen_rand_strings n (suc num) = ap suc (length-gen_rand_strings (n + 3) num)

digit :
    (n c : ℕ) (s : String) → 49 ≤ c → c ≤ 57 → atoi_from n (c ∷ s) ≡ atoi_from (10 * n + (c - 48)) s
digit n c s low high =
    let e = le→leb 48 c (omega arith) in let f = le→leb c 57 high in rw (e, f) refl

atoi-IsThree :
    (s : String) (h : IsThree s) → atoi s ≡ 100 * (h.a - 48) + 10 * (h.b - 48) + (h.c - 48)
atoi-IsThree s h =
    ap atoi h.same
    ∙ digit 0 h.a (h.b ∷ h.c ∷ []) h.a_low h.a_high
    ∙ digit (10 * 0 + (h.a - 48)) h.b (h.c ∷ []) h.b_low h.b_high
    ∙ digit (10 * (10 * 0 + (h.a - 48)) + (h.b - 48)) h.c [] h.c_low h.c_high
    ∙ omega arith

pub atoi_bounds : (s : String) → IsThree s → (0 < atoi s) × (atoi s < 1000)
atoi_bounds s h =
    let e = atoi-IsThree s h in
    (
      omega (arith, e, h.a_low, h.a_high, h.b_low, h.b_high, h.c_low, h.c_high),
      omega (arith, e, h.a_low, h.a_high, h.b_low, h.b_high, h.c_low, h.c_high),
    )

equal_digits :
    (a b c x y z : ℕ)
    → 49 ≤ a
    → a ≤ 57
    → 49 ≤ b
    → b ≤ 57
    → 49 ≤ c
    → c ≤ 57
    → 49 ≤ x
    → x ≤ 57
    → 49 ≤ y
    → y ≤ 57
    → 49 ≤ z
    → z ≤ 57
    → 100 * (a - 48) + 10 * (b - 48) + (c - 48) ≡ 100 * (x - 48) + 10 * (y - 48) + (z - 48)
    → (a ≡ x) × (b ≡ y) × (c ≡ z)
equal_digits a b c x y z h1 h2 h3 h4 h5 h6 h7 h8 h9 h10 h11 h12 e =
    (omega arith, omega arith, omega arith)

pub atoi-injective : (s t : String) → IsThree s → IsThree t → atoi s ≡ atoi t → s ≡ t
atoi-injective s t h k e =
    let (p, q, r) =
      equal_digits h.a h.b h.c k.a k.b k.c h.a_low h.a_high h.b_low h.b_high h.c_low h.c_high
        k.a_low k.a_high k.b_low k.b_high k.c_low k.c_high
        (sym (atoi-IsThree s h) ∙ e ∙ atoi-IsThree t k) in
    h.same
    ∙ ap (λ i. i ∷ h.b ∷ h.c ∷ []) p
    ∙ ap (λ i. k.a ∷ i ∷ h.c ∷ []) q
    ∙ ap (λ i. k.a ∷ k.b ∷ i ∷ []) r
    ∙ sym k.same
