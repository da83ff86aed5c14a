-- ===== src/Threads/Htable/Hash.antt =====
-- What `hashcode` of threadlab/htable.c computes.
use native.Mathlib.Nat.{mod-lt}
use cso18_labs.Base.{
  ℕ, zero, suc, ◌*◌, ◌%◌, ◌+◌, ◌-◌, ◌≡◌, ◌≤◌, ◌<◌, refl, ap, ◌∙◌, List, [], ◌∷◌, arith, ltb,
  if◌then◌else◌,
}
use cso18_labs.Base.Int.{pos, negsuc, ◌+ℤ◌, ◌-ℤ◌, ◌*ℤ◌}
use cso18_labs.Base.Run.{fault, bad_access}
use cso18_labs.Threads.Htable.{
  Htable, big_prime, char_value, madd, mmul, hashcode_from, hashcode, slot_of, htable_lookup,
  htable_insert,
}

-- Every byte is an ASCII character other than NUL.
pub data IsAscii : List ℕ → Type 0 where
  ascii_nil : IsAscii []
  ascii_cons : {c : ℕ} {s : List ℕ} → 1 ≤ c → c < 128 → IsAscii s → IsAscii (c ∷ s)

-- The number whose digits in base 256 are the bytes, from `a` on.
pub horner : ℕ → List ℕ → ℕ
horner a [] = a
horner a (c ∷ s) = horner (256 * a + c) s

abbrev pub hash_step : ℕ → ℕ → ℕ
hash_step p c =
    let q = p * 256 % big_prime in if ltb big_prime (q + c) then q + c - big_prime else q + c

hash_step-hashcode :
    (p c : ℕ) → c < 128 → madd (mmul (pos p) (pos 256)) (char_value c) ≡ pos (hash_step p c)
unfolding madd mmul ◌+ℤ◌ ◌-ℤ◌ ◌*ℤ◌
hash_step-hashcode p c h = ground arith

hash_step_lem :
    (p a c : ℕ)
    → 1 ≤ c
    → c < 128
    → p % big_prime ≡ a % big_prime
    → (1 ≤ hash_step p c)
      × (hash_step p c ≤ big_prime)
      × (hash_step p c % big_prime ≡ (256 * a + c) % big_prime)
hash_step_lem p a c low h e = (ground arith, ground arith, ground arith)

hashcode_from_lem :
    {s : List ℕ}
    → IsAscii s
    → (p a : ℕ) → p ≤ big_prime
    → p % big_prime ≡ a % big_prime
    → (h : ℕ) × (hashcode_from (pos p) s ≡ pos h)
      × (h ≤ big_prime)
      × (h % big_prime ≡ horner a s % big_prime)
unfolding hashcode_from horner
hashcode_from_lem ascii_nil p a le e = (p, refl, le, e)
hashcode_from_lem (ascii_cons {c} {s} lo hi rest) p a le e =
    let (_, le1, e1) = hash_step_lem p a c lo hi e in
    let (h, runs, bound, value) = hashcode_from_lem rest (hash_step p c) (256 * a + c) le1 e1 in
    (h, ap (λ t. hashcode_from t s) (hash_step-hashcode p c hi) ∙ runs, bound, value)

-- The same behind the first character, where the hash code cannot be 0.
hashcode_from_positive :
    {s : List ℕ}
    → IsAscii s
    → (p a : ℕ) → 1 ≤ p
    → p ≤ big_prime
    → p % big_prime ≡ a % big_prime
    → (h : ℕ) × (hashcode_from (pos p) s ≡ pos h)
      × (1 ≤ h)
      × (h ≤ big_prime)
      × (h % big_prime ≡ horner a s % big_prime)
unfolding hashcode_from horner
hashcode_from_positive ascii_nil p a one le e = (p, refl, one, le, e)
hashcode_from_positive (ascii_cons {c} {s} lo hi rest) p a one le e =
    let (one1, le1, e1) = hash_step_lem p a c lo hi e in
    let (h, runs, positive, bound, value) =
      hashcode_from_positive rest (hash_step p c) (256 * a + c) one1 le1 e1 in
    (h, ap (λ t. hashcode_from t s) (hash_step-hashcode p c hi) ∙ runs, positive, bound, value)

-- The hash code of an ASCII string that is not empty lies between 1 and BIG_PRIME, and is the number
-- whose digits in base 256 are the characters, modulo BIG_PRIME. So where that number is a multiple
-- of BIG_PRIME the hash code is BIG_PRIME itself and not 0: `madd` leaves a sum that equals
-- BIG_PRIME as it is. The hash code of the empty string is 0.
pub hashcode_positive :
    (c : ℕ) (s : List ℕ)
    → IsAscii (c ∷ s)
    → (hashcode [] ≡ pos 0)
      × ((h : ℕ) × (hashcode (c ∷ s) ≡ pos h)
          × (1 ≤ h)
          × (h ≤ big_prime)
          × (h % big_prime ≡ horner 0 (c ∷ s) % big_prime))
unfolding hashcode hashcode_from horner
hashcode_positive c s (ascii_cons lo hi rest) =
    let (one1, le1, e1) = hash_step_lem 0 0 c lo hi refl in
    let (h, runs, positive, bound, value) =
      hashcode_from_positive rest (hash_step 0 c) (256 * 0 + c) one1 le1 e1 in
    (
      refl,
      (h, ap (λ t. hashcode_from t s) (hash_step-hashcode 0 c hi) ∙ runs, positive, bound, value),
    )

-- The hash code of an ASCII string, the empty one included.
pub hashcode_lem :
    (s : List ℕ)
    → IsAscii s
    → (h : ℕ) × (hashcode s ≡ pos h) × (h ≤ big_prime) × (h % big_prime ≡ horner 0 s % big_prime)
unfolding hashcode
hashcode_lem s ascii = hashcode_from_lem ascii 0 0 (omega arith) refl

negative_char : (b : ℕ) → 128 ≤ b → b < 256 → hashcode (b ∷ []) ≡ negsuc (255 - b)
unfolding hashcode hashcode_from madd mmul ◌+ℤ◌ ◌-ℤ◌ ◌*ℤ◌
negative_char b lo hi = ground arith

slot_of_negative : (k n : ℕ) → k < 128 → 128 < n → slot_of (negsuc k) n ≡ fault bad_access
unfolding slot_of ◌-ℤ◌
slot_of_negative k zero h large = absurd (omega arith)
slot_of_negative k (suc n) h large =
    let e : suc k % suc n ≡ suc k = omega (arith, native.Mathlib.Nat.mod-eq_of_lt) in
    rw (e, slot_of) (ground arith)

-- A key of one character outside ASCII has a negative hash code, so in a table of more than 128
-- slots `htable_lookup` and `htable_insert` read before the start of the array.
pub htable_insert_negative :
    (ht : Htable) (b v : ℕ)
    → 128 ≤ b
    → b < 256
    → 128 < ht.size
    → (htable_lookup ht (b ∷ []) ≡ fault bad_access)
      × (htable_insert ht (b ∷ []) v ≡ fault bad_access)
unfolding htable_lookup htable_insert
htable_insert_negative ht b v lo hi large =
    let e = negative_char b lo hi in
    let f = slot_of_negative (255 - b) ht.size (omega arith) large in
    (rw (e, f) refl, rw (e, f) refl)
