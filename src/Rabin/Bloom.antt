-- ===== src/Rabin/Bloom.antt =====
-- rklab/bloom.c: the parts that the handout gives. The bitmap is the list of its bytes, read through
-- a `char`, which is signed.
use native.Mathlib.Nat.{mul-le-mul, zero-mul, zero-div}
use cso18_labs.Base.{
  ℕ, ◌+◌, ◌-◌, ◌*◌, ◌%◌, ◌/◌, ◌^◌, ◌≤◌, ◌<◌, ◌≡◌, ◌∙◌, ap, refl, Bool, true, false, none, some,
  List, ltb, leb, ◌==◌, arith, if◌then◌else◌, get_elem?, replicate, get_elem?-replicate,
}
use cso18_labs.Base.Int.{ℤ, pos, negsuc, ◌+ℤ◌, ◌*ℤ◌, remainder}
use cso18_labs.Base.Run.{Run, ok, fault, ◌>>=◌, ◌>>◌, assert, exited, bad_access}

-- `H1PRIME`, `H2PRIME`
abbrev pub h1_prime : ℕ
h1_prime = 4189793

abbrev pub h2_prime : ℕ
h2_prime = 3296731

-- `BLOOM_HASH_NUM`
abbrev pub bloom_hash_num : ℕ
bloom_hash_num = 10

-- The sum, before it is converted to an `int`.
unfoldable pub hash_i : ℕ → ℤ → ℤ
hash_i i x = remainder x h1_prime +ℤ pos i *ℤ remainder x h2_prime +ℤ pos 1 +ℤ pos (i * i)

-- `bloom_filter`
pub record BloomFilter : Type 0 where
  pub buf : List ℕ
  pub bsz : ℕ

-- The first argument says whether `malloc` of the bitmap succeeds.
unfoldable pub bloom_init : Bool → ℕ → Run BloomFilter
bloom_init allocates bsz =
    assert (bsz % 8 == 0)
    >> (if allocates then ok (record { buf = replicate (bsz / 8) 0; bsz = bsz }) else fault exited)

-- The value of a byte read through a `char`.
abbrev pub char_value : ℕ → ℤ
char_value c = if ltb c 128 then pos c else negsuc (255 - c)

-- `a << n` and `a >> n` on an `int`, without overflow.
abbrev pub shift_left : ℤ → ℕ → ℤ
shift_left (pos a) n = pos (a * 2 ^ n)
shift_left (negsuc k) n = negsuc ((k + 1) * 2 ^ n - 1)

abbrev pub shift_right : ℤ → ℕ → ℤ
shift_right (pos a) n = pos (a / 2 ^ n)
shift_right (negsuc k) n = negsuc (k / 2 ^ n)

-- The conversion to `bool`.
abbrev pub nonzero : ℤ → Bool
nonzero (pos a) = ltb 0 a
nonzero (negsuc k) = true

abbrev pub byte_at : List ℕ → ℕ → Run ℕ
byte_at buf i = elim (get_elem? buf i) [ none ↦ fault bad_access | some c ↦ ok c ]

abbrev pub bit_of : ℕ → ℕ → Bool
bit_of c which_bit = nonzero (shift_right (shift_left (char_value c) which_bit) (7 - which_bit))

unfoldable pub bloom_bit_at_pos : BloomFilter → ℕ → Run Bool
bloom_bit_at_pos bf n =
    assert (ltb n bf.bsz) >> (byte_at bf.buf (n / 8) >>= λ c. ok (bit_of c (n % 8)))

the_rest : (x : ℕ) → x % h2_prime ≤ 3296730
the_rest x = omega arith

-- For each of the BLOOM_HASH_NUM hash functions and an element that is not negative, the sum that
-- `hash_i` converts to an `int` is positive and fits one.
pub hash_i_bounds :
    (i x : ℕ) → i < bloom_hash_num → (h : ℕ) × (hash_i i (pos x) ≡ pos h) × (1 ≤ h) × (h < 2 ^ 31)
unfolding hash_i ◌+ℤ◌ ◌*ℤ◌
hash_i_bounds i x small = (
  x % h1_prime + i * (x % h2_prime) + 1 + i * i,
  ground arith,
  omega arith,
  let p : i * (x % h2_prime) ≤ 9 * 3296730 = mul-le-mul {n₂ = 9} (omega arith) (the_rest x) in
      let q : i * i ≤ 9 * 9 = mul-le-mul {n₂ = 9} {m₂ = 9} (omega arith) (omega arith) in
      omega (arith, p, q),
)

bit_of-zero : (k : ℕ) → bit_of 0 k ≡ false
bit_of-zero k =
    let z : 0 * 2 ^ k / 2 ^ (7 - k) ≡ 0 =
      ap (λ t. t / 2 ^ (7 - k)) (zero-mul (2 ^ k)) ∙ zero-div (2 ^ (7 - k)) in
    let e : bit_of 0 k ≡ ltb 0 0 = ap (λ t. ltb 0 t) z in e

bit_of_first : (c : ℕ) → c < 256 → bit_of c 0 ≡ leb 128 c
bit_of_first c byte = ground arith

-- In a new filter the bit at every position below its size is clear.
pub bloom_bit_at_pos-bloom_init :
    (bsz n : ℕ)
    → bsz % 8 ≡ 0
    → n < bsz
    → (bloom_init true bsz >>= λ bf. bloom_bit_at_pos bf n) ≡ ok false
unfolding bloom_init bloom_bit_at_pos
bloom_bit_at_pos-bloom_init bsz n whole inside =
    let a : (bsz % 8 == 0) ≡ true = ground arith in
    let b : ltb n bsz ≡ true = ground arith in
    let c = get_elem?-replicate {A = ℕ} (bsz / 8) (n / 8) 0 (omega arith) in
    rw (a, b, c, byte_at) (ap ok (bit_of-zero (n % 8)))

-- A byte whose first bit is set makes `bloom_bit_at_pos` report all eight of its positions as set,
-- whatever its other bits are.
pub bloom_bit_at_pos_negative :
    (bf : BloomFilter) (n c : ℕ)
    → n < bf.bsz
    → get_elem? bf.buf (n / 8) ≡ some c
    → 128 ≤ c
    → bloom_bit_at_pos bf n ≡ ok true
unfolding bloom_bit_at_pos
bloom_bit_at_pos_negative bf n c inside e high =
    let b : ltb n bf.bsz ≡ true = ground arith in
    let g : ltb c 128 ≡ false = ground arith in rw (b, e, byte_at, g) refl

-- At the first position of each byte `bloom_bit_at_pos` reports the byte's first bit.
pub bloom_bit_at_pos_first :
    (bf : BloomFilter) (k c : ℕ)
    → 8 * k < bf.bsz
    → get_elem? bf.buf k ≡ some c
    → c < 256
    → bloom_bit_at_pos bf (8 * k) ≡ ok (leb 128 c)
unfolding bloom_bit_at_pos
bloom_bit_at_pos_first bf k c inside e byte =
    let b : ltb (8 * k) bf.bsz ≡ true = ground arith in
    let q : 8 * k / 8 ≡ k = omega arith in
    let z : 8 * k % 8 ≡ 0 = omega arith in rw (b, q, z, e, byte_at) (ap ok (bit_of_first c byte))
