-- ===== src/Malloc/Machine.antt =====
-- What the C code of malloclab runs on: byte memory, 64-bit words in little-endian order.
pub use cso18_labs.Base.Run.{
  Fault, asserted, exited, bad_access, uninitialised, out_of_fuel, Run, ok, fault, ◌>>=◌, ◌>>◌,
  check, assert,
}
use native.Mathlib.Nat.{pow-suc}
use cso18_labs.Base.{
  ℕ, zero, suc, ◌+◌, ◌-◌, ◌*◌, ◌/◌, ◌%◌, ◌^◌, ◌≤◌, ◌<◌, ◌≡◌, refl, ◌⊎◌, ◌&&◌, arith, ltb, leb, ◌==◌,
  if◌then◌else◌,
}

abbrev pub Memory : Type 0
Memory = ℕ → ℕ

unfoldable pub poke : Memory → ℕ → ℕ → Memory
poke m a v q = if q == a then v % 256 else m q

-- `n` bytes of a number, the lowest first.
unfoldable pub store_le : ℕ → Memory → ℕ → ℕ → Memory
store_le zero m a w = m
store_le (suc n) m a w = poke (store_le n m (a + 1) (w / 256)) a w

unfoldable pub load_le : ℕ → Memory → ℕ → ℕ
load_le zero m a = 0
load_le (suc n) m a = m a % 256 + 256 * load_le n m (a + 1)

-- `memset`
unfoldable pub fill : Memory → ℕ → ℕ → ℕ → Memory
fill m p c n q = if leb p q && ltb q (p + n) then c % 256 else m q

-- `memcpy`
unfoldable pub copy : Memory → ℕ → ℕ → ℕ → Memory
copy m dst src n q = if leb dst q && ltb q (dst + n) then m (src + (q - dst)) else m q

pub store_le_outside :
    (n : ℕ) (m : Memory) (a w q : ℕ) → (q < a) ⊎ (a + n ≤ q) → store_le n m a w q ≡ m q
unfolding store_le poke
store_le_outside zero m a w q h = refl
store_le_outside (suc n) m a w q h = ground (arith, store_le_outside n m (a + 1) (w / 256) q)

-- A load depends on its bytes alone.
pub load_le_congr :
    (n : ℕ) (m m' : Memory) (a : ℕ)
    → ((q : ℕ) → a ≤ q → q < a + n → m q ≡ m' q)
    → load_le n m a ≡ load_le n m' a
unfolding load_le
load_le_congr zero m m' a h = refl
load_le_congr (suc n) m m' a h =
    let rest = load_le_congr n m m' (a + 1) (λ q l u. h q (omega arith) (omega arith)) in
    let first = h a (omega arith) (omega arith) in rw (first, rest)

pub load_le-store_le :
    (n : ℕ) (m : Memory) (a w : ℕ) → w < 256 ^ n → load_le n (store_le n m a w) a ≡ w
unfolding load_le store_le poke
load_le-store_le zero m a w h = omega arith
load_le-store_le (suc n) m a w h =
    let rest = store_le n m (a + 1) (w / 256) in
    let above : load_le n (poke rest a w) (a + 1) ≡ load_le n rest (a + 1) =
      load_le_congr n (poke rest a w) rest (a + 1) (λ q l u. ground arith) in
    let low : poke rest a w a ≡ w % 256 = ground arith in
    omega (arith, above, low, load_le-store_le n m (a + 1) (w / 256) (omega (arith, pow-suc 256 n)))

pub load_le-lt : (n : ℕ) (m : Memory) (a : ℕ) → load_le n m a < 256 ^ n
unfolding load_le
load_le-lt zero m a = omega arith
load_le-lt (suc n) m a = omega (arith, load_le-lt n m (a + 1), pow-suc 256 n)
