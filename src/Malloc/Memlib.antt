-- ===== src/Malloc/Memlib.antt =====
-- malloclab/memlib.c: the simulated heap, one block of `max_heap` bytes from the system's malloc
-- with a break pointer that only grows. Pointers are addresses, numbers below 2 ^ 64; 0 is NULL.
-- An `int` is its bit pattern, a number below 2 ^ 32.
use cso18_labs.Base.{
  ℕ, ◌+◌, ◌-◌, ◌*◌, ◌%◌, ◌^◌, ◌≤◌, ◌<◌, ◌≡◌, Bool, ◌&&◌, ◌||◌, Option, none, some, arith, bit_and,
  ltb, leb, ◌==◌, if◌then◌else◌,
}
use cso18_labs.Base.Bits.{clear_four_bits}
use cso18_labs.Malloc.Machine.{Run, ok, fault, bad_access, exited, Memory, store_le, load_le}

-- `ALIGNMENT` and `MAX_HEAP`
abbrev pub alignment : ℕ
alignment = 16

abbrev pub max_heap : ℕ
max_heap = 200 * 2 ^ 20

-- `~x` of a `size_t`
abbrev pub complement : ℕ → ℕ
complement x = 2 ^ 64 - 1 - x

unfoldable pub align : ℕ → ℕ
align size = bit_and ((size + (alignment - 1)) % 2 ^ 64) (complement (alignment - 1))

unfoldable pub is_aligned : ℕ → Bool
is_aligned p = p % alignment == 0

-- The file's static variables and the bytes that they point into.
pub record Mem : Type 0 where
  pub start_brk : ℕ
  pub brk : ℕ
  pub max_addr : ℕ
  pub bytes : Memory

-- `mem_init`: `base` is what the system's malloc returned, `bytes` what that memory held.
unfoldable pub mem_init : ℕ → Memory → Run Mem
mem_init base bytes =
    if base == 0
    then fault exited
    else ok (record { start_brk = base; brk = base; max_addr = base + max_heap; bytes = bytes })

unfoldable pub mem_reset_brk : Mem → Mem
mem_reset_brk m = record m { brk = m.start_brk }

-- `incr < 0` for the bit pattern of an `int`
abbrev pub is_negative : ℕ → Bool
is_negative incr = leb (2 ^ 31) incr

-- `none` is the result `(void *)-1`.
unfoldable pub mem_sbrk : ℕ → Mem → Option ℕ × Mem
mem_sbrk incr m =
    if is_negative incr || ltb m.max_addr (m.brk + incr)
    then (none, m)
    else (some m.brk, record m { brk = m.brk + incr })

unfoldable pub mem_heap_lo : Mem → ℕ
mem_heap_lo m = m.start_brk

unfoldable pub mem_heap_hi : Mem → ℕ
mem_heap_hi m = m.brk - 1

unfoldable pub mem_heapsize : Mem → ℕ
mem_heapsize m = m.brk - m.start_brk

-- Only the block that `mem_init` got may be read and written.
abbrev pub in_storage : ℕ → ℕ → Mem → Bool
in_storage a n m = leb m.start_brk a && leb (a + n) m.max_addr

-- A `size_t` in memory.
unfoldable pub load_size : ℕ → Mem → Run ℕ
load_size a m = if in_storage a 8 m then ok (load_le 8 m.bytes a) else fault bad_access

unfoldable pub store_size : ℕ → ℕ → Mem → Run Mem
store_size a w m =
    if in_storage a 8 m then ok (record m { bytes = store_le 8 m.bytes a w }) else fault bad_access

-- What holds of the static variables between two calls. The storage is aligned, as the system's
-- malloc promises, and does not wrap round the address space.
pub record IsMem (m : Mem) : Type 0 where
  pub based : 0 < m.start_brk
  pub aligned : m.start_brk % alignment ≡ 0
  pub started : m.start_brk ≤ m.brk
  pub bounded : m.brk ≤ m.max_addr
  pub addressable : m.max_addr < 2 ^ 64

pub align_rounds :
    (size : ℕ)
    → size + 15 < 2 ^ 64
    → (align size % alignment ≡ 0) × (size ≤ align size) × (align size < size + alignment)
unfolding align
align_rounds size h = omega (arith, clear_four_bits ((size + 15) % 2 ^ 64))

-- `align` is the least multiple of the alignment that holds `size`, where that does not wrap.
pub align_least :
    (size : ℕ)
    → size + 15 < 2 ^ 64
    → (align size % alignment ≡ 0)
      × (size ≤ align size)
      × ((n : ℕ) → n % alignment ≡ 0 → size ≤ n → align size ≤ n)
align_least size h = let r = align_rounds size h in (r.0, r.1, λ n d l. omega arith)

-- `mem_sbrk`, with and without room.
pub mem_sbrk-IsMem : (incr : ℕ) {m : Mem} → IsMem m → IsMem (mem_sbrk incr m).1
unfolding mem_sbrk
mem_sbrk-IsMem incr i = ground arith

pub mem_sbrk_grows :
    (incr : ℕ) (m : Mem)
    → incr < 2 ^ 31
    → m.brk + incr ≤ m.max_addr
    → mem_sbrk incr m ≡ (some m.brk, record m { brk = m.brk + incr })
unfolding mem_sbrk
mem_sbrk_grows incr m h k = ground arith
