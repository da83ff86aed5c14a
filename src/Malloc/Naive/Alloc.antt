-- ===== src/Malloc/Naive/Alloc.antt =====
-- `mm_malloc` of mm-naive.c.
use cso18_labs.Base.{
  ℕ, ◌+◌, ◌*◌, ◌%◌, ◌^◌, ◌≤◌, ◌<◌, ◌≡◌, refl, ap, ◌∙◌, sym, ◌⊎◌, inl, inr, true, List, [], ◌∷◌,
  ◌++◌, arith, ==_iff, none,
}
use native.Mathlib.Decide.{dec_lt, dec_le}
use cso18_labs.Base.Bits.{bit_or-one}
use cso18_labs.Malloc.Machine.{store_le, store_le_outside, ok, ◌>>=◌}
use cso18_labs.Malloc.Memlib.{
  Mem, IsMem, in_storage, align, align_rounds, is_aligned, mem_sbrk, mem_sbrk_grows, store_size,
}
use cso18_labs.Malloc.Naive.{place_chunk, place, mm_malloc, of_int, to_int, set_chunk_size_status}
use cso18_labs.Malloc.Naive.Header.{
  HasHeader, word, store_word-HasHeader, get_chunk_size-HasHeader, get_chunk_status-HasHeader,
}
use cso18_labs.Malloc.Naive.Chunks.{Chunk, Chunks, At-Lies, Chunks-mod, Chunks-append, Chunks-congr}

-- The heap consists of the chunks `cs`.
pub record IsHeap (cs : List Chunk) (m : Mem) : Type 0 where
  pub memory : IsMem m
  pub chunks : Chunks m m.brk cs m.start_brk

pub IsHeap-brk : {cs : List Chunk} {m : Mem} → IsHeap cs m → m.brk % 16 ≡ 0
IsHeap-brk i = Chunks-mod i.chunks i.memory.aligned

-- The break moved by `n`, with the header of an allocated chunk of `n` bytes at the old break.
unfoldable pub extend : ℕ → Mem → Mem
extend n m = record m { brk = m.brk + n; bytes = store_le 8 m.bytes m.brk (word n true) }

module _ (n : ℕ) {m : Mem} (i : IsMem m) (aligned : m.brk % 16 ≡ 0) (whole : n % 16 ≡ 0)
    (big : 16 ≤ n) (small : n < 2 ^ 31) (room : m.brk + n ≤ m.max_addr) where
  stored : in_storage m.brk 8 m ≡ true
  stored = ground (arith, i.started)

  extend-HasHeader : HasHeader m.brk n true (extend n m)
  unfolding extend
  extend-HasHeader =
      store_word-HasHeader true (record m { brk = m.brk + n }) stored (omega arith) (omega arith)

  positive : of_int n ≡ n
  positive = ground arith

  header_written :
      set_chunk_size_status m.brk n true (record m { brk = m.brk + n }) ≡ ok (extend n m)
  unfolding set_chunk_size_status store_size extend
  header_written = rw (stored, bit_or-one n (omega arith))

  pub place_chunk_lem :
      place_chunk n m.brk (record m { brk = m.brk + n }) ≡ ok (m.brk + 16, extend n m)
  unfolding place_chunk is_aligned
  place_chunk_lem = rw (
    (==_iff _ _).1 aligned,
    positive,
    header_written,
    ◌>>=◌,
    get_chunk_status-HasHeader extend-HasHeader,
    get_chunk_size-HasHeader extend-HasHeader,
    (==_iff n n).1 refl,
  )

  -- Below the old break `extend` changes nothing.
  pub extend_below : (q : ℕ) → q < m.brk → (extend n m).bytes q ≡ m.bytes q
  unfolding extend
  extend_below q h = store_le_outside 8 m.bytes m.brk (word n true) q (inl h)

  pub extend-IsMem : IsMem (extend n m)
  unfolding extend
  extend-IsMem = ground (arith, i.started)

-- A new chunk at the end keeps the others.
pub extend-IsHeap :
    (n : ℕ) {cs : List Chunk} {m : Mem}
    → IsHeap cs m
    → n % 16 ≡ 0
    → 16 ≤ n
    → n < 2 ^ 31
    → m.brk + n ≤ m.max_addr
    → IsHeap (cs ++ (n, true) ∷ []) (extend n m)
extend-IsHeap n {cs} {m} i whole big small room =
    let aligned = IsHeap-brk i in
    record {
      memory = extend-IsMem n i.memory aligned whole big small room;
      chunks =
          unfold extend in
          Chunks-append
            (Chunks-congr i.chunks (record {
              start = refl;
              limit = refl;
              headers = λ h size status p q l u.
                  let inside = At-Lies i.chunks p in
                  sym (
                    extend_below n i.memory aligned whole big small room q
                      (omega (arith, inside.high, inside.big)));
            }))
            (extend-HasHeader n i.memory aligned whole big small room) whole big refl;
    }

-- The size of the chunk that holds `size` bytes.
unfoldable pub chunk_for : ℕ → ℕ
chunk_for size = align size + 16

pub chunk_for_bounds :
    (size : ℕ)
    → size < 2 ^ 32
    → (chunk_for size % 16 ≡ 0) × (size + 16 ≤ chunk_for size) × (chunk_for size < size + 32)
unfolding chunk_for
chunk_for_bounds size h = omega (arith, align_rounds size (omega arith))

-- `mm_malloc` on a heap with room
pub mm_malloc_room :
    (size : ℕ) {cs : List Chunk} {m : Mem}
    → IsHeap cs m
    → size < 2 ^ 32
    → chunk_for size < 2 ^ 31
    → m.brk + chunk_for size ≤ m.max_addr
    → mm_malloc size m ≡ ok (m.brk + 16, extend (chunk_for size) m)
unfolding mm_malloc chunk_for
mm_malloc_room size {cs} {m} i h small room =
    let n : to_int ((align size + 16) % 2 ^ 64) ≡ align size + 16 = omega arith in
    let r = chunk_for_bounds size h in
    ap (λ k. place k (mem_sbrk k m)) n
    ∙ ap (place (align size + 16)) (mem_sbrk_grows (align size + 16) m small room)
    ∙ place_chunk_lem (align size + 16) i.memory (IsHeap-brk i) (unfold chunk_for in r.0)
        (omega arith) small room

mem_sbrk_refuses :
    (incr : ℕ) (m : Mem)
    → (2 ^ 31 ≤ incr) ⊎ (m.max_addr < m.brk + incr)
    → mem_sbrk incr m ≡ (none, m)
unfolding mem_sbrk
mem_sbrk_refuses incr m h = ground arith

-- Without room `mm_malloc` returns NULL and changes nothing.
pub mm_malloc_full :
    (size : ℕ) (m : Mem)
    → size < 2 ^ 31
    → (2 ^ 31 ≤ chunk_for size) ⊎ (m.max_addr < m.brk + chunk_for size)
    → mm_malloc size m ≡ ok (0, m)
unfolding mm_malloc chunk_for
mm_malloc_full size m h full =
    let r = align_rounds size (omega arith) in
    let n : to_int ((align size + 16) % 2 ^ 64) ≡ align size + 16 = omega arith in
    ap (λ k. place k (mem_sbrk k m)) n
    ∙ ap (place (align size + 16)) (mem_sbrk_refuses (align size + 16) m full)

-- A payload of `size` bytes at `p`, new in the heap `cs` of `m`, and the memory `m'` behind it.
pub record IsFresh (size : ℕ) (cs : List Chunk) (m : Mem) (p : ℕ) (m' : Mem) : Type 0 where
  pub payload : p ≡ m.brk + 16
  pub aligned : p % 16 ≡ 0
  pub fits : p + size ≤ m'.brk
  pub heap : IsHeap (cs ++ (chunk_for size, true) ∷ []) m'
  pub kept : (q : ℕ) → q < m.brk → m'.bytes q ≡ m.bytes q

abbrev pub HasRoom : ℕ → Mem → Type 0
HasRoom size m = (chunk_for size < 2 ^ 31) × (m.brk + chunk_for size ≤ m.max_addr)

-- On a heap of chunks `mm_malloc` of less than 2 ^ 31 bytes meets no failed assertion and no
-- access outside the storage. With room it returns an aligned payload of that size behind the
-- old break, adds one allocated chunk, and changes no byte below the old break. Without room it
-- returns NULL and changes nothing.
pub mm_malloc-IsFresh :
    (size : ℕ) {cs : List Chunk} {m : Mem}
    → IsHeap cs m
    → size < 2 ^ 31
    → (HasRoom size m
        → (p : ℕ) × (m' : Mem) × (mm_malloc size m ≡ ok (p, m')) × IsFresh size cs m p m')
      × (¬ HasRoom size m → mm_malloc size m ≡ ok (0, m))
mm_malloc-IsFresh size {cs} {m} i h = (
  λ room.
      let r = chunk_for_bounds size (omega arith) in
      let aligned = IsHeap-brk i in
      (
        m.brk + 16,
        extend (chunk_for size) m,
        mm_malloc_room size i (omega arith) room.0 room.1,
        record {
          payload = refl;
          aligned = omega arith;
          fits = unfold extend in omega arith;
          heap = extend-IsHeap (chunk_for size) i r.0 (omega arith) room.0 room.1;
          kept = extend_below (chunk_for size) i.memory aligned r.0 (omega arith) room.0 room.1;
        },
      ),
  λ full. mm_malloc_full size m h (no_room full),
)
  where
    no_room : ¬ HasRoom size m → (2 ^ 31 ≤ chunk_for size) ⊎ (m.max_addr < m.brk + chunk_for size)
    no_room full = elim (dec_lt (chunk_for size) (2 ^ 31)) [
      | no big ↦ inl (omega arith)
      | yes small ↦ elim (dec_le (m.brk + chunk_for size) m.max_addr) [
        | no over ↦ inr (omega arith)
        | yes room ↦ absurd (full (small, room))
      ]
    ]

-- `newsize` is an `int`: on a well-formed heap that has room for 16 bytes more, for a size below
-- 2 ^ 63 that is a positive multiple of 2 ^ 32, `mm_malloc` does not return NULL but a payload with
-- a chunk of 16 bytes, the header alone.
pub mm_malloc_truncates :
    (k : ℕ) {cs : List Chunk} {m : Mem}
    → IsHeap cs m
    → 0 < k
    → k < 2 ^ 31
    → m.brk + 16 ≤ m.max_addr
    → mm_malloc (k * 2 ^ 32) m ≡ ok (m.brk + 16, extend 16 m)
unfolding mm_malloc
mm_malloc_truncates k {cs} {m} i lo hi room =
    let r = align_rounds (k * 2 ^ 32) (omega arith) in
    let n : to_int ((align (k * 2 ^ 32) + 16) % 2 ^ 64) ≡ 16 = omega arith in
    ap (λ k. place k (mem_sbrk k m)) n
    ∙ ap (place 16) (mem_sbrk_grows 16 m (omega arith) room)
    ∙ place_chunk_lem 16 i.memory (IsHeap-brk i) refl (omega arith) (omega arith) room
