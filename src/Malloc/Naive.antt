-- ===== src/Malloc/Naive.antt =====
-- malloclab/mm-naive.c: chunks with a 16-byte header, allocated by moving the break. A header is
-- the word at its address, the chunk's size with the status in the lowest bit.
pub mod Header
pub mod Chunks
pub mod Alloc
pub mod Release
pub mod Move
pub mod Check
use cso18_labs.Base.{
  ℕ, zero, suc, ◌+◌, ◌-◌, ◌*◌, ◌%◌, ◌^◌, Bool, true, false, not, ◌&&◌, Option, none, some, List, [],
  ◌∷◌, ◌++◌, bit_and, bit_or, ltb, leb, ◌==◌, if◌then◌else◌,
}
use cso18_labs.Malloc.Machine.{
  Run, ok, fault, bad_access, out_of_fuel, ◌>>=◌, ◌>>◌, check, assert, copy,
}
use cso18_labs.Malloc.Memlib.{
  Mem, alignment, complement, align, is_aligned, mem_sbrk, mem_heap_lo, mem_heap_hi, load_size,
  store_size, in_storage, is_negative,
}

-- `sizeof(header)`
abbrev pub sizeof_header : ℕ
sizeof_header = 16

abbrev pub null : ℕ
null = 0

-- `(size_t)status`
abbrev pub of_bool : Bool → ℕ
of_bool true = 1
of_bool false = 0

-- `size_t` to `int`, and `int` to `size_t`, on bit patterns.
abbrev pub to_int : ℕ → ℕ
to_int w = w % 2 ^ 32

abbrev pub of_int : ℕ → ℕ
of_int i = if is_negative i then i + (2 ^ 64 - 2 ^ 32) else i

unfoldable pub set_chunk_size_status : ℕ → ℕ → Bool → Mem → Run Mem
set_chunk_size_status hdr size status = store_size hdr (bit_or size (of_bool status))

unfoldable pub set_chunk_status : ℕ → Bool → Mem → Run Mem
set_chunk_status hdr status m = do
  let mask = complement (1 - of_bool status)
  w ← load_size hdr m
  store_size hdr (bit_and w mask) m

unfoldable pub get_chunk_status : ℕ → Mem → Run Bool
get_chunk_status hdr m = do w ← load_size hdr m; ok (not (bit_and w 1 == 0))

unfoldable pub get_chunk_size : ℕ → Mem → Run ℕ
get_chunk_size hdr m = do w ← load_size hdr m; ok (bit_and w (complement 1))

abbrev pub payload_to_header : ℕ → ℕ
payload_to_header p = p - sizeof_header

abbrev pub header_to_payload : ℕ → ℕ
header_to_payload hdr = hdr + sizeof_header

unfoldable pub get_next_chunk : ℕ → Mem → Run ℕ
get_next_chunk hdr m = do sz ← get_chunk_size hdr m; ok (hdr + sz)

unfoldable pub mm_init : Mem → Run (ℕ × Mem)
mm_init m = ok (0, m)

-- The rest of `mm_malloc` after a call of `mem_sbrk` that returned `h`.
pub place_chunk : ℕ → ℕ → Mem → Run (ℕ × Mem)
place_chunk newsize h m = do
  assert (is_aligned h)
  m ← set_chunk_size_status h (of_int newsize) true m
  status ← get_chunk_status h m
  assert status
  size ← get_chunk_size h m
  assert (size == of_int newsize)
  ok (header_to_payload h, m)

-- The two branches of `mm_malloc` on the result of `mem_sbrk`.
abbrev pub place : ℕ → Option ℕ × Mem → Run (ℕ × Mem)
place newsize (none, m) = ok (null, m)
place newsize (some h, m) = place_chunk newsize h m

unfoldable pub mm_malloc : ℕ → Mem → Run (ℕ × Mem)
unfolding place_chunk
mm_malloc size m =
    let newsize = to_int ((align size + sizeof_header) % 2 ^ 64) in
    place newsize (mem_sbrk newsize m)

unfoldable pub mm_free : ℕ → Mem → Run Mem
mm_free ptr m = do
  assert (leb (mem_heap_lo m) ptr && leb ptr (mem_heap_hi m))
  m ← set_chunk_status (payload_to_header ptr) false m
  status ← get_chunk_status (payload_to_header ptr) m
  assert (not status)
  ok m

-- `memcpy` inside the heap's storage.
pub memcpy : ℕ → ℕ → ℕ → Mem → Run Mem
memcpy dst src n m =
    if in_storage dst n m && in_storage src n m
    then ok (record m { bytes = copy m.bytes dst src n })
    else fault bad_access

-- The copy of the old payload, if there is one.
pub copy_old : ℕ → ℕ → ℕ → Mem → Run Mem
copy_old newptr ptr size m = if ptr == null then ok m else (do
  chunk_size ← get_chunk_size (payload_to_header ptr) m
  let copy_size = (chunk_size + 2 ^ 64 - sizeof_header) % 2 ^ 64
  memcpy newptr ptr (if ltb size copy_size then size else copy_size) m)

-- `if (ptr != NULL) mm_free(ptr)`
pub free_old : ℕ → Mem → Run Mem
free_old ptr m = if ptr == null then ok m else mm_free ptr m

-- The rest of `mm_realloc` after its call of `mm_malloc`.
pub finish_realloc : ℕ → ℕ → ℕ → Mem → Run (ℕ × Mem)
finish_realloc newptr ptr size m =
    if newptr == null
    then ok (null, m)
    else (do m ← copy_old newptr ptr size m; m ← free_old ptr m; ok (newptr, m))

unfoldable pub mm_realloc : ℕ → ℕ → Mem → Run (ℕ × Mem)
unfolding memcpy copy_old free_old finish_realloc
mm_realloc ptr size m =
    if ltb 0 size
    then (do (newptr, m) ← mm_malloc size m; finish_realloc newptr ptr size m)
    else (do m ← free_old ptr m; ok (null, m))

-- What `mm_checkheap` counts and prints: the line of each chunk, in order, and the four totals.
pub record Report : Type 0 where
  pub chunks : List (ℕ × Bool)
  pub total_allocated : ℕ
  pub total_free : ℕ
  pub total_allocated_sz : ℕ
  pub total_free_sz : ℕ

pub count_chunk : Report → ℕ → Bool → Report
count_chunk r size true = record r {
  chunks = r.chunks ++ (size, true) ∷ [];
  total_allocated = r.total_allocated + 1;
  total_allocated_sz = r.total_allocated_sz + size;
}
count_chunk r size false = record r {
  chunks = r.chunks ++ (size, false) ∷ [];
  total_free = r.total_free + 1;
  total_free_sz = r.total_free_sz + size;
}

-- The loop over the chunks, with fuel.
pub walk : ℕ → ℕ → Report → Mem → Run Report
walk zero h r m = fault out_of_fuel
walk (suc fuel) h r m = elim (ltb h (mem_heap_hi m)) [
  | false ↦ ok r
  | true ↦ do
    size ← get_chunk_size h m
    status ← get_chunk_status h m
    next ← get_next_chunk h m
    walk fuel next (count_chunk r size status) m
]

-- One round for each byte of the heap is enough for any heap of chunks.
unfoldable pub mm_checkheap : Mem → Run Report
unfolding count_chunk walk
mm_checkheap m =
    walk (suc (m.brk - m.start_brk)) (mem_heap_lo m)
      (record {
        chunks = [];
        total_allocated = 0;
        total_free = 0;
        total_allocated_sz = 0;
        total_free_sz = 0;
      })
      m
