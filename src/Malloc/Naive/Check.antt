-- ===== src/Malloc/Naive/Check.antt =====
-- `mm_checkheap` of mm-naive.c, and `set_chunk_status`.
use mathlib.Core.Bool.{xor}
use mathlib.Core.List.{append-nil, append_assoc}
use cso18_labs.Base.{
  ℕ, zero, suc, ◌+◌, ◌-◌, ◌<◌, ◌≡◌, ◌∙◌, sym, Bool, true, false, ◌&&◌, List, [], ◌∷◌, ◌++◌, arith,
  ltb, lt→ltb, le→ltb, if◌then◌else◌,
}
use cso18_labs.Malloc.Machine.{store_le, load_le-lt, ok, ◌>>=◌}
use cso18_labs.Malloc.Memlib.{Mem, mem_heap_lo, mem_heap_hi, mem_heapsize}
use cso18_labs.Malloc.Naive.{
  Report, walk, count_chunk, mm_checkheap, get_next_chunk, set_chunk_status,
}
use cso18_labs.Malloc.Naive.Header.{
  HasHeader, word, store_word-HasHeader, get_chunk_size-HasHeader, get_chunk_status-HasHeader,
  set_chunk_status-word,
}
use cso18_labs.Malloc.Naive.Chunks.{Chunk, Chunks, done, chunk, Chunks-le}
use cso18_labs.Malloc.Naive.Alloc.{IsHeap}

-- The report on a list of chunks.
pub tally : Report → List Chunk → Report
tally r [] = r
tally r ((size, status) ∷ cs) = tally (count_chunk r size status) cs

walk-Chunks :
    (fuel : ℕ) {m : Mem} {cs : List Chunk} {a : ℕ} (r : Report)
    → Chunks m m.brk cs a
    → 0 < m.brk
    → m.brk - a < fuel
    → walk fuel a r m ≡ ok (tally r cs)
unfolding walk tally mem_heap_hi get_next_chunk
walk-Chunks zero r c pos f = absurd (omega arith)
walk-Chunks (suc fuel) {m} r (done {a} e) pos f =
    let over : ltb a (m.brk - 1) ≡ false = le→ltb _ _ (omega arith) in rw (over, walk)
walk-Chunks (suc fuel) {m} r (chunk {a} {size} {status} k d g c) pos f =
    let inside : ltb a (m.brk - 1) ≡ true = lt→ltb _ _ (omega (arith, Chunks-le c)) in
    rw (inside, walk, get_chunk_size-HasHeader k, ◌>>=◌, get_chunk_status-HasHeader k)
      (walk-Chunks fuel (count_chunk r size status) c pos (omega (arith, Chunks-le c)))

-- The numbers and the bytes of the chunks with a status.
pub number_of : Bool → List Chunk → ℕ
number_of t [] = 0
number_of t ((size, status) ∷ cs) = (if xor t status then 0 else 1) + number_of t cs

pub bytes_of : Bool → List Chunk → ℕ
bytes_of t [] = 0
bytes_of t ((size, status) ∷ cs) = (if xor t status then 0 else size) + bytes_of t cs

bytes_between :
    {m : Mem} {b : ℕ} {cs : List Chunk} {a : ℕ}
    → Chunks m b cs a
    → a + bytes_of true cs + bytes_of false cs ≡ b
unfolding bytes_of xor
bytes_between (done e) = omega arith
bytes_between (chunk {status = true} k d g c) = omega (arith, bytes_between c)
bytes_between (chunk {status = false} k d g c) = omega (arith, bytes_between c)

-- The report that adds the chunks `cs` to `r`.
pub record Adds (r : Report) (cs : List Chunk) (r' : Report) : Type 0 where
  pub listed : r'.chunks ≡ r.chunks ++ cs
  pub allocated : r'.total_allocated ≡ r.total_allocated + number_of true cs
  pub free : r'.total_free ≡ r.total_free + number_of false cs
  pub allocated_sz : r'.total_allocated_sz ≡ r.total_allocated_sz + bytes_of true cs
  pub free_sz : r'.total_free_sz ≡ r.total_free_sz + bytes_of false cs

tally-Adds : (r : Report) (cs : List Chunk) → Adds r cs (tally r cs)
unfolding tally number_of bytes_of xor count_chunk
tally-Adds r [] = record {
  listed = sym (append-nil r.chunks);
  allocated = omega arith;
  free = omega arith;
  allocated_sz = omega arith;
  free_sz = omega arith;
}
tally-Adds r ((size, true) ∷ cs) =
    let t = tally-Adds (count_chunk r size true) cs in
    record {
      listed = t.listed ∙ append_assoc r.chunks ((size, true) ∷ []) cs;
      allocated = omega (arith, t.allocated);
      free = omega (arith, t.free);
      allocated_sz = omega (arith, t.allocated_sz);
      free_sz = omega (arith, t.free_sz);
    }
tally-Adds r ((size, false) ∷ cs) =
    let t = tally-Adds (count_chunk r size false) cs in
    record {
      listed = t.listed ∙ append_assoc r.chunks ((size, false) ∷ []) cs;
      allocated = omega (arith, t.allocated);
      free = omega (arith, t.free);
      allocated_sz = omega (arith, t.allocated_sz);
      free_sz = omega (arith, t.free_sz);
    }

abbrev pub no_chunks : Report
no_chunks = record {
  chunks = [];
  total_allocated = 0;
  total_free = 0;
  total_allocated_sz = 0;
  total_free_sz = 0;
}

-- On a heap of chunks `mm_checkheap` ends, reads only headers inside the storage, visits exactly
-- the chunks of the heap in order, counts those of each status and their bytes, and the two byte
-- totals add up to the size of the heap.
pub mm_checkheap_lem :
    {cs : List Chunk} {m : Mem}
    → IsHeap cs m
    → (r : Report) × (mm_checkheap m ≡ ok r)
      × Adds no_chunks cs r
      × (r.total_allocated_sz + r.total_free_sz ≡ mem_heapsize m)
unfolding mm_checkheap mem_heap_lo mem_heapsize
mm_checkheap_lem {cs} {m} i =
    let t = tally-Adds no_chunks cs in
    (
      tally no_chunks cs,
      walk-Chunks (suc (m.brk - m.start_brk)) no_chunks i.chunks (omega (arith, i.memory))
          (omega arith),
      t,
      omega (arith, t.allocated_sz, t.free_sz, bytes_between i.chunks, i.memory.started),
    )

-- `set_chunk_status` reads and writes the one header word; the new status is the old one and the
-- argument: a chunk is freed by `false`, but a free chunk is not allocated by `true`.
pub set_chunk_status_lem :
    {hdr size : ℕ} {status : Bool} {m : Mem} (new : Bool)
    → HasHeader hdr size status m
    → (m' : Mem) × (set_chunk_status hdr new m ≡ ok m') × HasHeader hdr size (status && new) m'
set_chunk_status_lem {hdr} {size} {status} {m} new h = (
  record m { bytes = store_le 8 m.bytes hdr (word size (status && new)) },
  set_chunk_status-word h new,
  store_word-HasHeader (status && new) m h.stored h.even
      (omega (arith, h.even, h.reads, load_le-lt 8 m.bytes hdr)),
)
