-- ===== src/Malloc/Tests.antt =====
-- The theorems about malloclab at inputs that meet their hypotheses, and runs of the code.
use cso18_labs.Base.{
  false, ◌⊎◌, ℕ, ◌+◌, ◌-◌, ◌*◌, ◌^◌, ◌≡◌, refl, true, none, some, List, [], ◌∷◌, ◌++◌, arith,
  replicate,
}
use cso18_labs.Malloc.Machine.{ok, ◌>>=◌, poke, store_le, load_le, fill, copy}
use cso18_labs.Malloc.Memlib.{
  Mem, IsMem, max_heap, align, mem_sbrk, mem_heap_lo, mem_heap_hi, mem_heapsize, mem_reset_brk,
  load_size, store_size, is_aligned,
}
use cso18_labs.Malloc.Naive.{
  Report, mm_init, mm_malloc, mm_free, mm_realloc, mm_checkheap, set_chunk_status, get_chunk_status,
  set_chunk_size_status, get_chunk_size, get_next_chunk,
}
use cso18_labs.Malloc.Naive.Header.{HasHeader}
use cso18_labs.Malloc.Naive.Chunks.{done, At, here}
use cso18_labs.Malloc.Naive.Alloc.{
  IsHeap, extend, extend-IsHeap, chunk_for, HasRoom, IsFresh, mm_malloc-IsFresh,
  mm_malloc_truncates,
}
use cso18_labs.Malloc.Naive.Release.{IsFreed, mm_free-IsFreed}
use cso18_labs.Malloc.Naive.Move.{IsMoved, mm_realloc-IsMoved}
use cso18_labs.Malloc.Naive.Check.{Adds, no_chunks, mm_checkheap_lem}
use cso18_labs.Malloc.Driver.{
  Message, malloc_error, Driver, return_zero, TraceOp, OpType, alloc_op, free_op, realloc_op, naive,
  eval_op, eval_ops, eval_mm_valid, record_alloc, record_realloc, compare_old, add_range,
  fill_block, remember, read_cell, write_cell, preserved, remove_range, clear_ranges, malloc_error,
  not_preserved, overlaps_any, overlaps_range, lies_outside,
}
use cso18_labs.Malloc.Driver.Ranges.{
  Every, none_left, one_more, Disjoint, Accepts, with_range, add_range_lem, add_range-Disjoint,
  add_range_misses_inner,
}
use cso18_labs.Malloc.Driver.Settle.{first, later}
use cso18_labs.Malloc.Driver.Valid.{
  IsTrace, finished, allocates, reallocates, frees, total_cost, cost, eval_mm_valid-naive,
  compare_old_rejects,
}

-- The heap behind `mem_init`, at address 4096.
abbrev empty_mem : Mem
empty_mem = record { start_brk = 4096; brk = 4096; max_addr = 4096 + max_heap; bytes = λ a. 0 }

empty-IsMem : IsMem empty_mem
empty-IsMem = omega arith

empty-IsHeap : IsHeap [] empty_mem
empty-IsHeap = record { memory = empty-IsMem; chunks = done refl }

-- One chunk of 48 bytes.
abbrev one_mem : Mem
one_mem = record {
  start_brk = 4096;
  brk = 4144;
  max_addr = 4096 + max_heap;
  bytes = store_le 8 (λ a. 0) 4096 49;
}

one-IsHeap : IsHeap ((48, true) ∷ []) one_mem
one-IsHeap =
    unfold extend in extend-IsHeap 48 empty-IsHeap refl (omega arith) (omega arith) (omega arith)

first_chunk : At 4096 48 true ((48, true) ∷ []) 4096
first_chunk = here refl refl refl

program : Unit {0}
unfolding poke store_le load_le fill copy align mem_sbrk mem_heap_lo mem_heap_hi mem_heapsize
    mem_reset_brk load_size store_size is_aligned mm_init mm_malloc mm_free mm_realloc mm_checkheap
    set_chunk_status get_chunk_status set_chunk_size_status get_chunk_size get_next_chunk chunk_for
    eval_op eval_ops eval_mm_valid record_alloc record_realloc compare_old add_range fill_block
    remember read_cell write_cell preserved remove_range clear_ranges malloc_error overlaps_any
    overlaps_range lies_outside
program = tt

room_of_20 : HasRoom 20 empty_mem
unfolding program
room_of_20 = omega arith

mm_malloc-IsFresh_example :
    (HasRoom 20 empty_mem
      → (p : ℕ) × (m' : Mem) × (mm_malloc 20 empty_mem ≡ ok (p, m')) × IsFresh 20 [] empty_mem p m')
    × (¬ HasRoom 20 empty_mem → mm_malloc 20 empty_mem ≡ ok (0, empty_mem))
mm_malloc-IsFresh_example = mm_malloc-IsFresh 20 empty-IsHeap (omega arith)

mm_malloc_truncates_example : mm_malloc (1 * 2 ^ 32) empty_mem ≡ ok (4096 + 16, extend 16 empty_mem)
mm_malloc_truncates_example =
    mm_malloc_truncates 1 empty-IsHeap (omega arith) (omega arith) (omega arith)

mm_free-IsFreed_example :
    (m' : Mem) × (mm_free (4096 + 16) one_mem ≡ ok m') × IsFreed ((48, true) ∷ []) one_mem 4096 m'
mm_free-IsFreed_example = mm_free-IsFreed 4096 one-IsHeap first_chunk (omega arith)

room_of_0 : HasRoom 0 empty_mem
unfolding program
room_of_0 = omega arith

room_behind_one : HasRoom 20 one_mem
unfolding program
room_behind_one = omega arith

mm_realloc-IsMoved_example :
    (q : ℕ) × (m' : Mem) × (mm_realloc (4096 + 16) 20 one_mem ≡ ok (q, m'))
    × IsMoved one-IsHeap first_chunk 20 (omega arith) (omega arith) room_behind_one q m'
mm_realloc-IsMoved_example =
    mm_realloc-IsMoved one-IsHeap first_chunk 20 (omega arith) (omega arith) room_behind_one
      (omega arith)

-- A heap without room.
abbrev full_mem : Mem
full_mem = record { start_brk = 4096; brk = 8192; max_addr = 8192; bytes = λ a. 0 }

fails_when_full : mm_malloc 20 full_mem ≡ ok (0, full_mem)
unfolding mm_malloc mem_sbrk align
fails_when_full = refl

mm_checkheap_lem_example :
    (r : Report) × (mm_checkheap one_mem ≡ ok r)
    × Adds no_chunks ((48, true) ∷ []) r
    × (r.total_allocated_sz + r.total_free_sz ≡ mem_heapsize one_mem)
mm_checkheap_lem_example = mm_checkheap_lem one-IsHeap

abbrev driver : Driver
driver = record {
  mem = empty_mem;
  ranges = [];
  blocks = replicate 2 none;
  block_sizes = replicate 2 none;
  errors = [];
}

abbrev op : OpType → ℕ → ℕ → TraceOp
op t i s = record { type = t; index = i; size = s }

abbrev trace : List TraceOp
trace =
    op alloc_op 0 24 ∷ op alloc_op 1 8 ∷ op realloc_op 0 40 ∷ op free_op 1 0 ∷ op free_op 0 0 ∷ []

runs : (eval_mm_valid naive trace driver >>= λ r. ok r.0) ≡ ok true
unfolding program
runs = refl

is_trace : IsTrace 2 [] trace
unfolding program
is_trace = allocates refl (omega arith) (omega arith) (omega arith) (omega arith) (
    allocates refl (omega arith) (omega arith) (omega arith) (omega arith) (
      reallocates refl (omega arith) (later (first refl)) (omega arith) (omega arith) (omega arith)
        (omega arith) (frees refl (later (first refl)) (frees refl (first refl) finished))))

eval_mm_valid-naive_example :
    (d' : Driver) × (eval_mm_valid naive trace driver ≡ ok (true, d')) × (d'.errors ≡ [])
eval_mm_valid-naive_example =
    eval_mm_valid-naive driver empty-IsMem refl is_trace
      (unfold total_cost cost program in omega arith)

-- A block at 4112 of 24 bytes is recorded, and the heap reaches 4192.
abbrev recorded : Driver
recorded = record driver {
  mem = record empty_mem { brk = 4192 };
  ranges = record { lo = 4112; hi = 4135 } ∷ [];
}

add_range_lem_example :
    (Accepts 4160 16 recorded
      × (add_range 4160 16 0 recorded ≡ ok (true, with_range 4160 16 recorded)))
    ⊎ (¬ Accepts 4160 16 recorded
        × ((m : Message) × (add_range 4160 16 0 recorded ≡ ok (false, malloc_error 0 m recorded))))
add_range_lem_example =
    add_range_lem 4160 16 0 recorded (omega arith) (omega arith) (one_more (omega arith) none_left)
      (omega arith)

accepted : add_range 4160 16 0 recorded ≡ ok (true, with_range 4160 16 recorded)
unfolding program
accepted = refl

add_range-Disjoint_example : Every (Disjoint 4160 4175) recorded.ranges
add_range-Disjoint_example =
    add_range-Disjoint 4160 16 0 recorded (omega arith) (omega arith)
      (one_more (omega arith) none_left) (omega arith) (one_more (omega arith) none_left)
      (with_range 4160 16 recorded) accepted

add_range_misses_inner_example :
    (add_range 4096 64 0 recorded ≡ ok (true, with_range 4096 64 recorded))
    × ¬ Disjoint 4096 (4096 + 64 - 1) (record { lo = 4112; hi = 4135 })
add_range_misses_inner_example =
    add_range_misses_inner 4096 64 0 (record { lo = 4112; hi = 4135 }) [] recorded (omega arith)
      (omega arith) refl (omega arith) (omega arith) refl (omega arith) (omega arith) none_left
      none_left

-- The driver behind the allocation of 24 bytes to id 200 at 4112.
abbrev wide : Driver
wide = record {
  mem = record empty_mem { brk = 4192 };
  ranges = [];
  blocks = replicate 200 none ++ some 4112 ∷ [];
  block_sizes = replicate 200 none ++ some 24 ∷ [];
  errors = [];
}

compare_old_rejects_example :
    compare_old 1 (op realloc_op 200 32) 4160 wide
    ≡ ok (return_zero (malloc_error 1 not_preserved wide))
compare_old_rejects_example =
    compare_old_rejects 1 (op realloc_op 200 32) 4160 24 wide (unfold program in refl) (omega arith)
      (omega arith) refl (omega arith)

one-HasHeader : HasHeader 4096 48 true one_mem
unfolding program
one-HasHeader = record { stored = refl; even = refl; reads = refl }
