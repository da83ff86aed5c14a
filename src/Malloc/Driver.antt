-- ===== src/Malloc/Driver.antt =====
-- malloclab/mdriver.c: the range list and `eval_mm_valid`, over any allocator package with the
-- interface of malloclab/mm.h. An `int` is its bit pattern, a number below 2 ^ 32.
pub mod Ranges
pub mod Blocks
pub mod Settle
pub mod Requests
pub mod Valid
use cso18_labs.Base.{
  ℕ, zero, suc, ◌+◌, ◌-◌, ◌%◌, ◌^◌, Bool, true, false, not, ◌&&◌, ◌||◌, Option, none, some, List,
  [], ◌∷◌, ltb, leb, ◌==◌, if◌then◌else◌, length, get_elem?, set,
}
use cso18_labs.Malloc.Machine.{
  Run, ok, fault, bad_access, uninitialised, ◌>>=◌, ◌>>◌, check, assert, fill,
}
use cso18_labs.Malloc.Memlib.{
  Mem, is_aligned, is_negative, mem_heap_lo, mem_heap_hi, mem_reset_brk, in_storage,
}
use cso18_labs.Malloc.Naive.{mm_init, mm_malloc, mm_free, mm_realloc, of_int}

-- The functions of mm.h, for a package that keeps its whole state in the simulated heap. `init`
-- returns an `int`, `malloc` and `realloc` an address.
pub record Package : Type 0 where
  pub init : Mem → Run (ℕ × Mem)
  pub malloc : ℕ → Mem → Run (ℕ × Mem)
  pub free : ℕ → Mem → Run Mem
  pub realloc : ℕ → ℕ → Mem → Run (ℕ × Mem)

-- The driver linked with mm-naive.c.
abbrev pub naive : Package
naive = record { init = mm_init; malloc = mm_malloc; free = mm_free; realloc = mm_realloc }

-- The driver linked with mm.c as it stands in the repository.
abbrev pub stub : Package
stub = record {
  init = λ m. ok (0, m);
  malloc = λ size m. ok (0, m);
  free = λ ptr m. ok m;
  realloc = λ ptr size m. ok (0, m);
}

-- `range_t`, without the link.
pub record Range : Type 0 where
  pub lo : ℕ
  pub hi : ℕ

pub data OpType : Type 0 where
  alloc_op free_op realloc_op : OpType

-- `traceop_t`
pub record TraceOp : Type 0 where
  pub type : OpType
  pub index : ℕ
  pub size : ℕ

-- The messages that `malloc_error` prints.
pub data Message : Type 0 where
  init_failed malloc_failed realloc_failed not_preserved : Message
  not_aligned outside_heap overlaps : Message

-- `LINENUM`
abbrev pub linenum : ℕ → ℕ
linenum i = i + 5

-- What the functions share: the simulated memory, the range list, the arrays `blocks` and
-- `block_sizes` of the trace, in which `none` is an element that was never written, and the
-- errors so far, the last first, each with its line.
pub record Driver : Type 0 where
  pub mem : Mem
  pub ranges : List Range
  pub blocks : List (Option ℕ)
  pub block_sizes : List (Option ℕ)
  pub errors : List (ℕ × Message)

unfoldable pub malloc_error : ℕ → Message → Driver → Driver
malloc_error opnum msg d = record d { errors = (linenum opnum, msg) ∷ d.errors }

-- The test in the loop of `add_range`.
unfoldable pub overlaps_range : ℕ → ℕ → Range → Bool
overlaps_range lo hi p = (leb p.lo lo && leb lo p.hi) || (leb p.lo hi && leb hi p.hi)

unfoldable pub overlaps_any : ℕ → ℕ → List Range → Bool
overlaps_any lo hi [] = false
overlaps_any lo hi (p ∷ ranges) = overlaps_range lo hi p || overlaps_any lo hi ranges

-- `(lo < heap_lo) || (lo > heap_hi) || (hi < heap_lo) || (hi > heap_hi)`
unfoldable pub lies_outside : ℕ → ℕ → Mem → Bool
lies_outside lo hi m =
    ltb lo (mem_heap_lo m)
    || (ltb (mem_heap_hi m) lo || (ltb hi (mem_heap_lo m) || ltb (mem_heap_hi m) hi))

-- `size > 0` for the bit pattern of an `int`
abbrev pub is_positive : ℕ → Bool
is_positive size = ltb 0 size && not (is_negative size)

-- `true` is the result 1.
unfoldable pub add_range : ℕ → ℕ → ℕ → Driver → Run (Bool × Driver)
add_range lo size opnum d = do
  let hi = lo + size - 1
  assert (is_positive size)
  if not (is_aligned lo)
      then ok (false, malloc_error opnum not_aligned d)
      else if lies_outside lo hi d.mem
      then ok (false, malloc_error opnum outside_heap d)
      else if overlaps_any lo hi d.ranges
      then ok (false, malloc_error opnum overlaps d)
      else ok (true, record d { ranges = record { lo = lo; hi = hi } ∷ d.ranges })

unfoldable pub remove_range : ℕ → List Range → List Range
remove_range lo [] = []
remove_range lo (p ∷ ranges) = if p.lo == lo then ranges else p ∷ remove_range lo ranges

unfoldable pub clear_ranges : List Range → List Range
clear_ranges ranges = []

-- A read of `blocks` or `block_sizes`.
unfoldable pub read_cell : List (Option ℕ) → ℕ → Run ℕ
read_cell cells i = elim (get_elem? cells i) [
  | none ↦ fault bad_access
  | some none ↦ fault uninitialised
  | some (some v) ↦ ok v
]

unfoldable pub write_cell : List (Option ℕ) → ℕ → ℕ → Run (List (Option ℕ))
write_cell cells i v = if ltb i (length cells) then ok (set cells i (some v)) else fault bad_access

-- `trace->blocks[index] = p; trace->block_sizes[index] = size;`
unfoldable pub remember : ℕ → ℕ → ℕ → Driver → Run Driver
remember index p size d = do
  blocks ← write_cell d.blocks index p
  block_sizes ← write_cell d.block_sizes index size
  ok (record d { blocks = blocks; block_sizes = block_sizes })

-- `memset(p, index & 0xFF, size)`
unfoldable pub fill_block : ℕ → ℕ → ℕ → Driver → Run Driver
fill_block p index size d =
    if in_storage p size d.mem
    then ok (record d { mem = record d.mem { bytes = fill d.mem.bytes p (index % 256) size } })
    else fault bad_access

-- `newp[j] == (index & 0xFF)`: the left side is a `char`, which is signed and so negative where
-- its byte is 128 or more.
abbrev pub char_equals : ℕ → ℕ → Bool
char_equals byte c = ltb byte 128 && byte == c

-- The loop over `j`, from `j` on, with the rounds that are left.
unfoldable pub preserved : ℕ → ℕ → ℕ → ℕ → Mem → Run Bool
preserved zero newp j index m = ok true
preserved (suc n) newp j index m =
    let rest = preserved n newp (j + 1) index m in
    if in_storage (newp + j) 1 m
    then (if char_equals (m.bytes (newp + j)) (index % 256) then rest else ok false)
    else fault bad_access

-- One round of the loop of `eval_mm_valid`: it goes on, or the function returns 0.
pub data Step : Type 0 where
  go : Driver → Step
  return_zero : Driver → Step

-- What an ALLOC does behind the call of `mm_malloc` that returned `p`.
unfoldable pub record_alloc : ℕ → TraceOp → ℕ → Driver → Run Step
record_alloc i op p d = if p == 0 then ok (return_zero (malloc_error i malloc_failed d)) else (do
  (added, d) ← add_range p op.size i d
  elim added [
    | false ↦ ok (return_zero d)
    | true ↦ do d ← fill_block p op.index op.size d; d ← remember op.index p op.size d; ok (go d)
  ])

-- What a REALLOC does behind its checks of the new block `newp`.
unfoldable pub compare_old : ℕ → TraceOp → ℕ → Driver → Run Step
compare_old i op newp d = do
  oldsize ← read_cell d.block_sizes op.index
  same ← preserved (if ltb op.size oldsize then op.size else oldsize) newp 0 op.index d.mem
  elim same [
    | false ↦ ok (return_zero (malloc_error i not_preserved d))
    | true ↦ do
      d ← fill_block newp op.index op.size d
      d ← remember op.index newp op.size d
      ok (go d)
  ]

unfoldable pub record_realloc : ℕ → TraceOp → ℕ → ℕ → Driver → Run Step
record_realloc i op oldp newp d =
    if newp == 0 then ok (return_zero (malloc_error i realloc_failed d)) else (do
      (added, d) ← add_range newp op.size i (record d { ranges = remove_range oldp d.ranges })
      elim added [ false ↦ ok (return_zero d) | true ↦ compare_old i op newp d ])

module _ (mm : Package) where
  -- The `switch` on the type of request `i`.
  unfoldable pub eval_op : OpType → ℕ → TraceOp → Driver → Run Step
  eval_op alloc_op i op d = do
    (p, m) ← mm.malloc (of_int op.size) d.mem
    record_alloc i op p (record d { mem = m })
  eval_op realloc_op i op d = do
    oldp ← read_cell d.blocks op.index
    (newp, m) ← mm.realloc oldp (of_int op.size) d.mem
    record_realloc i op oldp newp (record d { mem = m })
  eval_op free_op i op d = do
    p ← read_cell d.blocks op.index
    m ← mm.free p d.mem
    ok (go (record d { mem = m; ranges = remove_range p d.ranges }))

  -- The loop over the requests, from number `i` on.
  unfoldable pub eval_ops : ℕ → List TraceOp → Driver → Run (Bool × Driver)
  eval_ops i [] d = ok (true, d)
  eval_ops i (op ∷ ops) d = do
    step ← eval_op op.type i op d
    elim step [ return_zero d ↦ ok (false, d) | go d ↦ eval_ops (i + 1) ops d ]

  -- `true` is the result 1.
  unfoldable pub eval_mm_valid : List TraceOp → Driver → Run (Bool × Driver)
  eval_mm_valid ops d = do
    let d = record d { mem = mem_reset_brk d.mem; ranges = clear_ranges d.ranges }
    (status, m) ← mm.init d.mem
    let d = record d { mem = m }
    if is_negative status then ok (false, malloc_error 0 init_failed d) else eval_ops 0 ops d
