-- ===== src/Malloc/Driver/Valid.antt =====
-- `eval_mm_valid` of malloclab/mdriver.c on the allocator of mm-naive.c.
use cso18_labs.Base.{
  ℕ, zero, suc, ◌+◌, ◌%◌, ◌^◌, ◌≤◌, ◌<◌, ◌≡◌, refl, ap, ◌∙◌, sym, Bool, true, false, List, [], ◌∷◌,
  ltb, if◌then◌else◌, length, arith,
}
use cso18_labs.Malloc.Machine.{Run, ok, ◌>>=◌}
use cso18_labs.Malloc.Memlib.{Mem, IsMem, in_storage, mem_reset_brk}
use cso18_labs.Malloc.Naive.{mm_init}
use cso18_labs.Malloc.Naive.Chunks.{Chunk, done}
use cso18_labs.Malloc.Naive.Alloc.{chunk_for}
use cso18_labs.Malloc.Driver.{
  Driver, go, return_zero, TraceOp, OpType, alloc_op, free_op, realloc_op, naive, eval_op, eval_ops,
  eval_mm_valid, record_alloc, compare_old, malloc_error, not_preserved, malloc_failed, stub,
  read_cell, preserved, char_equals, clear_ranges,
}
use cso18_labs.Malloc.Driver.Ranges.{none_left}
use cso18_labs.Malloc.Driver.Settle.{In, IsRunning}
use cso18_labs.Malloc.Driver.Requests.{Goes, alloc-Goes, realloc_lem, free-Goes}

-- A trace over `ids` ids, of which `seen` have been allocated: sizes are positive and fit an
-- `int` with their chunk; only ids that were allocated are reallocated or freed; and an id that
-- is reallocated has a low byte below 128.
pub data IsTrace (ids : ℕ) : List ℕ → List TraceOp → Type 0 where
  finished : {seen : List ℕ} → IsTrace ids seen []
  allocates :
      {seen : List ℕ} {op : TraceOp} {ops : List TraceOp}
      → op.type ≡ alloc_op
      → op.index < ids
      → 0 < op.size
      → op.size < 2 ^ 31
      → chunk_for op.size < 2 ^ 31
      → IsTrace ids (op.index ∷ seen) ops
      → IsTrace ids seen (op ∷ ops)
  reallocates :
      {seen : List ℕ} {op : TraceOp} {ops : List TraceOp}
      → op.type ≡ realloc_op
      → op.index < ids
      → In op.index seen
      → op.index % 256 < 128
      → 0 < op.size
      → op.size < 2 ^ 31
      → chunk_for op.size < 2 ^ 31
      → IsTrace ids (op.index ∷ seen) ops
      → IsTrace ids seen (op ∷ ops)
  frees :
      {seen : List ℕ} {op : TraceOp} {ops : List TraceOp}
      → op.type ≡ free_op
      → In op.index seen
      → IsTrace ids seen ops
      → IsTrace ids seen (op ∷ ops)

-- The bytes that a request takes from an allocator which never uses a chunk again.
unfoldable pub cost : OpType → ℕ → ℕ
cost free_op size = 0
cost _ size = chunk_for size

unfoldable pub total_cost : List TraceOp → ℕ
total_cost [] = 0
total_cost (op ∷ ops) = cost op.type op.size + total_cost ops

-- The loop goes through.
pub record Passed (d : Driver) (r : Run (Bool × Driver)) : Type 0 where
  pub final : Driver
  pub returns : r ≡ ok (true, final)
  pub errors : final.errors ≡ d.errors

eval_ops_step :
    {ids grown : ℕ} {seen : List ℕ} {t : OpType} (i : ℕ) (op : TraceOp) (ops : List TraceOp)
    {d : Driver}
    → op.type ≡ t
    → (g : Goes ids seen grown d (eval_op naive t i op d))
    → Passed g.next (eval_ops naive (i + 1) ops g.next)
    → Passed d (eval_ops naive i (op ∷ ops) d)
unfolding eval_ops
eval_ops_step i op ops {d} e g p =
    let this : eval_op naive op.type i op d ≡ ok (go g.next) =
      ap (λ k. eval_op naive k i op d) e ∙ g.runs in
    record { final = p.final; returns = rw (this, ◌>>=◌) p.returns; errors = p.errors ∙ g.errors }

eval_ops_passes :
    {ids : ℕ} {seen : List ℕ} {ops : List TraceOp} {cs : List Chunk} {d : Driver} (i : ℕ)
    → IsTrace ids seen ops
    → IsRunning ids cs seen d
    → d.mem.brk + total_cost ops ≤ d.mem.max_addr
    → Passed d (eval_ops naive i ops d)
unfolding total_cost cost
eval_ops_passes {d = d} i finished v room = record {
  final = d;
  returns = unfold eval_ops in refl;
  errors = refl;
}
eval_ops_passes {d = d} i (allocates {op = op} {ops = ops} e known pos small int rest) v room =
    let cost_is : cost op.type op.size ≡ chunk_for op.size = ap (λ t. cost t op.size) e in
    let g = alloc-Goes v i op pos small (int, omega arith) known in
    eval_ops_step i op ops e g
      (eval_ops_passes (i + 1) rest g.running (omega (arith, g.brk, g.limit)))
eval_ops_passes {d = d} i (reallocates {op = op} {ops = ops} e known m low pos small int rest) v
      room =
    let cost_is : cost op.type op.size ≡ chunk_for op.size = ap (λ t. cost t op.size) e in
    let g = realloc_lem v i op pos small (int, omega arith) (v.remembers op.index m) known low in
    eval_ops_step i op ops e g
      (eval_ops_passes (i + 1) rest g.running (omega (arith, g.brk, g.limit)))
eval_ops_passes {d = d} i (frees {op = op} {ops = ops} e m rest) v room =
    let cost_is : cost op.type op.size ≡ 0 = ap (λ t. cost t op.size) e in
    let g = free-Goes v i op (v.remembers op.index m) in
    eval_ops_step i op ops e g
      (eval_ops_passes (i + 1) rest g.running (omega (arith, g.brk, g.limit)))

reset-IsRunning :
    (d : Driver)
    → IsMem d.mem
    → length d.blocks ≡ length d.block_sizes
    → IsRunning
        (length d.blocks)
        []
        []
        (record d { mem = mem_reset_brk d.mem; ranges = clear_ranges d.ranges })
unfolding mem_reset_brk clear_ranges
reset-IsRunning d i same = record {
  heap = record { memory = ground (arith, i.bounded, i.started); chunks = done refl };
  ranges = none_left;
  blocks_len = refl;
  sizes_len = sym same;
  remembers = λ j m. elim m [ ];
}

-- Linked with mm-naive.c, `eval_mm_valid` accepts every trace over the ids of its arrays whose
-- allocations the heap can hold side by side: in the trace, sizes are positive and fit an `int`
-- with their chunk, only allocated ids are reallocated or freed, and no id that is reallocated has
-- a low byte of 128 or more. No assertion fails, no access leaves the storage, the function
-- returns 1, and no error is reported.
pub eval_mm_valid-naive :
    {ops : List TraceOp} (d : Driver)
    → IsMem d.mem
    → length d.blocks ≡ length d.block_sizes
    → IsTrace (length d.blocks) [] ops
    → d.mem.start_brk + total_cost ops ≤ d.mem.max_addr
    → (d' : Driver) × (eval_mm_valid naive ops d ≡ ok (true, d')) × (d'.errors ≡ d.errors)
unfolding eval_mm_valid mm_init
eval_mm_valid-naive {ops} d i same trace room =
    let p = eval_ops_passes 0 trace (reset-IsRunning d i same) (unfold mem_reset_brk in room) in
    (p.final, p.returns, p.errors)

preserved_high :
    (n newp index : ℕ) (m : Mem)
    → 0 < n
    → in_storage newp 1 m ≡ true
    → 128 ≤ index % 256
    → preserved n newp 0 index m ≡ ok false
unfolding preserved
preserved_high zero newp index m pos inside high = elim pos [ ]
preserved_high (suc n) newp index m pos inside high =
    let start : newp + 0 ≡ newp = omega arith in
    let negative : char_equals (m.bytes newp) (index % 256) ≡ false = ground arith in
    rw (start, inside, negative)

-- On an id whose low byte is 128 or more, the check behind `mm_realloc` fails whatever the
-- allocator did: the new block's bytes are read as signed characters.
pub compare_old_rejects :
    (i : ℕ) (op : TraceOp) (newp oldsize : ℕ) (d : Driver)
    → read_cell d.block_sizes op.index ≡ ok oldsize
    → 0 < oldsize
    → 0 < op.size
    → in_storage newp 1 d.mem ≡ true
    → 128 ≤ op.index % 256
    → compare_old i op newp d ≡ ok (return_zero (malloc_error i not_preserved d))
unfolding compare_old
compare_old_rejects i op newp oldsize d e old new inside high = rw (
  e,
  ◌>>=◌,
  preserved_high (if ltb op.size oldsize then op.size else oldsize) newp op.index d.mem
      (ground arith) inside high,
)

abbrev reset : Driver → Driver
reset d = record d { mem = mem_reset_brk d.mem; ranges = clear_ranges d.ranges }

-- With mm.c as it stands in the repository, `eval_mm_valid` returns 0 and reports one error, on
-- line 5, for every trace that begins with an allocation.
pub eval_mm_valid-stub :
    (op : TraceOp) (ops : List TraceOp) (d : Driver)
    → op.type ≡ alloc_op
    → (d' : Driver) × (eval_mm_valid stub (op ∷ ops) d ≡ ok (false, d'))
      × (d'.errors ≡ (5, malloc_failed) ∷ d.errors)
unfolding eval_mm_valid eval_ops eval_op record_alloc malloc_error
eval_mm_valid-stub op ops d e = (
  record d {
    mem = mem_reset_brk d.mem;
    ranges = clear_ranges d.ranges;
    errors = (5, malloc_failed) ∷ d.errors;
  },
  rw (ap (λ t. eval_op stub t 0 op (reset d)) e, ◌>>=◌),
  refl,
)
