-- ===== src/Malloc/Trace/Print.antt =====
-- `read_trace` of malloclab/mdriver.c reads back what the trace files write.
use cso18_labs.Base.{
  ℕ, zero, suc, ◌+◌, ◌-◌, ◌%◌, ◌^◌, ◌≡◌, ◌≤◌, ◌<◌, refl, ap, sym, ◌∙◌, true, Option, none, some,
  List, [], ◌∷◌, ◌++◌, ltb, ◌==◌, if◌then◌else◌, length, length-append, append_assoc, append-nil,
  replicate, arith, lt→ltb, ==_iff,
}
use cso18_labs.Malloc.Machine.{ok}
use cso18_labs.Malloc.Driver.{OpType, alloc_op, realloc_op, free_op, TraceOp}
use cso18_labs.Malloc.Trace.{
  Word, number, letters, Trace, Reader, store_op, read_sized, read_free, type_of, scan_request,
  scan_two, scan_one, read_request, read_ops, finish, scan_field, read_trace,
}

-- The line of a request.
abbrev pub print_op : OpType → TraceOp → List Word → List Word
print_op alloc_op op rest = letters 97 ∷ number op.index ∷ number op.size ∷ rest
print_op realloc_op op rest = letters 114 ∷ number op.index ∷ number op.size ∷ rest
print_op free_op op rest = letters 102 ∷ number op.index ∷ rest

abbrev pub print_ops : List TraceOp → List Word
print_ops [] = []
print_ops (op ∷ ops) = print_op op.type op (print_ops ops)

abbrev pub print_trace : Trace → List Word
print_trace t =
    number t.sugg_heapsize ∷ number t.num_ids ∷ number t.num_ops ∷ number t.weight ∷ print_ops t.ops

-- The largest id that is allocated or reallocated, from `m` on.
abbrev pub top_index : ℕ → OpType → ℕ → ℕ
top_index m alloc_op i = if ltb m i then i else m
top_index m realloc_op i = if ltb m i then i else m
top_index m free_op i = m

abbrev pub top_id : ℕ → List TraceOp → ℕ
top_id m [] = m
top_id m (op ∷ ops) = top_id (top_index m op.type op.index) ops

-- A request to free has no size.
pub data IsSized : OpType → ℕ → Type 0 where
  alloc_sized : {n : ℕ} → IsSized alloc_op n
  realloc_sized : {n : ℕ} → IsSized realloc_op n
  free_sized : IsSized free_op 0

pub data AllSized : List TraceOp → Type 0 where
  no_ops : AllSized []
  more_ops :
      {op : TraceOp} {ops : List TraceOp}
      → IsSized op.type op.size
      → AllSized ops
      → AllSized (op ∷ ops)

-- The traces that the program writes down: the counts in the header are right, and the arrays are
-- as `malloc` leaves them.
pub record IsTrace (t : Trace) : Type 0 where
  pub ids : top_id 0 t.ops ≡ (t.num_ids + (2 ^ 32 - 1)) % 2 ^ 32
  pub count : t.num_ops ≡ length t.ops
  pub sized : AllSized t.ops
  pub new_blocks : t.blocks ≡ replicate t.num_ids none
  pub new_sizes : t.block_sizes ≡ replicate t.num_ids none

-- One line.
abbrev IsRead : TraceOp → Reader → Reader → Type 0
IsRead op r s = (s.ops ≡ r.ops ++ op ∷ []) × (s.max_index ≡ top_index r.max_index op.type op.index)

IsRead-line :
    (fuel num_ops : ℕ) (type : OpType) (i n : ℕ) (words : List Word) (r : Reader)
    → IsSized type n
    → length r.ops < num_ops
    → (s : Reader) × (read_ops
          (suc fuel)
          num_ops
          (print_op type (record { type = type; index = i; size = n }) words)
          r
        ≡ read_ops fuel num_ops words s)
      × IsRead (record { type = type; index = i; size = n }) r s
unfolding read_ops type_of scan_request scan_two scan_one read_request read_sized read_free store_op
IsRead-line fuel num_ops alloc_op i n words r sized room = (
  record {
    index = i;
    size = some n;
    max_index = top_index r.max_index alloc_op i;
    ops = r.ops ++ record { type = alloc_op; index = i; size = n } ∷ [];
  },
  rw (lt→ltb (length r.ops) num_ops room) refl,
  (refl, refl),
)
IsRead-line fuel num_ops realloc_op i n words r sized room = (
  record {
    index = i;
    size = some n;
    max_index = top_index r.max_index realloc_op i;
    ops = r.ops ++ record { type = realloc_op; index = i; size = n } ∷ [];
  },
  rw (lt→ltb (length r.ops) num_ops room) refl,
  (refl, refl),
)
IsRead-line fuel num_ops free_op i n words r free_sized room = (
  record {
    index = i;
    size = r.size;
    max_index = r.max_index;
    ops = r.ops ++ record { type = free_op; index = i; size = 0 } ∷ [];
  },
  rw (lt→ltb (length r.ops) num_ops room) refl,
  (refl, refl),
)

no_fuel :
    (type : OpType) (op : TraceOp) (ops : List TraceOp)
    → ¬ (length (print_op type op (print_ops ops)) ≤ 0)
no_fuel alloc_op op ops h = absurd (omega arith)
no_fuel realloc_op op ops h = absurd (omega arith)
no_fuel free_op op ops h = absurd (omega arith)

enough_left :
    (fuel : ℕ) (type : OpType) (op : TraceOp) (ops : List TraceOp)
    → length (print_op type op (print_ops ops)) ≤ suc fuel
    → length (print_ops ops) ≤ fuel
enough_left fuel alloc_op op ops h = omega arith
enough_left fuel realloc_op op ops h = omega arith
enough_left fuel free_op op ops h = omega arith

read_all :
    (fuel num_ops : ℕ) (ops : List TraceOp) (r : Reader)
    → AllSized ops
    → length (print_ops ops) ≤ fuel
    → length r.ops + length ops ≤ num_ops
    → (s : Reader) × (read_ops fuel num_ops (print_ops ops) r ≡ ok s)
      × (s.ops ≡ r.ops ++ ops)
      × (s.max_index ≡ top_id r.max_index ops)
unfolding read_ops
read_all fuel num_ops [] r no_ops enough room = (r, refl, sym (append-nil r.ops), refl)
read_all zero num_ops (op ∷ ops) r (more_ops one rest) enough room =
    absurd (no_fuel op.type op ops enough)
read_all (suc fuel) num_ops (op ∷ ops) r (more_ops one rest) enough room =
    let (mid, line, (stored, top)) =
      IsRead-line fuel num_ops op.type op.index op.size (print_ops ops) r one (omega arith) in
    let grown : length mid.ops ≡ length r.ops + 1 =
      ap length stored ∙ length-append r.ops (op ∷ []) in
    let (s, runs, all, most) =
      read_all fuel num_ops ops mid rest (enough_left fuel op.type op ops enough) (omega arith) in
    (
      s,
      line ∙ runs,
      all ∙ ap (λ t. t ++ ops) stored ∙ append_assoc r.ops (op ∷ []) ops,
      most ∙ ap (λ t. top_id t ops) top,
    )

abbrev with_arrays : Trace → List TraceOp → List (Option ℕ) → List (Option ℕ) → Trace
with_arrays t ops blocks sizes = record {
  sugg_heapsize = t.sugg_heapsize;
  num_ids = t.num_ids;
  num_ops = t.num_ops;
  weight = t.weight;
  ops = ops;
  blocks = blocks;
  block_sizes = sizes;
}

finish_lem :
    (t : Trace) (s : Reader)
    → IsTrace t
    → s.ops ≡ t.ops
    → s.max_index ≡ top_id 0 t.ops
    → finish t.sugg_heapsize t.num_ids t.num_ops t.weight s ≡ ok t
unfolding finish
finish_lem t s good all most =
    let fresh : List (Option ℕ) = replicate t.num_ids none in
    let ids : (s.max_index == (t.num_ids + (2 ^ 32 - 1)) % 2 ^ 32) ≡ true =
      (==_iff _ _).1 (most ∙ good.ids) in
    let count : (t.num_ops == length s.ops) ≡ true =
      (==_iff _ _).1 (good.count ∙ ap length (sym all)) in
    rw (ids, count)
      (ap (λ ops. ok (with_arrays t ops fresh fresh)) all
        ∙ ap (λ b. ok (with_arrays t t.ops b fresh)) (sym good.new_blocks)
        ∙ ap (λ b. ok (with_arrays t t.ops t.blocks b)) (sym good.new_sizes))

-- `read_trace` of a trace as the files write it: the four numbers of the header, then one line for
-- each request. Where the header counts the requests and its number of ids is one more than the
-- largest id that is allocated or reallocated, no assertion fails, no write leaves the array, and
-- the result is that trace.
pub read_trace-print_trace : (t : Trace) → IsTrace t → read_trace (print_trace t) ≡ ok t
unfolding read_trace scan_field finish
read_trace-print_trace t good =
    let room : 0 + length t.ops ≤ t.num_ops = omega (arith, good.count) in
    let (s, runs, all, most) =
      read_all (length (print_ops t.ops)) t.num_ops t.ops
        (record { index = 0; size = none; max_index = 0; ops = [] }) good.sized (omega arith)
        room in
    rw runs (finish_lem t s good all most)
