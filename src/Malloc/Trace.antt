-- ===== src/Malloc/Trace.antt =====
-- `read_trace` of malloclab/mdriver.c. A trace file is the list of its words, which `fscanf` takes
-- one after the other; a word is a number below 2 ^ 32 or has its first character.
pub mod Print
use cso18_labs.Base.{
  ℕ, zero, suc, ◌+◌, ◌-◌, ◌%◌, ◌^◌, Bool, true, false, Option, none, some, List, [], ◌∷◌, ◌++◌, ltb,
  ◌==◌, if◌then◌else◌, length, replicate,
}
use cso18_labs.Base.Run.{out_of_fuel}
use cso18_labs.Malloc.Machine.{
  Run, ok, fault, bad_access, uninitialised, exited, ◌>>=◌, ◌>>◌, check, assert,
}
use cso18_labs.Malloc.Driver.{OpType, alloc_op, realloc_op, free_op, TraceOp}

pub data Word : Type 0 where
  number : ℕ → Word
  letters : ℕ → Word

-- `trace_t`. An element of `blocks` or `block_sizes` that is `none` was never written.
pub record Trace : Type 0 where
  pub sugg_heapsize : ℕ
  pub num_ids : ℕ
  pub num_ops : ℕ
  pub weight : ℕ
  pub ops : List TraceOp
  pub blocks : List (Option ℕ)
  pub block_sizes : List (Option ℕ)

-- The variables of the loop: `op_index` is the length of `ops`. `size` is not initialised.
pub record Reader : Type 0 where
  pub index : ℕ
  pub size : Option ℕ
  pub max_index : ℕ
  pub ops : List TraceOp

-- `fscanf(tracefile, "%d", &field)` for a field that nothing has written before.
unfoldable pub scan_field : List Word → Run (ℕ × List Word)
scan_field (number n ∷ words) = ok (n, words)
scan_field _ = fault uninitialised

-- `fscanf(tracefile, "%u %u", &index, &size)`: a word that is no number is left, and the variables
-- keep their values from there on.
unfoldable pub scan_two : List Word → Reader → Reader × List Word
scan_two (number i ∷ number n ∷ words) r = (record r { index = i; size = some n }, words)
scan_two (number i ∷ words) r = (record r { index = i }, words)
scan_two words r = (r, words)

-- `fscanf(tracefile, "%ud", &index)`
unfoldable pub scan_one : List Word → Reader → Reader × List Word
scan_one (number i ∷ words) r = (record r { index = i }, words)
scan_one words r = (r, words)

-- `trace->ops[op_index] = op; op_index++`
unfoldable pub store_op : ℕ → TraceOp → Reader → Run Reader
store_op num_ops op r =
    if ltb (length r.ops) num_ops
    then ok (record r { ops = r.ops ++ op ∷ [] })
    else fault bad_access

-- The cases 'a' and 'r'.
unfoldable pub read_sized : ℕ → OpType → Reader → Run Reader
read_sized num_ops type r = elim r.size [
  | none ↦ fault uninitialised
  | some n ↦
      store_op num_ops (record { type = type; index = r.index; size = n })
        (record r { max_index = if ltb r.max_index r.index then r.index else r.max_index })
]

-- The case 'f', in which the size of the request stays unwritten; here 0 stands for it. Of a request
-- to free only `eval_mm_valid` loads the size, and it does not use it.
unfoldable pub read_free : ℕ → Reader → Run Reader
read_free num_ops r = store_op num_ops (record { type = free_op; index = r.index; size = 0 }) r

-- The type of a request whose line begins with the character: 'a', 'r' or 'f'.
unfoldable pub type_of : ℕ → Option OpType
type_of c =
    if c == 97
    then some alloc_op
    else if c == 114
    then some realloc_op
    else if c == 102
    then some free_op
    else none

unfoldable pub scan_request : OpType → List Word → Reader → Reader × List Word
scan_request alloc_op words r = scan_two words r
scan_request realloc_op words r = scan_two words r
scan_request free_op words r = scan_one words r

unfoldable pub read_request : ℕ → OpType → Reader → Run Reader
read_request num_ops alloc_op r = read_sized num_ops alloc_op r
read_request num_ops realloc_op r = read_sized num_ops realloc_op r
read_request num_ops free_op r = read_free num_ops r

-- The loop over the lines of the file. Each round takes a word, so that as many rounds as there are
-- words are enough.
unfoldable pub read_ops : ℕ → ℕ → List Word → Reader → Run Reader
read_ops fuel num_ops [] r = ok r
read_ops zero num_ops (w ∷ words) r = fault out_of_fuel
read_ops (suc fuel) num_ops (number n ∷ words) r = fault exited
read_ops (suc fuel) num_ops (letters c ∷ words) r = elim (type_of c) [
  | none ↦ fault exited
  | some type ↦
      let (r, words) = scan_request type words r in
      read_request num_ops type r >>= λ r. read_ops fuel num_ops words r
]

-- The two assertions behind the loop; `num_ids - 1` is computed on `unsigned`s.
unfoldable pub finish : ℕ → ℕ → ℕ → ℕ → Reader → Run Trace
finish heapsize num_ids num_ops weight r = do
  assert (r.max_index == (num_ids + (2 ^ 32 - 1)) % 2 ^ 32)
  assert (num_ops == length r.ops)
  ok (record {
    sugg_heapsize = heapsize;
    num_ids = num_ids;
    num_ops = num_ops;
    weight = weight;
    ops = r.ops;
    blocks = replicate num_ids none;
    block_sizes = replicate num_ids none;
  })

unfoldable pub read_trace : List Word → Run Trace
read_trace words = do
  (heapsize, words) ← scan_field words
  (num_ids, words) ← scan_field words
  (num_ops, words) ← scan_field words
  (weight, words) ← scan_field words
  r ←
      read_ops (length words) num_ops words
        (record { index = 0; size = none; max_index = 0; ops = [] })
  finish heapsize num_ids num_ops weight r
