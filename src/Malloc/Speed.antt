-- ===== src/Malloc/Speed.antt =====
-- The other evaluations of malloclab/mdriver.c: `eval_mm_util`, `eval_mm_speed`, `eval_libc_valid`
-- and `eval_libc_speed`. An `int` is its bit pattern. `libc` stands for the C library's `malloc`,
-- `realloc` and `free`.
pub mod Returns
pub mod Agree
pub mod Count
pub mod Mark
use cso18_labs.Base.{
  ℕ, zero, suc, ◌+◌, ◌-◌, ◌%◌, ◌^◌, Bool, true, false, List, [], ◌∷◌, ltb, ◌==◌, if◌then◌else◌,
}
use cso18_labs.Malloc.Machine.{Run, ok, fault, exited, ◌>>=◌, ◌>>◌}
use cso18_labs.Malloc.Memlib.{Mem, is_negative, mem_heapsize, mem_reset_brk}
use cso18_labs.Malloc.Naive.{of_int}
use cso18_labs.Malloc.Driver.{
  Package, OpType, alloc_op, realloc_op, free_op, TraceOp, Driver, read_cell, write_cell, remember,
}

-- The variables of `eval_mm_util`.
pub record Util : Type 0 where
  pub driver : Driver
  pub total_size : ℕ
  pub max_total_size : ℕ

abbrev pub int_add : ℕ → ℕ → ℕ
int_add a b = (a + b) % 2 ^ 32

abbrev pub int_sub : ℕ → ℕ → ℕ
int_sub a b = (a + (2 ^ 32 - b)) % 2 ^ 32

-- `a > b` on the bit patterns of two `int`s
abbrev pub int_gt : ℕ → ℕ → Bool
int_gt a b = ltb ((b + 2 ^ 31) % 2 ^ 32) ((a + 2 ^ 31) % 2 ^ 32)

-- "Keep track of current total size" and "Update statistics", behind the request's own change.
abbrev pub update : ℕ → Driver → Util → Util
update total d u = record {
  driver = d;
  total_size = total;
  max_total_size = if int_gt total u.max_total_size then total else u.max_total_size;
}

abbrev pub nonnull : ℕ → Run (Unit {0})
nonnull p = if p == 0 then fault exited else ok tt

module _ (mm : Package) where
  -- The `switch` of `eval_mm_util`.
  unfoldable pub util_op : OpType → TraceOp → Util → Run Util
  util_op alloc_op op u = do
    let d = u.driver
    (p, m) ← mm.malloc (of_int op.size) d.mem
    nonnull p
    d ← remember op.index p (of_int op.size) (record d { mem = m })
    ok (update (int_add u.total_size op.size) d u)
  util_op realloc_op op u = do
    let d = u.driver
    oldsize ← read_cell d.block_sizes op.index
    oldp ← read_cell d.blocks op.index
    (newp, m) ← mm.realloc oldp (of_int op.size) d.mem
    nonnull newp
    d ← remember op.index newp (of_int op.size) (record d { mem = m })
    ok (update (int_add u.total_size (int_sub op.size (oldsize % 2 ^ 32))) d u)
  util_op free_op op u = do
    let d = u.driver
    size ← read_cell d.block_sizes op.index
    p ← read_cell d.blocks op.index
    m ← mm.free p d.mem
    ok (record {
      driver = record d { mem = m };
      total_size = int_sub u.total_size (size % 2 ^ 32);
      max_total_size = u.max_total_size;
    })

  unfoldable pub util_ops : List TraceOp → Util → Run Util
  util_ops [] u = ok u
  util_ops (op ∷ ops) u = util_op op.type op u >>= λ u. util_ops ops u

  -- `mem_reset_brk(); if (mm_init() < 0) app_error(...)`
  unfoldable pub start : Driver → Run Driver
  start d = do
    (status, m) ← mm.init (mem_reset_brk d.mem)
    if is_negative status then fault exited else ok (record d { mem = m })

  -- The result stands for the quotient `max_total_size / mem_heapsize()`.
  unfoldable pub eval_mm_util : List TraceOp → Driver → Run (ℕ × ℕ × Driver)
  eval_mm_util ops d = do
    d ← start d
    u ← util_ops ops (record { driver = d; total_size = 0; max_total_size = 0 })
    ok (u.max_total_size, mem_heapsize u.driver.mem, u.driver)

  -- The `switch` of `eval_mm_speed`, of `eval_libc_valid` and of `eval_libc_speed`.
  unfoldable pub speed_op : OpType → TraceOp → Driver → Run Driver
  speed_op alloc_op op d = do
    (p, m) ← mm.malloc (of_int op.size) d.mem
    nonnull p
    blocks ← write_cell d.blocks op.index p
    ok (record d { mem = m; blocks = blocks })
  speed_op realloc_op op d = do
    oldp ← read_cell d.blocks op.index
    (newp, m) ← mm.realloc oldp (of_int op.size) d.mem
    nonnull newp
    blocks ← write_cell d.blocks op.index newp
    ok (record d { mem = m; blocks = blocks })
  speed_op free_op op d = do
    block ← read_cell d.blocks op.index
    m ← mm.free block d.mem
    ok (record d { mem = m })

  unfoldable pub speed_ops : List TraceOp → Driver → Run Driver
  speed_ops [] d = ok d
  speed_ops (op ∷ ops) d = speed_op op.type op d >>= λ d. speed_ops ops d

  unfoldable pub eval_mm_speed : List TraceOp → Driver → Run Driver
  eval_mm_speed ops d = start d >>= λ d. speed_ops ops d

module _ (libc : Package) where
  unfoldable pub eval_libc_speed : List TraceOp → Driver → Run Driver
  eval_libc_speed = speed_ops libc

  -- The result is 1 whenever the function returns: a failed call exits.
  unfoldable pub eval_libc_valid : List TraceOp → Driver → Run (ℕ × Driver)
  eval_libc_valid ops d = speed_ops libc ops d >>= λ d. ok (1, d)
