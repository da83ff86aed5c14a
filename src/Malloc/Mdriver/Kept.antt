-- ===== src/Malloc/Mdriver/Kept.antt =====
-- The evaluations of malloclab/mdriver.c behind `eval_mm_valid` report no errors.
use cso18_labs.Base.{ℕ, zero, suc, subst, List, [], ◌∷◌}
use cso18_labs.Base.Run.{Run, Holds, returns, faults, Holds-bind, Holds-any, if-Holds}
use cso18_labs.Malloc.Memlib.{mem_reset_brk, is_negative}
use cso18_labs.Malloc.Naive.{of_int}
use cso18_labs.Malloc.Driver.{
  Package, TraceOp, OpType, alloc_op, realloc_op, free_op, Driver, read_cell, write_cell, remember,
}
use cso18_labs.Malloc.Speed.{
  Util, util_op, util_ops, start, eval_mm_util, speed_op, speed_ops, eval_mm_speed, nonnull,
}
use cso18_labs.Malloc.Mdriver.{repeat_run}
use cso18_labs.Malloc.Mdriver.Errors.{Keeps, remember-Keeps}

pub repeat_run-Keeps :
    (f : Driver → Run Driver) (k n : ℕ) (d : Driver)
    → ((d1 : Driver) → Keeps n d1 → Holds (Keeps n) (f d1))
    → Keeps n d
    → Holds (Keeps n) (repeat_run f k d)
unfolding repeat_run
repeat_run-Keeps f zero n d step e = returns e
repeat_run-Keeps f (suc k) n d step e =
    Holds-bind (step d e) (λ d1 e1. repeat_run-Keeps f k n d1 step e1)

module _ (mm : Package) where
  start-Keeps : (n : ℕ) (d : Driver) → Keeps n d → Holds (Keeps n) (start mm d)
  unfolding start
  start-Keeps n d e =
      Holds-any (mm.init (mem_reset_brk d.mem))
        (λ (status, m). if-Holds (is_negative status) faults (returns e))

  speed_op-Keeps :
      (type : OpType) (op : TraceOp) (n : ℕ) (d : Driver)
      → Keeps n d
      → Holds (Keeps n) (speed_op mm type op d)
  unfolding speed_op
  speed_op-Keeps alloc_op op n d e = Holds-any (mm.malloc (of_int op.size) d.mem) (λ (p, m).
      Holds-any (nonnull p) (λ _. Holds-any (write_cell d.blocks op.index p) (λ _. returns e)))
  speed_op-Keeps realloc_op op n d e = Holds-any (read_cell d.blocks op.index) (λ oldp.
      Holds-any (mm.realloc oldp (of_int op.size) d.mem) (λ (newp, m).
        Holds-any (nonnull newp)
          (λ _. Holds-any (write_cell d.blocks op.index newp) (λ _. returns e))))
  speed_op-Keeps free_op op n d e =
      Holds-any (read_cell d.blocks op.index) (λ p. Holds-any (mm.free p d.mem) (λ m. returns e))

  speed_ops-Keeps :
      (ops : List TraceOp) (n : ℕ) (d : Driver) → Keeps n d → Holds (Keeps n) (speed_ops mm ops d)
  unfolding speed_ops
  speed_ops-Keeps [] n d e = returns e
  speed_ops-Keeps (op ∷ ops) n d e =
      Holds-bind (speed_op-Keeps op.type op n d e) (λ d1 e1. speed_ops-Keeps ops n d1 e1)

  pub eval_mm_speed-Keeps :
      (ops : List TraceOp) (n : ℕ) (d : Driver)
      → Keeps n d
      → Holds (Keeps n) (eval_mm_speed mm ops d)
  unfolding eval_mm_speed
  eval_mm_speed-Keeps ops n d e =
      Holds-bind (start-Keeps n d e) (λ d1 e1. speed_ops-Keeps ops n d1 e1)

  abbrev UtilKeeps : ℕ → Util → Type 0
  UtilKeeps n u = Keeps n u.driver

  remembers :
      (n index p size : ℕ) (d : Driver) → Keeps n d → Holds (Keeps n) (remember index p size d)
  remembers n index p size d e =
      subst (λ k. Holds (Keeps k) (remember index p size d)) e (remember-Keeps index p size d)

  util_op-Keeps :
      (type : OpType) (op : TraceOp) (n : ℕ) (u : Util)
      → UtilKeeps n u
      → Holds (UtilKeeps n) (util_op mm type op u)
  unfolding util_op
  util_op-Keeps alloc_op op n u e = Holds-any (mm.malloc (of_int op.size) u.driver.mem) (λ (p, m).
      Holds-any (nonnull p) (λ _.
        Holds-bind (remembers n op.index p (of_int op.size) (record u.driver { mem = m }) e)
          (λ d1 e1. returns e1)))
  util_op-Keeps realloc_op op n u e =
      Holds-any (read_cell u.driver.block_sizes op.index) (λ oldsize.
        Holds-any (read_cell u.driver.blocks op.index) (λ oldp.
          Holds-any (mm.realloc oldp (of_int op.size) u.driver.mem) (λ (newp, m).
            Holds-any (nonnull newp) (λ _.
              Holds-bind
                (remembers n op.index newp (of_int op.size) (record u.driver { mem = m }) e)
                (λ d1 e1. returns e1)))))
  util_op-Keeps free_op op n u e = Holds-any (read_cell u.driver.block_sizes op.index) (λ size.
      Holds-any (read_cell u.driver.blocks op.index)
        (λ p. Holds-any (mm.free p u.driver.mem) (λ m. returns e)))

  util_ops-Keeps :
      (ops : List TraceOp) (n : ℕ) (u : Util)
      → UtilKeeps n u
      → Holds (UtilKeeps n) (util_ops mm ops u)
  unfolding util_ops
  util_ops-Keeps [] n u e = returns e
  util_ops-Keeps (op ∷ ops) n u e =
      Holds-bind (util_op-Keeps op.type op n u e) (λ u1 e1. util_ops-Keeps ops n u1 e1)

  pub eval_mm_util-Keeps :
      (ops : List TraceOp) (n : ℕ) (d : Driver)
      → Keeps n d
      → Holds (λ (r : ℕ × ℕ × Driver). Keeps n r.2) (eval_mm_util mm ops d)
  unfolding eval_mm_util
  eval_mm_util-Keeps ops n d e = Holds-bind (start-Keeps n d e) (λ d1 e1.
      Holds-bind
        (util_ops-Keeps ops n (record { driver = d1; total_size = 0; max_total_size = 0 }) e1)
        (λ u e2. returns e2))
