-- ===== src/Malloc/Mdriver/Errors.antt =====
-- Each trace that malloclab/mdriver.c does not accept adds one error.
use cso18_labs.Base.{
  ℕ, suc, ◌+◌, ◌≡◌, refl, ◌-◌, not, subst, ◌∙◌, Bool, true, false, List, [], ◌∷◌, ltb, ◌==◌,
  if◌then◌else◌, length,
}
use cso18_labs.Base.Run.{ok, ◌>>=◌, Holds, returns, faults, Holds-bind, Holds-any, if-Holds}
use cso18_labs.Malloc.Memlib.{is_aligned, is_negative, in_storage, mem_reset_brk}
use cso18_labs.Malloc.Machine.{assert}
use cso18_labs.Malloc.Naive.{of_int}
use cso18_labs.Malloc.Driver.{
  Package, TraceOp, OpType, alloc_op, realloc_op, free_op, Driver, Step, go, return_zero,
  malloc_error, add_range, lies_outside, overlaps_any, is_positive, write_cell, read_cell, remember,
  fill_block, preserved, record_alloc, compare_old, record_realloc, remove_range, clear_ranges,
  eval_op, eval_ops, eval_mm_valid, Message, init_failed, malloc_failed, realloc_failed,
  not_preserved, not_aligned, outside_heap, overlaps,
}

-- The errors of a call that reports one if its result is `false`.
abbrev pub Reports : ℕ → Bool × Driver → Type 0
Reports n (true, d) = length d.errors ≡ n
Reports n (false, d) = length d.errors ≡ suc n

abbrev pub ReportsStep : ℕ → Step → Type 0
ReportsStep n (go d) = length d.errors ≡ n
ReportsStep n (return_zero d) = length d.errors ≡ suc n

abbrev pub Keeps : ℕ → Driver → Type 0
Keeps n d = length d.errors ≡ n

malloc_error_lem :
    (i : ℕ) (msg : Message) (d : Driver)
    → length (malloc_error i msg d).errors ≡ suc (length d.errors)
unfolding malloc_error
malloc_error_lem i msg d = refl

add_range-Reports :
    (lo size i : ℕ) (d : Driver) → Holds (Reports (length d.errors)) (add_range lo size i d)
unfolding add_range
add_range-Reports lo size i d = Holds-any (assert (is_positive size)) (λ _.
    if-Holds (not (is_aligned lo)) (returns (malloc_error_lem i not_aligned d)) (
      if-Holds (lies_outside lo (lo + size - 1) d.mem) (returns (malloc_error_lem i outside_heap d))
        (if-Holds (overlaps_any lo (lo + size - 1) d.ranges)
          (returns (malloc_error_lem i overlaps d)) (returns refl))))

fill_block-Keeps :
    (p index size : ℕ) (d : Driver) → Holds (Keeps (length d.errors)) (fill_block p index size d)
unfolding fill_block
fill_block-Keeps p index size d = if-Holds (in_storage p size d.mem) (returns refl) faults

pub remember-Keeps :
    (index p size : ℕ) (d : Driver) → Holds (Keeps (length d.errors)) (remember index p size d)
unfolding remember
remember-Keeps index p size d =
    Holds-any (write_cell d.blocks index p)
      (λ blocks. Holds-any (write_cell d.block_sizes index size) (λ sizes. returns refl))

-- `fill_block` and `remember`, one after the other, as both requests end.
settle_block :
    (p index size n : ℕ) (d : Driver)
    → length d.errors ≡ n
    → Holds
        (ReportsStep n)
        (fill_block p index size d >>= λ d1. remember index p size d1 >>= λ d2. ok (go d2))
settle_block p index size n d e =
    Holds-bind (fill_block-Keeps p index size d)
      (λ d1 h. Holds-bind (remember-Keeps index p size d1) (λ d2 k. returns (k ∙ h ∙ e)))

record_alloc-Reports :
    (i : ℕ) (op : TraceOp) (p : ℕ) (d : Driver)
    → Holds (ReportsStep (length d.errors)) (record_alloc i op p d)
unfolding record_alloc
record_alloc-Reports i op p d =
    if-Holds (p == 0) (returns (malloc_error_lem i malloc_failed d))
      (Holds-bind (add_range-Reports p op.size i d) added)
  where
    added :
        (r : Bool × Driver)
        → Reports (length d.errors) r
        → Holds (ReportsStep (length d.errors)) (elim r.0 [
          | false ↦ ok (return_zero r.1)
          | true ↦ fill_block p op.index op.size r.1 >>= λ d1.
              remember op.index p op.size d1 >>= λ d2. ok (go d2)
        ])
    added (false, d1) h = returns h
    added (true, d1) h = settle_block p op.index op.size (length d.errors) d1 h

compare_old-Reports :
    (i : ℕ) (op : TraceOp) (newp : ℕ) (d : Driver)
    → Holds (ReportsStep (length d.errors)) (compare_old i op newp d)
unfolding compare_old
compare_old-Reports i op newp d = Holds-any (read_cell d.block_sizes op.index) (λ oldsize.
    Holds-any (preserved (if ltb op.size oldsize then op.size else oldsize) newp 0 op.index d.mem)
      compared)
  where
    compared :
        (same : Bool)
        → Holds (ReportsStep (length d.errors)) (elim same [
          | false ↦ ok (return_zero (malloc_error i not_preserved d))
          | true ↦ fill_block newp op.index op.size d >>= λ d1.
              remember op.index newp op.size d1 >>= λ d2. ok (go d2)
        ])
    compared false = returns (malloc_error_lem i not_preserved d)
    compared true = settle_block newp op.index op.size (length d.errors) d refl

record_realloc-Reports :
    (i : ℕ) (op : TraceOp) (oldp newp : ℕ) (d : Driver)
    → Holds (ReportsStep (length d.errors)) (record_realloc i op oldp newp d)
unfolding record_realloc
record_realloc-Reports i op oldp newp d =
    if-Holds (newp == 0) (returns (malloc_error_lem i realloc_failed d)) (
      Holds-bind
        (add_range-Reports newp op.size i (record d { ranges = remove_range oldp d.ranges })) added)
  where
    added :
        (r : Bool × Driver)
        → Reports (length d.errors) r
        → Holds
            (ReportsStep (length d.errors))
            (elim r.0 [ false ↦ ok (return_zero r.1) | true ↦ compare_old i op newp r.1 ])
    added (false, d1) h = returns h
    added (true, d1) h =
        subst (λ n. Holds (ReportsStep n) (compare_old i op newp d1)) h
          (compare_old-Reports i op newp d1)

module _ (mm : Package) where
  eval_op-Reports :
      (type : OpType) (i : ℕ) (op : TraceOp) (d : Driver)
      → Holds (ReportsStep (length d.errors)) (eval_op mm type i op d)
  unfolding eval_op
  eval_op-Reports alloc_op i op d =
      Holds-any (mm.malloc (of_int op.size) d.mem)
        (λ (p, m). record_alloc-Reports i op p (record d { mem = m }))
  eval_op-Reports realloc_op i op d = Holds-any (read_cell d.blocks op.index) (λ oldp.
      Holds-any (mm.realloc oldp (of_int op.size) d.mem)
        (λ (newp, m). record_realloc-Reports i op oldp newp (record d { mem = m })))
  eval_op-Reports free_op i op d =
      Holds-any (read_cell d.blocks op.index) (λ p. Holds-any (mm.free p d.mem) (λ m. returns refl))

  eval_ops-Reports :
      (ops : List TraceOp) (i n : ℕ) (d : Driver)
      → length d.errors ≡ n
      → Holds (Reports n) (eval_ops mm i ops d)
  unfolding eval_ops
  eval_ops-Reports [] i n d e = returns e
  eval_ops-Reports (op ∷ ops) i n d e =
      Holds-bind
        (subst (λ m. Holds (ReportsStep m) (eval_op mm op.type i op d)) e
          (eval_op-Reports op.type i op d))
        (λ step h. go_on step h (eval_ops-Reports ops (i + 1) n))
    where
      go_on :
          (step : Step)
          → ReportsStep n step
          → ((d1 : Driver) → length d1.errors ≡ n → Holds (Reports n) (eval_ops mm (i + 1) ops d1))
          → Holds
              (Reports n)
              (elim step [ return_zero d1 ↦ ok (false, d1) | go d1 ↦ eval_ops mm (i + 1) ops d1 ])
      go_on (return_zero d1) h next = returns h
      go_on (go d1) h next = next d1 h

  -- For any package: where `eval_mm_valid` returns, it has reported one error if it returns 0, and
  -- none if it returns 1.
  pub eval_mm_valid-Reports :
      (ops : List TraceOp) (d : Driver) → Holds (Reports (length d.errors)) (eval_mm_valid mm ops d)
  unfolding eval_mm_valid
  eval_mm_valid-Reports ops d = Holds-any (mm.init (mem_reset_brk d.mem)) (λ (status, m).
      if-Holds (is_negative status)
        (returns
          (malloc_error_lem 0 init_failed (record d { mem = m; ranges = clear_ranges d.ranges })))
        (eval_ops-Reports ops 0 (length d.errors)
          (record d { mem = m; ranges = clear_ranges d.ranges }) refl))
