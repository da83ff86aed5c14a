-- ===== src/Malloc/TraceTests.antt =====
-- The trace reader and the evaluations of malloclab/mdriver.c on a small trace, and
-- malloclab/fcyc.c with a counter that grows.
use cso18_labs.Base.{
  arith, Bool, true, false, ◌++◌, ◌-◌, replicate, ◌*◌, ◌≤◌, ◌⊎◌, ℕ, ◌+◌, ◌≡◌, refl, none, some,
  List, [], ◌∷◌, inl, inr,
}
use cso18_labs.Malloc.Machine.{ok}
use cso18_labs.Malloc.Memlib.{Mem, mem_reset_brk, mem_heapsize}
use cso18_labs.Malloc.Driver.{
  Package, Driver, TraceOp, alloc_op, free_op, realloc_op, remember, read_cell, write_cell,
}
use cso18_labs.Malloc.Fcyc.{Settings, Sampler, default, fcyc, has_converged}
use cso18_labs.Malloc.Fcyc.Best.{smallest}
use cso18_labs.Malloc.Fcyc.Minimum.{IsMinimum}
use cso18_labs.Malloc.Fcyc.Result.{fcyc_best}
use cso18_labs.Malloc.Trace.{Trace, read_trace}
use cso18_labs.Malloc.Trace.Print.{
  IsTrace, no_ops, more_ops, alloc_sized, realloc_sized, free_sized, print_trace,
  read_trace-print_trace,
}
use cso18_labs.Malloc.Speed.{eval_mm_util, eval_mm_speed, util_op, util_ops, start}
use cso18_labs.Malloc.Speed.Agree.{SameHeap, eval_mm_speed_lem}
use cso18_labs.Malloc.Speed.Mark.{IsProper, all_proper, proper_op, peak, eval_mm_util-peak}

abbrev requests : List TraceOp
requests =
    record { type = alloc_op; index = 0; size = 8 }
    ∷ record { type = alloc_op; index = 1; size = 16 }
    ∷ record { type = free_op; index = 0; size = 0 }
    ∷ record { type = realloc_op; index = 1; size = 20 }
    ∷ []

abbrev trace : Trace
trace = record {
  sugg_heapsize = 100;
  num_ids = 2;
  num_ops = 4;
  weight = 1;
  ops = requests;
  blocks = none ∷ none ∷ [];
  block_sizes = none ∷ none ∷ [];
}

trace-IsTrace : IsTrace trace
trace-IsTrace = record {
  ids = refl;
  count = refl;
  sized =
      more_ops alloc_sized
        (more_ops alloc_sized (more_ops free_sized (more_ops realloc_sized no_ops)));
  new_blocks = refl;
  new_sizes = refl;
}

read_trace-print_trace_example : read_trace (print_trace trace) ≡ ok trace
read_trace-print_trace_example = read_trace-print_trace trace trace-IsTrace

-- Packages that never reuse memory: the second leaves a gap of 16 bytes before each block.
abbrev bump : ℕ → Package
bump gap = record {
  init = λ m. ok (0, m);
  malloc = λ size m. ok (m.brk + gap, record m { brk = m.brk + gap + size });
  free = λ p m. ok m;
  realloc = λ p size m. ok (m.brk + gap, record m { brk = m.brk + gap + size });
}

abbrev memory : ℕ → Mem
memory brk = record { start_brk = 4096; brk = brk; max_addr = 8192; bytes = λ a. 0 }

abbrev begins : Driver
begins = record {
  mem = memory 4096;
  ranges = [];
  blocks = none ∷ none ∷ [];
  block_sizes = none ∷ none ∷ [];
  errors = [];
}

abbrev ends : ℕ → ℕ → ℕ → Driver
ends brk p q = record {
  mem = memory brk;
  ranges = [];
  blocks = some p ∷ some q ∷ [];
  block_sizes = some 8 ∷ some 20 ∷ [];
  errors = [];
}

util_close : eval_mm_util (bump 0) requests begins ≡ ok (24, 44, ends 4140 4096 4120)
unfolding eval_mm_util util_ops util_op start remember read_cell write_cell mem_reset_brk
    mem_heapsize
util_close = refl

util_far : eval_mm_util (bump 16) requests begins ≡ ok (24, 92, ends 4188 4112 4168)
unfolding eval_mm_util util_ops util_op start remember read_cell write_cell mem_reset_brk
    mem_heapsize
util_far = refl

eval_mm_speed_lem_example :
    (e : Driver) × (eval_mm_speed (bump 0) requests begins ≡ ok e)
    × SameHeap (ends 4140 4096 4120) e
    × (44 ≡ mem_heapsize e.mem)
eval_mm_speed_lem_example =
    eval_mm_speed_lem (bump 0) requests begins (ends 4140 4096 4120) 24 44 util_close

requests-IsProper : IsProper requests []
requests-IsProper = proper_op tt (omega arith) (
    proper_op ((λ e. absurd (omega (arith, e))), tt) (omega arith)
      (proper_op (8, inr ((λ e. absurd (omega (arith, e))), inl (refl, refl))) (omega arith)
        (proper_op (16, inl (refl, refl)) (omega arith) all_proper)))

eval_mm_util-peak_example : 24 ≡ peak requests [] 0
eval_mm_util-peak_example =
    eval_mm_util-peak (bump 0) requests begins (ends 4140 4096 4120) 24 44 requests-IsProper
      util_close

-- The sample with number `n` takes 100 + 7 * n cycles.
abbrev counter : Bool → ℕ → ℕ
counter compensated n = 100 + 7 * n

fcyc_best_example :
    (result : ℕ) × (s1 : Settings) × (t : Sampler) × (fcyc counter default ≡ ok (result, s1, t))
    × (t.values ≡ smallest 3 (counter false) t.samplecount ++ replicate (3 - t.samplecount) 0)
    × IsMinimum (counter false) t.samplecount result
    × (1 ≤ t.samplecount)
    × ((t.samplecount ≤ 20) ⊎ (t.samplecount ≡ 1))
    × ((has_converged s1 t ≡ ok true) ⊎ (20 ≤ t.samplecount))
fcyc_best_example = fcyc_best counter default (omega arith) (omega arith)
