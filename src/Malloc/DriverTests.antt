-- ===== src/Malloc/DriverTests.antt =====
-- The program of malloclab/mdriver.c and its timers on small inputs.
use cso18_labs.Base.{
  ◌^◌, length, ℕ, ◌+◌, ◌*◌, ◌/◌, ◌≡◌, refl, true, Option, none, some, List, [], ◌∷◌, ◌==◌,
  if◌then◌else◌, arith,
}
use cso18_labs.Base.Run.{Run, ok, fault, exited, ◌>>=◌}
use cso18_labs.Malloc.Machine.{fill}
use cso18_labs.Malloc.Memlib.{
  is_aligned, mem_heap_hi, mem_heap_lo, mem_heapsize, mem_reset_brk, mem_init,
}
use cso18_labs.Malloc.Driver.{
  Package, TraceOp, alloc_op, free_op, realloc_op, Driver, write_cell, read_cell, add_range,
  clear_ranges, compare_old, eval_mm_valid, eval_op, eval_ops, fill_block, lies_outside,
  malloc_error, overlaps_any, overlaps_range, preserved, record_alloc, record_realloc, remember,
  remove_range,
}
use cso18_labs.Malloc.Trace.{
  Word, Trace, read_trace, scan_field, read_ops, type_of, read_request, read_sized, scan_request,
  scan_two, store_op, read_free, scan_one, finish,
}
use cso18_labs.Malloc.Speed.{
  eval_libc_valid, speed_ops, speed_op, eval_libc_speed, eval_mm_speed, eval_mm_util, start,
  util_op, util_ops,
}
use cso18_labs.Malloc.Trace.Print.{print_trace}
use cso18_labs.Malloc.Clock.{
  i386, alpha, other, Clock, initial, start_counter, get_counter, callibrate,
}
use cso18_labs.Malloc.Clock.Subtract.{after, get_counter-start_counter}
use cso18_labs.Malloc.Clock.Events.{Advances}
use cso18_labs.Malloc.Clock.Least.{rate_of, IsLeast}
use cso18_labs.Malloc.Clock.Calibrate.{calibrating, callibrate_lem}
use cso18_labs.Base.Double.{Ratio, to_double, rounded, scale, nought, whole, plus, times, over}
use cso18_labs.Malloc.Score.{
  Stats, calculate_perfindex, points, score, throughput_points, util_weight, thru_weight,
}
use cso18_labs.Malloc.Options.{Opt, no_options}
use cso18_labs.Malloc.Mdriver.{
  Summary, fsecs, libc_trace, mm_measure, mm_trace, open_trace, repeat_run, tally, main,
  libc_traces, mm_traces,
}
use cso18_labs.Malloc.Mdriver.Count.{main_counts}

-- The counter crosses a multiple of 2 ^ 32 between two readings.
abbrev crossing : ℕ → ℕ
crossing n = 4294967290 + 10 * n

get_counter-start_counter_example :
    (start_counter i386 crossing crossing initial >>= get_counter i386 crossing crossing)
      ≡ ok (10, after i386 crossing initial)
    × ((start_counter alpha crossing crossing initial >>= get_counter alpha crossing crossing)
        ≡ ok (18446744069414584320, after alpha crossing initial))
    × (start_counter other crossing crossing initial ≡ fault exited)
    × (get_counter other crossing crossing initial ≡ fault exited)
unfolding to_double
get_counter-start_counter_example =
    get_counter-start_counter crossing crossing initial (omega arith) (omega arith)

abbrev thousands : ℕ → ℕ
thousands n = 1000 * n

abbrev each : ℕ → ℕ
each n = n

thousands-Advances : Advances 0 1 thousands each
thousands-Advances = record {
  steady = λ n from. omega arith;
  ticking = λ n from. omega arith;
  cycles = λ n from. omega arith;
  ticks = λ n from. omega arith;
}

callibrate_lem_example :
    (s1 : Clock) × (callibrate i386 thousands each 300 initial ≡ ok s1)
    × (length (calibrating thousands each 300 0) ≡ 100)
    × IsLeast (calibrating thousands each 300 0) (rate_of s1)
callibrate_lem_example =
    callibrate_lem thousands each 1 initial thousands-Advances refl (omega arith)

abbrev timed_row : ℕ → ℕ → Stats
timed_row micros used = record {
  ops = whole 1000;
  valid = true;
  secs = rounded (record { num = micros; den = 1000000 });
  util = rounded (record { num = used; den = 100 });
  thru_ratio = nought;
  perfindex = 0;
}

-- 65 on exact fractions.
half_speed : (score (timed_row 500 0) (timed_row 1000 75)).perfindex ≡ 64
unfolding score throughput_points points plus times over rounded scale util_weight thru_weight
half_speed = refl

-- `-f x -v -t dir`
abbrev options : List Opt
options =
    record { letter = 102; optarg = 120 ∷ [] }
    ∷ record { letter = 118; optarg = [] }
    ∷ record { letter = 116; optarg = 100 ∷ 105 ∷ 114 ∷ [] }
    ∷ []

-- A package with aligned blocks that it never uses again, which copies nothing in `realloc`: it is
-- right on the first file, and not on the second.
abbrev bump : Package
bump = record {
  init = λ m. ok (0, m);
  malloc = λ size m. ok (m.brk, record m { brk = m.brk + (size + 15) / 16 * 16 });
  free = λ p m. ok m;
  realloc = λ p size m. ok (m.brk, record m { brk = m.brk + (size + 15) / 16 * 16 });
}

abbrev trace_of : ℕ → List TraceOp → Trace
trace_of n ops = record {
  sugg_heapsize = 100;
  num_ids = 2;
  num_ops = n;
  weight = 1;
  ops = ops;
  blocks = none ∷ none ∷ [];
  block_sizes = none ∷ none ∷ [];
}

abbrev allocations : List TraceOp
allocations =
    record { type = alloc_op; index = 0; size = 8 }
    ∷ record { type = alloc_op; index = 1; size = 16 }
    ∷ record { type = free_op; index = 0; size = 0 }
    ∷ []

abbrev moving : List TraceOp
moving =
    record { type = alloc_op; index = 0; size = 8 }
    ∷ record { type = alloc_op; index = 1; size = 16 }
    ∷ record { type = realloc_op; index = 1; size = 20 }
    ∷ []

-- The files "./traces/a" and any other one.
abbrev files : List ℕ → Option (List Word)
files path =
    if last path == 97
    then some (print_trace (trace_of 3 allocations))
    else some (print_trace (trace_of 3 moving))
  where
    last : List ℕ → ℕ
    last [] = 0
    last (c ∷ []) = c
    last (c ∷ d ∷ s) = last (d ∷ s)

abbrev libc_driver : Driver
libc_driver = record {
  mem = record { start_brk = 4096; brk = 4096; max_addr = 8192; bytes = λ a. 0 };
  ranges = [];
  blocks = [];
  block_sizes = [];
  errors = [];
}

abbrev half_seconds : ℕ → Ratio
half_seconds n = record { num = 1; den = 2 ^ (n + 1) }

abbrev result : Run Summary
result =
    main bump bump files half_seconds ((97 ∷ []) ∷ (98 ∷ []) ∷ []) no_options libc_driver 4096
      (λ a. 0)

abbrev summary : Summary
summary = record {
  libc_table = none;
  mm_table = none;
  numcorrect = 1;
  num_tracefiles = 2;
  perfindex = record { num = 85 * 2 ^ 46; den = 2 * 2 ^ 46 };
  errors = 1;
}

result_run : result ≡ ok summary
unfolding fsecs libc_trace mm_measure mm_trace open_trace repeat_run tally main libc_traces
    mm_traces read_trace scan_field read_ops type_of read_request read_sized scan_request scan_two
    store_op read_free scan_one finish eval_libc_valid speed_ops speed_op eval_libc_speed
    eval_mm_speed eval_mm_util start util_op util_ops write_cell read_cell add_range clear_ranges
    compare_old eval_mm_valid eval_op eval_ops fill_block lies_outside malloc_error overlaps_any
    overlaps_range preserved record_alloc record_realloc remember remove_range is_aligned
    mem_heap_hi mem_heap_lo mem_heapsize mem_reset_brk mem_init calculate_perfindex points score
    throughput_points fill plus times over rounded scale util_weight thru_weight
result_run = refl

main_counts_example : (◌≡◌ {A = ℕ} (1 + 1) 2) × (◌≡◌ {A = ℕ} 2 2)
main_counts_example =
    main_counts bump bump files half_seconds ((97 ∷ []) ∷ (98 ∷ []) ∷ []) no_options libc_driver
      4096 (λ a. 0) summary result_run
