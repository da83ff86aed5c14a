-- ===== src/Malloc/Mdriver.antt =====
-- `main` of malloclab/mdriver.c behind its options, with `fsecs` of malloclab/fsecs.c. Parameters are
-- the package that the driver is linked with, the C library's `malloc`, `realloc` and `free`, the
-- files, the names of the default files, and the seconds that the measurement with number `n`
-- returns, which `ftimer_gettod` computes.
pub mod Errors
pub mod Kept
pub mod Count
use cso18_labs.Base.{
  ℕ, zero, suc, ◌+◌, ◌*◌, ◌/◌, Bool, true, false, Option, none, some, List, [], ◌∷◌, ◌++◌, ltb,
  ◌==◌, if◌then◌else◌, length,
}
use cso18_labs.Base.Run.{Run, ok, fault, ◌>>=◌, ◌>>◌, check, exited, bad_access}
use cso18_labs.Malloc.Memlib.{mem_init}
use cso18_labs.Malloc.Machine.{Memory}
use cso18_labs.Malloc.Driver.{Package, TraceOp, Driver, Message, eval_mm_valid}
use cso18_labs.Malloc.Trace.{Word, Trace, read_trace}
use cso18_labs.Malloc.Speed.{eval_mm_util, eval_mm_speed, eval_libc_valid, eval_libc_speed}
use cso18_labs.Base.Double.{Ratio, nought, whole, rounded}
use cso18_labs.Malloc.Score.{Stats, Row, calculate_perfindex, printresults}
use cso18_labs.Malloc.Options.{maxline, Options}

-- The 10 runs of `ftimer_gettod`, which `USE_GETTOD` of malloclab/config.h chooses.
abbrev pub fsecs_runs : ℕ
fsecs_runs = 10

-- The loop of `ftimer_gettod` over a function that may end in a fault.
unfoldable pub repeat_run {ℓ} : {A : Type ℓ} → (A → Run A) → ℕ → A → Run A
repeat_run f zero a = ok a
repeat_run f (suc n) a = f a >>= λ a1. repeat_run f n a1

-- `measured` is what `ftimer_gettod(f, argp, 10)` returns.
unfoldable pub fsecs {ℓ} : {A : Type ℓ} → (measured : Ratio) → (A → Run A) → A → Run (Ratio × A)
unfolding repeat_run
fsecs measured f a = repeat_run f fsecs_runs a >>= λ a1. ok (measured, a1)

-- What is printed at the end. The tables are printed where `verbose` is not 0.
pub record Summary : Type 0 where
  pub libc_table : Option (List Row)
  pub mm_table : Option (List Row)
  pub numcorrect : ℕ
  pub num_tracefiles : ℕ
  pub perfindex : Ratio
  pub errors : ℕ

-- A row as `calloc` leaves it, with the number of requests.
abbrev pub new_stats : ℕ → Stats
new_stats ops = record {
  ops = whole ops;
  valid = false;
  secs = nought;
  util = nought;
  thru_ratio = nought;
  perfindex = 0;
}

abbrev pub load : Trace → Driver → Driver
load trace d = record d { blocks = trace.blocks; block_sizes = trace.block_sizes }

-- `numcorrect` and the sum of the indices.
unfoldable pub tally : List Stats → ℕ × ℕ
tally [] = (0, 0)
tally (s ∷ stats) =
    (let (n, p) = tally stats in if s.valid then (suc n, s.perfindex + p) else (n, p))

abbrev pub table : Bool → ℕ → List Stats → Option (List Row)
table scored verbose stats = if verbose == 0 then none else some (printresults stats scored)

-- The names that the loops go through.
abbrev pub names_of : List (List ℕ) → Option (List ℕ) → List (List ℕ)
names_of default_tracefiles none = default_tracefiles
names_of default_tracefiles (some name) = name ∷ []

-- Behind the loops.
abbrev pub summarize : ℕ → List Stats → List Stats → Driver → Summary
summarize verbose libc_stats mm_stats d =
    let scored = calculate_perfindex libc_stats mm_stats in
    let (numcorrect, total) = tally scored in
    record {
      libc_table = table false verbose libc_stats;
      mm_table = table true verbose scored;
      numcorrect = numcorrect;
      num_tracefiles = length scored;
      perfindex = rounded (record { num = total; den = length scored });
      errors = length d.errors;
    }

module _ (mm libc : Package) (files : List ℕ → Option (List Word)) (elapsed : ℕ → Ratio) where
  -- `read_trace` with the opening of the file: `strcpy` and `strcat` into an array of MAXLINE.
  unfoldable pub open_trace : (tracedir filename : List ℕ) → Run Trace
  open_trace tracedir filename =
      check (ltb (length (tracedir ++ filename)) maxline) bad_access
      >> elim (files (tracedir ++ filename)) [ none ↦ fault exited | some words ↦ read_trace words ]

  -- A round of the loop over the C library.
  unfoldable pub libc_trace : (measured : Ratio) → Trace → Driver → Run (Stats × Driver)
  unfolding fsecs
  libc_trace measured trace d = eval_libc_valid libc trace.ops (load trace d) >>= λ (valid, d1).
      (if valid == 0
        then ok (new_stats trace.num_ops, d1)
        else fsecs measured (eval_libc_speed libc trace.ops) d1 >>= λ (secs, d2).
            ok (record (new_stats trace.num_ops) { valid = true; secs = secs }, d2))

  unfoldable pub libc_traces : ℕ → List ℕ → List (List ℕ) → Driver → Run (List Stats × Driver)
  unfolding open_trace libc_trace
  libc_traces i tracedir [] d = ok ([], d)
  libc_traces i tracedir (name ∷ names) d = open_trace tracedir name >>= λ trace.
      libc_trace (elapsed i) trace d >>= λ (s, d1).
      libc_traces (i + 1) tracedir names d1 >>= λ (stats, d2). ok (s ∷ stats, d2)

  -- What follows a valid run: the utilization, and the time.
  unfoldable pub mm_measure : (measured : Ratio) → Trace → Driver → Run (Stats × Driver)
  unfolding fsecs
  mm_measure measured trace d = eval_mm_util mm trace.ops d >>= λ (max_total_size, heapsize, d1).
      fsecs measured (eval_mm_speed mm trace.ops) d1 >>= λ (secs, d2). ok (
        record (new_stats trace.num_ops) {
          valid = true;
          secs = secs;
          util = rounded (record { num = max_total_size; den = heapsize });
        },
        d2,
      )

  -- A round of the loop over the package.
  unfoldable pub mm_trace : (measured : Ratio) → Trace → Driver → Run (Stats × Driver)
  unfolding mm_measure
  mm_trace measured trace d = eval_mm_valid mm trace.ops (load trace d) >>= λ (valid, d1).
      (if valid then mm_measure measured trace d1 else ok (new_stats trace.num_ops, d1))

  unfoldable pub mm_traces : ℕ → List ℕ → List (List ℕ) → Driver → Run (List Stats × Driver)
  unfolding open_trace mm_trace
  mm_traces i tracedir [] d = ok ([], d)
  mm_traces i tracedir (name ∷ names) d = open_trace tracedir name >>= λ trace.
      mm_trace (elapsed i) trace d >>= λ (s, d1).
      mm_traces (i + 1) tracedir names d1 >>= λ (stats, d2). ok (s ∷ stats, d2)

  -- `libc_d` has the C library's memory; `base` and `bytes` are what `mem_init` gets from `malloc`.
  unfoldable pub main : List (List ℕ) → Options → Driver → (base : ℕ) → Memory → Run Summary
  unfolding libc_traces mm_traces
  main default_tracefiles o libc_d base bytes =
      let names = names_of default_tracefiles o.tracefiles in
      libc_traces 0 o.tracedir names libc_d >>= λ (libc_stats, _). mem_init base bytes >>= λ m.
      mm_traces (length names) o.tracedir names
        (record { mem = m; ranges = []; blocks = []; block_sizes = []; errors = [] })
      >>= λ (mm_stats, d). ok (summarize o.verbose libc_stats mm_stats d)
