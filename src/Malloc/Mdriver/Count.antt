-- ===== src/Malloc/Mdriver/Count.antt =====
-- What `main` of malloclab/mdriver.c counts.
use cso18_labs.Base.{
  ℕ, suc, ◌+◌, ◌≡◌, refl, subst, ap, ◌∙◌, Bool, true, false, Option, List, [], ◌∷◌, if◌then◌else◌,
  length, arith, Bool-cases, inl, inr,
}
use cso18_labs.Base.Run.{ok, Holds, returns, Holds_ok, Holds-bind, Holds-any}
use cso18_labs.Malloc.Machine.{Memory}
use cso18_labs.Malloc.Memlib.{Mem, mem_init}
use cso18_labs.Malloc.Trace.{Word, Trace}
use cso18_labs.Malloc.Driver.{Package, Driver}
use cso18_labs.Malloc.Speed.{eval_mm_speed}
use cso18_labs.Base.Double.{Ratio}
use cso18_labs.Malloc.Score.{Stats, score, calculate_perfindex}
use cso18_labs.Malloc.Options.{Options}
use cso18_labs.Malloc.Mdriver.{
  fsecs, fsecs_runs, Summary, tally, new_stats, load, mm_measure, mm_trace, mm_traces, open_trace,
  libc_traces, names_of, summarize, main,
}
use cso18_labs.Malloc.Mdriver.Errors.{Keeps, Reports, eval_mm_valid-Reports}
use cso18_labs.Malloc.Mdriver.Kept.{repeat_run-Keeps, eval_mm_speed-Keeps, eval_mm_util-Keeps}

-- The row says whether an error was reported.
abbrev Accounts : ℕ → Stats × Driver → Type 0
Accounts n (s, d) = length d.errors ≡ (if s.valid then n else suc n)

abbrev count_valid : List Stats → ℕ
count_valid [] = 0
count_valid (s ∷ stats) = if s.valid then suc (count_valid stats) else count_valid stats

abbrev AccountsAll : ℕ → ℕ → List Stats × Driver → Type 0
AccountsAll n k (stats, d) =
    (length stats ≡ k) × (count_valid stats + length d.errors ≡ n + length stats)

valid_of : (b : Bool) (x y : Stats) → x.valid ≡ b → y.valid ≡ b → (if b then x else y).valid ≡ b
valid_of true x y e f = e
valid_of false x y e f = f

score-valid : (libc s : Stats) → (score libc s).valid ≡ s.valid
unfolding score
score-valid libc s = valid_of s.valid _ _ refl refl

tally-count : (stats : List Stats) → (tally stats).0 ≡ count_valid stats
unfolding tally
tally-count [] = refl
tally-count (s ∷ stats) = elim (Bool-cases s.valid) [
  | inl e ↦ rw e (ap suc (tally-count stats))
  | inr e ↦ rw e (tally-count stats)
]

scored :
    (libc stats : List Stats)
    → (length (calculate_perfindex libc stats) ≡ length stats)
      × (count_valid (calculate_perfindex libc stats) ≡ count_valid stats)
unfolding calculate_perfindex
scored [] stats = (refl, refl)
scored (l ∷ libc) [] = (refl, refl)
scored (l ∷ libc) (s ∷ stats) =
    let (a, b) = scored libc stats in (ap suc a, rw (score-valid l s, b))

add_row :
    (valid : Bool) (c e2 n e1 l : ℕ)
    → e1 ≡ (if valid then n else suc n)
    → c + e2 ≡ e1 + l
    → (if valid then suc c else c) + e2 ≡ n + suc l
add_row true c e2 n e1 l h k = omega arith
add_row false c e2 n e1 l h k = omega arith

abbrev IsBalanced : List (List ℕ) → Summary → Type 0
IsBalanced names s =
    (s.numcorrect + s.errors ≡ s.num_tracefiles) × (s.num_tracefiles ≡ length names)

summarize-IsBalanced :
    (names : List (List ℕ)) (verbose : ℕ) (libc_stats mm_stats : List Stats) (d : Driver)
    → AccountsAll 0 (length names) (mm_stats, d)
    → IsBalanced names (summarize verbose libc_stats mm_stats d)
summarize-IsBalanced names verbose libc_stats mm_stats d (long, sum) =
    let (size, count) = scored libc_stats mm_stats in
    let total = tally-count (calculate_perfindex libc_stats mm_stats) in
    (omega (arith, size, count, total, sum), size ∙ long)

module _ (mm libc : Package) (files : List ℕ → Option (List Word)) (elapsed : ℕ → Ratio) where
  mm_measure-Accounts :
      (measured : Ratio) (n : ℕ) (trace : Trace) (d : Driver)
      → Keeps n d
      → Holds (Accounts n) (mm_measure mm libc files elapsed measured trace d)
  unfolding mm_measure fsecs
  mm_measure-Accounts measured n trace d e =
      Holds-bind (eval_mm_util-Keeps mm trace.ops n d e) (λ (most, heap, d1) e1.
        Holds-bind
          (Holds-bind
            (repeat_run-Keeps (eval_mm_speed mm trace.ops) fsecs_runs n d1
              (λ d2. eval_mm_speed-Keeps mm trace.ops n d2) e1)
            (λ d2 e2. timed d2 e2))
          (λ (secs, d2) e2. returns e2))
    where
      timed :
          (d2 : Driver)
          → Keeps n d2
          → Holds (λ (r : Ratio × Driver). Keeps n r.1) (ok (measured, d2))
      timed d2 e2 = returns e2

  mm_trace-Accounts :
      (measured : Ratio) (trace : Trace) (d : Driver)
      → Holds (Accounts (length d.errors)) (mm_trace mm libc files elapsed measured trace d)
  unfolding mm_trace
  mm_trace-Accounts measured trace d =
      Holds-bind (eval_mm_valid-Reports mm trace.ops (load trace d))
        (λ (valid, d1) e. go valid d1 e)
    where
      go :
          (valid : Bool) (d1 : Driver)
          → Reports (length d.errors) (valid, d1)
          → Holds (Accounts (length d.errors)) (
              if valid
              then mm_measure mm libc files elapsed measured trace d1
              else ok (new_stats trace.num_ops, d1))
      go true d1 e = mm_measure-Accounts measured (length d.errors) trace d1 e
      go false d1 e = returns e

  mm_traces-Accounts :
      (i : ℕ) (dir : List ℕ) (names : List (List ℕ)) (d : Driver)
      → Holds
          (AccountsAll (length d.errors) (length names))
          (mm_traces mm libc files elapsed i dir names d)
  unfolding mm_traces
  mm_traces-Accounts i dir [] d = returns (refl, omega arith)
  mm_traces-Accounts i dir (name ∷ names) d =
      Holds-any (open_trace mm libc files elapsed dir name) (λ trace.
        Holds-bind (mm_trace-Accounts (elapsed i) trace d) (λ (s, d1) e.
          Holds-bind (mm_traces-Accounts (i + 1) dir names d1) (λ (stats, d2) (long, sum). returns (
            ap suc long,
            add_row s.valid (count_valid stats) (length d2.errors) (length d.errors)
                (length d1.errors) (length stats) e sum,
          ))))

  -- Of any package and any files: where `main` returns, the traces that it counts as correct and
  -- the errors that it counts are together the traces that it has run, which are all of its trace
  -- files: each trace that is not correct has reported exactly one error.
  pub main_counts :
      (default_tracefiles : List (List ℕ)) (o : Options) (libc_d : Driver) (base : ℕ)
      (bytes : Memory) (s : Summary)
      → main mm libc files elapsed default_tracefiles o libc_d base bytes ≡ ok s
      → (s.numcorrect + s.errors ≡ s.num_tracefiles)
        × (s.num_tracefiles ≡ length (names_of default_tracefiles o.tracefiles))
  unfolding main
  main_counts default_tracefiles o libc_d base bytes s runs =
      let names = names_of default_tracefiles o.tracefiles in
      let fresh : Mem → Driver =
        λ m. record { mem = m; ranges = []; blocks = []; block_sizes = []; errors = [] } in
      Holds_ok (
        subst (Holds (IsBalanced names)) runs (
          Holds-any (libc_traces mm libc files elapsed 0 o.tracedir names libc_d)
            (λ (libc_stats, _). Holds-any (mem_init base bytes) (λ m.
              Holds-bind (mm_traces-Accounts (length names) o.tracedir names (fresh m))
                (λ (mm_stats, d) h.
                  returns (summarize-IsBalanced names o.verbose libc_stats mm_stats d h))))))
