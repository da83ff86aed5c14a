-- ===== src/Malloc/Score.antt =====
-- The score of malloclab/mdriver.c: `stats_t`, `calculate_perfindex` and `printresults`, with
-- the arithmetic of `double`.
use cso18_labs.Base.{ℕ, ◌+◌, ◌-◌, ◌/◌, Bool, List, [], ◌∷◌, if◌then◌else◌}
use cso18_labs.Base.Double.{Ratio, rounded, nought, whole, plus, times, over, above}

-- `stats_t`; the arrays of it are zeroed by `calloc`.
pub record Stats : Type 0 where
  pub ops : Ratio
  pub valid : Bool
  pub secs : Ratio
  pub util : Ratio
  pub thru_ratio : Ratio
  pub perfindex : ℕ

-- `UTIL_WEIGHT`
unfoldable pub util_weight : Ratio
unfolding rounded
util_weight = rounded (record { num = 3; den = 5 })

-- `1.0 - UTIL_WEIGHT`
unfoldable pub thru_weight : Ratio
unfolding rounded util_weight
thru_weight = rounded (record { num = util_weight.den - util_weight.num; den = util_weight.den })

-- `p2`, from the two throughputs.
unfoldable pub throughput_points : (avg_mm avg_libc : Ratio) → Ratio
unfolding times over thru_weight
throughput_points avg_mm avg_libc =
    if above avg_mm avg_libc then thru_weight else times thru_weight (over avg_mm avg_libc)

-- `(int)((p1 + p2)*100.0)`
unfoldable pub points : (p1 p2 : Ratio) → ℕ
unfolding plus times
points p1 p2 = (let sum = times (plus p1 p2) (whole 100) in sum.num / sum.den)

-- The body of the loop.
unfoldable pub score : Stats → Stats → Stats
unfolding throughput_points points over times util_weight
score libc s =
    let avg_mm = over s.ops s.secs in
    let avg_libc = over libc.ops libc.secs in
    if s.valid
    then record s {
      perfindex = points (times util_weight s.util) (throughput_points avg_mm avg_libc);
      thru_ratio = over avg_mm avg_libc;
    }
    else record s { perfindex = 0; thru_ratio = nought }

unfoldable pub calculate_perfindex : List Stats → List Stats → List Stats
unfolding score
calculate_perfindex (l ∷ libc_stats) (s ∷ stats) = score l s ∷ calculate_perfindex libc_stats stats
calculate_perfindex _ stats = stats

-- A line of the table: the trace, and what stands in its columns. The sums of the code are not
-- printed.
pub data Row : Type 0 where
  yes_row : (trace : ℕ) → (util ops secs kops : Ratio) → Row
  yes_row_scored : (trace : ℕ) → (util ops secs kops : Ratio) → (perfindex : ℕ) → Row
  no_row : (trace : ℕ) → (scored : Bool) → Row

unfoldable pub row : Bool → ℕ → Stats → Row
unfolding times over
row scored i s =
    let util = times s.util (whole 100) in
    let kops = over (over s.ops (whole 1000)) s.secs in
    if s.valid
    then (if scored
        then yes_row_scored i util s.ops s.secs kops s.perfindex
        else yes_row i util s.ops s.secs kops)
    else no_row i scored

-- The loop of `printresults`, from trace `i` on.
unfoldable pub rows_from : ℕ → Bool → List Stats → List Row
unfolding row
rows_from i scored [] = []
rows_from i scored (s ∷ stats) = row scored i s ∷ rows_from (i + 1) scored stats

unfoldable pub printresults : List Stats → Bool → List Row
unfolding rows_from
printresults stats scored = rows_from 0 scored stats
