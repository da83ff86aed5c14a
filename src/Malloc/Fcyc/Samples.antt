-- ===== src/Malloc/Fcyc/Samples.antt =====
-- How many samples `fcyc` of malloclab/fcyc.c takes.
use native.Mathlib.Decide.{dec_lt}
use cso18_labs.Base.{
  ℕ, zero, suc, ◌+◌, ◌-◌, ◌*◌, ◌/◌, ◌≡◌, ◌≤◌, ◌<◌, refl, ap, ◌∙◌, Bool, true, false, Option, none,
  some, List, ltb, leb, replicate, set, length, length-set, length-replicate, get_elem?_bounded,
  arith, Bool-cases, ◌⊎◌, inl, inr, lt→ltb, le→ltb,
}
use cso18_labs.Base.Run.{ok}
use cso18_labs.Malloc.Fcyc.{
  Settings, Sampler, init_sampler, read_value, sift, place_sample, add_sample, has_converged,
  clear_words, clear, clear_if, with_buffer, measure, sample_loop, fcyc,
}

read_inside : (values : List ℕ) (i : ℕ) → i < length values → (v : ℕ) × (read_value values i ≡ ok v)
unfolding read_value
read_inside values i h = let (v, e) = get_elem?_bounded values i h in (v, rw (e, read_value) refl)

sift_runs :
    (p : ℕ) (values : List ℕ)
    → p < length values
    → (out : List ℕ) × (sift p values ≡ ok out) × (length out ≡ length values)
unfolding sift
sift_runs zero values h = (values, refl, refl)
sift_runs (suc p) values h =
    let (above, a) = read_inside values p (omega arith) in
    let (here, b) = read_inside values (suc p) h in
    let swapped = set (set values p here) (suc p) above in
    let size : length swapped ≡ length values =
      length-set (set values p here) (suc p) above ∙ length-set values p here in
    let (out, runs, long) = sift_runs p swapped (omega arith) in
    elim (Bool-cases (ltb here above)) [
      | inl swaps ↦ (out, rw (a, b, swaps) runs, long ∙ size)
      | inr stays ↦ (values, rw (a, b, stays) refl, refl)
    ]

place_sample_runs :
    (s : Settings) (val : ℕ) (t : Sampler)
    → 1 ≤ s.kbest
    → length t.values ≡ s.kbest
    → (at : ℕ) × (out : List ℕ) × (place_sample s val t ≡ ok (at, out))
      × (length out ≡ s.kbest)
      × (at < s.kbest)
unfolding place_sample
place_sample_runs s val t one size = elim (dec_lt t.samplecount s.kbest) [
  | yes early ↦
      let a = lt→ltb t.samplecount s.kbest early in
      let b : ltb t.samplecount (length t.values) ≡ true =
        lt→ltb t.samplecount (length t.values) (omega arith) in
      (
        t.samplecount,
        set t.values t.samplecount val,
        rw (a, b) refl,
        length-set t.values t.samplecount val ∙ size,
        early,
      )
  | no late ↦
      let a = le→ltb t.samplecount s.kbest (omega arith) in
      let b = lt→ltb 0 s.kbest (omega arith) in
      let (worst, r) = read_inside t.values (s.kbest - 1) (omega arith) in
      elim (Bool-cases (ltb val worst)) [
        | inl better ↦ (
          s.kbest - 1,
          set t.values (s.kbest - 1) val,
          rw (a, b, r, better) refl,
          length-set t.values (s.kbest - 1) val ∙ size,
          omega arith,
        )
        | inr no_better ↦ (0, t.values, rw (a, b, r, no_better) refl, size, omega arith)
      ]
]

add_sample_runs :
    (s : Settings) (val : ℕ) (t : Sampler)
    → 1 ≤ s.kbest
    → length t.values ≡ s.kbest
    → (out : Sampler) × (add_sample s val t ≡ ok out)
      × (length out.values ≡ s.kbest)
      × (out.samplecount ≡ t.samplecount + 1)
unfolding add_sample
add_sample_runs s val t one size =
    let (at, placed, a, long, low) = place_sample_runs s val t one size in
    let (sorted, b, same) = sift_runs at placed (omega arith) in
    (record { values = sorted; samplecount = t.samplecount + 1 }, rw (a, b) refl, same ∙ long, refl)

has_converged_runs :
    (s : Settings) (t : Sampler)
    → 1 ≤ s.kbest
    → length t.values ≡ s.kbest
    → (b : Bool) × (has_converged s t ≡ ok b)
unfolding has_converged
has_converged_runs s t one size = elim (Bool-cases (leb s.kbest t.samplecount)) [
  | inr few ↦ (false, rw few refl)
  | inl many ↦
      let a = lt→ltb 0 s.kbest (omega arith) in
      let (best, b) = read_inside t.values 0 (omega arith) in
      let (worst, c) = read_inside t.values (s.kbest - 1) (omega arith) in
      (leb (s.eps_den * worst) ((s.eps_den + s.eps_num) * best), rw (many, a, b, c) refl)
]

clear_words_run : (fuel left incr : ℕ) → left ≤ fuel → 1 ≤ incr → clear_words fuel left incr ≡ ok tt
unfolding clear_words
clear_words_run zero left incr h one = let a = le→ltb 0 left (omega arith) in rw a refl
clear_words_run (suc fuel) left incr h one = elim (Bool-cases (ltb 0 left)) [
  | inr out ↦ rw out refl
  | inl inside ↦ rw inside (clear_words_run fuel (left - incr) incr (ground arith) one)
]

-- Nothing but the buffer has changed.
record IsCleared (s out : Settings) : Type 0 where
  kbest : out.kbest ≡ s.kbest
  maxsamples : out.maxsamples ≡ s.maxsamples
  block : out.cache_block ≡ s.cache_block

with_buffer-IsCleared : (buf : Option ℕ) (s : Settings) → IsCleared s (with_buffer buf s)
with_buffer-IsCleared none s = record { kbest = refl; maxsamples = refl; block = refl }
with_buffer-IsCleared (some _) s = record { kbest = refl; maxsamples = refl; block = refl }

clear_if_runs :
    (b : Bool) (s : Settings)
    → 4 ≤ s.cache_block
    → (out : Settings) × (clear_if b s ≡ ok out) × IsCleared s out
unfolding clear_if clear
clear_if_runs false s block = (s, refl, record { kbest = refl; maxsamples = refl; block = refl })
clear_if_runs true s block =
    let a =
      clear_words_run (s.cache_bytes / 4) (s.cache_bytes / 4) (s.cache_block / 4) (omega arith)
        (omega arith) in
    (with_buffer s.cache_buf s, rw a refl, with_buffer-IsCleared s.cache_buf s)

within :
    (t t1 : ℕ) {t2 m m1 : ℕ}
    → (t2 ≤ m1) ⊎ (t2 ≡ t1 + 1)
    → m1 ≡ m
    → t1 < m1
    → (t2 ≤ m) ⊎ (t2 ≡ t + 1)
within t t1 (inl low) e room = inl (omega arith)
within t t1 (inr next) e room = inl (omega arith)

full_or_done {ℓ} : {A : Type ℓ} {t m m1 : ℕ} → A ⊎ (m1 ≤ t) → m1 ≡ m → A ⊎ (m ≤ t)
full_or_done (inl a) e = inl a
full_or_done (inr h) e = inr (omega arith)

module _ (clock : Bool → ℕ → ℕ) where
  measure_runs :
      (s : Settings) (t : Sampler)
      → 1 ≤ s.kbest
      → 4 ≤ s.cache_block
      → length t.values ≡ s.kbest
      → (s1 : Settings) × (t1 : Sampler) × (measure clock s t ≡ ok (s1, t1))
        × IsCleared s s1
        × (length t1.values ≡ s1.kbest)
        × (t1.samplecount ≡ t.samplecount + 1)
  unfolding measure
  measure_runs s t one block size =
      let (s1, c, same) = clear_if_runs s.clear_cache s block in
      let k = same.kbest in
      let (t1, a, long, count) =
        add_sample_runs s1 (clock s1.compensate t.samplecount) t (omega arith) (omega arith) in
      (s1, t1, rw (c, a) refl, same, long, count)

  sample_loop_lem :
      (fuel : ℕ) (s : Settings) (t : Sampler)
      → 1 ≤ s.kbest
      → 4 ≤ s.cache_block
      → length t.values ≡ s.kbest
      → s.maxsamples < t.samplecount + fuel
      → 1 ≤ fuel
      → (s1 : Settings) × (t1 : Sampler) × (sample_loop clock fuel s t ≡ ok (s1, t1))
        × (length t1.values ≡ s1.kbest)
        × (1 ≤ s1.kbest)
        × (t.samplecount < t1.samplecount)
        × ((t1.samplecount ≤ s.maxsamples) ⊎ (t1.samplecount ≡ t.samplecount + 1))
        × ((has_converged s1 t1 ≡ ok true) ⊎ (s.maxsamples ≤ t1.samplecount))
  unfolding sample_loop
  sample_loop_lem zero s t one block size bound more = absurd (omega arith)
  sample_loop_lem (suc fuel) s t one block size bound more =
      let (s1, t1, a, same, long, count) = measure_runs s t one block size in
      let k = same.kbest in
      let m = same.maxsamples in
      let (done, b) = has_converged_runs s1 t1 (omega arith) long in
      elim (Bool-cases done) [
        | inl yes_done ↦
            let e : has_converged s1 t1 ≡ ok true = b ∙ ap ok yes_done in
            (s1, t1, rw (a, e) refl, long, omega arith, omega arith, inr count, inl e)
        | inr not_done ↦
            let e : has_converged s1 t1 ≡ ok false = b ∙ ap ok not_done in
            elim (dec_lt t1.samplecount s1.maxsamples) [
              | no full ↦
                  let f = le→ltb t1.samplecount s1.maxsamples (omega arith) in
                  (
                    s1,
                    t1,
                    rw (a, e, f) refl,
                    long,
                    omega arith,
                    omega arith,
                    inr count,
                    inr (omega arith),
                  )
              | yes room ↦
                  let f = lt→ltb t1.samplecount s1.maxsamples room in
                  let (s2, t2, runs, long2, one2, grown, top, stop) =
                    sample_loop_lem fuel s1 t1 (omega arith) (omega (arith, same.block)) long
                      (omega arith) (omega arith) in
                  (
                    s2,
                    t2,
                    rw (a, e, f) runs,
                    long2,
                    one2,
                    omega arith,
                    within t.samplecount t1.samplecount top (omega arith) (omega arith),
                    full_or_done stop (omega arith),
                  )
            ]
      ]

  -- With a `kbest` that is not 0 and cache blocks of at least 4 bytes, `fcyc` ends within
  -- `maxsamples + 1` rounds and stays within its array. It takes one sample at least, at most
  -- `maxsamples` unless it took only one, and stops because the samples have converged or because
  -- it took `maxsamples` of them. The result is the first of the values.
  pub fcyc_lem :
      (s : Settings)
      → 1 ≤ s.kbest
      → 4 ≤ s.cache_block
      → (result : ℕ) × (s1 : Settings) × (t : Sampler) × (fcyc clock s ≡ ok (result, s1, t))
        × (read_value t.values 0 ≡ ok result)
        × (1 ≤ t.samplecount)
        × ((t.samplecount ≤ s.maxsamples) ⊎ (t.samplecount ≡ 1))
        × ((has_converged s1 t ≡ ok true) ⊎ (s.maxsamples ≤ t.samplecount))
  unfolding fcyc init_sampler
  fcyc_lem s one block =
      let (s1, t, a, long, some_kept, grown, top, stop) =
        sample_loop_lem (s.maxsamples + 1) s
          (record { values = replicate s.kbest 0; samplecount = 0 }) one block
          (length-replicate s.kbest 0) (omega arith) (omega arith) in
      let (result, e) = read_inside t.values 0 (omega arith) in
      (result, s1, t, rw (a, e) refl, e, omega arith, top, stop)
