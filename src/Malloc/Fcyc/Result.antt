-- ===== src/Malloc/Fcyc/Result.antt =====
-- What `fcyc` of malloclab/fcyc.c returns.
use cso18_labs.Base.{
  ℕ, zero, suc, ◌+◌, ◌-◌, ◌≤◌, ◌≡◌, refl, sym, ap, ◌∙◌, subst, Bool, true, false, not, ◌&&◌, ◌/◌,
  Option, none, some, ◌++◌, ltb, replicate, arith, ◌⊎◌,
}
use cso18_labs.Base.Run.{ok, Holds, returns, faults, Holds_ok, Holds-bind, Holds-any, if-Holds}
use cso18_labs.Malloc.Fcyc.{
  Settings, Sampler, read_value, add_sample, init_sampler, clear, clear_if, with_buffer,
  clear_words, measure, has_converged, sample_loop, fcyc,
}
use cso18_labs.Malloc.Fcyc.Sorting.{sort}
use cso18_labs.Malloc.Fcyc.Best.{smallest, IsKept}
use cso18_labs.Malloc.Fcyc.Samples.{fcyc_lem}
use cso18_labs.Malloc.Fcyc.Keeps.{add_sample-IsKept}
use cso18_labs.Malloc.Fcyc.Minimum.{IsMinimum, first-IsMinimum}

-- The settings that the sampling depends on have not changed.
abbrev SameSettings : Settings → Settings → Type 0
SameSettings s s1 = (s1.kbest ≡ s.kbest) × (s1.compensate ≡ s.compensate)

with_buffer-SameSettings : (buf : Option ℕ) (s : Settings) → SameSettings s (with_buffer buf s)
with_buffer-SameSettings none s = (refl, refl)
with_buffer-SameSettings (some _) s = (refl, refl)

clear_if-SameSettings : (b : Bool) (s : Settings) → Holds (SameSettings s) (clear_if b s)
unfolding clear_if clear
clear_if-SameSettings false s = returns (refl, refl)
clear_if-SameSettings true s =
    Holds-any (clear_words (s.cache_bytes / 4) (s.cache_bytes / 4) (s.cache_block / 4))
      (λ _. returns (with_buffer-SameSettings s.cache_buf s))

nothing-IsKept :
    (k : ℕ) (f : ℕ → ℕ) → IsKept k f (record { values = replicate k 0; samplecount = 0 })
unfolding sort
nothing-IsKept zero f = record { values = refl }
nothing-IsKept (suc k) f =
    let e : suc k ≡ suc k - 0 = omega arith in record { values = ap (λ i. replicate i 0) e }

module _ (clock : Bool → ℕ → ℕ) where
  -- The state of the loop of `fcyc`.
  abbrev IsSampling : ℕ → Bool → Settings × Sampler → Type 0
  IsSampling k c (s, t) = (s.kbest ≡ k) × (s.compensate ≡ c) × IsKept k (clock c) t

  measure-IsSampling :
      (k : ℕ) (c : Bool) (s : Settings) (t : Sampler)
      → 1 ≤ k
      → IsSampling k c (s, t)
      → Holds (IsSampling k c) (measure clock s t)
  unfolding measure
  measure-IsSampling k c s t one (ek, ec, kept) =
      Holds-bind (clear_if-SameSettings s.clear_cache s) (λ s1 (fk, fc).
        Holds-bind
          (subst (λ b. Holds (IsKept k (clock c)) (add_sample s1 (clock b t.samplecount) t))
            (sym (fc ∙ ec))
            (subst (λ i. Holds (IsKept i (clock c)) (add_sample s1 (clock c t.samplecount) t))
              (fk ∙ ek)
              (add_sample-IsKept s1 (clock c) t (let e = fk ∙ ek in omega (arith, e, one))
                (subst (λ i. IsKept i (clock c) t) (sym (fk ∙ ek)) kept))))
          (λ t1 kept1. returns (fk ∙ ek, fc ∙ ec, kept1)))

  sample_loop-IsSampling :
      (fuel k : ℕ) (c : Bool) (s : Settings) (t : Sampler)
      → 1 ≤ k
      → IsSampling k c (s, t)
      → Holds (IsSampling k c) (sample_loop clock fuel s t)
  unfolding sample_loop
  sample_loop-IsSampling zero k c s t one i = faults
  sample_loop-IsSampling (suc fuel) k c s t one i =
      Holds-bind (measure-IsSampling k c s t one i) (λ (s1, t1) i1.
        Holds-any (has_converged s1 t1) (λ done.
          if-Holds (not done && ltb t1.samplecount s1.maxsamples)
            (sample_loop-IsSampling fuel k c s1 t1 one i1) (returns i1)))

  fcyc-IsKept :
      (s : Settings)
      → 1 ≤ s.kbest
      → Holds (λ (result, s1, t). IsKept s.kbest (clock s.compensate) t) (fcyc clock s)
  unfolding fcyc init_sampler
  fcyc-IsKept s one =
      Holds-bind
        (sample_loop-IsSampling (s.maxsamples + 1) s.kbest s.compensate s (init_sampler s) one
          (refl, refl, nothing-IsKept s.kbest (clock s.compensate)))
        (λ (s1, t) (ek, ec, kept). Holds-any (read_value t.values 0) (λ result. returns kept))

  -- With a `kbest` that is not 0 and cache blocks of at least 4 bytes, `fcyc` returns within
  -- `maxsamples + 1` rounds. The array then holds the `kbest` smallest of the samples it took, in
  -- ascending order, with zeros behind them when it took fewer, and the result is the least
  -- sample. It took one sample at least, at most `maxsamples` unless it took only one, and stopped
  -- because the samples have converged or because it took `maxsamples` of them.
  pub fcyc_best :
      (s : Settings)
      → 1 ≤ s.kbest
      → 4 ≤ s.cache_block
      → (result : ℕ) × (s1 : Settings) × (t : Sampler) × (fcyc clock s ≡ ok (result, s1, t))
        × (t.values
            ≡ smallest s.kbest (clock s.compensate) t.samplecount
              ++ replicate (s.kbest - t.samplecount) 0)
        × IsMinimum (clock s.compensate) t.samplecount result
        × (1 ≤ t.samplecount)
        × ((t.samplecount ≤ s.maxsamples) ⊎ (t.samplecount ≡ 1))
        × ((has_converged s1 t ≡ ok true) ⊎ (s.maxsamples ≤ t.samplecount))
  fcyc_best s one block =
      let (result, s1, t, runs, first, taken, top, stop) = fcyc_lem clock s one block in
      let kept : IsKept s.kbest (clock s.compensate) t = Holds_ok (
        subst (Holds (λ (r, u, v). IsKept s.kbest (clock s.compensate) v)) runs
          (fcyc-IsKept s one)) in
      let least = first-IsMinimum s.kbest (clock s.compensate) t result one taken kept first in
      (result, s1, t, runs, kept.values, least, taken, top, stop)
