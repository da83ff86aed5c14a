-- ===== src/Malloc/Fcyc/Keeps.antt =====
-- `add_sample` of malloclab/fcyc.c keeps the smallest samples.
use native.Mathlib.Decide.{dec_lt}
use cso18_labs.Base.{
  ℕ, suc, ◌+◌, ◌-◌, ◌≤◌, ◌≡◌, refl, sym, ap, ◌∙◌, subst, some, [], ◌∷◌, ◌++◌, ltb, get_elem?,
  get_elem?_behind, replicate, length, length-append, length-replicate, append-nil, arith,
  Bool-cases, inl, inr, lt→ltb, le→ltb, ltb→lt, ltb→le,
}
use cso18_labs.Base.Run.{ok, Holds, returns}
use cso18_labs.Malloc.Fcyc.{Settings, Sampler, read_value, sift, place_sample, add_sample}
use cso18_labs.Malloc.Fcyc.Sift.{read_value-some, last_element}
use cso18_labs.Malloc.Fcyc.Best.{
  smallest, IsKept, early_values, late_values, same_values, length-smallest_few,
  length-smallest_many,
}

add_sample_early :
    (s : Settings) (f : ℕ → ℕ) (t : Sampler) (m : ℕ)
    → t.samplecount + suc m ≡ s.kbest
    → IsKept s.kbest f t
    → add_sample s (f t.samplecount) t
      ≡ ok (record {
        values = smallest s.kbest f (suc t.samplecount) ++ replicate m 0;
        samplecount = t.samplecount + 1;
      })
unfolding add_sample place_sample
add_sample_early s f t m room kept =
    let n = t.samplecount in
    let zeros : s.kbest - n ≡ suc m = omega arith in
    let before : t.values ≡ smallest s.kbest f n ++ replicate (suc m) 0 =
      kept.values ∙ ap (λ r. smallest s.kbest f n ++ replicate r 0) zeros in
    let a = lt→ltb n s.kbest (omega arith) in
    let long : length t.values ≡ n + suc m =
      ap length before
      ∙ length-append (smallest s.kbest f n) (replicate (suc m) 0)
      ∙ (let x = length-smallest_few s.kbest f n (omega arith) in
          let y = length-replicate {A = ℕ} (suc m) 0 in omega (arith, x, y)) in
    let b = lt→ltb n (length t.values) (omega arith) in
    rw (a, b, before) (rw (early_values s.kbest f n m room) refl)

add_sample_late :
    (s : Settings) (f : ℕ → ℕ) (t : Sampler) (j : ℕ)
    → s.kbest ≡ suc j
    → s.kbest ≤ t.samplecount
    → t.values ≡ smallest (suc j) f t.samplecount
    → add_sample s (f t.samplecount) t
      ≡ ok (record {
        values = smallest (suc j) f (suc t.samplecount);
        samplecount = t.samplecount + 1;
      })
unfolding add_sample place_sample
add_sample_late s f t j k full kept =
    let n = t.samplecount in
    let (init, w, e, l) =
      last_element j (smallest (suc j) f n) (length-smallest_many (suc j) f n (omega arith)) in
    let a = le→ltb n s.kbest full in
    let b = lt→ltb 0 s.kbest (omega arith) in
    let at : s.kbest - 1 ≡ j = omega arith in
    let c : read_value (init ++ w ∷ []) j ≡ ok w =
      read_value-some (init ++ w ∷ []) j
        (subst (λ i. get_elem? (init ++ w ∷ []) i ≡ some w) l (get_elem?_behind init w [])) in
    let before = kept ∙ e in
    elim (Bool-cases (ltb (f n) w)) [
      | inl less ↦
          rw (a, b, at, before, c, less)
            (rw (late_values j f n w init e l (ltb→lt (f n) w less)) refl)
      | inr more ↦
          let same = same_values j f n w init e l (ltb→le (f n) w more) in
          rw (a, b, at, before, c, more, same) (unfold sift in refl)
    ]

next_number : (n : ℕ) → suc n ≡ n + 1
next_number n = omega arith

no_zeros :
    (k : ℕ) (f : ℕ → ℕ) (n : ℕ) → k ≤ n → smallest k f n ≡ smallest k f n ++ replicate (k - n) 0
no_zeros k f n h =
    let e : 0 ≡ k - n = omega arith in
    sym (append-nil (smallest k f n)) ∙ ap (λ r. smallest k f n ++ replicate r 0) e

-- A call of `add_sample` with the next sample keeps the smallest.
pub add_sample-IsKept :
    (s : Settings) (f : ℕ → ℕ) (t : Sampler)
    → 1 ≤ s.kbest
    → IsKept s.kbest f t
    → Holds (IsKept s.kbest f) (add_sample s (f t.samplecount) t)
add_sample-IsKept s f t one kept = elim (dec_lt t.samplecount s.kbest) [
  | yes early ↦
      let m = s.kbest - suc t.samplecount in
      subst (Holds (IsKept s.kbest f)) (sym (add_sample_early s f t m (omega arith) kept)) (
        returns (record {
          values =
              ap (λ i. smallest s.kbest f i ++ replicate (s.kbest - i) 0)
                (next_number t.samplecount);
        }))
  | no late ↦
      let j = s.kbest - 1 in
      let k : s.kbest ≡ suc j = omega arith in
      let full = no_zeros s.kbest f t.samplecount (omega arith) in
      let before : t.values ≡ smallest (suc j) f t.samplecount =
        kept.values ∙ sym full ∙ ap (λ i. smallest i f t.samplecount) k in
      let after =
        ap (λ i. smallest i f (suc t.samplecount)) (sym k)
        ∙ ap (smallest s.kbest f) (next_number t.samplecount)
        ∙ no_zeros s.kbest f (t.samplecount + 1) (omega arith) in
      subst (Holds (IsKept s.kbest f)) (sym (add_sample_late s f t j k (omega arith) before))
        (returns (record { values = after }))
]
