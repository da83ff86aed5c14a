-- ===== src/Malloc/Fcyc.antt =====
-- malloclab/fcyc.c: the K-best scheme. A `double` that counts cycles is a whole number, and
-- `epsilon` a fraction. `clock compensated n` is the count that the counter of clock.c gives for
-- the sample with number `n`, in the compensated mode or the plain one. A count of the compensated mode
-- can also be negative or have a fraction; such counts are not covered.
pub mod Sorting
pub mod Sift
pub mod Best
pub mod Samples
pub mod Keeps
pub mod Minimum
pub mod Result
use cso18_labs.Base.{
  ℕ, zero, suc, ◌+◌, ◌-◌, ◌*◌, ◌/◌, Bool, true, false, ◌&&◌, not, Option, none, some, List, [], ◌∷◌,
  ltb, leb, ◌==◌, if◌then◌else◌, replicate, get_elem?, set, length,
}
use cso18_labs.Base.Run.{Run, ok, fault, ◌>>=◌, ◌>>◌, check, bad_access, out_of_fuel}

-- The static variables, the arrays apart. `cache_buf` is `none` for NULL.
pub record Settings : Type 0 where
  pub kbest : ℕ
  pub maxsamples : ℕ
  pub eps_num : ℕ
  pub eps_den : ℕ
  pub compensate : Bool
  pub clear_cache : Bool
  pub cache_bytes : ℕ
  pub cache_block : ℕ
  pub cache_buf : Option ℕ

abbrev pub default : Settings
default = record {
  kbest = 3;
  maxsamples = 20;
  eps_num = 1;
  eps_den = 100;
  compensate = false;
  clear_cache = false;
  cache_bytes = 524288;
  cache_block = 32;
  cache_buf = none;
}

abbrev pub set_fcyc_clear_cache : Bool → Settings → Settings
set_fcyc_clear_cache clear s = record s { clear_cache = clear }

abbrev pub set_fcyc_cache_size : ℕ → Settings → Settings
set_fcyc_cache_size bytes s =
    if bytes == s.cache_bytes then s else record s { cache_bytes = bytes; cache_buf = none }

abbrev pub set_fcyc_cache_block : ℕ → Settings → Settings
set_fcyc_cache_block bytes s = record s { cache_block = bytes }

abbrev pub set_fcyc_compensate : Bool → Settings → Settings
set_fcyc_compensate compensate s = record s { compensate = compensate }

abbrev pub set_fcyc_k : ℕ → Settings → Settings
set_fcyc_k k s = record s { kbest = k }

abbrev pub set_fcyc_maxsamples : ℕ → Settings → Settings
set_fcyc_maxsamples n s = record s { maxsamples = n }

abbrev pub set_fcyc_epsilon : ℕ → ℕ → Settings → Settings
set_fcyc_epsilon num den s = record s { eps_num = num; eps_den = den }

pub record Sampler : Type 0 where
  pub values : List ℕ
  pub samplecount : ℕ

unfoldable pub init_sampler : Settings → Sampler
init_sampler s = record { values = replicate s.kbest 0; samplecount = 0 }

unfoldable pub read_value : List ℕ → ℕ → Run ℕ
read_value values i = elim (get_elem? values i) [ none ↦ fault bad_access | some v ↦ ok v ]

-- The loop "Insertion sort", from `pos` on.
unfoldable pub sift : ℕ → List ℕ → Run (List ℕ)
unfolding read_value
sift zero values = ok values
sift (suc p) values = read_value values p >>= λ above. read_value values (suc p) >>= λ here.
    (let rest = sift p (set (set values p here) (suc p) above) in
      if ltb here above then rest else ok values)

-- Where the new value goes, if it is kept.
unfoldable pub place_sample : Settings → ℕ → Sampler → Run (ℕ × List ℕ)
unfolding read_value
place_sample s val t =
    if ltb t.samplecount s.kbest
    then (check (ltb t.samplecount (length t.values)) bad_access
        >> ok (t.samplecount, set t.values t.samplecount val))
    else (check (ltb 0 s.kbest) bad_access
        >> (read_value t.values (s.kbest - 1) >>= λ worst.
            if ltb val worst
            then ok (s.kbest - 1, set t.values (s.kbest - 1) val)
            else ok (0, t.values)))

unfoldable pub add_sample : Settings → ℕ → Sampler → Run Sampler
unfolding place_sample sift
add_sample s val t = place_sample s val t >>= λ (at, values).
    sift at values >>= λ sorted. ok (record { values = sorted; samplecount = t.samplecount + 1 })

unfoldable pub has_converged : Settings → Sampler → Run Bool
unfolding read_value
has_converged s t =
    if leb s.kbest t.samplecount
    then (check (ltb 0 s.kbest) bad_access
        >> (read_value t.values 0 >>= λ best. read_value t.values (s.kbest - 1) >>= λ worst.
            ok (leb (s.eps_den * worst) ((s.eps_den + s.eps_num) * best))))
    else ok false

-- The loop of `clear`; `left` counts the bytes up to `cend`, in words of 4 bytes. An increment of 0
-- never ends.
unfoldable pub clear_words : ℕ → ℕ → ℕ → Run (Unit {0})
clear_words zero left incr = if ltb 0 left then fault out_of_fuel else ok tt
clear_words (suc fuel) left incr =
    let rest = clear_words fuel (left - incr) incr in if ltb 0 left then rest else ok tt

-- `if (!cache_buf) cache_buf = malloc(cache_bytes)`, which is taken to succeed.
abbrev pub with_buffer : Option ℕ → Settings → Settings
with_buffer none s = record s { cache_buf = some s.cache_bytes }
with_buffer (some _) s = s

unfoldable pub clear : Settings → Run Settings
unfolding clear_words
clear s =
    clear_words (s.cache_bytes / 4) (s.cache_bytes / 4) (s.cache_block / 4)
    >> ok (with_buffer s.cache_buf s)

-- `if (clear_cache) clear();`
unfoldable pub clear_if : Bool → Settings → Run Settings
unfolding clear
clear_if true s = clear s
clear_if false s = ok s

module _ (clock : Bool → ℕ → ℕ) where
  -- One round of either loop of `fcyc`.
  unfoldable pub measure : Settings → Sampler → Run (Settings × Sampler)
  unfolding clear_if add_sample
  measure s t = clear_if s.clear_cache s >>= λ s1.
      add_sample s1 (clock s1.compensate t.samplecount) t >>= λ t1. ok (s1, t1)

  -- The loops of `fcyc`, with fuel; `maxsamples` rounds behind the first are enough.
  unfoldable pub sample_loop : ℕ → Settings → Sampler → Run (Settings × Sampler)
  unfolding measure has_converged
  sample_loop zero s t = fault out_of_fuel
  sample_loop (suc fuel) s t = measure s t >>= λ (s1, t1). has_converged s1 t1 >>= λ done.
      (let rest = sample_loop fuel s1 t1 in
        if not done && ltb t1.samplecount s1.maxsamples then rest else ok (s1, t1))

  -- The result, and the sampler behind the loop.
  unfoldable pub fcyc : Settings → Run (ℕ × Settings × Sampler)
  unfolding sample_loop read_value init_sampler
  fcyc s = sample_loop (s.maxsamples + 1) s (init_sampler s) >>= λ (s1, t).
      read_value t.values 0 >>= λ result. ok (result, s1, t)
