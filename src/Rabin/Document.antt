-- ===== src/Rabin/Document.antt =====
-- `generate_random_word` and `generate_random_document` of rklab/rkgrep_test.c. `rand n` is what the
-- call of `rand` with number `n` returns. An element of the array that is `none` was never written.
pub mod Letters
use cso18_labs.Base.{
  ℕ, zero, suc, ◌+◌, ◌-◌, ◌%◌, Option, none, some, List, ltb, ◌==◌, if◌then◌else◌, length, set,
  replicate,
}
use cso18_labs.Base.Run.{Run, ok, fault, ◌>>=◌, bad_access, out_of_fuel}

unfoldable pub write_char : List (Option ℕ) → ℕ → ℕ → Run (List (Option ℕ))
write_char buf i c = if ltb i (length buf) then ok (set buf i (some c)) else fault bad_access

module _ (rand : ℕ → ℕ) where
  -- The loop of `generate_random_word`; 97 is 'a'.
  unfoldable pub write_letters : ℕ → List (Option ℕ) → ℕ → ℕ → Run (List (Option ℕ))
  unfolding write_char
  write_letters n buf at zero = ok buf
  write_letters n buf at (suc len) =
      write_char buf at (97 + rand n % 26) >>= λ buf. write_letters (n + 1) buf (at + 1) len

  unfoldable pub generate_random_word : ℕ → List (Option ℕ) → ℕ → ℕ → Run (List (Option ℕ))
  unfolding write_letters
  generate_random_word n buf at len =
      write_letters n buf at len >>= λ buf. write_char buf (at + len) 0

  -- `word_len`, where `left` is `len - i`.
  abbrev pub word_length : ℕ → ℕ → ℕ
  word_length r left =
      let w = r % 5 + 5 in if ltb left w then left else if w == left - 1 then w + 1 else w

  -- The loop of `generate_random_document`; 32 is ' '. Each round writes at least one character, so
  -- that `len` rounds are enough.
  unfoldable pub write_words : ℕ → ℕ → List (Option ℕ) → ℕ → ℕ → Run (List (Option ℕ))
  unfolding generate_random_word
  write_words zero n buf i len = if ltb i len then fault out_of_fuel else ok buf
  write_words (suc fuel) n buf i len =
      let w = word_length (rand n) (len - i) in
      if ltb i len
      then (generate_random_word (n + 1) buf i w >>= λ buf.
          if i + w == len
          then ok buf
          else (write_char buf (i + w) 32 >>= λ buf. write_words fuel (n + 1 + w) buf (i + w) len))
      else ok buf

  unfoldable pub generate_random_document : ℕ → ℕ → Run (List (Option ℕ))
  unfolding write_words
  generate_random_document n len =
      write_words len n (replicate (len + 1) none) 0 len >>= λ buf. write_char buf len 0
