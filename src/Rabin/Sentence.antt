-- ===== src/Rabin/Sentence.antt =====
-- `print_matched_sentence` of rklab/rkgrep_main.c. A C string is its array, the NUL included; what
-- is printed is the list of characters, with the two colour codes as marks.
pub mod Reads
pub mod Print
use cso18_labs.Base.{
  ℕ, zero, suc, ◌+◌, ◌-◌, ◌≤◌, ◌<◌, ◌≡◌, refl, ap, sym, ◌∙◌, Bool, true, false, Option, none, some,
  List, [], ◌∷◌, ◌++◌, ◌||◌, ◌==◌, arith, if◌then◌else◌, length, get_elem?, map, Bool-cases, ◌⊎◌,
  inl, inr,
}
use cso18_labs.Base.Run.{Run, ok, fault, ◌>>=◌, ◌>>◌, bad_access, out_of_fuel}

pub data Output : Type 0 where
  char : ℕ → Output
  red normal : Output

unfoldable pub read_char : List ℕ → ℕ → Run ℕ
read_char s i = elim (get_elem? s i) [ none ↦ fault bad_access | some c ↦ ok c ]

-- The loop that looks for the beginning of the sentence; 10 is '\n'.
unfoldable pub sentence_start : List ℕ → ℕ → Run ℕ
unfolding read_char
sentence_start doc zero = ok 0
sentence_start doc (suc p) =
    let rest = sentence_start doc p in read_char doc p >>= λ c. if c == 10 then ok (suc p) else rest

-- `n` characters from `j` on.
unfoldable pub print_from : List ℕ → ℕ → ℕ → Run (List Output)
unfolding read_char
print_from doc j zero = ok []
print_from doc j (suc n) =
    read_char doc j >>= λ c. print_from doc (j + 1) n >>= λ out. ok (char c ∷ out)

-- The loop over the pattern, from `i` on: what it prints, and where it stops.
unfoldable pub print_match : ℕ → List ℕ → List ℕ → ℕ → ℕ → Run (List Output × ℕ)
unfolding read_char
print_match zero doc pattern at i = fault out_of_fuel
print_match (suc fuel) doc pattern at i =
    let rest = print_match fuel doc pattern at (i + 1) in
    read_char doc (i + at) >>= λ c. read_char pattern i >>= λ k.
    if c == k then (rest >>= λ (out, stop). ok (char c ∷ out, stop)) else ok ([], i)

-- The loop over the rest of the sentence.
unfoldable pub print_rest : ℕ → List ℕ → ℕ → Run (List Output)
unfolding read_char
print_rest zero doc j = fault out_of_fuel
print_rest (suc fuel) doc j =
    let rest = print_rest fuel doc (j + 1) in
    read_char doc j >>= λ c.
    if (c == 10) || (c == 0) then ok [] else (rest >>= λ out. ok (char c ∷ out))

-- A negative position prints nothing. Each round of a loop reads a further character of the
-- document, so that one round more than it has characters is enough for each.
unfoldable pub print_matched_sentence : Option ℕ → List ℕ → List ℕ → Run (List Output)
unfolding sentence_start print_from print_match print_rest
print_matched_sentence none pattern doc = ok []
print_matched_sentence (some at) pattern doc = sentence_start doc at >>= λ start.
    print_from doc start (at - start) >>= λ before.
    print_match (length doc + 1) doc pattern at 0 >>= λ (found, i).
    print_rest (length doc + 1) doc (i + at) >>= λ after.
    ok (before ++ red ∷ (found ++ normal ∷ (after ++ char 10 ∷ [])))
