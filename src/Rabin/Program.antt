-- ===== src/Rabin/Program.antt =====
-- `main` of rklab/rkgrep_main.c. The arguments are what `getopt` returns, what is left of the command
-- line, the file, the value of the byte that `read_ascii_file` leaves unwritten, and the matching
-- functions, which are the students' part.
pub mod Patterns
use cso18_labs.Base.{
  ℕ, zero, suc, ◌+◌, ◌*◌, Bool, true, false, ◌&&◌, Option, none, some, List, [], ◌∷◌, ◌++◌, ltb,
  ◌==◌, if◌then◌else◌, length, map,
}
use cso18_labs.Base.Run.{Run, ok, fault, ◌>>=◌, ◌>>◌, assert, exited, bad_access}
use cso18_labs.Rabin.Files.{File, read_ascii_file}
use cso18_labs.Rabin.Sentence.{Output, print_matched_sentence}

pub data AlgoType : Type 0 where
  naive rk rk_bloom : AlgoType

-- A result of `getopt`: 'a' with its argument, or anything else.
pub data Opt : Type 0 where
  a_option : List ℕ → Opt
  other_option : Opt

-- Each matching function returns the number of matches and sets `first_match_ind`, here `none` for
-- a negative one. The last first builds the Bloom filter from the pattern length and its size.
pub record Matchers : Type 0 where
  pub naive_substring_match : List ℕ → List ℕ → ℕ × Option ℕ
  pub rk_substring_match : List ℕ → List ℕ → ℕ × Option ℕ
  pub rk_substring_match_using_bloom : ℕ → ℕ → List ℕ → List ℕ → ℕ × Option ℕ

-- What the program prints for a pattern: the sentence, and how many matches are not shown.
pub data Line : Type 0 where
  sentence : List Output → Line
  only_one_of : ℕ → List ℕ → Line

abbrev pub str_eq : List ℕ → List ℕ → Bool
str_eq [] [] = true
str_eq [] (_ ∷ _) = false
str_eq (_ ∷ _) [] = false
str_eq (a ∷ s) (b ∷ t) = (a == b) && str_eq s t

-- "naive", "rk" and "rkbloom"
unfoldable pub algo_of : List ℕ → Run AlgoType
algo_of s =
    if str_eq s (110 ∷ 97 ∷ 105 ∷ 118 ∷ 101 ∷ [])
    then ok naive
    else if str_eq s (114 ∷ 107 ∷ [])
    then ok rk
    else if str_eq s (114 ∷ 107 ∷ 98 ∷ 108 ∷ 111 ∷ 111 ∷ 109 ∷ [])
    then ok rk_bloom
    else fault exited

-- The loop over the options.
unfoldable pub select_algo : AlgoType → List Opt → Run AlgoType
unfolding algo_of
select_algo which [] = ok which
select_algo which (a_option s ∷ opts) = algo_of s >>= λ chosen. select_algo chosen opts
select_algo which (other_option ∷ opts) = fault exited

-- A token of `strtok_r` is not empty.
abbrev pub emit : List ℕ → List (List ℕ) → List (List ℕ)
emit [] tokens = tokens
emit (c ∷ s) tokens = (c ∷ s) ∷ tokens

-- The tokens that `strtok_r` cuts at 124, which is '|', with the one that has begun.
unfoldable pub tokens_from : List ℕ → List ℕ → List (List ℕ)
tokens_from current [] = emit current []
tokens_from current (c ∷ s) =
    let cut = tokens_from [] s in
    let on = tokens_from (current ++ c ∷ []) s in if c == 124 then emit current cut else on

-- `MAX_PATTERNS`
abbrev pub max_patterns : ℕ
max_patterns = 1000

-- The assertion behind each token that is stored.
unfoldable pub count_patterns : ℕ → List (List ℕ) → Run ℕ
count_patterns n [] = ok n
count_patterns n (_ ∷ tokens) = assert (ltb (n + 1) max_patterns) >> count_patterns (n + 1) tokens

-- The array that the matching functions see.
abbrev pub contents : ℕ → List (Option ℕ) → List ℕ
contents unwritten [] = []
contents unwritten (none ∷ buf) = unwritten ∷ contents unwritten buf
contents unwritten (some c ∷ buf) = c ∷ contents unwritten buf

unfoldable pub strlen : List ℕ → Run ℕ
strlen [] = fault bad_access
strlen (c ∷ s) = let rest = strlen s in if c == 0 then ok 0 else (rest >>= λ n. ok (n + 1))

-- The loop over the patterns, which is the same for each algorithm.
unfoldable pub run_patterns :
    (List ℕ → List ℕ → ℕ × Option ℕ) → List ℕ → List (List ℕ) → Run (List Line)
unfolding print_matched_sentence
run_patterns match doc [] = ok []
run_patterns match doc (p ∷ patterns) =
    print_matched_sentence (match p doc).1 (p ++ 0 ∷ []) doc >>= λ out.
    run_patterns match doc patterns >>= λ rest.
    ok (
      sentence out ∷ (if ltb 1 (match p doc).0 then only_one_of (match p doc).0 p ∷ rest else rest))

unfoldable pub same_lengths : ℕ → List (List ℕ) → Run (Unit {0})
same_lengths m [] = ok tt
same_lengths m (p ∷ patterns) = assert (m == length p) >> same_lengths m patterns

-- The `switch`, on a list of patterns that is not empty.
unfoldable pub run_algo : Matchers → AlgoType → List ℕ → List (List ℕ) → Run (List Line)
unfolding run_patterns same_lengths strlen
run_algo f naive doc patterns = run_patterns f.naive_substring_match doc patterns
run_algo f rk doc patterns = run_patterns f.rk_substring_match doc patterns
run_algo f rk_bloom doc [] = ok []
run_algo f rk_bloom doc (p ∷ patterns) =
    same_lengths (length p) patterns
    >> (strlen doc >>= λ n.
        run_patterns (f.rk_substring_match_using_bloom (length p) (n * 8)) doc (p ∷ patterns))

unfoldable pub search_document : Matchers → ℕ → File → AlgoType → List (List ℕ) → Run (List Line)
unfolding run_algo read_ascii_file
search_document f unwritten file which [] = fault exited
search_document f unwritten file which (p ∷ patterns) =
    read_ascii_file file >>= λ buf. run_algo f which (contents unwritten buf) (p ∷ patterns)

unfoldable pub main : Matchers → ℕ → File → List Opt → List (List ℕ) → Run (List Line)
unfolding select_algo tokens_from count_patterns search_document
main f unwritten file opts [] = select_algo rk opts >>= λ which. fault exited
main f unwritten file opts (argument ∷ _) = select_algo rk opts >>= λ which.
    count_patterns 0 (tokens_from [] argument) >>= λ n.
    search_document f unwritten file which (tokens_from [] argument)
