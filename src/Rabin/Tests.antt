-- ===== src/Rabin/Tests.antt =====
-- The theorems about rklab at inputs that meet their hypotheses.
use cso18_labs.Base.{
  ◌⊎◌, ℕ, ◌+◌, ◌*◌, ◌≡◌, refl, inl, true, Option, none, some, List, [], ◌∷◌, ◌++◌, arith, length,
  map, get_elem?,
}
use cso18_labs.Base.Run.{ok, fault, ◌>>=◌, bad_access}
use cso18_labs.Rabin.Bloom.{BloomFilter}
use cso18_labs.Rabin.Files.{File, read_ascii_file, AllAscii, Spoiled, read_ascii_file_lem}
use cso18_labs.Rabin.Sentence.{char, red, normal, print_matched_sentence, read_char}
use cso18_labs.Rabin.Sentence.Print.{
  IsStart, at_start, after_newline, Calm, calm_none, calm_one, print_matched_sentence_lem,
  print_matched_sentence_overruns,
}
use cso18_labs.Rabin.Program.{naive, rk, a_option, Matchers, contents, run_algo, main}
use cso18_labs.Rabin.Program.Patterns.{
  no_bar, not_bar, ArePatterns, no_patterns, one_pattern, main_lem,
}
use cso18_labs.Rabin.Document.{generate_random_document}
use cso18_labs.Rabin.Document.Letters.{Letters, generate_random_document_lem}

-- Only the bit at position 8 is set.
abbrev one_bit : BloomFilter
one_bit = record { buf = 0 ∷ 128 ∷ []; bsz = 16 }

abbrev two_bytes : File
two_bytes = record {
  opens = true;
  stats = true;
  st_size = 2;
  allocates = true;
  reads = some (97 ∷ 10 ∷ []);
}

read_ascii_file_lem_example :
    ((s : List ℕ) × (two_bytes.reads ≡ some s)
      × (length s ≡ 2)
      × AllAscii s
      × (read_ascii_file two_bytes ≡ ok (map some s ++ none ∷ [])))
    ⊎ (Spoiled two_bytes × (read_ascii_file two_bytes ≡ fault bad_access))
read_ascii_file_lem_example = read_ascii_file_lem two_bytes refl refl refl

-- "x\nab" in front of the pattern "cd", then "e\n".
after_x : IsStart (120 ∷ 10 ∷ 97 ∷ 98 ∷ 99 ∷ 100 ∷ 101 ∷ 10 ∷ 0 ∷ []) 2
unfolding read_char
after_x = after_newline {p = 1} refl

Calm-ab : Calm (97 ∷ 98 ∷ [])
Calm-ab = calm_one (omega arith) (omega arith) (calm_one (omega arith) (omega arith) calm_none)

Calm-e : Calm (101 ∷ [])
Calm-e = calm_one (omega arith) (omega arith) calm_none

print_matched_sentence_lem_example :
    print_matched_sentence
      (some 4)
      (99 ∷ 100 ∷ 0 ∷ [])
      (120 ∷ 10 ∷ 97 ∷ 98 ∷ 99 ∷ 100 ∷ 101 ∷ 10 ∷ 0 ∷ [])
    ≡ ok (char 97 ∷ char 98 ∷ red ∷ char 99 ∷ char 100 ∷ normal ∷ char 101 ∷ char 10 ∷ [])
print_matched_sentence_lem_example =
    print_matched_sentence_lem (120 ∷ 10 ∷ []) (97 ∷ 98 ∷ []) (99 ∷ 100 ∷ []) (101 ∷ []) (0 ∷ []) 10
      after_x Calm-ab Calm-e (inl refl)

print_matched_sentence_overruns_example :
    print_matched_sentence (some 2) (99 ∷ 0 ∷ []) (97 ∷ 98 ∷ 99 ∷ 0 ∷ []) ≡ fault bad_access
print_matched_sentence_overruns_example =
    print_matched_sentence_overruns [] (97 ∷ 98 ∷ []) (99 ∷ []) at_start Calm-ab

generate_random_document_lem_example :
    (out : List (Option ℕ)) × (generate_random_document (λ n. 7 * n) 0 20 ≡ ok out)
    × (length out ≡ 20 + 1)
    × Letters out 20
    × (get_elem? out 20 ≡ some (some 0))
generate_random_document_lem_example = generate_random_document_lem (λ n. 7 * n) 0 20

-- Functions that find nothing.
abbrev finds_nothing : Matchers
finds_nothing = record {
  naive_substring_match = λ p doc. (0, none);
  rk_substring_match = λ p doc. (0, none);
  rk_substring_match_using_bloom = λ m size p doc. (0, none);
}

two_patterns : ArePatterns ((97 ∷ []) ∷ (98 ∷ 99 ∷ []) ∷ [])
two_patterns =
    one_pattern (omega arith) (not_bar (omega arith) no_bar)
      (one_pattern (omega arith) (not_bar (omega arith) (not_bar (omega arith) no_bar)) no_patterns)

-- `rkgrep -a rk -a naive 'a|bc' file`, and the same without options.
main_lem_example :
    (main finds_nothing 0 two_bytes
        (a_option (114 ∷ 107 ∷ []) ∷ a_option (110 ∷ 97 ∷ 105 ∷ 118 ∷ 101 ∷ []) ∷ [])
        ((97 ∷ 124 ∷ 98 ∷ 99 ∷ []) ∷ [])
      ≡ (read_ascii_file two_bytes >>= λ buf.
          run_algo finds_nothing naive (contents 0 buf) ((97 ∷ []) ∷ (98 ∷ 99 ∷ []) ∷ [])))
    × (main finds_nothing 0 two_bytes [] ((97 ∷ 124 ∷ 98 ∷ 99 ∷ []) ∷ []) ≡ (
        read_ascii_file two_bytes >>= λ buf.
        run_algo finds_nothing rk (contents 0 buf) ((97 ∷ []) ∷ (98 ∷ 99 ∷ []) ∷ [])))
main_lem_example =
    main_lem finds_nothing 0 two_bytes (rk ∷ []) naive [] (97 ∷ []) ((98 ∷ 99 ∷ []) ∷ [])
      two_patterns (omega arith)
