-- ===== src/Rabin/Program/Patterns.antt =====
-- The patterns on the command line of rklab/rkgrep_main.c.
use cso18_labs.Base.{
  append_assoc, append-nil, ℕ, suc, ◌+◌, ◌≡◌, ◌≢◌, ◌≤◌, ◌<◌, refl, ap, sym, ◌∙◌, false, List, [],
  ◌∷◌, ◌++◌, ◌==◌, length, arith, lt→ltb,
}
use cso18_labs.Base.Run.{ok, ◌>>=◌}
use cso18_labs.Rabin.Files.{File, read_ascii_file}
use cso18_labs.Rabin.Program.{
  AlgoType, naive, rk, rk_bloom, Opt, a_option, Matchers, algo_of, select_algo, emit, tokens_from,
  max_patterns, count_patterns, contents, run_algo, search_document, main,
}

-- A pattern that the command line can name: not empty, and without '|'.
pub data HasNoBar : List ℕ → Type 0 where
  no_bar : HasNoBar []
  not_bar : {c : ℕ} {s : List ℕ} → c ≢ 124 → HasNoBar s → HasNoBar (c ∷ s)

pub data ArePatterns : List (List ℕ) → Type 0 where
  no_patterns : ArePatterns []
  one_pattern :
      {p : List ℕ} {ps : List (List ℕ)}
      → 1 ≤ length p
      → HasNoBar p
      → ArePatterns ps
      → ArePatterns (p ∷ ps)

-- The patterns with '|' between them.
abbrev pub join_bars : List (List ℕ) → List ℕ
join_bars [] = []
join_bars (p ∷ []) = p
join_bars (p ∷ q ∷ ps) = p ++ 124 ∷ join_bars (q ∷ ps)

-- The names of the algorithms on the command line.
abbrev pub name_of : AlgoType → List ℕ
name_of naive = 110 ∷ 97 ∷ 105 ∷ 118 ∷ 101 ∷ []
name_of rk = 114 ∷ 107 ∷ []
name_of rk_bloom = 114 ∷ 107 ∷ 98 ∷ 108 ∷ 111 ∷ 111 ∷ 109 ∷ []

-- The options -a that name these algorithms.
abbrev pub options_of : List AlgoType → List Opt
options_of [] = []
options_of (a ∷ rest) = a_option (name_of a) ∷ options_of rest

algo_of-name_of : (a : AlgoType) → algo_of (name_of a) ≡ ok a
unfolding algo_of
algo_of-name_of naive = refl
algo_of-name_of rk = refl
algo_of-name_of rk_bloom = refl

-- The last of the options decides.
select_algo_last :
    (which a : AlgoType) (before : List AlgoType)
    → select_algo which (options_of (before ++ a ∷ [])) ≡ ok a
unfolding select_algo
select_algo_last which a [] = rw (algo_of-name_of a) refl
select_algo_last which a (b ∷ before) = rw (algo_of-name_of b) (select_algo_last b a before)

emit-nonempty : (s : List ℕ) (ts : List (List ℕ)) → 1 ≤ length s → emit s ts ≡ s ∷ ts
emit-nonempty [] ts h = absurd (omega arith)
emit-nonempty (c ∷ s) ts h = refl

tokens_of_one :
    {p : List ℕ} (current rest : List ℕ)
    → HasNoBar p
    → tokens_from current (p ++ 124 ∷ rest) ≡ emit (current ++ p) (tokens_from [] rest)
unfolding tokens_from
tokens_of_one current rest no_bar =
    ap (λ t. emit t (tokens_from [] rest)) (sym (append-nil current))
tokens_of_one current rest (not_bar {c} {s} d more) =
    let e : (c == 124) ≡ false = ground arith in
    rw e (
      tokens_of_one (current ++ c ∷ []) rest more
      ∙ ap (λ t. emit t (tokens_from [] rest)) (append_assoc current (c ∷ []) s))

tokens_at_end :
    {p : List ℕ} (current : List ℕ) → HasNoBar p → tokens_from current p ≡ emit (current ++ p) []
unfolding tokens_from
tokens_at_end current no_bar = ap (λ t. emit t []) (sym (append-nil current))
tokens_at_end current (not_bar {c} {s} d more) =
    let e : (c == 124) ≡ false = ground arith in
    rw e (
      tokens_at_end (current ++ c ∷ []) more
      ∙ ap (λ t. emit t []) (append_assoc current (c ∷ []) s))

tokens-join_bars : {ps : List (List ℕ)} → ArePatterns ps → tokens_from [] (join_bars ps) ≡ ps
unfolding tokens_from
tokens-join_bars no_patterns = refl
tokens-join_bars (one_pattern {p} long clean no_patterns) =
    tokens_at_end [] clean ∙ emit-nonempty p [] long
tokens-join_bars (one_pattern {p} long clean (one_pattern {p = q} {ps = ps} long2 clean2 more)) =
    tokens_of_one [] (join_bars (q ∷ ps)) clean
    ∙ emit-nonempty p (tokens_from [] (join_bars (q ∷ ps))) long
    ∙ ap (λ t. p ∷ t) (tokens-join_bars (one_pattern long2 clean2 more))

count_patterns_lem :
    (n : ℕ) (ps : List (List ℕ))
    → n + length ps < max_patterns
    → count_patterns n ps ≡ ok (n + length ps)
unfolding count_patterns
count_patterns_lem n [] h = ap ok zero_more
  where
    zero_more : n ≡ n + 0
    zero_more = omega arith
count_patterns_lem n (p ∷ ps) h =
    let e = lt→ltb (n + 1) max_patterns (omega arith) in
    let z : n + 1 + length ps ≡ n + suc (length ps) = omega arith in
    rw e (count_patterns_lem (n + 1) ps (omega arith) ∙ ap ok z)

-- The argument is the patterns with '|' between them, fewer than MAX_PATTERNS of them and one at
-- least. Then `main` reads the file and runs an algorithm on exactly these patterns: the one that
-- the last option -a names, if all options are -a with the name of an algorithm, and the
-- Rabin-Karp search without options.
pub main_lem :
    (f : Matchers) (unwritten : ℕ) (file : File) (before : List AlgoType) (which : AlgoType)
    (args : List (List ℕ)) (p : List ℕ) (ps : List (List ℕ))
    → ArePatterns (p ∷ ps)
    → suc (length ps) < max_patterns
    → (main f unwritten file (options_of (before ++ which ∷ [])) (join_bars (p ∷ ps) ∷ args)
        ≡ (read_ascii_file file >>= λ buf. run_algo f which (contents unwritten buf) (p ∷ ps)))
      × (main f unwritten file [] (join_bars (p ∷ ps) ∷ args)
          ≡ (read_ascii_file file >>= λ buf. run_algo f rk (contents unwritten buf) (p ∷ ps)))
unfolding main search_document
main_lem f unwritten file before which args p ps good few =
    let a = select_algo_last rk which before in
    let b = tokens-join_bars good in
    let c = count_patterns_lem 0 (p ∷ ps) (omega arith) in
    (rw (a, b, c) refl, unfold select_algo in rw (b, c) refl)
