-- ===== src/Rabin/Sentence/Print.antt =====
-- What `print_matched_sentence` of rklab/rkgrep_main.c prints.
use cso18_labs.Base.{
  ℕ, zero, suc, ◌+◌, ◌-◌, ◌≤◌, ◌<◌, ◌≡◌, ◌≢◌, refl, ap, subst, true, false, some, List, [], ◌∷◌,
  ◌++◌, ◌||◌, ◌==◌, arith, length, length-append, get_elem?-none, map, ◌⊎◌, inl, inr,
}
use cso18_labs.Base.Run.{ok, fault, bad_access}
use cso18_labs.Rabin.Sentence.{
  char, red, normal, read_char, sentence_start, print_from, print_match, print_rest,
  print_matched_sentence,
}
use cso18_labs.Rabin.Sentence.Reads.{
  Reads, reads_one, Reads-all, at_index, Reads-behind, Reads-append, Reads-snoc, first_of,
}

print_from_lem :
    {doc : List ℕ} (s : List ℕ) {j : ℕ}
    → Reads doc j s
    → print_from doc j (length s) ≡ ok (map char s)
unfolding print_from
print_from_lem [] r = refl
print_from_lem (c ∷ s) (reads_one e r) = rw (e, print_from_lem s r) refl

print_match_lem :
    {doc pattern : List ℕ} (fuel at i c k : ℕ) (s : List ℕ)
    → length s < fuel
    → Reads doc (i + at) (s ++ c ∷ [])
    → Reads pattern i (s ++ k ∷ [])
    → c ≢ k
    → print_match fuel doc pattern at i ≡ ok (map char s, i + length s)
unfolding print_match
print_match_lem zero at i c k s h r q d = absurd (omega arith)
print_match_lem (suc fuel) at i c k [] h (reads_one e _) (reads_one f _) d =
    let n : (c == k) ≡ false = ground arith in
    let z : i ≡ i + 0 = omega arith in rw (e, f, n) (ap (λ (t : ℕ). ok ([], t)) z)
print_match_lem (suc fuel) at i c k (x ∷ s) h (reads_one e r) (reads_one f q) d =
    let n : (x == x) ≡ true = ground arith in
    let z : i + 1 + length s ≡ i + suc (length s) = omega arith in
    rw (e, f, n, print_match_lem fuel at (i + 1) c k s (omega arith) (at_index (omega arith) r) q d)
      (ap (λ (t : ℕ). ok (char x ∷ map char s, t)) z)

print_match_overruns :
    {doc pattern : List ℕ} (fuel at i : ℕ) (s : List ℕ)
    → length s < fuel
    → Reads doc (i + at) s
    → Reads pattern i s
    → read_char doc (i + at + length s) ≡ fault bad_access
    → print_match fuel doc pattern at i ≡ fault bad_access
unfolding print_match
print_match_overruns zero at i s h r q d = absurd (omega arith)
print_match_overruns {doc} (suc fuel) at i [] h r q d =
    let e : read_char doc (i + at) ≡ fault bad_access =
      subst (λ t. read_char doc t ≡ fault bad_access) (omega arith) d in
    rw e refl
print_match_overruns {doc} (suc fuel) at i (x ∷ s) h (reads_one e r) (reads_one f q) d =
    let n : (x == x) ≡ true = ground arith in
    let end : read_char doc (i + 1 + at + length s) ≡ fault bad_access =
      subst (λ t. read_char doc t ≡ fault bad_access) (omega arith) d in
    rw
      (
        e,
        f,
        n,
        print_match_overruns fuel at (i + 1) s (omega arith) (at_index (omega arith) r) q end,
      )
      refl

-- No character of the list ends a sentence.
pub data Calm : List ℕ → Type 0 where
  calm_none : Calm []
  calm_one : {c : ℕ} {s : List ℕ} → c ≢ 10 → c ≢ 0 → Calm s → Calm (c ∷ s)

print_rest_lem :
    {doc : List ℕ} (fuel j c : ℕ) (s : List ℕ)
    → length s < fuel
    → Reads doc j (s ++ c ∷ [])
    → Calm s
    → (c ≡ 10) ⊎ (c ≡ 0)
    → print_rest fuel doc j ≡ ok (map char s)
unfolding print_rest
print_rest_lem zero j c s h r calm stop = absurd (omega arith)
print_rest_lem (suc fuel) j c [] h (reads_one e _) calm stop =
    let n : ((c == 10) || (c == 0)) ≡ true = ground arith in rw (e, n) refl
print_rest_lem (suc fuel) j c (x ∷ s) h (reads_one e r) (calm_one a b calm) stop =
    let n : ((x == 10) || (x == 0)) ≡ false = ground arith in
    rw (e, n, print_rest_lem fuel (j + 1) c s (omega arith) r calm stop) refl

Calm-at :
    {doc : List ℕ} (s : List ℕ) {j : ℕ}
    → Reads doc j s
    → Calm s
    → (k : ℕ) → k < length s
    → (c : ℕ) × (read_char doc (j + k) ≡ ok c) × (c ≢ 10)
Calm-at [] r calm k h = absurd (omega arith)
Calm-at {doc} (c ∷ s) {j} (reads_one e r) (calm_one a b calm) zero h =
    (c, subst (λ t. read_char doc t ≡ ok c) (omega arith) e, a)
Calm-at {doc} (c ∷ s) {j} (reads_one e r) (calm_one a b calm) (suc k) h =
    let (x, f, d) = Calm-at s r calm k (omega arith) in
    (x, subst (λ t. read_char doc t ≡ ok x) (omega arith) f, d)

-- Where a sentence begins: at the array's start, or behind a newline.
pub data IsStart (doc : List ℕ) : ℕ → Type 0 where
  at_start : IsStart doc 0
  after_newline : {p : ℕ} → read_char doc p ≡ ok 10 → IsStart doc (suc p)

sentence_start_lem :
    {doc : List ℕ} (j n : ℕ)
    → IsStart doc j
    → ((k : ℕ) → k < n → (c : ℕ) × (read_char doc (j + k) ≡ ok c) × (c ≢ 10))
    → sentence_start doc (j + n) ≡ ok j
unfolding sentence_start
sentence_start_lem zero zero at_start line = refl
sentence_start_lem (suc p) zero (after_newline e) line =
    let g : suc p + 0 ≡ suc p = omega arith in rw (g, sentence_start, e) refl
sentence_start_lem {doc} j (suc n) start line =
    let (c, e, d) = line n (omega arith) in
    let f : (c == 10) ≡ false = ground arith in
    let g : j + suc n ≡ suc (j + n) = omega arith in
    rw (g, sentence_start, e, f) (sentence_start_lem j n start (λ k h. line k (omega arith)))

read_char-none : (doc : List ℕ) (i : ℕ) → length doc ≤ i → read_char doc i ≡ fault bad_access
unfolding read_char
read_char-none doc i h = rw (get_elem?-none doc i h, read_char) refl

minus : (j n : ℕ) → j + n - j ≡ n
minus j n = omega arith

-- The character behind the pattern is not the NUL that ends the pattern's own array.
follows :
    {doc : List ℕ} {j c : ℕ} (tail rest : List ℕ)
    → Reads doc j (tail ++ (c ∷ rest))
    → Calm tail
    → (c ≡ 10) ⊎ ((c ≡ 0) × (1 ≤ length tail))
    → (x : ℕ) × (read_char doc j ≡ ok x) × (x ≢ 0)
follows {c = c} [] rest (reads_one e r) calm (inl stop) = (c, e, ground arith)
follows [] rest (reads_one e r) calm (inr (_, long)) = absurd (omega arith)
follows (x ∷ tail) rest (reads_one e r) (calm_one a b calm) stop = (x, e, b)

print_parts :
    {doc : List ℕ} (j c x : ℕ) (line pattern tail : List ℕ)
    → IsStart doc j
    → Reads doc j line
    → Calm line
    → Reads doc (j + length line) (pattern ++ x ∷ [])
    → x ≢ 0
    → Reads doc (j + length line + length pattern) (tail ++ c ∷ [])
    → Calm tail
    → (c ≡ 10) ⊎ (c ≡ 0)
    → length pattern < length doc + 1
    → length tail < length doc + 1
    → print_matched_sentence (some (j + length line)) (pattern ++ 0 ∷ []) doc
      ≡ ok (map char line ++ red ∷ (map char pattern ++ normal ∷ (map char tail ++ char 10 ∷ [])))
unfolding print_matched_sentence
print_parts {doc} j c x line pattern tail start r_line quiet r_pattern differs r_tail still stop
      fits room =
    let fuel = length doc + 1 in
    let a = sentence_start_lem j (length line) start (Calm-at line r_line quiet) in
    let m =
      print_match_lem fuel (j + length line) 0 x 0 pattern fits (at_index (omega arith) r_pattern)
        (Reads-all (pattern ++ 0 ∷ [])) differs in
    let z : 0 + length pattern + (j + length line) ≡ j + length line + length pattern =
      omega arith in
    let e = print_rest_lem fuel (j + length line + length pattern) c tail room r_tail still stop in
    rw (a, minus j (length line), print_from_lem line r_line, m, z, e) refl

either : {c n : ℕ} → (c ≡ 10) ⊎ ((c ≡ 0) × (1 ≤ n)) → (c ≡ 10) ⊎ (c ≡ 0)
either (inl a) = inl a
either (inr (a, _)) = inr a

length_parts :
    (a b c d e : List ℕ)
    → length (a ++ (b ++ (c ++ (d ++ e))))
      ≡ length a + (length b + (length c + (length d + length e)))
length_parts a b c d e = omega (
  arith,
  length-append a (b ++ (c ++ (d ++ e))),
  length-append b (c ++ (d ++ e)),
  length-append c (d ++ e),
  length-append d e,
)

-- Let the document be `pre`, the beginning `line` of a sentence, the pattern, the characters
-- `tail` and then a character `c`, so that `tail` goes up to the end of the sentence, with a newline
-- or the NUL as `c`. Let the pattern not be at the document's end. Then `print_matched_sentence`
-- prints the sentence, the pattern in red, and a newline, and stays within both arrays.
pub print_matched_sentence_lem :
    (pre line pattern tail rest : List ℕ) (c : ℕ)
    → IsStart (pre ++ (line ++ (pattern ++ (tail ++ (c ∷ rest))))) (length pre)
    → Calm line
    → Calm tail
    → (c ≡ 10) ⊎ ((c ≡ 0) × (1 ≤ length tail))
    → print_matched_sentence
        (some (length pre + length line))
        (pattern ++ 0 ∷ [])
        (pre ++ (line ++ (pattern ++ (tail ++ (c ∷ rest)))))
      ≡ ok (map char line ++ red ∷ (map char pattern ++ normal ∷ (map char tail ++ char 10 ∷ [])))
unfolding print_matched_sentence
print_matched_sentence_lem pre line pattern tail rest c start quiet still stop =
    let after = tail ++ (c ∷ rest) in
    let doc = pre ++ (line ++ (pattern ++ after)) in
    let (r_line, r1) =
      Reads-append line (pattern ++ after) (Reads-behind pre (line ++ (pattern ++ after))) in
    let (r_pattern, r2) = Reads-append pattern after r1 in
    let (r_tail, r3) = Reads-append tail (c ∷ rest) r2 in
    let (x, e, differs) = follows tail rest r2 still stop in
    let size : length doc
        ≡ length pre + (length line + (length pattern + (length tail + suc (length rest)))) =
      length_parts pre line pattern tail (c ∷ rest) in
    print_parts (length pre) c x line pattern tail start r_line quiet
      (Reads-snoc pattern x r_pattern e) differs (Reads-snoc tail c r_tail (first_of r3)) still
      (either stop) (omega arith) (omega arith)

-- Where the pattern stands at the very end of the document, at the end of a sentence's beginning
-- `line`, the two arrays agree on their NULs as well, and `print_matched_sentence` reads behind the
-- document's array.
pub print_matched_sentence_overruns :
    (pre line pattern : List ℕ)
    → IsStart (pre ++ (line ++ (pattern ++ 0 ∷ []))) (length pre)
    → Calm line
    → print_matched_sentence
        (some (length pre + length line))
        (pattern ++ 0 ∷ [])
        (pre ++ (line ++ (pattern ++ 0 ∷ [])))
      ≡ fault bad_access
unfolding print_matched_sentence
print_matched_sentence_overruns pre line pattern start quiet =
    let whole = pattern ++ 0 ∷ [] in
    let doc = pre ++ (line ++ whole) in
    let at = length pre + length line in
    let (r_line, r1) = Reads-append line whole (Reads-behind pre (line ++ whole)) in
    let size : length doc ≡ length pre + (length line + length whole) =
      omega (arith, length-append pre (line ++ whole), length-append line whole) in
    let a = sentence_start_lem (length pre) (length line) start (Calm-at line r_line quiet) in
    let end = read_char-none doc (0 + at + length whole) (omega arith) in
    let m =
      print_match_overruns (length doc + 1) at 0 whole (omega arith) (at_index (omega arith) r1)
        (Reads-all whole) end in
    rw (a, minus (length pre) (length line), print_from_lem line r_line, m) refl
