-- ===== src/Rabin/Document/Letters.antt =====
-- What `generate_random_document` of rklab/rkgrep_test.c returns.
use native.Mathlib.Decide.{ℕ_discrete}
use cso18_labs.Base.{
  ℕ, zero, suc, ◌+◌, ◌-◌, ◌%◌, ◌≡◌, ◌≤◌, ◌<◌, ◌≢◌, refl, ◌∙◌, ap, true, false, Option, none, some,
  List, ltb, ◌==◌, if◌then◌else◌, length, set, replicate, arith, get_elem?, get_elem?-set,
  length-set, length-replicate, Bool-cases, inl, inr, lt→ltb,
}
use cso18_labs.Base.Run.{Run, ok}
use cso18_labs.Rabin.Document.{
  write_char, write_letters, generate_random_word, word_length, write_words,
  generate_random_document,
}

abbrev pub IsLetter : ℕ → Type 0
IsLetter c = (97 ≤ c) × (c ≤ 122)

-- The first `n` elements are letters.
abbrev pub Letters : List (Option ℕ) → ℕ → Type 0
Letters buf n = (j : ℕ) → j < n → (c : ℕ) × (get_elem? buf j ≡ some (some c)) × IsLetter c

-- What a write in bounds leaves.
record IsWritten (buf : List (Option ℕ)) (i c : ℕ) (out : List (Option ℕ)) : Type 0 where
  runs : write_char buf i c ≡ ok out
  size : length out ≡ length buf
  cell : get_elem? out i ≡ some (some c)
  others : (j : ℕ) → j ≢ i → get_elem? out j ≡ get_elem? buf j

pick_same {ℓ} : {A : Type ℓ} (i : ℕ) (x y : A) → (if i == i then x else y) ≡ x
pick_same i x y = let e : (i == i) ≡ true = ground arith in rw e refl

pick_other {ℓ} : {A : Type ℓ} (i j : ℕ) (x y : A) → j ≢ i → (if i == j then x else y) ≡ y
pick_other i j x y d = let e : (i == j) ≡ false = ground arith in rw e refl

written :
    (buf : List (Option ℕ)) (i c : ℕ) → i < length buf → IsWritten buf i c (set buf i (some c))
unfolding write_char
written buf i c h = record {
  runs = rw (lt→ltb i (length buf) h) refl;
  size = length-set buf i (some c);
  cell = get_elem?-set buf i i (some c) h ∙ pick_same i (some (some c)) (get_elem? buf i);
  others =
      λ j d. get_elem?-set buf i j (some c) h ∙ pick_other i j (some (some c)) (get_elem? buf j) d;
}

keep :
    {buf out : List (Option ℕ)} {i c : ℕ} (n : ℕ)
    → IsWritten buf i c out
    → n ≤ i
    → Letters buf n
    → Letters out n
keep n w le letters j h = let (c, e, l) = letters j h in (c, w.others j (omega arith) ∙ e, l)

grow :
    {buf out : List (Option ℕ)} {n c : ℕ}
    → IsWritten buf n c out
    → IsLetter c
    → Letters buf n
    → Letters out (n + 1)
grow {n = n} {c = c} w l letters j h = elim (ℕ_discrete j n) [
  | yes e ↦ (c, ap (get_elem? _) e ∙ w.cell, l)
  | no d ↦ keep n w (omega arith) letters j (omega arith)
]

letter : (r : ℕ) → IsLetter (97 + r % 26)
letter r = (omega arith, omega arith)

record IsFilled (m : Run (List (Option ℕ))) (total n : ℕ) (out : List (Option ℕ)) : Type 0 where
  runs : m ≡ ok out
  size : length out ≡ total
  letters : Letters out n

write_letters_lem :
    (rand : ℕ → ℕ) (n : ℕ) (buf : List (Option ℕ)) (at len : ℕ)
    → at + len < length buf
    → Letters buf at
    → (out : List (Option ℕ)) × IsFilled
        (write_letters rand n buf at len)
        (length buf)
        (at + len)
        out
unfolding write_letters
write_letters_lem rand n buf at zero h letters =
    (buf, record { runs = refl; size = refl; letters = λ j k. letters j (omega arith) })
write_letters_lem rand n buf at (suc len) h letters =
    let c = 97 + rand n % 26 in
    let w = written buf at c (omega arith) in
    let (out, f) =
      write_letters_lem rand (n + 1) (set buf at (some c)) (at + 1) len (omega (arith, w.size))
        (grow w (letter (rand n)) letters) in
    (
      out,
      record {
        runs = rw w.runs f.runs;
        size = f.size ∙ w.size;
        letters = λ j k. f.letters j (omega arith);
      },
    )

word_length_bounds :
    (rand : ℕ → ℕ) (r left : ℕ)
    → 1 ≤ left
    → (1 ≤ word_length rand r left) × (word_length rand r left ≤ left)
word_length_bounds rand r left h = (ground arith, ground arith)

generate_random_word_lem :
    (rand : ℕ → ℕ) (n : ℕ) (buf : List (Option ℕ)) (at len : ℕ)
    → at + len < length buf
    → Letters buf at
    → (out : List (Option ℕ)) × IsFilled
        (generate_random_word rand n buf at len)
        (length buf)
        (at + len)
        out
unfolding generate_random_word
generate_random_word_lem rand n buf at len h letters =
    let (mid, f) = write_letters_lem rand n buf at len h letters in
    let w = written mid (at + len) 0 (omega (arith, f.size)) in
    (
      set mid (at + len) (some 0),
      record {
        runs = rw f.runs w.runs;
        size = w.size ∙ f.size;
        letters = keep (at + len) w (omega arith) f.letters;
      },
    )

write_words_lem :
    (rand : ℕ → ℕ) (fuel n : ℕ) (buf : List (Option ℕ)) (i len : ℕ)
    → len ≤ i + fuel
    → i ≤ len
    → length buf ≡ len + 1
    → Letters buf i
    → (out : List (Option ℕ)) × IsFilled (write_words rand fuel n buf i len) (len + 1) len out
unfolding write_words
write_words_lem rand zero n buf i len enough le size letters =
    let e : ltb i len ≡ false = ground arith in
    (buf, record { runs = rw e refl; size = size; letters = λ j k. letters j (omega arith) })
write_words_lem rand (suc fuel) n buf i len enough le size letters = elim (Bool-cases (ltb i len)) [
  | inr out ↦
      (buf, record { runs = rw out refl; size = size; letters = λ j k. letters j (ground arith) })
  | inl inside ↦
      let w = word_length rand (rand n) (len - i) in
      let (low, high) = word_length_bounds rand (rand n) (len - i) (ground arith) in
      let fits : i + w ≤ len = ground arith in
      let (mid, f) = generate_random_word_lem rand (n + 1) buf i w (omega arith) letters in
      elim (Bool-cases (i + w == len)) [
        | inl whole ↦
            let all : i + w ≡ len = ground arith in
            (
              mid,
              record {
                runs = rw (inside, f.runs, whole) refl;
                size = f.size ∙ size;
                letters = λ j k. f.letters j (omega arith);
              },
            )
        | inr part ↦
            let more : i + w ≢ len = ground arith in
            let s = written mid (i + w) 32 (omega (arith, f.size)) in
            let (out, g) =
              write_words_lem rand fuel (n + 1 + w) (set mid (i + w) (some 32)) (i + w) len
                (omega arith) (omega arith) (omega (arith, s.size, f.size))
                (keep (i + w) s (omega arith) f.letters) in
            (
              out,
              record {
                runs = rw (inside, f.runs, part, s.runs) g.runs;
                size = g.size;
                letters = g.letters;
              },
            )
      ]
]

-- For every length and whatever `rand` returns, `generate_random_document` ends, stays within its
-- array, and returns `len` lower-case letters and the NUL: every space that it writes between two
-- words is written over by the next word, so that the document has no words.
pub generate_random_document_lem :
    (rand : ℕ → ℕ) (n len : ℕ)
    → (out : List (Option ℕ)) × (generate_random_document rand n len ≡ ok out)
      × (length out ≡ len + 1)
      × Letters out len
      × (get_elem? out len ≡ some (some 0))
unfolding generate_random_document
generate_random_document_lem rand n len =
    let fresh : List (Option ℕ) = replicate (len + 1) none in
    let (mid, f) =
      write_words_lem rand len n fresh 0 len (omega arith) (omega arith)
        (length-replicate (len + 1) none) (λ j h. absurd (omega arith)) in
    let w = written mid len 0 (omega (arith, f.size)) in
    (
      set mid len (some 0),
      rw f.runs w.runs,
      w.size ∙ f.size,
      keep len w (omega arith) f.letters,
      w.cell,
    )
