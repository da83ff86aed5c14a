-- ===== src/Rabin/Sentence/Reads.antt =====
-- Where the characters of a string stand in an array, for rklab/rkgrep_main.c.
use cso18_labs.Base.{ℕ, suc, ◌+◌, ◌≡◌, refl, subst, List, [], ◌∷◌, ◌++◌, arith, length}
use cso18_labs.Base.Run.{ok}
use cso18_labs.Rabin.Sentence.{read_char}

-- The characters of `s` stand in the array from `j` on.
pub data Reads (doc : List ℕ) : ℕ → List ℕ → Type 0 where
  reads_none : {j : ℕ} → Reads doc j []
  reads_one :
      {j c : ℕ} {s : List ℕ} → read_char doc j ≡ ok c → Reads doc (j + 1) s → Reads doc j (c ∷ s)

the_next : (j : ℕ) → suc j ≡ j + 1
the_next j = omega arith

shift : {doc s : List ℕ} {j : ℕ} (x : ℕ) → Reads doc j s → Reads (x ∷ doc) (j + 1) s
unfolding read_char
shift x reads_none = reads_none
shift {doc} {j = j} x (reads_one {c = c} e rest) =
    reads_one (subst (λ t. read_char (x ∷ doc) t ≡ ok c) (the_next j) e) (shift x rest)

pub Reads-all : (s : List ℕ) → Reads s 0 s
unfolding read_char
Reads-all [] = reads_none
Reads-all (c ∷ s) = reads_one refl (shift c (Reads-all s))

pub at_index : {doc s : List ℕ} {i j : ℕ} → i ≡ j → Reads doc i s → Reads doc j s
at_index {doc} {s} e r = subst (λ t. Reads doc t s) e r

pub Reads-behind : (p s : List ℕ) → Reads (p ++ s) (length p) s
Reads-behind [] s = Reads-all s
Reads-behind (x ∷ p) s = at_index (omega arith) (shift x (Reads-behind p s))

pub Reads-append :
    {doc : List ℕ} (s t : List ℕ) {j : ℕ}
    → Reads doc j (s ++ t)
    → Reads doc j s × Reads doc (j + length s) t
Reads-append [] t r = (reads_none, at_index (omega arith) r)
Reads-append (c ∷ s) t (reads_one e r) =
    let (a, b) = Reads-append s t r in (reads_one e a, at_index (omega arith) b)

pub Reads-snoc :
    {doc : List ℕ} (s : List ℕ) {j : ℕ} (x : ℕ)
    → Reads doc j s
    → read_char doc (j + length s) ≡ ok x
    → Reads doc j (s ++ x ∷ [])
Reads-snoc {doc} [] {j} x r e =
    reads_one (subst (λ t. read_char doc t ≡ ok x) (omega arith) e) reads_none
Reads-snoc {doc} (c ∷ s) {j} x (reads_one f r) e =
    reads_one f (Reads-snoc s x r (subst (λ t. read_char doc t ≡ ok x) (omega arith) e))

pub first_of : {doc : List ℕ} {j c : ℕ} {s : List ℕ} → Reads doc j (c ∷ s) → read_char doc j ≡ ok c
first_of (reads_one e r) = e
