-- ===== src/Rabin/Files.antt =====
-- `read_ascii_file` of rklab/rkgrep_main.c. What the system's calls return is an argument.
use native.Mathlib.Decide.{ℕ_discrete}
use cso18_labs.Base.{
  Option-cases, ◌≢◌, ◌⊎◌, ℕ, ◌≤◌, ◌<◌, ◌≡◌, refl, inl, inr, Bool, true, false, not, ◌||◌, Option,
  none, some, List, [], ◌∷◌, ◌++◌, leb, ◌==◌, arith, if◌then◌else◌, length, map, Bool-cases,
}
use cso18_labs.Base.Run.{Run, ok, fault, ◌>>=◌, ◌>>◌, check, exited, bad_access}

-- `open` and `fstat` succeed or not, `st.st_size`, whether `malloc` succeeds, and the bytes that
-- `read` stores, `none` where it returns -1.
pub record File : Type 0 where
  pub opens : Bool
  pub stats : Bool
  pub st_size : ℕ
  pub allocates : Bool
  pub reads : Option (List ℕ)

-- `doc[i] <= 0`: a `char` is signed.
abbrev pub not_ascii : ℕ → Bool
not_ascii c = (c == 0) || leb 128 c

-- The loop over the bytes. The argument says whether `doc` still points to the array; the result
-- says so too.
unfoldable pub check_ascii : Bool → List ℕ → Run Bool
check_ascii valid [] = ok valid
check_ascii false (c ∷ doc) = fault bad_access
check_ascii true (c ∷ doc) = check_ascii (not (not_ascii c)) doc

-- `if (!doc) doc[st.st_size] = '\0'`, and the return. An element `none` of the array was never
-- written.
unfoldable pub terminate : Bool → List ℕ → Run (List (Option ℕ))
terminate false doc = fault bad_access
terminate true doc = ok (map some doc ++ none ∷ [])

unfoldable pub read_contents : ℕ → Option (List ℕ) → Run (List (Option ℕ))
read_contents size none = terminate false []
read_contents size (some doc) =
    if length doc == size
    then (check_ascii true doc >>= λ valid. terminate valid doc)
    else terminate false doc

unfoldable pub read_ascii_file : File → Run (List (Option ℕ))
read_ascii_file f =
    check f.opens exited
    >> (check f.stats exited >> (check f.allocates exited >> read_contents f.st_size f.reads))

pub data AllAscii : List ℕ → Type 0 where
  ascii_end : AllAscii []
  ascii_char : {c : ℕ} {s : List ℕ} → 1 ≤ c → c < 128 → AllAscii s → AllAscii (c ∷ s)

-- Some byte is not an ASCII character, or is NUL.
pub data HasOther : List ℕ → Type 0 where
  other_here : {c : ℕ} {s : List ℕ} → not_ascii c ≡ true → HasOther (c ∷ s)
  other_later : {c : ℕ} {s : List ℕ} → HasOther s → HasOther (c ∷ s)

check_ascii-AllAscii : {s : List ℕ} → AllAscii s → check_ascii true s ≡ ok true
unfolding check_ascii
check_ascii-AllAscii ascii_end = refl
check_ascii-AllAscii (ascii_char {c} {s} lo hi rest) =
    let e : not (not_ascii c) ≡ true = ground arith in rw e (check_ascii-AllAscii rest)

-- After the first bad byte the array is gone: the run ends in a fault, in the loop or behind it.
gone : (s doc : List ℕ) → (check_ascii false s >>= λ v. terminate v doc) ≡ fault bad_access
unfolding check_ascii terminate
gone [] doc = refl
gone (c ∷ s) doc = refl

check_ascii-HasOther :
    {s : List ℕ} (doc : List ℕ)
    → HasOther s
    → (check_ascii true s >>= λ v. terminate v doc) ≡ fault bad_access
unfolding check_ascii
check_ascii-HasOther doc (other_here {c} {s} e) = rw e (gone s doc)
check_ascii-HasOther doc (other_later {c} {s} rest) = elim (Bool-cases (not_ascii c)) [
  | inl bad ↦ rw bad (gone s doc)
  | inr good ↦ rw good (check_ascii-HasOther doc rest)
]

classify : (s : List ℕ) → AllAscii s ⊎ HasOther s
classify [] = inl ascii_end
classify (c ∷ s) = elim (Bool-cases (not_ascii c)) [
  | inl bad ↦ inr (other_here bad)
  | inr good ↦ elim (classify s) [
    | inl rest ↦ inl (ascii_char (ground arith) (ground arith) rest)
    | inr rest ↦ inr (other_later rest)
  ]
]

-- What keeps the document from being complete: an error of `read`, a read of another length, or a
-- byte that is not ASCII.
abbrev pub Spoiled : File → Type 0
Spoiled f =
    (f.reads ≡ none) ⊎ ((s : List ℕ) × (f.reads ≡ some s) × ((length s ≢ f.st_size) ⊎ HasOther s))

-- Once the file is open, measured and the array allocated, there are two cases. All bytes are read
-- and all are ASCII: `read_ascii_file` returns them, and the element behind them, which should be
-- the NUL, stays unwritten. Or there is an error of `read`, a read of another length, or a byte that
-- is not ASCII: it does not return NULL but accesses the array through NULL.
pub read_ascii_file_lem :
    (f : File)
    → f.opens ≡ true
    → f.stats ≡ true
    → f.allocates ≡ true
    → ((s : List ℕ) × (f.reads ≡ some s)
        × (length s ≡ f.st_size)
        × AllAscii s
        × (read_ascii_file f ≡ ok (map some s ++ none ∷ [])))
      ⊎ (Spoiled f × (read_ascii_file f ≡ fault bad_access))
unfolding read_ascii_file read_contents terminate
read_ascii_file_lem f a b c = elim (Option-cases f.reads) [
  | inl none_read ↦ inr (inl none_read, rw (a, b, c, none_read) refl)
  | inr (s, r) ↦ elim (ℕ_discrete (length s) f.st_size) [
    | no differ ↦
        let e : (length s == f.st_size) ≡ false = ground arith in
        inr (inr (s, r, inl differ), rw (a, b, c, r, e) refl)
    | yes size ↦
        let e : (length s == f.st_size) ≡ true = ground arith in
        elim (classify s) [
          | inl ascii ↦ inl (s, r, size, ascii, rw (a, b, c, r, e, check_ascii-AllAscii ascii) refl)
          | inr other ↦
              inr (inr (s, r, inr other), rw (a, b, c, r, e) (check_ascii-HasOther s other))
        ]
  ]
]
