-- ===== src/Malloc/Speed/Mark.antt =====
-- The high water mark that `eval_mm_util` of malloclab/mdriver.c divides by the size of the heap.
use cso18_labs.Base.{
  ℕ, ◌+◌, ◌%◌, ◌^◌, ◌≤◌, ◌<◌, ◌≡◌, ◌≢◌, refl, sym, ap, ◌∙◌, subst, Bool, true, false, Option, some,
  List, [], ◌∷◌, ltb, ◌==◌, if◌then◌else◌, length, get_elem?, set, get_elem?-set, arith, Bool-cases,
  ◌⊎◌, inl, inr, ltb→lt,
}
use cso18_labs.Malloc.Machine.{ok, fault, bad_access}
use cso18_labs.Malloc.Naive.{of_int}
use cso18_labs.Malloc.Driver.{
  Package, OpType, alloc_op, realloc_op, free_op, TraceOp, Driver, read_cell, write_cell,
}
use cso18_labs.Malloc.Speed.{int_add, int_sub, int_gt, eval_mm_util}
use cso18_labs.Malloc.Speed.Returns.{>>=-ok, ok_inj}
use cso18_labs.Malloc.Speed.Count.{Count, raise, count_op, count_ops, no_count, high_water}

-- The blocks that a trace has allocated and not freed, by id, with their sizes.
abbrev pub Live : Type 0
Live = List (ℕ × ℕ)

abbrev pub without : ℕ → Live → Live
without i [] = []
without i ((j, s) ∷ l) = if j == i then l else (j, s) ∷ without i l

abbrev pub bytes_of : Live → ℕ
bytes_of [] = 0
bytes_of ((j, s) ∷ l) = s + bytes_of l

abbrev pub behind : OpType → TraceOp → Live → Live
behind alloc_op op l = (op.index, op.size) ∷ l
behind realloc_op op l = (op.index, op.size) ∷ without op.index l
behind free_op op l = without op.index l

-- The most bytes that were allocated at once.
abbrev pub peak : List TraceOp → Live → ℕ → ℕ
peak [] l most = most
peak (op ∷ ops) l most =
    let b = bytes_of (behind op.type op l) in
    peak ops (behind op.type op l) (if ltb most b then b else most)

abbrev pub IsNew : ℕ → Live → Type 0
IsNew i [] = Unit
IsNew i ((j, s) ∷ l) = (j ≢ i) × IsNew i l

abbrev pub IsOld : ℕ → ℕ → Live → Type 0
IsOld i s [] = ⊥
IsOld i s ((j, t) ∷ l) = ((j ≡ i) × (t ≡ s)) ⊎ ((j ≢ i) × IsOld i s l)

abbrev pub Fits : OpType → TraceOp → Live → Type 0
Fits alloc_op op l = IsNew op.index l
Fits realloc_op op l = (s : ℕ) × IsOld op.index s l
Fits free_op op l = (s : ℕ) × IsOld op.index s l

-- A trace that allocates only ids that are not in use, changes and frees only ids that are, and
-- never has 2 ^ 31 bytes in use.
pub data IsProper : List TraceOp → Live → Type 0 where
  all_proper : {l : Live} → IsProper [] l
  proper_op :
      {op : TraceOp} {ops : List TraceOp} {l : Live}
      → Fits op.type op l
      → bytes_of (behind op.type op l) < 2 ^ 31
      → IsProper ops (behind op.type op l)
      → IsProper (op ∷ ops) l

abbrev Agrees : List (Option ℕ) → Live → Type 0
Agrees sizes [] = Unit
Agrees sizes ((j, s) ∷ l) = (get_elem? sizes j ≡ some (some s)) × Agrees sizes l

abbrev Distinct : Live → Type 0
Distinct [] = Unit
Distinct ((j, s) ∷ l) = IsNew j l × Distinct l

bytes_of-without : (i s : ℕ) (l : Live) → IsOld i s l → bytes_of (without i l) + s ≡ bytes_of l
bytes_of-without i s [] h = absurd h
bytes_of-without i s ((j, t) ∷ l) (inl (e, f)) =
    let same : (j == i) ≡ true = ground arith in rw same (omega arith)
bytes_of-without i s ((j, t) ∷ l) (inr (d, h)) =
    let other : (j == i) ≡ false = ground arith in
    let e = bytes_of-without i s l h in rw other (omega (arith, e))

IsNew-without : (k i : ℕ) (l : Live) → IsNew k l → IsNew k (without i l)
IsNew-without k i [] h = tt
IsNew-without k i ((j, t) ∷ l) (d, h) = elim (Bool-cases (j == i)) [
  | inl same ↦ rw same h
  | inr other ↦ rw other (d, IsNew-without k i l h)
]

Distinct-without : (i : ℕ) (l : Live) → Distinct l → Distinct (without i l)
Distinct-without i [] h = tt
Distinct-without i ((j, t) ∷ l) (new, h) = elim (Bool-cases (j == i)) [
  | inl same ↦ rw same h
  | inr other ↦ rw other (IsNew-without j i l new, Distinct-without i l h)
]

without-IsNew : (i : ℕ) (l : Live) → Distinct l → IsNew i (without i l)
without-IsNew i [] h = tt
without-IsNew i ((j, t) ∷ l) (new, h) = elim (Bool-cases (j == i)) [
  | inl same ↦ let e : j ≡ i = ground arith in rw same (subst (λ k. IsNew k l) e new)
  | inr other ↦ let d : j ≢ i = ground arith in rw other (d, without-IsNew i l h)
]

Agrees-without :
    (sizes : List (Option ℕ)) (i : ℕ) (l : Live) → Agrees sizes l → Agrees sizes (without i l)
Agrees-without sizes i [] h = tt
Agrees-without sizes i ((j, t) ∷ l) (e, h) = elim (Bool-cases (j == i)) [
  | inl same ↦ rw same h
  | inr other ↦ rw other (e, Agrees-without sizes i l h)
]

Agrees-set :
    (sizes : List (Option ℕ)) (i v : ℕ) (l : Live)
    → i < length sizes
    → IsNew i l
    → Agrees sizes l
    → Agrees (set sizes i (some v)) l
Agrees-set sizes i v [] inside new h = tt
Agrees-set sizes i v ((j, t) ∷ l) inside (d, new) (e, h) =
    let other : (i == j) ≡ false = ground arith in
    (get_elem?-set sizes i j (some v) inside ∙ rw other e, Agrees-set sizes i v l inside new h)

IsOld-Agrees :
    (sizes : List (Option ℕ)) (i s : ℕ) (l : Live)
    → IsOld i s l
    → Agrees sizes l
    → get_elem? sizes i ≡ some (some s)
IsOld-Agrees sizes i s [] h g = absurd h
IsOld-Agrees sizes i s ((j, t) ∷ l) (inl (e, f)) (g, h) =
    subst (λ k. get_elem? sizes k ≡ some (some s)) e
      (subst (λ k. get_elem? sizes j ≡ some (some k)) f g)
IsOld-Agrees sizes i s ((j, t) ∷ l) (inr (d, at)) (g, h) = IsOld-Agrees sizes i s l at h

written :
    (cells : List (Option ℕ)) (i v : ℕ) (out : List (Option ℕ))
    → write_cell cells i v ≡ ok out
    → (i < length cells) × (set cells i (some v) ≡ out)
unfolding write_cell
written cells i v out h = inside (ltb i (length cells)) refl h
  where
    inside :
        (b : Bool)
        → ltb i (length cells) ≡ b
        → (if b then ok (set cells i (some v)) else fault bad_access) ≡ ok out
        → (i < length cells) × (set cells i (some v) ≡ out)
    inside true e g = (ltb→lt i (length cells) e, ok_inj g)
    inside false e g = absurd cc

read_back :
    (cells : List (Option ℕ)) (i s old : ℕ)
    → get_elem? cells i ≡ some (some s)
    → read_cell cells i ≡ ok old
    → s ≡ old
unfolding read_cell
read_back cells i s old e h =
    let f : read_cell cells i ≡ ok s = rw (e, read_cell) refl in ok_inj (sym f ∙ h)

-- The counters describe the live blocks.
record Describes (c : Count) (l : Live) : Type 0 where
  total : c.total ≡ bytes_of l
  below : c.total ≤ c.most
  small : c.most < 2 ^ 31
  agrees : Agrees c.sizes l
  distinct : Distinct l

abbrev highest : ℕ → ℕ → ℕ
highest most b = if ltb most b then b else most

raised :
    (c : Count) (l : Live) (b i v : ℕ)
    → b < 2 ^ 31
    → c.most < 2 ^ 31
    → bytes_of ((i, v) ∷ l) ≡ b
    → i < length c.sizes
    → IsNew i l
    → Agrees c.sizes l
    → Distinct l
    → Describes (raise b (set c.sizes i (some v)) c) ((i, v) ∷ l)
      × ((raise b (set c.sizes i (some v)) c).most ≡ highest c.most b)
raised c l b i v small top size inside new agrees distinct =
    let same : int_gt b c.most ≡ ltb c.most b = ground arith in
    let at : get_elem? (set c.sizes i (some v)) i ≡ some (some v) =
      let me : (i == i) ≡ true = ground arith in
      get_elem?-set c.sizes i i (some v) inside ∙ rw me refl in
    rw same (
      record {
        total = sym size;
        below = ground arith;
        small = ground arith;
        agrees = (at, Agrees-set c.sizes i v l inside new agrees);
        distinct = (new, distinct);
      },
      refl,
    )

kept : (most b : ℕ) → b ≤ most → most ≡ highest most b
kept most b h = ground arith

positive_int : (n : ℕ) → n < 2 ^ 31 → of_int n ≡ n
positive_int n h = ground arith

count_op_step :
    (type : OpType) (op : TraceOp) (c d : Count) (l : Live)
    → Fits type op l
    → bytes_of (behind type op l) < 2 ^ 31
    → count_op type op c ≡ ok d
    → Describes c l
    → Describes d (behind type op l) × (d.most ≡ highest c.most (bytes_of (behind type op l)))
unfolding count_op
count_op_step alloc_op op c d l new few runs is =
    let (sizes, w, h) = >>=-ok (write_cell c.sizes op.index (of_int op.size)) _ runs in
    let (inside, stored) = written c.sizes op.index (of_int op.size) sizes w in
    let plain = positive_int op.size (omega arith) in
    let sum : int_add c.total op.size ≡ op.size + bytes_of l = omega (arith, is.total) in
    let same : raise (op.size + bytes_of l) (set c.sizes op.index (some op.size)) c ≡ d =
      ap (λ t. raise t (set c.sizes op.index (some op.size)) c) (sym sum)
      ∙ ap (λ v. raise (int_add c.total op.size) (set c.sizes op.index (some v)) c) (sym plain)
      ∙ ap (λ z. raise (int_add c.total op.size) z c) stored
      ∙ ok_inj h in
    subst
      (λ (z : Count).
        Describes z ((op.index, op.size) ∷ l) × (z.most ≡ highest c.most (op.size + bytes_of l)))
      same
      (raised c l (op.size + bytes_of l) op.index op.size few is.small refl inside new is.agrees
        is.distinct)
count_op_step realloc_op op c d l (s, old) few runs is =
    let (size, r, h0) = >>=-ok (read_cell c.sizes op.index) _ runs in
    let (sizes, w, h) = >>=-ok (write_cell c.sizes op.index (of_int op.size)) _ h0 in
    let (inside, stored) = written c.sizes op.index (of_int op.size) sizes w in
    let rest = without op.index l in
    let plain = positive_int op.size (omega arith) in
    let e = read_back c.sizes op.index s size (IsOld-Agrees c.sizes op.index s l old is.agrees) r in
    let less = bytes_of-without op.index s l old in
    let low = is.below in
    let top = is.small in
    let sum : int_add c.total (int_sub op.size (size % 2 ^ 32)) ≡ op.size + bytes_of rest =
      omega (arith, is.total, less, e, few, low, top) in
    let b = op.size + bytes_of rest in
    let t = int_add c.total (int_sub op.size (size % 2 ^ 32)) in
    let same : raise b (set c.sizes op.index (some op.size)) c ≡ d =
      ap (λ t. raise t (set c.sizes op.index (some op.size)) c) (sym sum)
      ∙ ap (λ v. raise t (set c.sizes op.index (some v)) c) (sym plain)
      ∙ ap (λ z. raise t z c) stored
      ∙ ok_inj h in
    subst (λ (z : Count). Describes z ((op.index, op.size) ∷ rest) × (z.most ≡ highest c.most b))
      same
      (raised c rest b op.index op.size few is.small refl inside
        (without-IsNew op.index l is.distinct) (Agrees-without c.sizes op.index l is.agrees)
        (Distinct-without op.index l is.distinct))
count_op_step free_op op c d l (s, old) few runs is =
    let (size, r, h) = >>=-ok (read_cell c.sizes op.index) _ runs in
    let rest = without op.index l in
    let e = read_back c.sizes op.index s size (IsOld-Agrees c.sizes op.index s l old is.agrees) r in
    let less = bytes_of-without op.index s l old in
    let low = is.below in
    let top = is.small in
    let difference : int_sub c.total (size % 2 ^ 32) ≡ bytes_of rest =
      omega (arith, is.total, less, e, low, top) in
    let same : ◌≡◌ {A = Count} (record { sizes = c.sizes; total = bytes_of rest; most = c.most })
        d =
      ap (λ t. count c.sizes t c.most) (sym difference) ∙ ok_inj h in
    subst (λ (z : Count). Describes z rest × (z.most ≡ highest c.most (bytes_of rest))) same
      (
        record {
          total = refl;
          below = omega (arith, is.total, less, low);
          small = top;
          agrees = Agrees-without c.sizes op.index l is.agrees;
          distinct = Distinct-without op.index l is.distinct;
        },
        kept c.most (bytes_of rest) (omega (arith, is.total, less, low)),
      )
  where
    count : List (Option ℕ) → ℕ → ℕ → Count
    count sizes t most = record { sizes = sizes; total = t; most = most }

count_ops-peak :
    (ops : List TraceOp) (c d : Count) (l : Live)
    → IsProper ops l
    → count_ops ops c ≡ ok d
    → Describes c l
    → d.most ≡ peak ops l c.most
unfolding count_ops
count_ops-peak [] c d l all_proper runs is = ap (λ (z : Count). z.most) (sym (ok_inj runs))
count_ops-peak (op ∷ ops) c d l (proper_op fits few more) runs is =
    let (e, one, rest) = >>=-ok (count_op op.type op c) _ runs in
    let (next, most) = count_op_step op.type op c e l fits few one is in
    count_ops-peak ops e d (behind op.type op l) more rest next
    ∙ ap (peak ops (behind op.type op l)) most

-- For a trace that allocates only ids that are not in use, reallocates and frees only ids that
-- are, and has less than 2 ^ 31 bytes in use at any time, and any package on which
-- `eval_mm_util` returns: the high water mark that it divides by the size of the heap is the
-- largest sum of the sizes of the blocks that are allocated at once.
pub eval_mm_util-peak :
    (mm : Package) (ops : List TraceOp) (d e : Driver) (most heap : ℕ)
    → IsProper ops []
    → eval_mm_util mm ops d ≡ ok (most, heap, e)
    → most ≡ peak ops [] 0
eval_mm_util-peak mm ops d e most heap proper runs =
    let (c, counted, same) = high_water mm ops d e most heap runs in
    sym same
    ∙ count_ops-peak ops (no_count d) c [] proper counted (record {
      total = refl;
      below = omega arith;
      small = omega arith;
      agrees = tt;
      distinct = tt;
    })
