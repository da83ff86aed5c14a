-- ===== src/Malloc/Driver/Ranges.antt =====
-- The range list of malloclab/mdriver.c: what `add_range` accepts, and what it misses.
use cso18_labs.Base.{
  ℕ, ◌+◌, ◌-◌, ◌%◌, ◌^◌, ◌≤◌, ◌<◌, ◌≡◌, refl, sym, ◌∙◌, subst, ◌⊎◌, inl, inr, ◌↔◌, Bool, true,
  false, ap, List, [], ◌∷◌, ◌==◌, ==_iff, if◌then◌else◌, arith, Bool-cases,
}
use cso18_labs.Malloc.Machine.{Run, ok, fault}
use cso18_labs.Malloc.Memlib.{is_aligned, mem_heap_lo, mem_heap_hi}
use cso18_labs.Malloc.Driver.{
  Message, not_aligned, outside_heap, overlaps, malloc_error, Range, Driver, add_range,
  remove_range, overlaps_range, overlaps_any, lies_outside, is_positive,
}

-- No byte is in both: the first lies below the second, or above it.
abbrev pub Disjoint : ℕ → ℕ → Range → Type 0
Disjoint lo hi p = (hi < p.lo) ⊎ (p.hi < lo)

-- The second lies strictly inside the first.
abbrev pub Encloses : ℕ → ℕ → Range → Type 0
Encloses lo hi p = (lo < p.lo) × (p.hi < hi)

pub data Every {ℓ κ} {A : Type ℓ} (P : A → Type κ) : List A → Type (ℓ ⊔ κ) where
  none_left : Every P []
  one_more : {x : A} {xs : List A} → P x → Every P xs → Every P (x ∷ xs)

pub Every-map {ℓ κ} :
    {A : Type ℓ} {P Q : A → Type κ} {xs : List A} → ((x : A) → P x → Q x) → Every P xs → Every Q xs
Every-map f none_left = none_left
Every-map f (one_more p e) = one_more (f _ p) (Every-map f e)

-- What the loop of `add_range` lets pass.
abbrev pub Passes : ℕ → ℕ → Range → Type 0
Passes lo hi p = Disjoint lo hi p ⊎ Encloses lo hi p

overlaps_range_iff :
    (lo hi : ℕ) (p : Range)
    → lo ≤ hi
    → p.lo ≤ p.hi
    → (overlaps_range lo hi p ≡ false) ↔ Passes lo hi p
unfolding overlaps_range
overlaps_range_iff lo hi p h k = (ground arith, ground arith)

abbrev pub Ordered : Range → Type 0
Ordered p = p.lo ≤ p.hi

overlaps_any→Every :
    (lo hi : ℕ) {ranges : List Range}
    → lo ≤ hi
    → Every Ordered ranges
    → overlaps_any lo hi ranges ≡ false
    → Every (Passes lo hi) ranges
unfolding overlaps_any
overlaps_any→Every lo hi h none_left e = none_left
overlaps_any→Every lo hi h (one_more {x} {xs} o os) e =
    let parts : (overlaps_range lo hi x ≡ false) × (overlaps_any lo hi xs ≡ false) = ground arith in
    one_more ((overlaps_range_iff lo hi x h o).0 parts.0) (overlaps_any→Every lo hi h os parts.1)

Every→overlaps_any :
    (lo hi : ℕ) {ranges : List Range}
    → lo ≤ hi
    → Every Ordered ranges
    → Every (Passes lo hi) ranges
    → overlaps_any lo hi ranges ≡ false
unfolding overlaps_any
Every→overlaps_any lo hi h none_left e = refl
Every→overlaps_any lo hi h (one_more {x} {xs} o os) (one_more p ps) =
    ground (arith, (overlaps_range_iff lo hi x h o).1 p, Every→overlaps_any lo hi h os ps)

-- The conditions under which `add_range` records the payload of `size` bytes at `lo`.
pub record Accepts (lo size : ℕ) (d : Driver) : Type 0 where
  pub aligned : lo % 16 ≡ 0
  pub above : d.mem.start_brk ≤ lo
  pub below : lo + size ≤ d.mem.brk
  pub passes : Every (Passes lo (lo + size - 1)) d.ranges

abbrev pub with_range : ℕ → ℕ → Driver → Driver
with_range lo size d = record d { ranges = record { lo = lo; hi = lo + size - 1 } ∷ d.ranges }

-- The result of `add_range`.
abbrev returned : Run (Bool × Driver) → Bool
returned (ok (b, _)) = b
returned (fault _) = false

module _ (lo size i : ℕ) (d : Driver) (pos : 0 < size) (small : size < 2 ^ 31)
    (ordered : Every Ordered d.ranges) where
  pub add_range-Accepts :
      Accepts lo size d → add_range lo size i d ≡ ok (true, with_range lo size d)
  unfolding add_range is_aligned lies_outside mem_heap_lo mem_heap_hi
  add_range-Accepts a =
      let hi = lo + size - 1 in
      let sized : is_positive size ≡ true = ground arith in
      let aligned : (lo % 16 == 0) ≡ true = (==_iff _ _).1 a.aligned in
      let inside : lies_outside lo hi d.mem ≡ false = ground (arith, a.above, a.below) in
      rw (sized, aligned, inside, Every→overlaps_any lo hi (omega arith) ordered a.passes)

  add_range_only :
      0 < d.mem.brk → (d' : Driver) → add_range lo size i d ≡ ok (true, d') → Accepts lo size d
  unfolding add_range is_aligned lies_outside mem_heap_lo mem_heap_hi
  add_range_only based d' e =
      let hi = lo + size - 1 in
      record {
        aligned = ground arith;
        above = ground arith;
        below = ground arith;
        passes = overlaps_any→Every lo hi (omega arith) ordered (ground arith);
      }

  refused :
      (m : Message) → add_range lo size i d ≡ ok (false, malloc_error i m d) → ¬ Accepts lo size d
  refused m e a =
      let yes = ap returned (add_range-Accepts a) in
      let no = ap returned e in let both : true ≡ false = sym yes ∙ no in absurd (ground arith)

  -- For a positive size, on a range list of proper ranges: if the payload is aligned, lies in the
  -- heap, and each recorded range either has no byte in common with it or lies strictly inside it,
  -- `add_range` returns 1, adds the payload to the list and changes nothing else. Otherwise it
  -- returns 0, reports one error, and leaves the list as it is.
  pub add_range_lem :
      0 < d.mem.brk
      → (Accepts lo size d × (add_range lo size i d ≡ ok (true, with_range lo size d)))
        ⊎ (¬ Accepts lo size d
            × ((m : Message) × (add_range lo size i d ≡ ok (false, malloc_error i m d))))
  unfolding add_range
  add_range_lem based =
      let hi = lo + size - 1 in
      let sized : is_positive size ≡ true = ground arith in
      elim (Bool-cases (is_aligned lo)) [
        | inr a ↦
            let e : add_range lo size i d ≡ ok (false, malloc_error i not_aligned d) =
              rw (sized, a) refl in
            inr (refused not_aligned e, (not_aligned, e))
        | inl a ↦ elim (Bool-cases (lies_outside lo hi d.mem)) [
          | inl b ↦
              let e : add_range lo size i d ≡ ok (false, malloc_error i outside_heap d) =
                rw (sized, a, b) refl in
              inr (refused outside_heap e, (outside_heap, e))
          | inr b ↦ elim (Bool-cases (overlaps_any lo hi d.ranges)) [
            | inl c ↦
                let e : add_range lo size i d ≡ ok (false, malloc_error i overlaps d) =
                  rw (sized, a, b, c) refl in
                inr (refused overlaps e, (overlaps, e))
            | inr c ↦
                let e : add_range lo size i d ≡ ok (true, with_range lo size d) =
                  rw (sized, a, b, c) refl in
                inl (add_range_only based (with_range lo size d) e, e)
          ]
        ]
      ]

  -- Where every recorded range is at least as long as the payload, a payload for which `add_range`
  -- returns 1, whatever state it leaves, has no byte in common with any of them.
  pub add_range-Disjoint :
      0 < d.mem.brk
      → Every (λ p. p.lo + size ≤ p.hi + 1) d.ranges
      → (d1 : Driver) → add_range lo size i d ≡ ok (true, d1)
      → Every (Disjoint lo (lo + size - 1)) d.ranges
  add_range-Disjoint based long d1 e = both long (add_range_only based d1 e).passes
    where
      both :
          {ranges : List Range}
          → Every (λ p. p.lo + size ≤ p.hi + 1) ranges
          → Every (Passes lo (lo + size - 1)) ranges
          → Every (Disjoint lo (lo + size - 1)) ranges
      both none_left none_left = none_left
      both (one_more l ls) (one_more (inl p) ps) = one_more p (both ls ps)
      both (one_more l ls) (one_more (inr (a, b)) ps) = absurd (omega arith)

-- `add_range` records a payload on top of any block that lies strictly inside it, in a list whose
-- other ranges it passes, though the two overlap.
pub add_range_misses_inner :
    (lo size i : ℕ) (p : Range) (rest : List Range) (d : Driver)
    → 0 < size
    → size < 2 ^ 31
    → lo % 16 ≡ 0
    → d.mem.start_brk ≤ lo
    → lo + size ≤ d.mem.brk
    → d.ranges ≡ p ∷ rest
    → p.lo ≤ p.hi
    → Encloses lo (lo + size - 1) p
    → Every Ordered rest
    → Every (Passes lo (lo + size - 1)) rest
    → (add_range lo size i d ≡ ok (true, with_range lo size d)) × ¬ Disjoint lo (lo + size - 1) p
add_range_misses_inner lo size i p rest d pos small aligned above below e o inner os ps = (
  add_range-Accepts lo size i d pos small (subst (Every Ordered) (sym e) (one_more o os)) (record {
    aligned = aligned;
    above = above;
    below = below;
    passes = subst (Every (Passes lo (lo + size - 1))) (sym e) (one_more (inr inner) ps);
  }),
  λ apart. elim apart [ inl l ↦ absurd (omega arith) | inr l ↦ absurd (omega arith) ],
)

pub remove_range-Every :
    {P : Range → Type 0} (lo : ℕ) {ranges : List Range}
    → Every P ranges
    → Every P (remove_range lo ranges)
unfolding remove_range
remove_range-Every lo none_left = none_left
remove_range-Every {P} lo (one_more {x} {xs} p ps) =
    pick (Bool-cases (x.lo == lo)) (remove_range-Every lo ps)
  where
    pick :
        ((x.lo == lo) ≡ true) ⊎ ((x.lo == lo) ≡ false)
        → Every P (remove_range lo xs)
        → Every P (if x.lo == lo then xs else x ∷ remove_range lo xs)
    pick (inl e) rest = rw e ps
    pick (inr e) rest = rw e (one_more p rest)
