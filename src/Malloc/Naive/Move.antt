-- ===== src/Malloc/Naive/Move.antt =====
-- `mm_realloc` of mm-naive.c: a new chunk, a copy of the old payload, and the old chunk freed.
use cso18_labs.Base.{
  ℕ, zero, suc, ◌+◌, ◌-◌, ◌%◌, ◌^◌, ◌≤◌, ◌<◌, ◌≡◌, refl, ◌∙◌, subst, ◌≢◌, ◌⊎◌, inl, inr, Bool, true,
  false, List, [], ◌∷◌, ◌++◌, arith, ltb, leb, le→leb, lt→ltb, ◌==◌, if◌then◌else◌,
}
use cso18_labs.Malloc.Machine.{store_le_outside, Run, ok, fault, ◌>>=◌, copy}
use cso18_labs.Malloc.Memlib.{Mem}
use cso18_labs.Malloc.Naive.{
  mm_malloc, mm_free, mm_realloc, memcpy, copy_old, free_old, finish_realloc,
}
use cso18_labs.Malloc.Naive.Header.{word, get_chunk_size-HasHeader}
use cso18_labs.Malloc.Naive.Chunks.{
  Chunk, Chunks, At, At-Lies, Lies, Apart, one, before, behind, At-Apart, Chunks-congr, release,
  At-append_left, At-append_last,
}
use cso18_labs.Malloc.Naive.Alloc.{
  IsHeap, extend, extend-IsHeap, HasRoom, chunk_for, chunk_for_bounds, mm_malloc_room,
}
use cso18_labs.Malloc.Naive.Release.{mark_free, mm_free_eq, mark_free-IsHeap, mark_free_elsewhere}

-- Payload bytes of a chunk overwritten: the heap has the same chunks.
pub record SamePayload (m m' : Mem) (h size : ℕ) : Type 0 where
  pub start : m.start_brk ≡ m'.start_brk
  pub brk : m.brk ≡ m'.brk
  pub limit : m.max_addr ≡ m'.max_addr
  pub outside : (q : ℕ) → (q < h + 16) ⊎ (h + size ≤ q) → m.bytes q ≡ m'.bytes q

other_chunk :
    {h h' size size' : ℕ} {status status' : Bool} (q : ℕ)
    → Apart h h' size size' status status'
    → 16 ≤ size'
    → h' ≤ q
    → q < h' + 8
    → (q < h + 16) ⊎ (h + size ≤ q)
other_chunk q (one e _ _) g l u = inl (omega arith)
other_chunk q (before b) g l u = inr (omega arith)
other_chunk q (behind b) g l u = inl (omega arith)

pub SamePayload-IsHeap :
    {cs : List Chunk} {m m' : Mem} {h size : ℕ} {status : Bool}
    → IsHeap cs m
    → At h size status cs m.start_brk
    → SamePayload m m' h size
    → IsHeap cs m'
SamePayload-IsHeap {cs} {m} {m'} i p s = record {
  memory = record {
    based = omega (arith, i.memory.based, s.start);
    aligned = omega (arith, i.memory.aligned, s.start);
    started = omega (arith, i.memory.started, s.start, s.brk);
    bounded = omega (arith, i.memory.bounded, s.brk, s.limit);
    addressable = omega (arith, i.memory.addressable, s.limit);
  };
  chunks =
      subst (λ b. Chunks m' b cs m'.start_brk) s.brk
        (subst (Chunks m' m.brk cs) s.start (
          Chunks-congr i.chunks (record {
            start = s.start;
            limit = s.limit;
            headers = λ h' size' status' p' q l u.
                s.outside q (other_chunk q (At-Apart i.chunks p p') (At-Lies i.chunks p').big l u);
          })));
}

-- What `mm_realloc` copies: no more than the new size, nor than the old payload.
abbrev pub moved_bytes : ℕ → ℕ → ℕ
moved_bytes size old = if ltb size (old - 16) then size else old - 16

unfoldable pub copied : ℕ → ℕ → ℕ → Mem → Mem
copied dst src n m = record m { bytes = copy m.bytes dst src n }

module _ {cs : List Chunk} {m : Mem} {h old : ℕ} {status : Bool} (i : IsHeap cs m)
    (p : At h old status cs m.start_brk) (size : ℕ) (pos : 0 < size) (small : size < 2 ^ 31)
    (room : HasRoom size m) where
  grown-IsHeap : IsHeap (cs ++ (chunk_for size, true) ∷ []) (extend (chunk_for size) m)
  grown-IsHeap =
      let r = chunk_for_bounds size (omega arith) in
      extend-IsHeap (chunk_for size) i r.0 (omega arith) room.0 room.1

  pub moved : Mem
  moved = copied (m.brk + 16) (h + 16) (moved_bytes size old) (extend (chunk_for size) m)

  old-Lies : Lies m m.start_brk m.brk h old status
  old-Lies = At-Lies i.chunks p

  -- The old chunk in the grown heap.
  old_grown : At h old status (cs ++ (chunk_for size, true) ∷ []) m.start_brk
  old_grown = At-append_left ((chunk_for size, true) ∷ []) p

  new_grown : At m.brk (chunk_for size) true (cs ++ (chunk_for size, true) ∷ []) m.start_brk
  new_grown = At-append_last (chunk_for size) true i.chunks

  copy_old_eq : copy_old (m.brk + 16) (h + 16) size (extend (chunk_for size) m) ≡ ok moved
  unfolding copy_old memcpy moved copied extend
  copy_old_eq =
      let l = old-Lies in
      let r = chunk_for_bounds size (omega arith) in
      let k = moved_bytes size old in
      let bound : (k ≤ size) × (k + 16 ≤ old) = ground (arith, l.big) in
      let not_null : (h + 16 == 0) ≡ false = ground arith in
      let back : h + 16 - 16 ≡ h = omega arith in
      let wrap : (old + 2 ^ 64 - 16) % 2 ^ 64 ≡ old - 16 =
        omega (arith, l.big, l.high, i.memory.bounded, i.memory.addressable) in
      let dst_low : leb m.start_brk (m.brk + 16) ≡ true =
        le→leb _ _ (omega (arith, i.memory.started)) in
      let dst_high : leb (m.brk + 16 + k) m.max_addr ≡ true =
        le→leb _ _ (omega (arith, bound, r, room)) in
      let src_low : leb m.start_brk (h + 16) ≡ true = le→leb _ _ (omega (arith, l.low)) in
      let src_high : leb (h + 16 + k) m.max_addr ≡ true =
        le→leb _ _ (omega (arith, bound, l.high, i.memory.bounded)) in
      rw (
        not_null,
        back,
        get_chunk_size-HasHeader (At-Lies grown-IsHeap.chunks old_grown).header,
        ◌>>=◌,
        wrap,
        dst_low,
        dst_high,
        src_low,
        src_high,
      )

  moved-SamePayload : SamePayload (extend (chunk_for size) m) moved m.brk (chunk_for size)
  unfolding moved copied extend copy
  moved-SamePayload = record {
    start = refl;
    brk = refl;
    limit = refl;
    outside = λ q o. ground (arith, chunk_for_bounds size);
  }

  moved-IsHeap : IsHeap (cs ++ (chunk_for size, true) ∷ []) moved
  moved-IsHeap = unfold extend in SamePayload-IsHeap grown-IsHeap new_grown moved-SamePayload

  -- The freed old chunk.
  pub mm_realloc_eq :
      h + 16 < m.brk → mm_realloc (h + 16) size m ≡ ok (m.brk + 16, mark_free h old moved)
  unfolding mm_realloc finish_realloc free_old
  mm_realloc_eq inside =
      let positive : ltb 0 size ≡ true = lt→ltb _ _ pos in
      let fresh : (m.brk + 16 == 0) ≡ false = ground arith in
      let not_null : (h + 16 == 0) ≡ false = ground arith in
      rw (
        positive,
        mm_malloc_room size i (omega arith) room.0 room.1,
        ◌>>=◌,
        fresh,
        copy_old_eq,
        not_null,
        freed,
      )
    where
      freed : mm_free (h + 16) moved ≡ ok (mark_free h old moved)
      freed = unfold moved copied extend in mm_free_eq moved-IsHeap old_grown (omega arith)

  moved_copies :
      (j : ℕ) → j < size → j + 16 < old → moved.bytes (m.brk + 16 + j) ≡ m.bytes (h + 16 + j)
  unfolding moved copied extend copy
  moved_copies j lo hi =
      let l = old-Lies in
      let shift : m.brk + 16 + j - (m.brk + 16) ≡ j = omega arith in
      let inside : leb (m.brk + 16) (m.brk + 16 + j) ≡ true = le→leb _ _ (omega arith) in
      let short : ltb (m.brk + 16 + j) (m.brk + 16 + moved_bytes size old) ≡ true =
        lt→ltb _ _ (ground arith) in
      rw (inside, short, shift)
        (store_le_outside 8 m.bytes m.brk (word (chunk_for size) true) (h + 16 + j)
          (inl (omega (arith, l.high))))

  moved_below : (q : ℕ) → q < m.brk → moved.bytes q ≡ m.bytes q
  unfolding moved copied extend copy
  moved_below q u =
      let below : leb (m.brk + 16) q ≡ false = ground arith in
      rw below (store_le_outside 8 m.bytes m.brk (word (chunk_for size) true) q (inl u))

  -- The heap `m'` after a `mm_realloc` to `size` bytes of the chunk of `old` bytes at `h`, which
  -- returned `p`.
  pub record IsMoved (q : ℕ) (m' : Mem) : Type 0 where
    pub start : m'.start_brk ≡ m.start_brk
    pub limit : m'.max_addr ≡ m.max_addr
    pub brk : m'.brk ≡ m.brk + chunk_for size
    pub payload : q ≡ m.brk + 16
    pub fits : q + size ≤ m'.brk
    pub heap : IsHeap (release (cs ++ (chunk_for size, true) ∷ []) m.start_brk h) m'
    pub copied_bytes : (j : ℕ) → j < size → j + 16 < old → m'.bytes (q + j) ≡ m.bytes (h + 16 + j)
    pub kept : (a : ℕ) → a < m.brk → (a < h) ⊎ (h + 8 ≤ a) → m'.bytes a ≡ m.bytes a

  -- `mm_realloc` of a payload below the break to a positive size below 2 ^ 31, with room for it:
  -- no assertion fails; the result is a fresh payload of that size that holds the old payload's
  -- bytes up to the smaller of the two sizes; the old chunk is freed; no other byte below the
  -- old break changes.
  pub mm_realloc-IsMoved :
      h + 16 < m.brk
      → (q : ℕ) × (m' : Mem) × (mm_realloc (h + 16) size m ≡ ok (q, m')) × IsMoved q m'
  unfolding moved copied extend
  mm_realloc-IsMoved inside =
      let l = old-Lies in
      let r = chunk_for_bounds size (omega arith) in
      let same = mark_free_elsewhere {m = moved} {h = h} {size = old} moved-IsHeap old_grown' in
      (
        m.brk + 16,
        mark_free h old moved,
        mm_realloc_eq inside,
        record {
          start = unfold mark_free in refl;
          limit = unfold mark_free in refl;
          brk = unfold mark_free in refl;
          payload = refl;
          fits = unfold mark_free moved copied extend in omega arith;
          heap = mark_free-IsHeap moved-IsHeap old_grown';
          copied_bytes = λ j lo hi.
              same (m.brk + 16 + j) (inr (omega (arith, l.high, l.big))) ∙ moved_copies j lo hi;
          kept = λ a u o. same a o ∙ moved_below a u;
        },
      )
    where
      old_grown' : At h old status (cs ++ (chunk_for size, true) ∷ []) moved.start_brk
      old_grown' = unfold moved copied extend in old_grown

finish_null : (size : ℕ) (r : Run (ℕ × Mem)) → (r >>= λ (q, m). finish_realloc q 0 size m) ≡ r
unfolding finish_realloc copy_old free_old
finish_null size (ok (zero, m)) = refl
finish_null size (ok (suc q, m)) = let nz : (suc q == 0) ≡ false = ground arith in rw nz
finish_null size (fault e) = refl

-- The special cases that mm.c documents: `mm_realloc` of NULL to a positive size is `mm_malloc`;
-- `mm_realloc` of another pointer to size 0 is `mm_free`, and returns NULL; and on a memory `full`
-- where `mm_malloc` returns NULL and changes nothing, so does `mm_realloc` to that positive size,
-- which leaves the old block alone.
pub mm_realloc_special :
    (ptr size : ℕ) (m full : Mem)
    → 0 < size
    → ptr ≢ 0
    → mm_malloc size full ≡ ok (0, full)
    → (mm_realloc 0 size m ≡ mm_malloc size m)
      × (mm_realloc ptr 0 m ≡ (mm_free ptr m >>= λ m'. ok (0, m')))
      × (mm_realloc ptr size full ≡ ok (0, full))
unfolding mm_realloc
mm_realloc_special ptr size m full pos n fails = (
  rw (lt→ltb 0 size pos) (finish_null size (mm_malloc size m)),
  let not_null : (ptr == 0) ≡ false = ground arith in unfold free_old in rw not_null,
  unfold finish_realloc in rw (lt→ltb 0 size pos, fails, ◌>>=◌),
)
