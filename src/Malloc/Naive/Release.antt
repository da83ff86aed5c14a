-- ===== src/Malloc/Naive/Release.antt =====
-- `mm_free` of mm-naive.c.
use cso18_labs.Base.{
  ℕ, ◌+◌, ◌-◌, ◌≤◌, ◌<◌, ◌≡◌, refl, ap, ◌∙◌, subst, sym, ◌≢◌, ◌⊎◌, inl, inr, Bool, true, false,
  ◌&&◌, List, arith, leb, le→leb,
}
use cso18_labs.Malloc.Machine.{store_le, store_le_outside, ok, fault, asserted, ◌>>=◌}
use cso18_labs.Malloc.Memlib.{Mem, mem_heap_lo, mem_heap_hi}
use cso18_labs.Malloc.Naive.{mm_malloc, mm_free, set_chunk_status, get_chunk_status}
use cso18_labs.Malloc.Naive.Header.{
  HasHeader, word, store_word-HasHeader, get_chunk_status-HasHeader, set_chunk_status-word,
}
use cso18_labs.Malloc.Naive.Chunks.{
  Chunk, At, At-Lies, Lies, Apart, one, before, behind, At-Apart, release, Chunks-release,
}
use cso18_labs.Malloc.Naive.Alloc.{
  IsHeap, extend, HasRoom, chunk_for, chunk_for_bounds, mm_malloc_room,
}

-- The header at `h` of a chunk of `size` bytes overwritten by a free one.
unfoldable pub mark_free : ℕ → ℕ → Mem → Mem
mark_free h size m = record m { bytes = store_le 8 m.bytes h (word size false) }

same_size :
    {h size size' : ℕ} {status status' : Bool}
    → Apart h h size size' status status'
    → 16 ≤ size
    → 16 ≤ size'
    → size ≡ size'
same_size (one _ e _) g g' = e
same_size (before l) g g' = absurd (omega arith)
same_size (behind l) g g' = absurd (omega arith)

other_header :
    {h h' size size' : ℕ} {status status' : Bool} (q : ℕ)
    → Apart h h' size size' status status'
    → h' ≢ h
    → 16 ≤ size
    → 16 ≤ size'
    → h' ≤ q
    → q < h' + 8
    → (q < h) ⊎ (h + 8 ≤ q)
other_header q (one e _ _) n g g' l u = absurd (n (sym e))
other_header q (before b) n g g' l u = inr (omega arith)
other_header q (behind b) n g g' l u = inl (omega arith)

and_false : (b : Bool) → (b && false) ≡ false
and_false true = refl
and_false false = refl

module _ {cs : List Chunk} {m : Mem} {h size : ℕ} {status : Bool} (i : IsHeap cs m)
    (p : At h size status cs m.start_brk) where
  lies : Lies m m.start_brk m.brk h size status
  lies = At-Lies i.chunks p

  mark_free-HasHeader : HasHeader h size false (mark_free h size m)
  unfolding mark_free
  mark_free-HasHeader =
      store_word-HasHeader false m lies.header.stored lies.header.even
        (omega (arith, lies.high, i.memory.bounded, i.memory.addressable, i.memory.based, lies.low))

  pub mark_free_elsewhere :
      (q : ℕ) → (q < h) ⊎ (h + 8 ≤ q) → (mark_free h size m).bytes q ≡ m.bytes q
  unfolding mark_free
  mark_free_elsewhere q o = store_le_outside 8 m.bytes h (word size false) q o

  apart_headers :
      {h' size' : ℕ} {status' : Bool}
      → At h' size' status' cs m.start_brk
      → h' ≢ h
      → (q : ℕ) → h' ≤ q
      → q < h' + 8
      → m.bytes q ≡ (mark_free h size m).bytes q
  apart_headers p' n q l u = sym (
      mark_free_elsewhere q
        (other_header q (At-Apart i.chunks p p') n lies.big (At-Lies i.chunks p').big l u))

  this_header :
      (size' : ℕ) (status' : Bool)
      → At h size' status' cs m.start_brk
      → HasHeader h size' false (mark_free h size m)
  this_header size' status' p' =
      subst (λ z. HasHeader h z false (mark_free h size m))
        (same_size (At-Apart i.chunks p p') lies.big (At-Lies i.chunks p').big) mark_free-HasHeader

  pub mark_free-IsHeap : IsHeap (release cs m.start_brk h) (mark_free h size m)
  mark_free-IsHeap =
      unfold mark_free in
      record {
        memory = ground (arith, i.memory.started);
        chunks =
            Chunks-release h i.chunks refl refl this_header
              (λ h' size' status' p'. apart_headers p');
      }

  status_cleared : set_chunk_status h false m ≡ ok (mark_free h size m)
  unfolding mark_free
  status_cleared =
      set_chunk_status-word lies.header false
      ∙ ap (λ t. ok (record m { bytes = store_le 8 m.bytes h (word size t) })) (and_false status)

  pub mm_free_eq : h + 16 < m.brk → mm_free (h + 16) m ≡ ok (mark_free h size m)
  unfolding mm_free mem_heap_lo mem_heap_hi
  mm_free_eq inside =
      let back : h + 16 - 16 ≡ h = omega arith in
      rw (
        le→leb m.start_brk (h + 16) (omega (arith, lies.low)),
        le→leb (h + 16) (m.brk - 1) (omega arith),
        back,
        status_cleared,
        ◌>>=◌,
        get_chunk_status-HasHeader mark_free-HasHeader,
      )

-- The heap after a call of `mm_free` on the chunk at `h`: its status is false, and no other byte
-- than those of its header word changes.
pub record IsFreed (cs : List Chunk) (m : Mem) (h : ℕ) (m' : Mem) : Type 0 where
  pub heap : IsHeap (release cs m.start_brk h) m'
  pub free : get_chunk_status h m' ≡ ok false
  pub kept : (q : ℕ) → (q < h) ⊎ (h + 8 ≤ q) → m'.bytes q ≡ m.bytes q

-- `mm_free` of a payload that begins below the break fails no assertion, gives its chunk the
-- status false and keeps all other chunks and all bytes but the chunk's header word. No other
-- condition is made: the chunk may be free already.
pub mm_free-IsFreed :
    {cs : List Chunk} {m : Mem} (h : ℕ) {size : ℕ} {status : Bool}
    → IsHeap cs m
    → At h size status cs m.start_brk
    → h + 16 < m.brk
    → (m' : Mem) × (mm_free (h + 16) m ≡ ok m') × IsFreed cs m h m'
mm_free-IsFreed {m} h {size} i p inside = (
  mark_free h size m,
  mm_free_eq i p inside,
  record {
    heap = mark_free-IsHeap i p;
    free = get_chunk_status-HasHeader (mark_free-HasHeader i p);
    kept = mark_free_elsewhere i p;
  },
)

-- `mm_malloc(0)` returns a payload at the break, one behind the last byte of the heap, which
-- `mm_free` does not take: its first assertion fails.
pub mm_free-mm_malloc_zero :
    {cs : List Chunk} {m : Mem}
    → IsHeap cs m
    → HasRoom 0 m
    → (mm_malloc 0 m >>= λ r. mm_free r.0 r.1) ≡ fault asserted
unfolding mm_free mem_heap_lo mem_heap_hi
mm_free-mm_malloc_zero {cs} {m} i room =
    rw (mm_malloc_room 0 i (omega arith) room.0 room.1, ◌>>=◌)
      (unfold extend in
        let below : leb m.start_brk (m.brk + 16) ≡ true = ground (arith, i.memory.started) in
        let above : leb (m.brk + 16) (m.brk + chunk_for 0 - 1) ≡ false =
          ground (arith, chunk_for_bounds 0) in
        rw (below, above))
