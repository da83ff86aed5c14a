-- ===== src/Malloc/Driver/Settle.antt =====
-- What `eval_mm_valid` does with a new block, over the heap of mm-naive.c: it checks the block,
-- fills it and remembers it.
use native.Mathlib.Decide.{ℕ_discrete}
use cso18_labs.Base.{
  ℕ, zero, suc, ◌+◌, ◌-◌, ◌%◌, ◌^◌, ◌≤◌, ◌<◌, ◌≡◌, refl, ap, ◌∙◌, sym, inl, inr, ◌≢◌, Bool, true,
  false, some, List, ◌∷◌, ltb, lt→ltb, ◌==◌, ==_iff, if◌then◌else◌, length, get_elem?, set, arith,
  length-set, get_elem?-set,
}
use cso18_labs.Malloc.Machine.{ok, ◌>>=◌, fill}
use cso18_labs.Malloc.Memlib.{Mem, in_storage}
use cso18_labs.Malloc.Naive.Chunks.{Chunk, At, Lies, At-Lies}
use cso18_labs.Malloc.Naive.Alloc.{IsHeap, IsHeap-brk}
use cso18_labs.Malloc.Naive.Move.{SamePayload, SamePayload-IsHeap}
use cso18_labs.Malloc.Driver.{
  Range, Driver, TraceOp, record_alloc, compare_old, go, add_range, fill_block, remember, read_cell,
  write_cell, preserved, char_equals,
}
use cso18_labs.Malloc.Driver.Ranges.{Every, one_more, Every-map, add_range-Accepts, with_range}
use cso18_labs.Malloc.Driver.Blocks.{IsBlock, GoesOn, IsBlock-GoesOn}

pub data In (i : ℕ) : List ℕ → Type 0 where
  first : {j : ℕ} {js : List ℕ} → i ≡ j → In i (j ∷ js)
  later : {j : ℕ} {js : List ℕ} → In i js → In i (j ∷ js)

pub In-later : {i j : ℕ} {js : List ℕ} → In i (j ∷ js) → i ≢ j → In i js
In-later (first e) n = absurd (n e)
In-later (later m) n = m

-- A recorded range lies below the break.
abbrev pub IsBelow : ℕ → Range → Type 0
IsBelow brk p = (p.lo ≤ p.hi) × (p.hi < brk)

-- The arrays hold the block of index `i`, which is filled with the low byte of `i`.
pub record Remembers (cs : List Chunk) (d : Driver) (i : ℕ) : Type 0 where
  pub ptr : ℕ
  pub size : ℕ
  pub small : size < 2 ^ 31
  pub at_ptr : get_elem? d.blocks i ≡ some (some ptr)
  pub at_size : get_elem? d.block_sizes i ≡ some (some size)
  pub block : IsBlock cs d.mem ptr size (i % 256)

-- Between two requests of a trace with `ids` ids, of which `seen` were allocated: the heap is one
-- of chunks, the ranges lie below the break, the arrays have their lengths and hold what is seen.
pub record IsRunning (ids : ℕ) (cs : List Chunk) (seen : List ℕ) (d : Driver) : Type 0 where
  pub heap : IsHeap cs d.mem
  pub ranges : Every (IsBelow d.mem.brk) d.ranges
  pub blocks_len : length d.blocks ≡ ids
  pub sizes_len : length d.block_sizes ≡ ids
  pub remembers : (i : ℕ) → In i seen → Remembers cs d i

pub preserved-true :
    (n p j index : ℕ) (m : Mem)
    → m.start_brk ≤ p
    → p + j + n ≤ m.max_addr
    → index % 256 < 128
    → ((k : ℕ) → j ≤ k → k < j + n → m.bytes (p + k) ≡ index % 256)
    → preserved n p j index m ≡ ok true
unfolding preserved
preserved-true zero p j index m lo hi c h = refl
preserved-true (suc n) p j index m lo hi c h =
    let inside : in_storage (p + j) 1 m ≡ true = ground arith in
    let same : char_equals (m.bytes (p + j)) (index % 256) ≡ true =
      ground (arith, h j (omega arith) (omega arith)) in
    rw (inside, same)
      (preserved-true n p (j + 1) index m lo (omega arith) c
        (λ k l u. h k (omega arith) (omega arith)))

-- The state behind a settled block of `size` bytes at `p`.
unfoldable pub settled : ℕ → ℕ → ℕ → Driver → Driver
settled p index size d = record d {
  mem = record d.mem { bytes = fill d.mem.bytes p (index % 256) size };
  ranges = record { lo = p; hi = p + size - 1 } ∷ d.ranges;
  blocks = set d.blocks index (some p);
  block_sizes = set d.block_sizes index (some size);
}

-- A new block of `size` bytes for `index`, behind the break of `d`: in `d'` its chunk is there,
-- and the driver has yet to check, to fill and to remember it.
pub record IsSettling (ids : ℕ) (cs : List Chunk) (seen : List ℕ) (d : Driver) (index size : ℕ)
    (cs' : List Chunk) (d' : Driver) : Type 0 where
  pub running : IsRunning ids cs seen d
  pub known : index < ids
  pub pos : 0 < size
  pub small : size < 2 ^ 31
  pub extent : ℕ
  pub status : Bool
  pub fits : size + 16 ≤ extent
  pub heap : IsHeap cs' d'.mem
  pub goes : GoesOn cs d.mem cs' d'.mem
  pub at : At d.mem.brk extent status cs' d'.mem.start_brk
  pub ranges : Every (IsBelow d.mem.brk) d'.ranges
  pub blocks : d'.blocks ≡ d.blocks
  pub sizes : d'.block_sizes ≡ d.block_sizes

module _ {ids : ℕ} {cs : List Chunk} {seen : List ℕ} {d : Driver} {index size : ℕ}
    {cs' : List Chunk} {d' : Driver} (s : IsSettling ids cs seen d index size cs' d') where
  open s use {
    running as v, known, pos, small, extent as n, status as t, fits, heap, goes, at, ranges, blocks,
    sizes,
  }

  lies : Lies d'.mem d'.mem.start_brk d'.mem.brk d.mem.brk n t
  lies = At-Lies heap.chunks at

  pub settled_range :
      (i : ℕ)
      → add_range (d.mem.brk + 16) size i d' ≡ ok (true, with_range (d.mem.brk + 16) size d')
  settled_range i =
      add_range-Accepts (d.mem.brk + 16) size i d' pos small (Every-map (λ p b. b.0) ranges)
        (record {
          aligned = omega (arith, IsHeap-brk v.heap);
          above = omega (arith, lies.low);
          below = omega (arith, lies.high);
          passes = Every-map (λ p b. inl (inr (omega arith))) ranges;
        })

  pub settled_fill :
      (rs : List Range)
      → fill_block (d.mem.brk + 16) index size (record d' { ranges = rs })
        ≡ ok (record d' {
          mem = record d'.mem { bytes = fill d'.mem.bytes (d.mem.brk + 16) (index % 256) size };
          ranges = rs;
        })
  unfolding fill_block
  settled_fill rs =
      let inside : in_storage (d.mem.brk + 16) size d'.mem ≡ true =
        ground (arith, lies.low, lies.high, heap.memory.bounded) in
      rw inside

  pub settled_remember :
      (m : Mem) (rs : List Range)
      → remember index (d.mem.brk + 16) size (record d' { mem = m; ranges = rs })
        ≡ ok (record d' {
          mem = m;
          ranges = rs;
          blocks = set d'.blocks index (some (d.mem.brk + 16));
          block_sizes = set d'.block_sizes index (some size);
        })
  unfolding remember write_cell
  settled_remember m rs =
      let one : ltb index (length d'.blocks) ≡ true =
        lt→ltb _ _ (rw (blocks, v.blocks_len) known) in
      let two : ltb index (length d'.block_sizes) ≡ true =
        lt→ltb _ _ (rw (sizes, v.sizes_len) known) in
      rw (one, ◌>>=◌, two)

  filled-SamePayload : SamePayload d'.mem (settled (d.mem.brk + 16) index size d').mem d.mem.brk n
  unfolding settled fill
  filled-SamePayload = record {
    start = refl;
    brk = refl;
    limit = refl;
    outside = λ q o. ground (arith, fits, pos);
  }

  filled-IsHeap : IsHeap cs' (settled (d.mem.brk + 16) index size d').mem
  filled-IsHeap = SamePayload-IsHeap heap at filled-SamePayload

  filled-GoesOn : GoesOn cs d.mem cs' (settled (d.mem.brk + 16) index size d').mem
  unfolding settled
  filled-GoesOn = record {
    start = goes.start;
    stays = goes.stays;
    keeps = λ h n t p q l u.
        sym (filled-SamePayload.outside q (inl (omega (arith, (At-Lies v.heap.chunks p).high))))
        ∙ goes.keeps h n t p q l u;
  }

  length_blocks : index < length d'.blocks
  length_blocks = rw (blocks, v.blocks_len) known

  length_sizes : index < length d'.block_sizes
  length_sizes = rw (sizes, v.sizes_len) known

  new_block : Remembers cs' (settled (d.mem.brk + 16) index size d') index
  unfolding settled fill
  new_block = record {
    ptr = d.mem.brk + 16;
    size = size;
    small = small;
    at_ptr = get_elem?-set d'.blocks index index _ length_blocks ∙ rw ((==_iff index index).1 refl);
    at_size =
        get_elem?-set d'.block_sizes index index _ length_sizes ∙ rw ((==_iff index index).1 refl);
    block = record {
      hdr = d.mem.brk;
      extent = n;
      status = t;
      at = at;
      payload = refl;
      positive = pos;
      fits = fits;
      filled = λ j l. ground arith;
    };
  }

  old_block :
      (i : ℕ)
      → i ≢ index
      → Remembers cs d i
      → Remembers cs' (settled (d.mem.brk + 16) index size d') i
  unfolding settled
  old_block i other r =
      let differ : (index == i) ≡ false = ground arith in
      record {
        ptr = r.ptr;
        size = r.size;
        small = r.small;
        at_ptr = get_elem?-set d'.blocks index i _ length_blocks ∙ rw (differ, blocks) r.at_ptr;
        at_size =
            get_elem?-set d'.block_sizes index i _ length_sizes ∙ rw (differ, sizes) r.at_size;
        block = IsBlock-GoesOn filled-GoesOn r.block;
      }

  any_block :
      (i : ℕ) → In i (index ∷ seen) → Remembers cs' (settled (d.mem.brk + 16) index size d') i
  any_block i m = elim (ℕ_discrete i index) [
    | yes e ↦ rw e new_block
    | no other ↦ old_block i other (v.remembers i (In-later m other))
  ]

  pub settled-IsRunning : IsRunning ids cs' (index ∷ seen) (settled (d.mem.brk + 16) index size d')
  settled-IsRunning = record {
    heap = filled-IsHeap;
    ranges =
        unfold settled in
        one_more {x = record { lo = d.mem.brk + 16; hi = d.mem.brk + 16 + size - 1 }}
          (omega arith, omega (arith, lies.high))
          (Every-map (λ p b. (b.0, omega (arith, lies.high))) ranges);
    blocks_len = unfold settled in length-set d'.blocks index _ ∙ ap length blocks ∙ v.blocks_len;
    sizes_len = unfold settled in length-set d'.block_sizes index _ ∙ ap length sizes ∙ v.sizes_len;
    remembers = any_block;
  }

-- Behind a call of `mm_malloc` or `mm_realloc`, the new block passes the driver's checks.
module _ {ids : ℕ} {cs : List Chunk} {seen : List ℕ} {d : Driver} (op : TraceOp) {cs' : List Chunk}
    {d' : Driver} (s : IsSettling ids cs seen d op.index op.size cs' d') (i : ℕ) where
  pub record_alloc_settles :
      record_alloc i op (d.mem.brk + 16) d' ≡ ok (go (settled (d.mem.brk + 16) op.index op.size d'))
  unfolding record_alloc settled
  record_alloc_settles =
      let fresh : (d.mem.brk + 16 == 0) ≡ false = ground arith in
      rw (fresh, settled_range s i, ◌>>=◌, settled_fill s _, settled_remember s _ _)

  pub compare_old_settles :
      (oldsize : ℕ)
      → read_cell d'.block_sizes op.index ≡ ok oldsize
      → op.index % 256 < 128
      → ((k : ℕ) → k < op.size → k < oldsize → d'.mem.bytes (d.mem.brk + 16 + k) ≡ op.index % 256)
      → compare_old i op (d.mem.brk + 16) (with_range (d.mem.brk + 16) op.size d')
        ≡ ok (go (settled (d.mem.brk + 16) op.index op.size d'))
  unfolding compare_old settled
  compare_old_settles oldsize e low same =
      let l = lies s in
      let d'_room = s.heap.memory.bounded in
      let short : ((if ltb op.size oldsize then op.size else oldsize) ≤ op.size)
          × ((if ltb op.size oldsize then op.size else oldsize) ≤ oldsize) =
        ground arith in
      rw (
        e,
        ◌>>=◌,
        preserved-true (if ltb op.size oldsize then op.size else oldsize) (d.mem.brk + 16) 0
            op.index d'.mem (omega (arith, l.low)) (omega (arith, l.high, short, d'_room)) low
            (λ k _ u. same k (omega (arith, short)) (omega (arith, short))),
        settled_fill s _,
        settled_remember s _ _,
      )
