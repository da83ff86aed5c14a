-- ===== src/Malloc/Driver/Requests.antt =====
-- One request of `eval_mm_valid` in malloclab/mdriver.c, on the allocator of mm-naive.c.
use cso18_labs.Base.{
  ℕ, ◌+◌, ◌%◌, ◌^◌, ◌≤◌, ◌<◌, ◌≡◌, refl, ap, ◌∙◌, sym, subst, true, false, List, [], ◌∷◌, ◌++◌,
  ◌==◌, arith,
}
use cso18_labs.Malloc.Machine.{Run, ok, ◌>>=◌}
use cso18_labs.Malloc.Memlib.{Mem}
use cso18_labs.Malloc.Naive.{mm_free, mm_realloc, of_int}
use cso18_labs.Malloc.Naive.Chunks.{Chunk, At, At-Lies, At-append_last, release, At-release}
use cso18_labs.Malloc.Naive.Alloc.{
  IsHeap, IsHeap-brk, HasRoom, chunk_for, chunk_for_bounds, mm_malloc_room, extend, extend_below,
  extend-IsHeap,
}
use cso18_labs.Malloc.Naive.Release.{mm_free_eq, mark_free, mark_free-IsHeap, mark_free_elsewhere}
use cso18_labs.Malloc.Naive.Move.{mm_realloc-IsMoved, IsMoved}
use cso18_labs.Malloc.Driver.{
  Driver, Step, go, TraceOp, alloc_op, free_op, realloc_op, naive, eval_op, record_realloc,
  read_cell, remove_range,
}
use cso18_labs.Malloc.Driver.Ranges.{remove_range-Every}
use cso18_labs.Malloc.Driver.Blocks.{
  GoesOn, IsBlock-GoesOn, append-GoesOn, release-GoesOn, move-GoesOn,
}
use cso18_labs.Malloc.Driver.Settle.{
  Remembers, IsRunning, IsSettling, record_alloc_settles, compare_old_settles, settled,
  settled-IsRunning, settled_range,
}

-- One request went through: the loop goes on in a state that is again in order, and the heap grew
-- by `grown` bytes.
pub record Goes (ids : ℕ) (seen : List ℕ) (grown : ℕ) (d : Driver) (r : Run Step) : Type 0 where
  pub next : Driver
  pub chunks : List Chunk
  pub runs : r ≡ ok (go next)
  pub running : IsRunning ids chunks seen next
  pub brk : next.mem.brk ≡ d.mem.brk + grown
  pub limit : next.mem.max_addr ≡ d.mem.max_addr
  pub errors : next.errors ≡ d.errors

module _ {ids : ℕ} {cs : List Chunk} {seen : List ℕ} {d : Driver} (v : IsRunning ids cs seen d)
    (i : ℕ) (op : TraceOp) (pos : 0 < op.size) (small : op.size < 2 ^ 31)
    (room : HasRoom op.size d.mem) where
  abbrev new_chunk : Chunk
  new_chunk = (chunk_for op.size, true)

  -- The memory behind the call of `mm_malloc`.
  malloced : Driver
  malloced = record d { mem = extend (chunk_for op.size) d.mem }

  size_bounds :
      (chunk_for op.size % 16 ≡ 0)
      × (op.size + 16 ≤ chunk_for op.size)
      × (chunk_for op.size < op.size + 32)
      × (op.size < 2 ^ 31)
  size_bounds = omega (arith, chunk_for_bounds op.size (omega arith))

  sized : of_int op.size ≡ op.size
  sized = ground (arith, size_bounds)

  malloced-IsHeap : IsHeap (cs ++ new_chunk ∷ []) malloced.mem
  unfolding malloced
  malloced-IsHeap =
      extend-IsHeap (chunk_for op.size) v.heap size_bounds.0 (omega (arith, size_bounds)) room.0
        room.1

  malloced_below : (q : ℕ) → q < d.mem.brk → malloced.mem.bytes q ≡ d.mem.bytes q
  unfolding malloced
  malloced_below =
      extend_below (chunk_for op.size) v.heap.memory (IsHeap-brk v.heap) size_bounds.0
        (omega (arith, size_bounds)) room.0 room.1

  malloced-IsSettling :
      op.index < ids → IsSettling ids cs seen d op.index op.size (cs ++ new_chunk ∷ []) malloced
  malloced-IsSettling known = record {
    running = v;
    known = known;
    pos = pos;
    small = size_bounds.3;
    extent = chunk_for op.size;
    status = true;
    fits = size_bounds.1;
    heap = malloced-IsHeap;
    goes =
        unfold malloced extend in append-GoesOn new_chunk malloced.mem v.heap refl malloced_below;
    at = unfold malloced extend in At-append_last (chunk_for op.size) true v.heap.chunks;
    ranges = unfold malloced in v.ranges;
    blocks = unfold malloced in refl;
    sizes = unfold malloced in refl;
  }

  pub alloc-Goes :
      op.index < ids
      → Goes ids (op.index ∷ seen) (chunk_for op.size) d (eval_op naive alloc_op i op d)
  unfolding eval_op malloced
  alloc-Goes known =
      let s = malloced-IsSettling known in
      record {
        next = settled (d.mem.brk + 16) op.index op.size malloced;
        chunks = cs ++ new_chunk ∷ [];
        runs =
            rw
              (
                sized,
                mm_malloc_room op.size v.heap (omega (arith, size_bounds)) room.0 room.1,
                ◌>>=◌,
              )
              (record_alloc_settles op s i);
        running = settled-IsRunning s;
        brk = unfold settled extend in refl;
        limit = unfold settled extend in refl;
        errors = unfold settled in refl;
      }

  -- The old block of a REALLOC.
  module _ (r : Remembers cs d op.index) where
    abbrev old_hdr : ℕ
    old_hdr = r.block.hdr

    inside : old_hdr + 16 < d.mem.brk
    inside = omega (arith, (At-Lies v.heap.chunks r.block.at).high, r.block.fits, r.block.positive)

    moves :
        (q : ℕ) × (m' : Mem) × (mm_realloc (old_hdr + 16) op.size d.mem ≡ ok (q, m'))
        × IsMoved v.heap r.block.at op.size pos small room q m'
    moves = mm_realloc-IsMoved v.heap r.block.at op.size pos small room inside

    -- The move with its parts named.
    module _ (m' : Mem)
        (mv : IsMoved v.heap r.block.at op.size pos small room (d.mem.brk + 16) m') where
      moved_to : Driver
      moved_to = record d { mem = m'; ranges = remove_range r.ptr d.ranges }

      abbrev moved_chunks : List Chunk
      moved_chunks = release (cs ++ new_chunk ∷ []) d.mem.start_brk old_hdr

      moved-At : At d.mem.brk (chunk_for op.size) true moved_chunks m'.start_brk
      moved-At = subst (At d.mem.brk (chunk_for op.size) true moved_chunks) (sym mv.start) (
          At-release (At-append_last (chunk_for op.size) true v.heap.chunks)
            (omega (arith, inside)))

      moved-IsSettling :
          op.index < ids → IsSettling ids cs seen d op.index op.size moved_chunks moved_to
      unfolding moved_to
      moved-IsSettling known = record {
        running = v;
        known = known;
        pos = pos;
        small = small;
        extent = chunk_for op.size;
        status = true;
        fits = size_bounds.1;
        heap = mv.heap;
        goes = move-GoesOn new_chunk m' v.heap r.block.at (sym mv.start) mv.kept;
        at = moved-At;
        ranges = remove_range-Every r.ptr v.ranges;
        blocks = refl;
        sizes = refl;
      }

      same : (k : ℕ) → k < op.size → k < r.size → m'.bytes (d.mem.brk + 16 + k) ≡ op.index % 256
      same k lo hi = mv.copied_bytes k lo (omega (arith, r.block.fits)) ∙ r.block.filled k hi

      realloc-Goes :
          op.index < ids
          → op.index % 256 < 128
          → mm_realloc (old_hdr + 16) op.size d.mem ≡ ok (d.mem.brk + 16, m')
          → Goes ids (op.index ∷ seen) (chunk_for op.size) d (eval_op naive realloc_op i op d)
      unfolding eval_op record_realloc moved_to read_cell
      realloc-Goes known low runs =
          let s = moved-IsSettling known in
          let fresh : (d.mem.brk + 16 == 0) ≡ false = ground arith in
          let from_ptr : mm_realloc r.ptr op.size d.mem ≡ ok (d.mem.brk + 16, m') =
            rw r.block.payload runs in
          let old_size : read_cell d.block_sizes op.index ≡ ok r.size = rw (r.at_size, read_cell) in
          record {
            next = settled (d.mem.brk + 16) op.index op.size moved_to;
            chunks = moved_chunks;
            runs =
                rw (r.at_ptr, ◌>>=◌, sized, from_ptr, fresh, settled_range s i)
                  (compare_old_settles op s i r.size old_size low same);
            running = settled-IsRunning s;
            brk = unfold settled in mv.brk;
            limit = unfold settled in mv.limit;
            errors = unfold settled in refl;
          }

    pub realloc_lem :
        op.index < ids
        → op.index % 256 < 128
        → Goes ids (op.index ∷ seen) (chunk_for op.size) d (eval_op naive realloc_op i op d)
    realloc_lem known low =
        let (q, m', runs, mv) = moves in
        realloc-Goes m'
          (subst (λ z. IsMoved v.heap r.block.at op.size pos small room z m') mv.payload mv) known
          low (subst (λ z. mm_realloc (old_hdr + 16) op.size d.mem ≡ ok (z, m')) mv.payload runs)

module _ {ids : ℕ} {cs : List Chunk} {seen : List ℕ} {d : Driver} (v : IsRunning ids cs seen d)
    (i : ℕ) (op : TraceOp) (r : Remembers cs d op.index) where
  abbrev freed_hdr : ℕ
  freed_hdr = r.block.hdr

  freed : Driver
  freed = record d {
    mem = mark_free freed_hdr r.block.extent d.mem;
    ranges = remove_range r.ptr d.ranges;
  }

  freed-GoesOn : GoesOn cs d.mem (release cs d.mem.start_brk freed_hdr) freed.mem
  unfolding freed mark_free
  freed-GoesOn =
      release-GoesOn freed.mem v.heap r.block.at refl (mark_free_elsewhere v.heap r.block.at)

  freed-IsRunning : IsRunning ids (release cs d.mem.start_brk freed_hdr) seen freed
  freed-IsRunning = record {
    heap = unfold freed in mark_free-IsHeap v.heap r.block.at;
    ranges = unfold freed mark_free in remove_range-Every r.ptr v.ranges;
    blocks_len = unfold freed in v.blocks_len;
    sizes_len = unfold freed in v.sizes_len;
    remembers = λ j m.
        let old = v.remembers j m in
        record {
          ptr = old.ptr;
          size = old.size;
          small = old.small;
          at_ptr = unfold freed in old.at_ptr;
          at_size = unfold freed in old.at_size;
          block = IsBlock-GoesOn freed-GoesOn old.block;
        };
  }

  pub free-Goes : Goes ids seen 0 d (eval_op naive free_op i op d)
  unfolding eval_op read_cell
  free-Goes =
      let below : freed_hdr + 16 < d.mem.brk =
        omega (arith, (At-Lies v.heap.chunks r.block.at).high, r.block.fits, r.block.positive) in
      let runs : mm_free r.ptr d.mem ≡ ok (mark_free freed_hdr r.block.extent d.mem) =
        ap (λ z. mm_free z d.mem) r.block.payload ∙ mm_free_eq v.heap r.block.at below in
      record {
        next = freed;
        chunks = release cs d.mem.start_brk freed_hdr;
        runs = unfold freed in rw (r.at_ptr, ◌>>=◌, runs);
        running = freed-IsRunning;
        brk = unfold freed mark_free in omega arith;
        limit = unfold freed mark_free in refl;
        errors = unfold freed in refl;
      }
