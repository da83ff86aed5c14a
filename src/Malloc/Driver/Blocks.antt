-- ===== src/Malloc/Driver/Blocks.antt =====
-- The blocks that malloclab/mdriver.c remembers, over the heap of mm-naive.c: where they stand,
-- and that they keep their fill while the heap goes on.
use cso18_labs.Base.{
  ℕ, ◌+◌, ◌≤◌, ◌<◌, ◌≡◌, refl, ◌∙◌, subst, ◌⊎◌, inl, inr, Bool, List, [], ◌∷◌, ◌++◌, arith,
}
use cso18_labs.Malloc.Memlib.{Mem}
use cso18_labs.Malloc.Naive.Chunks.{
  Chunk, At, here, there, At-Lies, release, Apart, one, before, behind, At-Apart, At-append_left,
}
use cso18_labs.Malloc.Naive.Alloc.{IsHeap}

-- The block of `size` bytes at `p` lies in the payload of a chunk, and all its bytes are `byte`.
pub record IsBlock (cs : List Chunk) (m : Mem) (p size byte : ℕ) : Type 0 where
  pub hdr : ℕ
  pub extent : ℕ
  pub status : Bool
  pub at : At hdr extent status cs m.start_brk
  pub payload : p ≡ hdr + 16
  pub positive : 0 < size
  pub fits : size + 16 ≤ extent
  pub filled : (j : ℕ) → j < size → m.bytes (hdr + 16 + j) ≡ byte

-- The heap went on: chunks stand where they stood, and payloads of old chunks keep their bytes.
pub record GoesOn (cs : List Chunk) (m : Mem) (cs' : List Chunk) (m' : Mem) : Type 0 where
  pub start : m.start_brk ≡ m'.start_brk
  pub stays :
      (h n : ℕ) (t : Bool) → At h n t cs m.start_brk → (t' : Bool) × At h n t' cs' m.start_brk
  pub keeps :
      (h n : ℕ) (t : Bool)
      → At h n t cs m.start_brk
      → (q : ℕ) → h + 16 ≤ q
      → q < h + n
      → m'.bytes q ≡ m.bytes q

pub IsBlock-GoesOn :
    {cs cs' : List Chunk} {m m' : Mem} {p size byte : ℕ}
    → GoesOn cs m cs' m'
    → IsBlock cs m p size byte
    → IsBlock cs' m' p size byte
IsBlock-GoesOn {cs' = cs'} g b =
    let (t', at') = g.stays b.hdr b.extent b.status b.at in
    record {
      hdr = b.hdr;
      extent = b.extent;
      status = t';
      at = subst (At b.hdr b.extent t' cs') g.start at';
      payload = b.payload;
      positive = b.positive;
      fits = b.fits;
      filled = λ j lt.
          g.keeps b.hdr b.extent b.status b.at (b.hdr + 16 + j) (omega arith)
            (omega (arith, b.fits))
          ∙ b.filled j lt;
    }

At-release_some :
    {h' size : ℕ} {status : Bool} {cs : List Chunk} {a : ℕ} (h : ℕ)
    → At h' size status cs a
    → (t : Bool) × At h' size t (release cs a h) a
unfolding release
At-release_some h (here {a} {s} {t} eh es et) = (_, here eh es refl)
At-release_some h (there p) = let (t, q) = At-release_some h p in (t, there q)

-- A payload byte of a chunk is no byte of another chunk's header word.
beside_header :
    {h h' size size' : ℕ} {status status' : Bool} (q : ℕ)
    → Apart h h' size size' status status'
    → 16 ≤ size
    → h' + 16 ≤ q
    → q < h' + size'
    → (q < h) ⊎ (h + 8 ≤ q)
beside_header q (one e _ _) g l u = inr (omega arith)
beside_header q (before b) g l u = inr (omega arith)
beside_header q (behind b) g l u = inl (omega arith)

-- A call of `mm_malloc` lets the heap go on.
pub append-GoesOn :
    {cs : List Chunk} (c : Chunk) {m : Mem} (m' : Mem)
    → IsHeap cs m
    → m.start_brk ≡ m'.start_brk
    → ((q : ℕ) → q < m.brk → m'.bytes q ≡ m.bytes q)
    → GoesOn cs m (cs ++ c ∷ []) m'
append-GoesOn c m' i start kept = record {
  start = start;
  stays = λ h n t p. (t, At-append_left (c ∷ []) p);
  keeps = λ h n t p q l u. kept q (omega (arith, (At-Lies i.chunks p).high));
}

-- A call of `mm_free` lets the heap go on.
pub release-GoesOn :
    {cs : List Chunk} {m : Mem} (m' : Mem) {h n : ℕ} {t : Bool}
    → IsHeap cs m
    → At h n t cs m.start_brk
    → m.start_brk ≡ m'.start_brk
    → ((q : ℕ) → (q < h) ⊎ (h + 8 ≤ q) → m'.bytes q ≡ m.bytes q)
    → GoesOn cs m (release cs m.start_brk h) m'
release-GoesOn {cs} {m} m' {h} i p start kept = record {
  start = start;
  stays = λ h' n' t' p'. At-release_some h p';
  keeps = λ h' n' t' p' q l u.
      kept q (beside_header q (At-Apart i.chunks p p') (At-Lies i.chunks p).big l u);
}

-- A call of `mm_realloc` lets the heap go on.
pub move-GoesOn :
    {cs : List Chunk} (c : Chunk) {m : Mem} (m' : Mem) {h n : ℕ} {t : Bool}
    → IsHeap cs m
    → At h n t cs m.start_brk
    → m.start_brk ≡ m'.start_brk
    → ((q : ℕ) → q < m.brk → (q < h) ⊎ (h + 8 ≤ q) → m'.bytes q ≡ m.bytes q)
    → GoesOn cs m (release (cs ++ c ∷ []) m.start_brk h) m'
move-GoesOn {cs} c {m} m' {h} i p start kept = record {
  start = start;
  stays = λ h' n' t' p'. At-release_some h (At-append_left (c ∷ []) p');
  keeps = λ h' n' t' p' q l u.
      kept q (omega (arith, (At-Lies i.chunks p').high))
        (beside_header q (At-Apart i.chunks p p') (At-Lies i.chunks p).big l u);
}
