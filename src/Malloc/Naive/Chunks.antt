-- ===== src/Malloc/Naive/Chunks.antt =====
-- The heap of mm-naive.c as a sequence of chunks, from the first byte to the break.
use cso18_labs.Base.{
  ℕ, ◌+◌, ◌%◌, ◌≤◌, ◌<◌, ◌≡◌, refl, ◌∙◌, subst, sym, ◌≢◌, Bool-cases, ◌⊎◌, inl, inr, Bool, true,
  false, List, [], ◌∷◌, ◌++◌, arith, ◌==◌, if◌then◌else◌,
}
use cso18_labs.Malloc.Machine.{load_le_congr}
use cso18_labs.Malloc.Memlib.{Mem}
use cso18_labs.Malloc.Naive.Header.{HasHeader}

-- A chunk's size and status.
abbrev pub Chunk : Type 0
Chunk = ℕ × Bool

-- The chunks `cs` stand one behind the other from `a` to `b`.
pub data Chunks (m : Mem) (b : ℕ) : List Chunk → ℕ → Type 0 where
  done : {a : ℕ} → a ≡ b → Chunks m b [] a
  chunk :
      {a size : ℕ} {status : Bool} {cs : List Chunk}
      → HasHeader a size status m
      → size % 16 ≡ 0
      → 16 ≤ size
      → Chunks m b cs (a + size)
      → Chunks m b ((size, status) ∷ cs) a

-- Among the chunks `cs` from `a` on, one of `size` bytes stands at `h`.
pub data At (h size : ℕ) (status : Bool) : List Chunk → ℕ → Type 0 where
  here :
      {a s : ℕ} {t : Bool} {cs : List Chunk}
      → h ≡ a
      → size ≡ s
      → status ≡ t
      → At h size status ((s, t) ∷ cs) a
  there :
      {a s : ℕ} {t : Bool} {cs : List Chunk}
      → At h size status cs (a + s)
      → At h size status ((s, t) ∷ cs) a

pub Chunks-le : {m : Mem} {b : ℕ} {cs : List Chunk} {a : ℕ} → Chunks m b cs a → a ≤ b
Chunks-le (done e) = omega arith
Chunks-le (chunk h d g c) = omega (arith, Chunks-le c)

pub Chunks-mod :
    {m : Mem} {b : ℕ} {cs : List Chunk} {a : ℕ} → Chunks m b cs a → a % 16 ≡ 0 → b % 16 ≡ 0
Chunks-mod (done e) z = omega arith
Chunks-mod (chunk h d g c) z = Chunks-mod c (omega arith)

-- A chunk lies between the ends, with its header.
pub record Lies (m : Mem) (a b h size : ℕ) (status : Bool) : Type 0 where
  pub low : a ≤ h
  pub high : h + size ≤ b
  pub big : 16 ≤ size
  pub whole : size % 16 ≡ 0
  pub placed : a % 16 ≡ 0 → h % 16 ≡ 0
  pub header : HasHeader h size status m

pub At-Lies :
    {m : Mem} {b h size : ℕ} {status : Bool} {cs : List Chunk} {a : ℕ}
    → Chunks m b cs a
    → At h size status cs a
    → Lies m a b h size status
At-Lies (done _) p = elim p [ ]
At-Lies (chunk k d g c) (here eh es et) = record {
  low = omega arith;
  high = omega (arith, Chunks-le c);
  big = omega arith;
  whole = omega arith;
  placed = omega arith;
  header = rw (eh, es, et) k;
}
At-Lies (chunk k d g c) (there p) =
    let l = At-Lies c p in
    record {
      low = omega (arith, l.low);
      high = l.high;
      big = l.big;
      whole = l.whole;
      placed = λ z. l.placed (omega arith);
      header = l.header;
    }

-- Two chunks are one, or apart.
pub data Apart (h h' size size' : ℕ) (status status' : Bool) : Type 0 where
  one : h ≡ h' → size ≡ size' → status ≡ status' → Apart h h' size size' status status'
  before : h + size ≤ h' → Apart h h' size size' status status'
  behind : h' + size' ≤ h → Apart h h' size size' status status'

pub At-Apart :
    {m : Mem} {b h h' size size' : ℕ} {status status' : Bool} {cs : List Chunk} {a : ℕ}
    → Chunks m b cs a
    → At h size status cs a
    → At h' size' status' cs a
    → Apart h h' size size' status status'
At-Apart (done _) p q = elim p [ ]
At-Apart (chunk k d g c) (here eh es et) (here eh' es' et') =
    one (eh ∙ sym eh') (es ∙ sym es') (et ∙ sym et')
At-Apart (chunk k d g c) (here eh es et) (there q) = before (omega (arith, (At-Lies c q).low))
At-Apart (chunk k d g c) (there p) (here eh es et) = behind (omega (arith, (At-Lies c p).low))
At-Apart (chunk k d g c) (there p) (there q) = At-Apart c p q

-- The storage is the same, and so are the header bytes of every chunk.
pub record SameHeaders (cs : List Chunk) (a : ℕ) (m m' : Mem) : Type 0 where
  pub start : m.start_brk ≡ m'.start_brk
  pub limit : m.max_addr ≡ m'.max_addr
  pub headers :
      (h size : ℕ) (status : Bool)
      → At h size status cs a
      → (q : ℕ) → h ≤ q
      → q < h + 8
      → m.bytes q ≡ m'.bytes q

pub HasHeader-congr :
    {h size : ℕ} {status : Bool} {m m' : Mem}
    → HasHeader h size status m
    → m.start_brk ≡ m'.start_brk
    → m.max_addr ≡ m'.max_addr
    → ((q : ℕ) → h ≤ q → q < h + 8 → m.bytes q ≡ m'.bytes q)
    → HasHeader h size status m'
HasHeader-congr {h} {size} {status} {m} {m'} k start limit same = record {
  stored = rw (← start, ← limit) k.stored;
  even = k.even;
  reads = sym (load_le_congr 8 m.bytes m'.bytes h same) ∙ k.reads;
}

pub Chunks-congr :
    {m m' : Mem} {b : ℕ} {cs : List Chunk} {a : ℕ}
    → Chunks m b cs a
    → SameHeaders cs a m m'
    → Chunks m' b cs a
Chunks-congr (done e) s = done e
Chunks-congr (chunk {a} {size} {status} k d g c) s =
    chunk (HasHeader-congr k s.start s.limit (s.headers a size status (here refl refl refl))) d g (
      Chunks-congr c (record {
        start = s.start;
        limit = s.limit;
        headers = λ h z t p. s.headers h z t (there p);
      }))

pub Chunks-append :
    {m : Mem} {b c : ℕ} {cs : List Chunk} {a : ℕ} {size : ℕ} {status : Bool}
    → Chunks m b cs a
    → HasHeader b size status m
    → size % 16 ≡ 0
    → 16 ≤ size
    → b + size ≡ c
    → Chunks m c (cs ++ (size, status) ∷ []) a
Chunks-append (done e) k d g f = chunk (rw e k) d g (done (rw e f))
Chunks-append (chunk k' d' g' c) k d g f = chunk k' d' g' (Chunks-append c k d g f)

pub At-append_left :
    {h size : ℕ} {status : Bool} {cs : List Chunk} (ds : List Chunk) {a : ℕ}
    → At h size status cs a
    → At h size status (cs ++ ds) a
At-append_left ds (here eh es et) = here eh es et
At-append_left ds (there p) = there (At-append_left ds p)

pub At-append_last :
    {m : Mem} {b : ℕ} {cs : List Chunk} {a : ℕ} (size : ℕ) (status : Bool)
    → Chunks m b cs a
    → At b size status (cs ++ (size, status) ∷ []) a
At-append_last size status (done e) = here (sym e) refl refl
At-append_last size status (chunk k d g c) = there (At-append_last size status c)

-- The same chunks with the status of the one at `h` set to false.
unfoldable pub release : List Chunk → ℕ → ℕ → List Chunk
release [] a h = []
release ((s, t) ∷ cs) a h = (s, (if a == h then false else t)) ∷ release cs (a + s) h

-- The header bytes of the chunk at `h` now hold a free chunk of the same size, and those of the
-- other chunks are as before.
pub Chunks-release :
    {m m' : Mem} {b : ℕ} {cs : List Chunk} {a : ℕ} (h : ℕ)
    → Chunks m b cs a
    → m.start_brk ≡ m'.start_brk
    → m.max_addr ≡ m'.max_addr
    → ((size : ℕ) (status : Bool) → At h size status cs a → HasHeader h size false m')
    → ((h' size : ℕ) (status : Bool)
        → At h' size status cs a
        → h' ≢ h
        → (q : ℕ) → h' ≤ q
        → q < h' + 8
        → m.bytes q ≡ m'.bytes q)
    → Chunks m' b (release cs a h) a
unfolding release
Chunks-release h (done e) start limit this other = done e
Chunks-release {m} {m'} h (chunk {a} {size} {status} k d g c) start limit this other =
    chunk (head (Bool-cases (a == h))) d g (
      Chunks-release h c start limit (λ z t p. this z t (there p))
        (λ h' z t p. other h' z t (there p)))
  where
    head :
        ((a == h) ≡ true) ⊎ ((a == h) ≡ false)
        → HasHeader a size (if a == h then false else status) m'
    head (inl e) =
        let same : h ≡ a = ground arith in
        rw e (subst (λ x. HasHeader x size false m') same (this size status (here same refl refl)))
    head (inr n) =
        rw n
          (HasHeader-congr k start limit (other a size status (here refl refl refl) (ground arith)))

pub At-release :
    {h h' size : ℕ} {status : Bool} {cs : List Chunk} {a : ℕ}
    → At h' size status cs a
    → h' ≢ h
    → At h' size status (release cs a h) a
unfolding release
At-release {h} (here {a} {s} {t} eh es et) n = here eh es (ground arith)
At-release (there p) n = there (At-release p n)
