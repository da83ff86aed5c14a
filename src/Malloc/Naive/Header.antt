-- ===== src/Malloc/Naive/Header.antt =====
-- The header word of mm-naive.c.
use cso18_labs.Base.{
  ℕ, ◌+◌, ◌-◌, ◌%◌, ◌^◌, ◌<◌, ◌≡◌, ap, ◌∙◌, Bool, true, false, ◌&&◌, arith, bit_and,
}
use cso18_labs.Base.Bits.{bit_and-one, bit_and_ones, clear_bit}
use cso18_labs.Malloc.Machine.{ok, ◌>>=◌, store_le, load_le, load_le-store_le, load_le-lt}
use cso18_labs.Malloc.Memlib.{Mem, complement, load_size, store_size, in_storage}
use cso18_labs.Malloc.Naive.{of_bool, set_chunk_status, get_chunk_status, get_chunk_size}

-- The word that stands for a chunk.
abbrev pub word : ℕ → Bool → ℕ
word size status = size + of_bool status

-- The storage holds the header of a chunk of `size` bytes at `hdr`.
pub record HasHeader (hdr size : ℕ) (status : Bool) (m : Mem) : Type 0 where
  pub stored : in_storage hdr 8 m ≡ true
  pub even : size % 2 ≡ 0
  pub reads : load_le 8 m.bytes hdr ≡ word size status

module _ {hdr size : ℕ} {status : Bool} {m : Mem} (h : HasHeader hdr size status m) where
  bounded : size + of_bool status < 2 ^ 64
  bounded = omega (arith, load_le-lt 8 m.bytes hdr)

  word-even : word size status - word size status % 2 ≡ size
  word-even = ground arith

  pub get_chunk_size-HasHeader : get_chunk_size hdr m ≡ ok size
  unfolding get_chunk_size load_size
  get_chunk_size-HasHeader =
      rw (h.stored, h.reads, ◌>>=◌) (ap ok (clear_bit (word size status) bounded ∙ word-even))

  pub get_chunk_status-HasHeader : get_chunk_status hdr m ≡ ok status
  unfolding get_chunk_status load_size
  get_chunk_status-HasHeader =
      rw (h.stored, h.reads, ◌>>=◌) (ground (arith, bit_and-one (word size status), h.even))

  mask_word :
      (new : Bool)
      → bit_and (word size status) (complement (1 - of_bool new)) ≡ word size (status && new)
  mask_word true = bit_and_ones 64 (word size status) ∙ ground (arith, bounded)
  mask_word false = clear_bit (word size status) bounded ∙ word-even ∙ ground arith

  -- Setting the status to false keeps the size; setting it to true has no effect.
  pub set_chunk_status-word :
      (new : Bool)
      → set_chunk_status hdr new m
        ≡ ok (record m { bytes = store_le 8 m.bytes hdr (word size (status && new)) })
  unfolding set_chunk_status load_size store_size
  set_chunk_status-word new = rw (h.stored, h.reads, ◌>>=◌, mask_word new)

-- A stored word reads back.
pub store_word-HasHeader :
    {hdr size : ℕ} (status : Bool) (m : Mem)
    → in_storage hdr 8 m ≡ true
    → size % 2 ≡ 0
    → size + 1 < 2 ^ 64
    → HasHeader hdr size status (record m { bytes = store_le 8 m.bytes hdr (word size status) })
store_word-HasHeader {hdr} {size} status m s e b = record {
  stored = s;
  even = e;
  reads = load_le-store_le 8 m.bytes hdr (word size status) (ground arith);
}
