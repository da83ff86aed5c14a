-- ===== src/Threads/Htable/Map.antt =====
-- The table of threadlab/htable.c as a finite map from keys to values, whatever its slots.
use cso18_labs.Base.{
  ℕ, zero, suc, ◌%◌, ◌+◌, ◌≡◌, ◌≤◌, ◌<◌, refl, ap, sym, subst, ◌∙◌, Bool, Option, none, some, List,
  [], arith, get_elem?, replicate, length-replicate,
}
use cso18_labs.Base.Int.{pos}
use cso18_labs.Base.Run.{ok}
use cso18_labs.Threads.Primes.{IsPrime, get_prime-IsPrime}
use cso18_labs.Threads.Htable.{
  Node, Htable, hashcode, pointer, slot_of, chain_at, search, htable_init, htable_lookup,
}
use cso18_labs.Threads.Htable.Hash.{IsAscii, hashcode_lem}
use cso18_labs.Threads.Htable.Totals.{is_key, is_entry, sum, sum-replicate, nodes, find, find_ext}
use cso18_labs.Threads.Htable.Placed.{
  IsHome, IsHtable, IsHome-get, IsPlaced-replicate, sum-home, search-find, is_key-OnlyKey,
  is_entry-OnlyKey,
}
use cso18_labs.Threads.Htable.Resize.{slot_of_pos, slot-chain}

-- The value that the table holds under a key.
abbrev pub view : Htable → List ℕ → Option ℕ
view ht q = find q (nodes ht.store)

-- The slot of an ASCII key, its chain, and what the loop finds there.
pub record IsSlot (ht : Htable) (key : List ℕ) (h i : ℕ) (c : List Node) : Type 0 where
  pub hash : hashcode key ≡ pos h
  pub slot : slot_of (hashcode key) ht.size ≡ ok i
  pub at : get_elem? ht.store i ≡ some c
  pub reads : chain_at ht.store i ≡ ok c
  pub home : IsHome ht.size i c
  pub index : h % ht.size ≡ i
  pub finds : search (hashcode key) key c ≡ view ht key

pub slot_lem :
    (ht : Htable) (key : List ℕ)
    → IsHtable ht
    → IsAscii key
    → (h : ℕ) × (i : ℕ) × (c : List Node) × IsSlot ht key h i c
slot_lem ht key good ascii =
    let (h, hash, _, _) = hashcode_lem key ascii in
    let i = h % ht.size in
    let (c, at, reads) = slot-chain h ht.size ht.store good.nonempty good.slots in
    let home : IsHome ht.size i c =
      subst (λ t. IsHome ht.size t c) (omega arith) (IsHome-get good.placed i at) in
    let keys =
      sum-home key h hash (is_key key) (is_key-OnlyKey key) good.placed i at (omega arith) in
    let entries : (v : ℕ) → sum (is_entry key v) c ≡ sum (is_entry key v) (nodes ht.store) = λ v.
      sym (
        sum-home key h hash (is_entry key v) (is_entry-OnlyKey key v) good.placed i at
          (omega arith)) in
    (
      h,
      i,
      c,
      record {
        hash = hash;
        slot = ap (λ t. slot_of t ht.size) hash ∙ slot_of_pos h ht.size good.nonempty;
        at = at;
        reads = reads;
        home = home;
        index = refl;
        finds =
            ap (λ t. search t key c) hash
            ∙ search-find key h home hash
            ∙ find_ext key (nodes ht.store) c (good.unique key) (sym keys) entries;
      },
    )

-- On a well-formed table and an ASCII key `htable_lookup` returns the value that the table holds
-- under the key, and NULL where it holds none.
pub htable_lookup_lem :
    (ht : Htable) (key : List ℕ)
    → IsHtable ht
    → IsAscii key
    → htable_lookup ht key ≡ ok (pointer (view ht key))
unfolding htable_lookup
htable_lookup_lem ht key good ascii =
    let (h, i, c, s) = slot_lem ht key good ascii in rw (s.slot, s.reads, s.finds) refl

nodes-replicate : (n : ℕ) → nodes (replicate n []) ≡ []
nodes-replicate zero = refl
nodes-replicate (suc n) = nodes-replicate n

-- For an `sz` of at least 1, `htable_init` ends, with an empty well-formed table whose number of
-- slots is the least prime above `sz`.
pub htable_init_lem :
    (sz : ℕ) (allow_resize : Bool)
    → 1 ≤ sz
    → (ht : Htable) × (htable_init sz allow_resize ≡ ok ht)
      × IsHtable ht
      × IsPrime ht.size
      × (sz < ht.size)
      × ((p : ℕ) → sz < p → p < ht.size → ¬ IsPrime p)
      × ((q : List ℕ) → view ht q ≡ none)
unfolding htable_init
htable_init_lem sz allow_resize le =
    let (n, finds, prime, large, least) = get_prime-IsPrime (sz + 1) (omega arith) in
    let ht : Htable = record { allow_resize = allow_resize; store = replicate n []; size = n } in
    let empty : nodes ht.store ≡ [] = nodes-replicate n in
    (
      ht,
      rw (finds, htable_init) refl,
      record {
        nonempty = omega arith;
        slots = length-replicate n [];
        placed = IsPlaced-replicate n 0 n;
        unique = λ q. omega (arith, sum-replicate (is_key q) n);
      },
      prime,
      omega arith,
      λ p lo hi. least p (omega arith) hi,
      λ q. ap (find q) empty,
    )
