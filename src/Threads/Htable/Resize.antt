-- ===== src/Threads/Htable/Resize.antt =====
-- `htable_resize` of threadlab/htable.c, and its loops.
use native.Mathlib.Nat.{mod-lt}
use cso18_labs.Base.{
  ℕ, zero, suc, ◌*◌, ◌%◌, ◌+◌, ◌≡◌, ◌≤◌, ◌<◌, refl, ap, ◌∙◌, some, List, [], ◌∷◌, arith, get_elem?,
  set, replicate, length, get_elem?_bounded, length-set, length-replicate,
}
use cso18_labs.Base.Int.{pos}
use cso18_labs.Base.Run.{ok}
use cso18_labs.Threads.Primes.{IsPrime, get_prime-IsPrime}
use cso18_labs.Threads.Htable.{
  Node, Htable, slot_of, chain_at, move_chain, move_chains, htable_resize,
}
use cso18_labs.Threads.Htable.Totals.{is_key, sum, sum-append, sum-set, sum-replicate, nodes}
use cso18_labs.Threads.Htable.Placed.{
  IsHome, home_nil, home_cons, IsPlaced, placed_nil, placed_cons, IsHtable, IsHome-get,
  IsPlaced-set, IsPlaced-replicate,
}

pub slot_of_pos : (h n : ℕ) → 1 ≤ n → slot_of (pos h) n ≡ ok (h % n)
unfolding slot_of
slot_of_pos h zero le = absurd (omega arith)
slot_of_pos h (suc n) le = refl

-- The slot of a hash code that is not negative is one of the array's.
pub slot-chain :
    (h n : ℕ) (store : List (List Node))
    → 1 ≤ n
    → length store ≡ n
    → (c : List Node) × (get_elem? store (h % n) ≡ some c) × (chain_at store (h % n) ≡ ok c)
unfolding chain_at
slot-chain h n store le long =
    let inside : h % n < n = mod-lt h (omega arith) in
    let (c, e) = get_elem?_bounded store (h % n) (omega arith) in (c, e, rw (e, chain_at) refl)

-- What the new array holds once the chains in `c` have moved to it from `store`.
record IsMoved (n : ℕ) (store : List (List Node)) (c : List Node) (out : List (List Node))
    : Type 0 where
  slots : length out ≡ n
  placed : IsPlaced n 0 out
  same : (f : Node → ℕ) → sum f (nodes out) ≡ sum f (nodes store) + sum f c

move_chain_step :
    (n : ℕ) (m : Node) (c : List Node) (store : List (List Node)) (i : ℕ) (old : List Node)
    (out : List (List Node))
    → slot_of m.hashcode n ≡ ok i
    → chain_at store i ≡ ok old
    → move_chain n c (set store i (m ∷ old)) ≡ ok out
    → move_chain n (m ∷ c) store ≡ ok out
unfolding move_chain
move_chain_step n m c store i old out slot reads runs = rw (slot, reads) runs

move_chain_lem :
    {size i : ℕ} (n : ℕ) {c : List Node} (store : List (List Node))
    → 1 ≤ n
    → IsHome size i c
    → length store ≡ n
    → IsPlaced n 0 store
    → (out : List (List Node)) × (move_chain n c store ≡ ok out) × IsMoved n store c out
unfolding move_chain
move_chain_lem n store le home_nil long placed =
    (store, refl, record { slots = long; placed = placed; same = λ f. omega arith })
move_chain_lem n store le (home_cons {n = m} {c} h a b e rest) long placed =
    let (old, at, reads) = slot-chain h n store le long in
    let home = IsHome-get placed (h % n) at in
    let placed1 = IsPlaced-set placed (h % n) (home_cons h a b (omega arith) home) in
    let long1 = length-set store (h % n) (m ∷ old) in
    let (out, runs, moved) =
      move_chain_lem n (set store (h % n) (m ∷ old)) le rest (omega arith) placed1 in
    (
      out,
      move_chain_step n m c store (h % n) old out (ap (λ t. slot_of t n) a ∙ slot_of_pos h n le)
          reads runs,
      record {
        slots = moved.slots;
        placed = moved.placed;
        same = λ f. omega (arith, moved.same f, sum-set f store (h % n) old (m ∷ old) at);
      },
    )

move_chains_lem :
    {size i : ℕ} (n : ℕ) {chains : List (List Node)} (store : List (List Node))
    → 1 ≤ n
    → IsPlaced size i chains
    → length store ≡ n
    → IsPlaced n 0 store
    → (out : List (List Node)) × (move_chains n chains store ≡ ok out)
      × IsMoved n store (nodes chains) out
unfolding move_chains
move_chains_lem n store le placed_nil long placed =
    (store, refl, record { slots = long; placed = placed; same = λ f. omega arith })
move_chains_lem n store le (placed_cons {c} {store = chains} home rest) long placed =
    let (mid, first, moved) = move_chain_lem n store le home long placed in
    let (out, then_, moved_rest) = move_chains_lem n mid le rest moved.slots moved.placed in
    (
      out,
      rw first then_,
      record {
        slots = moved_rest.slots;
        placed = moved_rest.placed;
        same = λ f. omega (arith, moved.same f, moved_rest.same f, sum-append f c (nodes chains));
      },
    )

-- `htable_resize` ends on a well-formed table, with a well-formed table whose number of slots is a
-- prime, at least twice as large. The table holds the same nodes: every sum over the nodes is kept.
pub htable_resize_lem :
    (ht : Htable)
    → IsHtable ht
    → (out : Htable) × (htable_resize ht ≡ ok out)
      × IsHtable out
      × (out.allow_resize ≡ ht.allow_resize)
      × IsPrime out.size
      × (2 * ht.size ≤ out.size)
      × ((f : Node → ℕ) → sum f (nodes out.store) ≡ sum f (nodes ht.store))
unfolding htable_resize
htable_resize_lem ht good =
    let one = good.nonempty in
    let (n, finds, prime, large, _) = get_prime-IsPrime (2 * ht.size) (omega arith) in
    let le : 1 ≤ n = omega arith in
    let (store, runs, moved) =
      move_chains_lem n (replicate n []) le good.placed (length-replicate n [])
        (IsPlaced-replicate n 0 n) in
    let out : Htable = record { allow_resize = ht.allow_resize; store = store; size = n } in
    let same : (f : Node → ℕ) → sum f (nodes store) ≡ sum f (nodes ht.store) =
      λ f. omega (arith, moved.same f, sum-replicate f n) in
    (
      out,
      rw (finds, runs, htable_resize) refl,
      record {
        nonempty = le;
        slots = moved.slots;
        placed = moved.placed;
        unique = λ q. omega (arith, same (is_key q), good.unique q);
      },
      refl,
      prime,
      large,
      same,
    )
