-- ===== src/Threads/Htable.antt =====
-- threadlab/htable.c and htable.h: the hash table with chaining. A C string is the list of its
-- bytes before the NUL, a chain the list of its nodes from the head, the array `store` the list of
-- its chains. A `val` is the number of the pointer, 0 for NULL. `malloc` is taken to succeed.
pub mod Hash
pub mod Totals
pub mod Placed
pub mod Resize
pub mod Map
pub mod Insert
pub mod Destroy
use cso18_labs.Base.{
  ℕ, zero, suc, ◌*◌, ◌%◌, ◌+◌, ◌≡◌, Bool, true, false, ◌&&◌, Option, none, some, List, [], ◌∷◌,
  ◌++◌, ltb, leb, ◌==◌, if◌then◌else◌, length, get_elem?, set, replicate,
}
use cso18_labs.Base.Int.{ℤ, pos, negsuc, pos_part, ltb_ℤ, ◌+ℤ◌, ◌-ℤ◌, ◌*ℤ◌, remainder}
use cso18_labs.Base.Run.{Run, ok, fault, ◌>>=◌, division_by_zero, bad_access, out_of_fuel}
use cso18_labs.Threads.Primes.{get_prime}

-- `BIG_PRIME`
abbrev pub big_prime : ℕ
big_prime = 1560007

-- `MAX_COLLISION`
abbrev pub max_collision : ℕ
max_collision = 10

-- The value of a byte read through a `char`, which is signed.
abbrev pub char_value : ℕ → ℤ
char_value c = if ltb c 128 then pos c else pos c -ℤ pos 256

pub madd : ℤ → ℤ → ℤ
madd a b = if ltb_ℤ (pos big_prime) (a +ℤ b) then a +ℤ b -ℤ pos big_prime else a +ℤ b

pub mmul : ℤ → ℤ → ℤ
mmul a b = remainder (a *ℤ b) big_prime

-- The loop of `hashcode`.
pub hashcode_from : ℤ → List ℕ → ℤ
unfolding madd mmul
hashcode_from p [] = p
hashcode_from p (c ∷ s) = hashcode_from (madd (mmul p (pos 256)) (char_value c)) s

unfoldable pub hashcode : List ℕ → ℤ
unfolding hashcode_from
hashcode s = hashcode_from (pos 0) s

pub record Node : Type 0 where
  pub hashcode : ℤ
  pub key : List ℕ
  pub val : ℕ

pub record Htable : Type 0 where
  pub allow_resize : Bool
  pub store : List (List Node)
  pub size : ℕ

unfoldable pub htable_init : ℕ → Bool → Run Htable
unfolding get_prime
htable_init sz allow_resize = elim (get_prime (sz + 1)) [
  | none ↦ fault out_of_fuel
  | some n ↦ ok (record { allow_resize = allow_resize; store = replicate n []; size = n })
]

abbrev pub htable_size : Htable → ℕ
htable_size ht = ht.size

-- `strcmp(a, b) == 0`
abbrev pub key_eq : List ℕ → List ℕ → Bool
key_eq [] [] = true
key_eq [] (_ ∷ _) = false
key_eq (_ ∷ _) [] = false
key_eq (a ∷ s) (b ∷ t) = (a == b) && key_eq s t

abbrev pub hash_eq : ℤ → ℤ → Bool
hash_eq (pos a) (pos b) = a == b
hash_eq (negsuc a) (negsuc b) = a == b
hash_eq (pos _) (negsuc _) = false
hash_eq (negsuc _) (pos _) = false

-- `hcode % ht->size` as an index of the array: a negative one lies outside it.
pub slot_of : ℤ → ℕ → Run ℕ
slot_of hcode zero = fault division_by_zero
slot_of hcode (suc n) = elim (remainder hcode (suc n)) [
  | pos i ↦ ok i
  | negsuc _ ↦ fault bad_access
]

pub chain_at : List (List Node) → ℕ → Run (List Node)
chain_at store i = elim (get_elem? store i) [ some c ↦ ok c | none ↦ fault bad_access ]

-- The loops of `htable_lookup` and `htable_insert`: the value under the key, if it is there.
pub search : ℤ → List ℕ → List Node → Option ℕ
search hcode key [] = none
search hcode key (n ∷ c) =
    if hash_eq n.hashcode hcode && key_eq n.key key then some n.val else search hcode key c

abbrev pub pointer : Option ℕ → ℕ
pointer none = 0
pointer (some v) = v

unfoldable pub htable_lookup : Htable → List ℕ → Run ℕ
unfolding hashcode slot_of chain_at search
htable_lookup ht key = slot_of (hashcode key) ht.size >>= λ slot.
    chain_at ht.store slot >>= λ c. ok (pointer (search (hashcode key) key c))

-- The loop of `htable_resize` over one chain: each node becomes the head of its new chain.
pub move_chain : ℕ → List Node → List (List Node) → Run (List (List Node))
unfolding slot_of chain_at
move_chain new_size [] new_store = ok new_store
move_chain new_size (n ∷ c) new_store = slot_of n.hashcode new_size >>= λ slot.
    chain_at new_store slot >>= λ old. move_chain new_size c (set new_store slot (n ∷ old))

pub move_chains : ℕ → List (List Node) → List (List Node) → Run (List (List Node))
unfolding move_chain
move_chains new_size [] new_store = ok new_store
move_chains new_size (c ∷ store) new_store =
    move_chain new_size c new_store >>= λ moved. move_chains new_size store moved

unfoldable pub htable_resize : Htable → Run Htable
unfolding get_prime move_chains
htable_resize ht = elim (get_prime (2 * ht.size)) [
  | none ↦ fault out_of_fuel
  | some new_size ↦ move_chains new_size ht.store (replicate new_size []) >>= λ new_store.
      ok (record { allow_resize = ht.allow_resize; store = new_store; size = new_size })
]

-- The rest of `htable_insert`, from the end of the chain of the key's slot on.
unfoldable pub insert_at : Htable → ℕ → List Node → ℤ → List ℕ → ℕ → Option ℕ → Run (Htable × ℕ)
unfolding htable_resize
insert_at ht slot c hcode key val (some _) = ok (ht, 1)
insert_at ht slot c hcode key val none =
    let n : Node = record { hashcode = hcode; key = key; val = val } in
    let grown : Htable = record {
      allow_resize = ht.allow_resize;
      store = set ht.store slot (c ++ n ∷ []);
      size = ht.size;
    } in
    if ht.allow_resize && leb max_collision (length c)
    then (htable_resize grown >>= λ t. ok (t, 0))
    else ok (grown, 0)

unfoldable pub htable_insert : Htable → List ℕ → ℕ → Run (Htable × ℕ)
unfolding hashcode slot_of chain_at search insert_at
htable_insert ht key val = slot_of (hashcode key) ht.size >>= λ slot.
    chain_at ht.store slot >>= λ c.
    insert_at ht slot c (hashcode key) key val (search (hashcode key) key c)

-- The nodes that `free_linked_list` frees, in the order of the calls of `free`.
pub free_linked_list : List Node → List Node
free_linked_list [] = []
free_linked_list (n ∷ c) = free_linked_list c ++ n ∷ []

-- The loop of `htable_destroy`.
pub free_chains : List (List Node) → List Node
unfolding free_linked_list
free_chains [] = []
free_chains (c ∷ store) = free_linked_list c ++ free_chains store

unfoldable pub htable_destroy : Htable → List Node
unfolding free_chains
htable_destroy ht = free_chains ht.store
