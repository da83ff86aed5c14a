-- ===== src/Threads/Tests.antt =====
-- The operations of threadlab's hash table on concrete tables.
use cso18_labs.Base.{
  ℕ, ◌≡◌, ◌≤◌, ◌<◌, ◌*◌, ◌%◌, ◌↔◌, ◌⊎◌, refl, true, none, some, List, [], ◌∷◌, arith, if◌then◌else◌,
}
use cso18_labs.Base.Int.{pos, ◌+ℤ◌, ◌-ℤ◌, ◌*ℤ◌}
use cso18_labs.Base.Run.{ok, fault, bad_access}
use cso18_labs.Threads.Primes.{is_prime, IsPrime, is_prime_iff, get_prime, get_prime-IsPrime}
use cso18_labs.Threads.Htable.{
  Node, Htable, big_prime, hashcode, htable_init, htable_lookup, htable_insert, htable_resize,
  key_eq, pointer,
}
use cso18_labs.Threads.Htable.Hash.{
  IsAscii, ascii_nil, ascii_cons, horner, hashcode_positive, htable_insert_negative,
}
use cso18_labs.Threads.Htable.Totals.{is_key, sum, nodes}
use cso18_labs.Threads.Htable.Placed.{home_nil, home_cons, placed_nil, placed_cons, IsHtable}
use cso18_labs.Threads.Htable.Resize.{htable_resize_lem}
use cso18_labs.Threads.Htable.Map.{view, htable_lookup_lem, htable_init_lem}
use cso18_labs.Threads.Htable.Insert.{IsInserted, htable_insert_lem, htable_lookup-htable_insert}

abbrev node_a : Node
node_a = record { hashcode = pos 97; key = 97 ∷ []; val = 11 }

abbrev node_d : Node
node_d = record { hashcode = pos 100; key = 100 ∷ []; val = 12 }

-- Three slots; "a" and "d" share the slot 1.
abbrev two_keys : Htable
two_keys = record { allow_resize = true; store = [] ∷ (node_a ∷ node_d ∷ []) ∷ [] ∷ []; size = 3 }

two_keys_unique : (q : List ℕ) → sum (is_key q) (nodes two_keys.store) ≤ 1
two_keys_unique [] = omega arith
two_keys_unique (x ∷ []) = ground arith
two_keys_unique (x ∷ y ∷ q) = ground arith

hash_a : hashcode (97 ∷ []) ≡ pos 97
unfolding hashcode ◌+ℤ◌ ◌-ℤ◌ ◌*ℤ◌
hash_a = refl

hash_d : hashcode (100 ∷ []) ≡ pos 100
unfolding hashcode ◌+ℤ◌ ◌-ℤ◌ ◌*ℤ◌
hash_d = refl

two_keys-IsHtable : IsHtable two_keys
two_keys-IsHtable = record {
  nonempty = omega arith;
  slots = refl;
  placed = placed_cons home_nil (
      placed_cons (home_cons 97 refl hash_a refl (home_cons 100 refl hash_d refl home_nil))
        (placed_cons home_nil placed_nil));
  unique = two_keys_unique;
}

IsAscii-g : IsAscii (103 ∷ [])
IsAscii-g = ascii_cons (omega arith) (omega arith) ascii_nil

IsAscii-d : IsAscii (100 ∷ [])
IsAscii-d = ascii_cons (omega arith) (omega arith) ascii_nil

is_prime_iff_example : (is_prime 7 ≡ true) ↔ IsPrime 7
is_prime_iff_example = is_prime_iff 7 (omega arith)

get_prime-IsPrime_example :
    (p : ℕ) × (get_prime 6 ≡ some p) × IsPrime p × (6 ≤ p) × ((q : ℕ) → 6 ≤ q → q < p → ¬ IsPrime q)
get_prime-IsPrime_example = get_prime-IsPrime 6 (omega arith)

hashcode_positive_example :
    (hashcode [] ≡ pos 0)
    × ((h : ℕ) × (hashcode (103 ∷ []) ≡ pos h)
        × (1 ≤ h)
        × (h ≤ big_prime)
        × (h % big_prime ≡ horner 0 (103 ∷ []) % big_prime))
hashcode_positive_example = hashcode_positive 103 [] IsAscii-g

abbrev large_table : Htable
large_table = record { allow_resize = true; store = []; size = 131 }

htable_insert_negative_example :
    (htable_lookup large_table (233 ∷ []) ≡ fault bad_access)
    × (htable_insert large_table (233 ∷ []) 5 ≡ fault bad_access)
htable_insert_negative_example =
    htable_insert_negative large_table 233 5 (omega arith) (omega arith) (omega arith)

htable_resize_lem_example :
    (out : Htable) × (htable_resize two_keys ≡ ok out)
    × IsHtable out
    × (out.allow_resize ≡ true)
    × IsPrime out.size
    × (2 * 3 ≤ out.size)
    × ((f : Node → ℕ) → sum f (nodes out.store) ≡ sum f (nodes two_keys.store))
htable_resize_lem_example = htable_resize_lem two_keys two_keys-IsHtable

htable_lookup_lem_example :
    htable_lookup two_keys (100 ∷ []) ≡ ok (pointer (view two_keys (100 ∷ [])))
htable_lookup_lem_example = htable_lookup_lem two_keys (100 ∷ []) two_keys-IsHtable IsAscii-d

htable_init_lem_example :
    (ht : Htable) × (htable_init 4 true ≡ ok ht)
    × IsHtable ht
    × IsPrime ht.size
    × (4 < ht.size)
    × ((p : ℕ) → 4 < p → p < ht.size → ¬ IsPrime p)
    × ((q : List ℕ) → view ht q ≡ none)
htable_init_lem_example = htable_init_lem 4 true (omega arith)

htable_insert_lem_example :
    ((w : ℕ) × (view two_keys (103 ∷ []) ≡ some w)
      × (htable_insert two_keys (103 ∷ []) 5 ≡ ok (two_keys, 1)))
    ⊎ ((view two_keys (103 ∷ []) ≡ none)
        × ((out : Htable) × (htable_insert two_keys (103 ∷ []) 5 ≡ ok (out, 0))
            × IsInserted two_keys (103 ∷ []) 5 out))
htable_insert_lem_example = htable_insert_lem two_keys (103 ∷ []) 5 two_keys-IsHtable IsAscii-g

abbrev node_g : Node
node_g = record { hashcode = pos 103; key = 103 ∷ []; val = 5 }

abbrev three_keys : Htable
three_keys = record {
  allow_resize = true;
  store = [] ∷ (node_a ∷ node_d ∷ node_g ∷ []) ∷ [] ∷ [];
  size = 3;
}

inserts_g : htable_insert two_keys (103 ∷ []) 5 ≡ ok (three_keys, 0)
unfolding htable_insert hashcode ◌+ℤ◌ ◌-ℤ◌ ◌*ℤ◌
inserts_g = refl

htable_lookup-htable_insert_example :
    htable_lookup three_keys (100 ∷ [])
    ≡ (if key_eq (103 ∷ []) (100 ∷ []) then ok 5 else htable_lookup two_keys (100 ∷ []))
htable_lookup-htable_insert_example =
    htable_lookup-htable_insert two_keys three_keys (103 ∷ []) (100 ∷ []) 5 two_keys-IsHtable
      IsAscii-g IsAscii-d inserts_g
