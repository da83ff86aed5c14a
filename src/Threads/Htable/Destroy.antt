-- ===== src/Threads/Htable/Destroy.antt =====
-- What `htable_destroy` of threadlab/htable.c frees.
use cso18_labs.Base.{ℕ, ◌≡◌, refl, List, [], ◌∷◌, arith}
use cso18_labs.Threads.Htable.{Node, Htable, free_linked_list, free_chains, htable_destroy}
use cso18_labs.Threads.Htable.Totals.{sum, sum-append, nodes}

sum-free_linked_list : (f : Node → ℕ) (c : List Node) → sum f (free_linked_list c) ≡ sum f c
unfolding free_linked_list
sum-free_linked_list f [] = refl
sum-free_linked_list f (n ∷ c) =
    omega (arith, sum-append f (free_linked_list c) (n ∷ []), sum-free_linked_list f c)

sum-free_chains :
    (f : Node → ℕ) (store : List (List Node)) → sum f (free_chains store) ≡ sum f (nodes store)
unfolding free_chains
sum-free_chains f [] = refl
sum-free_chains f (c ∷ store) = omega (
  arith,
  sum-append f (free_linked_list c) (free_chains store),
  sum-append f c (nodes store),
  sum-free_linked_list f c,
  sum-free_chains f store,
)

-- `htable_destroy` frees each node as often as it stands in the table: the sum of any measure over
-- the nodes freed is its sum over the table's nodes.
pub htable_destroy_lem :
    (ht : Htable) (f : Node → ℕ) → sum f (htable_destroy ht) ≡ sum f (nodes ht.store)
unfolding htable_destroy
htable_destroy_lem ht f = sum-free_chains f ht.store
