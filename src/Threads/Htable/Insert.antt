-- ===== src/Threads/Htable/Insert.antt =====
-- `htable_insert` of threadlab/htable.c on the table as a finite map.
use cso18_labs.Base.{
  ℕ, ◌+◌, ◌≡◌, ◌≤◌, refl, ap, sym, subst, ◌∙◌, none, some, List, [], ◌∷◌, ◌++◌, arith,
  if◌then◌else◌, set, length, ◌⊎◌, inl, inr, leb, Option-cases, Bool-cases, ◌&&◌, length-set,
}
use cso18_labs.Base.Run.{ok}
use cso18_labs.Threads.Htable.{
  Node, Htable, hashcode, key_eq, pointer, htable_lookup, insert_at, htable_insert, max_collision,
}
use cso18_labs.Threads.Htable.Hash.{IsAscii}
use cso18_labs.Threads.Htable.Totals.{
  is_key, is_entry, sum, sum-append, sum-set, nodes, find, find_ext, find-none, key_eq→eq,
}
use cso18_labs.Threads.Htable.Placed.{
  IsHome, home_nil, home_cons, IsHome-append, IsPlaced, IsHtable, IsPlaced-set,
}
use cso18_labs.Threads.Htable.Resize.{htable_resize_lem}
use cso18_labs.Threads.Htable.Map.{view, IsSlot, slot_lem, htable_lookup_lem}

-- A node under a new key keeps the keys distinct.
unique_cons :
    (n : Node) (c : List Node)
    → ((q : List ℕ) → sum (is_key q) c ≤ 1)
    → find n.key c ≡ none
    → (q : List ℕ) → sum (is_key q) (n ∷ c) ≤ 1
unique_cons n c unique new q = elim (Bool-cases (key_eq n.key q)) [
  | inl same ↦
      let e : n.key ≡ q = key_eq→eq n.key q same in
      let missing : find q c ≡ none = subst (λ t. find t c ≡ none) e new in
      rw same (omega (arith, find-none q c missing))
  | inr other ↦ rw other (omega (arith, unique q))
]

-- What `htable_insert` makes of `ht`: the new entry is there, and nothing else has changed.
pub record IsInserted (ht : Htable) (key : List ℕ) (v : ℕ) (out : Htable) : Type 0 where
  pub good : IsHtable out
  pub entries : (q : List ℕ) → view out q ≡ (if key_eq key q then some v else view ht q)
  pub grows : ht.size ≤ out.size

-- Any table with the nodes of `ht` and `n`.
inserted :
    (ht out : Htable) (n : Node)
    → IsHtable ht
    → view ht n.key ≡ none
    → 1 ≤ out.size
    → length out.store ≡ out.size
    → IsPlaced out.size 0 out.store
    → ht.size ≤ out.size
    → ((f : Node → ℕ) → sum f (nodes out.store) ≡ sum f (nodes ht.store) + f n)
    → IsInserted ht n.key n.val out
inserted ht out n good new one slots placed grows same =
    let more = unique_cons n (nodes ht.store) good.unique new in
    record {
      good = record {
        nonempty = one;
        slots = slots;
        placed = placed;
        unique = λ q. omega (arith, same (is_key q), more q);
      };
      entries = λ q.
          find_ext q (n ∷ nodes ht.store) (nodes out.store) (more q)
            (omega (arith, same (is_key q))) (λ v. omega (arith, same (is_entry q v)));
      grows = grows;
    }

insert_at_lem :
    (ht : Htable) (key : List ℕ) (v h i : ℕ) (c : List Node)
    → IsHtable ht
    → IsSlot ht key h i c
    → view ht key ≡ none
    → (out : Htable) × (insert_at ht i c (hashcode key) key v none ≡ ok (out, 0))
      × IsInserted ht key v out
unfolding insert_at
insert_at_lem ht key v h i c good s new =
    let n : Node = record { hashcode = hashcode key; key = key; val = v } in
    let grown : Htable = record {
      allow_resize = ht.allow_resize;
      store = set ht.store i (c ++ n ∷ []);
      size = ht.size;
    } in
    let home : IsHome ht.size (0 + i) (c ++ n ∷ []) =
      subst (λ t. IsHome ht.size t (c ++ n ∷ [])) (omega arith)
        (IsHome-append s.home (home_cons {n = n} h s.hash s.hash s.index home_nil)) in
    let more : (f : Node → ℕ) → sum f (nodes grown.store) ≡ sum f (nodes ht.store) + f n =
      λ f. omega (arith, sum-set f ht.store i c (c ++ n ∷ []) s.at, sum-append f c (n ∷ [])) in
    let added : IsInserted ht key v grown =
      inserted ht grown n good new good.nonempty (length-set ht.store i (c ++ n ∷ []) ∙ good.slots)
        (IsPlaced-set good.placed i home) (omega arith) more in
    elim (Bool-cases (ht.allow_resize && leb max_collision (length c))) [
      | inr keeps ↦ (grown, rw keeps refl, added)
      | inl resizes ↦
          let (out, runs, well, _, _, large, same) = htable_resize_lem grown added.good in
          (
            out,
            rw (resizes, runs) refl,
            inserted ht out n good new well.nonempty well.slots well.placed (omega arith)
                (λ f. omega (arith, same f, more f)),
          )
    ]

-- On a well-formed table and an ASCII key `htable_insert` returns 1 and changes nothing where the
-- table holds the key. Otherwise it returns 0, and the new table, resized or not, is well formed,
-- holds the new value under the key and holds under every other key what it held.
pub htable_insert_lem :
    (ht : Htable) (key : List ℕ) (v : ℕ)
    → IsHtable ht
    → IsAscii key
    → ((w : ℕ) × (view ht key ≡ some w) × (htable_insert ht key v ≡ ok (ht, 1)))
      ⊎ ((view ht key ≡ none)
          × ((out : Htable) × (htable_insert ht key v ≡ ok (out, 0)) × IsInserted ht key v out))
unfolding htable_insert
htable_insert_lem ht key v good ascii =
    let (h, i, c, s) = slot_lem ht key good ascii in
    elim (Option-cases (view ht key)) [
      | inr (w, held) ↦ inl (w, held, rw (s.slot, s.reads, s.finds ∙ held, insert_at) refl)
      | inl new ↦
          let (out, runs, added) = insert_at_lem ht key v h i c good s new in
          inr (new, (out, rw (s.slot, s.reads, s.finds ∙ new) runs, added))
    ]

-- After an insertion that returns 0, `htable_lookup` finds the new value under the key, and under
-- every other ASCII key what it found before.
pub htable_lookup-htable_insert :
    (ht out : Htable) (key q : List ℕ) (v : ℕ)
    → IsHtable ht
    → IsAscii key
    → IsAscii q
    → htable_insert ht key v ≡ ok (out, 0)
    → htable_lookup out q ≡ (if key_eq key q then ok v else htable_lookup ht q)
htable_lookup-htable_insert ht out key q v good ascii ascii_q runs =
    elim (htable_insert_lem ht key v good ascii) [
      | inl (_, _, other) ↦ absurd (cc (runs, other))
      | inr (_, (found, same, added)) ↦
          let e : found ≡ out = cc in
          let result = htable_lookup_lem found q added.good ascii_q in
          let before = htable_lookup_lem ht q good ascii_q in
          ap (λ t. htable_lookup t q) (sym e)
          ∙ result
          ∙ ap (λ t. ok (pointer t)) (added.entries q)
          ∙ elim (Bool-cases (key_eq key q)) [
            | inl here ↦ rw here refl
            | inr other ↦ rw other (sym before)
          ]
    ]
