-- ===== src/Clab/Nodup.antt =====
-- The loop "nodup" of clab/mini/part7_harness.c on a sorted array.
use cso18_labs.Base.{
  ◌≡◌, refl, sym, ap, ◌∙◌, subst, true, false, Option, none, some, List, [], ◌∷◌, if◌then◌else◌,
  arith, Bool-cases, ◌⊎◌, inl, inr,
}
use cso18_labs.Clab.{String, comes_before, same_string, insert_sorted, nodup_from}
use cso18_labs.Clab.Order.{
  same_string_refl, same_string→≡, comes_before_trans, IsBehind, comes_before-IsBehind,
  comes_before_total,
}

-- Into a sorted list, unless the string is there.
unfoldable pub put : String → List String → List String
put s [] = s ∷ []
put s (t ∷ ts) =
    if same_string s t then t ∷ ts else if comes_before s t then s ∷ t ∷ ts else t ∷ put s ts

pub put_behind : (s x : String) (xs : List String) → IsBehind s x → put s (x ∷ xs) ≡ x ∷ put s xs
unfolding put
put_behind s x xs b = let d = b.different in let l = b.later in rw (d, l) refl

before-different : (s x : String) → comes_before s x ≡ true → same_string s x ≡ false
before-different s x h = elim (Bool-cases (same_string s x)) [
  | inr d ↦ d
  | inl same ↦
      let e = same_string→≡ s x same in
      let behind = comes_before-IsBehind s x h in
      let no : same_string s s ≡ false =
        subst (λ y. same_string y s ≡ false) (sym e) behind.different in
      let yes = same_string_refl s in absurd (ground arith)
]

pub put_before :
    (s x : String) (xs : List String) → comes_before s x ≡ true → put s (x ∷ xs) ≡ s ∷ x ∷ xs
unfolding put
put_before s x xs h = let d : same_string s x ≡ false = before-different s x h in rw (d, h) refl

-- What the last string that the loop kept has to do with the next.
abbrev pub LastBefore : Option String → String → Type 0
LastBefore none s = Unit
LastBefore (some last) s = comes_before last s ≡ true

nodup_keeps :
    (last : Option String) (s : String) (ss : List String)
    → LastBefore last s
    → nodup_from last (s ∷ ss) ≡ s ∷ nodup_from (some s) ss
unfolding nodup_from
nodup_keeps none s ss h = refl
nodup_keeps (some last) s ss h =
    let b = comes_before-IsBehind last s h in let d = b.different in rw d refl

nodup_drops :
    (last s : String) (ss : List String)
    → same_string s last ≡ true
    → nodup_from (some last) (s ∷ ss) ≡ nodup_from (some last) ss
unfolding nodup_from
nodup_drops last s ss h = rw h refl

LastBefore-trans :
    (last : Option String) (s t : String)
    → LastBefore last s
    → comes_before s t ≡ true
    → LastBefore last t
LastBefore-trans none s t h k = tt
LastBefore-trans (some last) s t h k = comes_before_trans last s t h k

-- The loop drops a string, or keeps it.
nodup_cases :
    (last : Option String) (t : String)
    → ((ts : List String) → nodup_from last (t ∷ ts) ≡ nodup_from last ts)
      ⊎ ((ts : List String) → nodup_from last (t ∷ ts) ≡ t ∷ nodup_from (some t) ts)
unfolding nodup_from
nodup_cases none t = inr (λ ts. refl)
nodup_cases (some last) t = elim (Bool-cases (same_string t last)) [
  | inl same ↦ inl (λ ts. rw same refl)
  | inr different ↦ inr (λ ts. rw different refl)
]

put_same : (s : String) (xs : List String) → put s (s ∷ xs) ≡ s ∷ xs
unfolding put
put_same s xs = rw (same_string_refl s) refl

pub put_equal : (s v : String) (xs : List String) → same_string s v ≡ true → put s (v ∷ xs) ≡ v ∷ xs
unfolding put
put_equal s v xs h = rw h refl

nothing_kept :
    (last : Option String) (s : String) → s ∷ nodup_from (some s) [] ≡ put s (nodup_from last [])
unfolding put nodup_from
nothing_kept none s = refl
nothing_kept (some last) s = refl

nodup_late :
    (last : Option String) (s t : String) (ts : List String)
    → LastBefore last s
    → comes_before t s ≡ false
    → nodup_from last (s ∷ t ∷ ts) ≡ put s (nodup_from last (t ∷ ts))
nodup_late last s t ts h late =
    nodup_keeps last s (t ∷ ts) h ∙ elim (Bool-cases (same_string t s)) [
      | inl same ↦
          subst (λ u. s ∷ nodup_from (some s) (u ∷ ts) ≡ put s (nodup_from last (u ∷ ts)))
            (sym (same_string→≡ t s same))
            (ap (◌∷◌ s) (nodup_drops s s ts (same_string_refl s))
              ∙ sym (put_same s (nodup_from (some s) ts))
              ∙ ap (put s) (sym (nodup_keeps last s ts h)))
      | inr different ↦
          let before = comes_before_total t s different late in
          ap (◌∷◌ s) (nodup_keeps (some s) t ts before)
          ∙ sym (put_before s t (nodup_from (some t) ts) before)
          ∙ ap (put s) (sym (nodup_keeps last t ts (LastBefore-trans last s t h before)))
    ]

pub nodup-insert_sorted :
    (last : Option String) (s : String) (xs : List String)
    → LastBefore last s
    → nodup_from last (insert_sorted s xs) ≡ put s (nodup_from last xs)
unfolding insert_sorted
nodup-insert_sorted last s [] h = nodup_keeps last s [] h ∙ nothing_kept last s
nodup-insert_sorted last s (t ∷ ts) h = elim (Bool-cases (comes_before t s)) [
  | inr late ↦ rw late (nodup_late last s t ts h late)
  | inl earlier ↦ rw earlier (elim (nodup_cases last t) [
    | inl drops ↦
        drops (insert_sorted s ts) ∙ nodup-insert_sorted last s ts h ∙ ap (put s) (sym (drops ts))
    | inr keeps ↦
        keeps (insert_sorted s ts)
        ∙ ap (◌∷◌ t) (nodup-insert_sorted (some t) s ts earlier)
        ∙ sym (put_behind s t (nodup_from (some t) ts) (comes_before-IsBehind t s earlier))
        ∙ ap (put s) (sym (keeps ts))
  ])
]
