-- ===== src/Threads/Harness/Loaded.antt =====
-- The table of threadlab/htable.c with the test data of threadlab/testhash.c.
use cso18_labs.Base.{ℕ, ◌<◌, ◌≡◌, ◌≢◌, refl, ap, ◌∙◌, ◌⊎◌, inl, inr, none, some, List, Bool-cases}
use cso18_labs.Base.Run.{ok}
use cso18_labs.Threads.Htable.{Htable, key_eq, htable_insert}
use cso18_labs.Threads.Htable.Hash.{IsAscii}
use cso18_labs.Threads.Htable.Totals.{key_eq_refl, key_eq→eq}
use cso18_labs.Threads.Htable.Placed.{IsHtable}
use cso18_labs.Threads.Htable.Map.{view}
use cso18_labs.Threads.Htable.Insert.{IsInserted, htable_insert_lem}
use cso18_labs.Threads.Load.{test_size}

-- The test data: keys of ASCII characters, no two of them equal, and values that are no NULL.
pub record IsData (testkeys : ℕ → List ℕ) (testvals : ℕ → ℕ) : Type 0 where
  pub ascii : (i : ℕ) → i < test_size → IsAscii (testkeys i)
  pub distinct : (i j : ℕ) → i < test_size → j < test_size → testkeys i ≡ testkeys j → i ≡ j
  pub values : (i : ℕ) → i < test_size → testvals i ≢ 0

module _ (testkeys : ℕ → List ℕ) (testvals : ℕ → ℕ) (data_ : IsData testkeys testvals) where
  abbrev pub Stored : Htable → ℕ → Type 0
  Stored ht j = view ht (testkeys j) ≡ some (testvals j)

  -- A table that has no test key with the value of another.
  pub record IsLoaded (ht : Htable) : Type 0 where
    pub good : IsHtable ht
    pub faithful : (j : ℕ) → j < test_size → (view ht (testkeys j) ≡ none) ⊎ Stored ht j

  -- The table went on: it is loaded, and what was stored still is.
  pub record GoesOn (ht out : Htable) : Type 0 where
    pub loaded : IsLoaded out
    pub keeps : (j : ℕ) → j < test_size → Stored ht j → Stored out j

  pub GoesOn-trans : {a b c : Htable} → GoesOn a b → GoesOn b c → GoesOn a c
  GoesOn-trans g h = record {
    loaded = h.loaded;
    keeps = λ j small s. h.keeps j small (g.keeps j small s);
  }

  pub stay : {ht : Htable} → IsLoaded ht → GoesOn ht ht
  stay l = record { loaded = l; keeps = λ j small s. s }

  added-entry :
      (ht out : Htable) (i j : ℕ)
      → i < test_size
      → j < test_size
      → IsInserted ht (testkeys i) (testvals i) out
      → Stored out j ⊎ (view out (testkeys j) ≡ view ht (testkeys j))
  added-entry ht out i j hi hj a = elim (Bool-cases (key_eq (testkeys i) (testkeys j))) [
    | inl same ↦
        let e = data_.distinct i j hi hj (key_eq→eq (testkeys i) (testkeys j) same) in
        inl (a.entries (testkeys j) ∙ rw same (ap (λ k. some (testvals k)) e))
    | inr other ↦ inr (a.entries (testkeys j) ∙ rw other refl)
  ]

  pub insert-GoesOn :
      (ht : Htable) (i : ℕ)
      → IsLoaded ht
      → i < test_size
      → (out : Htable) × (r : ℕ) × (htable_insert ht (testkeys i) (testvals i) ≡ ok (out, r))
        × GoesOn ht out
        × Stored out i
  insert-GoesOn ht i l hi =
      elim (htable_insert_lem ht (testkeys i) (testvals i) l.good (data_.ascii i hi)) [
        | inl (w, held, runs) ↦ (ht, 1, runs, stay l, already (l.faithful i hi) held)
        | inr (new, (out, runs, a)) ↦ (
          out,
          0,
          runs,
          record {
            loaded = record {
              good = a.good;
              faithful = λ j hj. entry out j hj (added-entry ht out i j hi hj a) (l.faithful j hj);
            };
            keeps = λ j hj s. kept out j (added-entry ht out i j hi hj a) s;
          },
          a.entries (testkeys i) ∙ rw (key_eq_refl (testkeys i)) refl,
        )
      ]
    where
      already :
          {w : ℕ}
          → (view ht (testkeys i) ≡ none) ⊎ Stored ht i
          → view ht (testkeys i) ≡ some w
          → Stored ht i
      already (inl gone) held = absurd cc
      already (inr s) held = s

      entry :
          (out : Htable) (j : ℕ)
          → j < test_size
          → Stored out j ⊎ (view out (testkeys j) ≡ view ht (testkeys j))
          → (view ht (testkeys j) ≡ none) ⊎ Stored ht j
          → (view out (testkeys j) ≡ none) ⊎ Stored out j
      entry out j hj (inl s) old = inr s
      entry out j hj (inr e) (inl gone) = inl (e ∙ gone)
      entry out j hj (inr e) (inr s) = inr (e ∙ s)

      kept :
          (out : Htable) (j : ℕ)
          → Stored out j ⊎ (view out (testkeys j) ≡ view ht (testkeys j))
          → Stored ht j
          → Stored out j
      kept out j (inl s) old = s
      kept out j (inr e) old = e ∙ old
