-- ===== src/Sale/Clear/Ends.antt =====
-- The fuel of the loop of `deleteAllSales` of src/sale/sale.service.ts.
use accurack_software_backen.Common.{
  ℕ, zero, suc, ◌+◌, ◌≤◌, ltb, String, true, Option, none, some, List, [], ◌∷◌, ◌≡◌, ◌≢◌, refl, ap,
  length, arith, Bool-cases, inl, inr,
}
use accurack_software_backen.Effect.{Result, ok, err, Action, ◌>>=◌, pure, query}
use accurack_software_backen.Prisma.{Prisma}
use accurack_software_backen.Sale.Tables.{Db}
use accurack_software_backen.Sale.Clear.{find_batch, delete_batch, go_on, delete_batches}

module _ {S B : Type 0} where
  -- A call that never answers `none`.
  abbrev Answers : Action S (Option B) → Type 0
  Answers m = (s : S) → (m s).0 ≢ ok none

  >>=-Answers :
      {A : Type 0} (m : Action S A) (f : A → Action S (Option B))
      → ((a : A) → Answers (f a))
      → Answers (m >>= f)
  >>=-Answers {A} m f k s = from (m s)
    where
      from :
          (o : Result A × S)
          → (elim o.0 as (λ _. Result (Option B) × S) [ ok a ↦ f a o.1 | err e ↦ (err e, o.1) ]).0
            ≢ ok none
      from (ok a, t) h = k a t h
      from (err e, t) h = cc h

  some-Answers : (b : B) → Answers (pure (some b))
  some-Answers b s h = cc h

module _ {N : Type 0} (p : Prisma) where
  go_on-Answers :
      (next : ℕ → Action (Db N) (Option ℕ)) (fuel total processed : ℕ) (ids : List ℕ)
      → ((n : ℕ) → total ≤ n + fuel → Answers (next n))
      → total ≤ processed + suc fuel
      → Answers (go_on p next processed ids)
  go_on-Answers next fuel total processed [] k few = some-Answers processed
  go_on-Answers next fuel total processed (id ∷ ids) k few =
      >>=-Answers (delete_batch p (id ∷ ids)) (λ _. next (processed + length (id ∷ ids)))
        (λ _. k (processed + length (id ∷ ids)) (grows (length (id ∷ ids)) refl))
    where
      grows : (n : ℕ) → length (id ∷ ids) ≡ n → total ≤ processed + n + fuel
      grows n e = omega arith

  delete_batches-Answers :
      (store_id : String) (total fuel processed : ℕ)
      → total ≤ processed + fuel
      → Answers (delete_batches {N = N} p fuel store_id total processed)
  unfolding delete_batches
  delete_batches-Answers store_id total zero processed few =
      elim (Bool-cases (ltb processed total)) [
        | inl h ↦ absurd (clash h)
        | inr h ↦ rw h (some-Answers processed)
      ]
    where
      clash : ltb processed total ≡ true → ⊥
      clash h = ground arith
  delete_batches-Answers store_id total (suc fuel) processed few =
      elim (Bool-cases (ltb processed total)) [
        | inl h ↦ rw h (
            >>=-Answers (query (find_batch p store_id))
              (go_on p (delete_batches p fuel store_id total) processed)
              (λ ids.
                go_on-Answers (delete_batches p fuel store_id total) fuel total processed ids
                  (λ n. delete_batches-Answers store_id total fuel n) few))
        | inr h ↦ rw h (some-Answers processed)
      ]

  -- The loop of the deletion ends with as much fuel as there are sales left to process: whatever the
  -- batches that the database answers are, each one that is not empty counts, and an empty one ends it.
  pub delete_batches_ends :
      (fuel total processed : ℕ) (store_id : String) (s s' : Db N)
      → total ≤ processed + fuel
      → delete_batches p fuel store_id total processed s ≢ (ok none, s')
  delete_batches_ends fuel total processed store_id s s' few h =
      delete_batches-Answers store_id total fuel processed few s
        (ap (λ (o : Result (Option ℕ) × Db N). o.0) h)
