-- ===== src/Sale/Clear/Loop.antt =====
-- What the loop of `deleteAllSales` of src/sale/sale.service.ts leaves.
use accurack_software_backen.Common.{
  ℕ, zero, suc, ◌+◌, ◌≤◌, ltb, String, true, false, not, Option, none, some, List, [], ◌∷◌, ◌≡◌,
  sym, ap, subst, ◌∙◌, length, take, keep, map, any, Memᴰ, nat_eq, Bool-cases, inl, inr, arith,
  if◌then◌else◌,
}
use accurack_software_backen.Effect.{Result, ok, ◌>>=◌, pure, query}
use accurack_software_backen.Effect.Laws.{>>=-eq-ok, query-eq-ok}
use accurack_software_backen.Prisma.{Prisma}
use accurack_software_backen.Prisma.Reads.{map_result-eq-ok}
use accurack_software_backen.Sale.Tables.{Sale, Db}
use accurack_software_backen.Sale.Clear.{
  of_store, sale_in, ids_of, find_batch, delete_batch, go_on, delete_batches,
}
use accurack_software_backen.Sale.Clear.Counts.{removed, keep-Mem, Mem-take, among-Mem, length-map}
use accurack_software_backen.Sale.Clear.Laws.{
  UniqueSales, Cleared, Deleted, delete_batch-Deleted, left, keeps_unique, ended, Batch,
  empty-Batch,
}

module _ {N : Type 0} (p : Prisma) (store_id : String) where
  Cleared-after :
      (ids : List ℕ) (s t s' : Db N)
      → UniqueSales s.sales
      → Batch p store_id s ids
      → Deleted p ids s t
      → Cleared store_id t s'
      → Cleared store_id s s'
  Cleared-after ids s t s' unique b d c = record {
    gone = c.gone;
    others = λ x m h.
        c.others x
          (subst (Memᴰ x) (sym d.sales)
            (keep-Mem (λ y. not (sale_in ids y)) x s.sales m (ap not (apart x m h))))
          h;
    products = c.products ∙ d.products;
    customers = c.customers ∙ d.customers;
  }
    where
      own : (y : Sale N) → Memᴰ y (take 500 b.rows) → Memᴰ y s.sales × (of_store store_id y ≡ true)
      own y m =
          p.find_many-sound (of_store store_id) s.sales b.rows y b.found (Mem-take 500 y b.rows m)

      apart : (x : Sale N) → Memᴰ x s.sales → of_store store_id x ≡ false → sale_in ids x ≡ false
      apart x m h = elim (Bool-cases (sale_in ids x)) [
        | inl e ↦
            let (y, my, same) =
              among-Mem (λ (z : Sale N). z.id) x.id (take 500 b.rows)
                (ap (λ l. any (nat_eq x.id) l) (sym b.ids_eq) ∙ e) in
            let (ms, mine) = own y my in let met : x ≡ y = unique x y m ms same in cc (h, mine, met)
        | inr e ↦ e
      ]

  fewer :
      (ids : List ℕ) (s t : Db N)
      → Batch p store_id s ids
      → Deleted p ids s t
      → left p store_id t.sales + length ids ≤ left p store_id s.sales
  fewer ids s t b d =
      let batch = take 500 b.rows in
      let least =
        removed (of_store store_id) (λ (z : Sale N). z.id) 500 b.rows s.sales
          (λ test. p.find_many-count (of_store store_id) test s.sales b.rows b.found) in
      let many : length ids ≡ length batch =
        ap length b.ids_eq ∙ length-map (λ (z : Sale N). z.id) batch in
      let rest : t.sales
          ≡ keep (λ r. not (any (nat_eq r.id) (map (λ (z : Sale N). z.id) batch))) s.sales =
        d.sales ∙ ap (λ l. keep (λ r. not (any (nat_eq r.id) l)) s.sales) b.ids_eq in
      let same = ap (left p store_id) rest in omega arith

module _ (N : Type 0) (p : Prisma) (store_id : String) where
  abbrev pub LoopClears : ℕ → ℕ → Type 0
  LoopClears fuel total =
      (processed n : ℕ) (s s' : Db N)
      → UniqueSales s.sales
      → processed + left p store_id s.sales ≤ total
      → delete_batches p fuel store_id total processed s ≡ (ok (some n), s')
      → Cleared store_id s s'

  finished :
      (total processed n : ℕ) (s s' : Db N)
      → processed + left p store_id s.sales ≤ total
      → ltb processed total ≡ false
      → pure (some processed) s ≡ (ok (some n), s')
      → Cleared store_id s s'
  finished total processed n s s' few done h =
      subst (Cleared store_id s) (ap (λ (o : Result (Option ℕ) × Db N). o.1) h)
        (ended p store_id s (ground arith))

  go_on-Cleared :
      (fuel total processed n : ℕ) (ids : List ℕ) (s s' : Db N)
      → LoopClears fuel total
      → UniqueSales s.sales
      → processed + left p store_id s.sales ≤ total
      → Batch p store_id s ids
      → go_on p (delete_batches p fuel store_id total) processed ids s ≡ (ok (some n), s')
      → Cleared store_id s s'
  go_on-Cleared fuel total processed n [] s s' loop unique few b h =
      subst (Cleared store_id s) (ap (λ (o : Result (Option ℕ) × Db N). o.1) h)
        (ended p store_id s (empty-Batch p store_id s b))
  go_on-Cleared fuel total processed n (id ∷ ids) s s' loop unique few b h =
      let (u, t, first, rest) =
        >>=-eq-ok (delete_batch p (id ∷ ids))
          (λ _. delete_batches p fuel store_id total (processed + length (id ∷ ids))) s s' (some n)
          h in
      let d = delete_batch-Deleted p (id ∷ ids) s t u first in
      let less = fewer p store_id (id ∷ ids) s t b d in
      Cleared-after p store_id (id ∷ ids) s t s' unique b d (
        loop (processed + length (id ∷ ids)) n t s'
          (subst UniqueSales (sym d.sales)
            (keeps_unique p (λ x. not (sale_in (id ∷ ids) x)) s.sales unique))
          (enough (length (id ∷ ids)) (left p store_id t.sales) (left p store_id s.sales) less few)
          rest)
    where
      enough : (k l m : ℕ) → l + k ≤ m → processed + m ≤ total → processed + k + l ≤ total
      enough k l m a b = omega arith

  pub delete_batches-Cleared : (total fuel : ℕ) → LoopClears fuel total
  unfolding delete_batches
  delete_batches-Cleared total zero processed n s s' unique few h =
      elim (Bool-cases (ltb processed total)) [
        | inl e ↦ absurd (
            out (
              subst (λ b. (if b then pure none else pure (some processed)) s ≡ (ok (some n), s')) e
                h))
        | inr e ↦ finished total processed n s s' few e (
            subst (λ b. (if b then pure none else pure (some processed)) s ≡ (ok (some n), s')) e h)
      ]
    where
      out : pure none s ≡ (ok (some n), s') → ⊥
      out h = cc h
  delete_batches-Cleared total (suc fuel) processed n s s' unique few h =
      let next = delete_batches p fuel store_id total in
      let step = query (find_batch p store_id) >>= go_on p next processed in
      elim (Bool-cases (ltb processed total)) [
        | inl e ↦
            let (ids, t, asked, rest) =
              >>=-eq-ok (query (find_batch p store_id)) (go_on p next processed) s s' (some n) (
                subst (λ b. (if b then step else pure (some processed)) s ≡ (ok (some n), s')) e
                  h) in
            let (answer, at) = query-eq-ok (find_batch p store_id) s t ids asked in
            let (rows, found, same) =
              map_result-eq-ok (ids_of p) (p.find_many (of_store store_id) s.sales) ids answer in
            go_on-Cleared fuel total processed n ids s s' (delete_batches-Cleared total fuel) unique
              few (record { rows = rows; found = found; ids_eq = sym same })
              (subst (λ x. go_on p next processed ids x ≡ (ok (some n), s')) at rest)
        | inr e ↦
            finished total processed n s s' few e
              (subst (λ b. (if b then step else pure (some processed)) s ≡ (ok (some n), s')) e h)
      ]
