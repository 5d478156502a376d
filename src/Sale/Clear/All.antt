-- ===== src/Sale/Clear/All.antt =====
-- What `deleteAllSales` of src/sale/sale.service.ts leaves, from the count of the sales to the uploads.
use accurack_software_backen.Common.{
  ℕ, String, Bool, true, Option, none, some, List, [], ◌∷◌, ◌≡◌, refl, sym, ap, subst, ◌∙◌, length,
  keep, nat_eq, ◌==◌, ◌&&◌, Bool-cases, inl, inr, arith,
}
use accurack_software_backen.Effect.{Result, ok, err, ◌>>◌, query, write, throw_if, not_found}
use accurack_software_backen.Effect.Laws.{>>=-eq-ok, query-eq-ok, write-eq-ok, throw_if-eq-ok}
use accurack_software_backen.Prisma.{Prisma}
use accurack_software_backen.Prisma.Reads.{map_result-eq-ok}
use accurack_software_backen.Sale.Tables.{Sale, Db}
use accurack_software_backen.Sale.Clear.{
  of_store, swallowed, count_sales, delete_batches, delete_uploads, clean_uploads, delete_counted,
  delete_all_sales,
}
use accurack_software_backen.Sale.Clear.Ends.{delete_batches_ends}
use accurack_software_backen.Sale.Clear.Laws.{UniqueSales, Cleared, left}
use accurack_software_backen.Sale.Clear.Loop.{delete_batches-Cleared}

module _ {N : Type 0} (p : Prisma) (store_id : String) where
  uploads-Cleared :
      (s t s' : Db N) (u : Unit {0})
      → Cleared store_id s t
      → clean_uploads p store_id t ≡ (ok u, s')
      → Cleared store_id s s'
  unfolding clean_uploads
  uploads-Cleared s t s' u c h = from (p.transaction (write (delete_uploads p store_id)) t) refl h
    where
      kept : (w : Db N) → delete_uploads p store_id t ≡ ok w → Cleared store_id s w
      kept w e =
          let (l, _, same) =
            map_result-eq-ok (λ x. record t { file_uploads = x })
              (p.delete_many (λ z. z == store_id) t.file_uploads) w e in
          subst (Cleared store_id s) same (record {
            gone = c.gone;
            others = c.others;
            products = c.products;
            customers = c.customers;
          })

      from :
          (o : Result (Unit {0}) × Db N)
          → p.transaction (write (delete_uploads p store_id)) t ≡ o
          → swallowed o ≡ (ok u, s')
          → Cleared store_id s s'
      from (ok a, w) e h =
          subst (Cleared store_id s) (ap (λ (o : Result (Unit {0}) × Db N). o.1) h) (
            kept w (
              write-eq-ok (delete_uploads p store_id) t w a
                (p.transaction-ok (write (delete_uploads p store_id)) t w a e)))
      from (err x, w) e h =
          let back : w ≡ t = p.transaction-err (write (delete_uploads p store_id)) t w x e in
          subst (Cleared store_id s) (sym back ∙ ap (λ (o : Result (Unit {0}) × Db N). o.1) h) c

  counted_first :
      (s : Db N) (total : ℕ) → count_sales p store_id s ≡ ok total → left p store_id s.sales ≡ total
  counted_first s total h =
      let (rows, found, same) =
        map_result-eq-ok length (p.find_many (of_store store_id) s.sales) total h in
      let counts = p.find_many-count (of_store store_id) (λ x. true) s.sales rows found in
      ap length (sym (always (of_store store_id) s.sales))
      ∙ sym counts
      ∙ ap length (all rows)
      ∙ same
    where
      always : (q : Sale N → Bool) (t : List (Sale N)) → keep (λ x. q x && true) t ≡ keep q t
      always q [] = refl
      always q (x ∷ t) = elim (Bool-cases (q x)) [
        | inl h ↦ rw (h, always q t) refl
        | inr h ↦ rw h (always q t)
      ]

      all : (t : List (Sale N)) → keep (λ x. true) t ≡ t
      all [] = refl
      all (x ∷ t) = ap (λ l. x ∷ l) (all t)

  -- Deleting all sales of a store that returns leaves no sale of the store, and every sale of another
  -- store; products, and so the stock, and customers are as they were. Identifiers of sales are unique.
  pub delete_all_sales-Cleared :
      (s s' : Db N) (u : Unit {0})
      → UniqueSales s.sales
      → delete_all_sales p store_id s ≡ (ok u, s')
      → Cleared store_id s s'
  unfolding delete_all_sales
  delete_all_sales-Cleared s s' u unique h =
      let (total, s1, asked, rest) =
        >>=-eq-ok (query (count_sales p store_id)) (delete_counted p store_id) s s' u h in
      let (answer, at1) = query-eq-ok (count_sales p store_id) s s1 total asked in
      let (v, s2, passed, later) =
        >>=-eq-ok (throw_if (nat_eq total 0) (not_found "No sales found for this store."))
          (λ _. delete_batches p total store_id total 0 >> clean_uploads p store_id) s1 s' u rest in
      let (_, at2) =
        throw_if-eq-ok (nat_eq total 0) (not_found "No sales found for this store.") s1 s2 v
          passed in
      let (out, t, looped, cleaned) =
        >>=-eq-ok (delete_batches p total store_id total 0) (λ _. clean_uploads p store_id) s2 s' u
          later in
      uploads-Cleared s t s' u
        (from out
          (subst (λ x. delete_batches p total store_id total 0 x ≡ (ok out, t)) (at2 ∙ at1) looped)
          (counted_first s total answer))
        cleaned
    where
      from :
          {t : Db N} (out : Option ℕ) {total : ℕ}
          → delete_batches p total store_id total 0 s ≡ (ok out, t)
          → left p store_id s.sales ≡ total
          → Cleared store_id s t
      from {t} none {total} e c =
          absurd (delete_batches_ends p total total 0 store_id s t (omega arith) e)
      from {t} (some k) {total} e c =
          delete_batches-Cleared N p store_id total total 0 k s t unique (omega arith) e
