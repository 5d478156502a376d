-- ===== src/Sale/Clear/Laws.antt =====
-- What `deleteAllSales` of src/sale/sale.service.ts leaves.
use accurack_software_backen.Common.{
  ℕ, ◌≤◌, String, Bool, true, false, not, List, [], ◌∷◌, ◌≡◌, refl, sym, ap, subst, ◌∙◌, length,
  take, keep, map, Memᴰ, Bool-cases, inl, inr, arith, ◌&&◌,
}
use accurack_software_backen.Effect.{Result, ok, err, Action, ◌>>◌, write}
use accurack_software_backen.Effect.Laws.{>>=-eq-ok, write-eq-ok}
use accurack_software_backen.Prisma.{Prisma}
use accurack_software_backen.Prisma.Reads.{map_result-eq-ok}
use accurack_software_backen.Sale.Tables.{Sale, Db}
use accurack_software_backen.Sale.Clear.{
  of_store, sale_in, as_failed_batch, delete_items, delete_invoices, delete_sheets,
  delete_adjustments, delete_returns, delete_sales, delete_related, delete_batch, cleared,
}
use accurack_software_backen.Sale.Clear.Counts.{Mem-keep, keep-Mem}

module _ {N : Type 0} where
  abbrev pub UniqueSales : List (Sale N) → Type 0
  UniqueSales t = (x y : Sale N) → Memᴰ x t → Memᴰ y t → x.id ≡ y.id → x ≡ y

  -- No sale of the store is left, every other sale is, and products and customers are as they were.
  pub record Cleared (store_id : String) (s s' : Db N) : Type 0 where
    pub gone : (x : Sale N) → Memᴰ x s'.sales → of_store store_id x ≡ false
    pub others : (x : Sale N) → Memᴰ x s.sales → of_store store_id x ≡ false → Memᴰ x s'.sales
    pub products : s'.products ≡ s.products
    pub customers : s'.customers ≡ s.customers

  -- The tables that a deletion of related rows leaves alone.
  record Beside (s t : Db N) : Type 0 where
    sales : t.sales ≡ s.sales
    products : t.products ≡ s.products
    customers : t.customers ≡ s.customers

  Beside-trans : (s t w : Db N) → Beside s t → Beside t w → Beside s w
  Beside-trans s t w h k = record {
    sales = k.sales ∙ h.sales;
    products = k.products ∙ h.products;
    customers = k.customers ∙ h.customers;
  }

  cleared-Beside :
      {T : Type 0} (put_back : T → Db N) (r : Result T) (s t : Db N)
      → ((x : T) → Beside s (put_back x))
      → cleared put_back r ≡ ok t
      → Beside s t
  cleared-Beside put_back r s t k h =
      let (x, _, e) = map_result-eq-ok put_back r t h in subst (Beside s) e (k x)

module _ {N : Type 0} (p : Prisma) where
  write-Beside :
      (f : Db N → Result (Db N)) (s t : Db N) (u : Unit {0})
      → ((a b : Db N) → f a ≡ ok b → Beside a b)
      → write f s ≡ (ok u, t)
      → Beside s t
  write-Beside f s t u k h = k s t (write-eq-ok f s t u h)

  >>-Beside :
      (m k : Action (Db N) (Unit {0}))
      → ((s t : Db N) (u : Unit {0}) → m s ≡ (ok u, t) → Beside s t)
      → ((s t : Db N) (u : Unit {0}) → k s ≡ (ok u, t) → Beside s t)
      → (s t : Db N) (u : Unit {0}) → (m >> k) s ≡ (ok u, t)
      → Beside s t
  >>-Beside m k f g s t u h =
      let (v, w, first, rest) = >>=-eq-ok m (λ _. k) s t u h in
      Beside-trans s w t (f s w v first) (g w t u rest)

  delete_related-Beside :
      (ids : List ℕ) (s t : Db N) (u : Unit {0}) → delete_related p ids s ≡ (ok u, t) → Beside s t
  unfolding delete_related
  delete_related-Beside ids =
      >>-Beside
        (write (delete_items p ids)
          >> write (delete_invoices p ids)
          >> write (delete_sheets p ids)
          >> write (delete_adjustments p ids))
        (write (delete_returns p ids))
        (>>-Beside
          (write (delete_items p ids)
            >> write (delete_invoices p ids)
            >> write (delete_sheets p ids))
          (write (delete_adjustments p ids))
          (>>-Beside (write (delete_items p ids) >> write (delete_invoices p ids))
            (write (delete_sheets p ids))
            (>>-Beside (write (delete_items p ids)) (write (delete_invoices p ids))
              (λ s t u. write-Beside (delete_items p ids) s t u λ a b.
                cleared-Beside (λ x. record a { sale_items = x }) _ a b
                  (λ x. record { sales = refl; products = refl; customers = refl }))
              (λ s t u. write-Beside (delete_invoices p ids) s t u λ a b.
                cleared-Beside (λ x. record a { invoices = x }) _ a b
                  (λ x. record { sales = refl; products = refl; customers = refl })))
            (λ s t u. write-Beside (delete_sheets p ids) s t u λ a b.
              cleared-Beside (λ x. record a { balance_sheets = x }) _ a b
                (λ x. record { sales = refl; products = refl; customers = refl })))
          (λ s t u. write-Beside (delete_adjustments p ids) s t u λ a b.
            cleared-Beside (λ x. record a { sale_adjustments = x }) _ a b
              (λ x. record { sales = refl; products = refl; customers = refl })))
        (λ s t u. write-Beside (delete_returns p ids) s t u λ a b.
          cleared-Beside (λ x. record a { sale_returns = x }) _ a b
            (λ x. record { sales = refl; products = refl; customers = refl }))

  -- A batch that returned has deleted the sales of its identifiers.
  pub record Deleted (ids : List ℕ) (s t : Db N) : Type 0 where
    pub sales : t.sales ≡ keep (λ x. not (sale_in ids x)) s.sales
    pub products : t.products ≡ s.products
    pub customers : t.customers ≡ s.customers

  pub delete_batch-Deleted :
      (ids : List ℕ) (s t : Db N) (u : Unit {0})
      → delete_batch p ids s ≡ (ok u, t)
      → Deleted ids s t
  unfolding delete_batch
  delete_batch-Deleted ids s t u h =
      let body = delete_related p ids >> write (delete_sales p ids) in
      let ran = p.transaction-ok body s t u (caught (p.transaction body s) h) in
      let (v, w, first, rest) =
        >>=-eq-ok (delete_related p ids) (λ _. write (delete_sales p ids)) s t u ran in
      let b = delete_related-Beside ids s w v first in
      let (l, answer, e) =
        map_result-eq-ok (λ x. record w { sales = x }) (p.delete_many (sale_in ids) w.sales) t
          (write-eq-ok (delete_sales p ids) w t u rest) in
      record {
        sales =
            ap (λ (d : Db N). d.sales) (sym e)
            ∙ p.delete_many-ok (sale_in ids) w.sales l answer
            ∙ ap (keep (λ x. not (sale_in ids x))) b.sales;
        products = ap (λ (d : Db N). d.products) (sym e) ∙ b.products;
        customers = ap (λ (d : Db N). d.customers) (sym e) ∙ b.customers;
      }
    where
      caught : (o : Result (Unit {0}) × Db N) → as_failed_batch o ≡ (ok u, t) → o ≡ (ok u, t)
      caught (ok a, d) e = e
      caught (err a, d) e = cc e

  abbrev pub left : String → List (Sale N) → ℕ
  left store_id t = length (keep (of_store store_id) t)

  pub keeps_unique :
      (q : Sale N → Bool) (t : List (Sale N)) → UniqueSales t → UniqueSales (keep q t)
  keeps_unique q t u x y mx my e = u x y (Mem-keep q x t mx).0 (Mem-keep q y t my).0 e

  none_left :
      (store_id : String) (s : Db N)
      → left store_id s.sales ≤ 0
      → (x : Sale N) → Memᴰ x s.sales
      → of_store store_id x ≡ false
  none_left store_id s few x m = elim (Bool-cases (of_store store_id x)) [
    | inl h ↦
        absurd (
          filled (keep (of_store store_id) s.sales) (keep-Mem (of_store store_id) x s.sales m h)
            few)
    | inr h ↦ h
  ]
    where
      filled : (l : List (Sale N)) → Memᴰ x l → length l ≤ 0 → ⊥
      filled [] m few = elim m [ ]
      filled (y ∷ l) m few = omega arith

  pub ended : (store_id : String) (s : Db N) → left store_id s.sales ≤ 0 → Cleared store_id s s
  ended store_id s few = record {
    gone = none_left store_id s few;
    others = λ x m h. m;
    products = refl;
    customers = refl;
  }

  -- The batch that was found, and the sales that it was taken from.
  pub record Batch (store_id : String) (s : Db N) (ids : List ℕ) : Type 0 where
    pub rows : List (Sale N)
    pub found : p.find_many (of_store store_id) s.sales ≡ ok rows
    pub ids_eq : ids ≡ map (λ (x : Sale N). x.id) (take 500 rows)

  pub empty-Batch : (store_id : String) (s : Db N) → Batch store_id s [] → left store_id s.sales ≤ 0
  empty-Batch store_id s b =
      counted (empty b.rows b.ids_eq)
        (p.find_many-count (of_store store_id) (λ x. true) s.sales b.rows b.found)
    where
      empty : (rows : List (Sale N)) → [] ≡ map (λ (x : Sale N). x.id) (take 500 rows) → rows ≡ []
      empty [] e = refl
      empty (x ∷ rows) e = cc e

      always :
          (t : List (Sale N))
          → keep (λ x. of_store store_id x && true) t ≡ keep (of_store store_id) t
      always [] = refl
      always (x ∷ t) = elim (Bool-cases (of_store store_id x)) [
        | inl h ↦ rw (h, always t) refl
        | inr h ↦ rw h (always t)
      ]

      counted :
          b.rows ≡ []
          → length (keep (λ x. true) b.rows)
            ≡ length (keep (λ x. of_store store_id x && true) s.sales)
          → left store_id s.sales ≤ 0
      counted e c =
          let none_kept : length (keep (λ (x : Sale N). true) b.rows) ≡ 0 =
            ap (λ l. length (keep (λ (x : Sale N). true) l)) e in
          let all_counted = ap length (always s.sales) in omega arith
