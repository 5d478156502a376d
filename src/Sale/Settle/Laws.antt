-- ===== src/Sale/Settle/Laws.antt =====
-- The stock at the cancelling and at the deletion of a sale of src/sale/sale.service.ts.
use accurack_software_backen.Common.{
  ℕ, String, true, List, [], ◌∷◌, ◌≡◌, ◌≢◌, refl, sym, ap, subst, ◌∙◌, map, Memᴰ, arith, any,
  nat_eq, false, Option, none, some, Bool-cases, inl, inr, eq_iff, Mem_of_any,
}
use accurack_software_backen.Effect.{
  Error, Result, ok, err, Action, ◌>>◌, query, or_throw, for_each, not_found,
}
use accurack_software_backen.Effect.Laws.{
  >>=-eq-ok, write-eq-ok, query-eq-ok, or_throw-eq-ok, for_each-cons, >>=-relates_where, >>=_of_ok,
}
use accurack_software_backen.Prisma.{Prisma, update_rows}
use accurack_software_backen.Sale.Tables.{
  Amounts, Product, Customer, Sale, SaleItem, SaleItemDto, CreateSaleDto, Db,
}
use accurack_software_backen.Sale.Stock.{
  increment, has_id, add_all, add_all-nil, add_all-cons, add_all-take_all,
}
use accurack_software_backen.Sale.Create.{create_sale, item_row}
use accurack_software_backen.Sale.Create.Laws.{movements, create_sale-products}
use accurack_software_backen.Sale.Keeps.{
  KeepsStock, >>=-KeepsStock, write-KeepsStock, with_sales-products, with_balance_sheets-products,
  with_products-eq-ok,
}
use accurack_software_backen.Sale.Settle.{
  increment_stock, restore_item, mark_cancelled, clear_sheets, cancel_sale, restore_by_plu,
  delete_with, delete_rows, delete_found, delete_or_throw, delete_sale, find_sale, items_of,
  of_sale,
}

module _ {N : Type 0} (n : Amounts N) (p : Prisma) (now : ℕ) where
  pub increment_stock-products :
      (id : String) (quantity : ℕ) (s s' : Db N)
      → increment_stock n p now id quantity s ≡ ok s'
      → s'.products ≡ update_rows (has_id id) (increment quantity) s.products
  increment_stock-products id quantity s s' h =
      p.update-ok (has_id id) (increment quantity) s.products s'.products
        (with_products-eq-ok _ s s' h)

  clear_sheets-KeepsStock : (sale_id : ℕ) → KeepsStock (clear_sheets n p now sale_id)
  clear_sheets-KeepsStock sale_id = write-KeepsStock _ (λ s s'. with_balance_sheets-products _ s s')

  finish-KeepsStock :
      (sale_id : ℕ) → KeepsStock (mark_cancelled n p now sale_id >> clear_sheets n p now sale_id)
  finish-KeepsStock sale_id =
      >>=-KeepsStock (mark_cancelled n p now sale_id) _
        (write-KeepsStock _ (λ s s'. with_sales-products _ s s'))
        (λ u. clear_sheets-KeepsStock sale_id)

  -- The items of a sale as `createSale` records them.
  module _ (times : ℕ → ℕ) (sale_id : ℕ) where
    restore_items-products :
        (items : List (SaleItemDto N)) (s s' : Db N) (u : Unit {0})
        → for_each (restore_item n p now) (map (item_row n p times sale_id) items) s ≡ (ok u, s')
        → s'.products ≡ add_all (movements items) s.products
    unfolding for_each
    restore_items-products [] s s' u h =
        ap (λ (o : Result (Unit {0}) × Db N). o.1.products) (sym h) ∙ sym (add_all-nil s.products)
    restore_items-products (i ∷ items) s s' u h =
        let (v, t, first, rest) =
          for_each-cons (restore_item n p now) (item_row n p times sale_id i)
            (map (item_row n p times sale_id) items) s s' u h in
        let restored =
          increment_stock-products i.product_id i.quantity s t
            (write-eq-ok (increment_stock n p now i.product_id i.quantity) s t v first) in
        restore_items-products items t s' u rest
        ∙ (ap (add_all (movements items)) restored
            ∙ add_all-cons i.product_id i.quantity (movements items) s.products)

    cancel_sale-products :
        (items : List (SaleItemDto N)) (s s' : Db N) (u : Unit {0})
        → cancel_sale n p now sale_id (map (item_row n p times sale_id) items) s ≡ (ok u, s')
        → s'.products ≡ add_all (movements items) s.products
    unfolding cancel_sale
    cancel_sale-products items s s' u h =
        let rows = map (item_row n p times sale_id) items in
        let ran = p.transaction-ok _ s s' u h in
        let (v, t, restored, rest) =
          >>=-eq-ok (for_each (restore_item n p now) rows)
            (λ _. mark_cancelled n p now sale_id >> clear_sheets n p now sale_id) s s' u ran in
        (finish-KeepsStock sale_id).products t s' u rest
        ∙ restore_items-products items s t v restored

  -- Making a sale and cancelling it, with nothing in between that moves the stock, leaves the stock as
  -- it was: the items that are put back are the ones that the sale recorded.
  pub cancel_sale-create_sale :
      (times : ℕ → ℕ) (dto : CreateSaleDto N) (user_id : String) (db db1 db2 db3 : Db N)
      (s : Sale N) (c : Customer) (u : Unit {0})
      → create_sale n p times dto user_id db ≡ (ok (s, c), db1)
      → db2.products ≡ db1.products
      → cancel_sale n p now s.id (map (item_row n p times s.id) dto.sale_items) db2 ≡ (ok u, db3)
      → db3.products ≡ db.products
  cancel_sale-create_sale times dto user_id db db1 db2 db3 s c u made between undone =
      cancel_sale-products times s.id dto.sale_items db2 db3 u undone
      ∙ (ap (add_all (movements dto.sale_items))
            (between ∙ create_sale-products n p times dto user_id db db1 (s, c) made)
          ∙ add_all-take_all (movements dto.sale_items) db.products)

  any-increment :
      (k id : String) (quantity : ℕ) (t : List (Product N))
      → any (has_id k) (update_rows (has_id id) (increment quantity) t) ≡ any (has_id k) t
  any-increment k id quantity [] = refl
  any-increment k id quantity (x ∷ t) = ground (arith, any-increment k id quantity t)

  -- Each pass of the restoring loop finds its product, among the products of the start.
  restore_by_plu-found :
      (i : SaleItem N) (items : List (SaleItem N)) (s s' : Db N) (u : Unit {0})
      → for_each (restore_by_plu n p now) items s ≡ (ok u, s')
      → Memᴰ i items
      → any (has_id i.plu_upc) s.products ≡ true
  restore_by_plu-found i [] s s' u h m = elim m [ ]
  restore_by_plu-found i (j ∷ items) s s' u h m =
      let (v, t, first, rest) = for_each-cons (restore_by_plu n p now) j items s s' u h in
      let written = write-eq-ok (increment_stock n p now j.plu_upc j.quantity) s t v first in
      found t m (increment_stock-products j.plu_upc j.quantity s t written)
        (p.update-found (has_id j.plu_upc) (increment j.quantity) s.products t.products
          (with_products-eq-ok _ s t written))
        (restore_by_plu-found i items t s' u rest)
    where
      found :
          (t : Db N)
          → Memᴰ i (j ∷ items)
          → t.products ≡ update_rows (has_id j.plu_upc) (increment j.quantity) s.products
          → any (has_id j.plu_upc) s.products ≡ true
          → (Memᴰ i items → any (has_id i.plu_upc) t.products ≡ true)
          → any (has_id i.plu_upc) s.products ≡ true
      found t (Memᴰ.head same) moved here later =
          subst (λ (k : SaleItem N). any (has_id k.plu_upc) s.products ≡ true) (sym same) here
      found t (Memᴰ.tail m') moved here later =
          sym (any-increment i.plu_upc j.plu_upc j.quantity s.products)
          ∙ (ap (any (has_id i.plu_upc)) (sym moved) ∙ later m')

  delete_sale-never :
      (sale_id : ℕ) (i : SaleItem N) (db db' : Db N)
      → Memᴰ i db.sale_items
      → nat_eq i.sale_id sale_id ≡ true
      → any (has_id i.plu_upc) db.products ≡ false
      → delete_sale n p now sale_id db ≢ (ok tt, db')
  unfolding delete_sale
  delete_sale-never sale_id i db db' m mine absent h =
      let (o, s1, asked, h1) =
        >>=-eq-ok (query (find_sale n p now sale_id)) (delete_or_throw n p now sale_id) db db' tt
          h in
      let (_, at1) = query-eq-ok (find_sale n p now sale_id) db s1 o asked in
      let (x, s2, there, h2) =
        >>=-eq-ok (or_throw o (not_found "Sale not found")) (delete_found n p now sale_id) s1 db' tt
          h1 in
      let (_, at2) = or_throw-eq-ok o (not_found "Sale not found") s1 s2 x there in
      let (items, s3, read, h3) =
        >>=-eq-ok (query (items_of n p now sale_id))
          (λ is. p.transaction (delete_with n p now sale_id is)) s2 db' tt h2 in
      let (got, at3) = query-eq-ok (items_of n p now sale_id) s2 s3 items read in
      let at_start : s3 ≡ db = at3 ∙ (at2 ∙ at1) in
      let listed =
        p.find_many-complete (of_sale sale_id) db.sale_items items i
          (subst (λ (d : Db N). items_of n p now sale_id d ≡ ok items) (at2 ∙ at1) got) m mine in
      let (v, s4, restored, h4) =
        >>=-eq-ok (for_each (restore_by_plu n p now) items) (λ _. delete_rows n p now sale_id) s3
          db' tt (p.transaction-ok (delete_with n p now sale_id items) s3 db' tt h3) in
      let present = restore_by_plu-found i items s3 s4 v restored listed in
      cc (present, absent, ap (λ (d : Db N). any (has_id i.plu_upc) d.products) at_start)

  then_quiet : (s t u : Db N) → t ≡ s → u ≡ t → u ≡ s
  then_quiet s t u h k = k ∙ h

  or_throw-quiet : {A : Type 0} (o : Option A) (e : Error) (s : Db N) → (or_throw o e s).1 ≡ s
  or_throw-quiet none e s = refl
  or_throw-quiet (some a) e s = refl

  query-quiet : {A : Type 0} (f : Db N → Result A) (s : Db N) → (query f s).1 ≡ s
  query-quiet f s = refl

  transaction-quiet :
      (f : Action (Db N) (Unit {0})) (s : Db N)
      → ((s' : Db N) → p.transaction f s ≢ (ok tt, s'))
      → (p.transaction f s).1 ≡ s
  transaction-quiet f s never = from (p.transaction f s) refl
    where
      from : (out : Result (Unit {0}) × Db N) → p.transaction f s ≡ out → out.1 ≡ s
      from (ok tt, t) h = absurd (never t h)
      from (err e, t) h = p.transaction-err f s t e h

  -- `deleteSale` looks the products of a sale up by the code of the item instead of by its product:
  -- where an item of the sale has a code that is no product's identifier, every call of it for the sale
  -- throws, and leaves the database as it was.
  pub delete_sale_fails :
      (sale_id : ℕ) (i : SaleItem N) (db : Db N)
      → Memᴰ i db.sale_items
      → i.sale_id ≡ sale_id
      → ((x : Product N) → Memᴰ x db.products → x.id ≢ i.plu_upc)
      → (e : Error) × (delete_sale n p now sale_id db ≡ (err e, db))
  unfolding delete_sale
  delete_sale_fails sale_id i db m mine' absent' =
      thrown (delete_sale n p now sale_id db) refl still
    where
      mine : nat_eq i.sale_id sale_id ≡ true
      mine = ground arith

      absent : any (has_id i.plu_upc) db.products ≡ false
      absent = elim (Bool-cases (any (has_id i.plu_upc) db.products)) [
        | inl h ↦
            let (x, mx, same) = Mem_of_any (has_id i.plu_upc) db.products h in
            absurd (absent' x mx ((eq_iff x.id i.plu_upc).0 same))
        | inr h ↦ h
      ]

      thrown :
          (out : Result (Unit {0}) × Db N)
          → delete_sale n p now sale_id db ≡ out
          → out.1 ≡ db
          → (e : Error) × (out ≡ (err e, db))
      thrown (ok tt, t) h k = absurd (delete_sale-never sale_id i db t m mine absent h)
      thrown (err e, t) h k = (e, ap (λ x. (err e, x)) k)

      still : (delete_sale n p now sale_id db).1 ≡ db
      still =
          >>=-relates_where (λ s t. t ≡ s) then_quiet (query (find_sale n p now sale_id))
            (delete_or_throw n p now sale_id) db refl
            λ o s1 asked.
              >>=-relates_where (λ s t. t ≡ s) then_quiet (or_throw o (not_found "Sale not found"))
                (delete_found n p now sale_id) s1 (or_throw-quiet o (not_found "Sale not found") s1)
                λ x s2 there.
                  >>=-relates_where (λ s t. t ≡ s) then_quiet (query (items_of n p now sale_id))
                    (λ items. p.transaction (delete_with n p now sale_id items)) s2 refl
                    λ items s3 read.
                      transaction-quiet (delete_with n p now sale_id items) s3 (λ t ran.
                        delete_sale-never sale_id i db t m mine absent (
                          >>=_of_ok (query (find_sale n p now sale_id))
                            (delete_or_throw n p now sale_id) db s1 o asked
                          ∙ (>>=_of_ok (or_throw o (not_found "Sale not found"))
                                (delete_found n p now sale_id) s1 s2 x there
                              ∙ (>>=_of_ok (query (items_of n p now sale_id))
                                    (λ is. p.transaction (delete_with n p now sale_id is)) s2 s3
                                    items read
                                  ∙ ran))))
