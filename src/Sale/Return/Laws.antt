-- ===== src/Sale/Return/Laws.antt =====
-- What a return of src/sale/sale.service.ts that is recorded has done to the stock.
use accurack_software_backen.Common.{
  ℕ, String, true, false, some, List, [], ◌∷◌, ◌≡◌, sym, ap, subst, ◌∙◌, Memᴰ, arith, Bool-cases,
  inl, inr, nat_eq, same_text, same_text-eq,
}
use accurack_software_backen.Common.Int.{ℤ, pos, ltb_ℤ, ◌≤ℤ◌}
use accurack_software_backen.Effect.{
  Result, ok, err, ◌>>=◌, pure, query, or_throw, throw_if, for_each, bad_request, not_found,
}
use accurack_software_backen.Effect.Laws.{
  >>=-eq-ok, write-eq-ok, query-eq-ok, or_throw-eq-ok, throw_if-eq-ok, for_each-cons, for_each-ran,
}
use accurack_software_backen.Prisma.{Prisma, update_rows}
use accurack_software_backen.Prisma.Memory.{find-some}
use accurack_software_backen.Sale.Tables.{Amounts, SaleItem, BalanceSheet, SaleReturn, Db}
use accurack_software_backen.Sale.Stock.{has_id}
use accurack_software_backen.Sale.Keeps.{
  KeepsStock, >>=-KeepsStock, write-KeepsStock, pure-KeepsStock, with_balance_sheets-products,
  with_products-eq-ok,
}
use accurack_software_backen.Sale.Settle.{find_sale, items_of, of_sale, last_balance}
use accurack_software_backen.Sale.Return.{
  SaleReturnItemDto, CreateSaleReturnDto, goes_back, with_sale_returns, paid_sheet, item_of,
  return_row, add_return, find_returned, increment_found, put_back, no_product, not_sold, too_many,
  take_back, return_of, return_item, refund_sheet, add_refund, answer, refund, process, if_paid,
  with_items, for_sale, for_found, create_sale_return, restock, by_category, is_restocked,
  increment_by,
}
use accurack_software_backen.Sale.Return.Restock.{
  restock_all, restock_all-nil, restock_all-back, restock_all-kept, comes_back_if, kept_if_other,
  kept_if_none,
}

module _ {N : Type 0} (n : Amounts N) (p : Prisma) (now : ℕ) (show : ℤ → String) where
  with_sale_returns-products :
      (r : Result (List SaleReturn)) (s s' : Db N)
      → with_sale_returns s r ≡ ok s'
      → s'.products ≡ s.products
  with_sale_returns-products (ok t) s s' h = cc
  with_sale_returns-products (err e) s s' h = cc

  add_return-KeepsStock : (r : SaleReturn) → KeepsStock (add_return n p now show r)
  add_return-KeepsStock r = write-KeepsStock _ (λ s s'. with_sale_returns-products _ s s')

  add_refund-KeepsStock : (b : BalanceSheet N) → KeepsStock (add_refund n p now show b)
  add_refund-KeepsStock b = write-KeepsStock _ (λ s s'. with_balance_sheets-products _ s s')

  restock-products :
      (i : SaleReturnItemDto N) (s s' : Db N)
      → restock n p now show i s ≡ ok s'
      → s'.products ≡ update_rows (has_id i.product_id) (increment_by i.quantity) s.products
  restock-products i s s' h =
      p.update-ok (has_id i.product_id) (increment_by i.quantity) s.products s'.products
        (with_products-eq-ok _ s s' h)

  by_category-products :
      (i : SaleReturnItemDto N) (items : List (SaleReturnItemDto N)) (s s' : Db N) (u : Unit {0})
      → goes_back i ≡ true
      → by_category n p now show i s ≡ (ok u, s')
      → restock_all items s'.products ≡ restock_all (i ∷ items) s.products
  by_category-products i items s s' u back h = elim (Bool-cases (is_restocked i.return_category)) [
    | inl e ↦
        ap (restock_all items)
          (restock-products i s s' (write-eq-ok (restock n p now show i) s s' u (rw e at h)))
        ∙ restock_all-back i items s.products (comes_back_if i back e)
    | inr e ↦
        ap (restock_all items) ((pure-KeepsStock tt).products s s' u (rw e at h))
        ∙ restock_all-kept i items s.products (kept_if_other i e)
  ]

  -- What follows an item, in terms of the stock before it.
  put_back-products :
      (i : SaleReturnItemDto N) (items : List (SaleReturnItemDto N)) (s s' : Db N) (u : Unit {0})
      → put_back n p now show i s ≡ (ok u, s')
      → restock_all items s'.products ≡ restock_all (i ∷ items) s.products
  put_back-products i items s s' u h = elim (Bool-cases (goes_back i)) [
    | inl e ↦
        let (o, t, asked, rest) =
          >>=-eq-ok (query (find_returned n p now show i.product_id))
            (increment_found n p now show i) s s' u (rw e at h) in
        let (_, at1) = query-eq-ok (find_returned n p now show i.product_id) s t o asked in
        let (x, w, there, put) =
          >>=-eq-ok (or_throw o (no_product n p now show i.product_id))
            (λ x. by_category n p now show i) t s' u rest in
        let (_, at2) = or_throw-eq-ok o (no_product n p now show i.product_id) t w x there in
        by_category-products i items w s' u e put
        ∙ ap (λ (d : Db N). restock_all (i ∷ items) d.products) (at2 ∙ at1)
    | inr e ↦
        ap (restock_all items) ((pure-KeepsStock tt).products s s' u (rw e at h))
        ∙ restock_all-kept i items s.products (kept_if_none i e)
  ]

  -- A pass of the loop that returns: the item was sold, in no smaller number, and
  -- what it puts back is on the stock.
  pub record TakenBack (sold : List (SaleItem N)) (i : SaleReturnItemDto N) (s s' : Db N)
      : Type 0 where
    pub item : SaleItem N
    pub found : item_of i.product_id sold ≡ some item
    pub enough : i.quantity ≤ℤ pos item.quantity
    pub stock :
        (items : List (SaleReturnItemDto N))
        → restock_all items s'.products ≡ restock_all (i ∷ items) s.products

  equal_of_test : (a b : ℕ) → nat_eq a b ≡ true → a ≡ b
  equal_of_test a b h = ground arith

  not_more : (a : ℕ) (b : ℤ) → ltb_ℤ (pos a) b ≡ false → b ≤ℤ pos a
  not_more a b h = ground arith

  return_item-TakenBack :
      (sale_id : ℕ) (user_id : String) (sold : List (SaleItem N)) (i : SaleReturnItemDto N)
      (s s' : Db N) (u : Unit {0})
      → return_item n p now show sale_id user_id sold i s ≡ (ok u, s')
      → TakenBack sold i s s'
  unfolding return_item
  return_item-TakenBack sale_id user_id sold i s s' u h =
      let (x, s1, there, h1) =
        >>=-eq-ok (or_throw (item_of i.product_id sold) (not_sold n p now show i))
          (return_of n p now show sale_id user_id i) s s' u h in
      let (got, at1) =
        or_throw-eq-ok (item_of i.product_id sold) (not_sold n p now show i) s s1 x there in
      let (v, s2, passed, h2) =
        >>=-eq-ok (throw_if _ (too_many n p now show i x))
          (λ _. take_back n p now show sale_id user_id i) s1 s' u h1 in
      let (few, at2) = throw_if-eq-ok _ (too_many n p now show i x) s1 s2 v passed in
      let (w, s3, added, h3) =
        >>=-eq-ok (add_return n p now show (return_row n p now show sale_id user_id i))
          (λ _. put_back n p now show i) s2 s' u h2 in
      let before : s3.products ≡ s.products =
        (add_return-KeepsStock (return_row n p now show sale_id user_id i)).products s2 s3 w added
        ∙ ap (λ (d : Db N). d.products) (at2 ∙ at1) in
      record {
        item = x;
        found = got;
        enough = not_more x.quantity i.quantity few;
        stock = λ items. put_back-products i items s3 s' u h3 ∙ ap (restock_all (i ∷ items)) before;
      }

  return_items-products :
      (sale_id : ℕ) (user_id : String) (sold : List (SaleItem N))
      (items : List (SaleReturnItemDto N)) (s s' : Db N) (u : Unit {0})
      → for_each (return_item n p now show sale_id user_id sold) items s ≡ (ok u, s')
      → s'.products ≡ restock_all items s.products
  unfolding for_each
  return_items-products sale_id user_id sold [] s s' u h =
      ap (λ (o : Result (Unit {0}) × Db N). o.1.products) (sym h) ∙ sym (restock_all-nil s.products)
  return_items-products sale_id user_id sold (i ∷ items) s s' u h =
      let (v, t, first, rest) =
        for_each-cons (return_item n p now show sale_id user_id sold) i items s s' u h in
      return_items-products sale_id user_id sold items t s' u rest
      ∙ (return_item-TakenBack sale_id user_id sold i s t v first).stock items

  -- A return that is recorded.
  pub record Returned (dto : CreateSaleReturnDto N) (db db' : Db N) : Type 0 where
    pub stock : db'.products ≡ restock_all dto.return_items db.products
    pub sold :
        (i : SaleReturnItemDto N)
        → Memᴰ i dto.return_items
        → (x : SaleItem N) × Memᴰ x db.sale_items
          × (x.sale_id ≡ dto.sale_id)
          × (x.product_id ≡ some i.product_id)
          × (i.quantity ≤ℤ pos x.quantity)

  -- A return that is recorded has added to every product the quantities of the items of the request
  -- that name it, came back and are of the category SALEABLE or SCRAP, negative ones included, and left
  -- the products otherwise as they were; every item names a product of an item of this sale, with a
  -- quantity that is not above the sold one.
  pub create_sale_return-Returned :
      (dto : CreateSaleReturnDto N) (user_id : String) (db db' : Db N) (r : List SaleReturn × N)
      → create_sale_return n p now show dto user_id db ≡ (ok r, db')
      → Returned dto db db'
  unfolding create_sale_return
  create_sale_return-Returned dto user_id db db' r h =
      let ran =
        p.transaction-ok
          (query (find_sale n p now dto.sale_id) >>= for_found n p now show dto user_id) db db' r
          h in
      let (o, s1, q1, h1) =
        >>=-eq-ok (query (find_sale n p now dto.sale_id)) (for_found n p now show dto user_id) db
          db' r ran in
      let (_, at1) = query-eq-ok (find_sale n p now dto.sale_id) db s1 o q1 in
      let (x, s2, q2, h2) =
        >>=-eq-ok (or_throw o (not_found "Sale not found")) (for_sale n p now show dto user_id) s1
          db' r h1 in
      let (_, at2) = or_throw-eq-ok o (not_found "Sale not found") s1 s2 x q2 in
      let (sold, s3, q3, h3) =
        >>=-eq-ok (query (items_of n p now dto.sale_id)) (with_items n p now show dto user_id x) s2
          db' r h2 in
      let (got, at3) = query-eq-ok (items_of n p now dto.sale_id) s2 s3 sold q3 in
      let (last, s4, q4, h4) =
        >>=-eq-ok (query (last_balance n p now x.customer_id))
          (if_paid n p now show dto user_id x sold) s3 db' r h3 in
      let (_, at4) = query-eq-ok (last_balance n p now x.customer_id) s3 s4 last q4 in
      let (b, s5, q5, h5) =
        >>=-eq-ok (or_throw (paid_sheet last) (bad_request "Sale is not paid or no balance found"))
          (process n p now show dto user_id x sold) s4 db' r h4 in
      let (_, at5) =
        or_throw-eq-ok (paid_sheet last) (bad_request "Sale is not paid or no balance found") s4 s5
          b q5 in
      let (u, s6, loop, h6) =
        >>=-eq-ok (for_each (return_item n p now show dto.sale_id user_id sold) dto.return_items)
          (λ _. refund n p now show dto user_id x.customer_id b.remaining_amount) s5 db' r h5 in
      let start : s5 ≡ db = at5 ∙ (at4 ∙ (at3 ∙ (at2 ∙ at1))) in
      let read = subst (λ (d : Db N). items_of n p now dto.sale_id d ≡ ok sold) (at2 ∙ at1) got in
      record {
        stock =
            (>>=-KeepsStock _ (λ _. pure (answer n p now show dto user_id))
                (add_refund-KeepsStock
                  (refund_sheet n p now show dto x.customer_id b.remaining_amount))
                (λ _. pure-KeepsStock _)).products
              s6 db' r h6
            ∙ (return_items-products dto.sale_id user_id sold dto.return_items s5 s6 u loop
                ∙ ap (λ (d : Db N). restock_all dto.return_items d.products) start);
        sold = λ i m.
            let (t, w, v, e) =
              for_each-ran (return_item n p now show dto.sale_id user_id sold) i dto.return_items s5
                s6 u m loop in
            let k = return_item-TakenBack dto.sale_id user_id sold i t w v e in
            let (listed, same) =
              find-some (λ (y : SaleItem N). same_text y.product_id (some i.product_id)) sold k.item
                (ap ok k.found) in
            let (there, mine) =
              p.find_many-sound (of_sale dto.sale_id) db.sale_items sold k.item read listed in
            (
              k.item,
              there,
              equal_of_test k.item.sale_id dto.sale_id mine,
              same_text-eq k.item.product_id (some i.product_id) same,
              k.enough,
            );
      }
