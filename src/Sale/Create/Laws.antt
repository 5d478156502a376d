-- ===== src/Sale/Create/Laws.antt =====
-- What the transaction of `createSale` in src/sale/sale.service.ts has done to the stock where it returns.
use accurack_software_backen.Common.{
  ℕ, String, false, Option, none, some, List, [], ◌∷◌, ◌≡◌, ◌==◌, sym, ap, ◌∙◌, Memᴰ, arith,
  Bool-cases, inl, inr, eq_iff,
}
use accurack_software_backen.Common.Int.{ℤ, pos, ltb_ℤ, ◌≤ℤ◌}
use accurack_software_backen.Effect.{
  Result, ok, Action, ◌>>◌, pure, query, or_throw, write, throw_if, for_each,
}
use accurack_software_backen.Effect.Laws.{
  >>=-eq-ok, write-eq-ok, query-eq-ok, or_throw-eq-ok, throw_if-eq-ok, for_each-cons,
}
use accurack_software_backen.Prisma.{Prisma, update_rows}
use accurack_software_backen.Sale.Tables.{
  Amounts, PackType, item, box, Product, Customer, Sale, BalanceSheet, CustomerData, SaleItemDto,
  CreateSaleDto, Db,
}
use accurack_software_backen.Sale.Stock.{decrement, has_id, take_all, take_all-nil, take_all-cons}
use accurack_software_backen.Sale.Keeps.{
  KeepsStock, >>=-KeepsStock, query-KeepsStock, pure-KeepsStock, or_throw-KeepsStock,
  throw_if-KeepsStock, write-KeepsStock, for_each-KeepsStock, with_customers-products,
  with_sales-products, with_sale_items-products, with_balance_sheets-products, with_products-eq-ok,
}
use accurack_software_backen.Sale.Create.{
  open_account, or_open, check_pack_id, check_pack, take_item, find_product, decrement_stock,
  take_units, take_from, no_product, take_found, find_or_open, sell_to, finish, new_customer,
  add_customer, new_sale, add_sale, initial_sheet, sale_sheet, check_pack_quantity, pack_of,
  no_pack, add_item, add_sheet, record_sale, sell, create_sale,
}

-- The products and numbers of a request.
abbrev pub movements : {N : Type 0} → List (SaleItemDto N) → List (String × ℕ)
movements [] = []
movements (i ∷ is_left) = (i.product_id, i.quantity) ∷ movements is_left

module _ {N : Type 0} (n : Amounts N) (p : Prisma) (now : ℕ → ℕ) where
  check_pack_id-KeepsStock :
      (x : Product N) (pack_id : Option String) → KeepsStock (check_pack_id n p now x pack_id)
  check_pack_id-KeepsStock x none = pure-KeepsStock tt
  check_pack_id-KeepsStock x (some id) = elim (Bool-cases (id == "")) [
    | inl e ↦ rw e (pure-KeepsStock tt)
    | inr e ↦ rw e (
        >>=-KeepsStock _ (check_pack_quantity n p now id)
          (or_throw-KeepsStock (pack_of n p now id x) (no_pack n p now id x))
          (λ k. throw_if-KeepsStock _ _))
  ]

  check_pack-KeepsStock :
      (x : Product N) (kind : PackType) (pack_id : Option String)
      → KeepsStock (check_pack n p now x kind pack_id)
  check_pack-KeepsStock x item pack_id = throw_if-KeepsStock _ _
  check_pack-KeepsStock x box pack_id =
      >>=-KeepsStock _ _ (throw_if-KeepsStock _ _) (λ u. check_pack_id-KeepsStock x pack_id)

  -- A pass of the loop that returns found the product, with enough units, and took them.
  pub record Taken (i : SaleItemDto N) (s s' : Db N) : Type 0 where
    pub product : Product N
    pub listed : Memᴰ product s.products
    pub found : product.id ≡ i.product_id
    pub enough : pos i.quantity ≤ℤ product.item_quantity
    pub taken : s'.products ≡ update_rows (has_id i.product_id) (decrement i.quantity) s.products

  enough_of : (q : ℤ) (k : ℕ) → ltb_ℤ q (pos k) ≡ false → pos k ≤ℤ q
  enough_of q k h = ground arith

  pub take_item-Taken :
      (i : SaleItemDto N) (s s' : Db N) (u : Unit {0})
      → take_item n p now i s ≡ (ok u, s')
      → Taken i s s'
  unfolding take_item
  take_item-Taken i s s' u h =
      let (o, s1, asked, h1) =
        >>=-eq-ok (query (find_product n p now i.product_id)) (take_found n p now i) s s' u h in
      let (found, at1) = query-eq-ok (find_product n p now i.product_id) s s1 o asked in
      let (x, s2, there, h2) =
        >>=-eq-ok (or_throw o (no_product n p now i)) (take_from n p now i) s1 s' u h1 in
      let (got, at2) = or_throw-eq-ok o (no_product n p now i) s1 s2 x there in
      let (v, s3, checked, h3) =
        >>=-eq-ok (check_pack n p now x i.pack_type i.pack_id) (λ _. take_units n p now i x) s2 s' u
          h2 in
      let (w, s4, passed, h4) =
        >>=-eq-ok (throw_if _ _) (λ _. write (decrement_stock n p now i)) s3 s' u h3 in
      let (plenty, at4) = throw_if-eq-ok _ _ s3 s4 w passed in
      let done = with_products-eq-ok _ s4 s' (write-eq-ok (decrement_stock n p now i) s4 s' u h4) in
      let (m, same) = p.find_first-some (has_id i.product_id) s.products x (found ∙ ap ok got) in
      let stock : s4.products ≡ s.products =
        ap (λ (d : Db N). d.products) at4
        ∙ ((check_pack-KeepsStock x i.pack_type i.pack_id).products s2 s3 v checked
            ∙ ap (λ (d : Db N). d.products) (at2 ∙ at1)) in
      record {
        product = x;
        listed = m;
        found = ground (arith, eq_iff x.id i.product_id);
        enough = enough_of x.item_quantity i.quantity plenty;
        taken =
            p.update-ok (has_id i.product_id) (decrement i.quantity) s4.products s'.products done
            ∙ ap (update_rows (has_id i.product_id) (decrement i.quantity)) stock;
      }

  take_items-products :
      (items : List (SaleItemDto N)) (s s' : Db N) (u : Unit {0})
      → for_each (take_item n p now) items s ≡ (ok u, s')
      → s'.products ≡ take_all (movements items) s.products
  unfolding for_each
  take_items-products [] s s' u h =
      ap (λ (o : Result (Unit {0}) × Db N). o.1.products) (sym h) ∙ sym (take_all-nil s.products)
  take_items-products (i ∷ items) s s' u h =
      let (v, t, first, rest) = for_each-cons (take_item n p now) i items s s' u h in
      let r = take_item-Taken i s t v first in
      take_items-products items t s' u rest
      ∙ (ap (take_all (movements items)) r.taken
          ∙ take_all-cons i.product_id i.quantity (movements items) s.products)

  add_sheet-KeepsStock : (x : BalanceSheet N) → KeepsStock (add_sheet n p now x)
  add_sheet-KeepsStock x = write-KeepsStock _ (λ s s'. with_balance_sheets-products _ s s')

  add_customer-KeepsStock : (c : Customer) → KeepsStock (add_customer n p now c)
  add_customer-KeepsStock c = write-KeepsStock _ (λ s s'. with_customers-products _ s s')

  add_sale-KeepsStock : (x : Sale N) → KeepsStock (add_sale n p now x)
  add_sale-KeepsStock x = write-KeepsStock _ (λ s s'. with_sales-products _ s s')

  add_item-KeepsStock : (sale_id : ℕ) (i : SaleItemDto N) → KeepsStock (add_item n p now sale_id i)
  add_item-KeepsStock sale_id i = write-KeepsStock _ (λ s s'. with_sale_items-products _ s s')

  then_pure-KeepsStock :
      {A : Type 0} (m : Action (Db N) (Unit {0})) (a : A) → KeepsStock m → KeepsStock (m >> pure a)
  then_pure-KeepsStock m a keeps = >>=-KeepsStock m (λ _. pure a) keeps (λ _. pure-KeepsStock a)

  open_account-KeepsStock : (given : CustomerData) → KeepsStock (open_account n p now given)
  unfolding open_account
  open_account-KeepsStock given =
      >>=-KeepsStock (query (new_customer n p now given)) _ (query-KeepsStock _) (λ c.
        >>=-KeepsStock _ _ (add_customer-KeepsStock c)
          (λ u. then_pure-KeepsStock _ c (add_sheet-KeepsStock (initial_sheet n p now c.id))))

  or_open-KeepsStock :
      (given : Option CustomerData) (found : Option Customer)
      → KeepsStock (or_open n p now given found)
  or_open-KeepsStock given (some c) = pure-KeepsStock c
  or_open-KeepsStock given none =
      >>=-KeepsStock _ _ (or_throw-KeepsStock _ _) open_account-KeepsStock

  find_or_open-KeepsStock : (dto : CreateSaleDto N) → KeepsStock (find_or_open n p now dto)
  find_or_open-KeepsStock dto =
      >>=-KeepsStock _ _ (query-KeepsStock _) (or_open-KeepsStock dto.customer_data)

  record_sale-KeepsStock :
      (dto : CreateSaleDto N) (user_id : String) (c : Customer)
      → KeepsStock (record_sale n p now dto user_id c)
  unfolding record_sale
  record_sale-KeepsStock dto user_id c =
      >>=-KeepsStock (query (new_sale n p now dto user_id c.id)) _ (query-KeepsStock _) (λ x.
        >>=-KeepsStock _ _ (add_sale-KeepsStock x) (λ u.
          >>=-KeepsStock _ _
            (for_each-KeepsStock (add_item n p now x.id) dto.sale_items (add_item-KeepsStock x.id))
            (λ v. then_pure-KeepsStock _ x (add_sheet-KeepsStock (sale_sheet n p now x)))))

  -- A sale that is made is a run of the loop, with calls around it that do not move the stock.
  pub sell-ran :
      (dto : CreateSaleDto N) (user_id : String) (db db' : Db N) (r : Sale N × Customer)
      → sell n p now dto user_id db ≡ (ok r, db')
      → (s1 s2 : Db N) × (u : Unit {0}) × (for_each (take_item n p now) dto.sale_items s1
          ≡ (ok u, s2))
        × (s1.products ≡ db.products)
        × (db'.products ≡ s2.products)
  unfolding sell
  sell-ran dto user_id db db' r h =
      let (c, s1, found, h1) =
        >>=-eq-ok (find_or_open n p now dto) (sell_to n p now dto user_id) db db' r h in
      let (u, s2, took, h2) =
        >>=-eq-ok (for_each (take_item n p now) dto.sale_items) (λ _. finish n p now dto user_id c)
          s1 db' r h1 in
      (
        s1,
        s2,
        u,
        took,
        (find_or_open-KeepsStock dto).products db s1 c found,
        (>>=-KeepsStock _ _ (record_sale-KeepsStock dto user_id c)
              (λ x. pure-KeepsStock (x, c))).products
            s2 db' r h2,
      )

  sell-products :
      (dto : CreateSaleDto N) (user_id : String) (db db' : Db N) (r : Sale N × Customer)
      → sell n p now dto user_id db ≡ (ok r, db')
      → db'.products ≡ take_all (movements dto.sale_items) db.products
  sell-products dto user_id db db' r h =
      let (s1, s2, u, took, before, after) = sell-ran dto user_id db db' r h in
      after
      ∙ (take_items-products dto.sale_items s1 s2 u took
          ∙ ap (take_all (movements dto.sale_items)) before)

  pub create_sale-products :
      (dto : CreateSaleDto N) (user_id : String) (db db' : Db N) (r : Sale N × Customer)
      → create_sale n p now dto user_id db ≡ (ok r, db')
      → db'.products ≡ take_all (movements dto.sale_items) db.products
  unfolding create_sale
  create_sale-products dto user_id db db' r h =
      sell-products dto user_id db db' r (p.transaction-ok (sell n p now dto user_id) db db' r h)
