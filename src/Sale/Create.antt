-- ===== src/Sale/Create.antt =====
-- The transaction of `createSale`, and `createCustomer`, of src/sale/sale.service.ts. What `createSale`
-- does after the commit is in Sale/Invoice. `now n` is the time of the n-th
-- account entry that a call writes. The sale's items, which the code writes with `Promise.all`, are
-- written in their order: in one transaction their order has no effect on what is committed.
pub mod Laws
pub mod Enough
pub mod Recorded
use accurack_software_backen.Common.{
  ℕ, String, Bool, true, false, not, Option, none, some, List, [], ◌∷◌, ◌||◌, ◌==◌, map, any, find,
  is_empty, is_some, length, or_else, concat, if◌then◌else◌,
}
use accurack_software_backen.Common.Int.{ℤ, pos, ltb_ℤ}
use accurack_software_backen.Effect.{
  Error, bad_request, not_found, Result, ok, err, Action, ◌>>=◌, ◌>>◌, pure, query, or_throw, write,
  throw_if, for_each,
}
use accurack_software_backen.Prisma.{Prisma}
use accurack_software_backen.Sale.Tables.{
  Amounts, PackType, item, box, PaymentStatus, SaleStatus, SaleConfirmation, InvoiceSource, Pack,
  Product, Customer, Sale, SaleItem, BalanceSheet, CustomerData, SaleItemDto, CreateSaleDto, Db,
}
use accurack_software_backen.Sale.Stock.{decrement, has_id}

-- `dto.source === InvoiceSource.website`
abbrev pub is_website : Option InvoiceSource → Bool
is_website (some InvoiceSource.website) = true
is_website _ = false

abbrev pub never_clash : {R : Type 0} → R → R → Bool
never_clash r x = false

module _ {N : Type 0} where
  abbrev pub with_products : Db N → Result (List (Product N)) → Result (Db N)
  with_products db (ok t) = ok (record db { products = t })
  with_products db (err e) = err e

  abbrev pub with_customers : Db N → Result (List Customer) → Result (Db N)
  with_customers db (ok t) = ok (record db { customers = t })
  with_customers db (err e) = err e

  abbrev pub with_sales : Db N → Result (List (Sale N)) → Result (Db N)
  with_sales db (ok t) = ok (record db { sales = t })
  with_sales db (err e) = err e

  abbrev pub with_sale_items : Db N → Result (List (SaleItem N)) → Result (Db N)
  with_sale_items db (ok t) = ok (record db { sale_items = t })
  with_sale_items db (err e) = err e

  abbrev pub with_balance_sheets : Db N → Result (List (BalanceSheet N)) → Result (Db N)
  with_balance_sheets db (ok t) = ok (record db { balance_sheets = t })
  with_balance_sheets db (err e) = err e

module _ {N : Type 0} (n : Amounts N) (p : Prisma) (now : ℕ → ℕ) where
  open n use {zero, plus, minus, truthy, not_positive}

  abbrev pub add_sheet : BalanceSheet N → Action (Db N) (Unit {0})
  add_sheet sheet =
      write λ db. with_balance_sheets db (p.create never_clash sheet db.balance_sheets)

  abbrev pub initial_sheet : ℕ → BalanceSheet N
  initial_sheet customer_id = record {
    customer_id = customer_id;
    sale_id = none;
    remaining_amount = zero;
    amount_paid = zero;
    payment_status = PaymentStatus.paid;
    created_at = now 0;
  }

  abbrev pub customer_row : CustomerData → List Customer → Customer
  customer_row given customers = record {
    id = p.fresh (map (λ (c : Customer). c.id) customers);
    customer_name = given.customer_name;
    phone_number = given.phone_number;
    store_id = given.store_id;
    client_id = given.client_id;
  }

  abbrev pub new_customer : CustomerData → Db N → Result Customer
  new_customer given db = ok (customer_row given db.customers)

  abbrev pub add_customer : Customer → Action (Db N) (Unit {0})
  add_customer c = write λ db.
      with_customers db (
        p.create (λ (a : Customer) (b : Customer). a.phone_number == b.phone_number) c db.customers)

  -- a new customer, and the first entry of the account
  unfoldable pub open_account : CustomerData → Action (Db N) Customer
  open_account given = query (new_customer given) >>= λ c.
      add_customer c >> (add_sheet (initial_sheet c.id) >> pure c)

  abbrev pub find_customer : String → Db N → Result (Option Customer)
  find_customer phone_number db =
      p.find_first (λ (c : Customer). c.phone_number == phone_number) db.customers

  abbrev pub or_open : Option CustomerData → Option Customer → Action (Db N) Customer
  or_open given (some c) = pure c
  or_open given none =
      or_throw given (bad_request "Customer data required for new customer") >>= open_account

  abbrev pub check_pack_quantity : String → Pack → Action (Db N) (Unit {0})
  check_pack_quantity id k =
      throw_if (not (ltb_ℤ (pos 0) k.total_packs_quantity))
        (bad_request (concat ("Pack " ∷ id ∷ " has zero or negative quantity" ∷ [])))

  abbrev pub pack_of : String → Product N → Option Pack
  pack_of id x = find (λ (k : Pack). k.id == id) x.packs

  abbrev pub no_pack : String → Product N → Error
  no_pack id x =
      bad_request (concat ("Pack with ID " ∷ id ∷ " not found for product " ∷ x.name ∷ []))

  -- the test of `item.packId` in the product's packs
  abbrev pub check_pack_id : Product N → Option String → Action (Db N) (Unit {0})
  check_pack_id x none = pure tt
  check_pack_id x (some id) =
      if id == ""
      then pure tt
      else or_throw (pack_of id x) (no_pack id x) >>= check_pack_quantity id

  abbrev pub check_pack : Product N → PackType → Option String → Action (Db N) (Unit {0})
  check_pack x item pack_id =
      throw_if
        (not (truthy x.single_item_selling_price) || not_positive x.single_item_selling_price)
        (bad_request (concat ("Product " ∷ x.name ∷ " does not support single-item sales" ∷ [])))
  check_pack x box pack_id =
      throw_if (is_empty x.packs)
        (bad_request (concat ("Product " ∷ x.name ∷ " does not have any packs available" ∷ [])))
      >> check_pack_id x pack_id

  abbrev pub find_product : String → Db N → Result (Option (Product N))
  find_product id db = p.find_first (has_id id) db.products

  abbrev pub decrement_stock : SaleItemDto N → Db N → Result (Db N)
  decrement_stock i db =
      with_products db (p.update (has_id i.product_id) (decrement i.quantity) db.products)

  abbrev pub take_units : SaleItemDto N → Product N → Action (Db N) (Unit {0})
  take_units i x =
      throw_if (ltb_ℤ x.item_quantity (pos i.quantity))
        (bad_request (concat ("Insufficient inventory for product " ∷ x.name ∷ [])))
      >> write (decrement_stock i)

  abbrev pub take_from : SaleItemDto N → Product N → Action (Db N) (Unit {0})
  take_from i x = check_pack x i.pack_type i.pack_id >> take_units i x

  abbrev pub no_product : SaleItemDto N → Error
  no_product i = not_found (concat ("Product with ID " ∷ i.plu_upc ∷ " not found" ∷ []))

  abbrev pub take_found : SaleItemDto N → Option (Product N) → Action (Db N) (Unit {0})
  take_found i found = or_throw found (no_product i) >>= take_from i

  -- one pass of the loop over the items of the request
  unfoldable pub take_item : SaleItemDto N → Action (Db N) (Unit {0})
  take_item i = query (find_product i.product_id) >>= take_found i

  -- `dto.tax || 0`
  abbrev pub tax_or_zero : Option N → N
  tax_or_zero none = zero
  tax_or_zero (some t) = if truthy t then t else zero

  -- `dto.cashierName || 'nan'`
  abbrev pub cashier_or_nan : Option String → String
  cashier_or_nan none = "nan"
  cashier_or_nan (some s) = if s == "" then "nan" else s

  abbrev pub sale_row : CreateSaleDto N → String → ℕ → List (Sale N) → Sale N
  sale_row dto user_id customer_id sales =
      let website = is_website dto.source in
      record {
        id = p.fresh (map (λ (s : Sale N). s.id) sales);
        customer_id = customer_id;
        user_id = user_id;
        store_id = dto.store_id;
        client_id = dto.client_id;
        payment_method = dto.payment_method;
        total_amount =
            plus (minus dto.total_amount (or_else dto.allowance zero)) (tax_or_zero dto.tax);
        confirmation =
            if website then SaleConfirmation.not_confirmed else SaleConfirmation.confirmed;
        quantity_send = if website then 0 else length dto.sale_items;
        allowance = some (or_else dto.allowance zero);
        source = or_else dto.source InvoiceSource.manual;
        tax = tax_or_zero dto.tax;
        status = if website then SaleStatus.pending else SaleStatus.completed;
        generate_invoice = false;
        cashier_name = cashier_or_nan dto.cashier_name;
      }

  abbrev pub item_row : ℕ → SaleItemDto N → SaleItem N
  item_row sale_id i = record {
    sale_id = sale_id;
    product_id = some i.product_id;
    plu_upc = i.plu_upc;
    product_name = i.product_name;
    quantity = i.quantity;
    selling_price = i.selling_price;
    total_price = i.total_price;
    pack_type = i.pack_type;
    pack_id = i.pack_id;
  }

  abbrev pub add_item : ℕ → SaleItemDto N → Action (Db N) (Unit {0})
  add_item sale_id i =
      write λ db. with_sale_items db (p.create never_clash (item_row sale_id i) db.sale_items)

  abbrev pub sale_sheet : Sale N → BalanceSheet N
  sale_sheet s = record {
    customer_id = s.customer_id;
    sale_id = some s.id;
    remaining_amount = s.total_amount;
    amount_paid = zero;
    payment_status = PaymentStatus.unpaid;
    created_at = now 1;
  }

  abbrev pub new_sale : CreateSaleDto N → String → ℕ → Db N → Result (Sale N)
  new_sale dto user_id customer_id db = ok (sale_row dto user_id customer_id db.sales)

  abbrev pub add_sale : Sale N → Action (Db N) (Unit {0})
  add_sale s = write λ db. with_sales db (p.create never_clash s db.sales)

  -- the sale, its items and its entry in the account
  unfoldable pub record_sale : CreateSaleDto N → String → Customer → Action (Db N) (Sale N)
  record_sale dto user_id c = query (new_sale dto user_id c.id) >>= λ s.
      add_sale s
      >> (for_each (add_item s.id) dto.sale_items >> (add_sheet (sale_sheet s) >> pure s))

  abbrev pub find_or_open : CreateSaleDto N → Action (Db N) Customer
  find_or_open dto = query (find_customer dto.customer_phone) >>= or_open dto.customer_data

  abbrev pub finish : CreateSaleDto N → String → Customer → Action (Db N) (Sale N × Customer)
  finish dto user_id c = record_sale dto user_id c >>= λ s. pure (s, c)

  abbrev pub sell_to : CreateSaleDto N → String → Customer → Action (Db N) (Sale N × Customer)
  sell_to dto user_id c = for_each take_item dto.sale_items >> finish dto user_id c

  -- the body of the transaction
  unfoldable pub sell : CreateSaleDto N → String → Action (Db N) (Sale N × Customer)
  sell dto user_id = find_or_open dto >>= sell_to dto user_id

  -- the transaction of `createSale`
  unfoldable pub create_sale : CreateSaleDto N → String → Action (Db N) (Sale N × Customer)
  create_sale dto user_id = p.transaction (sell dto user_id)

  pub create_customer : CustomerData → Action (Db N) Customer
  create_customer given = query (find_customer given.phone_number) >>= λ found.
      throw_if (is_some found) (bad_request "Customer with this phone number already exists")
      >> p.transaction (open_account given)
