-- ===== src/Sale/Settle.antt =====
-- What becomes of a sale in src/sale/sale.service.ts: the branch of `setSaleConfirmation` that cancels,
-- `deleteSale`, and `createPayment`. The restores that the cancelling branch starts with `Promise.all`
-- run in their order: they add to the stock, in one transaction.
pub mod Laws
pub mod Payment
use accurack_software_backen.Common.{
  ℕ, String, Bool, true, false, not, Option, none, some, List, [], ◌∷◌, nat_eq, if◌then◌else◌,
  is_some,
}
use accurack_software_backen.Effect.{
  Error, bad_request, not_found, database, Result, ok, err, Action, ◌>>=◌, ◌>>◌, pure, throw, query,
  or_throw, write, for_each,
}
use accurack_software_backen.Prisma.{Prisma}
use accurack_software_backen.Sale.Tables.{
  Amounts, PaymentStatus, SaleStatus, SaleConfirmation, Product, Customer, Sale, SaleItem,
  BalanceSheet, Db,
}
use accurack_software_backen.Sale.Stock.{increment, has_id}
use accurack_software_backen.Sale.Create.{
  with_products, with_sales, with_sale_items, with_balance_sheets, never_clash,
}

abbrev pub CreatePaymentDto : Type 0 → Type 0
CreatePaymentDto N = record { customer_id : ℕ; sale_id : Option ℕ; amount_paid : N }

abbrev pub sheet_of_sale : Option ℕ → ℕ → Bool
sheet_of_sale none sale_id = false
sheet_of_sale (some id) sale_id = nat_eq id sale_id

module _ {N : Type 0} where
  abbrev pub of_sale : ℕ → SaleItem N → Bool
  of_sale sale_id i = nat_eq i.sale_id sale_id

  abbrev pub is_sale : ℕ → Sale N → Bool
  is_sale sale_id s = nat_eq s.id sale_id

  abbrev pub cancelled : Sale N → Sale N
  cancelled s = record s {
    confirmation = SaleConfirmation.cancelled;
    status = SaleStatus.cancelled;
  }

module _ {N : Type 0} (n : Amounts N) (p : Prisma) (now : ℕ) where
  open n use {zero, minus, not_positive}

  abbrev pub increment_stock : String → ℕ → Db N → Result (Db N)
  increment_stock id quantity db =
      with_products db (p.update (has_id id) (increment quantity) db.products)

  -- a null identifier in a `where` is an error of the client
  abbrev pub restore : Option String → ℕ → Action (Db N) (Unit {0})
  restore none quantity = throw (database "Argument `id` must not be null.")
  restore (some id) quantity = write (increment_stock id quantity)

  abbrev pub restore_item : SaleItem N → Action (Db N) (Unit {0})
  restore_item i = restore i.product_id i.quantity

  abbrev pub mark_cancelled : ℕ → Action (Db N) (Unit {0})
  mark_cancelled sale_id = write λ db. with_sales db (p.update (is_sale sale_id) cancelled db.sales)

  abbrev pub clear_sheets : ℕ → Action (Db N) (Unit {0})
  clear_sheets sale_id = write λ db. with_balance_sheets db (
      p.update_many (λ (b : BalanceSheet N). sheet_of_sale b.sale_id sale_id)
        (λ b. record b { remaining_amount = zero; payment_status = PaymentStatus.unpaid })
        db.balance_sheets)

  -- The items are those of the request: setSaleConfirmation of src/sale/sale.controller.ts takes the sale,
  -- with its items, from the body.
  unfoldable pub cancel_sale : ℕ → List (SaleItem N) → Action (Db N) (Unit {0})
  cancel_sale sale_id items =
      p.transaction
        (for_each restore_item items >> (mark_cancelled sale_id >> clear_sheets sale_id))

  -- `where: { id: item.pluUpc }`
  abbrev pub restore_by_plu : SaleItem N → Action (Db N) (Unit {0})
  restore_by_plu i = write (increment_stock i.plu_upc i.quantity)

  abbrev pub delete_items : ℕ → Action (Db N) (Unit {0})
  delete_items sale_id =
      write λ db. with_sale_items db (p.delete_many (of_sale sale_id) db.sale_items)

  abbrev pub delete_invoices : ℕ → Action (Db N) (Unit {0})
  delete_invoices sale_id = write λ db.
      elim (p.delete_many (λ (i : ℕ). nat_eq i sale_id) db.invoices) as (λ _. Result (Db N)) [
        | ok t ↦ ok (record db { invoices = t })
        | err e ↦ err e
      ]

  abbrev pub delete_sheets : ℕ → Action (Db N) (Unit {0})
  delete_sheets sale_id = write λ db.
      with_balance_sheets db
        (p.delete_many (λ (b : BalanceSheet N). sheet_of_sale b.sale_id sale_id) db.balance_sheets)

  abbrev pub delete_row : ℕ → Action (Db N) (Unit {0})
  delete_row sale_id = write λ db. with_sales db (p.delete (is_sale sale_id) db.sales)

  abbrev pub delete_rows : ℕ → Action (Db N) (Unit {0})
  delete_rows sale_id =
      delete_items sale_id
      >> (delete_invoices sale_id >> (delete_sheets sale_id >> delete_row sale_id))

  abbrev pub delete_with : ℕ → List (SaleItem N) → Action (Db N) (Unit {0})
  delete_with sale_id items = for_each restore_by_plu items >> delete_rows sale_id

  abbrev pub find_sale : ℕ → Db N → Result (Option (Sale N))
  find_sale sale_id db = p.find_first (is_sale sale_id) db.sales

  -- `include: { saleItems: true }`
  abbrev pub items_of : ℕ → Db N → Result (List (SaleItem N))
  items_of sale_id db = p.find_many (of_sale sale_id) db.sale_items

  abbrev pub delete_found : ℕ → Sale N → Action (Db N) (Unit {0})
  delete_found sale_id s =
      query (items_of sale_id) >>= λ items. p.transaction (delete_with sale_id items)

  abbrev pub delete_or_throw : ℕ → Option (Sale N) → Action (Db N) (Unit {0})
  delete_or_throw sale_id found =
      or_throw found (not_found "Sale not found") >>= delete_found sale_id

  pub delete_sale : ℕ → Action (Db N) (Unit {0})
  delete_sale sale_id = query (find_sale sale_id) >>= delete_or_throw sale_id

  abbrev pub balance_of : Option (BalanceSheet N) → N
  balance_of none = zero
  balance_of (some b) = b.remaining_amount

  abbrev pub payment_sheet : CreatePaymentDto N → N → BalanceSheet N
  payment_sheet dto balance = record {
    customer_id = dto.customer_id;
    sale_id = dto.sale_id;
    remaining_amount = minus balance dto.amount_paid;
    amount_paid = dto.amount_paid;
    payment_status =
        if not_positive (minus balance dto.amount_paid)
        then PaymentStatus.paid
        else PaymentStatus.partial;
    created_at = now;
  }

  abbrev pub sheet_of : ℕ → BalanceSheet N → Bool
  sheet_of customer_id b = nat_eq b.customer_id customer_id

  abbrev pub last_balance : ℕ → Db N → Result (Option (BalanceSheet N))
  last_balance customer_id db =
      p.find_latest (λ (b : BalanceSheet N). b.created_at) (sheet_of customer_id) db.balance_sheets

  abbrev pub add_payment : BalanceSheet N → Action (Db N) (BalanceSheet N)
  add_payment b =
      write (λ db. with_balance_sheets db (p.create never_clash b db.balance_sheets)) >> pure b

  abbrev pub pay : CreatePaymentDto N → Option (BalanceSheet N) → Action (Db N) (BalanceSheet N)
  pay dto last = add_payment (payment_sheet dto (balance_of last))

  abbrev pub find_by_id : ℕ → Db N → Result (Option Customer)
  find_by_id customer_id db = p.find_first (λ (c : Customer). nat_eq c.id customer_id) db.customers

  abbrev pub pay_for : CreatePaymentDto N → Option Customer → Action (Db N) (BalanceSheet N)
  pay_for dto found = or_throw found (not_found "Customer not found") >>= λ c.
      query (last_balance dto.customer_id) >>= pay dto

  unfoldable pub create_payment : CreatePaymentDto N → Action (Db N) (BalanceSheet N)
  create_payment dto = p.transaction (query (find_by_id dto.customer_id) >>= pay_for dto)
