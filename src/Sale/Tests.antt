-- ===== src/Sale/Tests.antt =====
-- Sales of src/sale/sale.service.ts on a small shop in memory, with natural numbers in place of doubles.
use accurack_software_backen.Common.{
  ℕ, ◌+◌, ◌-◌, ◌*◌, true, false, not, nat_eq, none, some, [], ◌∷◌, ◌≡◌, ◌≢◌, refl, sym, subst, ◌∙◌,
  arith, Memᴰ, map, any_of_Mem, eq_iff, ◌==◌,
}
use accurack_software_backen.Common.Int.{pos, ◌+ℤ◌, ◌-ℤ◌, ◌≤ℤ◌}
use accurack_software_backen.Effect.{Error, ok, err, for_each}
use accurack_software_backen.Prisma.Memory.{memory}
use accurack_software_backen.Sale.Tables.{
  Amounts, item, cash, Product, Customer, Sale, SaleItem, BalanceSheet, SaleItemDto, CreateSaleDto,
  Db, PaymentStatus,
}
use accurack_software_backen.Sale.Create.{
  create_sale, sell, take_item, record_sale, open_account, item_row, sale_row,
}
use accurack_software_backen.Sale.Create.Enough.{InStock, create_sale-InStock}
use accurack_software_backen.Sale.Settle.{
  cancel_sale, delete_sale, create_payment, CreatePaymentDto, payment_sheet,
}
use accurack_software_backen.Sale.Settle.Laws.{cancel_sale-create_sale, delete_sale_fails}

abbrev pub naturals : Amounts ℕ
naturals = record {
  zero = 0;
  plus = ◌+◌;
  minus = ◌-◌;
  truthy = λ a. not (nat_eq a 0);
  not_positive = λ a. nat_eq a 0;
}

abbrev pub tea : Product ℕ
tea = record {
  id = "tea";
  name = "Tea";
  item_quantity = pos 9;
  single_item_selling_price = 3;
  packs = [];
}

abbrev pub shop : Db ℕ
shop = record {
  products = tea ∷ [];
  customers =
      record {
        id = 7;
        customer_name = "Ann";
        phone_number = "555";
        store_id = "s1";
        client_id = "c1";
      }
      ∷ [];
  sales = [];
  sale_items = [];
  balance_sheets = [];
  sale_returns = [];
  invoices = [];
  sale_adjustments = [];
  file_uploads = [];
}

abbrev teas : ℕ → SaleItemDto ℕ
teas quantity = record {
  product_id = "tea";
  plu_upc = "4006381";
  product_name = "Tea";
  quantity = quantity;
  selling_price = 3;
  total_price = 3 * quantity;
  pack_type = item;
  pack_id = none;
}

abbrev pub order : CreateSaleDto ℕ
order = record {
  customer_phone = "555";
  customer_data = none;
  store_id = "s1";
  client_id = "c1";
  payment_method = cash;
  total_amount = 21;
  tax = some 2;
  allowance = some 1;
  cashier_name = none;
  source = none;
  sale_items = teas 4 ∷ teas 3 ∷ [];
  generate_invoice = false;
  invoice_number = none;
  company_name = none;
  company_mail = none;
  company_address = none;
  company_no = none;
}

abbrev pub clock : ℕ → ℕ
clock k = 5 + k

abbrev pub customer_of_shop : Customer
customer_of_shop = record {
  id = 7;
  customer_name = "Ann";
  phone_number = "555";
  store_id = "s1";
  client_id = "c1";
}

abbrev pub sold : Db ℕ
sold = (create_sale naturals (memory true) clock order "bob" shop).1

abbrev pub sale_of_teas : Sale ℕ
sale_of_teas = sale_row naturals (memory true) clock order "bob" 7 []

made :
    create_sale naturals (memory true) clock order "bob" shop
    ≡ (ok (sale_of_teas, customer_of_shop), sold)
unfolding create_sale sell take_item record_sale open_account for_each ◌-ℤ◌ ◌+ℤ◌
made = refl

owes_the_total : sale_of_teas.total_amount ≡ 22
owes_the_total = refl

takes_both_items : sold.products ≡ record tea { item_quantity = pos 2 } ∷ []
unfolding create_sale sell take_item record_sale open_account for_each ◌-ℤ◌ ◌+ℤ◌
takes_both_items = refl

-- The second item asks for more than the first has left.
too_many :
    (create_sale naturals
      (memory true)
      clock
      (record order { sale_items = teas 4 ∷ teas 6 ∷ [] })
      "bob"
      shop).1
    ≡ shop
unfolding create_sale sell take_item record_sale open_account for_each ◌-ℤ◌ ◌+ℤ◌
too_many = refl

in_stock : InStock shop.products
in_stock = record {
  unique = λ x y mx my e. only x mx ∙ sym (only y my);
  nonnegative =
      λ x m. subst (λ (z : Product ℕ). pos 0 ≤ℤ z.item_quantity) (sym (only x m)) (omega arith);
}
  where
    only : (x : Product ℕ) → Memᴰ x shop.products → x ≡ tea
    only x (Memᴰ.head e) = e
    only x (Memᴰ.tail m) = elim m [ ]

create_sale-InStock_example : InStock sold.products
create_sale-InStock_example =
    create_sale-InStock naturals (memory true) clock order "bob" shop sold
      (sale_of_teas, customer_of_shop) in_stock made

abbrev undone : Db ℕ
undone =
    (cancel_sale naturals (memory true) 8 sale_of_teas.id
      (map (item_row naturals (memory true) clock sale_of_teas.id) order.sale_items) sold).1

cancels :
    cancel_sale naturals
      (memory true)
      8
      sale_of_teas.id
      (map (item_row naturals (memory true) clock sale_of_teas.id) order.sale_items)
      sold
    ≡ (ok tt, undone)
unfolding cancel_sale create_sale sell take_item record_sale open_account for_each ◌-ℤ◌ ◌+ℤ◌
cancels = refl

cancel_sale-create_sale_example : undone.products ≡ shop.products
cancel_sale-create_sale_example =
    cancel_sale-create_sale naturals (memory true) 8 clock order "bob" shop sold sold undone
      sale_of_teas customer_of_shop tt made refl cancels

abbrev sold_tea : SaleItem ℕ
sold_tea = item_row naturals (memory true) clock sale_of_teas.id (teas 4)

abbrev pub recorded : Db ℕ
recorded = record shop { sales = sale_of_teas ∷ []; sale_items = sold_tea ∷ [] }

other_code : (x : Product ℕ) → Memᴰ x recorded.products → x.id ≢ sold_tea.plu_upc
other_code x m e = cc (
    any_of_Mem (λ (y : Product ℕ). y.id == sold_tea.plu_upc) x recorded.products m
      ((eq_iff x.id sold_tea.plu_upc).1 e))

delete_sale_fails_example :
    (e : Error) × (delete_sale naturals (memory true) 8 sale_of_teas.id recorded
      ≡ (err e, recorded))
delete_sale_fails_example =
    delete_sale_fails naturals (memory true) 8 sale_of_teas.id sold_tea recorded (Memᴰ.head refl)
      refl other_code

abbrev payment : CreatePaymentDto ℕ
payment = record { customer_id = 7; sale_id = none; amount_paid = 22 }

abbrev pub last_entry : BalanceSheet ℕ
last_entry = payment_sheet naturals (memory true) 9 payment 22

abbrev paid_up : Db ℕ
paid_up = (create_payment naturals (memory true) 9 payment sold).1

is_settled : last_entry.payment_status ≡ PaymentStatus.paid
is_settled = refl
