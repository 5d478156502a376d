-- ===== src/Sale/Return.antt =====
-- `createSaleReturn` of src/sale/sale.service.ts. The test of `sale.customerId` is left out: the column
-- is required, and an identifier is never empty. `show` writes a number in a message. The request is
-- checked to have an array of items (`@IsArray`) and no further: a quantity may be any integer, also a
-- negative one, since the client refuses what is none at the `Int` column, and a category any text.
pub mod Restock
pub mod Laws
pub mod Tests
use accurack_software_backen.Common.{
  ℕ, String, Bool, true, false, not, Option, none, some, List, [], ◌∷◌, ◌&&◌, ◌||◌, ◌==◌, same_text,
  find, foldl, map, concat, if◌then◌else◌,
}
use accurack_software_backen.Common.Int.{ℤ, pos, ltb_ℤ, ◌+ℤ◌}
use accurack_software_backen.Effect.{
  Error, bad_request, not_found, Result, ok, err, Action, ◌>>=◌, ◌>>◌, pure, query, or_throw, write,
  throw_if, for_each,
}
use accurack_software_backen.Prisma.{Prisma}
use accurack_software_backen.Sale.Tables.{
  Amounts, PaymentStatus, Product, Sale, SaleItem, BalanceSheet, SaleReturn, Db,
}
use accurack_software_backen.Sale.Create.{never_clash, with_balance_sheets, with_products}
use accurack_software_backen.Sale.Stock.{increment, has_id}
use accurack_software_backen.Sale.Settle.{find_sale, items_of, last_balance, increment_stock}

pub record SaleReturnItemDto (N : Type 0) : Type 0 where
  pub product_id : String
  pub plu_upc : String
  pub is_product_returned : Bool
  pub quantity : ℤ
  pub refund_amount : N
  pub return_category : String
  pub reason : Option String

pub record CreateSaleReturnDto (N : Type 0) : Type 0 where
  pub sale_id : ℕ
  pub return_items : List (SaleReturnItemDto N)

-- the cases of `switch (item.returnCategory)`
abbrev pub is_restocked : String → Bool
is_restocked category = category == "SALEABLE" || category == "SCRAP"

abbrev pub is_paid : PaymentStatus → Bool
is_paid PaymentStatus.paid = true
is_paid _ = false

module _ {N : Type 0} where
  -- `item.isProductReturned && item.returnCategory !== NON_SALEABLE`
  abbrev pub goes_back : SaleReturnItemDto N → Bool
  goes_back i = i.is_product_returned && not (i.return_category == "NON_SALEABLE")

  -- `{ itemQuantity: { increment: item.quantity } }`
  abbrev pub increment_by : ℤ → Product N → Product N
  increment_by quantity x = record x { item_quantity = x.item_quantity +ℤ quantity }

  abbrev pub with_sale_returns : Db N → Result (List SaleReturn) → Result (Db N)
  with_sale_returns db (ok t) = ok (record db { sale_returns = t })
  with_sale_returns db (err e) = err e

  abbrev pub paid_sheet : Option (BalanceSheet N) → Option (BalanceSheet N)
  paid_sheet none = none
  paid_sheet (some b) = if is_paid b.payment_status then some b else none

  abbrev pub item_of : String → List (SaleItem N) → Option (SaleItem N)
  item_of product_id = find (λ (s : SaleItem N). same_text s.product_id (some product_id))

module _ {N : Type 0} (n : Amounts N) (p : Prisma) (now : ℕ) (show : ℤ → String) where
  abbrev pub return_row : ℕ → String → SaleReturnItemDto N → SaleReturn
  return_row sale_id user_id i = record {
    sale_id = sale_id;
    product_id = i.product_id;
    plu_upc = i.plu_upc;
    quantity = i.quantity;
    return_category = i.return_category;
    reason = i.reason;
    processed_by = user_id;
  }

  abbrev pub add_return : SaleReturn → Action (Db N) (Unit {0})
  add_return r = write λ db. with_sale_returns db (p.create never_clash r db.sale_returns)

  abbrev pub find_returned : String → Db N → Result (Option (Product N))
  find_returned id db = p.find_first (has_id id) db.products

  abbrev pub no_product : String → Error
  no_product id = not_found (concat ("Product " ∷ id ∷ " not found" ∷ []))

  abbrev pub restock : SaleReturnItemDto N → Db N → Result (Db N)
  restock i db =
      with_products db (p.update (has_id i.product_id) (increment_by i.quantity) db.products)

  abbrev pub by_category : SaleReturnItemDto N → Action (Db N) (Unit {0})
  by_category i = if is_restocked i.return_category then write (restock i) else pure tt

  abbrev pub increment_found : SaleReturnItemDto N → Option (Product N) → Action (Db N) (Unit {0})
  increment_found i found = or_throw found (no_product i.product_id) >>= λ x. by_category i

  abbrev pub put_back : SaleReturnItemDto N → Action (Db N) (Unit {0})
  put_back i =
      if goes_back i then query (find_returned i.product_id) >>= increment_found i else pure tt

  abbrev pub not_sold : SaleReturnItemDto N → Error
  not_sold i = not_found (concat ("Product " ∷ i.product_id ∷ " not found in this sale" ∷ []))

  abbrev pub too_many : SaleReturnItemDto N → SaleItem N → Error
  too_many i s = bad_request (
      concat (
        "Return quantity ("
        ∷ show i.quantity
        ∷ ") for product "
        ∷ i.product_id
        ∷ " cannot exceed purchased quantity ("
        ∷ show (pos s.quantity)
        ∷ ")"
        ∷ []))

  abbrev pub take_back : ℕ → String → SaleReturnItemDto N → Action (Db N) (Unit {0})
  take_back sale_id user_id i = add_return (return_row sale_id user_id i) >> put_back i

  abbrev pub return_of : ℕ → String → SaleReturnItemDto N → SaleItem N → Action (Db N) (Unit {0})
  return_of sale_id user_id i s =
      throw_if (ltb_ℤ (pos s.quantity) i.quantity) (too_many i s) >> take_back sale_id user_id i

  -- one pass of the loop over the items of the request
  unfoldable pub return_item :
      ℕ → String → List (SaleItem N) → SaleReturnItemDto N → Action (Db N) (Unit {0})
  return_item sale_id user_id sold i =
      or_throw (item_of i.product_id sold) (not_sold i) >>= return_of sale_id user_id i

  abbrev pub total_refund : List (SaleReturnItemDto N) → N
  total_refund = foldl (λ total (i : SaleReturnItemDto N). n.plus total i.refund_amount) n.zero

  abbrev pub refund_sheet : CreateSaleReturnDto N → ℕ → N → BalanceSheet N
  refund_sheet dto customer_id remaining = record {
    customer_id = customer_id;
    sale_id = some dto.sale_id;
    remaining_amount = n.minus remaining (total_refund dto.return_items);
    amount_paid = n.zero;
    payment_status = PaymentStatus.paid;
    created_at = now;
  }

  abbrev pub add_refund : BalanceSheet N → Action (Db N) (Unit {0})
  add_refund b = write λ db. with_balance_sheets db (p.create never_clash b db.balance_sheets)

  -- the rows that the loop wrote, in its order, and the refund
  abbrev pub answer : CreateSaleReturnDto N → String → List SaleReturn × N
  answer dto user_id =
      (map (return_row dto.sale_id user_id) dto.return_items, total_refund dto.return_items)

  abbrev pub refund : CreateSaleReturnDto N → String → ℕ → N → Action (Db N) (List SaleReturn × N)
  refund dto user_id customer_id remaining =
      add_refund (refund_sheet dto customer_id remaining) >> pure (answer dto user_id)

  abbrev pub process :
      CreateSaleReturnDto N
      → String
      → Sale N
      → List (SaleItem N)
      → BalanceSheet N
      → Action (Db N) (List SaleReturn × N)
  process dto user_id s sold last =
      for_each (return_item dto.sale_id user_id sold) dto.return_items
      >> refund dto user_id s.customer_id last.remaining_amount

  abbrev pub if_paid :
      CreateSaleReturnDto N
      → String
      → Sale N
      → List (SaleItem N)
      → Option (BalanceSheet N)
      → Action (Db N) (List SaleReturn × N)
  if_paid dto user_id s sold last =
      or_throw (paid_sheet last) (bad_request "Sale is not paid or no balance found")
      >>= process dto user_id s sold

  abbrev pub with_items :
      CreateSaleReturnDto N
      → String
      → Sale N
      → List (SaleItem N)
      → Action (Db N) (List SaleReturn × N)
  with_items dto user_id s sold =
      query (last_balance n p now s.customer_id) >>= if_paid dto user_id s sold

  abbrev pub for_sale :
      CreateSaleReturnDto N → String → Sale N → Action (Db N) (List SaleReturn × N)
  for_sale dto user_id s = query (items_of n p now dto.sale_id) >>= with_items dto user_id s

  abbrev pub for_found :
      CreateSaleReturnDto N → String → Option (Sale N) → Action (Db N) (List SaleReturn × N)
  for_found dto user_id found = or_throw found (not_found "Sale not found") >>= for_sale dto user_id

  unfoldable pub create_sale_return :
      CreateSaleReturnDto N → String → Action (Db N) (List SaleReturn × N)
  create_sale_return dto user_id =
      p.transaction (query (find_sale n p now dto.sale_id) >>= for_found dto user_id)
