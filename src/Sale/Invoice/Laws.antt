-- ===== src/Sale/Invoice/Laws.antt =====
-- What a call of `createSale` of src/sale/sale.service.ts has done, where it returns and where it throws.
use accurack_software_backen.Common.{ℕ, String, true, Option, some, ◌≡◌, ◌⊎◌}
use accurack_software_backen.Effect.{Error, Result, ok, err}
use accurack_software_backen.Prisma.{Prisma}
use accurack_software_backen.Sale.Tables.{Amounts, Customer, Sale, CreateSaleDto, Db}
use accurack_software_backen.Sale.Stock.{take_all}
use accurack_software_backen.Sale.Create.{create_sale}
use accurack_software_backen.Sale.Create.Laws.{movements}
use accurack_software_backen.Sale.Create.Recorded.{Recorded}
use accurack_software_backen.Sale.Invoice.{InvoiceService, asks_invoice, after_commit}

module _ {N I : Type 0} (n : Amounts N) (p : Prisma) (now : ℕ → ℕ) (v : InvoiceService N I) where
  -- Only the table of invoices may differ.
  abbrev Kept : Db N → Db N → Type 0
  Kept s t = t ≡ record s { invoices = t.invoices }

  -- How a call ended whose sale was made.
  abbrev pub Ended :
      CreateSaleDto N → Sale N → Customer → Result (Sale N × Customer × Option I) → Type 0
  Ended dto x c (ok r) = (i : Option I) × (r ≡ (x, c, i))
  Ended dto x c (err e) = asks_invoice dto ≡ true

  -- The sale is there, and the stock is taken, whether or not the invoice could be made.
  pub record Made (dto : CreateSaleDto N) (user_id : String) (db db' : Db N)
      (r : Result (Sale N × Customer × Option I)) : Type 0 where
    pub sale : Sale N
    pub customer : Customer
    pub committed : Db N
    pub made : create_sale n p now dto user_id db ≡ (ok (sale, customer), committed)
    pub stock : db'.products ≡ take_all (movements dto.sale_items) db.products
    pub recorded : Recorded n p now dto sale db'
    pub kept : db' ≡ record committed { invoices = db'.invoices }
    pub ended : Ended dto sale customer r

  -- Where the invoice was asked for, and the making of it has ended.
  abbrev bound : Sale N → Customer → Result I × Db N → Result (Sale N × Customer × Option I) × Db N
  bound x c o = elim o.0 as (λ _. Result (Sale N × Customer × Option I) × Db N) [
    | ok i ↦ (ok (x, c, some i), o.1)
    | err e ↦ (err e, o.1)
  ]

  -- `create_sale_with_invoice` where the transaction has ended.
  abbrev ended_after :
      CreateSaleDto N
      → Result (Sale N × Customer) × Db N
      → Result (Sale N × Customer × Option I) × Db N
  ended_after dto o = elim o.0 as (λ _. Result (Sale N × Customer × Option I) × Db N) [
    | ok r ↦ after_commit n p now v dto r o.1
    | err e ↦ (err e, o.1)
  ]

  abbrev pub Outcome :
      CreateSaleDto N → String → Db N → Db N → Result (Sale N × Customer × Option I) → Type 0
  Outcome dto user_id db db' r =
      ((e : Error) × (r ≡ err e) × (db' ≡ db)) ⊎ Made dto user_id db db' r
