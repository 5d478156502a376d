-- ===== src/Sale/Invoice.antt =====
-- The whole of `createSale` of src/sale/sale.service.ts: its transaction, and the invoice that it may ask
-- for after the commit. The invoice service, src/invoice/invoice.service.ts, is an interface here, and so
-- is generateInvoiceNumber, which only reads.
pub mod Laws
pub mod Tests
use accurack_software_backen.Common.{
  ℕ, String, Bool, not, Option, none, some, [], ◌∷◌, ◌&&◌, ◌≡◌, given_text, concat, if◌then◌else◌,
}
use accurack_software_backen.Effect.{Action, ◌>>=◌, ◌>>◌, pure}
use accurack_software_backen.Prisma.{Prisma}
use accurack_software_backen.Sale.Tables.{Amounts, Customer, Sale, CreateSaleDto, Db}
use accurack_software_backen.Sale.Create.{is_website, create_sale}

pub record BusinessInfo : Type 0 where
  pub business_name : String
  pub contact_no : String
  pub address : String
  pub website : Option String

-- The calls for the user of the request. Setting the business writes the tables of businesses and of
-- users, which the model leaves out; making an invoice writes the table of invoices and no other.
pub record InvoiceService (N I : Type 0) : Type 0 where
  pub set_business_info : String → BusinessInfo → Action (Db N) (Unit {0})
  pub generate_invoice_number : Action (Db N) String
  pub create_invoice : ℕ → String → Action (Db N) I
  pub set_business_info-keeps :
      (store_id : String) (b : BusinessInfo) (s : Db N) → (set_business_info store_id b s).1 ≡ s
  pub generate_invoice_number-keeps : (s : Db N) → (generate_invoice_number s).1 ≡ s
  pub create_invoice-keeps :
      (sale_id : ℕ) (number : String) (s : Db N)
      → (create_invoice sale_id number s).1
        ≡ record s { invoices = (create_invoice sale_id number s).1.invoices }

-- `dto.companyMail ? `mailto:${dto.companyMail}` : undefined`
abbrev pub mail_link : Option String → Option String
mail_link none = none
mail_link (some mail) = some (concat ("mailto:" ∷ mail ∷ []))

-- `dto.companyName && dto.companyNo && dto.companyAddress`
abbrev pub business_info :
    Option String → Option String → Option String → Option String → Option BusinessInfo
business_info (some name) (some contact) (some address) mail = some (record {
  business_name = name;
  contact_no = contact;
  address = address;
  website = mail_link mail;
})
business_info _ _ _ mail = none

abbrev pub business_of : {N : Type 0} → CreateSaleDto N → Option BusinessInfo
business_of dto =
    business_info (given_text dto.company_name) (given_text dto.company_no)
      (given_text dto.company_address) (given_text dto.company_mail)

abbrev pub asks_invoice : {N : Type 0} → CreateSaleDto N → Bool
asks_invoice dto = dto.generate_invoice && not (is_website dto.source)

module _ {N I : Type 0} (n : Amounts N) (p : Prisma) (now : ℕ → ℕ) (v : InvoiceService N I) where
  abbrev pub set_info : String → Option BusinessInfo → Action (Db N) (Unit {0})
  set_info store_id none = pure tt
  set_info store_id (some b) = v.set_business_info store_id b

  -- `dto.invoiceNumber ?? await this.generateInvoiceNumber()`
  abbrev pub number_of : Option String → Action (Db N) String
  number_of none = v.generate_invoice_number
  number_of (some number) = pure number

  abbrev pub make_invoice : CreateSaleDto N → Sale N → Action (Db N) I
  make_invoice dto s =
      set_info dto.store_id (business_of dto)
      >> (number_of dto.invoice_number >>= v.create_invoice s.id)

  abbrev pub with_invoice :
      CreateSaleDto N → Sale N × Customer → Action (Db N) (Sale N × Customer × Option I)
  with_invoice dto (s, c) = make_invoice dto s >>= λ i. pure (s, c, some i)

  -- what follows the commit
  abbrev pub after_commit :
      CreateSaleDto N → Sale N × Customer → Action (Db N) (Sale N × Customer × Option I)
  after_commit dto (s, c) = if asks_invoice dto then with_invoice dto (s, c) else pure (s, c, none)

  unfoldable pub create_sale_with_invoice :
      CreateSaleDto N → String → Action (Db N) (Sale N × Customer × Option I)
  create_sale_with_invoice dto user_id = create_sale n p now dto user_id >>= after_commit dto
