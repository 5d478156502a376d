-- ===== src/Sale/Tables.antt =====
-- The tables of prisma/schema.prisma that the sale service reads and writes, and the arithmetic of
-- amounts. Amounts are the doubles of the source, taken as a type with the operations that the code
-- uses and no laws. Stock is an integer column. Identifiers of products come with the request and are
-- texts; those that the database gives to sales and customers are numbers.
use accurack_software_backen.Common.{ℕ, String, Bool, Option, List}
use accurack_software_backen.Common.Int.{ℤ}

pub record Amounts (N : Type 0) : Type 0 where
  pub zero : N
  pub plus : N → N → N
  pub minus : N → N → N
  -- whether a number is neither 0 nor NaN
  pub truthy : N → Bool
  -- `x <= 0`
  pub not_positive : N → Bool

pub data PackType : Type 0 where
  item box : PackType

pub data PaymentStatus : Type 0 where
  paid partial unpaid overdue : PaymentStatus

pub data SaleStatus : Type 0 where
  pending completed cancelled refunded partially_returned confirmed shipped : SaleStatus

pub data SaleConfirmation : Type 0 where
  confirmed not_confirmed cancelled : SaleConfirmation

pub data InvoiceSource : Type 0 where
  manual website : InvoiceSource

pub data PaymentMethod : Type 0 where
  cash card bank_transfer check digital_wallet : PaymentMethod

pub record Pack : Type 0 where
  pub id : String
  pub total_packs_quantity : ℤ

pub record Product (N : Type 0) : Type 0 where
  pub id : String
  pub name : String
  pub item_quantity : ℤ
  pub single_item_selling_price : N
  pub packs : List Pack

pub record Customer : Type 0 where
  pub id : ℕ
  pub customer_name : String
  pub phone_number : String
  pub store_id : String
  pub client_id : String

pub record Sale (N : Type 0) : Type 0 where
  pub id : ℕ
  pub customer_id : ℕ
  pub user_id : String
  pub store_id : String
  pub client_id : String
  pub payment_method : PaymentMethod
  pub total_amount : N
  pub confirmation : SaleConfirmation
  pub quantity_send : ℕ
  pub allowance : Option N
  pub source : InvoiceSource
  pub tax : N
  pub status : SaleStatus
  pub generate_invoice : Bool
  pub cashier_name : String

pub record SaleItem (N : Type 0) : Type 0 where
  pub sale_id : ℕ
  pub product_id : Option String
  pub plu_upc : String
  pub product_name : String
  pub quantity : ℕ
  pub selling_price : N
  pub total_price : N
  pub pack_type : PackType
  pub pack_id : Option String

pub record BalanceSheet (N : Type 0) : Type 0 where
  pub customer_id : ℕ
  pub sale_id : Option ℕ
  pub remaining_amount : N
  pub amount_paid : N
  pub payment_status : PaymentStatus
  pub created_at : ℕ

pub record SaleReturn : Type 0 where
  pub sale_id : ℕ
  pub product_id : String
  pub plu_upc : String
  pub quantity : ℤ
  pub return_category : String
  pub reason : Option String
  pub processed_by : String

-- What comes with the request for a new customer.
pub record CustomerData : Type 0 where
  pub customer_name : String
  pub phone_number : String
  pub store_id : String
  pub client_id : String

pub record SaleItemDto (N : Type 0) : Type 0 where
  pub product_id : String
  pub plu_upc : String
  pub product_name : String
  pub quantity : ℕ
  pub selling_price : N
  pub total_price : N
  pub pack_type : PackType
  pub pack_id : Option String

-- `source` is one of the two texts of its enumeration: the client refuses any other.
pub record CreateSaleDto (N : Type 0) : Type 0 where
  pub customer_phone : String
  pub customer_data : Option CustomerData
  pub store_id : String
  pub client_id : String
  pub payment_method : PaymentMethod
  pub total_amount : N
  pub tax : Option N
  pub allowance : Option N
  pub cashier_name : Option String
  pub source : Option InvoiceSource
  pub sale_items : List (SaleItemDto N)
  -- what the invoice after the sale takes; an undefined `generateInvoice` is false
  pub generate_invoice : Bool
  pub invoice_number : Option String
  pub company_name : Option String
  pub company_mail : Option String
  pub company_address : Option String
  pub company_no : Option String

pub record Db (N : Type 0) : Type 0 where
  pub products : List (Product N)
  pub customers : List Customer
  pub sales : List (Sale N)
  pub sale_items : List (SaleItem N)
  pub balance_sheets : List (BalanceSheet N)
  pub sale_returns : List SaleReturn
  -- the sale of each invoice
  pub invoices : List ℕ
  -- the sale of each adjustment, and the store of each sheet that was uploaded
  pub sale_adjustments : List ℕ
  pub file_uploads : List String
