-- ===== src/Orders/Tables.antt =====
-- The tables of prisma/schema.prisma that the orders of src/driver and src/validator read and write.
-- Amounts are the doubles of the source: a type with the operations that the code uses and no laws.
use accurack_software_backen.Common.{ℕ, String, Bool, Option, List}
use accurack_software_backen.Effect.{Result, ok, err}
use accurack_software_backen.Sale.Tables.{PaymentMethod, PaymentStatus}

pub record Payments (N : Type 0) : Type 0 where
  pub zero : N
  pub plus : N → N → N
  pub minus : N → N → N
  -- `x >= y`
  pub at_least : N → N → Bool

pub data SaleStatus : Type 0 where
  pending completed cancelled refunded partially_returned pending_validation validated : SaleStatus
  sent_for_validation confirmed shipped : SaleStatus

pub record User : Type 0 where
  pub id : String
  pub position : Option String
  pub client_id : Option String

pub record Customer : Type 0 where
  pub id : ℕ
  pub customer_name : String

pub record Order (N : Type 0) : Type 0 where
  pub id : ℕ
  pub customer_id : ℕ
  pub customer_name : String
  pub store_id : String
  pub client_id : String
  pub driver_id : String
  pub driver_name : String
  pub payment_amount : N
  pub payment_type : PaymentMethod
  pub status : SaleStatus
  pub is_validated : Bool
  pub validator_id : Option String

pub record BalanceSheet (N : Type 0) : Type 0 where
  pub id : ℕ
  pub customer_id : ℕ
  pub remaining_amount : N
  pub amount_paid : N
  pub payment_status : PaymentStatus

pub record Db (N : Type 0) : Type 0 where
  pub users : List User
  pub customers : List Customer
  pub orders : List (Order N)
  pub balance_sheets : List (BalanceSheet N)

module _ {N : Type 0} where
  abbrev pub with_orders : Db N → Result (List (Order N)) → Result (Db N)
  with_orders db (ok t) = ok (record db { orders = t })
  with_orders db (err e) = err e

  abbrev pub with_balance_sheets : Db N → Result (List (BalanceSheet N)) → Result (Db N)
  with_balance_sheets db (ok t) = ok (record db { balance_sheets = t })
  with_balance_sheets db (err e) = err e
