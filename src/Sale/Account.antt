-- ===== src/Sale/Account.antt =====
-- `deleteCustomer` of src/sale/sale.service.ts. No transaction is open: a throw keeps what was deleted
-- before it. The count of the customer's sales is taken as whether a query for them finds any.
pub mod Laws
pub mod Tests
use accurack_software_backen.Common.{ℕ, Bool, not, Option, none, some, List, is_empty, nat_eq}
use accurack_software_backen.Effect.{
  bad_request, not_found, Result, ok, err, Action, ◌>>=◌, ◌>>◌, query, or_throw, write, throw_if,
}
use accurack_software_backen.Prisma.{Prisma}
use accurack_software_backen.Sale.Tables.{Customer, Sale, BalanceSheet, Db}
use accurack_software_backen.Sale.Create.{with_customers, with_balance_sheets}

module _ {N : Type 0} where
  abbrev pub sold_to : ℕ → Sale N → Bool
  sold_to customer_id s = nat_eq s.customer_id customer_id

  abbrev pub account_of : ℕ → BalanceSheet N → Bool
  account_of customer_id b = nat_eq b.customer_id customer_id

abbrev pub is_customer : ℕ → Customer → Bool
is_customer customer_id c = nat_eq c.id customer_id

module _ {N : Type 0} (p : Prisma) where
  abbrev pub find_customer_by_id : ℕ → Db N → Result (Option Customer)
  find_customer_by_id customer_id db = p.find_first (is_customer customer_id) db.customers

  abbrev pub sales_of : ℕ → Db N → Result (List (Sale N))
  sales_of customer_id db = p.find_many (sold_to customer_id) db.sales

  abbrev pub delete_account : ℕ → Db N → Result (Db N)
  delete_account customer_id db =
      with_balance_sheets db (p.delete_many (account_of customer_id) db.balance_sheets)

  abbrev pub delete_row : ℕ → Db N → Result (Db N)
  delete_row customer_id db = with_customers db (p.delete (is_customer customer_id) db.customers)

  abbrev pub delete_all : ℕ → Action (Db N) (Unit {0})
  delete_all customer_id = write (delete_account customer_id) >> write (delete_row customer_id)

  abbrev pub delete_unless_sold : ℕ → List (Sale N) → Action (Db N) (Unit {0})
  delete_unless_sold customer_id sales =
      throw_if (not (is_empty sales))
        (bad_request "Cannot delete customer with existing sales records")
      >> delete_all customer_id

  abbrev pub delete_known : ℕ → Customer → Action (Db N) (Unit {0})
  delete_known customer_id c = query (sales_of customer_id) >>= delete_unless_sold customer_id

  abbrev pub delete_found : ℕ → Option Customer → Action (Db N) (Unit {0})
  delete_found customer_id found =
      or_throw found (not_found "Customer not found") >>= delete_known customer_id

  unfoldable pub delete_customer : ℕ → Action (Db N) (Unit {0})
  delete_customer customer_id = query (find_customer_by_id customer_id) >>= delete_found customer_id
