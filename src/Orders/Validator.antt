-- ===== src/Orders/Validator.antt =====
-- src/validator/validator.service.ts: the payment of an order, its validation and rejection, and its
-- confirmation and shipment. No transaction is open: a validated order stays so where the posting of
-- its payment throws. Reads with paging are left out.
use accurack_software_backen.Common.{
  ℕ, String, Bool, true, false, not, Option, none, some, List, map, nat_eq, if◌then◌else◌,
}
use accurack_software_backen.Effect.{bad_request, Result, Action, ◌>>=◌, ◌>>◌, pure, query, write}
use accurack_software_backen.Prisma.{Prisma}
use accurack_software_backen.Sale.Tables.{PaymentMethod, PaymentStatus}
use accurack_software_backen.Orders.Tables.{
  Payments, SaleStatus, validated, confirmed, shipped, cancelled, Order, BalanceSheet, Db,
  with_balance_sheets,
}
use accurack_software_backen.Orders.Change.{find_user, change_order}
use accurack_software_backen.Orders.Driver.{validated_already}

pub record UpdatePaymentDto (N : Type 0) : Type 0 where
  pub order_id : ℕ
  pub payment_amount : N
  pub payment_type : PaymentMethod

abbrev pub is_validated_status : SaleStatus → Bool
is_validated_status validated = true
is_validated_status _ = false

abbrev pub is_confirmed_status : SaleStatus → Bool
is_confirmed_status confirmed = true
is_confirmed_status _ = false

module _ {N : Type 0} where
  abbrev pub paid : UpdatePaymentDto N → Order N → Order N
  paid dto o = record o { payment_amount = dto.payment_amount; payment_type = dto.payment_type }

  abbrev pub validated_by : String → Order N → Order N
  validated_by user_id o = record o {
    is_validated = true;
    status = validated;
    validator_id = some user_id;
  }

  abbrev pub rejected : Order N → Order N
  rejected o = record o { status = cancelled; is_validated = false }

  abbrev pub confirmed_order : Order N → Order N
  confirmed_order o = record o { status = confirmed }

  abbrev pub shipped_order : Order N → Order N
  shipped_order o = record o { status = shipped }

  abbrev pub not_validated : Order N → Bool
  not_validated o = not (is_validated_status o.status)

  abbrev pub not_confirmed : Order N → Bool
  not_confirmed o = not (is_confirmed_status o.status)

  abbrev pub is_sheet : ℕ → BalanceSheet N → Bool
  is_sheet id b = nat_eq b.id id

  abbrev pub same_sheet_id : BalanceSheet N → BalanceSheet N → Bool
  same_sheet_id a b = nat_eq a.id b.id

module _ {N : Type 0} (n : Payments N) (p : Prisma) where
  open n use {zero, plus, minus, at_least}

  unfoldable pub update_payment : UpdatePaymentDto N → String → Action (Db N) (Order N)
  update_payment dto user_id =
      query (find_user p user_id)
      >> change_order p validated_already (bad_request "Cannot update validated order") dto.order_id
          (paid dto)

  -- `findFirst` without an order: any sheet of the customer
  abbrev pub find_sheet : ℕ → Db N → Result (Option (BalanceSheet N))
  find_sheet customer_id db =
      p.find_first (λ (b : BalanceSheet N). nat_eq b.customer_id customer_id) db.balance_sheets

  abbrev pub posted : N → N → BalanceSheet N → BalanceSheet N
  posted payment owed b = record b {
    amount_paid = plus b.amount_paid payment;
    remaining_amount = minus b.remaining_amount payment;
    payment_status = if at_least payment owed then PaymentStatus.paid else PaymentStatus.partial;
  }

  abbrev pub first_sheet : Order N → List (BalanceSheet N) → BalanceSheet N
  first_sheet o sheets = record {
    id = p.fresh (map (λ (b : BalanceSheet N). b.id) sheets);
    customer_id = o.customer_id;
    remaining_amount = zero;
    amount_paid = o.payment_amount;
    payment_status = PaymentStatus.paid;
  }

  abbrev pub post_to : Order N → Option (BalanceSheet N) → Db N → Result (Db N)
  post_to o (some b) db =
      with_balance_sheets db
        (p.update (is_sheet b.id) (posted o.payment_amount b.remaining_amount) db.balance_sheets)
  post_to o none db =
      with_balance_sheets db
        (p.create same_sheet_id (first_sheet o db.balance_sheets) db.balance_sheets)

  abbrev pub post_found : Order N → Option (BalanceSheet N) → Action (Db N) (Unit {0})
  post_found o found = write (post_to o found)

  unfoldable pub post_payment : Order N → Action (Db N) (Unit {0})
  post_payment o = query (find_sheet o.customer_id) >>= post_found o

  abbrev pub post_and_return : Order N → Action (Db N) (Order N)
  post_and_return o = post_payment o >> pure o

  abbrev pub mark_validated : ℕ → String → Action (Db N) (Order N)
  mark_validated id user_id =
      change_order p validated_already (bad_request "Order is already validated") id
        (validated_by user_id)

  unfoldable pub validate_order : ℕ → String → Action (Db N) (Order N)
  validate_order id user_id =
      query (find_user p user_id) >> (mark_validated id user_id >>= post_and_return)

  unfoldable pub reject_order : ℕ → String → Action (Db N) (Order N)
  reject_order id user_id =
      query (find_user p user_id)
      >> change_order p validated_already (bad_request "Cannot reject validated order") id rejected

  unfoldable pub confirm_order : ℕ → String → Action (Db N) (Order N)
  confirm_order id user_id =
      change_order p not_validated (bad_request "Order must be validated before confirmation") id
        confirmed_order

  unfoldable pub ship_order : ℕ → String → Action (Db N) (Order N)
  ship_order id user_id =
      change_order p not_confirmed (bad_request "Order must be confirmed before shipping") id
        shipped_order
