-- ===== src/Orders/Tests.antt =====
-- Orders of src/driver and src/validator on a small shop in memory, with natural numbers in place of
-- doubles.
use accurack_software_backen.Common.{
  ℕ, ltb, ◌+◌, ◌-◌, true, false, not, none, some, [], ◌∷◌, ◌≡◌, refl, sym, ◌∙◌, arith, Memᴰ, map,
}
use accurack_software_backen.Effect.{ok}
use accurack_software_backen.Prisma.Memory.{memory, memory-IsReliable, memory-create, memory-update}
use accurack_software_backen.Sale.Tables.{cash, PaymentStatus}
use accurack_software_backen.Orders.Tables.{
  Payments, pending, validated, shipped, cancelled, User, Customer, Order, BalanceSheet, Db,
}
use accurack_software_backen.Orders.Change.{change_order}
use accurack_software_backen.Orders.Driver.{
  CreateOrderDto, UpdateOrderDto, create_order, update_order, send_for_validation,
}
use accurack_software_backen.Orders.Validator.{
  validated_by, update_payment, post_payment, validate_order, reject_order, confirm_order,
  ship_order,
}
use accurack_software_backen.Orders.Calls.{
  create, update, send, validate, reject, confirm, ship, run,
}
use accurack_software_backen.Orders.Advance.{IsSettled, Settles, UniqueIds}
use accurack_software_backen.Orders.Lifecycle.{run-Settles}
use accurack_software_backen.Orders.Delivery.{PaidOnce, validate_order_once}
use accurack_software_backen.Orders.Stands.{Stands, Answers}
use accurack_software_backen.Orders.Shipment.{Unvalidated, update_order_skips_validation}

abbrev naturals : Payments ℕ
naturals = record { zero = 0; plus = ◌+◌; minus = ◌-◌; at_least = λ a b. not (ltb a b) }

abbrev dan : User
dan = record { id = "dan"; position = some "driver"; client_id = some "c1" }

abbrev val : User
val = record { id = "val"; position = some "validator"; client_id = some "c1" }

abbrev ann : Customer
ann = record { id = 7; customer_name = "Ann" }

abbrev crate : Order ℕ
crate = record {
  id = 3;
  customer_id = 7;
  customer_name = "Ann";
  store_id = "s1";
  client_id = "c1";
  driver_id = "dan";
  driver_name = "Dan";
  payment_amount = 4;
  payment_type = cash;
  status = pending;
  is_validated = false;
  validator_id = none;
}

abbrev sheet : BalanceSheet ℕ
sheet = record {
  id = 1;
  customer_id = 7;
  remaining_amount = 10;
  amount_paid = 2;
  payment_status = PaymentStatus.partial;
}

abbrev depot : Db ℕ
depot = record {
  users = dan ∷ val ∷ [];
  customers = ann ∷ [];
  orders = crate ∷ [];
  balance_sheets = sheet ∷ [];
}

answers : Answers ℕ (memory true) depot.users depot.customers
answers = record {
  reliable = memory-IsReliable true;
  update_order-returns = λ q f t h held. memory-update true q f t h;
  update_sheet-returns = λ q f t h held. memory-update true q f t h;
  create_sheet-returns = λ clash r t h held. memory-create true clash r t h;
}

abbrev to_validated : UpdateOrderDto ℕ
to_validated = record { payment_amount = 4; payment_type = cash; status = some validated }

abbrev new_crate : CreateOrderDto ℕ
new_crate = record {
  customer_id = 7;
  driver_id = "dan";
  driver_name = "Dan";
  store_id = "s1";
  payment_amount = 6;
  payment_type = cash;
}

abbrev checked : Order ℕ
checked = validated_by "val" crate

abbrev checked_depot : Db ℕ
checked_depot = record depot {
  orders = checked ∷ [];
  balance_sheets = record sheet { remaining_amount = 6; amount_paid = 6 } ∷ [];
}

validates : validate_order naturals (memory true) 3 "val" depot ≡ (ok checked, checked_depot)
unfolding validate_order change_order post_payment
validates = refl

-- A driver, a validator and the others in turn: the order is shipped once it is validated and confirmed.
ships :
    map
      (λ (o : Order ℕ). o.status)
      (run naturals
        (memory true)
        (send 3 "dan" ∷ validate 3 "val" ∷ reject 3 "val" ∷ confirm 3 "boss" ∷ ship 3 "boss" ∷ [])
        depot).orders
    ≡ shipped ∷ []
unfolding run create_order update_order send_for_validation update_payment validate_order
    reject_order confirm_order ship_order change_order post_payment
ships = refl

rejects :
    map
      (λ (o : Order ℕ). o.status)
      (run naturals
        (memory true)
        (create new_crate "dan" ∷ reject 3 "val" ∷ validate 9 "val" ∷ [])
        depot).orders
    ≡ pending ∷ cancelled ∷ []
unfolding run create_order update_order send_for_validation update_payment validate_order
    reject_order confirm_order ship_order change_order post_payment
rejects = refl

alone : (a : Order ℕ) → UniqueIds (a ∷ [])
alone a x y mx my e = only x mx ∙ sym (only y my)
  where
    only : (x : Order ℕ) → Memᴰ x (a ∷ []) → x ≡ a
    only x (Memᴰ.head e) = e
    only x (Memᴰ.tail m) = elim m [ ]

stands : Stands (memory true) depot.users depot.customers answers crate depot.orders
stands = record { listed = Memᴰ.head refl; alone = λ x m e. only x m }
  where
    only : (x : Order ℕ) → Memᴰ x (crate ∷ []) → x ≡ crate
    only x (Memᴰ.head e) = e
    only x (Memᴰ.tail m) = elim m [ ]

settled : IsSettled checked
settled = record { marked = refl; standing = omega arith }

run-Settles_example :
    (o' : Order ℕ) × Memᴰ o'
      (run naturals
        (memory true)
        (reject 3 "val" ∷ update 3 to_validated "dan" ∷ confirm 3 "boss" ∷ [])
        checked_depot).orders
    × Settles checked o'
run-Settles_example =
    run-Settles naturals (memory true)
      (reject 3 "val" ∷ update 3 to_validated "dan" ∷ confirm 3 "boss" ∷ []) checked_depot checked
      (alone checked) (Memᴰ.head refl) settled

validate_order_once_example :
    PaidOnce naturals
      (memory true)
      checked
      depot
      checked_depot
      (run naturals (memory true) (reject 3 "val" ∷ confirm 3 "boss" ∷ []) checked_depot)
      (validate_order naturals
        (memory true)
        3
        "val2"
        (run naturals (memory true) (reject 3 "val" ∷ confirm 3 "boss" ∷ []) checked_depot))
validate_order_once_example =
    validate_order_once naturals (memory true) 3 "val" "val2"
      (reject 3 "val" ∷ confirm 3 "boss" ∷ []) depot checked_depot checked (alone crate) validates

update_order_skips_validation_example :
    Unvalidated naturals
      (memory true)
      depot.users
      depot.customers
      answers
      to_validated
      crate
      depot
      "dan"
      "boss"
      "boss"
update_order_skips_validation_example =
    update_order_skips_validation naturals (memory true) depot.users depot.customers answers
      to_validated crate depot "dan" "boss" "boss" dan stands refl refl refl refl
