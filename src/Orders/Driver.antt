-- ===== src/Orders/Driver.antt =====
-- src/driver/driver.service.ts: creating and updating an order, and sending it for validation. Reads
-- with paging are left out.
use accurack_software_backen.Common.{
  ℕ, String, Bool, false, not, Option, none, some, List, map, ◌==◌, nat_eq, or_else, same_text,
  given_text,
}
use accurack_software_backen.Effect.{
  bad_request, not_found, forbidden, Result, ok, Action, ◌>>=◌, ◌>>◌, pure, query, or_throw, write,
  throw_if,
}
use accurack_software_backen.Prisma.{Prisma}
use accurack_software_backen.Sale.Tables.{PaymentMethod}
use accurack_software_backen.Orders.Tables.{
  SaleStatus, pending, pending_validation, User, Customer, Order, Db, with_orders,
}
use accurack_software_backen.Orders.Change.{find_user, change_order}

pub record CreateOrderDto (N : Type 0) : Type 0 where
  pub customer_id : ℕ
  pub driver_id : String
  pub driver_name : String
  pub store_id : String
  pub payment_amount : N
  pub payment_type : PaymentMethod

pub record UpdateOrderDto (N : Type 0) : Type 0 where
  pub payment_amount : N
  pub payment_type : PaymentMethod
  pub status : Option SaleStatus

-- `!userExist || userExist.position !== 'driver'`
abbrev pub is_driver : Option User → Bool
is_driver none = false
is_driver (some u) = same_text u.position (some "driver")

module _ {N : Type 0} where
  abbrev pub validated_already : Order N → Bool
  validated_already o = o.is_validated

  abbrev pub same_order_id : Order N → Order N → Bool
  same_order_id a b = nat_eq a.id b.id

  abbrev pub updated_by_driver : UpdateOrderDto N → Order N → Order N
  updated_by_driver dto o = record o {
    payment_amount = dto.payment_amount;
    payment_type = dto.payment_type;
    status = or_else dto.status o.status;
  }

  abbrev pub sent : Order N → Order N
  sent o = record o { status = pending_validation }

module _ {N : Type 0} (p : Prisma) where
  abbrev pub order_row : CreateOrderDto N → String → Customer → List (Order N) → Order N
  order_row dto client_id c orders = record {
    id = p.fresh (map (λ (o : Order N). o.id) orders);
    customer_id = dto.customer_id;
    customer_name = c.customer_name;
    store_id = dto.store_id;
    client_id = client_id;
    driver_id = dto.driver_id;
    driver_name = dto.driver_name;
    payment_amount = dto.payment_amount;
    payment_type = dto.payment_type;
    status = pending;
    is_validated = false;
    validator_id = none;
  }

  abbrev pub new_order : CreateOrderDto N → String → Customer → Db N → Result (Order N)
  new_order dto client_id c db = ok (order_row dto client_id c db.orders)

  abbrev pub insert_order : Order N → Db N → Result (Db N)
  insert_order o db = with_orders db (p.create same_order_id o db.orders)

  abbrev pub add_order : Order N → Action (Db N) (Order N)
  add_order o = write (insert_order o) >> pure o

  abbrev pub order_for : CreateOrderDto N → String → Customer → Action (Db N) (Order N)
  order_for dto client_id c = query (new_order dto client_id c) >>= add_order

  abbrev pub find_customer : ℕ → Db N → Result (Option Customer)
  find_customer id db = p.find_first (λ (c : Customer). nat_eq c.id id) db.customers

  abbrev pub for_customer : CreateOrderDto N → String → Option Customer → Action (Db N) (Order N)
  for_customer dto client_id found =
      or_throw found (not_found "Customer not found") >>= order_for dto client_id

  abbrev pub for_client : CreateOrderDto N → String → Action (Db N) (Order N)
  for_client dto client_id = query (find_customer dto.customer_id) >>= for_customer dto client_id

  abbrev pub with_client : CreateOrderDto N → User → Action (Db N) (Order N)
  with_client dto u =
      throw_if (u.id == "") (not_found "User not found")
      >> (or_throw (given_text u.client_id) (not_found "User clientId not found")
          >>= for_client dto)

  abbrev pub by_user : CreateOrderDto N → Option User → Action (Db N) (Order N)
  by_user dto found = or_throw found (not_found "User not found") >>= with_client dto

  unfoldable pub create_order : CreateOrderDto N → String → Action (Db N) (Order N)
  create_order dto user_id = query (find_user p user_id) >>= by_user dto

  abbrev pub update_by : ℕ → UpdateOrderDto N → Option User → Action (Db N) (Order N)
  update_by id dto found =
      throw_if (not (is_driver found)) (forbidden "User is not a driver")
      >> change_order p validated_already (bad_request "Cannot update validated order") id
          (updated_by_driver dto)

  unfoldable pub update_order : ℕ → UpdateOrderDto N → String → Action (Db N) (Order N)
  update_order id dto user_id = query (find_user p user_id) >>= update_by id dto

  unfoldable pub send_for_validation : ℕ → String → Action (Db N) (Order N)
  send_for_validation id user_id =
      query (find_user p user_id)
      >> change_order p validated_already (bad_request "Order is already validated") id sent
