-- ===== src/Orders/Calls.antt =====
-- The calls of src/driver and src/validator that write orders, and runs of them: any calls, by any
-- users, in any order, each of which returns or throws.
use accurack_software_backen.Common.{ℕ, String, List, [], ◌∷◌}
use accurack_software_backen.Effect.{Action}
use accurack_software_backen.Prisma.{Prisma}
use accurack_software_backen.Orders.Tables.{Payments, Order, Db}
use accurack_software_backen.Orders.Driver.{
  CreateOrderDto, UpdateOrderDto, create_order, update_order, send_for_validation,
}
use accurack_software_backen.Orders.Validator.{
  UpdatePaymentDto, update_payment, validate_order, reject_order, confirm_order, ship_order,
}

pub data Call (N : Type 0) : Type 0 where
  create : CreateOrderDto N → String → Call N
  update : ℕ → UpdateOrderDto N → String → Call N
  send : ℕ → String → Call N
  pay : UpdatePaymentDto N → String → Call N
  validate reject confirm ship : ℕ → String → Call N

module _ {N : Type 0} (n : Payments N) (p : Prisma) where
  abbrev pub perform : Call N → Action (Db N) (Order N)
  perform (create dto user_id) = create_order p dto user_id
  perform (update id dto user_id) = update_order p id dto user_id
  perform (send id user_id) = send_for_validation p id user_id
  perform (pay dto user_id) = update_payment n p dto user_id
  perform (validate id user_id) = validate_order n p id user_id
  perform (reject id user_id) = reject_order n p id user_id
  perform (confirm id user_id) = confirm_order n p id user_id
  perform (ship id user_id) = ship_order n p id user_id

  unfoldable pub run : List (Call N) → Db N → Db N
  run [] s = s
  run (c ∷ cs) s = run cs (perform c s).1
