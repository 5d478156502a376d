-- ===== src/Orders/Shipment.antt =====
-- The way of an order of src/driver and src/validator to its shipment, where the database refuses a write only for its keys.
use accurack_software_backen.Common.{
  String, false, not, Option, some, List, ◌≡◌, refl, ap, ◌∙◌, same_text,
}
use accurack_software_backen.Effect.{
  bad_request, forbidden, Result, ok, ◌>>=◌, ◌>>◌, query, write, throw_if,
}
use accurack_software_backen.Effect.Laws.{>>=_of_ok}
use accurack_software_backen.Prisma.{Prisma}
use accurack_software_backen.Orders.Tables.{
  Payments, validated, User, Customer, Order, BalanceSheet, Db, with_balance_sheets,
}
use accurack_software_backen.Orders.Change.{find_user, change_order}
use accurack_software_backen.Orders.Driver.{
  UpdateOrderDto, validated_already, updated_by_driver, update_order, update_by, is_driver, sent,
  send_for_validation,
}
use accurack_software_backen.Orders.Validator.{
  validated_by, confirmed_order, shipped_order, not_validated, not_confirmed, post_payment,
  post_found, validate_order, confirm_order, ship_order,
}
use accurack_software_backen.Orders.Stands.{
  Stands, Answers, changed, change_order-returns, changed-Stands,
}

module _ {N : Type 0} (n : Payments N) (p : Prisma) (users : List User) (customers : List Customer)
    (good : Answers N p users customers) where
  -- The payment of an order can be posted, and this leaves the orders.
  record Posts (o : Order N) (s : Db N) : Type 0 where
    after : Db N
    ran : post_payment n p o s ≡ (ok tt, after)
    orders : after.orders ≡ s.orders

  -- `post_payment` where the search, and then the write, have answered.
  module _ (o : Order N) (s : Db N) where
    abbrev found_after : Result (Option (BalanceSheet N)) → Result (Unit {0}) × Db N
    found_after x = (query (λ db. x) >>= post_found n p o) s

  abbrev write_after : Db N → Result (List (BalanceSheet N)) → Result (Unit {0}) × Db N
  write_after s x = write (λ db. with_balance_sheets s x) s

  -- From the table to the shipment, each call by any user.
  pub record Delivered (o : Order N) (s : Db N) (sender validator confirmer shipper : String)
      : Type 0 where
    pub s1 : Db N
    pub s2 : Db N
    pub s3 : Db N
    pub s4 : Db N
    pub sends : send_for_validation p o.id sender s ≡ (ok (sent o), s1)
    pub validates :
        validate_order n p o.id validator s1 ≡ (ok (validated_by validator (sent o)), s2)
    pub confirms :
        confirm_order n p o.id confirmer s2
        ≡ (ok (confirmed_order (validated_by validator (sent o))), s3)
    pub ships :
        ship_order n p o.id shipper s3
        ≡ (ok (shipped_order (confirmed_order (validated_by validator (sent o)))), s4)
    pub stands :
        Stands p users customers good
          (shipped_order (confirmed_order (validated_by validator (sent o))))
          s4.orders

  -- A driver who updates an order to `validated` has it shipped without a validation.
  pub record Unvalidated (dto : UpdateOrderDto N) (o : Order N) (s : Db N)
      (driver confirmer shipper : String) : Type 0 where
    pub s1 : Db N
    pub s2 : Db N
    pub s3 : Db N
    pub updates : update_order p o.id dto driver s ≡ (ok (updated_by_driver dto o), s1)
    pub confirms :
        confirm_order n p o.id confirmer s1 ≡ (ok (confirmed_order (updated_by_driver dto o)), s2)
    pub ships :
        ship_order n p o.id shipper s2
        ≡ (ok (shipped_order (confirmed_order (updated_by_driver dto o))), s3)
    pub stands :
        Stands p users customers good
          (shipped_order (confirmed_order (updated_by_driver dto o)))
          s3.orders
    pub unposted : s3.balance_sheets ≡ s.balance_sheets

  -- With a database that refuses a write only for its keys, every order that is not validated can be
  -- shipped without validation: a driver updates its status to `validated`, and it is confirmed and
  -- shipped; it is still marked as not validated, and no payment has been posted.
  pub update_order_skips_validation :
      (dto : UpdateOrderDto N) (o : Order N) (s : Db N) (driver confirmer shipper : String)
      (u : User)
      → Stands p users customers good o s.orders
      → o.is_validated ≡ false
      → find_user p driver s ≡ ok (some u)
      → u.position ≡ some "driver"
      → dto.status ≡ some validated
      → Unvalidated dto o s driver confirmer shipper
  unfolding update_order confirm_order ship_order
  update_order_skips_validation dto o s driver confirmer shipper u here free found position status =
      let o1 = updated_by_driver dto o in
      let s1 = changed p users customers good o.id (updated_by_driver dto) s in
      let h1 : Stands p users customers good o1 s1.orders =
        changed-Stands p users customers good (updated_by_driver dto) (λ x. refl) o s.orders here in
      let s2 = changed p users customers good o.id confirmed_order s1 in
      let h2 : Stands p users customers good (confirmed_order o1) s2.orders =
        changed-Stands p users customers good confirmed_order (λ x. refl) o1 s1.orders h1 in
      record {
        s1 = s1;
        s2 = s2;
        s3 = changed p users customers good o.id shipped_order s2;
        updates =
            >>=_of_ok (query (find_user p driver)) (update_by p o.id dto) s s (some u)
              (ap (λ x. (x, s)) found)
            ∙ (ap
                  (λ b.
                    (throw_if b (forbidden "User is not a driver")
                        >> change_order p validated_already
                            (bad_request "Cannot update validated order") o.id
                            (updated_by_driver dto))
                      s)
                  (is_a_driver u position)
                ∙ change_order-returns p users customers good validated_already
                    (bad_request "Cannot update validated order") (updated_by_driver dto) s o here
                    free (λ x _ held. held));
        confirms =
            change_order-returns p users customers good not_validated
              (bad_request "Order must be validated before confirmation") confirmed_order s1 o1 h1
              (is_validated_now dto o status) (λ x _ held. held);
        ships =
            change_order-returns p users customers good not_confirmed
              (bad_request "Order must be confirmed before shipping") shipped_order s2
              (confirmed_order o1) h2 refl (λ x _ held. held);
        stands =
            changed-Stands p users customers good shipped_order (λ x. refl) (confirmed_order o1)
              s2.orders h2;
        unposted = refl;
      }
    where
      is_a_driver : (u : User) → u.position ≡ some "driver" → not (is_driver (some u)) ≡ false
      is_a_driver u e = ap (λ x. not (same_text x (some "driver"))) e

      is_validated_now :
          (dto : UpdateOrderDto N) (o : Order N)
          → dto.status ≡ some validated
          → not_validated (updated_by_driver dto o) ≡ false
      is_validated_now dto o e =
          ap (λ x. not_validated (updated_by_driver (record dto { status = x }) o)) e
