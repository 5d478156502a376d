-- ===== src/Orders/Lifecycle.antt =====
-- The life of an order across any calls of src/driver and src/validator.
use accurack_software_backen.Common.{
  given_text, ℕ, ◌≤◌, String, true, false, not, Option, none, some, List, [], ◌∷◌, ◌≡◌, ◌==◌, refl,
  sym, ap, subst, ◌∙◌, Memᴰ, arith,
}
use accurack_software_backen.Effect.{
  not_found, forbidden, bad_request, Result, ok, err, Action, ◌>>=◌, ◌>>◌, pure, query, or_throw,
  write, throw_if,
}
use accurack_software_backen.Prisma.{Prisma}
use accurack_software_backen.Prisma.Reads.{ne-fresh}
use accurack_software_backen.Orders.Tables.{
  Payments, SaleStatus, Customer, Order, BalanceSheet, Db, with_balance_sheets, with_orders,
}
use accurack_software_backen.Orders.Change.{find_user, change_order}
use accurack_software_backen.Orders.Driver.{
  CreateOrderDto, UpdateOrderDto, is_driver, validated_already, same_order_id, updated_by_driver,
  sent, order_row, order_for, find_customer, for_customer, for_client, with_client, by_user,
  create_order, update_by, update_order, send_for_validation,
}
use accurack_software_backen.Orders.Validator.{
  paid, validated_by, rejected, confirmed_order, shipped_order, not_validated, not_confirmed,
  update_payment, find_sheet, post_to, post_found, post_payment, post_and_return, mark_validated,
  validate_order, reject_order, confirm_order, ship_order, is_validated_status, is_confirmed_status,
}
use accurack_software_backen.Orders.Calls.{
  Call, create, update, send, pay, validate, reject, confirm, ship, perform, run,
}
use accurack_software_backen.Orders.Advance.{
  rank, IsSettled, Settles, UniqueIds, Advance, Advance-refl, Advance-trans, Advances, >>=-Advances,
  query-Advances, pure-Advances, or_throw-Advances, throw_if-Advances, write-Advances, IsOnward,
  change_order-Advances,
}

one_of : (s : SaleStatus) → not (is_validated_status s) ≡ false → rank s ≤ 2
one_of s h = ground arith

two_of : (s : SaleStatus) → not (is_confirmed_status s) ≡ false → rank s ≤ 3
two_of s h = ground arith

module _ {N : Type 0} where
  no_settled : (o : Order N) (A : Type 0) → o.is_validated ≡ false → IsSettled o → A
  no_settled o A h k = absurd (false_true (sym k.marked ∙ h))
    where
      false_true : true ≡ false → ⊥
      false_true e = cc

  -- The updates that are refused once the order is validated.
  unvalidated-IsOnward :
      (f : Order N → Order N) → ((o : Order N) → (f o).id ≡ o.id) → IsOnward validated_already f
  unvalidated-IsOnward f k = record {
    id = k;
    onward = λ o free h. no_settled o (Settles o (f o)) free h;
  }

  confirmed-IsOnward : IsOnward not_validated (confirmed_order {N = N})
  confirmed-IsOnward = record {
    id = λ o. refl;
    onward = λ o free h. record {
      id = refl;
      customer = refl;
      amount = refl;
      type = refl;
      settled = record { marked = h.marked; standing = omega arith };
      forward = one_of o.status free;
    };
  }

  shipped-IsOnward : IsOnward not_confirmed (shipped_order {N = N})
  shipped-IsOnward = record {
    id = λ o. refl;
    onward = λ o free h. record {
      id = refl;
      customer = refl;
      amount = refl;
      type = refl;
      settled = record { marked = h.marked; standing = omega arith };
      forward = two_of o.status free;
    };
  }

module _ {N : Type 0} where
  with_balance_sheets-orders :
      (r : Result (List (BalanceSheet N))) (s s' : Db N)
      → with_balance_sheets s r ≡ ok s'
      → s'.orders ≡ s.orders
  with_balance_sheets-orders (ok t) s s' h = cc
  with_balance_sheets-orders (err e) s s' h = cc

module _ {N : Type 0} (n : Payments N) (p : Prisma) where
  after_user :
      (user_id : String) (m : Action (Db N) (Order N))
      → Advances m
      → Advances (query (find_user p user_id) >> m)
  after_user user_id m h =
      >>=-Advances (query (find_user p user_id)) (λ _. m) (query-Advances _) (λ _. h)

  -- A new order has a new identifier, and is not settled.
  insert_order-Advance :
      (dto : CreateOrderDto N) (client_id : String) (c : Customer) (t s' : List (Order N))
      → s' ≡ order_row p dto client_id c t ∷ t
      → Advance t s'
  insert_order-Advance dto client_id c t s' e u =
      subst
        (λ l.
          UniqueIds l
          × ((o : Order N) → Memᴰ o t → IsSettled o → (o' : Order N) × Memᴰ o' l × Settles o o'))
        (sym e)
        (unique, λ o m h. let (o', m', k) = (Advance-refl t u).1 o m h in (o', Memᴰ.tail m', k))
    where
      unique : UniqueIds (order_row p dto client_id c t ∷ t)
      unique x y (Memᴰ.head ex) (Memᴰ.head ey) same = ex ∙ sym ey
      unique x y (Memᴰ.head ex) (Memᴰ.tail my) same =
          absurd
            (ne-fresh p (λ (o : Order N). o.id) y t my (sym same ∙ ap (λ (o : Order N). o.id) ex))
      unique x y (Memᴰ.tail mx) (Memᴰ.head ey) same =
          absurd (ne-fresh p (λ (o : Order N). o.id) x t mx (same ∙ ap (λ (o : Order N). o.id) ey))
      unique x y (Memᴰ.tail mx) (Memᴰ.tail my) same = u x y mx my same

  -- `order_for` where the insertion has answered.
  module _ (dto : CreateOrderDto N) (client_id : String) (c : Customer) (s : Db N) where
    abbrev row : Order N
    row = order_row p dto client_id c s.orders

    abbrev inserted : Result (List (Order N)) → Result (Order N) × Db N
    inserted x = (write (λ db. with_orders s x) >> pure row) s

    order_for-Advance :
        (x : Result (List (Order N)))
        → p.create same_order_id row s.orders ≡ x
        → Advance s.orders (inserted x).1.orders
    order_for-Advance (ok t) h =
        insert_order-Advance dto client_id c s.orders t
          (p.create-ok same_order_id row s.orders t h).1
    order_for-Advance (err e) h = Advance-refl s.orders

  create_order-Advances :
      (dto : CreateOrderDto N) (user_id : String) → Advances (create_order p dto user_id)
  unfolding create_order
  create_order-Advances dto user_id =
      >>=-Advances (query (find_user p user_id)) (by_user p dto) (query-Advances _) λ found.
        >>=-Advances (or_throw found (not_found "User not found")) (with_client p dto)
          (or_throw-Advances _ _)
          λ u.
            >>=-Advances (throw_if (u.id == "") (not_found "User not found"))
              (λ _.
                or_throw (given_text u.client_id) (not_found "User clientId not found")
                >>= for_client p dto)
              (throw_if-Advances _ _)
              λ _.
                >>=-Advances
                  (or_throw (given_text u.client_id) (not_found "User clientId not found"))
                  (for_client p dto) (or_throw-Advances _ _)
                  λ client_id.
                    >>=-Advances (query (find_customer p dto.customer_id))
                      (for_customer p dto client_id) (query-Advances _)
                      λ customer.
                        >>=-Advances (or_throw customer (not_found "Customer not found"))
                          (order_for p dto client_id) (or_throw-Advances _ _)
                          λ c. record { advance = λ s. order_for-Advance dto client_id c s _ refl }

  pub post_to-orders :
      (o : Order N) (b : Option (BalanceSheet N)) (s s' : Db N)
      → post_to n p o b s ≡ ok s'
      → s'.orders ≡ s.orders
  post_to-orders o (some b) s s' h = with_balance_sheets-orders _ s s' h
  post_to-orders o none s s' h = with_balance_sheets-orders _ s s' h

  post_payment-Advances : (o : Order N) → Advances (post_payment n p o)
  unfolding post_payment
  post_payment-Advances o =
      >>=-Advances (query (find_sheet n p o.customer_id)) (post_found n p o) (query-Advances _) λ b.
        write-Advances (post_to n p o b) (λ s s' h.
          subst (Advance s.orders) (sym (post_to-orders o b s s' h)) (Advance-refl s.orders))

  pub post_and_return-Advances : (o : Order N) → Advances (post_and_return n p o)
  post_and_return-Advances o =
      >>=-Advances (post_payment n p o) (λ _. pure o) (post_payment-Advances o)
        (λ _. pure-Advances o)

  pub mark_validated-Advances :
      (id : ℕ) (user_id : String) → Advances (mark_validated n p id user_id)
  mark_validated-Advances id user_id =
      change_order-Advances p validated_already _ id (validated_by user_id)
        (unvalidated-IsOnward (validated_by user_id) (λ o. refl))

  validate_order-Advances : (id : ℕ) (user_id : String) → Advances (validate_order n p id user_id)
  unfolding validate_order
  validate_order-Advances id user_id =
      after_user user_id (mark_validated n p id user_id >>= post_and_return n p) (
        >>=-Advances (mark_validated n p id user_id) (post_and_return n p)
          (mark_validated-Advances id user_id) post_and_return-Advances)

  update_order-Advances :
      (id : ℕ) (dto : UpdateOrderDto N) (user_id : String)
      → Advances (update_order p id dto user_id)
  unfolding update_order
  update_order-Advances id dto user_id =
      >>=-Advances (query (find_user p user_id)) (update_by p id dto) (query-Advances _) λ found.
        >>=-Advances (throw_if (not (is_driver found)) (forbidden "User is not a driver"))
          (λ _.
            change_order p validated_already (bad_request "Cannot update validated order") id
              (updated_by_driver dto))
          (throw_if-Advances _ _)
          λ _.
            change_order-Advances p validated_already (bad_request "Cannot update validated order")
              id (updated_by_driver dto) (unvalidated-IsOnward (updated_by_driver dto) (λ o. refl))

  perform-Advances : (c : Call N) → Advances (perform n p c)
  unfolding send_for_validation update_payment reject_order confirm_order ship_order
  perform-Advances (create dto user_id) = create_order-Advances dto user_id
  perform-Advances (update id dto user_id) = update_order-Advances id dto user_id
  perform-Advances (send id user_id) =
      after_user user_id _ (
        change_order-Advances p validated_already _ id sent (unvalidated-IsOnward sent (λ o. refl)))
  perform-Advances (pay dto user_id) = after_user user_id _ (
      change_order-Advances p validated_already _ dto.order_id (paid dto)
        (unvalidated-IsOnward (paid dto) (λ o. refl)))
  perform-Advances (validate id user_id) = validate_order-Advances id user_id
  perform-Advances (reject id user_id) = after_user user_id _ (
      change_order-Advances p validated_already _ id rejected
        (unvalidated-IsOnward rejected (λ o. refl)))
  perform-Advances (confirm id user_id) =
      change_order-Advances p not_validated _ id confirmed_order confirmed-IsOnward
  perform-Advances (ship id user_id) =
      change_order-Advances p not_confirmed _ id shipped_order shipped-IsOnward

  pub run-Advance : (cs : List (Call N)) (s : Db N) → Advance s.orders (run n p cs s).orders
  unfolding run
  run-Advance [] s = Advance-refl s.orders
  run-Advance (c ∷ cs) s =
      let t = (perform n p c s).1 in
      Advance-trans s.orders t.orders (run n p cs t).orders ((perform-Advances c).advance s)
        (run-Advance cs t)

  -- Once an order is validated and stands as such, it is there after any calls of any users, whether
  -- they return or throw: its customer and payment are what they were, it is still validated, and it
  -- stands where it stood or further on towards its shipment. Identifiers are unique at the start.
  pub run-Settles :
      (cs : List (Call N)) (s : Db N) (o : Order N)
      → UniqueIds s.orders
      → Memᴰ o s.orders
      → IsSettled o
      → (o' : Order N) × Memᴰ o' (run n p cs s).orders × Settles o o'
  run-Settles cs s o u m h = (run-Advance cs s u).1 o m h
