-- ===== src/Orders/Posting.antt =====
-- What validateOrder of src/validator/validator.service.ts posts to the account of a customer.
use accurack_software_backen.Common.{
  ℕ, String, true, Option, none, some, List, ◌∷◌, ◌≡◌, ◌≢◌, ◌⊎◌, ap, subst, ◌∙◌, Memᴰ, map, nat_eq,
  any_of_Mem, arith, inl, inr, if◌then◌else◌,
}
use accurack_software_backen.Effect.{bad_request, Result, ok, err, ◌>>=◌, pure, query}
use accurack_software_backen.Effect.Laws.{>>=-eq-ok, query-eq-ok, write-eq-ok}
use accurack_software_backen.Prisma.{Prisma, update_rows}
use accurack_software_backen.Sale.Tables.{PaymentStatus}
use accurack_software_backen.Orders.Tables.{Payments, Order, BalanceSheet, Db, with_balance_sheets}
use accurack_software_backen.Orders.Change.{find_user}
use accurack_software_backen.Orders.Driver.{validated_already}
use accurack_software_backen.Orders.Validator.{
  validated_by, mark_validated, find_sheet, first_sheet, posted, is_sheet, same_sheet_id, post_to,
  post_found, post_payment, post_and_return, validate_order,
}
use accurack_software_backen.Orders.Changed.{change_order-Changed}

module _ {N : Type 0} (n : Payments N) (p : Prisma) where
  -- A sheet of the customer has taken up the payment once, and the others are as they were.
  pub record PostedTo (o : Order N) (t t' : List (BalanceSheet N)) : Type 0 where
    pub sheet : BalanceSheet N
    pub listed : Memᴰ sheet t
    pub mine : sheet.customer_id ≡ o.customer_id
    pub left :
        t'
        ≡ update_rows
            (λ x. nat_eq x.id sheet.id)
            (λ x. record x {
              amount_paid = n.plus x.amount_paid o.payment_amount;
              remaining_amount = n.minus x.remaining_amount o.payment_amount;
              payment_status =
                  if n.at_least o.payment_amount sheet.remaining_amount
                  then PaymentStatus.paid
                  else PaymentStatus.partial;
            })
            t

  -- The customer had no sheet, and one with the payment is there.
  pub record Opened (o : Order N) (t t' : List (BalanceSheet N)) : Type 0 where
    pub absent : (x : BalanceSheet N) → Memᴰ x t → x.customer_id ≢ o.customer_id
    pub left :
        t'
        ≡ record {
          id = p.fresh (map (λ (x : BalanceSheet N). x.id) t);
          customer_id = o.customer_id;
          remaining_amount = n.zero;
          amount_paid = o.payment_amount;
          payment_status = PaymentStatus.paid;
        }
          ∷ t

  abbrev pub Posted : Order N → List (BalanceSheet N) → List (BalanceSheet N) → Type 0
  Posted o t t' = PostedTo o t t' ⊎ Opened o t t'

  with_balance_sheets-eq-ok :
      (r : Result (List (BalanceSheet N))) (s s' : Db N)
      → with_balance_sheets s r ≡ ok s'
      → r ≡ ok s'.balance_sheets
  with_balance_sheets-eq-ok (ok t) s s' h = cc
  with_balance_sheets-eq-ok (err e) s s' h = cc

  equal_of_test : (a b : ℕ) → nat_eq a b ≡ true → a ≡ b
  equal_of_test a b h = ground arith

  test_of_equal : (a b : ℕ) → a ≡ b → nat_eq a b ≡ true
  test_of_equal a b h = ground arith

  post_to-Posted :
      (o : Order N) (found : Option (BalanceSheet N)) (s s' : Db N)
      → find_sheet n p o.customer_id s ≡ ok found
      → post_to n p o found s ≡ ok s'
      → Posted o s.balance_sheets s'.balance_sheets
  post_to-Posted o (some b) s s' asked h =
      let (m, mine) =
        p.find_first-some (λ (x : BalanceSheet N). nat_eq x.customer_id o.customer_id)
          s.balance_sheets b asked in
      inl (record {
        sheet = b;
        listed = m;
        mine = equal_of_test b.customer_id o.customer_id mine;
        left =
            p.update-ok (is_sheet b.id) (posted n p o.payment_amount b.remaining_amount)
              s.balance_sheets s'.balance_sheets (with_balance_sheets-eq-ok _ s s' h);
      })
  post_to-Posted o none s s' asked h = inr (record {
    absent = λ x m same.
        let mine : nat_eq x.customer_id o.customer_id ≡ true =
          test_of_equal x.customer_id o.customer_id same in
        cc (
          any_of_Mem (λ (x : BalanceSheet N). nat_eq x.customer_id o.customer_id) x s.balance_sheets
              m mine,
          p.find_first-none (λ (x : BalanceSheet N). nat_eq x.customer_id o.customer_id)
              s.balance_sheets asked,
        );
    left =
        (p.create-ok same_sheet_id (first_sheet n p o s.balance_sheets) s.balance_sheets
          s'.balance_sheets (with_balance_sheets-eq-ok _ s s' h)).1;
  })

  -- A validation that returned has posted the payment of the order that it returned.
  pub validate_order-Posted :
      (id : ℕ) (user_id : String) (s s' : Db N) (o : Order N)
      → validate_order n p id user_id s ≡ (ok o, s')
      → Posted o s.balance_sheets s'.balance_sheets
  unfolding validate_order post_payment
  validate_order-Posted id user_id s s' o h =
      let (x, s1, asked, h1) =
        >>=-eq-ok (query (find_user p user_id))
          (λ _. mark_validated n p id user_id >>= post_and_return n p) s s' o h in
      let (_, at1) = query-eq-ok (find_user p user_id) s s1 x asked in
      let (a, t, marked, h2) =
        >>=-eq-ok (mark_validated n p id user_id) (post_and_return n p) s1 s' o h1 in
      let c =
        change_order-Changed p validated_already (bad_request "Order is already validated") id
          (validated_by user_id) s1 t a marked in
      let before : t.balance_sheets ≡ s.balance_sheets =
        ap (λ (d : Db N). d.balance_sheets) c.left ∙ ap (λ (d : Db N). d.balance_sheets) at1 in
      let (u, w, ran, last) = >>=-eq-ok (post_payment n p a) (λ _. pure a) t s' o h2 in
      let (found, t1, read, wrote) =
        >>=-eq-ok (query (find_sheet n p a.customer_id)) (post_found n p a) t w u ran in
      let (answer, at2) = query-eq-ok (find_sheet n p a.customer_id) t t1 found read in
      let done =
        write-eq-ok (post_to n p a found) t w u
          (subst (λ d. post_found n p a found d ≡ (ok u, w)) at2 wrote) in
      let same : a ≡ o = returned last in
      let at_end : w ≡ s' = ap (λ (r : Result (Order N) × Db N). r.1) last in
      subst (λ l. Posted o l s'.balance_sheets) before
        (subst (λ (d : Db N). Posted o t.balance_sheets d.balance_sheets) at_end
          (subst (λ y. Posted y t.balance_sheets w.balance_sheets) same
            (post_to-Posted a found t w answer done)))
    where
      returned : {x y : Order N} {d e : Db N} → pure {S = Db N} x d ≡ (ok y, e) → x ≡ y
      returned k = cc
