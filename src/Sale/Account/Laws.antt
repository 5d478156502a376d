-- ===== src/Sale/Account/Laws.antt =====
-- A customer of src/sale/sale.service.ts is deleted with the account, and only without sales.
use accurack_software_backen.Common.{
  ℕ, true, false, not, List, [], ◌∷◌, ◌≡◌, refl, ap, subst, ◌∙◌, Memᴰ, Bool-cases, inl, inr, keep,
  is_empty, nat_eq,
}
use accurack_software_backen.Effect.{Result, ok, err, not_found, query, or_throw, write, throw_if}
use accurack_software_backen.Effect.Laws.{
  >>=-eq-ok, write-eq-ok, query-eq-ok, or_throw-eq-ok, throw_if-eq-ok,
}
use accurack_software_backen.Prisma.{Prisma}
use accurack_software_backen.Sale.Tables.{Customer, Sale, BalanceSheet, Db}
use accurack_software_backen.Sale.Create.{with_customers, with_balance_sheets}
use accurack_software_backen.Sale.Account.{
  sold_to, account_of, is_customer, find_customer_by_id, sales_of, delete_account, delete_row,
  delete_all, delete_unless_sold, delete_known, delete_found, delete_customer,
}

none_of_empty : {A : Type 0} (xs : List A) (x : A) → not (is_empty xs) ≡ false → ¬ (Memᴰ x xs)
none_of_empty [] x h m = elim m [ ]
none_of_empty (y ∷ xs) x h m = cc

module _ {N : Type 0} (p : Prisma) where
  -- Without the customer and the entries of the account; all else is as before. The customer had no sale.
  pub record Deleted (customer_id : ℕ) (db db' : Db N) : Type 0 where
    pub customer : Customer
    pub listed : Memᴰ customer db.customers
    pub owner : nat_eq customer.id customer_id ≡ true
    pub unsold : (s : Sale N) → Memᴰ s db.sales → nat_eq s.customer_id customer_id ≡ false
    pub left : db' ≡ record db {
      customers = keep (λ c. not (is_customer customer_id c)) db.customers;
      balance_sheets = keep (λ b. not (account_of customer_id b)) db.balance_sheets;
    }

  delete_account-eq-ok :
      (customer_id : ℕ) (s s' : Db N)
      → delete_account p customer_id s ≡ ok s'
      → s'
        ≡ record s { balance_sheets = keep (λ b. not (account_of customer_id b)) s.balance_sheets }
  delete_account-eq-ok customer_id s s' h = from _ refl h
    where
      from :
          (r : Result (List (BalanceSheet N)))
          → p.delete_many (account_of customer_id) s.balance_sheets ≡ r
          → with_balance_sheets s r ≡ ok s'
          → s' ≡ record s {
            balance_sheets = keep (λ b. not (account_of customer_id b)) s.balance_sheets;
          }
      from (ok t) e k = cc (p.delete_many-ok (account_of customer_id) s.balance_sheets t e, k)
      from (err x) e k = cc

  delete_row-eq-ok :
      (customer_id : ℕ) (s s' : Db N)
      → delete_row p customer_id s ≡ ok s'
      → s' ≡ record s { customers = keep (λ c. not (is_customer customer_id c)) s.customers }
  delete_row-eq-ok customer_id s s' h = from _ refl h
    where
      from :
          (r : Result (List Customer))
          → p.delete (is_customer customer_id) s.customers ≡ r
          → with_customers s r ≡ ok s'
          → s' ≡ record s { customers = keep (λ c. not (is_customer customer_id c)) s.customers }
      from (ok t) e k = cc (p.delete-ok (is_customer customer_id) s.customers t e, k)
      from (err x) e k = cc

  no_sale_of :
      (customer_id : ℕ) (db : Db N) (sales : List (Sale N))
      → p.find_many (sold_to customer_id) db.sales ≡ ok sales
      → not (is_empty sales) ≡ false
      → (s : Sale N) → Memᴰ s db.sales
      → nat_eq s.customer_id customer_id ≡ false
  no_sale_of customer_id db sales read empty s m =
      elim (Bool-cases (nat_eq s.customer_id customer_id)) [
        | inl e ↦ absurd (
            none_of_empty sales s empty
              (p.find_many-complete (sold_to customer_id) db.sales sales s read m e))
        | inr e ↦ e
      ]

  -- A call that returns has found the customer, who had no sale, and has deleted the customer and the
  -- entries of the account, and nothing else.
  pub delete_customer-Deleted :
      (customer_id : ℕ) (db db' : Db N)
      → delete_customer p customer_id db ≡ (ok tt, db')
      → Deleted customer_id db db'
  unfolding delete_customer
  delete_customer-Deleted customer_id db db' h =
      let (o, s1, q1, h1) =
        >>=-eq-ok (query (find_customer_by_id p customer_id)) (delete_found p customer_id) db db' tt
          h in
      let (got, at1) = query-eq-ok (find_customer_by_id p customer_id) db s1 o q1 in
      let (c, s2, q2, h2) =
        >>=-eq-ok (or_throw o (not_found "Customer not found")) (delete_known p customer_id) s1 db'
          tt h1 in
      let (is_there, at2) = or_throw-eq-ok o (not_found "Customer not found") s1 s2 c q2 in
      let (sales, s3, q3, h3) =
        >>=-eq-ok (query (sales_of p customer_id)) (delete_unless_sold p customer_id) s2 db' tt
          h2 in
      let (read, at3) = query-eq-ok (sales_of p customer_id) s2 s3 sales q3 in
      let (u, s4, q4, h4) =
        >>=-eq-ok (throw_if (not (is_empty sales)) _) (λ _. delete_all p customer_id) s3 db' tt
          h3 in
      let (empty, at4) = throw_if-eq-ok (not (is_empty sales)) _ s3 s4 u q4 in
      let (v, s5, q5, h5) =
        >>=-eq-ok (write (delete_account p customer_id)) (λ _. write (delete_row p customer_id)) s4
          db' tt h4 in
      let no_account =
        delete_account-eq-ok customer_id s4 s5
          (write-eq-ok (delete_account p customer_id) s4 s5 v q5) in
      let no_row =
        delete_row-eq-ok customer_id s5 db' (write-eq-ok (delete_row p customer_id) s5 db' tt h5) in
      let at_start : s2 ≡ db = at2 ∙ at1 in
      let (m, mine) =
        p.find_first-some (is_customer customer_id) db.customers c (got ∙ ap ok is_there) in
      record {
        customer = c;
        listed = m;
        owner = mine;
        unsold =
            no_sale_of customer_id db sales
              (subst (λ (d : Db N). sales_of p customer_id d ≡ ok sales) at_start read) empty;
        left =
            no_row
            ∙ (ap
                  (λ (d : Db N). record d {
                    customers = keep (λ c. not (is_customer customer_id c)) d.customers;
                  })
                  no_account
                ∙ ap
                    (λ (d : Db N). record d {
                      customers = keep (λ c. not (is_customer customer_id c)) d.customers;
                      balance_sheets = keep (λ b. not (account_of customer_id b)) d.balance_sheets;
                    })
                    (at4 ∙ (at3 ∙ at_start)));
      }
