-- ===== src/Orders/Stands.antt =====
-- An order that stands in the table alone with its identifier, and the update of it by src/driver and
-- src/validator, where the database answers.
use accurack_software_backen.Common.{
  ℕ, String, Bool, true, false, Option, none, some, List, ◌≡◌, ap, subst, ◌∙◌, Memᴰ, arith, nat_eq,
  nat_eq_self, any, any_of_Mem, Bool-cases, inl, inr, ◌==◌,
}
use accurack_software_backen.Effect.{
  Error, Result, ok, is_ok, Action, ◌>>=◌, ◌>>◌, pure, query, write, throw_if,
}
use accurack_software_backen.Prisma.{Prisma, IsReliable, update_rows}
use accurack_software_backen.Prisma.Reads.{eq-ok_of_is_ok}
use accurack_software_backen.Orders.Tables.{User, Customer, BalanceSheet, Order, Db, with_orders}
use accurack_software_backen.Orders.Change.{
  find_user, is_order, change_row, change_found, change_order,
}
use accurack_software_backen.Orders.Driver.{validated_already}
use accurack_software_backen.Orders.Advance.{moved, moved-Mem, Mem_update_rows}

-- The customer of a row is there, as its foreign key wants.
abbrev pub IsCustomer : List Customer → ℕ → Type 0
IsCustomer customers id = (c : Customer) × Memᴰ c customers × (c.id ≡ id)

-- The validator of an order, if it has one, is a user.
abbrev pub IsUser : List User → Option String → Type 0
IsUser users none = Unit
IsUser users (some id) = (u : User) × Memᴰ u users × (u.id ≡ id)

module _ {N : Type 0} where
  -- The foreign keys of an order. No call changes the ones to the store, the client and the driver.
  abbrev pub Held : List User → List Customer → Order N → Type 0
  Held users customers o = IsCustomer customers o.customer_id × IsUser users o.validator_id

-- A database with these users and customers that answers its queries, and refuses a write of an order or
-- a sheet only where no row is met, where the row clashes, or where it would break a foreign key that
-- held before.
pub record Answers (N : Type 0) (p : Prisma) (users : List User) (customers : List Customer)
    : Type 1 where
  pub reliable : IsReliable p
  pub update_order-returns :
      (q : Order N → Bool) (f : Order N → Order N) (t : List (Order N))
      → any q t ≡ true
      → ((r : Order N)
          → Memᴰ r t
          → q r ≡ true
          → Held users customers r
          → Held users customers (f r))
      → is_ok (p.update q f t) ≡ true
  pub update_sheet-returns :
      (q : BalanceSheet N → Bool) (f : BalanceSheet N → BalanceSheet N) (t : List (BalanceSheet N))
      → any q t ≡ true
      → ((r : BalanceSheet N)
          → Memᴰ r t
          → q r ≡ true
          → IsCustomer customers r.customer_id
          → IsCustomer customers (f r).customer_id)
      → is_ok (p.update q f t) ≡ true
  pub create_sheet-returns :
      (clash : BalanceSheet N → BalanceSheet N → Bool) (r : BalanceSheet N)
      (t : List (BalanceSheet N))
      → any (clash r) t ≡ false
      → IsCustomer customers r.customer_id
      → is_ok (p.create clash r t) ≡ true

module _ {N : Type 0} (p : Prisma) (users : List User) (customers : List Customer)
    (good : Answers N p users customers) where
  -- An order that stands in the table, alone with its identifier.
  pub record Stands (o : Order N) (t : List (Order N)) : Type 0 where
    pub listed : Memᴰ o t
    pub alone : (x : Order N) → Memᴰ x t → nat_eq x.id o.id ≡ true → x ≡ o

  abbrev pub changed : ℕ → (Order N → Order N) → Db N → Db N
  changed id f s = record s { orders = update_rows (is_order id) f s.orders }

  module _ (refused : Order N → Bool) (e : Error) (f : Order N → Order N) (s : Db N) (o : Order N)
      (here : Stands o s.orders) (free : refused o ≡ false)
      (keeps : (x : Order N) → x ≡ o → Held users customers x → Held users customers (f x)) where
    -- `change_order` where the search, and then the update, have answered.
    abbrev search_after : Result (Option (Order N)) → Result (Order N) × Db N
    search_after x = (query (λ db. x) >>= change_found p refused e o.id f) s

    abbrev update_after : Result (List (Order N)) → Result (Order N) × Db N
    update_after x = (write (λ db. with_orders s x) >> pure (f o)) s

    has_row : any (is_order o.id) s.orders ≡ true
    has_row = any_of_Mem (is_order o.id) o s.orders here.listed (nat_eq_self o.id)

    searched : p.find_first (is_order o.id) s.orders ≡ ok (some o)
    searched =
        let (r, answer) =
          eq-ok_of_is_ok _ (good.reliable.find_first-returns (is_order o.id) s.orders) in
        found r answer
      where
        found :
            (r : Option (Order N))
            → p.find_first (is_order o.id) s.orders ≡ ok r
            → p.find_first (is_order o.id) s.orders ≡ ok (some o)
        found none h = cc (p.find_first-none (is_order o.id) s.orders h, has_row)
        found (some x) h =
            let (m, mine) = p.find_first-some (is_order o.id) s.orders x h in
            h ∙ ap (λ y. ok (some y)) (here.alone x m mine)

    updated : p.update (is_order o.id) f s.orders ≡ ok (update_rows (is_order o.id) f s.orders)
    updated =
        let (t, answer) = eq-ok_of_is_ok _ (
          good.update_order-returns (is_order o.id) f s.orders has_row
            (λ x m mine held. keeps x (here.alone x m mine) held)) in
        answer ∙ ap ok (p.update-ok (is_order o.id) f s.orders t answer)

    pub change_order-returns : change_order p refused e o.id f s ≡ (ok (f o), changed o.id f s)
    unfolding change_order
    change_order-returns =
        ap search_after searched
        ∙ (ap (λ b. (throw_if b e >> change_row p o.id f o) s) free ∙ ap update_after updated)

  -- The changed order stands in the changed table.
  pub changed-Stands :
      (f : Order N → Order N) (k : (x : Order N) → (f x).id ≡ x.id) (o : Order N)
      (t : List (Order N))
      → Stands o t
      → Stands (f o) (update_rows (is_order o.id) f t)
  changed-Stands f k o t here = record {
    listed =
        subst (λ x. Memᴰ x (update_rows (is_order o.id) f t)) (moved_self o)
          (moved-Mem validated_already f o.id o t here.listed);
    alone = λ x m same.
        let (a, ma, ea) = Mem_update_rows validated_already f o.id x t m in
        let back : a ≡ o = here.alone a ma (same_as a x o (moved_id a x ea) (k o) same) in
        ea ∙ (ap (moved validated_already f o.id) back ∙ moved_self o);
  }
    where
      moved_self : (y : Order N) → moved validated_already f y.id y ≡ f y
      moved_self y = rw (nat_eq_self y.id)

      moved_id : (a x : Order N) → x ≡ moved validated_already f o.id a → x.id ≡ a.id
      moved_id a x e = elim (Bool-cases (nat_eq a.id o.id)) [
        | inl h ↦
            let hit : moved validated_already f o.id a ≡ f a = rw h in
            ap (λ (z : Order N). z.id) (e ∙ hit) ∙ k a
        | inr h ↦
            let miss : moved validated_already f o.id a ≡ a = rw h in
            ap (λ (z : Order N). z.id) (e ∙ miss)
      ]

      same_as :
          (a x o : Order N)
          → x.id ≡ a.id
          → (f o).id ≡ o.id
          → nat_eq x.id (f o).id ≡ true
          → nat_eq a.id o.id ≡ true
      same_as a x o h1 h2 h3 = ground arith

  -- The search for the user answers, and nothing hangs on what it answers.
  pub after_user :
      (user_id : String) (m : Action (Db N) (Order N)) (s : Db N)
      → (query (find_user p user_id) >> m) s ≡ m s
  after_user user_id m s =
      let (u, answer) =
        eq-ok_of_is_ok _
          (good.reliable.find_first-returns (λ (x : User). x.id == user_id) s.users) in
      ap (λ (r : Result (Option User)). (query (λ (db : Db N). r) >> m) s) answer
