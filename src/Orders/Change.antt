-- ===== src/Orders/Change.antt =====
-- What the methods of src/driver/driver.service.ts and src/validator/validator.service.ts that change
-- an order share: read the user, read the order, refuse some orders, and update the row.
use accurack_software_backen.Common.{
  ℕ, String, Bool, true, false, Option, none, some, List, ◌≡◌, ◌==◌, refl, sym, ap, subst, Memᴰ,
  nat_eq,
}
use accurack_software_backen.Effect.{
  Error, not_found, Result, ok, err, Action, ◌>>=◌, ◌>>◌, pure, query, or_throw, write, throw_if,
}
use accurack_software_backen.Prisma.{Prisma, update_rows}
use accurack_software_backen.Orders.Tables.{User, Order, Db, with_orders}

module _ {N : Type 0} where
  abbrev pub is_order : ℕ → Order N → Bool
  is_order id o = nat_eq o.id id

module _ {N : Type 0} (p : Prisma) where
  abbrev pub find_user : String → Db N → Result (Option User)
  find_user id db = p.find_first (λ (u : User). u.id == id) db.users

  abbrev pub find_order : ℕ → Db N → Result (Option (Order N))
  find_order id db = p.find_first (is_order id) db.orders

  abbrev pub update_row : ℕ → (Order N → Order N) → Db N → Result (Db N)
  update_row id f db = with_orders db (p.update (is_order id) f db.orders)

  -- The update of an order that is not refused. It returns the row as it now is.
  abbrev pub change_row : ℕ → (Order N → Order N) → Order N → Action (Db N) (Order N)
  change_row id f o = write (update_row id f) >> pure (f o)

  abbrev pub unless :
      (Order N → Bool) → Error → ℕ → (Order N → Order N) → Order N → Action (Db N) (Order N)
  unless refused e id f o = throw_if (refused o) e >> change_row id f o

  abbrev pub change_found :
      (Order N → Bool)
      → Error
      → ℕ
      → (Order N → Order N)
      → Option (Order N)
      → Action (Db N) (Order N)
  change_found refused e id f found =
      or_throw found (not_found "Order not found") >>= unless refused e id f

  unfoldable pub change_order :
      (Order N → Bool) → Error → ℕ → (Order N → Order N) → Action (Db N) (Order N)
  change_order refused e id f = query (find_order id) >>= change_found refused e id f

  -- What a call of `change_order` leaves, whether it returns or throws.
  pub data Changes (refused : Order N → Bool) (id : ℕ) (f : Order N → Order N) (s : Db N)
      : Result (Order N) → Db N → Type 0 where
    threw :
        {r : Result (Order N)} {s' : Db N} (e : Error)
        → r ≡ err e
        → s' ≡ s
        → Changes refused id f s r s'
    changed :
        {r : Result (Order N)} {s' : Db N} (o : Order N)
        → Memᴰ o s.orders
        → nat_eq o.id id ≡ true
        → refused o ≡ false
        → r ≡ ok (f o)
        → s' ≡ record s { orders = update_rows (is_order id) f s.orders }
        → Changes refused id f s r s'

  module _ (refused : Order N → Bool) (e : Error) (id : ℕ) (f : Order N → Order N) (s : Db N) where
    -- `change_row` where the update has answered, and `change_order` where the search has.
    abbrev row_after : Order N → Result (List (Order N)) → Result (Order N) × Db N
    row_after o x = (write (λ db. with_orders s x) >> pure (f o)) s

    abbrev found_after : Result (Option (Order N)) → Result (Order N) × Db N
    found_after x = (query (λ db. x) >>= change_found refused e id f) s

    change_row-Changes :
        (o : Order N)
        → Memᴰ o s.orders
        → nat_eq o.id id ≡ true
        → refused o ≡ false
        → (r : Result (List (Order N))) → p.update (is_order id) f s.orders ≡ r
        → let out = change_row id f o s in Changes refused id f s out.0 out.1
    change_row-Changes o m same free (ok t) u =
        subst (λ x. Changes refused id f s (row_after o x).0 (row_after o x).1) (sym u)
          (changed o m same free refl
            (ap (λ t. record s { orders = t }) (p.update-ok (is_order id) f s.orders t u)))
    change_row-Changes o m same free (err x) u =
        subst (λ x. Changes refused id f s (row_after o x).0 (row_after o x).1) (sym u)
          (threw x refl refl)

    unless-Changes :
        (o : Order N)
        → Memᴰ o s.orders
        → nat_eq o.id id ≡ true
        → (b : Bool) → refused o ≡ b
        → let out = unless refused e id f o s in Changes refused id f s out.0 out.1
    unless-Changes o m same true h = rw h (threw e refl refl)
    unless-Changes o m same false h = rw h (change_row-Changes o m same h _ refl)

    change_found-Changes :
        (r : Result (Option (Order N)))
        → find_order id s ≡ r
        → let out = change_order refused e id f s in Changes refused id f s out.0 out.1
    unfolding change_order
    change_found-Changes (ok none) h =
        subst (λ x. Changes refused id f s (found_after x).0 (found_after x).1) (sym h)
          (threw (not_found "Order not found") refl refl)
    change_found-Changes (ok (some o)) h =
        let (m, same) = p.find_first-some (is_order id) s.orders o h in
        subst (λ x. Changes refused id f s (found_after x).0 (found_after x).1) (sym h)
          (unless-Changes o m same _ refl)
    change_found-Changes (err x) h =
        subst (λ x. Changes refused id f s (found_after x).0 (found_after x).1) (sym h)
          (threw x refl refl)

    pub change_order-Changes :
        let out = change_order refused e id f s in Changes refused id f s out.0 out.1
    change_order-Changes = change_found-Changes _ refl
