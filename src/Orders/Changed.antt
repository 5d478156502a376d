-- ===== src/Orders/Changed.antt =====
-- The change of an order by src/driver and src/validator, where it returned.
use accurack_software_backen.Common.{ℕ, Bool, true, false, ◌≡◌, sym, ap, subst, ◌∙◌, Memᴰ, nat_eq}
use accurack_software_backen.Effect.{Error, Result, ok}
use accurack_software_backen.Prisma.{Prisma, update_rows}
use accurack_software_backen.Orders.Tables.{Order, Db}
use accurack_software_backen.Orders.Change.{is_order, change_order, Changes, change_order-Changes}

module _ {N : Type 0} (p : Prisma) (refused : Order N → Bool) (e : Error) (id : ℕ)
    (f : Order N → Order N) where
  -- A change that returned was made to an order that is not refused.
  pub record Changed (s : Db N) (o' : Order N) (s' : Db N) : Type 0 where
    pub before : Order N
    pub listed : Memᴰ before s.orders
    pub mine : nat_eq before.id id ≡ true
    pub free : refused before ≡ false
    pub result : o' ≡ f before
    pub left : s' ≡ record s { orders = update_rows (is_order id) f s.orders }

  Changes-Changed :
      (s : Db N) (o' : Order N) (s' : Db N) (r : Result (Order N))
      → r ≡ ok o'
      → Changes p refused id f s r s'
      → Changed s o' s'
  Changes-Changed s o' s' r h (Changes.threw x same still) = cc
  Changes-Changed s o' s' r h (Changes.changed o m mine free same now) = record {
    before = o;
    listed = m;
    mine = mine;
    free = free;
    result = ok_eq (sym h ∙ same);
    left = now;
  }
    where
      ok_eq : {a b : Order N} → ok a ≡ ok b → a ≡ b
      ok_eq k = cc

  pub change_order-Changed :
      (s s' : Db N) (o' : Order N) → change_order p refused e id f s ≡ (ok o', s') → Changed s o' s'
  change_order-Changed s s' o' h =
      subst (Changed s o') (ap (λ (x : Result (Order N) × Db N). x.1) h) (
        Changes-Changed s o' (change_order p refused e id f s).1 (change_order p refused e id f s).0
          (ap (λ (x : Result (Order N) × Db N). x.0) h) (change_order-Changes p refused e id f s))
