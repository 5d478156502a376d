-- ===== src/Orders/Advance.antt =====
-- How the orders of one state relate to those of a later one: identifiers stay unique, and an order
-- whose payment has been validated only moves on. The relation, and the calls that keep it.
use accurack_software_backen.Common.{
  ℕ, ◌≤◌, Bool, true, false, Option, none, some, List, [], ◌∷◌, ◌≡◌, refl, sym, ap, subst, ◌∙◌,
  Memᴰ, arith, Bool-cases, inl, inr, nat_eq, if◌then◌else◌,
}
use accurack_software_backen.Effect.{
  Error, Result, ok, err, Action, ◌>>=◌, pure, query, or_throw, write, throw_if, commit,
}
use accurack_software_backen.Prisma.{Prisma, update_rows}
use accurack_software_backen.Orders.Tables.{
  SaleStatus, validated, confirmed, shipped, Order, Db, with_orders,
}
use accurack_software_backen.Orders.Change.{is_order, change_order, Changes, change_order-Changes}

-- Where an order stands after its validation; 0 before it.
abbrev pub rank : SaleStatus → ℕ
rank validated = 1
rank confirmed = 2
rank shipped = 3
rank _ = 0

module _ {N : Type 0} where
  pub record IsSettled (o : Order N) : Type 0 where
    pub marked : o.is_validated ≡ true
    pub standing : 1 ≤ rank o.status

  -- The same order later: its payment is the same, it is still validated, and it has not gone back.
  pub record Settles (o o' : Order N) : Type 0 where
    pub id : o'.id ≡ o.id
    pub customer : o'.customer_id ≡ o.customer_id
    pub amount : o'.payment_amount ≡ o.payment_amount
    pub type : o'.payment_type ≡ o.payment_type
    pub settled : IsSettled o'
    pub forward : rank o.status ≤ rank o'.status

  abbrev pub UniqueIds : List (Order N) → Type 0
  UniqueIds t = (x y : Order N) → Memᴰ x t → Memᴰ y t → x.id ≡ y.id → x ≡ y

  abbrev pub Advance : List (Order N) → List (Order N) → Type 0
  Advance t t' =
      UniqueIds t
      → UniqueIds t'
        × ((o : Order N) → Memᴰ o t → IsSettled o → (o' : Order N) × Memᴰ o' t' × Settles o o')

  Settles-refl : (o : Order N) → IsSettled o → Settles o o
  Settles-refl o h = record {
    id = refl;
    customer = refl;
    amount = refl;
    type = refl;
    settled = h;
    forward = omega arith;
  }

  Settles-trans : (a b c : Order N) → Settles a b → Settles b c → Settles a c
  Settles-trans a b c h k = record {
    id = k.id ∙ h.id;
    customer = k.customer ∙ h.customer;
    amount = k.amount ∙ h.amount;
    type = k.type ∙ h.type;
    settled = k.settled;
    forward = omega (arith, h.forward, k.forward);
  }

  pub Advance-refl : (t : List (Order N)) → Advance t t
  Advance-refl t u = (u, λ o m h. (o, m, Settles-refl o h))

  pub Advance-trans : (a b c : List (Order N)) → Advance a b → Advance b c → Advance a c
  Advance-trans a b c f g u =
      let (u', first) = f u in
      let (u'', second) = g u' in
      (
        u'',
        λ o m h.
            let (o1, m1, s1) = first o m h in
            let (o2, m2, s2) = second o1 m1 s1.settled in (o2, m2, Settles-trans o o1 o2 s1 s2),
      )

  -- A call that advances the orders, whether it returns or throws.
  pub record Advances {A : Type 0} (m : Action (Db N) A) : Type 0 where
    pub advance : (s : Db N) → Advance s.orders (m s).1.orders

  >>=-from :
      {A B : Type 0} (f : A → Action (Db N) B) (t : List (Order N)) (o : Result A × Db N)
      → Advance t o.1.orders
      → ((a : A) → Advances (f a))
      → Advance t
          (elim o.0 as (λ _. Result B × Db N) [ ok a ↦ f a o.1 | err e ↦ (err e, o.1) ]).1.orders
  >>=-from f t (ok a, s) h k = Advance-trans t s.orders (f a s).1.orders h ((k a).advance s)
  >>=-from f t (err e, s) h k = h

  pub >>=-Advances :
      {A B : Type 0} (m : Action (Db N) A) (f : A → Action (Db N) B)
      → Advances m
      → ((a : A) → Advances (f a))
      → Advances (m >>= f)
  >>=-Advances m f h k = record { advance = λ s. >>=-from f s.orders (m s) (h.advance s) k }

  pub query-Advances : {A : Type 0} (f : Db N → Result A) → Advances (query f)
  query-Advances f = record { advance = λ s. Advance-refl s.orders }

  pub pure-Advances : {A : Type 0} (a : A) → Advances (pure a)
  pure-Advances a = record { advance = λ s. Advance-refl s.orders }

  pub or_throw-Advances : {A : Type 0} (o : Option A) (e : Error) → Advances (or_throw o e)
  or_throw-Advances none e = record { advance = λ s. Advance-refl s.orders }
  or_throw-Advances (some a) e = record { advance = λ s. Advance-refl s.orders }

  pub throw_if-Advances : (c : Bool) (e : Error) → Advances (throw_if c e)
  throw_if-Advances true e = record { advance = λ s. Advance-refl s.orders }
  throw_if-Advances false e = record { advance = λ s. Advance-refl s.orders }

  commit-Advance :
      (s : Db N) (r : Result (Db N))
      → ((s' : Db N) → r ≡ ok s' → Advance s.orders s'.orders)
      → Advance s.orders (commit s r).1.orders
  commit-Advance s (ok s') h = h s' refl
  commit-Advance s (err e) h = Advance-refl s.orders

  pub write-Advances :
      (f : Db N → Result (Db N))
      → ((s s' : Db N) → f s ≡ ok s' → Advance s.orders s'.orders)
      → Advances (write f)
  write-Advances f h = record { advance = λ s. commit-Advance s (f s) (h s) }

  pub with_orders-eq-ok :
      (r : Result (List (Order N))) (s s' : Db N) → with_orders s r ≡ ok s' → r ≡ ok s'.orders
  with_orders-eq-ok (ok t) s s' h = cc
  with_orders-eq-ok (err e) s s' h = cc

-- The update of one row, where the order that was found is not refused.
module _ {N : Type 0} (refused : Order N → Bool) (f : Order N → Order N) where
  -- What an update keeps of an order that it does not refuse.
  pub record IsOnward : Type 0 where
    pub id : (o : Order N) → (f o).id ≡ o.id
    pub onward : (o : Order N) → refused o ≡ false → IsSettled o → Settles o (f o)

  abbrev pub moved : ℕ → Order N → Order N
  moved id o = if is_order id o then f o else o

  pub Mem_update_rows :
      (id : ℕ) (y : Order N) (t : List (Order N))
      → Memᴰ y (update_rows (is_order id) f t)
      → (x : Order N) × Memᴰ x t × (y ≡ moved id x)
  Mem_update_rows id y [] m = elim m [ ]
  Mem_update_rows id y (z ∷ t) (Memᴰ.head e) = (z, Memᴰ.head refl, e)
  Mem_update_rows id y (z ∷ t) (Memᴰ.tail m) =
      let (x, m', e) = Mem_update_rows id y t m in (x, Memᴰ.tail m', e)

  pub moved-Mem :
      (id : ℕ) (x : Order N) (t : List (Order N))
      → Memᴰ x t
      → Memᴰ (moved id x) (update_rows (is_order id) f t)
  moved-Mem id x [] m = elim m [ ]
  moved-Mem id x (z ∷ t) (Memᴰ.head e) = Memᴰ.head (ap (moved id) e)
  moved-Mem id x (z ∷ t) (Memᴰ.tail m) = Memᴰ.tail (moved-Mem id x t m)

  moved-id : IsOnward → (id : ℕ) (x : Order N) → (moved id x).id ≡ x.id
  moved-id k id x = elim (Bool-cases (nat_eq x.id id)) [ inl e ↦ rw e (k.id x) | inr e ↦ rw e ]

  same_id : (a b c : ℕ) → nat_eq a c ≡ true → nat_eq b c ≡ true → a ≡ b
  same_id a b c h k = ground arith

  pub update_rows-Advance :
      IsOnward
      → (id : ℕ) (t : List (Order N)) (found : Order N) → Memᴰ found t
      → nat_eq found.id id ≡ true
      → refused found ≡ false
      → Advance t (update_rows (is_order id) f t)
  update_rows-Advance k id t found here mine free u = (
    λ x y mx my same.
        let (a, ma, ea) = Mem_update_rows id x t mx in
        let (b, mb, eb) = Mem_update_rows id y t my in
        let ids : a.id ≡ b.id =
          sym (moved-id k id a)
          ∙ (ap (λ (z : Order N). z.id) (sym ea)
              ∙ (same ∙ (ap (λ (z : Order N). z.id) eb ∙ moved-id k id b))) in
        ea ∙ (ap (moved id) (u a b ma mb ids) ∙ sym eb),
    λ o m settled. (moved id o, moved-Mem id o t m, onward o m settled),
  )
    where
      onward : (o : Order N) → Memᴰ o t → IsSettled o → Settles o (moved id o)
      onward o m settled = elim (Bool-cases (nat_eq o.id id)) [
        | inl e ↦
            let same : found ≡ o = u found o here m (same_id found.id o.id id mine e) in
            rw e (k.onward o (ap refused (sym same) ∙ free) settled)
        | inr e ↦ rw e (Settles-refl o settled)
      ]

module _ {N : Type 0} (p : Prisma) (refused : Order N → Bool) (e : Error) (id : ℕ)
    (f : Order N → Order N) where
  Changes-Advance :
      IsOnward refused f
      → (s : Db N) (r : Result (Order N)) (s' : Db N) → Changes p refused id f s r s'
      → Advance s.orders s'.orders
  Changes-Advance k s r s' (Changes.threw x same still) =
      subst (λ (d : Db N). Advance s.orders d.orders) (sym still) (Advance-refl s.orders)
  Changes-Advance k s r s' (Changes.changed o m mine free same now) =
      subst (λ (d : Db N). Advance s.orders d.orders) (sym now)
        (update_rows-Advance refused f k id s.orders o m mine free)

  pub change_order-Advances : IsOnward refused f → Advances (change_order p refused e id f)
  change_order-Advances k = record {
    advance = λ s. Changes-Advance k s _ _ (change_order-Changes p refused e id f s);
  }
