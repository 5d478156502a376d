-- ===== src/Suppliers/Access.antt =====
-- What a user of src/supplier/supplier.service.ts may change in a store that the user may not enter.
use accurack_software_backen.Common.{
  ℕ, String, Bool, true, false, not, Option, none, some, List, ◌∷◌, ◌==◌, ◌≡◌, ◌≢◌, refl, sym, ap,
  subst, ◌∙◌, Memᴰ, Bool-cases, inl, inr, arith, if◌then◌else◌,
}
use accurack_software_backen.Effect.{
  Error, bad_request, forbidden, Result, ok, err, Action, ◌>>=◌, ◌>>◌, pure, query, or_throw,
  throw_if,
}
use accurack_software_backen.Effect.Laws.{>>=-relates_where, >>=-eq-ok, throw_if-eq-ok}
use accurack_software_backen.Prisma.{Prisma, update_rows}
use accurack_software_backen.Prisma.Reads.{ne-fresh, update_rows-Mem, Mem-update_rows}
use accurack_software_backen.Suppliers.{
  User, Store, Supplier, Db, CreateSupplierDto, is_active, may_enter, has_id, caught, catching,
  find_store, check_store, store_found, validate_store_access, supplier_row,
}

abbrev pub UniqueIds : List Supplier → Type 0
UniqueIds t = (x y : Supplier) → Memᴰ x t → Memᴰ y t → x.id ≡ y.id → x ≡ y

-- The same supplier of the same store, with the same status.
pub record Stays (y x : Supplier) : Type 0 where
  pub id : y.id ≡ x.id
  pub store_id : y.store_id ≡ x.store_id
  pub status : y.status ≡ x.status

-- Every supplier of the store was one before, and no supplier has gone.
abbrev pub Kept : String → List Supplier → List Supplier → Type 0
Kept store_id t t' =
    UniqueIds t
    → UniqueIds t'
      × ((x : Supplier) → Memᴰ x t' → x.store_id ≡ store_id → (y : Supplier) × Memᴰ y t × Stays y x)
      × ((y : Supplier) → Memᴰ y t → (x : Supplier) × Memᴰ x t' × (x.id ≡ y.id))

pub Kept-refl : (store_id : String) (t : List Supplier) → Kept store_id t t
Kept-refl store_id t u =
    (u, λ x m e. (x, m, record { id = refl; store_id = refl; status = refl }), λ y m. (y, m, refl))

pub Kept-trans :
    (store_id : String) (a b c : List Supplier)
    → Kept store_id a b
    → Kept store_id b c
    → Kept store_id a c
Kept-trans store_id a b c f g u =
    let (ub, kb, lb) = f u in
    let (uc, kc, lc) = g ub in
    (
      uc,
      λ x m e.
          let (y, my, h) = kc x m e in
          let (z, mz, k) = kb y my (h.store_id ∙ e) in
          (
            z,
            mz,
            record {
              id = k.id ∙ h.id;
              store_id = k.store_id ∙ h.store_id;
              status = k.status ∙ h.status;
            },
          ),
      λ y m. let (x, mx, e) = lb y m in let (z, mz, k) = lc x mx in (z, mz, k ∙ e),
    )

-- A validation that returned is for a store that the user may enter.
pub validated-enters :
    (p : Prisma) (u : User) (store_id : String) (s t : Db) (found : Store)
    → validate_store_access p u store_id s ≡ (ok found, t)
    → may_enter u store_id ≡ true
unfolding validate_store_access
validated-enters p u store_id s t found h =
    let (_, s1, _, rest) =
      >>=-eq-ok (throw_if (store_id == "") (bad_request "Store ID is required"))
        (λ _. query (find_store p store_id) >>= store_found p u store_id) s t found h in
    let (o, s2, _, later) =
      >>=-eq-ok (query (find_store p store_id)) (store_found p u store_id) s1 t found rest in
    let (x, s3, _, last) = >>=-eq-ok (or_throw o _) (check_store p u store_id) s2 t found later in
    let (_, s4, checked, _) =
      >>=-eq-ok
        (throw_if (not (is_active x.status)) (bad_request "Store is not active")
          >> throw_if (not (may_enter u store_id))
              (forbidden "You do not have access to this store"))
        (λ _. pure x) s3 t found last in
    let (v, s5, _, entered) =
      >>=-eq-ok (throw_if (not (is_active x.status)) (bad_request "Store is not active"))
        (λ _.
          throw_if (not (may_enter u store_id)) (forbidden "You do not have access to this store"))
        s3 s4 _ checked in
    let (allowed, _) =
      throw_if-eq-ok (not (may_enter u store_id)) (forbidden "You do not have access to this store")
        s5 s4 _ entered in
    ground arith

module _ (p : Prisma) (store_id : String) where
  abbrev pub R : Db → Db → Type 0
  R s t = Kept store_id s.suppliers t.suppliers

  pub chain : (s t w : Db) → R s t → R t w → R s w
  chain s t w = Kept-trans store_id s.suppliers t.suppliers w.suppliers

  pub quiet : (s : Db) → R s s
  quiet s = Kept-refl store_id s.suppliers

  pub throw_if-quiet : (c : Bool) (e : Error) (s : Db) → R s (throw_if c e s).1
  throw_if-quiet true e s = quiet s
  throw_if-quiet false e s = quiet s

  pub or_throw-quiet : {A : Type 0} (o : Option A) (e : Error) (s : Db) → R s (or_throw o e s).1
  or_throw-quiet none e s = quiet s
  or_throw-quiet (some a) e s = quiet s

  pub catching-quiet :
      {A : Type 0} (failed : String) (m : Action Db A) (s : Db)
      → R s (m s).1
      → R s (catching failed m s).1
  catching-quiet {A} failed m s h = from (m s) h
    where
      from : (o : Result A × Db) → R s o.1 → R s (caught failed o).1
      from (ok a, t) h = h
      from (err e, t) h = h

  pub validate-quiet :
      (u : User) (asked : String) (s : Db) → R s (validate_store_access p u asked s).1
  unfolding validate_store_access
  validate-quiet u asked s =
      >>=-relates_where R chain (throw_if (asked == "") (bad_request "Store ID is required"))
        (λ _. query (find_store p asked) >>= store_found p u asked) s (throw_if-quiet _ _ s)
        λ _ t _.
          >>=-relates_where R chain (query (find_store p asked)) (store_found p u asked) t (quiet t)
            λ o w _.
              >>=-relates_where R chain (or_throw o _) (check_store p u asked) w
                (or_throw-quiet o _ w)
                λ x a _.
                  >>=-relates_where R chain
                    (throw_if (not (is_active x.status)) (bad_request "Store is not active")
                      >> throw_if (not (may_enter u asked))
                          (forbidden "You do not have access to this store"))
                    (λ _. pure x) a
                    (>>=-relates_where R chain
                      (throw_if (not (is_active x.status)) (bad_request "Store is not active"))
                      (λ _.
                        throw_if (not (may_enter u asked))
                          (forbidden "You do not have access to this store"))
                      a (throw_if-quiet _ _ a) (λ _ b _. throw_if-quiet _ _ b))
                    (λ _ b _. quiet b)

  -- A row of another store, with a new identifier.
  pub insert-Kept :
      (dto : CreateSupplierDto) (t : List Supplier)
      → dto.store_id ≢ store_id
      → Kept store_id t (supplier_row p dto t ∷ t)
  insert-Kept dto t other u = (unique, before, λ y m. (y, Memᴰ.tail m, refl))
    where
      unique : UniqueIds (supplier_row p dto t ∷ t)
      unique x y (Memᴰ.head ex) (Memᴰ.head ey) same = ex ∙ sym ey
      unique x y (Memᴰ.head ex) (Memᴰ.tail my) same =
          absurd
            (ne-fresh p (λ (o : Supplier). o.id) y t my (sym same ∙ ap (λ (o : Supplier). o.id) ex))
      unique x y (Memᴰ.tail mx) (Memᴰ.head ey) same =
          absurd
            (ne-fresh p (λ (o : Supplier). o.id) x t mx (same ∙ ap (λ (o : Supplier). o.id) ey))
      unique x y (Memᴰ.tail mx) (Memᴰ.tail my) same = u x y mx my same

      before :
          (x : Supplier)
          → Memᴰ x (supplier_row p dto t ∷ t)
          → x.store_id ≡ store_id
          → (y : Supplier) × Memᴰ y t × Stays y x
      before x (Memᴰ.head e) at = absurd (other (ap (λ (o : Supplier). o.store_id) (sym e) ∙ at))
      before x (Memᴰ.tail m) at = (x, m, record { id = refl; store_id = refl; status = refl })

  -- An update by an identifier, where the changed row is of the store only if it was and stays as it was.
  pub update-Kept :
      (id : ℕ) (f : Supplier → Supplier) (t : List Supplier)
      → ((x : Supplier) → (f x).id ≡ x.id)
      → ((x : Supplier)
          → Memᴰ x t
          → UniqueIds t
          → has_id id x ≡ true
          → (f x).store_id ≡ store_id
          → Stays x (f x))
      → Kept store_id t (update_rows (has_id id) f t)
  update-Kept id f t same stays u = (unique, before, after)
    where
      moved : Supplier → Supplier
      moved x = if has_id id x then f x else x

      moved_id : (x : Supplier) → (moved x).id ≡ x.id
      moved_id x = elim (Bool-cases (has_id id x)) [ inl h ↦ rw h (same x) | inr h ↦ rw h refl ]

      unique : UniqueIds (update_rows (has_id id) f t)
      unique x y mx my e =
          let (a, ma, ea) = update_rows-Mem (has_id id) f x t mx in
          let (b, mb, eb) = update_rows-Mem (has_id id) f y t my in
          let ids : a.id ≡ b.id =
            sym (moved_id a)
            ∙ ap (λ (o : Supplier). o.id) (sym ea)
            ∙ e
            ∙ ap (λ (o : Supplier). o.id) eb
            ∙ moved_id b in
          ea ∙ ap moved (u a b ma mb ids) ∙ sym eb

      after :
          (y : Supplier)
          → Memᴰ y t
          → (x : Supplier) × Memᴰ x (update_rows (has_id id) f t) × (x.id ≡ y.id)
      after y m = (moved y, Mem-update_rows (has_id id) f y t m, moved_id y)

      before :
          (x : Supplier)
          → Memᴰ x (update_rows (has_id id) f t)
          → x.store_id ≡ store_id
          → (y : Supplier) × Memᴰ y t × Stays y x
      before x m at =
          let (a, ma, ea) = update_rows-Mem (has_id id) f x t m in
          elim (Bool-cases (has_id id a)) [
            | inl h ↦
                let hit : x ≡ f a = ea ∙ rw h refl in
                (
                  a,
                  ma,
                  subst (Stays a) (sym hit)
                      (stays a ma u h (ap (λ (o : Supplier). o.store_id) (sym hit) ∙ at)),
                )
            | inr h ↦
                let miss : x ≡ a = ea ∙ rw h refl in
                (
                  a,
                  ma,
                  subst (Stays a) (sym miss) (record { id = refl; store_id = refl; status = refl }),
                )
          ]
