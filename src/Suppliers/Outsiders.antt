-- ===== src/Suppliers/Outsiders.antt =====
-- Runs of the calls of src/supplier/supplier.service.ts by users who may not enter a store.
use accurack_software_backen.Common.{
  ℕ, String, true, false, not, Option, none, some, List, [], ◌∷◌, ◌&&◌, ◌==◌, ◌≡◌, ◌≢◌, refl, sym,
  ap, subst, ◌∙◌, Memᴰ, nat_eq, Bool-cases, inl, inr, arith, eq_iff, given_text, or_else, ◌⊎◌,
}
use accurack_software_backen.Effect.{
  not_found, forbidden, Result, ok, err, ◌>>=◌, ◌>>◌, pure, query, write, or_throw, throw_if,
}
use accurack_software_backen.Effect.Laws.{>>=-relates_where, >>=-eq-ok, query-eq-ok, or_throw-eq-ok}
use accurack_software_backen.Prisma.{Prisma, update_rows}
use accurack_software_backen.Suppliers.{
  User, Store, Supplier, Db, CreateSupplierDto, UpdateSupplierDto, may_create, may_delete,
  is_active, may_enter, has_id, same_id, updated, deactivated, with_suppliers, catching,
  validate_store_access, supplier_row, new_supplier, insert, insert_supplier, create_supplier,
  find_supplier, move_to, change, change_to, update_known, update_found, update_supplier,
  own_supplier, find_own, delete_found, delete_supplier,
}
use accurack_software_backen.Suppliers.Access.{
  UniqueIds, Stays, Kept, validated-enters, R, chain, quiet, throw_if-quiet, or_throw-quiet,
  catching-quiet, validate-quiet, insert-Kept, update-Kept,
}
use accurack_software_backen.Suppliers.Calls.{Call, create, update, delete, perform, run}

module _ (p : Prisma) (store_id : String) (u : User) (outside : may_enter u store_id ≡ false) where
  -- `insert` and `change` where the write has answered.
  abbrev inserted_after : Supplier → Db → Result (List Supplier) → Result Supplier × Db
  inserted_after x s r = (write (λ db. with_suppliers s r) >> pure x) s

  insert-R :
      (dto : CreateSupplierDto) (s : Db)
      → dto.store_id ≢ store_id
      → R p store_id s (insert_supplier p dto s).1
  insert-R dto s other =
      catching-quiet p store_id "Failed to create supplier: "
        (query (new_supplier p dto) >>= insert p) s
        (from (p.create same_id (supplier_row p dto s.suppliers) s.suppliers) refl)
    where
      from :
          (r : Result (List Supplier))
          → p.create same_id (supplier_row p dto s.suppliers) s.suppliers ≡ r
          → R p store_id s (inserted_after (supplier_row p dto s.suppliers) s r).1
      from (ok t) e =
          subst (Kept store_id s.suppliers)
            (sym (p.create-ok same_id (supplier_row p dto s.suppliers) s.suppliers t e).1)
            (insert-Kept p store_id dto s.suppliers other)
      from (err x) e = quiet p store_id s

  change-R :
      (id : ℕ) (f : Supplier → Supplier) (s : Db)
      → Kept store_id s.suppliers (update_rows (has_id id) f s.suppliers)
      → R p store_id s (change p id f s).1
  change-R id f s k = from (p.update (has_id id) f s.suppliers) refl
    where
      from :
          (r : Result (List Supplier))
          → p.update (has_id id) f s.suppliers ≡ r
          → R p store_id s (write (λ db. with_suppliers s r) s).1
      from (ok t) e =
          subst (Kept store_id s.suppliers) (sym (p.update-ok (has_id id) f s.suppliers t e)) k
      from (err x) e = quiet p store_id s

  not_outside : (asked : String) → may_enter u asked ≡ true → asked ≢ store_id
  not_outside asked h e = cc (ap (may_enter u) e, h, outside)

  create-R : (dto : CreateSupplierDto) (s : Db) → R p store_id s (create_supplier p u dto s).1
  unfolding create_supplier
  create-R dto s =
      >>=-relates_where (R p store_id) (chain p store_id)
        (throw_if (not (may_create u.role))
          (forbidden "Only admins and managers can create suppliers"))
        (λ _. validate_store_access p u dto.store_id >> insert_supplier p dto) s
        (throw_if-quiet p store_id _ _ s)
        λ _ t _.
          >>=-relates_where (R p store_id) (chain p store_id)
            (validate_store_access p u dto.store_id) (λ _. insert_supplier p dto) t
            (validate-quiet p store_id u dto.store_id t)
            λ found w e.
              insert-R dto w
                (not_outside dto.store_id (validated-enters p u dto.store_id t w found e))

  same_ids : (a b id : ℕ) → nat_eq a id ≡ true → nat_eq b id ≡ true → a ≡ b
  same_ids a b id h g = ground arith

  -- The row that a search by identifier and status has found is the row of the identifier.
  found_row :
      (id : ℕ) (x y : Supplier) (t : List Supplier)
      → UniqueIds t
      → Memᴰ x t
      → Memᴰ y t
      → has_id id x ≡ true
      → has_id id y ≡ true
      → x ≡ y
  found_row id x y t unique mx my hx hy = unique x y mx my (same_ids x.id y.id id hx hy)

  -- Where the store that the request names, if any, is not this one unless the supplier was there.
  update_to-R :
      (id : ℕ) (dto : UpdateSupplierDto) (x : Supplier) (s : Db)
      → Memᴰ x s.suppliers
      → has_id id x ≡ true
      → ((named : String)
          → given_text dto.store_id ≡ some named
          → named ≡ store_id
          → named ≡ x.store_id)
      → R p store_id s (change_to p id dto x s).1
  update_to-R id dto x s m mine allowed =
      >>=-relates_where (R p store_id) (chain p store_id) (change p id (updated dto))
        (λ _. pure (updated dto x)) s
        (change-R id (updated dto) s (
          update-Kept p store_id id (updated dto) s.suppliers (λ y. refl)
            λ y my unique hy at.
              let same : y ≡ x = found_row id y x s.suppliers unique my m hy mine in
              record {
                id = refl;
                store_id = stays (given_text dto.store_id) refl y same at;
                status = refl;
              }))
        (λ _ t _. quiet p store_id t)
    where
      stays :
          (o : Option String)
          → given_text dto.store_id ≡ o
          → (y : Supplier) → y ≡ x
          → or_else o y.store_id ≡ store_id
          → y.store_id ≡ or_else o y.store_id
      stays none e y same at = refl
      stays (some named) e y same at =
          ap (λ (z : Supplier). z.store_id) same ∙ sym (allowed named e at)

  -- Where the request names a store that the user may enter.
  update_away-R :
      (id : ℕ) (dto : UpdateSupplierDto) (x : Supplier) (named : String) (s : Db)
      → given_text dto.store_id ≡ some named
      → named ≢ store_id
      → R p store_id s (change_to p id dto x s).1
  update_away-R id dto x named s e other =
      >>=-relates_where (R p store_id) (chain p store_id) (change p id (updated dto))
        (λ _. pure (updated dto x)) s
        (change-R id (updated dto) s (
          update-Kept p store_id id (updated dto) s.suppliers (λ y. refl)
            λ y my unique hy at. absurd (other (ap (λ o. or_else o y.store_id) (sym e) ∙ at))))
        (λ _ t _. quiet p store_id t)

  update-R :
      (id : ℕ) (dto : UpdateSupplierDto) (s : Db) → R p store_id s (update_supplier p u id dto s).1
  unfolding update_supplier
  update-R id dto s =
      catching-quiet p store_id "Failed to update supplier: "
        (query (find_supplier p id) >>= update_found p u id dto) s
        (>>=-relates_where (R p store_id) (chain p store_id) (query (find_supplier p id))
          (update_found p u id dto) s (quiet p store_id s)
          λ found t e.
            >>=-relates_where (R p store_id) (chain p store_id)
              (or_throw found (not_found "Supplier not found")) (update_known p u id dto) t
              (or_throw-quiet p store_id found _ t)
              λ x w e'.
                let (asked, at1) = query-eq-ok (find_supplier p id) s t found e in
                let (same, at2) = or_throw-eq-ok found (not_found "Supplier not found") t w x e' in
                let (m, met) =
                  p.find_first-some (λ z. has_id id z && is_active z.status) s.suppliers x
                    (asked ∙ ap ok same) in
                moved (given_text dto.store_id) refl x w
                  (subst (λ (d : Db). Memᴰ x d.suppliers) (sym (at2 ∙ at1)) m) (ground arith))
    where
      moved :
          (o : Option String)
          → given_text dto.store_id ≡ o
          → (x : Supplier) (w : Db) → Memᴰ x w.suppliers
          → has_id id x ≡ true
          → R p store_id w ((move_to p u x o >> change_to p id dto x) w).1
      moved none e x w m mine = update_to-R id dto x w m mine (λ named e' at. cc (e, e'))
      moved (some named) e x w m mine = elim (Bool-cases (named == x.store_id)) [
        | inl h ↦ rw h (
            update_to-R id dto x w m mine
              λ other e' at. named_once other e' ∙ (eq_iff named x.store_id).0 h)
        | inr h ↦ rw h (
            >>=-relates_where (R p store_id) (chain p store_id)
              (validate_store_access p u named >> pure tt) (λ _. change_to p id dto x) w
              (>>=-relates_where (R p store_id) (chain p store_id) (validate_store_access p u named)
                (λ _. pure tt) w (validate-quiet p store_id u named w)
                (λ _ a _. quiet p store_id a))
              (λ _ a ran.
                let (store, b, validated, last) =
                  >>=-eq-ok (validate_store_access p u named) (λ _. pure tt) w a tt ran in
                away store a b validated))
      ]
        where
          named_once : (other : String) → given_text dto.store_id ≡ some other → other ≡ named
          named_once other e' = cc (e, e')

          away :
              (store : Store) (a b : Db)
              → validate_store_access p u named w ≡ (ok store, b)
              → R p store_id a (change_to p id dto x a).1
          away store a b validated =
              update_away-R id dto x named a e
                (not_outside named (validated-enters p u named w b store validated))

  delete-R : (id : ℕ) (s : Db) → R p store_id s (delete_supplier p u id s).1
  unfolding delete_supplier
  delete-R id s =
      >>=-relates_where (R p store_id) (chain p store_id)
        (throw_if (not (may_delete u.role)) (forbidden "Only admins can delete suppliers"))
        (λ _.
          catching "Failed to delete supplier: " (query (find_own p u id) >>= delete_found p id))
        s (throw_if-quiet p store_id _ _ s)
        λ _ t _.
          catching-quiet p store_id "Failed to delete supplier: "
            (query (find_own p u id) >>= delete_found p id) t
            (>>=-relates_where (R p store_id) (chain p store_id) (query (find_own p u id))
              (delete_found p id) t (quiet p store_id t)
              λ found w e.
                >>=-relates_where (R p store_id) (chain p store_id)
                  (or_throw found (not_found "Supplier not found")) (λ _. change p id deactivated) w
                  (or_throw-quiet p store_id found _ w)
                  λ x a e'.
                    let (asked, at1) = query-eq-ok (find_own p u id) t w found e in
                    let (same, at2) =
                      or_throw-eq-ok found (not_found "Supplier not found") w a x e' in
                    let (m, met) =
                      p.find_first-some (own_supplier p u id) t.suppliers x (asked ∙ ap ok same) in
                    let here : Memᴰ x a.suppliers =
                      subst (λ (d : Db). Memᴰ x d.suppliers) (sym (at2 ∙ at1)) m in
                    let other : x.store_id ≢ store_id = not_outside x.store_id (ground arith) in
                    let mine : has_id id x ≡ true = ground arith in
                    change-R id deactivated a (
                      update-Kept p store_id id deactivated a.suppliers (λ y. refl)
                        λ y my unique hy at. absurd (
                          other (
                            ap (λ (z : Supplier). z.store_id)
                              (sym (found_row id y x a.suppliers unique my here hy mine))
                            ∙ at))))

  pub perform-R : (c : Call) (s : Db) → R p store_id s (perform p u c s)
  unfolding perform
  perform-R (create dto) s = create-R dto s
  perform-R (update id dto) s = update-R id dto s
  perform-R (delete id) s = delete-R id s

module _ (p : Prisma) (store_id : String) where
  run-R :
      (cs : List (User × Call))
      → ((c : User × Call) → Memᴰ c cs → may_enter c.0 store_id ≡ false)
      → (s : Db) → R p store_id s (run p cs s)
  unfolding run
  run-R [] out s = quiet p store_id s
  run-R (c ∷ cs) out s =
      chain p store_id s (perform p c.0 c.1 s) (run p cs (perform p c.0 c.1 s))
        (perform-R p store_id c.0 (out c (Memᴰ.head refl)) c.1 s)
        (run-R cs (λ d m. out d (Memᴰ.tail m)) (perform p c.0 c.1 s))

  -- What the suppliers of the store come to. A supplier of it that is found in another store was moved.
  pub record Untouched (t t' : List Supplier) : Type 0 where
    pub none_came :
        (x : Supplier) → Memᴰ x t' → x.store_id ≡ store_id → (y : Supplier) × Memᴰ y t × Stays y x
    pub none_went :
        (y : Supplier)
        → Memᴰ y t
        → y.store_id ≡ store_id
        → (x : Supplier) × Memᴰ x t' × (x.id ≡ y.id) × ((x.store_id ≢ store_id) ⊎ Stays y x)

  -- After any calls of users who may not enter a store, whether they return or throw, every supplier
  -- that the store has was one of its suppliers before, with the same status; and every supplier that it
  -- had is still in the table, either in another store, to which it was moved, or in this store with the
  -- status that it had. Identifiers are unique at the start.
  pub run-Untouched :
      (cs : List (User × Call)) (s : Db)
      → UniqueIds s.suppliers
      → ((c : User × Call) → Memᴰ c cs → may_enter c.0 store_id ≡ false)
      → Untouched s.suppliers (run p cs s).suppliers
  run-Untouched cs s unique out =
      let (unique', came, left) = run-R cs out s unique in
      record {
        none_came = came;
        none_went = λ y my at.
            let (x, mx, same) = left y my in
            (x, mx, same, here y my x mx same came (Bool-cases (x.store_id == store_id)));
      }
    where
      here :
          (y : Supplier)
          → Memᴰ y s.suppliers
          → (x : Supplier) → Memᴰ x (run p cs s).suppliers
          → x.id ≡ y.id
          → ((z : Supplier)
              → Memᴰ z (run p cs s).suppliers
              → z.store_id ≡ store_id
              → (w : Supplier) × Memᴰ w s.suppliers × Stays w z)
          → ((x.store_id == store_id) ≡ true) ⊎ ((x.store_id == store_id) ≡ false)
          → (x.store_id ≢ store_id) ⊎ Stays y x
      here y my x mx same came (inl h) =
          let (w, mw, k) = came x mx ((eq_iff x.store_id store_id).0 h) in
          inr (subst (λ z. Stays z x) (unique w y mw my (k.id ∙ same)) k)
      here y my x mx same came (inr h) = inl (λ e. cc ((eq_iff x.store_id store_id).1 e, h))
