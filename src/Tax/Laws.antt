-- ===== src/Tax/Laws.antt =====
-- The answers of the tax service add up, and every tax of the entities asked for is in them, and no
-- other.
use accurack_software_backen.Common.{
  String, Bool, true, Option, none, some, List, [], ◌∷◌, ◌++◌, ◌&&◌, ◌≡◌, refl, ap, subst, ◌∙◌, ◌⊎◌,
  inl, inr, any, map, foldl, is_empty, Memᴰ, arith, if◌then◌else◌, ◌≢◌, ◌==◌, ◌↔◌, eq_iff,
  any-append, or_iff,
}
use accurack_software_backen.Effect.{ok, not_found, ◌>>=◌, pure, query, or_throw}
use accurack_software_backen.Effect.Laws.{>>=-eq-ok, query-eq-ok, or_throw-eq-ok}
use accurack_software_backen.Prisma.{Prisma}
use accurack_software_backen.Tax.{
  Numbers, TaxAssignment, AppliedTax, TaxResponse, EntityTaxDto, ComprehensiveTaxDto, Product, Db,
  EntityType, product, category, store, supplier, customer, query_for, same_type, quantity_or_one,
  add_assignment, Totals, calculate_tax_amount, applied, taxed, untaxed, calculate_tax_by_entity,
  entity_queries, asked_for, calculate_comprehensive_tax,
}

module _ {N : Type 0} (n : Numbers N) where
  -- The sum of the taxes of an answer, in their order.
  abbrev pub sum_of : List (AppliedTax N) → N → N
  sum_of [] total = total
  sum_of (t ∷ ts) total = sum_of ts (n.plus total t.tax_amount)

  fold-sum_of :
      (amount quantity : N) (assignments : List (TaxAssignment N)) (s : Totals n)
      → (foldl (add_assignment n amount quantity) s assignments).total_tax_amount
        ≡ sum_of (map (applied n amount quantity) assignments) s.total_tax_amount
  fold-sum_of amount quantity [] s = refl
  fold-sum_of amount quantity (a ∷ as_left) s =
      fold-sum_of amount quantity as_left (add_assignment n amount quantity s a)

  -- What every answer satisfies: the tax is the sum of the listed taxes, and the total is the subtotal
  -- with the tax, or the subtotal itself where no tax is listed.
  pub record AddsUp (r : TaxResponse N) : Type 0 where
    pub tax : r.tax_amount ≡ sum_of r.applied_taxes n.zero
    pub total :
        (r.total ≡ n.plus r.subtotal r.tax_amount)
        ⊎ ((r.total ≡ r.subtotal) × (r.applied_taxes ≡ []))

  taxed-AddsUp :
      (entity : Option (EntityType × String)) (assignments : List (TaxAssignment N))
      (amount quantity : N)
      → AddsUp (taxed n entity assignments amount quantity)
  unfolding calculate_tax_amount
  taxed-AddsUp entity assignments amount quantity = record {
    tax =
        fold-sum_of amount quantity assignments
          (record { total_tax_amount = n.zero; total_percentage_rate = n.zero });
    total = inl refl;
  }

  -- An answer: it adds up; its subtotal is the amount times the quantity (1 if the quantity is missing,
  -- 0 or NaN), or `bare` if it lists no tax; it lists exactly the assignments of the table that bear.
  pub record IsAnswer (bare amount quantity : N) (Bears : TaxAssignment N → Type 0)
      (table : List (TaxAssignment N)) (r : TaxResponse N) : Type 0 where
    pub adds_up : AddsUp r
    pub subtotal :
        ((r.applied_taxes ≡ []) × (r.subtotal ≡ bare))
        ⊎ ((r.applied_taxes ≢ []) × (r.subtotal ≡ n.times amount quantity))
    pub assignments : List (TaxAssignment N)
    pub lists : r.applied_taxes ≡ map (applied n amount quantity) assignments
    pub only : (a : TaxAssignment N) → Memᴰ a assignments → Memᴰ a table × Bears a
    pub each : (a : TaxAssignment N) → Memᴰ a table → Bears a → Memᴰ a assignments

  abbrev response :
      Option (EntityType × String) → N → N → N → List (TaxAssignment N) → TaxResponse N
  response entity bare amount quantity as_found =
      if is_empty as_found then untaxed n entity bare else taxed n entity as_found amount quantity

  module _ (p : Prisma) (q : TaxAssignment N → Bool) (Bears : TaxAssignment N → Type 0)
      (meaning : (a : TaxAssignment N) → (q a ≡ true) ↔ Bears a) where
    response-IsAnswer :
        (entity : Option (EntityType × String)) (bare amount quantity : N)
        (table as_found : List (TaxAssignment N))
        → p.find_many q table ≡ ok as_found
        → IsAnswer bare amount quantity Bears table (response entity bare amount quantity as_found)
    response-IsAnswer entity bare amount quantity table [] h = record {
      adds_up = record { tax = refl; total = inr (refl, refl) };
      subtotal = inl (refl, refl);
      assignments = [];
      lists = refl;
      only = λ a m. elim m [ ];
      each = λ a m b. p.find_many-complete q table [] a h m ((meaning a).1 b);
    }
    response-IsAnswer entity bare amount quantity table (x ∷ xs) h = record {
      adds_up = taxed-AddsUp entity (x ∷ xs) amount quantity;
      subtotal = inr (λ e. cc, refl);
      assignments = x ∷ xs;
      lists = refl;
      only = λ a m.
          let (listed, holds) = p.find_many-sound q table (x ∷ xs) a h m in
          (listed, (meaning a).0 holds);
      each = λ a m b. p.find_many-complete q table (x ∷ xs) a h m ((meaning a).1 b);
    }

  same_type_iff : (s t : EntityType) → (same_type s t ≡ true) ↔ (s ≡ t)
  same_type_iff s t = ground arith

  -- The assignment is one of the entity.
  abbrev pub IsFor : EntityType → String → TaxAssignment N → Type 0
  IsFor t id a = (a.entity_type ≡ t) × (a.entity_id ≡ id)

  IsFor-iff :
      (t : EntityType) (id : String) (a : TaxAssignment N)
      → ((same_type a.entity_type t && a.entity_id == id) ≡ true) ↔ IsFor t id a
  IsFor-iff t id a = ground (arith, same_type_iff a.entity_type t, eq_iff a.entity_id id)

  -- The entity is given, and the assignment is one of it.
  abbrev pub IsGiven : EntityType → Option String → TaxAssignment N → Type 0
  IsGiven t id a = (a.entity_type ≡ t) × (id ≡ some a.entity_id) × (a.entity_id ≢ "")

  IsGiven-iff :
      (t : EntityType) (o : Option String) (a : TaxAssignment N)
      → (any (λ q. same_type a.entity_type q.0 && a.entity_id == q.1) (query_for t o) ≡ true)
        ↔ IsGiven t o a
  IsGiven-iff t none a = ground arith
  IsGiven-iff t (some id) a =
      ground (arith, same_type_iff a.entity_type t, eq_iff a.entity_id id, eq_iff id "")

  module _ (p : Prisma) where
    answer-eq-ok :
        (entity : Option (EntityType × String)) (bare amount quantity : N)
        (xs : List (TaxAssignment N)) (t t' : Db N) (r : TaxResponse N)
        → (if is_empty xs
              then pure (untaxed n entity bare)
              else pure (taxed n entity xs amount quantity))
            t
          ≡ (ok r, t')
        → (t' ≡ t) × (response entity bare amount quantity xs ≡ r)
    answer-eq-ok entity bare amount quantity [] t t' r h = (cc, cc)
    answer-eq-ok entity bare amount quantity (x ∷ xs) t t' r h = (cc, cc)

    -- A call for one entity that returns gives an answer over the assignments of that entity; with no
    -- assignment its subtotal is the bare amount, not the amount times the quantity. It writes nothing.
    pub calculate_tax_by_entity-IsAnswer :
        (dto : EntityTaxDto N) (db db' : Db N) (r : TaxResponse N)
        → calculate_tax_by_entity n p dto db ≡ (ok r, db')
        → (db' ≡ db)
          × IsAnswer dto.amount dto.amount
              (quantity_or_one n dto.quantity)
              (IsFor dto.entity_type dto.entity_id)
              db.tax_assignments
              r
    unfolding calculate_tax_by_entity
    calculate_tax_by_entity-IsAnswer dto db db' r h =
        let q = λ (a : TaxAssignment N).
          same_type a.entity_type dto.entity_type && a.entity_id == dto.entity_id in
        let ask = λ (d : Db N). p.find_many q d.tax_assignments in
        let entity = some (dto.entity_type, dto.entity_id) in
        let answer = λ (xs : List (TaxAssignment N)).
          if is_empty xs
          then pure (untaxed n entity dto.amount)
          else pure (taxed n entity xs dto.amount (quantity_or_one n dto.quantity)) in
        let (xs, t, asked, rest) = >>=-eq-ok (query ask) answer db db' r h in
        let (found, same) = query-eq-ok ask db t xs asked in
        let (unread, is_r) =
          answer-eq-ok entity dto.amount dto.amount (quantity_or_one n dto.quantity) xs t db' r
            rest in
        (
          unread ∙ same,
          subst
              (IsAnswer dto.amount dto.amount (quantity_or_one n dto.quantity)
                (IsFor dto.entity_type dto.entity_id) db.tax_assignments)
              is_r
              (response-IsAnswer p q (IsFor dto.entity_type dto.entity_id)
                (IsFor-iff dto.entity_type dto.entity_id) entity dto.amount dto.amount
                (quantity_or_one n dto.quantity) db.tax_assignments xs found),
        )

    -- The entities that bear on a sale of the product: the product, its category, and the store, the
    -- supplier and the customer of the request, each if its identifier is given and not empty.
    abbrev pub Bears : ComprehensiveTaxDto N → Product → TaxAssignment N → Type 0
    Bears dto x a =
        IsFor product dto.product_id a
        ⊎ (IsGiven category x.category_id a
            ⊎ (IsGiven store dto.store_id a
                ⊎ (IsGiven supplier dto.supplier_id a ⊎ IsGiven customer dto.customer_id a)))

    Bears-iff :
        (dto : ComprehensiveTaxDto N) (x : Product) (a : TaxAssignment N)
        → (asked_for n p (entity_queries n p dto x) a ≡ true) ↔ Bears dto x a
    unfolding entity_queries
    Bears-iff dto x a =
        let f = λ (q : EntityType × String). same_type a.entity_type q.0 && a.entity_id == q.1 in
        let last = query_for supplier dto.supplier_id ++ query_for customer dto.customer_id in
        rw
          (
            any-append f (query_for category x.category_id) (query_for store dto.store_id ++ last),
            any-append f (query_for store dto.store_id) last,
            any-append f (query_for supplier dto.supplier_id) (query_for customer dto.customer_id),
          )
          (or_iff (same_type a.entity_type product && a.entity_id == dto.product_id) _
            (IsFor-iff product dto.product_id a)
            (or_iff (any f (query_for category x.category_id)) _
              (IsGiven-iff category x.category_id a)
              (or_iff (any f (query_for store dto.store_id)) _ (IsGiven-iff store dto.store_id a) (
                or_iff (any f (query_for supplier dto.supplier_id))
                  (any f (query_for customer dto.customer_id))
                  (IsGiven-iff supplier dto.supplier_id a)
                  (IsGiven-iff customer dto.customer_id a)))))

    -- A call for a product that returns has found the product and gives an answer over the assignments
    -- of all the entities that bear on the sale. It writes nothing.
    pub calculate_comprehensive_tax-IsAnswer :
        (dto : ComprehensiveTaxDto N) (db db' : Db N) (r : TaxResponse N)
        → calculate_comprehensive_tax n p dto db ≡ (ok r, db')
        → (x : Product) × Memᴰ x db.products
          × (x.id ≡ dto.product_id)
          × (db' ≡ db)
          × IsAnswer
              (n.times dto.amount (quantity_or_one n dto.quantity))
              dto.amount
              (quantity_or_one n dto.quantity)
              (Bears dto x)
              db.tax_assignments
              r
    unfolding calculate_comprehensive_tax
    calculate_comprehensive_tax-IsAnswer dto db db' r h =
        let here = λ (x : Product). x.id == dto.product_id in
        let quantity = quantity_or_one n dto.quantity in
        let bare = n.times dto.amount quantity in
        let ask = λ (d : Db N). p.find_first here d.products in
        let search = λ (x : Product). query (λ (d : Db N).
          p.find_many (asked_for n p (entity_queries n p dto x)) d.tax_assignments) in
        let answer = λ (xs : List (TaxAssignment N)).
          if is_empty xs
          then pure (untaxed n none bare)
          else pure (taxed n none xs dto.amount quantity) in
        let given = λ (o : Option Product). or_throw o (not_found "Product not found") in
        let (o, s0, h0, rest0) =
          >>=-eq-ok (query ask)
            (λ (o : Option Product). given o >>= λ (x : Product). search x >>= answer) db db' r h in
        let (found, same0) = query-eq-ok ask db s0 o h0 in
        let (x, s1, h1, rest1) =
          >>=-eq-ok (given o) (λ (x : Product). search x >>= answer) s0 db' r rest0 in
        let (is_x, same1) = or_throw-eq-ok o (not_found "Product not found") s0 s1 x h1 in
        let (xs, s2, h2, rest2) = >>=-eq-ok (search x) answer s1 db' r rest1 in
        let (many, same2) =
          query-eq-ok
            (λ (d : Db N). p.find_many (asked_for n p (entity_queries n p dto x)) d.tax_assignments)
            s1 s2 xs h2 in
        let (same3, is_r) = answer-eq-ok none bare dto.amount quantity xs s2 db' r rest2 in
        let (listed, holds) = p.find_first-some here db.products x (found ∙ ap ok is_x) in
        let at_db = same1 ∙ same0 in
        (
          x,
          listed,
          (eq_iff x.id dto.product_id).0 holds,
          same3 ∙ same2 ∙ at_db,
          subst (IsAnswer bare dto.amount quantity (Bears dto x) db.tax_assignments) is_r (
              response-IsAnswer p (asked_for n p (entity_queries n p dto x)) (Bears dto x)
                (Bears-iff dto x) none bare dto.amount quantity db.tax_assignments xs
                (subst
                  (λ (d : Db N).
                    p.find_many (asked_for n p (entity_queries n p dto x)) d.tax_assignments
                    ≡ ok xs)
                  at_db many)),
        )
