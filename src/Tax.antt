-- ===== src/Tax.antt =====
-- src/tax/services/tax-calculation.service.ts: the tax on an amount for one entity, and for a product
-- with all the entities that bear on it. Amounts are the doubles of the source, taken as a type with
-- the operations that the code uses and no laws: what is proved holds of rounded arithmetic as it is.
pub mod Laws
pub mod Tests
use accurack_software_backen.Common.{
  String, Bool, true, false, Option, none, some, List, [], ◌∷◌, ◌++◌, ◌&&◌, ◌||◌, ◌==◌, any, map,
  foldl, is_empty, if◌then◌else◌,
}
use accurack_software_backen.Effect.{
  Result, ok, err, not_found, Action, ◌>>=◌, pure, query, or_throw,
}
use accurack_software_backen.Prisma.{Prisma}

-- The arithmetic of `number`.
pub record Numbers (N : Type 0) : Type 0 where
  pub zero : N
  pub one : N
  pub plus : N → N → N
  pub times : N → N → N
  pub divide : N → N → N
  pub positive : N → Bool
  -- whether a number is neither 0 nor NaN
  pub truthy : N → Bool

pub data RateType : Type 0 where
  percentage fixed_amount : RateType

pub data EntityType : Type 0 where
  product category store supplier customer : EntityType

abbrev pub same_type : EntityType → EntityType → Bool
same_type product product = true
same_type category category = true
same_type store store = true
same_type supplier supplier = true
same_type customer customer = true
same_type _ _ = false

pub record TaxRate (N : Type 0) : Type 0 where
  pub rate : N
  pub rate_type : RateType
  pub code : String
  pub type_name : String

-- A row of the table of assignments with the rate that it includes.
pub record TaxAssignment (N : Type 0) : Type 0 where
  pub id : String
  pub entity_type : EntityType
  pub entity_id : String
  pub tax_rate : TaxRate N

pub record Product : Type 0 where
  pub id : String
  pub category_id : Option String

pub record Db (N : Type 0) : Type 0 where
  pub products : List Product
  pub tax_assignments : List (TaxAssignment N)

pub record AppliedTax (N : Type 0) : Type 0 where
  pub id : String
  pub entity_type : EntityType
  pub entity_id : String
  pub rate : N
  pub rate_type : RateType
  pub tax_amount : N
  pub tax_code : String
  pub tax_type : String

pub record TaxResponse (N : Type 0) : Type 0 where
  pub subtotal : N
  pub tax_amount : N
  pub total : N
  pub effective_rate : N
  pub entity : Option (EntityType × String)
  pub applied_taxes : List (AppliedTax N)

pub record EntityTaxDto (N : Type 0) : Type 0 where
  pub entity_type : EntityType
  pub entity_id : String
  pub amount : N
  pub quantity : Option N

pub record ComprehensiveTaxDto (N : Type 0) : Type 0 where
  pub product_id : String
  pub store_id : Option String
  pub supplier_id : Option String
  pub customer_id : Option String
  pub amount : N
  pub quantity : Option N

-- `if (id) queries.push({ entityType, entityId: id })`
abbrev pub query_for : EntityType → Option String → List (EntityType × String)
query_for t none = []
query_for t (some id) = if id == "" then [] else (t, id) ∷ []

module _ {N : Type 0} (n : Numbers N) where
  open n use {zero, one, plus, times, divide, positive, truthy}

  -- `dto.quantity || 1`
  abbrev pub quantity_or_one : Option N → N
  quantity_or_one none = one
  quantity_or_one (some q) = if truthy q then q else one

  abbrev amount_at : RateType → N → N → N → N
  amount_at percentage rate amount quantity = times (times amount quantity) rate
  amount_at fixed_amount rate amount quantity = times rate quantity

  pub calculate_individual_tax_amount : TaxRate N → N → N → N
  calculate_individual_tax_amount t amount quantity = amount_at t.rate_type t.rate amount quantity

  abbrev rate_at : RateType → N → N → N → N
  rate_at percentage rate line_total tax = rate
  rate_at fixed_amount rate line_total tax =
      if positive line_total then divide tax line_total else zero

  abbrev pub Totals : Type 0
  Totals = record { total_tax_amount : N; total_percentage_rate : N }

  abbrev pub add_assignment : N → N → Totals → TaxAssignment N → Totals
  add_assignment amount quantity s a =
      let tax = calculate_individual_tax_amount a.tax_rate amount quantity in
      record {
        total_tax_amount = plus s.total_tax_amount tax;
        total_percentage_rate =
            plus s.total_percentage_rate
              (rate_at a.tax_rate.rate_type a.tax_rate.rate (times amount quantity) tax);
      }

  pub calculate_tax_amount : List (TaxAssignment N) → N → N → Totals
  calculate_tax_amount assignments amount quantity =
      foldl (add_assignment amount quantity)
        (record { total_tax_amount = zero; total_percentage_rate = zero }) assignments

  abbrev pub applied : N → N → TaxAssignment N → AppliedTax N
  applied amount quantity a = record {
    id = a.id;
    entity_type = a.entity_type;
    entity_id = a.entity_id;
    rate = a.tax_rate.rate;
    rate_type = a.tax_rate.rate_type;
    tax_amount = calculate_individual_tax_amount a.tax_rate amount quantity;
    tax_code = a.tax_rate.code;
    tax_type = a.tax_rate.type_name;
  }

  -- the answer where some assignment applies
  abbrev pub taxed : Option (EntityType × String) → List (TaxAssignment N) → N → N → TaxResponse N
  taxed entity assignments amount quantity =
      let totals = calculate_tax_amount assignments amount quantity in
      record {
        subtotal = times amount quantity;
        tax_amount = totals.total_tax_amount;
        total = plus (times amount quantity) totals.total_tax_amount;
        effective_rate = totals.total_percentage_rate;
        entity = entity;
        applied_taxes = map (applied amount quantity) assignments;
      }

  -- the answer where none does
  abbrev pub untaxed : Option (EntityType × String) → N → TaxResponse N
  untaxed entity subtotal = record {
    subtotal = subtotal;
    tax_amount = zero;
    total = subtotal;
    effective_rate = zero;
    entity = entity;
    applied_taxes = [];
  }

  module _ (p : Prisma) where
    pub calculate_tax_by_entity : EntityTaxDto N → Action (Db N) (TaxResponse N)
    calculate_tax_by_entity dto =
        query (λ db.
          p.find_many (λ a. same_type a.entity_type dto.entity_type && a.entity_id == dto.entity_id)
            db.tax_assignments)
        >>= λ assignments.
            if is_empty assignments
            then pure (untaxed (some (dto.entity_type, dto.entity_id)) dto.amount)
            else pure (
                taxed (some (dto.entity_type, dto.entity_id)) assignments dto.amount
                  (quantity_or_one dto.quantity))

    pub entity_queries : ComprehensiveTaxDto N → Product → List (EntityType × String)
    entity_queries dto x =
        (product, dto.product_id)
        ∷ (query_for category x.category_id
            ++ (query_for store dto.store_id
                ++ (query_for supplier dto.supplier_id ++ query_for customer dto.customer_id)))

    -- `where: { OR: entityQueries }`
    abbrev pub asked_for : List (EntityType × String) → TaxAssignment N → Bool
    asked_for queries a = any (λ q. same_type a.entity_type q.0 && a.entity_id == q.1) queries

    pub calculate_comprehensive_tax : ComprehensiveTaxDto N → Action (Db N) (TaxResponse N)
    calculate_comprehensive_tax dto =
        query (λ db. p.find_first (λ (x : Product). x.id == dto.product_id) db.products)
        >>= λ found. or_throw found (not_found "Product not found") >>= λ x.
            query (λ db. p.find_many (asked_for (entity_queries dto x)) db.tax_assignments)
            >>= λ assignments.
                if is_empty assignments
                then pure (untaxed none (times dto.amount (quantity_or_one dto.quantity)))
                else pure (taxed none assignments dto.amount (quantity_or_one dto.quantity))
