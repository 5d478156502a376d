-- ===== src/Tax/Tests.antt =====
-- The tax service of src/tax/services/tax-calculation.service.ts on a small table, with natural numbers
-- in place of doubles.
use accurack_software_backen.Common.{
  ℕ, ◌+◌, ◌*◌, true, not, nat_eq, none, some, [], ◌∷◌, ◌≡◌, refl, Memᴰ,
}
use accurack_software_backen.Effect.{Result, ok, err}
use accurack_software_backen.Prisma.Memory.{memory}
use accurack_software_backen.Tax.{
  Numbers, TaxResponse, EntityTaxDto, ComprehensiveTaxDto, Product, Db, percentage, fixed_amount,
  EntityType, quantity_or_one, calculate_individual_tax_amount, calculate_tax_amount,
  calculate_tax_by_entity, entity_queries, calculate_comprehensive_tax,
}
use accurack_software_backen.Tax.Laws.{
  IsAnswer, IsFor, Bears, calculate_tax_by_entity-IsAnswer, calculate_comprehensive_tax-IsAnswer,
}

abbrev naturals : Numbers ℕ
naturals = record {
  zero = 0;
  one = 1;
  plus = ◌+◌;
  times = ◌*◌;
  divide = λ a b. a;
  positive = λ a. not (nat_eq a 0);
  truthy = λ a. not (nat_eq a 0);
}

abbrev shop : Db ℕ
shop = record {
  products = record { id = "tea"; category_id = some "drinks" } ∷ [];
  tax_assignments =
      record {
        id = "a1";
        entity_type = EntityType.product;
        entity_id = "tea";
        tax_rate = record { rate = 2; rate_type = fixed_amount; code = "F"; type_name = "levy" };
      }
      ∷ record {
        id = "a2";
        entity_type = EntityType.category;
        entity_id = "drinks";
        tax_rate = record { rate = 1; rate_type = percentage; code = "P"; type_name = "vat" };
      }
      ∷ [];
}

abbrev three_teas : EntityTaxDto ℕ
three_teas = record {
  entity_type = EntityType.product;
  entity_id = "tea";
  amount = 10;
  quantity = some 3;
}

abbrev tea_answer : TaxResponse ℕ
tea_answer = record {
  subtotal = 30;
  tax_amount = 6;
  total = 36;
  effective_rate = 6;
  entity = some (EntityType.product, "tea");
  applied_taxes =
      record {
        id = "a1";
        entity_type = EntityType.product;
        entity_id = "tea";
        rate = 2;
        rate_type = fixed_amount;
        tax_amount = 6;
        tax_code = "F";
        tax_type = "levy";
      }
      ∷ [];
}

answers : calculate_tax_by_entity naturals (memory true) three_teas shop ≡ (ok tea_answer, shop)
unfolding calculate_tax_by_entity calculate_tax_amount calculate_individual_tax_amount
answers = refl

calculate_tax_by_entity-IsAnswer_example :
    (shop ≡ shop)
    × IsAnswer naturals 10 10
        (quantity_or_one naturals (some 3))
        (IsFor naturals EntityType.product "tea")
        shop.tax_assignments
        tea_answer
calculate_tax_by_entity-IsAnswer_example =
    calculate_tax_by_entity-IsAnswer naturals (memory true) three_teas shop shop tea_answer answers

abbrev basket : ComprehensiveTaxDto ℕ
basket = record {
  product_id = "tea";
  store_id = some "s1";
  supplier_id = none;
  customer_id = some "";
  amount = 10;
  quantity = some 3;
}

-- What the service answers, or a stand-in where it throws.
abbrev answered : Result (TaxResponse ℕ) → TaxResponse ℕ
answered (ok r) = r
answered (err e) = tea_answer

abbrev basket_answer : TaxResponse ℕ
basket_answer = answered (calculate_comprehensive_tax naturals (memory true) basket shop).0

basket_total : basket_answer.total ≡ 66
unfolding calculate_comprehensive_tax entity_queries calculate_tax_amount
    calculate_individual_tax_amount
basket_total = refl

answers_basket :
    calculate_comprehensive_tax naturals (memory true) basket shop ≡ (ok basket_answer, shop)
unfolding calculate_comprehensive_tax entity_queries calculate_tax_amount
    calculate_individual_tax_amount
answers_basket = refl

calculate_comprehensive_tax-IsAnswer_example :
    (x : Product) × Memᴰ x shop.products
    × (x.id ≡ "tea")
    × (shop ≡ shop)
    × IsAnswer naturals
        (10 * quantity_or_one naturals (some 3))
        10
        (quantity_or_one naturals (some 3))
        (Bears naturals (memory true) basket x)
        shop.tax_assignments
        basket_answer
calculate_comprehensive_tax-IsAnswer_example =
    calculate_comprehensive_tax-IsAnswer naturals (memory true) basket shop shop basket_answer
      answers_basket
