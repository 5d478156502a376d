-- ===== src/Sale/Return/Tests.antt =====
-- Returns of src/sale/sale.service.ts on the small shop of the tests of sales.
use accurack_software_backen.Common.{ℕ, true, none, [], ◌∷◌, ◌≡◌, refl, String, List}
use accurack_software_backen.Common.Int.{ℤ, pos, negsuc, ◌+ℤ◌}
use accurack_software_backen.Effect.{ok, for_each}
use accurack_software_backen.Prisma.Memory.{memory}
use accurack_software_backen.Sale.Tables.{Db, SaleReturn}
use accurack_software_backen.Sale.Return.{
  SaleReturnItemDto, CreateSaleReturnDto, create_sale_return, return_item, answer,
}
use accurack_software_backen.Sale.Return.Laws.{Returned, create_sale_return-Returned}
use accurack_software_backen.Sale.Tests.{naturals, tea, sale_of_teas, recorded, last_entry}

abbrev settled : Db ℕ
settled = record recorded { balance_sheets = last_entry ∷ [] }

abbrev returned_tea : String → ℤ → SaleReturnItemDto ℕ
returned_tea category quantity = record {
  product_id = "tea";
  plu_upc = "4006381";
  is_product_returned = true;
  quantity = quantity;
  refund_amount = 3;
  return_category = category;
  reason = none;
}

abbrev two_teas : CreateSaleReturnDto ℕ
two_teas = record {
  sale_id = sale_of_teas.id;
  return_items = returned_tea "SALEABLE" (pos 2) ∷ returned_tea "NON_SALEABLE" (pos 1) ∷ [];
}

abbrev no_text : ℤ → String
no_text k = ""

abbrev after_return : Db ℕ
after_return = (create_sale_return naturals (memory true) 10 no_text two_teas "bob" settled).1

abbrev return_answer : List SaleReturn × ℕ
return_answer = answer naturals (memory true) 10 no_text two_teas "bob"

returns :
    create_sale_return naturals (memory true) 10 no_text two_teas "bob" settled
    ≡ (ok return_answer, after_return)
unfolding create_sale_return return_item for_each ◌+ℤ◌
returns = refl

puts_two_back : after_return.products ≡ record tea { item_quantity = pos 11 } ∷ []
unfolding create_sale_return return_item for_each ◌+ℤ◌
puts_two_back = refl

-- Only the items of one request are compared with what was sold: a second return of the same teas
-- passes as well, and then more has come back than was sold.
abbrev three_back : CreateSaleReturnDto ℕ
three_back = record {
  sale_id = sale_of_teas.id;
  return_items = returned_tea "SALEABLE" (pos 3) ∷ [];
}

abbrev twice_returned : Db ℕ
twice_returned =
    (create_sale_return naturals (memory true) 11 no_text three_back "bob"
      (create_sale_return naturals (memory true) 10 no_text three_back "bob" settled).1).1

returns_more_than_sold : twice_returned.products ≡ record tea { item_quantity = pos 15 } ∷ []
unfolding create_sale_return return_item for_each ◌+ℤ◌
returns_more_than_sold = refl

-- No test keeps a negative quantity out: such a return takes from the stock.
abbrev less_than_none : CreateSaleReturnDto ℕ
less_than_none = record {
  sale_id = sale_of_teas.id;
  return_items = returned_tea "SCRAP" (negsuc 3) ∷ [];
}

abbrev negatively_returned : Db ℕ
negatively_returned =
    (create_sale_return naturals (memory true) 10 no_text less_than_none "bob" settled).1

takes_four : negatively_returned.products ≡ record tea { item_quantity = pos 5 } ∷ []
unfolding create_sale_return return_item for_each ◌+ℤ◌
takes_four = refl

create_sale_return-Returned_example :
    Returned naturals (memory true) 10 no_text two_teas settled after_return
create_sale_return-Returned_example =
    create_sale_return-Returned naturals (memory true) 10 no_text two_teas "bob" settled
      after_return return_answer returns
