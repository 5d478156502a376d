-- ===== src/Sale/Return/Restock.antt =====
-- What the items of a return put back on the stock, in src/sale/sale.service.ts: the units of those that
-- came back and are of the category SALEABLE or SCRAP.
use accurack_software_backen.Common.{
  String, Bool, true, false, List, [], ◌∷◌, ◌&&◌, ◌||◌, ◌==◌, ◌≡◌, refl, sym, ap, ap₂, ◌∙◌, map,
  arith, eq_iff, if◌then◌else◌, Bool-cases, inl, inr,
}
use accurack_software_backen.Common.Int.{ℤ, pos, ◌+ℤ◌, int_laws}
use accurack_software_backen.Prisma.{update_rows}
use accurack_software_backen.Sale.Tables.{Product}
use accurack_software_backen.Sale.Stock.{has_id}
use accurack_software_backen.Sale.Return.{SaleReturnItemDto, goes_back, is_restocked, increment_by}

add_zero : (a : ℤ) → a +ℤ pos 0 ≡ a
add_zero a = omega int_laws

zero_add : (a : ℤ) → a ≡ pos 0 +ℤ a
zero_add a = omega int_laws

add_assoc : (a b c : ℤ) → a +ℤ b +ℤ c ≡ a +ℤ (b +ℤ c)
add_assoc a b c = omega int_laws

kept_category : (s : String) → s ≡ "NON_SALEABLE" → (s == "SALEABLE" || s == "SCRAP") ≡ false
kept_category s e = ap (λ c. c == "SALEABLE" || c == "SCRAP") e

module _ {N : Type 0} where
  abbrev pub comes_back : SaleReturnItemDto N → Bool
  comes_back i =
      i.is_product_returned && (i.return_category == "SALEABLE" || i.return_category == "SCRAP")

  -- How many units of a product the items put back.
  abbrev pub units_back : List (SaleReturnItemDto N) → String → ℤ
  units_back [] id = pos 0
  units_back (i ∷ items) id =
      (if id == i.product_id && comes_back i then i.quantity else pos 0) +ℤ units_back items id

  -- Every product with the units that the items put back, and otherwise as it was.
  abbrev pub restock_all : List (SaleReturnItemDto N) → List (Product N) → List (Product N)
  restock_all items = map (λ x. increment_by (units_back items x.id) x)

  pub restock_all-nil : (t : List (Product N)) → restock_all [] t ≡ t
  restock_all-nil [] = refl
  restock_all-nil (x ∷ t) =
      ap₂ ◌∷◌ (ap (λ q. record x { item_quantity = q }) (add_zero x.item_quantity))
        (restock_all-nil t)

  pub restock_all-back :
      (i : SaleReturnItemDto N) (items : List (SaleReturnItemDto N)) (t : List (Product N))
      → comes_back i ≡ true
      → restock_all items (update_rows (has_id i.product_id) (increment_by i.quantity) t)
        ≡ restock_all (i ∷ items) t
  restock_all-back i items [] h = refl
  restock_all-back i items (x ∷ t) h = elim (Bool-cases (x.id == i.product_id)) [
    | inl e ↦
        rw (e, h)
          (ap₂ ◌∷◌
            (ap (λ q. record x { item_quantity = q })
              (add_assoc x.item_quantity i.quantity (units_back items x.id)))
            (restock_all-back i items t h))
    | inr e ↦ rw e (
        ap₂ ◌∷◌
          (ap (λ q. record x { item_quantity = x.item_quantity +ℤ q })
            (zero_add (units_back items x.id)))
          (restock_all-back i items t h))
  ]

  pub restock_all-kept :
      (i : SaleReturnItemDto N) (items : List (SaleReturnItemDto N)) (t : List (Product N))
      → comes_back i ≡ false
      → restock_all items t ≡ restock_all (i ∷ items) t
  restock_all-kept i items [] h = refl
  restock_all-kept i items (x ∷ t) h =
      let none_back : (x.id == i.product_id && comes_back i) ≡ false = ground arith in
      ap₂ ◌∷◌
        (ap (λ q. record x { item_quantity = x.item_quantity +ℤ q })
          (zero_add (units_back items x.id)
            ∙ ap (λ b. (if b then i.quantity else pos 0) +ℤ units_back items x.id) (sym none_back)))
        (restock_all-kept i items t h)

  pub comes_back_if :
      (i : SaleReturnItemDto N)
      → goes_back i ≡ true
      → is_restocked i.return_category ≡ true
      → comes_back i ≡ true
  comes_back_if i h k = ground arith

  pub kept_if_other :
      (i : SaleReturnItemDto N) → is_restocked i.return_category ≡ false → comes_back i ≡ false
  kept_if_other i k = ground arith

  pub kept_if_none : (i : SaleReturnItemDto N) → goes_back i ≡ false → comes_back i ≡ false
  kept_if_none i h = elim (Bool-cases (i.return_category == "NON_SALEABLE")) [
    | inl e ↦
        let other =
          kept_category i.return_category ((eq_iff i.return_category "NON_SALEABLE").0 e) in
        ground (arith, other)
    | inr e ↦ ground arith
  ]
