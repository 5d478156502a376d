-- ===== src/Sale/Create/Enough.antt =====
-- `createSale` of src/sale/sale.service.ts never sells what is not there.
use accurack_software_backen.Common.{
  ℕ, String, List, [], ◌∷◌, ◌≡◌, ◌==◌, refl, sym, ap, subst, ◌∙◌, Memᴰ, arith, Bool-cases, inl, inr,
  if◌then◌else◌, eq_iff,
}
use accurack_software_backen.Common.Int.{ℤ, pos, ◌≤ℤ◌, ◌-ℤ◌, int_laws}
use accurack_software_backen.Effect.{ok}
use accurack_software_backen.Effect.Laws.{for_each-preserves}
use accurack_software_backen.Prisma.{Prisma, update_rows}
use accurack_software_backen.Sale.Tables.{
  Amounts, Product, Customer, Sale, SaleItemDto, CreateSaleDto, Db,
}
use accurack_software_backen.Sale.Stock.{decrement, has_id}
use accurack_software_backen.Sale.Create.{take_item, sell, create_sale}
use accurack_software_backen.Sale.Create.Laws.{Taken, take_item-Taken, sell-ran}

left_over : (q : ℤ) (k : ℕ) → pos k ≤ℤ q → pos 0 ≤ℤ (q -ℤ pos k)
left_over q k h = omega (int_laws, h)

module _ {N : Type 0} where
  -- The identifiers are unique, and no product has fewer than zero units.
  pub record InStock (t : List (Product N)) : Type 0 where
    pub unique : (x y : Product N) → Memᴰ x t → Memᴰ y t → x.id ≡ y.id → x ≡ y
    pub nonnegative : (x : Product N) → Memᴰ x t → pos 0 ≤ℤ x.item_quantity

  abbrev changed : String → ℕ → Product N → Product N
  changed id quantity x = if has_id id x then decrement quantity x else x

  changed-id : (id : String) (quantity : ℕ) (x : Product N) → (changed id quantity x).id ≡ x.id
  changed-id id quantity x = elim (Bool-cases (x.id == id)) [ inl e ↦ rw e | inr e ↦ rw e ]

  Mem_update_rows :
      (id : String) (quantity : ℕ) (y : Product N) (t : List (Product N))
      → Memᴰ y (update_rows (has_id id) (decrement quantity) t)
      → (x : Product N) × Memᴰ x t × (y ≡ changed id quantity x)
  Mem_update_rows id quantity y [] m = elim m [ ]
  Mem_update_rows id quantity y (z ∷ t) (Memᴰ.head e) = (z, Memᴰ.head refl, e)
  Mem_update_rows id quantity y (z ∷ t) (Memᴰ.tail m) =
      let (x, m', e) = Mem_update_rows id quantity y t m in (x, Memᴰ.tail m', e)

module _ {N : Type 0} (n : Amounts N) (p : Prisma) (now : ℕ → ℕ) where
  Taken-InStock :
      (i : SaleItemDto N) (s s' : Db N)
      → Taken n p now i s s'
      → InStock s.products
      → InStock s'.products
  Taken-InStock i s s' r good = record {
    unique = λ x y mx my same.
        let (a, ma, ea) = from x mx in
        let (b, mb, eb) = from y my in
        let ids : a.id ≡ b.id =
          sym (changed-id i.product_id i.quantity a)
          ∙ (ap (λ (z : Product N). z.id) (sym ea)
              ∙ (same
                  ∙ (ap (λ (z : Product N). z.id) eb ∙ changed-id i.product_id i.quantity b))) in
        ea ∙ (ap (changed i.product_id i.quantity) (good.unique a b ma mb ids) ∙ sym eb);
    nonnegative = λ x m.
        let (a, ma, ea) = from x m in
        subst (λ (z : Product N). pos 0 ≤ℤ z.item_quantity) (sym ea) (still a ma);
  }
    where
      from :
          (x : Product N)
          → Memᴰ x s'.products
          → (a : Product N) × Memᴰ a s.products × (x ≡ changed i.product_id i.quantity a)
      from x m = Mem_update_rows i.product_id i.quantity x s.products (subst (Memᴰ x) r.taken m)

      still :
          (a : Product N)
          → Memᴰ a s.products
          → pos 0 ≤ℤ (changed i.product_id i.quantity a).item_quantity
      still a ma = elim (Bool-cases (a.id == i.product_id)) [
        | inl e ↦
            let ids : r.product.id ≡ a.id = ground (arith, eq_iff a.id i.product_id, r.found) in
            rw e (
              left_over a.item_quantity i.quantity (
                subst (λ (z : Product N). pos i.quantity ≤ℤ z.item_quantity)
                  (good.unique r.product a r.listed ma ids) r.enough))
        | inr e ↦ rw e (good.nonnegative a ma)
      ]

  -- Where identifiers are unique and no product has fewer than zero units, this is still so after a
  -- sale that is made: also several items of one product never take more than there is.
  pub create_sale-InStock :
      (dto : CreateSaleDto N) (user_id : String) (db db' : Db N) (r : Sale N × Customer)
      → InStock db.products
      → create_sale n p now dto user_id db ≡ (ok r, db')
      → InStock db'.products
  unfolding create_sale
  create_sale-InStock dto user_id db db' r good h =
      let (s1, s2, u, took, before, after) =
        sell-ran n p now dto user_id db db' r
          (p.transaction-ok (sell n p now dto user_id) db db' r h) in
      subst InStock (sym after) (
        for_each-preserves (take_item n p now) (λ a b. InStock a.products → InStock b.products)
          (λ a g. g)
          (λ i a b c v ran rest g.
            rest (Taken-InStock i a b (take_item-Taken n p now i a b v ran) g))
          dto.sale_items s1 s2 u took (subst InStock (sym before) good))
