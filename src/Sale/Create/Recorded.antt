-- ===== src/Sale/Create/Recorded.antt =====
-- What the transaction of `createSale` of src/sale/sale.service.ts has recorded where it returns: the
-- sale, its items, and its entry in the account of the customer.
use accurack_software_backen.Common.{ℕ, String, List, [], ◌∷◌, ◌≡◌, refl, sym, ap, subst, ◌∙◌, Memᴰ}
use accurack_software_backen.Effect.{Result, ok, err, ◌>>◌, pure, query, for_each}
use accurack_software_backen.Effect.Laws.{>>=-eq-ok, write-eq-ok, for_each-cons}
use accurack_software_backen.Prisma.{Prisma}
use accurack_software_backen.Sale.Tables.{
  Amounts, Customer, Sale, SaleItem, BalanceSheet, SaleItemDto, CreateSaleDto, Db,
}
use accurack_software_backen.Sale.Create.{
  never_clash, with_sales, with_sale_items, with_balance_sheets, new_sale, add_sale, item_row,
  add_item, sale_sheet, add_sheet, record_sale, find_or_open, take_item, finish, sell_to, sell,
  create_sale,
}

here_in : {A : Type 0} (x : A) (xs t : List A) → t ≡ x ∷ xs → Memᴰ x t
here_in x xs t e = subst (Memᴰ x) (sym e) (Memᴰ.head refl)

still_in : {A : Type 0} (x y : A) (xs t : List A) → t ≡ x ∷ xs → Memᴰ y xs → Memᴰ y t
still_in x y xs t e m = subst (Memᴰ y) (sym e) (Memᴰ.tail m)

module _ {N : Type 0} where
  with_sales-eq-ok :
      (r : Result (List (Sale N))) (s s' : Db N)
      → with_sales s r ≡ ok s'
      → (t : List (Sale N)) × (r ≡ ok t) × (s' ≡ record s { sales = t })
  with_sales-eq-ok (ok t) s s' h = (t, refl, cc)
  with_sales-eq-ok (err e) s s' h = cc

  with_sale_items-eq-ok :
      (r : Result (List (SaleItem N))) (s s' : Db N)
      → with_sale_items s r ≡ ok s'
      → (t : List (SaleItem N)) × (r ≡ ok t) × (s' ≡ record s { sale_items = t })
  with_sale_items-eq-ok (ok t) s s' h = (t, refl, cc)
  with_sale_items-eq-ok (err e) s s' h = cc

  with_balance_sheets-eq-ok :
      (r : Result (List (BalanceSheet N))) (s s' : Db N)
      → with_balance_sheets s r ≡ ok s'
      → (t : List (BalanceSheet N)) × (r ≡ ok t) × (s' ≡ record s { balance_sheets = t })
  with_balance_sheets-eq-ok (ok t) s s' h = (t, refl, cc)
  with_balance_sheets-eq-ok (err e) s s' h = cc

module _ {N : Type 0} (n : Amounts N) (p : Prisma) (now : ℕ → ℕ) where
  -- The loop over the items keeps the sales and the rows that were there, and adds its own.
  record Added (sale_id : ℕ) (items : List (SaleItemDto N)) (s s' : Db N) : Type 0 where
    sales : s'.sales ≡ s.sales
    old : (r : SaleItem N) → Memᴰ r s.sale_items → Memᴰ r s'.sale_items
    new : (i : SaleItemDto N) → Memᴰ i items → Memᴰ (item_row n p now sale_id i) s'.sale_items

  add_item-adds :
      (sale_id : ℕ) (i : SaleItemDto N) (s s' : Db N) (u : Unit {0})
      → add_item n p now sale_id i s ≡ (ok u, s')
      → (s'.sales ≡ s.sales) × (s'.sale_items ≡ item_row n p now sale_id i ∷ s.sale_items)
  add_item-adds sale_id i s s' u h =
      let (t, made, left) =
        with_sale_items-eq-ok (p.create never_clash (item_row n p now sale_id i) s.sale_items) s s'
          (write-eq-ok
            (λ db.
              with_sale_items db (p.create never_clash (item_row n p now sale_id i) db.sale_items))
            s s' u h) in
      (
        ap (λ (d : Db N). d.sales) left,
        ap (λ (d : Db N). d.sale_items) left
            ∙ (p.create-ok never_clash (item_row n p now sale_id i) s.sale_items t made).1,
      )

  add_items-Added :
      (sale_id : ℕ) (items : List (SaleItemDto N)) (s s' : Db N) (u : Unit {0})
      → for_each (add_item n p now sale_id) items s ≡ (ok u, s')
      → Added sale_id items s s'
  unfolding for_each
  add_items-Added sale_id [] s s' u h =
      let same : s ≡ s' = ap (λ (o : Result (Unit {0}) × Db N). o.1) h in
      record {
        sales = ap (λ (d : Db N). d.sales) (sym same);
        old = λ r m. subst (λ (d : Db N). Memᴰ r d.sale_items) same m;
        new = λ i m. elim m [ ];
      }
  add_items-Added sale_id (i ∷ items) s s' u h =
      let (v, t, first, rest) = for_each-cons (add_item n p now sale_id) i items s s' u h in
      let (sales, rows) = add_item-adds sale_id i s t v first in
      let k = add_items-Added sale_id items t s' u rest in
      record {
        sales = k.sales ∙ sales;
        old = λ r m.
            k.old r (still_in (item_row n p now sale_id i) r s.sale_items t.sale_items rows m);
        new = λ j m. added t rows k j m;
      }
    where
      added :
          (t : Db N)
          → t.sale_items ≡ item_row n p now sale_id i ∷ s.sale_items
          → Added sale_id items t s'
          → (j : SaleItemDto N) → Memᴰ j (i ∷ items)
          → Memᴰ (item_row n p now sale_id j) s'.sale_items
      added t rows k j (Memᴰ.head e) = k.old (item_row n p now sale_id j) (
          subst (λ x. Memᴰ (item_row n p now sale_id x) t.sale_items) (sym e)
            (here_in (item_row n p now sale_id i) s.sale_items t.sale_items rows))
      added t rows k j (Memᴰ.tail m) = k.new j m

  pub record Recorded (dto : CreateSaleDto N) (x : Sale N) (s' : Db N) : Type 0 where
    pub sale : Memᴰ x s'.sales
    pub items :
        (i : SaleItemDto N) → Memᴰ i dto.sale_items → Memᴰ (item_row n p now x.id i) s'.sale_items
    pub entry : Memᴰ (sale_sheet n p now x) s'.balance_sheets

  record_sale-Recorded :
      (dto : CreateSaleDto N) (user_id : String) (c : Customer) (s s' : Db N) (x : Sale N)
      → record_sale n p now dto user_id c s ≡ (ok x, s')
      → Recorded dto x s'
  unfolding record_sale
  record_sale-Recorded dto user_id c s s' x h =
      let (y, s1, _, h1) =
        >>=-eq-ok (query (new_sale n p now dto user_id c.id))
          (λ y.
            add_sale n p now y
            >> (for_each (add_item n p now y.id) dto.sale_items
                >> (add_sheet n p now (sale_sheet n p now y) >> pure y)))
          s s' x h in
      let (u, s2, first, h2) =
        >>=-eq-ok (add_sale n p now y)
          (λ _.
            for_each (add_item n p now y.id) dto.sale_items
            >> (add_sheet n p now (sale_sheet n p now y) >> pure y))
          s1 s' x h1 in
      let (v, s3, looped, h3) =
        >>=-eq-ok (for_each (add_item n p now y.id) dto.sale_items)
          (λ _. add_sheet n p now (sale_sheet n p now y) >> pure y) s2 s' x h2 in
      let (w, s4, entered, h4) =
        >>=-eq-ok (add_sheet n p now (sale_sheet n p now y)) (λ _. pure y) s3 s' x h3 in
      let (t, made, left) =
        with_sales-eq-ok (p.create never_clash y s1.sales) s1 s2
          (write-eq-ok (λ db. with_sales db (p.create never_clash y db.sales)) s1 s2 u first) in
      let sales = (p.create-ok never_clash y s1.sales t made).1 in
      let k = add_items-Added y.id dto.sale_items s2 s3 v looped in
      let (b, noted, after) =
        with_balance_sheets-eq-ok (p.create never_clash (sale_sheet n p now y) s3.balance_sheets) s3
          s4
          (write-eq-ok
            (λ db.
              with_balance_sheets db
                (p.create never_clash (sale_sheet n p now y) db.balance_sheets))
            s3 s4 w entered) in
      let entries = (p.create-ok never_clash (sale_sheet n p now y) s3.balance_sheets b noted).1 in
      let all : Recorded dto y s4 = record {
        sale = here_in y s1.sales s4.sales (
            ap (λ (d : Db N). d.sales) after
            ∙ (k.sales ∙ (ap (λ (d : Db N). d.sales) left ∙ sales)));
        items = λ i m.
            subst (λ (d : Db N). Memᴰ (item_row n p now y.id i) d.sale_items) (sym after)
              (k.new i m);
        entry =
            here_in (sale_sheet n p now y) s3.balance_sheets s4.balance_sheets
              (ap (λ (d : Db N). d.balance_sheets) after ∙ entries);
      } in
      returned y s4 h4 all
    where
      returned :
          (y : Sale N) (s4 : Db N) → pure y s4 ≡ (ok x, s') → Recorded dto y s4 → Recorded dto x s'
      returned y s4 e k =
          let same : y ≡ x = cc e in
          let at_end : s4 ≡ s' = ap (λ (o : Result (Sale N) × Db N). o.1) e in
          subst (λ z. Recorded dto z s') same (subst (Recorded dto y) at_end k)

  pub create_sale-Recorded :
      (dto : CreateSaleDto N) (user_id : String) (db db' : Db N) (x : Sale N) (c : Customer)
      → create_sale n p now dto user_id db ≡ (ok (x, c), db')
      → Recorded dto x db'
  unfolding create_sale sell
  create_sale-Recorded dto user_id db db' x c h =
      let ran = p.transaction-ok (sell n p now dto user_id) db db' (x, c) h in
      let (c', s1, _, h1) =
        >>=-eq-ok (find_or_open n p now dto) (sell_to n p now dto user_id) db db' (x, c) ran in
      let (u, s2, _, h2) =
        >>=-eq-ok (for_each (take_item n p now) dto.sale_items) (λ _. finish n p now dto user_id c')
          s1 db' (x, c) h1 in
      let (y, s3, kept, last) =
        >>=-eq-ok (record_sale n p now dto user_id c') (λ y. pure (y, c')) s2 db' (x, c) h2 in
      let same : y ≡ x = sale_of last in
      let at_end : s3 ≡ db' = ap (λ (o : Result (Sale N × Customer) × Db N). o.1) last in
      subst (λ z. Recorded dto z db') same
        (subst (Recorded dto y) at_end (record_sale-Recorded dto user_id c' s2 s3 y kept))
    where
      sale_of :
          {y x : Sale N} {a b : Customer} {s t : Db N}
          → pure {A = Sale N × Customer} (y, a) s ≡ (ok (x, b), t)
          → y ≡ x
      sale_of e = cc e
