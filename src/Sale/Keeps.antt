-- ===== src/Sale/Keeps.antt =====
-- The calls of src/sale/sale.service.ts that leave the products as they are.
use accurack_software_backen.Common.{Bool, Option, List, ◌≡◌, refl, sym, ap, ◌∙◌}
use accurack_software_backen.Effect.{
  Error, Result, ok, err, Action, ◌>>=◌, pure, query, or_throw, write, throw_if, for_each,
}
use accurack_software_backen.Effect.Laws.{
  >>=-eq-ok, write-eq-ok, query-eq-ok, or_throw-eq-ok, throw_if-eq-ok, for_each-preserves,
}
use accurack_software_backen.Sale.Tables.{Product, Customer, Sale, SaleItem, BalanceSheet, Db}
use accurack_software_backen.Sale.Create.{
  with_products, with_customers, with_sales, with_sale_items, with_balance_sheets,
}

module _ {N : Type 0} where
  -- A call that returns leaves the products as they were.
  pub record KeepsStock {A : Type 0} (m : Action (Db N) A) : Type 0 where
    pub products : (s s' : Db N) (a : A) → m s ≡ (ok a, s') → s'.products ≡ s.products

  pub >>=-KeepsStock :
      {A B : Type 0} (m : Action (Db N) A) (f : A → Action (Db N) B)
      → KeepsStock m
      → ((a : A) → KeepsStock (f a))
      → KeepsStock (m >>= f)
  >>=-KeepsStock m f first later = record {
    products = λ s s' b h.
        let (a, t, x, y) = >>=-eq-ok m f s s' b h in
        (later a).products t s' b y ∙ first.products s t a x;
  }

  pub query-KeepsStock : {A : Type 0} (f : Db N → Result A) → KeepsStock (query f)
  query-KeepsStock f = record {
    products = λ s s' a h. ap (λ (d : Db N). d.products) (query-eq-ok f s s' a h).1;
  }

  pub pure-KeepsStock : {A : Type 0} (a : A) → KeepsStock (pure a)
  pure-KeepsStock a = record {
    products = λ s s' b h. ap (λ (o : Result _ × Db N). o.1.products) (sym h);
  }

  pub or_throw-KeepsStock : {A : Type 0} (o : Option A) (e : Error) → KeepsStock (or_throw o e)
  or_throw-KeepsStock o e = record {
    products = λ s s' a h. ap (λ (d : Db N). d.products) (or_throw-eq-ok o e s s' a h).1;
  }

  pub throw_if-KeepsStock : (c : Bool) (e : Error) → KeepsStock (throw_if c e)
  throw_if-KeepsStock c e = record {
    products = λ s s' u h. ap (λ (d : Db N). d.products) (throw_if-eq-ok c e s s' u h).1;
  }

  pub write-KeepsStock :
      (f : Db N → Result (Db N))
      → ((s s' : Db N) → f s ≡ ok s' → s'.products ≡ s.products)
      → KeepsStock (write f)
  write-KeepsStock f keeps = record { products = λ s s' u h. keeps s s' (write-eq-ok f s s' u h) }

  pub for_each-KeepsStock :
      {A : Type 0} (body : A → Action (Db N) (Unit {0})) (xs : List A)
      → ((x : A) → KeepsStock (body x))
      → KeepsStock (for_each body xs)
  for_each-KeepsStock body xs keeps = record {
    products = λ s s' u h.
        for_each-preserves body (λ a b. b.products ≡ a.products) (λ a. refl)
          (λ x a b c v e rest. rest ∙ (keeps x).products a b v e) xs s s' u h;
  }

  pub with_customers-products :
      (r : Result (List Customer)) (s s' : Db N)
      → with_customers s r ≡ ok s'
      → s'.products ≡ s.products
  with_customers-products (ok t) s s' h = cc
  with_customers-products (err e) s s' h = cc

  pub with_sales-products :
      (r : Result (List (Sale N))) (s s' : Db N) → with_sales s r ≡ ok s' → s'.products ≡ s.products
  with_sales-products (ok t) s s' h = cc
  with_sales-products (err e) s s' h = cc

  pub with_sale_items-products :
      (r : Result (List (SaleItem N))) (s s' : Db N)
      → with_sale_items s r ≡ ok s'
      → s'.products ≡ s.products
  with_sale_items-products (ok t) s s' h = cc
  with_sale_items-products (err e) s s' h = cc

  pub with_balance_sheets-products :
      (r : Result (List (BalanceSheet N))) (s s' : Db N)
      → with_balance_sheets s r ≡ ok s'
      → s'.products ≡ s.products
  with_balance_sheets-products (ok t) s s' h = cc
  with_balance_sheets-products (err e) s s' h = cc

  pub with_products-eq-ok :
      (r : Result (List (Product N))) (s s' : Db N) → with_products s r ≡ ok s' → r ≡ ok s'.products
  with_products-eq-ok (ok t) s s' h = cc
  with_products-eq-ok (err e) s s' h = cc
