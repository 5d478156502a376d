-- ===== src/Sale/Clear.antt =====
-- `deleteAllSales` of src/sale/sale.service.ts: the sales of a store, in batches of 500, each in a
-- transaction. The loop runs on fuel, the number of the sales at the start. The pause between two
-- batches is left out, and messages name no batch.
pub mod Ends
pub mod Counts
pub mod Laws
pub mod Loop
pub mod All
pub mod Tests
use accurack_software_backen.Common.{
  ℕ, zero, suc, ◌+◌, ltb, String, Bool, true, false, not, Option, none, some, List, [], ◌∷◌, ◌==◌,
  map, any, length, take, is_empty, nat_eq, concat, if◌then◌else◌,
}
use accurack_software_backen.Effect.{
  Error, bad_request, not_found, forbidden, conflict, database, Result, ok, err, Action, ◌>>=◌,
  ◌>>◌, pure, query, write, throw_if, map_result,
}
use accurack_software_backen.Prisma.{Prisma}
use accurack_software_backen.Sale.Tables.{Sale, SaleItem, BalanceSheet, SaleReturn, Db}

-- `{ in: saleIds }`
abbrev pub among : List ℕ → ℕ → Bool
among ids id = any (nat_eq id) ids

abbrev pub among_optional : List ℕ → Option ℕ → Bool
among_optional ids none = false
among_optional ids (some id) = among ids id

abbrev pub message : Error → String
message (bad_request m) = m
message (not_found m) = m
message (forbidden m) = m
message (conflict m) = m
message (database m) = m

module _ {N : Type 0} where
  abbrev pub of_store : String → Sale N → Bool
  of_store store_id s = s.store_id == store_id

  abbrev pub sale_in : List ℕ → Sale N → Bool
  sale_in ids s = among ids s.id

  -- A deletion in one of the tables.
  abbrev pub cleared : {T : Type 0} → (T → Db N) → Result T → Result (Db N)
  cleared put_back r = map_result put_back r

  -- `catch`
  abbrev pub as_failed_batch : Result (Unit {0}) × Db N → Result (Unit {0}) × Db N
  as_failed_batch (ok u, s) = (ok u, s)
  as_failed_batch (err e, s) =
      (err (bad_request (concat ("Failed to delete sales. " ∷ message e ∷ []))), s)

  -- `catch`: the error is logged
  abbrev pub swallowed : Result (Unit {0}) × Db N → Result (Unit {0}) × Db N
  swallowed (r, s) = (ok tt, s)

module _ {N : Type 0} (p : Prisma) where
  abbrev pub count_sales : String → Db N → Result ℕ
  count_sales store_id db = map_result length (p.find_many (of_store store_id) db.sales)

  abbrev pub ids_of : List (Sale N) → List ℕ
  ids_of sales = map (λ (s : Sale N). s.id) (take 500 sales)

  abbrev pub find_batch : String → Db N → Result (List ℕ)
  find_batch store_id db = map_result ids_of (p.find_many (of_store store_id) db.sales)

  abbrev pub delete_items : List ℕ → Db N → Result (Db N)
  delete_items ids db =
      cleared (λ t. record db { sale_items = t })
        (p.delete_many (λ (x : SaleItem N). among ids x.sale_id) db.sale_items)

  abbrev pub delete_invoices : List ℕ → Db N → Result (Db N)
  delete_invoices ids db =
      cleared (λ t. record db { invoices = t }) (p.delete_many (among ids) db.invoices)

  abbrev pub delete_sheets : List ℕ → Db N → Result (Db N)
  delete_sheets ids db =
      cleared (λ t. record db { balance_sheets = t })
        (p.delete_many (λ (x : BalanceSheet N). among_optional ids x.sale_id) db.balance_sheets)

  abbrev pub delete_adjustments : List ℕ → Db N → Result (Db N)
  delete_adjustments ids db =
      cleared (λ t. record db { sale_adjustments = t })
        (p.delete_many (among ids) db.sale_adjustments)

  abbrev pub delete_returns : List ℕ → Db N → Result (Db N)
  delete_returns ids db =
      cleared (λ t. record db { sale_returns = t })
        (p.delete_many (λ (x : SaleReturn). among ids x.sale_id) db.sale_returns)

  abbrev pub delete_sales : List ℕ → Db N → Result (Db N)
  delete_sales ids db =
      cleared (λ t. record db { sales = t }) (p.delete_many (sale_in ids) db.sales)

  -- the rows that belong to the sales
  unfoldable pub delete_related : List ℕ → Action (Db N) (Unit {0})
  delete_related ids =
      write (delete_items ids)
      >> write (delete_invoices ids)
      >> write (delete_sheets ids)
      >> write (delete_adjustments ids)
      >> write (delete_returns ids)

  unfoldable pub delete_batch : List ℕ → Action (Db N) (Unit {0})
  delete_batch ids db =
      as_failed_batch (p.transaction (delete_related ids >> write (delete_sales ids)) db)

  abbrev pub go_on : (ℕ → Action (Db N) (Option ℕ)) → ℕ → List ℕ → Action (Db N) (Option ℕ)
  go_on next processed [] = pure (some processed)
  go_on next processed (id ∷ ids) = delete_batch (id ∷ ids) >> next (processed + length (id ∷ ids))

  -- the `while` loop: the number of the sales processed, or none where the fuel is used up
  unfoldable pub delete_batches : ℕ → String → ℕ → ℕ → Action (Db N) (Option ℕ)
  delete_batches zero store_id total processed =
      if ltb processed total then pure none else pure (some processed)
  delete_batches (suc fuel) store_id total processed =
      let next = delete_batches fuel store_id total in
      if ltb processed total
      then (query (find_batch store_id) >>= go_on next processed)
      else pure (some processed)

  abbrev pub delete_uploads : String → Db N → Result (Db N)
  delete_uploads store_id db =
      cleared (λ t. record db { file_uploads = t })
        (p.delete_many (λ s. s == store_id) db.file_uploads)

  unfoldable pub clean_uploads : String → Action (Db N) (Unit {0})
  clean_uploads store_id db = swallowed (p.transaction (write (delete_uploads store_id)) db)

  abbrev pub delete_counted : String → ℕ → Action (Db N) (Unit {0})
  delete_counted store_id total =
      throw_if (nat_eq total 0) (not_found "No sales found for this store.")
      >> (delete_batches total store_id total 0 >> clean_uploads store_id)

  unfoldable pub delete_all_sales : String → Action (Db N) (Unit {0})
  delete_all_sales store_id = query (count_sales store_id) >>= delete_counted store_id
