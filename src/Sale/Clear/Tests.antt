-- ===== src/Sale/Clear/Tests.antt =====
-- `deleteAllSales` of src/sale/sale.service.ts on the shop in memory of the other tests.
use accurack_software_backen.Common.{ℕ, true, none, [], ◌∷◌, ◌≡◌, ◌≢◌, refl, sym, ◌∙◌, arith, Memᴰ}
use accurack_software_backen.Effect.{ok, err, not_found}
use accurack_software_backen.Prisma.Memory.{memory}
use accurack_software_backen.Sale.Tables.{Sale, Db}
use accurack_software_backen.Sale.Tests.{shop, sale_of_teas}
use accurack_software_backen.Sale.Clear.{
  delete_all_sales, delete_batches, delete_batch, delete_related, clean_uploads,
}
use accurack_software_backen.Sale.Clear.Ends.{delete_batches_ends}
use accurack_software_backen.Sale.Clear.Laws.{UniqueSales, Cleared}
use accurack_software_backen.Sale.Clear.All.{delete_all_sales-Cleared}

abbrev other_sale : Sale ℕ
other_sale = record sale_of_teas { id = 90; store_id = "s2" }

abbrev two_stores : Db ℕ
two_stores = record shop {
  sales = sale_of_teas ∷ other_sale ∷ [];
  invoices = sale_of_teas.id ∷ 90 ∷ [];
}

abbrev one_store : Db ℕ
one_store = record two_stores { sales = other_sale ∷ []; invoices = 90 ∷ [] }

clears : delete_all_sales (memory true) "s1" two_stores ≡ (ok tt, one_store)
unfolding delete_all_sales delete_batches delete_batch delete_related clean_uploads
clears = refl

nothing_to_clear :
    delete_all_sales (memory true) "s3" two_stores
    ≡ (err (not_found "No sales found for this store."), two_stores)
unfolding delete_all_sales delete_batches delete_batch delete_related clean_uploads
nothing_to_clear = refl

unique : UniqueSales two_stores.sales
unique x y (Memᴰ.head a) (Memᴰ.head b) e = a ∙ sym b
unique x y (Memᴰ.head a) (Memᴰ.tail (Memᴰ.head b)) e = cc (a, b, e)
unique x y (Memᴰ.tail (Memᴰ.head a)) (Memᴰ.head b) e = cc (a, b, e)
unique x y (Memᴰ.tail (Memᴰ.head a)) (Memᴰ.tail (Memᴰ.head b)) e = a ∙ sym b
unique x y (Memᴰ.head a) (Memᴰ.tail (Memᴰ.tail m)) e = elim m [ ]
unique x y (Memᴰ.tail (Memᴰ.head a)) (Memᴰ.tail (Memᴰ.tail m)) e = elim m [ ]
unique x y (Memᴰ.tail (Memᴰ.tail m)) my e = elim m [ ]

delete_all_sales-Cleared_example : Cleared "s1" two_stores one_store
delete_all_sales-Cleared_example =
    delete_all_sales-Cleared (memory true) "s1" two_stores one_store tt unique clears

delete_batches_ends_example :
    delete_batches (memory true) 1 "s1" 1 0 two_stores ≢ (ok none, two_stores)
delete_batches_ends_example =
    delete_batches_ends (memory true) 1 1 0 "s1" two_stores two_stores (omega arith)
