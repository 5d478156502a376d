-- ===== src/Sale/Account/Tests.antt =====
-- Deleting a customer of src/sale/sale.service.ts on the small shop of the tests of sales.
use accurack_software_backen.Common.{ℕ, true, [], ◌∷◌, ◌≡◌, refl}
use accurack_software_backen.Effect.{ok, err, bad_request}
use accurack_software_backen.Prisma.Memory.{memory}
use accurack_software_backen.Sale.Tables.{Db}
use accurack_software_backen.Sale.Tests.{recorded, last_entry, shop}
use accurack_software_backen.Sale.Account.{delete_customer}
use accurack_software_backen.Sale.Account.Laws.{Deleted, delete_customer-Deleted}

abbrev with_account : Db ℕ
with_account = record shop { balance_sheets = last_entry ∷ [] }

abbrev after_delete : Db ℕ
after_delete = record shop { customers = [] }

deletes : delete_customer (memory true) 7 with_account ≡ (ok tt, after_delete)
unfolding delete_customer
deletes = refl

-- The customer of a recorded sale stays.
keeps_buyer :
    delete_customer (memory true) 7 recorded
    ≡ (err (bad_request "Cannot delete customer with existing sales records"), recorded)
unfolding delete_customer
keeps_buyer = refl

delete_customer-Deleted_example : Deleted (memory true) 7 with_account after_delete
delete_customer-Deleted_example =
    delete_customer-Deleted (memory true) 7 with_account after_delete deletes
