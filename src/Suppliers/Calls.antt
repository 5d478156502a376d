-- ===== src/Suppliers/Calls.antt =====
-- The calls of src/supplier/supplier.service.ts that write suppliers, and runs of them: by any users, in
-- any order, each of which returns or throws.
use accurack_software_backen.Common.{ℕ, List, [], ◌∷◌}
use accurack_software_backen.Prisma.{Prisma}
use accurack_software_backen.Suppliers.{
  User, Db, CreateSupplierDto, UpdateSupplierDto, create_supplier, update_supplier, delete_supplier,
}

pub data Call : Type 0 where
  create : CreateSupplierDto → Call
  update : ℕ → UpdateSupplierDto → Call
  delete : ℕ → Call

module _ (p : Prisma) where
  unfoldable pub perform : User → Call → Db → Db
  perform u (create dto) s = (create_supplier p u dto s).1
  perform u (update id dto) s = (update_supplier p u id dto s).1
  perform u (delete id) s = (delete_supplier p u id s).1

  unfoldable pub run : List (User × Call) → Db → Db
  run [] s = s
  run (c ∷ cs) s = run cs (perform c.0 c.1 s)
