-- ===== src/Suppliers/Tests.antt =====
-- Suppliers of src/supplier/supplier.service.ts on a database in memory.
use accurack_software_backen.Common.{
  String, true, false, none, some, List, [], ◌∷◌, ◌≡◌, refl, sym, ap, ◌∙◌, Memᴰ,
}
use accurack_software_backen.Effect.{err, forbidden}
use accurack_software_backen.Prisma.Memory.{memory}
use accurack_software_backen.Suppliers.{
  admin, manager, with_store_id, bare, active, inactive, User, Supplier, Db, CreateSupplierDto,
  UpdateSupplierDto, may_enter, create_supplier, update_supplier, delete_supplier,
  validate_store_access,
}
use accurack_software_backen.Suppliers.Access.{UniqueIds}
use accurack_software_backen.Suppliers.Calls.{Call, create, update, delete, perform, run}
use accurack_software_backen.Suppliers.Outsiders.{Untouched, run-Untouched}

abbrev mia : User
mia = record { role = manager; stores = with_store_id "s2" ∷ [] }

abbrev abe : User
abe = record { role = admin; stores = with_store_id "s2" ∷ [] }

abbrev mill : Supplier
mill = record {
  id = 1;
  name = "Mill";
  email = none;
  phone = "555";
  address = none;
  store_id = "s1";
  status = active;
}

abbrev shops : Db
shops = record {
  stores = record { id = "s1"; status = active } ∷ record { id = "s2"; status = active } ∷ [];
  suppliers = mill ∷ [];
}

abbrev farm : String → CreateSupplierDto
farm store_id = record {
  name = "Farm";
  email = none;
  phone = "556";
  address = none;
  store_id = store_id;
}

abbrev renaming : UpdateSupplierDto
renaming = record {
  name = some "Mull";
  email = none;
  phone = none;
  address = none;
  store_id = none;
}

refuses :
    create_supplier (memory true) mia (farm "s1") shops
    ≡ (err (forbidden "You do not have access to this store"), shops)
unfolding create_supplier validate_store_access
refuses = refl

-- A manager of another store may change the name: `updateSupplier` asks for no store of the user.
renames :
    (update_supplier (memory true) mia 1 renaming shops).1.suppliers
    ≡ record mill { name = "Mull" } ∷ []
unfolding update_supplier
renames = refl

-- A manager whose stores are bare identifiers may not enter them.
never_enters :
    create_supplier (memory true) (record mia { stores = bare "s2" ∷ [] }) (farm "s2") shops
    ≡ (err (forbidden "You do not have access to this store"), shops)
unfolding create_supplier validate_store_access
never_enters = refl

deletes :
    (delete_supplier
      (memory true)
      (record abe { stores = with_store_id "s1" ∷ [] })
      1
      shops).1.suppliers
    ≡ record mill { status = inactive } ∷ []
unfolding delete_supplier
deletes = refl

abbrev calls : List (User × Call)
calls = (mia, create (farm "s2")) ∷ (mia, update 1 renaming) ∷ (abe, delete 1) ∷ []

still_there : Memᴰ (record mill { name = "Mull" }) (run (memory true) calls shops).suppliers
unfolding run perform create_supplier update_supplier delete_supplier validate_store_access
still_there = Memᴰ.tail (Memᴰ.head refl)

unique : UniqueIds shops.suppliers
unique x y mx my e = only x mx ∙ sym (only y my)
  where
    only : (x : Supplier) → Memᴰ x (mill ∷ []) → x ≡ mill
    only x (Memᴰ.head e) = e
    only x (Memᴰ.tail m) = elim m [ ]

outside : (c : User × Call) → Memᴰ c calls → may_enter c.0 "s1" ≡ false
outside c (Memᴰ.head e) = ap (λ (d : User × Call). may_enter d.0 "s1") e
outside c (Memᴰ.tail (Memᴰ.head e)) = ap (λ (d : User × Call). may_enter d.0 "s1") e
outside c (Memᴰ.tail (Memᴰ.tail (Memᴰ.head e))) = ap (λ (d : User × Call). may_enter d.0 "s1") e
outside c (Memᴰ.tail (Memᴰ.tail (Memᴰ.tail m))) = elim m [ ]

run-Untouched_example :
    Untouched (memory true) "s1" shops.suppliers (run (memory true) calls shops).suppliers
run-Untouched_example = run-Untouched (memory true) "s1" calls shops unique outside
