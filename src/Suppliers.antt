-- ===== src/Suppliers.antt =====
-- src/supplier/supplier.service.ts: making, changing and deleting a supplier. Reads with paging are left
-- out, and the messages by which an error of the database is named to the client.
pub mod Access
pub mod Calls
pub mod Outsiders
pub mod Tests
use accurack_software_backen.Common.{
  ℕ, String, Bool, true, false, not, Option, none, some, List, [], ◌∷◌, ◌&&◌, ◌||◌, ◌==◌, map, any,
  given_text, or_else, nat_eq, concat, if◌then◌else◌,
}
use accurack_software_backen.Effect.{
  Error, bad_request, not_found, forbidden, conflict, database, Result, ok, err, Action, ◌>>=◌,
  ◌>>◌, pure, query, write, or_throw, throw_if,
}
use accurack_software_backen.Prisma.{Prisma}

pub data Role : Type 0 where
  super_admin admin manager employee : Role

pub data Status : Type 0 where
  active inactive pending suspended : Status

-- An element of `user.stores`, of which the service reads `storeId`: a record that has it, or a bare
-- identifier, as `validate` of src/strategies/jwt.strategy.ts puts there, whose `storeId` is undefined and
-- so is no row's store.
pub data StoreRef : Type 0 where
  with_store_id bare : String → StoreRef

-- The user of the request, with `user.stores`; a user without them is one whose list is empty.
pub record User : Type 0 where
  pub role : Role
  pub stores : List StoreRef

pub record Store : Type 0 where
  pub id : String
  pub status : Status

pub record Supplier : Type 0 where
  pub id : ℕ
  pub name : String
  pub email : Option String
  pub phone : String
  pub address : Option String
  pub store_id : String
  pub status : Status

pub record Db : Type 0 where
  pub stores : List Store
  pub suppliers : List Supplier

pub record CreateSupplierDto : Type 0 where
  pub name : String
  pub email : Option String
  pub phone : String
  pub address : Option String
  pub store_id : String

-- Every field may be undefined; an optional one may also be null.
pub record UpdateSupplierDto : Type 0 where
  pub name : Option String
  pub email : Option (Option String)
  pub phone : Option String
  pub address : Option (Option String)
  pub store_id : Option String

abbrev pub is_super_admin : Role → Bool
is_super_admin super_admin = true
is_super_admin _ = false

abbrev pub may_create : Role → Bool
may_create employee = false
may_create _ = true

abbrev pub may_delete : Role → Bool
may_delete super_admin = true
may_delete admin = true
may_delete _ = false

abbrev pub is_active : Status → Bool
is_active active = true
is_active _ = false

-- `s.storeId === storeId`
abbrev pub is_store : String → StoreRef → Bool
is_store store_id (with_store_id s) = s == store_id
is_store store_id (bare s) = false

abbrev pub may_enter : User → String → Bool
may_enter u store_id = is_super_admin u.role || any (is_store store_id) u.stores

abbrev pub has_id : ℕ → Supplier → Bool
has_id id x = nat_eq x.id id

abbrev pub same_id : Supplier → Supplier → Bool
same_id a b = nat_eq a.id b.id

abbrev pub updated : UpdateSupplierDto → Supplier → Supplier
updated dto x = record x {
  name = or_else (given_text dto.name) x.name;
  email = or_else dto.email x.email;
  phone = or_else (given_text dto.phone) x.phone;
  address = or_else dto.address x.address;
  store_id = or_else (given_text dto.store_id) x.store_id;
}

abbrev pub deactivated : Supplier → Supplier
deactivated x = record x { status = inactive }

abbrev pub with_suppliers : Db → Result (List Supplier) → Result Db
with_suppliers db (ok t) = ok (record db { suppliers = t })
with_suppliers db (err e) = err e

-- `catch`: exceptions of the service pass, an error of the database becomes a bad request
abbrev pub as_bad_request : String → Error → Error
as_bad_request failed (database m) = bad_request (concat (failed ∷ m ∷ []))
as_bad_request failed e = e

abbrev pub caught : {A : Type 0} → String → Result A × Db → Result A × Db
caught failed (ok a, db) = (ok a, db)
caught failed (err e, db) = (err (as_bad_request failed e), db)

abbrev pub catching : {A : Type 0} → String → Action Db A → Action Db A
catching failed m db = caught failed (m db)

module _ (p : Prisma) where
  abbrev pub find_store : String → Db → Result (Option Store)
  find_store id db = p.find_first (λ (s : Store). s.id == id) db.stores

  abbrev pub check_store : User → String → Store → Action Db Store
  check_store u store_id s =
      throw_if (not (is_active s.status)) (bad_request "Store is not active")
      >> throw_if (not (may_enter u store_id)) (forbidden "You do not have access to this store")
      >> pure s

  abbrev pub store_found : User → String → Option Store → Action Db Store
  store_found u store_id found =
      or_throw found (not_found (concat ("Store with ID '" ∷ store_id ∷ "' not found" ∷ [])))
      >>= check_store u store_id

  unfoldable pub validate_store_access : User → String → Action Db Store
  validate_store_access u store_id =
      throw_if (store_id == "") (bad_request "Store ID is required")
      >> (query (find_store store_id) >>= store_found u store_id)

  abbrev pub supplier_row : CreateSupplierDto → List Supplier → Supplier
  supplier_row dto suppliers = record {
    id = p.fresh (map (λ (x : Supplier). x.id) suppliers);
    name = dto.name;
    email = dto.email;
    phone = dto.phone;
    address = dto.address;
    store_id = dto.store_id;
    status = active;
  }

  abbrev pub new_supplier : CreateSupplierDto → Db → Result Supplier
  new_supplier dto db = ok (supplier_row dto db.suppliers)

  abbrev pub insert : Supplier → Action Db Supplier
  insert x = write (λ db. with_suppliers db (p.create same_id x db.suppliers)) >> pure x

  abbrev pub insert_supplier : CreateSupplierDto → Action Db Supplier
  insert_supplier dto = catching "Failed to create supplier: " (query (new_supplier dto) >>= insert)

  unfoldable pub create_supplier : User → CreateSupplierDto → Action Db Supplier
  create_supplier u dto =
      throw_if (not (may_create u.role)) (forbidden "Only admins and managers can create suppliers")
      >> (validate_store_access u dto.store_id >> insert_supplier dto)

  abbrev pub find_supplier : ℕ → Db → Result (Option Supplier)
  find_supplier id db = p.find_first (λ x. has_id id x && is_active x.status) db.suppliers

  abbrev pub move_to : User → Supplier → Option String → Action Db (Unit {0})
  move_to u x none = pure tt
  move_to u x (some store_id) =
      if store_id == x.store_id then pure tt else (validate_store_access u store_id >> pure tt)

  abbrev pub change : ℕ → (Supplier → Supplier) → Action Db (Unit {0})
  change id f = write (λ db. with_suppliers db (p.update (has_id id) f db.suppliers))

  abbrev pub change_to : ℕ → UpdateSupplierDto → Supplier → Action Db Supplier
  change_to id dto x = change id (updated dto) >> pure (updated dto x)

  abbrev pub update_known : User → ℕ → UpdateSupplierDto → Supplier → Action Db Supplier
  update_known u id dto x = move_to u x (given_text dto.store_id) >> change_to id dto x

  abbrev pub update_found : User → ℕ → UpdateSupplierDto → Option Supplier → Action Db Supplier
  update_found u id dto found =
      or_throw found (not_found "Supplier not found") >>= update_known u id dto

  unfoldable pub update_supplier : User → ℕ → UpdateSupplierDto → Action Db Supplier
  update_supplier u id dto =
      catching "Failed to update supplier: " (query (find_supplier id) >>= update_found u id dto)

  abbrev pub own_supplier : User → ℕ → Supplier → Bool
  own_supplier u id x = has_id id x && is_active x.status && may_enter u x.store_id

  abbrev pub find_own : User → ℕ → Db → Result (Option Supplier)
  find_own u id db = p.find_first (own_supplier u id) db.suppliers

  abbrev pub delete_found : ℕ → Option Supplier → Action Db (Unit {0})
  delete_found id found = or_throw found (not_found "Supplier not found") >> change id deactivated

  unfoldable pub delete_supplier : User → ℕ → Action Db (Unit {0})
  delete_supplier u id =
      throw_if (not (may_delete u.role)) (forbidden "Only admins can delete suppliers")
      >> catching "Failed to delete supplier: " (query (find_own u id) >>= delete_found id)
