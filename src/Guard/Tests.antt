-- ===== src/Guard/Tests.antt =====
-- The guard of src/guards/permissions.guard.ts on requests, over the permission service in memory.
use accurack_software_backen.Common.{String, true, false, none, some, [], ◌∷◌, ◌≡◌, refl}
use accurack_software_backen.Effect.{ok, err, database}
use accurack_software_backen.Prisma.Memory.{memory}
use accurack_software_backen.Permissions.Check.{
  has_permission, look_up_permission, check_direct_permission, check_role_permissions, find_direct,
  find_wildcard,
}
use accurack_software_backen.Permissions.Check.Tests.{shop}
use accurack_software_backen.Guard.{
  PermissionsService, PermissionRequirement, single, any_of, RequestUser, Request, requested_store,
  can_activate, check_permission, check_requirement, extract_store_id,
}
use accurack_software_backen.Guard.Laws.{
  Enters, Satisfies, Settles, can_activate_sound, can_activate_cases,
}
use accurack_software_backen.Guard.Service.{service_of, GrantedAt, guarded_route_granted}

abbrev ann : RequestUser
ann = record { id = "ann"; role = "employee"; stores = some ("s1" ∷ []); email = "ann@shop" }

-- A request for the store in the path.
abbrev at_store : String → Request
at_store id = record {
  user = some ann;
  params_id = none;
  params_store_id = some id;
  query_store_id = none;
  body_store_id = none;
  header_store_id = none;
}

abbrev read_products : PermissionRequirement
read_products = record { resource = "product"; action = "read" }

abbrev in_memory : PermissionsService
in_memory = service_of (memory true) 4 shop

passes : can_activate in_memory false (some (single read_products)) (at_store "s1") ≡ ok true
unfolding can_activate check_requirement check_permission extract_store_id has_permission
    look_up_permission check_direct_permission check_role_permissions find_direct find_wildcard
passes = refl

can_activate_sound_example :
    (u : RequestUser) × (some ann ≡ some u)
    × Enters in_memory u (requested_store (at_store "s1"))
    × Satisfies in_memory u (requested_store (at_store "s1")) (single read_products)
can_activate_sound_example =
    can_activate_sound in_memory (single read_products) (at_store "s1") true passes

can_activate_cases_example :
    Settles
      (record {
        has_permission = λ user_id resource action store. err (database "connection lost");
      })
      (can_activate
        (record {
          has_permission = λ user_id resource action store. err (database "connection lost");
        })
        false
        (some (any_of (read_products ∷ [])))
        (at_store "s1"))
can_activate_cases_example =
    can_activate_cases
      (record {
        has_permission = λ user_id resource action store. err (database "connection lost");
      })
      false (some (any_of (read_products ∷ []))) (at_store "s1")

guarded_route_granted_example :
    Enters in_memory ann (some "s1") × GrantedAt (memory true) 4 shop ann read_products (some "s1")
guarded_route_granted_example =
    guarded_route_granted (memory true) 4 shop read_products (at_store "s1") ann refl (λ e. cc)
      passes
