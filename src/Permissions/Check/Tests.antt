-- ===== src/Permissions/Check/Tests.antt =====
-- The checks of src/permissions/permissions.service.ts on a small database in memory.
use accurack_software_backen.Common.{Bool, true, false, none, some, [], ◌∷◌, ◌≡◌, refl, ◌↔◌}
use accurack_software_backen.Effect.{ok}
use accurack_software_backen.Prisma.Memory.{memory, memory-IsReliable}
use accurack_software_backen.Permissions.Tables.{
  Permission, one, TemplatePermission, RoleTemplate, UserRole, Db,
}
use accurack_software_backen.Permissions.Check.{
  PermissionCheck, StorePermissionCheck, role, global, check_direct_permission,
  check_role_permissions, look_up_permission, find_direct, find_wildcard, has_permission,
  check_permission, check_user_store_permission,
}
use accurack_software_backen.Permissions.Check.Spec.{IsGranted, IsDirectGrant, IsRoleGrant}
use accurack_software_backen.Permissions.Check.Laws.{
  has_permission_sound, has_permission_total, has_permission_iff, check_permission_iff,
}
use accurack_software_backen.Permissions.Check.AtStore.{
  check_user_store_permission_iff, HasAccess, Granted, IsScopedGrant,
}

-- A row with one action on the products of a store, which expires at time 9.
abbrev pub row_of_ann : Permission
row_of_ann = record {
  id = 1;
  user_id = "ann";
  store_id = some "s1";
  resource = "product";
  actions = "read" ∷ "update" ∷ [];
  resource_id = none;
  granted = true;
  granted_by = "bob";
  granted_at = 2;
  expires_at = some 9;
  conditions = none;
}

abbrev pub clerk : RoleTemplate
clerk = record {
  id = 5;
  name = "clerk";
  description = none;
  permissions =
      record {
        resource = "sale";
        action = one "create";
        store_id = none;
        resource_id = none;
        conditions = none;
        expires_at = none;
      }
      ∷ [];
  inherits_from = none;
  is_default = false;
  is_active = true;
  priority = 1;
  created_by = "bob";
}

abbrev pub clerk_of_ann : UserRole
clerk_of_ann = record {
  id = 1;
  user_id = "ann";
  role_template_id = 5;
  store_id = none;
  assigned_by = "bob";
  assigned_at = 2;
  is_active = true;
}

abbrev pub shop : Db
shop = record {
  permissions = row_of_ann ∷ [];
  role_templates = clerk ∷ [];
  user_roles = clerk_of_ann ∷ [];
  user_store_map = record { id = 1; user_id = "ann"; store_id = "s1" } ∷ [];
  users = [];
}

reads_in_store :
    has_permission (memory true) 4 "ann" "product" "read" (some "s1") shop ≡ (ok true, shop)
unfolding has_permission look_up_permission check_direct_permission check_role_permissions
    find_direct find_wildcard
reads_in_store = refl

not_after_expiry :
    has_permission (memory true) 9 "ann" "product" "read" (some "s1") shop ≡ (ok false, shop)
unfolding has_permission look_up_permission check_direct_permission check_role_permissions
    find_direct find_wildcard
not_after_expiry = refl

-- A question about every product action is answered by the row also after it expired.
wildcard_after_expiry :
    has_permission (memory true) 9 "ann" "product" "*" (some "s1") shop ≡ (ok true, shop)
unfolding has_permission look_up_permission check_direct_permission check_role_permissions
    find_direct find_wildcard
wildcard_after_expiry = refl

sells_by_role :
    has_permission (memory true) 4 "ann" "sale" "create" (some "s1") shop ≡ (ok true, shop)
unfolding has_permission look_up_permission check_direct_permission check_role_permissions
    find_direct find_wildcard
sells_by_role = refl

has_permission_sound_example : IsGranted (memory true) 4 "ann" "product" "read" (some "s1") shop
has_permission_sound_example =
    has_permission_sound (memory true) 4 "ann" "product" "read" (some "s1") shop shop reads_in_store

has_permission_total_example :
    (b : Bool) × (has_permission (memory true) 4 "ann" "sale" "create" (some "s1") shop
      ≡ (ok b, shop))
has_permission_total_example =
    has_permission_total (memory true) 4 "ann" "sale" "create" (some "s1") shop

has_permission_iff_example :
    (has_permission (memory true) 4 "ann" "product" "read" (some "s1") shop ≡ (ok true, shop))
    ↔ IsGranted (memory true) 4 "ann" "product" "read" (some "s1") shop
has_permission_iff_example =
    has_permission_iff (memory true) 4 "ann" "product" "read" (some "s1") shop
      (memory-IsReliable true)

check_permission_iff_example :
    (c : PermissionCheck) × (check_permission (memory true) 4 "ann" "sale" "create" (some "s1") shop
      ≡ (ok c, shop))
    × ((c.has_permission ≡ true) ↔ IsGranted (memory true) 4 "ann" "sale" "create" (some "s1") shop)
    × ((c.source ≡ role) ↔ (
        (¬ (
          (x : Permission) × IsDirectGrant
            (memory true)
            4
            "ann"
            "sale"
            "create"
            (some "s1")
            shop
            x))
        × ((u : UserRole) × (t : RoleTemplate) × (x : TemplatePermission) × IsRoleGrant
              (memory true)
              4
              "ann"
              "sale"
              "create"
              (some "s1")
              shop
              u
              t
              x)))
check_permission_iff_example =
    check_permission_iff (memory true) 4 "ann" "sale" "create" (some "s1") shop
      (memory-IsReliable true)

check_user_store_permission_iff_example :
    (c : StorePermissionCheck) × (check_user_store_permission
        (memory true)
        4
        "ann"
        "s1"
        "product"
        "read"
        shop
      ≡ (ok c, shop))
    × ((c.has_permission ≡ true) ↔ (
        HasAccess (memory true) 4 "ann" "s1" "product" "read" shop
        × Granted (memory true) 4 "ann" "s1" "product" "read" shop))
    × ((c.source ≡ global) ↔ (
        HasAccess (memory true) 4 "ann" "s1" "product" "read" shop
        × ((x : Permission) × IsScopedGrant
              (memory true)
              4
              "ann"
              "s1"
              "product"
              "read"
              shop
              none
              x)))
check_user_store_permission_iff_example =
    check_user_store_permission_iff (memory true) 4 "ann" "s1" "product" "read" shop
      (memory-IsReliable true)
