-- ===== src/Permissions/Listing/Tests.antt =====
-- getUserPermissions of src/permissions/permissions.service.ts on a database in memory.
use accurack_software_backen.Common.{some, [], ◌∷◌, ◌≡◌, refl, map}
use accurack_software_backen.Permissions.Check.Tests.{row_of_ann, shop}
use accurack_software_backen.Permissions.Listing.{Group, UserPermissions, group_items, items_of}

abbrev listing : UserPermissions
listing = record {
  user_id = "ann";
  store_id = some "s2";
  permissions = group_items (items_of (row_of_ann ∷ []) shop.role_templates);
  role_templates = "clerk" ∷ [];
}

keys : map (λ (g : Group). g.key) listing.permissions ≡ "product-s1-none" ∷ "sale-global-none" ∷ []
keys = refl
