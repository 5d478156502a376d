-- ===== src/Permissions/Assign/Tests.antt =====
-- Granting and revoking, as in src/permissions/permissions.service.ts, on a database in memory.
use accurack_software_backen.Common.{
  String, true, none, some, [], ◌∷◌, ◌≡◌, ◌≢◌, refl, inl, inr, Memᴰ, includes, is_blank, ◌==◌,
  eq_iff, false,
}
use accurack_software_backen.Effect.{ok, err, bad_request}
use accurack_software_backen.Prisma.Memory.{memory, memory-IsReliable}
use accurack_software_backen.Permissions.Tables.{Permission, one, many, Db}
use accurack_software_backen.Permissions.Requests.{
  CreatePermissionDto, RevokePermissionDto, PermissionActionDto, BulkAssignPermissionsDto,
  normalize_actions, normalize_id, validate_permission, validate_action_strings,
}
use accurack_software_backen.Permissions.Check.{has_permission}
use accurack_software_backen.Permissions.Check.Tests.{row_of_ann, shop}
use accurack_software_backen.Permissions.Assign.{
  Key, key_of_dto, key_of_revoke, assign_permission, revoke_permission, bulk_assign_permissions,
  bulk_dto, setup_store_access_with_permissions, save_permission, find_permission,
  add_user_to_store, create_store_map,
}
use accurack_software_backen.Effect.{for_each}
use accurack_software_backen.Permissions.Assign.Rows.{IsValid, grants}
use accurack_software_backen.Permissions.Assign.Methods.{Assigned, assign_permission-Assigned}
use accurack_software_backen.Permissions.Assign.Grant.{
  assign_permission-has_permission, assign_permission_refused, bulk_assign_permissions-grants,
  setup_store_access_fails,
}
use accurack_software_backen.Permissions.Assign.Revoke.{Revoked, revoke_permission-Revoked}

-- Another action on the products of the same store: the row of `shop` takes it up.
abbrev delete_products : CreatePermissionDto
delete_products = record {
  user_id = "ann";
  store_id = some "s1";
  resource = "product";
  action = one "delete";
  resource_id = none;
  granted = none;
  conditions = none;
  expires_at = none;
}

abbrev after_assign : Db
after_assign = (assign_permission (memory true) 4 delete_products "bob" shop).1

assigned : assign_permission (memory true) 4 delete_products "bob" shop ≡ (ok tt, after_assign)
unfolding assign_permission for_each key_of_dto save_permission find_permission add_user_to_store
    create_store_map validate_action_strings normalize_actions normalize_id validate_permission
    is_blank
assigned = refl

abbrev row_after : Permission
row_after = record row_of_ann {
  actions = "read" ∷ "update" ∷ "delete" ∷ [];
  granted_by = "bob";
  granted_at = 4;
  expires_at = none;
}

merges : after_assign.permissions ≡ row_after ∷ []
unfolding assign_permission for_each key_of_dto save_permission find_permission add_user_to_store
    create_store_map validate_action_strings normalize_actions normalize_id validate_permission
    is_blank
merges = refl

assign_permission-Assigned_example : Assigned (memory true) 4 delete_products shop after_assign
assign_permission-Assigned_example =
    assign_permission-Assigned (memory true) 4 delete_products "bob" shop after_assign tt
      (refl, refl, tt) assigned

assign_permission-has_permission_example :
    has_permission (memory true) 12 "ann" "product" "delete" (some "s1") after_assign
    ≡ (ok true, after_assign)
unfolding normalize_actions key_of_dto normalize_id is_blank
assign_permission-has_permission_example =
    assign_permission-has_permission (memory true) 4 12 delete_products "bob" shop after_assign
      "delete" (some "s1") (memory-IsReliable true) (refl, refl, tt) assigned refl (λ e. cc)
      (inl refl) (inr ((λ e. cc), refl))

other_text : (a b : String) → (a == b) ≡ false → a ≢ b
other_text a b h e = cc ((eq_iff a b).1 e, h)

assign_permission_refused_example :
    assign_permission (memory true) 4 (record delete_products { action = one "export" }) "bob" shop
    ≡ (err (bad_request "Invalid action provided"), shop)
unfolding normalize_actions
assign_permission_refused_example =
    assign_permission_refused (memory true) 4 (record delete_products { action = one "export" })
      "bob" "export" shop refl (other_text "export" "create" refl) (other_text "export" "read" refl)
      (other_text "export" "update" refl) (other_text "export" "delete" refl)

abbrev two_users : BulkAssignPermissionsDto
two_users = record {
  user_ids = "ann" ∷ "eve" ∷ [];
  permissions =
      record { resource = "store"; action = "read" }
      ∷ record { resource = "product"; action = "*" }
      ∷ [];
  store_id = some "s1";
}

abbrev after_bulk : Db
after_bulk = (bulk_assign_permissions (memory true) 4 two_users "bob" shop).1

assigned_in_bulk :
    bulk_assign_permissions (memory true) 4 two_users "bob" shop ≡ (ok tt, after_bulk)
unfolding bulk_assign_permissions assign_permission for_each key_of_dto save_permission
    find_permission add_user_to_store create_store_map validate_action_strings normalize_actions
    normalize_id validate_permission is_blank
assigned_in_bulk = refl

bulk_assign_permissions-grants_example :
    IsValid after_bulk.permissions
    × ((k : Key) (a : String)
        → grants shop.permissions k a ≡ true
        → grants after_bulk.permissions k a ≡ true)
    × ((user_id : String) (x : PermissionActionDto) (a : String)
        → Memᴰ user_id two_users.user_ids
        → Memᴰ x two_users.permissions
        → includes (normalize_actions (one x.action)) a ≡ true
        → grants after_bulk.permissions
            (key_of_dto (bulk_dto (memory true) 4 user_id (some "s1") x))
            a
          ≡ true)
bulk_assign_permissions-grants_example =
    bulk_assign_permissions-grants (memory true) 4 two_users "bob" shop after_bulk (refl, refl, tt)
      assigned_in_bulk

setup_store_access_fails_example :
    setup_store_access_with_permissions
      (memory true)
      4
      "ann"
      "s1"
      (("product", none) ∷ [])
      "bob"
      shop
    ≢ (ok tt, shop)
setup_store_access_fails_example =
    setup_store_access_fails (memory true) 4 "ann" "s1" "bob" "product" (("product", none) ∷ [])
      shop shop (Memᴰ.head refl)

abbrev no_reading : RevokePermissionDto
no_reading = record {
  user_id = "ann";
  resource = "product";
  action = many ("read" ∷ "create" ∷ []);
  store_id = some "s1";
  resource_id = some " ";
}

abbrev after_revoke : Db
after_revoke = (revoke_permission (memory true) 4 no_reading shop).1

revoked : revoke_permission (memory true) 4 no_reading shop ≡ (ok tt, after_revoke)
unfolding revoke_permission find_permission key_of_revoke normalize_actions normalize_id is_blank
revoked = refl

keeps_updating : after_revoke.permissions ≡ record row_of_ann { actions = "update" ∷ [] } ∷ []
unfolding revoke_permission find_permission key_of_revoke normalize_actions normalize_id is_blank
keeps_updating = refl

revoke_permission-Revoked_example :
    Revoked
      (key_of_revoke no_reading)
      (normalize_actions no_reading.action)
      shop.permissions
      after_revoke.permissions
revoke_permission-Revoked_example =
    revoke_permission-Revoked (memory true) 4 no_reading shop after_revoke (refl, refl, tt) revoked
