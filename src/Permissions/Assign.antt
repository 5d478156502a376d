-- ===== src/Permissions/Assign.antt =====
-- Granting and revoking: `assignPermission`, `revokePermission`, `addUserToStore` and the bulk methods
-- of src/permissions/permissions.service.ts. A method runs against the database behind the tenant's
-- client; a throw leaves what was written before it, since no transaction is open.
pub mod Rows
pub mod Refines
pub mod Steps
pub mod Methods
pub mod Grant
pub mod Revoke
pub mod Tests
use accurack_software_backen.Common.{
  ℕ, String, Bool, true, false, not, Option, none, some, List, [], ◌∷◌, map, ◌&&◌, ◌||◌, ◌==◌,
  same_text, nat_eq, is_some, is_empty, every, keep, foldl, ◌++◌, includes, is_blank, or_else,
  if◌then◌else◌,
}
use accurack_software_backen.Effect.{
  Error, bad_request, Result, ok, err, Action, ◌>>=◌, ◌>>◌, pure, throw, query, write, throw_if,
  for_each, map_result,
}
use accurack_software_backen.Prisma.{Prisma}
use accurack_software_backen.Permissions.Enums.{permission_actions}
use accurack_software_backen.Permissions.Requests.{
  CreatePermissionDto, RevokePermissionDto, PermissionActionDto, BulkAssignPermissionsDto,
  crud_actions, normalize_actions, validate_action_strings, normalize_id, validate_permission,
}
use accurack_software_backen.Permissions.Tables.{
  Permission, ActionSpec, one, many, UserStoreMap, Db, permission_clash, store_map_clash,
}

-- `Array.from(new Set(xs))`: the first occurrences, in order.
abbrev pub add_new : List String → String → List String
add_new seen x = if includes seen x then seen else seen ++ x ∷ []

abbrev pub distinct : List String → List String
distinct = foldl add_new []

-- The columns that `findFirst` names: the criteria of a grant, without its actions.
pub record Key : Type 0 where
  pub user_id : String
  pub store_id : Option String
  pub resource : String
  pub resource_id : Option String

abbrev pub has_key : Key → Permission → Bool
has_key k x =
    x.user_id == k.user_id
    && x.resource == k.resource
    && same_text x.store_id k.store_id
    && same_text x.resource_id k.resource_id

abbrev pub has_id : ℕ → Permission → Bool
has_id n x = nat_eq x.id n

abbrev pub ids : List Permission → List ℕ
ids = map (λ x. x.id)

abbrev pub with_permissions : Db → Result (List Permission) → Result Db
with_permissions db (ok t) = ok (record db { permissions = t })
with_permissions db (err e) = err e

abbrev pub with_store_map : Db → Result (List UserStoreMap) → Result Db
with_store_map db (ok t) = ok (record db { user_store_map = t })
with_store_map db (err e) = err e

pub key_of_dto : CreatePermissionDto → Key
unfolding normalize_id
key_of_dto dto = record {
  user_id = dto.user_id;
  store_id = normalize_id dto.store_id;
  resource = dto.resource;
  resource_id = normalize_id dto.resource_id;
}

pub key_of_revoke : RevokePermissionDto → Key
unfolding normalize_id
key_of_revoke dto = record {
  user_id = dto.user_id;
  store_id = normalize_id dto.store_id;
  resource = dto.resource;
  resource_id = normalize_id dto.resource_id;
}

module _ (p : Prisma) (now : ℕ) where
  create_store_map : String → String → Db → Result Db
  create_store_map user_id store_id db = with_store_map db (
      p.create store_map_clash
        (record {
          id = p.fresh (map (λ m. m.id) db.user_store_map);
          user_id = user_id;
          store_id = store_id;
        })
        db.user_store_map)

  pub add_user_to_store : String → String → Action Db (Unit {0})
  unfolding create_store_map
  add_user_to_store user_id store_id =
      query (λ db.
        map_result is_some
          (p.find_first (λ m. m.user_id == user_id && m.store_id == store_id) db.user_store_map))
      >>= λ mapped. if mapped then pure tt else write (create_store_map user_id store_id)

  pub find_permission : Key → Db → Result (Option Permission)
  find_permission k db = p.find_first (has_key k) db.permissions

  -- `data` of the update: an undefined `conditions` leaves the column as it is
  abbrev pub merged : CreatePermissionDto → String → List String → Permission → Permission
  merged dto granted_by actions x = record x {
    actions = actions;
    granted = or_else dto.granted true;
    granted_by = granted_by;
    granted_at = now;
    conditions = elim dto.conditions [ none ↦ x.conditions | some c ↦ some c ];
    expires_at = dto.expires_at;
  }

  abbrev pub created : CreatePermissionDto → Key → String → List String → ℕ → Permission
  created dto k granted_by actions n = record {
    id = n;
    user_id = k.user_id;
    store_id = k.store_id;
    resource = k.resource;
    actions = actions;
    resource_id = k.resource_id;
    granted = or_else dto.granted true;
    granted_by = granted_by;
    granted_at = now;
    expires_at = dto.expires_at;
    conditions = dto.conditions;
  }

  pub save_permission :
      CreatePermissionDto → Key → String → List String → Option Permission → Db → Result Db
  save_permission dto k granted_by actions (some existing) db = with_permissions db (
      p.update (has_id existing.id) (merged dto granted_by (distinct (existing.actions ++ actions)))
        db.permissions)
  save_permission dto k granted_by actions none db = with_permissions db (
      p.create permission_clash (created dto k granted_by actions (p.fresh (ids db.permissions)))
        db.permissions)

  -- `if (normalizedStoreId) await this.addUserToStore(...)`
  abbrev pub join_store : String → Option String → Action Db (Unit {0})
  join_store user_id none = pure tt
  join_store user_id (some store_id) = add_user_to_store user_id store_id

  pub assign_permission : CreatePermissionDto → String → Action Db (Unit {0})
  unfolding find_permission save_permission
  assign_permission dto granted_by =
      let actions = normalize_actions dto.action in
      let k = key_of_dto dto in
      throw_if (not (validate_action_strings actions)) (bad_request "Invalid action provided")
      >> (for_each (validate_permission dto.resource) actions
          >> (join_store dto.user_id k.store_id
              >> (query (find_permission k) >>= λ existing.
                  write (save_permission dto k granted_by actions existing))))

  abbrev pub drop_actions : List String → Permission → Db → Result Db
  drop_actions revoked existing db =
      let remaining = keep (λ a. not (includes revoked a)) existing.actions in
      with_permissions db (
        if is_empty remaining
        then p.delete (has_id existing.id) db.permissions
        else p.update (has_id existing.id) (λ x. record x { actions = remaining }) db.permissions)

  abbrev pub drop_found : List String → Option Permission → Action Db (Unit {0})
  drop_found revoked none = pure tt
  drop_found revoked (some existing) = write (drop_actions revoked existing)

  pub revoke_permission : RevokePermissionDto → Action Db (Unit {0})
  unfolding find_permission
  revoke_permission dto =
      query (find_permission (key_of_revoke dto)) >>= drop_found (normalize_actions dto.action)

  abbrev pub bulk_dto : String → Option String → PermissionActionDto → CreatePermissionDto
  bulk_dto user_id store_id permission = record {
    user_id = user_id;
    store_id = store_id;
    resource = permission.resource;
    action = one permission.action;
    resource_id = none;
    granted = some true;
    conditions = none;
    expires_at = none;
  }

  pub bulk_assign_permissions : BulkAssignPermissionsDto → String → Action Db (Unit {0})
  bulk_assign_permissions dto assigned_by =
      for_each
        (λ user_id.
          for_each
            (λ permission. assign_permission (bulk_dto user_id dto.store_id permission) assigned_by)
            dto.permissions)
        dto.user_ids

  pub assign_crud_permissions :
      String
      → String
      → Option String
      → Option String
      → Option String
      → Option String
      → Option ℕ
      → Action Db (Unit {0})
  assign_crud_permissions user_id resource store_id granted_by resource_id conditions expires_at =
      for_each
        (λ action.
          assign_permission
            (record {
              user_id = user_id;
              store_id = store_id;
              resource = resource;
              action = one action;
              resource_id = resource_id;
              granted = some true;
              conditions = conditions;
              expires_at = expires_at;
            })
            (or_else granted_by "system"))
        crud_actions

  -- `PermissionAction[] | '*'` of an entry of `permissions`
  abbrev pub listed_actions : Option (List String) → List String
  listed_actions none = permission_actions
  listed_actions (some actions) = actions

  pub setup_store_access_with_permissions :
      String → String → List (String × Option (List String)) → String → Action Db (Unit {0})
  setup_store_access_with_permissions user_id store_id permissions granted_by =
      add_user_to_store user_id store_id
      >> for_each
          (λ entry.
            for_each
              (λ action.
                assign_permission
                  (bulk_dto user_id (some store_id)
                    (record { resource = entry.0; action = action }))
                  granted_by)
              (listed_actions entry.1))
          permissions
