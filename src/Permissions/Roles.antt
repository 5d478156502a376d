-- ===== src/Permissions/Roles.antt =====
-- The role templates of src/permissions/permissions.service.ts: making, changing and deleting one, and
-- assigning it to users.
pub mod Defaults
pub mod Assignment
pub mod Granted
pub mod Deletion
pub mod Tests
use accurack_software_backen.Common.{
  ℕ, String, Bool, true, false, Option, none, some, List, [], ◌∷◌, ◌&&◌, ◌==◌, ltb, map, length,
  nat_eq, or_else, same_text, given_text, is_empty, concat, if◌then◌else◌,
}
use accurack_software_backen.Effect.{
  Error, not_found, bad_request, Result, ok, err, Action, ◌>>=◌, ◌>>◌, pure, query, write, or_throw,
  throw_if, for_each, map_result,
}
use accurack_software_backen.Prisma.{Prisma}
use accurack_software_backen.Permissions.Tables.{
  TemplatePermission, one, RoleTemplate, UserRole, User, Db, user_role_clash, role_template_clash,
}
use accurack_software_backen.Permissions.Enums.{RoleDefault, default_role_templates}
use accurack_software_backen.Permissions.Requests.{PermissionActionDto, validate_permission}

pub record CreateRoleTemplateDto : Type 0 where
  pub name : String
  pub description : Option String
  pub permissions : List PermissionActionDto
  pub inherits_from : Option ℕ
  pub is_default : Option Bool
  pub priority : Option ℕ

pub record UpdateRoleTemplateDto : Type 0 where
  pub name : Option String
  pub description : Option String
  pub permissions : Option (List PermissionActionDto)
  pub inherits_from : Option ℕ
  pub is_default : Option Bool
  pub priority : Option ℕ
  pub is_active : Option Bool

pub record AssignRoleTemplateDto : Type 0 where
  pub user_ids : List String
  pub role_template_id : ℕ
  pub store_id : Option String

abbrev pub with_role_templates : Db → Result (List RoleTemplate) → Result Db
with_role_templates db (ok t) = ok (record db { role_templates = t })
with_role_templates db (err e) = err e

abbrev pub with_user_roles : Db → Result (List UserRole) → Result Db
with_user_roles db (ok t) = ok (record db { user_roles = t })
with_user_roles db (err e) = err e

abbrev pub template_permission : PermissionActionDto → TemplatePermission
template_permission d = record {
  resource = d.resource;
  action = one d.action;
  store_id = none;
  resource_id = none;
  conditions = none;
  expires_at = none;
}

abbrev pub validate_one : PermissionActionDto → Action Db (Unit {0})
validate_one d = validate_permission d.resource d.action

abbrev pub is_template : ℕ → RoleTemplate → Bool
is_template id t = nat_eq t.id id

-- `{ ...dto }`: a field that is given replaces the old one
abbrev pub or_given : Option String → Option String → Option String
or_given none old = old
or_given (some s) old = some s

abbrev pub or_parent : Option ℕ → Option ℕ → Option ℕ
or_parent none old = old
or_parent (some id) old = some id

abbrev pub or_permissions :
    Option (List PermissionActionDto) → List TemplatePermission → List TemplatePermission
or_permissions none old = old
or_permissions (some given) old = map template_permission given

abbrev pub updated_template : UpdateRoleTemplateDto → RoleTemplate → RoleTemplate
updated_template dto t = record t {
  name = or_else dto.name t.name;
  description = or_given dto.description t.description;
  permissions = or_permissions dto.permissions t.permissions;
  inherits_from = or_parent dto.inherits_from t.inherits_from;
  is_default = or_else dto.is_default t.is_default;
  priority = or_else dto.priority t.priority;
  is_active = or_else dto.is_active t.is_active;
}

abbrev pub deactivated : RoleTemplate → RoleTemplate
deactivated t = record t { is_active = false }

-- the unique key of an `upsert`, in which a store that is not given is the empty text
abbrev pub role_key : String → ℕ → Option String → UserRole → Bool
role_key user_id template store_id r =
    r.user_id == user_id
    && nat_eq r.role_template_id template
    && same_text r.store_id (some (or_else (given_text store_id) ""))

abbrev pub holds_template : ℕ → UserRole → Bool
holds_template id r = nat_eq r.role_template_id id && r.is_active

module _ (p : Prisma) where
  abbrev pub find_template : ℕ → Db → Result (Option RoleTemplate)
  find_template id db = p.find_first (is_template id) db.role_templates

  abbrev pub template_row : CreateRoleTemplateDto → String → List RoleTemplate → RoleTemplate
  template_row dto by templates = record {
    id = p.fresh (map (λ (t : RoleTemplate). t.id) templates);
    name = dto.name;
    description = dto.description;
    permissions = map template_permission dto.permissions;
    inherits_from = dto.inherits_from;
    is_default = or_else dto.is_default false;
    is_active = true;
    priority = or_else dto.priority 0;
    created_by = by;
  }

  abbrev pub new_template : CreateRoleTemplateDto → String → Db → Result RoleTemplate
  new_template dto by db = ok (template_row dto by db.role_templates)

  abbrev pub insert_template : RoleTemplate → Action Db RoleTemplate
  insert_template t =
      write (λ db. with_role_templates db (p.create role_template_clash t db.role_templates))
      >> pure t

  unfoldable pub create_role_template : CreateRoleTemplateDto → String → Action Db RoleTemplate
  create_role_template dto by =
      for_each validate_one dto.permissions >> (query (new_template dto by) >>= insert_template)

  abbrev pub change_template : ℕ → (RoleTemplate → RoleTemplate) → Action Db (Unit {0})
  change_template id f =
      write (λ db. with_role_templates db (p.update (is_template id) f db.role_templates))

  abbrev pub validate_given : Option (List PermissionActionDto) → Action Db (Unit {0})
  validate_given none = pure tt
  validate_given (some given) = for_each validate_one given

  abbrev pub update_found : ℕ → UpdateRoleTemplateDto → Option RoleTemplate → Action Db RoleTemplate
  update_found id dto found = or_throw found (not_found "Role template not found") >>= λ t.
      validate_given dto.permissions
      >> change_template id (updated_template dto)
      >> pure (updated_template dto t)

  unfoldable pub update_role_template : ℕ → UpdateRoleTemplateDto → Action Db RoleTemplate
  update_role_template id dto = query (find_template id) >>= update_found id dto

  -- `count`: the number of rows that the test finds
  abbrev pub count_holders : ℕ → Db → Result ℕ
  count_holders id db = map_result length (p.find_many (holds_template id) db.user_roles)

  -- The message of the source names the number of users too.
  abbrev pub in_use : RoleTemplate → Error
  in_use t =
      bad_request (concat ("Cannot delete role template '" ∷ t.name ∷ "' - it is assigned" ∷ []))

  abbrev pub delete_unused : ℕ → RoleTemplate → ℕ → Action Db (Unit {0})
  delete_unused id t holders = throw_if (ltb 0 holders) (in_use t) >> change_template id deactivated

  abbrev pub delete_counted : ℕ → RoleTemplate → Action Db (Unit {0})
  delete_counted id t = query (count_holders id) >>= delete_unused id t

  abbrev pub delete_found : ℕ → Option RoleTemplate → Action Db (Unit {0})
  delete_found id found = or_throw found (not_found "Role template not found") >>= delete_counted id

  unfoldable pub delete_role_template : ℕ → Action Db (Unit {0})
  delete_role_template id = query (find_template id) >>= delete_found id

module _ (p : Prisma) (now : ℕ) where
  abbrev pub renewed : String → UserRole → UserRole
  renewed by r = record r { is_active = true; assigned_by = by; assigned_at = now }

  abbrev pub role_row : AssignRoleTemplateDto → String → String → List UserRole → UserRole
  role_row dto by user_id rows = record {
    id = p.fresh (map (λ (r : UserRole). r.id) rows);
    user_id = user_id;
    role_template_id = dto.role_template_id;
    store_id = given_text dto.store_id;
    assigned_by = by;
    assigned_at = now;
    is_active = true;
  }

  abbrev pub find_role : AssignRoleTemplateDto → String → Db → Result (Option UserRole)
  find_role dto user_id db =
      p.find_first (role_key user_id dto.role_template_id dto.store_id) db.user_roles

  abbrev pub save_role : AssignRoleTemplateDto → String → String → Option UserRole → Db → Result Db
  save_role dto by user_id (some r) db =
      with_user_roles db
        (p.update (role_key user_id dto.role_template_id dto.store_id) (renewed by) db.user_roles)
  save_role dto by user_id none db =
      with_user_roles db
        (p.create user_role_clash (role_row dto by user_id db.user_roles) db.user_roles)

  abbrev pub write_role :
      AssignRoleTemplateDto → String → String → Option UserRole → Action Db (Unit {0})
  write_role dto by user_id found = write (save_role dto by user_id found)

  -- `userRole.upsert`: an update where the key is found, else an insertion
  unfoldable pub upsert_role : AssignRoleTemplateDto → String → String → Action Db (Unit {0})
  upsert_role dto by user_id = query (find_role dto user_id) >>= write_role dto by user_id

  abbrev pub assign_found :
      AssignRoleTemplateDto → String → Option RoleTemplate → Action Db (Unit {0})
  assign_found dto by found =
      or_throw found (not_found "Role template not found")
      >> p.transaction (for_each (upsert_role dto by) dto.user_ids)

  unfoldable pub assign_role_template : AssignRoleTemplateDto → String → Action Db (Unit {0})
  assign_role_template dto by = query (find_template p dto.role_template_id) >>= assign_found dto by
