-- ===== src/Permissions/Roles/Defaults.antt =====
-- initializeDefaultRoles and assignDefaultPermissions of src/permissions/permissions.service.ts.
use accurack_software_backen.Common.{
  ℕ, String, Bool, Option, none, some, [], ◌∷◌, ◌&&◌, ◌==◌, if◌then◌else◌,
}
use accurack_software_backen.Effect.{
  not_found, Result, ok, Action, ◌>>=◌, ◌>>◌, pure, query, or_throw, for_each,
}
use accurack_software_backen.Prisma.{Prisma}
use accurack_software_backen.Permissions.Tables.{RoleTemplate, User, Db}
use accurack_software_backen.Permissions.Enums.{RoleDefault, default_role_templates}
use accurack_software_backen.Permissions.Roles.{AssignRoleTemplateDto, assign_role_template}

module _ (p : Prisma) where
  abbrev pub find_named : String → Db → Result (Option RoleTemplate)
  find_named name db = p.find_first (λ (t : RoleTemplate). t.name == name) db.role_templates

  -- It looks for each template and creates none.
  unfoldable pub initialize_default_roles : Action Db (Unit {0})
  initialize_default_roles =
      for_each (λ (t : RoleDefault). query (find_named t.name) >> pure tt) default_role_templates

module _ (p : Prisma) (now : ℕ) where
  abbrev pub own_role : String → Option String → RoleTemplate → AssignRoleTemplateDto
  own_role user_id store_id t = record {
    user_ids = user_id ∷ [];
    role_template_id = t.id;
    store_id = store_id;
  }

  abbrev pub is_default_template : RoleTemplate → Bool
  is_default_template t = t.is_default && t.is_active

  abbrev pub assign_if_found : String → Option String → Option RoleTemplate → Action Db (Unit {0})
  assign_if_found user_id store_id none = pure tt
  assign_if_found user_id store_id (some t) =
      assign_role_template p now (own_role user_id store_id t) user_id

  abbrev pub assign_default : String → Option String → Action Db (Unit {0})
  assign_default user_id store_id =
      query (λ db. p.find_first is_default_template db.role_templates)
      >>= assign_if_found user_id store_id

  abbrev pub assign_super : String → Option String → Option RoleTemplate → Action Db (Unit {0})
  assign_super user_id store_id (some t) = assign_if_found user_id store_id (some t)
  assign_super user_id store_id none = assign_default user_id store_id

  abbrev pub retry_super : String → Option String → Option RoleTemplate → Action Db (Unit {0})
  retry_super user_id store_id (some t) = assign_if_found user_id store_id (some t)
  retry_super user_id store_id none =
      initialize_default_roles p
      >> (query (find_named p "Super Admin") >>= assign_super user_id store_id)

  abbrev pub assign_by_role : String → Option String → User → Action Db (Unit {0})
  assign_by_role user_id store_id u =
      if u.role == "super_admin"
      then (query (find_named p "Super Admin") >>= retry_super user_id store_id)
      else assign_default user_id store_id

  abbrev pub default_for : String → Option String → Option User → Action Db (Unit {0})
  default_for user_id store_id found =
      or_throw found (not_found "User not found") >>= assign_by_role user_id store_id

  -- `catch`: the error is logged
  abbrev pub swallow : Result (Unit {0}) × Db → Result (Unit {0}) × Db
  swallow (r, db) = (ok tt, db)

  unfoldable pub assign_default_permissions : String → Option String → Action Db (Unit {0})
  assign_default_permissions user_id store_id db = swallow (
      (query (λ (d : Db). p.find_first (λ (u : User). u.id == user_id) d.users)
          >>= default_for user_id store_id)
        db)
