-- ===== src/Permissions/Check.antt =====
-- The permission checks of src/permissions/permissions.service.ts, on the database behind the client of
-- the tenant context. They read the permissions of a template and not those of the template that it
-- inherits from. `now` is the time at which a check runs.
pub mod Spec
pub mod Laws
pub mod AtStore
pub mod Tests
use accurack_software_backen.Common.{
  ℕ, String, Bool, true, false, Option, none, some, List, [], ◌∷◌, ◌&&◌, ◌||◌, ◌==◌, same_text,
  nat_eq, is_some, any, find, includes, ltb, if◌then◌else◌,
}
use accurack_software_backen.Effect.{Result, ok, err, Action, ◌>>=◌, ◌>>◌, pure, query, map_result}
use accurack_software_backen.Prisma.{Prisma}
use accurack_software_backen.Permissions.Tables.{
  Permission, ActionSpec, one, many, TemplatePermission, RoleTemplate, UserRole, UserStoreMap, Db,
}

abbrev pub is_null : Option String → Bool
is_null none = true
is_null (some s) = false

-- `expiresAt: null` or `expiresAt: { gt: new Date() }`
abbrev pub is_live : ℕ → Option ℕ → Bool
is_live now none = true
is_live now (some t) = ltb now t

-- A field of a `where` clause that is `undefined` at a wildcard.
abbrev pub unless_wildcard : String → Bool → Bool
unless_wildcard s test = if s == "*" then true else test

-- `permission.action === action`, at an element of a JSON array
abbrev pub action_is : String → ActionSpec → Bool
action_is a (one b) = b == a
action_is a (many bs) = false

abbrev pub template_allows : String → String → TemplatePermission → Bool
template_allows resource action t =
    (t.resource == resource || t.resource == "*")
    && (action_is action t.action || action_is "*" t.action)

-- `include: { roleTemplate: true }`
abbrev pub template_of : List RoleTemplate → UserRole → Option RoleTemplate
template_of templates u = find (λ t. nat_eq t.id u.role_template_id) templates

abbrev pub allowed_by : String → String → Option RoleTemplate → Bool
allowed_by resource action none = false
allowed_by resource action (some t) = any (template_allows resource action) t.permissions

-- `try { ... } catch { return false }`
abbrev pub false_on_error : {S : Type 0} → Result Bool × S → Result Bool × S
false_on_error (ok b, s) = (ok b, s)
false_on_error (err e, s) = (ok false, s)

-- the `source` of the answers
pub data Source : Type 0 where
  direct role inherited global store nothing : Source

pub record PermissionCheck : Type 0 where
  pub has_permission : Bool
  pub resource : String
  pub action : String
  pub store_id : Option String
  pub source : Source

pub record StorePermissionCheck : Type 0 where
  pub has_permission : Bool
  pub source : Source
  pub user_id : String
  pub store_id : String
  pub resource : String
  pub action : String

module _ (p : Prisma) where
  -- `OR: [{ storeId }, { storeId: null }]`, where `storeId` may be undefined
  abbrev pub in_scope : Option String → Option String → Bool
  in_scope none row = p.undefined_in_or || is_null row
  in_scope (some s) row = same_text row (some s) || is_null row

module _ (p : Prisma) (now : ℕ) (user_id resource action : String) (store_id : Option String) where
  -- the `where` clause of the wildcard query, which has no test of `expiresAt`
  abbrev pub wildcard_row : Permission → Bool
  wildcard_row x =
      x.user_id == user_id
      && in_scope p store_id x.store_id
      && unless_wildcard resource (x.resource == resource)
      && unless_wildcard action (includes x.actions action)
      && x.granted

  abbrev pub direct_row : Permission → Bool
  direct_row x =
      x.user_id == user_id
      && in_scope p store_id x.store_id
      && x.resource == resource
      && includes x.actions action
      && x.granted
      && is_live now x.expires_at

  abbrev pub role_row : UserRole → Bool
  role_row u = u.user_id == user_id && in_scope p store_id u.store_id && u.is_active

  unfoldable pub find_direct : Action Db Bool
  find_direct = query (λ db. map_result is_some (p.find_first direct_row db.permissions))

  unfoldable pub find_wildcard : Action Db Bool
  find_wildcard = query (λ db. map_result is_some (p.find_first wildcard_row db.permissions))

  unfoldable pub check_direct_permission : Action Db Bool
  unfolding find_direct find_wildcard
  check_direct_permission =
      if resource == "*" || action == "*"
      then (find_wildcard >>= λ found. if found then pure true else find_direct)
      else find_direct

  unfoldable pub check_role_permissions : Action Db Bool
  check_role_permissions = query λ db.
      map_result (any (λ u. allowed_by resource action (template_of db.role_templates u)))
        (p.find_many role_row db.user_roles)

  -- the body of the `try` block
  unfoldable pub look_up_permission : Action Db Bool
  unfolding check_direct_permission check_role_permissions
  look_up_permission =
      check_direct_permission >>= λ found. if found then pure true else check_role_permissions

  unfoldable pub has_permission : Action Db Bool
  unfolding look_up_permission
  has_permission db = false_on_error (look_up_permission db)

  answer : Bool → Source → PermissionCheck
  answer b s = record {
    has_permission = b;
    resource = resource;
    action = action;
    store_id = store_id;
    source = s;
  }

  pub check_permission : Action Db PermissionCheck
  unfolding has_permission answer
  check_permission = has_permission >>= λ allowed.
      if allowed
      then (check_direct_permission >>= λ found.
          pure (answer true (if found then direct else role)))
      else pure (answer false direct)

module _ (p : Prisma) (now : ℕ) (user_id store_id resource action : String) where
  pub has_store_access : Action Db Bool
  has_store_access = query λ db.
      map_result is_some
        (p.find_first (λ m. m.user_id == user_id && m.store_id == store_id) db.user_store_map)

  -- the row that a check for exactly this store, or for `storeId: null`, asks for
  abbrev pub scoped_row : Option String → Permission → Bool
  scoped_row scope x =
      x.user_id == user_id
      && same_text x.store_id scope
      && x.resource == resource
      && includes x.actions action
      && x.granted
      && is_live now x.expires_at

  find_scoped : Option String → Action Db Bool
  find_scoped scope =
      query λ db. map_result is_some (p.find_first (scoped_row scope) db.permissions)

  answer_for : Bool → Source → StorePermissionCheck
  answer_for b s = record {
    has_permission = b;
    source = s;
    user_id = user_id;
    store_id = store_id;
    resource = resource;
    action = action;
  }

  pub check_user_store_permission : Action Db StorePermissionCheck
  unfolding has_store_access find_scoped answer_for
  check_user_store_permission = has_store_access >>= λ access.
      if access
      then (find_scoped none >>= λ everywhere.
          if everywhere
          then pure (answer_for true global)
          else (find_scoped (some store_id) >>= λ here.
              if here
              then pure (answer_for true store)
              else (check_role_permissions p now user_id resource action (some store_id)
                  >>= λ by_role. pure (answer_for by_role (if by_role then store else nothing)))))
      else pure (answer_for false nothing)
