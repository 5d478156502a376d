-- ===== src/Permissions/Tables.antt =====
-- The tables of prisma/schema.prisma that the permission service reads and writes. Identifiers that the
-- database generates are numbers, since the service only compares them; times are numbers; a JSON
-- column that is only passed through is a text.
use accurack_software_backen.Common.{ℕ, String, Bool, false, Option, some, List, ◌&&◌, ◌==◌, nat_eq}

pub record Permission : Type 0 where
  pub id : ℕ
  pub user_id : String
  pub store_id : Option String
  pub resource : String
  pub actions : List String
  pub resource_id : Option String
  pub granted : Bool
  pub granted_by : String
  pub granted_at : ℕ
  pub expires_at : Option ℕ
  pub conditions : Option String

-- `PermissionAction | PermissionAction[] | '*'`
pub data ActionSpec : Type 0 where
  one : String → ActionSpec
  many : List String → ActionSpec

-- An element of the JSON column `permissions` of a role template.
pub record TemplatePermission : Type 0 where
  pub resource : String
  pub action : ActionSpec
  pub store_id : Option String
  pub resource_id : Option String
  pub conditions : Option String
  pub expires_at : Option ℕ

pub record RoleTemplate : Type 0 where
  pub id : ℕ
  pub name : String
  pub description : Option String
  pub permissions : List TemplatePermission
  pub inherits_from : Option ℕ
  pub is_default : Bool
  pub is_active : Bool
  pub priority : ℕ
  pub created_by : String

pub record UserRole : Type 0 where
  pub id : ℕ
  pub user_id : String
  pub role_template_id : ℕ
  pub store_id : Option String
  pub assigned_by : String
  pub assigned_at : ℕ
  pub is_active : Bool

pub record UserStoreMap : Type 0 where
  pub id : ℕ
  pub user_id : String
  pub store_id : String

pub record User : Type 0 where
  pub id : String
  pub role : String
  pub email : String

pub record Db : Type 0 where
  pub permissions : List Permission
  pub role_templates : List RoleTemplate
  pub user_roles : List UserRole
  pub user_store_map : List UserStoreMap
  pub users : List User

abbrev pub both_equal : Option String → Option String → Bool
both_equal (some a) (some b) = a == b
both_equal _ _ = false

-- `@@unique([userId, storeId, resource, resourceId])`: two rows with a null in the key never clash.
abbrev pub permission_clash : Permission → Permission → Bool
permission_clash r x =
    r.user_id == x.user_id
    && r.resource == x.resource
    && both_equal r.store_id x.store_id
    && both_equal r.resource_id x.resource_id

-- `@@unique([userId, storeId])`
abbrev pub store_map_clash : UserStoreMap → UserStoreMap → Bool
store_map_clash r x = r.user_id == x.user_id && r.store_id == x.store_id

-- `@@unique([userId, roleTemplateId, storeId])`
abbrev pub user_role_clash : UserRole → UserRole → Bool
user_role_clash r x =
    r.user_id == x.user_id
    && nat_eq r.role_template_id x.role_template_id
    && both_equal r.store_id x.store_id

-- `name String @unique`
abbrev pub role_template_clash : RoleTemplate → RoleTemplate → Bool
role_template_clash r x = r.name == x.name
