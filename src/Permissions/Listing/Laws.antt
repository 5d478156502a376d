-- ===== src/Permissions/Listing/Laws.antt =====
-- What getUserPermissions of src/permissions/permissions.service.ts lists, by the rows of the tables.
use accurack_software_backen.Common.{ℕ, String, true, Option, some, ◌≡◌, ◌⊎◌, includes, Memᴰ}
use accurack_software_backen.Prisma.{Prisma}
use accurack_software_backen.Permissions.Tables.{
  Permission, one, TemplatePermission, RoleTemplate, UserRole, Db,
}
use accurack_software_backen.Permissions.Check.{template_of}
use accurack_software_backen.Permissions.Check.Spec.{InScope, IsLive}
use accurack_software_backen.Permissions.Listing.{item_of_row, item_of_template, key_of}

module _ (p : Prisma) (now : ℕ) (user_id : String) (store_id : Option String) where
  -- A row of the user that the query lists, with the action.
  pub record IsListedRow (db : Db) (k a : String) : Type 0 where
    pub row : Permission
    pub listed : Memᴰ row db.permissions
    pub owner : row.user_id ≡ user_id
    pub reach : InScope p store_id row.store_id ⊎ IsLive now row.expires_at
    pub granted : row.granted ≡ true
    pub key : key_of (item_of_row row) ≡ k
    pub action : includes row.actions a ≡ true

  -- A role of the user that the query lists, whose template has the action.
  pub record IsListedRole (db : Db) (k a : String) : Type 0 where
    pub role : UserRole
    pub template : RoleTemplate
    pub permission : TemplatePermission
    pub listed : Memᴰ role db.user_roles
    pub owner : role.user_id ≡ user_id
    pub scope : InScope p store_id role.store_id
    pub active : role.is_active ≡ true
    pub template_eq : template_of db.role_templates role ≡ some template
    pub member : Memᴰ permission template.permissions
    pub key : key_of (item_of_template permission) ≡ k
    pub action : permission.action ≡ one a
