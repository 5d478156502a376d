-- ===== src/Permissions/Enums.antt =====
-- The vocabulary of src/permissions/enums/permission.enum.ts: resources and actions by their texts, the
-- actions that each resource allows, and the default role templates.
use accurack_software_backen.Common.{
  ℕ, String, Bool, true, false, Option, none, some, List, [], ◌∷◌, ◌==◌, if◌then◌else◌,
}
use accurack_software_backen.Permissions.Tables.{TemplatePermission, one}

-- `Object.values(PermissionResource)`
abbrev pub permission_resources : List String
permission_resources =
    "store" ∷ "inventory" ∷ "product" ∷ "supplier" ∷ "customer" ∷ "order" ∷ "user" ∷ "report"
    ∷ "setting" ∷ "transaction" ∷ "category" ∷ "brand" ∷ "dashboard" ∷ "analytics" ∷ "backup"
    ∷ "audit" ∷ "invitation" ∷ "permission" ∷ "tenant" ∷ []

-- `Object.values(PermissionAction)`
abbrev pub permission_actions : List String
permission_actions =
    "create" ∷ "read" ∷ "update" ∷ "delete" ∷ "export" ∷ "import" ∷ "approve" ∷ "reject" ∷ "assign"
    ∷ "transfer" ∷ "adjust_stock" ∷ "transfer_stock" ∷ "fulfill_order" ∷ "cancel_order"
    ∷ "refund_order" ∷ "invite" ∷ "deactivate" ∷ "reset_password" ∷ "manage_permissions"
    ∷ "view_reports" ∷ "generate_reports" ∷ "configure" ∷ "backup_restore" ∷ "view_audit" ∷ []

-- `RESOURCE_PERMISSIONS`
abbrev pub resource_permissions : List (String × List String)
resource_permissions =
    (
      "user",
      "create" ∷ "read" ∷ "update" ∷ "delete" ∷ "invite" ∷ "deactivate" ∷ "reset_password"
          ∷ "manage_permissions" ∷ [],
    )
    ∷ ("store", "create" ∷ "read" ∷ "update" ∷ "delete" ∷ "configure" ∷ [])
    ∷ ("product", "create" ∷ "read" ∷ "update" ∷ "delete" ∷ "import" ∷ "export" ∷ [])
    ∷ (
      "inventory",
      "create" ∷ "read" ∷ "update" ∷ "delete" ∷ "adjust_stock" ∷ "transfer_stock" ∷ "import"
          ∷ "export" ∷ [],
    )
    ∷ (
      "order",
      "create" ∷ "read" ∷ "update" ∷ "delete" ∷ "fulfill_order" ∷ "cancel_order" ∷ "refund_order"
          ∷ "export" ∷ [],
    )
    ∷ ("customer", "create" ∷ "read" ∷ "update" ∷ "delete" ∷ "export" ∷ [])
    ∷ ("supplier", "create" ∷ "read" ∷ "update" ∷ "delete" ∷ "export" ∷ [])
    ∷ ("transaction", "create" ∷ "read" ∷ "update" ∷ "delete" ∷ "export" ∷ [])
    ∷ ("report", "read" ∷ "view_reports" ∷ "generate_reports" ∷ "export" ∷ [])
    ∷ ("audit", "read" ∷ "view_audit" ∷ "export" ∷ [])
    ∷ ("dashboard", "read" ∷ [])
    ∷ ("analytics", "read" ∷ "view_reports" ∷ [])
    ∷ []

abbrev pub valid_actions_in : List (String × List String) → String → Option (List String)
valid_actions_in [] resource = none
valid_actions_in ((r, actions) ∷ m) resource =
    if r == resource then some actions else valid_actions_in m resource

-- `RESOURCE_PERMISSIONS[resource]`
abbrev pub valid_actions : String → Option (List String)
valid_actions = valid_actions_in resource_permissions

pub record RoleDefault : Type 0 where
  pub name : String
  pub description : String
  pub permissions : List TemplatePermission
  pub is_default : Bool
  pub priority : ℕ

abbrev pub allow : String → String → TemplatePermission
allow resource action = record {
  resource = resource;
  action = one action;
  store_id = none;
  resource_id = none;
  conditions = none;
  expires_at = none;
}

abbrev pub super_admin : RoleDefault
super_admin = record {
  name = "Super Admin";
  description = "Full system access across all stores";
  permissions = allow "*" "*" ∷ [];
  is_default = false;
  priority = 100;
}

abbrev pub store_owner : RoleDefault
store_owner = record {
  name = "Store Owner";
  description = "Full access to owned stores";
  permissions =
      allow "store" "read"
      ∷ allow "store" "update"
      ∷ allow "inventory" "*"
      ∷ allow "product" "*"
      ∷ allow "supplier" "*"
      ∷ allow "user" "manage_permissions"
      ∷ allow "report" "view_reports"
      ∷ allow "customer" "*"
      ∷ allow "order" "*"
      ∷ allow "transaction" "*"
      ∷ allow "category" "*"
      ∷ allow "brand" "*"
      ∷ [];
  is_default = false;
  priority = 90;
}

abbrev pub store_manager : RoleDefault
store_manager = record {
  name = "Store Manager";
  description = "Operational management of store";
  permissions =
      allow "store" "read"
      ∷ allow "inventory" "create"
      ∷ allow "inventory" "read"
      ∷ allow "inventory" "update"
      ∷ allow "inventory" "adjust_stock"
      ∷ allow "product" "read"
      ∷ allow "product" "update"
      ∷ allow "supplier" "read"
      ∷ allow "order" "*"
      ∷ allow "customer" "*"
      ∷ allow "report" "view_reports"
      ∷ allow "dashboard" "read"
      ∷ [];
  is_default = false;
  priority = 70;
}

abbrev pub inventory_clerk : RoleDefault
inventory_clerk = record {
  name = "Inventory Clerk";
  description = "Inventory and product management";
  permissions =
      allow "inventory" "create"
      ∷ allow "inventory" "read"
      ∷ allow "inventory" "update"
      ∷ allow "inventory" "adjust_stock"
      ∷ allow "product" "read"
      ∷ allow "product" "update"
      ∷ allow "supplier" "read"
      ∷ allow "dashboard" "read"
      ∷ [];
  is_default = true;
  priority = 50;
}

abbrev pub sales_person : RoleDefault
sales_person = record {
  name = "Sales Person";
  description = "Customer and sales management";
  permissions =
      allow "customer" "create"
      ∷ allow "customer" "read"
      ∷ allow "customer" "update"
      ∷ allow "order" "create"
      ∷ allow "order" "read"
      ∷ allow "order" "update"
      ∷ allow "inventory" "read"
      ∷ allow "product" "read"
      ∷ allow "transaction" "create"
      ∷ allow "transaction" "read"
      ∷ allow "dashboard" "read"
      ∷ [];
  is_default = false;
  priority = 40;
}

abbrev pub read_only_user : RoleDefault
read_only_user = record {
  name = "Read Only User";
  description = "View-only access to store data";
  permissions =
      allow "inventory" "read"
      ∷ allow "product" "read"
      ∷ allow "customer" "read"
      ∷ allow "order" "read"
      ∷ allow "dashboard" "read"
      ∷ [];
  is_default = false;
  priority = 10;
}

-- `DEFAULT_ROLE_TEMPLATES`
abbrev pub default_role_templates : List RoleDefault
default_role_templates =
    super_admin ∷ store_owner ∷ store_manager ∷ inventory_clerk ∷ sales_person ∷ read_only_user ∷ []
