-- ===== src/Permissions/Listing.antt =====
-- getUserPermissions of src/permissions/permissions.service.ts: what a user may do, grouped by resource,
-- store and single resource.
pub mod Groups
pub mod Members
pub mod Laws
pub mod Tests
use accurack_software_backen.Common.{
  ℕ, String, Bool, true, false, Option, none, some, List, [], ◌∷◌, ◌++◌, ◌&&◌, ◌||◌, ◌==◌, map, any,
  foldl, given_text, or_else, concat, if◌then◌else◌,
}
use accurack_software_backen.Effect.{Result, ok, Action, ◌>>=◌, pure, query}
use accurack_software_backen.Prisma.{Prisma}
use accurack_software_backen.Permissions.Tables.{
  Permission, ActionSpec, one, many, TemplatePermission, RoleTemplate, UserRole, Db,
}
use accurack_software_backen.Permissions.Check.{in_scope, is_live, template_of}

-- A row, or an element of a template, as the loops read it.
pub record Item : Type 0 where
  pub resource : String
  pub store_id : Option String
  pub resource_id : Option String
  pub actions : List ActionSpec
  pub conditions : Option String
  pub expires_at : Option ℕ

pub record Group : Type 0 where
  pub key : String
  pub resource : String
  pub store_id : Option String
  pub resource_id : Option String
  pub actions : List ActionSpec
  pub conditions : Option String
  pub expires_at : Option ℕ

pub record UserPermissions : Type 0 where
  pub user_id : String
  pub store_id : Option String
  pub permissions : List Group
  pub role_templates : List String

abbrev pub item_of_row : Permission → Item
item_of_row x = record {
  resource = x.resource;
  store_id = x.store_id;
  resource_id = x.resource_id;
  actions = map one x.actions;
  conditions = x.conditions;
  expires_at = x.expires_at;
}

abbrev pub item_of_template : TemplatePermission → Item
item_of_template t = record {
  resource = t.resource;
  store_id = t.store_id;
  resource_id = t.resource_id;
  actions = t.action ∷ [];
  conditions = t.conditions;
  expires_at = t.expires_at;
}

-- `${p.resource}-${p.storeId || 'global'}-${p.resourceId || 'none'}`
abbrev pub key_of : Item → String
key_of i = concat (
    i.resource
    ∷ "-"
    ∷ or_else (given_text i.store_id) "global"
    ∷ "-"
    ∷ or_else (given_text i.resource_id) "none"
    ∷ [])

-- Whether a `Set` has it: texts by their characters, and no array is another.
abbrev pub same_action : ActionSpec → ActionSpec → Bool
same_action (one a) (one b) = a == b
same_action _ _ = false

-- `actions.add(action)`
abbrev pub add_action : List ActionSpec → ActionSpec → List ActionSpec
add_action known a = if any (same_action a) known then known else known ++ (a ∷ [])

abbrev pub add_actions : List ActionSpec → List ActionSpec → List ActionSpec
add_actions known given = foldl add_action known given

abbrev pub group_of : Item → Group
group_of i = record {
  key = key_of i;
  resource = i.resource;
  store_id = given_text i.store_id;
  resource_id = given_text i.resource_id;
  actions = add_actions [] i.actions;
  conditions = i.conditions;
  expires_at = i.expires_at;
}

-- One pass of the loops: the group of the key, a new one if there is none, takes up the actions.
abbrev pub add_item : List Group → Item → List Group
add_item [] i = group_of i ∷ []
add_item (g ∷ gs) i =
    let rest = add_item gs i in
    if g.key == key_of i
    then record g { actions = add_actions g.actions i.actions } ∷ gs
    else g ∷ rest

abbrev pub group_items : List Item → List Group
group_items items = foldl add_item [] items

-- The templates of the roles, by `include: { roleTemplate: true }`.
abbrev pub with_template : Option RoleTemplate → List RoleTemplate → List RoleTemplate
with_template none rest = rest
with_template (some t) rest = t ∷ rest

abbrev pub templates_of : List RoleTemplate → List UserRole → List RoleTemplate
templates_of templates [] = []
templates_of templates (u ∷ us) =
    with_template (template_of templates u) (templates_of templates us)

abbrev pub permissions_of : List RoleTemplate → List TemplatePermission
permissions_of [] = []
permissions_of (t ∷ ts) = t.permissions ++ permissions_of ts

abbrev pub items_of : List Permission → List RoleTemplate → List Item
items_of rows templates = map item_of_row rows ++ map item_of_template (permissions_of templates)

module _ (p : Prisma) (now : ℕ) (user_id : String) (store_id : Option String) where
  -- `OR: [{ storeId }, { storeId: null }, { expiresAt: null }, { expiresAt: { gt: new Date() } }]`
  abbrev pub listed_row : Permission → Bool
  listed_row x =
      x.user_id == user_id
      && (in_scope p store_id x.store_id || is_live now x.expires_at)
      && x.granted

  abbrev pub listed_role : UserRole → Bool
  listed_role u = u.user_id == user_id && in_scope p store_id u.store_id && u.is_active

  abbrev pub find_rows : Db → Result (List Permission)
  find_rows db = p.find_many listed_row db.permissions

  abbrev pub find_roles : Db → Result (List UserRole)
  find_roles db = p.find_many listed_role db.user_roles

  abbrev pub answer : List Permission → List UserRole → Db → Result UserPermissions
  answer rows roles db =
      let templates = templates_of db.role_templates roles in
      ok (record {
        user_id = user_id;
        store_id = store_id;
        permissions = group_items (items_of rows templates);
        role_templates = map (λ (t : RoleTemplate). t.name) templates;
      })

  abbrev pub with_rows : List Permission → Action Db UserPermissions
  with_rows rows = query find_roles >>= λ roles. query (answer rows roles)

  unfoldable pub get_user_permissions : Action Db UserPermissions
  get_user_permissions = query find_rows >>= with_rows
