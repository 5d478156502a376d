-- ===== src/Permissions/Check/Spec.antt =====
-- What grants a permission, described by rows of the tables, and the same as a computed test.
pub mod Lookup
use accurack_software_backen.Common.{
  ℕ, String, Bool, true, Option, none, some, ◌&&◌, ◌||◌, ◌==◌, ◌≡◌, refl, ◌⊎◌, ◌≢◌, ◌↔◌, ◌<◌, inl,
  inr, any, includes, arith, Memᴰ, eq_iff, ||-true, &&-true, Mem_of_any, any_of_Mem,
}
use accurack_software_backen.Effect.{ok}
use accurack_software_backen.Prisma.{Prisma, IsReliable}
use accurack_software_backen.Prisma.Reads.{
  find_first-any, find_first-any_reliable, find_many-any, find_many-any_reliable,
}
use accurack_software_backen.Permissions.Tables.{
  Permission, TemplatePermission, RoleTemplate, UserRole, Db, ActionSpec, one, many,
}
use accurack_software_backen.Permissions.Check.{
  wildcard_row, direct_row, role_row, template_of, allowed_by, template_allows, in_scope, is_live,
  check_direct_permission, check_role_permissions, look_up_permission, find_direct, find_wildcard,
  action_is,
}

-- A row for every store, or for the store that is asked for. Where no store is asked for, it depends
-- on the client whether a row for a store is read.
abbrev pub InScope : Prisma → Option String → Option String → Type 0
InScope p asked row =
    (row ≡ none)
    ⊎ (((asked ≢ none) × (row ≡ asked)) ⊎ ((asked ≡ none) × (p.undefined_in_or ≡ true)))

-- Not expired at `now`.
abbrev pub IsLive : ℕ → Option ℕ → Type 0
IsLive now expires_at = (expires_at ≡ none) ⊎ ((t : ℕ) × (expires_at ≡ some t) × (now < t))

-- The text is the one that is asked for, or the question is a wildcard.
abbrev pub AskedFor : String → Type 0 → Type 0
AskedFor s P = (s ≡ "*") ⊎ P

pub in_scope-InScope :
    (p : Prisma) (asked row : Option String) → (in_scope p asked row ≡ true) ↔ InScope p asked row
in_scope-InScope p none none = ground arith
in_scope-InScope p none (some r) = ground arith
in_scope-InScope p (some a) none = ground arith
in_scope-InScope p (some a) (some r) = ground (arith, eq_iff r a)

pub is_live-IsLive : (now : ℕ) (e : Option ℕ) → (is_live now e ≡ true) ↔ IsLive now e
is_live-IsLive now none = ground arith
is_live-IsLive now (some t) = ground arith

module _ (p : Prisma) (now : ℕ) (user_id resource action : String) (store_id : Option String) where
  -- A row of the table `permissions` that grants the action. A question with a wildcard is also
  -- answered by a row that has expired.
  pub record IsDirectGrant (db : Db) (x : Permission) : Type 0 where
    pub listed : Memᴰ x db.permissions
    pub owner : x.user_id ≡ user_id
    pub scope : InScope p store_id x.store_id
    pub granted : x.granted ≡ true
    pub covers :
        ((x.resource ≡ resource) × (includes x.actions action ≡ true) × IsLive now x.expires_at)
        ⊎ (((resource ≡ "*") ⊎ (action ≡ "*"))
            × AskedFor resource (x.resource ≡ resource)
            × AskedFor action (includes x.actions action ≡ true))

  abbrev pub Covers : TemplatePermission → Type 0
  Covers t =
      ((t.resource ≡ resource) ⊎ (t.resource ≡ "*"))
      × ((t.action ≡ one action) ⊎ (t.action ≡ one "*"))

  -- An active role of the user, in scope, whose template itself lists the permission. What a template
  -- inherits by `inheritsFrom` does not count: the checks do not read it.
  pub record IsRoleGrant (db : Db) (u : UserRole) (t : RoleTemplate) (x : TemplatePermission)
      : Type 0 where
    pub listed : Memᴰ u db.user_roles
    pub owner : u.user_id ≡ user_id
    pub scope : InScope p store_id u.store_id
    pub active : u.is_active ≡ true
    pub template : template_of db.role_templates u ≡ some t
    pub member : Memᴰ x t.permissions
    pub covers : Covers x

  abbrev pub IsGranted : Db → Type 0
  IsGranted db =
      ((x : Permission) × IsDirectGrant db x)
      ⊎ ((u : UserRole) × (t : RoleTemplate) × (x : TemplatePermission) × IsRoleGrant db u t x)

  action_is-one : (a : String) (s : ActionSpec) → (action_is a s ≡ true) ↔ (s ≡ one a)
  action_is-one a (one b) = ground (arith, eq_iff b a)
  action_is-one a (many bs) = ground arith

  template_allows-Covers :
      (t : TemplatePermission) → (template_allows resource action t ≡ true) ↔ Covers t
  template_allows-Covers t = ground (
    arith,
    eq_iff t.resource resource,
    eq_iff t.resource "*",
    action_is-one action t.action,
    action_is-one "*" t.action,
  )

  abbrev wildcard_asked : Bool
  wildcard_asked = resource == "*" || action == "*"

  abbrev asks_directly : Permission → Bool
  asks_directly = direct_row p now user_id resource action store_id

  abbrev asks_wildcard : Permission → Bool
  asks_wildcard = wildcard_row p now user_id resource action store_id

  abbrev by_role : Db → UserRole → Bool
  by_role db u =
      role_row p now user_id resource action store_id u
      && allowed_by resource action (template_of db.role_templates u)

  pub direct_spec : Db → Bool
  direct_spec db =
      (wildcard_asked && any asks_wildcard db.permissions) || any asks_directly db.permissions

  pub role_spec : Db → Bool
  role_spec db = any (by_role db) db.user_roles

  direct_row-IsDirectGrant :
      (db : Db) (x : Permission)
      → Memᴰ x db.permissions
      → direct_row p now user_id resource action store_id x ≡ true
      → IsDirectGrant db x
  direct_row-IsDirectGrant db x m h = record {
    listed = m;
    owner = ground (arith, eq_iff x.user_id user_id);
    scope = (in_scope-InScope p store_id x.store_id).0 (ground arith);
    granted = ground arith;
    covers = inl (
      ground (arith, eq_iff x.resource resource),
      ground arith,
      (is_live-IsLive now x.expires_at).0 (ground arith),
    );
  }

  wildcard_row-IsDirectGrant :
      (db : Db) (x : Permission)
      → Memᴰ x db.permissions
      → wildcard_asked ≡ true
      → wildcard_row p now user_id resource action store_id x ≡ true
      → IsDirectGrant db x
  wildcard_row-IsDirectGrant db x m w h = record {
    listed = m;
    owner = ground (arith, eq_iff x.user_id user_id);
    scope = (in_scope-InScope p store_id x.store_id).0 (ground arith);
    granted = ground arith;
    covers = inr (
      ground (arith, eq_iff resource "*", eq_iff action "*"),
      ground (arith, eq_iff resource "*", eq_iff x.resource resource),
      ground (arith, eq_iff action "*"),
    );
  }

  pub direct_spec-IsGranted :
      (db : Db) → direct_spec db ≡ true → (x : Permission) × IsDirectGrant db x
  unfolding direct_spec
  direct_spec-IsGranted db h =
      elim (||-true (wildcard_asked && any asks_wildcard db.permissions)
        (any asks_directly db.permissions) h) [
          | inl w ↦
              let (x, m, e) = Mem_of_any asks_wildcard db.permissions (ground arith) in
              (x, wildcard_row-IsDirectGrant db x m (ground arith) e)
          | inr d ↦
              let (x, m, e) = Mem_of_any asks_directly db.permissions d in
              (x, direct_row-IsDirectGrant db x m e)
        ]

  IsDirectGrant-asks :
      (db : Db) (x : Permission)
      → IsDirectGrant db x
      → (asks_directly x ≡ true) ⊎ ((wildcard_asked ≡ true) × (asks_wildcard x ≡ true))
  IsDirectGrant-asks db x g = ground (
    arith,
    g.owner,
    g.covers,
    g.granted,
    (in_scope-InScope p store_id x.store_id).1 g.scope,
    is_live-IsLive now x.expires_at,
    eq_iff x.user_id user_id,
    eq_iff x.resource resource,
    eq_iff resource "*",
    eq_iff action "*",
  )

  pub IsDirectGrant-direct_spec :
      (db : Db) (x : Permission) → IsDirectGrant db x → direct_spec db ≡ true
  unfolding direct_spec
  IsDirectGrant-direct_spec db x g = elim (IsDirectGrant-asks db x g) [
    | inl d ↦ ground (arith, any_of_Mem asks_directly x db.permissions g.listed d)
    | inr (asked, w) ↦ ground (arith, any_of_Mem asks_wildcard x db.permissions g.listed w)
  ]

  allowed_by-Covers :
      (o : Option RoleTemplate)
      → allowed_by resource action o ≡ true
      → (t : RoleTemplate) × (x : TemplatePermission) × (o ≡ some t)
        × Memᴰ x t.permissions
        × Covers x
  allowed_by-Covers none h = cc
  allowed_by-Covers (some t) h =
      let (x, m, e) = Mem_of_any (template_allows resource action) t.permissions h in
      (t, x, refl, m, (template_allows-Covers x).0 e)

  pub role_spec-IsGranted :
      (db : Db)
      → role_spec db ≡ true
      → (u : UserRole) × (t : RoleTemplate) × (x : TemplatePermission) × IsRoleGrant db u t x
  unfolding role_spec
  role_spec-IsGranted db h =
      let (u, m, e) = Mem_of_any (by_role db) db.user_roles h in
      let (t, x, same, m', c) =
        allowed_by-Covers (template_of db.role_templates u)
          (&&-true (role_row p now user_id resource action store_id u)
            (allowed_by resource action (template_of db.role_templates u)) e).1 in
      (
        u,
        t,
        x,
        record {
          listed = m;
          owner = ground (arith, eq_iff u.user_id user_id);
          scope = (in_scope-InScope p store_id u.store_id).0 (ground arith);
          active = ground arith;
          template = same;
          member = m';
          covers = c;
        },
      )

  pub IsRoleGrant-role_spec :
      (db : Db) (u : UserRole) (t : RoleTemplate) (x : TemplatePermission)
      → IsRoleGrant db u t x
      → role_spec db ≡ true
  unfolding role_spec
  IsRoleGrant-role_spec db u t x g = any_of_Mem (by_role db) u db.user_roles g.listed (
      rw
        (
          g.template,
          any_of_Mem (template_allows resource action) x t.permissions g.member
              ((template_allows-Covers x).1 g.covers),
        )
        (ground (
          arith,
          g.owner,
          g.active,
          eq_iff u.user_id user_id,
          (in_scope-InScope p store_id u.store_id).1 g.scope,
        )))
