-- ===== src/Permissions/Check/AtStore.antt =====
-- The check for one store: access to the store first, then the rows in their order of precedence.
use accurack_software_backen.Common.{
  ℕ, String, Bool, true, false, Option, none, some, ◌≡◌, ◌↔◌, ◌⊎◌, inl, inr, arith, Memᴰ, any,
  Mem_of_any, any_of_Mem, ◌&&◌, ◌==◌, eq_iff, same_text-eq, same_text_self, includes,
}
use accurack_software_backen.Effect.{ok}
use accurack_software_backen.Prisma.{Prisma, IsReliable}
use accurack_software_backen.Prisma.Reads.{find_first-any_reliable}
use accurack_software_backen.Permissions.Tables.{
  Db, Permission, UserRole, RoleTemplate, TemplatePermission, UserStoreMap,
}
use accurack_software_backen.Permissions.Check.{
  check_user_store_permission, has_store_access, find_scoped, scoped_row, answer_for,
  StorePermissionCheck, global, store, nothing,
}
use accurack_software_backen.Permissions.Check.Spec.{
  IsLive, is_live-IsLive, IsRoleGrant, role_spec, role_spec-IsGranted, IsRoleGrant-role_spec,
}
use accurack_software_backen.Permissions.Check.Spec.Lookup.{check_role_permissions-returns}

module _ (p : Prisma) (now : ℕ) (user_id store_id resource action : String) where
  -- The user is mapped to the store.
  abbrev pub HasAccess : Db → Type 0
  HasAccess db =
      (m : UserStoreMap) × Memᴰ m db.user_store_map
      × (m.user_id ≡ user_id)
      × (m.store_id ≡ store_id)

  -- A row with exactly this scope that grants the action and has not expired.
  pub record IsScopedGrant (db : Db) (asked : Option String) (x : Permission) : Type 0 where
    pub listed : Memᴰ x db.permissions
    pub owner : x.user_id ≡ user_id
    pub scope : x.store_id ≡ asked
    pub kind : x.resource ≡ resource
    pub covers : includes x.actions action ≡ true
    pub granted : x.granted ≡ true
    pub live : IsLive now x.expires_at

  abbrev maps : UserStoreMap → Bool
  maps m = m.user_id == user_id && m.store_id == store_id

  abbrev access : Db → Bool
  access db = any maps db.user_store_map

  abbrev scoped : Option String → Db → Bool
  scoped scope db = any (scoped_row p now user_id store_id resource action scope) db.permissions

  abbrev by_role : Db → Bool
  by_role = role_spec p now user_id resource action (some store_id)

  access-HasAccess : (db : Db) → (access db ≡ true) ↔ HasAccess db
  access-HasAccess db = (
    λ h.
        let (m, listed, e) = Mem_of_any maps db.user_store_map h in
        (
          m,
          listed,
          ground (arith, eq_iff m.user_id user_id),
          ground (arith, eq_iff m.store_id store_id),
        ),
    λ (m, listed, u, s).
        any_of_Mem maps m db.user_store_map listed
          (ground (arith, eq_iff m.user_id user_id, eq_iff m.store_id store_id)),
  )

  scoped-IsScopedGrant :
      (db : Db) (scope : Option String)
      → (scoped scope db ≡ true) ↔ ((x : Permission) × IsScopedGrant db scope x)
  scoped-IsScopedGrant db scope = (
    λ h.
        let (x, m, e) =
          Mem_of_any (scoped_row p now user_id store_id resource action scope) db.permissions h in
        (
          x,
          record {
            listed = m;
            owner = ground (arith, eq_iff x.user_id user_id);
            scope = same_text-eq x.store_id scope (ground arith);
            kind = ground (arith, eq_iff x.resource resource);
            covers = ground arith;
            granted = ground arith;
            live = (is_live-IsLive now x.expires_at).0 (ground arith);
          },
        ),
    λ (x, g).
        any_of_Mem (scoped_row p now user_id store_id resource action scope) x db.permissions
          g.listed
          (ground (
            arith,
            g.owner,
            g.kind,
            g.covers,
            g.granted,
            eq_iff x.user_id user_id,
            eq_iff x.resource resource,
            (is_live-IsLive now x.expires_at).1 g.live,
            same_text_self scope,
            g.scope,
          )),
  )

  abbrev outcome : (access everywhere here role : Bool) → StorePermissionCheck
  outcome false _ _ _ = answer_for p now user_id store_id resource action false nothing
  outcome true true _ _ = answer_for p now user_id store_id resource action true global
  outcome true false true _ = answer_for p now user_id store_id resource action true store
  outcome true false false true = answer_for p now user_id store_id resource action true store
  outcome true false false false = answer_for p now user_id store_id resource action false nothing

  check_user_store_permission-returns :
      (db : Db)
      → IsReliable p
      → check_user_store_permission p now user_id store_id resource action db
        ≡ (ok (outcome (access db) (scoped none db) (scoped (some store_id) db) (by_role db)), db)
  unfolding check_user_store_permission has_store_access find_scoped
  check_user_store_permission-returns db good = ground (
    arith,
    find_first-any_reliable p maps db.user_store_map good,
    find_first-any_reliable p (scoped_row p now user_id store_id resource action none)
        db.permissions good,
    find_first-any_reliable p (scoped_row p now user_id store_id resource action (some store_id))
        db.permissions good,
    check_role_permissions-returns p now user_id resource action (some store_id) db good,
  )

  allowed_outcome :
      (a e h r : Bool)
      → ((outcome a e h r).has_permission ≡ true)
        ↔ ((a ≡ true) × ((e ≡ true) ⊎ ((h ≡ true) ⊎ (r ≡ true))))
  unfolding answer_for
  allowed_outcome a e h r = ground arith

  global_outcome :
      (a e h r : Bool) → ((outcome a e h r).source ≡ global) ↔ ((a ≡ true) × (e ≡ true))
  unfolding answer_for
  global_outcome a e h r = ground arith

  -- What may grant the action in the store: a row for every store, a row for this store, or a role.
  abbrev pub Granted : Db → Type 0
  Granted db =
      ((x : Permission) × IsScopedGrant db none x)
      ⊎ (((x : Permission) × IsScopedGrant db (some store_id) x)
          ⊎ ((u : UserRole) × (t : RoleTemplate) × (x : TemplatePermission) × IsRoleGrant p now
                user_id resource action (some store_id) db u t x))

  Granted-tests :
      (db : Db)
      → ((scoped none db ≡ true) ⊎ ((scoped (some store_id) db ≡ true) ⊎ (by_role db ≡ true)))
        ↔ Granted db
  Granted-tests db = (
    λ g. elim g [
      | inl e ↦ inl ((scoped-IsScopedGrant db none).0 e)
      | inr (inl h) ↦ inr (inl ((scoped-IsScopedGrant db (some store_id)).0 h))
      | inr (inr r) ↦
          inr (inr (role_spec-IsGranted p now user_id resource action (some store_id) db r))
    ],
    λ g. elim g [
      | inl e ↦ inl ((scoped-IsScopedGrant db none).1 e)
      | inr (inl h) ↦ inr (inl ((scoped-IsScopedGrant db (some store_id)).1 h))
      | inr (inr (u, t, x, r)) ↦
          inr (inr (IsRoleGrant-role_spec p now user_id resource action (some store_id) db u t x r))
    ],
  )

  -- With a database that answers its queries, the check for a store says yes exactly if the user is
  -- mapped to the store and a live row for every store, a live row for this store, or a template of
  -- a role that lists the permission itself, not by inheritance, grants the action; it names the source `global` exactly if the user is mapped and a row for every store
  -- grants; it writes nothing.
  pub check_user_store_permission_iff :
      (db : Db)
      → IsReliable p
      → (c : StorePermissionCheck) × (check_user_store_permission p now user_id store_id resource
            action db
          ≡ (ok c, db))
        × ((c.has_permission ≡ true) ↔ (HasAccess db × Granted db))
        × ((c.source ≡ global) ↔ (HasAccess db × ((x : Permission) × IsScopedGrant db none x)))
  check_user_store_permission_iff db good = (
    outcome (access db) (scoped none db) (scoped (some store_id) db) (by_role db),
    check_user_store_permission-returns db good,
    (
      λ h.
          let (a, g) =
            (allowed_outcome (access db) (scoped none db) (scoped (some store_id) db)
                (by_role db)).0
              h in
          ((access-HasAccess db).0 a, (Granted-tests db).0 g),
      λ (a, g).
          (allowed_outcome (access db) (scoped none db) (scoped (some store_id) db) (by_role db)).1
            ((access-HasAccess db).1 a, (Granted-tests db).1 g),
    ),
    (
      λ h.
          let (a, g) =
            (global_outcome (access db) (scoped none db) (scoped (some store_id) db) (by_role db)).0
              h in
          ((access-HasAccess db).0 a, (scoped-IsScopedGrant db none).0 g),
      λ (a, g).
          (global_outcome (access db) (scoped none db) (scoped (some store_id) db) (by_role db)).1
            ((access-HasAccess db).1 a, (scoped-IsScopedGrant db none).1 g),
    ),
  )
