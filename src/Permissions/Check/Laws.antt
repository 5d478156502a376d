-- ===== src/Permissions/Check/Laws.antt =====
-- The permission check of src/permissions/permissions.service.ts against the description of the grants.
use accurack_software_backen.Common.{
  ℕ, String, Bool, true, false, Option, ◌||◌, ◌≡◌, refl, ◌↔◌, ◌≢◌, inl, inr, arith, ||-true, ap,
  ◌∙◌, if◌then◌else◌,
}
use accurack_software_backen.Effect.{Result, ok, err}
use accurack_software_backen.Prisma.{Prisma, IsReliable}
use accurack_software_backen.Permissions.Tables.{
  Db, Permission, UserRole, RoleTemplate, TemplatePermission,
}
use accurack_software_backen.Permissions.Check.{
  find_direct, find_wildcard, look_up_permission, has_permission, false_on_error, check_permission,
  answer, direct, role, PermissionCheck,
}
use accurack_software_backen.Permissions.Check.Spec.{
  IsGranted, IsDirectGrant, direct_spec, role_spec, direct_spec-IsGranted,
  IsDirectGrant-direct_spec, role_spec-IsGranted, IsRoleGrant, IsRoleGrant-role_spec,
}
use accurack_software_backen.Permissions.Check.Spec.Lookup.{
  check_direct_permission-returns, look_up_permission-returns, look_up_permission_sound,
}

module _ (p : Prisma) (now : ℕ) (user_id resource action : String) (store_id : Option String) where
  spec-IsGranted :
      (db : Db)
      → (direct_spec p now user_id resource action store_id db
          || role_spec p now user_id resource action store_id db)
        ≡ true
      → IsGranted p now user_id resource action store_id db
  spec-IsGranted db h =
      elim (||-true (direct_spec p now user_id resource action store_id db)
        (role_spec p now user_id resource action store_id db) h) [
          | inl d ↦ inl (direct_spec-IsGranted p now user_id resource action store_id db d)
          | inr r ↦ inr (role_spec-IsGranted p now user_id resource action store_id db r)
        ]

  IsGranted-spec :
      (db : Db)
      → IsGranted p now user_id resource action store_id db
      → (direct_spec p now user_id resource action store_id db
          || role_spec p now user_id resource action store_id db)
        ≡ true
  IsGranted-spec db (inl (x, g)) =
      let e = IsDirectGrant-direct_spec p now user_id resource action store_id db x g in
      ground arith
  IsGranted-spec db (inr (u, t, x, g)) =
      let e = IsRoleGrant-role_spec p now user_id resource action store_id db u t x g in
      ground arith

  false_on_error-true :
      (o : Result Bool × Db) {db' : Db} → false_on_error o ≡ (ok true, db') → o ≡ (ok true, db')
  false_on_error-true (ok b, s) h = h
  false_on_error-true (err e, s) h = cc

  -- Whatever the database does, a user is let through only by a row that grants the action: a
  -- failing query never grants.
  pub has_permission_sound :
      (db db' : Db)
      → has_permission p now user_id resource action store_id db ≡ (ok true, db')
      → IsGranted p now user_id resource action store_id db
  unfolding has_permission
  has_permission_sound db db' h = spec-IsGranted db (
      look_up_permission_sound p now user_id resource action store_id db db'
        (false_on_error-true _ h))

  false_on_error-ok : (o : Result Bool × Db) → (b : Bool) × (false_on_error o ≡ (ok b, o.1))
  false_on_error-ok (ok b, s) = (b, refl)
  false_on_error-ok (err e, s) = (false, refl)

  look_up_permission-reads :
      (db : Db) → (look_up_permission p now user_id resource action store_id db).1 ≡ db
  unfolding look_up_permission find_direct find_wildcard
  look_up_permission-reads db = ground arith

  -- The check never throws and never writes, also where a query fails.
  pub has_permission_total :
      (db : Db)
      → (b : Bool) × (has_permission p now user_id resource action store_id db ≡ (ok b, db))
  unfolding has_permission
  has_permission_total db =
      let (b, e) =
        false_on_error-ok (look_up_permission p now user_id resource action store_id db) in
      (b, e ∙ ap (λ s. (ok b, s)) (look_up_permission-reads db))

  -- With a database that answers its queries, the check says yes exactly where a row of the permissions
  -- grants, or the template of an active role lists the permission itself: what a template inherits from
  -- another one does not count.
  pub has_permission_iff :
      (db : Db)
      → IsReliable p
      → (has_permission p now user_id resource action store_id db ≡ (ok true, db))
        ↔ IsGranted p now user_id resource action store_id db
  unfolding has_permission
  has_permission_iff db good = (
    has_permission_sound db db,
    λ g.
        rw
          (
            look_up_permission-returns p now user_id resource action store_id db good,
            IsGranted-spec db g,
          )
          refl,
  )

  -- The answer that `check_permission` gives: the source of a grant is `direct` if a row of the
  -- permissions grants it and `role` otherwise; a denied request is reported as `direct`.
  abbrev pub expected : (by_row by_role : Bool) → PermissionCheck
  expected by_row by_role = record {
    has_permission = by_row || by_role;
    resource = resource;
    action = action;
    store_id = store_id;
    source = if by_row then direct else if by_role then role else direct;
  }

  is_role : (d r : Bool) → (expected d r).source ≡ role → d ≢ true
  is_role d r h = ground arith

  is_role_granted : (d r : Bool) → (expected d r).source ≡ role → r ≡ true
  is_role_granted d r h = ground arith

  is_role_source : (d r : Bool) → d ≢ true → r ≡ true → (expected d r).source ≡ role
  is_role_source d r h k = ground arith

  -- With a database that answers its queries, `check_permission` answers yes exactly where a row of the
  -- permissions grants, or the template of an active role lists the permission itself, which what it
  -- inherits from another does not make it do; and it names a role as the source exactly where no row of
  -- the permissions grants and a role does.
  pub check_permission_iff :
      (db : Db)
      → IsReliable p
      → (c : PermissionCheck) × (check_permission p now user_id resource action store_id db
          ≡ (ok c, db))
        × ((c.has_permission ≡ true) ↔ IsGranted p now user_id resource action store_id db)
        × ((c.source ≡ role) ↔ (
            (¬ ((x : Permission) × IsDirectGrant p now user_id resource action store_id db x))
            × ((u : UserRole) × (t : RoleTemplate) × (x : TemplatePermission) × IsRoleGrant p now
                  user_id resource action store_id db u t x)))
  unfolding check_permission has_permission answer
  check_permission_iff db good =
      let d = direct_spec p now user_id resource action store_id db in
      let r = role_spec p now user_id resource action store_id db in
      (
        expected d r,
        ground (
          arith,
          look_up_permission-returns p now user_id resource action store_id db good,
          check_direct_permission-returns p now user_id resource action store_id db good,
        ),
        (spec-IsGranted db, IsGranted-spec db),
        (
          λ h. (
            λ (x, g). absurd (
                is_role d r h
                  (IsDirectGrant-direct_spec p now user_id resource action store_id db x g)),
            role_spec-IsGranted p now user_id resource action store_id db (is_role_granted d r h),
          ),
          λ (no_row, (u, t, x, g)).
              is_role_source d r
                (λ e. no_row (direct_spec-IsGranted p now user_id resource action store_id db e))
                (IsRoleGrant-role_spec p now user_id resource action store_id db u t x g),
        ),
      )
