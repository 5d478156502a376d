-- ===== src/Permissions/Check/Spec/Lookup.antt =====
-- The lookups of src/permissions/permissions.service.ts compute the tests that describe a grant.
use accurack_software_backen.Common.{ℕ, String, true, Option, ◌||◌, ◌≡◌, arith}
use accurack_software_backen.Effect.{ok}
use accurack_software_backen.Prisma.{Prisma, IsReliable}
use accurack_software_backen.Prisma.Reads.{
  find_first-any, find_first-any_reliable, find_many-any, find_many-any_reliable,
}
use accurack_software_backen.Permissions.Tables.{Db}
use accurack_software_backen.Permissions.Check.{
  wildcard_row, direct_row, role_row, template_of, allowed_by, check_direct_permission,
  check_role_permissions, look_up_permission, find_direct, find_wildcard,
}
use accurack_software_backen.Permissions.Check.Spec.{direct_spec, role_spec}

module _ (p : Prisma) (now : ℕ) (user_id resource action : String) (store_id : Option String) where
  pub check_direct_permission-returns :
      (db : Db)
      → IsReliable p
      → check_direct_permission p now user_id resource action store_id db
        ≡ (ok (direct_spec p now user_id resource action store_id db), db)
  unfolding check_direct_permission find_direct find_wildcard direct_spec
  check_direct_permission-returns db good = ground (
    arith,
    find_first-any_reliable p (wildcard_row p now user_id resource action store_id) db.permissions
        good,
    find_first-any_reliable p (direct_row p now user_id resource action store_id) db.permissions
        good,
  )

  pub check_role_permissions-returns :
      (db : Db)
      → IsReliable p
      → check_role_permissions p now user_id resource action store_id db
        ≡ (ok (role_spec p now user_id resource action store_id db), db)
  unfolding check_role_permissions role_spec
  check_role_permissions-returns db good = ground (
    arith,
    find_many-any_reliable p (role_row p now user_id resource action store_id) db.user_roles
        (λ u. allowed_by resource action (template_of db.role_templates u)) good,
  )

  -- The database answers: direct grants first, then roles.
  pub look_up_permission-returns :
      (db : Db)
      → IsReliable p
      → look_up_permission p now user_id resource action store_id db ≡ (
        ok (
            direct_spec p now user_id resource action store_id db
            || role_spec p now user_id resource action store_id db),
        db,
      )
  unfolding look_up_permission find_direct find_wildcard direct_spec role_spec
  look_up_permission-returns db good = ground (
    arith,
    find_first-any_reliable p (wildcard_row p now user_id resource action store_id) db.permissions
        good,
    find_first-any_reliable p (direct_row p now user_id resource action store_id) db.permissions
        good,
    find_many-any_reliable p (role_row p now user_id resource action store_id) db.user_roles
        (λ u. allowed_by resource action (template_of db.role_templates u)) good,
  )

  pub look_up_permission_sound :
      (db db' : Db)
      → look_up_permission p now user_id resource action store_id db ≡ (ok true, db')
      → (direct_spec p now user_id resource action store_id db
          || role_spec p now user_id resource action store_id db)
        ≡ true
  unfolding look_up_permission find_direct find_wildcard direct_spec role_spec
  look_up_permission_sound db db' h = ground (
    arith,
    find_first-any p (wildcard_row p now user_id resource action store_id) db.permissions true,
    find_first-any p (direct_row p now user_id resource action store_id) db.permissions true,
    find_many-any p (role_row p now user_id resource action store_id) db.user_roles
        (λ u. allowed_by resource action (template_of db.role_templates u)) true,
  )
