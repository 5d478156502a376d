-- ===== src/Permissions/Roles/Tests.antt =====
-- Role templates, as in src/permissions/permissions.service.ts, on a database in memory.
use accurack_software_backen.Common.{
  ◌+◌, true, false, none, some, [], ◌∷◌, ◌≡◌, ◌≢◌, refl, sym, ap, ◌∙◌, inl, Memᴰ, length,
}
use accurack_software_backen.Effect.{ok, for_each}
use accurack_software_backen.Prisma.Memory.{memory, memory-IsReliable}
use accurack_software_backen.Permissions.Tables.{RoleTemplate, UserRole, Db, one}
use accurack_software_backen.Permissions.Check.{has_permission}
use accurack_software_backen.Permissions.Check.Tests.{clerk, clerk_of_ann, shop}
use accurack_software_backen.Permissions.Roles.{
  AssignRoleTemplateDto, assign_role_template, upsert_role, delete_role_template, deactivated,
}
use accurack_software_backen.Permissions.Roles.Defaults.{assign_default_permissions}
use accurack_software_backen.Permissions.Roles.Assignment.{NoBlank}
use accurack_software_backen.Permissions.Roles.Granted.{
  UniqueTemplates, assign_role_template-has_permission, assign_role_template_adds,
}
use accurack_software_backen.Permissions.Roles.Deletion.{Deleted, delete_role_template-Deleted}

abbrev new_clerks : AssignRoleTemplateDto
new_clerks = record { user_ids = "ann" ∷ "eve" ∷ []; role_template_id = 5; store_id = none }

abbrev after_assign : Db
after_assign = (assign_role_template (memory true) 6 new_clerks "bob" shop).1

assigned : assign_role_template (memory true) 6 new_clerks "bob" shop ≡ (ok tt, after_assign)
unfolding assign_role_template upsert_role for_each
assigned = refl

-- Ann has the role twice now.
three_rows : length after_assign.user_roles ≡ 3
unfolding assign_role_template upsert_role for_each
three_rows = refl

no_blank : NoBlank shop
no_blank r m e = missing (ap (λ (x : UserRole). x.store_id) (sym (only r m)) ∙ e)
  where
    only : (r : UserRole) → Memᴰ r (clerk_of_ann ∷ []) → r ≡ clerk_of_ann
    only r (Memᴰ.head e) = e
    only r (Memᴰ.tail m) = elim m [ ]

    missing : clerk_of_ann.store_id ≢ some ""
    missing e = cc e

unique : UniqueTemplates shop.role_templates
unique x y mx my e = only x mx ∙ sym (only y my)
  where
    only : (t : RoleTemplate) → Memᴰ t (clerk ∷ []) → t ≡ clerk
    only t (Memᴰ.head e) = e
    only t (Memᴰ.tail m) = elim m [ ]

assign_role_template-has_permission_example :
    has_permission (memory true) 7 "eve" "sale" "create" (some "s1") after_assign
    ≡ (ok true, after_assign)
assign_role_template-has_permission_example =
    assign_role_template-has_permission (memory true) 6 new_clerks "bob" 7 shop after_assign clerk
      (record {
        resource = "sale";
        action = one "create";
        store_id = none;
        resource_id = none;
        conditions = none;
        expires_at = none;
      })
      "eve" "sale" "create" (some "s1") (memory-IsReliable true) unique no_blank assigned
      (Memᴰ.tail (Memᴰ.head refl)) (Memᴰ.head refl) refl (Memᴰ.head refl) (inl refl, inl refl)
      (inl refl)

assign_role_template_adds_example : length after_assign.user_roles ≡ 2 + 1
assign_role_template_adds_example =
    assign_role_template_adds (memory true) 6 new_clerks "bob" shop after_assign no_blank refl
      assigned

abbrev quiet_shop : Db
quiet_shop = record shop { user_roles = record clerk_of_ann { is_active = false } ∷ [] }

abbrev after_delete : Db
after_delete = record quiet_shop { role_templates = deactivated clerk ∷ [] }

deleted : delete_role_template (memory true) 5 quiet_shop ≡ (ok tt, after_delete)
unfolding delete_role_template
deleted = refl

-- No template is a default one: the new user gets no role.
no_default : assign_default_permissions (memory true) 6 "ann" none shop ≡ (ok tt, shop)
unfolding assign_default_permissions
no_default = refl

delete_role_template-Deleted_example : Deleted (memory true) 5 quiet_shop after_delete
delete_role_template-Deleted_example =
    delete_role_template-Deleted (memory true) 5 quiet_shop after_delete tt deleted
