-- ===== src/Permissions/Roles/Deletion.antt =====
-- deleteRoleTemplate and createRoleTemplate of src/permissions/permissions.service.ts.
use accurack_software_backen.Common.{
  ℕ, ltb, true, false, List, [], ◌∷◌, ◌≡◌, refl, sym, ap, subst, ◌∙◌, Memᴰ, arith, length,
  Bool-cases, inl, inr, if◌then◌else◌, nat_eq,
}
use accurack_software_backen.Effect.{not_found, Result, ok, err, query, or_throw, throw_if}
use accurack_software_backen.Effect.Laws.{
  >>=-eq-ok, query-eq-ok, or_throw-eq-ok, throw_if-eq-ok, write-eq-ok,
}
use accurack_software_backen.Prisma.{Prisma, update_rows}
use accurack_software_backen.Prisma.Reads.{map_result-eq-ok, Mem-update_rows}
use accurack_software_backen.Permissions.Tables.{RoleTemplate, UserRole, Db}
use accurack_software_backen.Permissions.Roles.{
  with_role_templates, is_template, deactivated, holds_template, find_template, change_template,
  count_holders, in_use, delete_unused, delete_counted, delete_found, delete_role_template,
}

module _ (p : Prisma) where
  -- The template is there with `is_active` off and its other fields as they were, no active role has it,
  -- and the rows of other identifiers and the other tables are as they were.
  pub record Deleted (id : ℕ) (db db' : Db) : Type 0 where
    pub template : RoleTemplate
    pub listed : Memᴰ template db.role_templates
    pub named : template.id ≡ id
    pub inactive : Memᴰ (record template { is_active = false }) db'.role_templates
    pub unused :
        (r : UserRole) → Memᴰ r db.user_roles → r.role_template_id ≡ id → r.is_active ≡ false
    pub rest : db' ≡ record db {
      role_templates =
          update_rows (λ t. nat_eq t.id id) (λ t. record t { is_active = false }) db.role_templates;
    }

  empty_of_length : {A : Type 0} (xs : List A) → ltb 0 (length xs) ≡ false → xs ≡ []
  empty_of_length [] h = refl
  empty_of_length (x ∷ xs) h = ground arith

  unused_of_count :
      (id : ℕ) (db : Db) (n : ℕ)
      → count_holders p id db ≡ ok n
      → ltb 0 n ≡ false
      → (r : UserRole) → Memᴰ r db.user_roles
      → r.role_template_id ≡ id
      → r.is_active ≡ false
  unused_of_count id db n counted few r m mine = elim (Bool-cases r.is_active) [
    | inl active ↦
        let (rs, answer, same) =
          map_result-eq-ok length (p.find_many (holds_template id) db.user_roles) n counted in
        let none_found : rs ≡ [] = empty_of_length rs (ap (ltb 0) same ∙ few) in
        let meets : holds_template id r ≡ true = ground arith in
        let found : Memᴰ r rs =
          p.find_many-complete (holds_template id) db.user_roles rs r answer m meets in
        elim (subst (Memᴰ r) none_found found) [ ]
    | inr off ↦ off
  ]

  changed :
      (id : ℕ) (f : RoleTemplate → RoleTemplate) (s t : Db) (u : Unit {0})
      → change_template p id f s ≡ (ok u, t)
      → t ≡ record s { role_templates = update_rows (is_template id) f s.role_templates }
  changed id f s t u h = from (p.update (is_template id) f s.role_templates) refl (
      write-eq-ok (λ db. with_role_templates db (p.update (is_template id) f db.role_templates)) s t
        u h)
    where
      from :
          (r : Result (List RoleTemplate))
          → p.update (is_template id) f s.role_templates ≡ r
          → with_role_templates s r ≡ ok t
          → t ≡ record s { role_templates = update_rows (is_template id) f s.role_templates }
      from (ok l) a b =
          let same : t ≡ record s { role_templates = l } = cc b in
          same
          ∙ ap (λ x. record s { role_templates = x })
              (p.update-ok (is_template id) f s.role_templates l a)
      from (err e) a b = cc b

  -- Deleting a role template that returns has found it, with no active role that has it, and has set it
  -- to inactive and changed nothing else.
  pub delete_role_template-Deleted :
      (id : ℕ) (db db' : Db) (u : Unit {0})
      → delete_role_template p id db ≡ (ok u, db')
      → Deleted id db db'
  unfolding delete_role_template
  delete_role_template-Deleted id db db' u h =
      let (found, s1, asked, rest) =
        >>=-eq-ok (query (find_template p id)) (delete_found p id) db db' u h in
      let (e, at1) = query-eq-ok (find_template p id) db s1 found asked in
      let (t, s2, thrown, later) =
        >>=-eq-ok (or_throw found (not_found "Role template not found")) (delete_counted p id) s1
          db' u rest in
      let (same, at2) = or_throw-eq-ok found (not_found "Role template not found") s1 s2 t thrown in
      let (n, s3, counted, last) =
        >>=-eq-ok (query (count_holders p id)) (delete_unused p id t) s2 db' u later in
      let (c, at3) = query-eq-ok (count_holders p id) s2 s3 n counted in
      let (_, s4, passed, done) =
        >>=-eq-ok (throw_if (ltb 0 n) (in_use p t)) (λ _. change_template p id deactivated) s3 db' u
          last in
      let (few, at4) = throw_if-eq-ok (ltb 0 n) (in_use p t) s3 s4 _ passed in
      let here : s2 ≡ db = at2 ∙ at1 in
      let (m, mine) = p.find_first-some (is_template id) db.role_templates t (e ∙ ap ok same) in
      let left =
        changed id deactivated db db' u (
          subst (λ x. change_template p id deactivated x ≡ (ok u, db')) (at4 ∙ (at3 ∙ here))
            done) in
      let hit : (if is_template id t then deactivated t else t) ≡ deactivated t = rw mine in
      record {
        template = t;
        listed = m;
        named = ground arith;
        inactive = subst (Memᴰ (deactivated t)) (ap (λ (d : Db). d.role_templates) (sym left)) (
            subst (λ x. Memᴰ x (update_rows (is_template id) deactivated db.role_templates)) hit
              (Mem-update_rows (is_template id) deactivated t db.role_templates m));
        unused = unused_of_count id db n (subst (λ x. count_holders p id x ≡ ok n) here c) few;
        rest = left;
      }
