-- ===== src/Permissions/Roles/Granted.antt =====
-- assignRoleTemplate of src/permissions/permissions.service.ts for all its users, and the checks after it.
use accurack_software_backen.Common.{
  ℕ, suc, ◌+◌, String, true, false, Option, none, some, List, [], ◌∷◌, ◌≡◌, ◌≢◌, ◌⊎◌, inl, inr,
  refl, sym, ap, subst, ◌∙◌, Memᴰ, arith, nat_eq, given_text, length, find, or_else, same_text-eq,
  Bool-cases,
}
use accurack_software_backen.Effect.{not_found, Result, ok, query, or_throw, for_each}
use accurack_software_backen.Effect.Laws.{
  >>=-eq-ok, query-eq-ok, or_throw-eq-ok, for_each-cons, Establishes, for_each-keeps,
}
use accurack_software_backen.Prisma.{Prisma, IsReliable}
use accurack_software_backen.Permissions.Tables.{TemplatePermission, RoleTemplate, UserRole, Db}
use accurack_software_backen.Permissions.Check.{has_permission}
use accurack_software_backen.Permissions.Check.Spec.{Covers, InScope}
use accurack_software_backen.Permissions.Check.Laws.{has_permission_iff}
use accurack_software_backen.Permissions.Roles.{
  AssignRoleTemplateDto, find_template, is_template, upsert_role, assign_found,
  assign_role_template, role_key,
}
use accurack_software_backen.Permissions.Roles.Assignment.{
  NoBlank, HasRole, Saved, inserted, updated, upsert_role-Saved, Saved-HasRole, Saved-holds,
  Saved-NoBlank, Saved-templates,
}

abbrev pub UniqueTemplates : List RoleTemplate → Type 0
UniqueTemplates t = (x y : RoleTemplate) → Memᴰ x t → Memᴰ y t → x.id ≡ y.id → x ≡ y

same_id : (a b c : ℕ) → nat_eq a c ≡ true → b ≡ c → a ≡ b
same_id a b c h e = ground arith

-- The search by an identifier finds the template that has it.
find_unique :
    (id : ℕ) (t : RoleTemplate) (l : List RoleTemplate)
    → UniqueTemplates l
    → Memᴰ t l
    → t.id ≡ id
    → find (λ x. nat_eq x.id id) l ≡ some t
find_unique id t [] unique m e = elim m [ ]
find_unique id t (x ∷ l) unique m e = elim (Bool-cases (nat_eq x.id id)) [
  | inl h ↦
      let hit : find (λ y. nat_eq y.id id) (x ∷ l) ≡ some x = rw h in
      hit ∙ ap some (unique x t (Memᴰ.head refl) m (same_id x.id t.id id h e))
  | inr h ↦
      let miss : find (λ y. nat_eq y.id id) (x ∷ l) ≡ find (λ y. nat_eq y.id id) l = rw h in
      miss
      ∙ find_unique id t l (λ a b ma mb. unique a b (Memᴰ.tail ma) (Memᴰ.tail mb)) (later m h) e
]
  where
    later : Memᴰ t (x ∷ l) → nat_eq x.id id ≡ false → Memᴰ t l
    later (Memᴰ.head same) h = absurd (clash (ap (λ (y : RoleTemplate). y.id) (sym same) ∙ e) h)
      where
        clash : x.id ≡ id → nat_eq x.id id ≡ false → ⊥
        clash a b = ground arith
    later (Memᴰ.tail m') h = m'

module _ (p : Prisma) (now : ℕ) (dto : AssignRoleTemplateDto) (by : String) where
  abbrev Ready : List RoleTemplate → Db → Type 0
  Ready templates db = NoBlank db × (db.role_templates ≡ templates)

  upsert_role-Establishes :
      (templates : List RoleTemplate)
      → Establishes
          (upsert_role p now dto by)
          (Ready templates)
          (HasRole p now dto by)
          (λ user_id b. user_id ≡ b)
  upsert_role-Establishes templates = record {
    keeps = λ x s t u h i.
        let k = upsert_role-Saved p now dto by x s t u h in
        (Saved-NoBlank p now dto by x s t k i.0, Saved-templates p now dto by x s t k ∙ i.1);
    sets = λ x s t u h i b same.
        subst (λ y. HasRole p now dto by y t) same
          (Saved-HasRole p now dto by x s t i.0 (upsert_role-Saved p now dto by x s t u h));
    holds = λ x s t u h i b q.
        Saved-holds p now dto by x b s t (upsert_role-Saved p now dto by x s t u h) q;
  }

  pub record Assigned (db db' : Db) : Type 0 where
    pub template : RoleTemplate
    pub listed : Memᴰ template db.role_templates
    pub id : template.id ≡ dto.role_template_id
    pub templates : db'.role_templates ≡ db.role_templates
    pub blank : NoBlank db'
    pub roles : (user_id : String) → Memᴰ user_id dto.user_ids → HasRole p now dto by user_id db'

  assigned_loop :
      (db db' : Db) (u : Unit {0})
      → assign_role_template p now dto by db ≡ (ok u, db')
      → (t : RoleTemplate) × (find_template p dto.role_template_id db ≡ ok (some t))
        × (for_each (upsert_role p now dto by) dto.user_ids db ≡ (ok u, db'))
  unfolding assign_role_template
  assigned_loop db db' u h =
      let (found, s1, asked, rest) =
        >>=-eq-ok (query (find_template p dto.role_template_id)) (assign_found p now dto by) db db'
          u h in
      let (e, at1) = query-eq-ok (find_template p dto.role_template_id) db s1 found asked in
      let (t, s2, thrown, last) =
        >>=-eq-ok (or_throw found (not_found "Role template not found"))
          (λ _. p.transaction (for_each (upsert_role p now dto by) dto.user_ids)) s1 db' u rest in
      let (same, at2) = or_throw-eq-ok found (not_found "Role template not found") s1 s2 t thrown in
      let looped =
        p.transaction-ok (for_each (upsert_role p now dto by) dto.user_ids) s2 db' u last in
      (
        t,
        e ∙ ap ok same,
        subst (λ x. for_each (upsert_role p now dto by) dto.user_ids x ≡ (ok u, db')) (at2 ∙ at1)
            looped,
      )

  pub assign_role_template-Assigned :
      (db db' : Db) (u : Unit {0})
      → NoBlank db
      → assign_role_template p now dto by db ≡ (ok u, db')
      → Assigned db db'
  assign_role_template-Assigned db db' u blank h =
      let (t, found, looped) = assigned_loop db db' u h in
      let (m, mine) =
        p.find_first-some (is_template dto.role_template_id) db.role_templates t found in
      let (i, _, each) =
        for_each-keeps (upsert_role p now dto by) (Ready db.role_templates) (HasRole p now dto by)
          (λ user_id b. user_id ≡ b) (upsert_role-Establishes db.role_templates) dto.user_ids db db'
          u looped (blank, refl) in
      record {
        template = t;
        listed = m;
        id = ground arith;
        templates = i.1;
        blank = i.0;
        roles = λ user_id m. each user_id user_id m refl;
      }

  -- After an assignment of a role template that returned, a check of any action that the template lists
  -- says yes for each of the users: for every store if the request names none, else for the store that
  -- it names. The database answers, identifiers of templates are unique, and no role is stored for the
  -- empty text.
  pub assign_role_template-has_permission :
      (later : ℕ) (db db' : Db) (t : RoleTemplate) (x : TemplatePermission)
      (user_id resource action : String) (asked : Option String)
      → IsReliable p
      → UniqueTemplates db.role_templates
      → NoBlank db
      → assign_role_template p now dto by db ≡ (ok tt, db')
      → Memᴰ user_id dto.user_ids
      → Memᴰ t db.role_templates
      → t.id ≡ dto.role_template_id
      → Memᴰ x t.permissions
      → Covers p later user_id resource action asked x
      → (given_text dto.store_id ≡ none) ⊎ ((asked ≢ none) × (given_text dto.store_id ≡ asked))
      → has_permission p later user_id resource action asked db' ≡ (ok true, db')
  assign_role_template-has_permission later db db' t x user_id resource action asked good unique
        blank h listed mt named mx covers scope =
      let k = assign_role_template-Assigned db db' tt blank h in
      let role = k.roles user_id listed in
      (has_permission_iff p later user_id resource action asked db' good).1 (
        inr (
          role.row,
          t,
          x,
          record {
            listed = role.listed;
            owner = role.owner;
            scope = within role.row.store_id role.store scope;
            active = role.active;
            template =
                find_unique role.row.role_template_id t db'.role_templates
                  (subst UniqueTemplates (sym k.templates) unique)
                  (subst (Memᴰ t) (sym k.templates) mt) (named ∙ sym role.template);
            member = mx;
            covers = covers;
          },
        ))
    where
      within :
          (row : Option String)
          → row ≡ given_text dto.store_id
          → (given_text dto.store_id ≡ none) ⊎ ((asked ≢ none) × (given_text dto.store_id ≡ asked))
          → InScope p asked row
      within row e (inl n) = inl (e ∙ n)
      within row e (inr (some_store, same)) = inr (inl (some_store, e ∙ same))

  -- With no store, the key of the upsert meets no row that the service stores.
  no_key :
      (user_id : String) (s : Db) (r : UserRole) (A : Type 0)
      → NoBlank s
      → given_text dto.store_id ≡ none
      → Memᴰ r s.user_roles
      → role_key user_id dto.role_template_id dto.store_id r ≡ true
      → A
  no_key user_id s r A blank everywhere m h =
      let same : r.store_id ≡ some (or_else (given_text dto.store_id) "") =
        same_text-eq r.store_id (some (or_else (given_text dto.store_id) "")) (ground arith) in
      absurd (blank r m (same ∙ ap (λ o. some (or_else o "")) everywhere))

  Saved-length :
      (user_id : String) (s t : Db)
      → NoBlank s
      → given_text dto.store_id ≡ none
      → Saved p now dto by user_id s t
      → length t.user_roles ≡ 1 + length s.user_roles
  Saved-length user_id s t blank everywhere (inserted free e) =
      let grown : length t.user_roles ≡ suc (length s.user_roles) =
        ap (λ (d : Db). length d.user_roles) e in
      omega arith
  Saved-length user_id s t blank everywhere (updated r m mine e) =
      no_key user_id s r _ blank everywhere m mine

  loop-length :
      (xs : List String) (s t : Db) (u : Unit {0})
      → NoBlank s
      → given_text dto.store_id ≡ none
      → for_each (upsert_role p now dto by) xs s ≡ (ok u, t)
      → length t.user_roles ≡ length xs + length s.user_roles
  unfolding for_each
  loop-length [] s t u blank everywhere h =
      let same : length t.user_roles ≡ length s.user_roles =
        ap (λ (o : Result (Unit {0}) × Db). length o.1.user_roles) (sym h) in
      omega arith
  loop-length (x ∷ xs) s t u blank everywhere h =
      let (v, w, first, rest) = for_each-cons (upsert_role p now dto by) x xs s t u h in
      let k = upsert_role-Saved p now dto by x s w v first in
      let one_more = Saved-length x s w blank everywhere k in
      let others =
        loop-length xs w t u (Saved-NoBlank p now dto by x s w k blank) everywhere rest in
      omega arith

  -- An assignment for every store that returned adds a row for each of its users, also where the user has
  -- the role already. No role is stored for the empty text.
  pub assign_role_template_adds :
      (db db' : Db)
      → NoBlank db
      → given_text dto.store_id ≡ none
      → assign_role_template p now dto by db ≡ (ok tt, db')
      → length db'.user_roles ≡ length dto.user_ids + length db.user_roles
  assign_role_template_adds db db' blank everywhere h =
      let (t, found, looped) = assigned_loop db db' tt h in
      loop-length dto.user_ids db db' tt blank everywhere looped
