-- ===== src/Permissions/Roles/Assignment.antt =====
-- What assignRoleTemplate of src/permissions/permissions.service.ts leaves in the table of roles, and
-- what the checks then answer.
use accurack_software_backen.Common.{
  ℕ, String, Bool, true, false, Option, none, some, List, ◌∷◌, ◌==◌, ◌≡◌, ◌≢◌, ◌⊎◌, inl, inr, refl,
  sym, ap, subst, ◌∙◌, Memᴰ, arith, same_text-eq, eq_iff, Bool-cases, or_else, given_text, any,
  if◌then◌else◌,
}
use accurack_software_backen.Effect.{Result, ok, err, query}
use accurack_software_backen.Effect.Laws.{>>=-eq-ok, query-eq-ok, write-eq-ok}
use accurack_software_backen.Prisma.{Prisma, update_rows}
use accurack_software_backen.Prisma.Reads.{Mem-update_rows, update_rows-Mem}
use accurack_software_backen.Permissions.Tables.{UserRole, Db, user_role_clash}
use accurack_software_backen.Permissions.Roles.{
  AssignRoleTemplateDto, with_user_roles, role_key, renewed, role_row, find_role, save_role,
  write_role, upsert_role,
}

-- No role is stored for the empty text.
abbrev pub NoBlank : Db → Type 0
NoBlank db = (r : UserRole) → Memᴰ r db.user_roles → r.store_id ≢ some ""

given-ne : (s : Option String) → given_text s ≢ some ""
given-ne none e = cc e
given-ne (some s) e = elim (Bool-cases (s == "")) [
  | inl h ↦ let hit : given_text (some s) ≡ none = rw h in cc (e, hit)
  | inr h ↦
      let hit : given_text (some s) ≡ some s = rw h in
      let same : s ≡ "" = cc (e, hit) in cc ((eq_iff s "").1 same, h)
]

given-key :
    (s : Option String) → (given_text s ≡ none) ⊎ (given_text s ≡ some (or_else (given_text s) ""))
given-key s = from (given_text s)
  where
    from : (o : Option String) → (o ≡ none) ⊎ (o ≡ some (or_else o ""))
    from none = inl refl
    from (some t) = inr refl

module _ (p : Prisma) (now : ℕ) (dto : AssignRoleTemplateDto) (by : String) where
  -- An active role of the user with the template, for the store of the request.
  pub record HasRole (user_id : String) (db : Db) : Type 0 where
    pub row : UserRole
    pub listed : Memᴰ row db.user_roles
    pub owner : row.user_id ≡ user_id
    pub template : row.role_template_id ≡ dto.role_template_id
    pub store : row.store_id ≡ given_text dto.store_id
    pub active : row.is_active ≡ true

  abbrev key : String → UserRole → Bool
  key user_id = role_key user_id dto.role_template_id dto.store_id

  -- What one upsert that returned has done.
  pub data Saved (user_id : String) (s t : Db) : Type 0 where
    inserted :
        any (key user_id) s.user_roles ≡ false
        → t ≡ record s { user_roles = role_row p now dto by user_id s.user_roles ∷ s.user_roles }
        → Saved user_id s t
    updated :
        (r : UserRole)
        → Memᴰ r s.user_roles
        → key user_id r ≡ true
        → t ≡ record s { user_roles = update_rows (key user_id) (renewed p now by) s.user_roles }
        → Saved user_id s t

  with_user_roles-eq-ok :
      (s t : Db) (r : Result (List UserRole))
      → with_user_roles s r ≡ ok t
      → (l : List UserRole) × (r ≡ ok l) × (t ≡ record s { user_roles = l })
  with_user_roles-eq-ok s t (ok l) h = (l, refl, cc h)
  with_user_roles-eq-ok s t (err e) h = cc h

  save_role-Saved :
      (user_id : String) (found : Option UserRole) (s t : Db)
      → find_role p now dto user_id s ≡ ok found
      → save_role p now dto by user_id found s ≡ ok t
      → Saved user_id s t
  save_role-Saved user_id none s t asked h =
      let (l, answer, e) = with_user_roles-eq-ok s t _ h in
      let (_, at) =
        p.create-ok user_role_clash (role_row p now dto by user_id s.user_roles) s.user_roles l
          answer in
      inserted (p.find_first-none (key user_id) s.user_roles asked)
        (e ∙ ap (λ l. record s { user_roles = l }) at)
  save_role-Saved user_id (some r) s t asked h =
      let (l, answer, e) = with_user_roles-eq-ok s t _ h in
      let (m, mine) = p.find_first-some (key user_id) s.user_roles r asked in
      updated r m mine (
        e
        ∙ ap (λ l. record s { user_roles = l })
            (p.update-ok (key user_id) (renewed p now by) s.user_roles l answer))

  pub upsert_role-Saved :
      (user_id : String) (s t : Db) (u : Unit {0})
      → upsert_role p now dto by user_id s ≡ (ok u, t)
      → Saved user_id s t
  unfolding upsert_role
  upsert_role-Saved user_id s t u h =
      let (found, s1, asked, rest) =
        >>=-eq-ok (query (find_role p now dto user_id)) (write_role p now dto by user_id) s t u h in
      let (e, at) = query-eq-ok (find_role p now dto user_id) s s1 found asked in
      save_role-Saved user_id found s t e (
        subst (λ x. save_role p now dto by user_id found x ≡ ok t) at
          (write-eq-ok (save_role p now dto by user_id found) s1 t u rest))

  -- Without rows for the empty text, a key of the source that names a store is the store of the row.
  pub key-store :
      (user_id : String) (s : Db) (r : UserRole)
      → NoBlank s
      → Memᴰ r s.user_roles
      → key user_id r ≡ true
      → (r.user_id ≡ user_id)
        × (r.role_template_id ≡ dto.role_template_id)
        × (r.store_id ≡ given_text dto.store_id)
  key-store user_id s r blank m h =
      let same : r.store_id ≡ some (or_else (given_text dto.store_id) "") =
        same_text-eq r.store_id (some (or_else (given_text dto.store_id) "")) (ground arith) in
      (
        ground (arith, eq_iff r.user_id user_id),
        ground arith,
        elim (given-key dto.store_id) [
          | inl none_given ↦ absurd (blank r m (same ∙ ap (λ o. some (or_else o "")) none_given))
          | inr given ↦ same ∙ sym given
        ],
      )

  abbrev moved : String → UserRole → UserRole
  moved user_id r = if key user_id r then renewed p now by r else r

  -- An update takes no role away, and moves none.
  record Same (r r' : UserRole) : Type 0 where
    owner : r'.user_id ≡ r.user_id
    template : r'.role_template_id ≡ r.role_template_id
    store : r'.store_id ≡ r.store_id
    active : r.is_active ≡ true → r'.is_active ≡ true

  moved-Same : (user_id : String) (r : UserRole) → Same r (moved user_id r)
  moved-Same user_id r = elim (Bool-cases (key user_id r)) [
    | inl h ↦ rw h (record { owner = refl; template = refl; store = refl; active = λ a. refl })
    | inr h ↦ rw h (record { owner = refl; template = refl; store = refl; active = λ a. a })
  ]

  pub Saved-HasRole :
      (user_id : String) (s t : Db) → NoBlank s → Saved user_id s t → HasRole user_id t
  Saved-HasRole user_id s t blank (inserted free e) = subst (HasRole user_id) (sym e) (record {
    row = role_row p now dto by user_id s.user_roles;
    listed = Memᴰ.head refl;
    owner = refl;
    template = refl;
    store = refl;
    active = refl;
  })
  Saved-HasRole user_id s t blank (updated r m mine e) =
      let (owner, template, store) = key-store user_id s r blank m mine in
      let hit : moved user_id r ≡ renewed p now by r = rw mine in
      subst (HasRole user_id) (sym e) (record {
        row = renewed p now by r;
        listed =
            subst (λ x. Memᴰ x (update_rows (key user_id) (renewed p now by) s.user_roles)) hit
              (Mem-update_rows (key user_id) (renewed p now by) r s.user_roles m);
        owner = owner;
        template = template;
        store = store;
        active = refl;
      })

  pub Saved-holds :
      (user_id other : String) (s t : Db) → Saved user_id s t → HasRole other s → HasRole other t
  Saved-holds user_id other s t (inserted free e) h = subst (HasRole other) (sym e) (record {
    row = h.row;
    listed = Memᴰ.tail h.listed;
    owner = h.owner;
    template = h.template;
    store = h.store;
    active = h.active;
  })
  Saved-holds user_id other s t (updated r m mine e) h =
      let k = moved-Same user_id h.row in
      subst (HasRole other) (sym e) (record {
        row = moved user_id h.row;
        listed = Mem-update_rows (key user_id) (renewed p now by) h.row s.user_roles h.listed;
        owner = k.owner ∙ h.owner;
        template = k.template ∙ h.template;
        store = k.store ∙ h.store;
        active = k.active h.active;
      })

  pub Saved-NoBlank : (user_id : String) (s t : Db) → Saved user_id s t → NoBlank s → NoBlank t
  Saved-NoBlank user_id s t (inserted free e) blank = subst NoBlank (sym e) clean
    where
      clean :
          NoBlank
            (record s { user_roles = role_row p now dto by user_id s.user_roles ∷ s.user_roles })
      clean x (Memᴰ.head same) h =
          given-ne dto.store_id (ap (λ (r : UserRole). r.store_id) (sym same) ∙ h)
      clean x (Memᴰ.tail m) h = blank x m h
  Saved-NoBlank user_id s t (updated r m mine e) blank = subst NoBlank (sym e) λ y my h.
      let (x, mx, same) = update_rows-Mem (key user_id) (renewed p now by) y s.user_roles my in
      blank x mx
        (sym (moved-Same user_id x).store ∙ ap (λ (r : UserRole). r.store_id) (sym same) ∙ h)

  pub Saved-templates :
      (user_id : String) (s t : Db) → Saved user_id s t → t.role_templates ≡ s.role_templates
  Saved-templates user_id s t (inserted free e) = ap (λ (d : Db). d.role_templates) e
  Saved-templates user_id s t (updated r m mine e) = ap (λ (d : Db). d.role_templates) e
