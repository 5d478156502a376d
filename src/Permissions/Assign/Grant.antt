-- ===== src/Permissions/Assign/Grant.antt =====
-- What a grant promises to the checks, and what the bulk methods make of it.
use accurack_software_backen.Common.{
  ℕ, String, Bool, true, false, Option, none, some, List, ◌≡◌, refl, sym, ap, subst, ◌∙◌, includes,
  Memᴰ, arith, eq_iff, same_text_self, ◌⊎◌, inl, inr, or_else, ◌≢◌, [], ◌∷◌, ◌==◌, every,
  Bool-cases,
}
use accurack_software_backen.Effect.{ok, err, for_each, bad_request}
use accurack_software_backen.Effect.Laws.{>>=-eq-ok, for_each-ran, Establishes, for_each-keeps}
use accurack_software_backen.Prisma.{Prisma, IsReliable}
use accurack_software_backen.Permissions.Tables.{Permission, Db, one}
use accurack_software_backen.Permissions.Enums.{permission_actions}
use accurack_software_backen.Permissions.Requests.{
  CreatePermissionDto, PermissionActionDto, BulkAssignPermissionsDto, normalize_actions,
  validate_action_strings, crud_actions,
}
use accurack_software_backen.Permissions.Check.{has_permission}
use accurack_software_backen.Permissions.Check.Spec.{IsDirectGrant, IsLive}
use accurack_software_backen.Permissions.Check.Laws.{has_permission_iff}
use accurack_software_backen.Permissions.Assign.{
  Key, key_of_dto, assign_permission, bulk_dto, bulk_assign_permissions, listed_actions,
  setup_store_access_with_permissions, add_user_to_store,
}
use accurack_software_backen.Permissions.Assign.Rows.{same_key, grants, IsValid}
use accurack_software_backen.Permissions.Assign.Refines.{IsSaved, Granted}
use accurack_software_backen.Permissions.Assign.Methods.{assign_permission-Assigned}

export_listed : Memᴰ "export" permission_actions
export_listed = Memᴰ.tail (Memᴰ.tail (Memᴰ.tail (Memᴰ.tail (Memᴰ.head refl))))

-- A test that one element fails does not hold of all.
every-false :
    (f : String → Bool) (a : String) (l : List String)
    → includes l a ≡ true
    → f a ≡ false
    → every f l ≡ false
every-false f a [] m h = cc
every-false f a (x ∷ l) m h = elim (Bool-cases (x == a)) [
  | inl e ↦ let same : f x ≡ false = ap f ((eq_iff x a).0 e) ∙ h in ground (arith, same)
  | inr e ↦ ground (arith, every-false f a l)
]

no_crud_action :
    (a : String)
    → a ≢ "create"
    → a ≢ "read"
    → a ≢ "update"
    → a ≢ "delete"
    → includes crud_actions a ≡ false
no_crud_action a c r u d = ground (
  arith,
  eq_iff a "create",
  eq_iff a "read",
  eq_iff a "update",
  eq_iff a "delete",
  eq_iff "create" a,
  eq_iff "read" a,
  eq_iff "update" a,
  eq_iff "delete" a,
)

abbrev scope_of : (dto : CreatePermissionDto) → Option String
scope_of dto = (key_of_dto dto).store_id

module _ (p : Prisma) (now : ℕ) where
  -- The saved row is a direct grant, asked at a time before it expires, for the store of the grant.
  saved-IsDirectGrant :
      (later : ℕ) (dto : CreatePermissionDto) (db' : Db) (row : Permission) (action : String)
      (asked : Option String)
      → Memᴰ row db'.permissions
      → IsSaved dto (key_of_dto dto) (normalize_actions dto.action) row
      → includes (normalize_actions dto.action) action ≡ true
      → dto.granted ≢ some false
      → IsLive later dto.expires_at
      → (scope_of dto ≡ none) ⊎ ((asked ≢ none) × (scope_of dto ≡ asked))
      → IsDirectGrant p later dto.user_id dto.resource action asked db' row
  unfolding key_of_dto
  saved-IsDirectGrant later dto db' row action asked listed s covered positive live scope = record {
    listed = listed;
    owner = ap (λ (k : Key). k.user_id) s.key;
    scope = elim scope [
      | inl everywhere ↦ inl (ap (λ (k : Key). k.store_id) s.key ∙ everywhere)
      | inr (some_store, here) ↦ inr (inl (some_store, ap (λ (k : Key). k.store_id) s.key ∙ here))
    ];
    granted = s.granted ∙ granted_by_default dto.granted positive;
    covers = inl (
      ap (λ (k : Key). k.resource) s.key,
      s.covers action covered,
      subst (IsLive later) (sym s.expires) live,
    );
  }
    where
      granted_by_default : (o : Option Bool) → o ≢ some false → or_else o true ≡ true
      granted_by_default o h = ground arith

  -- After `assignPermission` returns, a check of any of the assigned actions says yes: for every store
  -- if the grant names none, else for the store that it names. The grant must not be a denial
  -- (`granted: false`) and must not have expired by the time of the check; the database answers.
  pub assign_permission-has_permission :
      (later : ℕ) (dto : CreatePermissionDto) (granted_by : String) (db db' : Db) (action : String)
      (asked : Option String)
      → IsReliable p
      → IsValid db.permissions
      → assign_permission p now dto granted_by db ≡ (ok tt, db')
      → includes (normalize_actions dto.action) action ≡ true
      → dto.granted ≢ some false
      → IsLive later dto.expires_at
      → (scope_of dto ≡ none) ⊎ ((asked ≢ none) × (scope_of dto ≡ asked))
      → has_permission p later dto.user_id dto.resource action asked db' ≡ (ok true, db')
  assign_permission-has_permission later dto granted_by db db' action asked good v h covered
        positive live scope =
      let g = (assign_permission-Assigned p now dto granted_by db db' tt v h).table in
      (has_permission_iff p later dto.user_id dto.resource action asked db' good).1 (
        inl (
          g.row,
          saved-IsDirectGrant later dto db' g.row action asked g.listed g.saved covered positive
              live scope,
        ))

  refused_of :
      (dto : CreatePermissionDto) (granted_by : String) (db : Db)
      → validate_action_strings (normalize_actions dto.action) ≡ false
      → assign_permission p now dto granted_by db
        ≡ (err (bad_request "Invalid action provided"), db)
  unfolding assign_permission
  refused_of dto granted_by db h = rw h refl

  -- A request that has an action other than create, read, update and delete, be it the only one or one
  -- among others, is refused before anything is read or written.
  pub assign_permission_refused :
      (dto : CreatePermissionDto) (granted_by action : String) (db : Db)
      → includes (normalize_actions dto.action) action ≡ true
      → action ≢ "create"
      → action ≢ "read"
      → action ≢ "update"
      → action ≢ "delete"
      → assign_permission p now dto granted_by db
        ≡ (err (bad_request "Invalid action provided"), db)
  unfolding validate_action_strings
  assign_permission_refused dto granted_by action db listed c r u d = refused_of dto granted_by db (
      every-false (includes crud_actions) action (normalize_actions dto.action) listed
        (no_crud_action action c r u d))

  export_refused :
      (user_id store_id resource granted_by : String) (s t : Db) (u : Unit {0})
      → assign_permission p now
          (bulk_dto p now user_id
            (some store_id)
            (record { resource = resource; action = "export" }))
          granted_by
          s
        ≢ (ok u, t)
  unfolding normalize_actions validate_action_strings
  export_refused user_id store_id resource granted_by s t u h =
      let e =
        refused_of
          (bulk_dto p now user_id (some store_id)
            (record { resource = resource; action = "export" }))
          granted_by s refl in
      cc

  abbrev ValidTable : Db → Type 0
  ValidTable db = IsValid db.permissions

  -- The actions recorded under a key, as a fact about the database.
  abbrev Records : Key × String → Db → Type 0
  Records (k, a) db = grants db.permissions k a ≡ true

  abbrev CoveredBy : String → Option String → PermissionActionDto → Key × String → Type 0
  CoveredBy user_id store_id x (k, a) =
      (k ≡ key_of_dto (bulk_dto p now user_id store_id x))
      × (includes (normalize_actions (one x.action)) a ≡ true)

  same_key_refl : (k : Key) → same_key k k ≡ true
  same_key_refl k = ground (
    arith,
    eq_iff k.user_id k.user_id,
    eq_iff k.resource k.resource,
    same_text_self k.store_id,
    same_text_self k.resource_id,
  )

  assign_one :
      (user_id : String) (store_id : Option String) (granted_by : String)
      → Establishes
          (λ x. assign_permission p now (bulk_dto p now user_id store_id x) granted_by)
          ValidTable
          Records
          (CoveredBy user_id store_id)
  assign_one user_id store_id granted_by = record {
    keeps = λ x s t u h v. (table x s t u h v).valid;
    sets = λ x s t u h v (k, a) (same, c). ground (
      arith,
      (table x s t u h v).adds k a,
      subst (λ j. same_key k j ≡ true) same (same_key_refl k),
      c,
    );
    holds = λ x s t u h v (k, a) e. ground (arith, (table x s t u h v).adds k a);
  }
    where
      table :
          (x : PermissionActionDto) (s t : Db) (u : Unit {0})
          → assign_permission p now (bulk_dto p now user_id store_id x) granted_by s ≡ (ok u, t)
          → IsValid s.permissions
          → Granted p now
              (bulk_dto p now user_id store_id x)
              (key_of_dto (bulk_dto p now user_id store_id x))
              (normalize_actions (one x.action))
              s.permissions
              t.permissions
      table x s t u h v =
          (assign_permission-Assigned p now (bulk_dto p now user_id store_id x) granted_by s t u v
            h).table

  CoveredInBulk : BulkAssignPermissionsDto → String → Key × String → Type 0
  CoveredInBulk dto user_id b =
      (x : PermissionActionDto) × Memᴰ x dto.permissions × CoveredBy user_id dto.store_id x b

  assign_all :
      (dto : BulkAssignPermissionsDto) (granted_by : String)
      → Establishes
          (λ user_id.
            for_each
              (λ x. assign_permission p now (bulk_dto p now user_id dto.store_id x) granted_by)
              dto.permissions)
          ValidTable
          Records
          (CoveredInBulk dto)
  unfolding CoveredInBulk
  assign_all dto granted_by = record {
    keeps = λ user_id s t u h v. (loop user_id s t u h v).0;
    sets = λ user_id s t u h v b (x, m, c). (loop user_id s t u h v).2 x b m c;
    holds = λ user_id s t u h v b e. (loop user_id s t u h v).1 b e;
  }
    where
      loop :
          (user_id : String) (s t : Db) (u : Unit {0})
          → for_each
              (λ x. assign_permission p now (bulk_dto p now user_id dto.store_id x) granted_by)
              dto.permissions
              s
            ≡ (ok u, t)
          → ValidTable s
          → ValidTable t
            × ((b : Key × String) → Records b s → Records b t)
            × ((x : PermissionActionDto) (b : Key × String)
                → Memᴰ x dto.permissions
                → CoveredBy user_id dto.store_id x b
                → Records b t)
      loop user_id s t u h v =
          for_each-keeps
            (λ x. assign_permission p now (bulk_dto p now user_id dto.store_id x) granted_by)
            ValidTable Records (CoveredBy user_id dto.store_id)
            (assign_one user_id dto.store_id granted_by) dto.permissions s t u h v

  -- A bulk assignment that returns keeps the table valid, loses no recorded action, and records every
  -- listed permission for every listed user.
  pub bulk_assign_permissions-grants :
      (dto : BulkAssignPermissionsDto) (assigned_by : String) (db db' : Db)
      → IsValid db.permissions
      → bulk_assign_permissions p now dto assigned_by db ≡ (ok tt, db')
      → IsValid db'.permissions
        × ((k : Key) (a : String)
            → grants db.permissions k a ≡ true
            → grants db'.permissions k a ≡ true)
        × ((user_id : String) (x : PermissionActionDto) (a : String)
            → Memᴰ user_id dto.user_ids
            → Memᴰ x dto.permissions
            → includes (normalize_actions (one x.action)) a ≡ true
            → grants db'.permissions (key_of_dto (bulk_dto p now user_id dto.store_id x)) a ≡ true)
  unfolding bulk_assign_permissions CoveredInBulk
  bulk_assign_permissions-grants dto assigned_by db db' v h =
      let (valid, old, new) =
        for_each-keeps
          (λ user_id.
            for_each
              (λ x. assign_permission p now (bulk_dto p now user_id dto.store_id x) assigned_by)
              dto.permissions)
          ValidTable Records (CoveredInBulk dto) (assign_all dto assigned_by) dto.user_ids db db' tt
          h v in
      (
        valid,
        λ k a. old (k, a),
        λ user_id x a mu mx c.
            new user_id (key_of_dto (bulk_dto p now user_id dto.store_id x), a) mu
              (x, mx, (refl, c)),
      )

  -- `'*'` stands for every action of the enumeration, of which only four pass the validation of a
  -- grant: giving a user all actions on a resource of a store never returns.
  pub setup_store_access_fails :
      (user_id store_id granted_by resource : String)
      (permissions : List (String × Option (List String))) (db db' : Db)
      → Memᴰ (resource, none) permissions
      → setup_store_access_with_permissions p now user_id store_id permissions granted_by db
        ≢ (ok tt, db')
  unfolding setup_store_access_with_permissions
  setup_store_access_fails user_id store_id granted_by resource permissions db db' m h =
      let assign = λ (r a : String).
        assign_permission p now
          (bulk_dto p now user_id (some store_id) (record { resource = r; action = a }))
          granted_by in
      let entry =
        λ (e : String × Option (List String)). for_each (assign e.0) (listed_actions p now e.1) in
      let (u, s, joined, rest) =
        >>=-eq-ok (add_user_to_store p now user_id store_id) (λ _. for_each entry permissions) db
          db' tt h in
      let (t, w, v, ran) = for_each-ran entry (resource, none) permissions s db' tt m rest in
      let (t', w', v', failed) =
        for_each-ran (assign resource) "export" permission_actions t w v export_listed ran in
      export_refused user_id store_id resource granted_by t' w' v' failed
