-- ===== src/Permissions/Assign/Steps.antt =====
-- The steps of `assignPermission` before it searches the table: validation reads, and joining a store
-- writes the store map only.
use accurack_software_backen.Common.{
  ℕ, String, Bool, true, false, not, Option, none, some, List, [], ◌∷◌, ◌&&◌, ◌||◌, ◌≡◌, ◌==◌, refl,
  sym, ap, subst, ◌∙◌, includes, any, Memᴰ, arith, if◌then◌else◌, is_some, eq_iff, concat, map,
  Mem_of_any,
}
use accurack_software_backen.Effect.{
  Error, Result, ok, err, ◌>>◌, write, query, throw_if, for_each, bad_request, pure, map_result,
}
use accurack_software_backen.Effect.Laws.{>>=-eq-ok, write-eq-ok, query-eq-ok, for_each-preserves}
use accurack_software_backen.Prisma.{Prisma}
use accurack_software_backen.Prisma.Reads.{find_first-any}
use accurack_software_backen.Permissions.Tables.{Db, UserStoreMap, store_map_clash}
use accurack_software_backen.Permissions.Enums.{
  permission_resources, permission_actions, valid_actions,
}
use accurack_software_backen.Permissions.Requests.{validate_permission, refusal, refused_by}
use accurack_software_backen.Permissions.Assign.{
  add_user_to_store, create_store_map, join_store, with_store_map,
}
use accurack_software_backen.Permissions.Assign.Refines.{Frame}

pub Frame-trans : {a b c : Db} → Frame a b → Frame b c → Frame a c
Frame-trans f g = record {
  templates = g.templates ∙ f.templates;
  roles = g.roles ∙ f.roles;
  users = g.users ∙ f.users;
}

checks-read :
    (free c d e : Bool) (x y z : Error) (s t : Db) (u : Unit {0})
    → (if free then pure tt else (throw_if c x >> (throw_if d y >> throw_if e z))) s ≡ (ok u, t)
    → t ≡ s
checks-read free c d e x y z s t u h = ground arith

validate_permission-reads :
    (resource action : String) (s t : Db) (u : Unit {0})
    → validate_permission resource action s ≡ (ok u, t)
    → t ≡ s
unfolding validate_permission
validate_permission-reads resource action s t u h =
    checks-read (resource == "*" || action == "*") (not (includes permission_resources resource))
      (not (includes permission_actions action)) (refused_by action (valid_actions resource))
      (bad_request (concat ("Invalid resource: " ∷ resource ∷ [])))
      (bad_request (concat ("Invalid action: " ∷ action ∷ [])))
      (bad_request (refusal resource action (valid_actions resource))) s t u h

pub validate_all-reads :
    (resource : String) (actions : List String) (s t : Db) (u : Unit {0})
    → for_each (validate_permission resource) actions s ≡ (ok u, t)
    → t ≡ s
validate_all-reads resource actions s t u h =
    for_each-preserves (validate_permission resource) (λ a b. b ≡ a) (λ a. refl)
      (λ x a b c v e r. r ∙ validate_permission-reads resource x a b v e) actions s t u h

some_inj : {A : Type 0} {a b : A} → some a ≡ some b → a ≡ b
some_inj h = cc

-- The user is mapped to the store.
abbrev pub IsMapped : String → String → Db → Type 0
IsMapped user_id store_id db =
    (m : UserStoreMap) × Memᴰ m db.user_store_map × (m.user_id ≡ user_id) × (m.store_id ≡ store_id)

module _ (p : Prisma) (now : ℕ) where
  -- What joining a store leaves alone, and what it establishes.
  record Joins (user_id store_id : String) (db db' : Db) : Type 0 where
    permissions : db'.permissions ≡ db.permissions
    frame : Frame db db'
    mapped : IsMapped user_id store_id db'

  abbrev here : String → String → UserStoreMap → Bool
  here user_id store_id m = m.user_id == user_id && m.store_id == store_id

  with_store_map-eq-ok :
      (db db' : Db) (r : Result (List UserStoreMap))
      → with_store_map db r ≡ ok db'
      → (t : List UserStoreMap) × (r ≡ ok t) × (db' ≡ record db { user_store_map = t })
  with_store_map-eq-ok db db' (ok t) h = (t, refl, cc)
  with_store_map-eq-ok db db' (err e) h = cc

  create_store_map-Joins :
      (user_id store_id : String) (db db' : Db)
      → create_store_map p now user_id store_id db ≡ ok db'
      → Joins user_id store_id db db'
  unfolding create_store_map
  create_store_map-Joins user_id store_id db db' h =
      let new : UserStoreMap = record {
        id = p.fresh (map (λ m. m.id) db.user_store_map);
        user_id = user_id;
        store_id = store_id;
      } in
      let (t, e, same) =
        with_store_map-eq-ok db db' (p.create store_map_clash new db.user_store_map) h in
      subst (Joins user_id store_id db) (sym same) (record {
        permissions = refl;
        frame = record { templates = refl; roles = refl; users = refl };
        mapped = (
          new,
          subst (Memᴰ new) (sym (p.create-ok store_map_clash new db.user_store_map t e).1)
              (Memᴰ.head refl),
          refl,
          refl,
        );
      })

  mapped-Joins :
      (user_id store_id : String) (db : Db)
      → any (here user_id store_id) db.user_store_map ≡ true
      → Joins user_id store_id db db
  mapped-Joins user_id store_id db h =
      let (m, listed, e) = Mem_of_any (here user_id store_id) db.user_store_map h in
      record {
        permissions = refl;
        frame = record { templates = refl; roles = refl; users = refl };
        mapped = (
          m,
          listed,
          ground (arith, eq_iff m.user_id user_id),
          ground (arith, eq_iff m.store_id store_id),
        );
      }

  join_by :
      (user_id store_id : String) (db db' : Db) (u : Unit {0}) (mapped : Bool)
      → mapped ≡ any (here user_id store_id) db.user_store_map
      → (if mapped then pure tt else write (create_store_map p now user_id store_id)) db
        ≡ (ok u, db')
      → Joins user_id store_id db db'
  join_by user_id store_id db db' u true e h =
      subst (Joins user_id store_id db) (ap (λ (o : Result (Unit {0}) × Db). o.1) h)
        (mapped-Joins user_id store_id db (sym e))
  join_by user_id store_id db db' u false e h =
      create_store_map-Joins user_id store_id db db'
        (write-eq-ok (create_store_map p now user_id store_id) db db' u h)

  add_user_to_store-Joins :
      (user_id store_id : String) (db db' : Db) (u : Unit {0})
      → add_user_to_store p now user_id store_id db ≡ (ok u, db')
      → Joins user_id store_id db db'
  unfolding add_user_to_store
  add_user_to_store-Joins user_id store_id db db' u h =
      let ask =
        λ (s : Db). map_result is_some (p.find_first (here user_id store_id) s.user_store_map) in
      let join =
        λ (b : Bool). if b then pure tt else write (create_store_map p now user_id store_id) in
      let (mapped, t, asked, rest) = >>=-eq-ok (query ask) join db db' u h in
      let (found, same) = query-eq-ok ask db t mapped asked in
      join_by user_id store_id db db' u mapped
        (find_first-any p (here user_id store_id) db.user_store_map mapped found)
        (subst (λ (s : Db). join mapped s ≡ (ok u, db')) same rest)

  pub join_store-Joins :
      (user_id : String) (store_id : Option String) (db db' : Db) (u : Unit {0})
      → join_store p now user_id store_id db ≡ (ok u, db')
      → (db'.permissions ≡ db.permissions)
        × Frame db db'
        × ((s : String) → store_id ≡ some s → IsMapped user_id s db')
  join_store-Joins user_id none db db' u h =
      let same : db ≡ db' = ap (λ (o : Result (Unit {0}) × Db). o.1) h in
      (
        ap (λ (d : Db). d.permissions) (sym same),
        record {
          templates = ap (λ (d : Db). d.role_templates) (sym same);
          roles = ap (λ (d : Db). d.user_roles) (sym same);
          users = ap (λ (d : Db). d.users) (sym same);
        },
        λ s e. cc,
      )
  join_store-Joins user_id (some s) db db' u h =
      let j = add_user_to_store-Joins user_id s db db' u h in
      (j.permissions, j.frame, λ s' e. subst (λ x. IsMapped user_id x db') (some_inj e) j.mapped)
