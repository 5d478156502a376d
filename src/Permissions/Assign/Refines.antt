-- ===== src/Permissions/Assign/Refines.antt =====
-- What a grant and a revocation do to the tables, where they return.
use accurack_software_backen.Common.{
  ℕ, String, true, false, Option, none, some, List, [], ◌∷◌, ◌++◌, ◌||◌, ◌≡◌, refl, sym, ap, subst,
  includes, any, Memᴰ, arith, if◌then◌else◌, or_else, nat_eq_self,
}
use accurack_software_backen.Effect.{Result, ok, err}
use accurack_software_backen.Prisma.{Prisma, update_rows}
use accurack_software_backen.Permissions.Tables.{Permission, Db, permission_clash}
use accurack_software_backen.Permissions.Requests.{CreatePermissionDto}
use accurack_software_backen.Permissions.Assign.{
  Key, has_key, has_id, ids, distinct, find_permission, save_permission, merged, created,
  with_permissions,
}
use accurack_software_backen.Permissions.Assign.Rows.{
  key_of, same_key, grants, IsValid, fresh-has_id, includes-append, includes-distinct, grants_split,
  grants-update, update-IsValid, has_key-eq,
}

-- The tables that no grant method writes are as they were.
pub record Frame (db db' : Db) : Type 0 where
  pub templates : db'.role_templates ≡ db.role_templates
  pub roles : db'.user_roles ≡ db.user_roles
  pub users : db'.users ≡ db.users

-- The row for the key, as a grant leaves it.
pub record IsSaved (dto : CreatePermissionDto) (k : Key) (actions : List String) (row : Permission)
    : Type 0 where
  pub key : key_of row ≡ k
  pub granted : row.granted ≡ or_else dto.granted true
  pub expires : row.expires_at ≡ dto.expires_at
  pub covers : (a : String) → includes actions a ≡ true → includes row.actions a ≡ true

Mem-update :
    (r : Permission) (f : Permission → Permission) (t : List Permission)
    → Memᴰ r t
    → Memᴰ (f r) (update_rows (has_id r.id) f t)
Mem-update r f [] m = elim m [ ]
Mem-update r f (x ∷ t) (Memᴰ.head e) =
    subst (λ y. Memᴰ (f y) (update_rows (has_id y.id) f (x ∷ t))) (sym e)
      (rw (nat_eq_self x.id) (Memᴰ.head refl))
Mem-update r f (x ∷ t) (Memᴰ.tail m) = Memᴰ.tail (Mem-update r f t m)

module _ (p : Prisma) (now : ℕ) where
  pub with_permissions-eq-ok :
      (db db' : Db) (r : Result (List Permission))
      → with_permissions db r ≡ ok db'
      → (t : List Permission) × (r ≡ ok t) × (db' ≡ record db { permissions = t })
  with_permissions-eq-ok db db' (ok t) h = (t, refl, cc)
  with_permissions-eq-ok db db' (err e) h = cc

  -- The contract of a grant on the table of permissions: it stays valid, the key records the given
  -- actions besides what it recorded, every other key records what it did, and the row is saved.
  pub record Granted (dto : CreatePermissionDto) (k : Key) (actions : List String)
      (t t' : List Permission) : Type 0 where
    pub valid : IsValid t'
    pub adds :
        (j : Key) (a : String)
        → grants t' j a
          ≡ (if same_key j k then includes actions a || grants t j a else grants t j a)
    pub row : Permission
    pub listed : Memᴰ row t'
    pub saved : IsSaved dto k actions row

  module _ (dto : CreatePermissionDto) (k : Key) (granted_by : String) (actions : List String) where
    create-Granted :
        (t t' : List Permission)
        → IsValid t
        → any (has_key k) t ≡ false
        → p.create permission_clash (created p now dto k granted_by actions (p.fresh (ids t))) t
          ≡ ok t'
        → Granted dto k actions t t'
    create-Granted t t' v absent h =
        let n = p.fresh (ids t) in
        let new = created p now dto k granted_by actions n in
        subst (Granted dto k actions t) (sym (p.create-ok permission_clash new t t' h).1) (record {
          valid = (fresh-has_id n t (p.fresh-new (ids t)), absent, v);
          adds = λ j a. ground arith;
          row = new;
          listed = Memᴰ.head refl;
          saved = record { key = refl; granted = refl; expires = refl; covers = λ a e. e };
        })

    update-Granted :
        (r : Permission) (t t' : List Permission)
        → IsValid t
        → Memᴰ r t
        → has_key k r ≡ true
        → p.update (has_id r.id) (merged p now dto granted_by (distinct (r.actions ++ actions))) t
          ≡ ok t'
        → Granted dto k actions t t'
    update-Granted r t t' v m found h =
        let f = merged p now dto granted_by (distinct (r.actions ++ actions)) in
        let same = has_key-eq k r found in
        subst (Granted dto k actions t) (sym (p.update-ok (has_id r.id) f t t' h)) (record {
          valid = update-IsValid (has_id r.id) f (λ x. refl) (λ x. refl) t v;
          adds = λ j a. ground (
            arith,
            grants-update j a f (λ x. refl) r t v m,
            grants_split j a r t v m,
            includes-distinct (r.actions ++ actions) a,
            includes-append r.actions actions a,
            ap (same_key j) same,
          );
          row = f r;
          listed = Mem-update r f t m;
          saved = record {
            key = sym same;
            granted = refl;
            expires = refl;
            covers = λ a e. ground (
              arith,
              includes-distinct (r.actions ++ actions) a,
              includes-append r.actions actions a,
            );
          };
        })

    -- What the write after the search does to the tables.
    pub save_permission-Granted :
        (o : Option Permission) (db db' : Db)
        → IsValid db.permissions
        → find_permission p now k db ≡ ok o
        → save_permission p now dto k granted_by actions o db ≡ ok db'
        → Granted dto k actions db.permissions db'.permissions
          × Frame db db'
          × (db'.user_store_map ≡ db.user_store_map)
    unfolding find_permission save_permission
    save_permission-Granted none db db' v found h =
        let (t, e, same) =
          with_permissions-eq-ok db db'
            (p.create permission_clash
              (created p now dto k granted_by actions (p.fresh (ids db.permissions)))
              db.permissions)
            h in
        let g =
          create-Granted db.permissions t v (p.find_first-none (has_key k) db.permissions found)
            e in
        rw same (g, record { templates = refl; roles = refl; users = refl }, refl)
    save_permission-Granted (some r) db db' v found h =
        let (m, holds) = p.find_first-some (has_key k) db.permissions r found in
        let (t, e, same) =
          with_permissions-eq-ok db db'
            (p.update (has_id r.id) (merged p now dto granted_by (distinct (r.actions ++ actions)))
              db.permissions)
            h in
        let g = update-Granted r db.permissions t v m holds e in
        rw same (g, record { templates = refl; roles = refl; users = refl }, refl)
