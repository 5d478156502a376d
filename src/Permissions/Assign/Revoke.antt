-- ===== src/Permissions/Assign/Revoke.antt =====
-- What a revocation does to the table of permissions.
use accurack_software_backen.Common.{
  ℕ, String, Bool, true, false, not, Option, none, some, List, [], ◌∷◌, ◌&&◌, ◌≡◌, refl, sym, ap,
  subst, ◌∙◌, includes, is_empty, any, keep, Memᴰ, arith, if◌then◌else◌, Bool-cases, inl, inr,
  eq_iff,
}
use accurack_software_backen.Effect.{Result, ok, query}
use accurack_software_backen.Effect.Laws.{>>=-eq-ok, write-eq-ok, query-eq-ok}
use accurack_software_backen.Prisma.{Prisma}
use accurack_software_backen.Permissions.Tables.{Permission, Db}
use accurack_software_backen.Permissions.Requests.{RevokePermissionDto, normalize_actions}
use accurack_software_backen.Permissions.Assign.{
  Key, has_key, has_id, key_of_revoke, find_permission, drop_actions, drop_found, revoke_permission,
}
use accurack_software_backen.Permissions.Assign.Rows.{
  same_key, grants, any-among, IsValid, grants_split, grants-update, grants-delete, no_other,
  keep-IsValid, update-IsValid, same_key-eq, has_key-eq,
}
use accurack_software_backen.Permissions.Assign.Refines.{with_permissions-eq-ok}

includes-keep :
    (revoked xs : List String) (a : String)
    → includes (keep (λ x. not (includes revoked x)) xs) a
      ≡ (includes xs a && not (includes revoked a))
includes-keep revoked [] a = refl
includes-keep revoked (x ∷ xs) a = ground (arith, eq_iff x a, includes-keep revoked xs a)

is_empty-eq : (xs : List String) → is_empty xs ≡ true → xs ≡ []
is_empty-eq [] h = refl
is_empty-eq (x ∷ xs) h = cc

absent_unchanged :
    (k j : Key) (a : String) (t : List Permission) (revoked : List String)
    → any (has_key k) t ≡ false
    → grants t j a ≡ (grants t j a && not (same_key j k && includes revoked a))
absent_unchanged k j a t revoked absent = elim (Bool-cases (same_key j k)) [
  | inl e ↦
      let no_row = any-among (has_key k) (λ _. true) (λ x. includes x.actions a) t absent in
      let none_here : grants t j a ≡ false =
        subst (λ i. grants t i a ≡ false) (sym (same_key-eq j k e)) no_row in
      rw none_here refl
  | inr e ↦ rw e (grants_same (grants t j a))
]
  where
    grants_same : (b : Bool) → b ≡ (b && true)
    grants_same b = ground arith

-- The contract of a revocation: the table stays valid, the key of the request loses the revoked
-- actions, and nothing else changes.
pub record Revoked (k : Key) (revoked : List String) (t t' : List Permission) : Type 0 where
  pub valid : IsValid t'
  pub drops :
      (j : Key) (a : String)
      → grants t' j a ≡ (grants t j a && not (same_key j k && includes revoked a))

module _ (p : Prisma) (now : ℕ) where
  abbrev remaining : List String → Permission → List String
  remaining revoked r = keep (λ a. not (includes revoked a)) r.actions

  -- The row `r` that was found has the key of the request, and no other row has it.
  no_other_row :
      (k j : Key) (a : String) (r : Permission) (t : List Permission)
      → IsValid t
      → Memᴰ r t
      → has_key k r ≡ true
      → (same_key j k ≡ has_key j r)
        × (same_key j k ≡ true
            → any (λ x. not (has_id r.id x) && (has_key j x && includes x.actions a)) t ≡ false)
  no_other_row k j a r t v m found =
      let same = ap (same_key j) (has_key-eq k r found) in
      (same, λ e. no_other j a r t v m (sym same ∙ e))

  delete-Revoked :
      (k : Key) (revoked : List String) (r : Permission) (t t' : List Permission)
      → IsValid t
      → Memᴰ r t
      → has_key k r ≡ true
      → remaining revoked r ≡ []
      → p.delete (has_id r.id) t ≡ ok t'
      → Revoked k revoked t t'
  delete-Revoked k revoked r t t' v m found none_left h =
      subst (Revoked k revoked t) (sym (p.delete-ok (has_id r.id) t t' h)) (record {
        valid = keep-IsValid (λ x. not (has_id r.id x)) t v;
        drops = λ j a.
            let (same, alone) = no_other_row k j a r t v m found in
            ground (
              arith,
              same,
              alone,
              grants-delete j a r t,
              grants_split j a r t v m,
              includes-keep revoked r.actions a,
              ap (λ xs. includes xs a) none_left,
            );
      })

  update-Revoked :
      (k : Key) (revoked : List String) (r : Permission) (t t' : List Permission)
      → IsValid t
      → Memᴰ r t
      → has_key k r ≡ true
      → p.update (has_id r.id) (λ x. record x { actions = remaining revoked r }) t ≡ ok t'
      → Revoked k revoked t t'
  update-Revoked k revoked r t t' v m found h =
      let f = λ (x : Permission). record x { actions = remaining revoked r } in
      subst (Revoked k revoked t) (sym (p.update-ok (has_id r.id) f t t' h)) (record {
        valid = update-IsValid (has_id r.id) f (λ x. refl) (λ x. refl) t v;
        drops = λ j a.
            let (same, alone) = no_other_row k j a r t v m found in
            ground (
              arith,
              same,
              alone,
              grants-update j a f (λ x. refl) r t v m,
              grants_split j a r t v m,
              includes-keep revoked r.actions a,
            );
      })

  drop_actions-Revoked :
      (k : Key) (revoked : List String) (r : Permission) (db db' : Db)
      → IsValid db.permissions
      → Memᴰ r db.permissions
      → has_key k r ≡ true
      → drop_actions p now revoked r db ≡ ok db'
      → Revoked k revoked db.permissions db'.permissions
  drop_actions-Revoked k revoked r db db' v m found h =
      let (t, e, same) =
        with_permissions-eq-ok p now db db'
          (if is_empty (remaining revoked r)
            then p.delete (has_id r.id) db.permissions
            else p.update (has_id r.id) (λ x. record x { actions = remaining revoked r })
                db.permissions)
          h in
      subst (λ (d : Db). Revoked k revoked db.permissions d.permissions) (sym same)
        (elim (Bool-cases (is_empty (remaining revoked r))) [
          | inl none_left ↦
              delete-Revoked k revoked r db.permissions t v m found (is_empty-eq _ none_left)
                (rw none_left at e)
          | inr some_left ↦
              update-Revoked k revoked r db.permissions t v m found (rw some_left at e)
        ])

  drop_found-Revoked :
      (k : Key) (revoked : List String) (o : Option Permission) (db db' : Db)
      → IsValid db.permissions
      → find_permission p now k db ≡ ok o
      → drop_found p now revoked o db ≡ (ok tt, db')
      → Revoked k revoked db.permissions db'.permissions
  unfolding find_permission
  drop_found-Revoked k revoked none db db' v found h =
      let absent = p.find_first-none (has_key k) db.permissions found in
      subst (λ (d : Db). Revoked k revoked db.permissions d.permissions)
        (ap (λ (o : Result (Unit {0}) × Db). o.1) h)
        (record { valid = v; drops = λ j a. absent_unchanged k j a db.permissions revoked absent })
  drop_found-Revoked k revoked (some r) db db' v found h =
      let (m, holds) = p.find_first-some (has_key k) db.permissions r found in
      drop_actions-Revoked k revoked r db db' v m holds
        (write-eq-ok (drop_actions p now revoked r) db db' tt h)

  -- A revocation that returns has removed exactly the revoked actions under the key of the request;
  -- every other key, and every other action, records what it did, and the table stays valid.
  pub revoke_permission-Revoked :
      (dto : RevokePermissionDto) (db db' : Db)
      → IsValid db.permissions
      → revoke_permission p now dto db ≡ (ok tt, db')
      → Revoked (key_of_revoke dto) (normalize_actions dto.action) db.permissions db'.permissions
  unfolding revoke_permission
  revoke_permission-Revoked dto db db' v h =
      let k = key_of_revoke dto in
      let revoked = normalize_actions dto.action in
      let (o, t, asked, rest) =
        >>=-eq-ok (query (find_permission p now k)) (drop_found p now revoked) db db' tt h in
      let (found, same) = query-eq-ok (find_permission p now k) db t o asked in
      drop_found-Revoked k revoked o db db' v found
        (subst (λ (d : Db). drop_found p now revoked o d ≡ (ok tt, db')) same rest)
