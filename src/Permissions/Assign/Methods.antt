-- ===== src/Permissions/Assign/Methods.antt =====
-- What the grant methods of src/permissions/permissions.service.ts do to the database, where they
-- return.
use accurack_software_backen.Common.{ℕ, String, not, Option, some, ◌≡◌, sym, ap, subst, ◌∙◌, Memᴰ}
use accurack_software_backen.Effect.{ok, ◌>>=◌, ◌>>◌, write, query, throw_if, for_each, bad_request}
use accurack_software_backen.Effect.Laws.{>>=-eq-ok, write-eq-ok, query-eq-ok, throw_if-eq-ok}
use accurack_software_backen.Prisma.{Prisma}
use accurack_software_backen.Permissions.Tables.{Permission, Db}
use accurack_software_backen.Permissions.Requests.{
  CreatePermissionDto, normalize_actions, validate_action_strings, validate_permission,
}
use accurack_software_backen.Permissions.Assign.{
  key_of_dto, find_permission, save_permission, join_store, assign_permission,
}
use accurack_software_backen.Permissions.Assign.Rows.{IsValid}
use accurack_software_backen.Permissions.Assign.Steps.{
  IsMapped, Frame-trans, validate_all-reads, join_store-Joins,
}
use accurack_software_backen.Permissions.Assign.Refines.{Frame, Granted, save_permission-Granted}

module _ (p : Prisma) (now : ℕ) where
  -- What a grant that returns has done to the database.
  pub record Assigned (dto : CreatePermissionDto) (db db' : Db) : Type 0 where
    pub table :
        Granted p now dto
          (key_of_dto dto)
          (normalize_actions dto.action)
          db.permissions
          db'.permissions
    pub frame : Frame db db'
    pub mapped :
        (store_id : String)
        → (key_of_dto dto).store_id ≡ some store_id
        → IsMapped dto.user_id store_id db'

  -- The search and the write of a grant, in the state that joining the store leaves.
  save_found-Assigned :
      (dto : CreatePermissionDto) (granted_by : String) (db t db' : Db) (u : Unit {0})
      → IsValid db.permissions
      → t.permissions ≡ db.permissions
      → Frame db t
      → ((s : String) → (key_of_dto dto).store_id ≡ some s → IsMapped dto.user_id s t)
      → (query (find_permission p now (key_of_dto dto)) >>= λ existing. write (
            save_permission p now dto
              (key_of_dto dto)
              granted_by
              (normalize_actions dto.action)
              existing))
          t
        ≡ (ok u, db')
      → Assigned dto db db'
  save_found-Assigned dto granted_by db t db' u v same frame mapped h =
      let k = key_of_dto dto in
      let save = λ (o : Option Permission).
        write (save_permission p now dto k granted_by (normalize_actions dto.action) o) in
      let (o, w, asked, written) = >>=-eq-ok (query (find_permission p now k)) save t db' u h in
      let (found, at) = query-eq-ok (find_permission p now k) t w o asked in
      let saved =
        write-eq-ok (save_permission p now dto k granted_by (normalize_actions dto.action) o) t db'
          u (subst (λ (d : Db). save o d ≡ (ok u, db')) at written) in
      let (g, f, m) =
        save_permission-Granted p now dto k granted_by (normalize_actions dto.action) o t db'
          (subst IsValid (sym same) v) found saved in
      record {
        table =
            subst (λ x. Granted p now dto k (normalize_actions dto.action) x db'.permissions) same
              g;
        frame = Frame-trans frame f;
        mapped = λ s e.
            let (row, listed, a, b) = mapped s e in
            (row, subst (λ x. Memᴰ row x) (sym m) listed, a, b);
      }

  -- A grant that returns, on a valid table, has recorded its actions under its key and changed what no
  -- other key records; it keeps the table valid, changes no other table but the mapping of users to
  -- stores, and maps the user to the store that it names.
  pub assign_permission-Assigned :
      (dto : CreatePermissionDto) (granted_by : String) (db db' : Db) (u : Unit {0})
      → IsValid db.permissions
      → assign_permission p now dto granted_by db ≡ (ok u, db')
      → Assigned dto db db'
  unfolding assign_permission
  assign_permission-Assigned dto granted_by db db' u v h =
      let k = key_of_dto dto in
      let actions = normalize_actions dto.action in
      let last = query (find_permission p now k) >>= λ (o : Option Permission).
      write (save_permission p now dto k granted_by actions o) in
      let join = join_store p now dto.user_id k.store_id in
      let valid = for_each (validate_permission {S = Db} dto.resource) actions in
      let refuse =
        throw_if {S = Db} (not (validate_action_strings actions))
          (bad_request "Invalid action provided") in
      let (u1, s1, e1, h1) = >>=-eq-ok refuse (λ _. valid >> (join >> last)) db db' u h in
      let (u2, s2, e2, h2) = >>=-eq-ok valid (λ _. join >> last) s1 db' u h1 in
      let (u3, s3, e3, h3) = >>=-eq-ok join (λ _. last) s2 db' u h2 in
      let unread =
        validate_all-reads dto.resource actions s1 s2 u2 e2
        ∙ (throw_if-eq-ok (not (validate_action_strings actions))
            (bad_request "Invalid action provided") db s1 u1 e1).1 in
      let (same, frame, mapped) = join_store-Joins p now dto.user_id k.store_id s2 s3 u3 e3 in
      save_found-Assigned dto granted_by db s3 db' u v
        (same ∙ ap (λ (d : Db). d.permissions) unread) (subst (λ d. Frame d s3) unread frame) mapped
        h3
