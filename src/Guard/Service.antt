-- ===== src/Guard/Service.antt =====
-- The guard over the permission service of this program.
use accurack_software_backen.Common.{
  ℕ, String, Bool, true, false, Option, none, some, ◌≡◌, ◌≢◌, ◌⊎◌, inl, inr, Memᴰ, ap, sym, ◌∙◌,
  subst,
}
use accurack_software_backen.Effect.{Result, ok}
use accurack_software_backen.Prisma.{Prisma}
use accurack_software_backen.Permissions.Tables.{Db}
use accurack_software_backen.Permissions.Check.{has_permission}
use accurack_software_backen.Permissions.Check.Spec.{IsGranted}
use accurack_software_backen.Permissions.Check.Laws.{has_permission_sound, has_permission_total}
use accurack_software_backen.Guard.{
  PermissionsService, PermissionRequirement, single, RequestUser, Request, stores_of,
  requested_store, can_activate,
}
use accurack_software_backen.Guard.Laws.{can_activate_sound, MayUse, Enters}

-- `PermissionsService.hasPermission` against the tables `db` at the time `now`.
abbrev pub service_of : Prisma → ℕ → Db → PermissionsService
service_of p now db = record {
  has_permission =
      λ user_id resource action store. (has_permission p now user_id resource action store db).0;
}

module _ (p : Prisma) (now : ℕ) (db : Db) where
  granted :
      (user_id resource action : String) (store : Option String)
      → (has_permission p now user_id resource action store db).0 ≡ ok true
      → IsGranted p now user_id resource action store db
  granted user_id resource action store h =
      let (b, e) = has_permission_total p now user_id resource action store db in
      has_permission_sound p now user_id resource action store db db
        (e ∙ ap (λ r. (r, db)) (sym (ap (λ (o : Result Bool × Db). o.0) e) ∙ h))

  -- What a user who is no super admin has been granted when the guard lets a request through.
  abbrev pub GrantedAt : RequestUser → PermissionRequirement → Option String → Type 0
  GrantedAt u q (some store) = IsGranted p now u.id q.resource q.action (some store) db
  GrantedAt u q none =
      IsGranted p now u.id q.resource q.action none db
      ⊎ ((store : String) × Memᴰ store (stores_of u.stores)
          × IsGranted p now u.id q.resource q.action (some store) db)

  MayUse-GrantedAt :
      (u : RequestUser) (q : PermissionRequirement) (store : Option String)
      → u.role ≢ "super_admin"
      → MayUse (service_of p now db) u store q
      → GrantedAt u q store
  MayUse-GrantedAt u q (some s) plain (inl e) = absurd (plain e)
  MayUse-GrantedAt u q (some s) plain (inr e) = granted u.id q.resource q.action (some s) e
  MayUse-GrantedAt u q none plain (inl e) = absurd (plain e)
  MayUse-GrantedAt u q none plain (inr (inl e)) = inl (granted u.id q.resource q.action none e)
  MayUse-GrantedAt u q none plain (inr (inr (s, m, e))) =
      inr (s, m, granted u.id q.resource q.action (some s) e)

  -- End to end: if the guard of a route that requires one permission lets a request of a user through
  -- who is no super admin, then the user may enter the store that the request names, and some row of
  -- the tables grants the permission there; where the request names no store, a row grants it for a
  -- check without a store or for one of the user's stores.
  pub guarded_route_granted :
      (q : PermissionRequirement) (request : Request) (u : RequestUser)
      → request.user ≡ some u
      → u.role ≢ "super_admin"
      → can_activate (service_of p now db) false (some (single q)) request ≡ ok true
      → Enters (service_of p now db) u (requested_store request)
        × GrantedAt u q (requested_store request)
  guarded_route_granted q request u e plain h =
      let (v, e', enters, may) =
        can_activate_sound (service_of p now db) (single q) request true h in
      let same : v ≡ u = cc in
      (
        subst (λ w. Enters (service_of p now db) w (requested_store request)) same enters,
        MayUse-GrantedAt u q (requested_store request) plain
            (subst (λ w. MayUse (service_of p now db) w (requested_store request) q) same may),
      )
