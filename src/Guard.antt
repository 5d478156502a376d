-- ===== src/Guard.antt =====
-- src/guards/permissions.guard.ts: the guard that a route's handler stands behind. It takes the
-- permission check as an interface, which may throw; `Guard.Service` fills it with the check of
-- src/permissions/permissions.service.ts. A throw is an error value; logging is left out.
pub mod Laws
pub mod Service
pub mod Tests
use accurack_software_backen.Common.{
  String, Bool, true, false, not, Option, none, some, List, [], ◌∷◌, ◌&&◌, ◌||◌, ◌==◌, any,
  includes, concat, join, is_some, if◌then◌else◌,
}
use accurack_software_backen.Effect.{Error, forbidden, Result, ok, err}

-- `hasPermission(userId, resource, action, storeId)`
pub record PermissionsService : Type 0 where
  pub has_permission : String → String → String → Option String → Result Bool

pub record PermissionRequirement : Type 0 where
  pub resource : String
  pub action : String

-- What the decorators of src/auth/decorators/permissions.decorator.ts attach to a route.
pub data Requirement : Type 0 where
  single : PermissionRequirement → Requirement
  listed any_of all_of : List PermissionRequirement → Requirement

-- The user that the JWT strategy puts on the request.
pub record RequestUser : Type 0 where
  pub id : String
  pub role : String
  pub stores : Option (List String)
  pub email : String

pub record Request : Type 0 where
  pub user : Option RequestUser
  pub params_id : Option String
  pub params_store_id : Option String
  pub query_store_id : Option String
  pub body_store_id : Option String
  pub header_store_id : Option String

-- `a || b || ...`: the first that is neither undefined nor empty
abbrev pub first_given : List (Option String) → Option String
first_given [] = none
first_given (none ∷ os) = first_given os
first_given (some s ∷ os) = if s == "" then first_given os else some s

abbrev pub stores_of : Option (List String) → List String
stores_of none = []
stores_of (some stores) = stores

abbrev pub may_enter : RequestUser → String → Bool
may_enter u store =
    u.role == "super_admin"
    || includes (stores_of u.stores) "*"
    || includes (stores_of u.stores) store

-- `user?.stores?.join(', ')`
abbrev pub stores_text : Option (List String) → String
stores_text none = "undefined"
stores_text (some l) = join ", " l

abbrev pub denial_text : Option RequestUser → String → String
denial_text none store = concat (
    "Access denied to store: " ∷ store
    ∷ ". User undefined (undefined) has access to stores: [undefined]" ∷ [])
denial_text (some u) store = concat (
    "Access denied to store: "
    ∷ store
    ∷ ". User "
    ∷ u.email
    ∷ " ("
    ∷ u.role
    ∷ ") has access to stores: ["
    ∷ stores_text u.stores
    ∷ "]"
    ∷ [])

abbrev pub requested_store : Request → Option String
requested_store r =
    first_given (
      r.params_id ∷ r.params_store_id ∷ r.query_store_id ∷ r.body_store_id ∷ r.header_store_id ∷ [])

abbrev pub store_for : Option RequestUser → Option String → Result (Option String)
store_for user none = ok none
store_for none (some store) = err (forbidden (denial_text none store))
store_for (some u) (some store) =
    if may_enter u store then ok (some store) else err (forbidden (denial_text (some u) store))

pub extract_store_id : Request → Result (Option String)
extract_store_id r = store_for r.user (requested_store r)

abbrev pub insufficient : PermissionRequirement → Error
insufficient q =
    forbidden (concat ("Insufficient permissions: " ∷ q.resource ∷ "." ∷ q.action ∷ []))

-- A check whose throw is caught and passed over.
abbrev pub says_yes : Result Bool → Bool
says_yes (ok b) = b
says_yes (err e) = false

abbrev pub decide : PermissionRequirement → Result Bool → Result Bool
decide q (ok true) = ok true
decide q (ok false) = err (insufficient q)
decide q (err e) = err e

module _ (service : PermissionsService) where
  abbrev pub asks : RequestUser → PermissionRequirement → Option String → Result Bool
  asks u q store = service.has_permission u.id q.resource q.action store

  pub check_permission : RequestUser → Option String → PermissionRequirement → Result Bool
  check_permission u store q = if u.role == "super_admin" then ok true else elim store [
    | some s ↦ decide q (asks u q (some s))
    | none ↦
        if says_yes (asks u q none) || any (λ s. says_yes (asks u q (some s))) (stores_of u.stores)
        then ok true
        else err (insufficient q)
  ]

  pub check_any_permission : RequestUser → Option String → List PermissionRequirement → Result Bool
  unfolding check_permission
  check_any_permission u store [] =
      err (forbidden "Insufficient permissions: None of the required permissions found")
  check_any_permission u store (q ∷ qs) =
      let rest = check_any_permission u store qs in
      elim (check_permission u store q) [ ok b ↦ ok true | err e ↦ rest ]

  pub check_all_permissions : RequestUser → Option String → List PermissionRequirement → Result Bool
  unfolding check_permission
  check_all_permissions u store [] = ok true
  check_all_permissions u store (q ∷ qs) =
      let rest = check_all_permissions u store qs in
      elim (check_permission u store q) [
        | ok b ↦ rest
        | err e ↦ err (
            forbidden
              (concat ("Insufficient permissions: Missing " ∷ q.resource ∷ "." ∷ q.action ∷ [])))
      ]

  pub check_requirement : RequestUser → Option String → Requirement → Result Bool
  unfolding check_permission check_any_permission check_all_permissions
  check_requirement u store (single q) = check_permission u store q
  check_requirement u store (listed qs) = check_any_permission u store qs
  check_requirement u store (any_of qs) = check_any_permission u store qs
  check_requirement u store (all_of qs) = check_all_permissions u store qs

  -- the `catch` block: a ForbiddenException is thrown again, any other error becomes one
  abbrev pub as_forbidden : Result Bool → Result Bool
  as_forbidden (ok b) = ok b
  as_forbidden (err (forbidden m)) = err (forbidden m)
  as_forbidden (err (Error.bad_request m)) =
      err (forbidden (concat ("Permission check failed: " ∷ m ∷ [])))
  as_forbidden (err (Error.not_found m)) =
      err (forbidden (concat ("Permission check failed: " ∷ m ∷ [])))
  as_forbidden (err (Error.conflict m)) =
      err (forbidden (concat ("Permission check failed: " ∷ m ∷ [])))
  as_forbidden (err (Error.database m)) =
      err (forbidden (concat ("Permission check failed: " ∷ m ∷ [])))

  abbrev pub check_user : Option RequestUser → Result (Option String) → Requirement → Result Bool
  check_user user (err e) requirement = err e
  check_user none (ok store) requirement = err (forbidden "User not authenticated")
  check_user (some u) (ok store) requirement = as_forbidden (check_requirement u store requirement)

  abbrev pub check_required : Option Requirement → Request → Result Bool
  check_required none request = ok true
  check_required (some requirement) request =
      check_user request.user (extract_store_id request) requirement

  pub can_activate : Bool → Option Requirement → Request → Result Bool
  can_activate is_public requirement request =
      if is_public then ok true else check_required requirement request
