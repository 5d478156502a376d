-- ===== src/Permissions/Requests.antt =====
-- What the grant methods of src/permissions/permissions.service.ts take, and how they normalise and
-- validate it before they touch the database.
use accurack_software_backen.Common.{
  ℕ, String, Bool, false, not, Option, none, some, List, [], ◌∷◌, ◌||◌, ◌==◌, every, includes,
  is_blank, if◌then◌else◌, concat, join,
}
use accurack_software_backen.Effect.{bad_request, Action, ◌>>◌, pure, throw_if}
use accurack_software_backen.Permissions.Enums.{
  permission_resources, permission_actions, valid_actions,
}
use accurack_software_backen.Permissions.Tables.{ActionSpec, one, many}

pub record CreatePermissionDto : Type 0 where
  pub user_id : String
  pub store_id : Option String
  pub resource : String
  pub action : ActionSpec
  pub resource_id : Option String
  pub granted : Option Bool
  pub conditions : Option String
  pub expires_at : Option ℕ

pub record RevokePermissionDto : Type 0 where
  pub user_id : String
  pub resource : String
  pub action : ActionSpec
  pub store_id : Option String
  pub resource_id : Option String

pub record PermissionActionDto : Type 0 where
  pub resource : String
  pub action : String

pub record BulkAssignPermissionsDto : Type 0 where
  pub user_ids : List String
  pub permissions : List PermissionActionDto
  pub store_id : Option String

abbrev pub crud_actions : List String
crud_actions = "create" ∷ "read" ∷ "update" ∷ "delete" ∷ []

unfoldable pub normalize_actions : ActionSpec → List String
normalize_actions (one a) = if a == "*" then crud_actions else a ∷ []
normalize_actions (many as_given) = as_given

unfoldable pub validate_action_strings : List String → Bool
validate_action_strings actions = every (includes crud_actions) actions

-- `s && s.trim() !== '' ? s : null`
unfoldable pub normalize_id : Option String → Option String
normalize_id none = none
normalize_id (some s) = if is_blank s then none else some s

-- `validActions && !validActions.includes(action)`
abbrev pub refused_by : String → Option (List String) → Bool
refused_by action none = false
refused_by action (some actions) = not (includes actions action)

-- The message that lists the valid actions of a resource.
abbrev pub refusal : String → String → Option (List String) → String
refusal resource action none = ""
refusal resource action (some actions) = concat (
    "Invalid action '"
    ∷ action
    ∷ "' for resource '"
    ∷ resource
    ∷ "'. Valid actions: "
    ∷ join ", " actions
    ∷ [])

module _ {S : Type 0} where
  unfoldable pub validate_permission : String → String → Action S (Unit {0})
  validate_permission resource action =
      if resource == "*" || action == "*"
      then pure tt
      else (throw_if (not (includes permission_resources resource))
            (bad_request (concat ("Invalid resource: " ∷ resource ∷ [])))
          >> (throw_if (not (includes permission_actions action))
                (bad_request (concat ("Invalid action: " ∷ action ∷ [])))
              >> throw_if (refused_by action (valid_actions resource))
                  (bad_request (refusal resource action (valid_actions resource)))))
