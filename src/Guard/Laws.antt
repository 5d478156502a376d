-- ===== src/Guard/Laws.antt =====
-- What the guard has established when it lets a request through, and how it refuses.
use accurack_software_backen.Common.{
  String, Bool, true, false, Option, none, some, List, [], ◌∷◌, ◌||◌, ◌==◌, ◌≡◌, refl, ◌⊎◌, inl,
  inr, any, includes, All, Memᴰ, arith, eq_iff, Bool-cases, Mem_of_any, ||-true, concat, subst, ap,
}
use accurack_software_backen.Effect.{Error, forbidden, Result, ok, err}
use accurack_software_backen.Guard.{
  PermissionsService, PermissionRequirement, Requirement, single, listed, any_of, all_of,
  RequestUser, Request, stores_of, may_enter, denial_text, requested_store, store_for,
  extract_store_id, says_yes, decide, asks, check_permission, check_any_permission,
  check_all_permissions, check_requirement, as_forbidden, check_user, can_activate,
}

first_or_rest :
    (r rest : Result Bool) (b : Bool)
    → (elim r as (λ _. Result Bool) [ ok c ↦ ok true | err e ↦ rest ]) ≡ ok b
    → ((c : Bool) × (r ≡ ok c)) ⊎ (rest ≡ ok b)
first_or_rest (ok c) rest b h = inl (c, refl)
first_or_rest (err e) rest b h = inr h

both_ok :
    (r rest : Result Bool) (x : Error) (b : Bool)
    → (elim r as (λ _. Result Bool) [ ok c ↦ rest | err e ↦ err x ]) ≡ ok b
    → ((c : Bool) × (r ≡ ok c)) × (rest ≡ ok b)
both_ok (ok c) rest x b h = ((c, refl), h)
both_ok (err e) rest x b h = cc

module _ (service : PermissionsService) where
  -- The user is a super admin, or the service grants the requirement: for the store that is asked for,
  -- or, where none is, for every store or for one of the user's stores.
  abbrev pub MayUse : RequestUser → Option String → PermissionRequirement → Type 0
  MayUse u (some store) q = (u.role ≡ "super_admin") ⊎ (asks service u q (some store) ≡ ok true)
  MayUse u none q =
      (u.role ≡ "super_admin")
      ⊎ ((asks service u q none ≡ ok true)
          ⊎ ((store : String) × Memᴰ store (stores_of u.stores)
              × (asks service u q (some store) ≡ ok true)))

  abbrev pub SomeOf : RequestUser → Option String → List PermissionRequirement → Type 0
  SomeOf u store [] = ⊥
  SomeOf u store (q ∷ qs) = MayUse u store q ⊎ SomeOf u store qs

  abbrev pub Satisfies : RequestUser → Option String → Requirement → Type 0
  Satisfies u store (single q) = MayUse u store q
  Satisfies u store (listed qs) = SomeOf u store qs
  Satisfies u store (any_of qs) = SomeOf u store qs
  Satisfies u store (all_of qs) = All (MayUse u store) qs

  says_yes-true : (r : Result Bool) → says_yes r ≡ true → r ≡ ok true
  says_yes-true (ok b) h = ground arith
  says_yes-true (err e) h = cc

  decide-ok :
      (q : PermissionRequirement) (r : Result Bool) (b : Bool) → decide q r ≡ ok b → r ≡ ok true
  decide-ok q (ok true) b h = refl
  decide-ok q (ok false) b h = cc
  decide-ok q (err e) b h = cc

  no_store :
      (u : RequestUser) (q : PermissionRequirement)
      → (says_yes (asks service u q none)
          || any (λ s. says_yes (asks service u q (some s))) (stores_of u.stores))
        ≡ true
      → MayUse u none q
  no_store u q h =
      elim (||-true (says_yes (asks service u q none))
        (any (λ s. says_yes (asks service u q (some s))) (stores_of u.stores)) h) [
          | inl e ↦ inr (inl (says_yes-true (asks service u q none) e))
          | inr e ↦
              let (s, m, granted) =
                Mem_of_any (λ s. says_yes (asks service u q (some s))) (stores_of u.stores) e in
              inr (inr (s, m, says_yes-true (asks service u q (some s)) granted))
        ]

  check_permission-MayUse :
      (u : RequestUser) (store : Option String) (q : PermissionRequirement) (b : Bool)
      → check_permission service u store q ≡ ok b
      → MayUse u store q
  unfolding check_permission
  check_permission-MayUse u (some s) q b h = elim (Bool-cases (u.role == "super_admin")) [
    | inl e ↦ inl ((eq_iff u.role "super_admin").0 e)
    | inr e ↦ inr (decide-ok q (asks service u q (some s)) b (rw e at h))
  ]
  check_permission-MayUse u none q b h = elim (Bool-cases (u.role == "super_admin")) [
    | inl e ↦ inl ((eq_iff u.role "super_admin").0 e)
    | inr e ↦ no_store u q (ground arith)
  ]

  check_any-SomeOf :
      (u : RequestUser) (store : Option String) (qs : List PermissionRequirement) (b : Bool)
      → check_any_permission service u store qs ≡ ok b
      → SomeOf u store qs
  unfolding check_any_permission
  check_any-SomeOf u store [] b h = cc
  check_any-SomeOf u store (q ∷ qs) b h =
      elim (first_or_rest (check_permission service u store q)
        (check_any_permission service u store qs) b h) [
          | inl (c, e) ↦ inl (check_permission-MayUse u store q c e)
          | inr e ↦ inr (check_any-SomeOf u store qs b e)
        ]

  check_all_permissions-MayUse :
      (u : RequestUser) (store : Option String) (qs : List PermissionRequirement) (b : Bool)
      → check_all_permissions service u store qs ≡ ok b
      → All (MayUse u store) qs
  unfolding check_all_permissions
  check_all_permissions-MayUse u store [] b h = tt
  check_all_permissions-MayUse u store (q ∷ qs) b h =
      let ((c, e), rest) =
        both_ok (check_permission service u store q) (check_all_permissions service u store qs)
          (forbidden
            (concat ("Insufficient permissions: Missing " ∷ q.resource ∷ "." ∷ q.action ∷ [])))
          b h in
      (check_permission-MayUse u store q c e, check_all_permissions-MayUse u store qs b rest)

  check_requirement-Satisfies :
      (u : RequestUser) (store : Option String) (r : Requirement) (b : Bool)
      → check_requirement service u store r ≡ ok b
      → Satisfies u store r
  unfolding check_requirement
  check_requirement-Satisfies u store (single q) b h = check_permission-MayUse u store q b h
  check_requirement-Satisfies u store (listed qs) b h = check_any-SomeOf u store qs b h
  check_requirement-Satisfies u store (any_of qs) b h = check_any-SomeOf u store qs b h
  check_requirement-Satisfies u store (all_of qs) b h = check_all_permissions-MayUse u store qs b h

  as_forbidden-ok : (r : Result Bool) (b : Bool) → as_forbidden service r ≡ ok b → r ≡ ok b
  as_forbidden-ok (ok c) b h = h
  as_forbidden-ok (err (Error.bad_request m)) b h = cc
  as_forbidden-ok (err (Error.not_found m)) b h = cc
  as_forbidden-ok (err (forbidden m)) b h = cc
  as_forbidden-ok (err (Error.conflict m)) b h = cc
  as_forbidden-ok (err (Error.database m)) b h = cc

  -- The store that a request names is one that its user may enter.
  abbrev pub Enters : RequestUser → Option String → Type 0
  Enters u none = Unit
  Enters u (some store) =
      (u.role ≡ "super_admin")
      ⊎ ((includes (stores_of u.stores) "*" ≡ true) ⊎ (includes (stores_of u.stores) store ≡ true))

  store_for-Enters :
      (u : RequestUser) (asked found : Option String)
      → store_for (some u) asked ≡ ok found
      → (found ≡ asked) × Enters u asked
  store_for-Enters u none found h = (cc, tt)
  store_for-Enters u (some s) found h = (ground arith, ground (arith, eq_iff u.role "super_admin"))

  check_user_sound :
      (user : Option RequestUser) (asked : Option String) (r : Requirement) (b : Bool)
      → check_user service user (store_for user asked) r ≡ ok b
      → (u : RequestUser) × (user ≡ some u) × Enters u asked × Satisfies u asked r
  check_user_sound none none r b h = cc
  check_user_sound none (some s) r b h = cc
  check_user_sound (some u) asked r b h = passed (store_for (some u) asked) refl h
    where
      passed :
          (o : Result (Option String))
          → store_for (some u) asked ≡ o
          → check_user service (some u) o r ≡ ok b
          → (v : RequestUser) × (some u ≡ some v) × Enters v asked × Satisfies v asked r
      passed (err x) e k = cc
      passed (ok found) e k =
          let (same, enters) = store_for-Enters u asked found e in
          (
            u,
            refl,
            enters,
            check_requirement-Satisfies u asked r b (
                subst (λ s. check_requirement service u s r ≡ ok b) same
                  (as_forbidden-ok (check_requirement service u found r) b k)),
          )

  -- A request passes the guard of a route with a requirement, which is not public, only with a user
  -- who may enter the store that the request names and who satisfies the requirement there.
  pub can_activate_sound :
      (requirement : Requirement) (request : Request) (b : Bool)
      → can_activate service false (some requirement) request ≡ ok b
      → (u : RequestUser) × (request.user ≡ some u)
        × Enters u (requested_store request)
        × Satisfies u (requested_store request) requirement
  unfolding can_activate extract_store_id
  can_activate_sound requirement request b h =
      check_user_sound request.user (requested_store request) requirement b h

  decide-true :
      (q : PermissionRequirement) (r : Result Bool) (b : Bool) → decide q r ≡ ok b → b ≡ true
  decide-true q (ok true) b h = ground arith
  decide-true q (ok false) b h = cc
  decide-true q (err e) b h = cc

  check_permission-true :
      (u : RequestUser) (store : Option String) (q : PermissionRequirement) (b : Bool)
      → check_permission service u store q ≡ ok b
      → b ≡ true
  unfolding check_permission
  check_permission-true u (some s) q b h = elim (Bool-cases (u.role == "super_admin")) [
    | inl e ↦ ground arith
    | inr e ↦ decide-true q (asks service u q (some s)) b (rw e at h)
  ]
  check_permission-true u none q b h = ground arith

  check_any-true :
      (u : RequestUser) (store : Option String) (qs : List PermissionRequirement) (b : Bool)
      → check_any_permission service u store qs ≡ ok b
      → b ≡ true
  unfolding check_any_permission
  check_any-true u store [] b h = cc
  check_any-true u store (q ∷ qs) b h = ground (arith, check_any-true u store qs b)

  check_all-true :
      (u : RequestUser) (store : Option String) (qs : List PermissionRequirement) (b : Bool)
      → check_all_permissions service u store qs ≡ ok b
      → b ≡ true
  unfolding check_all_permissions
  check_all-true u store [] b h = ground arith
  check_all-true u store (q ∷ qs) b h = ground (arith, check_all-true u store qs b)

  check_requirement-true :
      (u : RequestUser) (store : Option String) (r : Requirement) (b : Bool)
      → check_requirement service u store r ≡ ok b
      → b ≡ true
  unfolding check_requirement
  check_requirement-true u store (single q) b h = check_permission-true u store q b h
  check_requirement-true u store (listed qs) b h = check_any-true u store qs b h
  check_requirement-true u store (any_of qs) b h = check_any-true u store qs b h
  check_requirement-true u store (all_of qs) b h = check_all-true u store qs b h

  -- Let through, or a ForbiddenException.
  abbrev pub Settles : Result Bool → Type 0
  Settles r = (r ≡ ok true) ⊎ ((m : String) × (r ≡ err (forbidden m)))

  as_forbidden-Settles :
      (r : Result Bool) → ((b : Bool) → r ≡ ok b → b ≡ true) → Settles (as_forbidden service r)
  as_forbidden-Settles (ok b) h = inl (ap ok (h b refl))
  as_forbidden-Settles (err (forbidden m)) h = inr (m, refl)
  as_forbidden-Settles (err (Error.bad_request m)) h =
      inr (concat ("Permission check failed: " ∷ m ∷ []), refl)
  as_forbidden-Settles (err (Error.not_found m)) h =
      inr (concat ("Permission check failed: " ∷ m ∷ []), refl)
  as_forbidden-Settles (err (Error.conflict m)) h =
      inr (concat ("Permission check failed: " ∷ m ∷ []), refl)
  as_forbidden-Settles (err (Error.database m)) h =
      inr (concat ("Permission check failed: " ∷ m ∷ []), refl)

  check_user-Settles :
      (user : Option RequestUser) (asked : Option String) (r : Requirement)
      → Settles (check_user service user (store_for user asked) r)
  check_user-Settles none none r = inr ("User not authenticated", refl)
  check_user-Settles none (some s) r = inr (denial_text none s, refl)
  check_user-Settles (some u) none r =
      as_forbidden-Settles (check_requirement service u none r) (check_requirement-true u none r)
  check_user-Settles (some u) (some s) r = elim (Bool-cases (may_enter u s)) [
    | inl e ↦ rw e (
        as_forbidden-Settles (check_requirement service u (some s) r)
          (check_requirement-true u (some s) r))
    | inr e ↦ rw e (inr (denial_text (some u) s, refl))
  ]

  -- Whatever the service does, the guard either lets the request through or throws a
  -- ForbiddenException: it never answers false, and no other error leaves it.
  pub can_activate_cases :
      (is_public : Bool) (requirement : Option Requirement) (request : Request)
      → Settles (can_activate service is_public requirement request)
  unfolding can_activate extract_store_id
  can_activate_cases true requirement request = inl refl
  can_activate_cases false none request = inl refl
  can_activate_cases false (some r) request =
      check_user-Settles request.user (requested_store request) r
