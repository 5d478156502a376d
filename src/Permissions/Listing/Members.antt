-- ===== src/Permissions/Listing/Members.antt =====
-- The items, templates and permissions that getUserPermissions of src/permissions/permissions.service.ts
-- goes through, by membership.
use accurack_software_backen.Common.{
  String, Bool, true, Option, none, some, List, [], ◌∷◌, ◌++◌, ◌||◌, ◌≡◌, ◌⊎◌, ◌↔◌, inl, inr, refl,
  sym, ap, ◌∙◌, subst, map, any, includes, eq_iff, arith, Memᴰ,
}
use accurack_software_backen.Permissions.Tables.{
  ActionSpec, one, many, TemplatePermission, RoleTemplate, UserRole,
}
use accurack_software_backen.Permissions.Check.{template_of}
use accurack_software_backen.Permissions.Listing.{with_template, templates_of, permissions_of}
use accurack_software_backen.Permissions.Listing.Groups.{has_action}

pub any-mapped :
    {A B : Type 0} (q : B → Bool) (f : A → B) (xs : List A)
    → any q (map f xs) ≡ any (λ x. q (f x)) xs
any-mapped q f [] = refl
any-mapped q f (x ∷ xs) = ap (λ b. q (f x) || b) (any-mapped q f xs)

pub has_action-map : (a : String) (xs : List String) → has_action a (map one xs) ≡ includes xs a
has_action-map a [] = refl
has_action-map a (x ∷ xs) = ground (arith, has_action-map a xs, eq_iff a x, eq_iff x a)

pub has_one : (a : String) (s : ActionSpec) → (has_action a (s ∷ []) ≡ true) ↔ (s ≡ one a)
has_one a (one b) = ground (arith, eq_iff a b)
has_one a (many bs) = ground arith

Mem-append : {A : Type 0} (x : A) (xs ys : List A) → Memᴰ x (xs ++ ys) → Memᴰ x xs ⊎ Memᴰ x ys
Mem-append x [] ys m = inr m
Mem-append x (y ∷ xs) ys (Memᴰ.head e) = inl (Memᴰ.head e)
Mem-append x (y ∷ xs) ys (Memᴰ.tail m) = elim (Mem-append x xs ys m) [
  | inl l ↦ inl (Memᴰ.tail l)
  | inr r ↦ inr r
]

Mem-append_left : {A : Type 0} (x : A) (xs ys : List A) → Memᴰ x xs → Memᴰ x (xs ++ ys)
Mem-append_left x (y ∷ xs) ys (Memᴰ.head e) = Memᴰ.head e
Mem-append_left x (y ∷ xs) ys (Memᴰ.tail m) = Memᴰ.tail (Mem-append_left x xs ys m)
Mem-append_left x [] ys m = elim m [ ]

Mem-append_right : {A : Type 0} (x : A) (xs ys : List A) → Memᴰ x ys → Memᴰ x (xs ++ ys)
Mem-append_right x [] ys m = m
Mem-append_right x (y ∷ xs) ys m = Memᴰ.tail (Mem-append_right x xs ys m)

pub Mem-permissions_of :
    (y : TemplatePermission) (ts : List RoleTemplate)
    → Memᴰ y (permissions_of ts)
    → (t : RoleTemplate) × Memᴰ t ts × Memᴰ y t.permissions
Mem-permissions_of y [] m = elim m [ ]
Mem-permissions_of y (t ∷ ts) m = elim (Mem-append y t.permissions (permissions_of ts) m) [
  | inl here ↦ (t, Memᴰ.head refl, here)
  | inr later ↦ let (t', mt, my) = Mem-permissions_of y ts later in (t', Memᴰ.tail mt, my)
]

pub permissions_of-Mem :
    (y : TemplatePermission) (t : RoleTemplate) (ts : List RoleTemplate)
    → Memᴰ t ts
    → Memᴰ y t.permissions
    → Memᴰ y (permissions_of ts)
permissions_of-Mem y t [] m my = elim m [ ]
permissions_of-Mem y t (x ∷ ts) (Memᴰ.head e) my =
    Mem-append_left y x.permissions (permissions_of ts)
      (subst (λ (z : RoleTemplate). Memᴰ y z.permissions) e my)
permissions_of-Mem y t (x ∷ ts) (Memᴰ.tail m) my =
    Mem-append_right y x.permissions (permissions_of ts) (permissions_of-Mem y t ts m my)

module _ (templates : List RoleTemplate) where
  abbrev pub RoleOf : RoleTemplate → List UserRole → Type 0
  RoleOf t us = (u : UserRole) × Memᴰ u us × (template_of templates u ≡ some t)

  RoleOf-later :
      (t : RoleTemplate) (u : UserRole) (us : List UserRole) → RoleOf t us → RoleOf t (u ∷ us)
  RoleOf-later t u us (v, m, e) = (v, Memᴰ.tail m, e)

  RoleOf-cons :
      (t : RoleTemplate) (u : UserRole) (us : List UserRole) (o : Option RoleTemplate)
      → template_of templates u ≡ o
      → (Memᴰ t (templates_of templates us) → RoleOf t us)
      → Memᴰ t (with_template o (templates_of templates us))
      → RoleOf t (u ∷ us)
  RoleOf-cons t u us none e old m = RoleOf-later t u us (old m)
  RoleOf-cons t u us (some x) e old (Memᴰ.head same) = (u, Memᴰ.head refl, e ∙ ap some (sym same))
  RoleOf-cons t u us (some x) e old (Memᴰ.tail m) = RoleOf-later t u us (old m)

  pub Mem-templates_of :
      (t : RoleTemplate) (us : List UserRole) → Memᴰ t (templates_of templates us) → RoleOf t us
  Mem-templates_of t [] m = elim m [ ]
  Mem-templates_of t (u ∷ us) m =
      RoleOf-cons t u us (template_of templates u) refl (Mem-templates_of t us) m

  pub templates_of-Mem :
      (t : RoleTemplate) (u : UserRole) (us : List UserRole)
      → Memᴰ u us
      → template_of templates u ≡ some t
      → Memᴰ t (templates_of templates us)
  templates_of-Mem t u [] m e = elim m [ ]
  templates_of-Mem t u (v ∷ us) (Memᴰ.head same) e =
      let at_head : template_of templates v ≡ some t = ap (template_of templates) (sym same) ∙ e in
      subst (λ o. Memᴰ t (with_template o (templates_of templates us))) (sym at_head)
        (Memᴰ.head refl)
  templates_of-Mem t u (v ∷ us) (Memᴰ.tail m) e =
      past (template_of templates v) (templates_of-Mem t u us m e)
    where
      past :
          (o : Option RoleTemplate)
          → Memᴰ t (templates_of templates us)
          → Memᴰ t (with_template o (templates_of templates us))
      past none m' = m'
      past (some x) m' = Memᴰ.tail m'
