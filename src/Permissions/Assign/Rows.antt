-- ===== src/Permissions/Assign/Rows.antt =====
-- The table of permissions as a finite relation: which actions the rows with a key record, and how the
-- statements that the grant methods issue change it.
use accurack_software_backen.Common.{
  ℕ, String, Bool, true, false, not, List, [], ◌∷◌, ◌++◌, ◌&&◌, ◌||◌, ◌==◌, ◌≡◌, refl, false_of_Mem,
  Bool-cases, inl, inr, ap, sym, subst, same_text, same_text-eq, nat_eq, any, keep, foldl, includes,
  Memᴰ, arith, eq_iff,
}
use accurack_software_backen.Prisma.{update_rows}
use accurack_software_backen.Permissions.Tables.{Permission}
use accurack_software_backen.Permissions.Assign.{Key, has_key, has_id, ids, add_new, distinct}

abbrev pub key_of : Permission → Key
key_of x = record {
  user_id = x.user_id;
  store_id = x.store_id;
  resource = x.resource;
  resource_id = x.resource_id;
}

-- The row with key `j` is one that a query for the key `k` finds.
abbrev pub same_key : Key → Key → Bool
same_key k j =
    j.user_id == k.user_id
    && j.resource == k.resource
    && same_text j.store_id k.store_id
    && same_text j.resource_id k.resource_id

pub same_key-eq : (k j : Key) → same_key k j ≡ true → k ≡ j
same_key-eq k j h = ground (
  arith,
  eq_iff j.user_id k.user_id,
  eq_iff j.resource k.resource,
  same_text-eq j.store_id k.store_id,
  same_text-eq j.resource_id k.resource_id,
)

abbrev records : Key → String → Permission → Bool
records k a x = has_key k x && includes x.actions a

-- Some row with the key records the action.
abbrev pub grants : List Permission → Key → String → Bool
grants t k a = any (records k a) t

-- Identifiers are unique, and so are the criteria of a grant.
abbrev pub IsValid : List Permission → Type 0
IsValid [] = Unit
IsValid (x ∷ t) = (any (has_id x.id) t ≡ false) × (any (has_key (key_of x)) t ≡ false) × IsValid t

pub fresh-has_id :
    (n : ℕ) (t : List Permission) → any (nat_eq n) (ids t) ≡ false → any (has_id n) t ≡ false
fresh-has_id n [] h = refl
fresh-has_id n (x ∷ t) h = ground (arith, fresh-has_id n t)

pub includes-append :
    (xs ys : List String) (a : String) → includes (xs ++ ys) a ≡ (includes xs a || includes ys a)
includes-append [] ys a = refl
includes-append (x ∷ xs) ys a = ground (arith, includes-append xs ys a)

includes-foldl-add_new :
    (seen xs : List String) (a : String)
    → includes (foldl add_new seen xs) a ≡ (includes seen a || includes xs a)
includes-foldl-add_new seen [] a = ground arith
includes-foldl-add_new seen (x ∷ xs) a = ground (
  arith,
  includes-foldl-add_new (add_new seen x) xs a,
  includes-append seen (x ∷ []) a,
  eq_iff x a,
)

pub includes-distinct : (xs : List String) (a : String) → includes (distinct xs) a ≡ includes xs a
includes-distinct xs a = includes-foldl-add_new [] xs a

-- The rows other than `r` that record the action under the key.
abbrev others : Permission → Key → String → List Permission → Bool
others r k a t = any (λ x. not (has_id r.id x) && records k a x) t

-- Another row of a valid table has another identifier.
other_id :
    (x r : Permission) (t : List Permission)
    → any (has_id x.id) t ≡ false
    → Memᴰ r t
    → has_id r.id x ≡ false
other_id x r t h m = ground (arith, false_of_Mem (has_id x.id) r t h m)

module _ (k : Key) (a : String) where
  others_absent :
      (r : Permission) (t : List Permission)
      → any (has_id r.id) t ≡ false
      → others r k a t ≡ grants t k a
  others_absent r [] h = refl
  others_absent r (x ∷ t) h = ground (arith, others_absent r t)

  split_head :
      (x : Permission) (t : List Permission)
      → IsValid (x ∷ t)
      → grants (x ∷ t) k a ≡ (records k a x || others x k a (x ∷ t))
  split_head x t v = ground (arith, others_absent x t)

  pub grants_split :
      (r : Permission) (t : List Permission)
      → IsValid t
      → Memᴰ r t
      → grants t k a ≡ (records k a r || others r k a t)
  grants_split r [] v m = elim m [ ]
  grants_split r (x ∷ t) v (Memᴰ.head e) =
      subst (λ y. grants (x ∷ t) k a ≡ (records k a y || others y k a (x ∷ t))) (sym e)
        (split_head x t v)
  grants_split r (x ∷ t) v (Memᴰ.tail m) =
      ground (arith, other_id x r t v.0 m, grants_split r t v.2 m)

  -- An update of one row by its identifier, which keeps the key.
  module _ (f : Permission → Permission)
      (keeps : (x : Permission) → has_key k (f x) ≡ has_key k x) where
    update_absent :
        (r : Permission) (t : List Permission)
        → any (has_id r.id) t ≡ false
        → grants (update_rows (has_id r.id) f t) k a ≡ others r k a t
    update_absent r [] h = refl
    update_absent r (x ∷ t) h = ground (arith, update_absent r t)

    update_head :
        (x : Permission) (t : List Permission)
        → IsValid (x ∷ t)
        → grants (update_rows (has_id x.id) f (x ∷ t)) k a
          ≡ ((has_key k x && includes (f x).actions a) || others x k a (x ∷ t))
    update_head x t v = ground (arith, update_absent x t v.0, keeps x)

    pub grants-update :
        (r : Permission) (t : List Permission)
        → IsValid t
        → Memᴰ r t
        → grants (update_rows (has_id r.id) f t) k a
          ≡ ((has_key k r && includes (f r).actions a) || others r k a t)
    grants-update r [] v m = elim m [ ]
    grants-update r (x ∷ t) v (Memᴰ.head e) =
        subst
          (λ y.
            grants (update_rows (has_id y.id) f (x ∷ t)) k a
            ≡ ((has_key k y && includes (f y).actions a) || others y k a (x ∷ t)))
          (sym e) (update_head x t v)
    grants-update r (x ∷ t) v (Memᴰ.tail m) =
        ground (arith, other_id x r t v.0 m, grants-update r t v.2 m)

  pub grants-delete :
      (r : Permission) (t : List Permission)
      → grants (keep (λ x. not (has_id r.id x)) t) k a ≡ others r k a t
  grants-delete r [] = refl
  grants-delete r (x ∷ t) = ground (arith, grants-delete r t)

pub any-among :
    (h q r : Permission → Bool) (t : List Permission)
    → any h t ≡ false
    → any (λ x. q x && (h x && r x)) t ≡ false
any-among h q r [] e = refl
any-among h q r (x ∷ t) e = ground (arith, any-among h q r t)

pub has_key-eq : (k : Key) (x : Permission) → has_key k x ≡ true → k ≡ key_of x
has_key-eq k x h = same_key-eq k (key_of x) h

key_of_same :
    (k : Key) (x y : Permission)
    → has_key k x ≡ true
    → has_key k y ≡ true
    → has_key (key_of y) x ≡ true
key_of_same k x y h h' = subst (λ j. has_key j x ≡ true) (has_key-eq k y h') h

module _ (k : Key) (a : String) where
  no_other_head :
      (x : Permission) (t : List Permission)
      → IsValid (x ∷ t)
      → has_key k x ≡ true
      → others x k a (x ∷ t) ≡ false
  no_other_head x t v h =
      let gone = subst (λ j. any (has_key j) t ≡ false) (sym (has_key-eq k x h)) v.1 in
      ground
        (arith, any-among (has_key k) (λ y. not (has_id x.id y)) (λ y. includes y.actions a) t gone)

  pub no_other :
      (r : Permission) (t : List Permission)
      → IsValid t
      → Memᴰ r t
      → has_key k r ≡ true
      → others r k a t ≡ false
  no_other r [] v m h = elim m [ ]
  no_other r (x ∷ t) v (Memᴰ.head e) h =
      subst (λ y. has_key k y ≡ true → others y k a (x ∷ t) ≡ false) (sym e) (no_other_head x t v) h
  no_other r (x ∷ t) v (Memᴰ.tail m) h = ground (
    arith,
    no_other r t v.2 m h,
    false_of_Mem (has_key (key_of x)) r t v.1 m,
    λ (hx : has_key k x ≡ true). key_of_same k r x h hx,
  )

-- The statements keep a table valid.
module _ (q : Permission → Bool) where
  any-keep :
      (p : Permission → Bool) (t : List Permission) → any p t ≡ false → any p (keep q t) ≡ false
  any-keep p [] h = refl
  any-keep p (x ∷ t) h = ground (arith, any-keep p t)

  pub keep-IsValid : (t : List Permission) → IsValid t → IsValid (keep q t)
  keep-IsValid [] v = tt
  keep-IsValid (x ∷ t) v =
      ground (
        arith,
        any-keep (has_id x.id) t v.0,
        any-keep (has_key (key_of x)) t v.1,
        keep-IsValid t v.2,
      )

module _ (q : Permission → Bool) (f : Permission → Permission)
    (same_id : (x : Permission) → (f x).id ≡ x.id)
    (same : (x : Permission) → key_of (f x) ≡ key_of x) where
  any_id-update :
      (n : ℕ) (t : List Permission) → any (has_id n) (update_rows q f t) ≡ any (has_id n) t
  any_id-update n [] = refl
  any_id-update n (x ∷ t) = ground (arith, same_id x, any_id-update n t)

  any_key-update :
      (k : Key) (t : List Permission) → any (has_key k) (update_rows q f t) ≡ any (has_key k) t
  any_key-update k [] = refl
  any_key-update k (x ∷ t) = ground (arith, ap (same_key k) (same x), any_key-update k t)

  pub update-IsValid : (t : List Permission) → IsValid t → IsValid (update_rows q f t)
  update-IsValid [] v = tt
  update-IsValid (x ∷ t) v = elim (Bool-cases (q x)) [
    | inl e ↦ rw (e, any_id-update, any_key-update, same_id, same) (v.0, v.1, update-IsValid t v.2)
    | inr e ↦ rw (e, any_id-update, any_key-update) (v.0, v.1, update-IsValid t v.2)
  ]
