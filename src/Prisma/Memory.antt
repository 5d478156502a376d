-- ===== src/Prisma/Memory.antt =====
-- A database in memory that meets the laws of the interface: the hypotheses can hold, and the tests
-- run on it.
use accurack_software_backen.Common.{
  ℕ, ◌+◌, ◌≤◌, Bool, true, false, not, Option, none, some, List, [], ◌∷◌, ◌≡◌, refl, Memᴰ, any,
  keep, find, nat_eq, arith, if◌then◌else◌, Bool-cases, inl, inr, ap, sym, subst, ◌∙◌, leb, ◌⊎◌,
  any_of_Mem, length, keep-keep, ◌&&◌,
}
use accurack_software_backen.Effect.{is_ok, Error, Result, ok, err, Action, database}
use accurack_software_backen.Prisma.{Prisma, IsReliable, update_rows}

abbrev above : List ℕ → ℕ
above [] = 1
above (x ∷ xs) = x + above xs

above-pos : (xs : List ℕ) → 1 ≤ above xs
above-pos [] = omega arith
above-pos (x ∷ xs) = omega (arith, above-pos xs)

above-new : (k : ℕ) (xs : List ℕ) → above xs ≤ k → any (nat_eq k) xs ≡ false
above-new k [] h = refl
above-new k (x ∷ xs) h = ground (arith, above-pos xs, above-new k xs)

pub above-new_self : (xs : List ℕ) → any (nat_eq (above xs)) xs ≡ false
above-new_self xs = above-new (above xs) xs (omega arith)

not_both : (b : Bool) → b ≡ true → b ≡ false → ⊥
not_both b h k = cc

le_of_eq : (a b : ℕ) → a ≡ b → a ≤ b
le_of_eq a b h = omega arith

below_both : (a b c : ℕ) → a ≤ b → leb b c ≡ true → a ≤ c
below_both a b c h k = ground arith

below_other : (a b c : ℕ) → a ≡ c → leb b c ≡ false → a ≤ b
below_other a b c h k = ground arith

pub ok_inj : {A : Type 0} {a b : A} → ok a ≡ ok b → a ≡ b
ok_inj h = cc

module _ {R : Type 0} where
  keep_head :
      (q : R → Bool) (x : R) (t : List R) (r : R)
      → q x ≡ true
      → Memᴰ r (x ∷ keep q t)
      → (Memᴰ r (keep q t) → Memᴰ r t × (q r ≡ true))
      → Memᴰ r (x ∷ t) × (q r ≡ true)
  keep_head q x t r e (Memᴰ.head same) ih = (Memᴰ.head same, ap q same ∙ e)
  keep_head q x t r e (Memᴰ.tail m) ih = let (m', holds) = ih m in (Memᴰ.tail m', holds)

  abbrev create_row : (R → R → Bool) → R → List R → Result (List R)
  create_row clash r t = if any (clash r) t then err (database "P2002") else ok (r ∷ t)

  abbrev change_row : (R → Bool) → (R → R) → List R → Result (List R)
  change_row q f t = if any q t then ok (update_rows q f t) else err (database "P2025")

  abbrev delete_row : (R → Bool) → List R → Result (List R)
  delete_row q t = if any q t then ok (keep (λ r. not (q r)) t) else err (database "P2025")

  module _ (q : R → Bool) where
    pub find-some :
        (t : List R) (r : R)
        → ◌≡◌ {A = Result (Option R)} (ok (find q t)) (ok (some r))
        → Memᴰ r t × (q r ≡ true)
    find-some [] r h = cc
    find-some (x ∷ t) r h = elim (Bool-cases (q x)) [
      | inl e ↦ let same : x ≡ r = ground arith in (Memᴰ.head (sym same), ground arith)
      | inr e ↦ let (m, holds) = find-some t r (ground arith) in (Memᴰ.tail m, holds)
    ]

    pub find-none :
        (t : List R) → ◌≡◌ {A = Result (Option R)} (ok (find q t)) (ok none) → any q t ≡ false
    find-none [] h = refl
    find-none (x ∷ t) h = ground (arith, find-none t)

    keep_sound : (t : List R) (r : R) → Memᴰ r (keep q t) → Memᴰ r t × (q r ≡ true)
    keep_sound [] r m = elim m [ ]
    keep_sound (x ∷ t) r m = elim (Bool-cases (q x)) [
      | inl e ↦ keep_head q x t r e (rw e at m) (keep_sound t r)
      | inr e ↦ let (m', holds) = keep_sound t r (rw e at m) in (Memᴰ.tail m', holds)
    ]

    keep-complete : (t : List R) (r : R) → Memᴰ r t → q r ≡ true → Memᴰ r (keep q t)
    keep-complete [] r m h = elim m [ ]
    keep-complete (x ∷ t) r (Memᴰ.head e) h = rw (rw e at h) (Memᴰ.head e)
    keep-complete (x ∷ t) r (Memᴰ.tail m) h = elim (Bool-cases (q x)) [
      | inl e ↦ rw e (Memᴰ.tail (keep-complete t r m h))
      | inr e ↦ rw e (keep-complete t r m h)
    ]

    pub find_many-sound_lem :
        (t rs : List R) (r : R)
        → ◌≡◌ {A = Result (List R)} (ok (keep q t)) (ok rs)
        → Memᴰ r rs
        → Memᴰ r t × (q r ≡ true)
    find_many-sound_lem t rs r h m = keep_sound t r (subst (Memᴰ r) (ok_inj (sym h)) m)

    pub find_many-count_lem :
        (test : R → Bool) (t rs : List R)
        → ◌≡◌ {A = Result (List R)} (ok (keep q t)) (ok rs)
        → length (keep test rs) ≡ length (keep (λ r. q r && test r) t)
    find_many-count_lem test t rs h =
        ap (λ l. length (keep test l)) (sym (ok_inj h)) ∙ ap length (keep-keep q test t)

    pub find_many-complete_lem :
        (t rs : List R) (r : R)
        → ◌≡◌ {A = Result (List R)} (ok (keep q t)) (ok rs)
        → Memᴰ r t
        → q r ≡ true
        → Memᴰ r rs
    find_many-complete_lem t rs r h m e = subst (Memᴰ r) (ok_inj h) (keep-complete t r m e)

  pub create_row-ok :
      (clash : R → R → Bool) (r : R) (t t' : List R)
      → create_row clash r t ≡ ok t'
      → (any (clash r) t ≡ false) × (t' ≡ r ∷ t)
  create_row-ok clash r t t' h = ground arith

  pub change_row-ok :
      (q : R → Bool) (f : R → R) (t t' : List R) → change_row q f t ≡ ok t' → t' ≡ update_rows q f t
  change_row-ok q f t t' h = ground arith

  pub change_row-found :
      (q : R → Bool) (f : R → R) (t t' : List R) → change_row q f t ≡ ok t' → any q t ≡ true
  change_row-found q f t t' h = ground arith

  -- The later of a row and of the latest so far.
  abbrev later_of : (R → ℕ) → R → Option R → Option R
  later_of time r none = some r
  later_of time r (some x) = if leb (time x) (time r) then some r else some x

  abbrev latest : (R → ℕ) → (R → Bool) → List R → Option R
  latest time q [] = none
  latest time q (r ∷ t) = if q r then later_of time r (latest time q t) else latest time q t

  module _ (time : R → ℕ) (q : R → Bool) where
    abbrev IsLatest : List R → Option R → Type 0
    IsLatest t none = any q t ≡ false
    IsLatest t (some r) =
        Memᴰ r t × (q r ≡ true) × ((x : R) → Memᴰ x t → q x ≡ true → time x ≤ time r)

    at_most : (r : R) (t : List R) (x : R) → Memᴰ x (r ∷ t) → (x ≡ r) ⊎ Memᴰ x t
    at_most r t x (Memᴰ.head e) = inl e
    at_most r t x (Memᴰ.tail m) = inr m

    skip : (r : R) (t : List R) (o : Option R) → q r ≡ false → IsLatest t o → IsLatest (r ∷ t) o
    skip r t none h l = rw (h, l)
    skip r t (some y) h l = (
      Memᴰ.tail l.0,
      l.1,
      λ x m e. elim (at_most r t x m) [
        | inl same ↦ absurd (not_both (q r) (sym (ap q same) ∙ e) h)
        | inr m' ↦ l.2 x m' e
      ],
    )

    later_of-IsLatest :
        (r : R) (t : List R) (o : Option R)
        → q r ≡ true
        → IsLatest t o
        → IsLatest (r ∷ t) (later_of time r o)
    later_of-IsLatest r t none h l = (
      Memᴰ.head refl,
      h,
      λ x m e. elim (at_most r t x m) [
        | inl same ↦ le_of_eq (time x) (time r) (ap time same)
        | inr m' ↦ absurd (not_both (any q t) (any_of_Mem q x t m' e) l)
      ],
    )
    later_of-IsLatest r t (some y) h l = elim (Bool-cases (leb (time y) (time r))) [
      | inl e ↦ rw e (
        Memᴰ.head refl,
        h,
        λ x m k. elim (at_most r t x m) [
          | inl same ↦ le_of_eq (time x) (time r) (ap time same)
          | inr m' ↦ below_both (time x) (time y) (time r) (l.2 x m' k) e
        ],
      )
      | inr e ↦ rw e (
        Memᴰ.tail l.0,
        l.1,
        λ x m k. elim (at_most r t x m) [
          | inl same ↦ below_other (time x) (time y) (time r) (ap time same) e
          | inr m' ↦ l.2 x m' k
        ],
      )
    ]

    latest-IsLatest : (t : List R) → IsLatest t (latest time q t)
    latest-IsLatest [] = refl
    latest-IsLatest (r ∷ t) = elim (Bool-cases (q r)) [
      | inl e ↦ rw e (later_of-IsLatest r t (latest time q t) e (latest-IsLatest t))
      | inr e ↦ rw e (skip r t (latest time q t) e (latest-IsLatest t))
    ]

    pub latest-some :
        (t : List R) (r : R)
        → ◌≡◌ {A = Result (Option R)} (ok (latest time q t)) (ok (some r))
        → Memᴰ r t × (q r ≡ true) × ((x : R) → Memᴰ x t → q x ≡ true → time x ≤ time r)
    latest-some t r h = subst (IsLatest t) (ok_inj h) (latest-IsLatest t)

    pub latest-none :
        (t : List R)
        → ◌≡◌ {A = Result (Option R)} (ok (latest time q t)) (ok none)
        → any q t ≡ false
    latest-none t h = subst (IsLatest t) (ok_inj h) (latest-IsLatest t)

  pub delete_row-ok :
      (q : R → Bool) (t t' : List R) → delete_row q t ≡ ok t' → t' ≡ keep (λ r. not (q r)) t
  delete_row-ok q t t' h = ground arith

module _ {S A : Type 0} where
  abbrev restore : S → Result A × S → Result A × S
  restore s (ok a, s') = (ok a, s')
  restore s (err e, s') = (err e, s)

  abbrev all_or_nothing : Action S A → Action S A
  all_or_nothing f s = restore s (f s)

  pub restore-ok : (s s' : S) (a : A) (o : Result A × S) → restore s o ≡ (ok a, s') → o ≡ (ok a, s')
  restore-ok s s' a (ok b, s'') h = h
  restore-ok s s' a (err e, s'') h = cc

  pub restore-err : (s s' : S) (e : Error) (o : Result A × S) → restore s o ≡ (err e, s') → s' ≡ s
  restore-err s s' e (ok b, s'') h = cc
  restore-err s s' e (err e', s'') h = cc

abbrev pub memory : Bool → Prisma
memory undefined_in_or = record {
  undefined_in_or = undefined_in_or;
  fresh = above;
  find_first = λ q t. ok (find q t);
  find_many = λ q t. ok (keep q t);
  create = create_row;
  update = change_row;
  find_latest = λ time q t. ok (latest time q t);
  delete = delete_row;
  update_many = λ q f t. ok (update_rows q f t);
  delete_many = λ q t. ok (keep (λ r. not (q r)) t);
  transaction = all_or_nothing;
  fresh-new = above-new_self;
  find_first-some = find-some;
  find_first-none = find-none;
  find_many-sound = find_many-sound_lem;
  find_many-complete = find_many-complete_lem;
  find_many-count = λ q test t rs h. find_many-count_lem q test t rs h;
  create-ok = create_row-ok;
  update-ok = change_row-ok;
  update-found = change_row-found;
  find_latest-some = latest-some;
  find_latest-none = latest-none;
  delete-ok = delete_row-ok;
  update_many-ok = λ q f t t' h. sym (ok_inj h);
  delete_many-ok = λ q t t' h. sym (ok_inj h);
  transaction-ok = λ f s s' a h. restore-ok s s' a (f s) h;
  transaction-err = λ f s s' e h. restore-err s s' e (f s) h;
}

pub memory-IsReliable : (b : Bool) → IsReliable (memory b)
memory-IsReliable b = record {
  find_first-returns = λ q t. refl;
  find_many-returns = λ q t. refl;
  transaction-returns = λ f s s' a h. rw h;
}

-- It refuses a row only where it clashes, and an update only where no row is met.
pub memory-create :
    (b : Bool) {R : Type 0} (clash : R → R → Bool) (r : R) (t : List R)
    → any (clash r) t ≡ false
    → is_ok ((memory b).create clash r t) ≡ true
memory-create b clash r t h = rw h

pub memory-update :
    (b : Bool) {R : Type 0} (q : R → Bool) (f : R → R) (t : List R)
    → any q t ≡ true
    → is_ok ((memory b).update q f t) ≡ true
memory-update b q f t h = rw h
