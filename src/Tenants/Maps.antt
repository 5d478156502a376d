-- ===== src/Tenants/Maps.antt =====
-- The maps of src/database/multi-tenant.service.ts and src/tenant/prisma-tenant-cache.ts.
use accurack_software_backen.Common.{
  String, none, some, List, [], ◌∷◌, ◌==◌, ◌≡◌, refl, sym, ap, subst, ◌∙◌, Bool-cases, inl, inr,
  eq_iff,
}
use accurack_software_backen.Tenants.Databases.{entry, without}

pub entry-without :
    {A : Type 0} (k : String) (xs : List (String × A)) → entry k (without k xs) ≡ none
entry-without k [] = refl
entry-without k (x ∷ xs) = elim (Bool-cases (x.0 == k)) [
  | inl h ↦ rw h (entry-without k xs)
  | inr h ↦ rw (h, h) (entry-without k xs)
]

pub entry-cons :
    {A : Type 0} (P : String → A → Type 0) (k : String) (a : A) (xs : List (String × A))
    → P k a
    → ((x : String) (b : A) → entry x xs ≡ some b → P x b)
    → (x : String) (b : A) → entry x ((k, a) ∷ xs) ≡ some b
    → P x b
entry-cons P k a xs new old x b e = elim (Bool-cases (k == x)) [
  | inl h ↦
      let hit : entry x ((k, a) ∷ xs) ≡ some a = rw h in
      let same : a ≡ b = cc (hit, e) in subst (P x) same (subst (λ y. P y a) ((eq_iff k x).0 h) new)
  | inr h ↦ let miss : entry x ((k, a) ∷ xs) ≡ entry x xs = rw h in old x b (sym miss ∙ e)
]

pub entry-without-eq-some :
    {A : Type 0} (k x : String) (xs : List (String × A)) (b : A)
    → entry x (without k xs) ≡ some b
    → entry x xs ≡ some b
entry-without-eq-some k x [] b e = e
entry-without-eq-some k x (y ∷ ys) b e = elim (Bool-cases (y.0 == k)) [
  | inl h ↦ elim (Bool-cases (y.0 == x)) [
    | inl g ↦
        let same : k ≡ x = sym ((eq_iff y.0 k).0 h) ∙ (eq_iff y.0 x).0 g in
        let hit : without k (y ∷ ys) ≡ without k ys = rw h in
        let gone : entry x (without k ys) ≡ none =
          subst (λ z. entry z (without k ys) ≡ none) same (entry-without k ys) in
        cc (e, hit, gone)
    | inr g ↦
        let hit : without k (y ∷ ys) ≡ without k ys = rw h in
        let miss : entry x (y ∷ ys) ≡ entry x ys = rw g in
        miss ∙ entry-without-eq-some k x ys b (ap (entry x) (sym hit) ∙ e)
  ]
  | inr h ↦ elim (Bool-cases (y.0 == x)) [
    | inl g ↦
        let kept : without k (y ∷ ys) ≡ y ∷ without k ys = rw h in
        let here : entry x (y ∷ ys) ≡ some y.1 = rw g in
        let there : entry x (y ∷ without k ys) ≡ some y.1 = rw g in
        here ∙ sym there ∙ ap (entry x) (sym kept) ∙ e
    | inr g ↦
        let kept : without k (y ∷ ys) ≡ y ∷ without k ys = rw h in
        let miss : entry x (y ∷ ys) ≡ entry x ys = rw g in
        let later : entry x (y ∷ without k ys) ≡ entry x (without k ys) = rw g in
        miss ∙ entry-without-eq-some k x ys b (sym later ∙ ap (entry x) (sym kept) ∙ e)
  ]
]
