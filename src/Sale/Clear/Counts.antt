-- ===== src/Sale/Clear/Counts.antt =====
-- How many rows a deletion by the identifiers of a batch removes.
use accurack_software_backen.Common.{
  ℕ, zero, suc, ◌+◌, ◌≤◌, Bool, true, not, List, [], ◌∷◌, ◌&&◌, ◌≡◌, refl, sym, ap, subst, ◌∙◌,
  length, take, keep, keep-keep, map, any, nat_eq, nat_eq_self, Memᴰ, Bool-cases, inl, inr, arith,
}

module _ {A : Type 0} where
  -- The rows of which a test holds and those of which it does not.
  pub keep-split :
      (q test : A → Bool) (t : List A)
      → length (keep q t)
        ≡ length (keep (λ x. q x && test x) t) + length (keep (λ x. q x && not (test x)) t)
  keep-split q test [] = omega arith
  keep-split q test (x ∷ t) =
      let rest = keep-split q test t in
      elim (Bool-cases (q x)) [
        | inl h ↦ elim (Bool-cases (test x)) [
          | inl g ↦ rw (h, g) (omega arith)
          | inr g ↦ rw (h, g) (omega arith)
        ]
        | inr h ↦ rw h (omega arith)
      ]

  -- A test that holds of the first rows holds of as many at least.
  pub take-keep :
      (n : ℕ) (test : A → Bool) (rs : List A)
      → ((x : A) → Memᴰ x (take n rs) → test x ≡ true)
      → length (take n rs) ≤ length (keep test rs)
  take-keep zero test rs h = omega arith
  take-keep (suc n) test [] h = omega arith
  take-keep (suc n) test (x ∷ rs) h =
      let rest = take-keep n test rs (λ y m. h y (Memᴰ.tail m)) in
      rw (h x (Memᴰ.head refl)) (omega arith)

  keep-congr : (q test : A → Bool) (t : List A) → ((x : A) → q x ≡ test x) → keep q t ≡ keep test t
  keep-congr q test [] e = refl
  keep-congr q test (x ∷ t) e = rw (e x, keep-congr q test t e) refl

  pub among-take :
      (id : A → ℕ) (x : A) (l : List A) → Memᴰ x l → any (nat_eq (id x)) (map id l) ≡ true
  among-take id x [] m = elim m [ ]
  among-take id x (y ∷ l) (Memᴰ.head e) =
      let self : nat_eq (id x) (id y) ≡ true =
        subst (λ z. nat_eq (id x) (id z) ≡ true) e (nat_eq_self (id x)) in
      ground arith
  among-take id x (y ∷ l) (Memᴰ.tail m) = ground (arith, among-take id x l m)

  -- Where a list of rows has as many as the table of each kind that meets `q`, deleting by the
  -- identifiers of its first rows removes at least as many rows that meet `q` as there are first rows.
  pub removed :
      (q : A → Bool) (id : A → ℕ) (n : ℕ) (rs t : List A)
      → ((test : A → Bool) → length (keep test rs) ≡ length (keep (λ r. q r && test r) t))
      → length (keep q (keep (λ r. not (any (nat_eq (id r)) (map id (take n rs)))) t))
          + length (take n rs)
        ≤ length (keep q t)
  removed q id n rs t counts =
      let test = λ (r : A). any (nat_eq (id r)) (map id (take n rs)) in
      let least = take-keep n test rs (λ x m. among-take id x (take n rs) m) in
      let same = counts test in
      let split = keep-split q test t in
      let left : length (keep q (keep (λ r. not (test r)) t))
          ≡ length (keep (λ r. q r && not (test r)) t) =
        ap length (keep-keep (λ r. not (test r)) q t)
        ∙ ap length (
            keep-congr (λ r. not (test r) && q r) (λ r. q r && not (test r)) t
              (λ r. ground arith)) in
      omega arith

pub Mem-keep :
    {A : Type 0} (q : A → Bool) (x : A) (t : List A) → Memᴰ x (keep q t) → Memᴰ x t × (q x ≡ true)
Mem-keep q x [] m = elim m [ ]
Mem-keep q x (y ∷ t) m = elim (Bool-cases (q y)) [
  | inl h ↦
      let hit : keep q (y ∷ t) ≡ y ∷ keep q t = rw h in
      first h (subst (Memᴰ x) hit m) (Mem-keep q x t)
  | inr h ↦
      let miss : keep q (y ∷ t) ≡ keep q t = rw h in
      let (m', e) = Mem-keep q x t (subst (Memᴰ x) miss m) in (Memᴰ.tail m', e)
]
  where
    first :
        q y ≡ true
        → Memᴰ x (y ∷ keep q t)
        → (Memᴰ x (keep q t) → Memᴰ x t × (q x ≡ true))
        → Memᴰ x (y ∷ t) × (q x ≡ true)
    first h (Memᴰ.head e) old = (Memᴰ.head e, ap q e ∙ h)
    first h (Memᴰ.tail m') old = let (m'', e) = old m' in (Memᴰ.tail m'', e)

pub keep-Mem :
    {A : Type 0} (q : A → Bool) (x : A) (t : List A) → Memᴰ x t → q x ≡ true → Memᴰ x (keep q t)
keep-Mem q x [] m h = elim m [ ]
keep-Mem q x (y ∷ t) (Memᴰ.head e) h =
    let at_y : q y ≡ true = ap q (sym e) ∙ h in
    let hit : keep q (y ∷ t) ≡ y ∷ keep q t = rw at_y in subst (Memᴰ x) (sym hit) (Memᴰ.head e)
keep-Mem q x (y ∷ t) (Memᴰ.tail m) h = elim (Bool-cases (q y)) [
  | inl g ↦
      let hit : keep q (y ∷ t) ≡ y ∷ keep q t = rw g in
      subst (Memᴰ x) (sym hit) (Memᴰ.tail (keep-Mem q x t m h))
  | inr g ↦
      let miss : keep q (y ∷ t) ≡ keep q t = rw g in subst (Memᴰ x) (sym miss) (keep-Mem q x t m h)
]

pub Mem-take : {A : Type 0} (n : ℕ) (x : A) (l : List A) → Memᴰ x (take n l) → Memᴰ x l
Mem-take zero x l m = elim m [ ]
Mem-take (suc n) x [] m = elim m [ ]
Mem-take (suc n) x (y ∷ l) (Memᴰ.head e) = Memᴰ.head e
Mem-take (suc n) x (y ∷ l) (Memᴰ.tail m) = Memᴰ.tail (Mem-take n x l m)

pub among-Mem :
    {A : Type 0} (id : A → ℕ) (k : ℕ) (l : List A)
    → any (nat_eq k) (map id l) ≡ true
    → (y : A) × Memᴰ y l × (k ≡ id y)
among-Mem id k [] h = cc h
among-Mem id k (x ∷ l) h = elim (Bool-cases (nat_eq k (id x))) [
  | inl e ↦ (x, Memᴰ.head refl, equal e)
  | inr e ↦ let (y, m, same) = among-Mem id k l (ground arith) in (y, Memᴰ.tail m, same)
]
  where
    equal : nat_eq k (id x) ≡ true → k ≡ id x
    equal e = ground arith

pub length-map : {A B : Type 0} (f : A → B) (l : List A) → length (map f l) ≡ length l
length-map f [] = refl
length-map f (x ∷ l) = ap suc (length-map f l)
