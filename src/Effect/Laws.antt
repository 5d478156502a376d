-- ===== src/Effect/Laws.antt =====
-- How a chain of calls that returned was made of calls that returned.
use accurack_software_backen.Common.{
  Bool, true, false, Option, none, some, List, [], ◌∷◌, ◌≡◌, refl, Memᴰ, sym, ap, subst, ◌⊎◌, inl,
  inr,
}
use accurack_software_backen.Effect.{
  Error, Result, ok, err, Action, ◌>>=◌, query, write, commit, or_throw, throw_if, for_each,
}

Mem-cases : {A : Type 0} (y x : A) (xs : List A) → Memᴰ y (x ∷ xs) → (y ≡ x) ⊎ Memᴰ y xs
Mem-cases y x xs (Memᴰ.head e) = inl e
Mem-cases y x xs (Memᴰ.tail m) = inr m

module _ {S : Type 0} where
  >>=-eq-ok_from :
      {A B : Type 0} (o : Result A × S) (f : A → Action S B) (b : B) (s' : S)
      → (elim o.0 as (λ _. Result B × S) [ ok a ↦ f a o.1 | err e ↦ (err e, o.1) ]) ≡ (ok b, s')
      → (a : A) × (t : S) × (o ≡ (ok a, t)) × (f a t ≡ (ok b, s'))
  >>=-eq-ok_from (ok a, t) f b s' h = (a, t, refl, h)
  >>=-eq-ok_from (err e, t) f b s' h = cc

  -- A sequence that returns: the first call returned, and the rest ran in the state it left.
  pub >>=-eq-ok :
      {A B : Type 0} (m : Action S A) (f : A → Action S B) (s s' : S) (b : B)
      → (m >>= f) s ≡ (ok b, s')
      → (a : A) × (t : S) × (m s ≡ (ok a, t)) × (f a t ≡ (ok b, s'))
  >>=-eq-ok m f s s' b h = >>=-eq-ok_from (m s) f b s' h

  -- A sequence whose first call returned is the rest, in the state that it left.
  pub >>=_of_ok :
      {A B : Type 0} (m : Action S A) (f : A → Action S B) (s t : S) (a : A)
      → m s ≡ (ok a, t)
      → (m >>= f) s ≡ f a t
  >>=_of_ok {A} {B} m f s t a h =
      ap
        (λ (o : Result A × S). elim o.0 as (λ _. Result B × S) [
          | ok x ↦ f x o.1
          | err e ↦ (err e, o.1)
        ])
        h

  pub write-eq-ok :
      (f : S → Result S) (s s' : S) (u : Unit {0}) → write f s ≡ (ok u, s') → f s ≡ ok s'
  write-eq-ok f s s' u h = committed (f s) h
    where
      committed : (r : Result S) → commit s r ≡ (ok u, s') → r ≡ ok s'
      committed (ok t) e = cc
      committed (err x) e = cc

  pub query-eq-ok :
      {A : Type 0} (f : S → Result A) (s s' : S) (a : A)
      → query f s ≡ (ok a, s')
      → (f s ≡ ok a) × (s' ≡ s)
  query-eq-ok f s s' a h = (cc, cc)

  pub or_throw-eq-ok :
      {A : Type 0} (o : Option A) (e : Error) (s s' : S) (a : A)
      → or_throw o e s ≡ (ok a, s')
      → (o ≡ some a) × (s' ≡ s)
  or_throw-eq-ok none e s s' a h = (cc, cc)
  or_throw-eq-ok (some x) e s s' a h = (cc, cc)

  pub throw_if-eq-ok :
      (c : Bool) (e : Error) (s s' : S) (u : Unit {0})
      → throw_if c e s ≡ (ok u, s')
      → (c ≡ false) × (s' ≡ s)
  throw_if-eq-ok true e s s' u h = cc
  throw_if-eq-ok false e s s' u h = (refl, cc)

  module _ {A : Type 0} (body : A → Action S (Unit {0})) where
    pub for_each-cons :
        (x : A) (xs : List A) (s s' : S) (u : Unit {0})
        → for_each body (x ∷ xs) s ≡ (ok u, s')
        → (v : Unit {0}) × (t : S) × (body x s ≡ (ok v, t)) × (for_each body xs t ≡ (ok u, s'))
    unfolding for_each
    for_each-cons x xs s s' u h = >>=-eq-ok_from (body x s) (λ _. for_each body xs) u s' h

    -- A relation that is reflexive and that every pass of the body extends holds across the loop.
    pub for_each-preserves :
        (R : S → S → Type 0)
        → ((s : S) → R s s)
        → ((x : A) (s t w : S) (u : Unit {0}) → body x s ≡ (ok u, t) → R t w → R s w)
        → (xs : List A) (s s' : S) (u : Unit {0}) → for_each body xs s ≡ (ok u, s')
        → R s s'
    unfolding for_each
    for_each-preserves R start step [] s s' u h =
        subst (R s) (ap (λ (o : Result (Unit {0}) × S). o.1) h) (start s)
    for_each-preserves R start step (x ∷ xs) s s' u h =
        let (v, t, e, rest) = for_each-cons x xs s s' u h in
        step x s t s' v e (for_each-preserves R start step xs t s' u rest)

    -- A loop that returns has run its body on every element.
    pub for_each-ran :
        (x : A) (xs : List A) (s s' : S) (u : Unit {0})
        → Memᴰ x xs
        → for_each body xs s ≡ (ok u, s')
        → (t w : S) × (v : Unit {0}) × (body x t ≡ (ok v, w))
    for_each-ran x [] s s' u m h = elim m [ ]
    for_each-ran x (y ∷ xs) s s' u (Memᴰ.head same) h =
        let (v, t, e, rest) = for_each-cons y xs s s' u h in
        (s, t, v, subst (λ z. body z s ≡ (ok v, t)) (sym same) e)
    for_each-ran x (y ∷ xs) s s' u (Memᴰ.tail m) h =
        let (v, t, e, rest) = for_each-cons y xs s s' u h in for_each-ran x xs t s' u m rest

  -- A loop whose passes keep an invariant, establish a fact about their element and keep such facts,
  -- establishes the fact about every element.
  module _ {A : Type 0} (body : A → Action S (Unit {0})) (I : S → Type 0) where
    pub record Establishes {B : Type 0} (P : B → S → Type 0) (covers : A → B → Type 0)
        : Type 0 where
      pub keeps : (x : A) (s t : S) (u : Unit {0}) → body x s ≡ (ok u, t) → I s → I t
      pub sets :
          (x : A) (s t : S) (u : Unit {0})
          → body x s ≡ (ok u, t)
          → I s
          → (b : B) → covers x b
          → P b t
      pub holds :
          (x : A) (s t : S) (u : Unit {0}) → body x s ≡ (ok u, t) → I s → (b : B) → P b s → P b t

    module _ {B : Type 0} (P : B → S → Type 0) (covers : A → B → Type 0)
        (e : Establishes P covers) where
      pub for_each-keeps :
          (xs : List A) (s s' : S) (u : Unit {0})
          → for_each body xs s ≡ (ok u, s')
          → I s
          → I s' × ((b : B) → P b s → P b s') × ((x : A) (b : B) → Memᴰ x xs → covers x b → P b s')
      unfolding for_each
      for_each-keeps [] s s' u h i =
          let same : s ≡ s' = ap (λ (o : Result (Unit {0}) × S). o.1) h in
          (subst I same i, λ b. subst (P b) same, λ x b m. elim m [ ])
      for_each-keeps (x ∷ xs) s s' u h i =
          let (v, t, first, rest) = for_each-cons body x xs s s' u h in
          let (i', old, new) = for_each-keeps xs t s' u rest (e.keeps x s t v first i) in
          (
            i',
            λ b q. old b (e.holds x s t v first i b q),
            λ y b m c. elim (Mem-cases y x xs m) [
              | inl same ↦ old b (e.sets x s t v first i b (subst (λ z. covers z b) same c))
              | inr later ↦ new y b later c
            ],
          )

-- A relation of what a call found to what it left, however it ended, that chains.
module _ {S : Type 0} (R : S → S → Type 0) (chain : (s t w : S) → R s t → R t w → R s w) where
  pub >>=-relates :
      {A B : Type 0} (m : Action S A) (f : A → Action S B)
      → ((s : S) → R s (m s).1)
      → ((a : A) (s : S) → R s (f a s).1)
      → (s : S) → R s ((m >>= f) s).1
  >>=-relates {A} {B} m f first rest s = from (m s) (first s)
    where
      from :
          (o : Result A × S)
          → R s o.1
          → R s (elim o.0 as (λ _. Result B × S) [ ok a ↦ f a o.1 | err e ↦ (err e, o.1) ]).1
      from (ok a, t) h = chain s t (f a t).1 h (rest a t)
      from (err e, t) h = h

  -- The same, where the rest may use what the first call answered.
  pub >>=-relates_where :
      {A B : Type 0} (m : Action S A) (f : A → Action S B) (s : S)
      → R s (m s).1
      → ((a : A) (t : S) → m s ≡ (ok a, t) → R t (f a t).1)
      → R s ((m >>= f) s).1
  >>=-relates_where {A} {B} m f s first rest = from (m s) refl first
    where
      from :
          (o : Result A × S)
          → m s ≡ o
          → R s o.1
          → R s (elim o.0 as (λ _. Result B × S) [ ok a ↦ f a o.1 | err e ↦ (err e, o.1) ]).1
      from (ok a, t) e h = chain s t (f a t).1 h (rest a t e)
      from (err x, t) e h = h
