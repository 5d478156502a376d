-- ===== src/Effect.antt =====
-- The effects of a service method: an awaited call either returns or throws, and what was written
-- before a throw stays written. Exceptions are those of @nestjs/common that the services throw, with
-- their message, and the errors that the database client throws or that are thrown as a plain Error.
pub mod Laws
use accurack_software_backen.Common.{String, Bool, true, false, Option, none, some, List, [], ◌∷◌}

pub data Error : Type 0 where
  bad_request not_found forbidden conflict : String → Error
  database : String → Error

pub data Result (A : Type 0) : Type 0 where
  ok : A → Result A
  err : Error → Result A

abbrev pub is_ok : {A : Type 0} → Result A → Bool
is_ok (ok a) = true
is_ok (err e) = false

abbrev pub Action : Type 0 → Type 0 → Type 0
Action S A = S → Result A × S

infixl 5 ◌>>=◌ ◌>>◌
abbrev pub ◌>>=◌ : {S A B : Type 0} → Action S A → (A → Action S B) → Action S B
◌>>=◌ m f s = let (r, s') = m s in elim r [ ok a ↦ f a s' | err e ↦ (err e, s') ]

abbrev pub ◌>>◌ : {S A B : Type 0} → Action S A → Action S B → Action S B
m >> k = m >>= λ _. k

module _ {S A : Type 0} where
  abbrev pub pure : A → Action S A
  pure a s = (ok a, s)

  abbrev pub throw : Error → Action S A
  throw e s = (err e, s)

  -- A query: it reads the state and may throw.
  abbrev pub query : (S → Result A) → Action S A
  query f s = (f s, s)

  -- `if (x === null) throw e`
  abbrev pub or_throw : Option A → Error → Action S A
  or_throw none e = throw e
  or_throw (some a) e = pure a

abbrev pub commit : {S : Type 0} → S → Result S → Result (Unit {0}) × S
commit s (ok s') = (ok tt, s')
commit s (err e) = (err e, s)

module _ {S : Type 0} where
  -- A write: the new state, or an error and no change.
  abbrev pub write : (S → Result S) → Action S (Unit {0})
  write f s = commit s (f s)

  -- `if (c) throw e`
  abbrev pub throw_if : Bool → Error → Action S (Unit {0})
  throw_if true e s = (err e, s)
  throw_if false e s = (ok tt, s)

  -- `for (const x of xs) await body(x)`
  unfoldable pub for_each : {A : Type 0} → (A → Action S (Unit {0})) → List A → Action S (Unit {0})
  for_each body [] s = (ok tt, s)
  for_each body (x ∷ xs) s =
      let (r, s') = body x s in elim r [ ok _ ↦ for_each body xs s' | err e ↦ (err e, s') ]

-- `try { m } catch (e) { try { handler } catch {}; throw e }`
abbrev pub rethrow : {S A : Type 0} → Action S (Unit {0}) → Result A × S → Result A × S
rethrow handler (ok a, s) = (ok a, s)
rethrow handler (err e, s) = (err e, (handler s).1)

abbrev pub rescue : {S A : Type 0} → Action S A → Action S (Unit {0}) → Action S A
rescue m handler s = rethrow handler (m s)

abbrev pub map_result : {A B : Type 0} → (A → B) → Result A → Result B
map_result f (ok a) = ok (f a)
map_result f (err e) = err e
