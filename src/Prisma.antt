-- ===== src/Prisma.antt =====
-- The Prisma client (@prisma/client), which the services call and the repository does not implement:
-- an interface of the statements that the services issue against one table, with their documented
-- behaviour as laws. A table is the list of its rows, in no promised order; a `where` clause is a test
-- on rows. Every statement may fail (connection, foreign key, constraint): a law speaks of the calls
-- that return. `clash` is the table's `@@unique` of prisma/schema.prisma.
pub mod Memory
pub mod Reads
use accurack_software_backen.Common.{
  ℕ, ◌≤◌, Bool, true, false, not, Option, none, some, List, [], ◌∷◌, ◌≡◌, map, Memᴰ, any, keep,
  length, ◌&&◌, nat_eq, if◌then◌else◌,
}
use accurack_software_backen.Effect.{Error, Result, ok, err, is_ok, Action}

-- What an `UPDATE … WHERE` leaves in the table.
abbrev pub update_rows : {R : Type 0} → (R → Bool) → (R → R) → List R → List R
update_rows q f [] = []
update_rows q f (r ∷ t) = (if q r then f r else r) ∷ update_rows q f t

pub record Prisma : Type 1 where
  -- Whether a branch of an `OR` whose only field is `undefined` holds of every row.
  pub undefined_in_or : Bool
  -- The identifier that `@default(cuid())` or `@default(uuid())` gives to a new row.
  pub fresh : List ℕ → ℕ
  pub find_first : {R : Type 0} → (R → Bool) → List R → Result (Option R)
  pub find_many : {R : Type 0} → (R → Bool) → List R → Result (List R)
  pub create : {R : Type 0} → (R → R → Bool) → R → List R → Result (List R)
  pub update : {R : Type 0} → (R → Bool) → (R → R) → List R → Result (List R)
  -- `findFirst` with `orderBy: { createdAt: 'desc' }`
  pub find_latest : {R : Type 0} → (R → ℕ) → (R → Bool) → List R → Result (Option R)
  pub delete : {R : Type 0} → (R → Bool) → List R → Result (List R)
  pub update_many : {R : Type 0} → (R → Bool) → (R → R) → List R → Result (List R)
  pub delete_many : {R : Type 0} → (R → Bool) → List R → Result (List R)
  pub transaction : {S A : Type 0} → Action S A → Action S A
  pub fresh-new : (ids : List ℕ) → any (nat_eq (fresh ids)) ids ≡ false
  pub find_first-some :
      {R : Type 0} (q : R → Bool) (t : List R) (r : R)
      → find_first q t ≡ ok (some r)
      → Memᴰ r t × (q r ≡ true)
  pub find_first-none :
      {R : Type 0} (q : R → Bool) (t : List R) → find_first q t ≡ ok none → any q t ≡ false
  pub find_many-sound :
      {R : Type 0} (q : R → Bool) (t rs : List R) (r : R)
      → find_many q t ≡ ok rs
      → Memᴰ r rs
      → Memᴰ r t × (q r ≡ true)
  pub find_many-complete :
      {R : Type 0} (q : R → Bool) (t rs : List R) (r : R)
      → find_many q t ≡ ok rs
      → Memᴰ r t
      → q r ≡ true
      → Memᴰ r rs
  -- It finds every row once: as many meet any further test as the table has.
  pub find_many-count :
      {R : Type 0} (q test : R → Bool) (t rs : List R)
      → find_many q t ≡ ok rs
      → length (keep test rs) ≡ length (keep (λ r. q r && test r) t)
  pub create-ok :
      {R : Type 0} (clash : R → R → Bool) (r : R) (t t' : List R)
      → create clash r t ≡ ok t'
      → (any (clash r) t ≡ false) × (t' ≡ r ∷ t)
  pub update-ok :
      {R : Type 0} (q : R → Bool) (f : R → R) (t t' : List R)
      → update q f t ≡ ok t'
      → t' ≡ update_rows q f t
  -- An update by a unique key throws (P2025) where no row has it.
  pub update-found :
      {R : Type 0} (q : R → Bool) (f : R → R) (t t' : List R)
      → update q f t ≡ ok t'
      → any q t ≡ true
  pub find_latest-some :
      {R : Type 0} (time : R → ℕ) (q : R → Bool) (t : List R) (r : R)
      → find_latest time q t ≡ ok (some r)
      → Memᴰ r t × (q r ≡ true) × ((x : R) → Memᴰ x t → q x ≡ true → time x ≤ time r)
  pub find_latest-none :
      {R : Type 0} (time : R → ℕ) (q : R → Bool) (t : List R)
      → find_latest time q t ≡ ok none
      → any q t ≡ false
  pub delete-ok :
      {R : Type 0} (q : R → Bool) (t t' : List R)
      → delete q t ≡ ok t'
      → t' ≡ keep (λ r. not (q r)) t
  -- The `...Many` statements do not mind where no row is met.
  pub update_many-ok :
      {R : Type 0} (q : R → Bool) (f : R → R) (t t' : List R)
      → update_many q f t ≡ ok t'
      → t' ≡ update_rows q f t
  pub delete_many-ok :
      {R : Type 0} (q : R → Bool) (t t' : List R)
      → delete_many q t ≡ ok t'
      → t' ≡ keep (λ r. not (q r)) t
  pub transaction-ok :
      {S A : Type 0} (f : Action S A) (s s' : S) (a : A)
      → transaction f s ≡ (ok a, s')
      → f s ≡ (ok a, s')
  pub transaction-err :
      {S A : Type 0} (f : Action S A) (s s' : S) (e : Error)
      → transaction f s ≡ (err e, s')
      → s' ≡ s

-- A database that answers every query, and commits what has run.
pub record IsReliable (p : Prisma) : Type 1 where
  pub find_first-returns :
      {R : Type 0} (q : R → Bool) (t : List R) → is_ok (p.find_first q t) ≡ true
  pub find_many-returns : {R : Type 0} (q : R → Bool) (t : List R) → is_ok (p.find_many q t) ≡ true
  pub transaction-returns :
      {S A : Type 0} (f : Action S A) (s s' : S) (a : A)
      → f s ≡ (ok a, s')
      → p.transaction f s ≡ (ok a, s')
