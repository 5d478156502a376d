-- ===== src/Prisma/Reads.antt =====
-- What a query that only asks whether a row exists answers.
use accurack_software_backen.Common.{
  ℕ, Bool, true, false, ◌&&◌, Option, none, some, List, [], ◌∷◌, ◌≡◌, ◌≢◌, refl, sym, ap, ◌∙◌, map,
  is_some, any, arith, nat_eq, nat_eq_self, Memᴰ, Mem_of_any, any_of_Mem, if◌then◌else◌,
}
use accurack_software_backen.Effect.{Result, ok, err, is_ok, map_result}
use accurack_software_backen.Prisma.{Prisma, IsReliable, update_rows}

pub map_result-eq-ok :
    {A B : Type 0} (f : A → B) (r : Result A) (b : B)
    → map_result f r ≡ ok b
    → (a : A) × (r ≡ ok a) × (f a ≡ b)
map_result-eq-ok f (ok a) b h = (a, refl, cc)
map_result-eq-ok f (err e) b h = cc

pub eq-ok_of_is_ok : {A : Type 0} (r : Result A) → is_ok r ≡ true → (a : A) × (r ≡ ok a)
eq-ok_of_is_ok (ok a) h = (a, refl)
eq-ok_of_is_ok (err e) h = cc

-- Two tests agree if each holds where the other does.
eq_of_true : (a b : Bool) → (a ≡ true → b ≡ true) → (b ≡ true → a ≡ true) → a ≡ b
eq_of_true a b f g = ground arith

module _ (p : Prisma) {R : Type 0} (q : R → Bool) (t : List R) where
  is_some-any : (o : Option R) → p.find_first q t ≡ ok o → is_some o ≡ any q t
  is_some-any none e = sym (p.find_first-none q t e)
  is_some-any (some r) e =
      let (m, holds) = p.find_first-some q t r e in sym (any_of_Mem q r t m holds)

  -- A row was found exactly if the table has one.
  pub find_first-any : (b : Bool) → map_result is_some (p.find_first q t) ≡ ok b → b ≡ any q t
  find_first-any b h =
      let (o, e, same) = map_result-eq-ok is_some _ b h in sym same ∙ is_some-any o e

  pub find_first-any_reliable : IsReliable p → map_result is_some (p.find_first q t) ≡ ok (any q t)
  find_first-any_reliable good =
      let (o, e) = eq-ok_of_is_ok _ (good.find_first-returns q t) in rw (e, is_some-any o e)

  module _ (f : R → Bool) where
    any-found : (rs : List R) → p.find_many q t ≡ ok rs → any f rs ≡ any (λ r. q r && f r) t
    any-found rs e =
        eq_of_true (any f rs) (any (λ r. q r && f r) t)
          (λ h.
            let (r, m, holds) = Mem_of_any f rs h in
            let (m', asked) = p.find_many-sound q t rs r e m in
            any_of_Mem (λ x. q x && f x) r t m' (rw (asked, holds)))
          (λ h.
            let (r, m, holds) = Mem_of_any (λ x. q x && f x) t h in
            any_of_Mem f r rs (p.find_many-complete q t rs r e m (ground arith)) (ground arith))

    -- Some row that was found passes `f`, exactly if the table has such a row.
    pub find_many-any :
        (b : Bool) → map_result (any f) (p.find_many q t) ≡ ok b → b ≡ any (λ r. q r && f r) t
    find_many-any b h =
        let (rs, e, same) = map_result-eq-ok (any f) _ b h in sym same ∙ any-found rs e

    pub find_many-any_reliable :
        IsReliable p → map_result (any f) (p.find_many q t) ≡ ok (any (λ r. q r && f r) t)
    find_many-any_reliable good =
        let (rs, e) = eq-ok_of_is_ok _ (good.find_many-returns q t) in rw (e, any-found rs e)

any-map :
    {R : Type 0} (id : R → ℕ) (y : R) (t : List R)
    → Memᴰ y t
    → any (nat_eq (id y)) (map id t) ≡ true
any-map id y [] m = elim m [ ]
any-map id y (x ∷ t) (Memᴰ.head e) = ground (arith, nat_eq_self (id y), ap id e)
any-map id y (x ∷ t) (Memᴰ.tail m) = ground (arith, any-map id y t m)

-- The identifier of a new row is that of no row.
pub ne-fresh :
    (p : Prisma) {R : Type 0} (id : R → ℕ) (y : R) (t : List R)
    → Memᴰ y t
    → id y ≢ p.fresh (map id t)
ne-fresh p id y t m h =
    let absent : any (nat_eq (id y)) (map id t) ≡ false =
      ap (λ k. any (nat_eq k) (map id t)) h ∙ p.fresh-new (map id t) in
    cc (any-map id y t m, absent)

-- The rows of an updated table are those of the old one, each as the update left it.
pub Mem-update_rows :
    {R : Type 0} (q : R → Bool) (f : R → R) (x : R) (t : List R)
    → Memᴰ x t
    → Memᴰ (if q x then f x else x) (update_rows q f t)
Mem-update_rows q f x [] m = elim m [ ]
Mem-update_rows q f x (y ∷ t) (Memᴰ.head e) = Memᴰ.head (ap (λ z. if q z then f z else z) e)
Mem-update_rows q f x (y ∷ t) (Memᴰ.tail m) = Memᴰ.tail (Mem-update_rows q f x t m)

pub update_rows-Mem :
    {R : Type 0} (q : R → Bool) (f : R → R) (y : R) (t : List R)
    → Memᴰ y (update_rows q f t)
    → (x : R) × Memᴰ x t × (y ≡ (if q x then f x else x))
update_rows-Mem q f y [] m = elim m [ ]
update_rows-Mem q f y (x ∷ t) (Memᴰ.head e) = (x, Memᴰ.head refl, e)
update_rows-Mem q f y (x ∷ t) (Memᴰ.tail m) =
    let (z, m', e) = update_rows-Mem q f y t m in (z, Memᴰ.tail m', e)
