-- ===== src/Tenants/Views.antt =====
-- What the methods of src/database/multi-tenant.service.ts leave of the databases, the roles and the
-- stored credentials.
use accurack_software_backen.Common.{
  String, false, none, ◌==◌, ◌≡◌, refl, sym, ap, subst, ◌∙◌, eq_refl,
}
use accurack_software_backen.Effect.{Result, ok, err, Action, ◌>>=◌, write}
use accurack_software_backen.Effect.Laws.{write-eq-ok, >>=-relates}
use accurack_software_backen.Tenants.Server.{View, put, Server}
use accurack_software_backen.Tenants.Databases.{
  Host, database_of, role_of, with_server, statement, work,
}

-- Nothing of another tenant has changed.
pub record Elsewhere (tenant : String) (w w' : View) : Type 0 where
  pub databases : (n : String) → (n == database_of tenant) ≡ false → w'.databases n ≡ w.databases n
  pub roles : (n : String) → (n == role_of tenant) ≡ false → w'.roles n ≡ w.roles n
  pub credentials : (t : String) → (t == tenant) ≡ false → w'.credentials t ≡ w.credentials t

pub Elsewhere-refl : (tenant : String) (w : View) → Elsewhere tenant w w
Elsewhere-refl tenant w = record {
  databases = λ n h. refl;
  roles = λ n h. refl;
  credentials = λ t h. refl;
}

pub Elsewhere-trans :
    (tenant : String) (a b c : View)
    → Elsewhere tenant a b
    → Elsewhere tenant b c
    → Elsewhere tenant a c
Elsewhere-trans tenant a b c h k = record {
  databases = λ n e. k.databases n e ∙ h.databases n e;
  roles = λ n e. k.roles n e ∙ h.roles n e;
  credentials = λ t e. k.credentials t e ∙ h.credentials t e;
}

pub put-elsewhere :
    {A : Type 0} (k x : String) (a : A) (f : String → A) → (x == k) ≡ false → put k a f x ≡ f x
put-elsewhere k x a f h = rw h

pub put_same : {A : Type 0} (k : String) (a : A) (f : String → A) → put k a f k ≡ a
put_same k a f = rw (eq_refl k)

-- No database, no role and no credentials of the tenant.
abbrev pub cleaned : String → View → View
cleaned tenant w = record {
  databases = put (database_of tenant) false w.databases;
  roles = put (role_of tenant) false w.roles;
  credentials = put tenant none w.credentials;
}

pub record Removed (tenant : String) (w w' : View) : Type 0 where
  pub database : w'.databases (database_of tenant) ≡ false
  pub role : w'.roles (role_of tenant) ≡ false
  pub unknown : w'.credentials tenant ≡ none
  pub elsewhere : Elsewhere tenant w w'

pub cleaned-Removed :
    (tenant : String) (a w w' : View)
    → Elsewhere tenant a w
    → w' ≡ cleaned tenant w
    → Removed tenant a w'
cleaned-Removed tenant a w w' h e = record {
  database =
      ap (λ (x : View). x.databases (database_of tenant)) e
      ∙ put_same (database_of tenant) false w.databases;
  role = ap (λ (x : View). x.roles (role_of tenant)) e ∙ put_same (role_of tenant) false w.roles;
  unknown = ap (λ (x : View). x.credentials tenant) e ∙ put_same tenant none w.credentials;
  elsewhere = Elsewhere-trans tenant a w w' h (record {
    databases = λ n d.
        ap (λ (x : View). x.databases n) e
        ∙ put-elsewhere (database_of tenant) n false w.databases d;
    roles =
        λ n d. ap (λ (x : View). x.roles n) e ∙ put-elsewhere (role_of tenant) n false w.roles d;
    credentials =
        λ t d. ap (λ (x : View). x.credentials t) e ∙ put-elsewhere tenant t none w.credentials d;
  });
}

module _ {S : Type 0} (v : Server S) where
  abbrev pub seen : Host S → View
  seen h = v.view h.server

  -- A statement that returns has been done, and nothing else.
  pub statement-eq-ok :
      (f : S → Result S) (h h' : Host S) (u : Unit {0})
      → statement f h ≡ (ok u, h')
      → (s : S) × (f h.server ≡ ok s) × (h' ≡ record h { server = s })
  statement-eq-ok f h h' u e =
      done (f h.server) refl (write-eq-ok (λ x. with_server x (f x.server)) h h' u e)
    where
      done :
          (r : Result S)
          → f h.server ≡ r
          → with_server h r ≡ ok h'
          → (s : S) × (f h.server ≡ ok s) × (h' ≡ record h { server = s })
      done (ok s) x y = (s, x, cc)
      done (err z) x y = cc

  -- Work inside one database leaves what is seen, and the maps of this service.
  pub work-seen :
      {A : Type 0} (m : Action S A)
      → ((s : S) → v.view (m s).1 ≡ v.view s)
      → (h : Host S) → seen (work m h).1 ≡ seen h
  work-seen m quiet h = quiet h.server

  -- A call after which, returned or not, nothing of another tenant has changed.
  abbrev pub IsApart : (tenant : String) → {A : Type 0} → Action (Host S) A → Type 0
  IsApart tenant m = (h : Host S) → Elsewhere tenant (seen h) (seen (m h).1)

  pub >>=-IsApart :
      (tenant : String) {A B : Type 0} (m : Action (Host S) A) (f : A → Action (Host S) B)
      → IsApart tenant m
      → ((a : A) → IsApart tenant (f a))
      → IsApart tenant (m >>= f)
  >>=-IsApart tenant =
      >>=-relates (λ (h h' : Host S). Elsewhere tenant (seen h) (seen h'))
        (λ a b c. Elsewhere-trans tenant (seen a) (seen b) (seen c))

  pub work-IsApart :
      (tenant : String) {A : Type 0} (m : Action S A)
      → ((s : S) → v.view (m s).1 ≡ v.view s)
      → IsApart tenant (work m)
  work-IsApart tenant m quiet h =
      subst (Elsewhere tenant (seen h)) (sym (quiet h.server)) (Elsewhere-refl tenant (seen h))

  pub statement-IsApart :
      (tenant : String) (f : S → Result S)
      → ((s s' : S) → f s ≡ ok s' → Elsewhere tenant (v.view s) (v.view s'))
      → IsApart tenant (statement f)
  statement-IsApart tenant f k h = from (f h.server) refl
    where
      from :
          (r : Result S)
          → f h.server ≡ r
          → Elsewhere tenant (seen h) (seen (write (λ x. with_server h r) h).1)
      from (ok s) e = k h.server s e
      from (err x) e = Elsewhere-refl tenant (seen h)
