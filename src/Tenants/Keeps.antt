-- ===== src/Tenants/Keeps.antt =====
-- What src/database/multi-tenant.service.ts stores, pools and caches for a tenant, across its methods.
use accurack_software_backen.Common.{
  String, Option, none, some, ◌==◌, ◌≡◌, refl, sym, ap, subst, ◌∙◌, Bool-cases, inl, inr, eq_iff,
}
use accurack_software_backen.Effect.{
  Result, ok, err, Action, ◌>>=◌, ◌>>◌, pure, query, write, rescue, rethrow,
}
use accurack_software_backen.Effect.Laws.{>>=-relates}
use accurack_software_backen.Tenants.Server.{Credentials, View, put, Server}
use accurack_software_backen.Tenants.Databases.{
  Host, database_of, role_of, credentials_of, with_server, statement, work,
  store_tenant_credentials, insert_client_record, insert_user_record, fill, provision, clean_up,
  create_tenant_database, entry,
}
use accurack_software_backen.Tenants.Context.{address}
use accurack_software_backen.Tenants.Views.{seen}

-- The stored credentials of each tenant are for its own database.
abbrev pub OwnCredentials : View → Type 0
OwnCredentials w =
    (t : String) (c : Credentials) → w.credentials t ≡ some c → c.database_name ≡ database_of t

put-Own :
    (t : String) (c : Credentials) (w : View)
    → c.database_name ≡ database_of t
    → OwnCredentials w
    → OwnCredentials (record w { credentials = put t (some c) w.credentials })
put-Own t c w own k x d e = elim (Bool-cases (x == t)) [
  | inl h ↦
      let hit : put t (some c) w.credentials x ≡ some c = rw h in
      let same : c ≡ d = cc (hit, e) in
      ap (λ (y : Credentials). y.database_name) (sym same)
      ∙ own
      ∙ ap database_of (sym ((eq_iff x t).0 h))
  | inr h ↦
      let miss : put t (some c) w.credentials x ≡ w.credentials x = rw h in k x d (sym miss ∙ e)
]

put-none-Own :
    (t : String) (w : View)
    → OwnCredentials w
    → OwnCredentials (record w { credentials = put t none w.credentials })
put-none-Own t w k x d e = elim (Bool-cases (x == t)) [
  | inl h ↦ let hit : put t none w.credentials x ≡ none = rw h in cc (hit, e)
  | inr h ↦ let miss : put t none w.credentials x ≡ w.credentials x = rw h in k x d (sym miss ∙ e)
]

module _ {S : Type 0} (v : Server S) (host port : String) where
  -- An address of the database of the tenant.
  pub record Leads (t url : String) : Type 0 where
    pub credentials : Credentials
    pub own : credentials.database_name ≡ database_of t
    pub address_eq : url ≡ address host port credentials

  -- What is stored, pooled and cached for each tenant is for its own database.
  pub record IsIsolated (h : Host S) : Type 0 where
    pub stored : OwnCredentials (seen v h)
    pub pooled :
        (t : String) (c : Credentials) → entry t h.pools ≡ some c → c.database_name ≡ database_of t
    pub cached : (t url : String) → entry t h.clients ≡ some url → Leads t url

  abbrev pub Keeps : {A : Type 0} → Action (Host S) A → Type 0
  Keeps m = (h : Host S) → IsIsolated h → IsIsolated (m h).1

  pub >>=-Keeps :
      {A B : Type 0} (m : Action (Host S) A) (f : A → Action (Host S) B)
      → Keeps m
      → ((a : A) → Keeps (f a))
      → Keeps (m >>= f)
  >>=-Keeps = >>=-relates (λ (h h' : Host S). IsIsolated h → IsIsolated h') (λ a b c f g i. g (f i))

  pub work-Keeps :
      {A : Type 0} (m : Action S A) → ((s : S) → v.view (m s).1 ≡ v.view s) → Keeps (work m)
  work-Keeps m quiet h i = record {
    stored = subst OwnCredentials (sym (quiet h.server)) i.stored;
    pooled = i.pooled;
    cached = i.cached;
  }

  statement-Keeps :
      (f : S → Result S)
      → ((s s' : S) → f s ≡ ok s' → OwnCredentials (v.view s) → OwnCredentials (v.view s'))
      → Keeps (statement f)
  statement-Keeps f k h i = from (f h.server) refl
    where
      from : (r : Result S) → f h.server ≡ r → IsIsolated (write (λ x. with_server h r) h).1
      from (ok s) e = record {
        stored = k h.server s e i.stored;
        pooled = i.pooled;
        cached = i.cached;
      }
      from (err x) e = i

  pub pure-Keeps : {A : Type 0} (a : A) → Keeps (pure a)
  pure-Keeps a h i = i

  pub query-Keeps : {A : Type 0} (f : Host S → Result A) → Keeps (query f)
  query-Keeps f h i = i

  store-Keeps :
      (t : String) (c : Credentials)
      → c.database_name ≡ database_of t
      → Keeps (store_tenant_credentials v t c)
  unfolding store_tenant_credentials
  store-Keeps t c own =
      >>=-Keeps (work v.initialize_master) (λ _. statement (v.store_credentials t c))
        (work-Keeps v.initialize_master v.initialize_master-inside)
        (λ _. statement-Keeps (v.store_credentials t c) λ s s' e k.
          subst OwnCredentials (sym (v.store_credentials-ok t c s s' e))
            (put-Own t c (v.view s) own k))

  insert_client-Keeps :
      (c : Credentials) (client : Option String) → Keeps (insert_client_record v c client)
  insert_client-Keeps c none = pure-Keeps tt
  insert_client-Keeps c (some id) = work-Keeps (v.insert_client c id) (v.insert_client-inside c id)

  insert_user-Keeps : (c : Credentials) (user : Option String) → Keeps (insert_user_record v c user)
  insert_user-Keeps c none = pure-Keeps tt
  insert_user-Keeps c (some id) = work-Keeps (v.insert_user c id) (v.insert_user-inside c id)

  module _ (t password : String) (client user : Option String) where
    abbrev c : Credentials
    c = credentials_of t password

    abbrev granting : Action (Host S) (Unit {0})
    granting = work (v.grant_schema c.database_name c.user_name)

    abbrev storing : Action (Host S) (Unit {0})
    storing = store_tenant_credentials v t c

    abbrev shaping : Action (Host S) (Unit {0})
    shaping = work (v.initialize_schema c)

    fill-Keeps : Keeps (fill v t c client user)
    unfolding fill
    fill-Keeps =
        >>=-Keeps (granting >> storing >> shaping >> insert_client_record v c client)
          (λ _. insert_user_record v c user)
          (>>=-Keeps (granting >> storing >> shaping) (λ _. insert_client_record v c client)
            (>>=-Keeps (granting >> storing) (λ _. shaping)
              (>>=-Keeps granting (λ _. storing)
                (work-Keeps (v.grant_schema c.database_name c.user_name)
                  (v.grant_schema-inside c.database_name c.user_name))
                (λ _. store-Keeps t c refl))
              (λ _. work-Keeps (v.initialize_schema c) (v.initialize_schema-inside c)))
            (λ _. insert_client-Keeps c client))
          (λ _. insert_user-Keeps c user)

    abbrev creating : Action (Host S) (Unit {0})
    creating = statement (v.create_database c.database_name)

    abbrev enrolling : Action (Host S) (Unit {0})
    enrolling = statement (v.create_role c.user_name c.password c.database_name)

    provision-Keeps : Keeps (provision v t c client user)
    unfolding provision
    provision-Keeps =
        >>=-Keeps (creating >> enrolling >> fill v t c client user) (λ _. pure c.database_name)
          (>>=-Keeps (creating >> enrolling) (λ _. fill v t c client user)
            (>>=-Keeps creating (λ _. enrolling)
              (statement-Keeps (v.create_database c.database_name) λ s s' e k.
                subst OwnCredentials (sym (v.create_database-ok c.database_name s s' e).1) k)
              (λ _.
                statement-Keeps (v.create_role c.user_name c.password c.database_name) λ s s' e k.
                  subst OwnCredentials
                    (sym (v.create_role-ok c.user_name c.password c.database_name s s' e)) k))
            (λ _. fill-Keeps))
          (λ _. pure-Keeps c.database_name)

  pub clean_up-Keeps : (t : String) → Keeps (clean_up v t)
  unfolding clean_up
  clean_up-Keeps t =
      let dropping = statement (v.drop_database (database_of t)) in
      let unrolling = statement (v.drop_role (role_of t)) in
      >>=-Keeps (dropping >> unrolling) (λ _. statement (v.remove_credentials t))
        (>>=-Keeps dropping (λ _. unrolling)
          (statement-Keeps (v.drop_database (database_of t))
            λ s s' e k. subst OwnCredentials (sym (v.drop_database-ok (database_of t) s s' e)) k)
          (λ _.
            statement-Keeps (v.drop_role (role_of t))
              λ s s' e k. subst OwnCredentials (sym (v.drop_role-ok (role_of t) s s' e)) k))
        (λ _. statement-Keeps (v.remove_credentials t) λ s s' e k.
          subst OwnCredentials (sym (v.remove_credentials-ok t s s' e))
            (put-none-Own t (v.view s) k))

  rescue-Keeps :
      {A : Type 0} (m : Action (Host S) A) (handler : Action (Host S) (Unit {0}))
      → Keeps m
      → Keeps handler
      → Keeps (rescue m handler)
  rescue-Keeps {A} m handler k l h i = from (m h) (k h i)
    where
      from : (o : Result A × Host S) → IsIsolated o.1 → IsIsolated (rethrow handler o).1
      from (ok a, t) j = j
      from (err e, t) j = l t j

  pub create-Keeps :
      (t : String) (client user : Option String) (password : String)
      → Keeps (create_tenant_database v t client user password)
  unfolding create_tenant_database
  create-Keeps t client user password =
      rescue-Keeps (provision v t (credentials_of t password) client user) (clean_up v t)
        (provision-Keeps t password client user) (clean_up-Keeps t)
