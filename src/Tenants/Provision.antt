-- ===== src/Tenants/Provision.antt =====
-- The database of a tenant, made and deleted: src/database/multi-tenant.service.ts.
use accurack_software_backen.Common.{
  String, true, false, Option, none, some, ◌≡◌, refl, sym, ap, ◌∙◌,
}
use accurack_software_backen.Effect.{Result, ok, Action, is_ok, ◌>>◌, pure}
use accurack_software_backen.Effect.Laws.{>>=-eq-ok}
use accurack_software_backen.Tenants.Server.{Credentials, View, put, Server}
use accurack_software_backen.Tenants.Databases.{
  Host, database_of, role_of, statement, work, store_tenant_credentials, insert_client_record,
  insert_user_record, fill, provision,
}
use accurack_software_backen.Tenants.Views.{seen, statement-eq-ok}

-- The database, the role and the credentials of the tenant, and nothing else.
abbrev pub provisioned : String → Credentials → View → View
provisioned tenant c w = record {
  databases = put c.database_name true w.databases;
  roles = put c.user_name true w.roles;
  credentials = put tenant (some c) w.credentials;
}

module _ {S : Type 0} (v : Server S) where
  -- The server carries out what a cleaning up asks for.
  pub record CanDrop (tenant : String) : Type 0 where
    pub database : (s : S) → is_ok (v.drop_database (database_of tenant) s) ≡ true
    pub role : (s : S) → is_ok (v.drop_role (role_of tenant) s) ≡ true
    pub credentials : (s : S) → is_ok (v.remove_credentials tenant s) ≡ true

  store-seen :
      (tenant : String) (c : Credentials) (h h' : Host S) (u : Unit {0})
      → store_tenant_credentials v tenant c h ≡ (ok u, h')
      → seen v h' ≡ record (seen v h) { credentials = put tenant (some c) (seen v h).credentials }
  unfolding store_tenant_credentials
  store-seen tenant c h h' u e =
      let (x, t, first, rest) =
        >>=-eq-ok (work v.initialize_master) (λ _. statement (v.store_credentials tenant c)) h h' u
          e in
      let (s, stored, at) = statement-eq-ok v (v.store_credentials tenant c) t h' u rest in
      let same : seen v t ≡ seen v h =
        ap (λ (o : Result (Unit {0}) × Host S). seen v o.1) (sym first)
        ∙ v.initialize_master-inside h.server in
      ap (seen v) at
      ∙ v.store_credentials-ok tenant c t.server s stored
      ∙ ap (λ (w : View). record w { credentials = put tenant (some c) w.credentials }) same

  insert_client_record-seen :
      (c : Credentials) (client : Option String) (h : Host S)
      → seen v (insert_client_record v c client h).1 ≡ seen v h
  insert_client_record-seen c none h = refl
  insert_client_record-seen c (some id) h = v.insert_client-inside c id h.server

  insert_user_record-seen :
      (c : Credentials) (user : Option String) (h : Host S)
      → seen v (insert_user_record v c user h).1 ≡ seen v h
  insert_user_record-seen c none h = refl
  insert_user_record-seen c (some id) h = v.insert_user-inside c id h.server

  -- A call that leaves what is seen, and that returned.
  kept :
      (m : Action (Host S) (Unit {0})) (h h' : Host S) (u : Unit {0})
      → seen v (m h).1 ≡ seen v h
      → m h ≡ (ok u, h')
      → seen v h' ≡ seen v h
  kept m h h' u same e = ap (λ (o : Result (Unit {0}) × Host S). seen v o.1) (sym e) ∙ same

  module _ (tenant : String) (c : Credentials) (client user : Option String) where
    abbrev granting : Action (Host S) (Unit {0})
    granting = work (v.grant_schema c.database_name c.user_name)

    abbrev storing : Action (Host S) (Unit {0})
    storing = store_tenant_credentials v tenant c

    abbrev shaping : Action (Host S) (Unit {0})
    shaping = work (v.initialize_schema c)

    fill-seen :
        (h h' : Host S) (u : Unit {0})
        → fill v tenant c client user h ≡ (ok u, h')
        → seen v h' ≡ record (seen v h) { credentials = put tenant (some c) (seen v h).credentials }
    unfolding fill
    fill-seen h h' u e =
        let (_, h4, e4, last) =
          >>=-eq-ok (granting >> storing >> shaping >> insert_client_record v c client)
            (λ _. insert_user_record v c user) h h' u e in
        let (_, h3, e3, fourth) =
          >>=-eq-ok (granting >> storing >> shaping) (λ _. insert_client_record v c client) h h4 _
            e4 in
        let (_, h2, e2, third) = >>=-eq-ok (granting >> storing) (λ _. shaping) h h3 _ e3 in
        let (_, h1, e1, second) = >>=-eq-ok granting (λ _. storing) h h2 _ e2 in
        kept (insert_user_record v c user) h4 h' u (insert_user_record-seen c user h4) last
        ∙ kept (insert_client_record v c client) h3 h4 _ (insert_client_record-seen c client h3)
            fourth
        ∙ kept shaping h2 h3 _ (v.initialize_schema-inside c h2.server) third
        ∙ store-seen tenant c h1 h2 _ second
        ∙ ap (λ (w : View). record w { credentials = put tenant (some c) w.credentials })
            (kept granting h h1 _ (v.grant_schema-inside c.database_name c.user_name h.server) e1)

    abbrev creating : Action (Host S) (Unit {0})
    creating = statement (v.create_database c.database_name)

    abbrev enrolling : Action (Host S) (Unit {0})
    enrolling = statement (v.create_role c.user_name c.password c.database_name)

    pub provision-seen :
        (h h' : Host S) (name : String)
        → provision v tenant c client user h ≡ (ok name, h')
        → ((seen v h).databases c.database_name ≡ false)
          × (seen v h' ≡ provisioned tenant c (seen v h))
          × (name ≡ c.database_name)
    unfolding provision
    provision-seen h h' name e =
        let (_, h3, e3, last) =
          >>=-eq-ok (creating >> enrolling >> fill v tenant c client user)
            (λ _. pure c.database_name) h h' name e in
        let (_, h2, e2, third) =
          >>=-eq-ok (creating >> enrolling) (λ _. fill v tenant c client user) h h3 _ e3 in
        let (_, h1, e1, second) = >>=-eq-ok creating (λ _. enrolling) h h2 _ e2 in
        let (s1, done1, at1) = statement-eq-ok v (v.create_database c.database_name) h h1 _ e1 in
        let (s2, done2, at2) =
          statement-eq-ok v (v.create_role c.user_name c.password c.database_name) h1 h2 _ second in
        let (free, view1) = v.create_database-ok c.database_name h.server s1 done1 in
        let view2 = v.create_role-ok c.user_name c.password c.database_name h1.server s2 done2 in
        let seen1 : seen v h1
            ≡ record (seen v h) { databases = put c.database_name true (seen v h).databases } =
          ap (seen v) at1 ∙ view1 in
        let seen2 : seen v h2
            ≡ record (seen v h1) { roles = put c.user_name true (seen v h1).roles } =
          ap (seen v) at2 ∙ view2 in
        (
          free,
          ap (λ (o : Result String × Host S). seen v o.1) (sym last)
              ∙ fill-seen h2 h3 _ third
              ∙ ap (λ (w : View). record w { credentials = put tenant (some c) w.credentials })
                  (seen2
                    ∙ ap (λ (w : View). record w { roles = put c.user_name true w.roles }) seen1),
          cc last,
        )
