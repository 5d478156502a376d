-- ===== src/Tenants/Cleanup.antt =====
-- What remains of a tenant where src/database/multi-tenant.service.ts fails to make its database, and
-- where it deletes it.
use accurack_software_backen.Common.{
  String, true, false, Option, none, some, ◌≡◌, refl, sym, ap, subst, ◌∙◌,
}
use accurack_software_backen.Effect.{Result, ok, Action, is_ok, ◌>>◌, pure, write}
use accurack_software_backen.Effect.Laws.{>>=-eq-ok, >>=_of_ok}
use accurack_software_backen.Prisma.Reads.{eq-ok_of_is_ok}
use accurack_software_backen.Tenants.Server.{Credentials, View, put, Server}
use accurack_software_backen.Tenants.Databases.{
  Host, database_of, role_of, credentials_of, with_server, statement, work,
  store_tenant_credentials, insert_client_record, insert_user_record, fill, provision, clean_up,
}
use accurack_software_backen.Tenants.Views.{
  Elsewhere, Elsewhere-refl, put-elsewhere, cleaned, seen, statement-eq-ok, IsApart, >>=-IsApart,
  work-IsApart, statement-IsApart,
}
use accurack_software_backen.Tenants.Provision.{CanDrop}

module _ {S : Type 0} (v : Server S) (tenant : String) where
  create_database-IsApart : IsApart v tenant (statement (v.create_database (database_of tenant)))
  create_database-IsApart = statement-IsApart v tenant _ λ s s' e.
      subst (Elsewhere tenant (v.view s)) (sym (v.create_database-ok (database_of tenant) s s' e).1)
        (record {
          databases = λ n d. put-elsewhere (database_of tenant) n true (v.view s).databases d;
          roles = λ n d. refl;
          credentials = λ t d. refl;
        })

  create_role-IsApart :
      (password name : String)
      → IsApart v tenant (statement (v.create_role (role_of tenant) password name))
  create_role-IsApart password name = statement-IsApart v tenant _ λ s s' e.
      subst (Elsewhere tenant (v.view s))
        (sym (v.create_role-ok (role_of tenant) password name s s' e))
        (record {
          databases = λ n d. refl;
          roles = λ n d. put-elsewhere (role_of tenant) n true (v.view s).roles d;
          credentials = λ t d. refl;
        })

  store-IsApart : (c : Credentials) → IsApart v tenant (store_tenant_credentials v tenant c)
  unfolding store_tenant_credentials
  store-IsApart c =
      >>=-IsApart v tenant (work v.initialize_master)
        (λ _. statement (v.store_credentials tenant c))
        (work-IsApart v tenant v.initialize_master v.initialize_master-inside)
        (λ _. statement-IsApart v tenant _ λ s s' e.
          subst (Elsewhere tenant (v.view s)) (sym (v.store_credentials-ok tenant c s s' e))
            (record {
              databases = λ n d. refl;
              roles = λ n d. refl;
              credentials = λ t d. put-elsewhere tenant t (some c) (v.view s).credentials d;
            }))

  insert_client-IsApart :
      (c : Credentials) (client : Option String)
      → IsApart v tenant (insert_client_record v c client)
  insert_client-IsApart c none = λ h. Elsewhere-refl tenant (seen v h)
  insert_client-IsApart c (some id) =
      work-IsApart v tenant (v.insert_client c id) (v.insert_client-inside c id)

  insert_user-IsApart :
      (c : Credentials) (user : Option String) → IsApart v tenant (insert_user_record v c user)
  insert_user-IsApart c none = λ h. Elsewhere-refl tenant (seen v h)
  insert_user-IsApart c (some id) =
      work-IsApart v tenant (v.insert_user c id) (v.insert_user-inside c id)

  module _ (password : String) (client user : Option String) where
    abbrev own : Credentials
    own = credentials_of tenant password

    abbrev granting : Action (Host S) (Unit {0})
    granting = work (v.grant_schema own.database_name own.user_name)

    abbrev storing : Action (Host S) (Unit {0})
    storing = store_tenant_credentials v tenant own

    abbrev shaping : Action (Host S) (Unit {0})
    shaping = work (v.initialize_schema own)

    fill-IsApart : IsApart v tenant (fill v tenant own client user)
    unfolding fill
    fill-IsApart =
        >>=-IsApart v tenant (granting >> storing >> shaping >> insert_client_record v own client)
          (λ _. insert_user_record v own user)
          (>>=-IsApart v tenant (granting >> storing >> shaping)
            (λ _. insert_client_record v own client)
            (>>=-IsApart v tenant (granting >> storing) (λ _. shaping)
              (>>=-IsApart v tenant granting (λ _. storing)
                (work-IsApart v tenant (v.grant_schema own.database_name own.user_name)
                  (v.grant_schema-inside own.database_name own.user_name))
                (λ _. store-IsApart own))
              (λ _.
                work-IsApart v tenant (v.initialize_schema own) (v.initialize_schema-inside own)))
            (λ _. insert_client-IsApart own client))
          (λ _. insert_user-IsApart own user)

    abbrev creating : Action (Host S) (Unit {0})
    creating = statement (v.create_database own.database_name)

    abbrev enrolling : Action (Host S) (Unit {0})
    enrolling = statement (v.create_role own.user_name own.password own.database_name)

    pub provision-IsApart : IsApart v tenant (provision v tenant own client user)
    unfolding provision
    provision-IsApart =
        >>=-IsApart v tenant (creating >> enrolling >> fill v tenant own client user)
          (λ _. pure own.database_name)
          (>>=-IsApart v tenant (creating >> enrolling) (λ _. fill v tenant own client user)
            (>>=-IsApart v tenant creating (λ _. enrolling) create_database-IsApart
              (λ _. create_role-IsApart own.password own.database_name))
            (λ _. fill-IsApart))
          (λ _ h. Elsewhere-refl tenant (seen v h))

  -- A cleaning up that returns has removed the database, the role and the credentials.
  pub clean_up-seen :
      (h h' : Host S) (u : Unit {0})
      → clean_up v tenant h ≡ (ok u, h')
      → (seen v h' ≡ cleaned tenant (seen v h)) × (h'.pools ≡ h.pools) × (h'.clients ≡ h.clients)
  unfolding clean_up
  clean_up-seen h h' u e =
      let dropping = statement (v.drop_database (database_of tenant)) in
      let unrolling = statement (v.drop_role (role_of tenant)) in
      let (_, h2, e2, third) =
        >>=-eq-ok (dropping >> unrolling) (λ _. statement (v.remove_credentials tenant)) h h' u e in
      let (_, h1, e1, second) = >>=-eq-ok dropping (λ _. unrolling) h h2 _ e2 in
      let (s1, done1, at1) = statement-eq-ok v (v.drop_database (database_of tenant)) h h1 _ e1 in
      let (s2, done2, at2) = statement-eq-ok v (v.drop_role (role_of tenant)) h1 h2 _ second in
      let (s3, done3, at3) = statement-eq-ok v (v.remove_credentials tenant) h2 h' u third in
      (
        ap (seen v) at3
            ∙ v.remove_credentials-ok tenant h2.server s3 done3
            ∙ ap (λ (w : View). record w { credentials = put tenant none w.credentials })
                (ap (seen v) at2
                  ∙ v.drop_role-ok (role_of tenant) h1.server s2 done2
                  ∙ ap (λ (w : View). record w { roles = put (role_of tenant) false w.roles })
                      (ap (seen v) at1
                        ∙ v.drop_database-ok (database_of tenant) h.server s1 done1)),
        ap (λ (x : Host S). x.pools) at3
            ∙ ap (λ (x : Host S). x.pools) at2
            ∙ ap (λ (x : Host S). x.pools) at1,
        ap (λ (x : Host S). x.clients) at3
            ∙ ap (λ (x : Host S). x.clients) at2
            ∙ ap (λ (x : Host S). x.clients) at1,
      )

  statement-returns :
      (f : S → Result S) (h : Host S)
      → is_ok (f h.server) ≡ true
      → (h' : Host S) × (statement f h ≡ (ok tt, h'))
  statement-returns f h e =
      let (s, answer) = eq-ok_of_is_ok (f h.server) e in
      (record h { server = s }, ap (λ r. write (λ x. with_server h r) h) answer)

  pub clean_up-returns :
      CanDrop v tenant → (h : Host S) → (h' : Host S) × (clean_up v tenant h ≡ (ok tt, h'))
  unfolding clean_up
  clean_up-returns can h =
      let dropping = statement (v.drop_database (database_of tenant)) in
      let unrolling = statement (v.drop_role (role_of tenant)) in
      let removing = statement (v.remove_credentials tenant) in
      let (h1, e1) =
        statement-returns (v.drop_database (database_of tenant)) h (can.database h.server) in
      let (h2, e2) = statement-returns (v.drop_role (role_of tenant)) h1 (can.role h1.server) in
      let (h3, e3) =
        statement-returns (v.remove_credentials tenant) h2 (can.credentials h2.server) in
      (
        h3,
        >>=_of_ok (dropping >> unrolling) (λ _. removing) h h2 tt
              (>>=_of_ok dropping (λ _. unrolling) h h1 tt e1 ∙ e2)
            ∙ e3,
      )
