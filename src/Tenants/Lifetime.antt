-- ===== src/Tenants/Lifetime.antt =====
-- The life of a tenant's database in src/database/multi-tenant.service.ts: its making, a making that
-- fails, and its deletion.
use accurack_software_backen.Common.{
  String, true, false, Option, none, some, ◌≡◌, refl, sym, ap, subst, ◌∙◌,
}
use accurack_software_backen.Effect.{
  Error, Result, ok, err, Action, is_ok, ◌>>=◌, ◌>>◌, query, rethrow,
}
use accurack_software_backen.Effect.Laws.{>>=-eq-ok, query-eq-ok}
use accurack_software_backen.Tenants.Server.{Credentials, Server}
use accurack_software_backen.Tenants.Databases.{
  Host, database_of, credentials_of, work, provision, clean_up, create_tenant_database,
  delete_tenant_database, close_pool, drop_pool, pool_of, entry, without,
}
use accurack_software_backen.Tenants.Views.{
  Elsewhere, Elsewhere-refl, Removed, cleaned-Removed, seen,
}
use accurack_software_backen.Tenants.Maps.{entry-without}
use accurack_software_backen.Tenants.Provision.{provisioned, provision-seen, CanDrop}
use accurack_software_backen.Tenants.Cleanup.{provision-IsApart, clean_up-seen, clean_up-returns}

module _ {S : Type 0} (v : Server S) (tenant password : String) (client user : Option String) where
  abbrev attempt : Action (Host S) String
  attempt = provision v tenant (credentials_of tenant password) client user

  -- Making the database of a tenant that returns has found no such database, and leaves the database,
  -- its role and the stored credentials, and all else as it was.
  pub create_tenant_database-Provisioned :
      (h h' : Host S) (name : String)
      → create_tenant_database v tenant client user password h ≡ (ok name, h')
      → (name ≡ database_of tenant)
        × ((seen v h).databases (database_of tenant) ≡ false)
        × (seen v h' ≡ provisioned tenant (credentials_of tenant password) (seen v h))
  unfolding create_tenant_database
  create_tenant_database-Provisioned h h' name e =
      let (free, made, named) =
        provision-seen v tenant (credentials_of tenant password) client user h h' name
          (returned (attempt h) refl e) in
      (named, free, made)
    where
      returned :
          (o : Result String × Host S)
          → attempt h ≡ o
          → rethrow (clean_up v tenant) o ≡ (ok name, h')
          → attempt h ≡ (ok name, h')
      returned (ok a, t) x y = x ∙ y
      returned (err z, t) x y = cc y

  -- What is left where an attempt has ended in an error.
  failed-Removed :
      CanDrop v tenant
      → (h : Host S) (o : Result String × Host S) → attempt h ≡ o
      → is_ok o.0 ≡ false
      → Removed tenant (seen v h) (seen v (rethrow (clean_up v tenant) o).1)
  failed-Removed can h (ok a, t) x y = cc y
  failed-Removed can h (err z, t) x y =
      let (h', ended) = clean_up-returns v tenant can t in
      let (left, _, _) = clean_up-seen v tenant t h' tt ended in
      cleaned-Removed tenant (seen v h) (seen v t) (seen v (clean_up v tenant t).1)
        (subst (λ (o : Result String × Host S). Elsewhere tenant (seen v h) (seen v o.1)) x
          (provision-IsApart v tenant password client user h))
        (ap (λ (o : Result (Unit {0}) × Host S). seen v o.1) ended ∙ left)

  -- Where the server carries out the cleaning up, making the database of a tenant that throws, at
  -- whichever step, leaves the tenant no database, no role and no credentials, and others as they were.
  pub create_tenant_database-Removed :
      CanDrop v tenant
      → (h h' : Host S) (e : Error)
      → create_tenant_database v tenant client user password h ≡ (err e, h')
      → Removed tenant (seen v h) (seen v h')
  unfolding create_tenant_database
  create_tenant_database-Removed can h h' e x =
      subst (λ (o : Result String × Host S). Removed tenant (seen v h) (seen v o.1)) x
        (failed-Removed can h (attempt h) refl (threw (attempt h) x))
    where
      threw :
          (o : Result String × Host S)
          → rethrow (clean_up v tenant) o ≡ (err e, h')
          → is_ok o.0 ≡ false
      threw (ok a, t) y = cc y
      threw (err z, t) y = refl

  -- Where the server carries out the cleaning up, making a database for a tenant who has one throws
  -- and drops the database that was there, with its role and its credentials.
  pub create_tenant_database_drops :
      CanDrop v tenant
      → (h : Host S) → (seen v h).databases (database_of tenant) ≡ true
      → let out = create_tenant_database v tenant client user password h in
        (is_ok out.0 ≡ false) × Removed tenant (seen v h) (seen v out.1)
  create_tenant_database_drops can h there =
      ended (create_tenant_database v tenant client user password h) refl
    where
      ended :
          (o : Result String × Host S)
          → create_tenant_database v tenant client user password h ≡ o
          → (is_ok o.0 ≡ false) × Removed tenant (seen v h) (seen v o.1)
      ended (ok name, h') x = cc ((create_tenant_database-Provisioned h h' name x).1, there)
      ended (err e, h') x = (refl, create_tenant_database-Removed can h h' e x)

module _ {S : Type 0} (v : Server S) (tenant : String) where
  close_pool-closed :
      (found : Option Credentials) (h h' : Host S) (u : Unit {0})
      → pool_of tenant h ≡ ok found
      → close_pool v tenant found h ≡ (ok u, h')
      → (entry tenant h'.pools ≡ none) × (seen v h' ≡ seen v h) × (h'.clients ≡ h.clients)
  close_pool-closed none h h' u e x =
      let same : h ≡ h' = ap (λ (o : Result (Unit {0}) × Host S). o.1) x in
      let gone : entry tenant h.pools ≡ none = cc e in
      (
        subst (λ (y : Host S). entry tenant y.pools ≡ none) same gone,
        ap (seen v) (sym same),
        ap (λ (y : Host S). y.clients) (sym same),
      )
  close_pool-closed (some c) h h' u e x =
      let (_, t, first, rest) = >>=-eq-ok (work (v.end_pool c)) (λ _. drop_pool tenant) h h' u x in
      let at : t ≡ (work (v.end_pool c) h).1 =
        ap (λ (o : Result (Unit {0}) × Host S). o.1) (sym first) in
      let left : record t { pools = without tenant t.pools } ≡ h' =
        ap (λ (o : Result (Unit {0}) × Host S). o.1) rest in
      (
        subst (λ (y : Host S). entry tenant y.pools ≡ none) left (entry-without tenant t.pools),
        ap (seen v) (sym left) ∙ ap (seen v) at ∙ v.end_pool-inside c h.server,
        ap (λ (y : Host S). y.clients) (sym left) ∙ ap (λ (y : Host S). y.clients) at,
      )

  -- Deleting the database of a tenant that returns has closed the pool of the tenant and removed the
  -- database, the role and the credentials, and left others as they were; the cached clients stay.
  pub delete_tenant_database-Removed :
      (h h' : Host S) (u : Unit {0})
      → delete_tenant_database v tenant h ≡ (ok u, h')
      → Removed tenant (seen v h) (seen v h')
        × (entry tenant h'.pools ≡ none)
        × (h'.clients ≡ h.clients)
  unfolding delete_tenant_database
  delete_tenant_database-Removed h h' u e =
      let closing = query (pool_of tenant) >>= close_pool v tenant in
      let ending = work (v.terminate (database_of tenant)) in
      let (_, h3, e3, last) = >>=-eq-ok (closing >> ending) (λ _. clean_up v tenant) h h' u e in
      let (_, h2, e2, third) = >>=-eq-ok closing (λ _. ending) h h3 _ e3 in
      let (found, h1, e1, second) =
        >>=-eq-ok (query (pool_of tenant)) (close_pool v tenant) h h2 _ e2 in
      let (asked, at1) = query-eq-ok (pool_of tenant) h h1 found e1 in
      let (gone, seen2, kept2) =
        close_pool-closed found h h2 _ asked
          (subst (λ (x : Host S). close_pool v tenant found x ≡ (ok tt, h2)) at1 second) in
      let at3 : h3 ≡ (ending h2).1 = ap (λ (o : Result (Unit {0}) × Host S). o.1) (sym third) in
      let seen3 : seen v h3 ≡ seen v h =
        ap (seen v) at3 ∙ v.terminate-inside (database_of tenant) h2.server ∙ seen2 in
      let (left, pools, clients) = clean_up-seen v tenant h3 h' u last in
      (
        cleaned-Removed tenant (seen v h) (seen v h3) (seen v h')
            (subst (λ w. Elsewhere tenant (seen v h) w) (sym seen3)
              (Elsewhere-refl tenant (seen v h)))
            left,
        ap (entry tenant) (pools ∙ ap (λ (x : Host S). x.pools) at3) ∙ gone,
        clients ∙ ap (λ (x : Host S). x.clients) at3 ∙ kept2,
      )
