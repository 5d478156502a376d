-- ===== src/Tenants/Isolation.antt =====
-- Which database serves a request, after any run of src/database/multi-tenant.service.ts and src/tenant.
use accurack_software_backen.Common.{
  String, Option, none, some, List, [], ◌∷◌, ◌≡◌, refl, sym, ap, ◌∙◌,
}
use accurack_software_backen.Effect.{Result, ok, err, ◌>>=◌, ◌>>◌, query}
use accurack_software_backen.Tenants.Server.{Credentials, Server}
use accurack_software_backen.Tenants.Databases.{
  Host, database_of, work, clean_up, delete_tenant_database, close_pool, drop_pool, pool_of,
  pool_for, cached_pool, get_tenant_connection, entry,
}
use accurack_software_backen.Tenants.Context.{
  Request, Client, master, tenant, tenant_context, address, cached, get_tenant_prisma_client,
  disconnect_all, as_tenant, with_credentials, or_master, client_for, get_prisma_client,
}
use accurack_software_backen.Tenants.Events.{
  Event, create, delete, connect, serve, disconnect, perform, run,
}
use accurack_software_backen.Tenants.Maps.{entry-cons, entry-without-eq-some}
use accurack_software_backen.Tenants.Lifetime.{delete_tenant_database-Removed}
use accurack_software_backen.Tenants.Keeps.{
  Leads, IsIsolated, Keeps, >>=-Keeps, work-Keeps, pure-Keeps, query-Keeps, clean_up-Keeps,
  create-Keeps,
}

module _ {S : Type 0} (v : Server S) (host port : String) where
  drop_pool-Keeps : (t : String) → Keeps v host port (drop_pool t)
  drop_pool-Keeps t h i = record {
    stored = i.stored;
    pooled = λ x c e. i.pooled x c (entry-without-eq-some t x h.pools c e);
    cached = i.cached;
  }

  close_pool-Keeps :
      (t : String) (found : Option Credentials) → Keeps v host port (close_pool v t found)
  close_pool-Keeps t none = pure-Keeps v host port tt
  close_pool-Keeps t (some c) =
      >>=-Keeps v host port (work (v.end_pool c)) (λ _. drop_pool t)
        (work-Keeps v host port (v.end_pool c) (v.end_pool-inside c)) (λ _. drop_pool-Keeps t)

  delete-Keeps : (t : String) → Keeps v host port (delete_tenant_database v t)
  unfolding delete_tenant_database
  delete-Keeps t =
      let closing = query (pool_of t) >>= close_pool v t in
      let ending = work (v.terminate (database_of t)) in
      >>=-Keeps v host port (closing >> ending) (λ _. clean_up v t)
        (>>=-Keeps v host port closing (λ _. ending)
          (>>=-Keeps v host port (query (pool_of t)) (close_pool v t)
            (query-Keeps v host port (pool_of t)) (close_pool-Keeps t))
          (λ _.
            work-Keeps v host port (v.terminate (database_of t))
              (v.terminate-inside (database_of t))))
        (λ _. clean_up-Keeps v host port t)

  -- The stored credentials of a tenant, read where the server answers, are for its own database.
  read-own :
      (t : String) (h : Host S) (found : Option Credentials)
      → IsIsolated v host port h
      → v.select_credentials t h.server ≡ ok found
      → (c : Credentials) → found ≡ some c
      → c.database_name ≡ database_of t
  read-own t h found i e c same =
      i.stored t c (sym (v.select_credentials-ok t h.server found e) ∙ same)

  -- `cached_pool` where there is no pool and the server has answered.
  abbrev pooled_after : String → Host S → Result (Option Credentials) → Result Credentials × Host S
  pooled_after t h r = (query (λ x. r) >>= pool_for v t) h

  pool_for-Keeps :
      (t : String) (h : Host S)
      → IsIsolated v host port h
      → (r : Result (Option Credentials)) → v.select_credentials t h.server ≡ r
      → IsIsolated v host port (pooled_after t h r).1
  pool_for-Keeps t h i (err e) x = i
  pool_for-Keeps t h i (ok none) x = i
  pool_for-Keeps t h i (ok (some c)) x = record {
    stored = i.stored;
    pooled =
        entry-cons (λ k b. b.database_name ≡ database_of k) t c h.pools
          (read-own t h (some c) i x c refl) i.pooled;
    cached = i.cached;
  }

  cached_pool-Keeps :
      (t : String) (found : Option Credentials) → Keeps v host port (cached_pool v t found)
  cached_pool-Keeps t (some c) h i = i
  cached_pool-Keeps t none h i = pool_for-Keeps t h i _ refl

  connect-Keeps : (t : String) → Keeps v host port (get_tenant_connection v t)
  unfolding get_tenant_connection
  connect-Keeps t =
      >>=-Keeps v host port (query (pool_of t)) (cached_pool v t)
        (query-Keeps v host port (pool_of t)) (cached_pool-Keeps t)

  -- The database that may serve a request of the tenant: the master's, or the tenant's own.
  pub data Served (context : Option String) : Result Client → Type 0 where
    by_master : {out : Result Client} → out ≡ ok master → Served context out
    by_own :
        {out : Result Client} (t url : String)
        → context ≡ some t
        → out ≡ ok (tenant url)
        → Leads v host port t url
        → Served context out

  record Serves (context : Option String) (out : Result Client × Host S) : Type 0 where
    served : Served context out.0
    isolated : IsIsolated v host port out.1

  -- `get_tenant_prisma_client` where the cache has answered.
  abbrev cache_after : String → String → Host S → Option String → Result Client × Host S
  cache_after t url h found = or_master ((cached t url found >>= as_tenant v host port) h)

  cached-Serves :
      (t url : String) (h : Host S)
      → IsIsolated v host port h
      → Leads v host port t url
      → (found : Option String) → entry t h.clients ≡ found
      → Serves (some t) (cache_after t url h found)
  cached-Serves t url h i leads (some known) e = record {
    served = by_own t known refl refl (i.cached t known e);
    isolated = i;
  }
  cached-Serves t url h i leads none e = record {
    served = by_own t url refl refl leads;
    isolated = record {
      stored = i.stored;
      pooled = i.pooled;
      cached = entry-cons (Leads v host port) t url h.clients leads i.cached;
    };
  }

  -- `look_up_client` where the server has answered.
  abbrev found_after : String → Host S → Result (Option Credentials) → Result Client × Host S
  found_after t h r = or_master ((query (λ x. r) >>= with_credentials v host port t) h)

  look_up-Serves :
      (t : String) (h : Host S)
      → IsIsolated v host port h
      → (r : Result (Option Credentials)) → v.select_credentials t h.server ≡ r
      → Serves (some t) (found_after t h r)
  unfolding get_tenant_prisma_client
  look_up-Serves t h i (err e) x = record { served = by_master refl; isolated = i }
  look_up-Serves t h i (ok none) x = record { served = by_master refl; isolated = i }
  look_up-Serves t h i (ok (some c)) x =
      cached-Serves t (address host port c) h i
        (record { credentials = c; own = read-own t h (some c) i x c refl; address_eq = refl })
        (entry t h.clients) refl

  client_for-Serves :
      (context : Option String) (h : Host S)
      → IsIsolated v host port h
      → Serves context (client_for v host port context h)
  client_for-Serves none h i = record { served = by_master refl; isolated = i }
  client_for-Serves (some t) h i = look_up-Serves t h i _ refl

  serve-Keeps : (r : Request) → Keeps v host port (get_prisma_client v host port r)
  unfolding get_prisma_client
  serve-Keeps r h i = (client_for-Serves (tenant_context r) h i).isolated

  perform-Keeps :
      (e : Event) (h : Host S)
      → IsIsolated v host port h
      → IsIsolated v host port (perform v host port e h)
  unfolding perform disconnect_all
  perform-Keeps (create t client user password) h i =
      create-Keeps v host port t client user password h i
  perform-Keeps (delete t) h i = delete-Keeps t h i
  perform-Keeps (connect t) h i = connect-Keeps t h i
  perform-Keeps (serve r) h i = serve-Keeps r h i
  perform-Keeps disconnect h i = record {
    stored = i.stored;
    pooled = i.pooled;
    cached = λ t url e. cc e;
  }

  pub run-IsIsolated :
      (es : List Event) (h : Host S)
      → IsIsolated v host port h
      → IsIsolated v host port (run v host port es h)
  unfolding run
  run-IsIsolated [] h i = i
  run-IsIsolated (e ∷ es) h i = run-IsIsolated es (perform v host port e h) (perform-Keeps e h i)

  -- After any run of databases made and deleted, connections and requests, from a state in which what is
  -- stored and cached for each tenant is for its own database, a request is served: by the master's
  -- database, or, where it is made for a tenant, by a client of the database of this tenant.
  pub run-Served :
      (es : List Event) (h : Host S) (r : Request)
      → IsIsolated v host port h
      → Served (tenant_context r) (get_prisma_client v host port r (run v host port es h)).0
  unfolding get_prisma_client
  run-Served es h r i =
      (client_for-Serves (tenant_context r) (run v host port es h) (run-IsIsolated es h i)).served

  -- After the database of a tenant is deleted by a call that returned, the requests of the tenant are
  -- served by the master's database.
  pub delete_tenant_database-master :
      (t : String) (h h' : Host S) (u : Unit {0}) (r : Request)
      → delete_tenant_database v t h ≡ (ok u, h')
      → tenant_context r ≡ some t
      → get_prisma_client v host port r h' ≡ (ok master, h')
  unfolding get_prisma_client
  delete_tenant_database-master t h h' u r e context =
      let (removed, _, _) = delete_tenant_database-Removed v t h h' u e in
      ap (λ x. client_for v host port x h') context
      ∙ unknown (v.select_credentials t h'.server) refl removed.unknown
    where
      unknown :
          (x : Result (Option Credentials))
          → v.select_credentials t h'.server ≡ x
          → (v.view h'.server).credentials t ≡ none
          → found_after t h' x ≡ (ok master, h')
      unknown (err z) a b = refl
      unknown (ok found) a b =
          ap (λ y. found_after t h' (ok y)) (v.select_credentials-ok t h'.server found a ∙ b)
