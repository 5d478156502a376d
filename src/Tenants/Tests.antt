-- ===== src/Tenants/Tests.antt =====
-- Tenants of src/database and src/tenant on a server in memory.
use accurack_software_backen.Common.{String, true, false, none, some, [], ◌∷◌, ◌≡◌, refl}
use accurack_software_backen.Effect.{database, ok, err, is_ok}
use accurack_software_backen.Tenants.Server.{View}
use accurack_software_backen.Tenants.Databases.{
  Host, database_of, credentials_of, entry, create_tenant_database, delete_tenant_database,
  provision, fill, store_tenant_credentials, clean_up,
}
use accurack_software_backen.Tenants.Context.{
  Request, master, tenant, address, get_tenant_prisma_client, get_prisma_client, tenant_context,
}
use accurack_software_backen.Tenants.Events.{create, serve, run}
use accurack_software_backen.Tenants.Memory.{memory_server}
use accurack_software_backen.Tenants.Views.{Removed, seen}
use accurack_software_backen.Tenants.Provision.{CanDrop, provisioned}
use accurack_software_backen.Tenants.Lifetime.{
  create_tenant_database-Provisioned, create_tenant_database-Removed, create_tenant_database_drops,
  delete_tenant_database-Removed,
}
use accurack_software_backen.Tenants.Keeps.{IsIsolated}
use accurack_software_backen.Tenants.Isolation.{Served, run-Served, delete_tenant_database-master}

abbrev empty_host : Host View
empty_host = record {
  server = record { databases = λ n. false; roles = λ n. false; credentials = λ t. none };
  pools = [];
  clients = [];
}

abbrev after_create : Host View
after_create = (create_tenant_database memory_server "acme" (some "acme") none "pw1" empty_host).1

abbrev after_twice : Host View
after_twice = (create_tenant_database memory_server "acme" none none "pw2" after_create).1

abbrev after_delete : Host View
after_delete = (delete_tenant_database memory_server "acme" after_create).1

abbrev ask : String → Request
ask url = record { url = url; client_id = some "acme"; use_master_db = false }

abbrev acme_url : String
acme_url = address "localhost" "5432" (credentials_of "acme" "pw1")

creates_acme :
    create_tenant_database memory_server "acme" (some "acme") none "pw1" empty_host
    ≡ (ok "client_acme_db", after_create)
unfolding create_tenant_database provision fill store_tenant_credentials clean_up
creates_acme = refl

refuses_twice :
    create_tenant_database memory_server "acme" none none "pw2" after_create
    ≡ (err (database "database already exists"), after_twice)
unfolding create_tenant_database provision fill store_tenant_credentials clean_up
refuses_twice = refl

deletes_acme : delete_tenant_database memory_server "acme" after_create ≡ (ok tt, after_delete)
unfolding delete_tenant_database create_tenant_database provision fill store_tenant_credentials
    clean_up
deletes_acme = refl

serves_acme :
    (get_prisma_client memory_server "localhost" "5432" (ask "/sales?page=1") after_create).0
    ≡ ok (tenant acme_url)
unfolding get_prisma_client get_tenant_prisma_client create_tenant_database provision fill
    store_tenant_credentials clean_up
serves_acme = refl

-- A query string with the path of another controller in it is served by the master's database.
serves_master :
    (get_prisma_client memory_server "localhost" "5432"
      (ask "/sales?page=1&next=/auth")
      after_create).0
    ≡ ok master
unfolding get_prisma_client
serves_master = refl

can_drop : CanDrop memory_server "acme"
can_drop = record { database = λ w. refl; role = λ w. refl; credentials = λ w. refl }

isolated : IsIsolated memory_server "localhost" "5432" empty_host
isolated = record { stored = λ t c e. cc e; pooled = λ t c e. cc e; cached = λ t url e. cc e }

there : (seen memory_server after_create).databases (database_of "acme") ≡ true
unfolding create_tenant_database provision fill store_tenant_credentials clean_up
there = refl

create_tenant_database-Provisioned_example :
    ("client_acme_db" ≡ database_of "acme")
    × ((seen memory_server empty_host).databases (database_of "acme") ≡ false)
    × (seen memory_server after_create
        ≡ provisioned "acme" (credentials_of "acme" "pw1") (seen memory_server empty_host))
create_tenant_database-Provisioned_example =
    create_tenant_database-Provisioned memory_server "acme" "pw1" (some "acme") none empty_host
      after_create "client_acme_db" creates_acme

create_tenant_database-Removed_example :
    Removed "acme" (seen memory_server after_create) (seen memory_server after_twice)
create_tenant_database-Removed_example =
    create_tenant_database-Removed memory_server "acme" "pw2" none none can_drop after_create
      after_twice (database "database already exists") refuses_twice

create_tenant_database_drops_example :
    (is_ok (create_tenant_database memory_server "acme" none none "pw2" after_create).0 ≡ false)
    × Removed "acme" (seen memory_server after_create) (
        seen memory_server
          (create_tenant_database memory_server "acme" none none "pw2" after_create).1)
create_tenant_database_drops_example =
    create_tenant_database_drops memory_server "acme" "pw2" none none can_drop after_create there

delete_tenant_database-Removed_example :
    Removed "acme" (seen memory_server after_create) (seen memory_server after_delete)
    × (entry "acme" after_delete.pools ≡ none)
    × (after_delete.clients ≡ after_create.clients)
delete_tenant_database-Removed_example =
    delete_tenant_database-Removed memory_server "acme" after_create after_delete tt deletes_acme

run-Served_example :
    Served memory_server "localhost" "5432"
      (tenant_context (ask "/sales"))
      (get_prisma_client memory_server "localhost" "5432" (ask "/sales") (
        run memory_server "localhost" "5432"
          (create "acme" none none "pw1" ∷ serve (ask "/sales") ∷ [])
          empty_host)).0
run-Served_example =
    run-Served memory_server "localhost" "5432"
      (create "acme" none none "pw1" ∷ serve (ask "/sales") ∷ []) empty_host (ask "/sales") isolated

delete_tenant_database-master_example :
    get_prisma_client memory_server "localhost" "5432" (ask "/sales") after_delete
    ≡ (ok master, after_delete)
delete_tenant_database-master_example =
    delete_tenant_database-master memory_server "localhost" "5432" "acme" after_create after_delete
      tt (ask "/sales") deletes_acme refl
