-- ===== src/Tenants/Databases.antt =====
-- src/database/multi-tenant.service.ts: making and deleting the database of a tenant, and the pool of
-- connections to it. The random password is an argument.
use accurack_software_backen.Common.{
  String, not, Option, none, some, List, [], ◌∷◌, keep, ◌==◌, concat, if◌then◌else◌,
}
use accurack_software_backen.Effect.{
  Error, database, Result, ok, err, Action, ◌>>=◌, ◌>>◌, pure, query, write, or_throw, rescue,
}
use accurack_software_backen.Tenants.Server.{Credentials, Server}

pub record Host (S : Type 0) : Type 0 where
  pub server : S
  -- `tenantPools`: the pool of each tenant, by the credentials it was opened with
  pub pools : List (String × Credentials)
  -- `tenantPrismaCache`: the client of each tenant, by the address it was opened with
  pub clients : List (String × String)

abbrev pub database_of : String → String
database_of tenant = concat ("client_" ∷ tenant ∷ "_db" ∷ [])

abbrev pub role_of : String → String
role_of tenant = concat ("user_" ∷ tenant ∷ [])

abbrev pub credentials_of : String → String → Credentials
credentials_of tenant password = record {
  database_name = database_of tenant;
  user_name = role_of tenant;
  password = password;
}

-- `map.get(key)`
abbrev pub entry : {A : Type 0} → String → List (String × A) → Option A
entry k [] = none
entry k (x ∷ xs) = if x.0 == k then some x.1 else entry k xs

-- `map.delete(key)`
abbrev pub without : {A : Type 0} → String → List (String × A) → List (String × A)
without k xs = keep (λ x. not (x.0 == k)) xs

module _ {S : Type 0} where
  abbrev pub with_server : Host S → Result S → Result (Host S)
  with_server h (ok s) = ok (record h { server = s })
  with_server h (err e) = err e

  -- One statement: it is done, or it throws and nothing is.
  abbrev pub statement : (S → Result S) → Action (Host S) (Unit {0})
  statement f = write (λ h. with_server h (f h.server))

  -- Work that may throw half way.
  abbrev pub work : {A : Type 0} → Action S A → Action (Host S) A
  work m h = let (r, s) = m h.server in (r, record h { server = s })

  abbrev pub read : {A : Type 0} → (S → Result A) → Action (Host S) A
  read f = query (λ h. f h.server)

  abbrev pub add_pool : String → Credentials → Action (Host S) (Unit {0})
  add_pool tenant c = write (λ h. ok (record h { pools = (tenant, c) ∷ h.pools }))

  abbrev pub drop_pool : String → Action (Host S) (Unit {0})
  drop_pool tenant = write (λ h. ok (record h { pools = without tenant h.pools }))

  abbrev pub pool_of : String → Host S → Result (Option Credentials)
  pool_of tenant h = ok (entry tenant h.pools)

module _ {S : Type 0} (v : Server S) where
  open v use {
    create_database, create_role, drop_database, drop_role, store_credentials, select_credentials,
    remove_credentials, initialize_master, terminate, end_pool, grant_schema, initialize_schema,
    insert_client, insert_user,
  }

  unfoldable pub store_tenant_credentials : String → Credentials → Action (Host S) (Unit {0})
  store_tenant_credentials tenant c =
      work initialize_master >> statement (store_credentials tenant c)

  abbrev pub insert_client_record : Credentials → Option String → Action (Host S) (Unit {0})
  insert_client_record c none = pure tt
  insert_client_record c (some id) = work (insert_client c id)

  abbrev pub insert_user_record : Credentials → Option String → Action (Host S) (Unit {0})
  insert_user_record c none = pure tt
  insert_user_record c (some id) = work (insert_user c id)

  -- What fills a database that has been created.
  unfoldable pub fill :
      String → Credentials → Option String → Option String → Action (Host S) (Unit {0})
  fill tenant c client user =
      work (grant_schema c.database_name c.user_name)
      >> store_tenant_credentials tenant c
      >> work (initialize_schema c)
      >> insert_client_record c client
      >> insert_user_record c user

  unfoldable pub provision :
      String → Credentials → Option String → Option String → Action (Host S) String
  provision tenant c client user =
      statement (create_database c.database_name)
      >> statement (create_role c.user_name c.password c.database_name)
      >> fill tenant c client user
      >> pure c.database_name

  unfoldable pub clean_up : String → Action (Host S) (Unit {0})
  clean_up tenant =
      statement (drop_database (database_of tenant))
      >> statement (drop_role (role_of tenant))
      >> statement (remove_credentials tenant)

  unfoldable pub create_tenant_database :
      String → Option String → Option String → String → Action (Host S) String
  create_tenant_database tenant client user password =
      rescue (provision tenant (credentials_of tenant password) client user) (clean_up tenant)

  abbrev pub close_pool : String → Option Credentials → Action (Host S) (Unit {0})
  close_pool tenant none = pure tt
  close_pool tenant (some c) = work (end_pool c) >> drop_pool tenant

  unfoldable pub delete_tenant_database : String → Action (Host S) (Unit {0})
  delete_tenant_database tenant =
      (query (pool_of tenant) >>= close_pool tenant)
      >> work (terminate (database_of tenant))
      >> clean_up tenant

  abbrev pub open_pool : String → Credentials → Action (Host S) Credentials
  open_pool tenant c = add_pool tenant c >> pure c

  abbrev pub no_credentials : String → Error
  no_credentials tenant = database (concat ("Tenant credentials not found for " ∷ tenant ∷ []))

  abbrev pub pool_for : String → Option Credentials → Action (Host S) Credentials
  pool_for tenant found = or_throw found (no_credentials tenant) >>= open_pool tenant

  abbrev pub cached_pool : String → Option Credentials → Action (Host S) Credentials
  cached_pool tenant (some c) = pure c
  cached_pool tenant none = read (select_credentials tenant) >>= pool_for tenant

  unfoldable pub get_tenant_connection : String → Action (Host S) Credentials
  get_tenant_connection tenant = query (pool_of tenant) >>= cached_pool tenant
